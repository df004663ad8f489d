-- ===== src/Authority/Answers.antt =====
-- The answer of Claim of internal/authority/postgres/outbox.go.
use snagline.Prelude.{
  ℕ, suc, String, ◌≡◌, refl, Bool, true, List, [], ◌∷◌, arith, All, Bytes, any-find,
}
use snagline.Tx.{ok}
use snagline.Authority.Tables.{OutboxRow, Db}
use snagline.Authority.Outbox.{
  Item, Grant, has_id, is_open, is_open_id, leased, item_of, lease_rows, claimable, selected, claim,
  valid_claim, ids_of,
}
use snagline.Authority.Emitted.{HasUniqueIds}
use snagline.Authority.Moves.{leased_state}
use snagline.Authority.OutboxRows.{IsRow}
use snagline.Authority.Chosen.{chosen, chosen-IsRow, chosen-HasUniqueIds, All-map}
use snagline.Authority.Leases.{rest-IsRow, leased_read, find_and}
use snagline.Authority.UniqueIds.{History-HasUniqueIds}
use snagline.Authority.Exclusive.{claimable-open}
use snagline.Authority.History.{History}

module _ (worker : String) (lease : ℕ) (grants : ℕ → Grant) where
  lease_rows-total :
      (n : ℕ) (rows : List OutboxRow) (db : Db)
      → HasUniqueIds rows
      → All (IsRow is_open db.outbox) rows
      → (items : List Item) × (db' : Db) × (lease_rows worker lease grants n (ids_of rows) db
          ≡ ok (items, db'))
  unfolding lease_rows
  lease_rows-total n [] db u a = ([], db, refl)
  lease_rows-total n (row ∷ rows) db u a =
      let (items, db', rest) =
        lease_rows-total (suc n) rows (leased_state worker lease (grants n) row.outbox_id db) u.1
          (rest-IsRow worker lease grants n row rows db u.0 a.1) in
      (
        item_of (grants n).token (leased worker lease (grants n) row) db ∷ items,
        db',
        ground (
          arith,
          leased_read worker lease grants n row db a.0,
          any-find (is_open_id row.outbox_id) db.outbox row
              (find_and (has_id row.outbox_id) is_open db.outbox row a.0.0 a.0.1),
        ),
      )

-- In a reachable state a claim with valid arguments always succeeds: it is never refused for a
-- stale lease, whatever rows are locked and whatever tokens it makes.
pub claim_succeeds :
    (sha : Bytes → String) (authority_id : String) (db : Db) (text_le : String → String → Bool)
    (locked : String → Bool) (now : ℕ) (grants : ℕ → Grant) (worker : String) (limit lease : ℕ)
    → History sha authority_id db
    → valid_claim worker limit lease ≡ true
    → (items : List Item) × (db' : Db) × (claim text_le locked now grants worker limit lease db
        ≡ ok (items, db'))
unfolding claim selected
claim_succeeds sha authority_id db text_le locked now grants worker limit lease hist valid =
    let u = History-HasUniqueIds sha authority_id db hist in
    let p = claimable locked now in
    let (items, db', ran) =
      lease_rows-total worker lease grants 0 (chosen text_le p limit db.outbox) db
        (chosen-HasUniqueIds text_le p limit db.outbox u)
        (All-map {P = IsRow p db.outbox} {Q = IsRow is_open db.outbox}
          (claimable-open db.outbox locked now) (chosen text_le p limit db.outbox)
          (chosen-IsRow text_le p limit db.outbox u)) in
    (items, db', ground arith)
