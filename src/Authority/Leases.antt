-- ===== src/Authority/Leases.antt =====
-- The rows and the items of a claim: the loop of Claim of internal/authority/postgres/outbox.go.
use mathlib.Core.Option
use snagline.Prelude.{
  ℕ, suc, String, ◌≡◌, refl, ◌∙◌, sym, inl, inr, Bool, true, false, ◌&&◌, some, List, [], ◌∷◌,
  arith, ◌==◌, eq_iff, eq_refl, find, find-holds, any, if◌then◌else◌, All, Option-cases, subst,
}
use snagline.Tx.{ok}
use snagline.Authority.Tables.{OutboxRow, Db}
use snagline.Authority.Outbox.{
  Item, Grant, has_id, is_open, is_open_id, ids_of, leased, has_token, item_of,
  read_claimed_outbox_item, lease_rows,
}
use snagline.Authority.Emitted.{HasUniqueIds}
use snagline.Authority.Moves.{leased_state, lease_rows-LeaseRound}
use snagline.Authority.OutboxRows.{row_of, row_of-update_where, IsRow}

-- An item is read from the cases and the deliveries.
reads_facts :
    (token : String) (row : OutboxRow) (db₀ db : Db)
    → db.cases ≡ db₀.cases
    → db.deliveries ≡ db₀.deliveries
    → item_of token row db ≡ item_of token row db₀
unfolding item_of
reads_facts token row db₀ db c d = rw (c, d) refl

-- A row that is found and passes a further test is found by both.
pub find_and :
    (p q : OutboxRow → Bool) (rows : List OutboxRow) (row : OutboxRow)
    → find p rows ≡ some row
    → q row ≡ true
    → find (λ (r : OutboxRow). p r && q r) rows ≡ some row
unfolding find
find_and p q [] row h k = absurd (ground arith)
find_and p q (r ∷ rows) row h k = ground (arith, find_and p q rows row)

module _ (worker : String) (lease : ℕ) (grants : ℕ → Grant) where
  pub row_of-leased_state :
      (n : ℕ) (id j : String) (db : Db)
      → row_of j (leased_state worker lease (grants n) id db).outbox
        ≡ Option.map
            (λ (row : OutboxRow).
              if is_open_id id row then leased worker lease (grants n) row else row)
            (row_of j db.outbox)
  row_of-leased_state n id j db =
      row_of-update_where (is_open_id id) (leased worker lease (grants n))
        (λ row. unfold leased in refl) j db.outbox

  -- A round leaves the rows of other identifiers alone.
  other-leased_state :
      (n : ℕ) (id j : String) (db : Db)
      → (j == id) ≡ false
      → row_of j (leased_state worker lease (grants n) id db).outbox ≡ row_of j db.outbox
  other-leased_state n id j db other = elim (Option-cases (row_of j db.outbox)) [
    | inl e ↦ ground (arith, row_of-leased_state n id j db)
    | inr (row, e) ↦ ground (
      arith,
      row_of-leased_state n id j db,
      find-holds (has_id j) db.outbox row,
      eq_iff row.outbox_id j,
      eq_iff row.outbox_id id,
      eq_iff j id,
    )
  ]

  pub other-lease_rows :
      (n : ℕ) (rows : List OutboxRow) (db db' : Db) (items : List Item) (j : String)
      → any (has_id j) rows ≡ false
      → lease_rows worker lease grants n (ids_of rows) db ≡ ok (items, db')
      → row_of j db'.outbox ≡ row_of j db.outbox
  unfolding any
  other-lease_rows n [] db db' items j out h = unfold lease_rows in ground arith
  other-lease_rows n (row ∷ rows) db db' items j out h =
      let r =
        lease_rows-LeaseRound worker lease grants n row.outbox_id (ids_of rows) db db' items h in
      other-lease_rows (suc n) rows (leased_state worker lease (grants n) row.outbox_id db) db'
        r.rest j (ground arith) r.more
      ∙ other-leased_state n row.outbox_id j db
          (ground (arith, eq_iff j row.outbox_id, eq_iff row.outbox_id j))

  -- The items of the rows, in their order, as the claim reads them in `db₀`.
  pub data LeasedBy (db₀ : Db) (out : List OutboxRow)
      : ℕ → List OutboxRow → List Item → Type 0 where
    done : {n : ℕ} → LeasedBy db₀ out n [] []
    more :
        {n : ℕ} {row : OutboxRow} {rows : List OutboxRow} {item : Item} {items : List Item}
        → item ≡ item_of (grants n).token (leased worker lease (grants n) row) db₀
        → row_of row.outbox_id out ≡ some (leased worker lease (grants n) row)
        → LeasedBy db₀ out (suc n) rows items
        → LeasedBy db₀ out n (row ∷ rows) (item ∷ items)

  pub leased_row :
      (n : ℕ) (row : OutboxRow) (db : Db)
      → IsRow is_open db.outbox row
      → row_of row.outbox_id (leased_state worker lease (grants n) row.outbox_id db).outbox
        ≡ some (leased worker lease (grants n) row)
  leased_row n row db (found, h) =
      ground (arith, row_of-leased_state n row.outbox_id row.outbox_id db, eq_refl row.outbox_id)

  -- The item that is read is that of the row just leased.
  pub leased_read :
      (n : ℕ) (row : OutboxRow) (db : Db)
      → IsRow is_open db.outbox row
      → read_claimed_outbox_item row.outbox_id
          (grants n).token
          (leased_state worker lease (grants n) row.outbox_id db)
        ≡ ok (item_of (grants n).token (leased worker lease (grants n) row) db)
  unfolding read_claimed_outbox_item
  leased_read n row db is_row = ground (
    arith,
    find_and (has_id row.outbox_id) (λ (r : OutboxRow). has_token (grants n).token r.lease)
        (leased_state worker lease (grants n) row.outbox_id db).outbox
        (leased worker lease (grants n) row) (leased_row n row db is_row)
        (unfold leased has_token in eq_refl (grants n).token),
    reads_facts (grants n).token (leased worker lease (grants n) row) db
        (leased_state worker lease (grants n) row.outbox_id db) refl refl,
  )

  pub rest-IsRow :
      (n : ℕ) (row : OutboxRow) (rows : List OutboxRow) (db : Db)
      → any (has_id row.outbox_id) rows ≡ false
      → All (IsRow is_open db.outbox) rows
      → All (IsRow is_open (leased_state worker lease (grants n) row.outbox_id db).outbox) rows
  unfolding any
  rest-IsRow n row [] db fresh a = tt
  rest-IsRow n row (other ∷ rows) db fresh a = (
    (other-leased_state n row.outbox_id other.outbox_id db (ground arith) ∙ a.0.0, a.0.1),
    rest-IsRow n row rows db (ground arith) a.1,
  )

  pub lease_rows-LeasedBy :
      (n : ℕ) (rows : List OutboxRow) (db₀ db db' : Db) (items : List Item)
      → db.cases ≡ db₀.cases
      → db.deliveries ≡ db₀.deliveries
      → HasUniqueIds rows
      → All (IsRow is_open db.outbox) rows
      → lease_rows worker lease grants n (ids_of rows) db ≡ ok (items, db')
      → LeasedBy db₀ db'.outbox n rows items
  lease_rows-LeasedBy n [] db₀ db db' [] c d u a h = done
  lease_rows-LeasedBy n [] db₀ db db' (item ∷ items) c d u a h =
      absurd (unfold lease_rows in ground arith)
  lease_rows-LeasedBy n (row ∷ rows) db₀ db db' items c d u a h =
      let r =
        lease_rows-LeaseRound worker lease grants n row.outbox_id (ids_of rows) db db' items h in
      let mid = leased_state worker lease (grants n) row.outbox_id db in
      let token = (grants n).token in
      subst (LeasedBy db₀ db'.outbox n (row ∷ rows)) (sym r.items_eq) (
        more
          (ground (
            arith,
            r.read,
            leased_read n row db a.0,
            reads_facts token (leased worker lease (grants n) row) db₀ db c d,
          ))
          (other-lease_rows (suc n) rows mid db' r.rest row.outbox_id u.0 r.more
            ∙ leased_row n row db a.0)
          (lease_rows-LeasedBy (suc n) rows db₀ mid db' r.rest c d u.1
            (rest-IsRow n row rows db u.0 a.1) r.more))
