-- ===== src/Authority/Exclusive.antt =====
-- One claim and the rows of others: Claim of internal/authority/postgres/outbox.go.
use snagline.Prelude.{
  ℕ, suc, ◌≤◌, ◌<◌, String, ◌≡◌, refl, ◌∙◌, ◌⊎◌, inl, inr, Bool, true, false, some, List, [], ◌∷◌,
  arith, eq_iff, any, All, Bool-cases, length, Bytes, select,
}
use snagline.Tx.{ok}
use snagline.Authority.Tables.{OutboxRow, OutboxLease, Db}
use snagline.Authority.Outbox.{
  Item, Grant, has_id, is_open, lease_rows, claimable, lease_over, selected, claim, ids_of,
  order_due,
}
use snagline.Authority.OutboxRows.{row_of, IsRow}
use snagline.Authority.Chosen.{
  chosen, chosen-IsRow, chosen_or_full, chosen-HasUniqueIds, length-take-le, All-map,
}
use snagline.Authority.Leases.{LeasedBy, done, more, lease_rows-LeasedBy, other-lease_rows}
use snagline.Authority.UniqueIds.{History-HasUniqueIds}
use snagline.Authority.History.{History}

pub claimable-open :
    (table : List OutboxRow) (locked : String → Bool) (now : ℕ) (row : OutboxRow)
    → IsRow (claimable locked now) table row
    → IsRow is_open table row
unfolding claimable
claimable-open table locked now row (found, h) = (found, ground arith)

length-LeasedBy :
    (worker : String) (lease : ℕ) (grants : ℕ → Grant) (db₀ : Db) (out : List OutboxRow) (n : ℕ)
    (rows : List OutboxRow) (items : List Item)
    → LeasedBy worker lease grants db₀ out n rows items
    → length items ≡ length rows
length-LeasedBy worker lease grants db₀ out n _ _ done = refl
length-LeasedBy worker lease grants db₀ out n _ _ (more {rows = rows} {items = items} i r l) =
    omega (arith, length-LeasedBy worker lease grants db₀ out (suc n) rows items l)

-- What a claim that succeeds has done.
pub record Claimed (p : OutboxRow → Bool) (worker : String) (limit lease : ℕ) (grants : ℕ → Grant)
    (items : List Item) (db db' : Db) : Type 0 where
  pub rows : List OutboxRow
  pub were : All (IsRow p db.outbox) rows
  pub leases : LeasedBy worker lease grants db db'.outbox 0 rows items
  pub bounded : length items ≤ limit
  pub complete :
      (row : OutboxRow)
      → IsRow p db.outbox row
      → (any (has_id row.outbox_id) rows ≡ true) ⊎ (length items ≡ limit)
  pub others : (j : String) → any (has_id j) rows ≡ false → row_of j db'.outbox ≡ row_of j db.outbox

-- In a reachable state, the items that a claim returns are at most `limit`, and they are of rows
-- that were neither published nor poisoned, were due, were under no live lease and not locked; each
-- of these rows is left with the worker's lease, under its item's token and for the time asked, and
-- the item is read from the row, its case and its delivery; unless `limit` rows are claimed every
-- such row is; and every other row is left as it was.
pub claim-Claimed :
    (sha : Bytes → String) (authority_id : String) (db db' : Db) (text_le : String → String → Bool)
    (locked : String → Bool) (now : ℕ) (grants : ℕ → Grant) (worker : String) (limit lease : ℕ)
    (items : List Item)
    → History sha authority_id db
    → claim text_le locked now grants worker limit lease db ≡ ok (items, db')
    → Claimed (claimable locked now) worker limit lease grants items db db'
unfolding claim selected
claim-Claimed sha authority_id db db' text_le locked now grants worker limit lease items hist h =
    let u = History-HasUniqueIds sha authority_id db hist in
    let rows = chosen text_le (claimable locked now) limit db.outbox in
    let were = chosen-IsRow text_le (claimable locked now) limit db.outbox u in
    let ran : lease_rows worker lease grants 0 (ids_of rows) db ≡ ok (items, db') = ground arith in
    let by =
      lease_rows-LeasedBy worker lease grants 0 rows db db db' items refl refl
        (chosen-HasUniqueIds text_le (claimable locked now) limit db.outbox u)
        (All-map {P = IsRow (claimable locked now) db.outbox} {Q = IsRow is_open db.outbox}
          (claimable-open db.outbox locked now) rows were)
        ran in
    record {
      rows = rows;
      were = were;
      leases = by;
      bounded = omega (
        arith,
        length-LeasedBy worker lease grants db db'.outbox 0 rows items by,
        length-take-le limit (order_due text_le (select (claimable locked now) db.outbox)),
      );
      complete = λ row is_row.
          elim (chosen_or_full text_le (claimable locked now) limit db.outbox row is_row) [
            | inl e ↦ inl e
            | inr e ↦ inr (length-LeasedBy worker lease grants db db'.outbox 0 rows items by ∙ e)
          ];
      others = λ j out. other-lease_rows worker lease grants 0 rows db db' items j out ran;
    }

chosen_row :
    (p : OutboxRow → Bool) (table : List OutboxRow) (j : String) (rows : List OutboxRow)
    → All (IsRow p table) rows
    → any (has_id j) rows ≡ true
    → (row : OutboxRow) × (row_of j table ≡ some row) × (p row ≡ true)
unfolding any
chosen_row p table j [] a h = absurd (ground arith)
chosen_row p table j (row ∷ rows) a h = elim (Bool-cases (has_id j row)) [
  | inl same ↦ (row, ground (arith, eq_iff row.outbox_id j), a.0.1)
  | inr other ↦ chosen_row p table j rows a.1 (ground arith)
]

-- In a reachable state, no claim, by whichever worker, touches a row that is under a lease which
-- runs beyond the claim's time.
pub live_lease-kept :
    (sha : Bytes → String) (authority_id : String) (db db' : Db) (text_le : String → String → Bool)
    (locked : String → Bool) (now : ℕ) (grants : ℕ → Grant) (worker : String) (limit lease : ℕ)
    (items : List Item) (j : String) (row : OutboxRow) (l : OutboxLease)
    → History sha authority_id db
    → claim text_le locked now grants worker limit lease db ≡ ok (items, db')
    → row_of j db.outbox ≡ some row
    → row.lease ≡ some l
    → now < l.lease_until
    → row_of j db'.outbox ≡ some row
live_lease-kept sha authority_id db db' text_le locked now grants worker limit lease items j row l
      hist h at held live =
    let c =
      claim-Claimed sha authority_id db db' text_le locked now grants worker limit lease items hist
        h in
    elim (Bool-cases (any (has_id j) c.rows)) [
      | inr out ↦ c.others j out ∙ at
      | inl in_claim ↦
          (let (r, at', free) =
              chosen_row (claimable locked now) db.outbox j c.rows c.were in_claim in
            absurd (unfold claimable lease_over in ground arith))
    ]
