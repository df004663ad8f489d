-- ===== src/Authority/Final.antt =====
-- The closed rows of the outbox of internal/authority/postgres/outbox.go.
use snagline.Prelude.{
  ℕ, suc, String, ◌≡◌, refl, Bool, false, some, List, [], ◌∷◌, arith, eq_iff, find, any-find, Bytes,
  subst, update_where,
}
use snagline.Tx.{ok}
use snagline.Authority.Tables.{OutboxRow, Db, FactKind, case_fact, advice_fact}
use snagline.Authority.Sql.{OutboxDestination, outbox_row}
use snagline.Authority.Outbox.{
  Item, Grant, has_id, is_open, is_open_id, leased, lease_rows, selected, claim,
}
use snagline.Authority.Closures.{holds, published, released, mark_published, release}
use snagline.Authority.Emitted.{HasUniqueIds, outbox_after, case_destinations, advice_destinations}
use snagline.Authority.Moves.{
  OutboxMoves, claims, publishes, releases, leased_state, lease_rows-LeaseRound,
}
use snagline.Authority.OutboxRows.{row_of, row_of-update_where}
use snagline.Authority.UniqueIds.{History-HasUniqueIds}
use snagline.Authority.History.{
  Commits, History, step, Effect, unchanged, skipped, moved, case_admitted, advice_admitted,
  head_halted, registry_admitted, classified,
}

-- An update that passes over a row leaves it.
pub passed_over :
    (p : OutboxRow → Bool) (f : OutboxRow → OutboxRow)
    (keeps : (row : OutboxRow) → (f row).outbox_id ≡ row.outbox_id) (id : String)
    (rows : List OutboxRow) (row : OutboxRow)
    → p row ≡ false
    → row_of id rows ≡ some row
    → row_of id (update_where p f rows) ≡ some row
passed_over p f keeps id rows row h found = ground (arith, row_of-update_where p f keeps id rows)

module _ (id : String) (row : OutboxRow) (closed : is_open row ≡ false) where
  lease_rows-final :
      (worker : String) (lease : ℕ) (grants : ℕ → Grant) (n : ℕ) (ids : List String) (db db' : Db)
      (items : List Item)
      → lease_rows worker lease grants n ids db ≡ ok (items, db')
      → row_of id db.outbox ≡ some row
      → row_of id db'.outbox ≡ some row
  lease_rows-final worker lease grants n [] db db' items h found = unfold lease_rows in ground arith
  lease_rows-final worker lease grants n (i ∷ ids) db db' items h found =
      let r = lease_rows-LeaseRound worker lease grants n i ids db db' items h in
      lease_rows-final worker lease grants (suc n) ids (leased_state worker lease (grants n) i db)
        db' r.rest r.more
        (passed_over (is_open_id i) (leased worker lease (grants n)) (λ r. unfold leased in refl) id
          db.outbox row (ground arith) found)

  moves-final :
      (db db' : Db)
      → OutboxMoves db db'
      → row_of id db.outbox ≡ some row
      → row_of id db'.outbox ≡ some row
  unfolding claim mark_published release
  moves-final db db' (claims text_le locked now grants worker limit lease items h) found =
      lease_rows-final worker lease grants 0 (selected text_le locked now limit db.outbox) db db'
        items (ground arith) found
  moves-final db db' (publishes i token now h) found =
      let e : db'.outbox ≡ update_where (holds i token now) (published now) db.outbox =
        ground arith in
      rw e (
        passed_over (holds i token now) (published now) (λ r. unfold published in refl) id db.outbox
          row (unfold holds in ground arith) found)
  moves-final db db' (releases i token retry_at reason now h) found =
      let e : db'.outbox
          ≡ update_where (holds i token now) (released now retry_at reason) db.outbox =
        ground arith in
      rw e (
        passed_over (holds i token now) (released now retry_at reason)
          (λ r. unfold released in refl) id db.outbox row (unfold holds in ground arith) found)

module _ (sha : Bytes → String) (now : ℕ) (tenant : String) (kind : FactKind) (entity : String)
    (raw : Bytes) (revision : ℕ) where
  unique_below :
      (destinations : List OutboxDestination) (rows : List OutboxRow)
      → HasUniqueIds (outbox_after sha now tenant kind entity raw revision destinations rows)
      → HasUniqueIds rows
  unique_below [] rows u = u
  unique_below (d ∷ rest) rows u =
      (unique_below rest (outbox_row sha now tenant kind entity raw revision d ∷ rows) u).1

  found_below :
      (destinations : List OutboxDestination) (rows : List OutboxRow) (id : String)
      (row : OutboxRow)
      → HasUniqueIds (outbox_after sha now tenant kind entity raw revision destinations rows)
      → row_of id rows ≡ some row
      → row_of id (outbox_after sha now tenant kind entity raw revision destinations rows)
        ≡ some row
  unfolding find
  found_below [] rows id row u found = found
  found_below (d ∷ rest) rows id row u found =
      let new = outbox_row sha now tenant kind entity raw revision d in
      let fresh = (unique_below rest (new ∷ rows) u).0 in
      found_below rest (new ∷ rows) id row u
        (ground (arith, any-find (has_id id) rows row, eq_iff new.outbox_id id))

Effect-final :
    (db db' : Db) (id : String) (row : OutboxRow)
    → HasUniqueIds db'.outbox
    → Effect db db'
    → row_of id db.outbox ≡ some row
    → is_open row ≡ false
    → row_of id db'.outbox ≡ some row
Effect-final db db' id row u (unchanged e) found closed = rw e found
Effect-final db db' id row u (skipped n e) found closed = rw e found
Effect-final db db' id row u (moved m) found closed = moves-final id row closed db db' m found
Effect-final db db' id row u (case_admitted now r v a) found closed =
    let (sha, at, e) = a.emitted in
    rw e.outbox (
      found_below sha at r.tenant_id case_fact r.case_id r.raw db.next_revision
        (case_destinations r) db.outbox id row (subst HasUniqueIds e.outbox u) found)
Effect-final db db' id row u (advice_admitted now r target v a) found closed =
    let (sha, at, e) = a.emitted in
    rw e.outbox (
      found_below sha at r.tenant_id advice_fact r.case_id r.raw db.next_revision
        (advice_destinations target) db.outbox id row (subst HasUniqueIds e.outbox u) found)
Effect-final db db' id row u (head_halted r reason e a) found closed = rw a.written found
Effect-final db db' id row u (registry_admitted r rows a) found closed = rw a.written found

-- A row that is published or poisoned is left as it is, for good, by whatever the authority
-- commits: it is never leased, published, released or overwritten again.
pub closed_row-final :
    (sha : Bytes → String) (authority_id : String) (db db' : Db) (id : String) (row : OutboxRow)
    → History sha authority_id db
    → Commits sha authority_id db db'
    → row_of id db.outbox ≡ some row
    → is_open row ≡ false
    → row_of id db'.outbox ≡ some row
closed_row-final sha authority_id db db' id row h c found closed =
    Effect-final db db' id row (History-HasUniqueIds sha authority_id db' (step h c))
      (classified sha authority_id db db' c) found closed
