-- ===== src/Authority/UniqueIds.antt =====
-- The identifiers of the outbox rows of internal/authority/postgres/store.go.
use snagline.Prelude.{ℕ, suc, String, ◌≡◌, refl, List, [], ◌∷◌, arith, Bytes, update_where}
use snagline.Tx.{ok}
use snagline.Authority.Tables.{Db}
use snagline.Authority.Outbox.{Item, Grant, is_open_id, leased, lease_rows, selected, claim}
use snagline.Authority.Closures.{holds, published, released, mark_published, release}
use snagline.Authority.Emitted.{HasUniqueIds}
use snagline.Authority.Moves.{
  OutboxMoves, claims, publishes, releases, leased_state, lease_rows-LeaseRound,
}
use snagline.Authority.OutboxRows.{update_where-HasUniqueIds}
use snagline.Authority.History.{
  History, start, step, Effect, unchanged, skipped, moved, case_admitted, advice_admitted,
  head_halted, registry_admitted, classified,
}

lease_rows-HasUniqueIds :
    (worker : String) (lease : ℕ) (grants : ℕ → Grant) (n : ℕ) (ids : List String) (db db' : Db)
    (items : List Item)
    → lease_rows worker lease grants n ids db ≡ ok (items, db')
    → HasUniqueIds db.outbox
    → HasUniqueIds db'.outbox
lease_rows-HasUniqueIds worker lease grants n [] db db' items h u =
    let e : db' ≡ db = unfold lease_rows in ground arith in rw e u
lease_rows-HasUniqueIds worker lease grants n (id ∷ ids) db db' items h u =
    let r = lease_rows-LeaseRound worker lease grants n id ids db db' items h in
    lease_rows-HasUniqueIds worker lease grants (suc n) ids
      (leased_state worker lease (grants n) id db) db' r.rest r.more
      (update_where-HasUniqueIds (is_open_id id) (leased worker lease (grants n))
        (λ row. unfold leased in refl) db.outbox u)

moves-HasUniqueIds :
    (db db' : Db) → OutboxMoves db db' → HasUniqueIds db.outbox → HasUniqueIds db'.outbox
unfolding claim mark_published release
moves-HasUniqueIds db db' (claims text_le locked now grants worker limit lease items h) u =
    lease_rows-HasUniqueIds worker lease grants 0 (selected text_le locked now limit db.outbox) db
      db' items (ground arith) u
moves-HasUniqueIds db db' (publishes id token now h) u =
    let e : db'.outbox ≡ update_where (holds id token now) (published now) db.outbox =
      ground arith in
    rw e (
      update_where-HasUniqueIds (holds id token now) (published now)
        (λ row. unfold published in refl) db.outbox u)
moves-HasUniqueIds db db' (releases id token retry_at reason now h) u =
    let e : db'.outbox
        ≡ update_where (holds id token now) (released now retry_at reason) db.outbox =
      ground arith in
    rw e (
      update_where-HasUniqueIds (holds id token now) (released now retry_at reason)
        (λ row. unfold released in refl) db.outbox u)

Effect-HasUniqueIds :
    (db db' : Db) → Effect db db' → HasUniqueIds db.outbox → HasUniqueIds db'.outbox
Effect-HasUniqueIds db db' (unchanged e) u = rw e u
Effect-HasUniqueIds db db' (skipped n e) u = rw e u
Effect-HasUniqueIds db db' (moved m) u = moves-HasUniqueIds db db' m u
Effect-HasUniqueIds db db' (case_admitted now r v a) u = a.emitted.2.unique u
Effect-HasUniqueIds db db' (advice_admitted now r target v a) u = a.emitted.2.unique u
Effect-HasUniqueIds db db' (head_halted r reason e a) u = rw a.written u
Effect-HasUniqueIds db db' (registry_admitted r rows a) u = rw a.written u

pub History-HasUniqueIds :
    (sha : Bytes → String) (authority_id : String) (db : Db)
    → History sha authority_id db
    → HasUniqueIds db.outbox
History-HasUniqueIds sha authority_id _ start = tt
History-HasUniqueIds sha authority_id _ (step {db} {db'} h c) =
    Effect-HasUniqueIds db db' (classified sha authority_id db db' c)
      (History-HasUniqueIds sha authority_id db h)
