-- ===== src/Authority/Budget.antt =====
-- The attempts of the outbox rows of internal/authority/postgres/outbox.go.
use snagline.Prelude.{
  ℕ, suc, ◌<◌, String, ◌≡◌, inl, inr, ◌⊎◌, Bool, true, false, none, List, [], ◌∷◌, arith, Bytes,
  All, Bool-cases, update_where,
}
use snagline.Tx.{ok}
use snagline.Authority.Tables.{OutboxRow, Db, FactKind, case_fact, advice_fact}
use snagline.Authority.Sql.{OutboxDestination, outbox_row}
use snagline.Authority.Outbox.{
  Item, Grant, ReleaseReason, max_outbox_attempts, is_open, is_open_id, leased, lease_rows,
  selected, claim,
}
use snagline.Authority.Closures.{holds, published, released, mark_published, release}
use snagline.Authority.Emitted.{outbox_after, case_destinations, advice_destinations}
use snagline.Authority.Moves.{
  OutboxMoves, claims, publishes, releases, leased_state, lease_rows-LeaseRound,
}
use snagline.Authority.History.{
  History, start, step, Effect, unchanged, skipped, moved, case_admitted, advice_admitted,
  head_halted, registry_admitted, classified,
}

-- An open row has attempts left, a poisoned one has used them all, and no row is both published and
-- poisoned; a row that is closed is under no lease.
pub record IsWithinBudget (row : OutboxRow) : Type 0 where
  pub open_left : is_open row ≡ true → row.attempts < max_outbox_attempts
  pub poisoned_used : (row.poisoned_at ≡ none) ⊎ (row.attempts ≡ max_outbox_attempts)
  pub one_end : (row.poisoned_at ≡ none) ⊎ (row.published_at ≡ none)
  pub closed_unleased : is_open row ≡ false → row.lease ≡ none

update_where-All :
    (P : OutboxRow → Type 0) (p : OutboxRow → Bool) (f : OutboxRow → OutboxRow)
    (keep : (row : OutboxRow) → p row ≡ true → P row → P (f row)) (rows : List OutboxRow)
    → All P rows
    → All P (update_where p f rows)
unfolding update_where
update_where-All P p f keep [] a = tt
update_where-All P p f keep (row ∷ rows) a =
    let rest = update_where-All P p f keep rows a.1 in
    elim (Bool-cases (p row)) [
      | inl h ↦ rw (h, update_where) (keep row h a.0, rest)
      | inr h ↦ rw (h, update_where) (a.0, rest)
    ]

leased-IsWithinBudget :
    (id worker : String) (lease : ℕ) (g : Grant) (row : OutboxRow)
    → is_open_id id row ≡ true
    → IsWithinBudget row
    → IsWithinBudget (leased worker lease g row)
unfolding leased is_open
leased-IsWithinBudget id worker lease g row h b = ground (arith, b)

published-IsWithinBudget :
    (id token : String) (at now : ℕ) (row : OutboxRow)
    → holds id token at row ≡ true
    → IsWithinBudget row
    → IsWithinBudget (published now row)
unfolding published holds
published-IsWithinBudget id token at now row h b = ground (arith, b)

released-IsWithinBudget :
    (id token : String) (at now retry_at : ℕ) (reason : ReleaseReason) (row : OutboxRow)
    → holds id token at row ≡ true
    → IsWithinBudget row
    → IsWithinBudget (released now retry_at reason row)
unfolding released holds
released-IsWithinBudget id token at now retry_at reason row h b = ground (arith, b)

lease_rows-Budget :
    (worker : String) (lease : ℕ) (grants : ℕ → Grant) (n : ℕ) (ids : List String) (db db' : Db)
    (items : List Item)
    → lease_rows worker lease grants n ids db ≡ ok (items, db')
    → All IsWithinBudget db.outbox
    → All IsWithinBudget db'.outbox
lease_rows-Budget worker lease grants n [] db db' items h a =
    let e : db' ≡ db = unfold lease_rows in ground arith in rw e a
lease_rows-Budget worker lease grants n (id ∷ ids) db db' items h a =
    let r = lease_rows-LeaseRound worker lease grants n id ids db db' items h in
    lease_rows-Budget worker lease grants (suc n) ids (leased_state worker lease (grants n) id db)
      db' r.rest r.more
      (update_where-All IsWithinBudget (is_open_id id) (leased worker lease (grants n))
        (leased-IsWithinBudget id worker lease (grants n)) db.outbox a)

moves-Budget :
    (db db' : Db)
    → OutboxMoves db db'
    → All IsWithinBudget db.outbox
    → All IsWithinBudget db'.outbox
unfolding claim mark_published release
moves-Budget db db' (claims text_le locked now grants worker limit lease items h) a =
    lease_rows-Budget worker lease grants 0 (selected text_le locked now limit db.outbox) db db'
      items (ground arith) a
moves-Budget db db' (publishes id token now h) a =
    let e : db'.outbox ≡ update_where (holds id token now) (published now) db.outbox =
      ground arith in
    rw e (
      update_where-All IsWithinBudget (holds id token now) (published now)
        (published-IsWithinBudget id token now now) db.outbox a)
moves-Budget db db' (releases id token retry_at reason now h) a =
    let e : db'.outbox
        ≡ update_where (holds id token now) (released now retry_at reason) db.outbox =
      ground arith in
    rw e (
      update_where-All IsWithinBudget (holds id token now) (released now retry_at reason)
        (released-IsWithinBudget id token now now retry_at reason) db.outbox a)

outbox_after-Budget :
    (sha : Bytes → String) (now : ℕ) (tenant : String) (kind : FactKind) (entity : String)
    (raw : Bytes) (revision : ℕ) (destinations : List OutboxDestination) (rows : List OutboxRow)
    → All IsWithinBudget rows
    → All IsWithinBudget (outbox_after sha now tenant kind entity raw revision destinations rows)
outbox_after-Budget sha now tenant kind entity raw revision [] rows a = a
outbox_after-Budget sha now tenant kind entity raw revision (d ∷ rest) rows a =
    outbox_after-Budget sha now tenant kind entity raw revision rest
      (outbox_row sha now tenant kind entity raw revision d ∷ rows)
      (unfold outbox_row is_open in ground arith, a)

Effect-Budget :
    (db db' : Db) → Effect db db' → All IsWithinBudget db.outbox → All IsWithinBudget db'.outbox
Effect-Budget db db' (unchanged e) b = rw e b
Effect-Budget db db' (skipped n e) b = rw e b
Effect-Budget db db' (moved m) b = moves-Budget db db' m b
Effect-Budget db db' (case_admitted now r v a) b =
    let (sha, at, e) = a.emitted in
    rw e.outbox (
      outbox_after-Budget sha at r.tenant_id case_fact r.case_id r.raw db.next_revision
        (case_destinations r) db.outbox b)
Effect-Budget db db' (advice_admitted now r target v a) b =
    let (sha, at, e) = a.emitted in
    rw e.outbox (
      outbox_after-Budget sha at r.tenant_id advice_fact r.case_id r.raw db.next_revision
        (advice_destinations target) db.outbox b)
Effect-Budget db db' (head_halted r reason e a) b = rw a.written b
Effect-Budget db db' (registry_admitted r rows a) b = rw a.written b

-- In every reachable state an outbox row that is neither published nor poisoned has made fewer than
-- twenty attempts, a poisoned one has made twenty, no row is both published and poisoned, and a row
-- that is either is under no lease.
pub History-IsWithinBudget :
    (sha : Bytes → String) (authority_id : String) (db : Db)
    → History sha authority_id db
    → All IsWithinBudget db.outbox
History-IsWithinBudget sha authority_id _ start = tt
History-IsWithinBudget sha authority_id _ (step {db} {db'} h c) =
    Effect-Budget db db' (classified sha authority_id db db' c)
      (History-IsWithinBudget sha authority_id db h)
