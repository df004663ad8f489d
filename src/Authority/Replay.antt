-- ===== src/Authority/Replay.antt =====
-- Repeating a commit, and competing with one.
use snagline.Prelude.{
  ℕ, ◌≤◌, String, ◌≡◌, refl, inl, inr, true, false, Option, none, some, arith, Bytes,
  bytes_equal_refl, eq_refl, find, if◌then◌else◌, Option-cases,
}
use snagline.Tx.{ok, err}
use snagline.Authority.Request.{
  Error, CommitReceipt, CommitCaseRequest, CommitAdviceRequest, final_advice_already_set,
}
use snagline.Authority.Tables.{CaseRow, AdviceRow, HeadRow, Db}
use snagline.Authority.Sql.{Work, receipt, with_authority, registry_head}
use snagline.Authority.Cases.{find_case, same_case, case_row, existing_case, admit_case, case_work}
use snagline.Authority.Advice.{
  find_advice, same_advice, already_set, existing_advice, advice_head, admit_advice, advice_work,
}
use snagline.Authority.Written.{write_case-SameFacts}
use snagline.Authority.Effects.{admit_case-effect}
use snagline.Authority.Immutable.{Commits-KeepsFacts}
use snagline.Authority.Moves.{OutboxMoves-OnlyOutbox}
use snagline.Authority.History.{
  Commits, History, start, step, Effect, unchanged, skipped, moved, case_admitted, advice_admitted,
  head_halted, registry_admitted, classified,
}

-- Any number of committed transaction bodies.
pub data Later (sha : Bytes → String) (authority_id : String) (db : Db) : Db → Type 0 where
  now : Later sha authority_id db db
  after :
      {mid end : Db}
      → Later sha authority_id db mid
      → Commits sha authority_id mid end
      → Later sha authority_id db end

pub Later-case :
    (sha : Bytes → String) (authority_id : String) (t c : String) (row : CaseRow) (db end : Db)
    → find_case t c db ≡ some row
    → Later sha authority_id db end
    → find_case t c end ≡ some row
Later-case sha authority_id t c row db _ h now = h
Later-case sha authority_id t c row db _ h (after {mid} {end} l s) =
    (Commits-KeepsFacts sha authority_id mid end s).keeps_case t c row
      (Later-case sha authority_id t c row db mid h l)

Later-advice :
    (sha : Bytes → String) (authority_id : String) (t c : String) (row : AdviceRow) (db end : Db)
    → find_advice t c db ≡ some row
    → Later sha authority_id db end
    → find_advice t c end ≡ some row
Later-advice sha authority_id t c row db _ h now = h
Later-advice sha authority_id t c row db _ h (after {mid} {end} l s) =
    (Commits-KeepsFacts sha authority_id mid end s).keeps_advice t c row
      (Later-advice sha authority_id t c row db mid h l)

-- Revisions start at 1.
Effect-positive : (db db' : Db) → Effect db db' → 1 ≤ db.next_revision → 1 ≤ db'.next_revision
Effect-positive db db' (unchanged e) h = ground arith
Effect-positive db db' (skipped n e) h = ground (arith, e)
Effect-positive db db' (moved m) h = ground (arith, OutboxMoves-OnlyOutbox db db' m)
Effect-positive db db' (case_admitted _ r v a) h = ground (arith, a.written)
Effect-positive db db' (advice_admitted _ r target v a) h = ground (arith, a.written)
Effect-positive db db' (head_halted r reason e a) h = ground (arith, a.written)
Effect-positive db db' (registry_admitted r rows a) h = ground (arith, a.written)

pub History-positive :
    (sha : Bytes → String) (authority_id : String) (db : Db)
    → History sha authority_id db
    → 1 ≤ db.next_revision
History-positive sha authority_id _ start = omega arith
History-positive sha authority_id _ (step {db} {db'} h c) =
    Effect-positive db db' (classified sha authority_id db db' c)
      (History-positive sha authority_id db h)

same_case-case_row : (r : CommitCaseRequest) (n : ℕ) → same_case (case_row r n) r ≡ true
unfolding same_case case_row
same_case-case_row r n = ground (
  arith,
  eq_refl r.envelope_id,
  eq_refl r.commitment,
  bytes_equal_refl r.raw,
  eq_refl r.domain,
  eq_refl r.issuer_edge_id,
  eq_refl r.registry_hash,
)

module _ (sha : Bytes → String) (authority_id : String) (at : ℕ) (r : CommitCaseRequest) where
  -- The row that answers `r`, with the receipt that it gives.
  abbrev pub AnsweredBy : Db → CommitReceipt → Type 0
  AnsweredBy db c =
      (row : CaseRow) × (find_case r.tenant_id r.case_id db ≡ some row)
      × (same_case row r ≡ true)
      × (with_authority authority_id (receipt "" row.commit_revision row.envelope_id row.commitment)
          ≡ c)

  admitted-AnsweredBy :
      (db db' : Db) (w : Work)
      → 1 ≤ db.next_revision
      → find_case r.tenant_id r.case_id db ≡ none
      → admit_case sha authority_id at r db ≡ ok (w, db')
      → AnsweredBy db' w.0
  unfolding admit_case find_case find case_row with_authority receipt
  admitted-AnsweredBy db db' w pos new h =
      let a = admit_case-effect sha authority_id at r db db' w new h in
      (
        case_row r db.next_revision,
        ground (arith, a.written, eq_refl r.tenant_id, eq_refl r.case_id),
        same_case-case_row r db.next_revision,
        ground (arith, write_case-SameFacts authority_id sha at r db db' w),
      )

  pub work-AnsweredBy :
      (db db' : Db) (w : Work)
      → 1 ≤ db.next_revision
      → case_work sha authority_id at r db ≡ ok (w, db')
      → AnsweredBy db' w.0
  unfolding case_work existing_case
  work-AnsweredBy db db' w pos h = elim (Option-cases (find_case r.tenant_id r.case_id db)) [
    | inl new ↦ admitted-AnsweredBy db db' w pos new (ground arith)
    | inr (row, found) ↦ (row, ground arith, ground arith, ground arith)
  ]

  answered_again :
      (later : ℕ) (db : Db) (c : CommitReceipt)
      → AnsweredBy db c
      → case_work sha authority_id later r db ≡ ok ((c, false, none), db)
  unfolding case_work existing_case
  answered_again later db c (row, found, same, e) = ground arith

-- Once a body of CommitCase has ended with a receipt, the same request gets the same receipt
-- however many commits later, whatever happened to the registry, and writes nothing.
pub replayed_case :
    (sha : Bytes → String) (authority_id : String) (at later : ℕ) (r : CommitCaseRequest)
    (db db' end : Db) (w : Work)
    → History sha authority_id db
    → case_work sha authority_id at r db ≡ ok (w, db')
    → Later sha authority_id db' end
    → case_work sha authority_id later r end ≡ ok ((w.0, false, none), end)
replayed_case sha authority_id at later r db db' end w history h l =
    let (row, found, same, e) =
      work-AnsweredBy sha authority_id at r db db' w (History-positive sha authority_id db history)
        h in
    answered_again sha authority_id at r later end w.0
      (row, Later-case sha authority_id r.tenant_id r.case_id row db' end found l, same, e)

abbrev pub refusal : Option HeadRow → Error
refusal none = Error.registry_not_found
refusal (some head) = if head.halted then Error.registry_halted else final_advice_already_set

advice_head-already_set :
    (head : Option HeadRow) → advice_head already_set head ≡ err (refusal head)
unfolding advice_head
advice_head-already_set none = refl
advice_head-already_set (some head) = ground arith

-- Once a case has an advice, a body of CommitAdvice for another advice of that case fails on every
-- state that later commits reach: as already set where the tenant's head is live, as halted where it
-- is halted, and as registry not found where there is no head.
pub final_advice :
    (sha : Bytes → String) (authority_id : String) (at : ℕ) (r : CommitAdviceRequest)
    (row : AdviceRow) (db end : Db)
    → find_advice r.tenant_id r.case_id db ≡ some row
    → same_advice row r ≡ false
    → Later sha authority_id db end
    → advice_work sha authority_id at r end ≡ err (refusal (registry_head r.tenant_id end))
unfolding advice_work existing_advice admit_advice
final_advice sha authority_id at r row db end found other l = ground (
  arith,
  Later-advice sha authority_id r.tenant_id r.case_id row db end found l,
  advice_head-already_set (registry_head r.tenant_id end),
)
