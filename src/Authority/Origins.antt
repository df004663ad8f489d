-- ===== src/Authority/Origins.antt =====
-- What cases and advice name: CommitCase and CommitAdvice of internal/authority/postgres/store.go.
use snagline.Prelude.{
  String, ◌≡◌, inl, inr, ◌&&◌, some, arith, Bytes, ◌==◌, eq_iff, find, Bool-cases,
}
use snagline.Authority.Request.{CommitCaseRequest, CommitAdviceRequest}
use snagline.Authority.Tables.{CaseRow, AdviceRow, Db}
use snagline.Authority.Sql.{registry_head}
use snagline.Authority.Cases.{find_case, case_row}
use snagline.Authority.Advice.{find_advice, advice_row, binds_case}
use snagline.Authority.Registries.{find_registry}
use snagline.Authority.Effects.{CaseAdmitted, AdviceAdmitted}
use snagline.Authority.Bindings.{CaseIsBound, AdviceBinds, IsChained, IsBound, bind_registry-bound}
use snagline.Authority.Chain.{History-IsChained}
use snagline.Authority.Moves.{OutboxMoves-OnlyOutbox}
use snagline.Authority.History.{
  History, start, step, Effect, unchanged, skipped, moved, case_admitted, advice_admitted,
  head_halted, registry_admitted, classified,
}
use snagline.Authority.Immutable.{KeepsFacts, Commits-KeepsFacts}

keep-CaseIsBound :
    (db db' : Db) (t : String) (row : CaseRow)
    → KeepsFacts db db'
    → CaseIsBound db t row
    → CaseIsBound db' t row
keep-CaseIsBound db db' t row k (registry, found, commitment, epoch) =
    (registry, k.keeps_registry t row.registry_revision registry found, commitment, epoch)

abbrev AdviceIsBound : Db → String → String → AdviceRow → Type 0
AdviceIsBound db t c advice =
    (row : CaseRow) × (find_case t c db ≡ some row) × AdviceBinds advice row

keep-AdviceIsBound :
    (db db' : Db) (t c : String) (advice : AdviceRow)
    → KeepsFacts db db'
    → AdviceIsBound db t c advice
    → AdviceIsBound db' t c advice
keep-AdviceIsBound db db' t c advice k (row, found, binds) =
    (row, k.keeps_case t c row found, binds)

-- The new case is bound by the head test, the others by what they were.
case-CaseIsBound :
    (r : CommitCaseRequest) (db db' : Db)
    → CaseAdmitted r db db'
    → KeepsFacts db db'
    → IsChained db
    → IsBound db
    → (t c : String) (row : CaseRow) → find_case t c db' ≡ some row
    → CaseIsBound db' t row
unfolding find_case find case_row find_registry
case-CaseIsBound r db db' a k chain b t c row h =
    elim (Bool-cases (r.tenant_id == t && r.case_id == c)) [
      | inl same ↦
          (let (head, at_head, live, revision, hash, epoch) =
              bind_registry-bound r (registry_head r.tenant_id db) a.bound in
            let (registry, found, commitment, epoch') = chain.heads r.tenant_id head at_head in
            (
              registry,
              ground (arith, a.written, eq_iff r.tenant_id t),
              ground (arith, a.written),
              ground (arith, a.written),
            ))
      | inr other ↦ keep-CaseIsBound db db' t row k (b.cases t c row (ground (arith, a.written)))
    ]

-- The new advice binds its case by the binding test, and takes its edge from it.
advice-AdviceIsBound :
    (r : CommitAdviceRequest) (target : CaseRow) (db db' : Db)
    → AdviceAdmitted r target db db'
    → KeepsFacts db db'
    → IsBound db
    → (t c : String) (advice : AdviceRow) → find_advice t c db' ≡ some advice
    → AdviceIsBound db' t c advice
unfolding find_advice find advice_row binds_case
advice-AdviceIsBound r target db db' a k b t c advice h =
    elim (Bool-cases (r.tenant_id == t && r.case_id == c)) [
      | inl same ↦ (
        target,
        k.keeps_case t c target (ground (arith, a.found, eq_iff r.tenant_id t, eq_iff r.case_id c)),
        ground (
          arith,
          a.written,
          a.bound,
          eq_iff r.case_commitment target.commitment,
          eq_iff r.registry_hash target.registry_hash,
        ),
      )
      | inr other ↦
          keep-AdviceIsBound db db' t c advice k (b.advice t c advice (ground (arith, a.written)))
    ]

old-CaseIsBound :
    (db db' : Db)
    → db'.cases ≡ db.cases
    → KeepsFacts db db'
    → IsBound db
    → (t c : String) (row : CaseRow) → find_case t c db' ≡ some row
    → CaseIsBound db' t row
unfolding find_case
old-CaseIsBound db db' e k b t c row h =
    keep-CaseIsBound db db' t row k (b.cases t c row (rw e at h))

old-AdviceIsBound :
    (db db' : Db)
    → db'.advice ≡ db.advice
    → KeepsFacts db db'
    → IsBound db
    → (t c : String) (advice : AdviceRow) → find_advice t c db' ≡ some advice
    → AdviceIsBound db' t c advice
unfolding find_advice
old-AdviceIsBound db db' e k b t c advice h =
    keep-AdviceIsBound db db' t c advice k (b.advice t c advice (rw e at h))

Effect-IsBound :
    (db db' : Db) → Effect db db' → KeepsFacts db db' → IsChained db → IsBound db → IsBound db'
Effect-IsBound db db' (case_admitted _ r v a) k chain b = record {
  cases = case-CaseIsBound r db db' a k chain b;
  advice = old-AdviceIsBound db db' a.written.advice k b;
}
Effect-IsBound db db' (advice_admitted _ r target v a) k chain b = record {
  cases = old-CaseIsBound db db' a.written.cases k b;
  advice = advice-AdviceIsBound r target db db' a k b;
}
Effect-IsBound db db' (unchanged e) k chain b = record {
  cases = old-CaseIsBound db db' (cc) k b;
  advice = old-AdviceIsBound db db' (cc) k b;
}
Effect-IsBound db db' (skipped n e) k chain b = record {
  cases = old-CaseIsBound db db' (ground (arith, e)) k b;
  advice = old-AdviceIsBound db db' (ground (arith, e)) k b;
}
Effect-IsBound db db' (moved m) k chain b = record {
  cases = old-CaseIsBound db db' (ground (arith, OutboxMoves-OnlyOutbox db db' m)) k b;
  advice = old-AdviceIsBound db db' (ground (arith, OutboxMoves-OnlyOutbox db db' m)) k b;
}
Effect-IsBound db db' (head_halted r reason e a) k chain b = record {
  cases = old-CaseIsBound db db' (ground (arith, a.written)) k b;
  advice = old-AdviceIsBound db db' (ground (arith, a.written)) k b;
}
Effect-IsBound db db' (registry_admitted r rows a) k chain b = record {
  cases = old-CaseIsBound db db' (ground (arith, a.written)) k b;
  advice = old-AdviceIsBound db db' (ground (arith, a.written)) k b;
}

-- In every reachable state, a committed case names a recorded registry of its
-- tenant by revision, commitment and routing epoch; and a committed advice repeats the commitment,
-- epoch and registry of its committed case and targets the edge and generation that issued it.
pub History-IsBound :
    (sha : Bytes → String) (authority_id : String) (db : Db)
    → History sha authority_id db
    → IsBound db
unfolding find_case find_advice find
History-IsBound sha authority_id _ start = record {
  cases = λ t c row h. cc;
  advice = λ t c advice h. cc;
}
History-IsBound sha authority_id _ (step {db} {db'} h c) =
    Effect-IsBound db db' (classified sha authority_id db db' c)
      (Commits-KeepsFacts sha authority_id db db' c) (History-IsChained sha authority_id db h)
      (History-IsBound sha authority_id db h)
