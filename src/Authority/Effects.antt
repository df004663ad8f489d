-- ===== src/Authority/Effects.antt =====
-- The effect of each transaction body: nothing, a halt, or all the writes of one admission.
use snagline.Prelude.{
  ℕ, String, ◌≡◌, refl, true, none, some, List, ◌⊎◌, inl, inr, arith, Bytes, update_where,
  Option-cases, find-none,
}
use snagline.Tx.{ok}
use snagline.Authority.Request.{
  Error, CommitCaseRequest, CommitAdviceRequest, CommitRegistryRequest,
}
use snagline.Authority.Tables.{CaseRow, HeadRow, HighWaterRow, Db, HaltReason}
use snagline.Authority.Sql.{Work, registry_head, halt_registry_head, head_of}
use snagline.Authority.Cases.{
  write_case, find_case, existing_case, bind_registry, admit_case, case_work,
}
use snagline.Authority.Advice.{
  find_advice, existing_advice, no_advice, advice_head, binds_case, bound_advice, write_advice,
  target_advice, admit_advice, advice_work,
}
use snagline.Authority.Registries.{
  find_registry, Verdict, reject, halt, replay, admit, judge, admit_registry, registry_work,
  enforce_high_water,
}
use snagline.Authority.Emitted.{
  CaseEmitted, AdviceEmitted, write_case-CaseEmitted, write_advice-AdviceEmitted,
}
use snagline.Authority.Written.{
  SameFacts, case_state, advice_state, registry_state, write_case-SameFacts, write_advice-SameFacts,
  write_registry-state,
}

-- CommitCase admitted `r`: its case is new, it binds the live head, and all its rows are written.
pub record CaseAdmitted (r : CommitCaseRequest) (db db' : Db) : Type 0 where
  pub is_new : find_case r.tenant_id r.case_id db ≡ none
  pub bound : bind_registry r (registry_head r.tenant_id db) ≡ ok tt
  pub written : SameFacts (case_state r db) db'
  pub emitted : (sha : Bytes → String) × (now : ℕ) × CaseEmitted sha now r db db'

-- CommitAdvice admitted `r` for `target`: it is the first advice of its case and binds that case.
pub record AdviceAdmitted (r : CommitAdviceRequest) (target : CaseRow) (db db' : Db) : Type 0 where
  pub is_first : find_advice r.tenant_id r.case_id db ≡ none
  pub live : advice_head no_advice (registry_head r.tenant_id db) ≡ ok tt
  pub found : find_case r.tenant_id r.case_id db ≡ some target
  pub bound : binds_case r target ≡ true
  pub written : SameFacts (advice_state r target db) db'
  pub emitted : (sha : Bytes → String) × (now : ℕ) × AdviceEmitted sha now r target db db'

abbrev pub halted_row : HaltReason → HeadRow → HeadRow
halted_row reason row = record row { halted = true; halt_reason = reason }

abbrev pub halted_state : String → HaltReason → Db → Db
halted_state tenant reason db = record db {
  heads = update_where (head_of tenant) (halted_row reason) db.heads;
}

-- CommitRegistry halted the tenant's head over `r`.
pub record HeadHalted (r : CommitRegistryRequest) (reason : HaltReason) (e : Error) (db db' : Db)
    : Type 0 where
  pub judged : judge r (registry_head r.tenant_id db) db ≡ halt reason e
  pub written : db' ≡ halted_state r.tenant_id reason db

-- CommitRegistry admitted `r`, and its edges leave `rows`.
pub record RegistryAdmitted (r : CommitRegistryRequest) (rows : List HighWaterRow) (db db' : Db)
    : Type 0 where
  pub judged : judge r (registry_head r.tenant_id db) db ≡ admit
  pub is_new : find_registry r.tenant_id r.revision db ≡ none
  pub edges :
      enforce_high_water r.tenant_id r.revision (registry_head r.tenant_id db) r.edges db.high_water
      ≡ ok rows
  pub written : db' ≡ registry_state r (registry_head r.tenant_id db) rows db

module _ (sha : Bytes → String) (authority_id : String) (now : ℕ) where
  pub admit_case-effect :
      (r : CommitCaseRequest) (db db' : Db) (w : Work)
      → find_case r.tenant_id r.case_id db ≡ none
      → admit_case sha authority_id now r db ≡ ok (w, db')
      → CaseAdmitted r db db'
  unfolding admit_case
  admit_case-effect r db db' w new h =
      let wrote : write_case sha authority_id now r db ≡ ok (w, db') = ground arith in
      record {
        is_new = new;
        bound = ground arith;
        written = (write_case-SameFacts authority_id sha now r db db' w wrote).0;
        emitted = (sha, now, write_case-CaseEmitted sha authority_id now r db db' w wrote);
      }

  pub case_work-effect :
      (r : CommitCaseRequest) (db db' : Db) (w : Work)
      → case_work sha authority_id now r db ≡ ok (w, db')
      → (db' ≡ db) ⊎ CaseAdmitted r db db'
  unfolding case_work existing_case
  case_work-effect r db db' w h = ground (arith, admit_case-effect r db db' w)

  bound_advice-effect :
      (r : CommitAdviceRequest) (target : CaseRow) (db db' : Db) (w : Work)
      → find_advice r.tenant_id r.case_id db ≡ none
      → advice_head no_advice (registry_head r.tenant_id db) ≡ ok tt
      → find_case r.tenant_id r.case_id db ≡ some target
      → bound_advice sha authority_id now r target db ≡ ok (w, db')
      → AdviceAdmitted r target db db'
  unfolding bound_advice
  bound_advice-effect r target db db' w first live found h =
      let wrote : write_advice sha authority_id now r target db ≡ ok (w, db') = ground arith in
      record {
        is_first = first;
        live = live;
        found = found;
        bound = ground arith;
        written = (write_advice-SameFacts authority_id sha now r target db db' w wrote).0;
        emitted =
            (sha, now, write_advice-AdviceEmitted sha authority_id now r target db db' w wrote);
      }

  target_advice-effect :
      (r : CommitAdviceRequest) (db db' : Db) (w : Work)
      → find_advice r.tenant_id r.case_id db ≡ none
      → advice_head no_advice (registry_head r.tenant_id db) ≡ ok tt
      → target_advice sha authority_id now r db ≡ ok (w, db')
      → (target : CaseRow) × AdviceAdmitted r target db db'
  unfolding target_advice
  target_advice-effect r db db' w first live h =
      elim (Option-cases (find_case r.tenant_id r.case_id db)) [
        | inl e ↦ ground arith
        | inr (target, e) ↦
            (target, bound_advice-effect r target db db' w first live e (ground arith))
      ]

  admit_advice-effect :
      (r : CommitAdviceRequest) (db db' : Db) (w : Work)
      → find_advice r.tenant_id r.case_id db ≡ none
      → admit_advice sha authority_id now no_advice r db ≡ ok (w, db')
      → (target : CaseRow) × AdviceAdmitted r target db db'
  unfolding admit_advice
  admit_advice-effect r db db' w first h =
      target_advice-effect r db db' w first (ground arith) (ground arith)

  pub advice_work-effect :
      (r : CommitAdviceRequest) (db db' : Db) (w : Work)
      → advice_work sha authority_id now r db ≡ ok (w, db')
      → (db' ≡ db) ⊎ ((target : CaseRow) × AdviceAdmitted r target db db')
  unfolding advice_work existing_advice
  advice_work-effect r db db' w h = elim (Option-cases (find_advice r.tenant_id r.case_id db)) [
    | inl e ↦ inr (admit_advice-effect r db db' w e (ground arith))
    | inr (row, e) ↦ inl (unfold admit_advice advice_head in ground arith)
  ]

  halt-effect :
      (tenant : String) (reason : HaltReason) (db db' : Db)
      → halt_registry_head tenant reason db ≡ ok (tt, db')
      → db' ≡ halted_state tenant reason db
  unfolding halt_registry_head
  halt-effect tenant reason db db' h = ground arith

  admit_registry-effect :
      (r : CommitRegistryRequest) (db db' : Db) (w : Work)
      → judge r (registry_head r.tenant_id db) db ≡ admit
      → admit_registry authority_id r (registry_head r.tenant_id db) db ≡ ok (w, db')
      → (rows : List HighWaterRow) × RegistryAdmitted r rows db db'
  unfolding admit_registry find_registry
  admit_registry-effect r db db' w v h =
      let (rows, edges, fresh, written, _) =
        write_registry-state authority_id r (registry_head r.tenant_id db) db db' w
          (ground arith) in
      (rows, record { judged = v; is_new = find-none _ _ fresh; edges = edges; written = written })

  judged-effect :
      (r : CommitRegistryRequest) (verdict : Verdict) (db db' : Db) (w : Work)
      → judge r (registry_head r.tenant_id db) db ≡ verdict
      → registry_work authority_id r db ≡ ok (w, db')
      → (db' ≡ db)
        ⊎ ((reason : HaltReason) × (e : Error) × HeadHalted r reason e db db')
        ⊎ ((rows : List HighWaterRow) × RegistryAdmitted r rows db db')
  unfolding registry_work
  judged-effect r (reject e) db db' w v h = absurd (ground arith)
  judged-effect r (halt reason e) db db' w v h = inr (
      inl (
        reason,
        e,
        record { judged = v; written = ground (arith, halt-effect r.tenant_id reason db db') },
      ))
  judged-effect r (replay found) db db' w v h = inl (ground arith)
  judged-effect r admit db db' w v h = inr (inr (admit_registry-effect r db db' w v (ground arith)))

  pub registry_work-effect :
      (r : CommitRegistryRequest) (db db' : Db) (w : Work)
      → registry_work authority_id r db ≡ ok (w, db')
      → (db' ≡ db)
        ⊎ ((reason : HaltReason) × (e : Error) × HeadHalted r reason e db db')
        ⊎ ((rows : List HighWaterRow) × RegistryAdmitted r rows db db')
  registry_work-effect r db db' w h =
      judged-effect r (judge r (registry_head r.tenant_id db) db) db db' w refl h
