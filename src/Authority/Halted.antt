-- ===== src/Authority/Halted.antt =====
-- A halted registry head, and what halts it.
use snagline.Prelude.{
  ℕ, suc, ◌<◌, String, ◌≡◌, ◌≢◌, refl, inl, inr, true, false, Option, none, some, List, arith,
  Bytes, ◌==◌, eq_iff, find, any, any-find,
}
use snagline.Tx.{ok}
use snagline.Authority.Request.{
  Error, CommitCaseRequest, CommitAdviceRequest, CommitRegistryRequest,
}
use snagline.Authority.Tables.{CaseRow, RegistryRow, HeadRow, HighWaterRow, Db, HaltReason}
use snagline.Authority.Sql.{zero_receipt, registry_head, halt_registry_head, head_of}
use snagline.Authority.Cases.{find_case, case_row, bind_registry}
use snagline.Authority.Advice.{find_advice, advice_row, advice_head}
use snagline.Authority.Registries.{
  judge, successor, existing_registry, find_registry, registry_row, same_registry, registry_work,
}
use snagline.Authority.Advice
use snagline.Authority.Registries
use snagline.Authority.Effects.{halted_state}
use snagline.Authority.Written.{SameFacts, case_state, advice_state, registry_state}
use snagline.Authority.Heads.{head-halted_state, head-heads_after}
use snagline.Authority.Bindings.{bind_registry-bound, judge-admit}
use snagline.Authority.Moves.{OutboxMoves-OnlyOutbox}
use snagline.Authority.History.{
  Commits, Effect, unchanged, skipped, moved, case_admitted, advice_admitted, head_halted,
  registry_admitted, classified,
}

-- The tenant's head, cases, advice and registries are what they were.
pub record TenantUnchanged (t : String) (db db' : Db) : Type 0 where
  pub head : registry_head t db' ≡ registry_head t db
  pub cases : (c : String) → find_case t c db' ≡ find_case t c db
  pub advice : (c : String) → find_advice t c db' ≡ find_advice t c db
  pub registries : (n : ℕ) → find_registry t n db' ≡ find_registry t n db

advice_head-live :
    (head : Option HeadRow) (h : HeadRow)
    → head ≡ some h
    → advice_head Advice.no_advice head ≡ ok tt
    → h.halted ≡ false
unfolding advice_head
advice_head-live none h e a = cc
advice_head-live (some _) h e a = ground arith

judge-halt_live :
    (r : CommitRegistryRequest) (head : Option HeadRow) (db : Db) (reason : HaltReason) (e : Error)
    (h : HeadRow)
    → head ≡ some h
    → judge r head db ≡ Registries.halt reason e
    → h.halted ≡ false
unfolding judge
judge-halt_live r none db reason e h s j = cc
judge-halt_live r (some _) db reason e h s j = ground arith

case-TenantUnchanged :
    (t : String) (r : CommitCaseRequest) (db db' : Db)
    → (r.tenant_id == t) ≡ false
    → SameFacts (case_state r db) db'
    → TenantUnchanged t db db'
unfolding find_case find_advice find_registry find case_row registry_head
case-TenantUnchanged t r db db' other w = record {
  head = ground (arith, w);
  cases = λ c. ground (arith, w);
  advice = λ c. ground (arith, w);
  registries = λ n. ground (arith, w);
}

advice-TenantUnchanged :
    (t : String) (r : CommitAdviceRequest) (target : CaseRow) (db db' : Db)
    → (r.tenant_id == t) ≡ false
    → SameFacts (advice_state r target db) db'
    → TenantUnchanged t db db'
unfolding find_case find_advice find_registry find advice_row registry_head
advice-TenantUnchanged t r target db db' other w = record {
  head = ground (arith, w);
  cases = λ c. ground (arith, w);
  advice = λ c. ground (arith, w);
  registries = λ n. ground (arith, w);
}

registry-TenantUnchanged :
    (t : String) (r : CommitRegistryRequest) (rows : List HighWaterRow) (db : Db)
    → (r.tenant_id == t) ≡ false
    → TenantUnchanged t db (registry_state r (registry_head r.tenant_id db) rows db)
unfolding find_case find_advice find_registry find registry_row
registry-TenantUnchanged t r rows db other = record {
  head = unfold registry_head in ground (arith, head-heads_after t r db);
  cases = λ c. refl;
  advice = λ c. refl;
  registries = λ n. ground arith;
}

halt-TenantUnchanged :
    (t t' : String) (reason : HaltReason) (db : Db)
    → (t' == t) ≡ false
    → TenantUnchanged t db (halted_state t' reason db)
unfolding find_case find_advice find_registry
halt-TenantUnchanged t t' reason db other = record {
  head = ground (arith, head-halted_state t t' reason db);
  cases = λ c. refl;
  advice = λ c. refl;
  registries = λ n. refl;
}

module _ (t : String) (h : HeadRow) (db : Db) (at : registry_head t db ≡ some h)
    (halted : h.halted ≡ true) where
  case_elsewhere :
      (r : CommitCaseRequest)
      → bind_registry r (registry_head r.tenant_id db) ≡ ok tt
      → (r.tenant_id == t) ≡ false
  case_elsewhere r b =
      let (head, e, live, _, _, _) = bind_registry-bound r (registry_head r.tenant_id db) b in
      ground (arith, eq_iff r.tenant_id t)

  advice_elsewhere :
      (r : CommitAdviceRequest)
      → advice_head Advice.no_advice (registry_head r.tenant_id db) ≡ ok tt
      → (r.tenant_id == t) ≡ false
  advice_elsewhere r b =
      ground (arith, eq_iff r.tenant_id t, advice_head-live (registry_head r.tenant_id db) h)

  halt_elsewhere :
      (r : CommitRegistryRequest) (reason : HaltReason) (e : Error)
      → judge r (registry_head r.tenant_id db) db ≡ Registries.halt reason e
      → (r.tenant_id == t) ≡ false
  halt_elsewhere r reason e j =
      ground (
        arith,
        eq_iff r.tenant_id t,
        judge-halt_live r (registry_head r.tenant_id db) db reason e h,
      )

  registry_elsewhere :
      (r : CommitRegistryRequest)
      → judge r (registry_head r.tenant_id db) db ≡ Registries.admit
      → (r.tenant_id == t) ≡ false
  registry_elsewhere r j = elim (judge-admit r (registry_head r.tenant_id db) db j) [
    | inl (none_yet, _) ↦ ground (arith, eq_iff r.tenant_id t)
    | inr (live, e, succ) ↦ ground (arith, succ.live, eq_iff r.tenant_id t)
  ]

  Effect-TenantUnchanged : (db' : Db) → Effect db db' → TenantUnchanged t db db'
  unfolding find_case find_advice find_registry registry_head
  Effect-TenantUnchanged db' (unchanged e) =
      rw e (record { head = refl; cases = λ c. refl; advice = λ c. refl; registries = λ n. refl })
  Effect-TenantUnchanged db' (skipped n e) =
      rw e (record { head = refl; cases = λ c. refl; advice = λ c. refl; registries = λ n. refl })
  Effect-TenantUnchanged db' (moved m) =
      rw (OutboxMoves-OnlyOutbox db db' m)
        (record { head = refl; cases = λ c. refl; advice = λ c. refl; registries = λ n. refl })
  Effect-TenantUnchanged db' (case_admitted _ r v a) =
      case-TenantUnchanged t r db db' (case_elsewhere r a.bound) a.written
  Effect-TenantUnchanged db' (advice_admitted _ r target v a) =
      advice-TenantUnchanged t r target db db' (advice_elsewhere r a.live) a.written
  Effect-TenantUnchanged db' (head_halted r reason e a) =
      rw a.written
        (halt-TenantUnchanged t r.tenant_id reason db (halt_elsewhere r reason e a.judged))
  Effect-TenantUnchanged db' (registry_admitted r rows a) =
      rw a.written (registry-TenantUnchanged t r rows db (registry_elsewhere r a.judged))

-- While a tenant's registry head is halted, no committed transaction body, of any request, changes
-- that head or adds or changes a case, an advice or a registry of the tenant.
pub halted-TenantUnchanged :
    (sha : Bytes → String) (authority_id : String) (t : String) (h : HeadRow) (db db' : Db)
    → registry_head t db ≡ some h
    → h.halted ≡ true
    → Commits sha authority_id db db'
    → TenantUnchanged t db db'
halted-TenantUnchanged sha authority_id t h db db' at halted c =
    Effect-TenantUnchanged t h db at halted db' (classified sha authority_id db db' c)

-- What a live head does not forgive.
pub data Misbehaves (r : CommitRegistryRequest) (head : HeadRow) (db : Db) : Type 0 where
  rolls_back : r.revision < head.latest_revision → Misbehaves r head db
  conflicts :
      (row : RegistryRow)
      → r.revision ≡ head.latest_revision
      → find_registry r.tenant_id r.revision db ≡ some row
      → same_registry row r ≡ false
      → Misbehaves r head db
  forks :
      r.revision ≡ suc head.latest_revision
      → r.previous_commitment ≢ head.latest_commitment
      → Misbehaves r head db

abbrev pub halt_reason_of :
    {r : CommitRegistryRequest} {head : HeadRow} {db : Db}
    → Misbehaves r head db
    → HaltReason × Error
halt_reason_of (rolls_back _) = (HaltReason.revision_rollback, Error.registry_rollback)
halt_reason_of (conflicts _ _ _ _) =
    (HaltReason.same_revision_conflict, Error.registry_equivocation)
halt_reason_of (forks _ _) = (HaltReason.predecessor_mismatch, Error.registry_equivocation)

any_head :
    (t : String) (db : Db) (h : HeadRow)
    → registry_head t db ≡ some h
    → any (head_of t) db.heads ≡ true
unfolding registry_head
any_head t db h at = any-find (head_of t) db.heads h at

judge-Misbehaves :
    (r : CommitRegistryRequest) (head : HeadRow) (db : Db) (m : Misbehaves r head db)
    → head.halted ≡ false
    → judge r (some head) db ≡ Registries.halt (halt_reason_of m).0 (halt_reason_of m).1
unfolding judge successor existing_registry
judge-Misbehaves r head db (rolls_back lt) live = ground arith
judge-Misbehaves r head db (conflicts row e found other) live = ground arith
judge-Misbehaves r head db (forks e other) live =
    ground (arith, eq_iff r.previous_commitment head.latest_commitment)

-- With a live head, a registry request that rolls the revision back, that differs from the
-- recorded registry of the head's revision, or that is next but does not name the head's
-- commitment as its predecessor, ends with its error in a body that commits, and what it commits
-- is the halt of the tenant's head with the reason.
pub Misbehaves-halts :
    (authority_id : String) (r : CommitRegistryRequest) (head : HeadRow) (db : Db)
    (m : Misbehaves r head db)
    → registry_head r.tenant_id db ≡ some head
    → head.halted ≡ false
    → registry_work authority_id r db
      ≡ ok (
        (zero_receipt, true, some (halt_reason_of m).1),
        halted_state r.tenant_id (halt_reason_of m).0 db,
      )
unfolding registry_work halt_registry_head
Misbehaves-halts authority_id r head db m at live =
    ground (arith, judge-Misbehaves r head db m, any_head r.tenant_id db head)
