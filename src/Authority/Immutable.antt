-- ===== src/Authority/Immutable.antt =====
-- The committed rows of internal/authority/postgres/store.go under later commits.
use snagline.Prelude.{ℕ, String, ◌≡◌, some, List, [], ◌∷◌, ◌++◌, arith, Bytes, eq_iff, find}
use snagline.Authority.Request.{CommitCaseRequest, CommitAdviceRequest, CommitRegistryRequest}
use snagline.Authority.Tables.{CaseRow, AdviceRow, DeliveryRow, RegistryRow, HighWaterRow, Db}
use snagline.Authority.Cases.{find_case, case_row}
use snagline.Authority.Advice.{find_advice, advice_row}
use snagline.Authority.Registries.{find_registry, registry_row}
use snagline.Authority.Effects.{CaseAdmitted, AdviceAdmitted, RegistryAdmitted}
use snagline.Authority.Moves.{OutboxMoves-OnlyOutbox}
use snagline.Authority.History.{
  Commits, Effect, unchanged, skipped, moved, case_admitted, advice_admitted, head_halted,
  registry_admitted, classified,
}

-- Every case, advice and registry is found unchanged, and the delivery log has only grown.
pub record KeepsFacts (db db' : Db) : Type 0 where
  pub keeps_case :
      (t c : String) (row : CaseRow) → find_case t c db ≡ some row → find_case t c db' ≡ some row
  pub keeps_advice :
      (t c : String) (row : AdviceRow)
      → find_advice t c db ≡ some row
      → find_advice t c db' ≡ some row
  pub keeps_registry :
      (t : String) (n : ℕ) (row : RegistryRow)
      → find_registry t n db ≡ some row
      → find_registry t n db' ≡ some row
  pub keeps_deliveries : (new : List DeliveryRow) × (db'.deliveries ≡ new ++ db.deliveries)

case-KeepsFacts : (r : CommitCaseRequest) (db db' : Db) → CaseAdmitted r db db' → KeepsFacts db db'
unfolding find_case find_advice find_registry find case_row
case-KeepsFacts r db db' a = record {
  keeps_case =
      λ t c row h. ground (arith, a.is_new, a.written, eq_iff r.tenant_id t, eq_iff r.case_id c);
  keeps_advice = λ t c row h. ground (arith, a.written);
  keeps_registry = λ t n row h. ground (arith, a.written);
  keeps_deliveries = (_ ∷ [], a.written.deliveries);
}

advice-KeepsFacts :
    (r : CommitAdviceRequest) (target : CaseRow) (db db' : Db)
    → AdviceAdmitted r target db db'
    → KeepsFacts db db'
unfolding find_case find_advice find_registry find advice_row
advice-KeepsFacts r target db db' a = record {
  keeps_case = λ t c row h. ground (arith, a.written);
  keeps_advice =
      λ t c row h. ground (arith, a.is_first, a.written, eq_iff r.tenant_id t, eq_iff r.case_id c);
  keeps_registry = λ t n row h. ground (arith, a.written);
  keeps_deliveries = (_ ∷ [], a.written.deliveries);
}

registry-KeepsFacts :
    (r : CommitRegistryRequest) (rows : List HighWaterRow) (db db' : Db)
    → RegistryAdmitted r rows db db'
    → KeepsFacts db db'
unfolding find_case find_advice find_registry find registry_row
registry-KeepsFacts r rows db db' a = record {
  keeps_case = λ t c row h. ground (arith, a.written);
  keeps_advice = λ t c row h. ground (arith, a.written);
  keeps_registry = λ t n row h. ground (arith, a.is_new, a.written, eq_iff r.tenant_id t);
  keeps_deliveries = ([], ground (arith, a.written));
}

Effect-KeepsFacts : (db db' : Db) → Effect db db' → KeepsFacts db db'
unfolding find_case find_advice find_registry
Effect-KeepsFacts db db' (unchanged e) = record {
  keeps_case = λ t c row h. ground arith;
  keeps_advice = λ t c row h. ground arith;
  keeps_registry = λ t n row h. ground arith;
  keeps_deliveries = ([], ground arith);
}
Effect-KeepsFacts db db' (skipped n e) = record {
  keeps_case = λ t c row h. ground (arith, e);
  keeps_advice = λ t c row h. ground (arith, e);
  keeps_registry = λ t m row h. ground (arith, e);
  keeps_deliveries = ([], ground (arith, e));
}
Effect-KeepsFacts db db' (moved m) = record {
  keeps_case = λ t c row h. ground (arith, OutboxMoves-OnlyOutbox db db' m);
  keeps_advice = λ t c row h. ground (arith, OutboxMoves-OnlyOutbox db db' m);
  keeps_registry = λ t n row h. ground (arith, OutboxMoves-OnlyOutbox db db' m);
  keeps_deliveries = ([], ground (arith, OutboxMoves-OnlyOutbox db db' m));
}
Effect-KeepsFacts db db' (case_admitted _ r v a) = case-KeepsFacts r db db' a
Effect-KeepsFacts db db' (advice_admitted _ r target v a) = advice-KeepsFacts r target db db' a
Effect-KeepsFacts db db' (head_halted r reason e a) = record {
  keeps_case = λ t c row h. ground (arith, a.written);
  keeps_advice = λ t c row h. ground (arith, a.written);
  keeps_registry = λ t n row h. ground (arith, a.written);
  keeps_deliveries = ([], ground (arith, a.written));
}
Effect-KeepsFacts db db' (registry_admitted r rows a) = registry-KeepsFacts r rows db db' a

-- Whatever a committed transaction body does, every case, advice and registry that was committed
-- before it is found unchanged after it under its key, and the edge delivery table keeps its rows.
pub Commits-KeepsFacts :
    (sha : Bytes → String) (authority_id : String) (db db' : Db)
    → Commits sha authority_id db db'
    → KeepsFacts db db'
Commits-KeepsFacts sha authority_id db db' c =
    Effect-KeepsFacts db db' (classified sha authority_id db db' c)
