-- ===== src/Authority/History.antt =====
-- The committed states of the authority: each arises from the one before by one transaction body.
use snagline.Prelude.{true, ◌+◌, ℕ, String, ◌≡◌, List, [], inl, inr, Bytes}
use snagline.Tx.{ok}
use snagline.Authority.Moves.{OutboxMoves}
use snagline.Authority.Request.{
  validate_case, validate_advice, validate_registry, Error, CommitCaseRequest, CommitAdviceRequest,
  CommitRegistryRequest,
}
use snagline.Authority.Tables.{CaseRow, HighWaterRow, HaltReason, Db}
use snagline.Authority.Sql.{Work}
use snagline.Authority.Cases.{case_work}
use snagline.Authority.Advice.{advice_work}
use snagline.Authority.Registries.{registry_work}
use snagline.Authority.Effects.{
  CaseAdmitted, AdviceAdmitted, HeadHalted, RegistryAdmitted, case_work-effect, advice_work-effect,
  registry_work-effect,
}

abbrev pub empty_db : Db
empty_db = record {
  next_revision = 1;
  cases = [];
  advice = [];
  sequences = [];
  deliveries = [];
  heads = [];
  high_water = [];
  registries = [];
  audit = [];
  outbox = [];
}

-- Revisions that a body allocated before it failed: a PostgreSQL sequence is not rolled back.
abbrev pub skipped_state : ℕ → Db → Db
skipped_state n db = record db { next_revision = n + db.next_revision }

-- One committed transaction body of a valid request, an operation on the outbox, or the loss of revisions to bodies that failed.
pub data Commits (sha : Bytes → String) (authority_id : String) (db db' : Db) : Type 0 where
  case_commits :
      (now : ℕ) (r : CommitCaseRequest) (w : Work)
      → validate_case r ≡ true
      → case_work sha authority_id now r db ≡ ok (w, db')
      → Commits sha authority_id db db'
  advice_commits :
      (now : ℕ) (r : CommitAdviceRequest) (w : Work)
      → validate_advice r ≡ true
      → advice_work sha authority_id now r db ≡ ok (w, db')
      → Commits sha authority_id db db'
  registry_commits :
      (r : CommitRegistryRequest) (w : Work)
      → validate_registry r ≡ true
      → registry_work authority_id r db ≡ ok (w, db')
      → Commits sha authority_id db db'
  outbox_moves : OutboxMoves db db' → Commits sha authority_id db db'
  revisions_lost : (n : ℕ) → db' ≡ skipped_state n db → Commits sha authority_id db db'

pub data History (sha : Bytes → String) (authority_id : String) : Db → Type 0 where
  start : History sha authority_id empty_db
  step :
      {db db' : Db}
      → History sha authority_id db
      → Commits sha authority_id db db'
      → History sha authority_id db'

-- The same, by what the bodies have done.
pub data Effect (db db' : Db) : Type 0 where
  unchanged : db' ≡ db → Effect db db'
  skipped : (n : ℕ) → db' ≡ skipped_state n db → Effect db db'
  moved : OutboxMoves db db' → Effect db db'
  case_admitted :
      (now : ℕ) (r : CommitCaseRequest)
      → validate_case r ≡ true
      → CaseAdmitted r db db'
      → Effect db db'
  advice_admitted :
      (now : ℕ) (r : CommitAdviceRequest) (target : CaseRow)
      → validate_advice r ≡ true
      → AdviceAdmitted r target db db'
      → Effect db db'
  head_halted :
      (r : CommitRegistryRequest) (reason : HaltReason) (e : Error)
      → HeadHalted r reason e db db'
      → Effect db db'
  registry_admitted :
      (r : CommitRegistryRequest) (rows : List HighWaterRow)
      → RegistryAdmitted r rows db db'
      → Effect db db'

pub classified :
    (sha : Bytes → String) (authority_id : String) (db db' : Db)
    → Commits sha authority_id db db'
    → Effect db db'
classified sha authority_id db db' (case_commits now r w v h) =
    elim (case_work-effect sha authority_id now r db db' w h) [
      | inl same ↦ unchanged same
      | inr admitted ↦ case_admitted now r v admitted
    ]
classified sha authority_id db db' (advice_commits now r w v h) =
    elim (advice_work-effect sha authority_id now r db db' w h) [
      | inl same ↦ unchanged same
      | inr (target, admitted) ↦ advice_admitted now r target v admitted
    ]
classified sha authority_id db db' (registry_commits r w v h) =
    elim (registry_work-effect sha authority_id 0 r db db' w h) [
      | inl same ↦ unchanged same
      | inr (inl (reason, e, halted)) ↦ head_halted r reason e halted
      | inr (inr (rows, admitted)) ↦ registry_admitted r rows admitted
    ]
classified sha authority_id db db' (outbox_moves m) = moved m
classified sha authority_id db db' (revisions_lost n e) = skipped n e
