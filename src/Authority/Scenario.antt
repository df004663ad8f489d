-- ===== src/Authority/Scenario.antt =====
-- The concrete run of the authority that the examples use: the first registry of a tenant, a case
-- and its advice.
use Prim.Native.String.{◌++◌ as str_append}
use snagline.Prelude.{
  String, ◌≡◌, refl, true, false, none, [], ◌∷◌, Bytes, any, valid_text, valid_commitment, decimal,
  utf8,
}
use snagline.Authority.Request.{
  Error, CommitCaseRequest, CommitAdviceRequest, CommitRegistryRequest, validate_case,
  validate_advice, validate_registry,
}
use snagline.Authority.Sql.{
  Work, allocate_revision, next_sequence, bump_sequence, allocate_delivery_sequence,
  insert_edge_delivery, record_audit, edge_key, outbox_id_bytes, deterministic_outbox_id,
  outbox_row, insert_outbox, registry_head_for_update,
}
use snagline.Authority.Cases.{
  find_case, existing_case, case_collision, case_row, insert_case, bind_registry, write_case,
  admit_case, case_work,
}
use snagline.Authority.Advice.{
  find_advice, existing_advice, advice_collision, binds_case, insert_advice, advice_head,
  write_advice, bound_advice, target_advice, admit_advice, advice_work,
}
use snagline.Authority.Registries.{
  registry_collision, find_high_water, generation_allowed, enforce_high_water,
  enforce_edge_generation_high_water, insert_registry, advance_head, successor, judge,
  write_registry, admit_registry, registry_work,
}
use snagline.Tx.{Result, ok, err}
use snagline.Authority.Tables.{Db}
use snagline.Authority.History.{
  empty_db, Commits, History, registry_commits, case_commits, advice_commits, start, step,
}

-- A stand-in for SHA-256: it tells texts of different lengths apart.
abbrev pub sha : Bytes → String
sha [] = ""
sha (b ∷ bs) = str_append "a" (sha bs)

abbrev pub commitment_a : String
commitment_a = "sha256:aaaaaaaaaaaaaaaaaaaaaaaaaaaaaaaaaaaaaaaaaaaaaaaaaaaaaaaaaaaaaaaa"

abbrev pub commitment_b : String
commitment_b = "sha256:bbbbbbbbbbbbbbbbbbbbbbbbbbbbbbbbbbbbbbbbbbbbbbbbbbbbbbbbbbbbbbbb"

abbrev pub commitment_c : String
commitment_c = "sha256:cccccccccccccccccccccccccccccccccccccccccccccccccccccccccccccccc"

abbrev pub first_registry : CommitRegistryRequest
first_registry = record {
  tenant_id = "t";
  revision = 1;
  envelope_id = "e1";
  commitment = commitment_a;
  raw = 1 ∷ [];
  routing_epoch = 1;
  previous_commitment = "";
  edges = ("edge", record { principal_id = "p"; generation = 1 }) ∷ [];
  authenticated_principal_id = "p";
  authenticated_edge_id = "";
  decision = "";
}

abbrev pub first_case : CommitCaseRequest
first_case = record {
  tenant_id = "t";
  case_id = "c";
  envelope_id = "e2";
  commitment = commitment_b;
  raw = 2 ∷ [];
  domain = "d";
  issuer_edge_id = "edge";
  issuer_edge_generation = 1;
  routing_epoch = 1;
  registry_revision = 1;
  registry_hash = commitment_a;
  expires_at = 100;
  authenticated_principal_id = "p";
  authenticated_edge_id = "edge";
  decision = "";
}

abbrev pub first_advice : CommitAdviceRequest
first_advice = record {
  tenant_id = "t";
  case_id = "c";
  envelope_id = "e3";
  case_commitment = commitment_b;
  commitment = commitment_c;
  raw = 3 ∷ [];
  routing_epoch = 1;
  registry_revision = 1;
  registry_hash = commitment_a;
  authenticated_principal_id = "q";
  authenticated_edge_id = "";
  decision = "";
}

abbrev pub state_of : Result Error (Work × Db) → Db
state_of (ok (w, db)) = db
state_of (err e) = empty_db

abbrev pub work_of : Result Error (Work × Db) → Work
work_of (ok (w, db)) = w
work_of (err e) =
    (record { authority_id = ""; revision = 0; envelope_id = ""; commitment = "" }, false, none)

-- The states after the registry, after the case and after the advice.
unfoldable pub registered : Db
unfolding any allocate_revision next_sequence record_audit registry_head_for_update
    registry_collision find_high_water generation_allowed enforce_high_water
    enforce_edge_generation_high_water insert_registry advance_head successor judge write_registry
    admit_registry registry_work
registered = state_of (registry_work "a" first_registry empty_db)

unfoldable pub case_open : Db
unfolding registered decimal utf8 allocate_delivery_sequence insert_edge_delivery edge_key
    outbox_id_bytes deterministic_outbox_id outbox_row insert_outbox find_case existing_case
    case_collision insert_case bind_registry write_case admit_case case_work
case_open = state_of (case_work sha "a" 1 first_case registered)

unfoldable pub advised : Db
unfolding case_open bump_sequence case_row find_advice existing_advice advice_collision binds_case
    insert_advice advice_head write_advice bound_advice target_advice admit_advice advice_work
advised = state_of (advice_work sha "a" 2 first_advice case_open)

pub registered_ok :
    registry_work "a" first_registry empty_db
    ≡ ok (work_of (registry_work "a" first_registry empty_db), registered)
unfolding registered
registered_ok = refl

pub case_open_ok :
    case_work sha "a" 1 first_case registered
    ≡ ok (work_of (case_work sha "a" 1 first_case registered), case_open)
unfolding case_open
case_open_ok = refl

pub advised_ok :
    advice_work sha "a" 2 first_advice case_open
    ≡ ok (work_of (advice_work sha "a" 2 first_advice case_open), advised)
unfolding advised
advised_ok = refl

registry_is_valid : validate_registry first_registry ≡ true
unfolding validate_registry valid_text valid_commitment
registry_is_valid = refl

case_is_valid : validate_case first_case ≡ true
unfolding validate_case valid_text valid_commitment
case_is_valid = refl

advice_is_valid : validate_advice first_advice ≡ true
unfolding validate_advice valid_text valid_commitment
advice_is_valid = refl

pub registered-Commits : Commits sha "a" empty_db registered
registered-Commits = registry_commits first_registry _ registry_is_valid registered_ok

pub case_open-Commits : Commits sha "a" registered case_open
case_open-Commits = case_commits 1 first_case _ case_is_valid case_open_ok

pub advised-Commits : Commits sha "a" case_open advised
advised-Commits = advice_commits 2 first_advice _ advice_is_valid advised_ok

pub registered-History : History sha "a" registered
registered-History = step start registered-Commits

pub case_open-History : History sha "a" case_open
case_open-History = step registered-History case_open-Commits

pub advised-History : History sha "a" advised
advised-History = step case_open-History advised-Commits
