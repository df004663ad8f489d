-- ===== src/Authority/Examples.antt =====
-- The theorems on the commits and reads of the authority, applied to its scenario.
use snagline.Tx.{Result, ok, err}
use snagline.Prelude.{
  bytes_equal, update_where, ◌≡◌, ◌≢◌, ◌==◌, ap, arith, refl, true, false, Option, none, some, List,
  [], ◌∷◌, valid_text, valid_commitment,
}
use snagline.Authority.Request.{Error, CommitAdviceRequest, CommitRegistryRequest, validate_case}
use snagline.Authority.Sql.{halt_registry_head, Work, zero_receipt, registry_head}
use snagline.Authority.Cases.{same_case, case_row, case_work}
use snagline.Authority.Advice.{find_advice, same_advice, advice_row, advice_work}
use snagline.Authority.Registries.{upsert_high_water, enforce_high_water, registry_work}
use snagline.Authority.Transactions.{
  Attempt, done, serialization_failure, transaction, attempts, round, run_body, finish_work,
  commit_answered,
}
use snagline.Authority.Scenario.{
  sha, commitment_a, commitment_b, commitment_c, first_registry, first_case, first_advice, state_of,
  work_of, case_open-Commits, advised-Commits, case_open_ok, registered-History, advised-History,
  registered, case_open, advised,
}
use snagline.Authority.Tables.{
  Db, HeadRow, HighWaterRow, AdviceRow, predecessor_mismatch, not_halted,
}
use snagline.Authority.History.{case_commits}
use snagline.Authority.Durable.{CommittedBy, In, transaction-committed, transaction-durable}
use snagline.Authority.Logs.{IsGapless}
use snagline.Authority.Gapless.{History-IsGapless}
use snagline.Authority.Bindings.{IsChained, IsBound}
use snagline.Authority.Chain.{History-IsChained}
use snagline.Authority.Origins.{History-IsBound}
use snagline.Authority.Immutable.{KeepsFacts, Commits-KeepsFacts}
use snagline.Authority.Halted.{
  TenantUnchanged, halted-TenantUnchanged, Misbehaves, forks, halt_reason_of, Misbehaves-halts,
}
use snagline.Authority.Effects.{halted_state}
use snagline.Authority.Generations.{Reaches, Commits-Reaches}
use snagline.Authority.Replay.{now, after, replayed_case, refusal, final_advice}

-- The first round of the call ends with a serialization failure at COMMIT, the second goes well.
abbrev interrupted : Attempt
interrupted = record {
  db = registered;
  begin_answer = done;
  body_answer = done;
  rollback_answer = done;
  commit_answer = serialization_failure;
}

abbrev clean : Attempt
clean = record interrupted { commit_answer = done }

abbrev work : Result Error (Work × Db)
work = case_work sha "a" 1 first_case registered

second_round :
    (transaction (case_work sha "a" 1 first_case) interrupted clean clean).committed
    ≡ some case_open
unfolding transaction attempts round run_body finish_work commit_answered case_open
second_round = refl

transaction-committed_example :
    (x : Attempt) × In x (interrupted ∷ clean ∷ clean ∷ [])
    × (w : Work) × CommittedBy
        (case_work sha "a" 1 first_case)
        x
        (transaction (case_work sha "a" 1 first_case) interrupted clean clean)
        case_open
        w
transaction-committed_example =
    transaction-committed (case_work sha "a" 1 first_case) interrupted clean clean case_open
      second_round

second_receipt :
    (transaction (case_work sha "a" 1 first_case) interrupted clean clean).returned
    ≡ ok (work_of work).0
unfolding transaction attempts round run_body finish_work commit_answered case_open
second_receipt = refl

transaction-durable_example :
    (db : Db) × ((transaction (case_work sha "a" 1 first_case) interrupted clean clean).committed
      ≡ some db)
transaction-durable_example =
    transaction-durable (case_work sha "a" 1 first_case) interrupted clean clean (work_of work).0
      second_receipt

History-IsGapless_example : IsGapless advised
History-IsGapless_example = History-IsGapless sha "a" advised advised-History

History-IsChained_example : IsChained advised
History-IsChained_example = History-IsChained sha "a" advised advised-History

History-IsBound_example : IsBound advised
History-IsBound_example = History-IsBound sha "a" advised advised-History

Commits-KeepsFacts_example : KeepsFacts case_open advised
Commits-KeepsFacts_example = Commits-KeepsFacts sha "a" case_open advised advised-Commits

-- A second registry that does not name the first as its predecessor.
abbrev fork : CommitRegistryRequest
fork = record first_registry {
  revision = 2;
  envelope_id = "e4";
  commitment = commitment_c;
  previous_commitment = commitment_b;
}

abbrev first_head : HeadRow
first_head = record {
  tenant_id = "t";
  latest_revision = 1;
  latest_commitment = commitment_a;
  routing_epoch = 1;
  halted = false;
  halt_reason = not_halted;
}

live_head : registry_head "t" case_open ≡ some first_head
unfolding case_open
live_head = refl

apart : commitment_b ≢ commitment_a
apart e = absurd (cc (ap (λ s. s == commitment_a) e))

abbrev forked : Misbehaves fork first_head case_open
forked = forks refl (apart)

Misbehaves-halts_example :
    registry_work "a" fork case_open
    ≡ ok (
      (zero_receipt, true, some (halt_reason_of forked).1),
      halted_state "t" (halt_reason_of forked).0 case_open,
    )
Misbehaves-halts_example = Misbehaves-halts "a" fork first_head case_open forked live_head refl

unfoldable stopped : Db
unfolding case_open
stopped = state_of (registry_work "a" fork case_open)

abbrev halted_head : HeadRow
halted_head = record first_head { halted = true; halt_reason = predecessor_mismatch }

stopped_head : registry_head "t" stopped ≡ some halted_head
unfolding stopped halt_registry_head update_where
stopped_head = refl

first_case_is_valid : validate_case first_case ≡ true
unfolding validate_case valid_text valid_commitment
first_case_is_valid = refl

-- The case is answered again while the head is halted.
answered_again :
    case_work sha "a" 7 first_case stopped
    ≡ ok (work_of (case_work sha "a" 7 first_case stopped), stopped)
unfolding stopped halt_registry_head case_row same_case bytes_equal
answered_again = refl

halted-TenantUnchanged_example : TenantUnchanged "t" stopped stopped
halted-TenantUnchanged_example =
    halted-TenantUnchanged sha "a" "t" halted_head stopped stopped stopped_head refl
      (case_commits 7 first_case _ first_case_is_valid answered_again)

reached : Reaches "t" "edge" 1 registered.high_water
unfolding registered upsert_high_water
reached = (
  record {
    tenant_id = "t";
    edge_id = "edge";
    principal_id = "p";
    highest_generation = 1;
    last_seen_registry_revision = 1;
  },
  refl,
  omega arith,
)

Commits-Reaches_example : Reaches "t" "edge" 1 case_open.high_water
Commits-Reaches_example =
    Commits-Reaches sha "a" "t" "edge" 1 registered case_open case_open-Commits reached

-- The next registry has the edge at its next generation.
abbrev next : CommitRegistryRequest
next = record first_registry {
  revision = 2;
  envelope_id = "e4";
  commitment = commitment_c;
  previous_commitment = commitment_a;
  edges = ("edge", record { principal_id = "p"; generation = 2 }) ∷ [];
}

abbrev rows_of : Result Error (List HighWaterRow) → List HighWaterRow
rows_of (ok rows) = rows
rows_of (err e) = []

abbrev next_rows : Result Error (List HighWaterRow)
next_rows = enforce_high_water "t" 2 (some first_head) next.edges registered.high_water

replayed_case_example :
    case_work sha "a" 9 first_case advised ≡ ok (((work_of work).0, false, none), advised)
replayed_case_example =
    replayed_case sha "a" 1 9 first_case registered case_open advised (work_of work)
      registered-History case_open_ok (after now advised-Commits)

abbrev other_advice : CommitAdviceRequest
other_advice = record first_advice { envelope_id = "e5"; commitment = commitment_a }

abbrev advice_or : Option AdviceRow → AdviceRow
advice_or none = advice_row first_advice (case_row first_case 0) 0 0
advice_or (some row) = row

unfoldable given_advice : AdviceRow
unfolding advised
given_advice = advice_or (find_advice "t" "c" advised)

given_ok : find_advice "t" "c" advised ≡ some given_advice
unfolding given_advice advice_row
given_ok = refl

other_is_other : same_advice given_advice other_advice ≡ false
unfolding given_advice same_advice advice_row
other_is_other = refl

final_advice_example :
    advice_work sha "a" 9 other_advice advised ≡ err (refusal (registry_head "t" advised))
final_advice_example =
    final_advice sha "a" 9 other_advice given_advice advised advised given_ok other_is_other now
