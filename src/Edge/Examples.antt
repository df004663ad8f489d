-- ===== src/Edge/Examples.antt =====
-- The theorems on the store, the consumer and the recovery of an edge, applied to its scenario.
use snagline.Authority.Logs.{route_log}
use snagline.Delivery.Stream.{subject}
use snagline.Edge.Validate.{valid_identity, edge_delivery_subject}
use snagline.Prelude.{ℕ, ◌≡◌, refl, true, false, some, [], ◌∷◌, arith, valid_text}
use snagline.Tx.{Result, ok}
use snagline.Edge.Vault.{seal, open_sealed}
use snagline.Edge.Sealed.{open_sealed-seal}
use snagline.Edge.Tables.{
  verdict_accepted, apply_duplicate, EdgeIdentity, JournalDelivery, DeliveryRow, EdgeDb,
}
use snagline.Edge.Apply.{apply_verified, delivery_row, find_delivery}
use snagline.Edge.Applied.{last_seq}
use snagline.Edge.Cursor.{delivery_state_row, new_state}
use snagline.Edge.Recorded.{IsContiguous, StoreHistory-IsContiguous}
use snagline.Edge.CursorMoves.{CursorMove, apply_verified-CursorMove}
use snagline.Edge.Facts.{FactsAreClaimed}
use snagline.Edge.Claimed.{StoreHistory-FactsAreClaimed}
use snagline.Edge.Kept.{later-find_delivery}
use snagline.Edge.History.{opened, empty_edge, now_here, later_step, required}
use snagline.Edge.Consumer.{
  route_matches, matches_identity, stored, verdict_on, apply, Verification, verified, permanent,
  ConsumerError, process_quarantined, Message, handle, Run, ProcessOutcome,
}
use snagline.Edge.Reconcile.{ReconcileBatch, apply_batch, reconcile, is_contiguous_batch}
use snagline.Edge.Resumed.{HasResumed, reconcile-resumes}
use snagline.Edge.Stuck.{quarantined-stays-halted}
use snagline.Edge.Recovered.{Recovers, fetch_after-Recovers}
use snagline.Authority.Scenario.{sha, advised, advised-History}
use snagline.Authority.Reads.{
  EdgeDeliveryQuery, validate_query, active_edge, max_sequence, delivery_page, list_edge_deliveries,
}
use snagline.Authority.Registries.{upsert_high_water}
use snagline.Authority.ReadExamples.{query}
use snagline.Edge.Scenario.{
  wide, clear, clear-IsAead, payload, own, route, delivery, projection, commitment_a, commitment_b,
  store_one, store_one-StoreHistory, store_halted, store_halted_ok, store_halted-StoreHistory,
}

StoreHistory-IsContiguous_example : IsContiguous store_one
StoreHistory-IsContiguous_example =
    StoreHistory-IsContiguous wide clear "t" payload store_one store_one-StoreHistory

StoreHistory-FactsAreClaimed_example : FactsAreClaimed store_one
StoreHistory-FactsAreClaimed_example =
    StoreHistory-FactsAreClaimed wide clear "t" payload store_one store_one-StoreHistory

-- The first delivery comes again.
replay_ok :
    apply_verified wide clear "t" payload
      (5 ∷ [])
      false
      (delivery 1 (1 ∷ []))
      verdict_accepted
      ""
      (some (projection commitment_a))
      3
      store_one
    ≡ ok (apply_duplicate, store_one)
unfolding store_one
replay_ok = refl

apply_verified-CursorMove_example :
    CursorMove wide (delivery 1 (1 ∷ [])) 3 store_one store_one apply_duplicate
apply_verified-CursorMove_example =
    apply_verified-CursorMove wide clear "t" payload store_one store_one (5 ∷ []) false
      (delivery 1 (1 ∷ [])) verdict_accepted "" (some (projection commitment_a)) 3 apply_duplicate
      store_one-StoreHistory replay_ok

abbrev first_row : DeliveryRow
first_row =
    delivery_row wide (delivery 1 (1 ∷ [])) verdict_accepted "" (some (projection commitment_a)) 3

first_found : find_delivery own 1 store_one ≡ some first_row
unfolding store_one
first_found = refl

later-find_delivery_example : find_delivery own 1 store_halted ≡ some first_row
later-find_delivery_example =
    later-find_delivery own 1 first_row wide clear "t" payload store_one store_halted
      (later_step now_here (required own 2 "gap" 4 store_halted_ok)) first_found

-- The authority's second delivery is refused for good; its batch reaches the watermark.
abbrev refusing : JournalDelivery → Verification
refusing d = permanent "bad"

abbrev batch : ReconcileBatch
batch = record { deliveries = delivery 2 (2 ∷ []) ∷ []; high_watermark = 2; complete_through = 2 }

abbrev fetched : EdgeIdentity → ℕ → Result ConsumerError ReconcileBatch
fetched id after = ok batch

unfoldable caught_up_store : EdgeDb
unfolding store_halted
caught_up_store =
    (apply_batch wide clear "t" payload refusing own (λ n. 5 ∷ []) batch.deliveries 0 5
      store_halted).1

batch_ok :
    apply_batch wide clear "t" payload refusing own (λ n. 5 ∷ []) batch.deliveries 0 5 store_halted
    ≡ (ok 1, caught_up_store)
unfolding caught_up_store apply_batch apply verdict_on stored
batch_ok = refl

is_next : is_contiguous_batch own 2 batch.deliveries ≡ true
unfolding is_contiguous_batch matches_identity
is_next = refl

reconcile-resumes_example :
    HasResumed own batch
      (reconcile wide clear "t" payload refusing own fetched (λ n. 5 ∷ []) true 5 store_halted)
unfolding store_halted last_seq is_contiguous_batch matches_identity
reconcile-resumes_example =
    reconcile-resumes wide clear "t" payload refusing own fetched (λ n. 5 ∷ []) batch 5 store_halted
      caught_up_store 1 store_halted-StoreHistory refl refl refl refl refl refl refl (omega arith)
      batch_ok

-- A second commitment under the envelope of the first case.
abbrev equivocal : JournalDelivery → Verification
equivocal d = verified (some (projection commitment_b))

abbrev second_message : Message
second_message = record {
  metadata = some (record {
    stream = "s";
    sequence = 8;
    delivery_seq = 2;
    tenant_id = "t";
    edge_id = "e";
    edge_generation = 1;
  });
  subject = route;
  content = 2 ∷ [];
}

abbrev second_run : Run ProcessOutcome
second_run = handle wide clear "t" payload equivocal own false (5 ∷ []) second_message 5 store_one

equivocal_ok : second_run.returned ≡ ok process_quarantined
unfolding store_one handle matches_identity apply verdict_on route_matches edge_delivery_subject
    subject stored
equivocal_ok = refl

quarantined-stays-halted_example :
    (reconcile wide clear "t" payload equivocal own fetched
      (λ n. 5 ∷ [])
      second_run.halted
      6
      second_run.db).halted
    ≡ true
unfolding store_one
quarantined-stays-halted_example =
    quarantined-stays-halted wide clear "t" payload equivocal own (5 ∷ []) second_message 5 6
      store_one fetched (λ n. 5 ∷ []) store_one-StoreHistory refl equivocal_ok

open_sealed-seal_example :
    open_sealed clear "t" "table" "k" (seal clear "t" (5 ∷ []) "table" "k" (1 ∷ 2 ∷ []))
    ≡ some (1 ∷ 2 ∷ [])
open_sealed-seal_example =
    open_sealed-seal clear "t" (5 ∷ []) "table" "k" (1 ∷ 2 ∷ []) clear-IsAead refl

abbrev advised_edge : EdgeIdentity
advised_edge = record { tenant_id = "t"; edge_id = "edge"; generation = 1 }

abbrev first_query : EdgeDeliveryQuery
first_query = record query { after_sequence = 0 }

first_page_ok : list_edge_deliveries first_query advised ≡ ok (delivery_page first_query advised)
unfolding advised validate_query list_edge_deliveries active_edge valid_text upsert_high_water
first_page_ok = refl

-- A new edge, whose store is empty, asks for the two deliveries of the authority's scenario.
fetch_after-Recovers_example :
    Recovers sha "a" "p" advised clear "t" payload refusing
      (λ n. 5 ∷ [])
      advised_edge
      10
      5
      (delivery_page first_query advised)
      empty_edge
unfolding advised valid_identity delivery_page max_sequence route_log last_seq delivery_state_row
    new_state
fetch_after-Recovers_example =
    fetch_after-Recovers sha "a" "p" advised clear "t" payload refusing (λ n. 5 ∷ []) advised_edge
      10 5 (delivery_page first_query advised) empty_edge advised-History (refl, (refl, tt)) opened
      refl first_page_ok (omega arith)
