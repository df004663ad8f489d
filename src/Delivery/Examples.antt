-- ===== src/Delivery/Examples.antt =====
-- The protocol of a worker's pass, applied to the items that the authority's scenario claims.
use snagline.Prelude.{◌≡◌, ◌==◌, refl, false, All, arith, none, [], String, ℕ}
use snagline.Tx.{ok}
use snagline.Authority.Scenario.{sha, advised, advised-History}
use snagline.Authority.LeaseScenario.{items, claimed, claimed_ok, text_le, locked, grants, lease}
use snagline.Delivery.Worker.{Env, Settings, run_items}
use snagline.Delivery.Calls.{traced, Drains}
use snagline.Delivery.Passes.{run_items-protocol}
use snagline.Delivery.Publishable.{Carries}
use snagline.Delivery.Deliverable.{IsSmall, claimed_items-Carries}

-- A source and a publisher that accept everything; the state counts the readings of the clock.
abbrev accepting : Env ℕ String
accepting = record {
  context_error = λ w. (none, w);
  claim_items = λ worker limit lease w. (ok [], w);
  mark_item = λ id token w. (none, w);
  release_item = λ id token at reason w. (none, w);
  publish = λ request w. (none, w);
  now = λ w. (w, w);
}

abbrev settings : Settings
settings = record { worker_id = "w"; limit = 10; lease = 1000000; retry_delay = 1000 }

run_items-protocol_example :
    Drains sha items (run_items sha (traced accepting) settings items (0, [])).1.1
run_items-protocol_example = run_items-protocol sha accepting settings items 0

named_tokens : (n : ℕ) → ((grants n).token == "") ≡ false
named_tokens n = refl

rows_fit : All IsSmall advised.outbox
unfolding advised
rows_fit = (omega arith, (omega arith, (omega arith, tt)))

claimed_items-Carries_example : All (Carries sha advised) items
claimed_items-Carries_example =
    claimed_items-Carries sha "a" advised claimed text_le locked 10 grants "w" 10 lease items
      advised-History claimed_ok named_tokens rows_fit
