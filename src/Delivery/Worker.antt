-- ===== src/Delivery/Worker.antt =====
-- Worker of internal/delivery/outbox/worker.go. What a worker is given (its context, its source, its
-- publisher and its clock) is an interface over a state `W`: an operation takes the state and
-- returns it anew, with an error of type `E` where it fails.
use snagline.Prelude.{
  ℕ, ◌+◌, String, Bool, true, false, ◌&&◌, Option, none, some, List, [], ◌∷◌, ◌++◌, leb, ltb,
  length, Bytes, valid_text,
}
use snagline.Tx.{Result, ok, err}
use snagline.Authority.Outbox.{
  Item, ReleaseReason, publish_failed, malformed_item, max_batch_size, max_lease,
}
use snagline.Delivery.Stream.{PublishRequest}
use snagline.Delivery.Request.{ItemError, publish_request}

-- 24 hours
abbrev pub max_retry_delay : ℕ
max_retry_delay = 86400000000000

pub record Env (W E : Type 0) : Type 0 where
  pub context_error : W → Option E × W
  pub claim_items : String → ℕ → ℕ → W → Result E (List Item) × W
  pub mark_item : String → String → W → Option E × W
  pub release_item : String → String → ℕ → ReleaseReason → W → Option E × W
  pub publish : PublishRequest → W → Option E × W
  pub now : W → ℕ × W

pub record Settings : Type 0 where
  pub worker_id : String
  pub limit : ℕ
  pub lease : ℕ
  pub retry_delay : ℕ

pub data WorkerError (E : Type 0) : Type 0 where
  invalid_worker too_many_items : WorkerError E
  context_done claim_error : E → WorkerError E
  malformed : String → ItemError → WorkerError E
  publish_error mark_error release_error : String → E → WorkerError E

-- The source and the publisher are there.
unfoldable pub validate : Settings → Bool
validate s =
    valid_text s.worker_id
    && (ltb 0 s.limit
        && (leb s.limit max_batch_size
            && (ltb 0 s.lease
                && (leb s.lease max_lease
                    && (ltb 0 s.retry_delay && leb s.retry_delay max_retry_delay)))))

abbrev pub noted : {E A : Type 0} → (E → A) → Option E → List A
noted f none = []
noted f (some e) = f e ∷ []

module _ {W E : Type 0} (sha : Bytes → String) (env : Env W E) (settings : Settings) where
  open env use {context_error, claim_items, mark_item, release_item, publish, now}

  unfoldable pub release_with : Item → ReleaseReason → W → Option E × W
  release_with item reason w =
      let (at, w') = now w in
      release_item item.id item.lease_token (at + settings.retry_delay) reason w'

  -- The body of the loop: the errors to note, whether the pass ends here, and the state.
  abbrev pub Step : Type 0
  Step = List (WorkerError E) × Bool × W

  unfoldable pub noted_release : Item → WorkerError E → Option E × W → Step
  noted_release item e (failed, w) = (e ∷ noted (release_error item.id) failed, false, w)

  -- after a publication that failed, with what ctx.Err() says
  unfoldable pub after_refusal : Item → E → Option E × W → Step
  after_refusal item e (some c, w) = (publish_error item.id e ∷ context_done c ∷ [], true, w)
  after_refusal item e (none, w) =
      noted_release item (publish_error item.id e) (release_with item publish_failed w)

  unfoldable pub after_mark_error : Item → E → Option E × W → Step
  after_mark_error item e (some c, w) = (mark_error item.id e ∷ context_done c ∷ [], true, w)
  after_mark_error item e (none, w) = (mark_error item.id e ∷ [], false, w)

  unfoldable pub after_mark : Item → Option E × W → Step
  after_mark item (none, w) = ([], false, w)
  after_mark item (some e, w) = after_mark_error item e (context_error w)

  unfoldable pub after_publish : Item → Option E × W → Step
  after_publish item (some e, w) = after_refusal item e (context_error w)
  after_publish item (none, w) = after_mark item (mark_item item.id item.lease_token w)

  unfoldable pub dispatch_item : Item → Result ItemError PublishRequest → W → Step
  dispatch_item item (err e) w =
      noted_release item (malformed item.id e) (release_with item malformed_item w)
  dispatch_item item (ok request) w = after_publish item (publish request w)

  unfoldable pub run_item : Item → W → Step
  run_item item w = dispatch_item item (publish_request sha item) w

  -- The loop over the claimed items; the errors join the way errors.Join lists them.
  unfoldable pub run_items : List Item → W → List (WorkerError E) × W
  run_items [] w = let (done, w') = context_error w in (noted context_done done, w')
  run_items (item ∷ items) w =
      let (done, w') = context_error w in
      let (errors, ends, w'') = run_item item w' in
      let (more, w''') = run_items items w'' in
      elim done [
        | some c ↦ (context_done c ∷ [], w')
        | none ↦ (elim ends [ true ↦ (errors, w'') | false ↦ (errors ++ more, w''') ])
      ]

  -- After the claim: its bound, the context, and the loop.
  unfoldable pub run_claimed : List Item → W → List (WorkerError E) × W
  run_claimed items w =
      let (done, w') = context_error w in
      let rest = run_items items w' in
      elim (ltb settings.limit (length items)) [
        | true ↦ (too_many_items ∷ [], w)
        | false ↦ (elim done [ some c ↦ (context_done c ∷ [], w') | none ↦ rest ])
      ]

  unfoldable pub claim_and_run : W → List (WorkerError E) × W
  claim_and_run w =
      let (claimed, w') = claim_items settings.worker_id settings.limit settings.lease w in
      elim claimed [ err e ↦ (claim_error e ∷ [], w') | ok items ↦ run_claimed items w' ]

  -- The errors of one pass; none is a nil error.
  unfoldable pub run_once : W → List (WorkerError E) × W
  run_once w = elim (validate settings) [
    | false ↦ (invalid_worker ∷ [], w)
    | true ↦
        (let (done, w') = context_error w in
          elim done [ some c ↦ (context_done c ∷ [], w') | none ↦ claim_and_run w' ])
  ]
