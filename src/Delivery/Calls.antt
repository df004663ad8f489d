-- ===== src/Delivery/Calls.antt =====
-- The calls of a pass of internal/delivery/outbox/worker.go over its claimed items.
use snagline.Prelude.{String, ◌≡◌, Option, none, some, List, [], ◌∷◌, ◌++◌, Bytes}
use snagline.Tx.{ok, err}
use snagline.Authority.Outbox.{Item, ReleaseReason, publish_failed, malformed_item}
use snagline.Delivery.Stream.{PublishRequest}
use snagline.Delivery.Request.{ItemError, publish_request}
use snagline.Delivery.Worker.{Env}

-- A call that a worker makes, with its answer where the order depends on it: what the context says,
-- and the calls of the publisher and of the source.
pub data Call : Type 0 where
  context_open context_ended : Call
  published refused : PublishRequest → Call
  marked mark_failed : String → String → Call
  released : String → String → ReleaseReason → Call

-- The same environment, which also writes down the calls, the last first.
abbrev pub Traced : Type 0 → Type 0
Traced W = W × List Call

abbrev pub answered : {E : Type 0} → Option E → PublishRequest → Call
answered none r = published r
answered (some e) r = refused r

abbrev pub asked : {E : Type 0} → Option E → Call
asked none = context_open
asked (some e) = context_ended

abbrev pub mark_answered : {E : Type 0} → Option E → String → String → Call
mark_answered none id token = marked id token
mark_answered (some e) id token = mark_failed id token

unfoldable pub traced : {W E : Type 0} → Env W E → Env (Traced W) E
traced env = record {
  context_error = λ (w, t). let (e, w') = env.context_error w in (e, (w', t ++ (asked e ∷ [])));
  claim_items = λ worker limit lease (w, t).
      let (r, w') = env.claim_items worker limit lease w in (r, (w', t));
  mark_item = λ id token (w, t).
      let (e, w') = env.mark_item id token w in (e, (w', t ++ (mark_answered e id token ∷ [])));
  release_item = λ id token at reason (w, t).
      let (e, w') = env.release_item id token at reason w in
      (e, (w', t ++ (released id token reason ∷ [])));
  publish = λ request (w, t).
      let (e, w') = env.publish request w in (e, (w', t ++ (answered e request ∷ [])));
  now = λ (w, t). let (n, w') = env.now w in (n, (w', t));
}

-- The calls for a list of claimed items, in their order. The context is asked before each item and
-- behind the last one, and the pass stops where it has ended. An item that makes no request is
-- released as malformed. One whose publication is refused is released to be tried again, unless the
-- context has ended. One whose publication is acknowledged, and no other, is marked; where the mark
-- fails the context is asked again.
pub data Drains (sha : Bytes → String) : List Item → List Call → Type 0 where
  finished : Drains sha [] (context_open ∷ [])
  stops : {items : List Item} → Drains sha items (context_ended ∷ [])
  drops :
      {item : Item} {items : List Item} {calls : List Call} (e : ItemError)
      → publish_request sha item ≡ err e
      → Drains sha items calls
      → Drains sha
          (item ∷ items)
          (context_open ∷ released item.id item.lease_token malformed_item ∷ calls)
  retries :
      {item : Item} {items : List Item} {calls : List Call} (request : PublishRequest)
      → publish_request sha item ≡ ok request
      → Drains sha items calls
      → Drains sha (item ∷ items) (
          context_open
          ∷ refused request
          ∷ context_open
          ∷ released item.id item.lease_token publish_failed
          ∷ calls)
  gives_up :
      {item : Item} {items : List Item} (request : PublishRequest)
      → publish_request sha item ≡ ok request
      → Drains sha (item ∷ items) (context_open ∷ refused request ∷ context_ended ∷ [])
  delivers :
      {item : Item} {items : List Item} {calls : List Call} (request : PublishRequest)
      → publish_request sha item ≡ ok request
      → Drains sha items calls
      → Drains sha
          (item ∷ items)
          (context_open ∷ published request ∷ marked item.id item.lease_token ∷ calls)
  goes_on :
      {item : Item} {items : List Item} {calls : List Call} (request : PublishRequest)
      → publish_request sha item ≡ ok request
      → Drains sha items calls
      → Drains sha (item ∷ items) (
          context_open
          ∷ published request
          ∷ mark_failed item.id item.lease_token
          ∷ context_open
          ∷ calls)
  breaks_off :
      {item : Item} {items : List Item} (request : PublishRequest)
      → publish_request sha item ≡ ok request
      → Drains sha (item ∷ items) (
          context_open
          ∷ published request
          ∷ mark_failed item.id item.lease_token
          ∷ context_ended
          ∷ [])
