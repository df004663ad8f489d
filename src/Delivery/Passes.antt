-- ===== src/Delivery/Passes.antt =====
-- What one pass of the worker asks of its source and its publisher, and in which order.
use snagline.Prelude.{
  String, ◌≡◌, refl, inl, inr, true, false, Option, none, some, List, [], ◌∷◌, ◌++◌, arith, Bytes,
  Option-cases, Bool-cases, Bool, if◌then◌else◌, append_assoc, append-nil, sym, ◌∙◌, ap, subst,
}
use snagline.Tx.{Result, ok, err}
use snagline.Authority.Outbox.{Item, publish_failed, malformed_item}
use snagline.Delivery.Stream.{PublishRequest}
use snagline.Delivery.Request.{ItemError, publish_request}
use snagline.Delivery.Worker.{
  Env, Settings, WorkerError, release_with, run_item, run_items, dispatch_item, noted_release,
  after_refusal, after_mark, after_mark_error, after_publish,
}
use snagline.Delivery.Calls.{
  Call, context_open, context_ended, published, refused, marked, mark_failed, released, Traced,
  answered, asked, mark_answered, traced, Drains, finished, stops, drops, retries, gives_up,
  delivers, goes_on, breaks_off,
}

-- How the calls of one item, behind an open context, go on with those of the items behind it.
abbrev Continues : (Bytes → String) → Item → Bool → List Call → Type 0
Continues sha item ends calls =
    (items : List Item) (rest : List Call)
    → Drains sha items rest
    → Drains sha (item ∷ items) (context_open ∷ calls ++ (if ends then [] else rest))

stop-Drains :
    (sha : Bytes → String) (item : Item) (items : List Item) (ends : Bool) (calls : List Call)
    → Continues sha item ends calls
    → ends ≡ true
    → Drains sha (item ∷ items) (context_open ∷ calls)
stop-Drains sha item items true calls go e =
    subst (Drains sha (item ∷ items)) (append-nil (context_open ∷ calls))
      (go items (context_ended ∷ []) stops)
stop-Drains sha item items false calls go e = absurd (ground arith)

go-Drains :
    (sha : Bytes → String) (item : Item) (items : List Item) (ends : Bool) (calls rest : List Call)
    → Continues sha item ends calls
    → ends ≡ false
    → Drains sha items rest
    → Drains sha (item ∷ items) (context_open ∷ calls ++ rest)
go-Drains sha item items true calls rest go e d = absurd (ground arith)
go-Drains sha item items false calls rest go e d = go items rest d

module _ {W E : Type 0} (sha : Bytes → String) (env : Env W E) (settings : Settings) where
  abbrev Ran : Item → List Call → List (WorkerError E) × Bool × Traced W → Type 0
  Ran item t end = (calls : List Call) × (end.2.1 ≡ t ++ calls) × Continues sha item end.1 calls

  refusal-Ran :
      (item : Item) (request : PublishRequest) (e : E) (ended : Option E) (w : W) (t : List Call)
      → publish_request sha item ≡ ok request
      → Ran item t (
          after_refusal sha
            (traced env)
            settings
            item
            e
            (ended, (w, (t ++ (refused request ∷ [])) ++ (asked ended ∷ []))))
  unfolding after_refusal noted_release release_with traced
  refusal-Ran item request e (some c) w t h =
      (refused request ∷ context_ended ∷ [], append_assoc t _ _, λ items rest d. gives_up request h)
  refusal-Ran item request e none w t h = (
    refused request ∷ context_open ∷ released item.id item.lease_token publish_failed ∷ [],
    append_assoc (t ++ (refused request ∷ [])) _ _ ∙ append_assoc t _ _,
    λ items rest d. retries request h d,
  )

  mark_error-Ran :
      (item : Item) (request : PublishRequest) (e : E) (ended : Option E) (w : W) (t : List Call)
      → publish_request sha item ≡ ok request
      → Ran item t (
          after_mark_error sha (traced env) settings item e (
            ended,
            (
              w,
              ((t ++ (published request ∷ [])) ++ (mark_failed item.id item.lease_token ∷ []))
                  ++ (asked ended ∷ []),
            ),
          ))
  unfolding after_mark_error
  mark_error-Ran item request e (some c) w t h = (
    published request ∷ mark_failed item.id item.lease_token ∷ context_ended ∷ [],
    append_assoc (t ++ (published request ∷ [])) _ _ ∙ append_assoc t _ _,
    λ items rest d. breaks_off request h,
  )
  mark_error-Ran item request e none w t h = (
    published request ∷ mark_failed item.id item.lease_token ∷ context_open ∷ [],
    append_assoc (t ++ (published request ∷ [])) _ _ ∙ append_assoc t _ _,
    λ items rest d. goes_on request h d,
  )

  mark-Ran :
      (item : Item) (request : PublishRequest) (failed : Option E) (w : W) (t : List Call)
      → publish_request sha item ≡ ok request
      → Ran item t (
          after_mark sha (traced env) settings item (
            failed,
            (
              w,
              (t ++ (published request ∷ []))
                  ++ (mark_answered failed item.id item.lease_token ∷ []),
            ),
          ))
  unfolding after_mark traced
  mark-Ran item request none w t h = (
    published request ∷ marked item.id item.lease_token ∷ [],
    append_assoc t _ _,
    λ items rest d. delivers request h d,
  )
  mark-Ran item request (some e) w t h =
      mark_error-Ran item request e (env.context_error w).0 (env.context_error w).1 t h

  publish-Ran :
      (item : Item) (request : PublishRequest) (failed : Option E) (w : W) (t : List Call)
      → publish_request sha item ≡ ok request
      → Ran item t (
          after_publish sha
            (traced env)
            settings
            item
            (failed, (w, t ++ (answered failed request ∷ []))))
  unfolding after_publish traced
  publish-Ran item request none w t h =
      mark-Ran item request (env.mark_item item.id item.lease_token w).0
        (env.mark_item item.id item.lease_token w).1 t h
  publish-Ran item request (some e) w t h =
      refusal-Ran item request e (env.context_error w).0 (env.context_error w).1 t h

  dispatch-Ran :
      (item : Item) (r : Result ItemError PublishRequest) (w : W) (t : List Call)
      → publish_request sha item ≡ r
      → Ran item t (dispatch_item sha (traced env) settings item r (w, t))
  unfolding dispatch_item noted_release release_with traced
  dispatch-Ran item (err e) w t h =
      (released item.id item.lease_token malformed_item ∷ [], refl, λ items rest d. drops e h d)
  dispatch-Ran item (ok request) w t h =
      publish-Ran item request (env.publish request w).0 (env.publish request w).1 t h

  -- What the loop adds to a trace.
  abbrev Adds : List Item → List Call → Traced W → Type 0
  Adds items t end = (calls : List Call) × (end.1 ≡ t ++ calls) × Drains sha items calls

  run_item-Ran :
      (item : Item) (w : W) (t : List Call)
      → Ran item t (run_item sha (traced env) settings item (w, t))
  unfolding run_item
  run_item-Ran item w t = dispatch-Ran item (publish_request sha item) w t refl

  pub run_items-Drains :
      (items : List Item) (w : W) (t : List Call)
      → Adds items t (run_items sha (traced env) settings items (w, t)).1
  unfolding run_items traced
  run_items-Drains [] w t = elim (Option-cases (env.context_error w).0) [
    | inr (c, e) ↦ rw (e, run_items) (context_ended ∷ [], refl, stops)
    | inl e ↦ rw (e, run_items) (context_open ∷ [], refl, finished)
  ]
  run_items-Drains (item ∷ items) w t =
      let said = asked (env.context_error w).0 in
      let t' = t ++ (said ∷ []) in
      let ran = run_item sha (traced env) settings item ((env.context_error w).1, t') in
      let (calls, trace, go) = run_item-Ran item (env.context_error w).1 t' in
      let (more, trace', drains) = run_items-Drains items ran.2.0 ran.2.1 in
      elim (Option-cases (env.context_error w).0) [
        | inr (c, e) ↦
            rw (e, run_items) (context_ended ∷ [], ap (λ x. t ++ (asked x ∷ [])) e, stops)
        | inl e ↦
            rw (e, run_items)
              (elim (Bool-cases ran.1) [
                | inl stop ↦
                    rw (stop, run_items)
                      (
                        context_open ∷ calls,
                        trace
                            ∙ append_assoc t (said ∷ []) calls
                            ∙ ap (λ c. t ++ (asked c ∷ calls)) e,
                        stop-Drains sha item items ran.1 calls go stop,
                      )
                | inr on ↦
                    rw (on, run_items)
                      (
                        context_open ∷ calls ++ more,
                        trace'
                            ∙ ap (λ s. s ++ more) trace
                            ∙ append_assoc t' calls more
                            ∙ append_assoc t (said ∷ []) (calls ++ more)
                            ∙ ap (λ c. t ++ (asked c ∷ calls ++ more)) e,
                        go-Drains sha item items ran.1 calls more go on drains,
                      )
              ])
      ]

-- In one pass over claimed items, whatever its source, publisher, clock and context answer, the
-- calls are those of `Drains`: the items are taken in order, each once, and the pass stops before
-- the last one only where the context says that it has ended; an item that makes no valid request
-- is released as malformed and never published; one whose publication fails is released as failed
-- if the context is still open; and an item is marked as published if and only if its own request
-- has been acknowledged just before.
pub run_items-protocol :
    {W E : Type 0} (sha : Bytes → String) (env : Env W E) (settings : Settings) (items : List Item)
    (w : W)
    → Drains sha items (run_items sha (traced env) settings items (w, [])).1.1
run_items-protocol sha env settings items w =
    let (calls, trace, drains) = run_items-Drains sha env settings items w [] in
    subst (Drains sha items) (sym trace) drains
