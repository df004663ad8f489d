-- ===== src/Edge/TurnDone.antt =====
-- The canonical result of a turn: internal/sspedge/dispatcher_turn_store.go.
use snagline.Prelude.{
  find-update_where, ℕ, ◌<◌, String, ◌≡◌, refl, subst, sym, inl, inr, true, false, Option, none,
  some, arith, ◌==◌, eq_iff, eq_refl, ltb, length, find-holds, Bytes,
}
use snagline.Tx.{ok, Result-cases}
use snagline.Edge.Vault.{Aead, IsAead, seal}
use snagline.Edge.Validate.{valid_routing_token}
use snagline.Edge.Sealed.{open_sealed-seal, length-seal}
use snagline.Edge.Turns.{
  TurnRow, pending, Turns, is_turn, find_turn, prune, within, max_result_bytes, claimed_by,
  text_or_empty, completed_turn, owns, same_request, bind_completed, bind_found, bind_pruned,
  bind_dispatcher_turn, valid_binding, valid_turn_id, complete_found, complete_pending,
  complete_dispatcher_turn, valid_completion, completed_binding, result_aad,
}
use snagline.Edge.TurnLaws.{Stands, TurnsBefore, later-Stands, find-select}

blank_id : valid_routing_token "" ≡ false
unfolding valid_routing_token
blank_id = refl

-- The holder that a valid claim names is the row's.
claimed :
    (claim : String) (token : Option String)
    → valid_turn_id claim ≡ true
    → (text_or_empty token == claim) ≡ true
    → claimed_by claim token ≡ true
unfolding claimed_by
claimed claim none v h = absurd (
    ground
      (arith, subst (λ c. valid_routing_token c ≡ true) (sym ((eq_iff "" claim).0 h)) v, blank_id))
claimed claim (some token) v h = h

module _ (aead : Aead) (tenant : String) (sound : IsAead aead) (e : String) (request result : Bytes)
    (claim : String) (nonce : Bytes) (size : length nonce ≡ aead.nonce_size) (row : TurnRow) where
  done_row : ℕ → TurnRow
  done_row at = completed_turn aead tenant (seal aead tenant nonce result_aad e result) at row

  -- A pending turn that is completed stands as completed.
  completed-Stands :
      (at : ℕ) (rows rows' : Turns)
      → find_turn e rows ≡ some row
      → row.state ≡ pending
      → complete_dispatcher_turn aead tenant e request result at claim nonce rows ≡ ok (tt, rows')
      → Stands aead tenant e (done_row at) rows'
  unfolding complete_dispatcher_turn complete_found complete_pending valid_completion find_turn owns
      done_row completed_turn
  completed-Stands at rows rows' f p h =
      let q = owns aead tenant e claim in
      let cipher = seal aead tenant nonce result_aad e result in
      record {
        found = ground (
          arith,
          find-holds (is_turn e) rows row f,
          claimed claim row.claim_token,
          find-update_where (is_turn e) q (completed_turn aead tenant cipher at) (λ x. refl) rows,
        );
        done = refl;
      }

  -- A completion has compared the request.
  completed-same_request :
      (at : ℕ) (rows rows' : Turns)
      → find_turn e rows ≡ some row
      → complete_dispatcher_turn aead tenant e request result at claim nonce rows ≡ ok (tt, rows')
      → same_request aead tenant e request (done_row at) ≡ ok tt
  unfolding complete_dispatcher_turn complete_found
  completed-same_request at rows rows' f h =
      let same : same_request aead tenant e request (done_row at)
          ≡ same_request aead tenant e request row =
        unfold same_request done_row completed_turn in refl in
      elim (Result-cases (same_request aead tenant e request row)) [
        | inl (_, k) ↦ ground (arith, same)
        | inr (x, k) ↦ absurd (ground arith)
      ]

  completed-within :
      (at : ℕ) (rows rows' : Turns)
      → complete_dispatcher_turn aead tenant e request result at claim nonce rows ≡ ok (tt, rows')
      → within (length result) max_result_bytes ≡ true
  unfolding complete_dispatcher_turn valid_completion
  completed-within at rows rows' h = ground arith

  -- The stored result is read back.
  done-bind_completed :
      (at : ℕ) (rows : Turns)
      → within (length result) max_result_bytes ≡ true
      → bind_completed aead tenant e (done_row at) rows ≡ ok (completed_binding result, rows)
  unfolding bind_completed done_row completed_turn
  done-bind_completed at rows w = ground (
    arith,
    open_sealed-seal aead tenant nonce result_aad e result sound size,
    length-seal aead tenant nonce result_aad e result sound size,
    eq_refl "",
  )

  -- From the completion of a pending turn on, and until its retention ends, every valid binding of
  -- the same event and request returns the completed result, whatever turns are bound before that
  -- end, completed, released or abandoned in between, when the AEAD opens what it seals and the
  -- nonce of the completion has its size.
  pub complete-then-bind :
      (at now retention claim_ttl capacity : ℕ) (fresh : Bytes) (token : String)
      (rows rows₁ rows₂ : Turns)
      → find_turn e rows ≡ some row
      → row.state ≡ pending
      → complete_dispatcher_turn aead tenant e request result at claim nonce rows ≡ ok (tt, rows₁)
      → TurnsBefore aead tenant row.expires rows₁ rows₂
      → valid_binding aead tenant e request now retention claim_ttl capacity ≡ true
      → now < row.expires
      → bind_dispatcher_turn aead tenant e request now retention claim_ttl capacity fresh token
          rows₂
        ≡ ok (completed_binding result, prune now rows₂)
  unfolding bind_dispatcher_turn bind_pruned bind_found prune bind_completed find_turn
  complete-then-bind at now retention claim_ttl capacity fresh token rows rows₁ rows₂ f p h l v t =
      let stands =
        later-Stands aead tenant e (done_row at) row.expires rows₁ rows₂
          (unfold done_row completed_turn in omega arith) l
          (completed-Stands at rows rows₁ f p h) in
      let left =
        find-select (is_turn e) (λ (r : TurnRow). ltb now r.expires) rows₂ (done_row at)
          stands.found (unfold done_row completed_turn in ground arith) in
      ground (
        arith,
        left,
        stands.done,
        completed-same_request at rows rows₁ f h,
        done-bind_completed at (prune now rows₂) (completed-within at rows rows₁ h),
      )
