-- ===== src/Edge/TurnLaws.antt =====
-- Completed turns over later operations: internal/sspedge/dispatcher_turn_store.go.
use snagline.Prelude.{
  find-update_where, ℕ, ◌+◌, ◌≤◌, ◌<◌, String, ◌≡◌, refl, inl, inr, Bool, true, false, not, ◌&&◌,
  none, some, List, [], ◌∷◌, arith, eq_iff, ltb, find, select, update_where, Bytes, Bool-cases,
  Option-cases,
}
use snagline.Tx.{ok}
use snagline.Edge.Vault.{Aead, seal}
use snagline.Edge.Turns.{
  TurnRow, TurnBinding, Turns, is_turn, find_turn, prune, is_pending, claimed_turn, completed_turn,
  released_turn, owns, bind_pending, bind_completed, bind_found, bind_pruned, bind_dispatcher_turn,
  complete_found, complete_pending, complete_again, complete_dispatcher_turn, update_found,
  update_turn_claim, result_aad, new_turn,
}

pub find-select :
    {A : Type 0} (p q : A → Bool) (xs : List A) (x : A)
    → find p xs ≡ some x
    → q x ≡ true
    → find p (select q xs) ≡ some x
unfolding find select
find-select p q [] x h k = absurd (ground arith)
find-select p q (y ∷ xs) x h k = ground (arith, find-select p q xs x)

module _ (aead : Aead) (tenant : String) where
  -- One operation; `limit` bounds the clock of a binding, which prunes.
  pub data TurnStep (limit : ℕ) (rows rows' : Turns) : Type 0 where
    bound_turn :
        (event_id : String) (request : Bytes) (now retention claim_ttl capacity : ℕ) (nonce : Bytes)
        (token : String) (b : TurnBinding)
        → now < limit
        → bind_dispatcher_turn aead tenant event_id request now retention claim_ttl capacity nonce
            token rows
          ≡ ok (b, rows')
        → TurnStep limit rows rows'
    completed_a_turn :
        (event_id : String) (request result : Bytes) (at : ℕ) (claim : String) (nonce : Bytes)
        → complete_dispatcher_turn aead tenant event_id request result at claim nonce rows
          ≡ ok (tt, rows')
        → TurnStep limit rows rows'
    updated_claim :
        (abandon : Bool) (event_id : String) (request : Bytes) (claim : String)
        → update_turn_claim aead tenant abandon event_id request claim rows ≡ ok (tt, rows')
        → TurnStep limit rows rows'

  pub data TurnsBefore (limit : ℕ) (rows : Turns) : Turns → Type 0 where
    no_turns : TurnsBefore limit rows rows
    more_turns :
        {mid rows' : Turns}
        → TurnsBefore limit rows mid
        → TurnStep limit mid rows'
        → TurnsBefore limit rows rows'

  module _ (e : String) (row : TurnRow) where
    -- The row is found, and completed.
    pub record Stands (rows : Turns) : Type 0 where
      pub found : find_turn e rows ≡ some row
      pub done : is_pending row.state ≡ false

    update-Stands :
        (q : TurnRow → Bool) (change : TurnRow → TurnRow) (rows : Turns)
        → ((r : TurnRow) → is_turn e (change r) ≡ is_turn e r)
        → q row ≡ false
        → Stands rows
        → Stands (update_where q change rows)
    unfolding find_turn
    update-Stands q change rows keeps other s = record {
      found = ground (arith, find-update_where (is_turn e) q change keeps rows, s);
      done = s.done;
    }

    select-Stands :
        (q : TurnRow → Bool) (rows : Turns) → q row ≡ true → Stands rows → Stands (select q rows)
    unfolding find_turn
    select-Stands q rows kept s = record {
      found = find-select (is_turn e) q rows row s.found kept;
      done = s.done;
    }

    insert-Stands :
        (new : TurnRow) (event_id : String) (rows : Turns)
        → new.event_id ≡ event_id
        → find_turn event_id rows ≡ none
        → Stands rows
        → Stands (new ∷ rows)
    unfolding find_turn find
    insert-Stands new event_id rows own fresh s = elim (Bool-cases (is_turn e new)) [
      | inl hit ↦ absurd (ground (arith, s, eq_iff new.event_id e))
      | inr other ↦ record { found = ground (arith, s); done = s.done }
    ]

    bind_found-Stands :
        (event_id : String) (request : Bytes) (now claim_ttl : ℕ) (token : String) (r : TurnRow)
        (rows rows' : Turns) (b : TurnBinding)
        → bind_found aead tenant event_id request now claim_ttl token r rows ≡ ok (b, rows')
        → Stands rows
        → Stands rows'
    unfolding bind_found bind_pending bind_completed
    bind_found-Stands event_id request now claim_ttl token r rows rows' b h s =
        let updated =
          update-Stands (λ (x : TurnRow). is_turn event_id x && is_pending x.state)
            (claimed_turn token (now + claim_ttl)) rows (λ x. unfold claimed_turn in refl)
            (ground (arith, s)) s in
        record { found = ground (arith, updated, s); done = s.done }

    bind_pruned-Stands :
        (event_id : String) (request : Bytes) (now retention claim_ttl capacity : ℕ) (nonce : Bytes)
        (token : String) (rows rows' : Turns) (b : TurnBinding)
        → bind_pruned aead tenant event_id request now retention claim_ttl capacity nonce token rows
          ≡ ok (b, rows')
        → Stands rows
        → Stands rows'
    unfolding bind_pruned
    bind_pruned-Stands event_id request now retention claim_ttl capacity nonce token rows rows' b h
          s =
        elim (Option-cases (find_turn event_id rows)) [
          | inr (r, f) ↦
              bind_found-Stands event_id request now claim_ttl token r rows rows' b (ground arith) s
          | inl f ↦
              let new = new_turn aead tenant event_id nonce request now retention claim_ttl token in
              let inserted = insert-Stands new event_id rows refl f s in
              record { found = ground (arith, inserted); done = s.done }
        ]

    complete_found-Stands :
        (event_id : String) (request result : Bytes) (at : ℕ) (claim : String) (nonce : Bytes)
        (r : TurnRow) (rows rows' : Turns)
        → complete_found aead tenant event_id request result at claim nonce r rows ≡ ok (tt, rows')
        → Stands rows
        → Stands rows'
    unfolding complete_found complete_pending complete_again owns
    complete_found-Stands event_id request result at claim nonce r rows rows' h s =
        let cipher = seal aead tenant nonce result_aad event_id result in
        let updated =
          update-Stands (owns aead tenant event_id claim) (completed_turn aead tenant cipher at)
            rows (λ x. unfold completed_turn in refl) (ground (arith, s)) s in
        record { found = ground (arith, updated, s); done = s.done }

    update_found-Stands :
        (abandon : Bool) (event_id : String) (request : Bytes) (claim : String) (r : TurnRow)
        (rows rows' : Turns)
        → update_found aead tenant abandon event_id request claim r rows ≡ ok (tt, rows')
        → Stands rows
        → Stands rows'
    unfolding update_found owns
    update_found-Stands abandon event_id request claim r rows rows' h s =
        let updated =
          update-Stands (owns aead tenant event_id claim) (released_turn aead tenant) rows
            (λ x. unfold released_turn in refl) (ground (arith, s)) s in
        let selected =
          select-Stands (λ (x : TurnRow). not (owns aead tenant event_id claim x)) rows
            (ground (arith, s)) s in
        record { found = ground (arith, updated, selected); done = s.done }

    step-Stands :
        (limit : ℕ) (rows rows' : Turns)
        → limit ≤ row.expires
        → TurnStep limit rows rows'
        → Stands rows
        → Stands rows'
    step-Stands limit rows rows' l
          (bound_turn event_id request now retention claim_ttl capacity nonce token b early h) s =
        bind_pruned-Stands event_id request now retention claim_ttl capacity nonce token
          (prune now rows) rows' b (unfold bind_dispatcher_turn in ground arith)
          (unfold prune in select-Stands (λ (r : TurnRow). ltb now r.expires) rows (ground arith) s)
    step-Stands limit rows rows' l (completed_a_turn event_id request result at claim nonce h) s =
        elim (Option-cases (find_turn event_id rows)) [
          | inl f ↦ absurd (unfold complete_dispatcher_turn in ground arith)
          | inr (r, f) ↦
              complete_found-Stands event_id request result at claim nonce r rows rows'
                (unfold complete_dispatcher_turn in ground arith) s
        ]
    step-Stands limit rows rows' l (updated_claim abandon event_id request claim h) s =
        elim (Option-cases (find_turn event_id rows)) [
          | inl f ↦ absurd (unfold update_turn_claim in ground arith)
          | inr (r, f) ↦
              update_found-Stands abandon event_id request claim r rows rows'
                (unfold update_turn_claim in ground arith) s
        ]

    pub later-Stands :
        (limit : ℕ) (rows rows' : Turns)
        → limit ≤ row.expires
        → TurnsBefore limit rows rows'
        → Stands rows
        → Stands rows'
    later-Stands limit rows _ l no_turns s = s
    later-Stands limit rows _ l (more_turns {mid} {rows'} t step) s =
        step-Stands limit mid rows' l step (later-Stands limit rows mid l t s)
