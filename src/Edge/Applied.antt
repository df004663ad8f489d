-- ===== src/Edge/Applied.antt =====
-- The outcomes of applyVerified of internal/sspedge/store.go, each with what it writes.
use snagline.Prelude.{
  ℕ, suc, String, ◌≡◌, ◌≤◌, refl, inl, inr, Bool, true, false, not, ◌&&◌, Option, none, some, List,
  ◌∷◌, arith, eqb, leb, find, update_where, Bytes, Option-cases, Bool-cases, subst, sym,
}
use snagline.Tx.{ok, Result-cases, ◌>>◌, pure}
use snagline.Edge.Vault.{Aead}
use snagline.Edge.Tables.{
  Verdict, ApplyOutcome, apply_duplicate, apply_reconciliation_required, apply_identity_conflict,
  EdgeIdentity, JournalDelivery, VerifiedProjection, StateRow, DeliveryRow, EdgeDb, identity_of,
  is_state,
}
use snagline.Edge.Cursor.{
  is_required, delivery_state_row, current_state, advanced_row, first_row,
  require_reconciliation_tx, halt_and_commit_tx, insert_state, update_state,
  advance_delivery_state_tx,
}
use snagline.Edge.Apply.{
  Judged, find_delivery, has_state, differs, delivery_row, judge, insert_delivery, apply_recorded,
  record_delivery, apply_next, apply_delivery, apply_verified, refuses,
}
use snagline.Edge.Effects.{SameLog, judge-SameLog}

-- The rows of the cursor after a generation has moved through `seq`.
unfoldable pub advanced_states : EdgeIdentity → ℕ → ℕ → List StateRow → List StateRow
advanced_states id seq now states = elim (find (is_state id) states) [
  | none ↦ first_row id seq now ∷ states
  | some _ ↦ update_where (is_state id) (advanced_row seq now) states
]

advance-advanced_states :
    (id : EdgeIdentity) (seq now : ℕ) (db db' : EdgeDb) (u : Unit {0})
    → advance_delivery_state_tx id (has_state (delivery_state_row id db)) seq now db ≡ ok (u, db')
    → db' ≡ record db { states = advanced_states id seq now db.states }
unfolding advance_delivery_state_tx insert_state update_state delivery_state_row advanced_states
advance-advanced_states id seq now db db' u h = elim (Option-cases (find (is_state id) db.states)) [
  | inl e ↦ ground arith
  | inr (row, e) ↦ ground arith
]

unfoldable pub last_seq : EdgeIdentity → EdgeDb → ℕ
unfolding current_state
last_seq id db = (current_state id db).last_contiguous_seq

same-find_delivery :
    (d : JournalDelivery) (db db₁ : EdgeDb)
    → SameLog db db₁
    → find_delivery (identity_of d) d.delivery_seq db₁
      ≡ find_delivery (identity_of d) d.delivery_seq db
unfolding find_delivery
same-find_delivery d db db₁ same = rw same.deliveries refl

same-delivery_state_row :
    (id : EdgeIdentity) (db db₁ : EdgeDb)
    → db.states ≡ db₁.states
    → delivery_state_row id db₁ ≡ delivery_state_row id db
unfolding delivery_state_row
same-delivery_state_row id db db₁ e = rw e refl

-- The halting outcomes: they write the cursor's row and nothing else.
pub data IsHalt (sha : Bytes → String) (d : JournalDelivery) (db : EdgeDb)
    : ApplyOutcome → String → Type 0 where
  conflict :
      (row : DeliveryRow)
      → find_delivery (identity_of d) d.delivery_seq db ≡ some row
      → differs sha d row ≡ true
      → IsHalt sha d db apply_identity_conflict "delivery_identity_conflict"
  missing :
      d.delivery_seq ≤ last_seq (identity_of d) db
      → find_delivery (identity_of d) d.delivery_seq db ≡ none
      → IsHalt sha d db apply_reconciliation_required "missing_committed_delivery"
  gap :
      suc (last_seq (identity_of d) db) ≤ d.delivery_seq
      → (eqb d.delivery_seq (suc (last_seq (identity_of d) db))
          && not (is_required (current_state (identity_of d) db).mode))
        ≡ false
      → IsHalt sha d db apply_reconciliation_required "delivery_sequence_gap"

-- The judgement of a new delivery, by some store.
pub data Judges (d : JournalDelivery) (now : ℕ) (db mid : EdgeDb) (j : Judged) : Type 0 where
  judges :
      (sha : Bytes → String) (aead : Aead) (tenant : String) (payload : String → String → Bytes)
      (nonce : Bytes) (v : Verdict) (reason : String) (p : Option VerifiedProjection)
      → judge sha aead tenant payload nonce d v reason p now db ≡ ok (j, mid)
      → Judges d now db mid j

-- The identities and the projected facts are what they were.
pub record SameFacts (db db' : EdgeDb) : Type 0 where
  pub identities : db'.identities ≡ db.identities
  pub cases : db'.cases ≡ db.cases
  pub advice : db'.advice ≡ db.advice

module _ (sha : Bytes → String) (d : JournalDelivery) (now : ℕ) (db db' : EdgeDb)
    (o : ApplyOutcome) where
  pub data Applied : Type 0 where
    -- The recorded delivery came again.
    replayed :
        (row : DeliveryRow)
        → find_delivery (identity_of d) d.delivery_seq db ≡ some row
        → differs sha d row ≡ false
        → db' ≡ db
        → o ≡ apply_duplicate
        → Applied
    -- A recorded delivery beyond the cursor moves it; only a reconciliation does this.
    caught_up :
        (row : DeliveryRow)
        → find_delivery (identity_of d) d.delivery_seq db ≡ some row
        → d.delivery_seq ≡ suc (last_seq (identity_of d) db)
        → db' ≡ record db { states = advanced_states (identity_of d) d.delivery_seq now db.states }
        → o ≡ apply_duplicate
        → Applied
    halted :
        (reason : String)
        → IsHalt sha d db o reason
        → require_reconciliation_tx (identity_of d) d.delivery_seq reason now db ≡ ok (tt, db')
        → Applied
    -- A new row at the next sequence.
    recorded :
        (j : Judged) (p : Option VerifiedProjection) (mid : EdgeDb)
        → Judges d now db mid j
        → SameFacts mid db'
        → db'.front_outbox ≡ mid.front_outbox
        → d.delivery_seq ≡ suc (last_seq (identity_of d) db)
        → find_delivery (identity_of d) d.delivery_seq db ≡ none
        → db'.deliveries ≡ delivery_row sha d j.1 j.2 p now ∷ db.deliveries
        → db'.states ≡ advanced_states (identity_of d) d.delivery_seq now db.states
        → o ≡ j.0
        → Applied

  halt-Applied :
      (o' : ApplyOutcome) (reason : String)
      → IsHalt sha d db o' reason
      → halt_and_commit_tx (identity_of d) d.delivery_seq reason now o' db ≡ ok (o, db')
      → Applied
  unfolding halt_and_commit_tx require_reconciliation_tx
  halt-Applied o' reason is_halt h =
      let e : o' ≡ o = ground arith in
      halted reason (subst (λ x. IsHalt sha d db x reason) e is_halt) (ground arith)

  apply_recorded-Applied :
      d.delivery_seq ≤ last_seq (identity_of d) db
      → apply_recorded sha d now db ≡ ok (o, db')
      → Applied
  unfolding apply_recorded
  apply_recorded-Applied below h =
      elim (Option-cases (find_delivery (identity_of d) d.delivery_seq db)) [
        | inl e ↦
            halt-Applied apply_reconciliation_required "missing_committed_delivery"
              (missing below e) (ground arith)
        | inr (row, e) ↦ (elim (Bool-cases (differs sha d row)) [
          | inl f ↦
              halt-Applied apply_identity_conflict "delivery_identity_conflict" (conflict row e f)
                (ground arith)
          | inr f ↦ replayed row e f (ground arith) (ground arith)
        ])
      ]

  module _ (aead : Aead) (tenant : String) (payload : String → String → Bytes) (nonce : Bytes) where
    record_delivery-Applied :
        (v : Verdict) (reason : String) (p : Option VerifiedProjection)
        → d.delivery_seq ≡ suc (last_seq (identity_of d) db)
        → find_delivery (identity_of d) d.delivery_seq db ≡ none
        → record_delivery sha aead tenant payload nonce d v reason p now db ≡ ok (o, db')
        → Applied
    unfolding record_delivery insert_delivery
    record_delivery-Applied v reason p next fresh h =
        elim (Result-cases (judge sha aead tenant payload nonce d v reason p now db)) [
          | inr (e, i) ↦ absurd (ground arith)
          | inl ((j, db₁), i) ↦
              let same = judge-SameLog sha aead tenant payload nonce d v reason p now db db₁ j i in
              let id = identity_of d in
              let db₂ : EdgeDb = record db₁ {
                deliveries = delivery_row sha d j.1 j.2 p now ∷ db₁.deliveries;
              } in
              let exists = has_state (delivery_state_row id db) in
              (elim (Result-cases (advance_delivery_state_tx id exists d.delivery_seq now db₂)) [
                | inr (e, k) ↦ absurd (ground (arith, same-find_delivery d db db₁ same))
                | inl ((u, db₃), k) ↦
                    let advanced =
                      advance-advanced_states id d.delivery_seq now db₂ db₃ u
                        (rw (same-delivery_state_row id db db₂ (sym same.states)) k) in
                    let seen = same-find_delivery d db db₁ same in
                    recorded j p db₁ (judges sha aead tenant payload nonce v reason p i)
                      (record {
                        identities = ground (arith, seen, advanced);
                        cases = ground (arith, seen, advanced);
                        advice = ground (arith, seen, advanced);
                      })
                      (ground (arith, seen, advanced)) next fresh
                      (ground (arith, same, same-find_delivery d db db₁ same, advanced))
                      (ground (arith, same, same-find_delivery d db db₁ same, advanced))
                      (ground (arith, same-find_delivery d db db₁ same))
              ])
        ]

    catch_up-Applied :
        (row : DeliveryRow)
        → find_delivery (identity_of d) d.delivery_seq db ≡ some row
        → d.delivery_seq ≡ suc (last_seq (identity_of d) db)
        → (advance_delivery_state_tx
                (identity_of d)
                (has_state (delivery_state_row (identity_of d) db))
                d.delivery_seq
                now
              >> pure apply_duplicate)
            db
          ≡ ok (o, db')
        → Applied
    catch_up-Applied row e next h =
        let id = identity_of d in
        let exists = has_state (delivery_state_row id db) in
        elim (Result-cases (advance_delivery_state_tx id exists d.delivery_seq now db)) [
          | inr (x, k) ↦ absurd (ground arith)
          | inl ((u, db₁), k) ↦
              let advanced = advance-advanced_states id d.delivery_seq now db db₁ u k in
              caught_up row e next (ground (arith, advanced)) (ground arith)
        ]

    apply_next-Applied :
        (reconciling : Bool) (v : Verdict) (reason : String) (p : Option VerifiedProjection)
        → d.delivery_seq ≡ suc (last_seq (identity_of d) db)
        → apply_next sha aead tenant payload nonce reconciling d v reason p now db ≡ ok (o, db')
        → Applied
    unfolding apply_next
    apply_next-Applied reconciling v reason p next h =
        elim (Option-cases (find_delivery (identity_of d) d.delivery_seq db)) [
          | inl e ↦ record_delivery-Applied v reason p next e (ground arith)
          | inr (row, e) ↦ (elim (Bool-cases (differs sha d row)) [
            | inl f ↦
                halt-Applied apply_identity_conflict "delivery_identity_conflict" (conflict row e f)
                  (ground arith)
            | inr f ↦ (elim (Bool-cases reconciling) [
              | inr g ↦ replayed row e f (ground arith) (ground arith)
              | inl g ↦ catch_up-Applied row e next (ground arith)
            ])
          ])
        ]

    apply_delivery-Applied :
        (reconciling : Bool) (v : Verdict) (reason : String) (p : Option VerifiedProjection)
        → apply_delivery sha aead tenant payload nonce reconciling d v reason p now db ≡ ok (o, db')
        → Applied
    unfolding apply_delivery last_seq is_required
    apply_delivery-Applied reconciling v reason p h =
        let state = current_state (identity_of d) db in
        elim (Bool-cases (leb d.delivery_seq state.last_contiguous_seq)) [
          | inl e ↦ apply_recorded-Applied (ground arith) (ground arith)
          | inr e ↦
              (elim (Bool-cases (
                eqb d.delivery_seq (suc state.last_contiguous_seq)
                && not (refuses sha aead tenant payload nonce state.mode reconciling))) [
                  | inl f ↦ apply_next-Applied reconciling v reason p (ground arith) (ground arith)
                  | inr f ↦
                      halt-Applied apply_reconciliation_required "delivery_sequence_gap"
                        (gap (ground arith) (ground arith)) (ground arith)
                ])
        ]

    -- Every call that returns an outcome has one of the effects.
    pub apply_verified-Applied :
        (reconciling : Bool) (v : Verdict) (reason : String) (p : Option VerifiedProjection)
        → apply_verified sha aead tenant payload nonce reconciling d v reason p now db ≡ ok (o, db')
        → Applied
    unfolding apply_verified
    apply_verified-Applied reconciling v reason p h =
        apply_delivery-Applied reconciling v reason p (ground arith)
