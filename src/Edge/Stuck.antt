-- ===== src/Edge/Stuck.antt =====
-- The halt of a quarantined delivery: Handle and Reconcile of internal/sspedge/consumer.go.
use snagline.Prelude.{
  ℕ, suc, String, ◌≡◌, refl, inl, inr, true, false, ◌&&◌, arith, eqb, Bytes, Bool-cases,
  Option-cases, any, find, subst, ◌≢◌,
}
use snagline.Tx.{Result, ok, err, Result-cases}
use snagline.Edge.Vault.{Aead}
use snagline.Edge.Tables.{
  ApplyOutcome, apply_quarantined, apply_accepted, apply_rejected, apply_duplicate,
  apply_reconciliation_required, apply_identity_conflict, active, EdgeIdentity, JournalDelivery,
  StateRow, EdgeDb, is_state, identity_of, StoreError,
}
use snagline.Edge.Cursor.{
  current_state, delivery_state_row, complete_reconciliation, completes, is_required,
  require_reconciliation,
}
use snagline.Edge.Applied.{last_seq}
use snagline.Edge.Consumer.{
  Verification, ConsumerError, ProcessOutcome, process_quarantined, Message, Run, handle,
  handle_delivery, apply, applied_run, mismatch_run, delivery_of, process_outcome, stored,
  matches_identity,
}
use snagline.Edge.CursorMoves.{CursorMove, replays, conflicts, gaps, advances}
use snagline.Edge.History.{StoreHistory}
use snagline.Edge.UniqueStates.{only-any, zero-any, find-count, StoreHistory-HasUniqueStates}
use snagline.Edge.Reconcile.{
  ReconcileBatch, is_contiguous_batch, apply_batch, ended, finish_batch, reconcile_batch, reconcile,
}
use snagline.Edge.Resumed.{apply_batch-Advanced, apply-Called, matches_identity-eq}

quarantined_only :
    (o : ApplyOutcome) → process_outcome o ≡ process_quarantined → o ≡ apply_quarantined
quarantined_only apply_quarantined h = refl
quarantined_only apply_accepted h = absurd (ground arith)
quarantined_only apply_rejected h = absurd (ground arith)
quarantined_only apply_duplicate h = absurd (ground arith)
quarantined_only apply_reconciliation_required h = absurd (ground arith)
quarantined_only apply_identity_conflict h = absurd (ground arith)

module _ (sha : Bytes → String) (aead : Aead) (tenant : String)
    (payload : String → String → Bytes) where
  -- An active generation has no reconciliation to complete.
  active-any :
      (id : EdgeIdentity) (through high : ℕ) (db : EdgeDb)
      → StoreHistory sha aead tenant payload db
      → (current_state id db).mode ≡ active
      → any (completes id through high) db.states ≡ false
  unfolding current_state delivery_state_row completes is_required
  active-any id through high db past mode =
      elim (Bool-cases (any (completes id through high) db.states)) [
        | inr e ↦ e
        | inl e ↦ (elim (Option-cases (find (is_state id) db.states)) [
          | inl f ↦
              zero-any (is_state id)
                (λ (r : StateRow).
                  is_required r.mode
                  && (eqb r.last_contiguous_seq through && eqb r.high_watermark high))
                db.states (find-count (is_state id) db.states f)
          | inr (row, f) ↦ absurd (
              ground (
                arith,
                only-any (is_state id)
                    (λ (r : StateRow).
                      is_required r.mode
                      && (eqb r.last_contiguous_seq through && eqb r.high_watermark high))
                    db.states row
                    ((StoreHistory-HasUniqueStates sha aead tenant payload db past).at id) f e,
              ))
        ])
      ]

  module _ (verify : JournalDelivery → Verification) (identity : EdgeIdentity) where
    active-ended :
        (batch : ReconcileBatch) (n now : ℕ) (db : EdgeDb)
        → StoreHistory sha aead tenant payload db
        → (current_state identity db).mode ≡ active
        → (ended sha aead tenant payload verify identity batch n now db).halted ≡ true
    unfolding ended complete_reconciliation
    active-ended batch n now db past mode =
        ground (arith, active-any identity batch.complete_through batch.high_watermark db past mode)

    active-finish_batch :
        (nonces : ℕ → Bytes) (batch : ReconcileBatch) (now : ℕ) (db : EdgeDb)
        → StoreHistory sha aead tenant payload db
        → (current_state identity db).mode ≡ active
        → is_contiguous_batch identity (suc (last_seq identity db)) batch.deliveries ≡ true
        → (r : Result ConsumerError ℕ × EdgeDb)
        → apply_batch sha aead tenant payload verify identity nonces batch.deliveries 0 now db ≡ r
        → (finish_batch sha aead tenant payload verify identity batch now r).halted ≡ true
    unfolding finish_batch
    active-finish_batch nonces batch now db past mode c (err e, db₁) h = refl
    active-finish_batch nonces batch now db past mode c (ok n, db₁) h =
        let advanced =
          apply_batch-Advanced sha aead tenant payload verify identity nonces batch.deliveries 0 now
            db db₁ n past c h in
        active-ended batch n now db₁ advanced.past (ground (arith, advanced))

    active-reconcile_batch :
        (nonces : ℕ → Bytes) (batch : ReconcileBatch) (now : ℕ) (db : EdgeDb)
        → StoreHistory sha aead tenant payload db
        → (current_state identity db).mode ≡ active
        → (reconcile_batch sha aead tenant payload verify identity nonces batch now db).halted
          ≡ true
    unfolding reconcile_batch last_seq
    active-reconcile_batch nonces batch now db past mode =
        elim (Bool-cases
          (is_contiguous_batch identity (suc (last_seq identity db)) batch.deliveries)) [
            | inl c ↦ ground (
              arith,
              active-finish_batch nonces batch now db past mode c
                  (apply_batch sha aead tenant payload verify identity nonces batch.deliveries 0 now
                    db)
                  refl,
            )
            | inr c ↦ ground arith
          ]

    -- While the store holds a generation as active, its halted consumer stays halted
    -- through Reconcile, whatever the reconciler and the verifier answer.
    pub active-reconcile :
        (fetch : EdgeIdentity → ℕ → Result ConsumerError ReconcileBatch) (nonces : ℕ → Bytes)
        (now : ℕ) (db : EdgeDb)
        → StoreHistory sha aead tenant payload db
        → (current_state identity db).mode ≡ active
        → (reconcile sha aead tenant payload verify identity fetch nonces true now db).halted ≡ true
    unfolding reconcile
    active-reconcile fetch nonces now db past mode =
        elim (Result-cases (fetch identity (current_state identity db).last_contiguous_seq)) [
          | inr (e, k) ↦ ground arith
          | inl (batch, k) ↦ ground (arith, active-reconcile_batch nonces batch now db past mode)
        ]

    quarantined-mode :
        (now : ℕ) (d : JournalDelivery) (db db' : EdgeDb)
        → (current_state (identity_of d) db).mode ≡ active
        → CursorMove sha d now db db' apply_quarantined
        → (current_state (identity_of d) db').mode ≡ active
    quarantined-mode now d db db' mode (replays row f g k e x) = absurd (ground arith)
    quarantined-mode now d db db' mode (conflicts row f k b x h) = absurd (ground arith)
    quarantined-mode now d db db' mode (gaps b e x h) = absurd (ground arith)
    quarantined-mode now d db db' mode (advances v reason p n l m g e) = ground arith

    -- What a live delivery that is quarantined leaves.
    record Quarantined (run : Run ProcessOutcome) : Type 0 where
      halted : run.halted ≡ true
      past : StoreHistory sha aead tenant payload run.db
      mode : (current_state identity run.db).mode ≡ active

    applied_run-Quarantined :
        (nonce : Bytes) (d : JournalDelivery) (now : ℕ) (db : EdgeDb)
        → StoreHistory sha aead tenant payload db
        → (current_state identity db).mode ≡ active
        → matches_identity identity d ≡ true
        → (r : Result ConsumerError (ApplyOutcome × EdgeDb))
        → apply sha aead tenant payload verify identity false nonce d now db ≡ r
        → (applied_run sha aead tenant payload verify identity db r).returned
          ≡ ok process_quarantined
        → Quarantined (applied_run sha aead tenant payload verify identity db r)
    unfolding apply stored
    applied_run-Quarantined nonce d now db past mode m (err e) h q = absurd (ground arith)
    applied_run-Quarantined nonce d now db past mode m (ok (o, db')) h q =
        let is_quarantined : o ≡ apply_quarantined = quarantined_only o (ground arith) in
        let called =
          apply-Called sha aead tenant payload verify identity false nonce now d db db' o past h in
        let e = matches_identity-eq identity d m in
        let move = subst (CursorMove sha d now db db') is_quarantined called.move in
        record {
          halted = ground arith;
          past = called.past;
          mode = ground (arith, e, quarantined-mode now d db db' (ground (arith, e)) move);
        }

    mismatch-not_quarantined :
        (db : EdgeDb) (r : Result StoreError (Unit {0} × EdgeDb))
        → (mismatch_run sha aead tenant payload verify identity db r).returned
          ≢ ok process_quarantined
    mismatch-not_quarantined db (err e) h = ground arith
    mismatch-not_quarantined db (ok (u, db')) h = ground arith

    handle_delivery-Quarantined :
        (nonce : Bytes) (d : JournalDelivery) (now : ℕ) (db : EdgeDb)
        → StoreHistory sha aead tenant payload db
        → (current_state identity db).mode ≡ active
        → (handle_delivery sha aead tenant payload verify identity nonce d now db).returned
          ≡ ok process_quarantined
        → Quarantined (handle_delivery sha aead tenant payload verify identity nonce d now db)
    unfolding handle_delivery
    handle_delivery-Quarantined nonce d now db past mode q =
        elim (Bool-cases (eqb d.delivery_seq 0)) [
          | inl z ↦ absurd (ground arith)
          | inr z ↦ (elim (Bool-cases (matches_identity identity d)) [
            | inr m ↦ absurd (
                ground (
                  arith,
                  mismatch-not_quarantined db
                      (require_reconciliation identity 0 "delivery_identity_mismatch" now db),
                ))
            | inl m ↦
                let called = apply sha aead tenant payload verify identity false nonce d now db in
                rw (z, m)
                  (applied_run-Quarantined nonce d now db past mode m called refl (ground arith))
          ])
        ]

    -- When Handle of an active generation in a reachable state answers "quarantined", the consumer
    -- is halted, and a later Reconcile on the store that the call leaves keeps it halted, whatever
    -- batch the reconciler fetches and whatever the verifier says.
    pub quarantined-stays-halted :
        (nonce : Bytes) (message : Message) (now later : ℕ) (db : EdgeDb)
        (fetch : EdgeIdentity → ℕ → Result ConsumerError ReconcileBatch) (nonces : ℕ → Bytes)
        → StoreHistory sha aead tenant payload db
        → (current_state identity db).mode ≡ active
        → (handle sha aead tenant payload verify identity false nonce message now db).returned
          ≡ ok process_quarantined
        → (reconcile sha aead tenant payload verify identity fetch nonces
            (handle sha aead tenant payload verify identity false nonce message now db).halted
            later
            (handle sha aead tenant payload verify identity false nonce message now db).db).halted
          ≡ true
    unfolding handle
    quarantined-stays-halted nonce message now later db fetch nonces past mode q =
        elim (Option-cases message.metadata) [
          | inl e ↦ absurd (ground arith)
          | inr (meta, e) ↦
              let d = delivery_of sha aead tenant payload verify identity meta message in
              let left = handle_delivery-Quarantined nonce d now db past mode (ground arith) in
              let run = handle_delivery sha aead tenant payload verify identity nonce d now db in
              ground (arith, left, active-reconcile fetch nonces later run.db left.past left.mode)
        ]
