-- ===== src/Edge/Apply.antt =====
-- applyVerified of internal/sspedge/store.go, with ApplyVerified and applyReconciled.
use snagline.Prelude.{
  ℕ, suc, String, Bool, true, false, not, ◌||◌, Option, none, some, ◌∷◌, ◌==◌, eqb, leb,
  if◌then◌else◌, find, Bytes,
}
use mathlib.Core.Option
use snagline.Tx.{ok, err, Tx, pure, fail, ◌>>=◌, ◌>>◌}
use snagline.Edge.Vault.{Aead}
use snagline.Edge.Tables.{
  Verdict, verdict_accepted, verdict_rejected, verdict_quarantined, ApplyOutcome, apply_accepted,
  apply_rejected, apply_quarantined, apply_duplicate, apply_reconciliation_required,
  apply_identity_conflict, DeliveryMode, active, reconciliation_required, StoreError, EdgeIdentity,
  JournalDelivery, VerifiedProjection, StateRow, DeliveryRow, EdgeDb, is_delivery, identity_of,
  foreign_tenant, constraint_failed, invalid_projection,
}
use snagline.Edge.Validate.{validate_delivery, raw_hash}
use snagline.Edge.Cursor.{
  delivery_state_row, current_state, halt_and_commit_tx, advance_delivery_state_tx,
}
use snagline.Edge.Projection.{claim_identity, persist_projection}

unfoldable pub find_delivery : EdgeIdentity → ℕ → EdgeDb → Option DeliveryRow
find_delivery id seq db = find (is_delivery id seq) db.deliveries

abbrev pub has_state : Option StateRow → Bool
has_state none = false
has_state (some row) = true

-- What is recorded of a delivery: the outcome, the verdict and the reason.
abbrev pub Judged : Type 0
Judged = ApplyOutcome × Verdict × String

-- ApplyOutcome(verdict)
abbrev pub outcome_of : Verdict → ApplyOutcome
outcome_of verdict_accepted = apply_accepted
outcome_of verdict_rejected = apply_rejected
outcome_of verdict_quarantined = apply_quarantined

module _ (sha : Bytes → String) where
  -- The bytes or the subject differ from those recorded.
  unfoldable pub differs : JournalDelivery → DeliveryRow → Bool
  differs d row = not (row.raw_sha256 == raw_hash sha d.raw) || not (row.subject == d.subject)

  -- a sequence at or below the contiguous one
  unfoldable pub apply_recorded : JournalDelivery → ℕ → Tx EdgeDb StoreError ApplyOutcome
  apply_recorded d now db = elim (find_delivery (identity_of d) d.delivery_seq db) [
    | some row ↦
        if differs d row
        then halt_and_commit_tx (identity_of d) d.delivery_seq "delivery_identity_conflict" now
            apply_identity_conflict db
        else pure apply_duplicate db
    | none ↦
        halt_and_commit_tx (identity_of d) d.delivery_seq "missing_committed_delivery" now
          apply_reconciliation_required db
  ]

  abbrev pub delivery_row :
      JournalDelivery → Verdict → String → Option VerifiedProjection → ℕ → DeliveryRow
  delivery_row d v reason p now = record {
    tenant_id = d.tenant_id;
    edge_id = d.edge_id;
    edge_generation = d.edge_generation;
    delivery_seq = d.delivery_seq;
    carrier_stream = d.stream;
    carrier_sequence = d.sequence;
    subject = d.subject;
    raw_sha256 = raw_hash sha d.raw;
    envelope_id = Option.map (λ (q : VerifiedProjection). q.envelope_id) p;
    family = Option.map (λ (q : VerifiedProjection). q.family) p;
    verdict = v;
    reason = reason;
    received_at = now;
    committed_at = now;
  }

  unfoldable pub insert_delivery :
      JournalDelivery
      → Verdict
      → String
      → Option VerifiedProjection
      → ℕ
      → Tx EdgeDb StoreError (Unit {0})
  insert_delivery d v reason p now db = elim (find_delivery (identity_of d) d.delivery_seq db) [
    | some row ↦ fail constraint_failed db
    | none ↦ pure tt (record db { deliveries = delivery_row d v reason p now ∷ db.deliveries })
  ]

  module _ (aead : Aead) (tenant : String) (payload : String → String → Bytes) (nonce : Bytes) where
    -- what claimIdentity's answer asks for
    unfoldable pub judge_claimed :
        VerifiedProjection → String → ℕ → ApplyOutcome → Tx EdgeDb StoreError Judged
    judge_claimed p reason now apply_quarantined =
        pure (apply_quarantined, verdict_quarantined, "semantic_commitment_conflict")
    judge_claimed p reason now apply_duplicate = pure (apply_duplicate, verdict_accepted, reason)
    judge_claimed p reason now _ =
        persist_projection aead tenant payload nonce p now
        >> pure (apply_accepted, verdict_accepted, reason)

    -- An accepted delivery without a projection is refused by validateDelivery.
    unfoldable pub judge :
        JournalDelivery
        → Verdict
        → String
        → Option VerifiedProjection
        → ℕ
        → Tx EdgeDb StoreError Judged
    judge d verdict_accepted reason none now = fail invalid_projection
    judge d verdict_accepted reason (some p) now =
        claim_identity p.envelope_id p.commitment d.delivery_seq now >>= judge_claimed p reason now
    judge d v reason p now = pure (outcome_of v, v, reason)

    -- The delivery at the next sequence, when it is not recorded.
    unfoldable pub record_delivery :
        JournalDelivery
        → Verdict
        → String
        → Option VerifiedProjection
        → ℕ
        → Tx EdgeDb StoreError ApplyOutcome
    record_delivery d v reason p now db =
        let exists = has_state (delivery_state_row (identity_of d) db) in
        (do
          judged ← judge d v reason p now
          insert_delivery d judged.1 judged.2 p now
          advance_delivery_state_tx (identity_of d) exists d.delivery_seq now
          pure judged.0)
          db

    unfoldable pub apply_next :
        Bool
        → JournalDelivery
        → Verdict
        → String
        → Option VerifiedProjection
        → ℕ
        → Tx EdgeDb StoreError ApplyOutcome
    apply_next reconciling d v reason p now db =
        elim (find_delivery (identity_of d) d.delivery_seq db) [
          | none ↦ record_delivery d v reason p now db
          | some row ↦
              if differs d row
              then halt_and_commit_tx (identity_of d) d.delivery_seq "delivery_identity_conflict"
                  now apply_identity_conflict db
              else if reconciling
              then (advance_delivery_state_tx (identity_of d)
                      (has_state (delivery_state_row (identity_of d) db)) d.delivery_seq now
                    >> pure apply_duplicate)
                  db
              else pure apply_duplicate db
        ]

    abbrev pub refuses : DeliveryMode → Bool → Bool
    refuses active reconciling = false
    refuses reconciliation_required reconciling = not reconciling

    unfoldable pub apply_delivery :
        Bool
        → JournalDelivery
        → Verdict
        → String
        → Option VerifiedProjection
        → ℕ
        → Tx EdgeDb StoreError ApplyOutcome
    apply_delivery reconciling d v reason p now db =
        let state = current_state (identity_of d) db in
        if leb d.delivery_seq state.last_contiguous_seq
        then apply_recorded d now db
        else if not (eqb d.delivery_seq (suc state.last_contiguous_seq))
            || refuses state.mode reconciling
        then halt_and_commit_tx (identity_of d) d.delivery_seq "delivery_sequence_gap" now
            apply_reconciliation_required db
        else apply_next reconciling d v reason p now db

    -- `reconciling` is false in ApplyVerified and true in applyReconciled.
    unfoldable pub apply_verified :
        Bool
        → JournalDelivery
        → Verdict
        → String
        → Option VerifiedProjection
        → ℕ
        → Tx EdgeDb StoreError ApplyOutcome
    apply_verified reconciling d v reason p now db = elim (validate_delivery sha d v reason p now) [
      | err e ↦ fail e db
      | ok _ ↦
          if d.tenant_id == tenant
          then apply_delivery reconciling d v reason p now db
          else fail foreign_tenant db
    ]
