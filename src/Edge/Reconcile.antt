-- ===== src/Edge/Reconcile.antt =====
-- Reconcile of internal/sspedge/consumer.go. `fetch` stands for the reconciler, and `nonces` for the
-- bytes that crypto/rand writes for each delivery.
use snagline.Prelude.{
  ℕ, suc, ◌-◌, String, Bool, true, false, not, ◌&&◌, ◌||◌, List, [], ◌∷◌, eqb, ltb, if◌then◌else◌,
  length, Bytes,
}
use snagline.Tx.{Result, ok, err}
use snagline.Edge.Vault.{Aead}
use snagline.Edge.Tables.{EdgeIdentity, JournalDelivery, EdgeDb}
use snagline.Edge.Validate.{valid_identity}
use snagline.Edge.Cursor.{current_state, complete_reconciliation}
use snagline.Edge.Consumer.{
  Verification, ConsumerError, store_error, not_required, invalid_bounds, range_mismatch,
  non_contiguous, delivery_halted, incomplete, Run, matches_identity, is_halting, apply,
}
use snagline.Edge.Tables.{invalid_edge_identity}

pub record ReconcileBatch : Type 0 where
  pub deliveries : List JournalDelivery
  pub high_watermark : ℕ
  pub complete_through : ℕ

pub record ReconcileResult : Type 0 where
  pub applied : ℕ
  pub high_watermark : ℕ
  pub complete_through : ℕ
  pub resumed : Bool

-- Each delivery is of the identity, at the next sequence.
unfoldable pub is_contiguous_batch : EdgeIdentity → ℕ → List JournalDelivery → Bool
is_contiguous_batch id expected [] = true
is_contiguous_batch id expected (d ∷ ds) =
    matches_identity id d
    && (eqb d.delivery_seq expected && is_contiguous_batch id (suc expected) ds)

module _ (sha : Bytes → String) (aead : Aead) (tenant : String) (payload : String → String → Bytes)
    (verify : JournalDelivery → Verification) (identity : EdgeIdentity) where
  -- The second loop: the number applied, or the error that ended it, and the store.
  unfoldable pub apply_batch :
      (ℕ → Bytes) → List JournalDelivery → ℕ → ℕ → EdgeDb → Result ConsumerError ℕ × EdgeDb
  apply_batch nonces [] n now db = (ok n, db)
  apply_batch nonces (d ∷ ds) n now db =
      elim (apply sha aead tenant payload verify identity true (nonces n) d now db) [
        | err e ↦ (err e, db)
        | ok (o, db') ↦
            let rest = apply_batch nonces ds (suc n) now db' in
            if is_halting o then (err delivery_halted, db') else rest
      ]

  abbrev pub failed_run : ConsumerError → EdgeDb → Run ReconcileResult
  failed_run e db = record { db = db; halted = true; returned = err e }

  unfoldable pub ended : ReconcileBatch → ℕ → ℕ → EdgeDb → Run ReconcileResult
  ended batch n now db =
      if not (eqb (current_state identity db).last_contiguous_seq batch.complete_through)
      then failed_run incomplete db
      else if eqb batch.complete_through batch.high_watermark
      then elim (complete_reconciliation identity batch.complete_through batch.high_watermark now
          db) [
            | err e ↦ failed_run (store_error e) db
            | ok (_, db') ↦ record {
              db = db';
              halted = false;
              returned = ok (record {
                applied = n;
                high_watermark = batch.high_watermark;
                complete_through = batch.complete_through;
                resumed = true;
              });
            }
          ]
      else record {
        db = db;
        halted = true;
        returned = ok (record {
          applied = n;
          high_watermark = batch.high_watermark;
          complete_through = batch.complete_through;
          resumed = false;
        });
      }

  unfoldable pub finish_batch :
      ReconcileBatch → ℕ → Result ConsumerError ℕ × EdgeDb → Run ReconcileResult
  finish_batch batch now (err e, db) = failed_run e db
  finish_batch batch now (ok n, db) = ended batch n now db

  unfoldable pub reconcile_batch : (ℕ → Bytes) → ReconcileBatch → ℕ → EdgeDb → Run ReconcileResult
  reconcile_batch nonces batch now db =
      let state = current_state identity db in
      if ltb batch.high_watermark state.high_watermark
        || (ltb batch.complete_through state.last_contiguous_seq
            || ltb batch.high_watermark batch.complete_through)
      then failed_run invalid_bounds db
      else if not
          (eqb (length batch.deliveries) (batch.complete_through - state.last_contiguous_seq))
      then failed_run range_mismatch db
      else if is_contiguous_batch identity (suc state.last_contiguous_seq) batch.deliveries
      then finish_batch batch now (apply_batch nonces batch.deliveries 0 now db)
      else failed_run non_contiguous db

  -- A consumer that is not halted has nothing to reconcile.
  unfoldable pub reconcile :
      (EdgeIdentity → ℕ → Result ConsumerError ReconcileBatch)
      → (ℕ → Bytes)
      → Bool
      → ℕ
      → EdgeDb
      → Run ReconcileResult
  reconcile fetch nonces halted now db =
      if not halted
      then record { db = db; halted = false; returned = err not_required }
      else if valid_identity identity
      then elim (fetch identity (current_state identity db).last_contiguous_seq) [
        | err e ↦ failed_run e db
        | ok batch ↦ reconcile_batch nonces batch now db
      ]
      else failed_run (store_error invalid_edge_identity) db
