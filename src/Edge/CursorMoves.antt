-- ===== src/Edge/CursorMoves.antt =====
-- The moves of the cursor by applyVerified of internal/sspedge/store.go, and the rows it keeps.
use snagline.Prelude.{
  ℕ, suc, String, ◌≡◌, ◌≤◌, refl, inl, inr, Bool, true, false, not, ◌&&◌, Option, some, ◌∷◌, arith,
  ◌==◌, eq_iff, eq_refl, eqb, Bytes, any-find, none-any,
}
use snagline.Tx.{ok, Result-cases}
use snagline.Edge.Vault.{Aead}
use snagline.Edge.Tables.{
  Verdict, ApplyOutcome, apply_duplicate, apply_reconciliation_required, apply_identity_conflict,
  reconciliation_required, EdgeIdentity, JournalDelivery, VerifiedProjection, DeliveryRow, EdgeDb,
  identity_of, is_delivery,
}
use snagline.Edge.Validate.{validate_delivery, raw_hash}
use snagline.Edge.Cursor.{is_required, max, current_state, advanced_row, require_reconciliation_tx}
use snagline.Edge.Apply.{apply_verified, delivery_row, differs, find_delivery}
use snagline.Edge.Applied.{
  Applied, replayed, caught_up, halted, recorded, IsHalt, conflict, missing, gap, last_seq,
  apply_verified-Applied,
}
use snagline.Edge.States.{same_id, current-halt, current-advanced}
use snagline.Edge.Contiguous.{recorded_iff}
use snagline.Edge.Recorded.{IsContiguous, next-fresh, StoreHistory-IsContiguous}
use snagline.Edge.History.{StoreHistory}

-- The next state's cursor is in reconciliation at the same sequence, its watermark has reached the
-- delivery, and no other table has changed.
pub record Halts (d : JournalDelivery) (db db' : EdgeDb) : Type 0 where
  pub mode : (current_state (identity_of d) db').mode ≡ reconciliation_required
  pub last : last_seq (identity_of d) db' ≡ last_seq (identity_of d) db
  pub observed : d.delivery_seq ≤ (current_state (identity_of d) db').high_watermark
  pub only : db' ≡ record db { states = db'.states }

pub data CursorMove (sha : Bytes → String) (d : JournalDelivery) (now : ℕ) (db db' : EdgeDb)
    : ApplyOutcome → Type 0 where
  -- the delivery recorded before, byte for byte: nothing is written
  replays :
      {o : ApplyOutcome} (row : DeliveryRow)
      → find_delivery (identity_of d) d.delivery_seq db ≡ some row
      → row.raw_sha256 ≡ raw_hash sha d.raw
      → row.subject ≡ d.subject
      → db' ≡ db
      → o ≡ apply_duplicate
      → CursorMove sha d now db db' o
  -- other bytes or another subject at a recorded sequence
  conflicts :
      {o : ApplyOutcome} (row : DeliveryRow)
      → find_delivery (identity_of d) d.delivery_seq db ≡ some row
      → (row.raw_sha256 == raw_hash sha d.raw && row.subject == d.subject) ≡ false
      → d.delivery_seq ≤ last_seq (identity_of d) db
      → o ≡ apply_identity_conflict
      → Halts d db db'
      → CursorMove sha d now db db' o
  -- a sequence beyond the next, or a generation already in reconciliation
  gaps :
      {o : ApplyOutcome}
      → suc (last_seq (identity_of d) db) ≤ d.delivery_seq
      → (eqb d.delivery_seq (suc (last_seq (identity_of d) db))
          && not (is_required (current_state (identity_of d) db).mode))
        ≡ false
      → o ≡ apply_reconciliation_required
      → Halts d db db'
      → CursorMove sha d now db db' o
  -- the next sequence: the delivery is recorded, and the cursor moves by one in its mode
  advances :
      {o : ApplyOutcome} (v : Verdict) (reason : String) (p : Option VerifiedProjection)
      → d.delivery_seq ≡ suc (last_seq (identity_of d) db)
      → last_seq (identity_of d) db' ≡ d.delivery_seq
      → (current_state (identity_of d) db').mode ≡ (current_state (identity_of d) db).mode
      → (current_state (identity_of d) db').high_watermark
        ≡ max (current_state (identity_of d) db).high_watermark d.delivery_seq
      → db'.deliveries ≡ delivery_row sha d v reason p now ∷ db.deliveries
      → CursorMove sha d now db db' o

same_id_refl : (id : EdgeIdentity) → same_id id id ≡ true
unfolding same_id
same_id_refl id = ground (arith, eq_refl id.tenant_id, eq_refl id.edge_id)

module _ (sha : Bytes → String) (d : JournalDelivery) (now : ℕ) (db db' : EdgeDb) where
  halt-Halts :
      (reason : String)
      → require_reconciliation_tx (identity_of d) d.delivery_seq reason now db ≡ ok (tt, db')
      → Halts d db db'
  unfolding last_seq max
  halt-Halts reason h =
      let e = current-halt (identity_of d) d.delivery_seq reason now db db' (identity_of d) h in
      let k = same_id_refl (identity_of d) in
      record {
        mode = ground (arith, e, k);
        last = ground (arith, e, k);
        observed = ground (arith, e, k);
        only = unfold require_reconciliation_tx in ground arith;
      }

  halted-CursorMove :
      (o : ApplyOutcome) (reason : String)
      → IsContiguous db
      → eqb d.delivery_seq 0 ≡ false
      → IsHalt sha d db o reason
      → Halts d db db'
      → CursorMove sha d now db db' o
  halted-CursorMove _ _ c positive (conflict row e k) h =
      let found =
        any-find (is_delivery (identity_of d) d.delivery_seq) db.deliveries row
          (unfold find_delivery in e) in
      conflicts row e (unfold differs in ground arith)
        (ground
          (arith, found, recorded_iff (identity_of d) db d.delivery_seq (c.at (identity_of d))))
        refl h
  halted-CursorMove _ _ c positive (missing below e) h = absurd (
      ground (
        arith,
        recorded_iff (identity_of d) db d.delivery_seq (c.at (identity_of d)),
        none-any (is_delivery (identity_of d) d.delivery_seq) db.deliveries
            (unfold find_delivery in e),
      ))
  halted-CursorMove _ _ c positive (gap beyond e) h = gaps beyond e refl h

  same_delivery :
      (row : DeliveryRow)
      → differs sha d row ≡ false
      → (row.raw_sha256 ≡ raw_hash sha d.raw) × (row.subject ≡ d.subject)
  unfolding differs
  same_delivery row h = (
    ground (arith, eq_iff row.raw_sha256 (raw_hash sha d.raw)),
    ground (arith, eq_iff row.subject d.subject),
  )

  Applied-CursorMove :
      (o : ApplyOutcome)
      → IsContiguous db
      → eqb d.delivery_seq 0 ≡ false
      → Applied sha d now db db' o
      → CursorMove sha d now db db' o
  unfolding last_seq advanced_row
  Applied-CursorMove o c positive (replayed row f g e x) =
      let same = same_delivery row g in replays row f same.0 same.1 e x
  Applied-CursorMove o c positive (caught_up row f next e x) = absurd (
      ground (
        arith,
        next-fresh d db c next,
        any-find (is_delivery (identity_of d) d.delivery_seq) db.deliveries row
            (unfold find_delivery in f),
      ))
  Applied-CursorMove o c positive (halted reason is_halt h) =
      halted-CursorMove o reason c positive is_halt (halt-Halts reason h)
  Applied-CursorMove o c positive (recorded j p mid g k front next fresh e s x) =
      let a = current-advanced (identity_of d) d.delivery_seq now db db' (identity_of d) s in
      let k = same_id_refl (identity_of d) in
      advances j.1 j.2 p next (ground (arith, a, k)) (ground (arith, a, k)) (ground (arith, a, k)) e

  validated-positive :
      (v : Verdict) (reason : String) (p : Option VerifiedProjection)
      → validate_delivery sha d v reason p now ≡ ok tt
      → eqb d.delivery_seq 0 ≡ false
  unfolding validate_delivery
  validated-positive v reason p h = ground arith

module _ (sha : Bytes → String) (aead : Aead) (tenant : String)
    (payload : String → String → Bytes) where
  -- Whatever applyVerified returns in a reachable state, the call is one of four moves:
  -- a replay of the recorded bytes under their subject, answered "duplicate" and writing nothing;
  -- a conflict at a recorded sequence, or a gap, both of which halt the generation durably without moving its
  -- cursor; or the recording of exactly the next sequence, which moves the cursor by one.
  pub apply_verified-CursorMove :
      (db db' : EdgeDb) (nonce : Bytes) (reconciling : Bool) (d : JournalDelivery) (v : Verdict)
      (reason : String) (p : Option VerifiedProjection) (now : ℕ) (o : ApplyOutcome)
      → StoreHistory sha aead tenant payload db
      → apply_verified sha aead tenant payload nonce reconciling d v reason p now db ≡ ok (o, db')
      → CursorMove sha d now db db' o
  apply_verified-CursorMove db db' nonce reconciling d v reason p now o past h =
      elim (Result-cases (validate_delivery sha d v reason p now)) [
        | inr (e, i) ↦ absurd (unfold apply_verified in ground arith)
        | inl (_, i) ↦
            Applied-CursorMove sha d now db db' o
              (StoreHistory-IsContiguous sha aead tenant payload db past)
              (validated-positive sha d now db db' v reason p i)
              (apply_verified-Applied sha d now db db' o aead tenant payload nonce reconciling v
                reason p h)
      ]
