-- ===== src/Edge/Kept.antt =====
-- The recorded deliveries of internal/sspedge/store.go under later operations.
use snagline.Prelude.{
  ℕ, String, ◌≡◌, true, none, some, ◌∷◌, arith, eq_iff, eq_refl, find, Bytes, Bool-cases, inl, inr,
}
use snagline.Edge.Vault.{Aead}
use snagline.Edge.Tables.{
  ApplyOutcome, EdgeIdentity, JournalDelivery, DeliveryRow, EdgeDb, identity_of, is_delivery,
}
use snagline.Edge.Cursor.{
  require_reconciliation, require_reconciliation_tx, complete_reconciliation,
}
use snagline.Edge.Apply.{delivery_row, find_delivery}
use snagline.Edge.Applied.{Applied, replayed, caught_up, halted, recorded, apply_verified-Applied}
use snagline.Edge.FrontEffects.{claim-OnlyFront, mark-OnlyFront}
use snagline.Edge.History.{
  StoreStep, applied, required, completed, claimed, marked, StoreLater, now_here, later_step,
}

module _ (id : EdgeIdentity) (seq : ℕ) (row : DeliveryRow) where
  same-kept :
      (db db' : EdgeDb)
      → db'.deliveries ≡ db.deliveries
      → find_delivery id seq db ≡ some row
      → find_delivery id seq db' ≡ some row
  unfolding find_delivery
  same-kept db db' e h = rw e h

  -- A row under a key that is not taken hides no other.
  fresh-kept :
      (new : DeliveryRow) (d : JournalDelivery) (db db' : EdgeDb)
      → is_delivery (identity_of d) d.delivery_seq new ≡ true
      → find_delivery (identity_of d) d.delivery_seq db ≡ none
      → db'.deliveries ≡ new ∷ db.deliveries
      → find_delivery id seq db ≡ some row
      → find_delivery id seq db' ≡ some row
  unfolding find_delivery find
  fresh-kept new d db db' own fresh e h = elim (Bool-cases (is_delivery id seq new)) [
    | inr other ↦ ground arith
    | inl hit ↦
        let same : identity_of d ≡ id = ground (
          arith,
          eq_iff new.tenant_id d.tenant_id,
          eq_iff new.edge_id d.edge_id,
          eq_iff new.tenant_id id.tenant_id,
          eq_iff new.edge_id id.edge_id,
        ) in
        absurd (ground (arith, same))
  ]

  Applied-kept :
      (sha : Bytes → String) (d : JournalDelivery) (now : ℕ) (db db' : EdgeDb) (o : ApplyOutcome)
      → Applied sha d now db db' o
      → find_delivery id seq db ≡ some row
      → find_delivery id seq db' ≡ some row
  Applied-kept sha d now db db' o (replayed r f g e x) h = same-kept db db' (ground (arith, e)) h
  Applied-kept sha d now db db' o (caught_up r f next e x) h =
      same-kept db db' (ground (arith, e)) h
  Applied-kept sha d now db db' o (halted reason is_halt k) h =
      same-kept db db' (unfold require_reconciliation_tx in ground arith) h
  Applied-kept sha d now db db' o (recorded j p mid g k front next fresh e s x) h =
      fresh-kept (delivery_row sha d j.1 j.2 p now) d db db'
        (ground (arith, eq_refl d.tenant_id, eq_refl d.edge_id)) fresh e h

  module _ (sha : Bytes → String) (aead : Aead) (tenant : String)
      (payload : String → String → Bytes) where
    step-kept :
        (db db' : EdgeDb)
        → StoreStep sha aead tenant payload db db'
        → find_delivery id seq db ≡ some row
        → find_delivery id seq db' ≡ some row
    step-kept db db' (applied nonce rec d v reason p now o k) h =
        Applied-kept sha d now db db' o
          (apply_verified-Applied sha d now db db' o aead tenant payload nonce rec v reason p k) h
    step-kept db db' (required a observed reason now k) h =
        same-kept db db' (unfold require_reconciliation require_reconciliation_tx in ground arith) h
    step-kept db db' (completed a through high now k) h =
        same-kept db db' (unfold complete_reconciliation in ground arith) h
    step-kept db db' (claimed tokens front owner ttl limit now items k) h =
        let only = claim-OnlyFront aead tenant tokens front owner ttl limit now db db' items k in
        same-kept db db' (ground (arith, only)) h
    step-kept db db' (marked r now o k) h =
        same-kept db db' (ground (arith, mark-OnlyFront r now db db' o k)) h

    -- A delivery that is recorded keeps its row, under its key, through every later
    -- operation of the store: applied deliveries, halts, reconciliations and front deliveries.
    pub later-find_delivery :
        (db db' : EdgeDb)
        → StoreLater sha aead tenant payload db db'
        → find_delivery id seq db ≡ some row
        → find_delivery id seq db' ≡ some row
    later-find_delivery db _ now_here h = h
    later-find_delivery db _ (later_step {mid} {db'} l step) h =
        step-kept mid db' step (later-find_delivery db mid l h)
