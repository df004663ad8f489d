-- ===== src/Edge/Recorded.antt =====
-- The deliveries that a store of internal/sspedge has recorded, over its history.
use snagline.Prelude.{
  ℕ, suc, String, ◌≡◌, refl, false, arith, eq_refl, any, find, select, Bytes, any-find,
}
use snagline.Tx.{ok}
use snagline.Authority.Logs.{count_down}
use snagline.Edge.Vault.{Aead}
use snagline.Edge.Tables.{
  ApplyOutcome, EdgeIdentity, JournalDelivery, EdgeDb, identity_of, is_delivery,
}
use snagline.Edge.Cursor.{
  current_state, delivery_state_row, new_state, require_reconciliation, complete_reconciliation,
  resumed_row,
}
use snagline.Edge.Apply.{delivery_row, find_delivery}
use snagline.Edge.Applied.{
  Applied, replayed, caught_up, halted, recorded, last_seq, apply_verified-Applied,
}
use snagline.Edge.States.{current-completed}
use snagline.Edge.Contiguous.{
  EdgeIsContiguous, edge_log, delivery_seqs, recorded_iff, halt-EdgeIsContiguous,
  record-EdgeIsContiguous,
}
use snagline.Edge.FrontEffects.{claim-OnlyFront, mark-OnlyFront}
use snagline.Edge.History.{
  empty_edge, StoreStep, applied, required, completed, claimed, marked, StoreHistory, opened,
  then_step,
}

-- Every generation is contiguous.
pub record IsContiguous (db : EdgeDb) : Type 0 where
  pub at : (id : EdgeIdentity) → EdgeIsContiguous id db

same-IsContiguous :
    (db db' : EdgeDb)
    → db'.states ≡ db.states
    → db'.deliveries ≡ db.deliveries
    → IsContiguous db
    → IsContiguous db'
unfolding last_seq current_state delivery_state_row
same-IsContiguous db db' s d c = record {
  at = λ id. record {
    recorded = rw (s, d) (c.at id).recorded;
    bounded = rw (s, d) (c.at id).bounded;
  };
}

-- The next sequence of a contiguous generation is not recorded.
pub next-fresh :
    (d : JournalDelivery) (db : EdgeDb)
    → IsContiguous db
    → d.delivery_seq ≡ suc (last_seq (identity_of d) db)
    → any (is_delivery (identity_of d) d.delivery_seq) db.deliveries ≡ false
next-fresh d db c next =
    ground (arith, recorded_iff (identity_of d) db d.delivery_seq (c.at (identity_of d)))

Applied-IsContiguous :
    (sha : Bytes → String) (d : JournalDelivery) (now : ℕ) (db db' : EdgeDb) (o : ApplyOutcome)
    → Applied sha d now db db' o
    → IsContiguous db
    → IsContiguous db'
Applied-IsContiguous sha d now db db' o (replayed row f g e x) c =
    same-IsContiguous db db' (ground (arith, e)) (ground (arith, e)) c
Applied-IsContiguous sha d now db db' o (caught_up row f next e x) c = absurd (
    ground (
      arith,
      next-fresh d db c next,
      any-find (is_delivery (identity_of d) d.delivery_seq) db.deliveries row
          (unfold find_delivery in f),
    ))
Applied-IsContiguous sha d now db db' o (halted reason is_halt h) c = record {
  at = λ id. halt-EdgeIsContiguous (identity_of d) now db db' id d.delivery_seq reason h (c.at id);
}
Applied-IsContiguous sha d now db db' o (recorded j p mid g k front next fresh e s x) c = record {
  at = λ id.
      record-EdgeIsContiguous (identity_of d) now db db' id (delivery_row sha d j.1 j.2 p now)
        (ground (arith, eq_refl d.tenant_id, eq_refl d.edge_id)) next e s (c.at id);
}

completed-IsContiguous :
    (a : EdgeIdentity) (through high now : ℕ) (db db' : EdgeDb)
    → complete_reconciliation a through high now db ≡ ok (tt, db')
    → IsContiguous db
    → IsContiguous db'
unfolding last_seq resumed_row
completed-IsContiguous a through high now db db' h c =
    let same : db'.deliveries ≡ db.deliveries = unfold complete_reconciliation in ground arith in
    record {
      at = λ id.
          let e = current-completed a through high now db db' id h in
          let last : last_seq id db' ≡ last_seq id db = ground (arith, e) in
          let high_same : (current_state id db').high_watermark
              ≡ (current_state id db).high_watermark =
            ground (arith, e) in
          record {
            recorded = rw (last, same) (c.at id).recorded;
            bounded = rw (last, high_same) (c.at id).bounded;
          };
    }

required-IsContiguous :
    (a : EdgeIdentity) (observed : ℕ) (reason : String) (now : ℕ) (db db' : EdgeDb)
    → require_reconciliation a observed reason now db ≡ ok (tt, db')
    → IsContiguous db
    → IsContiguous db'
unfolding require_reconciliation
required-IsContiguous a observed reason now db db' h c = record {
  at = λ id. halt-EdgeIsContiguous a now db db' id observed reason (ground arith) (c.at id);
}

module _ (sha : Bytes → String) (aead : Aead) (tenant : String)
    (payload : String → String → Bytes) where
  step-IsContiguous :
      (db db' : EdgeDb)
      → StoreStep sha aead tenant payload db db'
      → IsContiguous db
      → IsContiguous db'
  step-IsContiguous db db' (applied nonce rec d v reason p now o h) c =
      Applied-IsContiguous sha d now db db' o
        (apply_verified-Applied sha d now db db' o aead tenant payload nonce rec v reason p h) c
  step-IsContiguous db db' (required id observed reason now h) c =
      required-IsContiguous id observed reason now db db' h c
  step-IsContiguous db db' (completed id through high now h) c =
      completed-IsContiguous id through high now db db' h c
  step-IsContiguous db db' (claimed tokens front owner ttl limit now items h) c =
      let only = claim-OnlyFront aead tenant tokens front owner ttl limit now db db' items h in
      same-IsContiguous db db' (ground (arith, only)) (ground (arith, only)) c
  step-IsContiguous db db' (marked r now o h) c =
      let only = mark-OnlyFront r now db db' o h in
      same-IsContiguous db db' (ground (arith, only)) (ground (arith, only)) c

  empty-IsContiguous : IsContiguous empty_edge
  unfolding edge_log delivery_seqs select last_seq current_state delivery_state_row new_state
      count_down find
  empty-IsContiguous = record { at = λ id. record { recorded = refl; bounded = omega arith } }

  -- In every state that the store reaches, each edge generation has recorded exactly
  -- the deliveries 1, 2, …, n, each once and in that order, where n is its last contiguous sequence, and n is not above its
  -- high watermark.
  pub StoreHistory-IsContiguous :
      (db : EdgeDb) → StoreHistory sha aead tenant payload db → IsContiguous db
  StoreHistory-IsContiguous _ opened = empty-IsContiguous
  StoreHistory-IsContiguous _ (then_step {db} {db'} h step) =
      step-IsContiguous db db' step (StoreHistory-IsContiguous db h)
