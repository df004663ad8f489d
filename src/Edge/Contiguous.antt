-- ===== src/Edge/Contiguous.antt =====
-- The cursor and the recorded deliveries of a generation in internal/sspedge/store.go.
use snagline.Prelude.{
  ℕ, zero, suc, String, ◌≡◌, ◌≤◌, refl, Bool, true, ◌&&◌, List, [], ◌∷◌, arith, eqb, leb, not, ◌∙◌,
  ap, select, any,
}
use snagline.Tx.{ok}
use snagline.Authority.Logs.{count_down}
use snagline.Edge.Tables.{EdgeIdentity, DeliveryRow, EdgeDb, on_edge, is_delivery}
use snagline.Edge.Cursor.{max, current_state, advanced_row, require_reconciliation_tx}
use snagline.Edge.Applied.{last_seq, advanced_states}
use snagline.Edge.States.{same_id-eq, on_edge-same, current-halt, current-advanced}

-- The recorded deliveries of a generation, the newest first.
unfoldable pub edge_log : EdgeIdentity → List DeliveryRow → List DeliveryRow
edge_log id rows = select (on_edge id) rows

unfoldable pub delivery_seqs : List DeliveryRow → List ℕ
delivery_seqs [] = []
delivery_seqs (row ∷ rows) = row.delivery_seq ∷ delivery_seqs rows

-- The generation has recorded exactly the deliveries 1, 2, …, n, and n is its contiguous sequence,
-- which its high watermark reaches.
pub record EdgeIsContiguous (id : EdgeIdentity) (db : EdgeDb) : Type 0 where
  pub recorded : delivery_seqs (edge_log id db.deliveries) ≡ count_down (last_seq id db)
  pub bounded : last_seq id db ≤ (current_state id db).high_watermark

abbrev pub is_number : ℕ → ℕ → Bool
is_number n s = eqb s n

-- What is recorded is what the log lists.
pub any-edge_log :
    (id : EdgeIdentity) (seq : ℕ) (rows : List DeliveryRow)
    → any (is_delivery id seq) rows ≡ any (is_number seq) (delivery_seqs (edge_log id rows))
unfolding any select edge_log delivery_seqs
any-edge_log id seq [] = refl
any-edge_log id seq (row ∷ rows) = ground (arith, any-edge_log id seq rows)

pub any-count_down :
    (seq n : ℕ) → any (is_number seq) (count_down n) ≡ (not (eqb seq 0) && leb seq n)
unfolding any count_down
any-count_down seq zero = ground arith
any-count_down seq (suc n) = ground (arith, any-count_down seq n)

-- Exactly the sequences 1, 2, …, n of a contiguous generation are recorded.
pub recorded_iff :
    (id : EdgeIdentity) (db : EdgeDb) (seq : ℕ)
    → EdgeIsContiguous id db
    → any (is_delivery id seq) db.deliveries ≡ (not (eqb seq 0) && leb seq (last_seq id db))
recorded_iff id db seq c =
    any-edge_log id seq db.deliveries ∙ (rw c.recorded (any-count_down seq (last_seq id db)))

module _ (a : EdgeIdentity) (now : ℕ) (db db' : EdgeDb) (b : EdgeIdentity) where
  -- A halt keeps every contiguous sequence and lowers no watermark.
  pub halt-EdgeIsContiguous :
      (observed : ℕ) (reason : String)
      → require_reconciliation_tx a observed reason now db ≡ ok (tt, db')
      → EdgeIsContiguous b db
      → EdgeIsContiguous b db'
  unfolding last_seq max
  halt-EdgeIsContiguous observed reason h c =
      let e = current-halt a observed reason now db db' b h in
      let same : db'.deliveries ≡ db.deliveries =
        unfold require_reconciliation_tx in ground arith in
      let k = same_id-eq a b in
      record {
        recorded = rw same (c.recorded ∙ ap count_down (ground (arith, e, k)));
        bounded = ground (arith, e, k, c);
      }

  -- Recording the next sequence of one generation.
  pub record-EdgeIsContiguous :
      (row : DeliveryRow)
      → on_edge a row ≡ true
      → row.delivery_seq ≡ suc (last_seq a db)
      → db'.deliveries ≡ row ∷ db.deliveries
      → db'.states ≡ advanced_states a row.delivery_seq now db.states
      → EdgeIsContiguous b db
      → EdgeIsContiguous b db'
  unfolding last_seq max advanced_row edge_log delivery_seqs select count_down
  record-EdgeIsContiguous row on next d s c =
      let e = current-advanced a row.delivery_seq now db db' b s in
      let k = same_id-eq a b in
      let o = on_edge-same a b row on in
      record { recorded = ground (arith, e, k, o, c); bounded = ground (arith, e, k, c) }
