-- ===== src/Edge/States.antt =====
-- The rows of ssp_edge_delivery_state under the writes of internal/sspedge/store.go.
use mathlib.Core.Option
use snagline.Prelude.{
  ℕ, String, ◌≡◌, refl, Bool, true, ◌&&◌, none, some, List, [], ◌∷◌, arith, ◌==◌, eq_iff, eq_refl,
  eqb, if◌then◌else◌, find, find-holds, find-update_where, update_where, Option-cases, inl, inr,
}
use snagline.Tx.{ok}
use snagline.Edge.Tables.{
  reconciliation_required, EdgeIdentity, StateRow, DeliveryRow, EdgeDb, is_state, on_edge,
}
use snagline.Edge.Cursor.{
  is_required, upsert_state, halted_row, advanced_row, resumed_row, completes, first_row, new_state,
  max, current_state, delivery_state_row, require_reconciliation_tx, complete_reconciliation,
}
use snagline.Edge.Applied.{advanced_states}

unfoldable pub same_id : EdgeIdentity → EdgeIdentity → Bool
same_id a b =
    a.tenant_id == b.tenant_id && (a.edge_id == b.edge_id && eqb a.generation b.generation)

-- A change that keeps the primary key.
abbrev pub KeepsKey : (StateRow → StateRow) → Type 0
KeepsKey change = (id : EdgeIdentity) (row : StateRow) → is_state id (change row) ≡ is_state id row

pub is_state-same :
    (a b : EdgeIdentity) (row : StateRow) → is_state a row ≡ true → is_state b row ≡ same_id a b
unfolding same_id
is_state-same a b row h = ground (
  arith,
  eq_iff row.tenant_id a.tenant_id,
  eq_iff row.edge_id a.edge_id,
  eq_iff row.tenant_id b.tenant_id,
  eq_iff row.edge_id b.edge_id,
  eq_iff a.tenant_id b.tenant_id,
  eq_iff a.edge_id b.edge_id,
)

pub same_id-is_state :
    (a b : EdgeIdentity) (row : StateRow) → same_id a b ≡ true → is_state b row ≡ is_state a row
unfolding same_id
same_id-is_state a b row h =
    ground (arith, eq_iff a.tenant_id b.tenant_id, eq_iff a.edge_id b.edge_id)

module _ (a : EdgeIdentity) (change : StateRow → StateRow) (keeps : KeepsKey change) where
  pub find-update_state :
      (b : EdgeIdentity) (rows : List StateRow)
      → find (is_state b) (update_where (is_state a) change rows) ≡ (
          if same_id a b
          then Option.map change (find (is_state a) rows)
          else find (is_state b) rows)
  unfolding find update_where
  find-update_state b [] = ground arith
  find-update_state b (row ∷ rows) = ground (
    arith,
    find-update_state b rows,
    keeps b row,
    is_state-same a b row,
    same_id-is_state a b row,
  )

  pub find-upsert_state :
      (new : StateRow)
      → is_state a new ≡ true
      → (b : EdgeIdentity) (rows : List StateRow)
      → find (is_state b) (upsert_state a new change rows) ≡ (
          if same_id a b
          then some (elim (find (is_state a) rows) [ none ↦ new | some row ↦ change row ])
          else find (is_state b) rows)
  unfolding find upsert_state
  find-upsert_state new h b [] = ground (arith, is_state-same a b new h)
  find-upsert_state new h b (row ∷ rows) = ground (
    arith,
    find-upsert_state new h b rows,
    keeps b row,
    is_state-same a b row,
    same_id-is_state a b row,
  )

pub advanced-KeepsKey : (seq now : ℕ) → KeepsKey (advanced_row seq now)
unfolding advanced_row
advanced-KeepsKey seq now id row = refl

pub first-is_state : (id : EdgeIdentity) (seq now : ℕ) → is_state id (first_row id seq now) ≡ true
unfolding first_row new_state
first-is_state id seq now = ground (arith, eq_refl id.tenant_id, eq_refl id.edge_id)

-- The row of a generation after another, or itself, has advanced.
pub find-advanced_states :
    (a : EdgeIdentity) (seq now : ℕ) (b : EdgeIdentity) (rows : List StateRow)
    → find (is_state b) (advanced_states a seq now rows) ≡ (
        if same_id a b
        then some (elim (find (is_state a) rows) [
          | none ↦ first_row a seq now
          | some row ↦ advanced_row seq now row
        ])
        else find (is_state b) rows)
unfolding advanced_states find
find-advanced_states a seq now b rows = elim (Option-cases (find (is_state a) rows)) [
  | inl e ↦ ground (arith, is_state-same a b (first_row a seq now) (first-is_state a seq now))
  | inr (row, e) ↦
      ground (arith, find-update_state a (advanced_row seq now) (advanced-KeepsKey seq now) b rows)
]

pub halted-KeepsKey : (high : ℕ) (reason : String) (now : ℕ) → KeepsKey (halted_row high reason now)
unfolding halted_row
halted-KeepsKey high reason now id row = refl

pub resumed-KeepsKey : (now : ℕ) → KeepsKey (resumed_row now)
unfolding resumed_row
resumed-KeepsKey now id row = refl

-- The row of a generation is its own.
pub current-is_state : (id : EdgeIdentity) (db : EdgeDb) → is_state id (current_state id db) ≡ true
unfolding current_state delivery_state_row new_state
current-is_state id db = elim (Option-cases (find (is_state id) db.states)) [
  | inl e ↦ ground (arith, eq_refl id.tenant_id, eq_refl id.edge_id)
  | inr (row, e) ↦ ground (arith, find-holds (is_state id) db.states row)
]

-- The row of a generation after a halt of another, or of itself.
pub current-halt :
    (a : EdgeIdentity) (observed : ℕ) (reason : String) (now : ℕ) (db db' : EdgeDb)
    (b : EdgeIdentity)
    → require_reconciliation_tx a observed reason now db ≡ ok (tt, db')
    → current_state b db' ≡ (
        if same_id a b
        then record (current_state a db) {
          high_watermark = max (current_state a db).high_watermark observed;
          mode = reconciliation_required;
          reason = reason;
          updated_at = now;
        }
        else current_state b db)
unfolding require_reconciliation_tx current_state delivery_state_row halted_row max new_state
current-halt a observed reason now db db' b h =
    let high = max (current_state a db).high_watermark observed in
    let new : StateRow = record (current_state a db) {
      high_watermark = high;
      mode = reconciliation_required;
      reason = reason;
      updated_at = now;
    } in
    ground (
      arith,
      find-upsert_state a (halted_row high reason now) (halted-KeepsKey high reason now) new
          (current-is_state a db) b db.states,
    )

-- The row of a generation after another, or itself, has advanced.
pub current-advanced :
    (a : EdgeIdentity) (seq now : ℕ) (db db' : EdgeDb) (b : EdgeIdentity)
    → db'.states ≡ advanced_states a seq now db.states
    → current_state b db'
      ≡ (if same_id a b then advanced_row seq now (current_state a db) else current_state b db)
unfolding current_state delivery_state_row first_row advanced_row max new_state
current-advanced a seq now db db' b h = ground (arith, find-advanced_states a seq now b db.states)

pub same_id-eq : (a b : EdgeIdentity) → same_id a b ≡ true → a ≡ b
unfolding same_id
same_id-eq a b h = ground (arith, eq_iff a.tenant_id b.tenant_id, eq_iff a.edge_id b.edge_id)

pub on_edge-same :
    (a b : EdgeIdentity) (row : DeliveryRow) → on_edge a row ≡ true → on_edge b row ≡ same_id a b
unfolding same_id
on_edge-same a b row h = ground (
  arith,
  eq_iff row.tenant_id a.tenant_id,
  eq_iff row.edge_id a.edge_id,
  eq_iff row.tenant_id b.tenant_id,
  eq_iff row.edge_id b.edge_id,
  eq_iff a.tenant_id b.tenant_id,
  eq_iff a.edge_id b.edge_id,
)

-- Completing a reconciliation changes the mode and the reason of a row, at most.
pub current-completed :
    (a : EdgeIdentity) (through high now : ℕ) (db db' : EdgeDb) (b : EdgeIdentity)
    → complete_reconciliation a through high now db ≡ ok (tt, db')
    → current_state b db' ≡ (
        if completes a through high (current_state b db)
        then resumed_row now (current_state b db)
        else current_state b db)
unfolding complete_reconciliation current_state delivery_state_row completes is_required new_state
current-completed a through high now db db' b h = ground (
  arith,
  find-update_where (is_state b) (completes a through high) (resumed_row now)
      (resumed-KeepsKey now b) db.states,
)
