-- ===== src/Edge/Cursor.antt =====
-- The delivery cursor of internal/sspedge/store.go: deliveryStateTx, requireReconciliationTx,
-- haltAndCommitTx, advanceDeliveryStateTx and the operations on it.
use snagline.Prelude.{
  ℕ, String, Bool, true, false, not, ◌&&◌, ◌||◌, Option, none, some, List, [], ◌∷◌, ◌==◌, eqb, ltb,
  if◌then◌else◌, find, any, update_where,
}
use snagline.Tx.{Tx, pure, fail, ◌>>◌}
use snagline.Edge.Tables.{
  StoreError, ApplyOutcome, DeliveryMode, active, reconciliation_required, EdgeIdentity, StateRow,
  EdgeDb, is_state, constraint_failed, invalid_edge_identity, invalid_requirement,
  invalid_completion, not_contiguous,
}
use snagline.Edge.Validate.{valid_identity}

-- The SQL MAX, and the larger of two watermarks.
unfoldable pub max : ℕ → ℕ → ℕ
max a b = if ltb a b then b else a

-- deliveryStateTx
unfoldable pub delivery_state_row : EdgeIdentity → EdgeDb → Option StateRow
delivery_state_row id db = find (is_state id) db.states

-- The state that a generation without a row has.
unfoldable pub new_state : EdgeIdentity → StateRow
new_state id = record {
  tenant_id = id.tenant_id;
  edge_id = id.edge_id;
  edge_generation = id.generation;
  last_contiguous_seq = 0;
  high_watermark = 0;
  mode = active;
  reason = "";
  updated_at = 0;
}

abbrev pub or_new : EdgeIdentity → Option StateRow → StateRow
or_new id none = new_state id
or_new id (some row) = row

-- `state` of applyVerified
unfoldable pub current_state : EdgeIdentity → EdgeDb → StateRow
current_state id db = or_new id (delivery_state_row id db)

-- INSERT … ON CONFLICT DO UPDATE
unfoldable pub upsert_state :
    EdgeIdentity → StateRow → (StateRow → StateRow) → List StateRow → List StateRow
upsert_state id new change [] = new ∷ []
upsert_state id new change (row ∷ rows) =
    if is_state id row then change row ∷ rows else row ∷ upsert_state id new change rows

unfoldable pub halted_row : ℕ → String → ℕ → StateRow → StateRow
halted_row high reason now row = record row {
  high_watermark = max row.high_watermark high;
  mode = reconciliation_required;
  reason = reason;
  updated_at = now;
}

-- requireReconciliationTx, with the state that the caller has read
unfoldable pub require_reconciliation_tx :
    EdgeIdentity → ℕ → String → ℕ → Tx EdgeDb StoreError (Unit {0})
require_reconciliation_tx id observed reason now db =
    let state = current_state id db in
    let high = max state.high_watermark observed in
    pure tt (record db {
      states =
          upsert_state id
            (record state {
              high_watermark = high;
              mode = reconciliation_required;
              reason = reason;
              updated_at = now;
            })
            (halted_row high reason now) db.states;
    })

unfoldable pub halt_and_commit_tx :
    EdgeIdentity → ℕ → String → ℕ → ApplyOutcome → Tx EdgeDb StoreError ApplyOutcome
halt_and_commit_tx id observed reason now outcome =
    require_reconciliation_tx id observed reason now >> pure outcome

unfoldable pub advanced_row : ℕ → ℕ → StateRow → StateRow
advanced_row seq now row = record row {
  last_contiguous_seq = seq;
  high_watermark = max row.high_watermark seq;
  updated_at = now;
}

unfoldable pub first_row : EdgeIdentity → ℕ → ℕ → StateRow
first_row id seq now = record (new_state id) {
  last_contiguous_seq = seq;
  high_watermark = seq;
  updated_at = now;
}

-- The INSERT of a row whose primary key is taken fails.
unfoldable pub insert_state : EdgeIdentity → ℕ → ℕ → Tx EdgeDb StoreError (Unit {0})
insert_state id seq now db = elim (delivery_state_row id db) [
  | some row ↦ fail constraint_failed db
  | none ↦ pure tt (record db { states = first_row id seq now ∷ db.states })
]

unfoldable pub update_state : EdgeIdentity → ℕ → ℕ → Tx EdgeDb StoreError (Unit {0})
update_state id seq now db =
    pure tt (record db { states = update_where (is_state id) (advanced_row seq now) db.states })

-- `exists` is what the caller has read.
unfoldable pub advance_delivery_state_tx :
    EdgeIdentity → Bool → ℕ → ℕ → Tx EdgeDb StoreError (Unit {0})
advance_delivery_state_tx id exists seq now =
    if exists then update_state id seq now else insert_state id seq now

unfoldable pub require_reconciliation :
    EdgeIdentity → ℕ → String → ℕ → Tx EdgeDb StoreError (Unit {0})
require_reconciliation id observed reason now =
    if not (valid_identity id)
    then fail invalid_edge_identity
    else if reason == "" || eqb now 0
    then fail invalid_requirement
    else require_reconciliation_tx id observed reason now

-- `DeliveryState`
unfoldable pub delivery_state : EdgeIdentity → Tx EdgeDb StoreError StateRow
delivery_state id db =
    if valid_identity id then pure (current_state id db) db else fail invalid_edge_identity db

unfoldable pub is_required : DeliveryMode → Bool
is_required active = false
is_required reconciliation_required = true

-- the WHERE clause of CompleteReconciliation
unfoldable pub completes : EdgeIdentity → ℕ → ℕ → StateRow → Bool
unfolding is_required
completes id complete_through high row =
    is_state id row
    && (is_required row.mode
        && (eqb row.last_contiguous_seq complete_through && eqb row.high_watermark high))

unfoldable pub resumed_row : ℕ → StateRow → StateRow
resumed_row now row = record row { mode = active; reason = ""; updated_at = now }

unfoldable pub complete_reconciliation : EdgeIdentity → ℕ → ℕ → ℕ → Tx EdgeDb StoreError (Unit {0})
complete_reconciliation id complete_through high now db =
    if not (valid_identity id)
    then fail invalid_edge_identity db
    else if not (eqb complete_through high) || eqb now 0
    then fail invalid_completion db
    else if any (completes id complete_through high) db.states
    then pure tt (record db {
      states = update_where (completes id complete_through high) (resumed_row now) db.states;
    })
    else fail not_contiguous db
