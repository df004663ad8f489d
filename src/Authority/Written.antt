-- ===== src/Authority/Written.antt =====
-- What the bodies of CommitCase, CommitAdvice and CommitRegistry have done where they succeed.
use snagline.Prelude.{
  ℕ, suc, String, ◌≡◌, true, false, Option, none, some, List, [], ◌∷◌, arith, Bytes, any, utf8,
  update_where,
}
use snagline.Tx.{ok}
use snagline.Authority.Request.{CommitCaseRequest, CommitAdviceRequest, CommitRegistryRequest}
use snagline.Authority.Tables.{
  CaseRow, HeadRow, HighWaterRow, Db, FactKind, case_fact, advice_fact, domain_dispatch,
  edge_delivery,
}
use snagline.Authority.Sql.{
  Work, receipt, next_sequence, bump_sequence, allocate_revision, allocate_delivery_sequence,
  insert_edge_delivery, record_audit, OutboxDestination, outbox_row, insert_outbox, edge_key,
  head_of,
}
use snagline.Authority.Cases.{insert_case, case_row, case_delivery, case_audit, write_case}
use snagline.Authority.Registries.{
  is_registry, moved_head, new_head, enforce_high_water, insert_registry, advance_head,
  registry_row, registry_audit, write_registry, enforce_edge_generation_high_water,
}
use snagline.Authority.Advice.{
  insert_advice, advice_row, advice_delivery, advice_audit, write_advice,
}

-- Equality of every table but the outbox and the audit log.
pub record SameFacts (a b : Db) : Type 0 where
  pub cases : b.cases ≡ a.cases
  pub advice : b.advice ≡ a.advice
  pub sequences : b.sequences ≡ a.sequences
  pub deliveries : b.deliveries ≡ a.deliveries
  pub heads : b.heads ≡ a.heads
  pub high_water : b.high_water ≡ a.high_water
  pub registries : b.registries ≡ a.registries
  pub next_revision : b.next_revision ≡ a.next_revision

pub insert_outbox-SameFacts :
    (sha : Bytes → String) (now : ℕ) (tenant : String) (kind : FactKind) (entity : String)
    (raw : Bytes) (revision : ℕ) (destinations : List OutboxDestination) (db db' : Db)
    → insert_outbox sha now tenant kind entity raw revision destinations db ≡ ok (tt, db')
    → SameFacts db db'
unfolding insert_outbox
insert_outbox-SameFacts sha now tenant kind entity raw revision [] db db' h = ground arith
insert_outbox-SameFacts sha now tenant kind entity raw revision ((d, k) ∷ rest) db db' h = ground (
  arith,
  insert_outbox-SameFacts sha now tenant kind entity raw revision rest
      (record db { outbox = outbox_row sha now tenant kind entity raw revision (d, k) ∷ db.outbox })
      db',
)

-- The tables after CommitCase has admitted `r`, but for the outbox.
abbrev pub case_state : CommitCaseRequest → Db → Db
case_state r db = record db {
  next_revision = suc db.next_revision;
  cases = case_row r db.next_revision ∷ db.cases;
  sequences = bump_sequence r.tenant_id r.issuer_edge_id r.issuer_edge_generation db.sequences;
  deliveries =
      case_delivery r
        (next_sequence r.tenant_id r.issuer_edge_id r.issuer_edge_generation db.sequences)
        db.next_revision
      ∷ db.deliveries;
  audit = case_audit r db.next_revision ∷ db.audit;
}

-- The tables after CommitAdvice has admitted `r` for the case `target`, but for the outbox.
abbrev pub advice_state : CommitAdviceRequest → CaseRow → Db → Db
advice_state r target db =
    let sequence =
      next_sequence r.tenant_id target.issuer_edge_id target.issuer_edge_generation db.sequences in
    record db {
      next_revision = suc db.next_revision;
      advice = advice_row r target sequence db.next_revision ∷ db.advice;
      sequences =
          bump_sequence r.tenant_id target.issuer_edge_id target.issuer_edge_generation
            db.sequences;
      deliveries = advice_delivery r target sequence db.next_revision ∷ db.deliveries;
      audit = advice_audit r db.next_revision ∷ db.audit;
    }

abbrev pub heads_after : CommitRegistryRequest → Option HeadRow → List HeadRow → List HeadRow
heads_after r none heads = new_head r ∷ heads
heads_after r (some _) heads = update_where (head_of r.tenant_id) (moved_head r) heads

-- The tables after CommitRegistry has admitted `r`, where the edges leave `rows`.
abbrev pub registry_state : CommitRegistryRequest → Option HeadRow → List HighWaterRow → Db → Db
registry_state r head rows db = record db {
  next_revision = suc db.next_revision;
  high_water = rows;
  registries = registry_row r db.next_revision ∷ db.registries;
  heads = heads_after r head db.heads;
  audit = registry_audit r db.next_revision ∷ db.audit;
}

module _ (authority_id : String) where
  pub write_case-SameFacts :
      (sha : Bytes → String) (now : ℕ) (r : CommitCaseRequest) (db db' : Db) (w : Work)
      → write_case sha authority_id now r db ≡ ok (w, db')
      → SameFacts (case_state r db) db'
        × (w ≡ (receipt authority_id db.next_revision r.envelope_id r.commitment, true, none))
  unfolding write_case insert_case insert_edge_delivery record_audit allocate_revision
      allocate_delivery_sequence
  write_case-SameFacts sha now r db db' w h = ground (
    arith,
    insert_outbox-SameFacts sha now r.tenant_id case_fact r.case_id r.raw db.next_revision
        ((domain_dispatch, utf8 r.domain)
          ∷ (edge_delivery, edge_key r.issuer_edge_id r.issuer_edge_generation)
          ∷ [])
        (case_state r db) db',
  )

  pub write_advice-SameFacts :
      (sha : Bytes → String) (now : ℕ) (r : CommitAdviceRequest) (target : CaseRow) (db db' : Db)
      (w : Work)
      → write_advice sha authority_id now r target db ≡ ok (w, db')
      → SameFacts (advice_state r target db) db'
        × (w ≡ (receipt authority_id db.next_revision r.envelope_id r.commitment, true, none))
  unfolding write_advice insert_advice insert_edge_delivery record_audit allocate_revision
      allocate_delivery_sequence
  write_advice-SameFacts sha now r target db db' w h = ground (
    arith,
    insert_outbox-SameFacts sha now r.tenant_id advice_fact r.case_id r.raw db.next_revision
        ((edge_delivery, edge_key target.issuer_edge_id target.issuer_edge_generation) ∷ [])
        (advice_state r target db) db',
  )

  pub write_registry-state :
      (r : CommitRegistryRequest) (head : Option HeadRow) (db db' : Db) (w : Work)
      → write_registry authority_id r head db ≡ ok (w, db')
      → (rows : List HighWaterRow) × (enforce_high_water r.tenant_id r.revision head r.edges
            db.high_water
          ≡ ok rows)
        × (any (is_registry r.tenant_id r.revision) db.registries ≡ false)
        × (db' ≡ registry_state r head rows db)
        × (w ≡ (receipt authority_id db.next_revision r.envelope_id r.commitment, true, none))
  unfolding write_registry enforce_edge_generation_high_water insert_registry advance_head
      record_audit allocate_revision
  write_registry-state r none db db' w h =
      (db'.high_water, ground arith, ground arith, ground arith, ground arith)
  write_registry-state r (some head) db db' w h =
      (db'.high_water, ground arith, ground arith, ground arith, ground arith)
