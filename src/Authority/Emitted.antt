-- ===== src/Authority/Emitted.antt =====
-- What insertOutbox of internal/authority/postgres/store.go leaves in the outbox.
use snagline.Prelude.{
  ℕ, String, ◌≡◌, refl, false, List, [], ◌∷◌, arith, Bytes, any, utf8, Bool-cases, inl, inr,
}
use snagline.Tx.{ok}
use snagline.Authority.Request.{CommitCaseRequest, CommitAdviceRequest}
use snagline.Authority.Tables.{
  CaseRow, OutboxRow, Db, FactKind, case_fact, advice_fact, domain_dispatch, edge_delivery,
}
use snagline.Authority.Sql.{
  Work, OutboxDestination, outbox_row, outbox_conflict, insert_outbox, edge_key, allocate_revision,
  allocate_delivery_sequence, insert_edge_delivery, record_audit,
}
use snagline.Authority.Cases.{insert_case, write_case}
use snagline.Authority.Advice.{insert_advice, write_advice}
use snagline.Authority.Outbox.{has_id}
use snagline.Authority.Written.{case_state, advice_state}

-- No two rows have one identifier.
abbrev pub HasUniqueIds : List OutboxRow → Type 0
HasUniqueIds [] = Unit {0}
HasUniqueIds (row ∷ rows) = (any (has_id row.outbox_id) rows ≡ false) × HasUniqueIds rows

abbrev pub outbox_after :
    (Bytes → String)
    → ℕ
    → String
    → FactKind
    → String
    → Bytes
    → ℕ
    → List OutboxDestination
    → List OutboxRow
    → List OutboxRow
outbox_after sha now tenant kind entity raw revision [] rows = rows
outbox_after sha now tenant kind entity raw revision (d ∷ rest) rows =
    outbox_after sha now tenant kind entity raw revision rest
      (outbox_row sha now tenant kind entity raw revision d ∷ rows)

-- The outbox rows of one fact, written behind those that stood there.
pub record EmittedBy (sha : Bytes → String) (now : ℕ) (tenant : String) (kind : FactKind)
    (entity : String) (raw : Bytes) (revision : ℕ) (destinations : List OutboxDestination)
    (db db' : Db) : Type 0 where
  pub outbox :
      db'.outbox ≡ outbox_after sha now tenant kind entity raw revision destinations db.outbox
  pub audit : db'.audit ≡ db.audit
  pub unique : HasUniqueIds db.outbox → HasUniqueIds db'.outbox

no_conflict_unique :
    (new : OutboxRow) (rows : List OutboxRow)
    → any (outbox_conflict new) rows ≡ false
    → any (has_id new.outbox_id) rows ≡ false
unfolding any
no_conflict_unique new [] h = refl
no_conflict_unique new (row ∷ rows) h = ground (arith, no_conflict_unique new rows)

module _ (sha : Bytes → String) (now : ℕ) (tenant : String) (kind : FactKind) (entity : String)
    (raw : Bytes) (revision : ℕ) where
  abbrev pushed : OutboxDestination → Db → Db
  pushed d db = record db {
    outbox = outbox_row sha now tenant kind entity raw revision d ∷ db.outbox;
  }

  pub insert_outbox-EmittedBy :
      (destinations : List OutboxDestination) (db db' : Db)
      → insert_outbox sha now tenant kind entity raw revision destinations db ≡ ok (tt, db')
      → EmittedBy sha now tenant kind entity raw revision destinations db db'
  unfolding insert_outbox
  insert_outbox-EmittedBy [] db db' h = record {
    outbox = ground arith;
    audit = ground arith;
    unique = λ u. let e : db' ≡ db = ground arith in rw e u;
  }
  insert_outbox-EmittedBy (d ∷ rest) db db' h =
      elim (Bool-cases
        (any (outbox_conflict (outbox_row sha now tenant kind entity raw revision d)) db.outbox)) [
          | inl clash ↦ absurd (ground arith)
          | inr free ↦
              (let more = insert_outbox-EmittedBy rest (pushed d db) db' (ground arith) in
                record {
                  outbox = more.outbox;
                  audit = more.audit;
                  unique = λ u. more.unique (
                    no_conflict_unique (outbox_row sha now tenant kind entity raw revision d)
                        db.outbox free,
                    u,
                  );
                })
        ]

abbrev pub case_destinations : CommitCaseRequest → List OutboxDestination
case_destinations r =
    (domain_dispatch, utf8 r.domain)
    ∷ (edge_delivery, edge_key r.issuer_edge_id r.issuer_edge_generation)
    ∷ []

abbrev pub advice_destinations : CaseRow → List OutboxDestination
advice_destinations target =
    (edge_delivery, edge_key target.issuer_edge_id target.issuer_edge_generation) ∷ []

abbrev pub CaseEmitted : (Bytes → String) → ℕ → CommitCaseRequest → Db → Db → Type 0
CaseEmitted sha now r db db' =
    EmittedBy sha now r.tenant_id case_fact r.case_id r.raw db.next_revision (case_destinations r)
      (case_state r db) db'

abbrev pub AdviceEmitted : (Bytes → String) → ℕ → CommitAdviceRequest → CaseRow → Db → Db → Type 0
AdviceEmitted sha now r target db db' =
    EmittedBy sha now r.tenant_id advice_fact r.case_id r.raw db.next_revision
      (advice_destinations target) (advice_state r target db) db'

pub write_case-CaseEmitted :
    (sha : Bytes → String) (authority_id : String) (now : ℕ) (r : CommitCaseRequest) (db db' : Db)
    (w : Work)
    → write_case sha authority_id now r db ≡ ok (w, db')
    → CaseEmitted sha now r db db'
unfolding write_case insert_case insert_edge_delivery record_audit allocate_revision
    allocate_delivery_sequence
write_case-CaseEmitted sha authority_id now r db db' w h =
    insert_outbox-EmittedBy sha now r.tenant_id case_fact r.case_id r.raw db.next_revision
      (case_destinations r) (case_state r db) db' (ground arith)

pub write_advice-AdviceEmitted :
    (sha : Bytes → String) (authority_id : String) (now : ℕ) (r : CommitAdviceRequest)
    (target : CaseRow) (db db' : Db) (w : Work)
    → write_advice sha authority_id now r target db ≡ ok (w, db')
    → AdviceEmitted sha now r target db db'
unfolding write_advice insert_advice insert_edge_delivery record_audit allocate_revision
    allocate_delivery_sequence
write_advice-AdviceEmitted sha authority_id now r target db db' w h =
    insert_outbox-EmittedBy sha now r.tenant_id advice_fact r.case_id r.raw db.next_revision
      (advice_destinations target) (advice_state r target db) db' (ground arith)
