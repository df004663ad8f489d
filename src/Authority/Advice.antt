-- ===== src/Authority/Advice.antt =====
-- CommitAdvice of internal/authority/postgres/store.go.
use snagline.Prelude.{
  ℕ, String, Bool, true, false, ◌&&◌, ◌||◌, Option, none, some, [], ◌∷◌, ◌==◌, eqb, if◌then◌else◌,
  Bytes, bytes_equal, find, any,
}
use snagline.Tx.{Result, ok, err, Tx, ◌>>=◌, ◌>>◌, pure, fail}
use snagline.Authority.Request.{Error, CommitReceipt, CommitAdviceRequest}
use snagline.Authority.Tables.{
  CaseRow, AdviceRow, DeliveryRow, HeadRow, AuditRow, Db, advice_fact, edge_delivery,
}
use snagline.Authority.Sql.{
  Work, receipt, with_authority, allocate_revision, allocate_delivery_sequence,
  insert_edge_delivery, audit_row, record_audit, edge_key, insert_outbox, registry_head,
}
use snagline.Authority.Cases.{find_case}

abbrev pub is_advice : String → String → AdviceRow → Bool
is_advice tenant case_id row = row.tenant_id == tenant && row.case_id == case_id

unfoldable pub find_advice : String → String → Db → Option AdviceRow
find_advice tenant case_id db = find (is_advice tenant case_id) db.advice

-- `exact` of existingAdvice
unfoldable pub same_advice : AdviceRow → CommitAdviceRequest → Bool
same_advice row r =
    row.envelope_id == r.envelope_id
    && (row.case_commitment == r.case_commitment
        && (row.commitment == r.commitment
            && (bytes_equal row.raw r.raw
                && (eqb row.routing_epoch r.routing_epoch
                    && (eqb row.registry_revision r.registry_revision
                        && row.registry_hash == r.registry_hash)))))

pub data ExistingAdvice : Type 0 where
  no_advice already_set : ExistingAdvice
  same_receipt : CommitReceipt → ExistingAdvice

unfoldable pub existing_advice : CommitAdviceRequest → Db → ExistingAdvice
existing_advice r db = elim (find_advice r.tenant_id r.case_id db) [
  | none ↦ no_advice
  | some row ↦
      if same_advice row r
      then same_receipt (receipt "" row.commit_revision row.envelope_id row.commitment)
      else already_set
]

unfoldable pub advice_collision : CommitAdviceRequest → Db → Bool
advice_collision r db =
    any
      (λ (row : AdviceRow).
        row.tenant_id == r.tenant_id
        && (row.envelope_id == r.envelope_id || row.commitment == r.commitment))
      db.advice

-- The advice names the commitment, epoch and registry of its committed case.
unfoldable pub binds_case : CommitAdviceRequest → CaseRow → Bool
binds_case r row =
    r.case_commitment == row.commitment
    && (eqb r.routing_epoch row.routing_epoch
        && (eqb r.registry_revision row.registry_revision && r.registry_hash == row.registry_hash))

unfoldable pub advice_row : CommitAdviceRequest → CaseRow → ℕ → ℕ → AdviceRow
advice_row r target sequence revision = record {
  tenant_id = r.tenant_id;
  case_id = r.case_id;
  envelope_id = r.envelope_id;
  case_commitment = r.case_commitment;
  commitment = r.commitment;
  raw = r.raw;
  routing_epoch = r.routing_epoch;
  registry_revision = r.registry_revision;
  registry_hash = r.registry_hash;
  target_edge_id = target.issuer_edge_id;
  target_edge_generation = target.issuer_edge_generation;
  delivery_sequence = sequence;
  commit_revision = revision;
}

-- The primary key and the two UNIQUE constraints; a violation asks for a retry.
unfoldable pub insert_advice : CommitAdviceRequest → AdviceRow → Tx Db Error (Unit {0})
insert_advice r row db =
    elim (any (is_advice r.tenant_id r.case_id) db.advice || advice_collision r db) [
      | true ↦ fail Error.retry_transaction db
      | false ↦ pure tt (record db { advice = row ∷ db.advice })
    ]

abbrev pub advice_delivery : CommitAdviceRequest → CaseRow → ℕ → ℕ → DeliveryRow
advice_delivery r target sequence revision = record {
  tenant_id = r.tenant_id;
  edge_id = target.issuer_edge_id;
  edge_generation = target.issuer_edge_generation;
  delivery_sequence = sequence;
  delivery_kind = advice_fact;
  case_id = r.case_id;
  envelope_id = r.envelope_id;
  commitment = r.commitment;
  raw = r.raw;
  authority_revision = revision;
}

-- A live head must be there; then an advice that is set already refuses any other.
unfoldable pub advice_head : ExistingAdvice → Option HeadRow → Result Error (Unit {0})
advice_head existing none = err Error.registry_not_found
advice_head existing (some head) =
    if head.halted
    then err Error.registry_halted
    else elim existing [ already_set ↦ err Error.final_advice_already_set | _ ↦ ok tt ]

abbrev pub advice_audit : CommitAdviceRequest → ℕ → AuditRow
advice_audit r revision =
    audit_row r.tenant_id advice_fact r.case_id r.commitment r.authenticated_principal_id
      r.authenticated_edge_id r.decision revision

module _ (sha : Bytes → String) (authority_id : String) (now : ℕ) where
  -- the writes of the body, from allocateDeliverySequence on
  unfoldable pub write_advice : CommitAdviceRequest → CaseRow → Tx Db Error Work
  write_advice r target = do
    sequence ←
        allocate_delivery_sequence r.tenant_id target.issuer_edge_id target.issuer_edge_generation
    revision ← allocate_revision
    insert_advice r (advice_row r target sequence revision)
    insert_edge_delivery (advice_delivery r target sequence revision)
    record_audit (advice_audit r revision)
    insert_outbox sha now r.tenant_id advice_fact r.case_id r.raw revision
        ((edge_delivery, edge_key target.issuer_edge_id target.issuer_edge_generation) ∷ [])
    pure (receipt authority_id revision r.envelope_id r.commitment, true, none)

  unfoldable pub bound_advice : CommitAdviceRequest → CaseRow → Tx Db Error Work
  bound_advice r target db = elim (binds_case r target) [
    | false ↦ fail Error.case_binding db
    | true ↦ (elim (advice_collision r db) [
      | true ↦ fail Error.final_advice_already_set db
      | false ↦ write_advice r target db
    ])
  ]

  unfoldable pub target_advice : CommitAdviceRequest → Tx Db Error Work
  target_advice r db = elim (find_case r.tenant_id r.case_id db) [
    | none ↦ fail Error.case_not_found db
    | some target ↦ bound_advice r target db
  ]

  unfoldable pub admit_advice : ExistingAdvice → CommitAdviceRequest → Tx Db Error Work
  admit_advice existing r db = elim (advice_head existing (registry_head r.tenant_id db)) [
    | err e ↦ fail e db
    | ok _ ↦ target_advice r db
  ]

  -- the body that CommitAdvice hands to `transaction`
  unfoldable pub advice_work : CommitAdviceRequest → Tx Db Error Work
  advice_work r db = elim (existing_advice r db) [
    | same_receipt found ↦ pure (with_authority authority_id found, false, none) db
    | other ↦ admit_advice other r db
  ]
