-- ===== src/Authority/Cases.antt =====
-- CommitCase of internal/authority/postgres/store.go.
use snagline.Prelude.{
  ℕ, String, Bool, true, false, ◌&&◌, ◌||◌, Option, none, some, [], ◌∷◌, ◌==◌, eqb, if◌then◌else◌,
  Bytes, bytes_equal, find, any, utf8,
}
use snagline.Tx.{Result, ok, err, Tx, ◌>>=◌, ◌>>◌, pure, fail}
use snagline.Authority.Request.{Error, CommitReceipt, CommitCaseRequest}
use snagline.Authority.Tables.{
  CaseRow, DeliveryRow, HeadRow, AuditRow, Db, case_fact, domain_dispatch, edge_delivery,
}
use snagline.Authority.Sql.{
  Work, receipt, with_authority, allocate_revision, allocate_delivery_sequence,
  insert_edge_delivery, audit_row, record_audit, edge_key, insert_outbox, registry_head,
}

abbrev pub is_case : String → String → CaseRow → Bool
is_case tenant case_id row = row.tenant_id == tenant && row.case_id == case_id

unfoldable pub find_case : String → String → Db → Option CaseRow
find_case tenant case_id db = find (is_case tenant case_id) db.cases

-- `exact` of existingCase
unfoldable pub same_case : CaseRow → CommitCaseRequest → Bool
same_case row r =
    row.envelope_id == r.envelope_id
    && (row.commitment == r.commitment
        && (bytes_equal row.raw r.raw
            && (row.domain == r.domain
                && (row.issuer_edge_id == r.issuer_edge_id
                    && (eqb row.issuer_edge_generation r.issuer_edge_generation
                        && (eqb row.routing_epoch r.routing_epoch
                            && (eqb row.registry_revision r.registry_revision
                                && (row.registry_hash == r.registry_hash
                                    && eqb row.expires_at r.expires_at))))))))

unfoldable pub existing_case : CommitCaseRequest → Tx Db Error (Option CommitReceipt)
existing_case r db = elim (find_case r.tenant_id r.case_id db) [
  | none ↦ pure none db
  | some row ↦
      if same_case row r
      then pure (some (receipt "" row.commit_revision row.envelope_id row.commitment)) db
      else fail Error.conflicting_case db
]

unfoldable pub case_collision : CommitCaseRequest → Db → Bool
case_collision r db =
    any
      (λ (row : CaseRow).
        row.tenant_id == r.tenant_id
        && (row.envelope_id == r.envelope_id || row.commitment == r.commitment))
      db.cases

unfoldable pub case_row : CommitCaseRequest → ℕ → CaseRow
case_row r revision = record {
  tenant_id = r.tenant_id;
  case_id = r.case_id;
  envelope_id = r.envelope_id;
  commitment = r.commitment;
  raw = r.raw;
  domain = r.domain;
  issuer_edge_id = r.issuer_edge_id;
  issuer_edge_generation = r.issuer_edge_generation;
  routing_epoch = r.routing_epoch;
  registry_revision = r.registry_revision;
  registry_hash = r.registry_hash;
  expires_at = r.expires_at;
  commit_revision = revision;
}

-- The primary key and the two UNIQUE constraints; a violation asks for a retry.
unfoldable pub insert_case : CommitCaseRequest → ℕ → Tx Db Error (Unit {0})
insert_case r revision db =
    elim (any (is_case r.tenant_id r.case_id) db.cases || case_collision r db) [
      | true ↦ fail Error.retry_transaction db
      | false ↦ pure tt (record db { cases = case_row r revision ∷ db.cases })
    ]

-- The head that a case may bind: live, and at the revision, commitment and epoch of the request.
unfoldable pub bind_registry : CommitCaseRequest → Option HeadRow → Result Error (Unit {0})
bind_registry r none = err Error.registry_not_found
bind_registry r (some head) =
    if head.halted
    then err Error.registry_halted
    else if eqb head.latest_revision r.registry_revision
        && (head.latest_commitment == r.registry_hash && eqb head.routing_epoch r.routing_epoch)
    then ok tt
    else err Error.registry_binding

abbrev pub case_delivery : CommitCaseRequest → ℕ → ℕ → DeliveryRow
case_delivery r sequence revision = record {
  tenant_id = r.tenant_id;
  edge_id = r.issuer_edge_id;
  edge_generation = r.issuer_edge_generation;
  delivery_sequence = sequence;
  delivery_kind = case_fact;
  case_id = r.case_id;
  envelope_id = r.envelope_id;
  commitment = r.commitment;
  raw = r.raw;
  authority_revision = revision;
}

abbrev pub case_audit : CommitCaseRequest → ℕ → AuditRow
case_audit r revision =
    audit_row r.tenant_id case_fact r.case_id r.commitment r.authenticated_principal_id
      r.authenticated_edge_id r.decision revision

module _ (sha : Bytes → String) (authority_id : String) (now : ℕ) where
  -- the writes of the body, from allocateRevision on
  unfoldable pub write_case : CommitCaseRequest → Tx Db Error Work
  write_case r = do
    revision ← allocate_revision
    insert_case r revision
    sequence ← allocate_delivery_sequence r.tenant_id r.issuer_edge_id r.issuer_edge_generation
    insert_edge_delivery (case_delivery r sequence revision)
    record_audit (case_audit r revision)
    insert_outbox sha now r.tenant_id case_fact r.case_id r.raw revision (
        (domain_dispatch, utf8 r.domain)
        ∷ (edge_delivery, edge_key r.issuer_edge_id r.issuer_edge_generation)
        ∷ [])
    pure (receipt authority_id revision r.envelope_id r.commitment, true, none)

  unfoldable pub admit_case : CommitCaseRequest → Tx Db Error Work
  admit_case r db = elim (bind_registry r (registry_head r.tenant_id db)) [
    | err e ↦ fail e db
    | ok _ ↦ (elim (case_collision r db) [
      | true ↦ fail Error.conflicting_case db
      | false ↦ write_case r db
    ])
  ]

  -- the body that CommitCase hands to `transaction`
  unfoldable pub case_work : CommitCaseRequest → Tx Db Error Work
  case_work r db = elim (existing_case r db) [
    | err e ↦ err e
    | ok (some found, db') ↦ pure (with_authority authority_id found, false, none) db'
    | ok (none, db') ↦ admit_case r db'
  ]
