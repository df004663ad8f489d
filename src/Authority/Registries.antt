-- ===== src/Authority/Registries.antt =====
-- CommitRegistry of internal/authority/postgres/store.go.
use snagline.Prelude.{
  ℕ, suc, String, Bool, true, false, ◌&&◌, ◌||◌, Option, none, some, List, [], ◌∷◌, ◌==◌, eqb, ltb,
  if◌then◌else◌, bytes_equal, find, any, update_where,
}
use snagline.Tx.{Result, ok, err, Tx, ◌>>=◌, ◌>>◌, pure, fail}
use snagline.Authority.Request.{Error, CommitReceipt, CommitRegistryRequest, RegistryEdge}
use snagline.Authority.Tables.{
  HeadRow, HighWaterRow, RegistryRow, AuditRow, Db, registry_fact, HaltReason, not_halted,
}
use snagline.Authority.Sql.{
  Work, zero_receipt, receipt, with_authority, nullable_text, coalesce, allocate_revision,
  audit_row, record_audit, head_of, registry_head, halt_registry_head,
}

abbrev pub is_registry : String → ℕ → RegistryRow → Bool
is_registry tenant revision row = row.tenant_id == tenant && eqb row.registry_revision revision

unfoldable pub find_registry : String → ℕ → Db → Option RegistryRow
find_registry tenant revision db = find (is_registry tenant revision) db.registries

-- `exact` of existingRegistry
unfoldable pub same_registry : RegistryRow → CommitRegistryRequest → Bool
same_registry row r =
    row.envelope_id == r.envelope_id
    && (row.commitment == r.commitment
        && (bytes_equal row.raw r.raw
            && (eqb row.routing_epoch r.routing_epoch
                && coalesce row.previous_commitment == r.previous_commitment)))

-- `none` where the recorded registry differs
unfoldable pub existing_registry : CommitRegistryRequest → Db → Result Error (Option CommitReceipt)
existing_registry r db = elim (find_registry r.tenant_id r.revision db) [
  | none ↦ err Error.missing_registry_row
  | some row ↦ ok (
      if same_registry row r
      then some (receipt "" row.commit_revision row.envelope_id row.commitment)
      else none)
]

unfoldable pub registry_collision : CommitRegistryRequest → Db → Bool
registry_collision r db =
    any
      (λ (row : RegistryRow).
        row.tenant_id == r.tenant_id
        && (row.envelope_id == r.envelope_id || row.commitment == r.commitment))
      db.registries

abbrev pub is_high_water : String → String → HighWaterRow → Bool
is_high_water tenant edge_id row = row.tenant_id == tenant && row.edge_id == edge_id

unfoldable pub find_high_water : String → String → List HighWaterRow → Option HighWaterRow
find_high_water tenant edge_id rows = find (is_high_water tenant edge_id) rows

-- The row that an edge leaves: INSERT … ON CONFLICT DO UPDATE
unfoldable pub upsert_high_water : HighWaterRow → List HighWaterRow → List HighWaterRow
upsert_high_water new [] = new ∷ []
upsert_high_water new (row ∷ rows) =
    if is_high_water new.tenant_id new.edge_id row
    then new ∷ rows
    else row ∷ upsert_high_water new rows

-- A generation may advance; it may stay only for the same principal, if the registry before this
-- one had the edge.
unfoldable pub generation_allowed : Option HeadRow → RegistryEdge → Option HighWaterRow → Bool
generation_allowed head edge none = true
generation_allowed head edge (some row) =
    if ltb edge.generation row.highest_generation
    then false
    else if eqb edge.generation row.highest_generation
    then (elim head [
      | none ↦ false
      | some h ↦
          eqb row.last_seen_registry_revision h.latest_revision
          && row.principal_id == edge.principal_id
    ])
    else true

unfoldable pub enforce_high_water :
    String
    → ℕ
    → Option HeadRow
    → List (String × RegistryEdge)
    → List HighWaterRow
    → Result Error (List HighWaterRow)
enforce_high_water tenant revision head [] rows = ok rows
enforce_high_water tenant revision head ((edge_id, edge) ∷ rest) rows =
    let more = enforce_high_water tenant revision head rest (
      upsert_high_water
        (record {
          tenant_id = tenant;
          edge_id = edge_id;
          principal_id = edge.principal_id;
          highest_generation = edge.generation;
          last_seen_registry_revision = revision;
        })
        rows) in
    elim (generation_allowed head edge (find_high_water tenant edge_id rows)) [
      | true ↦ more
      | false ↦ err Error.edge_generation_rollback
    ]

unfoldable pub enforce_edge_generation_high_water :
    CommitRegistryRequest → Option HeadRow → Tx Db Error (Unit {0})
enforce_edge_generation_high_water r head db =
    elim (enforce_high_water r.tenant_id r.revision head r.edges db.high_water) [
      | err e ↦ fail e db
      | ok rows ↦ pure tt (record db { high_water = rows })
    ]

unfoldable pub registry_row : CommitRegistryRequest → ℕ → RegistryRow
registry_row r revision = record {
  tenant_id = r.tenant_id;
  registry_revision = r.revision;
  envelope_id = r.envelope_id;
  commitment = r.commitment;
  raw = r.raw;
  routing_epoch = r.routing_epoch;
  previous_commitment = nullable_text r.previous_commitment;
  commit_revision = revision;
}

-- The primary key and the two UNIQUE constraints; a violation asks for a retry.
unfoldable pub insert_registry : CommitRegistryRequest → ℕ → Tx Db Error (Unit {0})
insert_registry r revision db =
    elim (any (is_registry r.tenant_id r.revision) db.registries || registry_collision r db) [
      | true ↦ fail Error.retry_transaction db
      | false ↦ pure tt (record db { registries = registry_row r revision ∷ db.registries })
    ]

abbrev pub new_head : CommitRegistryRequest → HeadRow
new_head r = record {
  tenant_id = r.tenant_id;
  latest_revision = r.revision;
  latest_commitment = r.commitment;
  routing_epoch = r.routing_epoch;
  halted = false;
  halt_reason = not_halted;
}

-- UPDATE where the tenant has a head, INSERT where it has none
abbrev pub moved_head : CommitRegistryRequest → HeadRow → HeadRow
moved_head r row = record row {
  latest_revision = r.revision;
  latest_commitment = r.commitment;
  routing_epoch = r.routing_epoch;
}

unfoldable pub advance_head : CommitRegistryRequest → Option HeadRow → Tx Db Error (Unit {0})
advance_head r none db = elim (any (head_of r.tenant_id) db.heads) [
  | true ↦ fail Error.retry_transaction db
  | false ↦ pure tt (record db { heads = new_head r ∷ db.heads })
]
advance_head r (some _) db =
    pure tt (record db { heads = update_where (head_of r.tenant_id) (moved_head r) db.heads })

-- What the head says of a request, before anything is written.
pub data Verdict : Type 0 where
  reject : Error → Verdict
  halt : HaltReason → Error → Verdict
  replay : CommitReceipt → Verdict
  admit : Verdict

unfoldable pub successor : CommitRegistryRequest → Option HeadRow → Verdict
successor r none = if r.previous_commitment == "" then admit else reject Error.registry_equivocation
successor r (some head) =
    if eqb r.revision (suc head.latest_revision)
    then (if r.previous_commitment == head.latest_commitment
        then admit
        else halt HaltReason.predecessor_mismatch Error.registry_equivocation)
    else reject Error.registry_revision_sequence

unfoldable pub judge : CommitRegistryRequest → Option HeadRow → Db → Verdict
judge r none db = successor r none
judge r (some head) db =
    if head.halted
    then reject Error.registry_halted
    else if ltb r.revision head.latest_revision
    then halt HaltReason.revision_rollback Error.registry_rollback
    else if eqb r.revision head.latest_revision
    then (elim (existing_registry r db) [
      | err e ↦ reject e
      | ok none ↦ halt HaltReason.same_revision_conflict Error.registry_equivocation
      | ok (some found) ↦ replay found
    ])
    else successor r (some head)

abbrev pub registry_audit : CommitRegistryRequest → ℕ → AuditRow
registry_audit r revision =
    audit_row r.tenant_id registry_fact r.envelope_id r.commitment r.authenticated_principal_id
      r.authenticated_edge_id r.decision revision

module _ (authority_id : String) where
  -- the collision test, and the writes of the body from enforceEdgeGenerationHighWater on
  unfoldable pub write_registry : CommitRegistryRequest → Option HeadRow → Tx Db Error Work
  write_registry r head = do
    enforce_edge_generation_high_water r head
    revision ← allocate_revision
    insert_registry r revision
    advance_head r head
    record_audit (registry_audit r revision)
    pure (receipt authority_id revision r.envelope_id r.commitment, true, none)

  unfoldable pub admit_registry : CommitRegistryRequest → Option HeadRow → Tx Db Error Work
  admit_registry r head db = elim (registry_collision r db) [
    | true ↦ fail Error.conflicting_registry db
    | false ↦ write_registry r head db
  ]

  -- the body that CommitRegistry hands to `transaction`; a halt is committed with its error
  unfoldable pub registry_work : CommitRegistryRequest → Tx Db Error Work
  registry_work r db =
      let head = registry_head r.tenant_id db in
      elim (judge r head db) [
        | reject e ↦ fail e db
        | halt reason e ↦
            (do halt_registry_head r.tenant_id reason; pure (zero_receipt, true, some e)) db
        | replay found ↦ pure (with_authority authority_id found, false, none) db
        | admit ↦ admit_registry r head db
      ]
