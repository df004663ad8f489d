-- ===== src/Authority/Sql.antt =====
-- internal/authority/postgres/store.go: the queries and writes that the commits share.
-- `sha` stands for crypto/sha256 with hexadecimal output.
use Prim.Native.String.{◌++◌ as str_append}
use snagline.Prelude.{
  ℕ, suc, String, Bool, true, false, ◌&&◌, ◌||◌, Option, none, some, List, [], ◌∷◌, ◌++◌, ◌==◌, eqb,
  if◌then◌else◌, length, Bytes, bytes_equal, find, any, update_where, decimal, utf8,
}
use snagline.Tx.{Tx, pure, fail, gets}
use snagline.Authority.Request.{Error, CommitReceipt}
use snagline.Authority.Tables.{
  SequenceRow, DeliveryRow, HeadRow, AuditRow, OutboxRow, Db, FactKind, case_fact, advice_fact,
  registry_fact, DestinationKind, domain_dispatch, edge_delivery, HaltReason,
}

-- (receipt, whether the body asks to commit, its error)
abbrev pub Work : Type 0
Work = CommitReceipt × Bool × Option Error

abbrev pub zero_receipt : CommitReceipt
zero_receipt = record { authority_id = ""; revision = 0; envelope_id = ""; commitment = "" }

unfoldable pub receipt : String → ℕ → String → String → CommitReceipt
receipt authority_id revision envelope_id commitment = record {
  authority_id = authority_id;
  revision = revision;
  envelope_id = envelope_id;
  commitment = commitment;
}

unfoldable pub with_authority : String → CommitReceipt → CommitReceipt
with_authority authority_id r =
    if eqb r.revision 0 then r else record r { authority_id = authority_id }

unfoldable pub nullable_text : String → Option String
nullable_text value = if value == "" then none else some value

-- COALESCE(value, '')
unfoldable pub coalesce : Option String → String
coalesce none = ""
coalesce (some value) = value

unfoldable pub allocate_revision : Tx Db Error ℕ
allocate_revision db = pure db.next_revision (record db { next_revision = suc db.next_revision })

abbrev pub is_route : String → String → ℕ → SequenceRow → Bool
is_route tenant edge generation row =
    row.tenant_id == tenant && (row.edge_id == edge && eqb row.edge_generation generation)

-- The next sequence of a route; 1 where the table has no row for it.
unfoldable pub next_sequence : String → String → ℕ → List SequenceRow → ℕ
unfolding find
next_sequence tenant edge generation rows = elim (find (is_route tenant edge generation) rows) [
  | none ↦ 1
  | some row ↦ row.next_sequence
]

-- INSERT … ON CONFLICT DO UPDATE
unfoldable pub bump_sequence : String → String → ℕ → List SequenceRow → List SequenceRow
bump_sequence tenant edge generation [] =
    record { tenant_id = tenant; edge_id = edge; edge_generation = generation; next_sequence = 2 }
    ∷ []
bump_sequence tenant edge generation (row ∷ rows) =
    if is_route tenant edge generation row
    then record row { next_sequence = suc row.next_sequence } ∷ rows
    else row ∷ bump_sequence tenant edge generation rows

unfoldable pub allocate_delivery_sequence : String → String → ℕ → Tx Db Error ℕ
allocate_delivery_sequence tenant edge generation db =
    pure (next_sequence tenant edge generation db.sequences)
      (record db { sequences = bump_sequence tenant edge generation db.sequences })

-- the primary key and UNIQUE (tenant_id, envelope_id) of authority_edge_deliveries
abbrev pub delivery_conflict : DeliveryRow → DeliveryRow → Bool
delivery_conflict new row =
    row.tenant_id == new.tenant_id
    && (row.envelope_id == new.envelope_id
        || row.edge_id == new.edge_id
          && (eqb row.edge_generation new.edge_generation
              && eqb row.delivery_sequence new.delivery_sequence))

unfoldable pub insert_edge_delivery : DeliveryRow → Tx Db Error (Unit {0})
insert_edge_delivery row db = elim (any (delivery_conflict row) db.deliveries) [
  | true ↦ fail Error.write_refused db
  | false ↦ pure tt (record db { deliveries = row ∷ db.deliveries })
]

abbrev pub audit_row : String → FactKind → String → String → String → String → String → ℕ → AuditRow
audit_row tenant kind entity commitment principal edge decision revision = record {
  tenant_id = tenant;
  entity_kind = kind;
  entity_id = entity;
  commitment = commitment;
  authenticated_principal_id = nullable_text principal;
  authenticated_edge_id = nullable_text edge;
  decision = nullable_text decision;
  authority_revision = revision;
}

abbrev pub audit_conflict : AuditRow → AuditRow → Bool
audit_conflict new row = eqb row.authority_revision new.authority_revision

-- UNIQUE (authority_revision) of authority_audit
unfoldable pub record_audit : AuditRow → Tx Db Error (Unit {0})
record_audit row db = elim (any (audit_conflict row) db.audit) [
  | true ↦ fail Error.write_refused db
  | false ↦ pure tt (record db { audit = row ∷ db.audit })
]

fact_name : FactKind → String
fact_name case_fact = "case"
fact_name advice_fact = "advice"
fact_name registry_fact = "registry"

destination_name : DestinationKind → String
destination_name domain_dispatch = "domain_dispatch"
destination_name edge_delivery = "edge_delivery"

unfoldable pub edge_key : String → ℕ → Bytes
edge_key edge_id generation = utf8 edge_id ++ (b'@' ∷ decimal generation)

-- Each part is written behind its length and a colon.
unfoldable pub outbox_id_bytes : List Bytes → Bytes
outbox_id_bytes [] = []
outbox_id_bytes (value ∷ rest) = decimal (length value) ++ (b':' ∷ (value ++ outbox_id_bytes rest))

unfoldable pub deterministic_outbox_id : (Bytes → String) → List Bytes → String
deterministic_outbox_id sha parts = str_append "sha256:" (sha (outbox_id_bytes parts))

abbrev pub OutboxDestination : Type 0
OutboxDestination = DestinationKind × Bytes

unfoldable pub outbox_row :
    (Bytes → String) → ℕ → String → FactKind → String → Bytes → ℕ → OutboxDestination → OutboxRow
unfolding fact_name destination_name
outbox_row sha now tenant kind entity raw revision (destination, key) = record {
  outbox_id = deterministic_outbox_id sha (
      utf8 tenant
      ∷ utf8 (fact_name kind)
      ∷ utf8 entity
      ∷ decimal revision
      ∷ utf8 (destination_name destination)
      ∷ key
      ∷ []);
  tenant_id = tenant;
  event_kind = kind;
  entity_id = entity;
  destination_kind = destination;
  destination_key = key;
  raw = raw;
  authority_revision = revision;
  created_at = now;
  attempts = 0;
  next_attempt_at = now;
  lease = none;
  last_error = "";
  poisoned_at = none;
  published_at = none;
}

abbrev same_destination : DestinationKind → DestinationKind → Bool
same_destination domain_dispatch domain_dispatch = true
same_destination edge_delivery edge_delivery = true
same_destination _ _ = false

-- the primary key and the UNIQUE of authority_outbox
abbrev pub outbox_conflict : OutboxRow → OutboxRow → Bool
outbox_conflict new row =
    row.outbox_id == new.outbox_id
    || row.tenant_id == new.tenant_id
      && (eqb row.authority_revision new.authority_revision
          && (same_destination row.destination_kind new.destination_kind
              && bytes_equal row.destination_key new.destination_key))

unfoldable pub insert_outbox :
    (Bytes → String)
    → ℕ
    → String
    → FactKind
    → String
    → Bytes
    → ℕ
    → List OutboxDestination
    → Tx Db Error (Unit {0})
insert_outbox sha now tenant kind entity raw revision [] db = pure tt db
insert_outbox sha now tenant kind entity raw revision (destination ∷ rest) db =
    let row = outbox_row sha now tenant kind entity raw revision destination in
    let more =
      insert_outbox sha now tenant kind entity raw revision rest
        (record db { outbox = row ∷ db.outbox }) in
    if any (outbox_conflict row) db.outbox then fail Error.write_refused db else more

abbrev pub head_of : String → HeadRow → Bool
head_of tenant row = row.tenant_id == tenant

unfoldable pub registry_head : String → Db → Option HeadRow
registry_head tenant db = find (head_of tenant) db.heads

unfoldable pub registry_head_for_update : String → Tx Db Error (Option HeadRow)
unfolding registry_head
registry_head_for_update tenant = gets (registry_head tenant)

-- RowsAffected is 0 where the tenant has no head.
unfoldable pub halt_registry_head : String → HaltReason → Tx Db Error (Unit {0})
halt_registry_head tenant reason db = elim (any (head_of tenant) db.heads) [
  | true ↦ pure tt (record db {
    heads =
        update_where (head_of tenant)
          (λ (row : HeadRow). record row { halted = true; halt_reason = reason }) db.heads;
  })
  | false ↦ fail Error.head_disappeared db
]
