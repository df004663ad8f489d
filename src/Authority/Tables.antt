-- ===== src/Authority/Tables.antt =====
-- internal/authority/postgres/migrations: the tables that the store reads and writes. A table is a
-- list of rows, the newest first. Columns that are only written (times of commit) are left out.
use snagline.Prelude.{ℕ, String, Bool, Option, List, Bytes}

pub record CaseRow : Type 0 where
  pub tenant_id : String
  pub case_id : String
  pub envelope_id : String
  pub commitment : String
  pub raw : Bytes
  pub domain : String
  pub issuer_edge_id : String
  pub issuer_edge_generation : ℕ
  pub routing_epoch : ℕ
  pub registry_revision : ℕ
  pub registry_hash : String
  pub expires_at : ℕ
  pub commit_revision : ℕ

pub record AdviceRow : Type 0 where
  pub tenant_id : String
  pub case_id : String
  pub envelope_id : String
  pub case_commitment : String
  pub commitment : String
  pub raw : Bytes
  pub routing_epoch : ℕ
  pub registry_revision : ℕ
  pub registry_hash : String
  pub target_edge_id : String
  pub target_edge_generation : ℕ
  pub delivery_sequence : ℕ
  pub commit_revision : ℕ

pub record SequenceRow : Type 0 where
  pub tenant_id : String
  pub edge_id : String
  pub edge_generation : ℕ
  pub next_sequence : ℕ

pub data FactKind : Type 0 where
  case_fact advice_fact registry_fact : FactKind

pub record DeliveryRow : Type 0 where
  pub tenant_id : String
  pub edge_id : String
  pub edge_generation : ℕ
  pub delivery_sequence : ℕ
  pub delivery_kind : FactKind
  pub case_id : String
  pub envelope_id : String
  pub commitment : String
  pub raw : Bytes
  pub authority_revision : ℕ

pub data HaltReason : Type 0 where
  not_halted predecessor_mismatch same_revision_conflict revision_rollback : HaltReason

pub record HeadRow : Type 0 where
  pub tenant_id : String
  pub latest_revision : ℕ
  pub latest_commitment : String
  pub routing_epoch : ℕ
  pub halted : Bool
  pub halt_reason : HaltReason

pub record HighWaterRow : Type 0 where
  pub tenant_id : String
  pub edge_id : String
  pub principal_id : String
  pub highest_generation : ℕ
  pub last_seen_registry_revision : ℕ

pub record RegistryRow : Type 0 where
  pub tenant_id : String
  pub registry_revision : ℕ
  pub envelope_id : String
  pub commitment : String
  pub raw : Bytes
  pub routing_epoch : ℕ
  pub previous_commitment : Option String
  pub commit_revision : ℕ

pub record AuditRow : Type 0 where
  pub tenant_id : String
  pub entity_kind : FactKind
  pub entity_id : String
  pub commitment : String
  pub authenticated_principal_id : Option String
  pub authenticated_edge_id : Option String
  pub decision : Option String
  pub authority_revision : ℕ

pub data DestinationKind : Type 0 where
  domain_dispatch edge_delivery : DestinationKind

pub record OutboxLease : Type 0 where
  pub owner : String
  pub token : String
  pub lease_until : ℕ

-- The three lease columns are set together or not at all, which a CHECK demands.
pub record OutboxRow : Type 0 where
  pub outbox_id : String
  pub tenant_id : String
  pub event_kind : FactKind
  pub entity_id : String
  pub destination_kind : DestinationKind
  pub destination_key : Bytes
  pub raw : Bytes
  pub authority_revision : ℕ
  pub created_at : ℕ
  pub attempts : ℕ
  pub next_attempt_at : ℕ
  pub lease : Option OutboxLease
  pub last_error : String
  pub poisoned_at : Option ℕ
  pub published_at : Option ℕ

-- `next_revision` is the identity column of `authority_revisions`.
pub record Db : Type 0 where
  pub next_revision : ℕ
  pub cases : List CaseRow
  pub advice : List AdviceRow
  pub sequences : List SequenceRow
  pub deliveries : List DeliveryRow
  pub heads : List HeadRow
  pub high_water : List HighWaterRow
  pub registries : List RegistryRow
  pub audit : List AuditRow
  pub outbox : List OutboxRow
