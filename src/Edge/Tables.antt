-- ===== src/Edge/Tables.antt =====
-- internal/sspedge/store.go: the tables of an edge's store, and the values it is called with.
use snagline.Prelude.{ℕ, String, Bool, ◌&&◌, Option, List, ◌==◌, eqb, Bytes}

pub data Verdict : Type 0 where
  verdict_accepted verdict_rejected verdict_quarantined : Verdict

pub data ApplyOutcome : Type 0 where
  apply_accepted apply_rejected apply_quarantined apply_duplicate : ApplyOutcome
  apply_reconciliation_required apply_identity_conflict : ApplyOutcome

pub data DeliveryMode : Type 0 where
  active reconciliation_required : DeliveryMode

-- `state` of an identity, a case or an advice.
pub data FactState : Type 0 where
  fact_accepted fact_quarantined : FactState

pub data FrontState : Type 0 where
  front_pending front_delivering front_delivered front_quarantined : FrontState

pub data StoreError : Type 0 where
  invalid_edge_identity invalid_delivery reason_too_long : StoreError
  invalid_projection invalid_case invalid_advice : StoreError
  case_mismatch advice_mismatch invalid_receipt foreign_tenant : StoreError
  case_required advice_required unknown_family case_absent case_not_bound : StoreError
  constraint_failed invalid_requirement invalid_completion not_contiguous : StoreError
  invalid_front_claim invalid_front_receipt unreadable_advice : StoreError
  message_not_found receipt_mismatch lost_claim : StoreError

pub record EdgeIdentity : Type 0 where
  pub tenant_id : String
  pub edge_id : String
  pub generation : ℕ

pub record JournalDelivery : Type 0 where
  pub stream : String
  pub sequence : ℕ
  pub delivery_seq : ℕ
  pub tenant_id : String
  pub edge_id : String
  pub edge_generation : ℕ
  pub subject : String
  pub raw : Bytes

pub record Case : Type 0 where
  pub case_id : String
  pub issuer_edge_id : String
  pub domain : String
  pub summary : String
  pub context_manifest : String
  pub issuer_edge_generation : ℕ
  pub route_kind : String
  pub route_token : String
  pub source_token : String
  pub routing_epoch : ℕ
  pub registry_revision : ℕ
  pub registry_hash : String
  pub expires_at : ℕ

pub record Advice : Type 0 where
  pub advice_id : String
  pub case_id : String
  pub case_commitment : String
  pub text : String
  pub issuer_edge_id : String
  pub route_kind : String
  pub route_token : String
  pub issuer_edge_generation : ℕ
  pub routing_epoch : ℕ
  pub registry_revision : ℕ
  pub registry_hash : String
  pub expires_at : ℕ

-- `case` and `advice` are nil where there is none; `family` is "case" or "advice".
pub record VerifiedProjection : Type 0 where
  pub envelope_id : String
  pub commitment : String
  pub family : String
  pub case_part : Option Case
  pub advice_part : Option Advice

pub record StateRow : Type 0 where
  pub tenant_id : String
  pub edge_id : String
  pub edge_generation : ℕ
  pub last_contiguous_seq : ℕ
  pub high_watermark : ℕ
  pub mode : DeliveryMode
  pub reason : String
  pub updated_at : ℕ

pub record DeliveryRow : Type 0 where
  pub tenant_id : String
  pub edge_id : String
  pub edge_generation : ℕ
  pub delivery_seq : ℕ
  pub carrier_stream : String
  pub carrier_sequence : ℕ
  pub subject : String
  pub raw_sha256 : String
  pub envelope_id : Option String
  pub family : Option String
  pub verdict : Verdict
  pub reason : String
  pub received_at : ℕ
  pub committed_at : ℕ

pub record IdentityRow : Type 0 where
  pub envelope_id : String
  pub commitment : String
  pub state : FactState
  pub first_delivery_seq : ℕ
  pub first_seen_at : ℕ
  pub conflicting_commitment : Option String
  pub conflicting_delivery_seq : Option ℕ
  pub quarantined_at : Option ℕ

pub record CaseRow : Type 0 where
  pub case_id : String
  pub envelope_id : String
  pub commitment : String
  pub issuer_edge_id : String
  pub issuer_edge_generation : ℕ
  pub route_kind : String
  pub route_token : String
  pub source_token : String
  pub domain : String
  pub routing_epoch : ℕ
  pub registry_revision : ℕ
  pub registry_hash : String
  pub payload_ciphertext : Bytes
  pub expires_at : ℕ
  pub state : FactState

pub record AdviceRow : Type 0 where
  pub advice_id : String
  pub envelope_id : String
  pub case_id : String
  pub case_commitment : String
  pub commitment : String
  pub issuer_edge_id : String
  pub issuer_edge_generation : ℕ
  pub route_kind : String
  pub route_token : String
  pub routing_epoch : ℕ
  pub registry_revision : ℕ
  pub registry_hash : String
  pub text_ciphertext : Bytes
  pub expires_at : ℕ
  pub received_at : ℕ
  pub state : FactState

pub record FrontRow : Type 0 where
  pub front : String
  pub advice_id : String
  pub message_id : String
  pub state : FrontState
  pub created_at : ℕ
  pub lease_owner : Option String
  pub lease_expires_at : Option ℕ
  pub claim_token : Option String
  pub delivery_receipt : Option String
  pub delivered_at : Option ℕ

pub record EdgeDb : Type 0 where
  pub states : List StateRow
  pub deliveries : List DeliveryRow
  pub identities : List IdentityRow
  pub cases : List CaseRow
  pub advice : List AdviceRow
  pub front_outbox : List FrontRow

-- the primary keys of the first two tables
abbrev pub is_state : EdgeIdentity → StateRow → Bool
is_state id row =
    row.tenant_id == id.tenant_id
    && (row.edge_id == id.edge_id && eqb row.edge_generation id.generation)

abbrev pub on_edge : EdgeIdentity → DeliveryRow → Bool
on_edge id row =
    row.tenant_id == id.tenant_id
    && (row.edge_id == id.edge_id && eqb row.edge_generation id.generation)

abbrev pub is_delivery : EdgeIdentity → ℕ → DeliveryRow → Bool
is_delivery id seq row = on_edge id row && eqb row.delivery_seq seq

abbrev pub identity_of : JournalDelivery → EdgeIdentity
identity_of d = record {
  tenant_id = d.tenant_id;
  edge_id = d.edge_id;
  generation = d.edge_generation;
}
