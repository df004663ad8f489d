-- ===== src/Authority/Request.antt =====
-- internal/authority/authority.go: requests, receipts, errors and validation.
-- Every int64 of a request is a natural number: callers take them from verified envelopes, where
-- a negative number is refused. A time is a count of nanoseconds, 0 for the zero time.
use snagline.Prelude.{
  ℕ, String, Bool, true, not, ◌&&◌, ◌||◌, List, [], ◌∷◌, ◌==◌, eqb, ltb, length, Bytes, valid_text,
  valid_commitment,
}

pub data Error : Type 0 where
  invalid_request conflicting_case case_not_found case_binding final_advice_already_set : Error
  conflicting_registry registry_revision_sequence registry_equivocation : Error
  registry_rollback registry_halted registry_binding edge_generation_rollback : Error
  edge_not_active registry_not_found registry_head_not_found : Error
  -- errors of the store alone: a retry, a write that a constraint refuses, a missing row
  retry_transaction write_refused missing_registry_row head_disappeared exhausted_retries : Error
  -- a statement refused with SQLSTATE 40001
  serialization : Error
  -- any other error of the database driver
  database : Error

pub record CommitReceipt : Type 0 where
  pub authority_id : String
  pub revision : ℕ
  pub envelope_id : String
  pub commitment : String

pub record CommitCaseRequest : Type 0 where
  pub tenant_id : String
  pub case_id : String
  pub envelope_id : String
  pub commitment : String
  pub raw : Bytes
  pub domain : String
  pub issuer_edge_id : String
  pub issuer_edge_generation : ℕ
  pub routing_epoch : ℕ
  pub registry_revision : ℕ
  pub registry_hash : String
  pub expires_at : ℕ
  pub authenticated_principal_id : String
  pub authenticated_edge_id : String
  pub decision : String

pub record CommitAdviceRequest : Type 0 where
  pub tenant_id : String
  pub case_id : String
  pub envelope_id : String
  pub case_commitment : String
  pub commitment : String
  pub raw : Bytes
  pub routing_epoch : ℕ
  pub registry_revision : ℕ
  pub registry_hash : String
  pub authenticated_principal_id : String
  pub authenticated_edge_id : String
  pub decision : String

pub record RegistryEdge : Type 0 where
  pub principal_id : String
  pub generation : ℕ

-- `edges` lists the Go map by ascending edge identifier; callers always make the map.
pub record CommitRegistryRequest : Type 0 where
  pub tenant_id : String
  pub revision : ℕ
  pub envelope_id : String
  pub commitment : String
  pub raw : Bytes
  pub routing_epoch : ℕ
  pub previous_commitment : String
  pub edges : List (String × RegistryEdge)
  pub authenticated_principal_id : String
  pub authenticated_edge_id : String
  pub decision : String

unfoldable pub validate_case : CommitCaseRequest → Bool
validate_case r =
    valid_text r.tenant_id
    && valid_text r.case_id
    && valid_text r.envelope_id
    && valid_commitment r.commitment
    && not (eqb (length r.raw) 0)
    && valid_text r.domain
    && valid_text r.issuer_edge_id
    && ltb 0 r.issuer_edge_generation
    && valid_commitment r.registry_hash
    && not (eqb r.expires_at 0)

unfoldable pub validate_advice : CommitAdviceRequest → Bool
validate_advice r =
    valid_text r.tenant_id
    && valid_text r.case_id
    && valid_text r.envelope_id
    && valid_commitment r.case_commitment
    && valid_commitment r.commitment
    && not (eqb (length r.raw) 0)
    && valid_commitment r.registry_hash

valid_edges : List (String × RegistryEdge) → Bool
valid_edges [] = true
valid_edges ((edge_id, edge) ∷ rest) =
    valid_text edge_id && valid_text edge.principal_id && ltb 0 edge.generation && valid_edges rest

unfoldable pub validate_registry : CommitRegistryRequest → Bool
unfolding valid_edges
validate_registry r =
    valid_text r.tenant_id
    && ltb 0 r.revision
    && valid_text r.envelope_id
    && valid_commitment r.commitment
    && not (eqb (length r.raw) 0)
    && (r.previous_commitment == "" || valid_commitment r.previous_commitment)
    && valid_edges r.edges
