-- ===== src/Edge/Scenario.antt =====
-- The concrete run of an edge's store that the examples use: a case, a halt, and a second commitment.
use snagline.Prelude.{
  ℕ, String, ◌≡◌, refl, false, none, some, [], ◌∷◌, ◌++◌, arith, Bytes, utf8, valid_commitment,
  find, any, update_where,
}
use snagline.Tx.{Result, ok, err}
use snagline.Edge.Vault.{Aead, IsAead, seal, additional_data}
use snagline.Edge.Tables.{
  verdict_accepted, apply_accepted, EdgeIdentity, JournalDelivery, Case, VerifiedProjection, EdgeDb,
}
use snagline.Delivery.Stream.{routing_token, edge_token}
use snagline.Edge.Validate.{
  validate_delivery, valid_receipt, valid_family, valid_case, valid_routing_token, case_matches,
  edge_routing_token, valid_identity, raw_hash,
}
use snagline.Edge.Cursor.{
  require_reconciliation, current_state, delivery_state_row, new_state, advance_delivery_state_tx,
  first_row, insert_state, max, halt_and_commit_tx, require_reconciliation_tx, upsert_state,
  halted_row, advanced_row, update_state,
}
use snagline.Edge.Apply.{
  apply_verified, apply_delivery, apply_next, find_delivery, insert_delivery, judge, judge_claimed,
  record_delivery, apply_recorded, differs,
}
use snagline.Edge.Projection.{
  claim_identity, find_identity, persist_case, persist_case_part, persist_projection, quarantine,
  quarantined_identity, of_envelope,
}
use snagline.Edge.History.{empty_edge, StoreHistory, opened, then_step, applied, required}

-- A stand-in for SHA-256 of the width of a token.
abbrev pub wide : Bytes → String
wide bytes = "aaaaaaaaaaaaaaaaaaaaaaaaaaaaaaaaaaaaaaaaaaaaaaaaaaaaaaaaaaaaaaaa"

abbrev pub commitment_a : String
commitment_a = "sha256:aaaaaaaaaaaaaaaaaaaaaaaaaaaaaaaaaaaaaaaaaaaaaaaaaaaaaaaaaaaaaaaa"

abbrev pub commitment_b : String
commitment_b = "sha256:bbbbbbbbbbbbbbbbbbbbbbbbbbbbbbbbbbbbbbbbbbbbbbbbbbbbbbbbbbbbbbbb"

-- An AEAD that hides nothing.
abbrev pub clear : Aead
clear = record {
  nonce_size = 1;
  seal_bytes = λ nonce plain more. plain;
  open_bytes = λ nonce cipher more. some cipher;
}

pub clear-IsAead : IsAead clear
clear-IsAead = record { sized = omega arith; opens = λ nonce plain more size. refl }

abbrev pub payload : String → String → Bytes
payload summary manifest = utf8 summary ++ utf8 manifest

abbrev pub own : EdgeIdentity
own = record { tenant_id = "t"; edge_id = "e"; generation = 1 }

abbrev pub route : String
route =
    "snagline.ssp.delivery.v1.aaaaaaaaaaaaaaaaaaaaaaaaaaaaaaaaaaaaaaaaaaaaaaaaaaaaaaaaaaaaaaaa.edge.aaaaaaaaaaaaaaaaaaaaaaaaaaaaaaaaaaaaaaaaaaaaaaaaaaaaaaaaaaaaaaaa"

abbrev pub delivery : ℕ → Bytes → JournalDelivery
delivery seq raw = record {
  stream = "s";
  sequence = 7;
  delivery_seq = seq;
  tenant_id = "t";
  edge_id = "e";
  edge_generation = 1;
  subject = route;
  raw = raw;
}

abbrev pub first_case : Case
first_case = record {
  case_id = "c";
  issuer_edge_id = "e";
  domain = "d";
  summary = "s";
  context_manifest = "m";
  issuer_edge_generation = 1;
  route_kind = "domain";
  route_token = wide [];
  source_token = wide [];
  routing_epoch = 1;
  registry_revision = 1;
  registry_hash = commitment_a;
  expires_at = 9;
}

abbrev pub projection : String → VerifiedProjection
projection commitment = record {
  envelope_id = "v";
  commitment = commitment;
  family = "case";
  case_part = some first_case;
  advice_part = none;
}

abbrev pub left {ℓ} : {E A S : Type ℓ} → S → Result E (A × S) → S
left s (ok (a, s')) = s'
left s (err e) = s

-- The case has been applied.
unfoldable pub store_one : EdgeDb
unfolding apply_verified validate_delivery valid_receipt valid_commitment valid_family valid_case
    valid_routing_token case_matches routing_token edge_routing_token edge_token apply_delivery
    current_state delivery_state_row find new_state apply_next find_delivery insert_delivery judge
    judge_claimed record_delivery advance_delivery_state_tx first_row insert_state max
    claim_identity find_identity persist_case persist_case_part persist_projection any update_where
    utf8 apply_recorded differs halt_and_commit_tx require_reconciliation_tx upsert_state halted_row
    quarantine quarantined_identity of_envelope advanced_row update_state require_reconciliation
    valid_identity seal additional_data raw_hash
store_one = left empty_edge (
    apply_verified wide clear "t" payload (5 ∷ []) false (delivery 1 (1 ∷ [])) verdict_accepted ""
      (some (projection commitment_a)) 3 empty_edge)

pub store_one_ok :
    apply_verified wide clear "t" payload
      (5 ∷ [])
      false
      (delivery 1 (1 ∷ []))
      verdict_accepted
      ""
      (some (projection commitment_a))
      3
      empty_edge
    ≡ ok (apply_accepted, store_one)
unfolding store_one
store_one_ok = refl

pub store_one-StoreHistory : StoreHistory wide clear "t" payload store_one
store_one-StoreHistory = then_step opened (
    applied (5 ∷ []) false (delivery 1 (1 ∷ [])) verdict_accepted ""
      (some (projection commitment_a)) 3 apply_accepted store_one_ok)

-- The authority has a second delivery.
unfoldable pub store_halted : EdgeDb
unfolding store_one
store_halted = left empty_edge (require_reconciliation own 2 "gap" 4 store_one)

pub store_halted_ok : require_reconciliation own 2 "gap" 4 store_one ≡ ok (tt, store_halted)
unfolding store_halted
store_halted_ok = refl

pub store_halted-StoreHistory : StoreHistory wide clear "t" payload store_halted
store_halted-StoreHistory =
    then_step store_one-StoreHistory (required own 2 "gap" 4 store_halted_ok)
