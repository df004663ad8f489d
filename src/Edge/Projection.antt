-- ===== src/Edge/Projection.antt =====
-- claimIdentity and persistProjection of internal/sspedge/store.go.
-- `payload` stands for the encoding/json of encodeCasePayload.
use Prim.Native.String.{◌++◌ as str_append}
use snagline.Prelude.{
  ℕ, String, Bool, true, false, ◌&&◌, Option, none, some, List, ◌∷◌, ◌==◌, eqb, if◌then◌else◌, find,
  any, update_where, Bytes, utf8,
}
use snagline.Tx.{Result, ok, err, Tx, pure, fail, ◌>>◌}
use snagline.Edge.Vault.{Aead, seal}
use snagline.Edge.Tables.{
  ApplyOutcome, apply_accepted, apply_quarantined, apply_duplicate, FactState, fact_accepted,
  fact_quarantined, front_pending, front_quarantined, StoreError, Case, Advice, VerifiedProjection,
  IdentityRow, CaseRow, AdviceRow, FrontRow, EdgeDb, case_required, advice_required, unknown_family,
  case_absent, case_not_bound, constraint_failed,
}

unfoldable pub find_identity : String → EdgeDb → Option IdentityRow
find_identity id db = find (λ (row : IdentityRow). row.envelope_id == id) db.identities

abbrev pub identity_row : String → String → ℕ → ℕ → IdentityRow
identity_row id commitment seq now = record {
  envelope_id = id;
  commitment = commitment;
  state = fact_accepted;
  first_delivery_seq = seq;
  first_seen_at = now;
  conflicting_commitment = none;
  conflicting_delivery_seq = none;
  quarantined_at = none;
}

-- COALESCE(column, value)
abbrev pub first_of {ℓ} : {A : Type ℓ} → Option A → A → Option A
first_of none value = some value
first_of (some kept) value = some kept

unfoldable pub quarantined_identity : String → ℕ → ℕ → IdentityRow → IdentityRow
quarantined_identity commitment seq now row = record row {
  state = fact_quarantined;
  conflicting_commitment = first_of row.conflicting_commitment commitment;
  conflicting_delivery_seq = first_of row.conflicting_delivery_seq seq;
  quarantined_at = first_of row.quarantined_at now;
}

abbrev pub quarantined_case : CaseRow → CaseRow
quarantined_case row = record row { state = fact_quarantined }

abbrev pub quarantined_advice : AdviceRow → AdviceRow
quarantined_advice row = record row { state = fact_quarantined }

abbrev pub quarantined_front : FrontRow → FrontRow
quarantined_front row = record row { state = front_quarantined }

-- advice_id IN (SELECT advice_id FROM ssp_edge_advice WHERE envelope_id = ?)
unfoldable pub of_envelope : String → List AdviceRow → FrontRow → Bool
of_envelope id advice front =
    any (λ (a : AdviceRow). a.envelope_id == id && a.advice_id == front.advice_id) advice

-- The four updates for a second commitment under one envelope id.
unfoldable pub quarantine : String → String → ℕ → ℕ → EdgeDb → EdgeDb
quarantine id commitment seq now db = record db {
  identities =
      update_where (λ (row : IdentityRow). row.envelope_id == id)
        (quarantined_identity commitment seq now) db.identities;
  cases = update_where (λ (row : CaseRow). row.envelope_id == id) quarantined_case db.cases;
  advice = update_where (λ (row : AdviceRow). row.envelope_id == id) quarantined_advice db.advice;
  front_outbox =
      update_where
        (of_envelope id
          (update_where (λ (row : AdviceRow). row.envelope_id == id) quarantined_advice db.advice))
        quarantined_front db.front_outbox;
}

unfoldable pub claim_identity : String → String → ℕ → ℕ → Tx EdgeDb StoreError ApplyOutcome
claim_identity id commitment seq now db = elim (find_identity id db) [
  | none ↦
      pure apply_accepted
        (record db { identities = identity_row id commitment seq now ∷ db.identities })
  | some row ↦
      if row.commitment == commitment
      then pure apply_duplicate db
      else pure apply_quarantined (quarantine id commitment seq now db)
]

abbrev pub has_case_id : String → CaseRow → Bool
has_case_id case_id row = row.case_id == case_id

abbrev pub is_accepted : FactState → Bool
is_accepted fact_accepted = true
is_accepted fact_quarantined = false

-- the case that an advice may name
unfoldable pub accepted_case : String → EdgeDb → Option CaseRow
accepted_case case_id db =
    find (λ (row : CaseRow). has_case_id case_id row && is_accepted row.state) db.cases

unfoldable pub binds_case : Advice → CaseRow → Bool
binds_case a row =
    row.commitment == a.case_commitment
    && (row.issuer_edge_id == a.issuer_edge_id
        && (eqb row.issuer_edge_generation a.issuer_edge_generation
            && (row.source_token == a.route_token
                && (eqb row.routing_epoch a.routing_epoch
                    && (eqb row.registry_revision a.registry_revision
                        && row.registry_hash == a.registry_hash)))))

abbrev pub message_id : String → String → String
message_id front advice_id =
    str_append "snagline." (str_append front (str_append ".advice.v1/" advice_id))

abbrev pub front_row : String → String → ℕ → FrontRow
front_row front advice_id now = record {
  front = front;
  advice_id = advice_id;
  message_id = message_id front advice_id;
  state = front_pending;
  created_at = now;
  lease_owner = none;
  lease_expires_at = none;
  claim_token = none;
  delivery_receipt = none;
  delivered_at = none;
}

abbrev pub is_front : String → String → FrontRow → Bool
is_front front advice_id row = row.front == front && row.advice_id == advice_id

-- ON CONFLICT(front, advice_id) DO NOTHING, and message_id UNIQUE
unfoldable pub insert_front : String → String → ℕ → Tx EdgeDb StoreError (Unit {0})
insert_front front advice_id now db =
    if any (is_front front advice_id) db.front_outbox
    then pure tt db
    else if any (λ (row : FrontRow). row.message_id == message_id front advice_id) db.front_outbox
    then fail constraint_failed db
    else pure tt (record db { front_outbox = front_row front advice_id now ∷ db.front_outbox })

module _ (aead : Aead) (tenant : String) (payload : String → String → Bytes) (nonce : Bytes) where
  abbrev pub case_row : VerifiedProjection → Case → CaseRow
  case_row p c = record {
    case_id = c.case_id;
    envelope_id = p.envelope_id;
    commitment = p.commitment;
    issuer_edge_id = c.issuer_edge_id;
    issuer_edge_generation = c.issuer_edge_generation;
    route_kind = c.route_kind;
    route_token = c.route_token;
    source_token = c.source_token;
    domain = c.domain;
    routing_epoch = c.routing_epoch;
    registry_revision = c.registry_revision;
    registry_hash = c.registry_hash;
    payload_ciphertext =
        seal aead tenant nonce "ssp_edge_cases" c.case_id (payload c.summary c.context_manifest);
    expires_at = c.expires_at;
    state = fact_accepted;
  }

  -- ON CONFLICT(case_id) DO NOTHING, and envelope_id UNIQUE
  unfoldable pub persist_case : VerifiedProjection → Case → Tx EdgeDb StoreError (Unit {0})
  persist_case p c db =
      if any (has_case_id c.case_id) db.cases
      then pure tt db
      else if any (λ (row : CaseRow). row.envelope_id == p.envelope_id) db.cases
      then fail constraint_failed db
      else pure tt (record db { cases = case_row p c ∷ db.cases })

  abbrev pub advice_row : VerifiedProjection → Advice → ℕ → AdviceRow
  advice_row p a now = record {
    advice_id = a.advice_id;
    envelope_id = p.envelope_id;
    case_id = a.case_id;
    case_commitment = a.case_commitment;
    commitment = p.commitment;
    issuer_edge_id = a.issuer_edge_id;
    issuer_edge_generation = a.issuer_edge_generation;
    route_kind = a.route_kind;
    route_token = a.route_token;
    routing_epoch = a.routing_epoch;
    registry_revision = a.registry_revision;
    registry_hash = a.registry_hash;
    text_ciphertext = seal aead tenant nonce "ssp_edge_advice" a.advice_id (utf8 a.text);
    expires_at = a.expires_at;
    received_at = now;
    state = fact_accepted;
  }

  unfoldable pub insert_advice : VerifiedProjection → Advice → ℕ → Tx EdgeDb StoreError (Unit {0})
  insert_advice p a now db =
      if any (λ (row : AdviceRow). row.advice_id == a.advice_id) db.advice
      then pure tt db
      else if any (λ (row : AdviceRow). row.envelope_id == p.envelope_id) db.advice
      then fail constraint_failed db
      else pure tt (record db { advice = advice_row p a now ∷ db.advice })

  -- The case that the advice names is accepted, and every bound field of it is the advice's.
  unfoldable pub bind_case : Advice → EdgeDb → Result StoreError (Unit {0})
  bind_case a db = elim (accepted_case a.case_id db) [
    | none ↦ err case_absent
    | some row ↦ if binds_case a row then ok tt else err case_not_bound
  ]

  unfoldable pub persist_advice : VerifiedProjection → Advice → ℕ → Tx EdgeDb StoreError (Unit {0})
  persist_advice p a now db = elim (bind_case a db) [
    | err e ↦ fail e db
    | ok _ ↦
        (insert_advice p a now
            >> insert_front "cli" a.advice_id now
            >> insert_front "amq" a.advice_id now)
          db
  ]

  unfoldable pub persist_case_part :
      VerifiedProjection → Option Case → Tx EdgeDb StoreError (Unit {0})
  persist_case_part p none = fail case_required
  persist_case_part p (some c) = persist_case p c

  unfoldable pub persist_advice_part :
      VerifiedProjection → Option Advice → ℕ → Tx EdgeDb StoreError (Unit {0})
  persist_advice_part p none now = fail advice_required
  persist_advice_part p (some a) now = persist_advice p a now

  unfoldable pub persist_projection : VerifiedProjection → ℕ → Tx EdgeDb StoreError (Unit {0})
  unfolding persist_case_part persist_advice_part
  persist_projection p now =
      if p.family == "case"
      then persist_case_part p p.case_part
      else if p.family == "advice"
      then persist_advice_part p p.advice_part now
      else fail unknown_family
