-- ===== src/Edge/Consumer.antt =====
-- JournalConsumer of internal/sspedge/consumer.go, but for Reconcile. The verifier is a parameter.
use snagline.Prelude.{
  ℕ, String, Bool, true, false, ◌&&◌, Option, none, some, ◌==◌, eqb, if◌then◌else◌, Bytes,
}
use snagline.Tx.{Result, ok, err, Tx}
use snagline.Delivery.Stream.{routing_token}
use snagline.Edge.Vault.{Aead}
use snagline.Edge.Tables.{
  Verdict, verdict_accepted, verdict_rejected, ApplyOutcome, apply_accepted, apply_rejected,
  apply_quarantined, apply_duplicate, apply_reconciliation_required, apply_identity_conflict,
  EdgeIdentity, JournalDelivery, Case, Advice, VerifiedProjection, StoreError, EdgeDb,
}
use snagline.Edge.Validate.{edge_routing_token, edge_delivery_subject}
use snagline.Edge.Cursor.{require_reconciliation}
use snagline.Edge.Apply.{apply_verified}

-- What a verifier answers; a projection may be nil.
pub data Verification : Type 0 where
  verified : Option VerifiedProjection → Verification
  permanent : String → Verification
  transient : Verification

pub data ConsumerError : Type 0 where
  store_error : StoreError → ConsumerError
  transient_verification consumer_halted metadata_error invalid_sequence : ConsumerError
  not_required fetch_failed invalid_bounds range_mismatch non_contiguous : ConsumerError
  delivery_halted incomplete nak_failed ack_failed : ConsumerError

pub data ProcessOutcome : Type 0 where
  process_accepted process_rejected process_quarantined process_duplicate : ProcessOutcome
  process_reconciliation_required process_identity_conflict process_retrying : ProcessOutcome

pub record JournalMetadata : Type 0 where
  pub stream : String
  pub sequence : ℕ
  pub delivery_seq : ℕ
  pub tenant_id : String
  pub edge_id : String
  pub edge_generation : ℕ

-- A message of the carrier, `none` where its metadata cannot be read.
pub record Message : Type 0 where
  pub metadata : Option JournalMetadata
  pub subject : String
  pub content : Bytes

-- The store, whether the consumer is halted, and what the call returns. What has been committed stays
-- committed when the call fails.
pub record Run (A : Type 0) : Type 0 where
  pub db : EdgeDb
  pub halted : Bool
  pub returned : Result ConsumerError A

unfoldable pub matches_identity : EdgeIdentity → JournalDelivery → Bool
matches_identity id d =
    d.tenant_id == id.tenant_id && (d.edge_id == id.edge_id && eqb d.edge_generation id.generation)

abbrev pub is_halting : ApplyOutcome → Bool
is_halting apply_quarantined = true
is_halting apply_reconciliation_required = true
is_halting apply_identity_conflict = true
is_halting _ = false

-- `outcome`
abbrev pub process_outcome : ApplyOutcome → ProcessOutcome
process_outcome apply_accepted = process_accepted
process_outcome apply_rejected = process_rejected
process_outcome apply_duplicate = process_duplicate
process_outcome apply_quarantined = process_quarantined
process_outcome apply_reconciliation_required = process_reconciliation_required
process_outcome apply_identity_conflict = process_identity_conflict

module _ (sha : Bytes → String) where
  case_route_matches : EdgeIdentity → Option Case → Bool
  case_route_matches id none = false
  case_route_matches id (some c) =
      c.issuer_edge_id == id.edge_id
      && (eqb c.issuer_edge_generation id.generation
          && (c.route_kind == "domain"
              && (c.route_token == routing_token sha c.domain
                  && c.source_token == edge_routing_token sha id.edge_id id.generation)))

  advice_route_matches : EdgeIdentity → Option Advice → Bool
  advice_route_matches id none = false
  advice_route_matches id (some a) =
      a.issuer_edge_id == id.edge_id
      && (eqb a.issuer_edge_generation id.generation
          && (a.route_kind == "edge"
              && a.route_token == edge_routing_token sha id.edge_id id.generation))

  unfoldable pub route_matches : String → EdgeIdentity → Option VerifiedProjection → Bool
  unfolding case_route_matches advice_route_matches
  route_matches subject id none = false
  route_matches subject id (some p) =
      if subject == edge_delivery_subject sha id
      then if p.family == "case"
        then case_route_matches id p.case_part
        else if p.family == "advice"
        then advice_route_matches id p.advice_part
        else false
      else false

  module _ (aead : Aead) (tenant : String) (payload : String → String → Bytes)
      (verify : JournalDelivery → Verification) (identity : EdgeIdentity) where
    -- What the verifier's answer makes of a delivery.
    unfoldable pub verdict_on :
        JournalDelivery → Result ConsumerError (Verdict × String × Option VerifiedProjection)
    verdict_on d = elim (verify d) [
      | transient ↦ err transient_verification
      | permanent reason ↦ ok (verdict_rejected, reason, none)
      | verified p ↦
          if route_matches d.subject identity p
          then ok (verdict_accepted, "", p)
          else ok (verdict_rejected, "route_mismatch", p)
    ]

    unfoldable pub stored :
        Result StoreError (ApplyOutcome × EdgeDb) → Result ConsumerError (ApplyOutcome × EdgeDb)
    stored (ok x) = ok x
    stored (err e) = err (store_error e)

    unfoldable pub apply : Bool → Bytes → JournalDelivery → ℕ → Tx EdgeDb ConsumerError ApplyOutcome
    apply reconciling nonce d now db = elim (verdict_on d) [
      | err e ↦ err e
      | ok (v, reason, p) ↦
          stored (apply_verified sha aead tenant payload nonce reconciling d v reason p now db)
    ]

    abbrev pub delivery_of : JournalMetadata → Message → JournalDelivery
    delivery_of meta message = record {
      stream = meta.stream;
      sequence = meta.sequence;
      delivery_seq = meta.delivery_seq;
      tenant_id = meta.tenant_id;
      edge_id = meta.edge_id;
      edge_generation = meta.edge_generation;
      subject = message.subject;
      raw = message.content;
    }

    abbrev pub applied_run :
        EdgeDb → Result ConsumerError (ApplyOutcome × EdgeDb) → Run ProcessOutcome
    applied_run db (err e) = record { db = db; halted = false; returned = err e }
    applied_run db (ok (o, db')) = record {
      db = db';
      halted = is_halting o;
      returned = ok (process_outcome o);
    }

    abbrev pub mismatch_run : EdgeDb → Result StoreError (Unit {0} × EdgeDb) → Run ProcessOutcome
    mismatch_run db (err e) = record { db = db; halted = false; returned = err (store_error e) }
    mismatch_run db (ok (u, db')) = record {
      db = db';
      halted = true;
      returned = ok process_reconciliation_required;
    }

    unfoldable pub handle_delivery : Bytes → JournalDelivery → ℕ → EdgeDb → Run ProcessOutcome
    handle_delivery nonce d now db =
        if eqb d.delivery_seq 0
        then record { db = db; halted = false; returned = err invalid_sequence }
        else if matches_identity identity d
        then applied_run db (apply false nonce d now db)
        else mismatch_run db (require_reconciliation identity 0 "delivery_identity_mismatch" now db)

    -- `Handle`
    unfoldable pub handle : Bool → Bytes → Message → ℕ → EdgeDb → Run ProcessOutcome
    unfolding handle_delivery
    handle halted nonce message now db =
        if halted
        then record { db = db; halted = true; returned = err consumer_halted }
        else elim message.metadata [
          | none ↦ record { db = db; halted = false; returned = err metadata_error }
          | some meta ↦ handle_delivery nonce (delivery_of meta message) now db
        ]

-- How the carrier answers DoubleAck and Nak.
pub record Carrier : Type 0 where
  pub acknowledges : Bool
  pub takes_back : Bool

-- `retry`
abbrev pub retry : Carrier → Result ConsumerError ProcessOutcome
retry carrier = if carrier.takes_back then ok process_retrying else err nak_failed

-- Process, after Handle: only a committed outcome is acknowledged.
unfoldable pub answered :
    Carrier → Result ConsumerError ProcessOutcome → Result ConsumerError ProcessOutcome
answered carrier (err consumer_halted) = err consumer_halted
answered carrier (err _) = retry carrier
answered carrier (ok o) = if carrier.acknowledges then ok o else err ack_failed

unfoldable pub process : Carrier → Run ProcessOutcome → Run ProcessOutcome
process carrier run = record run { returned = answered carrier run.returned }
