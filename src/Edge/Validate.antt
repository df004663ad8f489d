-- ===== src/Edge/Validate.antt =====
-- EdgeIdentity.validate, validateDelivery and the routing tokens of internal/sspedge.
-- `sha` stands for crypto/sha256 with hexadecimal output.
use Prim.Native.String.{◌++◌ as str_append}
use snagline.Prelude.{
  ℕ, String, Bool, not, ◌&&◌, ◌||◌, Option, none, some, ◌==◌, eqb, ltb, if◌then◌else◌, length,
  Bytes, codes, utf8, all_lower_hex, valid_commitment,
}
use snagline.Tx.{Result, ok, err}
use snagline.Delivery.Stream.{routing_token, edge_token, subject}
use snagline.Edge.Tables.{
  Verdict, verdict_accepted, StoreError, EdgeIdentity, JournalDelivery, Case, Advice,
  VerifiedProjection, invalid_delivery, reason_too_long, invalid_projection, invalid_case,
  invalid_advice, case_mismatch, advice_mismatch, invalid_receipt,
}

unfoldable pub valid_identity : EdgeIdentity → Bool
valid_identity id = not (id.tenant_id == "" || (id.edge_id == "" || eqb id.generation 0))

-- routingTokenRE
unfoldable pub valid_routing_token : String → Bool
unfolding all_lower_hex
valid_routing_token value = eqb (length (codes value)) 64 && all_lower_hex (codes value)

unfoldable pub valid_family : String → Bool
valid_family family = family == "case" || family == "advice"

unfoldable pub valid_receipt : VerifiedProjection → Bool
valid_receipt p =
    not (p.envelope_id == "") && (valid_commitment p.commitment && valid_family p.family)

unfoldable pub valid_case : Case → Bool
valid_case c =
    not (c.case_id == "")
    && (not (eqb c.issuer_edge_generation 0)
        && (c.route_kind == "domain"
            && (valid_routing_token c.route_token
                && (valid_routing_token c.source_token
                    && (valid_commitment c.registry_hash && not (eqb c.expires_at 0))))))

unfoldable pub valid_advice : Advice → Bool
valid_advice a =
    not (a.advice_id == "")
    && (not (a.issuer_edge_id == "")
        && (not (eqb a.issuer_edge_generation 0)
            && (a.route_kind == "edge"
                && (valid_routing_token a.route_token
                    && (valid_commitment a.case_commitment
                        && (valid_commitment a.registry_hash && not (eqb a.expires_at 0)))))))

module _ (sha : Bytes → String) where
  unfoldable pub edge_routing_token : String → ℕ → String
  edge_routing_token edge_id generation =
      if eqb generation 0 then "" else edge_token sha edge_id generation

  unfoldable pub edge_delivery_subject : EdgeIdentity → String
  edge_delivery_subject id =
      if valid_identity id
      then subject sha (routing_token sha id.tenant_id) "edge"
          (edge_token sha id.edge_id id.generation)
      else ""

  unfoldable pub case_matches : JournalDelivery → Case → Bool
  case_matches d c =
      c.issuer_edge_id == d.edge_id
      && (eqb c.issuer_edge_generation d.edge_generation
          && (c.route_token == routing_token sha c.domain
              && c.source_token == edge_routing_token d.edge_id d.edge_generation))

  unfoldable pub advice_matches : JournalDelivery → Advice → Bool
  advice_matches d a =
      a.issuer_edge_id == d.edge_id
      && (eqb a.issuer_edge_generation d.edge_generation
          && a.route_token == edge_routing_token d.edge_id d.edge_generation)

  validate_case_part : JournalDelivery → Option Case → Result StoreError (Unit {0})
  validate_case_part d none = err invalid_case
  validate_case_part d (some c) =
      if valid_case c
      then if case_matches d c then ok tt else err case_mismatch
      else err invalid_case

  validate_advice_part : JournalDelivery → Option Advice → Result StoreError (Unit {0})
  validate_advice_part d none = err invalid_advice
  validate_advice_part d (some a) =
      if valid_advice a
      then if advice_matches d a then ok tt else err advice_mismatch
      else err invalid_advice

  validate_accepted : JournalDelivery → Option VerifiedProjection → Result StoreError (Unit {0})
  unfolding validate_case_part validate_advice_part
  validate_accepted d none = err invalid_projection
  validate_accepted d (some p) =
      if valid_receipt p
      then if p.family == "case"
        then validate_case_part d p.case_part
        else validate_advice_part d p.advice_part
      else err invalid_projection

  validate_refused : Option VerifiedProjection → Result StoreError (Unit {0})
  validate_refused none = ok tt
  validate_refused (some p) = if valid_receipt p then ok tt else err invalid_receipt

  unfoldable pub validate_delivery :
      JournalDelivery
      → Verdict
      → String
      → Option VerifiedProjection
      → ℕ
      → Result StoreError (Unit {0})
  unfolding validate_accepted validate_refused
  validate_delivery d v reason p now =
      if eqb d.delivery_seq 0
        || (d.tenant_id == ""
            || (d.edge_id == ""
                || (eqb d.edge_generation 0
                    || (d.subject == "" || (eqb (length d.raw) 0 || eqb now 0)))))
      then err invalid_delivery
      else if ltb 256 (length (utf8 reason))
      then err reason_too_long
      else elim v [ verdict_accepted ↦ validate_accepted d p | _ ↦ validate_refused p ]

  -- `hash`
  unfoldable pub raw_hash : Bytes → String
  raw_hash raw = str_append "sha256:" (sha raw)
