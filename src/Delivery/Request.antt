-- ===== src/Delivery/Request.antt =====
-- publishRequest of internal/delivery/outbox/worker.go: the request of a claimed outbox row.
use snagline.Prelude.{
  String, Bool, true, false, not, ◌||◌, ◌==◌, eqb, if◌then◌else◌, length, Bytes, bytes_equal, utf8,
}
use snagline.Tx.{Result, ok, err}
use snagline.Authority.Tables.{
  FactKind, case_fact, advice_fact, registry_fact, DestinationKind, domain_dispatch, edge_delivery,
}
use snagline.Authority.Sql.{edge_key}
use snagline.Authority.Outbox.{Item}
use snagline.Delivery.Stream.{PublishRequest, StreamError, domain, edge, subject_for}

pub data ItemError : Type 0 where
  id_required token_required tenant_required entity_required key_required : ItemError
  raw_required revision_required unsupported_event : ItemError
  domain_needs_case domain_mismatch domain_has_edge : ItemError
  edge_needs_event edge_incomplete edge_key_mismatch edge_has_domain : ItemError
  invalid_request : StreamError → ItemError

is_event : FactKind → Bool
is_event case_fact = true
is_event advice_fact = true
is_event registry_fact = false

is_case_event : FactKind → Bool
is_case_event case_fact = true
is_case_event _ = false

unfoldable pub validate_common_item : Item → Result ItemError (Unit {0})
unfolding is_event
validate_common_item item =
    if item.id == ""
    then err id_required
    else if item.lease_token == ""
    then err token_required
    else if item.tenant_id == ""
    then err tenant_required
    else if item.entity_id == ""
    then err entity_required
    else if eqb (length item.destination_key) 0
    then err key_required
    else if eqb (length item.raw) 0
    then err raw_required
    else if eqb item.authority_revision 0
    then err revision_required
    else if is_event item.event_kind
    then ok tt
    else err unsupported_event

unfoldable pub domain_request : Item → Result ItemError PublishRequest
unfolding is_case_event
domain_request item =
    if not (is_case_event item.event_kind)
    then err domain_needs_case
    else if item.domain_id == "" || not (bytes_equal item.destination_key (utf8 item.domain_id))
    then err domain_mismatch
    else if not (item.edge_id == "")
        || (not (eqb item.edge_generation 0) || not (eqb item.delivery_sequence 0))
    then err domain_has_edge
    else ok (record {
      outbox_id = item.id;
      destination = domain;
      tenant_id = item.tenant_id;
      domain_id = item.domain_id;
      edge_id = "";
      edge_generation = 0;
      raw_ssp = item.raw;
      fact_sequence = item.authority_revision;
      delivery_sequence = 0;
    })

unfoldable pub edge_request : Item → Result ItemError PublishRequest
unfolding is_event
edge_request item =
    if not (is_event item.event_kind)
    then err edge_needs_event
    else if item.edge_id == "" || (eqb item.edge_generation 0 || eqb item.delivery_sequence 0)
    then err edge_incomplete
    else if not (bytes_equal item.destination_key (edge_key item.edge_id item.edge_generation))
    then err edge_key_mismatch
    else if not (item.domain_id == "")
    then err edge_has_domain
    else ok (record {
      outbox_id = item.id;
      destination = edge;
      tenant_id = item.tenant_id;
      domain_id = "";
      edge_id = item.edge_id;
      edge_generation = item.edge_generation;
      raw_ssp = item.raw;
      fact_sequence = item.authority_revision;
      delivery_sequence = item.delivery_sequence;
    })

unfoldable pub routed_request : DestinationKind → Item → Result ItemError PublishRequest
routed_request domain_dispatch item = domain_request item
routed_request edge_delivery item = edge_request item

checked : (Bytes → String) → PublishRequest → Result ItemError PublishRequest
checked sha request = elim (subject_for sha request) [
  | err e ↦ err (invalid_request e)
  | ok _ ↦ ok request
]

unfoldable pub publish_request : (Bytes → String) → Item → Result ItemError PublishRequest
unfolding checked
publish_request sha item = elim (validate_common_item item) [
  | err e ↦ err e
  | ok _ ↦ (elim (routed_request item.destination_kind item) [
    | err e ↦ err e
    | ok request ↦ checked sha request
  ])
]
