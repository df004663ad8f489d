-- ===== src/Delivery/Publishable.antt =====
-- publishRequest of internal/delivery/outbox/worker.go on the item of a routed row.
use snagline.Prelude.{
  ℕ, ◌≤◌, ◌<◌, String, find, some, ◌≡◌, refl, sym, false, ◌==◌, arith, Bytes, length, utf8,
  bytes_equal_refl, utf8-nonempty, append-nonempty, subst, decimal,
}
use snagline.Tx.{ok}
use snagline.Authority.Tables.{
  CaseRow, DeliveryRow, OutboxRow, Db, DestinationKind, domain_dispatch, edge_delivery,
}
use snagline.Authority.Sql.{edge_key}
use snagline.Authority.Outbox.{Item, item_of, is_made, is_sent}
use snagline.Delivery.Stream.{PublishRequest, domain, edge, subject_for, destination_subject}
use snagline.Delivery.Request.{
  validate_common_item, domain_request, edge_request, routed_request, publish_request,
}
use snagline.Delivery.Routes.{IsRouted, ToDomain, ToEdge, RouteIs}

-- The route of a domain dispatch: the domain of the case that was admitted at the item's revision,
-- and no edge.
pub record IsForDomain (db : Db) (item : Item) (request : PublishRequest) : Type 0 where
  pub dispatched : CaseRow
  pub found : find (is_made item.tenant_id item.authority_revision) db.cases ≡ some dispatched
  pub destination : request.destination ≡ domain
  pub domain_id : request.domain_id ≡ dispatched.domain
  pub edge_id : request.edge_id ≡ ""
  pub edge_generation : request.edge_generation ≡ 0
  pub delivery_sequence : request.delivery_sequence ≡ 0

-- The route of an edge delivery: the edge, the generation and the sequence of the delivery that was
-- logged at the item's revision, and no domain.
pub record IsForEdge (db : Db) (item : Item) (request : PublishRequest) : Type 0 where
  pub logged : DeliveryRow
  pub found : find (is_sent item.tenant_id item.authority_revision) db.deliveries ≡ some logged
  pub destination : request.destination ≡ edge
  pub domain_id : request.domain_id ≡ ""
  pub edge_id : request.edge_id ≡ logged.edge_id
  pub edge_generation : request.edge_generation ≡ logged.edge_generation
  pub delivery_sequence : request.delivery_sequence ≡ logged.delivery_sequence

abbrev pub IsFor : Db → Item → PublishRequest → DestinationKind → Type 0
IsFor db item request domain_dispatch = IsForDomain db item request
IsFor db item request edge_delivery = IsForEdge db item request

-- The request carries the row, its identifier, its tenant, its bytes and its revision, to where the
-- fact of that revision goes.
pub record Carries (sha : Bytes → String) (db : Db) (item : Item) : Type 0 where
  pub request : PublishRequest
  pub made : publish_request sha item ≡ ok request
  pub names : request.outbox_id ≡ item.id
  pub tenant : request.tenant_id ≡ item.tenant_id
  pub bytes : request.raw_ssp ≡ item.raw
  pub revision : request.fact_sequence ≡ item.authority_revision
  pub route : IsFor db item request item.destination_kind

module _ (sha : Bytes → String) (next : ℕ) (row : OutboxRow) (db : Db) (token : String)
    (t : (token == "") ≡ false) (size : length row.raw ≤ 65536)
    (r : IsRouted next db.cases db.deliveries row) where
  abbrev domain_item : CaseRow → Item
  domain_item c = record {
    id = row.outbox_id;
    lease_token = token;
    tenant_id = row.tenant_id;
    event_kind = row.event_kind;
    entity_id = row.entity_id;
    destination_kind = domain_dispatch;
    destination_key = row.destination_key;
    raw = row.raw;
    authority_revision = row.authority_revision;
    domain_id = c.domain;
    edge_id = "";
    edge_generation = 0;
    delivery_sequence = 0;
  }

  item_of-domain :
      (d : ToDomain db.cases row)
      → row.destination_kind ≡ domain_dispatch
      → item_of token row db ≡ domain_item d.made
  unfolding item_of
  item_of-domain d k = ground (arith, k, d.found)

  domain-Carries : (d : ToDomain db.cases row) → Carries sha db (domain_item d.made)
  unfolding publish_request validate_common_item routed_request domain_request subject_for
      destination_subject
  domain-Carries d =
      let key = subst (λ k. 0 < length k) (sym d.key) (utf8-nonempty d.made.domain d.has_domain) in
      record {
        request = record {
          outbox_id = row.outbox_id;
          destination = domain;
          tenant_id = row.tenant_id;
          domain_id = d.made.domain;
          edge_id = "";
          edge_generation = 0;
          raw_ssp = row.raw;
          fact_sequence = row.authority_revision;
          delivery_sequence = 0;
        };
        made = ground (
          arith,
          t,
          size,
          r.id,
          r.tenant,
          r.entity,
          r.raw,
          r.positive,
          d.is_case,
          d.has_domain,
          d.key,
          key,
          bytes_equal_refl (utf8 d.made.domain),
        );
        names = refl;
        tenant = refl;
        bytes = refl;
        revision = refl;
        route = record {
          dispatched = d.made;
          found = d.found;
          destination = refl;
          domain_id = refl;
          edge_id = refl;
          edge_generation = refl;
          delivery_sequence = refl;
        };
      }

  abbrev edge_item : DeliveryRow → Item
  edge_item d = record {
    id = row.outbox_id;
    lease_token = token;
    tenant_id = row.tenant_id;
    event_kind = row.event_kind;
    entity_id = row.entity_id;
    destination_kind = edge_delivery;
    destination_key = row.destination_key;
    raw = row.raw;
    authority_revision = row.authority_revision;
    domain_id = "";
    edge_id = d.edge_id;
    edge_generation = d.edge_generation;
    delivery_sequence = d.delivery_sequence;
  }

  item_of-edge :
      (d : ToEdge db.deliveries row)
      → row.destination_kind ≡ edge_delivery
      → item_of token row db ≡ edge_item d.sent
  unfolding item_of
  item_of-edge d k = ground (arith, k, d.found)

  edge-Carries : (d : ToEdge db.deliveries row) → Carries sha db (edge_item d.sent)
  unfolding publish_request validate_common_item routed_request edge_request subject_for
      destination_subject edge_key
  edge-Carries d =
      let full : 0 < length (edge_key d.sent.edge_id d.sent.edge_generation) =
        append-nonempty (utf8 d.sent.edge_id) (decimal d.sent.edge_generation) b'@' in
      let key = subst (λ k. 0 < length k) (sym d.key) full in
      record {
        request = record {
          outbox_id = row.outbox_id;
          destination = edge;
          tenant_id = row.tenant_id;
          domain_id = "";
          edge_id = d.sent.edge_id;
          edge_generation = d.sent.edge_generation;
          raw_ssp = row.raw;
          fact_sequence = row.authority_revision;
          delivery_sequence = d.sent.delivery_sequence;
        };
        made = ground (
          arith,
          t,
          size,
          r.id,
          r.tenant,
          r.entity,
          r.raw,
          r.positive,
          d.is_fact,
          d.has_edge,
          d.has_generation,
          d.has_sequence,
          d.key,
          key,
          bytes_equal_refl (edge_key d.sent.edge_id d.sent.edge_generation),
        );
        names = refl;
        tenant = refl;
        bytes = refl;
        revision = refl;
        route = record {
          logged = d.sent;
          found = d.found;
          destination = refl;
          domain_id = refl;
          edge_id = refl;
          edge_generation = refl;
          delivery_sequence = refl;
        };
      }

  routed-Carries :
      (kind : DestinationKind)
      → row.destination_kind ≡ kind
      → RouteIs db.cases db.deliveries row kind
      → Carries sha db (item_of token row db)
  routed-Carries domain_dispatch k d = rw (item_of-domain d k) (domain-Carries d)
  routed-Carries edge_delivery k d = rw (item_of-edge d k) (edge-Carries d)

  pub row-Carries : Carries sha db (item_of token row db)
  row-Carries = routed-Carries row.destination_kind refl r.route
