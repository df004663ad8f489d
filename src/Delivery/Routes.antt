-- ===== src/Delivery/Routes.antt =====
-- What the rows of the outbox say of their cases and deliveries in a reachable state.
use snagline.Prelude.{
  ℕ, ◌≤◌, ◌<◌, ◌≡◌, ◌⊎◌, false, some, List, [], ◌∷◌, arith, ◌==◌, find, All, length, utf8,
}
use snagline.Authority.Tables.{
  CaseRow, DeliveryRow, OutboxRow, Db, case_fact, advice_fact, DestinationKind, domain_dispatch,
  edge_delivery,
}
use snagline.Authority.Sql.{edge_key}
use snagline.Authority.Outbox.{is_made, is_sent}

-- A domain row: the case of its revision is in the domain that is its key.
pub record ToDomain (cases : List CaseRow) (row : OutboxRow) : Type 0 where
  pub made : CaseRow
  pub is_case : row.event_kind ≡ case_fact
  pub found : find (is_made row.tenant_id row.authority_revision) cases ≡ some made
  pub has_domain : (made.domain == "") ≡ false
  pub key : row.destination_key ≡ utf8 made.domain

-- An edge row: the delivery of its revision goes to the edge and generation that are its key.
pub record ToEdge (deliveries : List DeliveryRow) (row : OutboxRow) : Type 0 where
  pub sent : DeliveryRow
  pub is_fact : (row.event_kind ≡ case_fact) ⊎ (row.event_kind ≡ advice_fact)
  pub found : find (is_sent row.tenant_id row.authority_revision) deliveries ≡ some sent
  pub has_edge : (sent.edge_id == "") ≡ false
  pub has_generation : 0 < sent.edge_generation
  pub has_sequence : 0 < sent.delivery_sequence
  pub key : row.destination_key ≡ edge_key sent.edge_id sent.edge_generation

abbrev pub RouteIs : List CaseRow → List DeliveryRow → OutboxRow → DestinationKind → Type 0
RouteIs cases deliveries row domain_dispatch = ToDomain cases row
RouteIs cases deliveries row edge_delivery = ToEdge deliveries row

pub record IsRouted (next : ℕ) (cases : List CaseRow) (deliveries : List DeliveryRow)
    (row : OutboxRow) : Type 0 where
  pub id : (row.outbox_id == "") ≡ false
  pub tenant : (row.tenant_id == "") ≡ false
  pub entity : (row.entity_id == "") ≡ false
  pub raw : 0 < length row.raw
  pub positive : 0 < row.authority_revision
  pub older : row.authority_revision < next
  pub route : RouteIs cases deliveries row row.destination_kind

-- The edge that issued a case is named.
pub record IsIssued (row : CaseRow) : Type 0 where
  pub edge : (row.issuer_edge_id == "") ≡ false
  pub generation : 0 < row.issuer_edge_generation

pub record IsRoutedDb (db : Db) : Type 0 where
  pub rows : All (IsRouted db.next_revision db.cases db.deliveries) db.outbox
  pub issued : All IsIssued db.cases

-- Revisions that later facts take do not change what is found at an earlier one.
pub older_route :
    (next : ℕ) (cases : List CaseRow) (deliveries : List DeliveryRow) (c : CaseRow)
    (d : DeliveryRow) (row : OutboxRow)
    → next ≤ c.commit_revision
    → next ≤ d.authority_revision
    → row.authority_revision < next
    → (kind : DestinationKind) → RouteIs cases deliveries row kind
    → RouteIs (c ∷ cases) (d ∷ deliveries) row kind
unfolding find
older_route next cases deliveries c d row cn dn old domain_dispatch r = record {
  made = r.made;
  is_case = r.is_case;
  found = ground (arith, r.found);
  has_domain = r.has_domain;
  key = r.key;
}
older_route next cases deliveries c d row cn dn old edge_delivery r = record {
  sent = r.sent;
  is_fact = r.is_fact;
  found = ground (arith, r.found);
  has_edge = r.has_edge;
  has_generation = r.has_generation;
  has_sequence = r.has_sequence;
  key = r.key;
}

pub older_delivery :
    (next : ℕ) (cases : List CaseRow) (deliveries : List DeliveryRow) (d : DeliveryRow)
    (row : OutboxRow)
    → next ≤ d.authority_revision
    → row.authority_revision < next
    → (kind : DestinationKind) → RouteIs cases deliveries row kind
    → RouteIs cases (d ∷ deliveries) row kind
unfolding find
older_delivery next cases deliveries d row dn old domain_dispatch r = r
older_delivery next cases deliveries d row dn old edge_delivery r = record {
  sent = r.sent;
  is_fact = r.is_fact;
  found = ground (arith, r.found);
  has_edge = r.has_edge;
  has_generation = r.has_generation;
  has_sequence = r.has_sequence;
  key = r.key;
}

module _ (next next' : ℕ) (cases cases' : List CaseRow) (deliveries deliveries' : List DeliveryRow)
    (grows : next ≤ next')
    (routes : (row : OutboxRow) (kind : DestinationKind)
      → row.authority_revision < next
      → RouteIs cases deliveries row kind
      → RouteIs cases' deliveries' row kind) where
  later-IsRouted :
      (row : OutboxRow) → IsRouted next cases deliveries row → IsRouted next' cases' deliveries' row
  later-IsRouted row r = record {
    id = r.id;
    tenant = r.tenant;
    entity = r.entity;
    raw = r.raw;
    positive = r.positive;
    older = omega (arith, r.older);
    route = routes row row.destination_kind r.older r.route;
  }

  pub later-All :
      (rows : List OutboxRow)
      → All (IsRouted next cases deliveries) rows
      → All (IsRouted next' cases' deliveries') rows
  later-All [] a = tt
  later-All (row ∷ rows) a = (later-IsRouted row a.0, later-All rows a.1)
