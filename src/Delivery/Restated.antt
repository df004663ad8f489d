-- ===== src/Delivery/Restated.antt =====
-- The route of an outbox row under a lease, a publication and a release.
use snagline.Prelude.{
  ℕ, String, inl, inr, Bool, Option, none, some, List, [], ◌∷◌, All, Bool-cases, update_where,
}
use snagline.Authority.Tables.{
  CaseRow, DeliveryRow, OutboxRow, OutboxLease, DestinationKind, domain_dispatch, edge_delivery,
}
use snagline.Authority.Outbox.{Grant, ReleaseReason, leased}
use snagline.Authority.Closures.{published, released}
use snagline.Delivery.Routes.{IsRouted, RouteIs}

-- An update that leaves the fields of the fact leaves its route.
keep-IsRouted :
    (next : ℕ) (cases : List CaseRow) (deliveries : List DeliveryRow) (p : OutboxRow → Bool)
    (f : OutboxRow → OutboxRow)
    → ((row : OutboxRow)
        → IsRouted next cases deliveries row
        → IsRouted next cases deliveries (f row))
    → (rows : List OutboxRow) → All (IsRouted next cases deliveries) rows
    → All (IsRouted next cases deliveries) (update_where p f rows)
unfolding update_where
keep-IsRouted next cases deliveries p f keep [] a = tt
keep-IsRouted next cases deliveries p f keep (row ∷ rows) a =
    let rest = keep-IsRouted next cases deliveries p f keep rows a.1 in
    elim (Bool-cases (p row)) [
      | inl h ↦ rw (h, update_where) (keep row a.0, rest)
      | inr h ↦ rw (h, update_where) (a.0, rest)
    ]

-- The same fact, in another state of its delivery.
abbrev restated : ℕ → ℕ → Option OutboxLease → String → Option ℕ → Option ℕ → OutboxRow → OutboxRow
restated tries at held reason poisoned sent row = record row {
  attempts = tries;
  next_attempt_at = at;
  lease = held;
  last_error = reason;
  poisoned_at = poisoned;
  published_at = sent;
}

module _ (next : ℕ) (cases : List CaseRow) (deliveries : List DeliveryRow) where
  module _ (tries at : ℕ) (held : Option OutboxLease) (reason : String) (poisoned sent : Option ℕ)
      (row : OutboxRow) where
    restated_route :
        (kind : DestinationKind)
        → RouteIs cases deliveries row kind
        → RouteIs cases deliveries (restated tries at held reason poisoned sent row) kind
    restated_route domain_dispatch r = record {
      made = r.made;
      is_case = r.is_case;
      found = r.found;
      has_domain = r.has_domain;
      key = r.key;
    }
    restated_route edge_delivery r = record {
      sent = r.sent;
      is_fact = r.is_fact;
      found = r.found;
      has_edge = r.has_edge;
      has_generation = r.has_generation;
      has_sequence = r.has_sequence;
      key = r.key;
    }

    restated-IsRouted :
        IsRouted next cases deliveries row
        → IsRouted next cases deliveries (restated tries at held reason poisoned sent row)
    restated-IsRouted r = record {
      id = r.id;
      tenant = r.tenant;
      entity = r.entity;
      raw = r.raw;
      positive = r.positive;
      older = r.older;
      route = restated_route row.destination_kind r.route;
    }

  abbrev pub AllRouted : List OutboxRow → Type 0
  AllRouted rows = All (IsRouted next cases deliveries) rows

  pub leased-IsRouted :
      (worker : String) (lease : ℕ) (g : Grant) (row : OutboxRow)
      → IsRouted next cases deliveries row
      → IsRouted next cases deliveries (leased worker lease g row)
  unfolding leased
  leased-IsRouted worker lease g row r =
      restated-IsRouted row.attempts row.next_attempt_at _ row.last_error row.poisoned_at
        row.published_at row r

  pub lease-AllRouted :
      (p : OutboxRow → Bool) (worker : String) (lease : ℕ) (g : Grant) (rows : List OutboxRow)
      → AllRouted rows
      → AllRouted (update_where p (leased worker lease g) rows)
  lease-AllRouted p worker lease g rows a =
      keep-IsRouted next cases deliveries p (leased worker lease g) (leased-IsRouted worker lease g)
        rows a

  pub publish-AllRouted :
      (p : OutboxRow → Bool) (now : ℕ) (rows : List OutboxRow)
      → AllRouted rows
      → AllRouted (update_where p (published now) rows)
  unfolding published
  publish-AllRouted p now rows a =
      keep-IsRouted next cases deliveries p (published now)
        (λ row r.
          restated-IsRouted row.attempts row.next_attempt_at none "" row.poisoned_at (some now) row
            r)
        rows a

  pub release-AllRouted :
      (p : OutboxRow → Bool) (now retry_at : ℕ) (reason : ReleaseReason) (rows : List OutboxRow)
      → AllRouted rows
      → AllRouted (update_where p (released now retry_at reason) rows)
  unfolding released
  release-AllRouted p now retry_at reason rows a =
      keep-IsRouted next cases deliveries p (released now retry_at reason)
        (λ row r. restated-IsRouted _ retry_at none _ _ row.published_at row r) rows a
