-- ===== src/Registry/Authorizes.antt =====
-- Who a registry snapshot lets issue cases: AuthorizesCaseIssuerGeneration of
-- internal/registry/registry.go.
use snagline.Prelude.{
  ℕ, ◌<◌, String, ◌≡◌, inl, inr, true, some, List, [], ◌∷◌, ◌==◌, eq_iff, arith, any, Bool-cases,
  Option-cases, sym,
}
use mathlib.Core.List.{Memᴰ}
use snagline.Registry.Snapshot.{
  Registry, DomainRoute, EdgeRecord, index, authorizes_case_issuer,
  authorizes_case_issuer_generation,
}
use snagline.Registry.Listed.{IsListed, index-IsListed}

-- The lists of the snapshot name the edge as an issuer of the domain, at this generation.
pub record IsIssuer (r : Registry) (domain edge_id : String) (generation : ℕ) : Type 0 where
  route : DomainRoute
  is_route : IsListed (λ (d : DomainRoute). d.domain) r.domains_list domain route
  issuer : Memᴰ edge_id route.issuer_edge_ids
  edge : EdgeRecord
  is_edge : IsListed (λ (e : EdgeRecord). e.edge_id) r.edges_list edge_id edge
  enrolled : edge.generation ≡ generation
  positive : 0 < generation

any-Memᴰ :
    (name : String) (names : List String)
    → any (λ candidate. candidate == name) names ≡ true
    → Memᴰ name names
unfolding any
any-Memᴰ name [] h = absurd (ground arith)
any-Memᴰ name (candidate ∷ names) h = elim (Bool-cases (candidate == name)) [
  | inl same ↦ Memᴰ.head (sym ((eq_iff candidate name).0 same))
  | inr other ↦ Memᴰ.tail (any-Memᴰ name names (ground arith))
]

-- The domain's route that made AuthorizesCaseIssuer say yes.
issuing_route :
    (r : Registry) (domain edge_id : String)
    → authorizes_case_issuer r domain edge_id ≡ true
    → (route : DomainRoute) × (r.domains domain ≡ some route)
      × (any (λ candidate. candidate == edge_id) route.issuer_edge_ids ≡ true)
unfolding authorizes_case_issuer
issuing_route r domain edge_id h = elim (Option-cases (r.domains domain)) [
  | inl e ↦ absurd (ground arith)
  | inr (route, e) ↦ (route, e, ground arith)
]

-- The edge's enrolment that made AuthorizesCaseIssuerGeneration say yes.
issuing_edge :
    (r : Registry) (domain edge_id : String) (generation : ℕ)
    → authorizes_case_issuer_generation r domain edge_id generation ≡ true
    → (edge : EdgeRecord) × (r.edges edge_id ≡ some edge)
      × (edge.generation ≡ generation)
      × (0 < generation)
      × (authorizes_case_issuer r domain edge_id ≡ true)
unfolding authorizes_case_issuer_generation
issuing_edge r domain edge_id generation h = elim (Option-cases (r.edges edge_id)) [
  | inl e ↦ absurd (ground arith)
  | inr (edge, e) ↦ (edge, e, ground arith, ground arith, ground arith)
]

-- When the snapshot that index built authorizes an edge and a generation for a domain, the
-- registry's lists hold a route of that domain that names the edge as an issuer, and an edge of that
-- name that is enrolled at that generation, which is positive.
pub authorized-IsIssuer :
    (r : Registry) (domain edge_id : String) (generation : ℕ)
    → authorizes_case_issuer_generation (index r) domain edge_id generation ≡ true
    → IsIssuer r domain edge_id generation
unfolding index
authorized-IsIssuer r domain edge_id generation h =
    let (edge, is_edge, enrolled, positive, issues) =
      issuing_edge (index r) domain edge_id generation h in
    let (route, is_route, names) = issuing_route (index r) domain edge_id issues in
    record {
      route = route;
      is_route =
          index-IsListed (λ (d : DomainRoute). d.domain) r.domains_list domain route is_route;
      issuer = any-Memᴰ edge_id route.issuer_edge_ids names;
      edge = edge;
      is_edge = index-IsListed (λ (e : EdgeRecord). e.edge_id) r.edges_list edge_id edge is_edge;
      enrolled = enrolled;
      positive = positive;
    }

-- A snapshot authorizes at most one generation of an edge: an installation of another generation is
-- fenced, in every domain.
pub one_generation :
    (r : Registry) (domain other edge_id : String) (generation stale : ℕ)
    → authorizes_case_issuer_generation r domain edge_id generation ≡ true
    → authorizes_case_issuer_generation r other edge_id stale ≡ true
    → generation ≡ stale
one_generation r domain other edge_id generation stale h k =
    let (edge, e, is, positive, issues) = issuing_edge r domain edge_id generation h in
    let (edge', e', is', positive', issues') = issuing_edge r other edge_id stale k in cc
