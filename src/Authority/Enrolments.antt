-- ===== src/Authority/Enrolments.antt =====
-- Which edges an admitted registry lists: enforceEdgeGenerationHighWater of
-- internal/authority/postgres/store.go.
use snagline.Prelude.{ℕ, ◌<◌, String, ◌≡◌, ◌⊎◌, false, Option, none, some, List, [], ◌∷◌, ◌==◌, All}
use snagline.Authority.Request.{RegistryEdge}
use snagline.Authority.Tables.{HeadRow, HighWaterRow}
use snagline.Authority.Registries.{find_high_water}

-- A Go map has each edge once.
abbrev pub HasUniqueEdges : List (String × RegistryEdge) → Type 0
HasUniqueEdges [] = Unit {0}
HasUniqueEdges ((edge_id, edge) ∷ rest) =
    All (λ (x : String × RegistryEdge). (edge_id == x.0) ≡ false) rest × HasUniqueEdges rest

-- An edge may be listed beside the row that it has: it advances, or it stays with its principal
-- and the registry before this one had it.
abbrev pub Continues : Option HeadRow → RegistryEdge → HighWaterRow → Type 0
Continues head edge row =
    (row.highest_generation < edge.generation)
    ⊎ ((row.highest_generation ≡ edge.generation)
        × (row.principal_id ≡ edge.principal_id)
        × ((h : HeadRow) × (head ≡ some h) × (row.last_seen_registry_revision ≡ h.latest_revision)))

abbrev pub ContinuesFrom : Option HeadRow → RegistryEdge → Option HighWaterRow → Type 0
ContinuesFrom head edge none = Unit {0}
ContinuesFrom head edge (some row) = Continues head edge row

-- The row of an edge is what a registry of this revision gives it.
pub record Records (tenant : String) (revision : ℕ) (edge_id : String) (edge : RegistryEdge)
    (rows : List HighWaterRow) : Type 0 where
  pub row : HighWaterRow
  pub found : find_high_water tenant edge_id rows ≡ some row
  pub generation : row.highest_generation ≡ edge.generation
  pub principal : row.principal_id ≡ edge.principal_id
  pub seen : row.last_seen_registry_revision ≡ revision
