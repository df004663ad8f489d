-- ===== src/Authority/Generations.antt =====
-- enforceEdgeGenerationHighWater of internal/authority/postgres/store.go over a history of commits.
use snagline.Prelude.{
  ℕ, ◌≤◌, String, ◌≡◌, refl, true, ◌&&◌, Option, some, List, [], ◌∷◌, arith, Bytes, ◌==◌, eq_iff,
  find, if◌then◌else◌,
}
use snagline.Tx.{ok}
use snagline.Authority.Request.{RegistryEdge}
use snagline.Authority.Tables.{HeadRow, HighWaterRow, Db}
use snagline.Authority.Registries.{
  find_high_water, upsert_high_water, generation_allowed, enforce_high_water,
}
use snagline.Authority.Moves.{OutboxMoves-OnlyOutbox}
use snagline.Authority.History.{
  Commits, Effect, unchanged, skipped, moved, case_admitted, advice_admitted, head_halted,
  registry_admitted, classified,
}

pub find-upsert :
    (t e : String) (new : HighWaterRow) (rows : List HighWaterRow)
    → find_high_water t e (upsert_high_water new rows)
      ≡ (if new.tenant_id == t && new.edge_id == e then some new else find_high_water t e rows)
unfolding find_high_water upsert_high_water find
find-upsert t e new [] = refl
find-upsert t e new (row ∷ rows) = ground (
  arith,
  find-upsert t e new rows,
  eq_iff new.tenant_id t,
  eq_iff new.edge_id e,
  eq_iff row.tenant_id t,
  eq_iff row.edge_id e,
  eq_iff row.tenant_id new.tenant_id,
  eq_iff row.edge_id new.edge_id,
)

-- The row of an edge is there, at or above a generation.
abbrev pub Reaches : String → String → ℕ → List HighWaterRow → Type 0
Reaches t e g rows =
    (row : HighWaterRow) × (find_high_water t e rows ≡ some row) × (g ≤ row.highest_generation)

module _ (tenant : String) (revision : ℕ) (head : Option HeadRow) where
  abbrev pub new_row : String → RegistryEdge → HighWaterRow
  new_row edge_id edge = record {
    tenant_id = tenant;
    edge_id = edge_id;
    principal_id = edge.principal_id;
    highest_generation = edge.generation;
    last_seen_registry_revision = revision;
  }

  upsert-Reaches :
      (edge_id : String) (edge : RegistryEdge) (rows : List HighWaterRow) (t e : String) (g : ℕ)
      → generation_allowed head edge (find_high_water tenant edge_id rows) ≡ true
      → Reaches t e g rows
      → Reaches t e g (upsert_high_water (new_row edge_id edge) rows)
  unfolding generation_allowed
  upsert-Reaches edge_id edge rows t e g allowed (row, found, le) = (
    if tenant == t && edge_id == e then new_row edge_id edge else row,
    ground (arith, find-upsert t e (new_row edge_id edge) rows),
    ground (arith, eq_iff tenant t, eq_iff edge_id e),
  )

  -- What an edge reaches before the loop, it reaches after it.
  pub enforce-Reaches :
      (edges : List (String × RegistryEdge)) (rows rows' : List HighWaterRow) (t e : String) (g : ℕ)
      → enforce_high_water tenant revision head edges rows ≡ ok rows'
      → Reaches t e g rows
      → Reaches t e g rows'
  unfolding enforce_high_water
  enforce-Reaches [] rows rows' t e g h r = ground arith
  enforce-Reaches ((edge_id, edge) ∷ rest) rows rows' t e g h r =
      enforce-Reaches rest (upsert_high_water (new_row edge_id edge) rows) rows' t e g
        (ground arith) (upsert-Reaches edge_id edge rows t e g (ground arith) r)

Effect-Reaches :
    (t e : String) (g : ℕ) (db db' : Db)
    → Effect db db'
    → Reaches t e g db.high_water
    → Reaches t e g db'.high_water
Effect-Reaches t e g db db' (unchanged same) r = rw same r
Effect-Reaches t e g db db' (skipped n lost) r = rw lost r
Effect-Reaches t e g db db' (moved m) r = rw (OutboxMoves-OnlyOutbox db db' m) r
Effect-Reaches t e g db db' (case_admitted _ q v a) r = rw a.written.high_water r
Effect-Reaches t e g db db' (advice_admitted _ q target v a) r = rw a.written.high_water r
Effect-Reaches t e g db db' (head_halted q reason x a) r = rw a.written r
Effect-Reaches t e g db db' (registry_admitted q rows a) r =
    rw a.written
      (enforce-Reaches q.tenant_id q.revision _ q.edges db.high_water rows t e g a.edges r)

-- No committed transaction body lowers the highest generation of any edge of any tenant.
pub Commits-Reaches :
    (sha : Bytes → String) (authority_id : String) (t e : String) (g : ℕ) (db db' : Db)
    → Commits sha authority_id db db'
    → Reaches t e g db.high_water
    → Reaches t e g db'.high_water
Commits-Reaches sha authority_id t e g db db' c r =
    Effect-Reaches t e g db db' (classified sha authority_id db db' c) r
