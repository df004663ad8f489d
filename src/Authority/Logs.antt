-- ===== src/Authority/Logs.antt =====
-- The edge delivery logs of internal/authority/postgres/store.go: the log of a route, and what it is
-- for it to be without gaps.
use snagline.Prelude.{
  ℕ, zero, suc, String, ◌≡◌, Bool, ◌&&◌, List, [], ◌∷◌, arith, ◌==◌, eq_iff, eqb, if◌then◌else◌,
  select, Bool-cases, inl, inr,
}
use snagline.Authority.Tables.{SequenceRow, DeliveryRow, Db}
use snagline.Authority.Sql.{next_sequence, bump_sequence}

abbrev pub on_route : String → String → ℕ → DeliveryRow → Bool
on_route tenant edge generation row =
    row.tenant_id == tenant && (row.edge_id == edge && eqb row.edge_generation generation)

-- The log of a route, the newest row first.
unfoldable pub route_log : String → String → ℕ → List DeliveryRow → List DeliveryRow
unfolding select
route_log tenant edge generation rows = select (on_route tenant edge generation) rows

unfoldable pub sequences_of : List DeliveryRow → List ℕ
sequences_of [] = []
sequences_of (row ∷ rows) = row.delivery_sequence ∷ sequences_of rows

-- n, n - 1, …, 1
unfoldable pub count_down : ℕ → List ℕ
count_down zero = []
count_down (suc n) = suc n ∷ count_down n

-- The log of a route holds exactly the sequences below the next one, each once.
abbrev pub RouteIsGapless : String → String → ℕ → List SequenceRow → List DeliveryRow → Type 0
RouteIsGapless tenant edge generation sequences deliveries =
    (n : ℕ) × (next_sequence tenant edge generation sequences ≡ suc n)
    × (sequences_of (route_log tenant edge generation deliveries) ≡ count_down n)

pub record IsGapless (db : Db) : Type 0 where
  pub at :
      (tenant edge : String) (generation : ℕ)
      → RouteIsGapless tenant edge generation db.sequences db.deliveries

same_route : String → String → ℕ → String → String → ℕ → Bool
same_route t e g t' e' g' = t == t' && (e == e' && eqb g g')

next-bump :
    (t e : String) (g : ℕ) (t' e' : String) (g' : ℕ) (rows : List SequenceRow)
    → next_sequence t' e' g' (bump_sequence t e g rows) ≡ (
        if same_route t e g t' e' g'
        then suc (next_sequence t e g rows)
        else next_sequence t' e' g' rows)
unfolding next_sequence bump_sequence same_route
next-bump t e g t' e' g' [] = ground (arith, eq_iff t t', eq_iff e e')
next-bump t e g t' e' g' (row ∷ rows) = ground (
  arith,
  next-bump t e g t' e' g' rows,
  eq_iff t t',
  eq_iff e e',
  eq_iff row.tenant_id t,
  eq_iff row.edge_id e,
  eq_iff row.tenant_id t',
  eq_iff row.edge_id e',
)

-- Appending the row that has been allocated keeps every route gapless.
pub append-RouteIsGapless :
    (row : DeliveryRow) (sequences : List SequenceRow) (deliveries : List DeliveryRow)
    (t e : String) (g : ℕ)
    → RouteIsGapless t e g sequences deliveries
    → row.delivery_sequence ≡ next_sequence row.tenant_id row.edge_id row.edge_generation sequences
    → RouteIsGapless t e g
        (bump_sequence row.tenant_id row.edge_id row.edge_generation sequences)
        (row ∷ deliveries)
unfolding route_log sequences_of count_down same_route
append-RouteIsGapless row sequences deliveries t e g (n, next, log) q =
    elim (Bool-cases (same_route row.tenant_id row.edge_id row.edge_generation t e g)) [
      | inl same ↦ (
        suc n,
        ground (
          arith,
          next-bump row.tenant_id row.edge_id row.edge_generation t e g sequences,
          eq_iff row.tenant_id t,
          eq_iff row.edge_id e,
        ),
        ground (arith, eq_iff row.tenant_id t, eq_iff row.edge_id e),
      )
      | inr other ↦ (
        n,
        ground (arith, next-bump row.tenant_id row.edge_id row.edge_generation t e g sequences),
        ground arith,
      )
    ]
