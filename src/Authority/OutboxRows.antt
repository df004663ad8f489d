-- ===== src/Authority/OutboxRows.antt =====
-- The rows of the outbox under the updates of internal/authority/postgres/outbox.go.
use mathlib.Core.Option
use snagline.Prelude.{
  String, ◌≡◌, refl, Bool, true, false, Option, some, List, [], ◌∷◌, arith, eq_iff, find, any,
  update_where, if◌then◌else◌, any-find,
}
use snagline.Authority.Tables.{OutboxRow}
use snagline.Authority.Outbox.{has_id}
use snagline.Authority.Emitted.{HasUniqueIds}

abbrev pub row_of : String → List OutboxRow → Option OutboxRow
row_of id rows = find (has_id id) rows

abbrev pub updated : (OutboxRow → Bool) → (OutboxRow → OutboxRow) → OutboxRow → OutboxRow
updated p f row = if p row then f row else row

-- An update that keeps identifiers acts on each row where it stands.
pub row_of-update_where :
    (p : OutboxRow → Bool) (f : OutboxRow → OutboxRow)
    (keeps : (row : OutboxRow) → (f row).outbox_id ≡ row.outbox_id) (id : String)
    (rows : List OutboxRow)
    → row_of id (update_where p f rows) ≡ Option.map (updated p f) (row_of id rows)
unfolding find update_where
row_of-update_where p f keeps id [] = refl
row_of-update_where p f keeps id (row ∷ rows) =
    ground (arith, keeps row, row_of-update_where p f keeps id rows)

any-update_where :
    (p : OutboxRow → Bool) (f : OutboxRow → OutboxRow)
    (keeps : (row : OutboxRow) → (f row).outbox_id ≡ row.outbox_id) (id : String)
    (rows : List OutboxRow)
    → any (has_id id) (update_where p f rows) ≡ any (has_id id) rows
unfolding any update_where
any-update_where p f keeps id [] = refl
any-update_where p f keeps id (row ∷ rows) =
    ground (arith, keeps row, any-update_where p f keeps id rows)

pub update_where-HasUniqueIds :
    (p : OutboxRow → Bool) (f : OutboxRow → OutboxRow)
    (keeps : (row : OutboxRow) → (f row).outbox_id ≡ row.outbox_id) (rows : List OutboxRow)
    → HasUniqueIds rows
    → HasUniqueIds (update_where p f rows)
unfolding update_where
update_where-HasUniqueIds p f keeps [] u = tt
update_where-HasUniqueIds p f keeps (row ∷ rows) u = (
  ground (
    arith,
    keeps row,
    any-update_where p f keeps row.outbox_id rows,
    any-update_where p f keeps (f row).outbox_id rows,
  ),
  update_where-HasUniqueIds p f keeps rows u.1,
)

-- A row of the table that passes a test, under its identifier.
abbrev pub Finds : (OutboxRow → Bool) → List OutboxRow → String → Type 0
Finds p rows id = (row : OutboxRow) × (row_of id rows ≡ some row) × (p row ≡ true)

-- The row that the table has under the identifier of `row` is `row`, and it passes a test.
abbrev pub IsRow : (OutboxRow → Bool) → List OutboxRow → OutboxRow → Type 0
IsRow p rows row = (row_of row.outbox_id rows ≡ some row) × (p row ≡ true)

pub IsRow-cons :
    (p : OutboxRow → Bool) (row other : OutboxRow) (rows : List OutboxRow)
    → any (has_id other.outbox_id) rows ≡ false
    → IsRow p rows row
    → IsRow p (other ∷ rows) row
unfolding find
IsRow-cons p row other rows fresh (found, h) =
    ground (arith, eq_iff other.outbox_id row.outbox_id, any-find (has_id row.outbox_id) rows row)
