-- ===== src/Authority/Heads.antt =====
-- Registry heads of internal/authority/postgres under the writes of the three commits.
use snagline.Prelude.{
  String, ◌≡◌, refl, Option, none, some, List, [], ◌∷◌, arith, ◌==◌, eq_iff, find, update_where,
  if◌then◌else◌,
}
use mathlib.Core.Option
use snagline.Authority.Request.{CommitRegistryRequest}
use snagline.Authority.Tables.{HeadRow, Db, HaltReason}
use snagline.Authority.Sql.{head_of, registry_head}
use snagline.Authority.Registries.{moved_head, new_head}
use snagline.Authority.Written.{heads_after}
use snagline.Authority.Effects.{halted_row, halted_state}

find-update_heads :
    (f : HeadRow → HeadRow) (keeps : (row : HeadRow) → (f row).tenant_id ≡ row.tenant_id)
    (t t' : String) (heads : List HeadRow)
    → find (head_of t) (update_where (head_of t') f heads)
      ≡ (if t' == t then Option.map f (find (head_of t) heads) else find (head_of t) heads)
unfolding find update_where
find-update_heads f keeps t t' [] = ground arith
find-update_heads f keeps t t' (row ∷ heads) = ground (
  arith,
  keeps row,
  find-update_heads f keeps t t' heads,
  eq_iff t' t,
  eq_iff row.tenant_id t,
  eq_iff row.tenant_id t',
)

pub head-halted_state :
    (t t' : String) (reason : HaltReason) (db : Db)
    → registry_head t (halted_state t' reason db) ≡ (
        if t' == t then Option.map (halted_row reason) (registry_head t db) else registry_head t db)
unfolding registry_head
head-halted_state t t' reason db = find-update_heads (halted_row reason) (λ row. refl) t t' db.heads

-- The head that an admitted registry leaves, with the flags of the head before it.
abbrev pub head_after : CommitRegistryRequest → Option HeadRow → HeadRow
head_after r none = new_head r
head_after r (some head) = moved_head r head

heads_after-head_after :
    (t : String) (r : CommitRegistryRequest) (head : Option HeadRow) (heads : List HeadRow)
    → find (head_of r.tenant_id) heads ≡ head
    → find (head_of t) (heads_after r head heads)
      ≡ (if r.tenant_id == t then some (head_after r head) else find (head_of t) heads)
unfolding find
heads_after-head_after t r none heads e = refl
heads_after-head_after t r (some head) heads e = ground (
  arith,
  find-update_heads (moved_head r) (λ row. refl) t r.tenant_id heads,
  eq_iff r.tenant_id t,
)

pub head-heads_after :
    (t : String) (r : CommitRegistryRequest) (db : Db)
    → find (head_of t) (heads_after r (registry_head r.tenant_id db) db.heads) ≡ (
        if r.tenant_id == t
        then some (head_after r (registry_head r.tenant_id db))
        else registry_head t db)
unfolding registry_head
head-heads_after t r db =
    heads_after-head_after t r (find (head_of r.tenant_id) db.heads) db.heads refl
