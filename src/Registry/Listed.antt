-- ===== src/Registry/Listed.antt =====
-- What the index of a registry's list returns: internal/registry/registry.go, index.
use snagline.Prelude.{
  String, ◌≡◌, ◌⊎◌, inl, inr, some, List, [], ◌∷◌, ◌==◌, eq_iff, arith, Bool-cases, sym, ◌∙◌, ap,
}
use mathlib.Core.List.{Memᴰ}
use snagline.Registry.Snapshot.{NameMap, empty_map, put, put_all}

-- `a` is in the list, under the name `id`.
pub record IsListed {A : Type 0} (name : A → String) (list : List A) (id : String) (a : A)
    : Type 0 where
  pub named : name a ≡ id
  pub mem : Memᴰ a list

put_all-mem :
    {A : Type 0} (name : A → String) (list : List A) (m : NameMap A) (id : String) (a : A)
    → put_all name list m id ≡ some a
    → IsListed name list id a ⊎ (m id ≡ some a)
unfolding put_all put
put_all-mem name [] m id a h = inr h
put_all-mem name (b ∷ list) m id a h = elim (put_all-mem name list (put (name b) b m) id a h) [
  | inl l ↦ inl (record { named = l.named; mem = Memᴰ.tail l.mem })
  | inr e ↦ (elim (Bool-cases (name b == id)) [
    | inl same ↦
        let is_b : b ≡ a = ground (arith, e) in
        inl (record {
          named = sym (ap name is_b) ∙ (eq_iff (name b) id).0 same;
          mem = Memᴰ.head (sym is_b);
        })
    | inr other ↦ inr (ground (arith, e))
  ])
]

-- What the index of a list returns for a name is in the list, under that name.
pub index-IsListed :
    {A : Type 0} (name : A → String) (list : List A) (id : String) (a : A)
    → put_all name list empty_map id ≡ some a
    → IsListed name list id a
unfolding empty_map
index-IsListed name list id a h = elim (put_all-mem name list empty_map id a h) [
  | inl l ↦ l
  | inr e ↦ absurd (cc e)
]

-- A name that is in the list is in its index.
put_all-keeps :
    {A : Type 0} (name : A → String) (list : List A) (m : NameMap A) (id : String) (a : A)
    → m id ≡ some a
    → (b : A) × (put_all name list m id ≡ some b)
unfolding put_all put
put_all-keeps name [] m id a h = (a, h)
put_all-keeps name (b ∷ list) m id a h = elim (Bool-cases (name b == id)) [
  | inl same ↦ put_all-keeps name list (put (name b) b m) id b (ground (arith, same))
  | inr other ↦ put_all-keeps name list (put (name b) b m) id a (ground (arith, other))
]
