-- ===== src/Authority/Projected.antt =====
-- Selecting, ordering and cutting lists of projection facts.
use mathlib.Core.List.{Memᴰ}
use snagline.Prelude.{
  ℕ, zero, suc, ◌≤◌, ◌≡◌, ap, sym, subst, ◌∙◌, inl, inr, Bool, true, List, [], ◌∷◌, arith, leb,
  if◌then◌else◌, take, select, All, Bool-cases,
}
use snagline.Authority.Projection.{ProjectionFact, insert_fact, order_facts, max_revision}

module _ {A : Type 0} (p : A → Bool) (x : A) where
  pub select-mem : (xs : List A) → Memᴰ x (select p xs) → Memᴰ x xs × (p x ≡ true)
  unfolding select
  select-mem [] m = elim m [ ]
  select-mem (y ∷ xs) m = elim (Bool-cases (p y)) [
    | inl h ↦ (elim (subst (λ b. Memᴰ x (if b then y ∷ select p xs else select p xs)) h m) [
      | Memᴰ.head e ↦ (Memᴰ.head e, ap p e ∙ h)
      | Memᴰ.tail k ↦ (let (k', e) = select-mem xs k in (Memᴰ.tail k', e))
    ])
    | inr h ↦
        (let (k, e) =
            select-mem xs (subst (λ b. Memᴰ x (if b then y ∷ select p xs else select p xs)) h m) in
          (Memᴰ.tail k, e))
  ]

  pub mem-select : (xs : List A) → Memᴰ x xs → p x ≡ true → Memᴰ x (select p xs)
  unfolding select
  mem-select [] m h = elim m [ ]
  mem-select (y ∷ xs) (Memᴰ.head e) h = rw (ap p (sym e) ∙ h) (Memᴰ.head e)
  mem-select (y ∷ xs) (Memᴰ.tail m) h = elim (Bool-cases (p y)) [
    | inl k ↦ rw (k, select) (Memᴰ.tail (mem-select xs m h))
    | inr k ↦ rw (k, select) (mem-select xs m h)
  ]

-- Each fact is at or below those behind it.
abbrev pub Ascending : List ProjectionFact → Type 0
Ascending [] = Unit {0}
Ascending (fact ∷ facts) =
    All (λ (g : ProjectionFact). fact.authority_revision ≤ g.authority_revision) facts
    × Ascending facts

pub mem-All :
    (P : ProjectionFact → Type 0) (facts : List ProjectionFact) (fact : ProjectionFact)
    → All P facts
    → Memᴰ fact facts
    → P fact
mem-All P [] fact a m = elim m [ ]
mem-All P (g ∷ facts) fact a (Memᴰ.head e) = subst P (sym e) a.0
mem-All P (g ∷ facts) fact a (Memᴰ.tail m) = mem-All P facts fact a.1 m

weaken-All :
    (a b : ℕ)
    → a ≤ b
    → (facts : List ProjectionFact) → All (λ (g : ProjectionFact). b ≤ g.authority_revision) facts
    → All (λ (g : ProjectionFact). a ≤ g.authority_revision) facts
weaken-All a b le [] h = tt
weaken-All a b le (g ∷ facts) h = (omega (arith, h.0), weaken-All a b le facts h.1)

pub insert-All :
    (P : ProjectionFact → Type 0) (fact : ProjectionFact) (facts : List ProjectionFact)
    → P fact
    → All P facts
    → All P (insert_fact fact facts)
unfolding insert_fact
insert-All P fact [] h a = (h, tt)
insert-All P fact (g ∷ facts) h a =
    elim (Bool-cases (leb fact.authority_revision g.authority_revision)) [
      | inl e ↦ rw (e, insert_fact) (h, a)
      | inr e ↦ rw (e, insert_fact) (a.0, insert-All P fact facts h a.1)
    ]

insert-Ascending :
    (fact : ProjectionFact) (facts : List ProjectionFact)
    → Ascending facts
    → Ascending (insert_fact fact facts)
unfolding insert_fact
insert-Ascending fact [] s = (tt, tt)
insert-Ascending fact (g ∷ facts) s =
    elim (Bool-cases (leb fact.authority_revision g.authority_revision)) [
      | inl e ↦
          let le : fact.authority_revision ≤ g.authority_revision = ground arith in
          rw (e, insert_fact)
            (((le, weaken-All fact.authority_revision g.authority_revision le facts s.0), s))
      | inr e ↦
          rw (e, insert_fact)
            ((
              insert-All (λ (k : ProjectionFact). g.authority_revision ≤ k.authority_revision) fact
                  facts (ground arith) s.0,
              insert-Ascending fact facts s.1,
            ))
    ]

pub order-Ascending : (facts : List ProjectionFact) → Ascending (order_facts facts)
unfolding order_facts
order-Ascending [] = tt
order-Ascending (fact ∷ facts) = insert-Ascending fact (order_facts facts) (order-Ascending facts)

insert-mem :
    (x fact : ProjectionFact) (facts : List ProjectionFact)
    → Memᴰ x (insert_fact fact facts)
    → Memᴰ x (fact ∷ facts)
unfolding insert_fact
insert-mem x fact [] m = m
insert-mem x fact (g ∷ facts) m =
    elim (Bool-cases (leb fact.authority_revision g.authority_revision)) [
      | inl e ↦ subst (λ b. Memᴰ x (if b then fact ∷ g ∷ facts else g ∷ insert_fact fact facts)) e m
      | inr e ↦
          (elim (subst (λ b. Memᴰ x (if b then fact ∷ g ∷ facts else g ∷ insert_fact fact facts)) e
            m) [
              | Memᴰ.head q ↦ Memᴰ.tail (Memᴰ.head q)
              | Memᴰ.tail k ↦ (elim (insert-mem x fact facts k) [
                | Memᴰ.head q ↦ Memᴰ.head q
                | Memᴰ.tail l ↦ Memᴰ.tail (Memᴰ.tail l)
              ])
            ])
    ]

mem-insert :
    (x fact : ProjectionFact) (facts : List ProjectionFact)
    → Memᴰ x (fact ∷ facts)
    → Memᴰ x (insert_fact fact facts)
unfolding insert_fact
mem-insert x fact [] m = m
mem-insert x fact (g ∷ facts) m =
    elim (Bool-cases (leb fact.authority_revision g.authority_revision)) [
      | inl e ↦ rw (e, insert_fact) m
      | inr e ↦
          rw (e, insert_fact)
            (elim m [
              | Memᴰ.head q ↦ Memᴰ.tail (mem-insert x fact facts (Memᴰ.head q))
              | Memᴰ.tail (Memᴰ.head q) ↦ Memᴰ.head q
              | Memᴰ.tail (Memᴰ.tail k) ↦ Memᴰ.tail (mem-insert x fact facts (Memᴰ.tail k))
            ])
    ]

pub order-mem :
    (x : ProjectionFact) (facts : List ProjectionFact) → Memᴰ x (order_facts facts) → Memᴰ x facts
unfolding order_facts
order-mem x [] m = m
order-mem x (fact ∷ facts) m = elim (insert-mem x fact (order_facts facts) m) [
  | Memᴰ.head q ↦ Memᴰ.head q
  | Memᴰ.tail k ↦ Memᴰ.tail (order-mem x facts k)
]

pub mem-order :
    (x : ProjectionFact) (facts : List ProjectionFact) → Memᴰ x facts → Memᴰ x (order_facts facts)
unfolding order_facts
mem-order x [] m = m
mem-order x (fact ∷ facts) (Memᴰ.head q) = mem-insert x fact (order_facts facts) (Memᴰ.head q)
mem-order x (fact ∷ facts) (Memᴰ.tail m) =
    mem-insert x fact (order_facts facts) (Memᴰ.tail (mem-order x facts m))

pub max-bound :
    (x : ProjectionFact) (facts : List ProjectionFact)
    → Memᴰ x facts
    → x.authority_revision ≤ max_revision facts
unfolding max_revision
max-bound x [] m = elim m [ ]
max-bound x (fact ∷ facts) (Memᴰ.head q) =
    let e : x.authority_revision ≡ fact.authority_revision =
      ap (λ (f : ProjectionFact). f.authority_revision) q in
    omega (arith, e)
max-bound x (fact ∷ facts) (Memᴰ.tail m) = omega (arith, max-bound x facts m)

pub take-mem :
    (n : ℕ) (x : ProjectionFact) (facts : List ProjectionFact)
    → Memᴰ x (take n facts)
    → Memᴰ x facts
take-mem zero x facts m = elim m [ ]
take-mem (suc n) x [] m = m
take-mem (suc n) x (fact ∷ facts) (Memᴰ.head q) = Memᴰ.head q
take-mem (suc n) x (fact ∷ facts) (Memᴰ.tail m) = Memᴰ.tail (take-mem n x facts m)

pub take-All :
    (P : ProjectionFact → Type 0) (n : ℕ) (facts : List ProjectionFact)
    → All P facts
    → All P (take n facts)
take-All P zero facts a = tt
take-All P (suc n) [] a = tt
take-All P (suc n) (fact ∷ facts) a = (a.0, take-All P n facts a.1)
