-- ===== src/Authority/Climbing.antt =====
-- The facts of ListProjectionFacts of internal/authority/postgres/store.go, whose revisions differ.
use mathlib.Core.List.{Memᴰ}
use snagline.Prelude.{
  ℕ, zero, suc, ◌≤◌, ◌<◌, String, ◌≡◌, refl, sym, subst, ap, ◌⊎◌, inl, inr, Bool, false, List, [],
  ◌∷◌, ◌++◌, ◌==◌, arith, leb, eqb, length, take, select, map, All, Bool-cases,
}
use snagline.Authority.Tables.{CaseRow, AdviceRow, Db}
use snagline.Authority.Projection.{
  ProjectionFact, fact_of_case, fact_of_advice, tenant_facts, insert_fact, order_facts,
}
use snagline.Authority.Projected.{Ascending, insert-All, take-All, mem-All}
use snagline.Authority.Revisions.{
  IsFresh, HasUniqueRevisions, HasOwnRevisions, case_revision, advice_revision,
}

abbrev pub fact_revision : ProjectionFact → ℕ
fact_revision fact = fact.authority_revision

-- Each fact is below those behind it.
abbrev pub Climbs : List ProjectionFact → Type 0
Climbs [] = Unit {0}
Climbs (fact ∷ facts) =
    All (λ (g : ProjectionFact). fact.authority_revision < g.authority_revision) facts
    × Climbs facts

fresh-above :
    (n : ℕ) (facts : List ProjectionFact)
    → All (λ (g : ProjectionFact). n ≤ g.authority_revision) facts
    → IsFresh fact_revision n facts
    → All (λ (g : ProjectionFact). n < g.authority_revision) facts
fresh-above n [] a f = tt
fresh-above n (fact ∷ facts) a f = (ground (arith, a.0, f.0), fresh-above n facts a.1 f.1)

pub Ascending-Climbs :
    (facts : List ProjectionFact)
    → Ascending facts
    → HasUniqueRevisions fact_revision facts
    → Climbs facts
Ascending-Climbs [] a u = tt
Ascending-Climbs (fact ∷ facts) a u =
    (fresh-above fact.authority_revision facts a.0 u.0, Ascending-Climbs facts a.1 u.1)

pub take-Climbs : (n : ℕ) (facts : List ProjectionFact) → Climbs facts → Climbs (take n facts)
take-Climbs zero facts s = tt
take-Climbs (suc n) [] s = tt
take-Climbs (suc n) (fact ∷ facts) s = (take-All _ n facts s.0, take-Climbs n facts s.1)

-- What a full page leaves out is above all that it holds.
abbrev pub LeftOut : ℕ → List ProjectionFact → ProjectionFact → Type 0
LeftOut n facts x =
    (length facts ≡ n)
    × All (λ (g : ProjectionFact). g.authority_revision < x.authority_revision) facts

pub mem-take :
    (n : ℕ) (x : ProjectionFact) (facts : List ProjectionFact)
    → Climbs facts
    → Memᴰ x facts
    → Memᴰ x (take n facts) ⊎ LeftOut n (take n facts) x
mem-take zero x facts s m = inr (refl, tt)
mem-take (suc n) x [] s m = elim m [ ]
mem-take (suc n) x (fact ∷ facts) s (Memᴰ.head q) = inl (Memᴰ.head q)
mem-take (suc n) x (fact ∷ facts) s (Memᴰ.tail m) = elim (mem-take n x facts s.1 m) [
  | inl k ↦ inl (Memᴰ.tail k)
  | inr (full, below) ↦ inr (ap suc full, (mem-All _ facts x s.0 m, below))
]

order-IsFresh :
    (n : ℕ) (facts : List ProjectionFact)
    → IsFresh fact_revision n facts
    → IsFresh fact_revision n (order_facts facts)
unfolding order_facts
order-IsFresh n [] f = tt
order-IsFresh n (fact ∷ facts) f =
    insert-All (λ (g : ProjectionFact). eqb n g.authority_revision ≡ false) fact (order_facts facts)
      f.0 (order-IsFresh n facts f.1)

insert-Unique :
    (fact : ProjectionFact) (facts : List ProjectionFact)
    → IsFresh fact_revision fact.authority_revision facts
    → HasUniqueRevisions fact_revision facts
    → HasUniqueRevisions fact_revision (insert_fact fact facts)
unfolding insert_fact
insert-Unique fact [] f u = (tt, tt)
insert-Unique fact (g ∷ facts) f u =
    elim (Bool-cases (leb fact.authority_revision g.authority_revision)) [
      | inl e ↦ rw (e, insert_fact) (f, u)
      | inr e ↦
          rw (e, insert_fact)
            ((
              insert-All
                  (λ (k : ProjectionFact). eqb g.authority_revision k.authority_revision ≡ false)
                  fact facts (ground (arith, f.0)) u.0,
              insert-Unique fact facts f.1 u.1,
            ))
    ]

pub order-Unique :
    (facts : List ProjectionFact)
    → HasUniqueRevisions fact_revision facts
    → HasUniqueRevisions fact_revision (order_facts facts)
unfolding order_facts
order-Unique [] u = tt
order-Unique (fact ∷ facts) u =
    insert-Unique fact (order_facts facts) (order-IsFresh fact.authority_revision facts u.0)
      (order-Unique facts u.1)

module _ {A : Type 0} (revision : A → ℕ) (p : A → Bool) where
  select-IsFresh : (n : ℕ) (xs : List A) → IsFresh revision n xs → IsFresh revision n (select p xs)
  unfolding select
  select-IsFresh n [] f = tt
  select-IsFresh n (x ∷ xs) f = elim (Bool-cases (p x)) [
    | inl e ↦ rw (e, select) (f.0, select-IsFresh n xs f.1)
    | inr e ↦ rw (e, select) (select-IsFresh n xs f.1)
  ]

  pub select-Unique :
      (xs : List A) → HasUniqueRevisions revision xs → HasUniqueRevisions revision (select p xs)
  unfolding select
  select-Unique [] u = tt
  select-Unique (x ∷ xs) u = elim (Bool-cases (p x)) [
    | inl e ↦ rw (e, select) (select-IsFresh (revision x) xs u.0, select-Unique xs u.1)
    | inr e ↦ rw (e, select) (select-Unique xs u.1)
  ]

module _ {A : Type 0} (revision : A → ℕ) (f : A → ProjectionFact)
    (keeps : (x : A) → (f x).authority_revision ≡ revision x) where
  map-IsFresh : (n : ℕ) (xs : List A) → IsFresh revision n xs → IsFresh fact_revision n (map f xs)
  map-IsFresh n [] a = tt
  map-IsFresh n (x ∷ xs) a = (ground (arith, a.0, keeps x), map-IsFresh n xs a.1)

  map-Unique :
      (xs : List A) → HasUniqueRevisions revision xs → HasUniqueRevisions fact_revision (map f xs)
  map-Unique [] u = tt
  map-Unique (x ∷ xs) u = (
    subst (λ n. IsFresh fact_revision n (map f xs)) (sym (keeps x))
        (map-IsFresh (revision x) xs u.0),
    map-Unique xs u.1,
  )

append-IsFresh :
    (n : ℕ) (xs ys : List ProjectionFact)
    → IsFresh fact_revision n xs
    → IsFresh fact_revision n ys
    → IsFresh fact_revision n (xs ++ ys)
append-IsFresh n [] ys f g = g
append-IsFresh n (x ∷ xs) ys f g = (f.0, append-IsFresh n xs ys f.1 g)

append-Unique :
    (xs ys : List ProjectionFact)
    → HasUniqueRevisions fact_revision xs
    → HasUniqueRevisions fact_revision ys
    → All (λ (x : ProjectionFact). IsFresh fact_revision x.authority_revision ys) xs
    → HasUniqueRevisions fact_revision (xs ++ ys)
append-Unique [] ys u v a = v
append-Unique (x ∷ xs) ys u v a =
    (append-IsFresh x.authority_revision xs ys u.0 a.0, append-Unique xs ys u.1 v a.1)

apart-facts :
    (p : CaseRow → Bool) (q : AdviceRow → Bool) (cases : List CaseRow) (advice : List AdviceRow)
    → All (λ (row : CaseRow). IsFresh advice_revision row.commit_revision advice) cases
    → All
        (λ (x : ProjectionFact).
          IsFresh fact_revision x.authority_revision (map fact_of_advice (select q advice)))
        (map fact_of_case (select p cases))
unfolding fact_of_case fact_of_advice select
apart-facts p q [] advice a = tt
apart-facts p q (row ∷ cases) advice a =
    let rest = apart-facts p q cases advice a.1 in
    elim (Bool-cases (p row)) [
      | inr e ↦ rw (e, select) rest
      | inl e ↦
          rw (e, select)
            (
              map-IsFresh advice_revision fact_of_advice (λ x. refl) row.commit_revision
                  (select q advice)
                  (select-IsFresh advice_revision q row.commit_revision advice a.0),
              rest,
            )
    ]

-- The facts of a tenant have revisions of their own.
pub tenant_facts-Unique :
    (tenant : String) (db : Db)
    → HasOwnRevisions db.next_revision db.cases db.advice
    → HasUniqueRevisions fact_revision (tenant_facts tenant db)
unfolding tenant_facts fact_of_case fact_of_advice
tenant_facts-Unique tenant db o =
    let p = λ (row : CaseRow). row.tenant_id == tenant in
    let q = λ (row : AdviceRow). row.tenant_id == tenant in
    append-Unique (map fact_of_case (select p db.cases)) (map fact_of_advice (select q db.advice))
      (map-Unique case_revision fact_of_case (λ x. refl) (select p db.cases)
        (select-Unique case_revision p db.cases o.cases_unique))
      (map-Unique advice_revision fact_of_advice (λ x. refl) (select q db.advice)
        (select-Unique advice_revision q db.advice o.advice_unique))
      (apart-facts p q db.cases db.advice o.apart)
