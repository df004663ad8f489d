-- ===== src/Authority/Chosen.antt =====
-- The rows that Claim of internal/authority/postgres/outbox.go selects.
use snagline.Prelude.{
  ℕ, zero, suc, ◌≤◌, String, ◌≡◌, refl, ◌∙◌, inl, inr, ◌⊎◌, Bool, true, false, some, ◌||◌, List, [],
  ◌∷◌, arith, eq_iff, eq_refl, find, any, select, All, Bool-cases, take, length,
}
use snagline.Authority.Tables.{OutboxRow}
use snagline.Authority.Outbox.{has_id, due_le, insert_due, order_due}
use snagline.Authority.Emitted.{HasUniqueIds}
use snagline.Authority.OutboxRows.{row_of, IsRow, IsRow-cons}

pub All-map :
    {P Q : OutboxRow → Type 0} (f : (row : OutboxRow) → P row → Q row) (rows : List OutboxRow)
    → All P rows
    → All Q rows
All-map f [] a = tt
All-map f (row ∷ rows) a = (f row a.0, All-map f rows a.1)

select-IsRow :
    (p : OutboxRow → Bool) (rows : List OutboxRow)
    → HasUniqueIds rows
    → All (IsRow p rows) (select p rows)
unfolding select
select-IsRow p [] u = tt
select-IsRow p (row ∷ rows) u =
    let rest =
      All-map {P = IsRow p rows} {Q = IsRow p (row ∷ rows)} (λ r. IsRow-cons p r row rows u.0)
        (select p rows) (select-IsRow p rows u.1) in
    elim (Bool-cases (p row)) [
      | inl h ↦ rw (h, select) ((unfold find in ground (arith, eq_refl row.outbox_id), h), rest)
      | inr h ↦ rw (h, select) rest
    ]

any-select :
    (p : OutboxRow → Bool) (id : String) (rows : List OutboxRow)
    → any (has_id id) rows ≡ false
    → any (has_id id) (select p rows) ≡ false
unfolding any select
any-select p id [] h = refl
any-select p id (row ∷ rows) h = ground (arith, any-select p id rows)

select-HasUniqueIds :
    (p : OutboxRow → Bool) (rows : List OutboxRow)
    → HasUniqueIds rows
    → HasUniqueIds (select p rows)
unfolding select
select-HasUniqueIds p [] u = tt
select-HasUniqueIds p (row ∷ rows) u =
    let rest = select-HasUniqueIds p rows u.1 in
    elim (Bool-cases (p row)) [
      | inl h ↦ rw (h, select) (any-select p row.outbox_id rows u.0, rest)
      | inr h ↦ rw (h, select) rest
    ]

any-take :
    (n : ℕ) (id : String) (rows : List OutboxRow)
    → any (has_id id) rows ≡ false
    → any (has_id id) (take n rows) ≡ false
unfolding any
any-take zero id rows h = refl
any-take (suc n) id [] h = refl
any-take (suc n) id (row ∷ rows) h = ground (arith, any-take n id rows)

take-HasUniqueIds : (n : ℕ) (rows : List OutboxRow) → HasUniqueIds rows → HasUniqueIds (take n rows)
take-HasUniqueIds zero rows u = tt
take-HasUniqueIds (suc n) [] u = tt
take-HasUniqueIds (suc n) (row ∷ rows) u =
    (any-take n row.outbox_id rows u.0, take-HasUniqueIds n rows u.1)

take-All :
    (P : OutboxRow → Type 0) (n : ℕ) (rows : List OutboxRow) → All P rows → All P (take n rows)
take-All P zero rows a = tt
take-All P (suc n) [] a = tt
take-All P (suc n) (row ∷ rows) a = (a.0, take-All P n rows a.1)

pub length-take-le {ℓ} : {A : Type ℓ} (n : ℕ) (xs : List A) → length (take n xs) ≤ n
length-take-le zero xs = omega arith
length-take-le (suc n) [] = omega arith
length-take-le (suc n) (x ∷ xs) = omega (arith, length-take-le n xs)

selected_id :
    (p : OutboxRow → Bool) (id : String) (rows : List OutboxRow) (row : OutboxRow)
    → row_of id rows ≡ some row
    → p row ≡ true
    → any (has_id id) (select p rows) ≡ true
unfolding any select find
selected_id p id [] row found h = absurd (ground arith)
selected_id p id (other ∷ rows) row found h = ground (arith, selected_id p id rows row)

taken_or_full :
    (n : ℕ) (id : String) (rows : List OutboxRow)
    → any (has_id id) rows ≡ true
    → (any (has_id id) (take n rows) ≡ true) ⊎ (length (take n rows) ≡ n)
unfolding any
taken_or_full zero id rows h = inr refl
taken_or_full (suc n) id [] h = absurd (ground arith)
taken_or_full (suc n) id (row ∷ rows) h = elim (Bool-cases (has_id id row)) [
  | inl e ↦ inl (ground arith)
  | inr e ↦ (elim (taken_or_full n id rows (ground arith)) [
    | inl k ↦ inl (ground arith)
    | inr k ↦ inr (ground arith)
  ])
]

module _ (text_le : String → String → Bool) where
  any-insert_due :
      (id : String) (row : OutboxRow) (rows : List OutboxRow)
      → any (has_id id) (insert_due text_le row rows) ≡ (has_id id row || any (has_id id) rows)
  unfolding any insert_due
  any-insert_due id row [] = refl
  any-insert_due id row (other ∷ rows) = ground (arith, any-insert_due id row rows)

  any-order_due :
      (id : String) (rows : List OutboxRow)
      → any (has_id id) (order_due text_le rows) ≡ any (has_id id) rows
  unfolding any order_due
  any-order_due id [] = refl
  any-order_due id (row ∷ rows) =
      ground (arith, any-insert_due id row (order_due text_le rows), any-order_due id rows)

  insert_due-HasUniqueIds :
      (row : OutboxRow) (rows : List OutboxRow)
      → any (has_id row.outbox_id) rows ≡ false
      → HasUniqueIds rows
      → HasUniqueIds (insert_due text_le row rows)
  unfolding any insert_due
  insert_due-HasUniqueIds row [] fresh u = (refl, tt)
  insert_due-HasUniqueIds row (other ∷ rows) fresh u = ground (
    arith,
    any-insert_due other.outbox_id row rows,
    insert_due-HasUniqueIds row rows,
    eq_iff other.outbox_id row.outbox_id,
    eq_iff row.outbox_id other.outbox_id,
  )

  order_due-HasUniqueIds :
      (rows : List OutboxRow) → HasUniqueIds rows → HasUniqueIds (order_due text_le rows)
  unfolding order_due
  order_due-HasUniqueIds [] u = tt
  order_due-HasUniqueIds (row ∷ rows) u =
      insert_due-HasUniqueIds row (order_due text_le rows) (any-order_due row.outbox_id rows ∙ u.0)
        (order_due-HasUniqueIds rows u.1)

  insert_due-All :
      (P : OutboxRow → Type 0) (row : OutboxRow) (rows : List OutboxRow)
      → P row
      → All P rows
      → All P (insert_due text_le row rows)
  unfolding insert_due
  insert_due-All P row [] h a = (h, tt)
  insert_due-All P row (other ∷ rows) h a = elim (Bool-cases (due_le text_le row other)) [
    | inl le ↦ rw (le, insert_due) (h, a)
    | inr gt ↦ rw (gt, insert_due) (a.0, insert_due-All P row rows h a.1)
  ]

  order_due-All :
      (P : OutboxRow → Type 0) (rows : List OutboxRow) → All P rows → All P (order_due text_le rows)
  unfolding order_due
  order_due-All P [] a = tt
  order_due-All P (row ∷ rows) a =
      insert_due-All P row (order_due text_le rows) a.0 (order_due-All P rows a.1)

  -- The rows that a claim selects.
  abbrev pub chosen : (OutboxRow → Bool) → ℕ → List OutboxRow → List OutboxRow
  chosen p limit rows = take limit (order_due text_le (select p rows))

  pub chosen-IsRow :
      (p : OutboxRow → Bool) (limit : ℕ) (rows : List OutboxRow)
      → HasUniqueIds rows
      → All (IsRow p rows) (chosen p limit rows)
  chosen-IsRow p limit rows u =
      take-All (IsRow p rows) limit (order_due text_le (select p rows))
        (order_due-All (IsRow p rows) (select p rows) (select-IsRow p rows u))

  -- A row that passes is chosen, unless the limit is reached.
  pub chosen_or_full :
      (p : OutboxRow → Bool) (limit : ℕ) (rows : List OutboxRow) (row : OutboxRow)
      → IsRow p rows row
      → (any (has_id row.outbox_id) (chosen p limit rows) ≡ true)
        ⊎ (length (chosen p limit rows) ≡ limit)
  chosen_or_full p limit rows row (found, h) =
      taken_or_full limit row.outbox_id (order_due text_le (select p rows))
        (any-order_due row.outbox_id (select p rows) ∙ selected_id p row.outbox_id rows row found h)

  pub chosen-HasUniqueIds :
      (p : OutboxRow → Bool) (limit : ℕ) (rows : List OutboxRow)
      → HasUniqueIds rows
      → HasUniqueIds (chosen p limit rows)
  chosen-HasUniqueIds p limit rows u =
      take-HasUniqueIds limit _
        (order_due-HasUniqueIds (select p rows) (select-HasUniqueIds p rows u))
