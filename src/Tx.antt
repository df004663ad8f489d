-- ===== src/Tx.antt =====
-- Fallible Go functions and database transactions. A transaction's error drops what it wrote:
-- every error return of a transaction body is followed by a rollback.
use snagline.Prelude.{◌≡◌, refl, ◌⊎◌, inl, inr, Bool, true, false}

pub data Result {ℓ} (E A : Type ℓ) : Type ℓ where
  ok : A → Result E A
  err : E → Result E A

abbrev pub Tx {ℓ} : Type ℓ → Type ℓ → Type ℓ → Type ℓ
Tx S E A = S → Result E (A × S)

infixl 5 ◌>>=◌ ◌>>◌
abbrev pub ◌>>=◌ {ℓ} : {S E A B : Type ℓ} → Tx S E A → (A → Tx S E B) → Tx S E B
◌>>=◌ m f s = elim (m s) [ ok (a, s') ↦ f a s' | err e ↦ err e ]

abbrev pub ◌>>◌ {ℓ} : {S E A B : Type ℓ} → Tx S E A → Tx S E B → Tx S E B
m >> k = m >>= λ _. k

abbrev pub pure {ℓ} : {S E A : Type ℓ} → A → Tx S E A
pure a s = ok (a, s)

abbrev pub fail {ℓ} : {S E A : Type ℓ} → E → Tx S E A
fail e s = err e

abbrev pub guard : {S E : Type 0} → Bool → E → Tx S E (Unit {0})
guard true e s = ok (tt, s)
guard false e s = err e

-- A query of the current state.
abbrev pub gets {ℓ} : {S E A : Type ℓ} → (S → A) → Tx S E A
gets f s = ok (f s, s)

pub Result-cases {ℓ} :
    {E A : Type ℓ} (r : Result E A) → ((a : A) × (r ≡ ok a)) ⊎ ((e : E) × (r ≡ err e))
Result-cases (ok a) = inl (a, refl)
Result-cases (err e) = inr (e, refl)
