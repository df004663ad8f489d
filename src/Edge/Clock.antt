-- ===== src/Edge/Clock.antt =====
-- sqlTime of internal/sspedge/store.go: the order that SQLite gives to the texts of two times.
-- A time is a count of nanoseconds; the seconds of a text have a fixed width.
use snagline.Prelude.{
  ℕ, zero, suc, ◌+◌, ◌/◌, ◌%◌, Bool, true, false, ◌&&◌, ◌||◌, [], ◌∷◌, ◌++◌, eqb, ltb,
  if◌then◌else◌, Bytes,
}

-- `n` decimal digits, the highest first
unfoldable pub fixed_digits : ℕ → ℕ → Bytes → Bytes
fixed_digits zero value rest = rest
fixed_digits (suc n) value rest = fixed_digits n (value / 10) ((b'0' + value % 10) ∷ rest)

-- The trailing zeros of time.RFC3339Nano are dropped.
unfoldable pub trimmed : Bytes → Bytes
trimmed [] = []
trimmed (c ∷ cs) =
    let rest = trimmed cs in
    elim rest [ [] ↦ if eqb c b'0' then [] else c ∷ [] | x ∷ xs ↦ c ∷ x ∷ xs ]

-- What follows the seconds.
unfoldable pub fraction_text : ℕ → Bytes
fraction_text nanoseconds =
    if eqb nanoseconds 0
    then b'Z' ∷ []
    else b'.' ∷ (trimmed (fixed_digits 9 nanoseconds []) ++ (b'Z' ∷ []))

-- memcmp
unfoldable pub bytes_before : Bytes → Bytes → Bool
bytes_before xs [] = false
bytes_before [] (y ∷ ys) = true
bytes_before (x ∷ xs) (y ∷ ys) = ltb x y || (eqb x y && bytes_before xs ys)

abbrev pub second : ℕ
second = 1000000000

-- a < b on the texts
unfoldable pub text_before : ℕ → ℕ → Bool
text_before a b =
    ltb (a / second) (b / second)
    || (eqb (a / second) (b / second)
        && bytes_before (fraction_text (a % second)) (fraction_text (b % second)))
