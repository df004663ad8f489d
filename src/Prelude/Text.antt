-- ===== src/Prelude/Text.antt =====
-- Go's operations on text that the program uses.
use Prim.Native.Nat.{ℕ, zero, suc, ◌+◌, ◌/◌, ◌%◌, ◌<◌}
use Prim.Native.Char.{code}
use Prim.Native.String.{String}
use mathlib.Core.Path.{◌≡◌, refl, subst}
use mathlib.Core.Logic.{inl, inr}
use native.Mathlib.Omega.{arith}
use text.Mathlib.Text.{◌==◌}
use text.Mathlib.TextEquality.{eq_iff}
use text.Mathlib.TextPositions.{eq_refl}
use mathlib.Core.Bool.{Bool, true, false, not, ◌&&◌, ◌||◌}
use mathlib.Core.List.{List, [], ◌∷◌, ◌++◌}
use snagline.Prelude.Tests.{leb, ltb, eqb, if◌then◌else◌, Bool-cases}
use snagline.Prelude.Lists.{length, Bytes}

-- The code points of a text.
abbrev pub codes : String → List ℕ
codes String.[] = []
codes (String.◌∷◌ c s) = code c ∷ codes s

-- unicode.IsSpace
is_space : ℕ → Bool
is_space c =
    (leb 9 c && leb c 13)
    || eqb c 32
    || eqb c 0x85
    || eqb c 0xa0
    || eqb c 0x1680
    || (leb 0x2000 c && leb c 0x200a)
    || eqb c 0x2028
    || eqb c 0x2029
    || eqb c 0x202f
    || eqb c 0x205f
    || eqb c 0x3000

has_text : List ℕ → Bool
has_text [] = false
has_text (c ∷ cs) = not (is_space c) || has_text cs

-- strings.TrimSpace(value) != ""
unfoldable pub valid_text : String → Bool
unfolding has_text is_space
valid_text value = has_text (codes value)

pub is_lower_hex : ℕ → Bool
is_lower_hex c = (leb b'0' c && leb c b'9') || (leb b'a' c && leb c b'f')

unfoldable pub all_lower_hex : List ℕ → Bool
unfolding is_lower_hex
all_lower_hex [] = true
all_lower_hex (c ∷ cs) = is_lower_hex c && all_lower_hex cs

strip_prefix : List ℕ → List ℕ → List ℕ
strip_prefix [] cs = cs
strip_prefix (p ∷ ps) [] = []
strip_prefix (p ∷ ps) (c ∷ cs) = if eqb p c then strip_prefix ps cs else []

-- "sha256:" and 64 lowercase hexadecimal digits.
unfoldable pub valid_commitment : String → Bool
unfolding all_lower_hex strip_prefix
valid_commitment value =
    let hex = strip_prefix (codes "sha256:") (codes value) in
    eqb (length hex) 64 && all_lower_hex hex

digits : ℕ → ℕ → List ℕ → List ℕ
digits zero n rest = rest
digits (suc fuel) n rest =
    let more = digits fuel (n / 10) ((b'0' + n % 10) ∷ rest) in
    if ltb n 10 then (b'0' + n) ∷ rest else more

-- strconv.FormatInt(n, 10); 20 rounds print every 64-bit number.
unfoldable pub decimal : ℕ → List ℕ
unfolding digits
decimal n = digits 20 n []

utf8_char : ℕ → Bytes
utf8_char c =
    if ltb c 0x80
    then c ∷ []
    else if ltb c 0x800
    then (0xc0 + c / 64) ∷ (0x80 + c % 64) ∷ []
    else if ltb c 0x10000
    then (0xe0 + c / 4096) ∷ (0x80 + c / 64 % 64) ∷ (0x80 + c % 64) ∷ []
    else (0xf0 + c / 262144) ∷ (0x80 + c / 4096 % 64) ∷ (0x80 + c / 64 % 64) ∷ (0x80 + c % 64) ∷ []

utf8_codes : List ℕ → Bytes
unfolding utf8_char
utf8_codes [] = []
utf8_codes (c ∷ cs) = utf8_char c ++ utf8_codes cs

-- []byte(value)
unfoldable pub utf8 : String → Bytes
unfolding utf8_codes
utf8 value = utf8_codes (codes value)

blank : valid_text "" ≡ false
unfolding valid_text
blank = refl

pub valid_text-nonempty : (value : String) → valid_text value ≡ true → (value == "") ≡ false
valid_text-nonempty value h = elim (Bool-cases (value == "")) [
  | inr e ↦ e
  | inl e ↦ absurd (cc (subst (λ s. valid_text s ≡ true) ((eq_iff value "").0 e) h, blank))
]

-- A text that is not empty has a byte.
pub utf8-nonempty : (value : String) → (value == "") ≡ false → 0 < length (utf8 value)
unfolding utf8
utf8-nonempty String.[] h = absurd (cc (h, eq_refl ""))
utf8-nonempty (String.◌∷◌ c s) h = ground arith

pub append-nonempty : (xs ys : Bytes) (y : ℕ) → 0 < length (xs ++ (y ∷ ys))
append-nonempty [] ys y = omega arith
append-nonempty (x ∷ xs) ys y = omega arith
