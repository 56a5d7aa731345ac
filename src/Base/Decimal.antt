-- ===== src/Base/Decimal.antt =====
-- `str` and `int` of Python's integers. Texts are the numbers of their characters here. Of what
-- `int` accepts, the digits and the white space outside ASCII are left out.
pub mod RoundTrip
use retail_ops_microservices.Base.{
  ℕ, zero, suc, ◌+◌, ◌-◌, ◌*◌, ◌/◌, ◌%◌, String, Bool, true, false, ◌&&◌, ◌||◌, Option, none, some,
  List, [], ◌∷◌, ◌≡◌, refl, leb, ltb, num_eq, or_else, if◌then◌else◌,
}
use retail_ops_microservices.Base.Int.{ℤ, pos, negsuc}
use retail_ops_microservices.Base.Utf8.{Bytes, encode, decode_from, decode}
use mathlib.Core.Option

-- The digits of `n` in front of `out`; `n` rounds are enough.
unfoldable pub digits : ℕ → ℕ → Bytes → Bytes
digits zero n out = (48 + n % 10) ∷ out
digits (suc fuel) n out = elim (ltb n 10) [
  | true ↦ (48 + n) ∷ out
  | false ↦ digits fuel (n / 10) ((48 + n % 10) ∷ out)
]

unfoldable pub decimal : ℕ → Bytes
unfolding digits
decimal n = digits n n []

-- `str(n)`
abbrev pub int_codes : ℤ → Bytes
int_codes (pos n) = decimal n
int_codes (negsuc n) = 45 ∷ decimal (suc n)

abbrev is_digit : ℕ → Bool
is_digit c = leb 48 c && leb c 57

abbrev pub is_space : ℕ → Bool
is_space c = leb 9 c && leb c 13 || leb 28 c && leb c 32

abbrev all_space : Bytes → Bool
all_space [] = true
all_space (c ∷ cs) = is_space c && all_space cs

-- The digits that are left, `_` between two of them, and white space behind them.
unfoldable pub scan : Bool → ℕ → Bytes → Option ℕ
scan after_digit acc [] = if after_digit then some acc else none
scan after_digit acc (c ∷ cs) = elim (is_digit c) [
  | true ↦ scan true (acc * 10 + (c - 48)) cs
  | false ↦ elim (after_digit && num_eq c 95) [
    | true ↦ scan false acc cs
    | false ↦ if after_digit && is_space c && all_space cs then some acc else none
  ]
]

abbrev negate : ℕ → ℤ
negate zero = pos zero
negate (suc n) = negsuc n

abbrev skip_space : Bytes → Bytes
skip_space [] = []
skip_space (c ∷ cs) = if is_space c then skip_space cs else c ∷ cs

abbrev pub signed : Bytes → Option ℤ
unfolding scan
signed [] = none
signed (c ∷ cs) =
    if num_eq c 45
    then Option.map negate (scan false 0 cs)
    else if num_eq c 43
    then Option.map pos (scan false 0 cs)
    else Option.map pos (scan false 0 (c ∷ cs))

-- `int(text)`: `none` where Python raises ValueError.
unfoldable pub int : Bytes → Option ℤ
unfolding scan
int text = signed (skip_space text)

test_int :
    (int (encode " -1_0 ") ≡ some (negsuc 9))
    × (int (encode "1__0") ≡ none)
    × (int (encode "+7") ≡ some (pos 7))
    × (int [] ≡ none)
    × (int_codes (negsuc 119) ≡ encode "-120")
unfolding int encode decimal
test_int = (refl, refl, refl, refl, refl)
