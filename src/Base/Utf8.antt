-- ===== src/Base/Utf8.antt =====
-- `str.encode("utf-8")` and `bytes.decode("utf-8")`. A `String` is a sequence of Unicode scalar
-- values, so it has no lone surrogates, which Python refuses to encode.
pub mod RoundTrip
use retail_ops_microservices.Base.{
  ℕ, zero, suc, ◌+◌, ◌-◌, ◌*◌, ◌/◌, ◌%◌, String, Bool, true, false, ◌&&◌, Option, none, some, List,
  [], ◌∷◌, ◌++◌, ◌≡◌, refl, ltb, leb, if◌then◌else◌,
}
use Prim.Native.Nat.{compare, Ordering}
use Prim.Native.Char.{Char, char, code, IsLt, IsScalar}
use mathlib.Core.Option

abbrev pub Bytes : Type 0
Bytes = List ℕ

-- How many bytes.
abbrev pub length : Bytes → ℕ
length [] = 0
length (b ∷ bs) = suc (length bs)

-- The number of a code point as one to four bytes.
abbrev pub encode_code : ℕ → Bytes
encode_code n =
    if ltb n 128
    then n ∷ []
    else if ltb n 2048
    then (192 + n / 64) ∷ (128 + n % 64) ∷ []
    else if ltb n 65536
    then (224 + n / 4096) ∷ (128 + n / 64 % 64) ∷ (128 + n % 64) ∷ []
    else (240 + n / 262144) ∷ (128 + n / 4096 % 64) ∷ (128 + n / 64 % 64) ∷ (128 + n % 64) ∷ []

unfoldable pub encode : String → Bytes
encode String.[] = []
encode (String.◌∷◌ c s) = encode_code (code c) ++ encode s

-- `IsScalar n` is these tests on three comparisons of `n`.
abbrev Both : Ordering → Ordering → Type 0
Both Ordering.lt o = IsLt o
Both Ordering.eq _ = ⊥
Both Ordering.gt _ = ⊥

abbrev pub Scalar : Ordering → Ordering → Ordering → Type 0
Scalar Ordering.lt _ _ = Unit
Scalar Ordering.eq o p = Both o p
Scalar Ordering.gt o p = Both o p

abbrev decide_both : (o p : Ordering) → Option (Both o p)
decide_both Ordering.lt Ordering.lt = some tt
decide_both Ordering.lt Ordering.eq = none
decide_both Ordering.lt Ordering.gt = none
decide_both Ordering.eq _ = none
decide_both Ordering.gt _ = none

abbrev pub decide_scalar : (o p q : Ordering) → Option (Scalar o p q)
decide_scalar Ordering.lt _ _ = some tt
decide_scalar Ordering.eq p q = decide_both p q
decide_scalar Ordering.gt p q = decide_both p q

-- The character of a number; surrogates and numbers above 10FFFF have none.
unfoldable pub to_char : ℕ → Option Char
to_char n =
    Option.map (char n) (decide_scalar (compare n 55296) (compare 57343 n) (compare n 1114112))

-- What a byte that begins a longer sequence announces: how many bytes follow, the bits it brings,
-- and the least code point that needs that many.
abbrev pub lead : ℕ → Option (ℕ × ℕ × ℕ)
lead b =
    if ltb b 192
    then none
    else if ltb b 224
    then some (1, b - 192, 128)
    else if ltb b 240
    then some (2, b - 224, 2048)
    else if ltb b 248
    then some (3, b - 240, 65536)
    else none

abbrev pub prepend : Option Char → Option String → Option String
prepend (some c) (some s) = some (String.◌∷◌ c s)
prepend (some c) none = none
prepend none s = none

-- `pending` bytes are still to come of a code point with the bits `acc` so far; it has to be at
-- least `low`.
unfoldable pub decode_from : ℕ → ℕ → ℕ → Bytes → Option String
unfolding to_char
decode_from zero acc low [] = some ""
decode_from (suc pending) acc low [] = none
decode_from zero acc low (b ∷ bs) = elim (ltb b 128) [
  | true ↦ prepend (to_char b) (decode_from 0 0 0 bs)
  | false ↦ elim (lead b) [ none ↦ none | some (k, bits, least) ↦ decode_from k bits least bs ]
]
decode_from (suc pending) acc low (b ∷ bs) = elim (leb 128 b && ltb b 192) [
  | false ↦ none
  | true ↦ elim pending [
    | zero ↦ elim (leb low (acc * 64 + (b - 128))) [
      | true ↦ prepend (to_char (acc * 64 + (b - 128))) (decode_from 0 0 0 bs)
      | false ↦ none
    ]
    | suc k ↦ decode_from (suc k) (acc * 64 + (b - 128)) low bs
  ]
]

-- Strict: `none` where Python raises UnicodeDecodeError.
unfoldable pub decode : Bytes → Option String
unfolding decode_from
decode bs = decode_from 0 0 0 bs

test_decode : decode (encode "aé€😀") ≡ some "aé€😀"
unfolding decode encode
test_decode = refl
