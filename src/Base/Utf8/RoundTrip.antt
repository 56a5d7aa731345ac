-- ===== src/Base/Utf8/RoundTrip.antt =====
-- Decoding what was encoded.
use retail_ops_microservices.Base.{
  ℕ, suc, ◌+◌, ◌*◌, ◌/◌, ◌%◌, ◌≤◌, ◌<◌, String, some, ◌∷◌, ◌++◌, ◌≡◌, refl, sym, ap, ◌∙◌, arith,
}
use retail_ops_microservices.Base.Utf8.{
  Bytes, encode_code, encode, Scalar, decide_scalar, to_char, prepend, decode_from, decode,
}
use Prim.Native.Nat.{compare, Ordering}
use native.Mathlib.Omega.{compare-lt, compare-eq, compare-gt}
use mathlib.Core.Path.{subst}
use native.Mathlib.Decide.{dec_lt}
use Prim.Native.Char.{Char, char, code}

decide_scalar-some : (o p q : Ordering) (x : Scalar o p q) → decide_scalar o p q ≡ some x
decide_scalar-some Ordering.lt p q x = refl
decide_scalar-some Ordering.eq Ordering.lt Ordering.lt x = refl
decide_scalar-some Ordering.gt Ordering.lt Ordering.lt x = refl
decide_scalar-some Ordering.eq Ordering.lt Ordering.eq x = elim x [ ]
decide_scalar-some Ordering.eq Ordering.lt Ordering.gt x = elim x [ ]
decide_scalar-some Ordering.eq Ordering.eq q x = elim x [ ]
decide_scalar-some Ordering.eq Ordering.gt q x = elim x [ ]
decide_scalar-some Ordering.gt Ordering.lt Ordering.eq x = elim x [ ]
decide_scalar-some Ordering.gt Ordering.lt Ordering.gt x = elim x [ ]
decide_scalar-some Ordering.gt Ordering.eq q x = elim x [ ]
decide_scalar-some Ordering.gt Ordering.gt q x = elim x [ ]

pub to_char-code : (c : Char) → to_char (code c) ≡ some c
unfolding to_char
to_char-code (char n p) =
    rw (decide_scalar-some (compare n 55296) (compare 57343 n) (compare n 1114112) p) refl

inner :
    (k x acc low : ℕ) (bs : Bytes)
    → x < 64
    → decode_from (suc (suc k)) acc low ((128 + x) ∷ bs) ≡ decode_from (suc k) (acc * 64 + x) low bs
unfolding decode_from
inner k x acc low bs h = ground arith

last :
    (x acc low : ℕ) (bs : Bytes)
    → x < 64
    → low ≤ acc * 64 + x
    → decode_from 1 acc low ((128 + x) ∷ bs)
      ≡ prepend (to_char (acc * 64 + x)) (decode_from 0 0 0 bs)
unfolding decode_from
last x acc low bs h e = ground arith

first_two :
    (x : ℕ) (bs : Bytes) → x < 32 → decode_from 0 0 0 ((192 + x) ∷ bs) ≡ decode_from 1 x 128 bs
unfolding decode_from
first_two x bs h = ground arith

first_three :
    (x : ℕ) (bs : Bytes) → x < 16 → decode_from 0 0 0 ((224 + x) ∷ bs) ≡ decode_from 2 x 2048 bs
unfolding decode_from
first_three x bs h = ground arith

first_four :
    (x : ℕ) (bs : Bytes) → x < 8 → decode_from 0 0 0 ((240 + x) ∷ bs) ≡ decode_from 3 x 65536 bs
unfolding decode_from
first_four x bs h = ground arith

pub one_byte :
    (n : ℕ) (bs : Bytes)
    → n < 128
    → decode_from 0 0 0 (n ∷ bs) ≡ prepend (to_char n) (decode_from 0 0 0 bs)
unfolding decode_from
one_byte n bs h = ground arith

-- The groups of six bits of a number, put together again.
two_groups : (n : ℕ) → n / 64 * 64 + n % 64 ≡ n
two_groups n = omega arith

three_groups : (n : ℕ) → (n / 4096 * 64 + n / 64 % 64) * 64 + n % 64 ≡ n
three_groups n = omega arith

four_groups : (n : ℕ) → ((n / 262144 * 64 + n / 4096 % 64) * 64 + n / 64 % 64) * 64 + n % 64 ≡ n
four_groups n = omega arith

decode_two :
    (n : ℕ) (bs : Bytes)
    → 128 ≤ n
    → n < 2048
    → decode_from 0 0 0 ((192 + n / 64) ∷ (128 + n % 64) ∷ bs)
      ≡ prepend (to_char n) (decode_from 0 0 0 bs)
decode_two n bs l h =
    first_two (n / 64) ((128 + n % 64) ∷ bs) (omega arith)
    ∙ last (n % 64) (n / 64) 128 bs (omega arith) (omega arith)
    ∙ ap (λ m. prepend (to_char m) (decode_from 0 0 0 bs)) (two_groups n)

decode_three :
    (n : ℕ) (bs : Bytes)
    → 2048 ≤ n
    → n < 65536
    → decode_from 0 0 0 ((224 + n / 4096) ∷ (128 + n / 64 % 64) ∷ (128 + n % 64) ∷ bs)
      ≡ prepend (to_char n) (decode_from 0 0 0 bs)
decode_three n bs l h =
    first_three (n / 4096) ((128 + n / 64 % 64) ∷ (128 + n % 64) ∷ bs) (omega arith)
    ∙ inner 0 (n / 64 % 64) (n / 4096) 2048 ((128 + n % 64) ∷ bs) (omega arith)
    ∙ last (n % 64) (n / 4096 * 64 + n / 64 % 64) 2048 bs (omega arith) (omega arith)
    ∙ ap (λ m. prepend (to_char m) (decode_from 0 0 0 bs)) (three_groups n)

decode_four :
    (n : ℕ) (bs : Bytes)
    → 65536 ≤ n
    → n < 1114112
    → decode_from 0 0 0
        ((240 + n / 262144) ∷ (128 + n / 4096 % 64) ∷ (128 + n / 64 % 64) ∷ (128 + n % 64) ∷ bs)
      ≡ prepend (to_char n) (decode_from 0 0 0 bs)
decode_four n bs l h =
    first_four (n / 262144) ((128 + n / 4096 % 64) ∷ (128 + n / 64 % 64) ∷ (128 + n % 64) ∷ bs)
      (omega arith)
    ∙ inner 1 (n / 4096 % 64) (n / 262144) 65536 ((128 + n / 64 % 64) ∷ (128 + n % 64) ∷ bs)
        (omega arith)
    ∙ inner 0 (n / 64 % 64) (n / 262144 * 64 + n / 4096 % 64) 65536 ((128 + n % 64) ∷ bs)
        (omega arith)
    ∙ last (n % 64) ((n / 262144 * 64 + n / 4096 % 64) * 64 + n / 64 % 64) 65536 bs (omega arith)
        (omega arith)
    ∙ ap (λ m. prepend (to_char m) (decode_from 0 0 0 bs)) (four_groups n)

-- The bytes of one code point, read in front of others.
decode_from-encode_code :
    (n : ℕ) (bs : Bytes)
    → n < 1114112
    → decode_from 0 0 0 (encode_code n ++ bs) ≡ prepend (to_char n) (decode_from 0 0 0 bs)
decode_from-encode_code n bs h = elim (dec_lt n 128) [
  | yes a ↦ ground (arith, one_byte n bs a)
  | no a ↦ elim (dec_lt n 2048) [
    | yes b ↦ ground (arith, decode_two n bs (omega arith) b)
    | no b ↦ elim (dec_lt n 65536) [
      | yes c ↦ ground (arith, decode_three n bs (omega arith) c)
      | no c ↦ ground (arith, decode_four n bs (omega arith) h)
    ]
  ]
]

below :
    (n : ℕ) (o p q : Ordering)
    → o ≡ compare n 55296
    → q ≡ compare n 1114112
    → Scalar o p q
    → n < 1114112
below n Ordering.lt p q a b x = omega (arith, compare-lt n 55296 (sym a))
below n Ordering.eq Ordering.lt Ordering.lt a b x = compare-lt n 1114112 (sym b)
below n Ordering.eq Ordering.lt Ordering.eq a b x = elim x [ ]
below n Ordering.eq Ordering.lt Ordering.gt a b x = elim x [ ]
below n Ordering.eq Ordering.eq q a b x = elim x [ ]
below n Ordering.eq Ordering.gt q a b x = elim x [ ]
below n Ordering.gt Ordering.lt Ordering.lt a b x = compare-lt n 1114112 (sym b)
below n Ordering.gt Ordering.lt Ordering.eq a b x = elim x [ ]
below n Ordering.gt Ordering.lt Ordering.gt a b x = elim x [ ]
below n Ordering.gt Ordering.eq q a b x = elim x [ ]
below n Ordering.gt Ordering.gt q a b x = elim x [ ]

code-below : (c : Char) → code c < 1114112
code-below (char n x) = below n (compare n 55296) (compare 57343 n) (compare n 1114112) refl refl x

decode_from-encode : (s : String) → decode_from 0 0 0 (encode s) ≡ some s
unfolding decode_from encode
decode_from-encode String.[] = refl
decode_from-encode (String.◌∷◌ c s) =
    rw
      (
        decode_from-encode_code (code c) (encode s) (code-below c),
        to_char-code c,
        decode_from-encode s,
      )
      refl

-- Every text is decoded from its own encoding.
pub decode-encode : (s : String) → decode (encode s) ≡ some s
unfolding decode
decode-encode s = decode_from-encode s

char_of : (n : ℕ) (o : Ordering) → n < 55296 → o ≡ compare n 55296 → (c : Char) × (code c ≡ n)
char_of n Ordering.lt h e =
    (char n (subst (λ q. Scalar q (compare 57343 n) (compare n 1114112)) e tt), refl)
char_of n Ordering.eq h e = absurd (omega (arith, compare-eq n 55296 (sym e)))
char_of n Ordering.gt h e = absurd (omega (arith, compare-gt n 55296 (sym e)))

-- Every number below the surrogates has a character.
pub char_below : (n : ℕ) → n < 55296 → (c : Char) × (to_char n ≡ some c) × (code c ≡ n)
char_below n h =
    let (c, e) = char_of n (compare n 55296) h refl in
    (c, subst (λ m. to_char m ≡ some c) e (to_char-code c), e)
