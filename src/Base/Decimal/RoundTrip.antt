-- ===== src/Base/Decimal/RoundTrip.antt =====
-- `int` after `str`, and what the digits of a number are.
use retail_ops_microservices.Base.{
  ℕ, zero, suc, ◌+◌, ◌/◌, ◌%◌, ◌≤◌, ◌<◌, Bool, true, false, some, [], ◌∷◌, ◌≡◌, refl, ◌*◌, arith,
}
use retail_ops_microservices.Base.Int.{pos}
use retail_ops_microservices.Base.Rows.{All}
use retail_ops_microservices.Base.Utf8.{Bytes}
use retail_ops_microservices.Base.Decimal.{digits, decimal, scan, int}
use mathlib.Core.Option
use native.Mathlib.Decide.{dec_lt}

abbrev pub IsDigit : ℕ → Type 0
IsDigit c = (48 ≤ c) × (c ≤ 57)

scan_digit :
    (d : Bool) (x acc : ℕ) (out : Bytes)
    → x < 10
    → scan d acc ((48 + x) ∷ out) ≡ scan true (acc * 10 + x) out
unfolding scan
scan_digit d x acc out h = ground arith

scan-digits :
    (fuel n : ℕ) (d : Bool) (out : Bytes)
    → n ≤ fuel
    → scan d 0 (digits fuel n out) ≡ scan true n out
unfolding digits
scan-digits zero n d out h = ground (arith, scan_digit d (n % 10) 0 out)
scan-digits (suc fuel) n d out h = elim (dec_lt n 10) [
  | yes a ↦ ground (arith, scan_digit d n 0 out a)
  | no a ↦ ground (
    arith,
    scan-digits fuel (n / 10) d ((48 + n % 10) ∷ out) (omega arith),
    scan_digit true (n % 10) (n / 10) out (omega arith),
  )
]

digits-All : (fuel n : ℕ) (out : Bytes) → All IsDigit out → All IsDigit (digits fuel n out)
unfolding digits
digits-All zero n out h = ((omega arith, omega arith), h)
digits-All (suc fuel) n out h = elim (dec_lt n 10) [
  | yes a ↦ ground (arith, h)
  | no a ↦
      ground (arith, digits-All fuel (n / 10) ((48 + n % 10) ∷ out) ((omega arith, omega arith), h))
]

pub decimal-All : (n : ℕ) → All IsDigit (decimal n)
unfolding decimal
decimal-All n = digits-All n n [] tt

int-scan : (text : Bytes) → All IsDigit text → int text ≡ Option.map pos (scan false 0 text)
unfolding int scan
int-scan [] h = refl
int-scan (c ∷ cs) h = ground arith

-- Python reads back every number that it has written.
pub int-decimal : (n : ℕ) → int (decimal n) ≡ some (pos n)
int-decimal n =
    rw (int-scan (decimal n) (decimal-All n))
      (unfold decimal scan in rw (scan-digits n n false [] (omega arith)) refl)
