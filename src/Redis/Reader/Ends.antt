-- ===== src/Redis/Reader/Ends.antt =====
-- Readings that come to an end within their fuel.
use retail_ops_microservices.Base.{
  ℕ, zero, suc, ◌≤◌, ◌<◌, String, Bool, true, false, Option, none, some, [], ◌∷◌, ◌≡◌, ◌≢◌, inl,
  inr, arith, Option-cases, if◌then◌else◌,
}
use retail_ops_microservices.Base.Exec.{err, pure, raise, ◌>>=◌, Result-cases}
use retail_ops_microservices.Base.Int.{ℤ, pos, negsuc}
use retail_ops_microservices.Base.Utf8.{Bytes, length, encode, decode}
use retail_ops_microservices.Base.Decimal.{int}
use retail_ops_microservices.Redis.Reader.{
  RedisError, redis_stream_error, unsupported_prefix, value_error, unicode_decode_error,
  out_of_fuel, RedisValue, bytes, integer, null, array, nil, cons, Reading, take_exactly,
  until_crlf, taken, read_exactly, decoded, read_line, as_number, read_int, read_bulk, read_many,
  read_array, read_simple, read_error, read_number, read_after, read_response,
}

-- On fewer than `n` bytes the reading does not run out of fuel, and it adds no bytes.
abbrev EndsBelow : {A : Type 0} → ℕ → Reading A → Type 0
EndsBelow n m =
    (s : Bytes) → length s < n → ((m s).0 ≢ err out_of_fuel) × (length (m s).1 ≤ length s)

module _ {A : Type 0} (n : ℕ) where
  EndsBelow-pure : (a : A) → EndsBelow n (pure {E = RedisError} a)
  EndsBelow-pure a s h = (λ e. cc e, omega arith)

  EndsBelow-raise : (x : RedisError) → x ≢ out_of_fuel → EndsBelow n (raise {A = A} x)
  EndsBelow-raise x d s h = (λ e. d (cc e), omega arith)

module _ {A B : Type 0} (n : ℕ) (m : Reading A) (f : A → Reading B) where
  EndsBelow-bind : EndsBelow n m → ((a : A) → EndsBelow n (f a)) → EndsBelow n (m >>= f)
  unfolding ◌>>=◌
  EndsBelow-bind hm hf s h = elim (Result-cases (m s).0) [
    | inl (a, e) ↦ rw e (ground (arith, hm s h, hf a (m s).1))
    | inr (x, e) ↦ rw e (ground (arith, hm s h))
  ]

take_exactly_shorter :
    (n : ℕ) (s : Bytes) (p : Bytes × Bytes) → take_exactly n s ≡ some p → length p.1 ≤ length s
unfolding take_exactly
take_exactly_shorter zero s p e = ground arith
take_exactly_shorter (suc n) [] p e = cc
take_exactly_shorter (suc n) (b ∷ s) p e = elim (Option-cases (take_exactly n s)) [
  | inl none_ ↦ cc
  | inr (q, found) ↦ ground (arith, take_exactly_shorter n s q found)
]

until_crlf_shorter : (s : Bytes) (p : Bytes × Bytes) → until_crlf s ≡ some p → length p.1 ≤ length s
unfolding until_crlf
until_crlf_shorter [] p e = cc
until_crlf_shorter (b ∷ []) p e = cc
until_crlf_shorter (b ∷ c ∷ s) p e = elim (Option-cases (until_crlf (c ∷ s))) [
  | inl none_ ↦ ground arith
  | inr (q, found) ↦ ground (arith, until_crlf_shorter (c ∷ s) q found)
]

EndsBelow-taken :
    (n : ℕ) (f : Bytes → Option (Bytes × Bytes))
    → ((s : Bytes) (p : Bytes × Bytes) → f s ≡ some p → length p.1 ≤ length s)
    → EndsBelow n (λ s. taken (f s))
EndsBelow-taken n f shorter s h = elim (Option-cases (f s)) [
  | inl none_ ↦ rw none_ (λ e. cc e, omega arith)
  | inr (p, found) ↦ rw found (λ e. cc e, shorter s p found)
]

EndsBelow-read_exactly : (n k : ℕ) → EndsBelow n (read_exactly k)
unfolding read_exactly
EndsBelow-read_exactly n k = EndsBelow-taken n (take_exactly k) (take_exactly_shorter k)

EndsBelow-decoded : (n : ℕ) (o : Option String) → EndsBelow n (decoded o)
EndsBelow-decoded n none = EndsBelow-raise n unicode_decode_error (λ e. cc e)
EndsBelow-decoded n (some t) = EndsBelow-pure n t

EndsBelow-read_line : (n : ℕ) → EndsBelow n read_line
unfolding read_line
EndsBelow-read_line n =
    EndsBelow-bind n _ _ (EndsBelow-taken n until_crlf until_crlf_shorter)
      λ line. EndsBelow-decoded n (decode line)

EndsBelow-as_number : (n : ℕ) (o : Option ℤ) → EndsBelow n (as_number o)
EndsBelow-as_number n none = EndsBelow-raise n value_error (λ e. cc e)
EndsBelow-as_number n (some z) = EndsBelow-pure n z

EndsBelow-read_int : (n : ℕ) → EndsBelow n read_int
unfolding read_int
EndsBelow-read_int n =
    EndsBelow-bind n _ _ (EndsBelow-read_line n) λ line. EndsBelow-as_number n (int (encode line))

EndsBelow-read_bulk : (n : ℕ) (z : ℤ) → EndsBelow n (read_bulk z)
unfolding read_bulk ◌>>=◌
EndsBelow-read_bulk n (negsuc zero) = EndsBelow-pure n null
EndsBelow-read_bulk n (negsuc (suc k)) = EndsBelow-raise n value_error (λ e. cc e)
EndsBelow-read_bulk n (pos size) =
    EndsBelow-bind n _ _ (EndsBelow-read_exactly n size)
      λ bs. EndsBelow-bind n _ _ (EndsBelow-read_exactly n 2) λ crlf. EndsBelow-pure n (bytes bs)

EndsBelow-if :
    {A : Type 0} (n : ℕ) (b : Bool) (l r : Reading A)
    → EndsBelow n l
    → EndsBelow n r
    → EndsBelow n (if b then l else r)
EndsBelow-if n true l r hl hr = hl
EndsBelow-if n false l r hl hr = hr

module _ (n : ℕ) (read : Reading RedisValue) (ends : EndsBelow n read) where
  EndsBelow-read_many : (count : ℕ) → EndsBelow n (read_many read count)
  unfolding read_many
  EndsBelow-read_many zero = EndsBelow-pure n nil
  EndsBelow-read_many (suc count) =
      EndsBelow-bind n _ _ ends
        λ v. EndsBelow-bind n _ _ (EndsBelow-read_many count) λ vs. EndsBelow-pure n (cons v vs)

  EndsBelow-read_array : (z : ℤ) → EndsBelow n (read_array read z)
  unfolding read_array ◌>>=◌
  EndsBelow-read_array (negsuc zero) = EndsBelow-pure n null
  EndsBelow-read_array (negsuc (suc k)) = EndsBelow-pure n (array nil)
  EndsBelow-read_array (pos count) =
      EndsBelow-bind n _ _ (EndsBelow-read_many count) λ vs. EndsBelow-pure n (array vs)

  EndsBelow-read_simple : EndsBelow n read_simple
  unfolding read_simple ◌>>=◌
  EndsBelow-read_simple =
      EndsBelow-bind n _ _ (EndsBelow-read_line n) λ line. EndsBelow-pure n (bytes (encode line))

  EndsBelow-read_error : EndsBelow n read_error
  unfolding read_error ◌>>=◌
  EndsBelow-read_error =
      EndsBelow-bind n _ _ (EndsBelow-read_line n)
        λ line. EndsBelow-raise n (redis_stream_error line) (λ e. cc e)

  EndsBelow-read_number : EndsBelow n read_number
  unfolding read_number ◌>>=◌
  EndsBelow-read_number =
      EndsBelow-bind n _ _ (EndsBelow-read_int n) λ z. EndsBelow-pure n (integer z)

  EndsBelow-read_after : (prefix : ℕ) → EndsBelow n (read_after read prefix)
  unfolding read_after
  EndsBelow-read_after prefix = EndsBelow-if n _ _ _ EndsBelow-read_simple (
      EndsBelow-if n _ _ _ EndsBelow-read_error (
        EndsBelow-if n _ _ _ EndsBelow-read_number (
          EndsBelow-if n _ _ _ (EndsBelow-bind n _ _ (EndsBelow-read_int n) (EndsBelow-read_bulk n))
            (EndsBelow-if n _ _ _ (EndsBelow-bind n _ _ (EndsBelow-read_int n) EndsBelow-read_array)
              (EndsBelow-raise n (unsupported_prefix prefix) (λ e. cc e))))))

EndsBelow-read_response : (fuel : ℕ) → EndsBelow fuel (read_response fuel)
unfolding read_response
EndsBelow-read_response zero s h = absurd (omega arith)
EndsBelow-read_response (suc fuel) [] h = (λ e. cc e, omega arith)
EndsBelow-read_response (suc fuel) (prefix ∷ s) h =
    let (a, b) =
      EndsBelow-read_after fuel (read_response fuel) (EndsBelow-read_response fuel) prefix s
        (omega arith) in
    (a, omega (arith, b))

-- With more fuel than the stream has bytes, a reading of one response comes to an end: it does not
-- run out of fuel, whatever the server has sent, and no more bytes are left than there were.
pub read_response_ends :
    (fuel : ℕ) (s : Bytes)
    → length s < fuel
    → ((read_response fuel s).0 ≢ err out_of_fuel) × (length (read_response fuel s).1 ≤ length s)
read_response_ends fuel s h = EndsBelow-read_response fuel s h
