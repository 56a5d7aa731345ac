-- ===== src/Redis/Reader/RoundTrip.antt =====
-- Reading the encoding of a command, as a server that speaks the protocol does.
use retail_ops_microservices.Base.{
  ℕ, zero, suc, ◌≤◌, ◌<◌, String, some, List, [], ◌∷◌, ◌++◌, ◌≡◌, refl, arith,
}
use retail_ops_microservices.Base.Exec.{ok, ◌>>=◌}
use retail_ops_microservices.Base.Int.{pos}
use retail_ops_microservices.Base.Rows.{All}
use retail_ops_microservices.Base.Utf8.{Bytes, length, encode_code, encode, decode_from, decode}
use retail_ops_microservices.Base.Utf8.RoundTrip.{one_byte, char_below}
use retail_ops_microservices.Base.Decimal.{decimal}
use retail_ops_microservices.Base.Decimal.RoundTrip.{IsDigit, decimal-All, int-decimal}
use retail_ops_microservices.Redis.Reader.{
  RedisValues, bytes, array, nil, cons, take_exactly, until_crlf, read_exactly, read_line, read_int,
  read_bulk, read_many, read_array, read_after, read_response, encode_part, encode_parts,
  count_parts, encode_command,
}
use mathlib.Core.List.{append_assoc}

take_exactly-length : (bs rest : Bytes) → take_exactly (length bs) (bs ++ rest) ≡ some (bs, rest)
unfolding take_exactly
take_exactly-length [] rest = refl
take_exactly-length (b ∷ bs) rest = rw (take_exactly-length bs rest) refl

-- A line of digits ends at the CR LF behind it.
until_crlf_digits :
    (line rest : Bytes)
    → All IsDigit line
    → until_crlf (line ++ (13 ∷ 10 ∷ rest)) ≡ some (line, rest)
unfolding until_crlf
until_crlf_digits [] rest h = refl
until_crlf_digits (b ∷ []) rest h = ground arith
until_crlf_digits (b ∷ c ∷ line) rest (hb, hc) =
    ground (arith, until_crlf_digits (c ∷ line) rest hc)

encode_code_small : (n : ℕ) → n < 128 → encode_code n ≡ n ∷ []
encode_code_small n h = ground arith

-- The digits are decoded to a text, which is encoded as the same digits.
pub decode_digits :
    (line : Bytes)
    → All IsDigit line
    → (t : String) × (decode_from 0 0 0 line ≡ some t) × (encode t ≡ line)
unfolding decode_from encode
decode_digits [] h = ("", refl, refl)
decode_digits (b ∷ line) (hb, hl) =
    let (t, e, f) = decode_digits line hl in
    let (c, g, k) = char_below b (omega arith) in
    (
      String.◌∷◌ c t,
      rw (one_byte b line (omega arith), e, g) refl,
      rw (k, f, encode_code_small b (omega arith)) refl,
    )

-- A line with a number in decimal is read as the number.
read_int-decimal :
    (n : ℕ) (rest : Bytes) → read_int (decimal n ++ (13 ∷ 10 ∷ rest)) ≡ (ok (pos n), rest)
unfolding read_int read_line decode ◌>>=◌
read_int-decimal n rest =
    let (t, e, f) = decode_digits (decimal n) (decimal-All n) in
    rw (until_crlf_digits (decimal n) rest (decimal-All n), e, f, int-decimal n) refl

read_bulk-length :
    (bs rest : Bytes) → read_bulk (pos (length bs)) (bs ++ (13 ∷ 10 ∷ rest)) ≡ (ok (bytes bs), rest)
unfolding read_exactly ◌>>=◌
read_bulk-length bs rest =
    rw (take_exactly-length bs (13 ∷ 10 ∷ rest)) (unfold take_exactly in refl)

-- One part of a command is read as a bulk string with the part's bytes.
read_response-encode_part :
    (fuel : ℕ) (part : String) (rest : Bytes)
    → read_response (suc fuel) (encode_part part ++ rest) ≡ (ok (bytes (encode part)), rest)
unfolding read_response read_after ◌>>=◌ encode_part encode
read_response-encode_part fuel part rest =
    rw
      (
        append_assoc (decimal (length (encode part))) (13 ∷ 10 ∷ (encode part ++ (13 ∷ 10 ∷ [])))
            rest,
        read_int-decimal (length (encode part)) ((encode part ++ (13 ∷ 10 ∷ [])) ++ rest),
        append_assoc (encode part) (13 ∷ 10 ∷ []) rest,
        read_bulk-length (encode part) rest,
      )
      refl

abbrev pub bulk_strings : List String → RedisValues
bulk_strings [] = nil
bulk_strings (part ∷ parts) = cons (bytes (encode part)) (bulk_strings parts)

read_many-encode_parts :
    (fuel : ℕ) (parts : List String) (rest : Bytes)
    → read_many (read_response (suc fuel)) (count_parts parts) (encode_parts parts ++ rest)
      ≡ (ok (bulk_strings parts), rest)
unfolding read_many ◌>>=◌
read_many-encode_parts fuel [] rest = refl
read_many-encode_parts fuel (part ∷ parts) rest =
    rw
      (
        append_assoc (encode_part part) (encode_parts parts) rest,
        read_response-encode_part fuel part (encode_parts parts ++ rest),
        read_many-encode_parts fuel parts rest,
      )
      refl

-- Reading the bytes of a command, with fuel for two levels of nesting, gives the array of its
-- parts as bulk strings and leaves exactly what stands behind the command.
pub read_response-encode_command :
    (fuel : ℕ) (parts : List String) (rest : Bytes)
    → 2 ≤ fuel
    → read_response fuel (encode_command parts ++ rest) ≡ (ok (array (bulk_strings parts)), rest)
unfolding read_response encode_command read_after ◌>>=◌ read_array
read_response-encode_command zero parts rest h = absurd (omega arith)
read_response-encode_command (suc zero) parts rest h = absurd (omega arith)
read_response-encode_command (suc (suc fuel)) parts rest h =
    rw
      (
        append_assoc (decimal (count_parts parts)) (13 ∷ 10 ∷ encode_parts parts) rest,
        read_int-decimal (count_parts parts) (encode_parts parts ++ rest),
        read_many-encode_parts fuel parts rest,
      )
      refl
