-- ===== src/Redis/Reader.antt =====
-- `_read_response`, `_read_line` and `_encode_command` over the bytes that the server has sent
-- before it closes the connection. The 64 KiB limit of asyncio on a line is left out.
pub mod Ends
pub mod RoundTrip
use retail_ops_microservices.Base.{
  ℕ, zero, suc, ◌+◌, String, Bool, true, false, ◌&&◌, Option, none, some, List, [], ◌∷◌, ◌++◌, ◌≡◌,
  refl, num_eq, if◌then◌else◌,
}
use retail_ops_microservices.Base.Exec.{Result, ok, err, Exec, pure, raise, continue, ◌>>=◌, ◌>>◌}
use retail_ops_microservices.Base.Int.{ℤ, pos, negsuc}
use retail_ops_microservices.Base.Utf8.{Bytes, length, encode, decode_from, decode}
use retail_ops_microservices.Base.Decimal.{scan, int, digits, decimal}

-- The exceptions, and `out_of_fuel` for a reading that was not given enough rounds.
pub data RedisError : Type 0 where
  redis_stream_error : String → RedisError
  unsupported_prefix : ℕ → RedisError
  unexpected_response : RedisError
  incomplete_read : RedisError
  value_error : RedisError
  unicode_decode_error : RedisError
  connection_refused : RedisError
  out_of_fuel : RedisError

mutual
  pub data RedisValue : Type 0 where
    bytes : Bytes → RedisValue
    integer : ℤ → RedisValue
    str : String → RedisValue
    null : RedisValue
    array : RedisValues → RedisValue

  pub data RedisValues : Type 0 where
    nil : RedisValues
    cons : RedisValue → RedisValues → RedisValues

-- An action that takes bytes off the stream.
abbrev pub Reading : Type 0 → Type 0
Reading A = Exec Bytes RedisError A

abbrev in_front : ℕ → Option (Bytes × Bytes) → Option (Bytes × Bytes)
in_front b none = none
in_front b (some (taken, rest)) = some (b ∷ taken, rest)

unfoldable pub take_exactly : ℕ → Bytes → Option (Bytes × Bytes)
take_exactly zero bs = some ([], bs)
take_exactly (suc n) [] = none
take_exactly (suc n) (b ∷ bs) = in_front b (take_exactly n bs)

-- What stands before the first CR LF, and what stands behind it.
unfoldable pub until_crlf : Bytes → Option (Bytes × Bytes)
until_crlf [] = none
until_crlf (b ∷ []) = none
until_crlf (b ∷ c ∷ bs) =
    let later = until_crlf (c ∷ bs) in
    if num_eq b 13 && num_eq c 10 then some ([], bs) else in_front b later

-- At the end of the stream the bytes that were there are gone.
abbrev pub taken : Option (Bytes × Bytes) → Result RedisError Bytes × Bytes
taken none = (err incomplete_read, [])
taken (some (bs, rest)) = (ok bs, rest)

unfoldable pub read_exactly : ℕ → Reading Bytes
unfolding take_exactly
read_exactly n s = taken (take_exactly n s)

abbrev pub decoded : Option String → Reading String
decoded none = raise unicode_decode_error
decoded (some t) = pure t

unfoldable pub read_line : Reading String
unfolding until_crlf decode ◌>>=◌
read_line = do line ← λ s. taken (until_crlf s); decoded (decode line)

abbrev pub as_number : Option ℤ → Reading ℤ
as_number none = raise value_error
as_number (some z) = pure z

-- `int(await cls._read_line(reader))`
unfoldable pub read_int : Reading ℤ
unfolding read_line int ◌>>=◌
read_int = do line ← read_line; as_number (int (encode line))

-- A size of -1 is the null bulk string, any other below 0 is refused by `readexactly`.
abbrev pub read_bulk : ℤ → Reading RedisValue
unfolding read_exactly ◌>>=◌
read_bulk (negsuc zero) = pure null
read_bulk (negsuc (suc n)) = raise value_error
read_bulk (pos size) = do data_ ← read_exactly size; _ ← read_exactly 2; pure (bytes data_)

-- `[await … for _ in range(count)]`
unfoldable pub read_many : Reading RedisValue → ℕ → Reading RedisValues
unfolding ◌>>=◌
read_many read zero = pure nil
read_many read (suc count) = do
  first ← read
  others ← read_many read count
  pure (cons first others)

-- A count of -1 is the null array; `range` of any other below 0 is empty.
abbrev pub read_array : Reading RedisValue → ℤ → Reading RedisValue
unfolding read_many ◌>>=◌
read_array read (negsuc zero) = pure null
read_array read (negsuc (suc n)) = pure (array nil)
read_array read (pos count) = do values ← read_many read count; pure (array values)

-- A status line, an error line and a number.
abbrev pub read_simple : Reading RedisValue
unfolding read_line ◌>>=◌
read_simple = read_line >>= λ line. pure (bytes (encode line))

abbrev pub read_error : Reading RedisValue
unfolding read_line ◌>>=◌
read_error = read_line >>= λ line. raise (redis_stream_error line)

abbrev pub read_number : Reading RedisValue
unfolding read_int ◌>>=◌
read_number = read_int >>= λ z. pure (integer z)

-- What follows the prefix: `+` 43, `-` 45, `:` 58, `$` 36 and `*` 42.
unfoldable pub read_after : Reading RedisValue → ℕ → Reading RedisValue
unfolding read_line read_int ◌>>=◌
read_after read prefix =
    if num_eq prefix 43
    then read_simple
    else if num_eq prefix 45
    then read_error
    else if num_eq prefix 58
    then read_number
    else if num_eq prefix 36
    then read_int >>= read_bulk
    else if num_eq prefix 42
    then read_int >>= read_array read
    else raise (unsupported_prefix prefix)

-- One round for each level of nesting.
unfoldable pub read_response : ℕ → Reading RedisValue
unfolding read_after
read_response zero s = (err out_of_fuel, s)
read_response (suc fuel) [] = (err incomplete_read, [])
read_response (suc fuel) (prefix ∷ s) = read_after (read_response fuel) prefix s

-- `_encode_command`
abbrev pub encode_part : String → Bytes
unfolding encode decimal
encode_part part =
    36 ∷ (decimal (length (encode part)) ++ (13 ∷ 10 ∷ (encode part ++ (13 ∷ 10 ∷ []))))

abbrev pub encode_parts : List String → Bytes
encode_parts [] = []
encode_parts (part ∷ parts) = encode_part part ++ encode_parts parts

abbrev pub count_parts : List String → ℕ
count_parts [] = 0
count_parts (part ∷ parts) = suc (count_parts parts)

unfoldable pub encode_command : List String → Bytes
unfolding decimal
encode_command parts = 42 ∷ (decimal (count_parts parts) ++ (13 ∷ 10 ∷ encode_parts parts))
