-- ===== src/Redis/Client.antt =====
-- RedisStreamsClient and `parse_redis_url`. The network is what the next attempts to connect meet:
-- a refusal, or a connection with the bytes that the server will send over it.
pub mod Sessions
use retail_ops_microservices.Base.{
  ℕ, zero, suc, ◌+◌, String, Bool, true, false, Option, none, some, List, [], ◌∷◌, ◌++◌, ◌==◌,
  num_eq, present, or_else, is_some, if◌then◌else◌,
}
use retail_ops_microservices.Base.Exec.{
  Result, ok, err, Exec, pure, raise, lift, continue, ◌>>=◌, ◌>>◌,
}
use retail_ops_microservices.Base.Int.{ℤ, pos, negsuc}
use retail_ops_microservices.Workflow.{StreamMessage}
use retail_ops_microservices.Base.Utf8.{Bytes, length, encode, decode}
use retail_ops_microservices.Base.Decimal.{int, digits, decimal, int_codes}
use retail_ops_microservices.Redis.Reader.{
  RedisError, redis_stream_error, unexpected_response, unicode_decode_error, value_error,
  connection_refused, RedisValue, RedisValues, bytes, integer, read_response, encode_command,
}
use retail_ops_microservices.Redis.Messages.{decoded_text, parse_stream_response, range_messages}
use text.Mathlib.Text.{find?}

pub record RedisConnectionOptions : Type 0 where
  pub host : String
  pub port : ℕ
  pub database : ℤ
  pub password : Option String

-- The parts that `urlparse` finds.
pub record ParsedUrl : Type 0 where
  pub scheme : String
  pub hostname : Option String
  pub port_number : Option ℕ
  pub path : String
  pub url_password : Option String

abbrev strip_slashes : String → Bytes
unfolding encode
strip_slashes t = dropped (encode t)
  where
    dropped : Bytes → Bytes
    dropped [] = []
    dropped (c ∷ cs) = if num_eq c 47 then dropped cs else c ∷ cs

abbrev or_zero : Bytes → Bytes
or_zero [] = 48 ∷ []
or_zero (c ∷ cs) = c ∷ cs

abbrev port_or_default : Option ℕ → ℕ
port_or_default none = 6379
port_or_default (some zero) = 6379
port_or_default (some (suc n)) = suc n

-- Every refusal is a ValueError.
unfoldable parse_redis_url : ParsedUrl → Result RedisError RedisConnectionOptions
unfolding strip_slashes int
parse_redis_url u =
    if u.scheme == "redis"
    then elim (int (or_zero (strip_slashes u.path))) [
      | none ↦ err value_error
      | some database ↦ ok (record {
        host = or_else (present u.hostname) "localhost";
        port = port_or_default u.port_number;
        database = database;
        password = u.url_password;
      })
    ]
    else err value_error

-- The two directions of an open connection.
pub record Connection : Type 0 where
  pub written : Bytes
  pub incoming : Bytes

pub record Client : Type 0 where
  pub options : RedisConnectionOptions
  pub connection : Option Connection
  pub network : List (Option Bytes)

abbrev pub Redis : Type 0 → Type 0
Redis A = Exec Client RedisError A

-- `asyncio.open_connection`
abbrev open_connection : Redis (Unit {0})
open_connection c = elim c.network [
  | [] ↦ (err connection_refused, c)
  | none ∷ later ↦ (err connection_refused, record c { network = later })
  | some s ∷ later ↦ (
    ok tt,
    record c { connection = some (record { written = []; incoming = s }); network = later },
  )
]

-- Writes a command to the open connection and reads one response.
unfoldable pub exchange : List String → Redis RedisValue
unfolding read_response encode_command
exchange parts c = elim c.connection [
  | none ↦ (err connection_refused, c)
  | some k ↦
      let (answer, left) = read_response (suc (length k.incoming)) k.incoming in
      (
        answer,
        record c {
          connection =
              some (record { written = k.written ++ encode_command parts; incoming = left });
        },
      )
]

abbrev pub is_zero : ℤ → Bool
is_zero (pos zero) = true
is_zero (pos (suc n)) = false
is_zero (negsuc n) = false

-- `AUTH` for a password that is not empty, and `SELECT` for a database other than 0.
unfoldable pub authenticate : Redis (Unit {0})
unfolding exchange ◌>>=◌
authenticate c = elim (present c.options.password) [
  | none ↦ (ok tt, c)
  | some password ↦ (exchange ("AUTH" ∷ password ∷ []) >>= λ answer. pure tt) c
]

abbrev pub int_text : ℤ → String
unfolding decode decimal
int_text z = or_else (decode (int_codes z)) ""

unfoldable pub select_database : Redis (Unit {0})
unfolding exchange int_text ◌>>=◌
select_database c =
    if is_zero c.options.database
    then (ok tt, c)
    else (exchange ("SELECT" ∷ int_text c.options.database ∷ []) >>= λ answer. pure tt) c

-- `connect`; its own calls of `execute` find the connection open.
unfoldable pub connect : Redis (Unit {0})
unfolding authenticate select_database ◌>>=◌
connect c = elim c.connection [
  | some k ↦ (ok tt, c)
  | none ↦ (open_connection >>= λ opened. authenticate >>= λ done. select_database) c
]

unfoldable pub close : Redis (Unit {0})
close c = (ok tt, record c { connection = none })

unfoldable pub execute : List String → Redis RedisValue
unfolding connect exchange ◌>>=◌
execute parts = connect >>= λ connected. exchange parts

unfoldable ping : Redis Bool
unfolding execute ◌>>=◌
ping = execute ("PING" ∷ []) >>= λ answer. pure (is_pong answer)
  where
    is_pong : RedisValue → Bool
    is_pong (bytes b) = elim (decode b) [ none ↦ false | some t ↦ t == "PONG" ]
    is_pong _ = false

abbrev field_parts : List (String × Option String) → List String
field_parts [] = []
field_parts ((key, value) ∷ fields) = key ∷ or_else value "" ∷ field_parts fields

abbrev id_text : RedisValue → Result RedisError String
unfolding decode
id_text (bytes b) = decoded_text (decode b)
id_text _ = err unexpected_response

-- The values are the texts that `str` gives, `none` for None.
unfoldable pub xadd : String → List (String × Option String) → Redis String
unfolding execute id_text ◌>>=◌
xadd stream fields =
    execute ("XADD" ∷ stream ∷ "*" ∷ field_parts fields) >>= λ answer. lift (id_text answer)

-- A group that exists already is no error.
abbrev tolerate_busy_group :
    Result RedisError RedisValue × Client → Result RedisError (Unit {0}) × Client
tolerate_busy_group (ok answer, c) = (ok tt, c)
tolerate_busy_group (err (redis_stream_error message), c) =
    if is_some (find? message "BUSYGROUP")
    then (ok tt, c)
    else (err (redis_stream_error message), c)
tolerate_busy_group (err e, c) = (err e, c)

unfoldable pub xgroup_create : String → String → Redis (Unit {0})
unfolding execute
xgroup_create stream group c =
    tolerate_busy_group (execute ("XGROUP" ∷ "CREATE" ∷ stream ∷ group ∷ "$" ∷ "MKSTREAM" ∷ []) c)

abbrev as_count : RedisValue → Result RedisError ℤ
as_count (integer z) = ok z
as_count _ = err unexpected_response

unfoldable pub xack : String → String → String → Redis ℤ
unfolding execute ◌>>=◌
xack stream group message_id =
    execute ("XACK" ∷ stream ∷ group ∷ message_id ∷ []) >>= λ answer. lift (as_count answer)

module _ (repr : RedisValues → String) where
  unfoldable pub xreadgroup : String → String → String → ℕ → ℕ → Redis (List StreamMessage)
  unfolding execute parse_stream_response int_text ◌>>=◌
  xreadgroup stream group consumer count block_ms =
      execute (
        "XREADGROUP"
        ∷ "GROUP"
        ∷ group
        ∷ consumer
        ∷ "COUNT"
        ∷ int_text (pos count)
        ∷ "BLOCK"
        ∷ int_text (pos block_ms)
        ∷ "STREAMS"
        ∷ stream
        ∷ ">"
        ∷ [])
      >>= λ answer. lift (parse_stream_response repr answer)

  unfoldable pub xrange : String → String → String → Redis (List StreamMessage)
  unfolding execute range_messages ◌>>=◌
  xrange stream start end = execute ("XRANGE" ∷ stream ∷ start ∷ end ∷ []) >>= λ answer.
      lift (range_messages repr stream answer)
