-- ===== src/Redis/Client/Sessions.antt =====
-- What goes over a connection, command after command.
use retail_ops_microservices.Base.{
  suc, String, false, Option, none, some, List, [], ◌∷◌, ◌++◌, ◌≡◌, refl, ap, arith, present, inl,
  inr,
}
use retail_ops_microservices.Base.Exec.{ok, err, ◌>>=◌, Result-cases}
use retail_ops_microservices.Workflow.{Fields}
use retail_ops_microservices.Base.Utf8.{Bytes, length, encode}
use retail_ops_microservices.Redis.Reader.{
  RedisError, RedisValues, bytes, array, cons, read_response, encode_command,
}
use retail_ops_microservices.Redis.Reader.RoundTrip.{bulk_strings, read_response-encode_command}
use retail_ops_microservices.Redis.Messages.{field_pairs_to_dict}
use retail_ops_microservices.Redis.Messages.RoundTrip.{DistinctKeys, flat, field_pairs_to_dict-flat}
use retail_ops_microservices.Redis.Client.{
  Client, Connection, connect, exchange, execute, select_database, authenticate, is_zero, int_text,
  xadd, field_parts,
}
use mathlib.Core.List.{append-nil}

-- The connection after one more command.
abbrev after_command : List String → Connection → Connection
after_command parts k = record {
  written = k.written ++ encode_command parts;
  incoming = (read_response (suc (length k.incoming)) k.incoming).1;
}

exchange_open :
    (parts : List String) (c : Client) (k : Connection)
    → c.connection ≡ some k
    → ((exchange parts c).0 ≡ (read_response (suc (length k.incoming)) k.incoming).0)
      × ((exchange parts c).1 ≡ record c { connection = some (after_command parts k) })
unfolding exchange
exchange_open parts c k e = rw e (refl, refl)

-- Over an open connection `execute` writes its command and nothing else.
execute_open :
    (parts : List String) (c : Client) (k : Connection)
    → c.connection ≡ some k
    → ((execute parts c).0 ≡ (read_response (suc (length k.incoming)) k.incoming).0)
      × ((execute parts c).1 ≡ record c { connection = some (after_command parts k) })
unfolding execute connect ◌>>=◌
execute_open parts c k e = rw (e, connect) (exchange_open parts c k e)

-- The fields of a message as XADD takes them.
abbrev pub some_values : Fields → List (String × Option String)
some_values [] = []
some_values ((k, v) ∷ fields) = (k, some v) ∷ some_values fields

field_parts-some_values : (fields : Fields) → field_parts (some_values fields) ≡ flat fields
field_parts-some_values [] = refl
field_parts-some_values ((k, v) ∷ fields) = rw (field_parts-some_values fields) refl

xadd_connection :
    (stream : String) (fields : Fields) (c : Client) (k : Connection)
    → c.connection ≡ some k
    → (xadd stream (some_values fields) c).1.connection
      ≡ some (after_command ("XADD" ∷ stream ∷ "*" ∷ flat fields) k)
unfolding xadd ◌>>=◌
xadd_connection stream fields c k e =
    let parts = "XADD" ∷ stream ∷ "*" ∷ flat fields in
    let (a, b) = execute_open parts c k e in
    elim (Result-cases (read_response (suc (length k.incoming)) k.incoming).0) [
      | inl (v, f) ↦ rw (field_parts-some_values fields, a, b, f) refl
      | inr (x, f) ↦ rw (field_parts-some_values fields, a, b, f) refl
    ]

-- For a client with an open connection and fields with different keys, `xadd` adds bytes that a
-- server reads, with fuel for two levels of nesting, as the array XADD, stream, `*` and the fields
-- in turn, with no byte left; and the client decodes those fields to the same fields.
pub xadd_received :
    (repr : RedisValues → String) (stream : String) (fields : Fields) (c : Client) (k : Connection)
    → c.connection ≡ some k
    → DistinctKeys fields
    → (w : Bytes) × ((xadd stream (some_values fields) c).1.connection
        ≡ some (record {
          written = k.written ++ w;
          incoming = (read_response (suc (length k.incoming)) k.incoming).1;
        }))
      × (read_response 2 w ≡ (
        ok (
            array (
              cons (bytes (encode "XADD")) (
                cons
                  (bytes (encode stream))
                  (cons (bytes (encode "*")) (bulk_strings (flat fields)))))),
        [],
      ))
      × (field_pairs_to_dict repr (bulk_strings (flat fields)) ≡ ok fields)
xadd_received repr stream fields c k e d = (
  encode_command command,
  xadd_connection stream fields c k e,
  rw (append-nil (encode_command command)) at
      (read_response-encode_command 2 command [] (omega arith)),
  field_pairs_to_dict-flat repr fields d,
)
  where
    command : List String
    command = "XADD" ∷ stream ∷ "*" ∷ flat fields

connect_refused :
    (c : Client) (s left : Bytes) (later : List (Option Bytes)) (e : RedisError)
    → c.connection ≡ none
    → present c.options.password ≡ none
    → is_zero c.options.database ≡ false
    → c.network ≡ some s ∷ later
    → read_response (suc (length s)) s ≡ (err e, left)
    → connect c ≡ (
      err e,
      record c {
        connection = some (record {
          written = encode_command ("SELECT" ∷ int_text c.options.database ∷ []);
          incoming = left;
        });
        network = later;
      },
    )
unfolding connect authenticate select_database exchange ◌>>=◌
connect_refused c s left later e none_ no_password other found refused =
    rw (none_, found, no_password, other, refused) refl

-- For a client without a connection and without a password, with a database other than 0, whose
-- network gives a connection over which the answer to SELECT is an error: `connect` raises that
-- error, but the connection stays, and the next command goes over it without another SELECT.
pub connect_select_refused :
    (parts : List String) (c : Client) (s left : Bytes) (later : List (Option Bytes))
    (e : RedisError)
    → c.connection ≡ none
    → present c.options.password ≡ none
    → is_zero c.options.database ≡ false
    → c.network ≡ some s ∷ later
    → read_response (suc (length s)) s ≡ (err e, left)
    → ((connect c).0 ≡ err e)
      × ((execute parts (connect c).1).1.connection
          ≡ some (record {
            written =
                encode_command ("SELECT" ∷ int_text c.options.database ∷ [])
                ++ encode_command parts;
            incoming = (read_response (suc (length left)) left).1;
          }))
connect_select_refused parts c s left later e none_ no_password other found refused =
    let refused_connect = connect_refused c s left later e none_ no_password other found refused in
    (
      ap (λ p. p.0) refused_connect,
      rw refused_connect (ap (λ p. p.connection) (execute_open parts _ _ refl).1),
    )
