-- ===== src/Redis/Tests.antt =====
-- The protocol and the client at concrete inputs.
use retail_ops_microservices.Base.{◌≤◌, String, none, some, [], ◌∷◌, ◌++◌, ◌≡◌, ◌≢◌, refl, arith}
use retail_ops_microservices.Base.Exec.{ok, err}
use retail_ops_microservices.Base.Int.{pos}
use retail_ops_microservices.Workflow.{Fields}
use retail_ops_microservices.Base.Utf8.{Bytes, length, encode}
use retail_ops_microservices.Redis.Reader.{
  redis_stream_error, out_of_fuel, RedisValues, bytes, array, cons, read_response, encode_command,
}
use retail_ops_microservices.Redis.Reader.Ends.{read_response_ends}
use retail_ops_microservices.Redis.Reader.RoundTrip.{bulk_strings, read_response-encode_command}
use retail_ops_microservices.Redis.Messages.{field_pairs_to_dict}
use retail_ops_microservices.Redis.Messages.RoundTrip.{flat}
use retail_ops_microservices.Redis.Client.{Client, connect, execute, int_text, xadd}
use retail_ops_microservices.Redis.Client.Sessions.{
  some_values, xadd_received, connect_select_refused,
}

read_response-encode_command_example :
    read_response 2 (encode_command ("SET" ∷ "größe" ∷ "" ∷ []) ++ (43 ∷ []))
    ≡ (ok (array (bulk_strings ("SET" ∷ "größe" ∷ "" ∷ []))), 43 ∷ [])
read_response-encode_command_example =
    read_response-encode_command 2 ("SET" ∷ "größe" ∷ "" ∷ []) (43 ∷ []) (omega arith)

-- Nested arrays, the innermost cut off.
abbrev cut_off : Bytes
cut_off = 42 ∷ 49 ∷ 13 ∷ 10 ∷ 42 ∷ 49 ∷ 13 ∷ 10 ∷ 36 ∷ 53 ∷ 13 ∷ 10 ∷ 120 ∷ []

read_response_ends_example :
    ((read_response 14 cut_off).0 ≢ err out_of_fuel)
    × (length (read_response 14 cut_off).1 ≤ length cut_off)
read_response_ends_example = read_response_ends 14 cut_off (omega arith)

abbrev no_text : RedisValues → String
no_text _ = ""

-- `-E` and `+OK`, each with its CR LF
abbrev refusal : Bytes
refusal = 45 ∷ 69 ∷ 13 ∷ 10 ∷ 43 ∷ 79 ∷ 75 ∷ 13 ∷ 10 ∷ []

abbrev after_refusal : Bytes
after_refusal = 43 ∷ 79 ∷ 75 ∷ 13 ∷ 10 ∷ []

abbrev client : Client
client = record {
  options = record { host = "localhost"; port = 6379; database = pos 2; password = none };
  connection = none;
  network = some refusal ∷ [];
}

abbrev open_client : Client
open_client = record client {
  connection = some (record { written = []; incoming = after_refusal });
}

abbrev two_fields : Fields
two_fields = ("message_type", "order.create") ∷ ("source", "α") ∷ []

xadd_received_example :
    (w : Bytes) × ((xadd "commands" (some_values two_fields) open_client).1.connection
      ≡ some (record { written = [] ++ w; incoming = (read_response 6 after_refusal).1 }))
    × (read_response 2 w ≡ (
      ok (
          array (
            cons (bytes (encode "XADD")) (
              cons
                (bytes (encode "commands"))
                (cons (bytes (encode "*")) (bulk_strings (flat two_fields)))))),
      [],
    ))
    × (field_pairs_to_dict no_text (bulk_strings (flat two_fields)) ≡ ok two_fields)
xadd_received_example =
    xadd_received no_text "commands" two_fields open_client
      (record { written = []; incoming = after_refusal }) refl ((λ e. cc e, tt), (tt, tt))

connect_select_refused_example :
    ((connect client).0 ≡ err (redis_stream_error "E"))
    × ((execute ("PING" ∷ []) (connect client).1).1.connection
        ≡ some (record {
          written =
              encode_command ("SELECT" ∷ int_text (pos 2) ∷ []) ++ encode_command ("PING" ∷ []);
          incoming = (read_response 6 after_refusal).1;
        }))
unfolding read_response
connect_select_refused_example =
    connect_select_refused ("PING" ∷ []) client refusal after_refusal [] (redis_stream_error "E")
      refl refl refl refl refl
