-- ===== src/Gateway/Tests.antt =====
-- An order request and its repetitions: the theorems on the gateway at concrete inputs. A body is
-- a text and its hash the text, and the other services are a count of the calls they have handled.
use Prim.Native.String.{◌++◌ as str_append}
use retail_ops_microservices.Base.{ℕ, suc, ◌≡◌, refl, true, false, none, some, [], ◌∷◌, String}
use retail_ops_microservices.Base.Exec.{ok, err, Exec}
use retail_ops_microservices.Base.Rows.{select_first}
use retail_ops_microservices.Gateway.Idempotency.{
  GatewayError, gateway_error, database_failed, GatewayRequest, Gateway, find_record,
  response_record, after_lookup, idempotent_json_response,
}
use retail_ops_microservices.Gateway.Idempotency.Replay.{
  Serves, here, next, idempotent_json_response-replay, idempotent_json_response-conflict,
  idempotent_json_response-unfit,
}
use retail_ops_microservices.Gateway.Idempotency.Race.{after_lookup-race}

abbrev text_hash : String → String
text_hash t = t

abbrev order_lamp : GatewayRequest String
order_lamp = record {
  user_id = "ann";
  idempotency_key = some "key";
  method = "POST";
  path = "/api/orders";
  payload = "lamp";
}

abbrev order_chair : GatewayRequest String
order_chair = record order_lamp { payload = "chair" }

abbrev no_orders : Gateway String ℕ
no_orders = record { idempotency_keys = []; services = 0 }

-- It accepts, and counts.
abbrev accept : Exec ℕ GatewayError (ℕ × String)
accept n = (ok (202, "accepted"), suc n)

abbrev refuse : Exec ℕ GatewayError (ℕ × String)
refuse n = (err (gateway_error 502 "UPSTREAM_SERVICE_ERROR"), suc n)

abbrev one_order : Gateway String ℕ
one_order = (idempotent_json_response text_hash order_lamp accept no_orders).1

-- A request without a key comes between.
abbrev keyless : GatewayRequest String
keyless = record order_lamp { idempotency_key = none }

abbrev later : Gateway String ℕ
later = (idempotent_json_response text_hash keyless accept one_order).1

abbrev to_later : Serves text_hash one_order later
to_later = next here (record { request = keyless; handler = accept })

idempotent_json_response-replay_example :
    idempotent_json_response text_hash order_lamp refuse later
    ≡ (ok (record { status_code = 202; content = "accepted"; replayed = true }), later)
unfolding find_record select_first
idempotent_json_response-replay_example =
    idempotent_json_response-replay text_hash order_lamp accept refuse no_orders later "key" 202
      "accepted" 1 refl refl refl refl to_later

idempotent_json_response-conflict_example :
    idempotent_json_response text_hash order_chair accept later
    ≡ (err (gateway_error 409 "IDEMPOTENCY_KEY_CONFLICT"), later)
unfolding find_record select_first
idempotent_json_response-conflict_example =
    idempotent_json_response-conflict text_hash order_lamp order_chair accept accept no_orders later
      "key" 202 "accepted" 1 refl refl refl refl to_later (refl, refl, refl, refl) (λ e. cc e)

after_lookup-race_example :
    let (first, g₁) = after_lookup text_hash order_lamp "key" accept none no_orders in
    let (second, g₂) = after_lookup text_hash order_chair "key" accept none g₁ in
    (first ≡ ok (record { status_code = 202; content = "accepted"; replayed = false }))
    × (second ≡ err database_failed)
    × (g₂.services ≡ 2)
    × (g₂.idempotency_keys ≡ response_record text_hash order_lamp "key" 202 "accepted" ∷ [])
unfolding find_record select_first
after_lookup-race_example =
    after_lookup-race text_hash order_lamp order_chair accept accept no_orders "key" 202 202
      "accepted" "accepted" 1 2 refl refl (refl, refl, refl) refl refl

-- 272 characters
abbrev long_key : String
long_key = twice (twice (twice (twice "0123456789abcdefg")))
  where
    twice : String → String
    twice t = str_append t t

abbrev order_long : GatewayRequest String
order_long = record order_lamp { idempotency_key = some long_key }

idempotent_json_response-unfit_example :
    let (first, g₁) = idempotent_json_response text_hash order_long accept no_orders in
    let (second, g₂) = idempotent_json_response text_hash order_long accept g₁ in
    (first ≡ err database_failed)
    × (g₁ ≡ record { idempotency_keys = []; services = 1 })
    × (second ≡ err database_failed)
    × (g₂ ≡ record { idempotency_keys = []; services = 2 })
unfolding find_record select_first
idempotent_json_response-unfit_example =
    idempotent_json_response-unfit text_hash order_long accept accept no_orders long_key 202 202
      "accepted" "accepted" 1 2 refl refl refl refl refl
