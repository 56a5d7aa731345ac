-- ===== src/Gateway/Upstream.antt =====
-- services/api-gateway/src/api_gateway/upstream.py and responses.py. The network is a function on
-- a state of its own; the calls that were sent are kept, the newest first. JSON values and the
-- operations on them are parameters.
use retail_ops_microservices.Base.{
  ℕ, ◌+◌, ◌/◌, ◌%◌, String, Bool, true, false, ◌&&◌, ◌||◌, Option, none, some, List, [], ◌∷◌, ◌++◌,
  ◌≡◌, refl, leb, ltb, num_eq, or_else, if◌then◌else◌,
}
use retail_ops_microservices.Base.Exec.{Result, ok, err, Exec, pure, raise}
use retail_ops_microservices.Base.Utf8.{Bytes, encode, decode}
use retail_ops_microservices.Gateway.Idempotency.{
  GatewayError, gateway_error, internal_error, JsonResponse,
}

-- What the gateway does with JSON values.
pub record Json (J : Type 0) : Type 0 where
  pub null : J
  pub text : String → J
  pub number : ℕ → J
  pub object : List (String × J) → J
  -- Python's `==`
  pub equal : J → J → Bool
  -- the text of a value that is one
  pub as_text : J → Option String
  -- `value.get(key)`: `none` where the value is no dictionary, null where the key is missing
  pub get : J → String → Option J
  -- `value[key]`: `none` where the value is no dictionary or the key is missing
  pub item : J → String → Option J

-- The request to the gateway: the headers that are read, the method and the path, and the id that
-- the middleware has given it. `run_id_header` and `scenario_id_header` stand for the two names
-- that responses.py imports from mwp_common, which has no definition of them.
pub record Request : Type 0 where
  pub authorization : Option String
  pub idempotency_key : Option String
  pub correlation_id : Option String
  pub run_id_header : String
  pub run_id : Option String
  pub scenario_id_header : String
  pub scenario_id : Option String
  pub state_correlation_id : Option String
  pub method : String
  pub path : String

pub record UpstreamCall (J : Type 0) : Type 0 where
  pub method : String
  pub service : String
  pub path : String
  pub json : Option J
  pub headers : List (String × String)

pub record UpstreamResponse (J : Type 0) : Type 0 where
  pub status_code : ℕ
  pub body : J
  pub headers : List (String × String)
  pub content : Option Bytes

-- What httpx gives back: a response, with `parsed` for `response.json()`, or one of its errors.
pub data HttpxResult (J : Type 0) : Type 0 where
  answered : ℕ → List (String × String) → Bytes → Option J → String → HttpxResult J
  timed_out : HttpxResult J
  request_failed : HttpxResult J

pub data UpstreamError : Type 0 where
  upstream_timeout_error : UpstreamError
  upstream_service_error : UpstreamError

pub record Network (J W : Type 0) : Type 0 where
  pub send : UpstreamCall J → W → HttpxResult J × W

pub record Services (J W : Type 0) : Type 0 where
  pub outside : W
  pub calls : List (UpstreamCall J)

abbrev pub Handling : Type 0 → Type 0 → Type 0 → Type 0
Handling J W A = Exec (Services J W) GatewayError A

-- `Option` results that Python answers with an exception of its own.
abbrev pub or_internal_error : {J W A : Type 0} → Option A → Handling J W A
or_internal_error none = raise internal_error
or_internal_error (some a) = pure a

abbrev header : String → Option String → List (String × String)
header name none = []
header name (some String.[]) = []
header name (some (String.◌∷◌ c s)) = (name, String.◌∷◌ c s) ∷ []

-- `gateway_headers`
unfoldable pub gateway_headers : Request → Option String → List (String × String)
gateway_headers q authorization =
    header "X-Correlation-ID" q.correlation_id
    ++ header q.run_id_header q.run_id
    ++ header q.scenario_id_header q.scenario_id
    ++ header "Authorization" authorization

module _ {J W : Type 0} (js : Json J) (net : Network J W) where
  -- `_response_body`: null without content, and the text of a body that is no JSON.
  abbrev pub response_body : Bytes → Option J → String → J
  response_body [] parsed t = js.null
  response_body (b ∷ bs) (some body) t = body
  response_body (b ∷ bs) none t = js.object (("detail", js.text t) ∷ [])

  abbrev pub upstream_result : Bool → HttpxResult J → Result UpstreamError (UpstreamResponse J)
  upstream_result keep timed_out = err upstream_timeout_error
  upstream_result keep request_failed = err upstream_service_error
  upstream_result keep (answered status headers content parsed t) = ok (record {
    status_code = status;
    body = response_body content parsed t;
    headers = headers;
    content = if keep then some content else none;
  })

  -- `client.request`, and `client.download`, which keeps the content.
  unfoldable request_upstream :
      Bool
      → UpstreamCall J
      → Services J W
      → Result UpstreamError (UpstreamResponse J) × Services J W
  request_upstream keep call s =
      let (answer, w) = net.send call s.outside in
      (upstream_result keep answer, record { outside = w; calls = call ∷ s.calls })

  abbrev as_gateway_error :
      Result UpstreamError (UpstreamResponse J) → Result GatewayError (UpstreamResponse J)
  as_gateway_error (ok r) = ok r
  as_gateway_error (err upstream_timeout_error) = err (gateway_error 504 "UPSTREAM_TIMEOUT")
  as_gateway_error (err upstream_service_error) = err (gateway_error 502 "UPSTREAM_SERVICE_ERROR")

  -- `call_upstream`
  unfoldable pub call_upstream : UpstreamCall J → Handling J W (UpstreamResponse J)
  unfolding request_upstream
  call_upstream call s =
      let (answer, s') = request_upstream false call s in (as_gateway_error answer, s')

  -- `download_upstream`
  unfoldable pub download_upstream :
      String → String → List (String × String) → Handling J W (UpstreamResponse J)
  unfolding request_upstream
  download_upstream service path headers s =
      let (answer, s') =
        request_upstream true
          (record {
            method = "GET";
            service = service;
            path = path;
            json = none;
            headers = headers;
          })
          s in
      (as_gateway_error answer, s')

  unfoldable pub get_from : Request → String → String → Handling J W (UpstreamResponse J)
  unfolding call_upstream gateway_headers
  get_from q service path = call_upstream (record {
    method = "GET";
    service = service;
    path = path;
    json = none;
    headers = gateway_headers q none;
  })

  unfoldable pub post_to :
      Request → String → String → List (String × J) → Handling J W (UpstreamResponse J)
  unfolding call_upstream gateway_headers
  post_to q service path json = call_upstream (record {
    method = "POST";
    service = service;
    path = path;
    json = some (js.object json);
    headers = gateway_headers q none;
  })

-- `proxy_response`
abbrev pub proxy_response : {J : Type 0} → UpstreamResponse J → JsonResponse J
proxy_response r = record { status_code = r.status_code; content = r.body; replayed = false }

-- `quote(text, safe="")`: all but letters, digits and `_.-~` as percent and two hexadecimal digits.
abbrev is_unreserved : ℕ → Bool
is_unreserved b =
    leb 65 b && leb b 90
    || leb 97 b && leb b 122
    || leb 48 b && leb b 57
    || num_eq b 95
    || num_eq b 46
    || num_eq b 45
    || num_eq b 126

abbrev hex_digit : ℕ → ℕ
hex_digit n = if ltb n 10 then 48 + n else 55 + n

unfoldable quoted : Bytes → Bytes
quoted [] = []
quoted (b ∷ bs) =
    (if is_unreserved b then b ∷ [] else 37 ∷ hex_digit (b / 16) ∷ hex_digit (b % 16) ∷ [])
    ++ quoted bs

unfoldable pub quote : String → String
unfolding encode decode quoted
quote t = or_else (decode (quoted (encode t))) ""

test_quote : quote "a b/é" ≡ "a%20b%2F%C3%A9"
unfolding quote
test_quote = refl
