-- ===== src/Gateway/Access.antt =====
-- services/api-gateway/src/api_gateway/security.py, ownership.py and workflow_commands.py.
use Prim.Native.String.{◌++◌ as str_append}
use Prim.Native.Char.{code}
use retail_ops_microservices.Base.{
  ℕ, String, Bool, true, false, not, Option, none, some, List, [], ◌∷◌, ◌==◌, ◌≡◌, refl, num_eq,
  present, if◌then◌else◌,
}
use retail_ops_microservices.Base.Text.{lower_equal}
use retail_ops_microservices.Base.Exec.{pure, raise, raise_if, ◌>>=◌, ◌>>◌}
use retail_ops_microservices.Gateway.Idempotency.{gateway_error}
use retail_ops_microservices.Gateway.Upstream.{
  Json, Request, UpstreamResponse, Network, Handling, or_internal_error, gateway_headers,
  call_upstream, get_from, post_to, quote,
}

-- `partition(" ")`: what stands before the first space, and what behind it, if there is one.
abbrev pub partition_space : String → String × Option String
partition_space String.[] = ("", none)
partition_space (String.◌∷◌ c s) =
    let (front, back) = partition_space s in
    if num_eq (code c) 32 then ("", some s) else (String.◌∷◌ c front, back)

-- The token of a header `Bearer <token>`.
unfoldable pub bearer_token : String → Option String
bearer_token authorization =
    let (scheme, back) = partition_space authorization in
    if lower_equal scheme "bearer" then present back else none

test_bearer_token :
    (bearer_token "beARer a b" ≡ some "a b")
    × (bearer_token "Bearer " ≡ none)
    × (bearer_token "Bearer" ≡ none)
unfolding bearer_token
test_bearer_token = (refl, refl, refl)

module _ {J W : Type 0} (js : Json J) (net : Network J W) (q : Request) where
  abbrev pub get_field : J → String → Handling J W J
  get_field body key = or_internal_error (js.get body key)

  -- `value[key]` where a text is needed
  unfoldable pub text_item : J → String → Handling J W String
  unfolding ◌>>=◌
  text_item body key = do
    value ← or_internal_error (js.item body key)
    or_internal_error (js.as_text value)

  unfoldable pub me_path : String → Handling J W (UpstreamResponse J)
  unfolding call_upstream gateway_headers
  me_path authorization = call_upstream js net (record {
    method = "GET";
    service = "auth";
    path = "/auth/me";
    json = none;
    headers = gateway_headers q (some authorization);
  })

  -- The log line reads the body's `user_id`, so the body has to be a dictionary.
  unfoldable pub accepted_user : UpstreamResponse J → Handling J W J
  unfolding ◌>>=◌
  accepted_user r = do
    raise_if (num_eq r.status_code 401) (gateway_error 401 "AUTH_TOKEN_INVALID")
    raise_if (not (num_eq r.status_code 200)) (gateway_error 502 "UPSTREAM_SERVICE_ERROR")
    get_field r.body "user_id"
    pure r.body

  -- What follows the reading of the header and of its token.
  unfoldable pub user_of : String → Option String → Handling J W J
  unfolding me_path accepted_user ◌>>=◌
  user_of authorization none = raise (gateway_error 401 "AUTH_TOKEN_INVALID")
  user_of authorization (some token) = do r ← me_path authorization; accepted_user r

  unfoldable pub user_behind : Option String → Handling J W J
  unfolding bearer_token user_of
  user_behind none = raise (gateway_error 401 "AUTH_TOKEN_MISSING")
  user_behind (some authorization) = user_of authorization (bearer_token authorization)

  unfoldable pub current_user : Handling J W J
  unfolding user_behind
  current_user = user_behind (present q.authorization)

  unfoldable pub same_field : J → J → String → Handling J W Bool
  unfolding ◌>>=◌
  same_field a b key = do x ← get_field a key; y ← get_field b key; pure (js.equal x y)

  unfoldable pub owned_order : J → UpstreamResponse J → Handling J W J
  unfolding same_field ◌>>=◌
  owned_order user r = do
    raise_if (num_eq r.status_code 404) (gateway_error 404 "ORDER_NOT_FOUND")
    raise_if (not (num_eq r.status_code 200)) (gateway_error 502 "UPSTREAM_SERVICE_ERROR")
    owned ← same_field r.body user "user_id"
    raise_if (not owned) (gateway_error 404 "ORDER_OWNERSHIP_NOT_FOUND")
    pure r.body

  unfoldable pub load_owned_order : J → String → Handling J W J
  unfolding get_from owned_order ◌>>=◌
  load_owned_order user order_id = do
    r ← get_from js net q "order" (str_append "/orders/" order_id)
    owned_order user r

  -- Whether a value is one of some texts (a list or a dictionary counts as none of them).
  abbrev pub is_one_of : J → List String → Bool
  is_one_of value texts = elim (js.as_text value) [ none ↦ false | some t ↦ member t texts ]
    where
      member : String → List String → Bool
      member t [] = false
      member t (u ∷ us) = if t == u then true else member t us

  unfoldable pub ensure_order_status : J → List String → Handling J W (Unit {0})
  unfolding ◌>>=◌
  ensure_order_status order allowed = do
    status ← get_field order "status"
    raise_if (not (is_one_of status allowed)) (gateway_error 409 "WORKFLOW_STEP_CONFLICT")

  unfoldable pub transitioned : UpstreamResponse J → Handling J W J
  unfolding ◌>>=◌
  transitioned r = do
    raise_if (num_eq r.status_code 404) (gateway_error 404 "ORDER_NOT_FOUND")
    raise_if (num_eq r.status_code 409) (gateway_error 409 "ORDER_TRANSITION_CONFLICT")
    raise_if (not (num_eq r.status_code 200)) (gateway_error 502 "UPSTREAM_SERVICE_ERROR")
    pure r.body

  unfoldable pub transition_order : String → String → String → Handling J W J
  unfolding post_to transitioned ◌>>=◌
  transition_order order_id next_status reason = do
    r ←
        post_to js net q "order" (str_append "/orders/" (str_append order_id "/transitions"))
          (("status", js.text next_status) ∷ ("reason", js.text reason) ∷ [])
    transitioned r

  -- `request.headers.get("X-Correlation-ID") or request.state.correlation_id`
  abbrev pub correlation : J
  correlation = elim (present q.correlation_id) [
    | some t ↦ js.text t
    | none ↦ elim q.state_correlation_id [ some t ↦ js.text t | none ↦ js.null ]
  ]

  abbrev pub user_item : J → String → Handling J W J
  user_item user key = or_internal_error (js.item user key)

  -- `user["user_id"]` and `body.get(key)` for a log line
  unfoldable pub logged : J → J → String → Handling J W (Unit {0})
  unfolding ◌>>=◌
  logged user body key = do user_item user "user_id"; get_field body key; pure tt

  unfoldable pub start_order_workflow : J → String → ℕ → String → Handling J W J
  unfolding post_to ◌>>=◌
  start_order_workflow user catalog_item_id quantity key = do
    user_id ← user_item user "user_id"
    email ← user_item user "email"
    r ← post_to js net q "workflow" "/workflows/order-checkout" (
        ("user_id", user_id)
        ∷ ("user_email", email)
        ∷ ("catalog_item_id", js.text catalog_item_id)
        ∷ ("quantity", js.number quantity)
        ∷ ("idempotency_key", js.text key)
        ∷ ("correlation_id", correlation)
        ∷ [])
    raise_if (not (num_eq r.status_code 202)) (gateway_error 502 "UPSTREAM_SERVICE_ERROR")
    pure r.body

  unfoldable payment_accepted : UpstreamResponse J → Handling J W J
  unfolding ◌>>=◌
  payment_accepted r = do
    raise_if (num_eq r.status_code 404) (gateway_error 404 "WORKFLOW_NOT_FOUND")
    raise_if (num_eq r.status_code 409) (gateway_error 409 "WORKFLOW_STEP_CONFLICT")
    raise_if (not (num_eq r.status_code 202)) (gateway_error 502 "UPSTREAM_SERVICE_ERROR")
    pure r.body

  unfoldable pub request_order_payment : J → String → String → String → Handling J W J
  unfolding post_to payment_accepted ◌>>=◌
  request_order_payment user order_id payment_scenario key = do
    user_id ← user_item user "user_id"
    r ←
        post_to js net q "workflow"
          (str_append "/workflows/orders/" (str_append order_id "/payments"))
          (("user_id", user_id)
            ∷ ("payment_scenario", js.text payment_scenario)
            ∷ ("idempotency_key", js.text key)
            ∷ ("correlation_id", correlation)
            ∷ [])
    payment_accepted r

  unfoldable workflow_found : UpstreamResponse J → Handling J W J
  unfolding ◌>>=◌
  workflow_found r = do
    raise_if (num_eq r.status_code 404) (gateway_error 404 "WORKFLOW_NOT_FOUND")
    raise_if (not (num_eq r.status_code 200)) (gateway_error 502 "UPSTREAM_SERVICE_ERROR")
    pure r.body

  unfoldable pub load_workflow : String → Handling J W J
  unfolding get_from workflow_found ◌>>=◌
  load_workflow workflow_id = do
    r ← get_from js net q "workflow" (str_append "/workflows/" workflow_id)
    workflow_found r

  unfoldable pub load_workflow_for_order : String → String → Handling J W J
  unfolding get_from workflow_found quote ◌>>=◌
  load_workflow_for_order order_id user_id = do
    r ← get_from js net q "workflow" (
        str_append "/workflows/orders/"
          (str_append order_id (str_append "?user_id=" (quote user_id))))
    workflow_found r
