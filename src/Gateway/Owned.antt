-- ===== src/Gateway/Owned.antt =====
-- Who gets to an order: the user behind the bearer token, and the order that is that user's.
use Prim.Native.String.{◌++◌ as str_append}
use retail_ops_microservices.Base.{
  String, ◌≡◌, refl, inl, inr, true, none, some, List, [], ◌∷◌, Option-cases, Bool-cases, num_eq,
}
use retail_ops_microservices.Base.Exec.{Result, ok, err, ◌>>=◌}
use retail_ops_microservices.Gateway.Idempotency.{GatewayError}
use retail_ops_microservices.Gateway.Upstream.{
  Json, Request, UpstreamCall, UpstreamResponse, Network, Services, gateway_headers, call_upstream,
  get_from, post_to,
}
use retail_ops_microservices.Gateway.Access.{same_field, owned_order, load_owned_order}
use retail_ops_microservices.Gateway.Steps.{after_bind, num_eq_sound}

unfoldable pub get_call : {J : Type 0} → Request → String → String → UpstreamCall J
unfolding gateway_headers
get_call q service path = record {
  method = "GET";
  service = service;
  path = path;
  json = none;
  headers = gateway_headers q none;
}

abbrev pub transitions_path : String → String
transitions_path order_id = str_append "/orders/" (str_append order_id "/transitions")

-- The two fields of a transition.
abbrev pub transition_json : {J : Type 0} → Json J → String → String → List (String × J)
transition_json js next_status reason =
    ("status", js.text next_status) ∷ ("reason", js.text reason) ∷ []

-- The call that `post_to` sends.
unfoldable pub post_call :
    {J : Type 0} → Json J → Request → String → String → List (String × J) → UpstreamCall J
unfolding gateway_headers
post_call js q service path json = record {
  method = "POST";
  service = service;
  path = path;
  json = some (js.object json);
  headers = gateway_headers q none;
}

module _ {J W : Type 0} (js : Json J) (net : Network J W) (q : Request) where
  -- The order service answered 200 with an order whose `user_id` equals the user's.
  abbrev pub Owns : J → UpstreamResponse J → Type 0
  Owns user r =
      (r.status_code ≡ 200)
      × (x : J) × (y : J) × (js.get r.body "user_id" ≡ some x)
      × (js.get user "user_id" ≡ some y)
      × (js.equal x y ≡ true)

  -- What `load_owned_order` comes to: one call, and the body of an owned order or an error.
  pub data LoadOutcome (user : J) (order_id : String) (s : Services J W)
      : Result GatewayError J × Services J W → Type 0 where
    not_loaded :
        (e : GatewayError) (s' : Services J W)
        → s'.calls ≡ get_call q "order" (str_append "/orders/" order_id) ∷ s.calls
        → LoadOutcome user order_id s (err e, s')
    loaded :
        (r : UpstreamResponse J)
        → (get_from js net q "order" (str_append "/orders/" order_id) s).0 ≡ ok r
        → Owns user r
        → LoadOutcome user order_id s
            (ok r.body, (get_from js net q "order" (str_append "/orders/" order_id) s).1)

  pub get_from-calls :
      (service path : String) (s : Services J W)
      → (get_from js net q service path s).1.calls ≡ get_call q service path ∷ s.calls
  unfolding get_from call_upstream get_call
  get_from-calls service path s = refl

  pub post_to-calls :
      (service path : String) (json : List (String × J)) (s : Services J W)
      → (post_to js net q service path json s).1.calls ≡ post_call js q service path json ∷ s.calls
  unfolding post_to call_upstream post_call
  post_to-calls service path json s = refl

  owned_order_outcome :
      (R : Result GatewayError J × Services J W → Type 0) (user : J) (r : UpstreamResponse J)
      (s : Services J W)
      → ((e : GatewayError) → R (err e, s))
      → (Owns user r → R (ok r.body, s))
      → R (owned_order js net q user r s)
  unfolding owned_order same_field ◌>>=◌
  owned_order_outcome R user r s raised returned = elim (Bool-cases (num_eq r.status_code 404)) [
    | inl a ↦ rw a (raised _)
    | inr a ↦ elim (Bool-cases (num_eq r.status_code 200)) [
      | inr b ↦ rw (a, b) (raised _)
      | inl b ↦ elim (Option-cases (js.get r.body "user_id")) [
        | inl ex ↦ rw (a, b, ex) (raised _)
        | inr (x, ex) ↦ elim (Option-cases (js.get user "user_id")) [
          | inl ey ↦ rw (a, b, ex, ey) (raised _)
          | inr (y, ey) ↦ elim (Bool-cases (js.equal x y)) [
            | inr c ↦ rw (a, b, ex, ey, c) (raised _)
            | inl c ↦
                rw (a, b, ex, ey, c) (returned (num_eq_sound r.status_code 200 b, x, y, ex, ey, c))
          ]
        ]
      ]
    ]
  ]

  -- `load_owned_order` sends one call, the order's GET. It returns a body only if the order service
  -- has answered it with 200 and an order whose `user_id` equals the user's; else it raises.
  pub load_owned_order_outcome :
      (user : J) (order_id : String) (s : Services J W)
      → LoadOutcome user order_id s (load_owned_order js net q user order_id s)
  unfolding load_owned_order
  load_owned_order_outcome user order_id s =
      let path = str_append "/orders/" order_id in
      after_bind (LoadOutcome user order_id s) (get_from js net q "order" path)
        (owned_order js net q user) s (λ e answered. not_loaded e _ (get_from-calls "order" path s))
        λ r answered.
          owned_order_outcome (LoadOutcome user order_id s) user r
            (get_from js net q "order" path s).1
            (λ e. not_loaded e _ (get_from-calls "order" path s)) (loaded r answered)
