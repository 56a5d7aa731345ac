-- ===== src/Gateway/Admission.antt =====
-- What a protected route does before its handler: the user's token, and the Idempotency-Key.
use retail_ops_microservices.Base.{
  String, ◌≡◌, ◌⊎◌, false, refl, inl, inr, Option, none, some, ◌∷◌, Bool-cases, Option-cases,
  num_eq, present,
}
use retail_ops_microservices.Base.Exec.{Result, ok, err, continue, ◌>>=◌, Result-cases}
use retail_ops_microservices.Gateway.Idempotency.{GatewayError, Gateway}
use retail_ops_microservices.Gateway.Upstream.{
  Json, Request, UpstreamCall, UpstreamResponse, Network, Services, gateway_headers, call_upstream,
}
use retail_ops_microservices.Gateway.Access.{
  bearer_token, me_path, accepted_user, user_of, user_behind, current_user,
}
use retail_ops_microservices.Gateway.Routes.{Route, protected}
use retail_ops_microservices.Gateway.Steps.{num_eq_sound}

-- GET /auth/me with the caller's header.
unfoldable pub me_call : {J : Type 0} → Request → String → UpstreamCall J
unfolding gateway_headers
me_call q authorization = record {
  method = "GET";
  service = "auth";
  path = "/auth/me";
  json = none;
  headers = gateway_headers q (some authorization);
}

module _ {J W : Type 0} (js : Json J) (net : Network J W) (request_hash : J → String)
    (q : Request) where
  -- The services after the auth service was asked.
  abbrev pub asked : String → Services J W → Services J W
  unfolding me_path
  asked authorization s = (me_path js net q authorization s).1

  me_path-calls : (a : String) (s : Services J W) → (asked a s).calls ≡ me_call q a ∷ s.calls
  unfolding me_path call_upstream me_call
  me_path-calls a s = refl

  module _ {A : Type 0} (route : J → Route J W A) (g : Gateway J (Services J W)) where
    -- There is no bearer token.
    abbrev Tokenless : Type 0
    Tokenless =
        (present q.authorization ≡ none)
        ⊎ ((authorization : String) × (present q.authorization ≡ some authorization)
            × (bearer_token authorization ≡ none))

    -- The auth service has not answered, or not with 200, or without a user's id.
    abbrev Refusal : String → Type 0
    Refusal authorization =
        ((e : GatewayError) × ((me_path js net q authorization g.services).0 ≡ err e))
        ⊎ ((r : UpstreamResponse J) × ((me_path js net q authorization g.services).0 ≡ ok r)
            × ((num_eq r.status_code 200 ≡ false) ⊎ (js.get r.body "user_id" ≡ none)))

    pub data Admission : Result GatewayError A × Gateway J (Services J W) → Type 0 where
      rejected_unasked : (e : GatewayError) → Tokenless → Admission (err e, g)
      rejected :
          (e : GatewayError) (authorization token : String) (g' : Gateway J (Services J W))
          → present q.authorization ≡ some authorization
          → bearer_token authorization ≡ some token
          → Refusal authorization
          → g'.idempotency_keys ≡ g.idempotency_keys
          → g'.services.calls ≡ me_call q authorization ∷ g.services.calls
          → Admission (err e, g')
      admitted :
          (authorization token : String) (r : UpstreamResponse J)
          → present q.authorization ≡ some authorization
          → bearer_token authorization ≡ some token
          → (me_path js net q authorization g.services).0 ≡ ok r
          → r.status_code ≡ 200
          → (asked authorization g.services).calls ≡ me_call q authorization ∷ g.services.calls
          → Admission (route r.body (record g { services = asked authorization g.services }))

    Going : Result GatewayError J × Services J W → Type 0
    Going p = Admission (continue p.0 route (record g { services = p.1 }))

    accepted_user_outcome :
        (a t : String) (r : UpstreamResponse J)
        → present q.authorization ≡ some a
        → bearer_token a ≡ some t
        → (me_path js net q a g.services).0 ≡ ok r
        → Going (accepted_user js net q r (asked a g.services))
    unfolding accepted_user Going ◌>>=◌
    accepted_user_outcome a t r ea et f = elim (Bool-cases (num_eq r.status_code 401)) [
      | inl b ↦
          let other : num_eq r.status_code 200 ≡ false =
            rw (num_eq_sound r.status_code 401 b) refl in
          rw b (rejected _ a t _ ea et (inr (r, f, inl other)) refl (me_path-calls a g.services))
      | inr b ↦ elim (Bool-cases (num_eq r.status_code 200)) [
        | inr c ↦
            rw (b, c) (rejected _ a t _ ea et (inr (r, f, inl c)) refl (me_path-calls a g.services))
        | inl c ↦ elim (Option-cases (js.get r.body "user_id")) [
          | inl n ↦
              rw (b, c, n)
                (rejected _ a t _ ea et (inr (r, f, inr n)) refl (me_path-calls a g.services))
          | inr (v, n) ↦
              rw (b, c, n)
                (admitted a t r ea et f (num_eq_sound r.status_code 200 c)
                  (me_path-calls a g.services))
        ]
      ]
    ]

    user_of_outcome :
        (a : String) (o : Option String)
        → present q.authorization ≡ some a
        → bearer_token a ≡ o
        → Going (user_of js net q a o g.services)
    unfolding user_of Going ◌>>=◌
    user_of_outcome a none ea et = rejected_unasked _ (inr (a, ea, et))
    user_of_outcome a (some t) ea et = elim (Result-cases (me_path js net q a g.services).0) [
      | inr (x, f) ↦ rw f (rejected x a t _ ea et (inl (x, f)) refl (me_path-calls a g.services))
      | inl (r, f) ↦ rw f (accepted_user_outcome a t r ea et f)
    ]

    user_behind_outcome :
        (o : Option String)
        → present q.authorization ≡ o
        → Going (user_behind js net q o g.services)
    unfolding user_behind Going
    user_behind_outcome none ea = rejected_unasked _ (inl ea)
    user_behind_outcome (some a) ea = user_of_outcome a (bearer_token a) ea refl

    -- A protected route raises without a call only if there is no bearer token. Else it sends GET
    -- /auth/me with the caller's header first. It goes on, with the body of the answer as the user,
    -- only if that was answered with 200; and it raises, with no other call and no stored response,
    -- only if that was not answered, or not with 200, or without a user's id.
    pub protected_outcome : Admission (protected js net request_hash q route g)
    unfolding protected current_user ◌>>=◌ Going
    protected_outcome = user_behind_outcome (present q.authorization) refl
