-- ===== src/Gateway/Follow.antt =====
-- Rules for the steps of the handlers: what holds after a step and the rest, from what holds when
-- the step raises and when it returns.
use Prim.Native.String.{◌++◌ as str_append}
use retail_ops_microservices.Base.{
  ℕ, String, ◌≡◌, inl, inr, true, not, some, List, ◌∷◌, Bool-cases, Option-cases, num_eq,
}
use retail_ops_microservices.Base.Exec.{Result, ok, err, raise_if, continue, ◌>>=◌, Result-cases}
use retail_ops_microservices.Gateway.Idempotency.{GatewayError}
use retail_ops_microservices.Gateway.Upstream.{
  Json, Request, UpstreamResponse, Network, Services, Handling, get_from, post_to,
}
use retail_ops_microservices.Gateway.Access.{
  is_one_of, logged, load_owned_order, ensure_order_status, transitioned, transition_order,
}
use retail_ops_microservices.Gateway.Steps.{num_eq_sound}
use retail_ops_microservices.Gateway.Owned.{
  get_call, transitions_path, transition_json, Owns, LoadOutcome, not_loaded, loaded,
  load_owned_order_outcome,
}

module _ {J W B : Type 0} (js : Json J) (net : Network J W) (q : Request)
    (R : Result GatewayError B × Services J W → Type 0) where
  after_load :
      (f : J → Handling J W B) (user : J) (order_id : String) (s : Services J W)
      {p : Result GatewayError J × Services J W}
      → LoadOutcome js net q user order_id s p
      → ((e : GatewayError) (s' : Services J W)
          → s'.calls ≡ get_call q "order" (str_append "/orders/" order_id) ∷ s.calls
          → R (err e, s'))
      → ((r : UpstreamResponse J)
          → (get_from js net q "order" (str_append "/orders/" order_id) s).0 ≡ ok r
          → Owns js net q user r
          → R (f r.body (get_from js net q "order" (str_append "/orders/" order_id) s).1))
      → R (continue p.0 f p.1)
  after_load f user order_id s (not_loaded e s' c) raised returned = raised e s' c
  after_load f user order_id s (loaded r a o) raised returned = returned r a o

  pub after_load_owned_order :
      (f : J → Handling J W B) (user : J) (order_id : String) (s : Services J W)
      → ((e : GatewayError) (s' : Services J W)
          → s'.calls ≡ get_call q "order" (str_append "/orders/" order_id) ∷ s.calls
          → R (err e, s'))
      → ((r : UpstreamResponse J)
          → (get_from js net q "order" (str_append "/orders/" order_id) s).0 ≡ ok r
          → Owns js net q user r
          → R (f r.body (get_from js net q "order" (str_append "/orders/" order_id) s).1))
      → R ((load_owned_order js net q user order_id >>= f) s)
  unfolding ◌>>=◌
  after_load_owned_order f user order_id s =
      after_load f user order_id s (load_owned_order_outcome js net q user order_id s)

  pub after_ensure_order_status :
      (f : Unit {0} → Handling J W B) (order : J) (allowed : List String) (s : Services J W)
      → ((e : GatewayError) → R (err e, s))
      → ((x : J)
          → js.get order "status" ≡ some x
          → is_one_of js net q x allowed ≡ true
          → R (f tt s))
      → R ((ensure_order_status js net q order allowed >>= f) s)
  unfolding ensure_order_status ◌>>=◌
  after_ensure_order_status f order allowed s raised returned =
      elim (Option-cases (js.get order "status")) [
        | inl e ↦ rw e (raised _)
        | inr (x, e) ↦ elim (Bool-cases (is_one_of js net q x allowed)) [
          | inr b ↦ rw (e, b) (raised _)
          | inl b ↦ rw (e, b) (returned x e b)
        ]
      ]

  pub after_logged :
      (f : Unit {0} → Handling J W B) (user body : J) (key : String) (s : Services J W)
      → ((e : GatewayError) → R (err e, s))
      → R (f tt s)
      → R ((logged js net q user body key >>= f) s)
  unfolding logged ◌>>=◌
  after_logged f user body key s raised returned = elim (Option-cases (js.item user "user_id")) [
    | inl e ↦ rw e (raised _)
    | inr (x, e) ↦ elim (Option-cases (js.get body key)) [
      | inl g ↦ rw (e, g) (raised _)
      | inr (y, g) ↦ rw (e, g) returned
    ]
  ]

  transitioned_outcome :
      (f : J → Handling J W B) (r : UpstreamResponse J) (s : Services J W)
      → ((e : GatewayError) → R (err e, s))
      → (r.status_code ≡ 200 → R (f r.body s))
      → R ((transitioned js net q r >>= f) s)
  unfolding transitioned ◌>>=◌
  transitioned_outcome f r s raised returned = elim (Bool-cases (num_eq r.status_code 404)) [
    | inl a ↦ rw a (raised _)
    | inr a ↦ elim (Bool-cases (num_eq r.status_code 409)) [
      | inl b ↦ rw (a, b) (raised _)
      | inr b ↦ elim (Bool-cases (num_eq r.status_code 200)) [
        | inr c ↦ rw (a, b, c) (raised _)
        | inl c ↦ rw (a, b, c) (returned (num_eq_sound r.status_code 200 c))
      ]
    ]
  ]

  pub after_transition_order :
      (f : J → Handling J W B) (order_id next_status reason : String) (s : Services J W)
      → ((e : GatewayError)
          → R (
            err e,
            (post_to js net q "order"
                (transitions_path order_id)
                (transition_json js next_status reason)
                s).1,
          ))
      → ((r : UpstreamResponse J)
          → (post_to js net q "order"
              (transitions_path order_id)
              (transition_json js next_status reason)
              s).0
            ≡ ok r
          → r.status_code ≡ 200
          → R (
              f r.body
                (post_to js net q "order"
                  (transitions_path order_id)
                  (transition_json js next_status reason)
                  s).1))
      → R ((transition_order js net q order_id next_status reason >>= f) s)
  unfolding transition_order ◌>>=◌
  after_transition_order f order_id next_status reason s raised returned =
      let sent =
        post_to js net q "order" (transitions_path order_id)
          (transition_json js next_status reason) in
      elim (Result-cases (sent s).0) [
        | inr (e, a) ↦ rw a (raised e)
        | inl (r, a) ↦ rw a (transitioned_outcome f r (sent s).1 raised (returned r a))
      ]

  -- `raise_if` on a status other than the wanted one
  pub after_status :
      (n : ℕ) (x : GatewayError) (f : Unit {0} → Handling J W B) (r : UpstreamResponse J)
      (s : Services J W)
      → R (err x, s)
      → (r.status_code ≡ n → R (f tt s))
      → R ((raise_if (not (num_eq r.status_code n)) x >>= f) s)
  unfolding ◌>>=◌
  after_status n x f r s raised returned = elim (Bool-cases (num_eq r.status_code n)) [
    | inr b ↦ rw b raised
    | inl b ↦ rw b (returned (num_eq_sound r.status_code n b))
  ]
