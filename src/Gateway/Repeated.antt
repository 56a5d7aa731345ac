-- ===== src/Gateway/Repeated.antt =====
-- Mutations of the gateway whose response is stored already.
use retail_ops_microservices.Base.{ℕ, String, ◌≡◌, refl, true, some, [], ◌∷◌, present, eq_refl}
use retail_ops_microservices.Base.Exec.{Result, ok, ◌>>=◌}
use retail_ops_microservices.Gateway.Idempotency.{
  GatewayError, JsonResponse, Gateway, IdempotencyRecord, find_record, idempotent_json_response,
}
use retail_ops_microservices.Gateway.Upstream.{Json, Request, Network, Services, Handling}
use retail_ops_microservices.Gateway.Access.{text_item, current_user}
use retail_ops_microservices.Gateway.Routes.{gateway_request, protected, idempotent}
use retail_ops_microservices.Gateway.Routes.Orders.{create_payment}
use retail_ops_microservices.Gateway.Routes.Documents.{create_invoice, create_receipt}

module _ {J W : Type 0} (js : Json J) (net : Network J W) (request_hash : J → String) (q : Request)
    (g : Gateway J (Services J W)) (user v : J) (u key : String) (s : Services J W)
    (r : IdempotencyRecord J) (known : current_user js net q g.services ≡ (ok user, s))
    (named : js.item user "user_id" ≡ some v) (text : js.as_text v ≡ some u)
    (keyed : present q.idempotency_key ≡ some key)
    (stored : find_record u key q.method q.path g.idempotency_keys ≡ some r) where
  abbrev pub replayed : Result GatewayError (JsonResponse J) × Gateway J (Services J W)
  replayed = (
    ok (record { status_code = r.response_status; content = r.response_body; replayed = true }),
    record g { services = s },
  )

  lookup_found :
      (payload : J) (handler : Handling J W (ℕ × J))
      → r.request_hash ≡ request_hash payload
      → idempotent_json_response request_hash
          (gateway_request js net request_hash q u payload)
          handler
          (record g { services = s })
        ≡ replayed
  unfolding idempotent_json_response
  lookup_found payload handler same_hash =
      rw (keyed, idempotent_json_response, stored)
        (rw (same_hash, eq_refl (request_hash payload)) refl)

  mutation_replayed :
      (payload : J) (handler : J → Handling J W (ℕ × J))
      → r.request_hash ≡ request_hash payload
      → protected js net request_hash q
          (λ user'. idempotent js net request_hash q user' payload (handler user'))
          g
        ≡ replayed
  unfolding protected idempotent text_item ◌>>=◌
  mutation_replayed payload handler same_hash =
      rw (known, named, text) (lookup_found payload (handler user) same_hash)

  -- For a request with a valid token and a key under which a response is stored for the user, the
  -- method and the path, with the hash of an empty payload: creating an invoice or a receipt gives
  -- the stored response again and leaves the stored responses and the other services as they were
  -- after the question who the user is.
  pub documents_replayed :
      (order_id : String)
      → r.request_hash ≡ request_hash (js.object [])
      → (create_invoice js net request_hash q order_id g ≡ replayed)
        × (create_receipt js net request_hash q order_id g ≡ replayed)
  unfolding create_invoice create_receipt
  documents_replayed order_id h = (mutation_replayed _ _ h, mutation_replayed _ _ h)

  -- The same of a payment request, with the hash of its scenario.
  create_payment_replayed :
      (order_id payment_scenario : String)
      → r.request_hash
        ≡ request_hash (js.object (("payment_scenario", js.text payment_scenario) ∷ []))
      → create_payment js net request_hash q order_id payment_scenario g ≡ replayed
  unfolding create_payment
  create_payment_replayed order_id payment_scenario h = mutation_replayed _ _ h
