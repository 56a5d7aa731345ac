-- ===== src/Gateway/Routes.antt =====
-- services/api-gateway/src/api_gateway/routes. A protected route gets its user before anything
-- else; a mutation runs its handler under its Idempotency-Key.
pub mod Orders
pub mod Documents
use Prim.Native.String.{◌++◌ as str_append}
use retail_ops_microservices.Base.{ℕ, String, Option, none, some, List, [], ◌∷◌}
use retail_ops_microservices.Base.Exec.{Result, ok, err, Exec, pure, continue, ◌>>=◌}
use retail_ops_microservices.Gateway.Idempotency.{
  GatewayError, JsonResponse, Gateway, GatewayRequest, idempotent_json_response,
}
use retail_ops_microservices.Gateway.Upstream.{
  Json, Request, Network, Services, Handling, call_upstream, get_from, post_to, proxy_response,
  or_internal_error,
}
use retail_ops_microservices.Gateway.Access.{text_item, current_user}

-- A route, over the table of stored responses and the other services.
abbrev pub Route : Type 0 → Type 0 → Type 0 → Type 0
Route J W A = Exec (Gateway J (Services J W)) GatewayError A

abbrev pub on_services : {J W A : Type 0} → Handling J W A → Route J W A
on_services m g = ((m g.services).0, record g { services = (m g.services).1 })

module _ {J W : Type 0} (js : Json J) (net : Network J W) (request_hash : J → String)
    (q : Request) where
  -- `Depends(protected_user)`
  unfoldable pub protected : {A : Type 0} → (J → Route J W A) → Route J W A
  unfolding current_user ◌>>=◌
  protected route = on_services (current_user js net q) >>= route

  abbrev pub gateway_request : String → J → GatewayRequest J
  gateway_request user_id payload = record {
    user_id = user_id;
    idempotency_key = q.idempotency_key;
    method = q.method;
    path = q.path;
    payload = payload;
  }

  -- The route of a mutation.
  unfoldable pub idempotent : J → J → Handling J W (ℕ × J) → Route J W (JsonResponse J)
  unfolding text_item idempotent_json_response ◌>>=◌
  idempotent user payload handler = on_services (text_item js net q user "user_id") >>= λ user_id.
      idempotent_json_response request_hash (gateway_request user_id payload) handler

  -- routes/auth.py
  unfoldable pub register : List (String × J) → Route J W (JsonResponse J)
  unfolding post_to ◌>>=◌
  register body =
      on_services (post_to js net q "auth" "/auth/register" body >>= λ r. pure (proxy_response r))

  unfoldable pub login : List (String × J) → Route J W (JsonResponse J)
  unfolding post_to ◌>>=◌
  login body =
      on_services (post_to js net q "auth" "/auth/login" body >>= λ r. pure (proxy_response r))

  unfoldable pub me : Route J W J
  unfolding protected
  me = protected pure

  -- routes/catalog.py
  unfoldable pub list_catalog_items : Route J W (JsonResponse J)
  unfolding get_from ◌>>=◌
  list_catalog_items =
      on_services (get_from js net q "catalog" "/catalog/items" >>= λ r. pure (proxy_response r))

  unfoldable pub get_catalog_item : String → Route J W (JsonResponse J)
  unfolding get_from ◌>>=◌
  get_catalog_item item_id = on_services (
      get_from js net q "catalog" (str_append "/catalog/items/" item_id) >>= λ r.
      pure (proxy_response r))
