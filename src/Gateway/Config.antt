-- ===== src/Gateway/Config.antt =====
-- services/api-gateway/src/api_gateway/config.py, and the base URLs that upstream.py takes from it.
-- Python's `float` is a parameter.
use Prim.Native.Char.{code}
use retail_ops_microservices.Base.{
  String, Option, none, some, List, [], ◌∷◌, ◌==◌, ◌≡◌, refl, num_eq, present, or_else,
  if◌then◌else◌,
}
use retail_ops_microservices.Base.Text.{strip}
use retail_ops_microservices.Base.Environment.{Environment, read_float}

pub record GatewayConfig (F : Type 0) : Type 0 where
  pub auth_service_url : String
  pub catalog_service_url : String
  pub order_service_url : String
  pub document_service_url : String
  pub payment_service_url : String
  pub notification_service_url : String
  pub workflow_service_url : String
  pub upstream_timeout_seconds : F
  pub cors_allowed_origins : List String

-- `text.split(",")`
abbrev split_commas : String → List String
split_commas t = parts t
  where
    on_front : (String → String) → List String → List String
    on_front f [] = f String.[] ∷ []
    on_front f (part ∷ others) = f part ∷ others

    parts : String → List String
    parts String.[] = String.[] ∷ []
    parts (String.◌∷◌ c s) =
        let others = parts s in
        if num_eq (code c) 44 then String.[] ∷ others else on_front (λ p. String.◌∷◌ c p) others

abbrev kept : Option String → List String → List String
kept none others = others
kept (some origin) others = origin ∷ others

abbrev origins : List String → List String
origins [] = []
origins (part ∷ parts) = kept (present (some (strip part))) (origins parts)

-- `_read_origins`
unfoldable read_origins : Environment → List String
read_origins source = origins (
    split_commas (
      or_else (source "GATEWAY_CORS_ALLOWED_ORIGINS")
        "http://localhost:3000,http://localhost:5173"))

-- `default_timeout` stands for 5.0; `none` where `float` raises ValueError.
unfoldable get_gateway_config :
    {F : Type 0} → (String → Option F) → F → Environment → Option (GatewayConfig F)
unfolding read_float read_origins
get_gateway_config float default_timeout source =
    elim (read_float float source "UPSTREAM_TIMEOUT_SECONDS" default_timeout) [
      | none ↦ none
      | some timeout ↦ some (record {
        auth_service_url = or_else (source "AUTH_SERVICE_URL") "http://auth-service:8000";
        catalog_service_url = or_else (source "CATALOG_SERVICE_URL") "http://catalog-service:8000";
        order_service_url = or_else (source "ORDER_SERVICE_URL") "http://order-service:8000";
        document_service_url =
            or_else (source "DOCUMENT_SERVICE_URL") "http://document-service:8000";
        payment_service_url = or_else (source "PAYMENT_SERVICE_URL") "http://payment-service:8000";
        notification_service_url =
            or_else (source "NOTIFICATION_SERVICE_URL") "http://notification-service:8000";
        workflow_service_url =
            or_else (source "WORKFLOW_SERVICE_URL") "http://workflow-service:8000";
        upstream_timeout_seconds = timeout;
        cors_allowed_origins = read_origins source;
      })
    ]

test_read_origins :
    (read_origins (λ name. none) ≡ "http://localhost:3000" ∷ "http://localhost:5173" ∷ [])
    × (read_origins (λ name. some " a, ,b ,") ≡ "a" ∷ "b" ∷ [])
    × (read_origins (λ name. some "") ≡ [])
unfolding read_origins
test_read_origins = (refl, refl, refl)

-- The dictionary `_base_urls` of the client.
abbrev base_url : {F : Type 0} → GatewayConfig F → String → Option String
base_url c service =
    if service == "auth"
    then some c.auth_service_url
    else if service == "catalog"
    then some c.catalog_service_url
    else if service == "order"
    then some c.order_service_url
    else if service == "document"
    then some c.document_service_url
    else if service == "payment"
    then some c.payment_service_url
    else if service == "notification"
    then some c.notification_service_url
    else if service == "workflow"
    then some c.workflow_service_url
    else none
