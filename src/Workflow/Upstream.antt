-- ===== src/Workflow/Upstream.antt =====
-- services/workflow-service/src/workflow_service/upstream.py and config.py: the client that the
-- worker calls the other services with, and the configuration that names them. The environment is
-- a function, Python's `float` and httpx are parameters.
pub mod BaseUrls
use Prim.Native.String.{◌++◌ as str_append}
use retail_ops_microservices.Base.{
  ℕ, String, Bool, true, false, ◌||◌, Option, none, some, List, [], ◌∷◌, ◌==◌, ◌≡◌, refl, present,
  or_else, if◌then◌else◌,
}
use retail_ops_microservices.Base.Exec.{Result, ok, err}
use retail_ops_microservices.Base.Utf8.{Bytes}
use retail_ops_microservices.Base.Text.{lower_equal, strip, rstrip_slashes}
use retail_ops_microservices.Base.Environment.{Environment, read_float}
use retail_ops_microservices.Workflow.Types.{HttpCall, Body, object, str, UpstreamResponse}

pub record WorkflowConfig (F : Type 0) : Type 0 where
  pub redis_url : String
  pub catalog_service_url : String
  pub order_service_url : String
  pub document_service_url : String
  pub payment_service_url : String
  pub notification_service_url : String
  pub upstream_timeout_seconds : F
  pub worker_enabled : Bool
  pub worker_consumer_name : String

abbrev is_yes : String → Bool
is_yes word =
    lower_equal word "1"
    || lower_equal word "true"
    || lower_equal word "yes"
    || lower_equal word "on"

unfoldable read_bool : Environment → String → Bool → Bool
read_bool source name default = elim (present (source name)) [
  | none ↦ default
  | some raw_value ↦ is_yes (strip raw_value)
]

-- `default_timeout` stands for 5.0.
unfoldable get_workflow_config :
    {F : Type 0} → (String → Option F) → F → Environment → Option (WorkflowConfig F)
unfolding read_bool read_float
get_workflow_config float default_timeout source =
    elim (read_float float source "UPSTREAM_TIMEOUT_SECONDS" default_timeout) [
      | none ↦ none
      | some timeout ↦ some (record {
        redis_url =
            or_else (present (source "REDIS_URL"))
              (or_else (source "REDIS_URL") "redis://redis:6379/0");
        catalog_service_url = or_else (source "CATALOG_SERVICE_URL") "http://catalog-service:8000";
        order_service_url = or_else (source "ORDER_SERVICE_URL") "http://order-service:8000";
        document_service_url =
            or_else (source "DOCUMENT_SERVICE_URL") "http://document-service:8000";
        payment_service_url = or_else (source "PAYMENT_SERVICE_URL") "http://payment-service:8000";
        notification_service_url =
            or_else (source "NOTIFICATION_SERVICE_URL") "http://notification-service:8000";
        upstream_timeout_seconds = timeout;
        worker_enabled = read_bool source "WORKFLOW_WORKER_ENABLED" true;
        worker_consumer_name =
            or_else (source "WORKFLOW_WORKER_CONSUMER_NAME") "workflow-service-local";
      })
    ]

-- The dictionary `_base_urls` of the client.
unfoldable pub base_url : {F : Type 0} → WorkflowConfig F → String → Option String
base_url c service =
    if service == "catalog"
    then some c.catalog_service_url
    else if service == "order"
    then some c.order_service_url
    else if service == "document"
    then some c.document_service_url
    else if service == "payment"
    then some c.payment_service_url
    else if service == "notification"
    then some c.notification_service_url
    else none

-- The request that httpx is given.
pub record HttpRequest (F : Type 0) : Type 0 where
  pub timeout : F
  pub url : String
  pub call : HttpCall

-- What httpx gives back: a response, with `parsed` for `response.json()`, or one of its errors.
pub data HttpxResult : Type 0 where
  answered : ℕ → Bytes → Option Body → String → HttpxResult
  timed_out : String → HttpxResult
  request_failed : String → HttpxResult

pub data UpstreamError : Type 0 where
  upstream_timeout_error : String → UpstreamError
  upstream_service_error : String → UpstreamError
  -- KeyError of `self._base_urls[service]`
  unknown_service : String → UpstreamError

-- The value None of an empty body is no object.
abbrev response_body : Bytes → Option Body → String → Body
response_body [] parsed text = Body.not_object
response_body (b ∷ bs) (some body) text = body
response_body (b ∷ bs) none text = object (("detail", str text) ∷ [])

abbrev upstream_result : HttpxResult → Result UpstreamError UpstreamResponse
upstream_result (timed_out text) = err (upstream_timeout_error text)
upstream_result (request_failed text) = err (upstream_service_error text)
upstream_result (answered status content parsed text) =
    ok (record { status_code = status; body = response_body content parsed text })

module _ {F W : Type 0} (send : HttpRequest F → W → HttpxResult × W) (c : WorkflowConfig F) where
  abbrev pub request_to : Option String → HttpCall → W → Result UpstreamError UpstreamResponse × W
  request_to none call w = (err (unknown_service call.service), w)
  request_to (some base) call w =
      let (answer, w') =
        send
          (record {
            timeout = c.upstream_timeout_seconds;
            url = str_append (rstrip_slashes base) call.path;
            call = call;
          })
          w in
      (upstream_result answer, w')

  -- `WorkflowUpstreamClient.request`
  unfoldable pub request : HttpCall → W → Result UpstreamError UpstreamResponse × W
  unfolding base_url
  request call w = request_to (base_url c call.service) call w
