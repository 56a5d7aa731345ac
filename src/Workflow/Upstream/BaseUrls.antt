-- ===== src/Workflow/Upstream/BaseUrls.antt =====
-- What the client makes of the base URLs of its configuration.
use Prim.Native.String.{◌++◌ as str_append}
use retail_ops_microservices.Base.{
  String, Bool, true, false, Option, none, some, ◌==◌, ◌≡◌, refl, ap, ◌∙◌, if◌then◌else◌,
}
use retail_ops_microservices.Base.Text.{rstrip_slashes_append}
use retail_ops_microservices.Workflow.Types.{HttpCall}
use retail_ops_microservices.Workflow.Upstream.{
  WorkflowConfig, HttpRequest, HttpxResult, base_url, request, request_to, upstream_result,
}
use mathlib.Core.Option

abbrev slash : String → String
slash base = str_append base "/"

-- The configuration with a slash behind each base URL.
abbrev slashed : {F : Type 0} → WorkflowConfig F → WorkflowConfig F
slashed c = record c {
  catalog_service_url = slash c.catalog_service_url;
  order_service_url = slash c.order_service_url;
  document_service_url = slash c.document_service_url;
  payment_service_url = slash c.payment_service_url;
  notification_service_url = slash c.notification_service_url;
}

if-map :
    (b : Bool) (f : String → String) (x : String) (o : Option String) {o' : Option String}
    → o' ≡ Option.map f o
    → (if b then some (f x) else o') ≡ Option.map f (if b then some x else o)
if-map true f x o others = refl
if-map false f x o others = others

base_url-slashed :
    {F : Type 0} (c : WorkflowConfig F) (service : String)
    → base_url (slashed c) service ≡ Option.map slash (base_url c service)
unfolding base_url
base_url-slashed c service = if-map (service == "catalog") slash c.catalog_service_url _ (
    if-map (service == "order") slash c.order_service_url _ (
      if-map (service == "document") slash c.document_service_url _ (
        if-map (service == "payment") slash c.payment_service_url _
          (if-map (service == "notification") slash c.notification_service_url _ refl))))

module _ {F W : Type 0} (send : HttpRequest F → W → HttpxResult × W) (c : WorkflowConfig F) where
  request_to-slashed :
      (base : Option String) (call : HttpCall) (w : W)
      → request_to send (slashed c) (Option.map slash base) call w ≡ request_to send c base call w
  request_to-slashed none call w = refl
  request_to-slashed (some base) call w =
      ap
        (λ stripped.
          let (answer, w') =
            send
              (record {
                timeout = c.upstream_timeout_seconds;
                url = str_append stripped call.path;
                call = call;
              })
              w in
          (upstream_result answer, w'))
        (rstrip_slashes_append base)

  -- A slash behind the base URLs of the configuration changes no request and no answer, whatever
  -- the service, the call and the network.
  request-slashed :
      (call : HttpCall) (w : W) → request send (slashed c) call w ≡ request send c call w
  unfolding request
  request-slashed call w =
      ap (λ base. request_to send (slashed c) base call w) (base_url-slashed c call.service)
      ∙ request_to-slashed (base_url c call.service) call w
