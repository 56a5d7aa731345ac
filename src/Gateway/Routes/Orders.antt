-- ===== src/Gateway/Routes/Orders.antt =====
-- services/api-gateway/src/api_gateway/routes/orders.py and workflows.py, over requests that
-- schemas.py has accepted.
use Prim.Native.String.{◌++◌ as str_append}
use retail_ops_microservices.Base.{
  ℕ, String, Bool, true, false, ◌&&◌, not, Option, none, some, List, [], ◌∷◌, ◌==◌, or_else, num_eq,
  if◌then◌else◌,
}
use retail_ops_microservices.Base.Exec.{pure, raise, raise_if, ◌>>=◌, ◌>>◌}
use retail_ops_microservices.Gateway.Idempotency.{gateway_error, JsonResponse}
use retail_ops_microservices.Gateway.Upstream.{
  Json, Request, UpstreamResponse, Network, Handling, get_from, post_to, proxy_response, quote,
}
use retail_ops_microservices.Gateway.Access.{
  get_field, logged, text_item, same_field, is_one_of, user_item, load_owned_order,
  ensure_order_status, transition_order, start_order_workflow, request_order_payment, load_workflow,
  load_workflow_for_order,
}
use retail_ops_microservices.Gateway.Routes.{Route, on_services, protected, idempotent}

pub record CreateGatewayOrderRequest : Type 0 where
  pub catalog_item_id : String
  pub quantity : ℕ

-- `template_key` is one of the two accepted keys where it is given.
pub record CreateGatewayNotificationRequest : Type 0 where
  pub template_key : Option String
  pub channel : String

module _ {J W : Type 0} (js : Json J) (net : Network J W) (request_hash : J → String)
    (q : Request) where
  unfoldable create_order_handler : CreateGatewayOrderRequest → J → Handling J W (ℕ × J)
  unfolding start_order_workflow logged ◌>>=◌
  create_order_handler body user = do
    workflow ←
        start_order_workflow js net q user body.catalog_item_id body.quantity
          (or_else q.idempotency_key "")
    logged js net q user workflow "workflow_id"
    pure (202, workflow)

  unfoldable pub create_order : CreateGatewayOrderRequest → Route J W (JsonResponse J)
  unfolding protected idempotent create_order_handler
  create_order body = protected js net request_hash q λ user.
      idempotent js net request_hash q user
        (js.object (
          ("catalog_item_id", js.text body.catalog_item_id)
          ∷ ("quantity", js.number body.quantity)
          ∷ []))
        (create_order_handler body user)

  unfoldable pub list_orders : Route J W (JsonResponse J)
  unfolding protected text_item get_from quote ◌>>=◌
  list_orders = protected js net request_hash q λ user. on_services (
      text_item js net q user "user_id" >>= λ user_id.
      get_from js net q "order" (str_append "/orders?user_id=" (quote user_id)) >>= λ r.
      pure (proxy_response r))

  unfoldable pub get_order : String → Route J W J
  unfolding protected load_owned_order
  get_order order_id =
      protected js net request_hash q λ user. on_services (load_owned_order js net q user order_id)

  unfoldable pub get_order_history : String → Route J W (JsonResponse J)
  unfolding protected load_owned_order get_from ◌>>=◌
  get_order_history order_id = protected js net request_hash q λ user. on_services (
      load_owned_order js net q user order_id >>= λ order.
      get_from js net q "order" (str_append "/orders/" (str_append order_id "/history")) >>= λ r.
      pure (proxy_response r))

  unfoldable pub get_order_workflow : String → Route J W J
  unfolding protected load_owned_order text_item load_workflow_for_order ◌>>=◌
  get_order_workflow order_id = protected js net request_hash q λ user. on_services (
      load_owned_order js net q user order_id >>= λ order.
      text_item js net q user "user_id" >>= λ user_id.
      load_workflow_for_order js net q order_id user_id)

  unfoldable create_payment_handler : String → String → J → Handling J W (ℕ × J)
  unfolding load_owned_order request_order_payment logged ◌>>=◌
  create_payment_handler order_id payment_scenario user = do
    load_owned_order js net q user order_id
    workflow ←
        request_order_payment js net q user order_id payment_scenario (or_else q.idempotency_key "")
    logged js net q user workflow "workflow_id"
    pure (202, workflow)

  unfoldable pub create_payment : String → String → Route J W (JsonResponse J)
  unfolding protected idempotent create_payment_handler
  create_payment order_id payment_scenario = protected js net request_hash q λ user.
      idempotent js net request_hash q user
        (js.object (("payment_scenario", js.text payment_scenario) ∷ []))
        (create_payment_handler order_id payment_scenario user)

  -- The template that is sent, and the ones that the order's status allows.
  abbrev template_choice : J → Option String → String × List String
  template_choice order_status template_key =
      if is_one_of js net q order_status ("receipt_generated" ∷ [])
      then (or_else template_key "workflow_completed", "workflow_completed" ∷ [])
      else if is_one_of js net q order_status ("payment_failed" ∷ [])
      then (or_else template_key "payment_failed", "payment_failed" ∷ [])
      else (or_else template_key "workflow_completed", [])

  abbrev pub allows : List String → String → Bool
  allows [] t = false
  allows (u ∷ us) t = if u == t then true else allows us t

  -- Both ways to refuse a template are the same 409.
  unfoldable check_template : J → String → List String → Handling J W (Unit {0})
  unfolding ensure_order_status ◌>>=◌
  check_template order template_key allowed =
      if allows allowed template_key
      then pure tt
      else (ensure_order_status js net q order ("receipt_generated" ∷ "payment_failed" ∷ [])
          >> raise (gateway_error 409 "WORKFLOW_STEP_CONFLICT"))

  -- The transition after a sent `workflow_completed`; the body's status is read last.
  unfoldable complete_order : String → J → String → J → Handling J W (Unit {0})
  unfolding transition_order ◌>>=◌
  complete_order order_id order_status template_key notification =
      if is_one_of js net q order_status ("receipt_generated" ∷ [])
        && template_key == "workflow_completed"
      then (get_field js net q notification "status" >>= λ status.
          if is_one_of js net q status ("sent" ∷ [])
          then (transition_order js net q order_id "notification_sent"
                "Legacy/manual workflow notification sent"
              >> pure tt)
          else pure tt)
      else pure tt

  unfoldable post_notification :
      String → CreateGatewayNotificationRequest → J → String → Handling J W (UpstreamResponse J)
  unfolding post_to ◌>>=◌
  post_notification order_id body user template_key = user_item js net q user "email" >>= λ email.
      post_to js net q "notification" "/notifications" (
        ("order_id", js.text order_id)
        ∷ ("channel", js.text body.channel)
        ∷ ("recipient", email)
        ∷ ("template_key", js.text template_key)
        ∷ [])

  unfoldable create_notification_handler :
      String → CreateGatewayNotificationRequest → J → Handling J W (ℕ × J)
  unfolding load_owned_order check_template post_notification complete_order logged ◌>>=◌
  create_notification_handler order_id body user = do
    order ← load_owned_order js net q user order_id
    order_status ← get_field js net q order "status"
    check_template order (template_choice order_status body.template_key).0
        (template_choice order_status body.template_key).1
    r ← post_notification order_id body user (template_choice order_status body.template_key).0
    raise_if (not (num_eq r.status_code 201)) (gateway_error 502 "UPSTREAM_SERVICE_ERROR")
    complete_order order_id order_status (template_choice order_status body.template_key).0 r.body
    logged js net q user r.body "id"
    pure (201, r.body)

  abbrev template_json : Option String → J
  template_json none = js.null
  template_json (some t) = js.text t

  unfoldable pub create_notification :
      String → CreateGatewayNotificationRequest → Route J W (JsonResponse J)
  unfolding protected idempotent create_notification_handler
  create_notification order_id body = protected js net request_hash q λ user.
      idempotent js net request_hash q user
        (js.object (
          ("template_key", template_json body.template_key)
          ∷ ("channel", js.text body.channel)
          ∷ []))
        (create_notification_handler order_id body user)

  -- routes/workflows.py
  unfoldable pub get_workflow : String → Route J W J
  unfolding protected load_workflow same_field ◌>>=◌
  get_workflow workflow_id = protected js net request_hash q λ user. on_services (
      load_workflow js net q workflow_id >>= λ workflow.
      same_field js net q workflow user "user_id" >>= λ own.
      raise_if (not own) (gateway_error 404 "WORKFLOW_NOT_FOUND") >> pure workflow)
