-- ===== src/Workflow/Worker/Payment.antt =====
-- The payment handlers of worker.py.
use Prim.Native.String.{◌++◌ as str_append}
use retail_ops_microservices.Base.{
  String, Bool, Option, none, some, [], ◌∷◌, ◌==◌, ◌||◌, if◌then◌else◌, or_else, present,
}
use retail_ops_microservices.Base.Exec.{ok, err, pure, ◌>>=◌, ◌>>◌}
use retail_ops_microservices.Workflow.Status.{awaiting_payment, receipt_generating, status_text}
use retail_ops_microservices.Workflow.Status
use retail_ops_microservices.Workflow.Types.{WorkflowRun, StreamMessage, JsonValue, Body, HttpCall}
use retail_ops_microservices.Workflow.Contracts.{
  payment_completed, payment_failed, payment_process, document_generate_receipt, get_field,
}
use retail_ops_microservices.Workflow.External.{External, assertion_failed}
use retail_ops_microservices.Workflow.System.{Work}
use retail_ops_microservices.Workflow.Repository.{
  update_workflow, set_status, set_current_step, set_failed_step, set_failure_code, set_last_error,
  set_payment_id, set_payment_scenario,
}
use retail_ops_microservices.Workflow.Worker.Calls.{
  is_text, body_item, body_get, as_text, text_or, as_optional, field_or_raise, require_workflow,
  call_json, transition_order, publish_command, publish_event, mark_failed,
}
use retail_ops_microservices.Workflow.Worker.Checkout.{optional_text, order_id_or_raise}

-- PAYMENT_FAILURE_RETRYABLE
abbrev payment_failure_retryable : String → Bool
payment_failure_retryable code = code == "INSUFFICIENT_FUNDS" || code == "PROVIDER_UNAVAILABLE"

-- GET /orders/{order_id}
abbrev get_order_call : String → String → HttpCall
get_order_call order_id correlation_id = record {
  method = "GET";
  service = "order";
  path = str_append "/orders/" order_id;
  json = [];
  correlation_id = correlation_id;
}

-- POST /payments
abbrev payment_call : Option String → JsonValue → JsonValue → String → String → HttpCall
payment_call order_id amount currency scenario correlation_id = record {
  method = "POST";
  service = "payment";
  path = "/payments";
  json =
      ("order_id", optional_text order_id)
      ∷ ("amount_kopecks", amount)
      ∷ ("currency", currency)
      ∷ ("payment_method", JsonValue.str "card")
      ∷ ("mock_scenario", JsonValue.str scenario)
      ∷ [];
  correlation_id = correlation_id;
}

-- `message.fields.get("payment_scenario") or "success"`
abbrev scenario_of : StreamMessage → String
scenario_of m = or_else (present (get_field "payment_scenario" m.fields)) "success"

module _ {W : Type 0} where
  -- `assert workflow.order_id is not None`
  abbrev pub assert_order_id : WorkflowRun → Work W String
  assert_order_id run s = elim run.order_id [
    | none ↦ (err assertion_failed, s)
    | some id ↦ (ok id, s)
  ]

module _ {W : Type 0} (x : External W) where
  unfoldable pub handle_payment_requested : StreamMessage → Work W String
  handle_payment_requested m = do
    workflow_id ← field_or_raise "workflow_id" m
    workflow ← require_workflow x workflow_id
    updated ← update_workflow x workflow.id (
        set_status Status.payment_requested
        ∷ set_current_step (status_text Status.payment_requested)
        ∷ set_payment_scenario (scenario_of m)
        ∷ set_failed_step none
        ∷ set_failure_code none
        ∷ set_last_error none
        ∷ [])
    publish_command x payment_process updated (get_field "message_id" m.fields) (
        ("order_id", updated.order_id)
        ∷ ("user_id", some updated.user_id)
        ∷ ("payment_scenario", some (scenario_of m))
        ∷ [])

  unfoldable pub handle_payment_completed : StreamMessage → WorkflowRun → Body → Work W String
  handle_payment_completed m workflow payment = do
    order_id ← assert_order_id workflow
    transition_order x order_id "payment_completed" "Local payment simulation completed"
        workflow.correlation_id
    id ← body_item "id" payment
    payment_id ← as_text id
    updated ← update_workflow x workflow.id (
        set_status receipt_generating
        ∷ set_current_step (status_text receipt_generating)
        ∷ set_payment_id payment_id
        ∷ set_failed_step none
        ∷ set_failure_code none
        ∷ set_last_error none
        ∷ [])
    publish_event x payment_completed updated (get_field "message_id" m.fields)
        (("order_id", updated.order_id) ∷ ("payment_id", some payment_id) ∷ [])
    publish_command x document_generate_receipt updated (get_field "message_id" m.fields)
        (("order_id", updated.order_id) ∷ [])

  -- After a failure that may be retried: back to waiting for a payment.
  unfoldable pub await_retry : WorkflowRun → String → String → Option String → Work W String
  await_retry workflow payment_id failure_code reason = do
    updated ← update_workflow x workflow.id (
        set_status awaiting_payment
        ∷ set_current_step "payment_failed"
        ∷ set_payment_id payment_id
        ∷ set_failed_step (some "payment")
        ∷ set_failure_code (some failure_code)
        ∷ set_last_error reason
        ∷ [])
    pure updated.id

  -- After any other failure.
  unfoldable pub reject_payment :
      StreamMessage → WorkflowRun → String → Option String → Work W String
  reject_payment m workflow failure_code reason =
      mark_failed x workflow.id
        (record {
          failed_step = "payment";
          failure_code = failure_code;
          last_error = or_else (present reason) "Payment was rejected";
        })
        (get_field "message_id" m.fields)

  unfoldable pub handle_payment_failed : StreamMessage → WorkflowRun → Body → Work W String
  handle_payment_failed m workflow payment = do
    order_id ← assert_order_id workflow
    code ← body_get "failure_code" payment
    failure_code ← text_or "PAYMENT_FAILED" code
    transition_order x order_id "payment_failed"
        (str_append "Local payment simulation failed: " failure_code) workflow.correlation_id
    id ← body_item "id" payment
    payment_id ← as_text id
    publish_event x payment_failed workflow (get_field "message_id" m.fields) (
        ("order_id", workflow.order_id)
        ∷ ("payment_id", some payment_id)
        ∷ ("failure_code", some failure_code)
        ∷ [])
    why ← body_get "failure_reason" payment
    reason ← as_optional why
    if payment_failure_retryable failure_code
        then await_retry workflow payment_id failure_code reason
        else reject_payment m workflow failure_code reason

  unfoldable pub handle_payment_process : StreamMessage → Work W String
  handle_payment_process m = do
    workflow_id ← field_or_raise "workflow_id" m
    workflow ← require_workflow x workflow_id
    order_id ← order_id_or_raise "payment" workflow
    order ← call_json x (get_order_call order_id workflow.correlation_id) (200 ∷ [])
    updated ← update_workflow x workflow.id (
        set_status Status.payment_processing
        ∷ set_current_step (status_text Status.payment_processing)
        ∷ set_payment_scenario (scenario_of m)
        ∷ [])
    total ← body_item "total_kopecks" order
    currency ← body_item "currency" order
    payment ←
        call_json x
          (payment_call updated.order_id total currency (scenario_of m) updated.correlation_id)
          (201 ∷ [])
    status ← body_get "status" payment
    if is_text status "completed"
        then handle_payment_completed m updated payment
        else handle_payment_failed m updated payment
