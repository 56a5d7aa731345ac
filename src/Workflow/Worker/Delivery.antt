-- ===== src/Workflow/Worker/Delivery.antt =====
-- `_handle_generate_receipt` and `_handle_notification_send` of worker.py.
use Prim.Native.String.{◌++◌ as str_append}
use retail_ops_microservices.Base.{String, some, [], ◌∷◌, if◌then◌else◌, or_else, present}
use retail_ops_microservices.Base.Exec.{◌>>=◌, ◌>>◌}
use retail_ops_microservices.Workflow.Status.{notification_sending, completed, status_text}
use retail_ops_microservices.Workflow.Status
use retail_ops_microservices.Workflow.Types.{WorkflowRun, StreamMessage, JsonValue, Body, HttpCall}
use retail_ops_microservices.Workflow.Contracts.{
  document_receipt_generated, notification_sent, notification_failed, workflow_completed,
  notification_send, get_field,
}
use retail_ops_microservices.Workflow.External.{External}
use retail_ops_microservices.Workflow.System.{Work, now}
use retail_ops_microservices.Workflow.Repository.{
  update_workflow, set_status, set_current_step, set_failed_step, set_failure_code, set_last_error,
  set_receipt_document_id, set_notification_id, set_completed_at,
}
use retail_ops_microservices.Workflow.Worker.Calls.{
  is_text, body_item, body_get, as_text, text_or, field_or_raise, require_workflow, call_json,
  transition_order, publish_command, publish_event,
}
use retail_ops_microservices.Workflow.Worker.Checkout.{order_id_or_raise, document_call}

-- POST /notifications
abbrev notification_call : WorkflowRun → String → HttpCall
notification_call run order_id = record {
  method = "POST";
  service = "notification";
  path = "/notifications";
  json =
      ("order_id", JsonValue.str order_id)
      ∷ ("channel", JsonValue.str "email")
      ∷ (
        "recipient",
        JsonValue.str (or_else (present run.user_email) (str_append run.user_id "@example.test")),
      )
      ∷ ("template_key", JsonValue.str "workflow_completed")
      ∷ [];
  correlation_id = run.correlation_id;
}

module _ {W : Type 0} (x : External W) where
  unfoldable pub handle_generate_receipt : StreamMessage → Work W String
  handle_generate_receipt m = do
    workflow_id ← field_or_raise "workflow_id" m
    workflow ← require_workflow x workflow_id
    order_id ← order_id_or_raise "receipt generation" workflow
    document ← call_json x (document_call "receipt" order_id workflow.correlation_id) (201 ∷ [])
    transition_order x order_id "receipt_generated" "Receipt PDF generated by async workflow"
        workflow.correlation_id
    id ← body_item "id" document
    document_id ← as_text id
    updated ← update_workflow x workflow.id (
        set_status notification_sending
        ∷ set_current_step (status_text notification_sending)
        ∷ set_receipt_document_id document_id
        ∷ [])
    publish_event x document_receipt_generated updated (get_field "message_id" m.fields)
        (("order_id", updated.order_id) ∷ ("document_id", some document_id) ∷ [])
    publish_command x notification_send updated (get_field "message_id" m.fields)
        (("order_id", updated.order_id) ∷ [])

  -- The branch of a notification that was sent.
  unfoldable pub complete_workflow : StreamMessage → WorkflowRun → String → Body → Work W String
  complete_workflow m workflow order_id notification = do
    transition_order x order_id "notification_sent" "Workflow notification sent"
        workflow.correlation_id
    id ← body_item "id" notification
    notification_id ← as_text id
    t ← now x
    updated ← update_workflow x workflow.id (
        set_status completed
        ∷ set_current_step (status_text completed)
        ∷ set_notification_id notification_id
        ∷ set_completed_at t
        ∷ [])
    publish_event x notification_sent updated (get_field "message_id" m.fields)
        (("order_id", updated.order_id) ∷ ("notification_id", some notification_id) ∷ [])
    publish_event x workflow_completed updated (get_field "message_id" m.fields)
        (("order_id", updated.order_id) ∷ [])

  -- The branch of a notification that was not.
  unfoldable pub fail_notification : StreamMessage → WorkflowRun → Body → Work W String
  fail_notification m workflow notification = do
    id ← body_item "id" notification
    notification_id ← as_text id
    error ← body_get "last_error" notification
    last_error ← text_or "Notification failed" error
    updated ← update_workflow x workflow.id (
        set_status Status.notification_failed
        ∷ set_current_step (status_text Status.notification_failed)
        ∷ set_notification_id notification_id
        ∷ set_failed_step (some "notification")
        ∷ set_failure_code (some "NOTIFICATION_FAILED")
        ∷ set_last_error (some last_error)
        ∷ [])
    publish_event x notification_failed updated (get_field "message_id" m.fields) (
        ("order_id", updated.order_id)
        ∷ ("notification_id", some notification_id)
        ∷ ("failure_code", some "NOTIFICATION_FAILED")
        ∷ [])

  unfoldable pub handle_notification_send : StreamMessage → Work W String
  handle_notification_send m = do
    workflow_id ← field_or_raise "workflow_id" m
    workflow ← require_workflow x workflow_id
    order_id ← order_id_or_raise "notification" workflow
    notification ← call_json x (notification_call workflow order_id) (201 ∷ [])
    status ← body_get "status" notification
    if is_text status "sent"
        then complete_workflow m workflow order_id notification
        else fail_notification m workflow notification
