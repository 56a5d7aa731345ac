-- ===== src/Workflow/Contracts.antt =====
-- packages/shared/src/mwp_common/workflow_contracts.py: streams, message types and payloads.
use retail_ops_microservices.Base.{
  String, Option, none, some, List, [], ◌∷◌, or_else, ◌==◌, if◌then◌else◌,
}
use retail_ops_microservices.Workflow.Types.{Fields}

abbrev pub workflow_commands_stream : String
workflow_commands_stream = "project.workflow.commands"

abbrev pub workflow_events_stream : String
workflow_events_stream = "project.workflow.events"

abbrev pub workflow_dead_letter_stream : String
workflow_dead_letter_stream = "project.workflow.dead_letter"

abbrev pub workflow_commands_group : String
workflow_commands_group = "workflow-service.commands"

abbrev pub workflow_events_group : String
workflow_events_group = "workflow-service.events"

abbrev pub workflow_type_order_checkout : String
workflow_type_order_checkout = "order_checkout"

-- The command types, with the text that none of them is.
pub data Command : Type 0 where
  order_create document_generate_invoice payment_requested payment_process : Command
  document_generate_receipt notification_send notification_retry_requested : Command
  workflow_mark_failed : Command

abbrev pub command_text : Command → String
command_text order_create = "order.create"
command_text document_generate_invoice = "document.generate_invoice"
command_text payment_requested = "payment.requested"
command_text payment_process = "payment.process"
command_text document_generate_receipt = "document.generate_receipt"
command_text notification_send = "notification.send"
command_text notification_retry_requested = "notification.retry_requested"
command_text workflow_mark_failed = "workflow.mark_failed"

pub data Event : Type 0 where
  order_created document_invoice_generated workflow_awaiting_payment payment_completed : Event
  payment_failed document_receipt_generated notification_sent notification_failed : Event
  workflow_completed workflow_failed : Event

abbrev event_text : Event → String
event_text order_created = "order.created"
event_text document_invoice_generated = "document.invoice_generated"
event_text workflow_awaiting_payment = "workflow.awaiting_payment"
event_text payment_completed = "payment.completed"
event_text payment_failed = "payment.failed"
event_text document_receipt_generated = "document.receipt_generated"
event_text notification_sent = "notification.sent"
event_text notification_failed = "notification.failed"
event_text workflow_completed = "workflow.completed"
event_text workflow_failed = "workflow.failed"

-- `fields.get(key)`
unfoldable pub get_field : String → Fields → Option String
get_field k [] = none
get_field k ((j, v) ∷ fields) = if j == k then some v else get_field k fields

-- `fields[key] = value`
unfoldable pub set_field : String → String → Fields → Fields
set_field k v [] = (k, v) ∷ []
set_field k v ((j, w) ∷ fields) = if j == k then (k, v) ∷ fields else (j, w) ∷ set_field k v fields

-- `payload.update(fields)`, with None written as the empty text.
unfoldable pub update_fields : Fields → List (String × Option String) → Fields
unfolding set_field
update_fields payload [] = payload
update_fields payload ((k, v) ∷ fields) = update_fields (set_field k (or_else v "") payload) fields

-- The payload with its own names for the id and the time: `command_fields` has `command_id` and
-- `created_at`, `event_fields` has `event_id` and `occurred_at`.
abbrev payload_fields :
    String → String → String → String → String → String → String → Option String → Fields
payload_fields id_name time_name id now message_type workflow_id correlation_id causation_id =
    ("message_id", id)
    ∷ (id_name, id)
    ∷ ("message_type", message_type)
    ∷ ("message_version", "1")
    ∷ ("workflow_id", workflow_id)
    ∷ ("correlation_id", correlation_id)
    ∷ ("causation_id", or_else causation_id "")
    ∷ ("producer", "workflow-service")
    ∷ (time_name, now)
    ∷ []

-- `id` and `now` are `new_message_id()` and `utc_now_iso()`.
unfoldable pub command_fields :
    String
    → String
    → Command
    → String
    → String
    → Option String
    → List (String × Option String)
    → Fields
unfolding update_fields
command_fields id now c workflow_id correlation_id causation_id fields =
    update_fields
      (payload_fields "command_id" "created_at" id now (command_text c) workflow_id correlation_id
        causation_id)
      fields

unfoldable pub event_fields :
    String
    → String
    → Event
    → String
    → String
    → Option String
    → List (String × Option String)
    → Fields
unfolding update_fields
event_fields id now e workflow_id correlation_id causation_id fields =
    update_fields
      (payload_fields "event_id" "occurred_at" id now (event_text e) workflow_id correlation_id
        causation_id)
      fields
