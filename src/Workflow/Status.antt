-- ===== src/Workflow/Status.antt =====
-- The `STATUS_…` constants of repository.py: the texts that `status` can hold.
use retail_ops_microservices.Base.{String, Bool, true, false}

pub data WorkflowStatus : Type 0 where
  accepted order_creating invoice_generating awaiting_payment payment_requested : WorkflowStatus
  payment_processing receipt_generating notification_sending completed : WorkflowStatus
  failed notification_failed : WorkflowStatus

WorkflowStatus-discrete : Discrete WorkflowStatus
WorkflowStatus-discrete = hlevel

abbrev pub status_text : WorkflowStatus → String
status_text accepted = "accepted"
status_text order_creating = "order_creating"
status_text invoice_generating = "invoice_generating"
status_text awaiting_payment = "awaiting_payment"
status_text payment_requested = "payment_requested"
status_text payment_processing = "payment_processing"
status_text receipt_generating = "receipt_generating"
status_text notification_sending = "notification_sending"
status_text completed = "completed"
status_text failed = "failed"
status_text notification_failed = "notification_failed"

-- `status in {STATUS_COMPLETED, STATUS_FAILED}`
abbrev pub is_terminal : WorkflowStatus → Bool
is_terminal completed = true
is_terminal failed = true
is_terminal _ = false

abbrev pub is_awaiting_payment : WorkflowStatus → Bool
is_awaiting_payment awaiting_payment = true
is_awaiting_payment _ = false
