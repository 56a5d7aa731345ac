-- ===== src/Workflow/Worker/Endings.antt =====
-- The status that each handler leaves its run in, when it returns.
use retail_ops_microservices.Base.{String, ◌≡◌, Option}
use retail_ops_microservices.Workflow.Types.{WorkflowRun, StreamMessage, Body}
use retail_ops_microservices.Workflow.Contracts.{
  Command, order_create, document_generate_invoice, payment_process, document_generate_receipt,
  notification_send, workflow_mark_failed,
}
use retail_ops_microservices.Workflow.External.{External}
use retail_ops_microservices.Workflow.System.{Work}
use retail_ops_microservices.Workflow.Worker.Calls.{mark_failed, Failure}
use retail_ops_microservices.Workflow.Worker.Checkout.{handle_order_create, handle_generate_invoice}
use retail_ops_microservices.Workflow.Worker.Payment.{
  handle_payment_requested, handle_payment_process, handle_payment_completed, handle_payment_failed,
  await_retry, reject_payment,
}
use retail_ops_microservices.Workflow.Worker.Delivery.{
  handle_generate_receipt, handle_notification_send, complete_workflow, fail_notification,
}
use retail_ops_microservices.Workflow.Worker.Process.{handle_mark_failed}
use retail_ops_microservices.Workflow.Worker.Frame.{OnRuns, frame_rules}
use retail_ops_microservices.Workflow.Status
use retail_ops_microservices.Workflow.Status.{WorkflowStatus}
use retail_ops_microservices.Workflow.Worker.Touches.{Names}
use retail_ops_microservices.Workflow.Worker.Ends.{Shows, Ends, Ends-bind, ends_rules}

-- The status of a run after each command.
pub data Ending : Command → WorkflowStatus → Type 0 where
  ordered : Ending order_create Status.invoice_generating
  invoiced : Ending document_generate_invoice Status.awaiting_payment
  requested : Ending Command.payment_requested Status.payment_requested
  paid : Ending payment_process Status.receipt_generating
  may_retry : Ending payment_process Status.awaiting_payment
  rejected : Ending payment_process Status.failed
  receipted : Ending document_generate_receipt Status.notification_sending
  notified : Ending notification_send Status.completed
  not_notified : Ending notification_send Status.notification_failed
  given_up : Ending workflow_mark_failed Status.failed

-- The row `k` ends with a status that the command may leave.
abbrev pub Leaves : {W A : Type 0} → String → Command → Work W A → Type 0
Leaves k c h = Ends (OnRuns (Shows k (Ending c))) h

module _ {W : Type 0} (x : External W) {k : String} where
  pub order_create-Ends :
      (m : StreamMessage) → Names m k → Leaves k order_create (handle_order_create x m)
  unfolding handle_order_create
  order_create-Ends m e = search (ends_rules, ordered, Ends-bind, frame_rules) depth 60 fits 3000

  pub generate_invoice-Ends :
      (m : StreamMessage)
      → Names m k
      → Leaves k document_generate_invoice (handle_generate_invoice x m)
  unfolding handle_generate_invoice
  generate_invoice-Ends m e =
      search (ends_rules, invoiced, Ends-bind, frame_rules) depth 60 fits 3000

  pub payment_requested-Ends :
      (m : StreamMessage)
      → Names m k
      → Leaves k Command.payment_requested (handle_payment_requested x m)
  unfolding handle_payment_requested
  payment_requested-Ends m e =
      search (ends_rules, requested, Ends-bind, frame_rules) depth 60 fits 3000

  pub payment_completed-Ends :
      (m : StreamMessage) (r : WorkflowRun) (b : Body)
      → r.id ≡ k
      → Leaves k payment_process (handle_payment_completed x m r b)
  unfolding handle_payment_completed
  payment_completed-Ends m r b e =
      search (ends_rules, paid, Ends-bind, frame_rules) depth 60 fits 3000

  pub await_retry-Ends :
      (r : WorkflowRun) (p c : String) (o : Option String)
      → r.id ≡ k
      → Leaves k payment_process (await_retry x r p c o)
  unfolding await_retry
  await_retry-Ends r p c o e =
      search (ends_rules, may_retry, Ends-bind, frame_rules) depth 60 fits 3000

  pub mark_failed-Ends :
      {c : Command}
      → Ending c Status.failed
      → (j : String) (f : Failure) (o : Option String) → j ≡ k
      → Leaves k c (mark_failed x j f o)
  unfolding mark_failed
  mark_failed-Ends given j f o e = search (ends_rules, Ends-bind, frame_rules) depth 60 fits 3000

  pub reject_payment-Ends :
      (m : StreamMessage) (r : WorkflowRun) (c : String) (o : Option String)
      → r.id ≡ k
      → Leaves k payment_process (reject_payment x m r c o)
  unfolding reject_payment
  reject_payment-Ends m r c o e = search (mark_failed-Ends, rejected)

  pub payment_failed-Ends :
      (m : StreamMessage) (r : WorkflowRun) (b : Body)
      → r.id ≡ k
      → Leaves k payment_process (handle_payment_failed x m r b)
  unfolding handle_payment_failed
  payment_failed-Ends m r b e =
      search (ends_rules, Ends-bind, await_retry-Ends, reject_payment-Ends) depth 60 fits 3000

  pub payment_process-Ends :
      (m : StreamMessage) → Names m k → Leaves k payment_process (handle_payment_process x m)
  unfolding handle_payment_process
  payment_process-Ends m e =
      search (ends_rules, Ends-bind, payment_completed-Ends, payment_failed-Ends) depth 60 fits 3000

  pub generate_receipt-Ends :
      (m : StreamMessage)
      → Names m k
      → Leaves k document_generate_receipt (handle_generate_receipt x m)
  unfolding handle_generate_receipt
  generate_receipt-Ends m e =
      search (ends_rules, receipted, Ends-bind, frame_rules) depth 60 fits 3000

  pub complete_workflow-Ends :
      (m : StreamMessage) (r : WorkflowRun) (o : String) (b : Body)
      → r.id ≡ k
      → Leaves k notification_send (complete_workflow x m r o b)
  unfolding complete_workflow
  complete_workflow-Ends m r o b e =
      search (ends_rules, notified, Ends-bind, frame_rules) depth 60 fits 3000

  pub fail_notification-Ends :
      (m : StreamMessage) (r : WorkflowRun) (b : Body)
      → r.id ≡ k
      → Leaves k notification_send (fail_notification x m r b)
  unfolding fail_notification
  fail_notification-Ends m r b e =
      search (ends_rules, not_notified, Ends-bind, frame_rules) depth 60 fits 3000

  pub notification_send-Ends :
      (m : StreamMessage) → Names m k → Leaves k notification_send (handle_notification_send x m)
  unfolding handle_notification_send
  notification_send-Ends m e =
      search (ends_rules, Ends-bind, complete_workflow-Ends, fail_notification-Ends) depth 60 fits
        3000

  pub handle_mark_failed-Ends :
      (m : StreamMessage) → Names m k → Leaves k workflow_mark_failed (handle_mark_failed x m)
  unfolding handle_mark_failed
  handle_mark_failed-Ends m e = search (ends_rules, mark_failed-Ends, given_up) depth 60 fits 3000
