-- ===== src/Workflow/Worker/HandlerBooks.antt =====
-- The handlers of the worker and its `except` clause, and the tables of processed messages and
-- acknowledgements.
use retail_ops_microservices.Base.{String, Option, none, some, List}
use retail_ops_microservices.Base.Exec.{Result, ok, err}
use retail_ops_microservices.Workflow.Types.{WorkflowRun, ProcessedMessage, StreamMessage, Body}
use retail_ops_microservices.Workflow.Contracts.{get_field}
use retail_ops_microservices.Workflow.External.{External, WorkerError}
use retail_ops_microservices.Workflow.System.{Acknowledged}
use retail_ops_microservices.Workflow.Worker.Calls.{mark_failed, Failure}
use retail_ops_microservices.Workflow.Worker.Checkout.{handle_order_create, handle_generate_invoice}
use retail_ops_microservices.Workflow.Worker.Payment.{
  handle_payment_requested, handle_payment_process, handle_payment_completed, handle_payment_failed,
  await_retry, reject_payment,
}
use retail_ops_microservices.Workflow.Worker.Delivery.{
  handle_generate_receipt, handle_notification_send, complete_workflow, fail_notification,
}
use retail_ops_microservices.Workflow.Worker.Process.{
  fail_run, on_error, rescue, handle_mark_failed, handle_command, dispatch, on_error, fail_run,
  rescue,
}
use retail_ops_microservices.Workflow.Worker.Keeps.{Any, Keeps, keeps_rules}
use retail_ops_microservices.Workflow.Worker.Books.{Books, books_rules, field_or_raise-Books}

module _ {W : Type 0} (x : External W) {rows : List ProcessedMessage}
    {acks : List Acknowledged} where
  pub mark_failed-Books :
      (j : String) (f : Failure) (c : Option String)
      → Keeps (Books rows acks) Any (mark_failed x j f c)
  unfolding mark_failed
  mark_failed-Books j f c = search books_rules depth 40

  order_create-Books : (m : StreamMessage) → Keeps (Books rows acks) Any (handle_order_create x m)
  unfolding handle_order_create
  order_create-Books m = search (books_rules) depth 60 fits 3000

  generate_invoice-Books :
      (m : StreamMessage) → Keeps (Books rows acks) Any (handle_generate_invoice x m)
  unfolding handle_generate_invoice
  generate_invoice-Books m = search (books_rules) depth 60 fits 3000

  payment_requested-Books :
      (m : StreamMessage) → Keeps (Books rows acks) Any (handle_payment_requested x m)
  unfolding handle_payment_requested
  payment_requested-Books m = search (books_rules) depth 60 fits 3000

  payment_completed-Books :
      (m : StreamMessage) (r : WorkflowRun) (b : Body)
      → Keeps (Books rows acks) Any (handle_payment_completed x m r b)
  unfolding handle_payment_completed
  payment_completed-Books m r b = search books_rules depth 60 fits 3000

  await_retry-Books :
      (r : WorkflowRun) (p c : String) (o : Option String)
      → Keeps (Books rows acks) Any (await_retry x r p c o)
  unfolding await_retry
  await_retry-Books r p c o = search books_rules depth 60 fits 3000

  reject_payment-Books :
      (m : StreamMessage) (r : WorkflowRun) (c : String) (o : Option String)
      → Keeps (Books rows acks) Any (reject_payment x m r c o)
  unfolding reject_payment
  reject_payment-Books m r c o = search mark_failed-Books

  payment_failed-Books :
      (m : StreamMessage) (r : WorkflowRun) (b : Body)
      → Keeps (Books rows acks) Any (handle_payment_failed x m r b)
  unfolding handle_payment_failed
  payment_failed-Books m r b =
      search (books_rules, await_retry-Books, reject_payment-Books) depth 60 fits 3000

  payment_process-Books :
      (m : StreamMessage) → Keeps (Books rows acks) Any (handle_payment_process x m)
  unfolding handle_payment_process
  payment_process-Books m =
      search (books_rules, payment_completed-Books, payment_failed-Books) depth 60 fits 3000

  generate_receipt-Books :
      (m : StreamMessage) → Keeps (Books rows acks) Any (handle_generate_receipt x m)
  unfolding handle_generate_receipt
  generate_receipt-Books m = search (books_rules) depth 60 fits 3000

  complete_workflow-Books :
      (m : StreamMessage) (r : WorkflowRun) (o : String) (b : Body)
      → Keeps (Books rows acks) Any (complete_workflow x m r o b)
  unfolding complete_workflow
  complete_workflow-Books m r o b = search books_rules depth 60 fits 3000

  fail_notification-Books :
      (m : StreamMessage) (r : WorkflowRun) (b : Body)
      → Keeps (Books rows acks) Any (fail_notification x m r b)
  unfolding fail_notification
  fail_notification-Books m r b = search books_rules depth 60 fits 3000

  notification_send-Books :
      (m : StreamMessage) → Keeps (Books rows acks) Any (handle_notification_send x m)
  unfolding handle_notification_send
  notification_send-Books m =
      search (books_rules, complete_workflow-Books, fail_notification-Books) depth 60 fits 3000

  handle_mark_failed-Books :
      (m : StreamMessage) → Keeps (Books rows acks) Any (handle_mark_failed x m)
  unfolding handle_mark_failed
  handle_mark_failed-Books m =
      search (keeps_rules, field_or_raise-Books, mark_failed-Books) depth 60 fits 3000

  dispatch-Books :
      (t : Option String) (m : StreamMessage) → Keeps (Books rows acks) Any (dispatch x t m)
  dispatch-Books none m = search keeps_rules
  dispatch-Books (some t) m =
      search
        (
          keeps_rules, order_create-Books, generate_invoice-Books, payment_requested-Books,
          payment_process-Books, generate_receipt-Books, notification_send-Books,
          handle_mark_failed-Books,
        )
        depth 60 fits 3000

  pub handle_command-Books : (m : StreamMessage) → Keeps (Books rows acks) Any (handle_command x m)
  unfolding handle_command
  handle_command-Books m = dispatch-Books (get_field "message_type" m.fields) m

  fail_run-Books :
      (o : Option String) (m : StreamMessage) (t : String)
      → Keeps (Books rows acks) Any (fail_run x o m t)
  fail_run-Books none m t = search keeps_rules
  fail_run-Books (some j) m t = search (keeps_rules, mark_failed-Books) depth 10

  pub on_error-Books :
      (m : StreamMessage) (e : WorkerError) → Keeps (Books rows acks) Any (on_error x m e)
  unfolding on_error
  on_error-Books m e = search (books_rules, fail_run-Books) depth 10

  pub rescue-Books :
      (r : Result WorkerError (Unit {0})) (m : StreamMessage)
      → Keeps (Books rows acks) Any (rescue x r m)
  rescue-Books (ok a) m = search keeps_rules
  rescue-Books (err e) m = on_error-Books m e
