-- ===== src/Workflow/Worker/Touches.antt =====
-- The handlers of the worker, and which rows of `workflow_runs` they change.
use retail_ops_microservices.Base.{String, ◌≡◌, inl, inr, Option, none, some, List, Option-cases}
use retail_ops_microservices.Base.Exec.{◌>>=◌}
use retail_ops_microservices.Workflow.Types.{WorkflowRun, StreamMessage, Body}
use retail_ops_microservices.Workflow.Contracts.{get_field}
use retail_ops_microservices.Workflow.External.{External}
use retail_ops_microservices.Workflow.System.{Work}
use retail_ops_microservices.Workflow.Worker.Calls.{field_or_raise, mark_failed, Failure}
use retail_ops_microservices.Workflow.Worker.Checkout.{handle_order_create, handle_generate_invoice}
use retail_ops_microservices.Workflow.Worker.Payment.{
  handle_payment_requested, handle_payment_process, handle_payment_completed, handle_payment_failed,
  await_retry, reject_payment,
}
use retail_ops_microservices.Workflow.Worker.Delivery.{
  handle_generate_receipt, handle_notification_send, complete_workflow, fail_notification,
}
use retail_ops_microservices.Workflow.Worker.Process.{handle_mark_failed, handle_command, dispatch}
use retail_ops_microservices.Workflow.Worker.Keeps.{Any, Keeps, keeps_rules}
use retail_ops_microservices.Workflow.Worker.Frame.{OnRuns, Touches, frame_rules}

-- The only workflow that the message can name is `k`.
pub record Names (m : StreamMessage) (k : String) : Type 0 where
  pub only : (j : String) → get_field "workflow_id" m.fields ≡ some j → j ≡ k

module _ {W : Type 0} (x : External W) {k : String} {rows : List WorkflowRun} where
  -- The key of the message is the row's.
  bind-field :
      {B : Type 0} {Q : B → Type 0} (m : StreamMessage) (f : String → Work W B)
      → Names m k
      → ((v : String) → v ≡ k → Keeps (OnRuns (Touches k rows)) Q (f v))
      → Keeps (OnRuns (Touches k rows)) Q (field_or_raise "workflow_id" m >>= f)
  unfolding field_or_raise ◌>>=◌
  bind-field m f e kf = record {
    at = λ s h. elim (Option-cases (get_field "workflow_id" m.fields)) [
      | inl missing ↦ rw (missing, field_or_raise) (h, tt)
      | inr (j, named) ↦ rw (named, field_or_raise) ((kf j (e.only j named)).at s h)
    ];
  }

  pub mark_failed-Touches :
      (j : String) (f : Failure) (c : Option String)
      → j ≡ k
      → Keeps (OnRuns (Touches k rows)) Any (mark_failed x j f c)
  unfolding mark_failed
  mark_failed-Touches j f c e = search frame_rules depth 40

  order_create-Touches :
      (m : StreamMessage)
      → Names m k
      → Keeps (OnRuns (Touches k rows)) Any (handle_order_create x m)
  unfolding handle_order_create
  order_create-Touches m e = search (frame_rules, bind-field) depth 60 fits 3000

  generate_invoice-Touches :
      (m : StreamMessage)
      → Names m k
      → Keeps (OnRuns (Touches k rows)) Any (handle_generate_invoice x m)
  unfolding handle_generate_invoice
  generate_invoice-Touches m e = search (frame_rules, bind-field) depth 60 fits 3000

  payment_requested-Touches :
      (m : StreamMessage)
      → Names m k
      → Keeps (OnRuns (Touches k rows)) Any (handle_payment_requested x m)
  unfolding handle_payment_requested
  payment_requested-Touches m e = search (frame_rules, bind-field) depth 60 fits 3000

  payment_completed-Touches :
      (m : StreamMessage) (r : WorkflowRun) (b : Body)
      → r.id ≡ k
      → Keeps (OnRuns (Touches k rows)) Any (handle_payment_completed x m r b)
  unfolding handle_payment_completed
  payment_completed-Touches m r b e = search frame_rules depth 60 fits 3000

  await_retry-Touches :
      (r : WorkflowRun) (p c : String) (o : Option String)
      → r.id ≡ k
      → Keeps (OnRuns (Touches k rows)) Any (await_retry x r p c o)
  unfolding await_retry
  await_retry-Touches r p c o e = search frame_rules depth 60 fits 3000

  reject_payment-Touches :
      (m : StreamMessage) (r : WorkflowRun) (c : String) (o : Option String)
      → r.id ≡ k
      → Keeps (OnRuns (Touches k rows)) Any (reject_payment x m r c o)
  unfolding reject_payment
  reject_payment-Touches m r c o e = search mark_failed-Touches

  payment_failed-Touches :
      (m : StreamMessage) (r : WorkflowRun) (b : Body)
      → r.id ≡ k
      → Keeps (OnRuns (Touches k rows)) Any (handle_payment_failed x m r b)
  unfolding handle_payment_failed
  payment_failed-Touches m r b e =
      search (frame_rules, await_retry-Touches, reject_payment-Touches) depth 60 fits 3000

  payment_process-Touches :
      (m : StreamMessage)
      → Names m k
      → Keeps (OnRuns (Touches k rows)) Any (handle_payment_process x m)
  unfolding handle_payment_process
  payment_process-Touches m e =
      search (frame_rules, bind-field, payment_completed-Touches, payment_failed-Touches) depth 60
        fits 3000

  generate_receipt-Touches :
      (m : StreamMessage)
      → Names m k
      → Keeps (OnRuns (Touches k rows)) Any (handle_generate_receipt x m)
  unfolding handle_generate_receipt
  generate_receipt-Touches m e = search (frame_rules, bind-field) depth 60 fits 3000

  complete_workflow-Touches :
      (m : StreamMessage) (r : WorkflowRun) (o : String) (b : Body)
      → r.id ≡ k
      → Keeps (OnRuns (Touches k rows)) Any (complete_workflow x m r o b)
  unfolding complete_workflow
  complete_workflow-Touches m r o b e = search frame_rules depth 60 fits 3000

  fail_notification-Touches :
      (m : StreamMessage) (r : WorkflowRun) (b : Body)
      → r.id ≡ k
      → Keeps (OnRuns (Touches k rows)) Any (fail_notification x m r b)
  unfolding fail_notification
  fail_notification-Touches m r b e = search frame_rules depth 60 fits 3000

  notification_send-Touches :
      (m : StreamMessage)
      → Names m k
      → Keeps (OnRuns (Touches k rows)) Any (handle_notification_send x m)
  unfolding handle_notification_send
  notification_send-Touches m e =
      search (frame_rules, bind-field, complete_workflow-Touches, fail_notification-Touches) depth
        60 fits 3000

  handle_mark_failed-Touches :
      (m : StreamMessage) → Names m k → Keeps (OnRuns (Touches k rows)) Any (handle_mark_failed x m)
  unfolding handle_mark_failed
  handle_mark_failed-Touches m e = search (bind-field, mark_failed-Touches) depth 60 fits 3000

  dispatch-Touches :
      (t : Option String) (m : StreamMessage)
      → Names m k
      → Keeps (OnRuns (Touches k rows)) Any (dispatch x t m)
  dispatch-Touches none m e = search keeps_rules
  dispatch-Touches (some t) m e =
      search
        (
          keeps_rules, order_create-Touches, generate_invoice-Touches, payment_requested-Touches,
          payment_process-Touches, generate_receipt-Touches, notification_send-Touches,
          handle_mark_failed-Touches,
        )
        depth 60 fits 3000

  pub handle_command-Touches :
      (m : StreamMessage) → Names m k → Keeps (OnRuns (Touches k rows)) Any (handle_command x m)
  unfolding handle_command
  handle_command-Touches m e = dispatch-Touches (get_field "message_type" m.fields) m e
