-- ===== src/Workflow/Worker/Outcome.antt =====
-- The status that a command leaves its run in, when its handling returns.
use retail_ops_microservices.Base.{String, ◌≡◌, refl, Option, none, some, List, arith}
use retail_ops_microservices.Base.Exec.{Result, ok, err, pure}
use retail_ops_microservices.Workflow.Types.{WorkflowRun, StreamMessage}
use retail_ops_microservices.Workflow.Contracts.{
  Command, order_create, document_generate_invoice, payment_process, document_generate_receipt,
  notification_send, workflow_mark_failed, command_text, get_field,
}
use retail_ops_microservices.Workflow.External.{External, WorkerError, unsupported_command}
use retail_ops_microservices.Workflow.System.{System, Work}
use retail_ops_microservices.Workflow.Worker.Checkout.{handle_order_create, handle_generate_invoice}
use retail_ops_microservices.Workflow.Worker.Payment.{
  handle_payment_requested, handle_payment_process,
}
use retail_ops_microservices.Workflow.Worker.Delivery.{
  handle_generate_receipt, handle_notification_send,
}
use retail_ops_microservices.Workflow.Worker.Process.{
  handle_mark_failed, handle_command, dispatch, done,
}
use retail_ops_microservices.Workflow.Worker.Keeps.{keeps_rules}
use retail_ops_microservices.Workflow.Worker.Frame.{OnRuns}
use retail_ops_microservices.Base.Rows.{find_row}
use retail_ops_microservices.Workflow.Repository.{run_key}
use retail_ops_microservices.Workflow.Status.{WorkflowStatus}
use retail_ops_microservices.Workflow.Worker.Touches.{Names}
use retail_ops_microservices.Workflow.Worker.Ends.{
  Shows, shows, Ends, Ended, Ends-then, Ends-test, Ends-raise,
}
use retail_ops_microservices.Workflow.Worker.Endings.{
  Ending, Leaves, order_create-Ends, generate_invoice-Ends, payment_requested-Ends,
  payment_process-Ends, generate_receipt-Ends, notification_send-Ends, handle_mark_failed-Ends,
}

-- A command type with a status that its command may leave.
pub data EndingOf (t : String) (status : WorkflowStatus) : Type 0 where
  ending_of : (c : Command) → t ≡ command_text c → Ending c status → EndingOf t status

Ended-of :
    {W A : Type 0} (k t : String) (c : Command)
    → t ≡ command_text c
    → (r : Result WorkerError A) (s : System W) → Ended (OnRuns (Shows k (Ending c))) r s
    → Ended (OnRuns (Shows k (EndingOf t))) r s
Ended-of k t c e (ok a) s h = record { rows = of h.rows }
  where
    of : Shows k (Ending c) s.runs → Shows k (EndingOf t) s.runs
    of (shows run found end) = shows run found (ending_of c e end)
Ended-of k t c e (err e') s h = tt

shown :
    (k t : String) (rows : List WorkflowRun)
    → Shows k (EndingOf t) rows
    → (run : WorkflowRun) × (find_row run_key k rows ≡ some run) × EndingOf t run.status
shown k t rows (shows run found end) = (run, found, end)

module _ {W : Type 0} (x : External W) {k : String} (m : StreamMessage) where
  done-Ends :
      (t : String) (c : Command) (h : Work W String)
      → Leaves k c h
      → t ≡ command_text c
      → Ends (OnRuns (Shows k (EndingOf t))) (done h)
  done-Ends t c h eh e =
      Ends-then h (λ _. pure tt) (record { at = λ s. Ended-of k t c e (h s).0 (h s).1 (eh.at s) })
        (λ _. search keeps_rules)

  dispatch-Ends :
      (t : String) → Names m k → Ends (OnRuns (Shows k (EndingOf t))) (dispatch x (some t) m)
  dispatch-Ends t e =
      Ends-test t "order.create" _ _
        (done-Ends t order_create (handle_order_create x m) (order_create-Ends x m e))
        (Ends-test t "document.generate_invoice" _ _
          (done-Ends t document_generate_invoice (handle_generate_invoice x m)
            (generate_invoice-Ends x m e))
          (Ends-test t "payment.requested" _ _
            (done-Ends t Command.payment_requested (handle_payment_requested x m)
              (payment_requested-Ends x m e))
            (Ends-test t "payment.process" _ _
              (done-Ends t payment_process (handle_payment_process x m)
                (payment_process-Ends x m e))
              (Ends-test t "document.generate_receipt" _ _
                (done-Ends t document_generate_receipt (handle_generate_receipt x m)
                  (generate_receipt-Ends x m e))
                (Ends-test t "notification.send" _ _
                  (done-Ends t notification_send (handle_notification_send x m)
                    (notification_send-Ends x m e))
                  (Ends-test t "workflow.mark_failed" _ _
                    (done-Ends t workflow_mark_failed (handle_mark_failed x m)
                      (handle_mark_failed-Ends x m e))
                    (Ends-raise (unsupported_command (some t)))))))))

  command-outcome :
      (o : Option String) (s s' : System W)
      → Names m k
      → dispatch x o m s ≡ (ok tt, s')
      → (t : String) × (run : WorkflowRun) × (o ≡ some t)
        × (find_row run_key k s'.runs ≡ some run)
        × EndingOf t run.status
  command-outcome none s s' e h = cc
  command-outcome (some t) s s' e h =
      let ended : OnRuns (Shows k (EndingOf t)) s' = rw h at ((dispatch-Ends t e).at s) in
      let (run, found, end) = shown k t s'.runs ended.rows in (t, run, refl, found, end)

  -- When the handling of a command returns, the run that it names is there, with a status that its
  -- type allows: an `order.create` leaves `invoice_generating`, a `document.generate_invoice`
  -- `awaiting_payment`, a `payment.requested` `payment_requested`, a `payment.process`
  -- `receipt_generating`, `awaiting_payment` or `failed`, a `document.generate_receipt`
  -- `notification_sending`, a `notification.send` `completed` or `notification_failed`, and a
  -- `workflow.mark_failed` `failed`; no other type returns.
  pub handle_command_outcome :
      (s s' : System W)
      → get_field "workflow_id" m.fields ≡ some k
      → handle_command x m s ≡ (ok tt, s')
      → (t : String) × (run : WorkflowRun) × (get_field "message_type" m.fields ≡ some t)
        × (find_row run_key k s'.runs ≡ some run)
        × EndingOf t run.status
  unfolding handle_command
  handle_command_outcome s s' named h =
      command-outcome (get_field "message_type" m.fields) s s'
        (record { only = λ j e. ground (arith, named, e) }) h
