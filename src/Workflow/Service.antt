-- ===== src/Workflow/Service.antt =====
-- The endpoints of services/workflow-service/src/workflow_service/main.py and the validation of
-- schemas.py. `WorkflowRunResponse` copies the row, so the read handlers return the row.
use mathlib.Core.Option
use retail_ops_microservices.Base.{
  ℕ, String, ◌||◌, Option, none, some, [], ◌∷◌, ◌==◌, if◌then◌else◌,
}
use retail_ops_microservices.Base.Exec.{Result, ok, err, Exec, pure, ◌>>=◌, ◌>>◌}
use retail_ops_microservices.Base.Int.{ℤ, positive}
use retail_ops_microservices.Http.{HttpError, not_found, conflict, unprocessable, server_error}
use retail_ops_microservices.Workflow.Status.{WorkflowStatus, is_terminal, is_awaiting_payment}
use retail_ops_microservices.Workflow.Types.{WorkflowRun, CreateWorkflowRun, Fields}
use retail_ops_microservices.Workflow.Contracts.{
  workflow_commands_stream, order_create, payment_requested, command_fields,
}
use retail_ops_microservices.Workflow.External.{External, WorkerError, redis_failed}
use retail_ops_microservices.Workflow.System.{System, Work, new_id, now, xadd}
use retail_ops_microservices.Workflow.Repository.{
  create_workflow_run, find_by_idempotency_key, find_by_order_for_user, find_by_id,
}

-- The bodies before validation.
pub record StartOrderWorkflowRequest : Type 0 where
  pub user_id : String
  pub user_email : String
  pub catalog_item_id : String
  pub quantity : ℤ
  pub idempotency_key : Option String
  pub correlation_id : String

pub record RequestPaymentRequest : Type 0 where
  pub user_id : String
  pub idempotency_key : Option String
  pub correlation_id : String
  pub payment_scenario : Option String

pub record WorkflowAcceptedResponse : Type 0 where
  pub workflow_id : String
  pub status : WorkflowStatus
  pub correlation_id : String
  pub order_id : Option String

abbrev pub accepted_response : WorkflowRun → WorkflowAcceptedResponse
accepted_response run = record {
  workflow_id = run.id;
  status = run.status;
  correlation_id = run.correlation_id;
  order_id = run.order_id;
}

-- The `Literal` of PaymentScenario, with its default.
abbrev pub payment_scenario_of : Option String → Option String
payment_scenario_of none = some "success"
payment_scenario_of (some s) =
    if s == "success"
      || s == "insufficient_funds"
      || s == "provider_unavailable"
      || s == "suspected_fraud"
    then some s
    else none

abbrev pub new_workflow : StartOrderWorkflowRequest → ℕ → CreateWorkflowRun
new_workflow r quantity = record {
  user_id = r.user_id;
  user_email = r.user_email;
  catalog_item_id = r.catalog_item_id;
  quantity = quantity;
  correlation_id = r.correlation_id;
  idempotency_key = r.idempotency_key;
}

module _ {W : Type 0} where
  -- An exception that no handler catches.
  abbrev pub responded :
      {A : Type 0} → Result WorkerError A × System W → Result HttpError A × System W
  responded (ok a, s) = (ok a, s)
  responded (err e, s) = (err server_error, s)

  unfoldable pub get_order_workflow : String → String → System W → Result HttpError WorkflowRun
  get_order_workflow order_id user_id s = elim (find_by_order_for_user order_id user_id s) [
    | none ↦ err (not_found "Workflow not found")
    | some run ↦ ok run
  ]

module _ {W : Type 0} (x : External W) where
  -- An exception of `close` takes the place of what `try` came to.
  abbrev after_close : {A : Type 0} → Option String → Result WorkerError A → Result WorkerError A
  after_close none r = r
  after_close (some text) r = err (redis_failed text)

  -- `publish_command`: a connection of its own, which is closed however XADD ends.
  unfoldable pub send_command : Fields → Work W String
  unfolding xadd
  send_command fields s =
      let (r, sent) = xadd x workflow_commands_stream fields s in
      let (failure, w) = x.close sent.outside in
      (after_close failure r, record sent { outside = w })

  abbrev pub send_order_create : WorkflowRun → Work W String
  send_order_create run = do
    id ← new_id x
    t ← now x
    send_command (
        command_fields id (x.iso t) order_create run.id run.correlation_id none (
          ("user_id", some run.user_id)
          ∷ ("catalog_item_id", run.catalog_item_id)
          ∷ ("quantity", Option.map x.decimal run.quantity)
          ∷ []))

  abbrev pub start_new : CreateWorkflowRun → Work W WorkflowAcceptedResponse
  start_new request = do
    run ← create_workflow_run x request
    send_order_create run
    pure (accepted_response run)

  unfoldable pub start_order_checkout_workflow :
      StartOrderWorkflowRequest → Exec (System W) HttpError WorkflowAcceptedResponse
  unfolding find_by_idempotency_key
  start_order_checkout_workflow request s = elim (positive request.quantity) [
    | none ↦ (err unprocessable, s)
    | some quantity ↦ elim (find_by_idempotency_key request.user_id request.idempotency_key s) [
      | some existing ↦ (ok (accepted_response existing), s)
      | none ↦ responded (start_new (new_workflow request quantity) s)
    ]
  ]

  abbrev pub send_payment_requested :
      WorkflowRun → RequestPaymentRequest → String → Work W WorkflowAcceptedResponse
  send_payment_requested run request scenario = do
    id ← new_id x
    t ← now x
    send_command (
        command_fields id (x.iso t) payment_requested run.id request.correlation_id none (
          ("user_id", some run.user_id)
          ∷ ("order_id", run.order_id)
          ∷ ("payment_scenario", some scenario)
          ∷ ("idempotency_key", request.idempotency_key)
          ∷ []))
    pure (accepted_response run)

  -- The two guards on the run's status.
  abbrev send_if_awaiting :
      WorkflowRun
      → RequestPaymentRequest
      → String
      → Exec (System W) HttpError WorkflowAcceptedResponse
  send_if_awaiting run request scenario s =
      if is_terminal run.status
      then (err (conflict "Workflow is already terminal"), s)
      else if is_awaiting_payment run.status
      then responded (send_payment_requested run request scenario s)
      else (err (conflict "Workflow is not awaiting payment"), s)

  unfoldable pub request_order_payment :
      String → RequestPaymentRequest → Exec (System W) HttpError WorkflowAcceptedResponse
  unfolding find_by_order_for_user
  request_order_payment order_id request s = elim (payment_scenario_of request.payment_scenario) [
    | none ↦ (err unprocessable, s)
    | some scenario ↦ elim (find_by_order_for_user order_id request.user_id s) [
      | none ↦ (err (not_found "Workflow not found"), s)
      | some run ↦ send_if_awaiting run request scenario s
    ]
  ]

  -- A workflow id that is no UUID is an error of the database, hence 500.
  abbrev pub found_or_404 :
      Result HttpError (Option WorkflowRun) × System W → Result HttpError WorkflowRun × System W
  found_or_404 (ok none, s) = (err (not_found "Workflow not found"), s)
  found_or_404 (ok (some run), s) = (ok run, s)
  found_or_404 (err e, s) = (err e, s)

  unfoldable pub get_workflow : String → Exec (System W) HttpError WorkflowRun
  unfolding find_by_id
  get_workflow id s = found_or_404 (responded (find_by_id x id s))
