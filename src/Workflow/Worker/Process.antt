-- ===== src/Workflow/Worker/Process.antt =====
-- The dispatch and the loop of `WorkflowProcessor` in worker.py. `asyncio.CancelledError`, which is
-- no `Exception`, is not modelled, nor a failure of `close`: a run is a number of rounds of the loop.
use text.Mathlib.Text.{find?}
use retail_ops_microservices.Base.{
  ℕ, suc, zero, String, Bool, true, false, Option, none, some, List, [], ◌∷◌, ◌==◌, if◌then◌else◌,
  or_else, present, is_some, Time,
}
use retail_ops_microservices.Base.Exec.{Result, ok, err, pure, raise, ◌>>=◌, ◌>>◌}
use retail_ops_microservices.Workflow.Types.{Fields, StreamMessage, ProcessedMessage}
use retail_ops_microservices.Workflow.Contracts.{
  order_create, document_generate_invoice, payment_requested, payment_process,
  document_generate_receipt, notification_send, workflow_mark_failed, command_text, get_field,
  workflow_commands_stream, workflow_commands_group, workflow_events_stream, workflow_events_group,
}
use retail_ops_microservices.Workflow.External.{
  External, WorkerError, unsupported_command, redis_failed,
}
use retail_ops_microservices.Workflow.System.{System, Work, xack}
use retail_ops_microservices.Workflow.Repository.{record_processed_message}
use retail_ops_microservices.Workflow.Worker.Calls.{
  Failure, field_or_raise, publish_dead_letter, mark_failed,
}
use retail_ops_microservices.Workflow.Worker.Checkout.{handle_order_create, handle_generate_invoice}
use retail_ops_microservices.Workflow.Worker.Payment.{
  handle_payment_requested, handle_payment_process,
}
use retail_ops_microservices.Workflow.Worker.Delivery.{
  handle_generate_receipt, handle_notification_send,
}

-- `fields.get(key) or default`
abbrev field_or : String → String → Fields → String
field_or k default fields = or_else (present (get_field k fields)) default

-- `message.fields.get("message_type", "")`
abbrev pub message_type_of : StreamMessage → String
message_type_of m = or_else (get_field "message_type" m.fields) ""

abbrev pub workflow_id_of : StreamMessage → Option String
workflow_id_of m = present (get_field "workflow_id" m.fields)

abbrev pub done : {W : Type 0} → Work W String → Work W (Unit {0})
done m = do m; pure tt

-- The `str(exc)` of the row, if the handler raised.
abbrev pub outcome_error : {W A : Type 0} → External W → Result WorkerError A → Option String
outcome_error x (ok _) = none
outcome_error x (err e) = some (x.error_text e)

abbrev pub outcome_status : {A : Type 0} → Result WorkerError A → String
outcome_status (ok _) = "processed"
outcome_status (err _) = "failed"

module _ {W : Type 0} (x : External W) where
  -- The failure that a `workflow.mark_failed` command asks for.
  abbrev requested_failure : StreamMessage → Failure
  requested_failure m = record {
    failed_step = field_or "failed_step" "manual" m.fields;
    failure_code = field_or "failure_code" "WORKFLOW_FAILED" m.fields;
    last_error = field_or "last_error" "Workflow marked failed" m.fields;
  }

  unfoldable pub handle_mark_failed : StreamMessage → Work W String
  handle_mark_failed m = do
    workflow_id ← field_or_raise "workflow_id" m
    mark_failed x workflow_id (requested_failure m) (get_field "message_id" m.fields)

  abbrev pub dispatch : Option String → StreamMessage → Work W (Unit {0})
  dispatch none m = raise (unsupported_command none)
  dispatch (some t) m =
      if t == command_text order_create
      then done (handle_order_create x m)
      else if t == command_text document_generate_invoice
      then done (handle_generate_invoice x m)
      else if t == command_text payment_requested
      then done (handle_payment_requested x m)
      else if t == command_text payment_process
      then done (handle_payment_process x m)
      else if t == command_text document_generate_receipt
      then done (handle_generate_receipt x m)
      else if t == command_text notification_send
      then done (handle_notification_send x m)
      else if t == command_text workflow_mark_failed
      then done (handle_mark_failed m)
      else raise (unsupported_command (some t))

  unfoldable pub handle_command : StreamMessage → Work W (Unit {0})
  handle_command m = dispatch (get_field "message_type" m.fields) m

  -- It only logs.
  unfoldable pub handle_event : StreamMessage → Work W (Unit {0})
  handle_event m = pure tt

  -- The failure that the `except` clause records.
  abbrev pub worker_failure : StreamMessage → String → Failure
  worker_failure m error = record {
    failed_step = or_else (present (some (message_type_of m))) "unknown";
    failure_code = "WORKFLOW_WORKER_ERROR";
    last_error = error;
  }

  abbrev pub fail_run : Option String → StreamMessage → String → Work W (Unit {0})
  fail_run none m error = pure tt
  fail_run (some workflow_id) m error =
      done (mark_failed x workflow_id (worker_failure m error) (get_field "message_id" m.fields))

  -- The `except` clause.
  unfoldable pub on_error : StreamMessage → WorkerError → Work W (Unit {0})
  on_error m e = do
    publish_dead_letter x m (x.error_text e)
    fail_run (workflow_id_of m) m (x.error_text e)

  -- `try` with its `except`: what the handler wrote before it raised stays written.
  abbrev pub rescue : Result WorkerError (Unit {0}) → StreamMessage → Work W (Unit {0})
  rescue (ok _) m = pure tt
  rescue (err e) m = on_error m e

  module _ (consumer_name : String) where
    abbrev pub processed_row :
        StreamMessage → String → String → Option String → String → Time → ProcessedMessage
    processed_row m group status error id t = record {
      id = id;
      stream_name = m.stream;
      group_name = group;
      consumer_name = consumer_name;
      redis_message_id = m.message_id;
      message_id = or_else (get_field "message_id" m.fields) "";
      message_type = message_type_of m;
      workflow_id = workflow_id_of m;
      order_id = present (get_field "order_id" m.fields);
      status = status;
      error = error;
      processed_at = t;
    }

    abbrev pub ack_if : Bool → StreamMessage → String → Work W (Unit {0})
    ack_if true m group = do xack x m.stream group m.message_id; pure tt
    ack_if false m group = pure tt

    -- The `finally` clause.
    unfoldable pub finish : StreamMessage → String → String → Option String → Work W (Unit {0})
    finish m group status error = do
      inserted ← record_processed_message x (processed_row m group status error)
      ack_if inserted m group

    -- An exception of the `finally` clause replaces one that was on its way.
    abbrev pub after_finally :
        Result WorkerError (Unit {0})
        → Result WorkerError (Unit {0}) × System W
        → Result WorkerError (Unit {0}) × System W
    after_finally raised (ok _, s) = (raised, s)
    after_finally raised (err e, s) = (err e, s)

    unfoldable pub process_message :
        StreamMessage → String → (StreamMessage → Work W (Unit {0})) → Work W (Unit {0})
    process_message m group handler s =
        let (r, handled) = handler m s in
        let (raised, rescued) = rescue r m handled in
        after_finally raised (finish m group (outcome_status r) (outcome_error x r) rescued)

    -- `for message in messages`: an exception leaves the loop.
    unfoldable pub process_all :
        String → (StreamMessage → Work W (Unit {0})) → List StreamMessage → Work W (Unit {0})
    process_all group handler [] = pure tt
    process_all group handler (m ∷ ms) =
        let rest = process_all group handler ms in process_message m group handler >> rest

    abbrev received :
        Result String (List StreamMessage)
        → System W
        → Result WorkerError (List StreamMessage) × System W
    received (ok messages) s = (ok messages, s)
    received (err text) s = (err (redis_failed text), s)

    unfoldable pub xreadgroup : String → String → Work W (List StreamMessage)
    xreadgroup stream group s =
        let (r, w) = x.xreadgroup stream group consumer_name s.outside in
        received r (record s { outside = w })

    unfoldable run_once : Work W (Unit {0})
    unfolding xreadgroup
    run_once = do
      commands ← xreadgroup workflow_commands_stream workflow_commands_group
      process_all workflow_commands_group handle_command commands
      events ← xreadgroup workflow_events_stream workflow_events_group
      process_all workflow_events_group handle_event events

    -- `xgroup_create` of redis_streams.py: a group that exists already is no error.
    abbrev pub created :
        Result String (Unit {0}) → System W → Result WorkerError (Unit {0}) × System W
    created (ok _) s = (ok tt, s)
    created (err text) s =
        if is_some (find? text "BUSYGROUP") then (ok tt, s) else (err (redis_failed text), s)

    unfoldable pub xgroup_create : String → String → Work W (Unit {0})
    xgroup_create stream group s =
        let (r, w) = x.xgroup stream group s.outside in created r (record s { outside = w })

    unfoldable ensure_groups : Work W (Unit {0})
    unfolding xgroup_create
    ensure_groups = do
      xgroup_create workflow_commands_stream workflow_commands_group
      xgroup_create workflow_events_stream workflow_events_group

    -- One round of `run`: an exception closes the connection, and the next round begins.
    abbrev pub closed : Result WorkerError (Unit {0}) × System W → System W
    closed (ok _, s) = s
    closed (err e, s) = record s { outside = (x.close s.outside).1 }

    unfoldable pub round : System W → System W
    unfolding ensure_groups run_once
    round s = closed ((ensure_groups >> run_once) s)

    unfoldable pub run : ℕ → System W → System W
    unfolding round
    run zero s = s
    run (suc n) s = run n (round s)
