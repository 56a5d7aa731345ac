-- ===== src/Workflow/Worker/Tests.antt =====
-- The first command of a checkout, and its second delivery: the theorems on the worker at concrete
-- inputs.
use Prim.Native.String.{◌++◌ as str_append}
use retail_ops_microservices.Base.{
  none, arith, ℕ, String, ◌≡◌, ◌⊎◌, refl, arith, true, false, some, [], ◌∷◌, ap, sym, or_else,
}
use retail_ops_microservices.Base.Exec.{err, Result, ◌>>=◌}
use retail_ops_microservices.Base.Rows.{find_row, select_first, update_rows}
use retail_ops_microservices.Workflow.Types.{WorkflowRun, StreamMessage}
use retail_ops_microservices.Workflow.Contracts.{
  workflow_commands_stream, workflow_commands_group, get_field,
}
use retail_ops_microservices.Workflow.External.{External, WorkerError, unsupported_command}
use retail_ops_microservices.Workflow.System.{System, new_id, now, request, xadd, xack}
use retail_ops_microservices.Workflow.Repository.{
  run_key, find_by_id, update_workflow, record_processed_message,
}
use retail_ops_microservices.Workflow.Worker.Calls.{
  field_or_raise, require_workflow, call_json, body_item, as_text, as_number, publish_event,
  publish_command,
}
use retail_ops_microservices.Workflow.Worker.Checkout.{handle_order_create}
use retail_ops_microservices.Workflow.Worker.Process.{
  process_all, handle_command, process_message, rescue, finish,
}
use retail_ops_microservices.Workflow.Worker.Bookkeeping.{is_recorded, message_row, acknowledgement}
use retail_ops_microservices.Workflow.Worker.Touches.{Names}
use retail_ops_microservices.Workflow.Worker.Isolation.{
  SameRun, process_message_isolation, process_message_identity,
}
use retail_ops_microservices.Workflow.Worker.Recorded.{
  process_all_long_error, process_message_recorded, process_message_acked,
  process_message_redelivered,
}
use retail_ops_microservices.Workflow.Worker.Outcome.{EndingOf, handle_command_outcome}
use retail_ops_microservices.Workflow.Status.{failed}
use retail_ops_microservices.Workflow.Worker.Failed.{process_message_failed}
use retail_ops_microservices.Workflow.Tests.{accepts, outside, lamp_run, empty_system}

-- A table with the new run of a checkout.
abbrev before : System ℕ
before = record empty_system { runs = lamp_run ∷ [] }

abbrev create_lamp_order : StreamMessage
create_lamp_order = record {
  stream = workflow_commands_stream;
  message_id = "1-0";
  fields = ("message_id", "m") ∷ ("message_type", "order.create") ∷ ("workflow_id", "run") ∷ [];
}

abbrev handled : System ℕ
handled = (handle_command outside create_lamp_order before).1

abbrev processed : Result WorkerError (Unit {0}) × System ℕ
processed =
    process_message outside "worker" create_lamp_order workflow_commands_group
      (handle_command outside) before

handle_command_outcome_example :
    (t : String) × (run : WorkflowRun) × (get_field "message_type" create_lamp_order.fields
      ≡ some t)
    × (find_row run_key "run" handled.runs ≡ some run)
    × EndingOf t run.status
unfolding handle_command handle_order_create field_or_raise require_workflow find_by_id find_row
    update_workflow update_rows call_json request body_item as_text as_number publish_event
    publish_command new_id now xadd ◌>>=◌ get_field
handle_command_outcome_example =
    handle_command_outcome outside create_lamp_order before handled refl refl

process_message_acked_example :
    (processed.1.acked ≡ [])
    ⊎ ((processed.1.acked
          ≡ acknowledgement outside "worker" create_lamp_order workflow_commands_group ∷ [])
        × (is_recorded [] (message_row outside "worker" create_lamp_order workflow_commands_group)
            ≡ false)
        × (is_recorded processed.1.processed
              (message_row outside "worker" create_lamp_order workflow_commands_group)
            ≡ true))
process_message_acked_example =
    process_message_acked outside "worker" create_lamp_order workflow_commands_group before

process_message_recorded_example :
    is_recorded processed.1.processed
      (message_row outside "worker" create_lamp_order workflow_commands_group)
    ≡ true
unfolding handle_command handle_order_create field_or_raise require_workflow find_by_id find_row
    update_workflow update_rows call_json request body_item as_text as_number publish_event
    publish_command new_id now xadd ◌>>=◌ get_field process_message finish record_processed_message
    xack select_first
process_message_recorded_example =
    process_message_recorded outside "worker" create_lamp_order workflow_commands_group before
      processed.1 refl

process_message_redelivered_example :
    let again =
      (process_message outside "worker" create_lamp_order workflow_commands_group
        (handle_command outside)
        processed.1).1 in
    (again.processed ≡ processed.1.processed)
    × (again.acked ≡ processed.1.acked)
    × (again.runs
        ≡ (rescue outside
            (handle_command outside create_lamp_order processed.1).0
            create_lamp_order
            (handle_command outside create_lamp_order processed.1).1).1.runs)
unfolding handle_command handle_order_create field_or_raise require_workflow find_by_id find_row
    update_workflow update_rows call_json request body_item as_text as_number publish_event
    publish_command new_id now xadd ◌>>=◌ get_field process_message finish record_processed_message
    xack select_first
process_message_redelivered_example =
    process_message_redelivered outside "worker" create_lamp_order workflow_commands_group
      processed.1 refl

Names-run : Names create_lamp_order "run"
unfolding get_field
Names-run = record { only = λ j e. ap (λ o. or_else o "") (sym e) }

process_message_isolation_example :
    find_row run_key "other" processed.1.runs ≡ find_row run_key "other" before.runs
process_message_isolation_example =
    process_message_isolation outside "worker" create_lamp_order workflow_commands_group "run"
      "other" before Names-run (λ e. cc e)

process_message_identity_example :
    (r' : WorkflowRun) × (find_row run_key "run" processed.1.runs ≡ some r') × SameRun r' lamp_run
unfolding find_row
process_message_identity_example =
    process_message_identity outside "worker" create_lamp_order workflow_commands_group "run"
      lamp_run before refl

-- An outside whose errors have texts of 1056 characters.
abbrev twice : String → String
twice t = str_append t t

abbrev long_text : String
long_text = twice (twice (twice (twice (twice "a text of thirty-three characters"))))

abbrev verbose : External ℕ
verbose = record outside { error_text = λ e. long_text }

abbrev unknown : StreamMessage
unknown = record { stream = workflow_commands_stream; message_id = "2-0"; fields = [] }

process_all_long_error_example :
    let (r, s') =
      process_all verbose "worker" workflow_commands_group
        (handle_command verbose)
        (unknown ∷ create_lamp_order ∷ [])
        before in
    (e' : WorkerError) × (r ≡ err e')
    × (s'.processed ≡ before.processed)
    × (s'.acked ≡ before.acked)
unfolding handle_command get_field
process_all_long_error_example =
    process_all_long_error verbose "worker" unknown workflow_commands_group before
      (create_lamp_order ∷ []) (unsupported_command none) refl (omega arith)

-- A message of no type for the run.
abbrev untyped : StreamMessage
untyped = record unknown { fields = ("workflow_id", "run") ∷ [] }

process_message_failed_example :
    (run : WorkflowRun) × (find_row run_key "run"
        (process_message outside "worker" untyped workflow_commands_group
          (handle_command outside)
          before).1.runs
      ≡ some run)
    × (run.status ≡ failed)
    × (run.failure_code ≡ some "WORKFLOW_WORKER_ERROR")
    × (run.last_error ≡ some "error")
unfolding handle_command get_field find_row
process_message_failed_example =
    process_message_failed outside "worker" workflow_commands_group "run" untyped
      (unsupported_command none) lamp_run before accepts refl refl refl refl (omega arith)
      (omega arith)
