-- ===== src/Workflow/Worker/Calls.antt =====
-- What the handlers of worker.py share: upstream calls, publishing, and the failure of a run.
use Prim.Native.String.{◌++◌ as str_append}
use retail_ops_microservices.Base.{
  ℕ, String, Bool, false, ◌||◌, not, Option, none, some, List, [], ◌∷◌, num_eq, ◌==◌, if◌then◌else◌,
  or_else,
}
use retail_ops_microservices.Base.Exec.{ok, err, pure, raise, raise_if, ◌>>=◌, ◌>>◌}
use retail_ops_microservices.Workflow.Status.{failed, status_text}
use retail_ops_microservices.Workflow.Types.{WorkflowRun, StreamMessage, JsonValue, Body, HttpCall}
use retail_ops_microservices.Workflow.Contracts.{
  Command, Event, workflow_failed, workflow_commands_stream, workflow_events_stream,
  workflow_dead_letter_stream, command_fields, event_fields, get_field, update_fields,
}
use retail_ops_microservices.Workflow.External.{
  External, workflow_not_found, unexpected_status, missing_key, bad_value,
}
use retail_ops_microservices.Workflow.System.{Work, new_id, now, request, xadd}
use retail_ops_microservices.Workflow.Repository.{
  find_by_id, update_workflow, set_status, set_current_step, set_failed_step, set_failure_code,
  set_last_error, set_completed_at,
}

abbrev find_value : String → List (String × JsonValue) → Option JsonValue
find_value k [] = none
find_value k ((j, v) ∷ rest) = if j == k then some v else find_value k rest

abbrev contains_status : List ℕ → ℕ → Bool
contains_status [] n = false
contains_status (m ∷ ms) n = num_eq m n || contains_status ms n

-- `value == text`
abbrev pub is_text : JsonValue → String → Bool
is_text (JsonValue.str t) text = t == text
is_text _ text = false

-- POST /orders/{order_id}/transitions
abbrev pub transition_call : String → String → String → String → HttpCall
transition_call order_id next_status reason correlation_id = record {
  method = "POST";
  service = "order";
  path = str_append "/orders/" (str_append order_id "/transitions");
  json = ("status", JsonValue.str next_status) ∷ ("reason", JsonValue.str reason) ∷ [];
  correlation_id = correlation_id;
}

-- `failed_step`, `failure_code` and `last_error` of `_mark_failed`.
pub record Failure : Type 0 where
  pub failed_step : String
  pub failure_code : String
  pub last_error : String

module _ {W : Type 0} where
  abbrev run_or_raise : String → Option WorkflowRun → Work W WorkflowRun
  run_or_raise id none = raise (workflow_not_found id)
  run_or_raise id (some run) = pure run

  -- `body[key]`
  abbrev item_or_raise : String → Option JsonValue → Work W JsonValue
  item_or_raise k none = raise (missing_key k)
  item_or_raise k (some v) = pure v

  unfoldable pub body_item : String → Body → Work W JsonValue
  body_item k Body.not_object = raise (bad_value k)
  body_item k (Body.object fields) = item_or_raise k (find_value k fields)

  -- `body.get(key)`
  unfoldable pub body_get : String → Body → Work W JsonValue
  body_get k Body.not_object = raise (bad_value k)
  body_get k (Body.object fields) = pure (or_else (find_value k fields) JsonValue.null)

  -- A value where the code goes on with a text or with an integer. The services' response models
  -- send no other type.
  unfoldable pub as_text : JsonValue → Work W String
  as_text (JsonValue.str t) = pure t
  as_text _ = raise (bad_value "text")

  unfoldable pub as_number : JsonValue → Work W ℕ
  as_number (JsonValue.num n) = pure n
  as_number _ = raise (bad_value "number")

  -- `body.get(key) or default`
  unfoldable pub text_or : String → JsonValue → Work W String
  text_or default JsonValue.null = pure default
  text_or default (JsonValue.str t) = pure (if t == "" then default else t)
  text_or default _ = raise (bad_value "text")

  -- `body.get(key)` where the code goes on with a text or None
  unfoldable pub as_optional : JsonValue → Work W (Option String)
  as_optional JsonValue.null = pure none
  as_optional (JsonValue.str t) = pure (some t)
  as_optional _ = raise (bad_value "text")

  -- `message.fields[key]`
  unfoldable pub field_or_raise : String → StreamMessage → Work W String
  field_or_raise k m s = elim (get_field k m.fields) [
    | none ↦ (err (missing_key k), s)
    | some v ↦ (ok v, s)
  ]

module _ {W : Type 0} (x : External W) where
  unfoldable pub require_workflow : String → Work W WorkflowRun
  unfolding find_by_id
  require_workflow id = do found ← find_by_id x id; run_or_raise found
    where
      run_or_raise : Option WorkflowRun → Work W WorkflowRun
      run_or_raise none = raise (workflow_not_found id)
      run_or_raise (some run) = pure run

  unfoldable pub call_json : HttpCall → List ℕ → Work W Body
  unfolding request
  call_json call expected = do
    response ← request x call
    raise_if (not (contains_status expected response.status_code)) (unexpected_status call response)
    pure response.body

  unfoldable pub transition_order : String → String → String → String → Work W Body
  unfolding call_json
  transition_order order_id next_status reason correlation_id =
      call_json (transition_call order_id next_status reason correlation_id) (200 ∷ [])

  unfoldable pub publish_command :
      Command → WorkflowRun → Option String → List (String × Option String) → Work W String
  unfolding new_id now xadd
  publish_command c run causation_id fields = do
    id ← new_id x
    t ← now x
    xadd x workflow_commands_stream
        (command_fields id (x.iso t) c run.id run.correlation_id causation_id fields)

  unfoldable pub publish_event :
      Event → WorkflowRun → Option String → List (String × Option String) → Work W String
  unfolding new_id now xadd
  publish_event e run causation_id fields = do
    id ← new_id x
    t ← now x
    xadd x workflow_events_stream
        (event_fields id (x.iso t) e run.id run.correlation_id causation_id fields)

  unfoldable pub publish_dead_letter : StreamMessage → String → Work W String
  unfolding now xadd update_fields
  publish_dead_letter m error = do
    t ← now x
    xadd x workflow_dead_letter_stream (
        update_fields m.fields (
          ("source_stream", some m.stream)
          ∷ ("source_redis_message_id", some m.message_id)
          ∷ ("dead_letter_error", some error)
          ∷ ("dead_letter_at", some (x.iso t))
          ∷ []))

  unfoldable pub mark_failed : String → Failure → Option String → Work W String
  mark_failed workflow_id f causation_id = do
    t ← now x
    run ← update_workflow x workflow_id (
        set_status failed
        ∷ set_current_step (status_text failed)
        ∷ set_failed_step (some f.failed_step)
        ∷ set_failure_code (some f.failure_code)
        ∷ set_last_error (some f.last_error)
        ∷ set_completed_at t
        ∷ [])
    publish_event workflow_failed run causation_id
        (("order_id", run.order_id) ∷ ("failure_code", some f.failure_code) ∷ [])
