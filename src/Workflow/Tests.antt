-- ===== src/Workflow/Tests.antt =====
-- One checkout, from its start to its payment: the theorems on workflow-service at concrete inputs.
-- The outside is a count of the ids that it has given, with scripted answers.
use retail_ops_microservices.Base.{
  ℕ, suc, String, ◌≡◌, ◌⊎◌, refl, true, none, some, [], ◌∷◌, ◌==◌, if◌then◌else◌,
}
use retail_ops_microservices.Base.Exec.{ok, ◌>>=◌}
use retail_ops_microservices.Base.Int.{pos}
use retail_ops_microservices.Base.Rows.{find_row, select, select_first}
use retail_ops_microservices.Base.Sort.{order_by}
use retail_ops_microservices.Http.{server_error}
use retail_ops_microservices.Workflow.Status.{accepted, awaiting_payment}
use retail_ops_microservices.Workflow.Types.{
  WorkflowRun, Fields, JsonValue, Body, HttpCall, UpstreamResponse,
}
use retail_ops_microservices.Workflow.Contracts.{workflow_commands_stream, get_field}
use retail_ops_microservices.Workflow.External.{External, appended, answer_lost, AcceptsAll}
use retail_ops_microservices.Workflow.System.{System, new_id, now, xadd}
use retail_ops_microservices.Workflow.Repository.{
  new_run, create_workflow_run, find_by_idempotency_key, find_by_order_for_user,
}
use retail_ops_microservices.Workflow.Service.{
  StartOrderWorkflowRequest, RequestPaymentRequest, accepted_response, send_command, new_workflow,
  start_order_checkout_workflow, request_order_payment,
}
use retail_ops_microservices.Workflow.Starts.{
  start_order_checkout_workflow-done, start_order_checkout_workflow-repeat, StoredOnly,
  start_order_checkout_workflow-failed,
}
use retail_ops_microservices.Workflow.PaymentRequests.{
  NamesRun, request_order_payment-keeps, request_order_payment-twice,
}

-- The catalog has one lamp at 50 kopecks, and the order-service gives one id.
abbrev scripted : HttpCall → UpstreamResponse
scripted call =
    if call.service == "catalog"
    then record {
      status_code = 200;
      body =
          Body.object
            (("price_kopecks", JsonValue.num 50) ∷ ("currency", JsonValue.str "RUB") ∷ []);
    }
    else record { status_code = 201; body = Body.object (("id", JsonValue.str "order-a") ∷ []) }

abbrev pub outside : External ℕ
outside = record {
  uuid = λ n. ("run", suc n);
  now = λ n. (7, n);
  iso = λ t. "time";
  decimal = λ n. "number";
  error_text = λ e. "error";
  is_uuid = λ t. true;
  request = λ call n. (ok (scripted call), n);
  xadd = λ stream fields n. (appended "1-0", n);
  xack = λ stream group id n. (ok 1, n);
  xgroup = λ stream group n. (ok tt, n);
  xreadgroup = λ stream group consumer n. (ok [], n);
  close = λ n. (none, n);
}

-- Redis appends every entry, and the connection is lost before it answers.
abbrev losing : External ℕ
losing = record outside { xadd = λ stream fields n. (answer_lost "connection lost", n) }

abbrev pub empty_system : System ℕ
empty_system = record { runs = []; processed = []; published = []; acked = []; outside = 0 }

abbrev lamp_request : StartOrderWorkflowRequest
lamp_request = record {
  user_id = "ann";
  user_email = "ann@shop";
  catalog_item_id = "lamp";
  quantity = pos 2;
  idempotency_key = some "key";
  correlation_id = "trace";
}

abbrev pub lamp_run : WorkflowRun
lamp_run = new_run "run" 7 (new_workflow lamp_request 2)

abbrev started : System ℕ
started = (start_order_checkout_workflow outside lamp_request empty_system).1

abbrev stored_only : System ℕ
stored_only = (start_order_checkout_workflow losing lamp_request empty_system).1

start_order_checkout_workflow-done_example :
    (started ≡ empty_system)
    ⊎ ((run : WorkflowRun) × (fields : Fields) × (accepted_response lamp_run
          ≡ accepted_response run)
        × (started.runs ≡ run ∷ [])
        × (run.status ≡ accepted)
        × (run.user_id ≡ lamp_request.user_id)
        × (run.quantity ≡ some 2)
        × (started.published ≡ record { stream = workflow_commands_stream; fields = fields } ∷ [])
        × (get_field "message_type" fields ≡ some "order.create")
        × (get_field "workflow_id" fields ≡ some run.id))
unfolding start_order_checkout_workflow find_by_idempotency_key create_workflow_run send_command
    xadd new_id now ◌>>=◌ find_row select select_first order_by
start_order_checkout_workflow-done_example =
    start_order_checkout_workflow-done outside lamp_request 2 empty_system started
      (accepted_response lamp_run) refl refl

start_order_checkout_workflow-repeat_example :
    start_order_checkout_workflow outside lamp_request started
    ≡ (ok (accepted_response lamp_run), started)
unfolding start_order_checkout_workflow find_by_idempotency_key create_workflow_run send_command
    xadd new_id now ◌>>=◌ find_row select select_first order_by
start_order_checkout_workflow-repeat_example =
    start_order_checkout_workflow-repeat outside lamp_request lamp_request 2 2 "key" empty_system
      started (accepted_response lamp_run) refl refl refl (refl, refl) refl

start_order_checkout_workflow-failed_example :
    ((stored_only.runs ≡ []) × (stored_only.published ≡ []))
    ⊎ StoredOnly losing lamp_request empty_system stored_only
unfolding start_order_checkout_workflow find_by_idempotency_key create_workflow_run send_command
    xadd new_id now ◌>>=◌ find_row select select_first order_by
start_order_checkout_workflow-failed_example =
    start_order_checkout_workflow-failed losing lamp_request 2 "key" empty_system stored_only
      server_error refl refl refl

abbrev waiting_run : WorkflowRun
waiting_run = record lamp_run { status = awaiting_payment; order_id = some "order-a" }

abbrev pub waiting : System ℕ
waiting = record empty_system { runs = waiting_run ∷ [] }

abbrev pay : RequestPaymentRequest
pay = record {
  user_id = "ann";
  idempotency_key = some "pay";
  correlation_id = "trace";
  payment_scenario = none;
}

abbrev pub accepts : AcceptsAll outside
accepts = record { appends = λ stream fields n. ("1-0", refl); closes = λ w. refl }

request_order_payment-keeps_example :
    let s' = (request_order_payment outside "order-a" pay waiting).1 in
    (s'.runs ≡ waiting.runs)
    × ((s'.published ≡ [])
        ⊎ ((run : WorkflowRun) × (scenario : String) × (fields : Fields) × (find_by_order_for_user
                "order-a" "ann" waiting
              ≡ some run)
            × (run.status ≡ awaiting_payment)
            × NamesRun run scenario fields
            × (s'.published ≡ record { stream = workflow_commands_stream; fields = fields } ∷ [])))
request_order_payment-keeps_example = request_order_payment-keeps outside "order-a" pay waiting

request_order_payment-twice_example :
    let (first, s₁) = request_order_payment outside "order-a" pay waiting in
    let (second, s₂) = request_order_payment outside "order-a" pay s₁ in
    (first ≡ ok (accepted_response waiting_run))
    × (second ≡ ok (accepted_response waiting_run))
    × ((f : Fields) × (f' : Fields) × NamesRun waiting_run "success" f
        × NamesRun waiting_run "success" f'
        × (s₂.published
            ≡ record { stream = workflow_commands_stream; fields = f' }
              ∷ record { stream = workflow_commands_stream; fields = f }
              ∷ []))
unfolding find_by_order_for_user select select_first order_by
request_order_payment-twice_example =
    request_order_payment-twice outside accepts "order-a" "success" "success" pay pay waiting_run
      waiting refl refl refl refl refl
