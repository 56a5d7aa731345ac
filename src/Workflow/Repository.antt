-- ===== src/Workflow/Repository.antt =====
-- `WorkflowRepository` of services/workflow-service/src/workflow_service/repository.py over the
-- tables of migration 0008. A transaction that raises is rolled back.
use Prim.Native.String.{count}
use retail_ops_microservices.Base.{
  ℕ, String, Bool, true, false, not, ◌&&◌, ◌||◌, Option, none, some, List, [], ◌∷◌, leb, ◌==◌,
  if◌then◌else◌, is_some, present, Time,
}
use retail_ops_microservices.Base.Exec.{ok, err, raise, gets, ◌>>=◌, ◌>>◌}
use retail_ops_microservices.Base.Int.{fits_int32}
use retail_ops_microservices.Base.Rows.{select, select_first, find_row, update_rows}
use retail_ops_microservices.Base.Sort.{order_by}
use retail_ops_microservices.Workflow.Status.{WorkflowStatus, accepted, status_text}
use retail_ops_microservices.Workflow.Types.{WorkflowRun, CreateWorkflowRun, ProcessedMessage}
use retail_ops_microservices.Workflow.Contracts.{workflow_type_order_checkout}
use retail_ops_microservices.Workflow.External.{External, workflow_not_found, database_failed}
use retail_ops_microservices.Workflow.System.{System, Work, new_id, now}

abbrev pub run_key : WorkflowRun → String
run_key r = r.id

-- One keyword argument of `update_workflow`: a column of `allowed_columns` with its new value.
pub data Update : Type 0 where
  set_order_id : String → Update
  set_status : WorkflowStatus → Update
  set_current_step : String → Update
  set_failed_step : Option String → Update
  set_failure_code : Option String → Update
  set_last_error : Option String → Update
  set_invoice_document_id : String → Update
  set_receipt_document_id : String → Update
  set_payment_id : String → Update
  set_notification_id : String → Update
  set_payment_scenario : String → Update
  set_completed_at : Time → Update

abbrev pub apply_update : Update → WorkflowRun → WorkflowRun
apply_update (set_order_id v) r = record r { order_id = some v }
apply_update (set_status v) r = record r { status = v }
apply_update (set_current_step v) r = record r { current_step = some v }
apply_update (set_failed_step v) r = record r { failed_step = v }
apply_update (set_failure_code v) r = record r { failure_code = v }
apply_update (set_last_error v) r = record r { last_error = v }
apply_update (set_invoice_document_id v) r = record r { invoice_document_id = some v }
apply_update (set_receipt_document_id v) r = record r { receipt_document_id = some v }
apply_update (set_payment_id v) r = record r { payment_id = some v }
apply_update (set_notification_id v) r = record r { notification_id = some v }
apply_update (set_payment_scenario v) r = record r { payment_scenario = some v }
apply_update (set_completed_at v) r = record r { completed_at = some v }

-- The SET clause, with `updated_at`.
abbrev pub apply_updates : Time → List Update → WorkflowRun → WorkflowRun
apply_updates now [] r = record r { updated_at = now }
apply_updates now (u ∷ us) r = apply_updates now us (apply_update u r)

-- A text that is NULL or fits VARCHAR(n).
abbrev pub fits : ℕ → Option String → Bool
fits n none = true
fits n (some text) = leb (count text) n

-- The width of the columns `last_error` and `error`.
abbrev pub fits_error : Option String → Bool
fits_error = fits 1024

-- Whether the new value fits its column; the texts of the statuses do.
abbrev fits_update : Update → Bool
fits_update (set_order_id v) = leb (count v) 128
fits_update (set_status v) = true
fits_update (set_current_step v) = leb (count v) 64
fits_update (set_failed_step v) = fits 64 v
fits_update (set_failure_code v) = fits 64 v
fits_update (set_last_error v) = fits_error v
fits_update (set_invoice_document_id v) = leb (count v) 128
fits_update (set_receipt_document_id v) = leb (count v) 128
fits_update (set_payment_id v) = leb (count v) 128
fits_update (set_notification_id v) = leb (count v) 128
fits_update (set_payment_scenario v) = leb (count v) 64
fits_update (set_completed_at v) = true

abbrev pub fits_updates : List Update → Bool
fits_updates [] = true
fits_updates (u ∷ us) = fits_update u && fits_updates us

-- `column = :value`: NULL equals nothing.
abbrev text_is : Option String → String → Bool
text_is none value = false
text_is (some text) value = text == value

abbrev pub has_key : String → String → WorkflowRun → Bool
has_key user_id key r = r.user_id == user_id && text_is r.idempotency_key key

abbrev has_order : String → String → WorkflowRun → Bool
has_order order_id user_id r = text_is r.order_id order_id && r.user_id == user_id

-- ORDER BY created_at and ORDER BY created_at DESC, each with LIMIT 1.
abbrev pub oldest : List WorkflowRun → Option WorkflowRun
oldest rows = select_first (λ _. true) (order_by (λ a b. leb a.created_at b.created_at) rows)

abbrev pub newest : List WorkflowRun → Option WorkflowRun
newest rows = select_first (λ _. true) (order_by (λ a b. leb b.created_at a.created_at) rows)

abbrev pub new_run : String → Time → CreateWorkflowRun → WorkflowRun
new_run id now request = record {
  id = id;
  workflow_type = workflow_type_order_checkout;
  user_id = request.user_id;
  user_email = some request.user_email;
  order_id = none;
  status = accepted;
  current_step = some (status_text accepted);
  failed_step = none;
  failure_code = none;
  last_error = none;
  correlation_id = request.correlation_id;
  idempotency_key = request.idempotency_key;
  catalog_item_id = some request.catalog_item_id;
  quantity = some request.quantity;
  invoice_document_id = none;
  receipt_document_id = none;
  payment_id = none;
  notification_id = none;
  payment_scenario = none;
  created_at = now;
  updated_at = now;
  completed_at = none;
}

-- Whether the columns of a new run can hold what the request brings.
abbrev pub fits_run : WorkflowRun → Bool
fits_run r =
    leb (count r.user_id) 128
    && fits 256 r.user_email
    && leb (count r.correlation_id) 128
    && fits 256 r.idempotency_key
    && fits 128 r.catalog_item_id
    && fits_quantity r.quantity
  where
    fits_quantity : Option ℕ → Bool
    fits_quantity none = true
    fits_quantity (some n) = fits_int32 n

-- Whether the columns of `processed_stream_messages` can hold the row.
abbrev pub fits_message : ProcessedMessage → Bool
fits_message m =
    fits_error m.error
    && leb (count m.stream_name) 128
    && leb (count m.group_name) 128
    && leb (count m.consumer_name) 128
    && leb (count m.redis_message_id) 128
    && leb (count m.message_id) 128
    && leb (count m.message_type) 128
    && fits 128 m.order_id
    && leb (count m.status) 64

-- Whether the unique constraint on (user_id, idempotency_key) refuses the row.
abbrev pub is_taken : String → Option String → List WorkflowRun → Bool
is_taken user_id none runs = false
is_taken user_id (some k) runs = is_some (select_first (has_key user_id k) runs)

-- The conflict target of `processed_stream_messages`.
abbrev pub same_message : ProcessedMessage → ProcessedMessage → Bool
same_message a b =
    a.stream_name == b.stream_name
    && a.group_name == b.group_name
    && a.consumer_name == b.consumer_name
    && a.redis_message_id == b.redis_message_id

module _ {W : Type 0} where
  abbrev insert_run : WorkflowRun → Work W WorkflowRun
  insert_run row s =
      if not (fits_run row)
      then (err (database_failed "value too long"), s)
      else if is_some (find_row run_key row.id s.runs)
          || is_taken row.user_id row.idempotency_key s.runs
      then (err (database_failed "duplicate key"), s)
      else (ok row, record s { runs = row ∷ s.runs })

  unfoldable pub find_by_idempotency_key : String → Option String → System W → Option WorkflowRun
  find_by_idempotency_key user_id key s = elim (present key) [
    | none ↦ none
    | some k ↦ oldest (select (has_key user_id k) s.runs)
  ]

  unfoldable pub find_by_order_for_user : String → String → System W → Option WorkflowRun
  find_by_order_for_user order_id user_id s = newest (select (has_order order_id user_id) s.runs)

  -- The UPDATE, once the time is read and the id is cast.
  abbrev write_updates : String → Time → List Update → Work W WorkflowRun
  write_updates id t updates s = elim (find_row run_key id s.runs) [
    | none ↦ (err (workflow_not_found id), s)
    | some row ↦
        if fits_updates updates
        then (
          ok (apply_updates t updates row),
          record s { runs = update_rows run_key id (apply_updates t updates) s.runs },
        )
        else (err (database_failed "value too long"), s)
  ]

  -- The INSERT … ON CONFLICT DO NOTHING, and whether it returned a row.
  abbrev insert_processed : ProcessedMessage → Work W Bool
  insert_processed row s =
      if is_some (select_first (same_message row) s.processed)
      then (ok false, s)
      else (ok true, record s { processed = row ∷ s.processed })

module _ {W : Type 0} (x : External W) where
  unfoldable pub create_workflow_run : CreateWorkflowRun → Work W WorkflowRun
  unfolding new_id now
  create_workflow_run request = do t ← now x; id ← new_id x; insert_run (new_run id t request)

  -- CAST(:workflow_id AS UUID)
  abbrev cast_uuid : String → Work W (Unit {0})
  cast_uuid id s = if x.is_uuid id then (ok tt, s) else (err (database_failed "invalid uuid"), s)

  unfoldable pub find_by_id : String → Work W (Option WorkflowRun)
  find_by_id id = do cast_uuid id; gets (λ s. find_row run_key id s.runs)

  unfoldable pub update_workflow : String → List Update → Work W WorkflowRun
  unfolding now
  update_workflow id updates = do t ← now x; cast_uuid id; write_updates id t updates

  abbrev pub cast_optional : Option String → Work W (Unit {0})
  cast_optional none s = (ok tt, s)
  cast_optional (some id) s = cast_uuid id s

  -- The row has its id and its time from the call; the caller gives the rest.
  unfoldable pub record_processed_message : (String → Time → ProcessedMessage) → Work W Bool
  unfolding new_id now
  record_processed_message row = do
    t ← now x
    id ← new_id x
    cast_optional (row id t).workflow_id
    if fits_message (row id t)
        then insert_processed (row id t)
        else raise (database_failed "value too long")
