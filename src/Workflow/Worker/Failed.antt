-- ===== src/Workflow/Worker/Failed.antt =====
-- What is left of a run whose command failed: the `except` clause of `_process_message`.
use Prim.Native.String.{count}
use retail_ops_microservices.Base.{
  ◌≤◌, String, ◌≡◌, refl, ◌∙◌, true, Option, some, List, [], ◌∷◌, arith, eq_refl, Time, present,
  or_else, ◌==◌, Bool-cases, inl, inr,
}
use retail_ops_microservices.Base.Exec.{ok, err, ◌>>=◌}
use retail_ops_microservices.Base.Rows.{find_row, update_rows, find_row-update_rows}
use retail_ops_microservices.Workflow.Status.{failed, status_text}
use retail_ops_microservices.Workflow.Types.{Fields, WorkflowRun, StreamMessage}
use retail_ops_microservices.Workflow.Contracts.{
  update_fields, workflow_dead_letter_stream, get_field, Event, workflow_failed,
}
use retail_ops_microservices.Workflow.External.{AcceptsAll, External, WorkerError}
use retail_ops_microservices.Workflow.System.{System, Work, now, xadd}
use retail_ops_microservices.Workflow.Repository.{
  Update, run_key, apply_updates, fits_updates, update_workflow, set_status, set_current_step,
  set_failed_step, set_failure_code, set_last_error, set_completed_at,
}
use retail_ops_microservices.Workflow.Worker.Calls.{
  Failure, mark_failed, publish_dead_letter, publish_event,
}
use retail_ops_microservices.Workflow.Worker.Process.{
  handle_command, process_message, on_error, rescue, worker_failure, message_type_of,
  workflow_id_of, finish, done, outcome_status, outcome_error,
}
use retail_ops_microservices.Workflow.Worker.Touches.{Names, handle_command-Touches}
use retail_ops_microservices.Workflow.Worker.Isolation.{
  Touches-SameRun, after_finally-runs, present-named, finish-OnRuns,
}
use retail_ops_microservices.Workflow.Worker.Frame.{same, apply_updates-id, this_moment, ticked}

-- The updates of `mark_failed` at a time.
abbrev failure_updates : Time → Failure → List Update
failure_updates t f =
    set_status failed
    ∷ set_current_step (status_text failed)
    ∷ set_failed_step (some f.failed_step)
    ∷ set_failure_code (some f.failure_code)
    ∷ set_last_error (some f.last_error)
    ∷ set_completed_at t
    ∷ []

module _ {W : Type 0} (x : External W) (k : String) (r : WorkflowRun) where
  update-done :
      (us : List Update) (s : System W)
      → x.is_uuid k ≡ true
      → find_row run_key k s.runs ≡ some r
      → fits_updates us ≡ true
      → update_workflow x k us s ≡ (
        ok (apply_updates (this_moment x k s) us r),
        record (ticked x k s) {
          runs = update_rows run_key k (apply_updates (this_moment x k s) us) s.runs;
        },
      )
  unfolding update_workflow ◌>>=◌
  update-done us s valid found fits = ground (arith, found)

  publish_event_runs :
      (e : Event) (run : WorkflowRun) (c : Option String) (fs : List (String × Option String))
      (s : System W)
      → (publish_event x e run c fs s).1.runs ≡ s.runs
  unfolding publish_event ◌>>=◌
  publish_event_runs e run c fs s = ground arith

  mark_failed_runs :
      (f : Failure) (c : Option String) (s : System W)
      → x.is_uuid k ≡ true
      → find_row run_key k s.runs ≡ some r
      → count f.failed_step ≤ 64
      → count f.failure_code ≤ 64
      → count f.last_error ≤ 1024
      → (run : WorkflowRun) × (find_row run_key k (mark_failed x k f c s).1.runs ≡ some run)
        × (run.status ≡ failed)
        × (run.failed_step ≡ some f.failed_step)
        × (run.failure_code ≡ some f.failure_code)
        × (run.last_error ≡ some f.last_error)
  unfolding mark_failed ◌>>=◌ now
  mark_failed_runs f c s valid found step_ code_ short =
      let t = (x.now s.outside).0 in
      let s₀ : System W = record s { outside = (x.now s.outside).1 } in
      let us = failure_updates t f in
      let fits : fits_updates us ≡ true = ground (arith, step_, code_, short) in
      let at = this_moment x k s₀ in
      let run = apply_updates at us r in
      let updated = update-done us s₀ valid found fits in
      let law =
        find_row-update_rows run_key k k (apply_updates at us) s.runs (apply_updates-id at us) in
      (
        run,
        rw updated (
            rw
              (publish_event_runs workflow_failed run c
                (("order_id", run.order_id) ∷ ("failure_code", some f.failure_code) ∷ [])
                (record (ticked x k s₀) {
                  runs = update_rows run_key k (apply_updates at us) s.runs;
                }))
              (law ∙ rw (eq_refl k, found) refl)),
        refl,
        refl,
        refl,
        refl,
      )

module _ {W : Type 0} (x : External W) (m : StreamMessage) where
  xadd_sent :
      AcceptsAll x
      → (stream : String) (fields : Fields) (s : System W)
      → (id : String) × (s' : System W) × (xadd x stream fields s ≡ (ok id, s'))
        × (s'.runs ≡ s.runs)
  unfolding xadd
  xadd_sent all stream fields s =
      let (id, taken) = all.appends stream fields s.outside in
      (
        id,
        record s {
          published = record { stream = stream; fields = fields } ∷ s.published;
          outside = (x.xadd stream fields s.outside).1;
        },
        rw (xadd, taken) refl,
        refl,
      )

  dead_letter_sent :
      AcceptsAll x
      → (t : String) (s : System W)
      → (id : String) × (s' : System W) × (publish_dead_letter x m t s ≡ (ok id, s'))
        × (s'.runs ≡ s.runs)
  unfolding publish_dead_letter ◌>>=◌ now
  dead_letter_sent all t s =
      xadd_sent all workflow_dead_letter_stream
        (update_fields m.fields (
          ("source_stream", some m.stream)
          ∷ ("source_redis_message_id", some m.message_id)
          ∷ ("dead_letter_error", some t)
          ∷ ("dead_letter_at", some (x.iso (x.now s.outside).0))
          ∷ []))
        (record s { outside = (x.now s.outside).1 })

  done_runs : (a : Work W String) (s : System W) → (done a s).1.runs ≡ (a s).1.runs
  unfolding ◌>>=◌
  done_runs a s = ground arith

  -- The run `k` is marked with the error.
  on_error_failed :
      AcceptsAll x
      → (e : WorkerError) (k : String) (r : WorkflowRun) (s : System W) → workflow_id_of m ≡ some k
      → x.is_uuid k ≡ true
      → find_row run_key k s.runs ≡ some r
      → count (worker_failure x m (x.error_text e)).failed_step ≤ 64
      → count (x.error_text e) ≤ 1024
      → (run : WorkflowRun) × (find_row run_key k (on_error x m e s).1.runs ≡ some run)
        × (run.status ≡ failed)
        × (run.failure_code ≡ some "WORKFLOW_WORKER_ERROR")
        × (run.last_error ≡ some (x.error_text e))
  unfolding on_error ◌>>=◌
  on_error_failed all e k r s named valid found named_step short =
      let text = x.error_text e in
      let (id, s', sent, kept) = dead_letter_sent all text s in
      let (run, there, status, step, code, error) =
        mark_failed_runs x k r (worker_failure x m text) (get_field "message_id" m.fields) s' valid
          (rw kept found) named_step (omega arith) short in
      (
        run,
        rw (sent, named)
            (rw
              (done_runs
                (mark_failed x k (worker_failure x m text) (get_field "message_id" m.fields)) s')
              there),
        status,
        code,
        error,
      )

step_fits : (t : String) → count t ≤ 64 → count (or_else (present (some t)) "unknown") ≤ 64
step_fits t h = elim (Bool-cases (t == "")) [
  | inl empty ↦ rw empty (omega arith)
  | inr full ↦ rw full h
]

-- A command with a type of at most 64 characters or none, whose handling raises an error with a
-- text of at most 1024 characters, leaves the stored run that it names `failed`, with the worker's
-- failure code and the text of the error, when PostgreSQL takes the run's id for a UUID and Redis
-- accepts every entry and closes its connections.
pub process_message_failed :
    {W : Type 0} (x : External W) (c g k : String) (m : StreamMessage) (e : WorkerError)
    (r : WorkflowRun) (s : System W)
    → AcceptsAll x
    → workflow_id_of m ≡ some k
    → x.is_uuid k ≡ true
    → find_row run_key k s.runs ≡ some r
    → (handle_command x m s).0 ≡ err e
    → count (message_type_of m) ≤ 64
    → count (x.error_text e) ≤ 1024
    → (run : WorkflowRun) × (find_row run_key k
          (process_message x c m g (handle_command x) s).1.runs
        ≡ some run)
      × (run.status ≡ failed)
      × (run.failure_code ≡ some "WORKFLOW_WORKER_ERROR")
      × (run.last_error ≡ some (x.error_text e))
unfolding process_message
process_message_failed x c g k m e r s all named valid found raised step_ short =
    let handled = handle_command x m s in
    let rescued = rescue x handled.0 m handled.1 in
    let final = finish x c m g (outcome_status handled.0) (outcome_error x handled.0) rescued.1 in
    let only : Names m k = record {
      only =
          λ j p. ground (arith, named, present-named (get_field "workflow_id" m.fields) k named, p);
    } in
    let touched = ((handle_command-Touches x m only).at s (record { rows = same })).0.rows in
    let (r', found', kept) = Touches-SameRun k k r touched found in
    let (run, there, status, code, error) =
      on_error_failed x m all e k r' handled.1 named valid found'
        (step_fits (message_type_of m) step_) short in
    let unchanged : final.1.runs ≡ rescued.1.runs =
      ((finish-OnRuns x {P = λ rows. rows ≡ rescued.1.runs} c m g (outcome_status handled.0)
          (outcome_error x handled.0)).at
        rescued.1 (record { rows = refl })).0.rows in
    let marked : find_row run_key k rescued.1.runs ≡ some run = rw raised there in
    (
      run,
      rw (after_finally-runs x c rescued.0 final.0 final.1, unchanged) marked,
      status,
      code,
      error,
    )
