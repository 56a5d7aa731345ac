-- ===== src/Workflow/Worker/Frame.antt =====
-- The calls that leave the table `workflow_runs` alone, and `update_workflow`, which does not.
use mathlib.Core.Path.{subst}
use retail_ops_microservices.Base.{
  ℕ, String, ◌≡◌, refl, sym, ◌∙◌, ◌⊎◌, inl, inr, Option, some, List, [], ◌∷◌, arith, Option-cases,
  Bool-cases, if◌then◌else◌, Time,
}
use retail_ops_microservices.Base.Exec.{ok, err, ◌>>=◌}
use retail_ops_microservices.Base.Rows.{find_row, update_rows, find_row-key}
use retail_ops_microservices.Workflow.Types.{
  WorkflowRun, ProcessedMessage, StreamMessage, JsonValue, Body, HttpCall,
}
use retail_ops_microservices.Workflow.Contracts.{Command, Event}
use retail_ops_microservices.Workflow.External.{
  External, WorkerError, workflow_not_found, database_failed,
}
use retail_ops_microservices.Workflow.System.{System, Work, now, xack}
use retail_ops_microservices.Workflow.Repository.{
  Update, run_key, apply_update, apply_updates, fits_updates, update_workflow,
  record_processed_message,
}
use retail_ops_microservices.Workflow.Worker.Calls.{
  body_item, body_get, as_text, as_number, text_or, as_optional, require_workflow, transition_call,
  call_json, transition_order, publish_command, publish_event, publish_dead_letter,
}
use retail_ops_microservices.Workflow.Worker.Checkout.{order_id_or_raise}
use retail_ops_microservices.Workflow.Worker.Payment.{assert_order_id}
use retail_ops_microservices.Workflow.Worker.Keeps.{
  Returns, Any, Keeps, Keeps-frame, Keeps-bind, keeps_rules,
}

-- A statement about the rows of `workflow_runs` only.
pub record OnRuns {W : Type 0} (R : List WorkflowRun → Type 0) (s : System W) : Type 0 where
  pub rows : R s.runs

-- The id of a row never changes by an update.
pub apply_updates-id :
    (t : Time) (us : List Update) (r : WorkflowRun) → (apply_updates t us r).id ≡ r.id
apply_updates-id t [] r = refl
apply_updates-id t (u ∷ us) r = apply_updates-id t us (apply_update u r) ∙ one u
  where
    one : (v : Update) → (apply_update v r).id ≡ r.id
    one (Update.set_order_id v) = refl
    one _ = refl

-- An action that leaves the rows as they are keeps all that is said of them.
Keeps-same :
    {W A : Type 0} {R : List WorkflowRun → Type 0} (m : Work W A)
    → ((s : System W) → (m s).1.runs ≡ s.runs)
    → Keeps (OnRuns R) Any m
Keeps-same {R = R} m same = Keeps-frame m (λ s h. record { rows = subst R (sym (same s)) h.rows })

module _ {W : Type 0} {R : List WorkflowRun → Type 0} where
  pub body_item-OnRuns : (k : String) (b : Body) → Keeps {W = W} (OnRuns R) Any (body_item k b)
  unfolding body_item
  body_item-OnRuns k b = Keeps-same (body_item k b) (λ s. ground arith)

  pub body_get-OnRuns : (k : String) (b : Body) → Keeps {W = W} (OnRuns R) Any (body_get k b)
  unfolding body_get
  body_get-OnRuns k b = Keeps-same (body_get k b) (λ s. ground arith)

  pub as_text-OnRuns : (v : JsonValue) → Keeps {W = W} (OnRuns R) Any (as_text v)
  unfolding as_text
  as_text-OnRuns v = Keeps-same (as_text v) (λ s. ground arith)

  pub as_number-OnRuns : (v : JsonValue) → Keeps {W = W} (OnRuns R) Any (as_number v)
  unfolding as_number
  as_number-OnRuns v = Keeps-same (as_number v) (λ s. ground arith)

  pub text_or-OnRuns : (d : String) (v : JsonValue) → Keeps {W = W} (OnRuns R) Any (text_or d v)
  unfolding text_or
  text_or-OnRuns d v = Keeps-same (text_or d v) (λ s. ground arith)

  pub as_optional-OnRuns : (v : JsonValue) → Keeps {W = W} (OnRuns R) Any (as_optional v)
  unfolding as_optional
  as_optional-OnRuns v = Keeps-same (as_optional v) (λ s. ground arith)

  pub order_id_or_raise-OnRuns :
      (p : String) (r : WorkflowRun) → Keeps {W = W} (OnRuns R) Any (order_id_or_raise p r)
  order_id_or_raise-OnRuns p r = Keeps-same (order_id_or_raise p r) (λ s. ground arith)

  pub assert_order_id-OnRuns : (r : WorkflowRun) → Keeps {W = W} (OnRuns R) Any (assert_order_id r)
  assert_order_id-OnRuns r = Keeps-same (assert_order_id r) (λ s. ground arith)

module _ {W : Type 0} {R : List WorkflowRun → Type 0} (x : External W) where
  pub now-OnRuns : Keeps (OnRuns R) Any (now x)
  unfolding now
  now-OnRuns = Keeps-same (now x) (λ s. ground arith)

  pub call_json-OnRuns : (c : HttpCall) (es : List ℕ) → Keeps (OnRuns R) Any (call_json x c es)
  unfolding call_json ◌>>=◌
  call_json-OnRuns c es = Keeps-same (call_json x c es) (λ s. ground arith)

  pub transition_order-OnRuns :
      (k n r c : String) → Keeps (OnRuns R) Any (transition_order x k n r c)
  unfolding transition_order
  transition_order-OnRuns k n r c = call_json-OnRuns (transition_call k n r c) (200 ∷ [])

  pub publish_command-OnRuns :
      (c : Command) (r : WorkflowRun) (m : Option String) (fs : List (String × Option String))
      → Keeps (OnRuns R) Any (publish_command x c r m fs)
  unfolding publish_command ◌>>=◌
  publish_command-OnRuns c r m fs = Keeps-same (publish_command x c r m fs) (λ s. ground arith)

  pub publish_event-OnRuns :
      (e : Event) (r : WorkflowRun) (m : Option String) (fs : List (String × Option String))
      → Keeps (OnRuns R) Any (publish_event x e r m fs)
  unfolding publish_event ◌>>=◌
  publish_event-OnRuns e r m fs = Keeps-same (publish_event x e r m fs) (λ s. ground arith)

  pub publish_dead_letter-OnRuns :
      (m : StreamMessage) (t : String) → Keeps (OnRuns R) Any (publish_dead_letter x m t)
  unfolding publish_dead_letter ◌>>=◌
  publish_dead_letter-OnRuns m t = Keeps-same (publish_dead_letter x m t) (λ s. ground arith)

  pub record_processed_message-OnRuns :
      (row : String → Time → ProcessedMessage)
      → Keeps (OnRuns R) Any (record_processed_message x row)
  unfolding record_processed_message ◌>>=◌
  record_processed_message-OnRuns row =
      Keeps-same (record_processed_message x row) (λ s. ground arith)

  pub xack-OnRuns : (a b c : String) → Keeps (OnRuns R) Any (xack x a b c)
  unfolding xack
  xack-OnRuns a b c = Keeps-same (xack x a b c) (λ s. ground arith)

module _ {W : Type 0} (x : External W) (k : String) (s : System W) where
  -- A run is found and returned, or the call raises; the state stays.
  pub require_workflow-cases :
      ((e : WorkerError) × (require_workflow x k s ≡ (err e, s)))
      ⊎ ((r : WorkflowRun) × (find_row run_key k s.runs ≡ some r)
          × (require_workflow x k s ≡ (ok r, s)))
  unfolding require_workflow ◌>>=◌
  require_workflow-cases = elim (Option-cases (find_row run_key k s.runs)) [
    | inl missing ↦ inl (
      if x.is_uuid k then workflow_not_found k else database_failed "invalid uuid",
      ground (arith, missing),
    )
    | inr (r, found) ↦ elim (Bool-cases (x.is_uuid k)) [
      | inl valid ↦ inr (r, found, ground (arith, found))
      | inr invalid ↦ inl (database_failed "invalid uuid", ground arith)
    ]
  ]

  -- The state after the clock was read.
  abbrev pub ticked : System W
  ticked = record s { outside = (x.now s.outside).1 }

  abbrev pub this_moment : Time
  this_moment = (x.now s.outside).0

  -- The row is updated and returned, or the call raises and the tables stay.
  pub update_workflow-cases :
      (us : List Update)
      → ((e : WorkerError) × (update_workflow x k us s ≡ (err e, ticked)))
        ⊎ ((r : WorkflowRun) × (find_row run_key k s.runs ≡ some r)
            × (update_workflow x k us s ≡ (
              ok (apply_updates this_moment us r),
              record ticked { runs = update_rows run_key k (apply_updates this_moment us) s.runs },
            )))
  unfolding update_workflow ◌>>=◌
  update_workflow-cases us = elim (Bool-cases (x.is_uuid k)) [
    | inr invalid ↦ inl (database_failed "invalid uuid", ground arith)
    | inl valid ↦ elim (Option-cases (find_row run_key k s.runs)) [
      | inl missing ↦ inl (workflow_not_found k, ground (arith, missing))
      | inr (r, found) ↦ elim (Bool-cases (fits_updates us)) [
        | inl fits ↦ inr (r, found, ground (arith, found))
        | inr unfit ↦ inl (database_failed "value too long", ground (arith, found))
      ]
    ]
  ]

module _ {W : Type 0} {R : List WorkflowRun → Type 0} (x : External W) where
  -- What is found has the id that was asked for.
  pub require_workflow-OnRuns :
      (k : String) → Keeps (OnRuns R) (λ r. r.id ≡ k) (require_workflow x k)
  require_workflow-OnRuns k = record {
    at = λ s h. elim (require_workflow-cases x k s) [
      | inl (e, raised) ↦ rw raised (h, tt)
      | inr (r, found, returned) ↦ rw returned (h, find_row-key run_key k s.runs r found)
    ];
  }

-- The rows have changed by updates of the row `k` alone.
pub data Touches (k : String) (rows : List WorkflowRun) : List WorkflowRun → Type 0 where
  same : Touches k rows rows
  touch :
      {rows' : List WorkflowRun}
      → Touches k rows rows'
      → (t : Time) (us : List Update)
      → Touches k rows (update_rows run_key k (apply_updates t us) rows')

module _ {W : Type 0} (x : External W) {k : String} {rows : List WorkflowRun} where
  update-Touches :
      (us : List Update) → Keeps (OnRuns (Touches k rows)) (λ r. r.id ≡ k) (update_workflow x k us)
  update-Touches us = record {
    at = λ s h. elim (update_workflow-cases x k s us) [
      | inl (e, raised) ↦ rw raised (record { rows = h.rows }, tt)
      | inr (r, found, returned) ↦ rw returned (
        record { rows = touch h.rows (this_moment x k s) us },
        apply_updates-id (this_moment x k s) us r ∙ find_row-key run_key k s.runs r found,
      )
    ];
  }

  -- The row may be named by a run with its id.
  pub bind-update_workflow :
      {B : Type 0} {Q : B → Type 0} (j : String) (us : List Update) (f : WorkflowRun → Work W B)
      → j ≡ k
      → ((r : WorkflowRun) → r.id ≡ k → Keeps (OnRuns (Touches k rows)) Q (f r))
      → Keeps (OnRuns (Touches k rows)) Q (update_workflow x j us >>= f)
  bind-update_workflow j us f e kf =
      rw e (Keeps-bind (update_workflow x k us) f (update-Touches us) kf)

  pub bind-require_workflow :
      {B : Type 0} {Q : B → Type 0} (j : String) (f : WorkflowRun → Work W B)
      → j ≡ k
      → ((r : WorkflowRun) → r.id ≡ k → Keeps (OnRuns (Touches k rows)) Q (f r))
      → Keeps (OnRuns (Touches k rows)) Q (require_workflow x j >>= f)
  bind-require_workflow j f e kf =
      rw e (Keeps-bind (require_workflow x k) f (require_workflow-OnRuns x k) kf)

pub ruleset frame_rules = (
  body_item-OnRuns, body_get-OnRuns, as_text-OnRuns, as_number-OnRuns, text_or-OnRuns,
  as_optional-OnRuns, order_id_or_raise-OnRuns, assert_order_id-OnRuns, now-OnRuns,
  call_json-OnRuns, transition_order-OnRuns, publish_command-OnRuns, publish_event-OnRuns,
  publish_dead_letter-OnRuns, bind-require_workflow, bind-update_workflow, keeps_rules,
)
