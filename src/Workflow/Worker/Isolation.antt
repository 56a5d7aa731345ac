-- ===== src/Workflow/Worker/Isolation.antt =====
-- The handling of one message, with its `except` and its `finally`, and the rows of
-- `workflow_runs`.
use retail_ops_microservices.Base.Rows.{find_row, find_row-update_rows}
use retail_ops_microservices.Workflow.Repository.{Update, apply_update, run_key, apply_updates}
use retail_ops_microservices.Base.{
  or_else, Time, ◌≢◌, eq_iff, String, ◌≡◌, refl, inl, inr, Bool, true, false, Option, none, some,
  List, [], ◌∷◌, arith, Bool-cases, present, ◌==◌,
}
use retail_ops_microservices.Base.Exec.{Result, ok, err}
use retail_ops_microservices.Workflow.Types.{WorkflowRun, StreamMessage}
use retail_ops_microservices.Workflow.Contracts.{get_field}
use retail_ops_microservices.Workflow.External.{External, WorkerError}
use retail_ops_microservices.Workflow.System.{System, Work}
use retail_ops_microservices.Workflow.Worker.Calls.{publish_dead_letter}
use retail_ops_microservices.Workflow.Worker.Process.{
  handle_command, process_message, on_error, finish, fail_run, workflow_id_of, ack_if, rescue,
  after_finally, outcome_status, outcome_error,
}
use retail_ops_microservices.Workflow.Worker.Keeps.{Any, Keeps, Keeps-bind-Any, keeps_rules}
use retail_ops_microservices.Workflow.Worker.Frame.{
  apply_updates-id, same, touch, publish_dead_letter-OnRuns, record_processed_message-OnRuns,
  xack-OnRuns, OnRuns, Touches,
}
use retail_ops_microservices.Workflow.Worker.Touches.{
  Names, handle_command-Touches, mark_failed-Touches,
}

pub present-named : (o : Option String) (j : String) → present o ≡ some j → o ≡ some j
present-named o j h = ground arith

pub after_finally-runs :
    {W : Type 0} (x : External W) (c : String) (a b : Result WorkerError (Unit {0})) (s : System W)
    → (after_finally x c a (b, s)).1 ≡ s
after_finally-runs x c a (ok _) s = refl
after_finally-runs x c a (err e) s = refl

module _ {W : Type 0} (x : External W) {P : List WorkflowRun → Type 0} where
  ack_if-OnRuns :
      (c : String) (b : Bool) (m : StreamMessage) (g : String)
      → Keeps (OnRuns P) Any (ack_if x c b m g)
  ack_if-OnRuns c true m g = search (keeps_rules, xack-OnRuns) depth 10
  ack_if-OnRuns c false m g = search keeps_rules

  -- The `finally` clause keeps every property of the runs.
  pub finish-OnRuns :
      (c : String) (m : StreamMessage) (g st : String) (o : Option String)
      → Keeps (OnRuns P) Any (finish x c m g st o)
  unfolding finish
  finish-OnRuns c m g st o =
      search (keeps_rules, record_processed_message-OnRuns, ack_if-OnRuns) depth 10

module _ {W : Type 0} (x : External W) {k : String} {rows : List WorkflowRun} where
  fail_run-Touches :
      (o : Option String) (m : StreamMessage) (t : String)
      → ((j : String) → o ≡ some j → j ≡ k)
      → Keeps (OnRuns (Touches k rows)) Any (fail_run x o m t)
  fail_run-Touches none m t e = search keeps_rules
  fail_run-Touches (some j) m t e =
      let same_id : j ≡ k = e j refl in search (keeps_rules, mark_failed-Touches) depth 10

  on_error-Touches :
      (m : StreamMessage) (r : WorkerError)
      → Names m k
      → Keeps (OnRuns (Touches k rows)) Any (on_error x m r)
  unfolding on_error
  on_error-Touches m r e =
      Keeps-bind-Any (publish_dead_letter x m (x.error_text r))
        (λ _. fail_run x (workflow_id_of m) m (x.error_text r))
        (publish_dead_letter-OnRuns x m (x.error_text r))
        (λ _.
          fail_run-Touches (workflow_id_of m) m (x.error_text r)
            (λ j p. e.only j (present-named (get_field "workflow_id" m.fields) j p)))

  rescue-Touches :
      (r : Result WorkerError (Unit {0})) (m : StreamMessage)
      → Names m k
      → Keeps (OnRuns (Touches k rows)) Any (rescue x r m)
  rescue-Touches (ok a) m e = search keeps_rules
  rescue-Touches (err r) m e = on_error-Touches m r e

  -- The whole handling of a message, with its `except` and its `finally`.
  process_message-Touches :
      (c : String) (m : StreamMessage) (g : String) (handler : StreamMessage → Work W (Unit {0}))
      → Names m k
      → Keeps (OnRuns (Touches k rows)) Any (handler m)
      → (s : System W) → OnRuns (Touches k rows) s
      → OnRuns (Touches k rows) (process_message x c m g handler s).1
  unfolding process_message
  process_message-Touches c m g handler e kh s h =
      let (r, s₁) = handler m s in
      let (raised, s₂) = rescue x r m s₁ in
      let (final, s₃) = finish x c m g (outcome_status r) (outcome_error x r) s₂ in
      rw (after_finally-runs x c raised final s₃)
        ((finish-OnRuns x c m g (outcome_status r) (outcome_error x r)).at s₂
          ((rescue-Touches r m e).at s₁ (kh.at s h).0).0).0

-- A row that is touched by updates of another one is the same row.
Touches-other :
    (k j : String) {rows rows' : List WorkflowRun}
    → k ≢ j
    → Touches k rows rows'
    → find_row run_key j rows' ≡ find_row run_key j rows
Touches-other k j ne same = refl
Touches-other k j ne (touch {rows' = mid} h t us) = ground (
  arith,
  eq_iff k j,
  find_row-update_rows run_key k j (apply_updates t us) mid (apply_updates-id t us),
  Touches-other k j ne h,
)

-- Handling a command, whether it succeeds, fails or raises, leaves every workflow run but the
-- one that the message names exactly as it was.
pub process_message_isolation :
    {W : Type 0} (x : External W) (c : String) (m : StreamMessage) (g k j : String) (s : System W)
    → Names m k
    → k ≢ j
    → find_row run_key j (process_message x c m g (handle_command x) s).1.runs
      ≡ find_row run_key j s.runs
process_message_isolation x c m g k j s e ne =
    Touches-other k j ne
      (process_message-Touches x c m g (handle_command x) e (handle_command-Touches x m e) s
        (record { rows = same })).rows

-- What a run is and whose it is: the columns that no update can set.
pub record SameRun (a b : WorkflowRun) : Type 0 where
  pub id : a.id ≡ b.id
  pub workflow_type : a.workflow_type ≡ b.workflow_type
  pub user_id : a.user_id ≡ b.user_id
  pub user_email : a.user_email ≡ b.user_email
  pub correlation_id : a.correlation_id ≡ b.correlation_id
  pub idempotency_key : a.idempotency_key ≡ b.idempotency_key
  pub catalog_item_id : a.catalog_item_id ≡ b.catalog_item_id
  pub quantity : a.quantity ≡ b.quantity
  pub created_at : a.created_at ≡ b.created_at

SameRun-update : (u : Update) (a b : WorkflowRun) → SameRun a b → SameRun (apply_update u a) b
SameRun-update (Update.set_order_id v) a b h = ground arith
SameRun-update _ a b h = ground arith

SameRun-updates :
    (t : Time) (us : List Update) (a b : WorkflowRun)
    → SameRun a b
    → SameRun (apply_updates t us a) b
SameRun-updates t [] a b h = ground arith
SameRun-updates t (u ∷ us) a b h =
    SameRun-updates t us (apply_update u a) b (SameRun-update u a b h)

SameRun-refl : (a : WorkflowRun) → SameRun a a
SameRun-refl a = ground arith

pub Touches-SameRun :
    (k j : String) {rows rows' : List WorkflowRun} (r : WorkflowRun)
    → Touches k rows rows'
    → find_row run_key j rows ≡ some r
    → (r' : WorkflowRun) × (find_row run_key j rows' ≡ some r') × SameRun r' r
Touches-SameRun k j r same e = (r, e, SameRun-refl r)
Touches-SameRun k j r (touch {rows' = mid} h t us) e =
    let (r', e', keep) = Touches-SameRun k j r h e in
    let law = find_row-update_rows run_key k j (apply_updates t us) mid (apply_updates-id t us) in
    elim (Bool-cases (k == j)) [
      | inl yes_ ↦
          (apply_updates t us r', ground (arith, law, yes_, e'), SameRun-updates t us r' r keep)
      | inr no_ ↦ (r', ground (arith, law, no_, e'), keep)
    ]

Names-self : (m : StreamMessage) → Names m (or_else (get_field "workflow_id" m.fields) "")
Names-self m = record { only = λ j e. rw e }

-- Whatever command is handled, and however that ends, no run is lost, and no run changes its id,
-- type, owner, correlation id, idempotency key, item, quantity or time of creation.
pub process_message_identity :
    {W : Type 0} (x : External W) (c : String) (m : StreamMessage) (g j : String) (r : WorkflowRun)
    (s : System W)
    → find_row run_key j s.runs ≡ some r
    → (r' : WorkflowRun) × (find_row run_key j (process_message x c m g (handle_command x) s).1.runs
        ≡ some r')
      × SameRun r' r
process_message_identity x c m g j r s e =
    let k = or_else (get_field "workflow_id" m.fields) "" in
    Touches-SameRun k j r
      (process_message-Touches x c m g (handle_command x) (Names-self m)
        (handle_command-Touches x m (Names-self m)) s (record { rows = same })).rows
      e
