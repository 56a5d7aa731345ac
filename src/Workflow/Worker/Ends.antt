-- ===== src/Workflow/Worker/Ends.antt =====
-- What holds when an action of the worker returns: rules that follow a handler to its last update.
use retail_ops_microservices.Base.{
  String, ◌≡◌, refl, ◌∙◌, inl, inr, Bool, true, false, some, List, arith, Option-cases, Bool-cases,
  if◌then◌else◌, Time, eq_iff, eq_refl, ◌==◌,
}
use retail_ops_microservices.Base.Exec.{Result, ok, err, raise, continue, ◌>>=◌}
use retail_ops_microservices.Base.Rows.{find_row, find_row-key, find_row-update_rows, update_rows}
use retail_ops_microservices.Workflow.Status.{WorkflowStatus}
use retail_ops_microservices.Workflow.Types.{WorkflowRun, StreamMessage}
use retail_ops_microservices.Workflow.Contracts.{get_field}
use retail_ops_microservices.Workflow.External.{External, WorkerError}
use retail_ops_microservices.Workflow.System.{System, Work}
use retail_ops_microservices.Workflow.Repository.{Update, run_key, apply_updates, update_workflow}
use retail_ops_microservices.Workflow.Worker.Calls.{require_workflow, field_or_raise}
use retail_ops_microservices.Workflow.Worker.Keeps.{Keeps, Any}
use retail_ops_microservices.Workflow.Worker.Frame.{
  OnRuns, apply_updates-id, require_workflow-cases, update_workflow-cases, this_moment, ticked,
}
use retail_ops_microservices.Workflow.Worker.Touches.{Names}

-- The row `k` is there, with a status in `S`.
pub data Shows (k : String) (S : WorkflowStatus → Type 0) (rows : List WorkflowRun) : Type 0 where
  shows : (run : WorkflowRun) → find_row run_key k rows ≡ some run → S run.status → Shows k S rows

abbrev pub Ended : {W A : Type 0} → (System W → Type 0) → Result WorkerError A → System W → Type 0
Ended P (ok a) s = P s
Ended P (err e) s = Unit

-- If the action returns, the state has `P`.
pub record Ends {W A : Type 0} (P : System W → Type 0) (m : Work W A) : Type 0 where
  pub at : (s : System W) → Ended P (m s).0 (m s).1

module _ {W A : Type 0} {P : System W → Type 0} where
  pub Ends-raise : (e : WorkerError) → Ends {A = A} P (raise e)
  Ends-raise e = record { at = λ s. tt }

  pub Ends-if : (b : Bool) (m n : Work W A) → Ends P m → Ends P n → Ends P (if b then m else n)
  Ends-if true m n em en = em
  Ends-if false m n em en = en

  pub Ends-test :
      (t u : String) (m n : Work W A)
      → (t ≡ u → Ends P m)
      → Ends P n
      → Ends P (if t == u then m else n)
  Ends-test t u m n em en = elim (Bool-cases (t == u)) [
    | inl same ↦ rw same (em (ground (arith, eq_iff t u)))
    | inr other ↦ rw other en
  ]

module _ {W A B : Type 0} {P : System W → Type 0} where
  continue-Ends :
      (f : A → Work W B)
      → ((a : A) → Ends P (f a))
      → (r : Result WorkerError A) (s : System W) → Ended P (continue r f s).0 (continue r f s).1
  continue-Ends f ef (ok a) s = (ef a).at s
  continue-Ends f ef (err e) s = tt

  pub Ends-bind : (m : Work W A) (f : A → Work W B) → ((a : A) → Ends P (f a)) → Ends P (m >>= f)
  unfolding ◌>>=◌
  Ends-bind m f ef = record { at = λ s. continue-Ends f ef (m s).0 (m s).1 }

  continue-kept :
      (f : A → Work W B)
      → ((a : A) → Keeps P Any (f a))
      → (r : Result WorkerError A) (s : System W) → Ended P r s
      → Ended P (continue r f s).0 (continue r f s).1
  continue-kept f kf (ok a) s h = ended (f a s).0 (f a s).1 ((kf a).at s h).0
    where
      ended : (r : Result WorkerError B) (s' : System W) → P s' → Ended P r s'
      ended (ok b) s' p = p
      ended (err e) s' p = tt
  continue-kept f kf (err e) s h = tt

  -- What holds at the end of the first part holds at the end of the whole.
  pub Ends-then :
      (m : Work W A) (f : A → Work W B)
      → Ends P m
      → ((a : A) → Keeps P Any (f a))
      → Ends P (m >>= f)
  unfolding ◌>>=◌
  Ends-then m f em kf = record { at = λ s. continue-kept f kf (m s).0 (m s).1 (em.at s) }

module _ {W B : Type 0} {k : String} {P : System W → Type 0} where
  pub Ends-field :
      (m : StreamMessage) (f : String → Work W B)
      → Names m k
      → ((v : String) → v ≡ k → Ends P (f v))
      → Ends P (field_or_raise "workflow_id" m >>= f)
  unfolding field_or_raise ◌>>=◌
  Ends-field m f e ef = record {
    at = λ s. elim (Option-cases (get_field "workflow_id" m.fields)) [
      | inl missing ↦ rw (missing, field_or_raise) tt
      | inr (j, named) ↦ rw (named, field_or_raise) ((ef j (e.only j named)).at s)
    ];
  }

module _ {W B : Type 0} {k : String} (x : External W) where
  pub Ends-require :
      {P : System W → Type 0} (j : String) (f : WorkflowRun → Work W B)
      → j ≡ k
      → ((r : WorkflowRun) → r.id ≡ k → Ends P (f r))
      → Ends P (require_workflow x j >>= f)
  unfolding ◌>>=◌
  Ends-require j f e ef = record {
    at = λ s. elim (require_workflow-cases x j s) [
      | inl (e', raised) ↦ rw raised tt
      | inr (r, found, returned) ↦
          rw returned ((ef r (find_row-key run_key j s.runs r found ∙ e)).at s)
    ];
  }

  -- An update that is not the last.
  pub Ends-update :
      {P : System W → Type 0} (j : String) (us : List Update) (f : WorkflowRun → Work W B)
      → j ≡ k
      → ((r : WorkflowRun) → r.id ≡ k → Ends P (f r))
      → Ends P (update_workflow x j us >>= f)
  unfolding ◌>>=◌
  Ends-update j us f e ef = record {
    at = λ s. elim (update_workflow-cases x j s us) [
      | inl (e', raised) ↦ rw raised tt
      | inr (r, found, returned) ↦ rw returned (
          (ef (apply_updates (this_moment x j s) us r) (
              apply_updates-id (this_moment x j s) us r
              ∙ find_row-key run_key j s.runs r found
              ∙ e)).at
            (record (ticked x j s) {
              runs = update_rows run_key j (apply_updates (this_moment x j s) us) s.runs;
            }))
    ];
  }

  -- The last update: what follows leaves the rows alone.
  pub Ends-last :
      {S : WorkflowStatus → Type 0} (j : String) (us : List Update) (f : WorkflowRun → Work W B)
      → j ≡ k
      → ((t : Time) (r : WorkflowRun) → S (apply_updates t us r).status)
      → ((r : WorkflowRun) → Keeps (OnRuns (Shows k S)) Any (f r))
      → Ends (OnRuns (Shows k S)) (update_workflow x j us >>= f)
  Ends-last j us f e shown kf =
      Ends-then (update_workflow x j us) f
        (record {
          at = λ s. elim (update_workflow-cases x j s us) [
            | inl (e', raised) ↦ rw raised tt
            | inr (r, found, returned) ↦
                let t = this_moment x j s in
                let law =
                  find_row-update_rows run_key j j (apply_updates t us) s.runs
                    (apply_updates-id t us) in
                rw (returned, ← e)
                  (record {
                    rows =
                        shows (apply_updates t us r) (law ∙ rw (eq_refl j, found) refl) (shown t r);
                  })
          ];
        })
        kf

pub ruleset ends_rules = (Ends-raise, Ends-if, Ends-field, Ends-require, Ends-last, Ends-update)
