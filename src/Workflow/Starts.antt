-- ===== src/Workflow/Starts.antt =====
-- `start_order_checkout_workflow` of workflow-service, with its idempotency key.
use retail_ops_microservices.Base.{
  ℕ, String, ◌≡◌, ◌⊎◌, refl, inl, inr, ap, sym, ◌∙◌, Bool, false, none, some, List, [], ◌∷◌,
  eq_refl, arith, present, is_some, Option-cases, Time,
}
use retail_ops_microservices.Base.Exec.{Result, ok, err}
use retail_ops_microservices.Base.Int.{positive}
use retail_ops_microservices.Base.Rows.{select, select_first}
use retail_ops_microservices.Base.Sort.{order_by, insert_by}
use retail_ops_microservices.Http.{HttpError}
use retail_ops_microservices.Workflow.Status.{accepted}
use retail_ops_microservices.Workflow.Types.{WorkflowRun, CreateWorkflowRun, Fields}
use retail_ops_microservices.Workflow.Contracts.{workflow_commands_stream, get_field}
use retail_ops_microservices.Workflow.External.{External}
use retail_ops_microservices.Workflow.System.{System}
use retail_ops_microservices.Workflow.Repository.{
  new_run, is_taken, has_key, find_by_idempotency_key,
}
use retail_ops_microservices.Workflow.Service.{
  StartOrderWorkflowRequest, WorkflowAcceptedResponse, accepted_response, new_workflow, start_new,
  responded, start_order_checkout_workflow,
}
use retail_ops_microservices.Workflow.Requests.{NamesNewRun, start_new-cases}

select_first-none :
    {A : Type 0} (test : A → Bool) (rows : List A)
    → is_some (select_first test rows) ≡ false
    → select test rows ≡ []
unfolding select_first select
select_first-none test [] h = refl
select_first-none test (a ∷ rows) h = ground (arith, select_first-none test rows)

module _ {W : Type 0} (x : External W) where
  start-found :
      (r : StartOrderWorkflowRequest) (q : ℕ) (run : WorkflowRun) (s : System W)
      → positive r.quantity ≡ some q
      → find_by_idempotency_key r.user_id r.idempotency_key s ≡ some run
      → start_order_checkout_workflow x r s ≡ (ok (accepted_response run), s)
  unfolding start_order_checkout_workflow
  start-found r q run s e found = rw (start_order_checkout_workflow, e, found)

module _ {W : Type 0} (x : External W) where
  -- A row whose key was free is the one that its key finds.
  new_run-found :
      (r : CreateWorkflowRun) (k id : String) (t : Time) (s s' : System W)
      → present r.idempotency_key ≡ some k
      → is_taken r.user_id r.idempotency_key s.runs ≡ false
      → s'.runs ≡ new_run id t r ∷ s.runs
      → find_by_idempotency_key r.user_id r.idempotency_key s' ≡ some (new_run id t r)
  unfolding find_by_idempotency_key select order_by insert_by select_first
  new_run-found r k id t s s' e free same =
      let own : r.idempotency_key ≡ some k = ground arith in
      let alone : select (has_key r.user_id k) s.runs ≡ [] =
        select_first-none (has_key r.user_id k) s.runs (rw own at free) in
      ground (arith, own, alone, same, eq_refl r.user_id, eq_refl k)

  start-cases :
      (r : StartOrderWorkflowRequest) (q : ℕ) (s : System W)
      → positive r.quantity ≡ some q
      → ((run : WorkflowRun) × (find_by_idempotency_key r.user_id r.idempotency_key s ≡ some run)
          × (start_order_checkout_workflow x r s ≡ (ok (accepted_response run), s)))
        ⊎ ((find_by_idempotency_key r.user_id r.idempotency_key s ≡ none)
            × (start_order_checkout_workflow x r s ≡ responded (start_new x (new_workflow r q) s)))
  unfolding start_order_checkout_workflow
  start-cases r q s e =
      elim (Option-cases (find_by_idempotency_key r.user_id r.idempotency_key s)) [
        | inl none_ ↦ inr (none_, rw (start_order_checkout_workflow, e, none_))
        | inr (run, found) ↦ inl (run, found, rw (start_order_checkout_workflow, e, found))
      ]

  abbrev Started : Type 0
  Started = Result HttpError WorkflowAcceptedResponse × System W

  -- A start that is answered has changed nothing; or it has stored a new run of that user and
  -- quantity, with the status `accepted`, and sent exactly one command, an `order.create` that
  -- names the run.
  pub start_order_checkout_workflow-done :
      (r : StartOrderWorkflowRequest) (q : ℕ) (s s' : System W) (a : WorkflowAcceptedResponse)
      → positive r.quantity ≡ some q
      → start_order_checkout_workflow x r s ≡ (ok a, s')
      → (s' ≡ s)
        ⊎ ((run : WorkflowRun) × (fields : Fields) × (a ≡ accepted_response run)
            × (s'.runs ≡ run ∷ s.runs)
            × (run.status ≡ accepted)
            × (run.user_id ≡ r.user_id)
            × (run.quantity ≡ some q)
            × (s'.published
                ≡ record { stream = workflow_commands_stream; fields = fields } ∷ s.published)
            × (get_field "message_type" fields ≡ some "order.create")
            × (get_field "workflow_id" fields ≡ some run.id))
  start_order_checkout_workflow-done r q s s' a e h = elim (start-cases r q s e) [
    | inl (run, found, same) ↦ inl (ap (λ (p : Started). p.1) (sym h ∙ same))
    | inr (absent, new) ↦ elim (start_new-cases x (new_workflow r q) s) [
      | inl (e', w, failed) ↦ let bad = sym h ∙ new ∙ ap responded failed in cc
      | inr (id, t, w, fields, free, named, inr (inl (e', failed))) ↦
          let bad = sym h ∙ new ∙ ap responded failed in cc
      | inr (id, t, w, fields, free, named, inr (inr (e', failed))) ↦
          let bad = sym h ∙ new ∙ ap responded failed in cc
      | inr (id, t, w, fields, free, (named, owner), inl done) ↦
          let both = sym h ∙ new ∙ ap responded done in
          let same : a ≡ accepted_response (new_run id t (new_workflow r q)) = cc in
          inr (
            new_run id t (new_workflow r q),
            fields,
            same,
            ap (λ (p : Started). p.1.runs) both,
            refl,
            refl,
            refl,
            ap (λ (p : Started). p.1.published) both,
            named,
            owner,
          )
    ]
  ]

  -- A start that was answered and is asked for again with the same user and the same key, which is
  -- not empty, gives the same answer, and changes nothing: no run is made and no command is sent.
  pub start_order_checkout_workflow-repeat :
      (r r' : StartOrderWorkflowRequest) (q q' : ℕ) (k : String) (s s' : System W)
      (a : WorkflowAcceptedResponse)
      → positive r.quantity ≡ some q
      → positive r'.quantity ≡ some q'
      → present r.idempotency_key ≡ some k
      → (r'.user_id ≡ r.user_id) × (r'.idempotency_key ≡ r.idempotency_key)
      → start_order_checkout_workflow x r s ≡ (ok a, s')
      → start_order_checkout_workflow x r' s' ≡ (ok a, s')
  start_order_checkout_workflow-repeat r r' q q' k s s' a e e' key (eu, ek) h =
      elim (start-cases r q s e) [
        | inl (run, found, same) ↦
            let both = sym same ∙ h in
            let back : s ≡ s' = ap (λ (p : Started). p.1) both in
            let answered : accepted_response run ≡ a = cc in
            start-found x r' q' run s' e' (rw (eu, ek, ← back) found)
            ∙ ap (λ b. (ok b, s')) answered
        | inr (absent, new) ↦ elim (start_new-cases x (new_workflow r q) s) [
          | inl (e₁, w, failed) ↦ let bad = sym h ∙ new ∙ ap responded failed in cc
          | inr (id, t, w, fields, free, named, inr (inl (e₁, failed))) ↦
              let bad = sym h ∙ new ∙ ap responded failed in cc
          | inr (id, t, w, fields, free, named, inr (inr (e₁, failed))) ↦
              let bad = sym h ∙ new ∙ ap responded failed in cc
          | inr (id, t, w, fields, free, named, inl done) ↦
              let both = sym h ∙ new ∙ ap responded done in
              let run = new_run id t (new_workflow r q) in
              let answered : accepted_response run ≡ a = cc in
              let stored =
                new_run-found (new_workflow r q) k id t s s' key free
                  (ap (λ (p : Started). p.1.runs) both) in
              start-found x r' q' run s' e' (rw (eu, ek) stored) ∙ ap (λ b. (ok b, s')) answered
        ]
      ]

  -- A run was stored and nothing or its command was sent, and then a second start with the same
  -- body is accepted and changes nothing, whatever Redis does by then.
  abbrev pub StoredOnly : StartOrderWorkflowRequest → System W → System W → Type 0
  StoredOnly r s s' =
      (run : WorkflowRun) × (s'.runs ≡ run ∷ s.runs)
      × (run.status ≡ accepted)
      × ((s'.published ≡ s.published)
          ⊎ ((fields : Fields) × NamesNewRun x run.id fields
              × (s'.published
                  ≡ record { stream = workflow_commands_stream; fields = fields } ∷ s.published)))
      × ((x' : External W)
          → start_order_checkout_workflow x' r s' ≡ (ok (accepted_response run), s'))

  -- A start with a key that is not empty, which fails, has stored nothing and sent nothing; or it
  -- has stored a run and sent at most one command, an `order.create` that names the run, and then,
  -- whatever Redis does by then, a second start with the same body is accepted and sends nothing.
  pub start_order_checkout_workflow-failed :
      (r : StartOrderWorkflowRequest) (q : ℕ) (k : String) (s s' : System W) (e : HttpError)
      → positive r.quantity ≡ some q
      → present r.idempotency_key ≡ some k
      → start_order_checkout_workflow x r s ≡ (err e, s')
      → ((s'.runs ≡ s.runs) × (s'.published ≡ s.published)) ⊎ StoredOnly r s s'
  start_order_checkout_workflow-failed r q k s s' e valid key h = elim (start-cases r q s valid) [
    | inl (run, found, same) ↦ let bad = sym h ∙ same in cc
    | inr (absent, new) ↦ elim (start_new-cases x (new_workflow r q) s) [
      | inl (e₁, w, failed) ↦
          let both = sym h ∙ new ∙ ap responded failed in
          inl (ap (λ (p : Started). p.1.runs) both, ap (λ (p : Started). p.1.published) both)
      | inr (id, t, w, fields, free, named, inr (inl (e₁, failed))) ↦
          let both = sym h ∙ new ∙ ap responded failed in
          let run = new_run id t (new_workflow r q) in
          let stored = ap (λ (p : Started). p.1.runs) both in
          let found = new_run-found (new_workflow r q) k id t s s' key free stored in
          inr (
            run,
            stored,
            refl,
            inr (fields, named, ap (λ (p : Started). p.1.published) both),
            λ x'. start-found x' r q run s' valid found,
          )
      | inr (id, t, w, fields, free, named, inr (inr (e₁, failed))) ↦
          let both = sym h ∙ new ∙ ap responded failed in
          let run = new_run id t (new_workflow r q) in
          let stored = ap (λ (p : Started). p.1.runs) both in
          let found = new_run-found (new_workflow r q) k id t s s' key free stored in
          inr (
            run,
            stored,
            refl,
            inl (ap (λ (p : Started). p.1.published) both),
            λ x'. start-found x' r q run s' valid found,
          )
      | inr (id, t, w, fields, free, named, inl done) ↦
          let bad = sym h ∙ new ∙ ap responded done in cc
    ]
  ]
