-- ===== src/Workflow/Requests.antt =====
-- The outcomes of the calls that workflow-service makes to start a checkout: the insertion of the
-- run, the command that follows it, and Redis's answer.
use mathlib.Core.Option
use retail_ops_microservices.Base.{
  String, ◌≡◌, ◌⊎◌, refl, inl, inr, false, none, some, [], ◌∷◌, is_some, Bool-cases, Option-cases,
  Time,
}
use retail_ops_microservices.Base.Exec.{ok, err, ◌>>=◌}
use retail_ops_microservices.Base.Rows.{find_row}
use retail_ops_microservices.Workflow.Types.{WorkflowRun, CreateWorkflowRun, Fields}
use retail_ops_microservices.Workflow.Contracts.{
  workflow_commands_stream, order_create, command_fields, get_field, set_field, update_fields,
}
use retail_ops_microservices.Workflow.External.{
  External, AcceptsAll, Appending, appended, refused, answer_lost, WorkerError, database_failed,
  redis_failed,
}
use retail_ops_microservices.Workflow.System.{System, new_id, now, xadd}
use retail_ops_microservices.Workflow.Repository.{
  run_key, new_run, create_workflow_run, is_taken, fits_run,
}
use retail_ops_microservices.Workflow.Service.{
  accepted_response, send_command, send_order_create, start_new,
}

Appending-cases :
    (a : Appending)
    → ((id : String) × (a ≡ appended id))
      ⊎ ((t : String) × (a ≡ refused t))
      ⊎ ((t : String) × (a ≡ answer_lost t))
Appending-cases (appended id) = inl (id, refl)
Appending-cases (refused t) = inr (inl (t, refl))
Appending-cases (answer_lost t) = inr (inr (t, refl))

module _ {W : Type 0} (x : External W) where
  abbrev pub sent_command : Fields → W → System W → System W
  sent_command fields w s = record s {
    published = record { stream = workflow_commands_stream; fields = fields } ∷ s.published;
    outside = w;
  }

  -- The entry is appended, and the call returns, or raises after that; or nothing is appended and
  -- the call raises.
  pub send_command-cases :
      (fields : Fields) (s : System W)
      → ((id : String) × (w : W) × (send_command x fields s ≡ (ok id, sent_command fields w s)))
        ⊎ ((e : WorkerError) × (w : W) × (send_command x fields s
              ≡ (err e, sent_command fields w s)))
        ⊎ ((e : WorkerError) × (w : W) × (send_command x fields s
              ≡ (err e, record s { outside = w })))
  unfolding send_command xadd
  send_command-cases fields s =
      let (r, w) = x.xadd workflow_commands_stream fields s.outside in
      elim (Option-cases (x.close w).0) [
        | inl closed ↦ elim (Appending-cases r) [
          | inl (id, e) ↦ inl (id, (x.close w).1, rw (send_command, xadd, e, closed) refl)
          | inr (inl (t, e)) ↦
              inr (inr (redis_failed t, (x.close w).1, rw (send_command, xadd, e, closed) refl))
          | inr (inr (t, e)) ↦
              inr (inl (redis_failed t, (x.close w).1, rw (send_command, xadd, e, closed) refl))
        ]
        | inr (text, open_) ↦ elim (Appending-cases r) [
          | inl (id, e) ↦
              inr (inl (redis_failed text, (x.close w).1, rw (send_command, xadd, e, open_) refl))
          | inr (inl (t, e)) ↦
              inr (inr (redis_failed text, (x.close w).1, rw (send_command, xadd, e, open_) refl))
          | inr (inr (t, e)) ↦
              inr (inl (redis_failed text, (x.close w).1, rw (send_command, xadd, e, open_) refl))
        ]
      ]

  pub send_command-accepted :
      AcceptsAll x
      → (fields : Fields) (s : System W)
      → (id : String) × (w : W) × (send_command x fields s ≡ (ok id, sent_command fields w s))
  unfolding send_command xadd
  send_command-accepted all fields s =
      let (r, w) = x.xadd workflow_commands_stream fields s.outside in
      let (id, e) = all.appends workflow_commands_stream fields s.outside in
      (id, (x.close w).1, rw (send_command, xadd, e, all.closes w) refl)

  -- A new row, if its key is free; else an error.
  create_workflow_run-cases :
      (r : CreateWorkflowRun) (s : System W)
      → ((e : WorkerError) × (w : W) × (create_workflow_run x r s
            ≡ (err e, record s { outside = w })))
        ⊎ ((id : String) × (t : Time) × (w : W) × (is_taken r.user_id r.idempotency_key s.runs
              ≡ false)
            × (create_workflow_run x r s
                ≡ (ok (new_run id t r), record s { runs = new_run id t r ∷ s.runs; outside = w })))
  unfolding create_workflow_run ◌>>=◌ new_id now
  create_workflow_run-cases r s =
      let (t, w) = x.now s.outside in
      let (id, w') = x.uuid w in
      elim (Bool-cases (fits_run (new_run id t r))) [
        | inr long ↦ inl (database_failed "value too long", w', rw (create_workflow_run, long))
        | inl fit ↦ elim (Bool-cases (is_some (find_row run_key id s.runs))) [
          | inl clash ↦
              inl (database_failed "duplicate key", w', rw (create_workflow_run, fit, clash))
          | inr free ↦ elim (Bool-cases (is_taken r.user_id r.idempotency_key s.runs)) [
            | inl taken ↦
                inl
                  (database_failed "duplicate key", w', rw (create_workflow_run, fit, free, taken))
            | inr open_ ↦ inr (id, t, w', open_, rw (create_workflow_run, fit, free, open_))
          ]
        ]
      ]

  -- The command that `send_order_create` writes.
  abbrev order_create_fields : WorkflowRun → System W → Fields
  order_create_fields run s =
      let (id, w) = x.uuid s.outside in
      command_fields id (x.iso (x.now w).0) order_create run.id run.correlation_id none (
        ("user_id", some run.user_id)
        ∷ ("catalog_item_id", run.catalog_item_id)
        ∷ ("quantity", Option.map x.decimal run.quantity)
        ∷ [])

  order_create_fields_names :
      (run : WorkflowRun) (s : System W)
      → (get_field "message_type" (order_create_fields run s) ≡ some "order.create")
        × (get_field "workflow_id" (order_create_fields run s) ≡ some run.id)
  unfolding command_fields update_fields set_field get_field
  order_create_fields_names run s = (refl, refl)

  -- The command's fields name the run.
  abbrev pub NamesNewRun : String → Fields → Type 0
  NamesNewRun id fields =
      (get_field "message_type" fields ≡ some "order.create")
      × (get_field "workflow_id" fields ≡ some id)

  send_order_create-cases :
      (run : WorkflowRun) (s : System W)
      → (fields : Fields) × NamesNewRun run.id fields
        × (((id : String) × (w : W) × (send_order_create x run s
                ≡ (ok id, sent_command fields w s)))
            ⊎ ((e : WorkerError) × (w : W) × (send_order_create x run s
                  ≡ (err e, sent_command fields w s)))
            ⊎ ((e : WorkerError) × (w : W) × (send_order_create x run s
                  ≡ (err e, record s { outside = w }))))
  unfolding ◌>>=◌ new_id now
  send_order_create-cases run s = (
    order_create_fields run s,
    order_create_fields_names run s,
    elim (send_command-cases (order_create_fields run s)
        (record s { outside = (x.now (x.uuid s.outside).1).1 })) [
          | inl (id, w, done) ↦ inl (id, w, done)
          | inr (inl (e, w, done)) ↦ inr (inl (e, w, done))
          | inr (inr (e, w, done)) ↦ inr (inr (e, w, done))
        ],
  )

  abbrev stored_run : String → Time → CreateWorkflowRun → W → System W → System W
  stored_run id t r w s = record s { runs = new_run id t r ∷ s.runs; outside = w }

  -- Nothing is stored and sent; or a new run is stored, and its command was sent and the call
  -- returns, or was sent and the call raises, or was not sent and the call raises.
  pub start_new-cases :
      (r : CreateWorkflowRun) (s : System W)
      → ((e : WorkerError) × (w : W) × (start_new x r s ≡ (err e, record s { outside = w })))
        ⊎ ((id : String) × (t : Time) × (w : W) × (fields : Fields) × (is_taken r.user_id
                r.idempotency_key s.runs
              ≡ false)
            × NamesNewRun id fields
            × ((start_new x r s ≡ (
              ok (accepted_response (new_run id t r)),
              sent_command fields w (stored_run id t r w s),
            ))
                ⊎ ((e : WorkerError) × (start_new x r s
                      ≡ (err e, sent_command fields w (stored_run id t r w s))))
                ⊎ ((e : WorkerError) × (start_new x r s ≡ (err e, stored_run id t r w s)))))
  unfolding ◌>>=◌
  start_new-cases r s = elim (create_workflow_run-cases r s) [
    | inl (e, w, failed) ↦ inl (e, w, rw failed)
    | inr (id, t, w, free, done) ↦
        let (fields, named, sending) =
          send_order_create-cases (new_run id t r) (stored_run id t r w s) in
        elim sending [
          | inl (m, w', sent) ↦ inr (id, t, w', fields, free, named, inl (rw (done, sent)))
          | inr (inl (e, w', failed)) ↦
              inr (id, t, w', fields, free, named, inr (inl (e, rw (done, failed))))
          | inr (inr (e, w', failed)) ↦
              inr (id, t, w', fields, free, named, inr (inr (e, rw (done, failed))))
        ]
  ]
