-- ===== src/Workflow/PaymentRequests.antt =====
-- `request_order_payment` of workflow-service.
use retail_ops_microservices.Base.{
  String, ◌≡◌, ◌⊎◌, refl, inl, inr, ap, true, false, none, some, [], ◌∷◌, arith, Option-cases,
  Bool-cases,
}
use retail_ops_microservices.Base.Exec.{ok, err, ◌>>=◌}
use retail_ops_microservices.Http.{HttpError, not_found, unprocessable, conflict}
use retail_ops_microservices.Workflow.Status.{
  WorkflowStatus, awaiting_payment, is_awaiting_payment, is_terminal,
}
use retail_ops_microservices.Workflow.Types.{WorkflowRun, Fields}
use retail_ops_microservices.Workflow.Contracts.{
  workflow_commands_stream, payment_requested, command_fields, get_field, set_field, update_fields,
}
use retail_ops_microservices.Workflow.External.{External, WorkerError, AcceptsAll}
use retail_ops_microservices.Workflow.System.{System, new_id, now}
use retail_ops_microservices.Workflow.Repository.{find_by_order_for_user}
use retail_ops_microservices.Workflow.Service.{
  RequestPaymentRequest, accepted_response, payment_scenario_of, responded, send_payment_requested,
  request_order_payment,
}
use retail_ops_microservices.Workflow.Requests.{
  sent_command, send_command-cases, send_command-accepted,
}

-- A `payment.requested` command for the run, with the scenario.
abbrev pub NamesRun : WorkflowRun → String → Fields → Type 0
NamesRun run scenario fields =
    (get_field "message_type" fields ≡ some "payment.requested")
    × (get_field "workflow_id" fields ≡ some run.id)
    × (get_field "payment_scenario" fields ≡ some scenario)

module _ {W : Type 0} (x : External W) where
  -- The command that `send_payment_requested` writes.
  abbrev payment_requested_fields : WorkflowRun → RequestPaymentRequest → String → System W → Fields
  payment_requested_fields run r scenario s =
      let (id, w) = x.uuid s.outside in
      command_fields id (x.iso (x.now w).0) payment_requested run.id r.correlation_id none (
        ("user_id", some run.user_id)
        ∷ ("order_id", run.order_id)
        ∷ ("payment_scenario", some scenario)
        ∷ ("idempotency_key", r.idempotency_key)
        ∷ [])

  payment_requested_fields_names :
      (run : WorkflowRun) (r : RequestPaymentRequest) (scenario : String) (s : System W)
      → NamesRun run scenario (payment_requested_fields run r scenario s)
  unfolding command_fields update_fields set_field get_field
  payment_requested_fields_names run r scenario s = (refl, refl, refl)

  abbrev sent_request : WorkflowRun → RequestPaymentRequest → String → W → System W → System W
  sent_request run r scenario w s = sent_command x (payment_requested_fields run r scenario s) w s

  -- The command is sent, and the call returns, or raises after that; or it is not sent.
  send-cases :
      (run : WorkflowRun) (r : RequestPaymentRequest) (scenario : String) (s : System W)
      → ((w : W) × (send_payment_requested x run r scenario s
            ≡ (ok (accepted_response run), sent_request run r scenario w s)))
        ⊎ ((e : WorkerError) × (w : W) × (send_payment_requested x run r scenario s
              ≡ (err e, sent_request run r scenario w s)))
        ⊎ ((e : WorkerError) × (w : W) × (send_payment_requested x run r scenario s
              ≡ (err e, record s { outside = w })))
  unfolding ◌>>=◌ new_id now
  send-cases run r scenario s =
      elim (send_command-cases x (payment_requested_fields run r scenario s)
        (record s { outside = (x.now (x.uuid s.outside).1).1 })) [
          | inl (id, w, done) ↦ inl (w, rw done)
          | inr (inl (e, w, done)) ↦ inr (inl (e, w, rw done))
          | inr (inr (e, w, done)) ↦ inr (inr (e, w, rw done))
        ]

  sent-accepted :
      AcceptsAll x
      → (run : WorkflowRun) (r : RequestPaymentRequest) (scenario : String) (s : System W)
      → (w : W) × (send_payment_requested x run r scenario s
          ≡ (ok (accepted_response run), sent_request run r scenario w s))
  unfolding ◌>>=◌ new_id now
  sent-accepted all run r scenario s =
      let (id, w, done) =
        send_command-accepted x all (payment_requested_fields run r scenario s)
          (record s { outside = (x.now (x.uuid s.outside).1).1 }) in
      (w, rw done)

  awaiting-only :
      (status : WorkflowStatus) → is_awaiting_payment status ≡ true → status ≡ awaiting_payment
  awaiting-only awaiting_payment h = refl
  awaiting-only _ h = ground arith

  -- A request is refused and changes nothing, or it sends its command for a run that waits.
  request-cases :
      (o : String) (r : RequestPaymentRequest) (s : System W)
      → ((e : HttpError) × (request_order_payment x o r s ≡ (err e, s)))
        ⊎ ((scenario : String) × (run : WorkflowRun) × (find_by_order_for_user o r.user_id s
              ≡ some run)
            × (run.status ≡ awaiting_payment)
            × (request_order_payment x o r s
                ≡ responded (send_payment_requested x run r scenario s)))
  unfolding request_order_payment
  request-cases o r s = elim (Option-cases (payment_scenario_of r.payment_scenario)) [
    | inl bad ↦ inl (unprocessable, rw (request_order_payment, bad) refl)
    | inr (scenario, valid) ↦ elim (Option-cases (find_by_order_for_user o r.user_id s)) [
      | inl none_ ↦
          inl (not_found "Workflow not found", rw (request_order_payment, valid, none_) refl)
      | inr (run, found) ↦ elim (Bool-cases (is_terminal run.status)) [
        | inl terminal ↦ inl (
          conflict "Workflow is already terminal",
          rw (request_order_payment, valid, found, terminal) refl,
        )
        | inr live ↦ elim (Bool-cases (is_awaiting_payment run.status)) [
          | inr busy ↦ inl (
            conflict "Workflow is not awaiting payment",
            rw (request_order_payment, valid, found, live, busy) refl,
          )
          | inl waits ↦ inr (
            scenario,
            run,
            found,
            awaiting-only run.status waits,
            rw (request_order_payment, valid, found, live, waits) refl,
          )
        ]
      ]
    ]
  ]

  -- Whatever is answered, no run changes, and nothing is sent or one command is, for the user's
  -- latest run of that order, which waits for a payment.
  pub request_order_payment-keeps :
      (o : String) (r : RequestPaymentRequest) (s : System W)
      → let s' = (request_order_payment x o r s).1 in
        (s'.runs ≡ s.runs)
        × ((s'.published ≡ s.published)
            ⊎ ((run : WorkflowRun) × (scenario : String) × (fields : Fields)
                × (find_by_order_for_user o r.user_id s ≡ some run)
                × (run.status ≡ awaiting_payment)
                × NamesRun run scenario fields
                × (s'.published
                    ≡ record { stream = workflow_commands_stream; fields = fields } ∷ s.published)))
  request_order_payment-keeps o r s = elim (request-cases o r s) [
    | inl (e, refused) ↦ rw refused (refl, inl refl)
    | inr (scenario, run, found, waits, sent) ↦
        let fields = payment_requested_fields run r scenario s in
        let names = payment_requested_fields_names run r scenario s in
        elim (send-cases run r scenario s) [
          | inr (inr (e, w, failed)) ↦ rw (sent, failed) (refl, inl refl)
          | inr (inl (e, w, failed)) ↦
              rw (sent, failed) (refl, inr (run, scenario, fields, found, waits, names, refl))
          | inl (w, done) ↦
              rw (sent, done) (refl, inr (run, scenario, fields, found, waits, names, refl))
        ]
  ]

  request-accepted :
      AcceptsAll x
      → (o scenario : String) (r : RequestPaymentRequest) (run : WorkflowRun) (s : System W)
      → payment_scenario_of r.payment_scenario ≡ some scenario
      → find_by_order_for_user o r.user_id s ≡ some run
      → run.status ≡ awaiting_payment
      → (w : W) × (request_order_payment x o r s ≡ (
        ok (accepted_response run),
        record s {
          published =
              record {
                stream = workflow_commands_stream;
                fields = payment_requested_fields run r scenario s;
              }
              ∷ s.published;
          outside = w;
        },
      ))
  unfolding request_order_payment
  request-accepted all o scenario r run s valid found waits =
      let live : is_terminal run.status ≡ false = rw waits in
      let open_ : is_awaiting_payment run.status ≡ true = rw waits in
      let (w, done) = sent-accepted all run r scenario s in
      (w, rw (request_order_payment, valid, found, live, open_) (ap responded done))

  -- While the run waits for a payment, and Redis accepts every entry and closes its connections, two requests of its user are
  -- both accepted, and each sends its own command for the same run.
  pub request_order_payment-twice :
      AcceptsAll x
      → (o scenario scenario' : String) (r r' : RequestPaymentRequest) (run : WorkflowRun)
        (s : System W)
      → payment_scenario_of r.payment_scenario ≡ some scenario
      → payment_scenario_of r'.payment_scenario ≡ some scenario'
      → r'.user_id ≡ r.user_id
      → find_by_order_for_user o r.user_id s ≡ some run
      → run.status ≡ awaiting_payment
      → let (first, s₁) = request_order_payment x o r s in
        let (second, s₂) = request_order_payment x o r' s₁ in
        (first ≡ ok (accepted_response run))
        × (second ≡ ok (accepted_response run))
        × ((f : Fields) × (f' : Fields) × NamesRun run scenario f
            × NamesRun run scenario' f'
            × (s₂.published
                ≡ record { stream = workflow_commands_stream; fields = f' }
                  ∷ record { stream = workflow_commands_stream; fields = f }
                  ∷ s.published))
  unfolding find_by_order_for_user
  request_order_payment-twice all o scenario scenario' r r' run s valid valid' same found waits =
      let (w, one) = request-accepted all o scenario r run s valid found waits in
      let f = payment_requested_fields run r scenario s in
      let s₁ = record s {
        published = record { stream = workflow_commands_stream; fields = f } ∷ s.published;
        outside = w;
      } in
      let (w', two) = request-accepted all o scenario' r' run s₁ valid' (rw same found) waits in
      rw one (
        rw two (
          refl,
          refl,
          (
            f,
            payment_requested_fields run r' scenario' s₁,
            payment_requested_fields_names run r scenario s,
            payment_requested_fields_names run r' scenario' s₁,
            refl,
          ),
        ))
