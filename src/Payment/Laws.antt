-- ===== src/Payment/Laws.antt =====
-- What the endpoints of payment-service return and store.
use mathlib.Core.Path.{subst}
use retail_ops_microservices.Base.{
  ap, ◌&&◌, not, is_some, Bool-cases, present, or_else, ℕ, ◌<◌, ◌≡◌, ◌⊎◌, refl, inl, inr, true,
  Option, none, some, ◌∷◌, String, arith, ◌==◌, eq_iff, eq_refl, Option-cases,
}
use retail_ops_microservices.Base.Exec.{Result, ok, err}
use retail_ops_microservices.Base.Int.{ℤ, pos, positive}
use retail_ops_microservices.Base.Rows.{All, find_row}
use retail_ops_microservices.Http.{HttpError, unprocessable, server_error}
use retail_ops_microservices.Payment.Provider.{
  process_payment, failure_details, scenario_from_request,
}
use retail_ops_microservices.Payment.Types.{
  Payment, CreatePayment, CreatePaymentRequest, PaymentDb, Stamp,
}
use retail_ops_microservices.Payment.Repository
use retail_ops_microservices.Payment.Repository.{
  payment_key, payment_id, new_payment, find_payment_by_id, fits_columns,
}
use retail_ops_microservices.Payment.Service.{
  is_scenario, validate_payment, provider_request, to_store, create_payment, get_payment,
}

abbrev Outcome : Type 0
Outcome = Result HttpError Payment × PaymentDb

-- A payment is completed and carries no failure, or it failed and carries a code and a reason.
pub data Settled (p : Payment) : Type 0 where
  completed :
      p.status ≡ "completed"
      → p.provider_scenario ≡ some "success"
      → p.failure_code ≡ none
      → p.failure_reason ≡ none
      → Settled p
  failed :
      (code reason : String)
      → p.status ≡ "failed"
      → p.failure_code ≡ some code
      → p.failure_reason ≡ some reason
      → Settled p

-- The row that a call stores for an acceptable body.
abbrev pub stored : Stamp → CreatePaymentRequest → ℕ → Payment
stored t r amount =
    new_payment t (
      to_store r amount
        (process_payment t.processed_at t.reference_hex (provider_request r amount)))

abbrev made_of : Stamp → CreatePaymentRequest → ℕ → CreatePayment
made_of t r amount =
    to_store r amount (process_payment t.processed_at t.reference_hex (provider_request r amount))

-- A call raises and stores nothing, or it stores one row for an acceptable body and returns it.
create_payment-cases :
    (t : Stamp) (r : CreatePaymentRequest) (db : PaymentDb)
    → ((e : HttpError) × (create_payment t r db ≡ (err e, db)))
      ⊎ ((amount : ℕ) × (validate_payment r ≡ some amount)
          × (create_payment t r db ≡ (ok (stored t r amount), stored t r amount ∷ db)))
unfolding create_payment Repository.create_payment
create_payment-cases t r db = elim (Option-cases (validate_payment r)) [
  | inl refused ↦ inl (unprocessable, rw (refused, create_payment))
  | inr (amount, e) ↦
      elim (Bool-cases (
        fits_columns (made_of t r amount)
        && not (is_some (find_row payment_key (payment_id t) db)))) [
          | inl fits ↦ inr (amount, e, ground (arith, e))
          | inr unfit ↦ inl (server_error, ground (arith, e))
        ]
]

-- The scenarios that fail, each with its code and its default reason.
pub data Failing : String → String → String → Type 0 where
  insufficient_funds :
      Failing "insufficient_funds" "INSUFFICIENT_FUNDS"
        "Local payment failed because of insufficient funds"
  provider_unavailable :
      Failing "provider_unavailable" "PROVIDER_UNAVAILABLE" "Local payment provider is unavailable"
  suspected_fraud :
      Failing "suspected_fraud" "SUSPECTED_FRAUD"
        "Local payment was blocked by suspected fraud scenario"

-- What a request with a scenario gets: completed without a failure, for no scenario or `success`;
-- or failed, with the code of the scenario, and the reason of the request or else the scenario's.
pub data ScenarioOutcome (r : CreatePaymentRequest) (p : Payment) : Type 0 where
  paid :
      (r.mock_scenario ≡ none) ⊎ (r.mock_scenario ≡ some "success")
      → p.status ≡ "completed"
      → p.failure_code ≡ none
      → p.failure_reason ≡ none
      → ScenarioOutcome r p
  unpaid :
      (scenario code reason : String)
      → Failing scenario code reason
      → r.mock_scenario ≡ some scenario
      → p.status ≡ "failed"
      → p.failure_code ≡ some code
      → p.failure_reason ≡ some (or_else (present r.failure_reason) reason)
      → ScenarioOutcome r p

scenario-cases :
    (m : Option String)
    → is_scenario m ≡ true
    → ((m ≡ none) ⊎ (m ≡ some "success"))
      ⊎ ((scenario code reason : String) × Failing scenario code reason × (m ≡ some scenario))
scenario-cases none h = inl (inl refl)
scenario-cases (some s) h = elim (Bool-cases (s == "success")) [
  | inl e ↦ inl (inr (ap some ((eq_iff s "success").0 e)))
  | inr a ↦ elim (Bool-cases (s == "insufficient_funds")) [
    | inl e ↦ inr (_, _, _, insufficient_funds, ap some ((eq_iff s "insufficient_funds").0 e))
    | inr b ↦ elim (Bool-cases (s == "provider_unavailable")) [
      | inl e ↦ inr (_, _, _, provider_unavailable, ap some ((eq_iff s "provider_unavailable").0 e))
      | inr c ↦
          inr (_, _, _, suspected_fraud, ap some ((eq_iff s "suspected_fraud").0 (ground arith)))
    ]
  ]
]

validate_payment-scenario :
    (r : CreatePaymentRequest) (n : ℕ)
    → validate_payment r ≡ some n
    → is_scenario r.mock_scenario ≡ true
unfolding validate_payment
validate_payment-scenario r n h = ground arith

stored_refused :
    (t : Stamp) (r : CreatePaymentRequest) (amount : ℕ) (scenario code reason : String)
    → Failing scenario code reason
    → r.mock_scenario ≡ some scenario
    → ScenarioOutcome r (stored t r amount)
unfolding process_payment failure_details
stored_refused t r amount _ _ _ insufficient_funds e =
    unpaid _ _ _ insufficient_funds e (rw e refl) (rw e refl) (rw e refl)
stored_refused t r amount _ _ _ provider_unavailable e =
    unpaid _ _ _ provider_unavailable e (rw e refl) (rw e refl) (rw e refl)
stored_refused t r amount _ _ _ suspected_fraud e =
    unpaid _ _ _ suspected_fraud e (rw e refl) (rw e refl) (rw e refl)

stored-ScenarioOutcome :
    (t : Stamp) (r : CreatePaymentRequest) (amount : ℕ)
    → validate_payment r ≡ some amount
    → ScenarioOutcome r (stored t r amount)
unfolding process_payment
stored-ScenarioOutcome t r amount valid =
    elim (scenario-cases r.mock_scenario (validate_payment-scenario r amount valid)) [
      | inl (inl e) ↦ paid (inl e) (rw e refl) (rw e refl) (rw e refl)
      | inl (inr e) ↦ paid (inr e) (rw e refl) (rw e refl) (rw e refl)
      | inr (scenario, code, reason, failing, e) ↦
          stored_refused t r amount scenario code reason failing e
    ]

-- A payment that is created was asked for without a scenario or with one of the four. Without one
-- and with `success` it is completed without a failure; with any other it failed with the code of
-- that scenario, and with the reason of the request or else the scenario's own.
pub create_payment_outcome :
    (t : Stamp) (r : CreatePaymentRequest) (db : PaymentDb) (p : Payment)
    → (create_payment t r db).0 ≡ ok p
    → ScenarioOutcome r p
create_payment_outcome t r db p h = elim (create_payment-cases t r db) [
  | inl (e, raised) ↦ cc (ap (λ (x : Outcome). x.0) raised)
  | inr (amount, valid, made) ↦
      let same : stored t r amount ≡ p = ground (arith, ap (λ (x : Outcome). x.0) made) in
      subst (ScenarioOutcome r) same (stored-ScenarioOutcome t r amount valid)
]

stored-Settled : (t : Stamp) (r : CreatePaymentRequest) (amount : ℕ) → Settled (stored t r amount)
unfolding process_payment
stored-Settled t r amount =
    let scenario = scenario_from_request r.mock_scenario in
    elim (Bool-cases (scenario == "success")) [
      | inl yes_ ↦
          completed (rw yes_) (ground (arith, eq_iff scenario "success")) (rw yes_) (rw yes_)
      | inr no_ ↦
          failed (failure_details scenario).0
            (or_else (present r.failure_reason) (failure_details scenario).1) (rw no_) (rw no_)
            (rw no_)
    ]

-- If every stored payment is settled, every one is after a call, whatever was requested.
create_payment-Settled :
    (t : Stamp) (r : CreatePaymentRequest) (db : PaymentDb)
    → All Settled db
    → All Settled (create_payment t r db).1
create_payment-Settled t r db h = elim (create_payment-cases t r db) [
  | inl (e, raised) ↦ rw raised h
  | inr (amount, valid, made) ↦ rw made (stored-Settled t r amount, h)
]

positive-pos : (z : ℤ) (n : ℕ) → positive z ≡ some n → (pos n ≡ z) × (0 < n)
positive-pos z n h = ground arith

validate_payment-amount :
    (r : CreatePaymentRequest) (n : ℕ)
    → validate_payment r ≡ some n
    → (pos n ≡ r.amount_kopecks) × (0 < n)
unfolding validate_payment
validate_payment-amount r n h = ground (arith, positive-pos r.amount_kopecks n)

-- A created payment can be fetched under its id, and holds the order and the amount of the
-- request, which is positive.
pub get_payment-create_payment :
    (t : Stamp) (r : CreatePaymentRequest) (db : PaymentDb) (p : Payment)
    → (create_payment t r db).0 ≡ ok p
    → (get_payment p.id (create_payment t r db).1 ≡ ok p)
      × (p.order_id ≡ r.order_id)
      × (pos p.amount_kopecks ≡ r.amount_kopecks)
      × (0 < p.amount_kopecks)
unfolding get_payment find_payment_by_id find_row
get_payment-create_payment t r db p h = elim (create_payment-cases t r db) [
  | inl (e, raised) ↦ cc (ap (λ (x : Outcome). x.0) raised)
  | inr (amount, valid, made) ↦
      let same : stored t r amount ≡ p = ground (arith, ap (λ (x : Outcome). x.0) made) in
      rw (made, ← same)
        (
          ground (arith, eq_refl (payment_id t)),
          refl,
          (validate_payment-amount r amount valid).0,
          (validate_payment-amount r amount valid).1,
        )
]

-- A call that raises has stored nothing.
create_payment_atomic :
    (t : Stamp) (r : CreatePaymentRequest) (db : PaymentDb) (e : HttpError)
    → (create_payment t r db).0 ≡ err e
    → (create_payment t r db).1 ≡ db
create_payment_atomic t r db e h = elim (create_payment-cases t r db) [
  | inl (f, raised) ↦ rw raised
  | inr (amount, valid, made) ↦ cc (ap (λ (x : Outcome). x.0) made)
]
