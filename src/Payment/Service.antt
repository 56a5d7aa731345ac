-- ===== src/Payment/Service.antt =====
-- The endpoints of services/payment-service/src/payment_service/main.py and the validation of
-- schemas.py. The response model copies every field, so a handler returns the stored record.
use retail_ops_microservices.Base.{
  ℕ, String, Bool, true, Option, none, some, ◌==◌, ◌&&◌, ◌||◌, if◌then◌else◌, or_else,
}
use retail_ops_microservices.Base.Exec.{Result, ok, err, Exec}
use retail_ops_microservices.Base.Int.{positive}
use retail_ops_microservices.Http.{HttpError, not_found, unprocessable, server_error}
use retail_ops_microservices.Payment.Provider.{
  PaymentProviderRequest, PaymentProviderResult, scenario_from_request, process_payment,
}
use retail_ops_microservices.Payment.Types.{
  Payment, CreatePayment, CreatePaymentRequest, PaymentDb, Stamp,
}
use retail_ops_microservices.Payment.Repository
use retail_ops_microservices.Payment.Repository.{PaymentError, find_payment_by_id}

-- The `Literal` of `mock_scenario`.
abbrev pub is_scenario : Option String → Bool
is_scenario none = true
is_scenario (some s) =
    s == "success"
    || s == "insufficient_funds"
    || s == "provider_unavailable"
    || s == "suspected_fraud"

-- `CreatePaymentRequest`: the amount of an acceptable body, and `none` for a 422.
unfoldable pub validate_payment : CreatePaymentRequest → Option ℕ
validate_payment r =
    if or_else r.currency "RUB" == "RUB"
      && or_else r.payment_method "card" == "card"
      && is_scenario r.mock_scenario
    then positive r.amount_kopecks
    else none

-- What the handler asks of the provider.
abbrev pub provider_request : CreatePaymentRequest → ℕ → PaymentProviderRequest
provider_request r amount = record {
  order_id = r.order_id;
  amount_kopecks = amount;
  currency = or_else r.currency "RUB";
  payment_method = or_else r.payment_method "card";
  provider_scenario = scenario_from_request r.mock_scenario;
  failure_reason = r.failure_reason;
}

-- What it stores of the answer.
abbrev pub to_store : CreatePaymentRequest → ℕ → PaymentProviderResult → CreatePayment
to_store r amount result = record {
  order_id = r.order_id;
  status = result.status;
  amount_kopecks = amount;
  currency = or_else r.currency "RUB";
  payment_method = or_else r.payment_method "card";
  provider = result.provider;
  provider_reference = result.provider_reference;
  provider_scenario = result.provider_scenario;
  failure_code = result.failure_code;
  failure_reason = result.failure_reason;
  processed_at = result.processed_at;
}

abbrev finish_payment :
    Result PaymentError Payment × PaymentDb → Result HttpError Payment × PaymentDb
finish_payment (ok payment, db) = (ok payment, db)
finish_payment (err e, db) = (err server_error, db)

unfoldable pub create_payment : Stamp → CreatePaymentRequest → Exec PaymentDb HttpError Payment
create_payment t request db = elim (validate_payment request) [
  | none ↦ (err unprocessable, db)
  | some amount ↦
      let result =
        process_payment t.processed_at t.reference_hex (provider_request request amount) in
      finish_payment (Repository.create_payment t (to_store request amount result) db)
]

unfoldable pub get_payment : String → PaymentDb → Result HttpError Payment
get_payment k db = elim (find_payment_by_id k db) [
  | none ↦ err (not_found "Payment not found")
  | some payment ↦ ok payment
]
