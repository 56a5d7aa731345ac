-- ===== src/Payment/Tests.antt =====
-- Payments that succeed and fail: the theorems on payment-service at concrete inputs.
use retail_ops_microservices.Base.{◌<◌, ◌≡◌, refl, none, some, []}
use retail_ops_microservices.Base.Int.{pos}
use retail_ops_microservices.Base.Exec.{ok}
use retail_ops_microservices.Base.Rows.{find_row}
use retail_ops_microservices.Payment.Provider.{failure_details}
use retail_ops_microservices.Payment.Types.{CreatePaymentRequest, Stamp}
use retail_ops_microservices.Payment.Repository
use retail_ops_microservices.Payment.Service.{create_payment, get_payment, validate_payment}
use retail_ops_microservices.Payment.Laws.{
  stored, ScenarioOutcome, create_payment_outcome, get_payment-create_payment,
}

abbrev stamp : Stamp
stamp = record { processed_at = 1; now = 2; reference_hex = "r"; payment_hex = "p" }

abbrev fraud : CreatePaymentRequest
fraud = record {
  order_id = "order-a";
  amount_kopecks = pos 100;
  currency = none;
  payment_method = none;
  mock_scenario = some "suspected_fraud";
  failure_reason = none;
}

create_payment_outcome_example : ScenarioOutcome fraud (stored stamp fraud 100)
unfolding create_payment Repository.create_payment validate_payment failure_details find_row
    retail_ops_microservices.Payment.Provider.process_payment
create_payment_outcome_example = create_payment_outcome stamp fraud [] (stored stamp fraud 100) refl

get_payment-create_payment_example :
    (get_payment "payment-p" (create_payment stamp fraud []).1 ≡ ok (stored stamp fraud 100))
    × ((stored stamp fraud 100).order_id ≡ fraud.order_id)
    × (pos (stored stamp fraud 100).amount_kopecks ≡ fraud.amount_kopecks)
    × (0 < 100)
unfolding create_payment Repository.create_payment validate_payment find_row
    retail_ops_microservices.Payment.Provider.process_payment
get_payment-create_payment_example =
    get_payment-create_payment stamp fraud [] (stored stamp fraud 100) refl
