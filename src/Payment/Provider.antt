-- ===== src/Payment/Provider.antt =====
-- The local provider of services/payment-service/src/payment_service/provider.py.
use Prim.Native.String.{◌++◌ as str_append}
use retail_ops_microservices.Base.{
  ℕ, String, Option, none, some, ◌==◌, if◌then◌else◌, present, or_else, Time,
}

abbrev local_payment_provider_name : String
local_payment_provider_name = "local-payment-provider"

pub record PaymentProviderRequest : Type 0 where
  pub order_id : String
  pub amount_kopecks : ℕ
  pub currency : String
  pub payment_method : String
  pub provider_scenario : String
  pub failure_reason : Option String

pub record PaymentProviderResult : Type 0 where
  pub status : String
  pub provider : String
  pub provider_reference : String
  pub provider_scenario : String
  pub failure_code : Option String
  pub failure_reason : Option String
  pub processed_at : Time

abbrev pub scenario_from_request : Option String → String
scenario_from_request mock_scenario = or_else mock_scenario "success"

-- `_failure_details`: the code and the default reason.
unfoldable pub failure_details : String → String × String
failure_details provider_scenario =
    if provider_scenario == "provider_unavailable"
    then ("PROVIDER_UNAVAILABLE", "Local payment provider is unavailable")
    else if provider_scenario == "suspected_fraud"
    then ("SUSPECTED_FRAUD", "Local payment was blocked by suspected fraud scenario")
    else ("INSUFFICIENT_FUNDS", "Local payment failed because of insufficient funds")

-- `now` and `hex` are the clock and `uuid4().hex`.
unfoldable pub process_payment : Time → String → PaymentProviderRequest → PaymentProviderResult
unfolding failure_details
process_payment now hex request =
    if request.provider_scenario == "success"
    then record {
      status = "completed";
      provider = local_payment_provider_name;
      provider_reference = str_append "local-pay-" hex;
      provider_scenario = request.provider_scenario;
      failure_code = none;
      failure_reason = none;
      processed_at = now;
    }
    else let (failure_code, default_reason) = failure_details request.provider_scenario in
      record {
        status = "failed";
        provider = local_payment_provider_name;
        provider_reference = str_append "local-pay-" hex;
        provider_scenario = request.provider_scenario;
        failure_code = some failure_code;
        failure_reason = some (or_else (present request.failure_reason) default_reason);
        processed_at = now;
      }
