-- ===== src/Payment/Repository.antt =====
-- `PaymentRepository` of services/payment-service/src/payment_service/repository.py.
use Prim.Native.String.{◌++◌ as str_append, count}
use retail_ops_microservices.Base.{
  String, Bool, true, ◌&&◌, leb, Option, none, some, ◌∷◌, not, if◌then◌else◌, is_some,
}
use retail_ops_microservices.Base.Exec.{ok, err, Exec}
use retail_ops_microservices.Base.Int.{fits_int32}
use retail_ops_microservices.Base.Rows.{find_row}
use retail_ops_microservices.Payment.Types.{Payment, CreatePayment, PaymentDb, Stamp}

-- A duplicate primary key, and a value that its column cannot hold.
pub data PaymentError : Type 0 where
  duplicate_key out_of_range : PaymentError

abbrev pub payment_key : Payment → String
payment_key p = p.id

abbrev pub payment_id : Stamp → String
payment_id t = str_append "payment-" t.payment_hex

abbrev pub new_payment : Stamp → CreatePayment → Payment
new_payment t p = record {
  id = payment_id t;
  order_id = p.order_id;
  status = p.status;
  amount_kopecks = p.amount_kopecks;
  currency = p.currency;
  payment_method = some p.payment_method;
  provider = some p.provider;
  provider_reference = some p.provider_reference;
  provider_scenario = some p.provider_scenario;
  failure_code = p.failure_code;
  failure_reason = p.failure_reason;
  processed_at = some p.processed_at;
  created_at = t.now;
  updated_at = t.now;
}

-- Whether the columns of payments can hold the amount and the texts that come with the request.
abbrev pub fits_columns : CreatePayment → Bool
fits_columns p =
    fits_int32 p.amount_kopecks && leb (count p.order_id) 64 && fits_text p.failure_reason
  where
    fits_text : Option String → Bool
    fits_text none = true
    fits_text (some text) = leb (count text) 256

unfoldable pub create_payment : Stamp → CreatePayment → Exec PaymentDb PaymentError Payment
create_payment t payment db =
    if not (fits_columns payment)
    then (err out_of_range, db)
    else if is_some (find_row payment_key (payment_id t) db)
    then (err duplicate_key, db)
    else (ok (new_payment t payment), new_payment t payment ∷ db)

unfoldable pub find_payment_by_id : String → PaymentDb → Option Payment
find_payment_by_id k db = find_row payment_key k db
