-- ===== src/Payment/Types.antt =====
-- The records of repository.py and schemas.py, and the table `payments`.
use retail_ops_microservices.Base.{ℕ, String, Option, List, Time}
use retail_ops_microservices.Base.Int.{ℤ}

pub record Payment : Type 0 where
  pub id : String
  pub order_id : String
  pub status : String
  pub amount_kopecks : ℕ
  pub currency : String
  pub payment_method : Option String
  pub provider : Option String
  pub provider_reference : Option String
  pub provider_scenario : Option String
  pub failure_code : Option String
  pub failure_reason : Option String
  pub processed_at : Option Time
  pub created_at : Time
  pub updated_at : Time

pub record CreatePayment : Type 0 where
  pub order_id : String
  pub status : String
  pub amount_kopecks : ℕ
  pub currency : String
  pub payment_method : String
  pub provider : String
  pub provider_reference : String
  pub provider_scenario : String
  pub failure_code : Option String
  pub failure_reason : Option String
  pub processed_at : Time

-- The body of POST /payments before validation.
pub record CreatePaymentRequest : Type 0 where
  pub order_id : String
  pub amount_kopecks : ℤ
  pub currency : Option String
  pub payment_method : Option String
  pub mock_scenario : Option String
  pub failure_reason : Option String

abbrev pub PaymentDb : Type 0
PaymentDb = List Payment

-- What a call reads from outside: the clock twice, and `uuid4().hex` twice.
pub record Stamp : Type 0 where
  pub processed_at : Time
  pub now : Time
  pub reference_hex : String
  pub payment_hex : String
