-- ===== src/Order/Types.antt =====
-- The records of repository.py and schemas.py, and the two tables of order-service.
use retail_ops_microservices.Base.{ℕ, String, Option, List, [], Time}
use retail_ops_microservices.Base.Int.{ℤ}
use retail_ops_microservices.Order.Status.{OrderStatus}

pub record CreateOrder : Type 0 where
  pub user_id : String
  pub catalog_item_id : String
  pub quantity : ℕ
  pub unit_price_kopecks : ℕ
  pub total_kopecks : ℕ
  pub currency : String

pub record TransitionOrder : Type 0 where
  pub status : OrderStatus
  pub reason : Option String

pub record Order : Type 0 where
  pub id : String
  pub user_id : String
  pub catalog_item_id : String
  pub status : OrderStatus
  pub quantity : ℕ
  pub unit_price_kopecks : ℕ
  pub total_kopecks : ℕ
  pub currency : String
  pub created_at : Time
  pub updated_at : Time

pub record OrderHistoryEntry : Type 0 where
  pub id : String
  pub order_id : String
  pub status : OrderStatus
  pub reason : Option String
  pub created_at : Time

-- The body of POST /orders before validation: Python's integers are signed.
pub record CreateOrderRequest : Type 0 where
  pub user_id : String
  pub catalog_item_id : String
  pub quantity : ℤ
  pub unit_price_kopecks : ℤ
  pub total_kopecks : ℤ
  pub currency : Option String

pub record TransitionOrderRequest : Type 0 where
  pub status : String
  pub reason : Option String

-- The tables `orders` and `order_status_history`, the newest row first.
pub record OrderDb : Type 0 where
  pub orders : List Order
  pub history : List OrderHistoryEntry

abbrev pub empty_db : OrderDb
empty_db = record { orders = []; history = [] }

-- What a call reads from outside the program: the clock, and `uuid4().hex` twice.
pub record Stamp : Type 0 where
  pub now : Time
  pub order_hex : String
  pub history_hex : String
