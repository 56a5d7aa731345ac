-- ===== src/Order/Reach.antt =====
-- Every sequence of requests to order-service, and what holds of all tables that it can lead to.
use retail_ops_microservices.Base.{
  ◌*◌, ◌≤◌, ◌≡◌, some, List, [], ◌∷◌, String, arith, if◌then◌else◌, Option-cases, inl, inr,
}
use retail_ops_microservices.Base.Exec.{ok}
use retail_ops_microservices.Base.Rows.{find_row, find_row-All}
use retail_ops_microservices.Base.Int.{int32_max}
use retail_ops_microservices.Order.Status.{OrderStatus, payment_completed, parse_status}
use retail_ops_microservices.Order.Types.{
  CreateOrder, CreateOrderRequest, TransitionOrderRequest, Order, OrderDb, empty_db, Stamp,
}
use retail_ops_microservices.Order.Repository.{order_key, find_order_by_id}
use retail_ops_microservices.Order.Service.{
  validate_create, create_order, transition_order, get_order,
}
use retail_ops_microservices.Order.Trail.{trail, count, is_paid, payments, count-IsTrail}
use retail_ops_microservices.Order.Invariant.{
  IsConsistent, IsPriced, HasTotal, Fits, empty-IsConsistent, create_order-IsConsistent,
  transition_order-IsConsistent,
}

-- A request that can change the tables, with what the call reads from the clock and from uuid4.
pub data Request : Type 0 where
  create : Stamp → CreateOrderRequest → Request
  transition : Stamp → String → TransitionOrderRequest → Request

unfoldable pub serve : Request → OrderDb → OrderDb
serve (create t r) db = (create_order t r db).1
serve (transition t k r) db = (transition_order t k r db).1

pub data Reach (start : OrderDb) : OrderDb → Type 0 where
  here : Reach start start
  next : {db : OrderDb} → Reach start db → (r : Request) → Reach start (serve r db)

-- A request that passes the schema carries the total that its quantity and unit price make.
validate_create-HasTotal :
    (r : CreateOrderRequest) (o : CreateOrder) → validate_create r ≡ some o → HasTotal o
unfolding validate_create
validate_create-HasTotal r o h = ground arith

service_create-IsConsistent :
    (t : Stamp) (r : CreateOrderRequest) (db : OrderDb)
    → IsConsistent db
    → IsConsistent (create_order t r db).1
unfolding create_order
service_create-IsConsistent t r db h = elim (Option-cases (validate_create r)) [
  | inl refused ↦ rw (refused, create_order) h
  | inr (o, e) ↦
      ground (arith, e, create_order-IsConsistent t o db (validate_create-HasTotal r o e) h)
]

service_transition-IsConsistent :
    (t : Stamp) (k : String) (r : TransitionOrderRequest) (db : OrderDb)
    → IsConsistent db
    → IsConsistent (transition_order t k r db).1
unfolding transition_order
service_transition-IsConsistent t k r db h = elim (Option-cases (parse_status r.status)) [
  | inl refused ↦ rw (refused, transition_order) h
  | inr (s, e) ↦
      ground (
        arith,
        e,
        transition_order-IsConsistent t k (record { status = s; reason = r.reason }) db h,
      )
]

-- Every request, accepted or refused, keeps the tables consistent.
serve-IsConsistent : (r : Request) (db : OrderDb) → IsConsistent db → IsConsistent (serve r db)
unfolding serve
serve-IsConsistent (create t r) db h = service_create-IsConsistent t r db h
serve-IsConsistent (transition t k r) db h = service_transition-IsConsistent t k r db h

-- In all tables that requests can lead to, each order's history is an allowed path that ends in
-- the order's status, there is no history without an order, and each stored total is the quantity
-- times the unit price and fits the column.
pub Reach-IsConsistent : {db : OrderDb} → Reach empty_db db → IsConsistent db
Reach-IsConsistent here = empty-IsConsistent
Reach-IsConsistent (next {db = db} p r) = serve-IsConsistent r db (Reach-IsConsistent p)

Fits-payments :
    (o : Order) (t : List OrderStatus)
    → Fits (some o) t
    → count payment_completed t ≡ payments o.status
Fits-payments o [] h = absurd h
Fits-payments o (s ∷ r) h = rw (← h.0) (count-IsTrail s r h.1)

-- After any requests, the history of an order that can be fetched holds exactly one
-- `payment_completed` entry if its status is `payment_completed`, `receipt_generated` or
-- `notification_sent`, and none otherwise.
pub paid_once :
    {db : OrderDb} (k : String) (o : Order)
    → Reach empty_db db
    → get_order k db ≡ ok o
    → count payment_completed (trail k db.history) ≡ (if is_paid o.status then 1 else 0)
unfolding get_order find_order_by_id
paid_once {db = db} k o p e = Fits-payments o (trail k db.history) (
    let f : find_row order_key k db.orders ≡ some o = ground arith in
    rw f at ((Reach-IsConsistent p).histories k))

-- After any requests, an order that can be fetched has the total that its quantity and unit price
-- make, and that total fits a 32-bit column.
fetched_price :
    {db : OrderDb} (k : String) (o : Order)
    → Reach empty_db db
    → get_order k db ≡ ok o
    → (o.total_kopecks ≡ o.quantity * o.unit_price_kopecks) × (o.total_kopecks ≤ int32_max)
unfolding get_order find_order_by_id
fetched_price {db = db} k o p e =
    let f : find_row order_key k db.orders ≡ some o = ground arith in
    let q : IsPriced o =
      find_row-All IsPriced order_key k db.orders o (Reach-IsConsistent p).prices f in
    (q.total, q.bounded)
