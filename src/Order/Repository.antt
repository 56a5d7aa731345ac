-- ===== src/Order/Repository.antt =====
-- `OrderRepository` of services/order-service/src/order_service/repository.py. A transaction that
-- raises is rolled back, so the tables come back unchanged beside the error.
use Prim.Native.String.{◌++◌ as str_append, count}
use retail_ops_microservices.Base.{
  String, Bool, true, leb, ◌&&◌, ◌||◌, not, Option, none, some, List, ◌∷◌, ltb, num_eq, ◌==◌,
  if◌then◌else◌, is_some, Time,
}
use retail_ops_microservices.Base.Exec.{ok, err, Exec}
use retail_ops_microservices.Base.Int.{fits_int32}
use retail_ops_microservices.Base.Rows.{select, find_row, update_rows}
use retail_ops_microservices.Base.Sort.{order_by}
use retail_ops_microservices.Order.Status.{OrderStatus, created, is_allowed}
use retail_ops_microservices.Order.Types.{
  CreateOrder, TransitionOrder, Order, OrderHistoryEntry, OrderDb, Stamp,
}

-- `InvalidOrderTransitionError`, and the two errors of the database that the schema in
-- migrations/versions causes: a duplicate primary key, and a value that the column cannot hold.
pub data OrderError : Type 0 where
  invalid_transition : OrderStatus → OrderStatus → OrderError
  duplicate_key : OrderError
  out_of_range : OrderError

abbrev pub order_key : Order → String
order_key o = o.id

abbrev pub entry_key : OrderHistoryEntry → String
entry_key e = e.id

-- The ids that a call makes of its two random texts.
abbrev pub order_id : Stamp → String
order_id t = str_append "order-" t.order_hex

abbrev pub entry_id : Stamp → String
entry_id t = str_append "order-history-" t.history_hex

-- The row that `create_order` inserts and returns.
abbrev pub new_order : Stamp → CreateOrder → Order
new_order t o = record {
  id = order_id t;
  user_id = o.user_id;
  catalog_item_id = o.catalog_item_id;
  status = created;
  quantity = o.quantity;
  unit_price_kopecks = o.unit_price_kopecks;
  total_kopecks = o.total_kopecks;
  currency = o.currency;
  created_at = t.now;
  updated_at = t.now;
}

abbrev pub new_entry : Stamp → String → OrderStatus → Option String → OrderHistoryEntry
new_entry t k status reason = record {
  id = entry_id t;
  order_id = k;
  status = status;
  reason = reason;
  created_at = t.now;
}

-- Whether the texts and the numbers fit the columns and pass the check constraints of migration
-- 0006. The ids and the currency have fixed lengths that fit.
abbrev pub fits_columns : Order → Bool
fits_columns o =
    leb (count o.user_id) 64
    && leb (count o.catalog_item_id) 64
    && fits_int32 o.quantity
    && fits_int32 o.unit_price_kopecks
    && fits_int32 o.total_kopecks
    && ltb 0 o.quantity

-- The width of the column `reason`.
abbrev pub fits_reason : Option String → Bool
fits_reason none = true
fits_reason (some text) = leb (count text) 256

unfoldable pub create_order : Stamp → CreateOrder → Exec OrderDb OrderError Order
create_order t request db =
    let order = new_order t request in
    let entry = new_entry t order.id created (some "Order created") in
    if not (fits_columns order)
    then (err out_of_range, db)
    else if is_some (find_row order_key order.id db.orders)
        || is_some (find_row entry_key entry.id db.history)
    then (err duplicate_key, db)
    else (ok order, record { orders = order ∷ db.orders; history = entry ∷ db.history })

unfoldable pub find_order_by_id : String → OrderDb → Option Order
find_order_by_id k db = find_row order_key k db.orders

-- The UPDATE of `transition_order`.
abbrev pub set_status : OrderStatus → Time → Order → Order
set_status status now o = record o { status = status; updated_at = now }

unfoldable pub transition_order :
    Stamp → String → TransitionOrder → Exec OrderDb OrderError (Option Order)
transition_order t k transition db = elim (find_row order_key k db.orders) [
  | none ↦ (ok none, db)
  | some row ↦
      let entry = new_entry t k transition.status transition.reason in
      if not (is_allowed row.status transition.status)
      then (err (invalid_transition row.status transition.status), db)
      else if not (fits_reason transition.reason)
      then (err out_of_range, db)
      else if is_some (find_row entry_key entry.id db.history)
      then (err duplicate_key, db)
      else (
        ok (some (set_status transition.status t.now row)),
        record {
          orders = update_rows order_key k (set_status transition.status t.now) db.orders;
          history = entry ∷ db.history;
        },
      )
]

-- The database's collation, which orders the ids of one instant.
module _ (text_leb : String → String → Bool) where
  -- created_at DESC, id DESC
  abbrev pub newest_first : Order → Order → Bool
  newest_first a b =
      ltb b.created_at a.created_at || (num_eq b.created_at a.created_at && text_leb b.id a.id)

  -- created_at, id
  abbrev oldest_first : OrderHistoryEntry → OrderHistoryEntry → Bool
  oldest_first a b =
      ltb a.created_at b.created_at || (num_eq a.created_at b.created_at && text_leb a.id b.id)

  unfoldable pub list_orders_by_user : String → OrderDb → List Order
  list_orders_by_user user_id db =
      order_by newest_first (select (λ o. o.user_id == user_id) db.orders)

  unfoldable pub list_order_history : String → OrderDb → List OrderHistoryEntry
  list_order_history k db = order_by oldest_first (select (λ e. e.order_id == k) db.history)
