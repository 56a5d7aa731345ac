-- ===== src/Order/Service.antt =====
-- The endpoints of services/order-service/src/order_service/main.py and the validation of
-- schemas.py. The response models copy every field, so a handler returns the stored record.
use retail_ops_microservices.Base.{
  ℕ, ◌*◌, String, Bool, Option, none, some, List, or_else, num_eq, ◌==◌, if◌then◌else◌,
}
use retail_ops_microservices.Base.Exec.{Result, ok, err, Exec}
use retail_ops_microservices.Base.Int.{positive, non_negative}
use retail_ops_microservices.Http.{HttpError, not_found, conflict, unprocessable, server_error}
use retail_ops_microservices.Order.Status.{parse_status}
use retail_ops_microservices.Order.Types.{
  CreateOrder, CreateOrderRequest, TransitionOrderRequest, Order, OrderHistoryEntry, OrderDb, Stamp,
}
use retail_ops_microservices.Order.Repository
use retail_ops_microservices.Order.Repository.{
  OrderError, invalid_transition, duplicate_key, out_of_range, find_order_by_id,
}

-- `validate_total_matches_snapshot` and the literal of `currency`, once the integers are in range.
abbrev check_snapshot : CreateOrderRequest → ℕ → ℕ → ℕ → Option CreateOrder
check_snapshot r quantity unit_price total =
    let currency = or_else r.currency "RUB" in
    if num_eq total (quantity * unit_price)
    then if currency == "RUB"
      then some (record {
        user_id = r.user_id;
        catalog_item_id = r.catalog_item_id;
        quantity = quantity;
        unit_price_kopecks = unit_price;
        total_kopecks = total;
        currency = currency;
      })
      else none
    else none

-- `CreateOrderRequest`: `none` is a 422.
unfoldable pub validate_create : CreateOrderRequest → Option CreateOrder
validate_create r = elim (positive r.quantity) [
  | none ↦ none
  | some quantity ↦ elim (non_negative r.unit_price_kopecks) [
    | none ↦ none
    | some unit_price ↦ elim (non_negative r.total_kopecks) [
      | none ↦ none
      | some total ↦ check_snapshot r quantity unit_price total
    ]
  ]
]

abbrev pub raised : OrderError → HttpError
raised (invalid_transition _ _) = conflict "Invalid order transition"
raised duplicate_key = server_error
raised out_of_range = server_error

abbrev pub finish_create : Result OrderError Order × OrderDb → Result HttpError Order × OrderDb
finish_create (ok order, db) = (ok order, db)
finish_create (err e, db) = (err server_error, db)

unfoldable pub create_order : Stamp → CreateOrderRequest → Exec OrderDb HttpError Order
unfolding validate_create
create_order t request db = elim (validate_create request) [
  | none ↦ (err unprocessable, db)
  | some order ↦ finish_create (Repository.create_order t order db)
]

unfoldable pub get_order : String → OrderDb → Result HttpError Order
get_order order_id db = elim (find_order_by_id order_id db) [
  | none ↦ err (not_found "Order not found")
  | some order ↦ ok order
]

abbrev pub finish_transition :
    Result OrderError (Option Order) × OrderDb → Result HttpError Order × OrderDb
finish_transition (ok none, db) = (err (not_found "Order not found"), db)
finish_transition (ok (some order), db) = (ok order, db)
finish_transition (err e, db) = (err (raised e), db)

unfoldable pub transition_order :
    Stamp → String → TransitionOrderRequest → Exec OrderDb HttpError Order
transition_order t order_id request db = elim (parse_status request.status) [
  | none ↦ (err unprocessable, db)
  | some status ↦ finish_transition (
      Repository.transition_order t order_id (record { status = status; reason = request.reason })
        db)
]

module _ (text_leb : String → String → Bool) where
  unfoldable pub list_orders : String → OrderDb → List Order
  list_orders = Repository.list_orders_by_user text_leb

  unfoldable pub get_order_history : String → OrderDb → Result HttpError (List OrderHistoryEntry)
  get_order_history order_id db = elim (find_order_by_id order_id db) [
    | none ↦ err (not_found "Order not found")
    | some order ↦ ok (Repository.list_order_history text_leb order_id db)
  ]
