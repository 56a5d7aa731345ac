-- ===== src/Order/Tests.antt =====
-- An order that is created, invoiced and paid: the theorems on order-service at concrete inputs.
use retail_ops_microservices.Base.{◌≡◌, refl, none, ◌∷◌}
use retail_ops_microservices.Base.Int.{pos}
use retail_ops_microservices.Base.Exec.{ok}
use retail_ops_microservices.Base.Rows.{find_row, update_rows}
use retail_ops_microservices.Order.Status.{
  created, invoice_generated, payment_completed, parse_status,
}
use retail_ops_microservices.Order.Types.{
  CreateOrderRequest, TransitionOrderRequest, Order, OrderDb, empty_db, Stamp,
}
use retail_ops_microservices.Order.Repository
use retail_ops_microservices.Order.Repository.{newest_first, find_order_by_id, set_status}
use retail_ops_microservices.Order.Service.{
  create_order, transition_order, get_order, validate_create,
}
use retail_ops_microservices.Order.Trail.{trail, count}
use retail_ops_microservices.Order.Invariant.{IsConsistent}
use retail_ops_microservices.Order.Reach.{
  Reach, here, next, create, transition, serve, Reach-IsConsistent, paid_once,
}
use retail_ops_microservices.Order.Refinement.{life_cycle, Steps, Reach-Steps}
use retail_ops_microservices.Order.Laws.{transition_order-done}

abbrev first_stamp : Stamp
first_stamp = record { now = 1; order_hex = "a"; history_hex = "1" }

abbrev second_stamp : Stamp
second_stamp = record { now = 2; order_hex = "b"; history_hex = "2" }

abbrev third_stamp : Stamp
third_stamp = record { now = 3; order_hex = "c"; history_hex = "3" }

abbrev two_lamps : CreateOrderRequest
two_lamps = record {
  user_id = "ann";
  catalog_item_id = "lamp";
  quantity = pos 2;
  unit_price_kopecks = pos 50;
  total_kopecks = pos 100;
  currency = none;
}

abbrev to_invoiced : TransitionOrderRequest
to_invoiced = record { status = "invoice_generated"; reason = none }

abbrev to_paid : TransitionOrderRequest
to_paid = record { status = "payment_completed"; reason = none }

-- The tables after the three requests.
abbrev created_db : OrderDb
created_db = serve (create first_stamp two_lamps) empty_db

abbrev invoiced_db : OrderDb
invoiced_db = serve (transition second_stamp "order-a" to_invoiced) created_db

abbrev paid_db : OrderDb
paid_db = serve (transition third_stamp "order-a" to_paid) invoiced_db

abbrev to_paid_db : Reach empty_db paid_db
to_paid_db =
    next
      (next (next here (create first_stamp two_lamps))
        (transition second_stamp "order-a" to_invoiced))
      (transition third_stamp "order-a" to_paid)

abbrev created_order : Order
created_order = record {
  id = "order-a";
  user_id = "ann";
  catalog_item_id = "lamp";
  status = created;
  quantity = 2;
  unit_price_kopecks = 50;
  total_kopecks = 100;
  currency = "RUB";
  created_at = 1;
  updated_at = 1;
}

abbrev paid_order : Order
paid_order = record created_order { status = payment_completed; updated_at = 3 }

Reach-IsConsistent_example : IsConsistent paid_db
Reach-IsConsistent_example = Reach-IsConsistent to_paid_db

Reach-Steps_example : Steps (life_cycle empty_db) (life_cycle paid_db)
Reach-Steps_example = Reach-Steps to_paid_db

paid_once_example : count payment_completed (trail "order-a" paid_db.history) ≡ 1
unfolding serve create_order Repository.create_order transition_order Repository.transition_order
    get_order find_order_by_id find_row update_rows parse_status validate_create
paid_once_example = paid_once "order-a" paid_order to_paid_db refl

transition_order-done_example :
    let (result, db') = transition_order second_stamp "order-a" to_invoiced created_db in
    (result ≡ ok (set_status invoice_generated 2 created_order))
    × (get_order "order-a" db' ≡ ok (set_status invoice_generated 2 created_order))
    × (trail "order-a" db'.history ≡ invoice_generated ∷ trail "order-a" created_db.history)
unfolding serve create_order Repository.create_order get_order find_order_by_id find_row
    parse_status validate_create
transition_order-done_example =
    transition_order-done second_stamp "order-a" to_invoiced created_db created_order
      invoice_generated refl refl refl refl refl
