-- ===== src/Order/Laws.antt =====
-- What each call of order-service does, on every branch.
use mathlib.Core.List.{Perm}
use retail_ops_microservices.Base.{
  ℕ, suc, ◌*◌, ◌≡◌, ◌≢◌, ◌⊎◌, refl, inl, inr, Bool, true, false, none, some, ◌∷◌, String, arith,
  ◌==◌, eq_iff, eq_refl, Option-cases,
}
use retail_ops_microservices.Base.Int.{pos}
use retail_ops_microservices.Base.Exec.{ok, err}
use retail_ops_microservices.Base.Rows.{All, find_row, find_row-update_rows, select, All-select}
use retail_ops_microservices.Base.Sort.{IsSorted, order_by-IsSorted, order_by-perm, All-order_by}
use retail_ops_microservices.Http.{HttpError, conflict, unprocessable}
use retail_ops_microservices.Order.Status.{OrderStatus, notification_sent, is_allowed, parse_status}
use retail_ops_microservices.Order.Types.{
  CreateOrderRequest, CreateOrder, TransitionOrderRequest, Order, OrderDb, Stamp,
}
use retail_ops_microservices.Order.Repository
use retail_ops_microservices.Order.Repository.{
  order_key, entry_key, new_entry, fits_reason, set_status, find_order_by_id, newest_first,
  list_orders_by_user,
}
use retail_ops_microservices.Order.Service.{
  validate_create, create_order, transition_order, get_order, list_orders,
}
use retail_ops_microservices.Order.Trail.{trail}

-- A creation that raises has changed neither table.
create_order_atomic :
    (t : Stamp) (r : CreateOrderRequest) (db : OrderDb) (e : HttpError)
    → (create_order t r db).0 ≡ err e
    → (create_order t r db).1 ≡ db
unfolding create_order Repository.create_order
create_order_atomic t r db e h = elim (Option-cases (validate_create r)) [
  | inl refused ↦ rw (refused, create_order)
  | inr (o, q) ↦ ground (arith, q)
]

-- A transition that raises has changed neither table.
transition_order_atomic :
    (t : Stamp) (k : String) (r : TransitionOrderRequest) (db : OrderDb) (e : HttpError)
    → (transition_order t k r db).0 ≡ err e
    → (transition_order t k r db).1 ≡ db
unfolding transition_order Repository.transition_order
transition_order_atomic t k r db e h = ground arith

-- A request for a transition of a stored order to a status that the life cycle does not allow is
-- refused with 409 and changes nothing.
transition_order-refused :
    (t : Stamp) (k : String) (r : TransitionOrderRequest) (db : OrderDb) (o : Order)
    (s : OrderStatus)
    → get_order k db ≡ ok o
    → parse_status r.status ≡ some s
    → is_allowed o.status s ≡ false
    → transition_order t k r db ≡ (err (conflict "Invalid order transition"), db)
unfolding transition_order Repository.transition_order get_order find_order_by_id
transition_order-refused t k r db o s f p a = ground arith

-- An allowed transition of a stored order, with a fresh id for the history row and a reason of at
-- most 256 characters or none, returns the order with the new status; a fetch then finds just
-- that, and the order's history has the status on top.
pub transition_order-done :
    (t : Stamp) (k : String) (r : TransitionOrderRequest) (db : OrderDb) (o : Order)
    (s : OrderStatus)
    → get_order k db ≡ ok o
    → parse_status r.status ≡ some s
    → is_allowed o.status s ≡ true
    → fits_reason r.reason ≡ true
    → find_row entry_key (new_entry t k s r.reason).id db.history ≡ none
    → let (result, db') = transition_order t k r db in
      (result ≡ ok (set_status s t.now o))
      × (get_order k db' ≡ ok (set_status s t.now o))
      × (trail k db'.history ≡ s ∷ trail k db.history)
unfolding transition_order Repository.transition_order get_order find_order_by_id
transition_order-done t k r db o s f p a fit fresh =
    let g : find_row order_key k db.orders ≡ some o = ground arith in
    ground (
      arith,
      fit,
      g,
      eq_refl k,
      find_row-update_rows order_key k k (set_status s t.now) db.orders (λ x. refl),
    )

-- A transition of one order changes neither the row nor the history of another.
transition_order_others :
    (t : Stamp) (k j : String) (r : TransitionOrderRequest) (db : OrderDb)
    → k ≢ j
    → let db' = (transition_order t k r db).1 in
      (get_order j db' ≡ get_order j db) × (trail j db'.history ≡ trail j db.history)
unfolding transition_order Repository.transition_order get_order find_order_by_id
transition_order_others t k j r db ne = elim (Option-cases (parse_status r.status)) [
  | inl refused ↦ ground (arith, refused)
  | inr (s, p) ↦ ground (
    arith,
    p,
    eq_iff k j,
    find_row-update_rows order_key k j (set_status s t.now) db.orders (λ x. refl),
  )
]

-- A request for a transition of a stored order whose status is `notification_sent` changes neither
-- table.
notification_sent_final :
    (t : Stamp) (k : String) (r : TransitionOrderRequest) (db : OrderDb) (o : Order)
    → get_order k db ≡ ok o
    → o.status ≡ notification_sent
    → (transition_order t k r db).1 ≡ db
unfolding transition_order Repository.transition_order get_order find_order_by_id
notification_sent_final t k r db o f e = ground arith

-- What the schema makes of an acceptable body without a currency.
abbrev accepted : CreateOrderRequest → ℕ → ℕ → CreateOrder
accepted r q u = record {
  user_id = r.user_id;
  catalog_item_id = r.catalog_item_id;
  quantity = suc q;
  unit_price_kopecks = u;
  total_kopecks = suc q * u;
  currency = "RUB";
}

-- A body with a quantity, a unit price and a total that are not negative, and with a total that
-- is not the product, is refused with 422 and changes nothing.
create_order-mispriced :
    (t : Stamp) (r : CreateOrderRequest) (db : OrderDb) (q u n : ℕ)
    → r.quantity ≡ pos q
    → r.unit_price_kopecks ≡ pos u
    → r.total_kopecks ≡ pos n
    → n ≢ q * u
    → create_order t r db ≡ (err unprocessable, db)
unfolding create_order validate_create
create_order-mispriced t r db q u n eq eu et ne = ground arith

module _ (text_leb : String → String → Bool)
    (total : (a b : String) → (text_leb a b ≡ true) ⊎ (text_leb b a ≡ true))
    (trans : (a b c : String)
      → text_leb a b ≡ true
      → text_leb b c ≡ true
      → text_leb a c ≡ true) where
  newest_first_total :
      (a b : Order) → (newest_first text_leb a b ≡ true) ⊎ (newest_first text_leb b a ≡ true)
  newest_first_total a b = ground (arith, total b.id a.id)

  newest_first_trans :
      (a b c : Order)
      → newest_first text_leb a b ≡ true
      → newest_first text_leb b c ≡ true
      → newest_first text_leb a c ≡ true
  newest_first_trans a b c p q = ground (arith, trans c.id b.id a.id)

  -- For any total and transitive collation, a user's list holds exactly the stored orders of that
  -- user, as often as they are stored, from the newest to the oldest.
  list_orders_lem :
      (user_id : String) (db : OrderDb)
      → All (λ o. (o.user_id == user_id) ≡ true) (list_orders text_leb user_id db)
        × IsSorted (newest_first text_leb) (list_orders text_leb user_id db)
        × Perm (list_orders text_leb user_id db) (select (λ o. o.user_id == user_id) db.orders)
  unfolding list_orders list_orders_by_user
  list_orders_lem user_id db =
      let mine = select (λ o. o.user_id == user_id) db.orders in
      (
        All-order_by (λ o. (o.user_id == user_id) ≡ true) (newest_first text_leb) mine
            (All-select (λ o. o.user_id == user_id) db.orders),
        order_by-IsSorted (newest_first text_leb) newest_first_total newest_first_trans mine,
        order_by-perm (newest_first text_leb) mine,
      )
