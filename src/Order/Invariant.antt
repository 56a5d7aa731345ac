-- ===== src/Order/Invariant.antt =====
-- What always holds of the two tables of order-service, and that every transaction keeps it.
use mathlib.Core.Option
use mathlib.Core.Path.{subst}
use retail_ops_microservices.Base.{
  ℕ, ◌*◌, ◌≤◌, ◌<◌, ◌≡◌, refl, inl, inr, true, Option, none, some, List, [], ◌∷◌, String, arith,
  ◌==◌, eq_iff, Bool-cases, Option-cases,
}
use retail_ops_microservices.Base.Int.{int32_max}
use retail_ops_microservices.Base.Rows.{
  All, find_row, update_rows, find_row-update_rows, All-update_rows,
}
use retail_ops_microservices.Order.Status.{OrderStatus, is_allowed}
use retail_ops_microservices.Order.Types.{
  CreateOrder, TransitionOrder, Order, OrderDb, empty_db, Stamp,
}
use retail_ops_microservices.Order.Repository.{
  order_key, new_order, new_entry, set_status, create_order, transition_order,
}
use retail_ops_microservices.Order.Trail.{trail, IsTrail}

-- An order's history is a path of the life cycle that ends in the order's status; without an
-- order there is no history.
abbrev pub Fits : Option Order → List OrderStatus → Type 0
Fits none t = t ≡ []
Fits (some o) [] = ⊥
Fits (some o) (s ∷ r) = (s ≡ o.status) × IsTrail (s ∷ r)

-- The stored price is the snapshot that the request was checked against, within the columns.
pub record IsPriced (o : Order) : Type 0 where
  pub total : o.total_kopecks ≡ o.quantity * o.unit_price_kopecks
  pub ordered : 0 < o.quantity
  pub bounded : o.total_kopecks ≤ int32_max

pub record IsConsistent (db : OrderDb) : Type 0 where
  pub histories : (k : String) → Fits (find_row order_key k db.orders) (trail k db.history)
  pub prices : All IsPriced db.orders

pub empty-IsConsistent : IsConsistent empty_db
unfolding find_row
empty-IsConsistent = record { histories = λ k. refl; prices = tt }

-- The request's total agrees with its quantity and unit price, as the schema demands.
abbrev pub HasTotal : CreateOrder → Type 0
HasTotal r = r.total_kopecks ≡ r.quantity * r.unit_price_kopecks

pub create_order-IsConsistent :
    (t : Stamp) (r : CreateOrder) (db : OrderDb)
    → HasTotal r
    → IsConsistent db
    → IsConsistent (create_order t r db).1
unfolding create_order find_row
create_order-IsConsistent t r db e h = record {
  histories = λ k. ground (arith, h.histories k, eq_iff (new_order t r).id k);
  prices = ground arith;
}

-- The row that is found is the row that is changed.
Fits-next :
    (o : Option Order) (row : Order) (t : List OrderStatus) (s : OrderStatus) (now : ℕ)
    → o ≡ some row
    → is_allowed row.status s ≡ true
    → Fits o t
    → Fits (Option.map (set_status s now) o) (s ∷ t)
Fits-next o row [] s now e a f = ground arith
Fits-next o row (x ∷ r) s now e a f = ground arith

-- The tables after the commit of `transition_order`.
abbrev committed : Stamp → String → TransitionOrder → OrderDb → OrderDb
committed t k r db = record {
  orders = update_rows order_key k (set_status r.status t.now) db.orders;
  history = new_entry t k r.status r.reason ∷ db.history;
}

set_status-IsPriced :
    (s : OrderStatus) (now : ℕ) (o : Order) → IsPriced o → IsPriced (set_status s now o)
set_status-IsPriced s now o p = record { total = p.total; ordered = p.ordered; bounded = p.bounded }

committed-IsConsistent :
    (t : Stamp) (k : String) (r : TransitionOrder) (row : Order) (db : OrderDb)
    → find_row order_key k db.orders ≡ some row
    → is_allowed row.status r.status ≡ true
    → IsConsistent db
    → IsConsistent (committed t k r db)
committed-IsConsistent t k r row db e a h = record {
  histories = λ j.
      rw (find_row-update_rows order_key k j (set_status r.status t.now) db.orders (λ o. refl))
        (elim (Bool-cases (k == j)) [
          | inl same ↦ rw same (
              Fits-next (find_row order_key j db.orders) row (trail j db.history) r.status t.now
                (subst (λ x. find_row order_key x db.orders ≡ some row) ((eq_iff k j).0 same) e) a
                (h.histories j))
          | inr other ↦ rw other (h.histories j)
        ]);
  prices =
      All-update_rows IsPriced order_key k (set_status r.status t.now) db.orders
        (set_status-IsPriced r.status t.now) h.prices;
}

pub transition_order-IsConsistent :
    (t : Stamp) (k : String) (r : TransitionOrder) (db : OrderDb)
    → IsConsistent db
    → IsConsistent (transition_order t k r db).1
unfolding transition_order
transition_order-IsConsistent t k r db h = elim (Option-cases (find_row order_key k db.orders)) [
  | inl missing ↦ rw (missing, transition_order) h
  | inr (row, e) ↦ ground (arith, e, committed-IsConsistent t k r row db e)
]
