-- ===== src/Order/Refinement.antt =====
-- order-service against its life cycle: which orders there are, each with its status.
use mathlib.Core.Option
use mathlib.Core.Path.{subst}
use retail_ops_microservices.Base.{
  ◌≡◌, refl, inl, inr, true, Option, none, some, ◌∷◌, String, ◌==◌, eq_iff, Time, List,
  Option-cases, Bool-cases, if◌then◌else◌,
}
use retail_ops_microservices.Base.Exec.{Result, ok, err}
use retail_ops_microservices.Base.Rows.{find_row, update_rows, find_row-update_rows}
use retail_ops_microservices.Order.Status.{OrderStatus, created, is_allowed, parse_status}
use retail_ops_microservices.Order.Types.{
  CreateOrder, CreateOrderRequest, TransitionOrder, TransitionOrderRequest, Order, OrderDb, Stamp,
}
use retail_ops_microservices.Order.Repository
use retail_ops_microservices.Order.Repository.{
  OrderError, order_key, entry_key, new_order, new_entry, set_status, fits_columns, fits_reason,
}
use retail_ops_microservices.Order.Service.{
  validate_create, finish_create, finish_transition, create_order, transition_order,
}
use retail_ops_microservices.Order.Reach.{Request, create, transition, serve, Reach, here, next}

abbrev LifeCycle : Type 0
LifeCycle = String → Option OrderStatus

abbrev status_of : Order → OrderStatus
status_of o = o.status

-- What the tables say of each id.
unfoldable pub life_cycle : OrderDb → LifeCycle
unfolding find_row
life_cycle db j = Option.map status_of (find_row order_key j db.orders)

abbrev set_at : String → OrderStatus → LifeCycle → LifeCycle
set_at k s f j = if k == j then some s else f j

-- The specification: nothing happens, a new order is created, or an order takes an allowed step.
pub data Step (f g : LifeCycle) : Type 0 where
  unchanged : ((j : String) → g j ≡ f j) → Step f g
  opened : (k : String) → f k ≡ none → ((j : String) → g j ≡ set_at k created f j) → Step f g
  moved :
      (k : String) (s t : OrderStatus)
      → f k ≡ some s
      → is_allowed s t ≡ true
      → ((j : String) → g j ≡ set_at k t f j)
      → Step f g

pushed :
    (o : Order) (orders : List Order) (j : String)
    → Option.map status_of (find_row order_key j (o ∷ orders))
      ≡ (if o.id == j then some o.status else Option.map status_of (find_row order_key j orders))
unfolding find_row
pushed o orders j = elim (Bool-cases (o.id == j)) [ inl b ↦ rw b refl | inr b ↦ rw b refl ]

updated :
    (k : String) (s : OrderStatus) (now : Time) (o : Order) (orders : List Order) (j : String)
    → find_row order_key k orders ≡ some o
    → Option.map status_of
        (find_row order_key j (update_rows order_key k (set_status s now) orders))
      ≡ (if k == j then some s else Option.map status_of (find_row order_key j orders))
updated k s now o orders j e =
    rw (find_row-update_rows order_key k j (set_status s now) orders (λ x. refl))
      (elim (Bool-cases (k == j)) [
        | inr b ↦ rw b refl
        | inl b ↦
            let found : find_row order_key j orders ≡ some o =
              subst (λ i. find_row order_key i orders ≡ some o) ((eq_iff k j).0 b) e in
            rw (b, found) refl
      ])

create-Step :
    (t : Stamp) (o : CreateOrder) (db : OrderDb)
    → Step (life_cycle db) (life_cycle (Repository.create_order t o db).1)
unfolding Repository.create_order life_cycle
create-Step t o db = elim (Bool-cases (fits_columns (new_order t o))) [
  | inr b ↦ rw b (unchanged (λ j. refl))
  | inl b ↦ elim (Option-cases (find_row order_key (new_order t o).id db.orders)) [
    | inr (x, e) ↦ rw (b, e) (unchanged (λ j. refl))
    | inl e ↦
        let entry = new_entry t (new_order t o).id created (some "Order created") in
        elim (Option-cases (find_row entry_key entry.id db.history)) [
          | inr (x, h) ↦ rw (b, e, h) (unchanged (λ j. refl))
          | inl h ↦
              rw (b, e, h)
                (opened (new_order t o).id (rw e refl) (pushed (new_order t o) db.orders))
        ]
  ]
]

transition-Step :
    (t : Stamp) (k : String) (r : TransitionOrder) (db : OrderDb)
    → Step (life_cycle db) (life_cycle (Repository.transition_order t k r db).1)
unfolding Repository.transition_order life_cycle
transition-Step t k r db = elim (Option-cases (find_row order_key k db.orders)) [
  | inl e ↦ rw (e, Repository.transition_order) (unchanged (λ j. refl))
  | inr (o, e) ↦ elim (Bool-cases (is_allowed o.status r.status)) [
    | inr a ↦ rw (e, Repository.transition_order, a) (unchanged (λ j. refl))
    | inl a ↦ elim (Bool-cases (fits_reason r.reason)) [
      | inr f ↦ rw (e, Repository.transition_order, a, f) (unchanged (λ j. refl))
      | inl f ↦
          let entry = new_entry t k r.status r.reason in
          elim (Option-cases (find_row entry_key entry.id db.history)) [
            | inr (x, h) ↦ rw (e, Repository.transition_order, a, f, h) (unchanged (λ j. refl))
            | inl h ↦
                rw (e, Repository.transition_order, a, f, h)
                  (moved k o.status r.status (rw e refl) a
                    (λ j. updated k r.status t.now o db.orders j e))
          ]
    ]
  ]
]

finish_create-tables : (p : Result OrderError Order × OrderDb) → (finish_create p).1 ≡ p.1
finish_create-tables (ok o, db) = refl
finish_create-tables (err e, db) = refl

finish_transition-tables :
    (p : Result OrderError (Option Order) × OrderDb) → (finish_transition p).1 ≡ p.1
finish_transition-tables (ok none, db) = refl
finish_transition-tables (ok (some o), db) = refl
finish_transition-tables (err e, db) = refl

service_create-Step :
    (t : Stamp) (r : CreateOrderRequest) (db : OrderDb)
    → Step (life_cycle db) (life_cycle (create_order t r db).1)
unfolding create_order
service_create-Step t r db = elim (Option-cases (validate_create r)) [
  | inl refused ↦ rw (refused, create_order) (unchanged (λ j. refl))
  | inr (o, e) ↦
      rw (e, create_order, finish_create-tables (Repository.create_order t o db))
        (create-Step t o db)
]

service_transition-Step :
    (t : Stamp) (k : String) (r : TransitionOrderRequest) (db : OrderDb)
    → Step (life_cycle db) (life_cycle (transition_order t k r db).1)
unfolding transition_order
service_transition-Step t k r db = elim (Option-cases (parse_status r.status)) [
  | inl refused ↦ rw (refused, transition_order) (unchanged (λ j. refl))
  | inr (s, e) ↦
      let wanted : TransitionOrder = record { status = s; reason = r.reason } in
      rw (e, transition_order, finish_transition-tables (Repository.transition_order t k wanted db))
        (transition-Step t k wanted db)
]

serve-Step : (r : Request) (db : OrderDb) → Step (life_cycle db) (life_cycle (serve r db))
unfolding serve
serve-Step (create t r) db = service_create-Step t r db
serve-Step (transition t k r) db = service_transition-Step t k r db

-- Sequences of steps of the specification.
pub data Steps (f : LifeCycle) : LifeCycle → Type 0 where
  none_yet : Steps f f
  one_more : {g h : LifeCycle} → Steps f g → Step g h → Steps f h

-- Every sequence of requests, accepted or refused, takes the life cycles that the tables hold along
-- steps of the specification: creations of orders that are not there, and allowed transitions.
pub Reach-Steps : {start db : OrderDb} → Reach start db → Steps (life_cycle start) (life_cycle db)
Reach-Steps here = none_yet
Reach-Steps (next {db = db} p r) = one_more (Reach-Steps p) (serve-Step r db)
