-- ===== src/Order/Status.antt =====
-- The order's life cycle of repository.py. The `status` column holds these six texts only:
-- `create_order` writes the first, and `transition_order` writes what the table allows.
use retail_ops_microservices.Base.{
  Bool, true, false, Option, none, some, List, [], ◌∷◌, String, ◌==◌, ◌||◌, if◌then◌else◌,
}

pub data OrderStatus : Type 0 where
  created invoice_generated payment_completed payment_failed receipt_generated notification_sent :
      OrderStatus

OrderStatus-discrete : Discrete OrderStatus
OrderStatus-discrete = hlevel

-- `==` on the texts of two statuses.
abbrev pub status_eq : OrderStatus → OrderStatus → Bool
status_eq created created = true
status_eq invoice_generated invoice_generated = true
status_eq payment_completed payment_completed = true
status_eq payment_failed payment_failed = true
status_eq receipt_generated receipt_generated = true
status_eq notification_sent notification_sent = true
status_eq _ _ = false

-- `x in {…}`
abbrev contains : List OrderStatus → OrderStatus → Bool
contains [] s = false
contains (x ∷ xs) s = status_eq x s || contains xs s

-- ALLOWED_ORDER_TRANSITIONS
abbrev allowed_order_transitions : OrderStatus → List OrderStatus
allowed_order_transitions created = invoice_generated ∷ []
allowed_order_transitions invoice_generated = payment_completed ∷ payment_failed ∷ []
allowed_order_transitions payment_failed = payment_completed ∷ payment_failed ∷ []
allowed_order_transitions payment_completed = receipt_generated ∷ []
allowed_order_transitions receipt_generated = notification_sent ∷ []
allowed_order_transitions notification_sent = []

abbrev pub is_allowed : OrderStatus → OrderStatus → Bool
is_allowed current next = contains (allowed_order_transitions current) next

-- The texts that the column and the requests carry.
abbrev pub status_text : OrderStatus → String
status_text created = "created"
status_text invoice_generated = "invoice_generated"
status_text payment_completed = "payment_completed"
status_text payment_failed = "payment_failed"
status_text receipt_generated = "receipt_generated"
status_text notification_sent = "notification_sent"

-- The `Literal` of `TransitionOrderRequest.status`: `created` is not among them.
unfoldable pub parse_status : String → Option OrderStatus
parse_status t =
    if t == "invoice_generated"
    then some invoice_generated
    else if t == "payment_completed"
    then some payment_completed
    else if t == "payment_failed"
    then some payment_failed
    else if t == "receipt_generated"
    then some receipt_generated
    else if t == "notification_sent"
    then some notification_sent
    else none
