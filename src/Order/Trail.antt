-- ===== src/Order/Trail.antt =====
-- The statuses that an order has passed through, the newest first, and the paths of the life cycle.
use retail_ops_microservices.Base.{
  ℕ, suc, ◌≡◌, Bool, true, false, List, [], ◌∷◌, String, arith, ◌==◌, if◌then◌else◌,
}
use retail_ops_microservices.Order.Status.{
  OrderStatus, created, invoice_generated, payment_completed, payment_failed, receipt_generated,
  notification_sent, status_eq, is_allowed,
}
use retail_ops_microservices.Order.Types.{OrderHistoryEntry}

-- The history rows of one order.
abbrev pub trail : String → List OrderHistoryEntry → List OrderStatus
trail k [] = []
trail k (e ∷ es) = let rest = trail k es in if e.order_id == k then e.status ∷ rest else rest

-- A path that began at `created` and took allowed transitions only.
abbrev pub IsTrail : List OrderStatus → Type 0
IsTrail [] = ⊥
IsTrail (s ∷ []) = s ≡ created
IsTrail (t ∷ s ∷ r) = (is_allowed s t ≡ true) × IsTrail (s ∷ r)

abbrev pub count : OrderStatus → List OrderStatus → ℕ
count s [] = 0
count s (x ∷ xs) = let rest = count s xs in if status_eq x s then suc rest else rest

-- Whether the order has been paid.
abbrev pub is_paid : OrderStatus → Bool
is_paid payment_completed = true
is_paid receipt_generated = true
is_paid notification_sent = true
is_paid _ = false

abbrev pub payments : OrderStatus → ℕ
payments s = if is_paid s then 1 else 0

-- One allowed step counts one payment if it enters `payment_completed`, and none otherwise.
allowed_payments :
    (s t : OrderStatus)
    → is_allowed s t ≡ true
    → payments t ≡ (if status_eq t payment_completed then suc (payments s) else payments s)
allowed_payments created t h = ground arith
allowed_payments invoice_generated t h = ground arith
allowed_payments payment_completed t h = ground arith
allowed_payments payment_failed t h = ground arith
allowed_payments receipt_generated t h = ground arith
allowed_payments notification_sent t h = ground arith

-- On a path the order was paid exactly once if its last status says so, and never otherwise.
pub count-IsTrail :
    (s : OrderStatus) (r : List OrderStatus)
    → IsTrail (s ∷ r)
    → count payment_completed (s ∷ r) ≡ payments s
count-IsTrail s [] h = rw h
count-IsTrail t (s ∷ r) h = ground (arith, allowed_payments s t h.0, count-IsTrail s r h.1)
