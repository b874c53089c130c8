-- ===== src/Orders/Rows.antt =====
-- The order table: its key, the joined items, and the guarded status updates.
use order_lifecycle_backend.Prelude.{
  ℕ, Bool, true, false, ◌&&◌, ◌||◌, Option, none, some, List, ◌==◌, select,
}
use order_lifecycle_backend.Entities.{Order, OrderItem, OrderStatus, pending, reserved}
use order_lifecycle_backend.World.{World}
use order_lifecycle_backend.Orders.StateMachine.{same_status}

abbrev pub order_id : Order → ℕ
order_id o = o.id

abbrev pub belongs_to : ℕ → OrderItem → Bool
belongs_to id item = item.order_id == id

-- `relations: { items: true }`
abbrev pub with_items : List OrderItem → Order → Order
with_items items o = record o { items = some (select (belongs_to o.id) items) }

abbrev pub is_null {ℓ} : {A : Type ℓ} → Option A → Bool
is_null none = true
is_null (some _) = false

abbrev pub set_orders : List Order → World → World
set_orders rows w = record w { db = record (w.db) { orders = rows } }

-- An UPDATE of an order also stamps its `updatedAt` column (`@UpdateDateColumn`).
abbrev pub set_status : OrderStatus → ℕ → Order → Order
set_status s now o = record o { status = s; updated_at = now }

abbrev pub set_payment_initiated : ℕ → Order → Order
set_payment_initiated now o = record o { payment_initiated_at = some now; updated_at = now }

-- `status = :status`
abbrev pub has_status : OrderStatus → Order → Bool
has_status s o = same_status o.status s

-- `status = 'RESERVED' AND "paymentInitiatedAt" IS NULL`
abbrev pub is_payable : Order → Bool
is_payable o = same_status o.status reserved && is_null o.payment_initiated_at

-- `(status = 'PENDING') OR (status = 'RESERVED' AND "paymentInitiatedAt" IS NULL)`
abbrev pub is_cancellable : Order → Bool
is_cancellable o =
    same_status o.status pending
    || (same_status o.status reserved && is_null o.payment_initiated_at)
