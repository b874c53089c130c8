-- ===== src/Lifecycle/Fulfilment.antt =====
-- An order on its way from creation to completion: reserved by the inventory consumer, confirmed by
-- its user, paid and completed by the consumers, with any time in between.
pub mod Works
pub mod Handled
pub mod Reached
use order_lifecycle_backend.Prelude.{ℕ, some, List}
use order_lifecycle_backend.Entities.{Order, OrderEvent, OrderCreatedEvent, StockLine, reserved}
use order_lifecycle_backend.World.{Platform, World}
use order_lifecycle_backend.Orders.Rows.{set_status}
use order_lifecycle_backend.Orders.PaymentClaim.{confirm_payment}
use order_lifecycle_backend.Payment.Gateway.{Provider}
use order_lifecycle_backend.Payment.Consumer.{authorize_and_advance}
use order_lifecycle_backend.Inventory.{reserve}
use order_lifecycle_backend.Completion.{complete}

abbrev pub at : ℕ → World → World
at t w = record w { now = t }

abbrev pub created_event_of : Order → List StockLine → ℕ → OrderCreatedEvent
created_event_of o lines t = record {
  order_id = o.id;
  user_id = o.user_id;
  items = lines;
  occurred_at = t;
}

abbrev pub event_at : Order → ℕ → OrderEvent
event_at o t = record { order_id = o.id; user_id = o.user_id; occurred_at = t }

module _ (P : Platform) (provider : Provider) (o : Order) (lines : List StockLine) where
  -- The message with this id reaches the inventory consumer.
  unfoldable pub reserved_world : ℕ → World → World
  reserved_world id w = (reserve P (some id) (created_event_of o lines w.now) w).1

  -- The user confirms the order, which the service has read as it is now.
  unfoldable pub confirmed_world : ℕ → ℕ → World → World
  confirmed_world id t w =
      (confirm_payment P o.id (set_status reserved w.now o) (at t (reserved_world id w))).1

  -- The message of the confirmation, made at the time t, reaches the payment consumer at u.
  unfoldable pub paid_world : (ids : ℕ × ℕ) → (times : ℕ × ℕ) → World → World
  paid_world (i, j) (t, u) w =
      (authorize_and_advance P provider (some j) (event_at o t) (at u (confirmed_world i t w))).1

  -- The message of the payment reaches the completion consumer at v.
  unfoldable pub completed_world : (ids : ℕ × ℕ × ℕ) → (times : ℕ × ℕ × ℕ) → World → World
  completed_world (i, j, k) (t, u, v) w =
      (complete P (some k) (event_at o u) (at v (paid_world (i, j) (t, u) w))).1
