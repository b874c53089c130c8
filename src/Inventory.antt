-- ===== src/Inventory.antt =====
-- The inventory consumer (src/modules/inventory/inventory.consumer.ts): it reserves the stock of
-- a created order, or fails the order when a product is short.
pub mod Outcomes
use order_lifecycle_backend.Prelude.{ℕ, Option, none, some}
use order_lifecycle_backend.Entities.{
  OrderCreatedEvent, reserved, OrderStatus, inventory, order_failed, RoutingKey,
}
use order_lifecycle_backend.World.{
  Platform, World, M, ok, pure, throw, gets, catch_error, Failure, insufficient_stock, ◌>>=◌, ◌>>◌,
}
use order_lifecycle_backend.Metrics.{record_order_failure}
use order_lifecycle_backend.Messaging.Outbox.{enqueue}
use order_lifecycle_backend.Messaging.EventOnce.{
  EventOutcome, processed, skipped, nack, process_event_once,
}
use order_lifecycle_backend.Products.{reserve_stock}
use order_lifecycle_backend.Orders.Transition.{transition_order}

module _ (P : Platform) where
  -- The `try` part of the work: no product is short.
  unfoldable pub reserve_and_advance : OrderCreatedEvent → M (Option ℕ)
  reserve_and_advance event = do
    reserve_stock event.items
    transition_order P event.order_id reserved
    pure none

  -- The `catch` part: only a shortage is handled, and the order fails in the same transaction.
  unfoldable pub on_shortage : OrderCreatedEvent → Failure → M (Option ℕ)
  on_shortage event (insufficient_stock product_id) = do
    transition_order P event.order_id OrderStatus.failed
    now ← gets (λ w. w.now)
    enqueue P RoutingKey.failed (
        order_failed (record {
          order_id = event.order_id;
          user_id = event.user_id;
          reason = "insufficient_stock";
          occurred_at = now;
        }))
    pure (some product_id)
  on_shortage event e = throw e

  -- The work that commits with the inbox record; its result is `shortProductId`.
  unfoldable pub reserve_work : OrderCreatedEvent → M (Option ℕ)
  reserve_work event = catch_error (reserve_and_advance event) (on_shortage event)

  abbrev pub count_shortage : EventOutcome (Option ℕ) → M (EventOutcome (Option ℕ))
  count_shortage (processed (some product_id)) =
      record_order_failure "insufficient_stock" >> pure (processed (some product_id))
  count_shortage outcome = pure outcome

  -- `reserve`, on the message's `messageId`
  unfoldable pub reserve : Option ℕ → OrderCreatedEvent → M (EventOutcome (Option ℕ))
  reserve message_id event = do
    outcome ← process_event_once message_id inventory (reserve_work event)
    count_shortage outcome
