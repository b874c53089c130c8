-- ===== src/Completion.antt =====
-- The completion consumer (src/modules/completion/order-completion.consumer.ts).
use order_lifecycle_backend.Prelude.{ℕ, Option}
use order_lifecycle_backend.Entities.{OrderEvent, OrderStatus, completion, order_event, RoutingKey}
use order_lifecycle_backend.World.{Platform, M, gets, ◌>>=◌, ◌>>◌}
use order_lifecycle_backend.Messaging.Outbox.{enqueue}
use order_lifecycle_backend.Messaging.EventOnce.{EventOutcome, process_event_once}
use order_lifecycle_backend.Orders.Transition.{transition_order}

module _ (P : Platform) where
  unfoldable pub complete_work : OrderEvent → M (Unit {0})
  complete_work event = do
    transition_order P event.order_id OrderStatus.completed
    now ← gets (λ w. w.now)
    enqueue P RoutingKey.completed (
        order_event
          (record { order_id = event.order_id; user_id = event.user_id; occurred_at = now }))

  -- `complete`, on the message's `messageId`
  unfoldable pub complete : Option ℕ → OrderEvent → M (EventOutcome (Unit {0}))
  complete message_id event = process_event_once message_id completion (complete_work event)
