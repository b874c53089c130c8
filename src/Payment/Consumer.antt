-- ===== src/Payment/Consumer.antt =====
-- The payment consumer (src/modules/payment/payment.consumer.ts).
use order_lifecycle_backend.Prelude.{ℕ, String, Bool, true, false, Option, none, some}
use order_lifecycle_backend.Entities.{
  OrderEvent, OrderStatus, paid, failed, payment, order_event, order_failed, payment_processed,
  RoutingKey,
}
use order_lifecycle_backend.World.{Platform, M, pure, gets, ◌>>=◌, ◌>>◌, ConsumerOutcome}
use order_lifecycle_backend.Metrics.{record_consumer_outcome, record_order_failure}
use order_lifecycle_backend.Messaging.Outbox.{enqueue}
use order_lifecycle_backend.Messaging.Inbox.{run_once}
use order_lifecycle_backend.Orders.Transition.{transition_order}
use order_lifecycle_backend.Payment.Gateway.{Provider, PaymentResult, authorize}

-- `Nack | void`
pub data Handled : Type 0 where
  nacked settled : Handled

abbrev pub target_status : Bool → OrderStatus
target_status true = paid
target_status false = failed

-- `result.declineReason ?? 'payment_declined'`
abbrev pub reason_or_default : Option String → String
reason_or_default none = "payment_declined"
reason_or_default (some reason) = reason

module _ (P : Platform) where
  abbrev pub announce : OrderEvent → PaymentResult → ℕ → Bool → M (Unit {0})
  announce event result now true = enqueue P payment_processed (
      order_event
        (record { order_id = event.order_id; user_id = event.user_id; occurred_at = now }))
  announce event result now false = enqueue P RoutingKey.failed (
      order_failed (record {
        order_id = event.order_id;
        user_id = event.user_id;
        reason = reason_or_default result.decline_reason;
        occurred_at = now;
      }))

  -- The work that commits with the inbox record.
  unfoldable pub advance_paid : OrderEvent → PaymentResult → M (Unit {0})
  advance_paid event result = do
    transition_order P event.order_id (target_status result.authorized)
    now ← gets (λ w. w.now)
    announce event result now result.authorized

  abbrev pub count_decline : PaymentResult → Bool → M (Unit {0})
  count_decline result true = pure tt
  count_decline result false = record_order_failure (reason_or_default result.decline_reason)

  abbrev pub finish : PaymentResult → Option (Unit {0}) → M Handled
  finish result none = record_consumer_outcome payment ConsumerOutcome.skipped >> pure settled
  finish result (some _) =
      record_consumer_outcome payment ConsumerOutcome.processed
      >> (count_decline result result.authorized >> pure settled)

  -- `authorizeAndAdvance`, on the message's `messageId`
  unfoldable pub authorize_and_advance : Provider → Option ℕ → OrderEvent → M Handled
  authorize_and_advance provider none event =
      record_consumer_outcome payment ConsumerOutcome.failed >> pure nacked
  authorize_and_advance provider (some message_id) event = do
    result ← authorize provider event
    ran ← run_once message_id payment (advance_paid event result)
    finish result ran
