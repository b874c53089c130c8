-- ===== src/Messaging/EventOnce.antt =====
-- The shared entry point of the consumers (src/modules/messaging/process-event-once.ts).
use order_lifecycle_backend.Prelude.{ℕ, Option, none, some}
use order_lifecycle_backend.Entities.{Consumer}
use order_lifecycle_backend.World.{M, pure, ◌>>=◌, ◌>>◌, ConsumerOutcome}
use order_lifecycle_backend.Metrics.{record_consumer_outcome}
use order_lifecycle_backend.Messaging.Inbox.{run_once}

-- `'processed' | 'skipped' | Nack`; a processed message carries what its work has found.
pub data EventOutcome (A : Type 0) : Type 0 where
  processed : A → EventOutcome A
  skipped nack : EventOutcome A

module _ {A : Type 0} where
  abbrev pub outcome_of : Option A → EventOutcome A
  outcome_of (some a) = processed a
  outcome_of none = skipped

  abbrev pub label_of : Option A → ConsumerOutcome
  label_of (some a) = ConsumerOutcome.processed
  label_of none = ConsumerOutcome.skipped

  -- `processEventOnce`, on the message's `messageId`
  unfoldable pub process_event_once : Option ℕ → Consumer → M A → M (EventOutcome A)
  process_event_once none consumer work =
      record_consumer_outcome consumer ConsumerOutcome.failed >> pure nack
  process_event_once (some id) consumer work = do
    ran ← run_once id consumer work
    record_consumer_outcome consumer (label_of ran)
    pure (outcome_of ran)
