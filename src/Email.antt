-- ===== src/Email.antt =====
-- The email consumer (src/modules/email/email.consumer.ts): the notification is a log line, which
-- is the result of its work here.
use order_lifecycle_backend.Prelude.{ℕ, String, Option, none, some}
use order_lifecycle_backend.Entities.{email}
use order_lifecycle_backend.World.{M, pure}
use order_lifecycle_backend.Messaging.EventOnce.{EventOutcome, process_event_once}

-- The line to a user: the order has completed, or failed for a reason.
pub record Notification : Type 0 where
  pub user_id : ℕ
  pub order_id : ℕ
  pub failed_reason : Option String

-- The two kinds of events that the queue is bound to.
pub data TerminalEvent : Type 0 where
  completed_event : (order_id user_id : ℕ) → TerminalEvent
  failed_event : (order_id user_id : ℕ) → String → TerminalEvent

abbrev pub line_of : TerminalEvent → Notification
line_of (completed_event o u) = record { user_id = u; order_id = o; failed_reason = none }
line_of (failed_event o u reason) = record {
  user_id = u;
  order_id = o;
  failed_reason = some reason;
}

-- `notify`, on the message's `messageId`
unfoldable pub notify : Option ℕ → TerminalEvent → M (EventOutcome Notification)
notify message_id event = process_event_once message_id email (pure (line_of event))
