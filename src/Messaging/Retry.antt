-- ===== src/Messaging/Retry.antt =====
-- The bounded-retry error handler (src/modules/messaging/retry-error-handler.ts).
pub mod Backoff
use order_lifecycle_backend.Prelude.{
  ℕ, zero, suc, ◌+◌, ◌-◌, ◌*◌, ◌^◌, Option, none, some, List, [], ◌∷◌, ltb, if◌then◌else◌,
}
use order_lifecycle_backend.Entities.{Consumer, inventory, payment, completion, email}
use order_lifecycle_backend.World.{ConsumerOutcome, retried, failed}

abbrev pub default_max_retries : ℕ
default_max_retries = 3

abbrev pub default_base_delay_ms : ℕ
default_base_delay_ms = 1000

-- `retryDelayMs`
unfoldable pub retry_delay_ms : ℕ → ℕ → ℕ
retry_delay_ms attempt base = base * 2 ^ (attempt - 1)

-- The wait queue `<queue>.retry.<delay>ms`; a work queue is named by its consumer.
pub record WaitQueue : Type 0 where
  pub queue : Consumer
  pub delay_ms : ℕ

-- `retryQueueName`
abbrev pub retry_queue_name : Consumer → ℕ → WaitQueue
retry_queue_name queue delay_ms = record { queue = queue; delay_ms = delay_ms }

-- The calls on the channel: declaring a wait queue with its TTL and the work queue that it
-- dead-letters to, parking the message there under a new attempt count, and settling it.
pub data ChannelCall : Type 0 where
  assert_queue : WaitQueue → ℕ → Consumer → ChannelCall
  send_to_queue : WaitQueue → ℕ → ChannelCall
  ack nack : ChannelCall

-- `Number(headers['x-attempts'] ?? 0)`
abbrev pub attempts_of : Option ℕ → ℕ
attempts_of none = 0
attempts_of (some n) = n

abbrev park : Consumer → ℕ → ℕ → List ChannelCall
park queue attempt delay_ms =
    assert_queue (retry_queue_name queue delay_ms) delay_ms queue
    ∷ send_to_queue (retry_queue_name queue delay_ms) attempt
    ∷ ack
    ∷ []

-- The handler that `createRetryErrorHandler` returns: the channel calls that it makes for a
-- message with the given attempts header, and the outcome that it counts.
unfoldable pub on_failure : Consumer → ℕ → ℕ → Option ℕ → List ChannelCall × ConsumerOutcome
unfolding retry_delay_ms
on_failure queue max_retries base header =
    if ltb (attempts_of header) max_retries
    then (
      park queue (attempts_of header + 1) (retry_delay_ms (attempts_of header + 1) base),
      retried,
    )
    else (nack ∷ [], failed)
