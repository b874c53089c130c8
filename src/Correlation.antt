-- ===== src/Correlation.antt =====
-- The correlation id of a handler (src/common/correlation/correlation.ts): the middleware of the
-- requests, and the consumers' handlers that run with it (src/modules/inventory, payment,
-- completion, email).
pub mod Continuity
use order_lifecycle_backend.Prelude.{ℕ, Option, none, some, List, [], ◌∷◌}
use order_lifecycle_backend.Entities.{OrderCreatedEvent, OrderEvent}
use order_lifecycle_backend.World.{Platform, World, M, Result, ok, random_id, pure, ◌>>=◌}
use order_lifecycle_backend.Messaging.EventOnce.{EventOutcome}
use order_lifecycle_backend.Payment.Gateway.{Provider}
use order_lifecycle_backend.Payment.Consumer.{Handled, authorize_and_advance}
use order_lifecycle_backend.Inventory.{reserve}
use order_lifecycle_backend.Completion.{complete}
use order_lifecycle_backend.Email.{TerminalEvent, Notification, notify}

-- An inbound header: absent, a string of blanks, a single id, or an array.
pub data HeaderValue : Type 0 where
  missing blank : HeaderValue
  single : ℕ → HeaderValue
  several : List ℕ → HeaderValue

abbrev pub usable_id : HeaderValue → Option ℕ
usable_id missing = none
usable_id blank = none
usable_id (single id) = some id
usable_id (several []) = none
usable_id (several (id ∷ ids)) = some id

-- The properties of a message that the handlers read.
pub record MessageProperties : Type 0 where
  pub message_id : Option ℕ
  pub correlation_header : HeaderValue

-- Back in the context that was active before.
abbrev leave_context : {A : Type 0} → Option ℕ → Result A × World → Result A × World
leave_context outer (r, w) = (r, record w { correlation = outer })

-- The response: the id as its header, and the handler's answer.
abbrev pub echo : {A : Type 0} → ℕ → Result A × World → Result (ℕ × Result A) × World
echo id (r, w) = (ok (id, r), w)

module _ (P : Platform) where
  abbrev pub id_or_random : Option ℕ → M ℕ
  id_or_random none = random_id P
  id_or_random (some id) = pure id

  -- `resolveCorrelationId`
  unfoldable pub resolve_correlation_id : HeaderValue → M ℕ
  resolve_correlation_id header = id_or_random (usable_id header)

  -- `work` in a context that holds the id.
  abbrev pub in_context : {A : Type 0} → M A → ℕ → M A
  in_context work id w = leave_context w.correlation (work (record w { correlation = some id }))

  -- `runWithCorrelationId`
  unfoldable pub run_with_correlation_id : {A : Type 0} → MessageProperties → M A → M A
  run_with_correlation_id message work =
      resolve_correlation_id message.correlation_header >>= in_context work

  -- The middleware of `correlationClsModule`, around a request's handler: the id is also a header
  -- of the response, whatever the handler answers.
  unfoldable pub middleware : {A : Type 0} → HeaderValue → M A → M (ℕ × Result A)
  middleware header handler =
      resolve_correlation_id header >>= λ id w. echo id (in_context handler id w)

  -- `onOrderCreated`
  unfoldable pub on_order_created :
      OrderCreatedEvent → MessageProperties → M (EventOutcome (Option ℕ))
  on_order_created event message =
      run_with_correlation_id message (reserve P message.message_id event)

  -- `onInventoryReserved`
  unfoldable pub on_inventory_reserved : Provider → OrderEvent → MessageProperties → M Handled
  on_inventory_reserved provider event message =
      run_with_correlation_id message (authorize_and_advance P provider message.message_id event)

  -- `onPaymentProcessed`
  unfoldable pub on_payment_processed : OrderEvent → MessageProperties → M (EventOutcome (Unit {0}))
  on_payment_processed event message =
      run_with_correlation_id message (complete P message.message_id event)

  -- `onTerminalEvent`
  unfoldable pub on_terminal_event :
      TerminalEvent → MessageProperties → M (EventOutcome Notification)
  on_terminal_event event message =
      run_with_correlation_id message (notify message.message_id event)
