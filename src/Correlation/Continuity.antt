-- ===== src/Correlation/Continuity.antt =====
-- The events that a request or a consumer's handler enqueues, and the correlation id that it came
-- with (src/common/correlation/correlation.ts).
use order_lifecycle_backend.Prelude.{ℕ, Option, none, some, suc}
use order_lifecycle_backend.Entities.{OrderCreatedEvent, OrderEvent}
use order_lifecycle_backend.World.{Platform, World}
use order_lifecycle_backend.World.Always.{Always}
use order_lifecycle_backend.Orders.Reading.{list_orders_for_user, get_order_for_user}
use order_lifecycle_backend.Cart.{get_open_cart, set_item, remove_item, checkout}
use order_lifecycle_backend.Products.{list}
use order_lifecycle_backend.Orders.PaymentClaim.{initiate_payment}
use order_lifecycle_backend.Orders.Cancellation.{cancel_order}
use order_lifecycle_backend.Payment.Gateway.{Provider}
use order_lifecycle_backend.Email.{TerminalEvent}
use order_lifecycle_backend.Correlation.{
  HeaderValue, usable_id, MessageProperties, middleware, on_order_created, on_inventory_reserved,
  on_payment_processed, on_terminal_event,
}

-- What comes in with a correlation header or without one: the service call of a route of the
-- orders, cart and products controllers, or a message with its `messageId`.
pub data Incoming : Type 0 where
  listing opening checking_out : (user_id : ℕ) → Incoming
  getting initiating cancelling : (order_id user_id : ℕ) → Incoming
  setting : (user_id product_id quantity : ℕ) → Incoming
  removing : (user_id product_id : ℕ) → Incoming
  listing_products : Incoming
  order_created : Option ℕ → OrderCreatedEvent → Incoming
  inventory_reserved payment_processed : Option ℕ → OrderEvent → Incoming
  terminal_event : Option ℕ → TerminalEvent → Incoming

abbrev properties : Option ℕ → HeaderValue → MessageProperties
properties message_id header = record { message_id = message_id; correlation_header = header }

module _ (P : Platform) where
  abbrev given_or_next : Option ℕ → World → ℕ
  given_or_next none w = P.random_uuid w.drawn
  given_or_next (some id) w = id

  -- The header's id, or the next random one.
  abbrev pub trace_id : HeaderValue → World → ℕ
  trace_id header w = given_or_next (usable_id header) w

  -- The state after a request or a delivery, whether its handler has returned or thrown.
  unfoldable pub handle : Provider → Incoming → HeaderValue → World → World
  handle provider (listing user_id) header w =
      (middleware P header (list_orders_for_user P user_id) w).1
  handle provider (getting id user_id) header w =
      (middleware P header (get_order_for_user P id user_id) w).1
  handle provider (opening user_id) header w = (middleware P header (get_open_cart P user_id) w).1
  handle provider (setting user_id product_id quantity) header w =
      (middleware P header (set_item P user_id product_id quantity) w).1
  handle provider (removing user_id product_id) header w =
      (middleware P header (remove_item P user_id product_id) w).1
  handle provider (checking_out user_id) header w = (middleware P header (checkout P user_id) w).1
  handle provider listing_products header w = (middleware P header list w).1
  handle provider (initiating id user_id) header w =
      (middleware P header (initiate_payment P id user_id) w).1
  handle provider (cancelling id user_id) header w =
      (middleware P header (cancel_order P id user_id) w).1
  handle provider (order_created message event) header w =
      (on_order_created P event (properties message header) w).1
  handle provider (inventory_reserved message event) header w =
      (on_inventory_reserved P provider event (properties message header) w).1
  handle provider (payment_processed message event) header w =
      (on_payment_processed P event (properties message header) w).1
  handle provider (terminal_event message event) header w =
      (on_terminal_event P event (properties message header) w).1

  -- The world in which the work runs, in the context of the given id or of the next random one.
  entered : Option ℕ → World → World
  entered none w = record w { drawn = suc w.drawn; correlation = some (P.random_uuid w.drawn) }
  entered (some id) w = record w { correlation = some id }
