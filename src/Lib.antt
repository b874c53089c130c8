-- ===== src/Lib.antt =====
-- A verification library for the order lifecycle backend: orders that are created by a user,
-- reserved against the stock, paid after the user's confirmation, and completed, with events
-- between the steps.
--
-- The program's parts, and how they interact
--   A user fills a cart and checks it out (src/modules/cart/cart.service.ts), which creates an order.
--   Requests reach the orders service (src/modules/orders/services/orders.service.ts). It changes
--   the order table by conditional UPDATEs and writes each event to the outbox table in the same
--   transaction (src/modules/messaging/outbox/outbox.service.ts). The relay publishes the outbox
--   rows (outbox-relay.service.ts), woken by the commit subscriber (outbox-commit.subscriber.ts).
--   The inventory, payment, completion and email consumers handle the deliveries, each once per
--   message by the inbox (src/modules/messaging/inbox/inbox.service.ts). A handler that throws
--   goes to the retry handler (src/modules/messaging/retry-error-handler.ts).
--
-- Which file models what
--   Prelude: library names, Boolean tests on numbers, and tables as lists of rows.
--   Entities: the rows of src/entities and the events of
--     src/modules/messaging/events/order-events.ts.
--   World: the state (tables, Redis writes, counters, clock), the monad of the services, and the
--     record of what is outside the repository: Redis and randomUUID.
--   Metrics: the recording functions of src/modules/metrics/metrics.collectors.ts, and the buffer
--     of metrics-persistence.service.ts.
--     Metrics/History is metrics-history.service.ts, Metrics/Gauges live-gauges.service.ts,
--     Metrics/Requests http-metrics.interceptor.ts.
--   Seeds: the boot's data (src/database/seeds/seed.service.ts).
--   Migrations: the migrations of src/database/migrations as statements on a schema, runs and
--     reverts of them (Deploying), and the tables that the entities declare (Declared).
--   Cache: CacheService (src/modules/cache/cache.service.ts).
--   Products: ProductsService (src/modules/products/products.service.ts), and the scheduled top-up
--     (stock-replenishment.service.ts).
--   Cart: CartService (src/modules/cart/cart.service.ts).
--   Orders: the state machine (src/modules/orders/order-state-machine.ts) and OrdersService, one
--     module per operation: Creation, Reading, Transition, PaymentClaim, Cancellation.
--   Messaging: Outbox, Inbox, EventOnce (process-event-once.ts), Retry, Relay.
--   Payment: Gateway and Consumer of src/modules/payment.
--   Inventory, Completion, Email: the consumers of those names.
--   Api: the routes of the orders, cart and products controllers, behind the guard and the
--     validation of src/common/validation.
--   Correlation: the context of a request or of a consumer's handler
--     (src/common/correlation/correlation.ts); Messaging/Outbox/Tracing follows it to the outbox.
--   Auth: refresh tokens, accounts, guards and routes (src/modules/auth), and the first
--     administrator (src/database/seeds/create-admin.ts); its Calls are any sequence of requests.
--   Lifecycle: the calls of all of these in any sequence; Cached adds the reads in flight that
--     store what they have found in Redis later.
--     Fulfilment follows one order through the deliveries and the confirmation in turn.
--   Tests: runs at concrete inputs.
--
-- How state and operations correspond to the code
--   Each operation is a function from the world to a result and a world. An error leaves what
--   was written before it, and a transaction puts the tables back. TypeORM queries are the
--   functions of Prelude.Tables; a query's affected count is the number of rows that its WHERE
--   matches. What runs between two statements of one operation is modelled where the code has
--   to guard against it: the second half of a cancellation or of a payment confirmation takes
--   the order that the first half has read, a transition takes the order rows and a delivery the
--   inbox rows that its query has seen, and Payment/Gateway/Races runs the ledger's statements of
--   several authorisations in any order.
--
-- Numbers and fuel
--   Identifiers are numbers that are only compared, timestamps are milliseconds, and stock and
--   quantities are natural numbers, which the code's guards keep them. The relay's loop runs on
--   fuel, and one round more than there are waiting rows is enough when the broker accepts. The
--   retries run on fuel, and one more than the retry bound is enough.
--
-- Not modelled
--   The metrics history controller, the system sampler, the load scripts of ops and the
--   configuration, which hold no state of the shop; log output and timers.
--   PostgreSQL, Redis, RabbitMQ and the frameworks are outside the repository.
pub mod Prelude
pub mod Entities
pub mod World
pub mod Metrics
pub mod Seeds
pub mod Migrations
pub mod Cache
pub mod Products
pub mod Messaging
pub mod Orders
pub mod Cart
pub mod Payment
pub mod Inventory
pub mod Completion
pub mod Email
pub mod Correlation
pub mod Auth
pub mod Api
pub mod Lifecycle
mod Tests
