-- ===== src/Messaging/Outbox.antt =====
-- Writing a lifecycle event to the outbox table (src/modules/messaging/outbox/outbox.service.ts).
pub mod Tracing
use order_lifecycle_backend.Prelude.{ℕ, Option, none, some, [], ◌∷◌, ◌++◌}
use order_lifecycle_backend.Entities.{OutboxMessage, RoutingKey, Payload, order_exchange}
use order_lifecycle_backend.World.{Platform, M, pure, gets, modify_db, random_id, ◌>>=◌}

module _ (P : Platform) where
  -- `getCorrelationId(this.cls) ?? randomUUID()`
  abbrev pub correlation_or_random : Option ℕ → M ℕ
  correlation_or_random none = random_id P
  correlation_or_random (some c) = pure c

  abbrev pub message : ℕ → RoutingKey → Payload → ℕ → ℕ → OutboxMessage
  message id routing_key payload correlation_id now = record {
    id = id;
    exchange = order_exchange;
    routing_key = routing_key;
    payload = payload;
    correlation_id = correlation_id;
    created_at = now;
    published_at = none;
  }

  -- `enqueue`: it inserts by the caller's own transaction.
  unfoldable pub enqueue : RoutingKey → Payload → M (Unit {0})
  enqueue routing_key payload = do
    id ← random_id P
    correlation ← gets (λ w. w.correlation)
    correlation_id ← correlation_or_random correlation
    now ← gets (λ w. w.now)
    modify_db (λ db. record db {
      outbox = db.outbox ++ message id routing_key payload correlation_id now ∷ [];
    })
