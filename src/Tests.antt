-- ===== src/Tests.antt =====
-- Data for runs of the model at concrete inputs, and the runs themselves in the child modules.
mod Sessions
mod Accounts
mod Samples
mod Gauges
mod Shop
mod Stock
mod Claims
mod Carts
mod Messages
mod Payments
mod Histories
mod Caching
mod Requests
mod Deployments
mod Fulfilled
use order_lifecycle_backend.Prelude.{ℕ, ◌+◌, Bool, true, false, Option, none, some, List, [], ◌∷◌}
use order_lifecycle_backend.Entities.{
  Order, OrderStatus, pending, reserved, completed, Product, StockLine, OrderCreatedEvent,
  OrderEvent, OutboxMessage, order_exchange, RoutingKey, order_event,
}
use order_lifecycle_backend.World.{Platform, World, Db, null}

-- A Redis server that has lost all its keys, and UUIDs that count up.
abbrev pub platform : Platform
platform = record {
  redis_get = λ now writes key. null;
  redis_accepts = λ now writes command. true;
  random_uuid = λ n. n + 100;
}

abbrev pub order : OrderStatus → Option ℕ → Order
order status payment = record {
  id = 1;
  user_id = 7;
  status = status;
  payment_initiated_at = payment;
  payment_text = false;
  items = none;
  created_at = 10;
  updated_at = 10;
}

abbrev pub pen : ℕ → Product
pen stock = record { id = 5; name = "pen"; sku = "PEN"; stock = stock; active = true }

abbrev pub ink : ℕ → Product
ink stock = record { id = 6; name = "ink"; sku = "INK"; stock = stock; active = true }

abbrev pub line : ℕ → ℕ → StockLine
line product_id quantity = record { product_id = product_id; quantity = quantity }

-- A world with one order and a stock of 4 pens and 2 inks, at time 50.
abbrev pub world : Order → World
world o = record {
  db = record {
    orders = o ∷ [];
    order_items = [];
    products = pen 4 ∷ ink 2 ∷ [];
    carts = [];
    cart_items = [];
    authorizations = [];
    inbox = [];
    outbox = [];
  };
  redis = [];
  cache_enabled = true;
  cache_ttl = 30;
  cache_stats = [];
  metrics = [];
  charges = [];
  drawn = 0;
  now = 50;
  correlation = none;
}

abbrev pub creation_event : List StockLine → OrderCreatedEvent
creation_event items = record { order_id = 1; user_id = 7; items = items; occurred_at = 10 }

abbrev pub payment_event : OrderEvent
payment_event = record { order_id = 1; user_id = 7; occurred_at = 40 }

abbrev pub outbox_row : ℕ → OutboxMessage
outbox_row id = record {
  id = id;
  exchange = order_exchange;
  routing_key = RoutingKey.inventory_reserved;
  payload = order_event payment_event;
  correlation_id = 3;
  created_at = id;
  published_at = none;
}
