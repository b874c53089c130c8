-- ===== src/Lifecycle/Cached/Refinement.antt =====
-- What a read of an order through Redis answers, against the read of the database alone
-- (`getOrderForUser`, src/modules/orders/services/orders.service.ts).
use order_lifecycle_backend.Prelude.{ℕ, ◌≡◌, ◌⊎◌, List}
use order_lifecycle_backend.Entities.{Order}
use order_lifecycle_backend.World.{
  Platform, World, Db, Result, ok, err, not_found, or_err, RedisCommand, order_key, one, value,
}
use order_lifecycle_backend.World.Harmless.{order_entries}
use order_lifecycle_backend.Orders.Reading.{find_user_order, rehydrate_order}
use order_lifecycle_backend.Orders.Coherence.{without_items}
use mathlib.Core.List.{Memᴰ}
use mathlib.Core.List.Memᴰ

-- A GET of `order:<id>` answers with no order that has not been SET under that key before.
abbrev pub IsFaithful : Platform → Type 0
IsFaithful P =
    (now : ℕ) (log : List RedisCommand) (id : ℕ) (o : Order)
    → P.redis_get now log (order_key id) ≡ value (one o)
    → Memᴰ (id, o) (order_entries log)

-- An answer apart from the items of its order.
abbrev pub bare : Result Order → Result Order
bare (ok o) = ok (without_items o)
bare (err e) = err e

-- An answer as the JSON of a cached order gives it back.
abbrev pub from_json : Result Order → Result Order
from_json (ok o) = ok (rehydrate_order o)
from_json (err e) = err e

-- The read of an order as it is without Redis.
abbrev pub read_database : (id user_id : ℕ) → Db → Result Order
read_database id user_id db = or_err (find_user_order id user_id db) not_found

-- An answer is that of the database, or what the JSON of that answer gives back, both apart from
-- the items of the order.
abbrev pub IsAnswer : Result Order → Result Order → Type 0
IsAnswer r database = (bare r ≡ bare database) ⊎ (bare r ≡ bare (from_json database))
