-- ===== src/Orders/Reading.antt =====
-- The cache-aside reads of the orders service: `listOrdersForUser` and `getOrderForUser`
-- (src/modules/orders/services/orders.service.ts). What Redis holds is the JSON of
-- an order, kept as the order that was stored; a hit is what `rehydrateOrder` makes of it.
pub mod Ownership
pub mod Staleness
pub mod Lists
use order_lifecycle_backend.Prelude.{
  ℕ, Bool, true, false, not, ◌&&◌, Option, none, some, List, [], ◌∷◌, map, ◌==◌, leb, if◌then◌else◌,
  select, find, every,
}
use order_lifecycle_backend.Entities.{Order, OrderItem}
use order_lifecycle_backend.World.{
  Platform, World, Db, M, ok, pure, gets, or_throw, not_found, ◌>>=◌, ◌>>◌, RedisKey, order_key,
  user_orders_key, Cached, one, many,
}
use order_lifecycle_backend.Orders.StateMachine.{is_terminal_status}
use order_lifecycle_backend.Orders.Rows.{with_items, order_id, is_null}
use order_lifecycle_backend.Cache.{get, set_value}

-- A newer order goes before an older one.
abbrev pub insert_newest : Order → List Order → List Order
insert_newest o [] = o ∷ []
insert_newest o (p ∷ ps) =
    if leb p.created_at o.created_at then o ∷ p ∷ ps else p ∷ insert_newest o ps

-- ORDER BY createdAt DESC
abbrev pub newest_first : List Order → List Order
newest_first [] = []
newest_first (o ∷ os) = insert_newest o (newest_first os)

-- `find({ where: { userId }, relations: { items: true }, order: { createdAt: 'DESC' } })`
unfoldable pub find_user_orders : ℕ → Db → List Order
find_user_orders user_id db =
    newest_first (map (with_items db.order_items) (select (λ o. o.user_id == user_id) db.orders))

-- `findOne({ where: { id, userId }, relations: { items: true } })`
unfoldable pub find_user_order : ℕ → ℕ → Db → Option Order
find_user_order id user_id db =
    elim (find (λ o. (o.id == id) && (o.user_id == user_id)) db.orders) [
      | none ↦ none
      | some o ↦ some (with_items db.order_items o)
    ]

abbrev pub is_terminal : Order → Bool
is_terminal o = is_terminal_status o.status

-- `rehydrateOrder` of the JSON of an order: the two timestamps that it restores are as they were,
-- but the time of the payment's confirmation, where there is one, stays the string of the JSON.
abbrev pub rehydrate_order : Order → Order
rehydrate_order o = record o { payment_text = not (is_null o.payment_initiated_at) }

-- The order under a hit of `order:<id>`, if it belongs to the caller.
abbrev pub own_hit : ℕ → Option Cached → Option Order
own_hit user_id (some (one o)) = if o.user_id == user_id then some (rehydrate_order o) else none
own_hit user_id _ = none

-- The list under a hit of `orders:user:<userId>`.
abbrev pub list_hit : Option Cached → Option (List Order)
list_hit (some (many os)) = some (map rehydrate_order os)
list_hit _ = none

module _ (P : Platform) where
  -- `if (isTerminalStatus(order.status)) await this.cache.set(...)`
  abbrev pub cache_order : ℕ → Order → M (Unit {0})
  cache_order id order w =
      if is_terminal order then set_value P (order_key id) (one order) w.cache_ttl w else (ok tt, w)

  abbrev pub cache_list : ℕ → List Order → M (Unit {0})
  cache_list user_id orders w =
      if every is_terminal orders
      then set_value P (user_orders_key user_id) (many orders) w.cache_ttl w
      else (ok tt, w)

  abbrev pub read_order : ℕ → ℕ → M Order
  read_order id user_id = do
    found ← gets (λ w. find_user_order id user_id w.db)
    order ← or_throw found not_found
    cache_order id order
    pure order

  abbrev pub order_or_read : ℕ → ℕ → Option Order → M Order
  order_or_read id user_id (some o) = pure o
  order_or_read id user_id none = read_order id user_id

  -- `getOrderForUser`
  unfoldable pub get_order_for_user : ℕ → ℕ → M Order
  get_order_for_user id user_id = do
    cached ← get P (order_key id)
    order_or_read id user_id (own_hit user_id cached)

  abbrev pub read_list : ℕ → M (List Order)
  read_list user_id = do
    orders ← gets (λ w. find_user_orders user_id w.db)
    cache_list user_id orders
    pure orders

  abbrev pub list_or_read : ℕ → Option (List Order) → M (List Order)
  list_or_read user_id (some os) = pure os
  list_or_read user_id none = read_list user_id

  -- `listOrdersForUser`
  unfoldable pub list_orders_for_user : ℕ → M (List Order)
  list_orders_for_user user_id = do
    cached ← get P (user_orders_key user_id)
    list_or_read user_id (list_hit cached)
