-- ===== src/Orders/Creation.antt =====
-- `createOrder` (src/modules/orders/services/orders.service.ts): the order, its items and the
-- OrderCreated outbox row are written in one transaction.
pub mod Commit
use order_lifecycle_backend.Prelude.{ℕ, String, false, none, some, List, [], ◌∷◌, ◌++◌, map}
use order_lifecycle_backend.Entities.{
  Order, OrderItem, StockLine, Payload, order_created, created, pending,
}
use order_lifecycle_backend.World.{
  Platform, M, pure, gets, modify_db, random_id, transaction, ◌>>=◌, ◌>>◌, user_orders_key,
}
use order_lifecycle_backend.Metrics.{record_order_created}
use order_lifecycle_backend.Cache.{del_keys}
use order_lifecycle_backend.Messaging.Outbox.{enqueue}

-- A checked-out cart line.
pub record OrderLine : Type 0 where
  pub product_id : ℕ
  pub product_name : String
  pub quantity : ℕ

abbrev pub stock_line : OrderLine → StockLine
stock_line l = record { product_id = l.product_id; quantity = l.quantity }

-- A row that `manager.create(OrderEntity, { userId })` yields: the initialisers' defaults.
abbrev pub new_order : ℕ → ℕ → ℕ → Order
new_order id user_id now = record {
  id = id;
  user_id = user_id;
  status = pending;
  payment_initiated_at = none;
  payment_text = false;
  items = none;
  created_at = now;
  updated_at = now;
}

abbrev pub new_item : ℕ → ℕ → OrderLine → OrderItem
new_item id order_id l = record {
  id = id;
  order_id = order_id;
  product_id = l.product_id;
  product_name = l.product_name;
  quantity = l.quantity;
}

-- The OrderCreated event of a new order.
abbrev pub created_event : Order → List OrderLine → Payload
created_event o lines = order_created (record {
  order_id = o.id;
  user_id = o.user_id;
  items = map stock_line lines;
  occurred_at = o.created_at;
})

module _ (P : Platform) where
  -- The item rows of the lines, each with an id of its own.
  unfoldable pub make_items : ℕ → List OrderLine → M (List OrderItem)
  make_items order_id [] = pure []
  make_items order_id (l ∷ ls) = do
    id ← random_id P
    rest ← make_items order_id ls
    pure (new_item id order_id l ∷ rest)

  -- The transaction's body.
  unfoldable pub insert_order : ℕ → List OrderLine → M Order
  insert_order user_id lines = do
    id ← random_id P
    now ← gets (λ w. w.now)
    modify_db (λ db. record db { orders = db.orders ++ new_order id user_id now ∷ [] })
    items ← make_items id lines
    modify_db (λ db. record db { order_items = db.order_items ++ items })
    enqueue P created (created_event (new_order id user_id now) lines)
    pure (record {
      id = id;
      user_id = user_id;
      status = pending;
      payment_initiated_at = none;
      payment_text = false;
      items = some items;
      created_at = now;
      updated_at = now;
    })

  -- `createOrder`
  unfoldable pub create_order : ℕ → List OrderLine → M Order
  create_order user_id lines = do
    order ← transaction (insert_order user_id lines)
    record_order_created
    del_keys P (user_orders_key user_id ∷ [])
    pure order
