-- ===== src/Orders/Creation/Commit.antt =====
-- What a call of `create_order` commits (`createOrder`,
-- src/modules/orders/services/orders.service.ts).
use order_lifecycle_backend.Prelude.{
  ℕ, suc, String, false, ◌≡◌, refl, ap, none, some, List, [], ◌∷◌, ◌++◌, map, arith,
}
use order_lifecycle_backend.Entities.{
  Order, OrderItem, OutboxMessage, StockLine, RoutingKey, Payload, created, pending, order_created,
}
use order_lifecycle_backend.World.{Platform, World, Result, ok, user_orders_key, Metric}
use order_lifecycle_backend.World.Harmless.{Harmless}
use order_lifecycle_backend.Cache.FailOpen.{del_keys-Harmless}
use order_lifecycle_backend.Cache.{del_keys}
use order_lifecycle_backend.Messaging.Outbox.{message, enqueue}
use order_lifecycle_backend.Orders.Creation.{
  OrderLine, stock_line, new_order, new_item, created_event, make_items, insert_order, create_order,
}

-- The row of an order at its start.
abbrev pub initial_order : (id user_id now : ℕ) → Order
initial_order id user_id now = record {
  id = id;
  user_id = user_id;
  status = pending;
  payment_initiated_at = none;
  payment_text = false;
  items = none;
  created_at = now;
  updated_at = now;
}

abbrev pub announcement : (id user_id now : ℕ) → List OrderLine → Payload
announcement id user_id now lines =
    order_created
      (record { order_id = id; user_id = user_id; items = map stock_line lines; occurred_at = now })

-- What an item says: its order, its product's id and name, and the quantity.
abbrev pub Said : Type 0
Said = ℕ × ℕ × String × ℕ

abbrev pub said_of : OrderItem → Said
said_of item = (item.order_id, item.product_id, item.product_name, item.quantity)

abbrev pub line_said : ℕ → OrderLine → Said
line_said id l = (id, l.product_id, l.product_name, l.quantity)

abbrev pub line_of : OrderItem → StockLine
line_of item = record { product_id = item.product_id; quantity = item.quantity }

module _ (P : Platform) where
  -- The item rows, by the ids that they draw.
  abbrev pub items_of : ℕ → ℕ → List OrderLine → List OrderItem
  items_of drawn order_id [] = []
  items_of drawn order_id (l ∷ ls) =
      new_item (P.random_uuid drawn) order_id l ∷ items_of (suc drawn) order_id ls

  lines-items_of :
      (drawn order_id : ℕ) (ls : List OrderLine)
      → map line_of (items_of drawn order_id ls) ≡ map stock_line ls
  lines-items_of drawn order_id [] = refl
  lines-items_of drawn order_id (l ∷ ls) =
      ap (λ rest. stock_line l ∷ rest) (lines-items_of (suc drawn) order_id ls)

  said-items_of :
      (drawn order_id : ℕ) (ls : List OrderLine)
      → map said_of (items_of drawn order_id ls) ≡ map (line_said order_id) ls
  said-items_of drawn order_id [] = refl
  said-items_of drawn order_id (l ∷ ls) =
      ap (λ rest. line_said order_id l ∷ rest) (said-items_of (suc drawn) order_id ls)

  make_items-draws :
      (order_id : ℕ) (ls : List OrderLine) (w : World)
      → ((make_items P order_id ls w).0 ≡ ok (items_of w.drawn order_id ls))
        × ((make_items P order_id ls w).1.db ≡ w.db)
        × ((make_items P order_id ls w).1.now ≡ w.now)
        × ((make_items P order_id ls w).1.correlation ≡ w.correlation)
        × ((make_items P order_id ls w).1.redis ≡ w.redis)
        × ((make_items P order_id ls w).1.cache_enabled ≡ w.cache_enabled)
  unfolding make_items
  make_items-draws order_id [] w = ground arith
  make_items-draws order_id (l ∷ ls) w =
      ground (arith, make_items-draws order_id ls (record w { drawn = suc w.drawn }))

  -- A call of `create_order` returns the new order, and has appended its row, its items and one
  -- outbox row with the event of just these lines.
  pub record IsCommitted (user_id : ℕ) (lines : List OrderLine) (w : World)
      (r : Result Order × World) : Type 0 where
    pub id : ℕ
    pub items : List OrderItem
    pub sent : OutboxMessage
    pub returned : r.0 ≡ ok (record (initial_order id user_id w.now) { items = some items })
    pub database : r.1.db ≡ record (w.db) {
      orders = w.db.orders ++ initial_order id user_id w.now ∷ [];
      order_items = w.db.order_items ++ items;
      outbox = w.db.outbox ++ sent ∷ [];
    }
    pub event : sent.payload ≡ announcement id user_id w.now lines
    pub routed : sent.routing_key ≡ created
    pub unpublished : sent.published_at ≡ none
    pub same_lines : map line_of items ≡ map stock_line lines
    pub said : map said_of items ≡ map (line_said id) lines

  abbrev pub correlation_of : World → ℕ
  correlation_of w = elim w.correlation [ none ↦ P.random_uuid (suc w.drawn) | some c ↦ c ]

  abbrev pub sent_of : RoutingKey → Payload → World → OutboxMessage
  sent_of key payload w = message P (P.random_uuid w.drawn) key payload (correlation_of w) w.now

  pub enqueue-appends :
      (key : RoutingKey) (payload : Payload) (w : World)
      → ((enqueue P key payload w).0 ≡ ok tt)
        × ((enqueue P key payload w).1.db
            ≡ record (w.db) { outbox = w.db.outbox ++ sent_of key payload w ∷ [] })
        × ((enqueue P key payload w).1.cache_enabled ≡ w.cache_enabled)
  unfolding enqueue
  enqueue-appends key payload w = ground arith

  module _ (user_id : ℕ) (lines : List OrderLine) (w : World) where
    abbrev new_id : ℕ
    new_id = P.random_uuid w.drawn

    abbrev order_row : Order
    order_row = new_order new_id user_id w.now

    -- The world when the order's row is in.
    abbrev with_order : World
    with_order = record w {
      drawn = suc w.drawn;
      db = record (w.db) { orders = w.db.orders ++ order_row ∷ [] };
    }

    abbrev items : List OrderItem
    items = items_of (suc w.drawn) new_id lines

    -- The world when the items' rows are in, too.
    abbrev with_rows : World
    with_rows =
        let made = (make_items P new_id lines with_order).1 in
        record made { db = record (made.db) { order_items = made.db.order_items ++ items } }

    abbrev sent : OutboxMessage
    sent = sent_of created (created_event order_row lines) with_rows

    insert_order-appends :
        ((insert_order P user_id lines w).0 ≡ ok (record order_row { items = some items }))
        × ((insert_order P user_id lines w).1.db ≡ record (w.db) {
          orders = w.db.orders ++ order_row ∷ [];
          order_items = w.db.order_items ++ items;
          outbox = w.db.outbox ++ sent ∷ [];
        })
    unfolding insert_order
    insert_order-appends = ground (
      arith,
      make_items-draws new_id lines with_order,
      enqueue-appends created (created_event order_row lines) with_rows,
    )

    announced : Harmless (del_keys P (user_orders_key user_id ∷ []))
    announced = del_keys-Harmless P (user_orders_key user_id ∷ [])

    -- The world after the transaction and its count.
    abbrev counted : World
    counted =
        let committed = (insert_order P user_id lines w).1 in
        record committed { metrics = Metric.order_created ∷ committed.metrics }

    create_order-appends :
        ((create_order P user_id lines w).0 ≡ ok (record order_row { items = some items }))
        × ((create_order P user_id lines w).1.db ≡ record (w.db) {
          orders = w.db.orders ++ order_row ∷ [];
          order_items = w.db.order_items ++ items;
          outbox = w.db.outbox ++ sent ∷ [];
        })
    unfolding create_order
    create_order-appends = ground (arith, insert_order-appends, announced counted)

    -- A creation always returns the new order, PENDING and unpaid, with one item for each line in
    -- turn, under the order's id and with the line's product, its name and the quantity; the
    -- database then has the order's row, the items, and one unpublished outbox row that announces
    -- the order with just these products and quantities, and nothing else has changed.
    pub create_order-IsCommitted : IsCommitted user_id lines w (create_order P user_id lines w)
    create_order-IsCommitted = record {
      id = new_id;
      items = items;
      sent = sent;
      returned = create_order-appends.0;
      database = create_order-appends.1;
      event = refl;
      routed = refl;
      unpublished = refl;
      same_lines = lines-items_of (suc w.drawn) new_id lines;
      said = said-items_of (suc w.drawn) new_id lines;
    }
