-- ===== src/Orders/Evolving.antt =====
-- Actions that keep the order table evolving, store no order and no list of another user's orders in Redis, forget no handled message
-- and enqueue under their own correlation id, whether they return or throw, and the actions that
-- leave all of these alone.
use order_lifecycle_backend.Prelude.{ℕ, ◌≡◌, refl, ◌∙◌, ap, true, List, arith}
use order_lifecycle_backend.Entities.{Consumer, RoutingKey, Payload, StockLine}
use order_lifecycle_backend.World.{
  Platform, World, Db, M, transaction, random_id, record_metric, Metric, RedisKey,
}
use order_lifecycle_backend.World.Always.{WorldRelation, Always, transaction-Always}
use order_lifecycle_backend.World.Harmless.{Harmless, order_entries, list_entries}
use order_lifecycle_backend.Orders.Reading.Lists.{are_owned}
use order_lifecycle_backend.Orders.Evolution.{Evolves, Evolves-refl, Evolves-trans}
use order_lifecycle_backend.Messaging.Inbox.{is_processed}
use order_lifecycle_backend.Messaging.Outbox.{enqueue}
use order_lifecycle_backend.Messaging.Outbox.Tracing.{
  IsTraced, IsTraced-same, IsTraced-join, enqueue-IsTraced,
}
use order_lifecycle_backend.Products.{reserve_stock, restore_stock}
use order_lifecycle_backend.Cache.{get}
use order_lifecycle_backend.Cache.FailOpen.{get_fail_open}

pub record IsQuiet (w w' : World) : Type 0 where
  pub evolves : Evolves w.db.orders w'.db.orders
  pub entries : order_entries w'.redis ≡ order_entries w.redis
  pub handled :
      (id : ℕ) (c : Consumer)
      → is_processed id c w.db.inbox ≡ true
      → is_processed id c w'.db.inbox ≡ true
  pub traces : IsTraced w w'
  pub lists : are_owned (list_entries w.redis) ≡ true → are_owned (list_entries w'.redis) ≡ true

abbrev pub quietly : WorldRelation
quietly = record {
  holds = IsQuiet;
  same = λ w. record {
    evolves = Evolves-refl w.db.orders;
    entries = refl;
    handled = λ id c h. h;
    traces = IsTraced-same w w refl refl;
    lists = λ h. h;
  };
  join = λ u v w h k. record {
    evolves = Evolves-trans h.evolves k.evolves;
    entries = k.entries ∙ h.entries;
    handled = λ id c p. k.handled id c (h.handled id c p);
    traces = IsTraced-join u v w h.traces k.traces;
    lists = λ p. k.lists (h.lists p);
  };
}

abbrev pub Evolving : {A : Type 0} → M A → Type 0
Evolving m = Always quietly m

-- What an action leaves alone that concerns neither orders nor messages.
pub record IsAside (w w' : World) : Type 0 where
  pub orders : w'.db.orders ≡ w.db.orders
  pub inbox : w'.db.inbox ≡ w.db.inbox
  pub outbox : w'.db.outbox ≡ w.db.outbox
  pub context : w'.correlation ≡ w.correlation
  pub entries : order_entries w'.redis ≡ order_entries w.redis
  pub lists : list_entries w'.redis ≡ list_entries w.redis

pub unchanged : {A : Type 0} (m : M A) → ((w : World) → IsAside w (m w).1) → Evolving m
unchanged m same = record {
  always = λ w. record {
    evolves = rw ((same w).orders) (Evolves-refl w.db.orders);
    entries = (same w).entries;
    handled = λ id c h. rw ((same w).inbox) h;
    traces = IsTraced-same w (m w).1 (same w).context (same w).outbox;
    lists = λ h. rw ((same w).lists) h;
  };
}

-- An action that changes the order table and nothing else of these.
pub orders_only :
    {A : Type 0} (m : M A)
    → ((w : World)
        → Evolves w.db.orders (m w).1.db.orders
          × ((m w).1.db.inbox ≡ w.db.inbox)
          × ((m w).1.redis ≡ w.redis)
          × ((m w).1.db.outbox ≡ w.db.outbox)
          × ((m w).1.correlation ≡ w.correlation))
    → Evolving m
orders_only m h = record {
  always = λ w. record {
    evolves = (h w).0;
    entries = ap order_entries (h w).2;
    handled = λ id c p. rw ((h w).1) p;
    traces = IsTraced-same w (m w).1 (h w).4 (h w).3;
    lists = λ p. rw ((h w).2) p;
  };
}

pub Harmless-Evolving : (m : M (Unit {0})) → Harmless m → Evolving m
Harmless-Evolving m h = unchanged m (λ w. record {
  orders = ap (λ (db : Db). db.orders) (h w).1.db;
  inbox = ap (λ (db : Db). db.inbox) (h w).1.db;
  outbox = ap (λ (db : Db). db.outbox) (h w).1.db;
  context = (h w).1.context;
  entries = (h w).1.entries;
  lists = (h w).1.lists;
})

pub transaction-Evolving : {A : Type 0} (m : M A) → Evolving m → Evolving (transaction m)
transaction-Evolving m h =
    transaction-Always m
      (λ w w' k. record {
        evolves = Evolves-refl w.db.orders;
        entries = k.entries;
        handled = λ id c p. p;
        traces = IsTraced-same w _ k.traces.context refl;
        lists = k.lists;
      })
      h

pub record_metric-Evolving : (x : Metric) → Evolving (record_metric x)
record_metric-Evolving x = unchanged (record_metric x) (λ w. ground arith)

pub reserve_stock-Evolving : (lines : List StockLine) → Evolving (reserve_stock lines)
unfolding reserve_stock
reserve_stock-Evolving lines = unchanged (reserve_stock lines) (λ w. ground arith)

pub restore_stock-Evolving : (lines : List StockLine) → Evolving (restore_stock lines)
unfolding restore_stock
restore_stock-Evolving lines = unchanged (restore_stock lines) (λ w. ground arith)

module _ (P : Platform) where
  pub random_id-Evolving : Evolving (random_id P)
  random_id-Evolving = unchanged (random_id P) (λ w. ground arith)

  enqueue_keeps :
      (key : RoutingKey) (payload : Payload) (w : World)
      → ((enqueue P key payload w).1.db.orders ≡ w.db.orders)
        × (order_entries (enqueue P key payload w).1.redis ≡ order_entries w.redis)
        × ((enqueue P key payload w).1.db.inbox ≡ w.db.inbox)
        × (list_entries (enqueue P key payload w).1.redis ≡ list_entries w.redis)
  unfolding enqueue
  enqueue_keeps key payload w = ground arith

  pub enqueue-Evolving : (key : RoutingKey) (payload : Payload) → Evolving (enqueue P key payload)
  enqueue-Evolving key payload = record {
    always = λ w. record {
      evolves = rw ((enqueue_keeps key payload w).0) (Evolves-refl w.db.orders);
      entries = (enqueue_keeps key payload w).1;
      handled = λ id c h. rw ((enqueue_keeps key payload w).2) h;
      traces = enqueue-IsTraced P key payload w;
      lists = λ h. rw ((enqueue_keeps key payload w).3) h;
    };
  }

  pub get-Evolving : (key : RedisKey) → Evolving (get P key)
  get-Evolving key =
      unchanged (get P key)
        (λ w. ground (arith, (get_fail_open P key w).1, (get_fail_open P key w).2))
