-- ===== src/World.antt =====
-- The state that a request or a consumer runs in, what the code takes from outside it, and the
-- monad of the services. The database is one list of rows per table. A raised error leaves the
-- statements before it in place; `transaction` puts the tables back and nothing else, since
-- Redis, the metric counters and the drawn UUIDs are not transactional.
pub mod Harmless
pub mod Always
pub mod Returns
use order_lifecycle_backend.Prelude.{
  ℕ, suc, String, Bool, Option, none, some, List, ◌∷◌, if◌then◌else◌,
}
use order_lifecycle_backend.Entities.{
  Order, OrderItem, Product, Cart, CartItem, PaymentAuthorization, Consumer, ProcessedMessage,
  OutboxMessage,
}

pub record Db : Type 0 where
  pub orders : List Order
  pub order_items : List OrderItem
  pub products : List Product
  pub carts : List Cart
  pub cart_items : List CartItem
  pub authorizations : List PaymentAuthorization
  pub inbox : List ProcessedMessage
  pub outbox : List OutboxMessage

-- `order:<id>` and `orders:user:<userId>`.
pub data RedisKey : Type 0 where
  order_key user_orders_key : ℕ → RedisKey

-- What the orders service stores as JSON: an order, or a user's list.
pub data Cached : Type 0 where
  one : Order → Cached
  many : List Order → Cached

-- A write that the Redis server has carried out.
pub data RedisCommand : Type 0 where
  set : RedisKey → Cached → ℕ → RedisCommand
  del : List RedisKey → RedisCommand

-- What a GET comes back with: a value, `null`, or a client error.
pub data Reply : Type 0 where
  value : Cached → Reply
  null failure : Reply

-- What is not in the repository: the Redis server and its client, and `randomUUID`. A reply of
-- the server depends on the time and on the writes carried out so far, newest first.
pub record Platform : Type 0 where
  pub redis_get : ℕ → List RedisCommand → RedisKey → Reply
  pub redis_accepts : ℕ → List RedisCommand → RedisCommand → Bool
  pub random_uuid : ℕ → ℕ

pub data KeyClass : Type 0 where
  order_class orders_class : KeyClass

pub data ConsumerOutcome : Type 0 where
  processed skipped retried failed : ConsumerOutcome

pub data TerminalState : Type 0 where
  completed failed cancelled : TerminalState

pub data OrderStage : Type 0 where
  reservation payment completion fulfilment : OrderStage

pub data PaymentOutcome : Type 0 where
  authorized declined deduplicated in_flight takeover : PaymentOutcome

pub data CacheResult : Type 0 where
  hit miss : CacheResult

-- One recorded sample of a counter or of the stage histogram (in milliseconds).
pub data Metric : Type 0 where
  order_created : Metric
  order_stage : OrderStage → ℕ → Metric
  order_terminal : TerminalState → Metric
  order_failure : String → Metric
  consumer_message : Consumer → ConsumerOutcome → Metric
  payment_authorization : PaymentOutcome → Metric
  cache_request : KeyClass → CacheResult → Metric
  outbox_relayed : ℕ → Metric

-- The in-process counters of one key class.
pub record CacheCounts : Type 0 where
  pub hits : ℕ
  pub misses : ℕ

-- `drawn` counts the UUIDs drawn so far; `correlation` is the id of the active CLS context;
-- `charges` holds the idempotency keys that were sent to the payment provider.
pub record World : Type 0 where
  pub db : Db
  pub redis : List RedisCommand
  pub cache_enabled : Bool
  pub cache_ttl : ℕ
  pub cache_stats : List (KeyClass × CacheCounts)
  pub metrics : List Metric
  pub charges : List ℕ
  pub drawn : ℕ
  pub now : ℕ
  pub correlation : Option ℕ

pub data Failure : Type 0 where
  not_found conflict : Failure
  insufficient_stock : ℕ → Failure
  payment_in_flight : ℕ → Failure
  inbox_duplicate unique_violation type_error : Failure

pub data Result (A : Type 0) : Type 0 where
  ok : A → Result A
  err : Failure → Result A

abbrev pub M : Type 0 → Type 0
M A = World → Result A × World

module _ {A : Type 0} where
  abbrev pub pure : A → M A
  pure a w = (ok a, w)

  abbrev pub throw : Failure → M A
  throw e w = (err e, w)

  abbrev pub or_err : Option A → Failure → Result A
  or_err none e = err e
  or_err (some a) _ = ok a

  -- if (!found) throw e
  abbrev pub or_throw : Option A → Failure → M A
  or_throw o e w = (or_err o e, w)

infixl 5 ◌>>=◌ ◌>>◌
abbrev pub ◌>>=◌ : {A B : Type 0} → M A → (A → M B) → M B
◌>>=◌ m f w = let (r, w') = m w in elim r [ ok a ↦ f a w' | err e ↦ throw e w' ]

abbrev pub ◌>>◌ : {A B : Type 0} → M A → M B → M B
m >> k = m >>= λ _. k

abbrev pub throw_if : Bool → Failure → M (Unit {0})
throw_if c e w = (if c then err e else ok tt, w)

abbrev pub gets : {A : Type 0} → (World → A) → M A
gets f w = (ok (f w), w)

abbrev pub modify : (World → World) → M (Unit {0})
modify f w = (ok tt, f w)

abbrev pub modify_db : (Db → Db) → M (Unit {0})
modify_db f w = (ok tt, record w { db = f w.db })

-- try { m } catch (e) { h(e) }
abbrev pub catch_error : {A : Type 0} → M A → (Failure → M A) → M A
catch_error m h w = let (r, w') = m w in elim r [ ok a ↦ pure a w' | err e ↦ h e w' ]

-- What is left when a transaction that began on the tables `old` has ended.
abbrev pub settle : {A : Type 0} → Db → Result A × World → Result A × World
settle old (ok a, w) = (ok a, w)
settle old (err e, w) = (err e, record w { db = old })

-- `dataSource.transaction(m)`: the tables change if `m` returns, and roll back if it throws.
abbrev pub transaction : {A : Type 0} → M A → M A
transaction m w = settle w.db (m w)

abbrev pub record_metric : Metric → M (Unit {0})
record_metric x = modify (λ w. record w { metrics = x ∷ w.metrics })

module _ (P : Platform) where
  -- `randomUUID()`
  abbrev pub random_id : M ℕ
  random_id w = (ok (P.random_uuid w.drawn), record w { drawn = suc w.drawn })
