-- ===== src/Tests/Caching.antt =====
-- A Redis server that keeps its keys, and reads through it.
use order_lifecycle_backend.Prelude.{
  map, ℕ, every, length, suc, ◌≡◌, refl, ◌+◌, Bool, true, false, ◌||◌, ◌==◌, if◌then◌else◌, none,
  some, List, [], ◌∷◌, arith,
}
use order_lifecycle_backend.Entities.{completed, inventory}
use order_lifecycle_backend.World.{
  Cached, Platform, World, ok, RedisCommand, set, del, RedisKey, order_key, user_orders_key, Reply,
  value, null, pure,
}
use order_lifecycle_backend.Messaging.EventOnce.{process_event_once, skipped}
use order_lifecycle_backend.Messaging.Inbox.{run_once, run_once_seeing, insert_processed}
use order_lifecycle_backend.Orders.Reading.{
  rehydrate_order, list_orders_for_user, find_user_orders, cache_list, is_terminal,
}
use order_lifecycle_backend.Messaging.Outbox.{enqueue}
use order_lifecycle_backend.Cache.{del_keys}
use order_lifecycle_backend.Orders.StateMachine.{is_terminal_status}
use order_lifecycle_backend.Orders.Creation.{OrderLine, create_order, insert_order, make_items}
use order_lifecycle_backend.Orders.Creation.Commit.{IsCommitted, create_order-IsCommitted}
use order_lifecycle_backend.Orders.Reading.Staleness.{IsPrompt, list_orders_for_user-stale}
use order_lifecycle_backend.Payment.Gateway.{charge}
use order_lifecycle_backend.Lifecycle.System.{reserving, cancelling, run, run_once_ever}
use order_lifecycle_backend.Lifecycle.Cached.{Session, Event, calling, fetching, storing}
use order_lifecycle_backend.Tests.{platform, world, order, line, creation_event}

abbrev pub same_key : RedisKey → RedisKey → Bool
same_key (order_key i) (order_key j) = i == j
same_key (user_orders_key i) (user_orders_key j) = i == j
same_key _ _ = false

abbrev pub deletes : List RedisKey → RedisKey → Bool
deletes [] key = false
deletes (k ∷ ks) key = same_key k key || deletes ks key

-- The newest value under a key, unless it has been deleted since.
abbrev pub newest : List RedisCommand → RedisKey → Reply
newest [] key = null
newest (set k v ttl ∷ log) key = if same_key k key then value v else newest log key
newest (del ks ∷ log) key = if deletes ks key then null else newest log key

abbrev pub server : Platform
server = record {
  redis_get = λ now log key. newest log key;
  redis_accepts = λ now log command. true;
  random_uuid = λ n. n + 100;
}

-- A read of a completed order in flight while another one misses, and the order stored in between.
abbrev events : List Event
events = fetching 1 7 ∷ calling (cancelling 1 7) ∷ storing 0 ∷ []

abbrev session : Session
session = record { world = world (order completed (some 20)); in_flight = [] }

-- The work of a first delivery, which has no statements of its own.
abbrev handled : World
handled = (run_once 3 inventory (pure tt) (world (order completed none))).1

first_delivery :
    run_once 3 inventory (pure tt) (world (order completed none)) ≡ (ok (some tt), handled)
unfolding run_once run_once_seeing insert_processed
first_delivery = refl

-- The world after a redelivery of the message.
abbrev later : World
later = run platform charge (reserving (some 3) (creation_event (line 5 2 ∷ [])) ∷ []) handled

run_once_ever_example :
    (run_once 3 inventory (pure {A = ℕ} 5) later ≡ (ok none, later))
    × ((process_event_once (some 3) inventory (pure {A = ℕ} 5) later).0 ≡ ok skipped)
    × ((process_event_once (some 3) inventory (pure {A = ℕ} 5) later).1.db ≡ later.db)
run_once_ever_example =
    run_once_ever platform charge 3 inventory (pure tt) (world (order completed none)) handled tt
      first_delivery (reserving (some 3) (creation_event (line 5 2 ∷ [])) ∷ []) (pure {A = ℕ} 5)

prompt_key :
    (log : List RedisCommand) (key : RedisKey) (v : Cached) (ttl : ℕ)
    → newest (set key v ttl ∷ log) key ≡ value v
prompt_key log (order_key i) v ttl = ground arith
prompt_key log (user_orders_key u) v ttl = ground arith

server-IsPrompt : IsPrompt server
server-IsPrompt now log key v ttl = (refl, prompt_key log key v ttl)

abbrev book : OrderLine
book = record { product_id = 5; product_name = "book"; quantity = 2 }

abbrev before : World
before = world (order completed (some 20))

all_terminal : every is_terminal (find_user_orders 7 before.db) ≡ true
unfolding find_user_orders is_terminal_status
all_terminal = refl

caching_on : (create_order server 7 (book ∷ []) before).1.cache_enabled ≡ true
unfolding create_order insert_order make_items enqueue del_keys
caching_on = refl

create_order-IsCommitted_example :
    IsCommitted server 7 (book ∷ []) before (create_order server 7 (book ∷ []) before)
create_order-IsCommitted_example = create_order-IsCommitted server 7 (book ∷ []) before

list_orders_for_user-stale_example :
    ((list_orders_for_user server 7
        (cache_list server 7
          (find_user_orders 7 before.db)
          (create_order server 7 (book ∷ []) before).1).1).0
      ≡ ok (map rehydrate_order (find_user_orders 7 before.db)))
    × (length (
          find_user_orders 7
            (cache_list server 7
              (find_user_orders 7 before.db)
              (create_order server 7 (book ∷ []) before).1).1.db)
        ≡ suc (length (find_user_orders 7 before.db)))
list_orders_for_user-stale_example =
    list_orders_for_user-stale server server-IsPrompt 7 (book ∷ []) before all_terminal caching_on
