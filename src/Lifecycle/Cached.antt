-- ===== src/Lifecycle/Cached.antt =====
-- The order service with its reads in flight (`getOrderForUser`,
-- src/modules/orders/services/orders.service.ts): a read that has missed Redis and found a terminal
-- order in the database stores it at any later time, after any other calls. What a read answers is
-- compared with the read of the database alone.
pub mod Refinement
use order_lifecycle_backend.Prelude.{
  ℕ, zero, suc, ◌≡◌, refl, inl, inr, true, Bool-cases, Option, none, some, List, [], ◌∷◌, arith,
  Option-cases, if◌then◌else◌,
}
use order_lifecycle_backend.Entities.{Order}
use order_lifecycle_backend.World.{
  Platform, World, Db, Result, ok, err, not_found, or_err, RedisCommand, RedisKey, order_key,
  Cached, one, many, value, null, failure, Reply,
}
use order_lifecycle_backend.World.Harmless.{order_entries}
use order_lifecycle_backend.Cache.{set_value}
use order_lifecycle_backend.Cache.FailOpen.{answered, usable}
use order_lifecycle_backend.Orders.Reading.{
  find_user_order, get_order_for_user, is_terminal, own_hit,
}
use order_lifecycle_backend.Orders.Reading.Ownership.{answer_of, get_order_for_user-answers}
use order_lifecycle_backend.Orders.Coherence.{
  owned_by, without_items, IsCopy, AreCopies, Evolves-AreCopies, IsCoherent, IsSound, soundly,
}
use order_lifecycle_backend.Payment.Gateway.{Provider}
use order_lifecycle_backend.Lifecycle.Reads.{found-IsCopy, AreCopies-cons, set_value-IsSound}
use order_lifecycle_backend.Lifecycle.System.{Call, step, step-IsSound}
use mathlib.Core.List.{Memᴰ}
use mathlib.Core.List.Memᴰ

-- The world, and the orders that reads in flight have found and are about to store.
pub record Session : Type 0 where
  pub world : World
  pub in_flight : List (ℕ × Order)

pub data Event : Type 0 where
  calling : Call → Event
  -- the first half of a read that has missed: the query, and the test of the status
  fetching : (id user_id : ℕ) → Event
  -- the second half: the write to Redis, of the read in flight at a position
  storing : ℕ → Event

abbrev nth : ℕ → List (ℕ × Order) → Option (ℕ × Order)
nth k [] = none
nth zero (x ∷ xs) = some x
nth (suc k) (x ∷ xs) = nth k xs

abbrev fetched : ℕ → Option Order → List (ℕ × Order) → List (ℕ × Order)
fetched id none pending = pending
fetched id (some o) pending = if is_terminal o then (id, o) ∷ pending else pending

module _ (P : Platform) where
  abbrev store : Option (ℕ × Order) → World → World
  store none w = w
  store (some (id, o)) w = (set_value P (order_key id) (one o) w.cache_ttl w).1

module _ (P : Platform) (provider : Provider) where
  unfoldable pub advance : Event → Session → Session
  advance (calling c) s = record s { world = step P provider c s.world }
  advance (fetching id user_id) s = record s {
    in_flight = fetched id (find_user_order id user_id s.world.db) s.in_flight;
  }
  advance (storing k) s = record s { world = store P (nth k s.in_flight) s.world }

  unfoldable pub replay : List Event → Session → Session
  replay [] s = s
  replay (e ∷ es) s = replay es (advance e s)

-- What Redis has stored and what is about to be stored are right copies.
pub record IsSettled (s : Session) : Type 0 where
  pub stored : IsCoherent s.world
  pub pending : AreCopies s.in_flight s.world.db.orders

nth-Memᴰ : (k : ℕ) (xs : List (ℕ × Order)) (x : ℕ × Order) → nth k xs ≡ some x → Memᴰ x xs
nth-Memᴰ k [] x e = cc
nth-Memᴰ zero (y ∷ ys) x e = Memᴰ.head (ground arith)
nth-Memᴰ (suc k) (y ∷ ys) x e = Memᴰ.tail (nth-Memᴰ k ys x e)

fetched-AreCopies :
    (id user_id : ℕ) (db : Db) (found : Option Order) (pending : List (ℕ × Order))
    → find_user_order id user_id db ≡ found
    → AreCopies pending db.orders
    → AreCopies (fetched id found pending) db.orders
fetched-AreCopies id user_id db none pending e copies = copies
fetched-AreCopies id user_id db (some o) pending e copies = elim (Bool-cases (is_terminal o)) [
  | inl t ↦ rw t (AreCopies-cons pending db.orders id o (found-IsCopy id user_id db o e t) copies)
  | inr t ↦ rw t copies
]

module _ (P : Platform) (provider : Provider) where
  store-IsSound :
      (found : Option (ℕ × Order)) (w : World)
      → ((id : ℕ) (o : Order) → found ≡ some (id, o) → IsCopy id o w.db.orders)
      → IsSound w (store P found w)
  store-IsSound none w copy = soundly.same w
  store-IsSound (some (id, o)) w copy = set_value-IsSound P id o w.cache_ttl w (copy id o refl)

  sound-IsSettled :
      (s : Session) (w : World)
      → IsSound s.world w
      → IsSettled s
      → IsSettled (record s { world = w })
  sound-IsSettled s w h k = record {
    stored = h.coherent k.stored;
    pending = Evolves-AreCopies h.evolves k.pending;
  }

  advance-IsSettled : (e : Event) (s : Session) → IsSettled s → IsSettled (advance P provider e s)
  unfolding advance
  advance-IsSettled (calling c) s h =
      sound-IsSettled s (step P provider c s.world) (step-IsSound P provider c s.world) h
  advance-IsSettled (fetching id user_id) s h = record {
    stored = h.stored;
    pending = fetched-AreCopies id user_id s.world.db _ s.in_flight refl h.pending;
  }
  advance-IsSettled (storing k) s h =
      sound-IsSettled s _
        (store-IsSound (nth k s.in_flight) s.world
          (λ id o e. h.pending id o (nth-Memᴰ k s.in_flight (id, o) e)))
        h

  pub replay-IsSettled :
      (es : List Event) (s : Session) → IsSettled s → IsSettled (replay P provider es s)
  unfolding replay
  replay-IsSettled [] s h = h
  replay-IsSettled (e ∷ es) s h =
      replay-IsSettled es (advance P provider e s) (advance-IsSettled e s h)
