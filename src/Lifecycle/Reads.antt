-- ===== src/Lifecycle/Reads.antt =====
-- The cache-aside read of one order (`getOrderForUser`,
-- src/modules/orders/services/orders.service.ts), and that what it stores in Redis is a right copy.
use order_lifecycle_backend.Prelude.{
  refl, ℕ, ◌≡◌, sym, subst, inl, inr, Bool, true, false, none, some, Option, List, [], ◌∷◌, arith,
  find, Bool-cases, Option-cases, if◌then◌else◌,
}
use order_lifecycle_backend.Entities.{Order}
use order_lifecycle_backend.World.{Platform, World, Db, order_key, one, set}
use order_lifecycle_backend.World.Always.{Always, >>=-Always, pure-Always}
use order_lifecycle_backend.World.Harmless.{order_entries}
use order_lifecycle_backend.Cache.{set_value}
use order_lifecycle_backend.Cache.FailOpen.{set_value-returns}
use order_lifecycle_backend.Orders.Reading.{
  is_terminal, find_user_order, own_hit, order_or_read, get_order_for_user,
}
use order_lifecycle_backend.Orders.Evolution.{Evolves-refl}
use order_lifecycle_backend.Orders.Evolving.{get-Evolving}
use order_lifecycle_backend.Messaging.Outbox.Tracing.{IsTraced-same}
use order_lifecycle_backend.Orders.Coherence.{
  owned_by, IsCopy, AreCopies, IsSound, soundly, Evolving-Sound,
}
use mathlib.Core.List.Memᴰ

find-owned :
    (id user_id : ℕ) (rows : List Order) (o : Order)
    → find (owned_by id user_id) rows ≡ some o
    → o.user_id ≡ user_id
find-owned id user_id [] o e = cc
find-owned id user_id (r ∷ rows) o e = ground (arith, find-owned id user_id rows o)

-- An order that a read has found in a terminal status is a right copy.
pub found-IsCopy :
    (id user_id : ℕ) (db : Db) (o : Order)
    → find_user_order id user_id db ≡ some o
    → is_terminal o ≡ true
    → IsCopy id o db.orders
unfolding find_user_order
found-IsCopy id user_id db o e t = elim (Option-cases (find (owned_by id user_id) db.orders)) [
  | inl missing ↦ absurd (ground arith)
  | inr (row, found) ↦ record {
    row = row;
    found = ground (arith, find-owned id user_id db.orders row found);
    terminal = ground arith;
    agrees = ground arith;
  }
]

pub AreCopies-cons :
    (entries : List (ℕ × Order)) (rows : List Order) (id : ℕ) (o : Order)
    → IsCopy id o rows
    → AreCopies entries rows
    → AreCopies ((id, o) ∷ entries) rows
AreCopies-cons entries rows id o c copies i p m = elim (Memᴰ.cases_cons m) [
  | inl e ↦ subst (λ (x : ℕ × Order). IsCopy x.0 x.1 rows) (sym e) c
  | inr rest ↦ copies i p rest
]

if-IsSound : (b : Bool) {u w : World} → IsSound u w → IsSound u (if b then w else u)
if-IsSound true h = h
if-IsSound false {u} h = soundly.same u

module _ (P : Platform) where
  -- Storing a right copy keeps Redis coherent, whether the server accepts it or not.
  pub set_value-IsSound :
      (id : ℕ) (o : Order) (ttl : ℕ) (w : World)
      → IsCopy id o w.db.orders
      → IsSound w (set_value P (order_key id) (one o) ttl w).1
  unfolding set_value
  set_value-IsSound id o ttl w c = if-IsSound w.cache_enabled (
      if-IsSound (P.redis_accepts w.now w.redis (set (order_key id) (one o) ttl)) (record {
        evolves = Evolves-refl w.db.orders;
        handled = λ i c' h. h;
        coherent = λ copies. AreCopies-cons (order_entries w.redis) w.db.orders id o c copies;
        traces = IsTraced-same w _ refl refl;
        lists = λ h. h;
      }))

  -- The world after a miss: the terminal order that the query has found is stored.
  miss-world :
      (id user_id : ℕ) (w : World) (o : Order)
      → find_user_order id user_id w.db ≡ some o
      → (order_or_read P id user_id none w).1
        ≡ (if is_terminal o then (set_value P (order_key id) (one o) w.cache_ttl w).1 else w)
  miss-world id user_id w o e =
      ground (arith, set_value-returns P (order_key id) (one o) w.cache_ttl w)

  missed-IsSound :
      (id : ℕ) (o : Order) (w : World)
      → (is_terminal o ≡ true → IsCopy id o w.db.orders)
      → IsSound w
          (if is_terminal o then (set_value P (order_key id) (one o) w.cache_ttl w).1 else w)
  missed-IsSound id o w copy = elim (Bool-cases (is_terminal o)) [
    | inl t ↦ rw t (set_value-IsSound id o w.cache_ttl w (copy t))
    | inr t ↦ rw t (soundly.same w)
  ]

  read-IsSound : (id user_id : ℕ) (w : World) → IsSound w (order_or_read P id user_id none w).1
  read-IsSound id user_id w = elim (Option-cases (find_user_order id user_id w.db)) [
    | inl missing ↦ rw missing (soundly.same w)
    | inr (o, found) ↦
        subst (IsSound w) (sym (miss-world id user_id w o found))
          (missed-IsSound id o w (found-IsCopy id user_id w.db o found))
  ]

  order_or_read-Sound :
      (id user_id : ℕ) (hit : Option Order) → Always soundly (order_or_read P id user_id hit)
  order_or_read-Sound id user_id (some o) = pure-Always o
  order_or_read-Sound id user_id none = record { always = read-IsSound id user_id }

  pub get_order_for_user-Sound : (id user_id : ℕ) → Always soundly (get_order_for_user P id user_id)
  unfolding get_order_for_user
  get_order_for_user-Sound id user_id =
      >>=-Always _ _ (Evolving-Sound _ (get-Evolving P (order_key id)))
        λ cached. order_or_read-Sound id user_id (own_hit user_id cached)
