-- ===== src/Lifecycle/Lists.antt =====
-- Whose orders a user's list answers with, from Redis or from the database
-- (`listOrdersForUser`, src/modules/orders/services/orders.service.ts).
use order_lifecycle_backend.Prelude.{
  map, ℕ, ◌≡◌, refl, sym, ◌∙◌, subst, inl, inr, Bool, true, false, Option, none, some, List, [],
  ◌∷◌, arith, Bool-cases, if◌then◌else◌, every,
}
use order_lifecycle_backend.Entities.{Order}
use order_lifecycle_backend.World.{
  Platform, World, ok, ◌>>=◌, RedisCommand, user_orders_key, one, many, Reply, value, null, failure,
}
use order_lifecycle_backend.World.Harmless.{list_entries}
use order_lifecycle_backend.Cache.{get}
use order_lifecycle_backend.Cache.FailOpen.{answered, usable, get_fail_open, set_value-returns}
use order_lifecycle_backend.Orders.Reading.{
  is_terminal, find_user_orders, list_hit, rehydrate_order, list_or_read, list_orders_for_user,
}
use order_lifecycle_backend.Orders.Reading.Lists.{is_owned, are_owned, find_user_orders-owned}
use order_lifecycle_backend.Payment.Gateway.{Provider}
use order_lifecycle_backend.Lifecycle.System.{Call, run, run-IsSound}
use mathlib.Core.List.{Memᴰ}
use mathlib.Core.List.Memᴰ

-- A GET of `orders:user:<userId>` answers with no list that has not been SET under that key before.
abbrev pub ListsAreFaithful : Platform → Type 0
ListsAreFaithful P =
    (now : ℕ) (log : List RedisCommand) (user_id : ℕ) (os : List Order)
    → P.redis_get now log (user_orders_key user_id) ≡ value (many os)
    → Memᴰ (user_id, os) (list_entries log)

entry-owned :
    (lists : List (ℕ × List Order)) (user_id : ℕ) (os : List Order)
    → are_owned lists ≡ true
    → Memᴰ (user_id, os) lists
    → every (is_owned user_id) os ≡ true
entry-owned [] user_id os h m = elim m [ ]
entry-owned ((u, ps) ∷ lists) user_id os h m = elim (Memᴰ.cases_cons m) [
  | inl e ↦ subst (λ (x : ℕ × List Order). every (is_owned x.0) x.1 ≡ true) (sym e) (ground arith)
  | inr rest ↦ entry-owned lists user_id os (ground arith) rest
]

-- The list of a hit has been sent by the server for that key.
list_hit-value :
    (enabled : Bool) (r : Reply) (os : List Order)
    → list_hit (if enabled then usable r else none) ≡ some os
    → (ps : List Order) × (r ≡ value (many ps)) × (map rehydrate_order ps ≡ os)
list_hit-value false r os e = cc
list_hit-value true null os e = cc
list_hit-value true failure os e = cc
list_hit-value true (value (one p)) os e = cc
list_hit-value true (value (many ps)) os e = (ps, refl, ground (arith, e))

rehydrate_order-owned :
    (user_id : ℕ) (os : List Order)
    → every (is_owned user_id) os ≡ true
    → every (is_owned user_id) (map rehydrate_order os) ≡ true
rehydrate_order-owned user_id [] h = refl
rehydrate_order-owned user_id (o ∷ os) h = ground (arith, rehydrate_order-owned user_id os)

module _ (P : Platform) (user_id : ℕ) where
  read-owned :
      (w : World) (os : List Order)
      → (list_or_read P user_id none w).0 ≡ ok os
      → every (is_owned user_id) os ≡ true
  read-owned w os e =
      subst (λ (ps : List Order). every (is_owned user_id) ps ≡ true) found
        (find_user_orders-owned user_id w.db)
    where
      found : find_user_orders user_id w.db ≡ os
      found = elim (Bool-cases (every is_terminal (find_user_orders user_id w.db))) [
        | inl all ↦ ground (
          arith,
          set_value-returns P (user_orders_key user_id) (many (find_user_orders user_id w.db))
              w.cache_ttl w,
        )
        | inr some_live ↦ ground arith
      ]

  answer-owned :
      (hit : Option (List Order)) (w : World) (os : List Order)
      → ((ps : List Order) → hit ≡ some ps → every (is_owned user_id) ps ≡ true)
      → (list_or_read P user_id hit w).0 ≡ ok os
      → every (is_owned user_id) os ≡ true
  answer-owned none w os h e = read-owned w os e
  answer-owned (some ps) w os h e = h os (cc)

  pub list_orders_for_user-owned :
      ListsAreFaithful P
      → (w : World) (os : List Order) → are_owned (list_entries w.redis) ≡ true
      → (list_orders_for_user P user_id w).0 ≡ ok os
      → every (is_owned user_id) os ≡ true
  unfolding list_orders_for_user
  list_orders_for_user-owned faithful w os stored e =
      answer-owned (list_hit (answered P w (user_orders_key user_id)))
        (get P (user_orders_key user_id) w).1 os
        (λ ps hit.
          let (qs, sent, same) = list_hit-value w.cache_enabled _ ps hit in
          subst (λ (rs : List Order). every (is_owned user_id) rs ≡ true) same
            (rehydrate_order-owned user_id qs (
              entry-owned (list_entries w.redis) user_id qs stored
                (faithful w.now w.redis user_id qs sent))))
        (sym (rw ((get_fail_open P (user_orders_key user_id) w).0, ◌>>=◌) refl) ∙ e)

-- No user is shown another user's order in the list of orders, although a hit in Redis is answered
-- with unchecked: after any calls, from a Redis that stores only users' own lists and answers only
-- with what has been stored, every order of the list is the user's.
pub listed_orders_owned :
    (P : Platform)
    → ListsAreFaithful P
    → (provider : Provider) (cs : List Call) (w : World) → are_owned (list_entries w.redis) ≡ true
    → (user_id : ℕ) (os : List Order)
    → (list_orders_for_user P user_id (run P provider cs w)).0 ≡ ok os
    → every (is_owned user_id) os ≡ true
listed_orders_owned P faithful provider cs w stored user_id os e =
    list_orders_for_user-owned P user_id faithful (run P provider cs w) os
      ((run-IsSound P provider cs w).lists stored) e
