-- ===== src/Orders/Reading/Lists.antt =====
-- Whose orders a list has, as the database and Redis know it
-- (`listOrdersForUser`, src/modules/orders/services/orders.service.ts).
use order_lifecycle_backend.Prelude.{
  ℕ, ◌≡◌, refl, inl, inr, Bool, true, ◌&&◌, List, [], ◌∷◌, map, arith, ◌==◌, Bool-cases, select,
  every,
}
use order_lifecycle_backend.Entities.{Order, OrderItem}
use order_lifecycle_backend.World.{Db}
use order_lifecycle_backend.Orders.Rows.{with_items}
use order_lifecycle_backend.Orders.Reading.{insert_newest, newest_first, find_user_orders}

abbrev pub is_owned : ℕ → Order → Bool
is_owned user_id o = o.user_id == user_id

-- Each stored list has only orders of the user under whose key it is stored.
abbrev pub are_owned : List (ℕ × List Order) → Bool
are_owned [] = true
are_owned ((u, os) ∷ lists) = every (is_owned u) os && are_owned lists

insert_newest-owned :
    (user_id : ℕ) (o : Order) (os : List Order)
    → is_owned user_id o ≡ true
    → every (is_owned user_id) os ≡ true
    → every (is_owned user_id) (insert_newest o os) ≡ true
insert_newest-owned user_id o [] h k = ground arith
insert_newest-owned user_id o (p ∷ os) h k = ground (arith, insert_newest-owned user_id o os)

newest_first-owned :
    (user_id : ℕ) (items : List OrderItem) (rows : List Order)
    → every
        (is_owned user_id)
        (newest_first (map (with_items items) (select (λ o. o.user_id == user_id) rows)))
      ≡ true
newest_first-owned user_id items [] = refl
newest_first-owned user_id items (o ∷ rows) = elim (Bool-cases (o.user_id == user_id)) [
  | inl own ↦ rw own (
      insert_newest-owned user_id (with_items items o) _ own
        (newest_first-owned user_id items rows))
  | inr other ↦ rw other (newest_first-owned user_id items rows)
]

pub find_user_orders-owned :
    (user_id : ℕ) (db : Db) → every (is_owned user_id) (find_user_orders user_id db) ≡ true
unfolding find_user_orders
find_user_orders-owned user_id db = newest_first-owned user_id db.order_items db.orders
