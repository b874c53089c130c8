-- ===== src/Orders/Reading/Staleness.antt =====
-- The list of a user's orders in Redis, written by a read that a creation has overtaken
-- (`listOrdersForUser` and `createOrder`, src/modules/orders/services/orders.service.ts).
use order_lifecycle_backend.Prelude.{
  ℕ, suc, ◌≡◌, refl, sym, ap, ◌∙◌, inl, inr, Bool, true, List, [], ◌∷◌, ◌++◌, map, arith, ◌==◌,
  select, every, count_where, length, Bool-cases,
}
use order_lifecycle_backend.Entities.{Order}
use order_lifecycle_backend.World.{
  Platform, World, Db, ok, RedisCommand, RedisKey, Cached, set, value, many, user_orders_key,
}
use order_lifecycle_backend.Cache.{get, set_value}
use order_lifecycle_backend.Orders.Rows.{with_items}
use order_lifecycle_backend.Orders.Creation.{OrderLine, create_order, new_order}
use order_lifecycle_backend.Orders.Creation.Commit.{IsCommitted, create_order-IsCommitted}
use order_lifecycle_backend.Orders.Reading.{
  rehydrate_order, is_terminal, insert_newest, newest_first, find_user_orders, cache_list,
  list_orders_for_user,
}

-- Redis carries out a SET, and a GET of that key right after it answers with the value.
abbrev pub IsPrompt : Platform → Type 0
IsPrompt P =
    (now : ℕ) (log : List RedisCommand) (key : RedisKey) (v : Cached) (ttl : ℕ)
    → (P.redis_accepts now log (set key v ttl) ≡ true)
      × (P.redis_get now (set key v ttl ∷ log) key ≡ value v)

length-insert_newest : (o : Order) (os : List Order) → length (insert_newest o os) ≡ suc (length os)
length-insert_newest o [] = refl
length-insert_newest o (p ∷ os) = ground (arith, length-insert_newest o os)

length-newest_first : (os : List Order) → length (newest_first os) ≡ length os
length-newest_first [] = refl
length-newest_first (o ∷ os) =
    ground (arith, length-newest_first os, length-insert_newest o (newest_first os))

length-select :
    (p : Order → Bool) (f : Order → Order) (os : List Order)
    → length (map f (select p os)) ≡ count_where p os
length-select p f [] = refl
length-select p f (o ∷ os) = elim (Bool-cases (p o)) [
  | inl hit ↦ ground (arith, length-select p f os)
  | inr miss ↦ ground (arith, length-select p f os)
]

count-added :
    (p : Order → Bool) (o : Order) (os : List Order)
    → p o ≡ true
    → count_where p (os ++ o ∷ []) ≡ suc (count_where p os)
count-added p o [] h = ground arith
count-added p o (q ∷ os) h = ground (arith, count-added p o os)

-- How many orders a user's list has.
length-find_user_orders :
    (user_id : ℕ) (db : Db)
    → length (find_user_orders user_id db) ≡ count_where (λ o. o.user_id == user_id) db.orders
unfolding find_user_orders
length-find_user_orders user_id db =
    length-newest_first _
    ∙ length-select (λ o. o.user_id == user_id) (with_items db.order_items) db.orders

module _ (P : Platform) (prompt : IsPrompt P) where
  -- A list that has just been stored is the answer to the next read.
  stored-list :
      (user_id : ℕ) (os : List Order) (w : World)
      → w.cache_enabled ≡ true
      → every is_terminal os ≡ true
      → ((list_orders_for_user P user_id (cache_list P user_id os w).1).0
          ≡ ok (map rehydrate_order os))
        × ((cache_list P user_id os w).1.db ≡ w.db)
  unfolding set_value list_orders_for_user get
  stored-list user_id os w on all =
      ground (arith, prompt w.now w.redis (user_orders_key user_id) (many os) w.cache_ttl)

  -- A read of a user's list, all of whose orders are terminal, can store its result after a
  -- creation that it has not seen, and after that creation's invalidation: then the next read
  -- answers with the orders from before, as their JSON gives them back, although the database has one order more. Redis carries out
  -- writes and answers with what was just stored.
  pub list_orders_for_user-stale :
      (user_id : ℕ) (lines : List OrderLine) (w : World)
      → every is_terminal (find_user_orders user_id w.db) ≡ true
      → (create_order P user_id lines w).1.cache_enabled ≡ true
      → ((list_orders_for_user P user_id
            (cache_list P user_id
              (find_user_orders user_id w.db)
              (create_order P user_id lines w).1).1).0
          ≡ ok (map rehydrate_order (find_user_orders user_id w.db)))
        × (length (
              find_user_orders user_id
                (cache_list P user_id
                  (find_user_orders user_id w.db)
                  (create_order P user_id lines w).1).1.db)
            ≡ suc (length (find_user_orders user_id w.db)))
  list_orders_for_user-stale user_id lines w all on = (
    (stored-list user_id (find_user_orders user_id w.db) created_world on all).0,
    ap (λ (db : Db). length (find_user_orders user_id db))
          (stored-list user_id (find_user_orders user_id w.db) created_world on all).1
        ∙ length-find_user_orders user_id created_world.db
        ∙ ap (λ (db : Db). count_where (λ o. o.user_id == user_id) db.orders) committed.database
        ∙ count-added (λ o. o.user_id == user_id) (new_order committed.id user_id w.now) w.db.orders
            (ground arith)
        ∙ ap suc (sym (length-find_user_orders user_id w.db)),
  )
    where
      created_world : World
      created_world = (create_order P user_id lines w).1

      committed : IsCommitted P user_id lines w (create_order P user_id lines w)
      committed = create_order-IsCommitted P user_id lines w
