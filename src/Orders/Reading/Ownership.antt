-- ===== src/Orders/Reading/Ownership.antt =====
-- Whose order a read of one order answers with, from Redis or from the database
-- (`getOrderForUser`, src/modules/orders/services/orders.service.ts).
use order_lifecycle_backend.Prelude.{
  ℕ, ◌≡◌, refl, sym, ap, ◌∙◌, inl, inr, ◌&&◌, Option, none, some, List, [], ◌∷◌, arith, ◌==◌,
  Bool-cases, Option-cases, find,
}
use order_lifecycle_backend.Entities.{Order}
use order_lifecycle_backend.World.{
  Platform, World, Db, Result, ok, err, not_found, ◌>>=◌, order_key, one, many, Cached,
}
use order_lifecycle_backend.World.Harmless.{IsHarmless}
use order_lifecycle_backend.Cache.{get}
use order_lifecycle_backend.Cache.FailOpen.{answered, get_fail_open, set_value-returns}
use order_lifecycle_backend.Orders.Reading.{
  find_user_order, own_hit, order_or_read, get_order_for_user, is_terminal,
}

abbrev Owned : ℕ → Option Order → Type 0
Owned user_id hit = (o : Order) → hit ≡ some o → o.user_id ≡ user_id

own_hit-Owned : (user_id : ℕ) (hit : Option Cached) → Owned user_id (own_hit user_id hit)
own_hit-Owned user_id none o e = cc
own_hit-Owned user_id (some (many os)) o e = cc
own_hit-Owned user_id (some (one p)) o e = ground arith

find-Owned :
    (id user_id : ℕ) (rows : List Order)
    → Owned user_id (find (λ o. (o.id == id) && (o.user_id == user_id)) rows)
find-Owned id user_id [] o e = cc
find-Owned id user_id (p ∷ rows) o e = ground (arith, find-Owned id user_id rows o)

find_user_order-Owned : (id user_id : ℕ) (db : Db) → Owned user_id (find_user_order id user_id db)
unfolding find_user_order
find_user_order-Owned id user_id db o e =
    elim (Option-cases (find (λ x. (x.id == id) && (x.user_id == user_id)) db.orders)) [
      | inl missing ↦ ground arith
      | inr (p, found) ↦ ground (arith, find-Owned id user_id db.orders p found)
    ]

-- The answer from a hit, or else from a row.
abbrev pub answer_of : Option Order → Option Order → Result Order
answer_of (some o) row = ok o
answer_of none (some o) = ok o
answer_of none none = err not_found

answer_of-Owned :
    (user_id : ℕ) (hit row : Option Order) (o : Order)
    → Owned user_id hit
    → Owned user_id row
    → answer_of hit row ≡ ok o
    → o.user_id ≡ user_id
answer_of-Owned user_id (some p) row o h k e = h o (ground arith)
answer_of-Owned user_id none (some p) o h k e = k o (ground arith)
answer_of-Owned user_id none none o h k e = cc

module _ (P : Platform) (id user_id : ℕ) where
  -- A read that misses answers from the database, whatever the write to Redis comes to.
  miss-answers :
      (w : World)
      → (order_or_read P id user_id none w).0 ≡ answer_of none (find_user_order id user_id w.db)
  miss-answers w = elim (Option-cases (find_user_order id user_id w.db)) [
    | inl e ↦ rw e
    | inr (o, e) ↦ elim (Bool-cases (is_terminal o)) [
      | inl t ↦ ground (arith, set_value-returns P (order_key id) (one o) w.cache_ttl w)
      | inr t ↦ ground arith
    ]
  ]

  hit-answers :
      (hit : Option Order) (w : World)
      → (order_or_read P id user_id hit w).0 ≡ answer_of hit (find_user_order id user_id w.db)
  hit-answers (some o) w = refl
  hit-answers none w = miss-answers w

  -- What a read of an order answers: the hit of `order:<id>` if it is the caller's order, and
  -- otherwise, also on a hit of another user's order or on a failure of Redis, the order that the
  -- database has under that id and that user, or not found.
  pub get_order_for_user-answers :
      (w : World)
      → (get_order_for_user P id user_id w).0
        ≡ answer_of
            (own_hit user_id (answered P w (order_key id)))
            (find_user_order id user_id w.db)
  unfolding get_order_for_user
  get_order_for_user-answers w =
      rw (read.0, ◌>>=◌)
        (hit-answers (own_hit user_id (answered P w (order_key id))) (get P (order_key id) w).1
          ∙ ap
              (λ (db : Db).
                answer_of (own_hit user_id (answered P w (order_key id)))
                  (find_user_order id user_id db))
              (read.1).db)
    where
      read :
          ((get P (order_key id) w).0 ≡ ok (answered P w (order_key id)))
          × IsHarmless w (get P (order_key id) w).1
          × ((get P (order_key id) w).1.redis ≡ w.redis)
      read = get_fail_open P (order_key id) w

  -- A read of an order never answers with an order of another user.
  pub get_order_for_user-owned :
      (w : World) (o : Order) → (get_order_for_user P id user_id w).0 ≡ ok o → o.user_id ≡ user_id
  get_order_for_user-owned w o e =
      answer_of-Owned user_id _ _ o (own_hit-Owned user_id (answered P w (order_key id)))
        (find_user_order-Owned id user_id w.db) (sym (get_order_for_user-answers w) ∙ e)
