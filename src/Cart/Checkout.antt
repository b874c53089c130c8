-- ===== src/Cart/Checkout.antt =====
-- Checkouts that race for one cart (src/modules/cart/cart.service.ts).
use order_lifecycle_backend.Prelude.{
  ℕ, suc, ◌≡◌, refl, ap, ◌∙◌, inl, inr, List, [], ◌∷◌, ◌++◌, arith, ◌==◌, Bool-cases, Option-cases,
  at_key, count_where, update_where, update_where-none,
}
use order_lifecycle_backend.Entities.{OrderItem, Order, RoutingKey, Payload, created}
use order_lifecycle_backend.World.{
  Platform, World, Db, Metric, ok, err, conflict, transaction, user_orders_key,
}
use order_lifecycle_backend.Cache.FailOpen.{del_keys-Harmless}
use order_lifecycle_backend.Messaging.Outbox.{enqueue}
use order_lifecycle_backend.Orders.Creation.{
  OrderLine, new_item, new_order, created_event, make_items, insert_order, create_order,
}
use order_lifecycle_backend.Prelude.{count-after_update}
use order_lifecycle_backend.Cart.{
  OpenCart, cart_key, is_unclaimed, check_out, claim_cart, has_no_lines, order_lines,
  check_out_read,
}

module _ (P : Platform) where
  make_items-db :
      (id : ℕ) (lines : List OrderLine) (w : World) → (make_items P id lines w).1.db ≡ w.db
  unfolding make_items
  make_items-db id [] w = refl
  make_items-db id (l ∷ ls) w =
      ground (arith, make_items-db id ls (record w { drawn = suc w.drawn }))

  make_items-ok :
      (id : ℕ) (lines : List OrderLine) (w : World)
      → (items : List OrderItem) × ((make_items P id lines w).0 ≡ ok items)
  unfolding make_items
  make_items-ok id [] w = ([], refl)
  make_items-ok id (l ∷ ls) w =
      let (rest, e) = make_items-ok id ls (record w { drawn = suc w.drawn }) in
      (new_item (P.random_uuid w.drawn) id l ∷ rest, ground arith)

  enqueue-carts :
      (key : RoutingKey) (payload : Payload) (w : World)
      → (enqueue P key payload w).1.db.carts ≡ w.db.carts
  unfolding enqueue
  enqueue-carts key payload w = ground arith

module _ (P : Platform) (user_id : ℕ) (lines : List OrderLine) where
  abbrev begun : World → World
  begun w = record w {
    drawn = suc w.drawn;
    db = record (w.db) {
      orders = w.db.orders ++ new_order (P.random_uuid w.drawn) user_id w.now ∷ [];
    };
  }

  insert_order-carts : (w : World) → (insert_order P user_id lines w).1.db.carts ≡ w.db.carts
  unfolding insert_order
  insert_order-carts w =
      let id = P.random_uuid w.drawn in
      let v = (make_items P id lines (begun w)).1 in
      let (items, made) = make_items-ok P id lines (begun w) in
      ground (
        arith,
        made,
        ap (λ (db : Db). db.carts) (make_items-db P id lines (begun w)),
        enqueue-carts P created (created_event (new_order id user_id w.now) lines)
            (record v { db = record (v.db) { order_items = v.db.order_items ++ items } }),
      )

  abbrev stored : World → World
  stored w = (transaction (insert_order P user_id lines) w).1

  create_order-carts : (w : World) → (create_order P user_id lines w).1.db.carts ≡ w.db.carts
  unfolding create_order
  create_order-carts w = ground (
    arith,
    insert_order-carts w,
    del_keys-Harmless P (user_orders_key user_id ∷ [])
        (record (stored w) { metrics = Metric.order_created ∷ (stored w).metrics }),
  )

module _ (P : Platform) (user_id : ℕ) where
  lost_checkout :
      (read : OpenCart) (w : World)
      → count_where (at_key cart_key read.cart.id is_unclaimed) w.db.carts ≡ 0
      → ((check_out_read P user_id read w).0 ≡ err conflict)
        × ((check_out_read P user_id read w).1.db ≡ w.db)
  unfolding check_out_read claim_cart
  lost_checkout read w none_left = elim (Bool-cases (has_no_lines read.items)) [
    | inl e ↦ ground arith
    | inr e ↦ ground (
      arith,
      update_where-none (at_key cart_key read.cart.id is_unclaimed) (check_out w.now) w.db.carts
          none_left,
    )
  ]

  abbrev claimed_world : OpenCart → World → World
  claimed_world read w = (claim_cart read.cart.id w).1

  won_checkout :
      (read : OpenCart) (o : Order) (w w' : World)
      → check_out_read P user_id read w ≡ (ok o, w')
      → w'.db.carts
        ≡ update_where (at_key cart_key read.cart.id is_unclaimed) (check_out w.now) w.db.carts
  unfolding check_out_read claim_cart
  won_checkout read o w w' e = elim (Bool-cases (has_no_lines read.items)) [
    | inl z ↦ ground arith
    | inr z ↦
        elim (Bool-cases
          (count_where (at_key cart_key read.cart.id is_unclaimed) w.db.carts == 0)) [
            | inl n ↦ ground (arith, lost_checkout read w)
            | inr n ↦ elim (Option-cases (order_lines read.items)) [
              | inl l ↦ ground arith
              | inr (lines, l) ↦
                  ground (arith, create_order-carts P user_id lines (claimed_world read w))
            ]
          ]
  ]

-- A cart is checked out at most once: after a successful checkout of it, every checkout of a cart
-- with that id, whatever it has read and whoever asks, conflicts and leaves every table as it
-- was, so it creates no order.
pub check_out_twice :
    (P : Platform) (user_id other : ℕ) (first second : OpenCart) (o : Order) (w w' : World)
    → check_out_read P user_id first w ≡ (ok o, w')
    → second.cart.id ≡ first.cart.id
    → ((check_out_read P other second w').0 ≡ err conflict)
      × ((check_out_read P other second w').1.db ≡ w'.db)
check_out_twice P user_id other first second o w w' e same = lost_checkout P other second w' (
    ap (λ k. count_where (at_key cart_key k is_unclaimed) w'.db.carts) same
    ∙ ap (count_where (at_key cart_key first.cart.id is_unclaimed))
        (won_checkout P user_id first o w w' e)
    ∙ count-after_update cart_key first.cart.id is_unclaimed is_unclaimed (check_out w.now)
        (λ r. refl) (λ r h. refl) (λ r h. h) w.db.carts)
