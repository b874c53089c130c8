-- ===== src/Inventory/Outcomes.antt =====
-- The two outcomes of the inventory work on a pending order
-- (src/modules/inventory/inventory.consumer.ts).
use order_lifecycle_backend.Prelude.{
  ℕ, suc, ◌≡◌, refl, ap, ◌∙◌, inl, inr, true, false, Option, none, some, List, [], ◌∷◌, ◌++◌, arith,
  ◌==◌, Bool-cases, find_by, IsKeyed,
}
use order_lifecycle_backend.Entities.{
  Order, OrderCreatedEvent, OrderStatus, Product, StockLine, OutboxMessage, Payload, order_failed,
  RoutingKey, pending, reserved, failed,
}
use order_lifecycle_backend.World.{Platform, World, Result, ok, err, insufficient_stock}
use order_lifecycle_backend.Products.{product_id, reserve_lines, reserve_stock, affected, decrement}
use order_lifecycle_backend.Products.Reservation.{covers, succeeded}
use order_lifecycle_backend.Products.AllOrNothing.{reserve_stock-covers, reserve_stock-refused}
use order_lifecycle_backend.Messaging.Outbox.{correlation_or_random, message, enqueue}
use order_lifecycle_backend.Orders.StateMachine.{is_transition_allowed}
use order_lifecycle_backend.Orders.Rows.{order_id, set_status}
use order_lifecycle_backend.Orders.Transition.{transition_order}
use order_lifecycle_backend.Orders.Transition.Cas.{transition_order-moves}
use order_lifecycle_backend.Inventory.{reserve_and_advance, on_shortage, reserve_work}

succeeded_ok : (r : Result (Unit {0})) → succeeded r ≡ true → r ≡ ok tt
succeeded_ok (ok tt) h = refl
succeeded_ok (err e) h = cc

-- The loop throws nothing but a shortage.
short_of :
    (applied ls : List StockLine) (rows : List Product)
    → succeeded (reserve_lines applied ls rows).0 ≡ false
    → (p : ℕ) × ((reserve_lines applied ls rows).0 ≡ err (insufficient_stock p))
unfolding reserve_lines
short_of applied [] rows h = cc
short_of applied (l ∷ ls) rows h = elim (Bool-cases (affected l rows == 0)) [
  | inl e ↦ (l.product_id, rw e)
  | inr e ↦
      let (p, f) = short_of (applied ++ l ∷ []) ls (decrement l rows) (ground arith) in (p, rw e f)
]

allowed_reserve : (s : OrderStatus) → s ≡ pending → is_transition_allowed s reserved ≡ true
unfolding is_transition_allowed
allowed_reserve s h = rw h

allowed_fail : (s : OrderStatus) → s ≡ pending → is_transition_allowed s failed ≡ true
unfolding is_transition_allowed
allowed_fail s h = rw h

module _ (P : Platform) (event : OrderCreatedEvent) where
  -- If the stock covers the event's lines, the work on a PENDING order reports no short product,
  -- leaves the order RESERVED, and takes from the products what the reservation takes.
  pub reserve_work-reserves :
      (w : World) (o : Order)
      → IsKeyed product_id w.db.products
      → covers event.items event.items w.db.products ≡ true
      → find_by order_id event.order_id w.db.orders ≡ some o
      → o.status ≡ pending
      → ((reserve_work P event w).0 ≡ ok none)
        × (find_by order_id event.order_id (reserve_work P event w).1.db.orders
            ≡ some (set_status reserved w.now o))
        × ((reserve_work P event w).1.db.products ≡ (reserve_stock event.items w).1.db.products)
  unfolding reserve_work reserve_and_advance reserve_stock
  reserve_work-reserves w o u c found waiting = ground (
    arith,
    succeeded_ok _ (reserve_stock-covers event.items w u ∙ c),
    transition_order-moves P event.order_id reserved (reserve_stock event.items w).1 o found
        (allowed_reserve o.status waiting),
  )

  -- It leaves the inbox and the payment ledger alone, and charges nothing.
  pub reserve_work-aside :
      (w : World) (o : Order)
      → IsKeyed product_id w.db.products
      → covers event.items event.items w.db.products ≡ true
      → find_by order_id event.order_id w.db.orders ≡ some o
      → o.status ≡ pending
      → ((reserve_work P event w).1.db.inbox ≡ w.db.inbox)
        × ((reserve_work P event w).1.db.authorizations ≡ w.db.authorizations)
        × ((reserve_work P event w).1.charges ≡ w.charges)
  unfolding reserve_work reserve_and_advance reserve_stock
  reserve_work-aside w o u c found waiting = ground (
    arith,
    succeeded_ok _ (reserve_stock-covers event.items w u ∙ c),
    transition_order-moves P event.order_id reserved (reserve_stock event.items w).1 o found
        (allowed_reserve o.status waiting),
  )

  short_product :
      (w : World)
      → succeeded (reserve_stock event.items w).0 ≡ false
      → (p : ℕ) × ((reserve_stock event.items w).0 ≡ err (insufficient_stock p))
  unfolding reserve_stock
  short_product w h = short_of [] event.items w.db.products h

  falls_to_shortage :
      (w : World) (p : ℕ)
      → (reserve_stock event.items w).0 ≡ err (insufficient_stock p)
      → (reserve_stock event.items w).1 ≡ w
      → reserve_work P event w ≡ on_shortage P event (insufficient_stock p) w
  unfolding reserve_work reserve_and_advance
  falls_to_shortage w p short same = ground arith

  drawn_correlation :
      (c : Option ℕ) (w : World)
      → (id : ℕ) × ((correlation_or_random P c w).0 ≡ ok id)
        × ((correlation_or_random P c w).1.db ≡ w.db)
        × ((correlation_or_random P c w).1.now ≡ w.now)
  drawn_correlation none w = (P.random_uuid w.drawn, refl, refl, refl)
  drawn_correlation (some c) w = (c, refl, refl, refl)

  enqueue-appends :
      (key : RoutingKey) (payload : Payload) (w : World)
      → ((enqueue P key payload w).0 ≡ ok tt)
        × ((enqueue P key payload w).1.db.orders ≡ w.db.orders)
        × ((enqueue P key payload w).1.db.products ≡ w.db.products)
        × ((m : OutboxMessage) × ((enqueue P key payload w).1.db.outbox ≡ w.db.outbox ++ m ∷ [])
            × (m.routing_key ≡ key)
            × (m.payload ≡ payload))
  unfolding enqueue
  enqueue-appends key payload w =
      let (id, r, same, now) = drawn_correlation w.correlation (record w { drawn = suc w.drawn }) in
      (
        ground arith,
        ground arith,
        ground arith,
        (message P (P.random_uuid w.drawn) key payload id w.now, ground arith, refl, refl),
      )

  abbrev pub failed_payload : ℕ → Payload
  failed_payload now = order_failed (record {
    order_id = event.order_id;
    user_id = event.user_id;
    reason = "insufficient_stock";
    occurred_at = now;
  })

  abbrev pub FailedEvent : World → OutboxMessage → Type 0
  FailedEvent w m = (m.routing_key ≡ RoutingKey.failed) × (m.payload ≡ failed_payload w.now)

  on_shortage-fails :
      (p : ℕ) (w : World) (o : Order)
      → find_by order_id event.order_id w.db.orders ≡ some o
      → o.status ≡ pending
      → ((on_shortage P event (insufficient_stock p) w).0 ≡ ok (some p))
        × (find_by order_id event.order_id
              (on_shortage P event (insufficient_stock p) w).1.db.orders
            ≡ some (set_status failed w.now o))
        × ((on_shortage P event (insufficient_stock p) w).1.db.products ≡ w.db.products)
        × ((m : OutboxMessage) × ((on_shortage P event (insufficient_stock p) w).1.db.outbox
              ≡ w.db.outbox ++ m ∷ [])
            × FailedEvent w m)
  unfolding on_shortage
  on_shortage-fails p w o found waiting =
      let moved =
        transition_order-moves P event.order_id failed w o found (allowed_fail o.status waiting) in
      let w' = (transition_order P event.order_id failed w).1 in
      let payload = failed_payload w'.now in
      let (done, orders, products, (m, outbox, key, body)) =
        enqueue-appends RoutingKey.failed payload w' in
      let same = ap (λ (n : ℕ). failed_payload n) moved.3 in
      (ground arith, ground arith, ground arith, (m, ground arith, (key, body ∙ same)))

  -- If the stock does not cover the event's lines, the work on a PENDING order reports a short
  -- product, leaves the order FAILED and the products as they were, and appends an OrderFailed
  -- message with the reason insufficient_stock to the outbox.
  pub reserve_work-fails :
      (w : World) (o : Order)
      → IsKeyed product_id w.db.products
      → covers event.items event.items w.db.products ≡ false
      → find_by order_id event.order_id w.db.orders ≡ some o
      → o.status ≡ pending
      → ((p : ℕ) × ((reserve_work P event w).0 ≡ ok (some p)))
        × (find_by order_id event.order_id (reserve_work P event w).1.db.orders
            ≡ some (set_status failed w.now o))
        × ((reserve_work P event w).1.db.products ≡ w.db.products)
        × ((m : OutboxMessage) × ((reserve_work P event w).1.db.outbox ≡ w.db.outbox ++ m ∷ [])
            × FailedEvent w m)
  reserve_work-fails w o u c found waiting =
      let refused = reserve_stock-refused event.items w u c in
      let (p, short) = short_product w (refused.0) in
      let (returned, row, products, sent) = on_shortage-fails p w o found waiting in
      rw (falls_to_shortage w p short refused.1) ((p, returned), row, products, sent)
