-- ===== src/Lifecycle/Fulfilment/Handled.antt =====
-- The first delivery of each message to its consumer (src/modules/inventory, payment and completion).
use order_lifecycle_backend.Prelude.{
  ℕ, ◌≡◌, ap, ◌∙◌, true, false, none, some, [], ◌∷◌, ◌++◌, arith, find_by, IsKeyed,
}
use order_lifecycle_backend.Entities.{
  Order, OrderEvent, OrderCreatedEvent, inventory, payment, completion, pending, reserved, paid,
  completed,
}
use order_lifecycle_backend.World.{Platform, World}
use order_lifecycle_backend.Products.{reserve_stock, product_id}
use order_lifecycle_backend.Products.Reservation.{covers}
use order_lifecycle_backend.Messaging.Inbox.{is_processed, processed_message}
use order_lifecycle_backend.Orders.Rows.{order_id, set_status}
use order_lifecycle_backend.Payment.Gateway.{Provider, authorize, ledger_key}
use order_lifecycle_backend.Payment.Consumer.{advance_paid, authorize_and_advance}
use order_lifecycle_backend.Inventory.{reserve_work, reserve}
use order_lifecycle_backend.Inventory.Outcomes.{reserve_work-reserves, reserve_work-aside}
use order_lifecycle_backend.Messaging.EventOnce.{process_event_once}
use order_lifecycle_backend.Completion.{complete_work, complete}
use order_lifecycle_backend.Lifecycle.Fulfilment.Works.{
  SameSales, run_once-fresh, complete_work-completes, advance_paid-pays, authorize-aside,
}

module _ (P : Platform) where
  pub reserve-fresh :
      (id : ℕ) (event : OrderCreatedEvent) (w : World) (o : Order)
      → IsKeyed product_id w.db.products
      → covers event.items event.items w.db.products ≡ true
      → find_by order_id event.order_id w.db.orders ≡ some o
      → o.status ≡ pending
      → is_processed id inventory w.db.inbox ≡ false
      → (find_by order_id event.order_id (reserve P (some id) event w).1.db.orders
          ≡ some (set_status reserved w.now o))
        × ((reserve P (some id) event w).1.db.authorizations ≡ w.db.authorizations)
        × ((reserve P (some id) event w).1.db.inbox
            ≡ w.db.inbox ++ processed_message id inventory ∷ [])
        × ((reserve P (some id) event w).1.db.products
            ≡ (reserve_stock event.items w).1.db.products)
        × ((reserve P (some id) event w).1.charges ≡ w.charges)
  unfolding reserve process_event_once
  reserve-fresh id event w o u c found waiting unseen =
      let (done, row, products) = reserve_work-reserves P event w o u c found waiting in
      let (inbox, ledger, charges) = reserve_work-aside P event w o u c found waiting in
      ground (
        arith,
        run_once-fresh id inventory (reserve_work P event) w none unseen done inbox,
        row,
        ledger,
        products,
        charges,
      )

  pub pay-fresh :
      (provider : Provider) (id : ℕ) (event : OrderEvent) (w : World) (o : Order)
      → (provider event event.order_id).authorized ≡ true
      → find_by ledger_key event.order_id w.db.authorizations ≡ none
      → find_by order_id event.order_id w.db.orders ≡ some o
      → o.status ≡ reserved
      → is_processed id payment w.db.inbox ≡ false
      → (find_by order_id event.order_id
            (authorize_and_advance P provider (some id) event w).1.db.orders
          ≡ some (set_status paid w.now o))
        × ((authorize_and_advance P provider (some id) event w).1.db.inbox
            ≡ w.db.inbox ++ processed_message id payment ∷ [])
        × ((authorize_and_advance P provider (some id) event w).1.db.products ≡ w.db.products)
        × ((authorize_and_advance P provider (some id) event w).1.charges
            ≡ event.order_id ∷ w.charges)
  unfolding authorize_and_advance
  pay-fresh provider id event w o accepted ledger found stage unseen =
      let result = provider event event.order_id in
      let w' = (authorize provider event w).1 in
      let (granted, orders, inbox, now, products, charges) =
        authorize-aside provider event w ledger in
      let (done, row, same, sales) =
        advance_paid-pays P event result w' o accepted
          (ap (find_by order_id event.order_id) orders ∙ found) stage in
      let (ran, rows, ledger', seen, sales') =
        run_once-fresh id payment (advance_paid P event result) w' tt
          (ap (is_processed id payment) inbox ∙ unseen) done same in
      (
        ground (arith, granted, ran, rows, row, now),
        ground (arith, granted, ran, seen, inbox),
        ground (arith, granted, ran, products, sales, sales'),
        ground (arith, granted, ran, charges, sales, sales'),
      )

  pub complete-fresh :
      (id : ℕ) (event : OrderEvent) (w : World) (o : Order)
      → find_by order_id event.order_id w.db.orders ≡ some o
      → o.status ≡ paid
      → is_processed id completion w.db.inbox ≡ false
      → (find_by order_id event.order_id (complete P (some id) event w).1.db.orders
          ≡ some (set_status completed w.now o))
        × SameSales w (complete P (some id) event w).1
  unfolding complete process_event_once
  complete-fresh id event w o found stage unseen =
      let (done, row, inbox, sales) = complete_work-completes P event w o found stage in
      ground (
        arith,
        run_once-fresh id completion (complete_work P event) w tt unseen done inbox,
        row,
        sales,
      )
