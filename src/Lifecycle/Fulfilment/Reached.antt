-- ===== src/Lifecycle/Fulfilment/Reached.antt =====
-- That the way to completion is always open to an order whose stock and payment suffice
-- (src/modules/orders, inventory, payment and completion).
use order_lifecycle_backend.Prelude.{
  ℕ, ◌≡◌, refl, ap, ◌∙◌, true, false, none, some, List, [], ◌∷◌, ◌++◌, find_by, IsKeyed,
}
use order_lifecycle_backend.Entities.{
  Order, StockLine, inventory, payment, completion, pending, reserved, paid, completed,
}
use order_lifecycle_backend.World.{Platform, World}
use order_lifecycle_backend.Products.{reserve_stock, product_id}
use order_lifecycle_backend.Products.Reservation.{covers}
use order_lifecycle_backend.Messaging.Inbox.{is_processed, processed_message}
use order_lifecycle_backend.Orders.Rows.{order_id, set_status, set_payment_initiated}
use order_lifecycle_backend.Payment.Gateway.{Provider, ledger_key}
use order_lifecycle_backend.Lifecycle.Fulfilment.{
  at, event_at, created_event_of, reserved_world, confirmed_world, paid_world, completed_world,
}
use order_lifecycle_backend.Lifecycle.Fulfilment.Works.{is_processed-other, confirm_payment-claims}
use order_lifecycle_backend.Lifecycle.Fulfilment.Handled.{reserve-fresh, pay-fresh, complete-fresh}

module _ (P : Platform) (provider : Provider) (o : Order) (lines : List StockLine) (w : World)
    (i j k t u v : ℕ) (keyed : IsKeyed product_id w.db.products)
    (stock : covers lines lines w.db.products ≡ true)
    (found : find_by order_id o.id w.db.orders ≡ some o) (waiting : o.status ≡ pending)
    (unpaid : o.payment_initiated_at ≡ none)
    (uncharged : find_by ledger_key o.id w.db.authorizations ≡ none)
    (accepted : (provider (event_at o t) o.id).authorized ≡ true)
    (unseen : is_processed i inventory w.db.inbox ≡ false)
    (unseen' : is_processed j payment w.db.inbox ≡ false)
    (unseen'' : is_processed k completion w.db.inbox ≡ false) where
  abbrev reserved_order : Order
  reserved_order = set_status reserved w.now o

  abbrev confirmed_order : Order
  confirmed_order = set_payment_initiated t reserved_order

  abbrev paid_order : Order
  paid_order = set_status paid u confirmed_order

  reserved_world-ready :
      let w' = reserved_world P provider o lines i w in
      (find_by order_id o.id w'.db.orders ≡ some reserved_order)
      × (w'.db.authorizations ≡ w.db.authorizations)
      × (w'.db.inbox ≡ w.db.inbox ++ processed_message i inventory ∷ [])
      × (w'.db.products ≡ (reserve_stock lines w).1.db.products)
      × (w'.charges ≡ w.charges)
  unfolding reserved_world
  reserved_world-ready =
      reserve-fresh P i (created_event_of o lines w.now) w o keyed stock found waiting unseen

  confirmed_world-ready :
      let w' = confirmed_world P provider o lines i t w in
      (find_by order_id o.id w'.db.orders ≡ some confirmed_order)
      × (find_by ledger_key o.id w'.db.authorizations ≡ none)
      × (w'.db.inbox ≡ w.db.inbox ++ processed_message i inventory ∷ [])
      × (w'.db.products ≡ (reserve_stock lines w).1.db.products)
      × (w'.charges ≡ w.charges)
  unfolding confirmed_world
  confirmed_world-ready =
      let (row, ledger, inbox, products, charges) = reserved_world-ready in
      let (done, row', inbox', ledger', (products', charges')) =
        confirm_payment-claims P (at t (reserved_world P provider o lines i w)) reserved_order row
          refl unpaid in
      (
        row',
        ap (find_by ledger_key o.id) (ledger' ∙ ledger) ∙ uncharged,
        inbox' ∙ inbox,
        products' ∙ products,
        charges' ∙ charges,
      )

  paid_world-ready :
      let w' = paid_world P provider o lines (i, j) (t, u) w in
      (find_by order_id o.id w'.db.orders ≡ some paid_order)
      × (w'.db.inbox
          ≡ (w.db.inbox ++ processed_message i inventory ∷ []) ++ processed_message j payment ∷ [])
      × (w'.db.products ≡ (reserve_stock lines w).1.db.products)
      × (w'.charges ≡ o.id ∷ w.charges)
  unfolding paid_world
  paid_world-ready =
      let (row, ledger, inbox, products, charges) = confirmed_world-ready in
      let (row', inbox', products', charges') =
        pay-fresh P provider j (event_at o t) (at u (confirmed_world P provider o lines i t w))
          confirmed_order accepted ledger row refl
          (ap (is_processed j payment) inbox
            ∙ is_processed-other j i payment inventory w.db.inbox refl unseen') in
      (
        row',
        inbox' ∙ ap (λ ms. ms ++ processed_message j payment ∷ []) inbox,
        products' ∙ products,
        charges' ∙ ap (λ cs. o.id ∷ cs) charges,
      )

  -- An order that is PENDING, whose payment is not initiated and not on the ledger, and whose lines
  -- the stock of the uniquely numbered products covers, is COMPLETED when three messages with
  -- ids that their consumers have not handled have been delivered in turn, with the user's
  -- confirmation after the first, each at a time of its own, if the provider accepts the
  -- payment. Its row tells the times of the confirmation and of the completion, the order has
  -- been charged once, and the products are those that one reservation of the lines leaves.
  pub completed_world-reached :
      (find_by order_id o.id (completed_world P provider o lines (i, j, k) (t, u, v) w).db.orders
        ≡ some (
            set_status completed v
              (set_status paid u (set_payment_initiated t (set_status reserved w.now o)))))
      × ((completed_world P provider o lines (i, j, k) (t, u, v) w).charges ≡ o.id ∷ w.charges)
      × ((completed_world P provider o lines (i, j, k) (t, u, v) w).db.products
          ≡ (reserve_stock lines w).1.db.products)
  unfolding completed_world
  completed_world-reached =
      let (row, inbox, products, charges) = paid_world-ready in
      let (row', (products', charges')) =
        complete-fresh P k (event_at o u) (at v (paid_world P provider o lines (i, j) (t, u) w))
          paid_order row refl
          (ap (is_processed k completion) inbox
            ∙ is_processed-other k j completion payment
                (w.db.inbox ++ processed_message i inventory ∷ []) refl
                (is_processed-other k i completion inventory w.db.inbox refl unseen'')) in
      (row', charges' ∙ charges, products' ∙ products)
