-- ===== src/Lifecycle/Calls.antt =====
-- The write operations of src/modules/orders/services/orders.service.ts, whole, as actions on the
-- order table: creation, payment confirmation and cancellation.
use order_lifecycle_backend.Prelude.{
  ℕ, arith, refl, ◌++◌, Bool, true, false, not, none, some, List, [], ◌∷◌, ◌==◌,
}
use order_lifecycle_backend.Entities.{
  Order, OrderItem, Payload, created, pending, reserved, cancelled, inventory_reserved,
}
use order_lifecycle_backend.World.{
  Platform, pure, conflict, modify_db, order_key, user_orders_key, TerminalState, Metric,
}
use order_lifecycle_backend.Cache.FailOpen.{del_keys-Harmless}
use order_lifecycle_backend.Orders.Rows.{has_status, is_cancellable}
use order_lifecycle_backend.Orders.Evolution.{insert-Evolves}
use order_lifecycle_backend.World.Always.{
  Always, >>=-Always, >>-Always, pure-Always, gets-Always, throw_if-Always,
}
use order_lifecycle_backend.Orders.Evolving.{
  Evolving, unchanged, orders_only, Harmless-Evolving, transaction-Evolving, record_metric-Evolving,
  random_id-Evolving, enqueue-Evolving,
}
use order_lifecycle_backend.Orders.Creation.{
  OrderLine, new_order, new_item, created_event, make_items, insert_order, create_order,
}
use order_lifecycle_backend.Orders.PaymentClaim.{
  event_of, enqueue_unless, claim_and_enqueue, confirm_payment, initiate_payment,
}
use order_lifecycle_backend.Orders.Cancellation.{item_lines, cancel_read_order, cancel_order}
use order_lifecycle_backend.Orders.Coherence.{soundly, Evolving-Sound}
use order_lifecycle_backend.Lifecycle.Reads.{get_order_for_user-Sound}
use order_lifecycle_backend.Lifecycle.Services.{
  claim_payment-Evolving, claim_cancel-Evolving, restore_if-Evolving,
}

insert_row-Evolving :
    (o : Order) → Evolving (modify_db (λ db. record db { orders = db.orders ++ o ∷ [] }))
insert_row-Evolving o = orders_only _ λ w. (insert-Evolves o w.db.orders, refl, refl, refl, refl)

-- The row that the transaction returns, with the items that the ORM has attached to it.
abbrev inserted_order : (id user_id now : ℕ) → List OrderItem → Order
inserted_order id user_id now items = record {
  id = id;
  user_id = user_id;
  status = pending;
  payment_initiated_at = none;
  payment_text = false;
  items = some items;
  created_at = now;
  updated_at = now;
}

module _ (P : Platform) where
  make_items-Evolving : (id : ℕ) (lines : List OrderLine) → Evolving (make_items P id lines)
  unfolding make_items
  make_items-Evolving id [] = pure-Always []
  make_items-Evolving id (l ∷ ls) = >>=-Always _ _ (random_id-Evolving P) λ item_id.
      >>=-Always _ _ (make_items-Evolving id ls) λ rest. pure-Always (new_item item_id id l ∷ rest)

  insert_order-Evolving :
      (user_id : ℕ) (lines : List OrderLine) → Evolving (insert_order P user_id lines)
  unfolding insert_order
  insert_order-Evolving user_id lines = >>=-Always _ _ (random_id-Evolving P) λ id.
      >>=-Always _ _ (gets-Always (λ w. w.now)) λ now.
        >>-Always _ _ (insert_row-Evolving (new_order id user_id now)) (
          >>=-Always _ _ (make_items-Evolving id lines) λ items.
            >>-Always _ _
              (unchanged (modify_db (λ db. record db { order_items = db.order_items ++ items }))
                (λ w. ground arith))
              (>>-Always _ (pure (inserted_order id user_id now items))
                (enqueue-Evolving P created (created_event (new_order id user_id now) lines))
                (pure-Always (inserted_order id user_id now items))))

  pub create_order-Evolving :
      (user_id : ℕ) (lines : List OrderLine) → Evolving (create_order P user_id lines)
  unfolding create_order
  create_order-Evolving user_id lines =
      >>=-Always _ _ (transaction-Evolving _ (insert_order-Evolving user_id lines)) λ order.
        >>-Always _ _ (record_metric-Evolving Metric.order_created) (
          >>-Always _ _ (Harmless-Evolving _ (del_keys-Harmless P (user_orders_key user_id ∷ [])))
            (pure-Always order))

  enqueue_unless-Evolving : (b : Bool) (event : Payload) → Evolving (enqueue_unless P b event)
  enqueue_unless-Evolving true event = pure-Always false
  enqueue_unless-Evolving false event =
      >>-Always _ _ (enqueue-Evolving P inventory_reserved event) (pure-Always true)

  claim_and_enqueue-Evolving : (id : ℕ) (event : Payload) → Evolving (claim_and_enqueue P id event)
  unfolding claim_and_enqueue
  claim_and_enqueue-Evolving id event =
      >>=-Always _ _ (claim_payment-Evolving id)
        λ affected. enqueue_unless-Evolving (affected == 0) event

  pub confirm_payment-Evolving : (id : ℕ) (order : Order) → Evolving (confirm_payment P id order)
  unfolding confirm_payment
  confirm_payment-Evolving id order =
      >>-Always _ _ (throw_if-Always (not (has_status reserved order)) conflict) (
        >>=-Always _ _ (gets-Always (λ w. w.now)) λ occurred_at.
          >>=-Always _ _
            (transaction-Evolving _ (claim_and_enqueue-Evolving id (event_of order occurred_at)))
            λ claimed. >>-Always _ _ (throw_if-Always (not claimed) conflict) (
              >>=-Always _ _ (gets-Always (λ w. w.now)) λ now.
                >>-Always _ _ (Harmless-Evolving _ (del_keys-Harmless P (order_key id ∷ [])))
                  (pure-Always (record order { payment_initiated_at = some now }))))

  pub initiate_payment-Sound : (id user_id : ℕ) → Always soundly (initiate_payment P id user_id)
  unfolding initiate_payment
  initiate_payment-Sound id user_id =
      >>=-Always _ _ (get_order_for_user-Sound P id user_id)
        λ order. Evolving-Sound _ (confirm_payment-Evolving id order)

  pub cancel_read_order-Evolving :
      (id : ℕ) (order : Order) → Evolving (cancel_read_order P id order)
  unfolding cancel_read_order
  cancel_read_order-Evolving id order =
      >>-Always _ _ (throw_if-Always (not (is_cancellable order)) conflict) (
        >>=-Always _ _ (claim_cancel-Evolving id) λ affected.
          >>-Always _ _ (throw_if-Always (affected == 0) conflict) (
            >>-Always _ _ (restore_if-Evolving (has_status reserved order) (item_lines order.items))
              (>>-Always _ _
                (record_metric-Evolving (Metric.order_terminal TerminalState.cancelled))
                (>>-Always _ _
                  (Harmless-Evolving _
                    (del_keys-Harmless P (order_key id ∷ user_orders_key order.user_id ∷ [])))
                  (pure-Always (record order { status = cancelled }))))))

  pub cancel_order-Sound : (id user_id : ℕ) → Always soundly (cancel_order P id user_id)
  unfolding cancel_order
  cancel_order-Sound id user_id =
      >>=-Always _ _ (get_order_for_user-Sound P id user_id)
        λ order. Evolving-Sound _ (cancel_read_order-Evolving id order)
