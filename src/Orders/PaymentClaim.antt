-- ===== src/Orders/PaymentClaim.antt =====
-- `initiatePayment` (src/modules/orders/services/orders.service.ts): the caller's confirmation of
-- the payment claims the order and enqueues the event for the payment consumer.
use order_lifecycle_backend.Prelude.{
  ℕ, Bool, true, false, not, some, [], ◌∷◌, ◌==◌, update_where, count_where, at_key,
}
use order_lifecycle_backend.Entities.{Order, reserved, Payload, order_event, inventory_reserved}
use order_lifecycle_backend.World.{
  Platform, M, ok, pure, throw_if, gets, conflict, transaction, ◌>>=◌, ◌>>◌, order_key,
}
use order_lifecycle_backend.Cache.{del_keys}
use order_lifecycle_backend.Messaging.Outbox.{enqueue}
use order_lifecycle_backend.Orders.Rows.{
  order_id, is_payable, has_status, set_payment_initiated, set_orders,
}
use order_lifecycle_backend.Orders.Reading.{get_order_for_user}

-- UPDATE orders SET "paymentInitiatedAt" = now()
-- WHERE id = :id AND status = 'RESERVED' AND "paymentInitiatedAt" IS NULL
unfoldable pub claim_payment : ℕ → M ℕ
claim_payment id w = (
  ok (count_where (at_key order_id id is_payable) w.db.orders),
  set_orders
      (update_where (at_key order_id id is_payable) (set_payment_initiated w.now) w.db.orders) w,
)

abbrev pub event_of : Order → ℕ → Payload
event_of o now = order_event (record { order_id = o.id; user_id = o.user_id; occurred_at = now })

module _ (P : Platform) where
  abbrev pub enqueue_unless : Bool → Payload → M Bool
  enqueue_unless true event = pure false
  enqueue_unless false event = enqueue P inventory_reserved event >> pure true

  -- The transaction's body: false if the claim is lost.
  unfoldable pub claim_and_enqueue : ℕ → Payload → M Bool
  claim_and_enqueue id event = do affected ← claim_payment id; enqueue_unless (affected == 0) event

  -- The second half of `initiatePayment`, from the order as it was read.
  unfoldable pub confirm_payment : ℕ → Order → M Order
  confirm_payment id order = do
    throw_if (not (has_status reserved order)) conflict
    occurred_at ← gets (λ w. w.now)
    claimed ← transaction (claim_and_enqueue id (event_of order occurred_at))
    throw_if (not claimed) conflict
    now ← gets (λ w. w.now)
    del_keys P (order_key id ∷ [])
    pure (record order { payment_initiated_at = some now })

  -- `initiatePayment`
  unfoldable pub initiate_payment : ℕ → ℕ → M Order
  initiate_payment id user_id = do order ← get_order_for_user P id user_id; confirm_payment id order
