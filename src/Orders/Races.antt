-- ===== src/Orders/Races.antt =====
-- The races for one order between its payment confirmation and its cancellation
-- (`initiatePayment` and `cancelOrder` of src/modules/orders/services/orders.service.ts). Every
-- caller works from an order that it has read at some time before.
mod Claims
pub mod Restoring
use order_lifecycle_backend.Prelude.{
  count-after_update, ℕ, ◌<◌, ◌≡◌, ◌≢◌, refl, ap, ◌∙◌, sym, inl, inr, Bool, true, false, not,
  Option, none, some, List, [], ◌∷◌, arith, ◌==◌, if◌then◌else◌, Bool-cases, Option-cases, find_by,
  IsKeyed, at_key, update_where, count_where, count-refused, count-absent, update_where-none,
  find_by-update_self, update-IsKeyed,
}
use order_lifecycle_backend.Entities.{
  Order, OrderStatus, Payload, pending, reserved, paid, completed, failed, cancelled,
}
use order_lifecycle_backend.World.{Platform, World, Result, ok, err, conflict, ◌>>=◌, ◌>>◌}
use order_lifecycle_backend.World.{TerminalState, transaction, order_key, user_orders_key}
use order_lifecycle_backend.Cache.FailOpen.{del_keys-Harmless}
use order_lifecycle_backend.Messaging.Outbox.{enqueue}
use order_lifecycle_backend.Products.{restore_stock}
use order_lifecycle_backend.Metrics.{record_terminal_state}
use order_lifecycle_backend.Orders.StateMachine.{same_status}
use order_lifecycle_backend.Orders.Rows.{
  order_id, is_payable, is_cancellable, set_status, set_payment_initiated, has_status, is_null,
}
use order_lifecycle_backend.Orders.PaymentClaim.{
  claim_payment, claim_and_enqueue, event_of, confirm_payment,
}
use order_lifecycle_backend.Orders.Cancellation.{
  claim_cancel, item_lines, restore_if, cancel_read_order,
}
use order_lifecycle_backend.Orders.Races.Claims.{
  payable_rows, cancellable_rows, lost_confirmation, lost_cancellation, won_confirmation,
  won_cancellation,
}

module _ (P : Platform) (id : ℕ) where
  -- Of two confirmations of one order, the one that comes after a successful one conflicts and
  -- leaves every table as it was, whatever order each of them had read.
  pub confirm_then_confirm :
      (first second o : Order) (w w' : World)
      → confirm_payment P id first w ≡ (ok o, w')
      → ((confirm_payment P id second w').0 ≡ err conflict)
        × ((confirm_payment P id second w').1.db ≡ w'.db)
  confirm_then_confirm first second o w w' e = lost_confirmation P id second w' (
      ap (count_where (at_key order_id id is_payable)) (won_confirmation P id first o w w' e).1
      ∙ count-after_update order_id id is_payable is_payable (set_payment_initiated w.now)
          (λ r. refl) (λ r h. ground arith) (λ r h. h) w.db.orders)

  -- A confirmation after a successful cancellation of the same order conflicts and leaves every
  -- table as it was, so no payment event is enqueued for it, whatever order each had read.
  pub cancel_then_confirm :
      (first second o : Order) (w w' : World)
      → cancel_read_order P id first w ≡ (ok o, w')
      → ((confirm_payment P id second w').0 ≡ err conflict)
        × ((confirm_payment P id second w').1.db ≡ w'.db)
  cancel_then_confirm first second o w w' e = lost_confirmation P id second w' (
      ap (count_where (at_key order_id id is_payable)) (won_cancellation P id first o w w' e).1
      ∙ count-after_update order_id id is_payable is_cancellable (set_status cancelled w.now)
          (λ r. refl) (λ r h. refl) (λ r h. ground arith) w.db.orders)

  -- A second cancellation of an order conflicts and leaves every table as it was: no stock is
  -- restored twice, whatever order each had read.
  pub cancel_then_cancel :
      (first second o : Order) (w w' : World)
      → cancel_read_order P id first w ≡ (ok o, w')
      → ((cancel_read_order P id second w').0 ≡ err conflict)
        × ((cancel_read_order P id second w').1.db ≡ w'.db)
  cancel_then_cancel first second o w w' e = lost_cancellation P id second w' (
      ap (count_where (at_key order_id id is_cancellable)) (won_cancellation P id first o w w' e).1
      ∙ count-after_update order_id id is_cancellable is_cancellable (set_status cancelled w.now)
          (λ r. refl) (λ r h. refl) (λ r h. h) w.db.orders)

  confirmed_row :
      (w : World) (row : Order)
      → 0 < payable_rows id w
      → IsKeyed order_id w.db.orders
      → find_by order_id id w.db.orders ≡ some row
      → is_payable row ≡ true
  confirmed_row w row n u e = elim (Bool-cases (is_payable row)) [
    | inl h ↦ h
    | inr h ↦ ground (arith, count-refused order_id id is_payable w.db.orders row u e h)
  ]

  unconfirmable :
      (row : Order) (now : ℕ)
      → is_payable row ≡ true
      → is_cancellable (set_payment_initiated now row) ≡ false
  unconfirmable row now h = ground arith

  -- A cancellation after a successful payment confirmation of the same order conflicts and leaves
  -- every table as it was, whatever order each had read, given distinct order ids.
  pub confirm_then_cancel :
      (first second o : Order) (w w' : World)
      → IsKeyed order_id w.db.orders
      → confirm_payment P id first w ≡ (ok o, w')
      → ((cancel_read_order P id second w').0 ≡ err conflict)
        × ((cancel_read_order P id second w').1.db ≡ w'.db)
  confirm_then_cancel first second o w w' u e =
      let won = won_confirmation P id first o w w' e in
      lost_cancellation P id second w'
        (ap (count_where (at_key order_id id is_cancellable)) won.1 ∙ none_left won.0)
    where
      rows : List Order
      rows = update_where (at_key order_id id is_payable) (set_payment_initiated w.now) w.db.orders

      none_left : 0 < payable_rows id w → count_where (at_key order_id id is_cancellable) rows ≡ 0
      none_left n = elim (Option-cases (find_by order_id id w.db.orders)) [
        | inl absent ↦
            absurd (ground (arith, count-absent order_id id is_payable w.db.orders absent))
        | inr (row, found) ↦
            let payable = confirmed_row w row n u found in
            count-refused order_id id is_cancellable rows (set_payment_initiated w.now row)
              (update-IsKeyed order_id id is_payable (set_payment_initiated w.now) (λ r. refl)
                w.db.orders u)
              (find_by-update_self order_id id is_payable (set_payment_initiated w.now) (λ r. refl)
                  w.db.orders row found
                ∙ ap some (rw payable))
              (unconfirmable row w.now payable)
      ]
