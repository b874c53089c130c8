-- ===== src/Orders/Races/Claims.antt =====
-- The conditional UPDATEs of `initiatePayment` and `cancelOrder`, won and lost
-- (src/modules/orders/services/orders.service.ts).
use order_lifecycle_backend.Prelude.{
  ℕ, ◌<◌, ◌≡◌, inl, inr, [], ◌∷◌, arith, ◌==◌, Bool-cases, at_key, update_where, count_where,
  update_where-none,
}
use order_lifecycle_backend.Entities.{Order, reserved, cancelled}
use order_lifecycle_backend.World.{Platform, World, ok, err, conflict, ◌>>◌}
use order_lifecycle_backend.World.{TerminalState, transaction, order_key, user_orders_key}
use order_lifecycle_backend.Cache.FailOpen.{del_keys-Harmless}
use order_lifecycle_backend.Messaging.Outbox.{enqueue}
use order_lifecycle_backend.Products.{restore_stock}
use order_lifecycle_backend.Metrics.{record_terminal_state}
use order_lifecycle_backend.Orders.Rows.{
  order_id, is_payable, is_cancellable, set_status, set_payment_initiated, has_status,
}
use order_lifecycle_backend.Orders.PaymentClaim.{
  claim_payment, claim_and_enqueue, event_of, confirm_payment,
}
use order_lifecycle_backend.Orders.Cancellation.{
  claim_cancel, item_lines, restore_if, cancel_read_order,
}

abbrev pub payable_rows : ℕ → World → ℕ
payable_rows id w = count_where (at_key order_id id is_payable) w.db.orders

abbrev pub cancellable_rows : ℕ → World → ℕ
cancellable_rows id w = count_where (at_key order_id id is_cancellable) w.db.orders

-- Before the invalidation, after all else of a won cancellation.
abbrev pub cancelled_world : ℕ → Order → World → World
cancelled_world id read w =
    ((restore_if (has_status reserved read) (item_lines read.items)
        >> record_terminal_state TerminalState.cancelled)
      (claim_cancel id w).1).1

module _ (P : Platform) (id : ℕ) where
  -- A confirmation that matches no row conflicts.
  pub lost_confirmation :
      (read : Order) (w : World)
      → payable_rows id w ≡ 0
      → ((confirm_payment P id read w).0 ≡ err conflict)
        × ((confirm_payment P id read w).1.db ≡ w.db)
  unfolding confirm_payment claim_and_enqueue claim_payment
  lost_confirmation read w none_left = elim (Bool-cases (has_status reserved read)) [
    | inl e ↦ ground (
      arith,
      update_where-none (at_key order_id id is_payable) (set_payment_initiated w.now) w.db.orders
          none_left,
    )
    | inr e ↦ ground arith
  ]

  pub lost_cancellation :
      (read : Order) (w : World)
      → cancellable_rows id w ≡ 0
      → ((cancel_read_order P id read w).0 ≡ err conflict)
        × ((cancel_read_order P id read w).1.db ≡ w.db)
  unfolding cancel_read_order claim_cancel
  lost_cancellation read w none_left = elim (Bool-cases (is_cancellable read)) [
    | inl e ↦ ground (
      arith,
      update_where-none (at_key order_id id is_cancellable) (set_status cancelled w.now) w.db.orders
          none_left,
    )
    | inr e ↦ ground arith
  ]

  -- What a won confirmation has done to the order table.
  pub won_confirmation :
      (read o : Order) (w w' : World)
      → confirm_payment P id read w ≡ (ok o, w')
      → (0 < payable_rows id w)
        × (w'.db.orders
            ≡ update_where
                (at_key order_id id is_payable)
                (set_payment_initiated w.now)
                w.db.orders)
  unfolding confirm_payment claim_and_enqueue claim_payment enqueue
  won_confirmation read o w w' e = elim (Bool-cases (has_status reserved read)) [
    | inl r ↦ elim (Bool-cases (payable_rows id w == 0)) [
      | inl z ↦ ground (arith, lost_confirmation read w)
      | inr z ↦ ground (
        arith,
        del_keys-Harmless P (order_key id ∷ [])
            (transaction (claim_and_enqueue P id (event_of read w.now)) w).1,
      )
    ]
    | inr r ↦ ground arith
  ]

  pub won_cancellation :
      (read o : Order) (w w' : World)
      → cancel_read_order P id read w ≡ (ok o, w')
      → (0 < cancellable_rows id w)
        × (w'.db.orders
            ≡ update_where
                (at_key order_id id is_cancellable)
                (set_status cancelled w.now)
                w.db.orders)
  unfolding cancel_read_order claim_cancel restore_stock
  won_cancellation read o w w' e = elim (Bool-cases (is_cancellable read)) [
    | inl r ↦ elim (Bool-cases (cancellable_rows id w == 0)) [
      | inl z ↦ ground (arith, lost_cancellation read w)
      | inr z ↦ elim (Bool-cases (has_status reserved read)) [
        | inl s ↦ ground (
          arith,
          del_keys-Harmless P (order_key id ∷ user_orders_key read.user_id ∷ [])
              (cancelled_world id read w),
        )
        | inr s ↦ ground (
          arith,
          del_keys-Harmless P (order_key id ∷ user_orders_key read.user_id ∷ [])
              (cancelled_world id read w),
        )
      ]
    ]
    | inr r ↦ ground arith
  ]
