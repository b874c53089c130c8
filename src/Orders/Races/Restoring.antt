-- ===== src/Orders/Races/Restoring.antt =====
-- The stock that `cancelOrder` gives back (src/modules/orders/services/orders.service.ts). It is
-- decided by the order as it was read, while the claim looks at the order as it is stored.
use order_lifecycle_backend.Prelude.{
  ℕ, ◌≡◌, refl, inl, inr, none, some, [], ◌∷◌, arith, ◌==◌, if◌then◌else◌, Bool-cases, find_by,
  count-found, find_by-update_self,
}
use order_lifecycle_backend.Entities.{Order, pending, reserved, cancelled}
use order_lifecycle_backend.World.{Platform, World, ok, order_key, user_orders_key}
use order_lifecycle_backend.Cache.FailOpen.{del_keys-Harmless}
use order_lifecycle_backend.Products.{restore_lines, restore_stock}
use order_lifecycle_backend.Orders.Rows.{order_id, is_cancellable, has_status, set_status}
use order_lifecycle_backend.Orders.Cancellation.{claim_cancel, item_lines, cancel_read_order}
use order_lifecycle_backend.Orders.Races.Claims.{
  cancelled_world, cancellable_rows, lost_cancellation,
}

module _ (P : Platform) (id : ℕ) (read : Order) where
  -- A successful cancellation gives back the lines of the order that it has read if that order
  -- was RESERVED, and otherwise leaves the products as they were.
  pub cancel_read_order-restores :
      (o : Order) (w w' : World)
      → cancel_read_order P id read w ≡ (ok o, w')
      → w'.db.products ≡ (
          if has_status reserved read
          then restore_lines (item_lines read.items) w.db.products
          else w.db.products)
  unfolding cancel_read_order claim_cancel restore_stock
  cancel_read_order-restores o w w' e = elim (Bool-cases (is_cancellable read)) [
    | inl r ↦ elim (Bool-cases (cancellable_rows id w == 0)) [
      | inl z ↦ ground (arith, lost_cancellation P id read w)
      | inr z ↦ elim (Bool-cases (has_status reserved read)) [
        | inl s ↦ ground (
          arith,
          del_keys-Harmless P (order_key id ∷ user_orders_key read.user_id ∷ [])
              (cancelled_world id read w),
        )
        | inr s ↦ ground (
          arith,
          del_keys-Harmless P (order_key id ∷ user_orders_key read.user_id ∷ [])
              (cancelled_world id read w),
        )
      ]
    ]
    | inr r ↦ ground arith
  ]

  -- If the order was PENDING when it was read, and by the time of the claim is stored as RESERVED
  -- without a payment confirmation, the cancellation succeeds and its row becomes CANCELLED, but
  -- the products stay as they were, so the reserved stock is not given back.
  pub cancel_read_order_leaks :
      (w : World) (row : Order)
      → read.status ≡ pending
      → find_by order_id id w.db.orders ≡ some row
      → row.status ≡ reserved
      → row.payment_initiated_at ≡ none
      → ((cancel_read_order P id read w).0 ≡ ok (record read { status = cancelled }))
        × (find_by order_id id (cancel_read_order P id read w).1.db.orders
            ≡ some (set_status cancelled w.now row))
        × ((cancel_read_order P id read w).1.db.products ≡ w.db.products)
  unfolding cancel_read_order claim_cancel
  cancel_read_order_leaks w row seen found stored unpaid = ground (
    arith,
    del_keys-Harmless P (order_key id ∷ user_orders_key read.user_id ∷ [])
        (cancelled_world id read w),
    count-found order_id id is_cancellable w.db.orders row found,
    find_by-update_self order_id id is_cancellable (set_status cancelled w.now) (λ r. refl)
        w.db.orders row found,
  )
