-- ===== src/Orders/Cancellation.antt =====
-- `cancelOrder` (src/modules/orders/services/orders.service.ts).
use order_lifecycle_backend.Prelude.{
  ℕ, Bool, true, false, not, Option, none, some, List, [], ◌∷◌, map, ◌==◌, update_where,
  count_where, at_key,
}
use order_lifecycle_backend.Entities.{Order, OrderItem, StockLine, reserved, cancelled}
use order_lifecycle_backend.World.{
  Platform, M, ok, pure, throw_if, conflict, ◌>>=◌, ◌>>◌, order_key, user_orders_key, TerminalState,
}
use order_lifecycle_backend.Metrics.{record_terminal_state}
use order_lifecycle_backend.Cache.{del_keys}
use order_lifecycle_backend.Products.{restore_stock}
use order_lifecycle_backend.Orders.Rows.{
  order_id, is_cancellable, has_status, set_status, set_orders,
}
use order_lifecycle_backend.Orders.Reading.{get_order_for_user}

-- UPDATE orders SET status = 'CANCELLED' WHERE id = :id
-- AND ((status = 'PENDING') OR (status = 'RESERVED' AND "paymentInitiatedAt" IS NULL))
unfoldable pub claim_cancel : ℕ → M ℕ
claim_cancel id w = (
  ok (count_where (at_key order_id id is_cancellable) w.db.orders),
  set_orders
      (update_where (at_key order_id id is_cancellable) (set_status cancelled w.now) w.db.orders) w,
)

abbrev pub item_line : OrderItem → StockLine
item_line item = record { product_id = item.product_id; quantity = item.quantity }

-- `(order.items ?? []).map(...)`
abbrev pub item_lines : Option (List OrderItem) → List StockLine
item_lines none = []
item_lines (some items) = map item_line items

abbrev pub restore_if : Bool → List StockLine → M (Unit {0})
restore_if true lines = restore_stock lines
restore_if false lines = pure tt

module _ (P : Platform) where
  -- The second half of `cancelOrder`, from the order as it was read.
  unfoldable pub cancel_read_order : ℕ → Order → M Order
  cancel_read_order id order = do
    throw_if (not (is_cancellable order)) conflict
    affected ← claim_cancel id
    throw_if (affected == 0) conflict
    restore_if (has_status reserved order) (item_lines order.items)
    record_terminal_state TerminalState.cancelled
    del_keys P (order_key id ∷ user_orders_key order.user_id ∷ [])
    pure (record order { status = cancelled })

  -- `cancelOrder`
  unfoldable pub cancel_order : ℕ → ℕ → M Order
  cancel_order id user_id = do order ← get_order_for_user P id user_id; cancel_read_order id order
