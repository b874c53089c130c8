-- ===== src/Orders/Transition.antt =====
-- `transitionOrder` (src/modules/orders/services/orders.service.ts): the state machine's guard,
-- then a compare-and-set of the status that the guard has read.
pub mod Cas
use order_lifecycle_backend.Prelude.{
  ℕ, Bool, true, false, ◌&&◌, not, Option, none, some, List, [], ◌∷◌, ◌==◌, if◌then◌else◌, find_by,
  update_where, count_where, at_key,
}
use order_lifecycle_backend.Entities.{
  Order, OrderStatus, pending, reserved, paid, completed, failed, cancelled,
}
use order_lifecycle_backend.World.{
  Platform, World, M, ok, err, pure, throw_if, gets, or_throw, not_found, conflict, ◌>>=◌, ◌>>◌,
  order_key, user_orders_key, TerminalState, reservation, payment, completion, fulfilment,
}
use order_lifecycle_backend.Metrics.{record_terminal_state, record_order_stage}
use order_lifecycle_backend.Cache.{del_keys}
use order_lifecycle_backend.Orders.StateMachine.{is_transition_allowed}
use order_lifecycle_backend.Orders.Rows.{order_id, has_status, set_status, set_orders}

-- `TERMINAL_STATE_LABELS`
abbrev pub terminal_state_label : OrderStatus → Option TerminalState
terminal_state_label completed = some TerminalState.completed
terminal_state_label failed = some TerminalState.failed
terminal_state_label cancelled = some TerminalState.cancelled
terminal_state_label _ = none

abbrev pub record_label : Option TerminalState → M (Unit {0})
record_label none w = (ok tt, w)
record_label (some state) w = record_terminal_state state w

abbrev pub record_paid_click : Option ℕ → M (Unit {0})
record_paid_click none w = (ok tt, w)
record_paid_click (some t) w = record_order_stage payment t w

abbrev pub record_fulfilment : Option ℕ → M (Unit {0})
record_fulfilment none w = (ok tt, w)
record_fulfilment (some t) w = record_order_stage fulfilment t w

-- `recordStageTimings`, from the order as it was read.
unfoldable pub record_stage_timings : Order → OrderStatus → OrderStatus → M (Unit {0})
record_stage_timings order pending to = record_order_stage reservation order.created_at
record_stage_timings order reserved to = record_paid_click order.payment_initiated_at
record_stage_timings order paid completed =
    record_order_stage completion order.updated_at >> record_fulfilment order.payment_initiated_at
record_stage_timings order _ to = pure tt

-- `repository.update({ id: orderId, status: from }, { status: to })`, with `affected`.
unfoldable pub compare_and_set : ℕ → OrderStatus → OrderStatus → M ℕ
compare_and_set id from to w = (
  ok (count_where (at_key order_id id (has_status from)) w.db.orders),
  set_orders (update_where (at_key order_id id (has_status from)) (set_status to w.now) w.db.orders)
      w,
)

module _ (P : Platform) where
  -- What follows a won compare-and-set: the counters, the stage timings and the invalidation.
  unfoldable pub announce_transition : ℕ → OrderStatus → Order → M (Unit {0})
  announce_transition id to order = do
    record_label (terminal_state_label to)
    record_stage_timings order order.status to
    del_keys P (order_key id ∷ user_orders_key order.user_id ∷ [])

  -- The second half of `transitionOrder`, from the order as it was read.
  unfoldable pub apply_transition : ℕ → OrderStatus → Order → M Order
  apply_transition id to order = do
    throw_if (not (is_transition_allowed order.status to)) conflict
    affected ← compare_and_set id order.status to
    throw_if (affected == 0) conflict
    announce_transition id to order
    pure (record order { status = to })

  -- `transitionOrder`, on its own or inside the caller's transaction, where `seen` are the order rows
  -- that its query read; another call may have changed them before the compare-and-set.
  abbrev pub transition_order_seeing : List Order → ℕ → OrderStatus → M Order
  transition_order_seeing seen id to = do
    order ← or_throw (find_by order_id id seen) not_found
    apply_transition id to order

  -- `transitionOrder`, undisturbed
  unfoldable pub transition_order : ℕ → OrderStatus → M Order
  transition_order id to w = transition_order_seeing w.db.orders id to w
