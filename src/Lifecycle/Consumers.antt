-- ===== src/Lifecycle/Consumers.antt =====
-- The consumers' handlers (src/modules/inventory, payment, completion, email), as actions on the
-- order table.
use order_lifecycle_backend.Prelude.{ℕ, arith, Bool, true, false, Option, none, some, find_by}
use order_lifecycle_backend.Entities.{
  OrderCreatedEvent, OrderEvent, OrderStatus, reserved, inventory, payment, completion, email,
  RoutingKey, payment_processed, order_event, order_failed, PaymentAuthorization,
}
use order_lifecycle_backend.World.{
  Platform, M, Failure, not_found, conflict, insufficient_stock, payment_in_flight, inbox_duplicate,
  unique_violation, type_error, pure, ◌>>◌, ConsumerOutcome, Metric, deduplicated,
}
use order_lifecycle_backend.Metrics.{record_payment_outcome}
use order_lifecycle_backend.Messaging.EventOnce.{EventOutcome, processed, skipped, nack}
use order_lifecycle_backend.World.Always.{
  >>=-Always, >>-Always, pure-Always, throw-Always, gets-Always, catch-Always,
}
use order_lifecycle_backend.Orders.Evolving.{
  Evolving, unchanged, record_metric-Evolving, reserve_stock-Evolving, enqueue-Evolving,
}
use order_lifecycle_backend.Lifecycle.Services.{transition_order-Evolving}
use order_lifecycle_backend.Inventory.{
  reserve_and_advance, on_shortage, reserve_work, count_shortage, reserve,
}
use order_lifecycle_backend.Completion.{complete_work, complete}
use order_lifecycle_backend.Email.{TerminalEvent, line_of, notify}
use order_lifecycle_backend.Payment.Gateway.{
  Provider, PaymentResult, authorize, claim, proceed, charge_and_record, record_decision,
  after_lost_claim, await_or_take_over, reuse_or_await, ledger_key, to_result,
}
use order_lifecycle_backend.Payment.Consumer.{
  settled, nacked, advance_paid, announce, target_status, count_decline, finish,
  authorize_and_advance, reason_or_default,
}
use order_lifecycle_backend.Lifecycle.Deliveries.{run_once-Evolving, process_event_once-Evolving}

module _ (provider : Provider) (event : OrderEvent) where
  claim-Evolving : (order_id : ℕ) → Evolving (claim order_id)
  unfolding claim
  claim-Evolving order_id = unchanged (claim order_id) (λ w. ground arith)

  charge-Evolving : Evolving (charge_and_record provider event)
  unfolding charge_and_record record_decision
  charge-Evolving = unchanged (charge_and_record provider event) (λ w. ground arith)

  await-Evolving : Evolving (await_or_take_over provider event)
  unfolding await_or_take_over charge_and_record record_decision
  await-Evolving = unchanged (await_or_take_over provider event) (λ w. ground arith)

  reuse-Evolving :
      (row : Option PaymentAuthorization) → Evolving (reuse_or_await provider event row)
  reuse-Evolving none = await-Evolving
  reuse-Evolving (some a) = decided a.authorized
    where
      decided :
          (d : Option Bool)
          → Evolving (elim d as (λ _. M PaymentResult) [
            | none ↦ await_or_take_over provider event
            | some decision ↦
                record_payment_outcome deduplicated >> pure (to_result decision a.decline_reason)
          ])
      decided none = await-Evolving
      decided (some d) =
          >>-Always _ _ (record_metric-Evolving (Metric.payment_authorization deduplicated))
            (pure-Always (to_result d a.decline_reason))

  proceed-Evolving : (won : Bool) → Evolving (proceed provider event won)
  unfolding after_lost_claim
  proceed-Evolving true = charge-Evolving
  proceed-Evolving false =
      >>=-Always _ _ (gets-Always (λ w. find_by ledger_key event.order_id w.db.authorizations))
        reuse-Evolving

  pub authorize-Evolving : Evolving (authorize provider event)
  unfolding authorize
  authorize-Evolving = >>=-Always _ _ (claim-Evolving event.order_id) proceed-Evolving

module _ (P : Platform) where
  announce-Evolving :
      (event : OrderEvent) (result : PaymentResult) (now : ℕ) (b : Bool)
      → Evolving (announce P event result now b)
  announce-Evolving event result now true = enqueue-Evolving P payment_processed _
  announce-Evolving event result now false = enqueue-Evolving P RoutingKey.failed _

  pub advance_paid-Evolving :
      (event : OrderEvent) (result : PaymentResult) → Evolving (advance_paid P event result)
  unfolding advance_paid
  advance_paid-Evolving event result =
      >>-Always _ _ (transition_order-Evolving P event.order_id (target_status result.authorized)) (
        >>=-Always _ _ (gets-Always (λ w. w.now))
          λ now. announce-Evolving event result now result.authorized)

  count_decline-Evolving : (result : PaymentResult) (b : Bool) → Evolving (count_decline P result b)
  count_decline-Evolving result true = pure-Always tt
  count_decline-Evolving result false =
      record_metric-Evolving (Metric.order_failure (reason_or_default result.decline_reason))

  pub finish-Evolving :
      (result : PaymentResult) (ran : Option (Unit {0})) → Evolving (finish P result ran)
  finish-Evolving result none =
      >>-Always _ _
        (record_metric-Evolving (Metric.consumer_message payment ConsumerOutcome.skipped))
        (pure-Always settled)
  finish-Evolving result (some u) =
      >>-Always _ _
        (record_metric-Evolving (Metric.consumer_message payment ConsumerOutcome.processed))
        (>>-Always _ _ (count_decline-Evolving result result.authorized) (pure-Always settled))

  pub authorize_and_advance-Evolving :
      (provider : Provider) (message : Option ℕ) (event : OrderEvent)
      → Evolving (authorize_and_advance P provider message event)
  unfolding authorize_and_advance
  authorize_and_advance-Evolving provider none event =
      >>-Always _ _
        (record_metric-Evolving (Metric.consumer_message payment ConsumerOutcome.failed))
        (pure-Always nacked)
  authorize_and_advance-Evolving provider (some message_id) event =
      >>=-Always _ _ (authorize-Evolving provider event) λ result.
        >>=-Always _ _ (run_once-Evolving message_id payment _ (advance_paid-Evolving event result))
          (finish-Evolving result)

  reserve_and_advance-Evolving :
      (event : OrderCreatedEvent) → Evolving (reserve_and_advance P event)
  unfolding reserve_and_advance
  reserve_and_advance-Evolving event =
      >>-Always _ _ (reserve_stock-Evolving event.items)
        (>>-Always _ _ (transition_order-Evolving P event.order_id reserved) (pure-Always none))

  on_shortage-Evolving :
      (event : OrderCreatedEvent) (e : Failure) → Evolving (on_shortage P event e)
  unfolding on_shortage
  on_shortage-Evolving event (insufficient_stock p) =
      >>-Always _ _ (transition_order-Evolving P event.order_id OrderStatus.failed) (
        >>=-Always _ _ (gets-Always (λ w. w.now)) λ now.
          >>-Always _ _
            (enqueue-Evolving P RoutingKey.failed (
              order_failed (record {
                order_id = event.order_id;
                user_id = event.user_id;
                reason = "insufficient_stock";
                occurred_at = now;
              })))
            (pure-Always (some p)))
  on_shortage-Evolving event inbox_duplicate = throw-Always inbox_duplicate
  on_shortage-Evolving event not_found = throw-Always not_found
  on_shortage-Evolving event conflict = throw-Always conflict
  on_shortage-Evolving event (payment_in_flight p) = throw-Always (payment_in_flight p)
  on_shortage-Evolving event unique_violation = throw-Always unique_violation
  on_shortage-Evolving event type_error = throw-Always type_error

  pub reserve_work-Evolving : (event : OrderCreatedEvent) → Evolving (reserve_work P event)
  unfolding reserve_work
  reserve_work-Evolving event =
      catch-Always _ _ (reserve_and_advance-Evolving event) (on_shortage-Evolving event)

  count_shortage-Evolving : (o : EventOutcome (Option ℕ)) → Evolving (count_shortage P o)
  count_shortage-Evolving (processed (some p)) =
      >>-Always _ _ (record_metric-Evolving (Metric.order_failure "insufficient_stock"))
        (pure-Always (processed (some p)))
  count_shortage-Evolving (processed none) = pure-Always (processed none)
  count_shortage-Evolving skipped = pure-Always skipped
  count_shortage-Evolving nack = pure-Always nack

  pub reserve-Evolving :
      (message : Option ℕ) (event : OrderCreatedEvent) → Evolving (reserve P message event)
  unfolding reserve
  reserve-Evolving message event =
      >>=-Always _ _ (process_event_once-Evolving message inventory _ (reserve_work-Evolving event))
        count_shortage-Evolving

  pub complete_work-Evolving : (event : OrderEvent) → Evolving (complete_work P event)
  unfolding complete_work
  complete_work-Evolving event =
      >>-Always _ _ (transition_order-Evolving P event.order_id OrderStatus.completed) (
        >>=-Always _ _ (gets-Always (λ w. w.now)) λ now. enqueue-Evolving P RoutingKey.completed (
          order_event
            (record { order_id = event.order_id; user_id = event.user_id; occurred_at = now })))

  pub complete-Evolving :
      (message : Option ℕ) (event : OrderEvent) → Evolving (complete P message event)
  unfolding complete
  complete-Evolving message event =
      process_event_once-Evolving message completion _ (complete_work-Evolving event)

pub notify-Evolving : (message : Option ℕ) (event : TerminalEvent) → Evolving (notify message event)
unfolding notify
notify-Evolving message event =
    process_event_once-Evolving message email _ (pure-Always (line_of event))
