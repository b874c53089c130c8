-- ===== src/Metrics.antt =====
-- The recording functions of src/modules/metrics/metrics.collectors.ts that the services call.
-- A counter's increments and a histogram's observations are kept as the list of samples, newest
-- first; durations of calls (`timeDb`, `startConsumerTimer`) are not modelled.
pub mod Persistence
pub mod History
pub mod Gauges
pub mod Requests
use order_lifecycle_backend.Prelude.{ℕ, ◌-◌, String, ◌∷◌, ◌==◌, ltb, if◌then◌else◌}
use order_lifecycle_backend.Entities.{Consumer}
use order_lifecycle_backend.World.{
  M, record_metric, Metric, TerminalState, OrderStage, ConsumerOutcome, PaymentOutcome, KeyClass,
  CacheResult, ok,
}

abbrev pub record_consumer_outcome : Consumer → ConsumerOutcome → M (Unit {0})
record_consumer_outcome consumer outcome = record_metric (Metric.consumer_message consumer outcome)

abbrev pub record_terminal_state : TerminalState → M (Unit {0})
record_terminal_state state = record_metric (Metric.order_terminal state)

abbrev pub record_order_created : M (Unit {0})
record_order_created = record_metric Metric.order_created

abbrev pub record_order_failure : String → M (Unit {0})
record_order_failure reason = record_metric (Metric.order_failure reason)

abbrev pub record_payment_outcome : PaymentOutcome → M (Unit {0})
record_payment_outcome outcome = record_metric (Metric.payment_authorization outcome)

abbrev pub record_cache_request : KeyClass → CacheResult → M (Unit {0})
record_cache_request key_class result = record_metric (Metric.cache_request key_class result)

-- A batch of no rows is not recorded.
abbrev pub record_outbox_relayed : ℕ → M (Unit {0})
record_outbox_relayed count w = (
  ok tt,
  if count == 0 then w else record w { metrics = Metric.outbox_relayed count ∷ w.metrics },
)

-- `recordOrderStage` of the time since `start`; a negative duration is ignored.
abbrev pub record_order_stage : OrderStage → ℕ → M (Unit {0})
record_order_stage stage start w = (
  ok tt,
  if ltb w.now start
      then w
      else record w { metrics = Metric.order_stage stage (w.now - start) ∷ w.metrics },
)
