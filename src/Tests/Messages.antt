-- ===== src/Tests/Messages.antt =====
-- Deliveries, retries, drains of the outbox, wakeups of the relay, and cache reads.
use order_lifecycle_backend.Prelude.{
  ℕ, zero, suc, ◌<◌, ◌≡◌, ◌⊎◌, inl, refl, Bool, true, false, none, some, List, [], ◌∷◌, arith,
  length,
}
use order_lifecycle_backend.Entities.{OutboxMessage, payment, pending}
use order_lifecycle_backend.World.{World, M, ok, err, conflict}
use order_lifecycle_backend.Cache.Counters.{IsCounted}
use order_lifecycle_backend.Cache.{get_stats}
use order_lifecycle_backend.Messaging.Inbox.{
  processed_message, insert_processed, run_once_seeing, run_once,
}
use order_lifecycle_backend.Messaging.Inbox.AtMostOnce.{run_once_redelivered, run_once_lost_race}
use order_lifecycle_backend.Messaging.Retry.Backoff.{delays, doubling, delays-on_failure}
use order_lifecycle_backend.Messaging.Relay.{
  Broker, relay_batch_size, claim_batch, drain_once, drain_loop, nudge,
}
use order_lifecycle_backend.Messaging.Relay.Draining.{IsBacked, drain_once-IsBacked}
use order_lifecycle_backend.Messaging.Relay.Batch.{backlog}
use order_lifecycle_backend.Messaging.Relay.Looping.{drain_loop_livelock, drain_loop-ends}
use order_lifecycle_backend.Messaging.Relay.Wakeups.{
  RelayEvent, nudged, fired, watch, idle, nudge_kept,
}
use order_lifecycle_backend.Tests.{world, order, outbox_row}

abbrev start : World
start = world (order pending none)

-- A work that charges.
abbrev work : M ℕ
work w = (ok 3, record w { charges = 1 ∷ w.charges })

abbrev failing : M ℕ
failing w = (err conflict, record w { charges = 1 ∷ w.charges })

abbrev recorded : World
recorded = record start { db = record (start.db) { inbox = processed_message 9 payment ∷ [] } }

run_once_redelivered_example : run_once 9 payment work recorded ≡ (ok none, recorded)
run_once_redelivered_example = run_once_redelivered 9 payment work recorded refl

run_once_lost_race_example :
    run_once_seeing [] 9 payment work recorded ≡ (ok none, record recorded { charges = 1 ∷ [] })
run_once_lost_race_example =
    run_once_lost_race 9 payment work [] recorded (record recorded { charges = 1 ∷ [] }) 3 refl refl
      refl

runs : run_once 9 payment work start ≡ (ok (some 3), record recorded { charges = 1 ∷ [] })
unfolding run_once run_once_seeing insert_processed
runs = refl

delays-on_failure_example : delays 4 payment 3 1000 none ≡ some (doubling 1000 0 3)
delays-on_failure_example = delays-on_failure payment 3 1000

abbrev rows : ℕ → List OutboxMessage
rows zero = []
rows (suc n) = outbox_row n ∷ rows n

abbrev unlocked : ℕ → Bool
unlocked i = false

abbrev accepting : Broker
accepting log m = true

abbrev refusing : Broker
refusing log m = false

drain_once-IsBacked_example :
    IsBacked
      (drain_once accepting unlocked 60 (rows 2) []).log
      (drain_once accepting unlocked 60 (rows 2) []).rows
drain_once-IsBacked_example =
    drain_once-IsBacked accepting unlocked 60 (rows 2) [] (inl refl, (inl refl, tt))

full : length (claim_batch unlocked (rows 50)) ≡ relay_batch_size
unfolding claim_batch
full = refl

drain_loop_livelock_example : drain_loop 1000 refusing unlocked 60 (rows 50) [] ≡ none
drain_loop_livelock_example =
    drain_loop_livelock 1000 refusing unlocked 60 (rows 50) [] (λ m. refl) full

drain_loop-ends_example :
    (rows' log' : List OutboxMessage) × (drain_loop 3 accepting unlocked 60 (rows 2) []
      ≡ some (rows', log'))
    × (backlog unlocked rows' ≡ 0)
drain_loop-ends_example =
    drain_loop-ends 3 accepting unlocked 60 (rows 2) [] (λ log m. refl) (omega arith)

abbrev events : List RelayEvent
events = nudged ∷ fired ∷ nudged ∷ []

owed : (watch events idle).1 ≡ true
unfolding nudge
owed = refl

nudge_kept_example :
    (((watch events idle).0.draining ≡ false) × (0 < (watch events idle).0.scheduled))
    ⊎ (((watch events idle).0.draining ≡ true) × ((watch events idle).0.drain_again ≡ true))
nudge_kept_example = nudge_kept events owed

start-IsCounted : IsCounted start
unfolding get_stats
start-IsCounted = record {
  order_hits = refl;
  order_misses = refl;
  orders_hits = refl;
  orders_misses = refl;
  overall_hits = refl;
  overall_misses = refl;
}
