-- ===== src/Tests/Histories.antt =====
-- An order from its reservation to its end, through a sequence of calls.
use order_lifecycle_backend.Prelude.{
  ◌≡◌, refl, true, none, some, List, [], ◌∷◌, find_by, count_where, ◌==◌,
}
use order_lifecycle_backend.Entities.{Order, pending, completed}
use order_lifecycle_backend.Orders.StateMachine.{is_terminal_status}
use order_lifecycle_backend.Orders.Rows.{order_id}
use order_lifecycle_backend.Orders.Evolution.{Keeps}
use order_lifecycle_backend.Payment.Gateway.{charge}
use order_lifecycle_backend.World.{World}
use order_lifecycle_backend.Messaging.Outbox.{enqueue}
use order_lifecycle_backend.Messaging.Inbox.{run_once, run_once_seeing, insert_processed}
use order_lifecycle_backend.Messaging.EventOnce.{process_event_once}
use order_lifecycle_backend.Inventory.{reserve, reserve_work, reserve_and_advance, on_shortage}
use order_lifecycle_backend.Products.{reserve_stock, reserve_lines}
use order_lifecycle_backend.Orders.StateMachine.{is_transition_allowed}
use order_lifecycle_backend.Orders.Transition.{
  transition_order, apply_transition, compare_and_set, announce_transition, record_stage_timings,
}
use order_lifecycle_backend.Cache.{del_keys}
use order_lifecycle_backend.Correlation.{
  single, on_order_created, run_with_correlation_id, resolve_correlation_id,
}
use order_lifecycle_backend.Correlation.Continuity.{order_created, handle}
use order_lifecycle_backend.Lifecycle.System.{
  Call, reserving, initiating, authorizing, completing, cancelling, elapsing, run, run-Keeps,
}
use order_lifecycle_backend.Tests.{platform, world, order, line, creation_event, payment_event}

abbrev calls : List Call
calls =
    reserving (some 1) (creation_event (line 5 2 ∷ []))
    ∷ elapsing 60 []
    ∷ initiating 1 7
    ∷ cancelling 1 7
    ∷ authorizing (some 2) payment_event
    ∷ authorizing (some 2) payment_event
    ∷ completing (some 3) payment_event
    ∷ []

run-Keeps_example :
    (o' : Order) × (find_by order_id 1
        (run platform charge calls (world (order pending none))).db.orders
      ≡ some o')
    × Keeps (order pending none) o'
run-Keeps_example =
    run-Keeps platform charge calls (world (order pending none)) 1 (order pending none) refl

terminal : is_terminal_status completed ≡ true
unfolding is_terminal_status
terminal = refl

-- A message for more pens than there are, with a correlation id, in a context that has none.
abbrev short_delivery : World
short_delivery =
    handle platform charge (order_created (some 9) (creation_event (line 5 9 ∷ []))) (single 44)
      (world (order pending none))

-- It is answered with one event.
short_delivery_events : count_where (λ m. m.correlation_id == 44) short_delivery.db.outbox ≡ 1
unfolding handle on_order_created run_with_correlation_id resolve_correlation_id reserve
    process_event_once run_once run_once_seeing reserve_work reserve_and_advance reserve_stock
    on_shortage transition_order apply_transition compare_and_set is_transition_allowed enqueue
    insert_processed del_keys reserve_lines announce_transition record_stage_timings
short_delivery_events = refl
