-- ===== src/Tests/Claims.antt =====
-- A payment confirmation and a cancellation of one reserved order, in either order, and reads of
-- an order.
use order_lifecycle_backend.Prelude.{◌∷◌, [], ◌≡◌, refl, none, some, [], find_by}
use order_lifecycle_backend.Entities.{Order, pending, reserved, paid, cancelled}
use order_lifecycle_backend.World.{World, ok, err, conflict}
use order_lifecycle_backend.Cache.{get, del_keys}
use order_lifecycle_backend.Messaging.Outbox.{enqueue}
use order_lifecycle_backend.Products.{restore_lines, restore_stock}
use order_lifecycle_backend.Orders.Rows.{order_id, set_status}
use order_lifecycle_backend.Orders.Reading.{find_user_order, get_order_for_user}
use order_lifecycle_backend.Orders.StateMachine.{is_terminal_status}
use order_lifecycle_backend.Orders.Transition.{transition_order_seeing}
use order_lifecycle_backend.Orders.Transition.Cas.{Transitioned, transition_order_seeing-cases}
use order_lifecycle_backend.Orders.PaymentClaim.{claim_payment, claim_and_enqueue, confirm_payment}
use order_lifecycle_backend.Orders.Cancellation.{claim_cancel, cancel_read_order}
use order_lifecycle_backend.Orders.Races.{
  cancel_then_confirm, cancel_then_cancel, confirm_then_cancel,
}
use order_lifecycle_backend.Orders.Races.Restoring.{cancel_read_order_leaks}
use order_lifecycle_backend.Tests.{platform, world, order}

abbrev start : World
start = world (order reserved none)

abbrev confirmed : World
confirmed = (confirm_payment platform 1 (order reserved none) start).1

abbrev dropped : World
dropped = (cancel_read_order platform 1 (order reserved none) start).1

confirms :
    confirm_payment platform 1 (order reserved none) start
    ≡ (ok (order reserved (some 50)), confirmed)
unfolding confirm_payment claim_and_enqueue claim_payment enqueue del_keys
confirms = refl

cancels :
    cancel_read_order platform 1 (order reserved none) start ≡ (ok (order cancelled none), dropped)
unfolding cancel_read_order claim_cancel restore_stock restore_lines del_keys
cancels = refl

cancel_then_confirm_example :
    ((confirm_payment platform 1 (order reserved none) dropped).0 ≡ err conflict)
    × ((confirm_payment platform 1 (order reserved none) dropped).1.db ≡ dropped.db)
cancel_then_confirm_example =
    cancel_then_confirm platform 1 (order reserved none) (order reserved none)
      (order cancelled none) start dropped cancels

cancel_then_cancel_example :
    ((cancel_read_order platform 1 (order pending none) dropped).0 ≡ err conflict)
    × ((cancel_read_order platform 1 (order pending none) dropped).1.db ≡ dropped.db)
cancel_then_cancel_example =
    cancel_then_cancel platform 1 (order reserved none) (order pending none) (order cancelled none)
      start dropped cancels

confirm_then_cancel_example :
    ((cancel_read_order platform 1 (order pending none) confirmed).0 ≡ err conflict)
    × ((cancel_read_order platform 1 (order pending none) confirmed).1.db ≡ confirmed.db)
confirm_then_cancel_example =
    confirm_then_cancel platform 1 (order reserved none) (order pending none)
      (order reserved (some 50)) start confirmed (refl, tt) confirms

cancel_read_order_leaks_example :
    ((cancel_read_order platform 1 (order pending none) start).0 ≡ ok (order cancelled none))
    × (find_by order_id 1 (cancel_read_order platform 1 (order pending none) start).1.db.orders
        ≡ some (set_status cancelled 50 (order reserved none)))
    × ((cancel_read_order platform 1 (order pending none) start).1.db.products ≡ start.db.products)
cancel_read_order_leaks_example =
    cancel_read_order_leaks platform 1 (order pending none) start (order reserved none) refl refl
      refl refl

-- The order that was read as RESERVED has been cancelled since.
transition_order_seeing-cases_example :
    Transitioned (order reserved none ∷ []) 1 paid (world (order cancelled none)) (
      transition_order_seeing platform
        (order reserved none ∷ [])
        1
        paid
        (world (order cancelled none)))
transition_order_seeing-cases_example =
    transition_order_seeing-cases platform (order reserved none ∷ []) 1 paid
      (world (order cancelled none))

abbrev shown : Order
shown = record (order reserved none) { items = some [] }

finds : (get_order_for_user platform 1 7 start).0 ≡ ok shown
unfolding get_order_for_user find_user_order get is_terminal_status
finds = refl
