-- ===== src/Tests/Fulfilled.antt =====
-- An order that is completed, at concrete inputs.
use order_lifecycle_backend.Prelude.{◌≡◌, refl, none, some, List, [], ◌∷◌, find_by}
use order_lifecycle_backend.Entities.{StockLine, pending, reserved, paid, completed}
use order_lifecycle_backend.World.{World}
use order_lifecycle_backend.Products.{reserve_stock}
use order_lifecycle_backend.Orders.Rows.{order_id, set_status, set_payment_initiated}
use order_lifecycle_backend.Payment.Gateway.{charge}
use order_lifecycle_backend.Lifecycle.Fulfilment.{completed_world}
use order_lifecycle_backend.Lifecycle.Fulfilment.Reached.{completed_world-reached}
use order_lifecycle_backend.Tests.{platform, world, order, line}

abbrev lines : List StockLine
lines = line 5 2 ∷ line 6 1 ∷ []

abbrev finished : World
finished =
    completed_world platform charge (order pending none) lines (11, 12, 13) (60, 61, 62)
      (world (order pending none))

completed_world-reached_example :
    (find_by order_id 1 finished.db.orders
      ≡ some (
          set_status completed 62 (
            set_status paid 61
              (set_payment_initiated 60 (set_status reserved 50 (order pending none))))))
    × (finished.charges ≡ 1 ∷ [])
    × (finished.db.products ≡ (reserve_stock lines (world (order pending none))).1.db.products)
unfolding charge
completed_world-reached_example =
    completed_world-reached platform charge (order pending none) lines (world (order pending none))
      11 12 13 60 61 62 (refl, (refl, tt)) refl refl refl refl refl refl refl refl refl
