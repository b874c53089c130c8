-- ===== src/Tests/Stock.antt =====
-- Reservations of 3 pens and 2 inks, covered, and of 3 inks after 3 pens, short.
use order_lifecycle_backend.Prelude.{ℕ, ◌≡◌, refl, none, some, List, [], ◌∷◌, ◌++◌, find_by}
use order_lifecycle_backend.Entities.{StockLine, OutboxMessage, pending, failed}
use order_lifecycle_backend.World.{ok}
use order_lifecycle_backend.Products.{reserve_stock}
use order_lifecycle_backend.Products.Reservation.{covers, succeeded}
use order_lifecycle_backend.Products.AllOrNothing.{reserve_stock-covers}
use order_lifecycle_backend.Orders.Rows.{order_id, set_status}
use order_lifecycle_backend.Inventory.{reserve_work}
use order_lifecycle_backend.Inventory.Outcomes.{FailedEvent, reserve_work-fails}
use order_lifecycle_backend.Tests.{platform, world, order, line, creation_event}

abbrev enough : List StockLine
enough = line 5 1 ∷ line 6 2 ∷ line 5 2 ∷ []

abbrev too_much : List StockLine
too_much = line 5 3 ∷ line 6 3 ∷ []

reserve_stock-covers_example :
    succeeded (reserve_stock enough (world (order pending none))).0
    ≡ covers enough enough (world (order pending none)).db.products
reserve_stock-covers_example =
    reserve_stock-covers enough (world (order pending none)) (refl, (refl, tt))

reserve_work-fails_example :
    ((p : ℕ) × ((reserve_work platform (creation_event too_much) (world (order pending none))).0
        ≡ ok (some p)))
    × (find_by order_id 1
          (reserve_work platform (creation_event too_much) (world (order pending none))).1.db.orders
        ≡ some (set_status failed 50 (order pending none)))
    × ((reserve_work platform (creation_event too_much) (world (order pending none))).1.db.products
        ≡ (world (order pending none)).db.products)
    × ((m : OutboxMessage) × ((reserve_work platform
            (creation_event too_much)
            (world (order pending none))).1.db.outbox
          ≡ [] ++ m ∷ [])
        × FailedEvent platform (creation_event too_much) (world (order pending none)) m)
reserve_work-fails_example =
    reserve_work-fails platform (creation_event too_much) (world (order pending none))
      (order pending none) (refl, (refl, tt)) refl refl refl
