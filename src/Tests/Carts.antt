-- ===== src/Tests/Carts.antt =====
-- Two checkouts of one cart, two creations of an open cart, and a line set twice.
use order_lifecycle_backend.Prelude.{ℕ, ◌≡◌, refl, false, none, some, [], ◌∷◌}
use order_lifecycle_backend.Entities.{Cart, CartItem, Order, pending}
use order_lifecycle_backend.World.{World, ok, err, conflict}
use order_lifecycle_backend.Cache.{del_keys}
use order_lifecycle_backend.Messaging.Outbox.{enqueue}
use order_lifecycle_backend.Orders.Creation.{make_items, insert_order, create_order}
use order_lifecycle_backend.Cart.{OpenCart, view, claim_cart, check_out_read, create_open_cart}
use order_lifecycle_backend.Cart.Lines.{open_row, create_open_cart-answers}
use order_lifecycle_backend.Cart.Checkout.{check_out_twice}
use order_lifecycle_backend.Tests.{platform, world, order}

abbrev item : ℕ → CartItem
item quantity = record { cart_id = 2; product_id = 5; quantity = quantity }

abbrev cart : Cart
cart = record { id = 2; user_id = 7; checked_out_at = none }

abbrev start : World
start = record (world (order pending none)) {
  db = record ((world (order pending none)).db) { carts = cart ∷ []; cart_items = item 3 ∷ [] };
}

abbrev filled : OpenCart
filled = view start.db cart

abbrev checked_out : World
checked_out = (check_out_read platform 7 filled start).1

abbrev placed : Order
placed = record {
  id = 100;
  user_id = 7;
  status = pending;
  payment_initiated_at = none;
  payment_text = false;
  items = some (
      record { id = 101; order_id = 100; product_id = 5; product_name = "pen"; quantity = 3 } ∷ []);
  created_at = 50;
  updated_at = 50;
}

checks_out : check_out_read platform 7 filled start ≡ (ok placed, checked_out)
unfolding check_out_read claim_cart create_order insert_order make_items enqueue del_keys
checks_out = refl

check_out_twice_example :
    ((check_out_read platform 7 filled checked_out).0 ≡ err conflict)
    × ((check_out_read platform 7 filled checked_out).1.db ≡ checked_out.db)
check_out_twice_example =
    check_out_twice platform 7 7 filled filled placed start checked_out checks_out refl

create_open_cart-answers_example :
    (v : OpenCart) × ((create_open_cart platform 7 start).0 ≡ ok v)
    × (open_row 7 (create_open_cart platform 7 start).1 ≡ some v.cart)
create_open_cart-answers_example = create_open_cart-answers platform 7 start
