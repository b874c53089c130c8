-- ===== src/Tests/Shop.antt =====
-- The catalogue's boot and a top-up at concrete inputs.
use order_lifecycle_backend.Prelude.{ℕ, ◌+◌, ◌≡◌, refl, true, none, [], ◌∷◌, arith, find_by}
use order_lifecycle_backend.Entities.{Product}
use order_lifecycle_backend.Products.{product_id}
use order_lifecycle_backend.Products.Replenishment.{Fraction, replenish_low_stock}
use order_lifecycle_backend.Products.Replenishment.Raising.{ToppedUp, replenish_low_stock-ToppedUp}
use order_lifecycle_backend.Seeds.{Shop, boot}
use order_lifecycle_backend.Seeds.Boot.{boot_twice}
use order_lifecycle_backend.Tests.{pen, ink}

abbrev widget : Product
widget = record { id = 9; name = "Widget"; sku = "WIDGET-001"; stock = 3; active = true }

abbrev shop : Shop
shop = record {
  products = pen 4 ∷ widget ∷ [];
  carts = record { id = 1; user_id = 7; checked_out_at = none } ∷ [];
  cart_items = record { cart_id = 1; product_id = 9; quantity = 2 } ∷ [];
  drawn = 0;
}

abbrev ids : ℕ → ℕ
ids n = n + 100

boot_twice_example : boot ids (boot ids shop) ≡ boot ids shop
boot_twice_example = boot_twice ids ids shop

-- One half, each time.
abbrev halves : ℕ → Fraction
halves n = record { part = 1; whole = 2 }

replenish_low_stock-ToppedUp_example :
    ToppedUp (pen 4) (find_by product_id 5 (replenish_low_stock halves 0 (pen 4 ∷ ink 20 ∷ [])).0)
replenish_low_stock-ToppedUp_example =
    replenish_low_stock-ToppedUp halves 0 (pen 4 ∷ ink 20 ∷ []) 5 (pen 4) (λ n. omega arith)
      (refl, (refl, tt)) refl
