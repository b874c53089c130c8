-- ===== src/Products/Replenishment.antt =====
-- The scheduled top-up of low stocks (src/modules/products/stock-replenishment.service.ts).
pub mod Raising
use order_lifecycle_backend.Prelude.{
  ℕ, suc, ◌+◌, ◌-◌, ◌*◌, ◌/◌, Bool, true, ◌&&◌, List, [], ◌∷◌, leb, ltb, if◌then◌else◌, select,
  update_where, at_key,
}
use order_lifecycle_backend.Entities.{Product}
use order_lifecycle_backend.Products.{product_id, any_product}

abbrev pub low_stock_threshold : ℕ
low_stock_threshold = 10

abbrev pub guaranteed_restock_at : ℕ
guaranteed_restock_at = 5

abbrev pub restock_min : ℕ
restock_min = 50

abbrev pub restock_max : ℕ
restock_max = 100

-- A value of `Math.random()`: part / whole, below one.
pub record Fraction : Type 0 where
  pub part : ℕ
  pub whole : ℕ

-- `shouldRestock`, with the random value that it would draw: it draws none for a stock that is
-- topped up for certain.
unfoldable pub should_restock : Fraction → ℕ → Bool
should_restock random stock =
    if leb stock guaranteed_restock_at
    then true
    else ltb (random.part * 6) ((11 - stock) * random.whole)

abbrev draws_of_decision : ℕ → ℕ
draws_of_decision stock = if leb stock guaranteed_restock_at then 0 else 1

-- `randomRestockAmount`
unfoldable pub random_restock_amount : Fraction → ℕ
random_restock_amount random =
    random.part * (restock_max - restock_min + 1) / random.whole + restock_min

-- UPDATE products SET stock = stock + :amount WHERE id = :id
abbrev pub top_up : ℕ → ℕ → List Product → List Product
top_up id amount =
    update_where (at_key product_id id any_product) (λ p. record p { stock = p.stock + amount })

-- The query of `replenishLowStock`.
unfoldable pub low_stock : List Product → List Product
low_stock = select (λ p. leb p.stock low_stock_threshold && p.active)

-- The loop of `replenishLowStock` over the products that it has read: the products as stored, and
-- the recorded samples of product and amount; `drawn` counts the random values drawn so far.
unfoldable pub replenish :
    (ℕ → Fraction) → ℕ → List Product → List Product → List Product × List (ℕ × ℕ)
replenish random drawn [] rows = (rows, [])
replenish random drawn (p ∷ ps) rows =
    let decided = drawn + draws_of_decision p.stock in
    let amount = random_restock_amount (random decided) in
    let (filled, samples) = replenish random (suc decided) ps (top_up p.id amount rows) in
    let skipped = replenish random decided ps rows in
    if should_restock (random drawn) p.stock then (filled, (p.id, amount) ∷ samples) else skipped

-- `replenishLowStock`
unfoldable pub replenish_low_stock : (ℕ → Fraction) → ℕ → List Product → List Product × List (ℕ × ℕ)
replenish_low_stock random drawn rows = replenish random drawn (low_stock rows) rows
