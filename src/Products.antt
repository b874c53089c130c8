-- ===== src/Products.antt =====
-- The product catalogue (src/modules/products/products.service.ts): the listing, the lookup of
-- active products, and the reservation and restoring of stock.
mod Stock
pub mod Reservation
pub mod AllOrNothing
pub mod Replenishment
use order_lifecycle_backend.Prelude.{
  ℕ, ◌+◌, ◌-◌, Bool, true, false, ◌&&◌, ◌||◌, Option, List, [], ◌∷◌, ◌++◌, ◌==◌, leb, if◌then◌else◌,
  text_leb, select, update_where, count_where, at_key,
}
use order_lifecycle_backend.Entities.{Product, StockLine}
use order_lifecycle_backend.World.{World, Result, ok, err, insufficient_stock, M}

abbrev pub product_id : Product → ℕ
product_id p = p.id

-- ORDER BY name ASC
abbrev pub insert_by_name : Product → List Product → List Product
insert_by_name p [] = p ∷ []
insert_by_name p (q ∷ qs) = if text_leb p.name q.name then p ∷ q ∷ qs else q ∷ insert_by_name p qs

abbrev pub by_name : List Product → List Product
by_name [] = []
by_name (p ∷ ps) = insert_by_name p (by_name ps)

-- `list`: what is on sale
unfoldable pub list : M (List Product)
list w = (ok (by_name (select (λ p. p.active) w.db.products)), w)

-- `ids.includes(id)`, the SQL `IN (...)`
abbrev mem_ids : List ℕ → ℕ → Bool
mem_ids [] i = false
mem_ids (j ∷ js) i = i == j || mem_ids js i

-- `findByIds`: only active products are found.
unfoldable pub find_by_ids : List ℕ → M (List Product)
find_by_ids ids w = (ok (select (λ p. mem_ids ids p.id && p.active) w.db.products), w)

abbrev pub has_stock : ℕ → Product → Bool
has_stock quantity p = leb quantity p.stock

abbrev pub any_product : Product → Bool
any_product _ = true

-- UPDATE products SET stock = stock - :qty WHERE id = :id AND stock >= :qty
abbrev pub decrement : StockLine → List Product → List Product
decrement l =
    update_where (at_key product_id l.product_id (has_stock l.quantity))
      (λ p. record p { stock = p.stock - l.quantity })

-- The rows that the UPDATE of `decrement` affects.
abbrev pub affected : StockLine → List Product → ℕ
affected l = count_where (at_key product_id l.product_id (has_stock l.quantity))

-- UPDATE products SET stock = stock + :qty WHERE id = :id
abbrev pub increment : StockLine → List Product → List Product
increment l =
    update_where (at_key product_id l.product_id any_product)
      (λ p. record p { stock = p.stock + l.quantity })

-- The loop of `restoreStock`.
unfoldable pub restore_lines : List StockLine → List Product → List Product
restore_lines [] rows = rows
restore_lines (l ∷ ls) rows = restore_lines ls (increment l rows)

-- The loop of `reserveStock` and its compensation; `applied` are the lines decremented so far.
unfoldable pub reserve_lines :
    List StockLine → List StockLine → List Product → Result (Unit {0}) × List Product
unfolding restore_lines
reserve_lines applied [] rows = (ok tt, rows)
reserve_lines applied (l ∷ ls) rows =
    let rest = reserve_lines (applied ++ l ∷ []) ls (decrement l rows) in
    if affected l rows == 0
    then (err (insufficient_stock l.product_id), restore_lines applied (decrement l rows))
    else rest

abbrev pub set_products : List Product → World → World
set_products rows w = record w { db = record (w.db) { products = rows } }

-- `reserveStock`
unfoldable pub reserve_stock : List StockLine → M (Unit {0})
reserve_stock lines w =
    let (r, rows) = reserve_lines [] lines w.db.products in (r, set_products rows w)

-- `restoreStock`
unfoldable pub restore_stock : List StockLine → M (Unit {0})
restore_stock lines w = (ok tt, set_products (restore_lines lines w.db.products) w)
