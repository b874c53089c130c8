-- ===== src/Products/AllOrNothing.antt =====
-- What `reserve_stock` and `restore_stock` promise their callers, the inventory consumer and the
-- order cancellation (src/modules/products/products.service.ts).
use order_lifecycle_backend.Prelude.{◌≡◌, refl, ap, sym, ◌∙◌, Bool, true, false, List, [], IsKeyed}
use order_lifecycle_backend.Entities.{Product, StockLine}
use order_lifecycle_backend.World.{World, Result, ok, err}
use order_lifecycle_backend.Products.{
  product_id, restore_lines, reserve_lines, reserve_stock, set_products,
}
use order_lifecycle_backend.Products.Reservation.{
  covers, succeeded, Ends, reserve_lines-Ends, covered→succeeded, succeeded→covered,
}

Bool-eq : (a b : Bool) → (a ≡ true → b ≡ true) → (b ≡ true → a ≡ true) → a ≡ b
Bool-eq true b f g = sym (f refl)
Bool-eq false true f g = g refl
Bool-eq false false f g = refl

-- A reservation succeeds exactly when every product that its lines name has a row whose stock
-- covers the lines' total demand on it, repeated lines added up, given distinct product ids.
pub reserve_stock-covers :
    (lines : List StockLine) (w : World)
    → IsKeyed product_id w.db.products
    → succeeded (reserve_stock lines w).0 ≡ covers lines lines w.db.products
unfolding reserve_stock restore_lines
reserve_stock-covers lines w u =
    Bool-eq _ _ (succeeded→covered [] lines w.db.products u)
      (covered→succeeded [] lines w.db.products u)

Ends-refused :
    (base : List Product) (all : List StockLine) (r : Result (Unit {0}) × List Product)
    → Ends base all r
    → succeeded r.0 ≡ false
    → r.1 ≡ base
Ends-refused base all (ok _, rows) h s = cc
Ends-refused base all (err _, rows) h s = h

pub reserve_stock-refused :
    (lines : List StockLine) (w : World)
    → IsKeyed product_id w.db.products
    → covers lines lines w.db.products ≡ false
    → (succeeded (reserve_stock lines w).0 ≡ false) × ((reserve_stock lines w).1 ≡ w)
unfolding reserve_stock restore_lines
reserve_stock-refused lines w u c = (failed_, same)
  where
    failed_ : succeeded (reserve_lines [] lines w.db.products).0 ≡ false
    failed_ = reserve_stock-covers lines w u ∙ c

    same : set_products (reserve_lines [] lines w.db.products).1 w ≡ w
    same =
        ap (λ rows. set_products rows w)
          (Ends-refused w.db.products lines (reserve_lines [] lines w.db.products)
            (reserve_lines-Ends [] lines w.db.products w.db.products u refl) failed_)
