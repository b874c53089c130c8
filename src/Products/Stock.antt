-- ===== src/Products/Stock.antt =====
-- How one stock UPDATE and a restoring loop act on the product table.
use order_lifecycle_backend.Prelude.{
  ◌≡◌, ◌≢◌, refl, ap, ◌∙◌, inl, inr, none, List, [], ◌∷◌, ◌++◌, arith, ◌==◌, Bool-cases, find_by,
  IsKeyed, count-absent, update-IsKeyed,
}
use order_lifecycle_backend.Entities.{Product, StockLine}
use order_lifecycle_backend.Products.{
  product_id, has_stock, any_product, decrement, increment, affected, restore_lines,
}

pub increment_comm :
    (k l : StockLine) (rows : List Product)
    → increment k (increment l rows) ≡ increment l (increment k rows)
increment_comm k l [] = refl
increment_comm k l (p ∷ rows) = ground (arith, increment_comm k l rows)

pub increment-restore :
    (l : StockLine) (ls : List StockLine) (rows : List Product)
    → restore_lines ls (increment l rows) ≡ increment l (restore_lines ls rows)
unfolding restore_lines
increment-restore l [] rows = refl
increment-restore l (k ∷ ls) rows =
    ap (restore_lines ls) (increment_comm k l rows) ∙ increment-restore l ls (increment k rows)

pub restore-append :
    (ks ls : List StockLine) (rows : List Product)
    → restore_lines (ks ++ ls) rows ≡ restore_lines ls (restore_lines ks rows)
unfolding restore_lines
restore-append [] ls rows = refl
restore-append (k ∷ ks) ls rows = restore-append ks ls (increment k rows)

absent_untouched :
    (l : StockLine) (rows : List Product)
    → find_by product_id l.product_id rows ≡ none
    → increment l (decrement l rows) ≡ rows
absent_untouched l [] h = refl
absent_untouched l (p ∷ rows) h = ground (arith, absent_untouched l rows)

-- Where the guarded UPDATE hit a row, adding the quantity back restores the whole table.
pub increment-decrement :
    (l : StockLine) (rows : List Product)
    → IsKeyed product_id rows
    → affected l rows ≢ 0
    → increment l (decrement l rows) ≡ rows
increment-decrement l [] u h = refl
increment-decrement l (p ∷ rows) u h = elim (Bool-cases (p.id == l.product_id)) [
  | inl hit ↦ ground (
    arith,
    absent_untouched l rows,
    count-absent product_id l.product_id (has_stock l.quantity) rows,
  )
  | inr miss ↦ ground (arith, increment-decrement l rows u.1)
]

pub decrement-IsKeyed :
    (l : StockLine) (rows : List Product)
    → IsKeyed product_id rows
    → IsKeyed product_id (decrement l rows)
decrement-IsKeyed l rows u =
    update-IsKeyed product_id l.product_id (has_stock l.quantity) _ (λ p. refl) rows u

pub increment-IsKeyed :
    (l : StockLine) (rows : List Product)
    → IsKeyed product_id rows
    → IsKeyed product_id (increment l rows)
increment-IsKeyed l rows u = update-IsKeyed product_id l.product_id any_product _ (λ p. refl) rows u

pub restore-IsKeyed :
    (ls : List StockLine) (rows : List Product)
    → IsKeyed product_id rows
    → IsKeyed product_id (restore_lines ls rows)
unfolding restore_lines
restore-IsKeyed [] rows u = u
restore-IsKeyed (l ∷ ls) rows u = restore-IsKeyed ls (increment l rows) (increment-IsKeyed l rows u)
