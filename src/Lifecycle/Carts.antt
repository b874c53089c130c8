-- ===== src/Lifecycle/Carts.antt =====
-- The cart service (src/modules/cart/cart.service.ts), as actions on the order table.
use order_lifecycle_backend.Prelude.{ℕ, arith, ◌==◌, Option, none, some, List, [], ◌∷◌}
use order_lifecycle_backend.Entities.{Cart}
use order_lifecycle_backend.World.{
  Platform, Failure, not_found, conflict, insufficient_stock, payment_in_flight, inbox_duplicate,
  unique_violation, type_error, modify_db,
}
use order_lifecycle_backend.World.Always.{
  >>=-Always, >>-Always, pure-Always, throw-Always, gets-Always, or_throw-Always, throw_if-Always,
  catch-Always,
}
use order_lifecycle_backend.Orders.Evolving.{Evolving, unchanged, random_id-Evolving}
use order_lifecycle_backend.Products.{find_by_ids}
use order_lifecycle_backend.Cart.{
  OpenCart, find_open_cart, new_cart, insert_cart, use_winner, create_open_cart, found_or_created,
  get_open_cart, upsert, delete_lines, head_product, set_item, remove_item, claim_cart,
  has_no_lines, order_lines, check_out_read, checkout,
}
use order_lifecycle_backend.Lifecycle.Calls.{create_order-Evolving}

insert_cart-Evolving : (c : Cart) → Evolving (insert_cart c)
unfolding insert_cart
insert_cart-Evolving c = unchanged (insert_cart c) (λ w. ground arith)

claim_cart-Evolving : (id : ℕ) → Evolving (claim_cart id)
unfolding claim_cart
claim_cart-Evolving id = unchanged (claim_cart id) (λ w. ground arith)

find_by_ids-Evolving : (ids : List ℕ) → Evolving (find_by_ids ids)
unfolding find_by_ids
find_by_ids-Evolving ids = unchanged (find_by_ids ids) (λ w. ground arith)

module _ (P : Platform) (user_id : ℕ) where
  use_winner-Evolving : (e : Failure) → Evolving (use_winner P user_id e)
  use_winner-Evolving unique_violation =
      >>=-Always _ _ (gets-Always (λ w. find_open_cart user_id w.db))
        λ winner. or_throw-Always winner unique_violation
  use_winner-Evolving not_found = throw-Always not_found
  use_winner-Evolving conflict = throw-Always conflict
  use_winner-Evolving (insufficient_stock p) = throw-Always (insufficient_stock p)
  use_winner-Evolving (payment_in_flight o) = throw-Always (payment_in_flight o)
  use_winner-Evolving inbox_duplicate = throw-Always inbox_duplicate
  use_winner-Evolving type_error = throw-Always type_error

  create_open_cart-Evolving : Evolving (create_open_cart P user_id)
  unfolding create_open_cart
  create_open_cart-Evolving =
      catch-Always _ _
        (>>=-Always _ _ (random_id-Evolving P) λ id.
          >>-Always _ _ (insert_cart-Evolving (new_cart id user_id))
            (pure-Always (record { cart = new_cart id user_id; items = [] })))
        use_winner-Evolving

  found_or_created-Evolving :
      (found : Option OpenCart) → Evolving (found_or_created P user_id found)
  found_or_created-Evolving (some c) = pure-Always c
  found_or_created-Evolving none = create_open_cart-Evolving

  pub get_open_cart-Evolving : Evolving (get_open_cart P user_id)
  unfolding get_open_cart
  get_open_cart-Evolving =
      >>=-Always _ _ (gets-Always (λ w. find_open_cart user_id w.db)) found_or_created-Evolving

  pub set_item-Evolving :
      (product_id quantity : ℕ) → Evolving (set_item P user_id product_id quantity)
  unfolding set_item
  set_item-Evolving product_id quantity = >>=-Always _ _ get_open_cart-Evolving λ open_.
      >>=-Always _ _ (find_by_ids-Evolving (product_id ∷ [])) λ products.
        >>-Always _ _ (or_throw-Always (head_product products) not_found) (
          >>-Always _ _
            (unchanged
              (modify_db (λ db. record db {
                cart_items =
                    upsert
                      (record {
                        cart_id = open_.cart.id;
                        product_id = product_id;
                        quantity = quantity;
                      })
                      db.cart_items;
              }))
              (λ w. ground arith))
            get_open_cart-Evolving)

  pub remove_item-Evolving : (product_id : ℕ) → Evolving (remove_item P user_id product_id)
  unfolding remove_item
  remove_item-Evolving product_id = >>=-Always _ _ get_open_cart-Evolving λ open_.
      >>-Always _ _
        (unchanged
          (modify_db
            (λ db. record db { cart_items = delete_lines open_.cart.id product_id db.cart_items }))
          (λ w. ground arith))
        get_open_cart-Evolving

  pub check_out_read-Evolving : (open_ : OpenCart) → Evolving (check_out_read P user_id open_)
  unfolding check_out_read
  check_out_read-Evolving open_ =
      >>-Always _ _ (throw_if-Always (has_no_lines open_.items) conflict) (
        >>=-Always _ _ (claim_cart-Evolving open_.cart.id) λ affected.
          >>-Always _ _ (throw_if-Always (affected == 0) conflict) (
            >>=-Always _ _ (or_throw-Always (order_lines open_.items) type_error)
              λ lines. create_order-Evolving P user_id lines))

  pub checkout-Evolving : Evolving (checkout P user_id)
  unfolding checkout
  checkout-Evolving = >>=-Always _ _ get_open_cart-Evolving check_out_read-Evolving
