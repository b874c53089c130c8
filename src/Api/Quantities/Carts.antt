-- ===== src/Api/Quantities/Carts.antt =====
-- That the requests of a cart keep the stored quantities positive, and the theorem for all
-- requests.
use order_lifecycle_backend.Prelude.{
  ℕ, zero, suc, ◌≡◌, refl, true, not, Option, none, some, List, [], ◌∷◌, map, arith, leb, ◌==◌, inl,
  inr, Option-cases, every, find, select,
}
use order_lifecycle_backend.Entities.{Order, CartItem}
use order_lifecycle_backend.World.{
  Platform, World, M, Result, ok, err, not_found, conflict, type_error, throw, modify_db, or_throw,
  ◌>>=◌,
}
use order_lifecycle_backend.World.Always.{
  Always, >>=-Always, >>-Always, or_throw-Always, throw_if-Always, throw-Always,
}
use order_lifecycle_backend.Orders.Reading.{get_order_for_user, list_orders_for_user}
use order_lifecycle_backend.Orders.PaymentClaim.{initiate_payment}
use order_lifecycle_backend.Orders.Cancellation.{cancel_order}
use order_lifecycle_backend.Auth.{AuthResult}
use order_lifecycle_backend.Auth.Http.{JwtPayload, authenticate}
use order_lifecycle_backend.Products.{find_by_ids, list}
use order_lifecycle_backend.Orders.Creation.{OrderLine, stock_line, create_order}
use order_lifecycle_backend.Cart.{
  OpenCart, is_open_of, in_cart, view, insert_cart, create_open_cart, get_open_cart, upsert,
  is_line, delete_lines, head_product, set_item, remove_item, claim_cart, has_no_lines, order_lines,
  check_out_read, checkout,
}
use order_lifecycle_backend.Api.{
  uuid, malformed, RawQuantity, natural, negative, fraction, other, RawCartItem, valid_quantity,
  validate_cart_item, Request, list_orders, get_cart, check_out, list_products, get_order, pay,
  cancel, remove_cart_item, set_cart_item, respond, created_status, products, to_product_response,
  ok_status, Body, orders, order, cart, to_order_response, to_cart_response, dispatch, through,
  handle, serve,
}
use order_lifecycle_backend.Api.Quantities.{
  IsPositive, positively, kept, is_positive_item, is_positive_cart_line, is_positive_line,
  upsert-positive, select-positive, join-positive, order_lines-positive, create_order-positive,
}
use order_lifecycle_backend.Api.Quantities.Kept.{
  get_order_for_user-positive, list_orders_for_user-positive, initiate_payment-positive,
  cancel_order-positive,
}

module _ (P : Platform) (user_id : ℕ) where
  -- The open cart as it is found or created changes none of the tables, and has positive lines.
  opened :
      (w : World)
      → ((get_open_cart P user_id w).1.db.cart_items ≡ w.db.cart_items)
        × ((get_open_cart P user_id w).1.db.order_items ≡ w.db.order_items)
        × ((get_open_cart P user_id w).1.db.outbox ≡ w.db.outbox)
  unfolding get_open_cart create_open_cart insert_cart
  opened w = elim (Option-cases (find (is_open_of user_id) w.db.carts)) [
    | inl none_open ↦ ground arith
    | inr (c, found) ↦ ground arith
  ]

  get_open_cart-positive : Always positively (get_open_cart P user_id)
  get_open_cart-positive = kept (get_open_cart P user_id) opened

  opened_lines :
      (w : World) (c : OpenCart)
      → IsPositive w.db
      → (get_open_cart P user_id w).0 ≡ ok c
      → every is_positive_cart_line c.items ≡ true
  unfolding get_open_cart create_open_cart insert_cart
  opened_lines w c p e = elim (Option-cases (find (is_open_of user_id) w.db.carts)) [
    | inl none_open ↦ ground arith
    | inr (row, found) ↦ ground (
      arith,
      join-positive w.db.products (select (in_cart row.id) w.db.cart_items)
          (select-positive (in_cart row.id) w.db.cart_items p.cart_lines),
    )
  ]

  set_line-positive :
      (i : CartItem)
      → is_positive_item i ≡ true
      → Always positively (modify_db (λ db. record db { cart_items = upsert i db.cart_items }))
  set_line-positive i h = record {
    always = λ w p. record {
      cart_lines = upsert-positive i w.db.cart_items h p.cart_lines;
      order_lines = p.order_lines;
      events = p.events;
    };
  }

  find_by_ids-positive : (ids : List ℕ) → Always positively (find_by_ids ids)
  unfolding find_by_ids
  find_by_ids-positive ids = kept (find_by_ids ids) (λ w. (refl, refl, refl))

  set_item-positive :
      (product_id quantity : ℕ)
      → leb 1 quantity ≡ true
      → Always positively (set_item P user_id product_id quantity)
  unfolding set_item
  set_item-positive product_id quantity h = >>=-Always _ _ get_open_cart-positive λ open_.
      >>=-Always _ _ (find_by_ids-positive (product_id ∷ [])) λ products.
        >>-Always _ _ (or_throw-Always (head_product products) not_found) (
          >>-Always _ _
            (set_line-positive
              (record { cart_id = open_.cart.id; product_id = product_id; quantity = quantity }) h)
            get_open_cart-positive)

  delete_line-positive :
      (id product_id : ℕ)
      → Always positively
          (modify_db (λ db. record db { cart_items = delete_lines id product_id db.cart_items }))
  delete_line-positive id product_id = record {
    always = λ w p. record {
      cart_lines =
          select-positive (λ i. not (is_line id product_id i)) w.db.cart_items p.cart_lines;
      order_lines = p.order_lines;
      events = p.events;
    };
  }

  remove_item-positive : (product_id : ℕ) → Always positively (remove_item P user_id product_id)
  unfolding remove_item
  remove_item-positive product_id =
      >>=-Always _ _ get_open_cart-positive λ open_.
        >>-Always _ _ (delete_line-positive open_.cart.id product_id) get_open_cart-positive

  claim_cart-positive : (id : ℕ) → Always positively (claim_cart id)
  unfolding claim_cart
  claim_cart-positive id = kept (claim_cart id) (λ w. (refl, refl, refl))

  create_read-positive :
      (lines : Option (List OrderLine))
      → ((ls : List OrderLine)
          → lines ≡ some ls
          → every is_positive_line (map stock_line ls) ≡ true)
      → Always positively (or_throw lines type_error >>= create_order P user_id)
  create_read-positive none h = throw-Always type_error
  create_read-positive (some ls) h = record {
    always = (create_order-positive P user_id ls (h ls refl)).always;
  }

  check_out_read-positive :
      (open_ : OpenCart)
      → every is_positive_cart_line open_.items ≡ true
      → Always positively (check_out_read P user_id open_)
  unfolding check_out_read
  check_out_read-positive open_ h =
      >>-Always _ _ (throw_if-Always (has_no_lines open_.items) conflict) (
        >>=-Always _ _ (claim_cart-positive open_.cart.id) λ affected.
          >>-Always _ _ (throw_if-Always (affected == 0) conflict) (
            create_read-positive (order_lines open_.items)
              (λ ls e. order_lines-positive open_.items ls h e)))

  continued :
      (r : Result OpenCart) (v : World)
      → ((c : OpenCart) → r ≡ ok c → every is_positive_cart_line c.items ≡ true)
      → IsPositive v.db
      → IsPositive
          (elim r as (λ _. Result Order × World) [
            | ok c ↦ check_out_read P user_id c v
            | err e ↦ throw e v
          ]).1.db
  continued (ok c) v h p = (check_out_read-positive c (h c refl)).always v p
  continued (err e) v h p = p

  checkout-positive : Always positively (checkout P user_id)
  unfolding checkout
  checkout-positive = record {
    always = λ w p.
        continued (get_open_cart P user_id w).0 (get_open_cart P user_id w).1
          (λ c e. opened_lines w c p e) (get_open_cart-positive.always w p);
  }

list-positive : Always positively list
unfolding list
list-positive = kept list (λ w. (refl, refl, refl))

-- The answer is written when the handler has ended.
respond-IsPositive :
    {A : Type 0} (status : ℕ) (view : A → Body) (m : M A) (w : World)
    → Always positively m
    → IsPositive w.db
    → IsPositive (respond status view (m w)).1.db
respond-IsPositive {A} status view m w h p = settled (m w).0 (m w).1 (h.always w p)
  where
    settled :
        (r : Result A) (v : World) → IsPositive v.db → IsPositive (respond status view (r, v)).1.db
    settled (ok a) v q = q
    settled (err e) v q = q

-- What the validation lets through is at least 1.
valid_quantity-positive : (raw : RawQuantity) (q : ℕ) → valid_quantity raw ≡ some q → leb 1 q ≡ true
valid_quantity-positive (natural zero) q e = cc
valid_quantity-positive (natural (suc n)) q e = ground arith
valid_quantity-positive (negative n) q e = cc
valid_quantity-positive fraction q e = cc
valid_quantity-positive other q e = cc

validate_cart_item-positive :
    (body : RawCartItem) (id q : ℕ) → validate_cart_item body ≡ some (id, q) → leb 1 q ≡ true
unfolding validate_cart_item
validate_cart_item-positive body id q e = ground (arith, valid_quantity-positive body.quantity q)

module _ (P : Platform) where
  dispatch-IsPositive :
      (user_id : ℕ) (request : Request) (w : World)
      → IsPositive w.db
      → IsPositive (dispatch P user_id request w).1.db
  unfolding dispatch
  dispatch-IsPositive user_id list_orders w p =
      respond-IsPositive ok_status (λ os. orders (map to_order_response os))
        (list_orders_for_user P user_id) w (list_orders_for_user-positive P user_id) p
  dispatch-IsPositive user_id (get_order malformed) w p = p
  dispatch-IsPositive user_id (get_order (uuid id)) w p =
      respond-IsPositive ok_status (λ o. order (to_order_response o))
        (get_order_for_user P id user_id) w (get_order_for_user-positive P id user_id) p
  dispatch-IsPositive user_id (pay malformed) w p = p
  dispatch-IsPositive user_id (pay (uuid id)) w p =
      respond-IsPositive ok_status (λ o. order (to_order_response o))
        (initiate_payment P id user_id) w (initiate_payment-positive P id user_id) p
  dispatch-IsPositive user_id (cancel malformed) w p = p
  dispatch-IsPositive user_id (cancel (uuid id)) w p =
      respond-IsPositive ok_status (λ o. order (to_order_response o)) (cancel_order P id user_id) w
        (cancel_order-positive P id user_id) p
  dispatch-IsPositive user_id get_cart w p =
      respond-IsPositive ok_status (λ c. cart (to_cart_response c)) (get_open_cart P user_id) w
        (get_open_cart-positive P user_id) p
  dispatch-IsPositive user_id (set_cart_item body) w p =
      elim (Option-cases (validate_cart_item body)) [
        | inl bad ↦ rw bad p
        | inr ((id, q), good) ↦ rw good (
            respond-IsPositive ok_status (λ c. cart (to_cart_response c)) (set_item P user_id id q)
              w (set_item-positive P user_id id q (validate_cart_item-positive body id q good)) p)
      ]
  dispatch-IsPositive user_id (remove_cart_item malformed) w p = p
  dispatch-IsPositive user_id (remove_cart_item (uuid id)) w p =
      respond-IsPositive ok_status (λ c. cart (to_cart_response c)) (remove_item P user_id id) w
        (remove_item-positive P user_id id) p
  dispatch-IsPositive user_id check_out w p =
      respond-IsPositive created_status (λ o. order (to_order_response o)) (checkout P user_id) w
        (checkout-positive P user_id) p
  dispatch-IsPositive user_id list_products w p =
      respond-IsPositive ok_status (λ ps. products (map to_product_response ps)) list w
        list-positive p

  through-IsPositive :
      (a : AuthResult JwtPayload) (request : Request) (w : World)
      → IsPositive w.db
      → IsPositive (through P a request w).1.db
  through-IsPositive (AuthResult.ok caller) request w p = dispatch-IsPositive caller.sub request w p
  through-IsPositive (AuthResult.err e) request w p = p

  -- Whatever requests are made, by whomever and with whatever bodies, every quantity in a cart and
  -- in an order, and every quantity that is announced to the inventory, is at least 1, if it was
  -- so before.
  pub serve-IsPositive :
      (verify : ℕ → Option JwtPayload) (bearer empty : ℕ)
      → (requests : List (Option (List ℕ) × Request)) (w : World) → IsPositive w.db
      → IsPositive (serve P verify bearer empty requests w).db
  unfolding serve handle
  serve-IsPositive verify bearer empty [] w p = p
  serve-IsPositive verify bearer empty ((header, request) ∷ rest) w p =
      serve-IsPositive verify bearer empty rest _
        (through-IsPositive (authenticate verify bearer empty header) request w p)
