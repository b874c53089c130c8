-- ===== src/Cart/Lines.antt =====
-- The open cart of a user and the lines that it shows (src/modules/cart/cart.service.ts).
use order_lifecycle_backend.Prelude.{
  ℕ, ◌≤◌, ◌+◌, ◌≡◌, refl, ap, ◌∙◌, inl, inr, Bool, true, ◌&&◌, Option, none, some, List, [], ◌∷◌,
  ◌++◌, arith, ◌==◌, if◌then◌else◌, Bool-cases, Option-cases, find, count_where,
}
use order_lifecycle_backend.Entities.{Cart, CartItem}
use order_lifecycle_backend.World.{Platform, World, Db, ok}
use order_lifecycle_backend.Cart.{
  OpenCart, is_open_of, is_line, upsert, new_cart, insert_cart, view, create_open_cart,
}

find-append :
    (p : Cart → Bool) (x : Cart) (xs : List Cart)
    → find p xs ≡ none
    → p x ≡ true
    → find p (xs ++ x ∷ []) ≡ some x
find-append p x [] h g = ground arith
find-append p x (y ∷ ys) h g = ground (arith, find-append p x ys)

count-append :
    (p : Cart → Bool) (x : Cart) (xs : List Cart)
    → count_where p (xs ++ x ∷ []) ≡ count_where p xs + (if p x then 1 else 0)
count-append p x [] = ground arith
count-append p x (y ∷ ys) = ground (arith, count-append p x ys)

count-missing : (p : Cart → Bool) (xs : List Cart) → find p xs ≡ none → count_where p xs ≡ 0
count-missing p [] h = refl
count-missing p (y ∷ ys) h = ground (arith, count-missing p ys)

-- The user's open cart, if there is one.
abbrev pub open_row : ℕ → World → Option Cart
open_row user_id w = find (is_open_of user_id) w.db.carts

abbrev pub open_carts : ℕ → World → ℕ
open_carts user_id w = count_where (is_open_of user_id) w.db.carts

module _ (P : Platform) (user_id : ℕ) where
  inserted :
      (w : World)
      → open_row user_id w ≡ none
      → ((create_open_cart P user_id w).0
          ≡ ok (record { cart = new_cart (P.random_uuid w.drawn) user_id; items = [] }))
        × ((create_open_cart P user_id w).1.db.carts
            ≡ w.db.carts ++ new_cart (P.random_uuid w.drawn) user_id ∷ [])
  unfolding create_open_cart insert_cart
  inserted w e = ground arith

  taken :
      (w : World) (c : Cart)
      → open_row user_id w ≡ some c
      → ((create_open_cart P user_id w).0 ≡ ok (view w.db c))
        × ((create_open_cart P user_id w).1.db ≡ w.db)
  unfolding create_open_cart insert_cart
  taken w c e = ground arith

  -- The creation of an open cart succeeds also if another request has created one since the
  -- caller looked: it answers with the cart that is then the user's open one.
  pub create_open_cart-answers :
      (w : World)
      → (v : OpenCart) × ((create_open_cart P user_id w).0 ≡ ok v)
        × (open_row user_id (create_open_cart P user_id w).1 ≡ some v.cart)
  create_open_cart-answers w = elim (Option-cases (open_row user_id w)) [
    | inl e ↦
        let (r, rows) = inserted w e in
        let c = new_cart (P.random_uuid w.drawn) user_id in
        (
          record { cart = c; items = [] },
          r,
          ap (find (is_open_of user_id)) rows
              ∙ find-append (is_open_of user_id) c w.db.carts e (ground arith),
        )
    | inr (c, e) ↦
        let (r, same) = taken w c e in
        (view w.db c, r, ap (λ (db : Db). find (is_open_of user_id) db.carts) same ∙ e)
  ]

  -- A user who has at most one open cart has at most one after the creation of an open cart, be it
  -- for this user or for another, and also if the creator had looked before the cart was there.
  pub create_open_cart_one :
      (other : ℕ) (w : World)
      → open_carts other w ≤ 1
      → open_carts other (create_open_cart P user_id w).1 ≤ 1
  create_open_cart_one other w h = elim (Option-cases (open_row user_id w)) [
    | inl e ↦
        let (r, rows) = inserted w e in
        let c = new_cart (P.random_uuid w.drawn) user_id in
        elim (Bool-cases (other == user_id)) [
          | inl s ↦ ground (
            arith,
            ap (count_where (is_open_of other)) rows,
            count-append (is_open_of other) c w.db.carts,
            count-missing (is_open_of user_id) w.db.carts e,
          )
          | inr s ↦ ground (
            arith,
            ap (count_where (is_open_of other)) rows,
            count-append (is_open_of other) c w.db.carts,
          )
        ]
    | inr (c, e) ↦
        let (r, same) = taken w c e in
        ground (arith, ap (λ (db : Db). count_where (is_open_of other) db.carts) same)
  ]

abbrev pub quantity_in : ℕ → ℕ → List CartItem → Option ℕ
quantity_in id product_id items = elim (find (is_line id product_id) items) [
  | none ↦ none
  | some i ↦ some i.quantity
]

-- The upsert of a line sets the quantity of its product in its cart, whether or not the cart had
-- the product, and leaves that of every other product and cart as it was.
pub quantity_in-upsert :
    (id product_id : ℕ) (i : CartItem) (items : List CartItem)
    → quantity_in id product_id (upsert i items) ≡ (
        if (i.cart_id == id) && (i.product_id == product_id)
        then some i.quantity
        else quantity_in id product_id items)
quantity_in-upsert id product_id i [] = ground arith
quantity_in-upsert id product_id i (j ∷ js) = ground (arith, quantity_in-upsert id product_id i js)
