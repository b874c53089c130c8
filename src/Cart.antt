-- ===== src/Cart.antt =====
-- The cart service (src/modules/cart/cart.service.ts): a user's one open cart, its lines, and the
-- checkout that turns them into an order.
pub mod Lines
pub mod Checkout
use order_lifecycle_backend.Prelude.{
  ℕ, String, Bool, true, false, not, ◌&&◌, Option, none, some, List, [], ◌∷◌, ◌++◌, ◌==◌,
  if◌then◌else◌, select, find, find_by, update_where, count_where, at_key,
}
use order_lifecycle_backend.Entities.{Cart, CartItem, Product, Order}
use order_lifecycle_backend.World.{
  Platform, World, Db, M, Failure, ok, err, pure, throw, throw_if, gets, or_throw, modify_db,
  catch_error, random_id, not_found, conflict, unique_violation, type_error, ◌>>=◌, ◌>>◌,
}
use order_lifecycle_backend.Orders.Rows.{is_null}
use order_lifecycle_backend.Orders.Creation.{OrderLine, create_order}
use order_lifecycle_backend.Products.{find_by_ids}

abbrev pub cart_key : Cart → ℕ
cart_key c = c.id

-- `where: { userId, checkedOutAt: IsNull() }`
abbrev pub is_open_of : ℕ → Cart → Bool
is_open_of user_id c = (c.user_id == user_id) && is_null c.checked_out_at

abbrev pub in_cart : ℕ → CartItem → Bool
in_cart id item = item.cart_id == id

abbrev pub is_line : ℕ → ℕ → CartItem → Bool
is_line id product_id item = (item.cart_id == id) && (item.product_id == product_id)

-- A line with its joined product.
pub record CartLine : Type 0 where
  pub product_id : ℕ
  pub quantity : ℕ
  pub product : Option Product

-- A cart with its joined lines.
pub record OpenCart : Type 0 where
  pub cart : Cart
  pub items : List CartLine

abbrev product_key : Product → ℕ
product_key p = p.id

-- `relations: { items: { product: true } }`
abbrev pub join_products : List Product → List CartItem → List CartLine
join_products products [] = []
join_products products (i ∷ is) =
    record {
      product_id = i.product_id;
      quantity = i.quantity;
      product = find_by product_key i.product_id products;
    }
    ∷ join_products products is

abbrev pub view : Db → Cart → OpenCart
view db c = record {
  cart = c;
  items = join_products db.products (select (in_cart c.id) db.cart_items);
}

-- `findOpenCart`
abbrev pub find_open_cart : ℕ → Db → Option OpenCart
find_open_cart user_id db = elim (find (is_open_of user_id) db.carts) [
  | none ↦ none
  | some c ↦ some (view db c)
]

abbrev pub new_cart : ℕ → ℕ → Cart
new_cart id user_id = record { id = id; user_id = user_id; checked_out_at = none }

-- The INSERT of a cart, which the partial unique index on open carts may refuse.
unfoldable pub insert_cart : Cart → M (Unit {0})
insert_cart c w = elim (find (is_open_of c.user_id) w.db.carts) [
  | some _ ↦ (err unique_violation, w)
  | none ↦ (ok tt, record w { db = record (w.db) { carts = w.db.carts ++ c ∷ [] } })
]

-- UPDATE carts SET "checkedOutAt" = now() WHERE id = :id AND "checkedOutAt" IS NULL
abbrev pub is_unclaimed : Cart → Bool
is_unclaimed c = is_null c.checked_out_at

abbrev pub check_out : ℕ → Cart → Cart
check_out now c = record c { checked_out_at = some now }

unfoldable pub claim_cart : ℕ → M ℕ
claim_cart id w = (
  ok (count_where (at_key cart_key id is_unclaimed) w.db.carts),
  record w {
    db = record (w.db) {
      carts = update_where (at_key cart_key id is_unclaimed) (check_out w.now) w.db.carts;
    };
  },
)

-- The upsert on (cartId, productId).
abbrev pub upsert : CartItem → List CartItem → List CartItem
upsert i [] = i ∷ []
upsert i (j ∷ js) =
    if is_line i.cart_id i.product_id j
    then record j { quantity = i.quantity } ∷ js
    else j ∷ upsert i js

-- `delete({ cartId, productId })`
abbrev pub delete_lines : ℕ → ℕ → List CartItem → List CartItem
delete_lines id product_id = select (λ i. not (is_line id product_id i))

abbrev pub has_no_lines : List CartLine → Bool
has_no_lines [] = true
has_no_lines (_ ∷ _) = false

-- `items.map(...)`; reading the name of a missing product is a TypeError.
abbrev pub order_lines : List CartLine → Option (List OrderLine)
order_lines [] = some []
order_lines (l ∷ ls) = elim l.product [
  | none ↦ none
  | some p ↦ elim (order_lines ls) [
    | none ↦ none
    | some rest ↦
        some (
          record { product_id = l.product_id; product_name = p.name; quantity = l.quantity } ∷ rest)
  ]
]

abbrev pub head_product : List Product → Option Product
head_product [] = none
head_product (p ∷ _) = some p

module _ (P : Platform) where
  -- The handler of a failed INSERT: the winner's cart, if the index refused this one.
  abbrev pub use_winner : ℕ → Failure → M OpenCart
  use_winner user_id unique_violation = do
    winner ← gets (λ w. find_open_cart user_id w.db)
    or_throw winner unique_violation
  use_winner user_id e = throw e

  -- What `getOpenCart` does when it has found no open cart; a concurrent request may have created
  -- one since.
  unfoldable pub create_open_cart : ℕ → M OpenCart
  create_open_cart user_id =
      catch_error
        (random_id P >>= λ id.
          insert_cart (new_cart id user_id)
          >> pure (record { cart = new_cart id user_id; items = [] }))
        (use_winner user_id)

  abbrev pub found_or_created : ℕ → Option OpenCart → M OpenCart
  found_or_created user_id (some c) = pure c
  found_or_created user_id none = create_open_cart user_id

  -- `getOpenCart`
  unfoldable pub get_open_cart : ℕ → M OpenCart
  get_open_cart user_id = do
    existing ← gets (λ w. find_open_cart user_id w.db)
    found_or_created user_id existing

  -- `setItem`
  unfoldable pub set_item : ℕ → ℕ → ℕ → M OpenCart
  set_item user_id product_id quantity = do
    open_ ← get_open_cart user_id
    products ← find_by_ids (product_id ∷ [])
    or_throw (head_product products) not_found
    modify_db (λ db. record db {
      cart_items =
          upsert (record { cart_id = open_.cart.id; product_id = product_id; quantity = quantity })
            db.cart_items;
    })
    get_open_cart user_id

  -- `removeItem`
  unfoldable pub remove_item : ℕ → ℕ → M OpenCart
  remove_item user_id product_id = do
    open_ ← get_open_cart user_id
    modify_db (λ db. record db { cart_items = delete_lines open_.cart.id product_id db.cart_items })
    get_open_cart user_id

  -- The second half of `checkout`, from the cart as it was read.
  unfoldable pub check_out_read : ℕ → OpenCart → M Order
  check_out_read user_id open_ = do
    throw_if (has_no_lines open_.items) conflict
    affected ← claim_cart open_.cart.id
    throw_if (affected == 0) conflict
    lines ← or_throw (order_lines open_.items) type_error
    create_order P user_id lines

  -- `checkout`
  unfoldable pub checkout : ℕ → M Order
  checkout user_id = do open_ ← get_open_cart user_id; check_out_read user_id open_
