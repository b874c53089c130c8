-- ===== src/Api.antt =====
-- The shop's HTTP API: the routes of src/modules/orders/controllers/orders.controller.ts,
-- src/modules/cart/cart.controller.ts and src/modules/products/products.controller.ts, behind the
-- bearer guard and the validation of parameters and bodies
-- (src/common/validation/validation-pipe.ts). Nest runs the guard, then the pipes, then the
-- handler, and answers an exception with its status, or with 500 if it has none. A quantity that
-- the database's integer column cannot hold is not modelled.
pub mod Ownership
pub mod Quantities
use order_lifecycle_backend.Prelude.{
  ℕ, zero, suc, String, Bool, true, false, Option, none, some, List, [], ◌∷◌, map,
}
use order_lifecycle_backend.Entities.{Order, OrderItem, OrderStatus, Product, Cart}
use order_lifecycle_backend.World.{
  Platform, World, M, Result, ok, err, Failure, not_found, conflict, insufficient_stock,
  payment_in_flight, inbox_duplicate, unique_violation, type_error,
}
use order_lifecycle_backend.Auth.{AuthResult}
use order_lifecycle_backend.Auth.Http.{JwtPayload, authenticate}
use order_lifecycle_backend.Orders.Reading.{get_order_for_user, list_orders_for_user}
use order_lifecycle_backend.Orders.PaymentClaim.{initiate_payment}
use order_lifecycle_backend.Orders.Cancellation.{cancel_order}
use order_lifecycle_backend.Products.{list}
use order_lifecycle_backend.Cart.{
  CartLine, OpenCart, get_open_cart, set_item, remove_item, checkout,
}

-- A path parameter or a body field that must be a UUID.
pub data RawId : Type 0 where
  uuid : ℕ → RawId
  malformed : RawId

-- A JSON value where a number is expected: a natural number, a negative integer, a number that is
-- no integer, or no number.
pub data RawQuantity : Type 0 where
  natural negative : ℕ → RawQuantity
  fraction other : RawQuantity

-- `SetCartItemDTO` as it comes in, and whether it has further properties.
pub record RawCartItem : Type 0 where
  pub product_id : RawId
  pub quantity : RawQuantity
  pub has_more : Bool

pub data Request : Type 0 where
  list_orders get_cart check_out list_products : Request
  get_order pay cancel remove_cart_item : RawId → Request
  set_cart_item : RawCartItem → Request

-- `OrderItemResponseDTO`, `OrderResponseDTO`
pub record OrderItemResponse : Type 0 where
  pub product_id : ℕ
  pub product_name : String
  pub quantity : ℕ

pub record OrderResponse : Type 0 where
  pub id : ℕ
  pub user_id : ℕ
  pub status : OrderStatus
  pub payment_initiated_at : Option ℕ
  pub items : List OrderItemResponse
  pub created_at : ℕ
  pub updated_at : ℕ

abbrev pub to_order_item_response : OrderItem → OrderItemResponse
to_order_item_response item = record {
  product_id = item.product_id;
  product_name = item.product_name;
  quantity = item.quantity;
}

abbrev pub items_or_empty : Option (List OrderItem) → List OrderItem
items_or_empty none = []
items_or_empty (some items) = items

-- `toOrderResponseDTO`
abbrev pub to_order_response : Order → OrderResponse
to_order_response order = record {
  id = order.id;
  user_id = order.user_id;
  status = order.status;
  payment_initiated_at = order.payment_initiated_at;
  items = map to_order_item_response (items_or_empty order.items);
  created_at = order.created_at;
  updated_at = order.updated_at;
}

-- `CartItemResponseDTO`, `CartResponseDTO` without its two dates
pub record CartItemResponse : Type 0 where
  pub product_id : ℕ
  pub product_name : String
  pub product_stock : ℕ
  pub quantity : ℕ

pub record CartResponse : Type 0 where
  pub id : ℕ
  pub items : List CartItemResponse

abbrev pub name_or_empty : Option Product → String
name_or_empty none = ""
name_or_empty (some p) = p.name

abbrev pub stock_or_zero : Option Product → ℕ
stock_or_zero none = 0
stock_or_zero (some p) = p.stock

abbrev pub to_cart_item_response : CartLine → CartItemResponse
to_cart_item_response l = record {
  product_id = l.product_id;
  product_name = name_or_empty l.product;
  product_stock = stock_or_zero l.product;
  quantity = l.quantity;
}

-- `toCartResponseDTO`
abbrev pub to_cart_response : OpenCart → CartResponse
to_cart_response c = record { id = c.cart.id; items = map to_cart_item_response c.items }

-- `ProductResponseDTO`, `toProductResponseDTO`
pub record ProductResponse : Type 0 where
  pub id : ℕ
  pub name : String
  pub sku : String
  pub stock : ℕ

abbrev pub to_product_response : Product → ProductResponse
to_product_response p = record { id = p.id; name = p.name; sku = p.sku; stock = p.stock }

pub data Body : Type 0 where
  orders : List OrderResponse → Body
  order : OrderResponse → Body
  cart : CartResponse → Body
  products : List ProductResponse → Body
  exception : Body

pub record Response : Type 0 where
  pub status : ℕ
  pub body : Body

abbrev pub ok_status : ℕ
ok_status = 200

abbrev pub created_status : ℕ
created_status = 201

abbrev pub bad_request : ℕ
bad_request = 400

abbrev pub unauthorized_status : ℕ
unauthorized_status = 401

-- The status of what a service throws: only the first two are HTTP exceptions.
abbrev pub status_of : Failure → ℕ
status_of not_found = 404
status_of conflict = 409
status_of (insufficient_stock p) = 500
status_of (payment_in_flight o) = 500
status_of inbox_duplicate = 500
status_of unique_violation = 500
status_of type_error = 500

abbrev pub failed_with : ℕ → Response
failed_with status = record { status = status; body = exception }

abbrev pub respond : {A : Type 0} → ℕ → (A → Body) → Result A × World → Response × World
respond status view (ok a, w) = (record { status = status; body = view a }, w)
respond status view (err e, w) = (failed_with (status_of e), w)

abbrev pub respond_order : ℕ → Result Order × World → Response × World
respond_order status answer = respond status (λ o. order (to_order_response o)) answer

abbrev pub respond_cart : Result OpenCart × World → Response × World
respond_cart answer = respond ok_status (λ c. cart (to_cart_response c)) answer

-- `ParseUUIDPipe`
abbrev pub with_uuid : RawId → (ℕ → World → Response × World) → World → Response × World
with_uuid (uuid id) handler w = handler id w
with_uuid malformed handler w = (failed_with bad_request, w)

-- `@IsInt()` and `@Min(1)`
abbrev pub valid_quantity : RawQuantity → Option ℕ
valid_quantity (natural zero) = none
valid_quantity (natural (suc n)) = some (suc n)
valid_quantity (negative n) = none
valid_quantity fraction = none
valid_quantity other = none

-- The body as the validation pipe leaves it: `forbidNonWhitelisted` refuses further properties.
unfoldable pub validate_cart_item : RawCartItem → Option (ℕ × ℕ)
validate_cart_item body = elim body.has_more [
  | true ↦ none
  | false ↦ elim body.product_id [
    | malformed ↦ none
    | uuid id ↦ elim (valid_quantity body.quantity) [ none ↦ none | some q ↦ some (id, q) ]
  ]
]

abbrev pub with_cart_item :
    Option (ℕ × ℕ) → (ℕ → ℕ → World → Response × World) → World → Response × World
with_cart_item (some (id, q)) handler w = handler id q w
with_cart_item none handler w = (failed_with bad_request, w)

module _ (P : Platform) where
  -- `OrdersController.list`
  abbrev pub list_orders_route : ℕ → World → Response × World
  list_orders_route user_id w =
      respond ok_status (λ os. orders (map to_order_response os)) (list_orders_for_user P user_id w)

  -- `OrdersController.getById`
  abbrev pub get_order_route : RawId → ℕ → World → Response × World
  get_order_route raw user_id w =
      with_uuid raw (λ id v. respond_order ok_status (get_order_for_user P id user_id v)) w

  -- `OrdersController.pay`
  abbrev pub pay_route : RawId → ℕ → World → Response × World
  pay_route raw user_id w =
      with_uuid raw (λ id v. respond_order ok_status (initiate_payment P id user_id v)) w

  -- `OrdersController.cancel`
  abbrev pub cancel_route : RawId → ℕ → World → Response × World
  cancel_route raw user_id w =
      with_uuid raw (λ id v. respond_order ok_status (cancel_order P id user_id v)) w

  -- `CartController.get`
  abbrev pub get_cart_route : ℕ → World → Response × World
  get_cart_route user_id w = respond_cart (get_open_cart P user_id w)

  -- `CartController.setItem`
  abbrev pub set_item_route : RawCartItem → ℕ → World → Response × World
  set_item_route body user_id w =
      with_cart_item (validate_cart_item body) (λ id q v. respond_cart (set_item P user_id id q v))
        w

  -- `CartController.removeItem`
  abbrev pub remove_item_route : RawId → ℕ → World → Response × World
  remove_item_route raw user_id w =
      with_uuid raw (λ id v. respond_cart (remove_item P user_id id v)) w

  -- `CartController.checkout`
  abbrev pub checkout_route : ℕ → World → Response × World
  checkout_route user_id w = respond_order created_status (checkout P user_id w)

  -- `ProductsController.list`
  abbrev pub list_products_route : World → Response × World
  list_products_route w = respond ok_status (λ ps. products (map to_product_response ps)) (list w)

  -- The handlers of the three controllers, for the caller that the guard has found.
  unfoldable pub dispatch : ℕ → Request → World → Response × World
  dispatch user_id list_orders = list_orders_route user_id
  dispatch user_id (get_order raw) = get_order_route raw user_id
  dispatch user_id (pay raw) = pay_route raw user_id
  dispatch user_id (cancel raw) = cancel_route raw user_id
  dispatch user_id get_cart = get_cart_route user_id
  dispatch user_id (set_cart_item body) = set_item_route body user_id
  dispatch user_id (remove_cart_item raw) = remove_item_route raw user_id
  dispatch user_id check_out = checkout_route user_id
  dispatch user_id list_products = list_products_route

  -- What follows the guard
  abbrev pub through : AuthResult JwtPayload → Request → World → Response × World
  through (AuthResult.ok caller) request w = dispatch caller.sub request w
  through (AuthResult.err e) request w = (failed_with unauthorized_status, w)

  -- A request with its `Authorization` header, through the guard.
  unfoldable pub handle :
      (verify : ℕ → Option JwtPayload) (bearer empty : ℕ)
      → Option (List ℕ)
      → Request
      → World
      → Response × World
  handle verify bearer empty header request w =
      through (authenticate verify bearer empty header) request w

  -- The state after any number of requests, one after the other.
  unfoldable pub serve :
      (verify : ℕ → Option JwtPayload) (bearer empty : ℕ)
      → List (Option (List ℕ) × Request)
      → World
      → World
  serve verify bearer empty [] w = w
  serve verify bearer empty ((header, request) ∷ rest) w =
      serve verify bearer empty rest (handle verify bearer empty header request w).1
