-- ===== src/Api/Ownership.antt =====
-- Whose orders the shop's HTTP API shows a caller (src/modules/orders/controllers,
-- src/modules/cart/cart.controller.ts).
use order_lifecycle_backend.Prelude.{
  ℕ, ◌≡◌, refl, Bool, true, Option, some, List, [], ◌∷◌, map, arith, ◌==◌, ==_refl, every,
  Option-cases, inl, inr, not, sym, subst,
}
use order_lifecycle_backend.Entities.{Order, cancelled, reserved}
use order_lifecycle_backend.World.{
  Platform, World, Result, ok, err, transaction, gets, or_throw, throw_if, conflict, type_error,
  order_key, user_orders_key, TerminalState,
}
use order_lifecycle_backend.World.Returns.{
  Returns, >>=-Returns, any->>=-Returns, >>-Returns, pure-Returns,
}
use order_lifecycle_backend.World.Harmless.{list_entries}
use order_lifecycle_backend.Auth.{AuthResult}
use order_lifecycle_backend.Auth.Http.{JwtPayload, authenticate}
use order_lifecycle_backend.Cache.{del_keys}
use order_lifecycle_backend.Orders.Rows.{has_status}
use order_lifecycle_backend.Metrics.{record_terminal_state}
use order_lifecycle_backend.Cache.{del_keys}
use order_lifecycle_backend.Orders.Rows.{has_status, is_cancellable}
use order_lifecycle_backend.Orders.Creation.{OrderLine, create_order}
use order_lifecycle_backend.Orders.Creation.Commit.{create_order-IsCommitted}
use order_lifecycle_backend.Orders.Reading.{get_order_for_user}
use order_lifecycle_backend.Orders.Reading.Lists.{is_owned, are_owned}
use order_lifecycle_backend.Orders.Reading.Ownership.{get_order_for_user-owned}
use order_lifecycle_backend.Orders.PaymentClaim.{
  event_of, claim_and_enqueue, confirm_payment, initiate_payment,
}
use order_lifecycle_backend.Orders.Cancellation.{
  item_lines, restore_if, claim_cancel, cancel_read_order, cancel_order,
}
use order_lifecycle_backend.Cart.{
  OpenCart, claim_cart, has_no_lines, order_lines, check_out_read, checkout, get_open_cart,
}
use order_lifecycle_backend.Products.{list}
use order_lifecycle_backend.Payment.Gateway.{Provider}
use order_lifecycle_backend.Lifecycle.System.{Call, run, run-IsSound}
use order_lifecycle_backend.Lifecycle.Lists.{ListsAreFaithful, list_orders_for_user-owned}
use order_lifecycle_backend.Api.{
  uuid, malformed, validate_cart_item, Request, list_orders, get_cart, check_out, list_products,
  get_order, pay, cancel, remove_cart_item, set_cart_item, OrderResponse, to_order_response,
  through, respond_order, respond_cart, ok_status, created_status, Body, orders, order, cart,
  products, exception, respond, dispatch, handle,
}

-- Every order that a body shows is the user's.
abbrev pub shows_own : ℕ → Body → Bool
shows_own user_id (orders os) = every (λ (r : OrderResponse). r.user_id == user_id) os
shows_own user_id (order o) = o.user_id == user_id
shows_own user_id (cart c) = true
shows_own user_id (products ps) = true
shows_own user_id exception = true

abbrev Owned : ℕ → Order → Type 0
Owned user_id o = o.user_id ≡ user_id

module _ (P : Platform) (user_id : ℕ) where
  create_order-Returns :
      (lines : List OrderLine) → Returns (Owned user_id) (create_order P user_id lines)
  create_order-Returns lines = record {
    given = λ w o e. ground (arith, (create_order-IsCommitted P user_id lines w).returned);
  }

  get_order_for_user-Returns : (id : ℕ) → Returns (Owned user_id) (get_order_for_user P id user_id)
  get_order_for_user-Returns id = record { given = get_order_for_user-owned P id user_id }

  confirm_payment-Returns :
      (id : ℕ) (o : Order) → Owned user_id o → Returns (Owned user_id) (confirm_payment P id o)
  unfolding confirm_payment
  confirm_payment-Returns id o own =
      >>-Returns (Owned user_id) (throw_if (not (has_status reserved o)) conflict) _ (
        any->>=-Returns (Owned user_id) (gets (λ w. w.now)) _ λ occurred_at.
          any->>=-Returns (Owned user_id)
            (transaction (claim_and_enqueue P id (event_of o occurred_at))) _
            λ claimed. >>-Returns (Owned user_id) (throw_if (not claimed) conflict) _ (
              any->>=-Returns (Owned user_id) (gets (λ w. w.now)) _ λ now.
                >>-Returns (Owned user_id) (del_keys P (order_key id ∷ [])) _ (
                  pure-Returns (Owned user_id) (record o { payment_initiated_at = some now }) own)))

  initiate_payment-Returns : (id : ℕ) → Returns (Owned user_id) (initiate_payment P id user_id)
  unfolding initiate_payment
  initiate_payment-Returns id =
      >>=-Returns (Owned user_id) (Owned user_id) (get_order_for_user P id user_id)
        (confirm_payment P id) (get_order_for_user-Returns id) (confirm_payment-Returns id)

  cancel_read_order-Returns :
      (id : ℕ) (o : Order) → Owned user_id o → Returns (Owned user_id) (cancel_read_order P id o)
  unfolding cancel_read_order
  cancel_read_order-Returns id o own =
      >>-Returns (Owned user_id) (throw_if (not (is_cancellable o)) conflict) _ (
        any->>=-Returns (Owned user_id) (claim_cancel id) _ λ affected.
          >>-Returns (Owned user_id) (throw_if (affected == 0) conflict) _ (
            >>-Returns (Owned user_id) (restore_if (has_status reserved o) (item_lines o.items)) _ (
              >>-Returns (Owned user_id) (record_terminal_state TerminalState.cancelled) _ (
                >>-Returns (Owned user_id)
                  (del_keys P (order_key id ∷ user_orders_key o.user_id ∷ [])) _
                  (pure-Returns (Owned user_id) (record o { status = cancelled }) own)))))

  cancel_order-Returns : (id : ℕ) → Returns (Owned user_id) (cancel_order P id user_id)
  unfolding cancel_order
  cancel_order-Returns id =
      >>=-Returns (Owned user_id) (Owned user_id) (get_order_for_user P id user_id)
        (cancel_read_order P id) (get_order_for_user-Returns id) (cancel_read_order-Returns id)

  check_out_read-Returns :
      (open_ : OpenCart) → Returns (Owned user_id) (check_out_read P user_id open_)
  unfolding check_out_read
  check_out_read-Returns open_ =
      >>-Returns (Owned user_id) (throw_if (has_no_lines open_.items) conflict) _ (
        any->>=-Returns (Owned user_id) (claim_cart open_.cart.id) _ λ affected.
          >>-Returns (Owned user_id) (throw_if (affected == 0) conflict) _ (
            any->>=-Returns (Owned user_id) (or_throw (order_lines open_.items) type_error)
              (create_order P user_id) create_order-Returns))

  checkout-Returns : Returns (Owned user_id) (checkout P user_id)
  unfolding checkout
  checkout-Returns =
      any->>=-Returns (Owned user_id) (get_open_cart P user_id) (check_out_read P user_id)
        check_out_read-Returns

shown_order :
    (user_id status : ℕ) (r : Result Order) (w : World)
    → ((o : Order) → r ≡ ok o → o.user_id ≡ user_id)
    → shows_own user_id (respond_order status (r, w)).0.body ≡ true
shown_order user_id status (ok o) w h = rw (h o refl) (==_refl user_id)
shown_order user_id status (err e) w h = refl

shown_cart :
    (user_id : ℕ) (r : Result OpenCart) (w : World)
    → shows_own user_id (respond_cart (r, w)).0.body ≡ true
shown_cart user_id (ok c) w = refl
shown_cart user_id (err e) w = refl

every-to_order_response :
    (user_id : ℕ) (os : List Order)
    → every (is_owned user_id) os ≡ true
    → shows_own user_id (orders (map to_order_response os)) ≡ true
every-to_order_response user_id [] h = refl
every-to_order_response user_id (o ∷ os) h = ground (arith, every-to_order_response user_id os)

shown_list :
    (user_id : ℕ) (r : Result (List Order)) (w : World)
    → ((os : List Order) → r ≡ ok os → every (is_owned user_id) os ≡ true)
    → shows_own user_id (respond ok_status (λ os. orders (map to_order_response os)) (r, w)).0.body
      ≡ true
shown_list user_id (ok os) w h = every-to_order_response user_id os (h os refl)
shown_list user_id (err e) w h = refl

module _ (P : Platform) (faithful : ListsAreFaithful P) (user_id : ℕ) where
  dispatch-shows_own :
      (request : Request) (w : World)
      → are_owned (list_entries w.redis) ≡ true
      → shows_own user_id (dispatch P user_id request w).0.body ≡ true
  unfolding dispatch list
  dispatch-shows_own list_orders w h =
      shown_list user_id _ _ (λ os e. list_orders_for_user-owned P user_id faithful w os h e)
  dispatch-shows_own (get_order malformed) w h = refl
  dispatch-shows_own (get_order (uuid id)) w h =
      shown_order user_id ok_status _ _ ((get_order_for_user-Returns P user_id id).given w)
  dispatch-shows_own (pay malformed) w h = refl
  dispatch-shows_own (pay (uuid id)) w h =
      shown_order user_id ok_status _ _ ((initiate_payment-Returns P user_id id).given w)
  dispatch-shows_own (cancel malformed) w h = refl
  dispatch-shows_own (cancel (uuid id)) w h =
      shown_order user_id ok_status _ _ ((cancel_order-Returns P user_id id).given w)
  dispatch-shows_own get_cart w h = shown_cart user_id _ _
  dispatch-shows_own (set_cart_item body) w h = elim (Option-cases (validate_cart_item body)) [
    | inl bad ↦ rw bad refl
    | inr (line, good) ↦ rw good (shown_cart user_id _ _)
  ]
  dispatch-shows_own (remove_cart_item malformed) w h = refl
  dispatch-shows_own (remove_cart_item (uuid id)) w h = shown_cart user_id _ _
  dispatch-shows_own check_out w h =
      shown_order user_id created_status _ _ ((checkout-Returns P user_id).given w)
  dispatch-shows_own list_products w h = refl

-- No response shows a caller another user's order: after any calls, from a Redis that stores only
-- users' own lists and answers a list only with what has been stored under its key, whatever an
-- authenticated caller requests, every order in the response is the caller's.
pub handle-shows_own :
    (P : Platform)
    → ListsAreFaithful P
    → (provider : Provider) (cs : List Call) (w : World) → are_owned (list_entries w.redis) ≡ true
    → (verify : ℕ → Option JwtPayload) (bearer empty : ℕ) (header : Option (List ℕ))
    → (caller : JwtPayload) → authenticate verify bearer empty header ≡ AuthResult.ok caller
    → (request : Request)
    → shows_own caller.sub
        (handle P verify bearer empty header request (run P provider cs w)).0.body
      ≡ true
unfolding handle
handle-shows_own P faithful provider cs w stored verify bearer empty header caller e request =
    subst
      (λ (a : AuthResult JwtPayload).
        shows_own caller.sub (through P a request (run P provider cs w)).0.body ≡ true)
      (sym e)
      (dispatch-shows_own P faithful caller.sub request (run P provider cs w)
        ((run-IsSound P provider cs w).lists stored))
