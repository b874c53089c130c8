-- ===== src/Lifecycle/Services.antt =====
-- The reads, claims and transitions of src/modules/orders/services/orders.service.ts, as actions
-- on the order table.
use order_lifecycle_backend.Prelude.{
  ℕ, ◌≡◌, refl, inl, inr, Bool, true, false, not, ◌&&◌, ◌||◌, Option, none, some, List, arith, ◌==◌,
  Bool-cases, find_by, every, if◌then◌else◌,
}
use order_lifecycle_backend.Entities.{
  Order, OrderStatus, pending, reserved, paid, completed, failed, cancelled, StockLine,
}
use order_lifecycle_backend.World.{
  Platform, World, pure, set, not_found, conflict, many, user_orders_key,
}
use order_lifecycle_backend.Cache.{set_value}
use order_lifecycle_backend.Orders.StateMachine.{
  same_status, is_transition_allowed, is_terminal_status,
}
use order_lifecycle_backend.Orders.StateMachine.Lifecycle.{here, next, is_transition_allowed_iff}
use order_lifecycle_backend.Orders.Rows.{
  order_id, has_status, set_status, is_payable, is_cancellable, set_payment_initiated, is_null,
}
use order_lifecycle_backend.Orders.Evolution.{Keeps, Evolves-refl, update-Evolves}
use order_lifecycle_backend.World.Always.{
  >>=-Always, >>-Always, pure-Always, or_throw-Always, throw_if-Always,
}
use order_lifecycle_backend.Orders.Evolving.{
  Evolving, IsQuiet, quietly, orders_only, Harmless-Evolving, restore_stock-Evolving, get-Evolving,
}
use order_lifecycle_backend.Orders.Reading.{
  list_orders_for_user, find_user_orders, list_hit, cache_list, list_or_read, is_terminal,
}
use order_lifecycle_backend.Orders.Reading.Lists.{is_owned, find_user_orders-owned}
use order_lifecycle_backend.Messaging.Outbox.Tracing.{IsTraced-same}
use order_lifecycle_backend.Orders.Transition.{
  compare_and_set, apply_transition, transition_order, transition_order_seeing,
}
use order_lifecycle_backend.Orders.Transition.Cas.{announce-Harmless, same_status_sound}
use order_lifecycle_backend.Orders.PaymentClaim.{claim_payment}
use order_lifecycle_backend.Orders.Cancellation.{claim_cancel, restore_if}

-- An order that a transition leaves, or that can be cancelled or paid, is not in a terminal status.
leaves_terminal :
    (s to : OrderStatus) → is_transition_allowed s to ≡ true → is_terminal_status s ≡ true → ⊥
unfolding is_transition_allowed is_terminal_status
leaves_terminal pending to h t = cc
leaves_terminal reserved to h t = cc
leaves_terminal paid to h t = cc
leaves_terminal completed to h t = cc
leaves_terminal failed to h t = cc
leaves_terminal cancelled to h t = cc

-- A move along the lifecycle that touches no more than the status.
move-Keeps :
    (o : Order) (to : OrderStatus) (now : ℕ)
    → is_transition_allowed o.status to ≡ true
    → Keeps o (set_status to now o)
move-Keeps o to now allowed = record {
  identity = refl;
  history = next ((is_transition_allowed_iff o.status to).0 allowed) here;
  owner = refl;
  creation = refl;
  confirmation = inr refl;
  frozen = λ t. absurd (leaves_terminal o.status to allowed t);
}

cas-Evolving :
    (id : ℕ) (from to : OrderStatus)
    → is_transition_allowed from to ≡ true
    → Evolving (compare_and_set id from to)
unfolding compare_and_set
cas-Evolving id from to allowed = orders_only (compare_and_set id from to) λ w. (
  update-Evolves id (has_status from) (set_status to w.now) w.db.orders
      (λ o g. move-Keeps o to w.now (rw (same_status_sound o.status from g) allowed)),
  refl,
  refl,
  refl,
  refl,
)

cancel_allowed :
    (s : OrderStatus) (p : Option ℕ)
    → (same_status s pending || (same_status s reserved && is_null p)) ≡ true
    → is_transition_allowed s cancelled ≡ true
unfolding is_transition_allowed
cancel_allowed pending p g = refl
cancel_allowed reserved p g = refl
cancel_allowed paid p g = cc
cancel_allowed completed p g = cc
cancel_allowed failed p g = cc
cancel_allowed cancelled p g = cc

pub claim_cancel-Evolving : (id : ℕ) → Evolving (claim_cancel id)
unfolding claim_cancel
claim_cancel-Evolving id = orders_only (claim_cancel id) λ w. (
  update-Evolves id is_cancellable (set_status cancelled w.now) w.db.orders
      (λ o g. move-Keeps o cancelled w.now (cancel_allowed o.status o.payment_initiated_at g)),
  refl,
  refl,
  refl,
  refl,
)

payable_unpaid :
    (s : OrderStatus) (p : Option ℕ) → (same_status s reserved && is_null p) ≡ true → p ≡ none
payable_unpaid s p g = ground arith

payable_moving :
    (s : OrderStatus) (p : Option ℕ)
    → (same_status s reserved && is_null p) ≡ true
    → is_terminal_status s ≡ true
    → ⊥
unfolding is_terminal_status
payable_moving pending p g t = cc
payable_moving reserved p g t = cc
payable_moving paid p g t = cc
payable_moving completed p g t = cc
payable_moving failed p g t = cc
payable_moving cancelled p g t = cc

pub claim_payment-Evolving : (id : ℕ) → Evolving (claim_payment id)
unfolding claim_payment
claim_payment-Evolving id = orders_only (claim_payment id) λ w. (
  update-Evolves id is_payable (set_payment_initiated w.now) w.db.orders (λ o g. record {
    identity = refl;
    history = here;
    owner = refl;
    creation = refl;
    confirmation = inl (payable_unpaid o.status o.payment_initiated_at g);
    frozen = λ t. absurd (payable_moving o.status o.payment_initiated_at g t);
  }),
  refl,
  refl,
  refl,
  refl,
)

pub restore_if-Evolving : (b : Bool) (lines : List StockLine) → Evolving (restore_if b lines)
restore_if-Evolving true lines = restore_stock-Evolving lines
restore_if-Evolving false lines = pure-Always tt

if-IsQuiet : (b : Bool) {u w : World} → IsQuiet u w → IsQuiet u (if b then w else u)
if-IsQuiet true h = h
if-IsQuiet false {u} h = quietly.same u

module _ (P : Platform) where
  -- Storing a list of the user's own orders, whether the server accepts it or not.
  set_list-Evolving :
      (user_id ttl : ℕ) (os : List Order)
      → every (is_owned user_id) os ≡ true
      → Evolving (set_value P (user_orders_key user_id) (many os) ttl)
  unfolding set_value
  set_list-Evolving user_id ttl os owned = record {
    always = λ w. if-IsQuiet w.cache_enabled (
        if-IsQuiet (P.redis_accepts w.now w.redis (set (user_orders_key user_id) (many os) ttl))
          (record {
            evolves = Evolves-refl w.db.orders;
            entries = refl;
            handled = λ i c h. h;
            traces = IsTraced-same w _ refl refl;
            lists = λ h. rw (owned, h) refl;
          }));
  }

  cache_list-Evolving :
      (user_id : ℕ) (os : List Order)
      → every (is_owned user_id) os ≡ true
      → Evolving (cache_list P user_id os)
  cache_list-Evolving user_id os owned = elim (Bool-cases (every is_terminal os)) [
    | inl all ↦ record {
      always = λ w. rw all ((set_list-Evolving user_id w.cache_ttl os owned).always w);
    }
    | inr not_all ↦ record { always = λ w. rw not_all (quietly.same w) }
  ]

  list_or_read-Evolving :
      (user_id : ℕ) (hit : Option (List Order)) → Evolving (list_or_read P user_id hit)
  list_or_read-Evolving user_id (some os) = pure-Always os
  list_or_read-Evolving user_id none = record {
    always = λ w.
        let os : List Order = find_user_orders user_id w.db in
        (>>-Always (cache_list P user_id os) (pure os)
            (cache_list-Evolving user_id os (find_user_orders-owned user_id w.db))
            (pure-Always os)).always
          w;
  }

  pub list_orders_for_user-Evolving : (user_id : ℕ) → Evolving (list_orders_for_user P user_id)
  unfolding list_orders_for_user
  list_orders_for_user-Evolving user_id =
      >>=-Always _ _ (get-Evolving P (user_orders_key user_id))
        λ cached. list_or_read-Evolving user_id (list_hit cached)

  -- The compare-and-set moves an order by an allowed transition, whatever order the guard was
  -- checked on.
  pub apply_transition-Evolving :
      (id : ℕ) (to : OrderStatus) (order : Order) → Evolving (apply_transition P id to order)
  unfolding apply_transition
  apply_transition-Evolving id to order =
      elim (Bool-cases (is_transition_allowed order.status to)) [
        | inl allowed ↦
            >>-Always _ _ (throw_if-Always (not (is_transition_allowed order.status to)) conflict) (
              >>=-Always _ _ (cas-Evolving id order.status to allowed) λ affected.
                >>-Always _ _ (throw_if-Always (affected == 0) conflict) (
                  >>-Always _ _ (Harmless-Evolving _ (announce-Harmless P id to order))
                    (pure-Always (record order { status = to }))))
        | inr refused ↦ record { always = λ w. rw refused (quietly.same w) }
      ]

  transition_order_seeing-Evolving :
      (seen : List Order) (id : ℕ) (to : OrderStatus)
      → Evolving (transition_order_seeing P seen id to)
  transition_order_seeing-Evolving seen id to =
      >>=-Always _ _ (or_throw-Always (find_by order_id id seen) not_found)
        λ order. apply_transition-Evolving id to order

  pub transition_order-Evolving : (id : ℕ) (to : OrderStatus) → Evolving (transition_order P id to)
  unfolding transition_order
  transition_order-Evolving id to = record {
    always = λ w. (transition_order_seeing-Evolving w.db.orders id to).always w;
  }
