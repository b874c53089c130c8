-- ===== src/Orders/StateMachine/Lifecycle.antt =====
-- The diagram of the order lifecycle, and that `is_transition_allowed` and `is_terminal_status`
-- decide it.
use order_lifecycle_backend.Prelude.{ℕ, suc, ◌+◌, ◌<◌, ◌≤◌, ◌≡◌, refl, ◌↔◌, true, arith}
use order_lifecycle_backend.Entities.{
  OrderStatus, pending, reserved, paid, completed, failed, cancelled,
}
use order_lifecycle_backend.Orders.StateMachine.{is_transition_allowed, is_terminal_status}

-- The documented transitions, one constructor each.
infix 40 ◌⟶◌ ◌⟶*◌
pub data ◌⟶◌ : OrderStatus → OrderStatus → Type 0 where
  reserve : pending ⟶ reserved
  run_short : pending ⟶ failed
  drop_pending : pending ⟶ cancelled
  pay : reserved ⟶ paid
  decline : reserved ⟶ failed
  drop_reserved : reserved ⟶ cancelled
  complete : paid ⟶ completed

-- A history of an order's status.
pub data ◌⟶*◌ : OrderStatus → OrderStatus → Type 0 where
  here : {s : OrderStatus} → s ⟶* s
  next : {s t u : OrderStatus} → s ⟶ t → t ⟶* u → s ⟶* u

pub ruleset edges = (reserve, run_short, drop_pending, pay, decline, drop_reserved, complete)

-- `isTransitionAllowed` accepts exactly the documented transitions.
pub is_transition_allowed_iff : (s t : OrderStatus) → (is_transition_allowed s t ≡ true) ↔ (s ⟶ t)
unfolding is_transition_allowed
is_transition_allowed_iff s t = (sound s t, complete_ s t)
  where
    sound : (s t : OrderStatus) → is_transition_allowed s t ≡ true → s ⟶ t
    sound pending reserved h = reserve
    sound pending failed h = run_short
    sound pending cancelled h = drop_pending
    sound reserved paid h = pay
    sound reserved failed h = decline
    sound reserved cancelled h = drop_reserved
    sound paid completed h = complete
    sound _ _ h = cc

    complete_ : (s t : OrderStatus) → s ⟶ t → is_transition_allowed s t ≡ true
    complete_ s t reserve = refl
    complete_ s t run_short = refl
    complete_ s t drop_pending = refl
    complete_ s t pay = refl
    complete_ s t decline = refl
    complete_ s t drop_reserved = refl
    complete_ s t complete = refl

-- A terminal order never changes again: every history from it stays where it is.
pub terminal_absorbs : {s t : OrderStatus} → s ⟶* t → is_terminal_status s ≡ true → t ≡ s
unfolding is_terminal_status
terminal_absorbs here h = refl
terminal_absorbs (next reserve r) h = cc
terminal_absorbs (next run_short r) h = cc
terminal_absorbs (next drop_pending r) h = cc
terminal_absorbs (next pay r) h = cc
terminal_absorbs (next decline r) h = cc
terminal_absorbs (next drop_reserved r) h = cc
terminal_absorbs (next complete r) h = cc

-- How far along the lifecycle a status is.
abbrev pub rank : OrderStatus → ℕ
rank pending = 0
rank reserved = 1
rank paid = 2
rank completed = 3
rank failed = 3
rank cancelled = 3

pub rank-⟶ : {s t : OrderStatus} → s ⟶ t → rank s < rank t
rank-⟶ reserve = omega arith
rank-⟶ run_short = omega arith
rank-⟶ drop_pending = omega arith
rank-⟶ pay = omega arith
rank-⟶ decline = omega arith
rank-⟶ drop_reserved = omega arith
rank-⟶ complete = omega arith

abbrev pub steps : {s t : OrderStatus} → s ⟶* t → ℕ
steps here = 0
steps (next _ r) = suc (steps r)

-- Every history has at most three transitions, so no order runs through the lifecycle for ever.
pub steps_bounded : {s t : OrderStatus} (r : s ⟶* t) → steps r + rank s ≤ 3
steps_bounded {s = pending} here = omega arith
steps_bounded {s = reserved} here = omega arith
steps_bounded {s = paid} here = omega arith
steps_bounded {s = completed} here = omega arith
steps_bounded {s = failed} here = omega arith
steps_bounded {s = cancelled} here = omega arith
steps_bounded (next e r) = omega (arith, rank-⟶ e, steps_bounded r)
