-- ===== src/Orders/StateMachine.antt =====
-- The order lifecycle as a finite state machine (src/modules/orders/order-state-machine.ts).
pub mod Lifecycle
use order_lifecycle_backend.Prelude.{Bool, true, false, ◌||◌, List, [], ◌∷◌}
use order_lifecycle_backend.Entities.{
  OrderStatus, pending, reserved, paid, completed, failed, cancelled,
}

-- `===` on two statuses.
abbrev pub same_status : OrderStatus → OrderStatus → Bool
same_status pending pending = true
same_status reserved reserved = true
same_status paid paid = true
same_status completed completed = true
same_status failed failed = true
same_status cancelled cancelled = true
same_status _ _ = false

-- `Array.prototype.includes`
abbrev includes : List OrderStatus → OrderStatus → Bool
includes [] s = false
includes (t ∷ ts) s = same_status t s || includes ts s

abbrev order_transitions : OrderStatus → List OrderStatus
order_transitions pending = reserved ∷ failed ∷ cancelled ∷ []
order_transitions reserved = paid ∷ failed ∷ cancelled ∷ []
order_transitions paid = completed ∷ []
order_transitions completed = []
order_transitions failed = []
order_transitions cancelled = []

-- `isTransitionAllowed`
unfoldable pub is_transition_allowed : OrderStatus → OrderStatus → Bool
is_transition_allowed from to = includes (order_transitions from) to

abbrev is_empty : List OrderStatus → Bool
is_empty [] = true
is_empty (_ ∷ _) = false

-- `isTerminalStatus`
unfoldable pub is_terminal_status : OrderStatus → Bool
is_terminal_status s = is_empty (order_transitions s)
