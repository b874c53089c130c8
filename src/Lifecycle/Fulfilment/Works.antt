-- ===== src/Lifecycle/Fulfilment/Works.antt =====
-- What the confirmation and the works of the consumers do to an order that is due
-- (src/modules/orders/services/orders.service.ts, and the consumers of payment and completion).
use order_lifecycle_backend.Prelude.{
  ℕ, suc, ◌≡◌, refl, true, false, Option, none, some, List, [], ◌∷◌, ◌++◌, arith, find_by,
  find_by-update_self, count-found,
}
use order_lifecycle_backend.Entities.{
  Order, OrderEvent, OrderStatus, Consumer, ProcessedMessage, reserved, paid, completed, RoutingKey,
  Payload, order_event, payment_processed, inventory_reserved,
}
use order_lifecycle_backend.World.{Platform, World, M, ok, order_key}
use order_lifecycle_backend.Cache.FailOpen.{del_keys-Harmless}
use order_lifecycle_backend.Messaging.Inbox.{
  is_processed, processed_message, insert_processed, run_once, run_once_seeing, same_consumer,
}
use order_lifecycle_backend.Messaging.Outbox.{enqueue, correlation_or_random}
use order_lifecycle_backend.Orders.StateMachine.{is_transition_allowed}
use order_lifecycle_backend.Orders.Rows.{
  order_id, set_status, set_payment_initiated, is_payable, has_status,
}
use order_lifecycle_backend.Orders.Transition.{transition_order}
use order_lifecycle_backend.Orders.Transition.Cas.{transition_order-moves}
use order_lifecycle_backend.Orders.PaymentClaim.{
  confirm_payment, claim_payment, claim_and_enqueue, event_of,
}
use order_lifecycle_backend.Payment.Gateway.{
  Provider, PaymentResult, authorize, ledger_key, claim, charge_and_record, record_decision,
}
use order_lifecycle_backend.Payment.Consumer.{advance_paid}
use order_lifecycle_backend.Completion.{complete_work}

-- Neither the stock nor the charges have changed.
abbrev pub SameSales : World → World → Type 0
SameSales w w' = (w'.db.products ≡ w.db.products) × (w'.charges ≡ w.charges)

-- The first delivery of a message runs its work, and records it.
pub run_once-fresh :
    {A : Type 0} (id : ℕ) (c : Consumer) (work : M A) (w : World) (a : A)
    → is_processed id c w.db.inbox ≡ false
    → (work w).0 ≡ ok a
    → (work w).1.db.inbox ≡ w.db.inbox
    → ((run_once id c work w).0 ≡ ok (some a))
      × ((run_once id c work w).1.db.orders ≡ (work w).1.db.orders)
      × ((run_once id c work w).1.db.authorizations ≡ (work w).1.db.authorizations)
      × ((run_once id c work w).1.db.inbox ≡ w.db.inbox ++ processed_message id c ∷ [])
      × SameSales (work w).1 (run_once id c work w).1
unfolding run_once run_once_seeing insert_processed
run_once-fresh id c work w a fresh done same = ground arith

allowed_complete : (s : OrderStatus) → s ≡ paid → is_transition_allowed s completed ≡ true
unfolding is_transition_allowed
allowed_complete s h = rw h

allowed_pay : (s : OrderStatus) → s ≡ reserved → is_transition_allowed s paid ≡ true
unfolding is_transition_allowed
allowed_pay s h = rw h

payable : (o : Order) → o.status ≡ reserved → o.payment_initiated_at ≡ none → is_payable o ≡ true
payable o h k = rw (h, k) refl

same_reserved : (o : Order) → o.status ≡ reserved → has_status reserved o ≡ true
same_reserved o h = rw h refl

abbrev completed_payload : OrderEvent → ℕ → Payload
completed_payload event now =
    order_event (record { order_id = event.order_id; user_id = event.user_id; occurred_at = now })

-- What one consumer records is nothing to another.
pub is_processed-other :
    (id id' : ℕ) (c c' : Consumer) (ms : List ProcessedMessage)
    → same_consumer c' c ≡ false
    → is_processed id c ms ≡ false
    → is_processed id c (ms ++ processed_message id' c' ∷ []) ≡ false
is_processed-other id id' c c' [] h k = rw h (ground arith)
is_processed-other id id' c c' (m ∷ ms) h k = ground (arith, is_processed-other id id' c c' ms h)

module _ (P : Platform) where
  correlation-aside :
      (c : Option ℕ) (w : World)
      → (id : ℕ) × ((correlation_or_random P c w).0 ≡ ok id)
        × ((correlation_or_random P c w).1.db ≡ w.db)
        × ((correlation_or_random P c w).1.now ≡ w.now)
        × ((correlation_or_random P c w).1.charges ≡ w.charges)
  correlation-aside none w = (P.random_uuid w.drawn, refl, refl, refl, refl)
  correlation-aside (some c) w = (c, refl, refl, refl, refl)

  enqueue-aside :
      (key : RoutingKey) (payload : Payload) (w : World)
      → ((enqueue P key payload w).0 ≡ ok tt)
        × ((enqueue P key payload w).1.db.orders ≡ w.db.orders)
        × ((enqueue P key payload w).1.db.authorizations ≡ w.db.authorizations)
        × ((enqueue P key payload w).1.db.inbox ≡ w.db.inbox)
        × SameSales w (enqueue P key payload w).1
  unfolding enqueue
  enqueue-aside key payload w =
      ground (arith, correlation-aside w.correlation (record w { drawn = suc w.drawn }))

  pub complete_work-completes :
      (event : OrderEvent) (w : World) (o : Order)
      → find_by order_id event.order_id w.db.orders ≡ some o
      → o.status ≡ paid
      → ((complete_work P event w).0 ≡ ok tt)
        × (find_by order_id event.order_id (complete_work P event w).1.db.orders
            ≡ some (set_status completed w.now o))
        × ((complete_work P event w).1.db.inbox ≡ w.db.inbox)
        × SameSales w (complete_work P event w).1
  unfolding complete_work
  complete_work-completes event w o found stage = ground (
    arith,
    transition_order-moves P event.order_id completed w o found (allowed_complete o.status stage),
    enqueue-aside RoutingKey.completed (completed_payload event w.now)
        (transition_order P event.order_id completed w).1,
  )

  claim_and_enqueue-claims :
      (payload : Payload) (w : World) (o : Order)
      → find_by order_id o.id w.db.orders ≡ some o
      → is_payable o ≡ true
      → ((claim_and_enqueue P o.id payload w).0 ≡ ok true)
        × (find_by order_id o.id (claim_and_enqueue P o.id payload w).1.db.orders
            ≡ some (set_payment_initiated w.now o))
        × ((claim_and_enqueue P o.id payload w).1.db.inbox ≡ w.db.inbox)
        × ((claim_and_enqueue P o.id payload w).1.db.authorizations ≡ w.db.authorizations)
        × SameSales w (claim_and_enqueue P o.id payload w).1
  unfolding claim_and_enqueue claim_payment
  claim_and_enqueue-claims payload w o found open_ = ground (
    arith,
    count-found order_id o.id is_payable w.db.orders o found open_,
    find_by-update_self order_id o.id is_payable (set_payment_initiated w.now) (λ x. refl)
        w.db.orders o found,
    enqueue-aside inventory_reserved payload (claim_payment o.id w).1,
  )

  pub confirm_payment-claims :
      (w : World) (o : Order)
      → find_by order_id o.id w.db.orders ≡ some o
      → o.status ≡ reserved
      → o.payment_initiated_at ≡ none
      → ((x : Order) × ((confirm_payment P o.id o w).0 ≡ ok x))
        × (find_by order_id o.id (confirm_payment P o.id o w).1.db.orders
            ≡ some (set_payment_initiated w.now o))
        × ((confirm_payment P o.id o w).1.db.inbox ≡ w.db.inbox)
        × ((confirm_payment P o.id o w).1.db.authorizations ≡ w.db.authorizations)
        × SameSales w (confirm_payment P o.id o w).1
  unfolding confirm_payment
  confirm_payment-claims w o found stage unpaid =
      let (won, row, inbox, ledger, sales) =
        claim_and_enqueue-claims (event_of o w.now) w o found (payable o stage unpaid) in
      let w' = (claim_and_enqueue P o.id (event_of o w.now) w).1 in
      let kept = del_keys-Harmless P (order_key o.id ∷ []) w' in
      (
        (
          record o { payment_initiated_at = some w'.now },
          ground (arith, won, kept, same_reserved o stage),
        ),
        ground (arith, won, row, kept, same_reserved o stage),
        ground (arith, won, inbox, kept, same_reserved o stage),
        ground (arith, won, ledger, kept, same_reserved o stage),
        (
          ground (arith, won, sales, kept, same_reserved o stage),
          ground (arith, won, sales, kept, same_reserved o stage),
        ),
      )

  pub advance_paid-pays :
      (event : OrderEvent) (result : PaymentResult) (w : World) (o : Order)
      → result.authorized ≡ true
      → find_by order_id event.order_id w.db.orders ≡ some o
      → o.status ≡ reserved
      → ((advance_paid P event result w).0 ≡ ok tt)
        × (find_by order_id event.order_id (advance_paid P event result w).1.db.orders
            ≡ some (set_status paid w.now o))
        × ((advance_paid P event result w).1.db.inbox ≡ w.db.inbox)
        × SameSales w (advance_paid P event result w).1
  unfolding advance_paid
  advance_paid-pays event result w o yes_ found stage = ground (
    arith,
    transition_order-moves P event.order_id paid w o found (allowed_pay o.status stage),
    enqueue-aside payment_processed (completed_payload event w.now)
        (transition_order P event.order_id paid w).1,
  )

pub authorize-aside :
    (provider : Provider) (event : OrderEvent) (w : World)
    → find_by ledger_key event.order_id w.db.authorizations ≡ none
    → ((authorize provider event w).0 ≡ ok (provider event event.order_id))
      × ((authorize provider event w).1.db.orders ≡ w.db.orders)
      × ((authorize provider event w).1.db.inbox ≡ w.db.inbox)
      × ((authorize provider event w).1.now ≡ w.now)
      × ((authorize provider event w).1.db.products ≡ w.db.products)
      × ((authorize provider event w).1.charges ≡ event.order_id ∷ w.charges)
unfolding authorize claim charge_and_record record_decision
authorize-aside provider event w row = rw row (refl, refl, refl, refl, refl, refl)
