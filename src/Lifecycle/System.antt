-- ===== src/Lifecycle/System.antt =====
-- The order service as a whole: requests, deliveries and the second halves of calls whose first
-- half has read an order or the inbox some time ago, in any sequence.
use order_lifecycle_backend.Prelude.{
  ap, refl, ℕ, ◌≡◌, true, Option, none, some, List, [], ◌∷◌, find_by,
}
use order_lifecycle_backend.Entities.{
  Order, OrderStatus, Consumer, ProcessedMessage, OrderCreatedEvent, OrderEvent, inventory, payment,
  completion,
}
use order_lifecycle_backend.World.{◌>>=◌, Result, Platform, World, M, ok, RedisKey, del}
use order_lifecycle_backend.Orders.StateMachine.{is_terminal_status}
use order_lifecycle_backend.Orders.StateMachine.Lifecycle.{terminal_absorbs}
use order_lifecycle_backend.Orders.Rows.{order_id}
use order_lifecycle_backend.Orders.Evolution.{Keeps, Evolves-refl, find_by-Evolves}
use order_lifecycle_backend.Orders.Reading.{get_order_for_user, list_orders_for_user}
use order_lifecycle_backend.Orders.Creation.{OrderLine, create_order}
use order_lifecycle_backend.Orders.Transition.{apply_transition}
use order_lifecycle_backend.Orders.PaymentClaim.{confirm_payment, initiate_payment}
use order_lifecycle_backend.Orders.Cancellation.{cancel_read_order, cancel_order}
use order_lifecycle_backend.Messaging.EventOnce.{process_event_once, skipped}
use order_lifecycle_backend.Messaging.Inbox.{run_once_seeing, run_once}
use order_lifecycle_backend.Messaging.Inbox.AtMostOnce.{run_once_redelivered, run_once-recorded}
use order_lifecycle_backend.Inventory.{reserve_work, reserve}
use order_lifecycle_backend.Payment.Gateway.{Provider, PaymentResult}
use order_lifecycle_backend.Payment.Consumer.{advance_paid, authorize_and_advance}
use order_lifecycle_backend.Completion.{complete_work, complete}
use order_lifecycle_backend.Email.{TerminalEvent, notify}
use order_lifecycle_backend.Messaging.Outbox.Tracing.{IsTraced-same}
use order_lifecycle_backend.Orders.Coherence.{IsSound, soundly, Evolving-Sound}
use order_lifecycle_backend.Cart.{
  OpenCart, get_open_cart, set_item, remove_item, check_out_read, checkout,
}
use order_lifecycle_backend.Lifecycle.Carts.{
  get_open_cart-Evolving, set_item-Evolving, remove_item-Evolving, check_out_read-Evolving,
  checkout-Evolving,
}
use order_lifecycle_backend.Lifecycle.Reads.{get_order_for_user-Sound}
use order_lifecycle_backend.Lifecycle.Services.{
  list_orders_for_user-Evolving, apply_transition-Evolving,
}
use order_lifecycle_backend.Lifecycle.Calls.{
  create_order-Evolving, confirm_payment-Evolving, initiate_payment-Sound,
  cancel_read_order-Evolving, cancel_order-Sound,
}
use order_lifecycle_backend.Lifecycle.Deliveries.{run_once_seeing-Evolving}
use order_lifecycle_backend.Lifecycle.Consumers.{
  reserve_work-Evolving, reserve-Evolving, advance_paid-Evolving, authorize_and_advance-Evolving,
  complete_work-Evolving, complete-Evolving, notify-Evolving,
}

pub data Call : Type 0 where
  -- a user's requests
  getting cancelling initiating : (order_id user_id : ℕ) → Call
  listing : (user_id : ℕ) → Call
  creating : (user_id : ℕ) → List OrderLine → Call
  opening checking_out : (user_id : ℕ) → Call
  setting : (user_id product_id quantity : ℕ) → Call
  removing : (user_id product_id : ℕ) → Call
  -- the deliveries of a message, with its `messageId`
  reserving : Option ℕ → OrderCreatedEvent → Call
  authorizing : Option ℕ → OrderEvent → Call
  completing : Option ℕ → OrderEvent → Call
  notifying : Option ℕ → TerminalEvent → Call
  -- second halves, on an order or on inbox rows that were read earlier
  cancelling_read confirming_read : ℕ → Order → Call
  checking_out_read : (user_id : ℕ) → OpenCart → Call
  moving_read : ℕ → OrderStatus → Order → Call
  reserving_seen : List ProcessedMessage → ℕ → OrderCreatedEvent → Call
  advancing_seen : List ProcessedMessage → ℕ → OrderEvent → PaymentResult → Call
  completing_seen : List ProcessedMessage → ℕ → OrderEvent → Call
  -- what happens outside: time passes, and keys are deleted in Redis
  elapsing : (now : ℕ) → List RedisKey → Call

module _ (P : Platform) (provider : Provider) where
  -- The state after a call, whether it has returned or thrown.
  unfoldable pub step : Call → World → World
  step (getting id user_id) w = (get_order_for_user P id user_id w).1
  step (cancelling id user_id) w = (cancel_order P id user_id w).1
  step (initiating id user_id) w = (initiate_payment P id user_id w).1
  step (listing user_id) w = (list_orders_for_user P user_id w).1
  step (creating user_id lines) w = (create_order P user_id lines w).1
  step (opening user_id) w = (get_open_cart P user_id w).1
  step (setting user_id product_id quantity) w = (set_item P user_id product_id quantity w).1
  step (removing user_id product_id) w = (remove_item P user_id product_id w).1
  step (checking_out user_id) w = (checkout P user_id w).1
  step (checking_out_read user_id open_) w = (check_out_read P user_id open_ w).1
  step (reserving message event) w = (reserve P message event w).1
  step (authorizing message event) w = (authorize_and_advance P provider message event w).1
  step (completing message event) w = (complete P message event w).1
  step (notifying message event) w = (notify message event w).1
  step (cancelling_read id order) w = (cancel_read_order P id order w).1
  step (confirming_read id order) w = (confirm_payment P id order w).1
  step (moving_read id to order) w = (apply_transition P id to order w).1
  step (reserving_seen seen message event) w =
      (run_once_seeing seen message inventory (reserve_work P event) w).1
  step (advancing_seen seen message event result) w =
      (run_once_seeing seen message payment (advance_paid P event result) w).1
  step (completing_seen seen message event) w =
      (run_once_seeing seen message completion (complete_work P event) w).1
  step (elapsing now keys) w = record w { now = now; redis = del keys ∷ w.redis }

  unfoldable pub run : List Call → World → World
  run [] w = w
  run (c ∷ cs) w = run cs (step c w)

  pub step-IsSound : (c : Call) (w : World) → IsSound w (step c w)
  unfolding step
  step-IsSound (getting id u) w = (get_order_for_user-Sound P id u).always w
  step-IsSound (cancelling id u) w = (cancel_order-Sound P id u).always w
  step-IsSound (initiating id u) w = (initiate_payment-Sound P id u).always w
  step-IsSound (listing u) w = (Evolving-Sound _ (list_orders_for_user-Evolving P u)).always w
  step-IsSound (creating u lines) w = (Evolving-Sound _ (create_order-Evolving P u lines)).always w
  step-IsSound (opening u) w = (Evolving-Sound _ (get_open_cart-Evolving P u)).always w
  step-IsSound (setting u p q) w = (Evolving-Sound _ (set_item-Evolving P u p q)).always w
  step-IsSound (removing u p) w = (Evolving-Sound _ (remove_item-Evolving P u p)).always w
  step-IsSound (checking_out u) w = (Evolving-Sound _ (checkout-Evolving P u)).always w
  step-IsSound (checking_out_read u c) w =
      (Evolving-Sound _ (check_out_read-Evolving P u c)).always w
  step-IsSound (reserving m e) w = (Evolving-Sound _ (reserve-Evolving P m e)).always w
  step-IsSound (authorizing m e) w =
      (Evolving-Sound _ (authorize_and_advance-Evolving P provider m e)).always w
  step-IsSound (completing m e) w = (Evolving-Sound _ (complete-Evolving P m e)).always w
  step-IsSound (notifying m e) w = (Evolving-Sound _ (notify-Evolving m e)).always w
  step-IsSound (cancelling_read id o) w =
      (Evolving-Sound _ (cancel_read_order-Evolving P id o)).always w
  step-IsSound (confirming_read id o) w =
      (Evolving-Sound _ (confirm_payment-Evolving P id o)).always w
  step-IsSound (moving_read id to o) w =
      (Evolving-Sound _ (apply_transition-Evolving P id to o)).always w
  step-IsSound (reserving_seen seen m e) w =
      (Evolving-Sound _
          (run_once_seeing-Evolving seen m inventory _ (reserve_work-Evolving P e))).always
        w
  step-IsSound (advancing_seen seen m e r) w =
      (Evolving-Sound _
          (run_once_seeing-Evolving seen m payment _ (advance_paid-Evolving P e r))).always
        w
  step-IsSound (completing_seen seen m e) w =
      (Evolving-Sound _
          (run_once_seeing-Evolving seen m completion _ (complete_work-Evolving P e))).always
        w
  step-IsSound (elapsing now keys) w = record {
    evolves = Evolves-refl w.db.orders;
    handled = λ i c h. h;
    coherent = λ h. h;
    traces = IsTraced-same w _ refl refl;
    lists = λ h. h;
  }

  pub run-IsSound : (cs : List Call) (w : World) → IsSound w (run cs w)
  unfolding run
  run-IsSound [] w = soundly.same w
  run-IsSound (c ∷ cs) w =
      soundly.join w (step c w) _ (step-IsSound c w) (run-IsSound cs (step c w))

  -- After any sequence of calls, each order that was there is still there, under its owner and
  -- creation time, with a status that the lifecycle's transitions lead to, with a confirmation of
  -- its payment untouched if it had one, and wholly unchanged if its status was terminal.
  pub run-Keeps :
      (cs : List Call) (w : World) (i : ℕ) (o : Order)
      → find_by order_id i w.db.orders ≡ some o
      → (o' : Order) × (find_by order_id i (run cs w).db.orders ≡ some o') × Keeps o o'
  run-Keeps cs w i o e = find_by-Evolves (run-IsSound cs w).evolves i o e

  -- An order in a terminal status has that status after any sequence of calls.
  pub run_terminal :
      (cs : List Call) (w : World) (i : ℕ) (o : Order)
      → find_by order_id i w.db.orders ≡ some o
      → is_terminal_status o.status ≡ true
      → (o' : Order) × (find_by order_id i (run cs w).db.orders ≡ some o') × (o'.status ≡ o.status)
  run_terminal cs w i o e terminal =
      let (o', e', keeps) = run-Keeps cs w i o e in
      (o', e', terminal_absorbs keeps.history terminal)

  -- Once `runOnce` has run a consumer's work for a message, every later `runOnce` for the message
  -- and that consumer, whatever has been called in between and whatever its work is, runs no work
  -- and changes nothing. So a later `processEventOnce` is skipped, and leaves every table as it is;
  -- it only counts the delivery. What a consumer does before `runOnce` is not in the statement.
  pub run_once_ever :
      {A B : Type 0} (id : ℕ) (consumer : Consumer) (work : M A) (w w' : World) (a : A)
      → run_once id consumer work w ≡ (ok (some a), w')
      → (cs : List Call) (again : M B)
      → (run_once id consumer again (run cs w') ≡ (ok none, run cs w'))
        × ((process_event_once (some id) consumer again (run cs w')).0 ≡ ok skipped)
        × ((process_event_once (some id) consumer again (run cs w')).1.db ≡ (run cs w').db)
  unfolding process_event_once
  run_once_ever {A} {B} id consumer work w w' a e cs again =
      let skips : run_once id consumer again (run cs w') ≡ (ok none, run cs w') =
        run_once_redelivered id consumer again (run cs w')
          ((run-IsSound cs w').handled id consumer (run_once-recorded id consumer work w w' a e)) in
      (
        skips,
        rw (skips, ◌>>=◌) refl,
        rw (skips, ◌>>=◌) (ap (λ (r : Result (Option B) × World). r.1.db) skips),
      )
