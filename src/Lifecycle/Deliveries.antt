-- ===== src/Lifecycle/Deliveries.antt =====
-- The inbox and the shared entry point of the consumers (src/modules/messaging/inbox,
-- process-event-once.ts), as actions on the order table.
use order_lifecycle_backend.Prelude.{
  ℕ, arith, ◌≡◌, refl, [], ◌∷◌, ◌++◌, inl, inr, Bool, true, false, Option, none, some, List,
  Bool-cases,
}
use order_lifecycle_backend.Entities.{Consumer, ProcessedMessage}
use order_lifecycle_backend.World.{
  M, Failure, not_found, conflict, insufficient_stock, payment_in_flight, inbox_duplicate,
  unique_violation, type_error, ConsumerOutcome, Metric,
}
use order_lifecycle_backend.Messaging.Inbox.{
  insert_processed, run_once_seeing, run_once, is_processed, processed_message, once_body, on_error,
}
use order_lifecycle_backend.Messaging.EventOnce.{nack, process_event_once, label_of, outcome_of}
use order_lifecycle_backend.World.Always.{
  >>=-Always, >>-Always, pure-Always, throw-Always, catch-Always,
}
use order_lifecycle_backend.Messaging.Outbox.Tracing.{IsTraced-same}
use order_lifecycle_backend.Orders.Evolution.{Evolves-refl}
use order_lifecycle_backend.Orders.Evolving.{
  Evolving, quietly, transaction-Evolving, record_metric-Evolving,
}

is_processed-append :
    (id : ℕ) (c : Consumer) (ms ns : List ProcessedMessage)
    → is_processed id c ms ≡ true
    → is_processed id c (ms ++ ns) ≡ true
is_processed-append id c [] ns h = cc
is_processed-append id c (m ∷ ms) ns h = ground (arith, is_processed-append id c ms ns)

insert_processed-Evolving : (id : ℕ) (c : Consumer) → Evolving (insert_processed id c)
unfolding insert_processed
insert_processed-Evolving id c = record {
  always = λ w. elim (Bool-cases (is_processed id c w.db.inbox)) [
    | inl e ↦ rw e (quietly.same w)
    | inr e ↦ rw e (record {
      evolves = Evolves-refl w.db.orders;
      entries = refl;
      handled = λ i d h. is_processed-append i d w.db.inbox (processed_message id c ∷ []) h;
      traces = IsTraced-same w _ refl refl;
      lists = λ h. h;
    })
  ];
}

module _ {A : Type 0} where
  on_error-Evolving : (e : Failure) → Evolving (on_error {A = A} e)
  on_error-Evolving inbox_duplicate = pure-Always none
  on_error-Evolving not_found = throw-Always not_found
  on_error-Evolving conflict = throw-Always conflict
  on_error-Evolving (insufficient_stock p) = throw-Always (insufficient_stock p)
  on_error-Evolving (payment_in_flight p) = throw-Always (payment_in_flight p)
  on_error-Evolving unique_violation = throw-Always unique_violation
  on_error-Evolving type_error = throw-Always type_error

  once_body-Evolving :
      (b : Bool) (id : ℕ) (c : Consumer) (work : M A)
      → Evolving work
      → Evolving (once_body b id c work)
  once_body-Evolving true id c work h = pure-Always none
  once_body-Evolving false id c work h =
      >>=-Always _ _ h λ a. >>-Always _ _ (insert_processed-Evolving id c) (pure-Always (some a))

  pub run_once_seeing-Evolving :
      (seen : List ProcessedMessage) (id : ℕ) (c : Consumer) (work : M A)
      → Evolving work
      → Evolving (run_once_seeing seen id c work)
  unfolding run_once_seeing
  run_once_seeing-Evolving seen id c work h =
      catch-Always _ _
        (transaction-Evolving _ (once_body-Evolving (is_processed id c seen) id c work h))
        on_error-Evolving

  pub run_once-Evolving :
      (id : ℕ) (c : Consumer) (work : M A) → Evolving work → Evolving (run_once id c work)
  unfolding run_once
  run_once-Evolving id c work h = record {
    always = λ w. (run_once_seeing-Evolving w.db.inbox id c work h).always w;
  }

  pub process_event_once-Evolving :
      (message : Option ℕ) (c : Consumer) (work : M A)
      → Evolving work
      → Evolving (process_event_once message c work)
  unfolding process_event_once
  process_event_once-Evolving none c work h =
      >>-Always _ _ (record_metric-Evolving (Metric.consumer_message c ConsumerOutcome.failed))
        (pure-Always nack)
  process_event_once-Evolving (some id) c work h =
      >>=-Always _ _ (run_once-Evolving id c work h) λ ran.
        >>-Always _ _ (record_metric-Evolving (Metric.consumer_message c (label_of ran)))
          (pure-Always (outcome_of ran))
