-- ===== src/Messaging/Inbox/AtMostOnce.antt =====
-- Deliveries of a message that were seen before, race each other, or fail
-- (src/modules/messaging/inbox/inbox.service.ts).
use order_lifecycle_backend.Prelude.{
  ℕ, ◌≡◌, ◌≢◌, refl, true, false, none, some, List, [], ◌∷◌, ◌++◌, arith,
}
use order_lifecycle_backend.Entities.{
  Consumer, inventory, payment, completion, email, ProcessedMessage,
}
use order_lifecycle_backend.World.{World, M, ok, err, Failure, inbox_duplicate}
use order_lifecycle_backend.Messaging.Inbox.{
  is_processed, processed_message, insert_processed, run_once_seeing, run_once, same_consumer,
}

pub same_consumer_refl : (c : Consumer) → same_consumer c c ≡ true
same_consumer_refl inventory = refl
same_consumer_refl payment = refl
same_consumer_refl completion = refl
same_consumer_refl email = refl

is_processed-insert :
    (id : ℕ) (c : Consumer) (ms : List ProcessedMessage)
    → is_processed id c (ms ++ processed_message id c ∷ []) ≡ true
is_processed-insert id c [] = ground (arith, same_consumer_refl c)
is_processed-insert id c (m ∷ ms) = ground (arith, is_processed-insert id c ms)

module _ {A : Type 0} (id : ℕ) (c : Consumer) (work : M A) where
  -- A redelivery of a message whose record is in the inbox skips: no work is run, and nothing
  -- changes.
  pub run_once_redelivered :
      (w : World) → is_processed id c w.db.inbox ≡ true → run_once id c work w ≡ (ok none, w)
  unfolding run_once run_once_seeing insert_processed
  run_once_redelivered w h = ground arith

  -- A delivery that loses the race: it has read no record, and when its work is done the record
  -- is there. Whatever the work has written is rolled back, and the message counts as handled.
  pub run_once_lost_race :
      (seen : List ProcessedMessage) (w w' : World) (a : A)
      → is_processed id c seen ≡ false
      → work w ≡ (ok a, w')
      → is_processed id c w'.db.inbox ≡ true
      → run_once_seeing seen id c work w ≡ (ok none, record w' { db = w.db })
  unfolding run_once_seeing insert_processed
  run_once_lost_race seen w w' a fresh done taken = ground arith

  -- A delivery whose work throws leaves the tables as they were and throws the error on, so that
  -- the message is retried; only the inbox's own duplicate counts as handled.
  pub run_once_failed :
      (w w' : World) (e : Failure)
      → is_processed id c w.db.inbox ≡ false
      → work w ≡ (err e, w')
      → e ≢ inbox_duplicate
      → run_once id c work w ≡ (err e, record w' { db = w.db })
  unfolding run_once run_once_seeing insert_processed
  run_once_failed w w' e fresh threw other = ground arith

  pub run_once-recorded :
      (w w' : World) (a : A)
      → run_once id c work w ≡ (ok (some a), w')
      → is_processed id c w'.db.inbox ≡ true
  unfolding run_once run_once_seeing insert_processed
  run_once-recorded w w' a e = ground (arith, is_processed-insert id c (work w).1.db.inbox)

  -- Once a delivery has run its work, every later delivery of the message to this consumer skips
  -- and changes nothing, whatever its work is.
  pub run_once_twice :
      {B : Type 0} (again : M B) (w w' : World) (a : A)
      → run_once id c work w ≡ (ok (some a), w')
      → run_once id c again w' ≡ (ok none, w')
  unfolding run_once run_once_seeing insert_processed
  run_once_twice again w w' a e = ground (arith, run_once-recorded w w' a e)
