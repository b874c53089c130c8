-- ===== src/Messaging/Inbox.antt =====
-- The idempotency guard of the consumers (src/modules/messaging/inbox/inbox.service.ts).
pub mod AtMostOnce
use order_lifecycle_backend.Prelude.{
  ℕ, Bool, true, false, ◌&&◌, Option, none, some, List, [], ◌∷◌, ◌++◌, ◌==◌, if◌then◌else◌,
}
use order_lifecycle_backend.Entities.{
  Consumer, inventory, payment, completion, email, ProcessedMessage,
}
use order_lifecycle_backend.World.{
  World, M, ok, err, pure, throw, Failure, inbox_duplicate, modify_db, transaction, catch_error,
  ◌>>=◌, ◌>>◌,
}

abbrev pub same_consumer : Consumer → Consumer → Bool
same_consumer inventory inventory = true
same_consumer payment payment = true
same_consumer completion completion = true
same_consumer email email = true
same_consumer _ _ = false

abbrev pub is_processed : ℕ → Consumer → List ProcessedMessage → Bool
is_processed id consumer [] = false
is_processed id consumer (m ∷ ms) =
    if (m.message_id == id) && same_consumer m.consumer consumer
    then true
    else is_processed id consumer ms

abbrev pub processed_message : ℕ → Consumer → ProcessedMessage
processed_message id consumer = record { message_id = id; consumer = consumer }

-- `manager.insert(ProcessedMessageEntity, ...)`: the composite primary key refuses a duplicate.
unfoldable pub insert_processed : ℕ → Consumer → M (Unit {0})
insert_processed id consumer w =
    if is_processed id consumer w.db.inbox then (err inbox_duplicate, w) else (
      ok tt,
      record w { db = record (w.db) { inbox = w.db.inbox ++ processed_message id consumer ∷ [] } },
    )

module _ {A : Type 0} where
  -- `isInboxDuplicate(error)` means that the work is done; any other error is thrown on.
  abbrev pub on_error : Failure → M (Option A)
  on_error inbox_duplicate = pure none
  on_error e = throw e

  abbrev pub once_body : Bool → ℕ → Consumer → M A → M (Option A)
  once_body true id consumer work = pure none
  once_body false id consumer work = do a ← work; insert_processed id consumer; pure (some a)

  -- `runOnce`, where `seen` are the inbox rows that its first statement read; a concurrent
  -- delivery may have committed more since. The result is what the work has left in its caller's
  -- variables if it ran, and none (the code's `false`) if the message was already processed.
  unfoldable pub run_once_seeing : List ProcessedMessage → ℕ → Consumer → M A → M (Option A)
  run_once_seeing seen id consumer work =
      catch_error (transaction (once_body (is_processed id consumer seen) id consumer work))
        on_error

  -- `runOnce`, undisturbed
  unfoldable pub run_once : ℕ → Consumer → M A → M (Option A)
  run_once id consumer work w = run_once_seeing w.db.inbox id consumer work w
