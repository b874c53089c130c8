-- ===== src/Messaging/Relay/Draining.antt =====
-- The rows and the broker's log around a drain of the outbox
-- (src/modules/messaging/outbox/outbox-relay.service.ts).
use order_lifecycle_backend.Prelude.{
  ℕ, ◌≡◌, ◌⊎◌, Bool, true, false, List, [], ◌∷◌, arith, ◌==◌, if◌then◌else◌,
}
use order_lifecycle_backend.Entities.{OutboxMessage}
use order_lifecycle_backend.Messaging.Relay.{
  is_unpublished, claim_batch, Broker, publish_batch, mem_id, mark_published, drain_once,
}

-- A message with the id is in the broker's log.
abbrev pub delivered : ℕ → List OutboxMessage → Bool
delivered i [] = false
delivered i (m ∷ ms) = if m.id == i then true else delivered i ms

module _ (accepts : Broker) where
  publish_batch-keeps :
      (log batch : List OutboxMessage) (i : ℕ)
      → delivered i log ≡ true
      → delivered i (publish_batch accepts log batch).0 ≡ true
  unfolding publish_batch
  publish_batch-keeps log [] i h = h
  publish_batch-keeps log (m ∷ ms) i h =
      ground (arith, publish_batch-keeps (m ∷ log) ms i, publish_batch-keeps log ms i)

  -- Every id that is to be marked was accepted by the broker.
  publish_batch-delivers :
      (log batch : List OutboxMessage) (i : ℕ)
      → mem_id (publish_batch accepts log batch).1 i ≡ true
      → delivered i (publish_batch accepts log batch).0 ≡ true
  unfolding publish_batch
  publish_batch-delivers log [] i h = cc
  publish_batch-delivers log (m ∷ ms) i h = ground (
    arith,
    publish_batch-delivers (m ∷ log) ms i,
    publish_batch-delivers log ms i,
    publish_batch-keeps (m ∷ log) ms i,
  )

-- Every published row's message is in the broker's log.
abbrev pub IsBacked : List OutboxMessage → List OutboxMessage → Type 0
IsBacked log [] = Unit
IsBacked log (m ∷ ms) = ((is_unpublished m ≡ true) ⊎ (delivered m.id log ≡ true)) × IsBacked log ms

mark-IsBacked :
    (log log' : List OutboxMessage) (ids : List ℕ) (now : ℕ) (rows : List OutboxMessage)
    → ((i : ℕ) → delivered i log ≡ true → delivered i log' ≡ true)
    → ((i : ℕ) → mem_id ids i ≡ true → delivered i log' ≡ true)
    → IsBacked log rows
    → IsBacked log' (mark_published ids now rows)
unfolding mark_published
mark-IsBacked log log' ids now [] keeps sent b = tt
mark-IsBacked log log' ids now (m ∷ ms) keeps sent b =
    ground (arith, keeps m.id, sent m.id, mark-IsBacked log log' ids now ms keeps sent b.1)

-- At-least-once delivery: a drain marks a row as published only when the broker has accepted its
-- message, whichever messages the broker refuses and whichever rows are locked.
pub drain_once-IsBacked :
    (accepts : Broker) (locked : ℕ → Bool) (now : ℕ) (rows log : List OutboxMessage)
    → IsBacked log rows
    → let d = drain_once accepts locked now rows log in IsBacked d.log d.rows
unfolding drain_once
drain_once-IsBacked accepts locked now rows log b =
    mark-IsBacked log _ _ now rows (publish_batch-keeps accepts log (claim_batch locked rows))
      (publish_batch-delivers accepts log (claim_batch locked rows)) b
