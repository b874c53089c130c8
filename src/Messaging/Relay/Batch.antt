-- ===== src/Messaging/Relay/Batch.antt =====
-- The batch that a tick claims, the ids that it marks, and the rows that still wait
-- (src/modules/messaging/outbox/outbox-relay.service.ts).
use order_lifecycle_backend.Prelude.{
  ℕ, zero, suc, ◌≤◌, ◌<◌, ◌≡◌, ◌≢◌, refl, ap, ◌∙◌, Bool, true, false, not, ◌&&◌, List, [], ◌∷◌,
  arith, ◌==◌, if◌then◌else◌, select, count_where, length,
}
use order_lifecycle_backend.Entities.{OutboxMessage}
use order_lifecycle_backend.Messaging.Relay.{
  is_unpublished, take, oldest_first, insert_oldest, Broker, publish_batch, mem_id, mark_published,
}

-- A row that a tick may claim.
abbrev pub is_claimable : (ℕ → Bool) → OutboxMessage → Bool
is_claimable locked m = is_unpublished m && not (locked m.id)

-- How many rows wait for the relay.
abbrev pub backlog : (ℕ → Bool) → List OutboxMessage → ℕ
backlog locked rows = count_where (is_claimable locked) rows

-- Nothing that the broker refuses is marked, and its log stays.
pub refused_batch :
    (accepts : Broker) (log batch : List OutboxMessage)
    → ((m : OutboxMessage) → accepts log m ≡ false)
    → publish_batch accepts log batch ≡ (log, [])
unfolding publish_batch
refused_batch accepts log [] h = refl
refused_batch accepts log (m ∷ ms) h = rw (h m) (refused_batch accepts log ms h)

pub mark_none : (now : ℕ) (rows : List OutboxMessage) → mark_published [] now rows ≡ rows
unfolding mark_published
mark_none now [] = refl
mark_none now (m ∷ ms) = ap (λ r. m ∷ r) (mark_none now ms)

-- A row with the id that satisfies the test.
abbrev pub has : (OutboxMessage → Bool) → ℕ → List OutboxMessage → Bool
has p i [] = false
has p i (m ∷ ms) = if (m.id == i) && p m then true else has p i ms

abbrev pub everything : OutboxMessage → Bool
everything _ = true

has-insert :
    (i : ℕ) (m : OutboxMessage) (ms : List OutboxMessage)
    → has everything i (insert_oldest m ms) ≡ has everything i (m ∷ ms)
has-insert i m [] = refl
has-insert i m (n ∷ ns) = ground (arith, has-insert i m ns)

pub has-oldest_first :
    (i : ℕ) (ms : List OutboxMessage) → has everything i (oldest_first ms) ≡ has everything i ms
has-oldest_first i [] = refl
has-oldest_first i (m ∷ ms) =
    has-insert i m (oldest_first ms) ∙ ground (arith, has-oldest_first i ms)

pub has-select :
    (p : OutboxMessage → Bool) (i : ℕ) (ms : List OutboxMessage)
    → has everything i (select p ms) ≡ has p i ms
has-select p i [] = refl
has-select p i (m ∷ ms) = ground (arith, has-select p i ms)

length-insert :
    (m : OutboxMessage) (ms : List OutboxMessage) → length (insert_oldest m ms) ≡ suc (length ms)
length-insert m [] = refl
length-insert m (n ∷ ns) = ground (arith, length-insert m ns)

pub length-oldest_first : (ms : List OutboxMessage) → length (oldest_first ms) ≡ length ms
length-oldest_first [] = refl
length-oldest_first (m ∷ ms) = length-insert m (oldest_first ms) ∙ ap suc (length-oldest_first ms)

length-select :
    (p : OutboxMessage → Bool) (ms : List OutboxMessage) → length (select p ms) ≡ count_where p ms
length-select p [] = refl
length-select p (m ∷ ms) = ground (arith, length-select p ms)

pub take-short : (n : ℕ) (ms : List OutboxMessage) → length (take n ms) ≢ n → take n ms ≡ ms
take-short zero ms h = absurd (h refl)
take-short (suc n) [] h = refl
take-short (suc n) (m ∷ ms) h = ap (λ r. m ∷ r) (take-short n ms (omega arith))

pub has-take :
    (n i : ℕ) (ms : List OutboxMessage)
    → has everything i (take n ms) ≡ true
    → has everything i ms ≡ true
has-take zero i ms h = cc
has-take (suc n) i [] h = h
has-take (suc n) i (m ∷ ms) h = ground (arith, has-take n i ms)

-- What a willing broker is sent is marked.
pub accepted_batch :
    (accepts : Broker) (log batch : List OutboxMessage) (i : ℕ)
    → ((l : List OutboxMessage) (m : OutboxMessage) → accepts l m ≡ true)
    → mem_id (publish_batch accepts log batch).1 i ≡ has everything i batch
unfolding publish_batch
accepted_batch accepts log [] i h = refl
accepted_batch accepts log (m ∷ ms) i h =
    rw (h log m) (ground (arith, accepted_batch accepts (m ∷ log) ms i h))

module _ (locked : ℕ → Bool) (now : ℕ) (ids : List ℕ) where
  backlog-mark_le :
      (rows : List OutboxMessage)
      → backlog locked (mark_published ids now rows) ≤ backlog locked rows
  unfolding mark_published
  backlog-mark_le [] = omega arith
  backlog-mark_le (m ∷ ms) = ground (arith, backlog-mark_le ms)

  pub backlog-mark_lt :
      (i : ℕ) (rows : List OutboxMessage)
      → mem_id ids i ≡ true
      → has (is_claimable locked) i rows ≡ true
      → backlog locked (mark_published ids now rows) < backlog locked rows
  unfolding mark_published
  backlog-mark_lt i [] marked h = cc
  backlog-mark_lt i (m ∷ ms) marked h =
      ground (arith, backlog-mark_le ms, backlog-mark_lt i ms marked)

  pub backlog-mark_all :
      (rows : List OutboxMessage)
      → ((i : ℕ) → has (is_claimable locked) i rows ≡ true → mem_id ids i ≡ true)
      → backlog locked (mark_published ids now rows) ≡ 0
  unfolding mark_published
  backlog-mark_all [] h = refl
  backlog-mark_all (m ∷ ms) h =
      ground (arith, h m.id, backlog-mark_all ms (λ i e. h i (ground arith)))
