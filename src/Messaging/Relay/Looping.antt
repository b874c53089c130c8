-- ===== src/Messaging/Relay/Looping.antt =====
-- The relay's `while` loop (src/modules/messaging/outbox/outbox-relay.service.ts) on a broker that
-- accepts what it is sent, and on one that refuses it.
use order_lifecycle_backend.Prelude.{
  ℕ, zero, suc, ◌<◌, ◌≡◌, ◌≢◌, refl, ap, ◌∙◌, sym, inl, inr, Bool, true, false, none, some, List,
  [], ◌∷◌, arith, ◌==◌, Bool-cases, select, length,
}
use order_lifecycle_backend.Entities.{OutboxMessage}
use order_lifecycle_backend.Messaging.Relay.{
  relay_batch_size, oldest_first, claim_batch, Broker, publish_batch, drain_once, drain_loop,
}
use order_lifecycle_backend.Messaging.Relay.Batch.{
  is_claimable, backlog, refused_batch, mark_none, has, everything, has-oldest_first, has-select,
  take-short, has-take, accepted_batch, backlog-mark_lt, backlog-mark_all,
}

-- A tick that the broker refuses leaves everything, and still reports the rows that it claimed.
refused_tick :
    (accepts : Broker) (locked : ℕ → Bool) (now : ℕ) (rows log : List OutboxMessage)
    → ((m : OutboxMessage) → accepts log m ≡ false)
    → drain_once accepts locked now rows log
      ≡ record { rows = rows; log = log; claimed = length (claim_batch locked rows); published = 0 }
unfolding drain_once
refused_tick accepts locked now rows log h =
    rw (refused_batch accepts log (claim_batch locked rows) h, mark_none now rows)

-- While the broker refuses every message and a full batch of rows waits, the relay's loop does
-- not end: however many rounds it is given, it is still draining, with no pause between rounds.
pub drain_loop_livelock :
    (fuel : ℕ) (accepts : Broker) (locked : ℕ → Bool) (now : ℕ) (rows log : List OutboxMessage)
    → ((m : OutboxMessage) → accepts log m ≡ false)
    → length (claim_batch locked rows) ≡ relay_batch_size
    → drain_loop fuel accepts locked now rows log ≡ none
unfolding drain_loop
drain_loop_livelock zero accepts locked now rows log h full = refl
drain_loop_livelock (suc fuel) accepts locked now rows log h full =
    rw (refused_tick accepts locked now rows log h, full)
      (drain_loop_livelock fuel accepts locked now rows log h full)

has_claimable :
    (locked : ℕ → Bool) (i : ℕ) (rows : List OutboxMessage)
    → has everything i (oldest_first (select (is_claimable locked) rows))
      ≡ has (is_claimable locked) i rows
has_claimable locked i rows =
    has-oldest_first i (select (is_claimable locked) rows) ∙ has-select (is_claimable locked) i rows

first_of_full :
    (batch : List OutboxMessage)
    → length batch ≡ relay_batch_size
    → (i : ℕ) × (has everything i batch ≡ true)
first_of_full [] h = absurd (omega arith)
first_of_full (m ∷ ms) h = (m.id, ground arith)

module _ (accepts : Broker) (locked : ℕ → Bool) (now : ℕ) (rows log : List OutboxMessage)
    (willing : (l : List OutboxMessage) (m : OutboxMessage) → accepts l m ≡ true) where
  full_tick :
      (drain_once accepts locked now rows log).claimed ≡ relay_batch_size
      → backlog locked (drain_once accepts locked now rows log).rows < backlog locked rows
  unfolding drain_once claim_batch
  full_tick full =
      let (i, first) = first_of_full (claim_batch locked rows) full in
      backlog-mark_lt locked now (publish_batch accepts log (claim_batch locked rows)).1 i rows
        (accepted_batch accepts log (claim_batch locked rows) i willing ∙ first)
        (sym (has_claimable locked i rows) ∙ has-take relay_batch_size i _ first)

  short_tick :
      (drain_once accepts locked now rows log).claimed ≢ relay_batch_size
      → backlog locked (drain_once accepts locked now rows log).rows ≡ 0
  unfolding drain_once claim_batch
  short_tick short =
      backlog-mark_all locked now (publish_batch accepts log (claim_batch locked rows)).1 rows
        (λ i e.
          accepted_batch accepts log (claim_batch locked rows) i willing
          ∙ ap (has everything i) (take-short relay_batch_size _ short)
          ∙ has_claimable locked i rows
          ∙ e)

-- If the broker accepts every message, the relay's loop ends within one round more than there are
-- rows waiting, and leaves none of them unpublished.
pub drain_loop-ends :
    (fuel : ℕ) (accepts : Broker) (locked : ℕ → Bool) (now : ℕ) (rows log : List OutboxMessage)
    → ((l : List OutboxMessage) (m : OutboxMessage) → accepts l m ≡ true)
    → backlog locked rows < fuel
    → (rows' log' : List OutboxMessage) × (drain_loop fuel accepts locked now rows log
        ≡ some (rows', log'))
      × (backlog locked rows' ≡ 0)
unfolding drain_loop
drain_loop-ends zero accepts locked now rows log willing enough = absurd (omega arith)
drain_loop-ends (suc fuel) accepts locked now rows log willing enough =
    let d = drain_once accepts locked now rows log in
    elim (Bool-cases (d.claimed == relay_batch_size)) [
      | inl full ↦ rw full (
          drain_loop-ends fuel accepts locked now d.rows d.log willing
            (omega (arith, full_tick accepts locked now rows log willing (ground arith))))
      | inr short ↦
          (d.rows, d.log, rw short, short_tick accepts locked now rows log willing (ground arith))
    ]
