-- ===== src/Messaging/Retry/Backoff.antt =====
-- The life of a message whose handler always fails (src/modules/messaging/retry-error-handler.ts):
-- how often it is retried, after which delays, and when it is dead-lettered.
use native.Mathlib.Nat.{pow-suc}
use order_lifecycle_backend.Prelude.{
  ℕ, zero, suc, ◌+◌, ◌-◌, ◌*◌, ◌^◌, ◌≡◌, refl, subst, ap, true, Option, none, some, List, [], ◌∷◌,
  arith, ltb, Bool, ◌==◌, ◌&&◌, if◌then◌else◌,
}
use order_lifecycle_backend.Entities.{Consumer}
use order_lifecycle_backend.Messaging.Inbox.{same_consumer}
use order_lifecycle_backend.Messaging.Inbox.AtMostOnce.{same_consumer_refl}
use order_lifecycle_backend.Messaging.Retry.{
  ChannelCall, WaitQueue, assert_queue, send_to_queue, ack, nack, on_failure, attempts_of,
}

-- What the calls of one failure mean for a message of a work queue: parked for a delay under a new
-- attempts header, dead-lettered by a nack, or lost in any other way.
pub data Fate : Type 0 where
  parked : (delay attempt : ℕ) → Fate
  dead lost : Fate

-- The wait queue of this work queue for this delay.
abbrev pub is_wait_of : Consumer → ℕ → WaitQueue → Bool
is_wait_of queue delay q = same_consumer q.queue queue && (q.delay_ms == delay)

-- A message is parked when it is sent to the wait queue of its work queue that is declared with the
-- delay as its TTL and with the work queue as its target, and then acknowledged.
abbrev pub fate : Consumer → List ChannelCall → Fate
fate queue (assert_queue q ttl target ∷ send_to_queue q' attempt ∷ ack ∷ []) =
    if is_wait_of queue ttl q && (is_wait_of queue ttl q' && same_consumer target queue)
    then parked ttl attempt
    else lost
fate queue (nack ∷ []) = dead
fate queue calls = lost

-- The delays of a message that fails at every delivery, until it is dead-lettered; none if the
-- fuel runs out first or the message is lost.
unfoldable pub delays : ℕ → Consumer → ℕ → ℕ → Option ℕ → Option (List ℕ)
delays zero queue max_retries base header = none
delays (suc fuel) queue max_retries base header =
    elim (fate queue (on_failure queue max_retries base header).0) [
      | lost ↦ none
      | dead ↦ some []
      | parked delay attempt ↦ elim (delays fuel queue max_retries base (some attempt)) [
        | none ↦ none
        | some ds ↦ some (delay ∷ ds)
      ]
    ]

-- Doubling delays: base * 2 ^ k, ..., base * 2 ^ (k + n - 1).
abbrev pub doubling : ℕ → ℕ → ℕ → List ℕ
doubling base k zero = []
doubling base k (suc n) = base * 2 ^ k ∷ doubling base (suc k) n

abbrev pub total : List ℕ → ℕ
total [] = 0
total (d ∷ ds) = d + total ds

fate_last :
    (k : ℕ) (queue : Consumer) (base : ℕ) (header : Option ℕ)
    → attempts_of header ≡ k
    → fate queue (on_failure queue (k + 0) base header).0 ≡ dead
unfolding on_failure
fate_last k queue base header e = ground arith

predecessor : (k : ℕ) → k + 1 - 1 ≡ k
predecessor k = omega arith

fate_retry :
    (k n : ℕ) (queue : Consumer) (base : ℕ) (header : Option ℕ)
    → attempts_of header ≡ k
    → fate queue (on_failure queue (k + suc n) base header).0 ≡ parked (base * 2 ^ k) (suc k)
unfolding on_failure
fate_retry k n queue base header e =
    rw (e, below, same_consumer_refl queue)
      (ground (arith, same_consumer_refl queue, ap (λ t. base * 2 ^ t) (predecessor k)))
  where
    below : ltb k (k + suc n) ≡ true
    below = ground arith

delays-doubling :
    (n k : ℕ) (queue : Consumer) (base : ℕ) (header : Option ℕ)
    → attempts_of header ≡ k
    → delays (suc n) queue (k + n) base header ≡ some (doubling base k n)
unfolding delays
delays-doubling zero k queue base header e = rw (fate_last k queue base header e, delays)
delays-doubling (suc n) k queue base header e =
    rw (fate_retry k n queue base header e, delays)
      (ground (arith, rest (delays-doubling n (suc k) queue base (some (suc k)) refl)))
  where
    shift : suc k + n ≡ k + suc n
    shift = omega arith

    rest :
        delays (suc n) queue (suc k + n) base (some (suc k)) ≡ some (doubling base (suc k) n)
        → delays (suc n) queue (k + suc n) base (some (suc k)) ≡ some (doubling base (suc k) n)
    rest =
        subst (λ m. delays (suc n) queue m base (some (suc k)) ≡ some (doubling base (suc k) n))
          shift

-- A message whose handler fails at every delivery is retried exactly `max_retries` times, each time
-- through the wait queue of its work queue and of the delay, after delays that double from the base
-- delay, and is then dead-lettered by a nack.
pub delays-on_failure :
    (queue : Consumer) (max_retries base : ℕ)
    → delays (suc max_retries) queue max_retries base none ≡ some (doubling base 0 max_retries)
delays-on_failure queue max_retries base =
    subst (λ m. delays (suc max_retries) queue m base none ≡ some (doubling base 0 max_retries))
      (omega arith) (delays-doubling max_retries 0 queue base none refl)

total-doubling : (base n k : ℕ) → total (doubling base k n) + base * 2 ^ k ≡ base * 2 ^ (k + n)
total-doubling base zero k = ground (arith, ap (λ t. base * 2 ^ t) (right_zero k))
  where
    right_zero : (k : ℕ) → k + 0 ≡ k
    right_zero k = omega arith
total-doubling base (suc n) k = omega (
  arith,
  total-doubling base n (suc k),
  ap (λ t. base * 2 ^ t) shift,
  ap (λ (t : ℕ). base * t) (pow-suc 2 k),
)
  where
    shift : suc k + n ≡ k + suc n
    shift = omega arith

-- Altogether a message that fails at every delivery waits `base * (2 ^ max_retries - 1)`
-- milliseconds before it is dead-lettered.
pub total-delays :
    (queue : Consumer) (max_retries base : ℕ) (ds : List ℕ)
    → delays (suc max_retries) queue max_retries base none ≡ some ds
    → total ds + base ≡ base * 2 ^ max_retries
total-delays queue max_retries base ds e =
    rw (← same) (omega (arith, total-doubling base max_retries 0, ap (λ t. base * 2 ^ t) left_zero))
  where
    same : doubling base 0 max_retries ≡ ds
    same = cc (delays-on_failure queue max_retries base)

    left_zero : 0 + max_retries ≡ max_retries
    left_zero = omega arith
