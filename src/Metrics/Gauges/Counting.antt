-- ===== src/Metrics/Gauges/Counting.antt =====
-- The gauge of orders by status, and the gauge of queues, against what they count
-- (src/modules/metrics/live-gauges.service.ts).
use order_lifecycle_backend.Prelude.{
  ℕ, suc, ◌≡◌, refl, ap, ◌∙◌, inl, inr, true, false, Option, none, some, List, [], ◌∷◌, arith,
  count_where, Bool-cases,
}
use order_lifecycle_backend.Entities.{
  Order, OrderStatus, pending, reserved, paid, completed, failed, cancelled,
}
use order_lifecycle_backend.Orders.StateMachine.{same_status}
use order_lifecycle_backend.Orders.Rows.{has_status}
use order_lifecycle_backend.Orders.Transition.Cas.{same_status_refl, same_status_sound}
use order_lifecycle_backend.Metrics.Gauges.{
  StatusCounts, count_of, set_count, zero_counts, add_to_status, status_rows, assign_all,
  orders_by_status, Broker, Queue, QueueInfo, ChannelState, queue_channel, check_queues, add_report,
  after_check,
}

same_status_first :
    (u t s : OrderStatus) → same_status u t ≡ true → same_status u s ≡ same_status t s
same_status_first pending pending s h = refl
same_status_first reserved reserved s h = refl
same_status_first paid paid s h = refl
same_status_first completed completed s h = refl
same_status_first failed failed s h = refl
same_status_first cancelled cancelled s h = refl
same_status_first _ _ s h = cc

set_count_self :
    (s : OrderStatus) (n : ℕ) (counts : StatusCounts) → count_of s (set_count s n counts) ≡ some n
set_count_self s n [] = ground (arith, same_status_refl s)
set_count_self s n ((t, m) ∷ counts) = ground (arith, set_count_self s n counts)

set_count-ne :
    (t s : OrderStatus) (n : ℕ) (counts : StatusCounts)
    → same_status t s ≡ false
    → count_of s (set_count t n counts) ≡ count_of s counts
set_count-ne t s n [] h = ground arith
set_count-ne t s n ((u, m) ∷ counts) h = elim (Bool-cases (same_status u t)) [
  | inl hit ↦ ground (arith, same_status_first u t s hit)
  | inr miss ↦ ground (arith, set_count-ne t s n counts h)
]

-- No two rows of a grouping have one status.
abbrev IsDistinct : StatusCounts → Type 0
IsDistinct [] = Unit
IsDistinct ((s, n) ∷ rows) = (count_of s rows ≡ none) × IsDistinct rows

abbrev assigned : Option ℕ → Option ℕ → Option ℕ
assigned none before = before
assigned (some n) before = some n

same_status_sym : (s t : OrderStatus) → same_status s t ≡ same_status t s
same_status_sym pending pending = refl
same_status_sym reserved reserved = refl
same_status_sym paid paid = refl
same_status_sym completed completed = refl
same_status_sym failed failed = refl
same_status_sym cancelled cancelled = refl
same_status_sym _ _ = refl

-- Assigning distinct rows over a record of counts: a status has its row's count, or what it had.
count-assign_all :
    (s : OrderStatus) (rows counts : StatusCounts)
    → IsDistinct rows
    → count_of s (assign_all rows counts) ≡ assigned (count_of s rows) (count_of s counts)
count-assign_all s [] counts d = refl
count-assign_all s ((t, n) ∷ rows) counts d = elim (Bool-cases (same_status t s)) [
  | inl hit ↦ ground (
    arith,
    count-assign_all s rows (set_count t n counts) d.1,
    same_count hit rows,
    same_count hit (set_count t n counts),
    set_count_self t n counts,
    d.0,
  )
  | inr miss ↦
      ground
        (arith, count-assign_all s rows (set_count t n counts) d.1, set_count-ne t s n counts miss)
]
  where
    same_count : same_status t s ≡ true → (cs : StatusCounts) → count_of s cs ≡ count_of t cs
    same_count h [] = refl
    same_count h ((u, m) ∷ cs) = ground (
      arith,
      same_count h cs,
      same_status_sym u t,
      same_status_sym u s,
      same_status_first t s u h,
    )

add_to_status-ne :
    (t s : OrderStatus) (rows : StatusCounts)
    → same_status t s ≡ false
    → count_of s (add_to_status t rows) ≡ count_of s rows
add_to_status-ne t s [] h = ground arith
add_to_status-ne t s ((u, m) ∷ rows) h = elim (Bool-cases (same_status u t)) [
  | inl hit ↦ ground (arith, same_status_first u t s hit)
  | inr miss ↦ ground (arith, add_to_status-ne t s rows h)
]

abbrev or_zero : Option ℕ → ℕ
or_zero none = 0
or_zero (some n) = n

add_to_status_self :
    (s : OrderStatus) (rows : StatusCounts)
    → count_of s (add_to_status s rows) ≡ some (suc (or_zero (count_of s rows)))
add_to_status_self s [] = ground (arith, same_status_refl s)
add_to_status_self s ((u, m) ∷ rows) = ground (arith, add_to_status_self s rows)

add_to_status-IsDistinct :
    (s : OrderStatus) (rows : StatusCounts) → IsDistinct rows → IsDistinct (add_to_status s rows)
add_to_status-IsDistinct s [] d = (refl, tt)
add_to_status-IsDistinct s ((u, m) ∷ rows) d = elim (Bool-cases (same_status u s)) [
  | inl hit ↦ rw hit d
  | inr miss ↦ rw miss (
    add_to_status-ne s u rows (same_status_sym s u ∙ miss) ∙ d.0,
    add_to_status-IsDistinct s rows d.1,
  )
]

status_rows-IsDistinct : (orders : List Order) → IsDistinct (status_rows orders)
status_rows-IsDistinct [] = tt
status_rows-IsDistinct (o ∷ orders) =
    add_to_status-IsDistinct o.status (status_rows orders) (status_rows-IsDistinct orders)

status_rows-counts :
    (s : OrderStatus) (orders : List Order)
    → or_zero (count_of s (status_rows orders)) ≡ count_where (has_status s) orders
status_rows-counts s [] = refl
status_rows-counts s (o ∷ orders) = elim (Bool-cases (same_status o.status s)) [
  | inl hit ↦ ground (
    arith,
    status_rows-counts s orders,
    add_to_status_self s (status_rows orders),
    same_status_sound o.status s hit,
  )
  | inr miss ↦
      ground
        (arith, status_rows-counts s orders, add_to_status-ne o.status s (status_rows orders) miss)
]

zero_counts_all : (s : OrderStatus) → count_of s zero_counts ≡ some 0
zero_counts_all pending = refl
zero_counts_all reserved = refl
zero_counts_all paid = refl
zero_counts_all completed = refl
zero_counts_all failed = refl
zero_counts_all cancelled = refl

-- The gauge shows for every status the number of orders that have it, 0 where there is none.
pub orders_by_status-counts :
    (s : OrderStatus) (orders : List Order)
    → count_of s (orders_by_status (some orders)) ≡ some (count_where (has_status s) orders)
unfolding orders_by_status
orders_by_status-counts s orders =
    count-assign_all s (status_rows orders) zero_counts (status_rows-IsDistinct orders)
    ∙ shown (count_of s (status_rows orders)) refl
  where
    shown :
        (row : Option ℕ)
        → count_of s (status_rows orders) ≡ row
        → assigned row (count_of s zero_counts) ≡ some (count_where (has_status s) orders)
    shown none e = ground (arith, zero_counts_all s, status_rows-counts s orders)
    shown (some n) e = ground (arith, status_rows-counts s orders)

abbrev prepend : Queue → Option (ℕ × ℕ) → List QueueInfo → List QueueInfo
prepend q none infos = infos
prepend q (some (messages, consumers)) infos =
    record { queue = q; messages = messages; consumers = consumers } ∷ infos

-- The queues that the broker reports on, in order.
abbrev pub reported : Broker → List Queue → List QueueInfo
reported b [] = []
reported b (q ∷ qs) = prepend q (b.check_queue q) (reported b qs)

added :
    (q : Queue) (r : Option (ℕ × ℕ)) (rest : List QueueInfo × ChannelState)
    → (add_report q r rest).0 ≡ prepend q r rest.0
added q none rest = refl
added q (some (messages, consumers)) rest = refl

channel-opens :
    (b : Broker) (s : ChannelState)
    → ((n : ℕ) → b.opens n ≡ true)
    → (queue_channel (some b) s).0 ≡ true
unfolding queue_channel
channel-opens b s opens = ground (arith, opens s.attempts)

-- If the broker opens a channel whenever it is asked, every queue that it can report on is
-- reported, in order, whichever checks before have failed and closed the channel.
pub check_queues-reports :
    (b : Broker) (qs : List Queue) (s : ChannelState)
    → ((n : ℕ) → b.opens n ≡ true)
    → (check_queues (some b) qs s).0 ≡ reported b qs
unfolding check_queues
check_queues-reports b [] s opens = refl
check_queues-reports b (q ∷ qs) s opens = rw (channel-opens b s opens) (
    added q (b.check_queue q) _
    ∙ ap (prepend q (b.check_queue q)) (
        check_queues-reports b qs (after_check (b.check_queue q) (queue_channel (some b) s).1)
          opens))
