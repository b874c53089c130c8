-- ===== src/Metrics/Gauges.antt =====
-- The live gauges (src/modules/metrics/live-gauges.service.ts, and the gauges of
-- src/modules/metrics/metrics.collectors.ts). What the database and the broker answer is a
-- parameter of one load; an age is kept in milliseconds.
pub mod Counting
pub mod Serving
use order_lifecycle_backend.Prelude.{
  ℕ, zero, suc, ◌+◌, ◌-◌, Bool, true, false, not, Option, none, some, List, [], ◌∷◌, leb, ltb,
  if◌then◌else◌, select, length,
}
use order_lifecycle_backend.Entities.{
  Order, OrderStatus, pending, reserved, paid, completed, failed, cancelled, OutboxMessage,
  Consumer, inventory, payment, completion, email,
}
use order_lifecycle_backend.Orders.StateMachine.{same_status}
use order_lifecycle_backend.Orders.Rows.{is_null}

-- A record of counts by status, in the order of its keys.
abbrev pub StatusCounts : Type 0
StatusCounts = List (OrderStatus × ℕ)

abbrev pub count_of : OrderStatus → StatusCounts → Option ℕ
count_of s [] = none
count_of s ((t, n) ∷ counts) = if same_status t s then some n else count_of s counts

-- `counts[status] = n`
abbrev pub set_count : OrderStatus → ℕ → StatusCounts → StatusCounts
set_count s n [] = (s, n) ∷ []
set_count s n ((t, m) ∷ counts) =
    if same_status t s then (t, n) ∷ counts else (t, m) ∷ set_count s n counts

-- Every status at 0.
abbrev pub zero_counts : StatusCounts
zero_counts =
    (pending, 0) ∷ (reserved, 0) ∷ (paid, 0) ∷ (completed, 0) ∷ (failed, 0) ∷ (cancelled, 0) ∷ []

abbrev pub add_to_status : OrderStatus → StatusCounts → StatusCounts
add_to_status s [] = (s, 1) ∷ []
add_to_status s ((t, n) ∷ counts) =
    if same_status t s then (t, suc n) ∷ counts else (t, n) ∷ add_to_status s counts

-- SELECT "status", COUNT(*) FROM "orders" GROUP BY "status"
abbrev pub status_rows : List Order → StatusCounts
status_rows [] = []
status_rows (o ∷ os) = add_to_status o.status (status_rows os)

-- `for (const row of rows) counts[row.status] = ...`
abbrev pub assign_all : StatusCounts → StatusCounts → StatusCounts
assign_all [] counts = counts
assign_all ((s, n) ∷ rows) counts = assign_all rows (set_count s n counts)

-- `ordersByStatus`: none when the query fails
unfoldable pub orders_by_status : Option (List Order) → StatusCounts
orders_by_status none = zero_counts
orders_by_status (some orders) = assign_all (status_rows orders) zero_counts

-- MIN("createdAt"), which is null over no rows
abbrev pub min_created : List OutboxMessage → Option ℕ
min_created [] = none
min_created (m ∷ ms) = elim (min_created ms) [
  | none ↦ some m.created_at
  | some t ↦ some (if leb m.created_at t then m.created_at else t)
]

abbrev pub is_unpublished : OutboxMessage → Bool
is_unpublished m = is_null m.published_at

abbrev age_of : ℕ → Option ℕ → ℕ
age_of now none = 0
age_of now (some t) = now - t

-- `outbox`: the number of unpublished rows, and the age of the oldest
unfoldable pub outbox_gauge : ℕ → Option (List OutboxMessage) → ℕ × ℕ
outbox_gauge now none = (0, 0)
outbox_gauge now (some rows) =
    let waiting = select is_unpublished rows in (length waiting, age_of now (min_created waiting))

pub data Queue : Type 0 where
  work_queue : Consumer → Queue
  order_dlq : Queue

-- `MONITORED_QUEUES`
abbrev pub monitored_queues : List Queue
monitored_queues =
    work_queue inventory
    ∷ work_queue payment
    ∷ work_queue completion
    ∷ work_queue email
    ∷ order_dlq
    ∷ []

pub record QueueInfo : Type 0 where
  pub queue : Queue
  pub messages : ℕ
  pub consumers : ℕ

-- Whether an attempt to open a channel succeeds, and what `checkQueue` reports; none when it
-- fails, which closes the channel.
pub record Broker : Type 0 where
  pub opens : ℕ → Bool
  pub check_queue : Queue → Option (ℕ × ℕ)

-- `this.channel`, and the number of attempts so far.
pub record ChannelState : Type 0 where
  pub is_open : Bool
  pub attempts : ℕ

-- `queueChannel`: whether there is a channel now. An application without a broker has none.
unfoldable pub queue_channel : Option Broker → ChannelState → Bool × ChannelState
queue_channel none s = (s.is_open, s)
queue_channel (some b) s =
    if s.is_open
    then (true, s)
    else (b.opens s.attempts, record { is_open = b.opens s.attempts; attempts = suc s.attempts })

abbrev report : Option Broker → Queue → Option (ℕ × ℕ)
report none q = none
report (some b) q = b.check_queue q

abbrev pub add_report :
    Queue → Option (ℕ × ℕ) → List QueueInfo × ChannelState → List QueueInfo × ChannelState
add_report q none rest = rest
add_report q (some (messages, consumers)) (infos, s) =
    (record { queue = q; messages = messages; consumers = consumers } ∷ infos, s)

-- The channel after a check.
abbrev pub after_check : Option (ℕ × ℕ) → ChannelState → ChannelState
after_check none s = record s { is_open = false }
after_check (some _) s = s

-- The loop of `queues`.
unfoldable pub check_queues :
    Option Broker → List Queue → ChannelState → List QueueInfo × ChannelState
check_queues b [] s = ([], s)
check_queues b (q ∷ qs) s =
    let (has_channel, s') = queue_channel b s in
    let rest = check_queues b qs (after_check (report b q) s') in
    if has_channel then add_report q (report b q) rest else ([], s')

-- `queues`
unfoldable pub queues : Option Broker → ChannelState → List QueueInfo × ChannelState
queues b s = check_queues b monitored_queues s

pub record LiveGaugeSnapshot : Type 0 where
  pub orders_by_status : StatusCounts
  pub outbox_pending : ℕ
  pub outbox_oldest_age : ℕ
  pub queues : List QueueInfo

-- What one load meets.
pub record Surroundings : Type 0 where
  pub orders : Option (List Order)
  pub outbox : Option (List OutboxMessage)
  pub broker : Option Broker

pub record GaugeState : Type 0 where
  pub cached : Option (ℕ × LiveGaugeSnapshot)
  pub channel : ChannelState

abbrev pub snapshot_ttl_ms : ℕ
snapshot_ttl_ms = 2000

-- `load`
unfoldable pub load : Surroundings → ℕ → ChannelState → LiveGaugeSnapshot × ChannelState
load around now s =
    let (waiting, age) = outbox_gauge now around.outbox in
    let (infos, s') = queues around.broker s in
    (
      record {
        orders_by_status = orders_by_status around.orders;
        outbox_pending = waiting;
        outbox_oldest_age = age;
        queues = infos;
      },
      s',
    )

abbrev reload : Surroundings → ℕ → GaugeState → LiveGaugeSnapshot × GaugeState
reload around now s =
    let (value, channel) = load around now s.channel in
    (value, record { cached = some (now, value); channel = channel })

abbrev reuse_or_load :
    Surroundings → ℕ → Option (ℕ × LiveGaugeSnapshot) → GaugeState → LiveGaugeSnapshot × GaugeState
reuse_or_load around now none s = reload around now s
reuse_or_load around now (some (at, value)) s =
    if ltb snapshot_ttl_ms (now - at) then reload around now s else (value, s)

-- `snapshot`; a clock that has gone back counts as no time.
unfoldable pub snapshot : Surroundings → ℕ → GaugeState → LiveGaugeSnapshot × GaugeState
snapshot around now s = reuse_or_load around now s.cached s
