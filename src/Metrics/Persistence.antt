-- ===== src/Metrics/Persistence.antt =====
-- The buffer of metric samples (src/modules/metrics/metrics-persistence.service.ts).
pub mod Buffered
pub mod Bounds
use order_lifecycle_backend.Prelude.{
  ℕ, zero, suc, Bool, true, false, List, [], ◌∷◌, ◌++◌, ◌==◌, leb, if◌then◌else◌, length,
}
use order_lifecycle_backend.World.{Metric}

abbrev pub flush_at_rows : ℕ
flush_at_rows = 500

abbrev pub max_buffered_rows : ℕ
max_buffered_rows = 50_000

pub record MetricRow : Type 0 where
  pub metric : Metric
  pub recorded_at : ℕ

-- The buffer, whether a flush is timed, whether a batch is being written, and the rows that an
-- INSERT has been sent for, batch by batch.
pub record BufferState : Type 0 where
  pub buffer : List MetricRow
  pub timer : Bool
  pub flushing : Bool
  pub sent : List (List MetricRow)

-- `splice(0, n)`: what it removes, and what it leaves.
abbrev pub splice : ℕ → List MetricRow → List MetricRow × List MetricRow
splice zero rows = ([], rows)
splice (suc n) [] = ([], [])
splice (suc n) (r ∷ rows) = let (removed, left) = splice n rows in (r ∷ removed, left)

abbrev pub send_batch : List MetricRow → List (List MetricRow) → List (List MetricRow)
send_batch [] sent = sent
send_batch (r ∷ rows) sent = (r ∷ rows) ∷ sent

-- `writeBatch` up to its INSERT
unfoldable pub write_batch : BufferState → BufferState
write_batch s =
    let (rows, left) = splice flush_at_rows s.buffer in
    record s { buffer = left; sent = send_batch rows s.sent }

-- `flushNow`
unfoldable pub flush_now : BufferState → BufferState
flush_now s = record (write_batch s) { timer = false; flushing = true }

-- The `finally` of `flushNow`, when the INSERT has ended.
unfoldable pub flush_ended : BufferState → BufferState
flush_ended s =
    let idle = record s { flushing = false } in
    if leb flush_at_rows (length s.buffer)
    then flush_now idle
    else if length s.buffer == 0
    then idle
    else record idle { timer = true }

abbrev pub schedule : BufferState → BufferState
schedule s =
    if s.flushing
    then s
    else if leb flush_at_rows (length s.buffer)
    then flush_now s
    else record s { timer = true }

-- `record`
unfoldable pub record_sample : MetricRow → BufferState → BufferState
record_sample row s =
    if leb max_buffered_rows (length s.buffer)
    then s
    else schedule (record s { buffer = s.buffer ++ row ∷ [] })

-- The loop of `onModuleDestroy`, on fuel
abbrev pub write_all : ℕ → BufferState → BufferState
write_all zero s = s
write_all (suc fuel) s =
    let rest = write_all fuel (write_batch s) in if length s.buffer == 0 then s else rest

-- `onModuleDestroy`: the batch that is being written is awaited, and what waits is written.
unfoldable pub on_module_destroy : ℕ → BufferState → BufferState
on_module_destroy fuel s =
    let stopped = record s { timer = false } in
    write_all fuel (if s.flushing then flush_ended stopped else stopped)
