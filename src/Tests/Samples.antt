-- ===== src/Tests/Samples.antt =====
-- Samples that are recorded, sent and flushed at the end.
use order_lifecycle_backend.Prelude.{◌≡◌, refl, true, false, List, [], ◌∷◌, ◌++◌, inl, arith}
use order_lifecycle_backend.World.{Metric}
use order_lifecycle_backend.Metrics.Persistence.{MetricRow, BufferState}
use order_lifecycle_backend.Metrics.Persistence.Buffered.{
  BufferEvent, sampling, timing, insert_ending, replay, held, kept_samples, replay-held,
}
use order_lifecycle_backend.Metrics.Persistence.Bounds.{IsSafe, replay-IsSafe}

abbrev row : MetricRow
row = record { metric = Metric.order_created; recorded_at = 5 }

abbrev fresh : BufferState
fresh = record { buffer = []; timer = false; flushing = false; sent = [] }

abbrev busy : BufferState
busy = record { buffer = row ∷ row ∷ []; timer = false; flushing = true; sent = (row ∷ []) ∷ [] }

abbrev events : List BufferEvent
events = sampling row ∷ timing ∷ sampling row ∷ insert_ending ∷ []

replay-held_example : held (replay events fresh) ≡ held fresh ++ kept_samples events fresh
replay-held_example = replay-held events fresh

fresh-IsSafe : IsSafe fresh
fresh-IsSafe = record {
  waiting = omega arith;
  batches = refl;
  exclusive = refl;
  awaited = inl refl;
}

replay-IsSafe_example : IsSafe (replay events fresh)
replay-IsSafe_example = replay-IsSafe events fresh fresh-IsSafe
