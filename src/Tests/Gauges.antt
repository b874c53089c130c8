-- ===== src/Tests/Gauges.antt =====
-- Gauges and the history at concrete inputs.
use order_lifecycle_backend.Prelude.{ℕ, ◌≡◌, refl, List, [], ◌∷◌}
use order_lifecycle_backend.Metrics.History.{MetricEvent, query_bucketed}

abbrev sample : ℕ → ℕ → MetricEvent
sample value at = record { metric = 3; value = value; recorded_at = at }

abbrev samples : List MetricEvent
samples = sample 5 70000 ∷ sample 2 61000 ∷ sample 9 10 ∷ []

-- The minute of the later two samples.
second_minute :
    query_bucketed 3 0 80000 60 samples
    ≡ record { bucket_start = 0; count = 1; sum = 9; minimum = 9; maximum = 9 }
      ∷ record { bucket_start = 60000; count = 2; sum = 7; minimum = 2; maximum = 5 }
      ∷ []
unfolding query_bucketed
second_minute = refl
