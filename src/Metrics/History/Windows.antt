-- ===== src/Metrics/History/Windows.antt =====
-- What a history query answers (src/modules/metrics/metrics-history.service.ts).
use order_lifecycle_backend.Prelude.{
  ℕ, ◌≡◌, refl, List, [], ◌∷◌, map, arith, select, take, reverse, sort_desc, length, IsNewest,
  reverse-IsNewest,
}
use order_lifecycle_backend.Metrics.History.{
  MetricEvent, is_in_window, recorded, raw_point, query_raw, max_points,
}

length-map : (rows : List MetricEvent) → length (map raw_point rows) ≡ length rows
length-map [] = refl
length-map (e ∷ rows) = omega (arith, length-map rows)

-- A raw query answers with points of count one for the newest samples of its metric in its
-- window, at most 500 of them, oldest first: every sample left out is as old as or older than
-- every sample kept, and none is added, lost or doubled.
pub query_raw-IsNewest :
    (metric from to : ℕ) (rows : List MetricEvent)
    → (kept : List MetricEvent) × (query_raw metric from to rows ≡ map raw_point kept)
      × IsNewest recorded max_points (select (is_in_window metric from to) rows) kept
unfolding query_raw
query_raw-IsNewest metric from to rows = (
  reverse (take max_points (sort_desc recorded (select (is_in_window metric from to) rows))),
  refl,
  reverse-IsNewest recorded max_points (select (is_in_window metric from to) rows),
)
