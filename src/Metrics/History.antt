-- ===== src/Metrics/History.antt =====
-- The history of the metric samples (src/modules/metrics/metrics-history.service.ts). Values are
-- natural numbers here, an average is kept as its sum and its count, and the tie between rows of
-- one time, which the database leaves open, goes to the later row.
pub mod Windows
pub mod Buckets
use order_lifecycle_backend.Prelude.{
  ℕ, suc, ◌+◌, ◌*◌, ◌/◌, Bool, ◌&&◌, Option, none, some, List, [], ◌∷◌, map, ◌==◌, leb,
  if◌then◌else◌, select, take, reverse, sort_desc,
}

-- A row of `metric_events`: the metric's number, its value, and the time in milliseconds.
pub record MetricEvent : Type 0 where
  pub metric : ℕ
  pub value : ℕ
  pub recorded_at : ℕ

pub data MetricResolution : Type 0 where
  raw one_minute five_minutes fifteen_minutes one_hour six_hours : MetricResolution
  twelve_hours one_day one_week one_month : MetricResolution

-- `BUCKET_SECONDS`; `raw` has no entry.
abbrev pub bucket_seconds : MetricResolution → Option ℕ
bucket_seconds raw = none
bucket_seconds one_minute = some 60
bucket_seconds five_minutes = some (5 * 60)
bucket_seconds fifteen_minutes = some (15 * 60)
bucket_seconds one_hour = some 3600
bucket_seconds six_hours = some (6 * 3600)
bucket_seconds twelve_hours = some (12 * 3600)
bucket_seconds one_day = some (24 * 3600)
bucket_seconds one_week = some (7 * 24 * 3600)
bucket_seconds one_month = some (30 * 24 * 3600)

abbrev pub max_points : ℕ
max_points = 500

abbrev pub since_the_beginning : ℕ
since_the_beginning = 0

pub record Point : Type 0 where
  pub bucket_start : ℕ
  pub count : ℕ
  pub sum : ℕ
  pub minimum : ℕ
  pub maximum : ℕ

-- WHERE "metric" = $1 AND "recordedAt" >= $2 AND "recordedAt" <= $3
abbrev pub is_in_window : (metric from to : ℕ) → MetricEvent → Bool
is_in_window metric from to e =
    (e.metric == metric) && leb from e.recorded_at && leb e.recorded_at to

abbrev pub recorded : MetricEvent → ℕ
recorded e = e.recorded_at

abbrev pub start_of : Point → ℕ
start_of p = p.bucket_start

abbrev pub raw_point : MetricEvent → Point
raw_point e = record {
  bucket_start = e.recorded_at;
  count = 1;
  sum = e.value;
  minimum = e.value;
  maximum = e.value;
}

-- `queryRaw`
unfoldable pub query_raw : (metric from to : ℕ) → List MetricEvent → List Point
query_raw metric from to rows =
    map raw_point
      (reverse (take max_points (sort_desc recorded (select (is_in_window metric from to) rows))))

-- `to_timestamp(floor(extract(epoch from "recordedAt") / $4) * $4)`
abbrev pub bucket_of : ℕ → MetricEvent → ℕ
bucket_of width e = e.recorded_at / (width * 1000) * (width * 1000)

abbrev pub min_of : ℕ → ℕ → ℕ
min_of a b = if leb a b then a else b

abbrev pub max_of : ℕ → ℕ → ℕ
max_of a b = if leb a b then b else a

-- What a group's aggregates become when a row joins it.
abbrev pub join_bucket : MetricEvent → Point → Point
join_bucket e p = record {
  bucket_start = p.bucket_start;
  count = suc p.count;
  sum = e.value + p.sum;
  minimum = min_of e.value p.minimum;
  maximum = max_of e.value p.maximum;
}

abbrev pub insert_bucket : ℕ → MetricEvent → List Point → List Point
insert_bucket width e [] = record (raw_point e) { bucket_start = bucket_of width e } ∷ []
insert_bucket width e (p ∷ ps) =
    if p.bucket_start == bucket_of width e
    then join_bucket e p ∷ ps
    else p ∷ insert_bucket width e ps

-- GROUP BY bucket_start
abbrev pub group_buckets : ℕ → List MetricEvent → List Point
group_buckets width [] = []
group_buckets width (e ∷ es) = insert_bucket width e (group_buckets width es)

-- `queryBucketed`, of a resolution of this width
unfoldable pub query_bucketed : (metric from to width : ℕ) → List MetricEvent → List Point
query_bucketed metric from to width rows = reverse (
    take max_points
      (sort_desc start_of (group_buckets width (select (is_in_window metric from to) rows))))

-- The parameters of a query; the bounds are numbers already.
pub record HistoryQuery : Type 0 where
  pub metric : ℕ
  pub resolution : Option MetricResolution
  pub from : Option ℕ
  pub to : Option ℕ

abbrev pub default_to : ℕ → Option ℕ → ℕ
default_to d none = d
default_to d (some n) = n

abbrev pub resolution_of : Option MetricResolution → MetricResolution
resolution_of none = raw
resolution_of (some r) = r

abbrev pub points_of : (metric from to : ℕ) → Option ℕ → List MetricEvent → List Point
points_of metric from to none rows = query_raw metric from to rows
points_of metric from to (some width) rows = query_bucketed metric from to width rows

-- `query`, at a time
unfoldable pub query : HistoryQuery → ℕ → List MetricEvent → List Point
query dto now rows =
    points_of dto.metric (default_to since_the_beginning dto.from) (default_to now dto.to)
      (bucket_seconds (resolution_of dto.resolution)) rows
