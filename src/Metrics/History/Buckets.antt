-- ===== src/Metrics/History/Buckets.antt =====
-- The buckets of a history query (src/modules/metrics/metrics-history.service.ts).
use order_lifecycle_backend.Prelude.{
  ℕ, ◌+◌, ◌≡◌, refl, sym, subst, ◌∙◌, inl, inr, Bool, true, false, none, some, List, [], ◌∷◌, arith,
  ◌==◌, leb, select, length, Bool-cases, Option-cases, IsNewest, reverse-IsNewest, find_by, IsKeyed,
  every, ◌&&◌,
}
use order_lifecycle_backend.Metrics.History.{
  MetricEvent, Point, is_in_window, start_of, raw_point, bucket_of, join_bucket, insert_bucket,
  group_buckets, query_bucketed, min_of, max_of, max_points,
}

-- The samples of a table that belong to a bucket.
abbrev pub samples_in : (width start : ℕ) → List MetricEvent → List MetricEvent
samples_in width start = select (λ e. bucket_of width e == start)

abbrev pub total : List MetricEvent → ℕ
total [] = 0
total (e ∷ es) = e.value + total es

abbrev pub is_between : ℕ → ℕ → MetricEvent → Bool
is_between low high e = leb low e.value && leb e.value high

-- A point's count and sum are those of these samples, and they lie between its extremes.
pub record Summarises (es : List MetricEvent) (p : Point) : Type 0 where
  pub counted : p.count ≡ length es
  pub summed : p.sum ≡ total es
  pub spanned : every (is_between p.minimum p.maximum) es ≡ true

module _ (width : ℕ) (e : MetricEvent) where
  insert_bucket-ne :
      (k : ℕ) (ps : List Point)
      → (bucket_of width e == k) ≡ false
      → find_by start_of k (insert_bucket width e ps) ≡ find_by start_of k ps
  insert_bucket-ne k [] h = ground arith
  insert_bucket-ne k (p ∷ ps) h = elim (Bool-cases (p.bucket_start == bucket_of width e)) [
    | inl hit ↦ ground arith
    | inr miss ↦ ground (arith, insert_bucket-ne k ps h)
  ]

  insert_bucket_old :
      (k : ℕ) (p : Point) (ps : List Point)
      → (bucket_of width e == k) ≡ true
      → find_by start_of k ps ≡ some p
      → find_by start_of k (insert_bucket width e ps) ≡ some (join_bucket e p)
  insert_bucket_old k p [] h f = cc
  insert_bucket_old k p (q ∷ ps) h f = elim (Bool-cases (q.bucket_start == bucket_of width e)) [
    | inl hit ↦ ground arith
    | inr miss ↦ ground (arith, insert_bucket_old k p ps h)
  ]

  insert_bucket_new :
      (k : ℕ) (ps : List Point)
      → (bucket_of width e == k) ≡ true
      → find_by start_of k ps ≡ none
      → find_by start_of k (insert_bucket width e ps)
        ≡ some (record (raw_point e) { bucket_start = bucket_of width e })
  insert_bucket_new k [] h f = ground arith
  insert_bucket_new k (q ∷ ps) h f = elim (Bool-cases (q.bucket_start == bucket_of width e)) [
    | inl hit ↦ ground arith
    | inr miss ↦ ground (arith, insert_bucket_new k ps h)
  ]

widened :
    (e : MetricEvent) (low high : ℕ) (es : List MetricEvent)
    → every (is_between low high) es ≡ true
    → every (is_between (min_of e.value low) (max_of e.value high)) es ≡ true
widened e low high [] h = refl
widened e low high (x ∷ es) h = ground (arith, widened e low high es)

join-Summarises :
    (e : MetricEvent) (p : Point) (es : List MetricEvent)
    → Summarises es p
    → Summarises (e ∷ es) (join_bucket e p)
join-Summarises e p es h = record {
  counted = omega (arith, h.counted);
  summed = omega (arith, h.summed);
  spanned = ground (arith, widened e p.minimum p.maximum es h.spanned);
}

single-Summarises :
    (e : MetricEvent) (start : ℕ)
    → Summarises (e ∷ []) (record (raw_point e) { bucket_start = start })
single-Summarises e start = record { counted = refl; summed = omega arith; spanned = ground arith }

-- The groups of a table: each summarises the samples of its bucket, and no bucket with samples
-- is left out.
pub record IsGrouping (width : ℕ) (es : List MetricEvent) (ps : List Point) : Type 0 where
  pub summary :
      (k : ℕ) (p : Point) → find_by start_of k ps ≡ some p → Summarises (samples_in width k es) p
  pub others : (k : ℕ) → find_by start_of k ps ≡ none → samples_in width k es ≡ []
  pub distinct : IsKeyed start_of ps

module _ (width : ℕ) (e : MetricEvent) (es : List MetricEvent) (ps : List Point) where
  insert-summary :
      IsGrouping width es ps
      → (k : ℕ) (p : Point) → find_by start_of k (insert_bucket width e ps) ≡ some p
      → Summarises (samples_in width k (e ∷ es)) p
  insert-summary h k p f = elim (Bool-cases (bucket_of width e == k)) [
    | inr miss ↦ rw miss (h.summary k p (sym (insert_bucket-ne width e k ps miss) ∙ f))
    | inl hit ↦ elim (Option-cases (find_by start_of k ps)) [
      | inl new ↦
          rw (hit, h.others k new)
            (subst (Summarises (e ∷ [])) (ground (arith, insert_bucket_new width e k ps hit new))
              (single-Summarises e (bucket_of width e)))
      | inr (q, old) ↦ rw hit (
          subst (Summarises (e ∷ samples_in width k es))
            (ground (arith, insert_bucket_old width e k q ps hit old))
            (join-Summarises e q (samples_in width k es) (h.summary k q old)))
    ]
  ]

  insert-others :
      IsGrouping width es ps
      → (k : ℕ) → find_by start_of k (insert_bucket width e ps) ≡ none
      → samples_in width k (e ∷ es) ≡ []
  insert-others h k f = elim (Bool-cases (bucket_of width e == k)) [
    | inr miss ↦ rw miss (h.others k (sym (insert_bucket-ne width e k ps miss) ∙ f))
    | inl hit ↦ elim (Option-cases (find_by start_of k ps)) [
      | inl new ↦ absurd (ground (arith, insert_bucket_new width e k ps hit new))
      | inr (q, old) ↦ absurd (ground (arith, insert_bucket_old width e k q ps hit old))
    ]
  ]

insert-IsKeyed :
    (width : ℕ) (e : MetricEvent) (ps : List Point)
    → IsKeyed start_of ps
    → IsKeyed start_of (insert_bucket width e ps)
insert-IsKeyed width e [] h = (refl, tt)
insert-IsKeyed width e (p ∷ ps) h = elim (Bool-cases (p.bucket_start == bucket_of width e)) [
  | inl hit ↦ rw hit (h.0, h.1)
  | inr miss ↦ rw miss (
    insert_bucket-ne width e p.bucket_start ps (ground arith) ∙ h.0,
    insert-IsKeyed width e ps h.1,
  )
]

group_buckets-IsGrouping :
    (width : ℕ) (es : List MetricEvent) → IsGrouping width es (group_buckets width es)
group_buckets-IsGrouping width [] = record {
  summary = λ k p f. cc;
  others = λ k f. refl;
  distinct = tt;
}
group_buckets-IsGrouping width (e ∷ es) =
    let h = group_buckets-IsGrouping width es in
    record {
      summary = insert-summary width e es (group_buckets width es) h;
      others = insert-others width e es (group_buckets width es) h;
      distinct = insert-IsKeyed width e (group_buckets width es) h.distinct;
    }

-- A query by buckets answers with the newest 500 buckets that have samples of its metric in its
-- window, oldest first: each such bucket has one point, whose count and sum are those of all its
-- samples and whose extremes hold them, and no bucket left out is newer than those kept.
pub query_bucketed-IsNewest :
    (metric from to width : ℕ) (rows : List MetricEvent)
    → (buckets : List Point) × IsGrouping width (select (is_in_window metric from to) rows) buckets
      × IsNewest start_of max_points buckets (query_bucketed metric from to width rows)
unfolding query_bucketed
query_bucketed-IsNewest metric from to width rows = (
  group_buckets width (select (is_in_window metric from to) rows),
  group_buckets-IsGrouping width (select (is_in_window metric from to) rows),
  reverse-IsNewest start_of max_points
      (group_buckets width (select (is_in_window metric from to) rows)),
)
