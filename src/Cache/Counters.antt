-- ===== src/Cache/Counters.antt =====
-- The in-process hit and miss counters beside the `cache_requests_total` samples
-- (src/modules/cache/cache.service.ts, `record` and `getStats`).
use order_lifecycle_backend.Prelude.{
  ℕ, suc, ◌+◌, ◌≡◌, refl, Bool, true, false, ◌&&◌, List, [], ◌∷◌, arith, if◌then◌else◌,
}
use order_lifecycle_backend.World.{
  Platform, World, RedisKey, order_key, user_orders_key, KeyClass, order_class, orders_class,
  CacheCounts, CacheResult, hit, miss, Metric,
}
use order_lifecycle_backend.Cache.{
  get, Stats, counts_of, set_counts, same_class, record_read, get_stats, collect, bump,
}

abbrev same_result : CacheResult → CacheResult → Bool
same_result hit hit = true
same_result miss miss = true
same_result _ _ = false

-- Whether a sample is a cache read of the class with the result.
abbrev pub is_read : KeyClass → CacheResult → Metric → Bool
is_read c r (Metric.cache_request d s) = same_class d c && same_result s r
is_read c r _ = false

-- The number of cache reads of the class with the result among the samples.
abbrev pub reads : KeyClass → CacheResult → List Metric → ℕ
reads c r [] = 0
reads c r (x ∷ xs) = if is_read c r x then suc (reads c r xs) else reads c r xs

abbrev all_reads : CacheResult → List Metric → ℕ
all_reads r xs = reads order_class r xs + reads orders_class r xs

abbrev sum_hits : Stats → ℕ
sum_hits [] = 0
sum_hits ((_, n) ∷ s) = n.hits + sum_hits s

abbrev sum_misses : Stats → ℕ
sum_misses [] = 0
sum_misses ((_, n) ∷ s) = n.misses + sum_misses s

-- The counters of each class, and the overall ones of `get_stats`, are the recorded samples.
pub record IsCounted (w : World) : Type 0 where
  pub order_hits : (counts_of order_class w.cache_stats).hits ≡ reads order_class hit w.metrics
  pub order_misses : (counts_of order_class w.cache_stats).misses ≡ reads order_class miss w.metrics
  pub orders_hits : (counts_of orders_class w.cache_stats).hits ≡ reads orders_class hit w.metrics
  pub orders_misses :
      (counts_of orders_class w.cache_stats).misses ≡ reads orders_class miss w.metrics
  pub overall_hits : (get_stats w.cache_stats).1.hits ≡ all_reads hit w.metrics
  pub overall_misses : (get_stats w.cache_stats).1.misses ≡ all_reads miss w.metrics

collect-sums :
    (s : Stats) (h m : ℕ)
    → ((collect s h m).1 ≡ h + sum_hits s) × ((collect s h m).2 ≡ m + sum_misses s)
collect-sums [] h m = omega arith
collect-sums ((c, n) ∷ s) h m = ground (arith, collect-sums s (h + n.hits) (m + n.misses))

counts-set_self : (c : KeyClass) (n : CacheCounts) (s : Stats) → counts_of c (set_counts c n s) ≡ n
counts-set_self order_class n [] = refl
counts-set_self orders_class n [] = refl
counts-set_self c n ((d, m) ∷ s) = ground (arith, counts-set_self c n s)

counts-set_ne :
    (c d : KeyClass) (n : CacheCounts) (s : Stats)
    → same_class d c ≡ false
    → counts_of c (set_counts d n s) ≡ counts_of c s
counts-set_ne c d n [] h = ground arith
counts-set_ne c d n ((e, m) ∷ s) h = ground (arith, counts-set_ne c d n s h)

sums-set :
    (c : KeyClass) (n : CacheCounts) (s : Stats)
    → (sum_hits (set_counts c n s) + (counts_of c s).hits ≡ sum_hits s + n.hits)
      × (sum_misses (set_counts c n s) + (counts_of c s).misses ≡ sum_misses s + n.misses)
sums-set c n [] = omega arith
sums-set c n ((d, m) ∷ s) = ground (arith, sums-set c n s)

module _ (w : World) (v : IsCounted w) where
  laws :
      (c d : KeyClass) (n : CacheCounts)
      → same_class c d ≡ false
      → (counts_of c (set_counts c n w.cache_stats) ≡ n)
        × (counts_of d (set_counts c n w.cache_stats) ≡ counts_of d w.cache_stats)
  laws c d n h = (counts-set_self c n w.cache_stats, counts-set_ne d c n w.cache_stats h)

  record_read-IsCounted : (key : RedisKey) (found : Bool) → IsCounted (record_read key found w).1
  unfolding get_stats
  record_read-IsCounted (order_key i) found =
      let old = counts_of order_class w.cache_stats in
      let new = bump found old in
      ground (
        arith,
        laws order_class orders_class new refl,
        sums-set order_class new w.cache_stats,
        collect-sums w.cache_stats 0 0,
        collect-sums (set_counts order_class new w.cache_stats) 0 0,
      )
  record_read-IsCounted (user_orders_key i) found =
      let old = counts_of orders_class w.cache_stats in
      let new = bump found old in
      ground (
        arith,
        laws orders_class order_class new refl,
        sums-set orders_class new w.cache_stats,
        collect-sums w.cache_stats 0 0,
        collect-sums (set_counts orders_class new w.cache_stats) 0 0,
      )

-- Every cache read keeps the counters equal to the samples: per key class and overall, hits and
-- misses apart.
pub get-IsCounted :
    (P : Platform) (key : RedisKey) (w : World) → IsCounted w → IsCounted (get P key w).1
unfolding get
get-IsCounted P key w v =
    ground (arith, record_read-IsCounted w v key true, record_read-IsCounted w v key false)
