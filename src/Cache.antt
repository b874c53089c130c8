-- ===== src/Cache.antt =====
-- The cache-aside helper over Redis (src/modules/cache/cache.service.ts). Every operation is
-- fail-open: an error of the client becomes a miss or a no-op.
pub mod FailOpen
pub mod Counters
use order_lifecycle_backend.Prelude.{
  ℕ, ◌+◌, suc, Bool, true, false, not, ◌&&◌, Option, none, some, List, [], ◌∷◌, ◌==◌, if◌then◌else◌,
}
use order_lifecycle_backend.World.{
  Platform, World, M, ok, pure, ◌>>=◌, ◌>>◌, RedisKey, order_key, user_orders_key, Cached,
  RedisCommand, set, del, Reply, value, null, failure, KeyClass, order_class, orders_class,
  CacheCounts, CacheResult, hit, miss,
}
use order_lifecycle_backend.Metrics.{record_cache_request}

-- `keyClass`: the prefix of the key before the first ':'.
abbrev pub key_class : RedisKey → KeyClass
key_class (order_key _) = order_class
key_class (user_orders_key _) = orders_class

abbrev pub same_class : KeyClass → KeyClass → Bool
same_class order_class order_class = true
same_class orders_class orders_class = true
same_class _ _ = false

-- The `Map` of counters by key class, in insertion order.
abbrev pub Stats : Type 0
Stats = List (KeyClass × CacheCounts)

-- `this.stats.get(cls) ?? { hits: 0, misses: 0 }`
abbrev pub counts_of : KeyClass → Stats → CacheCounts
counts_of c [] = record { hits = 0; misses = 0 }
counts_of c ((d, n) ∷ stats) = if same_class d c then n else counts_of c stats

-- `this.stats.set(cls, counts)`
abbrev pub set_counts : KeyClass → CacheCounts → Stats → Stats
set_counts c n [] = (c, n) ∷ []
set_counts c n ((d, m) ∷ stats) =
    if same_class d c then (d, n) ∷ stats else (d, m) ∷ set_counts c n stats

abbrev bump : Bool → CacheCounts → CacheCounts
bump true n = record n { hits = n.hits + 1 }
bump false n = record n { misses = n.misses + 1 }

abbrev result_of : Bool → CacheResult
result_of true = hit
result_of false = miss

-- `record`
abbrev pub record_read : RedisKey → Bool → M (Unit {0})
record_read key found w = record_cache_request (key_class key) (result_of found) (record w {
  cache_stats =
      set_counts (key_class key) (bump found (counts_of (key_class key) w.cache_stats))
        w.cache_stats;
})

module _ (P : Platform) where
  -- `get`, once the client has answered
  abbrev answer : RedisKey → Reply → M (Option Cached)
  answer key (value v) = record_read key true >> pure (some v)
  answer key null = record_read key false >> pure none
  answer key failure = record_read key false >> pure none

  unfoldable pub get : RedisKey → M (Option Cached)
  get key w = if w.cache_enabled then answer key (P.redis_get w.now w.redis key) w else (ok none, w)

  -- A write, carried out if the server accepts it.
  abbrev send : RedisCommand → World → World
  send command w =
      if P.redis_accepts w.now w.redis command then record w { redis = command ∷ w.redis } else w

  unfoldable pub set_value : RedisKey → Cached → ℕ → M (Unit {0})
  set_value key v ttl w = (ok tt, if w.cache_enabled then send (set key v ttl) w else w)

  abbrev is_nil : List RedisKey → Bool
  is_nil [] = true
  is_nil (_ ∷ _) = false

  unfoldable pub del_keys : List RedisKey → M (Unit {0})
  del_keys keys w = (ok tt, if w.cache_enabled && not (is_nil keys) then send (del keys) w else w)

-- The hit rate as a fraction, numerator and denominator: 0 when nothing has been read.
pub record CacheClassStats : Type 0 where
  pub hits : ℕ
  pub misses : ℕ
  pub hit_rate : ℕ × ℕ

unfoldable pub with_rate : ℕ → ℕ → CacheClassStats
with_rate hits misses = record {
  hits = hits;
  misses = misses;
  hit_rate = if hits + misses == 0 then (0, 1) else (hits, hits + misses);
}

-- The loop of `getStats`, on the two running sums.
abbrev collect : Stats → ℕ → ℕ → List (KeyClass × CacheClassStats) × ℕ × ℕ
collect [] hits misses = ([], hits, misses)
collect ((c, n) ∷ stats) hits misses =
    let (by_class, h, m) = collect stats (hits + n.hits) (misses + n.misses) in
    ((c, with_rate n.hits n.misses) ∷ by_class, h, m)

unfoldable pub get_stats : Stats → List (KeyClass × CacheClassStats) × CacheClassStats
unfolding with_rate
get_stats stats = let (by_class, h, m) = collect stats 0 0 in (by_class, with_rate h m)
