-- ===== src/Cache/FailOpen.antt =====
-- The cache operations when Redis answers, has no key, fails, or is off
-- (src/modules/cache/cache.service.ts).
use order_lifecycle_backend.Prelude.{ℕ, ◌≡◌, Option, none, some, List, arith, if◌then◌else◌}
use order_lifecycle_backend.World.{
  Platform, World, ok, RedisKey, Cached, Reply, failure, null, value,
}
use order_lifecycle_backend.World.Harmless.{IsHarmless, Harmless}
use order_lifecycle_backend.Cache.{get, set_value, del_keys}

-- What a reply of the server is worth to a reader.
abbrev pub usable : Reply → Option Cached
usable (value v) = some v
usable null = none
usable failure = none

module _ (P : Platform) where
  -- What the server offers a reader, when caching is on.
  abbrev pub answered : World → RedisKey → Option Cached
  answered w key = if w.cache_enabled then usable (P.redis_get w.now w.redis key) else none

  -- A cache read always returns: the server's value if caching is on and the server has one, and
  -- a miss when it is off, when the key is absent and when the client fails. It sends no write
  -- to the server and leaves the tables alone.
  pub get_fail_open :
      (key : RedisKey) (w : World)
      → ((get P key w).0 ≡ ok (answered w key))
        × IsHarmless w (get P key w).1
        × ((get P key w).1.redis ≡ w.redis)
  unfolding get
  get_fail_open key w = ground arith

  pub set_value-returns :
      (key : RedisKey) (v : Cached) (ttl : ℕ) (w : World)
      → ((set_value P key v ttl w).0 ≡ ok tt) × ((set_value P key v ttl w).1.db ≡ w.db)
  unfolding set_value
  set_value-returns key v ttl w = ground arith

  pub del_keys-Harmless : (keys : List RedisKey) → Harmless (del_keys P keys)
  unfolding del_keys
  del_keys-Harmless keys w = ground arith
