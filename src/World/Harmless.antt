-- ===== src/World/Harmless.antt =====
-- Bookkeeping actions: those that always return, change no table, identifier or charge, and store
-- no order or list of orders in Redis.
use order_lifecycle_backend.Prelude.{ℕ, ◌≡◌, ◌∙◌, List, [], ◌∷◌}
use order_lifecycle_backend.Entities.{Order}
use order_lifecycle_backend.World.{
  World, M, ok, ◌>>=◌, ◌>>◌, RedisCommand, set, del, order_key, user_orders_key, one, many,
}

-- The orders that have been stored under `order:<id>`, newest first, deleted or not.
abbrev pub order_entries : List RedisCommand → List (ℕ × Order)
order_entries [] = []
order_entries (set (order_key i) (one o) ttl ∷ log) = (i, o) ∷ order_entries log
order_entries (set (order_key i) (many os) ttl ∷ log) = order_entries log
order_entries (set (user_orders_key u) v ttl ∷ log) = order_entries log
order_entries (del keys ∷ log) = order_entries log

-- The lists that have been stored under `orders:user:<userId>`, newest first, deleted or not.
abbrev pub list_entries : List RedisCommand → List (ℕ × List Order)
list_entries [] = []
list_entries (set (user_orders_key u) (many os) ttl ∷ log) = (u, os) ∷ list_entries log
list_entries (set (user_orders_key u) (one o) ttl ∷ log) = list_entries log
list_entries (set (order_key i) v ttl ∷ log) = list_entries log
list_entries (del keys ∷ log) = list_entries log

-- The tables, the drawn identifiers, the charges, the clock, the context and the stored orders are
-- and lists are as before.
pub record IsHarmless (w w' : World) : Type 0 where
  pub db : w'.db ≡ w.db
  pub drawn : w'.drawn ≡ w.drawn
  pub charges : w'.charges ≡ w.charges
  pub now : w'.now ≡ w.now
  pub context : w'.correlation ≡ w.correlation
  pub entries : order_entries w'.redis ≡ order_entries w.redis
  pub lists : list_entries w'.redis ≡ list_entries w.redis

-- An action that always returns and is harmless.
abbrev pub Harmless : M (Unit {0}) → Type 0
Harmless m = (w : World) → ((m w).0 ≡ ok tt) × IsHarmless w (m w).1

pub IsHarmless-trans : {u v w : World} → IsHarmless u v → IsHarmless v w → IsHarmless u w
IsHarmless-trans h k = record {
  db = k.db ∙ h.db;
  drawn = k.drawn ∙ h.drawn;
  charges = k.charges ∙ h.charges;
  now = k.now ∙ h.now;
  context = k.context ∙ h.context;
  entries = k.entries ∙ h.entries;
  lists = k.lists ∙ h.lists;
}

-- A harmless action is gone through: what follows runs in the world that it leaves.
pub >>-Harmless_lem :
    {B : Type 0} (m : M (Unit {0})) (k : M B) (w : World) → Harmless m → (m >> k) w ≡ k (m w).1
>>-Harmless_lem m k w h = rw ((h w).0, ◌>>=◌)

pub >>-Harmless : (m k : M (Unit {0})) → Harmless m → Harmless k → Harmless (m >> k)
>>-Harmless m k h g w =
    rw (>>-Harmless_lem m k w h) ((g (m w).1).0, IsHarmless-trans (h w).1 (g (m w).1).1)
