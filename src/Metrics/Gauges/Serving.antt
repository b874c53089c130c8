-- ===== src/Metrics/Gauges/Serving.antt =====
-- How old a served snapshot of the gauges can be (src/modules/metrics/live-gauges.service.ts).
use order_lifecycle_backend.Prelude.{
  ℕ, ◌+◌, ◌-◌, ◌≡◌, ◌≤◌, refl, inl, inr, none, some, List, [], ◌∷◌, arith, ltb, Bool-cases,
  Option-cases,
}
use order_lifecycle_backend.Metrics.Gauges.{
  LiveGaugeSnapshot, Surroundings, ChannelState, GaugeState, load, snapshot, snapshot_ttl_ms,
}
use mathlib.Core.List.{Memᴰ}

-- A visit: what a load would meet, and the time.
abbrev pub Visit : Type 0
Visit = Surroundings × ℕ

-- The state after these visits, the newest first.
unfoldable pub after_visits : List Visit → GaugeState → GaugeState
after_visits [] s = s
after_visits ((around, now) ∷ vs) s = (snapshot around now (after_visits vs s)).1

-- A snapshot was loaded at a time, on one of these visits.
pub record IsLoaded (vs : List Visit) (at : ℕ) (value : LiveGaugeSnapshot) : Type 0 where
  pub around : Surroundings
  pub channel : ChannelState
  pub visited : Memᴰ (around, at) vs
  pub loaded : value ≡ (load around at channel).0

abbrev IsCached : List Visit → GaugeState → Type 0
IsCached vs s =
    (at : ℕ) (value : LiveGaugeSnapshot) → s.cached ≡ some (at, value) → IsLoaded vs at value

later :
    (v : Visit) (vs : List Visit) (at : ℕ) (value : LiveGaugeSnapshot)
    → IsLoaded vs at value
    → IsLoaded (v ∷ vs) at value
later v vs at value h = record {
  around = h.around;
  channel = h.channel;
  visited = Memᴰ.tail h.visited;
  loaded = h.loaded;
}

-- What a snapshot is served from: the cache within its time, or a load at this moment.
pub data Served (around : Surroundings) (now : ℕ) (s : GaugeState)
    (r : LiveGaugeSnapshot × GaugeState) : Type 0 where
  reused :
      (at : ℕ)
      → s.cached ≡ some (at, r.0)
      → now ≤ at + snapshot_ttl_ms
      → r.1 ≡ s
      → Served around now s r
  reloaded :
      r.0 ≡ (load around now s.channel).0 → r.1.cached ≡ some (now, r.0) → Served around now s r

snapshot-Served :
    (around : Surroundings) (now : ℕ) (s : GaugeState) → Served around now s (snapshot around now s)
unfolding snapshot
snapshot-Served around now s = elim (Option-cases s.cached) [
  | inl e ↦ reloaded (ground arith) (ground arith)
  | inr ((at, value), e) ↦ elim (Bool-cases (ltb snapshot_ttl_ms (now - at))) [
    | inl stale ↦ reloaded (ground arith) (ground arith)
    | inr young ↦ reused at (ground arith) (ground arith) (ground arith)
  ]
]

snapshot-IsCached :
    (around : Surroundings) (now : ℕ) (vs : List Visit) (s : GaugeState)
    → IsCached vs s
    → IsCached ((around, now) ∷ vs) (snapshot around now s).1
snapshot-IsCached around now vs s h at value e = elim (snapshot-Served around now s) [
  | reused _ _ _ kept ↦ later (around, now) vs at value (h at value (ground arith))
  | reloaded fresh cached ↦ record {
    around = around;
    channel = s.channel;
    visited = Memᴰ.head (ground arith);
    loaded = ground arith;
  }
]

after_visits-IsCached :
    (vs : List Visit) (s : GaugeState) → s.cached ≡ none → IsCached vs (after_visits vs s)
unfolding after_visits
after_visits-IsCached [] s h = λ at value e. absurd (ground arith)
after_visits-IsCached ((around, now) ∷ vs) s h =
    snapshot-IsCached around now vs (after_visits vs s) (after_visits-IsCached vs s h)

-- A snapshot that is served was loaded whole, on this visit or an earlier one, at most two seconds
-- before.
pub snapshot-IsLoaded :
    (vs : List Visit) (s : GaugeState) (around : Surroundings) (now : ℕ)
    → s.cached ≡ none
    → (at : ℕ) × IsLoaded ((around, now) ∷ vs) at (snapshot around now (after_visits vs s)).0
      × (now ≤ at + snapshot_ttl_ms)
snapshot-IsLoaded vs s around now h = elim (snapshot-Served around now (after_visits vs s)) [
  | reused at e young kept ↦
      (at, later (around, now) vs at _ (after_visits-IsCached vs s h at _ e), young)
  | reloaded fresh cached ↦ (
    now,
    record {
      around = around;
      channel = (after_visits vs s).channel;
      visited = Memᴰ.head refl;
      loaded = fresh;
    },
    omega arith,
  )
]
