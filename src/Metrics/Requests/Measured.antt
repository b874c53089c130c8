-- ===== src/Metrics/Requests/Measured.antt =====
-- What the histogram and the durable samples of requests have in common
-- (src/modules/metrics/http-metrics.interceptor.ts).
use order_lifecycle_backend.Prelude.{
  ℕ, ◌≡◌, refl, ap, Bool, false, true, not, inl, inr, some, List, [], ◌∷◌, ◌++◌, every, arith,
  Bool-cases,
}
use order_lifecycle_backend.Metrics.Requests.{
  HttpRequest, Context, http, rpc, Emission, next, error, Observation, Recorded, route_pattern,
  is_scrape, status_of, observe, tap, intercept,
}

abbrev is_request : Observation → Bool
is_request x = not (is_scrape x.route)

-- The sink has the histogram's observations, and none of them is a scrape.
pub record IsMirrored (s : Recorded) : Type 0 where
  pub mirrored : s.sink ≡ some s.histogram
  pub requests : every is_request s.histogram ≡ true

every-append :
    (xs : List Observation) (x : Observation)
    → every is_request xs ≡ true
    → is_request x ≡ true
    → every is_request (xs ++ x ∷ []) ≡ true
every-append [] x h k = ground arith
every-append (y ∷ xs) x h k = ground (arith, every-append xs x)

module _ (request : HttpRequest) (measured : is_scrape (route_pattern request) ≡ false) where
  observe-IsMirrored :
      (start at status_code : ℕ) (s : Recorded)
      → IsMirrored s
      → IsMirrored (observe request start at status_code s)
  observe-IsMirrored start at status_code s h = record {
    mirrored = rw (h.mirrored) refl;
    requests = every-append s.histogram _ h.requests (ap not measured);
  }

  tap-IsMirrored :
      (start : ℕ) (es : List (ℕ × Emission)) (s : Recorded)
      → IsMirrored s
      → IsMirrored (tap request start es s)
  tap-IsMirrored start [] s h = h
  tap-IsMirrored start ((at, next code) ∷ es) s h =
      tap-IsMirrored start es _ (observe-IsMirrored start at code s h)
  tap-IsMirrored start ((at, error code) ∷ es) s h =
      observe-IsMirrored start at (status_of (error code)) s h

-- Whatever a call does, Prometheus and the history go on to agree on the requests, and a scrape is
-- in neither.
pub intercept-IsMirrored :
    (context : Context) (start : ℕ) (es : List (ℕ × Emission)) (s : Recorded)
    → IsMirrored s
    → IsMirrored (intercept context start es s)
unfolding intercept
intercept-IsMirrored rpc start es s h = h
intercept-IsMirrored (http request) start es s h =
    elim (Bool-cases (is_scrape (route_pattern request))) [
      | inl scrape ↦ rw scrape h
      | inr measured ↦ rw measured (tap-IsMirrored request measured start es s h)
    ]
