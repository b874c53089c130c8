-- ===== src/Metrics/Requests.antt =====
-- The measurement of requests (src/modules/metrics/http-metrics.interceptor.ts). Times are
-- milliseconds, and a number of seconds is kept in thousandths.
pub mod Measured
use order_lifecycle_backend.Prelude.{
  ℕ, ◌-◌, Bool, not, String, Option, none, some, List, [], ◌∷◌, ◌++◌, same_text, if◌then◌else◌,
}

-- The Express request: its method, and the pattern of the route that has matched.
pub record HttpRequest : Type 0 where
  pub method : String
  pub route : Option String

-- Nest also runs the interceptor around the RabbitMQ consumers.
pub data Context : Type 0 where
  http : HttpRequest → Context
  rpc : Context

-- What the handler's observable does: it emits a value while the response has a status, or it
-- fails, with the `status` of the error if it has one.
pub data Emission : Type 0 where
  next : (status_code : ℕ) → Emission
  error : (status : Option ℕ) → Emission

pub record Observation : Type 0 where
  pub method : String
  pub route : String
  pub status_code : ℕ
  pub duration_ms : ℕ

-- The histogram's observations, and the durable sink's samples if a sink is set, oldest first.
pub record Recorded : Type 0 where
  pub histogram : List Observation
  pub sink : Option (List Observation)

abbrev pub route_pattern : HttpRequest → String
route_pattern request = elim request.route [ none ↦ "unknown" | some path ↦ path ]

abbrev pub scrape_route : String
scrape_route = "/metrics"

abbrev pub is_scrape : String → Bool
is_scrape route = same_text route scrape_route

-- `sink?.record(...)`
abbrev pub record_in_sink : Observation → Option (List Observation) → Option (List Observation)
record_in_sink x none = none
record_in_sink x (some samples) = some (samples ++ x ∷ [])

abbrev pub status_of : Emission → ℕ
status_of (next status_code) = status_code
status_of (error none) = 500
status_of (error (some status)) = status

-- `observe`, at a time after the start
abbrev pub observe : HttpRequest → (start at status_code : ℕ) → Recorded → Recorded
observe request start at status_code s =
    let x : Observation = record {
      method = request.method;
      route = route_pattern request;
      status_code = status_code;
      duration_ms = at - start;
    } in
    record { histogram = s.histogram ++ x ∷ []; sink = record_in_sink x s.sink }

-- `tap`: what the observable does in order of time; an error ends it.
abbrev pub tap : HttpRequest → ℕ → List (ℕ × Emission) → Recorded → Recorded
tap request start [] s = s
tap request start ((at, next code) ∷ es) s = tap request start es (observe request start at code s)
tap request start ((at, error code) ∷ es) s = observe request start at (status_of (error code)) s

-- `intercept`, at the start of a call
unfoldable pub intercept : Context → ℕ → List (ℕ × Emission) → Recorded → Recorded
intercept rpc start es s = s
intercept (http request) start es s =
    let measured = tap request start es s in
    if is_scrape (route_pattern request) then s else measured
