-- ===== src/Tests/Payments.antt =====
-- A decided authorisation, at concrete inputs.
use order_lifecycle_backend.Prelude.{ℕ, Bool, false, Option, some, List, [], ◌∷◌}
use order_lifecycle_backend.Entities.{reserved}
use order_lifecycle_backend.World.{World}
use order_lifecycle_backend.Payment.Gateway.{PaymentResult, charge, undecided}
use order_lifecycle_backend.Payment.Gateway.Races.{
  LedgerStep, recording, claiming, elapsing, charging, authorizing, losing,
}
use order_lifecycle_backend.Tests.{world, order, payment_event}

abbrev start : World
start = world (order reserved (some 40))

-- The world with a row in the ledger, at a time.
abbrev holding : Option Bool → ℕ → World
holding decision now = record start {
  now = now;
  db = record (start.db) {
    authorizations = record (undecided 1 50) { authorized = decision } ∷ [];
  };
}

-- Meanwhile a stale claimant has been answered otherwise, and a day has gone by.
abbrev steps : List LedgerStep
steps =
    recording 1 refused
    ∷ claiming 1
    ∷ elapsing 90000000
    ∷ charging charge payment_event
    ∷ authorizing charge payment_event
    ∷ losing charge payment_event
    ∷ []
  where
    refused : PaymentResult
    refused = record { authorized = false; decline_reason = some "no funds" }
