-- ===== src/Payment/Gateway.antt =====
-- The payment gateway (src/modules/payment/payment.gateway.ts), idempotent per order. What the
-- provider answers to a charge is a parameter, as the code's seam for a real provider is.
pub mod Ledger
pub mod Races
use order_lifecycle_backend.Prelude.{
  ℕ, ◌+◌, String, Bool, true, false, ◌&&◌, Option, none, some, List, [], ◌∷◌, ◌++◌, ltb,
  if◌then◌else◌, find_by, update_where, at_key,
}
use order_lifecycle_backend.Entities.{OrderEvent, PaymentAuthorization}
use order_lifecycle_backend.World.{
  World, M, Result, ok, err, pure, gets, payment_in_flight, modify_db, ◌>>=◌, ◌>>◌, PaymentOutcome,
  authorized, declined, deduplicated, in_flight, takeover,
}
use order_lifecycle_backend.Metrics.{record_payment_outcome}

pub record PaymentResult : Type 0 where
  pub authorized : Bool
  pub decline_reason : Option String

-- An order's charge under an idempotency key.
abbrev pub Provider : Type 0
Provider = OrderEvent → ℕ → PaymentResult

-- `charge`: the simulated provider always authorises.
unfoldable pub charge : Provider
charge event key = record { authorized = true; decline_reason = none }

abbrev pub stale_claim_ms : ℕ
stale_claim_ms = 30_000

abbrev pub ledger_key : PaymentAuthorization → ℕ
ledger_key a = a.order_id

abbrev pub is_undecided : PaymentAuthorization → Bool
is_undecided a = elim a.authorized [ none ↦ true | some _ ↦ false ]

abbrev pub undecided : ℕ → ℕ → PaymentAuthorization
undecided order_id now = record {
  order_id = order_id;
  authorized = none;
  decline_reason = none;
  created_at = now;
}

abbrev pub insert_if :
    Option PaymentAuthorization → ℕ → ℕ → List PaymentAuthorization → List PaymentAuthorization
insert_if none order_id now rows = rows ++ undecided order_id now ∷ []
insert_if (some _) order_id now rows = rows

abbrev pub is_absent : Option PaymentAuthorization → Bool
is_absent none = true
is_absent (some _) = false

-- `claim`: INSERT ... ON CONFLICT DO NOTHING RETURNING
unfoldable pub claim : ℕ → M Bool
claim order_id w = (
  ok (is_absent (find_by ledger_key order_id w.db.authorizations)),
  record w {
    db = record (w.db) {
      authorizations =
          insert_if (find_by ledger_key order_id w.db.authorizations) order_id w.now
            w.db.authorizations;
    };
  },
)

abbrev pub stale_row : ℕ → Option PaymentAuthorization → Bool
stale_row now none = false
stale_row now (some a) = is_undecided a && ltb (a.created_at + stale_claim_ms) now

-- `isClaimStale`, by the database's clock
unfoldable pub is_claim_stale : ℕ → World → Bool
is_claim_stale order_id w = stale_row w.now (find_by ledger_key order_id w.db.authorizations)

abbrev pub decline_reason_of : Bool → Option String → Option String
decline_reason_of true reason = none
decline_reason_of false reason = reason

-- `toResult` of a decided row
abbrev pub to_result : Bool → Option String → PaymentResult
to_result decision reason = record {
  authorized = decision;
  decline_reason = decline_reason_of decision reason;
}

abbrev pub outcome_of : Bool → PaymentOutcome
outcome_of true = authorized
outcome_of false = declined

abbrev pub decide : PaymentResult → PaymentAuthorization → PaymentAuthorization
decide r a = record a { authorized = some r.authorized; decline_reason = r.decline_reason }

-- `authorizations.update({ orderId, authorized: IsNull() }, { ... })`
unfoldable pub record_decision : ℕ → PaymentResult → M (Unit {0})
record_decision order_id r = modify_db (λ db. record db {
  authorizations =
      update_where (at_key ledger_key order_id is_undecided) (decide r) db.authorizations;
})

module _ (provider : Provider) where
  -- `charge`, and the count of its answer
  abbrev pub call_provider : OrderEvent → M PaymentResult
  call_provider event w =
      let result = provider event event.order_id in
      (record_payment_outcome (outcome_of result.authorized) >> pure result)
        (record w { charges = event.order_id ∷ w.charges })

  -- The call of the provider and the recording of its decision.
  unfoldable pub charge_and_record : OrderEvent → M PaymentResult
  charge_and_record event = do
    result ← call_provider event
    record_decision event.order_id result
    pure result

  -- A lost claim that holds no decision: in flight, or stale and taken over.
  unfoldable pub await_or_take_over : OrderEvent → M PaymentResult
  await_or_take_over event w =
      if is_claim_stale event.order_id w
      then (record_payment_outcome takeover >> charge_and_record event) w
      else (err (payment_in_flight event.order_id), (record_payment_outcome in_flight w).1)

  abbrev pub reuse_or_await : OrderEvent → Option PaymentAuthorization → M PaymentResult
  reuse_or_await event none = await_or_take_over event
  reuse_or_await event (some a) = elim a.authorized [
    | none ↦ await_or_take_over event
    | some decision ↦
        record_payment_outcome deduplicated >> pure (to_result decision a.decline_reason)
  ]

  -- A lost claim.
  unfoldable pub after_lost_claim : OrderEvent → M PaymentResult
  after_lost_claim event = do
    existing ← gets (λ w. find_by ledger_key event.order_id w.db.authorizations)
    reuse_or_await event existing

  abbrev pub proceed : OrderEvent → Bool → M PaymentResult
  proceed event true = charge_and_record event
  proceed event false = after_lost_claim event

  -- `authorize`, undisturbed; Races runs its statements between those of other calls
  unfoldable pub authorize : OrderEvent → M PaymentResult
  authorize event = do won ← claim event.order_id; proceed event won
