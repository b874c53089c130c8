-- ===== src/Payment/Gateway/Races.antt =====
-- Authorisations whose statements run between those of others (`authorize`,
-- src/modules/payment/payment.gateway.ts): owners that are slow or have crashed, takeovers of their
-- claims, and decisions that are recorded late.
use order_lifecycle_backend.Prelude.{
  ℕ, ◌≡◌, refl, ap, ◌∙◌, inl, inr, Bool, true, false, some, List, [], ◌∷◌, arith, ◌==◌, Bool-cases,
  Option-cases, find_by, find_by-update_ne, find_by-update_self, find_by-insert_old, ==_apart,
  ==_sound,
}
use order_lifecycle_backend.Entities.{OrderEvent, PaymentAuthorization}
use order_lifecycle_backend.World.{World, ok}
use order_lifecycle_backend.Payment.Gateway.{
  PaymentResult, Provider, ledger_key, undecided, is_undecided, decide, to_result, claim,
  is_claim_stale, record_decision, call_provider, charge_and_record, await_or_take_over,
  after_lost_claim, authorize, proceed,
}
use order_lifecycle_backend.Payment.Gateway.Ledger.{ledger_row, authorize_decided, authorize-Holds}

-- The statements that write, of calls that may be anywhere in between: a claim, a call of the
-- provider by the winner of a claim or by a takeover, and the recording of an answer, which may be
-- another one than the ledger has by then; calls that run undisturbed; and time.
pub data LedgerStep : Type 0 where
  claiming : (order_id : ℕ) → LedgerStep
  charging : Provider → OrderEvent → LedgerStep
  recording : (order_id : ℕ) → PaymentResult → LedgerStep
  losing authorizing : Provider → OrderEvent → LedgerStep
  elapsing : (now : ℕ) → LedgerStep

unfoldable pub ledger_step : LedgerStep → World → World
ledger_step (claiming order_id) w = (claim order_id w).1
ledger_step (charging provider event) w = (call_provider provider event w).1
ledger_step (recording order_id result) w = (record_decision order_id result w).1
ledger_step (losing provider event) w = (after_lost_claim provider event w).1
ledger_step (authorizing provider event) w = (authorize provider event w).1
ledger_step (elapsing now) w = record w { now = now }

unfoldable pub ledger_run : List LedgerStep → World → World
ledger_run [] w = w
ledger_run (s ∷ ss) w = ledger_run ss (ledger_step s w)

-- A decided row of the ledger.
module _ (id : ℕ) (a : PaymentAuthorization) (decided : is_undecided a ≡ false) where
  claim-keeps :
      (j : ℕ) (w : World) → ledger_row id w ≡ some a → ledger_row id (claim j w).1 ≡ some a
  unfolding claim
  claim-keeps j w h = elim (Option-cases (find_by ledger_key j w.db.authorizations)) [
    | inl free ↦
        rw free (find_by-insert_old ledger_key id (undecided j w.now) a w.db.authorizations h)
    | inr (b, taken) ↦ rw taken h
  ]

  record_decision-keeps :
      (j : ℕ) (r : PaymentResult) (w : World)
      → ledger_row id w ≡ some a
      → ledger_row id (record_decision j r w).1 ≡ some a
  unfolding record_decision
  record_decision-keeps j r w h = elim (Bool-cases (id == j)) [
    | inl same ↦ ground (
      arith,
      find_by-update_self ledger_key id is_undecided (decide r) (λ x. refl) w.db.authorizations a h,
      ==_sound id j same,
    )
    | inr other ↦
        find_by-update_ne ledger_key j is_undecided (decide r) (λ x. refl) id w.db.authorizations
          (==_apart id j other)
        ∙ h
  ]

  charge_and_record-keeps :
      (provider : Provider) (event : OrderEvent) (w : World)
      → ledger_row id w ≡ some a
      → ledger_row id (charge_and_record provider event w).1 ≡ some a
  unfolding charge_and_record record_decision
  charge_and_record-keeps provider event w h =
      record_decision-keeps event.order_id (provider event event.order_id)
        (call_provider provider event w).1 h

  await_or_take_over-keeps :
      (provider : Provider) (event : OrderEvent) (w : World)
      → ledger_row id w ≡ some a
      → ledger_row id (await_or_take_over provider event w).1 ≡ some a
  unfolding await_or_take_over
  await_or_take_over-keeps provider event w h =
      elim (Bool-cases (is_claim_stale event.order_id w)) [
        | inl stale ↦ rw stale (charge_and_record-keeps provider event _ h)
        | inr live ↦ rw live h
      ]

  after_lost_claim-keeps :
      (provider : Provider) (event : OrderEvent) (w : World)
      → ledger_row id w ≡ some a
      → ledger_row id (after_lost_claim provider event w).1 ≡ some a
  unfolding after_lost_claim
  after_lost_claim-keeps provider event w h =
      elim (Option-cases (find_by ledger_key event.order_id w.db.authorizations)) [
        | inl missing ↦ rw missing (await_or_take_over-keeps provider event w h)
        | inr (b, found) ↦ elim (Option-cases b.authorized) [
          | inl open_ ↦ rw (found, open_) (await_or_take_over-keeps provider event w h)
          | inr (d, known) ↦ rw (found, known) h
        ]
      ]

  proceed-keeps :
      (provider : Provider) (event : OrderEvent) (won : Bool) (w : World)
      → ledger_row id w ≡ some a
      → ledger_row id (proceed provider event won w).1 ≡ some a
  proceed-keeps provider event true = charge_and_record-keeps provider event
  proceed-keeps provider event false = after_lost_claim-keeps provider event

  authorize-keeps :
      (provider : Provider) (event : OrderEvent) (w : World)
      → ledger_row id w ≡ some a
      → ledger_row id (authorize provider event w).1 ≡ some a
  unfolding authorize claim
  authorize-keeps provider event w h =
      proceed-keeps provider event _ (claim event.order_id w).1 (claim-keeps event.order_id w h)

  ledger_step-keeps :
      (s : LedgerStep) (w : World)
      → ledger_row id w ≡ some a
      → ledger_row id (ledger_step s w) ≡ some a
  unfolding ledger_step
  ledger_step-keeps (claiming j) w h = claim-keeps j w h
  ledger_step-keeps (charging provider event) w h = h
  ledger_step-keeps (recording j r) w h = record_decision-keeps j r w h
  ledger_step-keeps (losing provider event) w h = after_lost_claim-keeps provider event w h
  ledger_step-keeps (authorizing provider event) w h = authorize-keeps provider event w h
  ledger_step-keeps (elapsing now) w h = h

  ledger_run-keeps :
      (ss : List LedgerStep) (w : World)
      → ledger_row id w ≡ some a
      → ledger_row id (ledger_run ss w) ≡ some a
  unfolding ledger_run
  ledger_run-keeps [] w h = h
  ledger_run-keeps (s ∷ ss) w h = ledger_run-keeps ss (ledger_step s w) (ledger_step-keeps s w h)

undecided-false :
    (a : PaymentAuthorization) (d : Bool) → a.authorized ≡ some d → is_undecided a ≡ false
undecided-false a d h = rw h refl

pub decision_final :
    (a : PaymentAuthorization) (d : Bool) (event : OrderEvent) (w : World)
    → ledger_row event.order_id w ≡ some a
    → a.authorized ≡ some d
    → (ss : List LedgerStep) (again : Provider)
    → (ledger_row event.order_id (ledger_run ss w) ≡ some a)
      × ((authorize again event (ledger_run ss w)).0 ≡ ok (to_result d a.decline_reason))
      × ((authorize again event (ledger_run ss w)).1.charges ≡ (ledger_run ss w).charges)
      × ((authorize again event (ledger_run ss w)).1.db ≡ (ledger_run ss w).db)
decision_final a d event w row decided ss again =
    let kept = ledger_run-keeps event.order_id a (undecided-false a d decided) ss w row in
    let stored = authorize_decided again event (ledger_run ss w) a d kept decided in
    (kept, stored.0, stored.1, stored.2)

-- A result that an undisturbed authorisation has returned is returned again after any such steps.
authorize_ever :
    (provider again : Provider) (event : OrderEvent) (w w' : World) (r : PaymentResult)
    → authorize provider event w ≡ (ok r, w')
    → (ss : List LedgerStep)
    → (authorize again event (ledger_run ss w')).0 ≡ ok (to_result r.authorized r.decline_reason)
authorize_ever provider again event w w' r e ss =
    let (a, row, decided, reason) = authorize-Holds provider event w w' r e in
    (decision_final a r.authorized event w' row decided ss again).1 ∙ ap ok reason
