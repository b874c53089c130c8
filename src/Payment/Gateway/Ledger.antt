-- ===== src/Payment/Gateway/Ledger.antt =====
-- The payment ledger's row of an order, on each path of an authorisation
-- (src/modules/payment/payment.gateway.ts).
use order_lifecycle_backend.Prelude.{
  String, ℕ, ◌+◌, ◌≤◌, ◌<◌, ◌≡◌, refl, inl, inr, Bool, true, false, Option, none, some, ◌∷◌, arith,
  ltb, Bool-cases, Option-cases, find_by, find_by-update_self, find_by-insert_self,
}
use order_lifecycle_backend.Entities.{OrderEvent, PaymentAuthorization}
use order_lifecycle_backend.World.{World, Result, ok, err, payment_in_flight}
use order_lifecycle_backend.Payment.Gateway.{
  PaymentResult, Provider, ledger_key, undecided, is_undecided, decide, to_result, claim,
  is_claim_stale, record_decision, stale_claim_ms, charge_and_record, await_or_take_over,
  after_lost_claim, authorize,
}

-- The ledger's row for an order.
abbrev pub ledger_row : ℕ → World → Option PaymentAuthorization
ledger_row order_id w = find_by ledger_key order_id w.db.authorizations

-- A claim that finds a row changes nothing, and is lost.
lost_claim :
    (provider : Provider) (event : OrderEvent) (w : World) (a : PaymentAuthorization)
    → ledger_row event.order_id w ≡ some a
    → authorize provider event w ≡ after_lost_claim provider event w
unfolding authorize claim
lost_claim provider event w a row = rw row

-- A claim that finds none inserts the undecided row and charges.
won_claim :
    (provider : Provider) (event : OrderEvent) (w : World)
    → ledger_row event.order_id w ≡ none
    → authorize provider event w ≡ charge_and_record provider event (claim event.order_id w).1
unfolding authorize claim
won_claim provider event w row = rw row

-- A stored decision is returned without another charge, and the tables stay as they were.
pub authorize_decided :
    (provider : Provider) (event : OrderEvent) (w : World) (a : PaymentAuthorization) (d : Bool)
    → ledger_row event.order_id w ≡ some a
    → a.authorized ≡ some d
    → ((authorize provider event w).0 ≡ ok (to_result d a.decline_reason))
      × ((authorize provider event w).1.charges ≡ w.charges)
      × ((authorize provider event w).1.db ≡ w.db)
unfolding after_lost_claim await_or_take_over
authorize_decided provider event w a d row decided =
    rw (lost_claim provider event w a row, row, decided) (ground arith)

-- While another delivery holds a live claim nothing is charged or written, and the error sends
-- the message to a retry.
pub authorize_in_flight :
    (provider : Provider) (event : OrderEvent) (w : World) (a : PaymentAuthorization)
    → ledger_row event.order_id w ≡ some a
    → a.authorized ≡ none
    → w.now ≤ a.created_at + stale_claim_ms
    → ((authorize provider event w).0 ≡ err (payment_in_flight event.order_id))
      × ((authorize provider event w).1.charges ≡ w.charges)
      × ((authorize provider event w).1.db ≡ w.db)
unfolding after_lost_claim await_or_take_over is_claim_stale
authorize_in_flight provider event w a row open_ live =
    rw (lost_claim provider event w a row) (ground arith)

module _ (provider : Provider) (event : OrderEvent) where
  -- The first authorisation of an order charges the provider once, under the order's id, returns
  -- its answer, and leaves that answer on the order's ledger row.
  pub authorize_first :
      (w : World)
      → ledger_row event.order_id w ≡ none
      → ((authorize provider event w).0 ≡ ok (provider event event.order_id))
        × ((authorize provider event w).1.charges ≡ event.order_id ∷ w.charges)
        × (ledger_row event.order_id (authorize provider event w).1
            ≡ some (decide (provider event event.order_id) (undecided event.order_id w.now)))
  unfolding charge_and_record claim record_decision
  authorize_first w row =
      rw (won_claim provider event w row, row)
        (
          refl,
          refl,
          find_by-update_self ledger_key event.order_id is_undecided
              (decide (provider event event.order_id)) (λ r. refl) _ _
              (find_by-insert_self ledger_key (undecided event.order_id w.now) w.db.authorizations
                row),
        )

  -- A stale claim is taken over: the provider is called again under the same idempotency key, its
  -- answer is returned, and the open row is decided by it.
  pub authorize_takeover :
      (w : World) (a : PaymentAuthorization)
      → ledger_row event.order_id w ≡ some a
      → a.authorized ≡ none
      → a.created_at + stale_claim_ms < w.now
      → ((authorize provider event w).0 ≡ ok (provider event event.order_id))
        × ((authorize provider event w).1.charges ≡ event.order_id ∷ w.charges)
        × (ledger_row event.order_id (authorize provider event w).1
            ≡ some (decide (provider event event.order_id) a))
  unfolding after_lost_claim await_or_take_over is_claim_stale charge_and_record record_decision
  authorize_takeover w a row open_ stale = rw (lost_claim provider event w a row) (
      ground (
        arith,
        find_by-update_self ledger_key event.order_id is_undecided
            (decide (provider event event.order_id)) (λ r. refl) w.db.authorizations a row,
      ))

-- The ledger holds a result: it would be returned again.
abbrev pub Holds : ℕ → PaymentResult → World → Type 0
Holds order_id r w =
    (a : PaymentAuthorization) × (ledger_row order_id w ≡ some a)
    × (a.authorized ≡ some r.authorized)
    × (to_result r.authorized a.decline_reason ≡ to_result r.authorized r.decline_reason)

same_result :
    (order_id : ℕ) (r r' : PaymentResult) (x : Result PaymentResult × World) (w' : World)
    → x.0 ≡ ok r
    → x ≡ (ok r', w')
    → Holds order_id r x.1
    → Holds order_id r' w'
same_result order_id r r' x w' e f (a, row, decided, reason) =
    (a, ground arith, ground arith, ground arith)

to_result_idem :
    (d : Bool) (reason : Option String)
    → to_result d reason ≡ to_result d (to_result d reason).decline_reason
to_result_idem true reason = refl
to_result_idem false reason = refl

-- A result that an undisturbed authorisation has returned is on the ledger.
pub authorize-Holds :
    (provider : Provider) (event : OrderEvent) (w w' : World) (r : PaymentResult)
    → authorize provider event w ≡ (ok r, w')
    → Holds event.order_id r w'
authorize-Holds provider event w w' r e = elim (Option-cases (ledger_row event.order_id w)) [
  | inl row ↦
      let first = authorize_first provider event w row in
      same_result event.order_id (provider event event.order_id) r _ w' (first.0) e (
        decide (provider event event.order_id) (undecided event.order_id w.now),
        first.2,
        refl,
        refl,
      )
  | inr (a, row) ↦ elim (Option-cases a.authorized) [
    | inl open_ ↦ elim (Bool-cases (ltb (a.created_at + stale_claim_ms) w.now)) [
      | inl stale ↦
          let taken = authorize_takeover provider event w a row open_ (ground arith) in
          same_result event.order_id (provider event event.order_id) r _ w' (taken.0) e
            (decide (provider event event.order_id) a, taken.2, refl, refl)
      | inr live ↦
          let refused = authorize_in_flight provider event w a row open_ (ground arith) in
          absurd (ground arith)
    ]
    | inr (d, decided) ↦
        let stored = authorize_decided provider event w a d row decided in
        same_result event.order_id (to_result d a.decline_reason) r _ w' (stored.0) e
          (a, rw (stored.2) row, decided, to_result_idem d a.decline_reason)
  ]
]
