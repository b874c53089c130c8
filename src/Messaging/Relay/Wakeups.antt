-- ===== src/Messaging/Relay/Wakeups.antt =====
-- The wakeups of the outbox relay: `nudge` and `relay` of
-- src/modules/messaging/outbox/outbox-relay.service.ts, and outbox-commit.subscriber.ts.
use order_lifecycle_backend.Prelude.{
  ℕ, zero, suc, ◌-◌, ◌<◌, ◌≡◌, refl, ◌⊎◌, inl, inr, Bool, true, false, List, [], ◌∷◌, arith, ◌==◌,
  if◌then◌else◌, Bool-cases,
}
use order_lifecycle_backend.Messaging.Relay.{
  RelayState, nudge, relay_begin, relay_end, Pending, mem_id, remove, after_insert,
  after_transaction_commit, after_transaction_rollback,
}

-- What happens to the relay: a nudge, a `setImmediate` run, a tick of the interval, and the end
-- of a drain. A run or an end for which there is none waiting does nothing.
pub data RelayEvent : Type 0 where
  nudged fired ticked ended : RelayEvent

-- The relay, and whether rows have been announced since the last drain began.
abbrev pub Watched : Type 0
Watched = RelayState × Bool

abbrev begin_drain : RelayState × Bool → Bool → Watched
begin_drain (s, began) owed = (s, if began then false else owed)

abbrev pub react : RelayEvent → Watched → Watched
react nudged (s, owed) = (nudge s, true)
react fired (s, owed) =
    if s.scheduled == 0
    then (s, owed)
    else begin_drain (relay_begin (record s { scheduled = s.scheduled - 1 })) owed
react ticked (s, owed) = begin_drain (relay_begin s) owed
react ended (s, owed) = (if s.draining then relay_end s else s, owed)

abbrev pub watch : List RelayEvent → Watched → Watched
watch [] x = x
watch (e ∷ es) x = watch es (react e x)

-- A row that was announced is waited for: by a scheduled run, or by the end of the drain.
abbrev pub IsAwaited : Watched → Type 0
IsAwaited (s, owed) =
    owed ≡ true
    → ((s.draining ≡ false) × (0 < s.scheduled)) ⊎ ((s.draining ≡ true) × (s.drain_again ≡ true))

abbrev pub idle : Watched
idle = (record { draining = false; drain_again = false; scheduled = 0 }, false)

react-IsAwaited : (e : RelayEvent) (x : Watched) → IsAwaited x → IsAwaited (react e x)
unfolding nudge relay_begin relay_end
react-IsAwaited nudged (s, owed) h o = ground arith
react-IsAwaited fired (s, owed) h o = ground arith
react-IsAwaited ticked (s, owed) h o = ground arith
react-IsAwaited ended (s, owed) h o = ground arith

watch-IsAwaited : (es : List RelayEvent) (x : Watched) → IsAwaited x → IsAwaited (watch es x)
watch-IsAwaited [] x h = h
watch-IsAwaited (e ∷ es) x h = watch-IsAwaited es (react e x) (react-IsAwaited e x h)

-- No nudge is lost: after any sequence of events from the idle relay, if a nudge has come since
-- the last drain began, then a run is scheduled, or the drain in progress will schedule one.
pub nudge_kept :
    (es : List RelayEvent)
    → (watch es idle).1 ≡ true
    → (((watch es idle).0.draining ≡ false) × (0 < (watch es idle).0.scheduled))
      ⊎ (((watch es idle).0.draining ≡ true) × ((watch es idle).0.drain_again ≡ true))
nudge_kept es owed = watch-IsAwaited es idle (λ o. absurd (ground arith)) owed

-- `after_insert` of several rows in one transaction.
abbrev pub insert_rows : ℕ → ℕ → Pending × RelayState → Pending × RelayState
insert_rows zero runner x = x
insert_rows (suc n) runner x = insert_rows n runner (after_insert true runner x)

insert_rows-remove :
    (n runner : ℕ) (p : Pending) (s : RelayState)
    → ((insert_rows n runner (p, s)).1 ≡ s)
      × (remove runner (insert_rows n runner (p, s)).0 ≡ remove runner p)
      × (mem_id p runner ≡ true → mem_id (insert_rows n runner (p, s)).0 runner ≡ true)
unfolding after_insert
insert_rows-remove zero runner p s = (refl, refl, λ h. h)
insert_rows-remove (suc n) runner p s = elim (Bool-cases (mem_id p runner)) [
  | inl e ↦ ground (arith, insert_rows-remove n runner p s)
  | inr e ↦ ground (arith, insert_rows-remove n runner (runner ∷ p) s)
]

-- However many outbox rows a transaction inserts, nothing wakes the relay before it ends, its
-- commit nudges the relay exactly once, a rollback does not, and the runner is forgotten.
pub after_transaction-nudge :
    (n runner : ℕ) (p : Pending) (s : RelayState)
    → (let open_ = insert_rows (suc n) runner (p, s) in
        (open_.1 ≡ s)
        × (after_transaction_commit runner open_ ≡ (remove runner p, nudge s))
        × (after_transaction_rollback runner open_ ≡ (remove runner p, s)))
unfolding after_transaction_commit after_transaction_rollback after_insert
after_transaction-nudge n runner p s = elim (Bool-cases (mem_id p runner)) [
  | inl e ↦ ground (arith, insert_rows-remove n runner p s)
  | inr e ↦ ground (arith, insert_rows-remove n runner (runner ∷ p) s)
]
