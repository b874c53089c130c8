-- ===== src/Orders/Transition/Cas.antt =====
-- What a call of `transition_order` does to the tables, on every branch.
use order_lifecycle_backend.Prelude.{
  ℕ, ◌<◌, ◌≡◌, refl, inl, inr, true, false, none, some, [], ◌∷◌, arith, Bool-cases, Option-cases,
  find_by, update_where, count_where, at_key, count-found, find_by-update_self, update_where-none,
  List, ◌==◌,
}
use order_lifecycle_backend.Entities.{
  Order, OrderStatus, pending, reserved, paid, completed, failed, cancelled,
}
use order_lifecycle_backend.World.{
  Platform, World, Db, Result, ok, err, not_found, conflict, order_key, user_orders_key, ◌>>=◌,
}
use order_lifecycle_backend.World.Harmless.{IsHarmless, Harmless, >>-Harmless}
use order_lifecycle_backend.Cache.FailOpen.{del_keys-Harmless}
use order_lifecycle_backend.Orders.StateMachine.{is_transition_allowed, same_status}
use order_lifecycle_backend.Orders.Rows.{order_id, has_status, set_status, set_orders}
use order_lifecycle_backend.Orders.Transition.{
  record_stage_timings, record_label, terminal_state_label, compare_and_set, announce_transition,
  apply_transition, transition_order, transition_order_seeing,
}

pub same_status_refl : (s : OrderStatus) → same_status s s ≡ true
same_status_refl pending = refl
same_status_refl reserved = refl
same_status_refl paid = refl
same_status_refl completed = refl
same_status_refl failed = refl
same_status_refl cancelled = refl

pub same_status_sound : (s t : OrderStatus) → same_status s t ≡ true → s ≡ t
same_status_sound pending pending h = refl
same_status_sound reserved reserved h = refl
same_status_sound paid paid h = refl
same_status_sound completed completed h = refl
same_status_sound failed failed h = refl
same_status_sound cancelled cancelled h = refl
same_status_sound _ _ h = cc

-- The bookkeeping after a transition returns and leaves the tables alone.
record_stage_timings-Harmless :
    (o : Order) (from to : OrderStatus) → Harmless (record_stage_timings o from to)
unfolding record_stage_timings
record_stage_timings-Harmless o pending to w = ground arith
record_stage_timings-Harmless o reserved to w = ground arith
record_stage_timings-Harmless o paid pending w = ground arith
record_stage_timings-Harmless o paid reserved w = ground arith
record_stage_timings-Harmless o paid paid w = ground arith
record_stage_timings-Harmless o paid completed w = ground arith
record_stage_timings-Harmless o paid failed w = ground arith
record_stage_timings-Harmless o paid cancelled w = ground arith
record_stage_timings-Harmless o completed to w = ground arith
record_stage_timings-Harmless o failed to w = ground arith
record_stage_timings-Harmless o cancelled to w = ground arith

label-Harmless : (to : OrderStatus) → Harmless (record_label (terminal_state_label to))
label-Harmless pending w = ground arith
label-Harmless reserved w = ground arith
label-Harmless paid w = ground arith
label-Harmless completed w = ground arith
label-Harmless failed w = ground arith
label-Harmless cancelled w = ground arith

-- The four ways in which a transition can end, from the rows that it has read.
module _ (seen : List Order) (id : ℕ) (to : OrderStatus) (w : World) where
  abbrev pub advanced : Order → Db
  advanced o =
      (set_orders
        (update_where (at_key order_id id (has_status o.status)) (set_status to w.now) w.db.orders)
        w).db

  pub data Transitioned (r : Result Order × World) : Type 0 where
    missing : find_by order_id id seen ≡ none → r ≡ (err not_found, w) → Transitioned r
    illegal :
        (o : Order)
        → find_by order_id id seen ≡ some o
        → is_transition_allowed o.status to ≡ false
        → r ≡ (err conflict, w)
        → Transitioned r
    lost :
        (o : Order)
        → find_by order_id id seen ≡ some o
        → is_transition_allowed o.status to ≡ true
        → count_where (at_key order_id id (has_status o.status)) w.db.orders ≡ 0
        → r ≡ (err conflict, w)
        → Transitioned r
    moved :
        (o : Order)
        → find_by order_id id seen ≡ some o
        → is_transition_allowed o.status to ≡ true
        → 0 < count_where (at_key order_id id (has_status o.status)) w.db.orders
        → r.0 ≡ ok (record o { status = to })
        → r.1.db ≡ advanced o
        → r.1.drawn ≡ w.drawn
        → r.1.charges ≡ w.charges
        → r.1.now ≡ w.now
        → Transitioned r

module _ (P : Platform) where
  pub announce-Harmless :
      (id : ℕ) (to : OrderStatus) (o : Order) → Harmless (announce_transition P id to o)
  unfolding announce_transition
  announce-Harmless id to o = >>-Harmless _ _ (label-Harmless to) (
      >>-Harmless _ _ (record_stage_timings-Harmless o o.status to)
        (del_keys-Harmless P (order_key id ∷ user_orders_key o.user_id ∷ [])))

  module _ (seen : List Order) (id : ℕ) (to : OrderStatus) (w : World) (o : Order)
      (e : find_by order_id id seen ≡ some o)
      (allowed : is_transition_allowed o.status to ≡ true) where
    won-Transitioned :
        0 < count_where (at_key order_id id (has_status o.status)) w.db.orders
        → Transitioned seen id to w (apply_transition P id to o w)
    unfolding apply_transition compare_and_set
    won-Transitioned hit =
        moved o e allowed hit (ground (arith, announced)) (ground (arith, announced))
          (ground (arith, announced)) (ground (arith, announced)) (ground (arith, announced))
      where
        announced :
            ((announce_transition P id to o (record w { db = advanced seen id to w o })).0 ≡ ok tt)
            × IsHarmless
                (record w { db = advanced seen id to w o })
                (announce_transition P id to o (record w { db = advanced seen id to w o })).1
        announced = announce-Harmless id to o (record w { db = advanced seen id to w o })

    lost-Transitioned :
        count_where (at_key order_id id (has_status o.status)) w.db.orders ≡ 0
        → Transitioned seen id to w (apply_transition P id to o w)
    unfolding apply_transition compare_and_set
    lost-Transitioned none_left = lost o e allowed none_left (
        ground (
          arith,
          update_where-none (at_key order_id id (has_status o.status)) (set_status to w.now)
              w.db.orders none_left,
        ))

    apply-Transitioned : Transitioned seen id to w (apply_transition P id to o w)
    apply-Transitioned =
        elim (Bool-cases
          (count_where (at_key order_id id (has_status o.status)) w.db.orders == 0)) [
            | inl none_left ↦ lost-Transitioned (ground arith)
            | inr hit ↦ won-Transitioned (ground arith)
          ]

  -- A transition ends in one of four ways, whatever rows its query has read, however old. If it
  -- has read no order under the id, it is not found; if the status that it has read has no
  -- transition to the new one, it conflicts; if the stored row no longer has that status, it
  -- conflicts, too; these leave the whole state as it was. Otherwise it returns the order that it
  -- has read under the new status, and the tables are as before but for that status and the update
  -- time on the order's row; no id is drawn and nothing is charged.
  pub transition_order_seeing-cases :
      (seen : List Order) (id : ℕ) (to : OrderStatus) (w : World)
      → Transitioned seen id to w (transition_order_seeing P seen id to w)
  unfolding apply_transition
  transition_order_seeing-cases seen id to w = elim (Option-cases (find_by order_id id seen)) [
    | inl e ↦ missing e (rw (e, ◌>>=◌))
    | inr (o, e) ↦ elim (Bool-cases (is_transition_allowed o.status to)) [
      | inl allowed ↦ rw (e, ◌>>=◌) (apply-Transitioned seen id to w o e allowed)
      | inr refused ↦ illegal o e refused (rw (e, refused, ◌>>=◌, apply_transition))
    ]
  ]

  pub transition_order-cases :
      (id : ℕ) (to : OrderStatus) (w : World)
      → Transitioned w.db.orders id to w (transition_order P id to w)
  unfolding transition_order
  transition_order-cases id to w = transition_order_seeing-cases w.db.orders id to w

  -- An allowed transition of a stored order returns it under its new status, and stores that
  -- status on its row; it touches no table but the orders.
  pub transition_order-moves :
      (id : ℕ) (to : OrderStatus) (w : World) (o : Order)
      → find_by order_id id w.db.orders ≡ some o
      → is_transition_allowed o.status to ≡ true
      → ((transition_order P id to w).0 ≡ ok (record o { status = to }))
        × ((transition_order P id to w).1.db ≡ advanced w.db.orders id to w o)
        × (find_by order_id id (transition_order P id to w).1.db.orders
            ≡ some (set_status to w.now o))
        × ((transition_order P id to w).1.now ≡ w.now)
        × ((transition_order P id to w).1.charges ≡ w.charges)
  transition_order-moves id to w o e allowed = elim (transition_order-cases id to w) [
    | missing e' _ ↦ absurd (ground arith)
    | illegal o' e' refused _ ↦ absurd (ground arith)
    | lost o' e' _ gone _ ↦ absurd (
        ground (
          arith,
          count-found order_id id (has_status o'.status) w.db.orders o' e'
              (same_status_refl o'.status),
        ))
    | moved o' e' _ _ r db _ charges now ↦ (
      ground arith,
      ground arith,
      rw (db) (
          ground (
            arith,
            find_by-update_self order_id id (has_status o'.status) (set_status to w.now) (λ x. refl)
                w.db.orders o' e',
            same_status_refl o'.status,
          )),
      now,
      charges,
    )
  ]
