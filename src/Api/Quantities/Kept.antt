-- ===== src/Api/Quantities/Kept.antt =====
-- That every request of the shop's HTTP API keeps the stored quantities positive.
use order_lifecycle_backend.Prelude.{
  ℕ, refl, ap, Bool, true, false, not, Option, none, some, List, [], ◌∷◌, arith, ◌==◌, inl, inr,
  Bool-cases, every,
}
use order_lifecycle_backend.Entities.{Order, StockLine, reserved, cancelled, inventory_reserved}
use order_lifecycle_backend.World.{
  Platform, Db, conflict, not_found, RedisKey, order_key, user_orders_key, one, many, TerminalState,
}
use order_lifecycle_backend.World.Always.{
  Always, >>=-Always, >>-Always, pure-Always, gets-Always, or_throw-Always, throw_if-Always,
  transaction-Always,
}
use order_lifecycle_backend.Cache.{get}
use order_lifecycle_backend.Cache.FailOpen.{get_fail_open, set_value-returns, del_keys-Harmless}
use order_lifecycle_backend.Metrics.{record_terminal_state}
use order_lifecycle_backend.Orders.Rows.{has_status, is_cancellable}
use order_lifecycle_backend.Orders.Reading.{
  is_terminal, own_hit, list_hit, find_user_order, find_user_orders, cache_order, cache_list,
  order_or_read, list_or_read, get_order_for_user, list_orders_for_user,
}
use order_lifecycle_backend.Orders.PaymentClaim.{
  event_of, claim_payment, enqueue_unless, claim_and_enqueue, confirm_payment, initiate_payment,
}
use order_lifecycle_backend.Orders.Cancellation.{
  item_lines, claim_cancel, restore_if, cancel_read_order, cancel_order,
}
use order_lifecycle_backend.Products.{restore_stock}
use order_lifecycle_backend.Api.Quantities.{positively, kept, Harmless-kept, enqueue-positive}

module _ (P : Platform) where
  cache_order-positive : (id : ℕ) (o : Order) → Always positively (cache_order P id o)
  cache_order-positive id o = elim (Bool-cases (is_terminal o)) [
    | inl t ↦
        kept (cache_order P id o)
          (λ w. ground (arith, set_value-returns P (order_key id) (one o) w.cache_ttl w))
    | inr t ↦ kept (cache_order P id o) (λ w. ground arith)
  ]

  cache_list-positive : (id : ℕ) (os : List Order) → Always positively (cache_list P id os)
  cache_list-positive id os = elim (Bool-cases (every is_terminal os)) [
    | inl t ↦
        kept (cache_list P id os)
          (λ w. ground (arith, set_value-returns P (user_orders_key id) (many os) w.cache_ttl w))
    | inr t ↦ kept (cache_list P id os) (λ w. ground arith)
  ]

  get-positive : (key : RedisKey) → Always positively (get P key)
  get-positive key = kept (get P key) (λ w. (
    ap (λ (db : Db). db.cart_items) (get_fail_open P key w).1.db,
    ap (λ (db : Db). db.order_items) (get_fail_open P key w).1.db,
    ap (λ (db : Db). db.outbox) (get_fail_open P key w).1.db,
  ))

  order_or_read-positive :
      (id user_id : ℕ) (hit : Option Order) → Always positively (order_or_read P id user_id hit)
  order_or_read-positive id user_id (some o) = pure-Always o
  order_or_read-positive id user_id none =
      >>=-Always _ _ (gets-Always (λ w. find_user_order id user_id w.db)) λ found.
        >>=-Always _ _ (or_throw-Always found not_found)
          λ o. >>-Always _ _ (cache_order-positive id o) (pure-Always o)

  pub get_order_for_user-positive :
      (id user_id : ℕ) → Always positively (get_order_for_user P id user_id)
  unfolding get_order_for_user
  get_order_for_user-positive id user_id =
      >>=-Always _ _ (get-positive (order_key id))
        λ cached. order_or_read-positive id user_id (own_hit user_id cached)

  list_or_read-positive :
      (user_id : ℕ) (hit : Option (List Order)) → Always positively (list_or_read P user_id hit)
  list_or_read-positive user_id (some os) = pure-Always os
  list_or_read-positive user_id none =
      >>=-Always _ _ (gets-Always (λ w. find_user_orders user_id w.db))
        λ os. >>-Always _ _ (cache_list-positive user_id os) (pure-Always os)

  pub list_orders_for_user-positive :
      (user_id : ℕ) → Always positively (list_orders_for_user P user_id)
  unfolding list_orders_for_user
  list_orders_for_user-positive user_id =
      >>=-Always _ _ (get-positive (user_orders_key user_id))
        λ cached. list_or_read-positive user_id (list_hit cached)

  claim_payment-positive : (id : ℕ) → Always positively (claim_payment id)
  unfolding claim_payment
  claim_payment-positive id = kept (claim_payment id) (λ w. (refl, refl, refl))

  enqueue_unless-positive :
      (b : Bool) (o : Order) (now : ℕ) → Always positively (enqueue_unless P b (event_of o now))
  enqueue_unless-positive true o now = pure-Always false
  enqueue_unless-positive false o now =
      >>-Always _ _ (enqueue-positive P inventory_reserved (event_of o now) refl) (pure-Always true)

  claim_and_enqueue-positive :
      (id : ℕ) (o : Order) (now : ℕ) → Always positively (claim_and_enqueue P id (event_of o now))
  unfolding claim_and_enqueue
  claim_and_enqueue-positive id o now =
      >>=-Always _ _ (claim_payment-positive id)
        λ affected. enqueue_unless-positive (affected == 0) o now

  confirm_payment-positive : (id : ℕ) (o : Order) → Always positively (confirm_payment P id o)
  unfolding confirm_payment
  confirm_payment-positive id o =
      >>-Always _ _ (throw_if-Always (not (has_status reserved o)) conflict) (
        >>=-Always _ _ (gets-Always (λ w. w.now)) λ occurred_at.
          >>=-Always _ _
            (transaction-Always _ (λ w w' h p. p) (claim_and_enqueue-positive id o occurred_at))
            λ claimed. >>-Always _ _ (throw_if-Always (not claimed) conflict) (
              >>=-Always _ _ (gets-Always (λ w. w.now)) λ now.
                >>-Always _ _ (Harmless-kept _ (del_keys-Harmless P (order_key id ∷ [])))
                  (pure-Always (record o { payment_initiated_at = some now }))))

  pub initiate_payment-positive :
      (id user_id : ℕ) → Always positively (initiate_payment P id user_id)
  unfolding initiate_payment
  initiate_payment-positive id user_id =
      >>=-Always _ _ (get_order_for_user-positive id user_id) (confirm_payment-positive id)

  claim_cancel-positive : (id : ℕ) → Always positively (claim_cancel id)
  unfolding claim_cancel
  claim_cancel-positive id = kept (claim_cancel id) (λ w. (refl, refl, refl))

  restore_if-positive : (b : Bool) (lines : List StockLine) → Always positively (restore_if b lines)
  unfolding restore_stock
  restore_if-positive true lines = kept (restore_stock lines) (λ w. (refl, refl, refl))
  restore_if-positive false lines = pure-Always tt

  record_terminal_state-positive : (s : TerminalState) → Always positively (record_terminal_state s)
  record_terminal_state-positive s = kept (record_terminal_state s) (λ w. (refl, refl, refl))

  cancel_read_order-positive : (id : ℕ) (o : Order) → Always positively (cancel_read_order P id o)
  unfolding cancel_read_order
  cancel_read_order-positive id o =
      >>-Always _ _ (throw_if-Always (not (is_cancellable o)) conflict) (
        >>=-Always _ _ (claim_cancel-positive id) λ affected.
          >>-Always _ _ (throw_if-Always (affected == 0) conflict) (
            >>-Always _ _ (restore_if-positive (has_status reserved o) (item_lines o.items)) (
              >>-Always _ _ (record_terminal_state-positive TerminalState.cancelled) (
                >>-Always _ _
                  (Harmless-kept _
                    (del_keys-Harmless P (order_key id ∷ user_orders_key o.user_id ∷ [])))
                  (pure-Always (record o { status = cancelled }))))))

  pub cancel_order-positive : (id user_id : ℕ) → Always positively (cancel_order P id user_id)
  unfolding cancel_order
  cancel_order-positive id user_id =
      >>=-Always _ _ (get_order_for_user-positive id user_id) (cancel_read_order-positive id)
