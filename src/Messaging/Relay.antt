-- ===== src/Messaging/Relay.antt =====
-- The outbox relay (src/modules/messaging/outbox/outbox-relay.service.ts), and the subscriber
-- that wakes it after a commit (outbox-commit.subscriber.ts).
pub mod Draining
pub mod Batch
pub mod Looping
pub mod Wakeups
use order_lifecycle_backend.Prelude.{
  ℕ, zero, suc, ◌+◌, Bool, true, false, not, ◌&&◌, ◌||◌, Option, none, some, List, [], ◌∷◌, ◌++◌,
  ◌==◌, leb, if◌then◌else◌, select, update_where, length,
}
use order_lifecycle_backend.Entities.{OutboxMessage}

abbrev pub relay_batch_size : ℕ
relay_batch_size = 50

abbrev pub is_unpublished : OutboxMessage → Bool
is_unpublished m = elim m.published_at [ none ↦ true | some _ ↦ false ]

-- LIMIT n
abbrev pub take {ℓ} : {A : Type ℓ} → ℕ → List A → List A
take zero xs = []
take (suc n) [] = []
take (suc n) (x ∷ xs) = x ∷ take n xs

abbrev insert_oldest : OutboxMessage → List OutboxMessage → List OutboxMessage
insert_oldest m [] = m ∷ []
insert_oldest m (n ∷ ns) =
    if leb m.created_at n.created_at then m ∷ n ∷ ns else n ∷ insert_oldest m ns

-- ORDER BY createdAt ASC
abbrev pub oldest_first : List OutboxMessage → List OutboxMessage
oldest_first [] = []
oldest_first (m ∷ ms) = insert_oldest m (oldest_first ms)

-- The rows that one tick claims: unpublished, and not locked by another instance.
unfoldable pub claim_batch : (ℕ → Bool) → List OutboxMessage → List OutboxMessage
claim_batch locked rows =
    take relay_batch_size (oldest_first (select (λ m. is_unpublished m && not (locked m.id)) rows))

-- The broker as the relay sees it: the messages that it has accepted, newest first. Whether it
-- accepts the next is up to it.
abbrev pub Broker : Type 0
Broker = List OutboxMessage → OutboxMessage → Bool

-- The loop over the batch: the broker's log, and the ids to mark.
unfoldable pub publish_batch :
    Broker → List OutboxMessage → List OutboxMessage → List OutboxMessage × List ℕ
publish_batch accepts log [] = (log, [])
publish_batch accepts log (m ∷ ms) =
    let sent = publish_batch accepts (m ∷ log) ms in
    let skipped = publish_batch accepts log ms in
    if accepts log m then (sent.0, m.id ∷ sent.1) else skipped

abbrev pub mem_id : List ℕ → ℕ → Bool
mem_id [] i = false
mem_id (j ∷ js) i = i == j || mem_id js i

-- `manager.update(OutboxMessageEntity, published, { publishedAt })`
unfoldable pub mark_published : List ℕ → ℕ → List OutboxMessage → List OutboxMessage
mark_published ids now =
    update_where (λ m. mem_id ids m.id) (λ m. record m { published_at = some now })

-- The outbox table, the broker's log, and the rows that the tick claimed and published.
pub record Drained : Type 0 where
  pub rows : List OutboxMessage
  pub log : List OutboxMessage
  pub claimed : ℕ
  pub published : ℕ

-- `drainOnce`
unfoldable pub drain_once :
    Broker → (ℕ → Bool) → ℕ → List OutboxMessage → List OutboxMessage → Drained
drain_once accepts locked now rows log =
    let (log', ids) = publish_batch accepts log (claim_batch locked rows) in
    record {
      rows = mark_published ids now rows;
      log = log';
      claimed = length (claim_batch locked rows);
      published = length ids;
    }

-- `while ((await this.drainOnce()) === RELAY_BATCH_SIZE);`, on fuel: `none` if that runs out.
unfoldable pub drain_loop :
    ℕ
    → Broker
    → (ℕ → Bool)
    → ℕ
    → List OutboxMessage
    → List OutboxMessage
    → Option (List OutboxMessage × List OutboxMessage)
drain_loop zero accepts locked now rows log = none
drain_loop (suc fuel) accepts locked now rows log =
    let d = drain_once accepts locked now rows log in
    let rest = drain_loop fuel accepts locked now d.rows d.log in
    if d.claimed == relay_batch_size then rest else some (d.rows, d.log)

-- The relay's flags, and the number of `setImmediate` runs of `relay` that wait.
pub record RelayState : Type 0 where
  pub draining : Bool
  pub drain_again : Bool
  pub scheduled : ℕ

-- `nudge`
unfoldable pub nudge : RelayState → RelayState
nudge s =
    if s.draining then record s { drain_again = true } else record s { scheduled = s.scheduled + 1 }

-- `relay` up to its first wait: whether a drain begins.
unfoldable pub relay_begin : RelayState → RelayState × Bool
relay_begin s = if s.draining then (s, false) else (record s { draining = true }, true)

-- `relay` after its drain, however that ended.
unfoldable pub relay_end : RelayState → RelayState
relay_end s =
    if s.drain_again
    then record { draining = false; drain_again = false; scheduled = s.scheduled + 1 }
    else record s { draining = false }

-- The commit subscriber: the query runners with an outbox row in an open transaction.
abbrev pub Pending : Type 0
Pending = List ℕ

abbrev pub remove : ℕ → Pending → Pending
remove r [] = []
remove r (q ∷ qs) = if q == r then remove r qs else q ∷ remove r qs

-- `afterInsert`, of a runner inside or outside a transaction
unfoldable pub after_insert : Bool → ℕ → Pending × RelayState → Pending × RelayState
after_insert true runner (pending, s) =
    (if mem_id pending runner then pending else runner ∷ pending, s)
after_insert false runner (pending, s) = (pending, nudge s)

-- `afterTransactionCommit`
unfoldable pub after_transaction_commit : ℕ → Pending × RelayState → Pending × RelayState
after_transaction_commit runner (pending, s) =
    (remove runner pending, if mem_id pending runner then nudge s else s)

-- `afterTransactionRollback`
unfoldable pub after_transaction_rollback : ℕ → Pending × RelayState → Pending × RelayState
after_transaction_rollback runner (pending, s) = (remove runner pending, s)
