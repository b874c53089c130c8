-- ===== src/Messaging/Outbox/Tracing.antt =====
-- What is written to the outbox under one correlation id
-- (src/modules/messaging/outbox/outbox.service.ts).
use order_lifecycle_backend.Prelude.{
  ℕ, ◌≡◌, refl, ◌∙◌, ap, true, Bool, some, List, [], ◌∷◌, ◌++◌, ◌==◌, arith, every, ==_refl,
  append-nil, append_assoc, sym,
}
use order_lifecycle_backend.Entities.{OutboxMessage, RoutingKey, Payload}
use order_lifecycle_backend.World.{Platform, World}
use order_lifecycle_backend.Messaging.Outbox.{enqueue, message}

abbrev has_correlation : ℕ → OutboxMessage → Bool
has_correlation c m = m.correlation_id == c

-- The later outbox is the earlier one followed by rows of the correlation id.
pub record HasTraced (c : ℕ) (before after : List OutboxMessage) : Type 0 where
  pub rows : List OutboxMessage
  pub appended : after ≡ before ++ rows
  pub traced : every (has_correlation c) rows ≡ true

every-append :
    (c : ℕ) (xs ys : List OutboxMessage)
    → every (has_correlation c) xs ≡ true
    → every (has_correlation c) ys ≡ true
    → every (has_correlation c) (xs ++ ys) ≡ true
every-append c [] ys h k = k
every-append c (x ∷ xs) ys h k = ground (arith, every-append c xs ys)

pub HasTraced-same : (c : ℕ) (xs : List OutboxMessage) → HasTraced c xs xs
HasTraced-same c xs = record { rows = []; appended = sym (append-nil xs); traced = refl }

pub HasTraced-join :
    (c : ℕ) (xs ys zs : List OutboxMessage)
    → HasTraced c xs ys
    → HasTraced c ys zs
    → HasTraced c xs zs
HasTraced-join c xs ys zs h k = record {
  rows = h.rows ++ k.rows;
  appended = k.appended ∙ ap (λ rs. rs ++ k.rows) h.appended ∙ append_assoc xs h.rows k.rows;
  traced = every-append c h.rows k.rows h.traced k.traced;
}

-- The context of an action is as it was, and what the action has enqueued bears the id of it.
pub record IsTraced (w w' : World) : Type 0 where
  pub context : w'.correlation ≡ w.correlation
  pub events : (c : ℕ) → w.correlation ≡ some c → HasTraced c w.db.outbox w'.db.outbox

pub IsTraced-same :
    (w w' : World) → w'.correlation ≡ w.correlation → w'.db.outbox ≡ w.db.outbox → IsTraced w w'
IsTraced-same w w' context outbox = record {
  context = context;
  events = λ c h. rw outbox (HasTraced-same c w.db.outbox);
}

pub IsTraced-join : (u v w : World) → IsTraced u v → IsTraced v w → IsTraced u w
IsTraced-join u v w h k = record {
  context = k.context ∙ h.context;
  events = λ c e. HasTraced-join c _ _ _ (h.events c e) (k.events c (h.context ∙ e));
}

module _ (P : Platform) where
  pub enqueue-IsTraced :
      (key : RoutingKey) (payload : Payload) (w : World) → IsTraced w (enqueue P key payload w).1
  unfolding enqueue
  enqueue-IsTraced key payload w = record {
    context = ground arith;
    events = λ c h. record {
      rows = message P (P.random_uuid w.drawn) key payload c w.now ∷ [];
      appended = ground arith;
      traced = ground (arith, ==_refl c);
    };
  }
