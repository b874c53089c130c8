-- ===== src/Orders/Coherence.antt =====
-- When the orders stored under `order:<id>` in Redis agree with the order table
-- (src/modules/orders/services/orders.service.ts), and the actions that keep it so.
use order_lifecycle_backend.Prelude.{
  ℕ, ◌≡◌, refl, ◌∙◌, ap, Bool, true, ◌&&◌, none, some, List, ◌==◌, find,
}
use order_lifecycle_backend.Entities.{Order, Consumer}
use order_lifecycle_backend.World.{World, M}
use order_lifecycle_backend.World.Always.{WorldRelation, Always, weaken-Always}
use order_lifecycle_backend.World.Harmless.{order_entries, list_entries}
use order_lifecycle_backend.Orders.Reading.{is_terminal}
use order_lifecycle_backend.Orders.Reading.Lists.{are_owned}
use order_lifecycle_backend.Orders.Evolution.{Evolves, Evolves-refl, Evolves-trans, find-Evolves}
use order_lifecycle_backend.Messaging.Outbox.Tracing.{IsTraced, IsTraced-same, IsTraced-join}
use order_lifecycle_backend.Orders.Evolving.{IsQuiet, Evolving}
use order_lifecycle_backend.Messaging.Inbox.{is_processed}
use mathlib.Core.List.{Memᴰ}

-- `id = :id AND "userId" = :userId`
abbrev pub owned_by : ℕ → ℕ → Order → Bool
owned_by id user_id o = (o.id == id) && (o.user_id == user_id)

-- An order apart from the items that a query has joined to it.
abbrev pub without_items : Order → Order
without_items o = record o { items = none }

-- A copy of an order under the key `order:<id>` is the terminal row that its owner's read finds.
pub record IsCopy (id : ℕ) (o : Order) (rows : List Order) : Type 0 where
  pub row : Order
  pub found : find (owned_by id o.user_id) rows ≡ some row
  pub terminal : is_terminal row ≡ true
  pub agrees : without_items o ≡ without_items row

pub Evolves-IsCopy :
    {id : ℕ} {o : Order} {rows rows' : List Order}
    → Evolves rows rows'
    → IsCopy id o rows
    → IsCopy id o rows'
Evolves-IsCopy {id} {o} h c =
    let (row', found', keeps) =
      find-Evolves (owned_by id o.user_id) (λ r r' k. rw (k.identity, k.owner) refl) h (c.row)
        (c.found) in
    record {
      row = c.row;
      found = found' ∙ ap some (keeps.frozen (c.terminal));
      terminal = c.terminal;
      agrees = c.agrees;
    }

-- All of these copies are right.
abbrev pub AreCopies : List (ℕ × Order) → List Order → Type 0
AreCopies entries rows = (id : ℕ) (o : Order) → Memᴰ (id, o) entries → IsCopy id o rows

pub Evolves-AreCopies :
    {entries : List (ℕ × Order)} {rows rows' : List Order}
    → Evolves rows rows'
    → AreCopies entries rows
    → AreCopies entries rows'
Evolves-AreCopies h copies id o m = Evolves-IsCopy h (copies id o m)

-- Every order that Redis may still hold is a right copy.
abbrev pub IsCoherent : World → Type 0
IsCoherent w = AreCopies (order_entries w.redis) w.db.orders

-- What every call of the services keeps, reads included.
pub record IsSound (w w' : World) : Type 0 where
  pub evolves : Evolves w.db.orders w'.db.orders
  pub handled :
      (id : ℕ) (c : Consumer)
      → is_processed id c w.db.inbox ≡ true
      → is_processed id c w'.db.inbox ≡ true
  pub coherent : IsCoherent w → IsCoherent w'
  pub traces : IsTraced w w'
  pub lists : are_owned (list_entries w.redis) ≡ true → are_owned (list_entries w'.redis) ≡ true

abbrev pub soundly : WorldRelation
soundly = record {
  holds = IsSound;
  same = λ w. record {
    evolves = Evolves-refl w.db.orders;
    handled = λ id c h. h;
    coherent = λ h. h;
    traces = IsTraced-same w w refl refl;
    lists = λ h. h;
  };
  join = λ u v w h k. record {
    evolves = Evolves-trans h.evolves k.evolves;
    handled = λ id c p. k.handled id c (h.handled id c p);
    coherent = λ p. k.coherent (h.coherent p);
    traces = IsTraced-join u v w h.traces k.traces;
    lists = λ p. k.lists (h.lists p);
  };
}

IsQuiet-IsSound : (u w : World) → IsQuiet u w → IsSound u w
IsQuiet-IsSound u w h = record {
  evolves = h.evolves;
  handled = h.handled;
  coherent = λ copies. rw (h.entries) (Evolves-AreCopies h.evolves copies);
  traces = h.traces;
  lists = h.lists;
}

pub Evolving-Sound : {A : Type 0} (m : M A) → Evolving m → Always soundly m
Evolving-Sound m h = weaken-Always m IsQuiet-IsSound h
