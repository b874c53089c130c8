-- ===== src/Api/Quantities.antt =====
-- The quantities that the shop's HTTP API lets in: `SetCartItemDTO` (src/modules/cart/dto), the
-- cart's lines, the items of orders, and the events that announce them.
pub mod Kept
pub mod Carts
use order_lifecycle_backend.Prelude.{
  ℕ, zero, suc, ◌≡◌, refl, sym, ◌∙◌, subst, Bool, true, false, ◌&&◌, Option, none, some, List, [],
  ◌∷◌, ◌++◌, map, arith, leb, inl, inr, Bool-cases, Option-cases, select, find, every, not, ap,
}
use order_lifecycle_backend.Entities.{
  CartItem, OrderItem, OutboxMessage, StockLine, Payload, order_created, order_event, order_failed,
  RoutingKey, Product, Cart,
}
use order_lifecycle_backend.World.{Platform, World, Db, M}
use order_lifecycle_backend.World.Always.{WorldRelation, Always}
use order_lifecycle_backend.World.Harmless.{Harmless}
use order_lifecycle_backend.Messaging.Outbox.{enqueue}
use order_lifecycle_backend.Orders.Creation.{OrderLine, stock_line, created_event, create_order}
use order_lifecycle_backend.Orders.Creation.Commit.{
  line_of, sent_of, enqueue-appends, create_order-IsCommitted,
}
use order_lifecycle_backend.Cart.{
  CartLine, OpenCart, join_products, in_cart, order_lines, is_line, upsert, delete_lines,
}

abbrev pub is_positive_line : StockLine → Bool
is_positive_line l = leb 1 l.quantity

abbrev pub is_positive_item : CartItem → Bool
is_positive_item i = leb 1 i.quantity

abbrev pub is_positive_order_item : OrderItem → Bool
is_positive_order_item i = leb 1 i.quantity

abbrev pub announces_positive : Payload → Bool
announces_positive (order_created event) = every is_positive_line event.items
announces_positive (order_event event) = true
announces_positive (order_failed event) = true

-- Every quantity that is stored in a cart or an order, or announced to the inventory, is at least 1.
pub record IsPositive (db : Db) : Type 0 where
  pub cart_lines : every is_positive_item db.cart_items ≡ true
  pub order_lines : every is_positive_order_item db.order_items ≡ true
  pub events : every (λ (m : OutboxMessage). announces_positive m.payload) db.outbox ≡ true

abbrev pub positively : WorldRelation
positively = record {
  holds = λ w w'. IsPositive w.db → IsPositive w'.db;
  same = λ w h. h;
  join = λ u v w h k p. k (h p);
}

-- An action that leaves these three tables alone.
pub kept :
    {A : Type 0} (m : M A)
    → ((w : World)
        → ((m w).1.db.cart_items ≡ w.db.cart_items)
          × ((m w).1.db.order_items ≡ w.db.order_items)
          × ((m w).1.db.outbox ≡ w.db.outbox))
    → Always positively m
kept m h = record {
  always = λ w p. record {
    cart_lines = rw ((h w).0) p.cart_lines;
    order_lines = rw ((h w).1) p.order_lines;
    events = rw ((h w).2) p.events;
  };
}

pub Harmless-kept : (m : M (Unit {0})) → Harmless m → Always positively m
Harmless-kept m h = kept m (λ w. (
  ap (λ (db : Db). db.cart_items) (h w).1.db,
  ap (λ (db : Db). db.order_items) (h w).1.db,
  ap (λ (db : Db). db.outbox) (h w).1.db,
))

pub every-append {ℓ} :
    {A : Type ℓ} (p : A → Bool) (xs ys : List A)
    → every p xs ≡ true
    → every p ys ≡ true
    → every p (xs ++ ys) ≡ true
every-append p [] ys h k = k
every-append p (x ∷ xs) ys h k = ground (arith, every-append p xs ys)

pub upsert-positive :
    (i : CartItem) (rows : List CartItem)
    → is_positive_item i ≡ true
    → every is_positive_item rows ≡ true
    → every is_positive_item (upsert i rows) ≡ true
upsert-positive i [] h k = ground arith
upsert-positive i (j ∷ rows) h k = ground (arith, upsert-positive i rows)

pub select-positive :
    (p : CartItem → Bool) (rows : List CartItem)
    → every is_positive_item rows ≡ true
    → every is_positive_item (select p rows) ≡ true
select-positive p [] k = refl
select-positive p (j ∷ rows) k = ground (arith, select-positive p rows)

abbrev pub is_positive_cart_line : CartLine → Bool
is_positive_cart_line l = leb 1 l.quantity

pub join-positive :
    (products : List Product) (rows : List CartItem)
    → every is_positive_item rows ≡ true
    → every is_positive_cart_line (join_products products rows) ≡ true
join-positive products [] h = refl
join-positive products (i ∷ rows) h = ground (arith, join-positive products rows)

pub order_lines-positive :
    (ls : List CartLine) (lines : List OrderLine)
    → every is_positive_cart_line ls ≡ true
    → order_lines ls ≡ some lines
    → every is_positive_line (map stock_line lines) ≡ true
order_lines-positive [] lines h e = ground arith
order_lines-positive (l ∷ ls) lines h e = elim (Option-cases l.product) [
  | inl missing ↦ ground arith
  | inr (p, found) ↦ elim (Option-cases (order_lines ls)) [
    | inl none_left ↦ ground arith
    | inr (rest, more) ↦ ground (arith, order_lines-positive ls rest)
  ]
]

items-positive :
    (items : List OrderItem)
    → every is_positive_line (map line_of items) ≡ true
    → every is_positive_order_item items ≡ true
items-positive [] h = refl
items-positive (i ∷ items) h = ground (arith, items-positive items)

module _ (P : Platform) where
  pub create_order-positive :
      (user_id : ℕ) (lines : List OrderLine)
      → every is_positive_line (map stock_line lines) ≡ true
      → Always positively (create_order P user_id lines)
  create_order-positive user_id lines h = record {
    always = λ w p.
        let c = create_order-IsCommitted P user_id lines w in
        subst IsPositive (sym c.database) (record {
          cart_lines = p.cart_lines;
          order_lines =
              every-append is_positive_order_item w.db.order_items c.items p.order_lines
                (items-positive c.items (rw (c.same_lines) h));
          events =
              every-append (λ (m : OutboxMessage). announces_positive m.payload) w.db.outbox
                (c.sent ∷ []) p.events (rw (c.event, h) refl);
        });
  }

  pub enqueue-positive :
      (key : RoutingKey) (payload : Payload)
      → announces_positive payload ≡ true
      → Always positively (enqueue P key payload)
  enqueue-positive key payload h = record {
    always = λ w p. subst IsPositive (sym (enqueue-appends P key payload w).1) (record {
      cart_lines = p.cart_lines;
      order_lines = p.order_lines;
      events =
          every-append (λ (m : OutboxMessage). announces_positive m.payload) w.db.outbox
            (sent_of P key payload w ∷ []) p.events (rw h refl);
    });
  }
