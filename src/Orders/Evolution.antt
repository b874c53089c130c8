-- ===== src/Orders/Evolution.antt =====
-- How an order's row may change over time: its status follows the lifecycle, its owner and its
-- creation time stay, a payment confirmation is never taken back, and a row in a terminal status
-- is never written again.
use order_lifecycle_backend.Prelude.{
  ℕ, ◌≡◌, refl, sym, ap, subst, ◌∙◌, ◌⊎◌, inl, inr, Bool, true, Option, none, some, List, [], ◌∷◌,
  ◌++◌, arith, ◌==◌, Bool-cases, find, find_by, at_key, update_where, if◌then◌else◌,
}
use order_lifecycle_backend.Entities.{Order, OrderStatus}
use order_lifecycle_backend.Orders.StateMachine.{is_terminal_status}
use order_lifecycle_backend.Orders.StateMachine.Lifecycle.{◌⟶*◌, here, next}
use order_lifecycle_backend.Orders.Rows.{order_id}

pub ⟶*-trans : {s t u : OrderStatus} → s ⟶* t → t ⟶* u → s ⟶* u
⟶*-trans here r = r
⟶*-trans (next e q) r = next e (⟶*-trans q r)

-- What any service call preserves of an order's row.
pub record Keeps (o o' : Order) : Type 0 where
  pub identity : o'.id ≡ o.id
  pub history : o.status ⟶* o'.status
  pub owner : o'.user_id ≡ o.user_id
  pub creation : o'.created_at ≡ o.created_at
  pub confirmation :
      (o.payment_initiated_at ≡ none) ⊎ (o'.payment_initiated_at ≡ o.payment_initiated_at)
  pub frozen : is_terminal_status o.status ≡ true → o' ≡ o

pub Keeps-refl : (o : Order) → Keeps o o
Keeps-refl o = record {
  identity = refl;
  history = here;
  owner = refl;
  creation = refl;
  confirmation = inr refl;
  frozen = λ _. refl;
}

confirmation_trans :
    (a b c : Option ℕ) → (a ≡ none) ⊎ (b ≡ a) → (b ≡ none) ⊎ (c ≡ b) → (a ≡ none) ⊎ (c ≡ a)
confirmation_trans a b c (inl h) k = inl h
confirmation_trans a b c (inr h) (inl k) = inl (ground arith)
confirmation_trans a b c (inr h) (inr k) = inr (ground arith)

pub Keeps-trans : {a b c : Order} → Keeps a b → Keeps b c → Keeps a c
Keeps-trans {a} {b} {c} h k = record {
  identity = k.identity ∙ h.identity;
  history = ⟶*-trans h.history k.history;
  owner = k.owner ∙ h.owner;
  creation = k.creation ∙ h.creation;
  confirmation =
      confirmation_trans a.payment_initiated_at b.payment_initiated_at c.payment_initiated_at
        h.confirmation k.confirmation;
  frozen = λ t. k.frozen (rw (h.frozen t) t) ∙ h.frozen t;
}

-- Every row is kept in its place, and new rows come after the old ones.
pub data Evolves : List Order → List Order → Type 0 where
  added : {rows : List Order} → Evolves [] rows
  kept :
      {o o' : Order} {rows rows' : List Order}
      → Keeps o o'
      → Evolves rows rows'
      → Evolves (o ∷ rows) (o' ∷ rows')

pub Evolves-refl : (rows : List Order) → Evolves rows rows
Evolves-refl [] = added
Evolves-refl (o ∷ rows) = kept (Keeps-refl o) (Evolves-refl rows)

pub Evolves-trans : {a b c : List Order} → Evolves a b → Evolves b c → Evolves a c
Evolves-trans added k = added
Evolves-trans (kept h hs) (kept k ks) = kept (Keeps-trans h k) (Evolves-trans hs ks)

pub insert-Evolves : (o : Order) (rows : List Order) → Evolves rows (rows ++ o ∷ [])
insert-Evolves o [] = added
insert-Evolves o (r ∷ rows) = kept (Keeps-refl r) (insert-Evolves o rows)

-- An UPDATE of one order evolves the table if it keeps every row that its guard lets through.
pub update-Evolves :
    (id : ℕ) (guard : Order → Bool) (f : Order → Order) (rows : List Order)
    → ((o : Order) → guard o ≡ true → Keeps o (f o))
    → Evolves rows (update_where (at_key order_id id guard) f rows)
update-Evolves id guard f [] keeps = added
update-Evolves id guard f (r ∷ rows) keeps = kept head (update-Evolves id guard f rows keeps)
  where
    head : Keeps r (if at_key order_id id guard r then f r else r)
    head = elim (Bool-cases (at_key order_id id guard r)) [
      | inl hit ↦ rw hit (keeps r (ground arith))
      | inr miss ↦ rw miss (Keeps-refl r)
    ]

-- What a lookup finds, by any test of the columns that do not change, it finds after the table
-- has evolved, as it was kept.
pub find-Evolves :
    (p : Order → Bool)
    → ((o o' : Order) → Keeps o o' → p o' ≡ p o)
    → {rows rows' : List Order} → Evolves rows rows'
    → (o : Order) → find p rows ≡ some o
    → (o' : Order) × (find p rows' ≡ some o') × Keeps o o'
find-Evolves p stable added o e = cc
find-Evolves p stable (kept {o = r} {o' = r'} {rows} {rows'} k ks) o e = elim (Bool-cases (p r)) [
  | inl hit ↦ (r', ground (arith, stable r r' k), subst (λ x. Keeps x r') (ground arith) k)
  | inr miss ↦
      let (o', e', keeps) = find-Evolves p stable ks o (ground arith) in
      (o', ground (arith, stable r r' k), keeps)
]

find_by-find : (i : ℕ) (rows : List Order) → find_by order_id i rows ≡ find (λ o. o.id == i) rows
find_by-find i [] = refl
find_by-find i (r ∷ rows) = ground (arith, find_by-find i rows)

-- No order disappears, and each is kept.
pub find_by-Evolves :
    {rows rows' : List Order}
    → Evolves rows rows'
    → (i : ℕ) (o : Order) → find_by order_id i rows ≡ some o
    → (o' : Order) × (find_by order_id i rows' ≡ some o') × Keeps o o'
find_by-Evolves {rows} {rows'} h i o e =
    let (o', e', keeps) =
      find-Evolves (λ r. r.id == i) (λ r r' k. ap (λ j. j == i) k.identity) h o
        (sym (find_by-find i rows) ∙ e) in
    (o', find_by-find i rows' ∙ e', keeps)
