-- ===== src/Products/Replenishment/Raising.antt =====
-- Which stocks a top-up raises, and by how much
-- (src/modules/products/stock-replenishment.service.ts).
use order_lifecycle_backend.Prelude.{
  ℕ, suc, ◌+◌, ◌*◌, ◌/◌, ◌≡◌, ◌≢◌, ◌≤◌, ◌<◌, refl, sym, ap, subst, ◌∙◌, ◌⊎◌, inl, inr, Bool, true,
  false, ◌&&◌, Option, none, some, List, [], ◌∷◌, arith, ◌==◌, leb, if◌then◌else◌, select, find_by,
  IsKeyed, Bool-cases, ==_apart, ==_sound, find_by-update_ne, find_by-update_self,
}
use order_lifecycle_backend.Entities.{Product}
use order_lifecycle_backend.Products.{product_id, any_product}
use order_lifecycle_backend.Products.Replenishment.{
  Fraction, should_restock, draws_of_decision, random_restock_amount, top_up, low_stock, replenish,
  replenish_low_stock, low_stock_threshold, guaranteed_restock_at, restock_min, restock_max,
}
use native.Mathlib.Nat.{div-lt_iff_lt-mul}

-- Every value of `Math.random()` is below one.
abbrev pub IsUnit : (ℕ → Fraction) → Type 0
IsUnit random = (n : ℕ) → (random n).part < (random n).whole

amount_bounds :
    (r : Fraction)
    → r.part < r.whole
    → (restock_min ≤ random_restock_amount r) × (random_restock_amount r ≤ restock_max)
unfolding random_restock_amount
amount_bounds r h = (omega arith, omega (arith, below))
  where
    below : r.part * 51 / r.whole < 51
    below =
        (div-lt_iff_lt-mul {k = r.whole} {x = r.part * 51} {y = 51} (omega arith)).1 (omega arith)

-- A raise of nothing, or of 50 to 100.
abbrev pub IsRaise : ℕ → Type 0
IsRaise a = (a ≡ 0) ⊎ ((restock_min ≤ a) × (a ≤ restock_max))

abbrev pub raised_by : ℕ → Product → Product
raised_by a p = record p { stock = p.stock + a }

module _ (random : ℕ → Fraction) (unit : IsUnit random) where
  -- The loop leaves alone what it has not read.
  replenish-others :
      (i drawn : ℕ) (ps rows : List Product)
      → find_by product_id i ps ≡ none
      → find_by product_id i (replenish random drawn ps rows).0 ≡ find_by product_id i rows
  unfolding replenish
  replenish-others i drawn [] rows h = refl
  replenish-others i drawn (p ∷ ps) rows h =
      elim (Bool-cases (should_restock (random drawn) p.stock)) [
        | inl raise ↦ rw raise (
            replenish-others i (suc (drawn + draws_of_decision p.stock)) ps
              (top_up p.id (amount p) rows) (ground arith)
            ∙ find_by-update_ne product_id p.id any_product (raised_by (amount p)) (λ r. refl) i
                rows (ground arith))
        | inr skip ↦
            rw skip (replenish-others i (drawn + draws_of_decision p.stock) ps rows (ground arith))
      ]
    where
      amount : Product → ℕ
      amount q = random_restock_amount (random (drawn + draws_of_decision q.stock))

-- What a top-up makes of a product that the loop has read as one row and finds stored as another.
pub record IsRaised (read stored : Product) (found : Option Product) : Type 0 where
  pub amount : ℕ
  pub range : IsRaise amount
  pub certain : read.stock ≤ guaranteed_restock_at → amount ≢ 0
  pub result : found ≡ some (raised_by amount stored)

certain_restock : (r : Fraction) (stock : ℕ) → stock ≤ 5 → should_restock r stock ≡ true
unfolding should_restock
certain_restock r stock h = ground arith

unraised : (p : Product) → p ≡ raised_by 0 p
unraised p = ap (λ n. record p { stock = n }) (omega arith)

module _ (random : ℕ → Fraction) (unit : IsUnit random) where
  replenish_head :
      (i drawn : ℕ) (p r : Product) (ps rows : List Product)
      → (p.id == i) ≡ true
      → find_by product_id i ps ≡ none
      → find_by product_id i rows ≡ some r
      → IsRaised p r (find_by product_id i (replenish random drawn (p ∷ ps) rows).0)
  unfolding replenish
  replenish_head i drawn p r ps rows hit rest f =
      elim (Bool-cases (should_restock (random drawn) p.stock)) [
        | inl raise ↦ record {
          amount = amount;
          range = inr (amount_bounds (random decided) (unit decided));
          certain = λ _. omega (arith, (amount_bounds (random decided) (unit decided)).0);
          result = rw raise (
              replenish-others random unit i (suc decided) ps (top_up p.id amount rows) rest
              ∙ topped (==_sound p.id i hit));
        }
        | inr skip ↦ record {
          amount = 0;
          range = inl refl;
          certain = λ low. absurd (ground (arith, certain_restock (random drawn) p.stock low));
          result =
              rw skip
                (replenish-others random unit i decided ps rows rest ∙ f ∙ ap some (unraised r));
        }
      ]
    where
      decided : ℕ
      decided = drawn + draws_of_decision p.stock

      amount : ℕ
      amount = random_restock_amount (random decided)

      topped : p.id ≡ i → find_by product_id i (top_up p.id amount rows) ≡ some (raised_by amount r)
      topped e =
          rw e
            (find_by-update_self product_id i any_product (raised_by amount) (λ q. refl) rows r f)

  replenish-raises :
      (i drawn : ℕ) (ps rows : List Product) (p r : Product)
      → IsKeyed product_id ps
      → find_by product_id i ps ≡ some p
      → find_by product_id i rows ≡ some r
      → IsRaised p r (find_by product_id i (replenish random drawn ps rows).0)
  unfolding replenish
  replenish-raises i drawn [] rows p r keyed e f = absurd (ground arith)
  replenish-raises i drawn (q ∷ ps) rows p r keyed e f = elim (Bool-cases (q.id == i)) [
    | inl hit ↦
        subst (λ x. IsRaised x r (find_by product_id i (replenish random drawn (q ∷ ps) rows).0))
          (ground arith) (replenish_head i drawn q r ps rows hit (rest (==_sound q.id i hit)) f)
    | inr miss ↦ elim (Bool-cases (should_restock (random drawn) q.stock)) [
      | inl raise ↦ rw raise (
          replenish-raises i (suc decided) ps (top_up q.id amount rows) p r keyed.1 (ground arith) (
            find_by-update_ne product_id q.id any_product (raised_by amount) (λ x. refl) i rows
              (λ h. ==_apart q.id i miss (sym h))
            ∙ f))
      | inr skip ↦ rw skip (replenish-raises i decided ps rows p r keyed.1 (ground arith) f)
    ]
  ]
    where
      decided : ℕ
      decided = drawn + draws_of_decision q.stock

      amount : ℕ
      amount = random_restock_amount (random decided)

      rest : q.id ≡ i → find_by product_id i ps ≡ none
      rest h = subst (λ j. find_by product_id j ps ≡ none) h keyed.0

select-none :
    (keep : Product → Bool) (i : ℕ) (rows : List Product)
    → find_by product_id i rows ≡ none
    → find_by product_id i (select keep rows) ≡ none
select-none keep i [] h = refl
select-none keep i (p ∷ rows) h = ground (arith, select-none keep i rows)

select-IsKeyed :
    (keep : Product → Bool) (rows : List Product)
    → IsKeyed product_id rows
    → IsKeyed product_id (select keep rows)
select-IsKeyed keep [] h = tt
select-IsKeyed keep (p ∷ rows) h = elim (Bool-cases (keep p)) [
  | inl hit ↦ rw hit (select-none keep p.id rows h.0, select-IsKeyed keep rows h.1)
  | inr miss ↦ rw miss (select-IsKeyed keep rows h.1)
]

select-found :
    (keep : Product → Bool) (i : ℕ) (rows : List Product) (p : Product)
    → IsKeyed product_id rows
    → find_by product_id i rows ≡ some p
    → find_by product_id i (select keep rows) ≡ (if keep p then some p else none)
select-found keep i [] p h e = absurd (ground arith)
select-found keep i (q ∷ rows) p h e = elim (Bool-cases (q.id == i)) [
  | inl hit ↦ ground (arith, select-none keep i rows (rest (==_sound q.id i hit)))
  | inr miss ↦ ground (arith, select-found keep i rows p h.1)
]
  where
    rest : q.id ≡ i → find_by product_id i rows ≡ none
    rest r = subst (λ j. find_by product_id j rows ≡ none) r h.0

-- What a top-up does to a product, by its stock and whether it is on sale.
pub data ToppedUp (p : Product) (found : Option Product) : Type 0 where
  low : p.stock ≤ low_stock_threshold → p.active ≡ true → IsRaised p p found → ToppedUp p found
  left_alone :
      (leb p.stock low_stock_threshold && p.active) ≡ false → found ≡ some p → ToppedUp p found

-- A top-up leaves a product alone that is not on sale or has more than 10 in stock. Any other
-- gets nothing or between 50 and 100 more, and with at most 5 in stock it gets some for certain.
-- Products have distinct ids, and every random value is below one.
pub replenish_low_stock-ToppedUp :
    (random : ℕ → Fraction) (drawn : ℕ) (rows : List Product) (i : ℕ) (p : Product)
    → IsUnit random
    → IsKeyed product_id rows
    → find_by product_id i rows ≡ some p
    → ToppedUp p (find_by product_id i (replenish_low_stock random drawn rows).0)
unfolding replenish_low_stock low_stock
replenish_low_stock-ToppedUp random drawn rows i p unit keyed e =
    elim (Bool-cases (leb p.stock low_stock_threshold && p.active)) [
      | inl is_low ↦ low (ground arith) (ground arith) (
          replenish-raises random unit i drawn (low_stock rows) rows p p
            (select-IsKeyed _ rows keyed) (ground (arith, select-found low_row i rows p keyed e)) e)
      | inr other ↦ left_alone other (
          replenish-others random unit i drawn (low_stock rows) rows
            (ground (arith, select-found low_row i rows p keyed e))
          ∙ e)
    ]
  where
    low_row : Product → Bool
    low_row q = leb q.stock low_stock_threshold && q.active
