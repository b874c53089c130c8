-- ===== src/Products/Reservation.antt =====
-- The loop of `reserve_stock` against the demand of its lines, by induction on the lines.
use order_lifecycle_backend.Prelude.{
  ℕ, ◌+◌, ◌-◌, ◌≤◌, ◌≡◌, ◌≢◌, refl, sym, ap, ◌∙◌, inl, inr, Bool, true, false, ◌&&◌, none, some,
  List, [], ◌∷◌, ◌++◌, append-nil, append_assoc, arith, ◌==◌, leb, if◌then◌else◌, Bool-cases,
  Option-cases, find_by, IsKeyed, count-absent, count-found, find_by-update_ne, find_by-update_none,
}
use order_lifecycle_backend.Entities.{Product, StockLine}
use order_lifecycle_backend.World.{Result, ok, err}
use order_lifecycle_backend.Products.{
  product_id, has_stock, decrement, affected, restore_lines, reserve_lines,
}
use order_lifecycle_backend.Products.Stock.{
  increment-restore, restore-append, increment-decrement, decrement-IsKeyed,
}

-- How much of a product the lines ask for together.
abbrev pub demand : ℕ → List StockLine → ℕ
demand i [] = 0
demand i (l ∷ ls) = (if l.product_id == i then l.quantity else 0) + demand i ls

-- Every product that the lines `ks` name has a row, with enough stock for the demand of `ls`.
abbrev pub covers : List StockLine → List StockLine → List Product → Bool
covers [] ls rows = true
covers (k ∷ ks) ls rows = elim (find_by product_id k.product_id rows) [
  | none ↦ false
  | some p ↦ leb (demand k.product_id ls) p.stock && covers ks ls rows
]

abbrev pub succeeded : {A : Type 0} → Result A → Bool
succeeded (ok _) = true
succeeded (err _) = false

-- How a reservation of `all` that began on `base` has ended.
abbrev pub Ends : List Product → List StockLine → Result (Unit {0}) × List Product → Type 0
Ends base all (ok _, rows) = restore_lines all rows ≡ base
Ends base all (err _, rows) = rows ≡ base

restore-applied :
    (applied : List StockLine) (l : StockLine) (rows : List Product)
    → IsKeyed product_id rows
    → affected l rows ≢ 0
    → restore_lines (applied ++ l ∷ []) (decrement l rows) ≡ restore_lines applied rows
unfolding restore_lines
restore-applied applied l rows u h =
    restore-append applied (l ∷ []) (decrement l rows)
    ∙ sym (increment-restore l applied (decrement l rows))
    ∙ ap (restore_lines applied) (increment-decrement l rows u h)

missed : (l : StockLine) (rows : List Product) → affected l rows ≡ 0 → decrement l rows ≡ rows
missed l [] h = refl
missed l (p ∷ rows) h = ground (arith, missed l rows)

pub reserve_lines-Ends :
    (applied ls : List StockLine) (rows base : List Product)
    → IsKeyed product_id rows
    → restore_lines applied rows ≡ base
    → Ends base (applied ++ ls) (reserve_lines applied ls rows)
unfolding reserve_lines
reserve_lines-Ends applied [] rows base u h = rw append-nil h
reserve_lines-Ends applied (l ∷ ls) rows base u h = elim (Bool-cases (affected l rows == 0)) [
  | inl short ↦ rw short (ap (restore_lines applied) (missed l rows (ground arith)) ∙ h)
  | inr hit ↦
      rw (hit, ← append_assoc applied (l ∷ []) ls)
        (reserve_lines-Ends (applied ++ l ∷ []) ls (decrement l rows) base
          (decrement-IsKeyed l rows u) (restore-applied applied l rows u (ground arith) ∙ h))
]

-- A row after `decrement`, when the UPDATE has hit.
after_decrement :
    (l : StockLine) (i : ℕ) (rows : List Product) (p : Product)
    → IsKeyed product_id rows
    → affected l rows ≢ 0
    → find_by product_id i rows ≡ some p
    → ((if l.product_id == i then l.quantity else 0) ≤ p.stock)
      × (find_by product_id i (decrement l rows)
          ≡ some (record p { stock = p.stock - (if l.product_id == i then l.quantity else 0) }))
after_decrement l i [] p u h e = cc
after_decrement l i (q ∷ rows) p u h e = elim (Bool-cases (q.id == l.product_id)) [
  | inl hit ↦ ground (
    arith,
    count-absent product_id l.product_id (has_stock l.quantity) rows,
    find_by-update_ne product_id l.product_id (has_stock l.quantity)
        (λ r. record r { stock = r.stock - l.quantity }) (λ r. refl) i rows,
  )
  | inr miss ↦ ground (arith, after_decrement l i rows p u.1)
]

-- A hit means that the product has a row.
hit_found :
    (l : StockLine) (rows : List Product)
    → affected l rows ≢ 0
    → (p : Product) × (find_by product_id l.product_id rows ≡ some p)
hit_found l rows h = elim (Option-cases (find_by product_id l.product_id rows)) [
  | inl e ↦ absurd (h (count-absent product_id l.product_id (has_stock l.quantity) rows e))
  | inr (p, e) ↦ (p, e)
]

-- What a successful reservation leaves of each product.
pub reserve_lines-takes :
    (applied ls : List StockLine) (i : ℕ) (rows : List Product) (p : Product)
    → IsKeyed product_id rows
    → find_by product_id i rows ≡ some p
    → succeeded (reserve_lines applied ls rows).0 ≡ true
    → (demand i ls ≤ p.stock)
      × (find_by product_id i (reserve_lines applied ls rows).1
          ≡ some (record p { stock = p.stock - demand i ls }))
unfolding reserve_lines
reserve_lines-takes applied [] i rows p u e s = ground arith
reserve_lines-takes applied (l ∷ ls) i rows p u e s = elim (Bool-cases (affected l rows == 0)) [
  | inl short ↦ cc (rw short at s)
  | inr hit ↦
      let taken = after_decrement l i rows p u (ground arith) e in
      let rest =
        reserve_lines-takes (applied ++ l ∷ []) ls i (decrement l rows) _
          (decrement-IsKeyed l rows u) (taken.1) (rw hit at s) in
      rw hit (ground arith)
]

-- Taking one line of the demand out of the table leaves the rest of it covered, and back.
covers-decrement :
    (ks ls : List StockLine) (l : StockLine) (rows : List Product)
    → IsKeyed product_id rows
    → affected l rows ≢ 0
    → covers ks (l ∷ ls) rows ≡ true
    → covers ks ls (decrement l rows) ≡ true
covers-decrement [] ls l rows u h c = refl
covers-decrement (k ∷ ks) ls l rows u h c =
    elim (Option-cases (find_by product_id k.product_id rows)) [
      | inl e ↦ cc (rw (e, covers) at c)
      | inr (p, e) ↦
          let taken = after_decrement l k.product_id rows p u h e in
          ground (arith, rw (e, covers) at c, covers-decrement ks ls l rows u h, taken.0, taken.1)
    ]

covers-increment :
    (ks ls : List StockLine) (l : StockLine) (rows : List Product)
    → IsKeyed product_id rows
    → affected l rows ≢ 0
    → covers ks ls (decrement l rows) ≡ true
    → covers ks (l ∷ ls) rows ≡ true
covers-increment [] ls l rows u h c = refl
covers-increment (k ∷ ks) ls l rows u h c =
    elim (Option-cases (find_by product_id k.product_id rows)) [
      | inl e ↦ cc (rw (vanishes e, covers) at c)
      | inr (p, e) ↦
          let taken = after_decrement l k.product_id rows p u h e in
          ground (arith, rw (taken.1, covers) at c, covers-increment ks ls l rows u h, taken.0, e)
    ]
  where
    vanishes :
        find_by product_id k.product_id rows ≡ none
        → find_by product_id k.product_id (decrement l rows) ≡ none
    vanishes =
        find_by-update_none product_id l.product_id (has_stock l.quantity)
          (λ r. record r { stock = r.stock - l.quantity }) (λ r. refl) k.product_id rows

pub covered→succeeded :
    (applied ls : List StockLine) (rows : List Product)
    → IsKeyed product_id rows
    → covers ls ls rows ≡ true
    → succeeded (reserve_lines applied ls rows).0 ≡ true
unfolding reserve_lines
covered→succeeded applied [] rows u c = refl
covered→succeeded applied (l ∷ ls) rows u c =
    elim (Option-cases (find_by product_id l.product_id rows)) [
      | inl e ↦ cc (rw (e, covers) at c)
      | inr (p, e) ↦
          let hit : affected l rows ≢ 0 = omega (
            arith,
            count-found product_id l.product_id (has_stock l.quantity) rows p e
                (ground (arith, rw (e, covers) at c)),
          ) in
          let later : covers ls ls (decrement l rows) ≡ true =
            covers-decrement ls ls l rows u hit (ground (arith, rw (e, covers) at c)) in
          ground (
            arith,
            covered→succeeded (applied ++ l ∷ []) ls (decrement l rows) (decrement-IsKeyed l rows u)
                later,
          )
    ]

pub succeeded→covered :
    (applied ls : List StockLine) (rows : List Product)
    → IsKeyed product_id rows
    → succeeded (reserve_lines applied ls rows).0 ≡ true
    → covers ls ls rows ≡ true
unfolding reserve_lines
succeeded→covered applied [] rows u s = refl
succeeded→covered applied (l ∷ ls) rows u s = elim (Bool-cases (affected l rows == 0)) [
  | inl short ↦ cc (rw short at s)
  | inr hit ↦
      let nonzero : affected l rows ≢ 0 = ground arith in
      let (p, e) = hit_found l rows nonzero in
      let taken = after_decrement l l.product_id rows p u nonzero e in
      let whole = reserve_lines-takes applied (l ∷ ls) l.product_id rows p u e s in
      let tail = covers-increment ls ls l rows u nonzero (
        succeeded→covered (applied ++ l ∷ []) ls (decrement l rows) (decrement-IsKeyed l rows u)
          (rw hit at s)) in
      ground (arith, e, whole.0, tail)
]
