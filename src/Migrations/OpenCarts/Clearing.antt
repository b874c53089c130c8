-- ===== src/Migrations/OpenCarts/Clearing.antt =====
-- What the DELETE of src/database/migrations/1782960000000-OneOpenCartPerUser.ts leaves.
use order_lifecycle_backend.Prelude.{
  ℕ, Bool, true, false, not, ◌||◌, ◌==◌, leb, List, [], ◌∷◌, select, arith, every, ◌≡◌, refl, inl,
  inr, subst, sym, ap, ◌∙◌, Bool-cases,
}
use order_lifecycle_backend.Migrations.Schema.{exists}
use order_lifecycle_backend.Orders.Rows.{is_null}
use order_lifecycle_backend.Migrations.OpenCarts.{
  CartRow, is_outranked, is_open_row, delete_duplicates,
}
use order_lifecycle_backend.Migrations.OpenCarts.Newest.{
  newest_of, newest_of-last, newest_of-open, newest_of-Memᴰ,
}
use mathlib.Core.List.{Memᴰ}
use mathlib.Core.List.Memᴰ

exists-Memᴰ :
    (c x : CartRow) (xs : List CartRow)
    → Memᴰ x xs
    → is_outranked c x ≡ true
    → exists (is_outranked c) xs ≡ true
exists-Memᴰ c x [] m h = elim m [ ]
exists-Memᴰ c x (y ∷ ys) m h = elim (Memᴰ.cases_cons m) [
  | inl e ↦ ground (arith, e)
  | inr m' ↦ ground (arith, exists-Memᴰ c x ys m' h)
]

select-Memᴰ :
    (p : CartRow → Bool) (x : CartRow) (xs : List CartRow)
    → Memᴰ x xs
    → p x ≡ true
    → Memᴰ x (select p xs)
select-Memᴰ p x [] m h = elim m [ ]
select-Memᴰ p x (y ∷ ys) m h = elim (Memᴰ.cases_cons m) [
  | inl e ↦ rw (ap p (sym e) ∙ h) (Memᴰ.head e)
  | inr m' ↦ elim (Bool-cases (p y)) [
    | inl kept ↦ rw kept (Memᴰ.tail (select-Memᴰ p x ys m' h))
    | inr gone ↦ rw gone (select-Memᴰ p x ys m' h)
  ]
]

exists-none :
    (c x : CartRow) (xs : List CartRow)
    → Memᴰ x xs
    → exists (is_outranked c) xs ≡ false
    → is_outranked c x ≡ false
exists-none c x xs m h = elim (Bool-cases (is_outranked c x)) [
  | inl outranked ↦ ground (arith, exists-Memᴰ c x xs m outranked)
  | inr other ↦ other
]

-- Another row of the index is of the same cart.
abbrev pub is_closed_or : ℕ → ℕ → CartRow → Bool
is_closed_or user_id id c = not (is_open_row user_id c) || (c.id == id)

unranked-same :
    (user_id : ℕ) (m x : CartRow)
    → is_open_row user_id m ≡ true
    → is_outranked m x ≡ false
    → is_outranked x m ≡ false
    → is_closed_or user_id m.id x ≡ true
unranked-same user_id m x o h k = ground arith

select-same :
    (user_id : ℕ) (m : CartRow) (carts xs : List CartRow)
    → Memᴰ m carts
    → is_open_row user_id m ≡ true
    → exists (is_outranked m) xs ≡ false
    → every (is_closed_or user_id m.id) (select (λ c. not (exists (is_outranked c) carts)) xs)
      ≡ true
select-same user_id m carts [] h o n = refl
select-same user_id m carts (x ∷ xs) h o n = elim (Bool-cases (exists (is_outranked x) carts)) [
  | inl gone ↦ rw gone (select-same user_id m carts xs h o (ground arith))
  | inr kept ↦ rw kept (
      rw (unranked-same user_id m x o (ground arith) (exists-none x m carts h kept))
        (select-same user_id m carts xs h o (ground arith)))
]

newest_of-present :
    (c : CartRow) (carts : List CartRow) → Memᴰ c carts → Memᴰ (newest_of c carts) carts
newest_of-present c carts m = elim (newest_of-Memᴰ c carts) [
  | inl e ↦ subst (λ x. Memᴰ x carts) (sym e) m
  | inr m' ↦ m'
]

-- A row is no open cart of the user, or no newer than a time.
abbrev pub is_closed_or_by : ℕ → ℕ → CartRow → Bool
is_closed_or_by user_id at c = not (is_open_row user_id c) || leb c.created_at at

abbrev pub is_checked_out : CartRow → Bool
is_checked_out c = not (is_null c.checked_out_at)

unranked-by :
    (user_id : ℕ) (m x : CartRow)
    → is_open_row user_id m ≡ true
    → is_outranked m x ≡ false
    → is_closed_or_by user_id m.created_at x ≡ true
unranked-by user_id m x o h = ground arith

last-newest :
    (user_id : ℕ) (m : CartRow) (carts : List CartRow)
    → is_open_row user_id m ≡ true
    → exists (is_outranked m) carts ≡ false
    → every (is_closed_or_by user_id m.created_at) carts ≡ true
last-newest user_id m [] o h = refl
last-newest user_id m (x ∷ xs) o h =
    rw (unranked-by user_id m x o (ground arith)) (last-newest user_id m xs o (ground arith))

checked_out-unranked :
    (c : CartRow) (carts : List CartRow)
    → is_null c.checked_out_at ≡ false
    → exists (is_outranked c) carts ≡ false
checked_out-unranked c [] h = refl
checked_out-unranked c (x ∷ xs) h = ground (arith, checked_out-unranked c xs h)

select-checked_out :
    (carts xs : List CartRow)
    → select is_checked_out (select (λ c. not (exists (is_outranked c) carts)) xs)
      ≡ select is_checked_out xs
select-checked_out carts [] = refl
select-checked_out carts (x ∷ xs) = elim (Bool-cases (is_null x.checked_out_at)) [
  | inl unclaimed ↦ elim (Bool-cases (exists (is_outranked x) carts)) [
    | inl gone ↦ rw (gone, unclaimed) (select-checked_out carts xs)
    | inr kept ↦ rw (kept, unclaimed) (select-checked_out carts xs)
  ]
  | inr claimed ↦
      rw (checked_out-unranked x carts claimed, claimed)
        (ap (λ ys. x ∷ ys) (select-checked_out carts xs))
]

-- The DELETE leaves the checked-out carts as they are. For a user with an open cart, it leaves an
-- open cart of this user such that no open cart of the user was created later, and every row
-- that is left is either no open cart of this user, or has this cart's id.
pub delete_duplicates-one :
    (user_id : ℕ) (c : CartRow) (carts : List CartRow)
    → Memᴰ c carts
    → is_open_row user_id c ≡ true
    → (select is_checked_out (delete_duplicates carts) ≡ select is_checked_out carts)
      × (m : CartRow) × Memᴰ m (delete_duplicates carts)
      × (is_open_row user_id m ≡ true)
      × (every (is_closed_or_by user_id m.created_at) carts ≡ true)
      × (every (is_closed_or user_id m.id) (delete_duplicates carts) ≡ true)
unfolding delete_duplicates
delete_duplicates-one user_id c carts m o =
    let n = newest_of c carts in
    let present = newest_of-present c carts m in
    let last = newest_of-last c carts in
    let opened = newest_of-open user_id c carts o in
    (
      select-checked_out carts carts,
      n,
      select-Memᴰ (λ x. not (exists (is_outranked x) carts)) n carts present (ap not last),
      opened,
      last-newest user_id n carts opened last,
      select-same user_id n carts carts present opened last,
    )
