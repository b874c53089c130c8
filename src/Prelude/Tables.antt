-- ===== src/Prelude/Tables.antt =====
-- A database table as the list of its rows, and the SQL statements that the services issue:
-- a lookup by key, a guarded UPDATE of one key with its `affected` count, and SELECT ... WHERE.
use Prim.Native.Nat.{ℕ, suc, ◌<◌}
use mathlib.Core.Path.{◌≡◌, refl}
use mathlib.Core.Logic.{◌≢◌, inl, inr}
use mathlib.Core.Bool.{Bool, true, false, ◌&&◌}
use mathlib.Core.Option.{Option, none, some}
use mathlib.Core.List.{List, [], ◌∷◌, ◌++◌}
use native.Mathlib.Omega.{arith}
use order_lifecycle_backend.Prelude.Tests.{◌==◌, if◌then◌else◌, Bool-cases}

module _ {ℓ} {A : Type ℓ} where
  abbrev pub length : List A → ℕ
  length [] = 0
  length (x ∷ xs) = suc (length xs)

  -- SELECT ... WHERE p
  abbrev pub select : (A → Bool) → List A → List A
  select p [] = []
  select p (x ∷ xs) = if p x then x ∷ select p xs else select p xs

  -- SELECT ... WHERE p LIMIT 1
  abbrev pub find : (A → Bool) → List A → Option A
  find p [] = none
  find p (x ∷ xs) = if p x then some x else find p xs

  -- UPDATE ... SET f WHERE p
  abbrev pub update_where : (A → Bool) → (A → A) → List A → List A
  update_where p f [] = []
  update_where p f (x ∷ xs) = (if p x then f x else x) ∷ update_where p f xs

  -- The number of rows that a WHERE clause matches: the `affected` of an UPDATE.
  abbrev pub count_where : (A → Bool) → List A → ℕ
  count_where p [] = 0
  count_where p (x ∷ xs) = if p x then suc (count_where p xs) else count_where p xs

  abbrev pub every : (A → Bool) → List A → Bool
  every p [] = true
  every p (x ∷ xs) = p x && every p xs

module _ {ℓ} {A : Type ℓ} (key : A → ℕ) where
  -- The row under a primary key.
  abbrev pub find_by : ℕ → List A → Option A
  find_by k [] = none
  find_by k (x ∷ xs) = if key x == k then some x else find_by k xs

  -- No two rows have one key.
  abbrev pub IsKeyed : List A → Type ℓ
  IsKeyed [] = Unit
  IsKeyed (x ∷ xs) = (find_by (key x) xs ≡ none) × IsKeyed xs

  abbrev pub at_key : ℕ → (A → Bool) → A → Bool
  at_key k guard x = (key x == k) && guard x

module _ {ℓ} {A : Type ℓ} (p : A → Bool) (f : A → A) where
  pub update_where-none : (xs : List A) → count_where p xs ≡ 0 → update_where p f xs ≡ xs
  update_where-none [] h = refl
  update_where-none (x ∷ xs) h = ground (arith, update_where-none xs)

module _ {ℓ} {A : Type ℓ} (key : A → ℕ) (k : ℕ) (guard : A → Bool) where
  pub count-absent :
      (xs : List A) → find_by key k xs ≡ none → count_where (at_key key k guard) xs ≡ 0
  count-absent [] h = refl
  count-absent (x ∷ xs) h = ground (arith, count-absent xs)

  -- An UPDATE by key whose guard the stored row meets affects at least that row.
  pub count-found :
      (xs : List A) (r : A)
      → find_by key k xs ≡ some r
      → guard r ≡ true
      → 0 < count_where (at_key key k guard) xs
  count-found [] r h g = cc
  count-found (x ∷ xs) r h g = ground (arith, count-found xs r)

  -- With distinct keys an UPDATE whose guard the stored row fails affects nothing.
  pub count-refused :
      (xs : List A) (r : A)
      → IsKeyed key xs
      → find_by key k xs ≡ some r
      → guard r ≡ false
      → count_where (at_key key k guard) xs ≡ 0
  count-refused [] r u h g = refl
  count-refused (x ∷ xs) r u h g = elim (Bool-cases (key x == k)) [
    | inl hit ↦ ground (arith, count-absent xs)
    | inr miss ↦ ground (arith, count-refused xs r u.1)
  ]

-- What an UPDATE that keeps the key does to a lookup, to the keys and to their distinctness.
module _ {ℓ} {A : Type ℓ} (key : A → ℕ) (k : ℕ) (guard : A → Bool) (f : A → A)
    (keeps : (r : A) → key (f r) ≡ key r) where
  abbrev pub set_if : A → A
  set_if r = if guard r then f r else r

  pub find_by-update_ne :
      (j : ℕ) (xs : List A)
      → j ≢ k
      → find_by key j (update_where (at_key key k guard) f xs) ≡ find_by key j xs
  find_by-update_ne j [] h = refl
  find_by-update_ne j (x ∷ xs) h = ground (arith, keeps x, find_by-update_ne j xs)

  pub find_by-update_none :
      (j : ℕ) (xs : List A)
      → find_by key j xs ≡ none
      → find_by key j (update_where (at_key key k guard) f xs) ≡ none
  find_by-update_none j [] h = refl
  find_by-update_none j (x ∷ xs) h = ground (arith, keeps x, find_by-update_none j xs)

  pub find_by-update_self :
      (xs : List A) (r : A)
      → find_by key k xs ≡ some r
      → find_by key k (update_where (at_key key k guard) f xs) ≡ some (set_if r)
  find_by-update_self [] r h = cc
  find_by-update_self (x ∷ xs) r h = ground (arith, keeps x, find_by-update_self xs r)

  pub update-IsKeyed :
      (xs : List A) → IsKeyed key xs → IsKeyed key (update_where (at_key key k guard) f xs)
  update-IsKeyed [] u = tt
  update-IsKeyed (x ∷ xs) u =
      ground (arith, keeps x, find_by-update_none (key x) xs u.0, update-IsKeyed xs u.1)

-- An INSERT of a row under a key that the table does not have.
module _ {ℓ} {A : Type ℓ} (key : A → ℕ) where
  pub find_by-insert_self :
      (x : A) (xs : List A)
      → find_by key (key x) xs ≡ none
      → find_by key (key x) (xs ++ x ∷ []) ≡ some x
  find_by-insert_self x [] h = ground arith
  find_by-insert_self x (y ∷ ys) h = ground (arith, find_by-insert_self x ys)

  pub find_by-insert_old :
      (k : ℕ) (x r : A) (xs : List A)
      → find_by key k xs ≡ some r
      → find_by key k (xs ++ x ∷ []) ≡ some r
  find_by-insert_old k x r [] h = cc
  find_by-insert_old k x r (y ∷ ys) h = ground (arith, find_by-insert_old k x r ys)

  pub find_by-insert_ne :
      (k : ℕ) (x : A) (xs : List A) → k ≢ key x → find_by key k (xs ++ x ∷ []) ≡ find_by key k xs
  find_by-insert_ne k x [] h = ground arith
  find_by-insert_ne k x (y ∷ ys) h = ground (arith, find_by-insert_ne k x ys h)

-- After an UPDATE of one key, a later UPDATE of that key affects nothing, if no row that the
-- first one wrote or left alone meets the second one's guard.
module _ {ℓ} {A : Type ℓ} (key : A → ℕ) (k : ℕ) (g h : A → Bool) (f : A → A) where
  pub count-after_update :
      ((r : A) → key (f r) ≡ key r)
      → ((r : A) → h r ≡ true → g (f r) ≡ false)
      → ((r : A) → h r ≡ false → g r ≡ false)
      → (xs : List A) → count_where (at_key key k g) (update_where (at_key key k h) f xs) ≡ 0
  count-after_update keeps won lost [] = refl
  count-after_update keeps won lost (x ∷ xs) = elim (Bool-cases (h x)) [
    | inl yes' ↦ ground (arith, keeps x, won x yes', count-after_update keeps won lost xs)
    | inr no' ↦ ground (arith, keeps x, lost x no', count-after_update keeps won lost xs)
  ]
