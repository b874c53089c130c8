-- ===== src/Prelude/Sorting.antt =====
-- ORDER BY a number, LIMIT, and what they keep.
use Prim.Native.Nat.{ℕ, zero, suc, ◌+◌, ◌≤◌}
use mathlib.Core.Path.{◌≡◌, refl}
use mathlib.Core.Logic.{inl, inr}
use mathlib.Core.Bool.{Bool}
use mathlib.Core.List.{List, [], ◌∷◌, ◌++◌}
use native.Mathlib.Omega.{arith}
use order_lifecycle_backend.Prelude.Tests.{leb, if◌then◌else◌, Bool-cases}
use order_lifecycle_backend.Prelude.Tables.{count_where, length}

module _ {ℓ} {A : Type ℓ} where
  -- LIMIT n
  abbrev pub take : ℕ → List A → List A
  take zero xs = []
  take (suc n) [] = []
  take (suc n) (x ∷ xs) = x ∷ take n xs

  -- OFFSET n
  abbrev pub drop : ℕ → List A → List A
  drop zero xs = xs
  drop (suc n) [] = []
  drop (suc n) (x ∷ xs) = drop n xs

  -- `reverse`
  abbrev pub reverse : List A → List A
  reverse [] = []
  reverse (x ∷ xs) = reverse xs ++ x ∷ []

  pub length-take : (n : ℕ) (xs : List A) → length (take n xs) ≤ n
  length-take zero xs = omega arith
  length-take (suc n) [] = omega arith
  length-take (suc n) (x ∷ xs) = omega (arith, length-take n xs)

  pub length-snoc : (xs : List A) (x : A) → length (xs ++ x ∷ []) ≡ suc (length xs)
  length-snoc [] x = refl
  length-snoc (y ∷ xs) x = omega (arith, length-snoc xs x)

  pub length-reverse : (xs : List A) → length (reverse xs) ≡ length xs
  length-reverse [] = refl
  length-reverse (x ∷ xs) = omega (arith, length-snoc (reverse xs) x, length-reverse xs)

module _ {ℓ} {A : Type ℓ} (key : A → ℕ) where
  abbrev pub insert_desc : A → List A → List A
  insert_desc x [] = x ∷ []
  insert_desc x (y ∷ ys) = if leb (key y) (key x) then x ∷ y ∷ ys else y ∷ insert_desc x ys

  -- ORDER BY key DESC
  abbrev pub sort_desc : List A → List A
  sort_desc [] = []
  sort_desc (x ∷ xs) = insert_desc x (sort_desc xs)

  -- Every key is at most this number; every key is at least this number.
  abbrev pub AllBelow : ℕ → List A → Type 0
  AllBelow k [] = Unit
  AllBelow k (x ∷ xs) = (key x ≤ k) × AllBelow k xs

  abbrev pub IsDescending : List A → Type 0
  IsDescending [] = Unit
  IsDescending (x ∷ xs) = AllBelow (key x) xs × IsDescending xs

  abbrev pub AllAbove : ℕ → List A → Type 0
  AllAbove k [] = Unit
  AllAbove k (x ∷ xs) = (k ≤ key x) × AllAbove k xs

  abbrev pub IsAscending : List A → Type 0
  IsAscending [] = Unit
  IsAscending (x ∷ xs) = AllAbove (key x) xs × IsAscending xs

  -- Every key of the one is at least every key of the other.
  abbrev pub Covers : List A → List A → Type 0
  Covers newer [] = Unit
  Covers newer (x ∷ older) = AllAbove (key x) newer × Covers newer older

  AllBelow-trans : (j k : ℕ) (xs : List A) → j ≤ k → AllBelow j xs → AllBelow k xs
  AllBelow-trans j k [] h a = tt
  AllBelow-trans j k (x ∷ xs) h a = (omega (arith, a.0), AllBelow-trans j k xs h a.1)

  insert_desc-AllBelow :
      (k : ℕ) (x : A) (xs : List A) → key x ≤ k → AllBelow k xs → AllBelow k (insert_desc x xs)
  insert_desc-AllBelow k x [] h a = (h, tt)
  insert_desc-AllBelow k x (y ∷ ys) h a = elim (Bool-cases (leb (key y) (key x))) [
    | inl le ↦ rw le (h, a)
    | inr gt ↦ rw gt (a.0, insert_desc-AllBelow k x ys h a.1)
  ]

  insert_desc-IsDescending :
      (x : A) (xs : List A) → IsDescending xs → IsDescending (insert_desc x xs)
  insert_desc-IsDescending x [] d = (tt, tt)
  insert_desc-IsDescending x (y ∷ ys) d = elim (Bool-cases (leb (key y) (key x))) [
    | inl le ↦ rw le ((ground arith, AllBelow-trans (key y) (key x) ys (ground arith) d.0), d)
    | inr gt ↦
        rw gt
          (insert_desc-AllBelow (key y) x ys (ground arith) d.0, insert_desc-IsDescending x ys d.1)
  ]

  pub sort_desc-IsDescending : (xs : List A) → IsDescending (sort_desc xs)
  sort_desc-IsDescending [] = tt
  sort_desc-IsDescending (x ∷ xs) =
      insert_desc-IsDescending x (sort_desc xs) (sort_desc-IsDescending xs)

  -- Sorting keeps how many rows pass any test.
  pub count-insert_desc :
      (p : A → Bool) (x : A) (xs : List A)
      → count_where p (insert_desc x xs) ≡ count_where p (x ∷ xs)
  count-insert_desc p x [] = refl
  count-insert_desc p x (y ∷ ys) = ground (arith, count-insert_desc p x ys)

  pub count-sort_desc :
      (p : A → Bool) (xs : List A) → count_where p (sort_desc xs) ≡ count_where p xs
  count-sort_desc p [] = refl
  count-sort_desc p (x ∷ xs) =
      ground (arith, count-insert_desc p x (sort_desc xs), count-sort_desc p xs)

  -- What the newest rows are: descending order cut at a LIMIT.
  AllBelow-drop : (k n : ℕ) (xs : List A) → AllBelow k xs → AllBelow k (drop n xs)
  AllBelow-drop k zero xs a = a
  AllBelow-drop k (suc n) [] a = tt
  AllBelow-drop k (suc n) (x ∷ xs) a = AllBelow-drop k n xs a.1

  AllBelow-take : (k n : ℕ) (xs : List A) → AllBelow k xs → AllBelow k (take n xs)
  AllBelow-take k zero xs a = tt
  AllBelow-take k (suc n) [] a = tt
  AllBelow-take k (suc n) (x ∷ xs) a = (a.0, AllBelow-take k n xs a.1)

  take-IsDescending : (n : ℕ) (xs : List A) → IsDescending xs → IsDescending (take n xs)
  take-IsDescending zero xs d = tt
  take-IsDescending (suc n) [] d = tt
  take-IsDescending (suc n) (x ∷ xs) d =
      (AllBelow-take (key x) n xs d.0, take-IsDescending n xs d.1)

  cons-Covers :
      (x : A) (newer older : List A)
      → AllBelow (key x) older
      → Covers newer older
      → Covers (x ∷ newer) older
  cons-Covers x newer [] a c = tt
  cons-Covers x newer (o ∷ older) a c = ((a.0, c.0), cons-Covers x newer older a.1 c.1)

  nil-Covers : (older : List A) → Covers [] older
  nil-Covers [] = tt
  nil-Covers (o ∷ older) = (tt, nil-Covers older)

  take-Covers : (n : ℕ) (xs : List A) → IsDescending xs → Covers (take n xs) (drop n xs)
  take-Covers zero xs d = nil-Covers xs
  take-Covers (suc n) [] d = tt
  take-Covers (suc n) (x ∷ xs) d =
      cons-Covers x (take n xs) (drop n xs) (AllBelow-drop (key x) n xs d.0) (take-Covers n xs d.1)

  AllBelow-snoc :
      (k : ℕ) (xs : List A) (x : A) → AllBelow k xs → key x ≤ k → AllBelow k (xs ++ x ∷ [])
  AllBelow-snoc k [] x a h = (h, tt)
  AllBelow-snoc k (y ∷ xs) x a h = (a.0, AllBelow-snoc k xs x a.1 h)

  AllBelow-reverse : (k : ℕ) (xs : List A) → AllBelow k xs → AllBelow k (reverse xs)
  AllBelow-reverse k [] a = tt
  AllBelow-reverse k (x ∷ xs) a = AllBelow-snoc k (reverse xs) x (AllBelow-reverse k xs a.1) a.0

  AllAbove-snoc :
      (k : ℕ) (xs : List A) (x : A) → AllAbove k xs → k ≤ key x → AllAbove k (xs ++ x ∷ [])
  AllAbove-snoc k [] x a h = (h, tt)
  AllAbove-snoc k (y ∷ xs) x a h = (a.0, AllAbove-snoc k xs x a.1 h)

  AllAbove-reverse : (k : ℕ) (xs : List A) → AllAbove k xs → AllAbove k (reverse xs)
  AllAbove-reverse k [] a = tt
  AllAbove-reverse k (x ∷ xs) a = AllAbove-snoc k (reverse xs) x (AllAbove-reverse k xs a.1) a.0

  reverse-Covers : (newer older : List A) → Covers newer older → Covers (reverse newer) older
  reverse-Covers newer [] c = tt
  reverse-Covers newer (o ∷ older) c =
      (AllAbove-reverse (key o) newer c.0, reverse-Covers newer older c.1)

  snoc-IsAscending :
      (xs : List A) (x : A) → AllBelow (key x) xs → IsAscending xs → IsAscending (xs ++ x ∷ [])
  snoc-IsAscending [] x a h = (tt, tt)
  snoc-IsAscending (y ∷ xs) x a h =
      (AllAbove-snoc (key y) xs x h.0 a.0, snoc-IsAscending xs x a.1 h.1)

  reverse-IsAscending : (xs : List A) → IsDescending xs → IsAscending (reverse xs)
  reverse-IsAscending [] d = tt
  reverse-IsAscending (x ∷ xs) d =
      snoc-IsAscending (reverse xs) x (AllBelow-reverse (key x) xs d.0) (reverse-IsAscending xs d.1)

  count-snoc :
      (p : A → Bool) (xs : List A) (x : A) → count_where p (xs ++ x ∷ []) ≡ count_where p (x ∷ xs)
  count-snoc p [] x = refl
  count-snoc p (y ∷ xs) x = ground (arith, count-snoc p xs x)

  count-reverse : (p : A → Bool) (xs : List A) → count_where p (reverse xs) ≡ count_where p xs
  count-reverse p [] = refl
  count-reverse p (x ∷ xs) = ground (arith, count-snoc p (reverse xs) x, count-reverse p xs)

  count-take :
      (p : A → Bool) (n : ℕ) (xs : List A)
      → count_where p (take n xs) + count_where p (drop n xs) ≡ count_where p xs
  count-take p zero xs = omega arith
  count-take p (suc n) [] = refl
  count-take p (suc n) (x ∷ xs) = ground (arith, count-take p n xs)

  -- These rows are the newest ones of a table, oldest first, at most so many, and the others are
  -- older or as old.
  pub record IsNewest (limit : ℕ) (rows kept : List A) : Type ℓ where
    pub left : List A
    pub bounded : length kept ≤ limit
    pub ordered : IsAscending kept
    pub newest : Covers kept left
    pub complete : (p : A → Bool) → count_where p kept + count_where p left ≡ count_where p rows

  pub reverse-IsNewest :
      (n : ℕ) (rows : List A) → IsNewest n rows (reverse (take n (sort_desc rows)))
  reverse-IsNewest n rows = record {
    left = drop n (sort_desc rows);
    bounded =
        omega (arith, length-reverse (take n (sort_desc rows)), length-take n (sort_desc rows));
    ordered =
        reverse-IsAscending (take n (sort_desc rows))
          (take-IsDescending n (sort_desc rows) (sort_desc-IsDescending rows));
    newest =
        reverse-Covers (take n (sort_desc rows)) (drop n (sort_desc rows))
          (take-Covers n (sort_desc rows) (sort_desc-IsDescending rows));
    complete = λ p. omega (
      arith,
      count-reverse p (take n (sort_desc rows)),
      count-take p n (sort_desc rows),
      count-sort_desc p rows,
    );
  }
