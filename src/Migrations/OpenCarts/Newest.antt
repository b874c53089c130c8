-- ===== src/Migrations/OpenCarts/Newest.antt =====
-- The newest open cart of a user, in the order of the DELETE
-- (src/database/migrations/1782960000000-OneOpenCartPerUser.ts).
use order_lifecycle_backend.Prelude.{
  ℕ, true, false, List, [], ◌∷◌, arith, ◌≡◌, refl, inl, inr, ◌⊎◌, subst, sym, Bool-cases,
  if◌then◌else◌,
}
use order_lifecycle_backend.Migrations.Schema.{exists}
use order_lifecycle_backend.Migrations.OpenCarts.{CartRow, is_outranked, is_open_row}
use mathlib.Core.List.{Memᴰ}

-- The newest of a cart and the carts that outrank it.
abbrev pub newest_of : CartRow → List CartRow → CartRow
newest_of c [] = c
newest_of c (x ∷ xs) =
    let later = newest_of x xs in
    let same = newest_of c xs in if is_outranked c x then later else same

is_outranked-irreflexive : (c : CartRow) → is_outranked c c ≡ false
is_outranked-irreflexive c = ground arith

is_outranked-step :
    (c x z : CartRow)
    → is_outranked c x ≡ true
    → is_outranked c z ≡ false
    → is_outranked x z ≡ false
is_outranked-step c x z h k = ground arith

newest_of-above :
    (c : CartRow) (xs : List CartRow) (z : CartRow)
    → is_outranked c z ≡ false
    → is_outranked (newest_of c xs) z ≡ false
newest_of-above c [] z h = h
newest_of-above c (x ∷ xs) z h = elim (Bool-cases (is_outranked c x)) [
  | inl newer ↦ rw newer (newest_of-above x xs z (is_outranked-step c x z newer h))
  | inr older ↦ rw older (newest_of-above c xs z h)
]

newest_of-later :
    (c x : CartRow) (xs : List CartRow)
    → is_outranked c x ≡ true
    → newest_of c (x ∷ xs) ≡ newest_of x xs
newest_of-later c x xs h = rw h refl

newest_of-same :
    (c x : CartRow) (xs : List CartRow)
    → is_outranked c x ≡ false
    → newest_of c (x ∷ xs) ≡ newest_of c xs
newest_of-same c x xs h = rw h refl

last-cons :
    (m x : CartRow) (xs : List CartRow)
    → is_outranked m x ≡ false
    → exists (is_outranked m) xs ≡ false
    → exists (is_outranked m) (x ∷ xs) ≡ false
last-cons m x xs h k = rw h k

pub newest_of-last :
    (c : CartRow) (xs : List CartRow) → exists (is_outranked (newest_of c xs)) xs ≡ false
newest_of-last c [] = refl
newest_of-last c (x ∷ xs) = elim (Bool-cases (is_outranked c x)) [
  | inl newer ↦
      subst (λ m. exists (is_outranked m) (x ∷ xs) ≡ false) (sym (newest_of-later c x xs newer))
        (last-cons (newest_of x xs) x xs (newest_of-above x xs x (is_outranked-irreflexive x))
          (newest_of-last x xs))
  | inr older ↦
      subst (λ m. exists (is_outranked m) (x ∷ xs) ≡ false) (sym (newest_of-same c x xs older))
        (last-cons (newest_of c xs) x xs (newest_of-above c xs x older) (newest_of-last c xs))
]

pub newest_of-open :
    (user_id : ℕ) (c : CartRow) (xs : List CartRow)
    → is_open_row user_id c ≡ true
    → is_open_row user_id (newest_of c xs) ≡ true
newest_of-open user_id c [] h = h
newest_of-open user_id c (x ∷ xs) h = elim (Bool-cases (is_outranked c x)) [
  | inl newer ↦ rw newer (newest_of-open user_id x xs (ground arith))
  | inr older ↦ rw older (newest_of-open user_id c xs h)
]

pub newest_of-Memᴰ :
    (c : CartRow) (xs : List CartRow) → (newest_of c xs ≡ c) ⊎ Memᴰ (newest_of c xs) xs
newest_of-Memᴰ c [] = inl refl
newest_of-Memᴰ c (x ∷ xs) = elim (Bool-cases (is_outranked c x)) [
  | inl newer ↦
      rw newer
        (elim (newest_of-Memᴰ x xs) [ inl e ↦ inr (Memᴰ.head e) | inr m ↦ inr (Memᴰ.tail m) ])
  | inr older ↦ rw older (elim (newest_of-Memᴰ c xs) [ inl e ↦ inl e | inr m ↦ inr (Memᴰ.tail m) ])
]
