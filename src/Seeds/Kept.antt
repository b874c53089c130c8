-- ===== src/Seeds/Kept.antt =====
-- What a boot leaves alone (src/database/seeds/seed.service.ts).
use order_lifecycle_backend.Prelude.{
  ℕ, ◌≡◌, ap, ◌∙◌, inl, inr, String, false, List, [], ◌∷◌, ◌++◌, arith, ◌==◌, if◌then◌else◌,
  update_where, count_where, Bool-cases, find_by, some,
}
use order_lifecycle_backend.Entities.{Product}
use order_lifecycle_backend.Products.{product_id}
use order_lifecycle_backend.Seeds.{
  Shop, catalog, retired_skus, is_retirable, switch_off, seed_products, retire_old_products, boot,
}
use order_lifecycle_backend.Seeds.Boot.{seeded-products}

find-switch_off :
    (skus : List String) (i : ℕ) (ps : List Product) (p : Product)
    → find_by product_id i ps ≡ some p
    → find_by product_id i (update_where (is_retirable skus) switch_off ps)
      ≡ some (if is_retirable skus p then switch_off p else p)
find-switch_off skus i [] p e = cc
find-switch_off skus i (q ∷ ps) p e = elim (Bool-cases (q.id == i)) [
  | inl hit ↦ ground arith
  | inr miss ↦ elim (Bool-cases (is_retirable skus q)) [
    | inl off ↦ ground (arith, find-switch_off skus i ps p)
    | inr on ↦ ground (arith, find-switch_off skus i ps p)
  ]
]

none_left-found :
    (skus : List String) (i : ℕ) (ps : List Product) (p : Product)
    → count_where (is_retirable skus) ps ≡ 0
    → find_by product_id i ps ≡ some p
    → is_retirable skus p ≡ false
none_left-found skus i [] p h e = cc
none_left-found skus i (q ∷ ps) p h e = ground (arith, none_left-found skus i ps p)

find-append :
    (i : ℕ) (ps qs : List Product) (p : Product)
    → find_by product_id i ps ≡ some p
    → find_by product_id i (ps ++ qs) ≡ some p
find-append i [] qs p e = cc
find-append i (q ∷ ps) qs p e = ground (arith, find-append i ps qs p)

find-retire :
    (skus : List String) (i : ℕ) (s : Shop) (p : Product)
    → find_by product_id i s.products ≡ some p
    → find_by product_id i (retire_old_products skus s).products
      ≡ some (if is_retirable skus p then switch_off p else p)
unfolding retire_old_products
find-retire skus i s p e = elim (Bool-cases (count_where (is_retirable skus) s.products == 0)) [
  | inl none_left ↦ ground (arith, none_left-found skus i s.products p)
  | inr some_left ↦ ground (arith, find-switch_off skus i s.products p e)
]

-- A boot leaves a product that is there as it is, its stock included, but for one that is on
-- sale under a retired SKU, which it switches off.
pub boot-keeps :
    (random_uuid : ℕ → ℕ) (s : Shop) (i : ℕ) (p : Product)
    → find_by product_id i s.products ≡ some p
    → find_by product_id i (boot random_uuid s).products
      ≡ some (if is_retirable retired_skus p then switch_off p else p)
unfolding boot
boot-keeps random_uuid s i p e =
    find-retire retired_skus i (seed_products random_uuid catalog s) p (
      ap (find_by product_id i) (seeded-products random_uuid s catalog)
      ∙ find-append i s.products _ p e)
