-- ===== src/Seeds/Boot.antt =====
-- A second boot, and what a boot leaves alone (src/database/seeds/seed.service.ts).
use order_lifecycle_backend.Prelude.{
  ℕ, suc, ◌≡◌, refl, sym, ap, ◌∙◌, inl, inr, String, Bool, true, false, ◌||◌, List, [], ◌∷◌, ◌++◌,
  arith, ◌==◌, update_where, count_where, same_text, same_text_refl, same_text_iff, append-nil,
  Bool-cases,
}
use order_lifecycle_backend.Entities.{Product}
use order_lifecycle_backend.Seeds.{
  CatalogEntry, Shop, catalog, retired_skus, has_sku, missing_entries, is_retirable, switch_off,
  new_products, insert_missing, seed_products, retire_old_products, boot,
}

has_sku-append :
    (sku : String) (ps qs : List Product)
    → has_sku sku (ps ++ qs) ≡ (has_sku sku ps || has_sku sku qs)
has_sku-append sku [] qs = refl
has_sku-append sku (p ∷ ps) qs = ground (arith, has_sku-append sku ps qs)

has_sku-switch_off :
    (sku : String) (skus : List String) (ps : List Product)
    → has_sku sku (update_where (is_retirable skus) switch_off ps) ≡ has_sku sku ps
has_sku-switch_off sku skus [] = refl
has_sku-switch_off sku skus (p ∷ ps) = elim (Bool-cases (is_retirable skus p)) [
  | inl hit ↦ ground (arith, has_sku-switch_off sku skus ps)
  | inr miss ↦ ground (arith, has_sku-switch_off sku skus ps)
]

-- Every entry's SKU is among the rows.
abbrev pub AllPresent : List CatalogEntry → List Product → Type 0
AllPresent [] rows = Unit
AllPresent (e ∷ es) rows = (has_sku e.sku rows ≡ true) × AllPresent es rows

present_none-missing :
    (es : List CatalogEntry) (rows : List Product)
    → AllPresent es rows
    → missing_entries rows es ≡ []
present_none-missing [] rows h = refl
present_none-missing (e ∷ es) rows h = ground (arith, present_none-missing es rows h.1)

switched_off-none :
    (skus : List String) (ps : List Product)
    → count_where (is_retirable skus) (update_where (is_retirable skus) switch_off ps) ≡ 0
switched_off-none skus [] = refl
switched_off-none skus (p ∷ ps) = elim (Bool-cases (is_retirable skus p)) [
  | inl hit ↦ ground (arith, switched_off-none skus ps)
  | inr miss ↦ ground (arith, switched_off-none skus ps)
]

retire_twice :
    (skus : List String) (s : Shop)
    → retire_old_products skus (retire_old_products skus s) ≡ retire_old_products skus s
unfolding retire_old_products
retire_twice skus s = elim (Bool-cases (count_where (is_retirable skus) s.products == 0)) [
  | inl none_left ↦ ground arith
  | inr some_left ↦ ground (arith, switched_off-none skus s.products)
]

retire-has_sku :
    (skus : List String) (sku : String) (s : Shop)
    → has_sku sku (retire_old_products skus s).products ≡ has_sku sku s.products
unfolding retire_old_products
retire-has_sku skus sku s = elim (Bool-cases (count_where (is_retirable skus) s.products == 0)) [
  | inl none_left ↦ ground arith
  | inr some_left ↦ ground (arith, has_sku-switch_off sku skus s.products)
]

AllPresent-retire :
    (skus : List String) (es : List CatalogEntry) (s : Shop)
    → AllPresent es s.products
    → AllPresent es (retire_old_products skus s).products
AllPresent-retire skus [] s h = tt
AllPresent-retire skus (e ∷ es) s h =
    (retire-has_sku skus e.sku s ∙ h.0, AllPresent-retire skus es s h.1)

abbrev has_entry : String → List CatalogEntry → Bool
has_entry sku [] = false
has_entry sku (e ∷ es) = same_text e.sku sku || has_entry sku es

has_sku-new_products :
    (random_uuid : ℕ → ℕ) (sku : String) (drawn : ℕ) (es : List CatalogEntry)
    → has_sku sku (new_products random_uuid drawn es) ≡ has_entry sku es
has_sku-new_products random_uuid sku drawn [] = refl
has_sku-new_products random_uuid sku drawn (e ∷ es) =
    ap (λ b. same_text e.sku sku || b) (has_sku-new_products random_uuid sku (suc drawn) es)

-- An entry whose SKU no row has is among the missing ones.
has_entry-missing :
    (sku : String) (rows : List Product) (es : List CatalogEntry)
    → has_entry sku es ≡ true
    → has_sku sku rows ≡ false
    → has_entry sku (missing_entries rows es) ≡ true
has_entry-missing sku rows [] h absent = cc
has_entry-missing sku rows (e ∷ es) h absent = elim (Bool-cases (same_text e.sku sku)) [
  | inl same ↦ ground (arith, ap (λ t. has_sku t rows) ((same_text_iff e.sku sku).0 same))
  | inr other ↦ ground (arith, has_entry-missing sku rows es)
]

-- The entries of a list that are among others.
abbrev AreEntries : List CatalogEntry → List CatalogEntry → Type 0
AreEntries [] all = Unit
AreEntries (e ∷ es) all = (has_entry e.sku all ≡ true) × AreEntries es all

more-AreEntries :
    (es all : List CatalogEntry) (x : CatalogEntry) → AreEntries es all → AreEntries es (x ∷ all)
more-AreEntries [] all x h = tt
more-AreEntries (e ∷ es) all x h = (ground (arith, h.0), more-AreEntries es all x h.1)

self-AreEntries : (es : List CatalogEntry) → AreEntries es es
self-AreEntries [] = tt
self-AreEntries (e ∷ es) =
    (ground (arith, same_text_refl e.sku), more-AreEntries es es e (self-AreEntries es))

module _ (random_uuid : ℕ → ℕ) (s : Shop) where
  pub seeded-products :
      (entries : List CatalogEntry)
      → (seed_products random_uuid entries s).products
        ≡ s.products ++ new_products random_uuid s.drawn (missing_entries s.products entries)
  unfolding seed_products
  seeded-products entries = inserted (missing_entries s.products entries)
    where
      inserted :
          (es : List CatalogEntry)
          → (insert_missing random_uuid es s).products
            ≡ s.products ++ new_products random_uuid s.drawn es
      inserted [] = sym (append-nil s.products)
      inserted (e ∷ es) = refl

  has_sku-seeded :
      (entries : List CatalogEntry) (sku : String)
      → has_entry sku entries ≡ true
      → has_sku sku (seed_products random_uuid entries s).products ≡ true
  has_sku-seeded entries sku h = elim (Bool-cases (has_sku sku s.products)) [
    | inl old ↦ ground (arith, seeded-products entries, appended)
    | inr absent ↦ ground (
      arith,
      seeded-products entries,
      appended,
      has_sku-new_products random_uuid sku s.drawn (missing_entries s.products entries),
      has_entry-missing sku s.products entries h absent,
    )
  ]
    where
      appended :
          has_sku sku
            (s.products ++ new_products random_uuid s.drawn (missing_entries s.products entries))
          ≡ (has_sku sku s.products
              || has_sku sku
                  (new_products random_uuid s.drawn (missing_entries s.products entries)))
      appended = has_sku-append sku s.products _

  seeded-AllPresent :
      (es all : List CatalogEntry)
      → AreEntries es all
      → AllPresent es (seed_products random_uuid all s).products
  seeded-AllPresent [] all h = tt
  seeded-AllPresent (e ∷ es) all h = (has_sku-seeded all e.sku h.0, seeded-AllPresent es all h.1)

-- Seeding a shop that has every entry changes nothing.
seed_products-idle :
    (random_uuid : ℕ → ℕ) (entries : List CatalogEntry) (s : Shop)
    → AllPresent entries s.products
    → seed_products random_uuid entries s ≡ s
unfolding seed_products
seed_products-idle random_uuid entries s h =
    ap (λ es. insert_missing random_uuid es s) (present_none-missing entries s.products h)

-- A second boot, whatever ids it would draw, changes nothing in the shop: no product is inserted,
-- restocked or switched on again, and no cart loses a line.
pub boot_twice :
    (random_uuid other : ℕ → ℕ) (s : Shop) → boot other (boot random_uuid s) ≡ boot random_uuid s
unfolding boot
boot_twice random_uuid other s =
    ap (retire_old_products retired_skus) (seed_products-idle other catalog _ present)
    ∙ retire_twice retired_skus (seed_products random_uuid catalog s)
  where
    present :
        AllPresent catalog
          (retire_old_products retired_skus (seed_products random_uuid catalog s)).products
    present =
        AllPresent-retire retired_skus catalog (seed_products random_uuid catalog s)
          (seeded-AllPresent random_uuid s catalog catalog (self-AreEntries catalog))
