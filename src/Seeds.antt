-- ===== src/Seeds.antt =====
-- The demonstration data of a boot (src/database/seeds/seed.service.ts): the catalogue's products
-- that are missing, and the old products that are switched off.
pub mod Boot
pub mod Kept
use order_lifecycle_backend.Prelude.{
  ℕ, suc, ◌+◌, String, Bool, true, false, not, ◌&&◌, ◌||◌, List, [], ◌∷◌, ◌++◌, ◌==◌, if◌then◌else◌,
  select, update_where, count_where, same_text, length,
}
use order_lifecycle_backend.Entities.{Product, Cart, CartItem}
use order_lifecycle_backend.Orders.Rows.{is_null}

pub record CatalogEntry : Type 0 where
  pub sku : String
  pub name : String
  pub stock : ℕ

abbrev entry : String → String → ℕ → CatalogEntry
entry sku name stock = record { sku = sku; name = name; stock = stock }

-- `CATALOG`
abbrev pub catalog : List CatalogEntry
catalog =
    entry "HEL-CF8859" "Carbon Race Helmet, FIA 8859" 12
    ∷ entry "SUIT-3L8856" "Three-Layer Race Suit, FIA 8856" 15
    ∷ entry "GLV-NMX" "Nomex Race Gloves" 40
    ∷ entry "BOOT-SDE" "Suede Race Boots" 22
    ∷ entry "HNR-M" "Head and Neck Restraint, Medium" 10
    ∷ entry "BAL-NMX" "Nomex Balaclava" 60
    ∷ entry "BRK-END-F" "Endurance Brake Pads, Front Axle" 30
    ∷ entry "FLD-DOT5" "Racing Brake Fluid, 500 ml" 80
    ∷ entry "WHL-350S" "350 mm Suede Steering Wheel" 18
    ∷ entry "HUB-QR" "Quick-Release Steering Hub" 25
    ∷ entry "HRN-6PT" "6-Point Racing Harness" 20
    ∷ entry "TYR-18M" "Slick Tyre, 18 in, Medium Compound" 48
    ∷ entry "EXT-1KG" "Handheld Fire Extinguisher, 1 kg" 35
    ∷ entry "LAP-GPS" "GPS Lap Timer" 16
    ∷ entry "FLG-CHQ" "Chequered Flag" 70
    ∷ entry "MDL-LMP18" "1:18 Le Mans Prototype Model" 24
    ∷ entry "CAP-PIT" "Pit Crew Cap" 90
    ∷ entry "TPG-DIG" "Digital Tyre Pressure Gauge" 45
    ∷ []

-- `RETIRED_SKUS`
abbrev pub retired_skus : List String
retired_skus =
    "WIDGET-001" ∷ "WIDGET-002" ∷ "GADGET-001" ∷ "GADGET-002" ∷ "GIZMO-001" ∷ "GIZMO-002"
    ∷ "DOOHICKEY-001" ∷ "THINGAMAJIG-001" ∷ "CONTRAPTION-001" ∷ "WHATSIT-001" ∷ "DOODAD-001"
    ∷ "GEEGAW-001" ∷ []

-- The tables of the shop; `drawn` counts the ids drawn so far.
pub record Shop : Type 0 where
  pub products : List Product
  pub carts : List Cart
  pub cart_items : List CartItem
  pub drawn : ℕ

-- `existingSkus.has(sku)`
abbrev pub has_sku : String → List Product → Bool
has_sku sku [] = false
has_sku sku (p ∷ ps) = same_text p.sku sku || has_sku sku ps

abbrev pub mem_skus : List String → String → Bool
mem_skus [] sku = false
mem_skus (s ∷ ss) sku = same_text s sku || mem_skus ss sku

-- `CATALOG.filter((product) => !existingSkus.has(product.sku))`
abbrev pub missing_entries : List Product → List CatalogEntry → List CatalogEntry
missing_entries rows = select (λ e. not (has_sku e.sku rows))

abbrev pub is_retirable : List String → Product → Bool
is_retirable skus p = mem_skus skus p.sku && p.active

abbrev pub switch_off : Product → Product
switch_off p = record p { active = false }

-- WHERE c."checkedOutAt" IS NULL, of the line's cart
abbrev pub in_open_cart : List Cart → CartItem → Bool
in_open_cart [] item = false
in_open_cart (c ∷ cs) item =
    ((c.id == item.cart_id) && is_null c.checked_out_at) || in_open_cart cs item

-- WHERE p."active" = false, of the line's product
abbrev pub of_inactive : List Product → CartItem → Bool
of_inactive [] item = false
of_inactive (p ∷ ps) item = ((p.id == item.product_id) && not p.active) || of_inactive ps item

-- DELETE FROM "cart_items" USING "carts", "products" WHERE ...
abbrev pub drop_dead_lines : List Cart → List Product → List CartItem → List CartItem
drop_dead_lines carts products =
    select (λ item. not (in_open_cart carts item && of_inactive products item))

module _ (random_uuid : ℕ → ℕ) where
  -- `insert(missing)`: each row draws its id and is active by the column's default.
  abbrev pub new_products : ℕ → List CatalogEntry → List Product
  new_products drawn [] = []
  new_products drawn (e ∷ es) =
      record { id = random_uuid drawn; name = e.name; sku = e.sku; stock = e.stock; active = true }
      ∷ new_products (suc drawn) es

  abbrev pub insert_missing : List CatalogEntry → Shop → Shop
  insert_missing [] s = s
  insert_missing (e ∷ es) s = record s {
    products = s.products ++ new_products s.drawn (e ∷ es);
    drawn = s.drawn + length (e ∷ es);
  }

  -- `seedProducts`, from a catalogue
  unfoldable pub seed_products : List CatalogEntry → Shop → Shop
  seed_products entries s = insert_missing (missing_entries s.products entries) s

-- `retireOldProducts`, of these SKUs
unfoldable pub retire_old_products : List String → Shop → Shop
retire_old_products skus s =
    let products = update_where (is_retirable skus) switch_off s.products in
    if count_where (is_retirable skus) s.products == 0 then s else record s {
      products = products;
      cart_items = drop_dead_lines s.carts products s.cart_items;
    }

-- The part of `onApplicationBootstrap` that concerns the shop.
unfoldable pub boot : (ℕ → ℕ) → Shop → Shop
boot random_uuid s = retire_old_products retired_skus (seed_products random_uuid catalog s)
