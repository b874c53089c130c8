-- ===== src/Migrations/OpenCarts.antt =====
-- The DELETE of src/database/migrations/1782960000000-OneOpenCartPerUser.ts, which clears the carts
-- that the partial unique index would refuse.
pub mod Newest
pub mod Clearing
use order_lifecycle_backend.Prelude.{
  ℕ, Bool, true, false, not, ◌&&◌, ◌||◌, ◌==◌, ltb, leb, Option, List, [], ◌∷◌, select, arith,
  every, ◌≡◌, refl, inl, inr, ◌⊎◌, subst, sym, ap, ◌∙◌, Bool-cases, if◌then◌else◌,
}
use order_lifecycle_backend.Migrations.Schema.{exists}
use order_lifecycle_backend.Orders.Rows.{is_null}

pub record CartRow : Type 0 where
  pub id : ℕ
  pub user_id : ℕ
  pub checked_out_at : Option ℕ
  pub created_at : ℕ

-- `(c."createdAt", c."id") < (newer."createdAt", newer."id")`
abbrev pub is_before : CartRow → CartRow → Bool
is_before c newer =
    ltb c.created_at newer.created_at || ((c.created_at == newer.created_at) && ltb c.id newer.id)

-- The WHERE of the DELETE.
abbrev pub is_outranked : CartRow → CartRow → Bool
is_outranked c newer =
    (c.user_id == newer.user_id)
    && (is_null c.checked_out_at && (is_null newer.checked_out_at && is_before c newer))

unfoldable pub delete_duplicates : List CartRow → List CartRow
delete_duplicates carts = select (λ c. not (exists (is_outranked c) carts)) carts

-- A row of the partial index.
abbrev pub is_open_row : ℕ → CartRow → Bool
is_open_row user_id c = (c.user_id == user_id) && is_null c.checked_out_at
