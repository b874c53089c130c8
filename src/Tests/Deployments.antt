-- ===== src/Tests/Deployments.antt =====
-- Runs of the migrations at concrete inputs.
use order_lifecycle_backend.Prelude.{◌≡◌, refl, none, some, List, [], ◌∷◌, true, every, select}
use order_lifecycle_backend.Migrations.Deploying.{run, revert, history, new_deployment}
use order_lifecycle_backend.Migrations.Deploying.Stages.{second, fresh, deployed, history-deployed}
use order_lifecycle_backend.Migrations.Declared.Tables.{fits_entities}
use order_lifecycle_backend.Migrations.Deploying.Entities.{is_complete, history-fits}
use order_lifecycle_backend.Migrations.OpenCarts.{CartRow, is_open_row, delete_duplicates}
use order_lifecycle_backend.Migrations.OpenCarts.Clearing.{
  is_closed_or, is_closed_or_by, is_checked_out, delete_duplicates-one,
}
use mathlib.Core.List.{Memᴰ}

-- A run after six reverts is refused: the enum still has CANCELLED.
history-deployed_example :
    history (run ∷ revert ∷ revert ∷ revert ∷ revert ∷ revert ∷ revert ∷ run ∷ []) (deployed fresh)
    ≡ deployed second
history-deployed_example =
    history-deployed (run ∷ revert ∷ revert ∷ revert ∷ revert ∷ revert ∷ revert ∷ run ∷ []) fresh

history-fits_example :
    fits_entities (history (run ∷ revert ∷ run ∷ []) new_deployment).schema
    ≡ is_complete (history (run ∷ revert ∷ run ∷ []) new_deployment)
history-fits_example = history-fits (run ∷ revert ∷ run ∷ [])

abbrev older_cart : CartRow
older_cart = record { id = 1; user_id = 7; checked_out_at = none; created_at = 5 }

abbrev carts : List CartRow
carts =
    record { id = 3; user_id = 7; checked_out_at = some 4; created_at = 2 }
    ∷ older_cart
    ∷ record { id = 2; user_id = 7; checked_out_at = none; created_at = 9 }
    ∷ []

delete_duplicates-one_example :
    (select is_checked_out (delete_duplicates carts) ≡ select is_checked_out carts)
    × (m : CartRow) × Memᴰ m (delete_duplicates carts)
    × (is_open_row 7 m ≡ true)
    × (every (is_closed_or_by 7 m.created_at) carts ≡ true)
    × (every (is_closed_or 7 m.id) (delete_duplicates carts) ≡ true)
delete_duplicates-one_example =
    delete_duplicates-one 7 older_cart carts (Memᴰ.tail (Memᴰ.head refl)) refl
