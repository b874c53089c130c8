-- ===== src/Migrations/Deploying.antt =====
-- Runs and reverts of the migrations, as `migration:run`, `migration:revert` and the boot of the
-- production app do them with the list of src/database/migrations/index.ts. A run applies what is
-- pending in one transaction, a revert undoes the last applied migration in one; a refused
-- statement rolls the transaction back. Every history of them is followed by a few stages.
pub mod Stages
pub mod Entities
use order_lifecycle_backend.Prelude.{
  ℕ, String, Bool, true, false, not, Option, none, some, List, [], ◌∷◌, ◌++◌, select, find,
  same_text,
}
use order_lifecycle_backend.Migrations.Schema.{Schema, Migration, execute_all, exists}
use order_lifecycle_backend.Migrations.Steps.{migrations}

pub record Deployment : Type 0 where
  pub applied : List String
  pub schema : Schema

abbrev pub empty_schema : Schema
empty_schema = record { uuid_ossp = false; types = []; tables = []; indexes = [] }

abbrev pub new_deployment : Deployment
new_deployment = record { applied = []; schema = empty_schema }

abbrev pub migration_names : List Migration → List String
migration_names [] = []
migration_names (m ∷ ms) = m.name ∷ migration_names ms

abbrev pub pending : List String → List Migration
pending applied = select (λ m. not (exists (same_text m.name) applied)) migrations

unfoldable pub up_all : List Migration → Schema → Option Schema
up_all [] s = some s
up_all (m ∷ ms) s = elim (execute_all m.up s) [ none ↦ none | some s' ↦ up_all ms s' ]

abbrev pub last_of : List String → Option String
last_of [] = none
last_of (x ∷ xs) = elim (last_of xs) [ none ↦ some x | some y ↦ some y ]

abbrev pub all_but_last : List String → List String
all_but_last [] = []
all_but_last (x ∷ xs) = elim xs [ [] ↦ [] | y ∷ ys ↦ x ∷ all_but_last xs ]

-- The schema without the last applied migration; none if a statement is refused.
unfoldable pub down_last : Deployment → Option Schema
down_last d = elim (last_of d.applied) [
  | none ↦ none
  | some n ↦ elim (find (λ (m : Migration). same_text m.name n) migrations) [
    | none ↦ none
    | some m ↦ execute_all m.down d.schema
  ]
]

pub data Command : Type 0 where
  run revert : Command

unfoldable pub command : Command → Deployment → Deployment
command run d = elim (up_all (pending d.applied) d.schema) [
  | none ↦ d
  | some s ↦ record { applied = d.applied ++ migration_names (pending d.applied); schema = s }
]
command revert d = elim (down_last d) [
  | none ↦ d
  | some s ↦ record { applied = all_but_last d.applied; schema = s }
]

unfoldable pub history : List Command → Deployment → Deployment
history [] d = d
history (c ∷ cs) d = history cs (command c d)
