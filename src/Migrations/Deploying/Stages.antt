-- ===== src/Migrations/Deploying/Stages.antt =====
-- The stages that the histories of src/database/migrations pass through.
use order_lifecycle_backend.Prelude.{
  ℕ, zero, suc, String, Bool, true, false, Option, none, some, List, [], ◌∷◌, ◌++◌, update_where,
  same_text, ◌≡◌, refl, ◌∙◌, ap,
}
use order_lifecycle_backend.Migrations.Schema.{Schema, EnumType, execute, execute_all}
use order_lifecycle_backend.Migrations.Steps.{migrations}
use order_lifecycle_backend.Migrations.Deploying.{
  Deployment, Command, run, revert, command, history, up_all, down_last, empty_schema,
  migration_names,
}

-- Nothing applied yet; all reverted, down to the extension; the first or second migration applied
-- after a revert of the third; and from three on the number of applied migrations.
pub data Stage : Type 0 where
  fresh emptied first second third fourth fifth sixth seventh eighth : Stage

abbrev pub next_stage : Command → Stage → Stage
next_stage run fresh = eighth
next_stage run emptied = eighth
next_stage run first = first
next_stage run second = second
next_stage run third = eighth
next_stage run fourth = eighth
next_stage run fifth = eighth
next_stage run sixth = eighth
next_stage run seventh = eighth
next_stage run eighth = eighth
next_stage revert fresh = fresh
next_stage revert emptied = emptied
next_stage revert first = emptied
next_stage revert second = first
next_stage revert third = second
next_stage revert fourth = third
next_stage revert fifth = fourth
next_stage revert sixth = fifth
next_stage revert seventh = sixth
next_stage revert eighth = seventh

abbrev pub last_stage : List Command → Stage → Stage
last_stage [] s = s
last_stage (c ∷ cs) s = last_stage cs (next_stage c s)

abbrev pub applied_count : Stage → ℕ
applied_count fresh = 0
applied_count emptied = 0
applied_count first = 1
applied_count second = 2
applied_count third = 3
applied_count fourth = 4
applied_count fifth = 5
applied_count sixth = 6
applied_count seventh = 7
applied_count eighth = 8

abbrev first_of : {A : Type 0} → ℕ → List A → List A
first_of zero xs = []
first_of (suc n) [] = []
first_of (suc n) (x ∷ xs) = x ∷ first_of n xs

-- The schema of the first n migrations on an empty database.
abbrev pub schema_of : ℕ → Schema
schema_of n = elim (up_all (first_of n migrations) empty_schema) [
  | none ↦ empty_schema
  | some s ↦ s
]

abbrev pub with_cancelled : Schema → Schema
with_cancelled s = record s {
  types =
      update_where (λ (t : EnumType). same_text t.name "orders_status_enum")
        (λ t. record t { values = t.values ++ "CANCELLED" ∷ [] }) s.types;
}

abbrev pub schema_at : Stage → Schema
schema_at fresh = empty_schema
schema_at emptied = record empty_schema { uuid_ossp = true }
schema_at first = with_cancelled (schema_of 1)
schema_at second = with_cancelled (schema_of 2)
schema_at third = schema_of 3
schema_at fourth = schema_of 4
schema_at fifth = schema_of 5
schema_at sixth = schema_of 6
schema_at seventh = schema_of 7
schema_at eighth = schema_of 8

abbrev pub deployed : Stage → Deployment
deployed s = record {
  applied = migration_names (first_of (applied_count s) migrations);
  schema = schema_at s;
}

command-deployed : (c : Command) → (s : Stage) → command c (deployed s) ≡ deployed (next_stage c s)
unfolding command up_all down_last execute_all execute
    order_lifecycle_backend.Prelude.Texts.same_text
command-deployed run fresh = refl
command-deployed run emptied = refl
command-deployed run first = refl
command-deployed run second = refl
command-deployed run third = refl
command-deployed run fourth = refl
command-deployed run fifth = refl
command-deployed run sixth = refl
command-deployed run seventh = refl
command-deployed run eighth = refl
command-deployed revert fresh = refl
command-deployed revert emptied = refl
command-deployed revert first = refl
command-deployed revert second = refl
command-deployed revert third = refl
command-deployed revert fourth = refl
command-deployed revert fifth = refl
command-deployed revert sixth = refl
command-deployed revert seventh = refl
command-deployed revert eighth = refl

-- From any stage, whatever runs and reverts follow, the database's applied migrations and its
-- schema are those of the stage that they lead to.
pub history-deployed :
    (cs : List Command) → (s : Stage) → history cs (deployed s) ≡ deployed (last_stage cs s)
unfolding history
history-deployed [] s = refl
history-deployed (c ∷ cs) s =
    ap (history cs) (command-deployed c s) ∙ history-deployed cs (next_stage c s)
