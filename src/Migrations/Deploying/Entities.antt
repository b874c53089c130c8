-- ===== src/Migrations/Deploying/Entities.antt =====
-- The migrated schema against the entities (src/entities).
use order_lifecycle_backend.Prelude.{Bool, List, ◌≡◌, refl, subst, sym, every, same_text}
use order_lifecycle_backend.Migrations.Schema.{Migration, execute, execute_all, exists}
use order_lifecycle_backend.Migrations.Steps.{migrations}
use order_lifecycle_backend.Migrations.Declared.Tables.{fits_entities}
use order_lifecycle_backend.Migrations.Deploying.{
  Deployment, Command, history, new_deployment, up_all,
}
use order_lifecycle_backend.Migrations.Deploying.Stages.{
  Stage, fresh, emptied, first, second, third, fourth, fifth, sixth, seventh, eighth, deployed,
  last_stage, history-deployed,
}

abbrev pub is_complete : Deployment → Bool
is_complete d = every (λ (m : Migration). exists (same_text m.name) d.applied) migrations

deployed-fits : (s : Stage) → fits_entities (deployed s).schema ≡ is_complete (deployed s)
unfolding fits_entities up_all execute_all execute order_lifecycle_backend.Prelude.Texts.same_text
deployed-fits fresh = refl
deployed-fits emptied = refl
deployed-fits first = refl
deployed-fits second = refl
deployed-fits third = refl
deployed-fits fourth = refl
deployed-fits fifth = refl
deployed-fits sixth = refl
deployed-fits seventh = refl
deployed-fits eighth = refl

-- After any runs and reverts of a new database, the schema has the table of each entity with the
-- columns, constraints and indexes that the entity declares and no others, and the two enums
-- with the values of the code, exactly when every migration is applied.
pub history-fits :
    (cs : List Command)
    → fits_entities (history cs new_deployment).schema ≡ is_complete (history cs new_deployment)
history-fits cs =
    subst (λ d. fits_entities d.schema ≡ is_complete d) (sym (history-deployed cs fresh))
      (deployed-fits (last_stage cs fresh))
