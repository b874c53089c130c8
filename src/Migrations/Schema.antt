-- ===== src/Migrations/Schema.antt =====
-- What the statements of the migrations (src/database/migrations) act on: tables with their columns
-- and constraints, indexes, enum types and the extension. A statement that PostgreSQL refuses for
-- its schema has no result; the rows of the tables are not modelled here, so a data statement
-- leaves the schema alone.
use order_lifecycle_backend.Prelude.{
  String, Bool, true, false, not, ◌&&◌, ◌||◌, Option, none, some, List, [], ◌∷◌, ◌++◌, select,
  update_where, every, same_text,
}

pub data ColumnType : Type 0 where
  plain enum : String → ColumnType

-- A column: its name and type, `NOT NULL`, and its `DEFAULT`.
pub record Column : Type 0 where
  pub name : String
  pub type_ : ColumnType
  pub not_null : Bool
  pub default : Option String

pub data OnDelete : Type 0 where
  cascade restrict : OnDelete

pub data ConstraintKind : Type 0 where
  primary_key unique : List String → ConstraintKind
  foreign_key : (column references : String) → OnDelete → ConstraintKind

pub record Constraint : Type 0 where
  pub name : String
  pub kind : ConstraintKind

pub record Table : Type 0 where
  pub name : String
  pub columns : List Column
  pub constraints : List Constraint

-- An index, with the `WHERE` of a partial one.
pub record Index : Type 0 where
  pub name : String
  pub table : String
  pub columns : List String
  pub is_unique : Bool
  pub predicate : Option String

pub record EnumType : Type 0 where
  pub name : String
  pub values : List String

pub record Schema : Type 0 where
  pub uuid_ossp : Bool
  pub types : List EnumType
  pub tables : List Table
  pub indexes : List Index

pub data Statement : Type 0 where
  create_extension : Statement
  create_type : String → List String → Statement
  add_value : (type_ value : String) → Statement
  drop_type : String → Statement
  create_table : Table → Statement
  drop_table : String → Statement
  create_index : Index → Statement
  drop_index : String → Statement
  add_constraint : (table : String) → Constraint → Statement
  drop_constraint : (table name : String) → Statement
  add_column : (table : String) → Column → Statement
  drop_column drop_default drop_not_null set_not_null : (table column : String) → Statement
  delete_rows : String → (conditions : List String) → Statement

abbrev pub exists : {A : Type 0} → (A → Bool) → List A → Bool
exists p [] = false
exists p (x ∷ xs) = p x || exists p xs

abbrev is_type : String → EnumType → Bool
is_type n t = same_text t.name n

abbrev is_table : String → Table → Bool
is_table n t = same_text t.name n

abbrev is_index : String → Index → Bool
is_index n i = same_text i.name n

abbrev is_column : String → Column → Bool
is_column n c = same_text c.name n

abbrev is_constraint : String → Constraint → Bool
is_constraint n c = same_text c.name n

-- Whether a column's type and default are there.
abbrev is_available : Schema → Column → Bool
is_available s c =
    let typed : Bool = elim c.type_ [ plain n ↦ true | enum n ↦ exists (is_type n) s.types ] in
    let generated : Bool = elim c.default [
      | none ↦ true
      | some d ↦ not (same_text d "uuid_generate_v4()") || s.uuid_ossp
    ] in
    typed && generated

abbrev has_enum : String → Column → Bool
has_enum n c = elim c.type_ [ plain m ↦ false | enum m ↦ same_text m n ]

abbrev has_reference : String → Constraint → Bool
has_reference n c = elim c.kind [
  | primary_key cs ↦ false
  | unique cs ↦ false
  | foreign_key col ref on_delete ↦ same_text ref n
]

-- The table that a foreign key names is there.
abbrev has_target : List Table → Constraint → Bool
has_target tables c = elim c.kind [
  | primary_key cs ↦ true
  | unique cs ↦ true
  | foreign_key col ref on_delete ↦ exists (is_table ref) tables
]

abbrev has_column : String → String → List Table → Bool
has_column table column tables =
    exists (λ t. is_table table t && exists (is_column column) t.columns) tables

abbrev has_constraint : String → String → List Table → Bool
has_constraint table name tables =
    exists (λ t. is_table table t && exists (is_constraint name) t.constraints) tables

abbrev guarded : Bool → Schema → Option Schema
guarded true s = some s
guarded false s = none

-- ALTER TABLE
abbrev on_table : String → (Table → Table) → Schema → Schema
on_table n f s = record s { tables = update_where (is_table n) f s.tables }

abbrev on_column : String → String → (Column → Column) → Schema → Schema
on_column table column f =
    on_table table (λ t. record t { columns = update_where (is_column column) f t.columns })

-- A statement; none if it is refused. A dropped table or column takes its indexes with it; no
-- migration drops a column that a constraint names.
unfoldable pub execute : Statement → Schema → Option Schema
execute create_extension s = some (record s { uuid_ossp = true })
execute (create_type n values) s =
    guarded (not (exists (is_type n) s.types))
      (record s { types = s.types ++ record { name = n; values = values } ∷ [] })
execute (add_value n v) s =
    guarded (exists (λ t. is_type n t && not (exists (same_text v) t.values)) s.types) (record s {
      types = update_where (is_type n) (λ t. record t { values = t.values ++ v ∷ [] }) s.types;
    })
execute (drop_type n) s =
    guarded
      (exists (is_type n) s.types
        && not (exists (λ (t : Table). exists (has_enum n) t.columns) s.tables))
      (record s { types = select (λ t. not (is_type n t)) s.types })
execute (create_table t) s =
    guarded (not (exists (is_table t.name) s.tables) && every (is_available s) t.columns)
      (record s { tables = s.tables ++ t ∷ [] })
execute (drop_table n) s =
    guarded
      (exists (is_table n) s.tables
        && not (
            exists (λ (t : Table). not (is_table n t) && exists (has_reference n) t.constraints)
              s.tables))
      (record s {
        tables = select (λ t. not (is_table n t)) s.tables;
        indexes = select (λ (i : Index). not (same_text i.table n)) s.indexes;
      })
execute (create_index i) s =
    guarded
      (not (exists (is_index i.name) s.indexes)
        && every (λ c. has_column i.table c s.tables) i.columns)
      (record s { indexes = s.indexes ++ i ∷ [] })
execute (drop_index n) s =
    guarded (exists (is_index n) s.indexes)
      (record s { indexes = select (λ i. not (is_index n i)) s.indexes })
execute (add_constraint n c) s =
    guarded
      (exists (is_table n) s.tables
        && not (has_constraint n c.name s.tables)
        && has_target s.tables c)
      (on_table n (λ t. record t { constraints = t.constraints ++ c ∷ [] }) s)
execute (drop_constraint n c) s = guarded (has_constraint n c s.tables) (
    on_table n (λ t. record t { constraints = select (λ d. not (is_constraint c d)) t.constraints })
      s)
execute (add_column n c) s =
    guarded (exists (is_table n) s.tables && not (has_column n c.name s.tables) && is_available s c)
      (on_table n (λ t. record t { columns = t.columns ++ c ∷ [] }) s)
execute (drop_column n c) s = guarded (has_column n c s.tables) (
    on_table n (λ t. record t { columns = select (λ d. not (is_column c d)) t.columns })
      (record s {
        indexes =
            select (λ (i : Index). not (same_text i.table n && exists (same_text c) i.columns))
              s.indexes;
      }))
execute (drop_default n c) s =
    guarded (has_column n c s.tables) (on_column n c (λ d. record d { default = none }) s)
execute (drop_not_null n c) s =
    guarded (has_column n c s.tables) (on_column n c (λ d. record d { not_null = false }) s)
execute (set_not_null n c) s =
    guarded (has_column n c s.tables) (on_column n c (λ d. record d { not_null = true }) s)
execute (delete_rows n conditions) s = guarded (exists (is_table n) s.tables) s

-- The statements of a migration, in its transaction.
unfoldable pub execute_all : List Statement → Schema → Option Schema
execute_all [] s = some s
execute_all (x ∷ xs) s = elim (execute x s) [ none ↦ none | some s' ↦ execute_all xs s' ]

pub record Migration : Type 0 where
  pub name : String
  pub up : List Statement
  pub down : List Statement

-- Columns: `NOT NULL`, nullable, and `NOT NULL DEFAULT`.
abbrev pub required : String → ColumnType → Column
required n t = record { name = n; type_ = t; not_null = true; default = none }

abbrev pub optional : String → ColumnType → Column
optional n t = record { name = n; type_ = t; not_null = false; default = none }

abbrev pub defaulted : String → ColumnType → String → Column
defaulted n t d = record { name = n; type_ = t; not_null = true; default = some d }
