-- ===== src/Migrations/Declared.antt =====
-- The tables that the entities' decorators declare (src/entities), as TypeORM's documentation gives
-- their columns: a `string` is a character varying, a `boolean` a boolean, `int` an integer,
-- `timestamptz` a timestamp with time zone, and a join column has its target's type.
pub mod Tables
use order_lifecycle_backend.Prelude.{
  String, Bool, true, false, not, ◌&&◌, ◌||◌, Option, none, some, List, [], ◌∷◌, every, same_text,
}
use order_lifecycle_backend.Migrations.Schema.{
  ColumnType, plain, enum, Column, OnDelete, cascade, restrict, ConstraintKind, primary_key, unique,
  foreign_key, Constraint, Table, Index, EnumType, Schema, required, optional, defaulted, exists,
}

-- An index or a unique index, by its columns and its `where`.
pub record Indexed : Type 0 where
  pub columns : List String
  pub is_unique : Bool
  pub predicate : Option String

pub record Entity : Type 0 where
  pub table : String
  pub columns : List Column
  pub constraints : List ConstraintKind
  pub indexes : List Indexed

-- The decorators.
abbrev pub primary_generated_uuid : String → Column
primary_generated_uuid n = defaulted n (plain "uuid") "uuid_generate_v4()"

abbrev pub text_column : String → Column
text_column n = required n (plain "character varying")

abbrev pub uuid_column : String → Column
uuid_column n = required n (plain "uuid")

abbrev pub int_column : String → Column
int_column n = required n (plain "integer")

abbrev pub timestamptz : ColumnType
timestamptz = plain "TIMESTAMP WITH TIME ZONE"

abbrev pub date_column : String → Column
date_column n = defaulted n (plain "TIMESTAMP") "now()"

abbrev pub indexed : List String → Indexed
indexed cs = record { columns = cs; is_unique = false; predicate = none }

-- Equality of the parts.
abbrev same_type : ColumnType → ColumnType → Bool
same_type (plain n) (plain m) = same_text n m
same_type (enum n) (enum m) = same_text n m
same_type (plain n) (enum m) = false
same_type (enum n) (plain m) = false

abbrev same_bool : Bool → Bool → Bool
same_bool true b = b
same_bool false b = not b

abbrev same_option : Option String → Option String → Bool
same_option none none = true
same_option (some s) (some t) = same_text s t
same_option none (some t) = false
same_option (some s) none = false

abbrev same_list : List String → List String → Bool
same_list [] [] = true
same_list (s ∷ ss) (t ∷ ts) = same_text s t && same_list ss ts
same_list [] (t ∷ ts) = false
same_list (s ∷ ss) [] = false

abbrev same_column : Column → Column → Bool
same_column c d =
    same_text c.name d.name
    && same_type c.type_ d.type_
    && same_bool c.not_null d.not_null
    && same_option c.default d.default

abbrev same_on_delete : OnDelete → OnDelete → Bool
same_on_delete cascade cascade = true
same_on_delete restrict restrict = true
same_on_delete cascade restrict = false
same_on_delete restrict cascade = false

abbrev same_kind : ConstraintKind → ConstraintKind → Bool
same_kind (primary_key cs) k = elim k [
  | primary_key ds ↦ same_list cs ds
  | unique ds ↦ false
  | foreign_key c r o ↦ false
]
same_kind (unique cs) k = elim k [
  | primary_key ds ↦ false
  | unique ds ↦ same_list cs ds
  | foreign_key c r o ↦ false
]
same_kind (foreign_key c r o) k = elim k [
  | primary_key ds ↦ false
  | unique ds ↦ false
  | foreign_key c' r' o' ↦ same_text c c' && same_text r r' && same_on_delete o o'
]

abbrev is_index_on : String → Indexed → Index → Bool
is_index_on table i j =
    same_text table j.table
    && same_list i.columns j.columns
    && same_bool i.is_unique j.is_unique
    && same_option i.predicate j.predicate

-- The two lists have the same elements.
abbrev same_elements : {A B : Type 0} → (A → B → Bool) → List A → List B → Bool
same_elements same xs ys =
    every (λ x. exists (same x) ys) xs && every (λ y. exists (λ x. same x y) xs) ys

-- A schema's table with the entity's columns, constraints and indexes, and no others.
abbrev pub has_entity : Schema → Entity → Bool
has_entity s e =
    exists
      (λ (t : Table).
        same_text t.name e.table
        && same_elements same_column e.columns t.columns
        && same_elements (λ k (c : Constraint). same_kind k c.kind) e.constraints t.constraints)
      s.tables
    && every (λ i. exists (is_index_on e.table i) s.indexes) e.indexes
    && every
        (λ (j : Index).
          not (same_text j.table e.table) || exists (λ i. is_index_on e.table i j) e.indexes)
        s.indexes

abbrev pub has_values : Schema → EnumType → Bool
has_values s e =
    exists (λ (t : EnumType). same_text t.name e.name && same_list t.values e.values) s.types
