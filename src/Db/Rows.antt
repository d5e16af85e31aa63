-- ===== src/Db/Rows.antt =====
-- The rows as JSON, from src/db.c: the records, the projections, and what is appended to the builder.
use tryo.Prelude.{
  ℕ, Bool, true, false, ◌||◌, Option, none, some, List, [], ◌∷◌, if◌then◌else◌, Bytes, codes, ◌>>=◌,
}
use tryo.Prelude.Decimal.{decimal}
use tryo.Util.Builder.{
  JsonBuilder, Appended, done, failed, more_rounds, json_builder_append, json_builder_appendf,
  json_builder_append_string,
}

pub record Record : Type 0 where
  pub id : ℕ
  pub name : Bytes
  pub age : ℕ

pub data DbColumn : Type 0 where
  column_id column_name column_age : DbColumn

-- `column_count` is the length of `columns`.
pub record DbProjection : Type 0 where
  pub include_id : Bool
  pub include_name : Bool
  pub include_age : Bool
  pub columns : List DbColumn

abbrev pub all_columns_projection : DbProjection
all_columns_projection = record {
  include_id = true;
  include_name = true;
  include_age = true;
  columns = [];
}

-- `json_builder_appendf` returns 1; it is done within two rounds
abbrev pub appended : Appended → Option JsonBuilder
appended (done b) = some b
appended failed = none
appended more_rounds = none

module _ (malloc : ℕ → Bool) where
  -- `json_builder_appendf(builder, "%d", n)`
  unfoldable pub append_int : JsonBuilder → ℕ → Option JsonBuilder
  unfolding json_builder_appendf
  append_int b n = appended (json_builder_appendf malloc 2 b (some (decimal n)))

  -- `need_comma` is 1 afterwards
  abbrev pub append_json_separator : JsonBuilder → Bool → Option JsonBuilder
  append_json_separator b need_comma =
      if need_comma then json_builder_append malloc b (codes ",") else some b

  abbrev pub append_field : JsonBuilder → Record → DbColumn → Option JsonBuilder
  append_field b r column_id = do
    b₁ ← json_builder_append malloc b (codes "\"id\":")
    append_int b₁ r.id
  append_field b r column_name = do
    b₁ ← json_builder_append malloc b (codes "\"name\":")
    json_builder_append_string malloc b₁ r.name
  append_field b r column_age = do
    b₁ ← json_builder_append malloc b (codes "\"age\":")
    append_int b₁ r.age

  abbrev pub append_record_field_json : JsonBuilder → Record → DbColumn → Bool → Option JsonBuilder
  append_record_field_json b r column need_comma = do
    b₁ ← append_json_separator b need_comma
    append_field b₁ r column

  -- the loop over `projection.columns`
  abbrev pub append_columns : JsonBuilder → Record → List DbColumn → Bool → Option JsonBuilder
  append_columns b r [] need_comma = some b
  append_columns b r (column ∷ columns) need_comma = do
    b₁ ← append_record_field_json b r column need_comma
    append_columns b₁ r columns true

  -- `if (projection.include_…) …`
  abbrev pub append_if : Bool → JsonBuilder → Record → DbColumn → Bool → Option JsonBuilder
  append_if included b r column need_comma =
      if included then append_record_field_json b r column need_comma else some b

  abbrev pub append_included : JsonBuilder → Record → DbProjection → Option JsonBuilder
  append_included b r p = do
    b₁ ← append_if p.include_id b r column_id false
    b₂ ← append_if p.include_name b₁ r column_name p.include_id
    append_if p.include_age b₂ r column_age (p.include_id || p.include_name)

  -- `projection.column_count > 0` is the first clause
  abbrev pub append_fields :
      JsonBuilder → Record → DbProjection → List DbColumn → Option JsonBuilder
  append_fields b r p (column ∷ columns) = append_columns b r (column ∷ columns) false
  append_fields b r p [] = append_included b r p

  unfoldable pub append_record_json : JsonBuilder → Record → DbProjection → Option JsonBuilder
  append_record_json b r p = do
    b₁ ← json_builder_append malloc b (codes "{")
    b₂ ← append_fields b₁ r p p.columns
    json_builder_append malloc b₂ (codes "}")
