-- ===== src/Sql/Command.antt =====
-- The language of src/sql.c: its statements as data, what each stands for in a `SqlStatement`, and
-- a text of each in the forms of README.md.
use tryo.Prelude.{ℕ, ◌≤◌, true, List, [], ◌∷◌, ◌++◌, Bytes, codes}
use tryo.Prelude.Decimal.{decimal}
use tryo.Sql.{
  int_max, sql_select, where_id, where_name, SqlColumn, column_id, column_name, column_age,
  SqlStatement, zeroed,
}
use tryo.Sql.Ensures.{Literal}
use tryo.Sql.Columns.{GoodColumns}

pub data Condition : Type 0 where
  every_row : Condition
  id_is : ℕ → Condition
  name_is : Bytes → Condition

pub data Projection : Type 0 where
  all_columns : Projection
  these : List SqlColumn → Projection

pub data Command : Type 0 where
  insert_values : ℕ → Bytes → ℕ → Command
  insert_named : Bytes → ℕ → Command
  select : Projection → Condition → Command

abbrev pub PlainCondition : Condition → Type 0
PlainCondition every_row = Unit
PlainCondition (id_is n) = n ≤ int_max
PlainCondition (name_is s) = Literal s

abbrev pub PlainProjection : Projection → Type 0
PlainProjection all_columns = Unit
PlainProjection (these columns) = GoodColumns columns

-- the commands that the language can say
abbrev pub Plain : Command → Type 0
Plain (insert_values id name age) = (1 ≤ id) × (id ≤ int_max) × Literal name × (age ≤ int_max)
Plain (insert_named name age) = Literal name × (age ≤ int_max)
Plain (select projection condition) = PlainProjection projection × PlainCondition condition

abbrev pub with_condition : SqlStatement → Condition → SqlStatement
with_condition stmt every_row = stmt
with_condition stmt (id_is n) = record stmt { where_type = where_id; where_id_value = n }
with_condition stmt (name_is s) = record stmt { where_type = where_name; where_name_value = s }

abbrev pub selection_of : Projection → SqlStatement
selection_of all_columns = record zeroed {
  type = sql_select;
  table = codes "users";
  select_all = true;
}
selection_of (these columns) = record zeroed {
  type = sql_select;
  table = codes "users";
  select_columns = columns;
}

-- the fields that a command does not use are 0
abbrev pub stmt_of : Command → SqlStatement
stmt_of (insert_values id name age) = record zeroed {
  table = codes "users";
  insert_has_id = true;
  insert_id = id;
  insert_name = name;
  insert_age = age;
}
stmt_of (insert_named name age) = record zeroed {
  table = codes "users";
  insert_name = name;
  insert_age = age;
}
stmt_of (select projection condition) = with_condition (selection_of projection) condition

-- `'name'`, in front of `rest`
abbrev pub quoted : Bytes → Bytes → Bytes
quoted s rest = b'\'' ∷ (s ++ b'\'' ∷ rest)

abbrev pub column_text : SqlColumn → Bytes
column_text column_id = codes "id"
column_text column_name = codes "name"
column_text column_age = codes "age"

-- the columns with `, ` between them, in front of `rest`
unfoldable pub columns_text : List SqlColumn → Bytes → Bytes
columns_text [] rest = rest
columns_text (c ∷ []) rest = column_text c ++ rest
columns_text (c ∷ d ∷ cs) rest = column_text c ++ (codes ", " ++ columns_text (d ∷ cs) rest)

abbrev pub projection_text : Projection → Bytes → Bytes
projection_text all_columns rest = b'*' ∷ rest
projection_text (these columns) rest = columns_text columns rest

abbrev pub condition_text : Condition → Bytes
condition_text every_row = codes ";"
condition_text (id_is n) = codes " WHERE id = " ++ (decimal n ++ codes ";")
condition_text (name_is s) = codes " WHERE name = " ++ quoted s (codes ";")

unfoldable pub print : Command → Bytes
unfolding columns_text decimal
print (insert_values id name age) =
    codes "INSERT INTO users VALUES ("
    ++ (decimal id ++ (codes ", " ++ quoted name (codes ", " ++ (decimal age ++ codes ");"))))
print (insert_named name age) =
    codes "INSERT INTO users name age VALUES " ++ quoted name (32 ∷ (decimal age ++ codes ";"))
print (select projection condition) =
    codes "SELECT " ++ projection_text projection (codes " FROM users" ++ condition_text condition)
