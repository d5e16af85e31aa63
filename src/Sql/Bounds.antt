-- ===== src/Sql/Bounds.antt =====
-- What `sql_parse` accepts fits the statement's fields and the engine's checks.
use tryo.Prelude.{◌≤◌, ◌<◌, ◌≡◌, refl, ap, Bool, true, false, List, [], arith, Bytes, codes, length}
use tryo.Sql.{int_max, sql_insert, sql_select, SqlColumn, SqlStatement, zeroed, ok, sql_parse}
use tryo.Sql.Ensures.{Literal}
use tryo.Sql.Columns.{GoodColumns}
use tryo.Sql.Command.{
  Command, Condition, Projection, insert_values, insert_named, select, every_row, id_is, name_is,
  all_columns, these, Plain, PlainCondition, PlainProjection, stmt_of, with_condition, selection_of,
}
use tryo.Sql.Language.{sql_parse-IsCommand}

-- every number is an `int`, every text fits its array, a given id is positive, and selected columns
-- are one to three different ones
pub record Fits (stmt : SqlStatement) : Type 0 where
  pub name_fits : length stmt.insert_name < 128
  pub age_fits : stmt.insert_age ≤ int_max
  pub id_fits : stmt.insert_id ≤ int_max
  pub id_positive : stmt.insert_has_id ≡ true → 1 ≤ stmt.insert_id
  pub where_id_fits : stmt.where_id_value ≤ int_max
  pub where_name_fits : length stmt.where_name_value < 128
  pub columns_good :
      stmt.type ≡ sql_select → stmt.select_all ≡ false → GoodColumns stmt.select_columns

-- what `sql_parse` promises of a statement that it accepts
pub record WellFormed (stmt : SqlStatement) : Type 0 where
  pub fits : Fits stmt
  pub users : stmt.table ≡ codes "users"

-- the bounds of an insertion, and those of the columns and the condition of a selection
inserting :
    {stmt : SqlStatement}
    → Literal stmt.insert_name
    → stmt.insert_age ≤ int_max
    → stmt.insert_id ≤ int_max
    → (stmt.insert_has_id ≡ true → 1 ≤ stmt.insert_id)
    → stmt.type ≡ sql_insert
    → stmt.where_id_value ≡ 0
    → stmt.where_name_value ≡ []
    → Fits stmt
inserting name age id positive t w v = record {
  name_fits = name.0;
  age_fits = age;
  id_fits = id;
  id_positive = positive;
  where_id_fits = omega (arith, w);
  where_name_fits = omega (arith, ap length v);
  columns_good = λ h. cc (h, t);
}

with_condition-WellFormed :
    (stmt : SqlStatement) (q : Condition)
    → WellFormed stmt
    → PlainCondition q
    → WellFormed (with_condition stmt q)
with_condition-WellFormed stmt every_row w h = w
with_condition-WellFormed stmt (id_is n) w h = record {
  fits = record {
    name_fits = w.fits.name_fits;
    age_fits = w.fits.age_fits;
    id_fits = w.fits.id_fits;
    id_positive = w.fits.id_positive;
    where_id_fits = h;
    where_name_fits = w.fits.where_name_fits;
    columns_good = w.fits.columns_good;
  };
  users = w.users;
}
with_condition-WellFormed stmt (name_is s) w h = record {
  fits = record {
    name_fits = w.fits.name_fits;
    age_fits = w.fits.age_fits;
    id_fits = w.fits.id_fits;
    id_positive = w.fits.id_positive;
    where_id_fits = w.fits.where_id_fits;
    where_name_fits = h.0;
    columns_good = w.fits.columns_good;
  };
  users = w.users;
}

chosen-WellFormed :
    (all : Bool) (columns : List SqlColumn)
    → (all ≡ false → GoodColumns columns)
    → WellFormed (record zeroed {
      type = sql_select;
      table = codes "users";
      select_all = all;
      select_columns = columns;
    })
chosen-WellFormed all columns good = record {
  fits = record {
    name_fits = omega arith;
    age_fits = omega arith;
    id_fits = omega arith;
    id_positive = λ h. cc h;
    where_id_fits = omega arith;
    where_name_fits = omega arith;
    columns_good = λ _. good;
  };
  users = refl;
}

selection_of-WellFormed : (q : Projection) → PlainProjection q → WellFormed (selection_of q)
selection_of-WellFormed all_columns h = chosen-WellFormed true [] (λ no_list. cc no_list)
selection_of-WellFormed (these columns) h = chosen-WellFormed false columns (λ _. h)

stmt_of-WellFormed : (c : Command) → Plain c → WellFormed (stmt_of c)
stmt_of-WellFormed (insert_values id name age) h = record {
  fits = inserting h.2 h.3 h.1 (λ _. h.0) refl refl refl;
  users = refl;
}
stmt_of-WellFormed (insert_named name age) h = record {
  fits = inserting h.0 h.1 (omega arith) (λ has_id. cc has_id) refl refl refl;
  users = refl;
}
stmt_of-WellFormed (select q condition) h =
    with_condition-WellFormed (selection_of q) condition (selection_of-WellFormed q h.0) h.1

-- A statement that `sql_parse` accepts is for the table `users`; its numbers are at most 2147483647,
-- its texts fit their arrays with the NUL, an id that is given is positive, and a selection that is
-- not of all columns names one to three different ones.
pub sql_parse-WellFormed :
    (sql : Bytes) {stmt : SqlStatement} → sql_parse sql ≡ ok stmt → WellFormed stmt
sql_parse-WellFormed sql e =
    let (c, plain, q) = sql_parse-IsCommand sql e in rw q (stmt_of-WellFormed c plain)
