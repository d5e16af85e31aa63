-- ===== src/Sql/Tests.antt =====
-- The statements of tests/test_main.c, and the theorems at concrete texts.
use tryo.Prelude.{◌≡◌, refl, arith, true, [], ◌∷◌, codes}
use tryo.Sql.{
  sql_select, where_id, where_name, column_id, column_name, SqlStatement, zeroed, ok, fail,
  sql_parse, column_already_selected,
}
use tryo.Sql.Command.{select, these, name_is, print}
use tryo.Sql.Language.{IsCommand, sql_parse-IsCommand}
use tryo.Sql.RoundTrip.{sql_parse-print}
use tryo.Sql.Bounds.{WellFormed, sql_parse-WellFormed}

abbrev inserted : SqlStatement
inserted = record zeroed {
  table = codes "users";
  insert_has_id = true;
  insert_id = 1;
  insert_name = codes "bumsang";
  insert_age = 25;
}

insert_with_id : sql_parse (codes "INSERT INTO users VALUES (1, 'bumsang', 25);") ≡ ok inserted
unfolding sql_parse
insert_with_id = refl

insert_named :
    sql_parse (codes "INSERT INTO users name age VALUES 'kim' 20;")
    ≡ ok (record zeroed { table = codes "users"; insert_name = codes "kim"; insert_age = 20 })
unfolding sql_parse
insert_named = refl

abbrev selected : SqlStatement
selected = record zeroed { type = sql_select; table = codes "users" }

select_columns :
    sql_parse (codes "SELECT name, id FROM users;")
    ≡ ok (record selected { select_columns = column_name ∷ column_id ∷ [] })
unfolding sql_parse
select_columns = refl

select_by_id :
    sql_parse (codes "SELECT * FROM users WHERE id = 42;")
    ≡ ok (record selected { select_all = true; where_type = where_id; where_id_value = 42 })
unfolding sql_parse
select_by_id = refl

select_by_name :
    sql_parse (codes "select * from USERS where Name='lee'")
    ≡ ok (record selected {
      select_all = true;
      where_type = where_name;
      where_name_value = codes "lee";
    })
unfolding sql_parse
select_by_name = refl

deletes :
    sql_parse (codes "DELETE FROM users WHERE id = 1;")
    ≡ fail "only INSERT and SELECT are supported"
unfolding sql_parse
deletes = refl

duplicates : sql_parse (codes "SELECT id, id FROM users;") ≡ fail "duplicate SELECT column"
unfolding sql_parse
duplicates = refl

sql_parse-WellFormed_example : WellFormed inserted
sql_parse-WellFormed_example =
    sql_parse-WellFormed (codes "INSERT INTO users VALUES (1, 'bumsang', 25);") insert_with_id

sql_parse-print_example :
    sql_parse (print (select (these (column_name ∷ column_id ∷ [])) (name_is (codes "lee"))))
    ≡ ok (record selected {
      select_columns = column_name ∷ column_id ∷ [];
      where_type = where_name;
      where_name_value = codes "lee";
    })
unfolding column_already_selected
sql_parse-print_example =
    sql_parse-print (select (these (column_name ∷ column_id ∷ [])) (name_is (codes "lee")))
      ((omega arith, omega arith, (refl, (refl, tt))), (omega arith, (refl, (refl, (refl, tt)))))

printed :
    print (select (these (column_name ∷ column_id ∷ [])) (name_is (codes "lee")))
    ≡ codes "SELECT name, id FROM users WHERE name = 'lee';"
unfolding print
printed = refl

sql_parse-IsCommand_example : IsCommand inserted
sql_parse-IsCommand_example =
    sql_parse-IsCommand (codes "INSERT INTO users VALUES (1, 'bumsang', 25);") insert_with_id
