-- ===== src/Sql/Insert.antt =====
-- `parse_insert` of src/sql.c and the functions it calls.
use tryo.Prelude.{true, false, ◌&&◌, Option, none, some, ltb, Bytes, codes, strcasecmp_eq}
use tryo.Sql.Statement.{
  db_name_max, sql_insert, SqlStatement, Parsed, ok, ◌>>=◌, ◌>>◌, ◌or_fail◌, guard,
}
use tryo.Sql.Lexical.{
  read_word, expect_keyword, expect_symbol, parse_int_value, parse_string_literal, at_statement_end,
  read_table,
}

unfoldable pub parse_insert_values_with_id : SqlStatement → Bytes → Parsed SqlStatement
unfolding expect_symbol parse_int_value parse_string_literal at_statement_end
parse_insert_values_with_id stmt p = do
  p₁ ← expect_symbol p b'(' or_fail "expected '(' after VALUES"
  (id, p₂) ← parse_int_value p₁ or_fail "expected positive id"
  guard (ltb 0 id) "expected positive id"
  p₃ ← expect_symbol p₂ b',' or_fail "expected comma after id"
  (name, p₄) ← parse_string_literal p₃ db_name_max or_fail "expected single-quoted name"
  p₅ ← expect_symbol p₄ b',' or_fail "expected comma after name"
  (age, p₆) ← parse_int_value p₅ or_fail "expected non-negative age"
  p₇ ← expect_symbol p₆ b')' or_fail "expected ')' after VALUES"
  guard (at_statement_end p₇) "unexpected trailing tokens"
  ok (record stmt { insert_name = name; insert_age = age; insert_has_id = true; insert_id = id })

-- the words of `parse_insert` behind the table name, in the form `name age VALUES 'kim' 20`
unfoldable pub parse_insert_columns : Bytes → Parsed Bytes
unfolding read_word strcasecmp_eq
parse_insert_columns p = do
  (col₁, p₁) ← read_word p 32 or_fail "expected VALUES (id, 'name', age) or columns: name age"
  (col₂, p₂) ← read_word p₁ 32 or_fail "expected VALUES (id, 'name', age) or columns: name age"
  guard (strcasecmp_eq col₁ (codes "name") && strcasecmp_eq col₂ (codes "age"))
      "expected VALUES (id, 'name', age) or columns: name age"
  ok p₂

unfoldable pub parse_insert_named : SqlStatement → Bytes → Parsed SqlStatement
unfolding parse_insert_columns expect_keyword parse_string_literal parse_int_value at_statement_end
parse_insert_named stmt after_table = do
  p ← parse_insert_columns after_table
  p₁ ← expect_keyword p (codes "VALUES") or_fail "expected VALUES"
  (name, p₂) ← parse_string_literal p₁ db_name_max or_fail "expected single-quoted name"
  (age, p₃) ← parse_int_value p₂ or_fail "expected non-negative age"
  guard (at_statement_end p₃) "unexpected trailing tokens"
  ok (record stmt {
    insert_name = name;
    insert_age = age;
    type = sql_insert;
    insert_has_id = false;
    table = codes "users";
  })

abbrev pub with_insert_type : SqlStatement → SqlStatement
with_insert_type stmt = record stmt { type = sql_insert; table = codes "users" }

abbrev pub parse_insert_rest : SqlStatement → Bytes → Option Bytes → Parsed SqlStatement
parse_insert_rest stmt after_table (some p) = do
  stmt' ← parse_insert_values_with_id stmt p
  ok (with_insert_type stmt')
parse_insert_rest stmt after_table none = parse_insert_named stmt after_table

unfoldable pub parse_insert : SqlStatement → Bytes → Parsed SqlStatement
unfolding expect_keyword read_table parse_insert_values_with_id parse_insert_named
parse_insert stmt sql = do
  p₁ ← expect_keyword sql (codes "INSERT") or_fail "expected INSERT INTO"
  p₂ ← expect_keyword p₁ (codes "INTO") or_fail "expected INSERT INTO"
  (table, after_table) ← read_table p₂
  parse_insert_rest (record stmt { table = table }) after_table
      (expect_keyword after_table (codes "VALUES"))
