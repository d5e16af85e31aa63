-- ===== src/Sql/RoundTrip.antt =====
-- `sql_parse` of src/sql.c reads a printed statement back.
use tryo.Prelude.{
  ℕ, if◌then◌else◌, ◌≤◌, ◌≡◌, refl, ◌∙◌, false, [], ◌∷◌, ◌++◌, Bytes, codes, arith, ltb, true,
}
use tryo.Prelude.Decimal.{decimal}
use tryo.Sql.{
  int_max, sql_select, Parsed, ◌or_fail◌, SqlStatement, zeroed, ok, ◌>>=◌,
  parse_insert_values_with_id, parse_insert_named, with_insert_type, parse_insert, parse_select,
  parse_select_columns, read_table, sql_parse, expect_symbol, expect_keyword, at_statement_end,
  parse_insert_columns, sql_insert, where_none, parse_where, parse_where_value,
}
use tryo.Sql.Ensures.{Literal}
use tryo.Sql.Command.{
  Condition, every_row, id_is, name_is, PlainCondition, condition_text, with_condition, Command,
  columns_text, Projection, PlainProjection, all_columns, these, Plain, insert_values, insert_named,
  select, stmt_of, quoted, print,
}
use tryo.Sql.Printed.{parse_int_value-decimal, int-space, string-space}
use tryo.Sql.PrintedColumns.{columns_loop-space, columns_loop-text, not_star}

-- the parenthesis behind `VALUES`
abbrev values_text : ℕ → Bytes → ℕ → Bytes
values_text id name age =
    codes " ("
    ++ (decimal id ++ (codes ", " ++ quoted name (codes ", " ++ (decimal age ++ codes ");"))))

parse_values-print :
    (stmt : SqlStatement) (id : ℕ) (name : Bytes) (age : ℕ)
    → 1 ≤ id
    → id ≤ int_max
    → Literal name
    → age ≤ int_max
    → parse_insert_values_with_id stmt (values_text id name age)
      ≡ ok (record stmt {
        insert_name = name;
        insert_age = age;
        insert_has_id = true;
        insert_id = id;
      })
unfolding parse_insert_values_with_id expect_symbol at_statement_end
parse_values-print stmt id name age p i l a =
    let age_text = codes ", " ++ (decimal age ++ codes ");") in
    let positive : ltb 0 id ≡ true = ground arith in
    rw
      (
        parse_int_value-decimal id (codes ", " ++ quoted name age_text) i refl,
        positive,
        string-space name age_text l,
        int-space age (codes ");") a refl,
      )
      refl

parse_insert-values :
    (id : ℕ) (name : Bytes) (age : ℕ)
    → parse_insert zeroed (print (insert_values id name age)) ≡ (
        parse_insert_values_with_id
          (record zeroed { table = codes "users" })
          (values_text id name age)
        >>= λ s. ok (with_insert_type s))
unfolding parse_insert print
parse_insert-values id name age = refl

parse_named-print :
    (stmt : SqlStatement) (name : Bytes) (age : ℕ)
    → Literal name
    → age ≤ int_max
    → parse_insert_named stmt
        (codes " name age VALUES " ++ quoted name (32 ∷ (decimal age ++ codes ";")))
      ≡ ok (record stmt {
        insert_name = name;
        insert_age = age;
        type = sql_insert;
        insert_has_id = false;
        table = codes "users";
      })
unfolding parse_insert_named parse_insert_columns expect_keyword at_statement_end
parse_named-print stmt name age l a =
    rw (string-space name (32 ∷ (decimal age ++ codes ";")) l, int-space age (codes ";") a refl)
      refl

parse_insert-named :
    (name : Bytes) (age : ℕ)
    → parse_insert zeroed (print (insert_named name age))
      ≡ parse_insert_named
          (record zeroed { table = codes "users" })
          (codes " name age VALUES " ++ quoted name (32 ∷ (decimal age ++ codes ";")))
unfolding parse_insert print
parse_insert-named name age = refl

-- what `parse_select` does behind the columns
abbrev after_columns : SqlStatement → Bytes → Parsed SqlStatement
unfolding expect_keyword read_table at_statement_end parse_where
after_columns stmt₁ p₂ = do
  p₃ ← expect_keyword p₂ (codes "FROM") or_fail "expected FROM"
  (table, p₄) ← read_table p₃
  let stmt₂ = record stmt₁ { type = sql_select; where_type = where_none; table = codes "users" }
  if at_statement_end p₄ then ok stmt₂ else parse_where stmt₂ p₄

after_columns-print :
    (stmt : SqlStatement) (condition : Condition)
    → PlainCondition condition
    → after_columns stmt (codes " FROM users" ++ condition_text condition)
      ≡ ok (
          with_condition
            (record stmt { type = sql_select; where_type = where_none; table = codes "users" })
            condition)
unfolding expect_keyword read_table at_statement_end parse_where parse_where_value
after_columns-print stmt every_row h = refl
after_columns-print stmt (id_is n) h = rw (int-space n (codes ";") h refl) refl
after_columns-print stmt (name_is s) h = rw (string-space s (codes ";") h) refl

parse_select-print :
    (projection : Projection) (condition : Condition)
    → PlainProjection projection
    → PlainCondition condition
    → parse_select zeroed (print (select projection condition))
      ≡ ok (stmt_of (select projection condition))
unfolding parse_select parse_select_columns print read_table expect_keyword
parse_select-print all_columns condition p c =
    after_columns-print (record zeroed { select_all = true }) condition c
parse_select-print (these columns) condition p c =
    let text = codes " users" ++ condition_text condition in
    rw
      (
        not_star columns (codes " FROM" ++ text) p.0,
        columns_loop-space 3 [] (columns_text columns (codes " FROM" ++ text)),
        columns_loop-text columns 3 [] text p.1 p.0 p.2,
      )
      (after_columns-print (record zeroed { select_columns = columns }) condition c)

-- Each command of the language whose numbers are `int`s, whose names are shorter than 128 bytes and
-- have no quote, whose given id is positive and whose columns, if it lists them, are one to three
-- different ones, is printed as a text that `sql_parse` accepts, and the statement is that of the
-- command, with every field that the command does not use 0.
pub sql_parse-print : (c : Command) → Plain c → sql_parse (print c) ≡ ok (stmt_of c)
unfolding sql_parse print
sql_parse-print (insert_values id name age) h =
    parse_insert-values id name age
    ∙ rw (parse_values-print (record zeroed { table = codes "users" }) id name age h.0 h.1 h.2 h.3)
        refl
sql_parse-print (insert_named name age) h =
    parse_insert-named name age
    ∙ parse_named-print (record zeroed { table = codes "users" }) name age h.0 h.1
sql_parse-print (select projection condition) h = parse_select-print projection condition h.0 h.1
