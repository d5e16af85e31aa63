-- ===== src/Sql/Select.antt =====
-- `parse_select` of src/sql.c and the functions it calls.
use tryo.Prelude.{
  ℕ, zero, suc, Bool, true, false, ◌||◌, not, Option, none, some, List, [], ◌∷◌, ◌++◌, ◌==◌,
  if◌then◌else◌, Bytes, codes, peek, next, skip_ws, strcasecmp_eq,
}
use tryo.Sql.Statement.{
  db_name_max, sql_select, where_none, where_id, where_name, column_id, column_name, column_age,
  SqlColumn, SqlStatement, Parsed, ok, fail, ◌>>=◌, ◌>>◌, ◌or_fail◌, guard,
}
use tryo.Sql.Lexical.{
  read_word, expect_keyword, expect_symbol, parse_int_value, parse_string_literal, at_statement_end,
  read_table,
}

abbrev pub column_of_word : Option (Bytes × Bytes) → Option (SqlColumn × Bytes)
column_of_word none = none
column_of_word (some (word, p)) =
    if strcasecmp_eq word (codes "id")
    then some (column_id, p)
    else if strcasecmp_eq word (codes "name")
    then some (column_name, p)
    else if strcasecmp_eq word (codes "age")
    then some (column_age, p)
    else none

unfoldable pub parse_column_name : Bytes → Option (SqlColumn × Bytes)
unfolding read_word strcasecmp_eq
parse_column_name p = column_of_word (read_word p 32)

abbrev pub same_column : SqlColumn → SqlColumn → Bool
same_column column_id column_id = true
same_column column_name column_name = true
same_column column_age column_age = true
same_column _ _ = false

unfoldable pub column_already_selected : List SqlColumn → SqlColumn → Bool
column_already_selected [] wanted = false
column_already_selected (c ∷ cs) wanted = same_column c wanted || column_already_selected cs wanted

-- The loop of `parse_select_columns`; `left` is `SQL_MAX_SELECT_COLUMNS - select_column_count`.
unfoldable pub columns_loop : ℕ → List SqlColumn → Bytes → Parsed (List SqlColumn × Bytes)
unfolding parse_column_name column_already_selected skip_ws
columns_loop zero selected p = fail "too many SELECT columns"
columns_loop (suc left) selected p = do
  (column, p₁) ← parse_column_name p or_fail "expected SELECT column: id, name, or age"
  guard (not (column_already_selected selected column)) "duplicate SELECT column"
  let selected' = selected ++ column ∷ []
  let cur = skip_ws p₁
  let more = columns_loop left selected' (next cur)
  if not (peek cur == b',') then ok (selected', p₁) else more

unfoldable pub parse_select_columns : SqlStatement → Bytes → Parsed (SqlStatement × Bytes)
unfolding columns_loop
parse_select_columns stmt p =
    let cur = skip_ws p in
    if peek cur == b'*'
    then ok (record stmt { select_all = true; select_columns = [] }, next cur)
    else do
      (columns, p₁) ← columns_loop 3 [] p
      ok (record stmt { select_all = false; select_columns = columns }, p₁)

-- the value behind `WHERE column =`
unfoldable pub parse_where_value : SqlStatement → Bytes → Bytes → Parsed (SqlStatement × Bytes)
unfolding parse_int_value parse_string_literal strcasecmp_eq
parse_where_value stmt column p =
    if strcasecmp_eq column (codes "id")
    then (do
      (value, p₁) ← parse_int_value p or_fail "expected numeric id"
      ok (record stmt { where_type = where_id; where_id_value = value }, p₁))
    else if strcasecmp_eq column (codes "name")
    then (do
      (value, p₁) ← parse_string_literal p db_name_max or_fail "expected single-quoted name"
      ok (record stmt { where_type = where_name; where_name_value = value }, p₁))
    else fail "only WHERE id or WHERE name is supported"

unfoldable pub parse_where : SqlStatement → Bytes → Parsed SqlStatement
unfolding expect_keyword read_word expect_symbol parse_where_value at_statement_end
parse_where stmt p = do
  p₁ ← expect_keyword p (codes "WHERE") or_fail "expected WHERE or statement end"
  (column, p₂) ← read_word p₁ 32 or_fail "expected WHERE column = value"
  p₃ ← expect_symbol p₂ b'=' or_fail "expected WHERE column = value"
  (stmt', p₄) ← parse_where_value stmt column p₃
  guard (at_statement_end p₄) "unexpected trailing tokens"
  ok stmt'

unfoldable pub parse_select : SqlStatement → Bytes → Parsed SqlStatement
unfolding expect_keyword parse_select_columns read_table at_statement_end parse_where
parse_select stmt sql = do
  p₁ ← expect_keyword sql (codes "SELECT") or_fail "expected SELECT"
  (stmt₁, p₂) ← parse_select_columns stmt p₁
  p₃ ← expect_keyword p₂ (codes "FROM") or_fail "expected FROM"
  (table, p₄) ← read_table p₃
  let stmt₂ = record stmt₁ { type = sql_select; where_type = where_none; table = codes "users" }
  if at_statement_end p₄ then ok stmt₂ else parse_where stmt₂ p₄
