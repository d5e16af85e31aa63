-- ===== src/Sql/Language.antt =====
-- Each statement that `sql_parse` of src/sql.c accepts is that of a command.
use tryo.Prelude.{
  ◌≡◌, refl, ap, ◌∙◌, true, [], Option, none, some, ltb, ◌==◌, Bytes, codes, peek, skip_ws,
  Bool-cases, inl, inr, ltb→lt, strcasecmp_eq, strncasecmp_eq, ℕ,
}
use tryo.Sql.{
  sql_select, where_none, SqlStatement, zeroed, ok, read_word, expect_keyword, expect_symbol,
  parse_select_columns, at_statement_end, parse_insert_values_with_id, parse_insert_columns,
  parse_insert_named, parse_insert_rest, read_table, parse_insert, parse_where_value, parse_where,
  parse_select, sql_parse,
}
use tryo.Sql.Ensures.{
  Ensures, returns, fails, Ensures-bind, Ensures-weaken, Ensures-guard, Ensures-any, Ensures-ok,
  any_step, int_step, string_step,
}
use tryo.Sql.Columns.{columns_loop-good}
use tryo.Sql.Command.{
  Command, Condition, Projection, insert_values, insert_named, select, every_row, id_is, name_is,
  all_columns, these, Plain, PlainCondition, PlainProjection, stmt_of, with_condition, selection_of,
}

abbrev pub IsCommand : SqlStatement → Type 0
IsCommand stmt = (c : Command) × Plain c × (stmt ≡ stmt_of c)

parse_insert_values_with_id-fields :
    (stmt : SqlStatement) (p : Bytes)
    → Ensures
        (λ s.
          (id : ℕ) × (name : Bytes) × (age : ℕ) × Plain (insert_values id name age)
          × (s ≡ record stmt {
            insert_name = name;
            insert_age = age;
            insert_has_id = true;
            insert_id = id;
          }))
        (parse_insert_values_with_id stmt p)
unfolding parse_insert_values_with_id
parse_insert_values_with_id-fields stmt p =
    Ensures-bind _ (any_step (expect_symbol p b'(') _) λ p₁ _.
      Ensures-bind _ (int_step p₁ _) λ id id_ok.
        Ensures-bind _ (Ensures-guard (ltb 0 id.0) _) λ _ positive.
          Ensures-bind _ (any_step (expect_symbol id.1 b',') _) λ p₃ _.
            Ensures-bind _ (string_step p₃ _) λ name name_ok.
              Ensures-bind _ (any_step (expect_symbol name.1 b',') _) λ p₅ _.
                Ensures-bind _ (int_step p₅ _) λ age age_ok.
                  Ensures-bind _ (any_step (expect_symbol age.1 b')') _) λ p₇ _.
                    Ensures-bind _ (Ensures-guard (at_statement_end p₇) _) λ _ _.
                      returns _
                        (id.0, name.0, age.0, (ltb→lt _ _ positive, id_ok, name_ok, age_ok), refl)

-- the fields that `parse_insert_named` does not write are 0
parse_insert_named-IsCommand :
    (table p : Bytes) → Ensures IsCommand (parse_insert_named (record zeroed { table = table }) p)
unfolding parse_insert_named
parse_insert_named-IsCommand table p = Ensures-bind _ (Ensures-any (parse_insert_columns p)) λ p₁ _.
    Ensures-bind _ (any_step (expect_keyword p₁ (codes "VALUES")) _) λ p₂ _.
      Ensures-bind _ (string_step p₂ _) λ name name_ok.
        Ensures-bind _ (int_step name.1 _) λ age age_ok.
          Ensures-bind _ (Ensures-guard (at_statement_end age.1) _)
            λ _ _. returns _ (insert_named name.0 age.0, (name_ok, age_ok), refl)

parse_insert_rest-IsCommand :
    (table after_table : Bytes) (o : Option Bytes)
    → Ensures IsCommand (parse_insert_rest (record zeroed { table = table }) after_table o)
parse_insert_rest-IsCommand table after_table none = parse_insert_named-IsCommand table after_table
parse_insert_rest-IsCommand table after_table (some p) =
    Ensures-bind _ (parse_insert_values_with_id-fields (record zeroed { table = table }) p)
      λ s h. rw (h.4) (returns _ (insert_values h.0 h.1 h.2, h.3, refl))

parse_insert-IsCommand : (sql : Bytes) → Ensures IsCommand (parse_insert zeroed sql)
unfolding parse_insert
parse_insert-IsCommand sql =
    Ensures-bind _ (any_step (expect_keyword sql (codes "INSERT")) _) λ p₁ _.
      Ensures-bind _ (any_step (expect_keyword p₁ (codes "INTO")) _) λ p₂ _.
        Ensures-bind _ (Ensures-any (read_table p₂))
          λ r _. parse_insert_rest-IsCommand r.0 r.1 (expect_keyword r.1 (codes "VALUES"))

-- what `parse_select` starts its condition with
abbrev users_selection : SqlStatement → SqlStatement
users_selection stmt = record stmt {
  type = sql_select;
  where_type = where_none;
  table = codes "users";
}

abbrev Projected : SqlStatement → Type 0
Projected stmt = (q : Projection) × PlainProjection q × (users_selection stmt ≡ selection_of q)

parse_select_columns-Projected :
    (p : Bytes) → Ensures (λ r. Projected r.0) (parse_select_columns zeroed p)
unfolding parse_select_columns
parse_select_columns-Projected p = elim (Bool-cases (peek (skip_ws p) == b'*')) [
  | inl star ↦ rw star (returns _ (all_columns, tt, refl))
  | inr list ↦
      (rw list (
        Ensures-bind _ (columns_loop-good 3 [] p refl tt)
          λ r good. returns _ (these r.0, good, refl)))
]

parse_where_value-Condition :
    (stmt : SqlStatement) (column p : Bytes)
    → Ensures
        (λ r. (q : Condition) × PlainCondition q × (r.0 ≡ with_condition stmt q))
        (parse_where_value stmt column p)
unfolding parse_where_value
parse_where_value-Condition stmt column p = elim (Bool-cases (strcasecmp_eq column (codes "id"))) [
  | inl id ↦ rw id (Ensures-bind _ (int_step p _) λ v v_ok. returns _ (id_is v.0, v_ok, refl))
  | inr other ↦ (elim (Bool-cases (strcasecmp_eq column (codes "name"))) [
    | inl name ↦
        rw (other, name)
          (Ensures-bind _ (string_step p _) λ v v_ok. returns _ (name_is v.0, v_ok, refl))
    | inr unknown ↦ rw (other, unknown) (fails _)
  ])
]

parse_where-Condition :
    (stmt : SqlStatement) (p : Bytes)
    → Ensures
        (λ s. (q : Condition) × PlainCondition q × (s ≡ with_condition stmt q))
        (parse_where stmt p)
unfolding parse_where
parse_where-Condition stmt p =
    Ensures-bind _ (any_step (expect_keyword p (codes "WHERE")) _) λ p₁ _.
      Ensures-bind _ (any_step (read_word p₁ 32) _) λ c _.
        Ensures-bind _ (any_step (expect_symbol c.1 b'=') _) λ p₃ _.
          Ensures-bind _ (parse_where_value-Condition stmt c.0 p₃)
            λ r h. Ensures-bind _ (Ensures-guard (at_statement_end r.1) _) λ _ _. returns _ h

parse_select-IsCommand : (sql : Bytes) → Ensures IsCommand (parse_select zeroed sql)
unfolding parse_select
parse_select-IsCommand sql =
    Ensures-bind _ (any_step (expect_keyword sql (codes "SELECT")) _) λ p₁ _.
      Ensures-bind _ (parse_select_columns-Projected p₁) λ s h.
        Ensures-bind _ (any_step (expect_keyword s.1 (codes "FROM")) _) λ p₃ _.
          Ensures-bind _ (Ensures-any (read_table p₃)) λ t _.
            elim (Bool-cases (at_statement_end t.1)) [
              | inl end ↦ rw end (returns _ (select h.0 every_row, (h.1, tt), h.2))
              | inr more ↦ rw more (
                  Ensures-weaken (parse_where-Condition (users_selection s.0) t.1)
                    λ s' w. (select h.0 w.0, (h.1, w.1), w.2 ∙ ap (λ q. with_condition q w.0) h.2))
            ]

sql_parse-Ensures : (sql : Bytes) → Ensures IsCommand (sql_parse sql)
unfolding sql_parse
sql_parse-Ensures sql = elim (Bool-cases (peek (skip_ws sql) == 0)) [
  | inl empty ↦ rw empty (fails _)
  | inr text ↦ (elim (Bool-cases (strncasecmp_eq (skip_ws sql) (codes "INSERT"))) [
    | inl insert ↦ rw (text, insert) (parse_insert-IsCommand (skip_ws sql))
    | inr other ↦ (elim (Bool-cases (strncasecmp_eq (skip_ws sql) (codes "SELECT"))) [
      | inl selects ↦ rw (text, other, selects) (parse_select-IsCommand (skip_ws sql))
      | inr unknown ↦ rw (text, other, unknown) (fails _)
    ])
  ])
]

-- A statement that `sql_parse` accepts is that of a command: an insertion with a positive id or
-- without one, or a selection of all columns or of one to three different ones, with no condition,
-- an id or a name. Its numbers are at most 2147483647, its names are shorter than 128 bytes and
-- have no quote, its table is `users`, and every field that the command does not use is 0.
pub sql_parse-IsCommand :
    (sql : Bytes) {stmt : SqlStatement} → sql_parse sql ≡ ok stmt → IsCommand stmt
sql_parse-IsCommand sql e = Ensures-ok IsCommand (sql_parse sql) e (sql_parse-Ensures sql)
