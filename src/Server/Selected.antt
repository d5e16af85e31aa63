-- ===== src/Server/Selected.antt =====
-- The selections of src/db.c against those from a table.
use tryo.Prelude.{
  ◌+◌, ◌^◌, ◌≤◌, ◌<◌, ◌≡◌, refl, sym, ◌∙◌, ap, false, List, [], ◌∷◌, arith, length, take-all,
  strcmp_eq,
}
use tryo.Sql.{sql_select, SqlColumn}
use tryo.Sql.Command.{
  Condition, every_row, id_is, name_is, PlainCondition, Projection, all_columns, these, Command,
  insert_values, insert_named, select, Plain, stmt_of,
}
use tryo.Db.Rows.{Record}
use tryo.Db.Engine.{DbEngine, Calls, fitted}
use tryo.Db.Select.{DbFilter, DbFilterType, filter_all, filter_id, filter_name}
use tryo.Db.Rendered.{columns_of}
use tryo.Db.Lookup.{db_select_projected-Answers}
use tryo.Db.Matching.{matches, matching, array_text}
use tryo.Db.Sound.{IsSound}
use tryo.Db.Total.{Generous, db_select_projected-total}
use tryo.Server.Query.{filter_of, projection_of, execute_statement, answered}
use tryo.Server.Answers.{
  array_text-same, used_projection, selected_columns, used_projection-columns, execute_typed-select,
  db_columns,
}
use tryo.Server.Table.{Table, table_of, holds, holding, shown, run}
use tryo.Server.Refused.{Refines}

matching-holding :
    (filter : DbFilter) (type : DbFilterType) (condition : Condition) (rs : List Record)
    → ((r : Record) → matches filter type r ≡ holds condition r)
    → matching filter type rs ≡ holding condition rs
unfolding matching holding
matching-holding filter type condition [] h = refl
matching-holding filter type condition (r ∷ rs) h =
    rw (h r, matching-holding filter type condition rs h) refl

holding-matching :
    (condition : Condition) (q : Projection) (rs : List Record)
    → PlainCondition condition
    → let stmt = stmt_of (select q condition) in
      let filter = filter_of stmt stmt.where_type in
      matching filter filter.type rs ≡ holding condition rs
unfolding matching holding filter_of
holding-matching every_row all_columns rs h =
    matching-holding (record { type = filter_all; id = 0; name = [] }) filter_all every_row rs
      (λ r. refl)
holding-matching every_row (these cs) rs h =
    matching-holding (record { type = filter_all; id = 0; name = [] }) filter_all every_row rs
      (λ r. refl)
holding-matching (id_is n) all_columns rs h =
    matching-holding (record { type = filter_id; id = n; name = [] }) filter_id (id_is n) rs
      (λ r. refl)
holding-matching (id_is n) (these cs) rs h =
    matching-holding (record { type = filter_id; id = n; name = [] }) filter_id (id_is n) rs
      (λ r. refl)
holding-matching (name_is s) all_columns rs h =
    matching-holding (record { type = filter_name; id = 0; name = fitted s }) filter_name
      (name_is s) rs (λ r. ap (strcmp_eq r.name) (take-all 127 s (omega arith)))
holding-matching (name_is s) (these cs) rs h =
    matching-holding (record { type = filter_name; id = 0; name = fitted s }) filter_name
      (name_is s) rs (λ r. ap (strcmp_eq r.name) (take-all 127 s (omega arith)))

-- the answer of a selection is short enough
abbrev pub Fits : Table → Command → Type 0
Fits t (insert_values id name age) = Unit
Fits t (insert_named name age) = Unit
Fits t (select projection condition) =
    length (array_text (shown projection) (holding condition t.rows)) + 2 < 2 ^ 60

shown_columns :
    (cs : List SqlColumn) → columns_of (shown (these cs)) (shown (these cs)).columns ≡ db_columns cs
shown_columns [] = refl
shown_columns (c ∷ cs) = refl

-- the statement of a selection shows the columns of its projection
shown-selected :
    (p : Projection) (condition : Condition)
    → columns_of (shown p) (shown p).columns ≡ selected_columns (stmt_of (select p condition))
shown-selected all_columns every_row = refl
shown-selected all_columns (id_is n) = refl
shown-selected all_columns (name_is s) = refl
shown-selected (these cs) every_row = shown_columns cs
shown-selected (these cs) (id_is n) = shown_columns cs
shown-selected (these cs) (name_is s) = shown_columns cs

-- the statement lists a column if it does not take them all
listed-some :
    (p : Projection) (condition : Condition)
    → Plain (select p condition)
    → (stmt_of (select p condition)).select_all ≡ false
    → 1 ≤ length (stmt_of (select p condition)).select_columns
listed-some all_columns every_row h e = cc
listed-some all_columns (id_is n) h e = cc
listed-some all_columns (name_is s) h e = cc
listed-some (these cs) every_row h e = h.0.0
listed-some (these cs) (id_is n) h e = h.0.0
listed-some (these cs) (name_is s) h e = h.0.0

selects :
    (p : Projection) (condition : Condition) → (stmt_of (select p condition)).type ≡ sql_select
selects all_columns every_row = refl
selects all_columns (id_is n) = refl
selects all_columns (name_is s) = refl
selects (these cs) every_row = refl
selects (these cs) (id_is n) = refl
selects (these cs) (name_is s) = refl

-- the answer of the engine is that of the table
array_text-holding :
    (p : Projection) (condition : Condition) (rs : List Record)
    → Plain (select p condition)
    → let stmt = stmt_of (select p condition) in
      let filter = filter_of stmt stmt.where_type in
      array_text (used_projection stmt) (matching filter filter.type rs)
      ≡ array_text (shown p) (holding condition rs)
array_text-holding p condition rs h =
    let stmt = stmt_of (select p condition) in
    array_text-same (used_projection stmt) (shown p) _
      (used_projection-columns stmt (listed-some p condition h) ∙ sym (shown-selected p condition))
    ∙ ap (array_text (shown p)) (holding-matching condition p rs h.1)

pub select-Refines :
    (c : Calls) (db : DbEngine) (p : Projection) (condition : Condition)
    → Generous c
    → IsSound db
    → Plain (select p condition)
    → Fits (table_of db) (select p condition)
    → Refines
        (run (table_of db) (select p condition))
        (answered c (execute_statement c db (stmt_of (select p condition))))
unfolding run execute_statement
select-Refines c db p condition g s h fits =
    let stmt = stmt_of (select p condition) in
    let filter = filter_of stmt stmt.where_type in
    let same = array_text-holding p condition db.records h in
    let (out, message, used, e) =
      db_select_projected-total c db filter (projection_of stmt) g s
        (omega (arith, ap length same, fits)) in
    let json = (db_select_projected-Answers c db filter (projection_of stmt) s e).json in
    rw (execute_typed-select c db stmt stmt.type (selects p condition), e)
      (record {
        table = refl;
        response = ap (λ body. record { status = 200; body = body }) (json ∙ same);
      })
