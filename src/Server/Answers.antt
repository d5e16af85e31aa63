-- ===== src/Server/Answers.antt =====
-- What a selection over HTTP answers.
use tryo.Prelude.{
  ◌==◌, take-all, strcmp_eq, ◌≤◌, ◌≡◌, refl, sym, ◌∙◌, ap, Bool, true, false, Option, none, some,
  List, [], ◌∷◌, ◌++◌, append-nil, append_assoc, arith, if◌then◌else◌, Bytes, codes, length,
}
use tryo.Sql.{
  SqlWhereType, where_none, where_id, where_name, SqlType, sql_insert, sql_select, SqlColumn,
  SqlStatement, ok, sql_parse,
}
use tryo.Sql.Bounds.{sql_parse-WellFormed}
use tryo.Util.Builder.{JsonBuilder}
use tryo.Db.Rows.{Record, DbColumn, DbProjection}
use tryo.Db.Engine.{DbEngine, Calls, DbResult, error, rows}
use tryo.Db.Select.{normalized, db_select_projected}
use tryo.Db.Rendered.{columns_of}
use tryo.Db.Sound.{IsSound}
use tryo.Db.Lookup.{db_select_projected-Answers}
use tryo.Db.Matching.{matches, matching, rows_text, array_text}
use tryo.Http.Extract.{http_extract_sql}
use tryo.Server.Query.{
  filter_of, columns_projection, zero_projection, projection_of, execute_typed, execute_statement,
  Response, error_response, make_error_body, send_error_response, answered, handle_query,
  sql_max_len,
}

abbrev pub db_column : SqlColumn → DbColumn
db_column SqlColumn.column_id = DbColumn.column_id
db_column SqlColumn.column_name = DbColumn.column_name
db_column SqlColumn.column_age = DbColumn.column_age

abbrev pub db_columns : List SqlColumn → List DbColumn
db_columns [] = []
db_columns (c ∷ cs) = db_column c ∷ db_columns cs

-- the columns that a statement selects
abbrev pub selected_columns : SqlStatement → List DbColumn
selected_columns stmt =
    if stmt.select_all
    then DbColumn.column_id ∷ DbColumn.column_name ∷ DbColumn.column_age ∷ []
    else db_columns stmt.select_columns

columns_projection-columns :
    (cs : List SqlColumn) (p : DbProjection)
    → (columns_projection cs p).columns ≡ p.columns ++ db_columns cs
unfolding columns_projection
columns_projection-columns [] p = sym (append-nil p.columns)
columns_projection-columns (SqlColumn.column_id ∷ cs) p =
    columns_projection-columns cs _
    ∙ append_assoc p.columns (DbColumn.column_id ∷ []) (db_columns cs)
columns_projection-columns (SqlColumn.column_name ∷ cs) p =
    columns_projection-columns cs _
    ∙ append_assoc p.columns (DbColumn.column_name ∷ []) (db_columns cs)
columns_projection-columns (SqlColumn.column_age ∷ cs) p =
    columns_projection-columns cs _
    ∙ append_assoc p.columns (DbColumn.column_age ∷ []) (db_columns cs)

-- the projection that the engine uses
abbrev pub used_projection : SqlStatement → DbProjection
used_projection stmt = normalized (projection_of stmt) (projection_of stmt).columns

normalized-columns :
    (p : DbProjection) (c : DbColumn) (cs : List DbColumn)
    → p.columns ≡ c ∷ cs
    → let q = normalized p p.columns in columns_of q q.columns ≡ c ∷ cs
unfolding normalized
normalized-columns p c cs e = rw e refl

listed_columns :
    (cs : List SqlColumn)
    → 1 ≤ length cs
    → let q =
        normalized
          (columns_projection cs zero_projection)
          (columns_projection cs zero_projection).columns in
      columns_of q q.columns ≡ db_columns cs
listed_columns [] h = absurd (omega arith)
listed_columns (c ∷ cs) h =
    normalized-columns _ (db_column c) (db_columns cs)
      (columns_projection-columns (c ∷ cs) zero_projection)

pub used_projection-columns :
    (stmt : SqlStatement)
    → (stmt.select_all ≡ false → 1 ≤ length stmt.select_columns)
    → columns_of (used_projection stmt) (used_projection stmt).columns ≡ selected_columns stmt
unfolding projection_of
used_projection-columns stmt h = go stmt.select_all refl
  where
    go :
        (all : Bool)
        → stmt.select_all ≡ all
        → let p =
            if all
            then record zero_projection {
              include_id = true;
              include_name = true;
              include_age = true;
            }
            else columns_projection stmt.select_columns zero_projection in
          let q = normalized p p.columns in
          columns_of q q.columns ≡ (
            if all
            then DbColumn.column_id ∷ DbColumn.column_name ∷ DbColumn.column_age ∷ []
            else db_columns stmt.select_columns)
    go true e = unfold normalized in refl
    go false e = listed_columns stmt.select_columns (h e)

pub execute_typed-select :
    (c : Calls) (db : DbEngine) (stmt : SqlStatement) (type : SqlType)
    → type ≡ sql_select
    → execute_typed c db stmt type
      ≡ (db, db_select_projected c db (filter_of stmt stmt.where_type) (projection_of stmt))
unfolding execute_typed
execute_typed-select c db stmt sql_insert e = absurd (ground arith)
execute_typed-select c db stmt sql_select e = refl

error_response-500 : (o : Option JsonBuilder) → (error_response 500 o).status ≡ 500
error_response-500 none = refl
error_response-500 (some b) = refl

answered-rows :
    (c : Calls) (db : DbEngine) (r : DbResult) {db' : DbEngine} {response : Response}
    → answered c (db, r) ≡ (db', response)
    → response.status ≡ 200
    → (db' ≡ db) × (message : Bytes) × (used : Bool) × (r ≡ rows response.body message used)
unfolding send_error_response
answered-rows c db (error message) h k =
    let failed = error_response-500 (make_error_body c.malloc (codes message)) in
    absurd (omega (arith, failed, ap (λ x. x.1.status) h, k))
answered-rows c db (rows out message used) {db'} {response} h k =
    let same : out ≡ response.body = ap (λ x. x.1.body) h in
    (sym (ap (λ x. x.0) h), message, used, ap (λ b. rows b message used) same)

rows_text-same :
    (p q : DbProjection) (rs : List Record) (need_comma : Bool)
    → columns_of p p.columns ≡ columns_of q q.columns
    → rows_text p rs need_comma ≡ rows_text q rs need_comma
unfolding rows_text
rows_text-same p q [] need_comma e = refl
rows_text-same p q (r ∷ rs) need_comma e = rw (e, rows_text-same p q rs true e) refl

pub array_text-same :
    (p q : DbProjection) (rs : List Record)
    → columns_of p p.columns ≡ columns_of q q.columns
    → array_text p rs ≡ array_text q rs
array_text-same p q rs e = ap (λ s. codes "[" ++ (s ++ codes "]")) (rows_text-same p q rs false e)

-- whether the condition of the statement holds of the record
abbrev pub satisfies : SqlStatement → SqlWhereType → Record → Bool
satisfies stmt where_none r = true
satisfies stmt where_id r = r.id == stmt.where_id_value
satisfies stmt where_name r = strcmp_eq r.name stmt.where_name_value

unfoldable pub satisfying : SqlStatement → List Record → List Record
satisfying stmt [] = []
satisfying stmt (r ∷ rs) =
    let rest = satisfying stmt rs in if satisfies stmt stmt.where_type r then r ∷ rest else rest

-- the projection that lists the columns
abbrev pub listing : List DbColumn → DbProjection
listing columns = record {
  include_id = false;
  include_name = false;
  include_age = false;
  columns = columns;
}

listing-columns : (cs : List DbColumn) → cs ≡ columns_of (listing cs) (listing cs).columns
listing-columns [] = refl
listing-columns (c ∷ cs) = refl

filter_of-satisfies :
    (stmt : SqlStatement) (type : SqlWhereType) (r : Record)
    → length stmt.where_name_value ≤ 127
    → matches (filter_of stmt type) (filter_of stmt type).type r ≡ satisfies stmt type r
unfolding filter_of
filter_of-satisfies stmt where_none r h = refl
filter_of-satisfies stmt where_id r h = refl
filter_of-satisfies stmt where_name r h =
    ap (strcmp_eq r.name) (take-all 127 stmt.where_name_value h)

matching-satisfying :
    (stmt : SqlStatement) (rs : List Record)
    → length stmt.where_name_value ≤ 127
    → let filter = filter_of stmt stmt.where_type in
      matching filter filter.type rs ≡ satisfying stmt rs
unfolding matching satisfying
matching-satisfying stmt [] h = refl
matching-satisfying stmt (r ∷ rs) h =
    rw (filter_of-satisfies stmt stmt.where_type r h, matching-satisfying stmt rs h) refl

-- A selection that is parsed from the body of a query and answered with 200, on a sound engine: the
-- engine is as before, and the answer is the JSON array of exactly the records whose id is the one
-- after `WHERE id =`, or whose name is the one after `WHERE name =`, or of all without `WHERE`, in
-- their order, each with the columns that the statement lists, or all three for `*`.
pub handle_query-selects :
    (c : Calls) (db : DbEngine) (body sql : Bytes) (stmt : SqlStatement) {db' : DbEngine}
    {response : Response}
    → IsSound db
    → http_extract_sql body sql_max_len ≡ ok sql
    → sql_parse sql ≡ ok stmt
    → stmt.type ≡ sql_select
    → handle_query c db body ≡ (db', response)
    → response.status ≡ 200
    → (db' ≡ db)
      × (response.body ≡ array_text (listing (selected_columns stmt)) (satisfying stmt db.records))
unfolding handle_query execute_statement
handle_query-selects c db body sql stmt s e f t h k =
    let w = sql_parse-WellFormed sql f in
    let run = execute_typed-select c db stmt stmt.type t in
    let (same, message, used, found) =
      answered-rows c db _ (ap (answered c) (sym run) ∙ (rw (e, f) at h)) k in
    let answers =
      (db_select_projected-Answers c db (filter_of stmt stmt.where_type) (projection_of stmt) s
        found).json in
    let columns =
      used_projection-columns stmt (λ a. (w.fits.columns_good t a).0)
      ∙ listing-columns (selected_columns stmt) in
    (
      same,
      answers
          ∙ array_text-same (used_projection stmt) (listing (selected_columns stmt)) _ columns
          ∙ ap (array_text (listing (selected_columns stmt)))
              (matching-satisfying stmt db.records (omega (arith, w.fits.where_name_fits))),
    )
