-- ===== src/Server/Query.antt =====
-- `execute_statement`, `handle_query` and `handle_client` of src/server.c. A response is the status
-- and the body that are handed to `http_send_json_with_thread`; the log lines and `close` are left
-- out.
use Prim.Native.String.{String}
use tryo.Prelude.{
  ℕ, Bool, true, false, ◌&&◌, ◌||◌, Option, none, some, List, [], ◌∷◌, ◌++◌, if◌then◌else◌, Bytes,
  codes, strcmp_eq, strcasecmp_eq, ◌>>=◌,
}
use tryo.Sql.{
  SqlType, sql_insert, sql_select, SqlWhereType, where_none, where_id, where_name, SqlColumn,
  SqlStatement, Parsed, ok, fail, sql_parse,
}
use tryo.Util.Builder.{
  JsonBuilder, json_builder_init, json_builder_append, json_builder_append_string,
}
use tryo.Db.Rows.{DbColumn, DbProjection}
use tryo.Db.Engine.{DbEngine, Calls, DbResult, error, rows, fitted, db_insert, db_insert_with_id}
use tryo.Db.Select.{filter_all, filter_id, filter_name, DbFilter, db_select_projected}
use tryo.Http.Request.{HttpRequest, until_nul}
use tryo.Http.Extract.{http_extract_sql}

abbrev pub sql_max_len : ℕ
sql_max_len = 4096

-- `filter`, zeroed before
unfoldable pub filter_of : SqlStatement → SqlWhereType → DbFilter
filter_of stmt where_id = record { type = filter_id; id = stmt.where_id_value; name = [] }
filter_of stmt where_name = record {
  type = filter_name;
  id = 0;
  name = fitted stmt.where_name_value;
}
filter_of stmt where_none = record { type = filter_all; id = 0; name = [] }

-- the loop over `select_columns`
unfoldable pub columns_projection : List SqlColumn → DbProjection → DbProjection
columns_projection [] p = p
columns_projection (SqlColumn.column_id ∷ cs) p =
    columns_projection cs
      (record p { include_id = true; columns = p.columns ++ DbColumn.column_id ∷ [] })
columns_projection (SqlColumn.column_name ∷ cs) p =
    columns_projection cs
      (record p { include_name = true; columns = p.columns ++ DbColumn.column_name ∷ [] })
columns_projection (SqlColumn.column_age ∷ cs) p =
    columns_projection cs
      (record p { include_age = true; columns = p.columns ++ DbColumn.column_age ∷ [] })

-- `memset(&projection, 0, sizeof(projection))`
abbrev pub zero_projection : DbProjection
zero_projection = record {
  include_id = false;
  include_name = false;
  include_age = false;
  columns = [];
}

unfoldable pub projection_of : SqlStatement → DbProjection
unfolding columns_projection
projection_of stmt =
    if stmt.select_all
    then record zero_projection { include_id = true; include_name = true; include_age = true }
    else columns_projection stmt.select_columns zero_projection

unfoldable pub execute_typed : Calls → DbEngine → SqlStatement → SqlType → DbEngine × DbResult
execute_typed c db stmt sql_insert =
    if stmt.insert_has_id
    then db_insert_with_id c db stmt.insert_id stmt.insert_name stmt.insert_age
    else db_insert c db stmt.insert_name stmt.insert_age
execute_typed c db stmt sql_select =
    (db, db_select_projected c db (filter_of stmt stmt.where_type) (projection_of stmt))

unfoldable pub execute_statement : Calls → DbEngine → SqlStatement → DbEngine × DbResult
unfolding execute_typed
execute_statement c db stmt = execute_typed c db stmt stmt.type

pub record Response : Type 0 where
  pub status : ℕ
  pub body : Bytes

unfoldable pub make_error_body : (ℕ → Bool) → Bytes → Option JsonBuilder
make_error_body malloc message = do
  b ← json_builder_init malloc
  b₁ ← json_builder_append malloc b (codes "{\"error\":")
  b₂ ← json_builder_append_string malloc b₁ message
  json_builder_append malloc b₂ (codes "}")

abbrev pub error_response : ℕ → Option JsonBuilder → Response
error_response status none = record { status = 500; body = codes "{\"error\":\"out of memory\"}" }
error_response status (some builder) = record { status = status; body = builder.text }

unfoldable pub send_error_response : (ℕ → Bool) → ℕ → String → Response
unfolding make_error_body
send_error_response malloc status message =
    error_response status (make_error_body malloc (codes message))

-- the end of `handle_query`
abbrev pub answered : Calls → DbEngine × DbResult → DbEngine × Response
answered c (db, error message) = (db, send_error_response c.malloc 500 message)
answered c (db, rows rows_json message index_used) = (db, record { status = 200; body = rows_json })

abbrev pub executed : Calls → DbEngine → Parsed SqlStatement → DbEngine × Response
executed c db (fail message) = (db, send_error_response c.malloc 400 message)
executed c db (ok stmt) = answered c (execute_statement c db stmt)

abbrev pub parsed : Calls → DbEngine → Parsed Bytes → DbEngine × Response
parsed c db (fail message) = (db, send_error_response c.malloc 400 message)
parsed c db (ok sql) = executed c db (sql_parse sql)

unfoldable pub handle_query : Calls → DbEngine → Bytes → DbEngine × Response
unfolding send_error_response execute_statement
handle_query c db body = parsed c db (http_extract_sql body sql_max_len)

-- the routes of `handle_client`
unfoldable pub handle_request : Calls → DbEngine → HttpRequest → DbEngine × Response
unfolding strcasecmp_eq strcmp_eq handle_query send_error_response
handle_request c db request =
    if strcasecmp_eq request.method (codes "GET") && strcmp_eq request.path (codes "/health")
    then (db, record { status = 200; body = codes "{\"status\":\"ok\"}" })
    else if strcasecmp_eq request.method (codes "POST") && strcmp_eq request.path (codes "/query")
    then handle_query c db (until_nul request.body)
    else if strcmp_eq request.path (codes "/query") || strcmp_eq request.path (codes "/health")
    then (db, send_error_response c.malloc 405 "method not allowed")
    else (db, send_error_response c.malloc 404 "route not found")

-- The argument is what `http_read_request` gives.
unfoldable pub handle_client : Calls → DbEngine → Parsed HttpRequest → DbEngine × Response
unfolding handle_request send_error_response
handle_client c db (fail message) = (db, send_error_response c.malloc 400 message)
handle_client c db (ok request) = handle_request c db request
