-- ===== src/Server/Tests.antt =====
-- Requests from their bytes to the answer, and the theorems there.
use Prim.Native.String.{String}
use tryo.Prelude.{
  Bytes, ◌∷◌, length, ◌≡◌, refl, true, [], codes, arith, strcmp_eq, strcasecmp_eq, skip_ws, some,
  ◌≤◌, ◌^◌,
}
use tryo.Prelude.Decimal.{decimal}
use tryo.Bptree.{bptree_init}
use tryo.Util.Builder.{
  json_builder_init, json_builder_append, json_builder_reserve, json_builder_append_string,
}
use tryo.Util.Escape.{json_escape_dup}
use tryo.Sql.{ok, sql_parse, sql_select, SqlColumn, where_id, zeroed, SqlStatement}
use tryo.Db.Rows.{append_record_json, append_int}
use tryo.Db.Engine.{DbEngine, Calls, capacity_loop, db_insert}
use tryo.Db.Load.{empty_engine, db_init}
use tryo.Db.Steady.{Steady, SmallIds, Consistent}
use tryo.Server.Restart.{Life, start, request, restart-same}
use tryo.Db.Sound.{IsSound}
use tryo.Db.Durable.{empty_engine-IsSound}
use tryo.Http.Request.{HttpRequest, until_nul}
use tryo.Http.Extract.{http_extract_sql, copy_raw_sql, trim_end}
use tryo.Server.Query.{
  Response, handle_client, make_error_body, handle_query, sql_max_len, filter_of, projection_of,
}
use tryo.Db.Select.{db_select_projected}
use tryo.Db.Matching.{array_text}
use tryo.Server.Answers.{selected_columns, listing, satisfying, handle_query-selects}
use tryo.Server.Requests.{handle_client-IsSound, refused_unchanged}

-- every call succeeds
abbrev fine : Calls
fine = record {
  lock_ok = true;
  realloc_ok = λ n. true;
  fopen_ok = true;
  write_ok = true;
  close_ok = true;
  torn = [];
  calloc_ok = λ n. true;
  malloc = λ n. true;
}

abbrev empty : DbEngine
empty = empty_engine []

abbrev post : String → HttpRequest
post body = record {
  method = codes "POST";
  path = codes "/query";
  body = codes body;
  body_len = length (codes body);
}

abbrev insertion : HttpRequest
insertion = post "INSERT INTO users name age VALUES 'kim' 20;\n"

inserted :
    (handle_client fine empty (ok insertion)).1
    ≡ record { status = 200; body = codes "[{\"id\":1,\"name\":\"kim\",\"age\":20}]" }
unfolding handle_client until_nul strcasecmp_eq strcmp_eq http_extract_sql copy_raw_sql trim_end
    skip_ws sql_parse capacity_loop bptree_init json_builder_append json_builder_reserve
    append_record_json append_int decimal json_builder_append_string json_escape_dup db_insert
    json_builder_init
inserted = refl

abbrev refusal : HttpRequest
refusal = post "DELETE FROM users"

abbrev refused_answer : Response
refused_answer = record {
  status = 400;
  body = codes "{\"error\":\"only INSERT and SELECT are supported\"}";
}

refused : handle_client fine empty (ok refusal) ≡ (empty, refused_answer)
unfolding handle_client until_nul strcasecmp_eq strcmp_eq http_extract_sql copy_raw_sql trim_end
    skip_ws sql_parse make_error_body json_builder_append json_builder_reserve
    json_builder_append_string json_escape_dup db_insert json_builder_init
refused = refl

handle_client-IsSound_example : IsSound (handle_client fine empty (ok insertion)).0
handle_client-IsSound_example =
    handle_client-IsSound fine (λ n. refl) empty (ok insertion) (empty_engine-IsSound [])
      (omega arith)

refused_unchanged_example : empty ≡ empty
refused_unchanged_example =
    refused_unchanged fine empty (ok refusal) refused (λ e. omega (arith, e))
      (λ e. omega (arith, e))

abbrev with_kim : DbEngine
with_kim = (handle_client fine empty (ok insertion)).0

with_kim-IsSound : IsSound with_kim
with_kim-IsSound =
    handle_client-IsSound fine (λ n. refl) empty (ok insertion) (empty_engine-IsSound [])
      (omega arith)

abbrev question : Bytes
question = codes "SELECT name FROM users WHERE id = 1;"

abbrev question_stmt : SqlStatement
question_stmt = record zeroed {
  type = sql_select;
  table = codes "users";
  select_columns = SqlColumn.column_name ∷ [];
  where_type = where_id;
  where_id_value = 1;
}

question_extracted : http_extract_sql question sql_max_len ≡ ok question
unfolding http_extract_sql copy_raw_sql trim_end skip_ws
question_extracted = refl

question_parsed : sql_parse question ≡ ok question_stmt
unfolding sql_parse
question_parsed = refl

abbrev question_answer : Response
question_answer = record { status = 200; body = codes "[{\"name\":\"kim\"}]" }

question_answered : handle_query fine with_kim question ≡ (with_kim, question_answer)
unfolding handle_query handle_client until_nul strcasecmp_eq strcmp_eq http_extract_sql copy_raw_sql
    trim_end skip_ws sql_parse capacity_loop bptree_init json_builder_append json_builder_reserve
    append_record_json append_int decimal json_builder_append_string json_escape_dup db_insert
    json_builder_init db_select_projected filter_of projection_of
question_answered = refl

handle_query-selects_example :
    (with_kim ≡ with_kim)
    × (question_answer.body
        ≡ array_text
            (listing (selected_columns question_stmt))
            (satisfying question_stmt with_kim.records))
handle_query-selects_example =
    handle_query-selects fine with_kim question question question_stmt with_kim-IsSound
      question_extracted question_parsed refl question_answered refl

fine-Steady : Steady fine
fine-Steady = record { nodes = λ n. refl; written = refl }

with_kim-records : with_kim.records ≡ record { id = 1; name = codes "kim"; age = 20 } ∷ []
unfolding handle_client until_nul strcasecmp_eq strcmp_eq http_extract_sql copy_raw_sql trim_end
    skip_ws sql_parse capacity_loop bptree_init json_builder_append json_builder_reserve
    append_record_json append_int decimal json_builder_append_string json_escape_dup db_insert
    json_builder_init
with_kim-records = refl

with_kim-SmallIds : SmallIds with_kim.records
unfolding SmallIds
with_kim-SmallIds = rw with_kim-records (omega arith, tt)

with_kim-Life : Life with_kim
with_kim-Life = request fine (ok insertion) fine-Steady start with_kim-SmallIds

with_kim-one : length with_kim.records ≤ 2 ^ 63
with_kim-one = rw with_kim-records (omega arith)

restart-same_example :
    (db' : DbEngine) × (db_init (codes "data/users.csv") true true (λ n. fine) with_kim.file
      ≡ some (ok db'))
    × (db'.records ≡ with_kim.records)
    × Consistent db'
restart-same_example =
    restart-same (codes "data/users.csv") (λ n. fine) with_kim-Life (omega arith)
      (λ n. record { room = λ k. refl; nodes = λ k. refl }) with_kim-one
