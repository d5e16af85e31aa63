-- ===== src/Server/Refine.antt =====
-- The queries of src/server.c against the commands on a table.
use tryo.Prelude.{
  ◌+◌, ◌^◌, ◌≤◌, ◌≡◌, refl, Bool, true, false, not, arith, if◌then◌else◌, Bytes, length, subst,
}
use tryo.Sql.{ok}
use tryo.Sql.Command.{Command, insert_values, insert_named, select, Plain, stmt_of, print}
use tryo.Sql.RoundTrip.{sql_parse-print}
use tryo.Db.Engine.{DbEngine, Calls, db_insert_internal, db_insert, db_insert_with_id}
use tryo.Db.Sound.{IsSound, absent}
use tryo.Db.Total.{Generous}
use tryo.Http.Extract.{http_extract_sql}
use tryo.Server.Query.{execute_statement, execute_typed, answered, handle_query, sql_max_len}
use tryo.Server.Table.{table_of, with_name, run}
use tryo.Server.Refused.{Refines}
use tryo.Server.Inserted.{db_insert_internal-Refines}
use tryo.Server.Selected.{Fits, select-Refines}

if-not {ℓ} : {A : Type ℓ} (b : Bool) (x y : A) → (if not b then x else y) ≡ (if b then y else x)
if-not true x y = refl
if-not false x y = refl

execute_statement-Refines :
    (c : Calls) (db : DbEngine) (command : Command)
    → Generous c
    → IsSound db
    → length db.records + 1 ≤ 2 ^ 63
    → Plain command
    → Fits (table_of db) command
    → Refines (run (table_of db) command) (answered c (execute_statement c db (stmt_of command)))
unfolding run execute_statement execute_typed db_insert db_insert_with_id
execute_statement-Refines c db (insert_values id name age) g s q h fits =
    subst
      (λ t.
        Refines (with_name (table_of db) name t)
          (answered c (db_insert_internal c db true id name age)))
      (if-not (absent id db.records) _ _)
      (db_insert_internal-Refines c db true id name age g s h.1 h.3 (omega (arith, h.2.0)) q
        (ground (arith, h.0)))
execute_statement-Refines c db (insert_named name age) g s q h fits =
    db_insert_internal-Refines c db false 0 name age g s (omega arith) h.1 (omega (arith, h.0.0)) q
      refl
execute_statement-Refines c db (select p condition) g s q h fits =
    select-Refines c db p condition g s h fits

-- On a sound engine with fewer than 2 ^ 63 records, with every call successful, a query whose text
-- is the printed form of a command of the language, and whose answer has fewer than 2 ^ 60 bytes if
-- it selects, is the command run on the table: the records and the next id of the engine become
-- those of the table, and the response, errors included, is the one of the table.
pub handle_query-Refines :
    (c : Calls) (db : DbEngine) (body : Bytes) (command : Command)
    → Generous c
    → IsSound db
    → length db.records + 1 ≤ 2 ^ 63
    → Plain command
    → Fits (table_of db) command
    → http_extract_sql body sql_max_len ≡ ok (print command)
    → Refines (run (table_of db) command) (handle_query c db body)
unfolding handle_query
handle_query-Refines c db body command g s q h fits e =
    rw (e, sql_parse-print command h) (execute_statement-Refines c db command g s q h fits)
