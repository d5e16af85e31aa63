-- ===== src/Server/Table.antt =====
-- What the server of src/server.c is for: a table of records, the commands on it, and the answers.
use Prim.Native.String.{String}
use tryo.Prelude.{
  ℕ, ◌+◌, Bool, true, false, ◌&&◌, List, [], ◌∷◌, ◌++◌, ltb, leb, ◌==◌, if◌then◌else◌, Bytes, codes,
  strcmp_eq,
}
use tryo.Sql.{int_max}
use tryo.Sql.Command.{
  Condition, every_row, id_is, name_is, Projection, all_columns, these, Command, insert_values,
  insert_named, select,
}
use tryo.Util.Escape.{escape}
use tryo.Db.Rows.{Record, DbProjection, all_columns_projection}
use tryo.Db.Engine.{DbEngine, name_is_valid}
use tryo.Db.Matching.{array_text}
use tryo.Db.Sound.{absent}
use tryo.Server.Query.{Response}
use tryo.Server.Answers.{db_columns}

pub record Table : Type 0 where
  pub rows : List Record
  pub next_id : ℕ

-- what the engine keeps beyond its index and its file
abbrev pub table_of : DbEngine → Table
table_of db = record { rows = db.records; next_id = db.next_id }

pub data Reply : Type 0 where
  answer : Bytes → Reply
  refusal : String → Reply

abbrev pub holds : Condition → Record → Bool
holds every_row r = true
holds (id_is n) r = r.id == n
holds (name_is s) r = strcmp_eq r.name s

unfoldable pub holding : Condition → List Record → List Record
holding condition [] = []
holding condition (r ∷ rs) =
    let rest = holding condition rs in if holds condition r then r ∷ rest else rest

-- the columns that a selection shows
abbrev pub shown : Projection → DbProjection
shown all_columns = all_columns_projection
shown (these columns) = record {
  include_id = false;
  include_name = false;
  include_age = false;
  columns = db_columns columns;
}

abbrev pub stored : Table → Record → Table
stored t r = record {
  rows = t.rows ++ r ∷ [];
  next_id = if leb t.next_id r.id && ltb r.id int_max then r.id + 1 else t.next_id;
}

abbrev pub inserted : Table → Record → Table × Reply
inserted t r = (stored t r, answer (array_text all_columns_projection (r ∷ [])))

abbrev pub with_name : Table → Bytes → Table × Reply → Table × Reply
with_name t name out = if name_is_valid name then out else (t, refusal "invalid id, name, or age")

-- a command on a table
unfoldable pub run : Table → Command → Table × Reply
unfolding name_is_valid absent holding
run t (insert_values id name age) = with_name t name (
    if absent id t.rows
    then inserted t (record { id = id; name = name; age = age })
    else (t, refusal "duplicate id"))
run t (insert_named name age) =
    with_name t name (inserted t (record { id = t.next_id; name = name; age = age }))
run t (select projection condition) =
    (t, answer (array_text (shown projection) (holding condition t.rows)))

abbrev pub response_of : Reply → Response
response_of (answer body) = record { status = 200; body = body }
response_of (refusal message) = record {
  status = 500;
  body = codes "{\"error\":" ++ ((b'"' ∷ (escape (codes message) ++ b'"' ∷ [])) ++ codes "}");
}
