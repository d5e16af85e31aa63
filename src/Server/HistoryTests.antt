-- ===== src/Server/HistoryTests.antt =====
-- Queries on an empty file, and the theorems on them.
use tryo.Prelude.{
  ◌^◌, ◌≤◌, ◌≡◌, refl, true, some, List, [], ◌∷◌, arith, codes, length, strcmp_eq, strcasecmp_eq,
  skip_ws,
}
use tryo.Prelude.Decimal.{decimal}
use tryo.Sql.{Parsed, ok, SqlColumn, column_already_selected}
use tryo.Sql.Command.{
  Command, insert_values, insert_named, select, these, id_is, print, columns_text,
}
use tryo.Db.Engine.{DbEngine, Calls}
use tryo.Db.Load.{empty_engine, db_init}
use tryo.Db.Sound.{IsSound}
use tryo.Db.Durable.{empty_engine-IsSound}
use tryo.Db.Steady.{SmallIds}
use tryo.Db.Total.{Generous}
use tryo.Db.Matching.{rows_text}
use tryo.Util.Escape.{escape}
use tryo.Http.Request.{until_nul}
use tryo.Http.Extract.{http_extract_sql, copy_raw_sql, trim_end}
use tryo.Server.Query.{handle_client, Response}
use tryo.Server.Table.{Table, run, holding}
use tryo.Server.Refused.{Refines}
use tryo.Server.Body.{raw}
use tryo.Server.Arrived.{query_text, arrived-Refines}
use tryo.Http.Arrival.{Delivers, over, interruption, part}
use tryo.Http.Text.{NoByte, lines_text}
use tryo.Http.Request.{http_max_request, Recv, HttpRequest, http_read_request}
use tryo.Server.History.{Ask, Asks, serve, run_all, Served, AllServed}
use tryo.Server.Durable.{empty_table, serve-durable}

abbrev fine : Calls
fine = record {
  lock_ok = true;
  realloc_ok = λ n. true;
  fopen_ok = true;
  write_ok = true;
  close_ok = true;
  torn = [];
  calloc_ok = λ n. true;
  malloc = λ n. true;
}

fine-Generous : Generous fine
fine-Generous = record {
  lock = refl;
  room = λ n. refl;
  opened = refl;
  written = refl;
  nodes = λ n. refl;
  text = λ n. refl;
}

abbrev first : Command
first = insert_named (codes "kim") 20

abbrev second : Command
second = insert_values 1 (codes "lee") 30

abbrev third : Command
third = select (these (SqlColumn.column_name ∷ [])) (id_is 1)

abbrev ask_for : Command → Ask
ask_for command = record {
  calls = fine;
  request = record {
    method = codes "POST";
    path = codes "/query";
    body = print command;
    body_len = length (print command);
  };
  command = command;
}

abbrev asks : List Ask
asks = ask_for first ∷ ask_for second ∷ ask_for third ∷ []

first-Asks : Asks (ask_for first).request first
unfolding print decimal strcasecmp_eq strcmp_eq until_nul http_extract_sql copy_raw_sql trim_end
    skip_ws
first-Asks = record { method = refl; not_get = refl; path = refl; text = refl }

second-Asks : Asks (ask_for second).request second
unfolding print decimal strcasecmp_eq strcmp_eq until_nul http_extract_sql copy_raw_sql trim_end
    skip_ws
second-Asks = record { method = refl; not_get = refl; path = refl; text = refl }

third-Asks : Asks (ask_for third).request third
unfolding print decimal strcasecmp_eq strcmp_eq until_nul http_extract_sql copy_raw_sql trim_end
    skip_ws columns_text
third-Asks = record { method = refl; not_get = refl; path = refl; text = refl }

-- the table after the first query
abbrev with_kim : Table
with_kim = record { rows = record { id = 1; name = codes "kim"; age = 20 } ∷ []; next_id = 2 }

after_first : (run empty_table first).0 ≡ with_kim
unfolding run
after_first = refl

after_second : (run with_kim second).0 ≡ with_kim
unfolding run
after_second = refl

first-Served : Served empty_table (ask_for first)
first-Served = record {
  asks = first-Asks;
  generous = fine-Generous;
  plain = ((omega arith, (refl, (refl, (refl, tt)))), omega arith);
  fits = tt;
  room = omega arith;
  next = omega arith;
}

second-Served : Served with_kim (ask_for second)
second-Served = record {
  asks = second-Asks;
  generous = fine-Generous;
  plain = (omega arith, omega arith, (omega arith, (refl, (refl, (refl, tt)))), omega arith);
  fits = tt;
  room = omega arith;
  next = omega arith;
}

third-Served : Served with_kim (ask_for third)
unfolding run columns_text holding rows_text escape strcmp_eq column_already_selected
third-Served = record {
  asks = third-Asks;
  generous = fine-Generous;
  plain = ((omega arith, omega arith, (refl, tt)), omega arith);
  fits = omega arith;
  room = omega arith;
  next = omega arith;
}

all_served : AllServed empty_table asks
unfolding AllServed run
all_served = (first-Served, (second-Served, (third-Served, tt)))

-- what the program answers them
abbrev replies : List Response
replies =
    record { status = 200; body = codes "[{\"id\":1,\"name\":\"kim\",\"age\":20}]" }
    ∷ record { status = 500; body = codes "{\"error\":\"duplicate id\"}" }
    ∷ record { status = 200; body = codes "[{\"name\":\"kim\"}]" }
    ∷ []

replied : run_all empty_table asks ≡ (with_kim, replies)
unfolding run_all run columns_text holding rows_text escape strcmp_eq decimal
replied = refl

abbrev events : List Recv
events =
    Recv.received (codes "POST /query HTTP/1.1\r\nContent-Le")
    ∷ Recv.interrupted
    ∷ Recv.received (codes "ngth: 43\r\n\r\nINSERT INTO users name age ")
    ∷ Recv.received (codes "VALUES 'kim' 20;")
    ∷ []

events-Delivers : Delivers events (query_text [] [] (print first))
unfolding lines_text decimal print
events-Delivers = part (codes "POST /query HTTP/1.1\r\nContent-Le") (
    interruption (
      part (codes "ngth: 43\r\n\r\nINSERT INTO users name age ")
        (part (codes "VALUES 'kim' 20;") (over []))))

short : length (query_text [] [] (print first)) ≤ http_max_request
unfolding lines_text decimal print
short = omega arith

first-NoByte : NoByte 0 (print first)
unfolding print decimal
first-NoByte = ground arith

arrived-Refines_example :
    (read : Parsed HttpRequest) × (http_read_request events ≡ some read)
    × Refines (run empty_table first) (handle_client fine (empty_engine []) read)
arrived-Refines_example =
    arrived-Refines fine (empty_engine []) first (print first) [] [] fine-Generous
      (empty_engine-IsSound []) (omega arith) first-Served.plain tt raw first-NoByte tt tt short
      events-Delivers

small : SmallIds (run_all empty_table asks).0.rows
unfolding SmallIds
small = rw replied (omega arith, tt)

few : length (run_all empty_table asks).0.rows ≤ 2 ^ 63
few = rw replied (omega arith)

serve-durable_example :
    ((serve (empty_engine []) asks).1 ≡ (run_all empty_table asks).1)
    × (db' : DbEngine) × (db_init
          (codes "data/users.csv")
          true
          true
          (λ n. fine)
          (serve (empty_engine []) asks).0.file
        ≡ some (ok db'))
    × (db'.records ≡ (run_all empty_table asks).0.rows)
    × IsSound db'
serve-durable_example =
    serve-durable (codes "data/users.csv") (λ n. fine) asks all_served (omega arith)
      (λ n. record { room = λ k. refl; nodes = λ k. refl }) small few
