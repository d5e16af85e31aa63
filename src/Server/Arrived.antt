-- ===== src/Server/Arrived.antt =====
-- A query from the bytes that `recv` returns, through `http_read_request` of src/http.c and
-- `handle_client` of src/server.c, against its command on a table.
use tryo.Prelude.{
  ◌+◌, ◌^◌, ◌≤◌, ◌≡◌, refl, ap, some, List, [], ◌∷◌, ◌++◌, arith, Bytes, codes, length, strcmp_eq,
  strcasecmp_eq,
}
use tryo.Sql.{Parsed, ok}
use tryo.Sql.Command.{Command, Plain, print}
use tryo.Db.Engine.{DbEngine, Calls}
use tryo.Db.Sound.{IsSound}
use tryo.Db.Total.{Generous}
use tryo.Http.Request.{http_max_request, crlf, Recv, HttpRequest, until_nul, http_read_request}
use tryo.Http.Text.{NoByte, AllLines, lines_text, Word, OtherLines, head_lines}
use tryo.Http.Arrival.{Delivers}
use tryo.Http.Accepted.{http_read_request-text}
use tryo.Http.Extract.{http_extract_sql}
use tryo.Server.Query.{handle_client, handle_request, sql_max_len}
use tryo.Server.Table.{table_of, run}
use tryo.Server.Refused.{Refines}
use tryo.Server.Selected.{Fits}
use tryo.Server.Refine.{handle_query-Refines}
use tryo.Server.Body.{Carries, Carries-extracted, Carries-length}

post-Word : Word 7 (codes "POST")
post-Word = record {
  some_byte = omega arith;
  fits = omega arith;
  no_space = ground arith;
  no_nul = ground arith;
}

query-Word : Word 127 (codes "/query")
query-Word = record {
  some_byte = omega arith;
  fits = omega arith;
  no_space = ground arith;
  no_nul = ground arith;
}

until_nul-all : (s : Bytes) → NoByte 0 s → until_nul s ≡ s
unfolding until_nul
until_nul-all [] h = refl
until_nul-all (c ∷ s) h = rw h.0 (ap (λ u. c ∷ u) (until_nul-all s h.1))

-- the text of the request with the body, and other header lines before and behind its length
abbrev pub query_text : List Bytes → List Bytes → Bytes → Bytes
query_text before after body =
    lines_text (head_lines (codes "POST") (codes "/query") before (length body) after)
      (crlf ++ body)

-- However `recv` cuts up the bytes of a `POST /query` request and however often it is interrupted:
-- if the body is the printed form of a command of the language, or a JSON object whose key `sql`
-- has that text, no byte of it needing a `\u` escape, if the body has no NUL, the header lines are
-- as `http_read_request` takes them and all of it has at most 65536 bytes, then the request is
-- read, and with every call successful on a sound engine with fewer than 2 ^ 63 records, and an
-- answer of fewer than 2 ^ 60 bytes if the command selects, `handle_client` is the command run on
-- the table of the engine: the records, the next id and the response, errors included, are the ones
-- of the table.
pub arrived-Refines :
    (c : Calls) (db : DbEngine) (command : Command) (body : Bytes) (before after : List Bytes)
    {events : List Recv}
    → Generous c
    → IsSound db
    → length db.records + 1 ≤ 2 ^ 63
    → Plain command
    → Fits (table_of db) command
    → Carries command body
    → NoByte 0 body
    → OtherLines before
    → AllLines after
    → length (query_text before after body) ≤ http_max_request
    → Delivers events (query_text before after body)
    → (read : Parsed HttpRequest) × (http_read_request events ≡ some read)
      × Refines (run (table_of db) command) (handle_client c db read)
unfolding handle_client handle_request strcasecmp_eq strcmp_eq
arrived-Refines c db command body before after g s q h fits carries no_nul b a small d =
    let extracted : http_extract_sql (until_nul body) sql_max_len ≡ ok (print command) =
      rw (until_nul-all body no_nul) (Carries-extracted h carries) in
    (
      ok (record {
        method = codes "POST";
        path = codes "/query";
        body = body;
        body_len = length body;
      }),
      http_read_request-text (codes "POST") (codes "/query") before after body post-Word query-Word
          b a (omega (arith, Carries-length h carries)) small d,
      handle_query-Refines c db (until_nul body) command g s q h fits extracted,
    )
