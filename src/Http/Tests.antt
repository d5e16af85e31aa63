-- ===== src/Http/Tests.antt =====
-- Bodies of requests, and the theorems there.
use tryo.Prelude.{
  ◌<◌, ◌≡◌, refl, ◌∷◌, ◌++◌, codes, arith, skip_ws, strstr, starts_with, length, List, [],
  strncasecmp_eq, read_digits, some, true,
}
use tryo.Sql.{ok, fail}
use tryo.Util.Escape.{escape}
use tryo.Http.Extract.{
  http_extract_sql, copy_raw_sql, extract_json_sql, string_loop, trim_end, unescape,
}
use tryo.Http.Request.{
  Recv, until_nul, strtoul, content_loop, parse_content_length, scan_word, HttpRequest,
  scan_request_line, header_loop, body_loop, read_head, http_read_request,
}
use tryo.Http.Reading.{Complete, http_read_request-Complete}
use tryo.Http.Response.{
  Send, Sent, Sends, send_all, ends_line, header, answer_text, with_newline,
  http_send_json_with_thread, http_send_json_with_thread-Sends,
}
use tryo.Prelude.Decimal.{decimal}
use tryo.Http.Text.{lines_text}
use tryo.Http.Body.{all_textual, http_extract_sql-escape}
use tryo.Http.Trim.{Trimmed, copy_raw_sql-Trimmed, http_extract_sql-fits}

json_body :
    http_extract_sql (codes "{\"sql\": \"SELECT * FROM users;\"}") 4096
    ≡ ok (codes "SELECT * FROM users;")
unfolding http_extract_sql extract_json_sql string_loop skip_ws strstr starts_with
json_body = refl

bad_escape :
    http_extract_sql (codes "{\"sql\": \"\\u0041\"}") 4096
    ≡ fail "unsupported JSON escape in sql value"
unfolding http_extract_sql extract_json_sql string_loop skip_ws strstr starts_with unescape
bad_escape = refl

raw_body : copy_raw_sql (codes "  SELECT 1;\r\n") 4096 ≡ ok (codes "SELECT 1;")
unfolding copy_raw_sql trim_end skip_ws
raw_body = refl

extracted : http_extract_sql (codes " SELECT 1; ") 16 ≡ ok (codes "SELECT 1;")
unfolding http_extract_sql copy_raw_sql trim_end skip_ws
extracted = refl

http_extract_sql-escape_example :
    http_extract_sql
      (codes "{\"sql\":\"" ++ (escape (codes "SELECT \"a\\b\"\n") ++ b'"' ∷ codes "}"))
      4096
    ≡ ok (codes "SELECT \"a\\b\"\n")
http_extract_sql-escape_example =
    http_extract_sql-escape 4096 (codes "SELECT \"a\\b\"\n") (codes "}")
      (unfold all_textual in refl) (omega arith)

copy_raw_sql-Trimmed_example : Trimmed (codes "  SELECT 1;\r\n") 4096 (codes "SELECT 1;")
copy_raw_sql-Trimmed_example = copy_raw_sql-Trimmed (codes "  SELECT 1;\r\n") 4096 raw_body

http_extract_sql-fits_example : length (codes "SELECT 1;") < 16
http_extract_sql-fits_example =
    http_extract_sql-fits (codes " SELECT 1; ") 16 (omega arith) extracted

-- a request in three pieces, with an interrupted `recv` between them
abbrev pieces : List Recv
pieces =
    Recv.received (codes "POST /query HTTP/1.1\r\nContent-")
    ∷ Recv.interrupted
    ∷ Recv.received (codes "Length: 9\r\n\r\nSELE")
    ∷ Recv.received (codes "CT 1;")
    ∷ []

abbrev select_request : HttpRequest
select_request = record {
  method = codes "POST";
  path = codes "/query";
  body = codes "SELECT 1;";
  body_len = 9;
}

read_pieces : http_read_request pieces ≡ some (ok select_request)
unfolding http_read_request until_nul strtoul content_loop parse_content_length scan_word
    scan_request_line header_loop body_loop read_head strstr starts_with strncasecmp_eq skip_ws
    read_digits
read_pieces = refl

http_read_request-Complete_example : Complete select_request
http_read_request-Complete_example = http_read_request-Complete pieces read_pieces

-- an answer that goes out in three pieces
abbrev sends : List Send
sends =
    Send.accepted 10
    ∷ Send.interrupted
    ∷ Send.accepted 1000
    ∷ Send.accepted 2
    ∷ Send.accepted 1
    ∷ []

abbrev answer : Sent
answer = record { success = true; written = answer_text 200 (codes "[]") 0; left = [] }

sent_answer : http_send_json_with_thread sends 200 (codes "[]") 0 ≡ some answer
unfolding http_send_json_with_thread send_all ends_line header decimal answer_text lines_text
    with_newline
sent_answer = refl

http_send_json_with_thread-Sends_example : Sends (answer_text 200 (codes "[]") 0) answer
http_send_json_with_thread-Sends_example =
    http_send_json_with_thread-Sends sends 200 (codes "[]") 0 sent_answer
