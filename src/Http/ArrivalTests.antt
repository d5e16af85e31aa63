-- ===== src/Http/ArrivalTests.antt =====
-- A request in three parts with an interruption, and the theorem there.
use tryo.Prelude.{
  ◌≤◌, ◌≡◌, refl, some, List, [], ◌∷◌, ◌++◌, Bytes, codes, length, arith, strncasecmp_eq,
}
use tryo.Prelude.Decimal.{decimal}
use tryo.Sql.{ok}
use tryo.Http.Request.{http_max_request, crlf, Recv, http_read_request}
use tryo.Http.Text.{lines_text, Word, OtherLines, head_lines}
use tryo.Http.Arrival.{Delivers, over, interruption, part}
use tryo.Http.Accepted.{http_read_request-text}

abbrev host : List Bytes
host = codes "Host: localhost" ∷ []

abbrev body : Bytes
body = codes "SELECT * FROM users;"

abbrev events : List Recv
events =
    Recv.received (codes "POST /query HTTP/1.1\r\nHost: localhost\r\nConte")
    ∷ Recv.interrupted
    ∷ Recv.received (codes "nt-Length: 20\r\n\r\nSELECT * ")
    ∷ Recv.received (codes "FROM users;")
    ∷ []

events-Delivers :
    Delivers events
      (lines_text (head_lines (codes "POST") (codes "/query") host 20 []) (crlf ++ body))
unfolding lines_text decimal
events-Delivers = part (codes "POST /query HTTP/1.1\r\nHost: localhost\r\nConte") (
    interruption
      (part (codes "nt-Length: 20\r\n\r\nSELECT * ") (part (codes "FROM users;") (over []))))

small :
    length (lines_text (head_lines (codes "POST") (codes "/query") host 20 []) (crlf ++ body))
    ≤ http_max_request
unfolding lines_text decimal
small = omega arith

post-Word : Word 7 (codes "POST")
post-Word = record {
  some_byte = omega arith;
  fits = omega arith;
  no_space = ground arith;
  no_nul = ground arith;
}

query-Word : Word 127 (codes "/query")
query-Word = record {
  some_byte = omega arith;
  fits = omega arith;
  no_space = ground arith;
  no_nul = ground arith;
}

host-OtherLines : OtherLines host
unfolding strncasecmp_eq
host-OtherLines =
    (record { some_byte = omega arith; no_cr = ground arith; no_nul = ground arith }, refl, tt)

http_read_request-text_example :
    http_read_request events
    ≡ some
        (ok (record { method = codes "POST"; path = codes "/query"; body = body; body_len = 20 }))
http_read_request-text_example =
    http_read_request-text (codes "POST") (codes "/query") host [] body post-Word query-Word
      host-OtherLines tt (omega arith) small events-Delivers
