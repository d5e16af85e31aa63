-- ===== src/Http/Request.antt =====
-- `http_read_request` and `parse_content_length` of src/http.c. The results of `recv` are given as
-- a list; a positive result is at most what was asked for.
use tryo.Prelude.{
  ℕ, zero, suc, ◌+◌, ◌-◌, ◌%◌, ◌^◌, true, false, ◌&&◌, ◌||◌, not, Option, none, some, List, [], ◌∷◌,
  ◌++◌, ltb, leb, ◌==◌, if◌then◌else◌, Bytes, codes, peek, next, isspace, isdigit, skip_ws, strstr,
  strncasecmp_eq, read_digits, length, take, drop,
}
use tryo.Sql.{Parsed, ok, fail, ◌>>=◌, ◌or_fail◌, guard, ◌>>◌}

abbrev pub http_max_request : ℕ
http_max_request = 65536

abbrev pub http_max_body : ℕ
http_max_body = 32768

abbrev pub crlf : Bytes
crlf = b'\r' ∷ b'\n' ∷ []

-- a result of `recv`: -1 with EINTR, -1 with another error, 0, or bytes
pub data Recv : Type 0 where
  interrupted broken closed : Recv
  received : Bytes → Recv

-- the C string in the buffer
unfoldable pub until_nul : Bytes → Bytes
until_nul [] = []
until_nul (c ∷ s) = let rest = until_nul s in if c == 0 then [] else c ∷ rest

-- `strtoul(value, &end, 10)`; `none` is `end == value`. Out of range it is ULONG_MAX, and a minus
-- sign negates modulo 2 ^ 64.
unfoldable pub strtoul : Bytes → Option ℕ
strtoul value =
    let s = skip_ws value in
    let signed = peek s == b'-' || peek s == b'+' in
    let d = if signed then next s else s in
    let n = (read_digits d 0).0 in
    if not (isdigit (peek d))
    then none
    else if leb (2 ^ 64) n
    then some (2 ^ 64 - 1)
    else if peek s == b'-'
    then some ((2 ^ 64 - n) % 2 ^ 64)
    else some n

-- The loop of `parse_content_length` at `line`; `end_length` is the length of the text from
-- `headers_end` on, so a pointer before it has a longer text. `none` is the result 0. Each round goes
-- on to a shorter text, and the fuel is the length of the first.
unfoldable pub content_loop : ℕ → Bytes → ℕ → Option ℕ
content_loop zero line end_length = some 0
content_loop (suc f) line end_length =
    if not (ltb end_length (length line)) then some 0 else elim (strstr line crlf) [
      | none ↦ some 0
      | some next_line ↦
          (let line_len = length line - length next_line in
            if ltb (length next_line) end_length || line_len == 0
            then some 0
            else if leb 15 line_len && strncasecmp_eq line (codes "Content-Length:")
            then strtoul (skip_ws (drop 15 line))
            else content_loop f (drop 2 next_line) end_length)
    ]

abbrev pub content_after : Option Bytes → ℕ → Option ℕ
content_after none end_length = none
content_after (some line) end_length = content_loop (length line) (drop 2 line) end_length

unfoldable pub parse_content_length : Bytes → ℕ → Option ℕ
parse_content_length buffer end_length = content_after (strstr buffer crlf) end_length

-- `%ns`, which may be empty here: at most n bytes that are no space
unfoldable pub scan_word : ℕ → Bytes → Bytes × Bytes
scan_word zero s = ([], s)
scan_word (suc n) [] = ([], [])
scan_word (suc n) (c ∷ s) =
    let (word, rest) = scan_word n s in if isspace c then ([], c ∷ s) else (c ∷ word, rest)

pub record HttpRequest : Type 0 where
  pub method : Bytes
  pub path : Bytes
  pub body : Bytes
  pub body_len : ℕ

abbrev pub some_word : Bytes × Bytes → Option (Bytes × Bytes)
some_word ([], rest) = none
some_word (c ∷ word, rest) = some (c ∷ word, rest)

-- `sscanf(buffer, "%7s %127s", …) != 2` is the error
unfoldable pub scan_request_line : Bytes → Parsed (Bytes × Bytes)
scan_request_line buffer = do
  (method, rest) ← some_word (scan_word 7 (skip_ws buffer)) or_fail "malformed request line"
  (path, rest') ← some_word (scan_word 127 (skip_ws rest)) or_fail "malformed request line"
  ok (method, path)

-- what is in the buffer, the text from `headers_end` on, and the results of `recv` that are left
pub record Headers : Type 0 where
  pub buffer : Bytes
  pub headers_end : Bytes
  pub left : List Recv

-- The first loop with what is in the buffer. `none` is a `recv` that has no result yet.
unfoldable pub header_loop : List Recv → Bytes → Option (Parsed Headers)
header_loop [] buffer = none
header_loop (Recv.interrupted ∷ events) buffer = header_loop events buffer
header_loop (Recv.broken ∷ events) buffer = some (fail "failed to read request")
header_loop (Recv.closed ∷ events) buffer = some (fail "client closed connection")
header_loop (Recv.received bytes ∷ events) buffer =
    let filled = buffer ++ take (http_max_request - length buffer) bytes in
    elim (strstr (until_nul filled) (crlf ++ crlf)) [
      | some headers_end ↦
          some (ok (record { buffer = filled; headers_end = headers_end; left = events }))
      | none ↦ (elim (ltb (length filled) http_max_request) [
        | true ↦ header_loop events filled
        | false ↦ some (fail "request headers too large or incomplete")
      ])
    ]

-- the second loop, until the buffer has `total_needed` bytes
unfoldable pub body_loop : List Recv → Bytes → ℕ → Option (Parsed Bytes)
body_loop [] buffer total_needed =
    if ltb (length buffer) total_needed then none else some (ok buffer)
body_loop (event ∷ events) buffer total_needed = elim (ltb (length buffer) total_needed) [
  | false ↦ some (ok buffer)
  | true ↦ (elim event [
    | Recv.interrupted ↦ body_loop events buffer total_needed
    | Recv.broken ↦ some (fail "failed to read request body")
    | Recv.closed ↦ some (fail "incomplete request body")
    | Recv.received bytes ↦
        body_loop events (buffer ++ take (total_needed - length buffer) bytes) total_needed
  ])
]

-- the request, once its bytes are in the buffer
abbrev pub request_of : Bytes × Bytes → ℕ → ℕ → Option (Parsed Bytes) → Option (Parsed HttpRequest)
request_of (method, path) header_len content_length none = none
request_of (method, path) header_len content_length (some (fail message)) = some (fail message)
request_of (method, path) header_len content_length (some (ok buffer)) = some (
    ok (record {
      method = method;
      path = path;
      body = take content_length (drop header_len buffer);
      body_len = content_length;
    }))

-- the checks between the two loops: the request line, the header and the content length
unfoldable pub read_head : Headers → Parsed ((Bytes × Bytes) × ℕ × ℕ)
read_head h = do
  let text = until_nul h.buffer
  line ← scan_request_line text
  content_length ← parse_content_length text (length h.headers_end) or_fail "invalid Content-Length"
  guard (leb content_length http_max_body) "request body too large"
  let header_len = length text - length h.headers_end + 4
  guard (leb (header_len + content_length) http_max_request) "request too large"
  ok (line, header_len, content_length)

abbrev pub read_rest : Headers → Parsed ((Bytes × Bytes) × ℕ × ℕ) → Option (Parsed HttpRequest)
read_rest h (fail message) = some (fail message)
read_rest h (ok (line, header_len, content_length)) =
    request_of line header_len content_length
      (body_loop h.left h.buffer (header_len + content_length))

abbrev pub read_after : Option (Parsed Headers) → Option (Parsed HttpRequest)
read_after none = none
read_after (some (fail message)) = some (fail message)
read_after (some (ok h)) = read_rest h (read_head h)

unfoldable pub http_read_request : List Recv → Option (Parsed HttpRequest)
http_read_request events = read_after (header_loop events [])
