-- ===== src/Http/Extract.antt =====
-- The SQL text of a request's body: `copy_raw_sql`, `extract_json_sql` and `http_extract_sql` of
-- src/http.c. `sql_size` is the size of the buffer `sql_out`.
use tryo.Prelude.{
  ℕ, suc, ◌+◌, Bool, true, false, ◌||◌, Option, none, some, [], ◌∷◌, ltb, leb, ◌==◌, if◌then◌else◌,
  Bytes, codes, peek, next, isspace, skip_ws, strstr, length, drop,
}
use tryo.Sql.{Parsed, ok, fail, ◌>>=◌, ◌or_fail◌, guard, ◌>>◌}

abbrev pub trim_cons : ℕ → Bytes → Bytes
trim_cons c [] = if isspace c then [] else c ∷ []
trim_cons c (d ∷ p) = c ∷ d ∷ p

-- `while (end > start && isspace(*(end - 1))) end--;`, as the text from `start` to `end`
unfoldable pub trim_end : Bytes → Bytes
trim_end [] = []
trim_end (c ∷ p) = trim_cons c (trim_end p)

unfoldable pub copy_raw_sql : Bytes → ℕ → Parsed Bytes
copy_raw_sql body sql_size =
    let sql = trim_end (skip_ws body) in
    if length sql == 0
    then fail "SQL body is empty"
    else if ltb sql_size (length sql + 1)
    then fail "SQL body is too long"
    else ok sql

-- the byte that a backslash and the given one stand for
unfoldable pub unescape : ℕ → Option ℕ
unescape c =
    if c == b'"' || c == b'\\' || c == b'/'
    then some c
    else if c == b'n'
    then some b'\n'
    else if c == b'r'
    then some b'\r'
    else if c == b't'
    then some b'\t'
    else none

abbrev pub cons_sql : ℕ → Parsed Bytes → Parsed Bytes
cons_sql c (ok sql) = ok (c ∷ sql)
cons_sql c (fail message) = fail message

-- The loop of `extract_json_sql` with `len` bytes in `sql_out`, and the test behind it; the flag
-- tells that a backslash was read.
unfoldable pub string_loop : ℕ → Bytes → Bool → ℕ → Parsed Bytes
string_loop sql_size [] true len = fail "unterminated JSON escape"
string_loop sql_size [] false len = fail "unterminated sql JSON string"
string_loop sql_size (c ∷ p) true len = elim (unescape c) [
  | none ↦ fail "unsupported JSON escape in sql value"
  | some ch ↦ (elim (leb sql_size (len + 1)) [
    | true ↦ fail "sql value is too long"
    | false ↦ cons_sql ch (string_loop sql_size p false (suc len))
  ])
]
string_loop sql_size (c ∷ p) false len = elim (c == b'"') [
  | true ↦ ok []
  | false ↦ (elim (c == b'\\') [
    | true ↦ string_loop sql_size p true len
    | false ↦ (elim (leb sql_size (len + 1)) [
      | true ↦ fail "sql value is too long"
      | false ↦ cons_sql c (string_loop sql_size p false (suc len))
    ])
  ])
]

unfoldable pub extract_json_sql : Bytes → ℕ → Parsed Bytes
extract_json_sql body sql_size = do
  key ← strstr body (codes "\"sql\"") or_fail "JSON body must contain key \"sql\""
  let p = skip_ws (drop 5 key)
  guard (peek p == b':') "expected ':' after sql key"
  let p₁ = skip_ws (next p)
  guard (peek p₁ == b'"') "sql value must be a JSON string"
  string_loop sql_size (next p₁) false 0

unfoldable pub http_extract_sql : Bytes → ℕ → Parsed Bytes
http_extract_sql body sql_size =
    if peek (skip_ws body) == b'{'
    then extract_json_sql body sql_size
    else copy_raw_sql body sql_size
