-- ===== src/Sql/Lexical.antt =====
-- The lexical functions of src/sql.c. A function that moves `*p` and returns 0 or 1 is a function
-- from the text at `*p` to its result and the text at the new `*p`, or `none`.
use tryo.Prelude.{
  ℕ, suc, ◌+◌, Bool, ◌||◌, not, Option, none, some, [], ◌∷◌, ltb, leb, ◌==◌, if◌then◌else◌, Bytes,
  codes, peek, next, isalpha, isalnum, skip_ws, strcasecmp_eq, strtol,
}
use tryo.Sql.Statement.{int_max, Parsed, ok, ◌>>=◌, ◌>>◌, ◌or_fail◌, guard}

abbrev pub cons_word : ℕ → Option (Bytes × Bytes) → Option (Bytes × Bytes)
cons_word c none = none
cons_word c (some (w, p)) = some (c ∷ w, p)

-- the loop of `read_word` with `len` bytes in `out`
unfoldable pub word_loop : ℕ → Bytes → ℕ → Option (Bytes × Bytes)
word_loop out_size [] len = some ([], [])
word_loop out_size (c ∷ cur) len =
    let rest = word_loop out_size cur (suc len) in
    if isalnum c || c == b'_'
    then (if leb out_size (len + 1) then none else cons_word c rest)
    else some ([], c ∷ cur)

unfoldable pub read_word : Bytes → ℕ → Option (Bytes × Bytes)
unfolding word_loop skip_ws
read_word p out_size =
    let cur = skip_ws p in
    if not (isalpha (peek cur) || peek cur == b'_') then none else word_loop out_size cur 0

-- a word that must be the given one, in upper or lower case
abbrev pub match_word : Option (Bytes × Bytes) → Bytes → Option Bytes
match_word none keyword = none
match_word (some (word, p)) keyword = if strcasecmp_eq word keyword then some p else none

unfoldable pub expect_keyword : Bytes → Bytes → Option Bytes
unfolding read_word strcasecmp_eq
expect_keyword p keyword = match_word (read_word p 64) keyword

unfoldable pub expect_symbol : Bytes → ℕ → Option Bytes
unfolding skip_ws
expect_symbol p symbol =
    let cur = skip_ws p in if not (peek cur == symbol) then none else some (next cur)

-- `value < 0 || value > 2147483647L`
abbrev pub int_in_range : Option (Bool × ℕ × Bytes) → Option (ℕ × Bytes)
int_in_range none = none
int_in_range (some (negative, value, end)) =
    if negative || ltb int_max value then none else some (value, end)

unfoldable pub parse_int_value : Bytes → Option (ℕ × Bytes)
unfolding skip_ws strtol
parse_int_value p = let cur = skip_ws p in if peek cur == 0 then none else int_in_range (strtol cur)

-- the loop of `parse_string_literal`, and the test for the quote behind it
unfoldable pub literal_loop : ℕ → Bytes → ℕ → Option (Bytes × Bytes)
literal_loop out_size [] len = none
literal_loop out_size (c ∷ cur) len =
    let rest = literal_loop out_size cur (suc len) in
    if c == b'\'' then some ([], cur) else if leb out_size (len + 1) then none else cons_word c rest

unfoldable pub parse_string_literal : Bytes → ℕ → Option (Bytes × Bytes)
unfolding literal_loop skip_ws
parse_string_literal p out_size =
    let cur = skip_ws p in
    if not (peek cur == b'\'') then none else literal_loop out_size (next cur) 0

unfoldable pub at_statement_end : Bytes → Bool
unfolding skip_ws
at_statement_end p =
    let p₁ = skip_ws p in let p₂ = if peek p₁ == b';' then skip_ws (next p₁) else p₁ in peek p₂ == 0

-- `read_word(&p, stmt->table, 32)` with the test that it is `users`
unfoldable pub read_table : Bytes → Parsed (Bytes × Bytes)
unfolding read_word strcasecmp_eq
read_table p = do
  (table, p₁) ← read_word p 32 or_fail "only table users is supported"
  guard (strcasecmp_eq table (codes "users")) "only table users is supported"
  ok (table, p₁)
