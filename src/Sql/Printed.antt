-- ===== src/Sql/Printed.antt =====
-- The lexical functions of src/sql.c on the printed parts of a statement.
use tryo.Prelude.{
  ℕ, suc, ◌+◌, ◌≤◌, ◌<◌, ◌≡◌, refl, false, some, [], ◌∷◌, ◌++◌, arith, ltb, leb, ◌==◌, Bytes, peek,
  isdigit, length,
}
use tryo.Prelude.Decimal.{decimal, decimal-isdigit, skip_ws-digit, strtol-decimal}
use tryo.Sql.{db_name_max, int_max, parse_int_value, literal_loop, parse_string_literal}
use tryo.Sql.Command.{quoted}
use tryo.Sql.Ensures.{NoQuote, Literal}

pub parse_int_value-decimal :
    (n : ℕ) (rest : Bytes)
    → n ≤ int_max
    → isdigit (peek rest) ≡ false
    → parse_int_value (decimal n ++ rest) ≡ some (n, rest)
unfolding parse_int_value
parse_int_value-decimal n rest h d =
    let digit = decimal-isdigit n rest in
    let full : (peek (decimal n ++ rest) == 0) ≡ false = ground arith in
    let small : ltb int_max n ≡ false = ground arith in
    rw (skip_ws-digit (decimal n ++ rest) digit, full, strtol-decimal n rest (omega arith) d, small)
      refl

literal_loop-quote :
    (n : ℕ) (s rest : Bytes) (len : ℕ)
    → len + length s < n
    → NoQuote s
    → literal_loop n (s ++ b'\'' ∷ rest) len ≡ some (s, rest)
unfolding literal_loop
literal_loop-quote n [] rest len h q = refl
literal_loop-quote n (c ∷ s) rest len h q =
    let room : leb n (len + 1) ≡ false = ground arith in
    rw (q.0, room, literal_loop-quote n s rest (suc len) (omega arith) q.1) refl

pub parse_string_literal-quoted :
    (s rest : Bytes) → Literal s → parse_string_literal (quoted s rest) db_name_max ≡ some (s, rest)
unfolding parse_string_literal
parse_string_literal-quoted s rest h = literal_loop-quote 128 s rest 0 (omega arith) h.1

pub int-space :
    (n : ℕ) (rest : Bytes)
    → n ≤ int_max
    → isdigit (peek rest) ≡ false
    → parse_int_value (32 ∷ (decimal n ++ rest)) ≡ some (n, rest)
unfolding parse_int_value
int-space n rest h d = parse_int_value-decimal n rest h d

pub string-space :
    (s rest : Bytes)
    → Literal s
    → parse_string_literal (32 ∷ quoted s rest) db_name_max ≡ some (s, rest)
unfolding parse_string_literal
string-space s rest h = parse_string_literal-quoted s rest h
