-- ===== src/Main.antt =====
-- The command line, src/main.c.
mod Tests
use tryo.Prelude.{
  ℕ, ◌≤◌, ◌<◌, ◌≡◌, refl, sym, ◌∙◌, ap, Bool, true, false, ◌||◌, not, Option, none, some, List, [],
  ◌∷◌, ◌++◌, append-nil, arith, ltb, leb, ◌==◌, if◌then◌else◌, Bytes, codes, peek, strtol,
  Bool-cases, inl, inr,
}
use tryo.Prelude.Decimal.{decimal, strtol-decimal}

-- `*end != '\0' || value <= 0 || value > 65535`, and `end == text` in the first clause
abbrev pub int_arg : Option (Bool × ℕ × Bytes) → ℕ → ℕ
int_arg none fallback = fallback
int_arg (some (negative, value, end)) fallback =
    if not (peek end == 0) || (negative || value == 0) || ltb 65535 value then fallback else value

unfoldable pub parse_int_arg : Bytes → ℕ → ℕ
parse_int_arg text fallback = int_arg (strtol text) fallback

pub record ServerConfig : Type 0 where
  pub port : ℕ
  pub thread_count : ℕ
  pub data_path : Bytes

-- the configuration that `main` hands to `server_run`; the arguments are `argv[1]` and on
unfoldable pub config_of : List Bytes → ServerConfig
config_of [] = record { port = 8080; thread_count = 4; data_path = codes "data/users.csv" }
config_of (port ∷ []) = record {
  port = parse_int_arg port 8080;
  thread_count = 4;
  data_path = codes "data/users.csv";
}
config_of (port ∷ threads ∷ []) = record {
  port = parse_int_arg port 8080;
  thread_count = parse_int_arg threads 4;
  data_path = codes "data/users.csv";
}
config_of (port ∷ threads ∷ data_path ∷ rest) = record {
  port = parse_int_arg port 8080;
  thread_count = parse_int_arg threads 4;
  data_path = data_path;
}

abbrev pub InRange : ℕ → Type 0
InRange n = (1 ≤ n) × (n ≤ 65535)

int_arg-InRange :
    (o : Option (Bool × ℕ × Bytes)) (fallback : ℕ) → InRange fallback → InRange (int_arg o fallback)
int_arg-InRange none fallback h = h
int_arg-InRange (some (negative, value, end)) fallback h = ground arith

parse_int_arg-InRange :
    (text : Bytes) (fallback : ℕ) → InRange fallback → InRange (parse_int_arg text fallback)
unfolding parse_int_arg
parse_int_arg-InRange text fallback h = int_arg-InRange (strtol text) fallback h

-- Whatever the arguments, the port and the number of threads are from 1 to 65535, so that the thread
-- pool is never asked for no threads.
pub config_of-InRange :
    (args : List Bytes) → InRange (config_of args).port × InRange (config_of args).thread_count
unfolding config_of
config_of-InRange [] = ((omega arith, omega arith), (omega arith, omega arith))
config_of-InRange (p ∷ []) =
    (parse_int_arg-InRange p 8080 (omega arith, omega arith), (omega arith, omega arith))
config_of-InRange (p ∷ t ∷ []) = (
  parse_int_arg-InRange p 8080 (omega arith, omega arith),
  parse_int_arg-InRange t 4 (omega arith, omega arith),
)
config_of-InRange (p ∷ t ∷ d ∷ rest) = (
  parse_int_arg-InRange p 8080 (omega arith, omega arith),
  parse_int_arg-InRange t 4 (omega arith, omega arith),
)

-- An argument that is the decimal print of a number from 1 to 65535 is taken as that number.
pub parse_int_arg-decimal : (n fallback : ℕ) → InRange n → parse_int_arg (decimal n) fallback ≡ n
unfolding parse_int_arg
parse_int_arg-decimal n fallback h =
    ap (λ t. int_arg (strtol t) fallback) (sym (append-nil (decimal n)))
    ∙ ap (λ o. int_arg o fallback) (strtol-decimal n [] (omega arith) refl)
    ∙ ground arith
