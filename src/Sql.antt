-- ===== src/Sql.antt =====
-- src/sql.c and include/sql.h: the SQL parser. A parsing function that moves `*p` and returns 0 or 1
-- is a function from the text at `*p` to its result and the text at the new `*p`, or `none`; what a
-- function leaves in `*p` when it returns 0 is not used by its callers. The message that `set_err`
-- writes is the argument of `fail`.
mod Statement
mod Lexical
mod Insert
mod Select
unfoldable pub use Statement.*
unfoldable pub use Lexical.*
unfoldable pub use Insert.*
unfoldable pub use Select.*
pub mod Ensures
pub mod Columns
pub mod Bounds
pub mod Command
mod Printed
mod PrintedColumns
pub mod Language
pub mod RoundTrip
mod Tests
use tryo.Prelude.{
  ℕ, zero, suc, ◌+◌, ◌-◌, ◌≤◌, Bool, true, false, ◌&&◌, ◌||◌, not, Option, none, some, List, [],
  ◌∷◌, ◌++◌, ltb, leb, ◌==◌, if◌then◌else◌, Bytes, codes, peek, next, isalpha, isalnum, skip_ws,
  strcasecmp_eq, strncasecmp_eq, strtol, length,
}

unfoldable pub sql_parse : Bytes → Parsed SqlStatement
unfolding skip_ws strncasecmp_eq parse_insert parse_select
sql_parse sql =
    let p = skip_ws sql in
    if peek p == 0
    then fail "empty SQL"
    else if strncasecmp_eq p (codes "INSERT")
    then parse_insert zeroed p
    else if strncasecmp_eq p (codes "SELECT")
    then parse_select zeroed p
    else fail "only INSERT and SELECT are supported"
