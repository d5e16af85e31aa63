-- ===== src/Prelude/Text.antt =====
-- C strings and the functions of <ctype.h>, <string.h> and <stdlib.h> that the program calls, in the
-- "C" locale. A string is the list of its bytes before the terminating NUL; a pointer into it is the
-- list from there on, and `*p` is 0 at its end.
use Prim.Native.Nat.{ℕ, ◌+◌, ◌-◌, ◌*◌, ◌^◌, min}
use Prim.Native.Char.{code}
use Prim.Native.String.{String}
use mathlib.Core.Bool.{Bool, true, false, ◌&&◌, ◌||◌}
use mathlib.Core.List.{List, [], ◌∷◌}
use mathlib.Core.Option.{Option, none, some}
use tryo.Prelude.Tests.{ltb, leb, ◌==◌, if◌then◌else◌}

abbrev pub Bytes : Type 0
Bytes = List ℕ

-- the bytes of a literal, which is ASCII
abbrev pub codes : String → Bytes
codes String.[] = []
codes (String.◌∷◌ c s) = code c ∷ codes s

-- `*p`
abbrev pub peek : Bytes → ℕ
peek [] = 0
peek (c ∷ p) = c

-- `p + 1`
abbrev pub next : Bytes → Bytes
next [] = []
next (c ∷ p) = p

abbrev pub isspace : ℕ → Bool
isspace c = c == 32 || (leb 9 c && leb c 13)

abbrev pub isdigit : ℕ → Bool
isdigit c = leb b'0' c && leb c b'9'

abbrev pub isupper : ℕ → Bool
isupper c = leb b'A' c && leb c b'Z'

abbrev pub isalpha : ℕ → Bool
isalpha c = isupper c || (leb b'a' c && leb c b'z')

abbrev pub isalnum : ℕ → Bool
isalnum c = isalpha c || isdigit c

abbrev pub tolower : ℕ → ℕ
tolower c = if isupper c then c + 32 else c

-- `while (*p != '\0' && isspace(*p)) p++;`
unfoldable pub skip_ws : Bytes → Bytes
skip_ws [] = []
skip_ws (c ∷ p) = let rest = skip_ws p in if isspace c then rest else c ∷ p

-- strcmp(a, b) == 0
unfoldable pub strcmp_eq : Bytes → Bytes → Bool
strcmp_eq [] [] = true
strcmp_eq [] (y ∷ b) = false
strcmp_eq (x ∷ a) [] = false
strcmp_eq (x ∷ a) (y ∷ b) = let rest = strcmp_eq a b in if x == y then rest else false

-- strcasecmp(a, b) == 0
unfoldable pub strcasecmp_eq : Bytes → Bytes → Bool
strcasecmp_eq [] [] = true
strcasecmp_eq [] (y ∷ b) = false
strcasecmp_eq (x ∷ a) [] = false
strcasecmp_eq (x ∷ a) (y ∷ b) =
    let rest = strcasecmp_eq a b in if tolower x == tolower y then rest else false

-- strncasecmp(a, b, strlen(b)) == 0
unfoldable pub strncasecmp_eq : Bytes → Bytes → Bool
strncasecmp_eq a [] = true
strncasecmp_eq [] (y ∷ b) = false
strncasecmp_eq (x ∷ a) (y ∷ b) =
    let rest = strncasecmp_eq a b in if tolower x == tolower y then rest else false

-- whether `b` stands at the beginning of `a`
unfoldable pub starts_with : Bytes → Bytes → Bool
starts_with a [] = true
starts_with [] (y ∷ b) = false
starts_with (x ∷ a) (y ∷ b) = let rest = starts_with a b in if x == y then rest else false

-- strstr(a, b): the list from the first occurrence on
unfoldable pub strstr : Bytes → Bytes → Option Bytes
unfolding starts_with
strstr [] b = if starts_with [] b then some [] else none
strstr (x ∷ a) b = let rest = strstr a b in if starts_with (x ∷ a) b then some (x ∷ a) else rest

-- the number that the leading digits spell behind `n`, and what follows them
unfoldable pub read_digits : Bytes → ℕ → ℕ × Bytes
read_digits [] n = (n, [])
read_digits (c ∷ p) n =
    let rest = read_digits p (n * 10 + (c - b'0')) in if isdigit c then rest else (n, c ∷ p)

-- strtol(p, &end, 10): whether the value is below 0, its absolute value, and `end`; `none` is
-- `end == p`. Values out of range are clamped to LONG_MAX and LONG_MIN.
unfoldable pub strtol : Bytes → Option (Bool × ℕ × Bytes)
unfolding skip_ws read_digits
strtol p =
    let s = skip_ws p in
    let signed = peek s == b'-' || peek s == b'+' in
    let d = if signed then next s else s in
    let negative = peek s == b'-' in
    let limit = if negative then 2 ^ 63 else 2 ^ 63 - 1 in
    let (n, end) = read_digits d 0 in
    if isdigit (peek d) then some (negative && ltb 0 n, min n limit, end) else none
