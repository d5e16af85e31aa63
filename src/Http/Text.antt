-- ===== src/Http/Text.antt =====
-- The text of an HTTP request: its lines, a blank line and the body.
use tryo.Prelude.{
  ℕ, ◌≤◌, ◌≡◌, false, ◌&&◌, List, [], ◌∷◌, ◌++◌, leb, ◌==◌, Bytes, codes, isspace, strncasecmp_eq,
  length,
}
use tryo.Prelude.Decimal.{decimal}
use tryo.Http.Request.{crlf}

-- the byte is not in the text
abbrev pub NoByte : ℕ → Bytes → Type 0
NoByte k [] = Unit
NoByte k (c ∷ s) = ((c == k) ≡ false) × NoByte k s

-- a line behind the first
pub record HeaderLine (l : Bytes) : Type 0 where
  pub some_byte : 1 ≤ length l
  pub no_cr : NoByte b'\r' l
  pub no_nul : NoByte 0 l

abbrev pub AllLines : List Bytes → Type 0
AllLines [] = Unit
AllLines (l ∷ ls) = HeaderLine l × AllLines ls

-- the lines, each with its end, in front of `rest`
unfoldable pub lines_text : List Bytes → Bytes → Bytes
lines_text [] rest = rest
lines_text (l ∷ ls) rest = l ++ (crlf ++ lines_text ls rest)

abbrev pub NoSpace : Bytes → Type 0
NoSpace [] = Unit
NoSpace (c ∷ s) = (isspace c ≡ false) × NoSpace s

-- a word of at most n bytes
pub record Word (n : ℕ) (w : Bytes) : Type 0 where
  pub some_byte : 1 ≤ length w
  pub fits : length w ≤ n
  pub no_space : NoSpace w
  pub no_nul : NoByte 0 w

abbrev pub request_line : Bytes → Bytes → Bytes
request_line method path = method ++ (32 ∷ (path ++ codes " HTTP/1.1"))

abbrev pub length_line : ℕ → Bytes
length_line n = codes "Content-Length: " ++ decimal n

-- header lines that do not give the length of the body
abbrev pub OtherLines : List Bytes → Type 0
OtherLines [] = Unit
OtherLines (l ∷ ls) =
    HeaderLine l
    × ((leb 15 (length l) && strncasecmp_eq l (codes "Content-Length:")) ≡ false)
    × OtherLines ls

-- a request whose body has the length that its header gives, with other lines before and behind
abbrev pub head_lines : Bytes → Bytes → List Bytes → ℕ → List Bytes → List Bytes
head_lines method path before n after = request_line method path ∷ (before ++ length_line n ∷ after)

pub NoByte-append : (k : ℕ) (a b : Bytes) → NoByte k a → NoByte k b → NoByte k (a ++ b)
NoByte-append k [] b h p = p
NoByte-append k (c ∷ a) b h p = (h.0, NoByte-append k a b h.1 p)
