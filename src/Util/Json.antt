-- ===== src/Util/Json.antt =====
-- The body of a JSON string as the JSON standard reads it, written without regard to src/util.c.
-- A `\u` escape is read if its code point is below 256.
use tryo.Prelude.{
  ℕ, zero, suc, ◌+◌, ◌-◌, ◌*◌, ◌/◌, ◌%◌, ◌<◌, ◌≡◌, refl, Bool, Option, none, some, [], ◌∷◌, ◌++◌,
  arith, ltb, leb, ◌==◌, ◌||◌, ◌&&◌, if◌then◌else◌, Bytes,
}
use tryo.Util.Escape.{hex_digit, escape_byte, escape, escape_loop-escape, json_escape_dup}

unfoldable pub hex_value : ℕ → Option ℕ
hex_value c =
    if leb b'0' c && leb c b'9'
    then some (c - b'0')
    else if leb b'a' c && leb c b'f'
    then some (c - b'a' + 10)
    else none

unfoldable pub simple_escape : ℕ → Option ℕ
simple_escape c =
    if c == b'"'
    then some b'"'
    else if c == b'\\'
    then some b'\\'
    else if c == b'/'
    then some b'/'
    else if c == b'n'
    then some 10
    else if c == b'r'
    then some 13
    else if c == b't'
    then some 9
    else if c == b'b'
    then some 8
    else if c == b'f'
    then some 12
    else none

unfoldable pub push : ℕ → Option Bytes → Option Bytes
push c none = none
push c (some s) = some (c ∷ s)

-- where the reader stands: outside an escape, behind a backslash, or before the last digits of `\u`
-- with the value of the digits so far
pub data Mode : Type 0 where
  plain escaped : Mode
  hex : ℕ → ℕ → Mode

-- what a byte does: it is refused, it moves the reader, or it ends the spelling of a byte
pub data Outcome : Type 0 where
  refuse : Outcome
  go : Mode → Outcome
  emit : ℕ → Outcome

unfoldable pub read_byte : Mode → ℕ → Outcome
unfolding hex_value simple_escape
read_byte plain c =
    if c == b'\\' then go escaped else if c == b'"' || ltb c 0x20 then refuse else emit c
read_byte escaped c =
    if c == b'u' then go (hex 3 0) else elim (simple_escape c) [ none ↦ refuse | some d ↦ emit d ]
read_byte (hex zero v) c = elim (hex_value c) [
  | none ↦ refuse
  | some d ↦ (if ltb (v * 16 + d) 256 then emit (v * 16 + d) else refuse)
]
read_byte (hex (suc k) v) c = elim (hex_value c) [
  | none ↦ refuse
  | some d ↦ go (hex k (v * 16 + d))
]

at_end : Mode → Option Bytes
at_end plain = some []
at_end _ = none

unfoldable pub read_body : Mode → Bytes → Option Bytes
unfolding read_byte push at_end
read_body m [] = at_end m
read_body m (c ∷ s) = elim (read_byte m c) [
  | refuse ↦ none
  | go m' ↦ read_body m' s
  | emit d ↦ push d (read_body plain s)
]

hex_value-hex_digit : (d : ℕ) → d < 16 → hex_value (hex_digit d) ≡ some d
unfolding hex_value hex_digit
hex_value-hex_digit d h = ground arith

read_control :
    (ch : ℕ) (s : Bytes)
    → ch < 0x20
    → read_body (hex 1 0) (hex_digit (ch / 16) ∷ hex_digit (ch % 16) ∷ s)
      ≡ push ch (read_body plain s)
unfolding read_body
read_control ch s h = ground (arith, hex_value-hex_digit (ch / 16), hex_value-hex_digit (ch % 16))

-- the bytes that escape themselves by one letter, or need no escape
read-escape_byte :
    (ch : ℕ) (s : Bytes) → read_body plain (escape_byte ch ++ s) ≡ push ch (read_body plain s)
unfolding escape_byte read_body
read-escape_byte ch s = ground (arith, read_control ch s)

pub read-escape : (s : Bytes) → read_body plain (escape s) ≡ some s
unfolding escape push
read-escape [] = unfold read_body in refl
read-escape (ch ∷ s) = rw (read-escape_byte ch (escape s), read-escape s)

-- What `json_escape_dup` returns is the body of a JSON string, and it spells the input: a reader
-- that keeps to the JSON standard gets every byte back.
pub json_escape_dup-spells :
    (malloc : ℕ → Bool) (input : Bytes) {out : Bytes}
    → json_escape_dup malloc input ≡ some out
    → read_body plain out ≡ some input
unfolding json_escape_dup
json_escape_dup-spells malloc input {out} h =
    ground (arith, escape_loop-escape input [], read-escape input)
