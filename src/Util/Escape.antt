-- ===== src/Util/Escape.antt =====
-- `json_escape_dup` of src/util.c.
use tryo.Prelude.{
  ℕ, ◌+◌, ◌-◌, ◌*◌, ◌/◌, ◌%◌, ◌^◌, ◌≤◌, ◌≡◌, ◌∙◌, Bool, Option, none, some, [], ◌∷◌, ◌++◌,
  append_assoc, append-nil, arith, length, length-append, ltb, ◌==◌, if◌then◌else◌, Bytes,
}

abbrev pub size_max : ℕ
size_max = 2 ^ 64 - 1

-- a digit of `%04x`
unfoldable pub hex_digit : ℕ → ℕ
hex_digit d = if ltb d 10 then b'0' + d else b'a' + (d - 10)

-- What one round of the loop writes for the byte. `snprintf` with `%04x` on a byte does not fail,
-- so its negative result has no branch.
unfoldable pub escape_byte : ℕ → Bytes
unfolding hex_digit
escape_byte ch =
    if ch == b'"'
    then b'\\' ∷ b'"' ∷ []
    else if ch == b'\\'
    then b'\\' ∷ b'\\' ∷ []
    else if ch == 10
    then b'\\' ∷ b'n' ∷ []
    else if ch == 13
    then b'\\' ∷ b'r' ∷ []
    else if ch == 9
    then b'\\' ∷ b't' ∷ []
    else if ltb ch 0x20
    then b'\\' ∷ b'u' ∷ b'0' ∷ b'0' ∷ hex_digit (ch / 16) ∷ hex_digit (ch % 16) ∷ []
    else ch ∷ []

-- `out` holds what is written so far
unfoldable pub escape_loop : Bytes → Bytes → Bytes
unfolding escape_byte
escape_loop [] out = out
escape_loop (ch ∷ input) out = escape_loop input (out ++ escape_byte ch)

-- `malloc n` tells whether the allocation of n bytes succeeds; `none` is NULL.
unfoldable pub json_escape_dup : (ℕ → Bool) → Bytes → Option Bytes
unfolding escape_loop
json_escape_dup malloc input =
    if ltb ((size_max - 1) / 6) (length input)
    then none
    else if malloc (length input * 6 + 1)
    then some (escape_loop input [])
    else none

-- the loop without its accumulator
unfoldable pub escape : Bytes → Bytes
unfolding escape_byte
escape [] = []
escape (ch ∷ s) = escape_byte ch ++ escape s

pub escape_loop-escape : (s out : Bytes) → escape_loop s out ≡ out ++ escape s
unfolding escape_loop escape
escape_loop-escape [] out = rw append-nil
escape_loop-escape (ch ∷ s) out =
    escape_loop-escape s (out ++ escape_byte ch) ∙ append_assoc out (escape_byte ch) (escape s)

length-escape_byte : (ch : ℕ) → length (escape_byte ch) ≤ 6
unfolding escape_byte
length-escape_byte ch = ground arith

pub length-escape : (s : Bytes) → length (escape s) ≤ length s * 6
unfolding escape
length-escape [] = omega arith
length-escape (ch ∷ s) =
    omega (arith, length-append (escape_byte ch) (escape s), length-escape_byte ch, length-escape s)

-- What `json_escape_dup` returns fits, with its NUL, into the memory that it asked for, and that
-- size did not wrap around.
pub json_escape_dup_fits :
    (malloc : ℕ → Bool) (input : Bytes) {out : Bytes}
    → json_escape_dup malloc input ≡ some out
    → (length out + 1 ≤ length input * 6 + 1) × (length input * 6 + 1 ≤ size_max)
unfolding json_escape_dup
json_escape_dup_fits malloc input {out} h =
    ground (arith, escape_loop-escape input [], length-escape input)
