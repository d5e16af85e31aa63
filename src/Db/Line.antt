-- ===== src/Db/Line.antt =====
-- A line of the data file of src/db.c, as it is written and read back.
use native.Mathlib.Nat.{pow-suc}
use tryo.Prelude.{
  ℕ, zero, suc, ◌+◌, ◌/◌, ◌%◌, ◌^◌, ◌≤◌, ◌<◌, ◌≡◌, refl, ◌∙◌, ap, Bool, true, false, ◌&&◌, not,
  some, [], ◌∷◌, ◌++◌, append_assoc, arith, ltb, leb, ◌==◌, Bytes, peek, isdigit, length,
  length-append, Bool-cases, inl, inr,
}
use tryo.Prelude.Decimal.{print_digits, decimal, strtol-decimal}
use tryo.Sql.{int_max, ok}
use tryo.Db.Rows.{Record}
use tryo.Db.Engine.{name_loop, name_is_valid, line_of}
use tryo.Db.Load.{fgets, as_int, scan_int, scan_chars, nonempty, parse_line}

pub record Storable (r : Record) : Type 0 where
  pub id_range : (1 ≤ r.id) × (r.id < int_max)
  pub age_range : r.age ≤ int_max
  pub name_ok : name_is_valid r.name ≡ true
  pub name_fits : length r.name ≤ 127

scan_int-decimal :
    (n : ℕ) (rest : Bytes)
    → n ≤ int_max
    → isdigit (peek rest) ≡ false
    → scan_int (decimal n ++ rest) ≡ some (false, n, rest)
unfolding scan_int
scan_int-decimal n rest h d =
    ap as_int (strtol-decimal n rest (omega arith) d) ∙ rw (small, low) refl
  where
    small : n % 2 ^ 32 ≡ n
    small = omega arith

    low : leb (2 ^ 31) n ≡ false
    low = ground arith

scan_chars-name :
    (n : ℕ) (name rest : Bytes)
    → name_loop name ≡ true
    → length name ≤ n
    → scan_chars n (name ++ b',' ∷ rest) ≡ (name, b',' ∷ rest)
unfolding scan_chars name_loop
scan_chars-name zero [] rest h q = refl
scan_chars-name (suc n) [] rest h q = refl
scan_chars-name zero (c ∷ name) rest h q = absurd (omega arith)
scan_chars-name (suc n) (c ∷ name) rest h q =
    let other : (c == b',') ≡ false = ground arith in
    rw (other, scan_chars-name n name rest (ground arith) (omega arith)) refl

-- no end of a line
unfoldable pub one_line : Bytes → Bool
one_line [] = true
one_line (c ∷ s) = not (c == b'\n') && one_line s

pub fgets-line :
    (n : ℕ) (line rest : Bytes)
    → one_line line ≡ true
    → length line < n
    → fgets n (line ++ b'\n' ∷ rest) ≡ (line ++ b'\n' ∷ [], rest)
unfolding fgets one_line
fgets-line zero line rest h q = absurd (omega arith)
fgets-line (suc n) [] rest h q = refl
fgets-line (suc n) (c ∷ line) rest h q =
    let other : (c == b'\n') ≡ false = ground arith in
    rw (other, fgets-line n line rest (ground arith) (omega arith)) refl

one_line-append : (s t : Bytes) → one_line (s ++ t) ≡ (one_line s && one_line t)
unfolding one_line
one_line-append [] t = refl
one_line-append (c ∷ s) t = ground (arith, one_line-append s t)

one_line-name : (name : Bytes) → name_loop name ≡ true → one_line name ≡ true
unfolding one_line name_loop
one_line-name [] h = refl
one_line-name (c ∷ name) h = ground (arith, one_line-name name)

one_line-print_digits :
    (f n : ℕ) (out : Bytes) → one_line out ≡ true → one_line (print_digits f n out) ≡ true
unfolding one_line print_digits
one_line-print_digits zero n out h = h
one_line-print_digits (suc f) n out h = elim (Bool-cases (ltb n 10)) [
  | inl small ↦ rw small (ground arith)
  | inr large ↦ rw large (one_line-print_digits f (n / 10) ((b'0' + n % 10) ∷ out) (ground arith))
]

one_line-decimal : (n : ℕ) → one_line (decimal n) ≡ true
unfolding decimal one_line
one_line-decimal n = one_line-print_digits (suc n) n [] refl

length-print_digits :
    (f n k : ℕ) (out : Bytes) → n < 10 ^ suc k → length (print_digits f n out) ≤ suc k + length out
unfolding print_digits
length-print_digits zero n k out h = omega arith
length-print_digits (suc f) n zero out h = ground arith
length-print_digits (suc f) n (suc k) out h = elim (Bool-cases (ltb n 10)) [
  | inl small ↦ rw small (omega arith)
  | inr large ↦ rw large (
      omega (
        arith,
        length-print_digits f (n / 10) k ((b'0' + n % 10) ∷ out)
            (omega (arith, (rw (pow-suc 10 (suc k)) at h))),
      ))
]

pub length-decimal : (n : ℕ) → n ≤ int_max → length (decimal n) ≤ 10
unfolding decimal
length-decimal n h = length-print_digits (suc n) n 9 [] (omega arith)

-- a line without its end
abbrev pub line_body : Record → Bytes
line_body r = decimal r.id ++ (b',' ∷ (r.name ++ (b',' ∷ decimal r.age)))

pub line_of-body : (r : Record) (rest : Bytes) → line_of r ++ rest ≡ line_body r ++ b'\n' ∷ rest
unfolding line_of
line_of-body r rest =
    append_assoc ((decimal r.id ++ (b',' ∷ r.name)) ++ (b',' ∷ decimal r.age)) (b'\n' ∷ []) rest
    ∙ ap (λ u. u ++ b'\n' ∷ rest)
        (append_assoc (decimal r.id) (b',' ∷ r.name) (b',' ∷ decimal r.age))

pub length-line_body : (r : Record) → Storable r → length (line_body r) < 511
length-line_body r s = omega (
  arith,
  length-append (decimal r.id) (b',' ∷ (r.name ++ (b',' ∷ decimal r.age))),
  length-append r.name (b',' ∷ decimal r.age),
  length-decimal r.id (omega (arith, s.id_range)),
  length-decimal r.age s.age_range,
  s.name_fits,
)

name_is_valid-loop : (name : Bytes) → name_is_valid name ≡ true → name_loop name ≡ true
unfolding name_is_valid
name_is_valid-loop [] h = cc
name_is_valid-loop (c ∷ name) h = h

pub line_body-one_line : (r : Record) → Storable r → one_line (line_body r) ≡ true
unfolding one_line
line_body-one_line r s =
    let tail : one_line (r.name ++ (b',' ∷ decimal r.age)) ≡ true =
      one_line-append r.name (b',' ∷ decimal r.age)
      ∙ rw (one_line-name r.name (name_is_valid-loop r.name s.name_ok), one_line-decimal r.age)
          refl in
    one_line-append (decimal r.id) (b',' ∷ (r.name ++ (b',' ∷ decimal r.age)))
    ∙ rw (one_line-decimal r.id, tail) refl

nonempty-valid :
    (name rest : Bytes) → name_is_valid name ≡ true → nonempty (name, rest) ≡ some (name, rest)
unfolding name_is_valid
nonempty-valid [] rest h = cc
nonempty-valid (c ∷ name) rest h = refl

line_body-append :
    (r : Record) (rest : Bytes)
    → line_body r ++ rest ≡ decimal r.id ++ (b',' ∷ (r.name ++ (b',' ∷ (decimal r.age ++ rest))))
line_body-append r rest =
    append_assoc (decimal r.id) (b',' ∷ (r.name ++ (b',' ∷ decimal r.age))) rest
    ∙ ap (λ u. decimal r.id ++ (b',' ∷ u)) (append_assoc r.name (b',' ∷ decimal r.age) rest)

pub parse_line-line : (r : Record) → Storable r → parse_line (line_body r ++ b'\n' ∷ []) ≡ ok r
unfolding parse_line
parse_line-line r s = rw (line_body-append r (b'\n' ∷ [])) (
    rw
      (
        scan_int-decimal r.id (b',' ∷ (r.name ++ (b',' ∷ (decimal r.age ++ (b'\n' ∷ [])))))
            (omega (arith, s.id_range)) refl,
        scan_chars-name 127 r.name (decimal r.age ++ (b'\n' ∷ []))
            (name_is_valid-loop r.name s.name_ok) s.name_fits,
      )
      (rw (nonempty-valid r.name _ s.name_ok)
        (rw (scan_int-decimal r.age (b'\n' ∷ []) s.age_range refl, s.name_ok, positive) refl)))
  where
    positive : (r.id == 0) ≡ false
    positive = ground (arith, s.id_range)

-- every allocation for a record that is loaded succeeds
