-- ===== src/Prelude/Decimal.antt =====
-- The decimal print of a number, `%d` and `%zu` of `printf`, and its reading by `strtol`.
use Prim.Native.Nat.{min}
use tryo.Prelude.{
  ℕ, zero, suc, ◌+◌, ◌-◌, ◌*◌, ◌/◌, ◌%◌, ◌^◌, ◌<◌, ◌≡◌, refl, ◌∙◌, ap, true, false, some, [], ◌∷◌,
  ◌++◌, arith, ltb, ◌==◌, if◌then◌else◌, Bytes, peek, isdigit, skip_ws, read_digits, strtol,
  Bool-cases, inl, inr, ltb→lt, ltb→ge, le→leb,
}

-- the digits of `n`, from the last to the first, in front of `out`
unfoldable pub print_digits : ℕ → ℕ → Bytes → Bytes
print_digits zero n out = out
print_digits (suc f) n out =
    let rest = print_digits f (n / 10) ((b'0' + n % 10) ∷ out) in
    if ltb n 10 then (b'0' + n) ∷ out else rest

-- a number has fewer digits than its successor counts
unfoldable pub decimal : ℕ → Bytes
unfolding print_digits
decimal n = print_digits (suc n) n []

print_digits-append :
    (f n : ℕ) (out rest : Bytes) → print_digits f n out ++ rest ≡ print_digits f n (out ++ rest)
unfolding print_digits
print_digits-append zero n out rest = refl
print_digits-append (suc f) n out rest =
    ground (arith, print_digits-append f (n / 10) ((b'0' + n % 10) ∷ out) rest)

digit :
    (d acc : ℕ) (s : Bytes)
    → d < 10
    → read_digits ((b'0' + d) ∷ s) acc ≡ read_digits s (acc * 10 + d)
unfolding read_digits
digit d acc s h =
    let e : b'0' + d - b'0' ≡ d = omega arith in
    rw (le→leb b'0' (b'0' + d) (omega arith), le→leb (b'0' + d) b'9' (omega arith), e) refl

read-print_digits :
    (f n : ℕ) (out : Bytes) → n < f → read_digits (print_digits f n out) 0 ≡ read_digits out n
unfolding print_digits
read-print_digits zero n out h = absurd (omega arith)
read-print_digits (suc f) n out h = elim (Bool-cases (ltb n 10)) [
  | inl small ↦ rw small (digit n 0 out (ltb→lt _ _ small) ∙ ap (read_digits out) (omega arith))
  | inr large ↦
      (let n' = ltb→ge _ _ large in
        rw large (
          read-print_digits f (n / 10) ((b'0' + n % 10) ∷ out) (omega arith)
          ∙ digit (n % 10) (n / 10) out (omega arith)
          ∙ ap (read_digits out) (omega arith)))
]

-- the first byte is a digit
print_digits-isdigit :
    (f n : ℕ) (out : Bytes) → n < f → isdigit (peek (print_digits f n out)) ≡ true
unfolding print_digits
print_digits-isdigit zero n out h = absurd (omega arith)
print_digits-isdigit (suc f) n out h =
    ground (arith, print_digits-isdigit f (n / 10) ((b'0' + n % 10) ∷ out))

pub decimal-isdigit : (n : ℕ) (rest : Bytes) → isdigit (peek (decimal n ++ rest)) ≡ true
unfolding decimal
decimal-isdigit n rest =
    rw (print_digits-append (suc n) n [] rest) (print_digits-isdigit (suc n) n rest (omega arith))

pub read_digits-decimal :
    (n : ℕ) (rest : Bytes)
    → isdigit (peek rest) ≡ false
    → read_digits (decimal n ++ rest) 0 ≡ (n, rest)
unfolding decimal
read_digits-decimal n rest h =
    rw (print_digits-append (suc n) n [] rest)
      (read-print_digits (suc n) n rest (omega arith) ∙ stop rest h)
  where
    stop : (s : Bytes) → isdigit (peek s) ≡ false → read_digits s n ≡ (n, s)
    stop [] e = unfold read_digits in refl
    stop (c ∷ s) e = unfold read_digits in rw e refl

pub skip_ws-digit : (s : Bytes) → isdigit (peek s) ≡ true → skip_ws s ≡ s
unfolding skip_ws
skip_ws-digit [] h = refl
skip_ws-digit (c ∷ s) h = ground arith

strtol_unsigned :
    (t rest : Bytes) (n : ℕ)
    → isdigit (peek t) ≡ true
    → read_digits t 0 ≡ (n, rest)
    → strtol t ≡ some (false, min n (2 ^ 63 - 1), rest)
unfolding strtol
strtol_unsigned t rest n h r =
    let minus : (peek t == b'-') ≡ false = ground arith in
    let plus : (peek t == b'+') ≡ false = ground arith in
    rw (skip_ws-digit t h) (rw (minus, plus, h, r) refl)

-- `strtol` reads a printed number back, if no digit follows it
pub strtol-decimal :
    (n : ℕ) (rest : Bytes)
    → n < 2 ^ 63
    → isdigit (peek rest) ≡ false
    → strtol (decimal n ++ rest) ≡ some (false, n, rest)
unfolding strtol
strtol-decimal n rest h d =
    strtol_unsigned (decimal n ++ rest) rest n (decimal-isdigit n rest)
      (read_digits-decimal n rest d)
    ∙ ap (λ (k : ℕ). some (false, k, rest)) (omega arith)
