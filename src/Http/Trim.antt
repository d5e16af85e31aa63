-- ===== src/Http/Trim.antt =====
-- `copy_raw_sql` cuts white space at both ends and nothing else; and nothing that `http_extract_sql`
-- gives is too long for the buffer.
use tryo.Prelude.{
  ℕ, suc, ◌+◌, ◌<◌, ◌≡◌, refl, ◌∙◌, ap, Bool, true, false, ◌&&◌, [], ◌∷◌, ◌++◌, arith, ltb, leb,
  ◌==◌, Bytes, codes, peek, next, isspace, skip_ws, strstr, length, drop, Bool-cases, Option-cases,
  inl, inr, ◌⊎◌, ◌≤◌,
}
use tryo.Sql.{Parsed, ok, fail}
use tryo.Sql.Ensures.{Ensures, returns, fails, Ensures-bind, Ensures-guard, Ensures-ok, any_step}
use tryo.Http.Extract.{
  trim_cons, trim_end, copy_raw_sql, unescape, cons_sql, string_loop, extract_json_sql,
  http_extract_sql,
}

unfoldable pub all_space : Bytes → Bool
all_space [] = true
all_space (c ∷ s) = isspace c && all_space s

skip_ws-split : (p : Bytes) → (pre : Bytes) × (all_space pre ≡ true) × (p ≡ pre ++ skip_ws p)
unfolding all_space skip_ws
skip_ws-split [] = ([], refl, refl)
skip_ws-split (c ∷ p) = elim (Bool-cases (isspace c)) [
  | inl space ↦
      (let (pre, h, e) = skip_ws-split p in
        (c ∷ pre, rw (space, h) refl, rw space (ap (λ q. c ∷ q) e)))
  | inr other ↦ ([], refl, rw other refl)
]

skip_ws_idem : (p : Bytes) → skip_ws (skip_ws p) ≡ skip_ws p
unfolding skip_ws
skip_ws_idem [] = refl
skip_ws_idem (c ∷ p) = elim (Bool-cases (isspace c)) [
  | inl space ↦ rw space (skip_ws_idem p)
  | inr other ↦ rw other (rw other refl)
]

-- what `trim_cons` makes of a text that has no space at its end
trim_cons-split :
    (c : ℕ) (p t post : Bytes)
    → all_space post ≡ true
    → p ≡ t ++ post
    → (post' : Bytes) × (all_space post' ≡ true) × (c ∷ p ≡ trim_cons c t ++ post')
unfolding all_space
trim_cons-split c p (d ∷ t) post h e = (post, h, ap (λ q. c ∷ q) e)
trim_cons-split c p [] post h e = elim (Bool-cases (isspace c)) [
  | inl space ↦ (c ∷ p, rw (space, e, h) refl, rw space refl)
  | inr other ↦ (post, h, rw other (ap (λ q. c ∷ q) e))
]

trim_end-split : (p : Bytes) → (post : Bytes) × (all_space post ≡ true) × (p ≡ trim_end p ++ post)
unfolding trim_end
trim_end-split [] = ([], unfold all_space in refl, refl)
trim_end-split (c ∷ p) =
    let (post, h, e) = trim_end-split p in trim_cons-split c p (trim_end p) post h e

-- the last byte is not white space
pub record EndsDark (sql : Bytes) : Type 0 where
  pub front : Bytes
  pub last_byte : ℕ
  pub split : sql ≡ front ++ last_byte ∷ []
  pub dark : isspace last_byte ≡ false

trim_cons-EndsDark :
    (c : ℕ) (t : Bytes) → (t ≡ []) ⊎ EndsDark t → (trim_cons c t ≡ []) ⊎ EndsDark (trim_cons c t)
trim_cons-EndsDark c [] h = elim (Bool-cases (isspace c)) [
  | inl space ↦ rw space (inl refl)
  | inr other ↦ rw other (inr (record { front = []; last_byte = c; split = refl; dark = other }))
]
trim_cons-EndsDark c (d ∷ t) (inl e) = cc e
trim_cons-EndsDark c (d ∷ t) (inr h) = inr (record {
  front = c ∷ h.front;
  last_byte = h.last_byte;
  split = ap (λ u. c ∷ u) h.split;
  dark = h.dark;
})

trim_end-EndsDark : (p : Bytes) → (trim_end p ≡ []) ⊎ EndsDark (trim_end p)
unfolding trim_end
trim_end-EndsDark [] = inl refl
trim_end-EndsDark (c ∷ p) = trim_cons-EndsDark c (trim_end p) (trim_end-EndsDark p)

not_empty : (sql : Bytes) → (sql ≡ []) ⊎ EndsDark sql → 0 < length sql → EndsDark sql
not_empty sql (inl e) h = absurd (omega (arith, ap length e, h))
not_empty sql (inr d) h = d

-- the first byte is not white space
pub record StartsDark (sql : Bytes) : Type 0 where
  pub first_byte : ℕ
  pub back : Bytes
  pub split : sql ≡ first_byte ∷ back
  pub dark : isspace first_byte ≡ false

length-skip_ws : (p : Bytes) → length (skip_ws p) ≤ length p
unfolding skip_ws
length-skip_ws [] = omega arith
length-skip_ws (c ∷ p) = ground (arith, length-skip_ws p)

skip_ws-dark : (c : ℕ) (p : Bytes) → skip_ws (c ∷ p) ≡ c ∷ p → isspace c ≡ false
unfolding skip_ws
skip_ws-dark c p h = elim (Bool-cases (isspace c)) [
  | inr other ↦ other
  | inl space ↦ absurd (omega (arith, length-skip_ws p, ap length (rw space at h)))
]

skip_ws-StartsDark : (sql : Bytes) → skip_ws sql ≡ sql → 0 < length sql → StartsDark sql
skip_ws-StartsDark [] h n = absurd (omega arith)
skip_ws-StartsDark (c ∷ p) h n = record {
  first_byte = c;
  back = p;
  split = refl;
  dark = skip_ws-dark c p h;
}

trim_end-first : (c : ℕ) (t : Bytes) → isspace c ≡ false → skip_ws (trim_cons c t) ≡ trim_cons c t
unfolding skip_ws
trim_end-first c [] h = rw h (rw h refl)
trim_end-first c (d ∷ t) h = rw h refl

skip_ws-trim_end : (p : Bytes) → skip_ws (trim_end (skip_ws p)) ≡ trim_end (skip_ws p)
unfolding skip_ws trim_end
skip_ws-trim_end [] = refl
skip_ws-trim_end (c ∷ p) = elim (Bool-cases (isspace c)) [
  | inl space ↦ rw space (skip_ws-trim_end p)
  | inr other ↦ rw other (trim_end-first c (trim_end p) other)
]

-- the text of a body without the white space at its ends
pub record Trimmed (body : Bytes) (sql_size : ℕ) (sql : Bytes) : Type 0 where
  pub before : Bytes
  pub after : Bytes
  pub split : body ≡ before ++ (sql ++ after)
  pub before_space : all_space before ≡ true
  pub after_space : all_space after ≡ true
  pub starts : StartsDark sql
  pub ends : EndsDark sql
  pub fits : length sql < sql_size

trimmed :
    (body : Bytes) (sql_size : ℕ)
    → 0 < length (trim_end (skip_ws body))
    → length (trim_end (skip_ws body)) < sql_size
    → Trimmed body sql_size (trim_end (skip_ws body))
trimmed body sql_size p q =
    let (pre, h, e) = skip_ws-split body in
    let (post, k, f) = trim_end-split (skip_ws body) in
    record {
      before = pre;
      after = post;
      split = e ∙ ap (λ t. pre ++ t) f;
      before_space = h;
      after_space = k;
      starts = skip_ws-StartsDark _ (skip_ws-trim_end body) p;
      ends = not_empty _ (trim_end-EndsDark (skip_ws body)) p;
      fits = q;
    }

-- The body is the text that `copy_raw_sql` gives with white space in front and behind, where the
-- first and the last byte of the text are not white space, and the buffer has room for the text and
-- its NUL.
pub copy_raw_sql-Trimmed :
    (body : Bytes) (sql_size : ℕ) {sql : Bytes}
    → copy_raw_sql body sql_size ≡ ok sql
    → Trimmed body sql_size sql
unfolding copy_raw_sql
copy_raw_sql-Trimmed body sql_size {sql} h =
    elim (Bool-cases (length (trim_end (skip_ws body)) == 0)) [
      | inl empty ↦ cc (rw empty at h)
      | inr some_text ↦ (elim (Bool-cases (ltb sql_size (length (trim_end (skip_ws body)) + 1))) [
        | inl long ↦ cc (rw (some_text, long) at h)
        | inr short ↦
            (let same : trim_end (skip_ws body) ≡ sql = cc (rw (some_text, short) at h) in
              rw (← same) (trimmed body sql_size (ground arith) (ground arith)))
      ])
    ]

cons_sql-fits :
    (c len n : ℕ) (m : Parsed Bytes)
    → Ensures (λ sql. suc len + length sql < n) m
    → Ensures (λ sql. len + length sql < n) (cons_sql c m)
cons_sql-fits c len n (ok sql) (returns _ h) = returns _ (omega arith)
cons_sql-fits c len n (fail m) h = fails m

string_loop-fits :
    (n : ℕ) (p : Bytes) (escaping : Bool) (len : ℕ)
    → len < n
    → Ensures (λ sql. len + length sql < n) (string_loop n p escaping len)
unfolding string_loop
string_loop-fits n [] true len h = fails _
string_loop-fits n [] false len h = fails _
string_loop-fits n (c ∷ p) true len h = elim (Option-cases (unescape c)) [
  | inl unknown ↦ rw (unknown, string_loop) (fails _)
  | inr (ch, e) ↦ (elim (Bool-cases (leb n (len + 1))) [
    | inl full ↦ rw (e, string_loop, full, string_loop) (fails _)
    | inr room ↦
        rw (e, string_loop, room, string_loop)
          (cons_sql-fits ch len n _ (string_loop-fits n p false (suc len) (ground arith)))
  ])
]
string_loop-fits n (c ∷ p) false len h = elim (Bool-cases (c == b'"')) [
  | inl quote ↦ rw (quote, string_loop) (returns _ (omega arith))
  | inr n₁ ↦ (elim (Bool-cases (c == b'\\')) [
    | inl backslash ↦ rw (n₁, string_loop, backslash, string_loop) (string_loop-fits n p true len h)
    | inr n₂ ↦ (elim (Bool-cases (leb n (len + 1))) [
      | inl full ↦ rw (n₁, string_loop, n₂, string_loop, full, string_loop) (fails _)
      | inr room ↦
          rw (n₁, string_loop, n₂, string_loop, room, string_loop)
            (cons_sql-fits c len n _ (string_loop-fits n p false (suc len) (ground arith)))
    ])
  ])
]

from_zero :
    {n : ℕ} {m : Parsed Bytes}
    → Ensures (λ sql. 0 + length sql < n) m
    → Ensures (λ sql. length sql < n) m
from_zero (returns a h) = returns a (omega arith)
from_zero (fails m) = fails m

extract_json_sql-fits :
    (body : Bytes) (n : ℕ) → 0 < n → Ensures (λ sql. length sql < n) (extract_json_sql body n)
unfolding extract_json_sql
extract_json_sql-fits body n h =
    Ensures-bind _ (any_step (strstr body (codes "\"sql\"")) _) λ key _.
      Ensures-bind _ (Ensures-guard (peek (skip_ws (drop 5 key)) == b':') _) λ _ _.
        Ensures-bind _ (Ensures-guard (peek (skip_ws (next (skip_ws (drop 5 key)))) == b'"') _)
          λ _ _. from_zero (string_loop-fits n _ false 0 h)

-- Whatever the body, the text that `http_extract_sql` gives fits with its NUL into a buffer that is
-- not empty.
pub http_extract_sql-fits :
    (body : Bytes) (sql_size : ℕ) {sql : Bytes}
    → 0 < sql_size
    → http_extract_sql body sql_size ≡ ok sql
    → length sql < sql_size
unfolding http_extract_sql
http_extract_sql-fits body sql_size h e = elim (Bool-cases (peek (skip_ws body) == b'{')) [
  | inl json ↦ Ensures-ok _ _ (rw json at e) (extract_json_sql-fits body sql_size h)
  | inr raw ↦ (copy_raw_sql-Trimmed body sql_size (rw raw at e)).fits
]
