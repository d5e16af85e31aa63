-- ===== src/Http/Body.antt =====
-- What `http_extract_sql` gives for a body.
use tryo.Prelude.{
  ℕ, suc, ◌+◌, ◌<◌, ◌≡◌, refl, ◌∙◌, ap, Bool, true, false, ◌&&◌, ◌||◌, some, [], ◌∷◌, ◌++◌,
  append_assoc, arith, ltb, leb, ◌==◌, Bytes, codes, skip_ws, strstr, starts_with, length,
  Bool-cases, inl, inr,
}
use tryo.Sql.{ok}
use tryo.Util.Escape.{escape_byte, escape}
use tryo.Http.Extract.{unescape, cons_sql, string_loop, extract_json_sql, http_extract_sql}

-- a byte that needs no `\u` escape
abbrev pub textual : ℕ → Bool
textual c = leb 32 c || c == 9 || c == 10 || c == 13

unfoldable pub all_textual : Bytes → Bool
all_textual [] = true
all_textual (c ∷ s) = textual c && all_textual s

-- how `string_loop` reads the byte back
data Spelled (ch : ℕ) : Bytes → Type 0 where
  as_it_is : (ch == b'"') ≡ false → (ch == b'\\') ≡ false → Spelled ch (ch ∷ [])
  escaped : (e : ℕ) → unescape e ≡ some ch → Spelled ch (b'\\' ∷ e ∷ [])

escape_byte-Spelled : (ch : ℕ) → textual ch ≡ true → Spelled ch (escape_byte ch)
unfolding escape_byte unescape
escape_byte-Spelled ch t = elim (Bool-cases (ch == b'"')) [
  | inl quote ↦ rw quote (escaped b'"' (ground arith))
  | inr n₁ ↦ (elim (Bool-cases (ch == b'\\')) [
    | inl backslash ↦ rw (n₁, backslash) (escaped b'\\' (ground arith))
    | inr n₂ ↦ (elim (Bool-cases (ch == 10)) [
      | inl newline ↦ rw (n₁, n₂, newline) (escaped b'n' (ground arith))
      | inr n₃ ↦ (elim (Bool-cases (ch == 13)) [
        | inl return ↦ rw (n₁, n₂, n₃, return) (escaped b'r' (ground arith))
        | inr n₄ ↦ (elim (Bool-cases (ch == 9)) [
          | inl tab ↦ rw (n₁, n₂, n₃, n₄, tab) (escaped b't' (ground arith))
          | inr n₅ ↦
              (let large : ltb ch 32 ≡ false = ground arith in
                rw (n₁, n₂, n₃, n₄, n₅, large) (as_it_is n₁ n₂))
        ])
      ])
    ])
  ])
]

string_loop-Spelled :
    (sql_size ch len : ℕ) (s p : Bytes)
    → Spelled ch s
    → len + 1 < sql_size
    → string_loop sql_size (s ++ p) false len ≡ cons_sql ch (string_loop sql_size p false (suc len))
unfolding string_loop
string_loop-Spelled sql_size ch len _ p (as_it_is q b) h =
    let room : leb sql_size (len + 1) ≡ false = ground arith in
    rw (q, string_loop, b, string_loop, room, string_loop) refl
string_loop-Spelled sql_size ch len _ p (escaped e u) h =
    let room : leb sql_size (len + 1) ≡ false = ground arith in
    rw (u, string_loop, room, string_loop) refl

string_loop-escape :
    (sql_size : ℕ) (s rest : Bytes) (len : ℕ)
    → all_textual s ≡ true
    → len + length s < sql_size
    → string_loop sql_size (escape s ++ b'"' ∷ rest) false len ≡ ok s
unfolding escape all_textual
string_loop-escape sql_size [] rest len t h = unfold string_loop in refl
string_loop-escape sql_size (ch ∷ s) rest len t h =
    rw (append_assoc (escape_byte ch) (escape s) (b'"' ∷ rest)) (
      string_loop-Spelled sql_size ch len (escape_byte ch) _ (escape_byte-Spelled ch (ground arith))
        (omega arith)
      ∙ ap (cons_sql ch)
          (string_loop-escape sql_size s rest (suc len) (ground arith) (omega arith)))

-- A JSON object that begins with the key `sql` and the text as `json_escape_dup` writes it: if no
-- byte of the text needs a `\u` escape and the buffer has room for the text and its NUL,
-- `http_extract_sql` gives the text back.
pub http_extract_sql-escape :
    (sql_size : ℕ) (s rest : Bytes)
    → all_textual s ≡ true
    → length s < sql_size
    → http_extract_sql (codes "{\"sql\":\"" ++ (escape s ++ b'"' ∷ rest)) sql_size ≡ ok s
unfolding http_extract_sql extract_json_sql skip_ws strstr starts_with
http_extract_sql-escape sql_size s rest t h = string_loop-escape sql_size s rest 0 t (omega arith)
