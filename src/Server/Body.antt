-- ===== src/Server/Body.antt =====
-- The printed commands as bodies of queries, which `http_extract_sql` of src/http.c gives as they
-- are.
use tryo.Prelude.{
  true, ℕ, ◌+◌, ◌*◌, ◌≤◌, ◌<◌, ◌≡◌, refl, sym, ◌∙◌, ap, false, List, [], ◌∷◌, ◌++◌, append_assoc,
  arith, ltb, Bytes, codes, skip_ws, length, length-append, ◌==◌,
}
use tryo.Prelude.Decimal.{decimal}
use tryo.Sql.{ok, SqlColumn}
use tryo.Sql.Command.{
  Condition, every_row, id_is, name_is, Projection, all_columns, these, PlainCondition,
  PlainProjection, Command, insert_values, insert_named, select, Plain, quoted, column_text,
  columns_text, projection_text, condition_text, print,
}
use tryo.Db.Line.{length-decimal}
use tryo.Http.Extract.{trim_cons, trim_end, copy_raw_sql, http_extract_sql}
use tryo.Util.Escape.{escape, length-escape}
use tryo.Http.Body.{all_textual, http_extract_sql-escape}
use tryo.Server.Query.{sql_max_len}

-- a semicolon is the last byte
abbrev Ended : Bytes → Type 0
Ended p = (s : Bytes) × (p ≡ s ++ b';' ∷ [])

append-Ended : (s p : Bytes) → Ended p → Ended (s ++ p)
append-Ended s p (t, e) = (s ++ t, ap (λ u. s ++ u) e ∙ sym (append_assoc s t (b';' ∷ [])))

trim_cons-text : (c : ℕ) (s : Bytes) → trim_cons c (s ++ b';' ∷ []) ≡ c ∷ (s ++ b';' ∷ [])
trim_cons-text c [] = refl
trim_cons-text c (d ∷ s) = refl

trim_end-text : (s : Bytes) → trim_end (s ++ b';' ∷ []) ≡ s ++ b';' ∷ []
unfolding trim_end
trim_end-text [] = refl
trim_end-text (c ∷ s) = ap (trim_cons c) (trim_end-text s) ∙ trim_cons-text c s

trim_end-Ended : (p : Bytes) → Ended p → trim_end p ≡ p
trim_end-Ended p (s, e) = rw e (trim_end-text s)

condition-Ended : (condition : Condition) → Ended (condition_text condition)
condition-Ended every_row = ([], refl)
condition-Ended (id_is n) =
    append-Ended (codes " WHERE id = ") _ (append-Ended (decimal n) _ ([], refl))
condition-Ended (name_is s) =
    append-Ended (codes " WHERE name = '") _ (append-Ended s _ (b'\'' ∷ [], refl))

columns-Ended : (cs : List SqlColumn) (rest : Bytes) → Ended rest → Ended (columns_text cs rest)
unfolding columns_text
columns-Ended [] rest h = h
columns-Ended (c ∷ []) rest h = append-Ended (column_text c) _ h
columns-Ended (c ∷ d ∷ cs) rest h =
    append-Ended (column_text c) _ (append-Ended (codes ", ") _ (columns-Ended (d ∷ cs) rest h))

projection-Ended : (p : Projection) (rest : Bytes) → Ended rest → Ended (projection_text p rest)
projection-Ended all_columns rest h = append-Ended (codes "*") _ h
projection-Ended (these cs) rest h = columns-Ended cs rest h

print-Ended : (command : Command) → Ended (print command)
unfolding print
print-Ended (insert_values id name age) = append-Ended (codes "INSERT INTO users VALUES (") _ (
    append-Ended (decimal id) _ (
      append-Ended (codes ", '") _ (
        append-Ended name _
          (append-Ended (codes "', ") _ (append-Ended (decimal age) _ (codes ")", refl))))))
print-Ended (insert_named name age) =
    append-Ended (codes "INSERT INTO users name age VALUES '") _
      (append-Ended name _ (append-Ended (codes "' ") _ (append-Ended (decimal age) _ ([], refl))))
print-Ended (select p condition) =
    append-Ended (codes "SELECT ") _
      (projection-Ended p _ (append-Ended (codes " FROM users") _ (condition-Ended condition)))

length-column : (c : SqlColumn) → length (column_text c) ≤ 4
length-column SqlColumn.column_id = omega arith
length-column SqlColumn.column_name = omega arith
length-column SqlColumn.column_age = omega arith

length-columns :
    (cs : List SqlColumn) (rest : Bytes)
    → length (columns_text cs rest) ≤ 6 * length cs + length rest
unfolding columns_text
length-columns [] rest = omega arith
length-columns (c ∷ []) rest = omega (arith, length-append (column_text c) rest, length-column c)
length-columns (c ∷ d ∷ cs) rest = omega (
  arith,
  length-append (column_text c) (codes ", " ++ columns_text (d ∷ cs) rest),
  length-column c,
  length-columns (d ∷ cs) rest,
)

length-projection :
    (p : Projection) (rest : Bytes)
    → PlainProjection p
    → length (projection_text p rest) ≤ 18 + length rest
length-projection all_columns rest h = omega arith
length-projection (these cs) rest h = omega (arith, length-columns cs rest, h.1)

length-condition :
    (condition : Condition) → PlainCondition condition → length (condition_text condition) ≤ 200
length-condition every_row h = omega arith
length-condition (id_is n) h =
    omega (arith, length-append (decimal n) (codes ";"), length-decimal n h)
length-condition (name_is s) h = omega (arith, length-append s (b'\'' ∷ codes ";"), h.0)

-- The printed form of a command of the language has at most 1000 bytes.
pub length-print : (command : Command) → Plain command → length (print command) ≤ 1000
unfolding print
length-print (insert_values id name age) h = omega (
  arith,
  length-append (decimal id)
      (codes ", " ++ quoted name (codes ", " ++ (decimal age ++ codes ");"))),
  length-append name (b'\'' ∷ (codes ", " ++ (decimal age ++ codes ");"))),
  length-append (decimal age) (codes ");"),
  length-decimal id h.1,
  length-decimal age h.3,
  h.2.0,
)
length-print (insert_named name age) h = omega (
  arith,
  length-append name (b'\'' ∷ (32 ∷ (decimal age ++ codes ";"))),
  length-append (decimal age) (codes ";"),
  length-decimal age h.1,
  h.0.0,
)
length-print (select p condition) h = omega (
  arith,
  length-projection p (codes " FROM users" ++ condition_text condition) h.0,
  length-condition condition h.1,
)

-- a letter is in front
data Lettered : Bytes → Type 0 where
  insert_first : (s : Bytes) → Lettered (b'I' ∷ s)
  select_first : (s : Bytes) → Lettered (b'S' ∷ s)

print-Lettered : (command : Command) → Lettered (print command)
unfolding print
print-Lettered (insert_values id name age) = insert_first _
print-Lettered (insert_named name age) = insert_first _
print-Lettered (select p condition) = select_first _

copied :
    (p : Bytes)
    → skip_ws p ≡ p
    → Ended p
    → 1 ≤ length p
    → length p < sql_max_len
    → copy_raw_sql p sql_max_len ≡ ok p
unfolding copy_raw_sql
copied p left right some_byte short =
    let not_empty : (length p == 0) ≡ false = ground arith in
    let fits : ltb sql_max_len (length p + 1) ≡ false = ground arith in
    rw (left, trim_end-Ended p right, not_empty, fits) refl

extracted :
    (p : Bytes) → Lettered p → Ended p → length p ≤ 1000 → http_extract_sql p sql_max_len ≡ ok p
unfolding http_extract_sql skip_ws
extracted _ (insert_first s) e n = copied (b'I' ∷ s) refl e (omega arith) (omega arith)
extracted _ (select_first s) e n = copied (b'S' ∷ s) refl e (omega arith) (omega arith)

-- The printed form of a command of the language is a body whose SQL text is all of it.
pub http_extract_sql-print :
    (command : Command)
    → Plain command
    → http_extract_sql (print command) sql_max_len ≡ ok (print command)
http_extract_sql-print command h =
    extracted (print command) (print-Lettered command) (print-Ended command)
      (length-print command h)

-- the bodies of a query for the command: its text, or a JSON object with its text
pub data Carries (command : Command) : Bytes → Type 0 where
  raw : Carries command (print command)
  json :
      all_textual (print command) ≡ true
      → Carries command (codes "{\"sql\":\"" ++ (escape (print command) ++ b'"' ∷ codes "}"))

pub Carries-extracted :
    {command : Command} {body : Bytes}
    → Plain command
    → Carries command body
    → http_extract_sql body sql_max_len ≡ ok (print command)
Carries-extracted {command} h raw = http_extract_sql-print command h
Carries-extracted {command} h (json t) =
    http_extract_sql-escape sql_max_len (print command) (codes "}") t
      (omega (arith, length-print command h))

pub Carries-length :
    {command : Command} {body : Bytes} → Plain command → Carries command body → length body ≤ 10000
Carries-length {command} h raw = omega (arith, length-print command h)
Carries-length {command} h (json t) = omega (
  arith,
  length-append (escape (print command)) (b'"' ∷ codes "}"),
  length-escape (print command),
  length-print command h,
)
