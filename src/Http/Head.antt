-- ===== src/Http/Head.antt =====
-- The request line and the header of src/http.c, on the lines of a request.
use tryo.Prelude.{
  leb→le, ltb→lt, ◌/◌, ℕ, zero, suc, ◌+◌, ◌-◌, ◌^◌, ◌≤◌, ◌<◌, ◌≡◌, refl, ◌∙◌, ap, true, false, ◌&&◌,
  some, List, [], ◌∷◌, ◌++◌, append_assoc, arith, ltb, leb, ◌==◌, if◌then◌else◌, Bytes, codes, peek,
  isdigit, skip_ws, strncasecmp_eq, length, length-append, drop, Bool-cases, inl, inr,
}
use tryo.Prelude.Decimal.{
  print_digits, decimal, decimal-isdigit, read_digits-decimal, skip_ws-digit,
}
use tryo.Sql.{ok}
use tryo.Http.Request.{
  http_max_body, crlf, strtoul, content_loop, parse_content_length, scan_word, some_word,
  scan_request_line,
}
use tryo.Http.Text.{
  NoByte, HeaderLine, lines_text, NoSpace, Word, request_line, length_line, OtherLines,
  NoByte-append,
}
use tryo.Http.Search.{strstr-line}

scan_word-space :
    (n : ℕ) (w rest : Bytes)
    → length w ≤ n
    → NoSpace w
    → scan_word n (w ++ 32 ∷ rest) ≡ (w, 32 ∷ rest)
unfolding scan_word
scan_word-space zero [] rest h s = refl
scan_word-space (suc n) [] rest h s = refl
scan_word-space zero (c ∷ w) rest h s = absurd (omega arith)
scan_word-space (suc n) (c ∷ w) rest h s = rw (s.0, scan_word-space n w rest (omega arith) s.1) refl

-- a word in front of a space, perhaps behind one
token_step :
    (n : ℕ) (w rest : Bytes)
    → Word n w
    → some_word (scan_word n (skip_ws (w ++ 32 ∷ rest))) ≡ some (w, 32 ∷ rest)
unfolding skip_ws
token_step n [] rest h = absurd (omega (arith, h.some_byte))
token_step n (c ∷ w) rest h =
    rw h.no_space.0 (ap some_word (scan_word-space n (c ∷ w) rest h.fits h.no_space) ∙ refl)

token_behind_space :
    (n : ℕ) (w rest : Bytes)
    → Word n w
    → some_word (scan_word n (skip_ws (32 ∷ (w ++ 32 ∷ rest)))) ≡ some (w, 32 ∷ rest)
unfolding skip_ws
token_behind_space n w rest h = token_step n w rest h

pub scan_request_line-text :
    (method path rest : Bytes)
    → Word 7 method
    → Word 127 path
    → scan_request_line (request_line method path ++ rest) ≡ ok (method, path)
unfolding scan_request_line
scan_request_line-text method path rest m p =
    let after = codes "HTTP/1.1" ++ rest in
    let regroup : request_line method path ++ rest ≡ method ++ (32 ∷ (path ++ 32 ∷ after)) =
      append_assoc method (32 ∷ (path ++ codes " HTTP/1.1")) rest
      ∙ ap (λ u. method ++ (32 ∷ u)) (append_assoc path (codes " HTTP/1.1") rest) in
    rw (regroup, token_step 7 method (path ++ 32 ∷ after) m, token_behind_space 127 path after p)
      refl

strtoul-decimal :
    (n : ℕ) (rest : Bytes)
    → n < 2 ^ 64
    → isdigit (peek rest) ≡ false
    → strtoul (decimal n ++ rest) ≡ some n
unfolding strtoul
strtoul-decimal n rest h d =
    let digit = decimal-isdigit n rest in
    let minus : (peek (decimal n ++ rest) == b'-') ≡ false = ground arith in
    let plus : (peek (decimal n ++ rest) == b'+') ≡ false = ground arith in
    let small : leb (2 ^ 64) n ≡ false = ground arith in
    rw
      (
        skip_ws-digit (decimal n ++ rest) digit,
        minus,
        plus,
        digit,
        read_digits-decimal n rest d,
        small,
      )
      refl

pub length-lines_text :
    (ls : List Bytes) (rest : Bytes) → length ls + length rest ≤ length (lines_text ls rest)
unfolding lines_text
length-lines_text [] rest = omega arith
length-lines_text (l ∷ ls) rest =
    omega (arith, length-lines_text ls rest, length-append l (crlf ++ lines_text ls rest))

strncasecmp_eq-append :
    (a q b : Bytes) → length b ≤ length a → strncasecmp_eq (a ++ q) b ≡ strncasecmp_eq a b
unfolding strncasecmp_eq
strncasecmp_eq-append a q [] h = refl
strncasecmp_eq-append [] q (y ∷ b) h = absurd (omega arith)
strncasecmp_eq-append (x ∷ a) q (y ∷ b) h = rw (strncasecmp_eq-append a q b (omega arith)) refl

-- a round of the loop over the header, at a line that is not empty
content_step :
    (f : ℕ) (l : Bytes) (ls : List Bytes) (t : Bytes)
    → HeaderLine l
    → let line = l ++ (crlf ++ lines_text ls (crlf ++ t)) in
      content_loop (suc f) line (length (crlf ++ (crlf ++ t))) ≡ (
        if leb 15 (length l) && strncasecmp_eq line (codes "Content-Length:")
        then strtoul (skip_ws (drop 15 line))
        else content_loop f (lines_text ls (crlf ++ t)) (length (crlf ++ (crlf ++ t))))
unfolding content_loop
content_step f l ls t h =
    let line = l ++ (crlf ++ lines_text ls (crlf ++ t)) in
    let next_line = crlf ++ lines_text ls (crlf ++ t) in
    let size = length-append l next_line in
    let more = length-lines_text ls (crlf ++ t) in
    let before_end : ltb (length (crlf ++ (crlf ++ t))) (length line) ≡ true =
      ground (arith, size, more, h.some_byte) in
    let next_in : ltb (length next_line) (length (crlf ++ (crlf ++ t))) ≡ false =
      ground (arith, more) in
    let line_len : length line - length next_line ≡ length l = omega (arith, size) in
    let nonempty : (length l == 0) ≡ false = ground (arith, h.some_byte) in
    rw (before_end, strstr-line l (lines_text ls (crlf ++ t)) h.no_cr, next_in, line_len, nonempty)
      refl

other_line :
    (l q : Bytes)
    → (leb 15 (length l) && strncasecmp_eq l (codes "Content-Length:")) ≡ false
    → (leb 15 (length l) && strncasecmp_eq (l ++ q) (codes "Content-Length:")) ≡ false
other_line l q h = elim (Bool-cases (leb 15 (length l))) [
  | inr short ↦ rw short refl
  | inl long ↦
      (rw (strncasecmp_eq-append l q (codes "Content-Length:") (leb→le 15 (length l) long)) h)
]

print_digits-NoByte :
    (k f n : ℕ) (out : Bytes) → isdigit k ≡ false → NoByte k out → NoByte k (print_digits f n out)
unfolding print_digits
print_digits-NoByte k zero n out d h = h
print_digits-NoByte k (suc f) n out d h = elim (Bool-cases (ltb n 10)) [
  | inl small ↦ rw small (ground (arith, ltb→lt _ _ small), h)
  | inr large ↦ rw large (print_digits-NoByte k f (n / 10) _ d (ground arith, h))
]

-- no byte of a decimal print is one that is not a digit
decimal-NoByte : (k n : ℕ) → isdigit k ≡ false → NoByte k (decimal n)
unfolding decimal
decimal-NoByte k n d = print_digits-NoByte k (suc n) n [] d tt

pub length_line-HeaderLine : (n : ℕ) → HeaderLine (length_line n)
length_line-HeaderLine n = record {
  some_byte = omega arith;
  no_cr =
      NoByte-append b'\r' (codes "Content-Length: ") (decimal n) (ground arith)
        (decimal-NoByte b'\r' n refl);
  no_nul =
      NoByte-append 0 (codes "Content-Length: ") (decimal n) (ground arith)
        (decimal-NoByte 0 n refl);
}

-- the value behind the colon
strtoul-value :
    (n : ℕ) (rest : Bytes)
    → n < 2 ^ 64
    → isdigit (peek rest) ≡ false
    → strtoul (skip_ws (32 ∷ (decimal n ++ rest))) ≡ some n
unfolding skip_ws
strtoul-value n rest h d =
    ap strtoul (skip_ws-digit (decimal n ++ rest) (decimal-isdigit n rest))
    ∙ strtoul-decimal n rest h d

pub content_loop-length :
    (f : ℕ) (before : List Bytes) (n : ℕ) (after : List Bytes) (t : Bytes)
    → length before < f
    → n ≤ http_max_body
    → OtherLines before
    → content_loop f
        (lines_text (before ++ length_line n ∷ after) (crlf ++ t))
        (length (crlf ++ (crlf ++ t)))
      ≡ some n
unfolding lines_text strncasecmp_eq
content_loop-length zero before n after t h b o = absurd (omega arith)
content_loop-length (suc f) [] n after t h b o =
    let rest = crlf ++ lines_text after (crlf ++ t) in
    let long : leb 15 (length (length_line n)) ≡ true = ground arith in
    content_step f (length_line n) after t (length_line-HeaderLine n)
    ∙ rw long (strtoul-value n rest (omega arith) refl)
content_loop-length (suc f) (l ∷ before) n after t h b o =
    let ls = before ++ length_line n ∷ after in
    content_step f l ls t o.0
    ∙ rw (other_line l (crlf ++ lines_text ls (crlf ++ t)) o.1)
        (content_loop-length f before n after t (omega arith) b o.2)

pub parse_content_length-text :
    (l : Bytes) (before : List Bytes) (n : ℕ) (after : List Bytes) (t : Bytes)
    → HeaderLine l
    → n ≤ http_max_body
    → OtherLines before
    → parse_content_length
        (lines_text (l ∷ (before ++ length_line n ∷ after)) (crlf ++ t))
        (length (crlf ++ (crlf ++ t)))
      ≡ some n
unfolding parse_content_length lines_text
parse_content_length-text l before n after t h b o =
    let ls = before ++ length_line n ∷ after in
    rw (strstr-line l (lines_text ls (crlf ++ t)) h.no_cr) (
      content_loop-length _ before n after t
        (omega
          (arith, length-lines_text ls (crlf ++ t), length-append before (length_line n ∷ after)))
        b o)
