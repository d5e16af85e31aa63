-- ===== src/Http/Arrival.antt =====
-- The two loops of `http_read_request` of src/http.c on a request that arrives in parts.
use tryo.Prelude.{
  ap₂, ltb→ge, ltb→lt, lt→ltb, ℕ, ◌-◌, ◌≤◌, ◌<◌, ◌≡◌, refl, sym, ◌∙◌, ap, subst, true, false,
  Option, none, some, List, [], ◌∷◌, ◌++◌, append-nil, append_assoc, arith, ltb, Bytes, strstr,
  length, length-append, take, take-all, Bool-cases, inl, inr,
}
use mathlib.Core.List.{head-eq_of_cons-eq, tail-eq_of_cons-eq}
use tryo.Sql.{Parsed, ok, fail}
use tryo.Http.Request.{http_max_request, crlf, Recv, until_nul, Headers, header_loop, body_loop}
use tryo.Http.Text.{NoByte, NoByte-append, HeaderLine, AllLines, lines_text}
use tryo.Http.Search.{strstr-lines, strstr-part}

-- The calls of `recv` give the text, in parts of any size, with any number of interruptions; what
-- comes when the text is there does not matter.
pub data Delivers : List Recv → Bytes → Type 0 where
  over : (events : List Recv) → Delivers events []
  interruption :
      {events : List Recv} {text : Bytes}
      → Delivers events text
      → Delivers (Recv.interrupted ∷ events) text
  part :
      (bytes : Bytes) {events : List Recv} {text : Bytes}
      → Delivers events text
      → Delivers (Recv.received bytes ∷ events) (bytes ++ text)

-- a beginning of a text that is no shorter than another beginning
split :
    (a b c d : Bytes)
    → length c ≤ length a
    → a ++ b ≡ c ++ d
    → (t : Bytes) × (a ≡ c ++ t) × (t ++ b ≡ d)
split a b [] d h e = (a, refl, e)
split [] b (y ∷ c) d h e = absurd (omega arith)
split (x ∷ a) b (y ∷ c) d h e =
    let same : x ≡ y = head-eq_of_cons-eq e in
    let (t, p, q) = split a b c d (omega arith) (tail-eq_of_cons-eq e) in
    (t, ap₂ (λ u v. u ∷ v) same p, q)

-- a text that is all there
complete :
    (buffer text whole : Bytes)
    → buffer ++ text ≡ whole
    → length whole ≤ length buffer
    → buffer ≡ whole
complete buffer [] whole e h = sym (append-nil buffer) ∙ e
complete buffer (c ∷ text) whole e h =
    absurd (omega (arith, ap length e, length-append buffer (c ∷ text)))

body_loop-all :
    (events : List Recv) (whole : Bytes) → body_loop events whole (length whole) ≡ some (ok whole)
unfolding body_loop
body_loop-all [] whole =
    let there : ltb (length whole) (length whole) ≡ false = ground arith in rw there refl
body_loop-all (event ∷ events) whole =
    let there : ltb (length whole) (length whole) ≡ false = ground arith in
    rw (there, body_loop) refl

-- where the text has arrived, what `recv` would give does not matter
body_loop-there :
    (events : List Recv) (buffer text whole : Bytes)
    → buffer ++ text ≡ whole
    → ltb (length buffer) (length whole) ≡ false
    → body_loop events buffer (length whole) ≡ some (ok whole)
body_loop-there events buffer text whole e h =
    rw (complete buffer text whole e (ltb→ge _ _ h)) (body_loop-all events whole)

pub body_loop-Delivers :
    {events : List Recv} {text : Bytes} (buffer whole : Bytes)
    → Delivers events text
    → buffer ++ text ≡ whole
    → body_loop events buffer (length whole) ≡ some (ok whole)
unfolding body_loop
body_loop-Delivers buffer whole (over events) e =
    rw (sym (append-nil buffer) ∙ e) (body_loop-all events whole)
body_loop-Delivers buffer whole (interruption {events} {text} d) e =
    elim (Bool-cases (ltb (length buffer) (length whole))) [
      | inl short ↦ rw (short, body_loop) (body_loop-Delivers buffer whole d e)
      | inr there ↦ body_loop-there (Recv.interrupted ∷ events) buffer text whole e there
    ]
body_loop-Delivers buffer whole (part bytes {events} {text} d) e =
    elim (Bool-cases (ltb (length buffer) (length whole))) [
      | inl short ↦
          (let fits : length bytes ≤ length whole - length buffer = omega (
            arith,
            sym (ap length e),
            length-append buffer (bytes ++ text),
            length-append bytes text,
          ) in
            rw (short, body_loop, take-all (length whole - length buffer) bytes fits)
              (body_loop-Delivers (buffer ++ bytes) whole d (append_assoc buffer bytes text ∙ e)))
      | inr there ↦
          body_loop-there (Recv.received bytes ∷ events) buffer (bytes ++ text) whole e there
    ]

NoByte-part : (k : ℕ) (a q : Bytes) → NoByte k (a ++ q) → NoByte k a
NoByte-part k [] q h = tt
NoByte-part k (c ∷ a) q h = (h.0, NoByte-part k a q h.1)

until_nul-append : (a t : Bytes) → NoByte 0 a → until_nul (a ++ t) ≡ a ++ until_nul t
unfolding until_nul
until_nul-append [] t h = refl
until_nul-append (c ∷ a) t h = rw (h.0, until_nul-append a t h.1) refl

lines_text-NoByte : (ls : List Bytes) → AllLines ls → NoByte 0 (lines_text ls crlf)
unfolding lines_text
lines_text-NoByte [] h = (refl, (refl, tt))
lines_text-NoByte (l ∷ ls) h =
    NoByte-append 0 l _ h.0.no_nul (refl, (refl, lines_text-NoByte ls h.1))

pub lines_text-append :
    (ls : List Bytes) (s t : Bytes) → lines_text ls (s ++ t) ≡ lines_text ls s ++ t
unfolding lines_text
lines_text-append [] s t = refl
lines_text-append (l ∷ ls) s t =
    ap (λ u. l ++ (crlf ++ u)) (lines_text-append ls s t)
    ∙ sym (append_assoc l (crlf ++ lines_text ls s) t)

-- what the first loop has read, when it has found the blank line
pub record Read (ls : List Bytes) (body : Bytes) (o : Option (Parsed Headers)) : Type 0 where
  pub early : Bytes
  pub late : Bytes
  pub left : List Recv
  pub found :
      o
      ≡ some (
          ok (record {
            buffer = lines_text ls (crlf ++ early);
            headers_end = crlf ++ (crlf ++ until_nul early);
            left = left;
          }))
  pub same_body : early ++ late ≡ body
  pub delivers : Delivers left late

module _ (l : Bytes) (ls : List Bytes) (body : Bytes) (h : HeaderLine l) (hs : AllLines ls)
    (fits : length (lines_text (l ∷ ls) (crlf ++ body)) ≤ http_max_request) where
  pub until_nul-lines :
      (t : Bytes)
      → until_nul (lines_text (l ∷ ls) (crlf ++ t)) ≡ lines_text (l ∷ ls) (crlf ++ until_nul t)
  until_nul-lines t =
      ap until_nul (lines_text-append (l ∷ ls) crlf t)
      ∙ until_nul-append (lines_text (l ∷ ls) crlf) t (lines_text-NoByte (l ∷ ls) (h, hs))
      ∙ sym (lines_text-append (l ∷ ls) crlf (until_nul t))

  blank_line_there :
      (filled t : Bytes)
      → filled ≡ lines_text (l ∷ ls) (crlf ++ t)
      → strstr (until_nul filled) (crlf ++ crlf) ≡ some (crlf ++ (crlf ++ until_nul t))
  blank_line_there filled t e =
      let text : until_nul filled ≡ lines_text (l ∷ ls) (crlf ++ until_nul t) =
        ap until_nul e ∙ until_nul-lines t in
      rw text (strstr-lines l ls (until_nul t) h hs)

  blank_line_missing :
      (filled q : Bytes)
      → lines_text (l ∷ ls) crlf ≡ filled ++ q
      → 1 ≤ length q
      → strstr (until_nul filled) (crlf ++ crlf) ≡ none
  blank_line_missing filled q e n =
      let no_nul =
        NoByte-part 0 filled q (subst (NoByte 0) e (lines_text-NoByte (l ∷ ls) (h, hs))) in
      let text : until_nul filled ≡ filled =
        ap until_nul (sym (append-nil filled))
        ∙ until_nul-append filled [] no_nul
        ∙ unfold until_nul in append-nil filled in
      rw text (strstr-part l ls filled q h hs (sym e) n)

  -- a round of the loop that fills the buffer
  filled_round :
      (events : List Recv) (filled text : Bytes)
      → Delivers events text
      → filled ++ text ≡ lines_text (l ∷ ls) (crlf ++ body)
      → (length filled < length (lines_text (l ∷ ls) crlf)
          → Read (l ∷ ls) body (header_loop events filled))
      → Read
          (l ∷ ls)
          body
          (elim (strstr (until_nul filled) (crlf ++ crlf)) as (λ x. Option (Parsed Headers)) [
            | some headers_end ↦
                some (ok (record { buffer = filled; headers_end = headers_end; left = events }))
            | none ↦ (elim (ltb (length filled) http_max_request) [
              | true ↦ header_loop events filled
              | false ↦ some (fail "request headers too large or incomplete")
            ])
          ])
  filled_round events filled text d e ih =
      let whole = e ∙ lines_text-append (l ∷ ls) crlf body in
      elim (Bool-cases (ltb (length filled) (length (lines_text (l ∷ ls) crlf)))) [
        | inr all ↦
            (let (t, p, q) =
                split filled text (lines_text (l ∷ ls) crlf) body (ltb→ge _ _ all) whole in
              rw (blank_line_there filled t (p ∙ sym (lines_text-append (l ∷ ls) crlf t))) (record {
                early = t;
                late = text;
                left = events;
                found =
                    ap
                      (λ b. some (
                        ok (record {
                          buffer = b;
                          headers_end = crlf ++ (crlf ++ until_nul t);
                          left = events;
                        })))
                      (p ∙ sym (lines_text-append (l ∷ ls) crlf t));
                same_body = q;
                delivers = d;
              }))
        | inl short ↦
            (let (t, p, q) =
                split (lines_text (l ∷ ls) crlf) body filled text (omega (arith, ltb→lt _ _ short))
                  (sym whole) in
              let some_left : 1 ≤ length t =
                omega (arith, ap length p, length-append filled t, ltb→lt _ _ short) in
              let room : ltb (length filled) http_max_request ≡ true = lt→ltb _ _ (
                omega (
                  arith,
                  fits,
                  ap length (lines_text-append (l ∷ ls) crlf body),
                  length-append (lines_text (l ∷ ls) crlf) body,
                  ltb→lt _ _ short,
                )) in
              rw (blank_line_missing filled t p some_left, room) (ih (ltb→lt _ _ short)))
      ]

  -- The first loop reads up to the blank line, and perhaps some of the body.
  pub header_loop-Read :
      {events : List Recv} {text : Bytes} (buffer : Bytes)
      → Delivers events text
      → buffer ++ text ≡ lines_text (l ∷ ls) (crlf ++ body)
      → length buffer < length (lines_text (l ∷ ls) crlf)
      → Read (l ∷ ls) body (header_loop events buffer)
  unfolding header_loop
  header_loop-Read buffer (over events) e n = absurd (
      omega (
        arith,
        n,
        ap length (sym (append-nil buffer) ∙ e),
        ap length (lines_text-append (l ∷ ls) crlf body),
        length-append (lines_text (l ∷ ls) crlf) body,
      ))
  header_loop-Read buffer (interruption d) e n = header_loop-Read buffer d e n
  header_loop-Read buffer (part bytes {events} {text} d) e n =
      let room : length bytes ≤ http_max_request - length buffer = omega (
        arith,
        fits,
        sym (ap length e),
        length-append buffer (bytes ++ text),
        length-append bytes text,
      ) in
      let filled = buffer ++ take (http_max_request - length buffer) bytes in
      let all_taken =
        ap (λ u. (buffer ++ u) ++ text) (take-all (http_max_request - length buffer) bytes room) in
      let whole = all_taken ∙ append_assoc buffer bytes text ∙ e in
      filled_round events filled text d whole λ short. header_loop-Read filled d whole short
