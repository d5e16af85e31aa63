-- ===== src/Http/Search.antt =====
-- `strstr` on the lines of a request, and on a part of them.
use tryo.Prelude.{
  ◌+◌, ◌≤◌, ◌≡◌, refl, sym, ◌∙◌, ap, true, false, none, some, List, [], ◌∷◌, ◌++◌, arith, Bytes,
  starts_with, strstr, length, length-append, Bool-cases, Option-cases, inl, inr,
}
use mathlib.Core.Option.{some-injective}
use tryo.Http.Request.{crlf}
use tryo.Http.Text.{NoByte, HeaderLine, AllLines, lines_text}

strstr-skip :
    (l s : Bytes)
    → NoByte b'\r' l
    → (b : Bytes) → strstr (l ++ s) (b'\r' ∷ b) ≡ strstr s (b'\r' ∷ b)
unfolding strstr starts_with
strstr-skip [] s h b = refl
strstr-skip (c ∷ l) s h b = rw h.0 (strstr-skip l s h.1 b)

pub strstr-line :
    (l rest : Bytes) → NoByte b'\r' l → strstr (l ++ (crlf ++ rest)) crlf ≡ some (crlf ++ rest)
unfolding strstr starts_with
strstr-line l rest h = strstr-skip l (crlf ++ rest) h (b'\n' ∷ []) ∙ refl

-- the end of a line whose next line is not empty
strstr-next :
    (l rest : Bytes)
    → HeaderLine l
    → strstr (crlf ++ (l ++ rest)) (crlf ++ crlf) ≡ strstr (l ++ rest) (crlf ++ crlf)
unfolding strstr starts_with
strstr-next [] rest h = absurd (omega (arith, h.some_byte))
strstr-next (c ∷ l) rest h = rw h.no_cr.0 refl

pub strstr-lines :
    (l : Bytes) (ls : List Bytes) (t : Bytes)
    → HeaderLine l
    → AllLines ls
    → strstr (lines_text (l ∷ ls) (crlf ++ t)) (crlf ++ crlf) ≡ some (crlf ++ (crlf ++ t))
unfolding lines_text
strstr-lines l [] t h hs = strstr-skip l (crlf ++ (crlf ++ t)) h.no_cr _ ∙ found t
  where
    found : (t : Bytes) → strstr (crlf ++ (crlf ++ t)) (crlf ++ crlf) ≡ some (crlf ++ (crlf ++ t))
    found t = unfold strstr starts_with in refl
strstr-lines l (m ∷ ls) t h hs =
    strstr-skip l _ h.no_cr _ ∙ strstr-next m _ hs.0 ∙ strstr-lines m ls t hs.0 hs.1

starts_with-append : (a q b : Bytes) → starts_with a b ≡ true → starts_with (a ++ q) b ≡ true
unfolding starts_with
starts_with-append a q [] h = refl
starts_with-append [] q (y ∷ b) h = cc h
starts_with-append (x ∷ a) q (y ∷ b) h = ground (arith, starts_with-append a q b)

length-starts_with : (a b : Bytes) → starts_with a b ≡ true → length b ≤ length a
unfolding starts_with
length-starts_with a [] h = omega arith
length-starts_with [] (y ∷ b) h = cc h
length-starts_with (x ∷ a) (y ∷ b) h = ground (arith, length-starts_with a b)

strstr-here : (a b : Bytes) → starts_with a b ≡ true → strstr a b ≡ some a
unfolding strstr
strstr-here [] b h = rw h refl
strstr-here (x ∷ a) b h = rw h refl

not_before : (a q b : Bytes) → starts_with (a ++ q) b ≡ false → starts_with a b ≡ false
not_before a q b h = elim (Bool-cases (starts_with a b)) [
  | inl here ↦ cc (starts_with-append a q b here, h)
  | inr missing ↦ missing
]

-- What is found has room for the text.
length-strstr : (a b : Bytes) {r : Bytes} → strstr a b ≡ some r → length b ≤ length r
unfolding strstr
length-strstr [] b {r} h = elim (Bool-cases (starts_with [] b)) [
  | inl here ↦
      (let e : [] ≡ r = some-injective _ _ (rw here at h) in
        rw (← e) (length-starts_with [] b here))
  | inr missing ↦ cc (rw missing at h)
]
length-strstr (x ∷ a) b {r} h = elim (Bool-cases (starts_with (x ∷ a) b)) [
  | inl here ↦
      (let e : (x ∷ a) ≡ r = some-injective _ _ (rw here at h) in
        rw (← e) (length-starts_with (x ∷ a) b here))
  | inr further ↦ length-strstr a b (rw further at h)
]

strstr-shorter : (a b : Bytes) {r : Bytes} → strstr a b ≡ some r → length r ≤ length a
unfolding strstr
strstr-shorter [] b {r} h = elim (Bool-cases (starts_with [] b)) [
  | inl here ↦ (let e : [] ≡ r = some-injective _ _ (rw here at h) in rw (← e) (omega arith))
  | inr missing ↦ cc (rw missing at h)
]
strstr-shorter (x ∷ a) b {r} h = elim (Bool-cases (starts_with (x ∷ a) b)) [
  | inl here ↦ (let e : (x ∷ a) ≡ r = some-injective _ _ (rw here at h) in rw (← e) (omega arith))
  | inr further ↦ omega (arith, strstr-shorter a b (rw further at h))
]

-- What is found in a part of a text is found in the text, there or before.
strstr-append :
    (a q b : Bytes) {r : Bytes}
    → strstr a b ≡ some r
    → (r' : Bytes) × (strstr (a ++ q) b ≡ some r') × (length r + length q ≤ length r')
unfolding strstr
strstr-append [] q b {r} h = elim (Bool-cases (starts_with [] b)) [
  | inr missing ↦ cc (rw missing at h)
  | inl here ↦
      (let e : [] ≡ r = some-injective _ _ (rw here at h) in
        (q, strstr-here q b (starts_with-append [] q b here), rw (← e) (omega arith)))
]
strstr-append (x ∷ a) q b {r} h = elim (Bool-cases (starts_with ((x ∷ a) ++ q) b)) [
  | inl now ↦ (
    (x ∷ a) ++ q,
    rw now refl,
    omega (arith, strstr-shorter (x ∷ a) b h, length-append (x ∷ a) q),
  )
  | inr later ↦
      (let behind : starts_with (x ∷ a) b ≡ false = not_before (x ∷ a) q b later in
        let (r', e, n) = strstr-append a q b (rw behind at h) in (r', rw later e, n))
]

-- A beginning of the head of a request does not have the blank line.
pub strstr-part :
    (l : Bytes) (ls : List Bytes) (a q : Bytes)
    → HeaderLine l
    → AllLines ls
    → a ++ q ≡ lines_text (l ∷ ls) crlf
    → 1 ≤ length q
    → strstr a (crlf ++ crlf) ≡ none
strstr-part l ls a q h hs e n = elim (Option-cases (strstr a (crlf ++ crlf))) [
  | inl missing ↦ missing
  | inr (r, found) ↦
      (let (r', e', longer) = strstr-append a q (crlf ++ crlf) found in
        let whole : strstr (a ++ q) (crlf ++ crlf) ≡ some (crlf ++ crlf) =
          rw e (strstr-lines l ls [] h hs) in
        let same : r' ≡ crlf ++ crlf = some-injective _ _ (sym e' ∙ whole) in
        absurd (omega (arith, longer, ap length same, length-strstr a (crlf ++ crlf) found, n)))
]
