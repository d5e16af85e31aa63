-- ===== src/Http/Reading.antt =====
-- The buffers of `http_read_request`: nothing is written past their ends, and the request is
-- complete.
use Prim.Native.String.{String}
use tryo.Prelude.{
  ℕ, zero, suc, ◌+◌, ◌-◌, ◌≤◌, ◌≡◌, Option, none, some, List, [], ◌∷◌, ◌++◌, arith, ltb, leb, Bytes,
  skip_ws, strstr, length, take, drop, length-append, length-take, length-drop, Bool-cases,
  Option-cases, inl, inr, leb→le,
}
use tryo.Sql.{Parsed, ok, fail, ◌or_fail◌}
use tryo.Sql.Ensures.{Ensures, returns, Ensures-bind, Ensures-or_fail, Ensures-guard, any_step}
use tryo.Http.Request.{
  http_max_request, http_max_body, crlf, Recv, until_nul, parse_content_length, scan_word,
  HttpRequest, some_word, scan_request_line, Headers, header_loop, body_loop, request_of, read_head,
  read_rest, read_after, http_read_request,
}

-- the result, if there is one, has the property
data Within {ℓ} {A : Type ℓ} (P : A → Type 0) : Option (Parsed A) → Type ℓ where
  waits : Within P none
  stops : (message : String) → Within P (some (fail message))
  holds : (a : A) → P a → Within P (some (ok a))

header_loop-Within :
    (events : List Recv) (buffer : Bytes)
    → length buffer ≤ http_max_request
    → Within (λ h. length h.buffer ≤ http_max_request) (header_loop events buffer)
unfolding header_loop
header_loop-Within [] buffer h = waits
header_loop-Within (Recv.interrupted ∷ events) buffer h = header_loop-Within events buffer h
header_loop-Within (Recv.broken ∷ events) buffer h = stops _
header_loop-Within (Recv.closed ∷ events) buffer h = stops _
header_loop-Within (Recv.received bytes ∷ events) buffer h =
    let filled = buffer ++ take (http_max_request - length buffer) bytes in
    let room : length filled ≤ http_max_request = omega (
      arith,
      h,
      length-append buffer (take (http_max_request - length buffer) bytes),
      length-take (http_max_request - length buffer) bytes,
    ) in
    elim (Option-cases (strstr (until_nul filled) (crlf ++ crlf))) [
      | inr (headers_end, e) ↦ rw (e, header_loop) (holds _ room)
      | inl missing ↦ (elim (Bool-cases (ltb (length filled) http_max_request)) [
        | inl more ↦
            rw (missing, header_loop, more, header_loop) (header_loop-Within events filled room)
        | inr full ↦ rw (missing, header_loop, full, header_loop) (stops _)
      ])
    ]

-- The buffer has what is needed, and is not overrun.
abbrev Filled : ℕ → Bytes → Type 0
Filled total_needed b = (total_needed ≤ length b) × (length b ≤ http_max_request)

body_loop-Within :
    (events : List Recv) (buffer : Bytes) (total_needed : ℕ)
    → total_needed ≤ http_max_request
    → length buffer ≤ http_max_request
    → Within (Filled total_needed) (body_loop events buffer total_needed)
unfolding body_loop
body_loop-Within [] buffer n q h = elim (Bool-cases (ltb (length buffer) n)) [
  | inl short ↦ rw short waits
  | inr enough ↦ rw enough (holds buffer (ground arith, h))
]
body_loop-Within (event ∷ events) buffer n q h = elim (Bool-cases (ltb (length buffer) n)) [
  | inr enough ↦ rw (enough, body_loop) (holds buffer (ground arith, h))
  | inl short ↦ rw (short, body_loop) (round (λ b p. body_loop-Within events b n q p) event)
]
  where
    round :
        ((b : Bytes) → length b ≤ http_max_request → Within (Filled n) (body_loop events b n))
        → (event : Recv)
        → Within (Filled n) (elim event as (λ x. Option (Parsed Bytes)) [
          | Recv.interrupted ↦ body_loop events buffer n
          | Recv.broken ↦ some (fail "failed to read request body")
          | Recv.closed ↦ some (fail "incomplete request body")
          | Recv.received bytes ↦ body_loop events (buffer ++ take (n - length buffer) bytes) n
        ])
    round ih Recv.interrupted = ih buffer h
    round ih Recv.broken = stops _
    round ih Recv.closed = stops _
    round ih (Recv.received bytes) = ih (buffer ++ take (n - length buffer) bytes) (
        omega (
          arith,
          h,
          q,
          length-append buffer (take (n - length buffer) bytes),
          length-take (n - length buffer) bytes,
        ))

scan_word-fits : (n : ℕ) (s : Bytes) → length (scan_word n s).0 ≤ n
unfolding scan_word
scan_word-fits zero s = omega arith
scan_word-fits (suc n) [] = omega arith
scan_word-fits (suc n) (c ∷ s) = ground (arith, scan_word-fits n s)

abbrev Bounded : ℕ → Bytes → Type 0
Bounded n word = (1 ≤ length word) × (length word ≤ n)

some_word-Bounded :
    (n : ℕ) (s : Bytes × Bytes) {r : Bytes × Bytes}
    → length s.0 ≤ n
    → some_word s ≡ some r
    → Bounded n r.0
some_word-Bounded n ([], rest) h e = cc
some_word-Bounded n (c ∷ word, rest) {r} h e =
    let same : (c ∷ word, rest) ≡ r = cc in rw (← same) (omega arith, h)

scan_step :
    (n : ℕ) (s : Bytes) (message : String)
    → Ensures (λ r. Bounded n r.0) (some_word (scan_word n s) or_fail message)
scan_step n s message =
    Ensures-or_fail _ _ message λ r e. some_word-Bounded n (scan_word n s) (scan_word-fits n s) e

scan_request_line-Bounded :
    (buffer : Bytes) → Ensures (λ r. Bounded 7 r.0 × Bounded 127 r.1) (scan_request_line buffer)
unfolding scan_request_line
scan_request_line-Bounded buffer =
    Ensures-bind _ (scan_step 7 (skip_ws buffer) _)
      λ m w. Ensures-bind _ (scan_step 127 (skip_ws m.1) _) λ p v. returns _ (w, v)

-- what the checks between the two loops ensure
abbrev Checked : (Bytes × Bytes) × ℕ × ℕ → Type 0
Checked ((method, path), header_len, content_length) =
    Bounded 7 method
    × Bounded 127 path
    × (content_length ≤ http_max_body)
    × (header_len + content_length ≤ http_max_request)

read_head-Checked : (h : Headers) → Ensures Checked (read_head h)
unfolding read_head
read_head-Checked h = Ensures-bind _ (scan_request_line-Bounded (until_nul h.buffer)) λ l w.
    Ensures-bind _ (any_step (parse_content_length (until_nul h.buffer) (length h.headers_end)) _)
      λ n _. Ensures-bind _ (Ensures-guard (leb n http_max_body) _) λ _ small.
        Ensures-bind _
          (Ensures-guard
            (leb (length (until_nul h.buffer) - length h.headers_end + 4 + n) http_max_request) _)
          λ _ fits. returns _ (w.0, w.1, leb→le _ _ small, leb→le _ _ fits)

-- what a request that was read is like
pub record Complete (r : HttpRequest) : Type 0 where
  pub method : (1 ≤ length r.method) × (length r.method ≤ 7)
  pub path : (1 ≤ length r.path) × (length r.path ≤ 127)
  pub body : length r.body ≡ r.body_len
  pub body_len : r.body_len ≤ http_max_body

request_of-Complete :
    (line : Bytes × Bytes) (header_len content_length : ℕ) (o : Option (Parsed Bytes))
    → Checked (line, header_len, content_length)
    → Within (Filled (header_len + content_length)) o
    → Within Complete (request_of line header_len content_length o)
request_of-Complete (method, path) n k none c w = waits
request_of-Complete (method, path) n k (some (fail message)) c w = stops _
request_of-Complete (method, path) n k (some (ok buffer)) c (holds _ f) = holds _ (record {
  method = c.0;
  path = c.1;
  body = omega (arith, f.0, length-take k (drop n buffer), length-drop n buffer);
  body_len = c.2;
})

read_rest-Complete :
    (h : Headers) (m : Parsed ((Bytes × Bytes) × ℕ × ℕ))
    → length h.buffer ≤ http_max_request
    → Ensures Checked m
    → Within Complete (read_rest h m)
read_rest-Complete h (fail message) q c = stops _
read_rest-Complete h (ok (line, n, k)) q (returns _ c) =
    request_of-Complete line n k _ c (body_loop-Within h.left h.buffer (n + k) c.3 q)

read_after-Complete :
    (o : Option (Parsed Headers))
    → Within (λ h. length h.buffer ≤ http_max_request) o
    → Within Complete (read_after o)
read_after-Complete none w = waits
read_after-Complete (some (fail message)) w = stops _
read_after-Complete (some (ok h)) (holds _ q) =
    read_rest-Complete h (read_head h) q (read_head-Checked h)

Within-ok :
    {P : HttpRequest → Type 0} {o : Option (Parsed HttpRequest)} {r : HttpRequest}
    → Within P o
    → o ≡ some (ok r)
    → P r
Within-ok waits e = cc
Within-ok (stops m) e = cc
Within-ok {r = r} (holds a p) e = let same : a ≡ r = cc in rw same at p

-- However the bytes of a request arrive: a request that `http_read_request` returns has a method of 1
-- to 7 bytes, a path of 1 to 127, and as many bytes of body as it says, at most 32768.
pub http_read_request-Complete :
    (events : List Recv) {r : HttpRequest} → http_read_request events ≡ some (ok r) → Complete r
unfolding http_read_request
http_read_request-Complete events e =
    Within-ok
      (read_after-Complete (header_loop events []) (header_loop-Within events [] (omega arith))) e
