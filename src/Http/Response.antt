-- ===== src/Http/Response.antt =====
-- `send_all` and `http_send_json_with_thread` of src/http.c. The results of `send` are given as a
-- list; a positive result is at most what was to be sent.
use tryo.Prelude.{
  arith, subst, ℕ, zero, suc, ◌+◌, ◌≡◌, refl, sym, ◌∙◌, ap, Bool, true, false, ◌||◌, not, Option,
  none, some, List, [], ◌∷◌, ◌++◌, append-nil, append_assoc, leb, ◌==◌, if◌then◌else◌, Bytes, codes,
  length, take, drop, take-append-drop, length-append, Bool-cases, inl, inr,
}
use tryo.Prelude.Decimal.{decimal}
use tryo.Http.Request.{crlf}
use tryo.Http.Text.{lines_text}

-- a result of `send`: -1 with EINTR, -1 with another error, or a number of bytes
pub data Send : Type 0 where
  interrupted broken : Send
  accepted : ℕ → Send

-- the result, what was sent, and the results of `send` that are left
pub record Sent : Type 0 where
  pub success : Bool
  pub written : Bytes
  pub left : List Send

abbrev pub after : Bytes → Option Sent → Option Sent
after s none = none
after s (some r) = some (record r { written = s ++ r.written })

-- `none` is a `send` that has no result yet; the second argument is what is left of the buffer.
unfoldable pub send_all : List Send → Bytes → Option Sent
send_all events [] = some (record { success = true; written = []; left = events })
send_all [] (c ∷ s) = none
send_all (Send.interrupted ∷ events) (c ∷ s) = send_all events (c ∷ s)
send_all (Send.broken ∷ events) (c ∷ s) =
    some (record { success = false; written = []; left = events })
send_all (Send.accepted zero ∷ events) (c ∷ s) =
    some (record { success = false; written = []; left = events })
send_all (Send.accepted (suc n) ∷ events) (c ∷ s) =
    after (take (suc n) (c ∷ s)) (send_all events (drop (suc n) (c ∷ s)))

-- `a && b` on two sends, where the second is not made if the first fails
abbrev pub and_then : Option Sent → (List Send → Option Sent) → Option Sent
and_then none k = none
and_then (some r) k = if r.success then after r.written (k r.left) else some r

abbrev pub reason : ℕ → Bytes
reason status_code =
    if status_code == 400
    then codes "Bad Request"
    else if status_code == 404
    then codes "Not Found"
    else if status_code == 405
    then codes "Method Not Allowed"
    else if leb 500 status_code
    then codes "Internal Server Error"
    else codes "OK"

abbrev pub eol : Bytes
eol = b'\r' ∷ b'\n' ∷ []

-- the last byte is there and is a newline
unfoldable pub ends_line : Bytes → Bool
ends_line [] = false
ends_line (c ∷ []) = c == b'\n'
ends_line (c ∷ d ∷ s) = ends_line (d ∷ s)

abbrev pub newline : Bytes → Bytes
newline json_body = if not (ends_line json_body) then b'\n' ∷ [] else []

abbrev pub thread_header : ℕ → Bytes
thread_header worker_thread_id =
    if worker_thread_id == 0
    then []
    else codes "X-Worker-Thread-Id: " ++ (decimal worker_thread_id ++ eol)

unfoldable pub header : ℕ → ℕ → ℕ → Bytes
header status_code worker_thread_id response_body_len =
    codes "HTTP/1.1 "
    ++ (decimal status_code
        ++ (codes " "
            ++ (reason status_code
                ++ (eol
                    ++ (codes "Content-Type: application/json"
                        ++ (eol
                            ++ (thread_header worker_thread_id
                                ++ (codes "Content-Length: "
                                    ++ (decimal response_body_len
                                        ++ (eol
                                            ++ (codes "Connection: close" ++ (eol ++ eol))))))))))))

unfoldable pub http_send_json_with_thread : List Send → ℕ → Bytes → ℕ → Option Sent
http_send_json_with_thread events status_code json_body worker_thread_id =
    let head =
      header status_code worker_thread_id (length json_body + length (newline json_body)) in
    if leb 96 (length (thread_header worker_thread_id)) || leb 512 (length head)
    then some (record { success = false; written = []; left = events })
    else and_then (and_then (send_all events head) (λ left. send_all left json_body))
        (λ left. send_all left (newline json_body))

unfoldable pub http_send_json : List Send → ℕ → Bytes → Option Sent
http_send_json events status_code json_body =
    http_send_json_with_thread events status_code json_body 0

-- What was sent is the beginning of the text, and all of it on success.
pub record Sends (text : Bytes) (r : Sent) : Type 0 where
  pub rest : Bytes
  pub split : text ≡ r.written ++ rest
  pub all : r.success ≡ true → rest ≡ []

data MaySend (text : Bytes) : Option Sent → Type 0 where
  waits : MaySend text none
  sends : (r : Sent) → Sends text r → MaySend text (some r)

send_more : (s t : Bytes) (o : Option Sent) → MaySend t o → MaySend (s ++ t) (after s o)
send_more s t none w = waits
send_more s t (some r) (sends _ x) = sends _ (record {
  rest = x.rest;
  split = ap (λ u. s ++ u) x.split ∙ sym (append_assoc s r.written x.rest);
  all = x.all;
})

send_all-MaySend : (events : List Send) (s : Bytes) → MaySend s (send_all events s)
unfolding send_all
send_all-MaySend events [] = sends _ (record { rest = []; split = refl; all = λ e. refl })
send_all-MaySend [] (c ∷ s) = waits
send_all-MaySend (Send.interrupted ∷ events) (c ∷ s) = send_all-MaySend events (c ∷ s)
send_all-MaySend (Send.broken ∷ events) (c ∷ s) =
    sends _ (record { rest = c ∷ s; split = refl; all = λ e. cc e })
send_all-MaySend (Send.accepted zero ∷ events) (c ∷ s) =
    sends _ (record { rest = c ∷ s; split = refl; all = λ e. cc e })
send_all-MaySend (Send.accepted (suc n) ∷ events) (c ∷ s) =
    rw (← take-append-drop (suc n) (c ∷ s)) (
      send_more (take (suc n) (c ∷ s)) (drop (suc n) (c ∷ s)) _
        (send_all-MaySend events (drop n s)))

and_then-MaySend :
    (s t : Bytes) (o : Option Sent) (k : List Send → Option Sent)
    → MaySend s o
    → ((left : List Send) → MaySend t (k left))
    → MaySend (s ++ t) (and_then o k)
and_then-MaySend s t none k w h = waits
and_then-MaySend s t (some r) k (sends _ x) h = go r.success r.written r.left x
  where
    go :
        (success : Bool) (written : Bytes) (left : List Send)
        → Sends s (record { success = success; written = written; left = left })
        → MaySend
            (s ++ t)
            (and_then (some (record { success = success; written = written; left = left })) k)
    go false written left x = sends _ (record {
      rest = x.rest ++ t;
      split = ap (λ u. u ++ t) x.split ∙ append_assoc written x.rest t;
      all = λ e. cc e;
    })
    go true written left x =
        let full : s ≡ written = x.split ∙ rw (x.all refl) (append-nil written) in
        rw full (send_more written t (k left) (h left))

-- an answer: the header, which gives the length of all that follows, and the body with its newline
abbrev response_text : ℕ → Bytes → ℕ → Bytes
response_text status_code json_body worker_thread_id =
    (header status_code worker_thread_id (length (json_body ++ newline json_body)) ++ json_body)
    ++ newline json_body

response-MaySend :
    (events : List Send) (status_code : ℕ) (json_body : Bytes) (worker_thread_id : ℕ)
    → MaySend
        (response_text status_code json_body worker_thread_id)
        (http_send_json_with_thread events status_code json_body worker_thread_id)
unfolding http_send_json_with_thread
response-MaySend events status_code json_body id =
    rw (length-append json_body (newline json_body))
      (elim (Bool-cases (
        leb 96 (length (thread_header id))
        || leb 512
            (length (header status_code id (length json_body + length (newline json_body)))))) [
              | inl long ↦ rw long (sends _ (record { rest = _; split = refl; all = λ e. cc e }))
              | inr fits ↦ rw fits (
                  and_then-MaySend _ (newline json_body) _ _
                    (and_then-MaySend _ json_body _ _ (send_all-MaySend events _)
                      (λ left. send_all-MaySend left json_body))
                    (λ left. send_all-MaySend left (newline json_body)))
            ])

MaySend-some :
    {text : Bytes} {o : Option Sent} {r : Sent} → MaySend text o → o ≡ some r → Sends text r
MaySend-some waits e = cc
MaySend-some {r = r} (sends a x) e = let same : a ≡ r = cc in rw same at x

-- the reason phrase of a status of this server
abbrev pub phrase : ℕ → Bytes
phrase status_code =
    if leb 500 status_code
    then codes "Internal Server Error"
    else if status_code == 405
    then codes "Method Not Allowed"
    else if status_code == 404
    then codes "Not Found"
    else if status_code == 400
    then codes "Bad Request"
    else codes "OK"

-- the body, ended by a newline
unfoldable pub with_newline : Bytes → Bytes
with_newline [] = b'\n' ∷ []
with_newline (c ∷ []) = if c == b'\n' then c ∷ [] else c ∷ b'\n' ∷ []
with_newline (c ∷ d ∷ s) = c ∷ with_newline (d ∷ s)

-- the header line with the number of the worker, if there is one
abbrev pub thread_line : ℕ → List Bytes
thread_line worker_thread_id =
    if worker_thread_id == 0
    then []
    else (codes "X-Worker-Thread-Id: " ++ decimal worker_thread_id) ∷ []

-- an HTTP answer: its lines, a blank line, and the content, whose length is given
unfoldable pub answer_text : ℕ → Bytes → ℕ → Bytes
answer_text status_code json_body worker_thread_id =
    let content = with_newline json_body in
    lines_text
      ((codes "HTTP/1.1 " ++ (decimal status_code ++ (codes " " ++ phrase status_code)))
        ∷ codes "Content-Type: application/json"
        ∷ (thread_line worker_thread_id
            ++ (codes "Content-Length: " ++ decimal (length content))
              ∷ codes "Connection: close"
              ∷ []))
      (crlf ++ content)

reason-phrase : (status_code : ℕ) → reason status_code ≡ phrase status_code
reason-phrase status_code = ground arith

newline-with_newline : (s : Bytes) → s ++ newline s ≡ with_newline s
unfolding with_newline ends_line
newline-with_newline [] = refl
newline-with_newline (c ∷ []) = ground arith
newline-with_newline (c ∷ d ∷ s) = ap (λ u. c ∷ u) (newline-with_newline (d ∷ s))

response_text-answer_text :
    (status_code : ℕ) (json_body : Bytes) (worker_thread_id : ℕ)
    → response_text status_code json_body worker_thread_id
      ≡ answer_text status_code json_body worker_thread_id
unfolding header answer_text lines_text
response_text-answer_text status_code json_body id =
    append_assoc (header status_code id (length (json_body ++ newline json_body))) json_body
      (newline json_body)
    ∙ rw (newline-with_newline json_body, reason-phrase status_code)
        (elim (Bool-cases (id == 0)) [
          | inl none_given ↦ rw none_given (simp append_assoc)
          | inr given ↦ rw given (simp append_assoc)
        ])

-- However `send` cuts the bytes up: what `http_send_json_with_thread` has sent when it returns is a
-- beginning of the HTTP answer, and all of it if it returns 1. The answer is the status line, the
-- type, the number of the worker if it is not 0, the length of the content in bytes, `Connection:
-- close`, a blank line, and the content, which is the body with a newline at its end if it has none
-- there.
pub http_send_json_with_thread-Sends :
    (events : List Send) (status_code : ℕ) (json_body : Bytes) (worker_thread_id : ℕ) {r : Sent}
    → http_send_json_with_thread events status_code json_body worker_thread_id ≡ some r
    → Sends (answer_text status_code json_body worker_thread_id) r
http_send_json_with_thread-Sends events status_code json_body id {r} e =
    subst (λ text. Sends text r) (response_text-answer_text status_code json_body id)
      (MaySend-some (response-MaySend events status_code json_body id) e)
