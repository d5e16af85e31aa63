-- ===== src/Http/Accepted.antt =====
-- `http_read_request` of src/http.c takes every well-formed request, however its bytes arrive.
use tryo.Prelude.{
  ap₂, append_assoc, ◌+◌, ◌-◌, ◌≤◌, ◌≡◌, refl, sym, ◌∙◌, ap, true, some, List, [], ◌∷◌, ◌++◌, arith,
  leb, le→leb, Bytes, codes, length, length-append, take, drop, take-all,
}
use tryo.Sql.{ok}
use tryo.Http.Request.{
  http_max_request, http_max_body, crlf, Recv, until_nul, parse_content_length, scan_request_line,
  body_loop, request_of, read_head, read_rest, read_after, http_read_request,
}
use tryo.Http.Text.{
  NoByte, NoByte-append, HeaderLine, AllLines, lines_text, NoSpace, Word, request_line, length_line,
  OtherLines, head_lines,
}
use tryo.Http.Head.{
  length-lines_text, length_line-HeaderLine, scan_request_line-text, parse_content_length-text,
}
use tryo.Http.Arrival.{
  Delivers, lines_text-append, header_loop-Read, until_nul-lines, body_loop-Delivers,
}

drop-append : (a b : Bytes) → drop (length a) (a ++ b) ≡ b
drop-append [] b = refl
drop-append (x ∷ a) b = drop-append a b

NoSpace-NoByte : (w : Bytes) → NoSpace w → NoByte b'\r' w
NoSpace-NoByte [] h = tt
NoSpace-NoByte (c ∷ w) h = (ground arith, NoSpace-NoByte w h.1)

request_line-HeaderLine :
    (method path : Bytes) → Word 7 method → Word 127 path → HeaderLine (request_line method path)
request_line-HeaderLine method path m p = record {
  some_byte = omega (arith, length-append method (32 ∷ (path ++ codes " HTTP/1.1")));
  no_cr =
      NoByte-append b'\r' method _ (NoSpace-NoByte method m.no_space)
        (refl, NoByte-append b'\r' path _ (NoSpace-NoByte path p.no_space) (ground arith));
  no_nul = NoByte-append 0 method _ m.no_nul (refl, NoByte-append 0 path _ p.no_nul (ground arith));
}

OtherLines-AllLines :
    (before : List Bytes) (l : Bytes) (after : List Bytes)
    → OtherLines before
    → HeaderLine l
    → AllLines after
    → AllLines (before ++ l ∷ after)
OtherLines-AllLines [] l after o h a = (h, a)
OtherLines-AllLines (x ∷ before) l after o h a = (o.0, OtherLines-AllLines before l after o.2 h a)

head_size : (l : Bytes) (ls : List Bytes) → HeaderLine l → 4 ≤ length (lines_text (l ∷ ls) crlf)
unfolding lines_text
head_size l ls h =
    omega (arith, length-append l (crlf ++ lines_text ls crlf), length-lines_text ls crlf)

module _ (method path : Bytes) (before after : List Bytes) (body : Bytes) (m : Word 7 method)
    (p : Word 127 path) (b : OtherLines before) (a : AllLines after)
    (small : length body ≤ http_max_body)
    (fits : length (lines_text (head_lines method path before (length body) after) (crlf ++ body))
      ≤ http_max_request) where
  first-HeaderLine : HeaderLine (request_line method path)
  first-HeaderLine = request_line-HeaderLine method path m p

  others-AllLines : AllLines (before ++ length_line (length body) ∷ after)
  others-AllLines = OtherLines-AllLines before _ after b (length_line-HeaderLine (length body)) a

  read_head-text :
      (early : Bytes) (left : List Recv)
      → read_head (record {
        buffer = lines_text (head_lines method path before (length body) after) (crlf ++ early);
        headers_end = crlf ++ (crlf ++ until_nul early);
        left = left;
      })
        ≡ ok (
          (method, path),
          length (lines_text (head_lines method path before (length body) after) crlf),
          length body,
        )
  unfolding read_head
  read_head-text early left =
      let ls = before ++ length_line (length body) ∷ after in
      let l = request_line method path in
      let t = until_nul early in
      let text = until_nul-lines l ls body first-HeaderLine others-AllLines fits early in
      let scanned : scan_request_line (lines_text (l ∷ ls) (crlf ++ t)) ≡ ok (method, path) =
        unfold lines_text in scan_request_line-text method path _ m p in
      let content : parse_content_length (lines_text (l ∷ ls) (crlf ++ t))
            (length (crlf ++ (crlf ++ t)))
          ≡ some (length body) =
        parse_content_length-text l before (length body) after t first-HeaderLine small b in
      let size : length (lines_text (l ∷ ls) (crlf ++ t))
          ≡ length (lines_text (l ∷ ls) crlf) + length t =
        ap length (lines_text-append (l ∷ ls) crlf t)
        ∙ length-append (lines_text (l ∷ ls) crlf) t in
      let header_len : length (lines_text (l ∷ ls) (crlf ++ t)) - length (crlf ++ (crlf ++ t)) + 4
          ≡ length (lines_text (l ∷ ls) crlf) =
        omega (arith, size, head_size l ls first-HeaderLine) in
      let total : leb (length (lines_text (l ∷ ls) crlf) + length body) http_max_request ≡ true =
        le→leb _ _ (
          omega (
            arith,
            fits,
            ap length (lines_text-append (l ∷ ls) crlf body),
            length-append (lines_text (l ∷ ls) crlf) body,
          )) in
      rw (text, scanned, content, le→leb (length body) http_max_body small, header_len, total) refl

  read_rest-text :
      (early late headers_end : Bytes) {left : List Recv}
      → Delivers left late
      → early ++ late ≡ body
      → read_rest
          (record {
            buffer = lines_text (head_lines method path before (length body) after) (crlf ++ early);
            headers_end = headers_end;
            left = left;
          })
          (ok (
            (method, path),
            length (lines_text (head_lines method path before (length body) after) crlf),
            length body,
          ))
        ≡ some (ok (record { method = method; path = path; body = body; body_len = length body }))
  read_rest-text early late headers_end {left} d e =
      let ls = head_lines method path before (length body) after in
      let head = lines_text ls crlf in
      let arrived : body_loop left (lines_text ls (crlf ++ early)) (length head + length body)
          ≡ some (ok (head ++ body)) =
        ap₂ (body_loop left) (lines_text-append ls crlf early) (sym (length-append head body))
        ∙ body_loop-Delivers (head ++ early) (head ++ body) d
            (append_assoc head early late ∙ ap (λ u. head ++ u) e) in
      let taken : take (length body) (drop (length head) (head ++ body)) ≡ body =
        ap (take (length body)) (drop-append head body)
        ∙ take-all (length body) body (omega arith) in
      ap (request_of (method, path) (length head) (length body)) arrived
      ∙ ap
          (λ u.
            some (ok (record { method = method; path = path; body = u; body_len = length body })))
          taken

  -- A request with a method of 1 to 7 bytes, a path of 1 to 127, a `Content-Length` line with the
  -- length of its body, and any other header lines that are not empty, where the body has at most
  -- 32768 bytes and all of it at most 65536: however `recv` cuts the bytes up and however often it
  -- is interrupted, `http_read_request` returns the request with this method, path and body. The
  -- words have no white space, the lines no carriage return, and neither has a NUL; the body is any
  -- bytes.
  pub http_read_request-text :
      {events : List Recv}
      → Delivers events
          (lines_text (head_lines method path before (length body) after) (crlf ++ body))
      → http_read_request events
        ≡ some (ok (record { method = method; path = path; body = body; body_len = length body }))
  unfolding http_read_request
  http_read_request-text {events} d =
      let ls = before ++ length_line (length body) ∷ after in
      let r =
        header_loop-Read (request_line method path) ls body first-HeaderLine others-AllLines fits []
          d refl (omega (arith, head_size (request_line method path) ls first-HeaderLine)) in
      ap read_after r.found
      ∙ ap
          (read_rest (record {
            buffer = lines_text (request_line method path ∷ ls) (crlf ++ r.early);
            headers_end = crlf ++ (crlf ++ until_nul r.early);
            left = r.left;
          }))
          (read_head-text r.early r.left)
      ∙ read_rest-text r.early r.late (crlf ++ (crlf ++ until_nul r.early)) r.delivers r.same_body
