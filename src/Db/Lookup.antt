-- ===== src/Db/Lookup.antt =====
-- `db_select_projected` against a filter over all the records.
use Prim.Native.String.{String}
use tryo.Prelude.{
  ℕ, suc, ◌+◌, ◌≡◌, refl, sym, ◌∙◌, ap, Bool, true, false, Option, some, List, [], ◌∷◌, ◌++◌,
  append-nil, append_assoc, arith, Bytes, codes, length, length-append, Bool-cases, inl, inr,
}
use tryo.Prelude.Decimal.{decimal}
use tryo.Bptree.{bptree_search}
use tryo.Sql.{Parsed, ok, fail, ◌or_fail◌}
use tryo.Db.Yields.{Yields, yields, refused, Yields-bind, Yields-weaken, Yields-or_fail}
use tryo.Util.Builder.{JsonBuilder, IsValid, json_builder_init}
use tryo.Util.Growth.{Extends}
use tryo.Util.Room.{Short}
use tryo.Db.Rows.{Record, DbProjection}
use tryo.Db.Engine.{DbEngine, Calls, rows}
use tryo.Db.Select.{
  DbFilterType, filter_all, filter_id, filter_name, DbFilter, included, normalized, scan_loop,
  row_found, matching_rows, select_rows, uses_index, select_result, db_select_projected,
}
use tryo.Db.Rendered.{Adds, adds, nothing, Adds-append, Adds-separator, Adds-record}
use tryo.Db.Sound.{IsSound}
use tryo.Db.Matching.{
  matches, matching, rows_text, array_text, one_more, Located, nowhere, located, position-Located,
}

-- what a filter is for
module _ (malloc : ℕ → Bool) where
  -- why a text that is added to a builder can be missing
  abbrev Lacks : JsonBuilder → Bytes → Type 0
  Lacks b s = Short malloc (length b.text + length s + 2)

  -- for the first part of a text
  Adds-or_fail :
      {b : JsonBuilder} {s : Bytes} {o : Option JsonBuilder} (t : Bytes) (message : String)
      → Adds malloc b s o
      → Yields (Lacks b (s ++ t)) (Extends malloc b s) (o or_fail message)
  Adds-or_fail t message (adds b' x) = yields b' x
  Adds-or_fail {s = s} t message (nothing short) =
      refused (λ m. omega (arith, short m, length-append s t)) message

  -- the builder has the rows more, and `matched` counts them
  abbrev Scanned : JsonBuilder → Bytes → ℕ → JsonBuilder × ℕ → Type 0
  Scanned b s n out = Extends malloc b s out.0 × (out.1 ≡ n)

  Scanned-after :
      {b b₁ : JsonBuilder} {s t : Bytes} {n : ℕ} {m : Parsed (JsonBuilder × ℕ)}
      → Extends malloc b s b₁
      → Yields (Lacks b₁ t) (Scanned b₁ t n) m
      → Yields (Lacks b (s ++ t)) (Scanned b (s ++ t) n) m
  Scanned-after {b} {b₁} {s} {t} x (yields out y) = yields out (
    record {
      valid = y.0.valid;
      same = y.0.same ∙ ap (λ u. u ++ t) x.same ∙ append_assoc b.text s t;
    },
    y.1,
  )
  Scanned-after {b} {b₁} {s} {t} x (refused short message) =
      refused
        (λ m. omega (arith, short m, length-append s t, ap length x.same, length-append b.text s))
        message

  scan_loop-Scanned :
      (b : JsonBuilder) (rs : List Record) (filter : DbFilter) (p : DbProjection)
      (need_comma : Bool) (matched : ℕ)
      → IsValid b
      → ((r : Record) → included filter filter.type r ≡ matches filter filter.type r)
      → let rows = rows_text p (matching filter filter.type rs) need_comma in
        Yields
          (Lacks b rows)
          (Scanned b rows (matched + length (matching filter filter.type rs)))
          (scan_loop malloc b rs filter p need_comma matched)
  unfolding scan_loop matching rows_text
  scan_loop-Scanned b [] filter p need_comma matched v h =
      yields _ (record { valid = v; same = sym (append-nil _) }, omega arith)
  scan_loop-Scanned b (r ∷ rs) filter p need_comma matched v h =
      elim (Bool-cases (matches filter filter.type r)) [
        | inr out ↦ rw (h r, out) (scan_loop-Scanned b rs filter p need_comma matched v h)
        | inl in_ ↦
            (rw (h r, in_)
              (Yields-bind _ (Adds-or_fail _ _ (Adds-separator malloc b need_comma v)) λ b₁ x.
                Scanned-after x (
                  Yields-bind _ (Adds-or_fail _ _ (Adds-record malloc b₁ r p x.valid)) λ b₂ y.
                    Scanned-after y (
                      rw (one_more matched (length (matching filter filter.type rs)))
                        (scan_loop-Scanned b₂ rs filter p true (suc matched) y.valid h)))))
      ]

  row_found-Scanned :
      (b : JsonBuilder) (db : DbEngine) (filter : DbFilter) (p : DbProjection)
      → IsValid b
      → IsSound db
      → let rows = rows_text p (matching filter filter_id db.records) false in
        Yields
          (Lacks b rows)
          (Scanned b rows (length (matching filter filter_id db.records)))
          (row_found malloc b db p (bptree_search db.index filter.id))
  unfolding rows_text
  row_found-Scanned b db filter p v s =
      rw (s.found filter.id) (go (position-Located filter db.records 0 s.different))
    where
      go :
          {o : Option ℕ} {ms : List Record}
          → Located db.records 0 ms o
          → Yields
              (Lacks b (rows_text p ms false))
              (Scanned b (rows_text p ms false) (length ms))
              (row_found malloc b db p o)
      go (nowhere e) = rw e (yields _ (record { valid = v; same = sym (append-nil _) }, refl))
      go (located j k r q g e) =
          let q' : k ≡ j = omega (arith, q) in
          rw (e, q', g)
            (Yields-bind _ (Adds-or_fail _ _ (Adds-record malloc b r p v)) λ b₁ x.
              Scanned-after x
                (yields _ (record { valid = x.valid; same = sym (append-nil _) }, refl)))

  from_zero :
      {b : JsonBuilder} {s : Bytes} {n : ℕ} {F : Type 0} {m : Parsed (JsonBuilder × ℕ)}
      → Yields F (Scanned b s (0 + n)) m
      → Yields F (Scanned b s n) m
  from_zero {n = n} h = let e : 0 + n ≡ n = omega arith in rw e at h

  matching_rows-Scanned :
      (b : JsonBuilder) (db : DbEngine) (filter : DbFilter) (type : DbFilterType) (p : DbProjection)
      → filter.type ≡ type
      → IsValid b
      → IsSound db
      → let rows = rows_text p (matching filter type db.records) false in
        Yields
          (Lacks b rows)
          (Scanned b rows (length (matching filter type db.records)))
          (matching_rows malloc b db filter type p)
  unfolding matching_rows included
  matching_rows-Scanned b db filter filter_id p e v s = row_found-Scanned b db filter p v s
  matching_rows-Scanned b db filter filter_all p e v s =
      rw (← e) (from_zero (scan_loop-Scanned b db.records filter p false 0 v λ r. rw e refl))
  matching_rows-Scanned b db filter filter_name p e v s =
      rw (← e) (from_zero (scan_loop-Scanned b db.records filter p false 0 v λ r. rw e refl))

  pub json_builder_init-empty :
      {b : JsonBuilder} → json_builder_init malloc ≡ some b → IsValid b × (b.text ≡ [])
  unfolding json_builder_init
  json_builder_init-empty h = ground arith

  -- the text is the array, and the count that of its rows
  abbrev pub Selected : Bytes → ℕ → JsonBuilder × ℕ → Type 0
  Selected s n out = (out.0.text ≡ s) × (out.1 ≡ n)

  pub select_rows-Selected :
      (db : DbEngine) (filter : DbFilter) (p : DbProjection)
      → IsSound db
      → let ms = matching filter filter.type db.records in
        Yields
          (Short malloc (length (array_text p ms) + 2))
          (Selected (array_text p ms) (length ms))
          (select_rows malloc db filter p)
  unfolding select_rows json_builder_init
  select_rows-Selected db filter p s =
      let ms = matching filter filter.type db.records in
      let rows = rows_text p ms false in
      Yields-bind _
        (Yields-or_fail (λ b. IsValid b × (b.text ≡ [])) _ _ (λ b e. json_builder_init-empty e)
          (λ e m. cc (rw (m 256) at e)))
        λ b i.
          Yields-bind _
            (Yields-weaken (λ short m. omega (arith, short m, ap length i.1))
              (Adds-or_fail (rows ++ codes "]") _ (Adds-append malloc b (codes "[") i.0)))
            λ b₁ x.
              Yields-bind _
                (Yields-weaken
                  (λ short m. omega (
                    arith,
                    short m,
                    ap length i.1,
                    ap length x.same,
                    length-append b.text (codes "["),
                    length-append rows (codes "]"),
                  ))
                  (matching_rows-Scanned b₁ db filter filter.type p refl x.valid s))
                λ r y.
                  Yields-bind _
                    (Yields-weaken
                      (λ short m. omega (
                        arith,
                        short m,
                        ap length i.1,
                        ap length x.same,
                        length-append b.text (codes "["),
                        ap length y.0.same,
                        length-append b₁.text rows,
                        length-append rows (codes "]"),
                      ))
                      (Adds-or_fail [] _ (Adds-append malloc r.0 (codes "]") y.0.valid)))
                    λ b₃ z. yields _ (joined _ _ _ i.1 x.same y.0.same z.same, y.1)
    where
      joined :
          {t₀ t₁ t₂ t₃ : Bytes} (u v w : Bytes)
          → t₀ ≡ []
          → t₁ ≡ t₀ ++ u
          → t₂ ≡ t₁ ++ v
          → t₃ ≡ t₂ ++ w
          → t₃ ≡ u ++ (v ++ w)
      joined u v w e f g h = h ∙ rw (g, f, e) (append_assoc u v w)

-- what a selection answers: an error, or all the matching rows
pub record Answers (rows_json message : Bytes) (used : Bool) (type : DbFilterType)
    (p : DbProjection) (ms : List Record) : Type 0 where
  pub json : rows_json ≡ array_text p ms
  pub counted : message ≡ codes "selected " ++ decimal (length ms) ++ codes " row(s)"
  pub index_used : used ≡ uses_index type

select_result-Answers :
    (type : DbFilterType) (p : DbProjection) (ms : List Record) (m : Parsed (JsonBuilder × ℕ))
    {out message : Bytes} {used : Bool} {malloc : ℕ → Bool} {k : ℕ}
    → Yields (Short malloc k) (λ r. (r.0.text ≡ array_text p ms) × (r.1 ≡ length ms)) m
    → select_result type m ≡ rows out message used
    → Answers out message used type p ms
select_result-Answers type p ms (ok (b, n)) (yields _ h) e = record {
  json = cc (h.0, e);
  counted = cc (ap (λ n. codes "selected " ++ decimal n ++ codes " row(s)") h.1, e);
  index_used = cc e;
}
select_result-Answers type p ms (fail m) h e = cc

-- A selection on a sound engine that is not answered by an error returns, as a JSON array in the
-- order of the records, exactly the records that match the filter, whether it went through the index
-- or over all the records; and the message counts them.
pub db_select_projected-Answers :
    (c : Calls) (db : DbEngine) (filter : DbFilter) (p : DbProjection) {out message : Bytes}
    {used : Bool}
    → IsSound db
    → db_select_projected c db filter p ≡ rows out message used
    → Answers out message used filter.type
        (normalized p p.columns)
        (matching filter filter.type db.records)
unfolding db_select_projected
db_select_projected-Answers c db filter p s e = elim (Bool-cases c.lock_ok) [
  | inr busy ↦ cc (rw busy at e)
  | inl locked ↦
      select_result-Answers filter.type _ _ _ (select_rows-Selected c.malloc db filter _ s)
        (rw locked at e)
]
