-- ===== src/Db/Rendered.antt =====
-- The text that the functions of Db/Rows.antt append.
use tryo.Prelude.{
  length, length-append, ◌+◌, ◌≢◌, ℕ, ◌≡◌, refl, sym, ◌∙◌, ap, Bool, true, false, Option, none,
  some, List, [], ◌∷◌, ◌++◌, append-nil, append_assoc, arith, if◌then◌else◌, Bytes, codes, ◌>>=◌,
}
use tryo.Prelude.Decimal.{decimal}
use tryo.Util.Escape.{escape}
use tryo.Util.Builder.{
  JsonBuilder, IsValid, Appended, done, failed, more_rounds, json_builder_append,
  json_builder_append_string,
}
use tryo.Util.Growth.{Extends}
use tryo.Util.Growth.{
  json_builder_append-Extends, json_builder_appendf-lem, json_builder_append_string-Extends,
  appendf_in_time,
}
use tryo.Util.Room.{
  Short, escaped, json_builder_append-Short, json_builder_appendf-Short,
  json_builder_append_string-Short,
}
use tryo.Db.Rows.{
  Record, DbColumn, column_id, column_name, column_age, DbProjection, appended, append_int,
  append_json_separator, append_field, append_record_field_json, append_columns, append_if,
  append_included, append_fields, append_record_json,
}

abbrev pub field_text : Record → DbColumn → Bytes
field_text r column_id = codes "\"id\":" ++ decimal r.id
field_text r column_name = codes "\"name\":" ++ b'"' ∷ (escape r.name ++ b'"' ∷ [])
field_text r column_age = codes "\"age\":" ++ decimal r.age

abbrev pub comma : Bool → Bytes
comma need_comma = if need_comma then codes "," else []

abbrev pub fields_text : Record → List DbColumn → Bool → Bytes
fields_text r [] need_comma = []
fields_text r (c ∷ cs) need_comma = (comma need_comma ++ field_text r c) ++ fields_text r cs true

abbrev when : Bool → DbColumn → List DbColumn → List DbColumn
when included c cs = if included then c ∷ cs else cs

-- the columns that a projection is for, in their order
abbrev pub columns_of : DbProjection → List DbColumn → List DbColumn
columns_of p (c ∷ cs) = c ∷ cs
columns_of p [] =
    when p.include_id column_id (when p.include_name column_name (when p.include_age column_age []))

-- a row as a JSON object
abbrev pub record_text : DbProjection → Record → Bytes
record_text p r = codes "{" ++ (fields_text r (columns_of p p.columns) false ++ codes "}")

module _ (malloc : ℕ → Bool) where
  -- a builder that is valid and has the text more than `b`, or a reason that there is none
  pub data Adds (b : JsonBuilder) (text : Bytes) : Option JsonBuilder → Type 0 where
    adds : (b' : JsonBuilder) → Extends malloc b text b' → Adds b text (some b')
    nothing : Short malloc (length b.text + length text + 2) → Adds b text none

  pub Adds-bind :
      {b : JsonBuilder} {s t : Bytes} {m : Option JsonBuilder}
      (f : JsonBuilder → Option JsonBuilder)
      → Adds b s m
      → ((b' : JsonBuilder) → IsValid b' → Adds b' t (f b'))
      → Adds b (s ++ t) (m >>= f)
  Adds-bind {b} {s} {t} f (nothing short) k =
      nothing (λ m. omega (arith, short m, length-append s t))
  Adds-bind {b} {s} {t} f (adds b₁ x) k = chain (f b₁) (k b₁ x.valid)
    where
      chain : (o : Option JsonBuilder) → Adds b₁ t o → Adds b (s ++ t) o
      chain none (nothing short) =
          nothing (λ m.
            omega (arith, short m, length-append s t, ap length x.same, length-append b.text s))
      chain (some _) (adds b₂ y) = adds b₂ (record {
        valid = y.valid;
        same = y.same ∙ ap (λ u. u ++ t) x.same ∙ append_assoc b.text s t;
      })

  pub Adds-some :
      {b : JsonBuilder} {s : Bytes} (o : Option JsonBuilder)
      → ((b' : JsonBuilder) → o ≡ some b' → Extends malloc b s b')
      → (o ≡ none → Short malloc (length b.text + length s + 2))
      → Adds b s o
  Adds-some none h short = nothing (short refl)
  Adds-some (some b') h short = adds b' (h b' refl)

  Adds-none : {b : JsonBuilder} → IsValid b → Adds b [] (some b)
  Adds-none {b} v = adds b (record { valid = v; same = sym (append-nil _) })

  pub Adds-append :
      (b : JsonBuilder) (s : Bytes) → IsValid b → Adds b s (json_builder_append malloc b s)
  Adds-append b s v =
      Adds-some _ (λ b' e. json_builder_append-Extends malloc b s v e)
        (λ e m. omega (arith, json_builder_append-Short malloc b s v e m))

  appended-done : (a : Appended) {b' : JsonBuilder} → appended a ≡ some b' → a ≡ done b'
  appended-done (done b) h = cc
  appended-done failed h = cc
  appended-done more_rounds h = cc

  appended-failed : (a : Appended) → a ≢ more_rounds → appended a ≡ none → a ≡ failed
  appended-failed (done b) n h = cc
  appended-failed failed n h = refl
  appended-failed more_rounds n h = absurd (n refl)

  Adds-int : (b : JsonBuilder) (n : ℕ) → IsValid b → Adds b (decimal n) (append_int malloc b n)
  unfolding append_int
  Adds-int b n v =
      let ends = appendf_in_time malloc b (some (decimal n)) v in
      Adds-some _ (λ b' e. json_builder_appendf-lem malloc 2 b (decimal n) v (appended-done _ e))
        (λ e. json_builder_appendf-Short malloc b (decimal n) v (appended-failed _ ends e))

  pub Adds-string :
      (b : JsonBuilder) (text : Bytes)
      → IsValid b
      → Adds b (b'"' ∷ (escape text ++ b'"' ∷ [])) (json_builder_append_string malloc b text)
  Adds-string b text v =
      Adds-some _
        (λ b' e.
          let (body, e', x) = json_builder_append_string-Extends malloc b text v e in
          rw (← escaped malloc text e') x)
        (λ e m. omega (arith, json_builder_append_string-Short malloc b text v e m))

  Adds-field :
      (b : JsonBuilder) (r : Record) (c : DbColumn)
      → IsValid b
      → Adds b (field_text r c) (append_field malloc b r c)
  Adds-field b r column_id v =
      Adds-bind _ (Adds-append b (codes "\"id\":") v) λ b₁ w. Adds-int b₁ r.id w
  Adds-field b r column_name v =
      Adds-bind _ (Adds-append b (codes "\"name\":") v) λ b₁ w. Adds-string b₁ r.name w
  Adds-field b r column_age v =
      Adds-bind _ (Adds-append b (codes "\"age\":") v) λ b₁ w. Adds-int b₁ r.age w

  pub Adds-separator :
      (b : JsonBuilder) (need_comma : Bool)
      → IsValid b
      → Adds b (comma need_comma) (append_json_separator malloc b need_comma)
  Adds-separator b true v = Adds-append b (codes ",") v
  Adds-separator b false v = Adds-none v

  Adds-record_field :
      (b : JsonBuilder) (r : Record) (c : DbColumn) (need_comma : Bool)
      → IsValid b
      → Adds b
          (comma need_comma ++ field_text r c)
          (append_record_field_json malloc b r c need_comma)
  Adds-record_field b r c need_comma v =
      Adds-bind _ (Adds-separator b need_comma v) λ b₁ w. Adds-field b₁ r c w

  Adds-columns :
      (b : JsonBuilder) (r : Record) (cs : List DbColumn) (need_comma : Bool)
      → IsValid b
      → Adds b (fields_text r cs need_comma) (append_columns malloc b r cs need_comma)
  Adds-columns b r [] need_comma v = Adds-none v
  Adds-columns b r (c ∷ cs) need_comma v =
      Adds-bind _ (Adds-record_field b r c need_comma v) λ b₁ w. Adds-columns b₁ r cs true w

  Adds-if :
      (b : JsonBuilder) (r : Record) (included : Bool) (c : DbColumn) (need_comma : Bool)
      → IsValid b
      → Adds b
          (fields_text r (when included c []) need_comma)
          (append_if malloc included b r c need_comma)
  Adds-if b r true c need_comma v =
      rw (append-nil (comma need_comma ++ field_text r c)) (Adds-record_field b r c need_comma v)
  Adds-if b r false c need_comma v = Adds-none v

  Adds-included :
      (b : JsonBuilder) (r : Record) (i n a : Bool)
      → IsValid b
      → Adds b
          (fields_text r (when i column_id (when n column_name (when a column_age []))) false)
          (append_included malloc b r
            (record { include_id = i; include_name = n; include_age = a; columns = [] }))
  Adds-included b r true true a v = Adds-bind _ (Adds-record_field b r column_id false v) λ b₁ w.
      Adds-bind _ (Adds-record_field b₁ r column_name true w)
        λ b₂ x. Adds-if b₂ r a column_age true x
  Adds-included b r true false a v =
      Adds-bind _ (Adds-record_field b r column_id false v) λ b₁ w. Adds-if b₁ r a column_age true w
  Adds-included b r false true a v =
      Adds-bind _ (Adds-record_field b r column_name false v)
        λ b₁ w. Adds-if b₁ r a column_age true w
  Adds-included b r false false a v = Adds-if b r a column_age false v

  Adds-fields :
      (b : JsonBuilder) (r : Record) (p : DbProjection) (cs : List DbColumn)
      → p.columns ≡ cs
      → IsValid b
      → Adds b (fields_text r (columns_of p cs) false) (append_fields malloc b r p cs)
  Adds-fields b r p (c ∷ cs) e v = Adds-columns b r (c ∷ cs) false v
  Adds-fields b r p [] e v = Adds-included b r p.include_id p.include_name p.include_age v

  pub Adds-record :
      (b : JsonBuilder) (r : Record) (p : DbProjection)
      → IsValid b
      → Adds b (record_text p r) (append_record_json malloc b r p)
  unfolding append_record_json
  Adds-record b r p v =
      (Adds-bind _ (Adds-append b (codes "{") v) λ b₁ w.
        Adds-bind _ (Adds-fields b₁ r p p.columns refl w) λ b₂ x. Adds-append b₂ (codes "}") x)
