-- ===== src/Util/Room.antt =====
-- When the string builder of src/util.c fails: only for lack of memory, or on texts of 2 ^ 60 bytes.
use tryo.Prelude.{
  ℕ, zero, suc, ◌+◌, ◌-◌, ◌*◌, ◌/◌, ◌^◌, ◌≤◌, ◌<◌, ◌≡◌, ◌≢◌, refl, ◌∙◌, ap, Bool, true, Option,
  none, some, [], ◌∷◌, ◌++◌, arith, length, length-append, ltb, leb, ◌==◌, if◌then◌else◌, Bytes,
  Bool-cases, Option-cases, inl, inr, ltb→lt, lt→ltb,
}
use tryo.Util.Escape.{size_max, escape, escape_byte, escape_loop-escape, json_escape_dup}
use tryo.Util.Builder.{
  JsonBuilder, IsValid, Grown, grown, too_big, out_of_fuel, grow_cap, Appended, failed, reallocate,
  json_builder_reserve, json_builder_append, json_builder_appendf, json_builder_append_string,
}
use tryo.Util.Growth.{
  grow_cap_terminates, json_builder_append-Extends, json_builder_reserve-Reserved,
}

-- every allocation succeeds
abbrev pub Roomy : (ℕ → Bool) → Type 0
Roomy malloc = (n : ℕ) → malloc n ≡ true

-- a failure on a text of n bytes has a reason
abbrev pub Short : (ℕ → Bool) → ℕ → Type 0
Short malloc n = Roomy malloc → 2 ^ 60 ≤ n

grow_cap-too_big :
    (f next_cap needed : ℕ) → grow_cap f next_cap needed ≡ too_big → size_max / 2 < needed
unfolding grow_cap
grow_cap-too_big zero next_cap needed h = cc h
grow_cap-too_big (suc f) next_cap needed h =
    ground (arith, grow_cap-too_big f (next_cap * 2) needed)

length-escape_byte_ge : (ch : ℕ) → 1 ≤ length (escape_byte ch)
unfolding escape_byte
length-escape_byte_ge ch = ground arith

length-escape_ge : (s : Bytes) → length s ≤ length (escape s)
unfolding escape
length-escape_ge [] = omega arith
length-escape_ge (ch ∷ s) =
    omega (
      arith,
      length-escape_byte_ge ch,
      length-escape_ge s,
      length-append (escape_byte ch) (escape s),
    )

pub escaped :
    (malloc : ℕ → Bool) (text : Bytes) {body : Bytes}
    → json_escape_dup malloc text ≡ some body
    → body ≡ escape text
unfolding json_escape_dup
escaped malloc text h = ground (arith, escape_loop-escape text [])

module _ (malloc : ℕ → Bool) where
  reallocate-none :
      (b : JsonBuilder) (g : Grown)
      → Roomy malloc
      → reallocate malloc b g ≡ none
      → g ≢ out_of_fuel
      → g ≡ too_big
  unfolding reallocate
  reallocate-none b (grown n) m h g = cc (rw (m n) at h)
  reallocate-none b too_big m h g = refl
  reallocate-none b out_of_fuel m h g = absurd (g refl)

  json_builder_reserve-Short :
      (b : JsonBuilder) (extra : ℕ)
      → IsValid b
      → json_builder_reserve malloc b extra ≡ none
      → Short malloc (length b.text + extra + 1)
  unfolding json_builder_reserve
  json_builder_reserve-Short b extra v h m =
      elim (Bool-cases (ltb (size_max - length b.text - 1) extra)) [
        | inl wraps ↦ omega (arith, ltb→lt _ _ wraps)
        | inr fits ↦ (elim (Bool-cases (leb (length b.text + extra + 1) b.cap)) [
          | inl enough ↦ cc (rw (fits, enough) at h)
          | inr short ↦
              (let start : 0 < (if b.cap == 0 then 256 else b.cap) = ground arith in
                let big = reallocate-none b _ m (rw (fits, short) at h) (
                  grow_cap_terminates (if b.cap == 0 then 256 else b.cap)
                    (length b.text + extra + 1) start) in
                omega (arith, grow_cap-too_big 64 _ _ big))
        ])
      ]

  pub json_builder_append-Short :
      (b : JsonBuilder) (text : Bytes)
      → IsValid b
      → json_builder_append malloc b text ≡ none
      → Short malloc (length b.text + length text + 1)
  unfolding json_builder_append
  json_builder_append-Short b text v h =
      elim (Option-cases (json_builder_reserve malloc b (length text))) [
        | inl full ↦ json_builder_reserve-Short b (length text) v full
        | inr (b', e) ↦ cc (rw e at h)
      ]

  pub json_builder_appendf-Short :
      (b : JsonBuilder) (s : Bytes)
      → IsValid b
      → json_builder_appendf malloc 2 b (some s) ≡ failed
      → Short malloc (length b.text + length s + 2)
  unfolding json_builder_appendf
  json_builder_appendf-Short b s v h = elim (Bool-cases (ltb (length b.text + length s) b.cap)) [
    | inl fits ↦ cc (rw fits at h)
    | inr full ↦ retry (json_builder_reserve malloc b (length s + 1)) refl (rw full at h)
  ]
    where
      retry :
          (o : Option JsonBuilder)
          → json_builder_reserve malloc b (length s + 1) ≡ o
          → elim o as (λ x. Appended) [
            | none ↦ failed
            | some b₁ ↦ json_builder_appendf malloc 1 b₁ (some s)
          ]
            ≡ failed
          → Short malloc (length b.text + length s + 2)
      retry none e k = λ m. omega (arith, json_builder_reserve-Short b (length s + 1) v e m)
      retry (some b₁) e k =
          let r = json_builder_reserve-Reserved malloc b (length s + 1) v e in
          let fits : ltb (length b₁.text + length s) b₁.cap ≡ true =
            lt→ltb _ _ (omega (arith, r.has_room, ap length r.same_text)) in
          cc (rw fits at k)

  json_escape_dup-Short :
      (text : Bytes) → json_escape_dup malloc text ≡ none → Short malloc (length (escape text))
  unfolding json_escape_dup
  json_escape_dup-Short text h m = elim (Bool-cases (ltb ((size_max - 1) / 6) (length text))) [
    | inl long ↦ omega (arith, ltb→lt _ _ long, length-escape_ge text)
    | inr fits ↦ cc (rw (fits, m (length text * 6 + 1)) at h)
  ]

  pub json_builder_append_string-Short :
      (b : JsonBuilder) (text : Bytes)
      → IsValid b
      → json_builder_append_string malloc b text ≡ none
      → Short malloc (length b.text + length (b'"' ∷ (escape text ++ b'"' ∷ [])) + 1)
  unfolding json_builder_append_string
  json_builder_append_string-Short b text v h m =
      elim (Option-cases (json_escape_dup malloc text)) [
        | inl long ↦
            omega
              (arith, json_escape_dup-Short text long m, length-append (escape text) (b'"' ∷ []))
        | inr (body, e) ↦
            (let same : body ≡ escape text = escaped malloc text e in
              let size = length-append (escape text) (b'"' ∷ []) in
              elim (Option-cases (json_builder_append malloc b (b'"' ∷ []))) [
                | inl full ↦ omega (arith, json_builder_append-Short b (b'"' ∷ []) v full m, size)
                | inr (b₁, e₁) ↦
                    (let x₁ = json_builder_append-Extends malloc b (b'"' ∷ []) v e₁ in
                      let size₁ = ap length x₁.same ∙ length-append b.text (b'"' ∷ []) in
                      elim (Option-cases (json_builder_append malloc b₁ body)) [
                        | inl full ↦ omega (
                          arith,
                          json_builder_append-Short b₁ body x₁.valid full m,
                          size,
                          size₁,
                          ap length same,
                        )
                        | inr (b₂, e₂) ↦
                            (let x₂ = json_builder_append-Extends malloc b₁ body x₁.valid e₂ in
                              let size₂ = ap length x₂.same ∙ length-append b₁.text body in
                              omega (
                                arith,
                                json_builder_append-Short b₂ (b'"' ∷ []) x₂.valid
                                    (rw (e, e₁, e₂) at h) m,
                                size,
                                size₁,
                                size₂,
                                ap length same,
                              ))
                      ])
              ])
      ]
