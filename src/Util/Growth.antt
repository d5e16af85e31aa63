-- ===== src/Util/Growth.antt =====
-- What the functions on a `JsonBuilder` of src/util.c add to its text.
use native.Mathlib.Nat.{pow-suc}
use tryo.Prelude.{
  ℕ, zero, suc, ◌+◌, ◌-◌, ◌*◌, ◌/◌, ◌^◌, ◌≤◌, ◌<◌, ◌≡◌, ◌≢◌, refl, sym, ◌∙◌, ap, Bool, Option, none,
  some, [], ◌∷◌, ◌++◌, append_assoc, arith, length, length-append, ltb, leb, if◌then◌else◌, ◌==◌,
  Bytes, Bool-cases, inl, inr, >>=-eq-some,
}
use tryo.Util.Escape.{size_max, json_escape_dup}
use tryo.Util.Json.{read_body, plain, json_escape_dup-spells}
use tryo.Util.Builder.{
  JsonBuilder, IsValid, Grown, grown, too_big, out_of_fuel, grow_cap, next_cap_loop, Appended, done,
  failed, more_rounds, reallocate, json_builder_reserve, json_builder_append, json_builder_appendf,
  json_builder_append_string,
}

grow_cap_in_time :
    (f next_cap needed : ℕ)
    → size_max / 2 < next_cap * 2 ^ f
    → grow_cap (suc f) next_cap needed ≢ out_of_fuel
unfolding grow_cap
grow_cap_in_time zero next_cap needed h = ground arith
grow_cap_in_time (suc f) next_cap needed h =
    ground
      (arith, grow_cap_in_time f (next_cap * 2) needed (omega (arith, (rw (pow-suc 2 f) at h))))

-- The doubling loop of `json_builder_reserve` ends within 64 rounds, from any capacity but 0.
pub grow_cap_terminates :
    (next_cap needed : ℕ) → 0 < next_cap → grow_cap 64 next_cap needed ≢ out_of_fuel
grow_cap_terminates next_cap needed h = grow_cap_in_time 63 next_cap needed (omega arith)

grow_cap_lem :
    (f next_cap needed n : ℕ)
    → next_cap ≤ size_max
    → grow_cap f next_cap needed ≡ grown n
    → (needed ≤ n) × (next_cap ≤ n) × (n ≤ size_max)
unfolding grow_cap
grow_cap_lem zero next_cap needed n s h = cc
grow_cap_lem (suc f) next_cap needed n s h = ground (arith, grow_cap_lem f (next_cap * 2) needed n)

quoted : (t body : Bytes) → ((t ++ b'"' ∷ []) ++ body) ++ b'"' ∷ [] ≡ t ++ b'"' ∷ body ++ b'"' ∷ []
quoted t body = ap (λ u. u ++ b'"' ∷ []) (append_assoc t (b'"' ∷ []) body)

module _ (realloc : ℕ → Bool) where
  -- what a successful reservation leaves
  pub record Reserved (b : JsonBuilder) (extra : ℕ) (b' : JsonBuilder) : Type 0 where
    pub same_text : b'.text ≡ b.text
    pub has_room : length b.text + extra + 1 ≤ b'.cap
    pub small : b'.cap ≤ size_max

  reallocate-lem :
      (b : JsonBuilder) (g : Grown) {b' : JsonBuilder}
      → reallocate realloc b g ≡ some b'
      → (n : ℕ) × (g ≡ grown n) × (b'.text ≡ b.text) × (b'.cap ≡ n)
  unfolding reallocate
  reallocate-lem b (grown n) h = (n, refl, ground arith, ground arith)
  reallocate-lem b too_big h = cc
  reallocate-lem b out_of_fuel h = cc

  pub json_builder_reserve-Reserved :
      (b : JsonBuilder) (extra : ℕ) {b' : JsonBuilder}
      → IsValid b
      → json_builder_reserve realloc b extra ≡ some b'
      → Reserved b extra b'
  unfolding json_builder_reserve
  json_builder_reserve-Reserved b extra {b'} v h =
      elim (Bool-cases (ltb (size_max - length b.text - 1) extra)) [
        | inl wraps ↦ cc (rw wraps at h)
        | inr fits ↦ (elim (Bool-cases (leb (length b.text + extra + 1) b.cap)) [
          | inl enough ↦ ground arith
          | inr short ↦
              (let (n, e, t, c) = reallocate-lem b _ (rw (fits, short) at h) in
                let (low, grows, high) = grow_cap_lem 64 _ _ n (ground arith) e in
                record { same_text = t; has_room = rw c low; small = rw c high })
        ])
      ]

  -- what a successful append leaves
  pub record Extends (b : JsonBuilder) (text : Bytes) (b' : JsonBuilder) : Type 0 where
    pub valid : IsValid b'
    pub same : b'.text ≡ b.text ++ text

  pub json_builder_append-Extends :
      (b : JsonBuilder) (text : Bytes) {b' : JsonBuilder}
      → IsValid b
      → json_builder_append realloc b text ≡ some b'
      → Extends b text b'
  unfolding json_builder_append
  json_builder_append-Extends b text {b'} v h =
      let (r, e, e') = >>=-eq-some (json_builder_reserve realloc b (length text)) _ h in
      let s = json_builder_reserve-Reserved b (length text) v e in
      ground (arith, s, length-append b.text text)

  pub json_builder_appendf-lem :
      (f : ℕ) (b : JsonBuilder) (s : Bytes) {b' : JsonBuilder}
      → IsValid b
      → json_builder_appendf realloc f b (some s) ≡ done b'
      → Extends b s b'
  unfolding json_builder_appendf
  json_builder_appendf-lem zero b s v h = cc
  json_builder_appendf-lem (suc f) b s {b'} v h =
      elim (Bool-cases (ltb (length b.text + length s) b.cap)) [
        | inl fits ↦ ground (arith, length-append b.text s)
        | inr full ↦
            (retry (json_builder_reserve realloc b (length s + 1)) refl (rw full at h)
              (λ b₁ w. json_builder_appendf-lem f b₁ s w))
      ]
    where
      retry :
          (o : Option JsonBuilder)
          → json_builder_reserve realloc b (length s + 1) ≡ o
          → elim o as (λ x. Appended) [
            | none ↦ failed
            | some b₁ ↦ json_builder_appendf realloc f b₁ (some s)
          ]
            ≡ done b'
          → ((b₁ : JsonBuilder)
              → IsValid b₁
              → json_builder_appendf realloc f b₁ (some s) ≡ done b'
              → Extends b₁ s b')
          → Extends b s b'
      retry none e k ih = cc
      retry (some b₁) e k ih =
          let r = json_builder_reserve-Reserved b (length s + 1) v e in
          let x =
            ih b₁ (record { room = rw r.same_text (omega (arith, r.has_room)); small = r.small })
              k in
          record { valid = x.valid; same = x.same ∙ ap (λ t. t ++ s) r.same_text }

  pub appendf_in_time :
      (b : JsonBuilder) (formatted : Option Bytes)
      → IsValid b
      → json_builder_appendf realloc 2 b formatted ≢ more_rounds
  unfolding json_builder_appendf
  appendf_in_time b none v = λ e. cc
  appendf_in_time b (some s) v = retry (json_builder_reserve realloc b (length s + 1)) refl
    where
      retry :
          (o : Option JsonBuilder)
          → json_builder_reserve realloc b (length s + 1) ≡ o
          → (if ltb (length b.text + length s) b.cap
              then done (record b { text = b.text ++ s })
              else elim o as (λ x. Appended) [
                | none ↦ failed
                | some b₁ ↦ json_builder_appendf realloc 1 b₁ (some s)
              ])
            ≢ more_rounds
      retry none e = ground arith
      retry (some b₁) e =
          let r = json_builder_reserve-Reserved b (length s + 1) v e in
          ground (arith, r, ap length r.same_text)

  -- From a valid builder, the loop of `json_builder_appendf` ends within two rounds; and the
  -- doubling loop of the `json_builder_reserve` that it calls, from the capacity of any builder, 0
  -- included, and for any number of bytes, ends within 64 rounds.
  pub json_builder_appendf_terminates :
      (b b' : JsonBuilder) (formatted : Option Bytes) (needed : ℕ)
      → IsValid b
      → (json_builder_appendf realloc 2 b formatted ≢ more_rounds)
        × (next_cap_loop b' needed ≢ out_of_fuel)
  json_builder_appendf_terminates b b' formatted needed v = (
    appendf_in_time b formatted v,
    grow_cap_terminates (if b'.cap == 0 then 256 else b'.cap) needed (ground arith),
  )

  pub json_builder_append_string-Extends :
      (b : JsonBuilder) (text : Bytes) {b' : JsonBuilder}
      → IsValid b
      → json_builder_append_string realloc b text ≡ some b'
      → (body : Bytes) × (json_escape_dup realloc text ≡ some body)
        × Extends b (b'"' ∷ (body ++ b'"' ∷ [])) b'
  unfolding json_builder_append_string
  json_builder_append_string-Extends b text {b'} v h =
      let (body, e, h₁) = >>=-eq-some (json_escape_dup realloc text) _ h in
      let (b₁, e₁, h₂) = >>=-eq-some (json_builder_append realloc b (b'"' ∷ [])) _ h₁ in
      let (b₂, e₂, h₃) = >>=-eq-some (json_builder_append realloc b₁ body) _ h₂ in
      let x₁ = json_builder_append-Extends b (b'"' ∷ []) v e₁ in
      let x₂ = json_builder_append-Extends b₁ body x₁.valid e₂ in
      let x₃ = json_builder_append-Extends b₂ (b'"' ∷ []) x₂.valid h₃ in
      (
        body,
        e,
        record {
          valid = x₃.valid;
          same =
              x₃.same
              ∙ ap (λ t. t ++ b'"' ∷ []) (x₂.same ∙ ap (λ t. t ++ body) x₁.same)
              ∙ quoted b.text body
              ∙ append_assoc b.text (b'"' ∷ body) (b'"' ∷ []);
        },
      )

  -- A successful `json_builder_append_string` on a valid builder appends a quote, the escaped text
  -- and a quote, where the part between the quotes spells the text by the JSON standard; and the
  -- builder stays valid.
  pub json_builder_append_string-lem :
      (b : JsonBuilder) (text : Bytes) {b' : JsonBuilder}
      → IsValid b
      → json_builder_append_string realloc b text ≡ some b'
      → (body : Bytes) × (b'.text ≡ b.text ++ b'"' ∷ body ++ b'"' ∷ [])
        × (read_body plain body ≡ some text)
        × IsValid b'
  json_builder_append_string-lem b text {b'} v h =
      let (body, e, x) = json_builder_append_string-Extends b text v h in
      (
        body,
        x.same ∙ sym (append_assoc b.text (b'"' ∷ body) (b'"' ∷ [])),
        json_escape_dup-spells realloc text e,
        x.valid,
      )
