-- ===== src/Util/Builder.antt =====
-- `JsonBuilder` of src/util.c. The text is the list of the `len` bytes before the NUL. A function
-- that returns 0 has left the builder as it was, or is followed by `json_builder_free`.
use tryo.Prelude.{
  ℕ, zero, suc, ◌+◌, ◌-◌, ◌*◌, ◌/◌, ◌≤◌, ◌<◌, Bool, Option, none, some, [], ◌∷◌, ◌++◌, length, ltb,
  leb, ◌==◌, if◌then◌else◌, Bytes, ◌>>=◌,
}
use tryo.Util.Escape.{size_max, json_escape_dup}

pub record JsonBuilder : Type 0 where
  pub text : Bytes
  pub cap : ℕ

-- the NUL has room, and the capacity is a `size_t`
pub record IsValid (b : JsonBuilder) : Type 0 where
  pub room : length b.text < b.cap
  pub small : b.cap ≤ size_max

unfoldable pub json_builder_init : (ℕ → Bool) → Option JsonBuilder
json_builder_init malloc = if malloc 256 then some (record { text = []; cap = 256 }) else none

-- what the doubling loop of `json_builder_reserve` comes to
pub data Grown : Type 0 where
  grown : ℕ → Grown
  too_big out_of_fuel : Grown

unfoldable pub grow_cap : ℕ → ℕ → ℕ → Grown
grow_cap zero next_cap needed = out_of_fuel
grow_cap (suc f) next_cap needed =
    let rest = grow_cap f (next_cap * 2) needed in
    if ltb next_cap needed
    then (if ltb (size_max / 2) next_cap then too_big else rest)
    else grown next_cap

-- what the loop of `json_builder_appendf` comes to
pub data Appended : Type 0 where
  done : JsonBuilder → Appended
  failed more_rounds : Appended

-- the loop of `json_builder_reserve`, from the capacity that it starts with
abbrev pub next_cap_loop : JsonBuilder → ℕ → Grown
next_cap_loop b needed = grow_cap 64 (if b.cap == 0 then 256 else b.cap) needed

-- The loop never runs out of fuel (Util/Growth.antt). `realloc n` tells whether a reallocation to n
-- bytes succeeds.
unfoldable pub reallocate : (ℕ → Bool) → JsonBuilder → Grown → Option JsonBuilder
reallocate realloc b (grown n) = if realloc n then some (record b { cap = n }) else none
reallocate realloc b too_big = none
reallocate realloc b out_of_fuel = none

module _ (realloc : ℕ → Bool) where
  unfoldable pub json_builder_reserve : JsonBuilder → ℕ → Option JsonBuilder
  unfolding reallocate
  json_builder_reserve b extra =
      let needed = length b.text + extra + 1 in
      if ltb (size_max - length b.text - 1) extra
      then none
      else if leb needed b.cap
      then some b
      else reallocate realloc b (next_cap_loop b needed)

  unfoldable pub json_builder_append : JsonBuilder → Bytes → Option JsonBuilder
  json_builder_append b text = do
    b' ← json_builder_reserve b (length text)
    some (record b' { text = b'.text ++ text })

  -- `none` is a negative result of `vsnprintf`, and `some s` the formatted text.
  unfoldable pub json_builder_appendf : ℕ → JsonBuilder → Option Bytes → Appended
  json_builder_appendf f b none = failed
  json_builder_appendf zero b (some s) = more_rounds
  json_builder_appendf (suc f) b (some s) =
      if ltb (length b.text + length s) b.cap
      then done (record b { text = b.text ++ s })
      else elim (json_builder_reserve b (length s + 1)) [
        | none ↦ failed
        | some b' ↦ json_builder_appendf f b' (some s)
      ]

  unfoldable pub json_builder_append_string : JsonBuilder → Bytes → Option JsonBuilder
  unfolding json_builder_append
  json_builder_append_string b text = do
    escaped ← json_escape_dup realloc text
    b₁ ← json_builder_append b (b'"' ∷ [])
    b₂ ← json_builder_append b₁ escaped
    json_builder_append b₂ (b'"' ∷ [])
