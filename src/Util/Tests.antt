-- ===== src/Util/Tests.antt =====
-- Runs of the JSON text functions, and the theorems at concrete inputs.
use tryo.Prelude.{ℕ, ◌≡◌, ◌≢◌, refl, Bool, true, some, [], ◌∷◌, ◌++◌, arith, Bytes, codes}
use tryo.Util.Escape.{json_escape_dup}
use tryo.Util.Json.{read_body, plain, json_escape_dup-spells}
use tryo.Util.Builder.{
  JsonBuilder, IsValid, grow_cap, grown, json_builder_reserve, json_builder_appendf, done,
  more_rounds, next_cap_loop, out_of_fuel, json_builder_append_string,
}
use tryo.Util.Growth.{json_builder_appendf_terminates, json_builder_append_string-lem}

abbrev plenty : ℕ → Bool
plenty n = true

escape_runs : json_escape_dup plenty (codes "a\"b\\\n") ≡ some (codes "a\\\"b\\\\\\n")
unfolding json_escape_dup
escape_runs = refl

escape_control : json_escape_dup plenty (31 ∷ []) ≡ some (codes "\\u001f")
unfolding json_escape_dup
escape_control = refl

json_escape_dup-spells_example : read_body plain (codes "\\u001f") ≡ some (31 ∷ [])
json_escape_dup-spells_example = json_escape_dup-spells plenty (31 ∷ []) escape_control

grow_cap_runs : grow_cap 64 256 1000 ≡ grown 1024
unfolding grow_cap
grow_cap_runs = refl

abbrev small_builder : JsonBuilder
small_builder = record { text = codes "[{"; cap = 8 }

small_builder-IsValid : IsValid small_builder
small_builder-IsValid = omega arith

appendf_runs :
    json_builder_appendf plenty 2 small_builder (some (codes "2147483647"))
    ≡ done (record { text = codes "[{2147483647"; cap = 16 })
unfolding json_builder_appendf json_builder_reserve grow_cap
appendf_runs = refl

json_builder_appendf_terminates_example :
    (json_builder_appendf plenty 2 small_builder (some (codes "2147483647")) ≢ more_rounds)
    × (next_cap_loop (record { text = []; cap = 0 }) 300 ≢ out_of_fuel)
json_builder_appendf_terminates_example =
    json_builder_appendf_terminates plenty small_builder (record { text = []; cap = 0 })
      (some (codes "2147483647")) 300 small_builder-IsValid

append_string_runs :
    json_builder_append_string plenty small_builder (codes "kim")
    ≡ some (record { text = codes "[{\"kim\""; cap = 8 })
unfolding json_builder_append_string json_builder_reserve grow_cap json_escape_dup
append_string_runs = refl

json_builder_append_string-lem_example :
    (body : Bytes) × (codes "[{\"kim\"" ≡ codes "[{" ++ b'"' ∷ body ++ b'"' ∷ [])
    × (read_body plain body ≡ some (codes "kim"))
    × IsValid (record { text = codes "[{\"kim\""; cap = 8 })
json_builder_append_string-lem_example =
    json_builder_append_string-lem plenty small_builder (codes "kim") small_builder-IsValid
      append_string_runs
