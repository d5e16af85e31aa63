-- ===== src/Db/Tests.antt =====
-- Insertions, selections and a reload on a small engine, and the theorems there.
use tryo.Prelude.{ℕ, ◌≤◌, ◌≡◌, refl, ◌≢◌, true, false, some, none, [], ◌∷◌, codes, inr, arith}
use tryo.Prelude.Decimal.{decimal}
use tryo.Sql.{ok, int_max}
use tryo.Bptree.{bptree_init}
use tryo.Util.Builder.{json_builder_append, json_builder_reserve, json_builder_append_string}
use tryo.Util.Escape.{json_escape_dup}
use tryo.Db.Rows.{
  Record, column_age, DbProjection, all_columns_projection, append_record_json, append_int,
}
use tryo.Db.Engine.{
  DbEngine, Calls, DbResult, error, rows, db_insert, db_insert_with_id, db_insert_internal,
  capacity_loop, next_capacity, name_is_valid,
}
use tryo.Db.Select.{filter_id, DbFilter, db_select, db_select_projected, normalized}
use tryo.Db.Load.{db_init, empty_engine}
use tryo.Db.Sound.{IsSound, distinct, db_insert_internal-IsSound}
use tryo.Db.Lookup.{Answers, db_select_projected-Answers}
use tryo.Db.Matching.{matching}
use tryo.Db.Visible.{auto_id_repeats}
use tryo.Db.Line.{Storable}
use tryo.Db.Durable.{lines, AllStorable, empty_engine-IsSound, db_init-lines, db_init_terminates}

-- every call succeeds
abbrev fine : Calls
fine = record {
  lock_ok = true;
  realloc_ok = λ n. true;
  fopen_ok = true;
  write_ok = true;
  close_ok = true;
  torn = [];
  calloc_ok = λ n. true;
  malloc = λ n. true;
}

abbrev start : DbEngine
start = empty_engine []

abbrev kim : Record
kim = record { id = 1; name = codes "kim"; age = 20 }

abbrev kim_row : DbResult
kim_row = rows (codes "[{\"id\":1,\"name\":\"kim\",\"age\":20}]") (codes "inserted 1 row") false

abbrev with_kim : DbEngine
with_kim = (db_insert_internal fine start false 0 (codes "kim") 20).0

duplicate : (db_insert_with_id fine with_kim 1 (codes "lee") 31).1 ≡ error "duplicate id"
unfolding db_insert_with_id capacity_loop bptree_init
duplicate = refl

abbrev by_id : ℕ → DbFilter
by_id id = record { type = filter_id; id = id; name = [] }

selected :
    db_select fine with_kim (by_id 1)
    ≡ rows (codes "[{\"id\":1,\"name\":\"kim\",\"age\":20}]") (codes "selected 1 row(s)") true
unfolding db_select db_insert_internal capacity_loop bptree_init json_builder_append
    json_builder_reserve append_record_json append_int decimal json_builder_append_string
    json_escape_dup
selected = refl

with_kim-IsSound : IsSound with_kim
with_kim-IsSound =
    db_insert_internal-IsSound fine start false 0 (codes "kim") 20 (λ n. refl)
      (empty_engine-IsSound []) (omega arith) (inr (omega arith))

selected_projected :
    db_select_projected fine with_kim (by_id 1) all_columns_projection
    ≡ rows (codes "[{\"id\":1,\"name\":\"kim\",\"age\":20}]") (codes "selected 1 row(s)") true
unfolding db_select_projected db_insert_internal capacity_loop bptree_init json_builder_append
    json_builder_reserve append_record_json append_int decimal json_builder_append_string
    json_escape_dup
selected_projected = refl

db_select_projected-Answers_example :
    Answers
      (codes "[{\"id\":1,\"name\":\"kim\",\"age\":20}]")
      (codes "selected 1 row(s)")
      true
      filter_id
      (normalized all_columns_projection [])
      (matching (by_id 1) filter_id with_kim.records)
db_select_projected-Answers_example =
    db_select_projected-Answers fine with_kim (by_id 1) all_columns_projection with_kim-IsSound
      selected_projected

abbrev with_lee : DbEngine
with_lee = (db_insert_with_id fine start 7 (codes "lee") 31).0

abbrev ages : DbProjection
ages = record {
  include_id = false;
  include_name = false;
  include_age = false;
  columns = column_age ∷ [];
}

-- the next id is the largest `int`
abbrev full : DbEngine
full = record start { next_id = int_max }

abbrev full₁ : DbEngine
full₁ = (db_insert fine full (codes "a") 1).0

abbrev full₂ : DbEngine
full₂ = (db_insert fine full₁ (codes "b") 2).0

first : db_insert fine full (codes "a") 1 ≡ (
  full₁,
  rows (codes "[{\"id\":2147483647,\"name\":\"a\",\"age\":1}]") (codes "inserted 1 row") false,
)
unfolding db_insert capacity_loop bptree_init json_builder_append json_builder_reserve
    append_record_json append_int decimal json_builder_append_string json_escape_dup
first = refl

second : db_insert fine full₁ (codes "b") 2 ≡ (
  full₂,
  rows (codes "[{\"id\":2147483647,\"name\":\"b\",\"age\":2}]") (codes "inserted 1 row") false,
)
unfolding db_insert capacity_loop bptree_init json_builder_append json_builder_reserve
    append_record_json append_int decimal json_builder_append_string json_escape_dup
second = refl

auto_id_repeats_example : distinct full₂.records ≡ false
auto_id_repeats_example =
    auto_id_repeats fine fine full (codes "a") (codes "b") 1 2 refl first second

kim-Storable : Storable kim
kim-Storable = record {
  id_range = (omega arith, omega arith);
  age_range = omega arith;
  name_ok = unfold name_is_valid in refl;
  name_fits = omega arith;
}

db_init-lines_example :
    (db : DbEngine) × (db_init (codes "users.csv") true true (λ n. fine) (lines (kim ∷ []))
      ≡ some (ok db))
    × (db.records ≡ kim ∷ [])
    × IsSound db
db_init-lines_example =
    db_init-lines (codes "users.csv") (λ n. fine) (kim ∷ []) (omega arith)
      (λ n. record { room = λ m. refl; nodes = λ m. refl })
      (unfold AllStorable in (kim-Storable, tt)) (unfold distinct in refl) (omega arith)

db_init_terminates_example :
    (db_init (codes "users.csv") true true (λ n. fine) (codes "1,kim,20\n\nx") ≢ none)
    × ((capacity : ℕ) × (next_capacity start 65 ≡ some capacity) × (65 ≤ capacity))
db_init_terminates_example =
    db_init_terminates (codes "users.csv") true true (λ n. fine) (codes "1,kim,20\n\nx") start 65
      (omega arith)
