-- ===== src/Db/Load.antt =====
-- `db_init` and `load_record` of src/db.c. A `Calls` is given for each record that is loaded. The
-- file holds no NUL byte, and `record->id + 1` is not cut to an `int`, where the code overflows.
use tryo.Prelude.{
  ℕ, zero, suc, ◌+◌, ◌-◌, ◌%◌, ◌^◌, Bool, true, false, ◌||◌, not, Option, none, some, [], ◌∷◌, ◌++◌,
  leb, ◌==◌, if◌then◌else◌, Bytes, peek, next, length, strtol,
}
use tryo.Bptree.{BPlusTree, bptree_init, bptree_insert}
use tryo.Sql.{Parsed, ok, fail, ◌>>=◌, ◌or_fail◌, guard, ◌>>◌}
use tryo.Db.Rows.{Record}
use tryo.Db.Engine.{DbEngine, Calls, db_reserve_records, name_is_valid}

-- `fgets`: at most n bytes, with the end of the line; and the rest of the file
unfoldable pub fgets : ℕ → Bytes → Bytes × Bytes
fgets zero file = ([], file)
fgets (suc n) [] = ([], [])
fgets (suc n) (c ∷ file) =
    let (line, rest) = fgets n file in if c == b'\n' then (c ∷ [], file) else (c ∷ line, rest)

-- a value of `strtol` as an `int`: whether it is below 0, its absolute value, and the rest
abbrev pub as_int : Option (Bool × ℕ × Bytes) → Option (Bool × ℕ × Bytes)
as_int none = none
as_int (some (negative, n, rest)) =
    let v = if negative then (2 ^ 32 - n % 2 ^ 32) % 2 ^ 32 else n % 2 ^ 32 in
    if leb (2 ^ 31) v then some (true, 2 ^ 32 - v, rest) else some (false, v, rest)

-- `%d`
unfoldable pub scan_int : Bytes → Option (Bool × ℕ × Bytes)
unfolding strtol
scan_int s = as_int (strtol s)

-- `%n[^,]`, which may be empty here
unfoldable pub scan_chars : ℕ → Bytes → Bytes × Bytes
scan_chars zero s = ([], s)
scan_chars (suc n) [] = ([], [])
scan_chars (suc n) (c ∷ s) =
    let (name, rest) = scan_chars n s in if c == b',' then ([], c ∷ s) else (c ∷ name, rest)

abbrev pub nonempty : Bytes × Bytes → Option (Bytes × Bytes)
nonempty ([], rest) = none
nonempty (c ∷ name, rest) = some (c ∷ name, rest)

-- a comma of the format
abbrev pub scan_comma : Bytes → Option Bytes
scan_comma s = if peek s == b',' then some (next s) else none

-- a line as a record: `sscanf(line, "%d,%127[^,],%d", …)` and the checks behind it
unfoldable pub parse_line : Bytes → Parsed Record
parse_line line = do
  (id_negative, id, s₁) ← scan_int line or_fail "malformed data file"
  s₂ ← scan_comma s₁ or_fail "malformed data file"
  (name, s₃) ← nonempty (scan_chars 127 s₂) or_fail "malformed data file"
  s₄ ← scan_comma s₃ or_fail "malformed data file"
  (age_negative, age, s₅) ← scan_int s₄ or_fail "malformed data file"
  guard (not (id_negative || id == 0 || age_negative || not (name_is_valid name)))
      "invalid record in data file"
  ok (record { id = id; name = name; age = age })

abbrev pub loaded : DbEngine → Record → BPlusTree × Bool → Option DbEngine
loaded db r (index, false) = none
loaded db r (index, true) = some (record db {
  records = db.records ++ r ∷ [];
  index = index;
  next_id = if leb db.next_id r.id then r.id + 1 else db.next_id;
})

abbrev pub load_into : Calls → Record → Option DbEngine → Option DbEngine
load_into c r none = none
load_into c r (some db) = loaded db r (bptree_insert c.calloc_ok db.index r.id (length db.records))

unfoldable pub load_record : Calls → DbEngine → Record → Option DbEngine
load_record c db r = load_into c r (db_reserve_records c.realloc_ok db (length db.records + 1))

-- one line that is not empty
unfoldable pub load_line : (ℕ → Calls) → DbEngine → Bytes → Parsed DbEngine
load_line calls db line = do
  r ← parse_line line
  load_record (calls (length db.records)) db r or_fail "failed to load data file into memory"

-- The loop of `db_init` on the rest of the file; `none` is out of fuel.
unfoldable pub load_loop : ℕ → (ℕ → Calls) → DbEngine → Bytes → Option (Parsed DbEngine)
load_loop zero calls db file = none
load_loop (suc f) calls db [] = some (ok db)
load_loop (suc f) calls db (c ∷ file) =
    let (line, rest) = fgets 511 (c ∷ file) in
    let skipped = load_loop f calls db rest in
    if peek line == b'\n' || peek line == 0 then skipped else elim (load_line calls db line) [
      | fail message ↦ some (fail message)
      | ok db' ↦ load_loop f calls db' rest
    ]

-- the engine before the file is read
abbrev pub empty_engine : Bytes → DbEngine
empty_engine file = record {
  file = file;
  records = [];
  capacity = 0;
  next_id = 1;
  index = bptree_init;
}

-- `rwlock_ok` and `fopen_ok` tell whether `pthread_rwlock_init` and `fopen` succeed.
unfoldable pub db_init : Bytes → Bool → Bool → (ℕ → Calls) → Bytes → Option (Parsed DbEngine)
db_init data_path rwlock_ok fopen_ok calls file =
    if leb 512 (length data_path)
    then some (fail "data path is too long")
    else if not rwlock_ok
    then some (fail "failed to initialize DB lock")
    else if not fopen_ok
    then some (fail "failed to open data file")
    else load_loop (suc (length file)) calls (empty_engine file) file
