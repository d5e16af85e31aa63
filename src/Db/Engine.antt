-- ===== src/Db/Engine.antt =====
-- The engine's state and its operations, from src/db.c and include/db.h. `count` is the length of
-- `records`, and the data file is the list of its bytes. Ids and ages are the `int` values that are
-- not negative, so the test `age < 0` never holds. The clock is left out, and so is waiting for the
-- lock.
use Prim.Native.String.{String}
use tryo.Prelude.{
  ℕ, zero, suc, ◌+◌, ◌*◌, ◌%◌, ◌^◌, Bool, true, false, ◌&&◌, ◌||◌, not, Option, none, some, List,
  [], ◌∷◌, ◌++◌, ltb, leb, ◌==◌, if◌then◌else◌, Bytes, codes, length, take, ◌>>=◌,
}
use tryo.Prelude.Decimal.{decimal}
use tryo.Bptree.{BPlusTree, bptree_insert, bptree_search}
use tryo.Sql.{int_max}
use tryo.Util.Builder.{JsonBuilder, json_builder_init, json_builder_append}
use tryo.Db.Rows.{Record, all_columns_projection, append_record_json}

pub record DbEngine : Type 0 where
  pub file : Bytes
  pub records : List Record
  pub capacity : ℕ
  pub next_id : ℕ
  pub index : BPlusTree

-- What the calls of one operation come to: whether the lock is acquired, `realloc` of the records
-- gives memory, `fopen` opens the file, `fprintf` and `fclose` write all of the line, the i-th
-- `calloc` of the index gives a node, and `malloc` and `realloc` of the strings give memory. `torn`
-- is what a write that fails has left in the file.
pub record Calls : Type 0 where
  pub lock_ok : Bool
  pub realloc_ok : ℕ → Bool
  pub fopen_ok : Bool
  pub write_ok : Bool
  pub close_ok : Bool
  pub torn : Bytes
  pub calloc_ok : ℕ → Bool
  pub malloc : ℕ → Bool

-- the loop `while (next_capacity < needed) next_capacity *= 2;` on `size_t`
unfoldable pub capacity_loop : ℕ → ℕ → ℕ → Option ℕ
capacity_loop zero next_capacity needed = none
capacity_loop (suc f) next_capacity needed =
    let rest = capacity_loop f (next_capacity * 2 % 2 ^ 64) needed in
    if ltb next_capacity needed then rest else some next_capacity

-- `sizeof(Record)`: two `int`s of 4 bytes and 128 bytes for the name
abbrev pub record_size : ℕ
record_size = 136

-- The size that `realloc` is asked for is a `size_t`, and wraps around.
abbrev pub resize : (ℕ → Bool) → DbEngine → Option ℕ → Option DbEngine
resize realloc_ok db none = none
resize realloc_ok db (some next_capacity) =
    if realloc_ok (record_size * next_capacity % 2 ^ 64)
    then some (record db { capacity = next_capacity })
    else none

-- The loop of `db_reserve_records`, from the capacity that it starts with; it does not run out of
-- fuel for up to 2 ^ 63 records (Db/Durable.antt).
abbrev pub next_capacity : DbEngine → ℕ → Option ℕ
next_capacity db needed = capacity_loop 64 (if db.capacity == 0 then 64 else db.capacity) needed

unfoldable pub db_reserve_records : (ℕ → Bool) → DbEngine → ℕ → Option DbEngine
db_reserve_records realloc_ok db needed =
    if leb needed db.capacity then some db else resize realloc_ok db (next_capacity db needed)

-- the loop of `name_is_valid`
unfoldable pub name_loop : Bytes → Bool
name_loop [] = true
name_loop (c ∷ name) =
    let rest = name_loop name in if c == b',' || c == b'\n' || c == b'\r' then false else rest

unfoldable pub name_is_valid : Bytes → Bool
unfolding name_loop
name_is_valid [] = false
name_is_valid (c ∷ name) = name_loop (c ∷ name)

-- `snprintf(record.name, sizeof(record.name), "%s", name)`
abbrev pub fitted : Bytes → Bytes
fitted name = take 127 name

-- `fprintf(file, "%d,%s,%d\n", …)`
unfoldable pub line_of : Record → Bytes
line_of r = decimal r.id ++ b',' ∷ r.name ++ b',' ∷ decimal r.age ++ b'\n' ∷ []

pub data DbResult : Type 0 where
  error : String → DbResult
  rows : (rows_json message : Bytes) (index_used : Bool) → DbResult

-- the rows that an insertion returns
unfoldable pub insert_rows : (ℕ → Bool) → Record → Option JsonBuilder
unfolding json_builder_init
insert_rows malloc r = do
  b ← json_builder_init malloc
  b₁ ← json_builder_append malloc b (codes "[")
  b₂ ← append_record_json malloc b₁ r all_columns_projection
  json_builder_append malloc b₂ (codes "]")

abbrev pub insert_result : Option JsonBuilder → DbResult
insert_result none = error "failed to serialize insert result"
insert_result (some builder) = rows builder.text (codes "inserted 1 row") false

-- the step of `bptree_insert` and what follows it
abbrev pub indexed : Calls → DbEngine → Record → BPlusTree × Bool → DbEngine × DbResult
indexed c db r (index, true) = (record db { index = index }, insert_result (insert_rows c.malloc r))
indexed c db r (index, false) =
    (record db { index = index }, error "failed to update B+ tree index")

-- `db->records[record_index] = record; …` with the line in the file
unfoldable pub with_record : DbEngine → Record → DbEngine
unfolding line_of
with_record db r = record db {
  file = db.file ++ line_of r;
  records = db.records ++ r ∷ [];
  next_id = if not (ltb r.id db.next_id) && ltb r.id int_max then r.id + 1 else db.next_id;
}

-- what `db_insert_internal` does once there is room for the record
abbrev pub insert_record : Calls → DbEngine → Record → Option DbEngine → DbEngine × DbResult
insert_record c db r none = (db, error "out of memory")
insert_record c db r (some db') =
    if not c.fopen_ok
    then (db', error "failed to open data file for append")
    else if not (c.write_ok && c.close_ok)
    then (record db' { file = db'.file ++ c.torn }, error "failed to append data file")
    else indexed c (with_record db' r) r
        (bptree_insert c.calloc_ok db'.index r.id (length db'.records))

abbrev pub is_found : Option ℕ → Bool
is_found none = false
is_found (some i) = true

unfoldable pub db_insert_internal : Calls → DbEngine → Bool → ℕ → Bytes → ℕ → DbEngine × DbResult
unfolding name_is_valid bptree_search db_reserve_records with_record bptree_insert insert_rows
db_insert_internal c db has_id id name age =
    let r : Record = record {
      id = if has_id then id else db.next_id;
      name = fitted name;
      age = age;
    } in
    if not c.lock_ok
    then (db, error "failed to acquire write lock")
    else if (has_id && id == 0) || not (name_is_valid name)
    then (db, error "invalid id, name, or age")
    else if has_id && is_found (bptree_search db.index id)
    then (db, error "duplicate id")
    else insert_record c db r (db_reserve_records c.realloc_ok db (length db.records + 1))

unfoldable pub db_insert : Calls → DbEngine → Bytes → ℕ → DbEngine × DbResult
unfolding db_insert_internal
db_insert c db name age = db_insert_internal c db false 0 name age

unfoldable pub db_insert_with_id : Calls → DbEngine → ℕ → Bytes → ℕ → DbEngine × DbResult
unfolding db_insert_internal
db_insert_with_id c db id name age = db_insert_internal c db true id name age
