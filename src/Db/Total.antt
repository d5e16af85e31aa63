-- ===== src/Db/Total.antt =====
-- The operations of src/db.c when every call succeeds: they are not answered by an error of memory,
-- lock or file.
use tryo.Prelude.{
  ℕ, ◌+◌, ◌^◌, ◌≤◌, ◌<◌, ◌≡◌, refl, Bool, true, false, ◌&&◌, ◌||◌, not, Option, some, List, [], ◌∷◌,
  ◌++◌, arith, ◌==◌, if◌then◌else◌, Bytes, codes, length, length-append, length-take,
}
use tryo.Bptree.{BPlusTree, bptree_search, bptree_insert}
use tryo.Bptree.Tree.{search-insert}
use tryo.Sql.{Parsed, int_max}
use tryo.Util.Escape.{escape, length-escape}
use tryo.Util.Room.{Roomy, Short}
use tryo.Util.Builder.{JsonBuilder, IsValid, json_builder_init}
use tryo.Db.Rows.{
  DbColumn, column_id, column_name, column_age, Record, DbProjection, all_columns_projection,
}
use tryo.Db.Engine.{
  DbEngine, Calls, rows, db_reserve_records, name_is_valid, insert_rows, indexed, with_record,
  insert_record, is_found, db_insert_internal,
}
use tryo.Db.Select.{DbFilter, normalized, select_result, db_select_projected}
use tryo.Db.Rendered.{
  field_text, fields_text, comma, record_text, Adds, adds, nothing, Adds-bind, Adds-append,
  Adds-record,
}
use tryo.Db.Yields.{Yields, yields, refused}
use tryo.Db.Lookup.{select_rows-Selected}
use tryo.Db.Matching.{matching, array_text}
use tryo.Db.Sound.{IsSound}
use tryo.Db.Insert.{new_record}
use tryo.Db.Reload.{Plenty, db_reserve_records-some}
use tryo.Db.Line.{length-decimal}

-- every call of an operation succeeds
pub record Generous (c : Calls) : Type 0 where
  pub lock : c.lock_ok ≡ true
  pub room : (n : ℕ) → c.realloc_ok n ≡ true
  pub opened : c.fopen_ok ≡ true
  pub written : (c.write_ok && c.close_ok) ≡ true
  pub nodes : (n : ℕ) → c.calloc_ok n ≡ true
  pub text : Roomy c.malloc

Generous-Plenty : {c : Calls} → Generous c → Plenty c
Generous-Plenty g = record { room = g.room; nodes = g.nodes }

-- With every call successful, a selection whose answer has fewer than 2 ^ 60 bytes is answered by
-- rows.
pub db_select_projected-total :
    (c : Calls) (db : DbEngine) (filter : DbFilter) (p : DbProjection)
    → Generous c
    → IsSound db
    → length (array_text (normalized p p.columns) (matching filter filter.type db.records)) + 2
      < 2 ^ 60
    → (out message : Bytes) × (used : Bool) × (db_select_projected c db filter p
        ≡ rows out message used)
unfolding db_select_projected
db_select_projected-total c db filter p g s n =
    rw g.lock (go (select_rows-Selected c.malloc db filter (normalized p p.columns) s))
  where
    go :
        {P : JsonBuilder × ℕ → Type 0} {o : Parsed (JsonBuilder × ℕ)}
        → Yields
            (Short c.malloc (
              length (array_text (normalized p p.columns) (matching filter filter.type db.records))
              + 2))
            P
            o
        → (out message : Bytes) × (used : Bool) × (select_result filter.type o
            ≡ rows out message used)
    go (yields a h) = (_, _, _, refl)
    go (refused short message) = absurd (omega (arith, short g.text, n))

pub Adds-total :
    (malloc : ℕ → Bool) {b : JsonBuilder} {s : Bytes} {o : Option JsonBuilder}
    → Roomy malloc
    → length b.text + length s + 2 < 2 ^ 60
    → Adds malloc b s o
    → (b' : JsonBuilder) × (o ≡ some b') × (b'.text ≡ b.text ++ s)
Adds-total malloc m n (adds b' x) = (b', refl, x.same)
Adds-total malloc m n (nothing short) = absurd (omega (arith, short m, n))

length-field_text :
    (r : Record) (c : DbColumn)
    → r.id ≤ int_max
    → r.age ≤ int_max
    → length r.name ≤ 127
    → length (field_text r c) ≤ 800
length-field_text r column_id i a n = omega (arith, length-decimal r.id i)
length-field_text r column_age i a n = omega (arith, length-decimal r.age a)
length-field_text r column_name i a n =
    omega (arith, length-append (escape r.name) (b'"' ∷ []), length-escape r.name, n)

length-fields_text :
    (r : Record) (c : DbColumn) (cs : List DbColumn) (need_comma : Bool)
    → length (fields_text r (c ∷ cs) need_comma)
      ≤ 1 + length (field_text r c) + length (fields_text r cs true)
length-fields_text r c cs true =
    omega (arith, length-append (comma true ++ field_text r c) (fields_text r cs true))
length-fields_text r c cs false =
    omega (arith, length-append (comma false ++ field_text r c) (fields_text r cs true))

-- a row of all columns is short
length-record_text :
    (r : Record)
    → r.id ≤ int_max
    → r.age ≤ int_max
    → length r.name ≤ 127
    → length (record_text all_columns_projection r) ≤ 3000
length-record_text r i a n = omega (
  arith,
  length-append (fields_text r (column_id ∷ column_name ∷ column_age ∷ []) false) (codes "}"),
  length-fields_text r column_id (column_name ∷ column_age ∷ []) false,
  length-fields_text r column_name (column_age ∷ []) true,
  length-fields_text r column_age [] true,
  length-field_text r column_id i a n,
  length-field_text r column_name i a n,
  length-field_text r column_age i a n,
)

insert_rows-total :
    (malloc : ℕ → Bool) (r : Record)
    → Roomy malloc
    → length (record_text all_columns_projection r) ≤ 3000
    → (b : JsonBuilder) × (insert_rows malloc r ≡ some b)
unfolding insert_rows json_builder_init
insert_rows-total malloc r m n =
    let b₀ : JsonBuilder = record { text = []; cap = 256 } in
    let v : IsValid b₀ = omega arith in
    let text = record_text all_columns_projection r in
    let (b, e, same) =
      Adds-total malloc {b = b₀} m (omega (arith, n, length-append text (codes "]"))) (
        Adds-bind malloc _ (Adds-append malloc b₀ (codes "[") v) λ b₁ w.
          Adds-bind malloc _ (Adds-record malloc b₁ r all_columns_projection w)
            λ b₂ x. Adds-append malloc b₂ (codes "]") x) in
    rw (m 256) (b, e)

-- what an insertion of the record comes to once the checks have passed
inserts :
    (c : Calls) (db : DbEngine) (r : Record)
    → Generous c
    → IsSound db
    → r.id ≤ int_max
    → r.age ≤ int_max
    → length r.name ≤ 127
    → length db.records + 1 ≤ 2 ^ 63
    → (db' : DbEngine) × (out message : Bytes) × (insert_record c db r
          (db_reserve_records c.realloc_ok db (length db.records + 1))
        ≡ (db', rows out message false))
inserts c db r g s i a n q =
    let (k, e) = db_reserve_records-some c db (length db.records + 1) (Generous-Plenty g) q in
    let into =
      (search-insert c.calloc_ok g.nodes db.index r.id (length db.records) 0 (omega (arith, i))
        s.valid).0 in
    let (b, made) = insert_rows-total c.malloc r g.text (length-record_text r i a n) in
    rw (e, g.opened, g.written)
      (stored (record db { capacity = k })
        (bptree_insert c.calloc_ok db.index r.id (length db.records)) into made)
  where
    stored :
        (db₁ : DbEngine) (t : BPlusTree × Bool)
        → t.1 ≡ true
        → {b : JsonBuilder} → insert_rows c.malloc r ≡ some b
        → (db' : DbEngine) × (out message : Bytes) × (indexed c (with_record db₁ r) r t
            ≡ (db', rows out message false))
    stored db₁ (index, true) e {b} made =
        (record (with_record db₁ r) { index = index }, b.text, codes "inserted 1 row", rw made refl)
    stored db₁ (index, false) e made = cc

-- With every call successful, an insertion of a valid name and a new id is answered by rows, if the
-- engine has fewer than 2 ^ 63 records.
pub db_insert_internal-total :
    (c : Calls) (db : DbEngine) (has_id : Bool) (id : ℕ) (name : Bytes) (age : ℕ)
    → Generous c
    → IsSound db
    → id ≤ int_max
    → age ≤ int_max
    → length db.records + 1 ≤ 2 ^ 63
    → ((has_id && id == 0) || not (name_is_valid name)) ≡ false
    → (has_id && is_found (bptree_search db.index id)) ≡ false
    → (db' : DbEngine) × (out message : Bytes) × (db_insert_internal c db has_id id name age
        ≡ (db', rows out message false))
unfolding db_insert_internal
db_insert_internal-total c db has_id id name age g s i a q good free =
    rw (g.lock, good, free)
      (inserts c db (new_record db has_id id name age) g s (id_fits has_id) a
        (omega (arith, length-take 127 name)) q)
  where
    id_fits : (has_id : Bool) → (if has_id then id else db.next_id) ≤ int_max
    id_fits true = i
    id_fits false = s.next_is_int.1
