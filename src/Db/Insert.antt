-- ===== src/Db/Insert.antt =====
-- What an insertion stores and answers.
use tryo.Prelude.{
  ℕ, ◌+◌, leb, ltb, length, take, append_assoc, ◌≤◌, ◌≡◌, refl, sym, ◌∙◌, ap, Bool, true, false,
  ◌&&◌, ◌||◌, not, Option, none, some, [], ◌∷◌, ◌++◌, append-nil, arith, ◌==◌, if◌then◌else◌, Bytes,
  codes, Bool-cases, Option-cases, inl, inr, >>=-eq-some,
}
use tryo.Bptree.{BPlusTree, bptree_search}
use tryo.Prelude.Decimal.{decimal}
use tryo.Sql.{int_max}
use tryo.Http.Text.{NoByte}
use tryo.Util.Builder.{JsonBuilder, json_builder_init}
use tryo.Db.Rows.{Record, all_columns_projection}
use tryo.Db.Engine.{
  DbEngine, name_loop, Calls, rows, db_reserve_records, name_is_valid, line_of, insert_rows,
  insert_result, indexed, with_record, insert_record, is_found, db_insert_internal,
}
use tryo.Db.Rendered.{record_text, Adds, adds, nothing, Adds-bind, Adds-append, Adds-record}
use tryo.Db.Sound.{db_reserve_records-same}
use tryo.Db.Lookup.{json_builder_init-empty}
use tryo.Db.Matching.{rows_text, array_text}

-- the record that an insertion is for
abbrev pub new_record : DbEngine → Bool → ℕ → Bytes → ℕ → Record
new_record db has_id id name age = record {
  id = if has_id then id else db.next_id;
  name = take 127 name;
  age = age;
}

-- the line `id,name,age` with its newline
abbrev pub csv_line : Record → Bytes
csv_line r = decimal r.id ++ (b',' ∷ (r.name ++ (b',' ∷ (decimal r.age ++ b'\n' ∷ []))))

-- the next id behind an insertion: it follows an id that is not below it, but for the largest `int`
abbrev pub next_free : (next_id id : ℕ) → ℕ
next_free next_id id = if leb next_id id && ltb id int_max then id + 1 else next_id

-- what a successful insertion of the record has done
pub record Stored (db : DbEngine) (r : Record) (db' : DbEngine) (rows_json message : Bytes)
    (used : Bool) : Type 0 where
  pub records : db'.records ≡ db.records ++ r ∷ []
  pub file : db'.file ≡ db.file ++ csv_line r
  pub next_id : db'.next_id ≡ next_free db.next_id r.id
  pub json : rows_json ≡ array_text all_columns_projection (r ∷ [])
  pub counted : message ≡ codes "inserted 1 row"
  pub no_index : used ≡ false

extended :
    {malloc : ℕ → Bool} {b b' : JsonBuilder} {s : Bytes} {o : Option JsonBuilder}
    → Adds malloc b s o
    → o ≡ some b'
    → b'.text ≡ b.text ++ s
extended {b' = b'} (adds b₁ x) h = let e : b₁ ≡ b' = cc in rw (← e) x.same
extended (nothing short) h = cc

bracketed : (u : Bytes) → codes "[" ++ (u ++ codes "]") ≡ codes "[" ++ ((u ++ []) ++ codes "]")
bracketed u = rw (append-nil u) refl

insert_rows-text :
    (malloc : ℕ → Bool) (r : Record) {b : JsonBuilder}
    → insert_rows malloc r ≡ some b
    → b.text ≡ array_text all_columns_projection (r ∷ [])
unfolding insert_rows rows_text
insert_rows-text malloc r h =
    let (b₀, e, h₁) = >>=-eq-some (json_builder_init malloc) _ h in
    let i = json_builder_init-empty malloc e in
    extended
      (Adds-bind malloc _ (Adds-append malloc b₀ (codes "[") i.0) λ b₁ v.
        Adds-bind malloc _ (Adds-record malloc b₁ r all_columns_projection v)
          λ b₂ w. Adds-append malloc b₂ (codes "]") w)
      h₁
    ∙ rw i.1 (bracketed (record_text all_columns_projection r))

insert_result-Stored :
    (db db' : DbEngine) (r : Record) (o : Option JsonBuilder) {out message : Bytes} {used : Bool}
    → db'.records ≡ db.records ++ r ∷ []
    → db'.file ≡ db.file ++ csv_line r
    → db'.next_id ≡ next_free db.next_id r.id
    → ((b : JsonBuilder) → o ≡ some b → b.text ≡ array_text all_columns_projection (r ∷ []))
    → insert_result o ≡ rows out message used
    → Stored db r db' out message used
insert_result-Stored db db' r none e f n t h = cc
insert_result-Stored db db' r (some b) e f n t h = record {
  records = e;
  file = f;
  next_id = n;
  json = cc (t b refl, h);
  counted = cc h;
  no_index = cc h;
}

line_of-csv_line : (r : Record) → line_of r ≡ csv_line r
unfolding line_of
line_of-csv_line r = rw (append_assoc, append_assoc) refl

indexed-Stored :
    (c : Calls) (db : DbEngine) (r : Record) (t : BPlusTree × Bool) {db' : DbEngine}
    {out message : Bytes} {used : Bool}
    → indexed c (with_record db r) r t ≡ (db', rows out message used)
    → Stored db r db' out message used
unfolding with_record
indexed-Stored c db r (index, true) {db'} h =
    insert_result-Stored db db' r (insert_rows c.malloc r) (sym (ap (λ x. x.0.records) h))
      (sym (ap (λ x. x.0.file) h) ∙ ap (λ l. db.file ++ l) (line_of-csv_line r))
      (sym (ap (λ x. x.0.next_id) h) ∙ ground arith) (λ b e. insert_rows-text c.malloc r e)
      (ap (λ x. x.1) h)
indexed-Stored c db r (index, false) h = cc

insert_record-Stored :
    (c : Calls) (db : DbEngine) (r : Record) {db' : DbEngine} {out message : Bytes} {used : Bool}
    → insert_record c db r (some db) ≡ (db', rows out message used)
    → Stored db r db' out message used
insert_record-Stored c db r h = elim (Bool-cases c.fopen_ok) [
  | inr closed ↦ cc (rw closed at h)
  | inl opened ↦ (elim (Bool-cases (c.write_ok && c.close_ok)) [
    | inr lost ↦ cc (rw (opened, lost) at h)
    | inl kept ↦ indexed-Stored c db r _ (rw (opened, kept) at h)
  ])
]

reserved-Stored :
    (c : Calls) (db : DbEngine) (r : Record) (needed : ℕ) {db' : DbEngine} {out message : Bytes}
    {used : Bool}
    → insert_record c db r (db_reserve_records c.realloc_ok db needed)
      ≡ (db', rows out message used)
    → Stored db r db' out message used
unfolding with_record
reserved-Stored c db r needed h = elim (Option-cases (db_reserve_records c.realloc_ok db needed)) [
  | inl full ↦ cc (rw full at h)
  | inr (db₁, e) ↦
      (let (n, same) = db_reserve_records-same c.realloc_ok db needed e in
        let s = insert_record-Stored c (record db { capacity = n }) r (rw (e, ← same) at h) in
        record {
          records = s.records;
          file = s.file;
          next_id = s.next_id;
          json = s.json;
          counted = s.counted;
          no_index = s.no_index;
        })
]

-- a name that keeps to its field of a line
abbrev pub ValidName : Bytes → Type 0
ValidName name = (1 ≤ length name) × NoByte b',' name × NoByte b'\n' name × NoByte b'\r' name

name_loop-NoByte :
    (name : Bytes)
    → name_loop name ≡ true
    → NoByte b',' name × NoByte b'\n' name × NoByte b'\r' name
unfolding name_loop
name_loop-NoByte [] h = (tt, tt, tt)
name_loop-NoByte (c ∷ name) h =
    let ih = name_loop-NoByte name (ground arith) in
    ((ground arith, ih.0), (ground arith, ih.1), (ground arith, ih.2))

name_is_valid-ValidName : (name : Bytes) → name_is_valid name ≡ true → ValidName name
unfolding name_is_valid
name_is_valid-ValidName [] h = cc
name_is_valid-ValidName (c ∷ name) h =
    let n = name_loop-NoByte (c ∷ name) h in (omega arith, n.0, n.1, n.2)

-- what `db_insert_internal` has checked when it stores a record
pub record Accepted (db : DbEngine) (has_id : Bool) (id : ℕ) (name : Bytes) : Type 0 where
  pub positive : has_id ≡ true → 1 ≤ id
  pub name_ok : ValidName name
  pub new_id : has_id ≡ true → bptree_search db.index id ≡ none

not_found : (o : Option ℕ) → is_found o ≡ false → o ≡ none
not_found none h = refl
not_found (some i) h = cc

pub db_insert_internal-Stored :
    (c : Calls) (db : DbEngine) (has_id : Bool) (id : ℕ) (name : Bytes) (age : ℕ) {db' : DbEngine}
    {out message : Bytes} {used : Bool}
    → db_insert_internal c db has_id id name age ≡ (db', rows out message used)
    → Accepted db has_id id name × Stored db (new_record db has_id id name age) db' out message used
unfolding db_insert_internal
db_insert_internal-Stored c db has_id id name age h = elim (Bool-cases c.lock_ok) [
  | inr busy ↦ cc (rw busy at h)
  | inl locked ↦ (elim (Bool-cases ((has_id && id == 0) || not (name_is_valid name))) [
    | inl bad ↦ cc (rw (locked, bad) at h)
    | inr good ↦ (elim (Bool-cases (has_id && is_found (bptree_search db.index id))) [
      | inl taken ↦ cc (rw (locked, good, taken) at h)
      | inr free ↦ (
        record {
          positive = λ e. ground arith;
          name_ok = name_is_valid-ValidName name (ground arith);
          new_id = λ e. not_found _ (ground arith);
        },
        reserved-Stored c db _ _ (rw (locked, good, free) at h),
      )
    ])
  ])
]
