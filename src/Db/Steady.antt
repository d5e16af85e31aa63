-- ===== src/Db/Steady.antt =====
-- The engine of src/db.c between its memory and its data file: what an insertion leaves when a line
-- is written whole or not at all.
use tryo.Prelude.{
  ℕ, ◌+◌, ◌≤◌, ◌<◌, ◌≡◌, refl, ◌∙◌, ap, subst, Bool, true, false, ◌&&◌, ◌||◌, not, some, List, [],
  ◌∷◌, ◌++◌, arith, ◌==◌, if◌then◌else◌, Bytes, length, take-all, ◌⊎◌, Bool-cases, Option-cases,
  inl, inr,
}
use tryo.Bptree.{BPlusTree, bptree_search, bptree_insert}
use tryo.Sql.{int_max}
use tryo.Db.Rows.{Record}
use tryo.Db.Engine.{
  DbEngine, Calls, db_reserve_records, name_is_valid, fitted, line_of, indexed, with_record,
  insert_record, is_found, db_insert_internal,
}
use tryo.Db.Sound.{IsSound, resized, db_reserve_records-same, db_insert_internal-IsSound}
use tryo.Db.Insert.{new_record}
use tryo.Db.Line.{Storable}
use tryo.Db.Durable.{lines, AllStorable, lines-append}

-- memory for the index is there, and a line is written whole if the file opens
pub record Steady (c : Calls) : Type 0 where
  pub nodes : (n : ℕ) → c.calloc_ok n ≡ true
  pub written : (c.write_ok && c.close_ok) ≡ true

-- what an insertion has done to the records and the file, whatever it answers
pub data Effect (db : DbEngine) (name : Bytes) (r : Record) (db' : DbEngine) : Type 0 where
  kept : (capacity : ℕ) → record db { capacity = capacity } ≡ db' → Effect db name r db'
  stored :
      name_is_valid name ≡ true
      → 1 ≤ r.id
      → db'.records ≡ db.records ++ r ∷ []
      → db'.file ≡ db.file ++ line_of r
      → Effect db name r db'

indexed-records :
    (c : Calls) (db : DbEngine) (r : Record) (t : BPlusTree × Bool)
    → ((indexed c db r t).0.records ≡ db.records) × ((indexed c db r t).0.file ≡ db.file)
indexed-records c db r (index, true) = (refl, refl)
indexed-records c db r (index, false) = (refl, refl)

insert_record-Effect :
    (c : Calls) (db : DbEngine) (name : Bytes) (r : Record) (capacity : ℕ)
    → Steady c
    → name_is_valid name ≡ true
    → 1 ≤ r.id
    → Effect db name r (insert_record c db r (some (record db { capacity = capacity }))).0
unfolding with_record
insert_record-Effect c db name r capacity s v p = elim (Bool-cases c.fopen_ok) [
  | inr closed ↦ rw closed (kept capacity refl)
  | inl opened ↦
      rw (opened, s.written)
        (let e =
            indexed-records c (with_record (record db { capacity = capacity }) r) r
              (bptree_insert c.calloc_ok db.index r.id (length db.records)) in
          stored v p e.0 e.1)
]

reserved-Effect :
    (c : Calls) (db : DbEngine) (name : Bytes) (r : Record) (needed : ℕ)
    → Steady c
    → name_is_valid name ≡ true
    → 1 ≤ r.id
    → Effect db name r (insert_record c db r (db_reserve_records c.realloc_ok db needed)).0
reserved-Effect c db name r needed s v p =
    elim (Option-cases (db_reserve_records c.realloc_ok db needed)) [
      | inl full ↦ rw full (kept db.capacity refl)
      | inr (db₁, e) ↦
          (let (n, same) = db_reserve_records-same c.realloc_ok db needed e in
            rw e (rw (← same) (insert_record-Effect c db name r n s v p)))
    ]

pub db_insert_internal-Effect :
    (c : Calls) (db : DbEngine) (has_id : Bool) (id : ℕ) (name : Bytes) (age : ℕ)
    → Steady c
    → 1 ≤ db.next_id
    → Effect db name
        (new_record db has_id id name age)
        (db_insert_internal c db has_id id name age).0
unfolding db_insert_internal
db_insert_internal-Effect c db has_id id name age s p = elim (Bool-cases c.lock_ok) [
  | inr busy ↦ rw busy (kept db.capacity refl)
  | inl locked ↦ (elim (Bool-cases ((has_id && id == 0) || not (name_is_valid name))) [
    | inl bad ↦ rw (locked, bad) (kept db.capacity refl)
    | inr good ↦ (elim (Bool-cases (has_id && is_found (bptree_search db.index id))) [
      | inl taken ↦ rw (locked, good, taken) (kept db.capacity refl)
      | inr free ↦
          rw (locked, good, free)
            (reserved-Effect c db name (new_record db has_id id name age) (length db.records + 1) s
              (ground arith) (ground arith))
    ])
  ])
]

-- every id is below the largest `int`
unfoldable pub SmallIds : List Record → Type 0
SmallIds [] = Unit
SmallIds (r ∷ rs) = (r.id < int_max) × SmallIds rs

SmallIds-last : (rs : List Record) (r : Record) → SmallIds (rs ++ r ∷ []) → r.id < int_max
unfolding SmallIds
SmallIds-last [] r h = h.0
SmallIds-last (x ∷ rs) r h = SmallIds-last rs r h.1

AllStorable-append :
    (rs : List Record) (r : Record) → AllStorable rs → Storable r → AllStorable (rs ++ r ∷ [])
unfolding AllStorable
AllStorable-append [] r h s = (s, tt)
AllStorable-append (x ∷ rs) r h s = (h.0, AllStorable-append rs r h.1 s)

-- the memory and the file agree, and the file can be read back
pub record Consistent (db : DbEngine) : Type 0 where
  pub sound : IsSound db
  pub same_file : db.file ≡ lines db.records
  pub storable : AllStorable db.records

kept-Consistent :
    (db : DbEngine) (capacity : ℕ) → Consistent db → Consistent (record db { capacity = capacity })
kept-Consistent db capacity h = record {
  sound = resized db db.file capacity h.sound;
  same_file = h.same_file;
  storable = h.storable;
}

new_record-Storable :
    (db : DbEngine) (has_id : Bool) (id : ℕ) (name : Bytes) (age : ℕ)
    → name_is_valid name ≡ true
    → length name < 128
    → age ≤ int_max
    → 1 ≤ (new_record db has_id id name age).id
    → (new_record db has_id id name age).id < int_max
    → Storable (new_record db has_id id name age)
new_record-Storable db has_id id name age v l a p q =
    let whole : fitted name ≡ name = take-all 127 name (omega arith) in
    record {
      id_range = (p, q);
      age_range = a;
      name_ok = rw whole v;
      name_fits = rw whole (omega arith);
    }

automatic_id :
    (db : DbEngine) (has_id : Bool) (id : ℕ)
    → (if has_id then id else db.next_id) < int_max
    → (has_id ≡ true) ⊎ (db.next_id < int_max)
automatic_id db true id h = inl refl
automatic_id db false id h = inr h

pub db_insert_internal-Consistent :
    (c : Calls) (db : DbEngine) (has_id : Bool) (id : ℕ) (name : Bytes) (age : ℕ)
    → Steady c
    → Consistent db
    → id ≤ int_max
    → length name < 128
    → age ≤ int_max
    → SmallIds (db_insert_internal c db has_id id name age).0.records
    → Consistent (db_insert_internal c db has_id id name age).0
db_insert_internal-Consistent c db has_id id name age s h i l a small =
    go (db_insert_internal-Effect c db has_id id name age s h.sound.next_is_int.0) refl
  where
    go :
        {db' : DbEngine}
        → Effect db name (new_record db has_id id name age) db'
        → (db_insert_internal c db has_id id name age).0 ≡ db'
        → Consistent db'
    go (kept capacity e) q = rw (← e) (kept-Consistent db capacity h)
    go {db'} (stored v p records file) q =
        let fits =
          SmallIds-last db.records _ (subst SmallIds (ap (λ x. x.records) q ∙ records) small) in
        let t = new_record-Storable db has_id id name age v l a p fits in
        record {
          sound = subst IsSound q (
              db_insert_internal-IsSound c db has_id id name age s.nodes h.sound i
                (automatic_id db has_id id fits));
          same_file = file ∙ rw (records, h.same_file) (lines-append db.records _);
          storable = rw records (AllStorable-append db.records _ h.storable t);
        }
