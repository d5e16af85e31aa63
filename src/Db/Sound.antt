-- ===== src/Db/Sound.antt =====
-- The invariant of the engine: the index finds every record by its id, ids are different, and the
-- next id is free.
use tryo.Prelude.{
  ◌*◌, ◌%◌, ◌^◌, ℕ, suc, ◌+◌, ◌≤◌, ◌<◌, ◌≡◌, refl, sym, ◌∙◌, ap, Bool, true, false, ◌&&◌, ◌||◌, not,
  Option, none, some, List, [], ◌∷◌, ◌++◌, arith, ltb, leb, ◌==◌, if◌then◌else◌, Bytes, length,
  Bool-cases, Option-cases, inl, inr, ◌⊎◌,
}
use tryo.Bptree.{BPlusTree, bptree_insert, bptree_search}
use tryo.Bptree.Tree.{IsValid, search-insert}
use tryo.Sql.{int_max}
use tryo.Db.Rows.{Record}
use tryo.Db.Engine.{
  DbEngine, Calls, record_size, resize, db_reserve_records, name_is_valid, indexed, with_record,
  insert_record, is_found, db_insert_internal,
}

-- the index of the record with the id, counted from `i`
unfoldable pub position : ℕ → List Record → ℕ → Option ℕ
position key [] i = none
position key (r ∷ rs) i = let rest = position key rs (suc i) in if r.id == key then some i else rest

-- no record has the id
unfoldable pub absent : ℕ → List Record → Bool
absent key [] = true
absent key (r ∷ rs) = not (r.id == key) && absent key rs

unfoldable pub distinct : List Record → Bool
unfolding absent
distinct [] = true
distinct (r ∷ rs) = absent r.id rs && distinct rs

-- every id is below `next`, but for the largest `int`
unfoldable pub below : ℕ → List Record → Bool
below next [] = true
below next (r ∷ rs) = ltb 0 r.id && (ltb r.id next || r.id == int_max) && below next rs

pub record IsSound (db : DbEngine) : Type 0 where
  pub valid : IsValid db.index
  pub found : (key : ℕ) → bptree_search db.index key ≡ position key db.records 0
  pub different : distinct db.records ≡ true
  pub fresh : below db.next_id db.records ≡ true
  pub next_is_int : (1 ≤ db.next_id) × (db.next_id ≤ int_max)

position-append :
    (key : ℕ) (rs : List Record) (r : Record) (i : ℕ)
    → absent r.id rs ≡ true
    → position key (rs ++ r ∷ []) i
      ≡ (if r.id == key then some (length rs + i) else position key rs i)
unfolding position absent
position-append key [] r i h = ap (λ n. if r.id == key then some n else none) (omega arith)
position-append key (x ∷ rs) r i h = ground (arith, position-append key rs r (suc i), ap suc refl)

absent-append :
    (key : ℕ) (rs : List Record) (r : Record)
    → absent key (rs ++ r ∷ []) ≡ (absent key rs && not (r.id == key))
unfolding absent
absent-append key [] r = ground arith
absent-append key (x ∷ rs) r = ground (arith, absent-append key rs r)

distinct-append :
    (rs : List Record) (r : Record)
    → absent r.id rs ≡ true
    → distinct rs ≡ true
    → distinct (rs ++ r ∷ []) ≡ true
unfolding distinct absent
distinct-append [] r a d = refl
distinct-append (x ∷ rs) r a d = ground (arith, distinct-append rs r, absent-append x.id rs r)

below-append :
    (next next' : ℕ) (rs : List Record) (r : Record)
    → next ≤ next'
    → 1 ≤ r.id
    → (ltb r.id next' || r.id == int_max) ≡ true
    → below next rs ≡ true
    → below next' (rs ++ r ∷ []) ≡ true
unfolding below
below-append next next' [] r p q h b = ground arith
below-append next next' (x ∷ rs) r p q h b = ground (arith, below-append next next' rs r)

below-absent :
    (next : ℕ) (rs : List Record) → next < int_max → below next rs ≡ true → absent next rs ≡ true
unfolding below absent
below-absent next [] h b = refl
below-absent next (x ∷ rs) h b = ground (arith, below-absent next rs)

pub position-none :
    (key : ℕ) (rs : List Record) (i : ℕ) → position key rs i ≡ none → absent key rs ≡ true
unfolding position absent
position-none key [] i h = refl
position-none key (x ∷ rs) i h = ground (arith, position-none key rs (suc i))

pub record-IsSound :
    (db : DbEngine) (r : Record) (index : BPlusTree)
    → IsSound db
    → absent r.id db.records ≡ true
    → 1 ≤ r.id
    → r.id ≤ int_max
    → IsValid index
    → ((key : ℕ)
        → bptree_search index key
          ≡ (if r.id == key then some (length db.records) else bptree_search db.index key))
    → IsSound (record (with_record db r) { index = index })
unfolding with_record
record-IsSound db r index s a p q v h = record {
  valid = v;
  found = λ key.
      h key
      ∙ rw (s.found key) (
          ap (λ n. if r.id == key then some n else position key db.records 0) (omega arith)
          ∙ sym (position-append key db.records r 0 a));
  different = distinct-append db.records r a s.different;
  fresh =
      below-append db.next_id _ db.records r (ground (arith, s.next_is_int)) p
        (ground (arith, s.next_is_int)) s.fresh;
  next_is_int = ground (arith, s.next_is_int);
}

indexed-IsSound :
    (c : Calls) (db : DbEngine) (r : Record) (out : BPlusTree × Bool)
    → IsSound (record db { index = out.0 })
    → IsSound (indexed c db r out).0
indexed-IsSound c db r (index, true) s = s
indexed-IsSound c db r (index, false) s = s

-- more room, or more bytes in the file, do not matter
pub resized :
    (db : DbEngine) (file : Bytes) (capacity : ℕ)
    → IsSound db
    → IsSound (record db { file = file; capacity = capacity })
resized db file capacity s = record {
  valid = s.valid;
  found = s.found;
  different = s.different;
  fresh = s.fresh;
  next_is_int = s.next_is_int;
}

stored-IsSound :
    (c : Calls) (db : DbEngine) (r : Record)
    → ((n : ℕ) → c.calloc_ok n ≡ true)
    → IsSound db
    → absent r.id db.records ≡ true
    → 1 ≤ r.id
    → r.id ≤ int_max
    → IsSound
        (indexed c
          (with_record db r)
          r
          (bptree_insert c.calloc_ok db.index r.id (length db.records))).0
stored-IsSound c db r enough s a p q =
    let inserts = search-insert c.calloc_ok enough db.index r.id (length db.records) in
    indexed-IsSound c (with_record db r) r _ (
      record-IsSound db r _ s a p q (inserts 0 (omega arith) s.valid).1
        λ key. (inserts key (omega arith) s.valid).2)

insert_record-IsSound :
    (c : Calls) (db : DbEngine) (r : Record)
    → ((n : ℕ) → c.calloc_ok n ≡ true)
    → IsSound db
    → absent r.id db.records ≡ true
    → 1 ≤ r.id
    → r.id ≤ int_max
    → IsSound (insert_record c db r (some db)).0
insert_record-IsSound c db r enough s a p q = elim (Bool-cases c.fopen_ok) [
  | inr closed ↦ rw closed s
  | inl opened ↦ (elim (Bool-cases (c.write_ok && c.close_ok)) [
    | inr lost ↦ rw (opened, lost) (resized db (db.file ++ c.torn) db.capacity s)
    | inl kept ↦ rw (opened, kept) (stored-IsSound c db r enough s a p q)
  ])
]

-- A reservation changes the capacity at most.
resize-same :
    (realloc_ok : ℕ → Bool) (db : DbEngine) (o : Option ℕ) {db' : DbEngine}
    → resize realloc_ok db o ≡ some db'
    → (capacity : ℕ) × (record db { capacity = capacity } ≡ db')
resize-same realloc_ok db none h = cc
resize-same realloc_ok db (some n) h = elim (Bool-cases (realloc_ok (record_size * n % 2 ^ 64))) [
  | inl given ↦ (n, cc (rw given at h))
  | inr refused ↦ cc (rw refused at h)
]

pub db_reserve_records-same :
    (realloc_ok : ℕ → Bool) (db : DbEngine) (needed : ℕ) {db' : DbEngine}
    → db_reserve_records realloc_ok db needed ≡ some db'
    → (capacity : ℕ) × (record db { capacity = capacity } ≡ db')
unfolding db_reserve_records
db_reserve_records-same realloc_ok db needed h = elim (Bool-cases (leb needed db.capacity)) [
  | inl enough ↦ (db.capacity, cc (rw enough at h))
  | inr short ↦ resize-same realloc_ok db _ (rw short at h)
]

reserved-IsSound :
    (c : Calls) (db : DbEngine) (r : Record) (needed : ℕ)
    → ((n : ℕ) → c.calloc_ok n ≡ true)
    → IsSound db
    → absent r.id db.records ≡ true
    → 1 ≤ r.id
    → r.id ≤ int_max
    → IsSound (insert_record c db r (db_reserve_records c.realloc_ok db needed)).0
reserved-IsSound c db r needed enough s a p q =
    elim (Option-cases (db_reserve_records c.realloc_ok db needed)) [
      | inl full ↦ rw full s
      | inr (db', e) ↦
          (let (n, same) = db_reserve_records-same c.realloc_ok db needed e in
            rw e (
              rw (← same) (
                insert_record-IsSound c (record db { capacity = n }) r enough
                  (resized db db.file n s) a p q)))
    ]

not_found : (o : Option ℕ) → is_found o ≡ false → o ≡ none
not_found none h = refl
not_found (some i) h = cc

-- the id of the new record, once the checks have passed
chosen_id-fresh :
    (db : DbEngine) (has_id : Bool) (id : ℕ)
    → IsSound db
    → id ≤ int_max
    → (has_id ≡ true) ⊎ (db.next_id < int_max)
    → (has_id && id == 0) ≡ false
    → (has_id && is_found (bptree_search db.index id)) ≡ false
    → let new = if has_id then id else db.next_id in
      (absent new db.records ≡ true) × (1 ≤ new) × (new ≤ int_max)
chosen_id-fresh db true id s p q z f =
    (position-none id db.records 0 (sym (s.found id) ∙ not_found _ f), ground arith, p)
chosen_id-fresh db false id s p (inl h) z f = cc
chosen_id-fresh db false id s p (inr h) z f =
    (below-absent db.next_id db.records h s.fresh, s.next_is_int.0, omega arith)

pub db_insert_internal-IsSound :
    (c : Calls) (db : DbEngine) (has_id : Bool) (id : ℕ) (name : Bytes) (age : ℕ)
    → ((n : ℕ) → c.calloc_ok n ≡ true)
    → IsSound db
    → id ≤ int_max
    → (has_id ≡ true) ⊎ (db.next_id < int_max)
    → IsSound (db_insert_internal c db has_id id name age).0
unfolding db_insert_internal
db_insert_internal-IsSound c db has_id id name age enough s p q = elim (Bool-cases c.lock_ok) [
  | inr busy ↦ rw busy s
  | inl locked ↦ (elim (Bool-cases ((has_id && id == 0) || not (name_is_valid name))) [
    | inl bad ↦ rw (locked, bad) s
    | inr good ↦ (elim (Bool-cases (has_id && is_found (bptree_search db.index id))) [
      | inl taken ↦ rw (locked, good, taken) s
      | inr free ↦
          (let (a, low, high) = chosen_id-fresh db has_id id s p q (ground arith) free in
            rw (locked, good, free) (reserved-IsSound c db _ _ enough s a low high))
    ])
  ])
]
