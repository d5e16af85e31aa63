-- ===== src/Server/Inserted.antt =====
-- The insertions of src/db.c against those into a table.
use tryo.Prelude.{
  ℕ, suc, ◌+◌, ◌^◌, ◌≤◌, ◌≡◌, refl, ◌∙◌, ap, ap₂, Bool, true, false, ◌&&◌, ◌||◌, not, List, [], ◌∷◌,
  ◌++◌, arith, ◌==◌, if◌then◌else◌, Bytes, length, take-all, Bool-cases, inl, inr,
}
use tryo.Bptree.{bptree_search}
use tryo.Sql.{int_max}
use tryo.Db.Rows.{Record, all_columns_projection}
use tryo.Db.Engine.{
  DbEngine, Calls, error, name_is_valid, with_record, is_found, db_insert_internal,
}
use tryo.Db.Matching.{array_text}
use tryo.Db.Sound.{IsSound, position, absent}
use tryo.Db.Insert.{new_record, Stored, db_insert_internal-Stored}
use tryo.Db.Total.{Generous, db_insert_internal-total}
use tryo.Server.Query.{answered}
use tryo.Server.Table.{Table, table_of, Reply, refusal, inserted, with_name}
use tryo.Server.Refused.{Refines, refused_insert}

is_found-position :
    (id : ℕ) (rs : List Record) (i : ℕ) → is_found (position id rs i) ≡ not (absent id rs)
unfolding position absent
is_found-position id [] i = refl
is_found-position id (r ∷ rs) i = ground (arith, is_found-position id rs (suc i))

-- the record of a command is stored as it is
Stored-inserted :
    (c : Calls) (db : DbEngine) (has_id : Bool) (id : ℕ) (name : Bytes) (age : ℕ) {db' : DbEngine}
    {out message : Bytes} {used : Bool}
    → length name ≤ 127
    → Stored db (new_record db has_id id name age) db' out message used
    → Refines
        (inserted
          (table_of db)
          (record { id = if has_id then id else db.next_id; name = name; age = age }))
        (db', record { status = 200; body = out })
unfolding with_record
Stored-inserted c db has_id id name age n s =
    let same =
      ap (λ s. record (new_record db has_id id name age) { name = s }) (take-all 127 name n) in
    record {
      table =
          ap₂ (λ rows next_id. record { rows = rows; next_id = next_id })
            (s.records ∙ ap (λ r. db.records ++ r ∷ []) same) (s.next_id ∙ ground arith);
      response =
          ap (λ body. record { status = 200; body = body })
            (s.json ∙ ap (λ r. array_text all_columns_projection (r ∷ [])) same);
    }

-- what a command makes of a valid name
abbrev pub accepted : DbEngine → Bool → ℕ → Bytes → ℕ → Table × Reply
accepted db has_id id name age =
    if has_id && not (absent id db.records)
    then (table_of db, refusal "duplicate id")
    else inserted (table_of db)
        (record { id = if has_id then id else db.next_id; name = name; age = age })

db_insert_internal-invalid :
    (c : Calls) (db : DbEngine) (has_id : Bool) (id : ℕ) (name : Bytes) (age : ℕ)
    → c.lock_ok ≡ true
    → ((has_id && id == 0) || not (name_is_valid name)) ≡ true
    → db_insert_internal c db has_id id name age ≡ (db, error "invalid id, name, or age")
unfolding db_insert_internal
db_insert_internal-invalid c db has_id id name age l bad = rw (l, bad) refl

db_insert_internal-duplicate :
    (c : Calls) (db : DbEngine) (has_id : Bool) (id : ℕ) (name : Bytes) (age : ℕ)
    → c.lock_ok ≡ true
    → ((has_id && id == 0) || not (name_is_valid name)) ≡ false
    → (has_id && is_found (bptree_search db.index id)) ≡ true
    → db_insert_internal c db has_id id name age ≡ (db, error "duplicate id")
unfolding db_insert_internal
db_insert_internal-duplicate c db has_id id name age l good taken = rw (l, good, taken) refl

pub db_insert_internal-Refines :
    (c : Calls) (db : DbEngine) (has_id : Bool) (id : ℕ) (name : Bytes) (age : ℕ)
    → Generous c
    → IsSound db
    → id ≤ int_max
    → age ≤ int_max
    → length name ≤ 127
    → length db.records + 1 ≤ 2 ^ 63
    → (has_id && id == 0) ≡ false
    → Refines
        (with_name (table_of db) name (accepted db has_id id name age))
        (answered c (db_insert_internal c db has_id id name age))
db_insert_internal-Refines c db has_id id name age g s i a n q z =
    let here : is_found (bptree_search db.index id) ≡ not (absent id db.records) =
      rw (s.found id) (is_found-position id db.records 0) in
    elim (Bool-cases (name_is_valid name)) [
      | inr bad ↦
          rw (bad, db_insert_internal-invalid c db has_id id name age g.lock (ground arith))
            (refused_insert c db "invalid id, name, or age" g.text (omega arith))
      | inl good ↦ (elim (Bool-cases (has_id && not (absent id db.records))) [
        | inl taken ↦
            rw
              (
                good,
                taken,
                db_insert_internal-duplicate c db has_id id name age g.lock (ground arith)
                    (rw here taken),
              )
              (refused_insert c db "duplicate id" g.text (omega arith))
        | inr free ↦
            (let passed : ((has_id && id == 0) || not (name_is_valid name)) ≡ false =
                ground arith in
              let new : (has_id && is_found (bptree_search db.index id)) ≡ false = rw here free in
              let (db', out, message, e) =
                db_insert_internal-total c db has_id id name age g s i a q passed new in
              rw (good, free, e)
                (Stored-inserted c db has_id id name age n
                  (db_insert_internal-Stored c db has_id id name age e).1))
      ])
    ]
