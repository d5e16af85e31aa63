-- ===== src/Db/Reload.antt =====
-- `db_init` on a file that insertions wrote.
use native.Mathlib.Nat.{pow-suc}
use tryo.Prelude.{
  ℕ, zero, suc, ◌+◌, ◌*◌, ◌%◌, ◌^◌, ◌≤◌, ◌<◌, ◌≡◌, refl, Bool, true, false, ◌&&◌, not, some, [],
  ◌∷◌, ◌++◌, arith, ltb, leb, ◌==◌, if◌then◌else◌, next, length, Bool-cases, inl, inr, ltb→lt,
}
use tryo.Bptree.{BPlusTree, bptree_insert}
use tryo.Sql.{int_max}
use tryo.Bptree.Tree.{search-insert}
use tryo.Db.Rows.{Record}
use tryo.Db.Engine.{
  DbEngine, Calls, record_size, capacity_loop, next_capacity, db_reserve_records, with_record,
}
use tryo.Db.Load.{loaded, load_record}
use tryo.Db.Sound.{IsSound, absent, resized, record-IsSound}
use tryo.Db.Line.{Storable}

-- the doubling of the capacity ends
capacity_loop-some :
    (f n needed : ℕ)
    → 0 < n
    → needed ≤ n * 2 ^ f
    → needed ≤ 2 ^ 63
    → (m : ℕ) × (capacity_loop (suc f) n needed ≡ some m)
unfolding capacity_loop
capacity_loop-some zero n needed p q h = (n, ground arith)
capacity_loop-some (suc f) n needed p q h = elim (Bool-cases (ltb n needed)) [
  | inr enough ↦ (n, rw enough refl)
  | inl short ↦
      (let no_wrap : n * 2 % 2 ^ 64 ≡ n * 2 = omega (arith, ltb→lt _ _ short) in
        rw (short, no_wrap)
          (capacity_loop-some f (n * 2) needed (omega arith)
            (omega (arith, (rw (pow-suc 2 f) at q))) h))
]

-- a record that the engine takes
pub record Plenty (c : Calls) : Type 0 where
  pub room : (n : ℕ) → c.realloc_ok n ≡ true
  pub nodes : (n : ℕ) → c.calloc_ok n ≡ true

start_capacity : (capacity : ℕ) → 0 < (if capacity == 0 then 64 else capacity)
start_capacity capacity = ground arith

capacity_loop-enough : (f n needed : ℕ) {m : ℕ} → capacity_loop f n needed ≡ some m → needed ≤ m
unfolding capacity_loop
capacity_loop-enough zero n needed h = cc
capacity_loop-enough (suc f) n needed {m} h = elim (Bool-cases (ltb n needed)) [
  | inl short ↦ capacity_loop-enough f (n * 2 % 2 ^ 64) needed (rw short at h)
  | inr enough ↦ (let e : n ≡ m = cc (rw enough at h) in ground (arith, e))
]

pub next_capacity-enough :
    (db : DbEngine) (needed : ℕ)
    → needed ≤ 2 ^ 63
    → (capacity : ℕ) × (next_capacity db needed ≡ some capacity) × (needed ≤ capacity)
next_capacity-enough db needed h =
    let first = if db.capacity == 0 then 64 else db.capacity in
    let (m, e) =
      capacity_loop-some 63 first needed (start_capacity db.capacity)
        (omega (arith, start_capacity db.capacity, h)) h in
    (m, e, capacity_loop-enough 64 first needed e)

pub db_reserve_records-some :
    (c : Calls) (db : DbEngine) (needed : ℕ)
    → Plenty c
    → needed ≤ 2 ^ 63
    → (n : ℕ) × (db_reserve_records c.realloc_ok db needed ≡ some (record db { capacity = n }))
unfolding db_reserve_records
db_reserve_records-some c db needed a h = elim (Bool-cases (leb needed db.capacity)) [
  | inl enough ↦ (db.capacity, rw enough refl)
  | inr short ↦
      (let (m, e, n) = next_capacity-enough db needed h in
        (m, rw (short, e, a.room (record_size * m % 2 ^ 64)) refl))
]

-- the engine with the record
abbrev with_loaded : DbEngine → Record → BPlusTree → DbEngine
with_loaded db r index = record db {
  records = db.records ++ r ∷ [];
  index = index;
  next_id = if leb db.next_id r.id then r.id + 1 else db.next_id;
}

loaded-some :
    (db : DbEngine) (r : Record) (out : BPlusTree × Bool)
    → out.1 ≡ true
    → loaded db r out ≡ some (with_loaded db r out.0)
loaded-some db r (index, true) e = refl
loaded-some db r (index, false) e = cc

next_id-same :
    (next id : ℕ)
    → id < int_max
    → (if not (ltb id next) && ltb id int_max then id + 1 else next)
      ≡ (if leb next id then id + 1 else next)
next_id-same next id h = ground arith

renumbered :
    (db : DbEngine) (r : Record) (index : BPlusTree)
    → Storable r
    → IsSound (record (with_record db r) { index = index })
    → IsSound (with_loaded db r index)
unfolding with_record
renumbered db r index t s =
    rw (← next_id-same db.next_id r.id t.id_range.1) (resized _ db.file db.capacity s)

loaded-IsSound :
    (c : Calls) (db : DbEngine) (r : Record)
    → Plenty c
    → IsSound db
    → Storable r
    → absent r.id db.records ≡ true
    → (db' : DbEngine) × (loaded db r (bptree_insert c.calloc_ok db.index r.id (length db.records))
        ≡ some db')
      × (db'.records ≡ db.records ++ r ∷ [])
      × IsSound db'
loaded-IsSound c db r a s t h =
    let inserts = search-insert c.calloc_ok a.nodes db.index r.id (length db.records) in
    let sound =
      record-IsSound db r (bptree_insert c.calloc_ok db.index r.id (length db.records)).0 s h
        (omega (arith, t.id_range)) (omega (arith, t.id_range))
        (inserts 0 (omega (arith, t.id_range)) s.valid).1
        (λ key. (inserts key (omega (arith, t.id_range)) s.valid).2) in
    let ok = (inserts 0 (omega (arith, t.id_range)) s.valid).0 in
    (_, loaded-some db r _ ok, refl, renumbered db r _ t sound)

pub load_record-IsSound :
    (c : Calls) (db : DbEngine) (r : Record)
    → Plenty c
    → IsSound db
    → Storable r
    → absent r.id db.records ≡ true
    → length db.records + 1 ≤ 2 ^ 63
    → (db' : DbEngine) × (load_record c db r ≡ some db')
      × (db'.records ≡ db.records ++ r ∷ [])
      × IsSound db'
unfolding load_record
load_record-IsSound c db r a s t h q =
    let (n, e) = db_reserve_records-some c db (length db.records + 1) a q in
    rw e (loaded-IsSound c (record db { capacity = n }) r a (resized db db.file n s) t h)
