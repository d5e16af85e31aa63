-- ===== src/Db/Reopened.antt =====
-- `db_init` of src/db.c leaves the data file as it is.
use tryo.Prelude.{
  ℕ, zero, suc, ◌+◌, ◌≡◌, refl, sym, ◌∙◌, ap, Bool, true, false, ◌||◌, Option, none, some, [], ◌∷◌,
  leb, ◌==◌, Bytes, peek, length, Bool-cases, inl, inr,
}
use mathlib.Core.Option.{some-injective}
use tryo.Sql.{Parsed, ok, fail}
use tryo.Sql.Ensures.{Ensures, returns, Ensures-bind, Ensures-or_fail, Ensures-any}
use tryo.Bptree.{BPlusTree, bptree_insert}
use tryo.Db.Rows.{Record}
use tryo.Db.Engine.{DbEngine, Calls, db_reserve_records}
use tryo.Db.Load.{
  fgets, parse_line, loaded, load_into, load_record, load_line, load_loop, empty_engine, db_init,
}
use tryo.Db.Sound.{db_reserve_records-same}

loaded-file :
    (db : DbEngine) (r : Record) (out : BPlusTree × Bool) {db' : DbEngine}
    → loaded db r out ≡ some db'
    → db'.file ≡ db.file
loaded-file db r (index, true) h = ap (λ (o : DbEngine). o.file) (sym (some-injective _ _ h))
loaded-file db r (index, false) h = cc

load_record-file :
    (c : Calls) (db : DbEngine) (r : Record) {db' : DbEngine}
    → load_record c db r ≡ some db'
    → db'.file ≡ db.file
unfolding load_record
load_record-file c db r h = go (db_reserve_records c.realloc_ok db (length db.records + 1)) refl h
  where
    go :
        (o : Option DbEngine) {db' : DbEngine}
        → db_reserve_records c.realloc_ok db (length db.records + 1) ≡ o
        → load_into c r o ≡ some db'
        → db'.file ≡ db.file
    go none e h = cc
    go (some db₁) e h =
        let (n, same) = db_reserve_records-same c.realloc_ok db (length db.records + 1) e in
        loaded-file db₁ r (bptree_insert c.calloc_ok db₁.index r.id (length db₁.records)) h
        ∙ ap (λ (o : DbEngine). o.file) (sym same)

load_line-file :
    (calls : ℕ → Calls) (db : DbEngine) (line : Bytes)
    → Ensures (λ db'. db'.file ≡ db.file) (load_line calls db line)
unfolding load_line
load_line-file calls db line = Ensures-bind _ (Ensures-any (parse_line line)) λ r _.
    Ensures-or_fail _ (load_record (calls (length db.records)) db r) _
      λ db' e. load_record-file _ db r e

load_loop-file :
    (f : ℕ) (calls : ℕ → Calls) (db : DbEngine) (file : Bytes) {db' : DbEngine}
    → load_loop f calls db file ≡ some (ok db')
    → db'.file ≡ db.file
unfolding load_loop
load_loop-file zero calls db file h = cc
load_loop-file (suc f) calls db [] {db'} h =
    let e : db ≡ db' = cc in ap (λ (o : DbEngine). o.file) (sym e)
load_loop-file (suc f) calls db (c ∷ file) {db'} h =
    let line = (fgets 511 (c ∷ file)).0 in
    let rest = (fgets 511 (c ∷ file)).1 in
    elim (Bool-cases (peek line == b'\n' || peek line == 0)) [
      | inl skip ↦ load_loop-file f calls db rest (rw skip at h)
      | inr text ↦
          go rest (load_line calls db line) (load_line-file calls db line) (rw text at h)
            (λ db₁ e. load_loop-file f calls db₁ rest e)
    ]
  where
    go :
        (rest : Bytes) (m : Parsed DbEngine)
        → Ensures (λ db'. db'.file ≡ db.file) m
        → elim m as (λ x. Option (Parsed DbEngine)) [
          | fail message ↦ some (fail message)
          | ok db' ↦ load_loop f calls db' rest
        ]
          ≡ some (ok db')
        → ((db₁ : DbEngine) → load_loop f calls db₁ rest ≡ some (ok db') → db'.file ≡ db₁.file)
        → db'.file ≡ db.file
    go rest (fail message) p h ih = cc
    go rest (ok db₁) (returns _ e) h ih = ih db₁ h ∙ e

-- the engine that `db_init` makes is one on the same file
pub db_init-file :
    (data_path : Bytes) (calls : ℕ → Calls) (file : Bytes) {db : DbEngine}
    → db_init data_path true true calls file ≡ some (ok db)
    → db.file ≡ file
unfolding db_init
db_init-file data_path calls file h = elim (Bool-cases (leb 512 (length data_path))) [
  | inl long ↦ cc (rw long at h)
  | inr short ↦ load_loop-file (suc (length file)) calls (empty_engine file) file (rw short at h)
]
