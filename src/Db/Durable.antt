-- ===== src/Db/Durable.antt =====
-- The data file: what insertions leave in it, and what `db_init` makes of it.
use Prim.Native.String.{String}
use tryo.Prelude.{
  ℕ, zero, suc, ◌+◌, ◌^◌, ◌≤◌, ◌<◌, ◌≡◌, ◌≢◌, refl, sym, ◌∙◌, ap, Bool, true, false, ◌||◌, none,
  some, List, [], ◌∷◌, ◌++◌, append-nil, append_assoc, arith, leb, ◌==◌, Bytes, peek, isdigit,
  length, length-append, Bool-cases, inl, inr, ◌⊎◌,
}
use tryo.Prelude.Decimal.{decimal-isdigit}
use tryo.Sql.{Parsed, ok, fail}
use tryo.Bptree.{bptree_init, bptree_search}
use tryo.Bptree.Tree.{bptree_init-IsValid}
use tryo.Db.Rows.{Record}
use tryo.Db.Engine.{next_capacity, DbEngine, Calls, line_of}
use tryo.Db.Load.{fgets, load_line, load_loop, empty_engine, db_init}
use tryo.Db.Sound.{IsSound, position, absent, distinct, below}
use tryo.Db.Reload.{next_capacity-enough, Plenty, load_record-IsSound}
use tryo.Db.Line.{
  Storable, one_line, fgets-line, line_body, line_of-body, length-line_body, line_body-one_line,
  parse_line-line,
}

-- the file of the records
unfoldable pub lines : List Record → Bytes
lines [] = []
lines (r ∷ rs) = line_of r ++ lines rs

unfoldable pub AllStorable : List Record → Type 0
AllStorable [] = Unit
AllStorable (r ∷ rs) = Storable r × AllStorable rs

load_loop-line :
    (f : ℕ) (calls : ℕ → Calls) (db : DbEngine) (line rest : Bytes) {db' : DbEngine}
    → isdigit (peek line) ≡ true
    → one_line line ≡ true
    → length line < 511
    → load_line calls db (line ++ b'\n' ∷ []) ≡ ok db'
    → load_loop (suc f) calls db (line ++ b'\n' ∷ rest) ≡ load_loop f calls db' rest
unfolding load_loop
load_loop-line f calls db [] rest d o l h = absurd (ground arith)
load_loop-line f calls db (c ∷ line) rest {db'} d o l h =
    let no_end : (c == b'\n' || c == 0) ≡ false = ground arith in
    let read = fgets-line 511 (c ∷ line) rest o l in
    rw read (rw (no_end, h) (ap (load_loop f calls db') (ap (λ x. x.1) read)))

absent-middle :
    (key : ℕ) (xs : List Record) (r : Record) (rs : List Record)
    → absent key (xs ++ r ∷ rs) ≡ true
    → (r.id == key) ≡ false
unfolding absent
absent-middle key [] r rs h = ground arith
absent-middle key (x ∷ xs) r rs h = ground (arith, absent-middle key xs r rs)

distinct-absent :
    (xs : List Record) (r : Record) (rs : List Record)
    → distinct (xs ++ r ∷ rs) ≡ true
    → absent r.id xs ≡ true
unfolding distinct absent
distinct-absent [] r rs h = refl
distinct-absent (x ∷ xs) r rs h =
    ground (arith, distinct-absent xs r rs, absent-middle x.id xs r rs)

line_body-isdigit : (r : Record) → isdigit (peek (line_body r)) ≡ true
line_body-isdigit r = decimal-isdigit r.id _

load_line-IsSound :
    (calls : ℕ → Calls) (db : DbEngine) (r : Record)
    → ((n : ℕ) → Plenty (calls n))
    → IsSound db
    → Storable r
    → absent r.id db.records ≡ true
    → length db.records + 1 ≤ 2 ^ 63
    → (db' : DbEngine) × (load_line calls db (line_body r ++ b'\n' ∷ []) ≡ ok db')
      × (db'.records ≡ db.records ++ r ∷ [])
      × IsSound db'
unfolding load_line
load_line-IsSound calls db r a s t h q =
    let (db', e, same, sound) =
      load_record-IsSound (calls (length db.records)) db r (a _) s t h q in
    (db', rw (parse_line-line r t) (rw e refl), same, sound)

load_loop-lines :
    (f : ℕ) (calls : ℕ → Calls) (db : DbEngine) (rs : List Record)
    → length (lines rs) < f
    → ((n : ℕ) → Plenty (calls n))
    → IsSound db
    → AllStorable rs
    → distinct (db.records ++ rs) ≡ true
    → length db.records + length rs ≤ 2 ^ 63
    → (db' : DbEngine) × (load_loop f calls db (lines rs) ≡ some (ok db'))
      × (db'.records ≡ db.records ++ rs)
      × IsSound db'
unfolding lines AllStorable
load_loop-lines zero calls db rs q a s t d n = absurd (omega arith)
load_loop-lines (suc f) calls db [] q a s t d n =
    (db, unfold load_loop in refl, sym (append-nil db.records), s)
load_loop-lines (suc f) calls db (r ∷ rs) q a s t d n =
    let (db₁, e₁, same₁, s₁) =
      load_line-IsSound calls db r a s t.0 (distinct-absent db.records r rs d) (omega (arith, n)) in
    let regroup : db₁.records ++ rs ≡ db.records ++ (r ∷ rs) =
      ap (λ xs. xs ++ rs) same₁ ∙ append_assoc db.records (r ∷ []) rs in
    let shorter : length (lines rs) < f = omega (
      arith,
      q,
      ap length (line_of-body r (lines rs)),
      length-append (line_body r) (b'\n' ∷ lines rs),
    ) in
    let (db₂, e₂, same₂, s₂) =
      load_loop-lines f calls db₁ rs shorter a s₁ t.1 (rw regroup d)
        (omega (arith, ap length same₁, length-append db.records (r ∷ []), n)) in
    (
      db₂,
      rw (line_of-body r (lines rs)) (
          load_loop-line f calls db (line_body r) (lines rs) (line_body-isdigit r)
            (line_body-one_line r t.0) (length-line_body r t.0) e₁
          ∙ e₂),
      same₂ ∙ regroup,
      s₂,
    )

pub empty_engine-IsSound : (file : Bytes) → IsSound (empty_engine file)
unfolding position distinct below
empty_engine-IsSound file = record {
  valid = bptree_init-IsValid;
  found = λ key. unfold bptree_search bptree_init in refl;
  different = refl;
  fresh = refl;
  next_is_int = ground arith;
}

-- `db_init` on a file of the lines of at most 2 ^ 63 records with different ids, where the ids are
-- positive and below 2147483647, the ages at most that, and the names valid and of at most 127 bytes:
-- with a path below 512 bytes and every call successful, the engine has just these records, in their
-- order, and is sound.
pub db_init-lines :
    (data_path : Bytes) (calls : ℕ → Calls) (rs : List Record)
    → length data_path < 512
    → ((n : ℕ) → Plenty (calls n))
    → AllStorable rs
    → distinct rs ≡ true
    → length rs ≤ 2 ^ 63
    → (db : DbEngine) × (db_init data_path true true calls (lines rs) ≡ some (ok db))
      × (db.records ≡ rs)
      × IsSound db
unfolding db_init
db_init-lines data_path calls rs p a t d n =
    let short : leb 512 (length data_path) ≡ false = ground arith in
    let (db, e, same, s) =
      load_loop-lines (suc (length (lines rs))) calls (empty_engine (lines rs)) rs (omega arith) a
        (empty_engine-IsSound (lines rs)) t d (omega (arith, n)) in
    (db, rw short e, same, s)

length-fgets : (n : ℕ) (file : Bytes) → length (fgets n file).1 ≤ length file
unfolding fgets
length-fgets zero file = omega arith
length-fgets (suc n) [] = omega arith
length-fgets (suc n) (c ∷ file) = ground (arith, length-fgets n file)

length-fgets-suc : (n c : ℕ) (file : Bytes) → length (fgets (suc n) (c ∷ file)).1 ≤ length file
unfolding fgets
length-fgets-suc n c file = ground (arith, length-fgets n file)

Parsed-cases {ℓ} :
    {A : Type ℓ} (m : Parsed A) → ((message : String) × (m ≡ fail message)) ⊎ ((a : A) × (m ≡ ok a))
Parsed-cases (ok a) = inr (a, refl)
Parsed-cases (fail message) = inl (message, refl)

load_loop_terminates :
    (f : ℕ) (calls : ℕ → Calls) (db : DbEngine) (file : Bytes)
    → length file < f
    → load_loop f calls db file ≢ none
unfolding load_loop
load_loop_terminates zero calls db file h = absurd (omega arith)
load_loop_terminates (suc f) calls db [] h = λ e. cc
load_loop_terminates (suc f) calls db (c ∷ file) h =
    let line = (fgets 511 (c ∷ file)).0 in
    let less : length (fgets 511 (c ∷ file)).1 < f = omega (arith, length-fgets-suc 510 c file) in
    elim (Bool-cases (peek line == b'\n' || peek line == 0)) [
      | inl skip ↦ rw skip (load_loop_terminates f calls db _ less)
      | inr text ↦ (elim (Parsed-cases (load_line calls db line)) [
        | inl (message, e) ↦ rw (text, e) (λ z. cc)
        | inr (db', e) ↦ rw (text, e) (load_loop_terminates f calls db' _ less)
      ])
    ]

db_init_in_time :
    (data_path : Bytes) (rwlock_ok fopen_ok : Bool) (calls : ℕ → Calls) (file : Bytes)
    → db_init data_path rwlock_ok fopen_ok calls file ≢ none
unfolding db_init
db_init_in_time data_path rwlock_ok fopen_ok calls file =
    elim (Bool-cases (leb 512 (length data_path))) [
      | inl long ↦ rw long (λ e. cc)
      | inr short ↦ (elim (Bool-cases rwlock_ok) [
        | inr locked ↦ rw (short, locked) (λ e. cc)
        | inl lock ↦ (elim (Bool-cases fopen_ok) [
          | inr closed ↦ rw (short, lock, closed) (λ e. cc)
          | inl opened ↦
              rw (short, lock, opened)
                (load_loop_terminates (suc (length file)) calls (empty_engine file) file
                  (omega arith))
        ])
      ])
    ]

-- The loop of `db_init` ends on every file: each round reads a byte at least. And the doubling loop
-- of the `db_reserve_records` that it calls, from the capacity of any engine, 0 included, ends
-- within 64 rounds with room for up to 2 ^ 63 records.
pub db_init_terminates :
    (data_path : Bytes) (rwlock_ok fopen_ok : Bool) (calls : ℕ → Calls) (file : Bytes)
    (db : DbEngine) (needed : ℕ)
    → needed ≤ 2 ^ 63
    → (db_init data_path rwlock_ok fopen_ok calls file ≢ none)
      × ((capacity : ℕ) × (next_capacity db needed ≡ some capacity) × (needed ≤ capacity))
db_init_terminates data_path rwlock_ok fopen_ok calls file db needed h =
    (db_init_in_time data_path rwlock_ok fopen_ok calls file, next_capacity-enough db needed h)

pub lines-append : (rs : List Record) (r : Record) → lines rs ++ line_of r ≡ lines (rs ++ r ∷ [])
unfolding lines
lines-append [] r = sym (append-nil (line_of r))
lines-append (x ∷ rs) r =
    append_assoc (line_of x) (lines rs) (line_of r) ∙ ap (λ u. line_of x ++ u) (lines-append rs r)
