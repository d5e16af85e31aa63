-- ===== src/Server/Durable.antt =====
-- The table of a sequence of requests after a restart of src/server.c.
use tryo.Prelude.{
  ℕ, ◌^◌, ◌≤◌, ◌<◌, ◌≡◌, refl, sym, ◌∙◌, ap, subst, true, some, List, [], ◌∷◌, ◌++◌, append-nil,
  append_assoc, arith, Bytes, length, Bool-cases, inl, inr,
}
use tryo.Sql.{ok}
use tryo.Sql.Command.{Command, insert_values, insert_named, select}
use tryo.Db.Rows.{Record}
use tryo.Db.Engine.{DbEngine, Calls, name_is_valid}
use tryo.Db.Load.{empty_engine, db_init}
use tryo.Db.Reload.{Plenty}
use tryo.Db.Durable.{empty_engine-IsSound}
use tryo.Db.Sound.{IsSound, absent}
use tryo.Db.Steady.{Steady, SmallIds}
use tryo.Db.Total.{Generous}
use tryo.Server.Query.{handle_client}
use tryo.Server.Requests.{handle_client-IsSound}
use tryo.Server.Restart.{Life, start, request, restart-same}
use tryo.Server.Table.{Table, table_of, Reply, with_name, run}
use tryo.Server.History.{Ask, serve, run_all, AllServed, handle_client-Refines, serve-run_all}

-- the rows are those of `t`, and more behind them
abbrev Longer : List Record → List Record → Type 0
Longer rs rs' = (more : List Record) × (rs' ≡ rs ++ more)

Longer-same : (rs : List Record) → Longer rs rs
Longer-same rs = ([], sym (append-nil rs))

with_name-Longer :
    (t : Table) (name : Bytes) (out : Table × Reply)
    → Longer t.rows out.0.rows
    → Longer t.rows (with_name t name out).0.rows
with_name-Longer t name out h = elim (Bool-cases (name_is_valid name)) [
  | inl good ↦ rw good h
  | inr bad ↦ rw bad (Longer-same t.rows)
]

run-Longer : (t : Table) (command : Command) → Longer t.rows (run t command).0.rows
unfolding run
run-Longer t (insert_values id name age) =
    with_name-Longer t name _ (elim (Bool-cases (absent id t.rows)) [
      | inl new ↦ rw new (record { id = id; name = name; age = age } ∷ [], refl)
      | inr taken ↦ rw taken (Longer-same t.rows)
    ])
run-Longer t (insert_named name age) =
    with_name-Longer t name _ (record { id = t.next_id; name = name; age = age } ∷ [], refl)
run-Longer t (select projection condition) = Longer-same t.rows

run_all-Longer : (t : Table) (asks : List Ask) → Longer t.rows (run_all t asks).0.rows
unfolding run_all
run_all-Longer t [] = Longer-same t.rows
run_all-Longer t (ask ∷ asks) =
    let (more, e) = run-Longer t ask.command in
    let (rest, h) = run_all-Longer (run t ask.command).0 asks in
    (more ++ rest, h ∙ ap (λ rs. rs ++ rest) e ∙ append_assoc t.rows more rest)

SmallIds-front : (rs more : List Record) → SmallIds (rs ++ more) → SmallIds rs
unfolding SmallIds
SmallIds-front [] more h = tt
SmallIds-front (r ∷ rs) more h = (h.0, SmallIds-front rs more h.1)

Longer-SmallIds :
    (rs : List Record) {rs' : List Record} → Longer rs rs' → SmallIds rs' → SmallIds rs
Longer-SmallIds rs h s = SmallIds-front rs h.0 (subst SmallIds h.1 s)

Generous-Steady : {c : Calls} → Generous c → Steady c
Generous-Steady g = record { nodes = g.nodes; written = g.written }

serve-Life :
    (db : DbEngine) (asks : List Ask)
    → Life db
    → IsSound db
    → AllServed (table_of db) asks
    → SmallIds (run_all (table_of db) asks).0.rows
    → Life (serve db asks).0
unfolding serve run_all AllServed
serve-Life db [] life s h small = life
serve-Life db (ask ∷ asks) life s h small =
    let one = handle_client-Refines db ask s h.0 in
    let db₁ = (handle_client ask.calls db (ok ask.request)).0 in
    let sound = handle_client-IsSound ask.calls h.0.generous.nodes db (ok ask.request) s h.0.next in
    let later : SmallIds (run_all (table_of db₁) asks).0.rows =
      subst (λ t. SmallIds (run_all t asks).0.rows) (sym one.table) small in
    let now : SmallIds db₁.records =
      Longer-SmallIds db₁.records (run_all-Longer (table_of db₁) asks) later in
    serve-Life db₁ asks (request ask.calls (ok ask.request) (Generous-Steady h.0.generous) life now)
      sound (subst (λ t. AllServed t asks) (sym one.table) h.1) later

abbrev pub empty_table : Table
empty_table = record { rows = []; next_id = 1 }

-- A program that starts on an empty file answers a sequence of queries as their commands answer on
-- the empty table, one after the other, if each is the printed form of a command of the language,
-- every call succeeds, and the table then has fewer than 2 ^ 63 rows, a next id below 2147483647
-- and, for a selection, an answer of fewer than 2 ^ 60 bytes. And a restart on the file that they
-- leave, with a path below 512 bytes and every call successful, succeeds with the rows of that
-- table, in their order, if these are at most 2 ^ 63 and every id is below 2147483647.
pub serve-durable :
    (data_path : Bytes) (calls : ℕ → Calls) (asks : List Ask)
    → AllServed empty_table asks
    → length data_path < 512
    → ((n : ℕ) → Plenty (calls n))
    → SmallIds (run_all empty_table asks).0.rows
    → length (run_all empty_table asks).0.rows ≤ 2 ^ 63
    → ((serve (empty_engine []) asks).1 ≡ (run_all empty_table asks).1)
      × (db' : DbEngine) × (db_init data_path true true calls (serve (empty_engine []) asks).0.file
          ≡ some (ok db'))
      × (db'.records ≡ (run_all empty_table asks).0.rows)
      × IsSound db'
serve-durable data_path calls asks h short a small n =
    let s = empty_engine-IsSound [] in
    let same = serve-run_all (empty_engine []) asks s h in
    let life = serve-Life (empty_engine []) asks start s h small in
    let few : length (serve (empty_engine []) asks).0.records ≤ 2 ^ 63 =
      omega (arith, ap (λ t. length t.rows) same.0, n) in
    let (db', e, kept, c) = restart-same data_path calls life short a few in
    (same.1, db', e, kept ∙ ap (λ t. t.rows) same.0, c.sound)
