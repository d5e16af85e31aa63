-- ===== src/Server/Restart.antt =====
-- The program over its life: requests that src/server.c handles, and restarts, where `db_init` of
-- src/db.c reads the data file.
use tryo.Prelude.{
  ℕ, ◌^◌, ◌≤◌, ◌<◌, ◌≡◌, refl, sym, ◌∙◌, ap, subst, true, false, ◌&&◌, ◌||◌, some, [], arith, Bytes,
  codes, length, strcmp_eq, strcasecmp_eq, Bool-cases, inl, inr,
}
use mathlib.Core.Option.{some-injective}
use tryo.Db.Reopened.{db_init-file}
use tryo.Sql.{SqlType, sql_insert, sql_select, SqlStatement, Parsed, ok, fail, sql_parse}
use tryo.Sql.Bounds.{WellFormed, sql_parse-WellFormed}
use tryo.Db.Engine.{DbEngine, Calls, DbResult, error, rows, db_insert, db_insert_with_id}
use tryo.Db.Load.{empty_engine, db_init}
use tryo.Db.Reload.{Plenty}
use tryo.Db.Durable.{lines, AllStorable, empty_engine-IsSound, db_init-lines}
use tryo.Db.Steady.{Steady, SmallIds, Consistent, db_insert_internal-Consistent}
use tryo.Http.Request.{HttpRequest, until_nul}
use tryo.Http.Extract.{http_extract_sql}
use tryo.Server.Query.{
  execute_typed, execute_statement, answered, executed, parsed, handle_query, handle_request,
  handle_client, sql_max_len,
}

-- what a request does to the engine: nothing, or what a statement does
data Effect (c : Calls) (db : DbEngine) : DbEngine → Type 0 where
  idle : Effect c db db
  ran :
      (sql : Bytes) (stmt : SqlStatement)
      → sql_parse sql ≡ ok stmt
      → Effect c db (execute_statement c db stmt).0

module _ (c : Calls) where
  answered-engine : (out : DbEngine × DbResult) → out.0 ≡ (answered c out).0
  answered-engine (db, error message) = refl
  answered-engine (db, rows r m u) = refl

  parsed-Effect : (db : DbEngine) (m : Parsed Bytes) → Effect c db (parsed c db m).0
  parsed-Effect db (fail message) = idle
  parsed-Effect db (ok sql) = go (sql_parse sql) refl
    where
      go : (m : Parsed SqlStatement) → sql_parse sql ≡ m → Effect c db (executed c db m).0
      go (fail message) e = idle
      go (ok stmt) e =
          subst (Effect c db) (answered-engine (execute_statement c db stmt)) (ran sql stmt e)

  handle_request-Effect :
      (db : DbEngine) (request : HttpRequest) → Effect c db (handle_request c db request).0
  unfolding handle_request handle_query
  handle_request-Effect db request =
      elim (Bool-cases
        (strcasecmp_eq request.method (codes "GET") && strcmp_eq request.path (codes "/health"))) [
          | inl health ↦ rw health idle
          | inr n₁ ↦
              (elim (Bool-cases (
                strcasecmp_eq request.method (codes "POST")
                && strcmp_eq request.path (codes "/query"))) [
                  | inl query ↦
                      rw (n₁, query)
                        (parsed-Effect db (http_extract_sql (until_nul request.body) sql_max_len))
                  | inr n₂ ↦
                      (elim (Bool-cases (
                        strcmp_eq request.path (codes "/query")
                        || strcmp_eq request.path (codes "/health"))) [
                          | inl method ↦ rw (n₁, n₂, method) idle
                          | inr unknown ↦ rw (n₁, n₂, unknown) idle
                        ])
                ])
        ]

  handle_client-Effect :
      (db : DbEngine) (read : Parsed HttpRequest) → Effect c db (handle_client c db read).0
  unfolding handle_client
  handle_client-Effect db (fail message) = idle
  handle_client-Effect db (ok request) = handle_request-Effect db request

  execute_typed-Consistent :
      (db : DbEngine) (stmt : SqlStatement) (type : SqlType)
      → Steady c
      → WellFormed stmt
      → Consistent db
      → SmallIds (execute_typed c db stmt type).0.records
      → Consistent (execute_typed c db stmt type).0
  unfolding execute_typed db_insert db_insert_with_id
  execute_typed-Consistent db stmt sql_select s w h small = h
  execute_typed-Consistent db stmt sql_insert s w h small = elim (Bool-cases stmt.insert_has_id) [
    | inl given ↦ rw given (
        db_insert_internal-Consistent c db true stmt.insert_id stmt.insert_name stmt.insert_age s h
          w.fits.id_fits w.fits.name_fits w.fits.age_fits (rw given at small))
    | inr automatic ↦ rw automatic (
        db_insert_internal-Consistent c db false 0 stmt.insert_name stmt.insert_age s h
          (omega arith) w.fits.name_fits w.fits.age_fits (rw automatic at small))
  ]

  Effect-Consistent :
      {db db' : DbEngine}
      → Steady c
      → Effect c db db'
      → Consistent db
      → SmallIds db'.records
      → Consistent db'
  unfolding execute_statement
  Effect-Consistent s idle h small = h
  Effect-Consistent {db} s (ran sql stmt e) h small =
      execute_typed-Consistent db stmt stmt.type s (sql_parse-WellFormed sql e) h small

ok-injective : {a b : DbEngine} → ◌≡◌ {A = Parsed DbEngine} (ok a) (ok b) → a ≡ b
ok-injective h = cc h

-- The engines that the program can come to: it starts on an empty file, it handles a request,
-- whatever it is, and it is restarted on the data file.
pub data Life : DbEngine → Type 0 where
  start : Life (empty_engine [])
  request :
      (c : Calls) (read : Parsed HttpRequest) {db : DbEngine}
      → Steady c
      → Life db
      → SmallIds (handle_client c db read).0.records
      → Life (handle_client c db read).0
  restart :
      (data_path : Bytes) (calls : ℕ → Calls) {db db' : DbEngine}
      → Life db
      → length data_path < 512
      → ((n : ℕ) → Plenty (calls n))
      → length db.records ≤ 2 ^ 63
      → db_init data_path true true calls db.file ≡ some (ok db')
      → Life db'

-- what `db_init` makes of the file of a consistent engine
reopened :
    (data_path : Bytes) (calls : ℕ → Calls) (db : DbEngine)
    → Consistent db
    → length data_path < 512
    → ((n : ℕ) → Plenty (calls n))
    → length db.records ≤ 2 ^ 63
    → (db' : DbEngine) × (db_init data_path true true calls db.file ≡ some (ok db'))
      × (db'.records ≡ db.records)
      × Consistent db'
reopened data_path calls db h short a n =
    let (db', e, same, sound) =
      db_init-lines data_path calls db.records short a h.storable h.sound.different n in
    let read : db_init data_path true true calls db.file ≡ some (ok db') = rw h.same_file e in
    (
      db',
      read,
      same,
      record {
        sound = sound;
        same_file = db_init-file data_path calls db.file read ∙ h.same_file ∙ ap lines (sym same);
        storable = rw same h.storable;
      },
    )

Life-Consistent : {db : DbEngine} → Life db → Consistent db
unfolding lines AllStorable
Life-Consistent start = record { sound = empty_engine-IsSound []; same_file = refl; storable = tt }
Life-Consistent (request c read s life small) =
    Effect-Consistent c s (handle_client-Effect c _ read) (Life-Consistent life) small
Life-Consistent (restart data_path calls {db} life short a n e) =
    let (db₁, e₁, same, h) = reopened data_path calls db (Life-Consistent life) short a n in
    subst Consistent (ok-injective (some-injective _ _ (sym e₁ ∙ e))) h

-- Whatever requests the program has handled since it started on an empty file, refused and failed
-- ones included, and whatever restarts it has had: if memory for the index was there, the lines
-- were written whole where the file opened, every id is below 2147483647 and there are at most 2 ^
-- 63 records, a restart with a path below 512 bytes and every call successful succeeds, and the
-- engine has the same records as before, is sound, and its file still holds their lines.
pub restart-same :
    (data_path : Bytes) (calls : ℕ → Calls) {db : DbEngine}
    → Life db
    → length data_path < 512
    → ((n : ℕ) → Plenty (calls n))
    → length db.records ≤ 2 ^ 63
    → (db' : DbEngine) × (db_init data_path true true calls db.file ≡ some (ok db'))
      × (db'.records ≡ db.records)
      × Consistent db'
restart-same data_path calls {db} life short a n =
    reopened data_path calls db (Life-Consistent life) short a n
