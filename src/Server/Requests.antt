-- ===== src/Server/Requests.antt =====
-- What a request does to the engine.
use tryo.Prelude.{
  ℕ, ◌<◌, ◌≡◌, ◌≢◌, refl, sym, ◌∙◌, ap, true, false, ◌&&◌, ◌||◌, Option, none, some, arith, Bytes,
  codes, strcmp_eq, strcasecmp_eq, Bool-cases, inl, inr,
}
use tryo.Sql.{int_max, SqlType, sql_insert, sql_select, SqlStatement, Parsed, ok, fail, sql_parse}
use tryo.Sql.Bounds.{WellFormed, sql_parse-WellFormed}
use tryo.Util.Builder.{JsonBuilder}
use tryo.Db.Engine.{DbEngine, Calls, DbResult, error, rows, db_insert, db_insert_with_id}
use tryo.Db.Sound.{IsSound, db_insert_internal-IsSound}
use tryo.Http.Request.{HttpRequest, until_nul}
use tryo.Http.Extract.{http_extract_sql}
use tryo.Server.Query.{
  execute_typed, execute_statement, Response, error_response, make_error_body, send_error_response,
  answered, executed, parsed, handle_query, handle_request, handle_client, sql_max_len,
}

module _ (c : Calls) (enough : (n : ℕ) → c.calloc_ok n ≡ true) where
  execute_typed-IsSound :
      (db : DbEngine) (stmt : SqlStatement) (type : SqlType)
      → WellFormed stmt
      → IsSound db
      → db.next_id < int_max
      → IsSound (execute_typed c db stmt type).0
  unfolding execute_typed db_insert db_insert_with_id
  execute_typed-IsSound db stmt sql_select w s h = s
  execute_typed-IsSound db stmt sql_insert w s h = elim (Bool-cases stmt.insert_has_id) [
    | inl given ↦ rw given (
        db_insert_internal-IsSound c db true stmt.insert_id stmt.insert_name stmt.insert_age enough
          s w.fits.id_fits (inl refl))
    | inr automatic ↦ rw automatic (
        db_insert_internal-IsSound c db false 0 stmt.insert_name stmt.insert_age enough s
          (omega arith) (inr h))
  ]

  answered-IsSound : (out : DbEngine × DbResult) → IsSound out.0 → IsSound (answered c out).0
  answered-IsSound (db, error message) s = s
  answered-IsSound (db, rows r m u) s = s

  executed-IsSound :
      (db : DbEngine) (m : Parsed SqlStatement)
      → ((stmt : SqlStatement) → m ≡ ok stmt → WellFormed stmt)
      → IsSound db
      → db.next_id < int_max
      → IsSound (executed c db m).0
  unfolding execute_statement
  executed-IsSound db (fail message) w s h = s
  executed-IsSound db (ok stmt) w s h =
      answered-IsSound (execute_statement c db stmt)
        (execute_typed-IsSound db stmt stmt.type (w stmt refl) s h)

  parsed-IsSound :
      (db : DbEngine) (m : Parsed Bytes)
      → IsSound db
      → db.next_id < int_max
      → IsSound (parsed c db m).0
  parsed-IsSound db (fail message) s h = s
  parsed-IsSound db (ok sql) s h =
      executed-IsSound db (sql_parse sql) (λ stmt e. sql_parse-WellFormed sql e) s h

  handle_request-IsSound :
      (db : DbEngine) (request : HttpRequest)
      → IsSound db
      → db.next_id < int_max
      → IsSound (handle_request c db request).0
  unfolding handle_request handle_query
  handle_request-IsSound db request s h =
      elim (Bool-cases
        (strcasecmp_eq request.method (codes "GET") && strcmp_eq request.path (codes "/health"))) [
          | inl health ↦ rw health s
          | inr n₁ ↦
              (elim (Bool-cases (
                strcasecmp_eq request.method (codes "POST")
                && strcmp_eq request.path (codes "/query"))) [
                  | inl query ↦
                      rw (n₁, query)
                        (parsed-IsSound db (http_extract_sql (until_nul request.body) sql_max_len) s
                          h)
                  | inr n₂ ↦
                      (elim (Bool-cases (
                        strcmp_eq request.path (codes "/query")
                        || strcmp_eq request.path (codes "/health"))) [
                          | inl method ↦ rw (n₁, n₂, method) s
                          | inr unknown ↦ rw (n₁, n₂, unknown) s
                        ])
                ])
        ]

  -- Whatever a client sends, and whether it is read as a request or not: with memory for the index
  -- and the next id below 2147483647, a sound engine stays sound.
  pub handle_client-IsSound :
      (db : DbEngine) (read : Parsed HttpRequest)
      → IsSound db
      → db.next_id < int_max
      → IsSound (handle_client c db read).0
  unfolding handle_client
  handle_client-IsSound db (fail message) s h = s
  handle_client-IsSound db (ok request) s h = handle_request-IsSound db request s h

-- the answer 200 or 500, or the engine as it was
data Outcome (db : DbEngine) (out : DbEngine × Response) : Type 0 where
  unchanged : out.0 ≡ db → Outcome db out
  success : out.1.status ≡ 200 → Outcome db out
  failure : out.1.status ≡ 500 → Outcome db out

error_response-500 : (o : Option JsonBuilder) → (error_response 500 o).status ≡ 500
error_response-500 none = refl
error_response-500 (some b) = refl

module _ (c : Calls) where
  answered-Outcome : (db : DbEngine) (out : DbEngine × DbResult) → Outcome db (answered c out)
  unfolding send_error_response
  answered-Outcome db (db', error message) =
      failure (error_response-500 (make_error_body c.malloc (codes message)))
  answered-Outcome db (db', rows r m u) = success refl

  executed-Outcome : (db : DbEngine) (m : Parsed SqlStatement) → Outcome db (executed c db m)
  executed-Outcome db (fail message) = unchanged refl
  executed-Outcome db (ok stmt) = answered-Outcome db (execute_statement c db stmt)

  parsed-Outcome : (db : DbEngine) (m : Parsed Bytes) → Outcome db (parsed c db m)
  parsed-Outcome db (fail message) = unchanged refl
  parsed-Outcome db (ok sql) = executed-Outcome db (sql_parse sql)

  handle_request-Outcome :
      (db : DbEngine) (request : HttpRequest) → Outcome db (handle_request c db request)
  unfolding handle_request handle_query
  handle_request-Outcome db request =
      elim (Bool-cases
        (strcasecmp_eq request.method (codes "GET") && strcmp_eq request.path (codes "/health"))) [
          | inl health ↦ rw health (unchanged refl)
          | inr n₁ ↦
              (elim (Bool-cases (
                strcasecmp_eq request.method (codes "POST")
                && strcmp_eq request.path (codes "/query"))) [
                  | inl query ↦
                      rw (n₁, query)
                        (parsed-Outcome db (http_extract_sql (until_nul request.body) sql_max_len))
                  | inr n₂ ↦
                      (elim (Bool-cases (
                        strcmp_eq request.path (codes "/query")
                        || strcmp_eq request.path (codes "/health"))) [
                          | inl method ↦ rw (n₁, n₂, method) (unchanged refl)
                          | inr unknown ↦ rw (n₁, n₂, unknown) (unchanged refl)
                        ])
                ])
        ]

  handle_client-Outcome :
      (db : DbEngine) (read : Parsed HttpRequest) → Outcome db (handle_client c db read)
  unfolding handle_client
  handle_client-Outcome db (fail message) = unchanged refl
  handle_client-Outcome db (ok request) = handle_request-Outcome db request

  -- A request that is answered by a status other than 200 and 500 has changed neither the records nor
  -- the data file nor anything else of the engine.
  pub refused_unchanged :
      (db : DbEngine) (read : Parsed HttpRequest) {db' : DbEngine} {response : Response}
      → handle_client c db read ≡ (db', response)
      → response.status ≢ 200
      → response.status ≢ 500
      → db' ≡ db
  refused_unchanged db read {db'} {response} e n m =
      kept (handle_client c db read) e (handle_client-Outcome db read)
    where
      kept : (out : DbEngine × Response) → out ≡ (db', response) → Outcome db out → db' ≡ db
      kept out e (unchanged h) = cc
      kept out e (success h) = absurd (n (sym (ap (λ x. x.1.status) e) ∙ h))
      kept out e (failure h) = absurd (m (sym (ap (λ x. x.1.status) e) ∙ h))
