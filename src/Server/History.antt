-- ===== src/Server/History.antt =====
-- A sequence of requests to src/server.c against the sequence of their commands on a table.
use tryo.Prelude.{
  ◌+◌, ◌^◌, ◌≤◌, ◌<◌, ◌≡◌, refl, sym, ◌∙◌, ap, ap₂, subst, true, false, List, [], ◌∷◌, codes,
  length, strcmp_eq, strcasecmp_eq,
}
use tryo.Sql.{ok, int_max}
use tryo.Sql.Command.{Command, Plain, print}
use tryo.Db.Engine.{DbEngine, Calls}
use tryo.Db.Sound.{IsSound}
use tryo.Db.Total.{Generous}
use tryo.Http.Request.{HttpRequest, until_nul}
use tryo.Http.Extract.{http_extract_sql}
use tryo.Server.Query.{Response, handle_request, handle_client, sql_max_len}
use tryo.Server.Requests.{handle_client-IsSound}
use tryo.Server.Table.{Table, table_of, run, response_of}
use tryo.Server.Refused.{Refines}
use tryo.Server.Selected.{Fits}
use tryo.Server.Refine.{handle_query-Refines}

-- a request, the command that it is for, and the calls while it is handled
pub record Ask : Type 0 where
  pub calls : Calls
  pub request : HttpRequest
  pub command : Command

-- the requests in their order, and the responses
unfoldable pub serve : DbEngine → List Ask → DbEngine × List Response
unfolding handle_client
serve db [] = (db, [])
serve db (ask ∷ asks) =
    let (db₁, response) = handle_client ask.calls db (ok ask.request) in
    let (db₂, responses) = serve db₁ asks in (db₂, response ∷ responses)

-- their commands on a table, and the responses
unfoldable pub run_all : Table → List Ask → Table × List Response
unfolding run
run_all t [] = (t, [])
run_all t (ask ∷ asks) =
    let (t₁, reply) = run t ask.command in
    let (t₂, responses) = run_all t₁ asks in (t₂, response_of reply ∷ responses)

-- `POST /query` with the text of the command
pub record Asks (request : HttpRequest) (command : Command) : Type 0 where
  pub method : strcasecmp_eq request.method (codes "POST") ≡ true
  pub not_get : strcasecmp_eq request.method (codes "GET") ≡ false
  pub path : strcmp_eq request.path (codes "/query") ≡ true
  pub text : http_extract_sql (until_nul request.body) sql_max_len ≡ ok (print command)

-- what a request needs of the table that it meets
pub record Served (t : Table) (ask : Ask) : Type 0 where
  pub asks : Asks ask.request ask.command
  pub generous : Generous ask.calls
  pub plain : Plain ask.command
  pub fits : Fits t ask.command
  pub room : length t.rows + 1 ≤ 2 ^ 63
  pub next : t.next_id < int_max

unfoldable pub AllServed : Table → List Ask → Type 0
unfolding run
AllServed t [] = Unit
AllServed t (ask ∷ asks) = Served t ask × AllServed (run t ask.command).0 asks

pub handle_client-Refines :
    (db : DbEngine) (ask : Ask)
    → IsSound db
    → Served (table_of db) ask
    → Refines (run (table_of db) ask.command) (handle_client ask.calls db (ok ask.request))
unfolding handle_client handle_request
handle_client-Refines db ask s h =
    rw (h.asks.not_get, h.asks.method, h.asks.path)
      (handle_query-Refines ask.calls db (until_nul ask.request.body) ask.command h.generous s
        h.room h.plain h.fits h.asks.text)

-- On a sound engine, a sequence of queries, each served as `Served` says on the table that the ones
-- before it leave, answers as its commands do on the table of the engine, one after the other, and
-- leaves the records and the next id of that table.
pub serve-run_all :
    (db : DbEngine) (asks : List Ask)
    → IsSound db
    → AllServed (table_of db) asks
    → (table_of (serve db asks).0 ≡ (run_all (table_of db) asks).0)
      × ((serve db asks).1 ≡ (run_all (table_of db) asks).1)
unfolding serve run_all AllServed
serve-run_all db [] s h = (refl, refl)
serve-run_all db (ask ∷ asks) s h =
    let one = handle_client-Refines db ask s h.0 in
    let db₁ = (handle_client ask.calls db (ok ask.request)).0 in
    let sound = handle_client-IsSound ask.calls h.0.generous.nodes db (ok ask.request) s h.0.next in
    let ih = serve-run_all db₁ asks sound (subst (λ t. AllServed t asks) (sym one.table) h.1) in
    (
      ih.0 ∙ ap (λ t. (run_all t asks).0) one.table,
      ap₂ (λ r rs. r ∷ rs) one.response (ih.1 ∙ ap (λ t. (run_all t asks).1) one.table),
    )
