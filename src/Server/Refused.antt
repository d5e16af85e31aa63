-- ===== src/Server/Refused.antt =====
-- The answers of src/server.c on errors against those on a table.
use Prim.Native.String.{String}
use tryo.Prelude.{
  ℕ, ◌+◌, ◌^◌, ◌≤◌, ◌<◌, ◌≡◌, refl, ap, Bool, [], ◌∷◌, ◌++◌, arith, codes, length, length-append,
}
use tryo.Util.Escape.{escape, length-escape}
use tryo.Util.Builder.{JsonBuilder, IsValid, json_builder_init}
use tryo.Util.Room.{Roomy}
use tryo.Db.Engine.{DbEngine, Calls, error}
use tryo.Db.Rendered.{Adds-bind, Adds-append, Adds-string}
use tryo.Db.Total.{Adds-total}
use tryo.Server.Query.{Response, make_error_body, send_error_response, answered}
use tryo.Server.Table.{Table, table_of, Reply, refusal, response_of}

-- the engine and its answer are those of the table
pub record Refines (t : Table × Reply) (out : DbEngine × Response) : Type 0 where
  pub table : table_of out.0 ≡ t.0
  pub response : out.1 ≡ response_of t.1

-- an error is answered by its message
send_error_response-text :
    (malloc : ℕ → Bool) (message : String)
    → Roomy malloc
    → length (codes message) ≤ 100
    → send_error_response malloc 500 message ≡ response_of (refusal message)
unfolding send_error_response make_error_body json_builder_init
send_error_response-text malloc message m n =
    let b₀ : JsonBuilder = record { text = []; cap = 256 } in
    let v : IsValid b₀ = omega arith in
    let quoted = b'"' ∷ (escape (codes message) ++ b'"' ∷ []) in
    let small : length {A = ℕ} [] + length (codes "{\"error\":" ++ (quoted ++ codes "}")) + 2
        < 2 ^ 60 =
      omega (
        arith,
        length-append quoted (codes "}"),
        length-append (escape (codes message)) (b'"' ∷ []),
        length-escape (codes message),
        n,
      ) in
    let (b, e, same) = Adds-total malloc {b = b₀} m small (
      Adds-bind malloc _ (Adds-append malloc b₀ (codes "{\"error\":") v) λ b₁ w.
        Adds-bind malloc _ (Adds-string malloc b₁ (codes message) w)
          λ b₂ x. Adds-append malloc b₂ (codes "}") x) in
    rw (m 256, e) (ap (λ body. record { status = 500; body = body }) same)

pub refused_insert :
    (c : Calls) (db : DbEngine) (message : String)
    → Roomy c.malloc
    → length (codes message) ≤ 100
    → Refines (table_of db, refusal message) (answered c (db, error message))
refused_insert c db message m n = record {
  table = refl;
  response = send_error_response-text c.malloc message m n;
}
