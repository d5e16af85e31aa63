-- ===== src/Db/Visible.antt =====
-- What a selection finds after an insertion.
use tryo.Prelude.{ℕ, ◌≡◌, refl, sym, ◌∙◌, Bool, false, List, [], ◌∷◌, ◌++◌, arith, Bytes}
use tryo.Sql.{int_max}
use tryo.Db.Rows.{Record}
use tryo.Db.Engine.{DbEngine, Calls, rows, db_insert}
use tryo.Db.Sound.{absent, distinct}
use tryo.Db.Insert.{new_record, next_free, db_insert_internal-Stored}

next_id-stays :
    (db : DbEngine) (r : Record)
    → db.next_id ≡ int_max
    → r.id ≡ int_max
    → next_free db.next_id r.id ≡ int_max
next_id-stays db r e f = rw (e, f) refl

distinct-twice :
    (rs : List Record) (r r' : Record) → r.id ≡ r'.id → distinct ((rs ++ r ∷ []) ++ r' ∷ []) ≡ false
unfolding distinct absent
distinct-twice [] r r' e = ground arith
distinct-twice (x ∷ rs) r r' e = ground (arith, distinct-twice rs r r' e)

-- Once the next id is 2147483647, it is not advanced any more: two insertions in a row without an
-- id, neither answered by an error, leave two records of the same id.
pub auto_id_repeats :
    (c c' : Calls) (db : DbEngine) (name name' : Bytes) (age age' : ℕ) {db₁ db₂ : DbEngine}
    {out message out' message' : Bytes} {used used' : Bool}
    → db.next_id ≡ int_max
    → db_insert c db name age ≡ (db₁, rows out message used)
    → db_insert c' db₁ name' age' ≡ (db₂, rows out' message' used')
    → distinct db₂.records ≡ false
unfolding db_insert
auto_id_repeats c c' db name name' age age' {db₁} {db₂} e h k =
    let s₁ = (db_insert_internal-Stored c db false 0 name age h).1 in
    let s₂ = (db_insert_internal-Stored c' db₁ false 0 name' age' k).1 in
    let one : db₁.next_id ≡ int_max =
      s₁.next_id ∙ next_id-stays db (new_record db false 0 name age) e e in
    rw (s₂.records, s₁.records) (distinct-twice db.records _ _ (e ∙ sym one))
