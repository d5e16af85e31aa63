-- ===== src/Db/Matching.antt =====
-- The records that a filter of src/db.c is for, as a list and by their positions, and their text.
use tryo.Prelude.{
  ℕ, suc, ◌+◌, ◌≡◌, refl, ap, Bool, true, false, Option, none, some, List, [], ◌∷◌, ◌++◌, arith,
  ◌==◌, if◌then◌else◌, Bytes, codes, get_elem?, Bool-cases, inl, inr, ==_iff, strcmp_eq,
}
use tryo.Db.Rows.{Record, DbProjection}
use tryo.Db.Select.{DbFilterType, filter_all, filter_id, filter_name, DbFilter}
use tryo.Db.Rendered.{record_text, comma}
use tryo.Db.Sound.{position, absent, distinct}

abbrev pub matches : DbFilter → DbFilterType → Record → Bool
matches filter filter_all r = true
matches filter filter_id r = r.id == filter.id
matches filter filter_name r = strcmp_eq r.name filter.name

unfoldable pub matching : DbFilter → DbFilterType → List Record → List Record
matching filter type [] = []
matching filter type (r ∷ rs) =
    let rest = matching filter type rs in if matches filter type r then r ∷ rest else rest

-- the rows with the commas before and between them
unfoldable pub rows_text : DbProjection → List Record → Bool → Bytes
rows_text p [] need_comma = []
rows_text p (r ∷ rs) need_comma = comma need_comma ++ (record_text p r ++ rows_text p rs true)

-- a JSON array of the rows
abbrev pub array_text : DbProjection → List Record → Bytes
array_text p rs = codes "[" ++ (rows_text p rs false ++ codes "]")

pub one_more : (n k : ℕ) → n + suc k ≡ suc n + k
one_more n k = omega arith

-- where the only matching record stands, if there is one
pub data Located (rs : List Record) (i : ℕ) (ms : List Record) : Option ℕ → Type 0 where
  nowhere : ms ≡ [] → Located rs i ms none
  located :
      (j k : ℕ) (r : Record)
      → k ≡ j + i
      → get_elem? rs j ≡ some r
      → ms ≡ r ∷ []
      → Located rs i ms (some k)

pub matching-absent :
    (filter : DbFilter) (rs : List Record)
    → absent filter.id rs ≡ true
    → matching filter filter_id rs ≡ []
unfolding matching absent
matching-absent filter [] h = refl
matching-absent filter (r ∷ rs) h = ground (arith, matching-absent filter rs)

pub position-Located :
    (filter : DbFilter) (rs : List Record) (i : ℕ)
    → distinct rs ≡ true
    → Located rs i (matching filter filter_id rs) (position filter.id rs i)
unfolding matching position distinct
position-Located filter [] i d = nowhere refl
position-Located filter (r ∷ rs) i d = elim (Bool-cases (r.id == filter.id)) [
  | inl same ↦
      (let same_id : r.id ≡ filter.id = (==_iff r.id filter.id).0 same in
        rw same (
          located 0 i r (omega arith) refl
            (ap (λ ms. r ∷ ms) (matching-absent filter rs (rw (← same_id) (ground arith))))))
  | inr other ↦ rw other (further (position-Located filter rs (suc i) (ground arith)))
]
  where
    further :
        {o : Option ℕ}
        → Located rs (suc i) (matching filter filter_id rs) o
        → Located (r ∷ rs) i (matching filter filter_id rs) o
    further (nowhere e) = nowhere e
    further (located j k x q g e) = located (suc j) k x (omega (arith, q)) g e
