-- ===== src/Sql/Columns.antt =====
-- `parse_select_columns` collects one to three different columns.
use tryo.Prelude.{
  ℕ, zero, suc, ◌+◌, ◌≤◌, ◌≡◌, refl, Bool, true, false, ◌||◌, not, List, [], ◌∷◌, ◌++◌, arith, ◌==◌,
  Bytes, peek, next, skip_ws, length, length-append, Bool-cases, inl, inr,
}
use tryo.Sql.{SqlColumn, parse_column_name, same_column, column_already_selected, columns_loop}
use tryo.Sql.Ensures.{Ensures, returns, fails, Ensures-bind, Ensures-guard, any_step}

-- no column twice
abbrev pub Distinct : List SqlColumn → Type 0
Distinct [] = Unit
Distinct (c ∷ cs) = (column_already_selected cs c ≡ false) × Distinct cs

column_already_selected-snoc :
    (cs : List SqlColumn) (c d : SqlColumn)
    → column_already_selected (cs ++ c ∷ []) d ≡ (column_already_selected cs d || same_column c d)
unfolding column_already_selected
column_already_selected-snoc [] c d = ground arith
column_already_selected-snoc (x ∷ cs) c d = ground (arith, column_already_selected-snoc cs c d)

pub same_column_sym : (c d : SqlColumn) → same_column c d ≡ same_column d c
same_column_sym c d = ground arith

Distinct-snoc :
    (cs : List SqlColumn) (c : SqlColumn)
    → Distinct cs
    → column_already_selected cs c ≡ false
    → Distinct (cs ++ c ∷ [])
unfolding column_already_selected
Distinct-snoc [] c d h = (refl, tt)
Distinct-snoc (x ∷ cs) c d h = (
  ground (arith, column_already_selected-snoc cs c x, same_column_sym c x),
  Distinct-snoc cs c d.1 (ground arith),
)

-- one to three columns, none twice
abbrev pub GoodColumns : List SqlColumn → Type 0
GoodColumns cs = (1 ≤ length cs) × (length cs ≤ 3) × Distinct cs

not-true : (b : Bool) → not b ≡ true → b ≡ false
not-true b h = ground arith

-- what the loop collects
pub columns_loop-good :
    (left : ℕ) (selected : List SqlColumn) (p : Bytes)
    → length selected + left ≡ 3
    → Distinct selected
    → Ensures (λ r. GoodColumns r.0) (columns_loop left selected p)
unfolding columns_loop
columns_loop-good zero selected p e d = fails _
columns_loop-good (suc left) selected p e d =
    Ensures-bind _ (any_step (parse_column_name p) _) λ r _.
      Ensures-bind _ (Ensures-guard (not (column_already_selected selected r.0)) _) λ _ new.
        let chosen = selected ++ r.0 ∷ [] in
        let size = length-append selected (r.0 ∷ []) in
        let distinct = Distinct-snoc selected r.0 d (not-true _ new) in
        elim (Bool-cases (peek (skip_ws r.1) == b',')) [
          | inl comma ↦
              rw comma
                (columns_loop-good left chosen (next (skip_ws r.1)) (omega (arith, size)) distinct)
          | inr end ↦ rw end (returns _ (omega (arith, size), omega (arith, size), distinct))
        ]
