-- ===== src/Sql/PrintedColumns.antt =====
-- The columns loop of src/sql.c on a printed list of columns.
use tryo.Prelude.{
  append_assoc, peek, skip_ws, ◌==◌, ℕ, zero, suc, List, length, ◌≤◌, ◌≡◌, refl, ◌∙◌, ap, false,
  some, [], ◌∷◌, ◌++◌, Bytes, codes, arith,
}
use tryo.Sql.{
  ok, SqlColumn, column_id, column_name, column_age, same_column, column_already_selected,
  parse_column_name, columns_loop,
}
use tryo.Sql.Columns.{Distinct, same_column_sym}
use tryo.Sql.Command.{columns_text, column_text}

column_already_selected-middle :
    (selected cs : List SqlColumn) (c x : SqlColumn)
    → column_already_selected (selected ++ c ∷ cs) x ≡ false
    → same_column x c ≡ false
unfolding column_already_selected
column_already_selected-middle [] cs c x h = ground (arith, same_column_sym c x)
column_already_selected-middle (y ∷ selected) cs c x h =
    ground (arith, column_already_selected-middle selected cs c x)

new_column :
    (selected cs : List SqlColumn) (c : SqlColumn)
    → Distinct (selected ++ c ∷ cs)
    → column_already_selected selected c ≡ false
unfolding column_already_selected
new_column [] cs c d = refl
new_column (x ∷ selected) cs c d =
    ground (arith, new_column selected cs c d.1, column_already_selected-middle selected cs c x)

-- a column in front of a space or a comma
column_read :
    (c : SqlColumn) (rest : Bytes)
    → (parse_column_name (column_text c ++ 32 ∷ rest) ≡ some (c, 32 ∷ rest))
      × (parse_column_name (column_text c ++ b',' ∷ rest) ≡ some (c, b',' ∷ rest))
unfolding parse_column_name
column_read column_id rest = (refl, refl)
column_read column_name rest = (refl, refl)
column_read column_age rest = (refl, refl)

pub columns_loop-space :
    (left : ℕ) (selected : List SqlColumn) (s : Bytes)
    → columns_loop left selected (32 ∷ s) ≡ columns_loop left selected s
unfolding columns_loop parse_column_name
columns_loop-space zero selected s = refl
columns_loop-space (suc left) selected s = refl

-- the loop takes the printed columns behind those that are selected
pub columns_loop-text :
    (cs : List SqlColumn) (left : ℕ) (selected : List SqlColumn) (rest : Bytes)
    → length cs ≤ left
    → 1 ≤ length cs
    → Distinct (selected ++ cs)
    → columns_loop left selected (columns_text cs (codes " FROM" ++ rest))
      ≡ ok (selected ++ cs, codes " FROM" ++ rest)
unfolding columns_loop columns_text
columns_loop-text [] left selected rest l p d = absurd (omega arith)
columns_loop-text (c ∷ cs) zero selected rest l p d = absurd (omega arith)
columns_loop-text (c ∷ []) (suc left) selected rest l p d =
    rw ((column_read c (codes "FROM" ++ rest)).0, new_column selected [] c d) refl
columns_loop-text (c ∷ e ∷ cs) (suc left) selected rest l p d =
    let others = columns_text (e ∷ cs) (codes " FROM" ++ rest) in
    let assoc : (selected ++ c ∷ []) ++ e ∷ cs ≡ selected ++ c ∷ e ∷ cs =
      append_assoc selected (c ∷ []) (e ∷ cs) in
    let ih =
      columns_loop-text (e ∷ cs) left (selected ++ c ∷ []) rest (omega arith) (omega arith)
        (rw assoc d) in
    rw ((column_read c (32 ∷ others)).1, new_column selected (e ∷ cs) c d)
      (columns_loop-space left (selected ++ c ∷ []) others
        ∙ ih
        ∙ ap (λ l. ok (l, codes " FROM" ++ rest)) assoc)

pub not_star :
    (cs : List SqlColumn) (rest : Bytes)
    → 1 ≤ length cs
    → (peek (skip_ws (32 ∷ columns_text cs rest)) == b'*') ≡ false
unfolding columns_text skip_ws
not_star [] rest h = absurd (omega arith)
not_star (column_id ∷ []) rest h = refl
not_star (column_name ∷ []) rest h = refl
not_star (column_age ∷ []) rest h = refl
not_star (column_id ∷ e ∷ cs) rest h = refl
not_star (column_name ∷ e ∷ cs) rest h = refl
not_star (column_age ∷ e ∷ cs) rest h = refl
