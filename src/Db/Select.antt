-- ===== src/Db/Select.antt =====
-- `db_select_projected` of src/db.c. A step that can fail gives its result or the message of the
-- error.
use tryo.Prelude.{
  ℕ, suc, Bool, true, false, ◌&&◌, not, Option, none, some, List, [], ◌∷◌, ◌++◌, if◌then◌else◌,
  Bytes, codes, get_elem?, strcmp_eq,
}
use tryo.Prelude.Decimal.{decimal}
use tryo.Bptree.{bptree_search}
use tryo.Sql.{Parsed, ok, fail, ◌>>=◌, ◌or_fail◌}
use tryo.Util.Builder.{JsonBuilder, json_builder_init, json_builder_append}
use tryo.Db.Rows.{
  Record, DbColumn, DbProjection, all_columns_projection, append_json_separator, append_record_json,
}
use tryo.Db.Engine.{DbEngine, Calls, DbResult, error, rows}

pub data DbFilterType : Type 0 where
  filter_all filter_id filter_name : DbFilterType

pub record DbFilter : Type 0 where
  pub type : DbFilterType
  pub id : ℕ
  pub name : Bytes

-- `include`; a filter for an id does not come to the loop
unfoldable pub included : DbFilter → DbFilterType → Record → Bool
unfolding strcmp_eq
included filter filter_all r = true
included filter filter_name r = strcmp_eq r.name filter.name
included filter filter_id r = false

-- the projection without columns is the one of all columns
unfoldable pub normalized : DbProjection → List DbColumn → DbProjection
normalized p (c ∷ cs) = p
normalized p [] =
    if not p.include_id && not p.include_name && not p.include_age
    then all_columns_projection
    else p

module _ (malloc : ℕ → Bool) where
  -- the loop over the records, which counts in `matched`
  unfoldable pub scan_loop :
      JsonBuilder → List Record → DbFilter → DbProjection → Bool → ℕ → Parsed (JsonBuilder × ℕ)
  unfolding included append_record_json
  scan_loop b [] filter p need_comma matched = ok (b, matched)
  scan_loop b (r ∷ records) filter p need_comma matched =
      let skipped = scan_loop b records filter p need_comma matched in
      let taken = (do
        b₁ ←
            append_json_separator malloc b need_comma or_fail "failed to serialize select separator"
        b₂ ← append_record_json malloc b₁ r p or_fail "failed to serialize select row"
        scan_loop b₂ records filter p true (suc matched)) in
      if included filter filter.type r then taken else skipped

  -- the record at the index that the search returned, if `record_index < db->count`
  abbrev pub row_at : JsonBuilder → DbProjection → Option Record → Parsed (JsonBuilder × ℕ)
  row_at b p none = ok (b, 0)
  row_at b p (some r) = do
    b₁ ← append_record_json malloc b r p or_fail "failed to serialize indexed row"
    ok (b₁, 1)

  abbrev pub row_found : JsonBuilder → DbEngine → DbProjection → Option ℕ → Parsed (JsonBuilder × ℕ)
  row_found b db p none = ok (b, 0)
  row_found b db p (some record_index) = row_at b p (get_elem? db.records record_index)

  unfoldable pub matching_rows :
      JsonBuilder → DbEngine → DbFilter → DbFilterType → DbProjection → Parsed (JsonBuilder × ℕ)
  unfolding bptree_search scan_loop append_record_json
  matching_rows b db filter filter_id p = row_found b db p (bptree_search db.index filter.id)
  matching_rows b db filter filter_all p = scan_loop b db.records filter p false 0
  matching_rows b db filter filter_name p = scan_loop b db.records filter p false 0

  unfoldable pub select_rows : DbEngine → DbFilter → DbProjection → Parsed (JsonBuilder × ℕ)
  unfolding json_builder_init matching_rows
  select_rows db filter p = do
    b ← json_builder_init malloc or_fail "failed to serialize select result"
    b₁ ← json_builder_append malloc b (codes "[") or_fail "failed to serialize select result"
    (b₂, matched) ← matching_rows b₁ db filter filter.type p
    b₃ ← json_builder_append malloc b₂ (codes "]") or_fail "failed to finalize select result"
    ok (b₃, matched)

abbrev pub uses_index : DbFilterType → Bool
uses_index filter_id = true
uses_index filter_all = false
uses_index filter_name = false

abbrev pub select_result : DbFilterType → Parsed (JsonBuilder × ℕ) → DbResult
select_result type (fail message) = error message
select_result type (ok (b, matched)) =
    rows b.text (codes "selected " ++ decimal matched ++ codes " row(s)") (uses_index type)

unfoldable pub db_select_projected : Calls → DbEngine → DbFilter → DbProjection → DbResult
unfolding select_rows normalized
db_select_projected c db filter p =
    if not c.lock_ok
    then error "failed to acquire read lock"
    else select_result filter.type (select_rows c.malloc db filter (normalized p p.columns))

unfoldable pub db_select : Calls → DbEngine → DbFilter → DbResult
unfolding db_select_projected
db_select c db filter = db_select_projected c db filter all_columns_projection
