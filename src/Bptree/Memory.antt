-- ===== src/Bptree/Memory.antt =====
-- What `bptree_insert` does when there is no memory for a new node.
use tryo.Prelude.{
  ℕ, ◌≡◌, refl, Bool, true, false, none, some, List, length, Bool-cases, inl, inr, ◌∙◌, sym,
}
use tryo.Bptree.{Entry, leaf, leaf_find_position, key_at, bptree_insert, bptree_search}
use tryo.Bptree.Leaf.{key_at-lookup-some}
use tryo.Bptree.Ordered.{IsOrdered, entries}
use tryo.Bptree.Tree.{IsValid, key_limit, bptree_search-eq-lookup}

module _ (alloc : ℕ → Bool) where
  -- A valid tree of one full leaf that lacks the key: if the `calloc` for the right half of the leaf
  -- fails, `bptree_insert` reports success, changes nothing, and a search does not find the key.
  pub lost_key_reported :
      (es : List Entry) (size key value : ℕ)
      → IsValid (record { root = some (leaf es); size = size })
      → length es ≡ 31
      → bptree_search (record { root = some (leaf es); size = size }) key ≡ none
      → alloc 0 ≡ false
      → let (t', ok) =
          bptree_insert alloc (record { root = some (leaf es); size = size }) key value in
        (ok ≡ true)
        × (t' ≡ record { root = some (leaf es); size = size })
        × (bptree_search t' key ≡ none)
  unfolding bptree_insert
  lost_key_reported es size key value v full gone oom =
      elim (Bool-cases (key_at es (leaf_find_position es key) key)) [
        | inl old ↦ absurd (
            key_at-lookup-some key 0 key_limit es (unfold IsOrdered in v.ordered) old
              (unfold entries in (sym (bptree_search-eq-lookup _ key v) ∙ gone)))
        | inr new ↦ rw new (rw full (rw oom (refl, refl, gone)))
      ]
