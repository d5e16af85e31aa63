-- ===== src/Bptree/Leaf.antt =====
-- `leaf_find_position` and the writes of `leaf_insert`, against the sorted list of entries.
use tryo.Prelude.{
  ℕ, zero, suc, ◌≢◌, ◌<◌, ◌≡◌, refl, true, false, none, List, [], ◌∷◌, arith, length, set,
  insert_at, take, drop,
}
use tryo.Bptree.{Entry, leaf_find_position, key_at, first_key, leaf_search}
use tryo.Bptree.Spec.{insert, lookup, Sorted, lookup-out_of_range_low}

module _ (key value : ℕ) where
  pub set-eq-insert :
      (lo hi : ℕ) (es : List Entry)
      → Sorted lo hi es
      → key_at es (leaf_find_position es key) key ≡ true
      → set es (leaf_find_position es key) (key, value) ≡ insert key value es
  unfolding insert leaf_find_position key_at
  set-eq-insert lo hi [] s h = cc
  set-eq-insert lo hi ((k, v) ∷ es) s h = ground (arith, set-eq-insert (suc k) hi es s.1)

  pub insert_at-eq-insert :
      (lo hi : ℕ) (es : List Entry)
      → Sorted lo hi es
      → key_at es (leaf_find_position es key) key ≡ false
      → insert_at (leaf_find_position es key) (key, value) es ≡ insert key value es
  unfolding insert leaf_find_position key_at
  insert_at-eq-insert lo hi [] s h = refl
  insert_at-eq-insert lo hi ((k, v) ∷ es) s h =
      ground (arith, insert_at-eq-insert (suc k) hi es s.1)

-- the test of `leaf_insert` tells whether the leaf holds the key
pub key_at-lookup-none :
    (key lo hi : ℕ) (es : List Entry)
    → Sorted lo hi es
    → key_at es (leaf_find_position es key) key ≡ false
    → lookup key es ≡ none
unfolding lookup leaf_find_position key_at
key_at-lookup-none key lo hi [] s h = refl
key_at-lookup-none key lo hi ((k, v) ∷ es) s h =
    ground
      (arith, key_at-lookup-none key (suc k) hi es s.1, lookup-out_of_range_low key (suc k) hi es)

pub key_at-lookup-some :
    (key lo hi : ℕ) (es : List Entry)
    → Sorted lo hi es
    → key_at es (leaf_find_position es key) key ≡ true
    → lookup key es ≢ none
unfolding lookup leaf_find_position key_at
key_at-lookup-some key lo hi [] s h = cc
key_at-lookup-some key lo hi ((k, v) ∷ es) s h =
    ground (arith, key_at-lookup-some key (suc k) hi es s.1)

pub leaf_search-eq-lookup :
    (key lo hi : ℕ) (es : List Entry) → Sorted lo hi es → leaf_search es key ≡ lookup key es
unfolding lookup leaf_search
leaf_search-eq-lookup key lo hi [] s = refl
leaf_search-eq-lookup key lo hi ((k, v) ∷ es) s =
    ground (
      arith,
      leaf_search-eq-lookup key (suc k) hi es s.1,
      lookup-out_of_range_low key (suc k) hi es,
    )

-- cutting a sorted list at a position inside it: the first key behind the cut parts the keys
pub Sorted-cut :
    (n lo hi : ℕ) (es : List Entry)
    → n < length es
    → Sorted lo hi es
    → Sorted lo (first_key (drop n es)) (take n es) × Sorted (first_key (drop n es)) hi (drop n es)
unfolding first_key
Sorted-cut n lo hi [] p s = absurd (omega arith)
Sorted-cut zero lo hi ((k, v) ∷ es) p s = (s.0, (omega arith, s.1))
Sorted-cut (suc n) lo hi ((k, v) ∷ es) p s =
    let (l, r) = Sorted-cut n (suc k) hi es (omega arith) s.1 in ((s.0, l), r)
