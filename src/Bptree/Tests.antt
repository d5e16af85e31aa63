-- ===== src/Bptree/Tests.antt =====
-- Runs of the B+ tree, as in tests/test_main.c, and the theorems at concrete trees.
use tryo.Prelude.{
  ℕ, zero, suc, ◌+◌, ◌-◌, ◌*◌, ◌^◌, ◌≤◌, ◌≡◌, refl, Bool, true, false, none, some, List, [], ◌∷◌,
  arith, if◌then◌else◌,
}
use tryo.Bptree.{Entry, leaf, internal, nil, child, BPlusTree, bptree_insert, bptree_search}
use tryo.Bptree.Spec.{is_none}
use tryo.Bptree.Ordered.{IsOrdered, entries}
use tryo.Bptree.Tree.{IsValid, search-insert, size-insert}
use tryo.Bptree.Shape.{IsNode}
use tryo.Bptree.Height.{IsBalanced, bptree_insert-IsBalanced, search_counted, visits_bound}
use tryo.Bptree.Memory.{lost_key_reported}

abbrev plenty : ℕ → Bool
plenty n = true

abbrev no_memory : ℕ → Bool
no_memory n = false

-- the keys k, k + 1, … with their tenfold as values
abbrev run_of : ℕ → ℕ → List Entry
run_of zero k = []
run_of (suc n) k = (k, k * 10) ∷ run_of n (k + 1)

-- `for (int i = k; …; i++) bptree_insert(&tree, i, i * 10)`
fill : ℕ → ℕ → BPlusTree → BPlusTree
unfolding bptree_insert
fill zero k t = t
fill (suc n) k t = fill n (k + 1) (bptree_insert plenty t k (k * 10)).0

abbrev full_leaf : BPlusTree
full_leaf = record { root = some (leaf (run_of 31 1)); size = 31 }

abbrev two_leaves : BPlusTree
two_leaves = record {
  root = some (internal (17 ∷ []) (child (leaf (run_of 16 1)) (child (leaf (run_of 16 17)) nil)));
  size = 32;
}

splits_at_32 : fill 32 1 (record { root = none; size = 0 }) ≡ two_leaves
unfolding fill
splits_at_32 = refl

many_keys :
    let t = fill 600 1 (record { root = none; size = 0 }) in
    (t.size ≡ 600)
    × (bptree_search t 250 ≡ some 2500)
    × (bptree_search t 999 ≡ none)
    × (search_counted t 7 ≡ (some 70, 3))
unfolding fill bptree_search search_counted
many_keys = (refl, refl, refl, refl)

full_leaf-IsValid : IsValid full_leaf
unfolding IsOrdered entries
full_leaf-IsValid = record { ordered = omega arith; counted = refl }

full_leaf-IsBalanced : IsBalanced full_leaf
unfolding IsOrdered IsNode
full_leaf-IsBalanced = record { ordered = omega arith; shaped = (0, omega arith) }

two_leaves-IsValid : IsValid two_leaves
unfolding IsOrdered entries
two_leaves-IsValid = record { ordered = (omega arith, (omega arith, refl)); counted = refl }

two_leaves-IsBalanced : IsBalanced two_leaves
unfolding IsOrdered IsNode
two_leaves-IsBalanced = record {
  ordered = (omega arith, (omega arith, refl));
  shaped = (1, omega arith);
}

search-insert_example :
    let (t', ok) = bptree_insert plenty full_leaf 40 7 in
    (ok ≡ true) × IsValid t' × (bptree_search t' 3 ≡ bptree_search full_leaf 3)
search-insert_example =
    search-insert plenty (λ n. refl) full_leaf 40 7 3 (omega arith) full_leaf-IsValid

size-insert_example :
    (bptree_insert plenty full_leaf 40 7).0.size
    ≡ (if is_none (bptree_search full_leaf 40) then 31 + 1 else 31)
size-insert_example = size-insert plenty (λ n. refl) full_leaf 40 7 (omega arith) full_leaf-IsValid

bptree_insert-IsBalanced_example : IsBalanced (bptree_insert plenty full_leaf 40 7).0
bptree_insert-IsBalanced_example =
    bptree_insert-IsBalanced plenty full_leaf 40 7 (omega arith) full_leaf-IsBalanced

two_visits : (search_counted two_leaves 20).1 ≡ 2
unfolding search_counted
two_visits = refl

visits_bound_example :
    ((search_counted two_leaves 20).0 ≡ bptree_search two_leaves 20)
    × (2 * 16 ^ ((search_counted two_leaves 20).1 - 1) ≤ two_leaves.size)
visits_bound_example =
    visits_bound two_leaves 20 two_leaves-IsValid two_leaves-IsBalanced (omega (arith, two_visits))

full_leaf-lacks : bptree_search full_leaf 40 ≡ none
unfolding bptree_search
full_leaf-lacks = refl

lost_key_reported_example :
    let (t', ok) = bptree_insert no_memory full_leaf 40 7 in
    (ok ≡ true) × (t' ≡ full_leaf) × (bptree_search t' 40 ≡ none)
lost_key_reported_example =
    lost_key_reported no_memory (run_of 31 1) 31 40 7 full_leaf-IsValid refl full_leaf-lacks refl
