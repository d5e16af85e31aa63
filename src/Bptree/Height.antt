-- ===== src/Bptree/Height.antt =====
-- The height of a whole tree, and the number of nodes that a search visits.
use tryo.Prelude.{
  ◌∙◌, ℕ, zero, suc, ◌-◌, ◌*◌, ◌^◌, ◌≤◌, ◌<◌, ◌≡◌, refl, ap, inl, inr, Bool, Option, none, some,
  List, [], ◌∷◌, arith, length, leb, Bool-cases,
}
use tryo.Bptree.{
  BpNode, leaf, internal, Children, nil, child, BPlusTree, Split, unsplit, promoted, InsertResult,
  child_index_for_key, leaf_search, node_search, child_search, bptree_search, grow_root,
  insert_into_root, bptree_insert, node_insert,
}
use tryo.Bptree.Ordered.{entries, IsOrdered, AreOrdered}
use tryo.Bptree.Keeps.{Halves, Halves-node, node_insert-Halves}
use tryo.Bptree.Tree.{RootIsOrdered, contents, IsValid, key_limit}
use tryo.Bptree.Shape.{IsNode, AreNodes, HalvesAreNodes, node_insert-shape, length-child_entries}

-- the root may hold less than other nodes
abbrev pub RootIsShaped : Option BpNode → Type 0
RootIsShaped none = Unit
RootIsShaped (some node) = (h : ℕ) × IsNode node 0 1 h

pub record IsBalanced (t : BPlusTree) : Type 0 where
  pub ordered : RootIsOrdered t.root
  pub shaped : RootIsShaped t.root

IsNode-relax : (node : BpNode) (h : ℕ) → IsNode node 16 15 h → IsNode node 0 1 h
unfolding IsNode
IsNode-relax (leaf es) h s = (s.0, omega arith, s.2)
IsNode-relax (internal ks cs) zero s = s
IsNode-relax (internal ks cs) (suc h) s = (omega arith, s.1, s.2)

module _ (alloc : ℕ → Bool) where
  grow_root-IsBalanced :
      (size h : ℕ) (s : Split) (r : InsertResult)
      → Halves r.node s 0 key_limit
      → HalvesAreNodes r.node s 0 1 h
      → Halves r.node unsplit 0 key_limit
      → IsBalanced (grow_root alloc size s r).0
  unfolding grow_root
  grow_root-IsBalanced size h unsplit r o s k = record { ordered = o; shaped = (h, s) }
  grow_root-IsBalanced size h (promoted p right) r o s k = elim (Bool-cases (alloc r.allocated)) [
    | inl ok ↦ rw ok (record {
      ordered = unfold IsOrdered in (o.0, (o.1, refl));
      shaped = (suc h, unfold IsNode in (omega arith, omega arith, (s.0, (s.1, tt))));
    })
    | inr oom ↦ rw oom (record { ordered = k; shaped = (h, IsNode-relax r.node h s.0) })
  ]

  root_step :
      (node : BpNode) (size key value n h : ℕ)
      → key < key_limit
      → IsOrdered node 0 key_limit
      → IsNode node 0 1 h
      → IsBalanced (insert_into_root alloc size (node_insert alloc node key value n)).0
  unfolding insert_into_root
  root_step node size key value n h p o s =
      let r = node_insert alloc node key value n in
      let halves = node_insert-Halves alloc node key value n 0 key_limit (omega arith) p o in
      grow_root-IsBalanced size h r.split r halves
        (node_insert-shape alloc node key value n 0 1 h 0 key_limit o s)
        (Halves-node r.node r.split 0 key_limit halves)

  -- Whatever memory an insertion gets, the keys stay in order, all leaves stay at one depth, no node
  -- has more than 31 keys, and every node but the root stays at least half full.
  pub bptree_insert-IsBalanced :
      (t : BPlusTree) (key value : ℕ)
      → key < key_limit
      → IsBalanced t
      → IsBalanced (bptree_insert alloc t key value).0
  unfolding bptree_insert
  bptree_insert-IsBalanced t key value p b = go t.root b.ordered b.shaped
    where
      go :
          (o : Option BpNode)
          → RootIsOrdered o
          → RootIsShaped o
          → IsBalanced (bptree_insert alloc (record t { root = o }) key value).0
      go none h s = elim (Bool-cases (alloc 0)) [
        | inl ok ↦ rw ok (
            root_step (leaf []) t.size key value 1 0 p (unfold IsOrdered in omega arith)
              (unfold IsNode in omega arith))
        | inr oom ↦ rw oom (record { ordered = tt; shaped = tt })
      ]
      go (some node) h s = root_step node t.size key value 0 s.0 p h s.1

-- the nodes that the loop of `bptree_search` goes through
unfoldable mutual
  unfolding child_index_for_key

  pub node_visits : BpNode → ℕ → ℕ
  node_visits (leaf es) key = 1
  node_visits (internal ks cs) key = suc (child_visits cs (child_index_for_key ks key) key)

  pub child_visits : Children → ℕ → ℕ → ℕ
  child_visits nil i key = 0
  child_visits (child c cs) zero key = node_visits c key
  child_visits (child c cs) (suc i) key = child_visits cs i key

mutual
  unfolding node_visits IsNode IsOrdered

  node_visits-height :
      (node : BpNode) (key m k h lo hi : ℕ)
      → IsOrdered node lo hi
      → IsNode node m k h
      → node_visits node key ≡ suc h
  node_visits-height (leaf es) key m k h lo hi o s = ap suc (omega arith)
  node_visits-height (internal ks cs) key m k zero lo hi o s = absurd s
  node_visits-height (internal ks cs) key m k (suc h) lo hi o s =
      ap suc (child_visits-height cs ks key h lo hi o s.2)

  child_visits-height :
      (cs : Children) (ks : List ℕ) (key h lo hi : ℕ)
      → AreOrdered cs ks lo hi
      → AreNodes cs h
      → child_visits cs (child_index_for_key ks key) key ≡ suc h
  child_visits-height nil ks key h lo hi o s = absurd o
  child_visits-height (child c cs) [] key h lo hi o s =
      node_visits-height c key 16 15 h lo hi o.0 s.0
  child_visits-height (child c cs) (k ∷ ks) key h lo hi o s = elim (Bool-cases (leb k key)) [
    | inl ge ↦ rw ge (child_visits-height cs ks key h k hi o.1 s.1)
    | inr lt ↦ rw lt (node_visits-height c key 16 15 h lo k o.0 s.0)
  ]

double : (x n m : ℕ) → 1 ≤ n → suc n * x ≤ m → 2 * x ≤ m
double x n m p q = grind arith

pub root_height :
    (node : BpNode) (h : ℕ)
    → IsOrdered node 0 key_limit
    → IsNode node 0 1 (suc h)
    → 2 * 16 ^ suc h ≤ length (entries node)
unfolding IsNode IsOrdered entries
root_height (leaf es) h o s = absurd (omega arith)
root_height (internal ks cs) h o s =
    double (16 ^ suc h) (length ks) _ s.0 (length-child_entries cs ks h 0 key_limit o s.2)

-- the loop of `bptree_search` with a count of the nodes that it goes through
unfoldable mutual
  unfolding child_index_for_key leaf_search

  pub node_counted : BpNode → ℕ → Option ℕ × ℕ
  node_counted (leaf es) key = (leaf_search es key, 1)
  node_counted (internal ks cs) key =
      let (found, n) = child_counted cs (child_index_for_key ks key) key in (found, suc n)

  pub child_counted : Children → ℕ → ℕ → Option ℕ × ℕ
  child_counted nil i key = (none, 0)
  child_counted (child c cs) zero key = node_counted c key
  child_counted (child c cs) (suc i) key = child_counted cs i key

unfoldable pub search_counted : BPlusTree → ℕ → Option ℕ × ℕ
unfolding node_counted
search_counted t key = elim t.root [ none ↦ (none, 0) | some node ↦ node_counted node key ]

mutual
  unfolding node_counted node_visits node_search

  node_counted-same :
      (node : BpNode) (key : ℕ)
      → ((node_counted node key).0 ≡ node_search node key)
        × ((node_counted node key).1 ≡ node_visits node key)
  node_counted-same (leaf es) key = (refl, refl)
  node_counted-same (internal ks cs) key =
      let h = child_counted-same cs (child_index_for_key ks key) key in (h.0, ap suc h.1)

  child_counted-same :
      (cs : Children) (i key : ℕ)
      → ((child_counted cs i key).0 ≡ child_search cs i key)
        × ((child_counted cs i key).1 ≡ child_visits cs i key)
  child_counted-same nil i key = (refl, refl)
  child_counted-same (child c cs) zero key = node_counted-same c key
  child_counted-same (child c cs) (suc i) key = child_counted-same cs i key

search_counted-same : (t : BPlusTree) (key : ℕ) → (search_counted t key).0 ≡ bptree_search t key
unfolding search_counted bptree_search
search_counted-same t key = go t.root
  where
    go :
        (o : Option BpNode)
        → (search_counted (record t { root = o }) key).0 ≡ bptree_search (record t { root = o }) key
    go none = refl
    go (some node) = (node_counted-same node key).0

-- `bptree_search`, with a count of the nodes that its loop goes through, finds what it finds
-- without the count; and in a valid and balanced tree, a count v of at least two faces at least 2 *
-- 16 ^ (v - 1) entries, whatever the key.
pub visits_bound :
    (t : BPlusTree) (key : ℕ)
    → IsValid t
    → IsBalanced t
    → 2 ≤ (search_counted t key).1
    → ((search_counted t key).0 ≡ bptree_search t key)
      × (2 * 16 ^ ((search_counted t key).1 - 1) ≤ t.size)
unfolding search_counted
visits_bound t key v b h = (search_counted-same t key, go t.root b.ordered b.shaped v.counted h)
  where
    counted :
        (node : BpNode) (h : ℕ)
        → IsOrdered node 0 key_limit
        → IsNode node 0 1 h
        → (node_counted node key).1 ≡ suc h
    counted node h o s =
        (node_counted-same node key).1 ∙ node_visits-height node key 0 1 h 0 key_limit o s

    go :
        (o : Option BpNode)
        → RootIsOrdered o
        → RootIsShaped o
        → t.size ≡ length (contents (record t { root = o }))
        → 2 ≤ (search_counted (record t { root = o }) key).1
        → 2 * 16 ^ ((search_counted (record t { root = o }) key).1 - 1) ≤ t.size
    go none o s e q = absurd (omega arith)
    go (some node) o (zero, s) e q = absurd (omega (arith, counted node 0 o s, q))
    go (some node) o (suc h, s) e q =
        rw (counted node (suc h) o s, less h, e) (root_height node h o s)
      where
        less : (n : ℕ) → suc (suc n) - 1 ≡ suc n
        less n = omega arith
