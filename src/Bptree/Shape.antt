-- ===== src/Bptree/Shape.antt =====
-- The shape of the tree: all leaves at one depth, at most 31 keys in a node, and every node but the
-- root at least half full. So a search of `size` entries visits few nodes.
use native.Mathlib.Nat.{pow-suc}
use tryo.Prelude.{
  ℕ, zero, suc, ◌+◌, ◌*◌, ◌^◌, ◌≤◌, ◌≡◌, refl, inl, inr, Bool, List, [], ◌∷◌, arith, length,
  length-set, insert_at, length-insert_at, length-append, length-take, length-drop, ltb, ltb→lt,
  ltb→ge, leb, Bool-cases,
}
use tryo.Bptree.{
  Entry, max_keys, BpNode, leaf, internal, Children, nil, child, Split, unsplit, promoted,
  InsertResult, set_child, insert_child, take_children, drop_children, leaf_find_position, key_at,
  split_leaf, leaf_insert, child_index_for_key, split_internal, take_in, node_insert, child_insert,
}
use tryo.Bptree.Ordered.{entries, child_entries, IsOrdered, AreOrdered}

-- A node of height `h` with between `m` (in a leaf) or `k` (in an internal node) and 31 keys, over
-- nodes that have at least 16 or 15 keys.
unfoldable mutual
  pub IsNode : BpNode → ℕ → ℕ → ℕ → Type 0
  IsNode (leaf es) m k h = (h ≡ 0) × (m ≤ length es) × (length es ≤ max_keys)
  IsNode (internal ks cs) m k zero = ⊥
  IsNode (internal ks cs) m k (suc h) = (k ≤ length ks) × (length ks ≤ max_keys) × AreNodes cs h

  pub AreNodes : Children → ℕ → Type 0
  AreNodes nil h = Unit
  AreNodes (child c cs) h = IsNode c 16 15 h × AreNodes cs h

AreNodes-set_child :
    (cs : Children) (i : ℕ) (c : BpNode) (h : ℕ)
    → IsNode c 16 15 h
    → AreNodes cs h
    → AreNodes (set_child cs i c) h
unfolding IsNode
AreNodes-set_child nil i c h n s = s
AreNodes-set_child (child c' cs) zero c h n s = (n, s.1)
AreNodes-set_child (child c' cs) (suc i) c h n s = (s.0, AreNodes-set_child cs i c h n s.1)

AreNodes-insert_child :
    (i : ℕ) (c : BpNode) (cs : Children) (h : ℕ)
    → IsNode c 16 15 h
    → AreNodes cs h
    → AreNodes (insert_child i c cs) h
unfolding IsNode
AreNodes-insert_child zero c cs h n s = (n, s)
AreNodes-insert_child (suc i) c nil h n s = (n, s)
AreNodes-insert_child (suc i) c (child c' cs) h n s = (s.0, AreNodes-insert_child i c cs h n s.1)

AreNodes-take : (i : ℕ) (cs : Children) (h : ℕ) → AreNodes cs h → AreNodes (take_children i cs) h
unfolding IsNode
AreNodes-take zero cs h s = tt
AreNodes-take (suc i) nil h s = tt
AreNodes-take (suc i) (child c cs) h s = (s.0, AreNodes-take i cs h s.1)

AreNodes-drop : (i : ℕ) (cs : Children) (h : ℕ) → AreNodes cs h → AreNodes (drop_children i cs) h
unfolding IsNode
AreNodes-drop zero cs h s = s
AreNodes-drop (suc i) nil h s = s
AreNodes-drop (suc i) (child c cs) h s = AreNodes-drop i cs h s.1

-- a node that was split leaves two nodes of the same height that are at least half full
abbrev pub HalvesAreNodes : BpNode → Split → ℕ → ℕ → ℕ → Type 0
HalvesAreNodes node unsplit m k h = IsNode node m k h
HalvesAreNodes node (promoted p right) m k h = IsNode node 16 15 h × IsNode right 16 15 h

module _ (alloc : ℕ → Bool) where
  split_leaf-shape :
      (es temp : List Entry) (m k n : ℕ)
      → m ≤ length es
      → length es ≤ max_keys
      → length temp ≡ 32
      → let r = split_leaf alloc es temp n in HalvesAreNodes r.node r.split m k 0
  unfolding split_leaf IsNode
  split_leaf-shape es temp m k n p q e = elim (Bool-cases (alloc n)) [
    | inl ok ↦
        (rw ok (
          rw e (
            (refl, omega (arith, length-take 16 temp), omega (arith, length-take 16 temp)),
            (refl, omega (arith, length-drop 16 temp), omega (arith, length-drop 16 temp)),
          )))
    | inr oom ↦ rw oom (refl, p, q)
  ]

  leaf_insert-shape :
      (es : List Entry) (key value m k n : ℕ)
      → m ≤ length es
      → length es ≤ max_keys
      → let r = leaf_insert alloc es key value n in HalvesAreNodes r.node r.split m k 0
  unfolding leaf_insert
  leaf_insert-shape es key value m k n p q = elim (Bool-cases (key_at es pos key)) [
    | inl old ↦ rw old (
        unfold IsNode in
        (refl, omega (arith, length-set es pos e), omega (arith, length-set es pos e)))
    | inr new ↦
        (rw new (elim (Bool-cases (ltb (length es) max_keys)) [
          | inl room ↦ rw room (
              unfold IsNode in
              (
                refl,
                omega (arith, length-insert_at pos e es),
                omega (arith, ltb→lt _ _ room, length-insert_at pos e es),
              ))
          | inr full ↦ rw full (
              split_leaf-shape es (insert_at pos e es) m k n p q
                (omega (arith, ltb→ge _ _ full, length-insert_at pos e es)))
        ]))
  ]
    where
      pos : ℕ
      pos = leaf_find_position es key

      e : Entry
      e = (key, value)

  split_internal-shape :
      (old : BpNode) (ks : List ℕ) (cs : Children) (r : InsertResult) (m k h : ℕ)
      → IsNode old m k (suc h)
      → length ks ≡ 32
      → AreNodes cs h
      → let t = split_internal alloc old ks cs r in HalvesAreNodes t.node t.split m k (suc h)
  unfolding split_internal
  split_internal-shape old ks cs r m k h o e s = elim (Bool-cases (alloc r.allocated)) [
    | inl ok ↦ rw ok (
        rw e (
          unfold IsNode in
          (
            (
              omega (arith, length-take 16 ks),
              omega (arith, length-take 16 ks),
              AreNodes-take 17 cs h s,
            ),
            (
              omega (arith, length-drop 17 ks),
              omega (arith, length-drop 17 ks),
              AreNodes-drop 17 cs h s,
            ),
          )))
    | inr oom ↦ rw oom o
  ]

  take_in-shape :
      (ks : List ℕ) (cs : Children) (idx : ℕ) (s : Split) (r : InsertResult) (m k h : ℕ)
      → r.split ≡ s
      → IsNode (internal ks cs) m k (suc h)
      → HalvesAreNodes r.node s 16 15 h
      → let t = take_in alloc ks cs idx s r in HalvesAreNodes t.node t.split m k (suc h)
  unfolding take_in IsNode
  take_in-shape ks cs idx unsplit r m k h e o n =
      rw e (o.0, o.1, AreNodes-set_child cs idx r.node h n o.2)
  take_in-shape ks cs idx (promoted p right) r m k h e o n =
      elim (Bool-cases (ltb (length ks) max_keys)) [
        | inl room ↦ rw room (omega (arith, len), omega (arith, ltb→lt _ _ room, len), cs'-nodes)
        | inr full ↦ rw full (
            split_internal-shape _ _ _ r m k h (o.0, o.1, kept)
              (omega (arith, ltb→ge _ _ full, len)) cs'-nodes)
      ]
    where
      len : length (insert_at idx p ks) ≡ length ks + 1
      len = length-insert_at idx p ks

      kept : AreNodes (set_child cs idx r.node) h
      kept = AreNodes-set_child cs idx r.node h n.0 o.2

      cs'-nodes : AreNodes (insert_child (suc idx) right (set_child cs idx r.node)) h
      cs'-nodes = AreNodes-insert_child (suc idx) right _ h n.1 kept

  mutual
    unfolding node_insert IsNode IsOrdered

    pub node_insert-shape :
        (node : BpNode) (key value n m k h lo hi : ℕ)
        → IsOrdered node lo hi
        → IsNode node m k h
        → let r = node_insert alloc node key value n in HalvesAreNodes r.node r.split m k h
    node_insert-shape (leaf es) key value n m k h lo hi o s =
        rw s.0 (leaf_insert-shape es key value m k n s.1 s.2)
    node_insert-shape (internal ks cs) key value n m k zero lo hi o s = absurd s
    node_insert-shape (internal ks cs) key value n m k (suc h) lo hi o s =
        let r = child_insert alloc cs (child_index_for_key ks key) key value n in
        take_in-shape ks cs (child_index_for_key ks key) r.split r m k h refl s
          (child_insert-shape cs ks key value n h lo hi o s.2)

    child_insert-shape :
        (cs : Children) (ks : List ℕ) (key value n h lo hi : ℕ)
        → AreOrdered cs ks lo hi
        → AreNodes cs h
        → let r = child_insert alloc cs (child_index_for_key ks key) key value n in
          HalvesAreNodes r.node r.split 16 15 h
    child_insert-shape nil ks key value n h lo hi o s = absurd o
    child_insert-shape (child c cs) [] key value n h lo hi o s =
        node_insert-shape c key value n 16 15 h lo hi o.0 s.0
    child_insert-shape (child c cs) (k ∷ ks) key value n h lo hi o s =
        elim (Bool-cases (leb k key)) [
          | inl ge ↦ rw ge (child_insert-shape cs ks key value n h k hi o.1 s.1)
          | inr lt ↦ rw lt (node_insert-shape c key value n 16 15 h lo k o.0 s.0)
        ]

-- `x * 16` is what `16 ^ suc h` computes to
half_full : (x n m : ℕ) → 15 ≤ n → suc n * x ≤ m → x * 16 ≤ m
half_full x n m p q = grind arith

-- a node at least half full of height `h` holds at least 16 ^ (h + 1) entries
mutual
  unfolding IsNode IsOrdered entries

  pub length-entries :
      (node : BpNode) (h lo hi : ℕ)
      → IsOrdered node lo hi
      → IsNode node 16 15 h
      → 16 ^ suc h ≤ length (entries node)
  length-entries (leaf es) h lo hi o s = rw s.0 s.1
  length-entries (internal ks cs) zero lo hi o s = absurd s
  length-entries (internal ks cs) (suc h) lo hi o s =
      rw (pow-suc 16 (suc h))
        (half_full (16 ^ suc h) (length ks) _ s.0 (length-child_entries cs ks h lo hi o s.2))

  pub length-child_entries :
      (cs : Children) (ks : List ℕ) (h lo hi : ℕ)
      → AreOrdered cs ks lo hi
      → AreNodes cs h
      → suc (length ks) * 16 ^ suc h ≤ length (child_entries cs)
  length-child_entries nil ks h lo hi o s = absurd o
  length-child_entries (child c cs) [] h lo hi o s =
      omega (arith, length-append (entries c) (child_entries cs), length-entries c h lo hi o.0 s.0)
  length-child_entries (child c cs) (k ∷ ks) h lo hi o s = omega (
    arith,
    length-append (entries c) (child_entries cs),
    length-entries c h lo k o.0 s.0,
    length-child_entries cs ks h k hi o.1 s.1,
  )
