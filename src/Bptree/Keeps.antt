-- ===== src/Bptree/Keeps.antt =====
-- An insertion keeps the tree ordered, whether or not memory runs out on the way.
use tryo.Prelude.{
  ℕ, suc, ◌/◌, ◌≤◌, ◌<◌, ◌≡◌, refl, inl, inr, Bool, false, List, [], ◌∷◌, arith, length, insert_at,
  length-insert_at, ltb, Bool-cases, leb, leb→le, leb→gt,
}
use tryo.Bptree.{
  Entry, max_keys, BpNode, leaf, internal, Children, nil, child, Split, unsplit, promoted,
  InsertResult, set_child, insert_child, leaf_find_position, key_at, split_leaf, leaf_insert,
  child_index_for_key, take_in, node_insert, child_insert,
}
use tryo.Bptree.Spec.{insert, Sorted, insert-Sorted}
use tryo.Bptree.Leaf.{set-eq-insert, insert_at-eq-insert, Sorted-cut}
use tryo.Bptree.Ordered.{IsOrdered, AreOrdered, IsOrdered-le, IsOrdered-widen, AreOrdered-cut}

-- a node and the sibling that was split off it, in order
abbrev pub Halves : BpNode → Split → ℕ → ℕ → Type 0
Halves node unsplit lo hi = IsOrdered node lo hi
Halves node (promoted p right) lo hi = IsOrdered node lo p × IsOrdered right p hi

-- the separators and the children of a node after the insertion into the child at `idx`
abbrev pub keys_after : List ℕ → ℕ → Split → List ℕ
keys_after ks idx unsplit = ks
keys_after ks idx (promoted p right) = insert_at idx p ks

abbrev pub children_after : Children → ℕ → BpNode → Split → Children
children_after cs idx c unsplit = set_child cs idx c
children_after cs idx c (promoted p right) = insert_child (suc idx) right (set_child cs idx c)

-- The second field is what is left if there is no memory to take in the sibling.
pub record Absorbs (cs : Children) (ks : List ℕ) (idx : ℕ) (c : BpNode) (s : Split) (lo hi : ℕ)
    : Type 0 where
  pub after : AreOrdered (children_after cs idx c s) (keys_after ks idx s) lo hi
  pub kept : AreOrdered (set_child cs idx c) ks lo hi

-- the node left behind lies in the whole range
pub Halves-node : (c : BpNode) (s : Split) (lo hi : ℕ) → Halves c s lo hi → IsOrdered c lo hi
Halves-node c unsplit lo hi h = h
Halves-node c (promoted p right) lo hi h =
    IsOrdered-widen c lo p hi (IsOrdered-le right p hi h.1) h.0

-- the child that the search for the key reaches is the last one, the first one, or further right
here_last :
    (c c' : BpNode) (s : Split) (lo hi : ℕ)
    → Halves c' s lo hi
    → Absorbs (child c nil) [] 0 c' s lo hi
unfolding IsOrdered
here_last c c' unsplit lo hi h = record { after = (h, refl); kept = (h, refl) }
here_last c c' (promoted p right) lo hi h = record {
  after = (h.0, (h.1, refl));
  kept = (Halves-node c' (promoted p right) lo hi h, refl);
}

here :
    (c : BpNode) (cs : Children) (k : ℕ) (ks : List ℕ) (c' : BpNode) (s : Split) (lo hi : ℕ)
    → Halves c' s lo k
    → AreOrdered cs ks k hi
    → Absorbs (child c cs) (k ∷ ks) 0 c' s lo hi
unfolding IsOrdered
here c cs k ks c' unsplit lo hi h o = record { after = (h, o); kept = (h, o) }
here c cs k ks c' (promoted p right) lo hi h o = record {
  after = (h.0, (h.1, o));
  kept = (Halves-node c' (promoted p right) lo k h, o);
}

further :
    (c : BpNode) (cs : Children) (k : ℕ) (ks : List ℕ) (idx : ℕ) (c' : BpNode) (s : Split)
    (lo hi : ℕ)
    → IsOrdered c lo k
    → Absorbs cs ks idx c' s k hi
    → Absorbs (child c cs) (k ∷ ks) (suc idx) c' s lo hi
unfolding IsOrdered
further c cs k ks idx c' unsplit lo hi o a = record { after = (o, a.after); kept = (o, a.kept) }
further c cs k ks idx c' (promoted p right) lo hi o a = record {
  after = (o, a.after);
  kept = (o, a.kept);
}

module _ (alloc : ℕ → Bool) where
  split_leaf-Halves :
      (es temp : List Entry) (n lo hi : ℕ)
      → 0 < length temp
      → Sorted lo hi es
      → Sorted lo hi temp
      → let r = split_leaf alloc es temp n in Halves r.node r.split lo hi
  unfolding split_leaf IsOrdered
  split_leaf-Halves es temp n lo hi p o s = elim (Bool-cases (alloc n)) [
    | inl ok ↦ rw ok (Sorted-cut (length temp / 2) lo hi temp (omega arith) s)
    | inr oom ↦ rw oom o
  ]

  leaf_insert-Halves :
      (es : List Entry) (key value n lo hi : ℕ)
      → lo ≤ key
      → key < hi
      → IsOrdered (leaf es) lo hi
      → let r = leaf_insert alloc es key value n in Halves r.node r.split lo hi
  unfolding leaf_insert IsOrdered
  leaf_insert-Halves es key value n lo hi p q o = elim (Bool-cases (key_at es pos key)) [
    | inl old ↦ rw old (rw (set-eq-insert key value lo hi es o old) sorted)
    | inr new ↦
        (rw new (elim (Bool-cases (ltb (length es) max_keys)) [
          | inl room ↦ rw room (rw (temp_lem new) sorted)
          | inr full ↦ rw full (
              split_leaf-Halves es (insert_at pos (key, value) es) n lo hi
                (omega (arith, length-insert_at pos (key, value) es)) o (rw (temp_lem new) sorted))
        ]))
  ]
    where
      pos : ℕ
      pos = leaf_find_position es key

      sorted : Sorted lo hi (insert key value es)
      sorted = insert-Sorted key value lo hi es p q o

      temp_lem : key_at es pos key ≡ false → insert_at pos (key, value) es ≡ insert key value es
      temp_lem = insert_at-eq-insert key value lo hi es o

  take_in-Halves :
      (cs : Children) (ks : List ℕ) (idx : ℕ) (s : Split) (r : InsertResult) (lo hi : ℕ)
      → r.split ≡ s
      → Absorbs cs ks idx r.node s lo hi
      → let t = take_in alloc ks cs idx s r in Halves t.node t.split lo hi
  unfolding take_in IsOrdered
  take_in-Halves cs ks idx unsplit r lo hi e a = rw e a.after
  take_in-Halves cs ks idx (promoted p right) r lo hi e a =
      elim (Bool-cases (ltb (length ks) max_keys)) [
        | inl room ↦ rw room a.after
        | inr full ↦ rw full (elim (Bool-cases (alloc r.allocated)) [
          | inl ok ↦ rw ok (
              AreOrdered-cut (length (insert_at idx p ks) / 2) _ (insert_at idx p ks) lo hi
                (omega (arith, length-insert_at idx p ks)) a.after)
          | inr oom ↦ rw oom a.kept
        ])
      ]

  mutual
    unfolding node_insert IsOrdered

    pub node_insert-Halves :
        (node : BpNode) (key value n lo hi : ℕ)
        → lo ≤ key
        → key < hi
        → IsOrdered node lo hi
        → let r = node_insert alloc node key value n in Halves r.node r.split lo hi
    node_insert-Halves (leaf es) key value n lo hi p q o =
        leaf_insert-Halves es key value n lo hi p q o
    node_insert-Halves (internal ks cs) key value n lo hi p q o =
        let r = child_insert alloc cs (child_index_for_key ks key) key value n in
        take_in-Halves cs ks (child_index_for_key ks key) r.split r lo hi refl
          (child_insert-Absorbs cs ks key value n lo hi p q o)

    child_insert-Absorbs :
        (cs : Children) (ks : List ℕ) (key value n lo hi : ℕ)
        → lo ≤ key
        → key < hi
        → AreOrdered cs ks lo hi
        → let r = child_insert alloc cs (child_index_for_key ks key) key value n in
          Absorbs cs ks (child_index_for_key ks key) r.node r.split lo hi
    child_insert-Absorbs nil ks key value n lo hi p q o = absurd o
    child_insert-Absorbs (child c cs) [] key value n lo hi p q o =
        rw o.1 (here_last c _ _ lo hi (node_insert-Halves c key value n lo hi p q o.0))
    child_insert-Absorbs (child c cs) (k ∷ ks) key value n lo hi p q o =
        elim (Bool-cases (leb k key)) [
          | inl ge ↦ rw ge (
              further c cs k ks (child_index_for_key ks key) _ _ lo hi o.0
                (child_insert-Absorbs cs ks key value n k hi (leb→le _ _ ge) q o.1))
          | inr lt ↦ rw lt (
              here c cs k ks _ _ lo hi (node_insert-Halves c key value n lo k p (leb→gt _ _ lt) o.0)
                o.1)
        ]
