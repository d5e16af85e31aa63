-- ===== src/Bptree/Refine.antt =====
-- With memory for every new node, an insertion into an ordered node is the insertion into its
-- sorted list of entries, and a search is the lookup there.
use tryo.Prelude.{
  ℕ, suc, ◌/◌, ◌≤◌, ◌<◌, ◌≡◌, ◌≢◌, refl, sym, ap, ◌∙◌, inl, inr, Bool, true, false, Option, none,
  some, List, [], ◌∷◌, ◌++◌, length, insert_at, append-nil, append_assoc, take-append-drop, ltb,
  Bool-cases, leb, leb→le, leb→gt,
}
use tryo.Bptree.{
  Entry, max_keys, BpNode, leaf, internal, Children, nil, child, Split, unsplit, promoted,
  InsertResult, leaf_find_position, key_at, split_leaf, leaf_insert, child_index_for_key,
  split_internal, take_in, node_insert, child_insert, node_search, child_search,
}
use tryo.Bptree.Spec.{
  is_none, insert, lookup, Sorted, insert-append_left, insert-append_right, lookup-append_left,
  lookup-append_right,
}
use tryo.Bptree.Leaf.{
  set-eq-insert, insert_at-eq-insert, key_at-lookup-none, key_at-lookup-some, leaf_search-eq-lookup,
}
use tryo.Bptree.Ordered.{
  entries, child_entries, IsOrdered, AreOrdered, entries-Sorted, child_entries-Sorted,
  child_entries-cut,
}
use tryo.Bptree.Keeps.{children_after}

is_none-false : (o : Option ℕ) → o ≢ none → is_none o ≡ false
is_none-false none h = absurd (h refl)
is_none-false (some v) h = refl

-- the entries of a node and of the sibling that was split off it
abbrev pub halves_entries : BpNode → Split → List Entry
halves_entries node unsplit = entries node
halves_entries node (promoted p right) = entries node ++ entries right

-- the entries after the insertion, and whether the key is new
pub record Inserts (es : List Entry) (key value : ℕ) (es' : List Entry) (fresh : Bool)
    : Type 0 where
  pub content : es' ≡ insert key value es
  pub new : fresh ≡ is_none (lookup key es)

module _ (alloc : ℕ → Bool) (enough : (n : ℕ) → alloc n ≡ true) where
  split_leaf-entries :
      (es temp : List Entry) (n : ℕ)
      → let r = split_leaf alloc es temp n in
        (halves_entries r.node r.split ≡ temp) × (r.inserted_new ≡ true)
  unfolding split_leaf entries
  split_leaf-entries es temp n = rw (enough n) (take-append-drop (length temp / 2) temp, refl)

  leaf_insert-Inserts :
      (es : List Entry) (key value n lo hi : ℕ)
      → Sorted lo hi es
      → let r = leaf_insert alloc es key value n in
        Inserts es key value (halves_entries r.node r.split) r.inserted_new
  unfolding leaf_insert entries
  leaf_insert-Inserts es key value n lo hi o = elim (Bool-cases (key_at es pos key)) [
    | inl old ↦
        (rw old (record {
          content = set-eq-insert key value lo hi es o old;
          new = sym (is_none-false _ (key_at-lookup-some key lo hi es o old));
        }))
    | inr new ↦
        (rw new (elim (Bool-cases (ltb (length es) max_keys)) [
          | inl room ↦ rw room (record { content = temp_lem new; new = fresh_lem new })
          | inr full ↦
              (let (c, f) = split_leaf-entries es (insert_at pos (key, value) es) n in
                rw full (record { content = c ∙ temp_lem new; new = f ∙ fresh_lem new }))
        ]))
  ]
    where
      pos : ℕ
      pos = leaf_find_position es key

      temp_lem : key_at es pos key ≡ false → insert_at pos (key, value) es ≡ insert key value es
      temp_lem = insert_at-eq-insert key value lo hi es o

      fresh_lem : key_at es pos key ≡ false → true ≡ is_none (lookup key es)
      fresh_lem new = rw (key_at-lookup-none key lo hi es o new)

  split_internal-entries :
      (old : BpNode) (ks : List ℕ) (cs : Children) (r : InsertResult)
      → let t = split_internal alloc old ks cs r in
        (halves_entries t.node t.split ≡ child_entries cs) × (t.inserted_new ≡ r.inserted_new)
  unfolding split_internal entries
  split_internal-entries old ks cs r =
      rw (enough r.allocated) (child_entries-cut (suc (length ks / 2)) cs, refl)

  take_in-entries :
      (ks : List ℕ) (cs : Children) (idx : ℕ) (s : Split) (r : InsertResult)
      → r.split ≡ s
      → let t = take_in alloc ks cs idx s r in
        (halves_entries t.node t.split ≡ child_entries (children_after cs idx r.node s))
        × (t.inserted_new ≡ r.inserted_new)
  unfolding take_in entries
  take_in-entries ks cs idx unsplit r e = rw e (refl, refl)
  take_in-entries ks cs idx (promoted p right) r e = elim (Bool-cases (ltb (length ks) max_keys)) [
    | inl room ↦ rw room (refl, refl)
    | inr full ↦ rw full (split_internal-entries _ _ _ r)
  ]

  here-entries :
      (c c' : BpNode) (cs : Children) (s : Split)
      → child_entries (children_after (child c cs) 0 c' s) ≡ halves_entries c' s ++ child_entries cs
  unfolding entries
  here-entries c c' cs unsplit = refl
  here-entries c c' cs (promoted p right) = rw append_assoc

  further-entries :
      (c c' : BpNode) (cs : Children) (idx : ℕ) (s : Split)
      → child_entries (children_after (child c cs) (suc idx) c' s)
        ≡ entries c ++ child_entries (children_after cs idx c' s)
  unfolding entries
  further-entries c c' cs idx unsplit = refl
  further-entries c c' cs idx (promoted p right) = refl

  mutual
    unfolding node_insert IsOrdered entries

    pub node_insert-Inserts :
        (node : BpNode) (key value n lo hi : ℕ)
        → lo ≤ key
        → key < hi
        → IsOrdered node lo hi
        → let r = node_insert alloc node key value n in
          Inserts (entries node) key value (halves_entries r.node r.split) r.inserted_new
    node_insert-Inserts (leaf es) key value n lo hi p q o =
        leaf_insert-Inserts es key value n lo hi o
    node_insert-Inserts (internal ks cs) key value n lo hi p q o =
        let idx = child_index_for_key ks key in
        let r = child_insert alloc cs idx key value n in
        let (c, f) = take_in-entries ks cs idx r.split r refl in
        let i = child_insert-Inserts cs ks key value n lo hi p q o in
        record { content = c ∙ i.content; new = f ∙ i.new }

    child_insert-Inserts :
        (cs : Children) (ks : List ℕ) (key value n lo hi : ℕ)
        → lo ≤ key
        → key < hi
        → AreOrdered cs ks lo hi
        → let idx = child_index_for_key ks key in
          let r = child_insert alloc cs idx key value n in
          Inserts
            (child_entries cs)
            key
            value
            (child_entries (children_after cs idx r.node r.split))
            r.inserted_new
    child_insert-Inserts nil ks key value n lo hi p q o = absurd o
    child_insert-Inserts (child c cs) [] key value n lo hi p q o =
        let i = node_insert-Inserts c key value n lo hi p q o.0 in
        let r = node_insert alloc c key value n in
        rw o.1 (
          rw append-nil (record {
            content = here-entries c r.node nil r.split ∙ append-nil _ ∙ i.content;
            new = i.new;
          }))
    child_insert-Inserts (child c cs) (k ∷ ks) key value n lo hi p q o =
        elim (Bool-cases (leb k key)) [
          | inl ge ↦
              (let ge' = leb→le _ _ ge in
                let i = child_insert-Inserts cs ks key value n k hi ge' q o.1 in
                let idx = child_index_for_key ks key in
                let r = child_insert alloc cs idx key value n in
                rw ge (record {
                  content =
                      further-entries c r.node cs idx r.split
                      ∙ ap (λ l. entries c ++ l) i.content
                      ∙ sym (
                          insert-append_right key value lo k (entries c) (child_entries cs) ge'
                            (entries-Sorted c lo k o.0));
                  new =
                      rw
                        (lookup-append_right key lo k (entries c) (child_entries cs) ge'
                          (entries-Sorted c lo k o.0))
                        i.new;
                }))
          | inr lt ↦
              (let lt' = leb→gt _ _ lt in
                let i = node_insert-Inserts c key value n lo k p lt' o.0 in
                let r = node_insert alloc c key value n in
                let sc = entries-Sorted c lo k o.0 in
                let scs = child_entries-Sorted cs ks k hi o.1 in
                rw lt (record {
                  content =
                      here-entries c r.node cs r.split
                      ∙ ap (λ l. l ++ child_entries cs) i.content
                      ∙ sym (
                          insert-append_left key value lo k hi (entries c) (child_entries cs) lt' sc
                            scs);
                  new =
                      rw (lookup-append_left key lo k hi (entries c) (child_entries cs) lt' scs)
                        i.new;
                }))
        ]

mutual
  unfolding node_search IsOrdered entries

  pub node_search-eq-lookup :
      (node : BpNode) (key lo hi : ℕ)
      → IsOrdered node lo hi
      → node_search node key ≡ lookup key (entries node)
  node_search-eq-lookup (leaf es) key lo hi o = leaf_search-eq-lookup key lo hi es o
  node_search-eq-lookup (internal ks cs) key lo hi o = child_search-eq-lookup cs ks key lo hi o

  child_search-eq-lookup :
      (cs : Children) (ks : List ℕ) (key lo hi : ℕ)
      → AreOrdered cs ks lo hi
      → child_search cs (child_index_for_key ks key) key ≡ lookup key (child_entries cs)
  child_search-eq-lookup nil ks key lo hi o = absurd o
  child_search-eq-lookup (child c cs) [] key lo hi o =
      rw o.1 (rw append-nil (node_search-eq-lookup c key lo hi o.0))
  child_search-eq-lookup (child c cs) (k ∷ ks) key lo hi o = elim (Bool-cases (leb k key)) [
    | inl ge ↦
        (rw ge (
          child_search-eq-lookup cs ks key k hi o.1
          ∙ sym (
              lookup-append_right key lo k (entries c) (child_entries cs) (leb→le _ _ ge)
                (entries-Sorted c lo k o.0))))
    | inr lt ↦
        (rw lt (
          node_search-eq-lookup c key lo k o.0
          ∙ sym (
              lookup-append_left key lo k hi (entries c) (child_entries cs) (leb→gt _ _ lt)
                (child_entries-Sorted cs ks k hi o.1))))
  ]
