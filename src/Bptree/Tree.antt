-- ===== src/Bptree/Tree.antt =====
-- `bptree_insert` and `bptree_search` against the map of Bptree/Spec.antt. Keys are below 2^31, as
-- an `int` is.
use tryo.Prelude.{
  ℕ, suc, ◌+◌, ◌^◌, ◌<◌, ◌≡◌, refl, ap, ◌∙◌, Bool, true, Option, none, some, List, [], arith,
  length, append-nil, if◌then◌else◌, ◌==◌,
}
use tryo.Bptree.{
  Entry, BpNode, leaf, nil, child, BPlusTree, Split, unsplit, promoted, InsertResult, grow_root,
  insert_into_root, bptree_init, bptree_insert, bptree_search, node_insert,
}
use tryo.Bptree.Spec.{is_none, insert, lookup, Sorted, lookup-insert, length-insert}
use tryo.Bptree.Ordered.{entries, child_entries, IsOrdered, entries-Sorted}
use tryo.Bptree.Keeps.{Halves, node_insert-Halves}
use tryo.Bptree.Refine.{Inserts, halves_entries, node_insert-Inserts, node_search-eq-lookup}

abbrev pub key_limit : ℕ
key_limit = 2 ^ 31

abbrev pub root_entries : Option BpNode → List Entry
root_entries none = []
root_entries (some node) = entries node

abbrev pub contents : BPlusTree → List Entry
contents t = root_entries t.root

abbrev pub RootIsOrdered : Option BpNode → Type 0
RootIsOrdered none = Unit
RootIsOrdered (some node) = IsOrdered node 0 key_limit

pub record IsValid (t : BPlusTree) : Type 0 where
  pub ordered : RootIsOrdered t.root
  pub counted : t.size ≡ length (contents t)

root-Sorted : (o : Option BpNode) → RootIsOrdered o → Sorted 0 key_limit (root_entries o)
root-Sorted none h = omega arith
root-Sorted (some node) h = entries-Sorted node 0 key_limit h

pub contents-Sorted : (t : BPlusTree) → IsValid t → Sorted 0 key_limit (contents t)
contents-Sorted t v = root-Sorted t.root v.ordered

-- a search returns what the map of the tree's entries holds
pub bptree_search-eq-lookup :
    (t : BPlusTree) (key : ℕ) → IsValid t → bptree_search t key ≡ lookup key (contents t)
unfolding bptree_search
bptree_search-eq-lookup t key v = go t.root v.ordered
  where
    go :
        (o : Option BpNode)
        → RootIsOrdered o
        → bptree_search (record { root = o; size = t.size }) key ≡ lookup key (root_entries o)
    go none h = unfold lookup in refl
    go (some node) h = node_search-eq-lookup node key 0 key_limit h

pub bptree_init-IsValid : IsValid bptree_init
unfolding bptree_init
bptree_init-IsValid = record { ordered = tt; counted = refl }

-- what a successful insertion is to give
pub record Inserted (t : BPlusTree) (key value : ℕ) (out : BPlusTree × Bool) : Type 0 where
  pub ok : out.1 ≡ true
  pub valid : IsValid out.0
  pub content : contents out.0 ≡ insert key value (contents t)

module _ (alloc : ℕ → Bool) (enough : (n : ℕ) → alloc n ≡ true) where
  size_step :
      (fresh : Bool) (size key value : ℕ) (es es' : List Entry)
      → Sorted 0 key_limit es
      → size ≡ length es
      → Inserts es key value es' fresh
      → (if fresh then suc size else size) ≡ length es'
  size_step fresh size key value es es' s e i =
      rw i.content (rw i.new (ground (arith, length-insert key value 0 key_limit es s)))

  grow_root-Inserted :
      (size key value : ℕ) (es : List Entry) (s : Split) (r : InsertResult)
      → Sorted 0 key_limit es
      → size ≡ length es
      → Halves r.node s 0 key_limit
      → Inserts es key value (halves_entries r.node s) r.inserted_new
      → let out = grow_root alloc size s r in
        (out.1 ≡ true) × IsValid out.0 × (contents out.0 ≡ insert key value es)
  unfolding grow_root entries
  grow_root-Inserted size key value es unsplit r s e h i = (
    refl,
    record { ordered = h; counted = size_step r.inserted_new size key value es _ s e i },
    i.content,
  )
  grow_root-Inserted size key value es (promoted k right) r s e h i = rw (enough r.allocated) (
    refl,
    record {
      ordered = unfold IsOrdered in (h.0, (h.1, refl));
      counted = size_step r.inserted_new size key value es _ s e i';
    },
    i'.content,
  )
    where
      i' : Inserts es key value (child_entries (child r.node (child right nil))) r.inserted_new
      i' = unfold entries in rw append-nil i

  insert_root :
      (node : BpNode) (size key value n : ℕ)
      → key < key_limit
      → IsOrdered node 0 key_limit
      → size ≡ length (entries node)
      → let out = insert_into_root alloc size (node_insert alloc node key value n) in
        (out.1 ≡ true) × IsValid out.0 × (contents out.0 ≡ insert key value (entries node))
  unfolding insert_into_root
  insert_root node size key value n p o e =
      let r = node_insert alloc node key value n in
      grow_root-Inserted size key value (entries node) r.split r (entries-Sorted node 0 key_limit o)
        e (node_insert-Halves alloc node key value n 0 key_limit (omega arith) p o)
        (node_insert-Inserts alloc enough node key value n 0 key_limit (omega arith) p o)

  pub bptree_insert-Inserted :
      (t : BPlusTree) (key value : ℕ)
      → key < key_limit
      → IsValid t
      → Inserted t key value (bptree_insert alloc t key value)
  unfolding bptree_insert
  bptree_insert-Inserted t key value p v = go t.root v.ordered v.counted
    where
      go :
          (o : Option BpNode)
          → RootIsOrdered o
          → t.size ≡ length (root_entries o)
          → let t' = record t { root = o } in
            Inserted t' key value (bptree_insert alloc t' key value)
      go none h e =
          let (a, b, c) =
            insert_root (leaf []) t.size key value 1 p (unfold IsOrdered in omega arith)
              (unfold entries in e) in
          rw (enough 0) (record { ok = a; valid = b; content = c ∙ unfold entries in refl })
      go (some node) h e =
          let (a, b, c) = insert_root node t.size key value 0 p h e in
          record { ok = a; valid = b; content = c }

  -- With memory for every new node, `bptree_insert` on a valid tree succeeds, the tree stays valid,
  -- and a search afterwards finds the new value at the key and what it found before elsewhere.
  pub search-insert :
      (t : BPlusTree) (key value key' : ℕ)
      → key < key_limit
      → IsValid t
      → let (t', ok) = bptree_insert alloc t key value in
        (ok ≡ true)
        × IsValid t'
        × (bptree_search t' key' ≡ (if key == key' then some value else bptree_search t key'))
  search-insert t key value key' p v =
      let i = bptree_insert-Inserted t key value p v in
      (
        i.ok,
        i.valid,
        bptree_search-eq-lookup _ key' i.valid
            ∙ ap (lookup key') i.content
            ∙ lookup-insert key value key' 0 key_limit (contents t) (contents-Sorted t v)
            ∙ rw (bptree_search-eq-lookup t key' v) refl,
      )

  -- With memory for every new node, the `size` of a valid tree grows by one exactly when the key
  -- was not there, and stays as it is otherwise.
  pub size-insert :
      (t : BPlusTree) (key value : ℕ)
      → key < key_limit
      → IsValid t
      → (bptree_insert alloc t key value).0.size
        ≡ (if is_none (bptree_search t key) then t.size + 1 else t.size)
  size-insert t key value p v =
      let i = bptree_insert-Inserted t key value p v in
      let sizes = length-insert key value 0 key_limit (contents t) (contents-Sorted t v) in
      rw (bptree_search-eq-lookup t key v)
        (i.valid.counted ∙ ap length i.content ∙ (rw (← v.counted) at sizes))
