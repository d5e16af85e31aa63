-- ===== src/Bptree.antt =====
-- src/bptree.c and include/bptree.h: the B+ tree that maps an id to a record's position.
-- A node's arrays are lists of the entries in use, so `num_keys` is a length; a leaf's parallel
-- arrays `keys` and `values` are one list of pairs, and a shift loop followed by a write is
-- `insert_at`. A node that a C function changes in place is part of its result, and the root
-- `NULL` is `none`. The `next` pointer of a leaf, which no function of the program reads, is left
-- out. Keys are numbers, as every caller passes ids that are not negative.
pub mod Spec
pub mod Leaf
pub mod Ordered
pub mod Keeps
pub mod Refine
pub mod Tree
pub mod Shape
pub mod Height
pub mod Memory
mod Tests
use mathlib.Core.Option
use tryo.Prelude.{
  ℕ, zero, suc, ◌/◌, Bool, true, false, Option, none, some, List, [], ◌∷◌, length, get_elem?, set,
  insert_at, take, drop, ltb, leb, ◌==◌, if◌then◌else◌,
}

abbrev pub max_keys : ℕ
max_keys = 31

-- `keys[i]` and `values[i]`
abbrev pub Entry : Type 0
Entry = ℕ × ℕ

mutual
  -- `is_leaf` is the constructor
  pub data BpNode : Type 0 where
    leaf : List Entry → BpNode
    internal : List ℕ → Children → BpNode

  pub data Children : Type 0 where
    nil : Children
    child : BpNode → Children → Children

pub record BPlusTree : Type 0 where
  pub root : Option BpNode
  pub size : ℕ

-- the fields `split`, `promoted_key` and `right` of `InsertResult`
pub data Split : Type 0 where
  unsplit : Split
  promoted : ℕ → BpNode → Split

-- What an insertion leaves behind: the node changed in place, and the fields of `InsertResult`.
-- `allocated` counts the calls of `node_create` that this insertion has made.
pub record InsertResult : Type 0 where
  pub node : BpNode
  pub split : Split
  pub inserted_new : Bool
  pub allocated : ℕ

unfoldable pub bptree_init : BPlusTree
bptree_init = record { root = none; size = 0 }

-- the loop counts the keys below `key`
unfoldable pub leaf_find_position : List Entry → ℕ → ℕ
leaf_find_position [] key = 0
leaf_find_position ((k, v) ∷ es) key =
    let rest = leaf_find_position es key in if ltb k key then suc rest else 0

-- the test `pos < num_keys && keys[pos] == key`
unfoldable pub key_at : List Entry → ℕ → ℕ → Bool
key_at es pos key = elim (get_elem? es pos) [ none ↦ false | some e ↦ e.0 == key ]

-- the key stored first in a leaf, `keys[0]`
unfoldable pub first_key : List Entry → ℕ
first_key [] = 0
first_key (e ∷ es) = e.0

-- `alloc n` tells whether the n-th `calloc` of the insertion returns memory.
module _ (alloc : ℕ → Bool) where
  unfoldable pub split_leaf : List Entry → List Entry → ℕ → InsertResult
  split_leaf es temp n =
      let left_count = length temp / 2 in
      let right = drop left_count temp in
      if alloc n
      then record {
        node = leaf (take left_count temp);
        split = promoted (first_key right) (leaf right);
        inserted_new = true;
        allocated = suc n;
      }
      else record { node = leaf es; split = unsplit; inserted_new = false; allocated = suc n }

  unfoldable pub leaf_insert : List Entry → ℕ → ℕ → ℕ → InsertResult
  unfolding leaf_find_position key_at split_leaf first_key
  leaf_insert es key value n =
      let pos = leaf_find_position es key in
      if key_at es pos key
      then record {
        node = leaf (set es pos (key, value));
        split = unsplit;
        inserted_new = false;
        allocated = n;
      }
      else if ltb (length es) max_keys
      then record {
        node = leaf (insert_at pos (key, value) es);
        split = unsplit;
        inserted_new = true;
        allocated = n;
      }
      else split_leaf es (insert_at pos (key, value) es) n

-- the loop counts the leading keys that are at most `key`
unfoldable pub child_index_for_key : List ℕ → ℕ → ℕ
child_index_for_key [] key = 0
child_index_for_key (k ∷ ks) key =
    let rest = child_index_for_key ks key in if leb k key then suc rest else 0

-- `insert_at`, `take` and `drop` on the array of children
abbrev pub set_child : Children → ℕ → BpNode → Children
set_child nil i c = nil
set_child (child _ cs) zero c = child c cs
set_child (child c' cs) (suc i) c = child c' (set_child cs i c)

abbrev pub insert_child : ℕ → BpNode → Children → Children
insert_child zero c cs = child c cs
insert_child (suc i) c nil = child c nil
insert_child (suc i) c (child c' cs) = child c' (insert_child i c cs)

abbrev pub take_children : ℕ → Children → Children
take_children zero cs = nil
take_children (suc n) nil = nil
take_children (suc n) (child c cs) = child c (take_children n cs)

abbrev pub drop_children : ℕ → Children → Children
drop_children zero cs = cs
drop_children (suc n) nil = nil
drop_children (suc n) (child c cs) = drop_children n cs

unfoldable pub key_or_zero : List ℕ → ℕ → ℕ
key_or_zero ks i = Option.get_or (get_elem? ks i) 0

module _ (alloc : ℕ → Bool) where
  -- The keys and children with the new ones in place go back into the node, or into it and a new
  -- right sibling. Without memory for the sibling, the node keeps the keys and children it had.
  unfoldable pub split_internal : BpNode → List ℕ → Children → InsertResult → InsertResult
  unfolding key_or_zero
  split_internal old temp_keys temp_children r =
      let mid = length temp_keys / 2 in
      if alloc r.allocated
      then record {
        node = internal (take mid temp_keys) (take_children (suc mid) temp_children);
        split =
            promoted (key_or_zero temp_keys mid)
              (internal (drop (suc mid) temp_keys) (drop_children (suc mid) temp_children));
        inserted_new = r.inserted_new;
        allocated = suc r.allocated;
      }
      else record { node = old; split = unsplit; inserted_new = false; allocated = suc r.allocated }

  -- the node at hand takes in what the insertion into its child at `idx` has left behind
  unfoldable pub take_in : List ℕ → Children → ℕ → Split → InsertResult → InsertResult
  unfolding split_internal
  take_in ks cs idx unsplit r = record r { node = internal ks (set_child cs idx r.node) }
  take_in ks cs idx (promoted key right) r =
      let ks' = insert_at idx key ks in
      let cs' = insert_child (suc idx) right (set_child cs idx r.node) in
      if ltb (length ks) max_keys
      then record {
        node = internal ks' cs';
        split = unsplit;
        inserted_new = r.inserted_new;
        allocated = r.allocated;
      }
      else split_internal (internal ks (set_child cs idx r.node)) ks' cs' r

  unfoldable pub absorb_split : List ℕ → Children → ℕ → InsertResult → InsertResult
  unfolding take_in
  absorb_split ks cs idx r = take_in ks cs idx r.split r

  unfoldable mutual
    unfolding leaf_insert absorb_split child_index_for_key

    pub node_insert : BpNode → ℕ → ℕ → ℕ → InsertResult
    node_insert (leaf es) key value n = leaf_insert alloc es key value n
    node_insert (internal ks cs) key value n =
        let idx = child_index_for_key ks key in
        absorb_split ks cs idx (child_insert cs idx key value n)

    -- `node_insert(node->children[i], key, value)`
    pub child_insert : Children → ℕ → ℕ → ℕ → ℕ → InsertResult
    child_insert nil i key value n = record {
      node = leaf [];
      split = unsplit;
      inserted_new = false;
      allocated = n;
    }
    child_insert (child c cs) zero key value n = node_insert c key value n
    child_insert (child c cs) (suc i) key value n = child_insert cs i key value n

  -- the part of `bptree_insert` behind the insertion into the root
  unfoldable pub grow_root : ℕ → Split → InsertResult → BPlusTree × Bool
  grow_root size unsplit r =
      (record { root = some r.node; size = if r.inserted_new then suc size else size }, true)
  grow_root size (promoted key right) r =
      let size' = if r.inserted_new then suc size else size in
      if alloc r.allocated
      then (
        record { root = some (internal (key ∷ []) (child r.node (child right nil))); size = size' },
        true,
      )
      else (record { root = some r.node; size = size' }, false)

  unfoldable pub insert_into_root : ℕ → InsertResult → BPlusTree × Bool
  unfolding grow_root
  insert_into_root size r = grow_root size r.split r

  -- The Boolean is the returned status.
  unfoldable pub bptree_insert : BPlusTree → ℕ → ℕ → BPlusTree × Bool
  unfolding insert_into_root node_insert
  bptree_insert t key value = elim t.root [
    | none ↦
        (if alloc 0
          then insert_into_root t.size (node_insert (leaf []) key value 1)
          else (t, false))
    | some node ↦ insert_into_root t.size (node_insert node key value 0)
  ]

-- the value that goes to `*value_out`, if the key is found
unfoldable pub leaf_search : List Entry → ℕ → Option ℕ
unfolding leaf_find_position key_at
leaf_search es key =
    let pos = leaf_find_position es key in
    if key_at es pos key then Option.map (λ e. e.1) (get_elem? es pos) else none

unfoldable mutual
  unfolding leaf_search child_index_for_key

  pub node_search : BpNode → ℕ → Option ℕ
  node_search (leaf es) key = leaf_search es key
  node_search (internal ks cs) key = child_search cs (child_index_for_key ks key) key

  -- `node = node->children[i]`
  pub child_search : Children → ℕ → ℕ → Option ℕ
  child_search nil i key = none
  child_search (child c cs) zero key = node_search c key
  child_search (child c cs) (suc i) key = child_search cs i key

unfoldable pub bptree_search : BPlusTree → ℕ → Option ℕ
unfolding node_search
bptree_search t key = elim t.root [ none ↦ none | some node ↦ node_search node key ]
