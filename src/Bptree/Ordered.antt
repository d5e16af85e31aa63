-- ===== src/Bptree/Ordered.antt =====
-- The order of the keys in a tree, and the entries that it holds from left to right.
use tryo.Prelude.{
  ℕ, zero, suc, ◌≤◌, ◌<◌, ◌≡◌, refl, List, [], ◌∷◌, ◌++◌, arith, length, take, drop, append-nil,
  append_assoc,
}
use tryo.Bptree.{
  Entry, BpNode, leaf, internal, Children, nil, child, take_children, drop_children, key_or_zero,
}
use tryo.Bptree.Spec.{Sorted, Sorted-weaken, Sorted-append, Sorted-le}

unfoldable mutual
  pub entries : BpNode → List Entry
  entries (leaf es) = es
  entries (internal ks cs) = child_entries cs

  pub child_entries : Children → List Entry
  child_entries nil = []
  child_entries (child c cs) = entries c ++ child_entries cs

-- Every key lies from `lo` on and below `hi`; the keys of a child lie between the separators round
-- it; and there is one child more than separators.
unfoldable mutual
  pub IsOrdered : BpNode → ℕ → ℕ → Type 0
  IsOrdered (leaf es) lo hi = Sorted lo hi es
  IsOrdered (internal ks cs) lo hi = AreOrdered cs ks lo hi

  pub AreOrdered : Children → List ℕ → ℕ → ℕ → Type 0
  AreOrdered nil ks lo hi = ⊥
  AreOrdered (child c cs) [] lo hi = IsOrdered c lo hi × (cs ≡ nil)
  AreOrdered (child c cs) (k ∷ ks) lo hi = IsOrdered c lo k × AreOrdered cs ks k hi

mutual
  unfolding IsOrdered

  pub IsOrdered-le : (node : BpNode) (lo hi : ℕ) → IsOrdered node lo hi → lo ≤ hi
  IsOrdered-le (leaf es) lo hi o = Sorted-le lo hi es o
  IsOrdered-le (internal ks cs) lo hi o = AreOrdered-le cs ks lo hi o

  pub AreOrdered-le : (cs : Children) (ks : List ℕ) (lo hi : ℕ) → AreOrdered cs ks lo hi → lo ≤ hi
  AreOrdered-le nil ks lo hi o = absurd o
  AreOrdered-le (child c cs) [] lo hi o = IsOrdered-le c lo hi o.0
  AreOrdered-le (child c cs) (k ∷ ks) lo hi o =
      omega (arith, IsOrdered-le c lo k o.0, AreOrdered-le cs ks k hi o.1)

-- the upper bound may grow
mutual
  unfolding IsOrdered

  pub IsOrdered-widen :
      (node : BpNode) (lo hi hi' : ℕ) → hi ≤ hi' → IsOrdered node lo hi → IsOrdered node lo hi'
  IsOrdered-widen (leaf es) lo hi hi' h o = Sorted-weaken lo lo hi hi' es (omega arith) h o
  IsOrdered-widen (internal ks cs) lo hi hi' h o = AreOrdered-widen cs ks lo hi hi' h o

  AreOrdered-widen :
      (cs : Children) (ks : List ℕ) (lo hi hi' : ℕ)
      → hi ≤ hi'
      → AreOrdered cs ks lo hi
      → AreOrdered cs ks lo hi'
  AreOrdered-widen nil ks lo hi hi' h o = o
  AreOrdered-widen (child c cs) [] lo hi hi' h o = (IsOrdered-widen c lo hi hi' h o.0, o.1)
  AreOrdered-widen (child c cs) (k ∷ ks) lo hi hi' h o =
      (o.0, AreOrdered-widen cs ks k hi hi' h o.1)

-- an ordered tree holds its entries in ascending order
mutual
  unfolding IsOrdered entries

  pub entries-Sorted :
      (node : BpNode) (lo hi : ℕ) → IsOrdered node lo hi → Sorted lo hi (entries node)
  entries-Sorted (leaf es) lo hi o = o
  entries-Sorted (internal ks cs) lo hi o = child_entries-Sorted cs ks lo hi o

  pub child_entries-Sorted :
      (cs : Children) (ks : List ℕ) (lo hi : ℕ)
      → AreOrdered cs ks lo hi
      → Sorted lo hi (child_entries cs)
  child_entries-Sorted nil ks lo hi o = absurd o
  child_entries-Sorted (child c cs) [] lo hi o = rw (o.1, append-nil) (entries-Sorted c lo hi o.0)
  child_entries-Sorted (child c cs) (k ∷ ks) lo hi o =
      Sorted-append lo k hi (entries c) (child_entries cs) (entries-Sorted c lo k o.0)
        (child_entries-Sorted cs ks k hi o.1)

-- cutting an internal node at a separator
pub AreOrdered-cut :
    (n : ℕ) (cs : Children) (ks : List ℕ) (lo hi : ℕ)
    → n < length ks
    → AreOrdered cs ks lo hi
    → AreOrdered (take_children (suc n) cs) (take n ks) lo (key_or_zero ks n)
      × AreOrdered (drop_children (suc n) cs) (drop (suc n) ks) (key_or_zero ks n) hi
unfolding IsOrdered key_or_zero
AreOrdered-cut n nil ks lo hi p o = absurd o
AreOrdered-cut n (child c cs) [] lo hi p o = absurd (omega arith)
AreOrdered-cut zero (child c cs) (k ∷ ks) lo hi p o = ((o.0, refl), o.1)
AreOrdered-cut (suc n) (child c cs) (k ∷ ks) lo hi p o =
    let (l, r) = AreOrdered-cut n cs ks k hi (omega arith) o.1 in ((o.0, l), r)

pub child_entries-cut :
    (n : ℕ) (cs : Children)
    → child_entries (take_children n cs) ++ child_entries (drop_children n cs) ≡ child_entries cs
unfolding entries
child_entries-cut zero cs = refl
child_entries-cut (suc n) nil = refl
child_entries-cut (suc n) (child c cs) = rw (append_assoc, child_entries-cut n cs)
