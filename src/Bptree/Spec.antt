-- ===== src/Bptree/Spec.antt =====
-- What the tree of src/bptree.c promises: a finite map from keys to positions, as a list of entries
-- with ascending keys.
use tryo.Prelude.{
  ℕ, suc, ◌≤◌, ◌<◌, ◌≡◌, refl, Bool, true, false, Option, none, some, List, [], ◌∷◌, ◌++◌, arith,
  length, ltb, ◌==◌, if◌then◌else◌, ◌+◌,
}
use tryo.Bptree.{Entry}

-- the entry of `key` is replaced, or put where the order wants it
unfoldable pub insert : ℕ → ℕ → List Entry → List Entry
insert key value [] = (key, value) ∷ []
insert key value ((k, v) ∷ es) =
    let rest = insert key value es in
    if ltb k key
    then (k, v) ∷ rest
    else if k == key
    then (key, value) ∷ es
    else (key, value) ∷ (k, v) ∷ es

unfoldable pub lookup : ℕ → List Entry → Option ℕ
lookup key [] = none
lookup key ((k, v) ∷ es) = if k == key then some v else lookup key es

abbrev pub is_none : Option ℕ → Bool
is_none none = true
is_none (some v) = false

-- the keys ascend, from `lo` on and below `hi`
abbrev pub Sorted : ℕ → ℕ → List Entry → Type 0
Sorted lo hi [] = lo ≤ hi
Sorted lo hi ((k, v) ∷ es) = (lo ≤ k) × Sorted (suc k) hi es

pub Sorted-le : (lo hi : ℕ) (es : List Entry) → Sorted lo hi es → lo ≤ hi
Sorted-le lo hi [] s = s
Sorted-le lo hi ((k, v) ∷ es) s = omega (arith, Sorted-le (suc k) hi es s.1)

pub Sorted-weaken :
    (lo lo' hi hi' : ℕ) (es : List Entry)
    → lo' ≤ lo
    → hi ≤ hi'
    → Sorted lo hi es
    → Sorted lo' hi' es
Sorted-weaken lo lo' hi hi' [] p q s = omega arith
Sorted-weaken lo lo' hi hi' ((k, v) ∷ es) p q s =
    (omega arith, Sorted-weaken (suc k) (suc k) hi hi' es (omega arith) q s.1)

pub Sorted-append :
    (lo m hi : ℕ) (xs ys : List Entry) → Sorted lo m xs → Sorted m hi ys → Sorted lo hi (xs ++ ys)
Sorted-append lo m hi [] ys s t = Sorted-weaken m lo hi hi ys s (omega arith) t
Sorted-append lo m hi ((k, v) ∷ xs) ys s t = (s.0, Sorted-append (suc k) m hi xs ys s.1 t)

module _ (key value : ℕ) where
  pub insert-Sorted :
      (lo hi : ℕ) (es : List Entry)
      → lo ≤ key
      → key < hi
      → Sorted lo hi es
      → Sorted lo hi (insert key value es)
  unfolding insert
  insert-Sorted lo hi [] p q s = (p, q)
  insert-Sorted lo hi ((k, v) ∷ es) p q s = ground (arith, insert-Sorted (suc k) hi es)

  -- an insertion stays in the part of the list whose keys surround the key
  pub insert-append_left :
      (lo m hi : ℕ) (xs ys : List Entry)
      → key < m
      → Sorted lo m xs
      → Sorted m hi ys
      → insert key value (xs ++ ys) ≡ insert key value xs ++ ys
  unfolding insert
  insert-append_left lo m hi [] [] p s t = refl
  insert-append_left lo m hi [] ((k, v) ∷ ys) p s t = ground arith
  insert-append_left lo m hi ((k, v) ∷ xs) ys p s t =
      ground (arith, insert-append_left (suc k) m hi xs ys p s.1 t)

  pub insert-append_right :
      (lo m : ℕ) (xs ys : List Entry)
      → m ≤ key
      → Sorted lo m xs
      → insert key value (xs ++ ys) ≡ xs ++ insert key value ys
  unfolding insert
  insert-append_right lo m [] ys p s = refl
  insert-append_right lo m ((k, v) ∷ xs) ys p s =
      ground (arith, insert-append_right (suc k) m xs ys p s.1, Sorted-le (suc k) m xs s.1)

  pub lookup-insert :
      (key' lo hi : ℕ) (es : List Entry)
      → Sorted lo hi es
      → lookup key' (insert key value es) ≡ (if key == key' then some value else lookup key' es)
  unfolding insert lookup
  lookup-insert key' lo hi [] s = refl
  lookup-insert key' lo hi ((k, v) ∷ es) s = ground (arith, lookup-insert key' (suc k) hi es s.1)

pub lookup-out_of_range_low :
    (key lo hi : ℕ) (es : List Entry) → key < lo → Sorted lo hi es → lookup key es ≡ none
unfolding lookup
lookup-out_of_range_low key lo hi [] p s = refl
lookup-out_of_range_low key lo hi ((k, v) ∷ es) p s =
    ground (arith, lookup-out_of_range_low key (suc k) hi es (omega arith) s.1)

pub lookup-append_left :
    (key lo m hi : ℕ) (xs ys : List Entry)
    → key < m
    → Sorted m hi ys
    → lookup key (xs ++ ys) ≡ lookup key xs
unfolding lookup
lookup-append_left key lo m hi [] ys p t = lookup-out_of_range_low key m hi ys p t
lookup-append_left key lo m hi ((k, v) ∷ xs) ys p t =
    ground (arith, lookup-append_left key lo m hi xs ys p t)

pub lookup-append_right :
    (key lo m : ℕ) (xs ys : List Entry)
    → m ≤ key
    → Sorted lo m xs
    → lookup key (xs ++ ys) ≡ lookup key ys
unfolding lookup
lookup-append_right key lo m [] ys p s = refl
lookup-append_right key lo m ((k, v) ∷ xs) ys p s =
    ground (arith, lookup-append_right key (suc k) m xs ys p s.1, Sorted-le (suc k) m xs s.1)

-- an insertion adds one entry exactly when the key had none
pub length-insert :
    (key value lo hi : ℕ) (es : List Entry)
    → Sorted lo hi es
    → length (insert key value es) ≡ (if is_none (lookup key es) then length es + 1 else length es)
unfolding insert lookup
length-insert key value lo hi [] s = omega arith
length-insert key value lo hi ((k, v) ∷ es) s =
    ground
      (arith, length-insert key value (suc k) hi es s.1, lookup-out_of_range_low key (suc k) hi es)
