-- ===== src/Cursor/Order.antt =====
-- Trees with their keys in order, and the child that the search of src/cursor.rs descends to.
use mathlib.Core.Path.{sym}
use bbolt_rs.Prelude.{
  ℕ, zero, suc, ◌≤◌, ◌<◌, ◌≡◌, refl, ap, subst, ◌∙◌, ◌⊎◌, inl, inr, true, some, List, [], ◌∷◌, ◌++◌,
  arith, get_elem?, length, drop,
}
use bbolt_rs.Node.{INode}
use bbolt_rs.Node.Keys.{
  less, cmp, Ordering-cases, cmp_equal, cmp_less, cmp_greater, cmp_trans, KeysAbove, HasSortedKeys,
}
use bbolt_rs.Node.Put.{Place, exact, closest, shift, at_first, search}
use bbolt_rs.Store.{PageNode, Memory, Bucket, page_node}
use bbolt_rs.Cursor.{is_leaf_of, child_place, partition_point}
use bbolt_rs.Cursor.View.{elems}
use bbolt_rs.Cursor.Path.{concat, concat-append, child_leaves, all_leaves, tree_leaves, AllChildren}

abbrev pub KeysBelow : List ℕ → List INode → Type 0
KeysBelow key [] = Unit {0}
KeysBelow key (x ∷ xs) = (cmp x.key key ≡ less) × KeysBelow key xs

-- All keys are the given one or greater.
abbrev pub KeysFrom : List ℕ → List INode → Type 0
KeysFrom key [] = Unit {0}
KeysFrom key (x ∷ xs) = ((key ≡ x.key) ⊎ (cmp key x.key ≡ less)) × KeysFrom key xs

-- The entries from the first on whose key is not smaller.
unfoldable pub drop_less : List ℕ → List INode → List INode
drop_less key [] = []
drop_less key (x ∷ xs) =
    let rest = drop_less key xs in elim (cmp x.key key) [ less ↦ rest | _ ↦ x ∷ xs ]

pub KeysFrom-above :
    (a k : List ℕ) (xs : List INode) → cmp a k ≡ less → KeysFrom k xs → KeysAbove a xs
KeysFrom-above a k [] l h = tt
KeysFrom-above a k (x ∷ xs) l (inl e, h) = (rw (← e) l, KeysFrom-above a k xs l h)
KeysFrom-above a k (x ∷ xs) l (inr lt, h) = (cmp_trans a k x.key l lt, KeysFrom-above a k xs l h)

pub KeysBelow-mono :
    (k a : List ℕ) (xs : List INode) → (cmp k a ≡ less) ⊎ (k ≡ a) → KeysBelow k xs → KeysBelow a xs
KeysBelow-mono k a [] l h = tt
KeysBelow-mono k a (x ∷ xs) (inl l) (lx, h) =
    (cmp_trans x.key k a lx l, KeysBelow-mono k a xs (inl l) h)
KeysBelow-mono k a (x ∷ xs) (inr e) (lx, h) =
    (subst (λ z. cmp x.key z ≡ less) e lx, KeysBelow-mono k a xs (inr e) h)

pub KeysAbove-append :
    (a : List ℕ) (xs ys : List INode) → KeysAbove a xs → KeysAbove a ys → KeysAbove a (xs ++ ys)
KeysAbove-append a [] ys h k = k
KeysAbove-append a (x ∷ xs) ys (l, h) k = (l, KeysAbove-append a xs ys h k)

pub drop_less-below :
    (key : List ℕ) (xs ys : List INode)
    → KeysBelow key xs
    → drop_less key (xs ++ ys) ≡ drop_less key ys
unfolding drop_less
drop_less-below key [] ys h = refl
drop_less-below key (x ∷ xs) ys (l, h) = rw (drop_less, l) (drop_less-below key xs ys h)

pub drop_less-above : (key : List ℕ) (ys : List INode) → KeysAbove key ys → drop_less key ys ≡ ys
unfolding drop_less
drop_less-above key [] h = refl
drop_less-above key (y ∷ ys) (l, h) = rw (drop_less, cmp_less key y.key l) refl

pub drop_less-append :
    (key : List ℕ) (xs ys : List INode)
    → KeysAbove key ys
    → drop_less key (xs ++ ys) ≡ drop_less key xs ++ ys
unfolding drop_less
drop_less-append key [] ys h = drop_less-above key ys h
drop_less-append key (x ∷ xs) ys h = elim (Ordering-cases (cmp x.key key)) [
  | inl e ↦ rw (drop_less, e) (drop_less-append key xs ys h)
  | inr (inl e) ↦ rw (drop_less, e) refl
  | inr (inr e) ↦ rw (drop_less, e) refl
]

-- On sorted entries, the partition point is where `drop_less` begins.
pub drop-partition_point :
    (key : List ℕ) (xs : List INode)
    → (drop (partition_point key xs) xs ≡ drop_less key xs) × (partition_point key xs ≤ length xs)
unfolding drop_less partition_point
drop-partition_point key [] = (refl, omega arith)
drop-partition_point key (x ∷ xs) =
    let (same, within) = drop-partition_point key xs in
    elim (Ordering-cases (cmp x.key key)) [
      | inl e ↦ rw (drop_less, partition_point, e) (same, omega (arith, within))
      | inr (inl e) ↦ rw (drop_less, partition_point, e) (refl, omega arith)
      | inr (inr e) ↦ rw (drop_less, partition_point, e) (refl, omega arith)
    ]

child_place-shift : (r : Place) → child_place (shift (shift r)) ≡ suc (child_place (shift r))
child_place-shift (exact i) = refl
child_place-shift (closest i) = refl

module _ (b : Bucket) (m : Memory) where
  -- The keys of a branch separate the entries of its children.
  abbrev pub Separated : ℕ → List INode → Type 0
  Separated d [] = Unit {0}
  Separated d (x ∷ []) = Unit {0}
  Separated d (x ∷ y ∷ xs) =
      KeysBelow y.key (concat (child_leaves b m (tree_leaves b m d) (page_node b m x.pgid)))
      × KeysFrom y.key (concat (all_leaves b m (tree_leaves b m d) (y ∷ xs)))
      × Separated d (y ∷ xs)

  -- A tree whose keys are in order, in each node and across nodes.
  abbrev pub IsOrdered : ℕ → PageNode → Type 0
  IsOrdered zero pn = HasSortedKeys (elems b m pn)
  IsOrdered (suc d) pn =
      HasSortedKeys (elems b m pn)
      × ((is_leaf_of b m pn ≡ true)
          ⊎ (Separated d (elems b m pn) × AllChildren b m (IsOrdered d) (elems b m pn)))

  -- The child to descend to: what stands before it is smaller than the key, and what stands behind
  -- it is greater.
  abbrev pub IsChildFor : ℕ → List ℕ → List INode → ℕ → Type 0
  IsChildFor d key xs i =
      (x : INode) × (get_elem? xs i ≡ some x)
      × (i < length xs)
      × KeysAbove key (concat (all_leaves b m (tree_leaves b m d) (drop (suc i) xs)))
      × (drop_less key (concat (all_leaves b m (tree_leaves b m d) xs))
          ≡ drop_less key (
              concat (child_leaves b m (tree_leaves b m d) (page_node b m x.pgid))
              ++ concat (all_leaves b m (tree_leaves b m d) (drop (suc i) xs))))

  first_child :
      (d : ℕ) (key : List ℕ) (x : INode) (xs : List INode)
      → KeysAbove key (concat (all_leaves b m (tree_leaves b m d) xs))
      → IsChildFor d key (x ∷ xs) 0
  first_child d key x xs above = (
    x,
    refl,
    omega arith,
    above,
    ap (drop_less key) (
        concat-append (child_leaves b m (tree_leaves b m d) (page_node b m x.pgid))
          (all_leaves b m (tree_leaves b m d) xs)),
  )

  rest_above :
      (d : ℕ) (key : List ℕ) (x : INode) (xs : List INode)
      → HasSortedKeys (x ∷ xs)
      → Separated d (x ∷ xs)
      → (cmp key x.key ≡ less) ⊎ (key ≡ x.key)
      → KeysAbove key (concat (all_leaves b m (tree_leaves b m d) xs))
  rest_above d key x [] sorted sep le = tt
  rest_above d key x (y ∷ xs) ((l, _), _) (_, from_y, _) (inl le) =
      KeysFrom-above key y.key _ (cmp_trans key x.key y.key le l) from_y
  rest_above d key x (y ∷ xs) ((l, _), _) (_, from_y, _) (inr e) =
      KeysFrom-above key y.key _ (subst (λ z. cmp z y.key ≡ less) (sym e) l) from_y

  later_child :
      (d : ℕ) (key : List ℕ) (x : INode) (xs : List INode) (i : ℕ)
      → KeysBelow key (concat (child_leaves b m (tree_leaves b m d) (page_node b m x.pgid)))
      → IsChildFor d key xs i
      → IsChildFor d key (x ∷ xs) (suc i)
  later_child d key x xs i below (c, got, inside, above, same) = (
    c,
    got,
    omega (arith, inside),
    above,
    ap (drop_less key) (
          concat-append (child_leaves b m (tree_leaves b m d) (page_node b m x.pgid))
            (all_leaves b m (tree_leaves b m d) xs))
        ∙ drop_less-below key _ _ below
        ∙ same,
  )

  pub search-IsChildFor :
      (d : ℕ) (key : List ℕ) (x : INode) (xs : List INode)
      → HasSortedKeys (x ∷ xs)
      → Separated d (x ∷ xs)
      → IsChildFor d key (x ∷ xs) (child_place (search key (x ∷ xs)))
  unfolding search
  search-IsChildFor d key x [] sorted sep = elim (Ordering-cases (cmp x.key key)) [
    | inl e ↦ rw e (first_child d key x [] tt)
    | inr (inl e) ↦ rw e (first_child d key x [] tt)
    | inr (inr e) ↦ rw e (first_child d key x [] tt)
  ]
  search-IsChildFor d key x (y ∷ xs) (above, sorted) (below, from_y, sep) =
      elim (Ordering-cases (cmp x.key key)) [
        | inl e ↦ elim (Ordering-cases (cmp y.key key)) [
          | inl e' ↦
              rw (e, e', child_place-shift (search key xs))
                (later_child d key x (y ∷ xs) _ (KeysBelow-mono y.key key _ (inl e') below) (
                  subst (λ o. IsChildFor d key (y ∷ xs) (child_place (at_first o (search key xs))))
                    e' (search-IsChildFor d key y xs sorted sep)))
          | inr (inl e') ↦
              rw (e, e')
                (later_child d key x (y ∷ xs) 0
                  (KeysBelow-mono y.key key _ (inr (cmp_equal y.key key e')) below)
                  (subst (λ o. IsChildFor d key (y ∷ xs) (child_place (at_first o (search key xs))))
                    e' (search-IsChildFor d key y xs sorted sep)))
          | inr (inr e') ↦
              rw (e, e')
                (first_child d key x (y ∷ xs)
                  (KeysFrom-above key y.key _ (cmp_greater y.key key e') from_y))
        ]
        | inr (inl e) ↦ rw e (
            first_child d key x (y ∷ xs) (
              rest_above d key x (y ∷ xs) (above, sorted) (below, from_y, sep)
                (inr (sym (cmp_equal x.key key e)))))
        | inr (inr e) ↦ rw e (
            first_child d key x (y ∷ xs) (
              rest_above d key x (y ∷ xs) (above, sorted) (below, from_y, sep)
                (inl (cmp_greater x.key key e))))
      ]
