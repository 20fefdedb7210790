-- ===== src/Node/Put/Del.antt =====
-- The search in a node of src/node.rs, and `del` and `child_index`, on keys in order.
use mathlib.Core.Path.{sym}
use bbolt_rs.Prelude.{
  ℕ, ◌≡◌, refl, ap, subst, ◌∙◌, ◌⊎◌, inl, inr, true, false, none, some, List, [], ◌∷◌,
  if◌then◌else◌, done, panic, get_elem?, Bool-cases,
}
use bbolt_rs.Node.{INode}
use bbolt_rs.Node.Keys.{
  less, greater, cmp, is_equal, Ordering-cases, cmp_equal, cmp_less, cmp_greater, KeysAbove,
  HasSortedKeys, KeysAbove-mono, lookup, lookup-above,
}
use bbolt_rs.Node.Put.{
  NodeW, Place, exact, closest, shift, search, remove_at, del_at, del, expect_exact, child_index,
}

-- What a place tells of the entries: an entry with the key stands there, or there is none.
Found : List ℕ → List INode → Place → Type 0
Found key xs (exact i) =
    (x : INode) × (get_elem? xs i ≡ some x) × (x.key ≡ key) × (lookup key xs ≡ some x)
Found key xs (closest i) = lookup key xs ≡ none

Found-shift :
    (key : List ℕ) (x : INode) (xs : List INode) (r : Place)
    → is_equal (cmp x.key key) ≡ false
    → Found key xs r
    → Found key (x ∷ xs) (shift r)
unfolding Found lookup
Found-shift key x xs (exact i) e (y, at, its, l) = (y, at, its, rw e l)
Found-shift key x xs (closest i) e l = rw e l

search-Found : (key : List ℕ) (xs : List INode) → HasSortedKeys xs → Found key xs (search key xs)
unfolding Found search lookup
search-Found key [] h = refl
search-Found key (x ∷ xs) (above, h) = elim (Ordering-cases (cmp x.key key)) [
  | inl lower ↦
      rw lower (Found-shift key x xs (search key xs) (ap is_equal lower) (search-Found key xs h))
  | inr (inl same) ↦ rw same (x, refl, cmp_equal x.key key same, rw same refl)
  | inr (inr upper) ↦
      let under : cmp key x.key ≡ less = cmp_greater x.key key upper in
      rw upper (lookup-above key (x ∷ xs) (under, KeysAbove-mono key x.key xs under above))
]

-- On a node with its keys in order, `child_index` finds the place of the entry with the key, and
-- panics if there is none.
pub child_index_lem :
    (n : NodeW) (key : List ℕ)
    → HasSortedKeys n.inodes
    → ((i : ℕ) × (x : INode) × (child_index n key ≡ done i)
        × (get_elem? n.inodes i ≡ some x)
        × (lookup key n.inodes ≡ some x))
      ⊎ ((child_index n key ≡ panic) × (lookup key n.inodes ≡ none))
unfolding child_index Found
child_index_lem n key h = by_place (search key n.inodes) (search-Found key n.inodes h)
  where
    by_place :
        (r : Place)
        → Found key n.inodes r
        → ((i : ℕ) × (x : INode) × (expect_exact r ≡ done i)
            × (get_elem? n.inodes i ≡ some x)
            × (lookup key n.inodes ≡ some x))
          ⊎ ((expect_exact r ≡ panic) × (lookup key n.inodes ≡ none))
    by_place (exact i) (x, at, its, l) = inl (i, x, refl, at, l)
    by_place (closest i) l = inr (refl, l)

abbrev removed : Place → List INode → List INode
removed (exact i) xs = remove_at i xs
removed (closest i) xs = xs

removed-shift :
    (r : Place) (x : INode) (xs : List INode) → removed (shift r) (x ∷ xs) ≡ x ∷ removed r xs
removed-shift (exact i) x xs = refl
removed-shift (closest i) x xs = refl

KeysAbove-removed :
    (a key : List ℕ) (xs : List INode) → KeysAbove a xs → KeysAbove a (removed (search key xs) xs)
unfolding search
KeysAbove-removed a key [] h = tt
KeysAbove-removed a key (x ∷ xs) (l, h) = elim (Ordering-cases (cmp x.key key)) [
  | inl lower ↦ rw (lower, removed-shift (search key xs) x xs) (l, KeysAbove-removed a key xs h)
  | inr (inl same) ↦ rw same h
  | inr (inr upper) ↦ rw upper (l, h)
]

removed-HasSortedKeys :
    (key : List ℕ) (xs : List INode) → HasSortedKeys xs → HasSortedKeys (removed (search key xs) xs)
unfolding search
removed-HasSortedKeys key [] h = tt
removed-HasSortedKeys key (x ∷ xs) (above, h) = elim (Ordering-cases (cmp x.key key)) [
  | inl lower ↦
      rw (lower, removed-shift (search key xs) x xs)
        (KeysAbove-removed x.key key xs above, removed-HasSortedKeys key xs h)
  | inr (inl same) ↦ rw same h
  | inr (inr upper) ↦ rw upper (above, h)
]

-- No entry is found under a key below all of them, or under another key what was found before.
nothing_above :
    (key k : List ℕ) (xs : List INode)
    → KeysAbove key xs
    → lookup k xs ≡ (if is_equal (cmp key k) then none else lookup k xs)
nothing_above key k xs above = elim (Ordering-cases (cmp key k)) [
  | inl e ↦ rw e refl
  | inr (inl e) ↦
      rw e (subst (λ z. lookup z xs ≡ none) (cmp_equal key k e) (lookup-above key xs above))
  | inr (inr e) ↦ rw e refl
]

lookup-removed :
    (key k : List ℕ) (xs : List INode)
    → HasSortedKeys xs
    → lookup k (removed (search key xs) xs) ≡ (if is_equal (cmp key k) then none else lookup k xs)
unfolding search lookup
lookup-removed key k [] h = elim (Bool-cases (is_equal (cmp key k))) [
  | inl e ↦ rw e refl
  | inr e ↦ rw e refl
]
lookup-removed key k (x ∷ xs) (above, h) = elim (Ordering-cases (cmp x.key key)) [
  | inl lower ↦
      rw (lower, removed-shift (search key xs) x xs)
        (elim (Ordering-cases (cmp x.key k)) [
          | inl e ↦ rw e (lookup-removed key k xs h)
          | inr (inl e) ↦
              let other : cmp key k ≡ greater =
                subst (λ z. cmp key z ≡ greater) (cmp_equal x.key k e) (cmp_less x.key key lower) in
              rw (e, other) refl
          | inr (inr e) ↦ rw e (lookup-removed key k xs h)
        ])
  | inr (inl same) ↦ rw same (elim (Bool-cases (is_equal (cmp key k))) [
    | inl e ↦ rw e (
        nothing_above key k xs (subst (λ z. KeysAbove z xs) (cmp_equal x.key key same) above)
        ∙ rw e refl)
    | inr e ↦
        let old : is_equal (cmp x.key k) ≡ false =
          subst (λ z. is_equal (cmp z k) ≡ false) (sym (cmp_equal x.key key same)) e in
        rw (e, old) refl
  ])
  | inr (inr upper) ↦
      let under : cmp key x.key ≡ less = cmp_greater x.key key upper in
      rw upper (nothing_above key k (x ∷ xs) (under, KeysAbove-mono key x.key xs under above))
]

-- On a node with its keys in order, `del` leaves them in order, and a search afterwards finds nothing
-- under the key and under any other key what it found before. Without an entry under the key the
-- node stays as it is, and with one it is marked as unbalanced.
pub del-lookup :
    (n : NodeW) (key : List ℕ)
    → HasSortedKeys n.inodes
    → HasSortedKeys (del n key).inodes
      × ((k : List ℕ)
          → lookup k (del n key).inodes
            ≡ (if is_equal (cmp key k) then none else lookup k n.inodes))
      × (((x : INode) × (lookup key n.inodes ≡ some x) × ((del n key).is_unbalanced ≡ true))
          ⊎ ((lookup key n.inodes ≡ none) × (del n key ≡ n)))
unfolding del Found
del-lookup n key h = (
  rw its (removed-HasSortedKeys key n.inodes h),
  λ k. rw its (lookup-removed key k n.inodes h),
  by_place (search key n.inodes) (search-Found key n.inodes h),
)
  where
    same : (r : Place) → (del_at r n).inodes ≡ removed r n.inodes
    same (exact i) = refl
    same (closest i) = refl

    its : (del_at (search key n.inodes) n).inodes ≡ removed (search key n.inodes) n.inodes
    its = same (search key n.inodes)

    by_place :
        (r : Place)
        → Found key n.inodes r
        → ((x : INode) × (lookup key n.inodes ≡ some x) × ((del_at r n).is_unbalanced ≡ true))
          ⊎ ((lookup key n.inodes ≡ none) × (del_at r n ≡ n))
    by_place (exact i) (x, at, same_key, l) = inl (x, l, refl)
    by_place (closest i) l = inr (l, refl)
