-- ===== src/Node/Put/Lookup.antt =====
-- `put` and `del` of src/node.rs on a node with its keys in order: what a later search finds.
use mathlib.Core.Path.{sym}
use bbolt_rs.Prelude.{
  ℕ, zero, suc, Option, none, ◌<◌, ◌≡◌, refl, subst, inl, inr, false, some, List, [], ◌∷◌, arith,
  leb, if◌then◌else◌, done, Bool-cases,
}
use bbolt_rs.Node.{INode}
use bbolt_rs.Node.Keys.{
  less, greater, cmp, is_equal, Ordering-cases, cmp_equal, cmp_less, cmp_greater, KeysAbove,
  HasSortedKeys, KeysAbove-mono, lookup, lookup-above,
}
use bbolt_rs.Node.Put.{NodeW, Place, exact, closest, shift, search, place, is_empty, put}

place-shift :
    (r : Place) (new x : INode) (xs : List INode)
    → place (shift r) new (x ∷ xs) ≡ x ∷ place r new xs
place-shift (exact i) new x xs = refl
place-shift (closest i) new x xs = refl

KeysAbove-place :
    (a : List ℕ) (new : INode) (xs : List INode)
    → cmp a new.key ≡ less
    → KeysAbove a xs
    → KeysAbove a (place (search new.key xs) new xs)
unfolding search
KeysAbove-place a new [] l h = (l, tt)
KeysAbove-place a new (x ∷ xs) l (lx, h) = elim (Ordering-cases (cmp x.key new.key)) [
  | inl lower ↦
      rw (lower, place-shift (search new.key xs) new x xs) (lx, KeysAbove-place a new xs l h)
  | inr (inl same) ↦ rw same (l, h)
  | inr (inr upper) ↦ rw upper (l, (lx, h))
]

place-HasSortedKeys :
    (new : INode) (xs : List INode)
    → HasSortedKeys xs
    → HasSortedKeys (place (search new.key xs) new xs)
unfolding search
place-HasSortedKeys new [] h = (tt, tt)
place-HasSortedKeys new (x ∷ xs) (above, h) = elim (Ordering-cases (cmp x.key new.key)) [
  | inl lower ↦
      rw (lower, place-shift (search new.key xs) new x xs)
        (KeysAbove-place x.key new xs lower above, place-HasSortedKeys new xs h)
  | inr (inl same) ↦ rw same (subst (λ k. KeysAbove k xs) (cmp_equal x.key new.key same) above, h)
  | inr (inr upper) ↦
      let under : cmp new.key x.key ≡ less = cmp_greater x.key new.key upper in
      rw upper ((under, KeysAbove-mono new.key x.key xs under above), (above, h))
]

lookup-place :
    (new : INode) (xs : List INode) (k : List ℕ)
    → HasSortedKeys xs
    → lookup k (place (search new.key xs) new xs)
      ≡ (if is_equal (cmp new.key k) then some new else lookup k xs)
unfolding search lookup
lookup-place new [] k h = refl
lookup-place new (x ∷ xs) k (above, h) = elim (Ordering-cases (cmp x.key new.key)) [
  | inl lower ↦
      rw (lower, place-shift (search new.key xs) new x xs)
        (elim (Ordering-cases (cmp x.key k)) [
          | inl e ↦ rw e (lookup-place new xs k h)
          | inr (inl e) ↦
              let other : cmp new.key k ≡ greater =
                subst (λ z. cmp new.key z ≡ greater) (cmp_equal x.key k e)
                  (cmp_less x.key new.key lower) in
              rw (e, other) refl
          | inr (inr e) ↦ rw e (lookup-place new xs k h)
        ])
  | inr (inl same) ↦ rw same (elim (Bool-cases (is_equal (cmp new.key k))) [
    | inl e ↦ rw e refl
    | inr e ↦
        let old : is_equal (cmp x.key k) ≡ false =
          subst (λ z. is_equal (cmp z k) ≡ false) (sym (cmp_equal x.key new.key same)) e in
        rw (e, old) refl
  ])
  | inr (inr upper) ↦ rw upper refl
]

-- The entry at the place that a search gave, if it was the place of the key.
abbrev pub entry_at_place : Place → List INode → Option INode
entry_at_place (closest i) xs = none
entry_at_place (exact i) [] = none
entry_at_place (exact zero) (x ∷ xs) = some x
entry_at_place (exact (suc i)) (x ∷ xs) = entry_at_place (exact i) xs

entry_at_place-shift :
    (r : Place) (x : INode) (xs : List INode)
    → entry_at_place (shift r) (x ∷ xs) ≡ entry_at_place r xs
entry_at_place-shift (exact i) x xs = refl
entry_at_place-shift (closest i) x xs = refl

-- What the search of the code finds.
abbrev pub found : List ℕ → List INode → Option INode
found key xs = entry_at_place (search key xs) xs

found-lookup : (key : List ℕ) (xs : List INode) → HasSortedKeys xs → found key xs ≡ lookup key xs
unfolding search lookup
found-lookup key [] h = refl
found-lookup key (x ∷ xs) (above, h) = elim (Ordering-cases (cmp x.key key)) [
  | inl lower ↦ rw (lower, entry_at_place-shift (search key xs) x xs) (found-lookup key xs h)
  | inr (inl same) ↦ rw same refl
  | inr (inr upper) ↦
      rw upper (
        sym (lookup-above key xs (KeysAbove-mono key x.key xs (cmp_greater x.key key upper) above)))
]

-- The node as a map after `put`.
pub put-lookup :
    (high_water : ℕ) (n : NodeW) (key value : List ℕ) (pgid flags : ℕ)
    → HasSortedKeys n.inodes
    → pgid < high_water
    → is_empty key ≡ false
    → (m : NodeW) × (put high_water n key key value pgid flags ≡ done m)
      × HasSortedKeys m.inodes
      × ((k : List ℕ)
          → lookup k m.inodes ≡ (
              if is_equal (cmp key k)
              then some (record { flags = flags; pgid = pgid; key = key; value = value })
              else lookup k n.inodes))
unfolding put
put-lookup high_water n key value pgid flags sorted below some_key =
    let new : INode = record { flags = flags; pgid = pgid; key = key; value = value } in
    let low : leb high_water pgid ≡ false = ground arith in
    (
      record n { inodes = place (search key n.inodes) new n.inodes },
      rw (low, some_key) refl,
      place-HasSortedKeys new n.inodes sorted,
      λ k. lookup-place new n.inodes k sorted,
    )

-- On a node with its keys in order, `put` of an entry under its own key, one that is not empty, with a
-- page id below the high water mark ends without a panic and leaves the keys in order. A search of
-- the node (`search`, as `put` itself does it) then finds the new entry under its key, and under any
-- other key what a search before found.
pub put-search :
    (high_water : ℕ) (n : NodeW) (key value : List ℕ) (pgid flags : ℕ)
    → HasSortedKeys n.inodes
    → pgid < high_water
    → is_empty key ≡ false
    → (m : NodeW) × (put high_water n key key value pgid flags ≡ done m)
      × HasSortedKeys m.inodes
      × ((k : List ℕ)
          → found k m.inodes ≡ (
              if is_equal (cmp key k)
              then some (record { flags = flags; pgid = pgid; key = key; value = value })
              else found k n.inodes))
put-search high_water n key value pgid flags sorted below some_key =
    let (m, run, sorted', finds) =
      put-lookup high_water n key value pgid flags sorted below some_key in
    (
      m,
      run,
      sorted',
      λ k. rw (found-lookup k m.inodes sorted', found-lookup k n.inodes sorted) (finds k),
    )
