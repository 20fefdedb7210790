-- ===== src/Tx/Check/Leaf.antt =====
-- What the check of src/tx.rs finds out about a leaf.
use bbolt_rs.Prelude.{ℕ, suc, ◌≡◌, refl, ◌↔◌, ◌⊎◌, inl, inr, true, List, [], ◌∷◌, ◌++◌, arith}
use bbolt_rs.Node.{INode}
use bbolt_rs.Node.Keys.{
  Ordering, less, equal, greater, cmp, KeysAbove, KeysAbove-mono, HasSortedKeys,
}
use bbolt_rs.Tx.Check.{
  KeyError, is_nil, ancestor_errors, previous_errors, next_errors, verify_key_order, check_leaf,
}

append_nil : (xs ys : List KeyError) → xs ++ ys ≡ [] → (xs ≡ []) × (ys ≡ [])
append_nil [] ys e = (refl, e)
append_nil (x ∷ xs) ys e = absurd cc

nil_append : (xs ys : List KeyError) → xs ≡ [] → ys ≡ [] → xs ++ ys ≡ []
nil_append [] ys e f = f
nil_append (x ∷ xs) ys e f = absurd cc

-- Where there is a bound, the key is below it.
abbrev pub IsBelow : List ℕ → List ℕ → Type 0
IsBelow max key = (is_nil max ≡ true) ⊎ (cmp key max ≡ less)

abbrev pub AllBelow : List ℕ → List INode → Type 0
AllBelow max [] = Unit {0}
AllBelow max (x ∷ xs) = IsBelow max x.key × AllBelow max xs

-- The first key is not below the one in the ancestor.
abbrev pub StartsFrom : List ℕ → List INode → Type 0
StartsFrom min [] = Unit {0}
StartsFrom min (x ∷ xs) = (cmp min x.key ≡ less) ⊎ (cmp min x.key ≡ equal)

next_errors-nil :
    (pgid index : ℕ) (max : List ℕ) (o : Ordering)
    → next_errors pgid index max o ≡ []
    → (is_nil max ≡ true) ⊎ (o ≡ less)
unfolding next_errors
next_errors-nil pgid index max less e = inr refl
next_errors-nil pgid index [] equal e = inl refl
next_errors-nil pgid index [] greater e = inl refl
next_errors-nil pgid index (b ∷ max) equal e = absurd cc
next_errors-nil pgid index (b ∷ max) greater e = absurd cc

next_errors-below :
    (pgid index : ℕ) (max : List ℕ) (o : Ordering)
    → (is_nil max ≡ true) ⊎ (o ≡ less)
    → next_errors pgid index max o ≡ []
unfolding next_errors
next_errors-below pgid index max less h = refl
next_errors-below pgid index [] equal h = refl
next_errors-below pgid index [] greater h = refl
next_errors-below pgid index (b ∷ max) equal (inl e) = absurd cc
next_errors-below pgid index (b ∷ max) equal (inr e) = absurd cc
next_errors-below pgid index (b ∷ max) greater (inl e) = absurd cc
next_errors-below pgid index (b ∷ max) greater (inr e) = absurd cc

previous_errors-nil :
    (pgid index : ℕ) (o : Ordering) → previous_errors pgid (suc index) o ≡ [] → o ≡ less
unfolding previous_errors
previous_errors-nil pgid index less e = refl
previous_errors-nil pgid index equal e = ground arith
previous_errors-nil pgid index greater e = ground arith

ancestor_errors-later :
    (pgid index : ℕ) (previous : List ℕ) (o : Ordering)
    → ancestor_errors pgid (suc index) previous o ≡ []
unfolding ancestor_errors
ancestor_errors-later pgid index previous less = refl
ancestor_errors-later pgid index previous equal = refl
ancestor_errors-later pgid index previous greater = ground arith

first_errors-nil :
    (pgid : ℕ) (min key : List ℕ)
    → ancestor_errors pgid 0 min (cmp min key) ≡ []
    → (cmp min key ≡ less) ⊎ (cmp min key ≡ equal)
unfolding ancestor_errors cmp
first_errors-nil pgid [] [] e = inr refl
first_errors-nil pgid [] (k ∷ key) e = inl refl
first_errors-nil pgid (b ∷ min) key e = by_order (cmp (b ∷ min) key) e
  where
    by_order : (o : Ordering) → ancestor_errors pgid 0 (b ∷ min) o ≡ [] → (o ≡ less) ⊎ (o ≡ equal)
    by_order less e = inl refl
    by_order equal e = inr refl
    by_order greater e = absurd cc

first_errors-below :
    (pgid : ℕ) (min : List ℕ) (o : Ordering)
    → (o ≡ less) ⊎ (o ≡ equal)
    → ancestor_errors pgid 0 min o ++ previous_errors pgid 0 o ≡ []
unfolding ancestor_errors previous_errors
first_errors-below pgid min less h = refl
first_errors-below pgid min equal h = ground arith
first_errors-below pgid min greater (inl e) = absurd cc
first_errors-below pgid min greater (inr e) = absurd cc

later_key-nil :
    (pgid index : ℕ) (previous key max : List ℕ)
    → verify_key_order pgid (suc index) key previous max ≡ []
    → (cmp previous key ≡ less) × IsBelow max key
unfolding verify_key_order
later_key-nil pgid index previous key max e =
    let (front, n) = append_nil _ (next_errors pgid (suc index) max _) e in
    let (a, p) = append_nil (ancestor_errors pgid (suc index) previous _) _ front in
    (previous_errors-nil pgid index _ p, next_errors-nil pgid (suc index) max _ n)

later_key-below :
    (pgid index : ℕ) (previous key max : List ℕ)
    → cmp previous key ≡ less
    → IsBelow max key
    → verify_key_order pgid (suc index) key previous max ≡ []
unfolding verify_key_order ancestor_errors previous_errors
later_key-below pgid index previous key max l below =
    rw l (next_errors-below pgid (suc index) max _ below)

rest-nil :
    (pgid index : ℕ) (previous max : List ℕ) (xs : List INode)
    → check_leaf pgid (suc index) previous max xs ≡ []
    → KeysAbove previous xs × HasSortedKeys xs × AllBelow max xs
unfolding check_leaf
rest-nil pgid index previous max [] e = (tt, tt, tt)
rest-nil pgid index previous max (x ∷ xs) e =
    let (here, there) = append_nil _ _ e in
    let (l, b) = later_key-nil pgid index previous x.key max here in
    let (above, sorted, below) = rest-nil pgid (suc index) x.key max xs there in
    ((l, KeysAbove-mono previous x.key xs l above), (above, sorted), (b, below))

rest-sorted :
    (pgid index : ℕ) (previous max : List ℕ) (xs : List INode)
    → KeysAbove previous xs
    → HasSortedKeys xs
    → AllBelow max xs
    → check_leaf pgid (suc index) previous max xs ≡ []
unfolding check_leaf
rest-sorted pgid index previous max [] a s b = refl
rest-sorted pgid index previous max (x ∷ xs) (l, _) (above, sorted) (b, below) =
    nil_append _ _ (later_key-below pgid index previous x.key max l b)
      (rest-sorted pgid (suc index) x.key max xs above sorted below)

nil-sorted :
    (pgid : ℕ) (min max : List ℕ) (xs : List INode)
    → check_leaf pgid 0 min max xs ≡ []
    → StartsFrom min xs × HasSortedKeys xs × AllBelow max xs
unfolding check_leaf verify_key_order
nil-sorted pgid min max [] e = (tt, tt, tt)
nil-sorted pgid min max (x ∷ xs) e =
    let (here, there) = append_nil (verify_key_order pgid 0 x.key min max) _ e in
    let (front, n) = append_nil _ (next_errors pgid 0 max _) here in
    let (a, p) = append_nil (ancestor_errors pgid 0 min _) (previous_errors pgid 0 _) front in
    let (above, sorted, below) = rest-nil pgid 0 x.key max xs there in
    (first_errors-nil pgid min x.key a, (above, sorted), (next_errors-nil pgid 0 max _ n, below))

sorted-nil :
    (pgid : ℕ) (min max : List ℕ) (xs : List INode)
    → StartsFrom min xs
    → HasSortedKeys xs
    → AllBelow max xs
    → check_leaf pgid 0 min max xs ≡ []
unfolding check_leaf verify_key_order
sorted-nil pgid min max [] f s b = refl
sorted-nil pgid min max (x ∷ xs) f (above, sorted) (b, below) =
    nil_append _ _
      (nil_append _ _ (first_errors-below pgid min _ f) (next_errors-below pgid 0 max _ b))
      (rest-sorted pgid 0 x.key max xs above sorted below)

-- The check of a leaf finds no error exactly where the first key is not below the key in the
-- ancestor, every key is greater than the ones before it, and, where the ancestor gives a bound
-- (one that is not empty), every key is below it.
pub check_leaf-finds_disorder :
    (pgid : ℕ) (min max : List ℕ) (xs : List INode)
    → (check_leaf pgid 0 min max xs ≡ []) ↔ (StartsFrom min xs × HasSortedKeys xs × AllBelow max xs)
check_leaf-finds_disorder pgid min max xs = (
  nil-sorted pgid min max xs,
  λ (first, sorted, below). sorted-nil pgid min max xs first sorted below,
)
