-- ===== src/Node/Keys.antt =====
-- The order of keys, byte by byte as for slices, and entries in the order of their keys.
use bbolt_rs.Prelude.{
  ℕ, ◌≡◌, refl, ◌⊎◌, inl, inr, Bool, true, false, Option, none, some, List, [], ◌∷◌, arith, ltb,
  if◌then◌else◌,
}
use bbolt_rs.Node.{INode}

pub data Ordering : Type 0 where
  less : Ordering
  equal : Ordering
  greater : Ordering

unfoldable pub cmp : List ℕ → List ℕ → Ordering
cmp [] [] = equal
cmp [] (y ∷ ys) = less
cmp (x ∷ xs) [] = greater
cmp (x ∷ xs) (y ∷ ys) = if ltb x y then less else if ltb y x then greater else cmp xs ys

abbrev pub is_equal : Ordering → Bool
is_equal less = false
is_equal equal = true
is_equal greater = false

pub cmp_self : (a : List ℕ) → cmp a a ≡ equal
unfolding cmp
cmp_self [] = refl
cmp_self (x ∷ xs) = ground (arith, cmp_self xs)

pub cmp_equal : (a b : List ℕ) → cmp a b ≡ equal → a ≡ b
unfolding cmp
cmp_equal [] [] h = refl
cmp_equal [] (y ∷ ys) h = cc
cmp_equal (x ∷ xs) [] h = cc
cmp_equal (x ∷ xs) (y ∷ ys) h = ground (arith, cmp_equal xs ys)

pub cmp_greater : (a b : List ℕ) → cmp a b ≡ greater → cmp b a ≡ less
unfolding cmp
cmp_greater [] [] h = cc
cmp_greater [] (y ∷ ys) h = cc
cmp_greater (x ∷ xs) [] h = refl
cmp_greater (x ∷ xs) (y ∷ ys) h = ground (arith, cmp_greater xs ys)

pub cmp_less : (a b : List ℕ) → cmp a b ≡ less → cmp b a ≡ greater
unfolding cmp
cmp_less [] [] h = cc
cmp_less [] (y ∷ ys) h = refl
cmp_less (x ∷ xs) [] h = cc
cmp_less (x ∷ xs) (y ∷ ys) h = ground (arith, cmp_less xs ys)

pub cmp_trans : (a b c : List ℕ) → cmp a b ≡ less → cmp b c ≡ less → cmp a c ≡ less
unfolding cmp
cmp_trans [] [] c h k = cc
cmp_trans [] (y ∷ ys) [] h k = cc
cmp_trans [] (y ∷ ys) (z ∷ zs) h k = refl
cmp_trans (x ∷ xs) [] c h k = cc
cmp_trans (x ∷ xs) (y ∷ ys) [] h k = cc
cmp_trans (x ∷ xs) (y ∷ ys) (z ∷ zs) h k = ground (arith, cmp_trans xs ys zs)

pub Ordering-cases : (o : Ordering) → (o ≡ less) ⊎ (o ≡ equal) ⊎ (o ≡ greater)
Ordering-cases less = inl refl
Ordering-cases equal = inr (inl refl)
Ordering-cases greater = inr (inr refl)

-- All entries have greater keys.
abbrev pub KeysAbove : List ℕ → List INode → Type 0
KeysAbove key [] = Unit {0}
KeysAbove key (x ∷ xs) = (cmp key x.key ≡ less) × KeysAbove key xs

abbrev pub HasSortedKeys : List INode → Type 0
HasSortedKeys [] = Unit {0}
HasSortedKeys (x ∷ xs) = KeysAbove x.key xs × HasSortedKeys xs

pub KeysAbove-mono :
    (a b : List ℕ) (xs : List INode) → cmp a b ≡ less → KeysAbove b xs → KeysAbove a xs
KeysAbove-mono a b [] h k = tt
KeysAbove-mono a b (x ∷ xs) h (l, k) = (cmp_trans a b x.key h l, KeysAbove-mono a b xs h k)

-- The entry with the key, by a look at each: what a node means as a map.
unfoldable pub lookup : List ℕ → List INode → Option INode
lookup key [] = none
lookup key (x ∷ xs) = if is_equal (cmp x.key key) then some x else lookup key xs

pub lookup-above : (key : List ℕ) (xs : List INode) → KeysAbove key xs → lookup key xs ≡ none
unfolding lookup
lookup-above key [] h = refl
lookup-above key (x ∷ xs) (l, h) = rw (cmp_less key x.key l) (lookup-above key xs h)
