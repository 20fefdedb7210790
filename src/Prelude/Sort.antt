-- ===== src/Prelude/Sort.antt =====
-- `slice::sort` on numbers, with what the source relies on: the result is sorted and holds the
-- same elements.
use Prim.Native.Nat.{ℕ, suc, ◌≤◌}
use mathlib.Core.Path.{◌≡◌, refl}
use mathlib.Core.Bool.{◌||◌}
use mathlib.Core.List.{List, [], ◌∷◌}
use native.Mathlib.Omega.{arith}
use bbolt_rs.Prelude.Tests.{◌==◌, leb, if◌then◌else◌}
use bbolt_rs.Prelude.Lists.{length, contains, count}

unfoldable pub insert_sorted : ℕ → List ℕ → List ℕ
insert_sorted a [] = a ∷ []
insert_sorted a (x ∷ xs) = if leb a x then a ∷ x ∷ xs else x ∷ insert_sorted a xs

unfoldable pub sort : List ℕ → List ℕ
unfolding insert_sorted
sort [] = []
sort (x ∷ xs) = insert_sorted x (sort xs)

-- Every element of the list is at least the bound.
abbrev pub Above : ℕ → List ℕ → Type 0
Above a [] = Unit {0}
Above a (x ∷ xs) = (a ≤ x) × Above a xs

abbrev pub IsSorted : List ℕ → Type 0
IsSorted [] = Unit {0}
IsSorted (x ∷ xs) = Above x xs × IsSorted xs

Above-mono : (a b : ℕ) (xs : List ℕ) → a ≤ b → Above b xs → Above a xs
Above-mono a b [] h k = tt
Above-mono a b (x ∷ xs) h k = (omega arith, Above-mono a b xs h k.1)

insert_sorted-Above : (a b : ℕ) (xs : List ℕ) → b ≤ a → Above b xs → Above b (insert_sorted a xs)
unfolding insert_sorted
insert_sorted-Above a b [] h k = (h, tt)
insert_sorted-Above a b (x ∷ xs) h k = ground (arith, insert_sorted-Above a b xs h k.1)

insert_sorted-IsSorted : (a : ℕ) (xs : List ℕ) → IsSorted xs → IsSorted (insert_sorted a xs)
unfolding insert_sorted
insert_sorted-IsSorted a [] s = (tt, tt)
insert_sorted-IsSorted a (x ∷ xs) s =
    ground (arith, insert_sorted-IsSorted a xs s.1, insert_sorted-Above a x xs, Above-mono a x xs)

pub sort-IsSorted : (xs : List ℕ) → IsSorted (sort xs)
unfolding sort
sort-IsSorted [] = tt
sort-IsSorted (x ∷ xs) = insert_sorted-IsSorted x (sort xs) (sort-IsSorted xs)

contains-insert_sorted :
    (b a : ℕ) (xs : List ℕ) → contains b (insert_sorted a xs) ≡ (a == b || contains b xs)
unfolding insert_sorted contains
contains-insert_sorted b a [] = refl
contains-insert_sorted b a (x ∷ xs) = ground (arith, contains-insert_sorted b a xs)

pub contains-sort : (b : ℕ) (xs : List ℕ) → contains b (sort xs) ≡ contains b xs
unfolding sort contains
contains-sort b [] = refl
contains-sort b (x ∷ xs) = ground (arith, contains-insert_sorted b x (sort xs), contains-sort b xs)

length-insert_sorted : (a : ℕ) (xs : List ℕ) → length (insert_sorted a xs) ≡ suc (length xs)
unfolding insert_sorted
length-insert_sorted a [] = refl
length-insert_sorted a (x ∷ xs) = ground (arith, length-insert_sorted a xs)

pub length-sort : (xs : List ℕ) → length (sort xs) ≡ length xs
unfolding sort
length-sort [] = refl
length-sort (x ∷ xs) = omega (arith, length-insert_sorted x (sort xs), length-sort xs)

count-insert_sorted : (b a : ℕ) (xs : List ℕ) → count b (insert_sorted a xs) ≡ count b (a ∷ xs)
unfolding insert_sorted
count-insert_sorted b a [] = refl
count-insert_sorted b a (x ∷ xs) = ground (arith, count-insert_sorted b a xs)

pub count-sort : (b : ℕ) (xs : List ℕ) → count b (sort xs) ≡ count b xs
unfolding sort
count-sort b [] = refl
count-sort b (x ∷ xs) = omega (arith, count-insert_sorted b x (sort xs), count-sort b xs)

pub Above-count : (a q : ℕ) (xs : List ℕ) → Above a xs → 1 ≤ count q xs → a ≤ q
Above-count a q [] h k = absurd (omega arith)
Above-count a q (x ∷ xs) (le, h) k = ground (arith, Above-count a q xs h)
