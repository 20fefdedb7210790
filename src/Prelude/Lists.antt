-- ===== src/Prelude/Lists.antt =====
-- Lists measured by native numbers, and Boolean membership of a number in a list.
use Prim.Native.Nat.{ℕ, zero, suc, ◌+◌, ◌≤◌, ◌<◌}
use mathlib.Core.Path.{◌≡◌, refl, ap}
use mathlib.Core.Bool.{Bool, false, ◌||◌}
use mathlib.Core.List.{List, [], ◌∷◌, ◌++◌}
use mathlib.Core.Option.{Option, none, some}
use native.Mathlib.Omega.{arith}
use bbolt_rs.Prelude.Tests.{◌==◌, ==_self, ltb, if◌then◌else◌}

module _ {ℓ} {A : Type ℓ} where
  abbrev pub length : List A → ℕ
  length [] = 0
  length (x ∷ xs) = suc (length xs)

  abbrev pub get_elem? : List A → ℕ → Option A
  get_elem? [] i = none
  get_elem? (x ∷ xs) zero = some x
  get_elem? (x ∷ xs) (suc i) = get_elem? xs i

  pub length-append : (xs ys : List A) → length (xs ++ ys) ≡ length xs + length ys
  length-append [] ys = omega arith
  length-append (x ∷ xs) ys = omega (arith, length-append xs ys)

  -- The first `n` elements, and those after them.
  abbrev pub take : ℕ → List A → List A
  take zero xs = []
  take (suc n) [] = []
  take (suc n) (x ∷ xs) = x ∷ take n xs

  abbrev pub drop : ℕ → List A → List A
  drop zero xs = xs
  drop (suc n) [] = []
  drop (suc n) (x ∷ xs) = drop n xs

  pub take-drop : (n : ℕ) (xs : List A) → take n xs ++ drop n xs ≡ xs
  take-drop zero xs = refl
  take-drop (suc n) [] = refl
  take-drop (suc n) (x ∷ xs) = ap (λ ys. x ∷ ys) (take-drop n xs)

  pub length-take : (n : ℕ) (xs : List A) → n ≤ length xs → length (take n xs) ≡ n
  length-take zero xs h = refl
  length-take (suc n) [] h = absurd (omega arith)
  length-take (suc n) (x ∷ xs) h = omega (arith, length-take n xs (omega arith))

  pub take-take : (k n : ℕ) (xs : List A) → k ≤ n → take k (take n xs) ≡ take k xs
  take-take zero n xs h = refl
  take-take (suc k) zero xs h = absurd (omega arith)
  take-take (suc k) (suc n) [] h = refl
  take-take (suc k) (suc n) (x ∷ xs) h = ap (λ ys. x ∷ ys) (take-take k n xs (omega arith))

-- A `HashSet<u64>` is the list of its elements in the order of iteration.
unfoldable pub contains : ℕ → List ℕ → Bool
contains a [] = false
contains a (x ∷ xs) = x == a || contains a xs

unfoldable pub delete : ℕ → List ℕ → List ℕ
delete a [] = []
delete a (x ∷ xs) = if x == a then delete a xs else x ∷ delete a xs

pub contains-delete :
    (a b : ℕ) (xs : List ℕ) → contains b (delete a xs) ≡ (if a == b then false else contains b xs)
unfolding contains delete
contains-delete a b [] = ground arith
contains-delete a b (x ∷ xs) = ground (arith, contains-delete a b xs)

pub contains-append :
    (a : ℕ) (xs ys : List ℕ) → contains a (xs ++ ys) ≡ (contains a xs || contains a ys)
unfolding contains
contains-append a [] ys = refl
contains-append a (x ∷ xs) ys = ground (arith, contains-append a xs ys)

-- How often a number stands in a list.
abbrev pub count : ℕ → List ℕ → ℕ
count q [] = 0
count q (p ∷ ps) = (if p == q then 1 else 0) + count q ps

pub contains-count : (a : ℕ) (xs : List ℕ) → contains a xs ≡ ltb 0 (count a xs)
unfolding contains
contains-count a [] = refl
contains-count a (x ∷ xs) = ground (arith, contains-count a xs)

pub count-append : (q : ℕ) (old new : List ℕ) → count q old + count q new ≡ count q (old ++ new)
count-append q [] new = omega arith
count-append q (p ∷ old) new = omega (arith, count-append q old new)

module _ {ℓ} {A : Type ℓ} where
  -- The last element of `x ∷ xs`, and the elements before it.
  unfoldable pub last_of : A → List A → A
  last_of x [] = x
  last_of x (y ∷ ys) = last_of y ys

  unfoldable pub before_last : A → List A → List A
  before_last x [] = []
  before_last x (y ∷ ys) = x ∷ before_last y ys

  -- `Vec::swap_remove`: the last element takes the place of the one that is removed.
  unfoldable pub swap_remove : ℕ → List A → List A
  unfolding last_of before_last
  swap_remove i [] = []
  swap_remove zero (x ∷ []) = []
  swap_remove zero (x ∷ y ∷ ys) = last_of y ys ∷ before_last y ys
  swap_remove (suc i) (x ∷ xs) = x ∷ swap_remove i xs

  abbrev pub get_or : List A → ℕ → A → A
  get_or [] i d = d
  get_or (x ∷ xs) zero d = x
  get_or (x ∷ xs) (suc i) d = get_or xs i d

count-delete : (a b : ℕ) (xs : List ℕ) → count b (delete a xs) ≡ (if a == b then 0 else count b xs)
unfolding delete
count-delete a b [] = ground arith
count-delete a b (x ∷ xs) = ground (arith, count-delete a b xs)

length-delete : (a : ℕ) (xs : List ℕ) → length xs ≡ length (delete a xs) + count a xs
unfolding delete
length-delete a [] = refl
length-delete a (x ∷ xs) = ground (arith, length-delete a xs)

-- Distinct numbers below `n` are at most `n` many.
pub pigeonhole :
    (n : ℕ) (xs : List ℕ)
    → ((q : ℕ) → count q xs ≤ 1)
    → ((q : ℕ) → 0 < count q xs → q < n)
    → length xs ≤ n
pigeonhole zero [] once below = omega arith
pigeonhole zero (x ∷ xs) once below = absurd (ground (arith, below x, ==_self x))
pigeonhole (suc n) xs once below =
    let rest : length (delete n xs) ≤ n =
      pigeonhole n (delete n xs) (λ q. ground (arith, count-delete n q xs, once q))
        (λ q h. ground (arith, count-delete n q xs, below q)) in
    omega (arith, rest, length-delete n xs, once n)
