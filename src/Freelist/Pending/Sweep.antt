-- ===== src/Freelist/Pending/Sweep.antt =====
-- The `while` loop of `release_range` in src/freelist.rs over one transaction's list: it ends, no
-- page is lost, and what leaves the list was allocated within the range.
use bbolt_rs.Prelude.{
  ℕ, zero, suc, ◌+◌, ◌≤◌, ◌<◌, ◌≡◌, refl, ap, ◌⊎◌, inl, inr, ◌||◌, some, List, [], ◌∷◌, ◌++◌, arith,
  ltb, length, get_elem?, get_or, count, count-append, last_of, before_last, swap_remove, Outcome,
  done, Bool-cases,
}
use bbolt_rs.Freelist.Consistent.{AllPairs}
use bbolt_rs.Freelist.Pending.{sweep}

count-before_last :
    (p x : ℕ) (xs : List ℕ) → count p (last_of x xs ∷ before_last x xs) ≡ count p (x ∷ xs)
unfolding last_of before_last
count-before_last p x [] = refl
count-before_last p x (y ∷ ys) = omega (arith, count-before_last p y ys)

pub count-swap_remove :
    (p i : ℕ) (xs : List ℕ)
    → i < length xs
    → count p xs ≡ count p (swap_remove i xs) + count p (get_or xs i 0 ∷ [])
unfolding swap_remove
count-swap_remove p zero [] h = absurd (omega arith)
count-swap_remove p (suc i) [] h = absurd (omega arith)
count-swap_remove p zero (x ∷ []) h = omega arith
count-swap_remove p zero (x ∷ y ∷ ys) h = omega (arith, count-before_last p y ys)
count-swap_remove p (suc i) (x ∷ xs) h = omega (arith, count-swap_remove p i xs (omega arith))

length-before_last : (x : ℕ) (xs : List ℕ) → length (before_last x xs) ≡ length xs
unfolding before_last
length-before_last x [] = refl
length-before_last x (y ∷ ys) = ap suc (length-before_last y ys)

length-swap_remove :
    (i : ℕ) (xs : List ℕ) → i < length xs → suc (length (swap_remove i xs)) ≡ length xs
unfolding swap_remove
length-swap_remove zero [] h = absurd (omega arith)
length-swap_remove (suc i) [] h = absurd (omega arith)
length-swap_remove zero (x ∷ []) h = refl
length-swap_remove zero (x ∷ y ∷ ys) h = omega (arith, length-before_last y ys)
length-swap_remove (suc i) (x ∷ xs) h = omega (arith, length-swap_remove i xs (omega arith))

module _ (Q : ℕ → ℕ → Type 0) where
  AllPairs-before_last :
      (p a : ℕ) (ps as' : List ℕ)
      → Q p a
      → AllPairs Q ps as'
      → AllPairs Q (last_of p ps ∷ before_last p ps) (last_of a as' ∷ before_last a as')
  unfolding last_of before_last
  AllPairs-before_last p a [] [] q h = (q, tt)
  AllPairs-before_last p a [] (b ∷ bs) q h = absurd h
  AllPairs-before_last p a (r ∷ rs) [] q h = absurd h
  AllPairs-before_last p a (r ∷ rs) (b ∷ bs) q (q', h) =
      let (last, rest) = AllPairs-before_last r b rs bs q' h in (last, (q, rest))

  AllPairs-swap_remove :
      (i : ℕ) (ps as' : List ℕ)
      → AllPairs Q ps as'
      → AllPairs Q (swap_remove i ps) (swap_remove i as')
  unfolding swap_remove
  AllPairs-swap_remove i [] [] h = tt
  AllPairs-swap_remove i [] (b ∷ bs) h = absurd h
  AllPairs-swap_remove i (r ∷ rs) [] h = absurd h
  AllPairs-swap_remove zero (p ∷ []) (a ∷ []) h = tt
  AllPairs-swap_remove zero (p ∷ []) (a ∷ b ∷ bs) h = absurd h.1
  AllPairs-swap_remove zero (p ∷ r ∷ rs) (a ∷ []) h = absurd h.1
  AllPairs-swap_remove zero (p ∷ r ∷ rs) (a ∷ b ∷ bs) (q, (q', h)) =
      AllPairs-before_last r b rs bs q' h
  AllPairs-swap_remove (suc i) (p ∷ ps) (a ∷ as') (q, h) = (q, AllPairs-swap_remove i ps as' h)

  AllPairs-get :
      (i : ℕ) (ps as' : List ℕ)
      → AllPairs Q ps as'
      → i < length ps
      → (a : ℕ) × (get_elem? as' i ≡ some a) × Q (get_or ps i 0) a
  AllPairs-get i [] [] h lt = absurd (omega arith)
  AllPairs-get i [] (b ∷ bs) h lt = absurd h
  AllPairs-get i (r ∷ rs) [] h lt = absurd h
  AllPairs-get zero (p ∷ ps) (a ∷ as') (q, h) lt = (a, refl, q)
  AllPairs-get (suc i) (p ∷ ps) (a ∷ as') (q, h) lt = AllPairs-get i ps as' h (omega arith)

-- The relation holds for the first `i` pairs.
abbrev FirstPairs : (ℕ → Type 0) → ℕ → List ℕ → Type 0
FirstPairs R zero as' = Unit {0}
FirstPairs R (suc i) [] = Unit {0}
FirstPairs R (suc i) (a ∷ as') = R a × FirstPairs R i as'

module _ (R : ℕ → Type 0) where
  FirstPairs-swap_remove :
      (i : ℕ) (as' : List ℕ) → FirstPairs R i as' → FirstPairs R i (swap_remove i as')
  unfolding swap_remove
  FirstPairs-swap_remove zero as' h = tt
  FirstPairs-swap_remove (suc i) [] h = tt
  FirstPairs-swap_remove (suc i) (a ∷ as') (r, h) = (r, FirstPairs-swap_remove i as' h)

  FirstPairs-suc :
      (i a : ℕ) (as' : List ℕ)
      → get_elem? as' i ≡ some a
      → R a
      → FirstPairs R i as'
      → FirstPairs R (suc i) as'
  FirstPairs-suc zero a [] e r h = tt
  FirstPairs-suc zero a (b ∷ bs) e r h = let e' : b ≡ a = cc in (rw e' r, tt)
  FirstPairs-suc (suc i) a [] e r h = tt
  FirstPairs-suc (suc i) a (b ∷ bs) e r (r', h) = (r', FirstPairs-suc i a bs e r h)

abbrev pub All : (ℕ → Type 0) → List ℕ → Type 0
All R [] = Unit {0}
All R (x ∷ xs) = R x × All R xs

All-append : (R : ℕ → Type 0) (xs : List ℕ) (x : ℕ) → All R xs → R x → All R (xs ++ x ∷ [])
All-append R [] x h r = (r, tt)
All-append R (y ∷ ys) x (r', h) r = (r', All-append R ys x h r)

FirstPairs-All :
    (R : ℕ → Type 0) (i : ℕ) (as' : List ℕ) → length as' ≤ i → FirstPairs R i as' → All R as'
FirstPairs-All R i [] le h = tt
FirstPairs-All R zero (a ∷ as') le h = absurd (omega arith)
FirstPairs-All R (suc i) (a ∷ as') le (r, h) = (r, FirstPairs-All R i as' (omega arith) h)

AllPairs-length :
    (Q : ℕ → ℕ → Type 0) (ps as' : List ℕ) → AllPairs Q ps as' → length as' ≡ length ps
AllPairs-length Q [] [] h = refl
AllPairs-length Q [] (a ∷ as') h = absurd h
AllPairs-length Q (p ∷ ps) [] h = absurd h
AllPairs-length Q (p ∷ ps) (a ∷ as') (q, h) = ap suc (AllPairs-length Q ps as' h)

-- The allocating transaction lies outside the range.
abbrev pub IsOutside : ℕ → ℕ → ℕ → Type 0
IsOutside begin end a = (a < begin) ⊎ (end < a)

-- A page of the list that was allocated within the range.
abbrev pub IsMovable : (ℕ → ℕ → Type 0) → ℕ → ℕ → ℕ → Type 0
IsMovable Q begin end p = (a : ℕ) × Q p a × (begin ≤ a) × (a ≤ end)

-- What the loop ends with: the pairs left are pairs of the list and lie outside the range, the pages
-- moved lie within, and each page is in one of the two as often as it was before.
abbrev pub IsSwept :
    (ℕ → ℕ → Type 0) → ℕ → ℕ → List ℕ → List ℕ → Outcome (List ℕ × List ℕ × List ℕ) → Type 0
IsSwept Q begin end ids m r =
    (ids' : List ℕ) × (alloc' : List ℕ) × (m' : List ℕ) × (r ≡ done (ids', alloc', m'))
    × AllPairs Q ids' alloc'
    × All (IsOutside begin end) alloc'
    × All (IsMovable Q begin end) m'
    × ((p : ℕ) → count p ids + count p m ≡ count p ids' + count p m')

module _ (Q : ℕ → ℕ → Type 0) (begin end : ℕ) where
  pub sweep-IsSwept :
      (fuel i : ℕ) (ids alloc m : List ℕ)
      → i ≤ length ids
      → length ids < fuel + i
      → AllPairs Q ids alloc
      → FirstPairs (IsOutside begin end) i alloc
      → All (IsMovable Q begin end) m
      → IsSwept Q begin end ids m (sweep fuel begin end i ids alloc m)
  unfolding sweep
  sweep-IsSwept zero i ids alloc m le lt qs out mv = absurd (omega arith)
  sweep-IsSwept (suc fuel) i ids alloc m le lt qs out mv = elim (Bool-cases (ltb i (length ids))) [
    | inr over ↦ rw over (
      ids,
      alloc,
      m,
      refl,
      qs,
      FirstPairs-All (IsOutside begin end) i alloc (ground (arith, AllPairs-length Q ids alloc qs))
          out,
      mv,
      λ p. refl,
    )
    | inl more ↦
        let (a, here, q) = AllPairs-get Q i ids alloc qs (ground arith) in
        rw (more, here)
          (elim (Bool-cases (ltb a begin || ltb end a)) [
            | inl outside ↦ rw outside (
                sweep-IsSwept fuel (suc i) ids alloc m (ground arith) (ground arith) qs
                  (FirstPairs-suc (IsOutside begin end) i a alloc here (ground arith) out) mv)
            | inr inside ↦ rw inside (
                let (ids', alloc', m', run, qs', out', mv', same) =
                  sweep-IsSwept fuel i (swap_remove i ids) (swap_remove i alloc)
                    (m ++ get_or ids i 0 ∷ []) (ground (arith, length-swap_remove i ids))
                    (ground (arith, length-swap_remove i ids))
                    (AllPairs-swap_remove Q i ids alloc qs)
                    (FirstPairs-swap_remove (IsOutside begin end) i alloc out)
                    (All-append (IsMovable Q begin end) m (get_or ids i 0) mv
                      (a, q, ground arith, ground arith)) in
                (
                  ids',
                  alloc',
                  m',
                  run,
                  qs',
                  out',
                  mv',
                  λ p. ground (
                    arith,
                    same p,
                    count-swap_remove p i ids,
                    count-append p m (get_or ids i 0 ∷ []),
                  ),
                ))
          ])
  ]
