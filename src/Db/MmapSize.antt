-- ===== src/Db/MmapSize.antt =====
-- `mmap_size` of src/db.rs: the size of the memory map for a file of a given size.
use native.Mathlib.Nat.{lt-div-mul-add, div-mul-le_self, add-mul, mod-lt}
use bbolt_rs.Prelude.{
  ℕ, zero, suc, ◌+◌, ◌-◌, ◌*◌, ◌/◌, ◌%◌, ◌^◌, ◌≤◌, ◌<◌, ◌≡◌, refl, ◌⊎◌, inl, inr, true, false,
  Option, none, some, arith, leb, ltb, ◌==◌, if◌then◌else◌, Outcome, done, panic, Bool-cases,
}

-- On a 64-bit machine: 256 TiB, and 1 GiB.
abbrev pub max_map_size : ℕ
max_map_size = 2 ^ 48

abbrev pub max_mmap_step : ℕ
max_mmap_step = 2 ^ 30

-- The loop `for i in 15..=30`, with the powers that are left.
unfoldable pub small_size : ℕ → ℕ → ℕ → Option ℕ
small_size zero power size = none
small_size (suc n) power size =
    let rest = small_size n (power * 2) size in if leb size power then some power else rest

unfoldable pub to_step : ℕ → ℕ
to_step size =
    let remainder = size % max_mmap_step in
    if ltb 0 remainder then size + (max_mmap_step - remainder) else size

unfoldable pub to_page : ℕ → ℕ → ℕ
to_page page_size size = if size % page_size == 0 then size else (size / page_size + 1) * page_size

unfoldable pub large_size : ℕ → ℕ → Outcome (Option ℕ)
unfolding to_step to_page
large_size page_size size =
    if ltb max_map_size size
    then done none
    else if page_size == 0
    then panic
    else (let sz = to_page page_size (to_step size) in
        done (some (if ltb max_map_size sz then max_map_size else sz)))

-- The size, or `none` for `Err(MMapTooLarge)`. A remainder by a page size of 0 panics.
unfoldable pub mmap_size : ℕ → ℕ → Outcome (Option ℕ)
unfolding small_size large_size
mmap_size page_size size = elim (small_size 16 (2 ^ 15) size) [
  | some n ↦ done (some n)
  | none ↦ large_size page_size size
]

-- The power after the `n` ones from `power` on.
abbrev power_after : ℕ → ℕ → ℕ
power_after zero power = power
power_after (suc n) power = power_after n (power * 2)

power_after-ge : (n power : ℕ) → power ≤ power_after n power
power_after-ge zero power = omega arith
power_after-ge (suc n) power = omega (arith, power_after-ge n (power * 2))

small_size_lem :
    (n power size : ℕ)
    → power < 2 * size
    → ((r : ℕ) × (small_size n power size ≡ some r)
        × (size ≤ r)
        × (power ≤ r)
        × (r < 2 * size)
        × (r * 2 ≤ power_after n power))
      ⊎ ((small_size n power size ≡ none) × (power_after n power < 2 * size))
unfolding small_size
small_size_lem zero power size h = inr (refl, h)
small_size_lem (suc n) power size h = elim (Bool-cases (leb size power)) [
  | inl fits ↦ inl (power, rw fits refl, ground arith, omega arith, h, power_after-ge n (power * 2))
  | inr more ↦ rw more (elim (small_size_lem n (power * 2) size (ground (arith, more))) [
    | inl (r, e, a, b, c, d) ↦ inl (r, e, a, omega (arith, b), c, d)
    | inr rest ↦ inr rest
  ])
]

to_page-ge :
    (page_size size : ℕ)
    → 0 < page_size
    → (size ≤ to_page page_size size) × (to_page page_size size ≤ size + page_size)
unfolding to_page
to_page-ge page_size size pos = elim (Bool-cases (size % page_size == 0)) [
  | inl even ↦ rw even (omega arith, omega arith)
  | inr odd ↦
      let grown : (size / page_size + 1) * page_size ≡ size / page_size * page_size + page_size =
        omega (arith, add-mul (size / page_size) 1 page_size) in
      rw (odd, grown)
        (
          omega (arith, lt-div-mul-add {a = size} pos),
          omega (arith, div-mul-le_self size page_size),
        )
]

small_size_first :
    (size : ℕ) → leb size (2 ^ 15) ≡ true → small_size 16 (2 ^ 15) size ≡ some (2 ^ 15)
unfolding small_size
small_size_first size h = rw h refl

to_step-ge : (size : ℕ) → (size ≤ to_step size) × (to_step size < size + max_mmap_step)
unfolding to_step
to_step-ge size = ground (arith, mod-lt size {m = max_mmap_step} (omega arith))

large_size_bounds :
    (page_size size : ℕ)
    → 0 < page_size
    → 2 ^ 30 < size
    → ((max_map_size < size) × (large_size page_size size ≡ done none))
      ⊎ ((r : ℕ) × (large_size page_size size ≡ done (some r))
          × (size ≤ r)
          × (2 ^ 15 ≤ r)
          × (r ≤ max_map_size)
          × (r < size + max_mmap_step + page_size))
unfolding large_size
large_size_bounds page_size size pos big = elim (Bool-cases (ltb max_map_size size)) [
  | inl high ↦ inl (ground arith, rw high refl)
  | inr low ↦
      let some_page : (page_size == 0) ≡ false = ground arith in
      let (a, b) = to_step-ge size in
      let (c, d) = to_page-ge page_size (to_step size) pos in
      elim (Bool-cases (ltb max_map_size (to_page page_size (to_step size)))) [
        | inl over ↦ inr (
          max_map_size,
          rw (low, some_page, over) refl,
          ground arith,
          omega arith,
          omega arith,
          ground arith,
        )
        | inr under ↦ inr (
          to_page page_size (to_step size),
          rw (low, some_page, under) refl,
          omega arith,
          omega arith,
          ground arith,
          omega arith,
        )
      ]
]

-- For a positive page size, `mmap_size` ends with an error exactly if the size is above the largest
-- map. Else the map has room for the size, at least 32 KiB and at most the largest map; and it is
-- 32 KiB, or less than twice the size, or exceeds the size by less than 1 GiB and a page.
pub mmap_size_bounds :
    (page_size size : ℕ)
    → 0 < page_size
    → ((max_map_size < size) × (mmap_size page_size size ≡ done none))
      ⊎ ((r : ℕ) × (mmap_size page_size size ≡ done (some r))
          × (size ≤ r)
          × (2 ^ 15 ≤ r)
          × (r ≤ max_map_size)
          × ((r ≡ 2 ^ 15) ⊎ (r < 2 * size) ⊎ (r < size + max_mmap_step + page_size)))
unfolding mmap_size large_size to_step
mmap_size_bounds page_size size pos = elim (Bool-cases (leb size (2 ^ 15))) [
  | inl small ↦ inr (
    2 ^ 15,
    rw (small_size_first size small, mmap_size) refl,
    ground arith,
    omega arith,
    omega arith,
    inl refl,
  )
  | inr more ↦ elim (small_size_lem 16 (2 ^ 15) size (ground (arith, more))) [
    | inl (r, e, a, b, c, d) ↦ inr (r, rw (e, mmap_size) refl, a, b, omega (arith, d), inr (inl c))
    | inr (e, big) ↦
        rw (e, mmap_size)
          (elim (large_size_bounds page_size size pos (omega (arith, big))) [
            | inl high ↦ inl high
            | inr (r, run, a, b, c, d) ↦ inr (r, run, a, b, c, inr (inr d))
          ])
  ]
]
