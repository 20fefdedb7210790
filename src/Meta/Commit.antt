-- ===== src/Meta/Commit.antt =====
-- What src/db.rs reads as the current meta after one of the two meta pages was written over.
use bbolt_rs.Prelude.{
  ℕ, ◌+◌, ◌%◌, ◌<◌, ◌≡◌, inl, inr, refl, ap, subst, true, false, List, arith, ltb, ◌==◌,
  if◌then◌else◌, done, Bool-cases,
}
use bbolt_rs.Meta.{Meta, is_ok, choose, current_meta}
use bbolt_rs.Meta.Current.{IsValid, IsValid-is_ok, current_meta_lem}

-- The two metas after a page was written over with `x`.
abbrev pub written : ℕ → Meta → Meta × Meta → Meta × Meta
written id x (meta0, meta1) = if id == 0 then (x, meta1) else (meta0, x)

module _ (fnv : List ℕ → ℕ) where
  only_valid :
      (a b : Meta)
      → IsValid fnv a
      → ¬ IsValid fnv b
      → (current_meta fnv a b ≡ done a) × (current_meta fnv b a ≡ done a)
  unfolding current_meta choose
  only_valid a b v wrong =
      let bad = IsValid-is_ok fnv b wrong in
      let good = ap (is_ok fnv) v in
      (
        elim (Bool-cases (ltb a.txid b.txid)) [
          | inl e ↦ rw (e, bad, good) refl
          | inr e ↦ rw (e, good) refl
        ],
        elim (Bool-cases (ltb b.txid a.txid)) [
          | inl e ↦ rw (e, good) refl
          | inr e ↦ rw (e, bad, good) refl
        ],
      )

  pub newer :
      (a b : Meta)
      → IsValid fnv b
      → a.txid < b.txid
      → (current_meta fnv a b ≡ done b) × (current_meta fnv b a ≡ done b)
  unfolding current_meta choose
  newer a b v more =
      let good = ap (is_ok fnv) v in
      let up : ltb a.txid b.txid ≡ true = ground arith in
      let down : ltb b.txid a.txid ≡ false = ground arith in
      (rw (up, good) refl, rw (down, good) refl)

  abbrev IsSwitched : Meta → Meta → Meta × Meta → Type 0
  IsSwitched c x (meta0, meta1) =
      (¬ IsValid fnv x → current_meta fnv meta0 meta1 ≡ done c)
      × (IsValid fnv x → x.txid ≡ c.txid + 1 → current_meta fnv meta0 meta1 ≡ done x)

  even_IsSwitched :
      (a b x : Meta)
      → a.txid % 2 ≡ 0
      → IsValid fnv a
      → IsSwitched a x (written ((a.txid + 1) % 2) x (a, b))
  even_IsSwitched a b x even v =
      let second : ((a.txid + 1) % 2 == 0) ≡ false = ground (arith, even) in
      rw second (λ bad. (only_valid a x v bad).0, λ good e. (newer a x good (omega (arith, e))).0)

  odd_IsSwitched :
      (a b x : Meta)
      → a.txid % 2 ≡ 1
      → IsValid fnv a
      → IsSwitched a x (written ((a.txid + 1) % 2) x (b, a))
  odd_IsSwitched a b x odd v =
      let first : ((a.txid + 1) % 2 == 0) ≡ true = ground (arith, odd) in
      rw first (λ bad. (only_valid a x v bad).1, λ good e. (newer a x good (omega (arith, e))).1)

  -- Where the metas on the two pages have the parity of their pages, and the page of the next id's
  -- parity is written over with `x`: the current meta is the former one if `x` is not valid, and `x`
  -- if it is valid and has the next id.
  pub commit_lem :
      (meta0 meta1 c x : Meta)
      → meta0.txid % 2 ≡ 0
      → meta1.txid % 2 ≡ 1
      → current_meta fnv meta0 meta1 ≡ done c
      → let after = written ((c.txid + 1) % 2) x (meta0, meta1) in
        (¬ IsValid fnv x → current_meta fnv after.0 after.1 ≡ done c)
        × (IsValid fnv x → x.txid ≡ c.txid + 1 → current_meta fnv after.0 after.1 ≡ done x)
  commit_lem meta0 meta1 c x even odd run = elim (current_meta_lem fnv meta0 meta1) [
    | inr (stop, _, _, _) ↦ absurd cc
    | inl (m, run', v, at, _, _, _) ↦ elim at [
      | inl e ↦
          let same : meta0 ≡ c = cc in
          subst (λ c. IsSwitched c x (written ((c.txid + 1) % 2) x (meta0, meta1))) same
            (even_IsSwitched meta0 meta1 x even (subst (IsValid fnv) e v))
      | inr e ↦
          let same : meta1 ≡ c = cc in
          subst (λ c. IsSwitched c x (written ((c.txid + 1) % 2) x (meta0, meta1))) same
            (odd_IsSwitched meta1 meta0 x odd (subst (IsValid fnv) e v))
    ]
  ]
