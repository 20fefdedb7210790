-- ===== src/Meta/Current.antt =====
-- `write` and `validate` of src/common/meta.rs, and which meta page of src/db.rs is the current one.
use bbolt_rs.Prelude.{
  ℕ, ◌%◌, ◌≤◌, ◌<◌, ◌≡◌, ◌≢◌, ◌⊎◌, inl, inr, refl, ap, subst, true, false, ◌&&◌, not, Option, none,
  some, List, arith, leb, ltb, ◌==◌, done, panic, Bool-cases, ==_self,
}
use bbolt_rs.Page.{set_meta}
use bbolt_rs.Meta.{
  Meta, MetaError, MetaPage, bytes_before_checksum, magic_number, version_number, pgid_no_free_list,
  sum64, validate, write, is_ok, validate_meta, choose, current_meta,
}

module _ (fnv : List ℕ → ℕ) where
  abbrev pub IsValid : Meta → Type 0
  IsValid m = validate fnv m ≡ none

  is_ok-IsValid : (m : Meta) → is_ok fnv (validate fnv m) ≡ true → IsValid m
  is_ok-IsValid m h = by_result (validate fnv m) refl
    where
      by_result : (r : Option MetaError) → validate fnv m ≡ r → IsValid m
      by_result none e = e
      by_result (some x) e = absurd (ground (arith, h, ap (is_ok fnv) e))

  is_ok-false : (m : Meta) → is_ok fnv (validate fnv m) ≡ false → ¬ IsValid m
  is_ok-false m h v = absurd (ground (arith, h, ap (is_ok fnv) v))

  -- `write` panics exactly if the root or the freelist stands at or above the high water mark. Else
  -- the page is the one of the transaction's parity, holds the meta as given with a new checksum,
  -- and is valid if the magic and version numbers are those of this program.
  pub write_lem :
      (m : Meta) (mp : MetaPage)
      → (((m.pgid ≤ m.root.root) ⊎ ((m.pgid ≤ m.free_list) × (m.free_list ≢ pgid_no_free_list)))
          × (write fnv m mp ≡ panic))
        ⊎ ((m.root.root < m.pgid)
            × ((g : MetaPage) × (write fnv m mp ≡ done g)
                × (g.page.id ≡ m.txid % 2)
                × (g.meta ≡ record m { checksum = sum64 fnv m })
                × (m.magic ≡ magic_number → m.version ≡ version_number → IsValid g.meta)))
  unfolding write validate bytes_before_checksum set_meta
  write_lem m mp = elim (Bool-cases (leb m.pgid m.root.root)) [
    | inl high ↦ inl (inl (ground arith), rw high refl)
    | inr low ↦
        elim (Bool-cases (leb m.pgid m.free_list && not (m.free_list == pgid_no_free_list))) [
          | inl high ↦ inl (ground arith, rw (low, high) refl)
          | inr low' ↦ inr (
            ground arith,
            (
              record {
                page = set_meta (record mp.page { id = m.txid % 2; overflow = 0; count = 0 });
                meta = record m { checksum = sum64 fnv m };
              },
              rw (low, low') refl,
              refl,
              refl,
              λ e e'. ground (arith, e, e', ==_self (sum64 fnv m)),
            ),
          )
        ]
  ]

  choose_lem :
      (a b : Meta)
      → ((m : Meta) × (choose fnv (a, b) ≡ done m)
          × IsValid m
          × ((m ≡ a) ⊎ ((m ≡ b) × ¬ IsValid a)))
        ⊎ ((choose fnv (a, b) ≡ panic) × (¬ IsValid a) × (¬ IsValid b))
  unfolding choose
  choose_lem a b = elim (Bool-cases (is_ok fnv (validate fnv a))) [
    | inl good ↦ inl (a, rw good refl, is_ok-IsValid a good, inl refl)
    | inr bad ↦ elim (Bool-cases (is_ok fnv (validate fnv b))) [
      | inl good ↦ inl (b, rw (bad, good) refl, is_ok-IsValid b good, inr (refl, is_ok-false a bad))
      | inr bad' ↦ inr (rw (bad, bad') refl, is_ok-false a bad, is_ok-false b bad')
    ]
  ]

  pub validate_meta_some : (a b : Meta) → IsValid a ⊎ IsValid b → validate_meta fnv a b ≡ none
  unfolding validate_meta
  validate_meta_some a b h = elim h [
    | inl v ↦ rw v refl
    | inr v ↦
        rw v
          (elim (Bool-cases (is_ok fnv (validate fnv a))) [ inl e ↦ rw e refl | inr e ↦ rw e refl ])
  ]

  pub IsValid-is_ok : (m : Meta) → ¬ IsValid m → is_ok fnv (validate fnv m) ≡ false
  IsValid-is_ok m wrong = elim (Bool-cases (is_ok fnv (validate fnv m))) [
    | inl good ↦ absurd (wrong (is_ok-IsValid m good))
    | inr bad ↦ bad
  ]

  validate_meta_none :
      (a b : Meta) → ¬ IsValid a → ¬ IsValid b → validate_meta fnv a b ≡ validate fnv a
  unfolding validate_meta
  validate_meta_none a b na nb = rw (IsValid-is_ok a na, IsValid-is_ok b nb) refl

  -- Each of the two metas is current only if it is valid, and not below the other if that is valid.
  pub current_meta_lem :
      (meta0 meta1 : Meta)
      → ((m : Meta) × (current_meta fnv meta0 meta1 ≡ done m)
          × IsValid m
          × ((m ≡ meta0) ⊎ (m ≡ meta1))
          × (IsValid meta0 → meta0.txid ≤ m.txid)
          × (IsValid meta1 → meta1.txid ≤ m.txid)
          × (validate_meta fnv meta0 meta1 ≡ none))
        ⊎ ((current_meta fnv meta0 meta1 ≡ panic)
            × (¬ IsValid meta0)
            × (¬ IsValid meta1)
            × (validate_meta fnv meta0 meta1 ≡ validate fnv meta0))
  unfolding current_meta validate_meta
  current_meta_lem meta0 meta1 = elim (Bool-cases (ltb meta0.txid meta1.txid)) [
    | inl second ↦ rw second (elim (choose_lem meta1 meta0) [
      | inl (m, run, v, h) ↦ elim h [
        | inl e ↦ inl (
          m,
          run,
          v,
          inr e,
          λ _. ground (arith, ap (λ x. x.txid) e),
          λ _. ground (arith, ap (λ x. x.txid) e),
          validate_meta_some meta0 meta1 (inr (subst IsValid e v)),
        )
        | inr (e, wrong) ↦ inl (
          m,
          run,
          v,
          inl e,
          λ _. ground (arith, ap (λ x. x.txid) e),
          λ good. absurd (wrong good),
          validate_meta_some meta0 meta1 (inl (subst IsValid e v)),
        )
      ]
      | inr (run, no1, no0) ↦ inr (run, no0, no1, validate_meta_none meta0 meta1 no0 no1)
    ])
    | inr first ↦ rw first (elim (choose_lem meta0 meta1) [
      | inl (m, run, v, h) ↦ elim h [
        | inl e ↦ inl (
          m,
          run,
          v,
          inl e,
          λ _. ground (arith, ap (λ x. x.txid) e),
          λ _. ground (arith, ap (λ x. x.txid) e),
          validate_meta_some meta0 meta1 (inl (subst IsValid e v)),
        )
        | inr (e, wrong) ↦ inl (
          m,
          run,
          v,
          inr e,
          λ good. absurd (wrong good),
          λ _. ground (arith, ap (λ x. x.txid) e),
          validate_meta_some meta0 meta1 (inr (subst IsValid e v)),
        )
      ]
      | inr (run, no0, no1) ↦ inr (run, no0, no1, validate_meta_none meta0 meta1 no0 no1)
    ])
  ]
