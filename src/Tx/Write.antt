-- ===== src/Tx/Write.antt =====
-- The loop of `write` of src/tx.rs over the chunks of a page.
use bbolt_rs.Prelude.{
  ℕ, zero, suc, ◌+◌, ◌-◌, ◌≤◌, ◌<◌, ◌≡◌, refl, ◌⊎◌, inl, inr, true, false, ◌||◌, none, some, [],
  ◌∷◌, arith, ltb, leb, add_u64, done, panic, diverge, Bool-cases, Option-cases,
}
use bbolt_rs.Page.{PageHeader}
use bbolt_rs.Tx.{Backend, min, write_chunks, page_bytes, page_offset, write_tx_page}

positive : (n : ℕ) → 0 < n → (k : ℕ) × (n ≡ suc k)
positive zero h = absurd (omega arith)
positive (suc k) h = (k, refl)

module _ {E : Type 0} (b : Backend E) where
  -- A page below the chunk size is written by one call, of the whole buffer, whose error is returned.
  pub write_tx_page_small :
      (p : PageHeader)
      → 0 < page_bytes b p
      → page_bytes b p < b.max_alloc
      → ((b.write_all_at (page_offset b p) (page_bytes b p) ≡ none)
          × (write_tx_page b p
              ≡ done (
                record { start = 0; length = page_bytes b p; offset = page_offset b p } ∷ [],
                none,
              )))
        ⊎ ((e : E) × (b.write_all_at (page_offset b p) (page_bytes b p) ≡ some e)
            × (write_tx_page b p ≡ done ([], some e)))
  unfolding write_chunks min
  write_tx_page_small p pos small =
      let all : leb (page_bytes b p) (b.max_alloc - 1) ≡ true = ground arith in
      let fits : (ltb (page_bytes b p) 0 || ltb (page_bytes b p) (page_bytes b p)) ≡ false =
        ground arith in
      let whole : page_bytes b p - 0 ≡ page_bytes b p = omega arith in
      let left : page_bytes b p - page_bytes b p ≡ 0 = omega arith in
      elim (Option-cases (b.write_all_at (page_offset b p) (page_bytes b p))) [
        | inl fine ↦ inl (fine, rw (all, whole, fits, left, fine) refl)
        | inr (e, bad) ↦ inr (e, bad, rw (all, whole, fits, left, bad) refl)
      ]

  -- Where the next chunk begins at its end, the loop does not end.
  stuck :
      (fuel total rem offset start : ℕ)
      → 0 < rem
      → start ≡ b.max_alloc - 1
      → ((at n : ℕ) → b.write_all_at at n ≡ none)
      → (write_chunks b fuel total rem offset start ≡ panic)
        ⊎ (write_chunks b fuel total rem offset start ≡ diverge)
  unfolding write_chunks min
  stuck zero total rem offset start pos at fine = inr refl
  stuck (suc fuel) total rem offset start pos at fine =
      let size = min rem (b.max_alloc - 1) in
      elim (Bool-cases (ltb size start || ltb total size)) [
        | inl outside ↦ inl (rw outside refl)
        | inr inside ↦
            let none_read : size - start ≡ 0 = ground (arith, inside) in
            let (k, more) = positive rem pos in
            let same : rem - 0 ≡ suc k = omega arith in
            rw (inside, none_read, same, fine offset 0)
              (elim (stuck fuel total (suc k) (add_u64 offset 0) (start + 0) (omega arith)
                (omega arith) fine) [
                  | inl stop ↦ inl (rw stop refl)
                  | inr forever ↦ inr (rw forever refl)
                ])
      ]

  -- The bug: the slice of a chunk ends at its size, not `size` bytes after its start. So where every
  -- write succeeds, a page of at least the chunk size is never written to its end: the loop panics or
  -- runs for ever.
  pub write_tx_page_large :
      (p : PageHeader)
      → 1 < b.max_alloc
      → b.max_alloc ≤ page_bytes b p
      → ((at n : ℕ) → b.write_all_at at n ≡ none)
      → (write_tx_page b p ≡ panic) ⊎ (write_tx_page b p ≡ diverge)
  unfolding write_chunks min
  write_tx_page_large p real large fine =
      let all : leb (page_bytes b p) (b.max_alloc - 1) ≡ false = ground arith in
      let fits : (ltb (b.max_alloc - 1) 0 || ltb (page_bytes b p) (b.max_alloc - 1)) ≡ false =
        ground arith in
      let (k, more) = positive (page_bytes b p - (b.max_alloc - 1)) (omega arith) in
      let first : b.max_alloc - 1 - 0 ≡ b.max_alloc - 1 = omega arith in
      rw (all, fits, first, more, fine (page_offset b p) (b.max_alloc - 1))
        (elim (stuck (page_bytes b p) (page_bytes b p) (suc k)
          (add_u64 (page_offset b p) (b.max_alloc - 1)) (0 + (b.max_alloc - 1)) (omega arith)
          (omega arith) fine) [
            | inl stop ↦ inl (rw stop refl)
            | inr forever ↦ inr (rw forever refl)
          ])
