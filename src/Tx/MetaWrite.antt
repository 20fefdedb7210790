-- ===== src/Tx/MetaWrite.antt =====
-- The write of the meta page in src/tx.rs, and which meta src/db.rs then reads as the current one.
use mathlib.Core.Path.{sym}
use bbolt_rs.Prelude.{
  ℕ, ◌<◌, ◌+◌, ◌*◌, ◌%◌, ◌≡◌, refl, ap, ◌∙◌, subst, ◌⊎◌, inl, inr, Option, none, some, List, arith,
  ◌==◌, if◌then◌else◌, u64_mod, Outcome, done, Bool-cases, Option-cases,
}
use bbolt_rs.Page.{PageHeader}
use bbolt_rs.Meta.{Meta, MetaPage, magic_number, version_number, sum64, current_meta}
use bbolt_rs.Meta.Current.{IsValid, write_lem}
use bbolt_rs.Meta.Commit.{written, commit_lem}
use bbolt_rs.Db.State.{Database, with_meta}
use bbolt_rs.Tx.{Backend, Tx, held_meta, write_meta}

-- A page that is written with what it holds stays.
written-held :
    (id : ℕ) (d : Database) → written id (held_meta d id) (d.meta0, d.meta1) ≡ (d.meta0, d.meta1)
written-held id d = elim (Bool-cases (id == 0)) [ inl e ↦ rw e refl | inr e ↦ rw e refl ]

module _ (fnv : List ℕ → ℕ) where
  -- The meta with its checksum.
  abbrev pub sealed : Meta → Meta
  sealed m = record m { checksum = sum64 fnv m }

  -- The current meta after the page was written over with `x`.
  abbrev Reads : Database → ℕ → Meta → Meta → Type 0
  Reads d id x m =
      let metas = written id x (d.meta0, d.meta1) in current_meta fnv metas.0 metas.1 ≡ done m

  module _ (d : Database) (c : Meta) (id : ℕ) (even : d.meta0.txid % 2 ≡ 0)
      (odd : d.meta1.txid % 2 ≡ 1) (now : current_meta fnv d.meta0 d.meta1 ≡ done c)
      (at : (c.txid + 1) % 2 ≡ id) where
    complete-Reads : (x : Meta) → IsValid fnv x → x.txid ≡ c.txid + 1 → Reads d id x x
    complete-Reads x valid next =
        subst (λ id. Reads d id x x) at
          ((commit_lem fnv d.meta0 d.meta1 c x even odd now).1 valid next)

    invalid-Reads : (x : Meta) → ¬ IsValid fnv x → Reads d id x c
    invalid-Reads x wrong =
        subst (λ id. Reads d id x c) at ((commit_lem fnv d.meta0 d.meta1 c x even odd now).0 wrong)

    held-Reads : Reads d id (held_meta d id) c
    held-Reads = ap (λ metas. current_meta fnv metas.0 metas.1) (written-held id d) ∙ now

    -- After a write that failed: the page holds what it held, all that it was to hold, or no meta.
    torn-Reads :
        (new x : Meta)
        → IsValid fnv new
        → new.txid ≡ c.txid + 1
        → (x ≡ held_meta d id) ⊎ (x ≡ new) ⊎ ¬ IsValid fnv x
        → Reads d id x new ⊎ Reads d id x c
    torn-Reads new x valid next (inl old) = inr (subst (λ x. Reads d id x c) (sym old) held-Reads)
    torn-Reads new x valid next (inr (inl whole)) =
        inl (subst (λ x. Reads d id x new) (sym whole) (complete-Reads new valid next))
    torn-Reads new x valid next (inr (inr wrong)) = inr (invalid-Reads x wrong)

module _ {E : Type 0} (b : Backend E) (fnv : List ℕ → ℕ) (kmerge : List ℕ → List ℕ → List ℕ)
    (rebalance : Tx → Outcome Tx) (spill : Tx → Outcome (Tx × Option E)) (page_at : ℕ → PageHeader)
    (meta_memory : MetaPage) where
  -- Suppose that the meta pages hold metas of their parity, the current one is that of the
  -- transaction before, and the transaction's meta has this program's magic and version numbers and
  -- its root and freelist below its high water mark; and that a write that fails leaves on the page
  -- what stood there, the new meta, or something that is not valid. Then `write_meta` ends without a
  -- panic, and afterwards the current meta is the transaction's with its checksum, or the former one,
  -- this only if `write_meta` returns an error.
  pub write_meta-switches :
      (t : Tx) (c : Meta)
      → ((old new : Meta)
          → (b.torn old new ≡ old) ⊎ (b.torn old new ≡ new) ⊎ ¬ IsValid fnv (b.torn old new))
      → t.db.meta0.txid % 2 ≡ 0
      → t.db.meta1.txid % 2 ≡ 1
      → current_meta fnv t.db.meta0 t.db.meta1 ≡ done c
      → t.meta.txid ≡ c.txid + 1
      → t.meta.magic ≡ magic_number
      → t.meta.version ≡ version_number
      → t.meta.root.root < t.meta.pgid
      → t.meta.free_list < t.meta.pgid
      → (t' : Tx) × (r : Option E) × (write_meta b fnv kmerge rebalance spill page_at meta_memory t
          ≡ done (t', r))
        × ((current_meta fnv t'.db.meta0 t'.db.meta1 ≡ done (sealed fnv t.meta))
            ⊎ ((e : E) × (r ≡ some e) × (current_meta fnv t'.db.meta0 t'.db.meta1 ≡ done c)))
  unfolding write_meta
  write_meta-switches t c whole_or_torn even odd now next magic version root list =
      elim (write_lem fnv t.meta meta_memory) [
        | inl (high, _) ↦ absurd (ground (arith, high))
        | inr (_, (mp, run, at, its, valid)) ↦
            let parity : (c.txid + 1) % 2 ≡ mp.page.id = ground (arith, at, next) in
            let v : IsValid fnv mp.meta = valid magic version in
            let after : mp.meta.txid ≡ c.txid + 1 = ap (λ m. m.txid) its ∙ next in
            elim (Option-cases
              (b.write_all_at ((mp.page.id * b.page_size) % u64_mod) b.page_size)) [
                | inl fine ↦ (
                  record t { db = with_meta t.db mp t.db.freelist_pages },
                  if b.no_sync then none else b.fsync,
                  rw (run, fine) refl,
                  inl (
                      complete-Reads fnv t.db c mp.page.id even odd now parity mp.meta v after
                      ∙ ap done its),
                )
                | inr (e, bad) ↦
                    let x : Meta = b.torn (held_meta t.db mp.page.id) mp.meta in
                    (
                      record t { db = with_meta t.db (record mp { meta = x }) t.db.freelist_pages },
                      some e,
                      rw (run, bad) refl,
                      elim (torn-Reads fnv t.db c mp.page.id even odd now parity mp.meta x v after
                          (whole_or_torn _ _)) [
                            | inl new ↦ inl (new ∙ ap done its)
                            | inr old ↦ inr (e, refl, old)
                          ],
                    )
              ]
      ]
