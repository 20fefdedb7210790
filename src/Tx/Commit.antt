-- ===== src/Tx/Commit.antt =====
-- How `commit` of src/tx.rs ends, on every branch.
use mathlib.Core.Path.{sym}
use bbolt_rs.Prelude.{
  ℕ, ◌≡◌, refl, ap, ◌∙◌, ◌⊎◌, inl, inr, true, false, Option, none, some, List, [], ◌*◌, ◌%◌,
  u64_mod, add_u64, subst, ltb, Outcome, done, Bool-cases, Option-cases,
}
use bbolt_rs.Page.{PageHeader}
use bbolt_rs.Meta.{MetaPage, write}
use bbolt_rs.Freelist.Pending.{free}
use bbolt_rs.Db.State.{physical_rollback, commit, with_meta}
use bbolt_rs.Freelist.{Freelist}
use bbolt_rs.Tx.Growth.{
  bind-done, CannotGrow, before_freelist, GrowFails, commit_freelist_tx_closing,
  GrowFails-commit_tx, GrowFails-closing,
}
use bbolt_rs.Tx.{
  Backend, Tx, is_explicit_rollback, fail_tx, commit_freelist_tx, write_meta, after_write_meta,
  after_write, grow_result, after_grow, after_freelist, after_spill, commit_tx, write_pages,
  has_meta_page, store_page,
}

module _ {E : Type 0} (b : Backend E) (fnv : List ℕ → ℕ) (kmerge : List ℕ → List ℕ → List ℕ)
    (rebalance : Tx → Outcome Tx) (spill : Tx → Outcome (Tx × Option E)) (page_at : ℕ → PageHeader)
    (meta_memory : MetaPage) where
  -- Success, or an error: with the state set for a physical rollback, or not if `P` holds.
  abbrev EndsUnless : (Tx → E → Type 0) → Tx × Option E → Type 0
  EndsUnless P (t, none) = t.closing ≡ commit
  EndsUnless P (t, some e) = (t.closing ≡ physical_rollback) ⊎ ((t.closing ≡ commit) × P t e)

  EndsUnless-map :
      (P Q : Tx → E → Type 0) (r : Tx × Option E)
      → ((t : Tx) (e : E) → P t e → Q t e)
      → EndsUnless P r
      → EndsUnless Q r
  EndsUnless-map P Q (t, none) sub h = h
  EndsUnless-map P Q (t, some e) sub (inl h) = inl h
  EndsUnless-map P Q (t, some e) sub (inr (h, x)) = inr (h, sub t e x)

  write_meta-EndsUnless :
      (P : Tx → E → Type 0) (t : Tx) (r : Tx × Option E)
      → t.closing ≡ commit
      → write_meta b fnv kmerge rebalance spill page_at meta_memory t ≡ done r
      → EndsUnless P (after_write_meta b fnv kmerge rebalance spill page_at meta_memory r)
  unfolding write_meta after_write_meta
  write_meta-EndsUnless P t (t', some e) open_state run = inl refl
  write_meta-EndsUnless P t (t', none) open_state run =
      let (mp, _, e) = bind-done (write fnv t.meta meta_memory) _ (t', none) run in
      elim (Option-cases (b.write_all_at ((mp.page.id * b.page_size) % u64_mod) b.page_size)) [
        | inl fine ↦
            let e' = rw fine at e in
            let same : record t { db = with_meta t.db mp t.db.freelist_pages } ≡ t' = cc in
            ap (λ t. t.closing) (sym same) ∙ open_state
        | inr (err, bad) ↦ let e' = rw bad at e in cc
      ]

  after_write-EndsUnless :
      (P : Tx → E → Type 0) (t : Tx) (w : Option E) (r : Tx × Option E)
      → t.closing ≡ commit
      → after_write b fnv kmerge rebalance spill page_at meta_memory t w ≡ done r
      → EndsUnless P r
  unfolding after_write
  after_write-EndsUnless P t (some e) r open_state run =
      let same : (fail_tx t, some e) ≡ r = cc in subst (EndsUnless P) same (inl refl)
  after_write-EndsUnless P t none r open_state run =
      let (r', run', e) =
        bind-done
          (write_meta b fnv kmerge rebalance spill page_at meta_memory (record t {
            db = record t.db { freelist_pages = store_page t.freelist_page t.db.freelist_pages };
          }))
          _ r run in
      let same : after_write_meta b fnv kmerge rebalance spill page_at meta_memory r' ≡ r = cc in
      subst (EndsUnless P) same (write_meta-EndsUnless P _ r' open_state run')

  abbrev Stops : ℕ → Tx → E → Type 0
  Stops = CannotGrow b fnv kmerge rebalance spill page_at meta_memory

  abbrev Before : Tx → Freelist → Tx
  Before = before_freelist b fnv kmerge rebalance spill page_at meta_memory

  abbrev Fails : Tx → Tx → E → Type 0
  Fails = GrowFails b fnv kmerge rebalance spill page_at meta_memory

  grew :
      (t : Tx) (opgid : ℕ) (err : E)
      → grow_result b fnv kmerge rebalance spill page_at meta_memory opgid t ≡ some err
      → (ltb opgid t.meta.pgid ≡ true)
        × (b.grow ((add_u64 t.meta.pgid 1 * t.meta.page_size) % u64_mod) ≡ some err)
  unfolding grow_result
  grew t opgid err bad = elim (Bool-cases (ltb opgid t.meta.pgid)) [
    | inl more ↦ (more, rw more at bad)
    | inr same ↦ let bad' = rw same at bad in cc
  ]

  after_grow-EndsUnless :
      (t : Tx) (opgid : ℕ) (r : Tx × Option E)
      → t.closing ≡ commit
      → has_meta_page t.pages ≡ false
      → after_grow b fnv kmerge rebalance spill page_at meta_memory t
          (grow_result b fnv kmerge rebalance spill page_at meta_memory opgid t)
        ≡ done r
      → EndsUnless (λ t' e. (t ≡ t') × Stops opgid t' e) r
  unfolding after_grow grow_result
  after_grow-EndsUnless t opgid r open_state proper run =
      elim (Option-cases (grow_result b fnv kmerge rebalance spill page_at meta_memory opgid t)) [
        | inl fine ↦
            let (w, _, e) = bind-done (write_pages b t.pages) _ r (rw fine at run) in
            after_write-EndsUnless (λ t' e'. (t ≡ t') × Stops opgid t' e') (record t { pages = [] })
              w r open_state e
        | inr (err, bad) ↦
            let run' = rw bad at run in
            let same : ◌≡◌ {A = Tx × Option E} (t, some err) r = cc in
            subst (EndsUnless (λ t' e. (t ≡ t') × Stops opgid t' e)) same (
              inr
                (open_state, (refl, (proper, (grew t opgid err bad).0, (grew t opgid err bad).1))))
      ]

  after_freelist-EndsUnless :
      (opgid : ℕ) (r r' : Tx × Option E)
      → (r.0).closing ≡ commit
      → after_freelist b fnv kmerge rebalance spill page_at meta_memory opgid r ≡ done r'
      → EndsUnless (λ t e. (r ≡ (t, none)) × Stops opgid t e) r'
  unfolding after_freelist
  after_freelist-EndsUnless opgid (t, some e) r' open_state run =
      let same : (fail_tx t, some e) ≡ r' = cc in
      subst
        (EndsUnless (λ t' e'. (◌≡◌ {A = Tx × Option E} (t, some e) (t', none)) × Stops opgid t' e'))
        same (inl refl)
  after_freelist-EndsUnless opgid (t, none) r' open_state run =
      elim (Bool-cases (has_meta_page t.pages)) [
        | inl stop ↦ let run' = rw stop at run in cc
        | inr fine ↦
            EndsUnless-map (λ t' e. (t ≡ t') × Stops opgid t' e)
              (λ t' e. (◌≡◌ {A = Tx × Option E} (t, none) (t', none)) × Stops opgid t' e) r'
              (λ t' e (same, x). (ap (λ t. (t, none)) same, x))
              (after_grow-EndsUnless t opgid r' open_state fine (rw fine at run))
      ]

  -- What leads from the end of the spilling to the call of `grow`.
  abbrev ComesTo : ℕ → Tx × Option E → Tx → E → Type 0
  ComesTo opgid r t' e =
      (spilt : Tx) × (freelist : Freelist) × (r ≡ (spilt, none))
      × (free spilt.db.freelist spilt.meta.txid (page_at spilt.meta.free_list) ≡ done freelist)
      × (commit_freelist_tx b fnv kmerge rebalance spill page_at meta_memory (Before spilt freelist)
          ≡ done (t', none))
      × Stops opgid t' e

  after_spill-EndsUnless :
      (opgid : ℕ) (r r' : Tx × Option E)
      → (r.0).closing ≡ commit
      → after_spill b fnv kmerge rebalance spill page_at meta_memory opgid r ≡ done r'
      → EndsUnless (ComesTo opgid r) r'
  unfolding after_spill
  after_spill-EndsUnless opgid (t, some e) r' open_state run =
      let same : (fail_tx t, some e) ≡ r' = cc in
      subst (EndsUnless (ComesTo opgid (t, some e))) same (inl refl)
  after_spill-EndsUnless opgid (t, none) r' open_state run =
      let (freelist, freed, run') =
        bind-done (free t.db.freelist t.meta.txid (page_at t.meta.free_list)) _ r' run in
      let (w, list, run'') =
        bind-done
          (commit_freelist_tx b fnv kmerge rebalance spill page_at meta_memory (Before t freelist))
          _ r' run' in
      let ends =
        after_freelist-EndsUnless opgid w r'
          (commit_freelist_tx_closing b fnv kmerge rebalance spill page_at meta_memory
              (Before t freelist) w list
            ∙ open_state)
          run'' in
      EndsUnless-map (λ t' e. (w ≡ (t', none)) × Stops opgid t' e) (ComesTo opgid (t, none)) r'
        (λ t' e (same, x). (t, freelist, refl, freed, list ∙ ap done same, x)) ends

  commit_tx-EndsUnless :
      (t : Tx) (r : Tx × Option E)
      → is_explicit_rollback t.closing ≡ false
      → ((t t' : Tx) → rebalance t ≡ done t' → t'.closing ≡ t.closing)
      → ((t : Tx) (r : Tx × Option E) → spill t ≡ done r → (r.0).closing ≡ t.closing)
      → commit_tx b fnv kmerge rebalance spill page_at meta_memory t ≡ done r
      → EndsUnless (Fails t) r
  unfolding commit_tx
  commit_tx-EndsUnless t r going rebalances spills run =
      let run' = rw going at run in
      let (t', here, run'') = bind-done (rebalance (record t { closing = commit })) _ r run' in
      let (w, spilt, ends) = bind-done (spill t') _ r run'' in
      EndsUnless-map (ComesTo t'.meta.pgid w) (Fails t) r
        (λ t'' e (spilt_tx, freelist, same, freed, list, x). record {
          rebalanced = t';
          spilt = spilt_tx;
          freelist = freelist;
          rebalances = here;
          spills = spilt ∙ ap done same;
          frees = freed;
          places = list;
          fails = x;
        })
        (after_spill-EndsUnless t'.meta.pgid w r
          (spills t' w spilt ∙ rebalances (record t { closing = commit }) t' here) ends)

  -- Success, or an error with one of two states: which one, the call of `grow` decides.
  abbrev pub HasEnded : Tx → Tx × Option E → Type 0
  HasEnded t (t', none) = t'.closing ≡ commit
  HasEnded t (t', some e) =
      ((t'.closing ≡ physical_rollback)
        × ((t'' : Tx) (e' : E)
            → ¬ GrowFails b fnv kmerge rebalance spill page_at meta_memory t t'' e'))
      ⊎ ((t'.closing ≡ commit) × GrowFails b fnv kmerge rebalance spill page_at meta_memory t t' e)

  hard_or_grow :
      (t : Tx) (r : Tx × Option E)
      → is_explicit_rollback t.closing ≡ false
      → ((t t' : Tx) (e : E) → Fails t t' e → t'.closing ≡ commit)
      → commit_tx b fnv kmerge rebalance spill page_at meta_memory t ≡ done r
      → EndsUnless (Fails t) r
      → HasEnded t r
  hard_or_grow t (t', none) going keeps run h = h
  hard_or_grow t (t', some e) going keeps run (inr h) = inr h
  hard_or_grow t (t', some e) going keeps run (inl hard) = inl (
    hard,
    λ t'' e' g.
        let run' =
          GrowFails-commit_tx b fnv kmerge rebalance spill page_at meta_memory t t'' e' going g in
        let same : ◌≡◌ {A = Tx × Option E} (t'', some e') (t', some e) = cc in
        let soft : t'.closing ≡ commit = ap (λ r. (r.0).closing) (sym same) ∙ keeps t t'' e' g in
        absurd cc,
  )

  -- Where `commit` of a transaction that is not rolled back yet ends, and the rebalancing and the
  -- spilling leave the closing state: after a success the state is that of a commit. After an error
  -- it is that of a physical rollback if the commit does not come to a call of `grow` that fails; if
  -- it does (after the freelist was placed, for the size that the high water mark asks for), the call
  -- ends with the error of `grow` and the transaction of that moment, its state that of a commit.
  pub commit_tx-HasEnded :
      (t : Tx) (r : Tx × Option E)
      → is_explicit_rollback t.closing ≡ false
      → ((t t' : Tx) → rebalance t ≡ done t' → t'.closing ≡ t.closing)
      → ((t : Tx) (r : Tx × Option E) → spill t ≡ done r → (r.0).closing ≡ t.closing)
      → commit_tx b fnv kmerge rebalance spill page_at meta_memory t ≡ done r
      → HasEnded t r
  commit_tx-HasEnded t r going rebalances spills run =
      hard_or_grow t r going
        (λ t t' e.
          GrowFails-closing b fnv kmerge rebalance spill page_at meta_memory t t' e rebalances
            spills)
        run (commit_tx-EndsUnless t r going rebalances spills run)
