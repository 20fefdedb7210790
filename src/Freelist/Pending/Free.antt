-- ===== src/Freelist/Pending/Free.antt =====
-- `free` of src/freelist.rs: a page and its overflow pages become pending, and a page that is free or
-- pending already makes it panic.
use mathlib.Core.List.{append-nil, append_assoc}
use bbolt_rs.Prelude.{
  ℕ, zero, suc, ◌+◌, ◌-◌, ◌≤◌, ◌<◌, ◌≡◌, refl, ◌↔◌, ◌⊎◌, inl, inr, Bool, true, false, ◌&&◌, ◌||◌,
  none, List, [], ◌∷◌, ◌++◌, map, arith, ltb, leb, ◌==◌, if◌then◌else◌, u64_mod, add_u64,
  add_u64_lem, Map, get, insert, remove, get-remove, insert-DistinctKeys, DistinctKeys, contains,
  contains-count, count, count-append, done, panic, Bool-cases,
}
use bbolt_rs.Page.{PageHeader}
use bbolt_rs.Freelist.{Freelist, TxPending, set_insert, pages_from}
use bbolt_rs.Freelist.Spans.{IsFree, IsWf-same_spans}
use bbolt_rs.Freelist.Consistent.{pending_ids, times_pending, AllEntries, Anything, IsConsistent}
use bbolt_rs.Freelist.Pending.Entries.{remove-AllEntries, get-AllPairs, AllPairs-run}
use bbolt_rs.Freelist.Pending.{page_run, free_run, alloc_tx_of, pending_or_new, free}

pub count-pages_from :
    (q start i n : ℕ)
    → start + i + n < u64_mod
    → count q (pages_from start i n) ≡ (if leb (start + i) q && ltb q (start + i + n) then 1 else 0)
unfolding pages_from
count-pages_from q start i zero h = ground arith
count-pages_from q start i (suc n) h =
    ground (arith, add_u64_lem start i, count-pages_from q start (suc i) n (omega arith))

-- Whether the page is `id` or one of the `overflow` pages after it.
abbrev pub in_run : ℕ → ℕ → ℕ → Bool
in_run id overflow q = leb id q && leb q (id + overflow)

count-page_run :
    (q id overflow : ℕ)
    → id + overflow + 1 < u64_mod
    → count q (page_run id (add_u64 id overflow)) ≡ (if in_run id overflow q then 1 else 0)
unfolding page_run
count-page_run q id overflow h =
    rw (add_u64_lem id overflow (omega arith))
      (ground (arith, count-pages_from q id 0 (id + overflow - id + 1) (omega arith)))

-- The entry with the pages added.
abbrev pub with_run : List ℕ → ℕ → TxPending → TxPending
with_run ids a txp = record txp {
  ids = txp.ids ++ ids;
  alloc_tx = txp.alloc_tx ++ map (λ q. a) ids;
}

free_run-done :
    (ids : List ℕ) (a : ℕ) (txp : TxPending) (cache : List ℕ)
    → ((q : ℕ) → count q ids ≤ 1)
    → ((q : ℕ) → 0 < count q ids → contains q cache ≡ false)
    → (cache' : List ℕ) × (free_run ids a txp cache ≡ done (with_run ids a txp, cache'))
      × ((q : ℕ) → contains q cache' ≡ (contains q cache || contains q ids))
unfolding free_run contains set_insert
free_run-done [] a txp cache once new = (cache, simp append-nil, λ q. ground arith)
free_run-done (p ∷ ids) a txp cache once new =
    let absent : contains p cache ≡ false = new p (ground arith) in
    let (cache', run, in_either) =
      free_run-done ids a (with_run (p ∷ []) a txp) (p ∷ cache) (λ q. ground (arith, once q))
        (λ q h. ground (arith, once q, new q)) in
    (cache', rw (absent, run) (simp append_assoc), λ q. ground (arith, in_either q))

free_run_panic :
    (ids : List ℕ) (a : ℕ) (txp : TxPending) (cache : List ℕ) (q : ℕ)
    → contains q ids ≡ true
    → contains q cache ≡ true
    → free_run ids a txp cache ≡ panic
unfolding free_run contains set_insert
free_run_panic [] a txp cache q h k = cc
free_run_panic (p ∷ ids) a txp cache q h k = elim (Bool-cases (contains p cache)) [
  | inl old ↦ rw old
  | inr new ↦ rw new (free_run_panic ids a _ (p ∷ cache) q (ground arith) (ground arith))
]

module _ (txid : ℕ) where
  pub count-pending_remove :
      (q : ℕ) (m : Map TxPending)
      → DistinctKeys m
      → count q (pending_ids m)
        ≡ count q (pending_or_new (get txid m)).ids + count q (pending_ids (remove txid m))
  unfolding pending_ids get remove pending_or_new
  count-pending_remove q [] d = omega arith
  count-pending_remove q ((t, txp) ∷ m) (new, d) = elim (Bool-cases (t == txid)) [
    | inl here ↦
        let e : get txid m ≡ none = ground (arith, new) in
        let ih = count-pending_remove q m d in
        rw here (omega (arith, count-append q txp.ids (pending_ids m), (rw e at ih)))
    | inr there ↦ rw there (
        omega (
          arith,
          count-append q txp.ids (pending_ids m),
          count-append q txp.ids (pending_ids (remove txid m)),
          count-pending_remove q m d,
        ))
  ]

-- What a successful call gives: a consistent freelist with each page of the run pending once more,
-- the free pages as before, and the page's allocation forgotten.
pub record IsFreed (f : Freelist) (p : PageHeader) (g : Freelist) : Type 0 where
  pub consistent : IsConsistent g
  pub pended :
      (q : ℕ) → times_pending g q ≡ times_pending f q + (if in_run p.id p.overflow q then 1 else 0)
  pub same_spans : g.forward_map ≡ f.forward_map
  pub forgotten : (q : ℕ) → get q g.allocs ≡ (if p.id == q then none else get q f.allocs)

module _ (f : Freelist) (txid : ℕ) (p : PageHeader) (c : IsConsistent f) (past_meta : 1 < p.id)
    (fits : p.id + p.overflow + 1 < u64_mod) where
  module _ (txp : TxPending) (cache : List ℕ) (run : List ℕ) (a : ℕ)
      (its : txp ≡ with_run run a (pending_or_new (get txid f.pending)))
      (in_either : (q : ℕ) → contains q cache ≡ (contains q f.cache || contains q run))
      (run_count : (q : ℕ) → count q run ≡ (if in_run p.id p.overflow q then 1 else 0))
      (new : (q : ℕ) → in_run p.id p.overflow q ≡ true → contains q f.cache ≡ false) where
    abbrev freed_state : Freelist
    freed_state = record f {
      allocs = remove p.id f.allocs;
      pending = insert txid txp f.pending;
      cache = cache;
    }

    freed_pended :
        (q : ℕ)
        → count q (pending_ids (insert txid txp f.pending))
          ≡ times_pending f q + (if in_run p.id p.overflow q then 1 else 0)
    unfolding insert pending_ids
    freed_pended q = rw its (
        omega (
          arith,
          count-append q ((pending_or_new (get txid f.pending)).ids ++ run)
              (pending_ids (remove txid f.pending)),
          count-append q (pending_or_new (get txid f.pending)).ids run,
          count-pending_remove txid q f.pending c.pending_keys,
          run_count q,
        ))

    not-IsFree : (q : ℕ) → in_run p.id p.overflow q ≡ true → ¬ IsFree f q
    not-IsFree q h free = let e = (c.cached q).1 (inl free) in absurd (ground (arith, new q h, e))

    not_pending : (q : ℕ) → in_run p.id p.overflow q ≡ true → times_pending f q ≡ 0
    not_pending q h = elim (Bool-cases (ltb 0 (times_pending f q))) [
      | inl some_time ↦ absurd (ground (arith, new q h, (c.cached q).1 (inr (ground arith))))
      | inr never ↦ ground arith
    ]

    freed_paired : AllEntries Anything (insert txid txp f.pending)
    unfolding insert
    freed_paired = (
      rw its (
          AllPairs-run (Anything txid) a (pending_or_new (get txid f.pending)).ids
            (pending_or_new (get txid f.pending)).alloc_tx run
            (get-AllPairs Anything txid f.pending c.paired) (λ q _. tt)),
      remove-AllEntries Anything Anything txid f.pending (λ tid q a _ _. tt) c.paired,
    )

    freed_cached :
        (q : ℕ)
        → (contains q cache ≡ true)
          ↔ (IsFree f q ⊎ (0 < count q (pending_ids (insert txid txp f.pending))))
    freed_cached q = (there, back)
      where
        there :
            contains q cache ≡ true
            → IsFree f q ⊎ (0 < count q (pending_ids (insert txid txp f.pending)))
        there h = elim (Bool-cases (contains q f.cache)) [
          | inl old ↦ elim ((c.cached q).0 old) [
            | inl free ↦ inl free
            | inr was ↦ inr (omega (arith, freed_pended q))
          ]
          | inr fresh ↦
              inr (ground (arith, in_either q, contains-count q run, run_count q, freed_pended q))
        ]

        back :
            IsFree f q ⊎ (0 < count q (pending_ids (insert txid txp f.pending)))
            → contains q cache ≡ true
        back (inl free) = ground (arith, (c.cached q).1 (inl free), in_either q)
        back (inr h) = elim (Bool-cases (ltb 0 (times_pending f q))) [
          | inl was ↦ ground (arith, (c.cached q).1 (inr (ground arith)), in_either q)
          | inr never ↦
              ground (arith, in_either q, contains-count q run, run_count q, freed_pended q)
        ]

    freed_proper :
        (q : ℕ)
        → 0 < count q (pending_ids (insert txid txp f.pending))
        → (0 < q) × (q + 1 < u64_mod)
    freed_proper q h = elim (Bool-cases (in_run p.id p.overflow q)) [
      | inl here ↦ ground arith
      | inr there ↦ c.proper q (ground (arith, freed_pended q))
    ]

    freed_exclusive : (q : ℕ) → IsFree f q → count q (pending_ids (insert txid txp f.pending)) ≡ 0
    freed_exclusive q h = elim (Bool-cases (in_run p.id p.overflow q)) [
      | inl here ↦ absurd (not-IsFree q here h)
      | inr there ↦ ground (arith, freed_pended q, c.exclusive q h)
    ]

    freed_once : (q : ℕ) → count q (pending_ids (insert txid txp f.pending)) ≤ 1
    freed_once q = elim (Bool-cases (in_run p.id p.overflow q)) [
      | inl here ↦ ground (arith, freed_pended q, not_pending q here)
      | inr there ↦ ground (arith, freed_pended q, c.once q)
    ]

    freed_state-IsFreed : IsFreed f p freed_state
    freed_state-IsFreed = record {
      consistent = record {
        wf = IsWf-same_spans f _ _ _ c.wf;
        pending_keys = insert-DistinctKeys txid txp f.pending c.pending_keys;
        paired = freed_paired;
        cached = freed_cached;
        exclusive = freed_exclusive;
        once = freed_once;
        proper = freed_proper;
      };
      pended = freed_pended;
      same_spans = refl;
      forgotten = λ q. get-remove p.id q f.allocs;
    }

  pub contains-run :
      (q : ℕ) → contains q (page_run p.id (add_u64 p.id p.overflow)) ≡ in_run p.id p.overflow q
  contains-run q = ground (
    arith,
    contains-count q (page_run p.id (add_u64 p.id p.overflow)),
    count-page_run q p.id p.overflow fits,
  )

  -- On a consistent freelist, for a page past the meta pages whose run of pages has no `u64`
  -- overflow and no member in the cache, `free` ends without a panic, and exactly the pages of the
  -- run become pending besides, each once, in a freelist that is consistent and has the same free
  -- pages.
  pub free-IsFreed :
      ((q : ℕ) → in_run p.id p.overflow q ≡ true → contains q f.cache ≡ false)
      → (g : Freelist) × (free f txid p ≡ done g) × IsFreed f p g
  unfolding free
  free-IsFreed new =
      let run = page_run p.id (add_u64 p.id p.overflow) in
      let txp = pending_or_new (get txid f.pending) in
      let a = alloc_tx_of f txid p in
      let run_count = λ (q : ℕ). count-page_run q p.id p.overflow fits in
      let (cache, ran, in_either) =
        free_run-done run a txp f.cache (λ q. ground (arith, run_count q))
          (λ q h. new q (ground (arith, run_count q))) in
      let past : leb p.id 1 ≡ false = ground arith in
      (
        freed_state (with_run run a txp) cache run a refl in_either run_count new,
        rw (past, ran) refl,
        freed_state-IsFreed (with_run run a txp) cache run a refl in_either run_count new,
      )

  pub free-pending :
      ((q : ℕ) → in_run p.id p.overflow q ≡ true → contains q f.cache ≡ false)
      → (g : Freelist) × (free f txid p ≡ done g)
        × (g.pending
            ≡ insert txid
                (with_run
                  (page_run p.id (add_u64 p.id p.overflow))
                  (alloc_tx_of f txid p)
                  (pending_or_new (get txid f.pending)))
                f.pending)
  unfolding free
  free-pending new =
      let run = page_run p.id (add_u64 p.id p.overflow) in
      let (cache, ran, _) =
        free_run-done run (alloc_tx_of f txid p) (pending_or_new (get txid f.pending)) f.cache
          (λ q. ground (arith, count-page_run q p.id p.overflow fits))
          (λ q h. new q (ground (arith, count-page_run q p.id p.overflow fits))) in
      let past : leb p.id 1 ≡ false = ground arith in
      (
        record f {
          allocs = remove p.id f.allocs;
          pending =
              insert txid
                (with_run run (alloc_tx_of f txid p) (pending_or_new (get txid f.pending)))
                f.pending;
          cache = cache;
        },
        rw (past, ran) refl,
        refl,
      )

  -- On a consistent freelist, `free` panics for a page past the meta pages whose run (without
  -- `u64` overflow) has a page that is free or pending already.
  pub free_panic :
      (q : ℕ)
      → in_run p.id p.overflow q ≡ true
      → IsFree f q ⊎ (0 < times_pending f q)
      → free f txid p ≡ panic
  unfolding free
  free_panic q here old =
      let past : leb p.id 1 ≡ false = ground arith in
      rw (
        past,
        free_run_panic (page_run p.id (add_u64 p.id p.overflow)) (alloc_tx_of f txid p)
            (pending_or_new (get txid f.pending)) f.cache q (rw contains-run here)
            ((c.cached q).1 old),
      )
