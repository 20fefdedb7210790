-- ===== src/Freelist/Consistent.antt =====
-- What the whole freelist of src/freelist.rs promises: the cache holds exactly the pages that are
-- free or pending, and no page is both, or pending twice.
use bbolt_rs.Prelude.{
  ℕ, ◌+◌, ◌≤◌, ◌<◌, ◌≡◌, refl, ◌↔◌, ◌⊎◌, inl, inr, true, List, [], ◌∷◌, ◌++◌, arith, ltb, u64_mod,
  Map, DistinctKeys, contains, count, contains-count, Bool-cases,
}
use bbolt_rs.Freelist.{
  Freelist, TxPending, del_span, add_span, merge_with_existing_span, merge_spans,
}
use bbolt_rs.Freelist.Spans.{IsFree, IsWf, IsWf-same_spans}
use bbolt_rs.Freelist.Merge.{CanFree, merge_spans-IsWf}

-- All pending pages, in the order of iteration.
unfoldable pub pending_ids : Map TxPending → List ℕ
pending_ids [] = []
pending_ids ((tid, txp) ∷ m) = txp.ids ++ pending_ids m

-- How often a page is pending.
abbrev pub times_pending : Freelist → ℕ → ℕ
times_pending f p = count p (pending_ids f.pending)

-- The relation holds for each page and the transaction beside it that allocated it; so the two lists
-- are of one length.
abbrev pub AllPairs : (ℕ → ℕ → Type 0) → List ℕ → List ℕ → Type 0
AllPairs Q [] [] = Unit {0}
AllPairs Q [] (a ∷ as') = ⊥
AllPairs Q (p ∷ ps) [] = ⊥
AllPairs Q (p ∷ ps) (a ∷ as') = Q p a × AllPairs Q ps as'

abbrev pub AllEntries : (ℕ → ℕ → ℕ → Type 0) → Map TxPending → Type 0
AllEntries Q [] = Unit {0}
AllEntries Q ((tid, txp) ∷ m) = AllPairs (Q tid) txp.ids txp.alloc_tx × AllEntries Q m

abbrev pub Anything : ℕ → ℕ → ℕ → Type 0
Anything tid p a = Unit {0}

pub record IsConsistent (f : Freelist) : Type 0 where
  pub wf : IsWf f
  pub pending_keys : DistinctKeys f.pending
  pub paired : AllEntries Anything f.pending
  pub cached : (p : ℕ) → (contains p f.cache ≡ true) ↔ (IsFree f p ⊎ (0 < times_pending f p))
  pub exclusive : (p : ℕ) → IsFree f p → times_pending f p ≡ 0
  pub once : (p : ℕ) → times_pending f p ≤ 1
  pub proper : (p : ℕ) → 0 < times_pending f p → (0 < p) × (p + 1 < u64_mod)

pub counts-CanFree :
    (f : Freelist) (m : List ℕ)
    → ((p : ℕ) → 0 < count p m → (¬ IsFree f p) × (0 < p) × (p + 1 < u64_mod))
    → ((p : ℕ) → count p m ≤ 1)
    → CanFree f m
counts-CanFree f [] h once = tt
counts-CanFree f (p ∷ ps) h once =
    let (free, pos, fits) = h p (ground arith) in
    (
      free,
      pos,
      fits,
      ground (arith, once p, contains-count p ps),
      counts-CanFree f ps (λ q c. h q (ground (arith, c))) (λ q. ground (arith, once q)),
    )

-- Merging spans leaves the rest alone.
same_rest :
    (f : Freelist) (pid : ℕ)
    → let g = merge_with_existing_span f pid in
      (g.pending ≡ f.pending) × (g.cache ≡ f.cache) × (g.allocs ≡ f.allocs)
unfolding merge_with_existing_span del_span add_span
same_rest f pid = ground arith

pub merge_spans_same_rest :
    (f : Freelist) (ps : List ℕ)
    → let g = merge_spans f ps in
      (g.pending ≡ f.pending) × (g.cache ≡ f.cache) × (g.allocs ≡ f.allocs)
unfolding merge_spans
merge_spans_same_rest f [] = (refl, refl, refl)
merge_spans_same_rest f (p ∷ ps) =
    ground (arith, same_rest f p, merge_spans_same_rest (merge_with_existing_span f p) ps)

module _ (f : Freelist) (pending : Map TxPending) (m : List ℕ) (c : IsConsistent f)
    (keys : DistinctKeys pending) (paired : AllEntries Anything pending)
    (conserved : (p : ℕ)
      → count p (pending_ids f.pending) ≡ count p (pending_ids pending) + count p m) where
  unpended_IsWf : IsWf (record f { pending = pending })
  unpended_IsWf = IsWf-same_spans f f.allocs pending f.cache c.wf

  movable : CanFree (record f { pending = pending }) m
  movable =
      counts-CanFree (record f { pending = pending }) m
        (λ p h. (
          λ x. absurd (ground (arith, c.exclusive p x, conserved p)),
          ground (arith, c.proper p, conserved p),
          ground (arith, c.proper p, conserved p),
        ))
        (λ p. ground (arith, c.once p, conserved p))

  -- Where pages leave the pending lists for the free spans, those become free and no others, and the
  -- freelist stays consistent.
  pub move-IsFree :
      (q : ℕ)
      → IsFree (merge_spans (record f { pending = pending }) m) q
        ↔ (IsFree f q ⊎ (contains q m ≡ true))
  move-IsFree = (merge_spans-IsWf (record f { pending = pending }) m unpended_IsWf movable).1

  cached-moved :
      (p : ℕ)
      → (contains p f.cache ≡ true) ↔ (
          IsFree (merge_spans (record f { pending = pending }) m) p
          ⊎ (0 < count p (pending_ids pending)))
  cached-moved p = (there, back)
    where
      there :
          contains p f.cache ≡ true
          → IsFree (merge_spans (record f { pending = pending }) m) p
            ⊎ (0 < count p (pending_ids pending))
      there h = elim ((c.cached p).0 h) [
        | inl free ↦ inl ((move-IsFree p).1 (inl free))
        | inr was ↦ elim (Bool-cases (ltb 0 (count p m))) [
          | inl gone ↦ inl ((move-IsFree p).1 (inr (ground (arith, contains-count p m))))
          | inr stays ↦ inr (ground (arith, conserved p))
        ]
      ]

      back :
          IsFree (merge_spans (record f { pending = pending }) m) p
            ⊎ (0 < count p (pending_ids pending))
          → contains p f.cache ≡ true
      back (inl h) = elim ((move-IsFree p).0 h) [
        | inl free ↦ (c.cached p).1 (inl free)
        | inr gone ↦ (c.cached p).1 (inr (ground (arith, contains-count p m, conserved p)))
      ]
      back (inr h) = (c.cached p).1 (inr (omega (arith, conserved p)))

  exclusive-moved :
      (p : ℕ)
      → IsFree (merge_spans (record f { pending = pending }) m) p
      → count p (pending_ids pending) ≡ 0
  exclusive-moved p h = elim ((move-IsFree p).0 h) [
    | inl free ↦ omega (arith, c.exclusive p free, conserved p)
    | inr gone ↦ ground (arith, contains-count p m, conserved p, c.once p)
  ]

  pub move-IsConsistent : IsConsistent (merge_spans (record f { pending = pending }) m)
  move-IsConsistent = record {
    wf = (merge_spans-IsWf (record f { pending = pending }) m unpended_IsWf movable).0;
    pending_keys = rw same.0 keys;
    paired = rw same.0 paired;
    cached = λ p. rw (same.0, same.1) (cached-moved p);
    exclusive = λ p h. rw same.0 (exclusive-moved p h);
    once = λ p. rw same.0 (omega (arith, conserved p, c.once p));
    proper = λ p h.
        let h' : 0 < count p (pending_ids pending) = rw same.0 at h in
        c.proper p (omega (arith, conserved p, h'));
  }
    where
      same :
          let g = merge_spans (record f { pending = pending }) m in
          (g.pending ≡ pending) × (g.cache ≡ f.cache) × (g.allocs ≡ f.allocs)
      same = merge_spans_same_rest (record f { pending = pending }) m
