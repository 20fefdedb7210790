-- ===== src/Db/Reclaim.antt =====
-- `free_pages` of src/db.rs never frees a page that an open reader can still see.
use bbolt_rs.Prelude.{
  ℕ, ◌+◌, ◌-◌, ◌≤◌, ◌<◌, ◌≡◌, ◌∙◌, ==_self, ◌⊎◌, inl, inr, true, List, [], ◌∷◌, arith, lt→ltb,
  u64_mod, sub_u64, add_u64_lem, sub_u64_lem, contains, sort, contains-sort, sort-IsSorted,
  IsSorted, Above, done,
}
use bbolt_rs.Freelist.{Freelist}
use bbolt_rs.Freelist.Spans.{IsFree}
use bbolt_rs.Freelist.Consistent.{AllEntries, IsConsistent}
use bbolt_rs.Freelist.Pending.{release}
use bbolt_rs.Freelist.Pending.Release.{
  release-IsConsistent, contains-released-IsOld, release-AllEntries,
}
use bbolt_rs.Freelist.Pending.Range.{release_range-IsRangeReleased}
use bbolt_rs.Db.{max_txid, first_or, release_extents, free_pages}

-- A reader with snapshot `r` sees the version of a page that `a` allocated and `tid` freed exactly
-- if it began after the one and before the other.
abbrev pub Sees : ℕ → ℕ → ℕ → Type 0
Sees r a tid = (a ≤ r) × (r < tid)

-- The page was freed by a transaction, and no open reader sees it.
abbrev pub IsInvisible : (ℕ → ℕ → ℕ → Type 0) → List ℕ → ℕ → Type 0
IsInvisible Q txs p =
    (tid : ℕ) × (a : ℕ) × Q tid p a × ((r : ℕ) → contains r txs ≡ true → ¬ Sees r a tid)

-- Every reader is one that the extents before `min_id` have passed, or is still to come.
abbrev Passed : List ℕ → List ℕ → ℕ → Type 0
Passed all ts min_id = (r : ℕ) → contains r all ≡ true → (r < min_id) ⊎ (contains r ts ≡ true)

Above-contains : (a r : ℕ) (xs : List ℕ) → Above a xs → contains r xs ≡ true → a ≤ r
unfolding contains
Above-contains a r [] h e = cc
Above-contains a r (x ∷ xs) (le, h) e = ground (arith, Above-contains a r xs h)

-- What a step of the reclaiming gives.
pub record IsReclaimed (Q : ℕ → ℕ → ℕ → Type 0) (txs : List ℕ) (f g : Freelist) : Type 0 where
  pub consistent : IsConsistent g
  pub safe : (p : ℕ) → IsFree g p → IsFree f p ⊎ IsInvisible Q txs p
  pub kept_free : (p : ℕ) → IsFree f p → IsFree g p
  pub entries : AllEntries Q g.pending
  pub same_cache : g.cache ≡ f.cache
  pub same_allocs : g.allocs ≡ f.allocs

IsReclaimed-trans :
    (Q : ℕ → ℕ → ℕ → Type 0) (txs : List ℕ) (f g h : Freelist)
    → IsReclaimed Q txs f g
    → IsReclaimed Q txs g h
    → IsReclaimed Q txs f h
IsReclaimed-trans Q txs f g h x y = record {
  consistent = y.consistent;
  safe = λ p free. elim (y.safe p free) [ inl old ↦ x.safe p old | inr new ↦ inr new ];
  kept_free = λ p free. y.kept_free p (x.kept_free p free);
  entries = y.entries;
  same_cache = y.same_cache ∙ x.same_cache;
  same_allocs = y.same_allocs ∙ x.same_allocs;
}

module _ (Q : ℕ → ℕ → ℕ → Type 0) (all : List ℕ)
    (proper : (r : ℕ) → contains r all ≡ true → (0 < r) × (r < max_txid)) where
  release_extents-IsReclaimed :
      (f : Freelist) (ts : List ℕ) (min_id : ℕ)
      → IsConsistent f
      → AllEntries Q f.pending
      → IsSorted ts
      → ((r : ℕ) → contains r ts ≡ true → contains r all ≡ true)
      → Passed all ts min_id
      → ((r : ℕ) → contains r ts ≡ true → min_id ≤ r + 1)
      → (g : Freelist) × (release_extents f ts min_id ≡ done g) × IsReclaimed Q all f g
  unfolding release_extents contains
  release_extents-IsReclaimed f [] min_id c qs s sub passed near =
      let (g, run, x) = release_range-IsRangeReleased Q f min_id max_txid c qs in
      (
        g,
        run,
        record {
          consistent = x.consistent;
          safe = λ p h. elim (x.gained p h) [
            | inl old ↦ inl old
            | inr (tid, a, q, lo, hi, lo', hi') ↦ inr (
              tid,
              a,
              q,
              λ r e sees. elim (passed r e) [
                | inl before ↦ absurd (omega (arith, sees))
                | inr none_left ↦ cc
              ],
            )
          ];
          kept_free = x.kept_free;
          entries = x.entries;
          same_cache = x.same_cache;
          same_allocs = x.same_allocs;
        },
      )
  release_extents-IsReclaimed f (t ∷ ts) min_id c qs (above, s) sub passed near =
      let t_in : contains t (t ∷ ts) ≡ true = ground (arith, ==_self t) in
      let (pos, small) = proper t (sub t t_in) in
      let (g, run, x) = release_range-IsRangeReleased Q f min_id (t - 1) c qs in
      let step : IsReclaimed Q all f g = record {
        consistent = x.consistent;
        safe = λ p h. elim (x.gained p h) [
          | inl old ↦ inl old
          | inr (tid, a, q, lo, hi, lo', hi') ↦ inr (
            tid,
            a,
            q,
            λ r e sees. elim (passed r e) [
              | inl before ↦ absurd (omega (arith, sees))
              | inr left ↦ absurd (ground (arith, sees, left, Above-contains t r ts above))
            ],
          )
        ];
        kept_free = x.kept_free;
        entries = x.entries;
        same_cache = x.same_cache;
        same_allocs = x.same_allocs;
      } in
      let (h, run', y) =
        release_extents-IsReclaimed g ts (t + 1) x.consistent x.entries s
          (λ r e. sub r (ground (arith, e)))
          (λ r e. elim (passed r e) [
            | inl before ↦ inl (ground (arith, near t t_in))
            | inr left ↦ ground (arith, left)
          ])
          (λ r e. ground (arith, Above-contains t r ts above e)) in
      (
        h,
        rw (sub_u64_lem t 1 pos (omega arith), add_u64_lem t 1 (omega arith), run) run',
        IsReclaimed-trans Q all f g h step y,
      )

  release-IsReclaimed :
      (f : Freelist) (min_id : ℕ)
      → IsConsistent f
      → AllEntries Q f.pending
      → 0 < min_id
      → min_id < u64_mod
      → ((r : ℕ) → contains r all ≡ true → min_id ≤ r)
      → IsReclaimed Q all f (release f (sub_u64 min_id 1))
  release-IsReclaimed f min_id c qs pos small least =
      let spec = release-IsConsistent f (min_id - 1) c in
      rw (sub_u64_lem min_id 1 pos small) (record {
        consistent = spec.0;
        safe = λ p h. elim ((spec.1 p).0 h) [
          | inl old ↦ inl old
          | inr here ↦
              let (tid, a, q, le) = contains-released-IsOld Q (min_id - 1) p f.pending qs here in
              inr (tid, a, q, λ r e sees. absurd (omega (arith, sees, least r e)))
        ];
        kept_free = λ p h. (spec.1 p).1 (inl h);
        entries = release-AllEntries Q f (min_id - 1) qs;
        same_cache = spec.4;
        same_allocs = spec.5;
      })

first_or-le : (r : ℕ) (ts : List ℕ) → IsSorted ts → contains r ts ≡ true → first_or ts max_txid ≤ r
unfolding first_or contains
first_or-le r [] s e = cc
first_or-le r (t ∷ ts) (above, s) e = ground (arith, Above-contains t r ts above)

first_or_bounds :
    (ts : List ℕ)
    → ((r : ℕ) → contains r ts ≡ true → (0 < r) × (r < max_txid))
    → (0 < first_or ts max_txid) × (first_or ts max_txid < u64_mod)
unfolding first_or contains
first_or_bounds [] h = omega arith
first_or_bounds (t ∷ ts) h = ground (arith, h t, ==_self t)

pub free_pages-IsReclaimed :
    (Q : ℕ → ℕ → ℕ → Type 0) (f : Freelist) (txs : List ℕ)
    → IsConsistent f
    → AllEntries Q f.pending
    → ((r : ℕ) → contains r txs ≡ true → (0 < r) × (r < max_txid))
    → (g : Freelist) × (free_pages f txs ≡ done (g, sort txs)) × IsReclaimed Q txs f g
unfolding free_pages
free_pages-IsReclaimed Q f txs c qs proper =
    let sorted = sort txs in
    let (pos, small) = first_or_bounds sorted (λ r e. proper r (rw contains-sort at e)) in
    let step =
      release-IsReclaimed Q txs proper f (first_or sorted max_txid) c qs pos small
        (λ r e. first_or-le r sorted (sort-IsSorted txs) (rw contains-sort e)) in
    let (g, run, x) =
      release_extents-IsReclaimed Q txs proper (release f (sub_u64 (first_or sorted max_txid) 1))
        sorted (first_or sorted max_txid) step.consistent step.entries (sort-IsSorted txs)
        (λ r e. rw contains-sort at e) (λ r e. inr (rw contains-sort e))
        (λ r e. omega (arith, first_or-le r sorted (sort-IsSorted txs) e)) in
    let y = IsReclaimed-trans Q txs f (release f (sub_u64 (first_or sorted max_txid) 1)) g step x in
    (g, rw (lt→ltb 0 (first_or sorted max_txid) pos, run), y)

-- Before a write transaction, the pages of past transactions are reclaimed. If the freelist is
-- consistent and the id of every open read transaction is greater than 0 and less than `u64::MAX`,
-- the call ends without a panic, in a consistent freelist with the same cache; pages that were free
-- stay so, and a page that becomes free was freed by a transaction `tid` and allocated by `a` such
-- that no open reader has a snapshot from `a` up to, but not including, `tid`.
pub free_pages-safe :
    (Q : ℕ → ℕ → ℕ → Type 0) (f : Freelist) (txs : List ℕ)
    → IsConsistent f
    → AllEntries Q f.pending
    → ((r : ℕ) → contains r txs ≡ true → (0 < r) × (r < max_txid))
    → (g : Freelist) × (free_pages f txs ≡ done (g, sort txs))
      × IsConsistent g
      × ((p : ℕ) → IsFree g p → IsFree f p ⊎ IsInvisible Q txs p)
      × ((p : ℕ) → IsFree f p → IsFree g p)
      × (g.cache ≡ f.cache)
free_pages-safe Q f txs c qs proper =
    let (g, run, y) = free_pages-IsReclaimed Q f txs c qs proper in
    (g, run, y.consistent, y.safe, y.kept_free, y.same_cache)
