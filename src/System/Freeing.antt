-- ===== src/System/Freeing.antt =====
-- A writer frees a page of its own snapshot, for those after it.
use bbolt_rs.Prelude.{
  ℕ, ◌+◌, ◌≤◌, ◌<◌, ◌≡◌, ◌≢◌, subst, inl, inr, true, false, ◌&&◌, none, some, arith, ltb, ◌==◌,
  if◌then◌else◌, get, insert, contains, u64_mod, add_u64, sub_u64_lem, Outcome, done, Bool-cases,
  Option-cases,
}
use bbolt_rs.Page.{PageHeader, is_free_list}
use bbolt_rs.Freelist.{Freelist, TxPending}
use bbolt_rs.Freelist.Spans.{IsFree}
use bbolt_rs.Freelist.Consistent.{IsConsistent, AllEntries}
use bbolt_rs.Freelist.Pending.{page_run, alloc_tx_of, pending_or_new, free}
use bbolt_rs.Freelist.Pending.Entries.{
  AllEntries-map, remove-AllEntries, get-AllPairs, AllPairs-run,
}
use bbolt_rs.Freelist.Pending.Free.{
  in_run, IsFreed, with_run, contains-run, free-IsFreed, free-pending, free_panic,
}
use bbolt_rs.System.Horizon.{Horizon, IsSeen, Holds, Snapshots, IsPendable, IsSafe}

-- The transaction `n` has the page no more.
abbrev pub drop_page : ℕ → ℕ → Snapshots → Snapshots
drop_page n id snap r j = if r == n && j == id then none else snap r j

done-injective : (f g : Freelist) → ◌≡◌ {A = Outcome Freelist} (done f) (done g) → f ≡ g
done-injective f g e = cc

-- The list of the transaction with the pages of the run added.
abbrev pub freed_entry : Freelist → ℕ → PageHeader → TxPending
freed_entry f txid p =
    with_run (page_run p.id (add_u64 p.id p.overflow)) (alloc_tx_of f txid p)
      (pending_or_new (get txid f.pending))

-- What a call that ends without a panic tells of the freelist before and after.
pub freed_lem :
    (f g : Freelist) (txid : ℕ) (p : PageHeader)
    → IsConsistent f
    → 1 < p.id
    → p.id + p.overflow + 1 < u64_mod
    → free f txid p ≡ done g
    → IsFreed f p g × (g.pending ≡ insert txid (freed_entry f txid p) f.pending)
freed_lem f g txid p c past fits run =
    let new : (q : ℕ) → in_run p.id p.overflow q ≡ true → contains q f.cache ≡ false = λ q inside.
      elim (Bool-cases (contains q f.cache)) [
        | inl old ↦
            let stop = free_panic f txid p c past fits q inside ((c.cached q).0 old) in absurd cc
        | inr absent ↦ absent
      ] in
    let (g', run', x) = free-IsFreed f txid p c past fits new in
    let (g'', run'', e) = free-pending f txid p c past fits new in
    let same : g' ≡ g = cc in let same' : g'' ≡ g = cc in (subst (IsFreed f p) same x, cc)

module _ (h : Horizon) (snap : Snapshots) (f g : Freelist) (p : PageHeader) (s : IsSafe h snap f)
    (writing : h.last ≡ h.current + 1) (has : snap h.last p.id ≡ some p.overflow)
    (list : is_free_list p ≡ true → p.id ≡ h.list) (run : free f h.last p ≡ done g) where
  abbrev after : Snapshots
  after = drop_page h.last p.id snap

  writer-IsSeen : IsSeen h h.last
  writer-IsSeen = inr (omega arith, omega arith)

  pub before : (r j k : ℕ) → after r j ≡ some k → (snap r j ≡ some k) × ((r ≡ h.last) → j ≢ p.id)
  before r j k e = elim (Bool-cases (r == h.last && j == p.id)) [
    | inl gone ↦ absurd (ground arith)
    | inr kept ↦ (ground arith, λ at e'. absurd (ground arith))
  ]

  Holds-before : (r q : ℕ) → Holds after r q → Holds snap r q
  Holds-before r q (j, k, e, inside) = (j, k, (before r j k e).0, inside)

  its_run : (q : ℕ) → in_run p.id p.overflow q ≡ true → (1 < q) × (q < h.high)
  its_run q inside = s.bounded h.last q writer-IsSeen (p.id, p.overflow, has, inside)

  freed : IsFreed f p g × (g.pending ≡ insert h.last (freed_entry f h.last p) f.pending)
  freed =
      freed_lem f g h.last p s.consistent (its_run p.id (ground arith)).0
        (ground (arith, its_run (p.id + p.overflow), s.fits)) run

  allocated_by : (r o : ℕ) → IsSeen h r → snap r p.id ≡ some o → alloc_tx_of f h.last p ≤ r
  unfolding alloc_tx_of
  allocated_by r o seen e = elim (Option-cases (get p.id f.allocs)) [
    | inl unknown ↦
        rw (unknown, alloc_tx_of)
          (elim (Bool-cases (is_free_list p)) [
            | inl is_list ↦ rw is_list (
                ground (
                  arith,
                  sub_u64_lem h.last 1,
                  s.ordered,
                  s.listed r o seen (rw (list is_list) at e),
                ))
            | inr other ↦ rw other (omega arith)
          ])
    | inr (a, known) ↦ rw (known, alloc_tx_of) (s.booked r p.id o a seen e known)
  ]

  allocated_old : alloc_tx_of f h.last p ≤ h.newest
  unfolding alloc_tx_of
  allocated_old = elim (Option-cases (get p.id f.allocs)) [
    | inl unknown ↦
        rw (unknown, alloc_tx_of)
          (elim (Bool-cases (is_free_list p)) [
            | inl is_list ↦ rw is_list (ground (arith, sub_u64_lem h.last 1, s.ordered))
            | inr other ↦ rw other (omega arith)
          ])
    | inr (a, known) ↦ rw (known, alloc_tx_of) (s.known p.id a known)
  ]

  -- A page of the run is seen in older snapshots only, which have it since it was allocated.
  its_pages :
      (q : ℕ)
      → in_run p.id p.overflow q ≡ true
      → IsPendable h after h.last q (alloc_tx_of f h.last p)
  its_pages q inside = (
    omega arith,
    allocated_old,
    λ r seen (j, k, e, at).
        let (e', kept) = before r j k e in
        let (same, same') =
          s.coherent r h.last j k p.id p.overflow q seen writer-IsSeen e' has at inside in
        (
          allocated_by r k seen (subst (λ j. snap r j ≡ some k) same e'),
          elim (Bool-cases (ltb r h.last)) [
            | inl old ↦ ground arith
            | inr last ↦ absurd (
                kept
                  (elim seen [
                    | inl reads ↦ ground (arith, s.readers r reads)
                    | inr b ↦ ground arith
                  ])
                  same)
          ],
        ),
  )

  freed_entries : AllEntries (IsPendable h after) g.pending
  unfolding insert
  freed_entries = rw freed.1 (
    AllPairs-run (IsPendable h after h.last) (alloc_tx_of f h.last p)
        (pending_or_new (get h.last f.pending)).ids (pending_or_new (get h.last f.pending)).alloc_tx
        (page_run p.id (add_u64 p.id p.overflow))
        (get-AllPairs (IsPendable h after) h.last f.pending (
          AllEntries-map (IsPendable h snap) (IsPendable h after) f.pending
            (λ tid q a _ x. weaker tid q a x) s.entries))
        (λ q e. its_pages q (rw (inside_iff q) at e)),
    remove-AllEntries (IsPendable h snap) (IsPendable h after) h.last f.pending
        (λ tid q a _ x. weaker tid q a x) s.entries,
  )
    where
      inside_iff :
          (q : ℕ) → contains q (page_run p.id (add_u64 p.id p.overflow)) ≡ in_run p.id p.overflow q
      inside_iff q =
          contains-run f h.last p s.consistent (its_run p.id (ground arith)).0
            (ground (arith, its_run (p.id + p.overflow), s.fits)) q

      weaker : (tid q a : ℕ) → IsPendable h snap tid q a → IsPendable h after tid q a
      weaker tid q a (le, le', held) = (le, le', λ r seen x. held r seen (Holds-before r q x))

  freed_free : (q : ℕ) → IsFree g q → IsFree f q
  freed_free q (t, n, at, lo, hi) = (t, n, rw (freed.0).same_spans at at, lo, hi)

  freed_tracked : (q : ℕ) → contains q g.cache ≡ true → (1 < q) × (q < h.high)
  freed_tracked q e = elim (((freed.0).consistent.cached q).0 e) [
    | inl free ↦ s.tracked q ((s.consistent.cached q).1 (inl (freed_free q free)))
    | inr pends ↦ elim (Bool-cases (in_run p.id p.overflow q)) [
      | inl inside ↦ its_run q inside
      | inr outside ↦
          s.tracked q ((s.consistent.cached q).1 (inr (ground (arith, (freed.0).pended q, pends))))
    ]
  ]

  pub drop_page-IsSafe : IsSafe h (drop_page h.last p.id snap) g
  drop_page-IsSafe = record {
    consistent = (freed.0).consistent;
    entries = freed_entries;
    unfree = λ r q seen holds free. s.unfree r q seen (Holds-before r q holds) (freed_free q free);
    booked = λ r j k a seen e e'.
        s.booked r j k a seen (before r j k e).0 (ground (arith, (freed.0).forgotten j));
    known = λ q a e. s.known q a (ground (arith, (freed.0).forgotten q));
    coherent = λ r r' i k j l q seen seen' e e'.
        s.coherent r r' i k j l q seen seen' (before r i k e).0 (before r' j l e').0;
    bounded = λ r q seen holds. s.bounded r q seen (Holds-before r q holds);
    tracked = freed_tracked;
    listed = λ r k seen e. s.listed r k seen (before r h.list k e).0;
    readers = s.readers;
    ordered = s.ordered;
    fits = s.fits;
  }
