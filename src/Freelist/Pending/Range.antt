-- ===== src/Freelist/Pending/Range.antt =====
-- `release_range` of src/freelist.rs: pages that were allocated and freed within a range of
-- transactions become free.
use bbolt_rs.Prelude.{
  ℕ, suc, ◌+◌, ◌≤◌, ◌≡◌, refl, ◌∙◌, ◌⊎◌, inl, inr, true, ◌||◌, Option, none, some, List, [], ◌∷◌,
  ◌++◌, arith, ltb, ◌==◌, Map, get, DistinctKeys, count, contains, count-append, Outcome, done,
  Bool-cases, length,
}
use bbolt_rs.Freelist.{Freelist, TxPending, merge_spans}
use bbolt_rs.Freelist.Spans.{IsFree}
use bbolt_rs.Freelist.Consistent.{
  pending_ids, AllPairs, AllEntries, Anything, IsConsistent, move-IsFree, move-IsConsistent,
  merge_spans_same_rest,
}
use bbolt_rs.Freelist.Pending.{kept_entry, range_entry, keep, range_pending, release_range}
use bbolt_rs.Freelist.Pending.Sweep.{All, IsMovable, sweep-IsSwept}

-- The page was freed by a transaction of the range, and allocated by one.
abbrev pub IsReleasable : (ℕ → ℕ → ℕ → Type 0) → ℕ → ℕ → ℕ → Type 0
IsReleasable Q begin end p =
    (tid : ℕ) × (a : ℕ) × Q tid p a × (begin ≤ tid) × (tid ≤ end) × (begin ≤ a) × (a ≤ end)

abbrev optional_ids : Option TxPending → List ℕ
optional_ids none = []
optional_ids (some txp) = txp.ids

abbrev OptionalPairs : (ℕ → ℕ → Type 0) → Option TxPending → Type 0
OptionalPairs Q none = Unit {0}
OptionalPairs Q (some txp) = AllPairs Q txp.ids txp.alloc_tx

abbrev IsRanged :
    (ℕ → ℕ → ℕ → Type 0) → ℕ → ℕ → ℕ → TxPending → Outcome (Option TxPending × List ℕ) → Type 0
IsRanged Q begin end tid txp r =
    (kept : Option TxPending) × (moved : List ℕ) × (r ≡ done (kept, moved))
    × OptionalPairs (Q tid) kept
    × All (IsReleasable Q begin end) moved
    × ((p : ℕ) → count p txp.ids ≡ count p (optional_ids kept) + count p moved)

kept_entry-ids :
    (begin : ℕ) (txp : TxPending) (ids alloc : List ℕ)
    → optional_ids (kept_entry begin txp ids alloc) ≡ ids
unfolding kept_entry
kept_entry-ids begin txp [] alloc = refl
kept_entry-ids begin txp (x ∷ ids) alloc = refl

kept_entry-OptionalPairs :
    (Q : ℕ → ℕ → Type 0) (begin : ℕ) (txp : TxPending) (ids alloc : List ℕ)
    → AllPairs Q ids alloc
    → OptionalPairs Q (kept_entry begin txp ids alloc)
unfolding kept_entry
kept_entry-OptionalPairs Q begin txp [] alloc h = tt
kept_entry-OptionalPairs Q begin txp (x ∷ ids) alloc h = h

All-weaken : (P R : ℕ → Type 0) → ((p : ℕ) → P p → R p) → (xs : List ℕ) → All P xs → All R xs
All-weaken P R f [] h = tt
All-weaken P R f (x ∷ xs) (p, h) = (f x p, All-weaken P R f xs h)

All-append_list : (R : ℕ → Type 0) (xs ys : List ℕ) → All R xs → All R ys → All R (xs ++ ys)
All-append_list R [] ys h k = k
All-append_list R (x ∷ xs) ys (r, h) k = (r, All-append_list R xs ys h k)

module _ (Q : ℕ → ℕ → ℕ → Type 0) (begin end : ℕ) where
  range_entry-IsRanged :
      (tid : ℕ) (txp : TxPending)
      → AllPairs (Q tid) txp.ids txp.alloc_tx
      → IsRanged Q begin end tid txp (range_entry begin end tid txp)
  unfolding range_entry
  range_entry-IsRanged tid txp qs = elim (Bool-cases (ltb tid begin || ltb end tid)) [
    | inl outside ↦ rw outside (some txp, [], refl, qs, tt, λ p. omega arith)
    | inr inside ↦ rw inside (elim (Bool-cases (txp.last_release_begin == begin)) [
      | inl again ↦ rw again (some txp, [], refl, qs, tt, λ p. omega arith)
      | inr new ↦
          let (ids, alloc, m, run, qs', out, mv, same) =
            sweep-IsSwept (Q tid) begin end (suc (length txp.ids)) 0 txp.ids txp.alloc_tx []
              (omega arith) (omega arith) qs tt tt in
          rw (new, run)
            (
              kept_entry begin txp ids alloc,
              m,
              refl,
              kept_entry-OptionalPairs (Q tid) begin txp ids alloc qs',
              All-weaken (IsMovable (Q tid) begin end) (IsReleasable Q begin end)
                  (λ p (a, q, lo, hi). (tid, a, q, ground arith, ground arith, lo, hi)) m mv,
              λ p. rw (kept_entry-ids begin txp ids alloc) (omega (arith, same p)),
            )
    ])
  ]

  abbrev IsRangedAll : Map TxPending → Outcome (Map TxPending × List ℕ) → Type 0
  IsRangedAll m r =
      (m' : Map TxPending) × (moved : List ℕ) × (r ≡ done (m', moved))
      × AllEntries Q m'
      × DistinctKeys m'
      × ((tid : ℕ) → get tid m ≡ none → get tid m' ≡ none)
      × All (IsReleasable Q begin end) moved
      × ((p : ℕ) → count p (pending_ids m) ≡ count p (pending_ids m') + count p moved)

  keep_lem :
      (tid : ℕ) (kept : Option TxPending) (m : Map TxPending)
      → OptionalPairs (Q tid) kept
      → AllEntries Q m
      → DistinctKeys m
      → get tid m ≡ none
      → AllEntries Q (keep tid kept m)
        × DistinctKeys (keep tid kept m)
        × ((p : ℕ)
            → count p (pending_ids (keep tid kept m))
              ≡ count p (optional_ids kept) + count p (pending_ids m))
        × ((t : ℕ) → (tid ≡ t → ⊥) → get t (keep tid kept m) ≡ get t m)
  unfolding keep pending_ids get
  keep_lem tid none m q qs d new = (qs, d, λ p. omega arith, λ t ne. refl)
  keep_lem tid (some txp) m q qs d new = (
    (q, qs),
    (new, d),
    λ p. omega (arith, count-append p txp.ids (pending_ids m)),
    λ t ne. ground (arith, ne),
  )

  range_pending-IsRangedAll :
      (m : Map TxPending)
      → AllEntries Q m
      → DistinctKeys m
      → IsRangedAll m (range_pending begin end m)
  unfolding range_pending pending_ids get
  range_pending-IsRangedAll [] qs d = ([], [], refl, tt, tt, λ tid e. refl, tt, λ p. refl)
  range_pending-IsRangedAll ((tid, txp) ∷ m) (q, qs) (new, d) =
      let (kept, moved, run, okept, ok_moved, same) = range_entry-IsRanged tid txp q in
      let (m', more, run', qs', d', absent, ok_more, same') = range_pending-IsRangedAll m qs d in
      let (qs'', d'', cnt, other) = keep_lem tid kept m' okept qs' d' (absent tid new) in
      rw (run, run')
        (
          keep tid kept m',
          moved ++ more,
          refl,
          qs'',
          d'',
          λ t e. elim (Bool-cases (tid == t)) [
            | inl here ↦ absurd (ground (arith, e))
            | inr there ↦ other t (λ e'. ground arith) ∙ absent t (ground (arith, e))
          ],
          All-append_list (IsReleasable Q begin end) moved more ok_moved ok_more,
          λ p. omega (
            arith,
            cnt p,
            same p,
            same' p,
            count-append p txp.ids (pending_ids m),
            count-append p moved more,
          ),
        )

AllPairs-Anything :
    (Q : ℕ → ℕ → Type 0) (tid : ℕ) (ps as' : List ℕ)
    → AllPairs Q ps as'
    → AllPairs (Anything tid) ps as'
AllPairs-Anything Q tid [] [] h = tt
AllPairs-Anything Q tid [] (a ∷ as') h = h
AllPairs-Anything Q tid (p ∷ ps) [] h = h
AllPairs-Anything Q tid (p ∷ ps) (a ∷ as') (q, h) = (tt, AllPairs-Anything Q tid ps as' h)

AllEntries-Anything :
    (Q : ℕ → ℕ → ℕ → Type 0) (m : Map TxPending) → AllEntries Q m → AllEntries Anything m
AllEntries-Anything Q [] h = tt
AllEntries-Anything Q ((tid, txp) ∷ m) (q, h) =
    (AllPairs-Anything (Q tid) tid txp.ids txp.alloc_tx q, AllEntries-Anything Q m h)

contains-All : (R : ℕ → Type 0) (q : ℕ) (xs : List ℕ) → All R xs → contains q xs ≡ true → R q
unfolding contains
contains-All R q [] h e = cc
contains-All R q (x ∷ xs) (r, h) e = elim (Bool-cases (x == q)) [
  | inl here ↦ let e' : x ≡ q = ground arith in rw (← e') r
  | inr there ↦ contains-All R q xs h (ground arith)
]

-- What `release_range` ends with: a consistent freelist with the same cache. Only pages that were
-- freed and allocated within the range became free, free pages stay free, the entries left are
-- entries of before, and a page that is no longer pending is free.
pub record IsRangeReleased (Q : ℕ → ℕ → ℕ → Type 0) (begin end : ℕ) (f g : Freelist) : Type 0 where
  pub consistent : IsConsistent g
  pub gained : (p : ℕ) → IsFree g p → IsFree f p ⊎ IsReleasable Q begin end p
  pub kept_free : (p : ℕ) → IsFree f p → IsFree g p
  pub entries : AllEntries Q g.pending
  pub same_cache : g.cache ≡ f.cache
  pub same_allocs : g.allocs ≡ f.allocs

-- On a consistent freelist, `release_range` ends without a panic in a consistent freelist with the
-- same cache: pages that were free stay so, and a page becomes free only if an entry of a
-- transaction within the range lists it as allocated within the range. Every property `Q` of the
-- pending entries (page, allocating and freeing transaction) holds of those that stay.
pub release_range-IsRangeReleased :
    (Q : ℕ → ℕ → ℕ → Type 0) (f : Freelist) (begin end : ℕ)
    → IsConsistent f
    → AllEntries Q f.pending
    → (g : Freelist) × (release_range f begin end ≡ done g) × IsRangeReleased Q begin end f g
unfolding release_range
release_range-IsRangeReleased Q f begin end c qs = elim (Bool-cases (ltb end begin)) [
  | inl empty ↦ rw empty (
    f,
    refl,
    record {
      consistent = c;
      gained = λ p h. inl h;
      kept_free = λ p h. h;
      entries = qs;
      same_cache = refl;
      same_allocs = refl;
    },
  )
  | inr range ↦
      let (m, moved, run, qs', d, absent, ok_moved, same) =
        range_pending-IsRangedAll Q begin end f.pending qs c.pending_keys in
      let paired = AllEntries-Anything Q m qs' in
      let rest = merge_spans_same_rest (record f { pending = m }) moved in
      let grown = move-IsFree f m moved c d paired same in
      rw (range, run)
        (
          merge_spans (record f { pending = m }) moved,
          refl,
          record {
            consistent = move-IsConsistent f m moved c d paired same;
            gained = λ p h. elim ((grown p).0 h) [
              | inl old ↦ inl old
              | inr here ↦ inr (contains-All (IsReleasable Q begin end) p moved ok_moved here)
            ];
            kept_free = λ p h. (grown p).1 (inl h);
            entries = rw rest.0 qs';
            same_cache = rest.1;
            same_allocs = rest.2;
          },
        )
]
