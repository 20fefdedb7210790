-- ===== src/Freelist/Stored/RoundTrip.antt =====
-- What `write` of src/freelist.rs stores on the freelist page, `read` finds again.
use bbolt_rs.Prelude.{
  ℕ, suc, ◌+◌, ◌≤◌, ◌<◌, ◌≡◌, refl, ap, ◌∙◌, ◌↔◌, ◌⊎◌, inl, inr, true, false, ◌∷◌, [], List, arith,
  ltb, ◌==◌, take, drop, length-take, sort, length, length-append, count, contains, count-sort,
  length-sort, sort-IsSorted, contains-count, ◌++◌, done, u64_mod, add_u64_lem, Bool-cases, Map,
}
use bbolt_rs.Freelist.{Freelist, TxPending, new}
use bbolt_rs.Freelist.Spans.{IsFree, IsWf}
use bbolt_rs.Freelist.Consistent.{IsConsistent, pending_ids, times_pending}
use bbolt_rs.Freelist.Index.{count_all, sum_pending, pending_count, free_page_ids, read_ids}
use bbolt_rs.Freelist.Index.Listing.{free_page_ids_lem}
use bbolt_rs.Freelist.Index.Build.{Ascending}
use bbolt_rs.Freelist.Index.Reload.{sorted-Ascending, read_ids-IsRead, read_ids-IsConsistent}
use bbolt_rs.Freelist.Stored.{
  FreelistPage, u16_max, u32_max, page_count, page_ids, page_ids_mut, fill, read_page, merge_pids,
  copy_all, write_page,
}

-- What the code relies on: the merge of two lists has the elements of both.
pub record IsMerge (kmerge : List ℕ → List ℕ → List ℕ) : Type 0 where
  pub keeps : (q : ℕ) (a b : List ℕ) → count q (kmerge a b) ≡ count q a + count q b
  pub lengths : (a b : List ℕ) → length (kmerge a b) ≡ length a + length b

sum_pending-length :
    (m : Map TxPending) → length (pending_ids m) < u64_mod → sum_pending m ≡ length (pending_ids m)
unfolding pending_ids sum_pending
sum_pending-length [] h = refl
sum_pending-length ((t, txp) ∷ m) h =
    let whole = length-append txp.ids (pending_ids m) in
    rw (sum_pending-length m (omega (arith, whole))) (
      add_u64_lem (length txp.ids) (length (pending_ids m)) (omega (arith, whole))
      ∙ omega (arith, whole))

fill_lem : (dst ids : List ℕ) → length dst ≡ length ids → fill dst ids ≡ done ids
unfolding fill
fill_lem [] [] h = refl
fill_lem (d ∷ dst) [] h = absurd (omega arith)
fill_lem [] (id ∷ ids) h = absurd (omega arith)
fill_lem (d ∷ dst) (id ∷ ids) h = rw (fill_lem dst ids (omega arith)) refl

take-prefix : (xs ys : List ℕ) → take (length xs) (xs ++ ys) ≡ xs
take-prefix [] ys = refl
take-prefix (x ∷ xs) ys = ap (λ zs. x ∷ zs) (take-prefix xs ys)

length-drop_one : (xs : List ℕ) → length xs ≤ suc (length (drop 1 xs))
length-drop_one [] = omega arith
length-drop_one (x ∷ xs) = omega arith

nil_of_length : (xs : List ℕ) → length xs ≡ 0 → [] ≡ xs
nil_of_length [] h = refl
nil_of_length (x ∷ xs) h = absurd (omega arith)

module _ (kmerge : List ℕ → List ℕ → List ℕ) (merges : IsMerge kmerge) (f : Freelist) where
  -- All free and pending pages, as they are stored.
  abbrev pub stored : List ℕ
  stored = kmerge (free_page_ids f) (sort (pending_ids f.pending))

  module _ (w : IsWf f)
      (few : length (free_page_ids f) + length (pending_ids f.pending) ≤ u32_max) where
    pub count_all-stored : count_all f ≡ length stored
    unfolding count_all pending_count
    count_all-stored =
        let (_, _, _, free) = free_page_ids_lem f w in
        let pending : sum_pending f.pending ≡ length (pending_ids f.pending) =
          sum_pending-length f.pending (omega arith) in
        let both = merges.lengths (free_page_ids f) (sort (pending_ids f.pending)) in
        let same = length-sort (pending_ids f.pending) in
        rw (free, pending)
          (add_u64_lem (length (free_page_ids f)) (length (pending_ids f.pending)) (omega arith)
            ∙ omega (arith, both, same))

    -- With at most `u32::MAX` free and pending pages, and a page with room for their ids and one word
    -- more, `write` ends without a panic, and the ids that it stores are found on the page.
    pub write_page-page_ids :
        (p : FreelistPage)
        → suc (length stored) ≤ length p.words
        → (g : FreelistPage) × (write_page kmerge f p ≡ done g) × (page_ids g ≡ done stored)
    unfolding write_page copy_all merge_pids page_ids_mut page_ids page_count
    write_page-page_ids p room = elim (Bool-cases (length stored == 0)) [
      | inl none_stored ↦
          let empty : length stored ≡ 0 = ground arith in
          rw (count_all-stored, none_stored)
            (
              record p { header = record p.header { count = 0 } },
              refl,
              ap done (nil_of_length stored empty),
            )
      | inr some_stored ↦ elim (Bool-cases (ltb (length stored) u16_max)) [
        | inl small ↦
            let at_most : (length stored == u16_max) ≡ false = ground arith in
            let filled =
              fill_lem (take (length stored) p.words) stored
                (length-take (length stored) p.words (omega arith)) in
            rw (count_all-stored, some_stored, small, filled)
              (_, refl, rw at_most (ap done (take-prefix stored _)))
        | inr large ↦
            let fits : ltb u32_max (length stored) ≡ false = ground (
              arith,
              merges.lengths (free_page_ids f) (sort (pending_ids f.pending)),
              length-sort (pending_ids f.pending),
            ) in
            let filled = fill_lem (take (length stored) (drop 1 p.words)) stored (
              length-take (length stored) (drop 1 p.words)
                (omega (arith, length-drop_one p.words))) in
            rw (count_all-stored, some_stored, large, filled)
              (_, refl, rw fits (ap done (take-prefix stored _)))
      ]
    ]

  module _ (c : IsConsistent f)
      (few : length (free_page_ids f) + length (pending_ids f.pending) ≤ u32_max) where
    stored-count : (q : ℕ) → count q (sort stored) ≡ count q (free_page_ids f) + times_pending f q
    stored-count q = omega (
      arith,
      count-sort q stored,
      merges.keeps q (free_page_ids f) (sort (pending_ids f.pending)),
      count-sort q (pending_ids f.pending),
    )

    listed_or_not :
        (q : ℕ)
        → (IsFree f q × (0 < count q (free_page_ids f)) × (times_pending f q ≡ 0))
          ⊎ (count q (free_page_ids f) ≡ 0)
    listed_or_not q =
        let (members, _, once, _) = free_page_ids_lem f c.wf in
        elim (Bool-cases (contains q (free_page_ids f))) [
          | inl yes_free ↦
              let free = (members q).0 yes_free in
              inl (
                free,
                ground (arith, yes_free, contains-count q (free_page_ids f)),
                c.exclusive q free,
              )
          | inr not_free ↦ inr (ground (arith, not_free, contains-count q (free_page_ids f)))
        ]

    stored-Ascending : Ascending 0 (sort stored)
    stored-Ascending =
        let (members, _, once, _) = free_page_ids_lem f c.wf in
        sorted-Ascending 0 (sort stored) (sort-IsSorted stored)
          (λ q. elim (listed_or_not q) [
            | inl (_, _, alone) ↦ omega (arith, alone, once q, stored-count q)
            | inr absent ↦ omega (arith, absent, c.once q, stored-count q)
          ])
          (λ q h. elim (listed_or_not q) [
            | inl ((s, n, e, lo, hi), _, _) ↦ ground (arith, c.wf.bounds s n e, lo, hi)
            | inr absent ↦ c.proper q (omega (arith, absent, h, stored-count q))
          ])

    stored-contains :
        (q : ℕ) → (contains q (sort stored) ≡ true) ↔ (IsFree f q ⊎ (0 < times_pending f q))
    stored-contains q =
        let its = contains-count q (sort stored) in
        (
          λ h. elim (listed_or_not q) [
            | inl (free, _, _) ↦ inl free
            | inr absent ↦ inr (ground (arith, h, its, absent, stored-count q))
          ],
          λ h. elim h [
            | inl free ↦
                let (members, _, _, _) = free_page_ids_lem f c.wf in
                ground (
                  arith,
                  its,
                  stored-count q,
                  (members q).1 free,
                  contains-count q (free_page_ids f),
                )
            | inr pending ↦ ground (arith, its, stored-count q, pending)
          ],
        )

    -- A crash turns pending pages into free ones: of a consistent freelist with a free or pending
    -- page, and with at most `u32::MAX` of them, `write` and then `read` from the same page, which
    -- has room for the ids and one word more, give a consistent freelist in which exactly the pages
    -- that were free or pending are free.
    pub write_page-read_page :
        (p : FreelistPage)
        → 0 < length stored
        → suc (length stored) ≤ length p.words
        → (g : FreelistPage) × (h : Freelist) × (write_page kmerge f p ≡ done g)
          × (read_page g ≡ done h)
          × IsConsistent h
          × ((q : ℕ) → IsFree h q ↔ (IsFree f q ⊎ (0 < times_pending f q)))
    unfolding read_page
    write_page-read_page p some_page room =
        let (g, run, ids) = write_page-page_ids c.wf few p room in
        let (h, run', ch, frees) = from (sort stored) refl stored-Ascending in
        (
          g,
          h,
          run,
          rw ids run',
          ch,
          λ q. (
            λ free. (stored-contains q).0 ((frees q).0 free),
            λ either. (frees q).1 ((stored-contains q).1 either),
          ),
        )
      where
        from :
            (xs : List ℕ)
            → sort stored ≡ xs
            → Ascending 0 xs
            → (h : Freelist) × (read_ids new xs ≡ done h)
              × IsConsistent h
              × ((q : ℕ) → IsFree h q ↔ (contains q xs ≡ true))
        from [] e up = absurd (omega (arith, length-sort stored, ap length e))
        from (id ∷ ids) e up =
            let (h, run, _) = read_ids-IsRead new id ids up in
            let (ch, frees) = read_ids-IsConsistent new h id ids refl up run in (h, run, ch, frees)
