-- ===== src/Db/Stored.antt =====
-- `commit_freelist` of src/db.rs: the pages that it takes hold the whole freelist.
use mathlib.Core.Path.{sym}
use native.Mathlib.Nat.{lt-div-mul-add, add-mul, mul_assoc, div-le_self}
use bbolt_rs.Prelude.{
  ℕ, zero, suc, ◌+◌, ◌-◌, ◌*◌, ◌/◌, ◌≤◌, ◌<◌, ◌≡◌, refl, ◌∙◌, ap, ◌↔◌, ◌⊎◌, Option, none, some,
  List, [], ◌∷◌, arith, ◌==◌, if◌then◌else◌, length, length-sort, sort, count, contains-count,
  delete, add_u64, add_u64_lem, u64_mod, done, ==_self,
}
use bbolt_rs.Meta.{Meta}
use bbolt_rs.Freelist.{Freelist, allocate}
use bbolt_rs.Freelist.Consistent.{IsConsistent, pending_ids, times_pending}
use bbolt_rs.Freelist.Spans.{IsFree}
use bbolt_rs.Freelist.Allocate.{AllocateResult as IsAnswer, allocate-AllocateResult}
use bbolt_rs.Freelist.Booking.{allocate-IsConsistent}
use bbolt_rs.Freelist.Index.{count_all, free_page_ids, size}
use bbolt_rs.Freelist.Index.Listing.{free_page_ids_lem}
use bbolt_rs.Freelist.Stored.{FreelistPage, u32_max, read_page}
use bbolt_rs.Freelist.Stored.RoundTrip.{IsMerge, stored, count_all-stored, write_page-read_page}
use bbolt_rs.Db.State.{zeroed, new_freelist_page, db_allocate, allocated, commit_freelist}

length-delete : (x : ℕ) (ys : List ℕ) → length ys ≡ length (delete x ys) + count x ys
unfolding delete
length-delete x [] = refl
length-delete x (y ∷ ys) = ground (arith, length-delete x ys)

count-delete : (x q : ℕ) (ys : List ℕ) → count q (delete x ys) ≡ (if x == q then 0 else count q ys)
unfolding delete
count-delete x q [] = ground arith
count-delete x q (y ∷ ys) = ground (arith, count-delete x q ys)

-- A list without repetition is no longer than one that has its elements.
subset-length :
    (xs ys : List ℕ)
    → ((q : ℕ) → count q xs ≤ 1)
    → ((q : ℕ) → 0 < count q xs → 0 < count q ys)
    → length xs ≤ length ys
subset-length [] ys once sub = omega arith
subset-length (x ∷ xs) ys once sub =
    let rest =
      subset-length xs (delete x ys) (λ q. ground (arith, once q))
        (λ q pos. ground (arith, once q, sub q, count-delete x q ys, ==_self x)) in
    ground (arith, rest, length-delete x ys, sub x, ==_self x)

length-zeroed : (n : ℕ) → length (zeroed n) ≡ n
unfolding zeroed
length-zeroed zero = refl
length-zeroed (suc n) = ap suc (length-zeroed n)

-- The freelist after the call, whichever pages it gives.
pub db_allocate-freelist :
    (page_size data_size n : ℕ) (f : Freelist) (m : Meta)
    → (db_allocate page_size data_size f m n).0 ≡ (allocate f m.txid n).0
unfolding db_allocate allocated
db_allocate-freelist page_size data_size n f m = by_result (allocate f m.txid n)
  where
    by_result : (r : Freelist × Option ℕ) → (allocated page_size data_size m n r).0 ≡ r.0
    by_result (g, none) = refl
    by_result (g, some p) = refl

-- Only free pages go.
pub allocate_subset :
    (f : Freelist) (txid n : ℕ)
    → IsConsistent f
    → let g = (allocate f txid n).0 in ((q : ℕ) → IsFree g q → IsFree f q) × (g.pending ≡ f.pending)
allocate_subset f txid n c = by_result (allocate f txid n) (allocate-AllocateResult f txid n c.wf)
  where
    by_result :
        (r : Freelist × Option ℕ)
        → IsAnswer f txid n r
        → ((q : ℕ) → IsFree r.0 q → IsFree f q) × ((r.0).pending ≡ f.pending)
    by_result (g, none) (same, _) = rw same (λ q free. free, refl)
    by_result (g, some p) (_, x) = (λ q free. ((x.frees q).0 free).0, x.same_pending)

fewer_pages :
    (f g : Freelist)
    → IsConsistent f
    → IsConsistent g
    → ((q : ℕ) → IsFree g q → IsFree f q)
    → length (free_page_ids g) ≤ length (free_page_ids f)
fewer_pages f g c d sub =
    let (in_f, _, _, _) = free_page_ids_lem f c.wf in
    let (in_g, _, once, _) = free_page_ids_lem g d.wf in
    subset-length (free_page_ids g) (free_page_ids f) once (λ q pos.
      let here =
        (in_f q).1 (sub q ((in_g q).0 (ground (arith, contains-count q (free_page_ids g))))) in
      ground (arith, here, contains-count q (free_page_ids f)))

-- The pages have room for the ids and a word more.
room :
    (s page_size k n : ℕ)
    → page_size ≡ k * 8
    → 0 < k
    → 16 + 8 * n ≤ s
    → suc n ≤ ((s / page_size + 1) * page_size - 16) / 8
room s page_size k n e pos small =
    let below = lt-div-mul-add {a = s} {b = page_size} (omega arith) in
    let whole : (s / page_size + 1) * page_size ≡ (s / page_size + 1) * k * 8 =
      ap (λ x. (s / page_size + 1) * x) e ∙ sym (mul_assoc (s / page_size + 1) k 8) in
    let grown = add-mul (s / page_size) 1 page_size in omega (arith, below, whole, grown)

module _ (kmerge : List ℕ → List ℕ → List ℕ) (merges : IsMerge kmerge) (f : Freelist) (m : Meta)
    (c : IsConsistent f) (page_size data_size k : ℕ) (words : page_size ≡ k * 8) (pos : 0 < k)
    (few : length (free_page_ids f) + length (pending_ids f.pending) < u32_max)
    (some_page : 0 < length (pending_ids f.pending)) where
  abbrev pages_needed : ℕ
  pages_needed = add_u64 (size f / page_size) 1

  size_bounds :
      (n : ℕ)
      → n ≤ length (free_page_ids f) + length (pending_ids f.pending)
      → (16 + 8 * n ≤ size f) × (size f + 1 < u64_mod)
  unfolding size
  size_bounds n le =
      let all = count_all-stored kmerge merges f c.wf (omega arith) in
      let both = merges.lengths (free_page_ids f) (sort (pending_ids f.pending)) in
      let sorted = length-sort (pending_ids f.pending) in
      ground (arith, all, both, sorted, add_u64_lem (count_all f) 1)

  enough :
      (n : ℕ)
      → n ≤ length (free_page_ids f) + length (pending_ids f.pending)
      → suc n ≤ (pages_needed * page_size - 16) / 8
  enough n le =
      let (low, high) = size_bounds n le in
      let exact : pages_needed ≡ size f / page_size + 1 =
        add_u64_lem (size f / page_size) 1 (omega (arith, div-le_self (size f) page_size)) in
      rw exact (room (size f) page_size k n words pos low)

  -- On a consistent freelist with fewer than `u32::MAX` free and pending pages, of which one is pending,
  -- and with a page size that is a multiple of 8, `commit_freelist` ends without a panic: the pages
  -- that it takes have room for the freelist that is left, and what is read back from them is a
  -- consistent freelist in which exactly the pages are free that were free or pending.
  pub commit_freelist-read_page :
      let (g, m', a) = db_allocate page_size data_size f m pages_needed in
      (page : FreelistPage) × (h : Freelist) × (commit_freelist kmerge page_size data_size f m
        ≡ done (g, m', a, page))
      × (read_page page ≡ done h)
      × IsConsistent h
      × ((q : ℕ) → IsFree h q ↔ (IsFree g q ⊎ (0 < times_pending g q)))
  unfolding commit_freelist new_freelist_page
  commit_freelist-read_page =
      let r = db_allocate page_size data_size f m pages_needed in
      let g : Freelist = r.0 in
      let same : g ≡ (allocate f m.txid pages_needed).0 =
        db_allocate-freelist page_size data_size pages_needed f m in
      let d : IsConsistent g = rw same (allocate-IsConsistent f m.txid pages_needed c) in
      let (sub, pending) = allocate_subset f m.txid pages_needed c in
      let fewer : length (free_page_ids g) ≤ length (free_page_ids f) =
        fewer_pages f g c d (rw same sub) in
      let same_pending : g.pending ≡ f.pending = rw same pending in
      let pends : length (pending_ids g.pending) ≡ length (pending_ids f.pending) =
        ap (λ m. length (pending_ids m)) same_pending in
      let both = merges.lengths (free_page_ids g) (sort (pending_ids g.pending)) in
      let sorted = length-sort (pending_ids g.pending) in
      let few' : length (free_page_ids g) + length (pending_ids g.pending) ≤ u32_max =
        omega (arith, fewer, pends) in
      let (page, h, run, back, e, frees) =
        write_page-read_page kmerge merges g d few' (new_freelist_page page_size pages_needed r.2)
          (omega (arith, both, sorted, pends))
          (omega (
            arith,
            length-zeroed ((pages_needed * page_size - 16) / 8),
            enough (length (stored kmerge merges g)) (omega (arith, both, sorted, pends, fewer)),
          )) in
      (page, h, rw run refl, back, e, frees)
