-- ===== src/Tests/FreelistTests.antt =====
-- Runs of the freelist, and its theorems at concrete states.
use bbolt_rs.Prelude.{
  ℕ, ◌+◌, ◌<◌, ◌≡◌, refl, ◌↔◌, ◌⊎◌, inr, true, false, ◌&&◌, not, subst, none, some, [], ◌∷◌, arith,
  if◌then◌else◌, leb, done, panic, get, insert, remove, contains, count, delete, sort, swap_remove,
  add_u64, sub_u64,
}
use bbolt_rs.Page.{PageHeader, is_free_list}
use bbolt_rs.Freelist
use bbolt_rs.Freelist.{
  Freelist, TxPending, allocate, set_insert, or_default, add_entry, del_entry, shrink_entry,
  add_span, pages_from, merge_spans, delete_all, first, spans_of_at_least,
}
use bbolt_rs.Freelist.Spans.{IsFree, IsWf}
use bbolt_rs.Freelist.Merge
use bbolt_rs.Freelist.Allocate.{AllocateResult}
use bbolt_rs.Freelist.Allocate
use bbolt_rs.Freelist.Booking
use bbolt_rs.Freelist.Consistent.{IsConsistent, pending_ids, times_pending}
use bbolt_rs.Freelist.Pending.{free, release, released, release_range, rollback, freed}
use bbolt_rs.Freelist.Pending.Free
use bbolt_rs.Freelist.Pending.Free.{IsFreed, in_run}
use bbolt_rs.Freelist.Pending.Release
use bbolt_rs.Freelist.Pending.Range
use bbolt_rs.Freelist.Pending.Range.{IsRangeReleased}
use bbolt_rs.Freelist.Pending.Rollback
use bbolt_rs.Freelist.Pending.Rollback.{IsRolledBack}
use bbolt_rs.Freelist.Index.{init, read_ids, reload}
use bbolt_rs.Freelist.Index.Reload
use bbolt_rs.Db.{free_pages}
use bbolt_rs.Db.Reclaim
use bbolt_rs.Db.Reclaim.{IsInvisible}

program : Unit {0}
unfolding Freelist.del_span get insert remove contains delete sort swap_remove add_u64 sub_u64
    set_insert or_default add_entry del_entry shrink_entry add_span pages_from merge_spans
    delete_all first spans_of_at_least pending_ids init read_ids free is_free_list allocate release
    release_range rollback free_pages reload
program = tt

-- Pages 10 and 11 belong to transaction 5.
abbrev base : Freelist
base = record Freelist.new { allocs = (10, 5) ∷ [] }

-- Pages 3, 4 and 7 are free.
abbrev pub loaded : Freelist
loaded = record {
  allocs = (10, 5) ∷ [];
  pending = [];
  cache = 7 ∷ 4 ∷ 3 ∷ [];
  free_maps = (1, 7 ∷ []) ∷ (2, 3 ∷ []) ∷ [];
  forward_map = (7, 1) ∷ (3, 2) ∷ [];
  backward_map = (7, 1) ∷ (4, 2) ∷ [];
}

loaded_by_reading : read_ids base (3 ∷ 4 ∷ 7 ∷ []) ≡ done loaded
unfolding program
loaded_by_reading = refl

loaded_lem :
    IsConsistent loaded × ((q : ℕ) → IsFree loaded q ↔ (contains q (3 ∷ 4 ∷ 7 ∷ []) ≡ true))
loaded_lem =
    Reload.read_ids-IsConsistent base loaded 3 (4 ∷ 7 ∷ []) refl (omega arith) loaded_by_reading

loaded-IsConsistent : IsConsistent loaded
loaded-IsConsistent = loaded_lem.0

-- A leaf page with one overflow page.
abbrev leaf_page : PageHeader
leaf_page = record { id = 10; flags = 2; count = 3; overflow = 1 }

-- The same after transaction 5 has freed it.
abbrev pub pended_list : TxPending
pended_list = record { ids = 10 ∷ 11 ∷ []; alloc_tx = 5 ∷ 5 ∷ []; last_release_begin = 0 }

abbrev pub pended : Freelist
pended = record loaded {
  allocs = [];
  pending = (5, pended_list) ∷ [];
  cache = 11 ∷ 10 ∷ 7 ∷ 4 ∷ 3 ∷ [];
}

free-IsFreed_example :
    (g : Freelist) × (free loaded 5 leaf_page ≡ done g) × IsFreed loaded leaf_page g
unfolding contains
free-IsFreed_example =
    Free.free-IsFreed loaded 5 leaf_page loaded-IsConsistent (omega arith) (omega arith)
      (λ q h. ground (arith, h))

pended_by_freeing : free loaded 5 leaf_page ≡ done pended
unfolding program
pended_by_freeing = refl

pended-IsFreed : IsFreed loaded leaf_page pended
pended-IsFreed = same free-IsFreed_example
  where
    same :
        (g : Freelist) × (free loaded 5 leaf_page ≡ done g) × IsFreed loaded leaf_page g
        → IsFreed loaded leaf_page pended
    same (g, run, r) =
        let e : g ≡ pended = cc pended_by_freeing in subst (IsFreed loaded leaf_page) e r

pub pended-IsConsistent : IsConsistent pended
pended-IsConsistent = pended-IsFreed.consistent

-- A page that is pending is not freed twice.
free_panic_example : free pended 6 (record leaf_page { overflow = 0 }) ≡ panic
unfolding pending_ids
free_panic_example =
    Free.free_panic pended 6 (record leaf_page { overflow = 0 }) pended-IsConsistent (omega arith)
      (omega arith) 10 refl (inr ten_is_pending)
  where
    ten_is_pending : 0 < times_pending pended 10
    ten_is_pending = omega arith

allocate_exact : (allocate loaded 5 1).1 ≡ some 7
unfolding program
allocate_exact = refl

allocate-AllocateResult_example : AllocateResult loaded 6 2 (allocate loaded 6 2)
allocate-AllocateResult_example = Allocate.allocate-AllocateResult loaded 6 2 loaded-IsConsistent.wf

allocate-IsConsistent_example : IsConsistent (allocate pended 6 1).0
allocate-IsConsistent_example = Booking.allocate-IsConsistent pended 6 1 pended-IsConsistent

-- Page 5 joins the span 3 to 4, and then page 6 joins it to page 7.
merge_spans-IsWf_example :
    IsWf (merge_spans loaded (5 ∷ 6 ∷ []))
    × ((q : ℕ)
        → IsFree (merge_spans loaded (5 ∷ 6 ∷ [])) q
          ↔ (IsFree loaded q ⊎ (contains q (5 ∷ 6 ∷ []) ≡ true)))
unfolding contains
merge_spans-IsWf_example = Merge.merge_spans-IsWf loaded (5 ∷ 6 ∷ []) loaded-IsConsistent.wf (
  not-IsFree 5 five,
  omega arith,
  omega arith,
  five_once,
  (not-IsFree 6 six, omega arith, omega arith, six_once, tt),
)
  where
    five : contains 5 (3 ∷ 4 ∷ 7 ∷ []) ≡ false
    five = refl

    six : contains 6 (3 ∷ 4 ∷ 7 ∷ []) ≡ false
    six = refl

    five_once : contains 5 (6 ∷ []) ≡ false
    five_once = refl

    six_once : contains 6 [] ≡ false
    six_once = refl

    not-IsFree : (q : ℕ) → contains q (3 ∷ 4 ∷ 7 ∷ []) ≡ false → ¬ IsFree loaded q
    not-IsFree q h free = let e = (loaded_lem.1 q).0 free in cc

merged_into_one : (merge_spans loaded (5 ∷ 6 ∷ [])).forward_map ≡ (3, 5) ∷ []
unfolding program
merged_into_one = refl

release-IsConsistent_example :
    IsConsistent (release pended 5)
    × ((q : ℕ)
        → IsFree (release pended 5) q
          ↔ (IsFree pended q ⊎ (contains q (released 5 pended.pending) ≡ true)))
    × ((q : ℕ)
        → count q (pending_ids pended.pending)
          ≡ count q (pending_ids (release pended 5).pending) + count q (released 5 pended.pending))
    × ((tid : ℕ)
        → get tid (release pended 5).pending ≡ (if leb tid 5 then none else get tid pended.pending))
    × ((release pended 5).cache ≡ pended.cache)
    × ((release pended 5).allocs ≡ pended.allocs)
release-IsConsistent_example = Release.release-IsConsistent pended 5 pended-IsConsistent

-- Who freed the two pages, and who allocated them.
abbrev ByFive : ℕ → ℕ → ℕ → Type 0
ByFive tid p a = (tid ≡ 5) × (a ≡ 5)

release_range-IsRangeReleased_example :
    (g : Freelist) × (release_range pended 4 6 ≡ done g) × IsRangeReleased ByFive 4 6 pended g
release_range-IsRangeReleased_example =
    Range.release_range-IsRangeReleased ByFive pended 4 6 pended-IsConsistent (omega arith)

free_pages-safe_example :
    (g : Freelist) × (free_pages pended (8 ∷ 3 ∷ []) ≡ done (g, sort (8 ∷ 3 ∷ [])))
    × IsConsistent g
    × ((p : ℕ) → IsFree g p → IsFree pended p ⊎ IsInvisible ByFive (8 ∷ 3 ∷ []) p)
    × ((p : ℕ) → IsFree pended p → IsFree g p)
    × (g.cache ≡ pended.cache)
unfolding contains
free_pages-safe_example =
    Reclaim.free_pages-safe ByFive pended (8 ∷ 3 ∷ []) pended-IsConsistent (omega arith)
      (λ r h. ground (arith, h))

rollback-IsRolledBack_example : IsRolledBack pended 5 pended_list (rollback pended 5)
unfolding get
rollback-IsRolledBack_example =
    Rollback.rollback-IsRolledBack pended 5 pended_list pended-IsConsistent refl

rollback_forgets_example : IsFree (rollback pended 5) 11 × (freed (rollback pended 5) 11 ≡ false)
unfolding get contains
rollback_forgets_example =
    Rollback.rollback_forgets pended 5 pended_list pended-IsConsistent refl 11 refl

reload_lem_example :
    (g : Freelist) × (reload pended (3 ∷ 10 ∷ 11 ∷ []) ≡ done g)
    × IsWf g
    × ((p : ℕ)
        → IsFree g p ↔ (
            (contains p (3 ∷ 10 ∷ 11 ∷ []) && not (contains p (pending_ids pended.pending)))
            ≡ true))
unfolding contains pending_ids
reload_lem_example = Reload.reload_lem pended 3 (10 ∷ 11 ∷ []) (omega arith) 3 refl refl

-- Transaction 5 has freed pages 10 and 11; a freelist page that lists just these makes them free.
reload_frees_pending_example :
    (g : Freelist) × (reload pended (10 ∷ 11 ∷ []) ≡ done g)
    × ((p : ℕ)
        → contains p (10 ∷ 11 ∷ []) ≡ true
        → IsFree g p × (contains p (pending_ids g.pending) ≡ true))
unfolding contains pending_ids
reload_frees_pending_example =
    Reload.reload_frees_pending pended 10 (11 ∷ []) (omega arith) (λ q h. ground (arith, h))
