-- ===== src/Tests/StoredTests.antt =====
-- The freelist page at a concrete state, with sorting as the merge.
use mathlib.Core.Path.{◌≡◌, refl}
use bbolt_rs.Prelude.{
  ℕ, ◌+◌, ◌/◌, ◌<◌, ◌↔◌, ◌⊎◌, List, [], ◌∷◌, ◌++◌, arith, done, length, length-append, length-sort,
  count-append, count-sort, sort, add_u64,
}
use bbolt_rs.Freelist.{Freelist, pages_from}
use bbolt_rs.Freelist.Spans.{IsFree}
use bbolt_rs.Freelist.Consistent.{IsConsistent, pending_ids, times_pending}
use bbolt_rs.Freelist.Index.{free_page_ids, count_all, size}
use bbolt_rs.Freelist.Stored.{
  FreelistPage, page_ids_mut, fill, merge_pids, copy_all, write_page, read_page,
}
use bbolt_rs.Freelist.Stored.RoundTrip.{IsMerge, stored, write_page-read_page}
use bbolt_rs.Meta.{Meta}
use bbolt_rs.Db.State.{db_allocate, commit_freelist}
use bbolt_rs.Db.Stored.{commit_freelist-read_page}
use bbolt_rs.Tests.FreelistTests.{pended, pended-IsConsistent}

abbrev by_sorting : List ℕ → List ℕ → List ℕ
by_sorting a b = sort (a ++ b)

by_sorting-IsMerge : IsMerge by_sorting
by_sorting-IsMerge = record {
  keeps = λ q a b. omega (arith, count-sort q (a ++ b), count-append q a b);
  lengths = λ a b. omega (arith, length-sort (a ++ b), length-append a b);
}

abbrev blank : FreelistPage
blank = record {
  header = record { id = 9; flags = 16; count = 0; overflow = 0 };
  words = 0 ∷ 0 ∷ 0 ∷ 0 ∷ 0 ∷ 0 ∷ 0 ∷ [];
}

abbrev filled : FreelistPage
filled = record {
  header = record { id = 9; flags = 16; count = 5; overflow = 0 };
  words = 3 ∷ 4 ∷ 7 ∷ 10 ∷ 11 ∷ 0 ∷ 0 ∷ [];
}

write_runs : write_page by_sorting pended blank ≡ done filled
unfolding write_page count_all add_u64 copy_all merge_pids fill sort free_page_ids pages_from
    pending_ids page_ids_mut
write_runs = refl

five_stored : length (stored by_sorting by_sorting-IsMerge pended) ≡ 5
unfolding sort free_page_ids pages_from pending_ids add_u64
five_stored = refl

five_in_all : length (free_page_ids pended) + length (pending_ids pended.pending) ≡ 5
unfolding sort free_page_ids pages_from pending_ids add_u64
five_in_all = refl

write_page-read_page_example :
    (g : FreelistPage) × (h : Freelist) × (write_page by_sorting pended blank ≡ done g)
    × (read_page g ≡ done h)
    × IsConsistent h
    × ((q : ℕ) → IsFree h q ↔ (IsFree pended q ⊎ (0 < times_pending pended q)))
write_page-read_page_example =
    write_page-read_page by_sorting by_sorting-IsMerge pended pended-IsConsistent
      (omega (arith, five_in_all)) blank (omega (arith, five_stored)) (omega (arith, five_stored))

abbrev a_meta : Meta
a_meta = record {
  magic = 0;
  version = 0;
  page_size = 64;
  flags = 0;
  root = record { root = 3; sequence = 0 };
  free_list = 2;
  pgid = 12;
  txid = 6;
  checksum = 0;
}

two_pending : length (pending_ids pended.pending) ≡ 2
unfolding pending_ids
two_pending = refl

commit_freelist-read_page_example :
    let (g, m, a) = db_allocate 64 1024 pended a_meta (add_u64 (size pended / 64) 1) in
    (page : FreelistPage) × (h : Freelist) × (commit_freelist by_sorting 64 1024 pended a_meta
      ≡ done (g, m, a, page))
    × (read_page page ≡ done h)
    × IsConsistent h
    × ((q : ℕ) → IsFree h q ↔ (IsFree g q ⊎ (0 < times_pending g q)))
commit_freelist-read_page_example =
    commit_freelist-read_page by_sorting by_sorting-IsMerge pended a_meta pended-IsConsistent 64
      1024 8 refl (omega arith) (omega (arith, five_in_all)) (omega (arith, two_pending))
