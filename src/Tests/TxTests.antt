-- ===== src/Tests/TxTests.antt =====
-- The write transaction's commit, its batches and the sizes of the file at concrete inputs.
use mathlib.Core.Path.{◌≡◌, refl, ap, sym}
use native.Mathlib.Omega.{arith}
use bbolt_rs.Prelude.{
  ℕ, ◌+◌, ◌*◌, ◌^◌, ◌≤◌, ◌<◌, ◌⊎◌, inl, inr, false, Option, none, some, List, [], ◌∷◌, ◌++◌, length,
  Outcome, done, panic, diverge, contains, get, sort, count,
}
use bbolt_rs.Page.{PageHeader, free_list_page_flag}
use bbolt_rs.Meta.{Meta, MetaPage}
use bbolt_rs.Freelist.{Freelist}
use bbolt_rs.Freelist.Spans.{IsFree}
use bbolt_rs.Tx.Growth.{GrowFails}
use bbolt_rs.Db.State.{Database, commit, rolled_back, begin_rw_tx}
use bbolt_rs.Db.MmapSize.{mmap_size, mmap_size_bounds, max_map_size, max_mmap_step}
use bbolt_rs.Db.Batch.{Call, Answer, run, run_calls, all_ok}
use bbolt_rs.Db.Batch.Answers.{answered, run_ignores_errors}
use bbolt_rs.Db.Batch.Counted.{
  counted_calls, counted_begin, counted_commit, counted_rollback, run_answers_once,
}
use bbolt_rs.Tx.{
  Backend, Tx, write_meta, write_tx_page, page_bytes, page_offset, is_explicit_rollback, commit_tx,
  drop_tx,
}
use bbolt_rs.Meta.{current_meta}
use bbolt_rs.System.Start.{first_database, second_current, new-IsConsistent}
use bbolt_rs.Tx.Write.{write_tx_page_small, write_tx_page_large}
use bbolt_rs.Tx.Commit.{HasEnded, commit_tx-HasEnded}
use bbolt_rs.Tx.MetaWrite.{sealed, write_meta-switches}
use bbolt_rs.Meta.Current.{IsValid}
use bbolt_rs.Tx.Dropped.{drop_tx-loses_pages}
use bbolt_rs.Freelist.Pending.{free, alloc_tx_of, free_run, page_run, pending_or_new}
use bbolt_rs.Db.Open.{init_meta_page, init_meta, init_page}
use bbolt_rs.Prelude.{add_u64, insert, remove, insert_sorted, sub_u64, delete}
use bbolt_rs.Db.State.{
  commit_freelist, allocated, db_allocate, new_freelist_page, zeroed, remove_rw_tx, closed_freelist,
  is_rollback,
}
use bbolt_rs.Freelist.Stored.{write_page as store, copy_all, merge_pids, fill, page_ids_mut}
use bbolt_rs.Freelist.Index.{
  count_all, size, free_count, free_page_ids, pending_count, span_pages, sum_pending, sum_values,
}
use bbolt_rs.Freelist.Consistent.{pending_ids}
use bbolt_rs.Freelist.{
  allocate, first, or_default, spans_of_at_least, allocate_from, allocate_larger, pages_from,
  set_insert,
}
use bbolt_rs.Meta.{bytes_before_checksum, le_bytes, validate, choose}
use bbolt_rs.Page.{is_free_list, mut_into}
use bbolt_rs.Tx.{
  after_freelist, after_grow, after_spill, commit_freelist_tx, grow_result, has_meta_page, mmap_to,
  place_freelist, put_page,
}

program : Unit {0}
unfolding commit_tx is_explicit_rollback sort contains get current_meta free alloc_tx_of free_run
    page_run pending_or_new init_meta_page init_meta init_page add_u64 insert remove insert_sorted
    sub_u64 delete commit_freelist allocated db_allocate new_freelist_page zeroed remove_rw_tx
    closed_freelist is_rollback store copy_all merge_pids fill page_ids_mut count_all size
    free_count free_page_ids pending_count span_pages sum_pending sum_values pending_ids allocate
    first or_default spans_of_at_least allocate_from allocate_larger pages_from set_insert
    bytes_before_checksum le_bytes validate choose is_free_list mut_into after_freelist after_grow
    after_spill commit_freelist_tx grow_result has_meta_page mmap_to place_freelist put_page
program = tt

-- A file system that does not grow the file; the errors are numbers.
abbrev full_disk : Backend ℕ
full_disk = record {
  page_size = 512;
  data_size = 2048;
  max_alloc = 1000;
  no_sync = false;
  mmap = λ n. none;
  grow = λ n. some 28;
  write_all_at = λ offset n. none;
  torn = λ old new. old;
  fsync = none;
}

abbrev hash : List ℕ → ℕ
hash = length

abbrev header : ℕ → ℕ → PageHeader
header id overflow = record { id = id; flags = 2; count = 0; overflow = overflow }

write_tx_page_small_example :
    ((full_disk.write_all_at
          (page_offset full_disk (header 5 0))
          (page_bytes full_disk (header 5 0))
        ≡ none)
      × (write_tx_page full_disk (header 5 0)
          ≡ done (record { start = 0; length = 512; offset = 2560 } ∷ [], none)))
    ⊎ ((e : ℕ) × (full_disk.write_all_at
            (page_offset full_disk (header 5 0))
            (page_bytes full_disk (header 5 0))
          ≡ some e)
        × (write_tx_page full_disk (header 5 0) ≡ done ([], some e)))
write_tx_page_small_example = write_tx_page_small full_disk (header 5 0) (omega arith) (omega arith)

write_tx_page_large_example :
    (write_tx_page full_disk (header 5 2) ≡ panic)
    ⊎ (write_tx_page full_disk (header 5 2) ≡ diverge)
write_tx_page_large_example =
    write_tx_page_large full_disk (header 5 2) (omega arith) (omega arith) (λ offset n. refl)

mmap_size_bounds_example :
    ((max_map_size < 100000) × (mmap_size 4096 100000 ≡ done none))
    ⊎ ((r : ℕ) × (mmap_size 4096 100000 ≡ done (some r))
        × (100000 ≤ r)
        × (2 ^ 15 ≤ r)
        × (r ≤ max_map_size)
        × ((r ≡ 2 ^ 15) ⊎ (r < 2 * 100000) ⊎ (r < 100000 + max_mmap_step + 4096)))
mmap_size_bounds_example = mmap_size_bounds 4096 100000 (omega arith)

abbrev begins : ℕ → ℕ ⊎ ℕ
begins s = inr s

abbrev commits_it : ℕ → ℕ × Option ℕ
commits_it t = (t, none)

abbrev rolls_back : ℕ → ℕ
rolls_back t = 0

-- A batch over a counter: the second call fails.
abbrev calls : List (Call ℕ ℕ)
calls =
    record { caller = 7; f = λ t. (t + 1, none) } ∷ record { caller = 8; f = λ t. (t, some 1) } ∷ []

run_answers_once_example :
    (n s' : ℕ) × (answers : List (ℕ × Answer)) × (run
        (counted_begin begins commits_it rolls_back)
        (counted_commit begins commits_it rolls_back)
        (counted_rollback begins commits_it rolls_back)
        3
        (0, 0)
        (counted_calls calls)
      ≡ done ((n, s'), answers))
    × (run begins commits_it rolls_back 3 0 calls ≡ done (s', answers))
    × (n ≤ 2)
    × ((q : ℕ) → count q (answered answers) ≡ count q (7 ∷ 8 ∷ []))
run_answers_once_example = run_answers_once begins commits_it rolls_back 0 calls

abbrev one_call : Call ℕ ℕ
one_call = record { caller = 7; f = λ t. (t + 1, none) }

run_ignores_errors_example :
    ((e : ℕ)
      → ◌≡◌ {A = ℕ ⊎ ℕ} (inr 0) (inl e)
      → run (λ s. inr s) (λ t. (0, some 5)) (λ t. 0) 1 0 (one_call ∷ [])
        ≡ done (0, all_ok (one_call ∷ [])))
    × ((t t' s' e : ℕ)
        → ◌≡◌ {A = ℕ ⊎ ℕ} (inr 0) (inr t)
        → run_calls 0 (one_call ∷ []) t ≡ (t', none, none)
        → ◌≡◌ {A = ℕ × Option ℕ} (0, some 5) (s', some e)
        → run (λ s. inr s) (λ t. (0, some 5)) (λ t. 0) 1 0 (one_call ∷ [])
          ≡ done (s', all_ok (one_call ∷ [])))
run_ignores_errors_example =
    run_ignores_errors (λ s. inr s) (λ t. (0, some 5)) (λ t. 0) 0 0 one_call []

abbrev database : Database
database = record (first_database hash 4096) { rwtx = some 2 }

-- The second transaction of a new database, about to commit.
abbrev ready : Tx
ready = record {
  db = database;
  meta = record database.current { txid = 2 };
  root = record { root = 3; sequence = 0 };
  closing = rolled_back;
  pages = [];
  freelist_page = none;
}

abbrev blank : MetaPage
blank = record { page = header 0 0; meta = database.meta0 }

abbrev ended : Outcome (Tx × Option ℕ) → Tx × Option ℕ
ended (done r) = r
ended panic = (ready, none)
ended diverge = (ready, none)

abbrev merge : List ℕ → List ℕ → List ℕ
merge xs ys = sort (xs ++ ys)

same_closing : (t t' : Tx) → ◌≡◌ {A = Outcome Tx} (done t) (done t') → t'.closing ≡ t.closing
same_closing t t' e = let same : t ≡ t' = cc in ap (λ t. t.closing) (sym same)

same_after :
    (t : Tx) (r : Tx × Option ℕ)
    → ◌≡◌ {A = Outcome (Tx × Option ℕ)} (done (t, none)) (done r)
    → (r.0).closing ≡ t.closing
same_after t r e =
    let same : ◌≡◌ {A = Tx × Option ℕ} (t, none) r = cc in ap (λ r. (r.0).closing) (sym same)

abbrev list_page : ℕ → PageHeader
list_page id = record (header id 0) { flags = free_list_page_flag }

abbrev commits : Outcome (Tx × Option ℕ)
commits = commit_tx full_disk hash merge (λ t. done t) (λ t. done (t, none)) list_page blank ready

commits_with_error : commits ≡ done (ended commits)
unfolding program
commits_with_error = refl

commit_tx-HasEnded_example :
    HasEnded full_disk hash merge
      (λ t. done t)
      (λ t. done (t, none))
      (λ id. record (header id 0) { flags = free_list_page_flag })
      blank
      ready
      (ended commits)
unfolding is_explicit_rollback
commit_tx-HasEnded_example =
    commit_tx-HasEnded full_disk hash merge (λ t. done t) (λ t. done (t, none)) list_page blank
      ready (ended commits) refl same_closing same_after commits_with_error

abbrev started : Tx
started = record ready { closing = commit }

abbrev freed : Outcome Freelist → Freelist
freed (done f) = f
freed panic = database.freelist
freed diverge = database.freelist

abbrev after_free : Freelist
after_free = freed (free database.freelist 2 (list_page 2))

-- The new freelist's page lies after the end of the file.
cannot_grow :
    GrowFails full_disk hash merge
      (λ t. done t)
      (λ t. done (t, none))
      list_page
      blank
      ready
      (ended commits).0
      28
unfolding program
cannot_grow = record {
  rebalanced = started;
  spilt = started;
  freelist = after_free;
  rebalances = refl;
  spills = refl;
  frees = refl;
  places = refl;
  fails = (refl, refl, refl);
}

drop_tx-loses_pages_example :
    (d : Database) × (commits ≡ done ((ended commits).0, some 28))
    × (drop_tx hash (ended commits).0 ≡ done d)
    × (d.current ≡ database.current)
    × ((d' : Database) × (m : Meta) × (begin_rw_tx d ≡ done (some (d', m))) × IsFree d'.freelist 2)
unfolding cannot_grow init_meta_page is_explicit_rollback
drop_tx-loses_pages_example =
    drop_tx-loses_pages full_disk hash merge (λ t. done t) (λ t. done (t, none)) list_page blank
      ready (ended commits).0 28 database.current refl same_closing same_after cannot_grow
      (second_current hash 4096) refl refl (omega arith) (omega arith) new-IsConsistent
      (omega arith) refl refl

-- The second meta page is the current one; the write of the first fails half way.
abbrev torn_disk : Backend ℕ
torn_disk = record full_disk {
  write_all_at = λ offset n. some 5;
  torn = λ old new. record old { magic = 0 };
}

torn_is_invalid : (old : Meta) → ¬ IsValid hash (record old { magic = 0 })
unfolding validate
torn_is_invalid old v = cc

write_meta-switches_example :
    (t' : Tx) × (r : Option ℕ) × (write_meta torn_disk hash merge
        (λ t. done t)
        (λ t. done (t, none))
        list_page
        blank
        ready
      ≡ done (t', r))
    × ((current_meta hash t'.db.meta0 t'.db.meta1 ≡ done (sealed hash ready.meta))
        ⊎ ((e : ℕ) × (r ≡ some e)
            × (current_meta hash t'.db.meta0 t'.db.meta1 ≡ done database.current)))
unfolding init_meta_page init_meta
write_meta-switches_example =
    write_meta-switches torn_disk hash merge (λ t. done t) (λ t. done (t, none)) list_page blank
      ready database.current (λ old new. inr (inr (torn_is_invalid old))) refl refl
      (second_current hash 4096) refl refl refl (omega arith) (omega arith)
