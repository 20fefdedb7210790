-- ===== src/Tests/SystemTests.antt =====
-- The transactions at concrete states: a new database, a reader, and a writer that frees the root page
-- and allocates two pages.
use mathlib.Core.Path.{◌≡◌, refl}
use native.Mathlib.Omega.{arith}
use bbolt_rs.Prelude.{
  ℕ, ◌+◌, ◌<◌, ◌⊎◌, inl, true, false, none, some, List, [], ◌∷◌, length, done, contains, sort,
  add_u64, sub_u64,
}
use bbolt_rs.Page.{PageHeader, leaf_page_flag}
use bbolt_rs.Meta.{Meta}
use bbolt_rs.Freelist.{Freelist, merge_spans}
use bbolt_rs.Freelist.Spans.{IsFree}
use bbolt_rs.Freelist.Pending.{free, release, release_range, range_pending, released, unreleased}
use bbolt_rs.Freelist.Pending.Free.{in_run}
use bbolt_rs.Db.State.{Database, begin_tx, begin_rw_tx, db_allocate}
use bbolt_rs.Db.{free_pages, first_or, release_extents}
use bbolt_rs.Db.Open.{init_page, init_meta_page, init_meta}
use bbolt_rs.System.Writing.{copy_snapshot}
use bbolt_rs.System.Steps.{
  Writer, System, first_snapshot, Reach, start, later, begin_read, begin_write,
}
use bbolt_rs.System.Start.{first_database, new_db_lem}
use bbolt_rs.System.Safety.{Reach-unfree, allocate-unseen, free-done}

abbrev hash : List ℕ → ℕ
hash = length

abbrev opened : System
opened = record { db = first_database hash 4096; writer = none; snapshot = first_snapshot }

abbrev read_by_one : System
read_by_one = record opened { db = record (first_database hash 4096) { txs = 1 ∷ [] } }

reads : Reach hash 4096 read_by_one
unfolding begin_tx init_page
reads = later (start (new_db_lem hash 4096)) (begin_read refl)

abbrev begun : Database
begun = record (first_database hash 4096) { txs = 1 ∷ []; rwtx = some 2 }

abbrev next_meta : Meta
next_meta = record (first_database hash 4096).current { txid = 2 }

abbrev written_by_two : System
written_by_two = record {
  db = begun;
  writer = some (record { meta = next_meta; grown = false; listed = false });
  snapshot = copy_snapshot 1 first_snapshot;
}

begins : begin_rw_tx read_by_one.db ≡ done (some (begun, next_meta))
unfolding begin_rw_tx free_pages first_or release_extents release release_range sort add_u64 sub_u64
    init_meta_page init_meta range_pending merge_spans released unreleased
begins = refl

writes : Reach hash 4096 written_by_two
unfolding init_meta_page init_meta
writes = later reads (begin_write refl (omega arith) begins)

abbrev writer : Writer
writer = record { meta = next_meta; grown = false; listed = false }

-- The reader still sees page 3.
Reach-unfree_example : ¬ IsFree begun.freelist 3
unfolding init_meta_page init_meta contains
Reach-unfree_example = Reach-unfree hash writes 1 3 0 3 (inl refl) refl refl

allocate-unseen_example :
    let (g, m, a) = db_allocate 4096 16384 begun.freelist next_meta 2 in
    (a.overflow ≡ 1)
    × (1 < a.id)
    × (a.id + a.overflow < m.pgid)
    × (m ≡ record next_meta { pgid = m.pgid })
    × ((r id o q : ℕ)
        → (contains r begun.txs ≡ true) ⊎ (r ≡ 1) ⊎ (r ≡ 2)
        → written_by_two.snapshot r id ≡ some o
        → in_run id o q ≡ true
        → in_run a.id a.overflow q ≡ false)
unfolding init_meta_page init_meta
allocate-unseen_example =
    allocate-unseen hash writes writer refl 4096 16384 2 (omega arith, omega arith) (omega arith)

abbrev root_page : PageHeader
root_page = record { id = 3; flags = leaf_page_flag; count = 0; overflow = 0 }

free-done_example : (g : Freelist) × (free begun.freelist 2 root_page ≡ done g)
free-done_example = free-done hash writes writer refl root_page refl
