-- ===== src/System/Steps.antt =====
-- One step of the database: a read transaction begins or ends, the write transaction begins, frees a
-- page, allocates pages, commits or is rolled back. The write transaction of src/tx.rs frees pages at
-- any time and allocates them only while it commits; a rollback is one before that. A commit that
-- fails half way is not a step.
use bbolt_rs.Prelude.{
  ℕ, ◌+◌, ◌^◌, ◌<◌, ◌≡◌, Bool, true, false, Option, none, some, List, inr, ◌==◌, if◌then◌else◌,
  contains, u64_mod, done,
}
use bbolt_rs.Page.{PageHeader, is_free_list}
use bbolt_rs.Meta.{BucketHeader, Meta, MetaPage, write}
use bbolt_rs.Freelist.{Freelist}
use bbolt_rs.Freelist.Pending.{free}
use bbolt_rs.Freelist.Stored.{FreelistPage}
use bbolt_rs.Db.State.{
  Database, AllocateResult, TxClosingState, commit, is_rollback, is_physical_rollback, begin_tx,
  begin_rw_tx, remove_tx, remove_rw_tx, db_allocate, with_meta,
}
use bbolt_rs.Db.Open.{init_page, first_pages, new_db}
use bbolt_rs.System.Horizon.{Snapshots}
use bbolt_rs.System.Writing.{copy_snapshot, add_page}
use bbolt_rs.System.Freeing.{drop_page}

-- The write transaction: its meta, whether it has allocated a page, and whether one for the freelist.
pub record Writer : Type 0 where
  pub meta : Meta
  pub grown : Bool
  pub listed : Bool

-- The snapshots are those of the committed transactions, and what the writer's would be.
pub record System : Type 0 where
  pub db : Database
  pub writer : Option Writer
  pub snapshot : Snapshots

-- The meta of the writer after it was given a page, which may be the one for the freelist.
abbrev pub with_list : Bool → Meta → ℕ → Meta
with_list list m id = if list then record m { free_list = id } else m

-- A new database has a freelist page and a root page.
abbrev pub first_snapshot : Snapshots
first_snapshot r id =
    if r == 1 then (if id == 2 then some 0 else if id == 3 then some 0 else none) else none

module _ (fnv : List ℕ → ℕ) where
  pub data Step (s : System) : System → Type 0 where
    begin_read :
        {d : Database} {m : Meta} → begin_tx s.db ≡ some (d, m) → Step s (record s { db = d })
    end_read : (r : ℕ) → contains r s.db.txs ≡ true → Step s (record s { db = remove_tx s.db r })
    begin_write :
        {d : Database} {m : Meta}
        → s.writer ≡ none
        → s.db.current.txid + 2 < u64_mod
        → begin_rw_tx s.db ≡ done (some (d, m))
        → Step s (record {
          db = d;
          writer = some (record { meta = m; grown = false; listed = false });
          snapshot = copy_snapshot s.db.current.txid s.snapshot;
        })
    free_page :
        {w : Writer} {g : Freelist} (p : PageHeader)
        → s.writer ≡ some w
        → s.snapshot w.meta.txid p.id ≡ some p.overflow
        → (is_free_list p ≡ true → p.id ≡ s.db.current.free_list)
        → free s.db.freelist w.meta.txid p ≡ done g
        → Step s (record s {
          db = record s.db { freelist = g };
          snapshot = drop_page w.meta.txid p.id s.snapshot;
        })
    allocate :
        {w : Writer} {g : Freelist} {m : Meta} {r : AllocateResult} (list : Bool)
        (page_size data_size n : ℕ)
        → s.writer ≡ some w
        → (0 < n) × (n < 2 ^ 32)
        → w.meta.pgid + n < u64_mod
        → db_allocate page_size data_size s.db.freelist w.meta n ≡ (g, m, r)
        → Step s (record {
          db = record s.db { freelist = g };
          writer = some (record {
            meta = with_list list m r.id;
            grown = true;
            listed = if list then true else w.listed;
          });
          snapshot = add_page w.meta.txid r.id r.overflow s.snapshot;
        })
    do_commit :
        {w : Writer} {mp' : MetaPage} {d : Database} (mp : MetaPage) (root : BucketHeader)
        (pages : ℕ → FreelistPage)
        → s.writer ≡ some w
        → w.listed ≡ true
        → write fnv (record w.meta { root = root }) mp ≡ done mp'
        → remove_rw_tx fnv (with_meta s.db mp' pages) commit w.meta.txid ≡ done d
        → Step s (record s { db = d; writer = none })
    roll_back :
        {w : Writer} {d : Database} (closing : TxClosingState)
        → s.writer ≡ some w
        → w.grown ≡ false
        → is_rollback closing ≡ true
        → is_physical_rollback closing ≡ false
        → remove_rw_tx fnv s.db closing w.meta.txid ≡ done d
        → Step s (record s { db = d; writer = none })

  -- What a database can come to that was created with the page size and then opened.
  pub data Reach (page_size : ℕ) : System → Type 0 where
    start :
        {d : Database}
        → new_db fnv
            (init_page fnv page_size).page0.meta
            (init_page fnv page_size).page1.meta
            (first_pages fnv page_size)
          ≡ done (inr d)
        → Reach page_size (record { db = d; writer = none; snapshot = first_snapshot })
    later : {s t : System} → Reach page_size s → Step s t → Reach page_size t
