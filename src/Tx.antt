-- ===== src/Tx.antt =====
-- src/tx.rs: how a write transaction writes its pages and commits. `E` is the type of the errors; the
-- calls of the file system are the fields of `Backend`, where `none` is `Ok(())`. The rebalancing and
-- the spilling of the root bucket are arguments: they change the transaction, and the second may fail.
pub mod Write
pub mod Growth
pub mod Commit
pub mod Dropped
pub mod MetaWrite
pub mod Check
use bbolt_rs.Prelude.{
  ℕ, zero, suc, ◌+◌, ◌-◌, ◌*◌, ◌%◌, ◌^◌, Bool, true, false, not, ◌&&◌, ◌||◌, Option, none, some,
  List, [], ◌∷◌, ltb, leb, ◌==◌, if◌then◌else◌, add_u64, u64_mod, Outcome, done, panic, diverge,
  ◌>>=◌,
}
use bbolt_rs.Page.{PageHeader}
use bbolt_rs.Meta.{BucketHeader, Meta, MetaPage, write}
use bbolt_rs.Freelist.Pending.{free}
use bbolt_rs.Freelist.Stored.{FreelistPage}
use bbolt_rs.Db.State.{
  Database, AllocateResult, TxClosingState, explicit_rollback, physical_rollback, rolled_back,
  commit, commit_freelist, with_meta, remove_rw_tx,
}

-- `write_all_at offset length` ends with an error or has written all of the buffer; `torn` is what a
-- meta page holds after an error, from what it held and what it was to hold; `mmap` and `grow` take
-- the new size.
pub record Backend (E : Type 0) : Type 0 where
  pub page_size : ℕ
  pub data_size : ℕ
  pub max_alloc : ℕ
  pub no_sync : Bool
  pub mmap : ℕ → Option E
  pub grow : ℕ → Option E
  pub write_all_at : ℕ → ℕ → Option E
  pub torn : Meta → Meta → Meta
  pub fsync : Option E

-- A write of `length` bytes of a page's buffer, from `start` on, to `offset` of the file.
pub record Written : Type 0 where
  pub start : ℕ
  pub length : ℕ
  pub offset : ℕ

unfoldable pub min : ℕ → ℕ → ℕ
min a b = if leb a b then a else b

module _ {E : Type 0} (b : Backend E) where
  -- What follows a chunk: an error ends the loop, and so does the last chunk.
  abbrev after_chunk :
      Option E → ℕ → Written → Outcome (List Written × Option E) → Outcome (List Written × Option E)
  after_chunk (some e) rest x next = done ([], some e)
  after_chunk none zero x next = done (x ∷ [], none)
  after_chunk none (suc rest) x next = do (xs, r) ← next; done (x ∷ xs, r)

  -- The loop of `write` over the chunks of a page whose buffer has `total` bytes. The slice
  -- `[written..size]` panics if it ends before it begins, or after the buffer.
  unfoldable pub write_chunks : ℕ → ℕ → ℕ → ℕ → ℕ → Outcome (List Written × Option E)
  write_chunks zero total rem offset start = diverge
  write_chunks (suc fuel) total rem offset start =
      let size = min rem (b.max_alloc - 1) in
      let n = size - start in
      let next = write_chunks fuel total (rem - n) (add_u64 offset n) (start + n) in
      if ltb size start || ltb total size
      then panic
      else (after_chunk (b.write_all_at offset n) (rem - n)
          (record { start = start; length = n; offset = offset }) next)

  -- The bytes of a page's buffer, and its place in the file.
  abbrev pub page_bytes : PageHeader → ℕ
  page_bytes p = (p.overflow + 1) * b.page_size

  abbrev pub page_offset : PageHeader → ℕ
  page_offset p = (p.id * b.page_size) % u64_mod

  abbrev pub write_tx_page : PageHeader → Outcome (List Written × Option E)
  write_tx_page p =
      write_chunks (suc (page_bytes p)) (page_bytes p) (page_bytes p) (page_offset p) 0

  unfoldable pub insert_page : PageHeader → List PageHeader → List PageHeader
  insert_page p [] = p ∷ []
  insert_page p (q ∷ qs) = if leb p.id q.id then p ∷ q ∷ qs else q ∷ insert_page p qs

  unfoldable pub sort_pages : List PageHeader → List PageHeader
  sort_pages [] = []
  sort_pages (p ∷ ps) = insert_page p (sort_pages ps)

  abbrev after_page : Option E → Outcome (Option E) → Outcome (Option E)
  after_page (some e) next = done (some e)
  after_page none next = next

  unfoldable pub write_all : List PageHeader → Outcome (Option E)
  write_all [] = done none
  write_all (p ∷ ps) = let next = write_all ps in (do (xs, r) ← write_tx_page p; after_page r next)

  -- `write`: the pages in the order of their ids.
  unfoldable pub write_pages : List PageHeader → Outcome (Option E)
  unfolding sort_pages write_all
  write_pages pages = do
    r ← write_all (sort_pages pages)
    done (elim r [ some e ↦ some e | none ↦ if b.no_sync then none else b.fsync ])

-- The write transaction: what it shares with the database, its meta, the header of its root bucket,
-- its closing state, the pages that it will write, and the freelist page among them.
pub record Tx : Type 0 where
  pub db : Database
  pub meta : Meta
  pub root : BucketHeader
  pub closing : TxClosingState
  pub pages : List PageHeader
  pub freelist_page : Option FreelistPage

unfoldable pub is_explicit_rollback : TxClosingState → Bool
is_explicit_rollback rolled_back = false
is_explicit_rollback explicit_rollback = true
is_explicit_rollback physical_rollback = false
is_explicit_rollback commit = false

-- `TxIApi::rollback` and `TxRwIApi::physical_rollback`.
abbrev pub roll_back_tx : Tx → Tx
roll_back_tx t = record t { closing = explicit_rollback }

abbrev pub fail_tx : Tx → Tx
fail_tx t = record t { closing = physical_rollback }

-- What the meta page holds.
abbrev pub held_meta : Database → ℕ → Meta
held_meta d id = if id == 0 then d.meta0 else d.meta1

-- `pages.insert` under the page's id.
unfoldable pub put_page : PageHeader → List PageHeader → List PageHeader
put_page p [] = p ∷ []
put_page p (q ∷ qs) = if q.id == p.id then p ∷ qs else q ∷ put_page p qs

unfoldable pub has_meta_page : List PageHeader → Bool
has_meta_page [] = false
has_meta_page (p ∷ ps) = leb p.id 1 || has_meta_page ps

-- The backend's freelist pages after the write.
unfoldable pub store_page : Option FreelistPage → (ℕ → FreelistPage) → ℕ → FreelistPage
store_page none pages id = pages id
store_page (some p) pages id = if p.header.id == id then p else pages id

module _ {E : Type 0} (b : Backend E) (fnv : List ℕ → ℕ) (kmerge : List ℕ → List ℕ → List ℕ)
    (rebalance : Tx → Outcome Tx) (spill : Tx → Outcome (Tx × Option E)) (page_at : ℕ → PageHeader)
    (meta_memory : MetaPage) where
  unfoldable pub mmap_to : Option ℕ → Option E
  mmap_to none = none
  mmap_to (some min_size) = b.mmap min_size

  unfoldable pub place_freelist : Tx → ℕ → FreelistPage → Option E → Tx × Option E
  unfolding put_page
  place_freelist t id page (some e) = (t, some e)
  place_freelist t id page none = (
    record t {
      meta = record t.meta { free_list = id };
      pages = put_page page.header t.pages;
      freelist_page = some page;
    },
    none,
  )

  -- `TxRwImpl::commit_freelist`.
  unfoldable pub commit_freelist_tx : Tx → Outcome (Tx × Option E)
  unfolding place_freelist mmap_to
  commit_freelist_tx t = do
    (g, m, a, page) ← commit_freelist kmerge b.page_size b.data_size t.db.freelist t.meta
    done (
        place_freelist (record t { db = record t.db { freelist = g }; meta = m }) a.id page
          (mmap_to a.new_size))

  -- `write_meta`: the meta page, and how the call ends.
  unfoldable pub write_meta : Tx → Outcome (Tx × Option E)
  write_meta t = do
    mp ← write fnv t.meta meta_memory
    done (elim (b.write_all_at ((mp.page.id * b.page_size) % u64_mod) b.page_size) [
      | some e ↦ (
        record t {
          db =
              with_meta t.db (record mp { meta = b.torn (held_meta t.db mp.page.id) mp.meta })
                t.db.freelist_pages;
        },
        some e,
      )
      | none ↦ (
        record t { db = with_meta t.db mp t.db.freelist_pages },
        if b.no_sync then none else b.fsync,
      )
    ])

  unfoldable pub after_write_meta : Tx × Option E → Tx × Option E
  after_write_meta (t, some e) = (fail_tx t, some e)
  after_write_meta (t, none) = (t, none)

  unfoldable pub after_write : Tx → Option E → Outcome (Tx × Option E)
  unfolding write_meta after_write_meta store_page
  after_write t (some e) = done (fail_tx t, some e)
  after_write t none = do
    r ← write_meta (record t {
      db = record t.db { freelist_pages = store_page t.freelist_page t.db.freelist_pages };
    })
    done (after_write_meta r)

  -- The file grows if the high water mark did; an error of that call is returned at once.
  unfoldable pub grow_result : ℕ → Tx → Option E
  grow_result opgid t =
      if ltb opgid t.meta.pgid
      then b.grow ((add_u64 t.meta.pgid 1 * t.meta.page_size) % u64_mod)
      else none

  unfoldable pub after_grow : Tx → Option E → Outcome (Tx × Option E)
  unfolding after_write
  after_grow t (some e) = done (t, some e)
  after_grow t none = do r ← write_pages b t.pages; after_write (record t { pages = [] }) r

  unfoldable pub after_freelist : ℕ → Tx × Option E → Outcome (Tx × Option E)
  unfolding after_grow grow_result has_meta_page
  after_freelist opgid (t, some e) = done (fail_tx t, some e)
  after_freelist opgid (t, none) =
      if has_meta_page t.pages then panic else after_grow t (grow_result opgid t)

  unfoldable pub after_spill : ℕ → Tx × Option E → Outcome (Tx × Option E)
  unfolding after_freelist commit_freelist_tx
  after_spill opgid (t, some e) = done (fail_tx t, some e)
  after_spill opgid (t, none) = do
    freelist ← free t.db.freelist t.meta.txid (page_at t.meta.free_list)
    r ← commit_freelist_tx (record t {
      meta = record t.meta { root = t.root };
      db = record t.db { freelist = freelist };
    })
    after_freelist opgid r

  -- `commit`, without the commit handlers.
  unfoldable pub commit_tx : Tx → Outcome (Tx × Option E)
  unfolding after_spill is_explicit_rollback
  commit_tx t = if is_explicit_rollback t.closing then done (t, none) else (do
    t' ← rebalance (record t { closing = commit })
    r ← spill t'
    after_spill t'.meta.pgid r)

-- The drop of the transaction, whether it was committed or not.
abbrev pub drop_tx : (List ℕ → ℕ) → Tx → Outcome Database
drop_tx fnv t = remove_rw_tx fnv t.db t.closing t.meta.txid
