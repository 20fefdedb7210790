-- ===== src/Db/State.antt =====
-- src/db.rs: the state that the transactions share, and what the begin and the end of a transaction
-- do to it. The statistics, the locks and the bump allocators are left out; the pages of the backend
-- that these calls read are fields of the state.
use bbolt_rs.Prelude.{
  ℕ, zero, suc, ◌-◌, ◌*◌, ◌/◌, ◌%◌, ◌^◌, Bool, true, false, not, Option, none, some, List, [], ◌∷◌,
  ◌++◌, ltb, ◌==◌, if◌then◌else◌, add_u64, sub_u64, swap_remove, u64_mod, Outcome, done, panic,
  ◌>>=◌,
}
use bbolt_rs.Page.{is_free_list, mut_into, free_list_page_flag, page_header_size}
use bbolt_rs.Meta.{Meta, MetaPage, current_meta}
use bbolt_rs.Meta.Commit.{written}
use bbolt_rs.Freelist.{Freelist, allocate}
use bbolt_rs.Freelist.Pending.{rollback}
use bbolt_rs.Freelist.Index.{reload, size}
use bbolt_rs.Freelist.Stored.{FreelistPage, page_ids, write_page}
use bbolt_rs.Db.{free_pages}

-- `DbState`, and of the backend its freelist, its two meta pages and its freelist pages by page id.
pub record Database : Type 0 where
  pub txs : List ℕ
  pub rwtx : Option ℕ
  pub is_open : Bool
  pub current : Meta
  pub freelist : Freelist
  pub meta0 : Meta
  pub meta1 : Meta
  pub freelist_pages : ℕ → FreelistPage

-- `TxClosingState`.
pub data TxClosingState : Type 0 where
  rolled_back : TxClosingState
  explicit_rollback : TxClosingState
  physical_rollback : TxClosingState
  commit : TxClosingState

unfoldable pub is_rollback : TxClosingState → Bool
is_rollback rolled_back = true
is_rollback explicit_rollback = true
is_rollback physical_rollback = true
is_rollback commit = false

unfoldable pub is_physical_rollback : TxClosingState → Bool
is_physical_rollback physical_rollback = true
is_physical_rollback rolled_back = false
is_physical_rollback explicit_rollback = false
is_physical_rollback commit = false

-- The meta of a read transaction. `none` is `Err(DatabaseNotOpen)`, here and below.
unfoldable pub begin_tx : Database → Option (Database × Meta)
begin_tx d =
    if not d.is_open
    then none
    else some (record d { txs = d.txs ++ d.current.txid ∷ [] }, d.current)

-- The meta of the write transaction.
unfoldable pub begin_rw_tx : Database → Outcome (Option (Database × Meta))
begin_rw_tx d = if not d.is_open then done none else (do
  (freelist, txs) ← free_pages d.freelist d.txs
  let txid = add_u64 d.current.txid 1 in
      done (
        some (
          record d { txs = txs; freelist = freelist; rwtx = some txid },
          record d.current { txid = txid },
        )))

-- `Iterator::position` of an id.
unfoldable pub position : ℕ → List ℕ → Option ℕ
position a [] = none
position a (x ∷ xs) =
    if x == a then some 0 else elim (position a xs) [ none ↦ none | some i ↦ some (suc i) ]

unfoldable pub remove_at : Option ℕ → List ℕ → List ℕ
remove_at none xs = xs
remove_at (some i) xs = swap_remove i xs

unfoldable pub remove_tx : Database → ℕ → Database
unfolding position remove_at
remove_tx d rem_tx = record d { txs = remove_at (position rem_tx d.txs) d.txs }

module _ (fnv : List ℕ → ℕ) where
  -- `self.backend.meta()`.
  abbrev pub backend_meta : Database → Outcome Meta
  backend_meta d = current_meta fnv d.meta0 d.meta1

  -- The freelist is read again from the page of the current meta.
  unfoldable pub reload_freelist : Database → Freelist → Outcome Freelist
  reload_freelist d freelist = do
    m ← backend_meta d
    let page = d.freelist_pages m.free_list in
        if is_free_list page.header then (do ids ← page_ids page; reload freelist ids) else panic

  unfoldable pub closed_freelist : Database → TxClosingState → ℕ → Outcome Freelist
  unfolding is_rollback is_physical_rollback reload_freelist
  closed_freelist d closing rem_tx =
      if is_rollback closing
      then (if is_physical_rollback closing
          then reload_freelist d (rollback d.freelist rem_tx)
          else done (rollback d.freelist rem_tx))
      else done d.freelist

  unfoldable pub remove_rw_tx : Database → TxClosingState → ℕ → Outcome Database
  unfolding closed_freelist
  remove_rw_tx d closing rem_tx = do
    freelist ← closed_freelist d closing rem_tx
    m ← backend_meta d
    done (record d { freelist = freelist; current = m; rwtx = none })

-- The backend after the meta page and the freelist's page were written.
abbrev pub with_meta : Database → MetaPage → (ℕ → FreelistPage) → Database
with_meta d mp pages = record d {
  meta0 = (written mp.page.id mp.meta (d.meta0, d.meta1)).0;
  meta1 = (written mp.page.id mp.meta (d.meta0, d.meta1)).1;
  freelist_pages = pages;
}

-- `AllocateResult`: the page's id and overflow, and the size that the file must have if it is larger
-- than now.
pub record AllocateResult : Type 0 where
  pub id : ℕ
  pub overflow : ℕ
  pub new_size : Option ℕ

-- The end of `DbShared::allocate`: the freelist's answer is used, or the pages come from the high
-- water mark of the transaction's meta.
unfoldable pub allocated : ℕ → ℕ → Meta → ℕ → Freelist × Option ℕ → Freelist × Meta × AllocateResult
allocated page_size data_size m count (f, some pid) =
    (f, m, record { id = pid; overflow = sub_u64 count 1 % 2 ^ 32; new_size = none })
allocated page_size data_size m count (f, none) =
    let min_size = (add_u64 (add_u64 m.pgid count) 1 * page_size) % u64_mod in
    (
      f,
      record m { pgid = add_u64 m.pgid count },
      record {
        id = m.pgid;
        overflow = sub_u64 count 1 % 2 ^ 32;
        new_size = if ltb data_size min_size then some min_size else none;
      },
    )

-- `DbShared::allocate`, with the page size and the data size of the backend.
unfoldable pub db_allocate : ℕ → ℕ → Freelist → Meta → ℕ → Freelist × Meta × AllocateResult
unfolding allocated
db_allocate page_size data_size f m count =
    allocated page_size data_size m count (allocate f m.txid count)

unfoldable pub zeroed : ℕ → List ℕ
zeroed zero = []
zeroed (suc n) = 0 ∷ zeroed n

-- The new page as a freelist page: zeroed memory of `count` pages, less the header of 16 bytes, as
-- words of 8 bytes.
unfoldable pub new_freelist_page : ℕ → ℕ → AllocateResult → FreelistPage
unfolding mut_into zeroed
new_freelist_page page_size count r = record {
  header =
      mut_into free_list_page_flag
        (record { id = r.id; flags = 0; count = 0; overflow = r.overflow });
  words = zeroed ((count * page_size - page_header_size) / 8);
}

-- `DbShared::commit_freelist`: pages are allocated for the freelist, which is then written to them.
unfoldable pub commit_freelist :
    (List ℕ → List ℕ → List ℕ)
    → ℕ
    → ℕ
    → Freelist
    → Meta
    → Outcome (Freelist × Meta × AllocateResult × FreelistPage)
unfolding db_allocate new_freelist_page
commit_freelist kmerge page_size data_size f m =
    let count = add_u64 (size f / page_size) 1 in
    let (g, m', r) = db_allocate page_size data_size f m count in
    (do page ← write_page kmerge g (new_freelist_page page_size count r); done (g, m', r, page))
