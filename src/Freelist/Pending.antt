-- ===== src/Freelist/Pending.antt =====
-- The pending pages of src/freelist.rs: `free` puts a page and its overflow pages on the list of a
-- transaction, `release` and `release_range` move pages from there to the free spans, and `rollback`
-- takes the list of a transaction back.
pub mod Release
pub mod Sweep
pub mod Range
pub mod Entries
pub mod Free
pub mod Rollback
pub mod Undo
use bbolt_rs.Prelude.{
  ℕ, zero, suc, ◌+◌, ◌-◌, Bool, true, false, ◌||◌, Option, none, some, List, [], ◌∷◌, ◌++◌, ltb,
  leb, ◌==◌, if◌then◌else◌, length, get_elem?, get_or, swap_remove, add_u64, sub_u64, Map, get,
  insert, remove, contains, delete, Outcome, done, panic, diverge, ◌>>=◌,
}
use bbolt_rs.Page.{PageHeader, is_free_list}
use bbolt_rs.Freelist.{
  Freelist, TxPending, new_pending, set_insert, pages_from, delete_all, merge_spans,
}

-- The ids `first ..= last`.
unfoldable pub page_run : ℕ → ℕ → List ℕ
unfolding pages_from
page_run first last = if leb first last then pages_from first 0 (last - first + 1) else []

-- The loop of `free` over the page and its overflow pages.
unfoldable pub free_run : List ℕ → ℕ → TxPending → List ℕ → Outcome (TxPending × List ℕ)
unfolding set_insert
free_run [] alloc_tx_id txp cache = done (txp, cache)
free_run (pgid ∷ pgids) alloc_tx_id txp cache =
    if contains pgid cache
    then panic
    else (free_run pgids alloc_tx_id
        (record txp { ids = txp.ids ++ pgid ∷ []; alloc_tx = txp.alloc_tx ++ alloc_tx_id ∷ [] })
        (set_insert pgid cache))

-- The transaction that allocated the page; a freelist page was always allocated by the one before.
unfoldable pub alloc_tx_of : Freelist → ℕ → PageHeader → ℕ
alloc_tx_of f txid p = elim (get p.id f.allocs) [
  | none ↦ if is_free_list p then sub_u64 txid 1 else 0
  | some tx ↦ tx
]

unfoldable pub pending_or_new : Option TxPending → TxPending
pending_or_new none = new_pending
pending_or_new (some txp) = txp

unfoldable pub free : Freelist → ℕ → PageHeader → Outcome Freelist
unfolding free_run alloc_tx_of pending_or_new page_run
free f txid p = if leb p.id 1 then panic else (do
  (txp, cache) ←
      free_run (page_run p.id (add_u64 p.id p.overflow)) (alloc_tx_of f txid p)
        (pending_or_new (get txid f.pending)) f.cache
  done (record f {
    allocs = remove p.id f.allocs;
    pending = insert txid txp f.pending;
    cache = cache;
  }))

-- `retain` in `release`: the lists of younger transactions stay.
unfoldable pub unreleased : ℕ → Map TxPending → Map TxPending
unreleased txid [] = []
unreleased txid ((tid, txp) ∷ m) =
    if leb tid txid then unreleased txid m else (tid, txp) ∷ unreleased txid m

unfoldable pub released : ℕ → Map TxPending → List ℕ
released txid [] = []
released txid ((tid, txp) ∷ m) = (if leb tid txid then txp.ids else []) ++ released txid m

unfoldable pub release : Freelist → ℕ → Freelist
release f txid =
    merge_spans (record f { pending = unreleased txid f.pending }) (released txid f.pending)

-- The `while` loop of `release_range` over one transaction's list. Without an allocating transaction
-- at `i` a round changes nothing.
unfoldable pub sweep : ℕ → ℕ → ℕ → ℕ → List ℕ → List ℕ → List ℕ → Outcome (List ℕ × List ℕ × List ℕ)
sweep zero begin end i ids alloc_tx m = diverge
sweep (suc fuel) begin end i ids alloc_tx m =
    let skip = sweep fuel begin end (suc i) ids alloc_tx m in
    let move =
      sweep fuel begin end i (swap_remove i ids) (swap_remove i alloc_tx)
        (m ++ get_or ids i 0 ∷ []) in
    let same = sweep fuel begin end i ids alloc_tx m in
    if ltb i (length ids)
    then elim (get_elem? alloc_tx i) [
      | none ↦ same
      | some atx ↦ if ltb atx begin || ltb end atx then skip else move
    ]
    else done (ids, alloc_tx, m)

unfoldable pub kept_entry : ℕ → TxPending → List ℕ → List ℕ → Option TxPending
kept_entry begin txp [] alloc_tx = none
kept_entry begin txp (x ∷ ids) alloc_tx =
    some (record { ids = x ∷ ids; alloc_tx = alloc_tx; last_release_begin = begin })

-- The closure of `retain`: what stays of an entry, and the pages that leave it.
unfoldable pub range_entry : ℕ → ℕ → ℕ → TxPending → Outcome (Option TxPending × List ℕ)
unfolding kept_entry
range_entry begin end tid txp =
    if ltb tid begin || ltb end tid
    then done (some txp, [])
    else if txp.last_release_begin == begin
    then done (some txp, [])
    else (do
      (ids, alloc_tx, m) ← sweep (suc (length txp.ids)) begin end 0 txp.ids txp.alloc_tx []
      done (kept_entry begin txp ids alloc_tx, m))

unfoldable pub keep : ℕ → Option TxPending → Map TxPending → Map TxPending
keep tid none m = m
keep tid (some txp) m = (tid, txp) ∷ m

unfoldable pub range_pending : ℕ → ℕ → Map TxPending → Outcome (Map TxPending × List ℕ)
unfolding keep
range_pending begin end [] = done ([], [])
range_pending begin end ((tid, txp) ∷ m) = do
  (kept, moved) ← range_entry begin end tid txp
  (rest, more) ← range_pending begin end m
  done (keep tid kept rest, moved ++ more)

unfoldable pub release_range : Freelist → ℕ → ℕ → Outcome Freelist
release_range f begin end = if ltb end begin then done f else (do
  (pending, m) ← range_pending begin end f.pending
  done (merge_spans (record f { pending = pending }) m))

-- The loop of `rollback`: the allocations, the cache and the pages to set free.
unfoldable pub roll : ℕ → List ℕ → List ℕ → Map ℕ → List ℕ → List ℕ → Map ℕ × List ℕ × List ℕ
roll txid [] alloc_tx allocs cache m = (allocs, cache, m)
roll txid (pgid ∷ ids) [] allocs cache m = roll txid ids [] allocs (delete pgid cache) m
roll txid (pgid ∷ ids) (tx ∷ alloc_tx) allocs cache m =
    roll txid ids alloc_tx
      (if tx == 0 then allocs else if tx == txid then allocs else insert pgid tx allocs)
      (delete pgid cache) (if tx == 0 then m else if tx == txid then m ++ pgid ∷ [] else m)

unfoldable pub rollback : Freelist → ℕ → Freelist
unfolding roll
rollback f txid = elim (get txid f.pending) [
  | none ↦ f
  | some txp ↦
      let (allocs, cache, m) = roll txid txp.ids txp.alloc_tx f.allocs f.cache [] in
      merge_spans (record f { allocs = allocs; cache = cache; pending = remove txid f.pending }) m
]

-- `freed` answers from the cache.
unfoldable pub freed : Freelist → ℕ → Bool
freed f pgid = contains pgid f.cache
