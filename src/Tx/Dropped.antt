-- ===== src/Tx/Dropped.antt =====
-- What a write transaction of src/tx.rs leaves whose commit ended with an error of `grow`.
use mathlib.Core.Path.{sym}
use bbolt_rs.Prelude.{
  ℕ, ◌+◌, ◌/◌, ◌<◌, ◌≡◌, refl, ap, ◌∙◌, subst, inr, true, false, Option, none, some, List, [],
  arith, contains, get, sort, add_u64, sub_u64, sub_u64_lem, Outcome, done, u64_mod, get-insert,
  ==_self, contains-append,
}
use bbolt_rs.Meta.{Meta, MetaPage, current_meta}
use bbolt_rs.Page.{PageHeader}
use bbolt_rs.Freelist.{Freelist, TxPending, allocate}
use bbolt_rs.Freelist.Spans.{IsFree}
use bbolt_rs.Freelist.Consistent.{IsConsistent, Anything}
use bbolt_rs.Freelist.Booking.{allocate-IsConsistent}
use bbolt_rs.Freelist.Index.{size}
use bbolt_rs.Freelist.Stored.{FreelistPage, write_page}
use bbolt_rs.Freelist.Pending.{release, free, page_run, pending_or_new}
use bbolt_rs.Freelist.Pending.Free.{contains-run}
use bbolt_rs.System.Freeing.{freed_entry, freed_lem}
use bbolt_rs.Db.Stored.{allocate_subset, db_allocate-freelist}
use bbolt_rs.Freelist.Pending.Release.{release-IsConsistent, contains-released}
use bbolt_rs.Freelist.Pending.Range.{release_range-IsRangeReleased}
use bbolt_rs.Db.{max_txid, first_or, release_extents, free_pages}
use bbolt_rs.Db.State.{
  Database, commit, is_rollback, is_physical_rollback, begin_rw_tx, remove_rw_tx, closed_freelist,
  db_allocate, new_freelist_page, commit_freelist,
}
use bbolt_rs.Db.Ending.{remove_rw_tx_lem}
use bbolt_rs.Tx.{
  Backend, Tx, drop_tx, place_freelist, commit_freelist_tx, mmap_to, commit_tx,
  is_explicit_rollback,
}
use bbolt_rs.Tx.Growth.{
  bind-done, before_freelist, GrowFails, GrowFails-closing, GrowFails-commit_tx,
}

-- While no read transaction is open, the pending pages of every transaction become free.
free_pages-frees_all :
    (f : Freelist) (tid p : ℕ) (txp : TxPending)
    → IsConsistent f
    → get tid f.pending ≡ some txp
    → contains p txp.ids ≡ true
    → tid < max_txid
    → (g : Freelist) × (free_pages f [] ≡ done (g, [])) × IsFree g p
unfolding free_pages first_or release_extents sort
free_pages-frees_all f tid p txp c list here old =
    let spec = release-IsConsistent f (sub_u64 max_txid 1) c in
    let (g, run, x) =
      release_range-IsRangeReleased Anything (release f (sub_u64 max_txid 1)) max_txid max_txid
        spec.0 (spec.0).paired in
    let free : IsFree (release f (sub_u64 max_txid 1)) p = ((spec.1) p).1 (
      inr (
        contains-released (sub_u64 max_txid 1) tid p txp f.pending list here
          (ground (arith, sub_u64_lem max_txid 1)))) in
    (g, rw run refl, x.kept_free p free)

-- What a transaction in the state of a commit freed, and the current meta did not follow, is free
-- for the next write transaction.
keeps_pending :
    (fnv : List ℕ → ℕ) (t : Tx) (d : Database) (c : Meta) (tid p : ℕ) (txp : TxPending)
    → t.closing ≡ commit
    → current_meta fnv t.db.meta0 t.db.meta1 ≡ done c
    → drop_tx fnv t ≡ done d
    → IsConsistent t.db.freelist
    → get tid t.db.freelist.pending ≡ some txp
    → contains p txp.ids ≡ true
    → tid < max_txid
    → t.db.txs ≡ []
    → t.db.is_open ≡ true
    → (d.current ≡ c)
      × ((d' : Database) × (m : Meta) × (begin_rw_tx d ≡ done (some (d', m)))
          × IsFree d'.freelist p)
unfolding begin_rw_tx is_rollback is_physical_rollback
keeps_pending fnv t d c tid p txp committed now run cons list here old quiet ready =
    let (g, reclaim, free) = free_pages-frees_all t.db.freelist tid p txp cons list here old in
    let its =
      remove_rw_tx_lem fnv t.db d commit t.meta.txid c refl now
        (subst (λ cl. remove_rw_tx fnv t.db cl t.meta.txid ≡ done d) committed run) in
    subst
      (λ d.
        (d.current ≡ c)
        × ((d' : Database) × (m : Meta) × (begin_rw_tx d ≡ done (some (d', m)))
            × IsFree d'.freelist p))
      its
      (
        refl,
        (
          record t.db { txs = []; freelist = g; current = c; rwtx = some (add_u64 c.txid 1) },
          record c { txid = add_u64 c.txid 1 },
          rw (ready, quiet, reclaim) refl,
          free,
        ),
      )

module _ {E : Type 0} (b : Backend E) (fnv : List ℕ → ℕ) (kmerge : List ℕ → List ℕ → List ℕ)
    (rebalance : Tx → Outcome Tx) (spill : Tx → Outcome (Tx × Option E)) (page_at : ℕ → PageHeader)
    (meta_memory : MetaPage) where
  place_freelist_db :
      (t : Tx) (id : ℕ) (page : FreelistPage) (r : Option E)
      → ((place_freelist b fnv kmerge rebalance spill page_at meta_memory t id page r).0).db ≡ t.db
  unfolding place_freelist
  place_freelist_db t id page none = refl
  place_freelist_db t id page (some e) = refl

  -- The freelist's pages are allocated, and nothing else changes in what the transactions share.
  placed :
      (t : Tx) (r : Tx × Option E)
      → commit_freelist_tx b fnv kmerge rebalance spill page_at meta_memory t ≡ done r
      → (n : ℕ) × ((r.0).db ≡ record t.db { freelist = (allocate t.db.freelist t.meta.txid n).0 })
  unfolding commit_freelist_tx commit_freelist
  placed t r run =
      let n : ℕ = add_u64 (size t.db.freelist / b.page_size) 1 in
      let ((g, m, a, page), ran, e) =
        bind-done (commit_freelist kmerge b.page_size b.data_size t.db.freelist t.meta) _ r run in
      let (page', _, e') =
        bind-done
          (write_page kmerge (db_allocate b.page_size b.data_size t.db.freelist t.meta n).0 (
            new_freelist_page b.page_size n
              (db_allocate b.page_size b.data_size t.db.freelist t.meta n).2))
          _ (g, m, a, page) ran in
      let at : (db_allocate b.page_size b.data_size t.db.freelist t.meta n).0 ≡ g = cc in
      let same : place_freelist b fnv kmerge rebalance spill page_at meta_memory
            (record t { db = record t.db { freelist = g }; meta = m }) a.id page
            (mmap_to b fnv kmerge rebalance spill page_at meta_memory a.new_size)
          ≡ r =
        cc in
      (
        n,
        ap (λ r. (r.0).db) (sym same)
            ∙ place_freelist_db _ a.id page _
            ∙ ap (λ g. record t.db { freelist = g })
                (sym at ∙ db_allocate-freelist b.page_size b.data_size n t.db.freelist t.meta),
      )

  abbrev pub Fails : Tx → Tx → E → Type 0
  Fails = GrowFails b fnv kmerge rebalance spill page_at meta_memory

  -- The bug: the commit of a transaction that is not rolled back yet comes to a call of `grow` that
  -- fails (`GrowFails`), and the transaction is dropped. The rebalancing and the spilling leave the
  -- closing state; when they are done, no read transaction is open, the database is open, and the
  -- transaction's id is less than `u64::MAX` and its freelist's page is the one that the current meta
  -- names: a page past the meta pages, without `u64` overflow, and the freelist is consistent. Then
  -- the commit ends with the error of `grow`, the drop ends without a panic, the current meta stays
  -- the one from before the commit, and the next write transaction begins with the page that this
  -- meta names as its freelist's among the free pages.
  pub drop_tx-loses_pages :
      (t t' : Tx) (e : E) (c : Meta)
      → is_explicit_rollback t.closing ≡ false
      → ((t t' : Tx) → rebalance t ≡ done t' → t'.closing ≡ t.closing)
      → ((t : Tx) (r : Tx × Option E) → spill t ≡ done r → (r.0).closing ≡ t.closing)
      → (g : Fails t t' e) → current_meta fnv g.spilt.db.meta0 g.spilt.db.meta1 ≡ done c
      → g.spilt.meta.free_list ≡ c.free_list
      → (page_at c.free_list).id ≡ c.free_list
      → 1 < c.free_list
      → c.free_list + (page_at c.free_list).overflow + 1 < u64_mod
      → IsConsistent g.spilt.db.freelist
      → g.spilt.meta.txid < max_txid
      → g.spilt.db.txs ≡ []
      → g.spilt.db.is_open ≡ true
      → (d : Database) × (commit_tx b fnv kmerge rebalance spill page_at meta_memory t
          ≡ done (t', some e))
        × (drop_tx fnv t' ≡ done d)
        × (d.current ≡ c)
        × ((d' : Database) × (m : Meta) × (begin_rw_tx d ≡ done (some (d', m)))
            × IsFree d'.freelist c.free_list)
  unfolding remove_rw_tx closed_freelist is_rollback
  drop_tx-loses_pages t t' e c going rebalances spills g now named at past fits cons old quiet
        ready =
      let tid : ℕ = g.spilt.meta.txid in
      let page : PageHeader = page_at c.free_list in
      let before : Tx =
        before_freelist b fnv kmerge rebalance spill page_at meta_memory g.spilt g.freelist in
      let frees : free g.spilt.db.freelist tid page ≡ done g.freelist = rw named at g.frees in
      let (freed, pends) =
        freed_lem g.spilt.db.freelist g.freelist tid page cons (omega (arith, at, past))
          (omega (arith, at, fits)) frees in
      let (n, shared) = placed before (t', none) g.places in
      let taken : Freelist = (allocate g.freelist tid n).0 in
      let its_list : t'.db.freelist ≡ taken = ap (λ d. d.freelist) shared in
      let (_, kept) = allocate_subset g.freelist tid n freed.consistent in
      let entry : TxPending = freed_entry g.spilt.db.freelist tid page in
      let found : get tid taken.pending ≡ some entry =
        rw (kept, pends, get-insert, ==_self tid) refl in
      let here : contains c.free_list entry.ids ≡ true =
        let earlier : TxPending = pending_or_new (get tid g.spilt.db.freelist.pending) in
        let runs =
          contains-run g.spilt.db.freelist tid page cons (omega (arith, at, past))
            (omega (arith, at, fits)) c.free_list in
        ground (
          arith,
          contains-append c.free_list earlier.ids
              (page_run page.id (add_u64 page.id page.overflow)),
          runs,
          at,
        ) in
      let committed : t'.closing ≡ commit =
        GrowFails-closing b fnv kmerge rebalance spill page_at meta_memory t t' e rebalances spills
          g in
      let same_metas : current_meta fnv t'.db.meta0 t'.db.meta1 ≡ done c =
        ap (λ d. current_meta fnv d.meta0 d.meta1) shared ∙ now in
      let d : Database = record t'.db { current = c; rwtx = none } in
      let drops : drop_tx fnv t' ≡ done d = rw (committed, same_metas) refl in
      let after =
        keeps_pending fnv t' d c tid c.free_list entry committed same_metas drops
          (subst IsConsistent (sym its_list)
            (allocate-IsConsistent g.freelist tid n freed.consistent))
          (ap (λ f. get tid f.pending) its_list ∙ found) here old (ap (λ d. d.txs) shared ∙ quiet)
          (ap (λ d. d.is_open) shared ∙ ready) in
      (
        d,
        GrowFails-commit_tx b fnv kmerge rebalance spill page_at meta_memory t t' e going g,
        drops,
        after.0,
        after.1,
      )
