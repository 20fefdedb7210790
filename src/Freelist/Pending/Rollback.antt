-- ===== src/Freelist/Pending/Rollback.antt =====
-- `rollback` of src/freelist.rs: the pending list of a transaction is taken back. Pages that it
-- allocated itself become free, the others are allocated again.
use mathlib.Core.List.{append-nil, append_assoc}
use bbolt_rs.Prelude.{
  ℕ, ◌≤◌, ◌<◌, ◌≡◌, refl, ◌∙◌, ◌≢◌, ◌↔◌, ◌⊎◌, inl, inr, true, false, ◌&&◌, not, none, some, List,
  [], ◌∷◌, ◌++◌, arith, ◌==◌, if◌then◌else◌, Map, get, insert, remove, get-remove, get-insert,
  contains, delete, contains-delete, contains-count, count,
}
use bbolt_rs.Freelist.{Freelist, TxPending}
use bbolt_rs.Freelist.Spans.{IsFree, IsWf, IsWf-same_spans}
use bbolt_rs.Freelist.Merge.{merge_spans-IsWf, CanFree}
use bbolt_rs.Freelist.Consistent.{
  times_pending, IsConsistent, counts-CanFree, merge_spans_same_rest,
}
use bbolt_rs.Freelist.Pending.{roll, rollback, freed, pending_or_new}
use bbolt_rs.Freelist.Pending.Free.{count-pending_remove}

-- The pages of the list that the transaction allocated itself.
abbrev pub own_pages : ℕ → List ℕ → List ℕ → List ℕ
own_pages txid [] as' = []
own_pages txid (p ∷ ps) [] = own_pages txid ps []
own_pages txid (p ∷ ps) (a ∷ as') =
    if a == 0
    then own_pages txid ps as'
    else if a == txid
    then p ∷ own_pages txid ps as'
    else own_pages txid ps as'

count-own_pages-le : (q txid : ℕ) (ps as' : List ℕ) → count q (own_pages txid ps as') ≤ count q ps
count-own_pages-le q txid [] as' = omega arith
count-own_pages-le q txid (p ∷ ps) [] = omega (arith, count-own_pages-le q txid ps [])
count-own_pages-le q txid (p ∷ ps) (a ∷ as') = ground (arith, count-own_pages-le q txid ps as')

-- The page stands in the list beside the transaction that allocated it.
abbrev pub Pairs : ℕ → ℕ → List ℕ → List ℕ → Type 0
Pairs q a [] as' = ⊥
Pairs q a (p ∷ ps) [] = ⊥
Pairs q a (p ∷ ps) (b ∷ bs) = ((p ≡ q) × (b ≡ a)) ⊎ Pairs q a ps bs

module _ (txid : ℕ) where
  roll-pages :
      (ids as' : List ℕ) (allocs : Map ℕ) (cache m : List ℕ) (q : ℕ)
      → let r = roll txid ids as' allocs cache m in
        (r.2 ≡ m ++ own_pages txid ids as')
        × (contains q r.1 ≡ (contains q cache && not (contains q ids)))
  unfolding roll contains
  roll-pages [] as' allocs cache m q = (simp append-nil, ground arith)
  roll-pages (p ∷ ids) [] allocs cache m q =
      let (its, gone) = roll-pages ids [] allocs (delete p cache) m q in
      (its, ground (arith, gone, contains-delete p q cache))
  roll-pages (p ∷ ids) (a ∷ as') allocs cache m q =
      let allocs' = (if a == 0 then allocs else if a == txid then allocs else insert p a allocs) in
      let m' = (if a == 0 then m else if a == txid then m ++ p ∷ [] else m) in
      let (its, gone) = roll-pages ids as' allocs' (delete p cache) m' q in
      (
        its ∙ ground (arith, append_assoc m (p ∷ []) (own_pages txid ids as')),
        ground (arith, gone, contains-delete p q cache),
      )

  roll-allocs_other :
      (ids as' : List ℕ) (allocs : Map ℕ) (cache m : List ℕ) (q : ℕ)
      → contains q ids ≡ false
      → get q (roll txid ids as' allocs cache m).0 ≡ get q allocs
  unfolding roll contains
  roll-allocs_other [] as' allocs cache m q h = refl
  roll-allocs_other (p ∷ ids) [] allocs cache m q h =
      roll-allocs_other ids [] allocs (delete p cache) m q (ground arith)
  roll-allocs_other (p ∷ ids) (a ∷ as') allocs cache m q h = ground (
    arith,
    roll-allocs_other ids as' allocs (delete p cache) m q,
    roll-allocs_other ids as' allocs (delete p cache) (m ++ p ∷ []) q,
    roll-allocs_other ids as' (insert p a allocs) (delete p cache) m q,
    get-insert p q a allocs,
  )

  roll-allocs_restored :
      (ids as' : List ℕ) (allocs : Map ℕ) (cache m : List ℕ) (q a : ℕ)
      → Pairs q a ids as'
      → count q ids ≤ 1
      → a ≢ 0
      → a ≢ txid
      → get q (roll txid ids as' allocs cache m).0 ≡ some a
  unfolding roll
  roll-allocs_restored [] as' allocs cache m q a h once nz nt = absurd h
  roll-allocs_restored (p ∷ ids) [] allocs cache m q a h once nz nt = absurd h
  roll-allocs_restored (p ∷ ids) (b ∷ as') allocs cache m q a (inl (e, e')) once nz nt = ground (
    arith,
    contains-count q ids,
    roll-allocs_other ids as' (insert p b allocs) (delete p cache) m q,
    get-insert p q b allocs,
  )
  roll-allocs_restored (p ∷ ids) (b ∷ as') allocs cache m q a (inr h) once nz nt =
      let less : count q ids ≤ 1 = ground (arith, once) in
      ground (
        arith,
        roll-allocs_restored ids as' allocs (delete p cache) m q a h less nz nt,
        roll-allocs_restored ids as' allocs (delete p cache) (m ++ p ∷ []) q a h less nz nt,
        roll-allocs_restored ids as' (insert p b allocs) (delete p cache) m q a h less nz nt,
      )

-- What the call ends with where the transaction has a list: well-formed spans with its own pages
-- free besides, its pages out of the cache, its list gone, and every other page of the list
-- allocated again to the transaction that allocated it, if that is known.
pub record IsRolledBack (f : Freelist) (txid : ℕ) (txp : TxPending) (g : Freelist) : Type 0 where
  pub wf : IsWf g
  pub frees :
      (q : ℕ)
      → IsFree g q ↔ (IsFree f q ⊎ (contains q (own_pages txid txp.ids txp.alloc_tx) ≡ true))
  pub uncached : (q : ℕ) → freed g q ≡ (freed f q && not (contains q txp.ids))
  pub taken_back : (tid : ℕ) → get tid g.pending ≡ (if txid == tid then none else get tid f.pending)
  pub restored :
      (q a : ℕ) → Pairs q a txp.ids txp.alloc_tx → a ≢ 0 → a ≢ txid → get q g.allocs ≡ some a
  pub other_allocs : (q : ℕ) → contains q txp.ids ≡ false → get q g.allocs ≡ get q f.allocs

module _ (f : Freelist) (txid : ℕ) (txp : TxPending) (c : IsConsistent f)
    (h : get txid f.pending ≡ some txp) where
  list_count : (q : ℕ) → count q txp.ids ≤ times_pending f q
  unfolding pending_or_new
  list_count q = ground (arith, count-pending_remove txid q f.pending c.pending_keys)

  own_CanFree :
      (allocs : Map ℕ) (cache : List ℕ)
      → CanFree
          (record f { allocs = allocs; cache = cache; pending = remove txid f.pending })
          (own_pages txid txp.ids txp.alloc_tx)
  own_CanFree allocs cache =
      counts-CanFree (record f { allocs = allocs; cache = cache; pending = remove txid f.pending })
        (own_pages txid txp.ids txp.alloc_tx)
        (λ p pos.
          let some_time : 0 < times_pending f p =
            omega (arith, pos, list_count p, count-own_pages-le p txid txp.ids txp.alloc_tx) in
          (
            λ free. absurd (omega (arith, some_time, c.exclusive p free)),
            (c.proper p some_time).0,
            (c.proper p some_time).1,
          ))
        (λ p. omega (arith, list_count p, c.once p, count-own_pages-le p txid txp.ids txp.alloc_tx))

  -- On a consistent freelist where the transaction has a pending list, `rollback` leaves well-
  -- formed spans, in which the pages of the list that the transaction allocated itself are free
  -- besides, takes the list's pages out of the cache and drops the list, and books every other
  -- page of the list, if its allocating transaction is known, for that transaction again.
  pub rollback-IsRolledBack : IsRolledBack f txid txp (rollback f txid)
  unfolding rollback freed
  rollback-IsRolledBack =
      let r = roll txid txp.ids txp.alloc_tx f.allocs f.cache [] in
      let g0 = record f { allocs = r.0; cache = r.1; pending = remove txid f.pending } in
      let its = (roll-pages txid txp.ids txp.alloc_tx f.allocs f.cache [] 0).0 in
      let same = merge_spans_same_rest g0 (own_pages txid txp.ids txp.alloc_tx) in
      let merged =
        merge_spans-IsWf g0 (own_pages txid txp.ids txp.alloc_tx)
          (IsWf-same_spans f r.0 (remove txid f.pending) r.1 c.wf) (own_CanFree r.0 r.1) in
      rw (h, rollback, its)
        (record {
          wf = merged.0;
          frees = merged.1;
          uncached =
              λ q. rw same.1 ((roll-pages txid txp.ids txp.alloc_tx f.allocs f.cache [] q).1);
          taken_back = λ tid. rw same.0 (get-remove txid tid f.pending);
          restored = λ q a pair nz nt. rw same.2 (
              roll-allocs_restored txid txp.ids txp.alloc_tx f.allocs f.cache [] q a pair
                (omega (arith, list_count q, c.once q)) nz nt);
          other_allocs = λ q out.
              rw same.2 (roll-allocs_other txid txp.ids txp.alloc_tx f.allocs f.cache [] q out);
        })

  -- The bug: on a consistent freelist, after the rollback of a transaction with a pending list, a
  -- page of the list that the transaction allocated itself is free, and `freed` denies it.
  pub rollback_forgets :
      (q : ℕ)
      → contains q (own_pages txid txp.ids txp.alloc_tx) ≡ true
      → IsFree (rollback f txid) q × (freed (rollback f txid) q ≡ false)
  rollback_forgets q own =
      let r = rollback-IsRolledBack in
      (
        (r.frees q).1 (inr own),
        ground (
          arith,
          r.uncached q,
          contains-count q (own_pages txid txp.ids txp.alloc_tx),
          contains-count q txp.ids,
          count-own_pages-le q txid txp.ids txp.alloc_tx,
        ),
      )
