-- ===== src/Freelist/Pending/Undo.antt =====
-- `rollback` of src/freelist.rs for a transaction that has freed pages and allocated none of them.
use bbolt_rs.Prelude.{
  ℕ, ◌+◌, ◌≡◌, refl, ◌≢◌, ◌↔◌, ◌⊎◌, inl, inr, ◌&&◌, not, none, some, List, [], ◌∷◌, ◌++◌, arith,
  ◌==◌, if◌then◌else◌, Map, get, insert, remove, remove-DistinctKeys, get-insert, contains, delete,
  contains-count, count, Bool-cases,
}
use bbolt_rs.Freelist.{Freelist, TxPending}
use bbolt_rs.Freelist.Spans.{IsFree}
use bbolt_rs.Freelist.Consistent.{
  times_pending, AllPairs, Anything, IsConsistent, merge_spans_same_rest,
}
use bbolt_rs.Freelist.Pending.{roll, rollback, freed, pending_or_new}
use bbolt_rs.Freelist.Pending.Entries.{remove-AllEntries}
use bbolt_rs.Freelist.Pending.Free.{count-pending_remove}
use bbolt_rs.Freelist.Pending.Rollback.{own_pages, Pairs, rollback-IsRolledBack}

pub remove_absent : (k : ℕ) (m : Map TxPending) → get k m ≡ none → remove k m ≡ m
unfolding get remove
remove_absent k [] e = refl
remove_absent k ((j, txp) ∷ m) e = ground (arith, remove_absent k m)

-- No page of the list was allocated by the transaction.
own_pages_none :
    (txid : ℕ) (ps as' : List ℕ) → AllPairs (λ q a. a ≢ txid) ps as' → own_pages txid ps as' ≡ []
own_pages_none txid [] as' h = refl
own_pages_none txid (p ∷ ps) [] h = absurd h
own_pages_none txid (p ∷ ps) (a ∷ as') (x, h) = ground (arith, own_pages_none txid ps as' h)

Pairs-nil : (q a : ℕ) (ps : List ℕ) → Pairs q a ps [] → ⊥
Pairs-nil q a [] x = x
Pairs-nil q a (p ∷ ps) x = x

-- A booking is one of before, or stands in the list.
roll-allocs_cases :
    (txid : ℕ) (ids as' : List ℕ) (allocs : Map ℕ) (cache m : List ℕ) (q a : ℕ)
    → get q (roll txid ids as' allocs cache m).0 ≡ some a
    → (get q allocs ≡ some a) ⊎ Pairs q a ids as'
unfolding roll
roll-allocs_cases txid [] as' allocs cache m q a e = inl e
roll-allocs_cases txid (p ∷ ids) [] allocs cache m q a e =
    elim (roll-allocs_cases txid ids [] allocs (delete p cache) m q a e) [
      | inl old ↦ inl old
      | inr pair ↦ absurd (Pairs-nil q a ids pair)
    ]
roll-allocs_cases txid (p ∷ ids) (b ∷ as') allocs cache m q a e =
    let allocs' = (if b == 0 then allocs else if b == txid then allocs else insert p b allocs) in
    let m' = (if b == 0 then m else if b == txid then m ++ p ∷ [] else m) in
    elim (roll-allocs_cases txid ids as' allocs' (delete p cache) m' q a e) [
      | inl old ↦ elim (Bool-cases (b == 0)) [
        | inl unknown ↦ inl (rw unknown at old)
        | inr known ↦ elim (Bool-cases (b == txid)) [
          | inl own ↦ inl (rw (known, own) at old)
          | inr other ↦ elim (Bool-cases (p == q)) [
            | inl here ↦ inr (inl (ground arith, ground (arith, old, get-insert p q b allocs)))
            | inr there ↦ inl (ground (arith, old, get-insert p q b allocs))
          ]
        ]
      ]
      | inr pair ↦ inr (inr pair)
    ]

pub Pairs-AllPairs :
    (P : ℕ → ℕ → Type 0) (q a : ℕ) (ps as' : List ℕ) → AllPairs P ps as' → Pairs q a ps as' → P q a
Pairs-AllPairs P q a [] as' h x = absurd x
Pairs-AllPairs P q a (p ∷ ps) [] h x = absurd x
Pairs-AllPairs P q a (p ∷ ps) (b ∷ bs) (y, h) (inl (e, e')) = rw (← e, ← e') y
Pairs-AllPairs P q a (p ∷ ps) (b ∷ bs) (y, h) (inr x) = Pairs-AllPairs P q a ps bs h x

module _ (f : Freelist) (txid : ℕ) (txp : TxPending) (c : IsConsistent f)
    (h : get txid f.pending ≡ some txp)
    (foreign : AllPairs (λ q a. a ≢ txid) txp.ids txp.alloc_tx) where
  pub rollback-pending : (rollback f txid).pending ≡ remove txid f.pending
  unfolding rollback
  rollback-pending =
      let r = roll txid txp.ids txp.alloc_tx f.allocs f.cache [] in
      rw (h, rollback)
        ((merge_spans_same_rest
          (record f { allocs = r.0; cache = r.1; pending = remove txid f.pending }) r.2).0)

  pub rollback-allocs :
      (q a : ℕ)
      → get q (rollback f txid).allocs ≡ some a
      → (get q f.allocs ≡ some a) ⊎ Pairs q a txp.ids txp.alloc_tx
  unfolding rollback
  rollback-allocs q a e =
      let r = roll txid txp.ids txp.alloc_tx f.allocs f.cache [] in
      let same =
        (merge_spans_same_rest
          (record f { allocs = r.0; cache = r.1; pending = remove txid f.pending }) r.2).2 in
      roll-allocs_cases txid txp.ids txp.alloc_tx f.allocs f.cache [] q a
        (rw (h, rollback, same) at e)

  pub rollback-IsFree : (q : ℕ) → IsFree (rollback f txid) q ↔ IsFree f q
  unfolding contains
  rollback-IsFree q =
      let x = rollback-IsRolledBack f txid txp c h in
      let none_own = own_pages_none txid txp.ids txp.alloc_tx foreign in
      (
        λ free. elim ((x.frees q).0 free) [
          | inl old ↦ old
          | inr own ↦ absurd (ground (arith, (rw none_own at own)))
        ],
        λ free. (x.frees q).1 (inl free),
      )

  conserved : (q : ℕ) → times_pending f q ≡ count q txp.ids + times_pending (rollback f txid) q
  unfolding pending_or_new
  conserved q =
      rw rollback-pending (ground (arith, count-pending_remove txid q f.pending c.pending_keys))

  pub uncached :
      (q : ℕ)
      → contains q (rollback f txid).cache ≡ (contains q f.cache && not (contains q txp.ids))
  unfolding freed
  uncached q = (rollback-IsRolledBack f txid txp c h).uncached q

  -- On a consistent freelist where the transaction has a pending list, none of whose pages it
  -- allocated itself, `rollback` leaves a consistent freelist.
  pub rollback-IsConsistent : IsConsistent (rollback f txid)
  rollback-IsConsistent = record {
    wf = (rollback-IsRolledBack f txid txp c h).wf;
    pending_keys = rw rollback-pending (remove-DistinctKeys txid f.pending c.pending_keys);
    paired =
        rw rollback-pending
          (remove-AllEntries Anything Anything txid f.pending (λ _ _ _ _ _. tt) c.paired);
    cached = λ q. (
      λ e. elim ((c.cached q).0 (ground (arith, uncached q))) [
        | inl free ↦ inl ((rollback-IsFree q).1 free)
        | inr pends ↦ inr (ground (arith, uncached q, contains-count q txp.ids, conserved q))
      ],
      λ either. elim either [
        | inl free ↦
            let was = (rollback-IsFree q).0 free in
            ground (
              arith,
              uncached q,
              contains-count q txp.ids,
              conserved q,
              c.exclusive q was,
              (c.cached q).1 (inl was),
            )
        | inr pends ↦ ground (
          arith,
          uncached q,
          contains-count q txp.ids,
          conserved q,
          c.once q,
          (c.cached q).1 (inr (omega (arith, pends, conserved q))),
        )
      ],
    );
    exclusive = λ q free. omega (arith, conserved q, c.exclusive q ((rollback-IsFree q).0 free));
    once = λ q. omega (arith, conserved q, c.once q);
    proper = λ q pos. c.proper q (omega (arith, conserved q, pos));
  }
