-- ===== src/System/Writers.antt =====
-- Every step of the system keeps what it promises: the writer's steps.
use mathlib.Core.Path.{sym}
use bbolt_rs.Prelude.{
  ℕ, ◌+◌, ◌%◌, ◌^◌, ◌<◌, ◌≡◌, refl, subst, ap, ◌∙◌, inl, inr, Bool, true, false, Option, none, some,
  List, arith, ◌==◌, if◌then◌else◌, sort, u64_mod, Bool-cases, done,
}
use bbolt_rs.Page.{PageHeader, is_free_list}
use bbolt_rs.Meta.{BucketHeader, Meta, MetaPage, magic_number, version_number, write, current_meta}
use bbolt_rs.Meta.Current.{write_lem}
use bbolt_rs.Meta.Commit.{written, commit_lem}
use bbolt_rs.Freelist.{Freelist}
use bbolt_rs.Freelist.Pending.{free, rollback}
use bbolt_rs.Freelist.Stored.{FreelistPage}
use bbolt_rs.Db.State.{
  Database, AllocateResult, TxClosingState, commit, is_rollback, is_physical_rollback, begin_rw_tx,
  remove_rw_tx, db_allocate, with_meta,
}
use bbolt_rs.Db.Ending.{begin_rw_tx_lem, remove_rw_tx_lem}
use bbolt_rs.System.Horizon.{IsSeen, Snapshots, IsSafe}
use bbolt_rs.System.Reading.{IsSafe-seen, free_pages-IsSafe}
use bbolt_rs.System.Writing.{copy_snapshot, begin-IsSafe, add_page, IsNew, cases, add_page-IsSafe}
use bbolt_rs.System.Fresh.{IsGiven, db_allocate-IsGiven}
use bbolt_rs.System.Freeing.{drop_page, before, drop_page-IsSafe}
use bbolt_rs.System.Undoing.{rollback-IsSafe}
use bbolt_rs.System.Steps.{Writer, System, with_list}
use bbolt_rs.System.Invariant.{horizon_of, IsStored, IsSound}

module _ (fnv : List ℕ → ℕ) where
  -- The state with no writer, and with one.
  abbrev pub idle : Database → Snapshots → System
  idle d snap = record { db = d; writer = none; snapshot = snap }

  abbrev pub writes : Database → Writer → Snapshots → System
  writes d w snap = record { db = d; writer = some w; snapshot = snap }

  same_stored :
      (d : Database) (txs : List ℕ) (rwtx : Option ℕ) (f : Freelist)
      → IsStored fnv d
      → IsStored fnv (record d { txs = txs; rwtx = rwtx; freelist = f })
  same_stored d txs rwtx f x = record {
    even = x.even;
    odd = x.odd;
    current = x.current;
    magic = x.magic;
    version = x.version;
  }

  pub begin_write-IsSound :
      (d d' : Database) (m : Meta) (snap : Snapshots)
      → IsSound fnv (idle d snap)
      → d.current.txid + 2 < u64_mod
      → begin_rw_tx d ≡ done (some (d', m))
      → IsSound fnv (
          writes d'
            (record { meta = m; grown = false; listed = false })
            (copy_snapshot d.current.txid snap))
  begin_write-IsSound d d' m snap x small e =
      let (g, run, s) = free_pages-IsSafe (horizon_of d none) snap d.freelist x.safe refl in
      let s' = begin-IsSafe (record (horizon_of d none) { txs = sort d.txs }) snap g s refl small in
      let (its, its') = begin_rw_tx_lem d d' m g (sort d.txs) run (omega arith) e in
      let w : Writer = record {
        meta = record d.current { txid = d.current.txid + 1 };
        grown = false;
        listed = false;
      } in
      let d1 : Database = record d {
        txs = sort d.txs;
        freelist = g;
        rwtx = some (d.current.txid + 1);
      } in
      let sound : IsSound fnv (writes d1 w (copy_snapshot d.current.txid snap)) = record {
        safe = s';
        stored = same_stored d (sort d.txs) (some (d.current.txid + 1)) g x.stored;
        writing = (refl, x.stored.magic, x.stored.version, λ _. refl, λ no. absurd cc);
      } in
      subst
        (λ d2. IsSound fnv (
          writes d2 (record { meta = m; grown = false; listed = false })
            (copy_snapshot d.current.txid snap)))
        its
        (subst
          (λ m. IsSound fnv (
            writes d1 (record { meta = m; grown = false; listed = false })
              (copy_snapshot d.current.txid snap)))
          its' sound)

  module _ (d : Database) (w : Writer) (snap : Snapshots) (x : IsSound fnv (writes d w snap)) where
    pub free_page-IsSound :
        (g : Freelist) (p : PageHeader)
        → snap w.meta.txid p.id ≡ some p.overflow
        → (is_free_list p ≡ true → p.id ≡ d.current.free_list)
        → free d.freelist w.meta.txid p ≡ done g
        → IsSound fnv (writes (record d { freelist = g }) w (drop_page w.meta.txid p.id snap))
    free_page-IsSound g p has list run =
        let h = horizon_of d (some w) in
        let next : w.meta.txid ≡ d.current.txid + 1 = x.writing.0 in
        let (_, a, b, c, own) = x.writing in
        record {
          safe = drop_page-IsSafe h snap d.freelist g p x.safe next has list run;
          stored = same_stored d d.txs d.rwtx g x.stored;
          writing = (
            next,
            a,
            b,
            c,
            λ listed r o seen e.
                own listed r o seen
                  (before h snap d.freelist g p x.safe next has list run r w.meta.free_list o e).0,
          );
        }

    -- The writer after it was given the page `id` and the high water mark `high`.
    abbrev given : Bool → ℕ → ℕ → Writer
    given list id high = record {
      meta = with_list list (record w.meta { pgid = high }) id;
      grown = true;
      listed = if list then true else w.listed;
    }

    given-IsSound :
        (list : Bool) (g : Freelist) (id o high : ℕ)
        → IsNew (horizon_of d (some w)) snap d.freelist g id o high
        → IsSound fnv (
            writes
              (record d { freelist = g })
              (given list id high)
              (add_page w.meta.txid id o snap))
    given-IsSound true g id o high new =
        let h = horizon_of d (some w) in
        let next : w.meta.txid ≡ d.current.txid + 1 = x.writing.0 in
        let (_, a, b, _, _) = x.writing in
        record {
          safe = add_page-IsSafe h snap d.freelist g id o high x.safe new next;
          stored = same_stored d d.txs d.rwtx g x.stored;
          writing = (
            next,
            a,
            b,
            λ no. absurd cc,
            λ _ r k seen e. elim (cases h snap d.freelist g id o high x.safe new next r id k e) [
              | inl (at, _, _) ↦ omega arith
              | inr old ↦ absurd (new.unseen r id seen (id, k, old, ground arith) (ground arith))
            ],
          );
        }
    given-IsSound false g id o high new =
        let h = horizon_of d (some w) in
        let next : w.meta.txid ≡ d.current.txid + 1 = x.writing.0 in
        let (_, a, b, _, own) = x.writing in
        record {
          safe = add_page-IsSafe h snap d.freelist g id o high x.safe new next;
          stored = same_stored d d.txs d.rwtx g x.stored;
          writing = (
            next,
            a,
            b,
            λ no. absurd cc,
            λ listed r k seen e.
                elim (cases h snap d.freelist g id o high x.safe new next r w.meta.free_list k e) [
                  | inl (at, _, _) ↦ omega arith
                  | inr old ↦ own listed r k seen old
                ],
          );
        }

    pub allocate-IsSound :
        (list : Bool) (page_size data_size n : ℕ) (g : Freelist) (m : Meta) (r : AllocateResult)
        → (0 < n) × (n < 2 ^ 32)
        → w.meta.pgid + n < u64_mod
        → db_allocate page_size data_size d.freelist w.meta n ≡ (g, m, r)
        → IsSound fnv (
            writes
              (record d { freelist = g })
              (record {
                meta = with_list list m r.id;
                grown = true;
                listed = if list then true else w.listed;
              })
              (add_page w.meta.txid r.id r.overflow snap))
    allocate-IsSound list page_size data_size n g m r few small run =
        let h = horizon_of d (some w) in
        let got : IsGiven h snap d.freelist w.meta n (g, m, r) =
          subst (IsGiven h snap d.freelist w.meta n) run (
            db_allocate-IsGiven h snap d.freelist page_size data_size n w.meta x.safe refl refl few
              small) in
        subst
          (λ m. IsSound fnv (
            writes (record d { freelist = g })
              (record {
                meta = with_list list m r.id;
                grown = true;
                listed = if list then true else w.listed;
              })
              (add_page w.meta.txid r.id r.overflow snap)))
          (sym (got.1)) (given-IsSound list g r.id r.overflow m.pgid got.0)

    pub roll_back-IsSound :
        (d' : Database) (closing : TxClosingState)
        → w.grown ≡ false
        → is_rollback closing ≡ true
        → is_physical_rollback closing ≡ false
        → remove_rw_tx fnv d closing w.meta.txid ≡ done d'
        → IsSound fnv (idle d' snap)
    roll_back-IsSound d' closing unused back soft e =
        let h = horizon_of d (some w) in
        let (next, _, _, same, _) = x.writing in
        let undone : IsSafe (record h { last = h.current }) snap (rollback d.freelist w.meta.txid) =
          rollback-IsSafe h snap d.freelist x.safe next (rw unused refl) in
        let its = remove_rw_tx_lem fnv d d' closing w.meta.txid d.current soft x.stored.current e in
        let d1 : Database = record d { freelist = rollback d.freelist w.meta.txid; rwtx = none } in
        let its' : d1 ≡ d' = rw back at its in
        let sound : IsSound fnv (idle d1 snap) = record {
          safe =
              IsSafe-seen (record h { last = h.current }) (horizon_of d1 none) snap
                (rollback d.freelist w.meta.txid) undone (λ r seen. seen) refl
                (ground (arith, same)) (ground (arith, unused)) (ground (arith, undone.ordered))
                undone.listed undone.readers;
          stored = same_stored d d.txs none (rollback d.freelist w.meta.txid) x.stored;
          writing = tt;
        } in
        subst (λ d2. IsSound fnv (idle d2 snap)) its' sound

    -- The pages of the backend after a commit have the parity of their places.
    stored_after :
        (id : ℕ) (c : Meta)
        → id ≡ c.txid % 2
        → c.magic ≡ magic_number
        → c.version ≡ version_number
        → (f : Freelist) (pages : ℕ → FreelistPage)
        → let metas = written id c (d.meta0, d.meta1) in
          current_meta fnv metas.0 metas.1 ≡ done c
          → IsStored fnv (record d {
            current = c;
            freelist = f;
            meta0 = metas.0;
            meta1 = metas.1;
            rwtx = none;
            freelist_pages = pages;
          })
    stored_after id c at magic version f pages now = record {
      even = elim (Bool-cases (id == 0)) [
        | inl first ↦ rw first (ground arith)
        | inr second ↦ rw second (x.stored.even)
      ];
      odd = elim (Bool-cases (id == 0)) [
        | inl first ↦ rw first (x.stored.odd)
        | inr second ↦ rw second (ground arith)
      ];
      current = now;
      magic = magic;
      version = version;
    }

    module _ (c : Meta) (id : ℕ) (pages : ℕ → FreelistPage) (parity : id ≡ c.txid % 2)
        (txid : c.txid ≡ w.meta.txid) (pgid : c.pgid ≡ w.meta.pgid)
        (free_list : c.free_list ≡ w.meta.free_list) (magic : c.magic ≡ magic_number)
        (version : c.version ≡ version_number) (listed : w.listed ≡ true)
        (now : let metas = written id c (d.meta0, d.meta1) in
          current_meta fnv metas.0 metas.1 ≡ done c) where
      abbrev committed : Database
      committed = record d {
        current = c;
        meta0 = (written id c (d.meta0, d.meta1)).0;
        meta1 = (written id c (d.meta0, d.meta1)).1;
        rwtx = none;
        freelist_pages = pages;
      }

      newly-IsSeen :
          (r : ℕ) → IsSeen (horizon_of committed none) r → IsSeen (horizon_of d (some w)) r
      newly-IsSeen r (inl reads) = inl reads
      newly-IsSeen r (inr (lo, hi)) =
          let next = x.writing.0 in inr (omega (arith, next), omega arith)

      committed-IsSound : IsSound fnv (idle committed snap)
      committed-IsSound =
          let (next, _, _, _, own) = x.writing in
          record {
            safe =
                IsSafe-seen (horizon_of d (some w)) (horizon_of committed none) snap d.freelist
                  x.safe newly-IsSeen txid pgid (ground (arith, x.safe.ordered, txid))
                  (ground (arith, x.safe.ordered, txid))
                  (λ r o seen e. ground (
                    arith,
                    txid,
                    own listed r o (newly-IsSeen r seen)
                        (subst (λ id. snap r id ≡ some o) free_list e),
                  ))
                  (λ r reads. ground (arith, next, txid, x.safe.readers r reads));
            stored = stored_after id c parity magic version d.freelist pages now;
            writing = tt;
          }

    pub commit-IsSound :
        (d' : Database) (mp mp' : MetaPage) (root : BucketHeader) (pages : ℕ → FreelistPage)
        → w.listed ≡ true
        → write fnv (record w.meta { root = root }) mp ≡ done mp'
        → remove_rw_tx fnv (with_meta d mp' pages) commit w.meta.txid ≡ done d'
        → IsSound fnv (idle d' snap)
    unfolding is_rollback is_physical_rollback
    commit-IsSound d' mp mp' root pages listed run e =
        elim (write_lem fnv (record w.meta { root = root }) mp) [
          | inl (_, stop) ↦ absurd cc
          | inr (_, (page, run', at, its, valid)) ↦
              let same : page ≡ mp' = cc in
              let (next, magic, version, _, _) = x.writing in
              let id : page.page.id ≡ page.meta.txid % 2 =
                ground (arith, at, ap (λ m. m.txid) its) in
              let id' : (d.current.txid + 1) % 2 ≡ page.page.id = ground (arith, at, next) in
              let switched =
                (commit_lem fnv d.meta0 d.meta1 d.current page.meta x.stored.even x.stored.odd
                    x.stored.current).1
                  (valid magic version) (ap (λ m. m.txid) its ∙ next) in
              let now =
                subst
                  (λ id.
                    let metas = written id page.meta (d.meta0, d.meta1) in
                    current_meta fnv metas.0 metas.1 ≡ done page.meta)
                  id' switched in
              let e' =
                subst (λ mp. remove_rw_tx fnv (with_meta d mp pages) commit w.meta.txid ≡ done d')
                  (sym same) e in
              let ends =
                remove_rw_tx_lem fnv (with_meta d page pages) d' commit w.meta.txid page.meta refl
                  now e' in
              subst (λ d2. IsSound fnv (idle d2 snap)) ends
                (committed-IsSound page.meta page.page.id pages id (ap (λ m. m.txid) its)
                  (ap (λ m. m.pgid) its) (ap (λ m. m.free_list) its) (ap (λ m. m.magic) its ∙ magic)
                  (ap (λ m. m.version) its ∙ version) listed now)
        ]
