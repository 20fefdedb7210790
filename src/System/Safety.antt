-- ===== src/System/Safety.antt =====
-- What holds in every state that the transactions of src/db.rs can come to.
use mathlib.Core.Path.{sym}
use bbolt_rs.Prelude.{
  ℕ, ◌+◌, ◌-◌, ◌^◌, ◌<◌, ◌≡◌, refl, subst, ◌⊎◌, inl, inr, Bool, true, false, Option, none, some,
  List, [], ◌∷◌, arith, contains, contains-append, contains-count, u64_mod, Map, done, Bool-cases,
}
use bbolt_rs.Page.{PageHeader}
use bbolt_rs.Freelist.{Freelist, TxPending}
use bbolt_rs.Freelist.Spans.{IsFree}
use bbolt_rs.Freelist.Consistent.{pending_ids, AllEntries}
use bbolt_rs.Freelist.Pending.{free}
use bbolt_rs.Freelist.Pending.Release.{contains-pairs}
use bbolt_rs.Freelist.Pending.Free.{in_run, free-IsFreed}
use bbolt_rs.Db.State.{remove_tx, db_allocate}
use bbolt_rs.Db.Readers.{begin_tx_lem}
use bbolt_rs.System.Horizon.{IsSeen, Holds, IsPendable, IsSafe}
use bbolt_rs.System.Fresh.{db_allocate-IsGiven}
use bbolt_rs.System.Steps.{
  Writer, System, first_snapshot, Step, begin_read, end_read, begin_write, free_page, allocate,
  do_commit, roll_back, Reach, start, later,
}
use bbolt_rs.System.Invariant.{horizon_of, IsSound}
use bbolt_rs.System.Keeps.{reads-IsSound, opened_lem, closed_lem}
use bbolt_rs.System.Writers.{
  begin_write-IsSound, free_page-IsSound, allocate-IsSound, commit-IsSound, roll_back-IsSound,
}
use bbolt_rs.System.Freeing.{drop_page}
use bbolt_rs.System.Start.{first_database, new_db_lem, first-IsSound}

-- A pending page has an entry.
pending-entry :
    (Q : ℕ → ℕ → ℕ → Type 0) (q : ℕ) (m : Map TxPending)
    → AllEntries Q m
    → contains q (pending_ids m) ≡ true
    → (tid : ℕ) × (a : ℕ) × Q tid q a
unfolding pending_ids contains
pending-entry Q q [] h e = cc
pending-entry Q q ((tid, txp) ∷ m) (x, h) e = elim (Bool-cases (contains q txp.ids)) [
  | inl here ↦ let (a, y) = contains-pairs Q tid q txp.ids txp.alloc_tx x here in (tid, a, y)
  | inr later_on ↦ pending-entry Q q m h (ground (arith, contains-append q txp.ids (pending_ids m)))
]

Bool-not : (b : Bool) → (b ≡ true → ⊥) → b ≡ false
Bool-not true h = absurd (h refl)
Bool-not false h = refl

module _ (fnv : List ℕ → ℕ) where
  -- The state with its writer named.
  with_writer :
      (s : System) (w : Option Writer)
      → s.writer ≡ w
      → IsSound fnv s
      → IsSound fnv (record s { writer = w })
  with_writer s w e x = subst (λ w. IsSound fnv (record s { writer = w })) e x

  Step-IsSound : {s t : System} → Step fnv s t → IsSound fnv s → IsSound fnv t
  unfolding remove_tx
  Step-IsSound {s} (begin_read {d} {m} e) x =
      let (its, _) = begin_tx_lem s.db d m e in
      subst (λ d. IsSound fnv (record s { db = d })) its (reads-IsSound fnv s _ x (opened_lem s.db))
  Step-IsSound {s} (end_read r e) x =
      reads-IsSound fnv s (remove_tx s.db r).txs x (λ q h. inl (closed_lem s.db r q h))
  Step-IsSound {s} (begin_write {d} {m} e small run) x =
      begin_write-IsSound fnv s.db d m s.snapshot (with_writer s none e x) small run
  Step-IsSound {s} (free_page {w} {g} p e has list run) x =
      subst
        (λ o. IsSound fnv (record {
          db = record s.db { freelist = g };
          writer = o;
          snapshot = drop_page w.meta.txid p.id s.snapshot;
        }))
        (sym e)
        (free_page-IsSound fnv s.db w s.snapshot (with_writer s (some w) e x) g p has list run)
  Step-IsSound {s} (allocate {w} {g} {m} {r} list page_size data_size n e few small run) x =
      allocate-IsSound fnv s.db w s.snapshot (with_writer s (some w) e x) list page_size data_size n
        g m r few small run
  Step-IsSound {s} (do_commit {w} {mp'} {d} mp root pages e listed run run') x =
      commit-IsSound fnv s.db w s.snapshot (with_writer s (some w) e x) d mp mp' root pages listed
        run run'
  Step-IsSound {s} (roll_back {w} {d} closing e unused back soft run) x =
      roll_back-IsSound fnv s.db w s.snapshot (with_writer s (some w) e x) d closing unused back
        soft run

  Reach-IsSound : {page_size : ℕ} {s : System} → Reach fnv page_size s → IsSound fnv s
  Reach-IsSound {page_size} (start {d} e) =
      let opened = new_db_lem fnv page_size in
      let same : first_database fnv page_size ≡ d = cc in
      subst (λ d. IsSound fnv (record { db = d; writer = none; snapshot = first_snapshot })) same
        (first-IsSound fnv page_size)
  Reach-IsSound (later r st) = Step-IsSound st (Reach-IsSound r)

  module _ {page_size : ℕ} {s : System} (reach : Reach fnv page_size s) where
    -- In every state that a new database can come to by transactions that begin, read, free and
    -- allocate pages, commit and are rolled back (no commit failing half way): no page of the
    -- current snapshot, or of one that an open reader began with, is free.
    pub Reach-unfree :
        (r id o q : ℕ)
        → (contains r s.db.txs ≡ true) ⊎ (r ≡ s.db.current.txid)
        → s.snapshot r id ≡ some o
        → in_run id o q ≡ true
        → ¬ IsFree s.db.freelist q
    Reach-unfree r id o q who has inside =
        sound.safe.unfree r q (seen s.writer sound.safe) (id, o, has, inside)
      where
        sound : IsSound fnv s
        sound = Reach-IsSound reach

        seen :
            (w : Option Writer)
            → IsSafe (horizon_of s.db w) s.snapshot s.db.freelist
            → IsSeen (horizon_of s.db w) r
        seen none x = elim who [ inl reads ↦ inl reads | inr at ↦ inr (omega arith, omega arith) ]
        seen (some w) x = elim who [
          | inl reads ↦ inl reads
          | inr at ↦ inr (omega arith, omega (arith, x.ordered))
        ]

    module _ (w : Writer) (writing : s.writer ≡ some w) where
      sound : IsSound fnv (record s { writer = some w })
      sound = with_writer s (some w) writing (Reach-IsSound reach)

      its_views :
          (r : ℕ)
          → (contains r s.db.txs ≡ true) ⊎ (r ≡ s.db.current.txid) ⊎ (r ≡ w.meta.txid)
          → IsSeen (horizon_of s.db (some w)) r
      its_views r (inl reads) = inl reads
      its_views r (inr (inl at)) = inr (omega arith, omega (arith, sound.writing.0))
      its_views r (inr (inr at)) = inr (omega (arith, sound.writing.0), omega arith)

      -- A page that the writer's snapshot has is neither free nor pending.
      not_tracked :
          (q : ℕ) → Holds s.snapshot w.meta.txid q → contains q s.db.freelist.cache ≡ false
      not_tracked q held = elim (Bool-cases (contains q s.db.freelist.cache)) [
        | inr absent ↦ absent
        | inl old ↦
            let here = its_views w.meta.txid (inr (inr refl)) in
            elim ((sound.safe.consistent.cached q).0 old) [
              | inl free ↦ absurd (sound.safe.unfree w.meta.txid q here held free)
              | inr pends ↦
                  let (tid, a, (le, _, view)) =
                    pending-entry (IsPendable (horizon_of s.db (some w)) s.snapshot) q
                      s.db.freelist.pending sound.safe.entries
                      (ground (arith, contains-count q (pending_ids s.db.freelist.pending))) in
                  absurd (omega (arith, view w.meta.txid here held))
            ]
      ]

      -- In every such state with a writer, `allocate` for 1 to `u32::MAX` pages below the end of the
      -- ids gives a run of that many pages, none of which is a meta page or a page of the writer's
      -- own snapshot, of the current one, or of one that an open reader began with; and the meta
      -- changes at most in its high water mark, which stays above the run.
      pub allocate-unseen :
          (page_size data_size n : ℕ)
          → (0 < n) × (n < 2 ^ 32)
          → w.meta.pgid + n < u64_mod
          → let (g, m, a) = db_allocate page_size data_size s.db.freelist w.meta n in
            (a.overflow ≡ n - 1)
            × (1 < a.id)
            × (a.id + a.overflow < m.pgid)
            × (m ≡ record w.meta { pgid = m.pgid })
            × ((r id o q : ℕ)
                → (contains r s.db.txs ≡ true) ⊎ (r ≡ s.db.current.txid) ⊎ (r ≡ w.meta.txid)
                → s.snapshot r id ≡ some o
                → in_run id o q ≡ true
                → in_run a.id a.overflow q ≡ false)
      allocate-unseen page_size data_size n few small =
          let h = horizon_of s.db (some w) in
          let got =
            db_allocate-IsGiven h s.snapshot s.db.freelist page_size data_size n w.meta sound.safe
              refl refl few small in
          (
            got.2,
            (got.0).bounds.0,
            (got.0).bounds.1,
            got.1,
            λ r id o q who has inside.
                Bool-not _ ((got.0).unseen r q (its_views r who) (id, o, has, inside)),
          )

      -- In every such state with a writer, `free` of a page that the writer's snapshot has ends without
      -- a panic.
      pub free-done :
          (p : PageHeader)
          → s.snapshot w.meta.txid p.id ≡ some p.overflow
          → (g : Freelist) × (free s.db.freelist w.meta.txid p ≡ done g)
      free-done p has =
          let h = horizon_of s.db (some w) in
          let here : IsSeen h w.meta.txid = its_views w.meta.txid (inr (inr refl)) in
          let x = sound.safe in
          let held : (q : ℕ) → in_run p.id p.overflow q ≡ true → Holds s.snapshot w.meta.txid q =
            λ q inside. (p.id, p.overflow, has, inside) in
          let (g, run, _) =
            free-IsFreed s.db.freelist w.meta.txid p x.consistent
              (x.bounded w.meta.txid p.id here (held p.id (ground arith))).0
              (ground (
                arith,
                x.bounded w.meta.txid (p.id + p.overflow) here
                    (held (p.id + p.overflow) (ground arith)),
                x.fits,
              ))
              (λ q inside. not_tracked q (held q inside)) in
          (g, run)
