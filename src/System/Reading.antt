-- ===== src/System/Reading.antt =====
-- Readers come and go, and old pages are reclaimed: the promise of the freelist stays.
use bbolt_rs.Prelude.{
  ℕ, ◌≤◌, ◌<◌, ◌≡◌, inl, inr, true, some, arith, contains, sort, contains-sort, done,
}
use bbolt_rs.Freelist.{Freelist}
use bbolt_rs.Freelist.Pending.Entries.{AllEntries-map}
use bbolt_rs.Db.{free_pages}
use bbolt_rs.Db.Reclaim.{free_pages-IsReclaimed}
use bbolt_rs.System.Horizon.{Horizon, IsSeen, Snapshots, IsPendable, IsSafe}

-- Fewer snapshots are seen, with the same last id and high water mark.
pub IsSafe-seen :
    (h h' : Horizon) (snap : Snapshots) (f : Freelist)
    → IsSafe h snap f
    → ((r : ℕ) → IsSeen h' r → IsSeen h r)
    → h'.last ≡ h.last
    → h'.high ≡ h.high
    → (h.newest ≤ h'.newest) × (h'.newest ≤ h'.last)
    → (0 < h'.current) × (h'.current ≤ h'.newest)
    → ((r o : ℕ) → IsSeen h' r → snap r h'.list ≡ some o → h'.current ≤ r)
    → ((r : ℕ) → contains r h'.txs ≡ true → (0 < r) × (r ≤ h'.current))
    → IsSafe h' snap f
IsSafe-seen h h' snap f s sub last high newest current listed readers = record {
  consistent = s.consistent;
  entries =
      AllEntries-map (IsPendable h snap) (IsPendable h' snap) f.pending
        (λ tid q a _ (le, le', held).
          (omega (arith, last), omega (arith, newest), λ r seen. held r (sub r seen)))
        s.entries;
  unfree = λ r q seen. s.unfree r q (sub r seen);
  booked = λ r id o a seen. s.booked r id o a (sub r seen);
  known = λ q a e. omega (arith, s.known q a e, newest);
  coherent = λ r r' i o j o' q seen seen'. s.coherent r r' i o j o' q (sub r seen) (sub r' seen');
  bounded = λ r q seen holds. ground (arith, high, s.bounded r q (sub r seen) holds);
  tracked = λ q e. ground (arith, high, s.tracked q e);
  listed = listed;
  readers = readers;
  ordered = ground (arith, s.ordered, last, newest, current);
  fits = ground (arith, s.fits, high);
}

-- The freelist reclaims pages while nobody writes.
pub free_pages-IsSafe :
    (h : Horizon) (snap : Snapshots) (f : Freelist)
    → IsSafe h snap f
    → h.last ≡ h.current
    → (g : Freelist) × (free_pages f h.txs ≡ done (g, sort h.txs))
      × IsSafe (record h { txs = sort h.txs }) snap g
free_pages-IsSafe h snap f s idle =
    let (g, run, x) =
      free_pages-IsReclaimed (IsPendable h snap) f h.txs s.consistent s.entries
        (λ r e. ground (arith, s.readers r e, s.ordered)) in
    let sub : (r : ℕ) → IsSeen (record h { txs = sort h.txs }) r → IsSeen h r =
      λ r seen. elim seen [ inl e ↦ inl (rw contains-sort at e) | inr b ↦ inr b ] in
    (
      g,
      run,
      IsSafe-seen h (record h { txs = sort h.txs }) snap g
          (record {
            consistent = x.consistent;
            entries = x.entries;
            unfree = λ r q seen holds free. elim (x.safe q free) [
              | inl old ↦ s.unfree r q seen holds old
              | inr (tid, a, (le, le', held), unseen) ↦ elim seen [
                | inl reads ↦ unseen r reads (held r (inl reads) holds)
                | inr b ↦ absurd (omega (arith, held r (inr b) holds))
              ]
            ];
            booked = λ r id o a. rw x.same_allocs (s.booked r id o a);
            known = λ q a. rw x.same_allocs (s.known q a);
            coherent = s.coherent;
            bounded = s.bounded;
            tracked = λ q. rw x.same_cache (s.tracked q);
            listed = s.listed;
            readers = s.readers;
            ordered = s.ordered;
            fits = s.fits;
          })
          sub (omega arith) (omega arith) (ground (arith, s.ordered)) (ground (arith, s.ordered))
          (λ r o seen. s.listed r o (sub r seen)) (λ r e. s.readers r (rw contains-sort at e)),
    )
