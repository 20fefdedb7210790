-- ===== src/System/Undoing.antt =====
-- A writer that has allocated nothing is rolled back: its freed pages are in use again.
use bbolt_rs.Prelude.{ℕ, ◌+◌, ◌≡◌, ◌≢◌, subst, ◌⊎◌, inl, inr, none, some, arith, get, Option-cases}
use bbolt_rs.Freelist.{Freelist, TxPending}
use bbolt_rs.Freelist.Consistent.{AllPairs, AllEntries}
use bbolt_rs.Freelist.Pending.{pending_or_new, rollback}
use bbolt_rs.Freelist.Pending.Entries.{AllPairs-map, remove-AllEntries, get-AllPairs}
use bbolt_rs.Freelist.Pending.Undo.{
  remove_absent, Pairs-AllPairs, rollback-pending, rollback-allocs, rollback-IsFree, uncached,
  rollback-IsConsistent,
}
use bbolt_rs.System.Horizon.{Horizon, IsSeen, Snapshots, IsPendable, IsSafe}

module _ (h : Horizon) (snap : Snapshots) (f : Freelist) (s : IsSafe h snap f)
    (writing : h.last ≡ h.current + 1) (nothing : h.newest ≡ h.current) where
  abbrev back : Horizon
  back = record h { last = h.current }

  still-IsSeen : (r : ℕ) → IsSeen back r → IsSeen h r
  still-IsSeen r (inl reads) = inl reads
  still-IsSeen r (inr (lo, hi)) = inr (lo, omega arith)

  older : (tid q a : ℕ) → tid ≢ h.last → IsPendable h snap tid q a → IsPendable back snap tid q a
  older tid q a other (le, le', held) =
      (ground (arith, other), le', λ r seen. held r (still-IsSeen r seen))

  no_list : get h.last f.pending ≡ none → IsSafe back snap (rollback f h.last)
  unfolding rollback
  no_list e =
      rw (e, rollback)
        (record {
          consistent = s.consistent;
          entries = subst (AllEntries (IsPendable back snap)) (remove_absent h.last f.pending e) (
              remove-AllEntries (IsPendable h snap) (IsPendable back snap) h.last f.pending older
                s.entries);
          unfree = λ r q seen. s.unfree r q (still-IsSeen r seen);
          booked = λ r id o a seen. s.booked r id o a (still-IsSeen r seen);
          known = s.known;
          coherent = λ r r' i o j o' q seen seen'.
              s.coherent r r' i o j o' q (still-IsSeen r seen) (still-IsSeen r' seen');
          bounded = λ r q seen. s.bounded r q (still-IsSeen r seen);
          tracked = s.tracked;
          listed = λ r o seen. s.listed r o (still-IsSeen r seen);
          readers = s.readers;
          ordered = ground (arith, s.ordered);
          fits = s.fits;
        })

  module _ (txp : TxPending) (e : get h.last f.pending ≡ some txp) where
    entry : AllPairs (IsPendable h snap h.last) txp.ids txp.alloc_tx
    unfolding pending_or_new
    entry = rw e at (get-AllPairs (IsPendable h snap) h.last f.pending s.entries)

    foreign : AllPairs (λ q a. a ≢ h.last) txp.ids txp.alloc_tx
    foreign =
        AllPairs-map (IsPendable h snap h.last) (λ q a. a ≢ h.last) txp.ids txp.alloc_tx
          (λ q a _ (_, le, _) same. absurd (omega arith)) entry

    booking :
        (q a : ℕ)
        → get q (rollback f h.last).allocs ≡ some a
        → (get q f.allocs ≡ some a) ⊎ IsPendable h snap h.last q a
    booking q a found = elim (rollback-allocs f h.last txp s.consistent e foreign q a found) [
      | inl old ↦ inl old
      | inr pair ↦
          inr (Pairs-AllPairs (IsPendable h snap h.last) q a txp.ids txp.alloc_tx entry pair)
    ]

    with_list : IsSafe back snap (rollback f h.last)
    with_list = record {
      consistent = rollback-IsConsistent f h.last txp s.consistent e foreign;
      entries = rw (rollback-pending f h.last txp s.consistent e foreign) (
          remove-AllEntries (IsPendable h snap) (IsPendable back snap) h.last f.pending older
            s.entries);
      unfree = λ r q seen holds free.
          s.unfree r q (still-IsSeen r seen) holds
            ((rollback-IsFree f h.last txp s.consistent e foreign q).0 free);
      booked = λ r id o a seen has found. elim (booking id a found) [
        | inl old ↦ s.booked r id o a (still-IsSeen r seen) has old
        | inr (_, _, held) ↦ (held r (still-IsSeen r seen) (id, o, has, ground arith)).0
      ];
      known =
          λ q a found. elim (booking q a found) [ inl old ↦ s.known q a old | inr (_, le, _) ↦ le ];
      coherent = λ r r' i o j o' q seen seen'.
          s.coherent r r' i o j o' q (still-IsSeen r seen) (still-IsSeen r' seen');
      bounded = λ r q seen. s.bounded r q (still-IsSeen r seen);
      tracked = λ q found.
          s.tracked q (ground (arith, uncached f h.last txp s.consistent e foreign q, found));
      listed = λ r o seen. s.listed r o (still-IsSeen r seen);
      readers = s.readers;
      ordered = ground (arith, s.ordered);
      fits = s.fits;
    }

  pub rollback-IsSafe : IsSafe (record h { last = h.current }) snap (rollback f h.last)
  rollback-IsSafe = elim (Option-cases (get h.last f.pending)) [
    | inl e ↦ no_list e
    | inr (txp, e) ↦ with_list txp e
  ]
