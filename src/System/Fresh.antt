-- ===== src/System/Fresh.antt =====
-- `DbShared::allocate` of src/db.rs gives the writer pages that nobody sees.
use bbolt_rs.Prelude.{
  ℕ, ◌+◌, ◌-◌, ◌%◌, ◌^◌, ◌<◌, ◌≡◌, refl, subst, inl, inr, Option, none, some, arith, ◌==◌, contains,
  u64_mod, add_u64, add_u64_lem, sub_u64, sub_u64_lem, Bool-cases,
}
use mathlib.Core.Path.{sym}
use bbolt_rs.Meta.{Meta}
use bbolt_rs.Freelist.{Freelist, allocate}
use bbolt_rs.Freelist.Allocate.{AllocateResult as IsAnswer, IsAllocated, allocate-AllocateResult}
use bbolt_rs.Freelist.Booking.{allocate-IsConsistent}
use bbolt_rs.Freelist.Consistent.{IsConsistent}
use bbolt_rs.Db.State.{AllocateResult, allocated, db_allocate}
use bbolt_rs.System.Horizon.{Horizon, Snapshots, IsSafe}
use bbolt_rs.System.Writing.{IsNew}

module _ (h : Horizon) (snap : Snapshots) (f : Freelist) (s : IsSafe h snap f) where
  -- A run of the freelist.
  found-IsNew :
      (g : Freelist) (n p : ℕ)
      → IsConsistent g
      → 0 < n
      → IsAllocated f h.last n p g
      → IsNew h snap f g p (n - 1) h.high
  found-IsNew g n p c pos x = record {
    consistent = c;
    same_pending = x.same_pending;
    booked = λ q a e. elim (Bool-cases (p == q)) [
      | inl here ↦ inr (ground arith, ground (arith, x.booked q))
      | inr there ↦ inl (ground (arith, x.booked q))
    ];
    frees = λ q free. ((x.frees q).0 free).0;
    cached = λ q e. ground (arith, x.uncached q);
    unseen = λ r q seen holds inside.
        s.unfree r q seen holds (x.was_free q (ground arith) (ground arith));
    not_free = λ q inside free. ((x.frees q).0 free).1 (ground arith);
    not_pending = λ q inside. s.consistent.exclusive q (x.was_free q (ground arith) (ground arith));
    bounds =
        let first = (s.consistent.cached p).1 (inl (x.was_free p (omega arith) (omega arith))) in
        let last =
          (s.consistent.cached (p + (n - 1))).1
            (inl (x.was_free (p + (n - 1)) (omega arith) (omega arith))) in
        ((s.tracked p first).0, (s.tracked (p + (n - 1)) last).1, omega arith, s.fits.1);
  }

  -- The pages from the high water mark on.
  grown-IsNew :
      (n : ℕ) → 0 < n → h.high + n < u64_mod → IsNew h snap f f h.high (n - 1) (h.high + n)
  grown-IsNew n pos small = record {
    consistent = s.consistent;
    same_pending = refl;
    booked = λ q a e. inl e;
    frees = λ q free. free;
    cached = λ q e. e;
    unseen = λ r q seen holds inside. absurd (ground (arith, s.bounded r q seen holds));
    not_free = λ q inside free.
        absurd (ground (arith, s.tracked q ((s.consistent.cached q).1 (inl free))));
    not_pending = λ q inside. elim (Bool-cases (contains q f.cache)) [
      | inl old ↦ absurd (ground (arith, s.tracked q old))
      | inr absent ↦ ground (arith, (s.consistent.cached q).1)
    ];
    bounds = (s.fits.0, omega arith, omega arith, small);
  }

-- What the writer with the meta `m` is given.
abbrev pub IsGiven :
    Horizon → Snapshots → Freelist → Meta → ℕ → Freelist × Meta × AllocateResult → Type 0
IsGiven h snap f m n (g, m', r) =
    IsNew h snap f g r.id r.overflow m'.pgid
    × (m' ≡ record m { pgid = m'.pgid })
    × (r.overflow ≡ n - 1)

pub db_allocate-IsGiven :
    (h : Horizon) (snap : Snapshots) (f : Freelist) (page_size data_size n : ℕ) (m : Meta)
    → IsSafe h snap f
    → m.txid ≡ h.last
    → m.pgid ≡ h.high
    → (0 < n) × (n < 2 ^ 32)
    → h.high + n < u64_mod
    → IsGiven h snap f m n (db_allocate page_size data_size f m n)
unfolding db_allocate allocated
db_allocate-IsGiven h snap f page_size data_size n m s writer high (pos, few) small =
    by_result (allocate f m.txid n) (allocate-AllocateResult f m.txid n s.consistent.wf)
      (allocate-IsConsistent f m.txid n s.consistent)
  where
    less : sub_u64 n 1 % 2 ^ 32 ≡ n - 1
    less = ground (arith, sub_u64_lem n 1)

    found :
        (g : Freelist) (p o : ℕ)
        → IsConsistent g
        → IsAllocated f m.txid n p g
        → o ≡ n - 1
        → IsNew h snap f g p o h.high
    found g p o c x e = rw e (found-IsNew h snap f s g n p c pos (rw writer at x))

    grown : (p o top : ℕ) → p ≡ h.high → o ≡ n - 1 → top ≡ h.high + n → IsNew h snap f f p o top
    grown p o top e e' e'' = rw (e, e', e'') (grown-IsNew h snap f s n pos small)

    by_result :
        (r : Freelist × Option ℕ)
        → IsAnswer f m.txid n r
        → IsConsistent r.0
        → IsGiven h snap f m n (allocated page_size data_size m n r)
    by_result (g, some p) (_, x) c = (
      subst (λ top. IsNew h snap f g p (sub_u64 n 1 % 2 ^ 32) top) (sym high)
          (found g p (sub_u64 n 1 % 2 ^ 32) c x less),
      refl,
      less,
    )
    by_result (g, none) (same, _) c = (
      subst (λ g. IsNew h snap f g m.pgid (sub_u64 n 1 % 2 ^ 32) (add_u64 m.pgid n)) (sym same)
          (grown m.pgid (sub_u64 n 1 % 2 ^ 32) (add_u64 m.pgid n) high less
            (ground (arith, add_u64_lem m.pgid n))),
      refl,
      less,
    )
