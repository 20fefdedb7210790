-- ===== src/Freelist/Booking.antt =====
-- `allocate` of src/freelist.rs on the whole freelist: the cache follows the free pages.
use bbolt_rs.Prelude.{
  ℕ, ◌+◌, ◌<◌, ◌≡◌, ◌↔◌, ◌⊎◌, inl, inr, true, ◌&&◌, Option, none, some, arith, ltb, leb, contains,
  Bool-cases,
}
use bbolt_rs.Freelist.{Freelist, allocate}
use bbolt_rs.Freelist.Spans.{IsFree}
use bbolt_rs.Freelist.Allocate.{IsAllocated, AllocateResult, allocate-AllocateResult}
use bbolt_rs.Freelist.Consistent.{IsConsistent, times_pending}

module _ (f : Freelist) (txid n p : ℕ) (g : Freelist) (c : IsConsistent f)
    (r : IsAllocated f txid n p g) where
  booked_cached : (q : ℕ) → (contains q g.cache ≡ true) ↔ (IsFree g q ⊎ (0 < times_pending f q))
  booked_cached q = (there, back)
    where
      there : contains q g.cache ≡ true → IsFree g q ⊎ (0 < times_pending f q)
      there h = elim ((c.cached q).0 (ground (arith, r.uncached q))) [
        | inl free ↦ inl ((r.frees q).1 (free, λ x. absurd (ground (arith, x, h, r.uncached q))))
        | inr pend ↦ inr pend
      ]

      back : IsFree g q ⊎ (0 < times_pending f q) → contains q g.cache ≡ true
      back (inl free) =
          let (was, out) = (r.frees q).0 free in
          ground (arith, out, (c.cached q).1 (inl was), r.uncached q)
      back (inr pend) = elim (Bool-cases (leb p q && ltb q (p + n))) [
        | inl inside ↦
            absurd
              (ground (arith, c.exclusive q (r.was_free q (ground arith) (ground arith)), pend))
        | inr outside ↦ ground (arith, (c.cached q).1 (inr pend), r.uncached q)
      ]

  booked-IsConsistent : IsConsistent g
  booked-IsConsistent = record {
    wf = r.wf;
    pending_keys = rw r.same_pending c.pending_keys;
    paired = rw r.same_pending c.paired;
    cached = λ q. rw r.same_pending (booked_cached q);
    exclusive = λ q h. rw r.same_pending (c.exclusive q ((r.frees q).0 h).0);
    once = λ q. rw r.same_pending (c.once q);
    proper = λ q h. c.proper q (rw r.same_pending at h);
  }

-- `allocate` keeps the freelist consistent, whether it finds a run or not.
pub allocate-IsConsistent :
    (f : Freelist) (txid n : ℕ) → IsConsistent f → IsConsistent (allocate f txid n).0
allocate-IsConsistent f txid n c =
    by_result (allocate f txid n) (allocate-AllocateResult f txid n c.wf)
  where
    by_result : (r : Freelist × Option ℕ) → AllocateResult f txid n r → IsConsistent r.0
    by_result (g, none) (same, _) = rw same c
    by_result (g, some p) (_, r) = booked-IsConsistent f txid n p g c r
