-- ===== src/Freelist/Allocate.antt =====
-- `allocate` of src/freelist.rs: a run of free pages is found whenever one is long enough, and
-- nothing but its pages changes.
use bbolt_rs.Prelude.{
  ℕ, zero, suc, ◌+◌, ◌-◌, ◌≤◌, ◌<◌, ◌≡◌, refl, ◌↔◌, ◌⊎◌, inl, inr, true, false, ◌&&◌, Option, none,
  some, List, [], ◌∷◌, arith, ltb, leb, ◌==◌, if◌then◌else◌, u64_mod, add_u64, sub_u64, add_u64_lem,
  sub_u64_lem, Map, get, get-insert, DistinctKeys, contains, delete, contains-delete, Bool-cases,
}
use bbolt_rs.Freelist.{
  Freelist, or_default, del_span, add_span, pages_from, delete_all, first, spans_of_at_least,
  take_exact, take_larger, allocate_larger, allocate_from, allocate,
}
use bbolt_rs.Freelist.Spans.{Span, IsFree, IsWf, in_size_set, del_span-IsWf, IsWf-same_spans}
use bbolt_rs.Freelist.AddSpan.{
  IsApart, add_span-IsWf, IsFree-add_span, del_span-IsApart, IsFree-del_span, IsFree-del_span_cases,
}

-- The pages of the loop `for i in 0..n`.
pub contains-pages_from :
    (q start i n : ℕ)
    → start + i + n < u64_mod
    → contains q (pages_from start i n) ≡ (leb (start + i) q && ltb q (start + i + n))
unfolding contains pages_from
contains-pages_from q start i zero h = ground arith
contains-pages_from q start i (suc n) h =
    ground (arith, add_u64_lem start i, contains-pages_from q start (suc i) n (omega arith))

pub contains-delete_all :
    (q : ℕ) (ps cache : List ℕ)
    → contains q (delete_all ps cache) ≡ (if contains q ps then false else contains q cache)
unfolding contains delete_all
contains-delete_all q [] cache = refl
contains-delete_all q (p ∷ ps) cache =
    ground (arith, contains-delete_all q ps (delete p cache), contains-delete p q cache)

contains-first : (xs : List ℕ) (p : ℕ) → first xs ≡ some p → contains p xs ≡ true
unfolding first contains
contains-first [] p e = cc
contains-first (x ∷ xs) p e = ground arith

contains-first-none : (xs : List ℕ) (p : ℕ) → first xs ≡ none → contains p xs ≡ false
unfolding first contains
contains-first-none [] p e = refl
contains-first-none (x ∷ xs) p e = cc

-- What the search for a larger span finds is an entry of the map, of a sufficient size.
spans_of_at_least_sound :
    (n size p : ℕ) (m : Map (List ℕ))
    → DistinctKeys m
    → first (spans_of_at_least n m) ≡ some (size, p)
    → (n ≤ size) × (in_size_set p size m ≡ true)
unfolding spans_of_at_least first get or_default contains
spans_of_at_least_sound n size p [] d e = cc
spans_of_at_least_sound n size p ((k, []) ∷ m) d e =
    ground (arith, spans_of_at_least_sound n size p m d.1)
spans_of_at_least_sound n size p ((k, x ∷ xs) ∷ m) d e =
    ground (arith, spans_of_at_least_sound n size p m d.1)

spans_of_at_least_complete :
    (n size p : ℕ) (m : Map (List ℕ))
    → first (spans_of_at_least n m) ≡ none
    → in_size_set p size m ≡ true
    → size < n
unfolding spans_of_at_least first get or_default contains
spans_of_at_least_complete n size p [] e h = cc
spans_of_at_least_complete n size p ((k, []) ∷ m) e h =
    ground (arith, spans_of_at_least_complete n size p m)
spans_of_at_least_complete n size p ((k, x ∷ xs) ∷ m) e h =
    ground (arith, spans_of_at_least_complete n size p m)

-- What a successful call promises: the run was free and is free no longer, no other page's state
-- changes, and the run is booked for the transaction.
pub record IsAllocated (f : Freelist) (txid n p : ℕ) (g : Freelist) : Type 0 where
  pub wf : IsWf g
  pub was_free : (q : ℕ) → p ≤ q → q < p + n → IsFree f q
  pub frees : (q : ℕ) → IsFree g q ↔ (IsFree f q × ¬ ((p ≤ q) × (q < p + n)))
  pub booked : (q : ℕ) → get q g.allocs ≡ (if p == q then some txid else get q f.allocs)
  pub uncached :
      (q : ℕ)
      → contains q g.cache ≡ (if leb p q && ltb q (p + n) then false else contains q f.cache)
  pub same_pending : g.pending ≡ f.pending

-- What a call promises for each result.
abbrev pub AllocateResult : Freelist → ℕ → ℕ → Freelist × Option ℕ → Type 0
AllocateResult f txid n (g, some p) = (0 < n) × IsAllocated f txid n p g
AllocateResult f txid n (g, none) = (g ≡ f) × (0 < n → (s m : ℕ) → Span f s m → m < n)

module _ (f : Freelist) (txid n p : ℕ) (w : IsWf f) where
  take_exact-IsAllocated : Span f p n → IsAllocated f txid n p (take_exact f txid n p)
  unfolding take_exact
  take_exact-IsAllocated h = record {
    wf = IsWf-same_spans (del_span f p n) _ _ _ (del_span-IsWf f p n w h);
    was_free = λ q lo hi. (p, n, h, lo, hi);
    frees = IsFree-del_span f p n w h;
    booked = λ q. get-insert p q txid f.allocs;
    uncached = λ q. ground (
      arith,
      contains-delete_all q (pages_from p 0 n) f.cache,
      contains-pages_from q p 0 n,
      w.bounds p n h,
    );
    same_pending = refl;
  }

  module _ (size : ℕ) (h : Span f p size) (pos : 0 < n) (more : n < size) where
    rest_IsApart : IsApart (del_span f p size) (p + n) (size - n)
    rest_IsApart t m x = ground (arith, del_span-IsApart f p size w h t m x)

    rest_start : add_u64 p n ≡ p + n
    rest_start = ground (arith, add_u64_lem p n, w.bounds p size h)

    rest_size : sub_u64 size n ≡ size - n
    rest_size = ground (arith, sub_u64_lem size n, w.bounds p size h)

    rest_bounds : (0 < size - n) × (0 < p + n) × (p + n + (size - n) < u64_mod)
    rest_bounds = ground (arith, w.bounds p size h)

    rest_IsWf : IsWf (add_span (del_span f p size) (add_u64 p n) (sub_u64 size n))
    rest_IsWf =
        rw (rest_start, rest_size)
          (add_span-IsWf (del_span f p size) (p + n) (size - n) (del_span-IsWf f p size w h)
            rest_IsApart rest_bounds.0 rest_bounds.1 rest_bounds.2)

    rest_grown :
        (q : ℕ)
        → IsFree (add_span (del_span f p size) (p + n) (size - n)) q
          ↔ (IsFree (del_span f p size) q ⊎ ((p + n ≤ q) × (q < p + n + (size - n))))
    rest_grown =
        IsFree-add_span (del_span f p size) (p + n) (size - n) (del_span-IsWf f p size w h)
          rest_IsApart rest_bounds.0 rest_bounds.1 rest_bounds.2

    rest_frees :
        (q : ℕ)
        → IsFree (add_span (del_span f p size) (add_u64 p n) (sub_u64 size n)) q
          ↔ (IsFree f q × ¬ ((p ≤ q) × (q < p + n)))
    rest_frees q = rw (rest_start, rest_size) (there, back)
      where
        there :
            IsFree (add_span (del_span f p size) (p + n) (size - n)) q
            → IsFree f q × ¬ ((p ≤ q) × (q < p + n))
        there x = elim ((rest_grown q).0 x) [
          | inl old ↦
              let (was, out) = (IsFree-del_span f p size w h q).0 old in
              (was, λ r. out (omega (arith, r)))
          | inr (lo, hi) ↦ ((p, size, h, omega arith, omega arith), λ r. absurd (omega (arith, r)))
        ]

        back :
            IsFree f q × ¬ ((p ≤ q) × (q < p + n))
            → IsFree (add_span (del_span f p size) (p + n) (size - n)) q
        back (was, out) = (rest_grown q).1 (elim ((IsFree-del_span_cases f p size w h q).0 was) [
          | inl other ↦ inl other
          | inr (lo, hi) ↦ inr (ground (arith, out))
        ])

    take_larger-IsAllocated : IsAllocated f txid n p (take_larger f txid n size p)
    unfolding take_larger
    take_larger-IsAllocated = record {
      wf =
          IsWf-same_spans (add_span (del_span f p size) (add_u64 p n) (sub_u64 size n)) _ _ _
            rest_IsWf;
      was_free = λ q lo hi. (p, size, h, lo, omega arith);
      frees = rest_frees;
      booked = λ q. get-insert p q txid f.allocs;
      uncached = λ q. ground (
        arith,
        contains-delete_all q (pages_from p 0 n) f.cache,
        contains-pages_from q p 0 n,
        w.bounds p size h,
      );
      same_pending = refl;
    }

module _ (f : Freelist) (txid n : ℕ) (w : IsWf f) where
  -- On well-formed spans, a call either hands out a free run of exactly `n` pages, keeps the spans
  -- well-formed, takes no other page from the free ones and books the run for the transaction, or
  -- it changes nothing, and then no free span has `n` pages unless `n` is 0.
  pub allocate-AllocateResult : AllocateResult f txid n (allocate f txid n)
  unfolding allocate
  allocate-AllocateResult = elim (Bool-cases (n == 0)) [
    | inl zero_pages ↦ rw zero_pages (refl, λ pos. absurd (ground arith))
    | inr some_pages ↦ rw some_pages (from _ refl (ground arith))
  ]
    where
      larger :
          (o : Option (ℕ × ℕ))
          → first (spans_of_at_least n f.free_maps) ≡ o
          → 0 < n
          → (first (or_default (get n f.free_maps)) ≡ none)
          → AllocateResult f txid n (allocate_larger f txid n o)
      larger none e pos e' =
          (refl, λ _ s m h. spans_of_at_least_complete n m s f.free_maps e (w.sized s m h))
      larger (some (size, p)) e pos e' =
          let (enough, here) = spans_of_at_least_sound n size p f.free_maps w.size_keys e in
          (
            pos,
            take_larger-IsAllocated f txid n p w size (w.spanned p size here) pos
                (ground (arith, enough, here, contains-first-none _ p e')),
          )

      from :
          (o : Option ℕ)
          → first (or_default (get n f.free_maps)) ≡ o
          → 0 < n
          → AllocateResult f txid n (allocate_from f txid n o)
      from (some p) e pos =
          (pos, take_exact-IsAllocated f txid n p w (w.spanned p n (contains-first _ p e)))
      from none e pos = larger _ refl pos e
