-- ===== src/Freelist/Index/Listing.antt =====
-- `free_page_ids` of src/freelist.rs lists the free pages, each once and in order, and `free_count`
-- is their number.
use bbolt_rs.Prelude.{
  ap, ◌∙◌, ==_self, contains-count, count-sort, pigeonhole, ℕ, zero, suc, ◌+◌, ◌-◌, ◌≤◌, ◌<◌, ◌≡◌,
  refl, ◌↔◌, inl, inr, true, false, ◌&&◌, some, List, [], ◌∷◌, arith, ltb, leb, if◌then◌else◌,
  length, length-append, u64_mod, add_u64_lem, Map, get, DistinctKeys, contains, contains-append,
  count, count-append, sort, contains-sort, length-sort, sort-IsSorted, IsSorted, Bool-cases,
}
use bbolt_rs.Freelist.{Freelist, pages_from}
use bbolt_rs.Freelist.Spans.{IsFree, IsWf}
use bbolt_rs.Freelist.Allocate.{contains-pages_from}
use bbolt_rs.Freelist.Pending.Free.{count-pages_from}
use bbolt_rs.Freelist.Index.{sum_values, free_count, span_pages, free_page_ids}

-- A span of the map holds the page.
abbrev InSpan : Map ℕ → ℕ → Type 0
InSpan m p = (s : ℕ) × (n : ℕ) × (get s m ≡ some n) × (s ≤ p) × (p < s + n)

-- What is needed of the map: the invariant's first two parts, which hold of each tail too.
record AreSpans (m : Map ℕ) : Type 0 where
  keys : DistinctKeys m
  bounds : (s n : ℕ) → get s m ≡ some n → (0 < n) × (s + n < u64_mod)
  apart : (s n t k : ℕ) → get s m ≡ some n → get t m ≡ some k → s < t → s + n < t

AreSpans-tail : (s n : ℕ) (m : Map ℕ) → AreSpans ((s, n) ∷ m) → AreSpans m
unfolding get
AreSpans-tail s n m a = record {
  keys = a.keys.1;
  bounds = λ t k h. a.bounds t k (ground (arith, a.keys.0));
  apart = λ t k t' k' h h' lt.
      a.apart t k t' k' (ground (arith, a.keys.0)) (ground (arith, a.keys.0)) lt;
}

span_pages-InSpan : (m : Map ℕ) (p : ℕ) → AreSpans m → contains p (span_pages m) ≡ true → InSpan m p
unfolding span_pages contains get
span_pages-InSpan [] p a h = cc
span_pages-InSpan ((s, n) ∷ m) p a h = elim (Bool-cases (contains p (pages_from s 0 n))) [
  | inl here ↦
      let b = a.bounds s n (ground arith) in
      (
        s,
        n,
        ground arith,
        ground (arith, b, here, contains-pages_from p s 0 n),
        ground (arith, b, here, contains-pages_from p s 0 n),
      )
  | inr there ↦
      let (t, k, e, lo, hi) =
        span_pages-InSpan m p (AreSpans-tail s n m a)
          (ground (arith, contains-append p (pages_from s 0 n) (span_pages m))) in
      (t, k, ground (arith, e, a.keys.0), lo, hi)
]

InSpan-span_pages :
    (m : Map ℕ) (p s n : ℕ)
    → AreSpans m
    → get s m ≡ some n
    → s ≤ p
    → p < s + n
    → contains p (span_pages m) ≡ true
unfolding span_pages contains get
InSpan-span_pages [] p s n a e lo hi = cc
InSpan-span_pages ((t, k) ∷ m) p s n a e lo hi = ground (
  arith,
  a.bounds s n,
  contains-append p (pages_from t 0 k) (span_pages m),
  contains-pages_from p t 0 k,
  InSpan-span_pages m p s n (AreSpans-tail t k m a),
)

-- No page stands twice.
count-span_pages : (m : Map ℕ) (p : ℕ) → AreSpans m → count p (span_pages m) ≤ 1
unfolding span_pages contains get
count-span_pages [] p a = omega arith
count-span_pages ((s, n) ∷ m) p a =
    let b = a.bounds s n (ground (arith, ==_self s)) in
    let here : count p (pages_from s 0 n) ≡ (if leb s p && ltb p (s + n) then 1 else 0) =
      ground (arith, count-pages_from p s 0 n, b) in
    let rest : count p (span_pages m) ≤ 1 = count-span_pages m p (AreSpans-tail s n m a) in
    elim (Bool-cases (contains p (span_pages m))) [
      | inl there ↦
          let (t, k, e, lo, hi) = span_pages-InSpan m p (AreSpans-tail s n m a) there in
          let e' : get t ((s, n) ∷ m) ≡ some k = ground (arith, e, a.keys.0) in
          ground (
            arith,
            here,
            rest,
            lo,
            hi,
            e,
            a.keys.0,
            count-append p (pages_from s 0 n) (span_pages m),
            a.apart s n t k (ground (arith, ==_self s)) e',
            a.apart t k s n e' (ground (arith, ==_self s)),
          )
      | inr nowhere ↦ ground (
        arith,
        here,
        contains-count p (span_pages m),
        count-append p (pages_from s 0 n) (span_pages m),
      )
    ]

length-pages_from : (start i n : ℕ) → length (pages_from start i n) ≡ n
unfolding pages_from
length-pages_from start i zero = refl
length-pages_from start i (suc n) = ap suc (length-pages_from start (suc i) n)

sum_values-length :
    (m : Map ℕ) → length (span_pages m) < u64_mod → sum_values m ≡ length (span_pages m)
unfolding span_pages sum_values
sum_values-length [] h = refl
sum_values-length ((s, n) ∷ m) h =
    let whole = length-append (pages_from s 0 n) (span_pages m) in
    let its = length-pages_from s 0 n in
    rw (sum_values-length m (omega (arith, whole))) (
      add_u64_lem n (length (span_pages m)) (omega (arith, whole, its)) ∙ omega (arith, whole, its))

module _ (f : Freelist) (w : IsWf f) where
  spans : AreSpans f.forward_map
  spans = record {
    keys = w.keys;
    bounds = λ s n h. ground (arith, w.bounds s n h);
    apart = w.apart;
  }

  few_pages : length (span_pages f.forward_map) < u64_mod
  few_pages =
      let few =
        pigeonhole (u64_mod - 1) (span_pages f.forward_map)
          (λ q. count-span_pages f.forward_map q spans) below in
      omega (arith, few)
    where
      below : (q : ℕ) → 0 < count q (span_pages f.forward_map) → q < u64_mod - 1
      below q h =
          let (s, n, e, lo, hi) =
            span_pages-InSpan f.forward_map q spans
              (ground (arith, contains-count q (span_pages f.forward_map))) in
          ground (arith, w.bounds s n e, hi)

  listed : free_page_ids f ≡ sort (span_pages f.forward_map)
  unfolding free_page_ids free_count sort
  listed = elim (Bool-cases (ltb 0 (free_count f))) [
    | inl some_free ↦ rw some_free
    | inr none_free ↦ rw none_free (empty (span_pages f.forward_map) refl none_free)
  ]
    where
      empty :
          (xs : List ℕ)
          → span_pages f.forward_map ≡ xs
          → ltb 0 (free_count f) ≡ false
          → [] ≡ sort xs
      empty [] e z = refl
      empty (x ∷ xs) e z =
          absurd (ground (arith, z, sum_values-length f.forward_map few_pages, ap length e))

  -- On well-formed spans with fewer than `2 ^ 64` free pages in all, the list holds exactly the
  -- free pages, in ascending order and each once, and `free_count` is its length: the sum of the
  -- sizes does not wrap around.
  pub free_page_ids_lem :
      ((q : ℕ) → (contains q (free_page_ids f) ≡ true) ↔ IsFree f q)
      × IsSorted (free_page_ids f)
      × ((q : ℕ) → count q (free_page_ids f) ≤ 1)
      × (free_count f ≡ length (free_page_ids f))
  unfolding free_count
  free_page_ids_lem = rw listed (
    λ q. (
      λ h. span_pages-InSpan f.forward_map q spans (rw contains-sort at h),
      λ (s, n, e, lo, hi). rw contains-sort (InSpan-span_pages f.forward_map q s n spans e lo hi),
    ),
    sort-IsSorted (span_pages f.forward_map),
    λ q. rw count-sort (count-span_pages f.forward_map q spans),
    rw length-sort (sum_values-length f.forward_map few_pages),
  )
