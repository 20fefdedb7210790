-- ===== src/Freelist/Spans.antt =====
-- The three maps of spans in src/freelist.rs describe one set of spans: `del_span` and `add_span`
-- keep them in step.
use bbolt_rs.Prelude.{
  ℕ, ◌+◌, ◌-◌, ◌≤◌, ◌<◌, ◌≡◌, ◌≢◌, inl, inr, Bool, true, false, none, some, List, [], ◌∷◌, arith,
  ◌==◌, if◌then◌else◌, u64_mod, add_u64, sub_u64, add_u64_lem, sub_u64_lem, Map, get, remove,
  get-remove, get-insert, DistinctKeys, remove-DistinctKeys, insert-DistinctKeys, contains, delete,
  contains-delete, Option-cases,
}
use bbolt_rs.Freelist.{
  Freelist, TxPending, set_insert, or_default, shrink_entry, del_entry, del_span, add_entry,
}

-- A span of `n` free pages begins at page `s`.
abbrev pub Span : Freelist → ℕ → ℕ → Type 0
Span f s n = get s f.forward_map ≡ some n

-- The page lies in a free span.
abbrev pub IsFree : Freelist → ℕ → Type 0
IsFree f p = (s : ℕ) × (n : ℕ) × Span f s n × (s ≤ p) × (p < s + n)

-- Whether the span set of size `n` has the page.
abbrev pub in_size_set : ℕ → ℕ → Map (List ℕ) → Bool
in_size_set s n m = contains s (or_default (get n m))

-- What the three maps promise: spans are not empty, lie between page 1 and the end of the ids, and
-- any two have a page between them; the backward map and the sets by size list the same spans.
pub record IsWf (f : Freelist) : Type 0 where
  pub bounds : (s n : ℕ) → Span f s n → (0 < n) × (0 < s) × (s + n < u64_mod)
  pub apart : (s n t m : ℕ) → Span f s n → Span f t m → s < t → s + n < t
  pub ends : (s n : ℕ) → Span f s n → get (s + n - 1) f.backward_map ≡ some n
  pub starts : (e n : ℕ) → get e f.backward_map ≡ some n → (n ≤ e) × Span f (e + 1 - n) n
  pub sized : (s n : ℕ) → Span f s n → in_size_set s n f.free_maps ≡ true
  pub spanned : (s n : ℕ) → in_size_set s n f.free_maps ≡ true → Span f s n
  pub keys : DistinctKeys f.forward_map
  pub size_keys : DistinctKeys f.free_maps

set_of-shrink_entry :
    (n m : ℕ) (xs : List ℕ) (e : Map (List ℕ))
    → or_default (get m (shrink_entry n xs e)) ≡ (if n == m then xs else or_default (get m e))
unfolding shrink_entry or_default
set_of-shrink_entry n m [] e = ground (arith, get-remove n m e)
set_of-shrink_entry n m (x ∷ xs) e = ground (arith, get-insert n m (x ∷ xs) e)

in_size_set-del_entry :
    (s n t m : ℕ) (e : Map (List ℕ))
    → in_size_set t m (del_entry s n e)
      ≡ (if n == m then (if s == t then false else in_size_set t m e) else in_size_set t m e)
unfolding del_entry or_default contains
in_size_set-del_entry s n t m e = elim (Option-cases (get n e)) [
  | inl none_here ↦ rw (none_here, del_entry) (ground arith)
  | inr (pids, here) ↦
      rw (here, del_entry)
        (ground (arith, set_of-shrink_entry n m (delete s pids) e, contains-delete s t pids))
]

pub in_size_set-add_entry :
    (s n t m : ℕ) (e : Map (List ℕ))
    → in_size_set t m (add_entry s n e)
      ≡ (if n == m then (if s == t then true else in_size_set t m e) else in_size_set t m e)
unfolding add_entry set_insert or_default contains
in_size_set-add_entry s n t m e =
    ground (arith, get-insert n m (set_insert s (or_default (get n e))) e)

shrink_entry-DistinctKeys :
    (n : ℕ) (xs : List ℕ) (e : Map (List ℕ)) → DistinctKeys e → DistinctKeys (shrink_entry n xs e)
unfolding shrink_entry
shrink_entry-DistinctKeys n [] e d = remove-DistinctKeys n e d
shrink_entry-DistinctKeys n (x ∷ xs) e d = insert-DistinctKeys n (x ∷ xs) e d

del_entry-DistinctKeys :
    (s n : ℕ) (e : Map (List ℕ)) → DistinctKeys e → DistinctKeys (del_entry s n e)
unfolding del_entry
del_entry-DistinctKeys s n e d = elim (Option-cases (get n e)) [
  | inl none_here ↦ rw (none_here, del_entry) d
  | inr (pids, here) ↦ rw (here, del_entry) (shrink_entry-DistinctKeys n (delete s pids) e d)
]

pub Span-del_span :
    (f : Freelist) (s n t : ℕ)
    → get t (del_span f s n).forward_map ≡ (if s == t then none else get t f.forward_map)
unfolding del_span
Span-del_span f s n t = get-remove s t f.forward_map

module _ (f : Freelist) (s n : ℕ) (w : IsWf f) (sp : Span f s n) where
  last_page : add_u64 s (sub_u64 n 1) ≡ s + n - 1
  last_page =
      let b = w.bounds s n sp in
      rw (sub_u64_lem n 1 (omega arith) (omega arith))
        (rw (add_u64_lem s (n - 1) (omega arith)) (omega arith))

  -- Taking out a span that is there keeps the maps in step.
  pub del_span-IsWf : IsWf (del_span f s n)
  unfolding del_span
  del_span-IsWf = record {
    bounds = λ t m h. w.bounds t m (kept t m h);
    apart = λ t m t' m' h h'. w.apart t m t' m' (kept t m h) (kept t' m' h');
    ends = ends;
    starts = starts;
    sized = sized;
    spanned = spanned;
    keys = remove-DistinctKeys s f.forward_map w.keys;
    size_keys = del_entry-DistinctKeys s n f.free_maps w.size_keys;
  }
    where
      kept : (t m : ℕ) → get t (remove s f.forward_map) ≡ some m → Span f t m
      kept t m h = ground (arith, get-remove s t f.forward_map)

      other : (t m : ℕ) → get t (remove s f.forward_map) ≡ some m → s ≢ t
      other t m h = ground (arith, get-remove s t f.forward_map)

      ends :
          (t m : ℕ)
          → get t (remove s f.forward_map) ≡ some m
          → get (t + m - 1) (del_span f s n).backward_map ≡ some m
      ends t m h = ground (
        arith,
        kept t m h,
        other t m h,
        last_page,
        w.bounds s n sp,
        w.bounds t m (kept t m h),
        w.apart s n t m sp (kept t m h),
        w.apart t m s n (kept t m h) sp,
        w.ends t m (kept t m h),
        get-remove (s + n - 1) (t + m - 1) f.backward_map,
      )

      starts :
          (e m : ℕ)
          → get e (del_span f s n).backward_map ≡ some m
          → (m ≤ e) × Span (del_span f s n) (e + 1 - m) m
      starts e m h = ground (
        arith,
        last_page,
        get-remove (s + n - 1) e f.backward_map,
        w.starts e m,
        get-remove s (e + 1 - m) f.forward_map,
        w.bounds s n sp,
      )

      sized :
          (t m : ℕ)
          → get t (remove s f.forward_map) ≡ some m
          → in_size_set t m (del_span f s n).free_maps ≡ true
      sized t m h =
          ground (
            arith,
            other t m h,
            w.sized t m (kept t m h),
            in_size_set-del_entry s n t m f.free_maps,
          )

      spanned :
          (t m : ℕ) → in_size_set t m (del_span f s n).free_maps ≡ true → Span (del_span f s n) t m
      spanned t m h = ground (
        arith,
        w.spanned t m,
        in_size_set-del_entry s n t m f.free_maps,
        get-remove s t f.forward_map,
      )

-- The three maps of spans are all that the invariant speaks of.
pub IsWf-same_spans :
    (f : Freelist) (allocs : Map ℕ) (pending : Map TxPending) (cache : List ℕ)
    → IsWf f
    → IsWf (record f { allocs = allocs; pending = pending; cache = cache })
IsWf-same_spans f allocs pending cache w = record {
  bounds = w.bounds;
  apart = w.apart;
  ends = w.ends;
  starts = w.starts;
  sized = w.sized;
  spanned = w.spanned;
  keys = w.keys;
  size_keys = w.size_keys;
}
