-- ===== src/Freelist/AddSpan.antt =====
-- `add_span` of src/freelist.rs, for a span that touches no other.
use bbolt_rs.Prelude.{
  ℕ, ◌+◌, ◌-◌, ◌≤◌, ◌<◌, ◌≡◌, ◌≢◌, ◌↔◌, ◌⊎◌, inl, inr, Bool-cases, ltb, leb, true, some, arith,
  ◌==◌, u64_mod, add_u64, sub_u64, add_u64_lem, sub_u64_lem, get, get-insert, insert-DistinctKeys,
  if◌then◌else◌,
}
use bbolt_rs.Freelist.{Freelist, del_span, add_entry, add_span}
use bbolt_rs.Freelist.Spans.{Span, IsFree, IsWf, in_size_set, in_size_set-add_entry, Span-del_span}

-- No span of the list overlaps the pages `s .. s + n` or touches them.
abbrev pub IsApart : Freelist → ℕ → ℕ → Type 0
IsApart f s n = (t m : ℕ) → Span f t m → (t + m < s) ⊎ (s + n < t)

pub Span-add_span :
    (f : Freelist) (s n t : ℕ)
    → get t (add_span f s n).forward_map ≡ (if s == t then some n else get t f.forward_map)
unfolding add_span
Span-add_span f s n t = get-insert s t n f.forward_map

module _ (f : Freelist) (s n : ℕ) (w : IsWf f) (fresh : IsApart f s n) (n_pos : 0 < n)
    (s_pos : 0 < s) (fits : s + n < u64_mod) where
  last_page : add_u64 (sub_u64 s 1) n ≡ s + n - 1
  last_page =
      rw (sub_u64_lem s 1 (omega arith) (omega arith))
        (rw (add_u64_lem (s - 1) n (omega arith)) (omega arith))

  Span-cases : (t m : ℕ) → Span (add_span f s n) t m → ((t ≡ s) × (m ≡ n)) ⊎ Span f t m
  Span-cases t m h = ground (arith, Span-add_span f s n t)

  -- Adding a span that touches no other keeps the maps in step.
  pub add_span-IsWf : IsWf (add_span f s n)
  unfolding add_span add_entry
  add_span-IsWf = record {
    bounds = λ t m h. ground (arith, Span-cases t m h, w.bounds t m);
    apart = λ t m t' m' h h' lt.
        ground
          (arith, Span-cases t m h, Span-cases t' m' h', w.apart t m t' m', fresh t m, fresh t' m');
    ends = λ t m h. ground (
      arith,
      last_page,
      Span-cases t m h,
      w.bounds t m,
      fresh t m,
      w.ends t m,
      get-insert (s + n - 1) (t + m - 1) n f.backward_map,
    );
    starts = λ e m h. starts e m h;
    sized = λ t m h.
        ground (arith, Span-cases t m h, w.sized t m, in_size_set-add_entry s n t m f.free_maps);
    spanned = λ t m h. spanned t m h;
    keys = insert-DistinctKeys s n f.forward_map w.keys;
    size_keys = insert-DistinctKeys n _ f.free_maps w.size_keys;
  }
    where
      starts :
          (e m : ℕ)
          → get e (add_span f s n).backward_map ≡ some m
          → (m ≤ e) × Span (add_span f s n) (e + 1 - m) m
      starts e m h = elim (Bool-cases (s + n - 1 == e)) [
        | inl here ↦ ground (
          arith,
          last_page,
          get-insert (s + n - 1) e n f.backward_map,
          Span-add_span f s n (e + 1 - m),
        )
        | inr there ↦ ground (
          arith,
          last_page,
          get-insert (s + n - 1) e n f.backward_map,
          w.starts e m,
          fresh (e + 1 - m) m,
          Span-add_span f s n (e + 1 - m),
        )
      ]

      spanned :
          (t m : ℕ) → in_size_set t m (add_span f s n).free_maps ≡ true → Span (add_span f s n) t m
      spanned t m h = ground (
        arith,
        in_size_set-add_entry s n t m f.free_maps,
        w.spanned t m,
        fresh t m,
        Span-add_span f s n t,
      )

  -- The span's pages are free afterwards, and no other page's state changes.
  pub IsFree-add_span : (p : ℕ) → IsFree (add_span f s n) p ↔ (IsFree f p ⊎ ((s ≤ p) × (p < s + n)))
  IsFree-add_span p = (there, back)
    where
      there : IsFree (add_span f s n) p → IsFree f p ⊎ ((s ≤ p) × (p < s + n))
      there (t, m, h, lo, hi) = elim (Span-cases t m h) [
        | inl (a, b) ↦ inr (omega arith)
        | inr old ↦ inl (t, m, old, lo, hi)
      ]

      back : IsFree f p ⊎ ((s ≤ p) × (p < s + n)) → IsFree (add_span f s n) p
      back (inl (t, m, h, lo, hi)) =
          (t, m, ground (arith, Span-add_span f s n t, fresh t m h, w.bounds t m h), lo, hi)
      back (inr (lo, hi)) = (s, n, ground (arith, Span-add_span f s n s), lo, hi)

pub in_range : (s n p : ℕ) → ((s ≤ p) × (p < s + n)) ⊎ (¬ ((s ≤ p) × (p < s + n)))
in_range s n p = elim (Bool-cases (leb s p)) [
  | inl le ↦ elim (Bool-cases (ltb p (s + n))) [
    | inl lt ↦ inl (ground arith, ground arith)
    | inr ge ↦ inr (λ h. absurd (ground (arith, h)))
  ]
  | inr gt ↦ inr (λ h. absurd (ground (arith, h)))
]

module _ (f : Freelist) (s n : ℕ) (w : IsWf f) (sp : Span f s n) where
  pub Span-del_span_old : (t m : ℕ) → Span (del_span f s n) t m → Span f t m × (s ≢ t)
  Span-del_span_old t m h = ground (arith, Span-del_span f s n t)

  -- The other spans are apart from the one that was taken out.
  pub del_span-IsApart : IsApart (del_span f s n) s n
  del_span-IsApart t m h =
      let (old, ne) = Span-del_span_old t m h in
      ground (arith, ne, w.apart s n t m sp old, w.apart t m s n old sp)

  pub IsFree-del_span :
      (p : ℕ) → IsFree (del_span f s n) p ↔ (IsFree f p × ¬ ((s ≤ p) × (p < s + n)))
  IsFree-del_span p = (there, back)
    where
      there : IsFree (del_span f s n) p → IsFree f p × ¬ ((s ≤ p) × (p < s + n))
      there (t, m, h, lo, hi) = (
        (t, m, (Span-del_span_old t m h).0, lo, hi),
        λ r. absurd (ground (arith, r, del_span-IsApart t m h)),
      )

      back : IsFree f p × ¬ ((s ≤ p) × (p < s + n)) → IsFree (del_span f s n) p
      back ((t, m, h, lo, hi), out) = (t, m, ground (arith, Span-del_span f s n t, out), lo, hi)

  -- A page that was free still is, or lies in the span that was taken out; and the other way.
  pub IsFree-del_span_cases :
      (p : ℕ) → IsFree f p ↔ (IsFree (del_span f s n) p ⊎ ((s ≤ p) × (p < s + n)))
  IsFree-del_span_cases p = (there, back)
    where
      there : IsFree f p → IsFree (del_span f s n) p ⊎ ((s ≤ p) × (p < s + n))
      there h = elim (in_range s n p) [
        | inl inside ↦ inr inside
        | inr outside ↦ inl ((IsFree-del_span p).1 (h, outside))
      ]

      back : IsFree (del_span f s n) p ⊎ ((s ≤ p) × (p < s + n)) → IsFree f p
      back (inl h) = ((IsFree-del_span p).0 h).0
      back (inr (lo, hi)) = (s, n, sp, lo, hi)
