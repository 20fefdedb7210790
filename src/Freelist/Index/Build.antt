-- ===== src/Freelist/Index/Build.antt =====
-- `init`, `read_ids` and `reload` of src/freelist.rs: the spans built from an ascending list of ids
-- hold exactly these ids.
use bbolt_rs.Prelude.{
  ℕ, ◌+◌, ◌≤◌, ◌<◌, ◌≡◌, refl, ◌↔◌, ◌⊎◌, inl, inr, true, false, ◌&&◌, not, List, [], ◌∷◌, arith,
  ◌==◌, u64_mod, add_u64, add_u64_lem, get, contains, done, Bool-cases,
}
use bbolt_rs.Freelist.{Freelist, add_span, or_default}
use bbolt_rs.Freelist.Spans.{Span, IsFree, IsWf}
use bbolt_rs.Freelist.AddSpan.{IsApart, add_span-IsWf, IsFree-add_span, Span-add_span}
use bbolt_rs.Freelist.Index.{is_sorted, build, init}

-- Ascending ids above `a`, none twice, each with a successor that is a `u64`.
abbrev pub Ascending : ℕ → List ℕ → Type 0
Ascending a [] = Unit {0}
Ascending a (x ∷ xs) = (a < x) × (x + 1 < u64_mod) × Ascending x xs

Ascending-is_sorted : (a : ℕ) (xs : List ℕ) → Ascending a xs → is_sorted xs ≡ true
unfolding is_sorted
Ascending-is_sorted a [] h = refl
Ascending-is_sorted a (x ∷ []) h = refl
Ascending-is_sorted a (x ∷ y ∷ xs) (_, _, h) = ground (arith, h, Ascending-is_sorted x (y ∷ xs) h)

-- All spans end, with a page to spare, before `start`.
abbrev EndBefore : Freelist → ℕ → Type 0
EndBefore f start = (t m : ℕ) → Span f t m → t + m < start

-- The span from `start` to `prev`, and the ids still to come.
abbrev IsComing : ℕ → ℕ → List ℕ → ℕ → Type 0
IsComing start prev ids q = ((start ≤ q) × (q ≤ prev)) ⊎ (contains q ids ≡ true)

module _ (f : Freelist) (start size prev : ℕ) (w : IsWf f) (before : EndBefore f start)
    (pos : 0 < start) (size_pos : 0 < size) (ends : start + size ≡ prev + 1)
    (fits : prev + 1 < u64_mod) where
  apart : IsApart f start size
  apart t m h = inl (before t m h)

  closed_IsWf : IsWf (add_span f start size)
  closed_IsWf = add_span-IsWf f start size w apart size_pos pos (omega (arith, ends))

  closed_IsFree :
      (q : ℕ) → IsFree (add_span f start size) q ↔ (IsFree f q ⊎ ((start ≤ q) × (q < start + size)))
  closed_IsFree = IsFree-add_span f start size w apart size_pos pos (omega (arith, ends))

  closed_before : (id : ℕ) → prev + 1 < id → EndBefore (add_span f start size) id
  closed_before id lt t m h = ground (arith, Span-add_span f start size t, before t m, ends)

module _ (start prev q : ℕ) where
  IsComing-last :
      {A G : Type 0} (size : ℕ)
      → start + size ≡ prev + 1
      → G ↔ (A ⊎ ((start ≤ q) × (q < start + size)))
      → G ↔ (A ⊎ IsComing start prev [] q)
  unfolding contains
  IsComing-last size ends e = (
    λ g. elim (e.0 g) [ inl a ↦ inl a | inr r ↦ inr (inl (omega (arith, r))) ],
    λ c. elim c [
      | inl a ↦ e.1 (inl a)
      | inr (inl r) ↦ e.1 (inr (omega (arith, r)))
      | inr (inr h) ↦ cc
    ],
  )

  IsComing-next :
      {A X : Type 0} (id : ℕ) (ids : List ℕ)
      → id ≡ prev + 1
      → start ≤ prev + 1
      → X ↔ (A ⊎ IsComing start id ids q)
      → X ↔ (A ⊎ IsComing start prev (id ∷ ids) q)
  unfolding contains
  IsComing-next id ids e le x = (
    λ h. elim (x.0 h) [ inl a ↦ inl a | inr c ↦ inr (ground (arith, c)) ],
    λ c. elim c [ inl a ↦ x.1 (inl a) | inr c' ↦ x.1 (inr (ground (arith, c'))) ],
  )

  IsComing-jump :
      {A G X : Type 0} (size id : ℕ) (ids : List ℕ)
      → start + size ≡ prev + 1
      → G ↔ (A ⊎ ((start ≤ q) × (q < start + size)))
      → X ↔ (G ⊎ IsComing id id ids q)
      → X ↔ (A ⊎ IsComing start prev (id ∷ ids) q)
  unfolding contains
  IsComing-jump {A} {G} {X} size id ids ends g x = (there, back)
    where
      there : X → A ⊎ IsComing start prev (id ∷ ids) q
      there h = elim (x.0 h) [
        | inl y ↦ elim (g.0 y) [ inl a ↦ inl a | inr r ↦ inr (inl (omega (arith, r))) ]
        | inr c ↦ inr (inr (ground (arith, c)))
      ]

      back : A ⊎ IsComing start prev (id ∷ ids) q → X
      back (inl a) = x.1 (inl (g.1 (inl a)))
      back (inr (inl r)) = x.1 (inl (g.1 (inr (omega (arith, r)))))
      back (inr (inr h)) = x.1 (inr (ground (arith, h)))

module _ (f : Freelist) (start size prev : ℕ) where
  pub build-nil : 0 < size → 0 < start → build f start size prev [] ≡ add_span f start size
  unfolding build
  build-nil h k = let e : (not (size == 0) && not (start == 0)) ≡ true = ground arith in rw e

  pub build-next :
      (id : ℕ) (ids : List ℕ)
      → id == add_u64 prev 1 ≡ true
      → build f start size prev (id ∷ ids) ≡ build f start (add_u64 size 1) id ids
  unfolding build
  build-next id ids e = rw e

  pub build-jump :
      (id : ℕ) (ids : List ℕ)
      → id == add_u64 prev 1 ≡ false
      → build f start size prev (id ∷ ids) ≡ build (add_span f start size) id 1 id ids
  unfolding build
  build-jump id ids e = rw e

build_lem :
    (f : Freelist) (start size prev : ℕ) (ids : List ℕ)
    → IsWf f
    → EndBefore f start
    → 0 < start
    → 0 < size
    → start + size ≡ prev + 1
    → prev + 1 < u64_mod
    → Ascending prev ids
    → let g = build f start size prev ids in
      IsWf g × ((q : ℕ) → IsFree g q ↔ (IsFree f q ⊎ IsComing start prev ids q))
build_lem f start size prev [] w before pos size_pos ends fits up =
    rw (build-nil f start size prev size_pos pos) (
      closed_IsWf f start size prev w before pos size_pos ends fits,
      λ q.
          IsComing-last start prev q size ends
            (closed_IsFree f start size prev w before pos size_pos ends fits q),
    )
build_lem f start size prev (id ∷ ids) w before pos size_pos ends fits (lt, fits', up) =
    elim (Bool-cases (id == add_u64 prev 1)) [
      | inl next ↦
          let e : id ≡ prev + 1 = ground (arith, add_u64_lem prev 1 fits) in
          let s : add_u64 size 1 ≡ size + 1 = add_u64_lem size 1 (omega arith) in
          let (w', all) =
            build_lem f start (add_u64 size 1) id ids w before pos (omega (arith, s))
              (omega (arith, s, e)) fits' up in
          rw (build-next f start size prev id ids next)
            (w', λ q. IsComing-next start prev q id ids e (omega (arith, ends)) (all q))
      | inr jump ↦
          let far : prev + 1 < id = ground (arith, add_u64_lem prev 1 fits) in
          let (w', all) =
            build_lem (add_span f start size) id 1 id ids
              (closed_IsWf f start size prev w before pos size_pos ends fits)
              (closed_before f start size prev w before pos size_pos ends fits id far)
              (omega (arith, far)) (omega arith) refl fits' up in
          rw (build-jump f start size prev id ids jump) (
            w',
            λ q.
                IsComing-jump start prev q size id ids ends
                  (closed_IsFree f start size prev w before pos size_pos ends fits q) (all q),
          )
    ]

abbrev no_spans : Freelist → Freelist
no_spans f = record f { free_maps = []; forward_map = []; backward_map = [] }

none_free : (f : Freelist) (t m : ℕ) → ¬ Span (no_spans f) t m
unfolding get
none_free f t m h = absurd (ground (arith, h))

no_spans-IsWf : (f : Freelist) → IsWf (no_spans f)
unfolding get or_default contains
no_spans-IsWf f = record {
  bounds = λ s n h. absurd (ground (arith, h));
  apart = λ s n t m h k lt. absurd (ground (arith, h));
  ends = λ s n h. cc;
  starts = λ e n h. absurd (ground (arith, h));
  sized = λ s n h. cc;
  spanned = λ s n h. cc;
  keys = tt;
  size_keys = tt;
}

-- From ascending page ids above 0 (and below the greatest `u64`), `init` builds well-formed spans
-- that hold exactly these pages, whatever the spans were before. From no ids it keeps the freelist
-- as it was.
pub init_lem :
    (f : Freelist) (id : ℕ) (ids : List ℕ)
    → Ascending 0 (id ∷ ids)
    → (g : Freelist) × (init f (id ∷ ids) ≡ done g)
      × IsWf g
      × ((q : ℕ) → IsFree g q ↔ (contains q (id ∷ ids) ≡ true))
      × (init f [] ≡ done f)
unfolding init contains
init_lem f id ids up =
    let (w, all) =
      build_lem (no_spans f) id 1 id ids (no_spans-IsWf f) (λ t m h. absurd (none_free f t m h))
        up.0 (omega arith) refl up.1 up.2 in
    (
      build (no_spans f) id 1 id ids,
      rw (Ascending-is_sorted 0 (id ∷ ids) up) refl,
      w,
      λ q. (
        λ h. elim ((all q).0 h) [
          | inl (t, m, e, lo, hi) ↦ absurd (none_free f t m e)
          | inr c ↦ ground (arith, c)
        ],
        λ h. (all q).1 (inr (ground (arith, h))),
      ),
      refl,
    )
