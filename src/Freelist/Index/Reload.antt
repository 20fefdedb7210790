-- ===== src/Freelist/Index/Reload.antt =====
-- `read_ids` and `reload` of src/freelist.rs. `reload` leaves the pages out that are pending, except
-- where every id of the page is.
use bbolt_rs.Prelude.{
  ℕ, ◌+◌, ◌≤◌, ◌<◌, ◌≡◌, refl, ap, subst, ◌∙◌, ◌↔◌, inl, inr, Bool, true, false, ◌&&◌, ◌||◌, not,
  List, [], ◌∷◌, arith, ◌==◌, ==_self, u64_mod, add_u64, contains, contains-count, count,
  Above-count, IsSorted, Above, done, Bool-cases,
}
use bbolt_rs.Freelist.{Freelist, set_insert, add_span}
use bbolt_rs.Freelist.Spans.{IsFree, IsWf, IsWf-same_spans}
use bbolt_rs.Freelist.Consistent.{pending_ids, IsConsistent}
use bbolt_rs.Freelist.Index.{
  build, init, insert_all, free_page_ids, reindex, read_ids, exclude, reload,
}
use bbolt_rs.Freelist.Index.Listing.{free_page_ids_lem}
use bbolt_rs.Freelist.Index.Build.{Ascending, init_lem, build-next, build-jump}

contains-insert_all :
    (q : ℕ) (ps cache : List ℕ)
    → contains q (insert_all ps cache) ≡ (contains q cache || contains q ps)
unfolding insert_all set_insert contains
contains-insert_all q [] cache = ground arith
contains-insert_all q (p ∷ ps) cache = elim (Bool-cases (contains p cache)) [
  | inl old ↦ rw old (ground (arith, contains-insert_all q ps cache))
  | inr new ↦ rw new (ground (arith, contains-insert_all q ps (p ∷ cache)))
]

pending-add_span : (f : Freelist) (start size : ℕ) → (add_span f start size).pending ≡ f.pending
unfolding add_span
pending-add_span f start size = refl

pending-build-nil :
    (f : Freelist) (start size prev : ℕ) → (build f start size prev []).pending ≡ f.pending
unfolding build
pending-build-nil f start size prev = ground (arith, pending-add_span f start size)

pending-build :
    (f : Freelist) (start size prev : ℕ) (ids : List ℕ)
    → (build f start size prev ids).pending ≡ f.pending
pending-build f start size prev [] = pending-build-nil f start size prev
pending-build f start size prev (id ∷ ids) = elim (Bool-cases (id == add_u64 prev 1)) [
  | inl next ↦
      ap (λ g. g.pending) (build-next f start size prev id ids next)
      ∙ pending-build f start (add_u64 size 1) id ids
  | inr jump ↦
      ap (λ g. g.pending) (build-jump f start size prev id ids jump)
      ∙ pending-build (add_span f start size) id 1 id ids
      ∙ pending-add_span f start size
]

pending-init : (f g : Freelist) (ids : List ℕ) → init f ids ≡ done g → g.pending ≡ f.pending
unfolding init
pending-init f g [] e = ground arith
pending-init f g (id ∷ ids) e = ground (
  arith,
  pending-build (record f { free_maps = []; forward_map = []; backward_map = [] }) id 1 id ids,
)

-- What reading gives: well-formed spans of exactly these ids, and a cache of these and the pending
-- pages.
pub record IsRead (f : Freelist) (ids : List ℕ) (g : Freelist) : Type 0 where
  pub wf : IsWf g
  pub frees : (q : ℕ) → IsFree g q ↔ (contains q ids ≡ true)
  pub cached : (q : ℕ) → contains q g.cache ≡ (contains q ids || contains q (pending_ids f.pending))
  pub same_pending : g.pending ≡ f.pending

pub reindex-cached :
    (g : Freelist) (q : ℕ)
    → contains q (reindex g).cache
      ≡ (contains q (free_page_ids g) || contains q (pending_ids g.pending))
unfolding reindex contains
reindex-cached g q = ground (
  arith,
  contains-insert_all q (pending_ids g.pending) (insert_all (free_page_ids g) []),
  contains-insert_all q (free_page_ids g) [],
)

free_page_ids-contains :
    (g : Freelist) (ids : List ℕ) (q : ℕ)
    → IsWf g
    → ((q : ℕ) → IsFree g q ↔ (contains q ids ≡ true))
    → contains q (free_page_ids g) ≡ contains q ids
free_page_ids-contains g ids q w all =
    by_cases (contains q (free_page_ids g)) (contains q ids)
      (λ h. (all q).0 (((free_page_ids_lem g w).0 q).0 h))
      (λ h. ((free_page_ids_lem g w).0 q).1 ((all q).1 h))
  where
    by_cases : (a b : Bool) → (a ≡ true → b ≡ true) → (b ≡ true → a ≡ true) → a ≡ b
    by_cases true b f g = ground (arith, f refl)
    by_cases false true f g = g refl
    by_cases false false f g = refl

reindex-IsWf : (g : Freelist) → IsWf g → IsWf (reindex g)
unfolding reindex
reindex-IsWf g w = IsWf-same_spans g g.allocs g.pending _ w

reindex-frees :
    (g : Freelist) (ids : List ℕ)
    → ((q : ℕ) → IsFree g q ↔ (contains q ids ≡ true))
    → (q : ℕ) → IsFree (reindex g) q ↔ (contains q ids ≡ true)
unfolding reindex
reindex-frees g ids all q = all q

reindex-pending : (g : Freelist) → (reindex g).pending ≡ g.pending
unfolding reindex
reindex-pending g = refl

pub read_ids-IsRead :
    (f : Freelist) (id : ℕ) (ids : List ℕ)
    → Ascending 0 (id ∷ ids)
    → (g : Freelist) × (read_ids f (id ∷ ids) ≡ done g) × IsRead f (id ∷ ids) g
unfolding read_ids
read_ids-IsRead f id ids up =
    let (g, run, w, all, _) = init_lem f id ids up in
    let same = pending-init f g (id ∷ ids) run in
    (
      reindex g,
      rw run,
      record {
        wf = reindex-IsWf g w;
        frees = reindex-frees g (id ∷ ids) all;
        cached = λ q.
            ground (arith, reindex-cached g q, same, free_page_ids-contains g (id ∷ ids) q w all);
        same_pending = reindex-pending g ∙ same;
      },
    )

contains-exclude :
    (q : ℕ) (set ids : List ℕ)
    → contains q (exclude set ids) ≡ (contains q ids && not (contains q set))
unfolding exclude contains
contains-exclude q set [] = refl
contains-exclude q set (id ∷ ids) = elim (Bool-cases (contains id set)) [
  | inl out ↦ rw out (elim (Bool-cases (id == q)) [
    | inl here ↦
        let e : id ≡ q = ground arith in
        let out' : contains q set ≡ true = rw e at out in
        ground (arith, out', contains-exclude q set ids)
    | inr there ↦ ground (arith, contains-exclude q set ids)
  ])
  | inr stays ↦ rw stays (elim (Bool-cases (id == q)) [
    | inl here ↦
        let e : id ≡ q = ground arith in
        let stays' : contains q set ≡ false = rw e at stays in
        ground (arith, stays', contains-exclude q set ids)
    | inr there ↦ ground (arith, contains-exclude q set ids)
  ])
]

-- A sorted list with no element twice, of ids that have a successor, ascends.
pub sorted-Ascending :
    (a : ℕ) (xs : List ℕ)
    → IsSorted xs
    → ((q : ℕ) → count q xs ≤ 1)
    → ((q : ℕ) → 0 < count q xs → (a < q) × (q + 1 < u64_mod))
    → Ascending a xs
sorted-Ascending a [] s once ok = tt
sorted-Ascending a (x ∷ xs) (above, s) once ok =
    let (lt, fits) = ok x (ground (arith, ==_self x)) in
    (
      lt,
      fits,
      sorted-Ascending x xs s (λ q. ground (arith, once q))
          (λ q h. ground (arith, ok q, once q, h, Above-count x q xs above h)),
    )

Above-exclude : (a : ℕ) (set ids : List ℕ) → Above a ids → Above a (exclude set ids)
unfolding exclude
Above-exclude a set [] h = tt
Above-exclude a set (id ∷ ids) (le, h) = ground (arith, Above-exclude a set ids h)

exclude-IsSorted : (set ids : List ℕ) → IsSorted ids → IsSorted (exclude set ids)
unfolding exclude
exclude-IsSorted set [] s = tt
exclude-IsSorted set (id ∷ ids) (above, s) =
    ground (arith, exclude-IsSorted set ids s, Above-exclude id set ids above)

count-exclude-le : (q : ℕ) (set ids : List ℕ) → count q (exclude set ids) ≤ count q ids
unfolding exclude
count-exclude-le q set [] = omega arith
count-exclude-le q set (id ∷ ids) = ground (arith, count-exclude-le q set ids)

module _ (f : Freelist) (set : List ℕ) (w : IsWf f) where
  excluded-Ascending : Ascending 0 (exclude set (free_page_ids f))
  excluded-Ascending =
      let (members, sorted, once, _) = free_page_ids_lem f w in
      sorted-Ascending 0 (exclude set (free_page_ids f))
        (exclude-IsSorted set (free_page_ids f) sorted)
        (λ q. omega (arith, once q, count-exclude-le q set (free_page_ids f)))
        (λ q h.
          let (s, n, e, lo, hi) = (members q).0 (
            ground (
              arith,
              h,
              count-exclude-le q set (free_page_ids f),
              contains-count q (free_page_ids f),
            )) in
          ground (arith, w.bounds s n e, lo, hi))

nil_of_contains : (xs : List ℕ) → ((q : ℕ) → contains q xs ≡ false) → xs ≡ []
unfolding contains
nil_of_contains [] h = refl
nil_of_contains (x ∷ xs) h = absurd (ground (arith, h x, ==_self x))

read_none : (g : Freelist) → read_ids g [] ≡ done (reindex g)
unfolding read_ids
read_none g = refl

read_ids_id-IsRead :
    (g : Freelist) (xs : List ℕ) (q : ℕ)
    → Ascending 0 xs
    → contains q xs ≡ true
    → (h : Freelist) × (read_ids g xs ≡ done h) × IsRead g xs h
unfolding contains
read_ids_id-IsRead g [] q up here = cc
read_ids_id-IsRead g (x ∷ xs) q up here = read_ids-IsRead g x xs up

module _ (f : Freelist) (id : ℕ) (ids : List ℕ) (up : Ascending 0 (id ∷ ids)) where
  excluded :
      (g : Freelist)
      → IsRead f (id ∷ ids) g
      → (p : ℕ)
      → contains p (exclude (pending_ids f.pending) (free_page_ids g))
        ≡ (contains p (id ∷ ids) && not (contains p (pending_ids f.pending)))
  excluded g r p = ground (
    arith,
    contains-exclude p (pending_ids f.pending) (free_page_ids g),
    free_page_ids-contains g (id ∷ ids) p r.wf r.frees,
  )

  -- If some id of the freelist page (ascending ids) is not pending, `reload` ends with well-formed
  -- spans in which exactly the ids that are not pending are free.
  pub reload_lem :
      (q : ℕ)
      → contains q (id ∷ ids) ≡ true
      → contains q (pending_ids f.pending) ≡ false
      → (g : Freelist) × (reload f (id ∷ ids) ≡ done g)
        × IsWf g
        × ((p : ℕ)
            → IsFree g p
              ↔ ((contains p (id ∷ ids) && not (contains p (pending_ids f.pending))) ≡ true))
  unfolding reload
  reload_lem q here free =
      let (g, run, r) = read_ids-IsRead f id ids up in
      let (h, run', r') =
        read_ids_id-IsRead g (exclude (pending_ids g.pending) (free_page_ids g)) q
          (excluded-Ascending g (pending_ids g.pending) r.wf)
          (rw r.same_pending (ground (arith, here, free, excluded g r q))) in
      (h, rw run run', r'.wf, λ p. rw (← excluded g r p) (rw r.same_pending at (r'.frees p)))

  -- The bug: if every id of the freelist page (ascending ids, at least one) is pending, `reload`
  -- ends with all of them free and still pending, so that `allocate` may hand out a page that a
  -- reader still sees.
  pub reload_frees_pending :
      ((q : ℕ) → contains q (id ∷ ids) ≡ true → contains q (pending_ids f.pending) ≡ true)
      → (g : Freelist) × (reload f (id ∷ ids) ≡ done g)
        × ((p : ℕ)
            → contains p (id ∷ ids) ≡ true
            → IsFree g p × (contains p (pending_ids g.pending) ≡ true))
  unfolding reload
  reload_frees_pending all =
      let (g, run, r) = read_ids-IsRead f id ids up in
      let none_left =
        nil_of_contains (exclude (pending_ids g.pending) (free_page_ids g))
          (λ q. rw r.same_pending (ground (arith, all q, excluded g r q))) in
      (
        reindex g,
        rw (run, none_left) (read_none g),
        λ p here. (
          (reindex-frees g (id ∷ ids) r.frees p).1 here,
          rw (reindex-pending g, r.same_pending) (all p here),
        ),
      )

read-IsConsistent :
    (f g : Freelist) (ids : List ℕ) → f.pending ≡ [] → IsRead f ids g → IsConsistent g
unfolding pending_ids contains
read-IsConsistent f g ids empty r =
    let none_pending : g.pending ≡ [] = r.same_pending ∙ empty in
    record {
      wf = r.wf;
      pending_keys = rw none_pending tt;
      paired = rw none_pending tt;
      cached = λ q. (
        λ h. inl (
            (r.frees q).1
              (ground (arith, h, r.cached q, ap (λ m. contains q (pending_ids m)) empty))),
        λ h. elim h [
          | inl free ↦ ground (arith, r.cached q, (r.frees q).0 free)
          | inr pend ↦ absurd (ground (arith, pend, ap (λ m. count q (pending_ids m)) none_pending))
        ],
      );
      exclusive = λ q h. rw none_pending;
      once = λ q. rw none_pending (omega arith);
      proper = λ q h. absurd (ground (arith, h, ap (λ m. count q (pending_ids m)) none_pending));
    }

-- If a freelist page with ascending ids, at least one, is read into a freelist without pending
-- pages, the result is consistent and its free pages are these ids.
pub read_ids-IsConsistent :
    (f g : Freelist) (id : ℕ) (ids : List ℕ)
    → f.pending ≡ []
    → Ascending 0 (id ∷ ids)
    → read_ids f (id ∷ ids) ≡ done g
    → IsConsistent g × ((q : ℕ) → IsFree g q ↔ (contains q (id ∷ ids) ≡ true))
read_ids-IsConsistent f g id ids empty up e = by_read (read_ids-IsRead f id ids up)
  where
    by_read :
        (h : Freelist) × (read_ids f (id ∷ ids) ≡ done h) × IsRead f (id ∷ ids) h
        → IsConsistent g × ((q : ℕ) → IsFree g q ↔ (contains q (id ∷ ids) ≡ true))
    by_read (h, run, r) =
        let same : h ≡ g = cc in
        subst (λ x. IsConsistent x × ((q : ℕ) → IsFree x q ↔ (contains q (id ∷ ids) ≡ true))) same
          (read-IsConsistent f h (id ∷ ids) empty r, r.frees)
