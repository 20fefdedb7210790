-- ===== src/System/Writing.antt =====
-- A write transaction begins, and allocates pages.
use bbolt_rs.Prelude.{
  ℕ, ◌+◌, ◌≤◌, ◌<◌, ◌≡◌, ◌⊎◌, inl, inr, true, ◌&&◌, some, arith, ◌==◌, if◌then◌else◌, get, contains,
  u64_mod, Bool-cases,
}
use bbolt_rs.Freelist.{Freelist}
use bbolt_rs.Freelist.Spans.{IsFree}
use bbolt_rs.Freelist.Consistent.{IsConsistent, times_pending}
use bbolt_rs.Freelist.Pending.Entries.{AllEntries-map}
use bbolt_rs.Freelist.Pending.Free.{in_run}
use bbolt_rs.System.Horizon.{Horizon, IsSeen, Holds, Snapshots, IsPendable, IsSafe}

-- The snapshot that a new writer starts from is the current one.
abbrev pub origin : ℕ → ℕ → ℕ
origin c r = if r == c + 1 then c else r

abbrev pub copy_snapshot : ℕ → Snapshots → Snapshots
copy_snapshot c snap r = snap (origin c r)

pub begin-IsSafe :
    (h : Horizon) (snap : Snapshots) (f : Freelist)
    → IsSafe h snap f
    → h.last ≡ h.current
    → h.current + 2 < u64_mod
    → IsSafe (record h { last = h.current + 1 }) (copy_snapshot h.current snap) f
begin-IsSafe h snap f s idle small = record {
  consistent = s.consistent;
  entries =
      AllEntries-map (IsPendable h snap)
        (IsPendable (record h { last = h.current + 1 }) (copy_snapshot h.current snap)) f.pending
        (λ tid q a _ (le, le', held). (
          omega (arith, idle),
          le',
          λ r seen holds.
              ground (arith, le, idle, held (origin h.current r) (at_origin r seen) holds),
        ))
        s.entries;
  unfree = λ r q seen. s.unfree (origin h.current r) q (at_origin r seen);
  booked = λ r id o a seen e e'.
      ground (arith, s.booked (origin h.current r) id o a (at_origin r seen) e e');
  known = s.known;
  coherent = λ r r' i o j o' q seen seen'.
      s.coherent (origin h.current r) (origin h.current r') i o j o' q (at_origin r seen)
        (at_origin r' seen');
  bounded = λ r q seen. s.bounded (origin h.current r) q (at_origin r seen);
  tracked = s.tracked;
  listed = λ r o seen e. ground (arith, s.listed (origin h.current r) o (at_origin r seen) e);
  readers = s.readers;
  ordered = ground (arith, s.ordered, idle, small);
  fits = s.fits;
}
  where
    at_origin :
        (r : ℕ) → IsSeen (record h { last = h.current + 1 }) r → IsSeen h (origin h.current r)
    at_origin r seen = elim (Bool-cases (r == h.current + 1)) [
      | inl new ↦ rw new (inr (omega (arith, idle)))
      | inr old ↦ rw old (elim seen [
        | inl reads ↦ inl reads
        | inr (lo, hi) ↦ inr (ground (arith, lo, hi, old, idle))
      ])
    ]

-- The transaction `n` has the page besides.
abbrev pub add_page : ℕ → ℕ → ℕ → Snapshots → Snapshots
add_page n id o snap r j = if r == n && j == id then some o else snap r j

-- A page that the writer was given: no snapshot has any part of it, and of the lists and the free
-- pages only its own pages go.
pub record IsNew (h : Horizon) (snap : Snapshots) (f g : Freelist) (id o high : ℕ) : Type 0 where
  pub consistent : IsConsistent g
  pub same_pending : g.pending ≡ f.pending
  pub booked :
      (q a : ℕ) → get q g.allocs ≡ some a → (get q f.allocs ≡ some a) ⊎ ((q ≡ id) × (a ≡ h.last))
  pub frees : (q : ℕ) → IsFree g q → IsFree f q
  pub cached : (q : ℕ) → contains q g.cache ≡ true → contains q f.cache ≡ true
  pub unseen : (r q : ℕ) → IsSeen h r → Holds snap r q → in_run id o q ≡ true → ⊥
  pub not_free : (q : ℕ) → in_run id o q ≡ true → ¬ IsFree g q
  pub not_pending : (q : ℕ) → in_run id o q ≡ true → times_pending f q ≡ 0
  pub bounds : (1 < id) × (id + o < high) × (h.high ≤ high) × (high < u64_mod)

module _ (h : Horizon) (snap : Snapshots) (f g : Freelist) (id o high : ℕ) (s : IsSafe h snap f)
    (x : IsNew h snap f g id o high) (writing : h.last ≡ h.current + 1) where
  abbrev after : Snapshots
  after = add_page h.last id o snap

  -- A page of the snapshots after is the new one or one of before.
  pub cases :
      (r j k : ℕ) → after r j ≡ some k → ((r ≡ h.last) × (j ≡ id) × (k ≡ o)) ⊎ (snap r j ≡ some k)
  cases r j k e = elim (Bool-cases (r == h.last && j == id)) [
    | inl new ↦ inl (ground arith)
    | inr old ↦ inr (ground arith)
  ]

  Holds-cases :
      (r q : ℕ) → Holds after r q → ((r ≡ h.last) × (in_run id o q ≡ true)) ⊎ Holds snap r q
  Holds-cases r q (j, k, e, inside) = elim (cases r j k e) [
    | inl (at, e', e'') ↦ inl (at, ground arith)
    | inr old ↦ inr (j, k, old, inside)
  ]

  pub add_page-IsSafe :
      IsSafe (record h { newest = h.last; high = high }) (add_page h.last id o snap) g
  add_page-IsSafe = record {
    consistent = x.consistent;
    entries = rw x.same_pending (
        AllEntries-map (IsPendable h snap)
          (IsPendable (record h { newest = h.last; high = high }) after) f.pending
          (λ tid q a pos (le, le', held). (
            le,
            omega (arith, le', s.ordered),
            λ r seen holds. elim (Holds-cases r q holds) [
              | inl (_, inside) ↦ absurd (omega (arith, x.not_pending q inside, pos))
              | inr old ↦ held r seen old
            ],
          ))
          s.entries);
    unfree = λ r q seen holds free. elim (Holds-cases r q holds) [
      | inl (_, inside) ↦ x.not_free q inside free
      | inr old ↦ s.unfree r q seen old (x.frees q free)
    ];
    booked = λ r j k a seen e e'. elim (x.booked j a e') [
      | inl was ↦ elim (cases r j k e) [
        | inl (at, _, _) ↦ omega (arith, at, s.known j a was, s.ordered)
        | inr old ↦ s.booked r j k a seen old was
      ]
      | inr (at, a_new) ↦ elim (cases r j k e) [
        | inl (at', _, _) ↦ omega (arith, at', a_new)
        | inr old ↦ absurd (x.unseen r j seen (j, k, old, ground arith) (ground arith))
      ]
    ];
    known = λ q a e. elim (x.booked q a e) [
      | inl was ↦ omega (arith, s.known q a was, s.ordered)
      | inr (_, a_new) ↦ omega (arith, a_new)
    ];
    coherent = λ r r' i k j l q seen seen' e e' at at'. elim (cases r i k e) [
      | inl (_, a, b) ↦ elim (cases r' j l e') [
        | inl (_, c, d) ↦ (omega arith, omega arith)
        | inr old ↦ absurd (x.unseen r' q seen' (j, l, old, at') (ground arith))
      ]
      | inr was ↦ elim (cases r' j l e') [
        | inl (_, c, d) ↦ absurd (x.unseen r q seen (i, k, was, at) (ground arith))
        | inr old ↦ s.coherent r r' i k j l q seen seen' was old at at'
      ]
    ];
    bounded = λ r q seen holds. elim (Holds-cases r q holds) [
      | inl (_, inside) ↦ ground (arith, x.bounds)
      | inr old ↦ ground (arith, s.bounded r q seen old, x.bounds)
    ];
    tracked = λ q e. ground (arith, s.tracked q (x.cached q e), x.bounds);
    listed = λ r k seen e. elim (cases r h.list k e) [
      | inl (at, _, _) ↦ omega arith
      | inr old ↦ s.listed r k seen old
    ];
    readers = s.readers;
    ordered = ground (arith, s.ordered);
    fits = ground (arith, s.fits, x.bounds);
  }
