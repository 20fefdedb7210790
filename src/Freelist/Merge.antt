-- ===== src/Freelist/Merge.antt =====
-- `merge_with_existing_span` and `merge_spans` of src/freelist.rs: a page that was not free becomes
-- free, and the spans stay apart.
use bbolt_rs.Prelude.{
  ℕ, ◌+◌, ◌-◌, ◌≤◌, ◌<◌, ◌≡◌, refl, ◌↔◌, ◌⊎◌, inl, inr, none, some, Option, List, [], ◌∷◌, arith,
  ◌==◌, ltb, leb, u64_mod, add_u64, sub_u64, add_u64_lem, sub_u64_lem, get, Bool-cases, contains,
  true, false, Bool, ◌||◌, ==_iff, ||-eq-true,
}
use bbolt_rs.Freelist.{
  Freelist, del_span, add_span, merge_backward, merge_forward, merge_with_existing_span,
  merge_spans,
}
use bbolt_rs.Freelist.Spans.{Span, IsFree, IsWf, del_span-IsWf}
use bbolt_rs.Freelist.AddSpan.{
  IsApart, add_span-IsWf, IsFree-add_span, del_span-IsApart, IsFree-del_span, IsFree-del_span_cases,
  Span-del_span_old,
}

-- The state between the two halves: the spans left are apart from the grown span, which begins at
-- `start`, has `size` pages and ends with `pid`, and its pages before `pid` were free.
record IsGrown (f : Freelist) (pid : ℕ) (g : Freelist) (start size : ℕ) : Type 0 where
  wf : IsWf g
  start_pos : 0 < start
  ends_at : start + size ≡ pid + 1
  size_pos : 0 < size
  clear : (t m : ℕ) → Span g t m → (t + m < start) ⊎ (pid < t)
  kept : (q : ℕ) → IsFree g q → IsFree f q
  split : (q : ℕ) → IsFree f q → IsFree g q ⊎ ((start ≤ q) × (q < pid))
  was_free : (q : ℕ) → start ≤ q → q < pid → IsFree f q

not_free_around :
    (f : Freelist) (pid t m : ℕ) → ¬ IsFree f pid → Span f t m → (t + m ≤ pid) ⊎ (pid < t)
not_free_around f pid t m out h = elim (Bool-cases (ltb pid t)) [
  | inl after ↦ inr (ground arith)
  | inr not_after ↦ elim (Bool-cases (ltb pid (t + m))) [
    | inl before ↦ absurd (out (t, m, h, ground arith, ground arith))
    | inr ended ↦ inl (ground arith)
  ]
]

module _ (f : Freelist) (pid : ℕ) (w : IsWf f) (out : ¬ IsFree f pid) (pos : 0 < pid)
    (fits : pid + 1 < u64_mod) where
  merge_backward-IsGrown :
      (o : Option ℕ)
      → get (sub_u64 pid 1) f.backward_map ≡ o
      → let r = merge_backward f pid o in IsGrown f pid r.0 r.1 r.2
  unfolding merge_backward
  merge_backward-IsGrown none e = record {
    wf = w;
    start_pos = pos;
    ends_at = refl;
    size_pos = omega arith;
    clear = λ t m h.
        ground
          (arith, not_free_around f pid t m out h, sub_u64_lem pid 1, w.ends t m h, w.bounds t m h);
    kept = λ q h. h;
    split = λ q h. inl h;
    was_free = λ q lo hi. absurd (omega arith);
  }
  merge_backward-IsGrown (some pre) e = rw (start_lem, start_lem', size_lem) grown
    where
      prev : sub_u64 pid 1 ≡ pid - 1
      prev = sub_u64_lem pid 1 (omega arith) (omega arith)

      before : (pre ≤ pid - 1) × Span f (pid - pre) pre
      before = ground (arith, prev, w.starts (pid - 1) pre)

      start_lem : sub_u64 (add_u64 (sub_u64 pid 1) 1) pre ≡ pid - pre
      start_lem = ground (arith, prev, add_u64_lem (pid - 1) 1, sub_u64_lem pid pre, before.0)

      start_lem' : sub_u64 pid pre ≡ pid - pre
      start_lem' = ground (arith, sub_u64_lem pid pre, before.0)

      size_lem : add_u64 1 pre ≡ 1 + pre
      size_lem = ground (arith, add_u64_lem 1 pre, before.0)

      grown : IsGrown f pid (del_span f (pid - pre) pre) (pid - pre) (1 + pre)
      grown = record {
        wf = del_span-IsWf f (pid - pre) pre w before.1;
        start_pos = (w.bounds (pid - pre) pre before.1).1;
        ends_at = omega (arith, before.0);
        size_pos = omega arith;
        clear =
            λ t m h. ground (arith, before.0, del_span-IsApart f (pid - pre) pre w before.1 t m h);
        kept = λ q h. ((IsFree-del_span f (pid - pre) pre w before.1 q).0 h).0;
        split = λ q h.
            ground (arith, (IsFree-del_span_cases f (pid - pre) pre w before.1 q).0 h, before.0);
        was_free = λ q lo hi. (pid - pre, pre, before.1, lo, omega (arith, before.0));
      }

-- What the second half gives back.
abbrev FreesPage : Freelist → ℕ → Freelist → Type 0
FreesPage f pid g = IsWf g × ((q : ℕ) → IsFree g q ↔ (IsFree f q ⊎ (q ≡ pid)))

add_span-FreesPage :
    (f : Freelist) (pid : ℕ) (h : Freelist) (start size : ℕ)
    → IsWf h
    → IsApart h start size
    → 0 < start
    → start + size < u64_mod
    → (start ≤ pid) × (pid < start + size)
    → ((q : ℕ) → IsFree h q → IsFree f q)
    → ((q : ℕ) → start ≤ q → q < start + size → IsFree f q ⊎ (q ≡ pid))
    → ((q : ℕ) → IsFree f q → IsFree h q ⊎ ((start ≤ q) × (q < start + size)))
    → FreesPage f pid (add_span h start size)
add_span-FreesPage f pid h start size w apart pos fits inside kept range split =
    (add_span-IsWf h start size w apart (omega arith) pos fits, λ q. (there q, back q))
  where
    grown :
        (q : ℕ)
        → IsFree (add_span h start size) q ↔ (IsFree h q ⊎ ((start ≤ q) × (q < start + size)))
    grown = IsFree-add_span h start size w apart (omega arith) pos fits

    there : (q : ℕ) → IsFree (add_span h start size) q → IsFree f q ⊎ (q ≡ pid)
    there q x = elim ((grown q).0 x) [ inl old ↦ inl (kept q old) | inr (lo, hi) ↦ range q lo hi ]

    back : (q : ℕ) → IsFree f q ⊎ (q ≡ pid) → IsFree (add_span h start size) q
    back q (inl x) = (grown q).1 (split q x)
    back q (inr e) = (grown q).1 (inr (omega arith))

module _ (f : Freelist) (pid : ℕ) (g : Freelist) (start size : ℕ) (r : IsGrown f pid g start size)
    (fits : pid + 1 < u64_mod) where
  pages_of_grown : (q : ℕ) → start ≤ q → q ≤ pid → IsFree f q ⊎ (q ≡ pid)
  pages_of_grown q lo hi = elim (Bool-cases (ltb q pid)) [
    | inl before ↦ inl (r.was_free q lo (ground arith))
    | inr last ↦ inr (ground arith)
  ]

  merge_forward-FreesPage :
      (o : Option ℕ)
      → get (pid + 1) g.forward_map ≡ o
      → FreesPage f pid (merge_forward (g, start, size) (pid + 1) o)
  unfolding merge_forward
  merge_forward-FreesPage none e =
      add_span-FreesPage f pid g start size r.wf (λ t m h. ground (arith, r.clear t m h, r.ends_at))
        r.start_pos (omega (arith, r.ends_at)) (omega (arith, r.ends_at, r.size_pos)) r.kept
        (λ q lo hi. pages_of_grown q lo (omega (arith, r.ends_at)))
        (λ q x. ground (arith, r.split q x, r.ends_at))
  merge_forward-FreesPage (some n) e = rw total (
      add_span-FreesPage f pid (del_span g (pid + 1) n) start (size + n)
        (del_span-IsWf g (pid + 1) n r.wf e) apart r.start_pos (omega (arith, r.ends_at, next))
        (omega (arith, r.ends_at, r.size_pos)) (λ q x. r.kept q ((cases q).1 (inl x))) range split)
    where
      next : (0 < n) × (0 < pid + 1) × (pid + 1 + n < u64_mod)
      next = r.wf.bounds (pid + 1) n e

      total : add_u64 size n ≡ size + n
      total = add_u64_lem size n (omega (arith, r.ends_at, next))

      cases :
          (q : ℕ)
          → IsFree g q ↔ (IsFree (del_span g (pid + 1) n) q ⊎ ((pid + 1 ≤ q) × (q < pid + 1 + n)))
      cases = IsFree-del_span_cases g (pid + 1) n r.wf e

      apart : IsApart (del_span g (pid + 1) n) start (size + n)
      apart t m h = ground (
        arith,
        r.clear t m (Span-del_span_old g (pid + 1) n r.wf e t m h).0,
        del_span-IsApart g (pid + 1) n r.wf e t m h,
        r.ends_at,
      )

      range : (q : ℕ) → start ≤ q → q < start + (size + n) → IsFree f q ⊎ (q ≡ pid)
      range q lo hi = elim (Bool-cases (leb q pid)) [
        | inl small ↦ pages_of_grown q lo (ground arith)
        | inr big ↦ inl (r.kept q ((cases q).1 (inr (ground (arith, r.ends_at)))))
      ]

      split :
          (q : ℕ)
          → IsFree f q
          → IsFree (del_span g (pid + 1) n) q ⊎ ((start ≤ q) × (q < start + (size + n)))
      split q x = elim (r.split q x) [
        | inl in_g ↦ elim ((cases q).0 in_g) [
          | inl other ↦ inl other
          | inr (lo, hi) ↦ inr (omega (arith, r.ends_at))
        ]
        | inr (lo, hi) ↦ inr (omega (arith, r.ends_at))
      ]

-- A page that is not free becomes free, with no other page's state changed, and the spans stay
-- well formed: the page grows the span before it and the one after it.
pub merge_with_existing_span-FreesPage :
    (f : Freelist) (pid : ℕ)
    → IsWf f
    → ¬ IsFree f pid
    → 0 < pid
    → pid + 1 < u64_mod
    → FreesPage f pid (merge_with_existing_span f pid)
unfolding merge_with_existing_span
merge_with_existing_span-FreesPage f pid w out pos fits =
    let back = merge_backward f pid (get (sub_u64 pid 1) f.backward_map) in
    rw (add_u64_lem pid 1 fits) (
      merge_forward-FreesPage f pid back.0 back.1 back.2
        (merge_backward-IsGrown f pid w out pos fits _ refl) fits _ refl)

-- Each page of the list is one that can be freed: not free yet, a proper id, and listed once.
abbrev pub CanFree : Freelist → List ℕ → Type 0
CanFree f [] = Unit {0}
CanFree f (p ∷ ps) =
    (¬ IsFree f p) × (0 < p) × (p + 1 < u64_mod) × (contains p ps ≡ false) × CanFree f ps

CanFree-mono :
    (f g : Freelist) (p : ℕ) (ps : List ℕ)
    → ((q : ℕ) → IsFree g q ↔ (IsFree f q ⊎ (q ≡ p)))
    → contains p ps ≡ false
    → CanFree f ps
    → CanFree g ps
unfolding contains
CanFree-mono f g p [] same out c = tt
CanFree-mono f g p (x ∷ xs) same out (free, pos, fits, once, rest) =
    (not-IsFree, pos, fits, once, CanFree-mono f g p xs same (ground arith) rest)
  where
    not-IsFree : ¬ IsFree g x
    not-IsFree h = elim ((same x).0 h) [
      | inl old ↦ free old
      | inr e ↦ absurd (ground (arith, ==_iff x p))
    ]

union_step :
    {A B C : Type 0} (p q : ℕ) (rest : Bool)
    → B ↔ (A ⊎ (q ≡ p))
    → C ↔ (B ⊎ (rest ≡ true))
    → C ↔ (A ⊎ ((p == q || rest) ≡ true))
union_step {A} {B} {C} p q rest one more = (there, back)
  where
    there : C → A ⊎ ((p == q || rest) ≡ true)
    there c = elim (more.0 c) [
      | inl b ↦ elim (one.0 b) [ inl a ↦ inl a | inr e ↦ inr (ground arith) ]
      | inr e ↦ inr (ground arith)
    ]

    back : A ⊎ ((p == q || rest) ≡ true) → C
    back (inl a) = more.1 (inl (one.1 (inl a)))
    back (inr e) = elim (||-eq-true (p == q) rest e) [
      | inl here ↦ more.1 (inl (one.1 (inr (ground arith))))
      | inr later ↦ more.1 (inr later)
    ]

-- On well-formed spans and a list of pages that can be freed (none is free, 0, stands in the list
-- twice, or has no `u64` successor), the result is well-formed again, and the free pages are those
-- that were free and those of the list.
pub merge_spans-IsWf :
    (f : Freelist) (pgids : List ℕ)
    → IsWf f
    → CanFree f pgids
    → IsWf (merge_spans f pgids)
      × ((q : ℕ) → IsFree (merge_spans f pgids) q ↔ (IsFree f q ⊎ (contains q pgids ≡ true)))
unfolding merge_spans contains
merge_spans-IsWf f [] w c = (w, λ q. (λ h. inl h, λ h. elim h [ inl x ↦ x | inr e ↦ cc ]))
merge_spans-IsWf f (p ∷ ps) w (free, pos, fits, once, rest) =
    let (w', grown) = merge_with_existing_span-FreesPage f p w free pos fits in
    let (w'', all) =
      merge_spans-IsWf (merge_with_existing_span f p) ps w'
        (CanFree-mono f (merge_with_existing_span f p) p ps grown once rest) in
    (w'', λ q. union_step p q (contains q ps) (grown q) (all q))
