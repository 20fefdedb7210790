-- ===== src/Db/Batch/Answers.antt =====
-- What the callers of a batch of src/db.rs hear.
use mathlib.Core.Path.{sym}
use bbolt_rs.Prelude.{
  ℕ, zero, suc, ◌+◌, ◌≤◌, ◌<◌, ◌≡◌, refl, ◌∙◌, ◌⊎◌, inl, inr, Option, none, some, List, [], ◌∷◌,
  ◌++◌, arith, length, count, done,
}
use bbolt_rs.Db.Batch.{
  Call, Answer, finish, update, after_call, run_calls, settle, remove_call, answer_at, all_ok, run,
}

abbrev pub callers : {T E : Type 0} → List (Call T E) → List ℕ
callers [] = []
callers (c ∷ cs) = c.caller ∷ callers cs

abbrev pub answered : List (ℕ × Answer) → List ℕ
answered [] = []
answered ((caller, a) ∷ as') = caller ∷ answered as'

pub answered-append :
    (q : ℕ) (xs ys : List (ℕ × Answer))
    → count q (answered (xs ++ ys)) ≡ count q (answered xs) + count q (answered ys)
answered-append q [] ys = omega arith
answered-append q ((c, a) ∷ xs) ys = omega (arith, answered-append q xs ys)

module _ {T E : Type 0} where
  pub answered-all_ok :
      (q : ℕ) (cs : List (Call T E)) → count q (answered (all_ok cs)) ≡ count q (callers cs)
  unfolding all_ok
  answered-all_ok q [] = refl
  answered-all_ok q (c ∷ cs) = omega (arith, answered-all_ok q cs)

  -- A call taken out is answered.
  pub remove_call-count :
      (q i : ℕ) (cs : List (Call T E))
      → i < length cs
      → (suc (length (remove_call i cs)) ≡ length cs)
        × (count q (callers cs)
            ≡ count q (answered (answer_at i cs)) + count q (callers (remove_call i cs)))
  unfolding remove_call answer_at
  remove_call-count q i [] h = absurd (omega arith)
  remove_call-count q zero (c ∷ cs) h = (refl, omega arith)
  remove_call-count q (suc i) (c ∷ cs) h =
      let (len, num) = remove_call-count q i cs (omega arith) in
      (omega (arith, len), omega (arith, num))

  after_call_index :
      (i j n : ℕ) (r : T × Option E) (next : T → T × Option E × Option ℕ)
      → ((t : T) → (next t).2 ≡ some j → (suc i ≤ j) × (j < suc i + n))
      → (after_call i r next).2 ≡ some j
      → (i ≤ j) × (j < i + suc n)
  unfolding after_call
  after_call_index i j n (t, none) next later_on e =
      let (lo, hi) = later_on t e in (omega arith, omega arith)
  after_call_index i j n (t, some err) next later_on e =
      let at : i ≡ j = cc in (omega arith, omega arith)

  -- The index that the closure tells is one of a call.
  run_calls_index :
      (i j : ℕ) (cs : List (Call T E)) (t : T)
      → (run_calls i cs t).2 ≡ some j
      → (i ≤ j) × (j < i + length cs)
  unfolding run_calls
  run_calls_index i j [] t e = cc
  run_calls_index i j (c ∷ cs) t e =
      after_call_index i j (length cs) (c.f t) (run_calls (suc i) cs)
        (λ t' e'. run_calls_index (suc i) j cs t' e') e

pub sum-cases : {A B : Type 0} (x : A ⊎ B) → ((a : A) × (x ≡ inl a)) ⊎ ((b : B) × (x ≡ inr b))
sum-cases (inl a) = inl (a, refl)
sum-cases (inr b) = inr (b, refl)

module _ {S T E : Type 0} (begin : S → E ⊎ T) (commit : T → S × Option E) (rollback : T → S) where
  finish_told : {I : Type 0} (x : T × Option E × I) → (finish begin commit rollback x).2 ≡ x.2
  unfolding finish
  finish_told (t, none, i) = refl
  finish_told (t, some e, i) = refl

  pub update-inl :
      {I : Type 0} (s : S) (i : I) (f : T → T × Option E × I) (e : E)
      → begin s ≡ inl e
      → update begin commit rollback s i f ≡ (s, some e, i)
  unfolding update
  update-inl s i f e bad = rw (bad, update) refl

  pub update-inr :
      {I : Type 0} (s : S) (i : I) (f : T → T × Option E × I) (t : T)
      → begin s ≡ inr t
      → update begin commit rollback s i f ≡ finish begin commit rollback (f t)
  unfolding update
  update-inr s i f t good = rw (good, update) refl

  pub update_index :
      (s : S) (cs : List (Call T E)) (j : ℕ)
      → (update begin commit rollback s none (run_calls 0 cs)).2 ≡ some j
      → j < length cs
  unfolding update
  update_index s cs j e = elim (sum-cases (begin s)) [
    | inl (err, bad) ↦ let e' = rw (bad, update) at e in cc
    | inr (t, good) ↦
        let e' = rw (good, update) at e in
        omega (arith, (run_calls_index 0 j cs t (sym (finish_told (run_calls 0 cs t)) ∙ e')).1)
  ]

  -- The bug: how the transaction itself ended is dropped. Where it does not begin, or where no call
  -- fails and its commit does, every caller is told that its call succeeded.
  pub run_ignores_errors :
      (fuel : ℕ) (s : S) (c : Call T E) (cs : List (Call T E))
      → ((e : E)
          → begin s ≡ inl e
          → run begin commit rollback (suc fuel) s (c ∷ cs) ≡ done (s, all_ok (c ∷ cs)))
        × ((t t' : T) (s' : S) (e : E)
            → begin s ≡ inr t
            → run_calls 0 (c ∷ cs) t ≡ (t', none, none)
            → commit t' ≡ (s', some e)
            → run begin commit rollback (suc fuel) s (c ∷ cs) ≡ done (s', all_ok (c ∷ cs)))
  unfolding run finish settle
  run_ignores_errors fuel s c cs = (
    λ e bad. rw (update-inl s none (run_calls 0 (c ∷ cs)) e bad) refl,
    λ t t' s' e good all_fine bad.
        rw (update-inr s none (run_calls 0 (c ∷ cs)) t good, all_fine, bad) refl,
  )
