-- ===== src/Db/Batch/Counted.antt =====
-- The number of write transactions that a batch of src/db.rs begins, and the answers that its callers
-- hear. The number stands beside the database: `begin` adds one, and nothing else changes it.
use bbolt_rs.Prelude.{
  ℕ, zero, suc, ◌+◌, ◌≤◌, ◌<◌, ◌≡◌, refl, ap, ◌⊎◌, inl, inr, Option, none, some, List, [], ◌∷◌,
  ◌++◌, arith, length, count, done,
}
use bbolt_rs.Db.Batch.{
  Call, Answer, ok, finish, update, after_call, run_calls, settle, remove_call, answer_at, all_ok,
  run,
}
use bbolt_rs.Db.Batch.Answers.{
  callers, answered, answered-append, answered-all_ok, remove_call-count, sum-cases, update_index,
}

module _ {T E : Type 0} where
  abbrev pub counted_call : Call T E → Call (ℕ × T) E
  counted_call c = record { caller = c.caller; f = λ (n, t). ((n, (c.f t).0), (c.f t).1) }

  abbrev pub counted_calls : List (Call T E) → List (Call (ℕ × T) E)
  counted_calls [] = []
  counted_calls (c ∷ cs) = counted_call c ∷ counted_calls cs

  -- What a closure gives, beside the number.
  abbrev beside : {I : Type 0} → ℕ → T × Option E × I → (ℕ × T) × Option E × I
  beside n (t, r, i) = ((n, t), r, i)

  after_call-counted :
      (i n : ℕ) (r : T × Option E) (next : T → T × Option E × Option ℕ)
      (next' : ℕ × T → (ℕ × T) × Option E × Option ℕ)
      → ((t : T) → next' (n, t) ≡ beside n (next t))
      → after_call i ((n, r.0), r.1) next' ≡ beside n (after_call i r next)
  unfolding after_call
  after_call-counted i n (t, none) next next' same = same t
  after_call-counted i n (t, some e) next next' same = refl

  run_calls-counted :
      (i n : ℕ) (cs : List (Call T E)) (t : T)
      → run_calls i (counted_calls cs) (n, t) ≡ beside n (run_calls i cs t)
  unfolding run_calls
  run_calls-counted i n [] t = refl
  run_calls-counted i n (c ∷ cs) t =
      after_call-counted i n (c.f t) (run_calls (suc i) cs) (run_calls (suc i) (counted_calls cs))
        (λ t. run_calls-counted (suc i) n cs t)

  remove_call-counted :
      (i : ℕ) (cs : List (Call T E))
      → remove_call i (counted_calls cs) ≡ counted_calls (remove_call i cs)
  unfolding remove_call
  remove_call-counted i [] = refl
  remove_call-counted zero (c ∷ cs) = refl
  remove_call-counted (suc i) (c ∷ cs) = ap (λ cs. counted_call c ∷ cs) (remove_call-counted i cs)

  answer_at-counted :
      (i : ℕ) (cs : List (Call T E)) → answer_at i (counted_calls cs) ≡ answer_at i cs
  unfolding answer_at
  answer_at-counted i [] = refl
  answer_at-counted zero (c ∷ cs) = refl
  answer_at-counted (suc i) (c ∷ cs) = answer_at-counted i cs

  all_ok-counted : (cs : List (Call T E)) → all_ok (counted_calls cs) ≡ all_ok cs
  unfolding all_ok
  all_ok-counted [] = refl
  all_ok-counted (c ∷ cs) = ap (λ as'. (c.caller, ok) ∷ as') (all_ok-counted cs)

module _ {S T E : Type 0} (begin : S → E ⊎ T) (commit : T → S × Option E) (rollback : T → S) where
  abbrev next_number : ℕ → E ⊎ T → E ⊎ (ℕ × T)
  next_number n (inl e) = inl e
  next_number n (inr t) = inr (suc n, t)

  abbrev pub counted_begin : ℕ × S → E ⊎ (ℕ × T)
  counted_begin (n, s) = next_number n (begin s)

  abbrev pub counted_commit : ℕ × T → (ℕ × S) × Option E
  counted_commit (n, t) = ((n, (commit t).0), (commit t).1)

  abbrev pub counted_rollback : ℕ × T → ℕ × S
  counted_rollback (n, t) = (n, rollback t)

  finish-counted :
      {I : Type 0} (n : ℕ) (x : T × Option E × I)
      → let (s, r, i) = finish begin commit rollback x in
        finish counted_begin counted_commit counted_rollback (beside n x) ≡ ((n, s), r, i)
  unfolding finish
  finish-counted n (t, none, i) = refl
  finish-counted n (t, some e, i) = refl

  -- The same end, with the number raised by one at most.
  IsCounted : {I : Type 0} → ℕ → S × Option E × I → (ℕ × S) × Option E × I → Type 0
  IsCounted n u u' = (n' : ℕ) × (n' ≤ suc n) × (u' ≡ ((n', u.0), u.1, u.2))

  update-IsCounted :
      (n : ℕ) (s : S) (cs : List (Call T E))
      → IsCounted n (update begin commit rollback s none (run_calls 0 cs)) (
          update counted_begin counted_commit counted_rollback
            (n, s)
            none
            (run_calls 0 (counted_calls cs)))
  unfolding IsCounted update
  update-IsCounted n s cs = elim (sum-cases (begin s)) [
    | inl (e, bad) ↦ (n, omega arith, rw (bad, update) refl)
    | inr (t, good) ↦ (
      suc n,
      omega arith,
      rw (good, update, run_calls-counted 0 (suc n) cs t)
          (finish-counted (suc n) (run_calls 0 cs t)),
    )
  ]

  -- How the batch ends from the number `n` on, with and without the number.
  AnswersWithin : ℕ → S → List (Call T E) → ℕ → Type 0
  AnswersWithin n s cs fuel =
      (n' : ℕ) × (s' : S) × (answers : List (ℕ × Answer)) × (run counted_begin counted_commit
          counted_rollback fuel (n, s) (counted_calls cs)
        ≡ done ((n', s'), answers))
      × (run begin commit rollback fuel s cs ≡ done (s', answers))
      × (n' ≤ n + length cs)
      × ((q : ℕ) → count q (answered answers) ≡ count q (callers cs))

  settle-AnswersWithin :
      (n m : ℕ) (cs : List (Call T E)) (u : S × Option E × Option ℕ)
      (u' : (ℕ × S) × Option E × Option ℕ)
      → 0 < length cs
      → IsCounted n u u'
      → ((j : ℕ) → u.2 ≡ some j → j < length cs)
      → ((n : ℕ) (s : S) (cs' : List (Call T E))
          → suc (length cs') ≡ length cs
          → AnswersWithin n s cs' m)
      → (n' : ℕ) × (s' : S) × (answers : List (ℕ × Answer)) × (settle counted_begin counted_commit
            counted_rollback
            (counted_calls cs)
            (run counted_begin counted_commit counted_rollback m)
            u'
          ≡ done ((n', s'), answers))
        × (settle begin commit rollback cs (run begin commit rollback m) u ≡ done (s', answers))
        × (n' ≤ n + length cs)
        × ((q : ℕ) → count q (answered answers) ≡ count q (callers cs))
  unfolding settle AnswersWithin IsCounted
  settle-AnswersWithin n m cs (s1, r, none) u' some_call (n', le, same) known again = (
    n',
    s1,
    all_ok cs,
    rw (same, all_ok-counted cs) refl,
    refl,
    omega (arith, le, some_call),
    λ q. answered-all_ok q cs,
  )
  settle-AnswersWithin n m cs (s1, r, some i) u' some_call (n', le, same) known again =
      let at : i < length cs = known i refl in
      let short : suc (length (remove_call i cs)) ≡ length cs = (remove_call-count 0 i cs at).0 in
      let (n'', s', answers, ran, ran', few, num) = again n' s1 (remove_call i cs) short in
      (
        n'',
        s',
        answer_at i cs ++ answers,
        rw (same, remove_call-counted i cs, answer_at-counted i cs, ran) refl,
        rw ran' refl,
        omega (arith, le, few, short),
        λ q. omega (
          arith,
          answered-append q (answer_at i cs) answers,
          num q,
          (remove_call-count q i cs at).1,
        ),
      )

  run-AnswersWithin :
      (m n : ℕ) (s : S) (cs : List (Call T E)) → length cs ≡ m → AnswersWithin n s cs (suc m)
  unfolding run AnswersWithin
  run-AnswersWithin m n s [] len = (n, s, [], refl, refl, omega arith, λ q. refl)
  run-AnswersWithin zero n s (c ∷ cs) len = absurd (omega (arith, len))
  run-AnswersWithin (suc m) n s (c ∷ cs) len =
      settle-AnswersWithin n (suc m) (c ∷ cs)
        (update begin commit rollback s none (run_calls 0 (c ∷ cs)))
        (update counted_begin counted_commit counted_rollback (n, s) none
          (run_calls 0 (counted_calls (c ∷ cs))))
        (omega arith) (update-IsCounted n s (c ∷ cs))
        (update_index begin commit rollback s (c ∷ cs))
        (λ n s cs' short. run-AnswersWithin m n s cs' (omega (arith, len, short)))

  -- Every batch ends, and each caller hears one answer for each of its calls. The batch begins at most
  -- as many write transactions as it has calls: it does the same with a number beside the database
  -- that `begin` raises by one and nothing else changes, and from 0 the number comes to no more than
  -- the number of calls.
  pub run_answers_once :
      (s : S) (cs : List (Call T E))
      → (n : ℕ) × (s' : S) × (answers : List (ℕ × Answer)) × (run counted_begin counted_commit
            counted_rollback
            (suc (length cs))
            (0, s)
            (counted_calls cs)
          ≡ done ((n, s'), answers))
        × (run begin commit rollback (suc (length cs)) s cs ≡ done (s', answers))
        × (n ≤ length cs)
        × ((q : ℕ) → count q (answered answers) ≡ count q (callers cs))
  unfolding AnswersWithin
  run_answers_once s cs =
      let (n, s', answers, ran, ran', few, num) = run-AnswersWithin (length cs) 0 s cs refl in
      (n, s', answers, ran, ran', omega (arith, few), num)
