-- ===== src/Db/Batch.antt =====
-- The batches of src/db.rs: `ScheduledBatch::run` runs the calls of several threads in one write
-- transaction, and leaves out the calls that fail. `S` is the database, `T` a write transaction and `E`
-- the errors; how a transaction begins, commits and is rolled back are arguments. The timer and the
-- channels are left out: an answer is what a call's channel receives.
pub mod Answers
pub mod Counted
use bbolt_rs.Prelude.{
  ℕ, zero, suc, ◌+◌, ◌⊎◌, inl, inr, Option, none, some, List, [], ◌∷◌, ◌++◌, Outcome, done, diverge,
  ◌>>=◌,
}

-- `Call`: the thread that waits for the answer, and the closure.
pub record Call (T E : Type 0) : Type 0 where
  pub caller : ℕ
  pub f : T → T × Option E

pub data Answer : Type 0 where
  ok : Answer
  try_solo : Answer

module _ {T E : Type 0} where
  -- A call's result, and what the calls after it give.
  unfoldable pub after_call :
      ℕ → T × Option E → (T → T × Option E × Option ℕ) → T × Option E × Option ℕ
  after_call i (t, none) next = next t
  after_call i (t, some e) next = (t, some e, some i)

  -- The closure of `run`: the calls in their order up to the first that fails, with its index.
  unfoldable pub run_calls : ℕ → List (Call T E) → T → T × Option E × Option ℕ
  unfolding after_call
  run_calls i [] t = (t, none, none)
  run_calls i (c ∷ cs) t = after_call i (c.f t) (run_calls (suc i) cs)

  -- `Vec::remove`.
  unfoldable pub remove_call : ℕ → List (Call T E) → List (Call T E)
  remove_call i [] = []
  remove_call zero (c ∷ cs) = cs
  remove_call (suc i) (c ∷ cs) = c ∷ remove_call i cs

  unfoldable pub answer_at : ℕ → List (Call T E) → List (ℕ × Answer)
  answer_at i [] = []
  answer_at zero (c ∷ cs) = (c.caller, try_solo) ∷ []
  answer_at (suc i) (c ∷ cs) = answer_at i cs

  unfoldable pub all_ok : List (Call T E) → List (ℕ × Answer)
  all_ok [] = []
  all_ok (c ∷ cs) = (c.caller, ok) ∷ all_ok cs

module _ {S T E : Type 0} (begin : S → E ⊎ T) (commit : T → S × Option E) (rollback : T → S) where
  -- The end of `update` on the closure's result, with what the closure told its caller.
  unfoldable pub finish : {I : Type 0} → T × Option E × I → S × Option E × I
  finish (t, none, i) = let (s, r) = commit t in (s, r, i)
  finish (t, some e, i) = (rollback t, some e, i)

  -- `Bolt::update`, for a closure that tells its caller something, from `i` on.
  unfoldable pub update : {I : Type 0} → S → I → (T → T × Option E × I) → S × Option E × I
  unfolding finish
  update s i f = elim (begin s) [ inl e ↦ (s, some e, i) | inr t ↦ finish (f t) ]

  -- After the transaction: all calls are answered, or the one that failed is and the others run again.
  unfoldable pub settle :
      List (Call T E)
      → (S → List (Call T E) → Outcome (S × List (ℕ × Answer)))
      → S × Option E × Option ℕ
      → Outcome (S × List (ℕ × Answer))
  unfolding remove_call answer_at all_ok
  settle cs again (s, r, none) = done (s, all_ok cs)
  settle cs again (s, r, some i) = do
    (s', answers) ← again s (remove_call i cs)
    done (s', answer_at i cs ++ answers)

  -- `run`: the database and the answers, in the order they are sent.
  unfoldable pub run : ℕ → S → List (Call T E) → Outcome (S × List (ℕ × Answer))
  unfolding update run_calls settle
  run zero s calls = diverge
  run (suc fuel) s [] = done (s, [])
  run (suc fuel) s (c ∷ cs) = settle (c ∷ cs) (run fuel) (update s none (run_calls 0 (c ∷ cs)))
