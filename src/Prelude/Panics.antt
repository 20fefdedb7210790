-- ===== src/Prelude/Panics.antt =====
-- Code that may panic or run for ever, and that otherwise ends with a value. `diverge` is also what
-- a loop gives that runs out of its fuel.
pub data Outcome {ℓ} (A : Type ℓ) : Type ℓ where
  done : A → Outcome A
  panic : Outcome A
  diverge : Outcome A

infixl 5 ◌>>=◌
abbrev pub ◌>>=◌ {ℓ κ} : {A : Type ℓ} {B : Type κ} → Outcome A → (A → Outcome B) → Outcome B
done a >>= f = f a
panic >>= f = panic
diverge >>= f = diverge
