-- ===== src/Db/Readers.antt =====
-- `begin_tx` and `remove_tx` of src/db.rs: the list of open read transactions.
use bbolt_rs.Prelude.{
  ℕ, suc, ◌+◌, ◌<◌, ◌≡◌, refl, ◌⊎◌, inl, inr, true, false, none, some, List, [], ◌∷◌, ◌++◌, arith,
  ◌==◌, if◌then◌else◌, length, get_or, contains, count, Bool-cases,
}
use bbolt_rs.Meta.{Meta}
use bbolt_rs.Freelist.Pending.Sweep.{count-swap_remove}
use bbolt_rs.Db.State.{Database, begin_tx, position, remove_at, remove_tx}

pub begin_tx_lem :
    (d d' : Database) (m : Meta)
    → begin_tx d ≡ some (d', m)
    → (record d { txs = d.txs ++ d.current.txid ∷ [] } ≡ d') × (d.current ≡ m)
unfolding begin_tx
begin_tx_lem d d' m e = elim (Bool-cases d.is_open) [
  | inl ready ↦ let e' = rw ready at e in (cc, cc)
  | inr closed ↦ let e' = rw closed at e in cc
]

position_lem :
    (a : ℕ) (xs : List ℕ)
    → ((position a xs ≡ none) × (contains a xs ≡ false))
      ⊎ ((i : ℕ) × (position a xs ≡ some i)
          × (i < length xs)
          × (get_or xs i 0 ≡ a)
          × (contains a xs ≡ true))
unfolding position contains
position_lem a [] = inl (refl, refl)
position_lem a (x ∷ xs) = elim (Bool-cases (x == a)) [
  | inl here ↦ inr (0, rw here refl, omega arith, ground arith, ground arith)
  | inr there ↦ elim (position_lem a xs) [
    | inl (e, absent) ↦ inl (rw (there, e, position) refl, ground arith)
    | inr (i, e, lt, its, here) ↦
        inr (suc i, rw (there, e, position) refl, omega arith, its, ground arith)
  ]
]

-- The end of a read transaction takes its id from the list of open ones once, and no other id.
pub remove_tx-count :
    (d : Database) (r q : ℕ)
    → count q d.txs
      ≡ count q (remove_tx d r).txs + (if r == q then (if contains r d.txs then 1 else 0) else 0)
unfolding remove_tx remove_at
remove_tx-count d r q = elim (position_lem r d.txs) [
  | inl (e, absent) ↦ rw (e, remove_at) (ground arith)
  | inr (i, e, lt, its, here) ↦ rw (e, remove_at) (ground (arith, count-swap_remove q i d.txs lt))
]
