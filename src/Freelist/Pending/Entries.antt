-- ===== src/Freelist/Pending/Entries.antt =====
-- What holds of every page in the pending lists of src/freelist.rs, beside the transaction that freed
-- it and the one that allocated it.
use bbolt_rs.Prelude.{
  ℕ, ◌<◌, ◌≡◌, ◌≢◌, inl, inr, true, List, [], ◌∷◌, ◌++◌, map, arith, ◌==◌, Map, get, remove,
  contains, count, contains-count, count-append, ==_self, Bool-cases,
}
use bbolt_rs.Freelist.{TxPending}
use bbolt_rs.Freelist.Consistent.{pending_ids, AllPairs, AllEntries}
use bbolt_rs.Freelist.Pending.{pending_or_new}

module _ (P R : ℕ → ℕ → Type 0) where
  pub AllPairs-map :
      (ps as' : List ℕ)
      → ((q a : ℕ) → contains q ps ≡ true → P q a → R q a)
      → AllPairs P ps as'
      → AllPairs R ps as'
  unfolding contains
  AllPairs-map [] [] h k = tt
  AllPairs-map [] (a ∷ as') h k = absurd k
  AllPairs-map (p ∷ ps) [] h k = absurd k
  AllPairs-map (p ∷ ps) (a ∷ as') h (x, k) = (
    h p a (ground (arith, ==_self p)) x,
    AllPairs-map ps as' (λ q b e. h q b (ground (arith, e))) k,
  )

module _ (Q R : ℕ → ℕ → ℕ → Type 0) where
  pub AllEntries-map :
      (m : Map TxPending)
      → ((tid q a : ℕ) → 0 < count q (pending_ids m) → Q tid q a → R tid q a)
      → AllEntries Q m
      → AllEntries R m
  unfolding pending_ids
  AllEntries-map [] h k = tt
  AllEntries-map ((t, txp) ∷ m) h (x, k) = (
    AllPairs-map (Q t) (R t) txp.ids txp.alloc_tx
        (λ q a e.
          h t q a
            (ground (arith, contains-count q txp.ids, count-append q txp.ids (pending_ids m))))
        x,
    AllEntries-map m
        (λ tid q a pos. h tid q a (omega (arith, count-append q txp.ids (pending_ids m), pos))) k,
  )

  pub remove-AllEntries :
      (txid : ℕ) (m : Map TxPending)
      → ((tid q a : ℕ) → tid ≢ txid → Q tid q a → R tid q a)
      → AllEntries Q m
      → AllEntries R (remove txid m)
  unfolding remove
  remove-AllEntries txid [] h k = tt
  remove-AllEntries txid ((t, txp) ∷ m) h (x, k) = elim (Bool-cases (t == txid)) [
    | inl here ↦ rw here (remove-AllEntries txid m h k)
    | inr there ↦ rw there (
      AllPairs-map (Q t) (R t) txp.ids txp.alloc_tx (λ q a _. h t q a (λ e. absurd (ground arith)))
          x,
      remove-AllEntries txid m h k,
    )
  ]

-- The list of a transaction, which is empty where the map has none.
pub get-AllPairs :
    (Q : ℕ → ℕ → ℕ → Type 0) (txid : ℕ) (m : Map TxPending)
    → AllEntries Q m
    → let txp = pending_or_new (get txid m) in AllPairs (Q txid) txp.ids txp.alloc_tx
unfolding get pending_or_new
get-AllPairs Q txid [] h = tt
get-AllPairs Q txid ((t, txp) ∷ m) (p, h) = elim (Bool-cases (t == txid)) [
  | inl here ↦ ground (arith, p)
  | inr there ↦ rw there (get-AllPairs Q txid m h)
]

-- Pages that one transaction allocated come to the end of a list.
pub AllPairs-run :
    (P : ℕ → ℕ → Type 0) (a : ℕ) (ids as' new : List ℕ)
    → AllPairs P ids as'
    → ((q : ℕ) → contains q new ≡ true → P q a)
    → AllPairs P (ids ++ new) (as' ++ map (λ q. a) new)
unfolding contains
AllPairs-run P a [] [] [] h k = tt
AllPairs-run P a [] [] (n ∷ new) h k = (
  k n (ground (arith, ==_self n)),
  AllPairs-run P a [] [] new tt (λ q e. k q (ground (arith, e))),
)
AllPairs-run P a [] (b ∷ bs) new h k = absurd h
AllPairs-run P a (p ∷ ps) [] new h k = absurd h
AllPairs-run P a (p ∷ ps) (b ∷ bs) new (x, h) k = (x, AllPairs-run P a ps bs new h k)
