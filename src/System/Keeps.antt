-- ===== src/System/Keeps.antt =====
-- Every step of the system keeps what it promises: the readers' steps.
use bbolt_rs.Prelude.{
  ℕ, ◌≤◌, ◌<◌, ◌≡◌, refl, ◌⊎◌, inl, inr, true, Option, none, some, List, [], ◌∷◌, ◌++◌, arith,
  contains, contains-count, contains-append, Bool-cases,
}
use bbolt_rs.Db.State.{Database, remove_tx}
use bbolt_rs.Db.Readers.{remove_tx-count}
use bbolt_rs.System.Horizon.{IsSeen, Snapshots, IsSafe}
use bbolt_rs.System.Reading.{IsSafe-seen}
use bbolt_rs.System.Steps.{Writer, System}
use bbolt_rs.System.Invariant.{horizon_of, IsWriter, IsStored, IsSound}

module _ (d : Database) (txs : List ℕ)
    (known : (r : ℕ)
      → contains r txs ≡ true
      → (contains r d.txs ≡ true) ⊎ (r ≡ d.current.txid)) where
  abbrev with_txs : Database
  with_txs = record d { txs = txs }

  fewer-IsSeen :
      (w : Option Writer) (snap : Snapshots)
      → IsSafe (horizon_of d w) snap d.freelist
      → (r : ℕ) → IsSeen (horizon_of with_txs w) r
      → IsSeen (horizon_of d w) r
  fewer-IsSeen none snap s r (inl reads) = elim (known r reads) [
    | inl old ↦ inl old
    | inr at ↦ inr (omega arith, omega arith)
  ]
  fewer-IsSeen none snap s r (inr b) = inr b
  fewer-IsSeen (some w) snap s r (inl reads) = elim (known r reads) [
    | inl old ↦ inl old
    | inr at ↦ inr (omega arith, omega (arith, s.ordered))
  ]
  fewer-IsSeen (some w) snap s r (inr b) = inr b

  still_old :
      (w : Option Writer) (snap : Snapshots)
      → IsSafe (horizon_of d w) snap d.freelist
      → (r : ℕ) → contains r txs ≡ true
      → (0 < r) × (r ≤ d.current.txid)
  still_old none snap s r reads = elim (known r reads) [
    | inl old ↦ s.readers r old
    | inr at ↦ ground (arith, s.ordered)
  ]
  still_old (some w) snap s r reads = elim (known r reads) [
    | inl old ↦ s.readers r old
    | inr at ↦ ground (arith, s.ordered)
  ]

  reads-IsSafe :
      (w : Option Writer) (snap : Snapshots)
      → IsSafe (horizon_of d w) snap d.freelist
      → IsSafe (horizon_of with_txs w) snap d.freelist
  reads-IsSafe none snap s =
      IsSafe-seen (horizon_of d none) (horizon_of with_txs none) snap d.freelist s
        (fewer-IsSeen none snap s) refl refl (omega arith, omega arith) (ground (arith, s.ordered))
        (λ r o seen. s.listed r o (fewer-IsSeen none snap s r seen)) (still_old none snap s)
  reads-IsSafe (some w) snap s =
      IsSafe-seen (horizon_of d (some w)) (horizon_of with_txs (some w)) snap d.freelist s
        (fewer-IsSeen (some w) snap s) refl refl (omega arith, ground (arith, s.ordered))
        (ground (arith, s.ordered)) (λ r o seen. s.listed r o (fewer-IsSeen (some w) snap s r seen))
        (still_old (some w) snap s)

  reads-IsWriter :
      (w : Option Writer) (snap : Snapshots)
      → IsSafe (horizon_of d w) snap d.freelist
      → IsWriter (horizon_of d w) snap d.current w
      → IsWriter (horizon_of with_txs w) snap d.current w
  reads-IsWriter none snap s h = tt
  reads-IsWriter (some w) snap s (a, b, c, e, own) =
      (a, b, c, e, λ listed r o seen. own listed r o (fewer-IsSeen (some w) snap s r seen))

  reads-IsStored : (fnv : List ℕ → ℕ) → IsStored fnv d → IsStored fnv with_txs
  reads-IsStored fnv x = record {
    even = x.even;
    odd = x.odd;
    current = x.current;
    magic = x.magic;
    version = x.version;
  }

-- The open read transactions change: others than before have the current snapshot.
pub reads-IsSound :
    (fnv : List ℕ → ℕ) (s : System) (txs : List ℕ)
    → IsSound fnv s
    → ((r : ℕ) → contains r txs ≡ true → (contains r s.db.txs ≡ true) ⊎ (r ≡ s.db.current.txid))
    → IsSound fnv (record s { db = record s.db { txs = txs } })
reads-IsSound fnv s txs x known = record {
  safe = reads-IsSafe s.db txs known s.writer s.snapshot x.safe;
  stored = reads-IsStored s.db txs known fnv x.stored;
  writing = reads-IsWriter s.db txs known s.writer s.snapshot x.safe x.writing;
}

pub opened_lem :
    (d : Database) (r : ℕ)
    → contains r (d.txs ++ d.current.txid ∷ []) ≡ true
    → (contains r d.txs ≡ true) ⊎ (r ≡ d.current.txid)
unfolding contains
opened_lem d r e = elim (Bool-cases (contains r d.txs)) [
  | inl old ↦ inl old
  | inr new ↦ inr (ground (arith, contains-append r d.txs (d.current.txid ∷ [])))
]

pub closed_lem :
    (d : Database) (q r : ℕ) → contains r (remove_tx d q).txs ≡ true → contains r d.txs ≡ true
closed_lem d q r e =
    ground
      (arith, remove_tx-count d q r, contains-count r d.txs, contains-count r (remove_tx d q).txs)
