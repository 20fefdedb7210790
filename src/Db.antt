-- ===== src/Db.antt =====
-- src/db.rs: how the database reclaims pages before a write transaction begins. The ids of the open
-- read transactions are `DbState.txs`.
pub mod Reclaim
pub mod State
pub mod Open
pub mod Readers
pub mod Ending
pub mod MmapSize
pub mod Stored
pub mod Batch
use bbolt_rs.Prelude.{
  ℕ, List, [], ◌∷◌, ltb, if◌then◌else◌, add_u64, sub_u64, sort, Outcome, done, ◌>>=◌, u64_mod, ◌-◌,
}
use bbolt_rs.Freelist.{Freelist}
use bbolt_rs.Freelist.Pending.{release, release_range}

-- `TxId(0xFFFFFFFFFFFFFFFF)`.
abbrev pub max_txid : ℕ
max_txid = u64_mod - 1

unfoldable pub first_or : List ℕ → ℕ → ℕ
first_or [] d = d
first_or (t ∷ ts) d = t

-- The loop over the open transactions, and the last extent after it.
unfoldable pub release_extents : Freelist → List ℕ → ℕ → Outcome Freelist
release_extents f [] min_id = release_range f min_id max_txid
release_extents f (t ∷ ts) min_id = do
  g ← release_range f min_id (sub_u64 t 1)
  release_extents g ts (add_u64 t 1)

-- The freelist and the sorted list of open transactions.
unfoldable pub free_pages : Freelist → List ℕ → Outcome (Freelist × List ℕ)
unfolding first_or
free_pages f txs =
    let sorted = sort txs in
    let min_id = first_or sorted max_txid in
    (do
      g ← release_extents (if ltb 0 min_id then release f (sub_u64 min_id 1) else f) sorted min_id
      done (g, sorted))
