-- ===== src/Db/Ending.antt =====
-- `begin_rw_tx` and `remove_rw_tx` of src/db.rs, where they end without a panic.
use bbolt_rs.Prelude.{
  ℕ, ◌+◌, ◌<◌, ◌≡◌, refl, inl, inr, false, none, some, List, if◌then◌else◌, add_u64_lem, u64_mod,
  done, Bool-cases,
}
use bbolt_rs.Meta.{Meta, current_meta}
use bbolt_rs.Freelist.{Freelist}
use bbolt_rs.Freelist.Pending.{rollback}
use bbolt_rs.Db.{free_pages}
use bbolt_rs.Db.State.{
  Database, TxClosingState, rolled_back, explicit_rollback, physical_rollback, commit, is_rollback,
  is_physical_rollback, begin_rw_tx, closed_freelist, remove_rw_tx,
}

-- On an open database whose reclaiming ends without a panic, the writer's id is the one after the
-- current one.
pub begin_rw_tx_lem :
    (d d' : Database) (m : Meta) (g : Freelist) (txs : List ℕ)
    → free_pages d.freelist d.txs ≡ done (g, txs)
    → d.current.txid + 1 < u64_mod
    → begin_rw_tx d ≡ done (some (d', m))
    → (record d { txs = txs; freelist = g; rwtx = some (d.current.txid + 1) } ≡ d')
      × (record d.current { txid = d.current.txid + 1 } ≡ m)
unfolding begin_rw_tx
begin_rw_tx_lem d d' m g txs run small e = elim (Bool-cases d.is_open) [
  | inl ready ↦ let e' = rw (ready, run, add_u64_lem d.current.txid 1 small) at e in (cc, cc)
  | inr closed ↦ let e' = rw closed at e in cc
]

-- The freelist is kept by a commit, and rolled back by a rollback that is not physical.
pub closed_freelist_lem :
    (fnv : List ℕ → ℕ) (d : Database) (closing : TxClosingState) (txid : ℕ)
    → is_physical_rollback closing ≡ false
    → closed_freelist fnv d closing txid
      ≡ done (if is_rollback closing then rollback d.freelist txid else d.freelist)
unfolding closed_freelist is_rollback is_physical_rollback
closed_freelist_lem fnv d rolled_back txid e = refl
closed_freelist_lem fnv d explicit_rollback txid e = refl
closed_freelist_lem fnv d physical_rollback txid e = absurd cc
closed_freelist_lem fnv d commit txid e = refl

pub remove_rw_tx_lem :
    (fnv : List ℕ → ℕ) (d d' : Database) (closing : TxClosingState) (txid : ℕ) (c : Meta)
    → is_physical_rollback closing ≡ false
    → current_meta fnv d.meta0 d.meta1 ≡ done c
    → remove_rw_tx fnv d closing txid ≡ done d'
    → record d {
      freelist = if is_rollback closing then rollback d.freelist txid else d.freelist;
      current = c;
      rwtx = none;
    }
      ≡ d'
unfolding remove_rw_tx
remove_rw_tx_lem fnv d d' closing txid c soft now e =
    let e' = rw (closed_freelist_lem fnv d closing txid soft, now) at e in cc
