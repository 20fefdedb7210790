-- ===== src/System/Invariant.antt =====
-- What every reachable state of the system keeps.
use bbolt_rs.Prelude.{
  ℕ, ◌+◌, ◌%◌, ◌≤◌, ◌≡◌, true, false, Option, none, some, List, if◌then◌else◌, done,
}
use bbolt_rs.Meta.{Meta, magic_number, version_number, current_meta}
use bbolt_rs.Db.State.{Database}
use bbolt_rs.System.Horizon.{Horizon, IsSeen, Snapshots, IsSafe}
use bbolt_rs.System.Steps.{Writer, System}

abbrev pub horizon_of : Database → Option Writer → Horizon
horizon_of d none = record {
  txs = d.txs;
  current = d.current.txid;
  last = d.current.txid;
  newest = d.current.txid;
  high = d.current.pgid;
  list = d.current.free_list;
}
horizon_of d (some w) = record {
  txs = d.txs;
  current = d.current.txid;
  last = w.meta.txid;
  newest = if w.grown then w.meta.txid else d.current.txid;
  high = w.meta.pgid;
  list = d.current.free_list;
}

abbrev pub horizon : System → Horizon
horizon s = horizon_of s.db s.writer

-- The writer's id comes next; what it has not allocated, its meta does not count; and its freelist
-- page, once it has one, is in no other snapshot.
abbrev pub IsWriter : Horizon → Snapshots → Meta → Option Writer → Type 0
IsWriter h snap c none = Unit {0}
IsWriter h snap c (some w) =
    (w.meta.txid ≡ c.txid + 1)
    × (w.meta.magic ≡ magic_number)
    × (w.meta.version ≡ version_number)
    × (w.grown ≡ false → w.meta.pgid ≡ c.pgid)
    × (w.listed ≡ true
        → (r o : ℕ) → IsSeen h r
        → snap r w.meta.free_list ≡ some o
        → w.meta.txid ≤ r)

-- The two metas of the backend, and the current one.
pub record IsStored (fnv : List ℕ → ℕ) (d : Database) : Type 0 where
  pub even : d.meta0.txid % 2 ≡ 0
  pub odd : d.meta1.txid % 2 ≡ 1
  pub current : current_meta fnv d.meta0 d.meta1 ≡ done d.current
  pub magic : d.current.magic ≡ magic_number
  pub version : d.current.version ≡ version_number

pub record IsSound (fnv : List ℕ → ℕ) (s : System) : Type 0 where
  pub safe : IsSafe (horizon s) s.snapshot s.db.freelist
  pub stored : IsStored fnv s.db
  pub writing : IsWriter (horizon s) s.snapshot s.db.current s.writer
