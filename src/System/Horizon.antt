-- ===== src/System/Horizon.antt =====
-- What the freelist promises to those who read snapshots. A snapshot is the pages that a committed
-- transaction reaches, by the page's id the number of its overflow pages.
use bbolt_rs.Prelude.{ℕ, ◌-◌, ◌≤◌, ◌<◌, ◌≡◌, ◌⊎◌, true, Option, some, List, get, contains, u64_mod}
use bbolt_rs.Freelist.{Freelist}
use bbolt_rs.Freelist.Spans.{IsFree}
use bbolt_rs.Freelist.Consistent.{AllEntries, IsConsistent}
use bbolt_rs.Freelist.Pending.Free.{in_run}

abbrev pub Snapshots : Type 0
Snapshots = ℕ → ℕ → Option ℕ

-- The open readers, the current transaction id, the last id in use, which is the writer's where there
-- is one, the newest id that may have allocated a page, the high water mark and the freelist's page.
pub record Horizon : Type 0 where
  pub txs : List ℕ
  pub current : ℕ
  pub last : ℕ
  pub newest : ℕ
  pub high : ℕ
  pub list : ℕ

-- Somebody reads the snapshot, or may begin to.
abbrev pub IsSeen : Horizon → ℕ → Type 0
IsSeen h r = (contains r h.txs ≡ true) ⊎ ((h.current ≤ r) × (r ≤ h.last))

abbrev pub Holds : Snapshots → ℕ → ℕ → Type 0
Holds snap r q = (id : ℕ) × (o : ℕ) × (snap r id ≡ some o) × (in_run id o q ≡ true)

-- `tid` freed the page `q`, which `a` allocated (0 if that is not known).
abbrev pub IsPendable : Horizon → Snapshots → ℕ → ℕ → ℕ → Type 0
IsPendable h snap tid q a =
    (tid ≤ h.last) × (a ≤ h.newest) × ((r : ℕ) → IsSeen h r → Holds snap r q → (a ≤ r) × (r < tid))

pub record IsSafe (h : Horizon) (snap : Snapshots) (f : Freelist) : Type 0 where
  pub consistent : IsConsistent f
  pub entries : AllEntries (IsPendable h snap) f.pending
  pub unfree : (r q : ℕ) → IsSeen h r → Holds snap r q → ¬ IsFree f q
  pub booked : (r id o a : ℕ) → IsSeen h r → snap r id ≡ some o → get id f.allocs ≡ some a → a ≤ r
  pub known : (q a : ℕ) → get q f.allocs ≡ some a → a ≤ h.newest
  pub coherent :
      (r r' i o j o' q : ℕ)
      → IsSeen h r
      → IsSeen h r'
      → snap r i ≡ some o
      → snap r' j ≡ some o'
      → in_run i o q ≡ true
      → in_run j o' q ≡ true
      → (i ≡ j) × (o ≡ o')
  pub bounded : (r q : ℕ) → IsSeen h r → Holds snap r q → (1 < q) × (q < h.high)
  pub tracked : (q : ℕ) → contains q f.cache ≡ true → (1 < q) × (q < h.high)
  pub listed : (r o : ℕ) → IsSeen h r → snap r h.list ≡ some o → h.current ≤ r
  pub readers : (r : ℕ) → contains r h.txs ≡ true → (0 < r) × (r ≤ h.current)
  pub ordered :
      (0 < h.current) × (h.current ≤ h.newest) × (h.newest ≤ h.last) × (h.last < u64_mod - 1)
  pub fits : (1 < h.high) × (h.high < u64_mod)
