-- ===== src/Freelist.antt =====
-- src/freelist.rs: the list of pages that are free, and of those that a transaction has freed and
-- that a reader may still see. Page and transaction ids are the `u64` inside `PgId` and `TxId`.
-- A hash map or set is the list of its entries; where the source takes the first entry of an
-- iteration, so does the model, at whatever order the list has. The children hold the proofs.
pub mod Spans
pub mod AddSpan
pub mod Merge
pub mod Allocate
pub mod Pending
pub mod Consistent
pub mod Booking
pub mod Index
pub mod Stored
use bbolt_rs.Prelude.{
  ℕ, zero, suc, ◌+◌, Bool, true, false, ◌&&◌, ◌||◌, not, Option, none, some, List, [], ◌∷◌, ◌++◌,
  map, ltb, leb, ◌==◌, if◌then◌else◌, length, get_elem?, add_u64, sub_u64, Map, get, insert, remove,
  contains, delete, sort, Outcome, done, panic, ◌>>=◌,
}

pub record TxPending : Type 0 where
  pub ids : List ℕ
  pub alloc_tx : List ℕ
  pub last_release_begin : ℕ

abbrev pub new_pending : TxPending
new_pending = record { ids = []; alloc_tx = []; last_release_begin = 0 }

pub record Freelist : Type 0 where
  pub allocs : Map ℕ
  pub pending : Map TxPending
  pub cache : List ℕ
  pub free_maps : Map (List ℕ)
  pub forward_map : Map ℕ
  pub backward_map : Map ℕ

abbrev pub new : Freelist
new = record {
  allocs = [];
  pending = [];
  cache = [];
  free_maps = [];
  forward_map = [];
  backward_map = [];
}

-- `HashSet::insert`.
unfoldable pub set_insert : ℕ → List ℕ → List ℕ
set_insert a xs = if contains a xs then xs else a ∷ xs

-- `entry(k).or_default()`, read.
unfoldable pub or_default : Option (List ℕ) → List ℕ
or_default none = []
or_default (some xs) = xs

-- The entry for `size` after `start` is taken from its set.
unfoldable pub shrink_entry : ℕ → List ℕ → Map (List ℕ) → Map (List ℕ)
shrink_entry size [] m = remove size m
shrink_entry size (x ∷ xs) m = insert size (x ∷ xs) m

unfoldable pub del_entry : ℕ → ℕ → Map (List ℕ) → Map (List ℕ)
unfolding shrink_entry
del_entry start size m = elim (get size m) [
  | none ↦ m
  | some pids ↦ shrink_entry size (delete start pids) m
]

unfoldable pub del_span : Freelist → ℕ → ℕ → Freelist
del_span f start size = record f {
  forward_map = remove start f.forward_map;
  backward_map = remove (add_u64 start (sub_u64 size 1)) f.backward_map;
  free_maps = del_entry start size f.free_maps;
}

unfoldable pub add_entry : ℕ → ℕ → Map (List ℕ) → Map (List ℕ)
add_entry start size m = insert size (set_insert start (or_default (get size m))) m

unfoldable pub add_span : Freelist → ℕ → ℕ → Freelist
add_span f start size = record f {
  backward_map = insert (add_u64 (sub_u64 start 1) size) size f.backward_map;
  forward_map = insert start size f.forward_map;
  free_maps = add_entry start size f.free_maps;
}

-- The pages `start + i` for `i` in `i .. i + n`.
unfoldable pub pages_from : ℕ → ℕ → ℕ → List ℕ
pages_from start i zero = []
pages_from start i (suc n) = add_u64 start i ∷ pages_from start (suc i) n

-- `for id in ids { set.remove(&id) }`.
unfoldable pub delete_all : List ℕ → List ℕ → List ℕ
delete_all [] cache = cache
delete_all (p ∷ ps) cache = delete_all ps (delete p cache)

unfoldable pub first {ℓ} : {A : Type ℓ} → List A → Option A
first [] = none
first (x ∷ xs) = some x

-- The spans of at least `n` pages, in the order of iteration.
unfoldable pub spans_of_at_least : ℕ → Map (List ℕ) → List (ℕ × ℕ)
spans_of_at_least n [] = []
spans_of_at_least n ((size, pgids) ∷ m) =
    (if leb n size then map (λ p. (size, p)) pgids else []) ++ spans_of_at_least n m

-- A span of exactly the wanted size.
unfoldable pub take_exact : Freelist → ℕ → ℕ → ℕ → Freelist
unfolding del_span
take_exact f txid n pgid = record taken {
  allocs = insert pgid txid taken.allocs;
  cache = delete_all (pages_from pgid 0 n) taken.cache;
}
  where
    taken : Freelist
    taken = del_span f pgid n

-- The first pages of a larger span.
unfoldable pub take_larger : Freelist → ℕ → ℕ → ℕ → ℕ → Freelist
unfolding del_span add_span
take_larger f txid n size pgid = record rest {
  allocs = insert pgid txid rest.allocs;
  cache = delete_all (pages_from pgid 0 n) rest.cache;
}
  where
    rest : Freelist
    rest = add_span (del_span f pgid size) (add_u64 pgid n) (sub_u64 size n)

unfoldable pub allocate_larger : Freelist → ℕ → ℕ → Option (ℕ × ℕ) → Freelist × Option ℕ
allocate_larger f txid n none = (f, none)
allocate_larger f txid n (some (size, pgid)) = (take_larger f txid n size pgid, some pgid)

unfoldable pub allocate_from : Freelist → ℕ → ℕ → Option ℕ → Freelist × Option ℕ
unfolding allocate_larger
allocate_from f txid n (some pgid) = (take_exact f txid n pgid, some pgid)
allocate_from f txid n none = allocate_larger f txid n (first (spans_of_at_least n f.free_maps))

unfoldable pub allocate : Freelist → ℕ → ℕ → Freelist × Option ℕ
unfolding allocate_from
allocate f txid n =
    if n == 0 then (f, none) else allocate_from f txid n (first (or_default (get n f.free_maps)))

-- The span that ends just before `pid` is taken out: the state, the new start and the new size.
unfoldable pub merge_backward : Freelist → ℕ → Option ℕ → Freelist × ℕ × ℕ
merge_backward f pid none = (f, pid, 1)
merge_backward f pid (some pre_size) = (
  del_span f (sub_u64 (add_u64 (sub_u64 pid 1) 1) pre_size) pre_size,
  sub_u64 pid pre_size,
  add_u64 1 pre_size,
)

unfoldable pub merge_forward : Freelist × ℕ × ℕ → ℕ → Option ℕ → Freelist
merge_forward (f, start, size) next none = add_span f start size
merge_forward (f, start, size) next (some next_size) =
    add_span (del_span f next next_size) start (add_u64 size next_size)

unfoldable pub merge_with_existing_span : Freelist → ℕ → Freelist
unfolding merge_backward merge_forward
merge_with_existing_span f pid =
    let back = merge_backward f pid (get (sub_u64 pid 1) f.backward_map) in
    merge_forward back (add_u64 pid 1) (get (add_u64 pid 1) (back.0).forward_map)

unfoldable pub merge_spans : Freelist → List ℕ → Freelist
unfolding merge_with_existing_span
merge_spans f [] = f
merge_spans f (pgid ∷ pgids) = merge_spans (merge_with_existing_span f pgid) pgids
