-- ===== src/Freelist/Index.antt =====
-- The free pages of src/freelist.rs as one list: counting and listing them, building the spans from
-- a list of ids, and the cache.
pub mod Listing
pub mod Build
pub mod Reload
use bbolt_rs.Prelude.{
  ℕ, ◌+◌, Bool, true, false, ◌&&◌, not, List, [], ◌∷◌, ◌++◌, ltb, leb, ◌==◌, if◌then◌else◌, length,
  add_u64, Map, contains, sort, Outcome, done, panic, ◌>>=◌, ◌*◌,
}
use bbolt_rs.Page.{page_header_size}
use bbolt_rs.Freelist.{Freelist, TxPending, set_insert, pages_from, add_span}
use bbolt_rs.Freelist.Consistent.{pending_ids}

-- `values().sum()`.
unfoldable pub sum_values : Map ℕ → ℕ
sum_values [] = 0
sum_values ((start, size) ∷ m) = add_u64 size (sum_values m)

unfoldable pub free_count : Freelist → ℕ
unfolding sum_values
free_count f = sum_values f.forward_map

unfoldable pub sum_pending : Map TxPending → ℕ
sum_pending [] = 0
sum_pending ((tid, txp) ∷ m) = add_u64 (length txp.ids) (sum_pending m)

unfoldable pub pending_count : Freelist → ℕ
unfolding sum_pending
pending_count f = sum_pending f.pending

unfoldable pub count_all : Freelist → ℕ
unfolding free_count pending_count
count_all f = add_u64 (free_count f) (pending_count f)

-- The pages of every span, in the order of iteration.
unfoldable pub span_pages : Map ℕ → List ℕ
span_pages [] = []
span_pages ((start, size) ∷ m) = pages_from start 0 size ++ span_pages m

unfoldable pub free_page_ids : Freelist → List ℕ
unfolding free_count span_pages
free_page_ids f = if ltb 0 (free_count f) then sort (span_pages f.forward_map) else []

-- `for id in ids { set.insert(id) }`.
unfoldable pub insert_all : List ℕ → List ℕ → List ℕ
unfolding set_insert
insert_all [] cache = cache
insert_all (p ∷ ps) cache = insert_all ps (set_insert p cache)

unfoldable pub reindex : Freelist → Freelist
unfolding insert_all free_page_ids
reindex f = record f {
  cache = insert_all (pending_ids f.pending) (insert_all (free_page_ids f) []);
}

-- src/common/utility.rs.
unfoldable pub is_sorted : List ℕ → Bool
is_sorted [] = true
is_sorted (x ∷ []) = true
is_sorted (x ∷ y ∷ xs) = leb x y && is_sorted (y ∷ xs)

-- The loop of `init` over the ids after the first, and the span that is left over.
unfoldable pub build : Freelist → ℕ → ℕ → ℕ → List ℕ → Freelist
build f start size prev [] =
    if not (size == 0) && not (start == 0) then add_span f start size else f
build f start size prev (id ∷ ids) =
    let next = id == add_u64 prev 1 in
    build (if next then f else add_span f start size) (if next then start else id)
      (if next then add_u64 size 1 else 1) id ids

unfoldable pub init : Freelist → List ℕ → Outcome Freelist
unfolding build is_sorted
init f [] = done f
init f (id ∷ ids) =
    if is_sorted (id ∷ ids)
    then (done
        (build (record f { free_maps = []; forward_map = []; backward_map = [] }) id 1 id ids))
    else panic

unfoldable pub read_ids : Freelist → List ℕ → Outcome Freelist
unfolding init reindex
read_ids f ids = do g ← init f ids; done (reindex g)

-- The ids that the set does not hold.
unfoldable pub exclude : List ℕ → List ℕ → List ℕ
exclude set [] = []
exclude set (id ∷ ids) = if contains id set then exclude set ids else id ∷ exclude set ids

-- `reload`, from the ids of the freelist page.
unfoldable pub reload : Freelist → List ℕ → Outcome Freelist
unfolding read_ids exclude
reload f page_ids = do
  g ← read_ids f page_ids
  read_ids g (exclude (pending_ids g.pending) (free_page_ids g))

-- The bytes of the page after serialization.
unfoldable pub size : Freelist → ℕ
unfolding count_all
size f = let n = count_all f in page_header_size + 8 * (if leb 0xFFFF n then add_u64 n 1 else n)
