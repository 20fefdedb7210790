-- ===== src/Freelist/Stored.antt =====
-- The freelist page of src/freelist.rs: `MappedFreeListPage`, `copy_all`, `read` and `write`. The
-- page is its header and the 64-bit words after it, as many as its memory has. `kmerge` of the crate
-- `itertools`, which merges sorted lists, is a parameter.
pub mod RoundTrip
use bbolt_rs.Prelude.{
  ℕ, ◌+◌, ◌∷◌, [], List, leb, ltb, ◌==◌, if◌then◌else◌, take, drop, get_or, sort, ◌++◌, Outcome,
  done, panic, ◌>>=◌,
}
use bbolt_rs.Page.{PageHeader}
use bbolt_rs.Freelist.{Freelist, new}
use bbolt_rs.Freelist.Consistent.{pending_ids}
use bbolt_rs.Freelist.Index.{count_all, free_page_ids, read_ids}

pub record FreelistPage : Type 0 where
  pub header : PageHeader
  pub words : List ℕ

abbrev pub u16_max : ℕ
u16_max = 65535

abbrev pub u32_max : ℕ
u32_max = 4294967295

-- The index of the first id among the words, and the number of ids.
unfoldable pub page_count : FreelistPage → Outcome (ℕ × ℕ)
page_count p =
    if p.header.count == u16_max
    then (if ltb u32_max (get_or p.words 0 0) then panic else done (1, get_or p.words 0 0))
    else done (0, p.header.count)

unfoldable pub page_ids : FreelistPage → Outcome (List ℕ)
page_ids p = do (idx, count) ← page_count p; done (take count (drop idx p.words))

-- The page with its header set, and the index of the first word of the slice.
unfoldable pub page_ids_mut : ℕ → FreelistPage → FreelistPage × ℕ
page_ids_mut count p =
    if count == 0
    then (record p { header = record p.header { count = 0 } }, 0)
    else if ltb count u16_max
    then (record p { header = record p.header { count = count } }, 0)
    else (
      record p { header = record p.header { count = u16_max }; words = count ∷ drop 1 p.words },
      1,
    )

-- `dst[i] = id` for each id in turn.
unfoldable pub fill : List ℕ → List ℕ → Outcome (List ℕ)
fill dst [] = done dst
fill [] (id ∷ ids) = panic
fill (d ∷ dst) (id ∷ ids) = do rest ← fill dst ids; done (id ∷ rest)

-- `MappedFreeListPage::read`.
unfoldable pub read_page : FreelistPage → Outcome Freelist
read_page p = do ids ← page_ids p; read_ids new (sort ids)

unfoldable pub read : Freelist → FreelistPage → Outcome Freelist
read f p = do ids ← page_ids p; read_ids f ids

module _ (kmerge : List ℕ → List ℕ → List ℕ) where
  unfoldable pub merge_pids : List ℕ → List ℕ → List ℕ → Outcome (List ℕ)
  merge_pids dst a b = fill dst (kmerge a b)

  unfoldable pub copy_all : Freelist → List ℕ → Outcome (List ℕ)
  copy_all f dst = merge_pids dst (free_page_ids f) (sort (pending_ids f.pending))

  unfoldable pub write_page : Freelist → FreelistPage → Outcome FreelistPage
  write_page f p =
      let n = count_all f in
      let (g, idx) = page_ids_mut n p in
      if n == 0 then done g else (do
        ids ← copy_all f (take n (drop idx g.words))
        done (record g { words = take idx g.words ++ ids ++ drop (idx + n) g.words }))
