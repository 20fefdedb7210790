-- ===== src/Db/Open.antt =====
-- src/db.rs: the first pages of a new database, and how a database is opened.
use bbolt_rs.Prelude.{
  ℕ, ◌-◌, ◌/◌, true, none, some, List, [], ◌⊎◌, inl, inr, ◌==◌, if◌then◌else◌, Outcome, done, panic,
  ◌>>=◌,
}
use bbolt_rs.Page.{
  PageHeader, is_free_list, mut_into, meta_page_flag, free_list_page_flag, leaf_page_flag,
  page_header_size,
}
use bbolt_rs.Meta.{
  Meta, MetaPage, MetaError, magic_number, version_number, pgid_no_free_list, sum64, validate_meta,
  current_meta,
}
use bbolt_rs.Freelist.{Freelist}
use bbolt_rs.Freelist.Stored.{FreelistPage, read_page}
use bbolt_rs.Db.State.{Database, zeroed}

-- A page of the new file before its type is set.
abbrev blank_header : PageHeader
blank_header = record { id = 0; flags = 0; count = 0; overflow = 0 }

-- The fields of meta page `i` but the checksum.
unfoldable pub init_meta : ℕ → ℕ → Meta
init_meta page_size i = record {
  magic = magic_number;
  version = version_number;
  page_size = page_size;
  flags = 0;
  root = record { root = 3; sequence = 0 };
  free_list = 2;
  pgid = 4;
  txid = i;
  checksum = 0;
}

-- The four pages that `init_page` fills.
pub record InitialPages : Type 0 where
  pub page0 : MetaPage
  pub page1 : MetaPage
  pub page2 : FreelistPage
  pub page3 : PageHeader

pub data OpenError : Type 0 where
  invalid : MetaError → OpenError
  no_free_list : OpenError

-- `freelist` of a backend, at its first call.
unfoldable pub load_freelist : Meta → (ℕ → FreelistPage) → Outcome Freelist
load_freelist m pages =
    let page = pages m.free_list in if is_free_list page.header then read_page page else panic

unfoldable pub open_with : Meta → Meta → (ℕ → FreelistPage) → Meta → Outcome (OpenError ⊎ Database)
unfolding load_freelist
open_with meta0 meta1 pages m =
    if m.free_list == pgid_no_free_list then done (inl no_free_list) else (do
      freelist ← load_freelist m pages
      done (
          inr (record {
            txs = [];
            rwtx = none;
            is_open = true;
            current = m;
            freelist = freelist;
            meta0 = meta0;
            meta1 = meta1;
            freelist_pages = pages;
          })))

module _ (fnv : List ℕ → ℕ) where
  unfoldable pub init_meta_page : ℕ → ℕ → MetaPage
  unfolding init_meta mut_into
  init_meta_page page_size i = record {
    page = record (mut_into meta_page_flag blank_header) { id = i; count = 0; overflow = 0 };
    meta = record (init_meta page_size i) { checksum = sum64 fnv (init_meta page_size i) };
  }

  unfoldable pub init_page : ℕ → InitialPages
  unfolding init_meta_page mut_into zeroed
  init_page page_size = record {
    page0 = init_meta_page page_size 0;
    page1 = init_meta_page page_size 1;
    page2 = record {
      header = record (mut_into free_list_page_flag blank_header) {
        id = 2;
        count = 0;
        overflow = 0;
      };
      words = zeroed ((page_size - page_header_size) / 8);
    };
    page3 = record (mut_into leaf_page_flag blank_header) { id = 3; count = 0; overflow = 0 };
  }

  -- `new_db`, with the freelist loaded at once.
  unfoldable pub new_db : Meta → Meta → (ℕ → FreelistPage) → Outcome (OpenError ⊎ Database)
  unfolding open_with
  new_db meta0 meta1 pages = elim (validate_meta fnv meta0 meta1) [
    | some e ↦ done (inl (invalid e))
    | none ↦ (do m ← current_meta fnv meta0 meta1; open_with meta0 meta1 pages m)
  ]

  -- The backend's freelist pages in a new database.
  abbrev pub first_pages : ℕ → ℕ → FreelistPage
  first_pages page_size id = (init_page page_size).page2
