-- ===== src/System/Start.antt =====
-- A new database, once it is opened, keeps what the system promises.
use bbolt_rs.Prelude.{
  ℕ, ◌≡◌, refl, ◌⊎◌, inl, inr, true, none, some, List, [], arith, ◌==◌, contains, get, sort,
  Bool-cases, ==_self, done,
}
use bbolt_rs.Page.{is_free_list, mut_into}
use bbolt_rs.Meta.{Meta, sum64, validate, bytes_before_checksum, current_meta}
use bbolt_rs.Meta.Current.{IsValid, validate_meta_some}
use bbolt_rs.Meta.Commit.{newer}
use bbolt_rs.Freelist.{new, or_default}
use bbolt_rs.Freelist.Consistent.{pending_ids, IsConsistent}
use bbolt_rs.Freelist.Stored.{page_count, page_ids, read_page}
use bbolt_rs.Freelist.Index.{read_ids, init, reindex}
use bbolt_rs.Db.State.{Database, zeroed}
use bbolt_rs.Db.Open.{
  init_meta, init_meta_page, init_page, load_freelist, open_with, new_db, first_pages,
}
use bbolt_rs.System.Horizon.{IsSeen}
use bbolt_rs.System.Steps.{first_snapshot}
use bbolt_rs.System.Invariant.{horizon_of, IsSound}

pub new-IsConsistent : IsConsistent new
unfolding get contains pending_ids or_default
new-IsConsistent = record {
  wf = record {
    bounds = λ s n e. cc;
    apart = λ s n t m e e' lt. cc;
    ends = λ s n e. cc;
    starts = λ e n h. cc;
    sized = λ s n e. cc;
    spanned = λ s n e. cc;
    keys = tt;
    size_keys = tt;
  };
  pending_keys = tt;
  paired = tt;
  cached = λ p. (
    λ e. cc,
    λ either. elim either [ inl (s, n, e, _, _) ↦ cc | inr pos ↦ absurd (omega arith) ],
  );
  exclusive = λ p free. refl;
  once = λ p. omega arith;
  proper = λ p pos. absurd (omega arith);
}

module _ (fnv : List ℕ → ℕ) (page_size : ℕ) where
  loads : load_freelist (init_meta_page fnv page_size 1).meta (first_pages fnv page_size) ≡ done new
  unfolding load_freelist init_meta_page init_meta init_page mut_into zeroed read_page page_ids
      page_count sort read_ids init reindex is_free_list pending_ids
  loads = refl

  abbrev first_meta : Meta
  first_meta = (init_meta_page fnv page_size 0).meta

  abbrev second_meta : Meta
  second_meta = (init_meta_page fnv page_size 1).meta

  abbrev pub first_database : Database
  first_database = record {
    txs = [];
    rwtx = none;
    is_open = true;
    current = second_meta;
    freelist = new;
    meta0 = first_meta;
    meta1 = second_meta;
    freelist_pages = first_pages fnv page_size;
  }

  second_IsValid : IsValid fnv second_meta
  unfolding init_meta_page init_meta validate bytes_before_checksum
  second_IsValid = ground (arith, ==_self (sum64 fnv (init_meta page_size 1)))

  pub second_current : current_meta fnv first_meta second_meta ≡ done second_meta
  unfolding init_meta_page init_meta
  second_current = (newer fnv first_meta second_meta second_IsValid (omega arith)).0

  -- A database that `init_page` laid out opens without an error, with its second meta page current.
  pub new_db_lem :
      new_db fnv
        (init_page fnv page_size).page0.meta
        (init_page fnv page_size).page1.meta
        (first_pages fnv page_size)
      ≡ done (inr first_database)
  unfolding new_db open_with init_page
  new_db_lem =
      rw
        (
          validate_meta_some fnv first_meta second_meta (inr second_IsValid),
          second_current,
          new_db,
          loads,
        )
        refl

  first_seen : (r : ℕ) → IsSeen (horizon_of first_database none) r → r ≡ 1
  unfolding init_meta_page init_meta contains
  first_seen r (inl reads) = cc
  first_seen r (inr (lo, hi)) = omega arith

  first_pages_held : (r id o : ℕ) → first_snapshot r id ≡ some o → ((id ≡ 2) ⊎ (id ≡ 3)) × (o ≡ 0)
  first_pages_held r id o e = elim (Bool-cases (r == 1)) [
    | inl one ↦ elim (Bool-cases (id == 2)) [
      | inl two ↦ (inl (ground arith), ground arith)
      | inr other ↦ elim (Bool-cases (id == 3)) [
        | inl three ↦ (inr (ground arith), ground arith)
        | inr neither ↦ absurd (ground arith)
      ]
    ]
    | inr other ↦ absurd (ground arith)
  ]

  pub first-IsSound :
      IsSound fnv (record { db = first_database; writer = none; snapshot = first_snapshot })
  unfolding init_meta_page init_meta contains pending_ids get
  first-IsSound = record {
    safe = record {
      consistent = new-IsConsistent;
      entries = tt;
      unfree = λ r q seen holds (s, n, e, _, _). cc;
      booked = λ r id o a seen e e'. cc;
      known = λ q a e. cc;
      coherent = λ r r' i o j o' q seen seen' e e' at at'.
          ground (arith, first_pages_held r i o e, first_pages_held r' j o' e');
      bounded = λ r q seen (i, o, e, at). ground (arith, first_pages_held r i o e);
      tracked = λ q e. cc;
      listed = λ r o seen e. omega (arith, first_seen r seen);
      readers = λ r e. cc;
      ordered = (omega arith, omega arith, omega arith, omega arith);
      fits = (omega arith, omega arith);
    };
    stored = record {
      even = refl;
      odd = refl;
      current = second_current;
      magic = refl;
      version = refl;
    };
    writing = tt;
  }
