-- ===== src/Tests/MetaTests.antt =====
-- The meta pages at concrete states, with the number of bytes for the hash.
use mathlib.Core.Path.{◌≡◌, refl}
use bbolt_rs.Prelude.{ℕ, ◌≤◌, ◌⊎◌, none, some, List, done, panic, length}
use bbolt_rs.Meta.{
  Meta, MetaPage, le_bytes, bytes_before_checksum, magic_number, version_number, validate,
  validate_meta, choose, current_meta, checksum_mismatch,
}
use bbolt_rs.Meta.Current.{IsValid, current_meta_lem}

abbrev hash : List ℕ → ℕ
hash = length

abbrev meta_of : ℕ → ℕ → Meta
meta_of txid checksum = record {
  magic = magic_number;
  version = version_number;
  page_size = 4096;
  flags = 0;
  root = record { root = 3; sequence = 0 };
  free_list = 2;
  pgid = 4;
  txid = txid;
  checksum = checksum;
}

abbrev blank : MetaPage
blank = record { page = record { id = 0; flags = 0; count = 0; overflow = 0 }; meta = meta_of 0 0 }

current_runs : current_meta hash (meta_of 6 56) (meta_of 5 56) ≡ done (meta_of 6 56)
unfolding current_meta choose validate bytes_before_checksum le_bytes
current_runs = refl

torn_runs : validate hash (meta_of 6 0) ≡ some checksum_mismatch
unfolding validate bytes_before_checksum le_bytes
torn_runs = refl

current_meta_lem_example :
    ((m : Meta) × (current_meta hash (meta_of 6 56) (meta_of 5 56) ≡ done m)
      × IsValid hash m
      × ((m ≡ meta_of 6 56) ⊎ (m ≡ meta_of 5 56))
      × (IsValid hash (meta_of 6 56) → 6 ≤ m.txid)
      × (IsValid hash (meta_of 5 56) → 5 ≤ m.txid)
      × (validate_meta hash (meta_of 6 56) (meta_of 5 56) ≡ none))
    ⊎ ((current_meta hash (meta_of 6 56) (meta_of 5 56) ≡ panic)
        × (¬ IsValid hash (meta_of 6 56))
        × (¬ IsValid hash (meta_of 5 56))
        × (validate_meta hash (meta_of 6 56) (meta_of 5 56) ≡ validate hash (meta_of 6 56)))
current_meta_lem_example = current_meta_lem hash (meta_of 6 56) (meta_of 5 56)
