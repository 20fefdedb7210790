-- ===== src/Meta.antt =====
-- src/common/meta.rs and src/common/bucket.rs, and the choice between the two meta pages in
-- src/db.rs. The FNV hash of the crate `fnv_rs` is the parameter `fnv`, a function of the bytes.
pub mod Current
pub mod Commit
use bbolt_rs.Prelude.{
  ℕ, zero, suc, ◌-◌, ◌%◌, ◌/◌, Bool, true, false, ◌&&◌, ◌||◌, not, Option, none, some, List, [],
  ◌∷◌, ◌++◌, leb, ltb, ◌==◌, if◌then◌else◌, Outcome, done, panic, u64_mod,
}
use bbolt_rs.Page.{PageHeader, set_meta}

pub record BucketHeader : Type 0 where
  pub root : ℕ
  pub sequence : ℕ

pub record Meta : Type 0 where
  pub magic : ℕ
  pub version : ℕ
  pub page_size : ℕ
  pub flags : ℕ
  pub root : BucketHeader
  pub free_list : ℕ
  pub pgid : ℕ
  pub txid : ℕ
  pub checksum : ℕ

-- Without the feature `compat`.
abbrev pub magic_number : ℕ
magic_number = 1555034141

abbrev pub version_number : ℕ
version_number = 2

abbrev pub pgid_no_free_list : ℕ
pgid_no_free_list = u64_mod - 1

pub data MetaError : Type 0 where
  invalid_database : Bool → MetaError
  version_mismatch : MetaError
  checksum_mismatch : MetaError

-- The bytes of a number, the least significant first.
unfoldable pub le_bytes : ℕ → ℕ → List ℕ
le_bytes zero v = []
le_bytes (suc n) v = v % 256 ∷ le_bytes n (v / 256)

-- The bytes of all fields before the checksum.
unfoldable pub bytes_before_checksum : Meta → List ℕ
bytes_before_checksum m =
    le_bytes 4 m.magic
    ++ le_bytes 4 m.version
    ++ le_bytes 4 m.page_size
    ++ le_bytes 4 m.flags
    ++ le_bytes 8 m.root.root
    ++ le_bytes 8 m.root.sequence
    ++ le_bytes 8 m.free_list
    ++ le_bytes 8 m.pgid
    ++ le_bytes 8 m.txid

pub record MetaPage : Type 0 where
  pub page : PageHeader
  pub meta : Meta

module _ (fnv : List ℕ → ℕ) where
  abbrev pub sum64 : Meta → ℕ
  sum64 m = fnv (bytes_before_checksum m)

  -- `none` is `Ok(())`.
  unfoldable pub validate : Meta → Option MetaError
  validate m =
      if not (m.magic == magic_number)
      then some (invalid_database true)
      else if not (m.version == version_number)
      then some version_mismatch
      else if not (m.checksum == sum64 m)
      then some checksum_mismatch
      else none

  -- The meta page `mp` after the call.
  unfoldable pub write : Meta → MetaPage → Outcome MetaPage
  write m mp =
      if leb m.pgid m.root.root
      then panic
      else if leb m.pgid m.free_list && not (m.free_list == pgid_no_free_list)
      then panic
      else done (record {
        page = set_meta (record mp.page { id = m.txid % 2; overflow = 0; count = 0 });
        meta = record m { checksum = sum64 m };
      })

  abbrev pub is_ok : Option MetaError → Bool
  is_ok none = true
  is_ok (some e) = false

  -- `DBBackend::validate_meta`.
  unfoldable pub validate_meta : Meta → Meta → Option MetaError
  validate_meta meta0 meta1 =
      if not (is_ok (validate meta0)) && not (is_ok (validate meta1)) then validate meta0 else none

  unfoldable pub choose : Meta × Meta → Outcome Meta
  choose (meta_a, meta_b) =
      if is_ok (validate meta_a)
      then done meta_a
      else if is_ok (validate meta_b)
      then done meta_b
      else panic

  -- `DBBackend::meta`.
  unfoldable pub current_meta : Meta → Meta → Outcome Meta
  unfolding choose
  current_meta meta0 meta1 =
      choose (if ltb meta0.txid meta1.txid then (meta1, meta0) else (meta0, meta1))
