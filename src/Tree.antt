-- ===== src/Tree.antt =====
-- The elements of leaf and branch pages of src/common/tree.rs, and `write` of a node of src/node.rs. A
-- page is its header, its array of elements and its other bytes by their distance from the start of the
-- page: `write_elements` puts keys and values behind the array, so that the two never overlap.
pub mod RoundTrip
use bbolt_rs.Prelude.{
  ℕ, zero, suc, ◌+◌, ◌-◌, ◌*◌, ◌%◌, Bool, true, false, ◌==◌, Option, none, some, List, [], ◌∷◌, leb,
  if◌then◌else◌, Outcome, done, panic, ◌>>=◌, length,
}
use bbolt_rs.Page.{PageHeader, set_leaf, set_branch, page_header_size}
use bbolt_rs.Node.{INode}
use bbolt_rs.Node.Put.{is_empty}

pub record LeafPageElement : Type 0 where
  pub flags : ℕ
  pub pos : ℕ
  pub key_size : ℕ
  pub value_size : ℕ

pub record BranchPageElement : Type 0 where
  pub pos : ℕ
  pub key_size : ℕ
  pub pgid : ℕ

-- What the trait `TreePage` asks of a kind of page, with the reading of an entry from an element, its key
-- and its value. Both kinds of element have 16 bytes.
pub record TreeKind (E : Type 0) : Type 0 where
  pub set_flag : PageHeader → PageHeader
  pub write_element : E → ℕ → INode → E
  pub pos_of : E → ℕ
  pub key_size_of : E → ℕ
  pub value_size_of : E → ℕ
  pub read : E → List ℕ → List ℕ → INode

abbrev pub as_u32_size : ℕ → ℕ
as_u32_size n = n % 4294967296

abbrev pub leaf_kind : TreeKind LeafPageElement
leaf_kind = record {
  set_flag = set_leaf;
  write_element = λ e pos x. record {
    flags = x.flags;
    pos = pos;
    key_size = as_u32_size (length x.key);
    value_size = as_u32_size (length x.value);
  };
  pos_of = λ e. e.pos;
  key_size_of = λ e. e.key_size;
  value_size_of = λ e. e.value_size;
  read = λ e key value. record { flags = e.flags; pgid = 0; key = key; value = value };
}

abbrev pub branch_kind : TreeKind BranchPageElement
branch_kind = record {
  set_flag = set_branch;
  write_element =
      λ e pos x. record { pos = pos; key_size = as_u32_size (length x.key); pgid = x.pgid };
  pos_of = λ e. e.pos;
  key_size_of = λ e. e.key_size;
  value_size_of = λ e. 0;
  read = λ e key value. record { flags = 0; pgid = e.pgid; key = key; value = [] };
}

pub record PageBytes (E : Type 0) : Type 0 where
  pub header : PageHeader
  pub element : ℕ → E
  pub byte : ℕ → ℕ

-- `from_raw_parts` at a distance from the start of the page.
unfoldable pub slice : (ℕ → ℕ) → ℕ → ℕ → List ℕ
slice byte off zero = []
slice byte off (suc n) = byte off ∷ slice byte (suc off) n

-- `copy_from_slice` to that distance.
unfoldable pub copy_to : ℕ → List ℕ → (ℕ → ℕ) → ℕ → ℕ
copy_to off [] byte = byte
copy_to off (x ∷ xs) byte = copy_to (suc off) xs (λ a. if a == off then x else byte a)

abbrev pub element_offset : ℕ → ℕ
element_offset i = page_header_size + 16 * i

abbrev pub put_element : {E : Type 0} → ℕ → E → (ℕ → E) → ℕ → E
put_element i e element j = if j == i then e else element j

-- As many entries as the count says.
abbrev pub take_count : ℕ → List INode → List INode
take_count zero xs = []
take_count (suc n) [] = []
take_count (suc n) (x ∷ xs) = x ∷ take_count n xs

module _ {E : Type 0} (k : TreeKind E) where
  -- What `get_elem` makes of an element and the bytes that it points to.
  unfoldable pub entry_at : PageBytes E → ℕ → INode
  unfolding slice
  entry_at p i =
      let e = p.element i in
      let key_at = element_offset i + k.pos_of e in
      k.read e (slice p.byte key_at (k.key_size_of e))
        (slice p.byte (key_at + k.key_size_of e) (k.value_size_of e))

  -- `get_elem`, with the entry that is read from the reference.
  unfoldable pub get_element : PageBytes E → ℕ → Option INode
  unfolding entry_at
  get_element p i = if leb p.header.count i then none else some (entry_at p i)

  abbrev pub write_entry : PageBytes E → ℕ → ℕ → INode → PageBytes E
  unfolding copy_to
  write_entry p i off x = record p {
    element =
        put_element i (k.write_element (p.element i) (as_u32_size (off - element_offset i)) x)
          p.element;
    byte = copy_to (off + length x.key) x.value (copy_to off x.key p.byte);
  }

  -- The loop of `write_elements`, from an index and an offset on.
  unfoldable pub write_from : PageBytes E → ℕ → ℕ → List INode → Outcome (PageBytes E × ℕ)
  unfolding write_entry
  write_from p i off [] = done (p, off)
  write_from p i off (x ∷ xs) =
      let rest =
        write_from (write_entry p i off x) (suc i) (off + (length x.key + length x.value)) xs in
      if is_empty x.key then panic else rest

  unfoldable pub write_elements : PageBytes E → List INode → Outcome (PageBytes E × ℕ)
  unfolding write_from
  write_elements p inodes =
      let count = length inodes % 65536 in
      let counted : PageBytes E = record p { header = record p.header { count = count } } in
      if count == 0 then done (counted, 0) else (do
        (written, off) ←
            write_from counted 0 (element_offset (length inodes)) (take_count count inodes)
        done (written, as_u32_size off))

  -- `NodeRwCell::write`, for a node whose pages are of this kind.
  unfoldable pub node_write : PageBytes E → List INode → Outcome (PageBytes E × ℕ)
  unfolding write_elements
  node_write p inodes = write_elements (record p { header = k.set_flag p.header }) inodes
