-- ===== src/Node.antt =====
-- src/node.rs and the entries of src/common/inode.rs: the size of a node, and how `spill` splits one
-- that is too large. Keys and values are byte lists. A node that the split makes is known by a
-- number, `fresh` and those after it, in the order in which they are made; the threshold, a product
-- of floating point numbers in the source, is given.
pub mod Split
pub mod Keys
pub mod Put
use bbolt_rs.Prelude.{
  ℕ, zero, suc, ◌+◌, ◌-◌, ◌*◌, Bool, true, false, ◌||◌, ◌&&◌, Option, none, some, List, [], ◌∷◌,
  ◌++◌, leb, ltb, length, take, drop, Outcome, done, diverge, ◌>>=◌, if◌then◌else◌,
}
use bbolt_rs.Page.{page_header_size, min_keys_per_page}

pub record INode : Type 0 where
  pub flags : ℕ
  pub pgid : ℕ
  pub key : List ℕ
  pub value : List ℕ

abbrev pub page_element_size : Bool → ℕ
page_element_size true = 16
page_element_size false = 16

-- The bytes that an entry takes besides its element.
abbrev pub data_size : INode → ℕ
data_size inode = length inode.key + length inode.value

unfoldable pub size_from : ℕ → ℕ → List INode → ℕ
size_from elem_size size [] = size
size_from elem_size size (inode ∷ inodes) =
    size_from elem_size (size + (elem_size + data_size inode)) inodes

-- The size of a node with these entries.
unfoldable pub size : ℕ → List INode → ℕ
size elem_size inodes = size_from elem_size page_header_size inodes

-- The state of the split: what is left to place, the children of the parent if there is one, and the
-- node that takes the next piece.
pub record NodeSplit : Type 0 where
  pub page_size : ℕ
  pub threshold : ℕ
  pub page_element_size : ℕ
  pub split_array : List INode
  pub next : Option ℕ
  pub parent : Option (List ℕ)
  pub fresh : ℕ

unfoldable pub less_from : ℕ → ℕ → ℕ → List INode → Bool
less_from page_size elem_size size [] = true
less_from page_size elem_size size (inode ∷ rem) =
    let size' = size + (elem_size + data_size inode) in
    let rest = less_from page_size elem_size size' rem in
    if ltb page_size size' then false else rest

unfoldable pub size_less_than : NodeSplit → List INode → Bool
size_less_than s rem = less_from s.page_size s.page_element_size page_header_size rem

-- The loop of `split_index`, at the entry with index `idx`.
unfoldable pub index_loop : ℕ → ℕ → ℕ → ℕ → ℕ → List INode → ℕ × ℕ
index_loop threshold elem_size idx index size [] = (index, size)
index_loop threshold elem_size idx index size (inode ∷ rem) =
    let elsize = elem_size + data_size inode in
    let rest = index_loop threshold elem_size (suc idx) idx (size + elsize) rem in
    if leb min_keys_per_page idx && ltb threshold (size + elsize) then (idx, size) else rest

unfoldable pub split_index : NodeSplit → List INode → ℕ × ℕ
split_index s rem =
    if leb (length rem) min_keys_per_page
    then (0, page_header_size)
    else index_loop s.threshold s.page_element_size 0 0 page_header_size
        (take (length rem - min_keys_per_page) rem)

-- The children of the parent, which is made if there is none.
unfoldable pub parent_or_new : ℕ → Option (List ℕ) → List ℕ
parent_or_new node none = node ∷ []
parent_or_new node (some children) = children

-- The state after the call, the node with its entries, and the node that is made.
unfoldable pub split_two : NodeSplit → ℕ → NodeSplit × (ℕ × List INode) × Option ℕ
split_two s node =
    let index = (split_index s s.split_array).0 in
    if leb (length s.split_array) (min_keys_per_page * 2) || size_less_than s s.split_array
    then (record s { split_array = [] }, (node, s.split_array), none)
    else (
      record s {
        split_array = drop index s.split_array;
        parent = some (parent_or_new node s.parent ++ s.fresh ∷ []);
        fresh = suc s.fresh;
      },
      (node, take index s.split_array),
      some s.fresh,
    )

-- `Iterator::next`.
unfoldable pub next_node : NodeSplit → Option ℕ → NodeSplit × Option (ℕ × List INode)
next_node s none = (s, none)
next_node s (some node) = let (s', a, ob) = split_two s node in (record s' { next = ob }, some a)

-- All that the iterator yields, in order, and the state at the end.
unfoldable pub split_all : ℕ → NodeSplit → Outcome (List (ℕ × List INode) × NodeSplit)
split_all zero s = diverge
split_all (suc fuel) s =
    let step = next_node s s.next in
    let rest = split_all fuel step.0 in
    elim step.1 [
      | none ↦ done ([], step.0)
      | some piece ↦ (do (pieces, g) ← rest; done (piece ∷ pieces, g))
    ]
