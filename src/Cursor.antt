-- ===== src/Cursor.antt =====
-- `InnerCursor` of src/cursor.rs. The stack holds the top first, so that the bottom, the element of
-- the root, stands last. An index is an `i32` that is never below -1. The loops down the tree and
-- over empty pages run on fuel.
pub mod View
pub mod Path
pub mod Next
pub mod First
pub mod Order
pub mod Seek
pub mod Landing
pub mod End
pub mod Back
pub mod Last
use bbolt_rs.Prelude.{
  ℕ, zero, suc, ◌-◌, ◌%◌, Bool, true, false, not, ◌==◌, Option, none, some, List, [], ◌∷◌, ltb, leb,
  if◌then◌else◌, Outcome, done, panic, diverge, ◌>>=◌, get_elem?, length,
}
use Prim.Native.Nat.{bit_and}
use bbolt_rs.Page.{coerce, is_leaf, is_branch, leaf_page_flag, branch_page_flag, bucket_leaf_flag}
use bbolt_rs.Node.{INode}
use bbolt_rs.Node.Keys.{less, equal, greater, Ordering, cmp}
use bbolt_rs.Node.Put.{NodeW, Place, exact, closest, search, del}
use bbolt_rs.Store.{
  TreePage, PageNode, page, node, Memory, Bucket, root, get_elem, page_node, bucket_node, set_cell,
}

pub data Index : Type 0 where
  minus_one : Index
  at : ℕ → Index

pub record ElemRef : Type 0 where
  pub pn : PageNode
  pub index : Index

-- Key, value and flags.
abbrev pub Item : Type 0
Item = List ℕ × List ℕ × ℕ

abbrev pub item : INode → Item
item x = (x.key, x.value, x.flags)

-- `count as i32 - 1`.
abbrev pub last_index : ℕ → Index
last_index zero = minus_one
last_index (suc n) = at n

-- `index < count as i32 - 1`.
abbrev pub before_last : Index → ℕ → Bool
before_last minus_one count = ltb 0 count
before_last (at i) count = ltb (suc i) count

abbrev pub add_one : Index → Index
add_one minus_one = at 0
add_one (at i) = at (suc i)

-- `index >= count as i32`.
abbrev pub is_past : Index → ℕ → Bool
is_past minus_one count = false
is_past (at i) count = leb count i

-- `index > 0`, with the index below.
abbrev pub sub_one : Index → Option Index
sub_one minus_one = none
sub_one (at zero) = none
sub_one (at (suc i)) = some (at i)

abbrev pub as_u16 : Index → ℕ
as_u16 minus_one = 65535
as_u16 (at i) = i % 65536

abbrev pub as_u32 : Index → ℕ
as_u32 minus_one = 4294967295
as_u32 (at i) = i

-- `inodes.get(index as usize)`: -1 stands far behind the end.
abbrev pub get_inode : List INode → Index → Option INode
get_inode inodes minus_one = none
get_inode inodes (at i) = get_elem? inodes i

abbrev pub or_panic {ℓ} : {A : Type ℓ} → Option A → Outcome A
or_panic none = panic
or_panic (some x) = done x

-- What binary search over the children of a branch gives.
abbrev pub child_place : Place → ℕ
child_place (exact i) = i
child_place (closest zero) = 0
child_place (closest (suc i)) = i

-- How many entries from the front have a smaller key.
unfoldable pub partition_point : List ℕ → List INode → ℕ
partition_point key [] = 0
partition_point key (x ∷ xs) =
    let rest = partition_point key xs in elim (cmp x.key key) [ less ↦ suc rest | _ ↦ 0 ]

abbrev pub option_item : Option INode → Option Item
option_item none = none
option_item (some x) = some (item x)

-- `key_value`, without the value of a bucket.
abbrev pub hide_bucket : Option Item → Option Item
hide_bucket none = none
hide_bucket (some (k, v, flags)) =
    some (if bit_and flags bucket_leaf_flag == 0 then (k, v, flags) else (k, [], flags))

-- What the user sees of an item: the key, and the value unless it is a bucket.
abbrev pub user_item : Option Item → Option (List ℕ × Option (List ℕ))
user_item none = none
user_item (some (k, v, flags)) =
    some (k, if bit_and flags bucket_leaf_flag == 0 then some v else none)

-- The search up the stack for an element that can move back, which is then the top.
unfoldable pub move_back : List ElemRef → List ElemRef
move_back [] = []
move_back (e ∷ stack) = elim (sub_one e.index) [
  | some i ↦ record e { index = i } ∷ stack
  | none ↦ move_back stack
]

module _ (b : Bucket) (m : Memory) where
  abbrev pub count_of : PageNode → ℕ
  count_of (page p) = p.header.count
  count_of (node n) = length (m.cells n).inodes

  abbrev pub is_leaf_of : PageNode → Bool
  is_leaf_of (page p) = is_leaf p.header
  is_leaf_of (node n) = (m.cells n).is_leaf

  unfoldable pub child_id : PageNode → Index → Outcome ℕ
  child_id (page p) i = do
    _ ← or_panic (coerce branch_page_flag p.header)
    elem ← or_panic (get_elem p (as_u16 i))
    done elem.pgid
  child_id (node n) i = do inode ← or_panic (get_inode (m.cells n).inodes i); done inode.pgid

  -- The entry at an index of a leaf, from a page or a node.
  unfoldable pub leaf_entry : PageNode → Index → Outcome (Option INode)
  leaf_entry (page p) i = do
    _ ← or_panic (coerce leaf_page_flag p.header)
    done (get_elem p (as_u16 i))
  leaf_entry (node n) i = done (get_inode (m.cells n).inodes i)

  unfoldable pub key_value : List ElemRef → Outcome (Option Item)
  unfolding leaf_entry
  key_value [] = panic
  key_value (e ∷ stack) =
      if count_of e.pn == 0
      then done none
      else if ltb (count_of e.pn) (as_u32 e.index)
      then done none
      else (do x ← leaf_entry e.pn e.index; done (option_item x))

  -- `go_to_first_element_on_the_stack`.
  unfoldable pub go_to_first : ℕ → List ElemRef → Outcome (List ElemRef)
  unfolding child_id
  go_to_first zero stack = diverge
  go_to_first (suc fuel) [] = panic
  go_to_first (suc fuel) (e ∷ stack) = elim (is_leaf_of e.pn) [
    | true ↦ done (e ∷ stack)
    | false ↦ (do
      id ← child_id e.pn e.index
      pn ← page_node b m id
      go_to_first fuel (record { pn = pn; index = at 0 } ∷ e ∷ stack))
  ]

  -- The search up the stack for an element that can move, which is then the top.
  unfoldable pub move_over : List ElemRef → Option (List ElemRef)
  move_over [] = none
  move_over (e ∷ stack) =
      if before_last e.index (count_of e.pn)
      then some (record e { index = add_one e.index } ∷ stack)
      else move_over stack

  abbrev pub top_is_empty : List ElemRef → Bool
  top_is_empty [] = false
  top_is_empty (e ∷ stack) = count_of e.pn == 0

  -- The cursor after the call, and the item; `height` is the fuel down the tree.
  unfoldable pub i_next : ℕ → ℕ → List ElemRef → Outcome (List ElemRef × Option Item)
  unfolding go_to_first key_value
  i_next height zero stack = diverge
  i_next height (suc fuel) stack = elim (move_over stack) [
    | none ↦ done (stack, none)
    | some moved ↦ (do
      first ← go_to_first height moved
      elim (top_is_empty first) [
        | true ↦ i_next height fuel first
        | false ↦ (do kv ← key_value first; done (first, kv))
      ])
  ]

  unfoldable pub i_first : ℕ → ℕ → Outcome (List ElemRef × Option Item)
  unfolding go_to_first i_next key_value
  i_first height fuel = do
    pn ← page_node b m (root b)
    first ← go_to_first height (record { pn = pn; index = at 0 } ∷ [])
    stack ← elim (top_is_empty first) [
      | true ↦ (do (next, _) ← i_next height fuel first; done next)
      | false ↦ done first
    ]
    kv ← key_value stack
    done (stack, hide_bucket kv)

  unfoldable pub api_first : ℕ → ℕ → Outcome (List ElemRef × Option (List ℕ × Option (List ℕ)))
  unfolding i_first
  api_first height fuel = do (stack, found) ← i_first height fuel; done (stack, user_item found)

  unfoldable pub api_next :
      ℕ → ℕ → List ElemRef → Outcome (List ElemRef × Option (List ℕ × Option (List ℕ)))
  unfolding i_next
  api_next height fuel stack = do
    (stack', found) ← i_next height fuel stack
    done (stack', user_item found)

  -- `i_last`.
  unfoldable pub go_to_last : ℕ → List ElemRef → Outcome (List ElemRef)
  unfolding child_id
  go_to_last zero stack = diverge
  go_to_last (suc fuel) [] = diverge
  go_to_last (suc fuel) (e ∷ stack) = elim (is_leaf_of e.pn) [
    | true ↦ done (e ∷ stack)
    | false ↦ (do
      id ← child_id e.pn e.index
      pn ← page_node b m id
      go_to_last fuel (record { pn = pn; index = last_index (count_of pn) } ∷ e ∷ stack))
  ]

  abbrev pub after_move_back : ℕ → List ElemRef → Outcome (List ElemRef × Option Item)
  unfolding go_to_last key_value
  after_move_back height [] = done ([], none)
  after_move_back height (e ∷ stack) = do
    last ← go_to_last height (e ∷ stack)
    kv ← key_value last
    done (last, kv)

  unfoldable pub i_prev : ℕ → List ElemRef → Outcome (List ElemRef × Option Item)
  unfolding move_back after_move_back
  i_prev height stack = after_move_back height (move_back stack)

  unfoldable pub api_prev :
      ℕ → List ElemRef → Outcome (List ElemRef × Option (List ℕ × Option (List ℕ)))
  unfolding i_prev
  api_prev height stack = do (stack', found) ← i_prev height stack; done (stack', user_item found)

  -- `while !stack.is_empty() && top.count() == 0 { i_prev() }`.
  unfoldable pub skip_back : ℕ → ℕ → List ElemRef → Outcome (List ElemRef)
  unfolding i_prev
  skip_back height zero stack = diverge
  skip_back height (suc fuel) stack = elim (top_is_empty stack) [
    | true ↦ (do (back, _) ← i_prev height stack; skip_back height fuel back)
    | false ↦ done stack
  ]

  abbrev pub item_of_last : List ElemRef → Outcome (Option Item)
  unfolding key_value
  item_of_last [] = done none
  item_of_last (e ∷ stack) = do kv ← key_value (e ∷ stack); found ← or_panic kv; done (some found)

  unfoldable pub api_last : ℕ → ℕ → Outcome (List ElemRef × Option (List ℕ × Option (List ℕ)))
  unfolding go_to_last skip_back item_of_last
  api_last height fuel = do
    pn ← page_node b m (root b)
    last ← go_to_last height (record { pn = pn; index = last_index (count_of pn) } ∷ [])
    stack ← skip_back height fuel last
    found ← item_of_last stack
    done (stack, user_item found)

  abbrev pub leaf_entries : PageNode → Outcome (List INode)
  leaf_entries (page p) = do _ ← or_panic (coerce leaf_page_flag p.header); done p.elements
  leaf_entries (node n) = done (m.cells n).inodes

  abbrev pub branch_entries : PageNode → Outcome (List INode)
  branch_entries (page p) = do _ ← or_panic (coerce branch_page_flag p.header); done p.elements
  branch_entries (node n) = done (m.cells n).inodes

  abbrev pub is_tree_page : PageNode → Bool
  is_tree_page (page p) = if is_leaf p.header then true else is_branch p.header
  is_tree_page (node n) = true

  -- `search` with `search_inodes`, `search_node` and `search_page`: the stack below is kept.
  unfoldable pub search_tree : ℕ → List ℕ → ℕ → List ElemRef → Outcome (List ElemRef)
  search_tree zero key id stack = diverge
  search_tree (suc fuel) key id stack = do
    pn ← page_node b m id
    elim (is_tree_page pn) [
      | false ↦ panic
      | true ↦ elim (is_leaf_of pn) [
        | true ↦ (do
          entries ← leaf_entries pn
          done (record { pn = pn; index = at (partition_point key entries) } ∷ stack))
        | false ↦ (do
          entries ← branch_entries pn
          let i = child_place (search key entries)
          child ← or_panic (get_elem? entries i)
          search_tree fuel key child.pgid (record { pn = pn; index = at i } ∷ stack))
      ]
    ]

  unfoldable pub i_seek : ℕ → List ℕ → Outcome (List ElemRef × Option Item)
  unfolding search_tree key_value
  i_seek height key = do
    stack ← search_tree height key (root b) []
    kv ← key_value stack
    done (stack, kv)

  abbrev pub top_is_past : List ElemRef → Bool
  top_is_past [] = false
  top_is_past (e ∷ stack) = is_past e.index (count_of e.pn)

  unfoldable pub api_seek :
      ℕ → ℕ → List ℕ → Outcome (List ElemRef × Option (List ℕ × Option (List ℕ)))
  unfolding i_seek i_next
  api_seek height fuel key = do
    (stack, vals) ← i_seek height key
    (stack', vals') ← elim (top_is_past stack) [
      | true ↦ i_next height fuel stack
      | false ↦ done (stack, vals)
    ]
    done (stack', user_item vals')
