-- ===== src/Store.antt =====
-- What a bucket of src/bucket.rs reads through: pages as src/common/tree.rs reads their elements, the
-- nodes in memory (the cells of src/node.rs, by number), and the bucket with its node cache. Here are
-- `page_node`, `node` and `materialize_root` of src/bucket.rs, and `read_in` of src/node.rs.
use bbolt_rs.Prelude.{
  ℕ, suc, false, ◌||◌, not, ◌==◌, Option, none, some, List, [], ◌∷◌, ◌++◌, leb, if◌then◌else◌,
  Outcome, done, panic, ◌>>=◌, Map, get, insert, get_elem?,
}
use bbolt_rs.Page.{PageHeader, is_leaf, is_branch, leaf_page_flag, branch_page_flag}
use bbolt_rs.Node.{INode}
use bbolt_rs.Node.Put.{NodeW, is_empty}
use bbolt_rs.Meta.{BucketHeader}

-- A leaf or branch page with the entries that its elements stand for: `count` many.
pub record TreePage : Type 0 where
  pub header : PageHeader
  pub elements : List INode

pub data PageNode : Type 0 where
  page : TreePage → PageNode
  node : ℕ → PageNode

-- The pages of the transaction's snapshot, and the nodes: those from `fresh` on are not in use.
pub record Memory : Type 0 where
  pub mem_page : ℕ → TreePage
  pub cells : ℕ → NodeW
  pub fresh : ℕ

-- The part of a bucket that only a write transaction has.
pub record BucketW : Type 0 where
  pub root_node : Option ℕ
  pub nodes : Map ℕ

pub record Bucket : Type 0 where
  pub header : BucketHeader
  pub inline_page : Option TreePage
  pub w : Option BucketW

abbrev pub root : Bucket → ℕ
root b = b.header.root

-- `get_elem`, where the index is a `u16`.
unfoldable pub get_elem : TreePage → ℕ → Option INode
get_elem p i = if leb p.header.count i then none else get_elem? p.elements i

abbrev pub inline_or_panic : Option TreePage → Outcome PageNode
inline_or_panic none = panic
inline_or_panic (some p) = done (page p)

abbrev pub root_node_of : Option BucketW → Option ℕ
root_node_of none = none
root_node_of (some w) = w.root_node

abbrev pub cached : ℕ → Option BucketW → Option ℕ
cached id none = none
cached id (some w) = get id w.nodes

unfoldable pub page_node : Bucket → Memory → ℕ → Outcome PageNode
page_node b m id =
    if root b == 0
    then if not (id == 0)
      then panic
      else elim (root_node_of b.w) [ some n ↦ done (node n) | none ↦ inline_or_panic b.inline_page ]
    else elim (cached id b.w) [ some n ↦ done (node n) | none ↦ done (page (m.mem_page id)) ]

-- `from_leaf_in` and `from_branch_in` keep these parts of an element.
abbrev pub from_leaf : INode → INode
from_leaf elem = record { flags = elem.flags; pgid = 0; key = elem.key; value = elem.value }

abbrev pub from_branch : INode → INode
from_branch elem = record { flags = 0; pgid = elem.pgid; key = elem.key; value = [] }

unfoldable pub read_all : (INode → INode) → List INode → Outcome (List INode)
read_all f [] = done []
read_all f (elem ∷ elems) = do
  rest ← read_all f elems
  if is_empty elem.key then panic else done (f elem ∷ rest)

unfoldable pub read_inodes : TreePage → Outcome (List INode)
read_inodes p =
    if p.header.flags == leaf_page_flag
    then read_all from_leaf p.elements
    else if p.header.flags == branch_page_flag
    then read_all from_branch p.elements
    else panic

abbrev pub first_key : List INode → List ℕ
first_key [] = []
first_key (x ∷ xs) = x.key

-- `NodeW::read_in`.
unfoldable pub read_in : Option ℕ → TreePage → Outcome NodeW
read_in parent p =
    if is_leaf p.header || is_branch p.header
    then (do
      inodes ← read_inodes p
      done (record {
        is_leaf = is_leaf p.header;
        key = first_key inodes;
        pgid = p.header.id;
        inodes = inodes;
        parent = parent;
        is_unbalanced = false;
        is_spilled = false;
        children = [];
      }))
    else panic

abbrev pub set_cell : Memory → ℕ → NodeW → Memory
set_cell m n x = record m { cells = λ k. if k == n then x else m.cells k }

abbrev pub page_for : Bucket → Memory → ℕ → TreePage
page_for b m pgid = elim b.inline_page [ none ↦ m.mem_page pgid | some p ↦ p ]

-- A node is the root of its bucket, or a child of its parent.
abbrev pub link : Bucket → BucketW → Memory → Option ℕ → ℕ → ℕ → Bucket × Memory
link b w m none pgid n =
    (record b { w = some (record { root_node = some n; nodes = insert pgid n w.nodes }) }, m)
link b w m (some parent) pgid n = (
  record b { w = some (record w { nodes = insert pgid n w.nodes }) },
  set_cell m parent (record (m.cells parent) { children = (m.cells parent).children ++ n ∷ [] }),
)

abbrev pub new_node : Bucket → BucketW → Memory → ℕ → Option ℕ → Outcome (Bucket × Memory × ℕ)
new_node b w m pgid parent = do
  x ← read_in parent (page_for b m pgid)
  let linked = link b w (record (set_cell m m.fresh x) { fresh = suc m.fresh }) parent pgid m.fresh
  done (linked.0, linked.1, m.fresh)

-- The node of a page: it is read from the page when it is wanted first.
unfoldable pub bucket_node : Bucket → Memory → ℕ → Option ℕ → Outcome (Bucket × Memory × ℕ)
bucket_node b m pgid parent = elim b.w [
  | none ↦ panic
  | some w ↦ elim (get pgid w.nodes) [ some n ↦ done (b, m, n) | none ↦ new_node b w m pgid parent ]
]

unfoldable pub materialize_root : Bucket → Memory → Outcome (Bucket × Memory × ℕ)
unfolding bucket_node
materialize_root b m = elim b.w [
  | none ↦ panic
  | some w ↦ elim w.root_node [ some n ↦ done (b, m, n) | none ↦ bucket_node b m (root b) none ]
]
