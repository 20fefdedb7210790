-- ===== src/Node/Put.antt =====
-- `NodeRwCell::put`, `NodeW::del` and `child_index` of src/node.rs. `binary_search_by` of the
-- standard library is a search from the front: on keys in order each finds the same place.
pub mod Lookup
pub mod Del
use bbolt_rs.Prelude.{
  ℕ, zero, suc, Bool, true, false, ◌≡◌, Option, none, some, List, [], ◌∷◌, leb, if◌then◌else◌,
  Outcome, done, panic, length,
}
use bbolt_rs.Node.{INode}
use bbolt_rs.Node.Keys.{Ordering, less, equal, greater, cmp}

-- A node with its links to others as numbers; the bucket is left out.
pub record NodeW : Type 0 where
  pub is_leaf : Bool
  pub key : List ℕ
  pub pgid : ℕ
  pub inodes : List INode
  pub parent : Option ℕ
  pub is_unbalanced : Bool
  pub is_spilled : Bool
  pub children : List ℕ

abbrev pub min_keys : Bool → ℕ
min_keys true = 1
min_keys false = 2

-- The place of a key, or the place where it would be inserted.
pub data Place : Type 0 where
  exact : ℕ → Place
  closest : ℕ → Place

abbrev pub shift : Place → Place
shift (exact i) = exact (suc i)
shift (closest i) = closest (suc i)

abbrev pub at_first : Ordering → Place → Place
at_first less rest = shift rest
at_first equal rest = exact 0
at_first greater rest = closest 0

unfoldable pub search : List ℕ → List INode → Place
search key [] = closest 0
search key (x ∷ xs) = at_first (cmp x.key key) (search key xs)

abbrev pub set_at : ℕ → INode → List INode → List INode
set_at i new [] = []
set_at zero new (x ∷ xs) = new ∷ xs
set_at (suc i) new (x ∷ xs) = x ∷ set_at i new xs

abbrev pub insert_at : ℕ → INode → List INode → List INode
insert_at zero new xs = new ∷ xs
insert_at (suc i) new [] = new ∷ []
insert_at (suc i) new (x ∷ xs) = x ∷ insert_at i new xs

abbrev pub remove_at : ℕ → List INode → List INode
remove_at i [] = []
remove_at zero (x ∷ xs) = xs
remove_at (suc i) (x ∷ xs) = x ∷ remove_at i xs

abbrev pub place : Place → INode → List INode → List INode
place (exact i) new xs = set_at i new xs
place (closest i) new xs = insert_at i new xs

abbrev pub is_empty : List ℕ → Bool
is_empty [] = true
is_empty (b ∷ key) = false

-- The meta page's high water mark stands first.
unfoldable pub put : ℕ → NodeW → List ℕ → List ℕ → List ℕ → ℕ → ℕ → Outcome NodeW
put high_water n old_key new_key value pgid flags =
    let new : INode = record { flags = flags; pgid = pgid; key = new_key; value = value } in
    if leb high_water pgid
    then panic
    else if is_empty old_key
    then panic
    else if is_empty new_key
    then panic
    else done (record n { inodes = place (search old_key n.inodes) new n.inodes })

abbrev pub del_at : Place → NodeW → NodeW
del_at (exact i) n = record n { inodes = remove_at i n.inodes; is_unbalanced = true }
del_at (closest i) n = n

unfoldable pub del : NodeW → List ℕ → NodeW
del n key = del_at (search key n.inodes) n

abbrev pub expect_exact : Place → Outcome ℕ
expect_exact (exact i) = done i
expect_exact (closest i) = panic

-- The place of a child with this key.
unfoldable pub child_index : NodeW → List ℕ → Outcome ℕ
child_index n child_key = expect_exact (search child_key n.inodes)
