-- ===== src/Tests/NodeTests.antt =====
-- The split of a node at a concrete state.
use mathlib.Core.Path.{◌≡◌, refl}
use bbolt_rs.Prelude.{ℕ, some, none, List, [], ◌∷◌, arith, done, true, false, if◌then◌else◌}
use bbolt_rs.Node.{
  INode, NodeSplit, size_less_than, less_from, split_index, index_loop, parent_or_new, next_node,
  split_two, split_all,
}
use bbolt_rs.Node.Keys.{cmp, is_equal, HasSortedKeys}
use bbolt_rs.Node.Put.{NodeW, search, put}
use bbolt_rs.Node.Put.Lookup.{found, put-search}
use bbolt_rs.Node.Split.{IsSplit, split_all-IsSplit}

abbrev entry : ℕ → INode
entry k = record { flags = 0; pgid = 0; key = k ∷ []; value = k ∷ k ∷ k ∷ [] }

abbrev entries : List INode
entries = entry 1 ∷ entry 2 ∷ entry 3 ∷ entry 4 ∷ entry 5 ∷ entry 6 ∷ entry 7 ∷ []

-- A page of 100 bytes that is to be filled by half.
abbrev state : NodeSplit
state = record {
  page_size = 100;
  threshold = 50;
  page_element_size = 16;
  split_array = entries;
  next = some 1;
  parent = none;
  fresh = 2;
}

runs :
    split_all 4 state
    ≡ done (
      (1, entry 1 ∷ entry 2 ∷ [])
          ∷ (2, entry 3 ∷ entry 4 ∷ [])
          ∷ (3, entry 5 ∷ entry 6 ∷ entry 7 ∷ [])
          ∷ [],
      record state { split_array = []; next = none; parent = some (1 ∷ 2 ∷ 3 ∷ []); fresh = 4 },
    )
unfolding split_all next_node split_two size_less_than less_from split_index index_loop
    parent_or_new
runs = refl

split_all-IsSplit_example :
    (pieces : List (ℕ × List INode)) × (g : NodeSplit) × (split_all 9 state ≡ done (pieces, g))
    × IsSplit state 1 pieces g
split_all-IsSplit_example =
    split_all-IsSplit 9 state 1 refl (omega arith) (omega arith) (omega arith) (omega arith)

abbrev leaf : NodeW
leaf = record {
  is_leaf = true;
  key = 1 ∷ [];
  pgid = 5;
  inodes = entry 1 ∷ entry 3 ∷ [];
  parent = none;
  is_unbalanced = false;
  is_spilled = false;
  children = [];
}

leaf-HasSortedKeys : HasSortedKeys leaf.inodes
unfolding cmp
leaf-HasSortedKeys = ((refl, tt), (tt, tt))

put_runs :
    put 9 leaf (2 ∷ []) (2 ∷ []) (2 ∷ 2 ∷ 2 ∷ []) 0 0
    ≡ done (record leaf { inodes = entry 1 ∷ entry 2 ∷ entry 3 ∷ [] })
unfolding put search cmp
put_runs = refl

put-search_example :
    (m : NodeW) × (put 9 leaf (2 ∷ []) (2 ∷ []) (7 ∷ []) 0 0 ≡ done m)
    × HasSortedKeys m.inodes
    × ((k : List ℕ)
        → found k m.inodes ≡ (
            if is_equal (cmp (2 ∷ []) k)
            then some (record { flags = 0; pgid = 0; key = 2 ∷ []; value = 7 ∷ [] })
            else found k leaf.inodes))
put-search_example = put-search 9 leaf (2 ∷ []) (7 ∷ []) 0 0 leaf-HasSortedKeys (omega arith) refl
