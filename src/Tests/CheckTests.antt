-- ===== src/Tests/CheckTests.antt =====
-- The check of the order of keys on the tree of the tests of the cursor, and on a leaf.
use bbolt_rs.Prelude.{◌≡◌, refl, ◌↔◌, List, [], ◌∷◌, done}
use bbolt_rs.Page.{coerce}
use bbolt_rs.Node.{INode}
use bbolt_rs.Node.Keys.{cmp, HasSortedKeys}
use bbolt_rs.Tx.Check.{
  below_previous, not_below_next, ancestor_errors, previous_errors, next_errors, verify_key_order,
  check_leaf, check_children, check_pages,
}
use bbolt_rs.Tx.Check.Leaf.{StartsFrom, AllBelow, check_leaf-finds_disorder}
use bbolt_rs.Tests.CursorTests.{entry, memory}

abbrev in_order : List INode
in_order = entry 5 ∷ entry 7 ∷ []

check_leaf-finds_disorder_example :
    (check_leaf 12 0 (5 ∷ []) (9 ∷ []) in_order ≡ [])
    ↔ (StartsFrom (5 ∷ []) in_order × HasSortedKeys in_order × AllBelow (9 ∷ []) in_order)
check_leaf-finds_disorder_example = check_leaf-finds_disorder 12 (5 ∷ []) (9 ∷ []) in_order

finds_disorder :
    check_leaf 12 0 (5 ∷ []) (6 ∷ []) (entry 7 ∷ entry 5 ∷ [])
    ≡ not_below_next 12 0 ∷ below_previous 12 1 ∷ []
unfolding check_leaf verify_key_order ancestor_errors previous_errors next_errors cmp
finds_disorder = refl

tree_has_order : check_pages 2 memory 10 [] [] ≡ done ([], 7 ∷ [])
unfolding check_pages check_children check_leaf verify_key_order ancestor_errors previous_errors
    next_errors cmp coerce
tree_has_order = refl
