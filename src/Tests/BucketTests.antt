-- ===== src/Tests/BucketTests.antt =====
-- The operations of a bucket on a tree of two leaves below a branch.
use bbolt_rs.Prelude.{
  ℕ, ◌≡◌, refl, arith, some, none, List, [], ◌∷◌, done, panic, Option, length, ◌+◌, if◌then◌else◌,
  get, leb, insert, remove,
}
use bbolt_rs.Page.{is_leaf, is_branch, coerce}
use bbolt_rs.Node.Keys.{cmp, lookup}
use bbolt_rs.Node.Put.{search, put}
use bbolt_rs.Store.{
  page, Memory, Bucket, page_node, get_elem, bucket_node, read_in, read_inodes, read_all,
}
use bbolt_rs.Cursor.{
  ElemRef, Item, item, partition_point, key_value, leaf_entry, search_tree, i_seek,
}
use bbolt_rs.Cursor.Path.{concat, leaves_of, tree_leaves}
use bbolt_rs.Cursor.Order.{drop_less}
use bbolt_rs.Bucket.{
  is_bucket, api_get, api_for_each, api_put, put_at, unless_bucket, api_delete, del_at_cursor,
}
use bbolt_rs.Bucket.Get.{value_of, api_get-lookup, put_error, refused_or, api_put-refused_or}
use bbolt_rs.Bucket.Visit.{visit_all, visit_entry, api_for_each-visit_all}
use bbolt_rs.Bucket.Delete.{api_delete-panic, api_delete-found}
use bbolt_rs.Tests.CursorTests.{
  entry, top_page, memory, bucket, look, is_tree, is_ordered, two_leaves,
}

api_get-lookup_example :
    api_get bucket memory 2 (5 ∷ [])
    ≡ done (value_of (lookup (5 ∷ []) (concat (tree_leaves bucket memory 1 (page top_page)))))
api_get-lookup_example =
    api_get-lookup bucket memory 2 1 (5 ∷ []) (page top_page) look is_tree is_ordered (omega arith)

values :
    (value_of (lookup (5 ∷ []) (concat (tree_leaves bucket memory 1 (page top_page))))
      ≡ some (5 ∷ 5 ∷ []))
    × (value_of (lookup (3 ∷ []) (concat (tree_leaves bucket memory 1 (page top_page)))) ≡ none)
    × (value_of (lookup (4 ∷ []) (concat (tree_leaves bucket memory 1 (page top_page)))) ≡ none)
unfolding lookup cmp leaves_of is_leaf page_node get
values = (refl, refl, refl)

api_put-refused_or_example :
    (stack : List ElemRef) × (found : Option Item) × (i_seek bucket memory 2 (3 ∷ [])
      ≡ done (stack, found))
    × (api_put bucket memory 20 2 (3 ∷ []) (9 ∷ [])
        ≡ refused_or bucket memory
            (put_error
              (3 ∷ [])
              (9 ∷ [])
              (lookup (3 ∷ []) (concat (tree_leaves bucket memory 1 (page top_page)))))
            (put_at bucket memory 20 stack (3 ∷ []) (9 ∷ []) 0))
api_put-refused_or_example =
    api_put-refused_or bucket memory 20 2 1 (3 ∷ []) (9 ∷ []) (page top_page) look is_tree
      is_ordered (omega arith)

nothing_above : drop_less (8 ∷ []) (concat (tree_leaves bucket memory 1 (page top_page))) ≡ []
unfolding drop_less cmp leaves_of is_leaf page_node get
nothing_above = refl

api_delete-panic_example : api_delete bucket memory 2 (8 ∷ []) ≡ panic
api_delete-panic_example =
    api_delete-panic bucket memory 2 1 (8 ∷ []) (page top_page) look is_tree is_ordered
      (omega arith) nothing_above

has_five : lookup (5 ∷ []) (concat (tree_leaves bucket memory 1 (page top_page))) ≡ some (entry 5)
unfolding lookup cmp leaves_of is_leaf page_node get
has_five = refl

api_delete-found_example :
    (stack : List ElemRef) × (i_seek bucket memory 2 (5 ∷ []) ≡ done (stack, some (item (entry 5))))
    × (api_delete bucket memory 2 (5 ∷ [])
        ≡ unless_bucket (is_bucket 0) bucket memory (del_at_cursor bucket memory stack (5 ∷ [])))
api_delete-found_example =
    api_delete-found bucket memory 2 1 (5 ∷ []) (page top_page) (entry 5) look is_tree is_ordered
      (omega arith) has_five

-- The visitor adds up the first bytes of the keys, and ends the visit at a sum above ten.
abbrev add_key : ℕ → List ℕ → Option (List ℕ) → ℕ × Option ℕ
add_key s [] v = (s, none)
add_key s (k ∷ key) v = (s + k, if leb (s + k) 10 then none else some k)

abbrev add_bucket : ℕ → List ℕ → ℕ × Option ℕ
add_bucket s [] = (s, none)
add_bucket s (k ∷ key) = (s + k, none)

few_entries : length (concat (tree_leaves bucket memory 1 (page top_page))) ≡ 4
unfolding leaves_of is_leaf page_node get
few_entries = refl

api_for_each-visit_all_example :
    api_for_each add_key bucket memory 5 2 3 0
    ≡ done
        (visit_all (visit_entry add_key) 0 (concat (tree_leaves bucket memory 1 (page top_page))))
api_for_each-visit_all_example =
    api_for_each-visit_all add_key bucket memory 5 2 3 1 0 (page top_page) look is_tree
      (omega arith) (omega (arith, two_leaves)) (omega (arith, few_entries))

-- A put brings the branch and the leaf into memory as nodes 0 and 1, and changes the leaf.
put_runs :
    (b : Bucket) × (m : Memory) × (api_put bucket memory 20 2 (6 ∷ []) (9 ∷ [])
      ≡ done ((b, m), none))
    × ((m.cells 1).inodes
        ≡ entry 5 ∷ record { flags = 0; pgid = 0; key = 6 ∷ []; value = 9 ∷ [] } ∷ entry 7 ∷ [])
unfolding api_put i_seek put_at search_tree page_node get partition_point search cmp key_value
    leaf_entry get_elem is_leaf is_branch coerce bucket_node read_in read_inodes read_all insert put
    remove
put_runs = (_, _, refl, refl)
