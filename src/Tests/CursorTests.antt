-- ===== src/Tests/CursorTests.antt =====
-- The cursor on a tree of two leaves below a branch.
use bbolt_rs.Prelude.{
  ℕ, ◌≡◌, refl, inl, inr, arith, some, none, List, [], ◌∷◌, done, ◌==◌, if◌then◌else◌, Option,
  length, ◌<◌, ◌≤◌, true, false, get,
}
use bbolt_rs.Page.{leaf_page_flag, branch_page_flag, is_leaf, is_branch, coerce}
use bbolt_rs.Node.{INode}
use bbolt_rs.Node.Keys.{cmp}
use bbolt_rs.Node.Put.{NodeW, search}
use bbolt_rs.Store.{TreePage, page, Memory, Bucket, page_node, get_elem}
use bbolt_rs.Cursor.{
  option_item, at, minus_one, ElemRef, Item, item, partition_point, child_id, leaf_entry, key_value,
  go_to_first, move_over, i_next, i_first, go_to_last, move_back, i_prev, skip_back, api_last,
  search_tree, i_seek, api_seek, user_item, api_next,
}
use bbolt_rs.Cursor.View.{IsTreePage}
use bbolt_rs.Cursor.Path.{concat, leaves_of, tree_leaves, IsTree, IsPath, left}
use bbolt_rs.Cursor.Next.{IsNext, i_next-IsNext}
use bbolt_rs.Cursor.First.{IsFirst, i_first-IsFirst}
use bbolt_rs.Cursor.Order.{drop_less, IsOrdered}
use bbolt_rs.Cursor.End.{last_of}
use bbolt_rs.Cursor.Last.{api_last-last_of}
use bbolt_rs.Cursor.Landing.{ShowsFirst, api_seek-ShowsFirst}

abbrev pub entry : ℕ → INode
entry k = record { flags = 0; pgid = 0; key = k ∷ []; value = k ∷ k ∷ [] }

abbrev pub bucket_entry : ℕ → INode
bucket_entry k = record { flags = 1; pgid = 0; key = k ∷ []; value = [] }

abbrev pub child : ℕ → ℕ → INode
child k id = record { flags = 0; pgid = id; key = k ∷ []; value = [] }

abbrev pub leaf_page : ℕ → List INode → TreePage
leaf_page id xs = record {
  header = record { id = id; flags = leaf_page_flag; count = length xs; overflow = 0 };
  elements = xs;
}

abbrev pub branch_page : ℕ → List INode → TreePage
branch_page id xs = record {
  header = record { id = id; flags = branch_page_flag; count = length xs; overflow = 0 };
  elements = xs;
}

abbrev pub top_page : TreePage
top_page = branch_page 10 (child 1 11 ∷ child 5 12 ∷ [])

abbrev pub left_page : TreePage
left_page = leaf_page 11 (entry 1 ∷ bucket_entry 3 ∷ [])

abbrev pub right_page : TreePage
right_page = leaf_page 12 (entry 5 ∷ entry 7 ∷ [])

abbrev pub no_node : NodeW
no_node = record {
  is_leaf = true;
  key = [];
  pgid = 0;
  inodes = [];
  parent = none;
  is_unbalanced = false;
  is_spilled = false;
  children = [];
}

abbrev pub memory : Memory
memory = record {
  mem_page = λ id. if id == 10 then top_page else if id == 11 then left_page else right_page;
  cells = λ n. no_node;
  fresh = 0;
}

abbrev pub bucket : Bucket
bucket = record {
  header = record { root = 10; sequence = 0 };
  inline_page = none;
  w = some (record { root_node = none; nodes = [] });
}

pub look : page_node bucket memory 10 ≡ done (page top_page)
unfolding page_node get
look = refl

leaf_page-IsTreePage : (id : ℕ) (xs : List INode) → length xs ≤ 65535 → IsTreePage (leaf_page id xs)
leaf_page-IsTreePage id xs few = record { counted = refl; in_u16 = few; typed = inl refl }

pub is_tree : IsTree bucket memory 1 (page top_page)
unfolding page_node get is_leaf
is_tree = (
  record { counted = refl; in_u16 = omega arith; typed = inr refl },
  inr (
    refl,
    omega arith,
    (
      (page left_page, refl, (leaf_page-IsTreePage 11 _ (omega arith), refl)),
      ((page right_page, refl, (leaf_page-IsTreePage 12 _ (omega arith), refl)), tt),
    ),
  ),
)

pub is_ordered : IsOrdered bucket memory 1 (page top_page)
unfolding page_node get is_leaf cmp leaves_of
is_ordered = (
  ((refl, tt), (tt, tt)),
  inr (
    ((refl, (refl, tt)), (inl refl, (inr refl, tt)), tt),
    (
      (page left_page, refl, ((refl, tt), (tt, tt))),
      ((page right_page, refl, ((refl, tt), (tt, tt))), tt),
    ),
  ),
)

pub entries_lem :
    concat (tree_leaves bucket memory 1 (page top_page))
    ≡ entry 1 ∷ bucket_entry 3 ∷ entry 5 ∷ entry 7 ∷ []
unfolding leaves_of is_leaf page_node get
entries_lem = refl

pub two_leaves : length (tree_leaves bucket memory 1 (page top_page)) ≡ 2
unfolding leaves_of is_leaf page_node get
two_leaves = refl

-- The cursor walks over all entries, and shows no value for a bucket.
walk :
    (i_first bucket memory 2 3
      ≡ done (
        record { pn = page left_page; index = at 0 }
            ∷ record { pn = page top_page; index = at 0 }
            ∷ [],
        some (item (entry 1)),
      ))
    × (api_next bucket memory 2 3 (
          record { pn = page left_page; index = at 1 }
          ∷ record { pn = page top_page; index = at 0 }
          ∷ [])
        ≡ done (
          record { pn = page right_page; index = at 0 }
              ∷ record { pn = page top_page; index = at 1 }
              ∷ [],
          some (5 ∷ [], some (5 ∷ 5 ∷ [])),
        ))
    × (api_last bucket memory 2 3
        ≡ done (
          record { pn = page right_page; index = at 1 }
              ∷ record { pn = page top_page; index = at 1 }
              ∷ [],
          some (7 ∷ [], some (7 ∷ 7 ∷ [])),
        ))
unfolding i_first api_next api_last page_node get go_to_first move_over i_next key_value leaf_entry
    child_id go_to_last skip_back get_elem is_leaf coerce
walk = (refl, refl, refl)

-- A seek past the end of the left leaf shows the first entry of the right one.
seek :
    (stack : List ElemRef) × (api_seek bucket memory 2 3 (4 ∷ [])
      ≡ done (stack, some (5 ∷ [], some (5 ∷ 5 ∷ []))))
unfolding api_seek i_seek search_tree page_node get partition_point search cmp go_to_first move_over
    i_next key_value leaf_entry child_id get_elem is_leaf is_branch coerce
seek = (
  record { pn = page right_page; index = at 0 } ∷ record { pn = page top_page; index = at 1 } ∷ [],
  refl,
)

abbrev first_stack : List ElemRef
first_stack =
    record { pn = page left_page; index = at 0 } ∷ record { pn = page top_page; index = at 0 } ∷ []

is_path : IsPath bucket memory 0 first_stack
unfolding page_node get is_leaf
is_path = (
  (leaf_page-IsTreePage 11 _ (omega arith), refl),
  (refl, (0, child 1 11, refl, refl, refl)),
  (is_tree, look, tt),
)

few_left : left bucket memory 0 first_stack < 3
unfolding left leaves_of is_leaf page_node get
few_left = omega arith

i_first-IsFirst_example :
    (stack : List ElemRef) × (r : Option Item) × (i_first bucket memory 2 3 ≡ done (stack, r))
    × IsFirst bucket memory 1 (page top_page) stack r
i_first-IsFirst_example =
    i_first-IsFirst bucket memory 2 3 1 (page top_page) look is_tree (omega arith)
      (omega (arith, two_leaves))

i_next-IsNext_example :
    (stack : List ElemRef) × (r : Option Item) × (i_next bucket memory 2 3 first_stack
      ≡ done (stack, r))
    × IsNext bucket memory 0 first_stack stack r
i_next-IsNext_example = i_next-IsNext bucket memory 2 3 0 first_stack is_path (omega arith) few_left

api_seek-ShowsFirst_example :
    (stack : List ElemRef) × (r : Option Item) × (api_seek bucket memory 2 3 (4 ∷ [])
      ≡ done (stack, user_item r))
    × ShowsFirst bucket memory 1
        (drop_less (4 ∷ []) (concat (tree_leaves bucket memory 1 (page top_page))))
        stack
        r
api_seek-ShowsFirst_example =
    api_seek-ShowsFirst bucket memory 2 3 1 (4 ∷ []) (page top_page) look is_tree is_ordered
      (omega arith) (omega (arith, two_leaves))

-- With an empty leaf between two others, the cursor goes forth over the empty leaf, but going back it
-- shows nothing there.
abbrev gap_page : TreePage
gap_page = branch_page 10 (child 1 11 ∷ child 4 13 ∷ child 5 12 ∷ [])

abbrev gap_memory : Memory
gap_memory = record memory {
  mem_page = λ id.
      if id == 10
      then gap_page
      else if id == 11
      then left_page
      else if id == 13
      then leaf_page 13 []
      else right_page;
}

back_over_gap :
    (i_next bucket gap_memory 2 4 (
        record { pn = page left_page; index = at 1 }
        ∷ record { pn = page gap_page; index = at 0 }
        ∷ [])
      ≡ done (
        record { pn = page right_page; index = at 0 }
            ∷ record { pn = page gap_page; index = at 2 }
            ∷ [],
        some (item (entry 5)),
      ))
    × (i_prev bucket gap_memory 2 (
          record { pn = page right_page; index = at 0 }
          ∷ record { pn = page gap_page; index = at 2 }
          ∷ [])
        ≡ done (
          record { pn = page (leaf_page 13 []); index = minus_one }
              ∷ record { pn = page gap_page; index = at 1 }
              ∷ [],
          none,
        ))
unfolding i_next i_prev page_node get go_to_first move_over key_value leaf_entry child_id go_to_last
    move_back get_elem is_leaf coerce
back_over_gap = (refl, refl)

api_last-last_of_example :
    (stack : List ElemRef) × (api_last bucket memory 2 3
      ≡ done (
        stack,
        user_item (option_item (last_of (concat (tree_leaves bucket memory 1 (page top_page))))),
      ))
api_last-last_of_example =
    api_last-last_of bucket memory 2 3 1 (page top_page) look is_tree (omega arith)
      (omega (arith, two_leaves))
