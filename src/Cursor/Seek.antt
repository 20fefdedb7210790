-- ===== src/Cursor/Seek.antt =====
-- `search` and `seek` of src/cursor.rs on a tree with its keys in order.
use mathlib.Core.Path.{sym}
use mathlib.Core.List.{append_assoc, append-nil}
use bbolt_rs.Prelude.{
  ℕ, zero, suc, ◌+◌, ◌≤◌, ◌<◌, ◌≡◌, refl, ap, subst, ◌∙◌, inl, inr, true, false, some, List, [],
  ◌∷◌, ◌++◌, arith, get_elem?, length, length-append, drop, done, ◌>>=◌,
}
use bbolt_rs.Node.{INode}
use bbolt_rs.Node.Keys.{KeysAbove, HasSortedKeys}
use bbolt_rs.Node.Put.{search}
use bbolt_rs.Store.{PageNode, Memory, Bucket, page_node}
use bbolt_rs.Cursor.{at, ElemRef, is_leaf_of, child_place, partition_point, search_tree}
use bbolt_rs.Cursor.View.{IsProper, elems, leaf_entries_lem, branch_entries_lem}
use bbolt_rs.Cursor.Path.{
  concat, concat-append, child_leaves, all_leaves, leaves_of, tree_leaves, IsTree, IsPath, Hangs,
  after, from, leaves_of_leaf,
}
use bbolt_rs.Cursor.Next.{AllChildren-get}
use bbolt_rs.Cursor.Order.{
  drop_less, drop-partition_point, drop_less-append, KeysAbove-append, Separated, IsOrdered,
  IsChildFor, search-IsChildFor,
}

module _ (b : Bucket) (m : Memory) where
  search_tree-leaf :
      (fuel id : ℕ) (key : List ℕ) (pn : PageNode) (stack : List ElemRef)
      → page_node b m id ≡ done pn
      → IsProper pn
      → is_leaf_of b m pn ≡ true
      → search_tree b m (suc fuel) key id stack
        ≡ done (record { pn = pn; index = at (partition_point key (elems b m pn)) } ∷ stack)
  unfolding search_tree
  search_tree-leaf fuel id key pn stack look proper leaf =
      let (entries, tree) = leaf_entries_lem b m pn proper leaf in
      rw look (rw (◌>>=◌, tree) (rw leaf (rw entries refl)))

  search_tree-branch :
      (fuel id i : ℕ) (key : List ℕ) (pn : PageNode) (x : INode) (stack : List ElemRef)
      → page_node b m id ≡ done pn
      → IsProper pn
      → is_leaf_of b m pn ≡ false
      → i ≡ child_place (search key (elems b m pn))
      → get_elem? (elems b m pn) i ≡ some x
      → search_tree b m (suc fuel) key id stack
        ≡ search_tree b m fuel key x.pgid (record { pn = pn; index = at i } ∷ stack)
  unfolding search_tree
  search_tree-branch fuel id i key pn x stack look proper branch place got =
      let (entries, tree) = branch_entries_lem b m pn proper branch in
      rw (look, place)
        (rw (◌>>=◌, tree) (rw branch (rw entries (rw (◌>>=◌, rw place at got) refl))))

  search_child :
      (d : ℕ) (key : List ℕ) (xs : List INode)
      → 0 < length xs
      → HasSortedKeys xs
      → Separated b m d xs
      → IsChildFor b m d key xs (child_place (search key xs))
  search_child d key [] pos sorted sep = absurd (omega arith)
  search_child d key (x ∷ xs) pos sorted sep = search-IsChildFor b m d key x xs sorted sep

  -- Where the search ends: on a leaf, behind all smaller keys, and before all others.
  pub record IsSought (d : ℕ) (key : List ℕ) (pn : PageNode) (stack : List ElemRef) (e : ElemRef)
      (rest : List ElemRef) : Type 0 where
    pub height : ℕ
    pub path : IsPath b m height (e ∷ rest)
    pub is_leaf : is_leaf_of b m e.pn ≡ true
    pub at_index : e.index ≡ at (partition_point key (elems b m e.pn))
    pub sorted : HasSortedKeys (elems b m e.pn)
    pub same_height : height + suc (length rest) ≡ d + suc (length stack)
    pub ahead :
        concat (from b m height (e ∷ rest))
        ≡ drop_less key (concat (tree_leaves b m d pn)) ++ concat (after b m (suc d) stack)
    pub beyond :
        KeysAbove key (concat (after b m (suc d) stack))
        → KeysAbove key (concat (after b m (suc height) rest))
    pub fewer :
        length (after b m height (e ∷ rest))
        ≤ length (tree_leaves b m d pn) + length (after b m (suc d) stack)

  sorted_elems : (d : ℕ) (pn : PageNode) → IsOrdered b m d pn → HasSortedKeys (elems b m pn)
  sorted_elems zero pn o = o
  sorted_elems (suc d) pn o = o.0

  at_leaf :
      (d : ℕ) (key : List ℕ) (pn : PageNode) (stack : List ElemRef)
      → IsTree b m d pn
      → Hangs b m pn stack
      → IsPath b m (suc d) stack
      → is_leaf_of b m pn ≡ true
      → IsOrdered b m d pn
      → IsSought d key pn stack
          (record { pn = pn; index = at (partition_point key (elems b m pn)) })
          stack
  at_leaf d key pn stack t hangs path leaf ordered =
      let point = drop-partition_point key (elems b m pn) in
      record {
        height = d;
        path = (t, hangs, path);
        is_leaf = leaf;
        at_index = refl;
        sorted = sorted_elems d pn ordered;
        same_height = refl;
        ahead =
            rw
              (
                leaves_of_leaf b m d (is_leaf_of b m pn)
                    (drop (partition_point key (elems b m pn)) (elems b m pn)) leaf,
                leaves_of_leaf b m d (is_leaf_of b m pn) (elems b m pn) leaf,
                append-nil (elems b m pn),
                point.0,
              )
              refl;
        beyond = λ h. h;
        fewer =
            rw
              (
                leaves_of_leaf b m d (is_leaf_of b m pn)
                    (drop (suc (partition_point key (elems b m pn))) (elems b m pn)) leaf,
                leaves_of_leaf b m d (is_leaf_of b m pn) (elems b m pn) leaf,
              )
              (omega arith);
      }

  leaves_of_branch :
      (d : ℕ) (pn : PageNode) (xs : List INode)
      → is_leaf_of b m pn ≡ false
      → leaves_of b m (suc d) (is_leaf_of b m pn) xs ≡ all_leaves b m (tree_leaves b m d) xs
  unfolding leaves_of
  leaves_of_branch d pn xs branch = rw branch refl

  -- Below a branch, what stands behind the child is behind the cursor too.
  behind_child :
      (d : ℕ) (key : List ℕ) (pn : PageNode) (stack : List ElemRef) (xs : List INode)
      → is_leaf_of b m pn ≡ false
      → concat (leaves_of b m (suc d) (is_leaf_of b m pn) xs ++ after b m (suc (suc d)) stack)
        ≡ concat (all_leaves b m (tree_leaves b m d) xs) ++ concat (after b m (suc (suc d)) stack)
  behind_child d key pn stack xs branch =
      concat-append (leaves_of b m (suc d) (is_leaf_of b m pn) xs) (after b m (suc (suc d)) stack)
      ∙ ap (λ ys. concat ys ++ concat (after b m (suc (suc d)) stack))
          (leaves_of_branch d pn xs branch)

  all_leaves-length :
      (d i : ℕ) (xs : List INode) (x : INode) (child : PageNode)
      → get_elem? xs i ≡ some x
      → page_node b m x.pgid ≡ done child
      → length (tree_leaves b m d child)
          + length (all_leaves b m (tree_leaves b m d) (drop (suc i) xs))
        ≤ length (all_leaves b m (tree_leaves b m d) xs)
  all_leaves-length d i [] x child got look = cc
  all_leaves-length d zero (y ∷ xs) x child got look =
      let same : y ≡ x = ground (arith, got) in
      rw (same, look)
        (omega
          (arith, length-append (tree_leaves b m d child) (all_leaves b m (tree_leaves b m d) xs)))
  all_leaves-length d (suc i) (y ∷ xs) x child got look = omega (
    arith,
    all_leaves-length d i xs x child got look,
    length-append (child_leaves b m (tree_leaves b m d) (page_node b m y.pgid))
        (all_leaves b m (tree_leaves b m d) xs),
  )

  behind_child_length :
      (d : ℕ) (pn : PageNode) (stack : List ElemRef) (i : ℕ) (x : INode) (child : PageNode)
      → get_elem? (elems b m pn) i ≡ some x
      → page_node b m x.pgid ≡ done child
      → is_leaf_of b m pn ≡ false
      → length (tree_leaves b m d child)
          + length (after b m (suc d) (record { pn = pn; index = at i } ∷ stack))
        ≤ length (tree_leaves b m (suc d) pn) + length (after b m (suc (suc d)) stack)
  behind_child_length d pn stack i x child got look branch =
      rw
        (
          leaves_of_branch d pn (drop (suc i) (elems b m pn)) branch,
          leaves_of_branch d pn (elems b m pn) branch,
        )
        (omega (
          arith,
          all_leaves-length d i (elems b m pn) x child got look,
          length-append (all_leaves b m (tree_leaves b m d) (drop (suc i) (elems b m pn)))
              (after b m (suc (suc d)) stack),
        ))

  pub search_tree-IsSought :
      (fuel d id : ℕ) (key : List ℕ) (pn : PageNode) (stack : List ElemRef)
      → d < fuel
      → page_node b m id ≡ done pn
      → IsTree b m d pn
      → IsOrdered b m d pn
      → Hangs b m pn stack
      → IsPath b m (suc d) stack
      → (e : ElemRef) × (rest : List ElemRef) × (search_tree b m fuel key id stack
          ≡ done (e ∷ rest))
        × IsSought d key pn stack e rest
  search_tree-IsSought zero d id key pn stack less look t ordered hangs path = absurd (omega arith)
  search_tree-IsSought (suc fuel) zero id key pn stack less look t ordered hangs path = (
    record { pn = pn; index = at (partition_point key (elems b m pn)) },
    stack,
    search_tree-leaf fuel id key pn stack look t.0 t.1,
    at_leaf zero key pn stack t hangs path t.1 ordered,
  )
  search_tree-IsSought (suc fuel) (suc d) id key pn stack less look (proper, inl leaf) ordered hangs
        path =
      (
        record { pn = pn; index = at (partition_point key (elems b m pn)) },
        stack,
        search_tree-leaf fuel id key pn stack look proper leaf,
        at_leaf (suc d) key pn stack (proper, inl leaf) hangs path leaf ordered,
      )
  search_tree-IsSought (suc fuel) (suc d) id key pn stack less look
        (proper, inr (branch, pos, kids)) (sorted, inl leaf) hangs path =
      absurd (cc)
  search_tree-IsSought (suc fuel) (suc d) id key pn stack less look
        (proper, inr (branch, pos, kids)) (sorted, inr (sep, ordered)) hangs path =
      let i = child_place (search key (elems b m pn)) in
      let p : ElemRef = record { pn = pn; index = at i } in
      let (x, got, inside, above, same) = search_child d key (elems b m pn) pos sorted sep in
      let (child, look', t) = AllChildren-get b m (IsTree b m d) (elems b m pn) i x kids got in
      let (child', look'', o) =
        AllChildren-get b m (IsOrdered b m d) (elems b m pn) i x ordered got in
      let one : child' ≡ child = cc in
      let (e, rest, run, r) =
        search_tree-IsSought fuel d x.pgid key child (p ∷ stack) (omega arith) look' t
          (subst (IsOrdered b m d) one o) (branch, (i, x, refl, got, look'))
          ((proper, inr (branch, pos, kids)), hangs, path) in
      (
        e,
        rest,
        search_tree-branch fuel id i key pn x stack look proper branch refl got ∙ run,
        record {
          height = r.height;
          path = r.path;
          is_leaf = r.is_leaf;
          at_index = r.at_index;
          sorted = r.sorted;
          fewer = omega (arith, r.fewer, behind_child_length d pn stack i x child got look' branch);
          same_height = omega (arith, r.same_height);
          ahead =
              r.ahead
              ∙ ap (λ ys. drop_less key (concat (tree_leaves b m d child)) ++ ys)
                  (behind_child d key pn stack (drop (suc i) (elems b m pn)) branch)
              ∙ sym (append_assoc (drop_less key (concat (tree_leaves b m d child))) _ _)
              ∙ ap (λ ys. ys ++ concat (after b m (suc (suc d)) stack))
                  (sym (drop_less-append key (concat (tree_leaves b m d child)) _ above)
                    ∙ sym (rw look' at same)
                    ∙ ap (λ ys. drop_less key (concat ys))
                        (sym (leaves_of_branch d pn (elems b m pn) branch)));
          beyond = λ h. r.beyond (
              subst (KeysAbove key)
                (sym (behind_child d key pn stack (drop (suc i) (elems b m pn)) branch))
                (KeysAbove-append key _ _ above h));
        },
      )
