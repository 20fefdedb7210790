-- ===== src/Cursor/Landing.antt =====
-- `i_seek` and `api_seek` of src/cursor.rs: the entry that a seek shows.
use mathlib.Core.List.{append-nil}
use mathlib.Core.Path.{sym}
use bbolt_rs.Prelude.{
  ℕ, zero, suc, ◌+◌, ◌≤◌, ◌<◌, ◌≡◌, refl, ap, ◌∙◌, ◌⊎◌, inl, inr, true, false, Option, none, some,
  List, [], ◌∷◌, arith, done, ◌>>=◌, get_elem?, length, drop, Bool-cases,
}
use bbolt_rs.Node.{INode}
use bbolt_rs.Store.{PageNode, Memory, Bucket, root, page_node}
use bbolt_rs.Cursor.{
  at, ElemRef, Item, item, option_item, is_leaf_of, partition_point, key_value, i_seek, top_is_past,
  i_next, user_item, api_seek,
}
use bbolt_rs.Cursor.View.{elems, key_value_lem, count_of_lem}
use bbolt_rs.Cursor.Path.{
  concat, tree_leaves, IsTree, IsTree-IsProper, IsPath, after, from, leaves_of_leaf, drop_all,
  left-le,
}
use bbolt_rs.Cursor.Next.{i_next-IsNext}
use bbolt_rs.Cursor.Order.{drop_less, drop-partition_point, IsOrdered}
use bbolt_rs.Cursor.Seek.{IsSought, search_tree-IsSought}

abbrev pub first_of : List INode → Option INode
first_of [] = none
first_of (x ∷ xs) = some x

get_elem?-drop : (xs : List INode) (i : ℕ) → get_elem? xs i ≡ first_of (drop i xs)
get_elem?-drop [] zero = refl
get_elem?-drop [] (suc i) = refl
get_elem?-drop (x ∷ xs) zero = refl
get_elem?-drop (x ∷ xs) (suc i) = get_elem?-drop xs i

drop-nil : (i : ℕ) (xs : List INode) → drop i xs ≡ [] → length xs ≤ i
drop-nil zero [] e = omega arith
drop-nil zero (x ∷ xs) e = cc
drop-nil (suc i) [] e = omega arith
drop-nil (suc i) (x ∷ xs) e = omega (arith, drop-nil i xs e)

drop-more :
    (i : ℕ) (xs : List INode) (x : INode) (ys : List INode)
    → drop i xs ≡ x ∷ ys
    → (drop (suc i) xs ≡ ys) × (i < length xs)
drop-more zero [] x ys e = cc
drop-more zero (z ∷ xs) x ys e = (ground (arith, e), omega arith)
drop-more (suc i) [] x ys e = cc
drop-more (suc i) (z ∷ xs) x ys e =
    let (same, less) = drop-more i xs x ys e in (same, omega (arith, less))

module _ (b : Bucket) (m : Memory) where
  -- After `i_seek` the cursor stands on a leaf where the key would be; it shows the leaf's first entry
  -- whose key is not smaller, if the leaf has one.
  pub i_seek-IsSought :
      (height d : ℕ) (key : List ℕ) (pn : PageNode)
      → page_node b m (root b) ≡ done pn
      → IsTree b m d pn
      → IsOrdered b m d pn
      → d < height
      → (e : ElemRef) × (rest : List ElemRef) × (i_seek b m height key
          ≡ done (e ∷ rest, option_item (first_of (drop_less key (elems b m e.pn)))))
        × IsSought b m d key pn [] e rest
  unfolding i_seek
  i_seek-IsSought height d key pn look t ordered high =
      let (e, rest, run, r) =
        search_tree-IsSought b m height d (root b) key pn [] high look t ordered look tt in
      let (point, within) = drop-partition_point key (elems b m e.pn) in
      let same : e ≡ record { pn = e.pn; index = at (partition_point key (elems b m e.pn)) } =
        ap (λ i. record e { index = i }) r.at_index in
      let shown : key_value b m (e ∷ rest)
          ≡ done (option_item (first_of (drop_less key (elems b m e.pn)))) =
        ap (λ z. key_value b m (z ∷ rest)) same
        ∙ key_value_lem b m e.pn (partition_point key (elems b m e.pn)) rest
            (IsTree-IsProper b m r.height e.pn r.path.0) r.is_leaf within
        ∙ ap (λ x. done (option_item x))
            (get_elem?-drop (elems b m e.pn) (partition_point key (elems b m e.pn))
              ∙ ap first_of point) in
      (e, rest, rw run (rw (◌>>=◌, shown) refl), r)

  api_seek-past :
      (height fuel : ℕ) (key : List ℕ) (old stack : List ElemRef) (vals r : Option Item)
      → i_seek b m height key ≡ done (old, vals)
      → top_is_past b m old ≡ true
      → i_next b m height fuel old ≡ done (stack, r)
      → api_seek b m height fuel key ≡ done (stack, user_item r)
  unfolding api_seek
  api_seek-past height fuel key old stack vals r run past next =
      rw run (rw (◌>>=◌, past) (rw next refl))

  api_seek-inside :
      (height fuel : ℕ) (key : List ℕ) (old : List ElemRef) (vals : Option Item)
      → i_seek b m height key ≡ done (old, vals)
      → top_is_past b m old ≡ false
      → api_seek b m height fuel key ≡ done (old, user_item vals)
  unfolding api_seek
  api_seek-inside height fuel key old vals run inside = rw run (rw (◌>>=◌, inside) refl)

  -- What a cursor over a tree shows where these entries are to come: the first of them, and the others
  -- then lie ahead of the cursor.
  abbrev pub ShowsFirst : ℕ → List INode → List ElemRef → Option Item → Type 0
  ShowsFirst d xs stack r =
      (h : ℕ) × IsPath b m h stack
      × (h + length stack ≡ suc d)
      × (((r ≡ none) × (xs ≡ []) × (concat (after b m h stack) ≡ []))
          ⊎ ((x : INode) × (r ≡ some (item x)) × (xs ≡ x ∷ concat (after b m h stack))))

  -- Behind its last entry, a leaf has nothing to come.
  past_end :
      (h i : ℕ) (e : ElemRef) (rest : List ElemRef)
      → IsPath b m h (e ∷ rest)
      → is_leaf_of b m e.pn ≡ true
      → e.index ≡ at i
      → top_is_past b m (e ∷ rest) ≡ true
      → concat (after b m h (e ∷ rest)) ≡ concat (from b m h (e ∷ rest))
  past_end h i e rest path leaf at_i past =
      let counted = count_of_lem b m e.pn (IsTree-IsProper b m h e.pn path.0) in
      let end : length (elems b m e.pn) ≤ i = ground (arith, counted, rw at_i at past) in
      rw
        (
          at_i,
          drop_all i (elems b m e.pn) end,
          drop_all (suc i) (elems b m e.pn) (omega (arith, end)),
        )
        refl

  -- On an entry, the cursor has it to come, and then what is behind.
  on_entry :
      (h i : ℕ) (e : ElemRef) (rest : List ElemRef) (x : INode) (xs : List INode)
      → is_leaf_of b m e.pn ≡ true
      → e.index ≡ at i
      → drop i (elems b m e.pn) ≡ x ∷ xs
      → concat (from b m h (e ∷ rest)) ≡ x ∷ concat (after b m h (e ∷ rest))
  on_entry h i e rest x xs leaf at_i here =
      rw
        (
          at_i,
          leaves_of_leaf b m h (is_leaf_of b m e.pn) (drop i (elems b m e.pn)) leaf,
          leaves_of_leaf b m h (is_leaf_of b m e.pn) (drop (suc i) (elems b m e.pn)) leaf,
          here,
          (drop-more i (elems b m e.pn) x xs here).0,
        )
        refl

  seek_inside :
      (height fuel d : ℕ) (key : List ℕ) (pn : PageNode) (e : ElemRef) (rest : List ElemRef)
      (xs : List INode)
      → i_seek b m height key
        ≡ done (e ∷ rest, option_item (first_of (drop_less key (elems b m e.pn))))
      → IsSought b m d key pn [] e rest
      → top_is_past b m (e ∷ rest) ≡ false
      → drop_less key (elems b m e.pn) ≡ xs
      → (stack : List ElemRef) × (r : Option Item) × (api_seek b m height fuel key
          ≡ done (stack, user_item r))
        × ShowsFirst d (drop_less key (concat (tree_leaves b m d pn))) stack r
  seek_inside height fuel d key pn e rest [] run r inside nothing =
      let (point, within) = drop-partition_point key (elems b m e.pn) in
      let end =
        drop-nil (partition_point key (elems b m e.pn)) (elems b m e.pn) (point ∙ nothing) in
      let counted = count_of_lem b m e.pn (IsTree-IsProper b m r.height e.pn r.path.0) in
      absurd (ground (arith, end, counted, rw r.at_index at inside))
  seek_inside height fuel d key pn e rest (x ∷ xs) run r inside here =
      let (point, within) = drop-partition_point key (elems b m e.pn) in
      (
        e ∷ rest,
        some (item x),
        api_seek-inside height fuel key (e ∷ rest) _ run inside
            ∙ ap (λ ys. done (e ∷ rest, user_item (option_item (first_of ys)))) here,
        (
          r.height,
          r.path,
          omega (arith, r.same_height),
          inr (
            x,
            refl,
            sym (append-nil (drop_less key (concat (tree_leaves b m d pn))))
                ∙ sym r.ahead
                ∙ on_entry r.height (partition_point key (elems b m e.pn)) e rest x xs r.is_leaf
                    r.at_index (point ∙ here),
          ),
        ),
      )

  -- `api_seek` shows the first entry of the bucket whose key is not smaller, and none where there is
  -- none; the entries behind it lie ahead of the cursor. The root is an ordered tree.
  pub api_seek-ShowsFirst :
      (height fuel d : ℕ) (key : List ℕ) (pn : PageNode)
      → page_node b m (root b) ≡ done pn
      → IsTree b m d pn
      → IsOrdered b m d pn
      → d < height
      → length (tree_leaves b m d pn) < fuel
      → (stack : List ElemRef) × (r : Option Item) × (api_seek b m height fuel key
          ≡ done (stack, user_item r))
        × ShowsFirst d (drop_less key (concat (tree_leaves b m d pn))) stack r
  api_seek-ShowsFirst height fuel d key pn look t ordered high enough =
      let (e, rest, run, r) = i_seek-IsSought height d key pn look t ordered high in
      elim (Bool-cases (top_is_past b m (e ∷ rest))) [
        | inl past ↦
            let (stack, res, run', n) =
              i_next-IsNext b m height fuel r.height (e ∷ rest) r.path
                (omega (arith, r.same_height))
                (omega (arith, left-le b m r.height (e ∷ rest), r.fewer)) in
            let same : concat (after b m r.height (e ∷ rest))
                ≡ drop_less key (concat (tree_leaves b m d pn)) =
              past_end r.height (partition_point key (elems b m e.pn)) e rest r.path r.is_leaf
                r.at_index past
              ∙ r.ahead
              ∙ append-nil (drop_less key (concat (tree_leaves b m d pn))) in
            (
              stack,
              res,
              api_seek-past height fuel key (e ∷ rest) stack _ res run past run',
              (
                n.height,
                n.path,
                omega (arith, n.same_height, r.same_height),
                elim n.passed [
                  | inl (e1, e2, e3) ↦ inl (e1, sym same ∙ e2, e3)
                  | inr (x, e1, e2) ↦ inr (x, e1, sym same ∙ e2)
                ],
              ),
            )
        | inr inside ↦
            seek_inside height fuel d key pn e rest (drop_less key (elems b m e.pn)) run r inside
              refl
      ]
