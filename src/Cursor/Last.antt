-- ===== src/Cursor/Last.antt =====
-- `api_last` of src/cursor.rs: the last entry of the tree, back over empty leaves.
use mathlib.Core.Path.{sym}
use mathlib.Core.List.{append-nil}
use bbolt_rs.Prelude.{
  ℕ, zero, suc, ◌+◌, ◌≤◌, ◌<◌, ◌≡◌, refl, ap, subst, ◌∙◌, inl, inr, true, false, Option, none, some,
  List, [], ◌∷◌, ◌++◌, arith, done, length, length-append,
}
use bbolt_rs.Node.{INode}
use bbolt_rs.Store.{PageNode, Memory, Bucket, root, page_node}
use bbolt_rs.Cursor.{
  minus_one, ElemRef, Item, item, option_item, last_index, count_of, key_value, go_to_last,
  move_back, i_prev, skip_back, top_is_empty, item_of_last, api_last, user_item,
}
use bbolt_rs.Cursor.View.{elems, count_of_lem}
use bbolt_rs.Cursor.Path.{concat, tree_leaves, IsTree, IsTree-IsProper}
use bbolt_rs.Cursor.End.{
  last_of, last_of-append, INodes-cases, last_of-some, concat-end, before, IsAtEnd, end_of,
  go_to_last-branch, go_to_last-IsAtEnd,
}
use bbolt_rs.Cursor.Back.{
  IsBack, move_back-IsBack, key_value-end, key_value-nothing, move_back-empty, i_prev-out,
  i_prev-run, skip_back-stop, skip_back-go,
}

module _ (b : Bucket) (m : Memory) where
  at_end-full :
      (d n : ℕ) (xss : List (List INode)) (f : ElemRef) (rest : List ElemRef) (y : INode)
      (ys : List INode) (r : IsAtEnd b m d n xss f rest)
      → elems b m f.pn ≡ y ∷ ys
      → (key_value b m (f ∷ rest) ≡ done (option_item (last_of (elems b m f.pn))))
        × (top_is_empty b m (f ∷ rest) ≡ false)
  at_end-full d n xss f rest y ys r e =
      let proper = IsTree-IsProper b m r.height f.pn r.path.0 in
      let counted : count_of b m f.pn ≡ suc (length ys) =
        count_of_lem b m f.pn proper ∙ ap length e in
      (
        key_value-end b m (length ys) f rest proper r.is_leaf (r.at_last ∙ ap last_index counted)
            (ap length e),
        ground (arith, counted),
      )

  at_end-empty :
      (d n : ℕ) (xss : List (List INode)) (f : ElemRef) (rest : List ElemRef)
      (r : IsAtEnd b m d n xss f rest)
      → elems b m f.pn ≡ []
      → (f.index ≡ minus_one) × (top_is_empty b m (f ∷ rest) ≡ true)
  at_end-empty d n xss f rest r e =
      let counted : count_of b m f.pn ≡ 0 =
        count_of_lem b m f.pn (IsTree-IsProper b m r.height f.pn r.path.0) ∙ ap length e in
      (r.at_last ∙ ap last_index counted, ground (arith, counted))

  at_end-shown :
      (d n : ℕ) (xss : List (List INode)) (f : ElemRef) (rest : List ElemRef)
      (r : IsAtEnd b m d n xss f rest)
      → (kv : Option Item) × (key_value b m (f ∷ rest) ≡ done kv)
  at_end-shown d n xss f rest r = elim (INodes-cases (elems b m f.pn)) [
    | inl e ↦ (none, key_value-nothing b m f rest (at_end-empty d n xss f rest r e).1)
    | inr (y, ys, e) ↦ (_, (at_end-full d n xss f rest y ys r e).0)
  ]

  item_of_last-some :
      (f : ElemRef) (rest : List ElemRef) (z : INode)
      → key_value b m (f ∷ rest) ≡ done (some (item z))
      → item_of_last b m (f ∷ rest) ≡ done (option_item (some z))
  unfolding item_of_last
  item_of_last-some f rest z its = rw its refl

  -- What is shown in the end: the last of these entries, where there is one.
  abbrev IsLast : ℕ → ℕ → List ElemRef → List (List INode) → Type 0
  IsLast height fuel old xss =
      (stack : List ElemRef) × (skip_back b m height fuel old ≡ done stack)
      × (item_of_last b m stack ≡ done (option_item (last_of (concat xss))))

  IsLast-full :
      (height fuel d n : ℕ) (xss : List (List INode)) (f : ElemRef) (rest : List ElemRef)
      (y : INode) (ys : List INode) (r : IsAtEnd b m d n xss f rest)
      → elems b m f.pn ≡ y ∷ ys
      → IsLast height (suc fuel) (f ∷ rest) xss
  IsLast-full height fuel d n xss f rest y ys r e =
      let (its, full) = at_end-full d n xss f rest y ys r e in
      let (z, last) = last_of-some y ys in
      let whole : last_of (concat xss) ≡ some z =
        ap (λ zss. last_of (concat zss)) (sym r.upto)
        ∙ ap last_of (concat-end (before b m (suc r.height) rest) (elems b m f.pn))
        ∙ ap (λ zs. last_of (concat (before b m (suc r.height) rest) ++ zs)) e
        ∙ last_of-append (concat (before b m (suc r.height) rest)) ys y
        ∙ last in
      (
        f ∷ rest,
        skip_back-stop b m height fuel (f ∷ rest) full,
        item_of_last-some f rest z (
              its
              ∙ ap (λ zs. done (option_item (last_of zs))) e
              ∙ ap (λ o. done (option_item o)) last)
            ∙ ap (λ o. done (option_item o)) (sym whole),
      )

  without_empty :
      (xss yss : List (List INode)) (xs : List INode)
      → yss ++ xs ∷ [] ≡ xss
      → xs ≡ []
      → concat yss ≡ concat xss
  without_empty xss yss xs e nothing =
      sym (append-nil (concat yss))
      ∙ ap (λ ys. concat yss ++ ys) (sym nothing)
      ∙ sym (concat-end yss xs)
      ∙ ap concat e

  back_run :
      (height d n : ℕ) (xss : List (List INode)) (old rest : List ElemRef) (e : ElemRef)
      → move_back old ≡ e ∷ rest
      → IsBack b m d n xss e rest
      → d + n ≤ height
      → (f : ElemRef) × (rest' : List ElemRef) × (kv : Option Item) × (d' : ℕ) × (n' : ℕ) × (i_prev
            b m
            (suc height)
            old
          ≡ done (f ∷ rest', kv))
        × (d' + n' ≡ d + n)
        × IsAtEnd b m d' n' xss f rest'
  back_run height d n xss old rest e moved k high =
      let (f, rest', run, r) =
        go_to_last-IsAtEnd b m height k.height k.child (e ∷ rest) (omega (arith, k.same_height))
          k.tree (k.branch, (k.place, k.entry, k.at_place, k.got, k.look)) k.path in
      let (kv, its) = at_end-shown _ _ _ f rest' r in
      (
        f,
        rest',
        kv,
        k.height,
        suc (length rest),
        i_prev-run b m (suc height) old rest (f ∷ rest') e kv moved
            (go_to_last-branch b m height k.place e rest k.entry k.child k.proper k.branch
                k.at_place k.got k.inside k.look
              ∙ run)
            its,
        k.same_height,
        subst (λ zss. IsAtEnd b m k.height (suc (length rest)) zss f rest') k.upto r,
      )

  skip_back-IsLast :
      (height fuel d n : ℕ) (xss : List (List INode)) (f : ElemRef) (rest : List ElemRef)
      → IsAtEnd b m d n xss f rest
      → d + n ≤ height
      → length xss < fuel
      → IsLast (suc height) fuel (f ∷ rest) xss
  unfolding item_of_last
  skip_back-IsLast height zero d n xss f rest r high enough = absurd (omega arith)
  skip_back-IsLast height (suc fuel) d n xss f rest r high enough =
      elim (INodes-cases (elems b m f.pn)) [
        | inr (y, ys, e) ↦ IsLast-full (suc height) fuel d n xss f rest y ys r e
        | inl e ↦
            let (at_start, empty) = at_end-empty d n xss f rest r e in
            let same =
              without_empty xss (before b m (suc r.height) rest) (elems b m f.pn) r.upto e in
            let shorter : length (before b m (suc r.height) rest) + 1 ≡ length xss =
              sym (length-append (before b m (suc r.height) rest) (elems b m f.pn ∷ []))
              ∙ ap length r.upto in
            elim (move_back-IsBack b m r.height f.pn rest r.path.1 r.path.2) [
              | inl (out, nothing) ↦
                  let last : skip_back b m (suc height) (suc fuel) (f ∷ rest)
                      ≡ skip_back b m (suc height) fuel [] =
                    skip_back-go b m (suc height) fuel (f ∷ rest) [] none empty (
                      i_prev-out b m (suc height) (f ∷ rest)
                        (move_back-empty b m f rest at_start ∙ out)) in
                  (
                    [],
                    last ∙ skip_back-out (suc height) fuel (omega (arith, shorter, enough)),
                    ap (λ zs. done (option_item (last_of zs))) (sym (ap concat nothing) ∙ same),
                  )
              | inr (e', rest', moved, k) ↦
                  let (f', rest'', kv, d', n', run, kept, r') =
                    back_run height r.height (length rest) (before b m (suc r.height) rest)
                      (f ∷ rest) rest' e' (move_back-empty b m f rest at_start ∙ moved) k
                      (omega (arith, r.same_height, high)) in
                  let (stack, skipped, shown) =
                    skip_back-IsLast height fuel d' n' (before b m (suc r.height) rest) f' rest'' r'
                      (omega (arith, kept, r.same_height, high)) (omega (arith, shorter, enough)) in
                  (
                    stack,
                    skip_back-go b m (suc height) fuel (f ∷ rest) (f' ∷ rest'') kv empty run
                        ∙ skipped,
                    shown ∙ ap (λ zs. done (option_item (last_of zs))) same,
                  )
            ]
      ]
    where
      skip_back-out : (height fuel : ℕ) → 0 < fuel → skip_back b m height fuel [] ≡ done []
      skip_back-out height zero pos = absurd (omega arith)
      skip_back-out height (suc fuel) pos = skip_back-stop b m height fuel [] refl

  api_last-run :
      (height fuel : ℕ) (pn : PageNode) (last stack : List ElemRef) (found : Option Item)
      → page_node b m (root b) ≡ done pn
      → go_to_last b m height (end_of b m pn ∷ []) ≡ done last
      → skip_back b m height fuel last ≡ done stack
      → item_of_last b m stack ≡ done found
      → api_last b m height fuel ≡ done (stack, user_item found)
  unfolding api_last
  api_last-run height fuel pn last stack found look run skipped shown =
      rw look (rw run (rw skipped (rw shown refl)))

  -- `api_last` ends with the last entry of the bucket, and with none where there is none, also where the
  -- last leaves are empty. The root is a tree of a lower height than the fuel for the way down, and has
  -- fewer leaves than the other fuel.
  pub api_last-last_of :
      (height fuel d : ℕ) (pn : PageNode)
      → page_node b m (root b) ≡ done pn
      → IsTree b m d pn
      → d < height
      → length (tree_leaves b m d pn) < fuel
      → (stack : List ElemRef) × (api_last b m height fuel
          ≡ done (stack, user_item (option_item (last_of (concat (tree_leaves b m d pn))))))
  api_last-last_of zero fuel d pn look t high enough = absurd (omega arith)
  api_last-last_of (suc height) fuel d pn look t high enough =
      let (f, rest, run, r) = go_to_last-IsAtEnd b m (suc height) d pn [] high t look tt in
      let (stack, skipped, shown) =
        skip_back-IsLast height fuel d 0 (tree_leaves b m d pn) f rest r (omega (arith, high))
          enough in
      (stack, api_last-run (suc height) fuel pn (f ∷ rest) stack _ look run skipped shown)
