-- ===== src/Cursor/First.antt =====
-- `i_first` of src/cursor.rs: the cursor on the first entry of the tree.
use mathlib.Core.List.{append-nil}
use mathlib.Core.Path.{sym}
use bbolt_rs.Prelude.{
  ℕ, suc, ◌+◌, ◌≤◌, ◌<◌, ◌≡◌, refl, ap, ◌∙◌, ◌⊎◌, inl, inr, true, false, Option, none, some, List,
  [], ◌∷◌, arith, done, ◌>>=◌, length, Bool-cases,
}
use bbolt_rs.Node.{INode}
use bbolt_rs.Store.{PageNode, Memory, Bucket, root, page_node}
use bbolt_rs.Cursor.{
  at, ElemRef, Item, item, go_to_first, top_is_empty, key_value, i_next, hide_bucket, i_first,
}
use bbolt_rs.Cursor.Path.{concat, tree_leaves, IsTree, IsPath, after, from}
use bbolt_rs.Cursor.Next.{go_to_first-IsAtLeaf, empty_leaf, full_leaf, i_next-IsNext}

module _ (b : Bucket) (m : Memory) where
  i_first-full :
      (height fuel : ℕ) (pn : PageNode) (first : List ElemRef) (kv : Option Item)
      → page_node b m (root b) ≡ done pn
      → go_to_first b m height (record { pn = pn; index = at 0 } ∷ []) ≡ done first
      → top_is_empty b m first ≡ false
      → key_value b m first ≡ done kv
      → i_first b m height fuel ≡ done (first, hide_bucket kv)
  unfolding i_first
  i_first-full height fuel pn first kv look run full its =
      rw look (rw run (rw (◌>>=◌, full) (rw its refl)))

  i_first-empty :
      (height fuel : ℕ) (pn : PageNode) (first stack : List ElemRef) (r : Option Item)
      → page_node b m (root b) ≡ done pn
      → go_to_first b m height (record { pn = pn; index = at 0 } ∷ []) ≡ done first
      → top_is_empty b m first ≡ true
      → i_next b m height fuel first ≡ done (stack, r)
      → key_value b m stack ≡ done r
      → i_first b m height fuel ≡ done (stack, hide_bucket r)
  unfolding i_first
  i_first-empty height fuel pn first stack r look run empty next its =
      rw look (rw run (rw (◌>>=◌, empty) (rw next (rw its refl))))

  -- The entries of the bucket, where its root is a tree of at most this height.
  abbrev pub IsFirst : ℕ → PageNode → List ElemRef → Option Item → Type 0
  IsFirst d pn stack r =
      (h : ℕ) × IsPath b m h stack
      × (h + length stack ≡ suc d)
      × (length (after b m h stack) ≤ length (tree_leaves b m d pn))
      × (((r ≡ none) × (concat (tree_leaves b m d pn) ≡ []))
          ⊎ ((x : INode) × (r ≡ hide_bucket (some (item x)))
              × (concat (tree_leaves b m d pn) ≡ x ∷ concat (after b m h stack))))

  -- `i_first` shows the first entry of the tree, if there is one, and all others lie ahead.
  pub i_first-IsFirst :
      (height fuel d : ℕ) (pn : PageNode)
      → page_node b m (root b) ≡ done pn
      → IsTree b m d pn
      → d < height
      → length (tree_leaves b m d pn) < fuel
      → (stack : List ElemRef) × (r : Option Item) × (i_first b m height fuel ≡ done (stack, r))
        × IsFirst d pn stack r
  i_first-IsFirst height fuel d pn look t high enough =
      let (f, rest, run, r) =
        go_to_first-IsAtLeaf b m height d (record { pn = pn; index = at 0 }) [] 0 high (t, look, tt)
          refl (inl refl) in
      let whole : from b m d (record { pn = pn; index = at 0 } ∷ []) ≡ tree_leaves b m d pn =
        append-nil (tree_leaves b m d pn) in
      elim (Bool-cases (top_is_empty b m (f ∷ rest))) [
        | inl empty ↦
            let (ahead, less, short) =
              empty_leaf b m d (record { pn = pn; index = at 0 } ∷ []) f rest r empty in
            let (stack, res, run', n) =
              i_next-IsNext b m height fuel r.height (f ∷ rest) r.path
                (omega (arith, r.same_height)) (omega (arith, less, ap length whole)) in
            (
              stack,
              hide_bucket res,
              i_first-empty height fuel pn (f ∷ rest) stack res look run empty run' (n.shown empty),
              (
                n.height,
                n.path,
                omega (arith, n.same_height, r.same_height),
                omega (arith, n.shorter, short, ap length whole),
                found (concat (after b m r.height (f ∷ rest))) res
                    (concat (after b m n.height stack)) (ap concat (sym whole) ∙ ahead)
                    (elim n.passed [ inl (e, e', _) ↦ inl (e, e') | inr p ↦ inr p ]),
              ),
            )
        | inr full ↦
            let (x, kv, ahead, short) =
              full_leaf b m d (record { pn = pn; index = at 0 } ∷ []) f rest r full in
            (
              f ∷ rest,
              hide_bucket (some (item x)),
              i_first-full height fuel pn (f ∷ rest) (some (item x)) look run full kv,
              (
                r.height,
                r.path,
                omega (arith, r.same_height),
                omega (arith, short, ap length whole),
                inr (x, refl, ap concat (sym whole) ∙ ahead),
              ),
            )
      ]
    where
      found :
          (xs : List INode) (res : Option Item) (ys : List INode)
          → concat (tree_leaves b m d pn) ≡ xs
          → ((res ≡ none) × (xs ≡ [])) ⊎ ((x : INode) × (res ≡ some (item x)) × (xs ≡ x ∷ ys))
          → ((hide_bucket res ≡ none) × (concat (tree_leaves b m d pn) ≡ []))
            ⊎ ((x : INode) × (hide_bucket res ≡ hide_bucket (some (item x)))
                × (concat (tree_leaves b m d pn) ≡ x ∷ ys))
      found xs res ys e (inl (e1, e2)) = inl (ap hide_bucket e1, e ∙ e2)
      found xs res ys e (inr (x, e1, e2)) = inr (x, ap hide_bucket e1, e ∙ e2)
