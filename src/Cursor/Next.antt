-- ===== src/Cursor/Next.antt =====
-- `i_next` of src/cursor.rs: the way down to a leaf, and over empty leaves.
use mathlib.Core.Path.{sym}
use mathlib.Core.List.{append_assoc}
use bbolt_rs.Prelude.{
  ℕ, zero, suc, ◌+◌, ◌≤◌, ◌<◌, ◌≡◌, refl, ap, subst, ◌∙◌, ◌⊎◌, inl, inr, true, false, Option, none,
  some, List, [], ◌∷◌, ◌++◌, arith, done, ◌>>=◌, get_elem?, length, drop, Bool-cases, Option-cases,
}
use bbolt_rs.Node.{INode}
use bbolt_rs.Store.{PageNode, Memory, Bucket, page_node}
use bbolt_rs.Cursor.{
  at, ElemRef, Item, item, option_item, before_last, is_leaf_of, count_of, child_id, go_to_first,
  move_over, top_is_empty, key_value, i_next,
}
use bbolt_rs.Cursor.View.{elems, count_of_lem, child_id_lem, get_elem?-some, key_value_lem}
use bbolt_rs.Cursor.Path.{
  concat, drop_at, drop_all, leaves_of, tree_leaves, AllChildren, IsTree, IsTree-IsProper, IsPath,
  after, from, leaves_of_leaf, left, left-le, move_over-none, move_over-IsMoved,
}

module _ (b : Bucket) (m : Memory) where
  pub AllChildren-get :
      (P : PageNode → Type 0) (xs : List INode) (i : ℕ) (x : INode)
      → AllChildren b m P xs
      → get_elem? xs i ≡ some x
      → (pn : PageNode) × (page_node b m x.pgid ≡ done pn) × P pn
  AllChildren-get P [] i x h e = cc
  AllChildren-get P (y ∷ xs) zero x ((pn, look, p), h) e =
      let same : y ≡ x = ground (arith, e) in (pn, rw (← same) look, p)
  AllChildren-get P (y ∷ xs) (suc i) x (_, h) e = AllChildren-get P xs i x h e

  -- The top is a leaf, at the entry that the cursor stood before, or in an empty leaf.
  pub record IsAtLeaf (d : ℕ) (old : List ElemRef) (e : ElemRef) (rest : List ElemRef)
      : Type 0 where
    pub height : ℕ
    pub path : IsPath b m height (e ∷ rest)
    pub is_leaf : is_leaf_of b m e.pn ≡ true
    pub index : ℕ
    pub at_index : e.index ≡ at index
    pub in_range : (index ≡ 0) ⊎ (index < length (elems b m e.pn))
    pub same_height : height + suc (length rest) ≡ d + length old
    pub ahead : from b m height (e ∷ rest) ≡ from b m d old

  from_child :
      (d : ℕ) (e : ElemRef) (stack : List ElemRef) (i : ℕ) (x : INode) (pn : PageNode)
      → e.index ≡ at i
      → is_leaf_of b m e.pn ≡ false
      → get_elem? (elems b m e.pn) i ≡ some x
      → page_node b m x.pgid ≡ done pn
      → from b m d (record { pn = pn; index = at 0 } ∷ e ∷ stack) ≡ from b m (suc d) (e ∷ stack)
  unfolding leaves_of
  from_child d e stack i x pn at_i branch got look =
      rw (at_i, branch, drop_at i (elems b m e.pn) x got, look)
        (sym (append_assoc (tree_leaves b m d pn) _ _))

  go_to_first-leaf :
      (fuel : ℕ) (e : ElemRef) (stack : List ElemRef)
      → is_leaf_of b m e.pn ≡ true
      → go_to_first b m (suc fuel) (e ∷ stack) ≡ done (e ∷ stack)
  unfolding go_to_first
  go_to_first-leaf fuel e stack leaf = rw (go_to_first, leaf) refl

  go_to_first-branch :
      (fuel id : ℕ) (e : ElemRef) (pn : PageNode) (stack : List ElemRef)
      → is_leaf_of b m e.pn ≡ false
      → child_id b m e.pn e.index ≡ done id
      → page_node b m id ≡ done pn
      → go_to_first b m (suc fuel) (e ∷ stack)
        ≡ go_to_first b m fuel (record { pn = pn; index = at 0 } ∷ e ∷ stack)
  unfolding go_to_first
  go_to_first-branch fuel id e pn stack branch child look =
      rw (go_to_first, branch) (rw child (rw look refl))

  stays :
      (d i : ℕ) (e : ElemRef) (stack : List ElemRef)
      → IsPath b m d (e ∷ stack)
      → is_leaf_of b m e.pn ≡ true
      → e.index ≡ at i
      → (i ≡ 0) ⊎ (i < length (elems b m e.pn))
      → IsAtLeaf d (e ∷ stack) e stack
  stays d i e stack path leaf at_i range = record {
    height = d;
    path = path;
    is_leaf = leaf;
    index = i;
    at_index = at_i;
    in_range = range;
    same_height = refl;
    ahead = refl;
  }

  pub go_to_first-IsAtLeaf :
      (fuel d : ℕ) (e : ElemRef) (stack : List ElemRef) (i : ℕ)
      → d < fuel
      → IsPath b m d (e ∷ stack)
      → e.index ≡ at i
      → (i ≡ 0) ⊎ (i < length (elems b m e.pn))
      → (f : ElemRef) × (rest : List ElemRef) × (go_to_first b m fuel (e ∷ stack) ≡ done (f ∷ rest))
        × IsAtLeaf d (e ∷ stack) f rest
  go_to_first-IsAtLeaf zero d e stack i less path at_i range = absurd (omega arith)
  go_to_first-IsAtLeaf (suc fuel) zero e stack i less (t, hangs, path) at_i range = (
    e,
    stack,
    go_to_first-leaf fuel e stack t.1,
    stays zero i e stack (t, hangs, path) t.1 at_i range,
  )
  go_to_first-IsAtLeaf (suc fuel) (suc d) e stack i less ((proper, inl leaf), hangs, path) at_i
        range =
      (
        e,
        stack,
        go_to_first-leaf fuel e stack leaf,
        stays (suc d) i e stack ((proper, inl leaf), hangs, path) leaf at_i range,
      )
  go_to_first-IsAtLeaf (suc fuel) (suc d) e stack i less
        ((proper, inr (branch, pos, kids)), hangs, path) at_i range =
      let inside : i < length (elems b m e.pn) = ground (arith, range) in
      let (x, got) = get_elem?-some (elems b m e.pn) i inside in
      let (pn, look, t) = AllChildren-get (IsTree b m d) (elems b m e.pn) i x kids got in
      let (f, rest, run, r) =
        go_to_first-IsAtLeaf fuel d (record { pn = pn; index = at 0 }) (e ∷ stack) 0 (omega arith)
          (t, (branch, (i, x, at_i, got, look)), ((proper, inr (branch, pos, kids)), hangs, path))
          refl (inl refl) in
      (
        f,
        rest,
        go_to_first-branch fuel x.pgid e pn stack branch
              (rw at_i (child_id_lem b m e.pn i x proper branch got inside)) look
            ∙ run,
        record {
          height = r.height;
          path = r.path;
          is_leaf = r.is_leaf;
          index = r.index;
          at_index = r.at_index;
          in_range = r.in_range;
          same_height = omega (arith, r.same_height);
          ahead = r.ahead ∙ from_child d e stack i x pn at_i branch got look;
        },
      )

  -- A call of `i_next` from a path: a path again, with no item if nothing lies ahead, and else with
  -- the first entry ahead, which the cursor has then passed. From an empty leaf the item is the one
  -- that the cursor then shows.
  pub record IsNext (d : ℕ) (old stack : List ElemRef) (r : Option Item) : Type 0 where
    pub height : ℕ
    pub path : IsPath b m height stack
    pub same_height : height + length stack ≡ d + length old
    pub shorter : length (after b m height stack) ≤ length (after b m d old)
    pub shown : top_is_empty b m old ≡ true → key_value b m stack ≡ done r
    pub passed :
        ((r ≡ none) × (concat (after b m d old) ≡ []) × (concat (after b m height stack) ≡ []))
        ⊎ ((x : INode) × (r ≡ some (item x))
            × (concat (after b m d old) ≡ x ∷ concat (after b m height stack)))

  -- What lies ahead from a leaf on.
  from_leaf :
      (d : ℕ) (old : List ElemRef) (e : ElemRef) (rest : List ElemRef) (r : IsAtLeaf d old e rest)
      → from b m d old ≡ drop r.index (elems b m e.pn) ∷ after b m (suc r.height) rest
  from_leaf d old e rest r =
      sym r.ahead
      ∙ rw r.at_index (
          ap (λ xss. xss ++ after b m (suc r.height) rest)
            (leaves_of_leaf b m r.height (is_leaf_of b m e.pn) (drop r.index (elems b m e.pn))
              r.is_leaf))

  after_leaf :
      (d : ℕ) (old : List ElemRef) (e : ElemRef) (rest : List ElemRef) (r : IsAtLeaf d old e rest)
      → after b m r.height (e ∷ rest)
        ≡ drop (suc r.index) (elems b m e.pn) ∷ after b m (suc r.height) rest
  after_leaf d old e rest r = rw r.at_index (
      ap (λ xss. xss ++ after b m (suc r.height) rest)
        (leaves_of_leaf b m r.height (is_leaf_of b m e.pn) (drop (suc r.index) (elems b m e.pn))
          r.is_leaf))

  i_next-end :
      (height fuel : ℕ) (old : List ElemRef)
      → move_over b m old ≡ none
      → i_next b m height (suc fuel) old ≡ done (old, none)
  unfolding i_next
  i_next-end height fuel old e = rw (i_next, e) refl

  i_next-skip :
      (height fuel : ℕ) (old moved first : List ElemRef)
      → move_over b m old ≡ some moved
      → go_to_first b m height moved ≡ done first
      → top_is_empty b m first ≡ true
      → i_next b m height (suc fuel) old ≡ i_next b m height fuel first
  unfolding i_next
  i_next-skip height fuel old moved first e run empty =
      rw (i_next, e) (rw run (rw (◌>>=◌, empty) refl))

  i_next-stop :
      (height fuel : ℕ) (old moved first : List ElemRef) (kv : Option Item)
      → move_over b m old ≡ some moved
      → go_to_first b m height moved ≡ done first
      → top_is_empty b m first ≡ false
      → key_value b m first ≡ done kv
      → i_next b m height (suc fuel) old ≡ done (first, kv)
  unfolding i_next
  i_next-stop height fuel old moved first kv e run some_entry its =
      rw (i_next, e) (rw run (rw (◌>>=◌, some_entry) (rw its refl)))

  -- In an empty leaf, all that lies ahead lies behind the leaf.
  pub empty_leaf :
      (d : ℕ) (old : List ElemRef) (e : ElemRef) (rest : List ElemRef) (r : IsAtLeaf d old e rest)
      → top_is_empty b m (e ∷ rest) ≡ true
      → (concat (from b m d old) ≡ concat (after b m r.height (e ∷ rest)))
        × (left b m r.height (e ∷ rest) < length (from b m d old))
        × (length (after b m r.height (e ∷ rest)) ≤ length (from b m d old))
  unfolding left
  empty_leaf d old e rest r empty =
      let counted = count_of_lem b m e.pn (IsTree-IsProper b m r.height e.pn r.path.0) in
      let nothing : length (elems b m e.pn) ≡ 0 = ground (arith, empty, counted) in
      let now = drop_all r.index (elems b m e.pn) (omega (arith, nothing)) in
      let then_ = drop_all (suc r.index) (elems b m e.pn) (omega (arith, nothing)) in
      let stands : before_last e.index (count_of b m e.pn) ≡ false =
        rw r.at_index (ground (arith, counted, nothing)) in
      (
        ap concat (from_leaf d old e rest r)
            ∙ ap (λ xs. xs ++ concat (after b m (suc r.height) rest)) (now ∙ sym then_)
            ∙ sym (ap concat (after_leaf d old e rest r)),
        rw stands
            (omega (arith, left-le b m (suc r.height) rest, ap length (from_leaf d old e rest r))),
        omega (arith, ap length (from_leaf d old e rest r), ap length (after_leaf d old e rest r)),
      )

  -- In another leaf the cursor stands on the first entry ahead.
  pub full_leaf :
      (d : ℕ) (old : List ElemRef) (e : ElemRef) (rest : List ElemRef) (r : IsAtLeaf d old e rest)
      → top_is_empty b m (e ∷ rest) ≡ false
      → (x : INode) × (key_value b m (e ∷ rest) ≡ done (some (item x)))
        × (concat (from b m d old) ≡ x ∷ concat (after b m r.height (e ∷ rest)))
        × (length (after b m r.height (e ∷ rest)) ≤ length (from b m d old))
  full_leaf d old e rest r full =
      let proper = IsTree-IsProper b m r.height e.pn r.path.0 in
      let counted = count_of_lem b m e.pn proper in
      let inside : r.index < length (elems b m e.pn) = ground (arith, full, counted, r.in_range) in
      let (x, got) = get_elem?-some (elems b m e.pn) r.index inside in
      let kv = key_value_lem b m e.pn r.index rest proper r.is_leaf (omega (arith, inside)) in
      (
        x,
        rw r.at_index (kv ∙ ap (λ o. done (option_item o)) got),
        ap concat (from_leaf d old e rest r)
            ∙ ap (λ xs. xs ++ concat (after b m (suc r.height) rest))
                (drop_at r.index (elems b m e.pn) x got)
            ∙ ap (λ xs. x ∷ xs) (sym (ap concat (after_leaf d old e rest r))),
        omega (arith, ap length (from_leaf d old e rest r), ap length (after_leaf d old e rest r)),
      )

  shown_empty : (old : List ElemRef) → top_is_empty b m old ≡ true → key_value b m old ≡ done none
  unfolding key_value
  shown_empty [] e = cc
  shown_empty (x ∷ old) e = rw e refl

  -- From a path in a tree, `i_next` ends with the first entry that lies ahead, which the cursor has then
  -- passed, or with none if nothing lies ahead; empty leaves are passed over. The fuel for the height
  -- reaches down the tree, and the other is more than the leaves ahead.
  pub i_next-IsNext :
      (height fuel d : ℕ) (old : List ElemRef)
      → IsPath b m d old
      → d + length old ≤ height
      → left b m d old < fuel
      → (stack : List ElemRef) × (r : Option Item) × (i_next b m height fuel old ≡ done (stack, r))
        × IsNext d old stack r
  i_next-IsNext height zero d old path high enough = absurd (omega arith)
  i_next-IsNext height (suc fuel) d old path high enough = elim (Option-cases (move_over b m old)) [
    | inl e ↦
        let nothing = move_over-none b m d old path e in
        (
          old,
          none,
          i_next-end height fuel old e,
          record {
            height = d;
            path = path;
            same_height = refl;
            shorter = omega arith;
            shown = shown_empty old;
            passed = inl (refl, nothing, nothing);
          },
        )
    | inr (moved, e) ↦
        let (e1, rest1, same, r1) = move_over-IsMoved b m d old moved path e in
        let (f, rest, run, r) =
          go_to_first-IsAtLeaf height r1.height e1 rest1 r1.index (omega (arith, r1.same_height))
            r1.path r1.at_index (inr r1.in_range) in
        let run' : go_to_first b m height moved ≡ done (f ∷ rest) =
          ap (go_to_first b m height) same ∙ run in
        elim (Bool-cases (top_is_empty b m (f ∷ rest))) [
          | inl empty ↦
              let (ahead, less, short) = empty_leaf r1.height (e1 ∷ rest1) f rest r empty in
              let (stack, res, run'', n) =
                i_next-IsNext height fuel r.height (f ∷ rest) r.path
                  (omega (arith, r.same_height, r1.same_height)) (omega (arith, less, r1.fewer)) in
              (
                stack,
                res,
                i_next-skip height fuel old moved (f ∷ rest) e run' empty ∙ run'',
                record {
                  height = n.height;
                  path = n.path;
                  same_height = omega (arith, n.same_height, r.same_height, r1.same_height);
                  shorter = omega (arith, n.shorter, short, r1.fewer, left-le b m d old);
                  shown = λ _. n.shown empty;
                  passed =
                      subst
                        (λ xs.
                          ((res ≡ none) × (xs ≡ []) × (concat (after b m n.height stack) ≡ []))
                          ⊎ ((x : INode) × (res ≡ some (item x))
                              × (xs ≡ x ∷ concat (after b m n.height stack))))
                        (sym (r1.ahead ∙ ahead)) n.passed;
                },
              )
          | inr full ↦
              let (x, kv, ahead, short) = full_leaf r1.height (e1 ∷ rest1) f rest r full in
              (
                f ∷ rest,
                some (item x),
                i_next-stop height fuel old moved (f ∷ rest) (some (item x)) e run' full kv,
                record {
                  height = r.height;
                  path = r.path;
                  same_height = omega (arith, r.same_height, r1.same_height);
                  shorter = omega (arith, short, r1.fewer, left-le b m d old);
                  shown = λ _. kv;
                  passed = inr (x, refl, r1.ahead ∙ ahead);
                },
              )
        ]
  ]
