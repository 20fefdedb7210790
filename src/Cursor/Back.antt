-- ===== src/Cursor/Back.antt =====
-- `i_prev` of src/cursor.rs: the way back up the stack, and one round of the loop of `api_last`.
use mathlib.Core.Path.{sym}
use mathlib.Core.List.{append-nil}
use bbolt_rs.Prelude.{
  ℕ, zero, suc, ◌+◌, ◌<◌, ◌≡◌, refl, ap, ◌∙◌, ◌⊎◌, inl, inr, true, false, Option, none, some, List,
  [], ◌∷◌, ◌++◌, arith, done, get_elem?, length, take,
}
use bbolt_rs.Node.{INode}
use bbolt_rs.Store.{PageNode, Memory, Bucket, page_node}
use bbolt_rs.Cursor.{
  minus_one, at, ElemRef, Item, option_item, last_index, is_leaf_of, key_value, go_to_last,
  move_back, i_prev, after_move_back, skip_back, top_is_empty,
}
use bbolt_rs.Cursor.View.{IsProper, elems, key_value_lem, get_elem?-some}
use bbolt_rs.Cursor.Path.{here, leaves_of, tree_leaves, IsTree, Hangs, IsPath}
use bbolt_rs.Cursor.Next.{AllChildren-get}
use bbolt_rs.Cursor.End.{last_of, get_elem?-last, get_elem?-inside, before, before_child}

module _ (b : Bucket) (m : Memory) where
  -- Going back from a child: up to an element that is not on its first child, which then stands one child
  -- before, or out of the tree.
  pub record IsBack (d n : ℕ) (xss : List (List INode)) (e : ElemRef) (rest : List ElemRef)
      : Type 0 where
    pub height : ℕ
    pub place : ℕ
    pub entry : INode
    pub child : PageNode
    pub proper : IsProper e.pn
    pub branch : is_leaf_of b m e.pn ≡ false
    pub at_place : e.index ≡ at place
    pub got : get_elem? (elems b m e.pn) place ≡ some entry
    pub inside : place < length (elems b m e.pn)
    pub look : page_node b m entry.pgid ≡ done child
    pub tree : IsTree b m height child
    pub path : IsPath b m (suc height) (e ∷ rest)
    pub same_height : height + suc (length rest) ≡ d + n
    pub upto : before b m (suc height) (e ∷ rest) ++ tree_leaves b m height child ≡ xss

  move_back-first :
      (p : ElemRef) (stack : List ElemRef)
      → p.index ≡ at 0
      → move_back (p ∷ stack) ≡ move_back stack
  unfolding move_back
  move_back-first p stack e = rw (move_back, e) refl

  move_back-later :
      (p : ElemRef) (stack : List ElemRef) (i : ℕ)
      → p.index ≡ at (suc i)
      → move_back (p ∷ stack) ≡ record p { index = at i } ∷ stack
  unfolding move_back
  move_back-later p stack i e = rw (move_back, e) refl

  before_first :
      (d : ℕ) (p : ElemRef) (stack : List ElemRef)
      → is_leaf_of b m p.pn ≡ false
      → p.index ≡ at 0
      → before b m (suc d) (p ∷ stack) ≡ before b m (suc (suc d)) stack
  unfolding leaves_of
  before_first d p stack branch e = rw (e, branch) (append-nil (before b m (suc (suc d)) stack))

  IsBack-later :
      (d i : ℕ) (p : ElemRef) (stack : List ElemRef) (x : INode)
      → IsPath b m (suc d) (p ∷ stack)
      → is_leaf_of b m p.pn ≡ false
      → p.index ≡ at (suc i)
      → get_elem? (elems b m p.pn) (suc i) ≡ some x
      → IsBack d
          (suc (length stack))
          (before b m (suc d) (p ∷ stack))
          (record p { index = at i })
          stack
  IsBack-later d i p stack x ((proper, inl leaf), hangs, path) branch e got = absurd (cc)
  IsBack-later d i p stack x ((proper, inr (branch, pos, kids)), hangs, path) _ e got =
      let inside = get_elem?-inside (elems b m p.pn) (suc i) x got in
      let (y, got') = get_elem?-some (elems b m p.pn) i (omega (arith, inside)) in
      let (child, look, t) = AllChildren-get b m (IsTree b m d) (elems b m p.pn) i y kids got' in
      record {
        height = d;
        place = i;
        entry = y;
        child = child;
        proper = proper;
        branch = branch;
        at_place = refl;
        got = got';
        inside = omega (arith, inside);
        look = look;
        tree = t;
        path = ((proper, inr (branch, pos, kids)), hangs, path);
        same_height = refl;
        upto =
            before_child b m d i (record p { index = at i }) stack y child branch refl got' look
            ∙ ap
                (λ j.
                  before b m (suc (suc d)) stack
                  ++ leaves_of b m (suc d) (is_leaf_of b m p.pn) (take (here j) (elems b m p.pn)))
                (sym e);
      }

  pub move_back-IsBack :
      (d : ℕ) (pn : PageNode) (rest : List ElemRef)
      → Hangs b m pn rest
      → IsPath b m (suc d) rest
      → ((move_back rest ≡ []) × (before b m (suc d) rest ≡ []))
        ⊎ ((e : ElemRef) × (rest' : List ElemRef) × (move_back rest ≡ e ∷ rest')
            × IsBack d (length rest) (before b m (suc d) rest) e rest')
  unfolding move_back
  move_back-IsBack d pn [] hangs path = inl (refl, refl)
  move_back-IsBack d pn (p ∷ stack) (branch, (zero, x, e, got, look)) (t, hangs, path) =
      let above = before_first d p stack branch e in
      elim (move_back-IsBack (suc d) p.pn stack hangs path) [
        | inl (out, nothing) ↦ inl (move_back-first p stack e ∙ out, above ∙ nothing)
        | inr (e', rest', moved, r) ↦ inr (
          e',
          rest',
          move_back-first p stack e ∙ moved,
          record {
            height = r.height;
            place = r.place;
            entry = r.entry;
            child = r.child;
            proper = r.proper;
            branch = r.branch;
            at_place = r.at_place;
            got = r.got;
            inside = r.inside;
            look = r.look;
            tree = r.tree;
            path = r.path;
            same_height = omega (arith, r.same_height);
            upto = r.upto ∙ sym above;
          },
        )
      ]
  move_back-IsBack d pn (p ∷ stack) (branch, (suc i, x, e, got, look)) path = inr (
    record p { index = at i },
    stack,
    move_back-later p stack i e,
    IsBack-later d i p stack x path branch e got,
  )

  pub key_value-end :
      (n : ℕ) (f : ElemRef) (rest : List ElemRef)
      → IsProper f.pn
      → is_leaf_of b m f.pn ≡ true
      → f.index ≡ last_index (suc n)
      → length (elems b m f.pn) ≡ suc n
      → key_value b m (f ∷ rest) ≡ done (option_item (last_of (elems b m f.pn)))
  key_value-end n f rest proper leaf at_last size =
      ap (λ i. key_value b m (record f { index = i } ∷ rest)) at_last
      ∙ key_value_lem b m f.pn n rest proper leaf (omega (arith, size))
      ∙ ap (λ x. done (option_item x)) (get_elem?-last (elems b m f.pn) n size)

  pub key_value-nothing :
      (f : ElemRef) (rest : List ElemRef)
      → top_is_empty b m (f ∷ rest) ≡ true
      → key_value b m (f ∷ rest) ≡ done none
  unfolding key_value
  key_value-nothing f rest empty = rw empty refl

  pub move_back-empty :
      (f : ElemRef) (rest : List ElemRef)
      → f.index ≡ minus_one
      → move_back (f ∷ rest) ≡ move_back rest
  unfolding move_back
  move_back-empty f rest e = rw (move_back, e) refl

  pub i_prev-out :
      (height : ℕ) (stack : List ElemRef)
      → move_back stack ≡ []
      → i_prev b m height stack ≡ done ([], none)
  unfolding i_prev
  i_prev-out height stack out = ap (after_move_back b m height) out

  pub i_prev-run :
      (height : ℕ) (stack moved last : List ElemRef) (e : ElemRef) (kv : Option Item)
      → move_back stack ≡ e ∷ moved
      → go_to_last b m height (e ∷ moved) ≡ done last
      → key_value b m last ≡ done kv
      → i_prev b m height stack ≡ done (last, kv)
  unfolding i_prev after_move_back
  i_prev-run height stack moved last e kv back run its =
      ap (after_move_back b m height) back ∙ rw run (rw its refl)

  pub skip_back-stop :
      (height fuel : ℕ) (stack : List ElemRef)
      → top_is_empty b m stack ≡ false
      → skip_back b m height (suc fuel) stack ≡ done stack
  unfolding skip_back
  skip_back-stop height fuel stack full = rw (skip_back, full) refl

  pub skip_back-go :
      (height fuel : ℕ) (stack back : List ElemRef) (kv : Option Item)
      → top_is_empty b m stack ≡ true
      → i_prev b m height stack ≡ done (back, kv)
      → skip_back b m height (suc fuel) stack ≡ skip_back b m height fuel back
  unfolding skip_back
  skip_back-go height fuel stack back kv empty run = rw (skip_back, empty) (rw run refl)
