-- ===== src/Cursor/Path.antt =====
-- The stack of the cursor of src/cursor.rs as a path in the tree, and the entries that lie ahead.
use mathlib.Core.Path.{sym}
use mathlib.Core.List.{append_assoc}
use bbolt_rs.Prelude.{
  ℕ, zero, suc, ◌+◌, ◌≤◌, ◌<◌, ◌≡◌, refl, ap, ◌∙◌, ◌⊎◌, inl, inr, Bool, true, false, none, some,
  List, [], ◌∷◌, ◌++◌, arith, if◌then◌else◌, Outcome, done, panic, diverge, get_elem?, length,
  length-append, drop, Bool-cases,
}
use bbolt_rs.Node.{INode}
use bbolt_rs.Store.{PageNode, Memory, Bucket, root, page_node}
use bbolt_rs.Cursor.{
  Index, minus_one, at, ElemRef, is_leaf_of, count_of, before_last, add_one, move_over,
}
use bbolt_rs.Cursor.View.{IsProper, elems, count_of_lem}

abbrev pub concat : List (List INode) → List INode
concat [] = []
concat (xs ∷ xss) = xs ++ concat xss

pub concat-append : (xss yss : List (List INode)) → concat (xss ++ yss) ≡ concat xss ++ concat yss
concat-append [] yss = refl
concat-append (xs ∷ xss) yss =
    ap (λ zs. xs ++ zs) (concat-append xss yss) ∙ sym (append_assoc xs (concat xss) (concat yss))

-- The index of the entry under the cursor, and of the one behind it.
abbrev pub here : Index → ℕ
here minus_one = 0
here (at i) = i

abbrev pub behind : Index → ℕ
behind minus_one = 0
behind (at i) = suc i

pub drop_at {ℓ} :
    {A : Type ℓ} (i : ℕ) (xs : List A) (x : A)
    → get_elem? xs i ≡ some x
    → drop i xs ≡ x ∷ drop (suc i) xs
drop_at i [] x e = cc
drop_at zero (y ∷ xs) x e = ground (arith, e)
drop_at (suc i) (y ∷ xs) x e = drop_at i xs x e

pub drop_all {ℓ} : {A : Type ℓ} (i : ℕ) (xs : List A) → length xs ≤ i → drop i xs ≡ []
drop_all zero [] h = refl
drop_all zero (x ∷ xs) h = absurd (omega arith)
drop_all (suc i) [] h = refl
drop_all (suc i) (x ∷ xs) h = drop_all i xs (omega arith)

before_last-false : (i : Index) (n : ℕ) → before_last i n ≡ false → n ≤ behind i
before_last-false minus_one n e = ground (arith, e)
before_last-false (at i) n e = ground (arith, e)

before_last-true :
    (i : Index) (n : ℕ) → before_last i n ≡ true → (add_one i ≡ at (behind i)) × (behind i < n)
before_last-true minus_one n e = (refl, ground (arith, e))
before_last-true (at i) n e = (refl, ground (arith, e))

module _ (b : Bucket) (m : Memory) where
  abbrev pub child_leaves : (PageNode → List (List INode)) → Outcome PageNode → List (List INode)
  child_leaves f (done pn) = f pn
  child_leaves f panic = []
  child_leaves f diverge = []

  abbrev pub all_leaves : (PageNode → List (List INode)) → List INode → List (List INode)
  all_leaves f [] = []
  all_leaves f (x ∷ xs) = child_leaves f (page_node b m x.pgid) ++ all_leaves f xs

  -- The entries of each leaf below a node at the given height with these entries, in order.
  unfoldable pub leaves_of : ℕ → Bool → List INode → List (List INode)
  leaves_of zero leafy xs = xs ∷ []
  leaves_of (suc d) leafy xs =
      if leafy
      then xs ∷ []
      else all_leaves (λ pn. leaves_of d (is_leaf_of b m pn) (elems b m pn)) xs

  abbrev pub tree_leaves : ℕ → PageNode → List (List INode)
  tree_leaves d pn = leaves_of d (is_leaf_of b m pn) (elems b m pn)

  abbrev pub AllChildren : (PageNode → Type 0) → List INode → Type 0
  AllChildren P [] = Unit {0}
  AllChildren P (x ∷ xs) =
      ((pn : PageNode) × (page_node b m x.pgid ≡ done pn) × P pn) × AllChildren P xs

  -- A tree of at most this height: a branch has a child or more, and a leaf may be empty.
  abbrev pub IsTree : ℕ → PageNode → Type 0
  IsTree zero pn = IsProper pn × (is_leaf_of b m pn ≡ true)
  IsTree (suc d) pn =
      IsProper pn
      × ((is_leaf_of b m pn ≡ true)
          ⊎ ((is_leaf_of b m pn ≡ false)
              × (0 < length (elems b m pn))
              × AllChildren (IsTree d) (elems b m pn)))

  -- What stands under an element of the stack: the branch that it is a child of, or nothing for the
  -- root.
  abbrev pub Hangs : PageNode → List ElemRef → Type 0
  Hangs pn [] = page_node b m (root b) ≡ done pn
  Hangs pn (p ∷ stack) =
      (is_leaf_of b m p.pn ≡ false)
      × ((i : ℕ) × (x : INode) × (p.index ≡ at i)
          × (get_elem? (elems b m p.pn) i ≡ some x)
          × (page_node b m x.pgid ≡ done pn))

  -- A path from a tree of at most this height at the top down to the root.
  abbrev pub IsPath : ℕ → List ElemRef → Type 0
  IsPath d [] = Unit {0}
  IsPath d (e ∷ stack) = IsTree d e.pn × Hangs e.pn stack × IsPath (suc d) stack

  -- The leaves from behind the cursor on, and from the cursor on.
  abbrev pub after : ℕ → List ElemRef → List (List INode)
  after d [] = []
  after d (e ∷ stack) =
      leaves_of d (is_leaf_of b m e.pn) (drop (behind e.index) (elems b m e.pn))
      ++ after (suc d) stack

  abbrev pub from : ℕ → List ElemRef → List (List INode)
  from d [] = []
  from d (e ∷ stack) =
      leaves_of d (is_leaf_of b m e.pn) (drop (here e.index) (elems b m e.pn))
      ++ after (suc d) stack

  -- How many leaves `move_over` may have before it.
  unfoldable pub left : ℕ → List ElemRef → ℕ
  left d [] = 0
  left d (e ∷ stack) =
      if before_last e.index (count_of b m e.pn)
      then length (after d (e ∷ stack))
      else left (suc d) stack

  pub left-le : (d : ℕ) (stack : List ElemRef) → left d stack ≤ length (after d stack)
  unfolding left
  left-le d [] = omega arith
  left-le d (e ∷ stack) = ground (
    arith,
    left-le (suc d) stack,
    length-append (leaves_of d (is_leaf_of b m e.pn) (drop (behind e.index) (elems b m e.pn)))
        (after (suc d) stack),
  )

  pub leaves_of_leaf :
      (d : ℕ) (leafy : Bool) (xs : List INode) → leafy ≡ true → leaves_of d leafy xs ≡ xs ∷ []
  unfolding leaves_of
  leaves_of_leaf zero leafy xs e = refl
  leaves_of_leaf (suc d) leafy xs e = rw e refl

  concat-leaves_of-nil : (d : ℕ) (leafy : Bool) → concat (leaves_of d leafy []) ≡ []
  unfolding leaves_of
  concat-leaves_of-nil zero leafy = refl
  concat-leaves_of-nil (suc d) true = refl
  concat-leaves_of-nil (suc d) false = refl

  pub IsTree-IsProper : (d : ℕ) (pn : PageNode) → IsTree d pn → IsProper pn
  IsTree-IsProper zero pn t = t.0
  IsTree-IsProper (suc d) pn t = t.0

  -- Nothing is left behind the last entry of an element.
  concat-after_end :
      (d : ℕ) (e : ElemRef) (stack : List ElemRef)
      → IsTree d e.pn
      → before_last e.index (count_of b m e.pn) ≡ false
      → concat (after d (e ∷ stack)) ≡ concat (after (suc d) stack)
  concat-after_end d e stack t last =
      let counted = count_of_lem b m e.pn (IsTree-IsProper d e.pn t) in
      let past = before_last-false e.index (count_of b m e.pn) last in
      rw (drop_all (behind e.index) (elems b m e.pn) (omega (arith, counted, past))) (
        concat-append (leaves_of d (is_leaf_of b m e.pn) []) (after (suc d) stack)
        ∙ ap (λ xs. xs ++ concat (after (suc d) stack))
            (concat-leaves_of-nil d (is_leaf_of b m e.pn)))

  pub move_over-none :
      (d : ℕ) (stack : List ElemRef)
      → IsPath d stack
      → move_over b m stack ≡ none
      → concat (after d stack) ≡ []
  unfolding move_over
  move_over-none d [] path e = refl
  move_over-none d (top ∷ stack) (t, hangs, path) e =
      elim (Bool-cases (before_last top.index (count_of b m top.pn))) [
        | inl more ↦ absurd (cc (rw more at e))
        | inr last ↦
            concat-after_end d top stack t last ∙ move_over-none (suc d) stack path (rw last at e)
      ]

  -- A stack that `move_over` gives: the leaves behind the cursor are now those from it on, but for
  -- leaves with nothing left.
  pub record IsMoved (d : ℕ) (stack : List ElemRef) (e : ElemRef) (rest : List ElemRef)
      : Type 0 where
    pub height : ℕ
    pub path : IsPath height (e ∷ rest)
    pub index : ℕ
    pub at_index : e.index ≡ at index
    pub in_range : index < length (elems b m e.pn)
    pub same_height : height + suc (length rest) ≡ d + length stack
    pub ahead : concat (after d stack) ≡ concat (from height (e ∷ rest))
    pub fewer : length (from height (e ∷ rest)) ≤ left d stack

  pub move_over-IsMoved :
      (d : ℕ) (stack : List ElemRef) (moved : List ElemRef)
      → IsPath d stack
      → move_over b m stack ≡ some moved
      → (e : ElemRef) × (rest : List ElemRef) × (moved ≡ e ∷ rest) × IsMoved d stack e rest
  unfolding move_over left
  move_over-IsMoved d [] moved path e = cc
  move_over-IsMoved d (top ∷ stack) moved (t, hangs, path) e =
      elim (Bool-cases (before_last top.index (count_of b m top.pn))) [
        | inl more ↦
            let (shifted, inside) = before_last-true top.index (count_of b m top.pn) more in
            let counted = count_of_lem b m top.pn (IsTree-IsProper d top.pn t) in
            (
              record { pn = top.pn; index = add_one top.index },
              stack,
              ground (arith, rw more at e),
              record {
                height = d;
                path = (t, hangs, path);
                index = behind top.index;
                at_index = shifted;
                in_range = omega (arith, inside, counted);
                same_height = refl;
                ahead = rw shifted refl;
                fewer = rw (shifted, more) (omega arith);
              },
            )
        | inr last ↦
            let (f, rest, same, r) = move_over-IsMoved (suc d) stack moved path (rw last at e) in
            (
              f,
              rest,
              same,
              record {
                height = r.height;
                path = r.path;
                index = r.index;
                at_index = r.at_index;
                in_range = r.in_range;
                same_height = omega (arith, r.same_height);
                ahead = concat-after_end d top stack t last ∙ r.ahead;
                fewer = rw last r.fewer;
              },
            )
      ]
