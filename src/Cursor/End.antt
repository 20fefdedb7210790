-- ===== src/Cursor/End.antt =====
-- `i_last` of src/cursor.rs: the way down to the last leaf, and the leaves before the cursor.
use mathlib.Core.Path.{sym}
use mathlib.Core.List.{append_assoc, append-nil}
use bbolt_rs.Prelude.{
  ℕ, zero, suc, ◌+◌, ◌≤◌, ◌<◌, ◌≡◌, refl, ap, ◌∙◌, ◌⊎◌, inl, inr, true, false, Option, none, some,
  List, [], ◌∷◌, ◌++◌, arith, done, get_elem?, length, take,
}
use bbolt_rs.Node.{INode}
use bbolt_rs.Store.{PageNode, Memory, Bucket, page_node}
use bbolt_rs.Cursor.{at, ElemRef, last_index, is_leaf_of, count_of, child_id, go_to_last}
use bbolt_rs.Cursor.View.{IsProper, elems, count_of_lem, child_id_lem, get_elem?-some}
use bbolt_rs.Cursor.Path.{
  concat, concat-append, here, child_leaves, all_leaves, leaves_of, tree_leaves, IsTree, Hangs,
  IsPath, leaves_of_leaf,
}
use bbolt_rs.Cursor.Next.{AllChildren-get}

abbrev pub last_of : List INode → Option INode
last_of [] = none
last_of (x ∷ []) = some x
last_of (x ∷ y ∷ xs) = last_of (y ∷ xs)

pub last_of-append : (xs ys : List INode) (y : INode) → last_of (xs ++ y ∷ ys) ≡ last_of (y ∷ ys)
last_of-append [] ys y = refl
last_of-append (x ∷ []) ys y = refl
last_of-append (x ∷ z ∷ xs) ys y = last_of-append (z ∷ xs) ys y

pub get_elem?-last : (xs : List INode) (n : ℕ) → length xs ≡ suc n → get_elem? xs n ≡ last_of xs
get_elem?-last [] n e = absurd (omega (arith, e))
get_elem?-last (x ∷ []) zero e = refl
get_elem?-last (x ∷ []) (suc n) e = absurd (omega (arith, e))
get_elem?-last (x ∷ y ∷ xs) zero e = absurd (omega (arith, e))
get_elem?-last (x ∷ y ∷ xs) (suc n) e = get_elem?-last (y ∷ xs) n (omega (arith, e))

pub get_elem?-inside :
    (xs : List INode) (i : ℕ) (x : INode) → get_elem? xs i ≡ some x → i < length xs
get_elem?-inside [] i x e = cc
get_elem?-inside (y ∷ xs) zero x e = omega arith
get_elem?-inside (y ∷ xs) (suc i) x e = omega (arith, get_elem?-inside xs i x e)

take_all : (n : ℕ) (xs : List INode) → length xs ≤ n → take n xs ≡ xs
take_all zero [] h = refl
take_all zero (x ∷ xs) h = absurd (omega arith)
take_all (suc n) [] h = refl
take_all (suc n) (x ∷ xs) h = ap (λ ys. x ∷ ys) (take_all n xs (omega arith))

positive : (n : ℕ) → 0 < n → (i : ℕ) × (n ≡ suc i) × (last_index n ≡ at i)
positive zero pos = absurd (omega arith)
positive (suc i) pos = (i, refl, refl)

pub INodes-cases : (xs : List INode) → (xs ≡ []) ⊎ ((y : INode) × (ys : List INode) × (xs ≡ y ∷ ys))
INodes-cases [] = inl refl
INodes-cases (y ∷ ys) = inr (y, ys, refl)

pub last_of-some : (y : INode) (ys : List INode) → (z : INode) × (last_of (y ∷ ys) ≡ some z)
last_of-some y [] = (y, refl)
last_of-some y (x ∷ ys) = last_of-some x ys

pub concat-end :
    (xss : List (List INode)) (xs : List INode) → concat (xss ++ xs ∷ []) ≡ concat xss ++ xs
concat-end xss xs = concat-append xss (xs ∷ []) ∙ ap (λ ys. concat xss ++ ys) (append-nil xs)

module _ (b : Bucket) (m : Memory) where
  all_leaves-take :
      (f : PageNode → List (List INode)) (i : ℕ) (xs : List INode) (x : INode) (pn : PageNode)
      → get_elem? xs i ≡ some x
      → page_node b m x.pgid ≡ done pn
      → all_leaves b m f (take (suc i) xs) ≡ all_leaves b m f (take i xs) ++ f pn
  all_leaves-take f i [] x pn got look = cc
  all_leaves-take f zero (y ∷ xs) x pn got look =
      let same : y ≡ x = ground (arith, got) in rw (same, look) (append-nil (f pn))
  all_leaves-take f (suc i) (y ∷ xs) x pn got look =
      ap (λ ys. child_leaves b m f (page_node b m y.pgid) ++ ys)
        (all_leaves-take f i xs x pn got look)
      ∙ sym (append_assoc (child_leaves b m f (page_node b m y.pgid)) _ (f pn))

  -- The leaves before the elements of a stack.
  abbrev pub before : ℕ → List ElemRef → List (List INode)
  before d [] = []
  before d (e ∷ stack) =
      before (suc d) stack
      ++ leaves_of b m d (is_leaf_of b m e.pn) (take (here e.index) (elems b m e.pn))

  -- Up to the end of a child, the leaves are those before it and its own.
  pub before_child :
      (d i : ℕ) (e : ElemRef) (stack : List ElemRef) (x : INode) (pn : PageNode)
      → is_leaf_of b m e.pn ≡ false
      → e.index ≡ at i
      → get_elem? (elems b m e.pn) i ≡ some x
      → page_node b m x.pgid ≡ done pn
      → before (suc d) (e ∷ stack) ++ tree_leaves b m d pn
        ≡ before (suc (suc d)) stack
          ++ leaves_of b m (suc d) (is_leaf_of b m e.pn) (take (suc i) (elems b m e.pn))
  unfolding leaves_of
  before_child d i e stack x pn branch at_i got look =
      rw (at_i, branch)
        (append_assoc (before (suc (suc d)) stack) _ _
          ∙ ap (λ ys. before (suc (suc d)) stack ++ ys)
              (sym (all_leaves-take (tree_leaves b m d) i (elems b m e.pn) x pn got look)))

  -- The top is a leaf, with the cursor on its last entry or before all in an empty leaf, and these are the
  -- leaves up to its end.
  pub record IsAtEnd (d : ℕ) (n : ℕ) (xss : List (List INode)) (f : ElemRef) (rest : List ElemRef)
      : Type 0 where
    pub height : ℕ
    pub path : IsPath b m height (f ∷ rest)
    pub is_leaf : is_leaf_of b m f.pn ≡ true
    pub at_last : f.index ≡ last_index (count_of b m f.pn)
    pub same_height : height + suc (length rest) ≡ d + suc n
    pub upto : before (suc height) rest ++ elems b m f.pn ∷ [] ≡ xss

  abbrev pub end_of : PageNode → ElemRef
  end_of pn = record { pn = pn; index = last_index (count_of b m pn) }

  go_to_last-leaf :
      (fuel : ℕ) (e : ElemRef) (stack : List ElemRef)
      → is_leaf_of b m e.pn ≡ true
      → go_to_last b m (suc fuel) (e ∷ stack) ≡ done (e ∷ stack)
  unfolding go_to_last
  go_to_last-leaf fuel e stack leaf = rw (go_to_last, leaf) refl

  pub go_to_last-branch :
      (fuel i : ℕ) (e : ElemRef) (stack : List ElemRef) (x : INode) (pn : PageNode)
      → IsProper e.pn
      → is_leaf_of b m e.pn ≡ false
      → e.index ≡ at i
      → get_elem? (elems b m e.pn) i ≡ some x
      → i < length (elems b m e.pn)
      → page_node b m x.pgid ≡ done pn
      → go_to_last b m (suc fuel) (e ∷ stack) ≡ go_to_last b m fuel (end_of pn ∷ e ∷ stack)
  unfolding go_to_last
  go_to_last-branch fuel i e stack x pn proper branch at_i got inside look =
      let id : child_id b m e.pn e.index ≡ done x.pgid =
        ap (child_id b m e.pn) at_i ∙ child_id_lem b m e.pn i x proper branch got inside in
      rw (go_to_last, branch) (rw id (rw look refl))

  at_end :
      (d : ℕ) (pn : PageNode) (rest : List ElemRef)
      → IsTree b m d pn
      → Hangs b m pn rest
      → IsPath b m (suc d) rest
      → is_leaf_of b m pn ≡ true
      → IsAtEnd d (length rest) (before (suc d) rest ++ tree_leaves b m d pn) (end_of pn) rest
  at_end d pn rest t hangs path leaf = record {
    height = d;
    path = (t, hangs, path);
    is_leaf = leaf;
    at_last = refl;
    same_height = refl;
    upto =
        ap (λ ys. before (suc d) rest ++ ys)
          (sym (leaves_of_leaf b m d (is_leaf_of b m pn) (elems b m pn) leaf));
  }

  pub go_to_last-IsAtEnd :
      (fuel d : ℕ) (pn : PageNode) (rest : List ElemRef)
      → d < fuel
      → IsTree b m d pn
      → Hangs b m pn rest
      → IsPath b m (suc d) rest
      → (f : ElemRef) × (rest' : List ElemRef) × (go_to_last b m fuel (end_of pn ∷ rest)
          ≡ done (f ∷ rest'))
        × IsAtEnd d (length rest) (before (suc d) rest ++ tree_leaves b m d pn) f rest'
  go_to_last-IsAtEnd zero d pn rest less t hangs path = absurd (omega arith)
  go_to_last-IsAtEnd (suc fuel) zero pn rest less t hangs path = (
    end_of pn,
    rest,
    go_to_last-leaf fuel (end_of pn) rest t.1,
    at_end zero pn rest t hangs path t.1,
  )
  go_to_last-IsAtEnd (suc fuel) (suc d) pn rest less (proper, inl leaf) hangs path = (
    end_of pn,
    rest,
    go_to_last-leaf fuel (end_of pn) rest leaf,
    at_end (suc d) pn rest (proper, inl leaf) hangs path leaf,
  )
  go_to_last-IsAtEnd (suc fuel) (suc d) pn rest less (proper, inr (branch, pos, kids)) hangs path =
      let (i, size, last) = positive (length (elems b m pn)) pos in
      let at_i : last_index (count_of b m pn) ≡ at i =
        ap last_index (count_of_lem b m pn proper) ∙ last in
      let (x, got) = get_elem?-some (elems b m pn) i (omega (arith, size)) in
      let (child, look, t) = AllChildren-get b m (IsTree b m d) (elems b m pn) i x kids got in
      let (f, rest', run, r) =
        go_to_last-IsAtEnd fuel d child (end_of pn ∷ rest) (omega arith) t
          (branch, (i, x, at_i, got, look)) ((proper, inr (branch, pos, kids)), hangs, path) in
      (
        f,
        rest',
        go_to_last-branch fuel i (end_of pn) rest x child proper branch at_i got
              (omega (arith, size)) look
            ∙ run,
        record {
          height = r.height;
          path = r.path;
          is_leaf = r.is_leaf;
          at_last = r.at_last;
          same_height = omega (arith, r.same_height);
          upto =
              r.upto
              ∙ before_child d i (end_of pn) rest x child branch at_i got look
              ∙ ap (λ ys. before (suc (suc d)) rest ++ leaves_of b m (suc d) (is_leaf_of b m pn) ys)
                  (take_all (suc i) (elems b m pn) (omega (arith, size)));
        },
      )
