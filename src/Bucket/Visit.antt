-- ===== src/Bucket/Visit.antt =====
-- `api_for_each` and `api_for_each_bucket` of src/bucket.rs: what they visit.
use bbolt_rs.Prelude.{
  ℕ, zero, suc, ◌+◌, ◌≤◌, ◌<◌, ◌≡◌, refl, ap, ◌∙◌, ◌⊎◌, inl, inr, Option, none, some, List, [], ◌∷◌,
  arith, ◌==◌, if◌then◌else◌, done, length, Bool-cases, Option-cases,
}
use Prim.Native.Nat.{bit_and}
use bbolt_rs.Page.{bucket_leaf_flag}
use bbolt_rs.Node.{INode}
use bbolt_rs.Store.{PageNode, Memory, Bucket, root, page_node}
use bbolt_rs.Cursor.{
  ElemRef, Item, item, user_item, hide_bucket, i_first, i_next, api_first, api_next,
}
use bbolt_rs.Cursor.Path.{concat, tree_leaves, IsTree, IsPath, after, left-le}
use bbolt_rs.Cursor.Next.{i_next-IsNext}
use bbolt_rs.Cursor.First.{i_first-IsFirst}
use bbolt_rs.Bucket.{is_bucket, each, api_for_each, visit_bucket, each_bucket, api_for_each_bucket}

-- The entry at which a cursor stands, and those behind it that are to come.
abbrev pub StandsAt : Bucket → Memory → List INode → ℕ → List ElemRef → Option Item → Type 0
StandsAt b m xs h stack r =
    ((r ≡ none) × (xs ≡ []))
    ⊎ ((x : INode) × (r ≡ some (item x)) × (xs ≡ x ∷ concat (after b m h stack)))

-- The visits one after the other, until one ends them with an error.
module _ {S E : Type 0} (visit : S → INode → S × Option E) where
  unfoldable pub visit_all : S → List INode → S × Option E
  visit_all s [] = (s, none)
  visit_all s (x ∷ xs) = elim (visit s x).1 [
    | some e ↦ ((visit s x).0, some e)
    | none ↦ visit_all (visit s x).0 xs
  ]

-- What the visitor of `api_for_each` is given of an entry.
abbrev pub user_value : INode → Option (List ℕ)
user_value x = if bit_and x.flags bucket_leaf_flag == 0 then some x.value else none

abbrev pub visit_entry :
    {S E : Type 0} → (S → List ℕ → Option (List ℕ) → S × Option E) → S → INode → S × Option E
visit_entry f s x = f s x.key (user_value x)

-- Of an entry that is a bucket the visitor is given the key, and all others are passed by.
abbrev pub visit_if_bucket : {S E : Type 0} → (S → List ℕ → S × Option E) → S → INode → S × Option E
visit_if_bucket f s x = if is_bucket x.flags then f s x.key else (s, none)

user_item-hide_bucket : (r : Option Item) → user_item (hide_bucket r) ≡ user_item r
user_item-hide_bucket none = refl
user_item-hide_bucket (some (k, v, flags)) =
    elim (Bool-cases (bit_and flags bucket_leaf_flag == 0)) [
      | inl e ↦ rw e (rw e refl)
      | inr e ↦ rw e (rw e refl)
    ]

module _ {S E : Type 0} (f : S → List ℕ → Option (List ℕ) → S × Option E) (b : Bucket)
    (m : Memory) where
  each-end :
      (rounds height fuel : ℕ) (s : S) (stack : List ElemRef)
      → each f b m (suc rounds) height fuel s stack none ≡ done (s, none)
  unfolding each
  each-end rounds height fuel s stack = refl

  each-stop :
      (rounds height fuel : ℕ) (s : S) (stack : List ElemRef) (x : INode) (e : E)
      → (visit_entry f s x).1 ≡ some e
      → each f b m (suc rounds) height fuel s stack (user_item (some (item x)))
        ≡ done ((visit_entry f s x).0, some e)
  unfolding each
  each-stop rounds height fuel s stack x e stop = rw stop refl

  each-go :
      (rounds height fuel : ℕ) (s : S) (stack next : List ElemRef) (x : INode) (r : Option Item)
      → (visit_entry f s x).1 ≡ none
      → i_next b m height fuel stack ≡ done (next, r)
      → each f b m (suc rounds) height fuel s stack (user_item (some (item x)))
        ≡ each f b m rounds height fuel (visit_entry f s x).0 next (user_item r)
  unfolding each api_next
  each-go rounds height fuel s stack next x r go run = rw go (rw run refl)

  each-visit_all :
      (rounds height fuel h : ℕ) (s : S) (stack : List ElemRef) (r : Option Item) (xs : List INode)
      → IsPath b m h stack
      → h + length stack ≤ height
      → length (after b m h stack) < fuel
      → length xs < rounds
      → StandsAt b m xs h stack r
      → each f b m rounds height fuel s stack (user_item r) ≡ done (visit_all (visit_entry f) s xs)
  unfolding visit_all
  each-visit_all zero height fuel h s stack r xs path high enough many at = absurd (omega arith)
  each-visit_all (suc rounds) height fuel h s stack r xs path high enough many (inl (e, nothing)) =
      rw (e, nothing) (each-end rounds height fuel s stack)
  each-visit_all (suc rounds) height fuel h s stack r xs path high enough many (inr (x, e, more)) =
      let (next, res, run, n) =
        i_next-IsNext b m height fuel h stack path high
          (omega (arith, left-le b m h stack, enough)) in
      elim (Option-cases (visit_entry f s x).1) [
        | inl go ↦
            rw (e, more)
              (each-go rounds height fuel s stack next x res go run
                ∙ each-visit_all rounds height fuel n.height (visit_entry f s x).0 next res
                    (concat (after b m h stack)) n.path (omega (arith, n.same_height))
                    (omega (arith, n.shorter)) (omega (arith, ap length more, many))
                    (elim n.passed [ inl (e1, e2, _) ↦ inl (e1, e2) | inr p ↦ inr p ])
                ∙ rw (visit_all, go) refl)
        | inr (stop, ends) ↦
            rw (e, more)
              (each-stop rounds height fuel s stack x stop ends ∙ rw (visit_all, ends) refl)
      ]

  api_for_each-first :
      (rounds height fuel : ℕ) (s : S) (stack : List ElemRef) (r : Option Item)
      → i_first b m height fuel ≡ done (stack, r)
      → api_for_each f b m rounds height fuel s
        ≡ each f b m rounds height fuel s stack (user_item r)
  unfolding api_for_each api_first
  api_for_each-first rounds height fuel s stack r run = rw run refl

  -- `api_for_each` visits all entries of the bucket in the order of the tree, each with its value or as a
  -- bucket, until a visit ends with an error. The root is a tree, and the rounds are more than the entries.
  pub api_for_each-visit_all :
      (rounds height fuel d : ℕ) (s : S) (pn : PageNode)
      → page_node b m (root b) ≡ done pn
      → IsTree b m d pn
      → d < height
      → length (tree_leaves b m d pn) < fuel
      → length (concat (tree_leaves b m d pn)) < rounds
      → api_for_each f b m rounds height fuel s
        ≡ done (visit_all (visit_entry f) s (concat (tree_leaves b m d pn)))
  api_for_each-visit_all rounds height fuel d s pn look t high enough many =
      let (stack, r, run, (h, path, same_height, short, found)) =
        i_first-IsFirst b m height fuel d pn look t high enough in
      let (r', shown, stands) = first_stands h stack r found in
      api_for_each-first rounds height fuel s stack r run
      ∙ ap (each f b m rounds height fuel s stack) shown
      ∙ each-visit_all rounds height fuel h s stack r' (concat (tree_leaves b m d pn)) path
          (omega (arith, same_height)) (omega (arith, short)) many stands
    where
      first_stands :
          (h : ℕ) (stack : List ElemRef) (r : Option Item)
          → (((r ≡ none) × (concat (tree_leaves b m d pn) ≡ []))
              ⊎ ((x : INode) × (r ≡ hide_bucket (some (item x)))
                  × (concat (tree_leaves b m d pn) ≡ x ∷ concat (after b m h stack))))
          → (r' : Option Item) × (user_item r ≡ user_item r')
            × StandsAt b m (concat (tree_leaves b m d pn)) h stack r'
      first_stands h stack r (inl (e, nothing)) = (none, ap user_item e, inl (refl, nothing))
      first_stands h stack r (inr (x, e, more)) = (
        some (item x),
        ap user_item e ∙ user_item-hide_bucket (some (item x)),
        inr (x, refl, more),
      )

module _ {S E : Type 0} (f : S → List ℕ → S × Option E) (b : Bucket) (m : Memory) where
  each_bucket-stop :
      (rounds height fuel : ℕ) (s : S) (stack : List ElemRef) (x : Item) (e : E)
      → (visit_bucket f s x).1 ≡ some e
      → each_bucket f b m (suc rounds) height fuel s stack (some x)
        ≡ done ((visit_bucket f s x).0, some e)
  unfolding each_bucket
  each_bucket-stop rounds height fuel s stack x e stop = rw (each_bucket, stop) refl

  each_bucket-go :
      (rounds height fuel : ℕ) (s : S) (stack next : List ElemRef) (x : Item) (r : Option Item)
      → (visit_bucket f s x).1 ≡ none
      → i_next b m height fuel stack ≡ done (next, r)
      → each_bucket f b m (suc rounds) height fuel s stack (some x)
        ≡ each_bucket f b m rounds height fuel (visit_bucket f s x).0 next r
  unfolding each_bucket
  each_bucket-go rounds height fuel s stack next x r go run = rw (each_bucket, go) (rw run refl)

  -- The item may be another one that is visited alike.
  abbrev pub StandsLike : List INode → ℕ → List ElemRef → Option Item → Type 0
  StandsLike xs h stack r =
      ((r ≡ none) × (xs ≡ []))
      ⊎ ((x : INode) × (y : Item) × (r ≡ some y)
          × ((s : S) → visit_bucket f s y ≡ visit_if_bucket f s x)
          × (xs ≡ x ∷ concat (after b m h stack)))

  each_bucket-visit_all :
      (rounds height fuel h : ℕ) (s : S) (stack : List ElemRef) (r : Option Item) (xs : List INode)
      → IsPath b m h stack
      → h + length stack ≤ height
      → length (after b m h stack) < fuel
      → length xs < rounds
      → StandsLike xs h stack r
      → each_bucket f b m rounds height fuel s stack r ≡ done (visit_all (visit_if_bucket f) s xs)
  unfolding visit_all each_bucket
  each_bucket-visit_all zero height fuel h s stack r xs path high enough many at =
      absurd (omega arith)
  each_bucket-visit_all (suc rounds) height fuel h s stack r xs path high enough many
        (inl (e, nothing)) =
      rw (e, nothing) refl
  each_bucket-visit_all (suc rounds) height fuel h s stack r xs path high enough many
        (inr (x, y, e, alike, more)) =
      let (next, res, run, n) =
        i_next-IsNext b m height fuel h stack path high
          (omega (arith, left-le b m h stack, enough)) in
      elim (Option-cases (visit_if_bucket f s x).1) [
        | inl go ↦
            rw (e, more)
              (each_bucket-go rounds height fuel s stack next y res (ap (λ p. p.1) (alike s) ∙ go)
                  run
                ∙ ap (λ p. each_bucket f b m rounds height fuel p.0 next res) (alike s)
                ∙ each_bucket-visit_all rounds height fuel n.height (visit_if_bucket f s x).0 next
                    res (concat (after b m h stack)) n.path (omega (arith, n.same_height))
                    (omega (arith, n.shorter)) (omega (arith, ap length more, many))
                    (elim n.passed [
                      | inl (e1, e2, _) ↦ inl (e1, e2)
                      | inr (x', e1, e2) ↦ inr (x', item x', e1, (λ s'. refl), e2)
                    ])
                ∙ rw (visit_all, go) refl)
        | inr (stop, ends) ↦
            rw (e, more)
              (each_bucket-stop rounds height fuel s stack y stop (ap (λ p. p.1) (alike s) ∙ ends)
                ∙ ap (λ p. done (p.0, some stop)) (alike s)
                ∙ rw (visit_all, ends) refl)
      ]

  visit_bucket-hide_bucket :
      (x : Item)
      → (y : Item) × (hide_bucket (some x) ≡ some y)
        × ((s : S) → visit_bucket f s y ≡ visit_bucket f s x)
  visit_bucket-hide_bucket (k, v, flags) = elim (Bool-cases (bit_and flags bucket_leaf_flag == 0)) [
    | inl e ↦ ((k, v, flags), rw e refl, λ s. refl)
    | inr e ↦ ((k, [], flags), rw e refl, λ s. refl)
  ]

  api_for_each_bucket-first :
      (rounds height fuel : ℕ) (s : S) (stack : List ElemRef) (r : Option Item)
      → i_first b m height fuel ≡ done (stack, r)
      → api_for_each_bucket f b m rounds height fuel s
        ≡ each_bucket f b m rounds height fuel s stack r
  unfolding api_for_each_bucket
  api_for_each_bucket-first rounds height fuel s stack r run = rw run refl

  -- `api_for_each_bucket` visits the keys of the entries that are buckets, in the order of the tree,
  -- until a visit ends with an error. The root is a tree, and the rounds are more than the entries.
  pub api_for_each_bucket-visit_all :
      (rounds height fuel d : ℕ) (s : S) (pn : PageNode)
      → page_node b m (root b) ≡ done pn
      → IsTree b m d pn
      → d < height
      → length (tree_leaves b m d pn) < fuel
      → length (concat (tree_leaves b m d pn)) < rounds
      → api_for_each_bucket f b m rounds height fuel s
        ≡ done (visit_all (visit_if_bucket f) s (concat (tree_leaves b m d pn)))
  api_for_each_bucket-visit_all rounds height fuel d s pn look t high enough many =
      let (stack, r, run, (h, path, same_height, short, found)) =
        i_first-IsFirst b m height fuel d pn look t high enough in
      api_for_each_bucket-first rounds height fuel s stack r run
      ∙ each_bucket-visit_all rounds height fuel h s stack r (concat (tree_leaves b m d pn)) path
          (omega (arith, same_height)) (omega (arith, short)) many (first_alike h stack r found)
    where
      first_alike :
          (h : ℕ) (stack : List ElemRef) (r : Option Item)
          → (((r ≡ none) × (concat (tree_leaves b m d pn) ≡ []))
              ⊎ ((x : INode) × (r ≡ hide_bucket (some (item x)))
                  × (concat (tree_leaves b m d pn) ≡ x ∷ concat (after b m h stack))))
          → StandsLike (concat (tree_leaves b m d pn)) h stack r
      first_alike h stack r (inl nothing) = inl nothing
      first_alike h stack r (inr (x, e, more)) =
          let (y, shown, alike) = visit_bucket-hide_bucket (item x) in
          inr (x, y, e ∙ shown, alike, more)
