-- ===== src/Node/Split.antt =====
-- The split of a node of src/node.rs: where it cuts, and what the pieces are.
use mathlib.Core.List.{append-nil, append_assoc}
use bbolt_rs.Prelude.{
  ℕ, zero, suc, ◌+◌, ◌-◌, ◌*◌, ◌≤◌, ◌<◌, ◌≡◌, refl, ap, ◌∙◌, ◌>>=◌, ◌⊎◌, inl, inr, Bool, true,
  false, ◌||◌, ◌&&◌, Option, none, some, List, [], ◌∷◌, ◌++◌, map, arith, leb, ltb, length, take,
  drop, take-drop, length-take, take-take, done, Bool-cases,
}
use bbolt_rs.Page.{page_header_size, min_keys_per_page}
use bbolt_rs.Node.{
  INode, data_size, size_from, size, NodeSplit, less_from, size_less_than, index_loop, split_index,
  parent_or_new, split_two, next_node, split_all,
}

size_from-le : (e n : ℕ) (xs : List INode) → n ≤ size_from e n xs
unfolding size_from
size_from-le e n [] = omega arith
size_from-le e n (x ∷ xs) = omega (arith, size_from-le e (n + (e + data_size x)) xs)

less_from_lem :
    (p e n : ℕ) (xs : List INode) → n ≤ p → less_from p e n xs ≡ leb (size_from e n xs) p
unfolding less_from size_from
less_from_lem p e n [] h = ground arith
less_from_lem p e n (x ∷ xs) h =
    ground (
      arith,
      less_from_lem p e (n + (e + data_size x)) xs,
      size_from-le e (n + (e + data_size x)) xs,
    )

-- `size_less_than`, which stops early, tells whether the size of a node with these entries is at
-- most a page, if a page has room for its header.
pub size_less_than_lem :
    (s : NodeSplit) (rem : List INode)
    → page_header_size ≤ s.page_size
    → size_less_than s rem ≡ leb (size s.page_element_size rem) s.page_size
unfolding size_less_than size
size_less_than_lem s rem h = less_from_lem s.page_size s.page_element_size page_header_size rem h

-- What the loop of `split_index` finds over the entries `xs`, the first of which has the index `idx`.
IsCut : ℕ → ℕ → ℕ → ℕ → List INode → ℕ → Type 0
IsCut t e idx n xs index =
    (k : ℕ) × (index ≡ idx + k)
    × (k < length xs)
    × ((2 ≤ index) ⊎ (suc k ≡ length xs))
    × ((index ≤ 2) ⊎ (size_from e n (take k xs) ≤ t))

index_loop-IsCut :
    (t e idx index n : ℕ) (x : INode) (xs : List INode)
    → (idx ≤ 2) ⊎ (n ≤ t)
    → IsCut t e idx n (x ∷ xs) (index_loop t e idx index n (x ∷ xs)).0
unfolding IsCut index_loop size_from
index_loop-IsCut t e idx index n x [] h =
    (0, ground arith, omega arith, inr refl, ground (arith, h))
index_loop-IsCut t e idx index n x (y ∷ xs) h =
    elim (Bool-cases (leb 2 idx && ltb t (n + (e + data_size x)))) [
      | inl full ↦ rw full (0, omega arith, omega arith, inl (ground arith), ground (arith, h))
      | inr room ↦
          let (k, at, less, far, fits) =
            index_loop-IsCut t e (suc idx) idx (n + (e + data_size x)) y xs (ground arith) in
          rw room (suc k, omega (arith, at), omega (arith, less), ground (arith, far), fits)
    ]

index_loop-prefix :
    (t e m : ℕ) (rem : List INode)
    → 0 < m
    → 0 < length rem
    → IsCut t e 0 page_header_size (take m rem) (index_loop t e 0 0 page_header_size (take m rem)).0
index_loop-prefix t e zero rem h k = absurd (omega arith)
index_loop-prefix t e (suc m) [] h k = absurd (omega arith)
index_loop-prefix t e (suc m) (x ∷ xs) h k =
    index_loop-IsCut t e 0 0 page_header_size x (take m xs) (inl (omega arith))

-- A cut inside a prefix of `m` entries of the list.
cut_prefix :
    (t e m : ℕ) (rem : List INode) (index : ℕ)
    → 2 < m
    → m ≤ length rem
    → IsCut t e 0 page_header_size (take m rem) index
    → (2 ≤ index) × (index < m) × ((index ≤ 2) ⊎ (size e (take index rem) ≤ t))
unfolding IsCut size
cut_prefix t e m rem index big h (k, at, less, far, fits) =
    let whole : length (take m rem) ≡ m = length-take m rem h in
    let same : k ≡ index = omega (arith, at) in
    let inside : index < m = omega (arith, whole, less, same) in
    (
      ground (arith, far, whole, same),
      inside,
      elim fits [
        | inl two ↦ inl two
        | inr room ↦ inr (rw (same, take-take index m rem (omega arith)) at room)
      ],
    )

-- The cut of a list with enough entries for two pages leaves two entries or more on the left, three
-- or more on the right, and the left side is within the threshold unless it has just two entries.
pub split_index_lem :
    (s : NodeSplit) (rem : List INode)
    → min_keys_per_page * 2 < length rem
    → let index = (split_index s rem).0 in
      (2 ≤ index)
      × (index + 3 ≤ length rem)
      × ((index ≤ 2) ⊎ (size s.page_element_size (take index rem) ≤ s.threshold))
unfolding split_index
split_index_lem s rem h =
    let m = length rem - min_keys_per_page in
    let more : leb (length rem) min_keys_per_page ≡ false = ground arith in
    let (low, high, fits) =
      cut_prefix s.threshold s.page_element_size m rem _ (omega arith) (omega arith)
        (index_loop-prefix s.threshold s.page_element_size m rem (omega arith) (omega arith)) in
    rw more (low, omega (arith, high), fits)

-- The entries of all pieces, in order.
abbrev pub all_inodes : List (ℕ × List INode) → List INode
all_inodes [] = []
all_inodes ((node, inodes) ∷ pieces) = inodes ++ all_inodes pieces

-- Each piece has two entries or more, and fits a page or has at most four.
abbrev pub AllFit : ℕ → ℕ → List (ℕ × List INode) → Type 0
AllFit page_size e [] = Unit {0}
AllFit page_size e ((node, inodes) ∷ pieces) =
    (2 ≤ length inodes)
    × ((length inodes ≤ 4) ⊎ (size e inodes ≤ page_size))
    × AllFit page_size e pieces

-- The children of the parent after the split: where nodes were made, they follow its former
-- children, or the split node where there was no parent.
abbrev pub links : Option (List ℕ) → ℕ → List ℕ → Option (List ℕ)
links parent node [] = parent
links parent node (n ∷ made) = some (parent_or_new node parent ++ n ∷ made)

abbrev pub node_ids : List (ℕ × List INode) → List ℕ
node_ids = map (λ piece. piece.0)

-- What the split gives: the pieces hold the entries in their order, the first piece is for the node
-- itself and the others for nodes that were made, which the parent lists.
pub record IsSplit (s : NodeSplit) (node : ℕ) (pieces : List (ℕ × List INode)) (g : NodeSplit)
    : Type 0 where
  pub made : List ℕ
  pub its_nodes : node_ids pieces ≡ node ∷ made
  pub its_inodes : all_inodes pieces ≡ s.split_array
  pub fits : AllFit s.page_size s.page_element_size pieces
  pub its_parent : g.parent ≡ links s.parent node made
  pub ended : g.next ≡ none

links_more :
    (parent : Option (List ℕ)) (node n : ℕ) (made : List ℕ)
    → links (some (parent_or_new node parent ++ n ∷ [])) n made ≡ links parent node (n ∷ made)
unfolding parent_or_new
links_more parent node n [] = refl
links_more parent node n (m ∷ made) =
    ap (λ c. some c) (append_assoc (parent_or_new node parent) (n ∷ []) (m ∷ made))

length-drop : (n : ℕ) (xs : List INode) → length (drop n xs) ≡ length xs - n
length-drop zero xs = omega arith
length-drop (suc n) [] = omega arith
length-drop (suc n) (x ∷ xs) = omega (arith, length-drop n xs)

abbrev is_small : NodeSplit → Bool
is_small s = leb (length s.split_array) (min_keys_per_page * 2) || size_less_than s s.split_array

abbrev cut_state : NodeSplit → ℕ → NodeSplit
cut_state s node = record s {
  split_array = drop (split_index s s.split_array).0 s.split_array;
  parent = some (parent_or_new node s.parent ++ s.fresh ∷ []);
  fresh = suc s.fresh;
  next = some s.fresh;
}

next_node-small :
    (s : NodeSplit) (node : ℕ)
    → is_small s ≡ true
    → next_node s (some node)
      ≡ (record s { split_array = []; next = none }, some (node, s.split_array))
unfolding next_node split_two
next_node-small s node e = rw e refl

next_node-large :
    (s : NodeSplit) (node : ℕ)
    → is_small s ≡ false
    → next_node s (some node)
      ≡ (cut_state s node, some (node, take (split_index s s.split_array).0 s.split_array))
unfolding next_node split_two
next_node-large s node e = rw e refl

split_all-step :
    (fuel : ℕ) (s g : NodeSplit) (node : ℕ) (piece : ℕ × List INode)
    → s.next ≡ some node
    → next_node s (some node) ≡ (g, some piece)
    → split_all (suc fuel) s ≡ (do (pieces, h) ← split_all fuel g; done (piece ∷ pieces, h))
unfolding split_all
split_all-step fuel s g node piece e step =
    let its : next_node s s.next ≡ (g, some piece) = ap (next_node s) e ∙ step in
    ap
      (λ (r : NodeSplit × Option (ℕ × List INode)). elim r.1 [
        | none ↦ done ([], r.0)
        | some p ↦ (do (pieces, h) ← split_all fuel r.0; done (p ∷ pieces, h))
      ])
      its

split_all-end : (fuel : ℕ) (s : NodeSplit) → s.next ≡ none → split_all (suc fuel) s ≡ done ([], s)
unfolding split_all next_node
split_all-end fuel s e = rw e refl

-- The split of a node with two entries or more ends, with fuel of at least two more than the number
-- of its entries, for a page with room for its header and a threshold of at most a page.
pub split_all-IsSplit :
    (fuel : ℕ) (s : NodeSplit) (node : ℕ)
    → s.next ≡ some node
    → 2 ≤ length s.split_array
    → suc (length s.split_array) < fuel
    → page_header_size ≤ s.page_size
    → s.threshold ≤ s.page_size
    → (pieces : List (ℕ × List INode)) × (g : NodeSplit) × (split_all fuel s ≡ done (pieces, g))
      × IsSplit s node pieces g
split_all-IsSplit zero s node e two enough page most = absurd (omega arith)
split_all-IsSplit (suc zero) s node e two enough page most = absurd (omega arith)
split_all-IsSplit (suc (suc fuel)) s node e two enough page most = elim (Bool-cases (is_small s)) [
  | inl small ↦
      let last = record s { split_array = []; next = none } in
      (
        (node, s.split_array) ∷ [],
        last,
        split_all-step (suc fuel) s last node (node, s.split_array) e (next_node-small s node small)
            ∙ ap (λ r. r >>= (λ (pieces, h). done ((node, s.split_array) ∷ pieces, h)))
                (split_all-end fuel last refl),
        record {
          made = [];
          its_nodes = refl;
          its_inodes = append-nil s.split_array;
          fits = (two, ground (arith, small, size_less_than_lem s s.split_array page), tt);
          its_parent = refl;
          ended = refl;
        },
      )
  | inr large ↦
      let index = (split_index s s.split_array).0 in
      let (low, high, small) = split_index_lem s s.split_array (ground (arith, large)) in
      let left : length (take index s.split_array) ≡ index =
        length-take index s.split_array (omega (arith, high)) in
      let right : length (drop index s.split_array) ≡ length s.split_array - index =
        length-drop index s.split_array in
      let (pieces, g, run, r) =
        split_all-IsSplit (suc fuel) (cut_state s node) s.fresh refl (omega (arith, right, high))
          (omega (arith, right, low)) page most in
      (
        (node, take index s.split_array) ∷ pieces,
        g,
        split_all-step (suc fuel) s (cut_state s node) node (node, take index s.split_array) e
              (next_node-large s node large)
            ∙ ap (λ r. r >>= (λ (ps, h). done ((node, take index s.split_array) ∷ ps, h))) run,
        record {
          made = s.fresh ∷ r.made;
          its_nodes = ap (λ ns. node ∷ ns) r.its_nodes;
          its_inodes =
              ap (λ xs. take index s.split_array ++ xs) r.its_inodes
              ∙ take-drop index s.split_array;
          fits = (omega (arith, left, low), ground (arith, left, small), r.fits);
          its_parent = r.its_parent ∙ links_more s.parent node s.fresh r.made;
          ended = r.ended;
        },
      )
]
