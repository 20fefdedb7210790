-- ===== src/Bucket/Reach.antt =====
-- The way of a write to the root leaf of a bucket of src/bucket.rs: `node` of src/cursor.rs finds the node, or
-- reads it from its page.
use mathlib.Core.Path.{sym}
use mathlib.Core.List.{append-nil}
use bbolt_rs.Prelude.{
  ℕ, suc, ◌+◌, ◌<◌, ◌≡◌, refl, ap, subst, ◌∙◌, inl, inr, Bool, true, false, ◌==◌, Option, none,
  some, List, [], ◌∷◌, arith, if◌then◌else◌, Outcome, done, panic, diverge, length, map, get,
  insert, get-insert, Option-cases, Bool-cases,
}
use bbolt_rs.Page.{is_leaf, leaf_page_flag}
use bbolt_rs.Node.{INode}
use bbolt_rs.Node.Keys.{cmp, is_equal, KeysAbove, HasSortedKeys, lookup}
use bbolt_rs.Node.Put.{NodeW}
use bbolt_rs.Store.{
  first_key, TreePage, PageNode, page, node, Memory, Bucket, BucketW, root, page_node, page_for,
  from_leaf, read_all, read_inodes, read_in, bucket_node, new_node, set_cell, cached,
}
use bbolt_rs.Cursor.{ElemRef, Item}
use bbolt_rs.Cursor.View.{elems}
use bbolt_rs.Cursor.Path.{IsTree, IsPath, leaves_of}
use bbolt_rs.Bucket.{leaf_node, root_of_stack, cursor_node, descend, api_get}
use bbolt_rs.Bucket.Get.{value_of, api_get-lookup}
use bbolt_rs.Tree.RoundTrip.{HasKeys}

read_all-from_leaf :
    (xs : List INode) → HasKeys xs → read_all from_leaf xs ≡ done (map from_leaf xs)
unfolding read_all
read_all-from_leaf [] keys = refl
read_all-from_leaf (x ∷ xs) (key, keys) = rw (read_all-from_leaf xs keys) (rw key refl)

map-KeysAbove : (a : List ℕ) (xs : List INode) → KeysAbove a xs → KeysAbove a (map from_leaf xs)
map-KeysAbove a [] h = tt
map-KeysAbove a (x ∷ xs) (l, h) = (l, map-KeysAbove a xs h)

map-HasSortedKeys : (xs : List INode) → HasSortedKeys xs → HasSortedKeys (map from_leaf xs)
map-HasSortedKeys [] h = tt
map-HasSortedKeys (x ∷ xs) (above, h) = (map-KeysAbove x.key xs above, map-HasSortedKeys xs h)

map-lookup :
    (k : List ℕ) (xs : List INode) → value_of (lookup k (map from_leaf xs)) ≡ value_of (lookup k xs)
unfolding lookup
map-lookup k [] = refl
map-lookup k (x ∷ xs) = elim (Bool-cases (is_equal (cmp x.key k))) [
  | inl e ↦ rw e refl
  | inr e ↦ rw e (map-lookup k xs)
]

-- The root of a bucket is a leaf page that no node has been read from yet.
pub record IsUnread (b : Bucket) (m : Memory) (w : BucketW) (p : TreePage) : Type 0 where
  pub writes : b.w ≡ some w
  pub not_cached : get (root b) w.nodes ≡ none
  pub own_id : p.header.id ≡ root b
  pub its_page : page_for b m (root b) ≡ p
  pub flags : p.header.flags ≡ leaf_page_flag
  pub keys : HasKeys p.elements

-- The root of a bucket is a leaf, in a page or in a node, that a put can change.
abbrev pub IsWritable : Bucket → Memory → PageNode → Type 0
IsWritable b m (page p) = (w : BucketW) × IsUnread b m w p
IsWritable b m (node n) = (m.cells n).is_leaf ≡ true

-- The node that is read from a leaf page.
abbrev read_node : TreePage → NodeW
read_node p = record {
  is_leaf = true;
  key = first_key (map from_leaf p.elements);
  pgid = p.header.id;
  inodes = map from_leaf p.elements;
  parent = none;
  is_unbalanced = false;
  is_spilled = false;
  children = [];
}

read_in-leaf :
    (p : TreePage)
    → p.header.flags ≡ leaf_page_flag
    → HasKeys p.elements
    → read_in none p ≡ done (read_node p)
unfolding read_in read_inodes is_leaf
read_in-leaf p flags keys = rw (flags, read_all-from_leaf p.elements keys) refl

-- The bucket and the memory when the root has been read into a node.
abbrev with_root : Bucket → BucketW → ℕ → Bucket
with_root b w n = record b {
  w = some (record { root_node = some n; nodes = insert (root b) n w.nodes });
}

abbrev with_node : Memory → TreePage → Memory
with_node m p = record (set_cell m m.fresh (read_node p)) { fresh = suc m.fresh }

bucket_node-new :
    (b : Bucket) (m : Memory) (w : BucketW) (id : ℕ) (parent : Option ℕ)
    → get id w.nodes ≡ none
    → bucket_node (record b { w = some w }) m id parent
      ≡ new_node (record b { w = some w }) w m id parent
unfolding bucket_node
bucket_node-new b m w id parent absent = rw (bucket_node, absent) refl

new_node-leaf :
    (b : Bucket) (m : Memory) (w : BucketW) (p : TreePage)
    → IsUnread b m w p
    → new_node b w m (root b) none ≡ done (with_root b w m.fresh, with_node m p, m.fresh)
new_node-leaf b m w p r = rw r.its_page (rw (read_in-leaf p r.flags r.keys) refl)

bucket_node-leaf :
    (b : Bucket) (m : Memory) (w : BucketW) (p : TreePage)
    → IsUnread b m w p
    → bucket_node b m p.header.id none ≡ done (with_root b w m.fresh, with_node m p, m.fresh)
bucket_node-leaf b m w p r =
    ap (λ id. bucket_node b m id none) r.own_id
    ∙ subst
        (λ z.
          bucket_node (record b { w = z }) m (root b) none
          ≡ new_node (record b { w = z }) w m (root b) none)
        (sym r.writes) (bucket_node-new b m w (root b) none r.not_cached)
    ∙ new_node-leaf b m w p r

with_root-page_node :
    (b : Bucket) (m : Memory) (w : BucketW) (n : ℕ)
    → page_node (with_root b w n) m (root b) ≡ done (node n)
unfolding page_node
with_root-page_node b m w n = elim (Bool-cases (root b == 0)) [
  | inl inline ↦ rw inline refl
  | inr own ↦
      let self : (root b == root b) ≡ true = ground arith in
      rw own (rw (get-insert (root b) (root b) n w.nodes, self) refl)
]

-- A node in the cache is found whatever the memory holds.
page_node-node :
    (b : Bucket) (m m' : Memory) (id n : ℕ)
    → page_node b m id ≡ done (node n)
    → page_node b m' id ≡ done (node n)
unfolding page_node
page_node-node b m m' id n h = elim (Bool-cases (root b == 0)) [
  | inl inline ↦ rw inline (rw inline at h)
  | inr own ↦ elim (Option-cases (cached id b.w)) [
    | inl absent ↦ absurd (cc (rw absent at rw own at h))
    | inr (i, there) ↦ rw own (rw there (rw there at rw own at h))
  ]
]

-- A node that the cursor has reached: the root of the bucket, and a leaf with these entries as far as a
-- reader can tell.
pub record IsReached (b : Bucket) (m : Memory) (n : ℕ) (xs : List INode) : Type 0 where
  pub at_root : (m' : Memory) → page_node b m' (root b) ≡ done (node n)
  pub leaf : (m.cells n).is_leaf ≡ true
  pub sorted : HasSortedKeys (m.cells n).inodes
  pub alike : (k : List ℕ) → value_of (lookup k (m.cells n).inodes) ≡ value_of (lookup k xs)

walk-leaf :
    (b b' : Bucket) (m m' : Memory) (n : ℕ) (e : ElemRef)
    → leaf_node m e.pn ≡ none
    → root_of_stack b m e.pn ≡ done (b', m', n)
    → (m'.cells n).is_leaf ≡ true
    → cursor_node b m (e ∷ []) ≡ done (b', m', n)
unfolding cursor_node descend
walk-leaf b b' m m' n e unread run leaf = rw (cursor_node, unread) (rw run (rw leaf refl))

cursor_node-here :
    (b : Bucket) (m : Memory) (n : ℕ) (e : ElemRef)
    → leaf_node m e.pn ≡ some n
    → cursor_node b m (e ∷ []) ≡ done (b, m, n)
unfolding cursor_node
cursor_node-here b m n e read = rw (cursor_node, read) refl

pub cursor_node-IsReached :
    (b : Bucket) (m : Memory) (pn : PageNode) (e : ElemRef)
    → page_node b m (root b) ≡ done pn
    → HasSortedKeys (elems b m pn)
    → IsWritable b m pn
    → e.pn ≡ pn
    → (b' : Bucket) × (m' : Memory) × (n : ℕ) × (cursor_node b m (e ∷ []) ≡ done (b', m', n))
      × IsReached b' m' n (elems b m pn)
unfolding root_of_stack bucket_node
cursor_node-IsReached b m (node n) e look sorted leaf same = (
  b,
  m,
  n,
  cursor_node-here b m n e (ap (leaf_node m) same ∙ rw leaf refl),
  record {
    at_root = λ m'. page_node-node b m m' (root b) n look;
    leaf = leaf;
    sorted = sorted;
    alike = λ k. refl;
  },
)
cursor_node-IsReached b m (page p) e look sorted (w, r) same =
    let self : (m.fresh == m.fresh) ≡ true = ground arith in
    let there : (with_node m p).cells m.fresh ≡ read_node p = rw self refl in
    (
      with_root b w m.fresh,
      with_node m p,
      m.fresh,
      walk-leaf b (with_root b w m.fresh) m (with_node m p) m.fresh e (ap (leaf_node m) same)
          (ap (root_of_stack b m) same ∙ bucket_node-leaf b m w p r) (ap (λ x. x.is_leaf) there),
      record {
        at_root = λ m'. with_root-page_node b m' w m.fresh;
        leaf = ap (λ x. x.is_leaf) there;
        sorted =
            subst (λ x. HasSortedKeys x.inodes) (sym there) (map-HasSortedKeys p.elements sorted);
        alike = λ k. ap (λ x. value_of (lookup k x.inodes)) there ∙ map-lookup k p.elements;
      },
    )

abbrev pub stack_of : Outcome (List ElemRef × Option Item) → List ElemRef
stack_of (done (es, r)) = es
stack_of panic = []
stack_of diverge = []

-- The stack of a cursor in a tree of one leaf is this leaf.
pub one_leaf :
    (b : Bucket) (m : Memory) (pn : PageNode) (h : ℕ) (e : ElemRef) (rest : List ElemRef)
    → page_node b m (root b) ≡ done pn
    → h + suc (length rest) ≡ 1
    → IsPath b m h (e ∷ rest)
    → (rest ≡ []) × (e.pn ≡ pn)
one_leaf b m pn h e [] look same path = (refl, done_lem (sym path.1 ∙ look))
  where
    of : Outcome PageNode → PageNode
    of (done x) = x
    of panic = e.pn
    of diverge = e.pn

    done_lem : {x : PageNode} → done e.pn ≡ done x → e.pn ≡ x
    done_lem eq = ap of eq
one_leaf b m pn h e (e' ∷ rest) look same path = absurd (omega (arith, same))

-- `api_get` in a bucket whose root is this leaf.
pub api_get-leaf :
    (b : Bucket) (m : Memory) (pn : PageNode) (height : ℕ) (k : List ℕ)
    → page_node b m (root b) ≡ done pn
    → IsTree b m 0 pn
    → HasSortedKeys (elems b m pn)
    → 0 < height
    → api_get b m height k ≡ done (value_of (lookup k (elems b m pn)))
unfolding leaves_of
api_get-leaf b m pn height k look t sorted high =
    api_get-lookup b m height 0 k pn look t sorted high
    ∙ ap (λ xs. done (value_of (lookup k xs))) (append-nil (elems b m pn))

-- What is read after the node with the changed entries is stored, where only the value under the key has
-- changed.
pub api_get-stored :
    (b b' : Bucket) (m m' : Memory) (pn : PageNode) (n height : ℕ) (key k : List ℕ)
    (new : Option (List ℕ)) (x : NodeW)
    → page_node b m (root b) ≡ done pn
    → IsTree b m 0 pn
    → HasSortedKeys (elems b m pn)
    → 0 < height
    → IsReached b' m' n (elems b m pn)
    → x.is_leaf ≡ (m'.cells n).is_leaf
    → HasSortedKeys x.inodes
    → value_of (lookup k x.inodes)
      ≡ (if is_equal (cmp key k) then new else value_of (lookup k (m'.cells n).inodes))
    → api_get b' (set_cell m' n x) height k
      ≡ (if is_equal (cmp key k) then done new else api_get b m height k)
api_get-stored b b' m m' pn n height key k new x look t sorted high r leaf sorted' found =
    let self : (n == n) ≡ true = ground arith in
    let there : (set_cell m' n x).cells n ≡ x = rw self refl in
    api_get-leaf b' (set_cell m' n x) (node n) height k (r.at_root (set_cell m' n x))
      (tt, ap (λ y. y.is_leaf) there ∙ leaf ∙ r.leaf)
      (subst (λ y. HasSortedKeys y.inodes) (sym there) sorted') high
    ∙ ap (λ y. done (value_of (lookup k y.inodes))) there
    ∙ ap done found
    ∙ old (is_equal (cmp key k))
  where
    old :
        (is : Bool)
        → done (if is then new else value_of (lookup k (m'.cells n).inodes))
          ≡ (if is then done new else api_get b m height k)
    old true = refl
    old false = ap done (r.alike k) ∙ sym (api_get-leaf b m pn height k look t sorted high)
