-- ===== src/Bucket/PutGet.antt =====
-- `api_put` of src/bucket.rs on a bucket of one leaf, and what `api_get` finds afterwards. The leaf may be a
-- page, which the put reads into a node first, or a node already.
use mathlib.Core.Path.{sym}
use mathlib.Core.List.{append-nil}
use bbolt_rs.Prelude.{
  ℕ, ◌<◌, ◌≡◌, refl, ap, ◌∙◌, inl, inr, Bool, true, false, Option, none, some, List, [], ◌∷◌, leb,
  if◌then◌else◌, Outcome, done, panic, diverge, ◌>>=◌, Bool-cases,
}
use bbolt_rs.Node.{INode}
use bbolt_rs.Node.Keys.{cmp, is_equal, HasSortedKeys, lookup}
use bbolt_rs.Node.Put.{NodeW, is_empty, put}
use bbolt_rs.Node.Put.Lookup.{put-lookup}
use bbolt_rs.Store.{PageNode, Memory, Bucket, root, page_node, set_cell}
use bbolt_rs.Cursor.{ElemRef}
use bbolt_rs.Cursor.View.{elems}
use bbolt_rs.Cursor.Path.{IsTree, leaves_of}
use bbolt_rs.Cursor.Landing.{i_seek-IsSought}
use bbolt_rs.Bucket.{is_bucket, cursor_node, put_at, api_put, api_get}
use bbolt_rs.Bucket.Get.{value_of, put_error, refused_or, api_put-refused_or}
use bbolt_rs.Bucket.Reach.{IsWritable, cursor_node-IsReached, one_leaf, api_get-stored, stack_of}

put_error-key :
    (key value : List ℕ) (old : Option INode)
    → put_error key value old ≡ none
    → is_empty key ≡ false
put_error-key [] value old e = cc
put_error-key (x ∷ key) value old e = refl

put_at-run :
    (b b' : Bucket) (m m' : Memory) (high_water n : ℕ) (stack : List ElemRef) (key value : List ℕ)
    (x : NodeW)
    → cursor_node b m stack ≡ done (b', m', n)
    → put high_water (m'.cells n) key key value 0 0 ≡ done x
    → put_at b m high_water stack key value 0 ≡ done (b', set_cell m' n x)
unfolding put_at
put_at-run b b' m m' high_water n stack key value x run changed = rw run (rw changed refl)

put-is_leaf :
    (high_water : ℕ) (n x : NodeW) (key value : List ℕ)
    → put high_water n key key value 0 0 ≡ done x
    → x.is_leaf ≡ n.is_leaf
unfolding put
put-is_leaf high_water n x key value e = elim (Bool-cases (leb high_water 0)) [
  | inl over ↦ absurd (cc (rw over at e))
  | inr below ↦ elim (Bool-cases (is_empty key)) [
    | inl empty ↦ absurd (cc (rw empty at rw below at e))
    | inr full ↦ ap (leaf_of) (sym (rw full at rw below at e))
  ]
]
  where
    leaf_of : Outcome NodeW → Bool
    leaf_of (done y) = y.is_leaf
    leaf_of panic = n.is_leaf
    leaf_of diverge = n.is_leaf

if_value :
    (is : Bool) (value : List ℕ) (x : INode) (old : Option INode)
    → is_bucket x.flags ≡ false
    → x.value ≡ value
    → value_of (if is then some x else old) ≡ (if is then some value else value_of old)
if_value true value x old plain same = rw plain (ap some same)
if_value false value x old plain same = refl

-- In a bucket of one leaf, a put that is not refused succeeds, and then `api_get` gives the new value under
-- the key, and under each other key what it gave before. The root is a leaf with its keys in order, a page
-- or a node that can be written, and page 0 is below the high water mark.
pub api_put-api_get :
    (b : Bucket) (m : Memory) (pn : PageNode) (high_water height : ℕ) (key value : List ℕ)
    → page_node b m (root b) ≡ done pn
    → IsTree b m 0 pn
    → HasSortedKeys (elems b m pn)
    → IsWritable b m pn
    → 0 < high_water
    → 0 < height
    → put_error key value (lookup key (elems b m pn)) ≡ none
    → (b' : Bucket) × (m' : Memory) × (api_put b m high_water height key value
        ≡ done ((b', m'), none))
      × ((k : List ℕ)
          → api_get b' m' height k
            ≡ (if is_equal (cmp key k) then done (some value) else api_get b m height k))
unfolding leaves_of
api_put-api_get b m pn high_water height key value look t sorted writable below high fine =
    let (stack, found, seek, run) =
      api_put-refused_or b m high_water height 0 key value pn look t sorted high in
    let (e, rest, seek', s) = i_seek-IsSought b m height 0 key pn look t sorted high in
    let (no_rest, same) = one_leaf b m pn s.height e rest look s.same_height s.path in
    let at_e : stack ≡ e ∷ [] =
      sym (ap stack_of seek) ∙ ap stack_of seek' ∙ ap (λ es. e ∷ es) no_rest in
    let (b', m', n, reached, r) = cursor_node-IsReached b m pn e look sorted writable same in
    let (x, changed, sorted', found') =
      put-lookup high_water (m'.cells n) key value 0 0 r.sorted below
        (put_error-key key value (lookup key (elems b m pn)) fine) in
    let stored = put_at-run b b' m m' high_water n (e ∷ []) key value x reached changed in
    (
      b',
      set_cell m' n x,
      run
          ∙ ap
              (λ xs.
                refused_or b m (put_error key value (lookup key xs))
                  (put_at b m high_water stack key value 0))
              (append-nil (elems b m pn))
          ∙ ap (λ o. refused_or b m o (put_at b m high_water stack key value 0)) fine
          ∙ ap (λ c. c >>= (λ changed. done (changed, none)))
              (ap (λ es. put_at b m high_water es key value 0) at_e ∙ stored),
      (λ k.
          api_get-stored b b' m m' pn n height key k (some value) x look t sorted high r
            (put-is_leaf high_water (m'.cells n) x key value changed) sorted'
            (ap value_of (found' k)
              ∙ if_value (is_equal (cmp key k)) value
                  (record { flags = 0; pgid = 0; key = key; value = value })
                  (lookup k (m'.cells n).inodes) refl refl)),
    )
