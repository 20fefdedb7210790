-- ===== src/Bucket/DeleteGet.antt =====
-- `api_delete` of src/bucket.rs on a bucket of one leaf, and what `api_get` finds afterwards.
use mathlib.Core.Path.{sym}
use mathlib.Core.List.{append-nil}
use bbolt_rs.Prelude.{
  ℕ, ◌<◌, ◌≡◌, refl, ap, ◌∙◌, Bool, true, false, Option, none, some, List, [], ◌∷◌, if◌then◌else◌,
  done, ◌>>=◌,
}
use bbolt_rs.Node.{INode}
use bbolt_rs.Node.Keys.{cmp, is_equal, HasSortedKeys, lookup}
use bbolt_rs.Node.Put.{NodeW, Place, exact, closest, search, del, del_at}
use bbolt_rs.Node.Put.Del.{del-lookup}
use bbolt_rs.Store.{PageNode, Memory, Bucket, root, page_node, set_cell}
use bbolt_rs.Cursor.{ElemRef}
use bbolt_rs.Cursor.View.{elems}
use bbolt_rs.Cursor.Path.{IsTree, leaves_of}
use bbolt_rs.Cursor.Landing.{i_seek-IsSought}
use bbolt_rs.Bucket.{is_bucket, cursor_node, del_at_cursor, unless_bucket, api_delete, api_get}
use bbolt_rs.Bucket.Get.{value_of}
use bbolt_rs.Bucket.Delete.{api_delete-found}
use bbolt_rs.Bucket.Reach.{IsWritable, cursor_node-IsReached, one_leaf, api_get-stored, stack_of}

del-is_leaf : (n : NodeW) (key : List ℕ) → (del n key).is_leaf ≡ n.is_leaf
unfolding del
del-is_leaf n key = at_place (search key n.inodes)
  where
    at_place : (r : Place) → (del_at r n).is_leaf ≡ n.is_leaf
    at_place (exact i) = refl
    at_place (closest i) = refl

del_at_cursor-run :
    (b b' : Bucket) (m m' : Memory) (n : ℕ) (stack : List ElemRef) (key : List ℕ)
    → cursor_node b m stack ≡ done (b', m', n)
    → del_at_cursor b m stack key ≡ done (b', set_cell m' n (del (m'.cells n) key))
unfolding del_at_cursor
del_at_cursor-run b b' m m' n stack key run = rw run refl

if_none :
    (is : Bool) (old : Option INode)
    → value_of (if is then none else old) ≡ (if is then none else value_of old)
if_none true old = refl
if_none false old = refl

-- In a bucket of one leaf, deleting a key that has a value succeeds, and then `api_get` gives nothing under
-- the key, and under each other key what it gave before. The root is a leaf with its keys in order, a page
-- or a node that can be written.
pub api_delete-api_get :
    (b : Bucket) (m : Memory) (pn : PageNode) (height : ℕ) (key : List ℕ) (x : INode)
    → page_node b m (root b) ≡ done pn
    → IsTree b m 0 pn
    → HasSortedKeys (elems b m pn)
    → IsWritable b m pn
    → 0 < height
    → lookup key (elems b m pn) ≡ some x
    → is_bucket x.flags ≡ false
    → (b' : Bucket) × (m' : Memory) × (api_delete b m height key ≡ done ((b', m'), none))
      × ((k : List ℕ)
          → api_get b' m' height k
            ≡ (if is_equal (cmp key k) then done none else api_get b m height k))
unfolding leaves_of
api_delete-api_get b m pn height key x look t sorted writable high old plain =
    let (stack, seek, run) =
      api_delete-found b m height 0 key pn x look t sorted high
        (ap (lookup key) (append-nil (elems b m pn)) ∙ old) in
    let (e, rest, seek', s) = i_seek-IsSought b m height 0 key pn look t sorted high in
    let (no_rest, same) = one_leaf b m pn s.height e rest look s.same_height s.path in
    let at_e : stack ≡ e ∷ [] =
      sym (ap stack_of seek) ∙ ap stack_of seek' ∙ ap (λ es. e ∷ es) no_rest in
    let (b', m', n, reached, r) = cursor_node-IsReached b m pn e look sorted writable same in
    let (sorted', found', _) = del-lookup (m'.cells n) key r.sorted in
    (
      b',
      set_cell m' n (del (m'.cells n) key),
      run
          ∙ ap (λ is. unless_bucket is b m (del_at_cursor b m stack key)) plain
          ∙ ap (λ c. c >>= (λ changed. done (changed, none)))
              (ap (λ es. del_at_cursor b m es key) at_e
                ∙ del_at_cursor-run b b' m m' n (e ∷ []) key reached),
      (λ k.
          api_get-stored b b' m m' pn n height key k none (del (m'.cells n) key) look t sorted high
            r (del-is_leaf (m'.cells n) key) sorted'
            (ap value_of (found' k)
              ∙ if_none (is_equal (cmp key k)) (lookup k (m'.cells n).inodes))),
    )
