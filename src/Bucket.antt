-- ===== src/Bucket.antt =====
-- The operations of src/bucket.rs that read and change the entries of one bucket, with the part of
-- src/cursor.rs that finds the node to change. What a caller passes to a visit keeps a state of its own,
-- and ends the visit with an error.
pub mod Get
pub mod Visit
pub mod Delete
pub mod Inline
pub mod Reach
pub mod PutGet
pub mod DeleteGet
use bbolt_rs.Prelude.{
  ℕ, zero, suc, ◌/◌, ◌||◌, Bool, true, false, ◌&&◌, not, ◌==◌, Option, none, some, List, [], ◌∷◌,
  ◌++◌, ltb, if◌then◌else◌, Outcome, done, panic, diverge, ◌>>=◌, get_elem?, length, u64_mod, ◌%◌,
  ◌+◌, add_u64,
}
use Prim.Native.Nat.{bit_and}
use bbolt_rs.Page.{page_header_size, bucket_leaf_flag, leaf_page_flag}
use bbolt_rs.Node.{INode, data_size}
use bbolt_rs.Node.Keys.{cmp, is_equal}
use bbolt_rs.Node.Put.{NodeW, is_empty, put, del}
use bbolt_rs.Meta.{BucketHeader}
use bbolt_rs.Store.{PageNode, page, node, Memory, Bucket, bucket_node, set_cell, materialize_root}
use bbolt_rs.Cursor.{
  Index, ElemRef, Item, as_u32, or_panic, user_item, i_first, i_next, i_seek, key_value, api_first,
  api_next,
}

-- The errors of src/common/errors.rs that these operations return.
pub data BucketError : Type 0 where
  bucket_exists : BucketError
  bucket_name_required : BucketError
  key_required : BucketError
  key_too_large : BucketError
  value_too_large : BucketError
  incompatible_value : BucketError

abbrev pub max_key_size : ℕ
max_key_size = 32768

-- 2 ^ 31 - 2.
abbrev pub max_value_size : ℕ
max_value_size = 2147483646

abbrev pub is_bucket : ℕ → Bool
is_bucket flags = not (bit_and flags bucket_leaf_flag == 0)

-- What `api_get` makes of the item that the cursor found.
abbrev pub value_at : List ℕ → Option Item → Option (List ℕ)
value_at key none = none
value_at key (some (k, v, flags)) =
    if is_bucket flags then none else if is_equal (cmp key k) then some v else none

-- The item has this key, and a bucket or a value.
abbrev pub holds_bucket : List ℕ → Option Item → Bool
holds_bucket key none = false
holds_bucket key (some (k, v, flags)) = is_equal (cmp key k) && is_bucket flags

abbrev pub holds_value : List ℕ → Option Item → Bool
holds_value key none = false
holds_value key (some (k, v, flags)) = is_equal (cmp key k) && not (is_bucket flags)

unfoldable pub api_get : Bucket → Memory → ℕ → List ℕ → Outcome (Option (List ℕ))
unfolding i_seek
api_get b m height key = do (_, found) ← i_seek b m height key; done (value_at key found)

module _ {S E : Type 0} (f : S → List ℕ → Option (List ℕ) → S × Option E) (b : Bucket)
    (m : Memory) where
  -- The loop of `api_for_each`; the bound of the rounds stands first.
  unfoldable pub each :
      ℕ → ℕ → ℕ → S → List ElemRef → Option (List ℕ × Option (List ℕ)) → Outcome (S × Option E)
  unfolding api_next
  each zero height fuel s stack found = diverge
  each (suc rounds) height fuel s stack none = done (s, none)
  each (suc rounds) height fuel s stack (some (k, v)) =
      let (s', stop) = f s k v in
      elim stop [
        | some e ↦ done (s', some e)
        | none ↦ (do
          (stack', found) ← api_next b m height fuel stack
          each rounds height fuel s' stack' found)
      ]

  unfoldable pub api_for_each : ℕ → ℕ → ℕ → S → Outcome (S × Option E)
  unfolding each api_first
  api_for_each rounds height fuel s = do
    (stack, found) ← api_first b m height fuel
    each rounds height fuel s stack found

-- What one round of the loop of `api_for_each_bucket` does with an item.
abbrev pub visit_bucket : {S E : Type 0} → (S → List ℕ → S × Option E) → S → Item → S × Option E
visit_bucket f s (k, v, flags) = if is_bucket flags then f s k else (s, none)

module _ {S E : Type 0} (f : S → List ℕ → S × Option E) (b : Bucket) (m : Memory) where
  unfoldable pub each_bucket : ℕ → ℕ → ℕ → S → List ElemRef → Option Item → Outcome (S × Option E)
  unfolding i_next
  each_bucket zero height fuel s stack found = diverge
  each_bucket (suc rounds) height fuel s stack none = done (s, none)
  each_bucket (suc rounds) height fuel s stack (some x) =
      let (s', stop) = visit_bucket f s x in
      elim stop [
        | some e ↦ done (s', some e)
        | none ↦ (do
          (stack', found) ← i_next b m height fuel stack
          each_bucket rounds height fuel s' stack' found)
      ]

  unfoldable pub api_for_each_bucket : ℕ → ℕ → ℕ → S → Outcome (S × Option E)
  unfolding each_bucket i_first
  api_for_each_bucket rounds height fuel s = do
    (stack, found) ← i_first b m height fuel
    each_bucket rounds height fuel s stack found

-- `child_at` of src/node.rs, where the index is an `u32`.
unfoldable pub child_at : Bucket → Memory → ℕ → ℕ → Outcome (Bucket × Memory × ℕ)
unfolding bucket_node
child_at b m n i =
    if (m.cells n).is_leaf
    then panic
    else (do x ← or_panic (get_elem? (m.cells n).inodes i); bucket_node b m x.pgid (some n))

-- The way from a node down the elements of the stack, the bottom first and the top left out.
unfoldable pub descend : Bucket → Memory → ℕ → List ElemRef → Outcome (Bucket × Memory × ℕ)
unfolding child_at
descend b m n [] = if (m.cells n).is_leaf then done (b, m, n) else panic
descend b m n (e ∷ stack) =
    if (m.cells n).is_leaf
    then panic
    else (do (b', m', child) ← child_at b m n (as_u32 e.index); descend b' m' child stack)

abbrev pub root_of_stack : Bucket → Memory → PageNode → Outcome (Bucket × Memory × ℕ)
unfolding bucket_node
root_of_stack b m (page p) = bucket_node b m p.header.id none
root_of_stack b m (node n) = done (b, m, n)

-- From the bottom to the top.
abbrev pub upward : List ElemRef → List ElemRef
upward [] = []
upward (e ∷ stack) = upward stack ++ e ∷ []

abbrev pub without_last : List ElemRef → List ElemRef
without_last [] = []
without_last (e ∷ []) = []
without_last (e ∷ e' ∷ stack) = e ∷ without_last (e' ∷ stack)

abbrev pub walk : Bucket → Memory → List ElemRef → Outcome (Bucket × Memory × ℕ)
unfolding descend
walk b m [] = panic
walk b m (bottom ∷ stack) = do
  (b', m', n) ← root_of_stack b m bottom.pn
  descend b' m' n (without_last (bottom ∷ stack))

-- The node of a leaf that is in memory already.
abbrev pub leaf_node : Memory → PageNode → Option ℕ
leaf_node m (page p) = none
leaf_node m (node n) = if (m.cells n).is_leaf then some n else none

-- `node` of src/cursor.rs.
unfoldable pub cursor_node : Bucket → Memory → List ElemRef → Outcome (Bucket × Memory × ℕ)
unfolding descend
cursor_node b m [] = panic
cursor_node b m (e ∷ stack) = elim (leaf_node m e.pn) [
  | some n ↦ done (b, m, n)
  | none ↦ walk b m (upward (e ∷ stack))
]

abbrev pub put_in : ℕ → List ℕ → List ℕ → ℕ → Bucket × Memory × ℕ → Outcome (Bucket × Memory)
unfolding put
put_in high_water key value flags (b, m, n) = do
  x ← put high_water (m.cells n) key key value 0 flags
  done (b, set_cell m n x)

-- `c.node().put(key, key, value, ZERO_PGID, flags)`.
unfoldable pub put_at :
    Bucket → Memory → ℕ → List ElemRef → List ℕ → List ℕ → ℕ → Outcome (Bucket × Memory)
unfolding cursor_node put
put_at b m high_water stack key value flags = do
  at_node ← cursor_node b m stack
  put_in high_water key value flags at_node

-- `c.node().del(key)`.
unfoldable pub del_at_cursor : Bucket → Memory → List ElemRef → List ℕ → Outcome (Bucket × Memory)
unfolding cursor_node del
del_at_cursor b m stack key = do
  (b', m', n) ← cursor_node b m stack
  done (b', set_cell m' n (del (m'.cells n) key))

abbrev pub Changed : Type 0
Changed = (Bucket × Memory) × Option BucketError

abbrev pub unless_bucket : Bool → Bucket → Memory → Outcome (Bucket × Memory) → Outcome Changed
unless_bucket true b m change = done ((b, m), some incompatible_value)
unless_bucket false b m change = do changed ← change; done (changed, none)

-- The early returns of `api_put`.
abbrev pub put_guards : Bucket → Memory → List ℕ → List ℕ → Outcome Changed → Outcome Changed
put_guards b m key value rest =
    if is_empty key
    then done ((b, m), some key_required)
    else if ltb max_key_size (length key)
    then done ((b, m), some key_too_large)
    else if ltb max_value_size (length value)
    then done ((b, m), some value_too_large)
    else rest

-- The meta page's high water mark and the fuel for the height stand behind the memory.
unfoldable pub api_put : Bucket → Memory → ℕ → ℕ → List ℕ → List ℕ → Outcome Changed
unfolding i_seek put_at
api_put b m high_water height key value = put_guards b m key value (do
  (stack, found) ← i_seek b m height key
  unless_bucket (holds_bucket key found) b m (put_at b m high_water stack key value 0))

abbrev pub delete_found : Bucket → Memory → List ElemRef → List ℕ → Item → Outcome Changed
delete_found b m stack key (k, v, flags) =
    if not (is_equal (cmp key k))
    then done ((b, m), none)
    else unless_bucket (is_bucket flags) b m (del_at_cursor b m stack key)

-- The bytes of `InlineBucket::default()`: a header of zeros and the header of an empty leaf page.
abbrev pub inline_bucket_default : List ℕ
inline_bucket_default =
    0 ∷ 0 ∷ 0 ∷ 0 ∷ 0 ∷ 0 ∷ 0 ∷ 0 ∷ 0 ∷ 0 ∷ 0 ∷ 0 ∷ 0 ∷ 0 ∷ 0 ∷ 0 ∷ 0 ∷ 0 ∷ 0 ∷ 0 ∷ 0 ∷ 0 ∷ 0 ∷ 0
    ∷ leaf_page_flag ∷ 0 ∷ 0 ∷ 0 ∷ 0 ∷ 0 ∷ 0 ∷ 0 ∷ []

abbrev pub drop_inline_page : Bucket × Memory → Changed
drop_inline_page (b, m) = ((record b { inline_page = none }, m), none)

abbrev pub create_unless :
    Bool → Bool → Bucket → Memory → Outcome (Bucket × Memory) → Outcome Changed
create_unless true value b m change = done ((b, m), some bucket_exists)
create_unless false true b m change = done ((b, m), some incompatible_value)
create_unless false false b m change = do changed ← change; done (drop_inline_page changed)

-- `api_create_bucket`, but for the bucket that it opens at the end.
unfoldable pub api_create_bucket : Bucket → Memory → ℕ → ℕ → List ℕ → Outcome Changed
unfolding i_seek put_at
api_create_bucket b m high_water height key =
    if is_empty key then done ((b, m), some bucket_name_required) else (do
      (stack, found) ← i_seek b m height key
      create_unless (holds_bucket key found) (holds_value key found) b m
          (put_at b m high_water stack key inline_bucket_default bucket_leaf_flag))

-- `i_seek(key).unwrap()` panics where the cursor shows nothing.
unfoldable pub api_delete : Bucket → Memory → ℕ → List ℕ → Outcome Changed
unfolding i_seek del_at_cursor
api_delete b m height key = do
  (stack, found) ← i_seek b m height key
  x ← or_panic found
  delete_found b m stack key x

-- `api_delete` of src/cursor.rs.
unfoldable pub cursor_delete : Bucket → Memory → List ElemRef → Outcome Changed
unfolding key_value del_at_cursor
cursor_delete b m stack = do
  found ← key_value b m stack
  x ← or_panic found
  let (k, v, flags) = x
  unless_bucket (is_bucket flags) b m (del_at_cursor b m stack k)

abbrev pub with_sequence : Bucket → ℕ → Bucket
with_sequence b v = record b { header = record { root = b.header.root; sequence = v } }

unfoldable pub api_set_sequence : Bucket → Memory → ℕ → Outcome (Bucket × Memory)
unfolding materialize_root
api_set_sequence b m v = do (b', m', _) ← materialize_root b m; done (with_sequence b' v, m')

-- The counter wraps around as in a release build.
unfoldable pub api_next_sequence : Bucket → Memory → Outcome (Bucket × Memory × ℕ)
unfolding materialize_root
api_next_sequence b m = do
  (b', m', _) ← materialize_root b m
  let next = add_u64 b'.header.sequence 1
  done (with_sequence b' next, m', next)

-- The loop of `inlineable` from a size on.
unfoldable pub fits_from : ℕ → ℕ → List INode → Bool
fits_from max size [] = true
fits_from max size (x ∷ xs) =
    let size' = size + (16 + data_size x) in
    let rest = fits_from max size' xs in if is_bucket x.flags || ltb max size' then false else rest

abbrev pub max_inline_bucket_size : ℕ → ℕ
max_inline_bucket_size page_size = page_size / 4

abbrev pub fits_node : ℕ → NodeW → Bool
fits_node page_size n =
    if n.is_leaf
    then fits_from (max_inline_bucket_size page_size) page_header_size n.inodes
    else false

-- The size of a page stands behind the memory.
unfoldable pub inlineable : Bucket → Memory → ℕ → Outcome Bool
unfolding fits_from
inlineable b m page_size = elim b.w [
  | none ↦ panic
  | some w ↦ elim w.root_node [
    | none ↦ done false
    | some n ↦ done (fits_node page_size (m.cells n))
  ]
]
