-- ===== src/Bucket/Get.antt =====
-- `api_get` of src/bucket.rs, and what `api_put`, `api_create_bucket` and `api_delete` refuse.
use mathlib.Core.List.{append-nil}
use mathlib.Core.Path.{sym}
use bbolt_rs.Prelude.{
  ℕ, suc, ◌<◌, ◌≡◌, refl, ap, subst, ◌∙◌, inl, inr, Bool, false, Option, none, some, List, [], ◌∷◌,
  ◌++◌, Outcome, done, ◌>>=◌, length, if◌then◌else◌, Bool-cases, ltb, drop,
}
use bbolt_rs.Node.{INode}
use bbolt_rs.Node.Keys.{
  equal, cmp, is_equal, Ordering-cases, cmp_self, cmp_equal, cmp_greater, KeysAbove, HasSortedKeys,
  KeysAbove-mono, lookup, lookup-above,
}
use bbolt_rs.Node.Put.{is_empty}
use bbolt_rs.Store.{PageNode, Memory, Bucket, root, page_node}
use bbolt_rs.Cursor.{ElemRef, Item, option_item, partition_point, i_seek, is_leaf_of}
use bbolt_rs.Cursor.View.{elems}
use bbolt_rs.Cursor.Path.{concat, tree_leaves, IsTree, after, from, leaves_of_leaf}
use bbolt_rs.Cursor.Order.{drop_less, drop-partition_point, IsOrdered}
use bbolt_rs.Cursor.Seek.{IsSought}
use bbolt_rs.Cursor.Landing.{first_of, i_seek-IsSought}
use bbolt_rs.Bucket.{
  BucketError, key_required, key_too_large, value_too_large, incompatible_value, max_key_size,
  max_value_size, is_bucket, value_at, holds_bucket, api_get, put_at, unless_bucket, api_put,
  Changed, put_guards,
}

-- The entry, if it has the key.
abbrev pub with_key : List ℕ → Option INode → Option INode
with_key key none = none
with_key key (some x) = if is_equal (cmp key x.key) then some x else none

-- The value of an entry that is no bucket.
abbrev pub value_of : Option INode → Option (List ℕ)
value_of none = none
value_of (some x) = if is_bucket x.flags then none else some x.value

abbrev pub is_bucket_entry : Option INode → Bool
is_bucket_entry none = false
is_bucket_entry (some x) = is_bucket x.flags

lookup-drop_less : (key : List ℕ) (xs : List INode) → lookup key (drop_less key xs) ≡ lookup key xs
unfolding drop_less lookup
lookup-drop_less key [] = refl
lookup-drop_less key (x ∷ xs) = elim (Ordering-cases (cmp x.key key)) [
  | inl e ↦ rw (drop_less, e) (lookup-drop_less key xs)
  | inr (inl e) ↦ rw (drop_less, e) (rw e refl)
  | inr (inr e) ↦ rw (drop_less, e) (rw e refl)
]

lookup-append :
    (key : List ℕ) (xs ys : List INode) → KeysAbove key ys → lookup key (xs ++ ys) ≡ lookup key xs
unfolding lookup
lookup-append key [] ys above = lookup-above key ys above
lookup-append key (x ∷ xs) ys above =
    ap (λ r. if is_equal (cmp x.key key) then some x else r) (lookup-append key xs ys above)

lookup-first_of :
    (key : List ℕ) (xs : List INode)
    → HasSortedKeys xs
    → lookup key xs ≡ with_key key (first_of (drop_less key xs))
unfolding drop_less lookup
lookup-first_of key [] sorted = refl
lookup-first_of key (x ∷ xs) (above, sorted) = elim (Ordering-cases (cmp x.key key)) [
  | inl e ↦ rw (drop_less, e) (lookup-first_of key xs sorted)
  | inr (inl e) ↦
      let same : cmp key x.key ≡ equal =
        subst (λ z. cmp z x.key ≡ equal) (cmp_equal x.key key e) (cmp_self x.key) in
      rw (drop_less, e) (rw same refl)
  | inr (inr e) ↦
      let under = cmp_greater x.key key e in
      rw (drop_less, e) (rw under (lookup-above key xs (KeysAbove-mono key x.key xs under above)))
]

value_at_lem :
    (key : List ℕ) (o : Option INode) → value_at key (option_item o) ≡ value_of (with_key key o)
value_at_lem key none = refl
value_at_lem key (some x) = elim (Bool-cases (is_equal (cmp key x.key))) [
  | inl e ↦ rw e refl
  | inr e ↦ rw e (elim (Bool-cases (is_bucket x.flags)) [ inl f ↦ rw f refl | inr f ↦ rw f refl ])
]

holds_bucket_lem :
    (key : List ℕ) (o : Option INode)
    → holds_bucket key (option_item o) ≡ is_bucket_entry (with_key key o)
holds_bucket_lem key none = refl
holds_bucket_lem key (some x) = elim (Bool-cases (is_equal (cmp key x.key))) [
  | inl e ↦ rw e refl
  | inr e ↦ rw e refl
]

-- What `api_put` answers with an error, by the entry that the bucket has under the key.
abbrev pub put_error : List ℕ → List ℕ → Option INode → Option BucketError
put_error key value old =
    if is_empty key
    then some key_required
    else if ltb max_key_size (length key)
    then some key_too_large
    else if ltb max_value_size (length value)
    then some value_too_large
    else if is_bucket_entry old
    then some incompatible_value
    else none

left_nil : (xs ys : List INode) → xs ++ ys ≡ [] → xs ≡ []
left_nil [] ys e = refl
left_nil (x ∷ xs) ys e = cc

module _ (b : Bucket) (m : Memory) where
  leaf_from :
      (d : ℕ) (key : List ℕ) (pn : PageNode) (e : ElemRef) (rest : List ElemRef)
      (r : IsSought b m d key pn [] e rest)
      → concat (from b m r.height (e ∷ rest))
        ≡ drop_less key (elems b m e.pn) ++ concat (after b m (suc r.height) rest)
  leaf_from d key pn e rest r =
      rw
        (
          r.at_index,
          leaves_of_leaf b m r.height (is_leaf_of b m e.pn)
              (drop (partition_point key (elems b m e.pn)) (elems b m e.pn)) r.is_leaf,
          (drop-partition_point key (elems b m e.pn)).0,
        )
        refl

  -- The item that a seek shows has the key just when the bucket has an entry with that key.
  pub i_seek-lookup :
      (height d : ℕ) (key : List ℕ) (pn : PageNode)
      → page_node b m (root b) ≡ done pn
      → IsTree b m d pn
      → IsOrdered b m d pn
      → d < height
      → (stack : List ElemRef) × (o : Option INode) × (i_seek b m height key
          ≡ done (stack, option_item o))
        × (with_key key o ≡ lookup key (concat (tree_leaves b m d pn)))
  i_seek-lookup height d key pn look t ordered high =
      let (e, rest, run, r) = i_seek-IsSought b m height d key pn look t ordered high in
      (
        e ∷ rest,
        first_of (drop_less key (elems b m e.pn)),
        run,
        sym (lookup-first_of key (elems b m e.pn) r.sorted)
            ∙ sym (lookup-drop_less key (elems b m e.pn))
            ∙ sym (lookup-append key (drop_less key (elems b m e.pn)) _ (r.beyond tt))
            ∙ ap (lookup key) (
                sym (leaf_from d key pn e rest r)
                ∙ r.ahead
                ∙ append-nil (drop_less key (concat (tree_leaves b m d pn))))
            ∙ lookup-drop_less key (concat (tree_leaves b m d pn)),
      )

  -- Where nothing is to come, the seek shows nothing.
  pub i_seek-none :
      (height d : ℕ) (key : List ℕ) (pn : PageNode)
      → page_node b m (root b) ≡ done pn
      → IsTree b m d pn
      → IsOrdered b m d pn
      → d < height
      → drop_less key (concat (tree_leaves b m d pn)) ≡ []
      → (stack : List ElemRef) × (i_seek b m height key ≡ done (stack, none))
  i_seek-none height d key pn look t ordered high nothing =
      let (e, rest, run, r) = i_seek-IsSought b m height d key pn look t ordered high in
      let gone : drop_less key (elems b m e.pn) ≡ [] =
        left_nil (drop_less key (elems b m e.pn)) _
          (sym (leaf_from d key pn e rest r) ∙ r.ahead ∙ append-nil _ ∙ nothing) in
      (e ∷ rest, run ∙ ap (λ xs. done (e ∷ rest, option_item (first_of xs))) gone)

  -- `api_get` gives the value that the bucket has under the key, and nothing where the bucket has no
  -- such entry or where the entry is a bucket. The root is an ordered tree.
  pub api_get-lookup :
      (height d : ℕ) (key : List ℕ) (pn : PageNode)
      → page_node b m (root b) ≡ done pn
      → IsTree b m d pn
      → IsOrdered b m d pn
      → d < height
      → api_get b m height key ≡ done (value_of (lookup key (concat (tree_leaves b m d pn))))
  unfolding api_get
  api_get-lookup height d key pn look t ordered high =
      let (stack, o, run, same) = i_seek-lookup height d key pn look t ordered high in
      rw run (ap done (value_at_lem key o ∙ ap value_of same))

  -- The bucket as it was, with the error, or as the change leaves it.
  abbrev pub refused_or : Option BucketError → Outcome (Bucket × Memory) → Outcome Changed
  refused_or (some e) change = done ((b, m), some e)
  refused_or none change = do changed ← change; done (changed, none)

  put_guards_lem :
      (key value : List ℕ) (old : Option INode) (change : Outcome (Bucket × Memory))
      → put_guards b m key value (unless_bucket (is_bucket_entry old) b m change)
        ≡ refused_or (put_error key value old) change
  put_guards_lem key value old change = elim (Bool-cases (is_empty key)) [
    | inl e ↦ rw e refl
    | inr e ↦ rw e (elim (Bool-cases (ltb max_key_size (length key))) [
      | inl e2 ↦ rw e2 refl
      | inr e2 ↦ rw e2 (elim (Bool-cases (ltb max_value_size (length value))) [
        | inl e3 ↦ rw e3 refl
        | inr e3 ↦
            rw e3 (elim (Bool-cases (is_bucket_entry old)) [
              | inl e4 ↦ rw e4 refl
              | inr e4 ↦ rw e4 refl
            ])
      ])
    ])
  ]

  -- `api_put` refuses an empty key, a key or value that is too large, and a key that holds a bucket,
  -- in this order, and changes nothing then; else it puts the entry at the cursor, which a seek of the
  -- key has placed. The root is an ordered tree.
  pub api_put-refused_or :
      (high_water height d : ℕ) (key value : List ℕ) (pn : PageNode)
      → page_node b m (root b) ≡ done pn
      → IsTree b m d pn
      → IsOrdered b m d pn
      → d < height
      → (stack : List ElemRef) × (found : Option Item) × (i_seek b m height key
          ≡ done (stack, found))
        × (api_put b m high_water height key value
            ≡ refused_or
                (put_error key value (lookup key (concat (tree_leaves b m d pn))))
                (put_at b m high_water stack key value 0))
  unfolding api_put
  api_put-refused_or high_water height d key value pn look t ordered high =
      let (stack, o, run, same) = i_seek-lookup height d key pn look t ordered high in
      (
        stack,
        option_item o,
        run,
        rw run (
            ap
              (λ is.
                put_guards b m key value
                  (unless_bucket is b m (put_at b m high_water stack key value 0)))
              (holds_bucket_lem key o ∙ ap is_bucket_entry same)
            ∙ put_guards_lem key value (lookup key (concat (tree_leaves b m d pn)))
                (put_at b m high_water stack key value 0)),
      )
