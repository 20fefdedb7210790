-- ===== src/Bucket/Delete.antt =====
-- `api_delete` of src/bucket.rs: what it deletes, and where it panics.
use bbolt_rs.Prelude.{
  ℕ, ◌<◌, ◌≡◌, refl, ap, subst, ◌∙◌, inl, inr, true, Option, none, some, List, [], done, panic,
  Bool-cases,
}
use bbolt_rs.Node.{INode}
use bbolt_rs.Node.Keys.{cmp, is_equal, lookup}
use bbolt_rs.Store.{PageNode, Memory, Bucket, root, page_node}
use bbolt_rs.Cursor.{ElemRef, item, option_item, i_seek}
use bbolt_rs.Cursor.Path.{concat, tree_leaves, IsTree}
use bbolt_rs.Cursor.Order.{drop_less, IsOrdered}
use bbolt_rs.Bucket.{is_bucket, unless_bucket, del_at_cursor, api_delete, delete_found}
use bbolt_rs.Bucket.Get.{with_key, i_seek-lookup, i_seek-none}

module _ (b : Bucket) (m : Memory) where
  -- Where the bucket has no entry with the key or a greater one, `api_delete` panics. The root is an
  -- ordered tree.
  pub api_delete-panic :
      (height d : ℕ) (key : List ℕ) (pn : PageNode)
      → page_node b m (root b) ≡ done pn
      → IsTree b m d pn
      → IsOrdered b m d pn
      → d < height
      → drop_less key (concat (tree_leaves b m d pn)) ≡ []
      → api_delete b m height key ≡ panic
  unfolding api_delete
  api_delete-panic height d key pn look t ordered high nothing =
      let (stack, run) = i_seek-none b m height d key pn look t ordered high nothing in rw run refl

  found_lem :
      (key : List ℕ) (stack : List ElemRef) (o : Option INode) (x : INode)
      → with_key key o ≡ some x
      → (o ≡ some x)
        × (delete_found b m stack key (item x)
            ≡ unless_bucket (is_bucket x.flags) b m (del_at_cursor b m stack key))
  found_lem key stack none x e = cc
  found_lem key stack (some y) x e = elim (Bool-cases (is_equal (cmp key y.key))) [
    | inl same ↦
        let one : some y ≡ some x = rw same at e in
        let equal : is_equal (cmp key x.key) ≡ true =
          subst (λ o. is_equal (cmp key (key_of o)) ≡ true) one same in
        (one, rw equal refl)
    | inr other ↦ absurd (cc (rw other at e))
  ]
    where
      key_of : Option INode → List ℕ
      key_of none = []
      key_of (some z) = z.key

  -- Where the bucket has an entry with the key, `api_delete` answers with an error and changes nothing
  -- if the entry is a bucket, and else deletes the key at the cursor, which a seek of the key has
  -- placed. The root is an ordered tree.
  pub api_delete-found :
      (height d : ℕ) (key : List ℕ) (pn : PageNode) (x : INode)
      → page_node b m (root b) ≡ done pn
      → IsTree b m d pn
      → IsOrdered b m d pn
      → d < height
      → lookup key (concat (tree_leaves b m d pn)) ≡ some x
      → (stack : List ElemRef) × (i_seek b m height key ≡ done (stack, some (item x)))
        × (api_delete b m height key
            ≡ unless_bucket (is_bucket x.flags) b m (del_at_cursor b m stack key))
  unfolding api_delete
  api_delete-found height d key pn x look t ordered high old =
      let (stack, o, run, same) = i_seek-lookup b m height d key pn look t ordered high in
      let (one, deleted) = found_lem key stack o x (same ∙ old) in
      let run' : i_seek b m height key ≡ done (stack, some (item x)) =
        run ∙ ap (λ z. done (stack, option_item z)) one in
      (stack, run', rw run' deleted)
