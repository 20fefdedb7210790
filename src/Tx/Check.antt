-- ===== src/Tx/Check.antt =====
-- The order of keys in the consistency check of src/tx.rs. The errors are the cases of the messages,
-- without their text; the stack of page ids, which only the messages show, is left out.
pub mod Leaf
use bbolt_rs.Prelude.{
  ℕ, zero, suc, ◌+◌, ◌≡◌, refl, ◌↔◌, ◌⊎◌, inl, inr, Bool, true, false, ◌&&◌, not, Option, none,
  some, List, [], ◌∷◌, ◌++◌, ltb, ◌==◌, if◌then◌else◌, Outcome, done, diverge, ◌>>=◌, arith, ◌<◌,
}
use bbolt_rs.Page.{branch_page_flag, leaf_page_flag, coerce}
use bbolt_rs.Node.{INode}
use bbolt_rs.Node.Keys.{
  Ordering, less, equal, greater, cmp, cmp_less, cmp_greater, cmp_trans, Ordering-cases, KeysAbove,
  HasSortedKeys,
}
use bbolt_rs.Store.{TreePage, Memory}

-- A message names the page and the index of the key; the last one names only the page.
pub data KeyError : Type 0 where
  below_ancestor : ℕ → ℕ → KeyError
  below_previous : ℕ → ℕ → KeyError
  same_as_previous : ℕ → ℕ → KeyError
  not_below_next : ℕ → ℕ → KeyError
  unexpected_type : ℕ → KeyError

abbrev pub is_nil : List ℕ → Bool
is_nil [] = true
is_nil (x ∷ xs) = false

unfoldable pub ancestor_errors : ℕ → ℕ → List ℕ → Ordering → List KeyError
ancestor_errors pgid index previous greater =
    if index == 0 && not (is_nil previous) then below_ancestor pgid index ∷ [] else []
ancestor_errors pgid index previous less = []
ancestor_errors pgid index previous equal = []

unfoldable pub previous_errors : ℕ → ℕ → Ordering → List KeyError
previous_errors pgid index greater = if ltb 0 index then below_previous pgid index ∷ [] else []
previous_errors pgid index equal = if ltb 0 index then same_as_previous pgid index ∷ [] else []
previous_errors pgid index less = []

unfoldable pub next_errors : ℕ → ℕ → List ℕ → Ordering → List KeyError
next_errors pgid index max less = []
next_errors pgid index max equal = if is_nil max then [] else not_below_next pgid index ∷ []
next_errors pgid index max greater = if is_nil max then [] else not_below_next pgid index ∷ []

-- `verify_key_order`.
unfoldable pub verify_key_order : ℕ → ℕ → List ℕ → List ℕ → List ℕ → List KeyError
unfolding ancestor_errors previous_errors next_errors
verify_key_order pgid index key previous max =
    ancestor_errors pgid index previous (cmp previous key)
    ++ previous_errors pgid index (cmp previous key)
    ++ next_errors pgid index max (cmp key max)

-- The loop over a leaf: the errors, and the last key.
unfoldable pub check_leaf : ℕ → ℕ → List ℕ → List ℕ → List INode → List KeyError
unfolding verify_key_order
check_leaf pgid index previous max [] = []
check_leaf pgid index previous max (x ∷ xs) =
    verify_key_order pgid index x.key previous max ++ check_leaf pgid (suc index) x.key max xs

abbrev last_key : List ℕ → List INode → List ℕ
last_key k [] = k
last_key k (x ∷ xs) = last_key x.key xs

-- The key of the element that follows, or the bound of the page.
abbrev next_key : List ℕ → List INode → List ℕ
next_key max [] = max
next_key max (x ∷ xs) = x.key

-- The loop over a branch, with the greatest key so far; `below` is the call for a child.
unfoldable pub check_children :
    (ℕ → List ℕ → List ℕ → Outcome (List KeyError × List ℕ))
    → ℕ
    → List ℕ
    → List ℕ
    → List ℕ
    → List INode
    → Outcome (List KeyError × List ℕ)
unfolding verify_key_order
check_children below index min max found [] = done ([], found)
check_children below index min max found (x ∷ xs) = do
  (errors, last) ← below x.pgid x.key (next_key max xs)
  (rest, end) ← check_children below (suc index) last max last xs
  done (verify_key_order x.pgid index x.key min max ++ errors ++ rest, end)

-- `recursively_check_pages_internal`: the errors, and the greatest key below the page. The fuel
-- bounds the height.
unfoldable pub check_pages : ℕ → Memory → ℕ → List ℕ → List ℕ → Outcome (List KeyError × List ℕ)
unfolding check_children check_leaf coerce
check_pages zero m pgid min max = diverge
check_pages (suc fuel) m pgid min max =
    let p = m.mem_page pgid in
    elim (coerce branch_page_flag p.header) [
      | some branch ↦ check_children (check_pages fuel m) 0 min max [] p.elements
      | none ↦ elim (coerce leaf_page_flag p.header) [
        | some leaf ↦ done (check_leaf pgid 0 min max p.elements, last_key [] p.elements)
        | none ↦ done (unexpected_type pgid ∷ [], [])
      ]
    ]
