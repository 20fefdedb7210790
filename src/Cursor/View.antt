-- ===== src/Cursor/View.antt =====
-- What the cursor of src/cursor.rs sees of a page or node that is as it should be: its entries.
use mathlib.Core.Path.{sym}
use bbolt_rs.Prelude.{
  Bool-cases, ℕ, zero, suc, ◌%◌, ◌≤◌, ◌<◌, ◌≡◌, refl, ◌⊎◌, inl, inr, true, false, none, some, List,
  [], ◌∷◌, arith, ltb, leb, ◌==◌, done, get_elem?, length,
}
use bbolt_rs.Page.{PageHeader, is_leaf, is_branch, coerce, leaf_page_flag, branch_page_flag}
use bbolt_rs.Node.{INode}
use bbolt_rs.Store.{TreePage, PageNode, page, node, Memory, Bucket, get_elem}
use bbolt_rs.Cursor.{
  at, ElemRef, count_of, is_leaf_of, child_id, leaf_entry, key_value, option_item, leaf_entries,
  branch_entries, is_tree_page,
}

-- A page with the flag of a leaf or a branch, and a header that counts its elements.
pub record IsTreePage (p : TreePage) : Type 0 where
  pub counted : p.header.count ≡ length p.elements
  pub in_u16 : length p.elements ≤ 65535
  pub typed : (p.header.flags ≡ leaf_page_flag) ⊎ (p.header.flags ≡ branch_page_flag)

abbrev pub IsProper : PageNode → Type 0
IsProper (page p) = IsTreePage p
IsProper (node n) = Unit {0}

pub get_elem?-end {ℓ} : {A : Type ℓ} (xs : List A) (i : ℕ) → length xs ≤ i → get_elem? xs i ≡ none
get_elem?-end [] i h = refl
get_elem?-end (x ∷ xs) zero h = absurd (omega arith)
get_elem?-end (x ∷ xs) (suc i) h = get_elem?-end xs i (omega arith)

pub get_elem?-some {ℓ} :
    {A : Type ℓ} (xs : List A) (i : ℕ) → i < length xs → (x : A) × (get_elem? xs i ≡ some x)
get_elem?-some [] i h = absurd (omega arith)
get_elem?-some (x ∷ xs) zero h = (x, refl)
get_elem?-some (x ∷ xs) (suc i) h = get_elem?-some xs i (omega arith)

flags_is_leaf : (p : PageHeader) → p.flags ≡ leaf_page_flag → is_leaf p ≡ true
unfolding is_leaf
flags_is_leaf p e = rw e refl

flags_is_branch :
    (p : PageHeader) → p.flags ≡ branch_page_flag → (is_leaf p ≡ false) × (is_branch p ≡ true)
unfolding is_leaf is_branch
flags_is_branch p e = rw e (refl, refl)

coerce_lem : (flag : ℕ) (p : PageHeader) → p.flags ≡ flag → coerce flag p ≡ some p
unfolding coerce
coerce_lem flag p e = ground arith

get_elem_lem :
    (p : TreePage) (i : ℕ)
    → IsTreePage p
    → i ≤ length p.elements
    → get_elem p (i % 65536) ≡ get_elem? p.elements i
unfolding get_elem
get_elem_lem p i t h =
    let small : i % 65536 ≡ i = omega (arith, t.in_u16) in
    rw small (elim (Bool-cases (leb p.header.count i)) [
      | inl past ↦ rw past (sym (get_elem?-end p.elements i (ground (arith, past, t.counted))))
      | inr inside ↦ rw inside refl
    ])

module _ (b : Bucket) (m : Memory) where
  abbrev pub elems : PageNode → List INode
  elems (page p) = p.elements
  elems (node n) = (m.cells n).inodes

  pub count_of_lem : (pn : PageNode) → IsProper pn → count_of b m pn ≡ length (elems pn)
  count_of_lem (page p) t = t.counted
  count_of_lem (node n) t = refl

  leaf_flags :
      (p : TreePage) → IsTreePage p → is_leaf p.header ≡ true → p.header.flags ≡ leaf_page_flag
  leaf_flags p t h = elim t.typed [
    | inl e ↦ e
    | inr e ↦ absurd (ground (arith, h, flags_is_branch p.header e))
  ]

  branch_flags :
      (p : TreePage) → IsTreePage p → is_leaf p.header ≡ false → p.header.flags ≡ branch_page_flag
  branch_flags p t h = elim t.typed [
    | inl e ↦ absurd (ground (arith, h, flags_is_leaf p.header e))
    | inr e ↦ e
  ]

  pub child_id_lem :
      (pn : PageNode) (i : ℕ) (x : INode)
      → IsProper pn
      → is_leaf_of b m pn ≡ false
      → get_elem? (elems pn) i ≡ some x
      → i < length (elems pn)
      → child_id b m pn (at i) ≡ done x.pgid
  unfolding child_id
  child_id_lem (page p) i x t e got less =
      rw
        (
          coerce_lem branch_page_flag p.header (branch_flags p t e),
          get_elem_lem p i t (omega arith),
          got,
        )
        refl
  child_id_lem (node n) i x t e got less = rw got refl

  pub leaf_entry_lem :
      (pn : PageNode) (i : ℕ)
      → IsProper pn
      → is_leaf_of b m pn ≡ true
      → i ≤ length (elems pn)
      → leaf_entry b m pn (at i) ≡ done (get_elem? (elems pn) i)
  unfolding leaf_entry
  leaf_entry_lem (page p) i t e less =
      rw (coerce_lem leaf_page_flag p.header (leaf_flags p t e), get_elem_lem p i t less) refl
  leaf_entry_lem (node n) i t e less = refl

  -- `key_value` on a leaf at an index up to the end.
  pub key_value_lem :
      (pn : PageNode) (i : ℕ) (stack : List ElemRef)
      → IsProper pn
      → is_leaf_of b m pn ≡ true
      → i ≤ length (elems pn)
      → key_value b m (record { pn = pn; index = at i } ∷ stack)
        ≡ done (option_item (get_elem? (elems pn) i))
  unfolding key_value
  key_value_lem pn i stack t e less = elim (Bool-cases (count_of b m pn == 0)) [
    | inl empty ↦
        let nothing : get_elem? (elems pn) i ≡ none =
          get_elem?-end (elems pn) i (ground (arith, empty, count_of_lem pn t)) in
        rw (empty, nothing) refl
    | inr some_entry ↦
        let inside : ltb (count_of b m pn) i ≡ false = ground (arith, count_of_lem pn t) in
        rw (some_entry, inside, leaf_entry_lem pn i t e less) refl
  ]

  pub leaf_entries_lem :
      (pn : PageNode)
      → IsProper pn
      → is_leaf_of b m pn ≡ true
      → (leaf_entries b m pn ≡ done (elems pn)) × (is_tree_page b m pn ≡ true)
  leaf_entries_lem (page p) t e =
      (rw (coerce_lem leaf_page_flag p.header (leaf_flags p t e)) refl, rw e refl)
  leaf_entries_lem (node n) t e = (refl, refl)

  pub branch_entries_lem :
      (pn : PageNode)
      → IsProper pn
      → is_leaf_of b m pn ≡ false
      → (branch_entries b m pn ≡ done (elems pn)) × (is_tree_page b m pn ≡ true)
  branch_entries_lem (page p) t e =
      let flags = branch_flags p t e in
      (
        rw (coerce_lem branch_page_flag p.header flags) refl,
        rw (e, (flags_is_branch p.header flags).1) refl,
      )
  branch_entries_lem (node n) t e = (refl, refl)
