-- ===== src/Tree/RoundTrip.antt =====
-- `write` of a node and `get_elem` of the page that it leaves.
use mathlib.Core.Path.{sym}
use mathlib.Core.List.{append-nil}
use mathlib.Core.Option
use bbolt_rs.Prelude.{
  ℕ, zero, suc, ◌+◌, ◌-◌, ◌*◌, ◌%◌, ◌≤◌, ◌<◌, ◌≡◌, refl, ap, subst, ◌∙◌, inl, inr, true, false,
  ◌==◌, none, some, List, [], ◌∷◌, ◌++◌, arith, leb, if◌then◌else◌, done, length, length-append,
  get_elem?, Option-cases,
}
use bbolt_rs.Page.{page_header_size}
use bbolt_rs.Node.{INode, data_size, size, size_from}
use bbolt_rs.Node.Put.{is_empty}
use bbolt_rs.Store.{from_leaf, from_branch}
use bbolt_rs.Tree.{
  TreeKind, as_u32_size, PageBytes, slice, copy_to, element_offset, get_element, entry_at,
  write_entry, write_from, take_count, node_write, leaf_kind, branch_kind,
}

slice-same :
    (f g : ℕ → ℕ) (off n : ℕ) → ((a : ℕ) → a < off + n → f a ≡ g a) → slice f off n ≡ slice g off n
unfolding slice
slice-same f g off zero h = refl
slice-same f g off (suc n) h =
    rw (h off (omega arith))
      (ap (λ xs. g off ∷ xs) (slice-same f g (suc off) n (λ a less. h a (omega arith))))

copy_to-below : (off : ℕ) (xs : List ℕ) (f : ℕ → ℕ) (a : ℕ) → a < off → copy_to off xs f a ≡ f a
unfolding copy_to
copy_to-below off [] f a less = refl
copy_to-below off (x ∷ xs) f a less =
    copy_to-below (suc off) xs _ a (omega arith)
    ∙ (let other : (a == off) ≡ false = ground arith in rw other refl)

slice-copy_to :
    (off : ℕ) (xs ys : List ℕ) (f : ℕ → ℕ) → slice (copy_to off (xs ++ ys) f) off (length xs) ≡ xs
unfolding slice copy_to
slice-copy_to off [] ys f = refl
slice-copy_to off (x ∷ xs) ys f =
    let self : (off == off) ≡ true = ground arith in
    rw
      (
        copy_to-below (suc off) (xs ++ ys) (λ a. if a == off then x else f a) off (omega arith),
        slice-copy_to (suc off) xs ys (λ a. if a == off then x else f a),
        self,
      )
      refl

-- What the kinds of page keep: an element holds what was written to it, and its entry is read from the key
-- and the part of the value that the kind stores.
pub record IsLawful {E : Type 0} (k : TreeKind E) (stored : INode → INode) : Type 0 where
  pub value_part : INode → List ℕ
  pub unread : INode → List ℕ
  pub parts : (x : INode) → value_part x ++ unread x ≡ x.value
  pub pos_of_write : (e : E) (pos : ℕ) (x : INode) → k.pos_of (k.write_element e pos x) ≡ pos
  pub key_size_of_write :
      (e : E) (pos : ℕ) (x : INode)
      → k.key_size_of (k.write_element e pos x) ≡ as_u32_size (length x.key)
  pub value_size_of_write :
      (e : E) (pos : ℕ) (x : INode)
      → k.value_size_of (k.write_element e pos x) ≡ as_u32_size (length (value_part x))
  pub read_write :
      (e : E) (pos : ℕ) (x : INode)
      → k.read (k.write_element e pos x) x.key (value_part x) ≡ stored x

pub leaf_kind-IsLawful : IsLawful leaf_kind from_leaf
leaf_kind-IsLawful = record {
  value_part = λ x. x.value;
  unread = λ x. [];
  parts = λ x. append-nil x.value;
  pos_of_write = λ e pos x. refl;
  key_size_of_write = λ e pos x. refl;
  value_size_of_write = λ e pos x. refl;
  read_write = λ e pos x. refl;
}

pub branch_kind-IsLawful : IsLawful branch_kind from_branch
branch_kind-IsLawful = record {
  value_part = λ x. [];
  unread = λ x. x.value;
  parts = λ x. refl;
  pos_of_write = λ e pos x. refl;
  key_size_of_write = λ e pos x. refl;
  value_size_of_write = λ e pos x. refl;
  read_write = λ e pos x. refl;
}

abbrev pub HasKeys : List INode → Type 0
HasKeys [] = Unit {0}
HasKeys (x ∷ xs) = (is_empty x.key ≡ false) × HasKeys xs

-- The bytes of all keys and values.
abbrev total : List INode → ℕ
total [] = 0
total (x ∷ xs) = data_size x + total xs

size_from-total :
    (start : ℕ) (xs : List INode) → size_from 16 start xs ≡ start + 16 * length xs + total xs
unfolding size_from
size_from-total start [] = omega arith
size_from-total start (x ∷ xs) = size_from-total (start + (16 + data_size x)) xs ∙ omega arith

take_count-length : (xs : List INode) → take_count (length xs) xs ≡ xs
take_count-length [] = refl
take_count-length (x ∷ xs) = ap (λ ys. x ∷ ys) (take_count-length xs)

get_elem?-none : (xs : List INode) (i : ℕ) → get_elem? xs i ≡ none → length xs ≤ i
get_elem?-none [] i e = omega arith
get_elem?-none (x ∷ xs) zero e = cc
get_elem?-none (x ∷ xs) (suc i) e = omega (arith, get_elem?-none xs i e)

get_elem?-inside : (xs : List INode) (i : ℕ) (x : INode) → get_elem? xs i ≡ some x → i < length xs
get_elem?-inside [] i x e = cc
get_elem?-inside (y ∷ xs) zero x e = omega arith
get_elem?-inside (y ∷ xs) (suc i) x e = omega (arith, get_elem?-inside xs i x e)

module _ {E : Type 0} (k : TreeKind E) (stored : INode → INode) (laws : IsLawful k stored) where
  -- An element that points to bytes that hold the entry.
  entry_at_lem :
      (q : PageBytes E) (i off : ℕ) (e : E) (x : INode) (byte : ℕ → ℕ)
      → element_offset i ≤ off
      → off + data_size x < 4294967296
      → q.element i ≡ k.write_element e (as_u32_size (off - element_offset i)) x
      → ((a : ℕ)
          → a < off + data_size x
          → q.byte a ≡ copy_to (off + length x.key) x.value (copy_to off x.key byte) a)
      → entry_at k q i ≡ stored x
  unfolding entry_at
  entry_at_lem q i off e x byte behind small written same =
      let pos = as_u32_size (off - element_offset i) in
      let whole : length (laws.value_part x) + length (laws.unread x) ≡ length x.value =
        sym (length-append (laws.value_part x) (laws.unread x)) ∙ ap length (laws.parts x) in
      let at_off : element_offset i + pos ≡ off = omega (arith, behind, small) in
      let key_len : as_u32_size (length x.key) ≡ length x.key = omega (arith, small) in
      let value_len : as_u32_size (length (laws.value_part x)) ≡ length (laws.value_part x) =
        omega (arith, small, whole) in
      let keys : slice q.byte off (length x.key) ≡ x.key =
        slice-same q.byte (copy_to off x.key byte) off (length x.key) (λ a less.
          same a (omega arith)
          ∙ copy_to-below (off + length x.key) x.value (copy_to off x.key byte) a (omega arith))
        ∙ ap (λ ys. slice (copy_to off ys byte) off (length x.key)) (sym (append-nil x.key))
        ∙ slice-copy_to off x.key [] byte in
      let values : slice q.byte (off + length x.key) (length (laws.value_part x))
          ≡ laws.value_part x =
        slice-same q.byte (copy_to (off + length x.key) x.value (copy_to off x.key byte))
          (off + length x.key) (length (laws.value_part x))
          (λ a less. same a (omega (arith, whole, less)))
        ∙ ap
            (λ ys.
              slice (copy_to (off + length x.key) ys (copy_to off x.key byte)) (off + length x.key)
                (length (laws.value_part x)))
            (sym (laws.parts x))
        ∙ slice-copy_to (off + length x.key) (laws.value_part x) (laws.unread x)
            (copy_to off x.key byte) in
      rw
        (
          entry_at,
          written,
          laws.pos_of_write e pos x,
          laws.key_size_of_write e pos x,
          laws.value_size_of_write e pos x,
          at_off,
          key_len,
          value_len,
          keys,
          values,
        )
        (laws.read_write e pos x)

  abbrev IsWrittenFrom : PageBytes E → ℕ → ℕ → List INode → PageBytes E → Type 0
  IsWrittenFrom p i off xs q =
      (q.header ≡ p.header)
      × ((a : ℕ) → a < off → q.byte a ≡ p.byte a)
      × ((j : ℕ) → j < i → q.element j ≡ p.element j)
      × ((j : ℕ) (x : INode) → get_elem? xs j ≡ some x → entry_at k q (i + j) ≡ stored x)

  write_from-IsWrittenFrom :
      (p : PageBytes E) (i off n : ℕ) (xs : List INode)
      → HasKeys xs
      → i + length xs ≤ n
      → element_offset n ≤ off
      → off + total xs < 4294967296
      → (q : PageBytes E) × (write_from k p i off xs ≡ done (q, off + total xs))
        × IsWrittenFrom p i off xs q
  unfolding write_from
  write_from-IsWrittenFrom p i off n [] keys fits behind small =
      (p, ap (λ a. done (p, a)) (omega arith), (refl, λ a less. refl, λ j less. refl, λ j x e. cc))
  write_from-IsWrittenFrom p i off n (x ∷ xs) (key, keys) fits behind small =
      let (q, run, (header, bytes, elements, entries)) =
        write_from-IsWrittenFrom (write_entry k p i off x) (suc i)
          (off + (length x.key + length x.value)) n xs keys (omega (arith, fits))
          (omega (arith, behind)) (omega (arith, small)) in
      (
        q,
        rw key (run ∙ ap (λ a. done (q, a)) (omega arith)),
        (
          header,
          (λ a less. bytes a (omega arith) ∙ below a less),
          (λ j less. elements j (omega arith) ∙ other j less),
          entry q bytes elements entries,
        ),
      )
    where
      below : (a : ℕ) → a < off → (write_entry k p i off x).byte a ≡ p.byte a
      below a less =
          copy_to-below (off + length x.key) x.value (copy_to off x.key p.byte) a (omega arith)
          ∙ copy_to-below off x.key p.byte a less

      other : (j : ℕ) → j < i → (write_entry k p i off x).element j ≡ p.element j
      other j less = let no : (j == i) ≡ false = ground arith in rw no refl

      entry :
          (q : PageBytes E)
          → ((a : ℕ)
              → a < off + (length x.key + length x.value)
              → q.byte a ≡ (write_entry k p i off x).byte a)
          → ((j : ℕ) → j < suc i → q.element j ≡ (write_entry k p i off x).element j)
          → ((j : ℕ) (y : INode) → get_elem? xs j ≡ some y → entry_at k q (suc i + j) ≡ stored y)
          → (j : ℕ) (y : INode) → get_elem? (x ∷ xs) j ≡ some y
          → entry_at k q (i + j) ≡ stored y
      entry q bytes elements entries zero y e =
          let same : x ≡ y = ground (arith, e) in
          let self : (i == i) ≡ true = ground arith in
          let at_i : i + 0 ≡ i = omega arith in
          rw (at_i, ← same)
            (entry_at_lem q i off (p.element i) x p.byte (omega (arith, fits, behind))
              (omega (arith, small)) (elements i (omega arith) ∙ rw self refl) bytes)
      entry q bytes elements entries (suc j) y e =
          let next : i + suc j ≡ suc i + j = omega arith in rw next (entries j y e)

  -- The page as `write_elements` first leaves it, with the flag and the count.
  abbrev headed : PageBytes E → ℕ → PageBytes E
  headed p count = record p { header = record (k.set_flag p.header) { count = count } }

  node_write-run :
      (p q : PageBytes E) (x : INode) (xs : List INode) (off : ℕ)
      → length (x ∷ xs) < 65536
      → write_from k (headed p (length (x ∷ xs))) 0 (element_offset (length (x ∷ xs))) (x ∷ xs)
        ≡ done (q, off)
      → node_write k p (x ∷ xs) ≡ done (q, as_u32_size off)
  unfolding node_write
  node_write-run p q x xs off few run =
      let some_entry : (length (x ∷ xs) == 0) ≡ false = ground arith in
      let counted : length (x ∷ xs) % 65536 ≡ length (x ∷ xs) = omega (arith, few) in
      rw (counted, take_count-length xs) (rw run (rw some_entry refl))

  node_write-empty : (p : PageBytes E) → node_write k p [] ≡ done (headed p 0, 0)
  unfolding node_write
  node_write-empty p = refl

  get_element-in :
      (q : PageBytes E) (xs : List INode)
      → q.header.count ≡ length xs
      → ((j : ℕ) (x : INode) → get_elem? xs j ≡ some x → entry_at k q j ≡ stored x)
      → (i : ℕ) → get_element k q i ≡ Option.map stored (get_elem? xs i)
  unfolding get_element
  get_element-in q xs counted entries i = elim (Option-cases (get_elem? xs i)) [
    | inl e ↦
        let past : leb q.header.count i ≡ true = ground (arith, counted, get_elem?-none xs i e) in
        rw (past, e) refl
    | inr (x, e) ↦
        let inside : leb q.header.count i ≡ false =
          ground (arith, counted, get_elem?-inside xs i x e) in
        rw (inside, e, entries i x e) refl
  ]

  -- A page to which a node is written gives each of its entries back under its index, as far as this kind
  -- of page stores it, and none behind them; if there is an entry, what is written ends at the size of the
  -- node. The keys are not empty, there are at most 0xFFFF entries, and the size is less than 2 ^ 32.
  pub node_write-get_element :
      (p : PageBytes E) (xs : List INode)
      → HasKeys xs
      → length xs < 65536
      → size 16 xs < 4294967296
      → (q : PageBytes E) × (off : ℕ) × (node_write k p xs ≡ done (q, off))
        × (0 < length xs → off ≡ size 16 xs)
        × ((i : ℕ) → get_element k q i ≡ Option.map stored (get_elem? xs i))
  unfolding size
  node_write-get_element p [] keys few small = (
    headed p 0,
    0,
    node_write-empty p,
    (λ pos. absurd (omega arith)),
    λ i. get_element-in (headed p 0) [] refl (λ j x e. cc) i,
  )
  node_write-get_element p (x ∷ xs) keys few small =
      let all = size_from-total page_header_size (x ∷ xs) in
      let n = length (x ∷ xs) in
      let from_start : (j : ℕ) → 0 + j ≡ j = λ j. omega arith in
      let (q, run, (header, bytes, elements, entries)) =
        write_from-IsWrittenFrom (headed p n) 0 (element_offset n) n (x ∷ xs) keys (omega arith)
          (omega arith) (omega (arith, all, small)) in
      (
        q,
        as_u32_size (element_offset n + total (x ∷ xs)),
        node_write-run p q x xs (element_offset n + total (x ∷ xs)) few run,
        (λ pos. omega (arith, all, small)),
        get_element-in q (x ∷ xs) (ap (λ h. h.count) header)
            (λ j y e. subst (λ z. entry_at k q z ≡ stored y) (from_start j) (entries j y e)),
      )
