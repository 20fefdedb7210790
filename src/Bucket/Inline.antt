-- ===== src/Bucket/Inline.antt =====
-- `inlineable` of src/bucket.rs: which buckets are stored in the value of their entry.
use bbolt_rs.Prelude.{
  ℕ, ◌+◌, ◌≤◌, ◌≡◌, ◌↔◌, refl, ap, ◌⊎◌, inl, inr, Bool, true, false, ◌||◌, some, List, [], ◌∷◌,
  arith, ltb, Outcome, done, panic, diverge, Bool-cases, ◌/◌,
}
use bbolt_rs.Page.{page_header_size}
use bbolt_rs.Node.{INode, data_size, size, size_from}
use bbolt_rs.Store.{Memory, Bucket, BucketW}
use bbolt_rs.Bucket.{is_bucket, fits_from, inlineable}

abbrev pub HasNoBucket : List INode → Type 0
HasNoBucket [] = Unit {0}
HasNoBucket (x ∷ xs) = (is_bucket x.flags ≡ false) × HasNoBucket xs

-- The entries are no buckets, and with them the node has at most this size, if there are any.
abbrev pub IsSmall : ℕ → ℕ → List INode → Type 0
IsSmall max start xs = HasNoBucket xs × ((xs ≡ []) ⊎ (size_from 16 start xs ≤ max))

size_from-ge : (start : ℕ) (xs : List INode) → start ≤ size_from 16 start xs
unfolding size_from
size_from-ge start [] = omega arith
size_from-ge start (x ∷ xs) = omega (arith, size_from-ge (start + (16 + data_size x)) xs)

fits_from-IsSmall :
    (max start : ℕ) (xs : List INode) → fits_from max start xs ≡ true → IsSmall max start xs
unfolding fits_from size_from
fits_from-IsSmall max start [] e = (tt, inl refl)
fits_from-IsSmall max start (x ∷ xs) e =
    elim (Bool-cases (is_bucket x.flags || ltb max (start + (16 + data_size x)))) [
      | inl stop ↦ absurd (cc (rw stop at e))
      | inr go ↦
          let (plain, small) = fits_from-IsSmall max (start + (16 + data_size x)) xs (rw go at e) in
          let (this, within) = both (is_bucket x.flags) max (start + (16 + data_size x)) go in
          ((this, plain), inr (elim small [ inl nothing ↦ rw nothing within | inr le ↦ le ]))
    ]
  where
    both : (is : Bool) (max n : ℕ) → (is || ltb max n) ≡ false → (is ≡ false) × (n ≤ max)
    both true max n e = cc
    both false max n e = (refl, ground (arith, e))

IsSmall-fits_from :
    (max start : ℕ) (xs : List INode) → IsSmall max start xs → fits_from max start xs ≡ true
unfolding fits_from size_from
IsSmall-fits_from max start [] small = refl
IsSmall-fits_from max start (x ∷ xs) (plain, inl nothing) = cc
IsSmall-fits_from max start (x ∷ xs) ((this, plain), inr le) =
    let grown = size_from-ge (start + (16 + data_size x)) xs in
    let within : ltb max (start + (16 + data_size x)) ≡ false = ground (arith, grown, le) in
    rw (this, within) (IsSmall-fits_from max (start + (16 + data_size x)) xs (plain, inr le))

-- A bucket whose root node is in memory is inlineable just when this node is a leaf without a bucket
-- among its entries, and with a size of at most a quarter of a page unless it is empty.
pub inlineable-IsSmall :
    (b : Bucket) (m : Memory) (page_size : ℕ) (w : BucketW) (n : ℕ)
    → b.w ≡ some w
    → w.root_node ≡ some n
    → (inlineable b m page_size ≡ done true) ↔ (
        ((m.cells n).is_leaf ≡ true)
        × HasNoBucket (m.cells n).inodes
        × (((m.cells n).inodes ≡ []) ⊎ (size 16 (m.cells n).inodes ≤ page_size / 4)))
unfolding inlineable size
inlineable-IsSmall b m page_size w n writes at_root =
    rw (writes, at_root)
      (elim (Bool-cases (m.cells n).is_leaf) [
        | inl leaf ↦ rw leaf (
          (λ e. (
            refl,
            (fits_from-IsSmall (page_size / 4) page_header_size (m.cells n).inodes (is_done e)).0,
            (fits_from-IsSmall (page_size / 4) page_header_size (m.cells n).inodes (is_done e)).1,
          )),
          (λ small. ap done (
              IsSmall-fits_from (page_size / 4) page_header_size (m.cells n).inodes
                (small.1, small.2))),
        )
        | inr branch ↦ rw branch ((λ e. cc), (λ small. cc))
      ])
  where
    value : Outcome Bool → Bool
    value (done a) = a
    value panic = false
    value diverge = false

    is_done : {a : Bool} → done a ≡ done true → a ≡ true
    is_done e = ap value e
