-- ===== src/Page.antt =====
-- src/common/page.rs: the header that every page of the file begins with, and its type flags.
use Prim.Native.Nat.{bit_and}
use bbolt_rs.Prelude.{
  ℕ, ◌≡◌, Bool, ◌||◌, ◌&&◌, not, Option, none, some, ◌==◌, if◌then◌else◌, ◌⊎◌, inl, inr, ◌↔◌, arith,
  Outcome, done, panic,
}

abbrev pub page_header_size : ℕ
page_header_size = 16

abbrev pub min_keys_per_page : ℕ
min_keys_per_page = 2

abbrev pub branch_page_flag : ℕ
branch_page_flag = 0x01

abbrev pub leaf_page_flag : ℕ
leaf_page_flag = 0x02

abbrev pub meta_page_flag : ℕ
meta_page_flag = 0x04

abbrev pub free_list_page_flag : ℕ
free_list_page_flag = 0x10

abbrev pub bucket_leaf_flag : ℕ
bucket_leaf_flag = 0x01

pub record PageHeader : Type 0 where
  pub id : ℕ
  pub flags : ℕ
  pub count : ℕ
  pub overflow : ℕ

unfoldable pub set_branch : PageHeader → PageHeader
set_branch p = record p { flags = branch_page_flag }

unfoldable pub set_leaf : PageHeader → PageHeader
set_leaf p = record p { flags = leaf_page_flag }

unfoldable pub set_meta : PageHeader → PageHeader
set_meta p = record p { flags = meta_page_flag }

unfoldable pub set_free_list : PageHeader → PageHeader
set_free_list p = record p { flags = free_list_page_flag }

-- A panic where the page says that it is another one, or has no known type.
unfoldable pub fast_check : PageHeader → ℕ → Outcome (Unit {0})
fast_check p id =
    if p.id == id
      && (p.flags == branch_page_flag
          || (p.flags == leaf_page_flag
              || (p.flags == meta_page_flag || p.flags == free_list_page_flag)))
    then done tt
    else panic

unfoldable pub is_branch : PageHeader → Bool
is_branch p = not (bit_and p.flags branch_page_flag == 0)

unfoldable pub is_leaf : PageHeader → Bool
is_leaf p = not (bit_and p.flags leaf_page_flag == 0)

unfoldable pub is_meta : PageHeader → Bool
is_meta p = not (bit_and p.flags meta_page_flag == 0)

unfoldable pub is_free_list : PageHeader → Bool
is_free_list p = not (bit_and p.flags free_list_page_flag == 0)

-- The name of a type; the text of an unknown one shows its flags.
pub data PageType : Type 0 where
  branch leaf meta freelist : PageType
  unknown : ℕ → PageType

unfoldable pub page_type : PageHeader → PageType
unfolding is_branch is_leaf is_meta is_free_list
page_type p =
    if is_branch p
    then branch
    else if is_leaf p
    then leaf
    else if is_meta p
    then meta
    else if is_free_list p
    then freelist
    else unknown p.flags

-- `coerce_ref` and `coerce_mut` of a page type with the given flag.
unfoldable pub coerce : ℕ → PageHeader → Option PageHeader
coerce page_flag p = if p.flags == page_flag then some p else none

-- `mut_into` of a page type with the given flag.
unfoldable pub mut_into : ℕ → PageHeader → PageHeader
mut_into page_flag p = record p { flags = page_flag }

-- The flag that a page of the type has.
abbrev pub flag_of : PageType → ℕ
flag_of branch = branch_page_flag
flag_of leaf = leaf_page_flag
flag_of meta = meta_page_flag
flag_of freelist = free_list_page_flag
flag_of (unknown flags) = flags

known_flag :
    (p : PageHeader) (id : ℕ)
    → fast_check p id ≡ done tt
    → (p.id ≡ id)
      × ((p.flags ≡ branch_page_flag)
          ⊎ ((p.flags ≡ leaf_page_flag)
              ⊎ ((p.flags ≡ meta_page_flag) ⊎ (p.flags ≡ free_list_page_flag))))
unfolding fast_check
known_flag p id h = ground arith

masks :
    (x y : ℕ)
    → x ≡ y
    → (bit_and x 1 ≡ bit_and y 1)
      × (bit_and x 2 ≡ bit_and y 2)
      × (bit_and x 4 ≡ bit_and y 4)
      × (bit_and x 16 ≡ bit_and y 16)
masks x y e = (cc, cc, cc, cc)

named :
    (p : PageHeader)
    → (p.flags ≡ 1) ⊎ ((p.flags ≡ 2) ⊎ ((p.flags ≡ 4) ⊎ (p.flags ≡ 16)))
    → (flag_of (page_type p) ≡ p.flags) × ((flags : ℕ) → ¬ (page_type p ≡ unknown flags))
unfolding page_type
named p (inl e) =
    (ground (arith, masks p.flags 1 e), λ x h. absurd (ground (arith, h, masks p.flags 1 e)))
named p (inr (inl e)) =
    (ground (arith, masks p.flags 2 e), λ x h. absurd (ground (arith, h, masks p.flags 2 e)))
named p (inr (inr (inl e))) =
    (ground (arith, masks p.flags 4 e), λ x h. absurd (ground (arith, h, masks p.flags 4 e)))
named p (inr (inr (inr e))) =
    (ground (arith, masks p.flags 16 e), λ x h. absurd (ground (arith, h, masks p.flags 16 e)))

-- A page that passes the check is the wanted one, has one of the four types, and coerces to a page
-- type exactly if that is its own.
pub fast_check-page_type :
    (p : PageHeader) (id : ℕ)
    → fast_check p id ≡ done tt
    → (p.id ≡ id)
      × (flag_of (page_type p) ≡ p.flags)
      × ((t : PageType) → (coerce (flag_of t) p ≡ some p) ↔ (flag_of t ≡ flag_of (page_type p)))
      × ((flags : ℕ) → ¬ (page_type p ≡ unknown flags))
unfolding coerce
fast_check-page_type p id h =
    let (same, flags) = known_flag p id h in
    let (its, known) = named p flags in
    (same, its, λ t. (λ c. ground (arith, its), λ e. ground (arith, its)), known)
