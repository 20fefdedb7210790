-- ===== src/Tests/LeafTests.antt =====
-- A put and a delete in a bucket of one leaf, and the buckets that fit into a value.
use bbolt_rs.Prelude.{ℕ, ◌≡◌, refl, inl, arith, some, none, List, [], ◌∷◌, done, if◌then◌else◌, get}
use bbolt_rs.Page.{is_leaf}
use bbolt_rs.Node.Keys.{cmp, is_equal, HasSortedKeys, lookup}
use bbolt_rs.Store.{page, Memory, Bucket, BucketW, page_node}
use bbolt_rs.Cursor.View.{elems}
use bbolt_rs.Cursor.Path.{IsTree}
use bbolt_rs.Bucket.{api_put, api_get, api_delete}
use bbolt_rs.Bucket.Get.{put_error}
use bbolt_rs.Bucket.Reach.{IsWritable}
use bbolt_rs.Bucket.PutGet.{api_put-api_get}
use bbolt_rs.Bucket.DeleteGet.{api_delete-api_get}
use bbolt_rs.Tests.CursorTests.{entry, right_page, memory}

abbrev writes : BucketW
writes = record { root_node = none; nodes = [] }

abbrev small : Bucket
small = record { header = record { root = 12; sequence = 0 }; inline_page = none; w = some writes }

look : page_node small memory 12 ≡ done (page right_page)
unfolding page_node get
look = refl

is_tree : IsTree small memory 0 (page right_page)
unfolding is_leaf
is_tree = (record { counted = refl; in_u16 = omega arith; typed = inl refl }, refl)

sorted : HasSortedKeys (elems small memory (page right_page))
unfolding cmp
sorted = ((refl, tt), (tt, tt))

writable : IsWritable small memory (page right_page)
unfolding get
writable = (
  writes,
  record {
    writes = refl;
    not_cached = refl;
    own_id = refl;
    its_page = refl;
    flags = refl;
    keys = (refl, (refl, tt));
  },
)

fine : put_error (6 ∷ []) (9 ∷ []) (lookup (6 ∷ []) (elems small memory (page right_page))) ≡ none
unfolding lookup cmp
fine = refl

api_put-api_get_example :
    (b' : Bucket) × (m' : Memory) × (api_put small memory 20 1 (6 ∷ []) (9 ∷ [])
      ≡ done ((b', m'), none))
    × ((k : List ℕ)
        → api_get b' m' 1 k
          ≡ (if is_equal (cmp (6 ∷ []) k) then done (some (9 ∷ [])) else api_get small memory 1 k))
api_put-api_get_example =
    api_put-api_get small memory (page right_page) 20 1 (6 ∷ []) (9 ∷ []) look is_tree sorted
      writable (omega arith) (omega arith) fine

has_seven : lookup (7 ∷ []) (elems small memory (page right_page)) ≡ some (entry 7)
unfolding lookup cmp
has_seven = refl

api_delete-api_get_example :
    (b' : Bucket) × (m' : Memory) × (api_delete small memory 1 (7 ∷ []) ≡ done ((b', m'), none))
    × ((k : List ℕ)
        → api_get b' m' 1 k
          ≡ (if is_equal (cmp (7 ∷ []) k) then done none else api_get small memory 1 k))
api_delete-api_get_example =
    api_delete-api_get small memory (page right_page) 1 (7 ∷ []) (entry 7) look is_tree sorted
      writable (omega arith) has_seven refl
