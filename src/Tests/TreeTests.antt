-- ===== src/Tests/TreeTests.antt =====
-- A node of three entries, written to a leaf page.
use mathlib.Core.Option
use bbolt_rs.Prelude.{ℕ, ◌<◌, ◌≡◌, refl, arith, some, List, [], ◌∷◌, done, get_elem?, length}
use bbolt_rs.Node.{INode, size, size_from}
use bbolt_rs.Store.{from_leaf}
use bbolt_rs.Tree.{
  LeafPageElement, PageBytes, leaf_kind, get_element, node_write, entry_at, write_elements,
  write_from, slice, copy_to,
}
use bbolt_rs.Tree.RoundTrip.{leaf_kind-IsLawful, node_write-get_element}
use bbolt_rs.Tests.CursorTests.{entry, bucket_entry}

abbrev three : List INode
three = entry 1 ∷ bucket_entry 3 ∷ entry 7 ∷ []

abbrev blank : PageBytes LeafPageElement
blank = record {
  header = record { id = 4; flags = 0; count = 0; overflow = 0 };
  element = λ i. record { flags = 0; pos = 0; key_size = 0; value_size = 0 };
  byte = λ a. 0;
}

node_write-get_element_example :
    (q : PageBytes LeafPageElement) × (off : ℕ) × (node_write leaf_kind blank three ≡ done (q, off))
    × (0 < length three → off ≡ size 16 three)
    × ((i : ℕ) → get_element leaf_kind q i ≡ Option.map from_leaf (get_elem? three i))
unfolding size size_from
node_write-get_element_example =
    node_write-get_element leaf_kind from_leaf leaf_kind-IsLawful blank three
      (refl, (refl, (refl, tt))) (omega arith) (omega arith)

written :
    (q : PageBytes LeafPageElement) × (node_write leaf_kind blank three ≡ done (q, 71))
    × (get_element leaf_kind q 2 ≡ some (entry 7))
unfolding node_write write_elements write_from get_element entry_at slice copy_to
written = (_, refl, refl)
