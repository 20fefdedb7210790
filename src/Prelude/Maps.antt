-- ===== src/Prelude/Maps.antt =====
-- Finite maps with numbers for keys: what the source's `HashMap` is used for. A map is the list of
-- its entries in the order of iteration.
use Prim.Native.Nat.{ℕ}
use mathlib.Core.Path.{◌≡◌}
use mathlib.Core.List.{List, [], ◌∷◌}
use mathlib.Core.Option.{Option, none, some}
use native.Mathlib.Omega.{arith}
use bbolt_rs.Prelude.Tests.{◌==◌, if◌then◌else◌}

abbrev pub Map {ℓ} : Type ℓ → Type ℓ
Map V = List (ℕ × V)

module _ {ℓ} {V : Type ℓ} where
  unfoldable pub get : ℕ → Map V → Option V
  get k [] = none
  get k ((j, v) ∷ m) = if j == k then some v else get k m

  unfoldable pub remove : ℕ → Map V → Map V
  remove k [] = []
  remove k ((j, v) ∷ m) = if j == k then remove k m else (j, v) ∷ remove k m

  unfoldable pub insert : ℕ → V → Map V → Map V
  insert k v m = (k, v) ∷ remove k m

  pub get-remove : (k j : ℕ) (m : Map V) → get j (remove k m) ≡ (if k == j then none else get j m)
  unfolding get remove
  get-remove k j [] = ground arith
  get-remove k j ((i, v) ∷ m) = ground (arith, get-remove k j m)

  pub get-insert :
      (k j : ℕ) (v : V) (m : Map V) → get j (insert k v m) ≡ (if k == j then some v else get j m)
  unfolding get insert
  get-insert k j v m = ground (arith, get-remove k j m)

  -- No key stands twice, so the iteration meets exactly the entries that `get` finds.
  abbrev pub DistinctKeys : Map V → Type ℓ
  DistinctKeys [] = Unit
  DistinctKeys ((k, v) ∷ m) = (get k m ≡ none) × DistinctKeys m

  pub remove-DistinctKeys : (k : ℕ) (m : Map V) → DistinctKeys m → DistinctKeys (remove k m)
  unfolding remove
  remove-DistinctKeys k [] d = d
  remove-DistinctKeys k ((j, v) ∷ m) d =
      ground (arith, remove-DistinctKeys k m d.1, get-remove k j m)

  pub insert-DistinctKeys :
      (k : ℕ) (v : V) (m : Map V) → DistinctKeys m → DistinctKeys (insert k v m)
  unfolding insert
  insert-DistinctKeys k v m d = (ground (arith, get-remove k k m), remove-DistinctKeys k m d)
