-- ===== src/Sorting.antt =====
-- `sort.SliceStable` of Go's standard library: the one list in the order of `less` that keeps equals
-- in the order that they had. What it does to predicates, and that it sorts by a strict weak order.
pub mod Laws
use wordbit_advanced.Prelude.{Bool, List, [], ◌∷◌, if◌then◌else◌}

module _ {ℓ} {A : Type ℓ} (less : A → A → Bool) where
  unfoldable pub insert_stable : A → List A → List A
  insert_stable x [] = x ∷ []
  insert_stable x (y ∷ ys) =
      let rest = insert_stable x ys in if less y x then y ∷ rest else x ∷ y ∷ ys

  unfoldable pub slice_stable : List A → List A
  unfolding insert_stable
  slice_stable [] = []
  slice_stable (x ∷ xs) = insert_stable x (slice_stable xs)
