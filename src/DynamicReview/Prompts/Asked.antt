-- ===== src/DynamicReview/Prompts/Asked.antt =====
-- ensurePrompts: the requests that a prewarm makes.
use wordbit_advanced.Prelude.{◌≤◌, List, [], ◌∷◌, ◌++◌, length}

module _ {A : Type 0} where
  abbrev pub join : List (List A) → List A
  join [] = []
  join (l ∷ ls) = l ++ join ls

  -- The elements of the first list in the reverse order, before the second.
  abbrev pub reverse_onto : List A → List A → List A
  reverse_onto [] ys = ys
  reverse_onto (x ∷ xs) ys = reverse_onto xs (x ∷ ys)

  -- A request of a prewarm: it has a candidate, and at most twenty-five.
  abbrev pub IsChunk : List A → Type 0
  IsChunk l = (1 ≤ length l) × (length l ≤ 25)
