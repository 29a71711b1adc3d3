-- ===== src/Examples/Recall.antt =====
-- The memory causes on sample answers.
use wordbit_advanced.Prelude.{◌≡◌, ◌≤◌, codes, ◌∷◌, [], refl, nat_eq}
use wordbit_advanced.Domain.{MemoryCause}
use wordbit_advanced.MemoryCause.{
  levenshtein_distance, infer_memory_cause, is_spelling_issue, is_near_miss,
}
use wordbit_advanced.Normalization.{normalize_word}
use wordbit_advanced.MemoryCause.Distance.{levenshtein_distance-Script, levenshtein_distance-le}
use wordbit_advanced.MemoryCause.Distance.Edits.{Script}
use wordbit_advanced.Examples.Fixed.{fixed}
use wordbit_advanced.Examples.Samples.{ascii, misspelt}

levenshtein_distance-Script_example :
    Script (codes "brisc") (codes "brisk") (levenshtein_distance (codes "brisc") (codes "brisk"))
levenshtein_distance-Script_example = levenshtein_distance-Script (codes "brisc") (codes "brisk")

misspelt_is_spelling : infer_memory_cause ascii misspelt ≡ MemoryCause.spelling_issue
unfolding infer_memory_cause is_spelling_issue is_near_miss normalize_word
misspelt_is_spelling = refl

-- "ab" becomes "ac" by one replacement.
one_edit : Script (97 ∷ 98 ∷ []) (97 ∷ 99 ∷ []) 1
one_edit = Script.replace 97 97 (Script.replace 98 99 Script.done refl) refl

levenshtein_distance-le_example : levenshtein_distance (97 ∷ 98 ∷ []) (97 ∷ 99 ∷ []) ≤ 1
levenshtein_distance-le_example = levenshtein_distance-le one_edit
