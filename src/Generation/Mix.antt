-- ===== src/Generation/Mix.antt =====
-- internal/service/pool_service.go: how many words of each kind a day asks for, and their order.
use wordbit_advanced.Prelude.{
  ℕ, Bool, List, [], ◌∷◌, if◌then◌else◌, leb, ltb, ℤ, pos, leb_ℤ, ltb_ℤ, ◌-ℤ◌,
}
use wordbit_advanced.Domain.{Word}
use wordbit_advanced.Normalization.{Unicode}
use wordbit_advanced.ReviewModes.{GeneratedItemKind, classify_word_kind}
use wordbit_advanced.Sorting.{slice_stable}

-- A map from the kinds to numbers.
pub record KindNumbers : Type 0 where
  pub single_word : ℤ
  pub phrasal_verb : ℤ
  pub collocation : ℤ

abbrev pub number_of : KindNumbers → GeneratedItemKind → ℤ
number_of n GeneratedItemKind.single_word = n.single_word
number_of n GeneratedItemKind.phrasal_verb = n.phrasal_verb
number_of n GeneratedItemKind.collocation = n.collocation

unfoldable pub compute_generated_item_kind_targets : ℤ → KindNumbers
compute_generated_item_kind_targets limit =
    if leb_ℤ (pos 6) limit
    then record { single_word = limit -ℤ pos 2; phrasal_verb = pos 1; collocation = pos 1 }
    else if leb_ℤ (pos 4) limit
    then record { single_word = limit -ℤ pos 1; phrasal_verb = pos 1; collocation = pos 0 }
    else record { single_word = limit; phrasal_verb = pos 0; collocation = pos 0 }

unfoldable pub generated_item_kind_priority : GeneratedItemKind → KindNumbers → ℕ
generated_item_kind_priority kind targets =
    if leb_ℤ (number_of targets kind) (pos 0) then 10 else elim kind [
      | GeneratedItemKind.phrasal_verb ↦ 0
      | GeneratedItemKind.collocation ↦ 1
      | GeneratedItemKind.single_word ↦ 2
    ]

module _ {F : Type 0} (u : Unicode) (targets : KindNumbers) where
  abbrev pub kind_comes_first : Word F → Word F → Bool
  kind_comes_first a b =
      ltb (generated_item_kind_priority (classify_word_kind u a) targets)
        (generated_item_kind_priority (classify_word_kind u b) targets)

  unfoldable pub order_words_by_generated_mix : List (Word F) → List (Word F)
  unfolding slice_stable generated_item_kind_priority classify_word_kind
  order_words_by_generated_mix words = slice_stable kind_comes_first words

-- The hint of a request, before it is written out in words.
pub data MixHint : Type 0 where
  nothing_needed : MixHint
  practical : ℕ → MixHint
  needs : List (ℤ × GeneratedItemKind) → MixHint

abbrev pub needed :
    ℤ → GeneratedItemKind → List (ℤ × GeneratedItemKind) → List (ℤ × GeneratedItemKind)
needed n kind parts = if ltb_ℤ (pos 0) n then (n, kind) ∷ parts else parts

abbrev pub hint_of_parts : ℕ → List (ℤ × GeneratedItemKind) → MixHint
hint_of_parts remaining [] = practical remaining
hint_of_parts remaining (p ∷ parts) = needs (p ∷ parts)

unfoldable pub build_generated_item_mix_hint : KindNumbers → KindNumbers → ℕ → MixHint
build_generated_item_mix_hint targets selected remaining =
    if leb remaining 0
    then nothing_needed
    else hint_of_parts remaining (
        needed (targets.single_word -ℤ selected.single_word) GeneratedItemKind.single_word (
          needed (targets.phrasal_verb -ℤ selected.phrasal_verb) GeneratedItemKind.phrasal_verb (
            needed (targets.collocation -ℤ selected.collocation) GeneratedItemKind.collocation [])))
