-- ===== src/Examples/Practice.antt =====
-- Practice in a set of one's own, for which no state is found, and in the default set, which gets its word.
use wordbit_advanced.Prelude.{◌⊎◌, true, ◌≡◌, ◌≤◌, refl, false, none, some, [], ◌∷◌, ℤ, All, length}
use wordbit_advanced.Domain.{WordSet, WordSetMode, NewWordSource, UserWordState}
use wordbit_advanced.Sorting.{slice_stable}
use wordbit_advanced.Sorting.Laws.{slice_stable-All}
use wordbit_advanced.Pool.Practice.{StateRows, is_practised, list_bonus_practice_candidates}
use wordbit_advanced.Pool.Practice.Limited.{TakesUnset, list_bonus_practice_candidates-AreSuitable}
use wordbit_advanced.Examples.Fixed.{fixed}
use wordbit_advanced.Examples.Samples.{open_word, card}

abbrev own_set : WordSet
own_set = record {
  id = 5;
  user_id = 1;
  name = "Speaking";
  icon = "";
  mode = WordSetMode.custom;
  is_default = false;
  auto_generate_new_words = false;
  new_word_source = NewWordSource.unset;
  recording_enabled = false;
  enabled_review_modes = [];
  due_count = 0;
  created_at = 0;
  updated_at = 0;
}

abbrev member : UserWordState ℤ
member = record open_word { word_id = 9; word_set_id = some 5 }

abbrev some_rows : StateRows ℤ
some_rows = record {
  list_weak_candidates = λ excluded limit. open_word ∷ [];
  list_existing_words = open_word ∷ member ∷ [];
  get = λ id. none;
  sort_slice = slice_stable;
}

abbrev default_set : WordSet
default_set = record own_set { id = 4; is_default = true }

member_is_not_found : list_bonus_practice_candidates some_rows (some own_set) (card ∷ []) 2 ≡ []
unfolding list_bonus_practice_candidates slice_stable
member_is_not_found = refl

member_passes_for_default :
    list_bonus_practice_candidates some_rows (some default_set) (card ∷ []) 2
    ≡ open_word ∷ record member { word_set_id = none } ∷ []
unfolding list_bonus_practice_candidates slice_stable
member_passes_for_default = refl

list_bonus_practice_candidates-AreSuitable_example :
    (length (list_bonus_practice_candidates some_rows (some default_set) (card ∷ []) 2) ≤ 2)
    × All
        (λ st. is_practised st.status ≡ true)
        (list_bonus_practice_candidates some_rows (some default_set) (card ∷ []) 2)
    × (TakesUnset (some default_set)
        ⊎ (list_bonus_practice_candidates some_rows (some default_set) (card ∷ []) 2 ≡ []))
list_bonus_practice_candidates-AreSuitable_example =
    list_bonus_practice_candidates-AreSuitable some_rows (some default_set)
      (λ P less l all. slice_stable-All P less l all) (λ excluded limit. (refl, tt)) (card ∷ []) 2
