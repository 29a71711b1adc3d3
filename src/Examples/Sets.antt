-- ===== src/Examples/Sets.antt =====
-- The modes of word sets on sample sets.
use wordbit_advanced.Prelude.{
  arith, ◌≢◌, false, ◌≡◌, ◌≤◌, true, some, ◌∷◌, [], List, ℤ, codes, count_if, contains, refl,
}
use wordbit_advanced.Domain.{UserWordState, ReviewMode, DailyLearningPoolItem, Uuid, mode_eq}
use wordbit_advanced.Normalization.{trim_space}
use wordbit_advanced.ReviewModes.{
  ReviewModePreferences, select_configured_review_mode_for_preferences,
  hardest_enabled_non_reveal_mode, select_enabled_review_mode, cap_listening_review_items,
  is_listening_review, normalize_enabled_review_modes, classify_word_kind,
  classify_generated_item_kind,
}
use wordbit_advanced.ReviewModes.Fit.{select_enabled_review_mode-IsFitted, IsFitted}
use wordbit_advanced.ReviewModes.ListeningCap.{
  cap_listening_review_items-limit, cap_listening_review_items-unchanged, HasOnlyListening,
}
use wordbit_advanced.ReviewModes.Preferences.{normalize_enabled_review_modes-canonical, Ascending}
use wordbit_advanced.ReviewModes.Streak.{select_configured_review_mode_for_preferences-leaves}
use wordbit_advanced.Examples.Fixed.{fixed}
use wordbit_advanced.Examples.Samples.{open_word, ascii, brisk, card}

abbrev easy_modes : List ReviewMode
easy_modes = ReviewMode.multiple_choice ∷ ReviewMode.reveal ∷ []

abbrev heard_modes : List ReviewMode
heard_modes = ReviewMode.reveal ∷ ReviewMode.listening ∷ []

-- Every word's set has all the modes, or reveal and listening only.
abbrev every_mode : Uuid → List ReviewMode
every_mode word_id = []

abbrev heard_only : Uuid → List ReviewMode
heard_only word_id = heard_modes

abbrev three_cards : List (DailyLearningPoolItem ℤ)
three_cards = card ∷ card ∷ card ∷ []

select_enabled_review_mode-IsFitted_example :
    IsFitted ReviewMode.listening easy_modes true
      (select_enabled_review_mode ReviewMode.listening easy_modes true)
select_enabled_review_mode-IsFitted_example =
    select_enabled_review_mode-IsFitted ReviewMode.listening easy_modes true refl

cap_listening_review_items-limit_example :
    count_if is_listening_review (cap_listening_review_items ascii every_mode three_cards 2) ≤ 2
cap_listening_review_items-limit_example =
    cap_listening_review_items-limit ascii every_mode three_cards 2 (refl, (refl, (refl, tt)))

abbrev two_part_card : DailyLearningPoolItem ℤ
two_part_card = record card { word = some (record brisk { word = codes "brisk up" }) }

abbrev three_phrases : List (DailyLearningPoolItem ℤ)
three_phrases = two_part_card ∷ two_part_card ∷ two_part_card ∷ []

phrase-only : HasOnlyListening ascii heard_only two_part_card
unfolding classify_word_kind classify_generated_item_kind trim_space
phrase-only = (refl, refl, refl)

cap_listening_review_items-unchanged_example :
    cap_listening_review_items ascii heard_only three_phrases 2 ≡ three_phrases
cap_listening_review_items-unchanged_example =
    cap_listening_review_items-unchanged ascii heard_only three_phrases 2
      (phrase-only, (phrase-only, (phrase-only, tt)))

stored_easy_modes :
    normalize_enabled_review_modes easy_modes
    ≡ some (ReviewMode.reveal ∷ ReviewMode.multiple_choice ∷ [])
unfolding normalize_enabled_review_modes
stored_easy_modes = refl

normalize_enabled_review_modes-canonical_example :
    let out = ReviewMode.reveal ∷ ReviewMode.multiple_choice ∷ [] in
    (contains out ReviewMode.listening ≡ contains easy_modes ReviewMode.listening)
    × (contains out ReviewMode.reveal ≡ true)
    × Ascending 0 out
    × (normalize_enabled_review_modes out ≡ some out)
normalize_enabled_review_modes-canonical_example =
    normalize_enabled_review_modes-canonical easy_modes
      (ReviewMode.reveal ∷ ReviewMode.multiple_choice ∷ []) ReviewMode.listening stored_easy_modes

-- A custom set with two modes besides reveal, and a word that has met the harder three times
abbrev custom : ReviewModePreferences
custom = record {
  enabled_modes = ReviewMode.reveal ∷ ReviewMode.multiple_choice ∷ ReviewMode.definition_first ∷ [];
  is_custom_set = true;
}

abbrev drilled_word : UserWordState ℤ
drilled_word = record open_word { last_mode = ReviewMode.definition_first; mode_streak_count = 3 }

hardest_of_custom :
    (ReviewMode.definition_first ≡ hardest_enabled_non_reveal_mode custom.enabled_modes true)
unfolding hardest_enabled_non_reveal_mode
hardest_of_custom = refl

select_configured_review_mode_for_preferences-leaves_example :
    let r = select_configured_review_mode_for_preferences drilled_word false custom true in
    (r ≢ drilled_word.last_mode) × (r ≢ ReviewMode.reveal)
select_configured_review_mode_for_preferences-leaves_example =
    select_configured_review_mode_for_preferences-leaves drilled_word false custom true
      ReviewMode.multiple_choice refl hardest_of_custom (λ e. ground (arith, hardest_of_custom, e))
      (omega arith) refl (ground arith) (ground arith) (λ e. ground (arith, hardest_of_custom, e))
