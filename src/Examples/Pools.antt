-- ===== src/Examples/Pools.antt =====
-- The items of a new pool on sample states.
use wordbit_advanced.Prelude.{true, false, List, [], ◌∷◌, All, ℤ, refl}
use wordbit_advanced.Domain.{Uuid, ReviewMode, Word, UserWordState}
use wordbit_advanced.ReviewModes.{ReviewModePreferences}
use wordbit_advanced.Pool.{pool_items}
use wordbit_advanced.Pool.Playable.{pool_items-IsPlayable, IsPlayable}
use wordbit_advanced.Examples.Fixed.{fixed}
use wordbit_advanced.Examples.Samples.{open_word, ascii, brisk, failing_word, stuck_word}

-- Every word's set has reveal and listening only.
abbrev pub heard_set : Uuid → ReviewModePreferences
heard_set word_id = record {
  enabled_modes = ReviewMode.reveal ∷ ReviewMode.listening ∷ [];
  is_custom_set = true;
}

abbrev pub always_brisk : Uuid → Word ℤ
always_brisk word_id = brisk

abbrev open_words : List (UserWordState ℤ)
open_words = open_word ∷ stuck_word ∷ []

pool_items-IsPlayable_example : All (IsPlayable ascii heard_set) (
    pool_items ascii always_brisk heard_set 1 false open_words open_words
      (failing_word ∷ [])
      (brisk ∷ []))
pool_items-IsPlayable_example =
    pool_items-IsPlayable ascii always_brisk heard_set 1 false open_words open_words
      (failing_word ∷ []) (brisk ∷ []) (λ id. refl)
