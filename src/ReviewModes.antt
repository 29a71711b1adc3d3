-- ===== src/ReviewModes.antt =====
-- internal/service/pool_service.go, internal/service/word_set_service.go: the modes that a word set
-- enables, and how the scheduler's choice is fitted to them.
pub mod Fit
pub mod ListeningCap
pub mod Preferences
pub mod Streak
use wordbit_advanced.Prelude.{
  ℕ, zero, suc, ◌+◌, ◌-◌, Bool, true, false, not, ◌&&◌, ◌||◌, Option, none, some, List, [], ◌∷◌,
  ltb, leb, nat_beq, ◌==◌, if◌then◌else◌, Text, text_eq, codes, contains,
}
use wordbit_advanced.Float64.{Float64}
use wordbit_advanced.Domain.{
  Uuid, ReviewMode, UserWordState, Word, DailyLearningPoolItem, mode_eq, mode_code,
}
use wordbit_advanced.Normalization.{Unicode, trim_space}
use wordbit_advanced.Scheduling.Mode.{select_review_mode}

pub data GeneratedItemKind : Type 0 where
  single_word phrasal_verb collocation : GeneratedItemKind

abbrev pub is_single_word : GeneratedItemKind → Bool
is_single_word GeneratedItemKind.single_word = true
is_single_word _ = false

pub record ReviewModePreferences : Type 0 where
  pub enabled_modes : List ReviewMode
  pub is_custom_set : Bool

abbrev pub all_review_modes : List ReviewMode
all_review_modes =
    ReviewMode.reveal ∷ ReviewMode.multiple_choice ∷ ReviewMode.build_word ∷ ReviewMode.fill_blank
    ∷ ReviewMode.listening ∷ ReviewMode.definition_first ∷ []

abbrev pub default_review_mode_preferences : ReviewModePreferences
default_review_mode_preferences = record { enabled_modes = all_review_modes; is_custom_set = false }

-- `containsReviewMode`
abbrev pub contains_review_mode : List ReviewMode → ReviewMode → Bool
contains_review_mode modes target = contains modes target

-- `strings.HasPrefix` and `strings.Contains`
abbrev has_prefix : Text → Text → Bool
has_prefix s [] = true
has_prefix [] (p ∷ ps) = false
has_prefix (c ∷ s) (p ∷ ps) = nat_beq c p && has_prefix s ps

abbrev has_infix : Text → Text → Bool
has_infix [] p = has_prefix [] p
has_infix (c ∷ s) p = has_prefix (c ∷ s) p || has_infix s p

module _ (u : Unicode) where
  unfoldable pub classify_generated_item_kind : Text → Text → GeneratedItemKind
  classify_generated_item_kind value part_of_speech =
      let pos = u.to_lower (trim_space u part_of_speech) in
      let text = trim_space u value in
      if pos == codes "phrasal verb" || pos == codes "phrasal_verb"
      then GeneratedItemKind.phrasal_verb
      else (if pos == codes "collocation"
          then GeneratedItemKind.collocation
          else (if has_infix text (codes " ") || has_infix text (codes "-")
              then (if has_infix pos (codes "verb")
                  then GeneratedItemKind.phrasal_verb
                  else GeneratedItemKind.collocation)
              else GeneratedItemKind.single_word))

  unfoldable pub classify_word_kind : {F : Type 0} → Word F → GeneratedItemKind
  unfolding classify_generated_item_kind
  classify_word_kind w = classify_generated_item_kind w.word w.part_of_speech

  -- `compatible`: only a single word can be built from its letters.
  abbrev pub is_buildable : {F : Type 0} → Option (Word F) → Bool
  is_buildable none = true
  is_buildable (some w) = is_single_word (classify_word_kind w)

-- From here on `buildable` is the answer of `compatible` for build-the-word.
abbrev pub is_compatible : Bool → ReviewMode → Bool
is_compatible buildable mode = not (mode == ReviewMode.build_word) || buildable

abbrev pub is_available : Bool → List ReviewMode → ReviewMode → Bool
is_available buildable enabled mode =
    is_compatible buildable mode && contains_review_mode enabled mode

-- The index of a mode in `order`; the empty mode is not there and keeps the rank 0.
abbrev pub rank_of : ReviewMode → ℕ
rank_of mode = mode_code mode - 1

abbrev pub gap : ℕ → ℕ → ℕ
gap a b = if leb a b then b - a else a - b

-- The loop over `order`, with the best mode so far and its distance.
unfoldable pub nearest_from :
    Bool → List ReviewMode → ℕ → List ReviewMode → ReviewMode → ℕ → ReviewMode
nearest_from buildable enabled rank [] best distance = best
nearest_from buildable enabled rank (m ∷ order) best distance =
    let better = is_available buildable enabled m && ltb (gap rank (rank_of m)) distance in
    nearest_from buildable enabled rank order (if better then m else best)
      (if better then gap rank (rank_of m) else distance)

unfoldable pub select_enabled_review_mode : ReviewMode → List ReviewMode → Bool → ReviewMode
unfolding nearest_from
select_enabled_review_mode preferred [] buildable = ReviewMode.reveal
select_enabled_review_mode preferred (e ∷ enabled) buildable =
    if contains_review_mode (e ∷ enabled) preferred && is_compatible buildable preferred
    then preferred
    else nearest_from buildable (e ∷ enabled) (rank_of preferred) all_review_modes ReviewMode.reveal
        7

-- The search from the hardest mode down, without the first mode and without `skip`; `unset` is "".
unfoldable pub hardest_from : Bool → List ReviewMode → ReviewMode → List ReviewMode → ReviewMode
hardest_from buildable enabled skip [] = ReviewMode.unset
hardest_from buildable enabled skip (m ∷ order) =
    let rest = hardest_from buildable enabled skip order in
    if m == ReviewMode.reveal || m == skip || not (is_available buildable enabled m)
    then rest
    else m

abbrev pub hardest_first : List ReviewMode
hardest_first =
    ReviewMode.definition_first ∷ ReviewMode.listening ∷ ReviewMode.fill_blank
    ∷ ReviewMode.build_word ∷ ReviewMode.multiple_choice ∷ ReviewMode.reveal ∷ []

unfoldable pub hardest_enabled_non_reveal_mode : List ReviewMode → Bool → ReviewMode
unfolding hardest_from
hardest_enabled_non_reveal_mode enabled buildable =
    hardest_from buildable enabled ReviewMode.unset hardest_first

unfoldable pub hardest_alternative_mode : List ReviewMode → ReviewMode → Bool → ReviewMode
unfolding hardest_from
hardest_alternative_mode enabled hardest buildable =
    hardest_from buildable enabled hardest hardest_first

abbrev pub or_all : List ReviewMode → List ReviewMode
or_all [] = all_review_modes
or_all (m ∷ ms) = m ∷ ms

module _ {F : Type 0} ⦃fl : Float64 F⦄ where
  unfoldable pub select_configured_review_mode_for_preferences :
      UserWordState F → Bool → ReviewModePreferences → Bool → ReviewMode
  select_configured_review_mode_for_preferences st bias preferences buildable =
      let enabled = or_all preferences.enabled_modes in
      let hardest = hardest_enabled_non_reveal_mode enabled buildable in
      let alternative = hardest_alternative_mode enabled hardest buildable in
      let ordinary = select_enabled_review_mode (select_review_mode st bias) enabled buildable in
      if preferences.is_custom_set
        && not (hardest == ReviewMode.unset)
        && st.last_mode == hardest
        && leb 3 st.mode_streak_count
        && not (alternative == ReviewMode.unset)
      then alternative
      else ordinary

  unfoldable pub select_configured_review_mode :
      UserWordState F → Bool → List ReviewMode → Bool → ReviewMode
  unfolding select_configured_review_mode_for_preferences
  select_configured_review_mode st bias enabled buildable =
      select_configured_review_mode_for_preferences st bias
        (record { enabled_modes = enabled; is_custom_set = false }) buildable

-- `dailyListeningItemLimit`
abbrev pub daily_listening_item_limit : ℕ
daily_listening_item_limit = 2

abbrev pub is_listening_review : {F : Type 0} → DailyLearningPoolItem F → Bool
is_listening_review item = item.is_review && item.review_mode == ReviewMode.listening

-- `capListeningReviewItems`: the item list after the loop, with what is left of the limit.
-- `preferences` gives the modes that the word's set enables, and none where the map has no entry.
module _ {F : Type 0} (u : Unicode) (preferences : Uuid → List ReviewMode) where
  abbrev pub downgrade : DailyLearningPoolItem F → DailyLearningPoolItem F
  downgrade item = record item {
    review_mode =
        select_enabled_review_mode ReviewMode.fill_blank (or_all (preferences item.word_id))
          (is_buildable u item.word);
  }

  unfoldable pub cap_listening_review_items :
      List (DailyLearningPoolItem F) → ℕ → List (DailyLearningPoolItem F)
  cap_listening_review_items [] remaining = []
  cap_listening_review_items (item ∷ items) remaining =
      let rest =
        cap_listening_review_items items
          (if is_listening_review item then remaining - 1 else remaining) in
      if not (is_listening_review item)
      then item ∷ rest
      else if ltb 0 remaining
      then item ∷ rest
      else downgrade item ∷ rest

-- `normalizeEnabledReviewModes`: `none` is a validation error.
abbrev pub all_allowed : List ReviewMode → Bool
all_allowed [] = true
all_allowed (m ∷ ms) = contains all_review_modes m && all_allowed ms

abbrev pub keep_enabled : List ReviewMode → List ReviewMode → List ReviewMode
keep_enabled input [] = []
keep_enabled input (m ∷ order) =
    let rest = keep_enabled input order in if contains input m then m ∷ rest else rest

unfoldable pub normalize_enabled_review_modes : List ReviewMode → Option (List ReviewMode)
normalize_enabled_review_modes [] = none
normalize_enabled_review_modes (m ∷ ms) =
    if not (all_allowed (m ∷ ms))
    then none
    else (if not (contains (m ∷ ms) ReviewMode.reveal)
        then none
        else some (keep_enabled (m ∷ ms) all_review_modes))
