-- ===== src/Scheduling/Mode.antt =====
-- internal/service/logic.go: `SelectReviewMode` and the choices that it is made of.
pub mod Range
pub mod Progress
use wordbit_advanced.Prelude.{
  ℕ, ◌+◌, ◌-◌, ◌/◌, ◌%◌, ◌*◌, Bool, true, false, not, ◌&&◌, ◌||◌, Option, none, some, ltb, leb,
  ◌==◌, nat_eq, if◌then◌else◌,
}
use wordbit_advanced.Float64.{Float64}
use wordbit_advanced.Domain.{
  Time, hour, unix_seconds, byte_at, ReviewMode, ReviewRating, MemoryCause, UserWordState, mode_eq,
  rating_eq,
}

-- `state.LastAnswerCorrect != nil && !*state.LastAnswerCorrect`
abbrev pub answered_wrong : Option Bool → Bool
answered_wrong none = false
answered_wrong (some b) = not b

-- The three switches on `state.LastMemoryCause`; `unset` is "no mode selected yet".
abbrev pub cause_blocks_construction : MemoryCause → Bool
cause_blocks_construction MemoryCause.forgot_meaning = true
cause_blocks_construction MemoryCause.mixed_up_word = true
cause_blocks_construction _ = false

abbrev pub transition_bias : MemoryCause → ReviewMode
transition_bias MemoryCause.spelling_issue = ReviewMode.build_word
transition_bias MemoryCause.mixed_up_word = ReviewMode.multiple_choice
transition_bias _ = ReviewMode.unset

abbrev pub standard_bias : MemoryCause → ReviewMode
standard_bias MemoryCause.forgot_meaning = ReviewMode.reveal
standard_bias MemoryCause.mixed_up_word = ReviewMode.multiple_choice
standard_bias MemoryCause.spelling_issue = ReviewMode.build_word
standard_bias _ = ReviewMode.unset

-- `LastSeenAt.Sub(*FirstSeenAt)`, which the code only compares with two days.
abbrev pub seen_for : Option Time → Option Time → Option ℕ
seen_for (some first) (some last) = some (last - first)
seen_for _ _ = none

abbrev pub at_least : ℕ → Option ℕ → Bool
at_least n none = false
at_least n (some d) = leb n d

-- `int(state.LastSeenAt.Unix() / 60)`
abbrev minutes_seen : Option Time → ℕ
minutes_seen none = 0
minutes_seen (some t) = unix_seconds t / 60

abbrev pub is_mode12 : ReviewMode → Bool
is_mode12 m = m == ReviewMode.reveal || m == ReviewMode.multiple_choice

module _ {F : Type 0} ⦃fl : Float64 F⦄ where
  unfoldable pub should_use_advanced_construction_mode : UserWordState F → Bool → Bool
  should_use_advanced_construction_mode st bias =
      if ltb st.word_construction_success_streak 1
      then false
      else (if fl.le (fl.dec 90 2) st.difficulty || fl.le (fl.dec 250 2) st.weakness_score
          then false
          else (if answered_wrong st.last_answer_correct
              then false
              else not (bias && cause_blocks_construction st.last_memory_cause)))

  -- The four bytes of the word's identifier that seed the two pseudo-random choices.
  abbrev id_seed : UserWordState F → ℕ
  id_seed st =
      byte_at st.word_id 0 + byte_at st.word_id 5 + byte_at st.word_id 10 + byte_at st.word_id 15

  unfoldable pub select_advanced_construction_mode : UserWordState F → ReviewMode
  select_advanced_construction_mode st =
      let seed =
        id_seed st
        + st.review_count
        + st.word_construction_success_streak
        + st.word_construction_struggle_count in
      let seed' = if st.last_mode == ReviewMode.fill_blank then seed + 1 else seed in
      if seed' % 4 == 0 then ReviewMode.listening else ReviewMode.fill_blank

  unfoldable pub select_word_construction_mode : UserWordState F → ReviewMode
  select_word_construction_mode st =
      let seed =
        id_seed st
        + st.review_count
        + st.wrong_count
        + st.hint_used_count
        + st.spelling_issue_count
        + minutes_seen st.last_seen_at in
      let seed' = if st.last_mode == ReviewMode.build_word then seed + 1 else seed in
      if seed' % 2 == 0 then ReviewMode.fill_blank else ReviewMode.build_word

  unfoldable pub enter_word_construction_mode : UserWordState F → ReviewMode
  enter_word_construction_mode st = ReviewMode.build_word

  unfoldable pub alternating_mode2_reveal : UserWordState F → ReviewMode
  alternating_mode2_reveal st =
      if st.last_mode == ReviewMode.multiple_choice
      then ReviewMode.reveal
      else ReviewMode.multiple_choice

  unfoldable pub should_promote_stuck_reveal_to_multiple_choice : UserWordState F → Bool
  should_promote_stuck_reveal_to_multiple_choice st =
      if not (st.last_mode == ReviewMode.reveal)
      then false
      else (if ltb st.review_count 3 || ltb st.hard_count 2
          then false
          else st.last_rating == ReviewRating.hard
            || leb 2 st.wrong_count
            || leb 2 st.reveal_meaning_count
            || leb 2 st.meaning_forget_count)

  unfoldable pub has_prolonged_mode12_struggle : UserWordState F → Bool
  has_prolonged_mode12_struggle st =
      if ltb st.review_count 4 || ltb st.hard_count 2
      then false
      else (if not (at_least (48 * hour) (seen_for st.first_seen_at st.last_seen_at))
          then false
          else leb 2 st.wrong_count
            || leb 3 st.reveal_meaning_count
            || leb 2 st.meaning_forget_count
            || leb 2 st.confusable_mixup_count
            || leb 2 st.slow_recall_count
            || st.last_rating == ReviewRating.hard)

  unfoldable pub maybe_force_build_word_mode : UserWordState F → ReviewMode → ReviewMode
  maybe_force_build_word_mode st selected =
      if selected == ReviewMode.reveal && should_promote_stuck_reveal_to_multiple_choice st
      then ReviewMode.multiple_choice
      else (if not (is_mode12 selected)
          then selected
          else (if not (is_mode12 st.last_mode)
              then selected
              else if has_prolonged_mode12_struggle st
              then ReviewMode.build_word
              else selected))

  -- What the third stage selects where the memory cause selects nothing.
  unfoldable pub transition_choice : UserWordState F → ReviewMode
  unfolding alternating_mode2_reveal enter_word_construction_mode
  transition_choice st =
      if fl.le (fl.dec 60 2) st.difficulty
        || fl.le (fl.dec 105 2) st.weakness_score
        || st.last_rating == ReviewRating.hard
      then alternating_mode2_reveal st
      else enter_word_construction_mode st

  -- What the open review stage selects there.
  unfoldable pub standard_choice : UserWordState F → ReviewMode
  unfolding alternating_mode2_reveal enter_word_construction_mode
  standard_choice st =
      if st.last_mode == ReviewMode.reveal
        && st.last_rating == ReviewRating.hard
        && leb 2 st.hard_count
      then ReviewMode.multiple_choice
      else (if leb 3 st.wrong_count || leb 4 st.reveal_meaning_count
          then ReviewMode.multiple_choice
          else (if fl.le (fl.dec 78 2) st.difficulty || fl.le (fl.dec 175 2) st.weakness_score
              then alternating_mode2_reveal st
              else enter_word_construction_mode st))

  -- One `case` of the switch: the advanced exercise, or the cause's mode, or the choice above.
  unfoldable pub staged_mode : UserWordState F → Bool → ReviewMode → ReviewMode → ReviewMode
  staged_mode st bias biased choice =
      if should_use_advanced_construction_mode st bias
      then select_advanced_construction_mode st
      else (let selected = if bias then biased else ReviewMode.unset in
          maybe_force_build_word_mode st
            (if selected == ReviewMode.unset then choice else selected))

  unfoldable pub select_review_mode : UserWordState F → Bool → ReviewMode
  select_review_mode st bias =
      if st.learning_stage == 1 || st.learning_stage == 2
      then ReviewMode.reveal
      else (if st.learning_stage == 3
          then staged_mode st bias (transition_bias st.last_memory_cause) (transition_choice st)
          else (if ltb 0 st.learning_stage
              then ReviewMode.reveal
              else staged_mode st bias (standard_bias st.last_memory_cause) (standard_choice st)))
