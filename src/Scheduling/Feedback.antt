-- ===== src/Scheduling/Feedback.antt =====
-- internal/service/logic.go: what a word-construction exercise (build the word, fill the blank,
-- listen) shows beyond its rating.
pub mod Effect
use wordbit_advanced.Prelude.{
  ℕ, ◌+◌, ◌*◌, Bool, true, false, not, ◌&&◌, ◌||◌, Option, none, some, ◌==◌, if◌then◌else◌, ℤ, pos,
  ltb_ℤ, leb_ℤ, ◌-ℤ◌, max_int, min_int,
}
use wordbit_advanced.Float64.{Float64, max_float, min_float}
use wordbit_advanced.Domain.{
  Time, is_zero, add_seconds, ReviewMode, ReviewRating, WordStatus, MemoryCause, UserWordState,
  mode_eq, rating_eq, status_eq, cause_eq,
}
use wordbit_advanced.Scheduling.Weakness.{compute_weakness_score}

abbrev pub is_nil {ℓ} : {A : Type ℓ} → Option A → Bool
is_nil none = true
is_nil (some _) = false

abbrev pub is_word_construction_mode : ReviewMode → Bool
is_word_construction_mode mode =
    mode == ReviewMode.build_word || mode == ReviewMode.fill_blank || mode == ReviewMode.listening

module _ {F : Type 0} where
  unfoldable pub word_construction_struggle_hint_threshold : Float64 F → ReviewMode → ℤ → ℤ
  word_construction_struggle_hint_threshold fl mode hint_limit =
      if mode == ReviewMode.listening && ltb_ℤ (pos 0) hint_limit
      then fl.to_int (fl.round (fl.div (fl.of_int hint_limit) (fl.dec 20 1)))
      else pos 2

module _ {F : Type 0} ⦃fl : Float64 F⦄ where
  abbrev shorten_factor : UserWordState F → ℤ → ℤ → ℤ → Bool → F
  shorten_factor st hints threshold wrong correct =
      if not correct || st.last_rating == ReviewRating.hard
      then fl.dec 45 2
      else (if ltb_ℤ (pos 0) wrong
          then fl.dec 55 2
          else if ltb_ℤ threshold hints
          then fl.dec 60 2
          else fl.dec 70 2)

  unfoldable pub shorten_review_after_construction_struggle :
      UserWordState F → Time → ℤ → ℤ → ℤ → Bool → UserWordState F
  shorten_review_after_construction_struggle st now hints threshold wrong correct =
      if is_zero now
        || not (st.status == WordStatus.review)
        || is_nil st.next_review_at
        || leb_ℤ st.interval_seconds (pos 0)
      then st
      else (let seconds = max_int (pos 14_400) (
            fl.to_int (
              fl.mul (fl.of_int st.interval_seconds)
                (shorten_factor st hints threshold wrong correct))) in
          if leb_ℤ st.interval_seconds seconds then st else record st {
            interval_seconds = seconds;
            next_review_at = some (add_seconds now seconds);
            stability = max_float (fl.mul st.stability (fl.dec 9 1)) (fl.dec 5 1);
          })

  -- The record of a struggle, before the next review is moved.
  unfoldable pub record_struggle : UserWordState F → ℤ → ℤ → ℤ → Bool → ℤ → UserWordState F
  record_struggle st hints threshold wrong correct response_time_ms =
      let st1 : UserWordState F = record st {
        word_construction_success_streak = 0;
        word_construction_struggle_count = st.word_construction_struggle_count + 1;
        spelling_issue_count =
            if st.last_memory_cause == MemoryCause.spelling_issue
            then st.spelling_issue_count
            else st.spelling_issue_count + 1;
        last_memory_cause = MemoryCause.spelling_issue;
        last_response_time_ms = response_time_ms;
        last_answer_correct = some correct;
      } in
      let attempts = fl.of_int (min_int wrong (pos 3)) in
      let difficulty_boost = fl.add (fl.dec 4 2) (fl.mul attempts (fl.dec 2 2)) in
      let extra_hints = fl.of_int (max_int (hints -ℤ threshold) (pos 0)) in
      let weakness_boost =
        fl.add (fl.add (fl.dec 25 2) (fl.mul extra_hints (fl.dec 8 2)))
          (fl.mul attempts (fl.dec 10 2)) in
      let st2 : UserWordState F = record st1 {
        difficulty = min_float (fl.add st1.difficulty difficulty_boost) (fl.dec 95 2);
      } in
      record st2 {
        weakness_score =
            max_float (compute_weakness_score st2) (fl.add st2.weakness_score weakness_boost);
      }

  unfoldable pub is_clean_success : UserWordState F → Bool → Bool → Bool → Bool
  is_clean_success st correct heavy_hint_use wrong_attempts =
      correct
      && not heavy_hint_use
      && not wrong_attempts
      && (st.last_rating == ReviewRating.easy || st.last_rating == ReviewRating.medium)

  unfoldable pub has_struggled : UserWordState F → Bool → Bool → Bool → Bool
  has_struggled st correct heavy_hint_use wrong_attempts =
      not correct || st.last_rating == ReviewRating.hard || heavy_hint_use || wrong_attempts

  unfoldable pub apply_word_construction_feedback :
      UserWordState F → ReviewMode → Bool → ℤ → ℤ → ℤ → ℤ → Time → UserWordState F
  apply_word_construction_feedback st mode correct hints hint_limit wrong response_time_ms now =
      if not (is_word_construction_mode mode)
      then st
      else (let threshold = word_construction_struggle_hint_threshold fl mode hint_limit in
          let heavy_hint_use = ltb_ℤ threshold hints in
          let wrong_attempts = ltb_ℤ (pos 0) wrong in
          if is_clean_success st correct heavy_hint_use wrong_attempts
          then record st {
            word_construction_success_streak = st.word_construction_success_streak + 1;
          }
          else (if not (has_struggled st correct heavy_hint_use wrong_attempts)
              then st
              else shorten_review_after_construction_struggle
                  (record_struggle st hints threshold wrong correct response_time_ms) now hints
                  threshold wrong correct))

  unfoldable pub apply_word_construction_struggle :
      UserWordState F → ReviewMode → Bool → ℤ → ℤ → UserWordState F
  unfolding apply_word_construction_feedback
  apply_word_construction_struggle st mode correct hints response_time_ms =
      apply_word_construction_feedback st mode correct hints (pos 3) (pos 0) response_time_ms 0
