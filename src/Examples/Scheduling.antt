-- ===== src/Examples/Scheduling.antt =====
-- The scheduler on sample words.
use wordbit_advanced.Prelude.{
  ℕ, ◌≡◌, ◌≢◌, ◌⊎◌, false, true, some, arith, ◌∷◌, [], pos, ◌≤ℤ◌, ltb_ℤ, refl, ℤ,
}
use wordbit_advanced.Domain.{ReviewMode, ReviewRating, WordStatus, add_seconds, rating_eq}
use wordbit_advanced.Scheduling.Outcome.{apply_review_outcome}
use wordbit_advanced.Scheduling.Outcome.Stages.{
  apply_review_outcome-climb, three_answers_graduate, climb, status_at, waits, answers,
}
use wordbit_advanced.Scheduling.Outcome.Bounds.{
  apply_review_outcome-open, apply_review_outcome-RatedRange, RatedRange,
}
use wordbit_advanced.Scheduling.Feedback.{
  apply_word_construction_feedback, word_construction_struggle_hint_threshold,
}
use wordbit_advanced.Scheduling.Feedback.Effect.{
  feedback_decides, is_solved_cleanly, IsStruggle, IsMastered,
}
use wordbit_advanced.Scheduling.Mode.{
  should_use_advanced_construction_mode, should_promote_stuck_reveal_to_multiple_choice,
  has_prolonged_mode12_struggle,
}
use wordbit_advanced.Examples.Fixed.{fixed}
use wordbit_advanced.Examples.Samples.{evening, new_word, open_word, stuck_word, failing_word}

apply_review_outcome-climb_example :
    let st' =
      apply_review_outcome new_word ReviewRating.easy ReviewMode.reveal evening (pos 2000) in
    (st'.learning_stage ≡ climb ReviewRating.easy new_word.learning_stage)
    × (st'.status ≡ status_at (climb ReviewRating.easy new_word.learning_stage))
    × (st'.interval_seconds ≡ pos (waits ReviewRating.easy new_word.learning_stage))
    × (st'.next_review_at
        ≡ some (add_seconds evening (pos (waits ReviewRating.easy new_word.learning_stage))))
apply_review_outcome-climb_example =
    apply_review_outcome-climb new_word ReviewRating.easy ReviewMode.reveal evening (pos 2000)
      (omega arith) (omega arith)

abbrev easy_answer : ReviewRating × ReviewMode × ℕ × ℤ
easy_answer = (ReviewRating.easy, ReviewMode.reveal, evening, pos 2000)

three_answers_graduate_example :
    let st' = answers new_word (easy_answer ∷ easy_answer ∷ easy_answer ∷ []) in
    (st'.learning_stage ≡ 0) × (st'.status ≡ WordStatus.review)
three_answers_graduate_example =
    three_answers_graduate new_word easy_answer easy_answer easy_answer refl (ground arith)
      (ground arith) (ground arith)

apply_review_outcome-open_example :
    let st' =
      apply_review_outcome open_word ReviewRating.hard ReviewMode.reveal evening (pos 2000) in
    (st'.learning_stage ≡ 0)
    × (st'.status ≡ WordStatus.review)
    × (st'.next_review_at ≡ some (add_seconds evening st'.interval_seconds))
    × ((ReviewRating.hard ≢ ReviewRating.hard) ⊎ (pos 14_400 ≤ℤ st'.interval_seconds))
apply_review_outcome-open_example =
    apply_review_outcome-open open_word ReviewRating.hard ReviewMode.reveal evening (pos 2000) refl

apply_review_outcome-RatedRange_example :
    RatedRange ReviewRating.easy
      (apply_review_outcome open_word ReviewRating.easy ReviewMode.reveal evening
        (pos 2000)).difficulty
apply_review_outcome-RatedRange_example =
    apply_review_outcome-RatedRange open_word ReviewRating.easy ReviewMode.reveal evening (pos 2000)

feedback_decides_example :
    let st' =
      apply_word_construction_feedback open_word ReviewMode.listening false
        (pos 3)
        (pos 3)
        (pos 1)
        (pos 2000)
        evening in
    let allowed = word_construction_struggle_hint_threshold fixed ReviewMode.listening (pos 3) in
    let clean = is_solved_cleanly false (ltb_ℤ allowed (pos 3)) (ltb_ℤ (pos 0) (pos 1)) in
    ((clean ≡ true) × (open_word.last_rating ≢ ReviewRating.hard) × IsMastered open_word st')
    ⊎ (((clean ≡ false) ⊎ (open_word.last_rating ≡ ReviewRating.hard))
        × IsStruggle evening open_word st')
feedback_decides_example =
    feedback_decides open_word ReviewMode.listening false (pos 3) (pos 3) (pos 1) (pos 2000) evening
      refl (ground arith) (ground arith)

stuck_word-stuck : should_promote_stuck_reveal_to_multiple_choice stuck_word ≡ true
unfolding should_promote_stuck_reveal_to_multiple_choice
stuck_word-stuck = refl

failing_word_tests :
    (has_prolonged_mode12_struggle failing_word ≡ true)
    × (should_use_advanced_construction_mode failing_word false ≡ false)
    × (should_promote_stuck_reveal_to_multiple_choice failing_word ≡ false)
unfolding should_promote_stuck_reveal_to_multiple_choice has_prolonged_mode12_struggle
    should_use_advanced_construction_mode
failing_word_tests = (refl, refl, refl)
