-- ===== src/Scheduling/Outcome/Counters.antt =====
-- internal/service/logic.go: the counters of a word agree with one another.
use wordbit_advanced.Prelude.{ℕ, ◌+◌, ◌≤◌, ◌≡◌, some, arith, ℤ}
use wordbit_advanced.Float64.{Float64}
use wordbit_advanced.Domain.{Time, ReviewMode, ReviewRating, UserWordState, rating_eq}
use wordbit_advanced.Scheduling.Outcome.{
  consolidate, reschedule, record_answer, apply_review_outcome, apply_first_exposure_unknown,
  apply_first_exposure_known, apply_bonus_practice_outcome, next_streak,
}

-- How many of the three real ratings an answer is.
abbrev pub rated : ReviewRating → ℕ
rated ReviewRating.easy = 1
rated ReviewRating.medium = 1
rated ReviewRating.hard = 1
rated _ = 0

abbrev pub failed : ReviewRating → ℕ
failed ReviewRating.hard = 1
failed _ = 0

module _ {F : Type 0} ⦃fl : Float64 F⦄ where
  abbrev pub ratings_of : UserWordState F → ℕ
  ratings_of st = st.easy_count + st.medium_count + st.hard_count

  -- No word has more rated answers than answers, or more hard ratings than wrong answers.
  pub record CountersAgree (st : UserWordState F) : Type 0 where
    pub ratings_le : ratings_of st ≤ st.review_count
    pub hard_le : st.hard_count ≤ st.wrong_count

  -- An answer is counted once: the reviews by one, exactly the counter of its rating by one, the wrong
  -- answers by one if it is hard, in every stage; the mode's streak goes on or starts anew.
  apply_review_outcome-counts :
      (st : UserWordState F) (rating : ReviewRating) (mode : ReviewMode) (now : Time) (ms : ℤ)
      → let st' = apply_review_outcome st rating mode now ms in
        (st'.review_count ≡ st.review_count + 1)
        × (ratings_of st' ≡ ratings_of st + rated rating)
        × (st'.hard_count ≡ st.hard_count + failed rating)
        × (st'.wrong_count ≡ st.wrong_count + failed rating)
        × (st'.last_rating ≡ rating)
        × (st'.last_mode ≡ mode)
        × (st'.last_seen_at ≡ some now)
        × (st'.mode_streak_count ≡ next_streak mode st.last_mode st.mode_streak_count)
  unfolding apply_review_outcome record_answer consolidate reschedule
  apply_review_outcome-counts st rating mode now ms = ground arith

  -- An answer keeps the counters in agreement: no more rated answers than answers, and no more hard
  -- ratings than wrong answers.
  pub apply_review_outcome-CountersAgree :
      (st : UserWordState F) (rating : ReviewRating) (mode : ReviewMode) (now : Time) (ms : ℤ)
      → CountersAgree st
      → CountersAgree (apply_review_outcome st rating mode now ms)
  apply_review_outcome-CountersAgree st rating mode now ms c =
      ground (arith, apply_review_outcome-counts st rating mode now ms)

  pub exposure_unknown-CountersAgree :
      (st : UserWordState F) (now : Time) (ms : ℤ)
      → CountersAgree st
      → CountersAgree (apply_first_exposure_unknown st now ms)
  unfolding apply_first_exposure_unknown
  exposure_unknown-CountersAgree st now ms c = ground arith

  pub exposure_known-CountersAgree :
      (st : UserWordState F) (now : Time) (ms : ℤ)
      → CountersAgree st
      → CountersAgree (apply_first_exposure_known st now ms)
  unfolding apply_first_exposure_known
  exposure_known-CountersAgree st now ms c = ground arith

  pub bonus-CountersAgree :
      (st : UserWordState F) (rating : ReviewRating) (mode : ReviewMode) (now : Time) (ms : ℤ)
      → CountersAgree st
      → CountersAgree (apply_bonus_practice_outcome st rating mode now ms)
  unfolding apply_bonus_practice_outcome
  bonus-CountersAgree st rating mode now ms c = ground arith

  -- A bonus answer leaves alone everything that schedules the word: its stage, status, interval and
  -- due time, the difficulty and stability, and the counters of its reviews.
  pub bonus_keeps_schedule :
      (st : UserWordState F) (rating : ReviewRating) (mode : ReviewMode) (now : Time) (ms : ℤ)
      → let st' = apply_bonus_practice_outcome st rating mode now ms in
        (st'.learning_stage ≡ st.learning_stage)
        × (st'.status ≡ st.status)
        × (st'.interval_seconds ≡ st.interval_seconds)
        × (st'.next_review_at ≡ st.next_review_at)
        × (st'.difficulty ≡ st.difficulty)
        × (st'.stability ≡ st.stability)
        × (st'.review_count ≡ st.review_count)
        × (ratings_of st' ≡ ratings_of st)
        × (st'.wrong_count ≡ st.wrong_count + failed rating)
  unfolding apply_bonus_practice_outcome
  bonus_keeps_schedule st rating mode now ms = ground arith
