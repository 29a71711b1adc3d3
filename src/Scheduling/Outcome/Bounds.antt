-- ===== src/Scheduling/Outcome/Bounds.antt =====
-- internal/service/logic.go: the range of the difficulty and of the interval after an answer.
use wordbit_advanced.Prelude.{
  ◌≡◌, ◌≢◌, ◌⊎◌, true, some, arith, ℤ, pos, ◌≤ℤ◌, Bool-cases, inl, inr, ltb,
}
use wordbit_advanced.Float64.{Float64, min_float}
use wordbit_advanced.Domain.{
  Time, add_seconds, ReviewMode, ReviewRating, WordStatus, UserWordState, rating_eq,
}
use wordbit_advanced.Scheduling.Outcome.{
  consolidate, reschedule, record_answer, apply_review_outcome, clamp_difficulty,
}

module _ {F : Type 0} ⦃fl : Float64 F⦄ where
  -- At one of the two bounds, or strictly on its inner side by a comparison that holds: not NaN.
  abbrev AtMost : F → F → Type 0
  AtMost x hi = (fl.lt x hi ≡ true) ⊎ (x ≡ hi)

  abbrev AtLeast : F → F → Type 0
  AtLeast lo x = (fl.lt lo x ≡ true) ⊎ (x ≡ lo)

  abbrev InRange : F → F → F → Type 0
  InRange lo hi x = AtMost x hi × (AtLeast lo x ⊎ (x ≡ hi))

  min_float-AtMost : (x hi : F) → AtMost (min_float x hi) hi
  min_float-AtMost x hi = ground arith

  clamp_difficulty-InRange : (x : F) → InRange (fl.dec 1 1) (fl.dec 95 2) (clamp_difficulty x)
  clamp_difficulty-InRange x = ground arith

  -- The range that each rating leaves the difficulty in; without one of the three it may be any value.
  abbrev pub RatedRange : ReviewRating → F → Type 0
  RatedRange ReviewRating.easy d = InRange (fl.dec 1 1) (fl.dec 95 2) d
  RatedRange ReviewRating.medium d = InRange (fl.dec 1 1) (fl.dec 95 2) d
  RatedRange ReviewRating.hard d = AtMost d (fl.dec 95 2)
  RatedRange _ d = Unit

  consolidate-RatedRange :
      (st : UserWordState F) (rating : ReviewRating) (now : Time)
      → RatedRange rating (consolidate st rating now).difficulty
  unfolding consolidate
  consolidate-RatedRange st rating now = ground arith

  reschedule-RatedRange :
      (old st : UserWordState F) (rating : ReviewRating) (now : Time)
      → RatedRange rating (reschedule old st rating now).difficulty
  unfolding reschedule
  reschedule-RatedRange old st rating now = ground arith

  -- Whatever the difficulty was before, NaN included, after an easy or medium answer it lies from 0.1 to
  -- 0.95, and after a hard one it is at most 0.95, in every stage.
  pub apply_review_outcome-RatedRange :
      (st : UserWordState F) (rating : ReviewRating) (mode : ReviewMode) (now : Time) (ms : ℤ)
      → RatedRange rating (apply_review_outcome st rating mode now ms).difficulty
  unfolding apply_review_outcome
  apply_review_outcome-RatedRange st rating mode now ms =
      let st1 = record_answer st rating mode now ms in
      elim (Bool-cases (ltb 0 st1.learning_stage)) [
        | inl e ↦ rw e (consolidate-RatedRange st1 rating now)
        | inr e ↦ rw e (reschedule-RatedRange st st1 rating now)
      ]

  -- A word in open review goes on in open review, its due time is its new interval after now, and a hard
  -- answer does not bring it back before four hours have passed.
  pub apply_review_outcome-open :
      (st : UserWordState F) (rating : ReviewRating) (mode : ReviewMode) (now : Time) (ms : ℤ)
      → st.learning_stage ≡ 0
      → let st' = apply_review_outcome st rating mode now ms in
        (st'.learning_stage ≡ 0)
        × (st'.status ≡ WordStatus.review)
        × (st'.next_review_at ≡ some (add_seconds now st'.interval_seconds))
        × ((rating ≢ ReviewRating.hard) ⊎ (pos 14_400 ≤ℤ st'.interval_seconds))
  unfolding apply_review_outcome record_answer reschedule
  apply_review_outcome-open st rating mode now ms h = ground arith
