-- ===== src/Scheduling/Outcome/Stages.antt =====
-- internal/service/logic.go: the consolidation ladder of a word, stages 1 to 3 and then open review
-- (stage 0), against its specification as a step function on stages.
use wordbit_advanced.Prelude.{ℕ, zero, suc, ◌≤◌, ◌<◌, ◌≡◌, ◌≢◌, some, arith, pos, List, [], ◌∷◌}
use wordbit_advanced.Float64.{Float64}
use wordbit_advanced.Prelude.{ℤ}
use wordbit_advanced.Domain.{
  Time, ReviewMode, ReviewRating, WordStatus, UserWordState, rating_eq, add_seconds,
}
use wordbit_advanced.Scheduling.Outcome.{
  next_consolidation_step, consolidate, record_answer, apply_review_outcome,
}

-- The ladder: a hard answer repeats the rung, any other climbs, and the third rung leads out of it.
abbrev pub climb : ReviewRating → ℕ → ℕ
climb ReviewRating.hard stage = stage
climb _ zero = 0
climb _ (suc zero) = 2
climb _ (suc (suc zero)) = 3
climb _ (suc (suc (suc _))) = 0

-- How long each rung waits, in seconds, by the rating.
abbrev pub waits : ReviewRating → ℕ → ℕ
waits ReviewRating.hard (suc zero) = 300
waits ReviewRating.hard (suc (suc zero)) = 28_800
waits ReviewRating.hard _ = 86_400
waits _ (suc zero) = 28_800
waits _ (suc (suc zero)) = 86_400
waits _ _ = 172_800

abbrev pub status_at : ℕ → WordStatus
status_at zero = WordStatus.review
status_at (suc _) = WordStatus.learning

next_consolidation_step-climb :
    (stage : ℕ) (rating : ReviewRating)
    → 0 < stage
    → stage ≤ 3
    → let s = next_consolidation_step stage rating in
      (s.next_stage ≡ climb rating stage)
      × (s.status ≡ status_at (climb rating stage))
      × (s.duration ≡ waits rating stage)
unfolding next_consolidation_step
next_consolidation_step-climb zero rating lo hi = absurd (omega arith)
next_consolidation_step-climb (suc zero) rating lo hi = ground arith
next_consolidation_step-climb (suc (suc zero)) rating lo hi = ground arith
next_consolidation_step-climb (suc (suc (suc zero))) rating lo hi = ground arith
next_consolidation_step-climb (suc (suc (suc (suc n)))) rating lo hi = absurd (omega arith)

-- A rating, the mode, the time and the response time; it passes unless it is hard.
abbrev IsPassed : ReviewRating × ReviewMode × Time × ℤ → Type 0
IsPassed (rating, mode, now, ms) = rating ≢ ReviewRating.hard

module _ {F : Type 0} ⦃fl : Float64 F⦄ where
  -- For a word on one of the three rungs, `ApplyReviewOutcome` moves the stage as the ladder says, sets
  -- the status that belongs to the new stage, and schedules the next review after the rung's wait.
  pub apply_review_outcome-climb :
      (st : UserWordState F) (rating : ReviewRating) (mode : ReviewMode) (now : Time) (ms : ℤ)
      → 0 < st.learning_stage
      → st.learning_stage ≤ 3
      → let st' = apply_review_outcome st rating mode now ms in
        (st'.learning_stage ≡ climb rating st.learning_stage)
        × (st'.status ≡ status_at (climb rating st.learning_stage))
        × (st'.interval_seconds ≡ pos (waits rating st.learning_stage))
        × (st'.next_review_at ≡ some (add_seconds now (pos (waits rating st.learning_stage))))
  unfolding apply_review_outcome record_answer consolidate
  apply_review_outcome-climb st rating mode now ms lo hi =
      ground (arith, next_consolidation_step-climb st.learning_stage rating lo hi)

  -- Answers that are applied one after the other.
  pub answers : UserWordState F → List (ReviewRating × ReviewMode × Time × ℤ) → UserWordState F
  answers st [] = st
  answers st ((rating, mode, now, ms) ∷ rest) =
      answers (apply_review_outcome st rating mode now ms) rest

  -- A word just met, in the first stage, is in open review after any three answers that are not hard.
  pub three_answers_graduate :
      (st : UserWordState F) (a b c : ReviewRating × ReviewMode × Time × ℤ)
      → st.learning_stage ≡ 1
      → IsPassed a
      → IsPassed b
      → IsPassed c
      → let st' = answers st (a ∷ b ∷ c ∷ []) in
        (st'.learning_stage ≡ 0) × (st'.status ≡ WordStatus.review)
  unfolding answers
  three_answers_graduate st (ra, ma, na, ta) (rb, mb, nb, tb) (rc, mc, nc, tc) h pa pb pc =
      let st1 = apply_review_outcome st ra ma na ta in
      let st2 = apply_review_outcome st1 rb mb nb tb in
      let one = apply_review_outcome-climb st ra ma na ta (omega arith) (omega arith) in
      let e1 : st1.learning_stage ≡ 2 = ground (arith, one) in
      let two = apply_review_outcome-climb st1 rb mb nb tb (omega arith) (omega arith) in
      let e2 : st2.learning_stage ≡ 3 = ground (arith, two) in
      let three = apply_review_outcome-climb st2 rc mc nc tc (omega arith) (omega arith) in
      ground (arith, three)
