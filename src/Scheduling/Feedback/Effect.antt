-- ===== src/Scheduling/Feedback/Effect.antt =====
-- internal/service/logic.go: what the feedback of a construction exercise may change, and how.
use wordbit_advanced.Prelude.{
  ◌+◌, ◌≡◌, ◌≢◌, ◌⊎◌, Bool, true, false, not, ◌&&◌, some, arith, ℤ, pos, ◌≤ℤ◌, ltb_ℤ, inl, inr,
  refl,
}
use wordbit_advanced.Float64.{Float64}
use wordbit_advanced.Domain.{
  Time, add_seconds, ReviewMode, ReviewRating, MemoryCause, UserWordState,
}
use wordbit_advanced.Scheduling.Feedback.{
  is_word_construction_mode, word_construction_struggle_hint_threshold, is_clean_success,
  has_struggled, record_struggle, shorten_review_after_construction_struggle,
  apply_word_construction_feedback,
}

-- The review was left where it was, or moved to an earlier time of at least four hours after now.
abbrev pub IsShortened : {F : Type 0} → Time → UserWordState F → UserWordState F → Type 0
IsShortened now st st' =
    ((st'.interval_seconds ≡ st.interval_seconds) × (st'.next_review_at ≡ st.next_review_at))
    ⊎ ((pos 14_400 ≤ℤ st'.interval_seconds)
        × (ltb_ℤ st'.interval_seconds st.interval_seconds ≡ true)
        × (st'.next_review_at ≡ some (add_seconds now st'.interval_seconds)))

-- The exercise was solved, without heavy use of hints and without a wrong attempt.
abbrev pub is_solved_cleanly : Bool → Bool → Bool → Bool
is_solved_cleanly correct heavy attempts = correct && not heavy && not attempts

module _ {F : Type 0} ⦃fl : Float64 F⦄ where
  shorten-IsShortened :
      (st : UserWordState F) (now : Time) (hints threshold wrong : ℤ) (correct : Bool)
      → let st' = shorten_review_after_construction_struggle st now hints threshold wrong correct in
        IsShortened now st st'
        × (st'.status ≡ st.status)
        × (st'.word_construction_success_streak ≡ st.word_construction_success_streak)
        × (st'.word_construction_struggle_count ≡ st.word_construction_struggle_count)
        × (st'.last_memory_cause ≡ st.last_memory_cause)
  unfolding shorten_review_after_construction_struggle
  shorten-IsShortened st now hints threshold wrong correct = ground arith

  record_struggle_fields :
      (st : UserWordState F) (hints threshold wrong : ℤ) (correct : Bool) (ms : ℤ)
      → let st' = record_struggle st hints threshold wrong correct ms in
        (st'.interval_seconds ≡ st.interval_seconds)
        × (st'.next_review_at ≡ st.next_review_at)
        × (st'.status ≡ st.status)
        × (st'.word_construction_success_streak ≡ 0)
        × (st'.word_construction_struggle_count ≡ st.word_construction_struggle_count + 1)
        × (st'.last_memory_cause ≡ MemoryCause.spelling_issue)
  unfolding record_struggle
  record_struggle_fields st hints threshold wrong correct ms = ground arith

  -- A mastered exercise: one more on the streak, the schedule and the struggle count as they were.
  abbrev pub IsMastered : UserWordState F → UserWordState F → Type 0
  IsMastered st st' =
      st' ≡ record st { word_construction_success_streak = st.word_construction_success_streak + 1 }

  -- A struggle: the streak starts anew, the struggle is counted as a spelling issue, and the next review
  -- is not later than it was.
  abbrev pub IsStruggle : Time → UserWordState F → UserWordState F → Type 0
  IsStruggle now st st' =
      (st'.word_construction_success_streak ≡ 0)
      × (st'.word_construction_struggle_count ≡ st.word_construction_struggle_count + 1)
      × (st'.last_memory_cause ≡ MemoryCause.spelling_issue)
      × (st'.status ≡ st.status)
      × IsShortened now st st'

  clean_or_struggled :
      (st : UserWordState F) (correct heavy attempts : Bool)
      → st.last_rating ≢ ReviewRating.unset
      → st.last_rating ≢ ReviewRating.unrated
      → let clean = is_solved_cleanly correct heavy attempts in
        ((clean ≡ true)
          × (st.last_rating ≢ ReviewRating.hard)
          × (is_clean_success st correct heavy attempts ≡ true))
        ⊎ (((clean ≡ false) ⊎ (st.last_rating ≡ ReviewRating.hard))
            × (is_clean_success st correct heavy attempts ≡ false)
            × (has_struggled st correct heavy attempts ≡ true))
  unfolding is_clean_success has_struggled
  clean_or_struggled st correct heavy attempts r1 r2 = ground arith

  record_struggle-IsStruggle :
      (st : UserWordState F) (now : Time) (hints threshold wrong : ℤ) (correct : Bool) (ms : ℤ)
      → IsStruggle now st (
          shorten_review_after_construction_struggle
            (record_struggle st hints threshold wrong correct ms)
            now
            hints
            threshold
            wrong
            correct)
  record_struggle-IsStruggle st now hints threshold wrong correct ms =
      let st1 = record_struggle st hints threshold wrong correct ms in
      ground (
        arith,
        record_struggle_fields st hints threshold wrong correct ms,
        shorten-IsShortened st1 now hints threshold wrong correct,
      )

  -- After a construction exercise that was rated easy, medium or hard, the feedback is mastery exactly
  -- when it was solved correctly, with no wrong attempt, with no more hints than the mode allows, and
  -- not rated hard, and a struggle in every other case; no such answer goes without feedback.
  pub feedback_decides :
      (st : UserWordState F) (mode : ReviewMode) (correct : Bool) (hints hint_limit wrong ms : ℤ)
      → (now : Time) → is_word_construction_mode mode ≡ true
      → st.last_rating ≢ ReviewRating.unset
      → st.last_rating ≢ ReviewRating.unrated
      → let st' = apply_word_construction_feedback st mode correct hints hint_limit wrong ms now in
        let allowed = word_construction_struggle_hint_threshold fl mode hint_limit in
        let clean = is_solved_cleanly correct (ltb_ℤ allowed hints) (ltb_ℤ (pos 0) wrong) in
        ((clean ≡ true) × (st.last_rating ≢ ReviewRating.hard) × IsMastered st st')
        ⊎ (((clean ≡ false) ⊎ (st.last_rating ≡ ReviewRating.hard)) × IsStruggle now st st')
  unfolding apply_word_construction_feedback
  feedback_decides st mode correct hints hint_limit wrong ms now m r1 r2 =
      let allowed = word_construction_struggle_hint_threshold fl mode hint_limit in
      elim (clean_or_struggled st correct (ltb_ℤ allowed hints) (ltb_ℤ (pos 0) wrong) r1 r2) [
        | inl (c, r, e) ↦ rw m (rw e (inl (c, r, refl)))
        | inr (c, e, e') ↦ rw m (
            rw e
              (rw e' (inr (c, record_struggle-IsStruggle st now hints allowed wrong correct ms))))
      ]

  -- Any other exercise gives no feedback.
  pub feedback_of_other_mode :
      (st : UserWordState F) (mode : ReviewMode) (correct : Bool) (hints hint_limit wrong ms : ℤ)
      (now : Time)
      → is_word_construction_mode mode ≡ false
      → apply_word_construction_feedback st mode correct hints hint_limit wrong ms now ≡ st
  unfolding apply_word_construction_feedback
  feedback_of_other_mode st mode correct hints hint_limit wrong ms now m = rw m
