-- ===== src/Scheduling/Mode/Progress.antt =====
-- internal/service/logic.go: `SelectReviewMode` does not leave a learner on an exercise that fails.
use wordbit_advanced.Prelude.{◌≡◌, ◌≢◌, ◌⊎◌, Bool, true, false, arith, ◌==◌, if◌then◌else◌}
use wordbit_advanced.Float64.{Float64}
use wordbit_advanced.Domain.{ReviewMode, UserWordState, mode_eq}
use wordbit_advanced.Scheduling.Mode.{
  select_review_mode, staged_mode, transition_choice, standard_choice, transition_bias,
  standard_bias, maybe_force_build_word_mode, should_use_advanced_construction_mode,
  select_advanced_construction_mode, should_promote_stuck_reveal_to_multiple_choice,
  has_prolonged_mode12_struggle, is_mode12,
}
use wordbit_advanced.Scheduling.Mode.Range.{IsStaged, IsBasic}

module _ {F : Type 0} ⦃fl : Float64 F⦄ where
  maybe_force-ne-reveal :
      (st : UserWordState F) (m : ReviewMode)
      → should_promote_stuck_reveal_to_multiple_choice st ≡ true
      → maybe_force_build_word_mode st m ≢ ReviewMode.reveal
  unfolding maybe_force_build_word_mode
  maybe_force-ne-reveal st m h = ground arith

  advanced-ne-reveal :
      (st : UserWordState F) → select_advanced_construction_mode st ≢ ReviewMode.reveal
  unfolding select_advanced_construction_mode
  advanced-ne-reveal st = ground arith

  staged_mode-ne-reveal :
      (st : UserWordState F) (bias : Bool) (biased choice : ReviewMode)
      → should_promote_stuck_reveal_to_multiple_choice st ≡ true
      → staged_mode st bias biased choice ≢ ReviewMode.reveal
  unfolding staged_mode
  staged_mode-ne-reveal st bias biased choice h =
      let selected = if bias then biased else ReviewMode.unset in
      ground (
        arith,
        advanced-ne-reveal st,
        maybe_force-ne-reveal st (if selected == ReviewMode.unset then choice else selected) h,
      )

  -- A word in the third stage or in open review that is stuck on the hidden meaning is never shown
  -- with its meaning hidden again.
  select_review_mode-ne-reveal :
      (st : UserWordState F) (bias : Bool)
      → IsStaged st.learning_stage
      → should_promote_stuck_reveal_to_multiple_choice st ≡ true
      → select_review_mode st bias ≢ ReviewMode.reveal
  unfolding select_review_mode
  select_review_mode-ne-reveal st bias s h =
      let third =
        staged_mode-ne-reveal st bias (transition_bias st.last_memory_cause) (transition_choice st)
          h in
      let open_review =
        staged_mode-ne-reveal st bias (standard_bias st.last_memory_cause) (standard_choice st) h in
      ground arith

  maybe_force-eq-build_word :
      (st : UserWordState F) (m : ReviewMode)
      → IsBasic m
      → is_mode12 st.last_mode ≡ true
      → has_prolonged_mode12_struggle st ≡ true
      → should_promote_stuck_reveal_to_multiple_choice st ≡ false
      → maybe_force_build_word_mode st m ≡ ReviewMode.build_word
  unfolding maybe_force_build_word_mode
  maybe_force-eq-build_word st m b l p q = ground arith

  staged_mode-eq-build_word :
      (st : UserWordState F) (bias : Bool) (biased choice : ReviewMode)
      → (biased ≡ ReviewMode.unset) ⊎ IsBasic biased
      → IsBasic choice
      → should_use_advanced_construction_mode st bias ≡ false
      → is_mode12 st.last_mode ≡ true
      → has_prolonged_mode12_struggle st ≡ true
      → should_promote_stuck_reveal_to_multiple_choice st ≡ false
      → staged_mode st bias biased choice ≡ ReviewMode.build_word
  unfolding staged_mode
  staged_mode-eq-build_word st bias biased choice hb hc a l p q =
      let selected = if bias then biased else ReviewMode.unset in
      ground (
        arith,
        maybe_force-eq-build_word st (if selected == ReviewMode.unset then choice else selected),
      )

  transition_choice-IsBasic : (st : UserWordState F) → IsBasic (transition_choice st)
  unfolding transition_choice
  transition_choice-IsBasic st = ground arith

  standard_choice-IsBasic : (st : UserWordState F) → IsBasic (standard_choice st)
  unfolding standard_choice
  standard_choice-IsBasic st = ground arith

  -- A word in the third stage or in open review whose last exercise was hidden meaning or multiple
  -- choice, after a prolonged struggle with these, is practised by building the word, unless it
  -- qualifies for advanced construction or is to leave a stuck hidden meaning for multiple choice.
  select_review_mode-eq-build_word :
      (st : UserWordState F) (bias : Bool)
      → IsStaged st.learning_stage
      → is_mode12 st.last_mode ≡ true
      → has_prolonged_mode12_struggle st ≡ true
      → should_use_advanced_construction_mode st bias ≡ false
      → should_promote_stuck_reveal_to_multiple_choice st ≡ false
      → select_review_mode st bias ≡ ReviewMode.build_word
  unfolding select_review_mode
  select_review_mode-eq-build_word st bias s l p a q =
      let third =
        staged_mode-eq-build_word st bias (transition_bias st.last_memory_cause)
          (transition_choice st) (ground arith) (transition_choice-IsBasic st) a l p q in
      let open_review =
        staged_mode-eq-build_word st bias (standard_bias st.last_memory_cause) (standard_choice st)
          (ground arith) (standard_choice-IsBasic st) a l p q in
      ground arith
