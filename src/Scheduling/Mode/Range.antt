-- ===== src/Scheduling/Mode/Range.antt =====
-- internal/service/logic.go: which modes `SelectReviewMode` can choose, and when.
use wordbit_advanced.Prelude.{ℕ, ◌≡◌, ◌⊎◌, Bool, true, false, arith, ◌==◌, if◌then◌else◌}
use wordbit_advanced.Float64.{Float64}
use wordbit_advanced.Domain.{ReviewMode, UserWordState, mode_eq}
use wordbit_advanced.Scheduling.Mode.{
  select_review_mode, staged_mode, transition_choice, standard_choice, transition_bias,
  standard_bias, maybe_force_build_word_mode, should_use_advanced_construction_mode,
  select_advanced_construction_mode,
}

abbrev pub IsAdvanced : ReviewMode → Type 0
IsAdvanced m = (m ≡ ReviewMode.fill_blank) ⊎ (m ≡ ReviewMode.listening)

abbrev pub IsBasic : ReviewMode → Type 0
IsBasic m = (m ≡ ReviewMode.reveal) ⊎ (m ≡ ReviewMode.multiple_choice) ⊎ (m ≡ ReviewMode.build_word)

-- The stages in which the state's history decides: the third, and open review.
abbrev pub IsStaged : ℕ → Type 0
IsStaged stage = (stage ≡ 0) ⊎ (stage ≡ 3)

-- A bias selects nothing or a basic mode.
abbrev IsBias : ReviewMode → Type 0
IsBias m = (m ≡ ReviewMode.unset) ⊎ IsBasic m

abbrev pick : Bool → ReviewMode → ReviewMode → ReviewMode
pick bias biased choice =
    let selected = if bias then biased else ReviewMode.unset in
    if selected == ReviewMode.unset then choice else selected

module _ {F : Type 0} ⦃fl : Float64 F⦄ where
  select_advanced_construction_mode-IsAdvanced :
      (st : UserWordState F) → IsAdvanced (select_advanced_construction_mode st)
  unfolding select_advanced_construction_mode
  select_advanced_construction_mode-IsAdvanced st = ground arith

  transition_choice-IsBasic : (st : UserWordState F) → IsBasic (transition_choice st)
  unfolding transition_choice
  transition_choice-IsBasic st = ground arith

  standard_choice-IsBasic : (st : UserWordState F) → IsBasic (standard_choice st)
  unfolding standard_choice
  standard_choice-IsBasic st = ground arith

  maybe_force-IsBasic :
      (st : UserWordState F) (m : ReviewMode)
      → IsBasic m
      → IsBasic (maybe_force_build_word_mode st m)
  unfolding maybe_force_build_word_mode
  maybe_force-IsBasic st m h = ground arith

  pick-IsBasic :
      (bias : Bool) (biased choice : ReviewMode)
      → IsBias biased
      → IsBasic choice
      → (st : UserWordState F) → IsBasic (pick bias biased choice)
  pick-IsBasic bias biased choice hb hc st = ground arith

  abbrev pub IsStagedChoice : UserWordState F → Bool → ReviewMode → Type 0
  IsStagedChoice st bias m =
      ((should_use_advanced_construction_mode st bias ≡ true) × IsAdvanced m)
      ⊎ ((should_use_advanced_construction_mode st bias ≡ false) × IsBasic m)

  staged_mode-IsStagedChoice :
      (st : UserWordState F) (bias : Bool) (biased choice : ReviewMode)
      → IsBias biased
      → IsBasic choice
      → IsStagedChoice st bias (staged_mode st bias biased choice)
  unfolding staged_mode
  staged_mode-IsStagedChoice st bias biased choice hb hc = ground (
    arith,
    select_advanced_construction_mode-IsAdvanced st,
    maybe_force-IsBasic st (pick bias biased choice) (pick-IsBasic bias biased choice hb hc st),
  )

  transition_bias-IsBias : (st : UserWordState F) → IsBias (transition_bias st.last_memory_cause)
  transition_bias-IsBias st = ground arith

  standard_bias-IsBias : (st : UserWordState F) → IsBias (standard_bias st.last_memory_cause)
  standard_bias-IsBias st = ground arith

  -- In the first, second and any later consolidation stage the mode is the hidden meaning; in the
  -- third stage and in open review it is fill-in-the-blank or listening when the word qualifies for
  -- advanced construction, and reveal, multiple choice or build-the-word when it does not. The mode is
  -- never unset and never definition-first.
  select_review_mode_cases :
      (st : UserWordState F) (bias : Bool)
      → ((¬ IsStaged st.learning_stage) × (select_review_mode st bias ≡ ReviewMode.reveal))
        ⊎ (IsStaged st.learning_stage × IsStagedChoice st bias (select_review_mode st bias))
  unfolding select_review_mode
  select_review_mode_cases st bias =
      let third =
        staged_mode-IsStagedChoice st bias (transition_bias st.last_memory_cause)
          (transition_choice st) (transition_bias-IsBias st) (transition_choice-IsBasic st) in
      let open_review =
        staged_mode-IsStagedChoice st bias (standard_bias st.last_memory_cause) (standard_choice st)
          (standard_bias-IsBias st) (standard_choice-IsBasic st) in
      ground arith
