-- ===== src/ReviewModes/Streak.antt =====
-- internal/service/pool_service.go, `selectConfiguredReviewModeForPreferences`: the mode it gives, and
-- how a custom set leaves its hardest mode.
use wordbit_advanced.Prelude.{
  ◌≡◌, ◌≢◌, ◌⊎◌, Bool, true, false, not, ◌&&◌, ◌||◌, List, [], ◌∷◌, arith, leb, ◌==◌, if_elim,
  Bool-cases, inl, inr, contains, refl, subst, ◌∙◌, ◌≤◌,
}
use wordbit_advanced.Float64.{Float64}
use wordbit_advanced.Domain.{ReviewMode, UserWordState, mode_eq}
use wordbit_advanced.Scheduling.Mode.{select_review_mode}
use wordbit_advanced.ReviewModes.{
  ReviewModePreferences, hardest_from, hardest_first, hardest_enabled_non_reveal_mode,
  hardest_alternative_mode, select_configured_review_mode_for_preferences, is_available,
  contains_review_mode, or_all,
}
use wordbit_advanced.ReviewModes.Fit.{select_enabled_review_mode-IsFitted}

-- Nothing, or an enabled and possible mode other than the one to skip and reveal.
abbrev IsOther : Bool → List ReviewMode → ReviewMode → ReviewMode → Type 0
IsOther buildable enabled skip r =
    (r ≡ ReviewMode.unset)
    ⊎ ((is_available buildable enabled r ≡ true) × (r ≢ skip) × (r ≢ ReviewMode.reveal))

hardest_from-IsOther :
    (buildable : Bool) (enabled : List ReviewMode) (skip : ReviewMode) (order : List ReviewMode)
    → IsOther buildable enabled skip (hardest_from buildable enabled skip order)
unfolding hardest_from
hardest_from-IsOther buildable enabled skip [] = inl refl
hardest_from-IsOther buildable enabled skip (m ∷ order) =
    if_elim (IsOther buildable enabled skip)
      (m == ReviewMode.reveal || m == skip || not (is_available buildable enabled m))
      (λ passed. hardest_from-IsOther buildable enabled skip order)
      (λ taken. inr (ground arith, ground arith, ground arith))

mode_equal : (a b : ReviewMode) → a == b ≡ true → a ≡ b
mode_equal a b h = ground arith

mode_differs : (a b : ReviewMode) → a ≢ b → a == b ≡ false
mode_differs a b h = ground arith

mode_same : (a b : ReviewMode) → a ≡ b → a == b ≡ true
mode_same a b h = ground arith

in_order : (m : ReviewMode) → m ≢ ReviewMode.unset → contains hardest_first m ≡ true
in_order m h = ground arith

all_five :
    (a b c d e : Bool)
    → a ≡ true
    → b ≡ false
    → c ≡ true
    → d ≡ true
    → e ≡ false
    → a && not b && c && d && not e ≡ true
all_five a b c d e ha hb hc hd he = ground arith

passed_over : Bool → List ReviewMode → ReviewMode → ReviewMode → Bool
passed_over buildable enabled skip m =
    m == ReviewMode.reveal || m == skip || not (is_available buildable enabled m)

hardest_from-found :
    (buildable : Bool) (enabled : List ReviewMode) (skip m : ReviewMode) (order : List ReviewMode)
    → passed_over buildable enabled skip m ≡ false
    → contains order m ≡ true
    → contains order ReviewMode.unset ≡ false
    → hardest_from buildable enabled skip order ≢ ReviewMode.unset
unfolding hardest_from passed_over
hardest_from-found buildable enabled skip m [] passes there set = absurd (ground arith)
hardest_from-found buildable enabled skip m (x ∷ order) passes there set =
    if_elim (λ r. r ≢ ReviewMode.unset) (passed_over buildable enabled skip x)
      (λ passed. elim (Bool-cases (x == m)) [
        | inl same ↦ absurd (rest_absurd same passed)
        | inr other ↦
            hardest_from-found buildable enabled skip m order passes (ground arith) (ground arith)
      ])
      (λ taken. ground arith)
  where
    rest_absurd : x == m ≡ true → passed_over buildable enabled skip x ≡ true → ⊥
    rest_absurd same passed =
        let e =
          subst (λ y. passed_over buildable enabled skip y ≡ true) (mode_equal x m same) passed in
        ground (arith, e)

not_passed_over :
    (buildable : Bool) (enabled : List ReviewMode) (skip m : ReviewMode)
    → m == ReviewMode.reveal ≡ false
    → m == skip ≡ false
    → is_available buildable enabled m ≡ true
    → passed_over buildable enabled skip m ≡ false
unfolding passed_over
not_passed_over buildable enabled skip m r s a = rw r (rw s (rw a refl))

module _ {F : Type 0} ⦃fl : Float64 F⦄ where
  -- If the word's set enables reveal, the mode that a card gets is enabled and possible for the word.
  pub select_configured_review_mode_for_preferences-is_available :
      (st : UserWordState F) (bias : Bool) (preferences : ReviewModePreferences) (buildable : Bool)
      → contains_review_mode (or_all preferences.enabled_modes) ReviewMode.reveal ≡ true
      → is_available buildable
          (or_all preferences.enabled_modes)
          (select_configured_review_mode_for_preferences st bias preferences buildable)
        ≡ true
  unfolding select_configured_review_mode_for_preferences hardest_alternative_mode
  select_configured_review_mode_for_preferences-is_available st bias preferences buildable h =
      let enabled = or_all preferences.enabled_modes in
      let hardest = hardest_enabled_non_reveal_mode enabled buildable in
      let alternative = hardest_alternative_mode enabled hardest buildable in
      let (ok, preferred, near) =
        select_enabled_review_mode-IsFitted (select_review_mode st bias) enabled buildable h in
      let other = hardest_from-IsOther buildable enabled hardest hardest_first in
      if_elim (λ r. is_available buildable enabled r ≡ true)
        (preferences.is_custom_set
          && not (hardest == ReviewMode.unset)
          && st.last_mode == hardest
          && leb 3 st.mode_streak_count
          && not (alternative == ReviewMode.unset))
        (λ leave. ground (arith, other)) (λ stay. ok)

  -- A custom set that has just shown its hardest possible mode three times or more in a row leaves it,
  -- and not for reveal, if it has any other possible mode besides reveal.
  pub select_configured_review_mode_for_preferences-leaves :
      (st : UserWordState F) (bias : Bool) (preferences : ReviewModePreferences) (buildable : Bool)
      (m : ReviewMode)
      → preferences.is_custom_set ≡ true
      → let enabled = or_all preferences.enabled_modes in
        let hardest = hardest_enabled_non_reveal_mode enabled buildable in
        st.last_mode ≡ hardest
        → hardest ≢ ReviewMode.unset
        → 3 ≤ st.mode_streak_count
        → is_available buildable enabled m ≡ true
        → m ≢ ReviewMode.unset
        → m ≢ ReviewMode.reveal
        → m ≢ hardest
        → let r = select_configured_review_mode_for_preferences st bias preferences buildable in
          (r ≢ st.last_mode) × (r ≢ ReviewMode.reveal)
  unfolding select_configured_review_mode_for_preferences hardest_alternative_mode
  select_configured_review_mode_for_preferences-leaves st bias preferences buildable m custom last
        some_mode streak available m_set m_shown m_other =
      let enabled = or_all preferences.enabled_modes in
      let hardest = hardest_enabled_non_reveal_mode enabled buildable in
      let other = hardest_from-IsOther buildable enabled hardest hardest_first in
      let found =
        hardest_from-found buildable enabled hardest m hardest_first
          (not_passed_over buildable enabled hardest m (mode_differs m ReviewMode.reveal m_shown)
            (mode_differs m hardest m_other) available)
          (in_order m m_set) refl in
      let alternative = hardest_alternative_mode enabled hardest buildable in
      let leaves =
        all_five preferences.is_custom_set (hardest == ReviewMode.unset) (st.last_mode == hardest)
          (leb 3 st.mode_streak_count) (alternative == ReviewMode.unset) custom
          (mode_differs hardest ReviewMode.unset some_mode) (mode_same st.last_mode hardest last)
          (ground arith) (mode_differs alternative ReviewMode.unset found) in
      elim other [
        | inl nothing ↦ absurd (found nothing)
        | inr (ok, ne_hardest, ne_reveal) ↦ rw leaves ((λ e. ne_hardest (e ∙ last)), ne_reveal)
      ]
