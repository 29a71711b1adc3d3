-- ===== src/Pool/Playable.antt =====
-- internal/service/pool_service.go: the modes of the items of a day's pool.
use wordbit_advanced.Prelude.{
  ℕ, ◌≡◌, Bool, true, List, [], ◌∷◌, ◌-◌, not, ltb, if◌then◌else◌, if_elim, All, refl, sym, subst,
  some, ◌++◌, ◌+◌,
}
use wordbit_advanced.Float64.{Float64}
use wordbit_advanced.Domain.{
  nil_uuid, Uuid, ReviewMode, PoolItemType, Word, UserWordState, DailyLearningPoolItem, mode_eq,
}
use wordbit_advanced.Normalization.{Unicode}
use wordbit_advanced.ReviewModes.{
  ReviewModePreferences, is_available, is_buildable, contains_review_mode, or_all,
  cap_listening_review_items, is_listening_review,
}
use wordbit_advanced.ReviewModes.Fit.{select_enabled_review_mode-IsFitted}
use wordbit_advanced.ReviewModes.Streak.{select_configured_review_mode_for_preferences-is_available}
use wordbit_advanced.Pool.{
  build_new_items, number_from, assign_ordinals, pool_items, build_review_items,
  preferences_or_default, built_review_item,
}

abbrev pub modes_of : (Uuid → ReviewModePreferences) → Uuid → List ReviewMode
modes_of preferences id = (preferences id).enabled_modes

or_all-default :
    (p : ReviewModePreferences) (modes : List ReviewMode)
    → p.enabled_modes ≡ modes
    → or_all (preferences_or_default p modes).enabled_modes ≡ or_all modes
or_all-default p [] e = refl
or_all-default p (m ∷ ms) e = rw e refl

module _ {F : Type 0} (u : Unicode) (preferences : Uuid → ReviewModePreferences) where
  -- The mode of the item is enabled in its word's set and possible for its word.
  abbrev pub IsPlayable : DailyLearningPoolItem F → Type 0
  IsPlayable item =
      is_available (is_buildable u item.word) (or_all (modes_of preferences item.word_id))
        item.review_mode
      ≡ true

  cap-All :
      (items : List (DailyLearningPoolItem F)) (limit : ℕ)
      → ((id : Uuid)
          → contains_review_mode (or_all (modes_of preferences id)) ReviewMode.reveal ≡ true)
      → All IsPlayable items
      → All IsPlayable (cap_listening_review_items u (modes_of preferences) items limit)
  unfolding cap_listening_review_items
  cap-All [] limit h all = tt
  cap-All (item ∷ items) limit h (playable, rest) =
      let next = cap-All items (if is_listening_review item then limit - 1 else limit) h rest in
      let (ok, preferred, near) =
        select_enabled_review_mode-IsFitted ReviewMode.fill_blank
          (or_all (modes_of preferences item.word_id)) (is_buildable u item.word)
          (h item.word_id) in
      if_elim (All IsPlayable) (not (is_listening_review item)) (λ other. (playable, next))
        (λ heard.
          if_elim (All IsPlayable) (ltb 0 limit) (λ kept. (playable, next)) (λ lowered. (ok, next)))

module _ {F : Type 0} ⦃fl : Float64 F⦄ (u : Unicode) (words : Uuid → Word F)
    (preferences : Uuid → ReviewModePreferences) (user_id pool_id : Uuid)
    (item_type : PoolItemType) where
  configured-is_available :
      (inference : Bool) (st : UserWordState F)
      → contains_review_mode (or_all (modes_of preferences st.word_id)) ReviewMode.reveal ≡ true
      → is_available
          (is_buildable u (some (words st.word_id)))
          (or_all (modes_of preferences st.word_id))
          (built_review_item u words preferences user_id pool_id item_type inference st).review_mode
        ≡ true
  configured-is_available inference st h =
      let p = preferences st.word_id in
      let d = or_all-default p p.enabled_modes refl in
      subst
        (λ ms.
          is_available (is_buildable u (some (words st.word_id))) ms
            (built_review_item u words preferences user_id pool_id item_type inference
              st).review_mode
          ≡ true)
        d
        (select_configured_review_mode_for_preferences-is_available st inference
          (preferences_or_default p p.enabled_modes) (is_buildable u (some (words st.word_id)))
          (subst (λ ms. contains_review_mode ms ReviewMode.reveal ≡ true) (sym d) h))

  build-All :
      (states : List (UserWordState F)) (inference : Bool)
      → ((id : Uuid)
          → contains_review_mode (or_all (modes_of preferences id)) ReviewMode.reveal ≡ true)
      → All
          (IsPlayable u preferences)
          (build_review_items u words preferences user_id pool_id states item_type inference)
  unfolding build_review_items
  build-All [] inference h = tt
  build-All (st ∷ states) inference h =
      (configured-is_available inference st (h st.word_id), build-All states inference h)

module _ {F : Type 0} (u : Unicode) (preferences : Uuid → ReviewModePreferences) where
  All-append :
      (xs ys : List (DailyLearningPoolItem F))
      → All (IsPlayable u preferences) xs
      → All (IsPlayable u preferences) ys
      → All (IsPlayable u preferences) (xs ++ ys)
  All-append [] ys all rest = rest
  All-append (x ∷ xs) ys (p, all) rest = (p, All-append xs ys all rest)

  number-All :
      (i : ℕ) (items : List (DailyLearningPoolItem F))
      → All (IsPlayable u preferences) items
      → All (IsPlayable u preferences) (number_from i items)
  number-All i [] all = tt
  number-All i (item ∷ items) (p, all) = (p, number-All (i + 1) items all)

  new-All :
      (user_id pool_id : Uuid) (new_words : List (Word F))
      → ((id : Uuid)
          → contains_review_mode (or_all (modes_of preferences id)) ReviewMode.reveal ≡ true)
      → All (IsPlayable u preferences) (build_new_items user_id pool_id new_words)
  unfolding build_new_items
  new-All user_id pool_id [] h = tt
  new-All user_id pool_id (w ∷ ws) h = (h w.id, new-All user_id pool_id ws h)

module _ {F : Type 0} ⦃fl : Float64 F⦄ (u : Unicode) (words : Uuid → Word F)
    (preferences : Uuid → ReviewModePreferences) where
  -- Every item that a new pool of the day is created with has a mode that its word's set enables and that is possible
  -- for its word, the items that the listening cap changes and the new words included, when every set that lists
  -- modes lists reveal.
  pub pool_items-IsPlayable :
      (user_id : Uuid) (inference : Bool)
      (short_term_states review_states weak_states : List (UserWordState F))
      (new_words : List (Word F))
      → ((id : Uuid)
          → contains_review_mode (or_all (modes_of preferences id)) ReviewMode.reveal ≡ true)
      → All (IsPlayable u preferences) (
          pool_items u words preferences user_id inference short_term_states review_states
            weak_states new_words)
  unfolding pool_items assign_ordinals
  pool_items-IsPlayable user_id inference short_term_states review_states weak_states new_words h =
      let build = λ (states : List (UserWordState F)) (item_type : PoolItemType).
        build_review_items u words preferences user_id nil_uuid states item_type inference in
      let built = λ (states : List (UserWordState F)) (item_type : PoolItemType).
        build-All u words preferences user_id nil_uuid item_type states inference h in
      let st = build short_term_states PoolItemType.short_term in
      let rv = build review_states PoolItemType.review in
      let wk = build weak_states PoolItemType.weak in
      let items = (st ++ rv) ++ wk in
      let capped = cap_listening_review_items u (modes_of preferences) items 2 in
      number-All u preferences 0 (capped ++ build_new_items user_id nil_uuid new_words) (
        All-append u preferences capped (build_new_items user_id nil_uuid new_words)
          (cap-All u preferences items 2 h (
            All-append u preferences (st ++ rv) wk
              (All-append u preferences st rv (built short_term_states PoolItemType.short_term)
                (built review_states PoolItemType.review))
              (built weak_states PoolItemType.weak)))
          (new-All u preferences user_id nil_uuid new_words h))
