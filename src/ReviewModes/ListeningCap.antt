-- ===== src/ReviewModes/ListeningCap.antt =====
-- internal/service/pool_service.go, `capListeningReviewItems`: how many listening reviews it leaves.
use wordbit_advanced.Prelude.{
  ℕ, ◌-◌, ◌≤◌, ◌≡◌, Bool, true, false, List, [], ◌∷◌, arith, ltb, ltb→lt, All, count_if, Bool-cases,
  inl, inr, refl, ap, ◌∙◌,
}
use wordbit_advanced.Domain.{Uuid, ReviewMode, DailyLearningPoolItem, mode_eq}
use wordbit_advanced.Normalization.{Unicode}
use wordbit_advanced.ReviewModes.{
  select_enabled_review_mode, nearest_from, is_available, is_buildable, contains_review_mode,
  cap_listening_review_items, is_listening_review, downgrade, or_all,
}

select_enabled_review_mode-fill_blank :
    (enabled : List ReviewMode) (buildable : Bool)
    → contains_review_mode enabled ReviewMode.fill_blank ≡ true
    → select_enabled_review_mode ReviewMode.fill_blank enabled buildable ≡ ReviewMode.fill_blank
unfolding select_enabled_review_mode
select_enabled_review_mode-fill_blank [] buildable h = cc
select_enabled_review_mode-fill_blank (e ∷ es) buildable h = rw h refl

select_enabled_review_mode-listening :
    (enabled : List ReviewMode) (buildable : Bool)
    → contains_review_mode enabled ReviewMode.fill_blank ≡ false
    → contains_review_mode enabled ReviewMode.listening ≡ true
    → is_available buildable enabled ReviewMode.build_word ≡ false
    → select_enabled_review_mode ReviewMode.fill_blank enabled buildable ≡ ReviewMode.listening
unfolding select_enabled_review_mode nearest_from
select_enabled_review_mode-listening [] buildable missing heard away = cc
select_enabled_review_mode-listening (e ∷ es) buildable missing heard away =
    ground (arith, missing, heard, away)

module _ {F : Type 0} (u : Unicode) (preferences : Uuid → List ReviewMode) where
  -- The word's set lets fill-in-the-blank take the place of listening.
  abbrev pub HasFillBlank : DailyLearningPoolItem F → Type 0
  HasFillBlank item =
      contains_review_mode (or_all (preferences item.word_id)) ReviewMode.fill_blank ≡ true

  -- The word's set has listening, and neither of its two neighbours for this word.
  abbrev pub HasOnlyListening : DailyLearningPoolItem F → Type 0
  HasOnlyListening item =
      let enabled = or_all (preferences item.word_id) in
      (contains_review_mode enabled ReviewMode.fill_blank ≡ false)
      × (contains_review_mode enabled ReviewMode.listening ≡ true)
      × (is_available (is_buildable u item.word) enabled ReviewMode.build_word ≡ false)

  downgrade-not_listening :
      (item : DailyLearningPoolItem F)
      → HasFillBlank item
      → is_listening_review (downgrade u preferences item) ≡ false
  downgrade-not_listening item has =
      rw
        (select_enabled_review_mode-fill_blank (or_all (preferences item.word_id))
          (is_buildable u item.word) has)
        (ground arith)

  -- Where every word's set enables fill-in-the-blank, at most `limit` listening reviews are left.
  pub cap_listening_review_items-limit :
      (items : List (DailyLearningPoolItem F)) (limit : ℕ)
      → All HasFillBlank items
      → count_if is_listening_review (cap_listening_review_items u preferences items limit) ≤ limit
  unfolding cap_listening_review_items
  cap_listening_review_items-limit [] limit h = omega arith
  cap_listening_review_items-limit (item ∷ items) limit (has, rest) =
      let next = cap_listening_review_items-limit items (limit - 1) rest in
      let same = cap_listening_review_items-limit items limit rest in
      let down = downgrade-not_listening item has in
      elim (Bool-cases (is_listening_review item)) [
        | inl l ↦ elim (Bool-cases (ltb 0 limit)) [
          | inl p ↦ rw l rw p rw l (let lt = ltb→lt 0 limit p in omega arith)
          | inr p ↦ rw l rw p rw down (omega arith)
        ]
        | inr l ↦ rw l rw l (omega arith)
      ]

  downgrade-same :
      (item : DailyLearningPoolItem F)
      → HasOnlyListening item
      → is_listening_review item ≡ true
      → downgrade u preferences item ≡ item
  downgrade-same item (missing, heard, away) l =
      let enabled = or_all (preferences item.word_id) in
      let same : ReviewMode.listening ≡ item.review_mode = ground arith in
      ap (λ m. record item { review_mode = m })
        (select_enabled_review_mode-listening enabled (is_buildable u item.word) missing heard away
          ∙ same)

  -- Where a word's set has listening without its neighbours, the limit is not kept: if that is so of
  -- all the items, the list comes out as it went in, however many listening reviews it holds.
  pub cap_listening_review_items-unchanged :
      (items : List (DailyLearningPoolItem F)) (limit : ℕ)
      → All HasOnlyListening items
      → cap_listening_review_items u preferences items limit ≡ items
  unfolding cap_listening_review_items
  cap_listening_review_items-unchanged [] limit h = refl
  cap_listening_review_items-unchanged (item ∷ items) limit (h, rest) =
      let same = cap_listening_review_items-unchanged items limit rest in
      let next = cap_listening_review_items-unchanged items (limit - 1) rest in
      elim (Bool-cases (is_listening_review item)) [
        | inl l ↦ elim (Bool-cases (ltb 0 limit)) [
          | inl p ↦ rw l rw p rw next refl
          | inr p ↦ rw l rw p rw next (ap (λ x. x ∷ items) (downgrade-same item h l))
        ]
        | inr l ↦ rw l rw same refl
      ]
