-- ===== src/Pool/Sync/Idempotent.antt =====
-- syncPendingPoolItems: a second run finds nothing to change.
use wordbit_advanced.Prelude.{
  ℕ, ◌≡◌, refl, sym, ap, subst, ◌∙◌, arith, Bool, true, Option, none, some, List, [], ◌∷◌, String,
  string_eq, ◌==◌, if◌then◌else◌, if_elim, Bool-cases, inl, inr, ℤ, pos, ltb_ℤ, ◌-ℤ◌, count_if,
  nat_eq,
}
use wordbit_advanced.Float64.{Float64}
use wordbit_advanced.Domain.{
  Uuid, ReviewMode, Json, JsonMap, UserWordState, DailyLearningPoolItem, mode_eq,
}
use wordbit_advanced.Normalization.{Unicode}
use wordbit_advanced.ReviewModes.{
  ReviewModePreferences, daily_listening_item_limit, is_buildable, select_enabled_review_mode,
}
use wordbit_advanced.Generation.Select.{put_field}
use wordbit_advanced.Pool.Sync.{
  synced_item, within_budget, has_changed, sync_with, sync_item, sync_from, is_heard,
  sync_pending_pool_items, awaits_review,
}

put_field_twice :
    {F : Type 0} (key : String) (value : Json F) (m : JsonMap F)
    → put_field key value (put_field key value m) ≡ put_field key value m
put_field_twice key value [] = rw ((string_eq.equals_iff key key).1 refl) refl
put_field_twice key value ((k, v) ∷ rest) = elim (Bool-cases (k == key)) [
  | inl same ↦ rw same (rw ((string_eq.equals_iff key key).1 refl) refl)
  | inr other ↦ rw other (rw other (ap (λ r. (k, v) ∷ r) (put_field_twice key value rest)))
]

module _ {F : Type 0} ⦃fl : Float64 F⦄ (u : Unicode) (inference : Bool) where
  abbrev with_mode : DailyLearningPoolItem F → ReviewMode → DailyLearningPoolItem F
  with_mode item m = record item { review_mode = m }

  budget_mode :
      (budget : ℤ) (p : ReviewModePreferences) (s : DailyLearningPoolItem F)
      → (m : ReviewMode) × ((within_budget u inference budget p s).0 ≡ with_mode s m)
  budget_mode budget p s =
      let P = λ (x : DailyLearningPoolItem F × ℤ). (m : ReviewMode) × (x.0 ≡ with_mode s m) in
      if_elim P (s.review_mode == ReviewMode.listening)
        (λ _.
          if_elim P (ltb_ℤ (pos 0) budget) (λ _. (s.review_mode, refl))
            (λ _. (
              select_enabled_review_mode ReviewMode.fill_blank p.enabled_modes
                  (is_buildable u s.word),
              refl,
            )))
        (λ _. (s.review_mode, refl))

  synced_again :
      (item : DailyLearningPoolItem F) (st : UserWordState F) (p : ReviewModePreferences)
      (m : ReviewMode)
      → synced_item u inference (with_mode (synced_item u inference item st p) m) st p
        ≡ synced_item u inference item st p
  unfolding synced_item
  synced_again item st p m =
      ap
        (λ (metadata : JsonMap F). record (synced_item u inference item st p) {
          metadata = metadata;
        })
        (put_field_twice "weakness_score" (Json.float st.weakness_score) item.metadata)

  module _ (states : Uuid → Option (UserWordState F))
      (preferences : Uuid → ReviewModePreferences) where
    abbrev step :
        ℤ → DailyLearningPoolItem F → Option (UserWordState F) → DailyLearningPoolItem F × ℤ
    step budget item o = sync_with u inference states preferences budget item o

    abbrev chosen : ℤ → UserWordState F → DailyLearningPoolItem F → DailyLearningPoolItem F × ℤ
    chosen budget st item =
        within_budget u inference budget (preferences item.word_id)
          (synced_item u inference item st (preferences item.word_id))

    chosen_again :
        (budget : ℤ) (st : UserWordState F) (item : DailyLearningPoolItem F)
        → chosen budget st (chosen budget st item).0 ≡ chosen budget st item
    unfolding synced_item
    chosen_again budget st item =
        let p = preferences item.word_id in
        let s = synced_item u inference item st p in
        let (m, e) = budget_mode budget p s in
        subst (λ x. chosen budget st x ≡ chosen budget st item) (sym e)
          (ap (within_budget u inference budget p) (synced_again item st p m))

    step-chosen :
        (budget : ℤ) (st : UserWordState F) (item : DailyLearningPoolItem F)
        → step budget (chosen budget st item).0 (some st) ≡ chosen budget st item
    step-chosen budget st item =
        let x = chosen budget st item in
        subst
          (λ (y : DailyLearningPoolItem F × ℤ).
            ((if has_changed u inference y.0 x.0 st then y.0 else x.0), y.1) ≡ x)
          (sym (chosen_again budget st item))
          (if_elim (λ (z : DailyLearningPoolItem F). (z, x.1) ≡ x)
            (has_changed u inference x.0 x.0 st) (λ _. refl) (λ _. refl))

    step_twice :
        (budget : ℤ) (item : DailyLearningPoolItem F) (o : Option (UserWordState F))
        → step budget (step budget item o).0 o ≡ step budget item o
    step_twice budget item none = refl
    step_twice budget item (some st) =
        let x = chosen budget st item in
        elim (Bool-cases (has_changed u inference x.0 item st)) [
          | inl changed ↦
              (let e : step budget item (some st) ≡ x = rw changed refl in
                subst (λ (r : DailyLearningPoolItem F × ℤ). step budget r.0 (some st) ≡ r) (sym e)
                  (step-chosen budget st item))
          | inr same ↦
              (let e : step budget item (some st) ≡ (item, x.1) = rw same refl in
                subst (λ (r : DailyLearningPoolItem F × ℤ). step budget r.0 (some st) ≡ r) (sym e)
                  e)
        ]

    -- What a round leaves of an item: all that says whether it is to be done, and for which word.
    abbrev Keeps : DailyLearningPoolItem F → DailyLearningPoolItem F → Type 0
    Keeps item x =
        (x.status ≡ item.status)
        × (x.is_review ≡ item.is_review)
        × (x.first_exposure_required ≡ item.first_exposure_required)
        × (x.word_id ≡ item.word_id)

    chosen-Keeps :
        (budget : ℤ) (st : UserWordState F) (item : DailyLearningPoolItem F)
        → Keeps item (chosen budget st item).0
    unfolding synced_item
    chosen-Keeps budget st item =
        let p = preferences item.word_id in
        let (m, e) = budget_mode budget p (synced_item u inference item st p) in
        subst (Keeps item) (sym e) (refl, refl, refl, refl)

    step-Keeps :
        (budget : ℤ) (item : DailyLearningPoolItem F) (o : Option (UserWordState F))
        → Keeps item (step budget item o).0
    step-Keeps budget item none = (refl, refl, refl, refl)
    step-Keeps budget item (some st) =
        if_elim (Keeps item) (has_changed u inference (chosen budget st item).0 item st)
          (λ _. chosen-Keeps budget st item) (λ _. (refl, refl, refl, refl))

    abbrev sync : ℤ → DailyLearningPoolItem F → DailyLearningPoolItem F × ℤ
    sync budget item = sync_item u inference states preferences budget item

    due_again :
        (budget : ℤ) (item x : DailyLearningPoolItem F)
        → awaits_review item ≡ true
        → Keeps item x
        → sync budget x ≡ step budget x (states item.word_id)
    unfolding sync_item
    due_again budget item x due (a, b, c, d) =
        let same : awaits_review x ≡ true = rw (a, b, c) due in
        rw same (ap (λ id. step budget x (states id)) d)

    sync_item_twice :
        (budget : ℤ) (item : DailyLearningPoolItem F)
        → sync budget (sync budget item).0 ≡ sync budget item
    unfolding sync_item
    sync_item_twice budget item = elim (Bool-cases (awaits_review item)) [
      | inl due ↦
          (let o = states item.word_id in
            let e : sync budget item ≡ step budget item o = rw due refl in
            subst (λ (r : DailyLearningPoolItem F × ℤ). sync budget r.0 ≡ r) (sym e)
              (due_again budget item (step budget item o).0 due (step-Keeps budget item o)
                ∙ step_twice budget item o))
      | inr idle ↦
          (let e : sync budget item ≡ (item, budget) = rw idle refl in
            subst (λ (r : DailyLearningPoolItem F × ℤ). sync budget r.0 ≡ r) (sym e) e)
    ]

    sync_from_twice :
        (budget : ℤ) (items : List (DailyLearningPoolItem F))
        → sync_from u inference states preferences budget
            (sync_from u inference states preferences budget items)
          ≡ sync_from u inference states preferences budget items
    unfolding sync_from
    sync_from_twice budget [] = refl
    sync_from_twice budget (item ∷ items) =
        let again = sync_item_twice budget item in
        rw again (ap (λ l. (sync budget item).0 ∷ l) (sync_from_twice (sync budget item).1 items))

    sync_item-heard :
        (budget : ℤ) (item : DailyLearningPoolItem F)
        → is_heard u inference states preferences (sync budget item).0
          ≡ is_heard u inference states preferences item
    unfolding sync_item
    sync_item-heard budget item = elim (Bool-cases (awaits_review item)) [
      | inl due ↦
          (let (a, b, c, d) = step-Keeps budget item (states item.word_id) in
            rw due (ground (arith, a, due)))
      | inr idle ↦ rw idle refl
    ]

    sync_from-heard :
        (budget : ℤ) (items : List (DailyLearningPoolItem F))
        → count_if
            (is_heard u inference states preferences)
            (sync_from u inference states preferences budget items)
          ≡ count_if (is_heard u inference states preferences) items
    unfolding sync_from
    sync_from-heard budget [] = refl
    sync_from-heard budget (item ∷ items) =
        rw (sync_item-heard budget item) (omega (arith, sync_from-heard (sync budget item).1 items))

    -- A second run over the items that a run leaves, with the same states and sets, changes nothing: the
    -- listening budget goes to the same items again.
    pub sync_pending_pool_items-idempotent :
        (items : List (DailyLearningPoolItem F))
        → let once = sync_pending_pool_items u inference states preferences items in
          sync_pending_pool_items u inference states preferences once ≡ once
    unfolding sync_pending_pool_items
    sync_pending_pool_items-idempotent items =
        let budget = λ (n : ℕ). pos daily_listening_item_limit -ℤ pos n in
        let n = count_if (is_heard u inference states preferences) items in
        rw (sync_from-heard (budget n) items) (sync_from_twice (budget n) items)
