-- ===== src/Pool/Sync.antt =====
-- internal/service/pool_service.go, syncPendingPoolItems: the reviews of a pool that are still to be
-- done take their mode and due time from the word's state, within the day's limit of listening.
pub mod Idempotent
use wordbit_advanced.Prelude.{
  ℕ, zero, suc, ◌-◌, ◌+◌, Bool, true, false, not, ◌&&◌, ◌||◌, Option, none, some, List, [], ◌∷◌,
  String, string_eq, nat_eq, nat_beq, ◌==◌, if◌then◌else◌, ltb, ℤ, pos, negsuc, ltb_ℤ, ◌-ℤ◌,
  count_if,
}
use wordbit_advanced.Float64.{Float64}
use wordbit_advanced.Domain.{
  Time, Uuid, ReviewMode, Json, JsonMap, UserWordState, DailyLearningPoolItem, mode_eq, is_pending,
}
use wordbit_advanced.Normalization.{Unicode}
use wordbit_advanced.ReviewModes.{
  ReviewModePreferences, select_configured_review_mode_for_preferences, select_enabled_review_mode,
  is_buildable, daily_listening_item_limit, is_listening_review,
}
use wordbit_advanced.Generation.Select.{put_field}
use wordbit_advanced.Pool.{preferences_or_default}

abbrev pub same_optional_time : Option Time → Option Time → Bool
same_optional_time none none = true
same_optional_time none (some t) = false
same_optional_time (some s) none = false
same_optional_time (some s) (some t) = nat_beq s t

-- A review that is still to be done, and not the first exposure of a word
abbrev pub awaits_review : {F : Type 0} → DailyLearningPoolItem F → Bool
awaits_review item = is_pending item.status && (item.is_review && not item.first_exposure_required)

module _ {F : Type 0} ⦃fl : Float64 F⦄ where
  abbrev pub json_float : Json F → F
  json_float (Json.float x) = x
  json_float (Json.integer n) = fl.of_int n
  json_float (Json.text t) = fl.dec 0 0
  json_float Json.other = fl.dec 0 0

  unfoldable pub json_map_float64 : JsonMap F → String → F
  json_map_float64 [] key = fl.dec 0 0
  json_map_float64 ((k, v) ∷ rest) key =
      if k == key then json_float v else json_map_float64 rest key

module _ {F : Type 0} ⦃fl : Float64 F⦄ (u : Unicode) (inference : Bool) where
  -- `syncPendingPoolItem`, without the answer whether anything changed
  unfoldable pub synced_item :
      DailyLearningPoolItem F → UserWordState F → ReviewModePreferences → DailyLearningPoolItem F
  synced_item item st preferences = record item {
    review_mode =
        select_configured_review_mode_for_preferences st inference
          (preferences_or_default preferences preferences.enabled_modes) (is_buildable u item.word);
    due_at = if item.bonus_practice then none else st.next_review_at;
    metadata = put_field "weakness_score" (Json.float st.weakness_score) item.metadata;
  }

  -- The listening budget that an item uses up, and the item after it.
  abbrev pub within_budget :
      ℤ → ReviewModePreferences → DailyLearningPoolItem F → DailyLearningPoolItem F × ℤ
  within_budget budget preferences updated =
      if updated.review_mode == ReviewMode.listening
      then (if ltb_ℤ (pos 0) budget then (updated, budget -ℤ pos 1) else (
        record updated {
          review_mode =
              select_enabled_review_mode ReviewMode.fill_blank preferences.enabled_modes
                (is_buildable u updated.word);
        },
        budget,
      ))
      else (updated, budget)

  unfoldable pub has_changed :
      DailyLearningPoolItem F → DailyLearningPoolItem F → UserWordState F → Bool
  unfolding json_map_float64
  has_changed updated item st =
      not (updated.review_mode == item.review_mode)
      || (not (same_optional_time updated.due_at item.due_at)
          || not (fl.beq (json_map_float64 item.metadata "weakness_score") st.weakness_score))

  module _ (states : Uuid → Option (UserWordState F))
      (preferences : Uuid → ReviewModePreferences) where
    -- One round of the loop over the items
    abbrev pub sync_with :
        ℤ → DailyLearningPoolItem F → Option (UserWordState F) → DailyLearningPoolItem F × ℤ
    sync_with budget item none = (item, budget)
    sync_with budget item (some st) =
        let p = preferences item.word_id in
        let (updated, left) = within_budget budget p (synced_item item st p) in
        (if has_changed updated item st then updated else item, left)

    unfoldable pub sync_item : ℤ → DailyLearningPoolItem F → DailyLearningPoolItem F × ℤ
    unfolding synced_item has_changed
    sync_item budget item =
        if awaits_review item then sync_with budget item (states item.word_id) else (item, budget)

    unfoldable pub sync_from : ℤ → List (DailyLearningPoolItem F) → List (DailyLearningPoolItem F)
    unfolding sync_item
    sync_from budget [] = []
    sync_from budget (item ∷ items) =
        let (item', left) = sync_item budget item in item' ∷ sync_from left items

    -- The listening reviews that are no longer pending use up the budget first.
    abbrev pub is_heard : DailyLearningPoolItem F → Bool
    is_heard item = is_listening_review item && not (is_pending item.status)

    unfoldable pub sync_pending_pool_items :
        List (DailyLearningPoolItem F) → List (DailyLearningPoolItem F)
    unfolding sync_from
    sync_pending_pool_items items =
        sync_from (pos daily_listening_item_limit -ℤ pos (count_if is_heard items)) items
