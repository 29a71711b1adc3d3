-- ===== src/Pool.antt =====
-- internal/service/pool_service.go: the items that are built for a day's pool.
pub mod Playable
pub mod Sync
pub mod Reconcile
pub mod Buffer
pub mod Practice
pub mod DailyRows
pub mod Daily
use wordbit_advanced.Prelude.{ℕ, ◌+◌, true, false, none, some, List, [], ◌∷◌, ◌++◌, Bool}
use wordbit_advanced.Float64.{Float64}
use wordbit_advanced.Domain.{
  Time, Uuid, nil_uuid, ReviewMode, PoolItemType, PoolItemStatus, Json, Word, UserWordState,
  DailyLearningPoolItem,
}
use wordbit_advanced.Normalization.{Unicode}
use wordbit_advanced.ReviewModes.{
  ReviewModePreferences, default_review_mode_preferences,
  select_configured_review_mode_for_preferences, is_buildable, cap_listening_review_items,
  daily_listening_item_limit,
}

abbrev pub preferences_or_default : ReviewModePreferences → List ReviewMode → ReviewModePreferences
preferences_or_default p [] = default_review_mode_preferences
preferences_or_default p (m ∷ ms) = p

module _ {F : Type 0} ⦃fl : Float64 F⦄ (u : Unicode) (words : Uuid → Word F) where
  -- `words` gives the zero word where the map has none, and `preferences` no modes where it has no entry.
  abbrev pub built_review_item :
      (Uuid → ReviewModePreferences)
      → Uuid
      → Uuid
      → PoolItemType
      → Bool
      → UserWordState F
      → DailyLearningPoolItem F
  built_review_item preferences user_id pool_id item_type inference st =
      let p = preferences st.word_id in
      record {
        id = nil_uuid;
        pool_id = pool_id;
        user_id = user_id;
        word_id = st.word_id;
        ordinal = 0;
        item_type = item_type;
        review_mode =
            select_configured_review_mode_for_preferences st inference
              (preferences_or_default p p.enabled_modes) (is_buildable u (some (words st.word_id)));
        due_at = st.next_review_at;
        status = PoolItemStatus.pending;
        is_review = true;
        first_exposure_required = false;
        bonus_practice = false;
        revealed_meaning = false;
        revealed_example = false;
        metadata = ("weakness_score", Json.float st.weakness_score) ∷ [];
        completed_at = none;
        created_at = 0;
        updated_at = 0;
        word = some (words st.word_id);
      }

  unfoldable pub build_review_items :
      (Uuid → ReviewModePreferences)
      → Uuid
      → Uuid
      → List (UserWordState F)
      → PoolItemType
      → Bool
      → List (DailyLearningPoolItem F)
  build_review_items preferences user_id pool_id [] item_type inference = []
  build_review_items preferences user_id pool_id (st ∷ states) item_type inference =
      built_review_item preferences user_id pool_id item_type inference st
      ∷ build_review_items preferences user_id pool_id states item_type inference

  abbrev as_bonus : DailyLearningPoolItem F → DailyLearningPoolItem F
  as_bonus item = record item {
    bonus_practice = true;
    due_at = none;
    metadata = item.metadata ++ (("bonus_practice", Json.other) ∷ []);
  }

  abbrev pub all_as_bonus : List (DailyLearningPoolItem F) → List (DailyLearningPoolItem F)
  all_as_bonus [] = []
  all_as_bonus (item ∷ items) = as_bonus item ∷ all_as_bonus items

  unfoldable pub build_bonus_practice_items :
      (Uuid → ReviewModePreferences)
      → Uuid
      → Uuid
      → List (UserWordState F)
      → Bool
      → List (DailyLearningPoolItem F)
  unfolding build_review_items
  build_bonus_practice_items preferences user_id pool_id states inference =
      all_as_bonus
        (build_review_items preferences user_id pool_id states PoolItemType.weak inference)

module _ {F : Type 0} where
  unfoldable pub build_new_items : Uuid → Uuid → List (Word F) → List (DailyLearningPoolItem F)
  build_new_items user_id pool_id [] = []
  build_new_items user_id pool_id (w ∷ words) =
      record {
        id = nil_uuid;
        pool_id = pool_id;
        user_id = user_id;
        word_id = w.id;
        ordinal = 0;
        item_type = PoolItemType.new;
        review_mode = ReviewMode.reveal;
        due_at = none;
        status = PoolItemStatus.pending;
        is_review = false;
        first_exposure_required = true;
        bonus_practice = false;
        revealed_meaning = false;
        revealed_example = false;
        metadata = [];
        completed_at = none;
        created_at = 0;
        updated_at = 0;
        word = some w;
      }
      ∷ build_new_items user_id pool_id words

  abbrev pub number_from : ℕ → List (DailyLearningPoolItem F) → List (DailyLearningPoolItem F)
  number_from i [] = []
  number_from i (item ∷ items) = record item { ordinal = i + 1 } ∷ number_from (i + 1) items

  unfoldable pub assign_ordinals : List (DailyLearningPoolItem F) → List (DailyLearningPoolItem F)
  assign_ordinals items = number_from 0 items

module _ {F : Type 0} ⦃fl : Float64 F⦄ (u : Unicode) (words : Uuid → Word F) where
  -- The items that a new pool of the day is created with, from the states and the new words found for it.
  unfoldable pub pool_items :
      (Uuid → ReviewModePreferences)
      → Uuid
      → Bool
      → List (UserWordState F)
      → List (UserWordState F)
      → List (UserWordState F)
      → List (Word F)
      → List (DailyLearningPoolItem F)
  unfolding build_review_items build_new_items assign_ordinals
  pool_items preferences user_id inference short_term_states review_states weak_states new_words =
      let build = λ (states : List (UserWordState F)) (item_type : PoolItemType).
        build_review_items u words preferences user_id nil_uuid states item_type inference in
      let items =
        (build short_term_states PoolItemType.short_term ++ build review_states PoolItemType.review)
        ++ build weak_states PoolItemType.weak in
      assign_ordinals (
        cap_listening_review_items u (λ (id : Uuid). (preferences id).enabled_modes) items
          daily_listening_item_limit
        ++ build_new_items user_id nil_uuid new_words)
