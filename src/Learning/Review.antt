-- ===== src/Learning/Review.antt =====
-- internal/service/learning_service.go, `SubmitReview` and `maybeAppendSameDayFollowUp`, over the rows
-- of one user. The database does not fail here: an error is a missing row or a refused request.
pub mod Once
use wordbit_advanced.Prelude.{
  ◌+◌, Bool, true, false, not, Option, none, some, List, [], ◌∷◌, ◌++◌, ◌==◌, if◌then◌else◌, String,
  string_eq,
}
use wordbit_advanced.Float64.{Float64}
use wordbit_advanced.Domain.{
  Time, Uuid, ReviewMode, PoolItemType, PoolItemStatus, EventType, UserWordState, DailyLearningPool,
  DailyLearningPoolItem, Json, is_pending,
}
use wordbit_advanced.Normalization.{Unicode}
use wordbit_advanced.ReviewModes.{
  ReviewModePreferences, select_configured_review_mode_for_preferences, is_buildable,
  default_review_mode_preferences,
}
use wordbit_advanced.Learning.Answer.{ReviewRequest, answered_state, inferred_cause}
use wordbit_advanced.Learning.Store.{
  Store, StoredEvent, find_item, mark_pool_item_completed, get_last_ordinal, get_by_local_date,
  put_state,
}

pub data Failure : Type 0 where
  not_found validation : Failure

-- What the service is built with: the local date of an instant in the user's time zone, the modes of a
-- word's set, and the identifier that the database gives to a new item.
pub record LearningService (F : Type 0) : Type 0 where
  pub unicode : Unicode
  pub memory_cause_inference_enabled : Bool
  pub local_date : Time → String
  pub preferences : Uuid → ReviewModePreferences
  pub fresh_id : List (DailyLearningPoolItem F) → Uuid

abbrev pub or_default_modes : ReviewModePreferences → ReviewModePreferences
or_default_modes p = default_if p.enabled_modes
  where
    default_if : List ReviewMode → ReviewModePreferences
    default_if [] = default_review_mode_preferences
    default_if (m ∷ ms) = p

module _ {F : Type 0} where
  abbrev pub created_ids : Option (DailyLearningPoolItem F) → List Uuid
  created_ids none = []
  created_ids (some item) = item.id ∷ []

  abbrev pub append_created :
      List (DailyLearningPoolItem F)
      → Option (DailyLearningPoolItem F)
      → List (DailyLearningPoolItem F)
  append_created items none = items
  append_created items (some item) = items ++ (item ∷ [])

  -- The event of the answer; of the payload only what is read again, the snapshot for undo.
  abbrev pub review_event :
      ReviewRequest → Time → DailyLearningPoolItem F → UserWordState F → List Uuid → StoredEvent F
  review_event req now item previous created = record {
    event = record {
      id = 0;
      user_id = item.user_id;
      word_id = item.word_id;
      pool_item_id = some item.id;
      event_type =
          if item.bonus_practice then EventType.bonus_practice else EventType.review_answer;
      event_time = now;
      payload = [];
      response_time_ms = req.response_time_ms;
      mode_used = req.mode_used;
      client_event_id = req.client_event_id;
      client_session_id = req.client_session_id;
      created_at = now;
    };
    undo = some (record {
      had_previous_state = true;
      previous_state = some previous;
      created_item_ids = created;
      deleted_pending_new_items = [];
    });
  }

module _ {F : Type 0} ⦃fl : Float64 F⦄ where
  -- Of the metadata, what is not a spelling of an identifier or of the time zone.
  abbrev pub follow_up_item :
      LearningService F
      → Store F
      → DailyLearningPool
      → DailyLearningPoolItem F
      → UserWordState F
      → Time
      → DailyLearningPoolItem F
  follow_up_item svc store pool item st due = record {
    id = svc.fresh_id store.items;
    pool_id = pool.id;
    user_id = item.user_id;
    word_id = item.word_id;
    ordinal = get_last_ordinal pool.id store.items + 1;
    item_type = PoolItemType.short_term;
    review_mode =
        select_configured_review_mode_for_preferences st svc.memory_cause_inference_enabled
          (or_default_modes (svc.preferences item.word_id)) (is_buildable svc.unicode item.word);
    due_at = some due;
    status = PoolItemStatus.pending;
    is_review = true;
    first_exposure_required = false;
    bonus_practice = false;
    revealed_meaning = false;
    revealed_example = false;
    metadata =
        ("scheduled_local_date", Json.text (svc.local_date due))
        ∷ ("source_reason", Json.text "same_day_follow_up")
        ∷ ("weakness_score", Json.float st.weakness_score)
        ∷ [];
    completed_at = none;
    created_at = 0;
    updated_at = 0;
    word = item.word;
  }

  -- The follow-up, where the next review is on the day of `now` and that day has a pool.
  abbrev pub follow_up_in :
      LearningService F
      → Store F
      → Option DailyLearningPool
      → DailyLearningPoolItem F
      → UserWordState F
      → Time
      → Option (DailyLearningPoolItem F)
  follow_up_in svc store none item st due = none
  follow_up_in svc store (some pool) item st due = some (follow_up_item svc store pool item st due)

  abbrev pub follow_up_at :
      LearningService F
      → Store F
      → Time
      → DailyLearningPoolItem F
      → UserWordState F
      → Option Time
      → Option (DailyLearningPoolItem F)
  follow_up_at svc store now item st none = none
  follow_up_at svc store now item st (some due) =
      if svc.local_date due == svc.local_date now
      then follow_up_in svc store (get_by_local_date (svc.local_date now) store.pools) item st due
      else none

  unfoldable pub same_day_follow_up :
      LearningService F
      → Store F
      → Time
      → DailyLearningPoolItem F
      → UserWordState F
      → Option (DailyLearningPoolItem F)
  same_day_follow_up svc store now item st = follow_up_at svc store now item st st.next_review_at

  -- The rows after an answer that is accepted.
  unfoldable pub record_review :
      LearningService F
      → Time
      → ReviewRequest
      → DailyLearningPoolItem F
      → UserWordState F
      → Store F
      → Store F
  record_review svc now req item previous store =
      let cause =
        inferred_cause svc.unicode svc.memory_cause_inference_enabled item.word previous req in
      let st =
        answered_state svc.memory_cause_inference_enabled item.bonus_practice cause previous req
          now in
      let store1 = put_state item.word_id (some st) store in
      let store2 = record store1 { items = mark_pool_item_completed item.id now store1.items } in
      let created =
        if item.bonus_practice then none else same_day_follow_up svc store2 now item st in
      record store2 {
        items = append_created store2.items created;
        events = review_event req now item previous (created_ids created) ∷ store2.events;
      }

  abbrev pub review_state :
      LearningService F
      → Time
      → ReviewRequest
      → DailyLearningPoolItem F
      → Option (UserWordState F)
      → Store F
      → Option Failure × Store F
  review_state svc now req item none store = (some Failure.not_found, store)
  review_state svc now req item (some previous) store =
      (none, record_review svc now req item previous store)

  abbrev pub review_item :
      LearningService F
      → Time
      → ReviewRequest
      → Option (DailyLearningPoolItem F)
      → Store F
      → Option Failure × Store F
  review_item svc now req none store = (some Failure.not_found, store)
  review_item svc now req (some item) store =
      if not (is_pending item.status)
      then (some Failure.validation, store)
      else review_state svc now req item (store.states item.word_id) store

  -- `none` is a nil error.
  unfoldable pub submit_review :
      LearningService F → Time → ReviewRequest → Store F → Option Failure × Store F
  unfolding record_review
  submit_review svc now req store =
      review_item svc now req (find_item store.items req.pool_item_id) store
