-- ===== src/Learning/Exposure.antt =====
-- internal/service/learning_service.go, SubmitFirstExposure over the rows of one user. The quota manager is `none` where
-- the service has none; the server gives it the pool service (maintain_daily_buffer of Pool.Daily). An action that is
-- none of the constants is `none`; the user has an active word set, or the service does not know of sets.
pub mod Recorded
use wordbit_advanced.Prelude.{
  Bool, true, false, not, ◌||◌, Option, none, some, List, [], ◌∷◌, ◌++◌, if◌then◌else◌, String, ℤ,
}
use wordbit_advanced.Float64.{Float64}
use wordbit_advanced.Domain.{
  Time, Uuid, ReviewMode, ExposureAction, EventType, UserWordState, DailyLearningPoolItem,
  is_pending,
}
use wordbit_advanced.Scheduling.Outcome.{apply_first_exposure_unknown, apply_first_exposure_known}
use wordbit_advanced.Learning.Answer.{init_state_from_snapshot}
use wordbit_advanced.Learning.Store.{
  Store, StoredEvent, find_item, mark_pool_item_completed, put_state,
}
use wordbit_advanced.Learning.Review.{
  Failure, LearningService, created_ids, append_created, same_day_follow_up,
}
use wordbit_advanced.Pool.Buffer.{UnknownDailyBufferMutation, no_mutation}
use wordbit_advanced.Pool.Daily.{maintain_daily_buffer}
use wordbit_advanced.Pool.DailyRows.{DailyPoolService}

pub record FirstExposureRequest : Type 0 where
  pub pool_item_id : Uuid
  pub action : Option ExposureAction
  pub response_time_ms : ℤ
  pub client_event_id : String
  pub client_session_id : String

module _ {F : Type 0} where
  -- The set of the state, or the active set for a word without one.
  abbrev pub resolve_word_set_id_for_first_exposure :
      Option Uuid → Option (UserWordState F) → Option Uuid
  resolve_word_set_id_for_first_exposure active none = active
  resolve_word_set_id_for_first_exposure active (some previous) = previous.word_set_id

  abbrev pub is_there : Option (UserWordState F) → Bool
  is_there none = false
  is_there (some st) = true

  -- An error of the maintenance is only logged.
  abbrev pub after_maintenance :
      Option (UnknownDailyBufferMutation F) × Store F → UnknownDailyBufferMutation F × Store F
  after_maintenance (none, store) = (no_mutation, store)
  after_maintenance (some mutation, store) = (mutation, store)

  abbrev pub maintained :
      Option (Store F → Option (UnknownDailyBufferMutation F) × Store F)
      → Store F
      → UnknownDailyBufferMutation F × Store F
  maintained none store = (no_mutation, store)
  maintained (some maintain) store = after_maintenance (maintain store)

  -- The event of the exposure; of the payload only what is read again, the snapshot for undo.
  abbrev pub exposure_event :
      FirstExposureRequest
      → Time
      → DailyLearningPoolItem F
      → Option (UserWordState F)
      → List Uuid
      → List (DailyLearningPoolItem F)
      → StoredEvent F
  exposure_event req now item previous created deleted = record {
    event = record {
      id = 0;
      user_id = item.user_id;
      word_id = item.word_id;
      pool_item_id = some item.id;
      event_type = EventType.first_exposure;
      event_time = now;
      payload = [];
      response_time_ms = req.response_time_ms;
      mode_used = ReviewMode.unset;
      client_event_id = req.client_event_id;
      client_session_id = req.client_session_id;
      created_at = now;
    };
    undo = some (record {
      had_previous_state = is_there previous;
      previous_state = previous;
      created_item_ids = created;
      deleted_pending_new_items = deleted;
    });
  }

module _ {F : Type 0} ⦃fl : Float64 F⦄ where
  abbrev pub exposed_state : ExposureAction → UserWordState F → Time → ℤ → UserWordState F
  exposed_state ExposureAction.dont_learn st now ms = apply_first_exposure_known st now ms
  exposed_state ExposureAction.known st now ms = apply_first_exposure_known st now ms
  exposed_state ExposureAction.unknown st now ms = apply_first_exposure_unknown st now ms

  -- Only a word to be learned gets an item for the same day.
  abbrev pub exposure_follow_up :
      LearningService F
      → ExposureAction
      → Store F
      → Time
      → DailyLearningPoolItem F
      → UserWordState F
      → Option (DailyLearningPoolItem F)
  exposure_follow_up svc ExposureAction.unknown store now item st =
      same_day_follow_up svc store now item st
  exposure_follow_up svc ExposureAction.known store now item st = none
  exposure_follow_up svc ExposureAction.dont_learn store now item st = none

module _ {F : Type 0} ⦃fl : Float64 F⦄ (svc : LearningService F) (active : Option Uuid)
    (maintain : Option (Store F → Option (UnknownDailyBufferMutation F) × Store F)) where
  abbrev pub new_state :
      FirstExposureRequest
      → Time
      → ExposureAction
      → DailyLearningPoolItem F
      → Option (UserWordState F)
      → UserWordState F
  new_state req now action item previous =
      exposed_state action
        (init_state_from_snapshot fl item.user_id item.word_id previous
          (resolve_word_set_id_for_first_exposure active previous) now)
        now req.response_time_ms

  -- The rows after the switch over the action.
  abbrev pub with_state :
      FirstExposureRequest
      → Time
      → ExposureAction
      → DailyLearningPoolItem F
      → Store F
      → Option (DailyLearningPoolItem F) × Store F
  with_state req now action item store =
      let st = new_state req now action item (store.states item.word_id) in
      let store1 = put_state item.word_id (some st) store in
      let store2 : Store F = record store1 {
        items = mark_pool_item_completed item.id now store1.items;
      } in
      let created = exposure_follow_up svc action store2 now item st in
      (created, record store2 { items = append_created store2.items created })

  unfoldable pub record_exposure :
      FirstExposureRequest → Time → ExposureAction → DailyLearningPoolItem F → Store F → Store F
  unfolding apply_first_exposure_known apply_first_exposure_unknown init_state_from_snapshot
      same_day_follow_up mark_pool_item_completed
  record_exposure req now action item store =
      let (created, store1) = with_state req now action item store in
      let (mutation, store2) = maintained maintain store1 in
      record store2 {
        events =
            exposure_event req now item (store.states item.word_id)
              (created_ids created ++ mutation.created_item_ids) mutation.deleted_pending_new_items
            ∷ store2.events;
      }

  abbrev pub exposure_action :
      FirstExposureRequest
      → Time
      → DailyLearningPoolItem F
      → Option ExposureAction
      → Store F
      → Option Failure × Store F
  exposure_action req now item none store = (some Failure.validation, store)
  exposure_action req now item (some action) store =
      (none, record_exposure req now action item store)

  abbrev pub exposure_item :
      FirstExposureRequest
      → Time
      → Option (DailyLearningPoolItem F)
      → Store F
      → Option Failure × Store F
  exposure_item req now none store = (some Failure.not_found, store)
  exposure_item req now (some item) store =
      if not (is_pending item.status) || not item.first_exposure_required
      then (some Failure.validation, store)
      else exposure_action req now item req.action store

  unfoldable pub submit_first_exposure :
      FirstExposureRequest → Time → Store F → Option Failure × Store F
  unfolding record_exposure
  submit_first_exposure req now store =
      exposure_item req now (find_item store.items req.pool_item_id) store

-- SubmitFirstExposure of the service that the server makes, whose quota manager is the pool service; the clock is
-- read once.
abbrev pub submit_with_pool :
    {F : Type 0}
    → ⦃fl : Float64 F⦄ → LearningService F
    → Option Uuid
    → DailyPoolService F
    → Uuid
    → FirstExposureRequest
    → Time
    → Store F
    → Option Failure × Store F
submit_with_pool svc active pool_service user_id req now store =
    submit_first_exposure svc active (some (maintain_daily_buffer pool_service user_id now)) req now
      store
