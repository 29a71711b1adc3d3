-- ===== src/Learning/Undo.antt =====
-- internal/service/learning_undo.go, `UndoLastAnswer`, over the rows of one user.
pub mod Rows
pub mod RoundTrip
pub mod Guards
use wordbit_advanced.Prelude.{
  ℕ, ◌+◌, Bool, true, false, not, ◌&&◌, Option, none, some, List, [], ◌∷◌, ◌++◌, ◌==◌,
  if◌then◌else◌, String, nat_eq, map, count_if, pos,
}
use wordbit_advanced.Domain.{
  Time, Uuid, ReviewMode, PoolItemType, EventType, UserWordState, DailyLearningPool,
  DailyLearningPoolItem, LearningEvent, Json, is_pending, type_eq,
}
use wordbit_advanced.Learning.Review.{Failure, LearningService}
use wordbit_advanced.Learning.Store.{
  Store, StoredEvent, AnswerUndoSnapshot, find_item, reopen_pool_item, reopened_item,
  get_latest_completed_pool_item, get_by_local_date, put_state, delete_pool_items,
  increment_new_count,
}

abbrev pub is_answer : EventType → Bool
is_answer EventType.first_exposure = true
is_answer EventType.review_answer = true
is_answer EventType.bonus_practice = true
is_answer _ = false

abbrev pub is_at : Uuid → Option Uuid → Bool
is_at id none = false
is_at id (some item_id) = item_id == id

module _ {F : Type 0} where
  -- `latestUndoableAnswerEvent` of the events of one item
  abbrev pub latest_undoable_answer_event : Uuid → List (StoredEvent F) → Option (StoredEvent F)
  latest_undoable_answer_event id [] = none
  latest_undoable_answer_event id (e ∷ events) =
      if is_at id e.event.pool_item_id && is_answer e.event.event_type
      then some e
      else latest_undoable_answer_event id events

  abbrev pub is_pending_item : Option (DailyLearningPoolItem F) → Bool
  is_pending_item none = false
  is_pending_item (some item) = is_pending item.status

  abbrev pub all_pending : List Uuid → List (DailyLearningPoolItem F) → Bool
  all_pending [] items = true
  all_pending (id ∷ ids) items = is_pending_item (find_item items id) && all_pending ids items

  -- The deleted items come back, with new identifiers from the database.
  abbrev pub restore_items :
      LearningService F
      → List (DailyLearningPoolItem F)
      → List (DailyLearningPoolItem F)
      → List (DailyLearningPoolItem F)
  restore_items svc [] items = items
  restore_items svc (deleted ∷ rest) items =
      restore_items svc rest
        (items ++ (record (reopened_item deleted) { id = svc.fresh_id items } ∷ []))

  abbrev pub undo_event : Time → DailyLearningPoolItem F → LearningEvent F → StoredEvent F
  undo_event now item answer = record {
    event = record {
      id = 0;
      user_id = item.user_id;
      word_id = item.word_id;
      pool_item_id = some item.id;
      event_type = EventType.answer_undo;
      event_time = now;
      payload = ("undone_client_event_id", Json.text answer.client_event_id) ∷ [];
      response_time_ms = pos 0;
      mode_used = ReviewMode.unset;
      client_event_id = "";
      client_session_id = "";
      created_at = now;
    };
    undo = none;
  }

  -- Everything after the state is put back.
  unfoldable pub undo_items :
      LearningService F
      → Time
      → DailyLearningPoolItem F
      → Uuid
      → LearningEvent F
      → AnswerUndoSnapshot F
      → Store F
      → Store F
  unfolding delete_pool_items reopen_pool_item
  undo_items svc now item pool_id answer snapshot store =
      let store1 = delete_pool_items snapshot.created_item_ids store in
      let restored = restore_items svc snapshot.deleted_pending_new_items store1.items in
      let news =
        count_if (λ (d : DailyLearningPoolItem F). d.item_type == PoolItemType.new)
          snapshot.deleted_pending_new_items in
      record store1 {
        items = reopen_pool_item item.id restored;
        pools = map (increment_new_count pool_id news) store1.pools;
        events = undo_event now item answer ∷ store1.events;
      }

  abbrev pub undo_state :
      LearningService F
      → Time
      → DailyLearningPoolItem F
      → Uuid
      → LearningEvent F
      → AnswerUndoSnapshot F
      → Bool
      → Option (UserWordState F)
      → Store F
      → Option Failure × Store F
  undo_state svc now item pool_id answer snapshot true none store = (some Failure.validation, store)
  undo_state svc now item pool_id answer snapshot true (some previous) store = (
    none,
    undo_items svc now item pool_id answer snapshot (put_state item.word_id (some previous) store),
  )
  undo_state svc now item pool_id answer snapshot false previous store =
      (none, undo_items svc now item pool_id answer snapshot (put_state item.word_id none store))

  abbrev pub undo_snapshot :
      LearningService F
      → Time
      → DailyLearningPoolItem F
      → Uuid
      → LearningEvent F
      → Option (AnswerUndoSnapshot F)
      → Store F
      → Option Failure × Store F
  undo_snapshot svc now item pool_id answer none store = (some Failure.validation, store)
  undo_snapshot svc now item pool_id answer (some snapshot) store =
      if not (all_pending snapshot.created_item_ids store.items)
      then (some Failure.validation, store)
      else undo_state svc now item pool_id answer snapshot snapshot.had_previous_state
          snapshot.previous_state store

  abbrev pub undo_answer :
      LearningService F
      → Time
      → DailyLearningPoolItem F
      → Uuid
      → Option (StoredEvent F)
      → Store F
      → Option Failure × Store F
  undo_answer svc now item pool_id none store = (some Failure.validation, store)
  undo_answer svc now item pool_id (some e) store =
      undo_snapshot svc now item pool_id e.event e.undo store

  abbrev pub undo_latest :
      LearningService F
      → Time
      → DailyLearningPoolItem F
      → Uuid
      → Option (DailyLearningPoolItem F)
      → Store F
      → Option Failure × Store F
  undo_latest svc now item pool_id none store = (some Failure.not_found, store)
  undo_latest svc now item pool_id (some latest) store =
      if not (latest.id == item.id)
      then (some Failure.validation, store)
      else undo_answer svc now item pool_id (latest_undoable_answer_event item.id store.events)
          store

  abbrev pub undo_in_pool :
      LearningService F
      → Time
      → DailyLearningPoolItem F
      → Option DailyLearningPool
      → Store F
      → Option Failure × Store F
  undo_in_pool svc now item none store = (some Failure.not_found, store)
  undo_in_pool svc now item (some pool) store =
      if not (item.pool_id == pool.id)
      then (some Failure.validation, store)
      else undo_latest svc now item pool.id (get_latest_completed_pool_item pool.id store.items)
          store

  abbrev pub undo_item :
      LearningService F
      → Time
      → Option (DailyLearningPoolItem F)
      → Store F
      → Option Failure × Store F
  undo_item svc now none store = (some Failure.not_found, store)
  undo_item svc now (some item) store =
      if is_pending item.status
      then (some Failure.validation, store)
      else undo_in_pool svc now item (get_by_local_date (svc.local_date now) store.pools) store

  unfoldable pub undo_last_answer :
      LearningService F → Time → Uuid → Store F → Option Failure × Store F
  unfolding undo_items
  undo_last_answer svc now pool_item_id store =
      undo_item svc now (find_item store.items pool_item_id) store
