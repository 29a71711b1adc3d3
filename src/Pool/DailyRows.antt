-- ===== src/Pool/DailyRows.antt =====
-- internal/service/pool_service.go: what PoolService is built with, and the statements of
-- internal/repository/postgres/pool_repository.go that make and refresh a day's pool; internal/service/topics.go.
use wordbit_advanced.Prelude.{
  ℕ, zero, suc, ◌%◌, Bool, false, not, ◌&&◌, ◌||◌, Option, none, List, [], ◌∷◌, ◌++◌, String,
  nat_eq, ◌==◌, if◌then◌else◌, length, keep_if, ℤ, pos,
}
use wordbit_advanced.Domain.{
  Time, Uuid, nil_uuid, ReviewMode, EventType, UserSettings, WordSet, Word, UserWordState,
  DailyLearningPool, DailyLearningPoolItem, is_pending,
}
use wordbit_advanced.Normalization.{Unicode}
use wordbit_advanced.ReviewModes.{ReviewModePreferences}
use wordbit_advanced.Generation.Select.{WordSource}
use wordbit_advanced.Learning.Store.{Store, StoredEvent, update_item}
use wordbit_advanced.Pool.Sync.{awaits_review}

abbrev rotating_topics : List String
rotating_topics =
    "Education" ∷ "Environment" ∷ "Technology" ∷ "Work/Career" ∷ "Society" ∷ "Health" ∷ "Business"
    ∷ "Finance" ∷ "Communication" ∷ "Travel" ∷ "Science" ∷ "Media" ∷ "Culture" ∷ "Law/Government"
    ∷ "Psychology" ∷ "Relationships" ∷ "Daily Life" ∷ "Mixed Review/Weak" ∷ []

abbrev topic_at : List String → ℕ → String
topic_at [] k = "Mixed Review/Weak"
topic_at (topic ∷ topics) zero = topic
topic_at (topic ∷ topics) (suc k) = topic_at topics k

-- `TopicForDate`, by the number of the local date's day, which is not negative
unfoldable pub topic_for_date : ℕ → String
topic_for_date day_index = topic_at rotating_topics (day_index % length rotating_topics)

-- What the service is built with: its settings and sets, the time zone (the local date of an instant, the number
-- of that day and its last instant), the order of dates, the SELECT statements, and the database's identifiers.
pub record DailyPoolService (F : Type 0) : Type 0 where
  pub unicode : Unicode
  pub memory_cause_inference_enabled : Bool
  pub settings : UserSettings
  pub default_set : Option WordSet
  pub local_date : Time → String
  pub civil_day : Time → ℕ
  pub end_utc : Time → Time
  pub is_before : String → String → Bool
  pub words : Uuid → Word F
  pub preferences : Uuid → ReviewModePreferences
  pub list_due_within_window : Store F → Time → Bool → List (UserWordState F)
  pub list_weak_candidates : Store F → List Uuid → ℤ → List (UserWordState F)
  pub source : Store F → WordSource F
  pub fresh_id : List (DailyLearningPoolItem F) → Uuid
  pub fresh_pool_id : List DailyLearningPool → Uuid

module _ {F : Type 0} where
  abbrev pub stands_before : DailyPoolService F → String → List DailyLearningPool → Uuid → Bool
  stands_before svc date [] pool_id = false
  stands_before svc date (pool ∷ pools) pool_id =
      pool.id == pool_id && svc.is_before pool.local_date date
      || stands_before svc date pools pool_id

  -- `DeletePendingItemsBeforeLocalDate`
  abbrev pub is_stale :
      DailyPoolService F → String → List DailyLearningPool → DailyLearningPoolItem F → Bool
  is_stale svc date pools item = is_pending item.status && stands_before svc date pools item.pool_id

  unfoldable pub delete_pending_items_before_local_date :
      DailyPoolService F → String → Store F → Store F
  delete_pending_items_before_local_date svc date store = record store {
    items = keep_if (λ item. not (is_stale svc date store.pools item)) store.items;
  }

  -- `UpdatePendingPoolItem`
  abbrev pub synced_row :
      DailyLearningPoolItem F → DailyLearningPoolItem F → DailyLearningPoolItem F
  synced_row item row =
      if is_pending row.status
      then record row {
        review_mode = item.review_mode;
        due_at = item.due_at;
        metadata = item.metadata;
      }
      else row

  abbrev pub update_pending_pool_item :
      DailyLearningPoolItem F → List (DailyLearningPoolItem F) → List (DailyLearningPoolItem F)
  update_pending_pool_item item rows = update_item item.id (synced_row item) rows

  -- The rows of the synchronised items; one that has not changed is written as it is.
  abbrev pub write_synced :
      List (DailyLearningPoolItem F)
      → List (DailyLearningPoolItem F)
      → List (DailyLearningPoolItem F)
  write_synced [] rows = rows
  write_synced (item ∷ items) rows =
      write_synced items (if awaits_review item then update_pending_pool_item item rows else rows)

  -- The INSERT statements of `CreatePoolWithItems`
  abbrev pub insert_pool_items :
      (List (DailyLearningPoolItem F) → Uuid)
      → Uuid
      → List (DailyLearningPoolItem F)
      → List (DailyLearningPoolItem F)
      → List (DailyLearningPoolItem F)
  insert_pool_items fresh_id pool_id [] rows = rows
  insert_pool_items fresh_id pool_id (item ∷ items) rows =
      insert_pool_items fresh_id pool_id items
        (rows ++ (record item { id = fresh_id rows; pool_id = pool_id } ∷ []))

  -- The event of a new pool, whose payload nothing reads
  abbrev pub pool_generated_event : Uuid → Time → StoredEvent F
  pool_generated_event user_id now = record {
    event = record {
      id = 0;
      user_id = user_id;
      word_id = nil_uuid;
      pool_item_id = none;
      event_type = EventType.pool_generated;
      event_time = now;
      payload = [];
      response_time_ms = pos 0;
      mode_used = ReviewMode.unset;
      client_event_id = "";
      client_session_id = "";
      created_at = now;
    };
    undo = none;
  }
