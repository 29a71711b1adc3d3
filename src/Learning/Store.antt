-- ===== src/Learning/Store.antt =====
-- internal/repository/postgres/pool_repository.go, state_repository.go, event_repository.go: what one
-- user's rows are, as the statements that the learning service runs read and write them.
use wordbit_advanced.Prelude.{
  ℕ, ◌+◌, ◌-◌, Bool, true, false, not, ◌&&◌, ◌||◌, Option, none, some, List, [], ◌∷◌, map, ltb,
  ◌==◌, if◌then◌else◌, contains, count_if, keep_if, nat_eq, string_eq, nat_beq, String,
}
use wordbit_advanced.Domain.{
  Time, Uuid, PoolItemType, PoolItemStatus, UserWordState, DailyLearningPool, DailyLearningPoolItem,
  LearningEvent, type_eq, is_pending,
}

-- `answerUndoSnapshot`, with the identifiers read back from their spelling.
pub record AnswerUndoSnapshot (F : Type 0) : Type 0 where
  pub had_previous_state : Bool
  pub previous_state : Option (UserWordState F)
  pub created_item_ids : List Uuid
  pub deleted_pending_new_items : List (DailyLearningPoolItem F)

-- A stored event, with the value under "undo" of its payload apart.
pub record StoredEvent (F : Type 0) : Type 0 where
  pub event : LearningEvent F
  pub undo : Option (AnswerUndoSnapshot F)

-- The events stand with the latest first: each is stored with the time of its insertion.
pub record Store (F : Type 0) : Type 0 where
  pub states : Uuid → Option (UserWordState F)
  pub items : List (DailyLearningPoolItem F)
  pub pools : List DailyLearningPool
  pub events : List (StoredEvent F)

module _ {F : Type 0} where
  -- `GetPoolItem`, for an item of the user
  abbrev pub find_item : List (DailyLearningPoolItem F) → Uuid → Option (DailyLearningPoolItem F)
  find_item [] id = none
  find_item (item ∷ items) id = if item.id == id then some item else find_item items id

  abbrev pub completed_item : Time → DailyLearningPoolItem F → DailyLearningPoolItem F
  completed_item now item = record item {
    status = PoolItemStatus.completed;
    completed_at = some now;
  }

  abbrev pub reopened_item : DailyLearningPoolItem F → DailyLearningPoolItem F
  reopened_item item = record item { status = PoolItemStatus.pending; completed_at = none }

  -- An UPDATE of the row with this identifier
  abbrev pub update_item :
      Uuid
      → (DailyLearningPoolItem F → DailyLearningPoolItem F)
      → List (DailyLearningPoolItem F)
      → List (DailyLearningPoolItem F)
  update_item id f [] = []
  update_item id f (item ∷ items) =
      (if item.id == id then f item else item) ∷ update_item id f items

  unfoldable pub mark_pool_item_completed :
      Uuid → Time → List (DailyLearningPoolItem F) → List (DailyLearningPoolItem F)
  mark_pool_item_completed id now items = update_item id (completed_item now) items

  unfoldable pub reopen_pool_item :
      Uuid → List (DailyLearningPoolItem F) → List (DailyLearningPoolItem F)
  reopen_pool_item id items = update_item id reopened_item items

  -- `ORDER BY completed_at DESC NULLS LAST, ordinal DESC, created_at DESC`
  abbrev pub completes_later : DailyLearningPoolItem F → DailyLearningPoolItem F → Bool
  completes_later a b = later a.completed_at b.completed_at
    where
      tie : Bool
      tie =
          ltb b.ordinal a.ordinal || (nat_beq a.ordinal b.ordinal && ltb b.created_at a.created_at)

      later : Option Time → Option Time → Bool
      later none none = tie
      later none (some t) = false
      later (some s) none = true
      later (some s) (some t) = ltb t s || (nat_beq s t && tie)

  abbrev pub is_completed_in : Uuid → DailyLearningPoolItem F → Bool
  is_completed_in pool_id item = (item.pool_id == pool_id) && not (is_pending item.status)

  abbrev pub latest_from :
      DailyLearningPoolItem F → List (DailyLearningPoolItem F) → DailyLearningPoolItem F
  latest_from best [] = best
  latest_from best (item ∷ items) =
      latest_from (if completes_later item best then item else best) items

  abbrev pub first_latest : List (DailyLearningPoolItem F) → Option (DailyLearningPoolItem F)
  first_latest [] = none
  first_latest (item ∷ items) = some (latest_from item items)

  unfoldable pub get_latest_completed_pool_item :
      Uuid → List (DailyLearningPoolItem F) → Option (DailyLearningPoolItem F)
  get_latest_completed_pool_item pool_id items =
      first_latest (keep_if (is_completed_in pool_id) items)

  -- `GetLastOrdinal`
  abbrev pub get_last_ordinal : Uuid → List (DailyLearningPoolItem F) → ℕ
  get_last_ordinal pool_id [] = 0
  get_last_ordinal pool_id (item ∷ items) =
      let rest = get_last_ordinal pool_id items in
      if item.pool_id == pool_id && ltb rest item.ordinal then item.ordinal else rest

  -- `DeletePoolItems`: the rows, and the counts of their pools.
  unfoldable pub delete_rows :
      List Uuid → List (DailyLearningPoolItem F) → List (DailyLearningPoolItem F)
  delete_rows ids items = keep_if (λ item. not (contains ids item.id)) items

  abbrev pub count_deleted : List Uuid → List (DailyLearningPoolItem F) → Uuid → PoolItemType → ℕ
  count_deleted ids items pool_id type =
      count_if (λ item. contains ids item.id && (item.pool_id == pool_id && item.item_type == type))
        items

  unfoldable pub lower_counts :
      List Uuid → List (DailyLearningPoolItem F) → DailyLearningPool → DailyLearningPool
  lower_counts ids items pool = record pool {
    due_review_count = pool.due_review_count - count_deleted ids items pool.id PoolItemType.review;
    short_term_count =
        pool.short_term_count - count_deleted ids items pool.id PoolItemType.short_term;
    weak_count = pool.weak_count - count_deleted ids items pool.id PoolItemType.weak;
    new_count = pool.new_count - count_deleted ids items pool.id PoolItemType.new;
  }

  unfoldable pub delete_pool_items : List Uuid → Store F → Store F
  delete_pool_items ids store = record store {
    items = delete_rows ids store.items;
    pools = map (lower_counts ids store.items) store.pools;
  }

  -- `Upsert`, and `Delete` for `none`; of a state's columns `word_set_id`, `created_at` and `updated_at`
  -- are set by the database, and are here as they were passed.
  abbrev pub put_state : Uuid → Option (UserWordState F) → Store F → Store F
  put_state word_id st store = record store {
    states = λ id. if id == word_id then st else store.states id;
  }

-- `GetByLocalDate`
abbrev pub get_by_local_date : String → List DailyLearningPool → Option DailyLearningPool
get_by_local_date date [] = none
get_by_local_date date (pool ∷ pools) =
    if pool.local_date == date then some pool else get_by_local_date date pools

-- `IncrementNewCount`
abbrev pub increment_new_count : Uuid → ℕ → DailyLearningPool → DailyLearningPool
increment_new_count id delta pool =
    if pool.id == id then record pool { new_count = pool.new_count + delta } else pool
