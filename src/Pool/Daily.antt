-- ===== src/Pool/Daily.antt =====
-- internal/service/pool_service.go: the day's pool, made where there is none, GetOrCreateDailyPool, and the maintenance
-- of its new words, MaintainNewWordBuffer. The statements that they run are in Pool.DailyRows.
pub mod Rows
pub mod View
pub mod Maintained
pub mod Kept
use wordbit_advanced.Prelude.{
  ℕ, zero, suc, ◌%◌, Bool, true, false, not, ◌&&◌, ◌||◌, Option, none, some, List, [], ◌∷◌, ◌++◌,
  map, String, codes, nat_eq, ◌==◌, if◌then◌else◌, length, keep_if, ℤ, pos,
}
use wordbit_advanced.Float64.{Float64}
use wordbit_advanced.Domain.{
  Time, Uuid, nil_uuid, ReviewMode, PoolItemType, EventType, UserSettings, WordSet, Word,
  UserWordState, DailyLearningPool, DailyLearningPoolItem, is_pending,
}
use wordbit_advanced.Normalization.{Unicode}
use wordbit_advanced.ReviewModes.{
  ReviewModePreferences, cap_listening_review_items, daily_listening_item_limit,
}
use wordbit_advanced.Scheduling.Quotas.{compute_weak_slots, compute_new_word_quota}
use wordbit_advanced.Generation.Select.{WordSource}
use wordbit_advanced.Generation.Source.{
  Generation, generated, exhausted, unconfigured, generate_new_words,
}
use wordbit_advanced.Learning.Store.{Store, StoredEvent, update_item, get_by_local_date}
use wordbit_advanced.Pool.{build_review_items, pool_items}
use wordbit_advanced.Pool.Sync.{sync_pending_pool_items, awaits_review}
use wordbit_advanced.Pool.Reconcile.{reconcile_scheduled_pool_items}
use wordbit_advanced.Pool.Reconcile.Keys.{items_of}
use wordbit_advanced.Pool.Buffer.{
  UnknownDailyBufferMutation, Buffered, done, failed, wants_new_words, maintain_new_word_buffer,
}
use wordbit_advanced.Pool.DailyRows.{
  DailyPoolService, delete_pending_items_before_local_date, insert_pool_items, is_stale,
  pool_generated_event, stands_before, synced_row, topic_for_date, update_pending_pool_item,
  write_synced,
}

pub record DailyPoolView (F : Type 0) : Type 0 where
  pub pool : DailyLearningPool
  pub items : List (DailyLearningPoolItem F)

module _ {F : Type 0} ⦃fl : Float64 F⦄ (svc : DailyPoolService F) (user_id : Uuid)
    (now : Time) where
  -- The pool as it is read again, with its items, which are synchronised. `none` is an error.
  abbrev pub synced_view : Option DailyLearningPool → Store F → Option (DailyPoolView F) × Store F
  synced_view none store = (none, store)
  synced_view (some pool) store =
      let items =
        sync_pending_pool_items svc.unicode svc.memory_cause_inference_enabled store.states
          svc.preferences (items_of pool.id store.items) in
      (
        some (record { pool = pool; items = items }),
        record store { items = write_synced items store.items },
      )

  -- For a pool that is there
  unfoldable pub refresh_daily_pool :
      DailyLearningPool → Store F → Option (DailyPoolView F) × Store F
  unfolding reconcile_scheduled_pool_items sync_pending_pool_items
  refresh_daily_pool pool store =
      let store1 =
        (reconcile_scheduled_pool_items svc.unicode svc.words svc.preferences
          svc.memory_cause_inference_enabled svc.fresh_id user_id pool
          (items_of pool.id store.items) (svc.list_due_within_window store (svc.end_utc now) true)
          (svc.list_due_within_window store (svc.end_utc now) false) store).1 in
      synced_view (get_by_local_date (svc.local_date now) store1.pools) store1

  abbrev pub new_word_quota : ℕ → ℕ → ℤ
  new_word_quota due_review short_term =
      if wants_new_words svc.default_set
      then compute_new_word_quota svc.settings.daily_new_word_limit (pos due_review)
          (pos short_term) (compute_weak_slots fl svc.settings.daily_new_word_limit)
      else pos 0

  -- The pool with its rows, once the new words are found. `none` is an error.
  abbrev pub create_pool_with_items :
      List (UserWordState F)
      → List (UserWordState F)
      → List (UserWordState F)
      → Generation F
      → Store F
      → Option (DailyPoolView F) × Store F
  create_pool_with_items short review weak (exhausted e) store = (none, store)
  create_pool_with_items short review weak unconfigured store = (none, store)
  create_pool_with_items short review weak (generated n) store =
      let id = svc.fresh_pool_id store.pools in
      let pool : DailyLearningPool = record {
        id = id;
        user_id = user_id;
        local_date = svc.local_date now;
        timezone = svc.settings.timezone;
        topic = topic_for_date (svc.civil_day now);
        due_review_count = length review;
        short_term_count = length short;
        weak_count = length weak;
        new_count = length n.words;
        word_set_id = none;
        generated_at = now;
        created_at = now;
        updated_at = now;
      } in
      let rows =
        insert_pool_items svc.fresh_id id
          (pool_items svc.unicode svc.words svc.preferences user_id
            svc.memory_cause_inference_enabled short review weak n.words)
          store.items in
      (
        some (record { pool = pool; items = items_of id rows }),
        record store {
          items = rows;
          pools = store.pools ++ (pool ∷ []);
          events = pool_generated_event user_id now ∷ store.events;
        },
      )

  -- For a day without a pool; its reviews seed the choice of new words.
  unfoldable pub create_daily_pool : Store F → Option (DailyPoolView F) × Store F
  unfolding build_review_items cap_listening_review_items generate_new_words topic_for_date
      pool_items compute_weak_slots compute_new_word_quota
  create_daily_pool store =
      let short = svc.list_due_within_window store (svc.end_utc now) true in
      let review = svc.list_due_within_window store (svc.end_utc now) false in
      let weak =
        svc.list_weak_candidates store
          (map (λ (st : UserWordState F). st.word_id) (short ++ review))
          (compute_weak_slots fl svc.settings.daily_new_word_limit) in
      let build = λ (states : List (UserWordState F)) (item_type : PoolItemType).
        build_review_items svc.unicode svc.words svc.preferences user_id nil_uuid states item_type
          svc.memory_cause_inference_enabled in
      let items =
        cap_listening_review_items svc.unicode (λ (id : Uuid). (svc.preferences id).enabled_modes)
          ((build short PoolItemType.short_term ++ build review PoolItemType.review)
            ++ build weak PoolItemType.weak)
          daily_listening_item_limit in
      create_pool_with_items short review weak
        (generate_new_words svc.unicode (svc.source store) svc.settings.cefr_level
          (codes (topic_for_date (svc.civil_day now)))
          (new_word_quota (length review) (length short)) items now)
        store

  abbrev pub daily_pool_from :
      Option DailyLearningPool → Store F → Option (DailyPoolView F) × Store F
  daily_pool_from none store = create_daily_pool store
  daily_pool_from (some pool) store = refresh_daily_pool pool store

  unfoldable pub get_or_create_daily_pool : Store F → Option (DailyPoolView F) × Store F
  unfolding delete_pending_items_before_local_date create_daily_pool refresh_daily_pool
  get_or_create_daily_pool store =
      let date = svc.local_date now in
      let store1 = delete_pending_items_before_local_date svc date store in
      daily_pool_from (get_by_local_date date store1.pools) store1

  abbrev pub of_buffered : Buffered F → Store F → Option (UnknownDailyBufferMutation F) × Store F
  of_buffered failed store = (none, store)
  of_buffered (done mutation after) store = (some mutation, after)

  abbrev pub maintain_view :
      Option (DailyPoolView F) × Store F → Option (UnknownDailyBufferMutation F) × Store F
  maintain_view (none, store) = (none, store)
  maintain_view (some view, store) =
      of_buffered
        (maintain_new_word_buffer svc.unicode (svc.source store) svc.fresh_id svc.settings
          svc.default_set user_id view.pool view.items now store)
        store

  -- `MaintainNewWordBuffer`; `none` is an error.
  unfoldable pub maintain_daily_buffer : Store F → Option (UnknownDailyBufferMutation F) × Store F
  unfolding get_or_create_daily_pool maintain_new_word_buffer
  maintain_daily_buffer store = maintain_view (get_or_create_daily_pool store)
