-- ===== src/Pool/Daily/View.antt =====
-- GetOrCreateDailyPool leaves a completed item as it is.
use wordbit_advanced.Prelude.{
  map, ◌≡◌, refl, Bool, true, false, not, ◌&&◌, Option, none, some, List, [], ◌∷◌, ◌++◌, ◌==◌,
  nat_eq, length, All, if_elim, ℤ, pos, ltb_ℤ, codes, count_if, ◌-ℤ◌,
}
use wordbit_advanced.Float64.{Float64}
use wordbit_advanced.Domain.{
  Time, Uuid, nil_uuid, UserWordState, DailyLearningPool, DailyLearningPoolItem, PoolItemType,
  ReviewMode, mode_eq,
}
use wordbit_advanced.Normalization.{Unicode}
use wordbit_advanced.ReviewModes.{
  cap_listening_review_items, ReviewModePreferences, daily_listening_item_limit,
}
use wordbit_advanced.Generation.Source.{
  generate_new_words, Generation, generated, exhausted, unconfigured,
}
use wordbit_advanced.Learning.Store.{Store, find_item, get_by_local_date, get_last_ordinal}
use wordbit_advanced.Scheduling.Quotas.{compute_weak_slots}
use wordbit_advanced.Pool.{build_review_items, pool_items}
use wordbit_advanced.Pool.Sync.{
  sync_with, sync_item, sync_from, sync_pending_pool_items, awaits_review, within_budget,
  synced_item, has_changed, is_heard,
}
use wordbit_advanced.Pool.Reconcile.{
  reconcile_scheduled_pool_items, scheduled_keys, filter_missing_scheduled_states, missing_items,
  add_missing, is_empty_list,
}
use wordbit_advanced.Pool.Reconcile.Keys.{items_of}
use wordbit_advanced.Pool.DailyRows.{
  topic_for_date, DailyPoolService, insert_pool_items, delete_pending_items_before_local_date,
  is_stale,
}
use wordbit_advanced.Pool.Daily.{
  new_word_quota, DailyPoolView, synced_view, refresh_daily_pool, create_pool_with_items,
  create_daily_pool, daily_pool_from, get_or_create_daily_pool,
}
use wordbit_advanced.Pool.Daily.Rows.{
  IsDone, IsKept, keep_if-All, keep_if-IsKept, write_synced-IsKept, insert_pool_items-IsKept,
  append_pool_items-IsKept,
}

module _ {F : Type 0} ⦃fl : Float64 F⦄ (id : Uuid) (u : Unicode) (inference : Bool)
    (states : Uuid → Option (UserWordState F)) (preferences : Uuid → ReviewModePreferences) where
  within_budget-IsDone :
      (budget : ℤ) (p : ReviewModePreferences) (x : DailyLearningPoolItem F)
      → IsDone id x
      → IsDone id (within_budget u inference budget p x).0
  within_budget-IsDone budget p x h =
      let P = λ (r : DailyLearningPoolItem F × ℤ). IsDone id r.0 in
      if_elim P (x.review_mode == ReviewMode.listening)
        (λ _. if_elim P (ltb_ℤ (pos 0) budget) (λ _. h) (λ _. h)) (λ _. h)

  sync_with-IsDone :
      (budget : ℤ) (x : DailyLearningPoolItem F) (o : Option (UserWordState F))
      → IsDone id x
      → IsDone id (sync_with u inference states preferences budget x o).0
  unfolding synced_item
  sync_with-IsDone budget x none h = h
  sync_with-IsDone budget x (some st) h =
      let p = preferences x.word_id in
      let r = within_budget u inference budget p (synced_item u inference x st p) in
      let chosen = within_budget-IsDone budget p (synced_item u inference x st p) h in
      if_elim (IsDone id) (has_changed u inference r.0 x st) (λ _. chosen) (λ _. h)

  sync_from-IsDone :
      (budget : ℤ) (items : List (DailyLearningPoolItem F))
      → All (IsDone id) items
      → All (IsDone id) (sync_from u inference states preferences budget items)
  unfolding sync_from sync_item
  sync_from-IsDone budget [] all = tt
  sync_from-IsDone budget (x ∷ items) (h, all) =
      let r = sync_item u inference states preferences budget x in
      let kept : IsDone id r.0 =
        if_elim (λ (y : DailyLearningPoolItem F × ℤ). IsDone id y.0) (awaits_review x)
          (λ _. sync_with-IsDone budget x (states x.word_id) h) (λ _. h) in
      (kept, sync_from-IsDone r.1 items all)

module _ {F : Type 0} ⦃fl : Float64 F⦄ (svc : DailyPoolService F) (user_id : Uuid) (now : Time)
    (unused : (items : List (DailyLearningPoolItem F))
      → find_item items (svc.fresh_id items) ≡ none)
    (id : Uuid) (item : DailyLearningPoolItem F) where
  abbrev pub ItemsDone : Option (DailyPoolView F) → Type 0
  ItemsDone none = Unit
  ItemsDone (some view) = All (IsDone id) view.items

  -- The rows keep the item, and no item of the view that waits has its identifier.
  abbrev pub IsView : Option (DailyPoolView F) × Store F → Type 0
  IsView (o, store) = IsKept id item store.items × ItemsDone o

  items_of-IsDone :
      (pool_id : Uuid) (items : List (DailyLearningPoolItem F))
      → All (IsDone id) items
      → All (IsDone id) (items_of pool_id items)
  items_of-IsDone pool_id items all = keep_if-All (IsDone id) _ items all

  synced_view-IsView :
      (o : Option DailyLearningPool) (store : Store F)
      → IsKept id item store.items
      → IsView (synced_view svc user_id now o store)
  unfolding sync_pending_pool_items
  synced_view-IsView none store kept = (kept, tt)
  synced_view-IsView (some pool) store kept =
      let items = items_of pool.id store.items in
      let synced =
        sync_pending_pool_items svc.unicode svc.memory_cause_inference_enabled store.states
          svc.preferences items in
      (
        write_synced-IsKept id item synced store.items kept,
        sync_from-IsDone id svc.unicode svc.memory_cause_inference_enabled store.states
            svc.preferences (pos daily_listening_item_limit -ℤ pos (count_if is_heard_here items))
            items (items_of-IsDone pool.id store.items kept.all_done),
      )
    where
      is_heard_here : DailyLearningPoolItem F → Bool
      is_heard_here =
          is_heard svc.unicode svc.memory_cause_inference_enabled store.states svc.preferences

  abbrev reconciled :
      DailyLearningPool
      → List (DailyLearningPoolItem F)
      → List (UserWordState F)
      → List (UserWordState F)
      → Store F
      → Bool × Store F
  reconciled pool items short review store =
      reconcile_scheduled_pool_items svc.unicode svc.words svc.preferences
        svc.memory_cause_inference_enabled svc.fresh_id user_id pool items short review store

  reconcile-IsKept :
      (pool : DailyLearningPool) (items : List (DailyLearningPoolItem F))
      (short_states review_states : List (UserWordState F)) (store : Store F)
      → IsKept id item store.items
      → IsKept id item (reconciled pool items short_states review_states store).1.items
  unfolding reconcile_scheduled_pool_items
  reconcile-IsKept pool items short_states review_states store kept =
      let existing = scheduled_keys items in
      let short = filter_missing_scheduled_states short_states PoolItemType.short_term existing in
      let review = filter_missing_scheduled_states review_states PoolItemType.review existing in
      let new =
        missing_items svc.unicode svc.words svc.preferences svc.memory_cause_inference_enabled
          svc.fresh_id user_id pool.id short review in
      let last = get_last_ordinal pool.id store.items in
      let added =
        add_missing svc.unicode svc.words svc.preferences svc.memory_cause_inference_enabled
          svc.fresh_id user_id pool short review store in
      if_elim (λ (r : Bool × Store F). IsKept id item r.1.items)
        (is_empty_list short && is_empty_list review) {x = (false, store)} {y = (true, added)}
        (λ _. kept) (λ _. append_pool_items-IsKept id item svc.fresh_id unused last new store kept)

  refresh-IsView :
      (pool : DailyLearningPool) (store : Store F)
      → IsKept id item store.items
      → IsView (refresh_daily_pool svc user_id now pool store)
  unfolding refresh_daily_pool
  refresh-IsView pool store kept =
      let items = items_of pool.id store.items in
      let short = svc.list_due_within_window store (svc.end_utc now) true in
      let review = svc.list_due_within_window store (svc.end_utc now) false in
      let store1 = (reconciled pool items short review store).1 in
      synced_view-IsView (get_by_local_date (svc.local_date now) store1.pools) store1
        (reconcile-IsKept pool items short review store kept)

  created-IsView :
      (short review weak : List (UserWordState F)) (g : Generation F) (store : Store F)
      → IsKept id item store.items
      → IsView (create_pool_with_items svc user_id now short review weak g store)
  created-IsView short review weak (exhausted e) store kept = (kept, tt)
  created-IsView short review weak unconfigured store kept = (kept, tt)
  created-IsView short review weak (generated n) store kept =
      let pool_id = svc.fresh_pool_id store.pools in
      let new =
        pool_items svc.unicode svc.words svc.preferences user_id svc.memory_cause_inference_enabled
          short review weak n.words in
      let rows =
        insert_pool_items-IsKept id item svc.fresh_id unused pool_id new store.items kept in
      (
        rows,
        items_of-IsDone pool_id (insert_pool_items svc.fresh_id pool_id new store.items)
            rows.all_done,
      )

  create-IsView :
      (store : Store F)
      → IsKept id item store.items
      → IsView (create_daily_pool svc user_id now store)
  unfolding create_daily_pool
  create-IsView store kept =
      let short = svc.list_due_within_window store (svc.end_utc now) true in
      let review = svc.list_due_within_window store (svc.end_utc now) false in
      let weak =
        svc.list_weak_candidates store
          (map (λ (st : UserWordState F). st.word_id) (short ++ review))
          (compute_weak_slots fl svc.settings.daily_new_word_limit) in
      let build = λ (states : List (UserWordState F)) (item_type : PoolItemType).
        build_review_items svc.unicode svc.words svc.preferences user_id nil_uuid states item_type
          svc.memory_cause_inference_enabled in
      let items =
        cap_listening_review_items svc.unicode (λ (w : Uuid). (svc.preferences w).enabled_modes)
          ((build short PoolItemType.short_term ++ build review PoolItemType.review)
            ++ build weak PoolItemType.weak)
          daily_listening_item_limit in
      created-IsView short review weak
        (generate_new_words svc.unicode (svc.source store) svc.settings.cefr_level
          (codes (topic_for_date (svc.civil_day now)))
          (new_word_quota svc user_id now (length review) (length short)) items now)
        store kept

  pub daily_pool-IsView :
      (store : Store F)
      → IsKept id item store.items
      → IsView (get_or_create_daily_pool svc user_id now store)
  unfolding get_or_create_daily_pool delete_pending_items_before_local_date create_daily_pool
  daily_pool-IsView store kept =
      let date = svc.local_date now in
      let store1 = delete_pending_items_before_local_date svc date store in
      let kept1 =
        keep_if-IsKept id item (λ x. not (is_stale svc date store.pools x)) store.items
          (λ x closed. rw closed refl) kept in
      of_pool (get_by_local_date date store1.pools) store1 kept1
    where
      of_pool :
          (o : Option DailyLearningPool) (store : Store F)
          → IsKept id item store.items
          → IsView (daily_pool_from svc user_id now o store)
      of_pool none store kept = create-IsView store kept
      of_pool (some pool) store kept = refresh-IsView pool store kept
