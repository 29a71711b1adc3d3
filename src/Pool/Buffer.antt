-- ===== src/Pool/Buffer.antt =====
-- internal/service/pool_service.go: the new words that wait in a day's pool, topped up when none is
-- left and removed when the day's limit is reached.
pub mod Emptied
use wordbit_advanced.Prelude.{
  ℕ, ◌+◌, ◌*◌, Bool, true, false, not, ◌&&◌, ◌||◌, Option, none, some, List, [], ◌∷◌, ◌++◌, map,
  codes, nat_eq, ◌==◌, if◌then◌else◌, length, nat_beq, ltb, ℤ, pos, leb_ℤ, ltb_ℤ,
}
use wordbit_advanced.Float64.{Float64}
use wordbit_advanced.Domain.{
  Time, Uuid, nil_uuid, WordStatus, PoolItemType, UserSettings, WordSet, UserWordState,
  DailyLearningPool, DailyLearningPoolItem, type_eq, is_pending,
}
use wordbit_advanced.Normalization.{Unicode}
use wordbit_advanced.Scheduling.Quotas.{compute_new_word_prefetch_batch_size}
use wordbit_advanced.Generation.Select.{WordSource}
use wordbit_advanced.Generation.Source.{
  Generation, generated, exhausted, unconfigured, generate_new_words,
}
use wordbit_advanced.Pool.{build_new_items}
use wordbit_advanced.Pool.Reconcile.{append_pool_items}
use wordbit_advanced.Learning.Store.{
  Store, get_last_ordinal, delete_pool_items, increment_new_count,
}

pub record NewWordBufferState (F : Type 0) : Type 0 where
  pub daily_limit : ℤ
  pub prefetch_batch_size : ℤ
  pub learned_new_count : ℕ
  pub pending_new_items : List (DailyLearningPoolItem F)

pub record UnknownDailyBufferMutation (F : Type 0) : Type 0 where
  pub created_item_ids : List Uuid
  pub deleted_pending_new_items : List (DailyLearningPoolItem F)

-- A result, with the rows after it, or an error, which comes before any row of the pool is written.
pub data Buffered (F : Type 0) : Type 0 where
  done : UnknownDailyBufferMutation F → Store F → Buffered F
  failed : Buffered F

abbrev pub no_mutation : {F : Type 0} → UnknownDailyBufferMutation F
no_mutation = record { created_item_ids = []; deleted_pending_new_items = [] }

abbrev pub is_known : WordStatus → Bool
is_known WordStatus.known = true
is_known WordStatus.learning = false
is_known WordStatus.review = false

-- `stateRepo.Get` and the test of the status
abbrev pub learned : {F : Type 0} → Option (UserWordState F) → ℕ
learned none = 0
learned (some st) = if is_known st.status then 0 else 1

abbrev pub is_new_item : {F : Type 0} → DailyLearningPoolItem F → Bool
is_new_item item = item.item_type == PoolItemType.new

module _ {F : Type 0} where
  unfoldable pub pending_new : List (DailyLearningPoolItem F) → List (DailyLearningPoolItem F)
  pending_new [] = []
  pending_new (item ∷ items) =
      let rest = pending_new items in
      if is_new_item item && is_pending item.status then item ∷ rest else rest

  unfoldable pub count_learned_new :
      (Uuid → Option (UserWordState F)) → List (DailyLearningPoolItem F) → ℕ
  count_learned_new states [] = 0
  count_learned_new states (item ∷ items) =
      let rest = count_learned_new states items in
      if is_new_item item && not (is_pending item.status)
      then learned (states item.word_id) + rest
      else rest

  unfoldable pub inspect_new_word_buffer_state :
      ℤ → ℤ → List (DailyLearningPoolItem F) → Store F → NewWordBufferState F
  unfolding pending_new count_learned_new
  inspect_new_word_buffer_state daily_limit prefetch_batch_size items store = record {
    daily_limit = daily_limit;
    prefetch_batch_size = prefetch_batch_size;
    learned_new_count = count_learned_new store.states items;
    pending_new_items = pending_new items;
  }

  unfoldable pub extract_pool_item_ids : List (DailyLearningPoolItem F) → List Uuid
  extract_pool_item_ids [] = []
  extract_pool_item_ids (item ∷ items) =
      let rest = extract_pool_item_ids items in if item.id == nil_uuid then rest else item.id ∷ rest

  -- The state of the buffer under the limits of `effectiveNewWordBufferLimits`, which does not look at the pool.
  abbrev pub buffer_of :
      UserSettings → List (DailyLearningPoolItem F) → Store F → NewWordBufferState F
  buffer_of settings items store =
      inspect_new_word_buffer_state settings.daily_new_word_limit
        (compute_new_word_prefetch_batch_size settings.daily_new_word_limit) items store

  unfoldable pub reconcile_unknown_daily_buffer :
      UserSettings
      → List (DailyLearningPoolItem F)
      → Store F
      → UnknownDailyBufferMutation F × Store F
  unfolding inspect_new_word_buffer_state extract_pool_item_ids delete_pool_items
      compute_new_word_prefetch_batch_size
  reconcile_unknown_daily_buffer settings items store =
      let b = buffer_of settings items store in
      if leb_ℤ b.daily_limit (pos 0)
        || (ltb_ℤ (pos b.learned_new_count) b.daily_limit || nat_beq (length b.pending_new_items) 0)
      then (no_mutation, store)
      else (
        record { created_item_ids = []; deleted_pending_new_items = b.pending_new_items },
        delete_pool_items (extract_pool_item_ids b.pending_new_items) store,
      )

-- Without the service of word sets, or with a default set that wants new words.
abbrev pub wants_new_words : Option WordSet → Bool
wants_new_words none = true
wants_new_words (some set) = set.auto_generate_new_words

module _ {F : Type 0} ⦃fl : Float64 F⦄ (u : Unicode) (source : WordSource F)
    (new_id : List (DailyLearningPoolItem F) → Uuid) where
  abbrev pub has_no_words : Generation F → Bool
  has_no_words (generated n) = nat_beq (length n.words) 0
  has_no_words g = true

  abbrev pub appended_ids : Store F → Store F → List Uuid
  appended_ids before after = new_ids before.items after.items
    where
      new_ids : List (DailyLearningPoolItem F) → List (DailyLearningPoolItem F) → List Uuid
      new_ids [] rest = map (λ item. item.id) rest
      new_ids (x ∷ old) [] = []
      new_ids (x ∷ old) (y ∷ rest) = new_ids old rest

  -- The new words as items of the pool.
  abbrev pub add_new_words : Uuid → DailyLearningPool → Generation F → Store F → Buffered F
  add_new_words user_id pool (generated n) store =
      let added =
        append_pool_items new_id (get_last_ordinal pool.id store.items)
          (build_new_items user_id pool.id n.words) store in
      if nat_beq (length n.words) 0
      then failed
      else done
          (record { created_item_ids = appended_ids store added; deleted_pending_new_items = [] })
          (record added { pools = map (increment_new_count pool.id (length n.words)) added.pools })
  add_new_words user_id pool (exhausted e) store = failed
  add_new_words user_id pool unconfigured store = failed

  unfoldable pub replenish_unknown_daily_slots :
      UserSettings
      → Option WordSet
      → Uuid
      → DailyLearningPool
      → List (DailyLearningPoolItem F)
      → Time
      → Store F
      → Buffered F
  unfolding inspect_new_word_buffer_state generate_new_words append_pool_items build_new_items
      compute_new_word_prefetch_batch_size
  replenish_unknown_daily_slots settings default_set user_id pool items now store =
      let b = buffer_of settings items store in
      if not (wants_new_words default_set)
        || (leb_ℤ b.prefetch_batch_size (pos 0)
            || (leb_ℤ b.daily_limit (pos b.learned_new_count)
                || ltb 0 (length b.pending_new_items)))
      then done no_mutation store
      else add_new_words user_id pool
          (generate_new_words u source settings.cefr_level (codes pool.topic) b.prefetch_batch_size
            items now)
          store

  abbrev pub as_buffered : UnknownDailyBufferMutation F × Store F → Buffered F
  as_buffered (m, store) = done m store

  unfoldable pub maintain_new_word_buffer :
      UserSettings
      → Option WordSet
      → Uuid
      → DailyLearningPool
      → List (DailyLearningPoolItem F)
      → Time
      → Store F
      → Buffered F
  unfolding inspect_new_word_buffer_state reconcile_unknown_daily_buffer
      replenish_unknown_daily_slots compute_new_word_prefetch_batch_size
  maintain_new_word_buffer settings default_set user_id pool items now store =
      let b = buffer_of settings items store in
      if leb_ℤ b.daily_limit (pos 0) || leb_ℤ b.daily_limit (pos b.learned_new_count)
      then as_buffered (reconcile_unknown_daily_buffer settings items store)
      else if leb_ℤ b.prefetch_batch_size (pos 0) || ltb 0 (length b.pending_new_items)
      then done no_mutation store
      else replenish_unknown_daily_slots settings default_set user_id pool items now store
