-- ===== src/Pool/Reconcile.antt =====
-- internal/service/pool_service.go, reconcileScheduledPoolItems: the words that have come due since a
-- pool was made join it. The database gives each new row an identifier that no row has.
pub mod Keys
pub mod Complete
use wordbit_advanced.Prelude.{
  ℕ, ◌+◌, ◌-◌, Bool, true, false, not, ◌&&◌, ◌||◌, Option, none, some, List, [], ◌∷◌, ◌++◌, map,
  nat_eq, ◌==◌, if◌then◌else◌, length, nat_beq,
}
use wordbit_advanced.Float64.{Float64}
use wordbit_advanced.Domain.{
  Uuid, nil_uuid, PoolItemType, UserWordState, DailyLearningPool, DailyLearningPoolItem, Word,
  type_eq,
}
use wordbit_advanced.Normalization.{Unicode}
use wordbit_advanced.ReviewModes.{ReviewModePreferences}
use wordbit_advanced.Pool.{build_review_items}
use wordbit_advanced.Learning.Store.{Store, get_last_ordinal}

-- `scheduledPoolKey`: the identifier and the type, before they are joined by a bar.
abbrev pub ScheduledPoolKey : Type 0
ScheduledPoolKey = Uuid × PoolItemType

abbrev pub same_key : ScheduledPoolKey → ScheduledPoolKey → Bool
same_key (a, s) (b, t) = a == b && s == t

abbrev pub has_key : List ScheduledPoolKey → ScheduledPoolKey → Bool
has_key [] key = false
has_key (k ∷ keys) key = same_key k key || has_key keys key

module _ {F : Type 0} where
  abbrev pub is_scheduled : DailyLearningPoolItem F → Bool
  is_scheduled item =
      item.item_type == PoolItemType.short_term || item.item_type == PoolItemType.review

  unfoldable pub scheduled_keys : List (DailyLearningPoolItem F) → List ScheduledPoolKey
  scheduled_keys [] = []
  scheduled_keys (item ∷ items) =
      let rest = scheduled_keys items in
      if is_scheduled item then (item.word_id, item.item_type) ∷ rest else rest

  unfoldable pub filter_missing_scheduled_states :
      List (UserWordState F) → PoolItemType → List ScheduledPoolKey → List (UserWordState F)
  filter_missing_scheduled_states [] type existing = []
  filter_missing_scheduled_states (st ∷ states) type existing =
      let rest = filter_missing_scheduled_states states type existing in
      if has_key existing (st.word_id, type) then rest else st ∷ rest

  -- `AppendPoolItem`
  abbrev pub append_pool_item :
      (List (DailyLearningPoolItem F) → Uuid) → DailyLearningPoolItem F → Store F → Store F
  append_pool_item new_id item store = record store {
    items = store.items ++ (record item { id = new_id store.items } ∷ []);
  }

  -- The items in turn, with the ordinals after the last one.
  unfoldable pub append_pool_items :
      (List (DailyLearningPoolItem F) → Uuid)
      → ℕ
      → List (DailyLearningPoolItem F)
      → Store F
      → Store F
  append_pool_items new_id last [] store = store
  append_pool_items new_id last (item ∷ items) store =
      append_pool_items new_id (last + 1) items
        (append_pool_item new_id (record item { ordinal = last + 1 }) store)

-- `IncrementScheduledCounts`
abbrev pub increment_scheduled_counts : Uuid → ℕ → ℕ → DailyLearningPool → DailyLearningPool
increment_scheduled_counts id due_review_delta short_term_delta pool =
    if pool.id == id
    then record pool {
      due_review_count = pool.due_review_count + due_review_delta;
      short_term_count = pool.short_term_count + short_term_delta;
    }
    else pool

abbrev pub is_empty_list : {A : Type 0} → List A → Bool
is_empty_list l = nat_beq (length l) 0

module _ {F : Type 0} ⦃fl : Float64 F⦄ (u : Unicode) (words : Uuid → Word F)
    (preferences : Uuid → ReviewModePreferences) (inference : Bool)
    (new_id : List (DailyLearningPoolItem F) → Uuid) where
  -- The items for the missing states, before they get ordinals.
  abbrev pub missing_items :
      Uuid → Uuid → List (UserWordState F) → List (UserWordState F) → List (DailyLearningPoolItem F)
  missing_items user_id pool_id short review =
      build_review_items u words preferences user_id pool_id short PoolItemType.short_term inference
      ++ build_review_items u words preferences user_id pool_id review PoolItemType.review inference

  abbrev pub add_missing :
      Uuid → DailyLearningPool → List (UserWordState F) → List (UserWordState F) → Store F → Store F
  add_missing user_id pool short review store =
      let added =
        append_pool_items new_id (get_last_ordinal pool.id store.items)
          (missing_items user_id pool.id short review) store in
      record added {
        pools = map (increment_scheduled_counts pool.id (length review) (length short)) added.pools;
      }

  -- `items` are the pool's, and the states are those that are due in the window, short-term ones first.
  unfoldable pub reconcile_scheduled_pool_items :
      Uuid
      → DailyLearningPool
      → List (DailyLearningPoolItem F)
      → List (UserWordState F)
      → List (UserWordState F)
      → Store F
      → Bool × Store F
  unfolding scheduled_keys filter_missing_scheduled_states append_pool_items build_review_items
  reconcile_scheduled_pool_items user_id pool items short_term_states review_states store =
      let existing = scheduled_keys items in
      let short =
        filter_missing_scheduled_states short_term_states PoolItemType.short_term existing in
      let review = filter_missing_scheduled_states review_states PoolItemType.review existing in
      if is_empty_list short && is_empty_list review
      then (false, store)
      else (true, add_missing user_id pool short review store)
