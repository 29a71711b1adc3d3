-- ===== src/Pool/Practice.antt =====
-- internal/service/pool_service.go: the states that bonus practice takes, and the items for them. The statements that
-- list states are the record StateRows, whose rows are read without their set, and the order of sort.Slice among
-- equals is its field; identifiers are numbers in the order of their spellings.
pub mod Limited
use wordbit_advanced.Prelude.{
  ℕ, zero, suc, ◌+◌, ◌-◌, ◌*◌, Bool, true, false, not, ◌&&◌, ◌||◌, Option, none, some, List, [],
  ◌∷◌, ◌++◌, map, nat_eq, nat_beq, ltb, leb, ◌==◌, if◌then◌else◌, length, take, contains, keep_if,
  ℤ, pos, max_int, pos_part,
}
use wordbit_advanced.Float64.{Float64}
use wordbit_advanced.Domain.{
  Time, Uuid, WordStatus, WordSet, Word, UserSettings, UserWordState, DailyLearningPool,
  DailyLearningPoolItem,
}
use wordbit_advanced.Normalization.{Unicode}
use wordbit_advanced.ReviewModes.{ReviewModePreferences}
use wordbit_advanced.Scheduling.Quotas.{compute_weak_slots}
use wordbit_advanced.Pool.{build_bonus_practice_items}
use wordbit_advanced.Pool.Reconcile.{append_pool_items}
use wordbit_advanced.Learning.Store.{Store, get_last_ordinal}

-- The rows that the selection reads: `ListWeakCandidates`, `ListExistingWords` and `Get`.
pub record StateRows (F : Type 0) : Type 0 where
  pub list_weak_candidates : List Uuid → ℕ → List (UserWordState F)
  pub list_existing_words : List (UserWordState F)
  pub get : Uuid → Option (UserWordState F)
  pub sort_slice :
      (UserWordState F → UserWordState F → Bool) → List (UserWordState F) → List (UserWordState F)

-- `bonusPracticeHistoryEntry` by the word, the words in the order of their first item.
abbrev pub BonusPracticeHistory : Type 0
BonusPracticeHistory = List (Uuid × ℕ)

abbrev pub latest_ordinal : Uuid → BonusPracticeHistory → ℕ
latest_ordinal id [] = 0
latest_ordinal id ((w, n) ∷ history) = if w == id then n else latest_ordinal id history

abbrev pub add_ordinal : Uuid → ℕ → BonusPracticeHistory → BonusPracticeHistory
add_ordinal id ordinal [] = (id, ordinal) ∷ []
add_ordinal id ordinal ((w, n) ∷ history) =
    let rest = add_ordinal id ordinal history in
    if w == id then (w, if ltb n ordinal then ordinal else n) ∷ history else (w, n) ∷ rest

abbrev pub history_word_ids : BonusPracticeHistory → List Uuid
history_word_ids history = map (λ (e : Uuid × ℕ). e.0) history

-- Learning or review
abbrev pub is_practised : WordStatus → Bool
is_practised WordStatus.learning = true
is_practised WordStatus.review = true
is_practised WordStatus.known = false

abbrev pub in_set : Option Uuid → WordSet → Bool
in_set none set = set.is_default
in_set (some id) set = id == set.id

-- `maxInt(limit*4, limit+5)`
abbrev pub fetch_limit : Option WordSet → ℕ → ℕ
fetch_limit none limit = limit
fetch_limit (some set) limit = if ltb (limit * 4) (limit + 5) then limit + 5 else limit * 4

abbrev pub due_first : Option Time → Option Time → Bool → Bool
due_first none none tie = tie
due_first none (some r) tie = false
due_first (some l) none tie = true
due_first (some l) (some r) tie = if nat_beq l r then tie else ltb l r

module _ {F : Type 0} where
  -- The columns that a state is read from have no `word_set_id`.
  abbrev pub read_row : UserWordState F → UserWordState F
  read_row row = record row { word_set_id = none }

  abbrev pub read_found : Option (UserWordState F) → Option (UserWordState F)
  read_found none = none
  read_found (some row) = some (read_row row)

  unfoldable pub state_matches_active_set : UserWordState F → Option WordSet → Bool
  state_matches_active_set st none = true
  state_matches_active_set st (some set) = in_set st.word_set_id set

  unfoldable pub filter_states_by_active_set :
      List (UserWordState F) → Option WordSet → List (UserWordState F)
  unfolding state_matches_active_set
  filter_states_by_active_set states none = states
  filter_states_by_active_set states (some set) =
      keep_if (λ st. state_matches_active_set st (some set)) states

  abbrev pub history_from :
      BonusPracticeHistory → List (DailyLearningPoolItem F) → BonusPracticeHistory
  history_from history [] = history
  history_from history (item ∷ items) =
      history_from
        (if item.bonus_practice then add_ordinal item.word_id item.ordinal history else history)
        items

  unfoldable pub extract_bonus_practice_history :
      List (DailyLearningPoolItem F) → BonusPracticeHistory
  extract_bonus_practice_history items = history_from [] items

  abbrev pub word_ids_of : List (UserWordState F) → List Uuid
  word_ids_of states = map (λ st. st.word_id) states

  abbrev pub item_word_ids : List (DailyLearningPoolItem F) → List Uuid
  item_word_ids items = map (λ item. item.word_id) items

  -- The tests of both loops over candidates
  abbrev pub is_candidate : Option WordSet → List Uuid → UserWordState F → Bool
  is_candidate active excluded st =
      not (contains excluded st.word_id)
      && (is_practised st.status && state_matches_active_set st active)

  abbrev pub and_found : Option (UserWordState F) → List (UserWordState F) → List (UserWordState F)
  and_found none rest = rest
  and_found (some st) rest = st ∷ rest

  abbrev pub found_states :
      (Uuid → Option (UserWordState F)) → List Uuid → List Uuid → List (UserWordState F)
  found_states get excluded [] = []
  found_states get excluded (id ∷ ids) =
      let rest = found_states get excluded ids in
      if contains excluded id then rest else and_found (get id) rest

module _ {F : Type 0} ⦃fl : Float64 F⦄ where
  -- The orders of listSetCramCandidates and of recycleBonusPracticeCandidates
  unfoldable pub crams_before : UserWordState F → UserWordState F → Bool
  crams_before a b =
      if not (fl.beq a.weakness_score b.weakness_score)
      then fl.lt b.weakness_score a.weakness_score
      else due_first a.next_review_at b.next_review_at (ltb a.word_id b.word_id)

  unfoldable pub recycles_before : BonusPracticeHistory → UserWordState F → UserWordState F → Bool
  recycles_before history a b =
      let left = latest_ordinal a.word_id history in
      let right = latest_ordinal b.word_id history in
      if not (left == right)
      then ltb left right
      else if not (fl.beq a.weakness_score b.weakness_score)
      then fl.lt b.weakness_score a.weakness_score
      else ltb a.word_id b.word_id

module _ {F : Type 0} ⦃fl : Float64 F⦄ (rows : StateRows F) (active : Option WordSet) where
  unfoldable pub list_set_cram_candidates : List Uuid → ℕ → List (UserWordState F)
  unfolding crams_before state_matches_active_set
  list_set_cram_candidates excluded limit = take limit (
      rows.sort_slice crams_before
        (keep_if (is_candidate active excluded) (map read_row rows.list_existing_words)))

  unfoldable pub recycle_bonus_practice_candidates :
      BonusPracticeHistory → List Uuid → ℕ → List (UserWordState F)
  unfolding recycles_before state_matches_active_set
  recycle_bonus_practice_candidates history excluded limit = take limit (
      rows.sort_slice (recycles_before history) (
        keep_if (is_candidate active [])
          (found_states (λ id. read_found (rows.get id)) excluded (history_word_ids history))))

  -- The candidates of the set, for what is still missing.
  abbrev pub with_cram :
      Option WordSet
      → List (DailyLearningPoolItem F)
      → ℕ
      → List (UserWordState F)
      → List (UserWordState F)
  with_cram none items limit collected = collected
  with_cram (some set) items limit collected =
      if leb limit (length collected)
      then collected
      else collected
        ++ list_set_cram_candidates (word_ids_of collected ++ item_word_ids items)
            (limit - length collected)

  unfoldable pub list_bonus_practice_candidates :
      List (DailyLearningPoolItem F) → ℕ → List (UserWordState F)
  unfolding extract_bonus_practice_history filter_states_by_active_set
      recycle_bonus_practice_candidates list_set_cram_candidates
  list_bonus_practice_candidates items limit =
      let history = extract_bonus_practice_history items in
      let fresh =
        filter_states_by_active_set
          (map read_row
            (rows.list_weak_candidates (history_word_ids history) (fetch_limit active limit)))
          active in
      let recycled =
        recycle_bonus_practice_candidates history (word_ids_of fresh) (limit - length fresh) in
      if leb limit (length fresh)
      then take limit fresh
      else with_cram active items limit (fresh ++ recycled)

-- `IncrementWeakCount`
abbrev pub increment_weak_count : Uuid → ℕ → DailyLearningPool → DailyLearningPool
increment_weak_count id delta pool =
    if pool.id == id then record pool { weak_count = pool.weak_count + delta } else pool

module _ {F : Type 0} ⦃fl : Float64 F⦄ (u : Unicode) (words : Uuid → Word F)
    (preferences : Uuid → ReviewModePreferences) (inference : Bool)
    (new_id : List (DailyLearningPoolItem F) → Uuid) where
  abbrev pub practice_limit : UserSettings → ℕ
  practice_limit settings =
      pos_part (max_int (compute_weak_slots fl settings.daily_new_word_limit) (pos 1))

  abbrev pub add_practice :
      Uuid → DailyLearningPool → List (UserWordState F) → Store F → Bool × Store F
  add_practice user_id pool [] store = (false, store)
  add_practice user_id pool (st ∷ states) store =
      let items =
        build_bonus_practice_items u words preferences user_id pool.id (st ∷ states) inference in
      let added = append_pool_items new_id (get_last_ordinal pool.id store.items) items store in
      (true, record added { pools = map (increment_weak_count pool.id (length items)) added.pools })

  unfoldable pub replenish_bonus_practice_items :
      StateRows F
      → Option WordSet
      → UserSettings
      → Uuid
      → DailyLearningPool
      → List (DailyLearningPoolItem F)
      → Store F
      → Bool × Store F
  unfolding list_bonus_practice_candidates build_bonus_practice_items append_pool_items
      compute_weak_slots
  replenish_bonus_practice_items rows active settings user_id pool items store =
      add_practice user_id pool
        (list_bonus_practice_candidates rows active items (practice_limit settings)) store
