-- ===== src/Session/Cards.antt =====
-- internal/service/session_progress.go, internal/service/pool_service.go: the cards that may be shown
-- now, and which of them is.
pub mod Best
pub mod Next
use wordbit_advanced.Prelude.{
  ℕ, ◌+◌, ◌≤◌, Bool, true, false, not, ◌&&◌, ◌||◌, Option, none, some, List, [], ◌∷◌, ltb, leb,
  nat_beq, ◌==◌, if◌then◌else◌, length, contains, String, nat_eq, string_eq, ℤ, pos, leb_ℤ, map,
}
use wordbit_advanced.Domain.{
  Time, Uuid, PoolItemType, DailyLearningPool, DailyLearningPoolItem, type_eq, is_pending,
  is_future, before, after,
}
use wordbit_advanced.Session.Progress.{
  CompletedCardKind, CompleteReason, SessionProgress, is_main_review_item, is_practice_item,
  total_review_practice_items,
}

-- The results -1, 0 and 1 of a comparison.
pub data Sign : Type 0 where
  less equal greater : Sign

abbrev pub is_less : Sign → Bool
is_less Sign.less = true
is_less _ = false

abbrev pub compare_ints : ℕ → ℕ → Sign
compare_ints a b = if ltb a b then Sign.less else if ltb b a then Sign.greater else Sign.equal

abbrev pub pool_item_priority : PoolItemType → ℕ
pool_item_priority PoolItemType.short_term = 0
pool_item_priority PoolItemType.review = 0
pool_item_priority PoolItemType.weak = 1
pool_item_priority PoolItemType.new = 2

abbrev pub compare_pool_item_type_priority : PoolItemType → PoolItemType → Sign
compare_pool_item_type_priority left right =
    compare_ints (pool_item_priority left) (pool_item_priority right)

abbrev pub compare_optional_actionable_due_at : Option Time → Option Time → Sign
compare_optional_actionable_due_at none none = Sign.equal
compare_optional_actionable_due_at none (some r) = Sign.greater
compare_optional_actionable_due_at (some l) none = Sign.less
compare_optional_actionable_due_at (some l) (some r) =
    if before l r then Sign.less else if after l r then Sign.greater else Sign.equal

-- `if diff := first; diff != 0 { return diff }; return second`
abbrev pub or_else : Sign → Sign → Sign
or_else Sign.equal second = second
or_else first second = first

pub record SelectableSessionCandidates (F : Type 0) : Type 0 where
  pub review : List (DailyLearningPoolItem F)
  pub new : List (DailyLearningPoolItem F)
  pub next_due : Option Time

-- `nextDue` after an item that is due later
abbrev pub sooner : Option Time → Option Time → Option Time
sooner due none = due
sooner none next = next
sooner (some due) (some next) = if before due next then some due else some next

abbrev pub new_cap_reached : ℕ → ℤ → Bool
new_cap_reached daily_new_completed limit =
    leb_ℤ (pos 0) limit && leb_ℤ limit (pos daily_new_completed)

-- A card or none, the next due time, and why the session is complete.
pub record NextCard (F : Type 0) : Type 0 where
  pub item : Option (DailyLearningPoolItem F)
  pub next_due : Option Time
  pub reason : CompleteReason

abbrev pub prefers_new : Option CompletedCardKind → Bool
prefers_new (some CompletedCardKind.new_card) = true
prefers_new _ = false

module _ {F : Type 0} where
  abbrev pub compare_actionable_items : DailyLearningPoolItem F → DailyLearningPoolItem F → Sign
  compare_actionable_items left right =
      or_else (compare_optional_actionable_due_at left.due_at right.due_at)
        (compare_ints left.ordinal right.ordinal)

  -- The test of both selection loops.
  abbrev pub comes_first : DailyLearningPoolItem F → DailyLearningPoolItem F → Bool
  comes_first item selected =
      let priority = pool_item_priority item.item_type in
      let selected_priority = pool_item_priority selected.item_type in
      ltb priority selected_priority
      || (nat_beq priority selected_priority && is_less (compare_actionable_items item selected))

  unfoldable pub best_from :
      DailyLearningPoolItem F → List (DailyLearningPoolItem F) → DailyLearningPoolItem F
  best_from selected [] = selected
  best_from selected (item ∷ items) =
      best_from (if comes_first item selected then item else selected) items

  unfoldable pub best_actionable_item :
      List (DailyLearningPoolItem F) → Option (DailyLearningPoolItem F)
  best_actionable_item [] = none
  best_actionable_item (item ∷ items) = some (best_from item items)

  -- The loop, with `nextDue` so far and the answer of `newCapReached`.
  abbrev pub collect :
      List (DailyLearningPoolItem F) → Time → Bool → Option Time → SelectableSessionCandidates F
  collect [] now capped next_due = record { review = []; new = []; next_due = next_due }
  collect (item ∷ items) now capped next_due =
      let later = is_future item.due_at now in
      let rest =
        collect items now capped
          (if is_pending item.status && later then sooner item.due_at next_due else next_due) in
      if not (is_pending item.status)
      then rest
      else if later
      then rest
      else if is_main_review_item item
      then record rest { review = item ∷ rest.review }
      else if item.item_type == PoolItemType.new && not capped
      then record rest { new = item ∷ rest.new }
      else rest

  unfoldable pub collect_selectable_session_candidates :
      List (DailyLearningPoolItem F) → Time → ℕ → ℤ → SelectableSessionCandidates F
  collect_selectable_session_candidates items now daily_new_completed effective_new_limit =
      collect items now (new_cap_reached daily_new_completed effective_new_limit) none

  unfoldable pub collect_selectable_practice_candidates :
      List (DailyLearningPoolItem F) → Time → List (DailyLearningPoolItem F)
  collect_selectable_practice_candidates [] now = []
  collect_selectable_practice_candidates (item ∷ items) now =
      let rest = collect_selectable_practice_candidates items now in
      if not (is_pending item.status)
      then rest
      else if is_future item.due_at now
      then rest
      else if is_practice_item item
      then item ∷ rest
      else rest

  -- The size of the set of the words of the items.
  abbrev pub add_words : List (DailyLearningPoolItem F) → List Uuid → List Uuid
  add_words [] seen = seen
  add_words (item ∷ items) seen =
      add_words items (if contains seen item.word_id then seen else item.word_id ∷ seen)

  unfoldable pub actionable_items_remaining : List (DailyLearningPoolItem F) → Time → ℕ → ℤ → ℕ
  unfolding collect_selectable_session_candidates
  actionable_items_remaining items now daily_new_completed effective_new_limit =
      let candidates =
        collect_selectable_session_candidates items now daily_new_completed effective_new_limit in
      length (add_words candidates.new (add_words candidates.review []))

  unfoldable pub practice_items_remaining : List (DailyLearningPoolItem F) → Time → ℕ
  unfolding collect_selectable_practice_candidates
  practice_items_remaining items now =
      length (add_words (collect_selectable_practice_candidates items now) [])

  -- The first candidate if there is one, or the second, or the time to wait for.
  abbrev pub first_of :
      Option (DailyLearningPoolItem F) → Option (DailyLearningPoolItem F) → Option Time → NextCard F
  first_of (some item) second due = record {
    item = some item;
    next_due = none;
    reason = CompleteReason.unfinished;
  }
  first_of none (some item) due = record {
    item = some item;
    next_due = none;
    reason = CompleteReason.unfinished;
  }
  first_of none none due = record {
    item = none;
    next_due = due;
    reason = CompleteReason.unfinished;
  }

  unfoldable pub find_next_card_for_session :
      List (DailyLearningPoolItem F) → Time → SessionProgress → ℤ → NextCard F
  unfolding collect_selectable_session_candidates best_actionable_item
  find_next_card_for_session items now progress effective_new_limit =
      let candidates =
        collect_selectable_session_candidates items now progress.daily_new_completed
          effective_new_limit in
      let review_candidate = best_actionable_item candidates.review in
      let new_candidate = best_actionable_item candidates.new in
      if progress.session_complete
      then record { item = none; next_due = none; reason = progress.session_complete_reason }
      else if progress.session_id == ""
      then first_of review_candidate new_candidate candidates.next_due
      else if prefers_new progress.preferred_kind
      then first_of new_candidate review_candidate candidates.next_due
      else first_of review_candidate new_candidate candidates.next_due

  unfoldable pub find_next_practice_card_for_session :
      List (DailyLearningPoolItem F)
      → Time
      → SessionProgress
      → Option (DailyLearningPoolItem F) × CompleteReason
  unfolding collect_selectable_practice_candidates best_actionable_item
  find_next_practice_card_for_session items now progress =
      if progress.session_complete then (none, progress.session_complete_reason) else (
        best_actionable_item (collect_selectable_practice_candidates items now),
        CompleteReason.unfinished,
      )

  -- `isComebackPool`, with the threshold of 40
  unfoldable pub is_comeback_pool : DailyLearningPool → List (DailyLearningPoolItem F) → Bool
  is_comeback_pool pool items =
      leb 40 (pool.short_term_count + pool.due_review_count + pool.weak_count)
      || leb 40 (total_review_practice_items items)
