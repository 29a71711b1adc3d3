-- ===== src/Session/View.antt =====
-- internal/service/pool_service.go: `nextCardFromView` and `buildCardResponse`, the answer to a request
-- for the next card of the day's items.
pub mod Complete
use wordbit_advanced.Prelude.{
  ℕ, Bool, true, false, not, ◌&&◌, ◌||◌, Option, none, some, List, ◌==◌, if◌then◌else◌, String,
  string_eq, ℤ,
}
use wordbit_advanced.Domain.{Time, DailyLearningPool, DailyLearningPoolItem}
use wordbit_advanced.Scheduling.Feedback.{is_nil}
use wordbit_advanced.Session.Progress.{
  CompleteReason, SessionProgress, DayEvents, build_session_progress,
}
use wordbit_advanced.Session.Cards.{
  NextCard, collect_selectable_session_candidates, find_next_card_for_session,
  find_next_practice_card_for_session, actionable_items_remaining, practice_items_remaining,
  is_comeback_pool,
}

-- Less `card_type`, which is constant.
pub record CardResponse (F : Type 0) : Type 0 where
  pub local_date : String
  pub session_id : String
  pub session_complete : Bool
  pub session_complete_reason : CompleteReason
  pub comeback_mode : Bool
  pub session_total_cap : ℕ
  pub daily_review_completed : ℕ
  pub session_total_completed : ℕ
  pub session_review_completed : ℕ
  pub session_new_completed : ℕ
  pub pending_due_count : ℕ
  pub pending_practice_count : ℕ
  pub next_due_at : Option Time
  pub pool_item : Option (DailyLearningPoolItem F)

abbrev pub is_unfinished : CompleteReason → Bool
is_unfinished CompleteReason.unfinished = true
is_unfinished _ = false

abbrev pub or_due : Option Time → Option Time → Option Time
or_due none other = other
or_due (some t) other = some t

module _ {F : Type 0} where
  unfoldable pub build_card_response :
      String
      → SessionProgress
      → Bool
      → ℕ
      → ℕ
      → Option (DailyLearningPoolItem F)
      → Option Time
      → CompleteReason
      → CardResponse F
  build_card_response local_date progress comeback due practice item next_due reason = record {
    local_date = local_date;
    session_id = progress.session_id;
    session_complete = if is_unfinished reason then progress.session_complete else true;
    session_complete_reason =
        if is_unfinished reason then progress.session_complete_reason else reason;
    comeback_mode = comeback;
    session_total_cap = progress.session_total_cap;
    daily_review_completed = progress.daily_review_completed;
    session_total_completed = progress.session_total_completed;
    session_review_completed = progress.session_review_completed;
    session_new_completed = progress.session_new_completed;
    pending_due_count = due;
    pending_practice_count = practice;
    next_due_at = next_due;
    pool_item = item;
  }

  -- The practice card, if one was asked for and nothing else is to be said.
  unfoldable pub with_practice :
      List (DailyLearningPoolItem F) → Time → SessionProgress → Bool → NextCard F → NextCard F
  with_practice items now progress practice_requested card =
      let (item, reason) = find_next_practice_card_for_session items now progress in
      if practice_requested && is_nil card.item && is_unfinished card.reason
      then record {
        item = item;
        next_due = if is_nil item then card.next_due else none;
        reason = reason;
      }
      else card

  -- The last three returns
  abbrev pub final_reason : String → NextCard F → CompleteReason
  final_reason session_id card =
      if not (is_nil card.item) || not (is_unfinished card.reason)
      then card.reason
      else if not (session_id == "")
      then CompleteReason.no_cards
      else CompleteReason.unfinished

  unfoldable pub view_response :
      DailyLearningPool
      → List (DailyLearningPoolItem F)
      → Time
      → String
      → ℤ
      → Bool
      → SessionProgress
      → CardResponse F
  unfolding with_practice build_card_response
  view_response pool items now session_id limit practice_requested progress =
      let first = find_next_card_for_session items now progress limit in
      let candidates =
        collect_selectable_session_candidates items now progress.daily_new_completed limit in
      let waiting = record first { next_due = or_due first.next_due candidates.next_due } in
      let card = with_practice items now progress practice_requested waiting in
      build_card_response pool.local_date progress (is_comeback_pool pool items)
        (actionable_items_remaining items now progress.daily_new_completed limit)
        (practice_items_remaining items now) card.item card.next_due (final_reason session_id card)

  abbrev pub map_progress :
      (SessionProgress → CardResponse F) → Option SessionProgress → Option (CardResponse F)
  map_progress f none = none
  map_progress f (some progress) = some (f progress)

  -- `none` is an error of `buildSessionProgress`.
  unfoldable pub next_card_from_view :
      DailyLearningPool
      → List (DailyLearningPoolItem F)
      → DayEvents F
      → Time
      → String
      → ℤ
      → Bool
      → Option (CardResponse F)
  unfolding view_response
  next_card_from_view pool items events now session_id limit practice_requested =
      map_progress (view_response pool items now session_id limit practice_requested)
        (build_session_progress session_id items events)
