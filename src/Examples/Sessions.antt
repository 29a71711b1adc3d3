-- ===== src/Examples/Sessions.antt =====
-- Sessions on sample cards and events.
use wordbit_advanced.Prelude.{
  ap, ◌≡◌, ◌≢◌, false, true, some, none, ◌∷◌, [], ◌++◌, List, ℤ, pos, keep_if, refl, string_eq,
  String,
}
use wordbit_advanced.Domain.{
  DailyLearningPool, PoolItemType, EventType, DailyLearningPoolItem, LearningEvent, Json,
}
use wordbit_advanced.Session.Progress.{
  DayEvents, build_session_progress, new_session_progress, build_pool_item_kind_map,
  completed_kind_for_event, CompletedCardKind, CompleteReason, SessionProgress, next_session_kind,
  completed_kinds_for_events, collect_undone_client_event_ids, KindMap,
}
use wordbit_advanced.Session.Progress.Undo.{undo_event_takes_back, kinds_of, is_other}
use wordbit_advanced.Session.Cards.{find_next_card_for_session}
use wordbit_advanced.Session.Cards.Next.{find_next_card_for_session-ServedFor, ServedFor}
use wordbit_advanced.Session.View.{CardResponse, view_response, next_card_from_view, map_progress}
use wordbit_advanced.Session.View.Complete.{
  next_card_from_view-IsCompleteWithoutCard, IsCompleteWithoutCard,
}
use wordbit_advanced.Examples.Samples.{evening, card, answer_event}

abbrev two_kinds : List CompletedCardKind
two_kinds = CompletedCardKind.review_card ∷ CompletedCardKind.new_card ∷ []

abbrev one_review : List CompletedCardKind
one_review = [] ++ (CompletedCardKind.review_card ∷ [])

first_step :
    next_session_kind [] ≡ (some CompletedCardKind.review_card, false, CompleteReason.unfinished)
unfolding next_session_kind
first_step = refl

abbrev undo_event : LearningEvent ℤ
undo_event = record answer_event {
  event_type = EventType.answer_undo;
  client_event_id = "";
  client_session_id = "";
  payload = ("undone_client_event_id", Json.text "e1") ∷ [];
}

abbrev day : List (LearningEvent ℤ)
day = answer_event ∷ record answer_event { client_event_id = "e2" } ∷ []

abbrev no_kinds : KindMap
no_kinds = λ id. none

abbrev e1 : String
e1 = "e1"

e1-named : e1 ≢ ""
e1-named h =
    let (sound, complete) = string_eq.equals_iff e1 "" in let bad : false ≡ true = complete h in cc

undo_event_takes_back_example :
    kinds_of (day ++ (undo_event ∷ [])) no_kinds "s1"
    ≡ completed_kinds_for_events
        (keep_if (is_other e1) day)
        no_kinds
        (collect_undone_client_event_ids day)
        "s1"
undo_event_takes_back_example =
    undo_event_takes_back day undo_event e1 no_kinds "s1" (refl, refl) e1-named

abbrev two_cards : List (DailyLearningPoolItem ℤ)
two_cards =
    record card { item_type = PoolItemType.new; ordinal = 1; due_at = none }
    ∷ record card { ordinal = 2 }
    ∷ []

abbrev started : SessionProgress
started = record {
  session_id = "s1";
  session_total_cap = 10;
  daily_review_completed = 0;
  daily_new_completed = 0;
  session_total_completed = 0;
  session_review_completed = 0;
  session_new_completed = 0;
  session_complete = false;
  session_complete_reason = CompleteReason.unfinished;
  preferred_kind = some CompletedCardKind.review_card;
}

find_next_card_for_session-ServedFor_example :
    ServedFor two_cards evening started
      (pos 10)
      (find_next_card_for_session two_cards evening started (pos 10)).item
find_next_card_for_session-ServedFor_example =
    find_next_card_for_session-ServedFor two_cards evening started (pos 10) refl

abbrev small_pool : DailyLearningPool
small_pool = record {
  id = 3;
  user_id = 1;
  local_date = "2026-01-05";
  timezone = "UTC";
  topic = "";
  due_review_count = 1;
  short_term_count = 0;
  weak_count = 0;
  new_count = 1;
  word_set_id = none;
  generated_at = 0;
  created_at = 0;
  updated_at = 0;
}

abbrev shown : SessionProgress → CardResponse ℤ
shown = view_response small_pool two_cards evening "s1" (pos 10) false

abbrev day_progress : SessionProgress
day_progress = record started {
  daily_review_completed = 2;
  session_total_completed = 2;
  session_review_completed = 2;
}

progress_of_day : build_session_progress "s1" two_cards (DayEvents.listed day) ≡ some day_progress
unfolding build_session_progress new_session_progress build_pool_item_kind_map
    completed_kinds_for_events completed_kind_for_event next_session_kind
progress_of_day = refl

view_of_day :
    next_card_from_view small_pool two_cards (DayEvents.listed day) evening "s1" (pos 10) false
    ≡ some (shown day_progress)
unfolding next_card_from_view
view_of_day = ap (map_progress shown) progress_of_day

next_card_from_view-IsCompleteWithoutCard_example : IsCompleteWithoutCard (shown day_progress)
next_card_from_view-IsCompleteWithoutCard_example =
    next_card_from_view-IsCompleteWithoutCard small_pool two_cards (DayEvents.listed day) evening
      "s1" (pos 10) false (shown day_progress) refl view_of_day
