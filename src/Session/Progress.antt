-- ===== src/Session/Progress.antt =====
-- internal/service/session_progress.go: what a learner has done today and in the running session, read
-- off the day's events, and which kind of card comes next.
pub mod Blocks
pub mod Undo
use wordbit_advanced.Prelude.{
  ℕ, zero, suc, ◌+◌, ◌<◌, ◌≤◌, Bool, true, false, not, ◌&&◌, ◌||◌, Option, none, some, List, [],
  ◌∷◌, ltb, leb, nat_beq, ◌==◌, if◌then◌else◌, length, count_if, contains, String, nat_eq,
  string_eq, Comparable, ◌≡◌, ◌↔◌, arith,
}
use wordbit_advanced.Domain.{
  Uuid, PoolItemType, EventType, DailyLearningPoolItem, LearningEvent, Json, JsonMap, type_eq,
  type_code,
}

pub data CompletedCardKind : Type 0 where
  review_card new_card : CompletedCardKind

abbrev pub is_review_kind : CompletedCardKind → Bool
is_review_kind CompletedCardKind.review_card = true
is_review_kind CompletedCardKind.new_card = false

abbrev pub is_new_kind : CompletedCardKind → Bool
is_new_kind k = not (is_review_kind k)

-- `sessionCompleteReason...`; `unfinished` is "".
pub data CompleteReason : Type 0 where
  unfinished total_cap no_new no_review no_cards : CompleteReason

abbrev pub session_review_run_cap : ℕ
session_review_run_cap = 5

abbrev pub session_new_run_cap : ℕ
session_new_run_cap = 5

abbrev pub session_total_cap : ℕ
session_total_cap = 10

-- `preferred_kind` is `none` for "".
pub record SessionProgress : Type 0 where
  pub session_id : String
  pub session_total_cap : ℕ
  pub daily_review_completed : ℕ
  pub daily_new_completed : ℕ
  pub session_total_completed : ℕ
  pub session_review_completed : ℕ
  pub session_new_completed : ℕ
  pub session_complete : Bool
  pub session_complete_reason : CompleteReason
  pub preferred_kind : Option CompletedCardKind

unfoldable pub new_session_progress : String → SessionProgress
new_session_progress session_id = record {
  session_id = session_id;
  session_total_cap = session_total_cap;
  daily_review_completed = 0;
  daily_new_completed = 0;
  session_total_completed = 0;
  session_review_completed = 0;
  session_new_completed = 0;
  session_complete = false;
  session_complete_reason = CompleteReason.unfinished;
  preferred_kind = some CompletedCardKind.review_card;
}

-- `countKind` for the one kind and the other
abbrev pub count_reviews : List CompletedCardKind → ℕ
count_reviews kinds = count_if is_review_kind kinds

abbrev pub count_news : List CompletedCardKind → ℕ
count_news kinds = count_if is_new_kind kinds

unfoldable pub next_session_kind :
    List CompletedCardKind → Option CompletedCardKind × Bool × CompleteReason
next_session_kind kinds =
    if leb session_total_cap (length kinds)
    then (none, true, CompleteReason.total_cap)
    else (if ltb (count_reviews kinds) session_review_run_cap
        then (some CompletedCardKind.review_card, false, CompleteReason.unfinished)
        else (if ltb (count_news kinds) session_new_run_cap
            then (some CompletedCardKind.new_card, false, CompleteReason.unfinished)
            else (some CompletedCardKind.review_card, false, CompleteReason.unfinished)))

-- `m[key]` of a JSON object
abbrev pub json_field : {F : Type 0} → JsonMap F → String → Option (Json F)
json_field [] key = none
json_field ((k, v) ∷ m) key = if k == key then some v else json_field m key

-- A map from the identifiers of the day's items to the kinds, as the function that looks them up.
abbrev pub KindMap : Type 0
KindMap = Uuid → Option CompletedCardKind

abbrev pub set_kind : KindMap → Uuid → CompletedCardKind → KindMap
set_kind m id kind = λ key. if id == key then some kind else m key

abbrev pub or_new : Option CompletedCardKind → CompletedCardKind
or_new none = CompletedCardKind.new_card
or_new (some kind) = kind

abbrev pub kind_at : KindMap → Option Uuid → Option CompletedCardKind
kind_at m none = none
kind_at m (some id) = m id

abbrev pub prepend : {A : Type 0} → Option A → List A → List A
prepend none xs = xs
prepend (some x) xs = x ∷ xs

-- The day's events, as the repository gives them: it may not support the query, or it fails.
pub data DayEvents (F : Type 0) : Type 0 where
  unsupported failed : DayEvents F
  listed : List (LearningEvent F) → DayEvents F

module _ {F : Type 0} where
  abbrev pub is_main_review_item : DailyLearningPoolItem F → Bool
  is_main_review_item item =
      item.item_type == PoolItemType.review || item.item_type == PoolItemType.short_term

  abbrev pub is_practice_item : DailyLearningPoolItem F → Bool
  is_practice_item item = item.bonus_practice || item.item_type == PoolItemType.weak

  abbrev pub is_review_practice_item : DailyLearningPoolItem F → Bool
  is_review_practice_item item = is_main_review_item item || is_practice_item item

  abbrev pub total_review_practice_items : List (DailyLearningPoolItem F) → ℕ
  total_review_practice_items items = count_if is_review_practice_item items

  abbrev pub kinds_into : List (DailyLearningPoolItem F) → KindMap → KindMap
  kinds_into [] m = m
  kinds_into (item ∷ items) m = kinds_into items (
      if is_main_review_item item || is_practice_item item
      then set_kind m item.id CompletedCardKind.review_card
      else (if item.item_type == PoolItemType.new
          then set_kind m item.id CompletedCardKind.new_card
          else m))

  unfoldable pub build_pool_item_kind_map : List (DailyLearningPoolItem F) → KindMap
  build_pool_item_kind_map items = kinds_into items (λ key. none)

  -- The identifier that an undo event takes back; "" stands for none.
  abbrev pub undone_id : Option (Json F) → String
  undone_id (some (Json.text id)) = id
  undone_id _ = ""

  abbrev pub collect_undone_client_event_ids : List (LearningEvent F) → List String
  collect_undone_client_event_ids [] = []
  collect_undone_client_event_ids (event ∷ events) =
      let rest = collect_undone_client_event_ids events in
      let id = undone_id (json_field event.payload "undone_client_event_id") in
      if not (is_undo event.event_type) || id == "" then rest else id ∷ rest
    where
      is_undo : EventType → Bool
      is_undo EventType.answer_undo = true
      is_undo _ = false

  abbrev pub counts_as_unknown : Option (Json F) → Bool
  counts_as_unknown (some (Json.text action)) = action == "unknown"
  counts_as_unknown _ = true

  abbrev pub first_exposure_counts_as_learned_new : LearningEvent F → Bool
  first_exposure_counts_as_learned_new event = counts_as_unknown (json_field event.payload "action")

  abbrev pub kind_of_type : EventType → KindMap → LearningEvent F → Option CompletedCardKind
  kind_of_type EventType.first_exposure m event =
      if not (first_exposure_counts_as_learned_new event)
      then none
      else some (or_new (kind_at m event.pool_item_id))
  kind_of_type EventType.review_answer m event = some CompletedCardKind.review_card
  kind_of_type EventType.bonus_practice m event = some CompletedCardKind.review_card
  kind_of_type _ m event = none

  unfoldable pub completed_kind_for_event : LearningEvent F → KindMap → Option CompletedCardKind
  completed_kind_for_event event m = kind_of_type event.event_type m event

  -- The first two tests of the loop: another session's event, or one that is taken back.
  abbrev pub is_skipped : List String → String → LearningEvent F → Bool
  is_skipped undone session_id event =
      (not (session_id == "") && not (event.client_session_id == session_id))
      || (not (event.client_event_id == "") && contains undone event.client_event_id)

  unfoldable pub completed_kinds_for_events :
      List (LearningEvent F) → KindMap → List String → String → List CompletedCardKind
  completed_kinds_for_events [] m undone session_id = []
  completed_kinds_for_events (event ∷ events) m undone session_id =
      let rest = completed_kinds_for_events events m undone session_id in
      if is_skipped undone session_id event
      then rest
      else prepend (completed_kind_for_event event m) rest

  -- `none` is an error.
  unfoldable pub build_session_progress :
      String → List (DailyLearningPoolItem F) → DayEvents F → Option SessionProgress
  build_session_progress session_id items DayEvents.unsupported =
      some (new_session_progress session_id)
  build_session_progress session_id items DayEvents.failed = none
  build_session_progress session_id items (DayEvents.listed events) =
      let m = build_pool_item_kind_map items in
      let undone = collect_undone_client_event_ids events in
      let day_kinds = completed_kinds_for_events events m undone "" in
      let progress = record (new_session_progress session_id) {
        daily_review_completed = count_reviews day_kinds;
        daily_new_completed = count_news day_kinds;
      } in
      let session_kinds = completed_kinds_for_events events m undone session_id in
      let (kind, complete, reason) = next_session_kind session_kinds in
      some (
        if session_id == "" then progress else record progress {
          session_total_completed = length session_kinds;
          session_review_completed = count_reviews session_kinds;
          session_new_completed = count_news session_kinds;
          preferred_kind = kind;
          session_complete = complete;
          session_complete_reason = reason;
        })
