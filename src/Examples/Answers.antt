-- ===== src/Examples/Answers.antt =====
-- The learning service on sample rows.
use wordbit_advanced.Prelude.{
  ℕ, suc, ◌+◌, ◌<◌, ◌≡◌, false, Option, none, some, List, [], ◌∷◌, ℤ, pos, refl, arith,
}
use wordbit_advanced.Domain.{
  Time, Uuid, ReviewMode, ReviewRating, ReviewInputMethod, UserWordState, DailyLearningPool,
  DailyLearningPoolItem,
}
use wordbit_advanced.ReviewModes.{default_review_mode_preferences}
use wordbit_advanced.Learning.Answer.{
  ReviewRequest, answered_state, inferred_cause, init_state_from_snapshot,
}
use wordbit_advanced.Learning.Answer.Lifecycle.{Reached, Reached-IsSound, IsSound}
use wordbit_advanced.Learning.Store.{
  Store, find_item, completed_item, mark_pool_item_completed, get_latest_completed_pool_item,
}
use wordbit_advanced.Learning.Review.{
  Failure, LearningService, record_review, submit_review, same_day_follow_up,
}
use wordbit_advanced.Learning.Undo.{undo_last_answer}
use wordbit_advanced.Learning.Undo.RoundTrip.{undo_last_answer-IsRestored, IsRestored}
use wordbit_advanced.Learning.Undo.Guards.{undo_last_answer-IsAtomic, IsAtomic}
use wordbit_advanced.Learning.Review.Once.{submit_review-once, after_answers}
use wordbit_advanced.Scheduling.Outcome.{
  apply_first_exposure_unknown, apply_review_outcome, record_answer, consolidate,
  next_consolidation_step,
}
use wordbit_advanced.Scheduling.Feedback.{
  apply_word_construction_feedback, is_clean_success, has_struggled,
  shorten_review_after_construction_struggle, record_struggle,
}
use wordbit_advanced.Examples.Fixed.{fixed}
use wordbit_advanced.Examples.Samples.{evening, new_word, ascii, card}

abbrev pub sum_of_ids : List (DailyLearningPoolItem ℤ) → ℕ
sum_of_ids [] = 0
sum_of_ids (item ∷ items) = item.id + sum_of_ids items

find_item-beyond :
    (items : List (DailyLearningPoolItem ℤ)) (n : ℕ)
    → sum_of_ids items < n
    → find_item items n ≡ none
find_item-beyond [] n lt = refl
find_item-beyond (item ∷ items) n lt = ground (arith, find_item-beyond items n)

-- One time zone in which every instant is of the same day
abbrev pub service : LearningService ℤ
service = record {
  unicode = ascii;
  memory_cause_inference_enabled = false;
  local_date = λ t. "2026-01-05";
  preferences = λ id. default_review_mode_preferences;
  fresh_id = λ items. suc (sum_of_ids items);
}

pub unused :
    (items : List (DailyLearningPoolItem ℤ)) → find_item items (service.fresh_id items) ≡ none
unused items = find_item-beyond items (suc (sum_of_ids items)) (omega arith)

abbrev pub pool : DailyLearningPool
pool = record {
  id = 3;
  user_id = 1;
  local_date = "2026-01-05";
  timezone = "UTC";
  topic = "";
  due_review_count = 1;
  short_term_count = 0;
  weak_count = 0;
  new_count = 0;
  word_set_id = none;
  generated_at = 0;
  created_at = 0;
  updated_at = 0;
}

abbrev pub states : Uuid → Option (UserWordState ℤ)
states id = some new_word

abbrev pub store : Store ℤ
store = record { states = states; items = card ∷ []; pools = pool ∷ []; events = [] }

abbrev request : ReviewRequest
request = record {
  pool_item_id = 7;
  rating = ReviewRating.hard;
  mode_used = ReviewMode.listening;
  response_time_ms = pos 9000;
  client_event_id = "e1";
  client_session_id = "s1";
  answer_correct = none;
  revealed_meaning_before_answer = false;
  revealed_example_before_answer = false;
  used_hint = false;
  hint_count = pos 0;
  hint_limit = pos 3;
  wrong_attempt_count = pos 1;
  input_method = ReviewInputMethod.typing;
  normalized_typed_answer = [];
  selected_choice_word_id = none;
  selected_choice_confusable_group_key = [];
}

abbrev answered_store : Store ℤ
answered_store = record_review service evening request card new_word store

accepted : submit_review service evening request store ≡ (none, answered_store)
unfolding submit_review
accepted = refl

latest_card :
    get_latest_completed_pool_item pool.id answered_store.items ≡ some (completed_item evening card)
unfolding record_review mark_pool_item_completed same_day_follow_up get_latest_completed_pool_item
    answered_state apply_word_construction_feedback is_clean_success has_struggled
    shorten_review_after_construction_struggle record_struggle apply_review_outcome record_answer
    consolidate next_consolidation_step
latest_card = refl

undo_last_answer-IsRestored_example :
    IsRestored store card 2 7
      (undo_last_answer service (evening + 1) request.pool_item_id answered_store)
undo_last_answer-IsRestored_example =
    undo_last_answer-IsRestored service evening (evening + 1) request store answered_store card
      (completed_item evening card) new_word pool 2 7 unused refl refl accepted refl refl
      latest_card refl

undo_last_answer-IsAtomic_example : IsAtomic store (undo_last_answer service evening 7 store)
undo_last_answer-IsAtomic_example = undo_last_answer-IsAtomic service evening 7 store

abbrev on_follow_up : ReviewRequest
on_follow_up = record request { pool_item_id = 8; client_event_id = "e2" }

abbrev easier : ReviewRequest
easier = record request { rating = ReviewRating.easy; client_event_id = "e3" }

abbrev in_between : List (Time × ReviewRequest)
in_between = (evening + 1, on_follow_up) ∷ (evening + 2, easier) ∷ []

is_accepted : (submit_review service evening request store).0 ≡ none
unfolding submit_review
is_accepted = refl

submit_review-once_example :
    let after = after_answers service in_between (submit_review service evening request store).1 in
    submit_review service (evening + 3) easier after ≡ (some Failure.validation, after)
submit_review-once_example =
    submit_review-once service request easier evening (evening + 3) store in_between refl
      is_accepted

abbrev met_word : UserWordState ℤ
met_word =
    apply_first_exposure_unknown (init_state_from_snapshot fixed 1 2 none none evening) evening
      (pos 4000)

Reached-IsSound_example : IsSound (
    answered_state false false
      (inferred_cause ascii false none met_word request)
      met_word
      request
      evening)
Reached-IsSound_example =
    Reached-IsSound
      (answered_state false false (inferred_cause ascii false none met_word request) met_word
        request evening)
      (Reached.answered false false (inferred_cause ascii false none met_word request) met_word
        request evening (Reached.met_unknown 1 2 none evening (pos 4000)))
