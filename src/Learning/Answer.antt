-- ===== src/Learning/Answer.antt =====
-- internal/service/learning_service.go, internal/service/learning_undo.go: what an answer makes of the
-- state of its word, as `SubmitReview`, `SubmitFirstExposure` and `SubmitReveal` put it together.
pub mod Lifecycle
use wordbit_advanced.Prelude.{
  ℕ, ◌+◌, Bool, true, false, not, ◌&&◌, ◌||◌, Option, none, some, List, [], ◌∷◌, ◌==◌,
  if◌then◌else◌, String, Text, ℤ, pos, leb_ℤ,
}
use wordbit_advanced.Float64.{Float64}
use wordbit_advanced.Domain.{
  Time, Uuid, ReviewMode, ReviewRating, ReviewInputMethod, MemoryCause, WordStatus, RevealKind,
  Word, UserWordState, DailyLearningPoolItem, rating_eq,
}
use wordbit_advanced.Normalization.{Unicode}
use wordbit_advanced.Scheduling.Weakness.{compute_weakness_score_from_ratings}
use wordbit_advanced.Scheduling.Outcome.{
  apply_review_outcome, apply_first_exposure_unknown, apply_first_exposure_known,
  apply_bonus_practice_outcome,
}
use wordbit_advanced.Scheduling.Feedback.{apply_word_construction_feedback}
use wordbit_advanced.MemoryCause.{
  MemoryCauseInput, infer_memory_cause, normalize_typed_answer_for_storage, apply_memory_cause,
  apply_memory_cause_interval_bias,
}

pub record ReviewRequest : Type 0 where
  pub pool_item_id : Uuid
  pub rating : ReviewRating
  pub mode_used : ReviewMode
  pub response_time_ms : ℤ
  pub client_event_id : String
  pub client_session_id : String
  pub answer_correct : Option Bool
  pub revealed_meaning_before_answer : Bool
  pub revealed_example_before_answer : Bool
  pub used_hint : Bool
  pub hint_count : ℤ
  pub hint_limit : ℤ
  pub wrong_attempt_count : ℤ
  pub input_method : ReviewInputMethod
  pub normalized_typed_answer : Text
  pub selected_choice_word_id : Option Uuid
  pub selected_choice_confusable_group_key : Text

abbrev pub or_rated : Option Bool → ReviewRating → Bool
or_rated none rating = not (rating == ReviewRating.hard)
or_rated (some correct) rating = correct

-- `answerCorrect` and `hintCount`
abbrev pub is_answer_correct : ReviewRequest → Bool
is_answer_correct req = or_rated req.answer_correct req.rating

abbrev pub hints_used : ReviewRequest → ℤ
hints_used req = if req.used_hint && leb_ℤ req.hint_count (pos 0) then pos 1 else req.hint_count

module _ {F : Type 0} where
  -- `initStateFromSnapshot`
  unfoldable pub init_state_from_snapshot :
      Float64 F → Uuid → Uuid → Option (UserWordState F) → Option Uuid → Time → UserWordState F
  init_state_from_snapshot fl user_id word_id (some st) word_set_id now = st
  init_state_from_snapshot fl user_id word_id none word_set_id now = record {
    user_id = user_id;
    word_id = word_id;
    status = WordStatus.learning;
    first_seen_at = none;
    last_seen_at = none;
    last_rating = ReviewRating.unset;
    next_review_at = none;
    interval_seconds = pos 0;
    stability = fl.dec 5 1;
    difficulty = fl.dec 5 1;
    review_count = 0;
    wrong_count = 0;
    easy_count = 0;
    medium_count = 0;
    hard_count = 0;
    hint_used_count = 0;
    reveal_meaning_count = 0;
    reveal_example_count = 0;
    avg_response_time_ms = pos 0;
    weakness_score = fl.dec 0 0;
    learning_stage = 0;
    last_mode = ReviewMode.unset;
    mode_streak_count = 0;
    last_memory_cause = MemoryCause.unset;
    last_response_time_ms = pos 0;
    last_answer_correct = none;
    meaning_forget_count = 0;
    spelling_issue_count = 0;
    confusable_mixup_count = 0;
    slow_recall_count = 0;
    guessed_correct_count = 0;
    word_construction_success_streak = 0;
    word_construction_struggle_count = 0;
    known_at = none;
    word_set_id = word_set_id;
    created_at = now;
    updated_at = now;
  }

module _ {F : Type 0} ⦃fl : Float64 F⦄ where
  -- `inferredCause`: inference may be switched off, and needs the item's word.
  unfoldable pub inferred_cause :
      Unicode → Bool → Option (Word F) → UserWordState F → ReviewRequest → MemoryCause
  inferred_cause u enabled none st req = MemoryCause.unset
  inferred_cause u enabled (some word) st req =
      if enabled
      then infer_memory_cause u (record {
        state = st;
        target_word = word;
        mode_used = req.mode_used;
        answer_correct = is_answer_correct req;
        revealed_meaning_before_answer = req.revealed_meaning_before_answer;
        revealed_example_before_answer = req.revealed_example_before_answer;
        used_hint = req.used_hint;
        response_time_ms = req.response_time_ms;
        input_method = req.input_method;
        normalized_typed_answer = normalize_typed_answer_for_storage u req.normalized_typed_answer;
        selected_choice_confusable_group_key = req.selected_choice_confusable_group_key;
      })
      else MemoryCause.unset

  -- The state that `SubmitReview` stores, given whether the item is bonus practice and the cause.
  unfoldable pub answered_state :
      Bool → Bool → MemoryCause → UserWordState F → ReviewRequest → Time → UserWordState F
  answered_state enabled bonus cause st req now =
      let applied : UserWordState F =
        if bonus
        then apply_bonus_practice_outcome st req.rating req.mode_used now req.response_time_ms
        else (let reviewed =
              apply_review_outcome st req.rating req.mode_used now req.response_time_ms in
            if enabled then apply_memory_cause_interval_bias reviewed cause now else reviewed) in
      let caused : UserWordState F =
        if enabled
        then apply_memory_cause applied cause req.response_time_ms (is_answer_correct req)
        else applied in
      if not bonus
      then apply_word_construction_feedback caused req.mode_used (is_answer_correct req)
          (hints_used req) req.hint_limit req.wrong_attempt_count req.response_time_ms now
      else caused

  abbrev pub count_reveal : RevealKind → UserWordState F → UserWordState F
  count_reveal RevealKind.meaning st = record st {
    reveal_meaning_count = st.reveal_meaning_count + 1;
  }
  count_reveal RevealKind.example st = record st {
    reveal_example_count = st.reveal_example_count + 1;
  }
  count_reveal RevealKind.hint st = record st { hint_used_count = st.hint_used_count + 1 }

  -- The state that `SubmitReveal` stores.
  unfoldable pub revealed_state : RevealKind → UserWordState F → UserWordState F
  revealed_state kind st =
      let st1 : UserWordState F = count_reveal kind st in
      record st1 { weakness_score = compute_weakness_score_from_ratings st1 }
