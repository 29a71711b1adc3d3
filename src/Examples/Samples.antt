-- ===== src/Examples/Samples.antt =====
-- Sample records and a sample of the Unicode tables.
use wordbit_advanced.Prelude.{
  ℕ, true, false, none, some, [], codes, ℤ, pos, leb, ◌&&◌, nat_beq, if◌then◌else◌, ◌+◌, map,
}
use wordbit_advanced.Domain.{
  CefrLevel, WordStatus, ReviewRating, ReviewMode, ReviewInputMethod, MemoryCause, PoolItemType,
  PoolItemStatus, EventType, Word, UserWordState, DailyLearningPoolItem, LearningEvent,
}
use wordbit_advanced.Normalization.{Unicode}
use wordbit_advanced.MemoryCause.{MemoryCauseInput}

-- Seven in the evening of some day
abbrev pub evening : ℕ
evening = 63_900_000_000_000_000_000

abbrev pub new_word : UserWordState ℤ
new_word = record {
  user_id = 1;
  word_id = 2;
  status = WordStatus.learning;
  first_seen_at = none;
  last_seen_at = none;
  last_rating = ReviewRating.unset;
  next_review_at = none;
  interval_seconds = pos 0;
  stability = pos 500;
  difficulty = pos 500;
  review_count = 0;
  wrong_count = 0;
  easy_count = 0;
  medium_count = 0;
  hard_count = 0;
  hint_used_count = 0;
  reveal_meaning_count = 0;
  reveal_example_count = 0;
  avg_response_time_ms = pos 0;
  weakness_score = pos 0;
  learning_stage = 1;
  last_mode = ReviewMode.unset;
  mode_streak_count = 0;
  last_memory_cause = MemoryCause.unset;
  last_response_time_ms = pos 0;
  last_answer_correct = none;
  meaning_forget_count = 0;
  spelling_issue_count = 0;
  confusable_mixup_count = 0;
  slow_recall_count = 0;
  guessed_correct_count = 0;
  word_construction_success_streak = 0;
  word_construction_struggle_count = 0;
  known_at = none;
  word_set_id = none;
  created_at = 0;
  updated_at = 0;
}

-- A word in open review, last rated medium, due a day from the evening
abbrev pub open_word : UserWordState ℤ
open_word = record new_word {
  status = WordStatus.review;
  last_rating = ReviewRating.medium;
  learning_stage = 0;
  next_review_at = some (evening + 86_400_000_000_000);
  interval_seconds = pos 86_400;
  review_count = 5;
  medium_count = 4;
  hard_count = 1;
  wrong_count = 1;
  last_mode = ReviewMode.multiple_choice;
  mode_streak_count = 2;
}

-- The ASCII part of the tables
abbrev pub ascii : Unicode
ascii = record {
  to_lower = map (λ r. if leb 65 r && leb r 90 then r + 32 else r);
  nfkd = λ t. t;
  is_mark = λ r. false;
  is_letter = λ r. leb 97 r && leb r 122;
  is_digit = λ r. leb 48 r && leb r 57;
  is_space = λ r. nat_beq r 32;
}

abbrev pub brisk : Word ℤ
brisk = record {
  id = 2;
  word = codes "brisk";
  normalized_form = codes "brisk";
  canonical_form = codes "brisk";
  lemma = codes "brisk";
  word_family = [];
  confusable_group_key = [];
  part_of_speech = codes "adjective";
  level = CefrLevel.b2;
  topic = [];
  ipa = [];
  pronunciation_hint = [];
  audio_url = "";
  vietnamese_meaning = [];
  english_meaning = [];
  example_sentence_1 = [];
  example_sentence_2 = [];
  generated_examples = [];
  common_rate = none;
  source_provider = "";
  source_metadata = [];
  created_at = 0;
  updated_at = 0;
}

abbrev pub card : DailyLearningPoolItem ℤ
card = record {
  id = 7;
  pool_id = 3;
  user_id = 1;
  word_id = 2;
  ordinal = 1;
  item_type = PoolItemType.review;
  review_mode = ReviewMode.listening;
  due_at = some evening;
  status = PoolItemStatus.pending;
  is_review = true;
  first_exposure_required = false;
  bonus_practice = false;
  revealed_meaning = false;
  revealed_example = false;
  metadata = [];
  completed_at = none;
  created_at = 0;
  updated_at = 0;
  word = some brisk;
}

abbrev pub answer_event : LearningEvent ℤ
answer_event = record {
  id = 11;
  user_id = 1;
  word_id = 2;
  pool_item_id = some 7;
  event_type = EventType.review_answer;
  event_time = evening;
  payload = [];
  response_time_ms = pos 2500;
  mode_used = ReviewMode.listening;
  client_event_id = "e1";
  client_session_id = "s1";
  created_at = evening;
}

-- A typed answer with one letter wrong
abbrev pub misspelt : MemoryCauseInput ℤ
misspelt = record {
  state = open_word;
  target_word = brisk;
  mode_used = ReviewMode.fill_blank;
  answer_correct = false;
  revealed_meaning_before_answer = false;
  revealed_example_before_answer = false;
  used_hint = false;
  response_time_ms = pos 9000;
  input_method = ReviewInputMethod.typing;
  normalized_typed_answer = codes "brisc";
  selected_choice_confusable_group_key = [];
}

-- A word in the third stage that is stuck on the hidden meaning
abbrev pub stuck_word : UserWordState ℤ
stuck_word = record new_word {
  learning_stage = 3;
  last_mode = ReviewMode.reveal;
  review_count = 6;
  hard_count = 3;
  wrong_count = 3;
  last_rating = ReviewRating.hard;
  difficulty = pos 800;
}

-- One that two days of multiple choice have not helped
abbrev pub failing_word : UserWordState ℤ
failing_word = record stuck_word {
  last_mode = ReviewMode.multiple_choice;
  first_seen_at = some evening;
  last_seen_at = some (evening + 200_000_000_000_000);
}
