-- ===== src/Domain/Records.antt =====
-- internal/domain/models.go, internal/domain/defaults.go: the records. `F` is the type of floats. A
-- pointer that may be nil is an `Option`; the counters, which the code only ever increments from
-- zero, are naturals; `interval_seconds` keeps its sign.
use wordbit_advanced.Prelude.{ℕ, Bool, true, false, Option, none, List, String, Text, ℤ, pos}
use wordbit_advanced.Domain.Instants.{Time, Uuid}
use wordbit_advanced.Domain.Enums.{
  CefrLevel, WordStatus, ReviewRating, ReviewMode, MemoryCause, PoolItemType, PoolItemStatus,
  EventType, WordSetMode, NewWordSource, WordCommonRate,
}

-- A value of `JSONMap`, as far as the services look into it.
pub data Json (F : Type 0) : Type 0 where
  text : String → Json F
  float : F → Json F
  integer : ℤ → Json F
  other : Json F

abbrev pub JsonMap : Type 0 → Type 0
JsonMap F = List (String × Json F)

pub record WordSet : Type 0 where
  pub id : Uuid
  pub user_id : Uuid
  pub name : String
  pub icon : String
  pub mode : WordSetMode
  pub is_default : Bool
  pub auto_generate_new_words : Bool
  pub new_word_source : NewWordSource
  pub recording_enabled : Bool
  pub enabled_review_modes : List ReviewMode
  pub due_count : ℕ
  pub created_at : Time
  pub updated_at : Time

pub record UserSettings : Type 0 where
  pub user_id : Uuid
  pub cefr_level : CefrLevel
  pub daily_new_word_limit : ℤ
  pub preferred_meaning_language : String
  pub timezone : String
  pub pronunciation_enabled : Bool
  pub lock_screen_enabled : Bool
  pub active_word_set_id : Option Uuid
  pub created_at : Time
  pub updated_at : Time

pub record Word (F : Type 0) : Type 0 where
  pub id : Uuid
  pub word : Text
  pub normalized_form : Text
  pub canonical_form : Text
  pub lemma : Text
  pub word_family : Text
  pub confusable_group_key : Text
  pub part_of_speech : Text
  pub level : CefrLevel
  pub topic : Text
  pub ipa : Text
  pub pronunciation_hint : Text
  pub audio_url : String
  pub vietnamese_meaning : Text
  pub english_meaning : Text
  pub example_sentence_1 : Text
  pub example_sentence_2 : Text
  pub generated_examples : List String
  pub common_rate : Option WordCommonRate
  pub source_provider : String
  pub source_metadata : JsonMap F
  pub created_at : Time
  pub updated_at : Time

pub record UserWordState (F : Type 0) : Type 0 where
  pub user_id : Uuid
  pub word_id : Uuid
  pub status : WordStatus
  pub first_seen_at : Option Time
  pub last_seen_at : Option Time
  pub last_rating : ReviewRating
  pub next_review_at : Option Time
  pub interval_seconds : ℤ
  pub stability : F
  pub difficulty : F
  pub review_count : ℕ
  pub wrong_count : ℕ
  pub easy_count : ℕ
  pub medium_count : ℕ
  pub hard_count : ℕ
  pub hint_used_count : ℕ
  pub reveal_meaning_count : ℕ
  pub reveal_example_count : ℕ
  pub avg_response_time_ms : ℤ
  pub weakness_score : F
  pub learning_stage : ℕ
  pub last_mode : ReviewMode
  pub mode_streak_count : ℕ
  pub last_memory_cause : MemoryCause
  pub last_response_time_ms : ℤ
  pub last_answer_correct : Option Bool
  pub meaning_forget_count : ℕ
  pub spelling_issue_count : ℕ
  pub confusable_mixup_count : ℕ
  pub slow_recall_count : ℕ
  pub guessed_correct_count : ℕ
  pub word_construction_success_streak : ℕ
  pub word_construction_struggle_count : ℕ
  pub known_at : Option Time
  pub word_set_id : Option Uuid
  pub created_at : Time
  pub updated_at : Time

pub record DailyLearningPool : Type 0 where
  pub id : Uuid
  pub user_id : Uuid
  pub local_date : String
  pub timezone : String
  pub topic : String
  pub due_review_count : ℕ
  pub short_term_count : ℕ
  pub weak_count : ℕ
  pub new_count : ℕ
  pub word_set_id : Option Uuid
  pub generated_at : Time
  pub created_at : Time
  pub updated_at : Time

pub record DailyLearningPoolItem (F : Type 0) : Type 0 where
  pub id : Uuid
  pub pool_id : Uuid
  pub user_id : Uuid
  pub word_id : Uuid
  pub ordinal : ℕ
  pub item_type : PoolItemType
  pub review_mode : ReviewMode
  pub due_at : Option Time
  pub status : PoolItemStatus
  pub is_review : Bool
  pub first_exposure_required : Bool
  pub bonus_practice : Bool
  pub revealed_meaning : Bool
  pub revealed_example : Bool
  pub metadata : JsonMap F
  pub completed_at : Option Time
  pub created_at : Time
  pub updated_at : Time
  pub word : Option (Word F)

pub record LearningEvent (F : Type 0) : Type 0 where
  pub id : Uuid
  pub user_id : Uuid
  pub word_id : Uuid
  pub pool_item_id : Option Uuid
  pub event_type : EventType
  pub event_time : Time
  pub payload : JsonMap F
  pub response_time_ms : ℤ
  pub mode_used : ReviewMode
  pub client_event_id : String
  pub client_session_id : String
  pub created_at : Time

-- The domain's default settings of a user.
pub default_user_settings : Uuid → UserSettings
default_user_settings user_id = record {
  user_id = user_id;
  cefr_level = CefrLevel.b1;
  daily_new_word_limit = pos 10;
  preferred_meaning_language = "vi";
  timezone = "Asia/Ho_Chi_Minh";
  pronunciation_enabled = true;
  lock_screen_enabled = false;
  active_word_set_id = none;
  created_at = 0;
  updated_at = 0;
}
