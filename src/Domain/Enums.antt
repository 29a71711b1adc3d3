-- ===== src/Domain/Enums.antt =====
-- internal/domain/models.go, internal/domain/common_rate.go: the string enumerations. `unset` is the
-- empty string; the CHECK constraints of migrations/ keep other strings out of the database.
use wordbit_advanced.Prelude.{ℕ, ◌≡◌, ◌↔◌, Bool, true, false, arith, nat_beq, Comparable}

pub data CefrLevel : Type 0 where
  unset b1 b2 c1 c2 : CefrLevel

pub data WordStatus : Type 0 where
  known learning review : WordStatus

pub data ReviewRating : Type 0 where
  unset easy medium hard unrated : ReviewRating

pub data ReviewMode : Type 0 where
  unset reveal multiple_choice build_word fill_blank listening definition_first : ReviewMode

pub data ReviewInputMethod : Type 0 where
  unset tap typing reveal_only : ReviewInputMethod

pub data MemoryCause : Type 0 where
  unset forgot_meaning spelling_issue mixed_up_word slow_recall guessed_correct : MemoryCause

pub data PoolItemType : Type 0 where
  review short_term weak new : PoolItemType

pub data PoolItemStatus : Type 0 where
  pending completed : PoolItemStatus

pub data ExposureAction : Type 0 where
  dont_learn known unknown : ExposureAction

pub data EventType : Type 0 where
  first_exposure review_answer reveal_meaning reveal_example hint_usage pronunciation : EventType
  pool_generated append_more_words weakness_refresh bonus_practice answer_undo : EventType

pub data RevealKind : Type 0 where
  meaning example hint : RevealKind

pub data WordSetMode : Type 0 where
  new_words custom : WordSetMode

pub data NewWordSource : Type 0 where
  unset llm developer_list : NewWordSource

pub data WordCommonRate : Type 0 where
  common formal rare : WordCommonRate

-- Two constants are equal strings when they have the same place in these orders.
abbrev pub mode_code : ReviewMode → ℕ
mode_code ReviewMode.unset = 0
mode_code ReviewMode.reveal = 1
mode_code ReviewMode.multiple_choice = 2
mode_code ReviewMode.build_word = 3
mode_code ReviewMode.fill_blank = 4
mode_code ReviewMode.listening = 5
mode_code ReviewMode.definition_first = 6

abbrev pub mode_beq : ReviewMode → ReviewMode → Bool
mode_beq a b = nat_beq (mode_code a) (mode_code b)

pub mode_beq_iff : (a b : ReviewMode) → (mode_beq a b ≡ true) ↔ (a ≡ b)
mode_beq_iff a b = ground arith

instance abbrev pub mode_eq : Comparable ReviewMode
mode_eq = record { equals = mode_beq; equals_iff = mode_beq_iff }

abbrev pub rating_code : ReviewRating → ℕ
rating_code ReviewRating.unset = 0
rating_code ReviewRating.easy = 1
rating_code ReviewRating.medium = 2
rating_code ReviewRating.hard = 3
rating_code ReviewRating.unrated = 4

abbrev pub rating_beq : ReviewRating → ReviewRating → Bool
rating_beq a b = nat_beq (rating_code a) (rating_code b)

pub rating_beq_iff : (a b : ReviewRating) → (rating_beq a b ≡ true) ↔ (a ≡ b)
rating_beq_iff a b = ground arith

instance abbrev pub rating_eq : Comparable ReviewRating
rating_eq = record { equals = rating_beq; equals_iff = rating_beq_iff }

abbrev pub status_code : WordStatus → ℕ
status_code WordStatus.known = 0
status_code WordStatus.learning = 1
status_code WordStatus.review = 2

abbrev pub status_beq : WordStatus → WordStatus → Bool
status_beq a b = nat_beq (status_code a) (status_code b)

pub status_beq_iff : (a b : WordStatus) → (status_beq a b ≡ true) ↔ (a ≡ b)
status_beq_iff a b = ground arith

instance abbrev pub status_eq : Comparable WordStatus
status_eq = record { equals = status_beq; equals_iff = status_beq_iff }

abbrev pub cause_code : MemoryCause → ℕ
cause_code MemoryCause.unset = 0
cause_code MemoryCause.forgot_meaning = 1
cause_code MemoryCause.spelling_issue = 2
cause_code MemoryCause.mixed_up_word = 3
cause_code MemoryCause.slow_recall = 4
cause_code MemoryCause.guessed_correct = 5

abbrev pub cause_beq : MemoryCause → MemoryCause → Bool
cause_beq a b = nat_beq (cause_code a) (cause_code b)

pub cause_beq_iff : (a b : MemoryCause) → (cause_beq a b ≡ true) ↔ (a ≡ b)
cause_beq_iff a b = ground arith

instance abbrev pub cause_eq : Comparable MemoryCause
cause_eq = record { equals = cause_beq; equals_iff = cause_beq_iff }

abbrev pub type_code : PoolItemType → ℕ
type_code PoolItemType.review = 0
type_code PoolItemType.short_term = 1
type_code PoolItemType.weak = 2
type_code PoolItemType.new = 3

abbrev pub type_beq : PoolItemType → PoolItemType → Bool
type_beq a b = nat_beq (type_code a) (type_code b)

pub type_beq_iff : (a b : PoolItemType) → (type_beq a b ≡ true) ↔ (a ≡ b)
type_beq_iff a b = ground arith

instance abbrev pub type_eq : Comparable PoolItemType
type_eq = record { equals = type_beq; equals_iff = type_beq_iff }

-- `item.Status == domain.PoolItemStatusPending`
abbrev pub is_pending : PoolItemStatus → Bool
is_pending PoolItemStatus.pending = true
is_pending PoolItemStatus.completed = false
