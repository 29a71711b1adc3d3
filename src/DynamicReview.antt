-- ===== src/DynamicReview.antt =====
-- internal/service/dynamic_review_service.go, internal/domain/models.go: the reviews that get a generated
-- prompt, and what a prompt must be. The order of sort.Slice among equals is a parameter.
pub mod Validation
pub mod Table
pub mod Prompts
use wordbit_advanced.Prelude.{
  ℕ, ◌↔◌, arith, Bool, true, false, not, ◌&&◌, ◌||◌, Option, none, some, List, [], ◌∷◌, ◌++◌,
  String, Text, text_eq, codes, nat_eq, nat_beq, nat_beq_iff, ltb, ◌==◌, ◌≡◌, if◌then◌else◌,
  contains, Comparable,
}
use wordbit_advanced.Domain.{
  Time, Uuid, ReviewMode, PoolItemType, Word, DailyLearningPoolItem, mode_eq, mode_beq_iff, type_eq,
  before, after,
}
use wordbit_advanced.Normalization.{Unicode, trim_space}
use wordbit_advanced.Session.Cards.{
  Sign, is_less, compare_ints, or_else, compare_pool_item_type_priority,
}

-- `dynamicReviewKey`: a word and a mode.
abbrev pub DynamicReviewKey : Type 0
DynamicReviewKey = Uuid × ReviewMode

abbrev pub key_beq : DynamicReviewKey → DynamicReviewKey → Bool
key_beq (a, s) (b, t) = a == b && s == t

pub key_beq_iff : (a b : DynamicReviewKey) → (key_beq a b ≡ true) ↔ (a ≡ b)
key_beq_iff (a, s) (b, t) = ground (arith, nat_beq_iff a b, mode_beq_iff s t)

instance abbrev pub key_eq : Comparable DynamicReviewKey
key_eq = record { equals = key_beq; equals_iff = key_beq_iff }

pub record DynamicReviewCandidate (F : Type 0) : Type 0 where
  pub word_id : Uuid
  pub review_mode : ReviewMode
  pub word : Word F
  pub item_type : PoolItemType
  pub due_at : Option Time
  pub ordinal : ℕ

abbrev pub candidate_key : {F : Type 0} → DynamicReviewCandidate F → DynamicReviewKey
candidate_key c = (c.word_id, c.review_mode)

abbrev pub is_dynamic_review_prompt_mode : ReviewMode → Bool
is_dynamic_review_prompt_mode mode =
    mode == ReviewMode.multiple_choice
    || (mode == ReviewMode.fill_blank || mode == ReviewMode.listening)

-- The strings of the constants
abbrev pub mode_text : ReviewMode → Text
mode_text ReviewMode.unset = []
mode_text ReviewMode.reveal = codes "hidden_meaning"
mode_text ReviewMode.multiple_choice = codes "multiple_choice"
mode_text ReviewMode.build_word = codes "build_word"
mode_text ReviewMode.fill_blank = codes "fill_in_blank"
mode_text ReviewMode.listening = codes "listening_sentence"
mode_text ReviewMode.definition_first = codes "definition_first"

-- `strings.Compare`: UTF-8 orders texts as their code points do.
abbrev pub compare_texts : Text → Text → Sign
compare_texts [] [] = Sign.equal
compare_texts [] (b ∷ y) = Sign.less
compare_texts (a ∷ x) [] = Sign.greater
compare_texts (a ∷ x) (b ∷ y) = or_else (compare_ints a b) (compare_texts x y)

abbrev pub compare_optional_times_asc : Option Time → Option Time → Sign
compare_optional_times_asc none none = Sign.equal
compare_optional_times_asc none (some r) = Sign.greater
compare_optional_times_asc (some l) none = Sign.less
compare_optional_times_asc (some l) (some r) =
    if before l r then Sign.less else if after l r then Sign.greater else Sign.equal

abbrev pub is_reviewed_again : PoolItemType → Bool
is_reviewed_again type = type == PoolItemType.short_term || type == PoolItemType.review

module _ {F : Type 0} where
  unfoldable pub compare_dynamic_review_candidates :
      DynamicReviewCandidate F → DynamicReviewCandidate F → Sign
  compare_dynamic_review_candidates left right =
      or_else (compare_pool_item_type_priority left.item_type right.item_type) (
        or_else (compare_optional_times_asc left.due_at right.due_at) (
          or_else (compare_ints left.ordinal right.ordinal) (
            or_else (compare_texts left.word.normalized_form right.word.normalized_form)
              (compare_texts (mode_text left.review_mode) (mode_text right.review_mode)))))

  abbrev pub comes_before : DynamicReviewCandidate F → DynamicReviewCandidate F → Bool
  comes_before left right = is_less (compare_dynamic_review_candidates left right)

  abbrev pub candidate_of : DailyLearningPoolItem F → Word F → DynamicReviewCandidate F
  candidate_of item w = record {
    word_id = item.word_id;
    review_mode = item.review_mode;
    word = w;
    item_type = item.item_type;
    due_at = item.due_at;
    ordinal = item.ordinal;
  }

  -- The item's candidate, where the loop does not go on without one.
  abbrev pub with_word :
      Unicode → DailyLearningPoolItem F → Option (Word F) → Option (DynamicReviewCandidate F)
  with_word u item none = none
  with_word u item (some w) =
      if is_reviewed_again item.item_type
        && (is_dynamic_review_prompt_mode item.review_mode && not (trim_space u w.word == []))
      then some (candidate_of item w)
      else none

  unfoldable pub collect_candidates :
      Unicode
      → List DynamicReviewKey
      → List (DailyLearningPoolItem F)
      → List (DynamicReviewCandidate F)
  unfolding trim_space
  collect_candidates u seen [] = []
  collect_candidates u seen (item ∷ items) = elim (with_word u item item.word) [
    | none ↦ collect_candidates u seen items
    | some c ↦ elim (contains seen (candidate_key c)) [
      | true ↦ collect_candidates u seen items
      | false ↦ c ∷ collect_candidates u (candidate_key c ∷ seen) items
    ]
  ]

  unfoldable pub select_dynamic_review_candidates :
      Unicode
      → ((DynamicReviewCandidate F → DynamicReviewCandidate F → Bool)
          → List (DynamicReviewCandidate F)
          → List (DynamicReviewCandidate F))
      → List (DailyLearningPoolItem F)
      → List (DynamicReviewCandidate F)
  unfolding collect_candidates compare_dynamic_review_candidates
  select_dynamic_review_candidates u sort_slice items =
      sort_slice comes_before (collect_candidates u [] items)
