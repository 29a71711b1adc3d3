-- ===== src/Examples/Prompts.antt =====
-- A day with one sentence to listen to: its prompt is asked for, validated and stored.
use wordbit_advanced.Prelude.{
  ◌≡◌, refl, none, some, [], ◌∷◌, ℤ, codes, length, if◌then◌else◌, text_eq, string_eq, ◌==◌, All,
}
use wordbit_advanced.Domain.{Word, ReviewMode, PoolItemType}
use wordbit_advanced.Sorting.{slice_stable}
use wordbit_advanced.Sorting.Laws.{slice_stable-All}
use wordbit_advanced.DynamicReview.{DynamicReviewCandidate}
use wordbit_advanced.DynamicReview.Validation.{
  DynamicReviewPromptBatchItem, validate_dynamic_review_payload,
}
use wordbit_advanced.DynamicReview.Validation.Batch.{
  IsSoundBatch, validate_dynamic_review_payload-IsSoundBatch,
}
use wordbit_advanced.DynamicReview.Prompts.{PromptSource, PromptStore, answered, ensure_prompts}
use wordbit_advanced.DynamicReview.Prompts.Stored.{IsFitRow, ensure_prompts-AllFit}
use wordbit_advanced.Examples.Samples.{ascii, brisk, card, evening}

abbrev sentence : DynamicReviewPromptBatchItem
sentence = record {
  word_id = 2;
  review_mode = ReviewMode.listening;
  prompt_text = codes " A brisk walk ";
}

abbrev asked : DynamicReviewCandidate ℤ
asked = record {
  word_id = 2;
  review_mode = ReviewMode.listening;
  word = brisk;
  item_type = PoolItemType.review;
  due_at = some evening;
  ordinal = 1;
}

-- A language service that gives the sentence to each request.
abbrev one_sentence : PromptSource ℤ
one_sentence = record {
  unicode = ascii;
  sort_slice = slice_stable;
  generate = λ requests chunk. answered (sentence ∷ []);
  new_id = λ rows. length rows;
  run_id = λ requests. length requests;
  stamp = λ requests. "2025-03-01T20:00:00Z";
  now = evening;
  parse_date = λ date. if date == "2025-03-01" then some 20 else none;
}

abbrev no_prompts : PromptStore ℤ
no_prompts = record { prompts = []; requests = [] }

sentence_is_valid : validate_dynamic_review_payload ascii (sentence ∷ []) (asked ∷ []) ≡ []
unfolding validate_dynamic_review_payload
sentence_is_valid = refl

one_is_stored :
    length (ensure_prompts one_sentence 1 "2025-03-01" (card ∷ []) none no_prompts).1.prompts ≡ 1
unfolding ensure_prompts slice_stable
one_is_stored = refl

validate_dynamic_review_payload-IsSoundBatch_example :
    IsSoundBatch ascii (sentence ∷ []) (asked ∷ [])
validate_dynamic_review_payload-IsSoundBatch_example =
    validate_dynamic_review_payload-IsSoundBatch ascii (sentence ∷ []) (asked ∷ [])
      sentence_is_valid

some-inv : (v w : Word ℤ) → some v ≡ some w → w ≡ v
some-inv v w e = cc

ensure_prompts-AllFit_example :
    All
      (IsFitRow ascii (λ id. brisk))
      (ensure_prompts one_sentence 1 "2025-03-01" (card ∷ []) none no_prompts).1.prompts
ensure_prompts-AllFit_example =
    ensure_prompts-AllFit one_sentence (λ id. brisk) 1 "2025-03-01"
      (λ P less l all. slice_stable-All P less l all) (card ∷ []) none no_prompts
      (λ w e. some-inv brisk w e, tt) tt
