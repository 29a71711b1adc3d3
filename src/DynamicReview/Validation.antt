-- ===== src/DynamicReview/Validation.antt =====
-- internal/service/dynamic_review_service.go, validateDynamicReviewPayload: what is wrong with the prompts
-- that the language service sent. An issue stands for its message, and the keys that no prompt came for
-- are reported in the order of the request, where the code walks through a map.
pub mod Infix
pub mod Sound
pub mod Batch
use wordbit_advanced.Prelude.{
  ℕ, zero, suc, ◌+◌, Bool, true, false, not, ◌&&◌, ◌||◌, Option, none, some, List, [], ◌∷◌, ◌++◌,
  Text, text_eq, codes, nat_beq, ltb, ◌==◌, if◌then◌else◌, contains, length,
}
use wordbit_advanced.Domain.{Uuid, ReviewMode, Word}
use wordbit_advanced.Normalization.{Unicode, trim_space, normalize_word, blank}
use wordbit_advanced.DynamicReview.{DynamicReviewKey, key_eq, DynamicReviewCandidate, candidate_key}

pub record DynamicReviewPromptBatchItem : Type 0 where
  pub word_id : Uuid
  pub review_mode : ReviewMode
  pub prompt_text : Text

abbrev pub prompt_key : DynamicReviewPromptBatchItem → DynamicReviewKey
prompt_key p = (p.word_id, p.review_mode)

pub data PromptIssue : Type 0 where
  count : ℕ → ℕ → PromptIssue
  unexpected : DynamicReviewKey → PromptIssue
  duplicate : DynamicReviewKey → PromptIssue
  blank_prompt : DynamicReviewKey → PromptIssue
  no_marker : Uuid → PromptIssue
  marker : Uuid → PromptIssue
  too_long : Uuid → PromptIssue
  leak : Uuid → PromptIssue
  no_target : Uuid → PromptIssue
  copied : Uuid → PromptIssue
  missing : DynamicReviewKey → PromptIssue

abbrev pub starts_with : Text → Text → Bool
starts_with [] t = true
starts_with (a ∷ s) [] = false
starts_with (a ∷ s) (b ∷ t) = nat_beq a b && starts_with s t

-- `strings.Contains(t, s)`
abbrev pub has_text : Text → Text → Bool
has_text s [] = starts_with s []
has_text s (b ∷ t) = starts_with s (b ∷ t) || has_text s t

-- The number of `strings.Fields`; the flag says that a field is being read.
abbrev pub count_fields : Unicode → Bool → Text → ℕ
count_fields u in_field [] = 0
count_fields u in_field (r ∷ rs) =
    let others = count_fields u false rs in
    let same = count_fields u true rs in
    if u.is_space r then others else if in_field then same else 1 + same

abbrev pub blank_marker : Text
blank_marker = codes "_____"

-- Between blanks, so that only whole words are found.
abbrev pub framed : Text → Text
framed t = blank ∷ (t ++ (blank ∷ []))

-- The texts that must not, or must, stand in a prompt.
abbrev pub spellings : {F : Type 0} → Word F → List Text
spellings w = w.word ∷ w.canonical_form ∷ w.lemma ∷ []

abbrev pub source_texts : {F : Type 0} → Word F → List Text
source_texts w =
    w.english_meaning ∷ w.vietnamese_meaning ∷ w.example_sentence_1 ∷ w.example_sentence_2 ∷ []

abbrev pub issue_if : Bool → PromptIssue → List PromptIssue
issue_if b issue = if b then issue ∷ [] else []

module _ (u : Unicode) where
  abbrev pub leaks_any : Text → List Text → Bool
  leaks_any prompt [] = false
  leaks_any prompt (t ∷ ts) =
      let s = normalize_word u t in
      (not (s == []) && has_text (framed s) (framed prompt)) || leaks_any prompt ts

  unfoldable pub count_normalized_words : Text → ℕ
  unfolding normalize_word
  count_normalized_words value =
      let s = normalize_word u value in if s == [] then 0 else count_fields u false s

  abbrev pub matches_any : Text → List Text → Bool
  matches_any prompt [] = false
  matches_any prompt (t ∷ ts) =
      let s = normalize_word u t in (not (s == []) && prompt == s) || matches_any prompt ts

module _ {F : Type 0} where
  -- `requestedMap[key]`: the last candidate with the key.
  unfoldable pub find_requested :
      List (DynamicReviewCandidate F) → DynamicReviewKey → Option (DynamicReviewCandidate F)
  find_requested [] key = none
  find_requested (c ∷ cs) key = elim (find_requested cs key) [
    | some later ↦ some later
    | none ↦ (if candidate_key c == key then some c else none)
  ]

  -- The loop over the keys of the request, each once.
  unfoldable pub missing_keys :
      List DynamicReviewKey → List (DynamicReviewCandidate F) → List PromptIssue
  missing_keys seen [] = []
  missing_keys seen (c ∷ cs) = elim (contains seen (candidate_key c)) [
    | true ↦ missing_keys seen cs
    | false ↦ PromptIssue.missing (candidate_key c) ∷ missing_keys (candidate_key c ∷ seen) cs
  ]

module _ {F : Type 0} (u : Unicode) where
  unfoldable pub leaks_target : Text → Word F → Bool
  unfolding normalize_word
  leaks_target prompt w = leaks_any u (normalize_word u prompt) (spellings w)

  unfoldable pub matches_stored_source : Text → Word F → Bool
  unfolding normalize_word
  matches_stored_source prompt w = matches_any u (normalize_word u prompt) (source_texts w)

  -- The cases of the switch over the mode
  abbrev pub mode_issues : ReviewMode → Uuid → Text → Word F → List PromptIssue
  mode_issues ReviewMode.fill_blank id text w =
      issue_if (not (has_text blank_marker text)) (PromptIssue.no_marker id)
      ++ issue_if (leaks_target text w) (PromptIssue.leak id)
  mode_issues ReviewMode.listening id text w =
      issue_if (has_text blank_marker text) (PromptIssue.marker id)
      ++ (issue_if (ltb 10 (count_normalized_words u text)) (PromptIssue.too_long id)
          ++ issue_if (not (leaks_target text w)) (PromptIssue.no_target id))
  mode_issues _ id text w = issue_if (leaks_target text w) (PromptIssue.leak id)

  -- The issues of the expected prompt for a candidate.
  unfoldable pub prompt_issues :
      DynamicReviewPromptBatchItem → DynamicReviewCandidate F → List PromptIssue
  unfolding trim_space leaks_target count_normalized_words matches_stored_source
  prompt_issues item c =
      let text = trim_space u item.prompt_text in
      if text == []
      then PromptIssue.blank_prompt (prompt_key item) ∷ []
      else mode_issues item.review_mode item.word_id text c.word
        ++ issue_if (matches_stored_source text c.word) (PromptIssue.copied item.word_id)

  abbrev pub item_issues :
      List DynamicReviewKey
      → DynamicReviewPromptBatchItem
      → Option (DynamicReviewCandidate F)
      → List PromptIssue × List DynamicReviewKey
  item_issues seen item none = (PromptIssue.unexpected (prompt_key item) ∷ [], seen)
  item_issues seen item (some c) =
      if contains seen (prompt_key item)
      then (PromptIssue.duplicate (prompt_key item) ∷ [], seen)
      else (prompt_issues item c, prompt_key item ∷ seen)

  -- The loop over the prompts: the issues, and the keys that were seen.
  unfoldable pub validate_items :
      List (DynamicReviewCandidate F)
      → List DynamicReviewKey
      → List DynamicReviewPromptBatchItem
      → List PromptIssue × List DynamicReviewKey
  unfolding find_requested prompt_issues
  validate_items requested seen [] = ([], seen)
  validate_items requested seen (item ∷ items) =
      let (issues, seen') = item_issues seen item (find_requested requested (prompt_key item)) in
      let (rest, last) = validate_items requested seen' items in (issues ++ rest, last)

  unfoldable pub validate_dynamic_review_payload :
      List DynamicReviewPromptBatchItem → List (DynamicReviewCandidate F) → List PromptIssue
  unfolding validate_items missing_keys
  validate_dynamic_review_payload items requested =
      let (issues, seen) = validate_items requested [] items in
      if nat_beq (length items) (length requested)
      then issues ++ missing_keys seen requested
      else PromptIssue.count (length items) (length requested) ∷ []
