-- ===== src/Dedup.antt =====
-- internal/service/dedup.go, internal/domain/common_rate.go: which generated words are accepted, and
-- why the others are not. A set of texts is the list of its elements, and `Rejected` the function of
-- its keys, with no reasons for a missing one.
pub mod Exclusions
pub mod Keys
pub mod History
pub mod Unseen
pub mod Accepted
pub mod Accounting
use wordbit_advanced.Prelude.{
  ℕ, Bool, true, false, not, ◌&&◌, Option, none, some, List, [], ◌∷◌, ◌++◌, String, Text, text_eq,
  codes, ◌==◌, if◌then◌else◌, contains,
}
use wordbit_advanced.Float64.{Float64}
use wordbit_advanced.Domain.{
  JsonMap, Word, UserWordState, DailyLearningPoolItem, Uuid, WordCommonRate,
}
use wordbit_advanced.Normalization.{Unicode, trim_space, normalize_word, confusable_group_for}
use wordbit_advanced.Sorting.{slice_stable}

-- The level and the common rate are the texts that the language service sent.
pub record CandidateWord (F : Type 0) : Type 0 where
  pub word : Text
  pub canonical_form : Text
  pub lemma : Text
  pub word_family : Text
  pub confusable_group_key : Text
  pub part_of_speech : Text
  pub level : Text
  pub topic : Text
  pub ipa : Text
  pub pronunciation_hint : Text
  pub vietnamese_meaning : Text
  pub english_meaning : Text
  pub example_sentence_1 : Text
  pub example_sentence_2 : Text
  pub common_rate : Option Text
  pub source_provider : Text
  pub source_metadata : JsonMap F
  pub normalized_form : Text
  pub ranking_score : F
  pub validation_issues : List String

-- `string(rate)`
abbrev pub rate_text : WordCommonRate → Text
rate_text WordCommonRate.common = codes "common"
rate_text WordCommonRate.formal = codes "formal"
rate_text WordCommonRate.rare = codes "rare"

unfoldable pub parse_word_common_rate : Unicode → Text → Option WordCommonRate
unfolding trim_space
parse_word_common_rate u value =
    let v = u.to_lower (trim_space u value) in
    if v == codes "common"
    then some WordCommonRate.common
    else if v == codes "formal"
    then some WordCommonRate.formal
    else if v == codes "rare"
    then some WordCommonRate.rare
    else none

-- `if b { reasons = append(reasons, reason) }`
abbrev pub reason_if : Bool → String → List String
reason_if b reason = if b then reason ∷ [] else []

abbrev pub is_invalid_rate : Unicode → Option Text → Bool
is_invalid_rate u none = false
is_invalid_rate u (some rate) = elim (parse_word_common_rate u rate) [
  | none ↦ true
  | some known ↦ false
]

-- The loop's first lines: a common rate of blanks is dropped, and a known one is spelled as the constant.
abbrev pub known_or : Text → Option WordCommonRate → Text
known_or raw none = raw
known_or raw (some rate) = rate_text rate

abbrev pub clean_rate : Unicode → Option Text → Option Text
clean_rate u none = none
clean_rate u (some raw) =
    let trimmed = trim_space u raw in
    if trimmed == [] then none else some (known_or raw (parse_word_common_rate u trimmed))

-- The texts that must not come again: of the words a user has, or of the batch so far.
pub record Taken : Type 0 where
  pub normalized : List Text
  pub lemmas : List Text
  pub groups : List Text

abbrev pub none_taken : Taken
none_taken = record { normalized = []; lemmas = []; groups = [] }

abbrev pub add_unless_empty : Text → Text → List Text → List Text
add_unless_empty test key set = if test == [] then set else key ∷ set

-- `key != ""` and the set has it
abbrev pub is_taken : List Text → Text → Bool
is_taken set key = not (key == []) && contains set key

abbrev pub is_given : Text → Bool
is_given t = not (t == [])

module _ {F : Type 0} (u : Unicode) where
  unfoldable pub validate_candidate : CandidateWord F → List String
  unfolding trim_space normalize_word parse_word_common_rate
  validate_candidate c =
      reason_if (trim_space u c.word == []) "missing word"
      ++ (reason_if (c.level == []) "missing level"
          ++ (reason_if (trim_space u c.topic == []) "missing topic"
              ++ (reason_if (trim_space u c.english_meaning == []) "missing english meaning"
                  ++ (reason_if (trim_space u c.vietnamese_meaning == [])
                        "missing vietnamese meaning"
                      ++ (reason_if (normalize_word u c.word == []) "empty normalized form"
                          ++ reason_if (is_invalid_rate u c.common_rate) "invalid common rate")))))

  abbrev pub take_word : Word F → Taken → Taken
  take_word w h = record {
    normalized =
        add_unless_empty w.canonical_form (normalize_word u w.canonical_form)
          (w.normalized_form ∷ h.normalized);
    lemmas = add_unless_empty w.lemma (normalize_word u w.lemma) h.lemmas;
    groups = add_unless_empty w.confusable_group_key w.confusable_group_key h.groups;
  }

  unfoldable pub take_words : List (Word F) → Taken → Taken
  take_words [] h = h
  take_words (w ∷ words) h = take_words words (take_word w h)

  abbrev pub take_item_word : Option (Word F) → Taken → Taken
  take_item_word none h = h
  take_item_word (some w) h = record h {
    normalized = w.normalized_form ∷ h.normalized;
    groups = add_unless_empty w.confusable_group_key w.confusable_group_key h.groups;
  }

  unfoldable pub take_items : List (DailyLearningPoolItem F) → Taken → Taken
  take_items [] h = h
  take_items (item ∷ items) h = take_items items (take_item_word item.word h)

  -- The candidate as the rest of the loop's body sees it.
  unfoldable pub prepare_candidate : CandidateWord F → CandidateWord F
  unfolding normalize_word confusable_group_for trim_space parse_word_common_rate
  prepare_candidate c = record c {
    common_rate = clean_rate u c.common_rate;
    normalized_form = normalize_word u c.word;
    confusable_group_key =
        if c.confusable_group_key == []
        then confusable_group_for u c.word c.canonical_form c.lemma
        else c.confusable_group_key;
  }

  -- The reasons against a prepared candidate.
  unfoldable pub reasons_against : Taken → Taken → CandidateWord F → List String
  unfolding validate_candidate
  reasons_against h seen c =
      let lemma = normalize_word u c.lemma in
      let canonical = normalize_word u c.canonical_form in
      validate_candidate c
      ++ (reason_if (contains h.normalized c.normalized_form) "history normalized duplicate"
          ++ (reason_if (is_taken h.normalized canonical) "history canonical duplicate"
              ++ (reason_if (is_taken h.lemmas lemma) "history lemma duplicate"
                  ++ (reason_if (contains seen.normalized c.normalized_form)
                        "batch normalized duplicate"
                      ++ (reason_if (is_taken h.groups c.confusable_group_key)
                            "confusable group collision"
                          ++ (reason_if (is_taken seen.groups c.confusable_group_key)
                                "batch confusable collision"
                              ++ reason_if (is_taken seen.lemmas lemma)
                                  "batch lemma duplicate"))))))

  abbrev pub take_candidate : CandidateWord F → Taken → Taken
  take_candidate c seen =
      let lemma = normalize_word u c.lemma in
      record {
        normalized = c.normalized_form ∷ seen.normalized;
        lemmas = add_unless_empty lemma lemma seen.lemmas;
        groups = add_unless_empty c.confusable_group_key c.confusable_group_key seen.groups;
      }

pub record DedupResult (F : Type 0) : Type 0 where
  pub accepted : List (CandidateWord F)
  pub rejected : Text → List String
  pub reject_list : List Text

-- The loop's variables
pub record Batch (F : Type 0) : Type 0 where
  pub result : DedupResult F
  pub seen : Taken

module _ {F : Type 0} ⦃fl : Float64 F⦄ where
  abbrev pub score_if : Bool → F → F → F
  score_if b points score = if b then fl.add score points else score

  unfoldable pub rank_candidate : CandidateWord F → F
  rank_candidate c = score_if (is_given c.part_of_speech) (fl.dec 25 2) (
      score_if (is_given c.ipa) (fl.dec 25 2) (
        score_if (is_given c.example_sentence_2) (fl.dec 5 1) (
          score_if (is_given c.example_sentence_1) (fl.dec 5 1) (
            score_if (is_given c.english_meaning && is_given c.vietnamese_meaning) (fl.dec 15 1) (
              score_if (is_given c.topic) (fl.dec 15 1)
                (score_if (is_given c.level) (fl.dec 2 0) (fl.dec 0 0)))))))

  abbrev pub ranks_before : CandidateWord F → CandidateWord F → Bool
  ranks_before a b = fl.lt b.ranking_score a.ranking_score

module _ {F : Type 0} ⦃fl : Float64 F⦄ (u : Unicode) where
  abbrev pub settle : Batch F → CandidateWord F → List String → Batch F
  settle b c [] = record {
    result = record b.result {
      accepted = b.result.accepted ++ (record c { ranking_score = rank_candidate c } ∷ []);
    };
    seen = take_candidate u c b.seen;
  }
  settle b c (r ∷ reasons) = record b {
    result = record b.result {
      rejected = λ word. if word == c.word then r ∷ reasons else b.result.rejected word;
      reject_list = b.result.reject_list ++ (c.word ∷ []);
    };
  }

  unfoldable pub filter_from : Taken → Batch F → List (CandidateWord F) → Batch F
  unfolding prepare_candidate reasons_against rank_candidate
  filter_from h b [] = b
  filter_from h b (candidate ∷ candidates) =
      let c = prepare_candidate u candidate in
      filter_from h (settle b c (reasons_against u h b.seen c)) candidates

  abbrev pub empty_batch : Batch F
  empty_batch = record {
    result = record { accepted = []; rejected = λ word. []; reject_list = [] };
    seen = none_taken;
  }

  -- `existingNormalized`, `existingLemma` and `existingGroup`
  unfoldable pub history : List (Word F) → List (DailyLearningPoolItem F) → Taken
  unfolding take_words take_items
  history existing_words same_day_items =
      take_items u same_day_items (take_words u existing_words (none_taken))

  -- The states and the identifiers go into a map that nothing reads.
  unfoldable pub filter_candidates :
      List (CandidateWord F)
      → List (UserWordState F)
      → List (Word F)
      → List Uuid
      → List (DailyLearningPoolItem F)
      → DedupResult F
  unfolding filter_from history slice_stable
  filter_candidates candidates existing_states existing_words seen_new_word_ids same_day_items =
      let b = filter_from (history existing_words same_day_items) empty_batch candidates in
      record b.result { accepted = slice_stable ranks_before b.result.accepted }
