-- ===== src/Dictionary.antt =====
-- internal/service/dictionary_service.go, word_import_buffer_service.go: the words that a user enters or imports, and
-- the state of a word that is listed as known or unknown. The wording of errors is left out.
pub mod Trimmed
pub mod Listed
use wordbit_advanced.Prelude.{
  Bool, true, false, not, Option, none, some, List, [], ◌∷◌, ◌||◌, Text, text_eq, codes, String,
  ◌==◌, if◌then◌else◌, pos,
}
use wordbit_advanced.Float64.{Float64}
use wordbit_advanced.Domain.{Time, Uuid, WordStatus, Json, JsonMap, UserWordState}
use wordbit_advanced.Normalization.{Unicode, trim_space, normalize_word, confusable_group_for}
use wordbit_advanced.Scheduling.Outcome.{apply_first_exposure_unknown, apply_first_exposure_known}
use wordbit_advanced.Learning.Answer.{init_state_from_snapshot}
use wordbit_advanced.Dedup.{CandidateWord}

pub data DictionaryListStatus : Type 0 where
  unknown known : DictionaryListStatus

-- The level, the common rate and the status are texts, as they were sent.
pub record DictionaryUpsertInput (F : Type 0) : Type 0 where
  pub word : Text
  pub canonical_form : Text
  pub lemma : Text
  pub word_family : Text
  pub confusable_group_key : Text
  pub part_of_speech : Text
  pub level : Text
  pub topic : Text
  pub ipa : Text
  pub pronunciation_hint : Text
  pub vietnamese_meaning : Text
  pub english_meaning : Text
  pub example_sentence_1 : Text
  pub example_sentence_2 : Text
  pub common_rate : Option Text
  pub source_provider : Text
  pub source_metadata : JsonMap F
  pub list_status : Text
  pub word_set_id : Option Uuid

abbrev pub if_empty : Text → Text → Text
if_empty t default = if t == [] then default else t

abbrev pub is_level : Text → Bool
is_level t = t == codes "B1" || (t == codes "B2" || (t == codes "C1" || t == codes "C2"))

unfoldable pub normalize_dictionary_list_status : Unicode → Text → Option DictionaryListStatus
unfolding trim_space
normalize_dictionary_list_status u value =
    let v = u.to_lower (trim_space u value) in
    if v == [] || v == codes "unknown"
    then some DictionaryListStatus.unknown
    else if v == codes "known"
    then some DictionaryListStatus.known
    else none

abbrev pub list_status_for_state : WordStatus → DictionaryListStatus
list_status_for_state WordStatus.known = DictionaryListStatus.known
list_status_for_state _ = DictionaryListStatus.unknown

module _ {F : Type 0} where
  abbrev pub or_manual : JsonMap F → JsonMap F
  or_manual [] = ("source", Json.text "dictionary_manual") ∷ []
  or_manual (field ∷ fields) = field ∷ fields

  abbrev pub with_status :
      CandidateWord F
      → Option DictionaryListStatus
      → Option (CandidateWord F × DictionaryListStatus)
  with_status c none = none
  with_status c (some status) = some (c, status)

module _ {F : Type 0} (fl : Float64 F) (u : Unicode) where
  -- The candidate of an input that passes the checks. Its score and issues are Go's zero values.
  unfoldable pub dictionary_candidate : DictionaryUpsertInput F → Text → CandidateWord F
  unfolding trim_space normalize_word confusable_group_for
  dictionary_candidate input level =
      let word = trim_space u input.word in
      let canonical = if_empty (trim_space u input.canonical_form) word in
      let lemma = if_empty (trim_space u input.lemma) canonical in
      record {
        word = word;
        canonical_form = canonical;
        lemma = lemma;
        word_family = trim_space u input.word_family;
        confusable_group_key =
            if_empty (trim_space u input.confusable_group_key)
              (confusable_group_for u word canonical lemma);
        part_of_speech = trim_space u input.part_of_speech;
        level = level;
        topic = if_empty (trim_space u input.topic) (codes "Dictionary");
        ipa = trim_space u input.ipa;
        pronunciation_hint = trim_space u input.pronunciation_hint;
        vietnamese_meaning = trim_space u input.vietnamese_meaning;
        english_meaning = trim_space u input.english_meaning;
        example_sentence_1 = trim_space u input.example_sentence_1;
        example_sentence_2 = trim_space u input.example_sentence_2;
        common_rate = input.common_rate;
        source_provider = if_empty (trim_space u input.source_provider) (codes "manual");
        source_metadata = or_manual input.source_metadata;
        normalized_form = normalize_word u word;
        ranking_score = fl.dec 0 0;
        validation_issues = [];
      }

  -- `none` is a validation error.
  unfoldable pub sanitize_dictionary_candidate :
      DictionaryUpsertInput F → Text → Option (CandidateWord F × DictionaryListStatus)
  unfolding dictionary_candidate normalize_dictionary_list_status
  sanitize_dictionary_candidate input default_level =
      let level = if_empty input.level default_level in
      if trim_space u input.word == []
        || (trim_space u input.english_meaning == [] || trim_space u input.vietnamese_meaning == [])
      then none
      else if not (is_level level)
      then none
      else with_status (dictionary_candidate input level)
          (normalize_dictionary_list_status u input.list_status)

  -- The address is given without the blanks around it.
  unfoldable pub prepare_import_buffer_candidate : CandidateWord F → Text → String → CandidateWord F
  unfolding trim_space normalize_word confusable_group_for
  prepare_import_buffer_candidate c raw_word trimmed_url =
      let word = if_empty (trim_space u c.word) (trim_space u raw_word) in
      let canonical = if trim_space u c.canonical_form == [] then word else c.canonical_form in
      let lemma = if trim_space u c.lemma == [] then canonical else c.lemma in
      record c {
        word = word;
        canonical_form = canonical;
        lemma = lemma;
        topic = if trim_space u c.topic == [] then codes "Browser import" else c.topic;
        source_provider = codes "browser_import";
        source_metadata =
            ("source", Json.text "import_buffer") ∷ ("source_url", Json.text trimmed_url) ∷ [];
        normalized_form = normalize_word u word;
        confusable_group_key =
            if trim_space u c.confusable_group_key == []
            then confusable_group_for u word canonical lemma
            else c.confusable_group_key;
      }

abbrev pub candidate_to_dictionary_input :
    {F : Type 0} → CandidateWord F → Uuid → DictionaryUpsertInput F
candidate_to_dictionary_input c set_id = record {
  word = c.word;
  canonical_form = c.canonical_form;
  lemma = c.lemma;
  word_family = c.word_family;
  confusable_group_key = c.confusable_group_key;
  part_of_speech = c.part_of_speech;
  level = c.level;
  topic = c.topic;
  ipa = c.ipa;
  pronunciation_hint = c.pronunciation_hint;
  vietnamese_meaning = c.vietnamese_meaning;
  english_meaning = c.english_meaning;
  example_sentence_1 = c.example_sentence_1;
  example_sentence_2 = c.example_sentence_2;
  common_rate = c.common_rate;
  source_provider = c.source_provider;
  source_metadata = c.source_metadata;
  list_status = codes "unknown";
  word_set_id = some set_id;
}

module _ {F : Type 0} ⦃fl : Float64 F⦄ where
  abbrev pub listed_state : DictionaryListStatus → UserWordState F → Time → UserWordState F
  listed_state DictionaryListStatus.known st now = apply_first_exposure_known st now (pos 0)
  listed_state DictionaryListStatus.unknown st now = apply_first_exposure_unknown st now (pos 0)

  abbrev pub change_status :
      DictionaryListStatus → DictionaryListStatus → UserWordState F → Time → UserWordState F
  change_status DictionaryListStatus.known DictionaryListStatus.known st now = st
  change_status DictionaryListStatus.unknown DictionaryListStatus.unknown st now = st
  change_status DictionaryListStatus.known DictionaryListStatus.unknown st now =
      listed_state DictionaryListStatus.unknown st now
  change_status DictionaryListStatus.unknown DictionaryListStatus.known st now =
      listed_state DictionaryListStatus.known st now

  unfoldable pub apply_list_status_change :
      UserWordState F → DictionaryListStatus → Time → UserWordState F
  unfolding apply_first_exposure_known apply_first_exposure_unknown
  apply_list_status_change st status now =
      change_status (list_status_for_state st.status) status st now

  -- The state of a new entry.
  unfoldable pub initial_state_for_list_status :
      Uuid → Uuid → DictionaryListStatus → Time → UserWordState F
  unfolding init_state_from_snapshot apply_first_exposure_known apply_first_exposure_unknown
  initial_state_for_list_status user_id word_id status now =
      listed_state status (init_state_from_snapshot fl user_id word_id none none now) now
