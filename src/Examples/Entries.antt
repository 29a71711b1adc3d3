-- ===== src/Examples/Entries.antt =====
-- A word that a user enters by hand.
use wordbit_advanced.Prelude.{◌≡◌, ◌≢◌, refl, none, some, [], ℤ, codes}
use wordbit_advanced.Normalization.{trim_space, normalize_word}
use wordbit_advanced.Dedup.{validate_candidate}
use wordbit_advanced.Dictionary.{
  DictionaryUpsertInput, DictionaryListStatus, dictionary_candidate, sanitize_dictionary_candidate,
}
use wordbit_advanced.Dictionary.Listed.{sanitize_dictionary_candidate-valid}
use wordbit_advanced.Examples.Fixed.{fixed}
use wordbit_advanced.Examples.Samples.{ascii}

abbrev entry : DictionaryUpsertInput ℤ
entry = record {
  word = codes " Brisk ";
  canonical_form = [];
  lemma = [];
  word_family = [];
  confusable_group_key = [];
  part_of_speech = codes "adjective";
  level = [];
  topic = [];
  ipa = [];
  pronunciation_hint = [];
  vietnamese_meaning = codes "nhanh";
  english_meaning = codes "quick";
  example_sentence_1 = [];
  example_sentence_2 = [];
  common_rate = none;
  source_provider = [];
  source_metadata = [];
  list_status = codes "Known";
  word_set_id = none;
}

entry_is_accepted :
    sanitize_dictionary_candidate fixed ascii entry (codes "B1")
    ≡ some (dictionary_candidate fixed ascii entry (codes "B1"), DictionaryListStatus.known)
unfolding sanitize_dictionary_candidate
entry_is_accepted = refl

topic_is_text : trim_space ascii (codes "Dictionary") ≢ []
unfolding trim_space
topic_is_text h = cc

entry_is_spelled : normalize_word ascii (trim_space ascii entry.word) ≢ []
unfolding normalize_word
entry_is_spelled h = cc

sanitize_dictionary_candidate-valid_example :
    validate_candidate ascii (dictionary_candidate fixed ascii entry (codes "B1")) ≡ []
sanitize_dictionary_candidate-valid_example =
    sanitize_dictionary_candidate-valid fixed ascii entry (codes "B1")
      (dictionary_candidate fixed ascii entry (codes "B1")) DictionaryListStatus.known topic_is_text
      entry_is_accepted entry_is_spelled refl
