-- ===== src/Examples/Candidates.antt =====
-- Generated words on a sample batch, and the choice of a day's new words.
use wordbit_advanced.Prelude.{
  ◌≡◌, ◌+◌, ◌≢◌, none, List, [], ◌∷◌, Text, codes, text_eq, nat_eq, ℤ, pos, refl, arith, All,
  AllPairs, count_if, ◌==◌, ltb_ℤ,
}
use wordbit_advanced.Sorting.Laws.{IsSorted, IsWeakOrder}
use wordbit_advanced.Dedup.{CandidateWord, filter_candidates, ranks_before}
use wordbit_advanced.Dedup.Accepted.{filter_candidates-IsDeduplicated, AreDistinct}
use wordbit_advanced.Dedup.Unseen.{IsUnseen}
use wordbit_advanced.Dedup.Accounting.{filter_candidates-IsSorted}
use wordbit_advanced.Dedup.Exclusions.{build_generation_prompt_exclusions, word_of_item, word_by_id}
use wordbit_advanced.Dedup.Exclusions.Found.{prompt_exclusions-AreCapped, AreCapped, HasFound}
use wordbit_advanced.Examples.Fixed.{fixed}
use wordbit_advanced.Examples.Samples.{open_word, ascii, brisk, card}

abbrev candidate : CandidateWord ℤ
candidate = record {
  word = codes "Swift";
  canonical_form = codes "swift";
  lemma = codes "swift";
  word_family = [];
  confusable_group_key = [];
  part_of_speech = codes "adjective";
  level = codes "B2";
  topic = codes "travel";
  ipa = [];
  pronunciation_hint = [];
  vietnamese_meaning = codes "nhanh";
  english_meaning = codes "fast";
  example_sentence_1 = [];
  example_sentence_2 = [];
  common_rate = none;
  source_provider = [];
  source_metadata = [];
  normalized_form = [];
  ranking_score = pos 0;
  validation_issues = [];
}

abbrev batch : List (CandidateWord ℤ)
batch = candidate ∷ record candidate { word = codes "brisk" } ∷ record candidate { topic = [] } ∷ []

fixed-IsWeakOrder : IsWeakOrder ltb_ℤ
fixed-IsWeakOrder = record {
  asymmetric = λ a b h. ground (arith, h);
  through = λ a b c h k. ground (arith, h, k);
}

filter_candidates-IsDeduplicated_example :
    let accepted =
      (filter_candidates ascii batch (open_word ∷ []) (brisk ∷ []) [] (card ∷ [])).accepted in
    All (IsUnseen ascii (brisk ∷ []) (card ∷ [])) accepted × AllPairs (AreDistinct ascii) accepted
filter_candidates-IsDeduplicated_example =
    filter_candidates-IsDeduplicated ascii batch (open_word ∷ []) (brisk ∷ []) [] (card ∷ [])

filter_candidates-IsSorted_example :
    let r = filter_candidates ascii batch (open_word ∷ []) (brisk ∷ []) [] (card ∷ []) in
    let p = λ (w : Text). w == codes "brisk" in
    IsSorted ranks_before r.accepted
    × (count_if (λ c. p c.word) r.accepted + count_if p r.reject_list
        ≡ count_if (λ c. p c.word) batch)
    × All (λ word. r.rejected word ≢ []) r.reject_list
filter_candidates-IsSorted_example =
    filter_candidates-IsSorted ascii batch (open_word ∷ []) (brisk ∷ []) [] (card ∷ [])
      (λ w. w == codes "brisk") fixed-IsWeakOrder

prompt_exclusions-AreCapped_example :
    let e = build_generation_prompt_exclusions ascii (brisk ∷ []) (open_word ∷ []) (card ∷ []) in
    AreCapped e
    × All (λ item. HasFound ascii (word_of_item ascii (brisk ∷ []) item) e) (card ∷ [])
    × All (λ st. HasFound ascii (word_by_id ascii (brisk ∷ []) st.word_id) e) (open_word ∷ [])
prompt_exclusions-AreCapped_example =
    prompt_exclusions-AreCapped ascii (brisk ∷ []) (open_word ∷ []) (card ∷ [])

-- The batch's first word is accepted, the other two are not.
accepted_words :
    count_if
      (λ c. c.word == codes "Swift")
      (filter_candidates ascii batch [] (brisk ∷ []) [] []).accepted
    ≡ 1
unfolding filter_candidates
accepted_words = refl
