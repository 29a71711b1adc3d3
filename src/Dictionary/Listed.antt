-- ===== src/Dictionary/Listed.antt =====
-- sanitizeDictionaryCandidate and applyListStatusChange: what becomes of an entry of the dictionary.
use wordbit_advanced.Prelude.{
  arith, ◌≡◌, ◌≢◌, refl, sym, ap, subst, true, false, ◌||◌, Option, none, some, [], ◌∷◌, Text,
  text_eq, text_beq_iff, codes, ◌==◌, if_elim, Bool-cases, inl, inr,
}
use wordbit_advanced.Float64.{Float64}
use wordbit_advanced.Domain.{Time, UserWordState}
use wordbit_advanced.Normalization.{Unicode, trim_space, normalize_word}
use wordbit_advanced.Scheduling.Outcome.{apply_first_exposure_unknown, apply_first_exposure_known}
use wordbit_advanced.Dedup.{CandidateWord, is_invalid_rate, validate_candidate}
use wordbit_advanced.Dictionary.Trimmed.{trim_space-again}
use wordbit_advanced.Dictionary.{
  DictionaryListStatus, DictionaryUpsertInput, if_empty, is_level, normalize_dictionary_list_status,
  list_status_for_state, with_status, dictionary_candidate, sanitize_dictionary_candidate,
  apply_list_status_change, change_status,
}

is_level-full : (t : Text) → is_level t ≡ true → (t == []) ≡ false
is_level-full [] h = cc
is_level-full (r ∷ rs) h = refl

not_empty : (t : Text) → t ≢ [] → (t == []) ≡ false
not_empty [] h = absurd (h refl)
not_empty (r ∷ rs) h = refl

module _ (u : Unicode) where
  still_full :
      (t : Text) → (trim_space u t == []) ≡ false → (trim_space u (trim_space u t) == []) ≡ false
  still_full t h = not_empty (trim_space u (trim_space u t)) (λ e.
      let k = (text_beq_iff (trim_space u t) []).1 (trim_space-again u t e) in ground (arith, h, k))

  topic_full :
      (t : Text)
      → trim_space u (codes "Dictionary") ≢ []
      → (trim_space u (if_empty (trim_space u t) (codes "Dictionary")) == []) ≡ false
  topic_full t letters =
      if_elim (λ (x : Text). (trim_space u x == []) ≡ false) (trim_space u t == [])
        (λ empty. not_empty (trim_space u (codes "Dictionary")) letters) (λ full. still_full t full)

module _ {F : Type 0} (u : Unicode) where
  validate_candidate-nil :
      (c : CandidateWord F)
      → (trim_space u c.word == []) ≡ false
      → (c.level == []) ≡ false
      → (trim_space u c.topic == []) ≡ false
      → (trim_space u c.english_meaning == []) ≡ false
      → (trim_space u c.vietnamese_meaning == []) ≡ false
      → (normalize_word u c.word == []) ≡ false
      → is_invalid_rate u c.common_rate ≡ false
      → validate_candidate u c ≡ []
  unfolding validate_candidate
  validate_candidate-nil c a b d e f g h = rw (a, b, d, e, f, g, h) refl

module _ {F : Type 0} (fl : Float64 F) (u : Unicode) where
  -- The parts of an input that passes the checks.
  record IsPassed (input : DictionaryUpsertInput F) (level : Text) (c : CandidateWord F)
      : Type 0 where
    word : (trim_space u input.word == []) ≡ false
    english : (trim_space u input.english_meaning == []) ≡ false
    vietnamese : (trim_space u input.vietnamese_meaning == []) ≡ false
    known_level : is_level level ≡ true
    is_made : c ≡ dictionary_candidate fl u input level

  with_status-inv :
      (c d : CandidateWord F) (o : Option DictionaryListStatus) (status : DictionaryListStatus)
      → with_status c o ≡ some (d, status)
      → d ≡ c
  with_status-inv c d none status h = cc
  with_status-inv c d (some s) status h = cc

  sanitize-IsPassed :
      (input : DictionaryUpsertInput F) (default_level : Text) (c : CandidateWord F)
      (status : DictionaryListStatus)
      → sanitize_dictionary_candidate fl u input default_level ≡ some (c, status)
      → IsPassed input (if_empty input.level default_level) c
  unfolding sanitize_dictionary_candidate
  sanitize-IsPassed input default_level c status h =
      let level = if_empty input.level default_level in
      let blank =
        trim_space u input.word == []
        || (trim_space u input.english_meaning == []
            || trim_space u input.vietnamese_meaning == []) in
      elim (Bool-cases blank) [
        | inl empty ↦ (let k = rw empty at h in cc)
        | inr full ↦ elim (Bool-cases (is_level level)) [
          | inr other ↦ (let k = rw other at (rw full at h) in cc)
          | inl there ↦ record {
            word = ground (arith, full);
            english = ground (arith, full);
            vietnamese = ground (arith, full);
            known_level = there;
            is_made =
                with_status-inv (dictionary_candidate fl u input level) c
                  (normalize_dictionary_list_status u input.list_status) status
                  (rw there at (rw full at h));
          }
        ]
      ]

  -- An entry that is accepted is one that FilterCandidates would find valid, where its word has a normalized form and
  -- its common rate is a known one, and where "Dictionary" is not all blanks.
  pub sanitize_dictionary_candidate-valid :
      (input : DictionaryUpsertInput F) (default_level : Text) (c : CandidateWord F)
      (status : DictionaryListStatus)
      → trim_space u (codes "Dictionary") ≢ []
      → sanitize_dictionary_candidate fl u input default_level ≡ some (c, status)
      → normalize_word u (trim_space u input.word) ≢ []
      → is_invalid_rate u input.common_rate ≡ false
      → validate_candidate u c ≡ []
  unfolding dictionary_candidate
  sanitize_dictionary_candidate-valid input default_level c status letters h spelled rate =
      let level = if_empty input.level default_level in
      let p = sanitize-IsPassed input default_level c status h in
      subst (λ d. validate_candidate u d ≡ []) (sym p.is_made)
        (validate_candidate-nil u (dictionary_candidate fl u input level)
          (still_full u input.word p.word) (is_level-full level p.known_level)
          (topic_full u input.topic letters) (still_full u input.english_meaning p.english)
          (still_full u input.vietnamese_meaning p.vietnamese) (not_empty _ spelled) rate)

module _ {F : Type 0} ⦃fl : Float64 F⦄ where
  changed_settles :
      (current : DictionaryListStatus) (st : UserWordState F) (wanted : DictionaryListStatus)
      (now later : Time)
      → list_status_for_state st.status ≡ current
      → let st' = change_status current wanted st now in
        (list_status_for_state st'.status ≡ wanted)
        × (change_status (list_status_for_state st'.status) wanted st' later ≡ st')
  unfolding apply_first_exposure_known apply_first_exposure_unknown
  changed_settles DictionaryListStatus.known st DictionaryListStatus.known now later e =
      (e, ap (λ c. change_status c DictionaryListStatus.known st later) e)
  changed_settles DictionaryListStatus.unknown st DictionaryListStatus.unknown now later e =
      (e, ap (λ c. change_status c DictionaryListStatus.unknown st later) e)
  changed_settles DictionaryListStatus.known st DictionaryListStatus.unknown now later e =
      (refl, refl)
  changed_settles DictionaryListStatus.unknown st DictionaryListStatus.known now later e =
      (refl, refl)

  -- Listing a word as known or unknown gives its state that status, and listing it so again changes nothing.
  apply_list_status_change-settles :
      (st : UserWordState F) (wanted : DictionaryListStatus) (now later : Time)
      → let st' = apply_list_status_change st wanted now in
        (list_status_for_state st'.status ≡ wanted)
        × (apply_list_status_change st' wanted later ≡ st')
  unfolding apply_list_status_change
  apply_list_status_change-settles st wanted now later =
      changed_settles (list_status_for_state st.status) st wanted now later refl
