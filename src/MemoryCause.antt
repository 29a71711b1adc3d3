-- ===== src/MemoryCause.antt =====
-- internal/service/memory_cause.go: why an answer failed or was slow, inferred from how it was given.
pub mod Distance
use wordbit_advanced.Prelude.{
  ℕ, zero, suc, ◌+◌, ◌-◌, ◌*◌, ◌/◌, Bool, true, false, not, ◌&&◌, ◌||◌, Option, none, some, List,
  [], ◌∷◌, ◌++◌, ltb, leb, nat_beq, ◌==◌, if◌then◌else◌, ℤ, pos, ltb_ℤ, leb_ℤ, Text, text_eq, bytes,
  length, take, contains,
}
use wordbit_advanced.Float64.{Float64}
use wordbit_advanced.Domain.{
  Time, add_seconds, Uuid, ReviewMode, ReviewInputMethod, WordStatus, MemoryCause, UserWordState,
  Word, mode_eq, status_eq,
}
use mathlib.Core.List.{reverse}
use wordbit_advanced.Normalization.{Unicode, blank, normalize_word, trim_space}
use wordbit_advanced.Scheduling.Feedback.{is_nil, is_word_construction_mode}
use wordbit_advanced.Scheduling.Mode.{answered_wrong}

pub record MemoryCauseInput (F : Type 0) : Type 0 where
  pub state : UserWordState F
  pub target_word : Word F
  pub mode_used : ReviewMode
  pub answer_correct : Bool
  pub revealed_meaning_before_answer : Bool
  pub revealed_example_before_answer : Bool
  pub used_hint : Bool
  pub response_time_ms : ℤ
  pub input_method : ReviewInputMethod
  -- The bytes of the answer, as `NormalizeTypedAnswerForStorage` gives them.
  pub normalized_typed_answer : List ℕ
  pub selected_choice_confusable_group_key : Text

abbrev pub min3 : ℕ → ℕ → ℕ → ℕ
min3 a b c = if leb a b && leb a c then a else if leb b a && leb b c then b else c

-- One row of the table: `diagonal` is `prev[j-1]`, `left` is `curr[j-1]`, and the list holds `prev[j..]`.
unfoldable pub next_row : ℕ → ℕ → ℕ → List ℕ → List ℕ → List ℕ
next_row x diagonal left (y ∷ ys) (above ∷ row) =
    let cost : ℕ = if nat_beq x y then 0 else 1 in
    let cell = min3 (left + 1) (above + 1) (diagonal + cost) in cell ∷ next_row x above cell ys row
next_row x diagonal left _ _ = []

-- The whole of `curr`, from `prev`.
unfoldable pub step_row : ℕ → ℕ → List ℕ → List ℕ → List ℕ
unfolding next_row
step_row i x b [] = i ∷ []
step_row i x b (p0 ∷ prev) = i ∷ next_row x p0 i b prev

-- The outer loop, from row `i` on.
unfoldable pub rows : ℕ → List ℕ → List ℕ → List ℕ → List ℕ
unfolding step_row
rows i [] b prev = prev
rows i (x ∷ a) b prev = rows (i + 1) a b (step_row (i + 1) x b prev)

-- The row 0, 1, …, len(b).
unfoldable pub count_up : ℕ → List ℕ → List ℕ
count_up j [] = j ∷ []
count_up j (_ ∷ b) = j ∷ count_up (j + 1) b

abbrev pub last_or : ℕ → List ℕ → ℕ
last_or d [] = d
last_or d (x ∷ xs) = last_or x xs

abbrev pub bytes_beq : List ℕ → List ℕ → Bool
bytes_beq a b = ◌==◌ ⦃c = text_eq⦄ a b

-- `a` and `b` are the bytes of the strings.
unfoldable pub levenshtein_distance : List ℕ → List ℕ → ℕ
unfolding rows count_up
levenshtein_distance a b =
    if bytes_beq a b
    then 0
    else (if nat_beq (length a) 0
        then length b
        else (if nat_beq (length b) 0 then length a else last_or 0 (rows 0 a b (count_up 0 b))))

unfoldable pub slow_recall_threshold_for_mode : ReviewMode → ℤ
slow_recall_threshold_for_mode ReviewMode.multiple_choice = pos 6000
slow_recall_threshold_for_mode ReviewMode.build_word = pos 9000
slow_recall_threshold_for_mode ReviewMode.fill_blank = pos 9000
slow_recall_threshold_for_mode ReviewMode.listening = pos 9000
slow_recall_threshold_for_mode _ = pos 8000

-- `minDistance` starts below zero, here as `none`.
unfoldable pub min_distance : List ℕ → List Text → Option ℕ → Option ℕ
unfolding levenshtein_distance
min_distance answer [] best = best
min_distance answer (t ∷ ts) none =
    min_distance answer ts (some (levenshtein_distance answer (bytes t)))
min_distance answer (t ∷ ts) (some m) =
    let d = levenshtein_distance answer (bytes t) in
    min_distance answer ts (some (if ltb d m then d else m))

abbrev max_distance : ℕ → ℕ
max_distance longest = if ltb 0 longest && ltb 2 (longest / 4) then longest / 4 else 2

abbrev pub within : Option ℕ → ℕ → Bool
within none m = false
within (some d) m = leb d m

abbrev drop_blanks : List ℕ → List ℕ
drop_blanks [] = []
drop_blanks (b ∷ bs) = let rest = drop_blanks bs in if nat_beq b blank then rest else b ∷ bs

-- `len(strings.TrimSpace(s))` of a stored answer, which holds no white space but blanks.
abbrev answer_length : List ℕ → ℕ
answer_length s = length (drop_blanks (reverse (drop_blanks s)))

module _ (u : Unicode) where
  -- The lengths of the targets and of the answer, which the source appends to them.
  unfoldable pub max_normalized_length : List Text → List ℕ → ℕ
  max_normalized_length [] answer = answer_length answer
  max_normalized_length (v ∷ vs) answer =
      let rest = max_normalized_length vs answer in
      let n = length (bytes (trim_space u v)) in if ltb rest n then n else rest

  -- The loop over the three spellings; `seen` and `out` hold the same spellings.
  unfoldable pub accepted_from : List Text → List Text → List Text
  accepted_from out [] = out
  accepted_from out (c ∷ cs) =
      let t = normalize_word u c in
      accepted_from (if t == [] || contains out t then out else (out ++ t ∷ [])) cs

  unfoldable pub normalized_accepted_answers : {F : Type 0} → Word F → List Text
  unfolding accepted_from
  normalized_accepted_answers w = accepted_from [] (w.word ∷ w.canonical_form ∷ w.lemma ∷ [])

  unfoldable pub is_near_miss : {F : Type 0} → MemoryCauseInput F → Bool
  unfolding normalized_accepted_answers max_normalized_length min_distance
  is_near_miss i =
      let targets = normalized_accepted_answers i.target_word in
      let longest = max_normalized_length targets i.normalized_typed_answer in
      within (min_distance i.normalized_typed_answer targets none) (max_distance longest)

  unfoldable pub is_spelling_issue : {F : Type 0} → MemoryCauseInput F → Bool
  is_spelling_issue i =
      (is_word_construction_mode i.mode_used
        && not i.answer_correct
        && not (i.normalized_typed_answer == [])
        && is_near_miss i)
      || (i.mode_used == ReviewMode.multiple_choice
          && i.answer_correct
          && i.state.last_mode == ReviewMode.fill_blank
          && answered_wrong i.state.last_answer_correct)

  unfoldable pub normalize_typed_answer_for_storage : Text → List ℕ
  normalize_typed_answer_for_storage value = take 64 (bytes (normalize_word u value))

abbrev is_mixed_up : {F : Type 0} → MemoryCauseInput F → Bool
is_mixed_up i =
    i.mode_used == ReviewMode.multiple_choice
    && not i.answer_correct
    && not (i.target_word.confusable_group_key == [])
    && not (i.selected_choice_confusable_group_key == [])
    && i.selected_choice_confusable_group_key == i.target_word.confusable_group_key

module _ {F : Type 0} ⦃fl : Float64 F⦄ (u : Unicode) where
  abbrev is_guess : MemoryCauseInput F → Bool
  is_guess i =
      i.mode_used == ReviewMode.multiple_choice
      && i.answer_correct
      && not i.revealed_meaning_before_answer
      && not i.used_hint
      && ltb_ℤ (pos 0) i.response_time_ms
      && ltb_ℤ i.response_time_ms (pos 2500)
      && (fl.le (fl.dec 75 2) i.state.difficulty || fl.le (fl.dec 14 1) i.state.weakness_score)

  unfoldable pub infer_memory_cause : MemoryCauseInput F → MemoryCause
  infer_memory_cause i =
      if i.revealed_meaning_before_answer
      then MemoryCause.forgot_meaning
      else (if is_mixed_up i
          then MemoryCause.mixed_up_word
          else (if is_spelling_issue u i
              then MemoryCause.spelling_issue
              else (if i.answer_correct
                    && not i.revealed_meaning_before_answer
                    && leb_ℤ (slow_recall_threshold_for_mode i.mode_used) i.response_time_ms
                  then MemoryCause.slow_recall
                  else if is_guess i
                  then MemoryCause.guessed_correct
                  else MemoryCause.unset)))

module _ {F : Type 0} where
  -- The switch that counts the cause.
  abbrev count_cause : MemoryCause → UserWordState F → UserWordState F
  count_cause MemoryCause.forgot_meaning st = record st {
    meaning_forget_count = st.meaning_forget_count + 1;
  }
  count_cause MemoryCause.spelling_issue st = record st {
    spelling_issue_count = st.spelling_issue_count + 1;
  }
  count_cause MemoryCause.mixed_up_word st = record st {
    confusable_mixup_count = st.confusable_mixup_count + 1;
  }
  count_cause MemoryCause.slow_recall st = record st {
    slow_recall_count = st.slow_recall_count + 1;
  }
  count_cause MemoryCause.guessed_correct st = record st {
    guessed_correct_count = st.guessed_correct_count + 1;
  }
  count_cause MemoryCause.unset st = st

  unfoldable pub apply_memory_cause : UserWordState F → MemoryCause → ℤ → Bool → UserWordState F
  apply_memory_cause st cause response_time_ms answer_correct = count_cause cause (record st {
    last_memory_cause = cause;
    last_response_time_ms = response_time_ms;
    last_answer_correct = some answer_correct;
  })

module _ {F : Type 0} ⦃fl : Float64 F⦄ where
  -- `slowRecallIntervalBias` and `guessedCorrectIntervalBias`; no other cause moves the interval.
  abbrev interval_bias : MemoryCause → Option F
  interval_bias MemoryCause.slow_recall = some (fl.dec 92 2)
  interval_bias MemoryCause.guessed_correct = some (fl.dec 96 2)
  interval_bias _ = none

  abbrev biased_seconds : ℤ → F → ℤ
  biased_seconds interval multiplier =
      let biased = fl.to_int (fl.mul (fl.of_int interval) multiplier) in
      if ltb_ℤ biased (pos 14_400) then pos 14_400 else biased

  abbrev bias_interval : UserWordState F → Option F → Time → UserWordState F
  bias_interval st none now = st
  bias_interval st (some m) now =
      let seconds = biased_seconds st.interval_seconds m in
      record st { interval_seconds = seconds; next_review_at = some (add_seconds now seconds) }

  unfoldable pub apply_memory_cause_interval_bias :
      UserWordState F → MemoryCause → Time → UserWordState F
  apply_memory_cause_interval_bias st cause now =
      if not (st.status == WordStatus.review)
        || is_nil st.next_review_at
        || leb_ℤ st.interval_seconds (pos 0)
      then st
      else bias_interval st (interval_bias cause) now
