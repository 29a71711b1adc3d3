-- ===== src/Scheduling/Outcome.antt =====
-- internal/service/logic.go: what a first exposure, a review answer and a bonus-practice answer make
-- of a word's state.
pub mod Stages
pub mod Counters
pub mod Bounds
use wordbit_advanced.Prelude.{
  ℕ, suc, ◌+◌, ◌*◌, not, ◌&&◌, ◌||◌, Option, none, some, ltb, leb, ◌==◌, nat_eq, if◌then◌else◌, ℤ,
  pos, ltb_ℤ, max_int,
}
use wordbit_advanced.Float64.{Float64, max_float, min_float}
use wordbit_advanced.Domain.{
  Time, add_seconds, ReviewMode, ReviewRating, WordStatus, UserWordState, mode_eq, rating_eq,
}
use wordbit_advanced.Scheduling.Weakness.{
  update_avg_response_time, compute_weakness_score_from_ratings,
}

abbrev pub time_pointer_or_now : Option Time → Time → Option Time
time_pointer_or_now none now = some now
time_pointer_or_now (some t) now = some t

-- A step's duration, in whole seconds as `duration.Seconds()` gives it, the next stage and the status.
pub record ConsolidationStep : Type 0 where
  pub duration : ℕ
  pub next_stage : ℕ
  pub status : WordStatus

abbrev step : ℕ → ℕ → WordStatus → ConsolidationStep
step d n s = record { duration = d; next_stage = n; status = s }

unfoldable pub next_consolidation_step : ℕ → ReviewRating → ConsolidationStep
next_consolidation_step stage rating =
    if rating == ReviewRating.hard
    then (if stage == 1
        then step 300 1 WordStatus.learning
        else if stage == 2
        then step 28_800 2 WordStatus.learning
        else step 86_400 3 WordStatus.learning)
    else (if stage == 1
        then step 28_800 2 WordStatus.learning
        else if stage == 2
        then step 86_400 3 WordStatus.learning
        else step 172_800 0 WordStatus.review)

-- `mode != "" && mode == state.LastMode` extends the streak, anything else starts one.
abbrev pub next_streak : ReviewMode → ReviewMode → ℕ → ℕ
next_streak mode last streak =
    if not (mode == ReviewMode.unset) && mode == last then streak + 1 else 1

module _ {F : Type 0} ⦃fl : Float64 F⦄ where
  abbrev pub clamp_difficulty : F → F
  clamp_difficulty x = min_float (max_float x (fl.dec 1 1)) (fl.dec 95 2)

  unfoldable pub apply_first_exposure_unknown : UserWordState F → Time → ℤ → UserWordState F
  apply_first_exposure_unknown st now response_time_ms =
      let st1 : UserWordState F = record st {
        status = WordStatus.learning;
        first_seen_at = time_pointer_or_now st.first_seen_at now;
        last_seen_at = some now;
        next_review_at = some (add_seconds now (pos 600));
        interval_seconds = pos 600;
        learning_stage = 1;
        stability = fl.dec 5 1;
        difficulty = max_float st.difficulty (fl.dec 5 1);
        review_count = st.review_count + 1;
        avg_response_time_ms =
            update_avg_response_time fl st.avg_response_time_ms (st.review_count + 1)
              response_time_ms;
      } in
      record st1 { weakness_score = compute_weakness_score_from_ratings st1 }

  unfoldable pub apply_first_exposure_known : UserWordState F → Time → ℤ → UserWordState F
  apply_first_exposure_known st now response_time_ms = record st {
    status = WordStatus.known;
    first_seen_at = time_pointer_or_now st.first_seen_at now;
    last_seen_at = some now;
    known_at = some now;
    next_review_at = none;
    interval_seconds = pos 0;
    learning_stage = 0;
    stability = max_float st.stability (fl.dec 30 1);
    difficulty =
        min_float (max_float (fl.sub st.difficulty (fl.dec 2 1)) (fl.dec 1 1)) (fl.dec 9 1);
    avg_response_time_ms =
        update_avg_response_time fl st.avg_response_time_ms
          (if ltb 1 st.review_count then st.review_count else 1) response_time_ms;
    weakness_score = fl.dec 0 1;
  }

  unfoldable pub effective_easy_review_interval_multiplier : UserWordState F → ℕ → ℕ → F
  effective_easy_review_interval_multiplier st easy hard =
      if hard == 0 && leb 4 easy && st.word_construction_struggle_count == 0
      then fl.dec 185 2
      else if leb 3 hard || leb 2 st.word_construction_struggle_count
      then fl.dec 145 2
      else fl.dec 165 2

  unfoldable pub effective_medium_review_interval_multiplier :
      UserWordState F → ℕ → ℕ → ℕ → ReviewRating → F
  effective_medium_review_interval_multiplier st reviews easy hard last_rating =
      if last_rating == ReviewRating.hard
        || leb 2 hard
        || leb 3 st.wrong_count
        || leb 2 st.word_construction_struggle_count
      then fl.dec 82 2
      else if hard == 0 && leb 3 easy && leb (if ltb 1 reviews then reviews else 1) (easy * 2)
      then fl.dec 125 2
      else fl.dec 105 2

  -- The head of `ApplyReviewOutcome`: the answer is recorded, whatever the stage.
  unfoldable pub record_answer :
      UserWordState F → ReviewRating → ReviewMode → Time → ℤ → UserWordState F
  record_answer st rating mode now response_time_ms = record st {
    last_seen_at = some now;
    last_rating = rating;
    mode_streak_count = next_streak mode st.last_mode st.mode_streak_count;
    last_mode = mode;
    review_count = st.review_count + 1;
    avg_response_time_ms =
        update_avg_response_time fl st.avg_response_time_ms (st.review_count + 1) response_time_ms;
    easy_count = if rating == ReviewRating.easy then st.easy_count + 1 else st.easy_count;
    medium_count = if rating == ReviewRating.medium then st.medium_count + 1 else st.medium_count;
    hard_count = if rating == ReviewRating.hard then st.hard_count + 1 else st.hard_count;
    wrong_count = if rating == ReviewRating.hard then st.wrong_count + 1 else st.wrong_count;
  }

  -- The branch `state.LearningStage > 0`.
  unfoldable pub consolidate : UserWordState F → ReviewRating → Time → UserWordState F
  consolidate st rating now =
      let s = next_consolidation_step st.learning_stage rating in
      let hard = rating == ReviewRating.hard in
      let st1 : UserWordState F = record st {
        learning_stage = s.next_stage;
        status = s.status;
        interval_seconds = pos s.duration;
        next_review_at = some (add_seconds now (pos s.duration));
        difficulty =
            if hard
            then min_float (fl.add st.difficulty (fl.dec 12 2)) (fl.dec 95 2)
            else clamp_difficulty (fl.sub st.difficulty (fl.dec 5 2));
        stability =
            if hard
            then max_float (fl.mul st.stability (fl.dec 8 1)) (fl.dec 4 1)
            else max_float (fl.add st.stability (fl.dec 3 1)) (fl.dec 7 1);
      } in
      record st1 { weakness_score = compute_weakness_score_from_ratings st1 }

  abbrev reviewed_difficulty : ReviewRating → F → F
  reviewed_difficulty ReviewRating.easy d = clamp_difficulty (fl.sub d (fl.dec 8 2))
  reviewed_difficulty ReviewRating.medium d = clamp_difficulty (fl.sub d (fl.dec 2 2))
  reviewed_difficulty ReviewRating.hard d = min_float (fl.add d (fl.dec 1 1)) (fl.dec 95 2)
  reviewed_difficulty _ d = d

  abbrev reviewed_stability : ReviewRating → F → F
  reviewed_stability ReviewRating.easy s = fl.add s (fl.dec 6 1)
  reviewed_stability ReviewRating.medium s = fl.add s (fl.dec 25 2)
  reviewed_stability ReviewRating.hard s = max_float (fl.mul s (fl.dec 85 2)) (fl.dec 6 1)
  reviewed_stability _ s = s

  -- `old` is the state before the answer and `st` the one after `record_answer`.
  abbrev interval_multiplier : ReviewRating → UserWordState F → UserWordState F → F
  interval_multiplier ReviewRating.easy old st =
      effective_easy_review_interval_multiplier st old.easy_count old.hard_count
  interval_multiplier ReviewRating.medium old st =
      effective_medium_review_interval_multiplier st old.review_count old.easy_count old.hard_count
        old.last_rating
  interval_multiplier ReviewRating.hard old st = fl.dec 30 2
  interval_multiplier _ old st = fl.dec 10 1

  -- The rest of `ApplyReviewOutcome`, for a word in open review.
  unfoldable pub reschedule :
      UserWordState F → UserWordState F → ReviewRating → Time → UserWordState F
  reschedule old st rating now =
      let base = max_int st.interval_seconds (pos 86_400) in
      let stability = reviewed_stability rating st.stability in
      let factor = fl.add (fl.dec 1 0) (fl.div stability (fl.dec 5 0)) in
      let raw =
        fl.to_int (fl.mul (fl.mul (fl.of_int base) (interval_multiplier rating old st)) factor) in
      let seconds =
        if rating == ReviewRating.hard && ltb_ℤ raw (pos 14_400) then pos 14_400 else raw in
      let st1 : UserWordState F = record st {
        difficulty = reviewed_difficulty rating st.difficulty;
        stability = stability;
        interval_seconds = seconds;
        next_review_at = some (add_seconds now seconds);
        status = WordStatus.review;
      } in
      record st1 { weakness_score = compute_weakness_score_from_ratings st1 }

  unfoldable pub apply_review_outcome :
      UserWordState F → ReviewRating → ReviewMode → Time → ℤ → UserWordState F
  apply_review_outcome old rating mode now response_time_ms =
      let st = record_answer old rating mode now response_time_ms in
      if ltb 0 st.learning_stage then consolidate st rating now else reschedule old st rating now

  -- The score that each rating of a bonus exercise leaves, from the baseline.
  abbrev bonus_score : ReviewRating → UserWordState F → F → ℤ → F
  bonus_score ReviewRating.easy st baseline ms =
      max_float (fl.dec 0 1)
        (fl.mul baseline (if ltb_ℤ (pos 9000) ms then fl.dec 65 2 else fl.dec 55 2))
  bonus_score ReviewRating.medium st baseline ms =
      max_float (fl.dec 0 1)
        (fl.mul baseline (if ltb_ℤ (pos 9000) ms then fl.dec 9 1 else fl.dec 8 1))
  bonus_score ReviewRating.hard st baseline ms =
      fl.add (max_float baseline (compute_weakness_score_from_ratings st)) (fl.dec 35 2)
  bonus_score _ st baseline ms = baseline

  unfoldable pub apply_bonus_practice_outcome :
      UserWordState F → ReviewRating → ReviewMode → Time → ℤ → UserWordState F
  apply_bonus_practice_outcome old rating mode now response_time_ms =
      let st1 : UserWordState F = record old {
        last_seen_at = some now;
        last_rating = rating;
        mode_streak_count = next_streak mode old.last_mode old.mode_streak_count;
        last_mode = mode;
      } in
      let baseline =
        if fl.le st1.weakness_score (fl.dec 0 1)
        then compute_weakness_score_from_ratings st1
        else st1.weakness_score in
      let st2 : UserWordState F = record st1 {
        wrong_count = if rating == ReviewRating.hard then st1.wrong_count + 1 else st1.wrong_count;
      } in
      record st2 { weakness_score = bonus_score rating st2 baseline response_time_ms }
