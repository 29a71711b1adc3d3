-- ===== src/Learning/Answer/Lifecycle.antt =====
-- internal/service/learning_service.go: what holds of every state that a word can reach.
use wordbit_advanced.Prelude.{
  ℕ, zero, suc, ◌≤◌, ◌<◌, ◌≡◌, ◌↔◌, ◌⊎◌, Bool, true, false, Option, none, some, arith, ℤ, inl, inr,
  if◌then◌else◌,
}
use wordbit_advanced.Float64.{Float64}
use wordbit_advanced.Domain.{
  Time, Uuid, ReviewMode, ReviewRating, MemoryCause, WordStatus, UserWordState, RevealKind,
}
use wordbit_advanced.Scheduling.Outcome.{
  apply_review_outcome, apply_first_exposure_unknown, apply_first_exposure_known,
  apply_bonus_practice_outcome,
}
use wordbit_advanced.Scheduling.Outcome.Stages.{apply_review_outcome-climb, climb, status_at}
use wordbit_advanced.Scheduling.Outcome.Bounds.{apply_review_outcome-open}
use wordbit_advanced.Scheduling.Outcome.Counters.{
  CountersAgree, ratings_of, apply_review_outcome-CountersAgree, exposure_unknown-CountersAgree,
  exposure_known-CountersAgree, bonus-CountersAgree, bonus_keeps_schedule,
}
use wordbit_advanced.Scheduling.Feedback.{
  record_struggle, shorten_review_after_construction_struggle, apply_word_construction_feedback,
}
use wordbit_advanced.MemoryCause.{apply_memory_cause, apply_memory_cause_interval_bias}
use wordbit_advanced.Learning.Answer.{
  ReviewRequest, init_state_from_snapshot, answered_state, revealed_state, is_answer_correct,
  hints_used,
}

-- Stage, status and due time of a word agree.
pub record IsScheduled {F : Type 0} (st : UserWordState F) : Type 0 where
  pub stage_le : st.learning_stage ≤ 3
  pub learning_iff : (st.status ≡ WordStatus.learning) ↔ (0 < st.learning_stage)
  pub known_iff : (st.status ≡ WordStatus.known) ↔ (st.next_review_at ≡ none)

climb-le : (rating : ReviewRating) (stage : ℕ) → stage ≤ 3 → climb rating stage ≤ 3
climb-le rating zero le = ground arith
climb-le rating (suc zero) le = ground arith
climb-le rating (suc (suc zero)) le = ground arith
climb-le rating (suc (suc (suc stage))) le = ground arith

module _ {F : Type 0} ⦃fl : Float64 F⦄ where
  -- The second state is scheduled like the first, but for the time of a review that is due, and has its
  -- counters.
  abbrev IsLike : UserWordState F → UserWordState F → Type 0
  IsLike st st' =
      (st'.learning_stage ≡ st.learning_stage)
      × (st'.status ≡ st.status)
      × ((st'.next_review_at ≡ none) ↔ (st.next_review_at ≡ none))
      × (st'.review_count ≡ st.review_count)
      × (st'.wrong_count ≡ st.wrong_count)
      × (ratings_of st' ≡ ratings_of st)
      × (st'.hard_count ≡ st.hard_count)

  exposure_unknown-IsScheduled :
      (st : UserWordState F) (now : Time) (ms : ℤ)
      → IsScheduled (apply_first_exposure_unknown st now ms)
  unfolding apply_first_exposure_unknown
  exposure_unknown-IsScheduled st now ms = ground arith

  exposure_known-IsScheduled :
      (st : UserWordState F) (now : Time) (ms : ℤ)
      → IsScheduled (apply_first_exposure_known st now ms)
  unfolding apply_first_exposure_known
  exposure_known-IsScheduled st now ms = ground arith

  bonus-IsScheduled :
      (st : UserWordState F) (rating : ReviewRating) (mode : ReviewMode) (now : Time) (ms : ℤ)
      → IsScheduled st
      → IsScheduled (apply_bonus_practice_outcome st rating mode now ms)
  bonus-IsScheduled st rating mode now ms s =
      ground (arith, bonus_keeps_schedule st rating mode now ms)

  at-IsScheduled :
      (st : UserWordState F) (stage : ℕ) (due : Time)
      → stage ≤ 3
      → st.learning_stage ≡ stage
      → st.status ≡ status_at stage
      → st.next_review_at ≡ some due
      → IsScheduled st
  at-IsScheduled st zero due le e s d = ground arith
  at-IsScheduled st (suc stage) due le e s d = ground arith

  review-IsScheduled :
      (st : UserWordState F) (rating : ReviewRating) (mode : ReviewMode) (now : Time) (ms : ℤ)
      → st.learning_stage ≤ 3
      → IsScheduled (apply_review_outcome st rating mode now ms)
  review-IsScheduled st rating mode now ms le = elim (positive st.learning_stage) [
    | inl zero_stage ↦
        let (stage, status, due, floor) =
          apply_review_outcome-open st rating mode now ms zero_stage in
        at-IsScheduled (apply_review_outcome st rating mode now ms) 0 _ (omega arith) stage status
          due
    | inr lo ↦
        let (stage, status, seconds, due) =
          apply_review_outcome-climb st rating mode now ms lo le in
        at-IsScheduled (apply_review_outcome st rating mode now ms) (climb rating st.learning_stage)
          _ (climb-le rating st.learning_stage le) stage status due
  ]
    where
      positive : (n : ℕ) → (n ≡ 0) ⊎ (0 < n)
      positive zero = inl (omega arith)
      positive (suc n) = inr (omega arith)

  bias-IsLike :
      (st : UserWordState F) (cause : MemoryCause) (now : Time)
      → IsLike st (apply_memory_cause_interval_bias st cause now)
  unfolding apply_memory_cause_interval_bias
  bias-IsLike st cause now = ground arith

  cause-IsLike :
      (st : UserWordState F) (cause : MemoryCause) (ms : ℤ) (correct : Bool)
      → IsLike st (apply_memory_cause st cause ms correct)
  unfolding apply_memory_cause
  cause-IsLike st cause ms correct = ground arith

  feedback-IsLike :
      (st : UserWordState F) (mode : ReviewMode) (correct : Bool) (hints limit wrong ms : ℤ)
      (now : Time)
      → IsLike st (apply_word_construction_feedback st mode correct hints limit wrong ms now)
  unfolding apply_word_construction_feedback record_struggle
      shorten_review_after_construction_struggle
  feedback-IsLike st mode correct hints limit wrong ms now = ground arith

  -- Stage, status and due time agree, and so do the counters.
  abbrev pub IsSound : UserWordState F → Type 0
  IsSound st = IsScheduled st × CountersAgree st

  like-IsSound : (st st' : UserWordState F) → IsLike st st' → IsSound st → IsSound st'
  like-IsSound st st' l (s, c) = (ground arith, ground arith)

  caused-IsSound :
      (enabled : Bool) (cause : MemoryCause) (st : UserWordState F) (ms : ℤ) (correct : Bool)
      → IsSound st
      → IsSound (if enabled then apply_memory_cause st cause ms correct else st)
  caused-IsSound true cause st ms correct sound =
      like-IsSound st (apply_memory_cause st cause ms correct) (cause-IsLike st cause ms correct)
        sound
  caused-IsSound false cause st ms correct sound = sound

  biased-IsSound :
      (enabled : Bool) (cause : MemoryCause) (st : UserWordState F) (now : Time)
      → IsSound st
      → IsSound (if enabled then apply_memory_cause_interval_bias st cause now else st)
  biased-IsSound true cause st now sound =
      like-IsSound st (apply_memory_cause_interval_bias st cause now) (bias-IsLike st cause now)
        sound
  biased-IsSound false cause st now sound = sound

  answered_state-IsSound :
      (enabled bonus : Bool) (cause : MemoryCause) (st : UserWordState F) (req : ReviewRequest)
      (now : Time)
      → IsSound st
      → IsSound (answered_state enabled bonus cause st req now)
  unfolding answered_state
  answered_state-IsSound enabled true cause st req now (s, c) =
      let ms = req.response_time_ms in
      let st1 = apply_bonus_practice_outcome st req.rating req.mode_used now ms in
      let sound : IsSound st1 = (
        bonus-IsScheduled st req.rating req.mode_used now ms s,
        bonus-CountersAgree st req.rating req.mode_used now ms c,
      ) in
      caused-IsSound enabled cause st1 ms (is_answer_correct req) sound
  answered_state-IsSound enabled false cause st req now (s, c) =
      let ms = req.response_time_ms in
      let correct = is_answer_correct req in
      let st1 = apply_review_outcome st req.rating req.mode_used now ms in
      let sound : IsSound st1 = (
        review-IsScheduled st req.rating req.mode_used now ms s.stage_le,
        apply_review_outcome-CountersAgree st req.rating req.mode_used now ms c,
      ) in
      let st2 = if enabled then apply_memory_cause_interval_bias st1 cause now else st1 in
      let st3 = if enabled then apply_memory_cause st2 cause ms correct else st2 in
      like-IsSound st3 _
        (feedback-IsLike st3 req.mode_used correct (hints_used req) req.hint_limit
          req.wrong_attempt_count ms now)
        (caused-IsSound enabled cause st2 ms correct (biased-IsSound enabled cause st1 now sound))

  revealed_state-IsSound :
      (kind : RevealKind) (st : UserWordState F) → IsSound st → IsSound (revealed_state kind st)
  unfolding revealed_state
  revealed_state-IsSound RevealKind.meaning st (s, c) = (ground arith, ground arith)
  revealed_state-IsSound RevealKind.example st (s, c) = (ground arith, ground arith)
  revealed_state-IsSound RevealKind.hint st (s, c) = (ground arith, ground arith)

  init-CountersAgree :
      (user_id word_id : Uuid) (set : Option Uuid) (now : Time)
      → CountersAgree (init_state_from_snapshot fl user_id word_id none set now)
  unfolding init_state_from_snapshot
  init-CountersAgree user_id word_id set now = ground arith

  -- The states that a word can reach: it is met for the first time, or met again in its present state,
  -- as unknown or as known; it is answered, in a review or as bonus practice, with the inference of
  -- causes switched on or off and any cause; or a part of its card is revealed.
  pub data Reached : UserWordState F → Type 0 where
    met_unknown :
        (user_id word_id : Uuid) (set : Option Uuid) (now : Time) (ms : ℤ)
        → Reached (
            apply_first_exposure_unknown
              (init_state_from_snapshot fl user_id word_id none set now)
              now
              ms)
    met_known :
        (user_id word_id : Uuid) (set : Option Uuid) (now : Time) (ms : ℤ)
        → Reached (
            apply_first_exposure_known
              (init_state_from_snapshot fl user_id word_id none set now)
              now
              ms)
    again_unknown :
        (st : UserWordState F) (now : Time) (ms : ℤ)
        → Reached st
        → Reached (apply_first_exposure_unknown st now ms)
    again_known :
        (st : UserWordState F) (now : Time) (ms : ℤ)
        → Reached st
        → Reached (apply_first_exposure_known st now ms)
    answered :
        (enabled bonus : Bool) (cause : MemoryCause) (st : UserWordState F) (req : ReviewRequest)
        (now : Time)
        → Reached st
        → Reached (answered_state enabled bonus cause st req now)
    revealed :
        (kind : RevealKind) (st : UserWordState F) → Reached st → Reached (revealed_state kind st)

  -- Every state that a word can reach is consistent: its stage is at most three, it is in the status
  -- `learning` exactly while the stage is positive, and has no review planned exactly when it is known;
  -- it has no more ratings than answers and no more hard ratings than wrong answers.
  pub Reached-IsSound : (st : UserWordState F) → Reached st → IsSound st
  Reached-IsSound _ (Reached.met_unknown user_id word_id set now ms) =
      let st = init_state_from_snapshot fl user_id word_id none set now in
      (
        exposure_unknown-IsScheduled st now ms,
        exposure_unknown-CountersAgree st now ms (init-CountersAgree user_id word_id set now),
      )
  Reached-IsSound _ (Reached.met_known user_id word_id set now ms) =
      let st = init_state_from_snapshot fl user_id word_id none set now in
      (
        exposure_known-IsScheduled st now ms,
        exposure_known-CountersAgree st now ms (init-CountersAgree user_id word_id set now),
      )
  Reached-IsSound _ (Reached.again_unknown st now ms r) =
      let (s, c) = Reached-IsSound st r in
      (exposure_unknown-IsScheduled st now ms, exposure_unknown-CountersAgree st now ms c)
  Reached-IsSound _ (Reached.again_known st now ms r) =
      let (s, c) = Reached-IsSound st r in
      (exposure_known-IsScheduled st now ms, exposure_known-CountersAgree st now ms c)
  Reached-IsSound _ (Reached.answered enabled bonus cause st req now r) =
      answered_state-IsSound enabled bonus cause st req now (Reached-IsSound st r)
  Reached-IsSound _ (Reached.revealed kind st r) =
      revealed_state-IsSound kind st (Reached-IsSound st r)
