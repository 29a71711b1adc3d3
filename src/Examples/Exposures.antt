-- ===== src/Examples/Exposures.antt =====
-- A new word that is exposed, and a hint that is sent twice.
use wordbit_advanced.Prelude.{
  if◌then◌else◌, ◌≡◌, ◌++◌, arith, false, refl, true, none, some, [], ◌∷◌, ℤ, pos, length, ◌+◌,
}
use wordbit_advanced.Domain.{
  ExposureAction, RevealKind, ReviewMode, PoolItemType, CefrLevel, DailyLearningPoolItem,
  default_user_settings,
}
use wordbit_advanced.Learning.Store.{Store, find_item}
use wordbit_advanced.Learning.Reveal.{
  RevealRequest, submit_reveal, reveal_event, has_recorded_hint_step,
}
use wordbit_advanced.Learning.Reveal.Hints.{submit_reveal-hint_once}
use wordbit_advanced.Learning.Exposure.{
  FirstExposureRequest, submit_first_exposure, submit_with_pool,
}
use wordbit_advanced.ReviewModes.{
  select_configured_review_mode_for_preferences, hardest_enabled_non_reveal_mode,
  select_enabled_review_mode,
}
use wordbit_advanced.Scheduling.Mode.{
  select_review_mode, staged_mode, should_use_advanced_construction_mode,
  maybe_force_build_word_mode, standard_choice,
}
use wordbit_advanced.Scheduling.Weakness.{
  compute_weakness_score_from_ratings, compute_weakness_signal, compute_weakness_recovery,
}
use wordbit_advanced.Examples.Fixed.{fixed}
use wordbit_advanced.Examples.Samples.{evening, card, ascii, open_word}
use wordbit_advanced.Examples.Answers.{service, store}
use wordbit_advanced.Examples.Pools.{heard_set, always_brisk}
use wordbit_advanced.Examples.Generated.{database}
use wordbit_advanced.Pool.Daily.{maintain_daily_buffer}
use wordbit_advanced.Pool.DailyRows.{DailyPoolService}

abbrev hint : RevealRequest
hint = record {
  pool_item_id = 7;
  kind = some RevealKind.hint;
  mode_used = ReviewMode.listening;
  response_time_ms = pos 400;
  client_event_id = "h1";
  hint_step = pos 2;
}

hint_is_recorded : length (submit_reveal evening hint store).1.events ≡ 1
unfolding submit_reveal
hint_is_recorded = refl

hint_is_accepted : (submit_reveal evening hint store).0 ≡ none
unfolding submit_reveal
hint_is_accepted = refl

abbrev next_hint : RevealRequest
next_hint = record hint { client_event_id = "h2"; hint_step = pos 3 }

abbrev two_hints : Store ℤ
two_hints = (submit_reveal (evening + 2) next_hint (submit_reveal evening hint store).1).1

one_more :
    two_hints.events
    ≡ (reveal_event next_hint (evening + 2) card RevealKind.hint ∷ [])
      ++ (submit_reveal evening hint store).1.events
unfolding submit_reveal
one_more = refl

card_is_there : find_item two_hints.items 7 ≡ some card
unfolding submit_reveal
card_is_there = refl

not_before : has_recorded_hint_step 7 (pos 2) store.events ≡ false
unfolding has_recorded_hint_step
not_before = refl

submit_reveal-hint_once_example : submit_reveal (evening + 5) hint two_hints ≡ (none, two_hints)
submit_reveal-hint_once_example =
    submit_reveal-hint_once evening (evening + 5) hint hint store two_hints card
      (reveal_event next_hint (evening + 2) card RevealKind.hint ∷ []) refl refl not_before
      hint_is_accepted refl refl card_is_there refl one_more (omega arith)

abbrev unseen : DailyLearningPoolItem ℤ
unseen = record card {
  item_type = PoolItemType.new;
  review_mode = ReviewMode.reveal;
  first_exposure_required = true;
}

abbrev unseen_store : Store ℤ
unseen_store = record store { items = unseen ∷ [] }

abbrev exposure : FirstExposureRequest
exposure = record {
  pool_item_id = 7;
  action = some ExposureAction.unknown;
  response_time_ms = pos 4000;
  client_event_id = "x1";
  client_session_id = "s1";
}

abbrev pool_service : DailyPoolService ℤ
pool_service = record {
  unicode = ascii;
  memory_cause_inference_enabled = false;
  settings = record (default_user_settings 1) {
    daily_new_word_limit = pos 0;
    cefr_level = CefrLevel.b1;
  };
  default_set = none;
  local_date = service.local_date;
  civil_day = λ t. 20_458;
  end_utc = λ t. t + 1000;
  is_before = λ a b. false;
  words = always_brisk;
  preferences = heard_set;
  list_due_within_window = λ s t short. if short then [] else open_word ∷ [];
  list_weak_candidates = λ s excluded limit. [];
  source = λ s. database;
  fresh_id = service.fresh_id;
  fresh_pool_id = λ pools. length pools + 9;
}

-- The maintenance finds the day's pool and a due review that it has no item for; the exposure adds its follow-up.
exposure_adds_review :
    length (submit_with_pool service none pool_service 1 exposure evening unseen_store).1.items ≡ 3
unfolding submit_first_exposure maintain_daily_buffer select_configured_review_mode_for_preferences
    hardest_enabled_non_reveal_mode select_enabled_review_mode select_review_mode staged_mode
    should_use_advanced_construction_mode maybe_force_build_word_mode standard_choice
    compute_weakness_score_from_ratings compute_weakness_signal compute_weakness_recovery
exposure_adds_review = refl
