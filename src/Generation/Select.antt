-- ===== src/Generation/Select.antt =====
-- internal/service/pool_service.go, generateNewWordsWithSource: the words of the database first, then
-- those of the language service, attempt by attempt. The database and the language service are the
-- record WordSource; the log of runs and the prompt's wording are left out.
use wordbit_advanced.Prelude.{
  ℕ, zero, suc, ◌+◌, ◌-◌, ◌*◌, Bool, Option, none, some, List, [], ◌∷◌, ◌++◌, map, String,
  string_eq, Text, text_eq, codes, nat_eq, ◌==◌, if◌then◌else◌, contains, length, leb, ltb, nat_beq,
  pos, ◌+ℤ◌,
}
use wordbit_advanced.Float64.{Float64}
use wordbit_advanced.Domain.{
  Time, Uuid, hour, Word, UserWordState, DailyLearningPoolItem, Json, JsonMap, CefrLevel,
}
use wordbit_advanced.Normalization.{Unicode}
use wordbit_advanced.ReviewModes.{GeneratedItemKind, classify_word_kind}
use wordbit_advanced.Dedup.{CandidateWord, filter_candidates}
use wordbit_advanced.Dedup.Exclusions.{
  Exclusions, build_generation_exclusions, build_generation_prompt_exclusions,
}
use wordbit_advanced.Generation.Bank.{filter_bank_words, add_word_values}
use wordbit_advanced.Generation.Mix.{
  KindNumbers, compute_generated_item_kind_targets, order_words_by_generated_mix, MixHint,
  build_generated_item_mix_hint,
}

pub record GenerationInput : Type 0 where
  pub cefr_level : CefrLevel
  pub topic : Text
  pub requested_count : ℕ
  pub preferred_language : String
  pub exclude : Exclusions
  pub mix_hint : MixHint

pub record GenerationError : Type 0 where
  -- `errors.Is(err, domain.ErrRateLimited)`
  pub is_rate_limited : Bool
  pub message : String

pub record Candidates (F : Type 0) : Type 0 where
  pub list : List (CandidateWord F)
  pub error : Option GenerationError

pub data Upserted (F : Type 0) : Type 0 where
  stored : Word F → Upserted F
  refused : String → Upserted F

-- What the selection reads of the user's rows, the words and the language service. `upsert_word` is given
-- the candidates that the call has stored so far, `generate` the number of the attempt.
pub record WordSource (F : Type 0) : Type 0 where
  pub existing_states : List (UserWordState F)
  pub load_words : List Uuid → List (Word F)
  pub ids_seen_as_new : Time → List Uuid
  pub list_bank_words : CefrLevel → Text → List Uuid → ℕ → List (Word F)
  pub list_developer_words : Option (CefrLevel → Text → List Uuid → ℕ → List (Word F))
  pub uses_developer_list : Bool
  pub generate : ℕ → GenerationInput → Candidates F
  pub upsert_word : List (CandidateWord F) → CandidateWord F → Upserted F
  pub max_generation_attempts : ℕ
  pub preferred_language : String

abbrev pub seen_new_word_lookback : Time → Time
seen_new_word_lookback now = now - 30 * 24 * hour

-- The variables of the selection. `stored` are the candidates that were written.
pub record Selection (F : Type 0) : Type 0 where
  pub words : List (Word F)
  pub ids : List Uuid
  pub kinds : KindNumbers
  pub names : List Text
  pub known : List (Word F)
  pub prompt : Exclusions
  pub rejections : Text → List String
  pub stored : List (CandidateWord F)

-- `selectedKindCounts[kind]++`
abbrev pub count_kind : GeneratedItemKind → KindNumbers → KindNumbers
count_kind GeneratedItemKind.single_word n = record n { single_word = n.single_word +ℤ pos 1 }
count_kind GeneratedItemKind.phrasal_verb n = record n { phrasal_verb = n.phrasal_verb +ℤ pos 1 }
count_kind GeneratedItemKind.collocation n = record n { collocation = n.collocation +ℤ pos 1 }

abbrev pub state_word_ids : {F : Type 0} → List (UserWordState F) → List Uuid
state_word_ids states = map (λ st. st.word_id) states

abbrev pub pool_word_ids : {F : Type 0} → List (DailyLearningPoolItem F) → List Uuid
pool_word_ids items = map (λ item. item.word_id) items

-- `metadata[key] = value`
abbrev pub put_field : {F : Type 0} → String → Json F → JsonMap F → JsonMap F
put_field key value [] = (key, value) ∷ []
put_field key value ((k, v) ∷ rest) =
    if k == key then (key, value) ∷ rest else (k, v) ∷ put_field key value rest

abbrev pub mark_developer_list_fallback_candidate : {F : Type 0} → CandidateWord F → CandidateWord F
mark_developer_list_fallback_candidate c = record c {
  source_provider = codes "developer_list_llm_fallback";
  source_metadata = put_field "source" (Json.text "developer_list_llm_fallback") c.source_metadata;
}

abbrev pub set_rejection : Text → List String → (Text → List String) → Text → List String
set_rejection word reasons old key = if key == word then reasons else old key

-- The reasons of an attempt, where the map has the word, in place of the old ones.
abbrev pub overwrite : List String → List String → List String
overwrite old [] = old
overwrite old (r ∷ reasons) = r ∷ reasons

-- The words already taken, by their identifiers.
pub record Blocked : Type 0 where
  pub seen_new : List Uuid
  pub existing : List Uuid
  pub seeded : List Uuid

-- The reason against a stored word
abbrev pub duplicate_reason : Blocked → List Uuid → Uuid → Option String
duplicate_reason blocked selected id =
    if contains blocked.seen_new id
    then some "recent new duplicate after upsert"
    else if contains blocked.existing id
    then some "existing word state duplicate after upsert"
    else if contains blocked.seeded id
    then some "seed pool duplicate after upsert"
    else if contains selected id
    then some "selected duplicate after upsert"
    else none

module _ {F : Type 0} (u : Unicode) where
  unfoldable pub select_word : Word F → Selection F → Selection F
  unfolding classify_word_kind
  select_word w sel = record sel {
    words = sel.words ++ (w ∷ []);
    ids = w.id ∷ sel.ids;
    kinds = count_kind (classify_word_kind u w) sel.kinds;
    names = sel.names ++ (w.word ∷ []);
    known = sel.known ++ (w ∷ []);
  }

  -- The loops over `filteredBankWords`. The second does not add to the known words, which nothing reads after it.
  unfoldable pub take_bank_words : ℕ → List (Word F) → Selection F → Selection F
  unfolding select_word
  take_bank_words quota [] sel = sel
  take_bank_words quota (w ∷ words) sel =
      let rest =
        take_bank_words quota words (if contains sel.ids w.id then sel else select_word w sel) in
      if leb quota (length sel.words) then sel else rest

  abbrev pub select_generated : Word F → Selection F → Selection F
  select_generated w sel =
      let sel' = select_word w sel in record sel' { prompt = add_word_values u w sel.prompt }

  abbrev pub settle_stored :
      ℕ → CandidateWord F → Word F → Option String → Selection F → Selection F
  settle_stored quota c w (some reason) sel = record sel {
    rejections = set_rejection c.word (sel.rejections c.word ++ (reason ∷ [])) sel.rejections;
  }
  settle_stored quota c w none sel =
      if leb quota (length sel.words) then sel else select_generated w sel

  abbrev pub settle_upsert : ℕ → Blocked → CandidateWord F → Upserted F → Selection F → Selection F
  settle_upsert quota blocked c (refused e) sel = record sel {
    rejections = set_rejection c.word (e ∷ []) sel.rejections;
  }
  settle_upsert quota blocked c (stored w) sel =
      settle_stored quota c w (duplicate_reason blocked sel.ids w.id)
        (record sel { stored = c ∷ sel.stored })

  -- The loop over the accepted candidates
  unfoldable pub store_accepted :
      WordSource F → ℕ → Blocked → Bool → List (CandidateWord F) → Selection F → Selection F
  unfolding select_word
  store_accepted source quota blocked mark [] sel = sel
  store_accepted source quota blocked mark (candidate ∷ candidates) sel =
      let c = if mark then mark_developer_list_fallback_candidate candidate else candidate in
      store_accepted source quota blocked mark candidates
        (settle_upsert quota blocked c (source.upsert_word sel.stored c) sel)

abbrev pub min_ℕ : ℕ → ℕ → ℕ
min_ℕ a b = if ltb b a then b else a

-- What a call is asked for.
pub record GenerationRequest (F : Type 0) : Type 0 where
  pub cefr_level : CefrLevel
  pub topic : Text
  pub quota : ℕ
  pub seed_items : List (DailyLearningPoolItem F)
  pub now : Time
  pub for_developer_list : Bool

abbrev pub blocked_words : {F : Type 0} → WordSource F → GenerationRequest F → Blocked
blocked_words source r = record {
  seen_new = source.ids_seen_as_new (seen_new_word_lookback r.now);
  existing = state_word_ids source.existing_states;
  seeded = pool_word_ids r.seed_items;
}

module _ {F : Type 0} ⦃fl : Float64 F⦄ (u : Unicode) (source : WordSource F)
    (r : GenerationRequest F) where
  abbrev pub generation_input : Selection F → GenerationInput
  generation_input sel =
      let remaining = r.quota - length sel.words in
      record {
        cefr_level = r.cefr_level;
        topic = r.topic;
        requested_count = min_ℕ (remaining + 5) 10;
        preferred_language = source.preferred_language;
        exclude = sel.prompt;
        mix_hint =
            build_generated_item_mix_hint (compute_generated_item_kind_targets (pos r.quota))
              sel.kinds remaining;
      }

  -- The selection after the rejections of an attempt, and the candidates that it accepted.
  unfoldable pub filter_attempt :
      List (CandidateWord F) → Selection F → List (CandidateWord F) × Selection F
  unfolding filter_candidates
  filter_attempt candidates sel =
      let b = blocked_words source r in
      let result =
        filter_candidates u candidates source.existing_states (sel.known ++ sel.words) b.seen_new
          r.seed_items in
      (
        result.accepted,
        record sel { rejections = λ word. overwrite (sel.rejections word) (result.rejected word) },
      )

  -- One attempt goes on with the next one or ends the loop, and may leave an error.
  abbrev pub after_attempt :
      List (CandidateWord F)
      → Option GenerationError
      → Option GenerationError
      → Selection F
      → (Option GenerationError → Selection F → Selection F × Option GenerationError)
      → Selection F × Option GenerationError
  after_attempt accepted (some e) last_error sel next =
      if e.is_rate_limited then (sel, some e) else next (some e) sel
  after_attempt accepted none last_error sel next =
      let sel' =
        store_accepted u source r.quota (blocked_words source r) r.for_developer_list accepted
          sel in
      if nat_beq (length sel'.words) (length sel.words)
      then (sel', last_error)
      else next last_error sel'

  unfoldable pub attempt_from :
      ℕ → ℕ → Option GenerationError → Selection F → Selection F × Option GenerationError
  unfolding filter_attempt store_accepted build_generated_item_mix_hint
      compute_generated_item_kind_targets
  attempt_from zero attempt last_error sel = (sel, last_error)
  attempt_from (suc left) attempt last_error sel =
      let generated = source.generate attempt (generation_input sel) in
      let (accepted, sel') = filter_attempt generated.list sel in
      let done =
        after_attempt accepted generated.error last_error sel' (attempt_from left (attempt + 1)) in
      if leb r.quota (length sel.words) then (sel, last_error) else done

  abbrev pub known_words : List (Word F)
  known_words = source.load_words (state_word_ids source.existing_states)

  -- `filteredBankWords`
  unfoldable pub bank_words : List (Word F)
  unfolding order_words_by_generated_mix filter_bank_words build_generation_exclusions
      compute_generated_item_kind_targets
  bank_words =
      let b = blocked_words source r in
      order_words_by_generated_mix u (compute_generated_item_kind_targets (pos r.quota)) (
        filter_bank_words u
          (source.list_bank_words r.cefr_level r.topic (b.existing ++ b.seeded)
            (min_ℕ (r.quota + 5) 20))
          (build_generation_exclusions u known_words source.existing_states r.seed_items)
          b.seen_new)

  abbrev pub start_selection : Selection F
  start_selection = record {
    words = [];
    ids = [];
    kinds = record { single_word = pos 0; phrasal_verb = pos 0; collocation = pos 0 };
    names = [];
    known = known_words;
    prompt = build_generation_prompt_exclusions u known_words source.existing_states r.seed_items;
    rejections = λ word. [];
    stored = [];
  }

  -- The selection of a positive quota, and the last error of the language service.
  unfoldable pub select_new_words : Selection F × Option GenerationError
  unfolding take_bank_words attempt_from bank_words build_generation_prompt_exclusions
  select_new_words =
      let (sel, last_error) =
        attempt_from source.max_generation_attempts 1 none
          (take_bank_words u r.quota bank_words start_selection) in
      (take_bank_words u r.quota bank_words sel, last_error)
