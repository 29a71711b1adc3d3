-- ===== src/DynamicReview/Prompts.antt =====
-- internal/service/dynamic_review_service.go, ensurePrompts and generateAndPersistChunk. The language service, the
-- identifiers of new rows and the reading of dates are the record PromptSource; the log of runs and the examples
-- that are appended to the words are left out.
pub mod Words
pub mod Stored
pub mod Asked
use wordbit_advanced.Prelude.{
  ℕ, zero, suc, ◌+◌, ◌-◌, ◌*◌, ◌/◌, Bool, true, false, not, ◌&&◌, ◌||◌, Option, none, some, List,
  [], ◌∷◌, ◌++◌, String, string_eq, Text, nat_eq, nat_beq, ltb, leb, ◌==◌, if◌then◌else◌, contains,
  length, take, drop, map,
}
use wordbit_advanced.Domain.{Time, Uuid, ReviewMode, DailyLearningPoolItem, mode_eq}
use wordbit_advanced.Normalization.{Unicode, trim_space}
use wordbit_advanced.DynamicReview.{
  DynamicReviewKey, key_eq, DynamicReviewCandidate, candidate_key, select_dynamic_review_candidates,
  is_dynamic_review_prompt_mode, is_reviewed_again,
}
use wordbit_advanced.DynamicReview.Table.{
  DynamicReviewPromptPayload, DailyDynamicReviewPrompt, row_key, upsert_prompt, list_by_local_date,
  list_latest_for_user_words, build_dynamic_review_cooldown_key_set,
}
use wordbit_advanced.DynamicReview.Validation.{
  DynamicReviewPromptBatchItem, PromptIssue, validate_dynamic_review_payload,
}

-- The language service's answer to a request, or its error.
pub data Generated : Type 0 where
  failed : String → Generated
  answered : List DynamicReviewPromptBatchItem → Generated

-- What a call depends on. The functions of the requests are given those that were made so far, the last one first.
pub record PromptSource (F : Type 0) : Type 0 where
  pub unicode : Unicode
  pub sort_slice :
      (DynamicReviewCandidate F → DynamicReviewCandidate F → Bool)
      → List (DynamicReviewCandidate F)
      → List (DynamicReviewCandidate F)
  pub generate :
      List (List (DynamicReviewCandidate F)) → List (DynamicReviewCandidate F) → Generated
  pub new_id : List DailyDynamicReviewPrompt → Uuid
  pub run_id : List (List (DynamicReviewCandidate F)) → Uuid
  pub stamp : List (List (DynamicReviewCandidate F)) → String
  pub now : Time
  -- The day of a date, `time.Parse("2006-01-02", date)`
  pub parse_date : String → Option ℕ

-- The rows of the table, and the requests that were made.
pub record PromptStore (F : Type 0) : Type 0 where
  pub prompts : List DailyDynamicReviewPrompt
  pub requests : List (List (DynamicReviewCandidate F))

abbrev pub dynamic_review_prompt_chunk_size : ℕ
dynamic_review_prompt_chunk_size = 25

module _ {A : Type 0} where
  -- The slices of the loop over the missing candidates, for as many rounds as are left.
  unfoldable pub chunks_of : ℕ → List A → List (List A)
  chunks_of zero l = []
  chunks_of (suc rounds) [] = []
  chunks_of (suc rounds) (x ∷ xs) =
      take dynamic_review_prompt_chunk_size (x ∷ xs)
      ∷ chunks_of rounds (drop dynamic_review_prompt_chunk_size (x ∷ xs))

abbrev pub or_none : {A : Type 0} → (ℕ → A) → Option ℕ → Option A
or_none f none = none
or_none f (some n) = some (f n)

module _ {F : Type 0} where
  -- The first place of the current key among the candidates.
  unfoldable pub index_of : DynamicReviewKey → List (DynamicReviewCandidate F) → Option ℕ
  index_of key [] = none
  index_of key (c ∷ cs) = if candidate_key c == key then some 0 else or_none suc (index_of key cs)

  unfoldable pub without_keys :
      (DynamicReviewKey → Bool) → List (DynamicReviewCandidate F) → List (DynamicReviewCandidate F)
  without_keys has_prompt [] = []
  without_keys has_prompt (c ∷ cs) =
      let rest = without_keys has_prompt cs in
      if has_prompt (candidate_key c) then rest else c ∷ rest

  -- The chunk that the current key stands in.
  abbrev pub chunk_at : List (DynamicReviewCandidate F) → Option ℕ → List (DynamicReviewCandidate F)
  chunk_at missing none = []
  chunk_at missing (some index) =
      take dynamic_review_prompt_chunk_size
        (drop (index / dynamic_review_prompt_chunk_size * dynamic_review_prompt_chunk_size) missing)

  abbrev pub wanted :
      Option DynamicReviewKey → List (DynamicReviewCandidate F) → List (DynamicReviewCandidate F)
  wanted none missing = missing
  wanted (some key) missing = chunk_at missing (index_of key missing)

pub data ChunkError : Type 0 where
  generation : String → ChunkError
  validation : List PromptIssue → ChunkError

pub data Saved : Type 0 where
  saved : ℕ → Saved
  unsaved : ChunkError → Saved

abbrev pub is_backfill : Option DynamicReviewKey → Bool
is_backfill none = false
is_backfill (some key) = true

module _ {F : Type 0} (source : PromptSource F) (user_id : Uuid) (local_date : String) where
  -- The row of a prompt, with the requests that were made before and the one for it.
  abbrev pub row_of :
      List DailyDynamicReviewPrompt
      → List (List (DynamicReviewCandidate F))
      → DynamicReviewPromptBatchItem
      → DailyDynamicReviewPrompt
  row_of rows requests item = record {
    id = source.new_id rows;
    user_id = user_id;
    local_date = local_date;
    word_id = item.word_id;
    review_mode = item.review_mode;
    payload = record {
      prompt_text = trim_space source.unicode item.prompt_text;
      source = "llm_daily_mode245";
      generated_at = source.stamp requests;
    };
    llm_run_id = some (source.run_id requests);
    created_at = source.now;
    updated_at = source.now;
  }

  unfoldable pub upsert_batch :
      List (List (DynamicReviewCandidate F))
      → List DynamicReviewPromptBatchItem
      → List DailyDynamicReviewPrompt
      → List DailyDynamicReviewPrompt
  unfolding upsert_prompt trim_space
  upsert_batch requests [] rows = rows
  upsert_batch requests (item ∷ items) rows =
      upsert_batch requests items (upsert_prompt (row_of rows requests item) rows)

  abbrev pub settle_issues :
      List PromptIssue → List DynamicReviewPromptBatchItem → PromptStore F → Saved × PromptStore F
  settle_issues (i ∷ issues) items st = (unsaved (ChunkError.validation (i ∷ issues)), st)
  settle_issues [] items st =
      (saved (length items), record st { prompts = upsert_batch st.requests items st.prompts })

  abbrev pub settle_generated :
      List (DynamicReviewCandidate F) → Generated → PromptStore F → Saved × PromptStore F
  settle_generated chunk (failed e) st = (unsaved (ChunkError.generation e), st)
  settle_generated chunk (answered items) st =
      settle_issues (validate_dynamic_review_payload source.unicode items chunk) items st

  unfoldable pub generate_and_persist_chunk :
      List (DynamicReviewCandidate F) → PromptStore F → Saved × PromptStore F
  unfolding upsert_batch validate_dynamic_review_payload
  generate_and_persist_chunk [] st = (saved 0, st)
  generate_and_persist_chunk (c ∷ cs) st =
      settle_generated (c ∷ cs) (source.generate st.requests (c ∷ cs))
        (record st { requests = (c ∷ cs) ∷ st.requests })

  abbrev pub Ensured : Type 0
  Ensured = (ℕ × Option ChunkError) × PromptStore F

  -- A backfill ends with its one chunk; a prewarm goes on after an error.
  abbrev pub after_chunk :
      Bool → ℕ → Saved × PromptStore F → (ℕ → PromptStore F → Ensured) → Ensured
  after_chunk backfill generated (saved n, st) next =
      if backfill then ((generated + n, none), st) else next (generated + n) st
  after_chunk backfill generated (unsaved e, st) next =
      if backfill then ((generated, some e), st) else next generated st

  unfoldable pub generate_chunks :
      Bool → List (List (DynamicReviewCandidate F)) → ℕ → PromptStore F → Ensured
  unfolding generate_and_persist_chunk
  generate_chunks backfill [] generated st = ((generated, none), st)
  generate_chunks backfill (chunk ∷ chunks) generated st =
      after_chunk backfill generated (generate_and_persist_chunk chunk st)
        (generate_chunks backfill chunks)

  abbrev pub candidate_word_ids : List (DynamicReviewCandidate F) → List Uuid
  candidate_word_ids cs = map (λ c. c.word_id) cs

  -- Whether the day or the cooldown has a prompt of the key. `historical` asks for the candidates' words.
  unfoldable pub is_prompted :
      List (DynamicReviewCandidate F) → List DailyDynamicReviewPrompt → DynamicReviewKey → Bool
  unfolding list_by_local_date list_latest_for_user_words build_dynamic_review_cooldown_key_set
  is_prompted candidates rows key =
      let existing = map row_key (list_by_local_date user_id local_date rows) in
      let historical =
        list_latest_for_user_words source.parse_date user_id (candidate_word_ids candidates) rows in
      let cooldown =
        build_dynamic_review_cooldown_key_set source.parse_date user_id local_date historical in
      contains existing key || contains cooldown key

  unfoldable pub missing_candidates :
      List (DailyLearningPoolItem F)
      → List DailyDynamicReviewPrompt
      → List (DynamicReviewCandidate F)
  unfolding select_dynamic_review_candidates is_prompted without_keys
  missing_candidates items rows =
      let candidates = select_dynamic_review_candidates source.unicode source.sort_slice items in
      without_keys (is_prompted candidates rows) candidates

  unfoldable pub ensure_prompts :
      List (DailyLearningPoolItem F) → Option DynamicReviewKey → PromptStore F → Ensured
  unfolding missing_candidates index_of chunks_of generate_chunks
  ensure_prompts items current st =
      let missing = wanted current (missing_candidates items st.prompts) in
      generate_chunks (is_backfill current) (chunks_of (length missing) missing) 0 st

  unfoldable pub backfill_for_current_card :
      List (DailyLearningPoolItem F)
      → DailyLearningPoolItem F
      → PromptStore F
      → Option ChunkError × PromptStore F
  unfolding ensure_prompts
  backfill_for_current_card items current st =
      let (result, st') = ensure_prompts items (some (current.word_id, current.review_mode)) st in
      if is_reviewed_again current.item_type && is_dynamic_review_prompt_mode current.review_mode
      then (result.1, st')
      else (none, st)
