-- ===== src/DynamicReview/Prompts/Stored.antt =====
-- ensurePrompts: every prompt in the table is fit for its word and mode.
use wordbit_advanced.Prelude.{
  ℕ, arith, ◌≡◌, refl, ap, subst, Bool, true, false, text_eq, Option, some, List, [], ◌∷◌,
  Bool-cases, inl, inr, All, length, String,
}
use wordbit_advanced.Domain.{Uuid, Word, DailyLearningPoolItem}
use wordbit_advanced.Normalization.{Unicode}
use wordbit_advanced.DynamicReview.{
  DynamicReviewKey, key_eq, key_beq_iff, DynamicReviewCandidate, comes_before, collect_candidates,
  select_dynamic_review_candidates,
}
use wordbit_advanced.DynamicReview.Validation.{
  DynamicReviewPromptBatchItem, validate_dynamic_review_payload, PromptIssue,
}
use wordbit_advanced.DynamicReview.Validation.Sound.{IsFitPrompt}
use wordbit_advanced.DynamicReview.Validation.Batch.{
  IsAnswer, validate_dynamic_review_payload-IsSoundBatch,
}
use wordbit_advanced.DynamicReview.Prompts.Words.{
  All-In, chunks_of-All, IsOf, collect-All, without_keys-All, wanted-All,
}
use wordbit_advanced.DynamicReview.Table.{
  DailyDynamicReviewPrompt, row_key, conflicts, upsert_prompt,
}
use wordbit_advanced.DynamicReview.Prompts.{
  PromptSource, PromptStore, Generated, failed, answered, Saved, chunks_of, wanted, row_of,
  upsert_batch, settle_issues, settle_generated, generate_and_persist_chunk, after_chunk,
  generate_chunks, missing_candidates, is_prompted, ensure_prompts, is_backfill, Ensured,
}

module _ {F : Type 0} (u : Unicode) (words : Uuid → Word F) where
  -- A stored prompt that is fit for its word in its mode.
  abbrev pub IsFitRow : DailyDynamicReviewPrompt → Type 0
  IsFitRow p = IsFitPrompt u (words p.word_id) p.review_mode p.payload.prompt_text

  upsert_prompt-All :
      (p : DailyDynamicReviewPrompt) (rows : List DailyDynamicReviewPrompt)
      → IsFitRow p
      → All IsFitRow rows
      → All IsFitRow (upsert_prompt p rows)
  unfolding upsert_prompt
  upsert_prompt-All p [] fit all = (fit, tt)
  upsert_prompt-All p (q ∷ rows) fit (fit_q, all) =
      let rest = upsert_prompt-All p rows fit all in
      elim (Bool-cases (conflicts p q)) [
        | inr other ↦ rw other (fit_q, rest)
        | inl same ↦
            (let e = (key_beq_iff (row_key p) (row_key q)).0 (ground (arith, same)) in
              let fits =
                subst
                  (λ (k : DynamicReviewKey). IsFitPrompt u (words k.0) k.1 p.payload.prompt_text) e
                  fit in
              rw same (fits, all))
      ]

module _ {F : Type 0} (source : PromptSource F) (words : Uuid → Word F) (user_id : Uuid)
    (local_date : String) where
  abbrev AllFit : List DailyDynamicReviewPrompt → Type 0
  AllFit rows = All (IsFitRow source.unicode words) rows

  row_of-IsFitRow :
      (rows : List DailyDynamicReviewPrompt) (requests : List (List (DynamicReviewCandidate F)))
      (chunk : List (DynamicReviewCandidate F)) (item : DynamicReviewPromptBatchItem)
      → All (IsOf words) chunk
      → IsAnswer source.unicode chunk item
      → IsFitRow source.unicode words (row_of source user_id local_date rows requests item)
  row_of-IsFitRow rows requests chunk item of answer =
      let c = answer.candidate in
      let own = All-In (IsOf words) chunk c of answer.place in
      let fit = subst (λ w. IsFitPrompt source.unicode w item.review_mode _) own answer.fit in
      subst (λ id. IsFitPrompt source.unicode (words id) item.review_mode _)
        (ap (λ (k : DynamicReviewKey). k.0) answer.its_key) fit

  upsert_batch-All :
      (requests : List (List (DynamicReviewCandidate F))) (chunk : List (DynamicReviewCandidate F))
      (items : List DynamicReviewPromptBatchItem) (rows : List DailyDynamicReviewPrompt)
      → All (IsOf words) chunk
      → All (IsAnswer source.unicode chunk) items
      → AllFit rows
      → AllFit (upsert_batch source user_id local_date requests items rows)
  unfolding upsert_batch
  upsert_batch-All requests chunk [] rows of answers all = all
  upsert_batch-All requests chunk (item ∷ items) rows of (answer, answers) all =
      let row = row_of source user_id local_date rows requests item in
      upsert_batch-All requests chunk items (upsert_prompt row rows) of answers (
        upsert_prompt-All source.unicode words row rows
          (row_of-IsFitRow rows requests chunk item of answer) all)

  settle_issues-All :
      (issues : List PromptIssue) (items : List DynamicReviewPromptBatchItem)
      (chunk : List (DynamicReviewCandidate F)) (st : PromptStore F)
      → All (IsOf words) chunk
      → (issues ≡ [] → All (IsAnswer source.unicode chunk) items)
      → AllFit st.prompts
      → AllFit (settle_issues source user_id local_date issues items st).1.prompts
  settle_issues-All (i ∷ issues) items chunk st of answers all = all
  settle_issues-All [] items chunk st of answers all =
      upsert_batch-All st.requests chunk items st.prompts of (answers refl) all

  settle_generated-All :
      (chunk : List (DynamicReviewCandidate F)) (g : Generated) (st : PromptStore F)
      → All (IsOf words) chunk
      → AllFit st.prompts
      → AllFit (settle_generated source user_id local_date chunk g st).1.prompts
  settle_generated-All chunk (failed e) st of all = all
  settle_generated-All chunk (answered items) st of all =
      settle_issues-All (validate_dynamic_review_payload source.unicode items chunk) items chunk st
        of
        (λ none_here.
          (validate_dynamic_review_payload-IsSoundBatch source.unicode items chunk
            none_here).answers)
        all

  chunk-All :
      (chunk : List (DynamicReviewCandidate F)) (st : PromptStore F)
      → All (IsOf words) chunk
      → AllFit st.prompts
      → AllFit (generate_and_persist_chunk source user_id local_date chunk st).1.prompts
  unfolding generate_and_persist_chunk
  chunk-All [] st of all = all
  chunk-All (c ∷ cs) st of all =
      settle_generated-All (c ∷ cs) (source.generate st.requests (c ∷ cs))
        (record st { requests = (c ∷ cs) ∷ st.requests }) of all

  after_chunk-All :
      (backfill : Bool) (n : ℕ) (saved : Saved) (st : PromptStore F)
      (next : ℕ → PromptStore F → Ensured source user_id local_date)
      → AllFit st.prompts
      → ((m : ℕ) (st' : PromptStore F) → AllFit st'.prompts → AllFit (next m st').1.prompts)
      → AllFit (after_chunk source user_id local_date backfill n (saved, st) next).1.prompts
  after_chunk-All true n (Saved.saved m) st next all h = all
  after_chunk-All true n (Saved.unsaved e) st next all h = all
  after_chunk-All false n (Saved.saved m) st next all h = h _ st all
  after_chunk-All false n (Saved.unsaved e) st next all h = h _ st all

  generate_chunks-All :
      (backfill : Bool) (chunks : List (List (DynamicReviewCandidate F))) (n : ℕ)
      (st : PromptStore F)
      → All (All (IsOf words)) chunks
      → AllFit st.prompts
      → AllFit (generate_chunks source user_id local_date backfill chunks n st).1.prompts
  unfolding generate_chunks
  generate_chunks-All backfill [] n st of all = all
  generate_chunks-All backfill (chunk ∷ chunks) n st (of, rest) all =
      let (done, st') = generate_and_persist_chunk source user_id local_date chunk st in
      after_chunk-All backfill n done st'
        (generate_chunks source user_id local_date backfill chunks) (chunk-All chunk st of all)
        (λ m st'' all'. generate_chunks-All backfill chunks m st'' rest all')

module _ {F : Type 0} (source : PromptSource F) (words : Uuid → Word F) (user_id : Uuid)
    (local_date : String)
    (sorts : (P : DynamicReviewCandidate F → Type 0)
        (less : DynamicReviewCandidate F → DynamicReviewCandidate F → Bool)
        (l : List (DynamicReviewCandidate F))
      → All P l
      → All P (source.sort_slice less l)) where
  -- Where sorting only changes the order and the items carry their words, a table whose prompts are all fit for
  -- their words and modes keeps this through ensurePrompts, whatever the language service answers: each prompt
  -- of a gap has the gap and hides the word, each sentence to listen to has the word and at most ten words.
  pub ensure_prompts-AllFit :
      (items : List (DailyLearningPoolItem F)) (current : Option DynamicReviewKey)
      (st : PromptStore F)
      → All (λ item. (w : Word F) → item.word ≡ some w → w ≡ words item.word_id) items
      → All (IsFitRow source.unicode words) st.prompts
      → All
          (IsFitRow source.unicode words)
          (ensure_prompts source user_id local_date items current st).1.prompts
  unfolding ensure_prompts missing_candidates select_dynamic_review_candidates
  ensure_prompts-AllFit items current st of all =
      let candidates = collect_candidates source.unicode [] items in
      let missing = missing_candidates source user_id local_date items st.prompts in
      let sorted =
        sorts (IsOf words) comes_before candidates (collect-All source words [] items of) in
      let known =
        without_keys-All source words
          (is_prompted source user_id local_date (source.sort_slice comes_before candidates)
            st.prompts)
          (source.sort_slice comes_before candidates) sorted in
      let asked = wanted current missing in
      generate_chunks-All source words user_id local_date (is_backfill current)
        (chunks_of (length asked) asked) 0 st
        (chunks_of-All (IsOf words) (length asked) asked
          (wanted-All source words current missing known))
        all
