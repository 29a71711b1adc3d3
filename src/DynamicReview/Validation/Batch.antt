-- ===== src/DynamicReview/Validation/Batch.antt =====
-- What holds of a batch of prompts that validateDynamicReviewPayload finds nothing wrong with.
use wordbit_advanced.Prelude.{
  arith, ◌≡◌, ◌≢◌, refl, sym, subst, ◌∙◌, true, false, Option, none, some, List, [], ◌∷◌, text_eq,
  text_beq_iff, ◌==◌, Bool-cases, Option-cases, inl, inr, ◌⊎◌, contains, In, All, All-map, AllPairs,
  length, nat_beq, nat_beq_iff, map,
}
use wordbit_advanced.Normalization.{Unicode, trim_space}
use wordbit_advanced.Dedup.Keys.{append-nil-inv}
use wordbit_advanced.DynamicReview.{
  DynamicReviewKey, key_eq, key_beq_iff, DynamicReviewCandidate, candidate_key,
}
use wordbit_advanced.DynamicReview.Validation.{
  DynamicReviewPromptBatchItem, prompt_key, prompt_issues, find_requested, item_issues,
  validate_items, missing_keys, validate_dynamic_review_payload, matches_stored_source,
  source_texts,
}
use wordbit_advanced.DynamicReview.Validation.Sound.{
  IsFitPrompt, SuitsMode-of_nil, copies-false, issue_if-nil,
}

abbrev AreOther : DynamicReviewPromptBatchItem → DynamicReviewPromptBatchItem → Type 0
AreOther a b = prompt_key a ≢ prompt_key b

module _ {F : Type 0} where
  find_requested-In :
      (cs : List (DynamicReviewCandidate F)) (key : DynamicReviewKey) (c : DynamicReviewCandidate F)
      → find_requested cs key ≡ some c
      → In c cs × (candidate_key c ≡ key)
  unfolding find_requested
  find_requested-In [] key c h = cc
  find_requested-In (d ∷ cs) key c h = elim (Option-cases (find_requested cs key)) [
    | inr (later, e) ↦
        (let same = rw e at h in
          let (place, k) = find_requested-In cs key c (e ∙ same) in (inr place, k))
    | inl e ↦ elim (Bool-cases (candidate_key d == key)) [
      | inl here ↦
          (let same : some d ≡ some c = rw here at (rw e at h) in
            let k = (key_beq_iff (candidate_key d) key).0 here in
            let first : c ≡ d = cc in (inl first, subst (λ x. candidate_key x ≡ key) (sym first) k))
      | inr other ↦ (let none_here = rw other at (rw e at h) in cc)
    ]
  ]

module _ {F : Type 0} (u : Unicode) where
  IsFitPrompt-of_nil :
      (item : DynamicReviewPromptBatchItem) (c : DynamicReviewCandidate F)
      → prompt_issues u item c ≡ []
      → IsFitPrompt u c.word item.review_mode (trim_space u item.prompt_text)
  unfolding prompt_issues matches_stored_source
  IsFitPrompt-of_nil item c h = elim (Bool-cases (trim_space u item.prompt_text == [])) [
    | inl empty ↦ (let k = rw empty at h in cc)
    | inr there ↦
        (let (suits, own) = append-nil-inv _ _ (rw there at h) in
          record {
            given = λ e. let k = (text_beq_iff _ _).1 e in absurd (ground (arith, there, k));
            suits = SuitsMode-of_nil u c.word item.review_mode item.word_id _ suits;
            own =
                copies-false u (trim_space u item.prompt_text) (source_texts c.word)
                  (issue_if-nil _ _ own);
          })
  ]

  -- The prompt is for a candidate of the request, and fit for it.
  pub record IsAnswer (requested : List (DynamicReviewCandidate F))
      (item : DynamicReviewPromptBatchItem) : Type 0 where
    pub candidate : DynamicReviewCandidate F
    pub place : In candidate requested
    pub its_key : candidate_key candidate ≡ prompt_key item
    pub fit : IsFitPrompt u candidate.word item.review_mode (trim_space u item.prompt_text)

  -- The parts of an item without issues.
  record IsTaken (seen last : List DynamicReviewKey) (item : DynamicReviewPromptBatchItem)
      (found : Option (DynamicReviewCandidate F)) : Type 0 where
    candidate : DynamicReviewCandidate F
    is_found : found ≡ some candidate
    new : contains seen (prompt_key item) ≡ false
    fit : IsFitPrompt u candidate.word item.review_mode (trim_space u item.prompt_text)
    kept : last ≡ prompt_key item ∷ seen

  item_issues-IsTaken :
      (seen : List DynamicReviewKey) (item : DynamicReviewPromptBatchItem)
      (found : Option (DynamicReviewCandidate F))
      → (item_issues u seen item found).0 ≡ []
      → IsTaken seen (item_issues u seen item found).1 item found
  item_issues-IsTaken seen item none h = cc
  item_issues-IsTaken seen item (some c) h = elim (Bool-cases (contains seen (prompt_key item))) [
    | inl again ↦ (let k = rw again at h in cc)
    | inr first ↦ (record {
      candidate = c;
      is_found = refl;
      new = first;
      fit = IsFitPrompt-of_nil item c (rw first at h);
      kept = rw first refl;
    })
  ]

  -- The parts of a loop without issues: `last` has only keys of `seen` and of the items.
  record IsWellRead (requested : List (DynamicReviewCandidate F)) (seen : List DynamicReviewKey)
      (items : List DynamicReviewPromptBatchItem) (last : List DynamicReviewKey) : Type 0 where
    answers : All (IsAnswer requested) items
    new : All (λ item. contains seen (prompt_key item) ≡ false) items
    other : AllPairs AreOther items
    known :
        (key : DynamicReviewKey)
        → contains last key ≡ true
        → (contains seen key ≡ true) ⊎ (contains (map prompt_key items) key ≡ true)

  validate_items-IsWellRead :
      (requested : List (DynamicReviewCandidate F)) (seen : List DynamicReviewKey)
      (items : List DynamicReviewPromptBatchItem)
      → (validate_items u requested seen items).0 ≡ []
      → IsWellRead requested seen items (validate_items u requested seen items).1
  unfolding validate_items
  validate_items-IsWellRead requested seen [] h = record {
    answers = tt;
    new = tt;
    other = tt;
    known = λ key there. inl there;
  }
  validate_items-IsWellRead requested seen (item ∷ items) h =
      let key = prompt_key item in
      let found = find_requested requested key in
      let seen' = (item_issues u seen item found).1 in
      let (none_here, none_later) = append-nil-inv (item_issues u seen item found).0 _ h in
      let taken = item_issues-IsTaken seen item found none_here in
      let rest = validate_items-IsWellRead requested seen' items none_later in
      let (place, same) = find_requested-In requested key taken.candidate taken.is_found in
      let free =
        subst (λ l. All (λ i. contains l (prompt_key i) ≡ false) items) taken.kept rest.new in
      record {
        answers = (
          record { candidate = taken.candidate; place = place; its_key = same; fit = taken.fit },
          rest.answers,
        );
        new = (
          taken.new,
          All-map (λ i. contains (key ∷ seen) (prompt_key i) ≡ false)
              (λ i. contains seen (prompt_key i) ≡ false) items (λ i n. ground (arith, n)) free,
        );
        other = (
          All-map (λ i. contains (key ∷ seen) (prompt_key i) ≡ false) (AreOther item) items
              (λ i n e.
                let k = (key_beq_iff key (prompt_key i)).1 e in absurd (ground (arith, n, k)))
              free,
          rest.other,
        );
        known = λ k there. elim (rest.known k there) [
          | inl early ↦
              (let early' = subst (λ l. contains l k ≡ true) taken.kept early in
                elim (Bool-cases (key == k)) [
                  | inl same ↦ inr (ground (arith, same))
                  | inr other ↦ inl (ground (arith, other, early'))
                ])
          | inr late ↦ inr (ground (arith, late))
        ];
      }

module _ {F : Type 0} where
  missing_keys-nil :
      (seen : List DynamicReviewKey) (cs : List (DynamicReviewCandidate F))
      → missing_keys seen cs ≡ []
      → All (λ c. contains seen (candidate_key c) ≡ true) cs
  unfolding missing_keys
  missing_keys-nil seen [] h = tt
  missing_keys-nil seen (c ∷ cs) h = elim (Bool-cases (contains seen (candidate_key c))) [
    | inl there ↦ (there, missing_keys-nil seen cs (rw (there, missing_keys) at h))
    | inr absent ↦ (let k = rw (absent, missing_keys) at h in cc)
  ]

module _ {F : Type 0} (u : Unicode) where
  pub record IsSoundBatch (items : List DynamicReviewPromptBatchItem)
      (requested : List (DynamicReviewCandidate F)) : Type 0 where
    pub as_many : length items ≡ length requested
    pub answers : All (IsAnswer u requested) items
    pub other : AllPairs (λ a b. prompt_key a ≢ prompt_key b) items
    pub complete : All (λ c. contains (map prompt_key items) (candidate_key c) ≡ true) requested

  -- When the validation finds no issue, there are as many prompts as candidates, each is for a candidate of the
  -- request and fit for its word and mode, no two are for the same word and mode, and each candidate has one.
  pub validate_dynamic_review_payload-IsSoundBatch :
      (items : List DynamicReviewPromptBatchItem) (requested : List (DynamicReviewCandidate F))
      → validate_dynamic_review_payload u items requested ≡ []
      → IsSoundBatch items requested
  unfolding validate_dynamic_review_payload
  validate_dynamic_review_payload-IsSoundBatch items requested h =
      elim (Bool-cases (nat_beq (length items) (length requested))) [
        | inr differ ↦ (let k = rw differ at h in cc)
        | inl same ↦
            (let read = validate_items u requested [] items in
              let (no_issue, none_missing) = append-nil-inv read.0 _ (rw same at h) in
              let w = validate_items-IsWellRead u requested [] items no_issue in
              record {
                as_many = (nat_beq_iff _ _).0 same;
                answers = w.answers;
                other = w.other;
                complete =
                    All-map (λ c. contains read.1 (candidate_key c) ≡ true)
                      (λ c. contains (map prompt_key items) (candidate_key c) ≡ true) requested
                      (λ c there. elim (w.known (candidate_key c) there) [
                        | inl never ↦ absurd (ground (arith, never))
                        | inr late ↦ late
                      ])
                      (missing_keys-nil read.1 requested none_missing);
              })
      ]
