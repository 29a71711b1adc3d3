-- ===== src/Dedup/Accounting.antt =====
-- FilterCandidates: every candidate is accepted or rejected with reasons, and the best come first.
use wordbit_advanced.Prelude.{
  ℕ, ap, arith, ◌+◌, ◌≡◌, ◌≢◌, refl, text_beq_iff, Bool, List, [], ◌∷◌, Text, text_eq, String,
  if◌then◌else◌, All, All-append, All-map, ◌==◌, if_elim, count_if, count_if-append,
}
use wordbit_advanced.Float64.{Float64}
use wordbit_advanced.Domain.{Word, UserWordState, DailyLearningPoolItem, Uuid}
use wordbit_advanced.Normalization.{Unicode}
use wordbit_advanced.Sorting.Laws.{
  slice_stable-count_if, slice_stable-IsSorted, IsSorted, IsWeakOrder,
}
use wordbit_advanced.Dedup.{
  CandidateWord, Taken, Batch, reasons_against, prepare_candidate, settle, filter_from, history,
  empty_batch, filter_candidates, rank_candidate, ranks_before,
}

module _ {F : Type 0} (u : Unicode) where
  -- A prepared candidate has the word that it came with.
  prepared_word : (c : CandidateWord F) → (prepare_candidate u c).word ≡ c.word
  unfolding prepare_candidate
  prepared_word c = refl

module _ {F : Type 0} ⦃fl : Float64 F⦄ (u : Unicode) (h : Taken) (p : Text → Bool) where
  abbrev has : CandidateWord F → Bool
  has c = p c.word

  abbrev counted : Batch F → ℕ
  counted b = count_if has b.result.accepted + count_if p b.result.reject_list

  settle-counted :
      (b : Batch F) (c : CandidateWord F) (reasons : List String)
      → counted (settle u b c reasons) ≡ counted b + count_if has (c ∷ [])
  unfolding rank_candidate
  settle-counted b c [] = omega (
    arith,
    count_if-append has b.result.accepted (record c { ranking_score = rank_candidate c } ∷ []),
  )
  settle-counted b c (r ∷ reasons) =
      omega (arith, count_if-append p b.result.reject_list (c.word ∷ []))

  filter_from-counted :
      (b : Batch F) (candidates : List (CandidateWord F))
      → counted (filter_from u h b candidates) ≡ counted b + count_if has candidates
  unfolding filter_from
  filter_from-counted b [] = omega arith
  filter_from-counted b (candidate ∷ candidates) =
      let c = prepare_candidate u candidate in
      let reasons = reasons_against u h b.seen c in
      omega (
        arith,
        filter_from-counted (settle u b c reasons) candidates,
        settle-counted b c reasons,
        ap {B = ℕ} (λ w. if p w then 1 else 0) (prepared_word u candidate),
      )

module _ {F : Type 0} ⦃fl : Float64 F⦄ (u : Unicode) (h : Taken) where
  abbrev IsReasoned : Batch F → Type 0
  IsReasoned b = All (λ word. b.result.rejected word ≢ []) b.result.reject_list

  settle-IsReasoned :
      (b : Batch F) (c : CandidateWord F) (reasons : List String)
      → IsReasoned b
      → IsReasoned (settle u b c reasons)
  settle-IsReasoned b c [] all = all
  settle-IsReasoned b c (r ∷ reasons) all =
      let now = λ (word : Text). if word == c.word then r ∷ reasons else b.result.rejected word in
      All-append (λ word. now word ≢ []) b.result.reject_list (c.word ∷ [])
        (All-map (λ word. b.result.rejected word ≢ []) (λ word. now word ≢ []) b.result.reject_list
          (λ word ne. if_elim (λ l. l ≢ []) (word == c.word) (λ same e. cc) (λ other. ne)) all)
        (
          if_elim (λ l. l ≢ []) (c.word == c.word) (λ same e. cc)
              (λ other e. ground (arith, text_beq_iff c.word c.word)),
          tt,
        )

  filter_from-IsReasoned :
      (b : Batch F) (candidates : List (CandidateWord F))
      → IsReasoned b
      → IsReasoned (filter_from u h b candidates)
  unfolding filter_from
  filter_from-IsReasoned b [] all = all
  filter_from-IsReasoned b (candidate ∷ candidates) all =
      let c = prepare_candidate u candidate in
      let reasons = reasons_against u h b.seen c in
      filter_from-IsReasoned (settle u b c reasons) candidates (settle-IsReasoned b c reasons all)

module _ {F : Type 0} ⦃fl : Float64 F⦄ where
  ranks_before-IsWeakOrder : IsWeakOrder fl.lt → IsWeakOrder {A = CandidateWord F} ranks_before
  ranks_before-IsWeakOrder order = record {
    asymmetric = λ a b. order.asymmetric b.ranking_score a.ranking_score;
    through = λ a b c before after.
        order.through c.ranking_score b.ranking_score a.ranking_score after before;
  }

module _ {F : Type 0} ⦃fl : Float64 F⦄ (u : Unicode) where
  -- Where `<` is a strict weak order of the scores, the accepted candidates come in falling order of their scores;
  -- of any set of words, as many candidates are accepted or rejected as there were; and each rejected word has reasons.
  pub filter_candidates-IsSorted :
      (candidates : List (CandidateWord F)) (existing_states : List (UserWordState F))
      (existing_words : List (Word F)) (seen_new_word_ids : List Uuid)
      (same_day_items : List (DailyLearningPoolItem F)) (p : Text → Bool)
      → IsWeakOrder fl.lt
      → let r =
          filter_candidates u candidates existing_states existing_words seen_new_word_ids
            same_day_items in
        IsSorted ranks_before r.accepted
        × (count_if (λ c. p c.word) r.accepted + count_if p r.reject_list
            ≡ count_if (λ c. p c.word) candidates)
        × All (λ word. r.rejected word ≢ []) r.reject_list
  unfolding filter_candidates
  filter_candidates-IsSorted candidates existing_states existing_words seen_new_word_ids
        same_day_items p order =
      let h = history u existing_words same_day_items in
      let accepted = (filter_from u h (empty_batch u) candidates).result.accepted in
      (
        slice_stable-IsSorted ranks_before (ranks_before-IsWeakOrder order) accepted,
        omega (
          arith,
          slice_stable-count_if ranks_before (λ (c : CandidateWord F). p c.word) accepted,
          filter_from-counted u h p (empty_batch u) candidates,
        ),
        filter_from-IsReasoned u h (empty_batch u) candidates tt,
      )
