-- ===== src/Dedup/Accepted.antt =====
-- FilterCandidates: what holds of the accepted candidates.
use wordbit_advanced.Prelude.{
  ◌≡◌, ◌≢◌, refl, sym, ◌∙◌, true, false, List, [], ◌∷◌, text_eq, String, All, AllPairs, ◌⊎◌,
  contains, All-append, All-map, AllPairs-snoc,
}
use wordbit_advanced.Float64.{Float64}
use wordbit_advanced.Domain.{Word, UserWordState, DailyLearningPoolItem, Uuid}
use wordbit_advanced.Normalization.{Unicode, normalize_word}
use wordbit_advanced.Sorting.Laws.{slice_stable-All, slice_stable-AllPairs}
use wordbit_advanced.Dedup.{
  CandidateWord, Taken, Batch, reason_if, is_taken, validate_candidate, reasons_against,
  prepare_candidate, settle, filter_from, history, empty_batch, filter_candidates, take_candidate,
  rank_candidate, ranks_before,
}
use wordbit_advanced.Dedup.Unseen.{IsNew, IsUnseen, IsNew-IsUnseen}
use wordbit_advanced.Dedup.Keys.{
  append-nil-inv, reason_if-nil, contains-cons, contains_self, other_or_empty, grows, added,
}

module _ {F : Type 0} (u : Unicode) where
  -- Two candidates that may stand in one batch.
  pub record AreDistinct (c d : CandidateWord F) : Type 0 where
    pub other_form : c.normalized_form ≢ d.normalized_form
    pub other_group : c.confusable_group_key ≡ d.confusable_group_key → c.confusable_group_key ≡ []
    pub other_lemma :
        normalize_word u c.lemma ≡ normalize_word u d.lemma → normalize_word u c.lemma ≡ []

  AreDistinct-symm : (c d : CandidateWord F) → AreDistinct c d → AreDistinct d c
  AreDistinct-symm c d x = record {
    other_form = λ e. x.other_form (sym e);
    other_group = λ e. e ∙ x.other_group (sym e);
    other_lemma = λ e. e ∙ x.other_lemma (sym e);
  }

  -- What the batch has seen of an accepted candidate.
  record IsSeen (seen : Taken) (c : CandidateWord F) : Type 0 where
    form : contains seen.normalized c.normalized_form ≡ true
    group : (c.confusable_group_key ≡ []) ⊎ (contains seen.groups c.confusable_group_key ≡ true)
    lemma :
        (normalize_word u c.lemma ≡ []) ⊎ (contains seen.lemmas (normalize_word u c.lemma) ≡ true)

module _ {F : Type 0} (u : Unicode) (h : Taken) where
  record IsGood (seen : Taken) (accepted : List (CandidateWord F)) : Type 0 where
    new : All (IsNew u h) accepted
    distinct : AllPairs (AreDistinct u) accepted
    known : All (IsSeen u seen) accepted

  -- The parts of an empty list of reasons.
  record IsFree (seen : Taken) (c : CandidateWord F) : Type 0 where
    valid : validate_candidate u c ≡ []
    form : contains h.normalized c.normalized_form ≡ false
    canonical : is_taken h.normalized (normalize_word u c.canonical_form) ≡ false
    lemma : is_taken h.lemmas (normalize_word u c.lemma) ≡ false
    batch_form : contains seen.normalized c.normalized_form ≡ false
    group : is_taken h.groups c.confusable_group_key ≡ false
    batch_group : is_taken seen.groups c.confusable_group_key ≡ false
    batch_lemma : is_taken seen.lemmas (normalize_word u c.lemma) ≡ false

  IsFree-of_nil :
      (seen : Taken) (c : CandidateWord F) → reasons_against u h seen c ≡ [] → IsFree seen c
  unfolding reasons_against
  IsFree-of_nil seen c e =
      let (v, e1) = append-nil-inv (validate_candidate u c) _ e in
      let (a, e2) = append-nil-inv (reason_if _ "history normalized duplicate") _ e1 in
      let (b, e3) = append-nil-inv (reason_if _ "history canonical duplicate") _ e2 in
      let (d, e4) = append-nil-inv (reason_if _ "history lemma duplicate") _ e3 in
      let (f, e5) = append-nil-inv (reason_if _ "batch normalized duplicate") _ e4 in
      let (g, e6) = append-nil-inv (reason_if _ "confusable group collision") _ e5 in
      let (i, e7) = append-nil-inv (reason_if _ "batch confusable collision") _ e6 in
      record {
        valid = v;
        form = reason_if-nil _ _ a;
        canonical = reason_if-nil _ _ b;
        lemma = reason_if-nil _ _ d;
        batch_form = reason_if-nil _ _ f;
        group = reason_if-nil _ _ g;
        batch_group = reason_if-nil _ _ i;
        batch_lemma = reason_if-nil _ _ e7;
      }

  still-IsSeen :
      (seen : Taken) (c x : CandidateWord F)
      → IsSeen u seen x
      → IsSeen u (take_candidate u c seen) x
  still-IsSeen seen c x s = record {
    form = contains-cons c.normalized_form x.normalized_form seen.normalized s.form;
    group = grows x.confusable_group_key c.confusable_group_key seen.groups s.group;
    lemma = grows (normalize_word u x.lemma) (normalize_word u c.lemma) seen.lemmas s.lemma;
  }

  distinct_of_free :
      (seen : Taken) (c x : CandidateWord F) → IsFree seen c → IsSeen u seen x → AreDistinct u x c
  distinct_of_free seen c x f s = record {
    other_form = λ e. let k = s.form in let l = f.batch_form in cc;
    other_group =
        other_or_empty seen.groups x.confusable_group_key c.confusable_group_key s.group
          f.batch_group;
    other_lemma =
        other_or_empty seen.lemmas (normalize_word u x.lemma) (normalize_word u c.lemma) s.lemma
          f.batch_lemma;
  }

module _ {F : Type 0} (u : Unicode) where
  prepared_spelling :
      (c : CandidateWord F)
      → (prepare_candidate u c).normalized_form ≡ normalize_word u (prepare_candidate u c).word
  unfolding prepare_candidate
  prepared_spelling c = refl

module _ {F : Type 0} ⦃fl : Float64 F⦄ (u : Unicode) (h : Taken) where
  settle-IsGood :
      (b : Batch F) (c : CandidateWord F) (reasons : List String)
      → reasons_against u h b.seen c ≡ reasons
      → c.normalized_form ≡ normalize_word u c.word
      → IsGood u h b.seen b.result.accepted
      → let b' = settle u b c reasons in IsGood u h b'.seen b'.result.accepted
  unfolding rank_candidate validate_candidate
  settle-IsGood b c [] e spelled good =
      let f = IsFree-of_nil u h b.seen c e in
      let accepted = b.result.accepted in
      let c' : CandidateWord F = record c { ranking_score = rank_candidate c } in
      record {
        new = All-append (IsNew u h) accepted (c' ∷ []) good.new (
          record {
            valid = f.valid;
            spelled = spelled;
            new_form = f.form;
            new_canonical = f.canonical;
            new_lemma = f.lemma;
            new_group = f.group;
          },
          tt,
        );
        distinct = AllPairs-snoc (AreDistinct u) accepted c' good.distinct (
            All-map (IsSeen u b.seen) (λ x. AreDistinct u x c') accepted
              (λ x s.
                let d = distinct_of_free u h b.seen c x f s in
                record {
                  other_form = d.other_form;
                  other_group = d.other_group;
                  other_lemma = d.other_lemma;
                })
              good.known);
        known =
            All-append (IsSeen u (take_candidate u c b.seen)) accepted (c' ∷ [])
              (All-map (IsSeen u b.seen) (IsSeen u (take_candidate u c b.seen)) accepted
                (still-IsSeen u h b.seen c) good.known)
              (
                record {
                  form = contains_self c.normalized_form b.seen.normalized;
                  group = added c.confusable_group_key b.seen.groups;
                  lemma = added (normalize_word u c.lemma) b.seen.lemmas;
                },
                tt,
              );
      }
  settle-IsGood b c (r ∷ reasons) e spelled good = good

  filter_from-IsGood :
      (b : Batch F) (candidates : List (CandidateWord F))
      → IsGood u h b.seen b.result.accepted
      → let b' = filter_from u h b candidates in IsGood u h b'.seen b'.result.accepted
  unfolding filter_from
  filter_from-IsGood b [] good = good
  filter_from-IsGood b (candidate ∷ candidates) good =
      let c = prepare_candidate u candidate in
      let reasons = reasons_against u h b.seen c in
      filter_from-IsGood (settle u b c reasons) candidates
        (settle-IsGood b c reasons refl (prepared_spelling u candidate) good)

module _ {F : Type 0} ⦃fl : Float64 F⦄ (u : Unicode) where
  -- Each accepted candidate is complete and valid, and is spelled as NormalizeWord spells its word. Its spelling and
  -- its normalized canonical form are neither the spelling nor the normalized canonical form of a word that the user
  -- has, and it shares neither lemma nor confusable group with one; they are not the spelling of a word of the day's
  -- items, and it shares no confusable group with one. No two accepted candidates have the same spelling, the same
  -- lemma or the same confusable group. Empty canonical forms, lemmas and groups do not count.
  pub filter_candidates-IsDeduplicated :
      (candidates : List (CandidateWord F)) (existing_states : List (UserWordState F))
      (existing_words : List (Word F)) (seen_new_word_ids : List Uuid)
      (same_day_items : List (DailyLearningPoolItem F))
      → let accepted =
          (filter_candidates u candidates existing_states existing_words seen_new_word_ids
            same_day_items).accepted in
        All (IsUnseen u existing_words same_day_items) accepted × AllPairs (AreDistinct u) accepted
  unfolding filter_candidates
  filter_candidates-IsDeduplicated candidates existing_states existing_words seen_new_word_ids
        same_day_items =
      let h = history u existing_words same_day_items in
      let good =
        filter_from-IsGood u h (empty_batch u) candidates
          (record { new = tt; distinct = tt; known = tt }) in
      let accepted = (filter_from u h (empty_batch u) candidates).result.accepted in
      (
        slice_stable-All (IsUnseen u existing_words same_day_items) ranks_before accepted (
            All-map (IsNew u h) (IsUnseen u existing_words same_day_items) accepted
              (IsNew-IsUnseen u existing_words same_day_items) good.new),
        slice_stable-AllPairs (AreDistinct u) ranks_before (AreDistinct-symm u) accepted
            good.distinct,
      )
