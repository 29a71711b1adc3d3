-- ===== src/Dedup/Unseen.antt =====
-- FilterCandidates: a candidate that is in none of the history's sets repeats nothing of what they are made of.
use wordbit_advanced.Prelude.{
  ◌≡◌, ◌≢◌, ◌⊎◌, inl, inr, sym, subst, ◌∙◌, true, false, List, [], text_eq, All, All-map, contains,
}
use wordbit_advanced.Float64.{Float64}
use wordbit_advanced.Domain.{Word, DailyLearningPoolItem}
use wordbit_advanced.Normalization.{Unicode, normalize_word}
use wordbit_advanced.Dedup.{
  CandidateWord, Taken, is_taken, take_words, take_items, history, none_taken, validate_candidate,
}
use wordbit_advanced.Dedup.Keys.{is_taken-false}
use wordbit_advanced.Dedup.History.{
  HasItemWord, HasWord, HasWord-IsWithin, take_items-IsWithin, take_words-has, take_items-has,
  OfWord, OfWord-map, taken_apart,
}

module _ {F : Type 0} (u : Unicode) where
  -- What a candidate does not repeat of the word of one of the day's items, and of a word that the user has.
  pub record IsApartToday (c : CandidateWord F) (w : Word F) : Type 0 where
    pub form : c.normalized_form ≢ w.normalized_form
    pub canonical :
        normalize_word u c.canonical_form ≡ w.normalized_form
        → normalize_word u c.canonical_form ≡ []
    pub group : c.confusable_group_key ≡ w.confusable_group_key → c.confusable_group_key ≡ []

  pub record IsApart (c : CandidateWord F) (w : Word F) : Type 0 where
    pub today : IsApartToday c w
    pub form_of_canonical :
        c.normalized_form ≡ normalize_word u w.canonical_form → w.canonical_form ≡ []
    pub canonical_of_canonical :
        normalize_word u c.canonical_form ≡ normalize_word u w.canonical_form
        → (normalize_word u c.canonical_form ≡ []) ⊎ (w.canonical_form ≡ [])
    pub lemma :
        normalize_word u c.lemma ≡ normalize_word u w.lemma
        → (normalize_word u c.lemma ≡ []) ⊎ (w.lemma ≡ [])

  -- A complete candidate that repeats nothing of what the sets hold.
  pub record IsNew (h : Taken) (c : CandidateWord F) : Type 0 where
    pub valid : validate_candidate u c ≡ []
    pub spelled : c.normalized_form ≡ normalize_word u c.word
    pub new_form : contains h.normalized c.normalized_form ≡ false
    pub new_canonical : is_taken h.normalized (normalize_word u c.canonical_form) ≡ false
    pub new_lemma : is_taken h.lemmas (normalize_word u c.lemma) ≡ false
    pub new_group : is_taken h.groups c.confusable_group_key ≡ false

  IsNew-IsApartToday :
      (h : Taken) (c : CandidateWord F) (w : Word F)
      → IsNew h c
      → HasItemWord u w h
      → IsApartToday c w
  IsNew-IsApartToday h c w new has = record {
    form = λ e. let k = new.new_form in let l = has.form in cc;
    canonical = λ e.
        let there = subst (λ k. contains h.normalized k ≡ true) (sym e) has.form in
        elim (is_taken-false h.normalized _ new.new_canonical) [
          | inl empty ↦ empty
          | inr absent ↦ cc
        ];
    group = λ e. elim (taken_apart h.groups _ _ _ new.new_group has.group e) [
      | inl empty ↦ empty
      | inr empty ↦ e ∙ empty
    ];
  }

  apart : (h : Taken) (c : CandidateWord F) (w : Word F) → IsNew h c → HasWord u w h → IsApart c w
  apart h c w new has = record {
    today = IsNew-IsApartToday h c w new has.item;
    form_of_canonical =
        λ e. elim has.canonical [ inl empty ↦ empty | inr there ↦ (let k = new.new_form in cc) ];
    canonical_of_canonical = λ e. taken_apart h.normalized _ _ _ new.new_canonical has.canonical e;
    lemma = λ e. taken_apart h.lemmas _ _ _ new.new_lemma has.lemma e;
  }

  -- A complete candidate that repeats nothing of the words that the user has and of the day's items.
  pub record IsUnseen (existing_words : List (Word F))
      (same_day_items : List (DailyLearningPoolItem F)) (c : CandidateWord F) : Type 0 where
    pub valid : validate_candidate u c ≡ []
    pub spelled : c.normalized_form ≡ normalize_word u c.word
    pub other_words : All (IsApart c) existing_words
    pub other_items : All (λ item. OfWord (IsApartToday c) item.word) same_day_items

module _ {F : Type 0} ⦃fl : Float64 F⦄ (u : Unicode) where
  pub IsNew-IsUnseen :
      (existing_words : List (Word F)) (same_day_items : List (DailyLearningPoolItem F))
      (c : CandidateWord F)
      → IsNew u (history u existing_words same_day_items) c
      → IsUnseen u existing_words same_day_items c
  unfolding history
  IsNew-IsUnseen words items c new =
      let of_words = take_words u words none_taken in
      let h = take_items u items of_words in
      record {
        valid = new.valid;
        spelled = new.spelled;
        other_words =
            All-map (λ w. HasWord u w of_words) (IsApart u c) words
              (λ w has.
                apart u h c w new
                  (HasWord-IsWithin u w of_words h (take_items-IsWithin u items of_words) has))
              (take_words-has u words none_taken);
        other_items =
            All-map (λ item. OfWord (λ w. HasItemWord u w h) item.word)
              (λ item. OfWord (IsApartToday u c) item.word) items
              (λ item has.
                OfWord-map (λ w. HasItemWord u w h) (IsApartToday u c) item.word
                  (λ w x. IsNew-IsApartToday u h c w new x) has)
              (take_items-has u items of_words);
      }
