-- ===== src/Dedup/Exclusions/Found.antt =====
-- The loops of BuildGenerationPromptExclusions over the day's items and the states: what they keep and what they add.
use wordbit_advanced.Prelude.{
  arith, ◌≡◌, true, Option, none, some, List, [], ◌∷◌, Text, text_eq, All, All-map, if_elim, inr,
}
use wordbit_advanced.Domain.{Word, UserWordState, DailyLearningPoolItem}
use wordbit_advanced.Normalization.{Unicode}
use wordbit_advanced.Sorting.{slice_stable}
use wordbit_advanced.Sorting.Laws.{slice_stable-All-inv}
use wordbit_advanced.Dedup.Exclusions.{
  after_found, Exclusions, add_value, add_word_summary, add_found, word_of_item, word_by_id,
  exclude_items, exclude_states, is_full, seen_later, no_exclusions,
  build_generation_prompt_exclusions, word_exclusion_cap, lemma_exclusion_cap, group_exclusion_cap,
}
use wordbit_advanced.Dedup.Exclusions.Caps.{
  IsExclusionList, IsCovered, add_value-IsExclusionList, add_value-IsCovered, add_value-keeps,
}

pub record AreCapped (e : Exclusions) : Type 0 where
  pub words : IsExclusionList word_exclusion_cap e.words
  pub lemmas : IsExclusionList lemma_exclusion_cap e.lemmas
  pub groups : IsExclusionList group_exclusion_cap e.groups

none-AreCapped : AreCapped no_exclusions
none-AreCapped = record {
  words = record { fits = omega arith; distinct = tt; given = tt };
  lemmas = record { fits = omega arith; distinct = tt; given = tt };
  groups = record { fits = omega arith; distinct = tt; given = tt };
}

module _ {F : Type 0} (u : Unicode) where
  -- The spellings of a word are in the lists, as far as there is room.
  pub record HasWord (w : Word F) (e : Exclusions) : Type 0 where
    pub word : IsCovered u word_exclusion_cap w.word e.words
    pub canonical : IsCovered u word_exclusion_cap w.canonical_form e.words
    pub lemma : IsCovered u lemma_exclusion_cap w.lemma e.lemmas
    pub group : IsCovered u group_exclusion_cap w.confusable_group_key e.groups

  abbrev pub HasFound : Option (Word F) → Exclusions → Type 0
  HasFound none e = Unit
  HasFound (some w) e = HasWord w e

  added-HasWord : (w : Word F) (e : Exclusions) → HasWord w (add_word_summary u w e)
  unfolding add_word_summary
  added-HasWord w e = record {
    word =
        add_value-keeps u word_exclusion_cap w.word w.canonical_form
          (add_value u word_exclusion_cap w.word e.words)
          (add_value-IsCovered u word_exclusion_cap w.word e.words);
    canonical =
        add_value-IsCovered u word_exclusion_cap w.canonical_form
          (add_value u word_exclusion_cap w.word e.words);
    lemma = add_value-IsCovered u lemma_exclusion_cap w.lemma e.lemmas;
    group = add_value-IsCovered u group_exclusion_cap w.confusable_group_key e.groups;
  }

  keeps-HasWord : (v w : Word F) (e : Exclusions) → HasWord v e → HasWord v (add_word_summary u w e)
  unfolding add_word_summary
  keeps-HasWord v w e h = record {
    word = keeps_both v.word h.word;
    canonical = keeps_both v.canonical_form h.canonical;
    lemma = add_value-keeps u lemma_exclusion_cap v.lemma w.lemma e.lemmas h.lemma;
    group =
        add_value-keeps u group_exclusion_cap v.confusable_group_key w.confusable_group_key e.groups
          h.group;
  }
    where
      keeps_both :
          (t : Text)
          → IsCovered u word_exclusion_cap t e.words
          → IsCovered u word_exclusion_cap t (add_word_summary u w e).words
      keeps_both t c =
          add_value-keeps u word_exclusion_cap t w.canonical_form
            (add_value u word_exclusion_cap w.word e.words)
            (add_value-keeps u word_exclusion_cap t w.word e.words c)

  summary-AreCapped :
      (w : Word F) (e : Exclusions) → AreCapped e → AreCapped (add_word_summary u w e)
  unfolding add_word_summary
  summary-AreCapped w e c = record {
    words =
        add_value-IsExclusionList u word_exclusion_cap w.canonical_form
          (add_value u word_exclusion_cap w.word e.words)
          (add_value-IsExclusionList u word_exclusion_cap w.word e.words c.words);
    lemmas = add_value-IsExclusionList u lemma_exclusion_cap w.lemma e.lemmas c.lemmas;
    groups =
        add_value-IsExclusionList u group_exclusion_cap w.confusable_group_key e.groups c.groups;
  }

  full-HasWord : (e : Exclusions) (w : Word F) → is_full e ≡ true → HasWord w e
  full-HasWord e w full = record {
    word = inr (inr (ground (arith, full)));
    canonical = inr (inr (ground (arith, full)));
    lemma = inr (inr (ground (arith, full)));
    group = inr (inr (ground (arith, full)));
  }

  full-HasFound : (e : Exclusions) (o : Option (Word F)) → is_full e ≡ true → HasFound o e
  full-HasFound e none full = tt
  full-HasFound e (some w) full = full-HasWord e w full

  -- What a loop over `xs` makes of the lists, where `f` finds the words.
  record Excludes {A : Type 0} (f : A → Option (Word F)) (xs : List A) (e r : Exclusions)
      : Type 0 where
    capped : AreCapped e → AreCapped r
    keeps : (w : Word F) → HasWord w e → HasWord w r
    found : All (λ x. HasFound (f x) r) xs

  Excludes-nil : {A : Type 0} (f : A → Option (Word F)) (e : Exclusions) → Excludes f [] e e
  Excludes-nil f e = record { capped = λ c. c; keeps = λ w h. h; found = tt }

  Excludes-found :
      {A : Type 0} (f : A → Option (Word F)) (xs : List A) (o : Option (Word F)) (e r : Exclusions)
      → Excludes f xs (add_found u o e) r
      → (AreCapped e → AreCapped r) × ((w : Word F) → HasWord w e → HasWord w r) × HasFound o r
  Excludes-found f xs none e r x = (x.capped, x.keeps, tt)
  Excludes-found f xs (some w) e r x = (
    λ c. x.capped (summary-AreCapped w e c),
    λ v h. x.keeps v (keeps-HasWord v w e h),
    x.keeps w (added-HasWord w e),
  )

  All-full :
      {A : Type 0} (f : A → Option (Word F)) (xs : List A) (e : Exclusions)
      → is_full e ≡ true
      → All (λ x. HasFound (f x) e) xs
  All-full f [] e full = tt
  All-full f (x ∷ xs) e full = (full-HasFound e (f x) full, All-full f xs e full)

  items-Excludes :
      (words : List (Word F)) (items : List (DailyLearningPoolItem F)) (e : Exclusions)
      → Excludes (word_of_item u words) items e (exclude_items u words items e)
  unfolding exclude_items
  items-Excludes words [] e = Excludes-nil (word_of_item u words) e
  items-Excludes words (item ∷ items) e =
      let o = word_of_item u words item in
      let x = items-Excludes words items (add_found u o e) in
      let (c, k, h) =
        Excludes-found (word_of_item u words) items o e
          (exclude_items u words items (add_found u o e)) x in
      record { capped = c; keeps = k; found = (h, x.found) }

  abbrev find_state : List (Word F) → UserWordState F → Option (Word F)
  find_state words st = word_by_id u words st.word_id

  after_found-Excludes :
      (f : UserWordState F → Option (Word F)) (states : List (UserWordState F))
      (o : Option (Word F)) (e : Exclusions) (next : Exclusions → Exclusions)
      → ((e' : Exclusions) → Excludes f states e' (next e'))
      → let r = after_found u o e next in
        (AreCapped e → AreCapped r)
        × ((w : Word F) → HasWord w e → HasWord w r)
        × HasFound o r
        × All (λ x. HasFound (f x) r) states
  unfolding add_word_summary
  after_found-Excludes f states none e next h = let x = h e in (x.capped, x.keeps, tt, x.found)
  after_found-Excludes f states (some w) e next h =
      let e' = add_word_summary u w e in
      let x = h e' in
      if_elim
        (λ r.
          (AreCapped e → AreCapped r)
          × ((v : Word F) → HasWord v e → HasWord v r)
          × HasWord w r
          × All (λ st. HasFound (f st) r) states)
        (is_full e')
        (λ full. (
          summary-AreCapped w e,
          λ v k. keeps-HasWord v w e k,
          added-HasWord w e,
          All-full f states e' full,
        ))
        (λ room. (
          λ c. x.capped (summary-AreCapped w e c),
          λ v k. x.keeps v (keeps-HasWord v w e k),
          x.keeps w (added-HasWord w e),
          x.found,
        ))

  states-Excludes :
      (words : List (Word F)) (states : List (UserWordState F)) (e : Exclusions)
      → Excludes (find_state words) states e (exclude_states u words states e)
  unfolding exclude_states
  states-Excludes words [] e = Excludes-nil (find_state words) e
  states-Excludes words (st ∷ states) e =
      let (c, k, h, all) =
        after_found-Excludes (find_state words) states (find_state words st) e
          (exclude_states u words states) (states-Excludes words states) in
      record { capped = c; keeps = k; found = (h, all) }

  keeps_found :
      (e r : Exclusions)
      → ((w : Word F) → HasWord w e → HasWord w r)
      → (o : Option (Word F)) → HasFound o e
      → HasFound o r
  keeps_found e r keeps none h = tt
  keeps_found e r keeps (some w) h = keeps w h

  -- The lists of a prompt hold at most 60 words, 40 lemmas and 30 groups, all different and none empty. The
  -- spellings, the lemma and the group of each word of the day's items, and of each state whose word is among `words`,
  -- are in them, unless the list has no room left.
  pub prompt_exclusions-AreCapped :
      (words : List (Word F)) (states : List (UserWordState F))
      (pool_items : List (DailyLearningPoolItem F))
      → let e = build_generation_prompt_exclusions u words states pool_items in
        AreCapped e
        × All (λ item. HasFound (word_of_item u words item) e) pool_items
        × All (λ st. HasFound (word_by_id u words st.word_id) e) states
  unfolding build_generation_prompt_exclusions
  prompt_exclusions-AreCapped words states pool_items =
      let start = exclude_items u words pool_items no_exclusions in
      let sorted = slice_stable (seen_later u) states in
      let e = exclude_states u words sorted start in
      let a = items-Excludes words pool_items no_exclusions in
      let b = states-Excludes words sorted start in
      (
        b.capped (a.capped none-AreCapped),
        All-map (λ item. HasFound (word_of_item u words item) start)
            (λ item. HasFound (word_of_item u words item) e) pool_items
            (λ item. keeps_found start e b.keeps (word_of_item u words item)) a.found,
        slice_stable-All-inv (λ st. HasFound (find_state words st) e) (seen_later u) states b.found,
      )
