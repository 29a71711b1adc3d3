-- ===== src/Generation/Bank.antt =====
-- internal/service/pool_service.go: the words of the database that a day may take.
use wordbit_advanced.Prelude.{
  Bool, false, ◌||◌, List, [], ◌∷◌, ◌++◌, Text, text_eq, nat_eq, ◌==◌, if◌then◌else◌, contains,
}
use wordbit_advanced.Domain.{Uuid, Word}
use wordbit_advanced.Normalization.{Unicode, normalize_word}
use wordbit_advanced.Dedup.Exclusions.{Exclusions}

module _ (u : Unicode) where
  unfoldable pub contains_normalized : List Text → Text → Bool
  unfolding normalize_word
  contains_normalized values value =
      let v = normalize_word u value in if v == [] then false else contains values v

  unfoldable pub add_non_empty_slice : List Text → Text → List Text
  unfolding normalize_word
  add_non_empty_slice target value =
      let v = normalize_word u value in
      if v == [] then target else if contains target v then target else target ++ (v ∷ [])

module _ {F : Type 0} (u : Unicode) where
  -- The four calls of `addNonEmptySlice` for a word
  abbrev pub add_word_values : Word F → Exclusions → Exclusions
  add_word_values w e = record {
    words = add_non_empty_slice u (add_non_empty_slice u e.words w.word) w.canonical_form;
    lemmas = add_non_empty_slice u e.lemmas w.lemma;
    groups = add_non_empty_slice u e.groups w.confusable_group_key;
  }

  abbrev pub is_excluded : Exclusions → Word F → Bool
  is_excluded e w =
      contains_normalized u e.words w.word
      || contains_normalized u e.words w.canonical_form
      || contains_normalized u e.lemmas w.lemma
      || contains_normalized u e.groups w.confusable_group_key

  -- The caller does not read the lists of exclusions that the loop leaves.
  unfoldable pub filter_bank_words : List (Word F) → Exclusions → List Uuid → List (Word F)
  unfolding contains_normalized add_non_empty_slice
  filter_bank_words [] e seen_new_ids = []
  filter_bank_words (w ∷ words) e seen_new_ids =
      let skipped = filter_bank_words words e seen_new_ids in
      let taken = w ∷ filter_bank_words words (add_word_values w e) seen_new_ids in
      if contains seen_new_ids w.id || is_excluded e w then skipped else taken
