-- ===== src/Dedup/Exclusions.antt =====
-- internal/service/dedup.go: the words that a request for new words asks not to be given again.
pub mod Caps
pub mod Found
use wordbit_advanced.Prelude.{
  ℕ, Bool, true, false, ◌&&◌, Option, none, some, List, [], ◌∷◌, ◌++◌, Text, text_eq, nat_eq, ◌==◌,
  if◌then◌else◌, contains, length, leb, ltb, nat_beq, ◌||◌,
}
use wordbit_advanced.Domain.{Time, Uuid, Word, UserWordState, DailyLearningPoolItem, after}
use wordbit_advanced.Normalization.{Unicode, normalize_word}
use wordbit_advanced.Sorting.{slice_stable}

-- The order of Go's strings. Their bytes are in the order of their runes.
abbrev text_less : Text → Text → Bool
text_less [] [] = false
text_less [] (y ∷ ys) = true
text_less (x ∷ xs) [] = false
text_less (x ∷ xs) (y ∷ ys) = ltb x y || (nat_beq x y && text_less xs ys)

unfoldable pub map_keys : List Text → List Text
unfolding slice_stable
map_keys values = slice_stable text_less values

abbrev pub word_exclusion_cap : ℕ
word_exclusion_cap = 60

abbrev pub lemma_exclusion_cap : ℕ
lemma_exclusion_cap = 40

abbrev pub group_exclusion_cap : ℕ
group_exclusion_cap = 30

pub record Exclusions : Type 0 where
  pub words : List Text
  pub lemmas : List Text
  pub groups : List Text

abbrev pub no_exclusions : Exclusions
no_exclusions = record { words = []; lemmas = []; groups = [] }

abbrev pub is_full : Exclusions → Bool
is_full e =
    leb word_exclusion_cap (length e.words)
    && leb lemma_exclusion_cap (length e.lemmas)
    && leb group_exclusion_cap (length e.groups)

module _ (u : Unicode) where
  -- A set of texts is the list of its elements without repetition.
  unfoldable pub add_non_empty : List Text → Text → List Text
  unfolding normalize_word
  add_non_empty target value =
      let v = normalize_word u value in
      if v == [] then target else if contains target v then target else v ∷ target

  -- `addWord`, `addLemma` and `addGroup`: the values seen are those of the list.
  unfoldable pub add_value : ℕ → Text → List Text → List Text
  unfolding normalize_word
  add_value cap value out =
      let normalized = normalize_word u value in
      if leb cap (length out)
      then out
      else if normalized == []
      then out
      else if contains out normalized
      then out
      else out ++ (normalized ∷ [])

module _ {F : Type 0} (u : Unicode) where
  unfoldable pub add_word_summary : Word F → Exclusions → Exclusions
  unfolding add_value
  add_word_summary w e = record {
    words =
        add_value u word_exclusion_cap w.canonical_form
          (add_value u word_exclusion_cap w.word e.words);
    lemmas = add_value u lemma_exclusion_cap w.lemma e.lemmas;
    groups = add_value u group_exclusion_cap w.confusable_group_key e.groups;
  }

  -- The map from identifiers to words, in which the last word of an identifier stays.
  abbrev pub word_by_id : List (Word F) → Uuid → Option (Word F)
  word_by_id [] id = none
  word_by_id (w ∷ words) id = elim (word_by_id words id) [
    | some later ↦ some later
    | none ↦ (if w.id == id then some w else none)
  ]

  abbrev pub word_of_item : List (Word F) → DailyLearningPoolItem F → Option (Word F)
  word_of_item words item = elim (item.word) [
    | some w ↦ some w
    | none ↦ word_by_id words item.word_id
  ]

  abbrev pub add_found : Option (Word F) → Exclusions → Exclusions
  add_found none e = e
  add_found (some w) e = add_word_summary w e

  unfoldable pub exclude_items :
      List (Word F) → List (DailyLearningPoolItem F) → Exclusions → Exclusions
  unfolding add_word_summary
  exclude_items words [] e = e
  exclude_items words (item ∷ items) e =
      exclude_items words items (add_found (word_of_item words item) e)

  -- A word that is found may end the loop.
  abbrev pub after_found : Option (Word F) → Exclusions → (Exclusions → Exclusions) → Exclusions
  after_found none e next = next e
  after_found (some w) e next = let e' = add_word_summary w e in if is_full e' then e' else next e'

  unfoldable pub exclude_states : List (Word F) → List (UserWordState F) → Exclusions → Exclusions
  unfolding add_word_summary
  exclude_states words [] e = e
  exclude_states words (st ∷ states) e =
      after_found (word_by_id words st.word_id) e (exclude_states words states)

  abbrev pub state_recency : UserWordState F → Time
  state_recency st = elim (st.last_seen_at) [
    | some t ↦ t
    | none ↦ elim (st.first_seen_at) [ some t ↦ t | none ↦ st.updated_at ]
  ]

  abbrev pub seen_later : UserWordState F → UserWordState F → Bool
  seen_later a b = after (state_recency a) (state_recency b)

  unfoldable pub build_generation_prompt_exclusions :
      List (Word F) → List (UserWordState F) → List (DailyLearningPoolItem F) → Exclusions
  unfolding exclude_items exclude_states slice_stable
  build_generation_prompt_exclusions words states pool_items =
      exclude_states words (slice_stable seen_later states)
        (exclude_items words pool_items no_exclusions)

  -- `BuildGenerationExclusions` does not look at the states.
  abbrev pub add_word_keys : Word F → Exclusions → Exclusions
  add_word_keys w e = record {
    words = add_non_empty u (add_non_empty u e.words w.word) w.canonical_form;
    lemmas = add_non_empty u e.lemmas w.lemma;
    groups = add_non_empty u e.groups w.confusable_group_key;
  }

  abbrev add_keys_found : Option (Word F) → Exclusions → Exclusions
  add_keys_found none e = e
  add_keys_found (some w) e = add_word_keys w e

  unfoldable pub word_keys : List (Word F) → Exclusions → Exclusions
  unfolding add_non_empty
  word_keys [] e = e
  word_keys (w ∷ words) e = word_keys words (add_word_keys w e)

  unfoldable pub item_keys : List (DailyLearningPoolItem F) → Exclusions → Exclusions
  unfolding add_non_empty
  item_keys [] e = e
  item_keys (item ∷ items) e = item_keys items (add_keys_found item.word e)

  unfoldable pub build_generation_exclusions :
      List (Word F) → List (UserWordState F) → List (DailyLearningPoolItem F) → Exclusions
  unfolding word_keys item_keys map_keys
  build_generation_exclusions words states pool_items =
      let e = item_keys pool_items (word_keys words no_exclusions) in
      record { words = map_keys e.words; lemmas = map_keys e.lemmas; groups = map_keys e.groups }
