-- ===== src/Examples/Generated.antt =====
-- The new words of a day for a user with one word, from a database of two.
use wordbit_advanced.Prelude.{
  ◌≡◌, Bool, false, not, none, List, [], ◌∷◌, codes, ℤ, pos, refl, arith, All, if_elim, contains,
  nat_eq, keep_if,
}
use wordbit_advanced.Domain.{Uuid, CefrLevel, Word}
use wordbit_advanced.Generation.Select.{
  WordSource, GenerationRequest, stored, state_word_ids, pool_word_ids,
}
use wordbit_advanced.Generation.Source.{NewWords, generate_new_words, generated}
use wordbit_advanced.Generation.Fresh.{IsFreshList}
use wordbit_advanced.Generation.Daily.{generate_new_words-IsFreshList}
use wordbit_advanced.Examples.Fixed.{fixed}
use wordbit_advanced.Examples.Samples.{open_word, ascii, brisk, evening}

abbrev calm : Word ℤ
calm = record brisk {
  id = 5;
  word = codes "calm";
  canonical_form = codes "calm";
  lemma = codes "calm";
}

abbrev keen : Word ℤ
keen = record brisk {
  id = 6;
  word = codes "keen";
  canonical_form = codes "keen";
  lemma = codes "keen";
}

abbrev is_allowed : List Uuid → Word ℤ → Bool
is_allowed ids w = not (contains ids w.id)

allowed-All :
    (ids : List Uuid) (words : List (Word ℤ))
    → All (λ w. contains ids w.id ≡ false) (keep_if (is_allowed ids) words)
allowed-All ids [] = tt
allowed-All ids (w ∷ words) =
    if_elim (All (λ v. contains ids v.id ≡ false)) (is_allowed ids w)
      (λ kept. (ground (arith, kept), allowed-All ids words)) (λ left. allowed-All ids words)

abbrev pub database : WordSource ℤ
database = record {
  existing_states = open_word ∷ [];
  load_words = λ ids. brisk ∷ [];
  ids_seen_as_new = λ since. [];
  list_bank_words = λ level topic ids limit. keep_if (is_allowed ids) (brisk ∷ calm ∷ keen ∷ []);
  list_developer_words = none;
  uses_developer_list = false;
  generate = λ attempt input. record { list = []; error = none };
  upsert_word = λ before c. stored brisk;
  max_generation_attempts = 3;
  preferred_language = "vi";
}

abbrev one_word : GenerationRequest ℤ
one_word = record {
  cefr_level = CefrLevel.b2;
  topic = codes "travel";
  quota = 1;
  seed_items = [];
  now = evening;
  for_developer_list = false;
}

abbrev one_calm : NewWords ℤ
one_calm = record { words = calm ∷ []; names = codes "calm" ∷ []; rejections = λ word. [] }

calm_is_new :
    generate_new_words ascii database CefrLevel.b2 (codes "travel") (pos 1) [] evening
    ≡ generated one_calm
unfolding generate_new_words
calm_is_new = refl

generate_new_words-IsFreshList_example :
    IsFreshList
      (record {
        seen_new = [];
        existing = state_word_ids database.existing_states;
        seeded = pool_word_ids {F = ℤ} [];
      })
      1
      (calm ∷ [])
generate_new_words-IsFreshList_example =
    generate_new_words-IsFreshList ascii database
      (λ level topic ids limit. allowed-All ids (brisk ∷ calm ∷ keen ∷ [])) (λ list there. cc)
      CefrLevel.b2 (codes "travel") (pos 1) [] evening one_calm calm_is_new
