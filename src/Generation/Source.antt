-- ===== src/Generation/Source.antt =====
-- internal/service/pool_service.go, generateNewWordsWithSource: the developer's list, then the rest.
use wordbit_advanced.Prelude.{
  ℕ, ◌+◌, ◌-◌, Bool, true, false, ◌&&◌, Option, none, some, List, [], ◌++◌, map, String, Text,
  if◌then◌else◌, length, leb, nat_beq, take, ℤ, pos, leb_ℤ, pos_part,
}
use wordbit_advanced.Float64.{Float64}
use wordbit_advanced.Domain.{
  Uuid, nil_uuid, Word, DailyLearningPoolItem, CefrLevel, PoolItemType, PoolItemStatus, ReviewMode,
}
use wordbit_advanced.Normalization.{Unicode}
use wordbit_advanced.Dedup.Exclusions.{build_generation_exclusions}
use wordbit_advanced.Generation.Bank.{filter_bank_words}
use wordbit_advanced.Generation.Mix.{
  compute_generated_item_kind_targets, order_words_by_generated_mix,
}
use wordbit_advanced.Generation.Select.{
  WordSource, GenerationRequest, GenerationError, blocked_words, known_words, select_new_words,
}

pub record NewWords (F : Type 0) : Type 0 where
  pub words : List (Word F)
  pub names : List Text
  pub rejections : Text → List String

pub data Generation (F : Type 0) : Type 0 where
  generated : NewWords F → Generation F
  -- "unable to generate initial daily pool words", with the last error or because all were rejected
  exhausted : Option GenerationError → Generation F
  -- "developer word list is not configured"
  unconfigured : Generation F

abbrev pub no_words : {F : Type 0} → NewWords F
no_words = record { words = []; names = []; rejections = λ word. [] }

-- An item of `appendPoolSeedWords`, in which only the word is set. Its type and its status are "", which are no
-- constructors: nothing that gets the item reads them.
abbrev pub seed_item : {F : Type 0} → Word F → DailyLearningPoolItem F
seed_item w = record {
  id = nil_uuid;
  pool_id = nil_uuid;
  user_id = nil_uuid;
  word_id = w.id;
  ordinal = 0;
  item_type = PoolItemType.new;
  review_mode = ReviewMode.unset;
  due_at = none;
  status = PoolItemStatus.pending;
  is_review = false;
  first_exposure_required = false;
  bonus_practice = false;
  revealed_meaning = false;
  revealed_example = false;
  metadata = [];
  completed_at = none;
  created_at = 0;
  updated_at = 0;
  word = some w;
}

abbrev pub append_pool_seed_words :
    {F : Type 0} → List (DailyLearningPoolItem F) → List (Word F) → List (DailyLearningPoolItem F)
append_pool_seed_words existing words = existing ++ map seed_item words

module _ {F : Type 0} ⦃fl : Float64 F⦄ (u : Unicode) (source : WordSource F) where
  abbrev pub is_nil : {A : Type 0} → List A → Bool
  is_nil l = nat_beq (length l) 0

  -- The last lines, for a positive quota
  unfoldable pub generate_selected : GenerationRequest F → Generation F
  unfolding select_new_words
  generate_selected r =
      let (sel, last_error) = select_new_words u source r in
      if is_nil sel.words && is_nil r.seed_items
      then exhausted last_error
      else generated (record { words = sel.words; names = sel.names; rejections = sel.rejections })

  unfoldable pub developer_words :
      (CefrLevel → Text → List Uuid → ℕ → List (Word F)) → GenerationRequest F → List (Word F)
  unfolding order_words_by_generated_mix filter_bank_words build_generation_exclusions
      compute_generated_item_kind_targets
  developer_words list r =
      let b = blocked_words source r in
      take r.quota (
        order_words_by_generated_mix u (compute_generated_item_kind_targets (pos r.quota)) (
          filter_bank_words u (list r.cefr_level r.topic (b.existing ++ b.seeded) (r.quota + 20))
            (build_generation_exclusions u (known_words u source r) source.existing_states
              r.seed_items)
            b.seen_new))

  -- `mergeGenerationRejections`, whose left side is empty here
  abbrev pub merge_generations : List (Word F) → Generation F → Generation F
  merge_generations list_words (generated n) = generated (record {
    words = list_words ++ n.words;
    names = map (λ w. w.word) list_words ++ n.names;
    rejections = n.rejections;
  })
  merge_generations list_words failure = failure

  abbrev pub fallback_request : GenerationRequest F → List (Word F) → GenerationRequest F
  fallback_request r list_words = record r {
    quota = r.quota - length list_words;
    seed_items = append_pool_seed_words r.seed_items list_words;
    for_developer_list = true;
  }

  abbrev pub with_developer_list :
      Option (CefrLevel → Text → List Uuid → ℕ → List (Word F)) → GenerationRequest F → Generation F
  with_developer_list none r = unconfigured
  with_developer_list (some list) r =
      let words = developer_words list r in
      if leb r.quota (length words)
      then generated
          (record { words = words; names = map (λ w. w.word) words; rejections = λ word. [] })
      else merge_generations words (generate_selected (fallback_request r words))

  -- `generateNewWordsWithSource`, for a quota that is positive
  unfoldable pub generate_positive : Bool → GenerationRequest F → Generation F
  unfolding generate_selected developer_words
  generate_positive allow_developer_list r =
      if allow_developer_list && source.uses_developer_list
      then with_developer_list source.list_developer_words r
      else generate_selected r

  unfoldable pub generate_new_words :
      CefrLevel → Text → ℤ → List (DailyLearningPoolItem F) → ℕ → Generation F
  unfolding generate_positive
  generate_new_words level topic new_quota seed_items now =
      if leb_ℤ new_quota (pos 0)
      then generated no_words
      else generate_positive true (record {
        cefr_level = level;
        topic = topic;
        quota = pos_part new_quota;
        seed_items = seed_items;
        now = now;
        for_developer_list = false;
      })
