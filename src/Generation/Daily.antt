-- ===== src/Generation/Daily.antt =====
-- generateNewWordsWithSource: the developer's list and what fills it up are fresh together.
use wordbit_advanced.Prelude.{
  ℕ, arith, ◌+◌, ◌-◌, ◌≡◌, ◌≢◌, refl, Bool, true, false, Option, none, some, List, [], ◌∷◌, ◌++◌,
  map, Text, nat_eq, nat_beq_iff, ◌||◌, if_elim, contains, length, length-append, leb, pos, All,
  AllPairs, All-append, All-map, take-All, take-AllPairs, AllPairs-append, All-swap, length-take-le,
  ◌&&◌, sym, subst, ℤ, leb_ℤ, pos_part,
}
use wordbit_advanced.Float64.{Float64}
use wordbit_advanced.Domain.{Time, Uuid, Word, DailyLearningPoolItem, CefrLevel}
use wordbit_advanced.Normalization.{Unicode}
use wordbit_advanced.Sorting.Laws.{slice_stable-All, slice_stable-AllPairs}
use wordbit_advanced.Dedup.Exclusions.{Exclusions, build_generation_exclusions}
use wordbit_advanced.Generation.Bank.{filter_bank_words, add_word_values, is_excluded}
use wordbit_advanced.Generation.Mix.{
  compute_generated_item_kind_targets, order_words_by_generated_mix, kind_comes_first,
}
use wordbit_advanced.Generation.Select.{
  WordSource, GenerationRequest, Blocked, blocked_words, select_new_words, known_words,
}
use wordbit_advanced.Generation.Fresh.{IsFree, IsFreshList, filter_bank-All, contains-append-false}
use mathlib.Core.List.{map-append}
use wordbit_advanced.Generation.Attempts.{select_new_words-IsGood}
use wordbit_advanced.Generation.Select.{pool_word_ids, state_word_ids, seen_new_word_lookback}
use wordbit_advanced.Generation.Source.{
  NewWords, Generation, generated, exhausted, unconfigured, seed_item, generate_selected,
  developer_words, merge_generations, fallback_request, with_developer_list, generate_positive,
  generate_new_words, is_nil,
}

module _ {F : Type 0} (P : Word F → Type 0) (u : Unicode) where
  filter_bank-keeps :
      (words : List (Word F)) (e : Exclusions) (seen : List Uuid)
      → All P words
      → All P (filter_bank_words u words e seen)
  unfolding filter_bank_words
  filter_bank-keeps [] e seen all = tt
  filter_bank-keeps (w ∷ words) e seen (p, all) =
      if_elim (All P) (contains seen w.id || is_excluded u e w)
        (λ _. filter_bank-keeps words e seen all)
        (λ _. (p, filter_bank-keeps words (add_word_values u w e) seen all))

module _ {F : Type 0} (u : Unicode) where
  abbrev Other : Word F → Word F → Type 0
  Other v w = v.id ≢ w.id

  filter_bank-AllPairs :
      (words : List (Word F)) (e : Exclusions) (seen : List Uuid)
      → AllPairs Other words
      → AllPairs Other (filter_bank_words u words e seen)
  unfolding filter_bank_words
  filter_bank-AllPairs [] e seen pairs = tt
  filter_bank-AllPairs (w ∷ words) e seen (head, pairs) =
      if_elim (AllPairs Other) (contains seen w.id || is_excluded u e w)
        (λ _. filter_bank-AllPairs words e seen pairs)
        (λ _. (
          filter_bank-keeps (Other w) u words (add_word_values u w e) seen head,
          filter_bank-AllPairs words (add_word_values u w e) seen pairs,
        ))

  -- A word whose identifier is not among those of the seed items is none of their words.
  others_of_seeds :
      (words : List (Word F)) (id : Uuid)
      → contains (pool_word_ids (map seed_item words)) id ≡ false
      → All (λ v. v.id ≢ id) words
  others_of_seeds [] id h = tt
  others_of_seeds (v ∷ words) id h =
      (λ e. ground (arith, h, nat_beq_iff v.id id), others_of_seeds words id (ground (arith, h)))

module _ {F : Type 0} ⦃fl : Float64 F⦄ (u : Unicode) (source : WordSource F)
    (excludes : (level : CefrLevel) (topic : Text) (ids : List Uuid) (limit : ℕ)
      → All (λ w. contains ids w.id ≡ false) (source.list_bank_words level topic ids limit)) where
  abbrev Succeeds : Blocked → ℕ → Generation F → Type 0
  Succeeds b quota (generated n) = IsFreshList b quota n.words
  Succeeds b quota (exhausted e) = Unit
  Succeeds b quota unconfigured = Unit

  selected-Succeeds :
      (r : GenerationRequest F)
      → Succeeds (blocked_words source r) r.quota (generate_selected u source r)
  unfolding generate_selected
  selected-Succeeds r =
      let (sel, last_error) = select_new_words u source r in
      if_elim (Succeeds (blocked_words source r) r.quota)
        (is_nil u source sel.words && is_nil u source r.seed_items) (λ _. tt)
        (λ _. select_new_words-IsGood u source r excludes)

  merged-Succeeds :
      (r : GenerationRequest F) (words : List (Word F)) (g : Generation F)
      → IsFreshList (blocked_words source r) r.quota words
      → Succeeds
          (blocked_words source (fallback_request u source r words))
          (r.quota - length words)
          g
      → Succeeds (blocked_words source r) r.quota (merge_generations u source words g)
  merged-Succeeds r words (exhausted e) f s = tt
  merged-Succeeds r words unconfigured f s = tt
  merged-Succeeds r words (generated n) f s =
      let b = blocked_words source r in
      let b' = blocked_words source (fallback_request u source r words) in
      let seeds = pool_word_ids r.seed_items in
      let taken = pool_word_ids (map seed_item words) in
      let parts : (w : Word F)
          → IsFree (blocked_words source (fallback_request u source r words)) w
          → (contains seeds w.id ≡ false) × (contains taken w.id ≡ false) =
        λ w free. contains-append-false seeds taken w.id (
          subst (λ ids. contains ids w.id ≡ false)
            (map-append (λ item. item.word_id) r.seed_items (map seed_item words)) free.unseeded) in
      record {
        fits = omega (arith, length-append words n.words, f.fits, s.fits);
        distinct = AllPairs-append (Other u) words n.words f.distinct s.distinct (
            All-swap (Other u) words n.words (
              All-map (IsFree b') (λ w. All (λ v. v.id ≢ w.id) words) n.words
                (λ w free. others_of_seeds u words w.id (parts w free).1) s.free));
        free = All-append (IsFree b) words n.words f.free (
            All-map (IsFree b') (IsFree b) n.words
              (λ w free. record {
                unseen = free.unseen;
                unknown = free.unknown;
                unseeded = (parts w free).0;
              })
              s.free);
      }

  module _
      (listed : (list : CefrLevel → Text → List Uuid → ℕ → List (Word F))
        → source.list_developer_words ≡ some list
        → (level : CefrLevel) (topic : Text) (ids : List Uuid) (limit : ℕ)
        → All (λ w. contains ids w.id ≡ false) (list level topic ids limit)
          × AllPairs (λ v w. v.id ≢ w.id) (list level topic ids limit)) where
    developer-IsFreshList :
        (list : CefrLevel → Text → List Uuid → ℕ → List (Word F)) (r : GenerationRequest F)
        → source.list_developer_words ≡ some list
        → IsFreshList (blocked_words source r) r.quota (developer_words u source list r)
    unfolding developer_words order_words_by_generated_mix
    developer-IsFreshList list r there =
        let b = blocked_words source r in
        let e =
          build_generation_exclusions u (known_words u source r) source.existing_states
            r.seed_items in
        let words = list r.cefr_level r.topic (b.existing ++ b.seeded) (r.quota + 20) in
        let (free, pairs) =
          listed list there r.cefr_level r.topic (b.existing ++ b.seeded) (r.quota + 20) in
        let first = kind_comes_first u (compute_generated_item_kind_targets (pos r.quota)) in
        let filtered = filter_bank_words u words e b.seen_new in
        let ordered =
          order_words_by_generated_mix u (compute_generated_item_kind_targets (pos r.quota))
            filtered in
        record {
          fits = length-take-le r.quota ordered;
          distinct = take-AllPairs (Other u) r.quota ordered (
              slice_stable-AllPairs (Other u) first (λ v w ne e. ne (sym e)) filtered
                (filter_bank-AllPairs u words e b.seen_new pairs));
          free = take-All (IsFree b) r.quota ordered (
              slice_stable-All (IsFree b) first filtered
                (filter_bank-All u b r.quota words e free));
        }

    with_list-Succeeds :
        (o : Option (CefrLevel → Text → List Uuid → ℕ → List (Word F))) (r : GenerationRequest F)
        → source.list_developer_words ≡ o
        → Succeeds (blocked_words source r) r.quota (with_developer_list u source o r)
    with_list-Succeeds none r there = tt
    with_list-Succeeds (some list) r there =
        let words = developer_words u source list r in
        let fresh = developer-IsFreshList list r there in
        if_elim (Succeeds (blocked_words source r) r.quota) (leb r.quota (length words))
          (λ _. fresh)
          (λ short.
            merged-Succeeds r words (generate_selected u source (fallback_request u source r words))
              fresh (selected-Succeeds (fallback_request u source r words)))

    positive-Succeeds :
        (allow : Bool) (r : GenerationRequest F)
        → Succeeds (blocked_words source r) r.quota (generate_positive u source allow r)
    unfolding generate_positive
    positive-Succeeds allow r =
        if_elim (Succeeds (blocked_words source r) r.quota) (allow && source.uses_developer_list)
          (λ _. with_list-Succeeds source.list_developer_words r refl) (λ _. selected-Succeeds r)

    generated-IsFreshList :
        (b : Blocked) (quota : ℕ) (g : Generation F) (n : NewWords F)
        → Succeeds b quota g
        → g ≡ generated n
        → IsFreshList b quota n.words
    generated-IsFreshList b quota g n s e = subst (Succeeds b quota) e s

    -- The new words that a day gets are no more than its quota (none for a quota that is not positive), are different
    -- words, and none of them has a state, was a new word in the last thirty days, or is among the day's items: whether
    -- they come from the developer's list, the database or the language service, whatever that answers. The lists
    -- of the database leave out the words that they are told to, and the developer's list has no word twice.
    pub generate_new_words-IsFreshList :
        (level : CefrLevel) (topic : Text) (new_quota : ℤ)
        (seed_items : List (DailyLearningPoolItem F)) (now : Time) (n : NewWords F)
        → generate_new_words u source level topic new_quota seed_items now ≡ generated n
        → IsFreshList
            (record {
              seen_new = source.ids_seen_as_new (seen_new_word_lookback now);
              existing = state_word_ids source.existing_states;
              seeded = pool_word_ids seed_items;
            })
            (pos_part new_quota)
            n.words
    unfolding generate_new_words
    generate_new_words-IsFreshList level topic new_quota seed_items now n =
        let r : GenerationRequest F = record {
          cefr_level = level;
          topic = topic;
          quota = pos_part new_quota;
          seed_items = seed_items;
          now = now;
          for_developer_list = false;
        } in
        let b = blocked_words source r in
        generated-IsFreshList b r.quota
          (generate_new_words u source level topic new_quota seed_items now) n
          (if_elim (Succeeds b r.quota) (leb_ℤ new_quota (pos 0))
            (λ _. record { fits = omega arith; distinct = tt; free = tt })
            (λ _. positive-Succeeds true r))
