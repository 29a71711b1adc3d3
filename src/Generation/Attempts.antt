-- ===== src/Generation/Attempts.antt =====
-- generateNewWordsWithSource: the attempts and the words of the database keep the selection fresh.
use wordbit_advanced.Prelude.{
  ℕ, zero, suc, arith, ◌+◌, ◌≡◌, false, Option, none, some, List, ◌++◌, Text, nat_eq, if_elim,
  contains, length, leb, nat_beq, pos, All,
}
use wordbit_advanced.Float64.{Float64}
use wordbit_advanced.Domain.{Uuid, CefrLevel}
use wordbit_advanced.Normalization.{Unicode}
use wordbit_advanced.Sorting.Laws.{slice_stable-All}
use wordbit_advanced.Dedup.{CandidateWord}
use wordbit_advanced.Dedup.Exclusions.{build_generation_exclusions}
use wordbit_advanced.Generation.Bank.{filter_bank_words}
use wordbit_advanced.Generation.Mix.{
  compute_generated_item_kind_targets, order_words_by_generated_mix, kind_comes_first,
}
use wordbit_advanced.Generation.Select.{
  WordSource, Selection, GenerationRequest, GenerationError, blocked_words, take_bank_words,
  store_accepted, filter_attempt, after_attempt, attempt_from, bank_words, select_new_words,
  start_selection, known_words, generation_input, min_ℕ,
}
use wordbit_advanced.Generation.Fresh.{
  IsFree, IsFreshList, IsSelected, take_bank-IsSelected, store-IsSelected, filter_bank-All,
}

module _ {F : Type 0} ⦃fl : Float64 F⦄ (u : Unicode) (source : WordSource F)
    (r : GenerationRequest F) where
  abbrev IsGood : Selection F → Type 0
  IsGood sel = IsSelected (blocked_words source r) r.quota sel.words sel.ids

  filter_attempt-IsGood :
      (candidates : List (CandidateWord F)) (sel : Selection F)
      → IsGood sel
      → IsGood (filter_attempt u source r candidates sel).1
  unfolding filter_attempt
  filter_attempt-IsGood candidates sel s = s

  after_attempt-IsGood :
      (accepted : List (CandidateWord F)) (e last_error : Option GenerationError)
      (sel : Selection F)
      (next : Option GenerationError → Selection F → Selection F × Option GenerationError)
      → IsGood sel
      → ((e' : Option GenerationError) (sel' : Selection F) → IsGood sel' → IsGood (next e' sel').0)
      → IsGood (after_attempt u source r accepted e last_error sel next).0
  after_attempt-IsGood accepted (some e) last_error sel next s h =
      if_elim (λ (x : Selection F × Option GenerationError). IsGood x.0) (e.is_rate_limited)
        (λ _. s) (λ _. h (some e) sel s)
  after_attempt-IsGood accepted none last_error sel next s h =
      let b = blocked_words source r in
      let sel' = store_accepted u source r.quota b r.for_developer_list accepted sel in
      let s' = store-IsSelected u b r.quota source r.for_developer_list accepted sel s in
      if_elim (λ (x : Selection F × Option GenerationError). IsGood x.0)
        (nat_beq (length sel'.words) (length sel.words)) (λ _. s') (λ _. h last_error sel' s')

  attempt_from-IsGood :
      (left attempt : ℕ) (last_error : Option GenerationError) (sel : Selection F)
      → IsGood sel
      → IsGood (attempt_from u source r left attempt last_error sel).0
  unfolding attempt_from
  attempt_from-IsGood zero attempt last_error sel s = s
  attempt_from-IsGood (suc left) attempt last_error sel s =
      let g = source.generate attempt (generation_input u source r sel) in
      let (accepted, sel') = filter_attempt u source r g.list sel in
      if_elim (λ (x : Selection F × Option GenerationError). IsGood x.0)
        (leb r.quota (length sel.words)) (λ _. s)
        (λ _.
          after_attempt-IsGood accepted g.error last_error sel'
            (attempt_from u source r left (attempt + 1)) (filter_attempt-IsGood g.list sel s)
            (λ e' x s'. attempt_from-IsGood left (attempt + 1) e' x s'))

  module _
      (excludes : (level : CefrLevel) (topic : Text) (ids : List Uuid) (limit : ℕ)
        → All (λ w. contains ids w.id ≡ false) (source.list_bank_words level topic ids limit)) where
    bank_words-All : All (IsFree (blocked_words source r)) (bank_words u source r)
    unfolding bank_words order_words_by_generated_mix
    bank_words-All =
        let b = blocked_words source r in
        let e =
          build_generation_exclusions u (known_words u source r) source.existing_states
            r.seed_items in
        let listed =
          source.list_bank_words r.cefr_level r.topic (b.existing ++ b.seeded)
            (min_ℕ (r.quota + 5) 20) in
        slice_stable-All (IsFree b)
          (kind_comes_first u (compute_generated_item_kind_targets (pos r.quota)))
          (filter_bank_words u listed e b.seen_new)
          (filter_bank-All u b r.quota listed e
            (excludes r.cefr_level r.topic (b.existing ++ b.seeded) (min_ℕ (r.quota + 5) 20)))

    pub select_new_words-IsGood :
        IsFreshList (blocked_words source r) r.quota (select_new_words u source r).0.words
    unfolding select_new_words
    select_new_words-IsGood =
        let b = blocked_words source r in
        let bank = bank_words u source r in
        let first = take_bank_words u r.quota bank (start_selection u source r) in
        let start : IsGood (start_selection u source r) = record {
          fresh = record { fits = omega arith; distinct = tt; free = tt };
          listed = tt;
        } in
        let one =
          take_bank-IsSelected u b r.quota bank (start_selection u source r) bank_words-All start in
        let (sel, e) = attempt_from u source r source.max_generation_attempts 1 none first in
        let two = attempt_from-IsGood source.max_generation_attempts 1 none first one in
        let three = take_bank-IsSelected u b r.quota bank sel bank_words-All two in three.fresh
