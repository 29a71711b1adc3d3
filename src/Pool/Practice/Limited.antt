-- ===== src/Pool/Practice/Limited.antt =====
-- listBonusPracticeCandidates: how many states it takes, and which ones.
use wordbit_advanced.Prelude.{
  map, contains, ◌⊎◌, ℕ, ◌-◌, ◌≤◌, arith, ◌≡◌, refl, Bool, true, Option, none, some, List, [], ◌∷◌,
  ◌++◌, All, All-append, All-map, take-All, length, length-append, length-take-le, leb, keep_if,
  if_elim, Bool-cases, inl, inr, nat_eq,
}
use wordbit_advanced.Float64.{Float64}
use wordbit_advanced.Domain.{Uuid, WordSet, UserWordState, DailyLearningPoolItem}
use wordbit_advanced.Pool.Practice.{
  read_row, read_found, and_found, StateRows, BonusPracticeHistory, history_word_ids, is_practised,
  fetch_limit, state_matches_active_set, filter_states_by_active_set,
  extract_bonus_practice_history, word_ids_of, item_word_ids, is_candidate, found_states,
  crams_before, recycles_before, list_set_cram_candidates, recycle_bonus_practice_candidates,
  with_cram, list_bonus_practice_candidates,
}

keep_if-both :
    {A : Type 0} (P Q : A → Type 0) (p : A → Bool) (l : List A)
    → ((x : A) → P x → p x ≡ true → Q x)
    → All P l
    → All Q (keep_if p l)
keep_if-both P Q p [] f all = tt
keep_if-both P Q p (x ∷ l) f (h, all) = elim (Bool-cases (p x)) [
  | inl kept ↦ rw kept (f x h kept, keep_if-both P Q p l f all)
  | inr left ↦ rw left (keep_if-both P Q p l f all)
]

-- No set, or the default one: the sets that a state without a set belongs to.
abbrev pub TakesUnset : Option WordSet → Type 0
TakesUnset none = Unit
TakesUnset (some set) = set.is_default ≡ true

takes_unset : (active : Option WordSet) → TakesUnset active ⊎ ¬ (TakesUnset active)
takes_unset none = inl tt
takes_unset (some set) = elim (Bool-cases set.is_default) [
  | inl default ↦ inl default
  | inr own ↦ inr (λ h. (let k = h in cc))
]

-- A state as it is read, whose word may be practised in a set.
abbrev Suits : {F : Type 0} → Option WordSet → UserWordState F → Type 0
Suits active st = (is_practised st.status ≡ true) × (st.word_set_id ≡ none) × TakesUnset active

matching :
    {F : Type 0} (active : Option WordSet) (st : UserWordState F)
    → st.word_set_id ≡ none
    → state_matches_active_set st active ≡ true
    → TakesUnset active
unfolding state_matches_active_set
matching none st unset h = tt
matching (some set) st unset h = rw unset at h

read_all :
    {F : Type 0} (P : UserWordState F → Type 0) (states : List (UserWordState F))
    → ((st : UserWordState F) → P (read_row st))
    → All P (map read_row states)
read_all P [] f = tt
read_all P (st ∷ states) f = (f st, read_all P states f)

with_found-unset :
    {F : Type 0} (o : Option (UserWordState F)) (rest : List (UserWordState F))
    → All (λ st. st.word_set_id ≡ none) rest
    → All (λ st. st.word_set_id ≡ none) (and_found (read_found o) rest)
with_found-unset none rest all = all
with_found-unset (some st) rest all = (refl, all)

read_found-unset :
    {F : Type 0} (get : Uuid → Option (UserWordState F)) (excluded ids : List Uuid)
    → All (λ st. st.word_set_id ≡ none) (found_states (λ id. read_found (get id)) excluded ids)
read_found-unset get excluded [] = tt
read_found-unset get excluded (id ∷ ids) =
    let rest = read_found-unset get excluded ids in
    if_elim (All (λ st. st.word_set_id ≡ none)) (contains excluded id) (λ _. rest)
      (λ _. with_found-unset (get id) _ rest)

map_All :
    {F : Type 0} (P Q : UserWordState F → Type 0) (f : UserWordState F → UserWordState F)
    (states : List (UserWordState F))
    → ((st : UserWordState F) → P st → Q (f st))
    → All P states
    → All Q (map f states)
map_All P Q f [] g all = tt
map_All P Q f (st ∷ states) g (p, all) = (g st p, map_All P Q f states g all)

filter-All :
    {F : Type 0} (active : Option WordSet) (states : List (UserWordState F))
    → All (λ st. is_practised st.status ≡ true) states
    → All (Suits active) (filter_states_by_active_set (map read_row states) active)
unfolding filter_states_by_active_set
filter-All none states all =
    map_All (λ st. is_practised st.status ≡ true) (Suits none) read_row states
      (λ st p. (p, refl, tt)) all
filter-All (some set) states all =
    keep_if-both (λ st. (is_practised st.status ≡ true) × (st.word_set_id ≡ none))
      (Suits (some set)) (λ st. state_matches_active_set st (some set)) (map read_row states)
      (λ st h kept. (h.0, h.1, matching (some set) st h.1 kept))
      (map_All (λ st. is_practised st.status ≡ true)
        (λ st. (is_practised st.status ≡ true) × (st.word_set_id ≡ none)) read_row states
        (λ st p. (p, refl)) all)

-- Without a set that a state could belong to, none is left.
none-Suits :
    {F : Type 0} (active : Option WordSet) (states : List (UserWordState F))
    → ¬ (TakesUnset active)
    → All (Suits active) states
    → states ≡ []
none-Suits active [] own all = refl
none-Suits active (st ∷ states) own (h, all) = absurd (own h.2)

module _ {F : Type 0} ⦃fl : Float64 F⦄ (rows : StateRows F) (active : Option WordSet)
    (sorts : (P : UserWordState F → Type 0) (less : UserWordState F → UserWordState F → Bool)
        (l : List (UserWordState F))
      → All P l
      → All P (rows.sort_slice less l))
    (weak : (excluded : List Uuid) (limit : ℕ)
      → All (λ st. is_practised st.status ≡ true) (rows.list_weak_candidates excluded limit)) where
  suits :
      (excluded : List Uuid) (st : UserWordState F)
      → st.word_set_id ≡ none
      → is_candidate active excluded st ≡ true
      → Suits active st
  suits excluded st unset h =
      (ground (arith, h), unset, matching active st unset (ground (arith, h)))

  cram-All :
      (excluded : List Uuid) (limit : ℕ)
      → All (Suits active) (list_set_cram_candidates rows active excluded limit)
  unfolding list_set_cram_candidates
  cram-All excluded limit = take-All (Suits active) limit _ (
      sorts (Suits active) crams_before _ (
        keep_if-both (λ st. st.word_set_id ≡ none) (Suits active) (is_candidate active excluded) _
          (suits excluded)
          (read_all (λ st. st.word_set_id ≡ none) rows.list_existing_words (λ st. refl))))

  recycle-All :
      (history : BonusPracticeHistory) (excluded : List Uuid) (limit : ℕ)
      → All (Suits active) (recycle_bonus_practice_candidates rows active history excluded limit)
  unfolding recycle_bonus_practice_candidates
  recycle-All history excluded limit = take-All (Suits active) limit _ (
      sorts (Suits active) (recycles_before history) _ (
        keep_if-both (λ st. st.word_set_id ≡ none) (Suits active) (is_candidate active [])
          (found_states (λ id. read_found (rows.get id)) excluded (history_word_ids history))
          (suits []) (read_found-unset rows.get excluded (history_word_ids history))))

  with_cram-All :
      (set : Option WordSet) (items : List (DailyLearningPoolItem F)) (limit : ℕ)
      (collected : List (UserWordState F))
      → All (Suits active) collected
      → All (Suits active) (with_cram rows active set items limit collected)
  with_cram-All none items limit collected all = all
  with_cram-All (some set) items limit collected all =
      if_elim (All (Suits active)) (leb limit (length collected)) (λ _. all)
        (λ _. All-append (Suits active) collected _ all (cram-All _ _))

  with_cram-le :
      (set : Option WordSet) (items : List (DailyLearningPoolItem F)) (limit : ℕ)
      (collected : List (UserWordState F))
      → length collected ≤ limit
      → length (with_cram rows active set items limit collected) ≤ limit
  unfolding list_set_cram_candidates
  with_cram-le none items limit collected le = le
  with_cram-le (some set) items limit collected le =
      let more =
        list_set_cram_candidates rows active (word_ids_of collected ++ item_word_ids items)
          (limit - length collected) in
      let short : length more ≤ limit - length collected = length-take-le _ _ in
      let both : length (collected ++ more) ≤ limit = omega (arith, length-append collected more) in
      if_elim (λ (l : List (UserWordState F)). length l ≤ limit) (leb limit (length collected))
        (λ _. le) (λ _. both)

  candidates-All :
      (items : List (DailyLearningPoolItem F)) (limit : ℕ)
      → (length (list_bonus_practice_candidates rows active items limit) ≤ limit)
        × All (Suits active) (list_bonus_practice_candidates rows active items limit)
  unfolding list_bonus_practice_candidates recycle_bonus_practice_candidates
  candidates-All items limit =
      let history = extract_bonus_practice_history items in
      let fresh =
        filter_states_by_active_set
          (map read_row
            (rows.list_weak_candidates (history_word_ids history) (fetch_limit active limit)))
          active in
      let recycled =
        recycle_bonus_practice_candidates rows active history (word_ids_of fresh)
          (limit - length fresh) in
      let all = filter-All active _ (weak (history_word_ids history) (fetch_limit active limit)) in
      let short : length recycled ≤ limit - length fresh = length-take-le _ _ in
      if_elim (λ (l : List (UserWordState F)). (length l ≤ limit) × All (Suits active) l)
        (leb limit (length fresh))
        (λ _. (length-take-le limit fresh, take-All (Suits active) limit fresh all))
        (λ few. (
          with_cram-le active items limit (fresh ++ recycled)
              (ground (arith, few, short, length-append fresh recycled)),
          with_cram-All active items limit (fresh ++ recycled) (
              All-append (Suits active) fresh recycled all
                (recycle-All history (word_ids_of fresh) (limit - length fresh))),
        ))

  -- Where the sort only changes the order and the database lists no known word as weak, bonus practice takes at most
  -- as many states as it is asked for, each of them learned or reviewed; and it takes none unless no set is active or
  -- the active one is the default set, since no state is read with its set.
  pub list_bonus_practice_candidates-AreSuitable :
      (items : List (DailyLearningPoolItem F)) (limit : ℕ)
      → (length (list_bonus_practice_candidates rows active items limit) ≤ limit)
        × All
            (λ st. is_practised st.status ≡ true)
            (list_bonus_practice_candidates rows active items limit)
        × (TakesUnset active ⊎ (list_bonus_practice_candidates rows active items limit ≡ []))
  list_bonus_practice_candidates-AreSuitable items limit =
      let states = list_bonus_practice_candidates rows active items limit in
      let (few, all) = candidates-All items limit in
      (
        few,
        All-map (Suits active) (λ st. is_practised st.status ≡ true) states (λ st h. h.0) all,
        elim (takes_unset active) [
          | inl unset ↦ inl unset
          | inr own ↦ inr (none-Suits active states own all)
        ],
      )
