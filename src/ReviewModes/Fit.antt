-- ===== src/ReviewModes/Fit.antt =====
-- internal/service/pool_service.go: the mode fitted to a word set is enabled, possible for the word,
-- and as near to the scheduler's choice as any such mode.
use wordbit_advanced.Prelude.{
  ℕ, ◌≤◌, ◌<◌, ◌≡◌, ◌⊎◌, Bool, true, false, ◌&&◌, List, [], ◌∷◌, arith, ltb, if◌then◌else◌, All,
  contains, Bool-cases, inl, inr, refl, ltb→lt, sym, ◌∙◌, subst, if_elim, ap,
}
use wordbit_advanced.Domain.{ReviewMode, mode_eq}
use wordbit_advanced.ReviewModes.{
  nearest_from, select_enabled_review_mode, is_available, is_compatible, all_review_modes,
  contains_review_mode, rank_of, gap,
}

-- No mode of the list that is available is nearer to the rank than `r`.
abbrev pub IsNearest : Bool → List ReviewMode → ℕ → List ReviewMode → ReviewMode → Type 0
IsNearest buildable enabled rank order r =
    All
      (λ m.
        (is_available buildable enabled m ≡ false) ⊎ (gap rank (rank_of r) ≤ gap rank (rank_of m)))
      order

and_left : (a b : Bool) → a && b ≡ true → a ≡ true
and_left a b h = ground arith

and_right : (a b : Bool) → a && b ≡ true → b ≡ true
and_right a b h = ground arith

and_comm : (a b : Bool) → a && b ≡ b && a
and_comm a b = ground arith

not_better :
    (available : Bool) {best distance : ℕ} (d : ℕ)
    → available && ltb d distance ≡ false
    → best ≤ distance
    → (available ≡ false) ⊎ (best ≤ d)
not_better available d h le = ground arith

rank_lt : (m : ReviewMode) → rank_of m < 7
rank_lt m = ground arith

module _ (buildable : Bool) (enabled : List ReviewMode) (rank : ℕ) where
  abbrev Loop : Bool → ReviewMode → List ReviewMode → ReviewMode → ℕ → ReviewMode
  Loop better m order best distance =
      nearest_from buildable enabled rank order (if better then m else best)
        (if better then gap rank (rank_of m) else distance)

  nearest_from-cons :
      (m : ReviewMode) (order : List ReviewMode) (best : ReviewMode) (distance : ℕ) {better : Bool}
      → is_available buildable enabled m && ltb (gap rank (rank_of m)) distance ≡ better
      → Loop better m order best distance
        ≡ nearest_from buildable enabled rank (m ∷ order) best distance
  unfolding nearest_from
  nearest_from-cons m order best distance e = sym (ap (λ b. Loop b m order best distance) e)

  nearest_from-nil :
      (best : ReviewMode) (distance : ℕ)
      → best ≡ nearest_from buildable enabled rank [] best distance
  unfolding nearest_from
  nearest_from-nil best distance = refl

  -- What the loop promises of its result.
  abbrev Found : List ReviewMode → ℕ → ReviewMode → Type 0
  Found order distance r =
      (is_available buildable enabled r ≡ true)
      × (gap rank (rank_of r) ≤ distance)
      × IsNearest buildable enabled rank order r

  nearest_from-Found :
      (order : List ReviewMode) (best : ReviewMode) (distance : ℕ)
      → is_available buildable enabled best ≡ true
      → distance ≡ gap rank (rank_of best)
      → Found order distance (nearest_from buildable enabled rank order best distance)
  nearest_from-Found [] best distance a e =
      subst (Found [] distance) (nearest_from-nil best distance) (a, omega arith, tt)
  nearest_from-Found (m ∷ order) best distance a e =
      let d = gap rank (rank_of m) in
      elim (Bool-cases (is_available buildable enabled m && ltb d distance)) [
        | inl better ↦
            let (ok, le, rest) =
              nearest_from-Found order m d
                (and_left (is_available buildable enabled m) (ltb d distance) better) refl in
            let lt : d < distance =
              ltb→lt d distance
                (and_right (is_available buildable enabled m) (ltb d distance) better) in
            subst (Found (m ∷ order) distance) (nearest_from-cons m order best distance better)
              (ok, omega arith, (inr le, rest))
        | inr worse ↦
            let (ok, le, rest) = nearest_from-Found order best distance a e in
            subst (Found (m ∷ order) distance) (nearest_from-cons m order best distance worse)
              (ok, le, (not_better (is_available buildable enabled m) d worse le, rest))
      ]

  -- The loop starts with the first mode at a distance that no gap reaches.
  nearest_from-Found_start :
      (order : List ReviewMode) (distance : ℕ)
      → is_available buildable enabled ReviewMode.reveal ≡ true
      → rank < distance
      → Found (ReviewMode.reveal ∷ order) distance (
          nearest_from buildable enabled rank
            (ReviewMode.reveal ∷ order)
            ReviewMode.reveal
            distance)
  nearest_from-Found_start order distance a lt =
      let (ok, le, rest) = nearest_from-Found order ReviewMode.reveal (gap rank 0) a refl in
      let better : is_available buildable enabled ReviewMode.reveal && ltb (gap rank 0) distance
          ≡ true =
        rw a (ground arith) in
      subst (Found (ReviewMode.reveal ∷ order) distance)
        (nearest_from-cons ReviewMode.reveal order ReviewMode.reveal distance better)
        (ok, ground arith, (inr le, rest))

-- The mode is enabled and possible; it is the preferred one if that is, and else none is nearer.
abbrev pub IsFitted : ReviewMode → List ReviewMode → Bool → ReviewMode → Type 0
IsFitted preferred enabled buildable r =
    (is_available buildable enabled r ≡ true)
    × ((is_available buildable enabled preferred ≡ false) ⊎ (r ≡ preferred))
    × ((r ≡ preferred) ⊎ IsNearest buildable enabled (rank_of preferred) all_review_modes r)

-- If the set enables the first mode, reveal, the mode that is shown is enabled and
-- possible for the word; it is the scheduler's choice if that is, and otherwise none of the enabled
-- and possible modes is nearer to that choice in the order of difficulty.
pub select_enabled_review_mode-IsFitted :
    (preferred : ReviewMode) (enabled : List ReviewMode) (buildable : Bool)
    → contains_review_mode enabled ReviewMode.reveal ≡ true
    → IsFitted preferred enabled buildable (select_enabled_review_mode preferred enabled buildable)
unfolding select_enabled_review_mode
select_enabled_review_mode-IsFitted preferred [] buildable h = cc
select_enabled_review_mode-IsFitted preferred (e ∷ es) buildable h =
    let enabled = e ∷ es in
    let swap = and_comm (contains enabled preferred) (is_compatible buildable preferred) in
    if_elim (IsFitted preferred enabled buildable)
      (contains enabled preferred && is_compatible buildable preferred)
      (λ direct. (sym swap ∙ direct, inr refl, inl refl))
      (λ other.
        let found =
          nearest_from-Found_start buildable enabled (rank_of preferred)
            (ReviewMode.multiple_choice ∷ ReviewMode.build_word ∷ ReviewMode.fill_blank
              ∷ ReviewMode.listening ∷ ReviewMode.definition_first ∷ [])
            7 h (rank_lt preferred) in
        (let (ok, le, near) = found in (ok, inl (sym swap ∙ other), inr near)))
