-- ===== src/Learning/Reveal/Hints.antt =====
-- SubmitReveal: a numbered hint is recorded once.
use wordbit_advanced.Prelude.{
  zero, not, if_elim, ℕ, suc, ◌≤◌, ◌++◌, count_if, take, keep_if, [], arith, ◌≡◌, refl, true, false,
  Option, none, some, List, ◌∷◌, ℤ, pos, negsuc, ltb_ℤ, nat_beq_iff, Bool-cases, inl, inr,
  Option-cases, ap, sym, subst, ◌∙◌, string_eq,
}
use wordbit_advanced.Float64.{Float64}
use wordbit_advanced.Domain.{Time, Uuid, RevealKind, DailyLearningPoolItem}
use wordbit_advanced.Learning.Store.{Store, StoredEvent, find_item}
use wordbit_advanced.Learning.Undo.Rows.{find_item-id}
use wordbit_advanced.Learning.Review.{Failure}
use wordbit_advanced.Learning.Reveal.{
  is_of_item, is_hint_usage, has_hint_step, RevealRequest, beq_ℤ, hint_step_from_payload,
  has_recorded_hint_step, record_reveal, reveal_kind, reveal_item, submit_reveal, reveal_event,
}

beq_ℤ_refl : (n : ℤ) → beq_ℤ n n ≡ true
beq_ℤ_refl (pos n) = ground (arith, nat_beq_iff n n)
beq_ℤ_refl (negsuc n) = ground (arith, nat_beq_iff n n)

module _ {F : Type 0} ⦃fl : Float64 F⦄ where
  module _ (now : Time) (req : RevealRequest) (positive : ltb_ℤ (pos 0) req.hint_step ≡ true) where
    again-kept :
        (item : DailyLearningPoolItem F) (store : Store F)
        → has_recorded_hint_step item.id req.hint_step store.events ≡ true
        → reveal_kind now req item (some RevealKind.hint) store ≡ (none, store)
    again-kept item store there =
        let whole : ltb_ℤ req.hint_step (pos 0) ≡ false = ground (arith, positive) in
        rw whole (rw positive (rw there refl))

    first-recorded :
        (item : DailyLearningPoolItem F) (store : Store F)
        → has_recorded_hint_step item.id req.hint_step store.events ≡ false
        → reveal_kind now req item (some RevealKind.hint) store
          ≡ (none, record_reveal now req item RevealKind.hint store)
    first-recorded item store absent =
        let whole : ltb_ℤ req.hint_step (pos 0) ≡ false = ground (arith, positive) in
        rw whole (rw absent (ground arith))

  repeated :
      (later : Time) (req : RevealRequest) (item : DailyLearningPoolItem F) (store : Store F)
      → req.kind ≡ some RevealKind.hint
      → ltb_ℤ (pos 0) req.hint_step ≡ true
      → find_item store.items req.pool_item_id ≡ some item
      → has_recorded_hint_step item.id req.hint_step store.events ≡ true
      → submit_reveal later req store ≡ (none, store)
  unfolding submit_reveal
  repeated later req item store kind positive place there =
      ap (λ o. reveal_item later req o store) place
      ∙ ap (λ k. reveal_kind later req item k store) kind
      ∙ again-kept later req positive item store there

  has_hint_step-cons :
      (step : ℤ) (x : StoredEvent F) (events : List (StoredEvent F))
      → has_hint_step step events ≡ true
      → has_hint_step step (x ∷ events) ≡ true
  has_hint_step-cons step x events found =
      if_elim (λ b. b ≡ true) (not (is_hint_usage x.event.event_type)) (λ _. found)
        (λ _.
          if_elim (λ b. b ≡ true) (beq_ℤ (hint_step_from_payload x.event.payload) step) (λ _. refl)
            (λ _. found))

  -- An event with the step is found among the latest of the item, behind at most as many others of it.
  recent-has_hint_step :
      (id : Uuid) (step : ℤ) (n : ℕ) (more rest : List (StoredEvent F)) (e : StoredEvent F)
      → is_of_item id e.event.pool_item_id ≡ true
      → is_hint_usage e.event.event_type ≡ true
      → beq_ℤ (hint_step_from_payload e.event.payload) step ≡ true
      → count_if (λ x. is_of_item id x.event.pool_item_id) more ≤ n
      → has_hint_step step
          (take (suc n) (keep_if (λ x. is_of_item id x.event.pool_item_id) (more ++ (e ∷ rest))))
        ≡ true
  recent-has_hint_step id step n [] rest e here usage same few = rw here (rw usage (rw same refl))
  recent-has_hint_step id step zero (x ∷ more) rest e here usage same few =
      elim (Bool-cases (is_of_item id x.event.pool_item_id)) [
        | inl ours ↦ (let k = rw ours at few in absurd (omega (arith, k)))
        | inr other ↦
            (let k = rw other at few in
              rw other
                (recent-has_hint_step id step zero more rest e here usage same (omega (arith, k))))
      ]
  recent-has_hint_step id step (suc n) (x ∷ more) rest e here usage same few =
      elim (Bool-cases (is_of_item id x.event.pool_item_id)) [
        | inl ours ↦
            (let k = rw ours at few in
              rw ours (
                has_hint_step-cons step x
                  (take (suc n)
                    (keep_if (λ y. is_of_item id y.event.pool_item_id) (more ++ (e ∷ rest))))
                  (recent-has_hint_step id step n more rest e here usage same (omega (arith, k)))))
        | inr other ↦
            (let k = rw other at few in
              rw other (
                recent-has_hint_step id step (suc n) more rest e here usage same
                  (omega (arith, k))))
      ]

  step_recorded :
      (now : Time) (req : RevealRequest) (item : DailyLearningPoolItem F)
      → ltb_ℤ (pos 0) req.hint_step ≡ true
      → let e = reveal_event req now item RevealKind.hint in
        beq_ℤ (hint_step_from_payload e.event.payload) req.hint_step ≡ true
  unfolding hint_step_from_payload
  step_recorded now req item positive = rw positive (beq_ℤ_refl req.hint_step)

  recorded-later :
      (now : Time) (req : RevealRequest) (item : DailyLearningPoolItem F) (store : Store F)
      (more : List (StoredEvent F))
      → ltb_ℤ (pos 0) req.hint_step ≡ true
      → item.id ≡ req.pool_item_id
      → count_if (λ e. is_of_item req.pool_item_id e.event.pool_item_id) more ≤ 99
      → has_recorded_hint_step req.pool_item_id req.hint_step
          (more ++ (record_reveal now req item RevealKind.hint store).events)
        ≡ true
  unfolding has_recorded_hint_step record_reveal
  recorded-later now req item store more positive named few =
      recent-has_hint_step req.pool_item_id req.hint_step 99 more _
        (reveal_event req now item RevealKind.hint) ((nat_beq_iff item.id req.pool_item_id).1 named)
        refl (step_recorded now req item positive) few

  -- A numbered hint that was not recorded before and is accepted is recorded once: sent again at any later time,
  -- whatever rows were written in between, it changes nothing, as long as the item is there, events were only added,
  -- and at most 99 of these are of the item.
  pub submit_reveal-hint_once :
      (now later : Time) (req again : RevealRequest) (store store' : Store F)
      (item : DailyLearningPoolItem F) (more : List (StoredEvent F))
      → req.kind ≡ some RevealKind.hint
      → ltb_ℤ (pos 0) req.hint_step ≡ true
      → has_recorded_hint_step req.pool_item_id req.hint_step store.events ≡ false
      → (submit_reveal now req store).0 ≡ none
      → again.kind ≡ req.kind
      → again.hint_step ≡ req.hint_step
      → find_item store'.items again.pool_item_id ≡ some item
      → again.pool_item_id ≡ req.pool_item_id
      → store'.events ≡ more ++ (submit_reveal now req store).1.events
      → count_if (λ e. is_of_item req.pool_item_id e.event.pool_item_id) more ≤ 99
      → submit_reveal later again store' ≡ (none, store')
  unfolding submit_reveal
  submit_reveal-hint_once now later req again store store' item more kind positive absent accepted
        again_kind again_step place same events few =
      let id = req.pool_item_id in
      elim (Option-cases (find_item store.items id)) [
        | inl missing ↦ (let k = rw missing at accepted in cc)
        | inr (first, there) ↦
            let named = find_item-id store.items id first there in
            let made : submit_reveal now req store
                ≡ (none, record_reveal now req first RevealKind.hint store) =
              ap (λ o. reveal_item now req o store) there
              ∙ ap (λ k. reveal_kind now req first k store) kind
              ∙ first-recorded now req positive first store (
                  subst (λ i. has_recorded_hint_step i req.hint_step store.events ≡ false)
                    (sym named) absent) in
            let found = recorded-later now req first store more positive named few in
            let after = events ∙ ap (λ (x : Option Failure × Store F). more ++ x.1.events) made in
            let by_id =
              subst (λ l. has_recorded_hint_step id req.hint_step l ≡ true) (sym after) found in
            let at_item =
              subst (λ i. has_recorded_hint_step i req.hint_step store'.events ≡ true)
                (sym (find_item-id store'.items again.pool_item_id item place ∙ same)) by_id in
            let at_step =
              subst (λ n. has_recorded_hint_step item.id n store'.events ≡ true) (sym again_step)
                at_item in
            repeated later again item store' (again_kind ∙ kind)
              (ap (ltb_ℤ (pos 0)) again_step ∙ positive) place at_step
      ]
