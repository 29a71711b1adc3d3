-- ===== src/Session/Cards/Next.antt =====
-- internal/service/pool_service.go, `findNextCardForSession`: what it shows, against a description by
-- tests on single cards.
use wordbit_advanced.Prelude.{
  ◌<◌, ◌≤◌, ◌≡◌, ◌↔◌, ◌⊎◌, Bool, true, false, not, ◌&&◌, Option, none, some, List, [], ◌∷◌, arith,
  if◌then◌else◌, All, In, Bool-cases, inl, inr, refl, subst, keep_if, ◌==◌, string_eq, ℤ, length,
  nat_eq, ap, ◌∙◌,
}
use wordbit_advanced.Domain.{
  Time, Uuid, PoolItemType, DailyLearningPoolItem, type_eq, is_pending, is_future,
}
use wordbit_advanced.Session.Progress.{SessionProgress, is_main_review_item}
use wordbit_advanced.Session.Cards.{
  best_actionable_item, comes_first, collect, sooner, collect_selectable_session_candidates,
  new_cap_reached, first_of, prefers_new, find_next_card_for_session, actionable_items_remaining,
  add_words,
}
use wordbit_advanced.Session.Cards.Best.{IsBest, IsFirst, best_actionable_item-IsBest}

-- New words come first only in a session that is in its new-word block.
abbrev pub wants_new : SessionProgress → Bool
wants_new progress = not (progress.session_id == "") && prefers_new progress.preferred_kind

In-if :
    {A : Type 0} (b : Bool) (a x : A) (xs : List A)
    → In a (if b then x ∷ xs else xs)
    → ((b ≡ true) × (a ≡ x)) ⊎ In a xs
In-if true a x xs (inl e) = inl (refl, e)
In-if true a x xs (inr i) = inr i
In-if false a x xs i = inr i

module _ {F : Type 0} where
  IsFirst-if :
      (b : Bool) (item : DailyLearningPoolItem F) (items : List (DailyLearningPoolItem F))
      (card : DailyLearningPoolItem F)
      → IsFirst (if b then item ∷ items else items) card
      → ((b ≡ false) ⊎ (comes_first item card ≡ false)) × IsFirst items card
  IsFirst-if true item items card (f, first) = (inr f, first)
  IsFirst-if false item items card first = (inl refl, first)

  abbrev pub is_due : Time → DailyLearningPoolItem F → Bool
  is_due now item = is_pending item.status && not (is_future item.due_at now)

  abbrev pub is_due_review : Time → DailyLearningPoolItem F → Bool
  is_due_review now item = is_due now item && is_main_review_item item

  abbrev pub is_due_new : Time → Bool → DailyLearningPoolItem F → Bool
  is_due_new now capped item = is_due now item && (item.item_type == PoolItemType.new && not capped)

  collect-review :
      (items : List (DailyLearningPoolItem F)) (now : Time) (capped : Bool) (due : Option Time)
      → (collect items now capped due).review ≡ keep_if (is_due_review now) items
  collect-review [] now capped due = refl
  collect-review (item ∷ items) now capped due =
      let later = is_pending item.status && is_future item.due_at now in
      ground
        (arith, collect-review items now capped (if later then sooner item.due_at due else due))

  collect-new :
      (items : List (DailyLearningPoolItem F)) (now : Time) (capped : Bool) (due : Option Time)
      → (collect items now capped due).new ≡ keep_if (is_due_new now capped) items
  collect-new [] now capped due = refl
  collect-new (item ∷ items) now capped due =
      let later = is_pending item.status && is_future item.due_at now in
      ground (arith, collect-new items now capped (if later then sooner item.due_at due else due))

module _ {F : Type 0} (p : DailyLearningPoolItem F → Bool) where
  -- The best card that passes the test, or none where no card does.
  abbrev pub Served : List (DailyLearningPoolItem F) → Option (DailyLearningPoolItem F) → Type 0
  Served items none = All (λ item. p item ≡ false) items
  Served items (some card) =
      In card items
      × (p card ≡ true)
      × All (λ item. (p item ≡ false) ⊎ (comes_first item card ≡ false)) items

  keep_if-In :
      (items : List (DailyLearningPoolItem F)) (card : DailyLearningPoolItem F)
      → In card (keep_if p items)
      → In card items × (p card ≡ true)
  keep_if-In [] card i = elim i [ ]
  keep_if-In (item ∷ items) card i = elim (In-if (p item) card item (keep_if p items) i) [
    | inl (passes, e) ↦ (inl e, ap p e ∙ passes)
    | inr j ↦ let (there, passes) = keep_if-In items card j in (inr there, passes)
  ]

  keep_if-none : (items : List (DailyLearningPoolItem F)) → keep_if p items ≡ [] → Served items none
  keep_if-none [] h = tt
  keep_if-none (item ∷ items) h = ground (arith, keep_if-none items)

  keep_if-IsFirst :
      (items : List (DailyLearningPoolItem F)) (card : DailyLearningPoolItem F)
      → IsFirst (keep_if p items) card
      → All (λ item. (p item ≡ false) ⊎ (comes_first item card ≡ false)) items
  keep_if-IsFirst [] card h = tt
  keep_if-IsFirst (item ∷ items) card h =
      let (head, rest) = IsFirst-if (p item) item (keep_if p items) card h in
      (head, keep_if-IsFirst items card rest)

  best-Served :
      (items : List (DailyLearningPoolItem F)) (o : Option (DailyLearningPoolItem F))
      → IsBest (keep_if p items) o
      → Served items o
  best-Served items none h = keep_if-none items h
  best-Served items (some card) (i, first) =
      let (there, passes) = keep_if-In items card i in
      (there, passes, keep_if-IsFirst items card first)

module _ {F : Type 0} where
  -- The best card of the first kind, or of the second where there is none of the first.
  abbrev pub ServedInTurn :
      (DailyLearningPoolItem F → Bool)
      → (DailyLearningPoolItem F → Bool)
      → List (DailyLearningPoolItem F)
      → Option (DailyLearningPoolItem F)
      → Type 0
  ServedInTurn p q items none = Served p items none × Served q items none
  ServedInTurn p q items (some card) =
      Served p items (some card) ⊎ (Served p items none × Served q items (some card))

  first_of-ServedInTurn :
      (p q : DailyLearningPoolItem F → Bool) (items : List (DailyLearningPoolItem F))
      (a b : Option (DailyLearningPoolItem F)) (due : Option Time)
      → Served p items a
      → Served q items b
      → ServedInTurn p q items (first_of a b due).item
  first_of-ServedInTurn p q items none none due sa sb = (sa, sb)
  first_of-ServedInTurn p q items none (some b) due sa sb = inr (sa, sb)
  first_of-ServedInTurn p q items (some a) b due sa sb = inl sa

  best_by :
      (p : DailyLearningPoolItem F → Bool) (items kept : List (DailyLearningPoolItem F))
      → kept ≡ keep_if p items
      → Served p items (best_actionable_item kept)
  best_by p items kept e =
      best-Served p items (best_actionable_item kept)
        (subst (λ l. IsBest l (best_actionable_item kept)) e (best_actionable_item-IsBest kept))

  abbrev pub ServedFor :
      List (DailyLearningPoolItem F)
      → Time
      → SessionProgress
      → ℤ
      → Option (DailyLearningPoolItem F)
      → Type 0
  ServedFor items now progress limit card =
      let review = is_due_review now in
      let new = is_due_new now (new_cap_reached progress.daily_new_completed limit) in
      if wants_new progress
      then ServedInTurn new review items card
      else ServedInTurn review new items card

  -- While the session is not complete, the card is pending and due; it is a review, or a new word within
  -- the day's limit; new words go first in their block and reviews otherwise, and among its kind no
  -- card that may be shown comes before it. No card is shown only where there is none of either kind.
  pub find_next_card_for_session-ServedFor :
      (items : List (DailyLearningPoolItem F)) (now : Time) (progress : SessionProgress) (limit : ℤ)
      → progress.session_complete ≡ false
      → ServedFor items now progress limit
          (find_next_card_for_session items now progress limit).item
  unfolding find_next_card_for_session collect_selectable_session_candidates
  find_next_card_for_session-ServedFor items now progress limit h =
      let capped = new_cap_reached progress.daily_new_completed limit in
      let r =
        best_by (is_due_review now) items (collect items now capped none).review
          (collect-review items now capped none) in
      let n =
        best_by (is_due_new now capped) items (collect items now capped none).new
          (collect-new items now capped none) in
      elim (Bool-cases (progress.session_id == "")) [
        | inl anonymous ↦ rw h rw anonymous (first_of-ServedInTurn _ _ items _ _ _ r n)
        | inr named ↦ elim (Bool-cases (prefers_new progress.preferred_kind)) [
          | inl new ↦ rw h rw named rw new (first_of-ServedInTurn _ _ items _ _ _ n r)
          | inr old ↦ rw h rw named rw old (first_of-ServedInTurn _ _ items _ _ _ r n)
        ]
      ]

  add_words-grows :
      (items : List (DailyLearningPoolItem F)) (seen : List Uuid)
      → length seen ≤ length (add_words items seen)
  add_words-grows [] seen = omega arith
  add_words-grows (item ∷ items) seen =
      ground (arith, add_words-grows items seen, add_words-grows items (item.word_id ∷ seen))

  add_words-cons :
      (item : DailyLearningPoolItem F) (items : List (DailyLearningPoolItem F)) (seen : List Uuid)
      → 0 < length (add_words (item ∷ items) seen)
  add_words-cons item items [] = omega (arith, add_words-grows items (item.word_id ∷ []))
  add_words-cons item items (id ∷ seen) = omega (arith, add_words-grows (item ∷ items) (id ∷ seen))

  remaining_iff :
      (news reviews : List (DailyLearningPoolItem F)) (due : Option Time)
      → (length (add_words news (add_words reviews [])) ≡ 0)
        ↔ ((first_of (best_actionable_item reviews) (best_actionable_item news) due).item ≡ none)
  unfolding best_actionable_item
  remaining_iff [] [] due = ground arith
  remaining_iff [] (r ∷ reviews) due = ground (arith, add_words-cons r reviews [])
  remaining_iff (n ∷ news) [] due = ground (arith, add_words-cons n news [])
  remaining_iff (n ∷ news) (r ∷ reviews) due =
      ground (arith, add_words-cons n news (add_words (r ∷ reviews) []))

  first_of-swap :
      (a b : Option (DailyLearningPoolItem F)) (due : Option Time)
      → ((first_of a b due).item ≡ none) ↔ ((first_of b a due).item ≡ none)
  first_of-swap a b due = ground arith

  -- While the session is not complete, the count of cards that is reported is zero exactly when no card
  -- is shown.
  actionable_items_remaining-none :
      (items : List (DailyLearningPoolItem F)) (now : Time) (progress : SessionProgress) (limit : ℤ)
      → progress.session_complete ≡ false
      → (actionable_items_remaining items now progress.daily_new_completed limit ≡ 0)
        ↔ ((find_next_card_for_session items now progress limit).item ≡ none)
  unfolding find_next_card_for_session collect_selectable_session_candidates
      actionable_items_remaining
  actionable_items_remaining-none items now progress limit h =
      let capped = new_cap_reached progress.daily_new_completed limit in
      let c = collect items now capped none in
      let plain = remaining_iff c.new c.review c.next_due in
      let swap =
        first_of-swap (best_actionable_item c.review) (best_actionable_item c.new) c.next_due in
      elim (Bool-cases (progress.session_id == "")) [
        | inl anonymous ↦ rw h rw anonymous plain
        | inr named ↦ elim (Bool-cases (prefers_new progress.preferred_kind)) [
          | inl new ↦ rw h rw named rw new (ground (arith, plain, swap))
          | inr old ↦ rw h rw named rw old plain
        ]
      ]
