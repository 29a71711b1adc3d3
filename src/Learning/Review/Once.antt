-- ===== src/Learning/Review/Once.antt =====
-- SubmitReview: an item is answered once.
use wordbit_advanced.Prelude.{
  ◌≡◌, refl, sym, ap, subst, ◌∙◌, Bool, false, not, Option, none, some, List, [], ◌∷◌, ◌==◌,
  if◌then◌else◌, nat_eq, nat_beq_iff, Bool-cases, Option-cases, inl, inr,
}
use wordbit_advanced.Float64.{Float64}
use wordbit_advanced.Domain.{Time, Uuid, UserWordState, DailyLearningPoolItem, is_pending}
use wordbit_advanced.Learning.Answer.{ReviewRequest}
use wordbit_advanced.Learning.Store.{Store, find_item, completed_item, mark_pool_item_completed}
use wordbit_advanced.Learning.Undo.Rows.{
  find_item-update_item, find_item-append_created, find_item-id,
}
use wordbit_advanced.Learning.Review.{Failure, LearningService, record_review, submit_review}

module _ {F : Type 0} ⦃fl : Float64 F⦄ (svc : LearningService F) where
  -- Answers, the first one first.
  abbrev pub after_answers : List (Time × ReviewRequest) → Store F → Store F
  after_answers [] store = store
  after_answers ((now, req) ∷ answers) store =
      after_answers answers (submit_review svc now req store).1

  -- An answer completes its item, and every other item is found as before.
  record_review-items :
      (now : Time) (req : ReviewRequest) (item found : DailyLearningPoolItem F)
      (previous : UserWordState F) (store : Store F) (id : Uuid)
      → find_item store.items id ≡ some found
      → find_item (record_review svc now req item previous store).items id
        ≡ some (if item.id == id then completed_item now found else found)
  unfolding record_review mark_pool_item_completed
  record_review-items now req item found previous store id there =
      find_item-append_created _ _ id _ (
        find_item-update_item store.items item.id id (completed_item now) (λ x. refl)
        ∙ rw there refl)

  abbrev is_open : Option (DailyLearningPoolItem F) → Bool
  is_open none = false
  is_open (some item) = is_pending item.status

  abbrev IsKept : Uuid → DailyLearningPoolItem F → Option Failure × Store F → Type 0
  IsKept id done (failure, s) = find_item s.items id ≡ some done

  submit_review-keeps :
      (now : Time) (req : ReviewRequest) (store : Store F) (id : Uuid)
      (done : DailyLearningPoolItem F)
      → find_item store.items id ≡ some done
      → is_pending done.status ≡ false
      → IsKept id done (submit_review svc now req store)
  unfolding submit_review
  submit_review-keeps now req store id done there closed =
      elim (Option-cases (find_item store.items req.pool_item_id)) [
        | inl missing ↦ rw missing there
        | inr (item, found) ↦ elim (Bool-cases (not (is_pending item.status))) [
          | inl answered ↦ rw found (rw answered there)
          | inr waiting ↦ elim (Option-cases (store.states item.word_id)) [
            | inl stateless ↦ rw found (rw waiting (rw stateless there))
            | inr (previous, known) ↦ rw found (
                rw waiting (
                  rw known (
                    record_review-items now req item done previous store id there
                    ∙ rw (other item found waiting) refl)))
          ]
        ]
      ]
    where
      other :
          (item : DailyLearningPoolItem F)
          → find_item store.items req.pool_item_id ≡ some item
          → not (is_pending item.status) ≡ false
          → item.id == id ≡ false
      other item found waiting = elim (Bool-cases (item.id == id)) [
        | inl same ↦
            let named = find_item-id store.items req.pool_item_id item found in
            let here =
              subst (λ i. find_item store.items i ≡ some item)
                (sym named ∙ (nat_beq_iff item.id id).0 same) found in
            let pending = ap is_open (sym there ∙ here) in
            let k = rw (sym (sym closed ∙ pending)) at waiting in cc
        | inr apart ↦ apart
      ]

  after_answers-keeps :
      (answers : List (Time × ReviewRequest)) (store : Store F) (id : Uuid)
      (done : DailyLearningPoolItem F)
      → find_item store.items id ≡ some done
      → is_pending done.status ≡ false
      → find_item (after_answers answers store).items id ≡ some done
  after_answers-keeps [] store id done there closed = there
  after_answers-keeps ((now, req) ∷ answers) store id done there closed =
      after_answers-keeps answers (submit_review svc now req store).1 id done
        (submit_review-keeps now req store id done there closed) closed

  submit_review-closed :
      (now : Time) (req : ReviewRequest) (store : Store F) (done : DailyLearningPoolItem F)
      → find_item store.items req.pool_item_id ≡ some done
      → is_pending done.status ≡ false
      → submit_review svc now req store ≡ (some Failure.validation, store)
  unfolding submit_review
  submit_review-closed now req store done there closed = rw there (rw closed refl)

  abbrev CompletesIfAccepted : Uuid → Time → Option Failure × Store F → Type 0
  CompletesIfAccepted id now (failure, s) =
      failure ≡ none
      → (item : DailyLearningPoolItem F) × (find_item s.items id ≡ some (completed_item now item))

  submit_review-completes :
      (now : Time) (req : ReviewRequest) (store : Store F)
      → CompletesIfAccepted req.pool_item_id now (submit_review svc now req store)
  unfolding submit_review
  submit_review-completes now req store =
      elim (Option-cases (find_item store.items req.pool_item_id)) [
        | inl missing ↦ rw missing (λ h. cc)
        | inr (item, found) ↦ elim (Bool-cases (not (is_pending item.status))) [
          | inl answered ↦ rw found (rw answered (λ h. cc))
          | inr waiting ↦ elim (Option-cases (store.states item.word_id)) [
            | inl stateless ↦ rw found (rw waiting (rw stateless (λ h. cc)))
            | inr (previous, known) ↦ rw found (
                rw waiting (
                  rw known (λ h. (
                    item,
                    record_review-items now req item item previous store req.pool_item_id found
                        ∙ rw
                            ((nat_beq_iff item.id req.pool_item_id).1
                              (find_item-id store.items req.pool_item_id item found))
                            refl,
                  ))))
          ]
        ]
      ]

  -- An answer that is accepted is the only one for its item: whatever answers, of this item or of others, come in
  -- between, a further answer for the item, with whatever rating, is refused and leaves every row as it is.
  pub submit_review-once :
      (req again : ReviewRequest) (now later : Time) (store : Store F)
      (answers : List (Time × ReviewRequest))
      → again.pool_item_id ≡ req.pool_item_id
      → (submit_review svc now req store).0 ≡ none
      → let after = after_answers answers (submit_review svc now req store).1 in
        submit_review svc later again after ≡ (some Failure.validation, after)
  submit_review-once req again now later store answers same accepted =
      let first = (submit_review svc now req store).1 in
      let (item, there) = submit_review-completes now req store accepted in
      let after = after_answers answers first in
      let kept =
        after_answers-keeps answers first req.pool_item_id (completed_item now item) there refl in
      submit_review-closed later again after (completed_item now item)
        (ap (find_item after.items) same ∙ kept) refl
