-- ===== src/Learning/Undo/RoundTrip.antt =====
-- internal/service/learning_undo.go: an undo takes an answer back.
use wordbit_advanced.Learning.Undo.Rows.{
  find_item-id, IsFresh, IsReopened, find_item-update_item, find_item-append_created,
  created-all_pending, undone-IsReopened,
}
use wordbit_advanced.Prelude.{
  ◌≡◌, Bool, true, false, not, Option, none, some, List, [], ◌∷◌, ◌==◌, if◌then◌else◌, nat_eq,
  Bool-cases, inl, inr, refl, sym, ap, ◌∙◌, subst, arith, nat_beq_iff, if_elim, string_eq,
}
use wordbit_advanced.Float64.{Float64}
use wordbit_advanced.Domain.{
  Time, Uuid, EventType, UserWordState, DailyLearningPool, DailyLearningPoolItem, is_pending,
}
use wordbit_advanced.Learning.Answer.{ReviewRequest, answered_state, inferred_cause}
use wordbit_advanced.Learning.Store.{
  Store, StoredEvent, AnswerUndoSnapshot, find_item, update_item, completed_item,
  mark_pool_item_completed, reopen_pool_item, delete_pool_items, get_latest_completed_pool_item,
  get_by_local_date, put_state,
}
use wordbit_advanced.Learning.Review.{
  Failure, LearningService, created_ids, append_created, record_review, submit_review,
  same_day_follow_up, follow_up_at, follow_up_in, review_event, review_item, review_state,
}
use wordbit_advanced.Learning.Undo.{
  undo_last_answer, undo_items, all_pending, latest_undoable_answer_event, is_answer,
}

review_event-is_answer :
    (bonus : Bool)
    → is_answer (if bonus then EventType.bonus_practice else EventType.review_answer) ≡ true
review_event-is_answer true = refl
review_event-is_answer false = refl

module _ {F : Type 0} where
  -- What every step of an undo asks for, and what it then does.
  undo_last_answer-runs :
      (svc : LearningService F) (later : Time) (id : Uuid) (store : Store F)
      (item latest : DailyLearningPoolItem F) (pool : DailyLearningPool) (e : StoredEvent F)
      (snapshot : AnswerUndoSnapshot F) (previous : UserWordState F)
      → find_item store.items id ≡ some item
      → is_pending item.status ≡ false
      → get_by_local_date (svc.local_date later) store.pools ≡ some pool
      → item.pool_id == pool.id ≡ true
      → get_latest_completed_pool_item pool.id store.items ≡ some latest
      → latest.id == item.id ≡ true
      → latest_undoable_answer_event item.id store.events ≡ some e
      → e.undo ≡ some snapshot
      → all_pending snapshot.created_item_ids store.items ≡ true
      → snapshot.had_previous_state ≡ true
      → snapshot.previous_state ≡ some previous
      → undo_last_answer svc later id store ≡ (
        none,
        undo_items svc later item pool.id e.event snapshot
            (put_state item.word_id (some previous) store),
      )
  unfolding undo_last_answer
  undo_last_answer-runs svc later id store item latest pool e snapshot previous found done day here
        last same event undo pending had before =
      rw found (
        rw done (
          rw day (
            rw here
              (rw last (rw same (rw event (rw undo (rw pending (rw had (rw before refl))))))))))

  -- The rows that an answer leaves, for the item that it creates.
  abbrev answered_store :
      Store F
      → Time
      → ReviewRequest
      → DailyLearningPoolItem F
      → UserWordState F
      → UserWordState F
      → Option (DailyLearningPoolItem F)
      → Store F
  answered_store store now req item previous st created =
      let store1 = put_state item.word_id (some st) store in
      record store1 {
        items = append_created (update_item item.id (completed_item now) store.items) created;
        events = review_event req now item previous (created_ids created) ∷ store.events;
      }

  restored_state :
      (store : Store F) (word w : Uuid) (st previous : UserWordState F)
      → store.states word ≡ some previous
      → (put_state word (some previous) (put_state word (some st) store)).states w ≡ store.states w
  restored_state store word w st previous h = elim (Bool-cases (w == word)) [
    | inl same ↦
        let (sound, complete) = nat_beq_iff w word in
        rw same (sym (ap store.states (sound same) ∙ h))
    | inr other ↦ rw other refl
  ]

  -- The undo went through: the word's state and every other are as in the store before, and so are the
  -- items, but that the answered one is open.
  abbrev pub IsRestored :
      Store F → DailyLearningPoolItem F → Uuid → Uuid → Option Failure × Store F → Type 0
  IsRestored store item w id (some failure, s) = ⊥
  IsRestored store item w id (none, s) =
      (s.states w ≡ store.states w) × IsReopened store.items item s.items id

  undo-IsRestored :
      (svc : LearningService F) (now later : Time) (req : ReviewRequest) (store : Store F)
      (item latest : DailyLearningPoolItem F) (previous st : UserWordState F)
      (created : Option (DailyLearningPoolItem F)) (pool : DailyLearningPool) (w id : Uuid)
      → find_item store.items item.id ≡ some item
      → store.states item.word_id ≡ some previous
      → IsFresh created (update_item item.id (completed_item now) store.items)
      → get_by_local_date (svc.local_date later) store.pools ≡ some pool
      → item.pool_id ≡ pool.id
      → let s1 = answered_store store now req item previous st created in
        get_latest_completed_pool_item pool.id s1.items ≡ some latest
        → latest.id ≡ item.id
        → IsRestored store item w id (undo_last_answer svc later item.id s1)
  unfolding undo_items delete_pool_items reopen_pool_item
  undo-IsRestored svc now later req store item latest previous st created pool w id found known
        fresh day here last same =
      let s1 = answered_store store now req item previous st created in
      let marked : find_item (update_item item.id (completed_item now) store.items) item.id
          ≡ some (completed_item now item) =
        find_item-update_item store.items item.id item.id (completed_item now) (λ x. refl)
        ∙ (rw found (rw (itself item.id) refl)) in
      let done = find_item-append_created created _ item.id (completed_item now item) marked in
      let e = review_event req now item previous (created_ids created) in
      let event : latest_undoable_answer_event item.id s1.events ≡ some e =
        rw (itself item.id) (rw (review_event-is_answer item.bonus_practice) refl) in
      let runs =
        undo_last_answer-runs svc later item.id s1 (completed_item now item) latest pool e
          (record {
            had_previous_state = true;
            previous_state = some previous;
            created_item_ids = created_ids created;
            deleted_pending_new_items = [];
          })
          previous done refl day (equal_ids item.pool_id pool.id here) last
          (equal_ids latest.id item.id same) event refl (created-all_pending created _ fresh) refl
          refl in
      subst (IsRestored store item w id) (sym runs) (
        restored_state store item.word_id w st previous known,
        undone-IsReopened store.items item created now id found fresh,
      )
    where
      itself : (k : Uuid) → k == k ≡ true
      itself k = ground arith

      equal_ids : (a b : Uuid) → a ≡ b → a == b ≡ true
      equal_ids a b h = ground arith

module _ {F : Type 0} ⦃fl : Float64 F⦄ where
  pub follow_up-IsFresh :
      (svc : LearningService F) (store : Store F) (now : Time) (item : DailyLearningPoolItem F)
      (st : UserWordState F) (due : Option Time)
      → find_item store.items (svc.fresh_id store.items) ≡ none
      → IsFresh (follow_up_at svc store now item st due) store.items
  follow_up-IsFresh svc store now item st none h = tt
  follow_up-IsFresh svc store now item st (some due) h =
      if_elim (λ o. IsFresh o store.items) (svc.local_date due == svc.local_date now)
        (λ today. in_pool (get_by_local_date (svc.local_date now) store.pools)) (λ otherwise. tt)
    where
      in_pool :
          (o : Option DailyLearningPool)
          → IsFresh (follow_up_in svc store o item st due) store.items
      in_pool none = tt
      in_pool (some pool) = (h, refl)

  abbrev store_of : Option Failure × Store F → Store F
  store_of (failure, s) = s

  abbrev refuse_unless : Bool → Store F → Option Failure × Store F → Option Failure × Store F
  refuse_unless b store r = if not b then (some Failure.validation, store) else r

  accepted_store :
      (b : Bool) (store s s1 : Store F) → refuse_unless b store (none, s) ≡ (none, s1) → s ≡ s1
  accepted_store true store s s1 h = ap store_of h
  accepted_store false store s s1 h = cc

  submit_review-accepted :
      (svc : LearningService F) (now : Time) (req : ReviewRequest) (store s1 : Store F)
      (item : DailyLearningPoolItem F) (previous : UserWordState F)
      → find_item store.items req.pool_item_id ≡ some item
      → store.states item.word_id ≡ some previous
      → submit_review svc now req store ≡ (none, s1)
      → record_review svc now req item previous store ≡ s1
  unfolding submit_review
  submit_review-accepted svc now req store s1 item previous found known made =
      let at_item = ap (λ o. review_item svc now req o store) found in
      let at_state =
        ap
          (λ o.
            refuse_unless (is_pending item.status) store (review_state svc now req item o store))
          known in
      accepted_store (is_pending item.status) store (record_review svc now req item previous store)
        s1 (sym (at_item ∙ at_state) ∙ made)

  -- If the identifier that the database gives to an item is not in use, an answer that was accepted is
  -- taken back by an undo, provided that its day's pool still is the current one and holds the item, and
  -- that the item is the latest completed there: the undo goes through, every word's state is again the
  -- one before the answer, the item is open, no other item differs, and a follow-up that the answer
  -- created is gone.
  pub undo_last_answer-IsRestored :
      (svc : LearningService F) (now later : Time) (req : ReviewRequest) (store s1 : Store F)
      (item latest : DailyLearningPoolItem F) (previous : UserWordState F)
      (pool : DailyLearningPool) (w id : Uuid)
      → ((items : List (DailyLearningPoolItem F)) → find_item items (svc.fresh_id items) ≡ none)
      → find_item store.items req.pool_item_id ≡ some item
      → store.states item.word_id ≡ some previous
      → submit_review svc now req store ≡ (none, s1)
      → get_by_local_date (svc.local_date later) store.pools ≡ some pool
      → item.pool_id ≡ pool.id
      → get_latest_completed_pool_item pool.id s1.items ≡ some latest
      → latest.id ≡ item.id
      → IsRestored store item w id (undo_last_answer svc later req.pool_item_id s1)
  unfolding submit_review record_review mark_pool_item_completed same_day_follow_up
  undo_last_answer-IsRestored svc now later req store s1 item latest previous pool w id unused found
        known made day here last same =
      let cause =
        inferred_cause svc.unicode svc.memory_cause_inference_enabled item.word previous req in
      let st =
        answered_state svc.memory_cause_inference_enabled item.bonus_practice cause previous req
          now in
      let store1 = put_state item.word_id (some st) store in
      let store2 = record store1 {
        items = update_item item.id (completed_item now) store1.items;
      } in
      let created =
        if item.bonus_practice
        then none
        else follow_up_at svc store2 now item st st.next_review_at in
      let fresh : IsFresh created store2.items =
        if_elim (λ o. IsFresh o store2.items) item.bonus_practice (λ bonus. tt)
          (λ plain.
            follow_up-IsFresh svc store2 now item st st.next_review_at (unused store2.items)) in
      let accepted = submit_review-accepted svc now req store s1 item previous found known made in
      let named = find_item-id store.items req.pool_item_id item found in
      let found' = subst (λ k. find_item store.items k ≡ some item) (sym named) found in
      let last' =
        subst (λ (s : Store F). get_latest_completed_pool_item pool.id s.items ≡ some latest)
          (sym accepted) last in
      let restored =
        undo-IsRestored svc now later req store item latest previous st created pool w id found'
          known fresh day here last' same in
      subst
        (λ (s : Store F).
          IsRestored store item w id (undo_last_answer svc later req.pool_item_id s))
        accepted
        (subst
          (λ k.
            IsRestored store item w id (
              undo_last_answer svc later k (answered_store store now req item previous st created)))
          named restored)
