-- ===== src/Learning/Undo/Guards.antt =====
-- internal/service/learning_undo.go: an undo that is refused leaves the rows as they are.
use wordbit_advanced.Prelude.{
  ◌≡◌, Bool, true, false, not, Option, none, some, refl, if_elim, ◌==◌, nat_eq,
}
use wordbit_advanced.Domain.{
  Time, Uuid, UserWordState, DailyLearningPool, DailyLearningPoolItem, LearningEvent, is_pending,
}
use wordbit_advanced.Learning.Store.{
  Store, StoredEvent, AnswerUndoSnapshot, find_item, get_latest_completed_pool_item,
  get_by_local_date,
}
use wordbit_advanced.Learning.Review.{Failure, LearningService}
use wordbit_advanced.Learning.Undo.{
  undo_last_answer, undo_item, undo_in_pool, undo_latest, undo_answer, undo_snapshot, undo_state,
  all_pending, latest_undoable_answer_event,
}

module _ {F : Type 0} where
  -- With an error, the rows are as before.
  abbrev pub IsAtomic : Store F → Option Failure × Store F → Type 0
  IsAtomic store (some failure, s) = s ≡ store
  IsAtomic store (none, s) = Unit

  undo_state-IsAtomic :
      (svc : LearningService F) (now : Time) (item : DailyLearningPoolItem F) (pool_id : Uuid)
      (answer : LearningEvent F) (snapshot : AnswerUndoSnapshot F) (had : Bool)
      (previous : Option (UserWordState F)) (store : Store F)
      → IsAtomic store (undo_state svc now item pool_id answer snapshot had previous store)
  undo_state-IsAtomic svc now item pool_id answer snapshot true none store = refl
  undo_state-IsAtomic svc now item pool_id answer snapshot true (some p) store = tt
  undo_state-IsAtomic svc now item pool_id answer snapshot false previous store = tt

  undo_answer-IsAtomic :
      (svc : LearningService F) (now : Time) (item : DailyLearningPoolItem F) (pool_id : Uuid)
      (o : Option (StoredEvent F)) (store : Store F)
      → IsAtomic store (undo_answer svc now item pool_id o store)
  undo_answer-IsAtomic svc now item pool_id none store = refl
  undo_answer-IsAtomic svc now item pool_id (some e) store = of_snapshot e.undo
    where
      of_snapshot :
          (o : Option (AnswerUndoSnapshot F))
          → IsAtomic store (undo_snapshot svc now item pool_id e.event o store)
      of_snapshot none = refl
      of_snapshot (some snapshot) =
          if_elim (IsAtomic store) (not (all_pending snapshot.created_item_ids store.items))
            (λ answered. refl)
            (λ pending.
              undo_state-IsAtomic svc now item pool_id e.event snapshot snapshot.had_previous_state
                snapshot.previous_state store)

  undo_latest-IsAtomic :
      (svc : LearningService F) (now : Time) (item : DailyLearningPoolItem F) (pool_id : Uuid)
      (o : Option (DailyLearningPoolItem F)) (store : Store F)
      → IsAtomic store (undo_latest svc now item pool_id o store)
  undo_latest-IsAtomic svc now item pool_id none store = refl
  undo_latest-IsAtomic svc now item pool_id (some latest) store =
      if_elim (IsAtomic store) (not (latest.id == item.id)) (λ other. refl)
        (λ same.
          undo_answer-IsAtomic svc now item pool_id
            (latest_undoable_answer_event item.id store.events) store)

  undo_in_pool-IsAtomic :
      (svc : LearningService F) (now : Time) (item : DailyLearningPoolItem F)
      (o : Option DailyLearningPool) (store : Store F)
      → IsAtomic store (undo_in_pool svc now item o store)
  undo_in_pool-IsAtomic svc now item none store = refl
  undo_in_pool-IsAtomic svc now item (some pool) store =
      if_elim (IsAtomic store) (not (item.pool_id == pool.id)) (λ other. refl)
        (λ same.
          undo_latest-IsAtomic svc now item pool.id
            (get_latest_completed_pool_item pool.id store.items) store)

  undo_item-IsAtomic :
      (svc : LearningService F) (now : Time) (o : Option (DailyLearningPoolItem F))
      (store : Store F)
      → IsAtomic store (undo_item svc now o store)
  undo_item-IsAtomic svc now none store = refl
  undo_item-IsAtomic svc now (some item) store =
      if_elim (IsAtomic store) (is_pending item.status) (λ pending. refl)
        (λ done.
          undo_in_pool-IsAtomic svc now item (get_by_local_date (svc.local_date now) store.pools)
            store)

  -- An undo that is refused, at whichever of its tests, leaves every row as it was.
  pub undo_last_answer-IsAtomic :
      (svc : LearningService F) (now : Time) (pool_item_id : Uuid) (store : Store F)
      → IsAtomic store (undo_last_answer svc now pool_item_id store)
  unfolding undo_last_answer
  undo_last_answer-IsAtomic svc now pool_item_id store =
      undo_item-IsAtomic svc now (find_item store.items pool_item_id) store
