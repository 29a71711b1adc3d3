-- ===== src/Pool/Daily/Kept.antt =====
-- MaintainNewWordBuffer leaves a completed item as it is.
use wordbit_advanced.Prelude.{◌≡◌, Option, none, some, List, nat_eq}
use wordbit_advanced.Float64.{Float64}
use wordbit_advanced.Domain.{Time, Uuid, DailyLearningPoolItem, mode_eq}
use wordbit_advanced.Learning.Store.{Store, find_item}
use wordbit_advanced.Pool.Buffer.{
  UnknownDailyBufferMutation, Buffered, done, failed, maintain_new_word_buffer,
}
use wordbit_advanced.Pool.DailyRows.{DailyPoolService}
use wordbit_advanced.Pool.Daily.{
  DailyPoolView, get_or_create_daily_pool, maintain_view, maintain_daily_buffer, of_buffered,
}
use wordbit_advanced.Pool.Daily.Rows.{IsKept}
use wordbit_advanced.Pool.Daily.View.{IsView, daily_pool-IsView}
use wordbit_advanced.Pool.Daily.Maintained.{IsBuffered, maintain-IsBuffered}

module _ {F : Type 0} ⦃fl : Float64 F⦄ (svc : DailyPoolService F) (user_id : Uuid) (now : Time)
    (unused : (items : List (DailyLearningPoolItem F))
      → find_item items (svc.fresh_id items) ≡ none)
    (id : Uuid) (item : DailyLearningPoolItem F) where
  abbrev IsAfter : Option (UnknownDailyBufferMutation F) × Store F → Type 0
  IsAfter (mutation, store) = IsKept id item store.items

  maintain_view-IsAfter :
      (r : Option (DailyPoolView F) × Store F)
      → IsView svc user_id now unused id item r
      → IsAfter (maintain_view svc user_id now r)
  maintain_view-IsAfter (none, store) (kept, all) = kept
  maintain_view-IsAfter (some view, store) (kept, all) =
      of_buffered-IsAfter
        (maintain_new_word_buffer svc.unicode (svc.source store) svc.fresh_id svc.settings
          svc.default_set user_id view.pool view.items now store)
        (maintain-IsBuffered svc user_id now unused id item (svc.source store) view.pool view.items
          store all kept)
    where
      of_buffered-IsAfter :
          (b : Buffered F)
          → IsBuffered svc user_id now unused id item b
          → IsAfter (of_buffered svc user_id now b store)
      of_buffered-IsAfter failed h = kept
      of_buffered-IsAfter (done mutation after) h = h

  -- The maintenance keeps a completed item.
  pub maintain_daily_buffer-IsKept :
      (store : Store F)
      → IsKept id item store.items
      → IsKept id item (maintain_daily_buffer svc user_id now store).1.items
  unfolding maintain_daily_buffer
  maintain_daily_buffer-IsKept store kept =
      maintain_view-IsAfter (get_or_create_daily_pool svc user_id now store)
        (daily_pool-IsView svc user_id now unused id item store kept)
