-- ===== src/Examples/Days.antt =====
-- A day's pool of one item: synchronised, reconciled with the due states, and emptied of new words.
use wordbit_advanced.Prelude.{
  ◌≡◌, ◌+◌, false, none, some, Option, List, [], ◌∷◌, ℤ, pos, refl, ap, length, nat_eq, leb_ℤ,
}
use wordbit_advanced.Domain.{
  Uuid, UserWordState, DailyLearningPool, DailyLearningPoolItem, PoolItemType,
  default_user_settings, PoolItemStatus, WordStatus,
}
use wordbit_advanced.Learning.Store.{Store}
use wordbit_advanced.Pool.Sync.{sync_pending_pool_items}
use wordbit_advanced.Pool.Sync.Idempotent.{sync_pending_pool_items-idempotent}
use wordbit_advanced.Pool.Reconcile.{reconcile_scheduled_pool_items}
use wordbit_advanced.Pool.Reconcile.Keys.{items_of}
use wordbit_advanced.Pool.Reconcile.Complete.{reconcile-settles}
use wordbit_advanced.Pool.Buffer.{
  UnknownDailyBufferMutation, done, pending_new, maintain_new_word_buffer, count_learned_new,
}
use wordbit_advanced.Pool.Buffer.Emptied.{maintain_new_word_buffer-empties}
use wordbit_advanced.Examples.Fixed.{fixed}
use wordbit_advanced.Examples.Samples.{open_word, ascii, card, evening}
use wordbit_advanced.Examples.Pools.{heard_set, always_brisk}
use wordbit_advanced.Examples.Generated.{database}

abbrev one_state : Uuid → Option (UserWordState ℤ)
one_state id = some open_word

sync_pending_pool_items-idempotent_example :
    let once = sync_pending_pool_items ascii false one_state heard_set (card ∷ card ∷ card ∷ []) in
    sync_pending_pool_items ascii false one_state heard_set once ≡ once
sync_pending_pool_items-idempotent_example =
    sync_pending_pool_items-idempotent ascii false one_state heard_set (card ∷ card ∷ card ∷ [])

abbrev today : DailyLearningPool
today = record {
  id = 3;
  user_id = 1;
  local_date = "2025-03-01";
  timezone = "Asia/Ho_Chi_Minh";
  topic = "Travel";
  due_review_count = 1;
  short_term_count = 0;
  weak_count = 0;
  new_count = 1;
  word_set_id = none;
  generated_at = evening;
  created_at = evening;
  updated_at = evening;
}

abbrev new_card : DailyLearningPoolItem ℤ
new_card = record card { id = 8; word_id = 6; item_type = PoolItemType.new; is_review = false }

abbrev day_rows : Store ℤ
day_rows = record {
  states = λ id. some (record open_word { status = WordStatus.learning });
  items = card ∷ new_card ∷ [];
  pools = today ∷ [];
  events = [];
}

abbrev next_id : List (DailyLearningPoolItem ℤ) → Uuid
next_id items = length items + 100

abbrev due_later : UserWordState ℤ
due_later = record open_word { word_id = 9 }

-- The word of the first item has a review already, the other one gets an item.
one_added :
    length
      (reconcile_scheduled_pool_items ascii always_brisk heard_set false next_id 1 today
        (items_of 3 day_rows.items)
        (due_later ∷ [])
        (open_word ∷ [])
        day_rows).1.items
    ≡ 3
unfolding reconcile_scheduled_pool_items
one_added = refl

reconcile-settles_example :
    let run = λ (store : Store ℤ).
      reconcile_scheduled_pool_items ascii always_brisk heard_set false next_id 1 today
        (items_of 3 store.items)
        (due_later ∷ [])
        (open_word ∷ [])
        store in
    let after = (run day_rows).1 in run after ≡ (false, after)
reconcile-settles_example =
    reconcile-settles ascii always_brisk heard_set false next_id 1 today (due_later ∷ [])
      (open_word ∷ []) day_rows

abbrev finished : DailyLearningPoolItem ℤ
finished = record new_card { id = 10; status = PoolItemStatus.completed }

abbrev busy_rows : Store ℤ
busy_rows = record day_rows { items = card ∷ new_card ∷ finished ∷ [] }

one_learned : count_learned_new busy_rows.states (items_of 3 busy_rows.items) ≡ 1
unfolding count_learned_new
one_learned = refl

maintain_new_word_buffer-empties_example :
    let settings = record (default_user_settings 1) { daily_new_word_limit = pos 1 } in
    (m : UnknownDailyBufferMutation ℤ) × (after : Store ℤ) × (maintain_new_word_buffer ascii
        database next_id settings none 1 today
        (items_of 3 busy_rows.items)
        evening
        busy_rows
      ≡ done m after)
    × (pending_new (items_of 3 after.items) ≡ [])
maintain_new_word_buffer-empties_example =
    maintain_new_word_buffer-empties ascii database next_id
      (record (default_user_settings 1) { daily_new_word_limit = pos 1 }) none 1 today evening
      busy_rows refl (ap (λ n. leb_ℤ (pos 1) (pos n)) one_learned) (refl, (refl, (refl, tt)))
