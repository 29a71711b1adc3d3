-- ===== src/Pool/Daily/Maintained.antt =====
-- maintainNewWordBuffer leaves a completed item as it is.
use wordbit_advanced.Prelude.{
  ◌≡◌, refl, arith, false, not, ◌&&◌, ◌||◌, none, List, [], ◌∷◌, ◌==◌, nat_eq, nat_beq, length,
  Bool-cases, All, contains, if_elim, inl, inr, pos, leb_ℤ, ltb_ℤ, ltb, codes,
}
use wordbit_advanced.Float64.{Float64}
use wordbit_advanced.Domain.{
  Time, Uuid, nil_uuid, DailyLearningPool, DailyLearningPoolItem, is_pending, mode_eq,
}
use wordbit_advanced.Generation.Source.{
  generate_new_words, Generation, generated, exhausted, unconfigured,
}
use wordbit_advanced.Learning.Store.{Store, find_item, delete_pool_items, get_last_ordinal}
use wordbit_advanced.Generation.Select.{WordSource}
use wordbit_advanced.Pool.{build_new_items}
use wordbit_advanced.Pool.Buffer.{
  UnknownDailyBufferMutation, Buffered, done, failed, is_new_item, pending_new,
  extract_pool_item_ids, reconcile_unknown_daily_buffer, replenish_unknown_daily_slots,
  add_new_words, maintain_new_word_buffer, inspect_new_word_buffer_state, no_mutation, buffer_of,
  wants_new_words,
}
use wordbit_advanced.Pool.DailyRows.{DailyPoolService}
use wordbit_advanced.Pool.Daily.Rows.{IsDone, IsKept, delete_rows-IsKept, append_pool_items-IsKept}

module _ {F : Type 0} (id : Uuid) where
  -- The new words that wait do not have the identifier of a completed item.
  pending_ids-absent :
      (items : List (DailyLearningPoolItem F))
      → All (IsDone id) items
      → contains (extract_pool_item_ids (pending_new items)) id ≡ false
  unfolding extract_pool_item_ids pending_new
  pending_ids-absent [] all = refl
  pending_ids-absent (x ∷ items) (h, all) =
      let rest = pending_ids-absent items all in
      elim (Bool-cases (is_new_item x && is_pending x.status)) [
        | inr answered ↦ rw answered rest
        | inl waiting ↦ elim h [
          | inl other ↦ rw waiting (elim (Bool-cases (x.id == nil_uuid)) [
            | inl unset ↦ rw unset rest
            | inr set ↦ rw set (rw other rest)
          ])
          | inr answered ↦ absurd (ground (arith, waiting, answered))
        ]
      ]

module _ {F : Type 0} ⦃fl : Float64 F⦄ (svc : DailyPoolService F) (user_id : Uuid) (now : Time)
    (unused : (items : List (DailyLearningPoolItem F))
      → find_item items (svc.fresh_id items) ≡ none)
    (id : Uuid) (item : DailyLearningPoolItem F) where
  -- The maintenance of the new words, which deletes or appends pending ones only
  abbrev pub IsBuffered : Buffered F → Type 0
  IsBuffered failed = Unit
  IsBuffered (done mutation store) = IsKept id item store.items

  reconcile_buffer-IsKept :
      (items : List (DailyLearningPoolItem F)) (store : Store F)
      → All (IsDone id) items
      → IsKept id item store.items
      → IsKept id item (reconcile_unknown_daily_buffer svc.settings items store).1.items
  unfolding reconcile_unknown_daily_buffer inspect_new_word_buffer_state delete_pool_items
  reconcile_buffer-IsKept items store all kept =
      let b = buffer_of svc.settings items store in
      let ids = extract_pool_item_ids (pending_new items) in
      let deleted : UnknownDailyBufferMutation F = record {
        created_item_ids = [];
        deleted_pending_new_items = pending_new items;
      } in
      if_elim (λ (r : UnknownDailyBufferMutation F × Store F). IsKept id item r.1.items)
        (leb_ℤ b.daily_limit (pos 0)
          || (ltb_ℤ (pos b.learned_new_count) b.daily_limit
              || nat_beq (length b.pending_new_items) 0))
        {x = (no_mutation, store)} {y = (deleted, delete_pool_items ids store)} (λ _. kept)
        (λ _. delete_rows-IsKept id item ids store.items (pending_ids-absent id items all) kept)

  add_new_words-IsBuffered :
      (source : WordSource F) (pool : DailyLearningPool) (g : Generation F) (store : Store F)
      → IsKept id item store.items
      → IsBuffered (add_new_words svc.unicode source svc.fresh_id user_id pool g store)
  add_new_words-IsBuffered source pool (exhausted e) store kept = tt
  add_new_words-IsBuffered source pool unconfigured store kept = tt
  add_new_words-IsBuffered source pool (generated n) store kept =
      if_elim IsBuffered (nat_beq (length n.words) 0) (λ _. tt)
        (λ _.
          append_pool_items-IsKept id item svc.fresh_id unused
            (get_last_ordinal pool.id store.items) (build_new_items user_id pool.id n.words) store
            kept)

  pub maintain-IsBuffered :
      (source : WordSource F) (pool : DailyLearningPool) (items : List (DailyLearningPoolItem F))
      (store : Store F)
      → All (IsDone id) items
      → IsKept id item store.items
      → IsBuffered (
          maintain_new_word_buffer svc.unicode source svc.fresh_id svc.settings svc.default_set
            user_id pool items now store)
  unfolding maintain_new_word_buffer replenish_unknown_daily_slots
  maintain-IsBuffered source pool items store all kept =
      let b = buffer_of svc.settings items store in
      let words =
        generate_new_words svc.unicode source svc.settings.cefr_level (codes pool.topic)
          b.prefetch_batch_size items now in
      if_elim IsBuffered
        (leb_ℤ b.daily_limit (pos 0) || leb_ℤ b.daily_limit (pos b.learned_new_count))
        (λ _. reconcile_buffer-IsKept items store all kept)
        (λ _.
          if_elim IsBuffered
            (leb_ℤ b.prefetch_batch_size (pos 0) || ltb 0 (length b.pending_new_items)) (λ _. kept)
            (λ _.
              if_elim IsBuffered
                (not (wants_new_words svc.default_set)
                  || (leb_ℤ b.prefetch_batch_size (pos 0)
                      || (leb_ℤ b.daily_limit (pos b.learned_new_count)
                          || ltb 0 (length b.pending_new_items))))
                (λ _. kept) (λ _. add_new_words-IsBuffered source pool words store kept)))
