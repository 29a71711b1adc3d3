-- ===== src/Pool/Buffer/Emptied.antt =====
-- maintainNewWordBuffer: no new word waits any more when the day's limit is reached.
use wordbit_advanced.Prelude.{
  ◌≡◌, refl, sym, subst, arith, Bool, true, false, ◌&&◌, ◌||◌, Option, List, [], ◌∷◌, nat_eq,
  nat_beq, nat_beq_iff, ◌==◌, if_elim, Bool-cases, inl, inr, All, All-map, contains, length, pos,
  leb_ℤ, ltb_ℤ,
}
use wordbit_advanced.Float64.{Float64}
use wordbit_advanced.Domain.{
  Time, Uuid, nil_uuid, UserSettings, WordSet, DailyLearningPool, DailyLearningPoolItem, is_pending,
}
use wordbit_advanced.Normalization.{Unicode}
use wordbit_advanced.Generation.Select.{WordSource}
use wordbit_advanced.Learning.Store.{Store, delete_pool_items, delete_rows}
use wordbit_advanced.Pool.Reconcile.Keys.{items_of}
use wordbit_advanced.Pool.Buffer.{
  UnknownDailyBufferMutation, done, is_new_item, pending_new, count_learned_new,
  inspect_new_word_buffer_state, extract_pool_item_ids, reconcile_unknown_daily_buffer,
  maintain_new_word_buffer,
}

module _ {F : Type 0} (pool_id : Uuid) where
  abbrev waits : DailyLearningPoolItem F → Bool
  waits item = is_new_item item && is_pending item.status

  -- The identifiers have each item of the pool that waits as a new word.
  abbrev Covers : List Uuid → List (DailyLearningPoolItem F) → Type 0
  Covers ids items =
      All (λ item. (item.pool_id == pool_id && waits item) ≡ true → contains ids item.id ≡ true)
        items

  Covers-none :
      (ids : List Uuid) (items : List (DailyLearningPoolItem F))
      → Covers ids items
      → pending_new (items_of pool_id (delete_rows ids items)) ≡ []
  unfolding pending_new delete_rows
  Covers-none ids [] c = refl
  Covers-none ids (item ∷ items) (covered, c) =
      let rest = Covers-none ids items c in
      elim (Bool-cases (contains ids item.id)) [
        | inl there ↦ rw there rest
        | inr absent ↦ elim (Bool-cases (item.pool_id == pool_id)) [
          | inl ours ↦ elim (Bool-cases (waits item)) [
            | inl waiting ↦ absurd (ground (arith, absent, covered (ground (arith, ours, waiting))))
            | inr still ↦ rw absent (rw ours (rw still rest))
          ]
          | inr other ↦ rw absent (rw other rest)
        ]
      ]

  Covers-more :
      (id : Uuid) (ids : List Uuid) (items : List (DailyLearningPoolItem F))
      → Covers ids items
      → Covers (id ∷ ids) items
  Covers-more id ids items c =
      All-map (λ item. (item.pool_id == pool_id && waits item) ≡ true → contains ids item.id ≡ true)
        (λ item.
          (item.pool_id == pool_id && waits item) ≡ true → contains (id ∷ ids) item.id ≡ true)
        items (λ item h w. ground (arith, h w)) c

  ids_cover :
      (items : List (DailyLearningPoolItem F))
      → All (λ item. (item.id == nil_uuid) ≡ false) items
      → Covers (extract_pool_item_ids (pending_new (items_of pool_id items))) items
  unfolding extract_pool_item_ids pending_new
  ids_cover [] ok = tt
  ids_cover (item ∷ items) (real, ok) =
      let rest = extract_pool_item_ids (pending_new (items_of pool_id items)) in
      let c = ids_cover items ok in
      let now = extract_pool_item_ids (pending_new (items_of pool_id (item ∷ items))) in
      elim (Bool-cases (item.pool_id == pool_id)) [
        | inl ours ↦ elim (Bool-cases (waits item)) [
          | inl waiting ↦
              (let e : now ≡ item.id ∷ rest = rw ours (rw waiting (rw real refl)) in
                subst (λ ids. Covers ids (item ∷ items)) (sym e)
                  (
                    λ _. ground (arith, nat_beq_iff item.id item.id),
                    Covers-more item.id rest items c,
                  ))
          | inr still ↦
              (let e : now ≡ rest = rw ours (rw still refl) in
                subst (λ ids. Covers ids (item ∷ items)) (sym e)
                  (λ w. absurd (ground (arith, w, still)), c))
        ]
        | inr other ↦
            (let e : now ≡ rest = rw other refl in
              subst (λ ids. Covers ids (item ∷ items)) (sym e)
                (λ w. absurd (ground (arith, w, other)), c))
      ]

  count_from_none : (xs : List (DailyLearningPoolItem F)) → nat_beq (length xs) 0 ≡ true → xs ≡ []
  count_from_none [] h = refl
  count_from_none (x ∷ xs) h = absurd (ground (arith, h))

module _ {F : Type 0} ⦃fl : Float64 F⦄ (u : Unicode) (source : WordSource F)
    (new_id : List (DailyLearningPoolItem F) → Uuid) (settings : UserSettings)
    (default_set : Option WordSet) (user_id : Uuid) (pool : DailyLearningPool) (now : Time)
    (store : Store F) where
  abbrev items : List (DailyLearningPoolItem F)
  items = items_of pool.id store.items

  reconciled_none :
      ltb_ℤ (pos 0) settings.daily_new_word_limit ≡ true
      → leb_ℤ settings.daily_new_word_limit (pos (count_learned_new store.states items)) ≡ true
      → All (λ item. (item.id == nil_uuid) ≡ false) store.items
      → pending_new (items_of pool.id (reconcile_unknown_daily_buffer settings items store).1.items)
        ≡ []
  unfolding reconcile_unknown_daily_buffer inspect_new_word_buffer_state delete_pool_items
  reconciled_none positive reached ok =
      if_elim
        (λ (x : UnknownDailyBufferMutation F × Store F).
          pending_new (items_of pool.id x.1.items) ≡ [])
        (leb_ℤ settings.daily_new_word_limit (pos 0)
          || (ltb_ℤ (pos (count_learned_new store.states items)) settings.daily_new_word_limit
              || nat_beq (length (pending_new items)) 0))
        (λ idle.
          count_from_none pool.id (pending_new items) (ground (arith, idle, positive, reached)))
        (λ busy.
          Covers-none pool.id (extract_pool_item_ids (pending_new items)) store.items
            (ids_cover pool.id store.items ok))

  -- When as many new words as the day's limit, a positive one, have been learned, maintenance succeeds and leaves no
  -- new word of the pool pending, where the rows have identifiers.
  pub maintain_new_word_buffer-empties :
      ltb_ℤ (pos 0) settings.daily_new_word_limit ≡ true
      → leb_ℤ settings.daily_new_word_limit (pos (count_learned_new store.states items)) ≡ true
      → All (λ item. (item.id == nil_uuid) ≡ false) store.items
      → (m : UnknownDailyBufferMutation F) × (after : Store F) × (maintain_new_word_buffer u source
            new_id settings default_set user_id pool items now store
          ≡ done m after)
        × (pending_new (items_of pool.id after.items) ≡ [])
  unfolding maintain_new_word_buffer inspect_new_word_buffer_state
  maintain_new_word_buffer-empties positive reached ok =
      let (m, after) = reconcile_unknown_daily_buffer settings items store in
      (m, after, rw reached (ground arith), reconciled_none positive reached ok)
