-- ===== src/Pool/Reconcile/Keys.antt =====
-- The keys of a pool's scheduled items, and the states that have none.
use wordbit_advanced.Prelude.{
  ℕ, ◌+◌, ◌≡◌, refl, sym, ap, subst, ◌∙◌, arith, true, ◌||◌, List, [], ◌∷◌, ◌++◌, nat_eq,
  nat_beq_iff, ◌==◌, if_elim, Bool-cases, inl, inr, All, All-map, keep_if,
}
use mathlib.Core.List.{append-nil, append_assoc}
use wordbit_advanced.Domain.{Uuid, PoolItemType, UserWordState, DailyLearningPoolItem, type_eq}
use wordbit_advanced.Learning.Store.{Store}
use wordbit_advanced.Pool.Reconcile.{
  ScheduledPoolKey, same_key, has_key, is_scheduled, scheduled_keys,
  filter_missing_scheduled_states, append_pool_item, append_pool_items,
}

pub has_key-append :
    (xs ys : List ScheduledPoolKey) (k : ScheduledPoolKey)
    → has_key (xs ++ ys) k ≡ (has_key xs k || has_key ys k)
has_key-append [] ys k = refl
has_key-append (x ∷ xs) ys k = ground (arith, has_key-append xs ys k)

pub same_key_refl : (id : Uuid) (t : PoolItemType) → same_key (id, t) (id, t) ≡ true
same_key_refl id t = ground (arith, nat_beq_iff id id, type_eq.equals_iff t t)

module _ {F : Type 0} (pool_id : Uuid) where
  -- The items of the pool, as `GetByLocalDate` returns them with it.
  abbrev pub items_of : List (DailyLearningPoolItem F) → List (DailyLearningPoolItem F)
  items_of items = keep_if (λ item. item.pool_id == pool_id) items

  abbrev pub keys_of : List (DailyLearningPoolItem F) → List ScheduledPoolKey
  keys_of items = scheduled_keys (items_of items)

  pub keys_of-append :
      (xs ys : List (DailyLearningPoolItem F)) → keys_of (xs ++ ys) ≡ keys_of xs ++ keys_of ys
  unfolding scheduled_keys
  keys_of-append [] ys = refl
  keys_of-append (x ∷ xs) ys = elim (Bool-cases (x.pool_id == pool_id)) [
    | inl ours ↦ elim (Bool-cases (is_scheduled x)) [
      | inl kept ↦ rw ours (rw kept (ap (λ l. (x.word_id, x.item_type) ∷ l) (keys_of-append xs ys)))
      | inr left ↦ rw ours (rw left (keys_of-append xs ys))
    ]
    | inr other ↦ rw other (keys_of-append xs ys)
  ]

  pub keys_of-single :
      (item : DailyLearningPoolItem F) (id : Uuid) (n : ℕ)
      → keys_of (record item { ordinal = n; id = id } ∷ []) ≡ keys_of (item ∷ [])
  unfolding scheduled_keys
  keys_of-single item id n = elim (Bool-cases (item.pool_id == pool_id)) [
    | inl ours ↦ rw ours refl
    | inr other ↦ rw other refl
  ]

  pub append_items-keys :
      (new_id : List (DailyLearningPoolItem F) → Uuid) (last : ℕ)
      (items : List (DailyLearningPoolItem F)) (store : Store F)
      → keys_of (append_pool_items new_id last items store).items
        ≡ keys_of store.items ++ keys_of items
  unfolding append_pool_items scheduled_keys
  append_items-keys new_id last [] store = sym (append-nil (keys_of store.items))
  append_items-keys new_id last (item ∷ items) store =
      let item' : DailyLearningPoolItem F = record item { ordinal = last + 1 } in
      let new : DailyLearningPoolItem F = record item' { id = new_id store.items } in
      append_items-keys new_id (last + 1) items (append_pool_item new_id item' store)
      ∙ ap (λ l. l ++ keys_of items) (keys_of-append store.items (new ∷ []))
      ∙ append_assoc (keys_of store.items) (keys_of (new ∷ [])) (keys_of items)
      ∙ ap (λ l. keys_of store.items ++ (l ++ keys_of items))
          (keys_of-single item (new_id store.items) (last + 1))
      ∙ ap (λ l. keys_of store.items ++ l) (sym (keys_of-append (item ∷ []) items))

  -- The states that are missing are those without a key, so that none is missing where all have one.
  abbrev pub Has : List ScheduledPoolKey → PoolItemType → UserWordState F → Type 0
  Has keys type st = has_key keys (st.word_id, type) ≡ true

  pub none_missing :
      (states : List (UserWordState F)) (type : PoolItemType) (keys : List ScheduledPoolKey)
      → All (Has keys type) states
      → filter_missing_scheduled_states states type keys ≡ []
  unfolding filter_missing_scheduled_states
  none_missing [] type keys all = refl
  none_missing (st ∷ states) type keys (has, all) = rw has (none_missing states type keys all)

  pub Has-left :
      (xs ys : List ScheduledPoolKey) (type : PoolItemType) (st : UserWordState F)
      → Has xs type st
      → Has (xs ++ ys) type st
  Has-left xs ys type st h = ground (arith, has_key-append xs ys (st.word_id, type), h)

  pub Has-right :
      (xs ys : List ScheduledPoolKey) (type : PoolItemType) (st : UserWordState F)
      → Has ys type st
      → Has (xs ++ ys) type st
  Has-right xs ys type st h = ground (arith, has_key-append xs ys (st.word_id, type), h)

  pub Has-first :
      (old xs ys : List ScheduledPoolKey) (type : PoolItemType) (st : UserWordState F)
      → Has (old ++ xs) type st
      → Has (old ++ (xs ++ ys)) type st
  Has-first old xs ys type st h =
      let k : ScheduledPoolKey = (st.word_id, type) in
      ground
        (arith, h, has_key-append old xs k, has_key-append old (xs ++ ys) k, has_key-append xs ys k)

  pub Has-second :
      (old xs ys : List ScheduledPoolKey) (type : PoolItemType) (st : UserWordState F)
      → Has (old ++ ys) type st
      → Has (old ++ (xs ++ ys)) type st
  Has-second old xs ys type st h =
      let k : ScheduledPoolKey = (st.word_id, type) in
      ground
        (arith, h, has_key-append old ys k, has_key-append old (xs ++ ys) k, has_key-append xs ys k)

  -- Each state has a key of the pool's, or one of the items for the missing ones.
  pub missing_or_there :
      (make : List (UserWordState F) → List (DailyLearningPoolItem F)) (type : PoolItemType)
      (keys : List ScheduledPoolKey) (states : List (UserWordState F))
      → ((st : UserWordState F) (rest : List (UserWordState F))
          → keys_of (make (st ∷ rest)) ≡ (st.word_id, type) ∷ keys_of (make rest))
      → All
          (Has (keys ++ keys_of (make (filter_missing_scheduled_states states type keys))) type)
          states
  unfolding filter_missing_scheduled_states
  missing_or_there make type keys [] made = tt
  missing_or_there make type keys (st ∷ states) made =
      let rest = filter_missing_scheduled_states states type keys in
      let others = missing_or_there make type keys states made in
      if_elim (λ r. All (Has (keys ++ keys_of (make r)) type) (st ∷ states))
        (has_key keys (st.word_id, type))
        (λ there. (Has-left keys (keys_of (make rest)) type st there, others))
        (λ missing.
          subst (λ ks. All (Has (keys ++ ks) type) (st ∷ states)) (sym (made st rest))
            (
              Has-right keys ((st.word_id, type) ∷ keys_of (make rest)) type st
                  (ground (arith, same_key_refl st.word_id type)),
              All-map (Has (keys ++ keys_of (make rest)) type)
                  (Has (keys ++ ((st.word_id, type) ∷ keys_of (make rest))) type) states
                  (λ x h. ground (
                    arith,
                    h,
                    has_key-append keys (keys_of (make rest)) (x.word_id, type),
                    has_key-append keys ((st.word_id, type) ∷ keys_of (make rest))
                        (x.word_id, type),
                  ))
                  others,
            ))
