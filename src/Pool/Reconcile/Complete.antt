-- ===== src/Pool/Reconcile/Complete.antt =====
-- reconcileScheduledPoolItems: a second run has nothing to add.
use wordbit_advanced.Prelude.{
  ◌≡◌, refl, sym, ap, subst, ◌∙◌, Bool, true, false, ◌&&◌, ◌||◌, List, [], ◌∷◌, ◌++◌, nat_eq, ◌==◌,
  Bool-cases, inl, inr, All, All-map,
}
use wordbit_advanced.Float64.{Float64}
use wordbit_advanced.Domain.{
  Uuid, PoolItemType, UserWordState, DailyLearningPool, DailyLearningPoolItem, Word, type_eq,
}
use wordbit_advanced.Normalization.{Unicode}
use wordbit_advanced.ReviewModes.{ReviewModePreferences}
use wordbit_advanced.Pool.{build_review_items}
use wordbit_advanced.Learning.Store.{Store, get_last_ordinal}
use wordbit_advanced.Pool.Reconcile.{
  ScheduledPoolKey, scheduled_keys, filter_missing_scheduled_states, is_empty_list, missing_items,
  add_missing, reconcile_scheduled_pool_items,
}
use wordbit_advanced.Pool.Reconcile.Keys.{
  keys_of-append, append_items-keys, none_missing, Has-first, Has-second, missing_or_there,
  items_of, keys_of, Has,
}

module _ {F : Type 0} ⦃fl : Float64 F⦄ (u : Unicode) (words : Uuid → Word F)
    (preferences : Uuid → ReviewModePreferences) (inference : Bool)
    (new_id : List (DailyLearningPoolItem F) → Uuid) (user_id : Uuid)
    (pool : DailyLearningPool) where
  -- An item is made for each state, with its key.
  made_key :
      (type : PoolItemType) (st : UserWordState F) (rest : List (UserWordState F))
      → (type == PoolItemType.short_term || type == PoolItemType.review) ≡ true
      → keys_of pool.id
          (build_review_items u words preferences user_id pool.id (st ∷ rest) type inference)
        ≡ (st.word_id, type)
          ∷ keys_of pool.id
              (build_review_items u words preferences user_id pool.id rest type inference)
  unfolding build_review_items scheduled_keys
  made_key type st rest scheduled =
      rw ((nat_eq.equals_iff pool.id pool.id).1 refl) (rw scheduled refl)

  abbrev run : List (UserWordState F) → List (UserWordState F) → Store F → Bool × Store F
  run short review store =
      reconcile_scheduled_pool_items u words preferences inference new_id user_id pool
        (items_of pool.id store.items) short review store

  module _ (short_states review_states : List (UserWordState F)) (store : Store F) where
    abbrev old_keys : List ScheduledPoolKey
    old_keys = keys_of pool.id store.items

    abbrev short : List (UserWordState F)
    short = filter_missing_scheduled_states short_states PoolItemType.short_term old_keys

    abbrev review : List (UserWordState F)
    review = filter_missing_scheduled_states review_states PoolItemType.review old_keys

    abbrev added : Store F
    added = add_missing u words preferences inference new_id user_id pool short review store

    added-keys :
        keys_of pool.id added.items
        ≡ old_keys
          ++ (keys_of pool.id (
                build_review_items u words preferences user_id pool.id short PoolItemType.short_term
                  inference)
              ++ keys_of pool.id (
                  build_review_items u words preferences user_id pool.id review PoolItemType.review
                    inference))
    added-keys =
        append_items-keys pool.id new_id (get_last_ordinal pool.id store.items)
          (missing_items u words preferences inference new_id user_id pool.id short review) store
        ∙ ap (λ l. old_keys ++ l)
            (keys_of-append pool.id
              (build_review_items u words preferences user_id pool.id short PoolItemType.short_term
                inference)
              (build_review_items u words preferences user_id pool.id review PoolItemType.review
                inference))

    abbrev made : PoolItemType → List (UserWordState F) → List (DailyLearningPoolItem F)
    made type states = build_review_items u words preferences user_id pool.id states type inference

    abbrev new_short : List ScheduledPoolKey
    new_short = keys_of pool.id (made PoolItemType.short_term short)

    abbrev new_review : List ScheduledPoolKey
    new_review = keys_of pool.id (made PoolItemType.review review)

    All-short : All (Has pool.id (keys_of pool.id added.items) PoolItemType.short_term) short_states
    All-short =
        let type = PoolItemType.short_term in
        subst (λ ks. All (Has pool.id ks type) short_states) (sym added-keys)
          (All-map (Has pool.id (old_keys ++ new_short) type)
            (Has pool.id (old_keys ++ (new_short ++ new_review)) type) short_states
            (Has-first pool.id old_keys new_short new_review type)
            (missing_or_there pool.id (made type) type old_keys short_states
              (λ st rest. made_key type st rest refl)))

    All-review : All (Has pool.id (keys_of pool.id added.items) PoolItemType.review) review_states
    All-review =
        let type = PoolItemType.review in
        subst (λ ks. All (Has pool.id ks type) review_states) (sym added-keys)
          (All-map (Has pool.id (old_keys ++ new_review) type)
            (Has pool.id (old_keys ++ (new_short ++ new_review)) type) review_states
            (Has-second pool.id old_keys new_short new_review type)
            (missing_or_there pool.id (made type) type old_keys review_states
              (λ st rest. made_key type st rest refl)))

  nothing_missing :
      (short_states review_states : List (UserWordState F)) (store : Store F)
      → filter_missing_scheduled_states short_states PoolItemType.short_term
          (keys_of pool.id store.items)
        ≡ []
      → filter_missing_scheduled_states review_states PoolItemType.review
          (keys_of pool.id store.items)
        ≡ []
      → run short_states review_states store ≡ (false, store)
  unfolding reconcile_scheduled_pool_items
  nothing_missing short_states review_states store a b = rw a (rw b refl)

  -- A second run over the items of the pool that a run leaves, with the same due states, adds nothing: the first
  -- has added an item for each state that had none of its kind in the pool.
  pub reconcile-settles :
      (short_states review_states : List (UserWordState F)) (store : Store F)
      → let after = (run short_states review_states store).1 in
        run short_states review_states after ≡ (false, after)
  unfolding reconcile_scheduled_pool_items
  reconcile-settles short_states review_states store =
      let m = short short_states review_states store in
      let r = review short_states review_states store in
      let more = added short_states review_states store in
      elim (Bool-cases (is_empty_list m && is_empty_list r)) [
        | inl none_new ↦
            (let e : run short_states review_states store ≡ (false, store) = rw none_new refl in
              subst (λ (x : Bool × Store F). run short_states review_states x.1 ≡ (false, x.1))
                (sym e) e)
        | inr some_new ↦
            (let e : run short_states review_states store ≡ (true, more) = rw some_new refl in
              subst (λ (x : Bool × Store F). run short_states review_states x.1 ≡ (false, x.1))
                (sym e)
                (nothing_missing short_states review_states more
                  (none_missing pool.id short_states PoolItemType.short_term
                    (keys_of pool.id more.items) (All-short short_states review_states store))
                  (none_missing pool.id review_states PoolItemType.review
                    (keys_of pool.id more.items) (All-review short_states review_states store))))
      ]
