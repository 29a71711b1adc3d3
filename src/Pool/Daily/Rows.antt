-- ===== src/Pool/Daily/Rows.antt =====
-- internal/repository/postgres/pool_repository.go: the statements on items leave a completed item as it is.
use wordbit_advanced.Prelude.{
  ℕ, ◌+◌, ◌≡◌, ◌⊎◌, inl, inr, refl, ◌∙◌, subst, Bool, true, false, none, some, List, [], ◌∷◌, ◌++◌,
  ◌==◌, nat_eq, nat_beq_iff, Bool-cases, All, All-append, keep_if, contains, if_elim,
}
use wordbit_advanced.Domain.{Uuid, DailyLearningPoolItem, is_pending}
use wordbit_advanced.Learning.Store.{Store, find_item, update_item, delete_rows}
use wordbit_advanced.Learning.Undo.Rows.{
  find_item-update_item, find_item-append_created, find_item-delete_rows,
}
use wordbit_advanced.Pool.Reconcile.{append_pool_item, append_pool_items}
use wordbit_advanced.Pool.DailyRows.{
  synced_row, write_synced, insert_pool_items, update_pending_pool_item,
}
use wordbit_advanced.Pool.Sync.{awaits_review}

pub keep_if-All :
    {A : Type 0} (P : A → Type 0) (p : A → Bool) (l : List A) → All P l → All P (keep_if p l)
keep_if-All P p [] all = tt
keep_if-All P p (x ∷ l) (h, all) =
    let rest = keep_if-All P p l all in if_elim (All P) (p x) (λ _. (h, rest)) (λ _. rest)

module _ {F : Type 0} (id : Uuid) where
  -- An item with another identifier, or a completed one.
  abbrev pub IsDone : DailyLearningPoolItem F → Type 0
  IsDone item = (item.id == id ≡ false) ⊎ (is_pending item.status ≡ false)

module _ {F : Type 0} (id : Uuid) (item : DailyLearningPoolItem F) where
  -- The completed item is found, and no item that waits has its identifier.
  pub record IsKept (items : List (DailyLearningPoolItem F)) : Type 0 where
    pub found : find_item items id ≡ some item
    pub closed : is_pending item.status ≡ false
    pub all_done : All (IsDone id) items

  keep_if-found :
      (p : DailyLearningPoolItem F → Bool) (items : List (DailyLearningPoolItem F))
      → ((x : DailyLearningPoolItem F) → is_pending x.status ≡ false → p x ≡ true)
      → All (IsDone id) items
      → find_item items id ≡ some item
      → find_item (keep_if p items) id ≡ some item
  keep_if-found p [] keeps all found = found
  keep_if-found p (x ∷ items) keeps (h, all) found = elim (Bool-cases (x.id == id)) [
    | inl same ↦ elim h [
      | inl other ↦ (let k = rw same at other in cc)
      | inr done ↦ rw (keeps x done) (rw same (rw same at found))
    ]
    | inr other ↦
        let rest = keep_if-found p items keeps all (rw other at found) in
        if_elim (λ l. find_item l id ≡ some item) (p x) (λ _. rw other rest) (λ _. rest)
  ]

  pub keep_if-IsKept :
      (p : DailyLearningPoolItem F → Bool) (items : List (DailyLearningPoolItem F))
      → ((x : DailyLearningPoolItem F) → is_pending x.status ≡ false → p x ≡ true)
      → IsKept items
      → IsKept (keep_if p items)
  keep_if-IsKept p items keeps kept = record {
    found = keep_if-found p items keeps kept.all_done kept.found;
    closed = kept.closed;
    all_done = keep_if-All (IsDone id) p items kept.all_done;
  }

  pub delete_rows-IsKept :
      (ids : List Uuid) (items : List (DailyLearningPoolItem F))
      → contains ids id ≡ false
      → IsKept items
      → IsKept (delete_rows ids items)
  unfolding delete_rows
  delete_rows-IsKept ids items absent kept = record {
    found = find_item-delete_rows items ids id ∙ rw absent kept.found;
    closed = kept.closed;
    all_done = keep_if-All (IsDone id) _ items kept.all_done;
  }

  pub append-IsKept :
      (x : DailyLearningPoolItem F) (items : List (DailyLearningPoolItem F))
      → find_item items x.id ≡ none
      → IsKept items
      → IsKept (items ++ (x ∷ []))
  append-IsKept x items fresh kept = record {
    found = find_item-append_created (some x) items id item kept.found;
    closed = kept.closed;
    all_done = All-append (IsDone id) items (x ∷ []) kept.all_done (inl other, tt);
  }
    where
      other : x.id == id ≡ false
      other = elim (Bool-cases (x.id == id)) [
        | inl same ↦
            (let k = subst (λ i. find_item items i ≡ none) ((nat_beq_iff x.id id).0 same) fresh in
              let f = kept.found in cc)
        | inr apart ↦ apart
      ]

  update_item-IsDone :
      (k : Uuid) (f : DailyLearningPoolItem F → DailyLearningPoolItem F)
      (items : List (DailyLearningPoolItem F))
      → ((x : DailyLearningPoolItem F) → IsDone id x → IsDone id (f x))
      → All (IsDone id) items
      → All (IsDone id) (update_item k f items)
  update_item-IsDone k f [] keeps all = tt
  update_item-IsDone k f (x ∷ items) keeps (h, all) = (
    if_elim (IsDone id) (x.id == k) (λ _. keeps x h) (λ _. h),
    update_item-IsDone k f items keeps all,
  )

  -- An update of pending rows only, which keeps their identifiers and statuses.
  synced_row-IsDone :
      (source x : DailyLearningPoolItem F) → IsDone id x → IsDone id (synced_row source x)
  synced_row-IsDone source x h = if_elim (IsDone id) (is_pending x.status) (λ _. h) (λ _. h)

  synced_row-id : (source x : DailyLearningPoolItem F) → (synced_row source x).id ≡ x.id
  synced_row-id source x =
      if_elim (λ (y : DailyLearningPoolItem F). y.id ≡ x.id) (is_pending x.status) (λ _. refl)
        (λ _. refl)

  update_pending-IsKept :
      (source : DailyLearningPoolItem F) (items : List (DailyLearningPoolItem F))
      → IsKept items
      → IsKept (update_pending_pool_item source items)
  update_pending-IsKept source items kept = record {
    found =
        find_item-update_item items source.id id (synced_row source) (synced_row-id source)
        ∙ rw (kept.found, kept.closed)
            (if_elim (λ (x : DailyLearningPoolItem F). some x ≡ some item) (source.id == id)
              (λ _. refl) (λ _. refl));
    closed = kept.closed;
    all_done =
        update_item-IsDone source.id (synced_row source) items (synced_row-IsDone source)
          kept.all_done;
  }

  pub write_synced-IsKept :
      (synced items : List (DailyLearningPoolItem F))
      → IsKept items
      → IsKept (write_synced synced items)
  write_synced-IsKept [] items kept = kept
  write_synced-IsKept (x ∷ synced) items kept =
      write_synced-IsKept synced _
        (if_elim IsKept (awaits_review x) (λ _. update_pending-IsKept x items kept) (λ _. kept))

  module _ (fresh_id : List (DailyLearningPoolItem F) → Uuid)
      (unused : (items : List (DailyLearningPoolItem F))
        → find_item items (fresh_id items) ≡ none) where
    pub insert_pool_items-IsKept :
        (pool_id : Uuid) (new items : List (DailyLearningPoolItem F))
        → IsKept items
        → IsKept (insert_pool_items fresh_id pool_id new items)
    insert_pool_items-IsKept pool_id [] items kept = kept
    insert_pool_items-IsKept pool_id (x ∷ new) items kept =
        insert_pool_items-IsKept pool_id new _ (append-IsKept _ items (unused items) kept)

    pub append_pool_items-IsKept :
        (last : ℕ) (new : List (DailyLearningPoolItem F)) (store : Store F)
        → IsKept store.items
        → IsKept (append_pool_items fresh_id last new store).items
    unfolding append_pool_items
    append_pool_items-IsKept last [] store kept = kept
    append_pool_items-IsKept last (x ∷ new) store kept =
        append_pool_items-IsKept (last + 1) new
          (append_pool_item fresh_id (record x { ordinal = last + 1 }) store)
          (append-IsKept _ store.items (unused store.items) kept)
