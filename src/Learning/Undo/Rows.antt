-- ===== src/Learning/Undo/Rows.antt =====
-- internal/repository/postgres/pool_repository.go: which items are found after rows are updated,
-- appended and deleted.
use wordbit_advanced.Prelude.{
  ◌≡◌, ◌≢◌, ◌⊎◌, Bool, true, false, Option, none, some, List, [], ◌∷◌, ◌++◌, ◌==◌, if◌then◌else◌,
  nat_eq, contains, Bool-cases, inl, inr, refl, sym, ap, ◌∙◌, subst, arith, nat_beq_iff, string_eq,
}
use wordbit_advanced.Domain.{Time, Uuid, DailyLearningPoolItem, is_pending}
use wordbit_advanced.Learning.Store.{
  find_item, update_item, completed_item, reopened_item, delete_rows,
}
use wordbit_advanced.Learning.Review.{created_ids, append_created}
use wordbit_advanced.Learning.Undo.{all_pending}

module _ {F : Type 0} where
  abbrev pub when :
      Bool
      → (DailyLearningPoolItem F → DailyLearningPoolItem F)
      → Option (DailyLearningPoolItem F)
      → Option (DailyLearningPoolItem F)
  when b f none = none
  when b f (some item) = some (if b then f item else item)

  pub find_item-update_item :
      (items : List (DailyLearningPoolItem F)) (k id : Uuid)
      (f : DailyLearningPoolItem F → DailyLearningPoolItem F)
      → ((x : DailyLearningPoolItem F) → (f x).id ≡ x.id)
      → find_item (update_item k f items) id ≡ when (k == id) f (find_item items id)
  find_item-update_item [] k id f keeps = refl
  find_item-update_item (x ∷ items) k id f keeps =
      let ih = find_item-update_item items k id f keeps in ground (arith, ih, keeps x)

  pub find_item-id :
      (items : List (DailyLearningPoolItem F)) (id : Uuid) (item : DailyLearningPoolItem F)
      → find_item items id ≡ some item
      → item.id ≡ id
  find_item-id [] id item h = cc
  find_item-id (x ∷ items) id item h =
      ground (arith, find_item-id items id item, nat_beq_iff x.id id)

  pub find_item-delete_rows :
      (items : List (DailyLearningPoolItem F)) (ids : List Uuid) (id : Uuid)
      → find_item (delete_rows ids items) id
        ≡ (if contains ids id then none else find_item items id)
  unfolding delete_rows
  find_item-delete_rows [] ids id = ground arith
  find_item-delete_rows (x ∷ items) ids id =
      let ih = find_item-delete_rows items ids id in
      elim (Bool-cases (contains ids x.id)) [
        | inl gone ↦ elim (Bool-cases (x.id == id)) [
          | inl same ↦
              let (sound, complete) = nat_beq_iff x.id id in
              let also = subst (λ i. contains ids i ≡ true) (sound same) gone in
              rw gone (rw also (ih ∙ ap (λ b. if b then none else find_item items id) also))
          | inr other ↦ rw gone (rw other ih)
        ]
        | inr kept ↦ elim (Bool-cases (x.id == id)) [
          | inl same ↦
              let (sound, complete) = nat_beq_iff x.id id in
              let also = subst (λ i. contains ids i ≡ false) (sound same) kept in
              rw kept (rw also (rw same refl))
          | inr other ↦ rw kept (rw other ih)
        ]
      ]

  find_item-append :
      (items : List (DailyLearningPoolItem F)) (x : DailyLearningPoolItem F) (id : Uuid)
      → x.id == id ≡ false
      → find_item (items ++ (x ∷ [])) id ≡ find_item items id
  find_item-append [] x id h = rw h refl
  find_item-append (y ∷ items) x id h = rw (find_item-append items x id h) refl

  find_item-append_last :
      (items : List (DailyLearningPoolItem F)) (x : DailyLearningPoolItem F)
      → find_item items x.id ≡ none
      → find_item (items ++ (x ∷ [])) x.id ≡ some x
  find_item-append_last [] x h = ground arith
  find_item-append_last (y ∷ items) x h = ground (arith, find_item-append_last items x)

  -- A created item has an identifier that no item has, and is pending.
  abbrev pub IsFresh : Option (DailyLearningPoolItem F) → List (DailyLearningPoolItem F) → Type 0
  IsFresh none items = Unit
  IsFresh (some x) items = (find_item items x.id ≡ none) × (is_pending x.status ≡ true)

  pub created-all_pending :
      (created : Option (DailyLearningPoolItem F)) (items : List (DailyLearningPoolItem F))
      → IsFresh created items
      → all_pending (created_ids created) (append_created items created) ≡ true
  created-all_pending none items fresh = refl
  created-all_pending (some x) items (fresh, pending) =
      rw (find_item-append_last items x fresh) (rw pending refl)

  -- Deleting what was created leaves the items as they were found before.
  find_item-created :
      (created : Option (DailyLearningPoolItem F)) (items : List (DailyLearningPoolItem F))
      (id : Uuid)
      → IsFresh created items
      → find_item (delete_rows (created_ids created) (append_created items created)) id
        ≡ find_item items id
  find_item-created none items id fresh = find_item-delete_rows items [] id
  find_item-created (some x) items id (fresh, pending) =
      let deleted = find_item-delete_rows (items ++ (x ∷ [])) (x.id ∷ []) id in
      elim (Bool-cases (x.id == id)) [
        | inl same ↦
            let (sound, complete) = nat_beq_iff x.id id in
            let absent = subst (λ i. find_item items i ≡ none) (sound same) fresh in
            rw absent (deleted ∙ (rw same refl))
        | inr other ↦ deleted ∙ (rw other (find_item-append items x id other))
      ]

  -- The item that an answer completed is found as it is before the deletion, too.
  pub find_item-append_created :
      (created : Option (DailyLearningPoolItem F)) (items : List (DailyLearningPoolItem F))
      (id : Uuid) (item : DailyLearningPoolItem F)
      → find_item items id ≡ some item
      → find_item (append_created items created) id ≡ some item
  find_item-append_created none items id item found = found
  find_item-append_created (some x) [] id item found = cc
  find_item-append_created (some x) (y ∷ items) id item found =
      ground (arith, find_item-append_created (some x) items id item)

  -- The item is open again, and every other item is found, or not found, as before.
  abbrev pub IsReopened :
      List (DailyLearningPoolItem F)
      → DailyLearningPoolItem F
      → List (DailyLearningPoolItem F)
      → Uuid
      → Type 0
  IsReopened items item items' id =
      ((id ≡ item.id) × (find_item items' id ≡ some (reopened_item item)))
      ⊎ ((id ≢ item.id) × (find_item items' id ≡ find_item items id))

  pub undone-IsReopened :
      (items : List (DailyLearningPoolItem F)) (item : DailyLearningPoolItem F)
      (created : Option (DailyLearningPoolItem F)) (now : Time) (id : Uuid)
      → find_item items item.id ≡ some item
      → IsFresh created (update_item item.id (completed_item now) items)
      → IsReopened items item
          (update_item item.id reopened_item (
            delete_rows
              (created_ids created)
              (append_created (update_item item.id (completed_item now) items) created)))
          id
  undone-IsReopened items item created now id found fresh =
      let done = update_item item.id (completed_item now) items in
      let kept = delete_rows (created_ids created) (append_created done created) in
      let b = item.id == id in
      let (sound, complete) = nat_beq_iff item.id id in
      let opened = find_item-update_item kept item.id id reopened_item (λ x. refl) in
      let back = ap (when b reopened_item) (find_item-created created done id fresh) in
      let marked =
        ap (when b reopened_item)
          (find_item-update_item items item.id id (completed_item now) (λ x. refl)) in
      let all = opened ∙ back ∙ marked in
      elim (Bool-cases b) [
        | inl same ↦
            let here = subst (λ k. find_item items k ≡ some item) (sound same) found in
            inl (sym (sound same), all ∙ (rw here (rw same refl)))
        | inr other ↦ inr (
          (λ e. ground (arith, complete (sym e), other)),
          all ∙ (rw other (when_false (find_item items id))),
        )
      ]
    where
      when_false :
          (o : Option (DailyLearningPoolItem F))
          → when false reopened_item (when false (completed_item now) o) ≡ o
      when_false none = refl
      when_false (some x) = refl
