-- ===== src/Sorting/Laws.antt =====
-- Go's stable sort keeps what holds of all the elements or of all pairs, is a permutation, and sorts.
use wordbit_advanced.Prelude.{
  arith, ◌≡◌, refl, Bool, true, false, List, [], ◌∷◌, All, AllPairs, count_if, if_elim,
}
use mathlib.Core.List.Perm
use mathlib.Core.List.{Perm}
use wordbit_advanced.Sorting.{insert_stable, slice_stable}

module _ {ℓ κ} {A : Type ℓ} (P : A → Type κ) (less : A → A → Bool) where
  insert-All : (x : A) (xs : List A) → P x → All P xs → All P (insert_stable less x xs)
  unfolding insert_stable
  insert-All x [] p all = (p, tt)
  insert-All x (y ∷ ys) p (q, all) =
      if_elim (All P) (less y x) (λ later. (q, insert-All x ys p all)) (λ here. (p, (q, all)))

  pub slice_stable-All : (xs : List A) → All P xs → All P (slice_stable less xs)
  unfolding slice_stable
  slice_stable-All [] all = tt
  slice_stable-All (x ∷ xs) (p, all) =
      insert-All x (slice_stable less xs) p (slice_stable-All xs all)

  insert-All-inv : (x : A) (xs : List A) → All P (insert_stable less x xs) → P x × All P xs
  unfolding insert_stable
  insert-All-inv x [] all = all
  insert-All-inv x (y ∷ ys) all =
      if_elim (λ l. All P l → P x × All P (y ∷ ys)) (less y x)
        (λ later (q, rest). let (p, others) = insert-All-inv x ys rest in (p, (q, others)))
        (λ here rest. rest) all

  pub slice_stable-All-inv : (xs : List A) → All P (slice_stable less xs) → All P xs
  unfolding slice_stable
  slice_stable-All-inv [] all = tt
  slice_stable-All-inv (x ∷ xs) all =
      let (p, rest) = insert-All-inv x (slice_stable less xs) all in
      (p, slice_stable-All-inv xs rest)

module _ {ℓ κ} {A : Type ℓ} (R : A → A → Type κ) (less : A → A → Bool)
    (symmetric : (x y : A) → R x y → R y x) where
  insert-AllPairs :
      (x : A) (xs : List A) → All (R x) xs → AllPairs R xs → AllPairs R (insert_stable less x xs)
  unfolding insert_stable
  insert-AllPairs x [] all pairs = (tt, tt)
  insert-AllPairs x (y ∷ ys) (r, all) (head, pairs) =
      if_elim (AllPairs R) (less y x)
        (λ later.
          (insert-All (R y) less x ys (symmetric x y r) head, insert-AllPairs x ys all pairs))
        (λ here. ((r, all), (head, pairs)))

  pub slice_stable-AllPairs : (xs : List A) → AllPairs R xs → AllPairs R (slice_stable less xs)
  unfolding slice_stable
  slice_stable-AllPairs [] pairs = tt
  slice_stable-AllPairs (x ∷ xs) (head, pairs) =
      insert-AllPairs x (slice_stable less xs) (slice_stable-All (R x) less xs head)
        (slice_stable-AllPairs xs pairs)

module _ {ℓ} {A : Type ℓ} (less : A → A → Bool) where
  insert-perm : (x : A) (xs : List A) → Perm (insert_stable less x xs) (x ∷ xs)
  unfolding insert_stable
  insert-perm x [] = Perm.refl (x ∷ [])
  insert-perm x (y ∷ ys) =
      if_elim (λ l. Perm l (x ∷ y ∷ ys)) (less y x)
        (λ later. Perm.trans (Perm.cons y (insert-perm x ys)) (Perm.swap x y ys))
        (λ here. Perm.refl (x ∷ y ∷ ys))

  pub slice_stable-perm : (xs : List A) → Perm (slice_stable less xs) xs
  unfolding slice_stable
  slice_stable-perm [] = Perm.refl []
  slice_stable-perm (x ∷ xs) =
      Perm.trans (insert-perm x (slice_stable less xs)) (Perm.cons x (slice_stable-perm xs))

  insert-count_if :
      (p : A → Bool) (x : A) (xs : List A)
      → count_if p (insert_stable less x xs) ≡ count_if p (x ∷ xs)
  unfolding insert_stable
  insert-count_if p x [] = refl
  insert-count_if p x (y ∷ ys) =
      if_elim (λ l. count_if p l ≡ count_if p (x ∷ y ∷ ys)) (less y x)
        (λ later. omega (arith, insert-count_if p x ys)) (λ here. refl)

  pub slice_stable-count_if :
      (p : A → Bool) (xs : List A) → count_if p (slice_stable less xs) ≡ count_if p xs
  unfolding slice_stable
  slice_stable-count_if p [] = refl
  slice_stable-count_if p (x ∷ xs) =
      omega (arith, insert-count_if p x (slice_stable less xs), slice_stable-count_if p xs)

  -- No element is less than one before it.
  abbrev pub IsSorted : List A → Type 0
  IsSorted xs = AllPairs (λ x y. less y x ≡ false) xs

  -- What sorting needs of `less`, in the words of its documentation: a strict weak order.
  pub record IsWeakOrder : Type ℓ where
    pub asymmetric : (x y : A) → less x y ≡ true → less y x ≡ false
    pub through : (x y z : A) → less y x ≡ false → less z y ≡ false → less z x ≡ false

  module _ (order : IsWeakOrder) where
    All-through :
        (x y : A) (zs : List A)
        → less y x ≡ false
        → All (λ z. less z y ≡ false) zs
        → All (λ z. less z x ≡ false) zs
    All-through x y [] h all = tt
    All-through x y (z ∷ zs) h (k, all) = (order.through x y z h k, All-through x y zs h all)

    insert-IsSorted : (x : A) (xs : List A) → IsSorted xs → IsSorted (insert_stable less x xs)
    unfolding insert_stable
    insert-IsSorted x [] sorted = (tt, tt)
    insert-IsSorted x (y ∷ ys) (head, sorted) =
        if_elim IsSorted (less y x)
          (λ later. (
            insert-All (λ z. less z y ≡ false) less x ys (order.asymmetric y x later) head,
            insert-IsSorted x ys sorted,
          ))
          (λ here. ((here, All-through x y ys here head), (head, sorted)))

    pub slice_stable-IsSorted : (xs : List A) → IsSorted (slice_stable less xs)
    unfolding slice_stable
    slice_stable-IsSorted [] = tt
    slice_stable-IsSorted (x ∷ xs) =
        insert-IsSorted x (slice_stable less xs) (slice_stable-IsSorted xs)
