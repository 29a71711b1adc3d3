-- ===== src/MemoryCause/Distance/Edits.antt =====
-- The specification of an edit distance: scripts that turn one byte string into another, and the
-- least cost of a script by recursion on both strings.
use mathlib.Core.List.{reverse, reverse-cons}
use wordbit_advanced.Prelude.{
  ℕ, suc, ◌+◌, ◌≤◌, ◌≡◌, ◌⊎◌, List, [], ◌∷◌, ◌++◌, arith, length, nat_beq, if◌then◌else◌, refl, inl,
  inr,
}
use wordbit_advanced.MemoryCause.{min3}

abbrev pub cost : ℕ → ℕ → ℕ
cost x y = if nat_beq x y then 0 else 1

-- A script reads the two strings from the front; replacing a byte by itself is free.
pub data Script : List ℕ → List ℕ → ℕ → Type 0 where
  done : Script [] [] 0
  delete : {a b : List ℕ} {n : ℕ} (x : ℕ) → Script a b n → Script (x ∷ a) b (suc n)
  insert : {a b : List ℕ} {n : ℕ} (y : ℕ) → Script a b n → Script a (y ∷ b) (suc n)
  replace :
      {a b : List ℕ} {n m : ℕ} (x y : ℕ)
      → Script a b n
      → m ≡ n + cost x y
      → Script (x ∷ a) (y ∷ b) m

pub edit : List ℕ → List ℕ → ℕ
edit [] b = length b
edit (x ∷ a) [] = suc (length a)
edit (x ∷ a) (y ∷ b) = min3 (edit (x ∷ a) b + 1) (edit a (y ∷ b) + 1) (edit a b + cost x y)

pub edit-nil : (a : List ℕ) → edit a [] ≡ length a
unfolding edit
edit-nil [] = refl
edit-nil (x ∷ a) = refl

pub edit_self : (a : List ℕ) → edit a a ≡ 0
unfolding edit
edit_self [] = refl
edit_self (x ∷ a) = ground (arith, edit_self a)

edit-delete-le : (x : ℕ) (a b : List ℕ) → edit (x ∷ a) b ≤ edit a b + 1
unfolding edit
edit-delete-le x a [] = omega (arith, edit-nil a)
edit-delete-le x a (y ∷ b) = ground arith

edit-insert-le : (y : ℕ) (a b : List ℕ) → edit a (y ∷ b) ≤ edit a b + 1
unfolding edit
edit-insert-le y [] b = omega arith
edit-insert-le y (x ∷ a) b = ground arith

edit-replace-le : (x y : ℕ) (a b : List ℕ) → edit (x ∷ a) (y ∷ b) ≤ edit a b + cost x y
unfolding edit
edit-replace-le x y a b = ground arith

-- No script costs less than `edit`.
pub edit-le : {a b : List ℕ} {n : ℕ} → Script a b n → edit a b ≤ n
unfolding edit
edit-le done = omega arith
edit-le (delete {a = a} {b = b} x s) = omega (arith, edit-delete-le x a b, edit-le s)
edit-le (insert {a = a} {b = b} y s) = omega (arith, edit-insert-le y a b, edit-le s)
edit-le (replace {a = a} {b = b} x y s e) =
    let step = edit-replace-le x y a b in let rest = edit-le s in ground arith

edit_cases :
    (x y : ℕ) (a b : List ℕ)
    → let n = edit (x ∷ a) (y ∷ b) in
      (n ≡ suc (edit (x ∷ a) b)) ⊎ (n ≡ suc (edit a (y ∷ b))) ⊎ (n ≡ edit a b + cost x y)
unfolding edit
edit_cases x y a b = ground arith

insert_all : (b : List ℕ) → Script [] b (length b)
insert_all [] = done
insert_all (y ∷ b) = insert y (insert_all b)

delete_all : (a : List ℕ) → Script a [] (length a)
delete_all [] = done
delete_all (x ∷ a) = delete x (delete_all a)

pub edit-cons :
    (x y : ℕ) (a b : List ℕ)
    → edit (x ∷ a) (y ∷ b) ≡ min3 (edit (x ∷ a) b + 1) (edit a (y ∷ b) + 1) (edit a b + cost x y)
unfolding edit
edit-cons x y a b = refl

pub edit-nil_left : (b : List ℕ) → edit [] b ≡ length b
unfolding edit
edit-nil_left b = refl

-- Some script costs exactly `edit`.
pub edit-Script : (a b : List ℕ) → Script a b (edit a b)
edit-Script [] b = rw (edit-nil_left b) (insert_all b)
edit-Script (x ∷ a) [] = rw (edit-nil (x ∷ a)) (delete_all (x ∷ a))
edit-Script (x ∷ a) (y ∷ b) = elim (edit_cases x y a b) [
  | inl e ↦ rw e (insert y (edit-Script (x ∷ a) b))
  | inr (inl e) ↦ rw e (delete x (edit-Script a (y ∷ b)))
  | inr (inr e) ↦ replace x y (edit-Script a b) e
]

later : (n c : ℕ) {m : ℕ} → m ≡ suc n + c → m ≡ suc (n + c)
later n c e = omega arith

sooner : (n c : ℕ) {m : ℕ} → m ≡ n + c → suc m ≡ suc n + c
sooner n c e = omega arith

module _ (x : ℕ) where
  delete_last : {a b : List ℕ} {n : ℕ} → Script a b n → Script (a ++ x ∷ []) b (suc n)
  delete_last done = delete x done
  delete_last (delete z s) = delete z (delete_last s)
  delete_last (insert y s) = insert y (delete_last s)
  delete_last (replace {n = n} z y s e) = replace z y (delete_last s) (sooner n (cost z y) e)

  insert_last : {a b : List ℕ} {n : ℕ} → Script a b n → Script a (b ++ x ∷ []) (suc n)
  insert_last done = insert x done
  insert_last (delete z s) = delete z (insert_last s)
  insert_last (insert y s) = insert y (insert_last s)
  insert_last (replace {n = n} z y s e) = replace z y (insert_last s) (sooner n (cost z y) e)

regroup : (n c d : ℕ) {k m : ℕ} → m ≡ k + c → k ≡ n + d → m ≡ n + c + d
regroup n c d e f = omega arith

replace_last :
    (x y : ℕ) {a b : List ℕ} {n m : ℕ}
    → Script a b n
    → m ≡ n + cost x y
    → Script (a ++ x ∷ []) (b ++ y ∷ []) m
replace_last x y done e = replace x y done e
replace_last x y (delete {n = n} z s) e =
    let e' = later n (cost x y) e in rw e' (delete z (replace_last x y s refl))
replace_last x y (insert {n = n} z s) e =
    let e' = later n (cost x y) e in rw e' (insert z (replace_last x y s refl))
replace_last x y (replace {n = n} z w s f) e =
    replace z w (replace_last x y s refl) (regroup n (cost x y) (cost z w) e f)

-- A script from the front is as good as one from the back.
pub reverse-Script : {a b : List ℕ} {n : ℕ} → Script a b n → Script (reverse a) (reverse b) n
reverse-Script done = done
reverse-Script (delete {a = a} x s) = rw (reverse-cons x a) (delete_last x (reverse-Script s))
reverse-Script (insert {b = b} y s) = rw (reverse-cons y b) (insert_last y (reverse-Script s))
reverse-Script (replace {a = a} {b = b} x y s e) =
    rw (reverse-cons x a, reverse-cons y b) (replace_last x y (reverse-Script s) e)
