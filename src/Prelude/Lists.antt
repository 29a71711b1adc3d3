-- ===== src/Prelude/Lists.antt =====
-- Lists measured by native numbers, and predicates on them by recursion.
use Prim.Native.Nat.{ℕ, zero, suc, ◌+◌, ◌≤◌}
use mathlib.Core.Path.{◌≡◌}
use mathlib.Core.Bool.{Bool, false, ◌||◌}
use mathlib.Core.List.{List, [], ◌∷◌, ◌++◌}
use mathlib.Core.Logic.{◌⊎◌}
use native.Mathlib.Omega.{arith}
use wordbit_advanced.Prelude.Tests.{if◌then◌else◌}
use wordbit_advanced.Prelude.Equality.{Comparable, ◌==◌}

module _ {ℓ} {A : Type ℓ} where
  abbrev pub length : List A → ℕ
  length [] = 0
  length (x ∷ xs) = suc (length xs)

  abbrev pub take : ℕ → List A → List A
  take zero xs = []
  take (suc n) [] = []
  take (suc n) (x ∷ xs) = x ∷ take n xs

  abbrev pub drop : ℕ → List A → List A
  drop zero xs = xs
  drop (suc n) [] = []
  drop (suc n) (x ∷ xs) = drop n xs

  -- How many elements pass a test.
  abbrev pub count_if : (A → Bool) → List A → ℕ
  count_if p [] = 0
  count_if p (x ∷ xs) = (if p x then 1 else 0) + count_if p xs

  abbrev pub keep_if : (A → Bool) → List A → List A
  keep_if p [] = []
  keep_if p (x ∷ xs) = let rest = keep_if p xs in if p x then x ∷ rest else rest

  pub length-append : (xs ys : List A) → length (xs ++ ys) ≡ length xs + length ys
  length-append [] ys = omega arith
  length-append (x ∷ xs) ys = omega (arith, length-append xs ys)

  pub count_if-append :
      (p : A → Bool) (xs ys : List A) → count_if p (xs ++ ys) ≡ count_if p xs + count_if p ys
  count_if-append p [] ys = omega arith
  count_if-append p (x ∷ xs) ys = omega (arith, count_if-append p xs ys)

  pub count_if-le : (p : A → Bool) (xs : List A) → count_if p xs ≤ length xs
  count_if-le p [] = omega arith
  count_if-le p (x ∷ xs) = ground (arith, count_if-le p xs)

  abbrev pub All {κ} : (A → Type κ) → List A → Type κ
  All P [] = Unit
  All P (x ∷ xs) = P x × All P xs

  -- Each element is in the relation with every later one.
  abbrev pub AllPairs {κ} : (A → A → Type κ) → List A → Type κ
  AllPairs R [] = Unit
  AllPairs R (x ∷ xs) = All (R x) xs × AllPairs R xs

  pub All-append {κ} : (P : A → Type κ) (xs ys : List A) → All P xs → All P ys → All P (xs ++ ys)
  All-append P [] ys all rest = rest
  All-append P (x ∷ xs) ys (p, all) rest = (p, All-append P xs ys all rest)

  pub take-All {κ} : (P : A → Type κ) (n : ℕ) (xs : List A) → All P xs → All P (take n xs)
  take-All P zero xs all = tt
  take-All P (suc n) [] all = tt
  take-All P (suc n) (x ∷ xs) (p, all) = (p, take-All P n xs all)

  pub length-take-le : (n : ℕ) (xs : List A) → length (take n xs) ≤ n
  length-take-le zero xs = omega arith
  length-take-le (suc n) [] = omega arith
  length-take-le (suc n) (x ∷ xs) = omega (arith, length-take-le n xs)

  -- All elements have a property that follows from another one.
  pub All-map {κ μ} :
      (P : A → Type κ) (Q : A → Type μ) (xs : List A) → ((x : A) → P x → Q x) → All P xs → All Q xs
  All-map P Q [] f all = tt
  All-map P Q (x ∷ xs) f (p, all) = (f x p, All-map P Q xs f all)

  pub AllPairs-snoc {κ} :
      (R : A → A → Type κ) (xs : List A) (y : A)
      → AllPairs R xs
      → All (λ x. R x y) xs
      → AllPairs R (xs ++ (y ∷ []))
  AllPairs-snoc R [] y pairs all = (tt, tt)
  AllPairs-snoc R (x ∷ xs) y (head, pairs) (r, all) =
      (All-append (R x) xs (y ∷ []) head (r, tt), AllPairs-snoc R xs y pairs all)

module _ {ℓ κ} {A : Type ℓ} (R : A → A → Type κ) where
  pub AllPairs-append :
      (xs ys : List A)
      → AllPairs R xs
      → AllPairs R ys
      → All (λ x. All (R x) ys) xs
      → AllPairs R (xs ++ ys)
  AllPairs-append [] ys left right across = right
  AllPairs-append (x ∷ xs) ys (head, left) right (h, across) =
      (All-append (R x) xs ys head h, AllPairs-append xs ys left right across)

  pub All-swap : (xs ys : List A) → All (λ y. All (λ x. R x y) xs) ys → All (λ x. All (R x) ys) xs
  All-swap [] ys all = tt
  All-swap (x ∷ xs) ys all = (
    All-map (λ y. All (λ z. R z y) (x ∷ xs)) (R x) ys (λ y h. h.0) all,
    All-swap xs ys
        (All-map (λ y. All (λ z. R z y) (x ∷ xs)) (λ y. All (λ z. R z y) xs) ys (λ y h. h.1) all),
  )

  pub take-AllPairs : (n : ℕ) (xs : List A) → AllPairs R xs → AllPairs R (take n xs)
  take-AllPairs zero xs pairs = tt
  take-AllPairs (suc n) [] pairs = tt
  take-AllPairs (suc n) (x ∷ xs) (head, pairs) =
      (take-All (R x) n xs head, take-AllPairs n xs pairs)

-- `In x l` is a place of `l` that holds `x`.
abbrev pub In : {A : Type 0} → A → List A → Type 0
In x [] = ⊥
In x (y ∷ ys) = (x ≡ y) ⊎ In x ys

module _ {ℓ} {A : Type ℓ} ⦃e : Comparable A⦄ where
  abbrev pub contains : List A → A → Bool
  contains [] a = false
  contains (x ∷ xs) a = (x == a) || contains xs a
