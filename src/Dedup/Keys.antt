-- ===== src/Dedup/Keys.antt =====
-- The sets of keys and the lists of reasons of FilterCandidates.
use wordbit_advanced.Prelude.{
  arith, ◌≡◌, refl, ◌∙◌, Bool, true, false, List, [], ◌∷◌, ◌++◌, Text, text_eq, text_beq_iff,
  String, Bool-cases, inl, inr, ◌⊎◌, ◌==◌, contains, if_elim,
}
use wordbit_advanced.Dedup.{reason_if, is_taken, add_unless_empty}

pub append-nil-inv : {A : Type 0} (xs ys : List A) → xs ++ ys ≡ [] → (xs ≡ []) × (ys ≡ [])
append-nil-inv [] ys h = (refl, h)
append-nil-inv (x ∷ xs) ys h = cc

pub reason_if-nil : (b : Bool) (reason : String) → reason_if b reason ≡ [] → b ≡ false
reason_if-nil true reason h = cc
reason_if-nil false reason h = refl

pub contains-cons :
    (k a : Text) (set : List Text) → contains set a ≡ true → contains (k ∷ set) a ≡ true
contains-cons k a set h = ground (arith)

pub contains_self : (a : Text) (set : List Text) → contains (a ∷ set) a ≡ true
contains_self a set = ground (arith, text_beq_iff a a)

pub is_taken-false :
    (set : List Text) (k : Text) → is_taken set k ≡ false → (k ≡ []) ⊎ (contains set k ≡ false)
is_taken-false set k h = elim (Bool-cases (k == [])) [
  | inl empty ↦ inl ((text_beq_iff k []).0 empty)
  | inr full ↦ inr (ground (arith, full))
]

-- A key that a set has is not one that it has not, unless that one is empty.
pub other_or_empty :
    (set : List Text) (a b : Text)
    → (a ≡ []) ⊎ (contains set a ≡ true)
    → is_taken set b ≡ false
    → a ≡ b
    → a ≡ []
other_or_empty set a b (inl empty) free e = empty
other_or_empty set a b (inr there) free e = elim (is_taken-false set b free) [
  | inl empty ↦ e ∙ empty
  | inr absent ↦ cc
]

pub grows :
    (a k : Text) (set : List Text)
    → (a ≡ []) ⊎ (contains set a ≡ true)
    → (a ≡ []) ⊎ (contains (add_unless_empty k k set) a ≡ true)
grows a k set (inl empty) = inl empty
grows a k set (inr there) =
    if_elim (λ s. (a ≡ []) ⊎ (contains s a ≡ true)) (k == []) (λ _. inr there)
      (λ _. inr (contains-cons k a set there))

pub added : (k : Text) (set : List Text) → (k ≡ []) ⊎ (contains (add_unless_empty k k set) k ≡ true)
added k set = elim (Bool-cases (k == [])) [
  | inl empty ↦ inl ((text_beq_iff k []).0 empty)
  | inr full ↦ inr (rw full (contains_self k set))
]
