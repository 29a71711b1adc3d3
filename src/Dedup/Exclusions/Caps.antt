-- ===== src/Dedup/Exclusions/Caps.antt =====
-- One value of BuildGenerationPromptExclusions: the list keeps its cap and repeats nothing, and the
-- value is in it unless it has no room.
use wordbit_advanced.Prelude.{
  ℕ, arith, ◌≤◌, ◌≡◌, ◌≢◌, true, false, List, [], ◌∷◌, ◌++◌, Text, text_eq, text_beq_iff, All,
  AllPairs, All-append, AllPairs-snoc, ◌==◌, if_elim, contains, length, length-append, leb, leb→le,
  inl, inr, ◌⊎◌,
}
use wordbit_advanced.Normalization.{Unicode, normalize_word}
use wordbit_advanced.Dedup.Exclusions.{add_value}

-- Different texts, none of them empty, and no more than the cap.
pub record IsExclusionList (cap : ℕ) (out : List Text) : Type 0 where
  pub fits : length out ≤ cap
  pub distinct : AllPairs (λ a b. a ≢ b) out
  pub given : All (λ a. a ≢ []) out

contains-append :
    (xs ys : List Text) (a : Text) → contains xs a ≡ true → contains (xs ++ ys) a ≡ true
contains-append [] ys a h = cc
contains-append (x ∷ xs) ys a h = ground (arith, contains-append xs ys a)

contains-last : (xs : List Text) (a : Text) → contains (xs ++ (a ∷ [])) a ≡ true
contains-last [] a = ground (arith, text_beq_iff a a)
contains-last (x ∷ xs) a = ground (arith, contains-last xs a)

absent-All : (xs : List Text) (a : Text) → contains xs a ≡ false → All (λ x. x ≢ a) xs
absent-All [] a h = tt
absent-All (x ∷ xs) a h = (λ e. ground (arith, text_beq_iff x a), absent-All xs a (ground arith))

module _ (u : Unicode) (cap : ℕ) where
  -- The value's spelling is empty or in the list, or the list has no room.
  abbrev pub IsCovered : Text → List Text → Type 0
  IsCovered value out =
      (normalize_word u value ≡ [])
      ⊎ (contains out (normalize_word u value) ≡ true)
      ⊎ (cap ≤ length out)

  appended-IsExclusionList :
      (n : Text) (out : List Text)
      → leb cap (length out) ≡ false
      → (n == []) ≡ false
      → contains out n ≡ false
      → IsExclusionList cap out
      → IsExclusionList cap (out ++ (n ∷ []))
  appended-IsExclusionList n out room full absent l = record {
    fits = ground (arith, length-append out (n ∷ []), l.fits);
    distinct = AllPairs-snoc (λ a b. a ≢ b) out n l.distinct (absent-All out n absent);
    given =
        All-append (λ a. a ≢ []) out (n ∷ []) l.given (λ e. ground (arith, text_beq_iff n []), tt);
  }

  pub add_value-IsExclusionList :
      (value : Text) (out : List Text)
      → IsExclusionList cap out
      → IsExclusionList cap (add_value u cap value out)
  unfolding add_value
  add_value-IsExclusionList value out l =
      let n = normalize_word u value in
      if_elim (IsExclusionList cap) (leb cap (length out)) (λ _. l)
        (λ room.
          if_elim (IsExclusionList cap) (n == []) (λ _. l)
            (λ full.
              if_elim (IsExclusionList cap) (contains out n) (λ _. l)
                (λ absent. appended-IsExclusionList n out room full absent l)))

  pub add_value-IsCovered :
      (value : Text) (out : List Text) → IsCovered value (add_value u cap value out)
  unfolding add_value
  add_value-IsCovered value out =
      let n = normalize_word u value in
      if_elim (IsCovered value) (leb cap (length out)) (λ full. inr (inr (leb→le _ _ full)))
        (λ room.
          if_elim (IsCovered value) (n == []) (λ e. inl ((text_beq_iff n []).0 e))
            (λ full.
              if_elim (IsCovered value) (contains out n) (λ there. inr (inl there))
                (λ absent. inr (inl (contains-last out n)))))

  append-IsCovered :
      (other n : Text) (out : List Text) → IsCovered other out → IsCovered other (out ++ (n ∷ []))
  append-IsCovered other n out (inl empty) = inl empty
  append-IsCovered other n out (inr (inl there)) =
      inr (inl (contains-append out (n ∷ []) (normalize_word u other) there))
  append-IsCovered other n out (inr (inr full)) =
      inr (inr (omega (arith, length-append out (n ∷ []))))

  pub add_value-keeps :
      (other value : Text) (out : List Text)
      → IsCovered other out
      → IsCovered other (add_value u cap value out)
  unfolding add_value
  add_value-keeps other value out c =
      let n = normalize_word u value in
      if_elim (IsCovered other) (leb cap (length out)) (λ _. c)
        (λ room.
          if_elim (IsCovered other) (n == []) (λ _. c)
            (λ full.
              if_elim (IsCovered other) (contains out n) (λ _. c)
                (λ absent. append-IsCovered other n out c)))
