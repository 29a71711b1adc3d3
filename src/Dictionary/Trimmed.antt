-- ===== src/Dictionary/Trimmed.antt =====
-- strings.TrimSpace: what is left is not trimmed away again.
use wordbit_advanced.Prelude.{
  arith, ◌≡◌, refl, sym, ap, subst, ◌∙◌, true, [], ◌∷◌, Text, Bool-cases, inl, inr, All, All-append,
}
use mathlib.Core.List.{reverse, reverse-cons, reverse-reverse}
use wordbit_advanced.Normalization.{Unicode, trim_left, trim_space}

module _ (u : Unicode) where
  abbrev AllSpace : Text → Type 0
  AllSpace s = All (λ r. u.is_space r ≡ true) s

  trim_left-AllSpace : (s : Text) → trim_left u s ≡ [] → AllSpace s
  unfolding trim_left
  trim_left-AllSpace [] h = tt
  trim_left-AllSpace (r ∷ rs) h = elim (Bool-cases (u.is_space r)) [
    | inl space ↦ (space, trim_left-AllSpace rs (rw (space, trim_left) at h))
    | inr other ↦ (let k = rw (other, trim_left) at h in cc)
  ]

  trim_left-first : (s : Text) → AllSpace (trim_left u s) → trim_left u s ≡ []
  unfolding trim_left
  trim_left-first [] h = refl
  trim_left-first (r ∷ rs) h = elim (Bool-cases (u.is_space r)) [
    | inl space ↦ rw (space, trim_left) (trim_left-first rs (rw (space, trim_left) at h))
    | inr other ↦ (let k = rw (other, trim_left) at h in absurd (ground (arith, k, other)))
  ]

  reverse-AllSpace : (s : Text) → AllSpace s → AllSpace (reverse s)
  reverse-AllSpace [] all = tt
  reverse-AllSpace (r ∷ rs) (space, all) = rw reverse-cons (
      All-append (λ x. u.is_space x ≡ true) (reverse rs) (r ∷ []) (reverse-AllSpace rs all)
        (space, tt))

  unreverse-AllSpace : (s : Text) → AllSpace (reverse s) → AllSpace s
  unreverse-AllSpace s all = subst AllSpace (reverse-reverse s) (reverse-AllSpace (reverse s) all)

  reverse-nil-inv : (s : Text) → reverse s ≡ [] → s ≡ []
  reverse-nil-inv s h = sym (reverse-reverse s) ∙ ap reverse h

  trim_left-nil : (s : Text) → AllSpace (trim_left u s) → AllSpace s
  trim_left-nil s all = trim_left-AllSpace s (trim_left-first s all)

  trim_space-AllSpace : (s : Text) → trim_space u s ≡ [] → AllSpace s
  unfolding trim_space
  trim_space-AllSpace s h =
      let inner = reverse (trim_left u s) in
      let none_left = reverse-nil-inv (trim_left u inner) h in
      trim_left-nil s (unreverse-AllSpace (trim_left u s) (trim_left-AllSpace inner none_left))

  trim_space-full : (s : Text) → AllSpace (trim_space u s) → trim_space u s ≡ []
  unfolding trim_space
  trim_space-full s all =
      let kept = trim_left u (reverse (trim_left u s)) in
      ap reverse (trim_left-first (reverse (trim_left u s)) (unreverse-AllSpace kept all))

  -- A text that is not blank is not blank after it was trimmed.
  pub trim_space-again : (s : Text) → trim_space u (trim_space u s) ≡ [] → trim_space u s ≡ []
  trim_space-again s h = trim_space-full s (trim_space-AllSpace (trim_space u s) h)
