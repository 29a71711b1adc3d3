-- ===== src/DynamicReview/Validation/Infix.antt =====
-- strings.Contains as the code uses it: a text is found exactly where it stands.
use wordbit_advanced.Prelude.{
  arith, ◌≡◌, ◌↔◌, refl, ap, true, [], ◌∷◌, ◌++◌, Text, nat_beq_iff, Bool-cases, inl, inr,
}
use wordbit_advanced.DynamicReview.Validation.{starts_with, has_text}

-- `s` stands in `t`.
abbrev pub IsInfix : Text → Text → Type 0
IsInfix s t = (before : Text) × (after : Text) × (t ≡ before ++ (s ++ after))

starts_with-split : (s t : Text) → starts_with s t ≡ true → (after : Text) × (t ≡ s ++ after)
starts_with-split [] t h = (t, refl)
starts_with-split (a ∷ s) [] h = cc
starts_with-split (a ∷ s) (b ∷ t) h =
    let (after, e) = starts_with-split s t (ground (arith, h)) in
    let same : a ≡ b = ground (arith, h, nat_beq_iff a b) in (after, cc)

starts_with-append : (s after : Text) → starts_with s (s ++ after) ≡ true
starts_with-append [] after = refl
starts_with-append (a ∷ s) after = ground (arith, starts_with-append s after, nat_beq_iff a a)

has_text-starts : (s t : Text) → starts_with s t ≡ true → has_text s t ≡ true
has_text-starts s [] h = h
has_text-starts s (b ∷ t) h = ground (arith, h)

has_text-append : (before s after : Text) → has_text s (before ++ (s ++ after)) ≡ true
has_text-append [] s after = has_text-starts s (s ++ after) (starts_with-append s after)
has_text-append (b ∷ before) s after = ground (arith, has_text-append before s after)

has_text-split : (s t : Text) → has_text s t ≡ true → IsInfix s t
has_text-split s [] h = let (after, e) = starts_with-split s [] h in ([], after, e)
has_text-split s (b ∷ t) h = elim (Bool-cases (starts_with s (b ∷ t))) [
  | inl here ↦ (let (after, e) = starts_with-split s (b ∷ t) here in ([], after, e))
  | inr later ↦
      (let (before, after, e) = has_text-split s t (ground (arith, h, later)) in
        (b ∷ before, after, ap (λ l. b ∷ l) e))
]

pub has_text-IsInfix : (s t : Text) → (has_text s t ≡ true) ↔ IsInfix s t
has_text-IsInfix s t =
    (has_text-split s t, λ (before, after, e). rw e (has_text-append before s after))
