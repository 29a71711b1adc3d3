-- ===== src/DynamicReview/Validation/Sound.antt =====
-- What holds of prompts that validateDynamicReviewPayload finds nothing wrong with.
use wordbit_advanced.Prelude.{
  ℕ, ◌≤◌, arith, ◌≡◌, ◌≢◌, refl, subst, Bool, true, false, not, ◌&&◌, List, [], ◌∷◌, Text, text_eq,
  text_beq_iff, ◌==◌, Bool-cases, inl, inr, In, All, ltb,
}
use wordbit_advanced.Domain.{ReviewMode, Word}
use wordbit_advanced.Normalization.{Unicode, normalize_word}
use wordbit_advanced.Dedup.Keys.{append-nil-inv}
use wordbit_advanced.DynamicReview.{key_eq}
use wordbit_advanced.DynamicReview.Validation.{
  PromptIssue, has_text, blank_marker, framed, issue_if, leaks_any, spellings, leaks_target,
  count_normalized_words, source_texts, matches_any, mode_issues,
}
use wordbit_advanced.DynamicReview.Validation.Infix.{IsInfix, has_text-IsInfix}

pub issue_if-nil : (b : Bool) (issue : PromptIssue) → issue_if b issue ≡ [] → b ≡ false
issue_if-nil true issue h = cc
issue_if-nil false issue h = refl

not_empty : (s : Text) → s ≢ [] → (s == []) ≡ false
not_empty s full = elim (Bool-cases (s == [])) [
  | inl empty ↦ absurd (full ((text_beq_iff s []).0 empty))
  | inr there ↦ there
]

module _ (u : Unicode) where
  -- One of the texts stands in the prompt as whole words, up to normalization.
  abbrev pub IsNamed : Text → List Text → Type 0
  IsNamed prompt ts =
      (t : Text) × In t ts
      × (normalize_word u t ≢ [])
      × IsInfix (framed (normalize_word u t)) (framed (normalize_word u prompt))

  abbrev leaks : Text → List Text → Bool
  leaks prompt ts = leaks_any u (normalize_word u prompt) ts

  leaks-IsNamed : (prompt : Text) (ts : List Text) → leaks prompt ts ≡ true → IsNamed prompt ts
  leaks-IsNamed prompt [] h = cc
  leaks-IsNamed prompt (t ∷ ts) h =
      let s = normalize_word u t in
      let found = has_text (framed s) (framed (normalize_word u prompt)) in
      elim (Bool-cases (not (s == []) && found)) [
        | inl here ↦ (
          t,
          inl refl,
          λ e. let k = (text_beq_iff s []).1 e in ground (arith, here, k),
          (has_text-IsInfix (framed s) (framed (normalize_word u prompt))).0 (ground (arith, here)),
        )
        | inr later ↦
            (let (r, place, full, stands) = leaks-IsNamed prompt ts (ground (arith, h, later)) in
              (r, inr place, full, stands))
      ]

  IsNamed-leaks : (prompt : Text) (ts : List Text) → IsNamed prompt ts → leaks prompt ts ≡ true
  IsNamed-leaks prompt [] (r, place, full, stands) = absurd place
  IsNamed-leaks prompt (t ∷ ts) (r, inr place, full, stands) =
      ground (arith, IsNamed-leaks prompt ts (r, place, full, stands))
  IsNamed-leaks prompt (t ∷ ts) (r, inl e, full, stands) =
      let p = framed (normalize_word u prompt) in
      let (there, place) =
        subst (λ x. (normalize_word u x ≢ []) × IsInfix (framed (normalize_word u x)) p) e
          (full, stands) in
      let s = normalize_word u t in
      let found = (has_text-IsInfix (framed s) p).1 place in
      ground (arith, not_empty s there, found)

  pub copies-false :
      (prompt : Text) (ts : List Text)
      → matches_any u (normalize_word u prompt) ts ≡ false
      → All (λ t. normalize_word u prompt ≡ normalize_word u t → normalize_word u t ≡ []) ts
  copies-false prompt [] h = tt
  copies-false prompt (t ∷ ts) h =
      let p = normalize_word u prompt in
      let s = normalize_word u t in
      (
        λ e. elim (Bool-cases (s == [])) [
          | inl empty ↦ (text_beq_iff s []).0 empty
          | inr full ↦ (let same = (text_beq_iff p s).1 e in absurd (ground (arith, h, full, same)))
        ],
        copies-false prompt ts (ground (arith, h)),
      )

module _ {F : Type 0} (u : Unicode) (w : Word F) where
  -- What a prompt for the word must be in a mode. A gap takes the word's place, a sentence to listen to has it,
  -- and any other prompt is without it.
  abbrev pub SuitsMode : ReviewMode → Text → Type 0
  SuitsMode ReviewMode.fill_blank text =
      IsInfix blank_marker text × (¬ IsNamed u text (spellings w))
  SuitsMode ReviewMode.listening text =
      (¬ IsInfix blank_marker text)
      × (count_normalized_words u text ≤ 10)
      × IsNamed u text (spellings w)
  SuitsMode _ text = ¬ IsNamed u text (spellings w)

  -- A prompt that suits its mode, and is none of the word's stored texts.
  pub record IsFitPrompt (mode : ReviewMode) (text : Text) : Type 0 where
    pub given : text ≢ []
    pub suits : SuitsMode mode text
    pub own :
        All
          (λ t. normalize_word u text ≡ normalize_word u t → normalize_word u t ≡ [])
          (source_texts w)

  hidden : (text : Text) → leaks_target u text w ≡ false → ¬ IsNamed u text (spellings w)
  unfolding leaks_target
  hidden text h =
      λ named. let k = IsNamed-leaks u text (spellings w) named in absurd (ground (arith, h, k))

  without_marker : (text : Text) → has_text blank_marker text ≡ false → ¬ IsInfix blank_marker text
  without_marker text h =
      λ there. let k = (has_text-IsInfix blank_marker text).1 there in absurd (ground (arith, h, k))

  pub SuitsMode-of_nil :
      (mode : ReviewMode) (id : ℕ) (text : Text)
      → mode_issues u mode id text w ≡ []
      → SuitsMode mode text
  unfolding leaks_target
  SuitsMode-of_nil ReviewMode.fill_blank id text h =
      let (a, b) = append-nil-inv (issue_if _ (PromptIssue.no_marker id)) _ h in
      let there = issue_if-nil (not (has_text blank_marker text)) _ a in
      (
        (has_text-IsInfix blank_marker text).0 (ground (arith, there)),
        hidden text (issue_if-nil _ _ b),
      )
  SuitsMode-of_nil ReviewMode.listening id text h =
      let (a, h') = append-nil-inv (issue_if _ (PromptIssue.marker id)) _ h in
      let (b, c) =
        append-nil-inv (issue_if (ltb 10 (count_normalized_words u text)) (PromptIssue.too_long id))
          _ h' in
      let short = issue_if-nil (ltb 10 (count_normalized_words u text)) _ b in
      let there = issue_if-nil (not (leaks_target u text w)) _ c in
      (
        without_marker text (issue_if-nil _ _ a),
        ground (arith, short),
        leaks-IsNamed u text (spellings w) (ground (arith, there)),
      )
  SuitsMode-of_nil ReviewMode.unset id text h = hidden text (issue_if-nil _ _ h)
  SuitsMode-of_nil ReviewMode.reveal id text h = hidden text (issue_if-nil _ _ h)
  SuitsMode-of_nil ReviewMode.multiple_choice id text h = hidden text (issue_if-nil _ _ h)
  SuitsMode-of_nil ReviewMode.build_word id text h = hidden text (issue_if-nil _ _ h)
  SuitsMode-of_nil ReviewMode.definition_first id text h = hidden text (issue_if-nil _ _ h)
