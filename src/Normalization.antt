-- ===== src/Normalization.antt =====
-- internal/service/normalization.go: the spelling under which words are compared. Texts are lists of
-- runes. The Unicode tables of Go and the decomposition of golang.org/x/text are a parameter.
use wordbit_advanced.Prelude.{
  ℕ, Bool, true, false, ◌||◌, Option, none, some, List, [], ◌∷◌, Text, text_eq, codes, ◌==◌, nat_eq,
  nat_beq, if◌then◌else◌,
}
use mathlib.Core.List.{reverse}

pub record Unicode : Type 0 where
  -- `strings.ToLower` and `norm.NFKD.String`
  pub to_lower : Text → Text
  pub nfkd : Text → Text
  -- `unicode.Is(unicode.Mn, r)`, `unicode.IsLetter`, `unicode.IsDigit` and `unicode.IsSpace`
  pub is_mark : ℕ → Bool
  pub is_letter : ℕ → Bool
  pub is_digit : ℕ → Bool
  pub is_space : ℕ → Bool

abbrev pub blank : ℕ
blank = 32

-- `\s` of the package regexp: tab, line feed, form feed, carriage return and blank.
abbrev pub is_regexp_space : ℕ → Bool
is_regexp_space r = nat_beq r 9 || nat_beq r 10 || nat_beq r 12 || nat_beq r 13 || nat_beq r 32

-- `whitespacePattern.ReplaceAllString(s, " ")`; the flag says that a run of space is being read.
unfoldable pub collapse_from : Bool → Text → Text
collapse_from in_run [] = []
collapse_from in_run (r ∷ rs) = elim (is_regexp_space r) [
  | true ↦ (if in_run then collapse_from true rs else blank ∷ collapse_from true rs)
  | false ↦ r ∷ collapse_from false rs
]

module _ (u : Unicode) where
  unfoldable pub trim_left : Text → Text
  trim_left [] = []
  trim_left (r ∷ rs) = let rest = trim_left rs in if u.is_space r then rest else r ∷ rs

  -- `strings.TrimSpace`
  unfoldable pub trim_space : Text → Text
  unfolding trim_left
  trim_space s = reverse (trim_left (reverse (trim_left s)))

  -- The loop over the decomposed runes.
  unfoldable pub keep_runes : Text → Text
  keep_runes [] = []
  keep_runes (r ∷ rs) =
      let rest = keep_runes rs in
      if u.is_mark r
      then rest
      else (if u.is_letter r || u.is_digit r
          then r ∷ rest
          else if u.is_space r
          then blank ∷ rest
          else rest)

  unfoldable pub normalize_word : Text → Text
  unfolding trim_space keep_runes collapse_from
  normalize_word value =
      let v = trim_space (u.to_lower value) in
      if v == [] then [] else trim_space (collapse_from false (keep_runes (u.nfkd v)))

-- `defaultConfusableClusters`
abbrev confusable_clusters : List (Text × Text)
confusable_clusters =
    (codes "affect", codes "affect_effect")
    ∷ (codes "effect", codes "affect_effect")
    ∷ (codes "economic", codes "economy_family")
    ∷ (codes "economical", codes "economy_family")
    ∷ (codes "economy", codes "economy_family")
    ∷ (codes "adapt", codes "adapt_adopt")
    ∷ (codes "adopt", codes "adapt_adopt")
    ∷ []

abbrev pub find_text : Text → List (Text × Text) → Option Text
find_text k [] = none
find_text k ((j, v) ∷ m) = if j == k then some v else find_text k m

abbrev pub first_some : List (Option Text) → Text
first_some [] = []
first_some (none ∷ rest) = first_some rest
first_some (some t ∷ rest) = t

unfoldable pub confusable_group_for : Unicode → Text → Text → Text → Text
unfolding normalize_word
confusable_group_for u word canonical lemma = first_some (
    find_text (normalize_word u word) confusable_clusters
    ∷ find_text (normalize_word u canonical) confusable_clusters
    ∷ find_text (normalize_word u lemma) confusable_clusters
    ∷ [])
