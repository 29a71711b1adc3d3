-- ===== src/DynamicReview/Prompts/Words.antt =====
-- ensurePrompts: the candidates of a request have the words of their items.
use wordbit_advanced.Prelude.{
  ℕ, zero, suc, ◌≡◌, refl, sym, subst, Bool, ◌&&◌, not, text_eq, Option, none, some, List, [], ◌∷◌,
  ◌==◌, if_elim, Bool-cases, Option-cases, inl, inr, contains, In, All, take-All, drop,
}
use wordbit_advanced.Domain.{Uuid, Word, DailyLearningPoolItem}
use wordbit_advanced.Normalization.{trim_space}
use wordbit_advanced.DynamicReview.{
  DynamicReviewKey, key_eq, DynamicReviewCandidate, candidate_key, candidate_of, with_word,
  collect_candidates, is_reviewed_again, is_dynamic_review_prompt_mode,
}
use wordbit_advanced.DynamicReview.Prompts.{PromptSource, chunks_of, index_of, without_keys, wanted}

pub All-In : {A : Type 0} (P : A → Type 0) (l : List A) (x : A) → All P l → In x l → P x
All-In P [] x all place = absurd place
All-In P (y ∷ ys) x (p, all) (inl e) = subst P (sym e) p
All-In P (y ∷ ys) x (p, all) (inr place) = All-In P ys x all place

drop-All : {A : Type 0} (P : A → Type 0) (n : ℕ) (l : List A) → All P l → All P (drop n l)
drop-All P zero l all = all
drop-All P (suc n) [] all = tt
drop-All P (suc n) (x ∷ xs) (p, all) = drop-All P n xs all

pub chunks_of-All :
    {A : Type 0} (P : A → Type 0) (rounds : ℕ) (l : List A)
    → All P l
    → All (All P) (chunks_of rounds l)
unfolding chunks_of
chunks_of-All P zero l all = tt
chunks_of-All P (suc rounds) [] all = tt
chunks_of-All P (suc rounds) (x ∷ xs) all = (
  take-All P 25 (x ∷ xs) all,
  chunks_of-All P rounds (drop 25 (x ∷ xs)) (drop-All P 25 (x ∷ xs) all),
)

-- The candidate has the word that its identifier stands for.
abbrev pub IsOf : {F : Type 0} → (Uuid → Word F) → DynamicReviewCandidate F → Type 0
IsOf words c = c.word ≡ words c.word_id

module _ {F : Type 0} (source : PromptSource F) (words : Uuid → Word F) where
  with_word-IsOf :
      (item : DailyLearningPoolItem F) (o : Option (Word F)) (c : DynamicReviewCandidate F)
      → ((w : Word F) → o ≡ some w → w ≡ words item.word_id)
      → with_word source.unicode item o ≡ some c
      → IsOf words c
  with_word-IsOf item none c own h = cc
  with_word-IsOf item (some w) c own h =
      let kept =
        is_reviewed_again item.item_type
        && (is_dynamic_review_prompt_mode item.review_mode
            && not (trim_space source.unicode w.word == [])) in
      elim (Bool-cases kept) [
        | inr left ↦ (let k = rw left at h in cc)
        | inl there ↦
            (let e : some (candidate_of item w) ≡ some c = rw there at h in
              let same : candidate_of item w ≡ c = cc in subst (IsOf words) same (own w refl))
      ]

  pub collect-All :
      (seen : List DynamicReviewKey) (items : List (DailyLearningPoolItem F))
      → All (λ item. (w : Word F) → item.word ≡ some w → w ≡ words item.word_id) items
      → All (IsOf words) (collect_candidates source.unicode seen items)
  unfolding collect_candidates
  collect-All seen [] of = tt
  collect-All seen (item ∷ items) (own, of) =
      elim (Option-cases (with_word source.unicode item item.word)) [
        | inl e ↦ rw (e, All) (collect-All seen items of)
        | inr (c, e) ↦ elim (Bool-cases (contains seen (candidate_key c))) [
          | inl again ↦ rw (e, All) (rw (again, All) (collect-All seen items of))
          | inr first ↦
              (let rest = collect-All (candidate_key c ∷ seen) items of in
                rw (e, All) (rw (first, All) (with_word-IsOf item item.word c own e, rest)))
        ]
      ]

  pub without_keys-All :
      (has_prompt : DynamicReviewKey → Bool) (cs : List (DynamicReviewCandidate F))
      → All (IsOf words) cs
      → All (IsOf words) (without_keys has_prompt cs)
  unfolding without_keys
  without_keys-All has_prompt [] all = tt
  without_keys-All has_prompt (c ∷ cs) (p, all) =
      let rest = without_keys-All has_prompt cs all in
      if_elim (All (IsOf words)) (has_prompt (candidate_key c)) (λ _. rest) (λ _. (p, rest))

  pub wanted-All :
      (current : Option DynamicReviewKey) (cs : List (DynamicReviewCandidate F))
      → All (IsOf words) cs
      → All (IsOf words) (wanted current cs)
  wanted-All none cs all = all
  wanted-All (some key) cs all = elim (Option-cases (index_of key cs)) [
    | inl e ↦ rw e tt
    | inr (n, e) ↦ rw e (take-All (IsOf words) 25 _ (drop-All (IsOf words) _ cs all))
  ]
