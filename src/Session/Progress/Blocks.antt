-- ===== src/Session/Progress/Blocks.antt =====
-- internal/service/session_progress.go, `nextSessionKind`: a session is five reviews, then five new words.
use wordbit_advanced.Prelude.{
  ◌+◌, ◌≤◌, ◌≡◌, ◌⊎◌, true, false, none, some, List, [], ◌∷◌, ◌++◌, ltb, leb, if◌then◌else◌, length,
  arith, length-append, count_if-append,
}
use wordbit_advanced.Session.Progress.{
  CompletedCardKind, CompleteReason, is_review_kind, is_new_kind, count_reviews, count_news,
  next_session_kind,
}

kinds_add_up :
    (kinds : List CompletedCardKind) → count_reviews kinds + count_news kinds ≡ length kinds
kinds_add_up [] = ground arith
kinds_add_up (CompletedCardKind.review_card ∷ kinds) = omega (arith, kinds_add_up kinds)
kinds_add_up (CompletedCardKind.new_card ∷ kinds) = omega (arith, kinds_add_up kinds)

-- A session is complete, for the total cap, exactly from ten cards on; before that it asks for a review
-- while there are fewer than five reviews, and for a new word otherwise.
pub next_session_kind-blocks :
    (kinds : List CompletedCardKind)
    → next_session_kind kinds ≡ (
        if leb 10 (length kinds)
        then (none, true, CompleteReason.total_cap)
        else (if ltb (count_reviews kinds) 5
            then (some CompletedCardKind.review_card, false, CompleteReason.unfinished)
            else (some CompletedCardKind.new_card, false, CompleteReason.unfinished)))
unfolding next_session_kind
next_session_kind-blocks kinds = ground (arith, kinds_add_up kinds)

-- The cards of a session in which the learner always gets the preferred kind.
pub data Obeyed : List CompletedCardKind → Type 0 where
  start : Obeyed []
  next :
      (kinds : List CompletedCardKind) (kind : CompletedCardKind) (reason : CompleteReason)
      → Obeyed kinds
      → next_session_kind kinds ≡ (some kind, false, reason)
      → Obeyed (kinds ++ (kind ∷ []))

-- A session in which the learner always gets the preferred kind never passes ten cards, five reviews
-- or five new words, and it has no new word before its fifth review.
Obeyed-counts :
    (kinds : List CompletedCardKind)
    → Obeyed kinds
    → (length kinds ≤ 10)
      × (count_reviews kinds ≤ 5)
      × ((count_reviews kinds ≡ 5) ⊎ (count_news kinds ≡ 0))
      × (count_news kinds ≤ 5)
Obeyed-counts _ Obeyed.start = ground arith
Obeyed-counts _ (Obeyed.next kinds kind reason o e) = ground (
  arith,
  Obeyed-counts kinds o,
  next_session_kind-blocks kinds,
  kinds_add_up kinds,
  length-append kinds (kind ∷ []),
  count_if-append is_review_kind kinds (kind ∷ []),
  count_if-append is_new_kind kinds (kind ∷ []),
)
