-- ===== src/Session/View/Complete.antt =====
-- internal/service/pool_service.go, `nextCardFromView`: a session is complete when there is no card.
use wordbit_advanced.Prelude.{
  ℕ, ◌≡◌, ◌⊎◌, ◌↔◌, Bool, true, false, Option, none, some, List, ◌==◌, if◌then◌else◌, String,
  string_eq, ℤ, arith, Bool-cases, inl, inr, refl, if_elim, subst,
}
use wordbit_advanced.Domain.{Time, DailyLearningPool, DailyLearningPoolItem}
use wordbit_advanced.Session.Progress.{
  CompleteReason, CompletedCardKind, SessionProgress, DayEvents, build_session_progress,
  new_session_progress, next_session_kind, completed_kinds_for_events, build_pool_item_kind_map,
  collect_undone_client_event_ids,
}
use wordbit_advanced.Session.Progress.Blocks.{next_session_kind-blocks}
use wordbit_advanced.Session.Cards.{
  NextCard, is_comeback_pool, actionable_items_remaining, practice_items_remaining,
  SelectableSessionCandidates, prefers_new, collect_selectable_session_candidates, first_of,
  find_next_card_for_session, find_next_practice_card_for_session, best_actionable_item,
}
use wordbit_advanced.Session.View.{
  CardResponse, is_unfinished, build_card_response, with_practice, final_reason, view_response,
  next_card_from_view, map_progress, or_due,
}

-- A progress that is complete says why.
abbrev IsExplained : SessionProgress → Type 0
IsExplained p = (p.session_complete ≡ false) ⊎ (is_unfinished p.session_complete_reason ≡ false)

abbrev IfSome : {A : Type 0} → (A → Type 0) → Option A → Type 0
IfSome P none = Unit
IfSome P (some a) = P a

kind_explained :
    (kinds : List CompletedCardKind)
    → let (kind, complete, reason) = next_session_kind kinds in
      (complete ≡ false) ⊎ (is_unfinished reason ≡ false)
kind_explained kinds = rw (next_session_kind-blocks kinds) (ground arith)

module _ {F : Type 0} where
  -- Either the session is complete, without a card and for its own reason, or it is not, without one.
  abbrev IsSettled : SessionProgress → NextCard F → Type 0
  IsSettled p card =
      ((p.session_complete ≡ true) × (card.item ≡ none) × (card.reason ≡ p.session_complete_reason))
      ⊎ ((p.session_complete ≡ false) × (card.reason ≡ CompleteReason.unfinished))

  first_of-reason :
      (a b : Option (DailyLearningPoolItem F)) (due : Option Time)
      → (first_of a b due).reason ≡ CompleteReason.unfinished
  first_of-reason none none due = refl
  first_of-reason none (some b) due = refl
  first_of-reason (some a) b due = refl

  first-IsSettled :
      (items : List (DailyLearningPoolItem F)) (now : Time) (p : SessionProgress) (limit : ℤ)
      → IsSettled p (find_next_card_for_session items now p limit)
  unfolding find_next_card_for_session
  first-IsSettled items now p limit = elim (Bool-cases p.session_complete) [
    | inl complete ↦ rw complete (inl (refl, refl, refl))
    | inr open_session ↦ rw open_session (inr (refl, chosen))
  ]
    where
      c : SelectableSessionCandidates F
      c = collect_selectable_session_candidates items now p.daily_new_completed limit

      r : Option (DailyLearningPoolItem F)
      r = best_actionable_item c.review

      n : Option (DailyLearningPoolItem F)
      n = best_actionable_item c.new

      chosen :
          (if p.session_id == ""
            then first_of r n c.next_due
            else (if prefers_new p.preferred_kind
                then first_of n r c.next_due
                else first_of r n c.next_due)).reason
          ≡ CompleteReason.unfinished
      chosen =
          if_elim (λ (card : NextCard F). card.reason ≡ CompleteReason.unfinished)
            (p.session_id == "") (λ anonymous. first_of-reason r n c.next_due)
            (λ named.
              if_elim (λ (card : NextCard F). card.reason ≡ CompleteReason.unfinished)
                (prefers_new p.preferred_kind) (λ new. first_of-reason n r c.next_due)
                (λ old. first_of-reason r n c.next_due))

  practice-IsSettled :
      (items : List (DailyLearningPoolItem F)) (now : Time) (p : SessionProgress) (requested : Bool)
      (card : NextCard F)
      → IsSettled p card
      → IsSettled p (with_practice items now p requested card)
  unfolding with_practice find_next_practice_card_for_session
  practice-IsSettled items now p requested card settled = ground (arith, settled)

  waiting-IsSettled :
      (p : SessionProgress) (card : NextCard F) (due : Option Time)
      → IsSettled p card
      → IsSettled p (record card { next_due = due })
  waiting-IsSettled p card due settled = settled

  -- Complete exactly without a card
  abbrev pub IsCompleteWithoutCard : CardResponse F → Type 0
  IsCompleteWithoutCard r = (r.session_complete ≡ true) ↔ (r.pool_item ≡ none)

  response-IsCompleteWithoutCard :
      (p : SessionProgress) (session_id : String) (card : NextCard F) (local_date : String)
      (comeback : Bool) (due practice : ℕ)
      → session_id == "" ≡ false
      → IsExplained p
      → IsSettled p card
      → IsCompleteWithoutCard (
          build_card_response local_date p comeback due practice card.item card.next_due
            (final_reason session_id card))
  unfolding build_card_response
  response-IsCompleteWithoutCard p session_id card local_date comeback due practice named explained
        settled =
      rw named (ground (arith, explained, settled))

  progress-IsExplained :
      (session_id : String) (items : List (DailyLearningPoolItem F)) (events : DayEvents F)
      → IfSome IsExplained (build_session_progress session_id items events)
  unfolding build_session_progress new_session_progress
  progress-IsExplained session_id items DayEvents.unsupported = inl refl
  progress-IsExplained session_id items DayEvents.failed = tt
  progress-IsExplained session_id items (DayEvents.listed events) =
      if_elim IsExplained (session_id == "") (λ anonymous. inl refl)
        (λ named. kind_explained (
          completed_kinds_for_events events (build_pool_item_kind_map items)
            (collect_undone_client_event_ids events) session_id))

  view-IsCompleteWithoutCard :
      (pool : DailyLearningPool) (items : List (DailyLearningPoolItem F)) (now : Time)
      (session_id : String) (limit : ℤ) (practice_requested : Bool) (p : SessionProgress)
      → session_id == "" ≡ false
      → IsExplained p
      → IsCompleteWithoutCard (view_response pool items now session_id limit practice_requested p)
  unfolding view_response
  view-IsCompleteWithoutCard pool items now session_id limit practice_requested p named explained =
      let first = find_next_card_for_session items now p limit in
      let candidates =
        collect_selectable_session_candidates items now p.daily_new_completed limit in
      let waiting : NextCard F = record first {
        next_due = or_due first.next_due candidates.next_due;
      } in
      response-IsCompleteWithoutCard p session_id
        (with_practice items now p practice_requested waiting) pool.local_date
        (is_comeback_pool pool items)
        (actionable_items_remaining items now p.daily_new_completed limit)
        (practice_items_remaining items now) named explained
        (practice-IsSettled items now p practice_requested waiting
          (first-IsSettled items now p limit))

  mapped-IfSome :
      (P : CardResponse F → Type 0) (f : SessionProgress → CardResponse F)
      (o : Option SessionProgress)
      → ((p : SessionProgress) → IsExplained p → P (f p))
      → IfSome IsExplained o
      → IfSome P (map_progress f o)
  mapped-IfSome P f none g h = tt
  mapped-IfSome P f (some p) g h = g p h

  -- In a named session, an answer says that the session is complete exactly when it has no card, whether
  -- practice was asked for or not.
  pub next_card_from_view-IsCompleteWithoutCard :
      (pool : DailyLearningPool) (items : List (DailyLearningPoolItem F)) (events : DayEvents F)
      (now : Time) (session_id : String) (limit : ℤ) (practice_requested : Bool)
      (r : CardResponse F)
      → session_id == "" ≡ false
      → next_card_from_view pool items events now session_id limit practice_requested ≡ some r
      → IsCompleteWithoutCard r
  unfolding next_card_from_view
  next_card_from_view-IsCompleteWithoutCard pool items events now session_id limit
        practice_requested r named h =
      subst (IfSome IsCompleteWithoutCard) h (
        mapped-IfSome IsCompleteWithoutCard
          (view_response pool items now session_id limit practice_requested)
          (build_session_progress session_id items events)
          (λ p explained.
            view-IsCompleteWithoutCard pool items now session_id limit practice_requested p named
              explained)
          (progress-IsExplained session_id items events))
