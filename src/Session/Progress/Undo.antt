-- ===== src/Session/Progress/Undo.antt =====
-- internal/service/session_progress.go: an undo event takes one answer out of the progress.
use wordbit_advanced.Prelude.{
  ◌≡◌, ◌≢◌, Bool, false, not, ◌||◌, some, List, [], ◌∷◌, ◌++◌, arith, ◌==◌, string_eq, contains,
  subst, Bool-cases, inl, inr, keep_if, String, refl, ◌∙◌,
}
use wordbit_advanced.Domain.{EventType, LearningEvent, Json}
use wordbit_advanced.Session.Progress.{
  CompletedCardKind, KindMap, collect_undone_client_event_ids, completed_kinds_for_events,
  completed_kind_for_event, json_field, is_skipped,
}

contains-last :
    (xs : List String) (id x : String) → contains (xs ++ (id ∷ [])) x ≡ contains xs x || (id == x)
contains-last [] id x = ground arith
contains-last (y ∷ xs) id x = ground (arith, contains-last xs id x)

module _ {F : Type 0} where
  -- The event that `UndoLastAnswer` stores for the answer with this identifier.
  abbrev pub IsUndoOf : String → LearningEvent F → Type 0
  IsUndoOf id event =
      (event.event_type ≡ EventType.answer_undo)
      × (json_field event.payload "undone_client_event_id" ≡ some (Json.text id))

  abbrev pub is_other : String → LearningEvent F → Bool
  is_other id event = not (id == event.client_event_id)

  -- The kinds that the session counts, with the undone identifiers taken from the same events.
  abbrev pub kinds_of : List (LearningEvent F) → KindMap → String → List CompletedCardKind
  kinds_of events m session_id =
      completed_kinds_for_events events m (collect_undone_client_event_ids events) session_id

  collect-undo :
      (events : List (LearningEvent F)) (undo : LearningEvent F) (id : String)
      → IsUndoOf id undo
      → id == "" ≡ false
      → collect_undone_client_event_ids (events ++ (undo ∷ []))
        ≡ collect_undone_client_event_ids events ++ (id ∷ [])
  collect-undo [] undo id (type, payload) h = rw type rw payload rw h refl
  collect-undo (event ∷ events) undo id u h = ground (arith, collect-undo events undo id u h)

  undo-counts_not :
      (events : List (LearningEvent F)) (undo : LearningEvent F) (id : String) (m : KindMap)
      (undone : List String) (session_id : String)
      → IsUndoOf id undo
      → completed_kinds_for_events (events ++ (undo ∷ [])) m undone session_id
        ≡ completed_kinds_for_events events m undone session_id
  unfolding completed_kinds_for_events completed_kind_for_event
  undo-counts_not [] undo id m undone session_id (type, payload) = rw type ground arith
  undo-counts_not (event ∷ events) undo id m undone session_id u =
      rw (undo-counts_not events undo id m undone session_id u) refl

  skipped_also :
      (event : LearningEvent F) (id : String) (undone : List String) (session_id : String)
      → id == "" ≡ false
      → is_skipped (undone ++ (id ∷ [])) session_id event
        ≡ is_skipped undone session_id event || not (is_other id event)
  skipped_also event id undone session_id h = elim (Bool-cases (id == event.client_event_id)) [
    | inl same ↦
        let (sound, complete) = string_eq.equals_iff id event.client_event_id in
        let named = subst (λ x. x == "" ≡ false) (sound same) h in
        rw (contains-last undone id event.client_event_id) rw same rw named (ground arith)
    | inr other ↦ rw (contains-last undone id event.client_event_id) rw other (ground arith)
  ]

  forget :
      (events : List (LearningEvent F)) (id : String) (m : KindMap) (undone : List String)
      (session_id : String)
      → id == "" ≡ false
      → completed_kinds_for_events events m (undone ++ (id ∷ [])) session_id
        ≡ completed_kinds_for_events (keep_if (is_other id) events) m undone session_id
  unfolding completed_kinds_for_events
  forget [] id m undone session_id h = refl
  forget (event ∷ events) id m undone session_id h =
      elim (Bool-cases (id == event.client_event_id)) [
        | inl same ↦
            rw (skipped_also event id undone session_id h) rw same ground
              (arith, forget events id m undone session_id h)
        | inr other ↦
            rw (skipped_also event id undone session_id h) rw other ground
              (arith, forget events id m undone session_id h)
      ]

  -- An undo event that follows the day's events, for an answer that has an identifier, leaves the kinds
  -- that the other events of the day have, under the same undone answers as before.
  pub undo_event_takes_back :
      (events : List (LearningEvent F)) (undo : LearningEvent F) (id : String) (m : KindMap)
      (session_id : String)
      → IsUndoOf id undo
      → id ≢ ""
      → kinds_of (events ++ (undo ∷ [])) m session_id
        ≡ completed_kinds_for_events
            (keep_if (is_other id) events)
            m
            (collect_undone_client_event_ids events)
            session_id
  undo_event_takes_back events undo id m session_id u h =
      let e : id == "" ≡ false = ground (arith, string_eq.equals_iff id "") in
      rw (collect-undo events undo id u e) (
        undo-counts_not events undo id m (collect_undone_client_event_ids events ++ (id ∷ []))
          session_id u
        ∙ forget events id m (collect_undone_client_event_ids events) session_id e)
