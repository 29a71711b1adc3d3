-- ===== src/Executor/Settled.antt =====
-- executeJSON: the parsed answer of a model, or an error.
use wordbit_advanced.Prelude.{
  sym, subst, ◌+◌, ◌≡◌, ◌∙◌, refl, Option, none, some, List, [], ◌∷◌, ◌++◌, map, String, In, inl,
  inr,
}
use mathlib.Core.List.{map-append, append_assoc, append-nil}
use wordbit_advanced.Quota.{ModelAvailability, reserve}
use wordbit_advanced.Executor.{
  Service, ExecutionResult, Calls, RequestError, execute_on_model, after_model, after_reservation,
  execute_from, execute_json, Outcome, empty_result,
}
use wordbit_advanced.Executor.Answers.{IsOther, IsOf, reserve-IsOf, IsAnswer, Fits, on_model-Fits}

module _ {T : Type 0} (s : Service T) where
  -- Without an error the result is an answer of a model of the service. An error for models that are not
  -- available names each model of the service, in their order.
  abbrev pub IsSettled : ExecutionResult T → Option RequestError → Type 0
  IsSettled result none = IsAnswer s result × In result.model s.models
  IsSettled result (some e) =
      (l : List ModelAvailability)
      → e ≡ RequestError.rate_limited l
      → map (λ a. a.model) l ≡ s.models

  abbrev OutcomeSettled : Outcome s × Calls → Type 0
  OutcomeSettled x = IsSettled x.0.0 x.0.1

  other-IsSettled :
      (result : ExecutionResult T) (e : RequestError) → IsOther e → IsSettled result (some e)
  other-IsSettled result e other l same = absurd (subst IsOther same other)

  after_model-IsSettled :
      (model : String) (result model_result : ExecutionResult T) (e : Option RequestError)
      (rotated : Option ModelAvailability) (st : Calls)
      (next : ExecutionResult T → ModelAvailability → Calls → Outcome s × Calls)
      → In model s.models
      → Fits s model model_result e rotated
      → ((r : ExecutionResult T) (a : ModelAvailability) (st' : Calls)
          → a.model ≡ model
          → OutcomeSettled (next r a st'))
      → OutcomeSettled (after_model s result model_result e rotated st next)
  after_model-IsSettled model result mr none rotated st next place (answer, of) h =
      (answer, subst (λ m. In m s.models) (sym of) place)
  after_model-IsSettled model result mr (some e) none st next place other h =
      other-IsSettled (record result { raw = mr.raw }) e other
  after_model-IsSettled model result mr (some e) (some a) st next place of h =
      h (record result { raw = mr.raw }) a st of

  after_reservation-IsSettled :
      (model : String) (result : ExecutionResult T) (refused : Option ModelAvailability)
      (st : Calls) (next : ExecutionResult T → ModelAvailability → Calls → Outcome s × Calls)
      → In model s.models
      → IsOf model refused
      → ((r : ExecutionResult T) (a : ModelAvailability) (st' : Calls)
          → a.model ≡ model
          → OutcomeSettled (next r a st'))
      → OutcomeSettled (after_reservation s model result refused st next)
  after_reservation-IsSettled model result (some a) st next place of h = h result a st of
  after_reservation-IsSettled model result none st next place of h =
      let (a, st') = execute_on_model s model st in
      after_model-IsSettled model result a.result a.error a.rotate st' next place
        (on_model-Fits s model st) h

  In-last : (m : String) (xs ys : List String) → In m (xs ++ (m ∷ ys))
  In-last m [] ys = inl refl
  In-last m (x ∷ xs) ys = inr (In-last m xs ys)

  named : List ModelAvailability → List String
  named l = map (λ (a : ModelAvailability). a.model) l

  named-snoc :
      (l : List ModelAvailability) (a : ModelAvailability) (model : String) (models : List String)
      → a.model ≡ model
      → named l ++ (model ∷ models) ≡ s.models
      → named (l ++ (a ∷ [])) ++ models ≡ s.models
  unfolding named
  named-snoc l a model models of split = simp (map-append, append_assoc) (rw of split)

  execute_from-IsSettled :
      (models : List String) (result : ExecutionResult T) (unavailable : List ModelAvailability)
      (st : Calls)
      → named unavailable ++ models ≡ s.models
      → OutcomeSettled (execute_from s models result unavailable st)
  unfolding execute_from named
  execute_from-IsSettled [] result unavailable st split =
      λ l same. let all = sym (append-nil (named unavailable)) ∙ split in cc
  execute_from-IsSettled (model ∷ models) result unavailable st split =
      let refusal = reserve st.quota model (s.clock st.readings) in
      let st' : Calls = record st { quota = refusal.1; readings = st.readings + 1 } in
      let next : ExecutionResult T → ModelAvailability → Calls → Outcome s × Calls =
        λ result' a st''. execute_from s models result' (unavailable ++ (a ∷ [])) st'' in
      after_reservation-IsSettled model result refusal.0 st' next
        (subst (In model) split (In-last model (named unavailable) models))
        (reserve-IsOf st.quota model (s.clock st.readings))
        (λ r a st'' of.
          execute_from-IsSettled models r (unavailable ++ (a ∷ [])) st''
            (named-snoc unavailable a model models of split))

  -- A call returns without an error only what `parse` makes of the answer that one of the service's models gave to
  -- its request, with a status below 400; and it fails for want of models only with a list of all the service's models
  -- in their order.
  pub execute_json-IsSettled :
      (st : Calls) → IsSettled (execute_json s st).0.0 (execute_json s st).0.1
  unfolding execute_json named
  execute_json-IsSettled st = execute_from-IsSettled s.models empty_result [] st refl
