-- ===== src/Executor/Requests.antt =====
-- How many requests one call of executeJSON makes.
use wordbit_advanced.Prelude.{
  ℕ, zero, suc, ap, pos, arith, ◌+◌, ◌*◌, ◌≤◌, ◌≡◌, refl, Option, none, some, List, [], ◌∷◌, ◌++◌,
  String, Text, length, if_elim, leb, nat_beq, leb_ℤ,
}
use wordbit_advanced.Quota.{ModelAvailability, reserve}
use wordbit_advanced.Executor.{
  Service, ExecutionResult, Calls, Attempted, Round, finish, again, RequestError, Exchange, failed,
  broken, answered, HttpResponse, Fallible, ok, err, limited_round, answered_round, exchanged_round,
  sent_round, built_round, attempt_round, after_round, retry_from, backoff, max_attempts,
  execute_on_model, after_model, after_reservation, execute_from, execute_json, Outcome,
  empty_result,
}

module _ {T : Type 0} (s : Service T) where
  limited-sent :
      (model : String) (result : ExecutionResult T) (r : HttpResponse) (st : Calls)
      → (limited_round s model result r st).1.sent ≡ st.sent
  unfolding limited_round
  limited-sent model result r st = refl

  answered-sent :
      (model : String) (result : ExecutionResult T) (r : HttpResponse) (st : Calls)
      → (answered_round s model result r st).1.sent ≡ st.sent
  unfolding answered_round
  answered-sent model result r st =
      if_elim (λ (x : Round T × Calls). x.1.sent ≡ st.sent) (leb 500 r.status_code) (λ _. refl)
        (λ _.
          if_elim (λ (x : Round T × Calls). x.1.sent ≡ st.sent) (nat_beq r.status_code 429)
            (λ _. limited-sent model (record result { raw = r.body }) r st)
            (λ _.
              if_elim (λ (x : Round T × Calls). x.1.sent ≡ st.sent) (leb 400 r.status_code)
                (λ _. refl) (λ _. refl)))

  exchanged-sent :
      (model : String) (result : ExecutionResult T) (x : Exchange) (st : Calls)
      → (exchanged_round s model result x st).1.sent ≡ st.sent
  exchanged-sent model result (failed e) st = refl
  exchanged-sent model result (broken e) st = refl
  exchanged-sent model result (answered r) st = answered-sent model result r st

  sent_round-sent :
      (model : String) (result : ExecutionResult T) (body : Text) (e : Option Text) (st : Calls)
      → length (sent_round s model result body e st).1.sent ≤ length st.sent + 1
  sent_round-sent model result body (some e) st = omega arith
  sent_round-sent model result body none st =
      let x = s.exchange st.sent model body in
      let st' = record st { sent = model ∷ st.sent } in
      omega (arith, ap length (exchanged-sent model result x st'))

  built-sent :
      (model : String) (result : ExecutionResult T) (p : Fallible Text) (st : Calls)
      → length (built_round s model result p st).1.sent ≤ length st.sent + 1
  built-sent model result (err e) st = omega arith
  built-sent model result (ok body) st = sent_round-sent model result body (s.create_error body) st

  attempt-sent :
      (model : String) (result : ExecutionResult T) (st : Calls)
      → length (attempt_round s model result st).1.sent ≤ length st.sent + 1
  unfolding attempt_round
  attempt-sent model result st = built-sent model result (s.build_payload model) st

  backoff-sent : (attempt : ℕ) (st : Calls) → (backoff s attempt st).sent ≡ st.sent
  backoff-sent attempt st =
      if_elim (λ (x : Calls). x.sent ≡ st.sent) (leb_ℤ s.max_retries (pos attempt)) (λ _. refl)
        (λ _. refl)

  after-sent :
      (attempt bound : ℕ) (r : Round T) (st : Calls)
      (next : ExecutionResult T → RequestError → Calls → Attempted T × Calls)
      → ((result : ExecutionResult T) (e : RequestError) (st' : Calls)
          → length (next result e st').1.sent ≤ length st'.sent + bound)
      → length (after_round s attempt (r, st) next).1.sent ≤ length st.sent + bound
  after-sent attempt bound (finish a) st next h = omega arith
  after-sent attempt bound (again result e) st next h =
      omega (arith, h result e (backoff s attempt st), ap length (backoff-sent attempt st))

  retry-sent :
      (left attempt : ℕ) (model : String) (result : ExecutionResult T) (e : RequestError)
      (st : Calls)
      → length (retry_from s left attempt model result e st).1.sent ≤ length st.sent + left
  unfolding retry_from
  retry-sent zero attempt model result e st = omega arith
  retry-sent (suc left) attempt model result e st =
      let (r, st') = attempt_round s model result st in
      omega (
        arith,
        attempt-sent model result st,
        after-sent attempt left r st' (retry_from s left (attempt + 1) model)
            (retry-sent left (attempt + 1) model),
      )

  on_model-sent :
      (model : String) (st : Calls)
      → length (execute_on_model s model st).1.sent ≤ length st.sent + max_attempts s
  unfolding execute_on_model
  on_model-sent model st = retry-sent (max_attempts s) 1 model empty_result RequestError.untried st

  after_model-sent :
      (bound : ℕ) (result model_result : ExecutionResult T) (e : Option RequestError)
      (rotated : Option ModelAvailability) (st : Calls)
      (next : ExecutionResult T → ModelAvailability → Calls → Outcome s × Calls)
      → ((r : ExecutionResult T) (a : ModelAvailability) (st' : Calls)
          → length (next r a st').1.sent ≤ length st'.sent + bound)
      → length (after_model s result model_result e rotated st next).1.sent ≤ length st.sent + bound
  after_model-sent bound result model_result none rotated st next h = omega arith
  after_model-sent bound result model_result (some e) none st next h = omega arith
  after_model-sent bound result model_result (some e) (some a) st next h =
      h (record result { raw = model_result.raw }) a st

  after_reservation-sent :
      (bound : ℕ) (model : String) (result : ExecutionResult T) (refused : Option ModelAvailability)
      (st : Calls) (next : ExecutionResult T → ModelAvailability → Calls → Outcome s × Calls)
      → ((r : ExecutionResult T) (a : ModelAvailability) (st' : Calls)
          → length (next r a st').1.sent ≤ length st'.sent + bound)
      → length (after_reservation s model result refused st next).1.sent
        ≤ length st.sent + max_attempts s + bound
  after_reservation-sent bound model result (some a) st next h = omega (arith, h result a st)
  after_reservation-sent bound model result none st next h =
      let (a, st') = execute_on_model s model st in
      omega (
        arith,
        on_model-sent model st,
        after_model-sent bound result a.result a.error a.rotate st' next h,
      )

  execute_from-sent :
      (models : List String) (result : ExecutionResult T) (unavailable : List ModelAvailability)
      (st : Calls)
      → length (execute_from s models result unavailable st).1.sent
        ≤ length st.sent + length models * max_attempts s
  unfolding execute_from
  execute_from-sent [] result unavailable st = omega arith
  execute_from-sent (model ∷ models) result unavailable st =
      let (refused, quota) = reserve st.quota model (s.clock st.readings) in
      let st' : Calls = record st { quota = quota; readings = st.readings + 1 } in
      let next : ExecutionResult T → ModelAvailability → Calls → Outcome s × Calls =
        λ result' a st''. execute_from s models result' (unavailable ++ (a ∷ [])) st'' in
      omega (
        arith,
        after_reservation-sent (length models * max_attempts s) model result refused st' next
            (λ r a st''. execute_from-sent models r (unavailable ++ (a ∷ [])) st''),
      )

  -- One call ends after at most as many requests as there are models, times the retries (at least one) for each of
  -- them, whatever the answers, the clock and the quota cache are.
  pub execute_json-requests :
      (st : Calls)
      → length (execute_json s st).1.sent ≤ length st.sent + length s.models * max_attempts s
  unfolding execute_json
  execute_json-requests st = execute_from-sent s.models empty_result [] st
