-- ===== src/Executor/Answers.antt =====
-- executeOnModel: a result of one model is its parsed answer, or an error.
use wordbit_advanced.Prelude.{
  ℕ, zero, suc, arith, ◌+◌, ◌<◌, ◌≡◌, refl, Option, none, some, List, ◌∷◌, String, Text, if_elim,
  leb, nat_beq,
}
use wordbit_advanced.Domain.{Time}
use wordbit_advanced.Quota.{
  ModelAvailability, QuotaCache, ModelQuotaState, Block, reserve, settle_reservation, prune,
  blocked_until,
}
use wordbit_advanced.Executor.{
  Service, ExecutionResult, Calls, Attempted, Round, finish, again, RequestError, Exchange, failed,
  broken, answered, HttpResponse, Fallible, ok, err, limited_round, answered_round, exchanged_round,
  sent_round, built_round, attempt_round, after_round, retry_from, backoff, parsed_round,
  max_attempts, execute_on_model, empty_result,
}

-- An error of another kind than the one for models that are not available.
abbrev pub IsOther : RequestError → Type 0
IsOther (RequestError.rate_limited l) = ⊥
IsOther e = Unit

abbrev pub IsOf : String → Option ModelAvailability → Type 0
IsOf model none = Unit
IsOf model (some a) = a.model ≡ model

settle-IsOf :
    (q : QuotaCache) (model : String) (now : Time) (st : ModelQuotaState) (b : Option Block)
    → IsOf model (settle_reservation q model now st b).0
settle-IsOf q model now st none = tt
settle-IsOf q model now st (some b) = refl

pub reserve-IsOf :
    (q : QuotaCache) (model : String) (now : Time) → IsOf model (reserve q model now).0
unfolding reserve
reserve-IsOf q model now =
    let st = prune (q.models model) now in
    settle-IsOf q model now st (blocked_until st now q.rpm_limit q.rpd_limit)

module _ {T : Type 0} (s : Service T) where
  -- The result is what `parse` makes of a model's answer to its request, and the answer is no error.
  pub record IsAnswer (result : ExecutionResult T) : Type 0 where
    pub earlier : List String
    pub request : Text
    pub response : HttpResponse
    pub value : T
    pub built : s.build_payload result.model ≡ ok request
    pub received : s.exchange earlier result.model request ≡ answered response
    pub accepted : response.status_code < 400
    pub parsed : s.parse response.body ≡ ok (value, result.text)
    pub given : result.value ≡ some value
    pub raw : result.raw ≡ response.body

  abbrev pub Fits :
      String → ExecutionResult T → Option RequestError → Option ModelAvailability → Type 0
  Fits model result none rotate = IsAnswer result × (result.model ≡ model)
  Fits model result (some e) none = IsOther e
  Fits model result (some e) (some a) = a.model ≡ model

  abbrev pub RoundFits : String → Round T → Type 0
  RoundFits model (finish a) = Fits model a.result a.error a.rotate
  RoundFits model (again result e) = IsOther e

  limited-Fits :
      (model : String) (result : ExecutionResult T) (r : HttpResponse) (st : Calls)
      → RoundFits model (limited_round s model result r st).0
  unfolding limited_round
  limited-Fits model result r st = refl

  parsed-Fits :
      (model : String) (result : ExecutionResult T) (r : HttpResponse) (earlier : List String)
      (request : Text) (p : Fallible (T × Text))
      → s.parse r.body ≡ p
      → r.status_code < 400
      → s.build_payload model ≡ ok request
      → s.exchange earlier model request ≡ answered r
      → RoundFits model (parsed_round s model (record result { raw = r.body }) p)
  parsed-Fits model result r earlier request (err e) parsed accepted built received = tt
  parsed-Fits model result r earlier request (ok (value, text)) parsed accepted built received = (
    record {
      earlier = earlier;
      request = request;
      response = r;
      value = value;
      built = built;
      received = received;
      accepted = accepted;
      parsed = parsed;
      given = refl;
      raw = refl;
    },
    refl,
  )

  answered-Fits :
      (model : String) (result : ExecutionResult T) (r : HttpResponse) (earlier : List String)
      (request : Text) (st : Calls)
      → s.build_payload model ≡ ok request
      → s.exchange earlier model request ≡ answered r
      → RoundFits model (answered_round s model result r st).0
  unfolding answered_round
  answered-Fits model result r earlier request st built received =
      let P = λ (x : Round T × Calls). RoundFits model x.0 in
      if_elim P (leb 500 r.status_code) (λ _. tt)
        (λ _.
          if_elim P (nat_beq r.status_code 429)
            (λ _. limited-Fits model (record result { raw = r.body }) r st)
            (λ _.
              if_elim P (leb 400 r.status_code) (λ _. tt)
                (λ fine.
                  parsed-Fits model result r earlier request (s.parse r.body) refl (ground arith)
                    built received)))

  exchanged-Fits :
      (model : String) (result : ExecutionResult T) (earlier : List String) (request : Text)
      (x : Exchange) (st : Calls)
      → s.build_payload model ≡ ok request
      → s.exchange earlier model request ≡ x
      → RoundFits model (exchanged_round s model result x st).0
  exchanged-Fits model result earlier request (failed e) st built received = tt
  exchanged-Fits model result earlier request (broken e) st built received = tt
  exchanged-Fits model result earlier request (answered r) st built received =
      answered-Fits model result r earlier request st built received

  sent-Fits :
      (model : String) (result : ExecutionResult T) (request : Text) (e : Option Text) (st : Calls)
      → s.build_payload model ≡ ok request
      → RoundFits model (sent_round s model result request e st).0
  sent-Fits model result request (some e) st built = tt
  sent-Fits model result request none st built =
      exchanged-Fits model result st.sent request (s.exchange st.sent model request)
        (record st { sent = model ∷ st.sent }) built refl

  built-Fits :
      (model : String) (result : ExecutionResult T) (p : Fallible Text) (st : Calls)
      → s.build_payload model ≡ p
      → RoundFits model (built_round s model result p st).0
  built-Fits model result (err e) st built = tt
  built-Fits model result (ok request) st built =
      sent-Fits model result request (s.create_error request) st built

  attempt-Fits :
      (model : String) (result : ExecutionResult T) (st : Calls)
      → RoundFits model (attempt_round s model result st).0
  unfolding attempt_round
  attempt-Fits model result st = built-Fits model result (s.build_payload model) st refl

  abbrev ModelFits : String → Attempted T × Calls → Type 0
  ModelFits model x = Fits model x.0.result x.0.error x.0.rotate

  after-Fits :
      (attempt : ℕ) (model : String) (r : Round T) (st : Calls)
      (next : ExecutionResult T → RequestError → Calls → Attempted T × Calls)
      → RoundFits model r
      → ((result : ExecutionResult T) (e : RequestError) (st' : Calls)
          → IsOther e
          → ModelFits model (next result e st'))
      → ModelFits model (after_round s attempt (r, st) next)
  after-Fits attempt model (finish a) st next fits h = fits
  after-Fits attempt model (again result e) st next fits h = h result e (backoff s attempt st) fits

  retry-Fits :
      (left attempt : ℕ) (model : String) (result : ExecutionResult T) (e : RequestError)
      (st : Calls)
      → IsOther e
      → ModelFits model (retry_from s left attempt model result e st)
  unfolding retry_from
  retry-Fits zero attempt model result e st other = other
  retry-Fits (suc left) attempt model result e st other =
      let (r, st') = attempt_round s model result st in
      after-Fits attempt model r st' (retry_from s left (attempt + 1) model)
        (attempt-Fits model result st) (retry-Fits left (attempt + 1) model)

  pub on_model-Fits : (model : String) (st : Calls) → ModelFits model (execute_on_model s model st)
  unfolding execute_on_model
  on_model-Fits model st =
      retry-Fits (max_attempts s) 1 model empty_result RequestError.untried st tt
