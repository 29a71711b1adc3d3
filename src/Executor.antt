-- ===== src/Executor.antt =====
-- internal/integrations/gemini/executor.go, client.go: a request is tried on each model in turn, and
-- on one model again after errors that may pass. The network, the clock and the decoding of JSON
-- and of durations are the record Service; messages and logging are left out.
pub mod Requests
pub mod Answers
pub mod Settled
use wordbit_advanced.Prelude.{
  ℕ, zero, suc, ◌+◌, ◌*◌, Bool, not, ◌&&◌, Option, none, some, List, [], ◌∷◌, ◌++◌, String, Text,
  text_eq, codes, ◌==◌, if◌then◌else◌, ltb, leb, nat_beq, ℤ, pos, max_int, leb_ℤ, length, pos_part,
}
use wordbit_advanced.Domain.{Time, second}
use wordbit_advanced.Normalization.{Unicode, trim_space}
use wordbit_advanced.Quota.{QuotaCache, ModelAvailability, reserve, mark_rate_limited}

pub record HttpResponse : Type 0 where
  pub status_code : ℕ
  pub body : Text
  pub retry_after : Text

-- What becomes of a request: no answer, an answer that breaks off, or an answer.
pub data Exchange : Type 0 where
  failed : Text → Exchange
  broken : Text → Exchange
  answered : HttpResponse → Exchange

pub data RequestError : Type 0 where
  -- `lastErr` before any attempt
  untried : RequestError
  payload : Text → RequestError
  create : Text → RequestError
  request : Text → RequestError
  read : Text → RequestError
  server : ℕ → Text → RequestError
  client : ℕ → Text → RequestError
  parse : Text → RequestError
  rate_limited : List ModelAvailability → RequestError

-- The error or the value of a Go function that returns both
pub data Fallible (A : Type 0) : Type 0 where
  ok : A → Fallible A
  err : Text → Fallible A

pub record ErrorEnvelope : Type 0 where
  pub message : Text
  pub error_type : Text
  -- `fmt.Sprint` of a code that is not nil
  pub code : Option Text

-- The values that a call depends on. `exchange` is given the models of the requests so far, the last one first,
-- and `clock` the number of its readings so far.
pub record Service (T : Type 0) : Type 0 where
  pub models : List String
  pub max_retries : ℤ
  pub build_payload : String → Fallible Text
  pub create_error : Text → Option Text
  pub exchange : List String → String → Text → Exchange
  pub parse : Text → Fallible (T × Text)
  pub clock : ℕ → Time
  pub error_envelope : Text → Option ErrorEnvelope
  -- `time.ParseDuration`, in nanoseconds
  pub parse_duration : Text → Option ℤ
  -- The text of a reason, for the quota cache
  pub reason_text : Text → String
  pub unicode : Unicode

pub record ExecutionResult (T : Type 0) : Type 0 where
  pub value : Option T
  pub text : Text
  pub raw : Text
  pub model : String

abbrev pub empty_result : {T : Type 0} → ExecutionResult T
empty_result = record { value = none; text = []; raw = []; model = "" }

-- What a call changes: the quota cache, the requests made and the readings of the clock, and the time slept.
pub record Calls : Type 0 where
  pub quota : QuotaCache
  pub sent : List String
  pub readings : ℕ
  pub slept : ℕ

-- The four results of `executeOnModel`; the availability is there when `rotate` is true.
pub record Attempted (T : Type 0) : Type 0 where
  pub result : ExecutionResult T
  pub rotate : Option ModelAvailability
  pub error : Option RequestError

-- One round of the retry loop returns, or leaves an error for the next round.
pub data Round (T : Type 0) : Type 0 where
  finish : Attempted T → Round T
  again : ExecutionResult T → RequestError → Round T

abbrev pub is_positive : Option ℤ → Option ℤ
is_positive none = none
is_positive (some d) = if leb_ℤ d (pos 0) then none else some d

abbrev pub or_duration : Option ℤ → ℤ → ℤ
or_duration none d = d
or_duration (some e) d = e

module _ {T : Type 0} (s : Service T) where
  unfoldable pub parse_retry_after : Text → ℤ
  unfolding trim_space
  parse_retry_after value =
      let v = trim_space s.unicode value in
      let default = pos (30 * second) in
      if v == []
      then default
      else or_duration (is_positive (s.parse_duration (v ++ codes "s")))
          (or_duration (is_positive (s.parse_duration v)) default)

  abbrev pub code_or_empty : Option Text → Text
  code_or_empty none = []
  code_or_empty (some c) = c

  abbrev pub envelope_reason : Option ErrorEnvelope → Text
  envelope_reason none = []
  envelope_reason (some e) =
      let message = trim_space s.unicode e.message in
      let reason =
        if message == [] && not (trim_space s.unicode e.error_type == [])
        then e.error_type
        else message in
      if reason == [] then code_or_empty e.code else reason

  unfoldable pub parse_deep_seek_rate_limit : Text → Text → ℤ × Text
  unfolding trim_space parse_retry_after
  parse_deep_seek_rate_limit raw header =
      (parse_retry_after header, envelope_reason (s.error_envelope raw))

  -- `c.backoff(attempt)`
  abbrev pub backoff : ℕ → Calls → Calls
  backoff attempt st =
      if leb_ℤ s.max_retries (pos attempt)
      then st
      else record st { slept = st.slept + attempt * attempt * 200_000_000 }

  abbrev pub stop : ExecutionResult T → RequestError → Round T
  stop result e = finish (record { result = result; rotate = none; error = some e })

  abbrev pub parsed_round : String → ExecutionResult T → Fallible (T × Text) → Round T
  parsed_round model result (err e) = again result (RequestError.parse e)
  parsed_round model result (ok (value, text)) = finish (record {
    result = record result { value = some value; text = text; model = model };
    rotate = none;
    error = none;
  })

  -- The answer with the status 429
  unfoldable pub limited_round : String → ExecutionResult T → HttpResponse → Calls → Round T × Calls
  unfolding parse_deep_seek_rate_limit mark_rate_limited
  limited_round model result r st =
      let (retry_after, reason) = parse_deep_seek_rate_limit r.body r.retry_after in
      let (availability, quota) =
        mark_rate_limited st.quota model (s.clock st.readings) retry_after (s.reason_text reason) in
      (
        finish (record {
          result = result;
          rotate = some availability;
          error = some (RequestError.rate_limited (availability ∷ []));
        }),
        record st { quota = quota; readings = st.readings + 1 },
      )

  unfoldable pub answered_round :
      String → ExecutionResult T → HttpResponse → Calls → Round T × Calls
  unfolding limited_round
  answered_round model result₀ r st =
      let result : ExecutionResult T = record result₀ { raw = r.body } in
      if leb 500 r.status_code
      then (again result (RequestError.server r.status_code r.body), st)
      else if nat_beq r.status_code 429
      then limited_round model result r st
      else if leb 400 r.status_code
      then (stop result (RequestError.client r.status_code r.body), st)
      else (parsed_round model result (s.parse r.body), st)

  abbrev pub exchanged_round : String → ExecutionResult T → Exchange → Calls → Round T × Calls
  exchanged_round model result (failed e) st = (again result (RequestError.request e), st)
  exchanged_round model result (broken e) st = (again result (RequestError.read e), st)
  exchanged_round model result (answered r) st = answered_round model result r st

  abbrev pub sent_round : String → ExecutionResult T → Text → Option Text → Calls → Round T × Calls
  sent_round model result data₀ (some e) st = (stop result (RequestError.create e), st)
  sent_round model result data₀ none st =
      exchanged_round model result (s.exchange st.sent model data₀)
        (record st { sent = model ∷ st.sent })

  abbrev pub built_round : String → ExecutionResult T → Fallible Text → Calls → Round T × Calls
  built_round model result (err e) st = (stop result (RequestError.payload e), st)
  built_round model result (ok data₀) st = sent_round model result data₀ (s.create_error data₀) st

  -- The body of the retry loop
  unfoldable pub attempt_round : String → ExecutionResult T → Calls → Round T × Calls
  unfolding answered_round
  attempt_round model result st = built_round model result (s.build_payload model) st

  abbrev pub after_round :
      ℕ
      → Round T × Calls
      → (ExecutionResult T → RequestError → Calls → Attempted T × Calls)
      → Attempted T × Calls
  after_round attempt (finish a, st) next = (a, st)
  after_round attempt (again result e, st) next = next result e (backoff attempt st)

  -- The loop, with the number of rounds that are left
  unfoldable pub retry_from :
      ℕ → ℕ → String → ExecutionResult T → RequestError → Calls → Attempted T × Calls
  unfolding attempt_round
  retry_from zero attempt model result last_error st =
      (record { result = result; rotate = none; error = some last_error }, st)
  retry_from (suc left) attempt model result last_error st =
      after_round attempt (attempt_round model result st) (retry_from left (attempt + 1) model)

  abbrev pub max_attempts : ℕ
  max_attempts = pos_part (max_int s.max_retries (pos 1))

  unfoldable pub execute_on_model : String → Calls → Attempted T × Calls
  unfolding retry_from
  execute_on_model model st = retry_from max_attempts 1 model empty_result RequestError.untried st

  abbrev pub Outcome : Type 0
  Outcome = ExecutionResult T × Option RequestError

  -- What the loop over the models does with the error and the availability of one model.
  abbrev pub after_model :
      ExecutionResult T
      → ExecutionResult T
      → Option RequestError
      → Option ModelAvailability
      → Calls
      → (ExecutionResult T → ModelAvailability → Calls → Outcome × Calls)
      → Outcome × Calls
  after_model result model_result none rotated st next = ((model_result, none), st)
  after_model result model_result (some e) none st next =
      ((record result { raw = model_result.raw }, some e), st)
  after_model result model_result (some e) (some availability) st next =
      next (record result { raw = model_result.raw }) availability st

  abbrev pub after_reservation :
      String
      → ExecutionResult T
      → Option ModelAvailability
      → Calls
      → (ExecutionResult T → ModelAvailability → Calls → Outcome × Calls)
      → Outcome × Calls
  after_reservation model result (some availability) st next = next result availability st
  after_reservation model result none st next =
      let (a, st') = execute_on_model model st in
      after_model result a.result a.error a.rotate st' next

  unfoldable pub execute_from :
      List String → ExecutionResult T → List ModelAvailability → Calls → Outcome × Calls
  unfolding execute_on_model reserve
  execute_from [] result unavailable st =
      ((result, some (RequestError.rate_limited unavailable)), st)
  execute_from (model ∷ models) result unavailable st =
      let (refused, quota) = reserve st.quota model (s.clock st.readings) in
      after_reservation model result refused
        (record st { quota = quota; readings = st.readings + 1 })
        (λ result' availability st'.
          execute_from models result' (unavailable ++ (availability ∷ [])) st')

  unfoldable pub execute_json : Calls → Outcome × Calls
  unfolding execute_from
  execute_json st = execute_from s.models empty_result [] st
