-- ===== src/Quota.antt =====
-- internal/integrations/gemini/executor.go: how many requests each model of the language service may
-- get in a minute and in a day. Every operation runs under the cache's mutex, so that a run of the
-- program is a sequence of them.
pub mod Limits
pub mod Cooldown
pub mod Burst
use wordbit_advanced.Prelude.{
  ℕ, zero, suc, ◌+◌, ◌-◌, ◌*◌, Bool, true, false, not, ◌&&◌, ◌||◌, Option, none, some, List, [],
  ◌∷◌, ◌++◌, ltb, leb, ◌==◌, if◌then◌else◌, length, String, string_eq, ℤ, pos, negsuc, count_if,
  ltb_ℤ, leb_ℤ, drop,
}
use wordbit_advanced.Domain.{Time, second, minute, hour, before, after, is_zero, add_seconds}

pub record ModelQuotaState : Type 0 where
  pub requests : List Time
  pub unavailable_until : Time
  pub last_reason : String

abbrev pub new_model_quota_state : ModelQuotaState
new_model_quota_state = record { requests = []; unavailable_until = 0; last_reason = "" }

-- The map of models as the function that `modelState` computes: a model without an entry gets the
-- empty state.
pub record QuotaCache : Type 0 where
  pub rpm_limit : ℤ
  pub rpd_limit : ℤ
  pub models : String → ModelQuotaState

pub record ModelAvailability : Type 0 where
  pub model : String
  pub available_at : Time
  pub reason : String

abbrev pub new_quota_cache : ℤ → ℤ → QuotaCache
new_quota_cache rpm_limit rpd_limit = record {
  rpm_limit = rpm_limit;
  rpd_limit = rpd_limit;
  models = λ model. new_model_quota_state;
}

abbrev pub put_state : QuotaCache → String → ModelQuotaState → QuotaCache
put_state q model st = record q { models = λ name. if name == model then st else q.models name }

-- `now.Add(-24 * time.Hour)`, or the first instant where that is earlier: no time is before either.
abbrev pub day_cutoff : Time → Time
day_cutoff now = now - 24 * hour

abbrev pub minute_cutoff : Time → Time
minute_cutoff now = now - minute

-- The loop over `idx` and the slice from there on.
abbrev pub drop_before : Time → List Time → List Time
drop_before cutoff [] = []
drop_before cutoff (r ∷ requests) =
    let rest = drop_before cutoff requests in if before r cutoff then rest else r ∷ requests

unfoldable pub prune : ModelQuotaState → Time → ModelQuotaState
prune st now = record st { requests = drop_before (day_cutoff now) st.requests }

-- `availableAt` and `reason`
pub record Block : Type 0 where
  pub until : Time
  pub reason : String

abbrev pub raise : Block → Time → String → Block
raise b candidate reason =
    if after candidate b.until then record { until = candidate; reason = reason } else b

abbrev pub is_recent : Time → Time → Bool
is_recent cutoff request_at = not (before request_at cutoff)

-- `earliest` after the loop over the requests
abbrev pub earliest_from : List Time → Time → Time → Time
earliest_from [] cutoff earliest = earliest
earliest_from (r ∷ requests) cutoff earliest = earliest_from requests cutoff (
    if before r cutoff
    then earliest
    else if is_zero earliest || before r earliest
    then r
    else earliest)

abbrev pub cooldown_block : ModelQuotaState → Time → Block
cooldown_block st now =
    if after st.unavailable_until now
    then record { until = st.unavailable_until; reason = st.last_reason }
    else record { until = 0; reason = "" }

abbrev pub minute_block : List Time → Time → ℤ → Block → Block
minute_block requests now rpm_limit b =
    let cutoff = minute_cutoff now in
    if ltb_ℤ (pos 0) rpm_limit && leb_ℤ rpm_limit (pos (count_if (is_recent cutoff) requests))
    then raise b (earliest_from requests cutoff 0 + minute) "local rpm limit"
    else b

-- `requests[k]`, for a `k` in range
abbrev pub request_at : List Time → ℕ → Time
request_at [] k = 0
request_at (r ∷ requests) zero = r
request_at (r ∷ requests) (suc k) = request_at requests k

abbrev pub day_block : List Time → ℤ → Block → Block
day_block requests (pos n) b =
    if ltb 0 n && leb n (length requests)
    then raise b (request_at requests (length requests - n) + 24 * hour) "local rpd limit"
    else b
day_block requests (negsuc n) b = b

-- `none` is an answer with `blocked` false.
unfoldable pub blocked_until : ModelQuotaState → Time → ℤ → ℤ → Option Block
blocked_until st now rpm_limit rpd_limit =
    let b =
      day_block st.requests rpd_limit
        (minute_block st.requests now rpm_limit (cooldown_block st now)) in
    if after b.until now
    then some (if b.reason == "" then record b { reason = "model unavailable" } else b)
    else none

abbrev pub settle_reservation :
    QuotaCache
    → String
    → Time
    → ModelQuotaState
    → Option Block
    → Option ModelAvailability × QuotaCache
settle_reservation q model now st (some b) = (
  some (record { model = model; available_at = b.until; reason = b.reason }),
  put_state q model st,
)
settle_reservation q model now st none =
    (none, put_state q model (record st { requests = st.requests ++ (now ∷ []) }))

-- `none` is a reservation that is made.
unfoldable pub reserve : QuotaCache → String → Time → Option ModelAvailability × QuotaCache
unfolding prune blocked_until
reserve q model now =
    let st = prune (q.models model) now in
    settle_reservation q model now st (blocked_until st now q.rpm_limit q.rpd_limit)

-- `retryAfter` in whole nanoseconds; the default is `defaultRateLimitCooldown`.
abbrev pub cooldown_of : ℤ → ℕ
cooldown_of (pos zero) = 30 * second
cooldown_of (pos (suc n)) = suc n
cooldown_of (negsuc n) = 30 * second

unfoldable pub mark_rate_limited :
    QuotaCache → String → Time → ℤ → String → ModelAvailability × QuotaCache
unfolding prune
mark_rate_limited q model now retry_after reason =
    let st = prune (q.models model) now in
    let available_at = now + cooldown_of retry_after in
    let st' = record st {
      unavailable_until =
          if after available_at st.unavailable_until then available_at else st.unavailable_until;
      last_reason = if reason == "" then "upstream rate limit" else reason;
    } in
    (
      record { model = model; available_at = st'.unavailable_until; reason = st'.last_reason },
      put_state q model st',
    )
