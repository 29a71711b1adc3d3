-- ===== src/Examples/Quotas.antt =====
-- The quotas of a sample model.
use wordbit_advanced.Prelude.{length, ◌≡◌, ◌≤◌, ◌+◌, none, ◌∷◌, [], pos, count_if, refl, arith}
use wordbit_advanced.Domain.{Time, minute}
use wordbit_advanced.Quota.{
  ModelQuotaState, QuotaCache, ModelAvailability, reserve, mark_rate_limited, put_state, is_recent,
  minute_cutoff, cooldown_of,
}
use wordbit_advanced.Quota.Limits.{reserve-rpm, reserve-rpd}
use wordbit_advanced.Quota.Cooldown.{
  mark_rate_limited-refuses, IsRefusedUntil, call_reserve, call_mark, after_calls,
}
use wordbit_advanced.Quota.Burst.{IsEdge}
use wordbit_advanced.Examples.Samples.{evening}

-- One request ten seconds ago, with two per minute and per day
abbrev used : ModelQuotaState
used = record { requests = evening ∷ []; unavailable_until = 0; last_reason = "" }

abbrev now : Time
now = evening + 10_000_000_000

abbrev cache : QuotaCache
cache = record { rpm_limit = pos 2; rpd_limit = pos 2; models = λ model. used }

abbrev next_cache : QuotaCache
next_cache = put_state cache "m" (record used { requests = evening ∷ now ∷ [] })

made : reserve cache "m" now ≡ (none, next_cache)
unfolding reserve
made = refl

reserve-rpm_example : count_if (is_recent (minute_cutoff now)) (next_cache.models "m").requests ≤ 2
reserve-rpm_example =
    reserve-rpm cache next_cache "m" now 2 refl (omega arith) ((λ e. omega (arith, e)), tt) made

reserve-rpd_example : length (next_cache.models "m").requests ≤ 2
reserve-rpd_example =
    reserve-rpd cache next_cache "m" now 2 refl (omega arith) (tt, tt) ((λ e. omega (arith, e)), tt)
      made

abbrev limited_cache : QuotaCache
limited_cache =
    put_state cache "m" (record used {
      unavailable_until = now + 30_000_000_000;
      last_reason = "upstream rate limit";
    })

abbrev limited_answer : ModelAvailability
limited_answer = record {
  model = "m";
  available_at = now + 30_000_000_000;
  reason = "upstream rate limit";
}

marked : mark_rate_limited cache "m" now (pos 0) "" ≡ (limited_answer, limited_cache)
unfolding mark_rate_limited
marked = refl

mark_rate_limited-refuses_example :
    (now + cooldown_of (pos 0) ≤ limited_answer.available_at)
    × ((cache.models "m").unavailable_until ≤ limited_answer.available_at)
    × IsRefusedUntil limited_answer.available_at (
        reserve
          (after_calls limited_cache (
            call_reserve "m" (now + 1)
            ∷ call_reserve "n" (now + 2)
            ∷ call_mark "n" (now + 3) (pos 0) ""
            ∷ call_reserve "m" (now + 4)
            ∷ []))
          "m"
          (now + 5))
mark_rate_limited-refuses_example =
    mark_rate_limited-refuses cache limited_cache "m" now (now + 5) (pos 0) "" limited_answer
      (call_reserve "m" (now + 1)
        ∷ call_reserve "n" (now + 2)
        ∷ call_mark "n" (now + 3) (pos 0) ""
        ∷ call_reserve "m" (now + 4)
        ∷ [])
      marked (omega arith)

-- A minute after the one request, without a limit per day
abbrev edge_cache : QuotaCache
edge_cache = record cache { rpd_limit = pos 0 }

edge : IsEdge edge_cache "m" (evening + minute) []
edge = record {
  first = evening;
  first_positive = omega arith;
  now_eq = refl;
  requests_eq = refl;
  rest_now = tt;
  rpd_zero = refl;
  available = omega arith;
}
