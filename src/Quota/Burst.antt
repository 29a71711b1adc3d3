-- ===== src/Quota/Burst.antt =====
-- internal/integrations/gemini/executor.go, `blockedUntil`: what happens at the instant at which the
-- earliest counted request is exactly a minute old.
use wordbit_advanced.Prelude.{
  ℕ, zero, suc, ◌+◌, ◌<◌, ◌≤◌, ◌≡◌, Option, none, some, List, [], ◌∷◌, ◌++◌, ltb, ◌==◌,
  if◌then◌else◌, length, String, string_eq, ℤ, pos, All, refl, ap, ◌∙◌, arith, length-append,
}
use wordbit_advanced.Domain.{Time, minute}
use wordbit_advanced.Quota.Cooldown.{put_state-found}
use wordbit_advanced.Quota.{
  ModelQuotaState, QuotaCache, ModelAvailability, Block, prune, blocked_until, reserve,
  earliest_from, cooldown_block, minute_block, minute_cutoff,
}

-- The earliest request of the model is exactly a minute old, the others are of this instant, and
-- neither a cooldown nor a limit per day stands in the way.
pub record IsEdge (q : QuotaCache) (model : String) (now : Time) (rest : List Time) : Type 0 where
  pub first : Time
  pub first_positive : 0 < first
  pub now_eq : now ≡ first + minute
  pub requests_eq : (q.models model).requests ≡ first ∷ rest
  pub rest_now : All (λ r. r ≡ now) rest
  pub rpd_zero : q.rpd_limit ≡ pos 0
  pub available : (q.models model).unavailable_until ≤ now

earliest_from-stays :
    (requests : List Time) (now cutoff earliest : Time)
    → All (λ r. r ≡ now) requests
    → 0 < earliest
    → earliest ≤ now
    → earliest_from requests cutoff earliest ≡ earliest
earliest_from-stays [] now cutoff earliest h lo le = refl
earliest_from-stays (r ∷ requests) now cutoff earliest (e, rest) lo le =
    ground (arith, earliest_from-stays requests now cutoff earliest rest lo le)

gate_free :
    (until now : Time) (b : Block) → until ≤ now → (if ltb now until then some b else none) ≡ none
gate_free until now b le = ground arith

minute_block-le :
    (requests : List Time) (now : Time) (limit : ℤ) (b : Block)
    → b.until ≤ now
    → earliest_from requests (minute_cutoff now) 0 + minute ≤ now
    → (minute_block requests now limit b).until ≤ now
minute_block-le requests now limit b le e = ground arith

edge-free :
    (st : ModelQuotaState) (now first : Time) (rest : List Time) (rpm : ℤ)
    → 0 < first
    → now ≡ first + minute
    → st.requests ≡ first ∷ rest
    → All (λ r. r ≡ now) rest
    → st.unavailable_until ≤ now
    → blocked_until st now rpm (pos 0) ≡ none
unfolding blocked_until
edge-free st now first rest rpm lo e requests same le =
    let c = cooldown_block st now in
    let m = minute_block st.requests now rpm c in
    let cool : c.until ≤ now = ground arith in
    let stays = earliest_from-stays rest now (minute_cutoff now) first same lo (omega arith) in
    let edge : earliest_from st.requests (minute_cutoff now) 0 ≡ first =
      rw requests (ground (arith, stays)) in
    gate_free m.until now (if m.reason == "" then record m { reason = "model unavailable" } else m)
      (minute_block-le st.requests now rpm c cool (omega arith))

-- The cache after a number of reservations at one instant, whatever their answers are.
abbrev pub cache_of : Option ModelAvailability × QuotaCache → QuotaCache
cache_of (o, q) = q

pub reserve_times : ℕ → QuotaCache → String → Time → QuotaCache
reserve_times zero q model now = q
reserve_times (suc n) q model now = reserve_times n (cache_of (reserve q model now)) model now

reserve-IsEdge :
    (q : QuotaCache) (model : String) (now : Time) (rest : List Time)
    → IsEdge q model now rest
    → IsEdge (cache_of (reserve q model now)) model now (rest ++ (now ∷ []))
unfolding reserve prune
reserve-IsEdge q model now rest edge =
    let st = prune (q.models model) now in
    let kept : st.requests ≡ edge.first ∷ rest =
      rw edge.requests_eq (ground (arith, edge.now_eq)) in
    let free : blocked_until st now q.rpm_limit q.rpd_limit ≡ none = rw edge.rpd_zero (
      edge-free st now edge.first rest q.rpm_limit edge.first_positive edge.now_eq kept
        edge.rest_now edge.available) in
    let st' = record st { requests = st.requests ++ (now ∷ []) } in
    let found = put_state-found q model st' in
    rw free (record {
      first = edge.first;
      first_positive = edge.first_positive;
      now_eq = edge.now_eq;
      requests_eq = ap (λ s. s.requests) found ∙ ap (λ l. l ++ (now ∷ [])) kept;
      rest_now = All-last rest edge.rest_now;
      rpd_zero = edge.rpd_zero;
      available = rw found edge.available;
    })
  where
    All-last :
        (rest : List Time) → All (λ r. r ≡ now) rest → All (λ r. r ≡ now) (rest ++ (now ∷ []))
    All-last [] h = (refl, tt)
    All-last (r ∷ rest) (e, h) = (e, All-last rest h)

-- At an instant that is exactly a minute after the earliest counted request, without a limit per day, no
-- limit per minute holds: however many reservations follow at that instant, each adds a request.
reserve_times-unlimited :
    (n : ℕ) (q : QuotaCache) (model : String) (now : Time) (rest : List Time)
    → IsEdge q model now rest
    → length ((reserve_times n q model now).models model).requests ≡ length rest + n + 1
unfolding reserve_times
reserve_times-unlimited zero q model now rest edge = rw edge.requests_eq (omega arith)
reserve_times-unlimited (suc n) q model now rest edge =
    let later =
      reserve_times-unlimited n (cache_of (reserve q model now)) model now (rest ++ (now ∷ []))
        (reserve-IsEdge q model now rest edge) in
    omega (arith, later, length-append rest (now ∷ []))
