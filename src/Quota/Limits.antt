-- ===== src/Quota/Limits.antt =====
-- internal/integrations/gemini/executor.go: a reservation keeps the limits by the minute and by the day.
use wordbit_advanced.Prelude.{
  ℕ, zero, suc, ◌+◌, ◌-◌, ◌*◌, ◌<◌, ◌≤◌, ◌≡◌, ◌≢◌, ◌⊎◌, Option, none, some, List, [], ◌∷◌, ◌++◌,
  ltb, ◌==◌, if◌then◌else◌, length, String, string_eq, ℤ, pos, count_if, All, Bool-cases, inl, inr,
  refl, sym, ap, ◌∙◌, subst, ltb→lt, if_elim, arith, count_if-append, length-append,
}
use wordbit_advanced.Domain.{Time, minute, hour, before}
use wordbit_advanced.Quota.{
  ModelQuotaState, QuotaCache, ModelAvailability, Block, prune, blocked_until, reserve, put_state,
  raise, is_recent, earliest_from, cooldown_block, minute_block, day_block, request_at, drop_before,
  minute_cutoff, day_cutoff, settle_reservation,
}

earliest_from-after :
    (requests : List Time) (cutoff earliest : Time)
    → All (λ r. r ≢ cutoff) requests
    → (cutoff < earliest) ⊎ ((earliest ≡ 0) × (0 < count_if (is_recent cutoff) requests))
    → cutoff < earliest_from requests cutoff earliest
earliest_from-after [] cutoff earliest away h = ground arith
earliest_from-after (r ∷ requests) cutoff earliest (away, rest) h = ground (
  arith,
  earliest_from-after requests cutoff earliest rest,
  earliest_from-after requests cutoff r rest,
)

pub raise-until :
    (b : Block) (candidate : Time) (reason : String)
    → (b.until ≤ (raise b candidate reason).until) × (candidate ≤ (raise b candidate reason).until)
raise-until b candidate reason = ground arith

minute_block-until :
    (requests : List Time) (now : Time) (n : ℕ) (b : Block)
    → 0 < n
    → n ≤ count_if (is_recent (minute_cutoff now)) requests
    → All (λ r. r ≢ minute_cutoff now) requests
    → now < (minute_block requests now (pos n) b).until
minute_block-until requests now n b lo full away =
    let e = earliest_from requests (minute_cutoff now) 0 in
    let later = earliest_from-after requests (minute_cutoff now) 0 away (inr (refl, omega arith)) in
    ground (arith, raise-until b (e + minute) "local rpm limit")

pub day_block-until :
    (requests : List Time) (limit : ℤ) (b : Block) → b.until ≤ (day_block requests limit b).until
day_block-until requests limit b = ground arith

gate_open :
    (until now : Time) (b : Block) → (if ltb now until then some b else none) ≡ none → until ≤ now
gate_open until now b h = ground arith

blocked_until-none :
    (st : ModelQuotaState) (now : Time) (rpm rpd : ℤ)
    → blocked_until st now rpm rpd ≡ none
    → (day_block st.requests rpd (minute_block st.requests now rpm (cooldown_block st now))).until
      ≤ now
unfolding blocked_until
blocked_until-none st now rpm rpd h =
    let b = day_block st.requests rpd (minute_block st.requests now rpm (cooldown_block st now)) in
    gate_open b.until now (if b.reason == "" then record b { reason = "model unavailable" } else b)
      h

free-rpm :
    (st : ModelQuotaState) (now : Time) (limit : ℕ) (rpd : ℤ)
    → 0 < limit
    → All (λ r. r ≢ minute_cutoff now) st.requests
    → blocked_until st now (pos limit) rpd ≡ none
    → count_if (is_recent (minute_cutoff now)) st.requests < limit
free-rpm st now limit rpd lo away free =
    let b = cooldown_block st now in
    let count = count_if (is_recent (minute_cutoff now)) st.requests in
    let quiet = blocked_until-none st now (pos limit) rpd free in
    let above = day_block-until st.requests rpd (minute_block st.requests now (pos limit) b) in
    elim (Bool-cases (ltb count limit)) [
      | inl fits ↦ ltb→lt count limit fits
      | inr full ↦
          let le : limit ≤ count = ground arith in
          let late = minute_block-until st.requests now limit b lo le away in absurd (omega arith)
    ]

-- A reservation that is made adds the present time to what is left of the model's requests, and nothing
-- had blocked it.
reserve-made :
    (q q' : QuotaCache) (model : String) (now : Time)
    → reserve q model now ≡ (none, q')
    → let st = prune (q.models model) now in
      (blocked_until st now q.rpm_limit q.rpd_limit ≡ none)
      × ((q'.models model).requests ≡ st.requests ++ (now ∷ []))
unfolding reserve
reserve-made q q' model now h =
    settled (prune (q.models model) now)
      (blocked_until (prune (q.models model) now) now q.rpm_limit q.rpd_limit) h
  where
    found : (st : ModelQuotaState) → (put_state q model st).models model ≡ st
    found st = let (sound, complete) = string_eq.equals_iff model model in rw (complete refl) refl

    after : Option ModelAvailability × QuotaCache → List Time
    after (o, q1) = (q1.models model).requests

    settled :
        (st : ModelQuotaState) (o : Option Block)
        → settle_reservation q model now st o ≡ (none, q')
        → (o ≡ none) × ((q'.models model).requests ≡ st.requests ++ (now ∷ []))
    settled st none e = (
      refl,
      sym (ap after e)
          ∙ ap (λ s. s.requests) (found (record st { requests = st.requests ++ (now ∷ []) })),
    )
    settled st (some b) e = cc

drop_before-All :
    (P : Time → Type 0) (cutoff : Time) (requests : List Time)
    → All P requests
    → All P (drop_before cutoff requests)
drop_before-All P cutoff [] h = tt
drop_before-All P cutoff (r ∷ requests) (p, rest) =
    if_elim (All P) (before r cutoff) (λ t. drop_before-All P cutoff requests rest) (λ f. (p, rest))

-- With a limit per minute, and no earlier request of the model exactly a minute old, a reservation that
-- is made leaves no more requests within the last minute, itself included, than the limit.
pub reserve-rpm :
    (q q' : QuotaCache) (model : String) (now : Time) (limit : ℕ)
    → q.rpm_limit ≡ pos limit
    → 0 < limit
    → All (λ r. r ≢ minute_cutoff now) (q.models model).requests
    → reserve q model now ≡ (none, q')
    → count_if (is_recent (minute_cutoff now)) (q'.models model).requests ≤ limit
unfolding prune
reserve-rpm q q' model now limit e lo away made =
    let (free, requests) = reserve-made q q' model now made in
    let st = prune (q.models model) now in
    let left =
      drop_before-All (λ r. r ≢ minute_cutoff now) (day_cutoff now) (q.models model).requests
        away in
    let room =
      free-rpm st now limit q.rpd_limit lo left
        (subst (λ l. blocked_until st now l q.rpd_limit ≡ none) e free) in
    rw requests
      (ground (arith, count_if-append (is_recent (minute_cutoff now)) st.requests (now ∷ [])))

-- The requests of a model are in the order of their times.
abbrev pub IsOrdered : List Time → Type 0
IsOrdered [] = Unit
IsOrdered (r ∷ requests) = All (λ s. r ≤ s) requests × IsOrdered requests

All-map :
    (P Q : Time → Type 0) (requests : List Time)
    → ((r : Time) → P r → Q r)
    → All P requests
    → All Q requests
All-map P Q [] f h = tt
All-map P Q (r ∷ requests) f (p, rest) = (f r p, All-map P Q requests f rest)

drop_before-recent :
    (cutoff : Time) (requests : List Time)
    → IsOrdered requests
    → All (λ r. cutoff ≤ r) (drop_before cutoff requests)
drop_before-recent cutoff [] h = tt
drop_before-recent cutoff (r ∷ requests) (above, rest) =
    if_elim (All (λ s. cutoff ≤ s)) (before r cutoff) (λ t. drop_before-recent cutoff requests rest)
      (λ f.
        let le : cutoff ≤ r = ground arith in
        (le, All-map (λ s. r ≤ s) (λ s. cutoff ≤ s) requests (λ s h. omega arith) above))

request_at-All :
    (P : Time → Type 0) (requests : List Time) (k : ℕ)
    → All P requests
    → k < length requests
    → P (request_at requests k)
request_at-All P [] k h lt = absurd (omega arith)
request_at-All P (r ∷ requests) zero (p, rest) lt = p
request_at-All P (r ∷ requests) (suc k) (p, rest) lt =
    request_at-All P requests k rest (omega arith)

free-rpd :
    (st : ModelQuotaState) (now : Time) (limit : ℕ) (rpm : ℤ)
    → 0 < limit
    → All (λ r. day_cutoff now < r) st.requests
    → blocked_until st now rpm (pos limit) ≡ none
    → length st.requests < limit
free-rpd st now limit rpm lo recent free =
    let b = minute_block st.requests now rpm (cooldown_block st now) in
    let quiet = blocked_until-none st now rpm (pos limit) free in
    elim (Bool-cases (ltb (length st.requests) limit)) [
      | inl fits ↦ ltb→lt (length st.requests) limit fits
      | inr full ↦
          let le : limit ≤ length st.requests = ground arith in
          let r = request_at st.requests (length st.requests - limit) in
          let late =
            request_at-All (λ r. day_cutoff now < r) st.requests (length st.requests - limit) recent
              (omega arith) in
          let lifted = raise-until b (r + 24 * hour) "local rpd limit" in absurd (ground arith)
    ]

-- With a limit per day, requests in the order of time, and none of them exactly a day old, a reservation
-- that is made leaves no more requests of the last day, itself included, than the limit.
pub reserve-rpd :
    (q q' : QuotaCache) (model : String) (now : Time) (limit : ℕ)
    → q.rpd_limit ≡ pos limit
    → 0 < limit
    → IsOrdered (q.models model).requests
    → All (λ r. r ≢ day_cutoff now) (q.models model).requests
    → reserve q model now ≡ (none, q')
    → length (q'.models model).requests ≤ limit
unfolding prune
reserve-rpd q q' model now limit e lo ordered away made =
    let (free, requests) = reserve-made q q' model now made in
    let st = prune (q.models model) now in
    let cutoff = day_cutoff now in
    let left = drop_before-All (λ r. r ≢ cutoff) cutoff (q.models model).requests away in
    let recent = drop_before-recent cutoff (q.models model).requests ordered in
    let room =
      free-rpd st now limit q.rpm_limit lo (All-and cutoff st.requests left recent)
        (subst (λ l. blocked_until st now q.rpm_limit l ≡ none) e free) in
    rw requests (ground (arith, length-append st.requests (now ∷ [])))
  where
    All-and :
        (cutoff : Time) (requests : List Time)
        → All (λ r. r ≢ cutoff) requests
        → All (λ r. cutoff ≤ r) requests
        → All (λ r. cutoff < r) requests
    All-and cutoff [] a b = tt
    All-and cutoff (r ∷ requests) (a, as_rest) (b, bs) =
        (ground arith, All-and cutoff requests as_rest bs)
