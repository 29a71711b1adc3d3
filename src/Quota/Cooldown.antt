-- ===== src/Quota/Cooldown.antt =====
-- internal/integrations/gemini/executor.go, `markRateLimited`: how long a model is left alone.
use wordbit_advanced.Prelude.{
  ℕ, ◌+◌, ◌<◌, ◌≤◌, ◌≡◌, Option, none, some, ltb, ◌==◌, if◌then◌else◌, String, string_eq, ℤ, refl,
  subst, arith, List, [], ◌∷◌, ◌++◌, Bool-cases, inl, inr,
}
use wordbit_advanced.Domain.{Time, minute}
use wordbit_advanced.Quota.{
  ModelQuotaState, QuotaCache, ModelAvailability, Block, prune, blocked_until, reserve, put_state,
  earliest_from, cooldown_block, minute_block, day_block, minute_cutoff, settle_reservation,
  mark_rate_limited, cooldown_of,
}
use wordbit_advanced.Quota.Limits.{day_block-until, raise-until}

minute_block-raises :
    (requests : List Time) (now : Time) (limit : ℤ) (b : Block)
    → b.until ≤ (minute_block requests now limit b).until
minute_block-raises requests now limit b =
    ground (
      arith,
      raise-until b (earliest_from requests (minute_cutoff now) 0 + minute) "local rpm limit",
    )

-- Refused, and not before this time.
abbrev pub IsRefusedUntil : Time → Option ModelAvailability × QuotaCache → Type 0
IsRefusedUntil until (some a, q) = until ≤ a.available_at
IsRefusedUntil until (none, q) = ⊥

abbrev pub IsBlockedUntil : Time → Option Block → Type 0
IsBlockedUntil until (some b) = until ≤ b.until
IsBlockedUntil until none = ⊥

gate_shut :
    (until t now : Time) (b : Block)
    → now < t
    → t ≤ until
    → until ≡ b.until
    → IsBlockedUntil t (if ltb now until then some b else none)
gate_shut until t now b lt le e = ground arith

blocked_until-cooldown :
    (st : ModelQuotaState) (now : Time) (rpm rpd : ℤ)
    → now < st.unavailable_until
    → IsBlockedUntil st.unavailable_until (blocked_until st now rpm rpd)
unfolding blocked_until
blocked_until-cooldown st now rpm rpd lt =
    let c = cooldown_block st now in
    let m = minute_block st.requests now rpm c in
    let d = day_block st.requests rpd m in
    let one : c.until ≡ st.unavailable_until = ground arith in
    let two = minute_block-raises st.requests now rpm c in
    let three = day_block-until st.requests rpd m in
    gate_shut d.until st.unavailable_until now
      (if d.reason == "" then record d { reason = "model unavailable" } else d) lt (omega arith)
      (ground arith)

refused :
    (q : QuotaCache) (model : String) (now until : Time) (st : ModelQuotaState) (o : Option Block)
    → IsBlockedUntil until o
    → IsRefusedUntil until (settle_reservation q model now st o)
refused q model now until st none h = h
refused q model now until st (some b) h = h

pub put_state-found :
    (q : QuotaCache) (model : String) (st : ModelQuotaState)
    → (put_state q model st).models model ≡ st
put_state-found q model st =
    let (sound, complete) = string_eq.equals_iff model model in rw (complete refl) refl

-- A call of the cache, with the time at which it is made.
pub data Call : Type 0 where
  call_reserve : String → Time → Call
  call_mark : String → Time → ℤ → String → Call

abbrev after_call : QuotaCache → Call → QuotaCache
after_call q (call_reserve model now) = (reserve q model now).1
after_call q (call_mark model now retry_after reason) =
    (mark_rate_limited q model now retry_after reason).1

abbrev pub after_calls : QuotaCache → List Call → QuotaCache
after_calls q [] = q
after_calls q (c ∷ calls) = after_calls (after_call q c) calls

put_state-keeps :
    (q : QuotaCache) (name model : String) (st : ModelQuotaState) (until : Time)
    → (q.models name).unavailable_until ≤ st.unavailable_until
    → until ≤ (q.models model).unavailable_until
    → until ≤ ((put_state q name st).models model).unavailable_until
put_state-keeps q name model st until grows le =
    let (sound, complete) = string_eq.equals_iff model name in
    elim (Bool-cases (model == name)) [
      | inl same ↦
          let e : model ≡ name = sound same in
          rw same (omega (arith, grows, subst (λ m. until ≤ (q.models m).unavailable_until) e le))
      | inr other ↦ rw other le
    ]

settle-keeps :
    (q : QuotaCache) (name model : String) (now : Time) (st : ModelQuotaState) (o : Option Block)
    (until : Time)
    → (q.models name).unavailable_until ≤ st.unavailable_until
    → until ≤ (q.models model).unavailable_until
    → until ≤ ((settle_reservation q name now st o).1.models model).unavailable_until
settle-keeps q name model now st (some b) until grows le =
    put_state-keeps q name model st until grows le
settle-keeps q name model now st none until grows le =
    put_state-keeps q name model (record st { requests = st.requests ++ (now ∷ []) }) until grows le

-- No call shortens a cooldown.
after_call-keeps :
    (q : QuotaCache) (c : Call) (model : String) (until : Time)
    → until ≤ (q.models model).unavailable_until
    → until ≤ ((after_call q c).models model).unavailable_until
unfolding reserve mark_rate_limited prune
after_call-keeps q (call_reserve name now) model until le =
    let st = prune (q.models name) now in
    settle-keeps q name model now st (blocked_until st now q.rpm_limit q.rpd_limit) until
      (omega arith) le
after_call-keeps q (call_mark name now retry_after reason) model until le =
    let st = prune (q.models name) now in
    let at = now + cooldown_of retry_after in
    put_state-keeps q name model
      (record st {
        unavailable_until = if ltb st.unavailable_until at then at else st.unavailable_until;
        last_reason = if reason == "" then "upstream rate limit" else reason;
      })
      until (ground arith) le

after_calls-keeps :
    (q : QuotaCache) (calls : List Call) (model : String) (until : Time)
    → until ≤ (q.models model).unavailable_until
    → until ≤ ((after_calls q calls).models model).unavailable_until
after_calls-keeps q [] model until le = le
after_calls-keeps q (c ∷ calls) model until le =
    after_calls-keeps (after_call q c) calls model until (after_call-keeps q c model until le)

IsRefusedUntil-le :
    (until t : Time) (r : Option ModelAvailability × QuotaCache)
    → until ≤ t
    → IsRefusedUntil t r
    → IsRefusedUntil until r
IsRefusedUntil-le until t (some a, q) le h = omega (arith, le, h)
IsRefusedUntil-le until t (none, q) le h = h

reserve-refused :
    (q : QuotaCache) (model : String) (later until : Time)
    → later < until
    → until ≤ (q.models model).unavailable_until
    → IsRefusedUntil until (reserve q model later)
unfolding reserve prune
reserve-refused q model later until lt le =
    let st = prune (q.models model) later in
    let o = blocked_until st later q.rpm_limit q.rpd_limit in
    IsRefusedUntil-le until (q.models model).unavailable_until
      (settle_reservation q model later st o) le
      (refused q model later (q.models model).unavailable_until st o
        (blocked_until-cooldown st later q.rpm_limit q.rpd_limit (omega (arith, lt, le))))

abbrev IsMarked : QuotaCache → String → Time → ℕ → ModelAvailability × QuotaCache → Type 0
IsMarked q model now cooldown (a, q') =
    (now + cooldown ≤ a.available_at)
    × ((q.models model).unavailable_until ≤ a.available_at)
    × (a.available_at ≤ (q'.models model).unavailable_until)

mark-IsMarked :
    (q : QuotaCache) (model : String) (now : Time) (retry_after : ℤ) (reason : String)
    → IsMarked q model now
        (cooldown_of retry_after)
        (mark_rate_limited q model now retry_after reason)
unfolding mark_rate_limited prune
mark-IsMarked q model now retry_after reason =
    let st = prune (q.models model) now in
    let at = now + cooldown_of retry_after in
    let st' = record st {
      unavailable_until = if ltb st.unavailable_until at then at else st.unavailable_until;
      last_reason = if reason == "" then "upstream rate limit" else reason;
    } in
    (ground arith, ground arith, rw (put_state-found q model st') (omega arith))

-- After a rate limit was met, until the time that is answered, which is no earlier than now plus the cooldown and than any time set before, every
-- reservation of the model is refused and names a time that is no earlier, whatever reservations and rate limits of any model come in between.
pub mark_rate_limited-refuses :
    (q q' : QuotaCache) (model : String) (now later : Time) (retry_after : ℤ) (reason : String)
    (a : ModelAvailability) (calls : List Call)
    → mark_rate_limited q model now retry_after reason ≡ (a, q')
    → later < a.available_at
    → (now + cooldown_of retry_after ≤ a.available_at)
      × ((q.models model).unavailable_until ≤ a.available_at)
      × IsRefusedUntil a.available_at (reserve (after_calls q' calls) model later)
mark_rate_limited-refuses q q' model now later retry_after reason a calls h lt =
    let (cooled, kept, marked) =
      subst (IsMarked q model now (cooldown_of retry_after)) h
        (mark-IsMarked q model now retry_after reason) in
    (
      cooled,
      kept,
      reserve-refused (after_calls q' calls) model later a.available_at lt
          (after_calls-keeps q' calls model a.available_at marked),
    )
