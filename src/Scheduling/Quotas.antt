-- ===== src/Scheduling/Quotas.antt =====
-- internal/service/logic.go: how many words a day asks for. The limit is an `int`, so that the guards
-- on a negative one stand as in the source.
use wordbit_advanced.Prelude.{if◌then◌else◌, ℤ, pos, leb_ℤ, ltb_ℤ, ◌*ℤ◌}
use wordbit_advanced.Float64.{Float64}

module _ {F : Type 0} where
  unfoldable pub compute_weak_slots : Float64 F → ℤ → ℤ
  compute_weak_slots fl daily_limit =
      if leb_ℤ daily_limit (pos 0)
      then pos 0
      else (let slots = fl.to_int (fl.ceil (fl.div (fl.of_int daily_limit) (fl.dec 30 1))) in
          if ltb_ℤ (pos 3) slots then pos 3 else slots)

unfoldable pub compute_new_word_prefetch_batch_size : ℤ → ℤ
compute_new_word_prefetch_batch_size daily_limit =
    if ltb_ℤ daily_limit (pos 0) then pos 0 else daily_limit *ℤ pos 2

unfoldable pub compute_new_word_quota : ℤ → ℤ → ℤ → ℤ → ℤ
unfolding compute_new_word_prefetch_batch_size
compute_new_word_quota daily_limit due_review short_term weak_slots =
    compute_new_word_prefetch_batch_size daily_limit
