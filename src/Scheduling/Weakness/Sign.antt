-- ===== src/Scheduling/Weakness/Sign.antt =====
-- internal/service/logic.go: the weakness score is not negative, and recovery cannot erase it all.
use wordbit_advanced.Prelude.{◌≡◌, false, arith}
use wordbit_advanced.Float64.{Float64, max_float}
use wordbit_advanced.Domain.{UserWordState}
use wordbit_advanced.Scheduling.Weakness.{compute_weakness_score_from_ratings}

module _ {F : Type 0} ⦃fl : Float64 F⦄ (lt_irrefl : (x : F) → fl.lt x x ≡ false) where
  pub max_float-nonneg : (x zero : F) → fl.lt (max_float zero x) zero ≡ false
  max_float-nonneg x zero = ground (arith, lt_irrefl zero)

  -- If no float is less than itself, the weakness score of a word is not less than zero.
  weakness-nonneg :
      (st : UserWordState F) → fl.lt (compute_weakness_score_from_ratings st) (fl.dec 0 1) ≡ false
  unfolding compute_weakness_score_from_ratings
  weakness-nonneg st = max_float-nonneg _ (fl.dec 0 1)
